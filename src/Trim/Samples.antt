-- ===== src/Trim/Samples.antt =====
-- What `trim_data` of src/sceptre_pipeline/interpreter.py keeps of a data packet.
use sceptre_pipeline.Prelude.{
  ℕ, ◌+◌, ◌-◌, ◌*◌, ◌/◌, ◌≤◌, ◌<◌, ◌≡◌, ◌↔◌, arith, length, take, max, length-take, drop, take-take,
  ◌∙◌,
}
use sceptre_pipeline.Prelude.Bytes.{Bytes, slice, length-slice}
use sceptre_pipeline.Result.{ok}
use sceptre_pipeline.Header.{Header}
use sceptre_pipeline.Trim.{declared, trailer_of, data_end, trim_data}

-- Whole samples from the end of the header on, up to the trailer of the declared packet, and as
-- many as fit.
pub record IsTrimmed (b : Bytes) (hdr : Header) (bps : ℕ) (body : Bytes) (n : ℕ) : Type 0 where
  pub positive : 0 < bps
  pub complete : declared hdr ≤ length b
  pub size : length body ≡ n * bps
  pub place : body ≡ slice b hdr.header_len (n * bps)
  pub inside : hdr.header_len + n * bps ≤ max hdr.header_len (declared hdr - trailer_of hdr)
  pub maximal : declared hdr - trailer_of hdr < hdr.header_len + n * bps + bps

slice-take : (b : Bytes) (off n m : ℕ) → n ≤ m → take n (slice b off m) ≡ slice b off n
unfolding slice
slice-take b off n m le = take-take n m (drop off b) le

div_bounds : (l q n : ℕ) → 0 < n → q ≡ l / n → (q * n ≤ l) × (l < q * n + n)
div_bounds l q n pos e = rw e (omega arith)

module _ (b : Bytes) (hdr : Header) (bps : ℕ) where
  -- the slice `b[start:end]`
  abbrev payload : Bytes
  payload = slice b hdr.header_len (data_end b hdr - hdr.header_len)

  trim_inv :
      (body : Bytes) (n : ℕ)
      → trim_data b hdr bps ≡ ok (body, n)
      → (declared hdr ≤ length b)
        × (0 < bps)
        × (n ≡ length payload / bps)
        × (body ≡ take (n * bps) payload)
  unfolding trim_data
  trim_inv body n e = ground arith

  -- If the header lies in the datagram and `trim_data` returns, then the sample size is positive,
  -- the declared packet is complete, and the body is the slice from the end of the header that
  -- holds the returned number of whole samples, ends within the declared packet less its trailer
  -- or, if that is shorter than the header, is empty, and leaves less than one sample there.
  pub trim_data-IsTrimmed :
      (body : Bytes) (n : ℕ)
      → hdr.header_len ≤ length b
      → trim_data b hdr bps ≡ ok (body, n)
      → IsTrimmed b hdr bps body n
  trim_data-IsTrimmed body n fits e =
      let (complete, positive, count, cut) = trim_inv body n e in
      let (lo, hi) = div_bounds (length payload) n bps positive count in
      let len = length-slice b hdr.header_len (data_end b hdr - hdr.header_len) in
      record {
        positive = positive;
        complete = complete;
        size = rw cut (omega (arith, length-take (n * bps) payload));
        place =
            cut
            ∙ slice-take b hdr.header_len (n * bps) (data_end b hdr - hdr.header_len) (omega arith);
        inside = omega arith;
        maximal = omega arith;
      }

  accepted :
      0 < bps
      → declared hdr ≤ length b
      → trim_data b hdr bps ≡ ok (take (length payload / bps * bps) payload, length payload / bps)
  unfolding trim_data
  accepted pos le = ground arith

  -- For a positive sample size, `trim_data` returns just if the datagram is at least as long as the
  -- declared packet.
  pub trim_data_iff :
      0 < bps
      → ((body : Bytes) × (n : ℕ) × (trim_data b hdr bps ≡ ok (body, n)))
        ↔ (declared hdr ≤ length b)
  trim_data_iff pos = (λ (body, n, e). (trim_inv body n e).0, λ le. (_, _, accepted pos le))
