-- ===== src/Header/Roundtrip.antt =====
-- `parse_header` of src/sceptre_pipeline/interpreter.py against a sender of the documented layout.
use sceptre_pipeline.Prelude.{
  ℕ, ◌+◌, ◌≤◌, ◌≡◌, refl, ap, ◌∙◌, ◌++◌, length, take, arith, append_assoc, length-append,
  take-append, le→ltb, if◌then◌else◌,
}
use sceptre_pipeline.Prelude.Bytes.{Bytes, from_be, to_be, length-to_be, from_be-to_be}
use sceptre_pipeline.Result.{ok}
use sceptre_pipeline.Formats.{carries_stream_id, truthy}
use sceptre_pipeline.Header.{Header, take_field, read_fields, parse_header}
use sceptre_pipeline.Header.Encoder.{is_some, bytes_of, be_option, word0_of, encode_header, IsWire}
use sceptre_pipeline.Header.Word0.{
  take_field-append, is_some-be_option, number-be_option, HasSize-be_option, length-part,
  length-be_part, word0_lt, packet_type-word0, class_id-word0, trailer-word0, tsi-word0, tsf-word0,
  counter-word0, size-word0, expected_len-word0,
}

module _ (h : Header) (v : IsWire h) where
  module _ (rest : Bytes) where
    abbrev stream_part : Bytes
    stream_part = bytes_of (be_option 4 h.stream_id)

    abbrev class_part : Bytes
    class_part = bytes_of h.class_id

    abbrev int_part : Bytes
    int_part = bytes_of (be_option 4 h.int_ts)

    abbrev frac_part : Bytes
    frac_part = bytes_of (be_option 8 h.frac_ps)

    abbrev packet : Bytes
    packet = encode_header h ++ rest

    abbrev upto_stream : Bytes
    upto_stream = to_be 4 (word0_of h) ++ stream_part

    abbrev upto_class : Bytes
    upto_class = upto_stream ++ class_part

    abbrev upto_int : Bytes
    upto_int = upto_class ++ int_part

    take_stream :
        take_field (carries_stream_id h.packet_type) 4 packet 4
        ≡ (be_option 4 h.stream_id, length upto_stream)
    unfolding encode_header
    take_stream =
        rw (← v.has_stream_id, ← is_some-be_option 4 h.stream_id)
          (take_field-append (be_option 4 h.stream_id) 4 _ (to_be 4 (word0_of h))
            ((class_part ++ (int_part ++ frac_part)) ++ rest) 4 (simp append_assoc)
            (length-to_be 4 (word0_of h)) (HasSize-be_option 4 h.stream_id))

    take_class :
        take_field (is_some h.class_id) 8 packet (length upto_stream)
        ≡ (h.class_id, length upto_class)
    unfolding encode_header
    take_class =
        take_field-append h.class_id 8 _ upto_stream ((int_part ++ frac_part) ++ rest) _
          (simp append_assoc) refl v.class_id

    take_int :
        take_field (truthy h.tsi) 4 packet (length upto_class)
        ≡ (be_option 4 h.int_ts, length upto_int)
    unfolding encode_header
    take_int =
        rw (← v.has_int_ts, ← is_some-be_option 4 h.int_ts)
          (take_field-append (be_option 4 h.int_ts) 4 _ upto_class (frac_part ++ rest) _
            (simp append_assoc) refl (HasSize-be_option 4 h.int_ts))

    take_frac :
        take_field (truthy h.tsf) 8 packet (length upto_int)
        ≡ (be_option 8 h.frac_ps, length (upto_int ++ frac_part))
    unfolding encode_header
    take_frac =
        rw (← v.has_frac_ps, ← is_some-be_option 8 h.frac_ps)
          (take_field-append (be_option 8 h.frac_ps) 8 _ upto_int rest _ (simp append_assoc) refl
            (HasSize-be_option 8 h.frac_ps))

    header_len-flags :
        h.header_len
        ≡ 4
          + (if is_some h.stream_id then 4 else 0)
          + (if is_some h.class_id then 8 else 0)
          + (if is_some h.int_ts then 4 else 0)
          + (if is_some h.frac_ps then 8 else 0)
    header_len-flags = v.header_len ∙ rw (← v.has_stream_id, ← v.has_int_ts, ← v.has_frac_ps)

    length-header : length (upto_int ++ frac_part) ≡ h.header_len
    length-header = omega (
      arith,
      header_len-flags,
      length-append upto_int frac_part,
      length-append upto_class int_part,
      length-append upto_stream class_part,
      length-append (to_be 4 (word0_of h)) stream_part,
      length-to_be 4 (word0_of h),
      length-be_part 4 h.stream_id,
      length-part 8 h.class_id v.class_id,
      length-be_part 4 h.int_ts,
      length-be_part 8 h.frac_ps,
    )

    word0-packet : from_be (take 4 packet) ≡ word0_of h
    unfolding encode_header
    word0-packet =
        rw (append_assoc, take-append 4 (to_be 4 (word0_of h)) _ (length-to_be 4 (word0_of h)))
          (from_be-to_be 4 (word0_of h) (word0_lt h v))

    read_fields-encode_header : read_fields (word0_of h) packet ≡ h
    unfolding read_fields
    read_fields-encode_header = rw (
      packet_type-word0 h v,
      class_id-word0 h v,
      trailer-word0 h v,
      tsi-word0 h v,
      tsf-word0 h v,
      counter-word0 h v,
      size-word0 h v,
      take_stream,
      take_class,
      take_int,
      take_frac,
      length-header,
      number-be_option 4 h.stream_id v.stream_id,
      number-be_option 4 h.int_ts v.int_ts,
      number-be_option 8 h.frac_ps v.frac_ps,
    )

    length-packet : length packet ≡ h.header_len + length rest
    unfolding encode_header
    length-packet =
        length-append (encode_header h) rest
        ∙ ap (λ (n : ℕ). n + length rest) (ap length (simp append_assoc) ∙ length-header)

    header_len-ge : 4 ≤ h.header_len
    header_len-ge = rw v.header_len (omega arith)

    -- A header whose fields fit their bits, with each optional field there just if its flag says so
    -- and the length that the flags imply, written in the order word0, stream id, class id, integer
    -- timestamp, fractional timestamp, is parsed back as it was, whatever follows it.
    pub parse_header-encode_header : parse_header (encode_header h ++ rest) ≡ ok h
    unfolding parse_header
    parse_header-encode_header = rw (
      le→ltb (length packet) 4 (omega (arith, length-packet, header_len-ge)),
      word0-packet,
      expected_len-word0 h v,
      le→ltb (length packet) h.header_len (omega (arith, length-packet)),
      read_fields-encode_header,
    )
