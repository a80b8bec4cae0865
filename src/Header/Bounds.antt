-- ===== src/Header/Bounds.antt =====
-- The headers that `parse_header` of src/sceptre_pipeline/interpreter.py returns, and when it raises.
use sceptre_pipeline.Prelude.{
  ℕ, ◌≤◌, ◌<◌, ◌^◌, ◌≡◌, ◌↔◌, ◌⊎◌, Bool, true, false, Option, none, some, length, take, arith,
}
use mathlib.Core.Path.{subst}
use sceptre_pipeline.Prelude.Bytes.{Bytes, from_be}
use sceptre_pipeline.Result.{ok, err, value_error}
use sceptre_pipeline.Formats.{carries_stream_id, truthy, header_length}
use sceptre_pipeline.Header.{Header, take_field, read_fields, expected_len, parse_header}

abbrev is_some {ℓ} : {A : Type ℓ} → Option A → Bool
is_some none = false
is_some (some a) = true

-- The parsed header lies in the datagram, its fields fit their bits, each optional field is there
-- just if its flag says so, and its length is the one that the flags imply.
pub record IsParsed (b : Bytes) (h : Header) : Type 0 where
  pub fits : h.header_len ≤ length b
  pub packet_type : h.packet_type < 16
  pub packet_counter : h.packet_counter < 16
  pub packet_size : h.packet_size < 2 ^ 16
  pub stream_id : is_some h.stream_id ≡ carries_stream_id h.packet_type
  pub int_ts : is_some h.int_ts ≡ truthy h.tsi
  pub frac_ps : is_some h.frac_ps ≡ truthy h.tsf
  pub header_len :
      h.header_len
      ≡ header_length (carries_stream_id h.packet_type) (is_some h.class_id) h.tsi h.tsf

fields_lem : (w : ℕ) (b : Bytes) → expected_len w ≤ length b → IsParsed b (read_fields w b)
unfolding read_fields take_field expected_len
fields_lem w b h = record {
  fits = ground arith;
  packet_type = omega arith;
  packet_counter = omega arith;
  packet_size = omega arith;
  stream_id = ground arith;
  int_ts = ground arith;
  frac_ps = ground arith;
  header_len = ground arith;
}

parse_header_inv :
    (b : Bytes) (h : Header)
    → parse_header b ≡ ok h
    → (expected_len (from_be (take 4 b)) ≤ length b) × (read_fields (from_be (take 4 b)) b ≡ h)
unfolding parse_header
parse_header_inv b h e = ground arith

-- A parsed header lies within the datagram, its packet type, counter and size fit their bits, its
-- stream id and timestamps are there just if the type and the flags say so, and its length is the
-- one that the flags imply.
pub parse_header-IsParsed : (b : Bytes) (h : Header) → parse_header b ≡ ok h → IsParsed b h
parse_header-IsParsed b h e =
    let (fits, read) = parse_header_inv b h e in
    subst (IsParsed b) read (fields_lem (from_be (take 4 b)) b fits)

-- `parse_header` raises just if the datagram is shorter than word0, or shorter than the header that
-- its word0 calls for.
pub parse_header-err :
    (b : Bytes)
    → (parse_header b ≡ err value_error)
      ↔ ((length b < 4) ⊎ (length b < expected_len (from_be (take 4 b))))
unfolding parse_header
parse_header-err b = (λ e. ground arith, λ e. ground arith)
