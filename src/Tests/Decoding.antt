-- ===== src/Tests/Decoding.antt =====
-- The decoders on the packets of `Packets`.
use sceptre_pipeline.Prelude.{
  ℕ, ◌+◌, ◌*◌, ◌^◌, ◌<◌, ◌≤◌, ◌≡◌, ◌↔◌, ◌⊎◌, refl, Bool, true, [], ◌∷◌, ◌++◌, length, take, arith,
}
use sceptre_pipeline.Prelude.Bytes.{Bytes, from_be}
use sceptre_pipeline.Floats.{fixed_point}
use sceptre_pipeline.Result.{ok, err, value_error}
use sceptre_pipeline.Header.{parse_header, expected_len}
use sceptre_pipeline.Header.Bounds.{IsParsed, parse_header-IsParsed, parse_header-err}
use sceptre_pipeline.Header.Roundtrip.{parse_header-encode_header}
use sceptre_pipeline.Header.Encoder.{IsWire, encode_header}
use sceptre_pipeline.Payload.{decode_payload_format}
use sceptre_pipeline.Payload.Supported.{Item, format_word, supported_iff}
use sceptre_pipeline.Context.{decode_context, end_limit_of, cif_of}
use sceptre_pipeline.Context.Walk.{IsOk, span}
use sceptre_pipeline.Context.Fields.{decode_context_iff, decode_context_fields, IsDecoded}
use sceptre_pipeline.Trim.{declared, trim_data}
use sceptre_pipeline.Trim.Samples.{IsTrimmed, trim_data-IsTrimmed, trim_data_iff}
use sceptre_pipeline.Tests.Packets.{
  header, context_packet, samples, data_packet, parsed, decoded, trimmed, declared_context,
}

wire : IsWire (header 1 3 5)
wire = record {
  packet_type = omega arith;
  tsi = omega arith;
  tsf = omega arith;
  packet_counter = omega arith;
  packet_size = omega arith;
  stream_id = omega arith;
  class_id = tt;
  int_ts = omega arith;
  frac_ps = tt;
  has_stream_id = refl;
  has_int_ts = refl;
  has_frac_ps = refl;
  header_len = refl;
}

parse_header-encode_header_example :
    parse_header (encode_header (header 1 3 5) ++ samples) ≡ ok (header 1 3 5)
parse_header-encode_header_example = parse_header-encode_header (header 1 3 5) wire samples

parse_header-IsParsed_example : IsParsed (data_packet 3) (header 1 3 5)
parse_header-IsParsed_example = parse_header-IsParsed (data_packet 3) (header 1 3 5) parsed

abbrev two_bytes : Bytes
two_bytes = 1 ∷ 2 ∷ []

parse_header-err_example :
    (parse_header two_bytes ≡ err value_error)
    ↔ ((length two_bytes < 4) ⊎ (length two_bytes < expected_len (from_be (take 4 two_bytes))))
parse_header-err_example = parse_header-err two_bytes

-- complex 16-bit integers
supported_iff_example :
    ((decode_payload_format (2 ^ 61 + 15 * 2 ^ 38 + 15 * 2 ^ 32)).supported ≡ true)
    ↔ ((c : Bool) × (i : Item) × (2 ^ 61 + 15 * 2 ^ 38 + 15 * 2 ^ 32 ≡ format_word c i))
supported_iff_example = supported_iff (2 ^ 61 + 15 * 2 ^ 38 + 15 * 2 ^ 32) (omega arith)

decode_context_iff_example : IsOk (decode_context fixed_point context_packet (header 4 0 8)) ↔ (
    12 + 4 + span (cif_of fixed_point context_packet (header 4 0 8)) 32
    ≤ end_limit_of fixed_point context_packet (header 4 0 8))
decode_context_iff_example = decode_context_iff fixed_point context_packet (header 4 0 8)

decode_context_fields_example : IsDecoded fixed_point context_packet (header 4 0 8) declared_context
decode_context_fields_example =
    decode_context_fields fixed_point context_packet (header 4 0 8) declared_context decoded

trim_data-IsTrimmed_example : IsTrimmed (data_packet 3) (header 1 3 5) 4 samples 2
trim_data-IsTrimmed_example =
    trim_data-IsTrimmed (data_packet 3) (header 1 3 5) 4 samples 2
      (parse_header-IsParsed_example.fits) trimmed

trim_data_iff_example :
    ((body : Bytes) × (n : ℕ) × (trim_data (data_packet 3) (header 1 3 5) 4 ≡ ok (body, n)))
    ↔ (declared (header 1 3 5) ≤ length (data_packet 3))
trim_data_iff_example = trim_data_iff (data_packet 3) (header 1 3 5) 4 (omega arith)
