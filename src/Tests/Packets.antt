-- ===== src/Tests/Packets.antt =====
-- A context packet and two data packets of the stream 7.
use sceptre_pipeline.Prelude.{
  ℕ, ◌+◌, ◌*◌, ◌^◌, ◌≡◌, refl, true, false, none, some, List, [], ◌∷◌, ◌++◌, if◌then◌else◌,
}
use text.Mathlib.Text.{◌==◌ as str_eq}
use sceptre_pipeline.Prelude.Bytes.{Bytes, to_be, from_be, slice}
use sceptre_pipeline.Floats.{fixed_point}
use sceptre_pipeline.Numpy.{Numpy}
use sceptre_pipeline.Result.{ok}
use sceptre_pipeline.Header.{Header, parse_header, read_fields, take_field, expected_len}
use sceptre_pipeline.Header.Encoder.{encode_header, word0_of}
use sceptre_pipeline.Payload.Supported.{format_word, int16}
use sceptre_pipeline.Context.{Context, decode_context, walk, visit, decode_field}
use sceptre_pipeline.Formats.{field_size, item_format_dtype}
use sceptre_pipeline.Payload.{decode_payload_format}
use sceptre_pipeline.Trim.{trim_data}
use sceptre_pipeline.Interpreter.{Interpreter, init}

abbrev pub header : ℕ → ℕ → ℕ → Header
header packet_type counter packet_size = record {
  packet_type = packet_type;
  class_id = none;
  has_trailer = false;
  tsi = 1;
  tsf = 0;
  packet_counter = counter;
  packet_size = packet_size;
  stream_id = some 7;
  int_ts = some 1000;
  frac_ps = none;
  header_len = 12;
}

-- CIF0 with the sample rate and the payload format, of complex 16-bit integers
abbrev pub context_packet : Bytes
context_packet =
    encode_header (header 4 0 8)
    ++ (to_be 4 (2 ^ 21 + 2 ^ 15) ++ (to_be 8 (1000 * 2 ^ 20) ++ to_be 8 (format_word true int16)))

abbrev pub samples : Bytes
samples = 1 ∷ 2 ∷ 3 ∷ 4 ∷ 5 ∷ 6 ∷ 7 ∷ 8 ∷ []

abbrev pub data_packet : ℕ → Bytes
data_packet counter = encode_header (header 1 counter 5) ++ samples

abbrev pub start : Interpreter ℕ
start = init 4

abbrev pub packets : List Bytes
packets = context_packet ∷ data_packet 3 ∷ data_packet 5 ∷ (9 ∷ []) ∷ []

-- big-endian 16-bit integers
abbrev pub np : Numpy Bytes
np = record {
  dtype = λ name. if str_eq name ">i2" then some (record { kind = 105; itemsize = 2 }) else none;
  to_float32 = λ name raw. raw;
  view_complex64 = λ arr. arr;
}

pub parsed : parse_header (data_packet 3) ≡ ok (header 1 3 5)
unfolding parse_header read_fields take_field expected_len encode_header word0_of to_be from_be
    slice
parsed = refl

-- what the context packet declares
abbrev pub declared_context : Context ℕ
declared_context = record {
  context_field_change = none;
  bandwidth_hz = none;
  rf_hz = none;
  gain_db = none;
  sample_rate_hz = some (1000 * 2 ^ 20);
  supported = some true;
  component_dtype = some ">i2";
  bytes_per_sample = some 4;
  is_complex = some true;
  data_item_format = some 0;
}

pub decoded : decode_context fixed_point context_packet (header 4 0 8) ≡ ok declared_context
unfolding decode_context walk visit decode_field decode_payload_format format_word encode_header
    word0_of to_be from_be slice field_size item_format_dtype
decoded = refl

pub trimmed : trim_data (data_packet 3) (header 1 3 5) 4 ≡ ok (samples, 2)
unfolding trim_data encode_header word0_of to_be slice
trimmed = refl
