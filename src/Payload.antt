-- ===== src/Payload.antt =====
-- `decode_payload_format` of src/sceptre_pipeline/interpreter.py: which payload-format words are
-- supported, without what it logs of the others.
pub mod Supported
use Prim.Native.String.{String}
use sceptre_pipeline.Prelude.{
  ℕ, ◌+◌, ◌*◌, ◌/◌, ◌%◌, ◌^◌, Bool, true, false, ◌&&◌, ◌||◌, Option, none, some, ◌==◌,
  if◌then◌else◌,
}
use sceptre_pipeline.Formats.{item_format_dtype, rc_type_real, rc_type_complex_cartesian}

pub record PayloadFormat : Type 0 where
  pub is_complex : Bool
  pub rc_type : ℕ
  pub data_item_format : ℕ
  pub packing_method : ℕ
  pub item_bits : ℕ
  pub item_packing_bits : ℕ
  pub event_tag : ℕ
  pub channel_tag : ℕ
  pub sample_component_repeat : ℕ
  pub fraction_size : ℕ
  pub repeat_count : ℕ
  pub vector_size : ℕ
  pub component_dtype : Option String
  pub bytes_per_sample : Option ℕ
  pub supported : Bool

abbrev pub is_some {ℓ} : {A : Type ℓ} → Option A → Bool
is_some none = false
is_some (some a) = true

unfoldable pub decode_payload_format : ℕ → PayloadFormat
decode_payload_format u =
    let packing_method = u / 2 ^ 63 % 2 in
    let rc_type = u / 2 ^ 61 % 4 in
    let data_item_format = u / 2 ^ 56 % 32 in
    let sample_component_repeat = u / 2 ^ 55 % 2 in
    let event_tag = u / 2 ^ 52 % 8 in
    let channel_tag = u / 2 ^ 48 % 16 in
    let fraction_size = u / 2 ^ 44 % 16 in
    let item_packing_bits = u / 2 ^ 38 % 64 + 1 in
    let item_bits = u / 2 ^ 32 % 64 + 1 in
    let repeat_count = u / 2 ^ 16 % 2 ^ 16 in
    let vector_size = u % 2 ^ 16 in
    let component_dtype = item_format_dtype data_item_format item_bits in
    let supported =
      packing_method == 0
      && (rc_type == rc_type_real || rc_type == rc_type_complex_cartesian)
      && is_some component_dtype
      && item_packing_bits == item_bits
      && event_tag == 0
      && channel_tag == 0
      && sample_component_repeat == 0
      && fraction_size == 0
      && repeat_count == 0
      && vector_size == 0 in
    let is_complex = rc_type == rc_type_complex_cartesian in
    record {
      is_complex = is_complex;
      rc_type = rc_type;
      data_item_format = data_item_format;
      packing_method = packing_method;
      item_bits = item_bits;
      item_packing_bits = item_packing_bits;
      event_tag = event_tag;
      channel_tag = channel_tag;
      sample_component_repeat = sample_component_repeat;
      fraction_size = fraction_size;
      repeat_count = repeat_count;
      vector_size = vector_size;
      component_dtype = if supported then component_dtype else none;
      bytes_per_sample =
          if supported then some ((if is_complex then 2 else 1) * (item_bits / 8)) else none;
      supported = supported;
    }
