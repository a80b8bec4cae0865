-- ===== src/Context.antt =====
-- `decode_context` of src/sceptre_pipeline/interpreter.py: the walk over the CIF0 word, without what
-- it logs.
pub mod Walk
pub mod Fields
use Prim.Native.String.{String}
use Prim.Native.Nat.{suc, zero}
use sceptre_pipeline.Prelude.{
  ℕ, ◌+◌, ◌*◌, ◌/◌, ◌%◌, ◌^◌, Bool, true, false, Option, none, some, length, min, ltb, ◌==◌,
  if◌then◌else◌,
}
use sceptre_pipeline.Prelude.Bytes.{Bytes, slice, from_be}
use sceptre_pipeline.Prelude.Int.{signed}
use sceptre_pipeline.Floats.{Floats}
use sceptre_pipeline.Result.{Result, ok, err, value_error}
use sceptre_pipeline.Formats.{
  field_size, truthy, context_field_change_bit, cif_bandwidth, cif_rf_ref_freq, cif_gain,
  cif_sample_rate, cif_data_payload_format, radix_freq_hz, radix_gain_db,
}
use sceptre_pipeline.Header.{Header}
use sceptre_pipeline.Payload.{PayloadFormat, decode_payload_format}

-- The typed dict. A key that is absent and one whose value is `None` read alike by `.get`.
pub record Context (F : Type 0) : Type 0 where
  pub context_field_change : Option Bool
  pub bandwidth_hz : Option F
  pub rf_hz : Option F
  pub gain_db : Option F
  pub sample_rate_hz : Option F
  pub supported : Option Bool
  pub component_dtype : Option String
  pub bytes_per_sample : Option ℕ
  pub is_complex : Option Bool
  pub data_item_format : Option ℕ

abbrev pub empty_context : {F : Type 0} → Context F
empty_context = record {
  context_field_change = none;
  bandwidth_hz = none;
  rf_hz = none;
  gain_db = none;
  sample_rate_hz = none;
  supported = none;
  component_dtype = none;
  bytes_per_sample = none;
  is_complex = none;
  data_item_format = none;
}

-- One round of the loop: go on at an offset with the dict so far, or leave the loop.
pub data Move (F : Type 0) : Type 0 where
  go : ℕ → Context F → Move F
  stop : Result (Context F) → Move F

-- `(cif >> bit) & 1`
abbrev pub is_set : ℕ → ℕ → Bool
is_set cif bit = truthy (cif / 2 ^ bit % 2)

module _ {F : Type 0} (fl : Floats F) where
  abbrev pub freq : Bytes → F
  freq field = fl.ratio (signed 64 (from_be field)) radix_freq_hz

  abbrev pub gain : Bytes → F
  gain field =
      fl.add (fl.ratio (signed 16 (from_be (slice field 0 2))) radix_gain_db)
        (fl.ratio (signed 16 (from_be (slice field 2 2))) radix_gain_db)

  abbrev pub put_format : PayloadFormat → Context F → Context F
  put_format fmt ctx = record ctx {
    supported = some fmt.supported;
    component_dtype = fmt.component_dtype;
    bytes_per_sample = fmt.bytes_per_sample;
    is_complex = some fmt.is_complex;
    data_item_format = some fmt.data_item_format;
  }

  -- the branches on `bit` that store a field
  unfoldable pub decode_field : ℕ → Bytes → Context F → Context F
  decode_field bit field ctx =
      if bit == cif_bandwidth
      then record ctx { bandwidth_hz = some (freq field) }
      else if bit == cif_rf_ref_freq
      then record ctx { rf_hz = some (freq field) }
      else if bit == cif_gain
      then record ctx { gain_db = some (gain field) }
      else if bit == cif_sample_rate
      then record ctx { sample_rate_hz = some (freq field) }
      else if bit == cif_data_payload_format
      then put_format (decode_payload_format (from_be field)) ctx
      else ctx

  module _ (b : Bytes) (end_limit cif : ℕ) where
    unfoldable pub visit : ℕ → ℕ → Context F → Move F
    visit bit offset ctx =
        if is_set cif bit
        then (if bit == context_field_change_bit
            then go offset (record ctx { context_field_change = some true })
            else elim (field_size bit) [
              | none ↦ stop (ok ctx)
              | some size ↦
                  if ltb end_limit (offset + size)
                  then stop (err value_error)
                  else go (offset + size) (decode_field bit (slice b offset size) ctx)
            ])
        else go offset ctx

    -- `for bit in range(n - 1, -1, -1)`
    unfoldable pub walk : ℕ → ℕ → Context F → Result (Context F)
    walk zero offset ctx = ok ctx
    walk (suc bit) offset ctx = elim (visit bit offset ctx) [
      | go offset' ctx' ↦ walk bit offset' ctx'
      | stop r ↦ r
    ]

  abbrev pub end_limit_of : Bytes → Header → ℕ
  end_limit_of b hdr = min (length b) (hdr.packet_size * 4)

  abbrev pub cif_of : Bytes → Header → ℕ
  cif_of b hdr = from_be (slice b hdr.header_len 4)

  unfoldable pub decode_context : Bytes → Header → Result (Context F)
  decode_context b hdr =
      if ltb (end_limit_of b hdr) (hdr.header_len + 4)
      then err value_error
      else walk b (end_limit_of b hdr) (cif_of b hdr) 32 (hdr.header_len + 4) empty_context
