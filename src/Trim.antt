-- ===== src/Trim.antt =====
-- `trim_data` of src/sceptre_pipeline/interpreter.py, without what it logs.
pub mod Samples
use sceptre_pipeline.Prelude.{
  ℕ, ◌+◌, ◌-◌, ◌*◌, ◌/◌, length, take, min, max, ltb, ◌==◌, if◌then◌else◌,
}
use sceptre_pipeline.Prelude.Bytes.{Bytes, slice}
use sceptre_pipeline.Result.{Result, ok, err, value_error, zero_division_error}
use sceptre_pipeline.Formats.{trailer_size}
use sceptre_pipeline.Header.{Header}

abbrev pub declared : Header → ℕ
declared hdr = hdr.packet_size * 4

abbrev pub trailer_of : Header → ℕ
trailer_of hdr = if hdr.has_trailer then trailer_size else 0

-- `max(start, min(len(b), declared) - trailer)`. Where Python's difference is negative, this one is
-- 0, and the maximum with `start` is the same.
abbrev pub data_end : Bytes → Header → ℕ
data_end b hdr = max hdr.header_len (min (length b) (declared hdr) - trailer_of hdr)

unfoldable pub trim_data : Bytes → Header → ℕ → Result (Bytes × ℕ)
trim_data b hdr bytes_per_sample =
    let body = slice b hdr.header_len (data_end b hdr - hdr.header_len) in
    let num_samples = length body / bytes_per_sample in
    if ltb (length b) (declared hdr)
    then err value_error
    else if bytes_per_sample == 0
    then err zero_division_error
    else ok (take (num_samples * bytes_per_sample) body, num_samples)
