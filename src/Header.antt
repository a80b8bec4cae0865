-- ===== src/Header.antt =====
-- `Header` and `parse_header` of src/sceptre_pipeline/interpreter.py.
pub mod Bounds
pub mod Encoder
pub mod Word0
pub mod Roundtrip
use Prim.Native.Nat.{suc}
use sceptre_pipeline.Prelude.{
  ℕ, ◌+◌, ◌*◌, ◌/◌, ◌%◌, ◌≤◌, ◌<◌, ◌≡◌, Bool, true, false, Option, none, some, length, take, ltb,
  ◌==◌, if◌then◌else◌,
}
use sceptre_pipeline.Prelude.Bytes.{Bytes, slice, from_be}
use sceptre_pipeline.Result.{Result, ok, err, value_error}
use sceptre_pipeline.Formats.{
  w0_packet_type, w0_class_id, w0_trailer, w0_tsi, w0_tsf, w0_counter, w0_packet_size,
  carries_stream_id, word0_size, stream_id_size, class_id_size, int_ts_size, frac_ts_size, truthy,
  header_length,
}

pub record Header : Type 0 where
  pub packet_type : ℕ
  pub class_id : Option Bytes
  pub has_trailer : Bool
  pub tsi : ℕ
  pub tsf : ℕ
  pub packet_counter : ℕ
  pub packet_size : ℕ
  pub stream_id : Option ℕ
  pub int_ts : Option ℕ
  pub frac_ps : Option ℕ
  pub header_len : ℕ

-- `if present: field = b[off : off + size]; off += size`
unfoldable pub take_field : Bool → ℕ → Bytes → ℕ → Option Bytes × ℕ
take_field present size b off =
    if present then (some (slice b off size), off + size) else (none, off)

abbrev pub number : Option Bytes → Option ℕ
number none = none
number (some b) = some (from_be b)

-- the fields behind `word0`, once the length is known to be enough
unfoldable pub read_fields : ℕ → Bytes → Header
read_fields word0 b =
    let packet_type = word0 / w0_packet_type % 16 in
    let has_class_id = truthy (word0 / w0_class_id % 2) in
    let tsi = word0 / w0_tsi % 4 in
    let tsf = word0 / w0_tsf % 4 in
    let (stream_id, off1) =
      take_field (carries_stream_id packet_type) stream_id_size b word0_size in
    let (class_id, off2) = take_field has_class_id class_id_size b off1 in
    let (int_ts, off3) = take_field (truthy tsi) int_ts_size b off2 in
    let (frac_ps, off4) = take_field (truthy tsf) frac_ts_size b off3 in
    record {
      packet_type = packet_type;
      class_id = class_id;
      has_trailer = truthy (word0 / w0_trailer % 2);
      tsi = tsi;
      tsf = tsf;
      packet_counter = word0 / w0_counter % 16;
      packet_size = word0 % w0_packet_size;
      stream_id = number stream_id;
      int_ts = number int_ts;
      frac_ps = number frac_ps;
      header_len = off4;
    }

-- the length that the flags of `word0` call for
unfoldable pub expected_len : ℕ → ℕ
expected_len word0 =
    header_length (carries_stream_id (word0 / w0_packet_type % 16))
      (truthy (word0 / w0_class_id % 2)) (word0 / w0_tsi % 4) (word0 / w0_tsf % 4)

unfoldable pub parse_header : Bytes → Result Header
parse_header b =
    if ltb (length b) word0_size
    then err value_error
    else (let word0 = from_be (take word0_size b) in
        if ltb (length b) (expected_len word0) then err value_error else ok (read_fields word0 b))
