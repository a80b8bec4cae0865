-- ===== src/Recorder.antt =====
-- `Recorder` of src/sceptre_pipeline/recorder.py. `save` is the dict that it pickles, without the
-- file.
pub mod Prefix
use Prim.Native.String.{String}
use sceptre_pipeline.Prelude.{
  ℕ, ◌+◌, ◌*◌, Bool, true, false, ◌||◌, Option, none, some, List, [], ◌∷◌, ◌++◌, length, leb, ltb,
  if◌then◌else◌,
}
use sceptre_pipeline.Prelude.Bytes.{Bytes}

-- `(ts_ns, ip, port, payload)`
pub record Packet : Type 0 where
  pub ts_ns : ℕ
  pub ip : String
  pub port : ℕ
  pub payload : Bytes

pub record Recorder : Type 0 where
  pub max_packets : Option ℕ
  pub max_bytes : Option ℕ
  pub packets : List Packet
  pub total_bytes : ℕ
  pub capped : Bool

unfoldable pub init : Option ℕ → Option ℕ → Recorder
init max_packets max_bytes = record {
  max_packets = max_packets;
  max_bytes = max_bytes;
  packets = [];
  total_bytes = 0;
  capped = false;
}

-- `self._max_packets is not None and len(self._packets) >= self._max_packets`
abbrev pub is_full : Option ℕ → ℕ → Bool
is_full none n = false
is_full (some m) n = leb m n

-- `self._max_bytes is not None and self._total_bytes + len(data) > self._max_bytes`
abbrev pub is_over : Option ℕ → ℕ → Bool
is_over none n = false
is_over (some m) n = ltb m n

unfoldable pub append : Packet → Recorder → Recorder × Bool
append p r =
    if r.capped
    then (r, false)
    else if is_full r.max_packets (length r.packets)
        || is_over r.max_bytes (r.total_bytes + length p.payload)
    then (record r { capped = true }, false)
    else (
      record r { packets = r.packets ++ p ∷ []; total_bytes = r.total_bytes + length p.payload },
      true,
    )

-- A session: the packets as they arrive.
unfoldable pub append_all : List Packet → Recorder → Recorder
append_all [] r = r
append_all (p ∷ ps) r = append_all ps (append p r).0

-- `capture`
pub record Capture (F : Type 0) : Type 0 where
  pub start_time_ns : ℕ
  pub duration_seconds : F
  pub packets : List Packet

unfoldable pub save : {F : Type 0} → ℕ → F → Recorder → Capture F
save start_time_ns duration_seconds r = record {
  start_time_ns = start_time_ns;
  duration_seconds = duration_seconds;
  packets = r.packets;
}

-- `DEFAULT_LIVE_RECORD_MAX_BYTES`
abbrev pub default_live_record_max_bytes : ℕ
default_live_record_max_bytes = 512 * 1024 * 1024
