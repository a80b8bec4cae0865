-- ===== src/Buffer.antt =====
-- `IngestBuffer` of src/sceptre_pipeline/buffer.py. A method returns the new state and the windows
-- that it hands to the emit callback, in order, before their conversion to arrays (`unit_of`).
pub mod Windows
pub mod Latched
pub mod Steps
pub mod Lossless
pub mod Triggers
pub mod Identity
use Prim.Native.String.{String}
use text.Mathlib.Text.{◌==◌ as str_eq}
use sceptre_pipeline.Prelude.{
  ℕ, ◌+◌, ◌*◌, ◌/◌, ◌%◌, Bool, true, false, not, ◌&&◌, ◌||◌, Option, none, some, List, [], ◌∷◌,
  ◌++◌, length, leb, ◌==◌, if◌then◌else◌,
}
use sceptre_pipeline.Prelude.Bytes.{Bytes}
use sceptre_pipeline.Floats.{Floats}
use sceptre_pipeline.Numpy.{Dtype, Numpy}
use sceptre_pipeline.Context.{Context}
use sceptre_pipeline.Dict.{StreamId}
use sceptre_pipeline.Log.{RateLimitedLog, new_log, should_log}
use sceptre_pipeline.Interpreter.{Metadata, Record, context_record, data_record, is_false}
pub use sceptre_pipeline.BufferState.{
  Field, rf_hz, sample_rate_hz, component_dtype, is_complex, bandwidth_hz, gain_db, supported,
  bytes_per_sample, data_item_format, context_field_change, unknown, default_flush_fields, Value,
  absent, number, str, flag, integer, IngestBuffer, Window, Emitted, is_true, join, unit_of,
  has_chunks, opt, is_none, same_text, same_flag, same_number, converts, usable,
}

module _ {F : Type 0} where
  unfoldable pub init : ℕ → F → StreamId → List Field → IngestBuffer F
  init max_samples max_age_s stream_id flush_fields = record {
    max_samples = max_samples;
    max_age_s = max_age_s;
    stream_id = stream_id;
    flush_fields = flush_fields;
    chunks = [];
    num_samples = 0;
    component_dtype = none;
    bytes_per_sample = none;
    is_complex = none;
    start_timestamp = none;
    first_arrival = none;
    current_context = none;
    inert = false;
    dropped = 0;
    log = new_log;
  }

  abbrev pub window : IngestBuffer F → Window F
  window buf = record {
    raw = join buf.chunks;
    context = buf.current_context;
    start_timestamp = buf.start_timestamp;
    num_samples = buf.num_samples;
    stream_id = buf.stream_id;
    component_dtype = buf.component_dtype;
    is_complex = buf.is_complex;
    bytes_per_sample = buf.bytes_per_sample;
  }

  abbrev pub reset : IngestBuffer F → IngestBuffer F
  reset buf = record buf {
    chunks = [];
    num_samples = 0;
    component_dtype = none;
    bytes_per_sample = none;
    is_complex = none;
    start_timestamp = none;
    first_arrival = none;
  }

  unfoldable pub flush : IngestBuffer F → IngestBuffer F × List (Window F)
  flush buf = if has_chunks buf.chunks then (reset buf, window buf ∷ []) else (buf, [])

  -- `if test: self.flush()`
  unfoldable pub flush_if : Bool → IngestBuffer F → IngestBuffer F × List (Window F)
  unfolding flush
  flush_if test buf = if test then flush buf else (buf, [])

  -- `self.dropped += 1` and the warning
  unfoldable pub drop_data : String → IngestBuffer F → IngestBuffer F
  drop_data reason buf = record buf {
    dropped = buf.dropped + 1;
    log = (should_log buf.log reason).0;
  }

  -- `ctx.get(key)`
  unfoldable pub read : Field → Context F → Value F
  read rf_hz ctx = opt number ctx.rf_hz
  read sample_rate_hz ctx = opt number ctx.sample_rate_hz
  read component_dtype ctx = opt str ctx.component_dtype
  read is_complex ctx = opt flag ctx.is_complex
  read bandwidth_hz ctx = opt number ctx.bandwidth_hz
  read gain_db ctx = opt number ctx.gain_db
  read supported ctx = opt flag ctx.supported
  read bytes_per_sample ctx = opt integer ctx.bytes_per_sample
  read data_item_format ctx = opt integer ctx.data_item_format
  read context_field_change ctx = opt flag ctx.context_field_change
  read (unknown name) ctx = absent

  abbrev pub is_unusable : Context F → Bool
  is_unusable ctx = is_false ctx.supported || is_none ctx.component_dtype

  -- the end of `_push_context`
  unfoldable pub adopt : Context F → IngestBuffer F → IngestBuffer F
  adopt ctx buf = record buf {
    current_context = some ctx;
    inert = is_unusable ctx;
    log = if is_unusable ctx then (should_log buf.log "inert-context").0 else buf.log;
  }

module _ {F : Type 0} (fl : Floats F) where
  -- `a == b` of two values of one key
  unfoldable pub same_value : Value F → Value F → Bool
  same_value absent absent = true
  same_value (number a) (number b) = fl.eq a b
  same_value (str a) (str b) = str_eq a b
  same_value (flag true) (flag b) = b
  same_value (flag false) (flag b) = not b
  same_value (integer a) (integer b) = a == b
  same_value _ _ = false

  abbrev pub any_differs : List Field → Context F → Context F → Bool
  any_differs [] old new = false
  any_differs (f ∷ fs) old new =
      not (same_value (read f old) (read f new)) || any_differs fs old new

  -- `_differs`
  unfoldable pub differs : IngestBuffer F → Context F → Bool
  unfolding same_value read
  differs buf new = elim buf.current_context [
    | none ↦ true
    | some old ↦ any_differs buf.flush_fields old new
  ]

  -- `_push_context`
  unfoldable pub push_context : Context F → IngestBuffer F → IngestBuffer F × List (Window F)
  push_context ctx buf =
      let (buf', ws) = flush_if (has_chunks buf.chunks && differs buf ctx) buf in
      (adopt ctx buf', ws)

  -- `maybe_flush_on_age`, at the clock reading `now`. With chunks there is a first arrival.
  abbrev pub is_old : F → IngestBuffer F → Bool
  is_old now buf = elim buf.first_arrival [
    | none ↦ false
    | some t ↦ fl.le buf.max_age_s (fl.sub now t)
  ]

  unfoldable pub maybe_flush_on_age : F → IngestBuffer F → IngestBuffer F × List (Window F)
  maybe_flush_on_age now buf = flush_if (has_chunks buf.chunks && is_old now buf) buf

module _ {F Arr : Type 0} (np : Numpy Arr) where
  -- Another interpretation than the open window's.
  abbrev pub is_other : IngestBuffer F → String → Bool → ℕ → Bool
  is_other buf dtype c bps =
      not (same_text buf.component_dtype dtype)
      || not (same_flag buf.is_complex c)
      || not (same_number buf.bytes_per_sample bps)

  -- What `_latch` stores, with the packet time and the arrival time of a window's first chunk.
  abbrev pub latched : F → Metadata F → String → ℕ → IngestBuffer F → IngestBuffer F
  latched now md dtype bps buf = record buf {
    component_dtype = some dtype;
    is_complex = some (is_true md.is_complex);
    bytes_per_sample = some bps;
    start_timestamp = some md.timestamp;
    first_arrival = some now;
  }

  -- `self._chunks.append(data)` and the count
  abbrev pub added : ℕ → Bytes → IngestBuffer F → IngestBuffer F
  added bps body buf = record buf {
    chunks = buf.chunks ++ body ∷ [];
    num_samples = buf.num_samples + length body / bps;
  }

  -- the append, and the size trigger
  unfoldable pub append : ℕ → Bytes → IngestBuffer F → IngestBuffer F × List (Window F)
  append bps body buf =
      flush_if (leb buf.max_samples (buf.num_samples + length body / bps)) (added bps body buf)

  -- what follows the two flushes of `_push_data`
  unfoldable pub store :
      F → Metadata F → String → ℕ → Bytes → IngestBuffer F → IngestBuffer F × List (Window F)
  store now md dtype bps [] buf = (buf, [])
  store now md dtype bps (x ∷ xs) buf =
      if has_chunks buf.chunks
      then append bps (x ∷ xs) buf
      else if converts (np.dtype dtype) (is_true md.is_complex) bps
      then append bps (x ∷ xs) (latched now md dtype bps buf)
      else (drop_data "latch-invalid" buf, [])

  -- `_push_data` on a record that it can use
  unfoldable pub push_usable :
      F → Metadata F → String → ℕ → Bytes → IngestBuffer F → IngestBuffer F × List (Window F)
  push_usable now md dtype bps body buf =
      let (buf1, ws1) = flush_if (has_chunks buf.chunks && md.gap_before) buf in
      let (buf2, ws2) =
        flush_if (has_chunks buf1.chunks && is_other buf1 dtype (is_true md.is_complex) bps) buf1 in
      let (buf3, ws3) = store now md dtype bps body buf2 in (buf3, ws1 ++ (ws2 ++ ws3))

  -- `_push_data`
  unfoldable pub push_data :
      F → Metadata F → Bytes → IngestBuffer F → IngestBuffer F × List (Window F)
  push_data now md body buf =
      if is_none buf.current_context || buf.inert
      then (drop_data "no-usable-context" buf, [])
      else elim (usable md.dtype md.bytes_per_sample body) [
        | none ↦ (drop_data "unusable-data" buf, [])
        | some (dtype, bps) ↦ push_usable now md dtype bps body buf
      ]

module _ {F Arr : Type 0} (fl : Floats F) (np : Numpy Arr) where
  -- `push`
  unfoldable pub push : F → Record F → IngestBuffer F → IngestBuffer F × List (Window F)
  push now (context_record md ctx) buf = push_context fl ctx buf
  push now (data_record md body) buf = push_data np now md body buf
