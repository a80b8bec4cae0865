-- ===== src/Interpreter.antt =====
-- `Interpreter` of src/sceptre_pipeline/interpreter.py: its state, `process` and the records.
pub mod Outcome
pub mod Tally
pub mod Streams
pub mod Gaps
pub mod Records
use Prim.Native.String.{String}
use sceptre_pipeline.Prelude.{
  ℕ, ◌+◌, ◌%◌, ◌^◌, Bool, true, false, ◌&&◌, ◌||◌, Option, none, some, List, [], ◌∷◌, leb, ◌==◌,
  if◌then◌else◌,
}
use sceptre_pipeline.Prelude.Bytes.{Bytes}
use sceptre_pipeline.Prelude.Int.{pos}
use sceptre_pipeline.Floats.{Floats}
use sceptre_pipeline.Result.{Result, ok, err, ◌>>=◌}
use sceptre_pipeline.Formats.{packet_type_if_data, packet_type_if_context}
use sceptre_pipeline.Header.{Header, parse_header}
use sceptre_pipeline.Context.{Context, decode_context}
use sceptre_pipeline.Trim.{trim_data}
use sceptre_pipeline.Dict.{StreamId, Dict, get, put, size}
use sceptre_pipeline.Log.{RateLimitedLog, new_log, should_log}

pub record Interpreter (F : Type 0) : Type 0 where
  pub max_streams : ℕ
  pub errors : ℕ
  pub dropped : ℕ
  pub contexts : Dict (Context F)
  pub last_counter : Dict ℕ
  pub log : RateLimitedLog

pub record Metadata (F : Type 0) : Type 0 where
  pub stream_id : StreamId
  pub counter : ℕ
  pub timestamp : F
  pub packet_size : ℕ
  pub dtype : Option String
  pub bytes_per_sample : Option ℕ
  pub is_complex : Option Bool
  pub gap_before : Bool

-- The record's `"type"` is the constructor; its `"context"` or `"data"` is the second argument.
pub data Record (F : Type 0) : Type 0 where
  context_record : Metadata F → Context F → Record F
  data_record : Metadata F → Bytes → Record F

unfoldable pub init : {F : Type 0} → ℕ → Interpreter F
init max_streams = record {
  max_streams = max_streams;
  errors = 0;
  dropped = 0;
  contexts = [];
  last_counter = [];
  log = new_log;
}

abbrev pub or_0 : Option ℕ → ℕ
or_0 none = 0
or_0 (some n) = n

-- `prev is not None and hdr.packet_counter != (prev + 1) % 16`
abbrev pub is_gap : Option ℕ → ℕ → Bool
is_gap none counter = false
is_gap (some prev) counter = if counter == (prev + 1) % 16 then false else true

-- `if gap_before and self._log.should_log("counter-gap")`
abbrev pub note_gap : Bool → RateLimitedLog → RateLimitedLog
note_gap gap log = if gap then (should_log log "counter-gap").0 else log

-- `ctx.get("supported") is False`
abbrev pub is_false : Option Bool → Bool
is_false (some false) = true
is_false _ = false

module _ {F : Type 0} (fl : Floats F) where
  -- `(self.int_ts or 0) + (self.frac_ps or 0) / 1e12`
  unfoldable pub timestamp : Header → F
  timestamp hdr =
      fl.add (fl.of_nat (or_0 hdr.int_ts))
        (fl.div (fl.of_nat (or_0 hdr.frac_ps)) (fl.of_nat (10 ^ 12)))

  -- `_metadata`
  unfoldable pub metadata : Header → Context F → Bool → Metadata F
  metadata hdr ctx gap_before = record {
    stream_id = hdr.stream_id;
    counter = hdr.packet_counter;
    timestamp = timestamp hdr;
    packet_size = hdr.packet_size;
    dtype = ctx.component_dtype;
    bytes_per_sample = ctx.bytes_per_sample;
    is_complex = ctx.is_complex;
    gap_before = gap_before;
  }

  -- `if self._log.should_log(reason): logger.warning(...)`
  unfoldable pub warn : String → Interpreter F → Interpreter F
  warn reason s = record s { log = (should_log s.log reason).0 }

  -- `self.dropped += 1`, the warning, `return None`
  unfoldable pub drop_packet : String → Interpreter F → Interpreter F × Option (Record F)
  unfolding warn
  drop_packet reason s = (warn reason (record s { dropped = s.dropped + 1 }), none)

  -- A new stream when `max_streams` are tracked.
  abbrev pub is_flood : Interpreter F → StreamId → Bool
  is_flood s sid = elim (get s.contexts sid) [
    | none ↦ leb s.max_streams (size s.contexts)
    | some ctx ↦ false
  ]

  abbrev pub adopt : Interpreter F → Header → Context F → Interpreter F × Option (Record F)
  adopt s hdr ctx = (
    record s { contexts = put s.contexts hdr.stream_id ctx },
    some (context_record (metadata hdr ctx false) ctx),
  )

  -- the branch of `_process` on a context packet
  unfoldable pub process_context :
      Interpreter F → Bytes → Header → Result (Interpreter F × Option (Record F))
  unfolding drop_packet
  process_context s raw hdr =
      if is_flood s hdr.stream_id
      then ok (drop_packet "stream-flood" s)
      else decode_context fl raw hdr >>= λ ctx. ok (adopt s hdr ctx)

  abbrev pub accept : Interpreter F → Header → Context F → Bytes → Interpreter F × Option (Record F)
  accept s hdr ctx body =
      let gap = is_gap (get s.last_counter hdr.stream_id) hdr.packet_counter in
      (
        record s {
          log = note_gap gap s.log;
          last_counter = put s.last_counter hdr.stream_id hdr.packet_counter;
        },
        some (data_record (metadata hdr ctx gap) body),
      )

  -- the end of `_process`: a data packet on a stream whose context is `ctx`
  unfoldable pub process_samples :
      Interpreter F
      → Bytes
      → Header
      → Context F
      → Option ℕ
      → Result (Interpreter F × Option (Record F))
  unfolding drop_packet warn
  process_samples s raw hdr ctx none = ok (drop_packet "unsupported-data" s)
  process_samples s raw hdr ctx (some bps) =
      if is_false ctx.supported
      then ok (drop_packet "unsupported-data" s)
      else trim_data raw hdr bps >>= λ (body, num_samples). ok (accept s hdr ctx body)

  -- the branch of `_process` on a data packet
  unfoldable pub process_data :
      Interpreter F → Bytes → Header → Result (Interpreter F × Option (Record F))
  unfolding drop_packet process_samples
  process_data s raw hdr = elim (get s.contexts hdr.stream_id) [
    | none ↦ ok (drop_packet "no-context" s)
    | some ctx ↦ process_samples s raw hdr ctx ctx.bytes_per_sample
  ]

  -- `_process`. It raises before it changes the state, so that an exception carries none.
  unfoldable pub process_packet : Interpreter F → Bytes → Result (Interpreter F × Option (Record F))
  unfolding drop_packet
  process_packet s raw = parse_header raw >>= λ hdr.
      if hdr.packet_type == packet_type_if_context
      then process_context s raw hdr
      else if hdr.packet_type == packet_type_if_data
      then process_data s raw hdr
      else ok (drop_packet "unknown-packet-type" s)

  -- `process`: the guard around `_process`
  unfoldable pub process : Interpreter F → Bytes → Interpreter F × Option (Record F)
  unfolding warn
  process s raw = elim (process_packet s raw) [
    | ok r ↦ r
    | err e ↦ (warn "unparseable" (record s { errors = s.errors + 1 }), none)
  ]

  -- The records of the packets of a stream of calls, in order.
  unfoldable pub process_all : Interpreter F → List Bytes → Interpreter F × List (Record F)
  process_all s [] = (s, [])
  process_all s (raw ∷ raws) =
      let (s', r) = process s raw in
      let (s'', rs) = process_all s' raws in (s'', elim r [ none ↦ rs | some x ↦ x ∷ rs ])
