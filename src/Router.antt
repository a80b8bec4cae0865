-- ===== src/Router.antt =====
-- `BufferRouter` of src/sceptre_pipeline/buffer.py: one `IngestBuffer` per stream id. A method
-- returns the new state and the windows that it hands to the emit callback, in order.
pub mod Stored
pub mod Routed
pub mod Visits
pub mod Drained
pub mod Polled
pub mod Flow
pub mod Isolation
use sceptre_pipeline.Prelude.{ℕ, ◌+◌, Option, none, some, List, [], ◌∷◌, ◌++◌, leb, if◌then◌else◌}
use sceptre_pipeline.Floats.{Floats}
use sceptre_pipeline.Numpy.{Numpy}
use sceptre_pipeline.Dict.{StreamId, Dict, get, put, size}
use sceptre_pipeline.Log.{RateLimitedLog, new_log, should_log}
use sceptre_pipeline.Interpreter.{Record, context_record, data_record}
use sceptre_pipeline.Buffer.{Field, IngestBuffer, Window, flush}
use sceptre_pipeline.Buffer

pub record BufferRouter (F : Type 0) : Type 0 where
  pub max_samples : ℕ
  pub max_age_s : F
  pub flush_fields : List Field
  pub max_streams : ℕ
  pub buffers : Dict (IngestBuffer F)
  pub dropped : ℕ
  pub log : RateLimitedLog

-- `record["metadata"]["stream_id"]`
abbrev pub stream_of : {F : Type 0} → Record F → StreamId
stream_of (context_record md ctx) = md.stream_id
stream_of (data_record md body) = md.stream_id

-- `for buf in self._buffers.values()`, with what each buffer returns
unfoldable pub for_each :
    {F : Type 0}
    → (StreamId → IngestBuffer F → IngestBuffer F × List (Window F))
    → Dict (IngestBuffer F)
    → Dict (IngestBuffer F) × List (Window F)
for_each f [] = ([], [])
for_each f ((k, buf) ∷ d) =
    let (buf', ws) = f k buf in let (d', ws') = for_each f d in ((k, buf') ∷ d', ws ++ ws')

module _ {F : Type 0} where
  unfoldable pub init : ℕ → F → List Field → ℕ → BufferRouter F
  init max_samples max_age_s flush_fields max_streams = record {
    max_samples = max_samples;
    max_age_s = max_age_s;
    flush_fields = flush_fields;
    max_streams = max_streams;
    buffers = [];
    dropped = 0;
    log = new_log;
  }

  -- The stream's buffer, made on its first record unless `max_streams` are there.
  unfoldable pub buffer_for : BufferRouter F → StreamId → Option (IngestBuffer F)
  buffer_for s sid = elim (get s.buffers sid) [
    | some buf ↦ some buf
    | none ↦
        if leb s.max_streams (size s.buffers)
        then none
        else some (Buffer.init s.max_samples s.max_age_s sid s.flush_fields)
  ]

  -- `self.dropped += 1` and the warning
  unfoldable pub drop_record : BufferRouter F → BufferRouter F
  drop_record s = record s { dropped = s.dropped + 1; log = (should_log s.log "stream-flood").0 }

  -- `flush_all`
  unfoldable pub flush_all : BufferRouter F → BufferRouter F × List (Window F)
  flush_all s =
      let (d, ws) = for_each (λ k buf. flush buf) s.buffers in (record s { buffers = d }, ws)

module _ {F Arr : Type 0} (fl : Floats F) (np : Numpy Arr) where
  -- `push`
  unfoldable pub push : F → Option (Record F) → BufferRouter F → BufferRouter F × List (Window F)
  push now none s = (s, [])
  push now (some r) s = elim (buffer_for s (stream_of r)) [
    | none ↦ (drop_record s, [])
    | some buf ↦
        let (buf', ws) = Buffer.push fl np now r buf in
        (record s { buffers = put s.buffers (stream_of r) buf' }, ws)
  ]

module _ {F : Type 0} (fl : Floats F) where
  -- `maybe_flush_on_age`; `clock k` is the reading when the buffer of stream `k` is polled.
  unfoldable pub maybe_flush_on_age :
      (StreamId → F) → BufferRouter F → BufferRouter F × List (Window F)
  maybe_flush_on_age clock s =
      let (d, ws) = for_each (λ k buf. Buffer.maybe_flush_on_age fl (clock k) buf) s.buffers in
      (record s { buffers = d }, ws)
