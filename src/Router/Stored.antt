-- ===== src/Router/Stored.antt =====
-- Where `BufferRouter.push` of src/sceptre_pipeline/buffer.py gets a buffer, and what it does with it.
use sceptre_pipeline.Prelude.{
  ◌≡◌, refl, Option, none, some, List, [], true, false, leb, Bool-cases, Option-cases, inl, inr,
}
use sceptre_pipeline.Floats.{Floats}
use sceptre_pipeline.Numpy.{Numpy}
use sceptre_pipeline.Dict.{StreamId, get, put, size}
use sceptre_pipeline.Interpreter.{Record}
use sceptre_pipeline.Buffer.{Field, IngestBuffer, Window, flush, flush_if}
use sceptre_pipeline.Buffer
use sceptre_pipeline.Router.{BufferRouter, stream_of, buffer_for, drop_record, push}

-- Where the buffer of a stream comes from.
pub data Source {F : Type 0} (s : BufferRouter F) (k : StreamId)
    : Option (IngestBuffer F) → Type 0 where
  found : (buf : IngestBuffer F) → get s.buffers k ≡ some buf → Source s k (some buf)
  fresh :
      get s.buffers k ≡ none
      → leb s.max_streams (size s.buffers) ≡ false
      → Source s k (some (Buffer.init s.max_samples s.max_age_s k s.flush_fields))
  full : get s.buffers k ≡ none → leb s.max_streams (size s.buffers) ≡ true → Source s k none

pub buffer_for-cases :
    {F : Type 0} (s : BufferRouter F) (k : StreamId) → Source s k (buffer_for s k)
unfolding buffer_for
buffer_for-cases s k = elim (Option-cases (get s.buffers k)) [
  | inl new ↦ elim (Bool-cases (leb s.max_streams (size s.buffers))) [
    | inl h ↦ rw (new, h, buffer_for) (full new h)
    | inr h ↦ rw (new, h, buffer_for) (fresh new h)
  ]
  | inr (buf, old) ↦ rw (old, buffer_for) (found buf old)
]

-- The router with a stream's buffer and its windows after a call on it.
abbrev pub placed :
    {F : Type 0}
    → BufferRouter F
    → StreamId
    → IngestBuffer F × List (Window F)
    → BufferRouter F × List (Window F)
placed s k out = (record s { buffers = put s.buffers k out.0 }, out.1)

-- What `push` does with it.
unfoldable pub stored :
    {F Arr : Type 0} (fl : Floats F) (np : Numpy Arr) (now : F) (r : Record F) (s : BufferRouter F)
    → Option (IngestBuffer F)
    → BufferRouter F × List (Window F)
stored fl np now r s none = (drop_record s, [])
stored fl np now r s (some buf) = placed s (stream_of r) (Buffer.push fl np now r buf)

pub push-stored :
    {F Arr : Type 0} (fl : Floats F) (np : Numpy Arr) (now : F) (r : Record F) (s : BufferRouter F)
    → push fl np now (some r) s ≡ stored fl np now r s (buffer_for s (stream_of r))
unfolding push stored
push-stored fl np now r s = elim (Option-cases (buffer_for s (stream_of r))) [
  | inl e ↦ rw (e, push) refl
  | inr (buf, e) ↦ rw (e, push) refl
]
