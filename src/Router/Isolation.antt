-- ===== src/Router/Isolation.antt =====
-- `push` of `BufferRouter` of src/sceptre_pipeline/buffer.py, and the other streams' buffers.
use sceptre_pipeline.Prelude.{◌≡◌, ◌≢◌, refl, Option, none, some}
use sceptre_pipeline.Floats.{Floats}
use sceptre_pipeline.Numpy.{Numpy}
use sceptre_pipeline.Dict.{StreamId, get}
use sceptre_pipeline.Dict.Laws.{get-put_ne}
use sceptre_pipeline.Interpreter.{Record}
use sceptre_pipeline.Buffer.{IngestBuffer}
use sceptre_pipeline.Router.{BufferRouter, stream_of, buffer_for, drop_record, push}
use sceptre_pipeline.Router.Stored.{stored, push-stored}

module _ {F Arr : Type 0} (fl : Floats F) (np : Numpy Arr) where
  stored_other :
      (now : F) (r : Record F) (s : BufferRouter F) (o : Option (IngestBuffer F)) (k : StreamId)
      → k ≢ stream_of r
      → get (stored fl np now r s o).0.buffers k ≡ get s.buffers k
  unfolding stored drop_record
  stored_other now r s none k ne = refl
  stored_other now r s (some buf) k ne = get-put_ne s.buffers (stream_of r) k _ ne

  -- A push leaves the buffer of every other stream than the record's as it was, absent or present.
  pub push_other :
      (now : F) (r : Record F) (s : BufferRouter F) (k : StreamId)
      → k ≢ stream_of r
      → get (push fl np now (some r) s).0.buffers k ≡ get s.buffers k
  push_other now r s k ne =
      rw (push-stored fl np now r s) (stored_other now r s (buffer_for s (stream_of r)) k ne)
