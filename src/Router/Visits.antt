-- ===== src/Router/Visits.antt =====
-- A loop over the buffers of `BufferRouter` of src/sceptre_pipeline/buffer.py that visits a first part
-- of them, as it does when it is left by an exception, or all.
use sceptre_pipeline.Prelude.{List, [], ◌∷◌, ◌++◌}
use sceptre_pipeline.Dict.{StreamId, Dict}
use sceptre_pipeline.Buffer.{IngestBuffer, Window}
use sceptre_pipeline.Router.{for_each}

module _ {F : Type 0} (f : StreamId → IngestBuffer F → IngestBuffer F × List (Window F)) where
  -- What the loop leaves of the dict, and the windows of the buffers visited.
  pub data Visits : Dict (IngestBuffer F) → Dict (IngestBuffer F) × List (Window F) → Type 0 where
    unvisited : (d : Dict (IngestBuffer F)) → Visits d (d, [])
    visited :
        (k : StreamId) (buf : IngestBuffer F) (d d' : Dict (IngestBuffer F)) (ws : List (Window F))
        → Visits d (d', ws)
        → Visits ((k, buf) ∷ d) ((k, (f k buf).0) ∷ d', (f k buf).1 ++ ws)

  -- The undisturbed loop visits all.
  pub for_each-Visits : (d : Dict (IngestBuffer F)) → Visits d (for_each f d)
  unfolding for_each
  for_each-Visits [] = unvisited []
  for_each-Visits ((k, buf) ∷ d) = visited k buf d _ _ (for_each-Visits d)
