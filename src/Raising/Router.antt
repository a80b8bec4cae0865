-- ===== src/Raising/Router.antt =====
-- `BufferRouter` of src/sceptre_pipeline/buffer.py under an emit callback that may raise. A buffer
-- is changed in place, so that the router has its new state also when the callback raises.
use sceptre_pipeline.Prelude.{Option, none, some, [], ◌∷◌, if◌then◌else◌}
use sceptre_pipeline.Floats.{Floats}
use sceptre_pipeline.Numpy.{Numpy}
use sceptre_pipeline.Dict.{StreamId, Dict, put}
use sceptre_pipeline.Interpreter.{Record}
use sceptre_pipeline.Buffer.{IngestBuffer}
use sceptre_pipeline.Router.{BufferRouter, stream_of, buffer_for, drop_record}
use sceptre_pipeline.Raising.{Emit, Outcome, returned, behind, within}
use sceptre_pipeline.Raising.Buffer as RaisingBuffer

module _ {S F : Type 0} where
  -- `for buf in self._buffers.values()`, which an exception ends
  unfoldable pub for_each :
      (StreamId → S → IngestBuffer F → Outcome S F (IngestBuffer F))
      → S
      → Dict (IngestBuffer F)
      → Outcome S F (Dict (IngestBuffer F))
  for_each f s [] = returned [] s
  for_each f s ((k, buf) ∷ d) =
      let o = f k s buf in
      let rest = behind o.handed (within (λ d'. (k, o.state) ∷ d') (for_each f o.callback d)) in
      if o.raised then within (λ buf'. (k, buf') ∷ d) o else rest

module _ {S F : Type 0} (emit : Emit S F) where
  -- `flush_all`
  unfoldable pub flush_all : S → BufferRouter F → Outcome S F (BufferRouter F)
  flush_all s r =
      within (λ d. record r { buffers = d })
        (for_each (λ k s' buf. RaisingBuffer.flush emit s' buf) s r.buffers)

  -- `maybe_flush_on_age`
  unfoldable pub maybe_flush_on_age :
      Floats F → (StreamId → F) → S → BufferRouter F → Outcome S F (BufferRouter F)
  maybe_flush_on_age fl clock s r =
      within (λ d. record r { buffers = d })
        (for_each (λ k s' buf. RaisingBuffer.maybe_flush_on_age emit fl (clock k) s' buf) s
          r.buffers)

module _ {S F Arr : Type 0} (emit : Emit S F) (fl : Floats F) (np : Numpy Arr) where
  -- `push`
  unfoldable pub push : F → Option (Record F) → S → BufferRouter F → Outcome S F (BufferRouter F)
  push now none s r = returned r s
  push now (some x) s r = elim (buffer_for r (stream_of x)) [
    | none ↦ returned (drop_record r) s
    | some buf ↦
        within (λ buf'. record r { buffers = put r.buffers (stream_of x) buf' })
          (RaisingBuffer.push emit np fl now x s buf)
  ]
