-- ===== src/Runtime/Threads.antt =====
-- `Pipeline.run` of src/sceptre_pipeline/runtime.py on its thread, a source of
-- src/sceptre_pipeline/sources.py on another, and the queue and the stop event between them.
pub mod Items
pub mod Refinement
pub mod Halting
pub mod Work
pub mod Bounded
pub mod Live
pub mod Replay
use sceptre_pipeline.Prelude.{
  ℕ, ◌≡◌, Bool, true, false, Option, none, some, List, [], ◌∷◌, ◌++◌, if◌then◌else◌,
}
use sceptre_pipeline.Floats.{Floats}
use sceptre_pipeline.Numpy.{Numpy}
use sceptre_pipeline.Dict.{StreamId}
use sceptre_pipeline.Buffer.{Window}
use sceptre_pipeline.Router.{flush_all}
use sceptre_pipeline.Queue.{BoundedRawQueue, put, get}
use sceptre_pipeline.Sources.{Put, raw, shutdown}
use sceptre_pipeline.Runtime.{Pipeline, poll, handle}

-- What the source has still to put, as `Sources` has it; what the threads share; the consumer's
-- objects; whether its `run` has returned, and whether it left the loop at the end-of-stream mark;
-- and what it has emitted.
pub record System (F : Type 0) : Type 0 where
  pub pending : List Put
  pub queue : BoundedRawQueue Put
  pub stopped : Bool
  pub pipeline : Pipeline F
  pub finished : Bool
  pub at_mark : Bool
  pub windows : List (Window F)

module _ {F : Type 0} where
  unfoldable pub start : ℕ → List Put → Pipeline F → System F
  start maxsize puts p = record {
    pending = puts;
    queue = record { maxsize = maxsize; items = []; dropped = 0 };
    stopped = false;
    pipeline = p;
    finished = false;
    at_mark = false;
    windows = [];
  }

  -- `self._raw_queue.put(...)` of a source's loop, with the item that it puts
  unfoldable pub produce : Put → List Put → System F → System F
  produce x rest s = record s { pending = rest; queue = put x s.queue }

  -- `Pipeline.stop`
  unfoldable pub stop : System F → System F
  stop s = record s { stopped = true }

  -- the `finally` of `run`: the last windows, and `source.stop()`, which sets the event
  unfoldable pub finish : System F → System F
  finish s =
      let (router, ws) = flush_all s.pipeline.router in
      record s {
        pipeline = record s.pipeline { router = router };
        windows = s.windows ++ ws;
        finished = true;
        stopped = true;
      }

module _ {F Arr : Type 0} (fl : Floats F) (np : Numpy Arr) where
  -- the body of the loop on what `get` returned
  unfoldable pub take_item :
      F → (StreamId → F) → System F → BoundedRawQueue Put × Option Put → System F
  unfolding finish
  take_item now clock s (q, none) =
      let (p, ws) = poll fl np clock s.pipeline in
      record s { queue = q; pipeline = p; windows = s.windows ++ ws }
  take_item now clock s (q, some shutdown) = finish (record s { queue = q; at_mark = true })
  take_item now clock s (q, some (raw bytes)) =
      let (p, ws) = handle fl np bytes now clock s.pipeline in
      record s { queue = q; pipeline = p; windows = s.windows ++ ws }

  -- One turn of the `while` loop, its test included. A wait that an item ends returns it, and one
  -- that times out finds the queue empty.
  unfoldable pub turn : F → (StreamId → F) → System F → System F
  turn now clock s =
      if s.finished then s else if s.stopped then finish s else take_item now clock s (get s.queue)

  -- A step of either thread, or of whoever sets the event.
  pub data Step (s t : System F) : Type 0 where
    produced : (x : Put) (rest : List Put) → s.pending ≡ x ∷ rest → t ≡ produce x rest s → Step s t
    consumed : (now : F) (clock : StreamId → F) → t ≡ turn now clock s → Step s t
    stopping : t ≡ stop s → Step s t

  -- An execution: the steps of the threads in any order.
  pub data Reach (s : System F) : System F → Type 0 where
    here : Reach s s
    next : {t u : System F} → Reach s t → Step t u → Reach s u
