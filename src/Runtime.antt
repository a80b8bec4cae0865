-- ===== src/Runtime.antt =====
-- `Pipeline.run` of src/sceptre_pipeline/runtime.py, on the consumer's thread: the interpreter, the
-- router, and what each turn of the loop gets from the queue. The list ends where the stop event is
-- set. The windows are those that reach the emit callback, in order.
pub mod EndToEnd
pub mod Threads
use sceptre_pipeline.Prelude.{List, [], ◌∷◌, ◌++◌, if◌then◌else◌}
use sceptre_pipeline.Prelude.Bytes.{Bytes}
use sceptre_pipeline.Floats.{Floats}
use sceptre_pipeline.Numpy.{Numpy}
use sceptre_pipeline.Result.{Result, ok, err, value_error}
use sceptre_pipeline.Dict.{StreamId}
use sceptre_pipeline.Interpreter.{Interpreter, process}
use sceptre_pipeline.Buffer.{Window}
use sceptre_pipeline.Router.{BufferRouter, push, maybe_flush_on_age, flush_all}

pub record Pipeline (F : Type 0) : Type 0 where
  pub interpreter : Interpreter F
  pub router : BufferRouter F

-- What `raw_queue.get(timeout=...)` returns, with the clock readings of the turn: the arrival time
-- of a record, and the age poll's.
pub data Item (F : Type 0) : Type 0 where
  shutdown : Item F
  timeout : (StreamId → F) → Item F
  datagram : Bytes → F → (StreamId → F) → Item F

-- `__init__`, whose poll interval is only tested
unfoldable pub init :
    {F : Type 0} → Floats F → F → Interpreter F → BufferRouter F → Result (Pipeline F)
init fl poll_interval interpreter router =
    if fl.le poll_interval (fl.of_nat 0)
    then err value_error
    else ok (record { interpreter = interpreter; router = router })

module _ {F Arr : Type 0} (fl : Floats F) (np : Numpy Arr) where
  -- the turn on a timeout
  unfoldable pub poll : (StreamId → F) → Pipeline F → Pipeline F × List (Window F)
  poll clock p =
      let (router, ws) = maybe_flush_on_age fl clock p.router in (record p { router = router }, ws)

  -- the turn on a datagram
  unfoldable pub handle : Bytes → F → (StreamId → F) → Pipeline F → Pipeline F × List (Window F)
  handle raw now clock p =
      let (interpreter, r) = process fl p.interpreter raw in
      let (router, ws) = push fl np now r p.router in
      let (router', ws') = maybe_flush_on_age fl clock router in
      (record { interpreter = interpreter; router = router' }, ws ++ ws')

  -- the `while` loop
  unfoldable pub loop : List (Item F) → Pipeline F → Pipeline F × List (Window F)
  loop [] p = (p, [])
  loop (shutdown ∷ items) p = (p, [])
  loop (timeout clock ∷ items) p =
      let (p', ws) = poll clock p in let (p'', ws') = loop items p' in (p'', ws ++ ws')
  loop (datagram raw now clock ∷ items) p =
      let (p', ws) = handle raw now clock p in let (p'', ws') = loop items p' in (p'', ws ++ ws')

  -- the loop and the final flush
  unfoldable pub run : List (Item F) → Pipeline F → Pipeline F × List (Window F)
  run items p =
      let (p', ws) = loop items p in
      let (router, ws') = flush_all p'.router in (record p' { router = router }, ws ++ ws')
