-- ===== src/Raising/Pipeline.antt =====
-- `Pipeline.run` of src/sceptre_pipeline/runtime.py under an emit callback that may raise.
use sceptre_pipeline.Prelude.{Bool, true, List, [], ◌∷◌}
use sceptre_pipeline.Prelude.Bytes.{Bytes}
use sceptre_pipeline.Floats.{Floats}
use sceptre_pipeline.Numpy.{Numpy}
use sceptre_pipeline.Dict.{StreamId}
use sceptre_pipeline.Interpreter.{process}
use sceptre_pipeline.Runtime.{Pipeline, Item, shutdown, timeout, datagram}
use sceptre_pipeline.Raising.{Emit, Outcome, returned, and_then, finally, within}
use sceptre_pipeline.Raising.Router as RaisingRouter

-- What `run` works on: its objects, and whether the source is stopped.
pub record Session (F : Type 0) : Type 0 where
  pub pipeline : Pipeline F
  pub source_stopped : Bool

module _ {S F Arr : Type 0} (emit : Emit S F) (fl : Floats F) (np : Numpy Arr) where
  -- the age poll of the loop
  unfoldable pub poll : (StreamId → F) → S → Pipeline F → Outcome S F (Pipeline F)
  poll clock s p =
      within (λ r. record p { router = r })
        (RaisingRouter.maybe_flush_on_age emit fl clock s p.router)

  -- the turn on a datagram
  unfoldable pub handle : Bytes → F → (StreamId → F) → S → Pipeline F → Outcome S F (Pipeline F)
  handle raw now clock s p =
      let (interpreter, r) = process fl p.interpreter raw in
      and_then
        (within (λ r'. record { interpreter = interpreter; router = r' })
          (RaisingRouter.push emit fl np now r s p.router))
        (λ p' s'. poll clock s' p')

  -- the `while` loop, which an exception leaves
  unfoldable pub loop : List (Item F) → S → Pipeline F → Outcome S F (Pipeline F)
  loop [] s p = returned p s
  loop (shutdown ∷ items) s p = returned p s
  loop (timeout clock ∷ items) s p = and_then (poll clock s p) (λ p' s'. loop items s' p')
  loop (datagram raw now clock ∷ items) s p =
      and_then (handle raw now clock s p) (λ p' s'. loop items s' p')

  -- `run`: the loop, and its `finally` with the one inside it
  unfoldable pub run : List (Item F) → S → Session F → Outcome S F (Session F)
  run items s x =
      finally (within (λ p. record x { pipeline = p }) (loop items s x.pipeline)) λ x1 s1.
        finally
          (within (λ r. record x1 { pipeline = record x1.pipeline { router = r } })
            (RaisingRouter.flush_all emit s1 x1.pipeline.router))
          (λ x2 s2. returned (record x2 { source_stopped = true }) s2)
