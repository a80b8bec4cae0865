-- ===== src/Raising/Turns.antt =====
-- One turn of the loop of src/sceptre_pipeline/runtime.py when the emit callback may raise.
use mathlib.Core.Path.{subst}
use sceptre_pipeline.Prelude.{
  ◌≡◌, refl, sym, ◌∙◌, true, false, true≢false, Bool-cases, ◌⊎◌, inl, inr, Option, none, some, List,
  [], ◌++◌, append-nil,
}
use sceptre_pipeline.Prelude.Bytes.{Bytes}
use sceptre_pipeline.Floats.{Floats}
use sceptre_pipeline.Numpy.{Numpy}
use sceptre_pipeline.Dict.{StreamId}
use sceptre_pipeline.Interpreter.{Record, process}
use sceptre_pipeline.Buffer.{Window}
use sceptre_pipeline.Router.{BufferRouter}
use sceptre_pipeline.Router.Drained.{IsKeyed}
use sceptre_pipeline.Router.Flow.{Flows, Flows-behind}
use sceptre_pipeline.Runtime.{Pipeline}
use sceptre_pipeline.Runtime.EndToEnd.{samples_of_one}
use sceptre_pipeline.Raising.{Emit, Outcome, within, behind, and_then}
use sceptre_pipeline.Raising.Router as RaisingRouter
use sceptre_pipeline.Raising.Pipeline.{poll, handle}
use sceptre_pipeline.Raising.Cut.{left}
use sceptre_pipeline.Raising.Flow.{poll-flow, push-flow}

pub and_then_raised :
    {S F A : Type 0} (o : Outcome S F A) (k : A → S → Outcome S F A)
    → o.raised ≡ true
    → and_then o k ≡ o
unfolding and_then
and_then_raised o k e = rw e refl

pub and_then_on :
    {S F A : Type 0} (o : Outcome S F A) (k : A → S → Outcome S F A)
    → o.raised ≡ false
    → and_then o k ≡ behind o.handed (k o.state o.callback)
unfolding and_then
and_then_on o k e = rw e refl

module _ {S F Arr : Type 0} (emit : Emit S F) (fl : Floats F) (np : Numpy Arr) where
  -- The router and the windows of an outcome.
  abbrev pub routed : Outcome S F (Pipeline F) → BufferRouter F × List (Window F)
  routed o = (o.state.router, o.handed)

  -- The bytes go in, or an exception ends the call without them.
  abbrev pub Brings : StreamId → Pipeline F → Bytes → Outcome S F (Pipeline F) → Type 0
  Brings k p body o =
      (Flows k p.router body (routed o) ⊎ ((o.raised ≡ true) × Flows k p.router [] (routed o)))
      × IsKeyed o.state.router.buffers

  poll-Brings :
      (clock : StreamId → F) (c : S) (p : Pipeline F) (k : StreamId)
      → IsKeyed p.router.buffers
      → Brings k p [] (poll emit fl np clock c p)
  unfolding poll within
  poll-Brings clock c p k v = let (f, v') = poll-flow emit fl clock c p.router k v in (inl f, v')

  push_opt-flow :
      (now : F) (x : Option (Record F)) (c : S) (s : BufferRouter F) (k : StreamId)
      → IsKeyed s.buffers
      → let o = RaisingRouter.push emit fl np now x c s in
        (Flows k s (samples_of_one k x) (left o) ⊎ ((o.raised ≡ true) × Flows k s [] (left o)))
        × IsKeyed o.state.buffers
  unfolding RaisingRouter.push
  push_opt-flow now none c s k v = (inl (inl (refl, sym (append-nil _))), v)
  push_opt-flow now (some x) c s k v = push-flow emit fl np now x c s k v

  -- a statement before one that brings nothing
  Brings-and_then :
      (k : StreamId) (p : Pipeline F) (x : Bytes) (o : Outcome S F (Pipeline F))
      (rest : Pipeline F → S → Outcome S F (Pipeline F))
      → Brings k p x o
      → Brings k o.state [] (rest o.state o.callback)
      → Brings k p x (and_then o rest)
  Brings-and_then k p x o rest b b' = elim (Bool-cases o.raised) [
    | inl over ↦ subst (Brings k p x) (sym (and_then_raised o rest over)) b
    | inr on ↦ subst (Brings k p x) (sym (and_then_on o rest on)) (
      elim b.0 [
        | inr (over, f) ↦ absurd (true≢false (sym over ∙ on))
        | inl f ↦
            let next = rest o.state o.callback in
            let f' : Flows k o.state.router [] (routed next) = elim b'.0 [
              | inl g ↦ g
              | inr (over, g) ↦ g
            ] in
            inl (
              subst (λ body. Flows k p.router body (next.state.router, o.handed ++ next.handed))
                (append-nil x) (Flows-behind k p.router x [] (routed o) (routed next) f f'))
      ],
      b'.1,
    )
  ]

  pub handle-Brings :
      (raw : Bytes) (now : F) (clock : StreamId → F) (c : S) (p : Pipeline F) (k : StreamId)
      → IsKeyed p.router.buffers
      → Brings k p
          (samples_of_one k (process fl p.interpreter raw).1)
          (handle emit fl np raw now clock c p)
  unfolding handle within
  handle-Brings raw now clock c p k v =
      let (interpreter, r) = process fl p.interpreter raw in
      let b = push_opt-flow now r c p.router k v in
      let o = RaisingRouter.push emit fl np now r c p.router in
      Brings-and_then k p _ (within (λ r'. record { interpreter = interpreter; router = r' }) o)
        (λ p' s'. poll emit fl np clock s' p') b (poll-Brings clock o.callback _ k b.1)

  pub handle-interpreter :
      (raw : Bytes) (now : F) (clock : StreamId → F) (c : S) (p : Pipeline F)
      → (handle emit fl np raw now clock c p).state.interpreter ≡ (process fl p.interpreter raw).0
  unfolding handle within and_then poll
  handle-interpreter raw now clock c p =
      elim (Bool-cases
        (RaisingRouter.push emit fl np now (process fl p.interpreter raw).1 c p.router).raised) [
          | inl over ↦ rw over refl
          | inr on ↦ rw on refl
        ]
