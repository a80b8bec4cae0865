-- ===== src/Raising/Sessions.antt =====
-- The loops of `BufferRouter` of src/sceptre_pipeline/buffer.py and the loop of runtime.py under an
-- emit callback that may raise against those under one that returns.
use sceptre_pipeline.Prelude.{
  refl, sym, ap, ◌∙◌, Bool, true, false, true≢false, Option-cases, inl, inr, Option, none, some,
  List, [], ◌∷◌, ◌++◌, if◌then◌else◌,
}
use sceptre_pipeline.Prelude.Bytes.{Bytes}
use sceptre_pipeline.Floats.{Floats}
use sceptre_pipeline.Numpy.{Numpy}
use sceptre_pipeline.Dict.{StreamId, Dict, put}
use sceptre_pipeline.Interpreter.{Record, process}
use sceptre_pipeline.Buffer.{IngestBuffer, Window}
use sceptre_pipeline.Router.{BufferRouter, stream_of, buffer_for}
use sceptre_pipeline.Router
use sceptre_pipeline.Runtime.{Pipeline, Item, shutdown, timeout, datagram}
use sceptre_pipeline.Runtime
use sceptre_pipeline.Raising.{Emit, Outcome, within, behind, and_then}
use sceptre_pipeline.Raising.Router as RaisingRouter
use sceptre_pipeline.Raising.Pipeline as RaisingPipeline
use sceptre_pipeline.Raising.Follows.{
  Follows, Follows-returned, and_then-Follows, within-Follows, emit_all-seen,
}
use sceptre_pipeline.Raising.Equivalent.{flush-Follows, age-Follows, push-Follows}

module _ {S F : Type 0} (emit : Emit S F) where
  -- one turn of the loop over the buffers, before the others
  visit_of-Follows :
      (raised : Bool) (buf' : IngestBuffer F) (c : S) (ws : List (Window F)) (k : StreamId)
      (d : Dict (IngestBuffer F)) (s : S) (r : IngestBuffer F × List (Window F))
      (rd : Dict (IngestBuffer F) × List (Window F))
      (rest : S → Outcome S F (Dict (IngestBuffer F)))
      → let o : Outcome S F (IngestBuffer F) = record {
        state = buf';
        callback = c;
        handed = ws;
        raised = raised;
      } in
        Follows emit s r o
        → Follows emit c rd (rest c)
        → Follows emit s
            ((k, r.0) ∷ rd.0, r.1 ++ rd.1)
            (if raised
              then within (λ b. (k, b) ∷ d) o
              else behind ws (within (λ d'. (k, buf') ∷ d') (rest c)))
  unfolding within and_then
  visit_of-Follows true buf' c ws k d s r rd rest v w = record {
    emitted = emit_all-seen emit s r.1 rd.1 _ v.emitted;
    intact = inl refl;
  }
  visit_of-Follows false buf' c ws k d s r rd rest v w = record {
    emitted = ap (behind ws) w.emitted ∙ emit_all-seen emit s r.1 rd.1 _ v.emitted;
    intact = elim v.intact [
      | inl e ↦ absurd (true≢false (sym e))
      | inr e ↦ elim w.intact [ inl over ↦ inl over | inr e' ↦ inr (rw (e, e') refl) ]
    ];
  }

  for_each-Follows :
      (f : StreamId → IngestBuffer F → IngestBuffer F × List (Window F))
      (g : StreamId → S → IngestBuffer F → Outcome S F (IngestBuffer F))
      (follows : (k : StreamId) (s : S) (buf : IngestBuffer F)
        → Follows emit s (f k buf) (g k s buf))
      (s : S) (d : Dict (IngestBuffer F))
      → Follows emit s (Router.for_each f d) (RaisingRouter.for_each g s d)
  unfolding Router.for_each RaisingRouter.for_each
  for_each-Follows f g follows s [] = Follows-returned emit s []
  for_each-Follows f g follows s ((k, buf) ∷ d) =
      let o = g k s buf in
      visit_of-Follows o.raised o.state o.callback o.handed k d s (f k buf) (Router.for_each f d)
        (λ s'. RaisingRouter.for_each g s' d) (follows k s buf)
        (for_each-Follows f g follows o.callback d)

  pub flush_all-Follows :
      (s : S) (r : BufferRouter F)
      → Follows emit s (Router.flush_all r) (RaisingRouter.flush_all emit s r)
  unfolding Router.flush_all RaisingRouter.flush_all
  flush_all-Follows s r =
      within-Follows emit s (λ d. record r { buffers = d }) _ _
        (for_each-Follows _ _ (λ k s' buf. flush-Follows emit s' buf) s r.buffers)

  poll_all-Follows :
      (fl : Floats F) (clock : StreamId → F) (s : S) (r : BufferRouter F)
      → Follows emit s
          (Router.maybe_flush_on_age fl clock r)
          (RaisingRouter.maybe_flush_on_age emit fl clock s r)
  unfolding Router.maybe_flush_on_age RaisingRouter.maybe_flush_on_age
  poll_all-Follows fl clock s r =
      within-Follows emit s (λ d. record r { buffers = d }) _ _
        (for_each-Follows _ _ (λ k s' buf. age-Follows emit fl (clock k) s' buf) s r.buffers)

module _ {S F Arr : Type 0} (emit : Emit S F) (fl : Floats F) (np : Numpy Arr) where
  push_all-Follows :
      (now : F) (x : Option (Record F)) (s : S) (r : BufferRouter F)
      → Follows emit s (Router.push fl np now x r) (RaisingRouter.push emit fl np now x s r)
  unfolding Router.push RaisingRouter.push
  push_all-Follows now none s r = Follows-returned emit s r
  push_all-Follows now (some x) s r = elim (Option-cases (buffer_for r (stream_of x))) [
    | inl e ↦ rw (e, Router.push, RaisingRouter.push) (Follows-returned emit s _)
    | inr (buf, e) ↦
        rw (e, Router.push, RaisingRouter.push)
          (within-Follows emit s (λ buf'. record r { buffers = put r.buffers (stream_of x) buf' }) _
            _ (push-Follows emit np fl now x s buf))
  ]

  poll-Follows :
      (clock : StreamId → F) (s : S) (p : Pipeline F)
      → Follows emit s (Runtime.poll fl np clock p) (RaisingPipeline.poll emit fl np clock s p)
  unfolding Runtime.poll RaisingPipeline.poll
  poll-Follows clock s p =
      within-Follows emit s (λ r. record p { router = r }) _ _
        (poll_all-Follows emit fl clock s p.router)

  handle-Follows :
      (raw : Bytes) (now : F) (clock : StreamId → F) (s : S) (p : Pipeline F)
      → Follows emit s
          (Runtime.handle fl np raw now clock p)
          (RaisingPipeline.handle emit fl np raw now clock s p)
  unfolding Runtime.handle RaisingPipeline.handle Runtime.poll
  handle-Follows raw now clock s p =
      and_then-Follows emit s _ (λ p'. Runtime.poll fl np clock p') _
        (λ p' s'. poll-Follows clock s' p') _
        (within-Follows emit s
          (λ r'. record { interpreter = (process fl p.interpreter raw).0; router = r' }) _ _
          (push_all-Follows now (process fl p.interpreter raw).1 s p.router))

  pub loop-Follows :
      (items : List (Item F)) (s : S) (p : Pipeline F)
      → Follows emit s (Runtime.loop fl np items p) (RaisingPipeline.loop emit fl np items s p)
  unfolding Runtime.loop RaisingPipeline.loop
  loop-Follows [] s p = Follows-returned emit s p
  loop-Follows (shutdown ∷ items) s p = Follows-returned emit s p
  loop-Follows (timeout clock ∷ items) s p =
      and_then-Follows emit s _ (λ p'. Runtime.loop fl np items p') _
        (λ p' s'. loop-Follows items s' p') _ (poll-Follows clock s p)
  loop-Follows (datagram raw now clock ∷ items) s p =
      and_then-Follows emit s _ (λ p'. Runtime.loop fl np items p') _
        (λ p' s'. loop-Follows items s' p') _ (handle-Follows raw now clock s p)
