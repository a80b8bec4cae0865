-- ===== src/Raising/Flow.antt =====
-- One stream's samples through `BufferRouter` of src/sceptre_pipeline/buffer.py when the emit
-- callback may raise.
use mathlib.Core.Path.{subst}
use sceptre_pipeline.Prelude.{
  ◌≡◌, refl, sym, ap, ◌∙◌, Bool, true, false, ◌⊎◌, inl, inr, Option, none, some, List, [], ◌∷◌,
  ◌++◌, append-nil, arith, if◌then◌else◌,
}
use sceptre_pipeline.Prelude.Bytes.{Bytes}
use sceptre_pipeline.Floats.{Floats}
use sceptre_pipeline.Numpy.{Numpy}
use sceptre_pipeline.Dict.{StreamId, Dict, same_id}
use sceptre_pipeline.Interpreter.{Record}
use sceptre_pipeline.Buffer.{IngestBuffer, Window, join}
use sceptre_pipeline.Buffer
use sceptre_pipeline.Buffer.Lossless.{Taken, flush_if-total, flush_if-dropped}
use sceptre_pipeline.Buffer.Identity.{Of, flush_if-Of}
use sceptre_pipeline.Router.{BufferRouter, stream_of, buffer_for}
use sceptre_pipeline.Router
use sceptre_pipeline.Router.Visits.{Visits, unvisited, visited}
use sceptre_pipeline.Router.Stored.{Source, buffer_for-cases, placed}
use sceptre_pipeline.Router.Drained.{
  IsKeyed, IsKeeping, flush-IsKeeping, age-IsKeeping, Visits-IsKeyed, Visits-dropped, Visits-flow,
}
use sceptre_pipeline.Router.Flow.{
  Flows, payload_for, placed-Flows, placed-IsKeyed, Source-IsBufferFor, push-Flows, push-IsKeyed,
}
use sceptre_pipeline.Raising.{Emit, Outcome, within, behind}
use sceptre_pipeline.Raising.Router as RaisingRouter
use sceptre_pipeline.Raising.Cut.{left, Partly, IsFlush, flush-left, age-left, push-Cut}

module _ {S F : Type 0} where
  visit_of :
      (f : StreamId → IngestBuffer F → IngestBuffer F × List (Window F)) (raised : Bool)
      (b : IngestBuffer F) (c : S) (ws : List (Window F)) (k : StreamId) (buf : IngestBuffer F)
      (d : Dict (IngestBuffer F)) (rest : Outcome S F (Dict (IngestBuffer F)))
      → (b, ws) ≡ f k buf
      → Visits f d (left rest)
      → let o : Outcome S F (IngestBuffer F) = record {
        state = b;
        callback = c;
        handed = ws;
        raised = raised;
      } in
        Visits f ((k, buf) ∷ d) (
          left (
            if raised
            then within (λ b'. (k, b') ∷ d) o
            else behind ws (within (λ d'. (k, b) ∷ d') rest)))
  unfolding within
  visit_of f true b c ws k buf d rest e v =
      subst (λ x. Visits f ((k, buf) ∷ d) ((k, x.0) ∷ d, x.1)) (sym e)
        (subst (λ xs. Visits f ((k, buf) ∷ d) ((k, (f k buf).0) ∷ d, xs)) (append-nil (f k buf).1)
          (visited k buf d d [] (unvisited d)))
  visit_of f false b c ws k buf d rest e v =
      subst (λ x. Visits f ((k, buf) ∷ d) ((k, x.0) ∷ rest.state, x.1 ++ rest.handed)) (sym e)
        (visited k buf d rest.state rest.handed v)

  -- The loop that an exception may leave visits a first part of the buffers.
  pub for_each-left :
      (f : StreamId → IngestBuffer F → IngestBuffer F × List (Window F))
      (g : StreamId → S → IngestBuffer F → Outcome S F (IngestBuffer F))
      → ((k : StreamId) (s : S) (buf : IngestBuffer F) → left (g k s buf) ≡ f k buf)
      → (s : S) → (d : Dict (IngestBuffer F)) → Visits f d (left (RaisingRouter.for_each g s d))
  unfolding RaisingRouter.for_each
  for_each-left f g e s [] = unvisited []
  for_each-left f g e s ((k, buf) ∷ d) =
      let o = g k s buf in
      visit_of f o.raised o.state o.callback o.handed k buf d
        (RaisingRouter.for_each g o.callback d) (e k s buf) (for_each-left f g e o.callback d)

module _ {S F : Type 0} (emit : Emit S F) where
  kept :
      (f : StreamId → IngestBuffer F → IngestBuffer F × List (Window F)) (keeping : IsKeeping f)
      (s : BufferRouter F) (k : StreamId) {d' : Dict (IngestBuffer F)} {ws : List (Window F)}
      → Visits f s.buffers (d', ws)
      → IsKeyed s.buffers
      → Flows k s [] (record s { buffers = d' }, ws) × IsKeyed d'
  kept f keeping s k h v = (
    inl (
      omega (arith, Visits-dropped f keeping h),
      Visits-flow f keeping k h v ∙ sym (append-nil _),
    ),
    Visits-IsKeyed f keeping h v,
  )

  pub flush_all-flow :
      (c : S) (s : BufferRouter F) (k : StreamId)
      → IsKeyed s.buffers
      → Flows k s [] (left (RaisingRouter.flush_all emit c s))
        × IsKeyed (RaisingRouter.flush_all emit c s).state.buffers
  unfolding RaisingRouter.flush_all within
  flush_all-flow c s k v =
      kept _ flush-IsKeeping s k
        (for_each-left (λ j buf. Buffer.flush buf) _ (λ j c' buf. flush-left emit c' buf) c
          s.buffers)
        v

  pub poll-flow :
      (fl : Floats F) (clock : StreamId → F) (c : S) (s : BufferRouter F) (k : StreamId)
      → IsKeyed s.buffers
      → Flows k s [] (left (RaisingRouter.maybe_flush_on_age emit fl clock c s))
        × IsKeyed (RaisingRouter.maybe_flush_on_age emit fl clock c s).state.buffers
  unfolding RaisingRouter.maybe_flush_on_age within
  poll-flow fl clock c s k v =
      kept _ (age-IsKeeping fl clock) s k
        (for_each-left (λ j buf. Buffer.maybe_flush_on_age fl (clock j) buf) _
          (λ j c' buf. age-left emit fl (clock j) c' buf) c s.buffers)
        v

-- A flush, or nothing, takes no bytes.
IsFlush-Taken :
    {F : Type 0} (buf : IngestBuffer F) (r : IngestBuffer F × List (Window F))
    → IsFlush buf r
    → Taken buf [] r × Of buf.stream_id r
IsFlush-Taken buf r (test, e) =
    subst (λ x. Taken buf [] x × Of buf.stream_id x) (sym e)
      (
        inl (flush_if-dropped test buf, flush_if-total test buf ∙ sym (append-nil _)),
        flush_if-Of buf.stream_id test buf refl,
      )

if_either : (b : Bool) (xs : Bytes) → (if b then xs else xs) ≡ xs
if_either true xs = refl
if_either false xs = refl

module _ {S F Arr : Type 0} (emit : Emit S F) (fl : Floats F) (np : Numpy Arr) where
  -- what an exception in a push leaves of the router: one buffer of the stream flushed or not
  abbrev pub IsTouched : Record F → BufferRouter F → BufferRouter F × List (Window F) → Type 0
  IsTouched x s r =
      (buf : IngestBuffer F) × (out : IngestBuffer F × List (Window F)) × Source s (stream_of x)
        (some buf)
      × IsFlush buf out
      × (r ≡ placed s (stream_of x) out)

  IsTouched-by :
      (now : F) (x : Record F) (c : S) (s : BufferRouter F) (o : Option (IngestBuffer F))
      → buffer_for s (stream_of x) ≡ o
      → Source s (stream_of x) o
      → Partly
          (Router.push fl np now (some x) s)
          (IsTouched x s)
          (RaisingRouter.push emit fl np now (some x) c s)
  unfolding Router.push RaisingRouter.push within
  IsTouched-by now x c s none e h = rw (e, Router.push, RaisingRouter.push) (inl refl)
  IsTouched-by now x c s (some buf) e h =
      rw (e, Router.push, RaisingRouter.push)
        (elim (push-Cut emit np fl now x c buf) [
          | inl same ↦ inl (ap (placed s (stream_of x)) same)
          | inr (over, q) ↦ inr (over, (buf, _, h, q, refl))
        ])

  pub push-IsTouched :
      (now : F) (x : Record F) (c : S) (s : BufferRouter F)
      → Partly
          (Router.push fl np now (some x) s)
          (IsTouched x s)
          (RaisingRouter.push emit fl np now (some x) c s)
  push-IsTouched now x c s = IsTouched-by now x c s _ refl (buffer_for-cases s (stream_of x))

  IsTouched-flow :
      (x : Record F) (s : BufferRouter F) (k : StreamId) (r : BufferRouter F × List (Window F))
      → IsKeyed s.buffers
      → IsTouched x s r
      → Flows k s [] r × IsKeyed r.0.buffers
  IsTouched-flow x s k r v (buf, out, source, flushed, e) =
      let b = Source-IsBufferFor s (stream_of x) buf v source in
      let (taken, of) = IsFlush-Taken buf out flushed in
      subst (λ y. Flows k s [] y × IsKeyed y.0.buffers) (sym e)
        (
          subst (λ body. Flows k s body (placed s (stream_of x) out))
              (if_either (same_id (stream_of x) k) [])
              (placed-Flows s (stream_of x) k buf [] out b of taken),
          placed-IsKeyed s (stream_of x) buf out v b of,
        )

  -- The record is taken, or an exception leaves the push without it.
  pub push-flow :
      (now : F) (x : Record F) (c : S) (s : BufferRouter F) (k : StreamId)
      → IsKeyed s.buffers
      → let o = RaisingRouter.push emit fl np now (some x) c s in
        (Flows k s (payload_for k x) (left o) ⊎ ((o.raised ≡ true) × Flows k s [] (left o)))
        × IsKeyed o.state.buffers
  push-flow now x c s k v = elim (push-IsTouched now x c s) [
    | inl same ↦
        subst
          (λ y.
            (Flows k s (payload_for k x) y
              ⊎ (((RaisingRouter.push emit fl np now (some x) c s).raised ≡ true) × Flows k s [] y))
            × IsKeyed y.0.buffers)
          (sym same) (inl (push-Flows fl np now x s k v), push-IsKeyed fl np now x s v)
    | inr (over, q) ↦ let (f, v') = IsTouched-flow x s k _ v q in (inr (over, f), v')
  ]
