-- ===== src/Raising/Stopped.antt =====
-- What `Pipeline.run` of src/sceptre_pipeline/runtime.py does on every exit when the emit callback
-- may raise.
use sceptre_pipeline.Prelude.{
  ◌≡◌, refl, sym, ap, ◌∙◌, Bool, true, false, true≢false, Bool-cases, ◌⊎◌, inl, inr, List, [], ◌∷◌,
  ◌++◌, append-nil, arith,
}
use sceptre_pipeline.Prelude.Bytes.{Bytes}
use sceptre_pipeline.Floats.{Floats}
use sceptre_pipeline.Numpy.{Numpy}
use sceptre_pipeline.Dict.{StreamId}
use sceptre_pipeline.Interpreter.{process_all}
use sceptre_pipeline.Buffer.{Window}
use sceptre_pipeline.Router.Drained.{IsKeyed, stream_bytes, open_bytes}
use sceptre_pipeline.Router.Flow.{lost, Flows-behind}
use sceptre_pipeline.Runtime.{Pipeline, Item}
use sceptre_pipeline.Runtime
use sceptre_pipeline.Runtime.EndToEnd.{datagrams, samples_of}
use sceptre_pipeline.Raising.{
  Emit, Outcome, returned, within, and_then, finally, emit_one, emit_all,
}
use sceptre_pipeline.Router
use sceptre_pipeline.Raising.Router as RaisingRouter
use sceptre_pipeline.Raising.Pipeline.{Session, loop, run}
use sceptre_pipeline.Raising.Cut.{left}
use sceptre_pipeline.Raising.Flow.{flush_all-flow}
use sceptre_pipeline.Raising.Ended.{loop-IsTaken}
use sceptre_pipeline.Raising.Follows.{Follows, and_then-Follows, within-Follows}
use sceptre_pipeline.Raising.Sessions.{loop-Follows, flush_all-Follows}

-- A callback that raises on none of the windows gets all.
emit_all-whole :
    {S F : Type 0} (emit : Emit S F) (s : S) (ws : List (Window F))
    → (emit_all emit s ws).raised ≡ false
    → (emit_all emit s ws).handed ≡ ws
unfolding emit_all emit_one and_then
emit_all-whole emit s [] e = refl
emit_all-whole emit s (w ∷ ws) e = elim (Bool-cases (emit s w).1) [
  | inl over ↦ absurd (true≢false (rw over at e))
  | inr on ↦ rw on (ap (w ∷◌) (emit_all-whole emit (emit s w).0 ws (rw on at e)))
]

module _ {S F Arr : Type 0} (emit : Emit S F) (fl : Floats F) (np : Numpy Arr) where
  -- the final flush, on the pipeline
  abbrev last : Pipeline F → S → Outcome S F (Pipeline F)
  last p s = within (λ r. record p { router = r }) (RaisingRouter.flush_all emit s p.router)

  chained-Follows :
      (items : List (Item F)) (s : S) (p : Pipeline F)
      → Follows emit s (Runtime.run fl np items p) (and_then (loop emit fl np items s p) last)
  unfolding Runtime.run
  chained-Follows items s p =
      and_then-Follows emit s _
        (λ p'. let (r, ws) = Router.flush_all p'.router in (record p' { router = r }, ws)) last
        (λ p' s'.
          within-Follows emit s' (λ r. record p' { router = r }) _ _
            (flush_all-Follows emit s' p'.router))
        _ (loop-Follows emit fl np items s p)

  -- How a run ends: the source is stopped. An exception leaves it just if the callback raises on one
  -- of the windows of the undisturbed run `r`, up to the first such; without one, it has handed over
  -- those windows, and left the pipeline of that run and the callback after them.
  pub record IsStopped (s : S) (r : Pipeline F × List (Window F)) (o : Outcome S F (Session F))
      : Type 0 where
    pub stopped : o.state.source_stopped ≡ true
    pub raises : o.raised ≡ (emit_all emit s r.1).raised
    pub intact :
        (o.raised ≡ true)
        ⊎ ((o.handed ≡ r.1)
            × (o.state.pipeline ≡ r.0)
            × (o.callback ≡ (emit_all emit s r.1).callback))

  IsStopped-of :
      (raised : Bool) (p : Pipeline F) (c : S) (ws : List (Window F)) (s : S) (x : Session F)
      (r : Pipeline F × List (Window F))
      → let o : Outcome S F (Pipeline F) = record {
        state = p;
        callback = c;
        handed = ws;
        raised = raised;
      } in
        Follows emit s r (and_then o last)
        → IsStopped s r (
            finally (within (λ p'. record x { pipeline = p' }) o) λ x1 s1.
              finally
                (within
                  (λ y. record x1 { pipeline = record x1.pipeline { router = y } })
                  (RaisingRouter.flush_all emit s1 x1.pipeline.router))
                (λ x2 s2. returned (record x2 { source_stopped = true }) s2))
  unfolding and_then finally within
  IsStopped-of true p c ws s x r v = record {
    stopped = refl;
    raises = ap (λ o. o.raised) v.emitted;
    intact = inl refl;
  }
  IsStopped-of false p c ws s x r v =
      let end = RaisingRouter.flush_all emit c p.router in
      elim (Bool-cases end.raised) [
        | inl over ↦ record {
          stopped = refl;
          raises = rw over (sym over ∙ ap (λ o. o.raised) v.emitted);
          intact = inl (rw over refl);
        }
        | inr on ↦ record {
          stopped = refl;
          raises = rw on (sym on ∙ ap (λ o. o.raised) v.emitted);
          intact = inr (
            ap (ws ++◌) (append-nil end.handed)
                ∙ (ap (λ o. o.handed) v.emitted
                    ∙ emit_all-whole emit s r.1 (sym (ap (λ o. o.raised) v.emitted) ∙ on)),
            elim v.intact [ inl over ↦ absurd (true≢false (sym over ∙ on)) | inr e ↦ e ],
            ap (λ o. o.callback) v.emitted,
          );
        }
      ]

  -- Whatever the callback raises on, `run` stops the source. An exception leaves it just if the
  -- callback, given the windows of the run under a callback that returns, raises on one of them. If
  -- not, then `run` hands over these windows and leaves the pipeline as that run does.
  pub run-IsStopped :
      (items : List (Item F)) (s : S) (x : Session F)
      → IsStopped s (Runtime.run fl np items x.pipeline) (run emit fl np items s x)
  unfolding run
  run-IsStopped items s x =
      let o = loop emit fl np items s x.pipeline in
      IsStopped-of o.raised o.state o.callback o.handed s x (Runtime.run fl np items x.pipeline)
        (chained-Follows items s x.pipeline)

  -- What a run has handed over of a stream when it ends.
  pub record IsOrdered (k : StreamId) (items : List (Item F)) (x : Session F)
      (o : Outcome S F (Session F)) : Type 0 where
    pub taken : List Bytes
    pub others : List Bytes
    pub whole : datagrams items ≡ taken ++ others
    pub complete : (o.raised ≡ true) ⊎ (others ≡ [])
    pub order :
        stream_bytes k o.handed ++ open_bytes k o.state.pipeline.router.buffers
        ≡ open_bytes k x.pipeline.router.buffers
          ++ samples_of k (process_all fl x.pipeline.interpreter taken).1

  -- Let the router hold at most one buffer per stream, each under its own stream id, and let a run
  -- count no drop in the router or in its buffers. Whatever the callback raises on, there is a
  -- first part of the datagrams taken, all of them if no exception leaves the run, so that the
  -- bytes of the windows handed over for a stream, those on which the callback raised included,
  -- followed by the bytes left in its open window, are the bytes that were open at the start
  -- followed by the samples of the stream's data records that the interpreter makes of this part.
  pub run-IsOrdered :
      (items : List (Item F)) (s : S) (x : Session F) (k : StreamId)
      → IsKeyed x.pipeline.router.buffers
      → lost (run emit fl np items s x).state.pipeline.router ≡ lost x.pipeline.router
      → IsOrdered k items x (run emit fl np items s x)
  unfolding run finally within
  run-IsOrdered items s x k v none_lost =
      let o = loop emit fl np items s x.pipeline in
      let h = loop-IsTaken emit fl np items s x.pipeline k v in
      let end = RaisingRouter.flush_all emit o.callback o.state.router in
      let (f, v') = flush_all-flow emit o.callback o.state.router k h.keyed in
      let body = samples_of k (process_all fl x.pipeline.interpreter h.taken).1 in
      record {
        taken = h.taken;
        others = h.others;
        whole = h.whole;
        complete = elim h.complete [ inl e ↦ inl (rw e refl) | inr e ↦ inr e ];
        order =
            elim (Flows-behind k x.pipeline.router body [] (o.state.router, o.handed) (left end)
              h.flows f) [
                | inl (same, e) ↦
                    ap (λ ws. stream_bytes k (o.handed ++ ws) ++ open_bytes k end.state.buffers)
                      (append-nil end.handed)
                    ∙ (e ∙ ap (open_bytes k x.pipeline.router.buffers ++◌) (append-nil body))
                | inr more ↦ absurd (omega (arith, none_lost))
              ];
      }
