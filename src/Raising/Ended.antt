-- ===== src/Raising/Ended.antt =====
-- How `Pipeline.run` of src/sceptre_pipeline/runtime.py ends when the emit callback may raise.
use mathlib.Core.Path.{subst}
use sceptre_pipeline.Prelude.{
  ◌≡◌, refl, sym, ap, ◌∙◌, true, false, true≢false, Bool-cases, ◌⊎◌, inl, inr, List, [], ◌∷◌, ◌++◌,
  append-nil,
}
use sceptre_pipeline.Prelude.Bytes.{Bytes}
use sceptre_pipeline.Floats.{Floats}
use sceptre_pipeline.Numpy.{Numpy}
use sceptre_pipeline.Dict.{StreamId}
use sceptre_pipeline.Interpreter.{Interpreter, process, process_all}
use sceptre_pipeline.Router.Drained.{IsKeyed}
use sceptre_pipeline.Router.Flow.{Flows, Flows-behind}
use sceptre_pipeline.Runtime.{Pipeline, Item, shutdown, timeout, datagram}
use sceptre_pipeline.Runtime.EndToEnd.{datagrams, samples_of, samples_of_one, samples_of-join}
use sceptre_pipeline.Raising.{Emit, Outcome, within, behind}
use sceptre_pipeline.Raising.Pipeline.{poll, handle, loop}
use sceptre_pipeline.Raising.Flow.{poll-flow}
use sceptre_pipeline.Raising.Turns.{
  and_then_raised, and_then_on, routed, Brings, handle-Brings, handle-interpreter,
}

module _ {S F Arr : Type 0} (emit : Emit S F) (fl : Floats F) (np : Numpy Arr) where
  -- The records of a first part of the datagrams are in, and if no exception ended the loop, then
  -- those of all.
  pub record IsTaken (k : StreamId) (all : List Bytes) (p : Pipeline F)
      (o : Outcome S F (Pipeline F)) : Type 0 where
    pub taken : List Bytes
    pub others : List Bytes
    pub whole : all ≡ taken ++ others
    pub complete : (o.raised ≡ true) ⊎ (others ≡ [])
    pub flows :
        Flows k p.router (samples_of k (process_all fl p.interpreter taken).1) (routed emit fl np o)
    pub keyed : IsKeyed o.state.router.buffers

  -- nothing is taken
  untaken :
      (k : StreamId) (all : List Bytes) (p : Pipeline F) (o : Outcome S F (Pipeline F))
      → (o.raised ≡ true) ⊎ (all ≡ [])
      → Flows k p.router [] (routed emit fl np o)
      → IsKeyed o.state.router.buffers
      → IsTaken k all p o
  unfolding process_all
  untaken k all p o e f v = record {
    taken = [];
    others = all;
    whole = refl;
    complete = e;
    flows = f;
    keyed = v;
  }

  -- the samples of one datagram and of those behind it
  samples-step :
      (k : StreamId) (i : Interpreter F) (raw : Bytes) (raws : List Bytes)
      → samples_of_one k (process fl i raw).1
          ++ samples_of k (process_all fl (process fl i raw).0 raws).1
        ≡ samples_of k (process_all fl i (raw ∷ raws)).1
  unfolding process_all
  samples-step k i raw raws = sym (samples_of-join k (process fl i raw).1 _)

  raw_only :
      (k : StreamId) (i : Interpreter F) (raw : Bytes)
      → samples_of_one k (process fl i raw).1 ≡ samples_of k (process_all fl i (raw ∷ [])).1
  unfolding process_all
  raw_only k i raw = sym (append-nil _) ∙ samples-step k i raw []

  -- a turn that an exception left
  left_at :
      (k : StreamId) (raw : Bytes) (raws : List Bytes) (p : Pipeline F)
      (o : Outcome S F (Pipeline F))
      → o.raised ≡ true
      → Brings emit fl np k p (samples_of_one k (process fl p.interpreter raw).1) o
      → IsTaken k (raw ∷ raws) p o
  left_at k raw raws p o over (inr (e, f), v) = untaken k (raw ∷ raws) p o (inl over) f v
  left_at k raw raws p o over (inl f, v) = record {
    taken = raw ∷ [];
    others = raws;
    whole = refl;
    complete = inl over;
    flows =
        subst (λ body. Flows k p.router body (routed emit fl np o)) (raw_only k p.interpreter raw)
          f;
    keyed = v;
  }

  -- a turn that went through, and what follows it
  went_on :
      (k : StreamId) (raw : Bytes) (raws : List Bytes) (p : Pipeline F)
      (o next : Outcome S F (Pipeline F))
      → o.raised ≡ false
      → Brings emit fl np k p (samples_of_one k (process fl p.interpreter raw).1) o
      → o.state.interpreter ≡ (process fl p.interpreter raw).0
      → IsTaken k raws o.state next
      → IsTaken k (raw ∷ raws) p (behind o.handed next)
  went_on k raw raws p o next on (inr (over, f), v) e h = absurd (true≢false (sym over ∙ on))
  went_on k raw raws p o next on (inl f, v) e h = record {
    taken = raw ∷ h.taken;
    others = h.others;
    whole = ap (raw ∷◌) h.whole;
    complete = h.complete;
    flows =
        subst (λ body. Flows k p.router body (next.state.router, o.handed ++ next.handed))
          (samples-step k p.interpreter raw h.taken)
          (subst
            (λ i.
              Flows k p.router
                (samples_of_one k (process fl p.interpreter raw).1
                  ++ samples_of k (process_all fl i h.taken).1)
                (next.state.router, o.handed ++ next.handed))
            e
            (Flows-behind k p.router _ (samples_of k (process_all fl o.state.interpreter h.taken).1)
              (routed emit fl np o) (routed emit fl np next) f h.flows));
    keyed = h.keyed;
  }

  -- a poll, and what follows it
  polled :
      (k : StreamId) (all : List Bytes) (p : Pipeline F) (o next : Outcome S F (Pipeline F))
      → Flows k p.router [] (routed emit fl np o)
      → o.state.interpreter ≡ p.interpreter
      → IsTaken k all o.state next
      → IsTaken k all p (behind o.handed next)
  polled k all p o next f e h = record {
    taken = h.taken;
    others = h.others;
    whole = h.whole;
    complete = h.complete;
    flows =
        subst
          (λ i.
            Flows k p.router (samples_of k (process_all fl i h.taken).1)
              (next.state.router, o.handed ++ next.handed))
          e (Flows-behind k p.router [] _ (routed emit fl np o) (routed emit fl np next) f h.flows);
    keyed = h.keyed;
  }

  pub loop-IsTaken :
      (items : List (Item F)) (c : S) (p : Pipeline F) (k : StreamId)
      → IsKeyed p.router.buffers
      → IsTaken k (datagrams items) p (loop emit fl np items c p)
  unfolding loop poll within
  loop-IsTaken [] c p k v = untaken k [] p _ (inr refl) (inl (refl, sym (append-nil _))) v
  loop-IsTaken (shutdown ∷ items) c p k v =
      untaken k [] p _ (inr refl) (inl (refl, sym (append-nil _))) v
  loop-IsTaken (timeout clock ∷ items) c p k v =
      let o = poll emit fl np clock c p in
      let rest : Pipeline F → S → Outcome S F (Pipeline F) = λ p' c'. loop emit fl np items c' p' in
      let (f, v') = poll-flow emit fl clock c p.router k v in
      elim (Bool-cases o.raised) [
        | inl over ↦
            subst (IsTaken k (datagrams items) p) (sym (and_then_raised o rest over))
              (untaken k (datagrams items) p o (inl over) f v')
        | inr on ↦
            subst (IsTaken k (datagrams items) p) (sym (and_then_on o rest on))
              (polled k (datagrams items) p o _ f refl (loop-IsTaken items o.callback o.state k v'))
      ]
  loop-IsTaken (datagram raw now clock ∷ items) c p k v =
      let o = handle emit fl np raw now clock c p in
      let rest : Pipeline F → S → Outcome S F (Pipeline F) = λ p' c'. loop emit fl np items c' p' in
      let b = handle-Brings emit fl np raw now clock c p k v in
      elim (Bool-cases o.raised) [
        | inl over ↦
            subst (IsTaken k (raw ∷ datagrams items) p) (sym (and_then_raised o rest over))
              (left_at k raw (datagrams items) p o over b)
        | inr on ↦ subst (IsTaken k (raw ∷ datagrams items) p) (sym (and_then_on o rest on)) (
            went_on k raw (datagrams items) p o _ on b
              (handle-interpreter emit fl np raw now clock c p)
              (loop-IsTaken items o.callback o.state k b.1))
      ]
