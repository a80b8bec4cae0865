-- ===== src/Runtime/Threads/Refinement.antt =====
-- An execution of the threads of src/sceptre_pipeline/runtime.py against the loop on its own.
use mathlib.Core.Path.{subst}
use sceptre_pipeline.Prelude.{
  ℕ, ◌<◌, ◌≡◌, refl, sym, ap, ◌∙◌, true, false, Option, none, some, List, [], ◌∷◌, ◌++◌, arith,
  append-nil, append_assoc, Bool-cases, inl, inr, if_true, if_false, if◌then◌else◌,
}
use sceptre_pipeline.Floats.{Floats}
use sceptre_pipeline.Numpy.{Numpy}
use sceptre_pipeline.Dict.{StreamId}
use sceptre_pipeline.Queue.{BoundedRawQueue, get}
use sceptre_pipeline.Queue.Lossy.{Tracks, Tracks-put, Tracks-get, done, received}
use sceptre_pipeline.Sources.{Put, raw}
use sceptre_pipeline.Runtime.{Pipeline, Item, timeout, datagram, loop, run}
use sceptre_pipeline.Runtime.Threads.{
  System, start, produce, stop, finish, take_item, turn, Step, Reach, produced, consumed, stopping,
  here, next,
}
use sceptre_pipeline.Runtime.Threads.Items.{
  puts_of, puts_of-append, IsOpen, IsOpen-append, Ends, of_else, to_else, loop-append,
}

module _ {F Arr : Type 0} (fl : Floats F) (np : Numpy Arr) where
  -- The consumer has done what `loop` does, or what `run` does if it has returned.
  abbrev pub Sequential : List (Item F) → Pipeline F → System F → Type 0
  Sequential items p s =
      if s.finished
      then run fl np items p ≡ (s.pipeline, s.windows)
      else (loop fl np items p ≡ (s.pipeline, s.windows)) × IsOpen items

  -- If the consumer left the loop at the mark, then it got the mark, last; if not, then it got none.
  abbrev pub Ended : List (Item F) → System F → Type 0
  Ended items s =
      if s.finished then if s.at_mark then Ends items else IsOpen items else s.at_mark ≡ false

  -- A state that is reached with the puts `all` and the pipeline `p`: the items got are a part of
  -- the puts in order, and the consumer did with them what the loop does.
  pub record IsExecution (all : List Put) (p : Pipeline F) (s : System F) : Type 0 where
    pub history : List Put
    pub items : List (Item F)
    pub whole : all ≡ history ++ s.pending
    pub tracks : Tracks history (puts_of items) s.queue
    pub sequential : Sequential items p s
    pub ended : Ended items s

  pub start-IsExecution :
      (maxsize : ℕ) (all : List Put) (p : Pipeline F)
      → 0 < maxsize
      → IsExecution all p (start maxsize all p)
  unfolding start loop
  start-IsExecution maxsize all p pos = record {
    history = [];
    items = [];
    whole = refl;
    tracks = record {
      gone = [];
      order = refl;
      delivered = done;
      counted = omega arith;
      bounded = omega arith;
      positive = pos;
    };
    sequential = (refl, tt);
    ended = refl;
  }

  pub turn_finished :
      (now : F) (clock : StreamId → F) (s : System F)
      → s.finished ≡ true
      → turn fl np now clock s ≡ s
  unfolding turn
  turn_finished now clock s e = if_true s.finished _ _ e

  pub turn_stopped :
      (now : F) (clock : StreamId → F) (s : System F)
      → s.finished ≡ false
      → s.stopped ≡ true
      → turn fl np now clock s ≡ finish s
  unfolding turn
  turn_stopped now clock s e f = if_false s.finished _ _ e ∙ if_true s.stopped _ _ f

  pub turn_running :
      (now : F) (clock : StreamId → F) (s : System F)
      → s.finished ≡ false
      → s.stopped ≡ false
      → turn fl np now clock s ≡ take_item fl np now clock s (get s.queue)
  unfolding turn
  turn_running now clock s e f = if_false s.finished _ _ e ∙ if_false s.stopped _ _ f

  module _ (all : List Put) (p : Pipeline F) where
    produce-IsExecution :
        (x : Put) (rest : List Put) (s : System F)
        → s.pending ≡ x ∷ rest
        → IsExecution all p s
        → IsExecution all p (produce x rest s)
    unfolding produce
    produce-IsExecution x rest s e v = record {
      history = v.history ++ x ∷ [];
      items = v.items;
      whole = v.whole ∙ (ap (v.history ++◌) e ∙ sym (append_assoc v.history (x ∷ []) rest));
      tracks = Tracks-put v.history (puts_of v.items) s.queue x v.tracks;
      sequential = v.sequential;
      ended = v.ended;
    }

    -- The loop has come to its end, at the end of its list or at the mark.
    finish-IsExecution :
        (s : System F) (history : List Put) (items : List (Item F))
        → all ≡ history ++ s.pending
        → Tracks history (puts_of items) s.queue
        → loop fl np items p ≡ (s.pipeline, s.windows)
        → (if s.at_mark then Ends items else IsOpen items)
        → IsExecution all p (finish s)
    unfolding finish run
    finish-IsExecution s history items w t e end_of = record {
      history = history;
      items = items;
      whole = w;
      tracks = t;
      sequential = rw e refl;
      ended = end_of;
    }

    -- The queue after a turn that took nothing, or an item.
    after_get :
        (s : System F) (r : BoundedRawQueue Put × Option Put)
        → (v : IsExecution all p s) → get s.queue ≡ r
        → Tracks v.history (received (puts_of v.items) r.1) r.0
    after_get s r v e =
        subst (λ o. Tracks v.history (received (puts_of v.items) o.1) o.0) e
          (Tracks-get v.history (puts_of v.items) s.queue v.tracks)

    -- A turn whose item the loop would have got next.
    taken :
        (i : Item F) (s s' : System F)
        → (v : IsExecution all p s) → s.finished ≡ false
        → IsOpen (i ∷ [])
        → s'.pending ≡ s.pending
        → Tracks v.history (puts_of v.items ++ puts_of (i ∷ [])) s'.queue
        → s'.finished ≡ false
        → s'.at_mark ≡ s.at_mark
        → s'.pipeline ≡ (loop fl np (i ∷ []) s.pipeline).0
        → s'.windows ≡ s.windows ++ (loop fl np (i ∷ []) s.pipeline).1
        → IsExecution all p s'
    taken i s s' v running one pending t running' mark pipeline windows =
        let (looped, open_loop) = of_else s.finished _ _ running v.sequential in
        record {
          history = v.history;
          items = v.items ++ i ∷ [];
          whole = v.whole ∙ ap (v.history ++◌) (sym pending);
          tracks = rw (puts_of-append v.items (i ∷ [])) t;
          sequential = to_else s'.finished _ _ running' (
            loop-append fl np v.items (i ∷ []) p open_loop ∙ (rw (looped, pipeline, windows) refl),
            IsOpen-append v.items (i ∷ []) open_loop one,
          );
          ended = to_else s'.finished _ _ running' (mark ∙ of_else s.finished _ _ running v.ended);
        }

    take_item-IsExecution :
        (now : F) (clock : StreamId → F) (s : System F) (r : BoundedRawQueue Put × Option Put)
        → IsExecution all p s
        → s.finished ≡ false
        → get s.queue ≡ r
        → IsExecution all p (take_item fl np now clock s r)
    unfolding take_item loop
    take_item-IsExecution now clock s (q, none) v running e =
        taken (timeout clock) s _ v running tt refl
          (rw (append-nil (puts_of v.items)) (after_get s (q, none) v e)) running refl refl
          (ap (s.windows ++◌) (sym (append-nil _)))
    take_item-IsExecution now clock s (q, some (raw bytes)) v running e =
        taken (datagram bytes now clock) s _ v running tt refl
          (after_get s (q, some (raw bytes)) v e) running refl refl
          (ap (s.windows ++◌) (sym (append-nil _)))
    take_item-IsExecution now clock s (q, some Put.shutdown) v running e =
        let (looped, open_loop) = of_else s.finished _ _ running v.sequential in
        finish-IsExecution (record s { queue = q; at_mark = true }) v.history
          (v.items ++ Item.shutdown ∷ []) v.whole
          (rw (puts_of-append v.items (Item.shutdown ∷ []))
            (after_get s (q, some Put.shutdown) v e))
          (loop-append fl np v.items (Item.shutdown ∷ []) p open_loop
            ∙ rw (looped, append-nil s.windows) refl)
          (v.items, open_loop, refl)

    turn-IsExecution :
        (now : F) (clock : StreamId → F) (s : System F)
        → IsExecution all p s
        → IsExecution all p (turn fl np now clock s)
    turn-IsExecution now clock s v = elim (Bool-cases s.finished) [
      | inl over ↦ subst (IsExecution all p) (sym (turn_finished now clock s over)) v
      | inr running ↦ elim (Bool-cases s.stopped) [
        | inl halted ↦ subst (IsExecution all p) (sym (turn_stopped now clock s running halted)) (
            let (looped, open_loop) = of_else s.finished _ _ running v.sequential in
            finish-IsExecution s v.history v.items v.whole v.tracks looped
              (to_else s.at_mark _ _ (of_else s.finished _ _ running v.ended) open_loop))
        | inr going ↦
            subst (IsExecution all p) (sym (turn_running now clock s running going))
              (take_item-IsExecution now clock s _ v running refl)
      ]
    ]

    Step-IsExecution : {s t : System F} → Step fl np s t → IsExecution all p s → IsExecution all p t
    unfolding stop
    Step-IsExecution {s} (produced x rest e f) v =
        subst (IsExecution all p) (sym f) (produce-IsExecution x rest s e v)
    Step-IsExecution {s} (consumed now clock f) v =
        subst (IsExecution all p) (sym f) (turn-IsExecution now clock s v)
    Step-IsExecution {s} (stopping f) v = subst (IsExecution all p) (sym f) (record {
      history = v.history;
      items = v.items;
      whole = v.whole;
      tracks = v.tracks;
      sequential = v.sequential;
      ended = v.ended;
    })

    pub Reach-IsExecution :
        {s t : System F} → IsExecution all p s → Reach fl np s t → IsExecution all p t
    Reach-IsExecution v here = v
    Reach-IsExecution v (next r st) = Step-IsExecution st (Reach-IsExecution v r)

    -- In any state that the threads reach from the start on a new queue of positive size: what was
    -- put is a first part of the source's items, in order; what the consumer got is a subsequence
    -- of it, and the rest that left the queue is counted in `dropped`; the pipeline and the windows
    -- are those of the loop on its own over what was got, or of `run` if the consumer has returned;
    -- if it left the loop at the mark, then it got the mark, last, and if not, then it got none.
    pub Reach-refines :
        (maxsize : ℕ) (s : System F)
        → 0 < maxsize
        → Reach fl np (start maxsize all p) s
        → IsExecution all p s
    Reach-refines maxsize s pos r = Reach-IsExecution (start-IsExecution maxsize all p pos) r
