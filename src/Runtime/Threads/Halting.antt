-- ===== src/Runtime/Threads/Halting.antt =====
-- When `run` of src/sceptre_pipeline/runtime.py returns.
use mathlib.Core.Path.{subst}
use sceptre_pipeline.Prelude.{
  ℕ, zero, suc, ◌≤◌, ◌<◌, ◌≡◌, refl, sym, ap, ◌∙◌, true, false, true≢false, List, [], ◌∷◌, ◌++◌,
  length, leb, arith, Bool-cases, inl, inr, ◌⊎◌,
}
use sceptre_pipeline.Prelude.Bytes.{Bytes}
use sceptre_pipeline.Floats.{Floats}
use sceptre_pipeline.Numpy.{Numpy}
use sceptre_pipeline.Dict.{StreamId}
use sceptre_pipeline.Queue.{BoundedRawQueue, put, get, take_front, pop_left}
use sceptre_pipeline.Sources.{Put, raw}
use sceptre_pipeline.Runtime.{Pipeline}
use sceptre_pipeline.Runtime.Threads.{
  System, start, produce, stop, finish, take_item, turn, Step, Reach, produced, consumed, stopping,
  here, next,
}
use sceptre_pipeline.Runtime.Threads.Refinement.{
  turn_running, turn_stopped, turn_finished, Reach-IsExecution, start-IsExecution,
}

-- The list ends with the end-of-stream mark.
abbrev pub IsMarked : List Put → Type 0
IsMarked [] = ⊥
IsMarked (x ∷ []) = x ≡ Put.shutdown
IsMarked (x ∷ y ∷ rest) = IsMarked (y ∷ rest)

IsMarked-snoc : (xs : List Put) (x : Put) → x ≡ Put.shutdown → IsMarked (xs ++ x ∷ [])
IsMarked-snoc [] x e = e
IsMarked-snoc (y ∷ []) x e = e
IsMarked-snoc (y ∷ z ∷ xs) x e = IsMarked-snoc (z ∷ xs) x e

IsMarked-rest :
    (x : Put) (rest : List Put)
    → IsMarked (x ∷ rest)
    → ((rest ≡ []) × (x ≡ Put.shutdown)) ⊎ IsMarked rest
IsMarked-rest x [] m = inl (refl, m)
IsMarked-rest x (y ∷ rest) m = inr m

raw_rest : (b : Bytes) (rest : List Put) → IsMarked (raw b ∷ rest) → IsMarked rest
raw_rest b [] m = cc
raw_rest b (y ∷ rest) m = m

pub empty_unmarked : (xs : List Put) → length xs ≤ 0 → IsMarked xs → ⊥
empty_unmarked [] h m = m
empty_unmarked (x ∷ xs) h m = omega arith

module _ {F Arr : Type 0} (fl : Floats F) (np : Numpy Arr) where
  -- The consumer's thread alone, for some turns, with the clock readings of each.
  unfoldable pub turns : ℕ → (ℕ → F) → (ℕ → StreamId → F) → System F → System F
  turns zero now clock s = s
  turns (suc n) now clock s = turns n now clock (turn fl np (now n) (clock n) s)

  -- The mark is still to be put, or stands last in the queue, unless the consumer has returned.
  abbrev pub WillEnd : System F → Type 0
  WillEnd s =
      (s.finished ≡ true) ⊎ (IsMarked s.pending ⊎ ((s.pending ≡ []) × IsMarked s.queue.items))

  -- Nothing is left to do, or a queue of at most `n` items and no more puts.
  abbrev pub Left : ℕ → System F → Type 0
  Left n t = (t.finished ≡ true) ⊎ ((t.pending ≡ []) × (length t.queue.items ≤ n))

  IsMarked-items :
      (s : System F) → s.finished ≡ false → s.pending ≡ [] → WillEnd s → IsMarked s.queue.items
  IsMarked-items s running e (inl over) = absurd (true≢false (sym over ∙ running))
  IsMarked-items s running e (inr (inl m)) = absurd (subst IsMarked e m)
  IsMarked-items s running e (inr (inr (f, m))) = m

  put-last :
      (x : Put) (q : BoundedRawQueue Put) → (xs : List Put) × ((put x q).items ≡ xs ++ x ∷ [])
  unfolding put
  put-last x q = elim (Bool-cases (leb q.maxsize (length q.items))) [
    | inl full ↦ (pop_left q.items, rw full refl)
    | inr room ↦ (q.items, rw room refl)
  ]

  -- A put of the mark puts it last, whether or not it evicts.
  put-IsMarked : (x : Put) (q : BoundedRawQueue Put) → x ≡ Put.shutdown → IsMarked (put x q).items
  put-IsMarked x q e = let (xs, f) = put-last x q in rw f (IsMarked-snoc xs x e)

  pub produce-WillEnd :
      (x : Put) (rest : List Put) (s : System F)
      → s.pending ≡ x ∷ rest
      → WillEnd s
      → WillEnd (produce x rest s)
  unfolding produce
  produce-WillEnd x rest s e (inl over) = inl over
  produce-WillEnd x rest s e (inr (inr (f, m))) = absurd cc
  produce-WillEnd x rest s e (inr (inl m)) = elim (IsMarked-rest x rest (subst IsMarked e m)) [
    | inl (one, last) ↦ inr (inr (one, put-IsMarked x s.queue last))
    | inr rest_m ↦ inr (inl rest_m)
  ]

  take_item-WillEnd :
      (now : F) (clock : StreamId → F) (s : System F) (items : List Put)
      → s.queue.items ≡ items
      → WillEnd s
      → WillEnd (take_item fl np now clock s (take_front s.queue items))
  unfolding take_item finish
  take_item-WillEnd now clock s [] e (inl over) = inl over
  take_item-WillEnd now clock s [] e (inr (inl m)) = inr (inl m)
  take_item-WillEnd now clock s [] e (inr (inr (f, m))) = absurd (subst IsMarked e m)
  take_item-WillEnd now clock s (Put.shutdown ∷ rest) e w = inl refl
  take_item-WillEnd now clock s (raw b ∷ rest) e (inl over) = inl over
  take_item-WillEnd now clock s (raw b ∷ rest) e (inr (inl m)) = inr (inl m)
  take_item-WillEnd now clock s (raw b ∷ rest) e (inr (inr (f, m))) =
      inr (inr (f, raw_rest b rest (subst IsMarked e m)))

  pub turn-WillEnd :
      (now : F) (clock : StreamId → F) (s : System F) → WillEnd s → WillEnd (turn fl np now clock s)
  unfolding get finish
  turn-WillEnd now clock s w = elim (Bool-cases s.finished) [
    | inl over ↦ subst WillEnd (sym (turn_finished fl np now clock s over)) w
    | inr running ↦ elim (Bool-cases s.stopped) [
      | inl halted ↦ subst WillEnd (sym (turn_stopped fl np now clock s running halted)) (inl refl)
      | inr going ↦
          subst WillEnd (sym (turn_running fl np now clock s running going))
            (take_item-WillEnd now clock s s.queue.items refl w)
    ]
  ]

  Step-WillEnd : {s t : System F} → Step fl np s t → WillEnd s → WillEnd t
  unfolding stop
  Step-WillEnd {s} (produced x rest e f) w = subst WillEnd (sym f) (produce-WillEnd x rest s e w)
  Step-WillEnd {s} (consumed now clock f) w = subst WillEnd (sym f) (turn-WillEnd now clock s w)
  Step-WillEnd {s} (stopping f) w = subst WillEnd (sym f) w

  Reach-WillEnd : {s t : System F} → Reach fl np s t → WillEnd s → WillEnd t
  Reach-WillEnd here w = w
  Reach-WillEnd (next r st) w = Step-WillEnd st (Reach-WillEnd r w)

  pub start-WillEnd :
      (maxsize : ℕ) (puts : List Put) (p : Pipeline F)
      → IsMarked puts
      → WillEnd (start maxsize puts p)
  unfolding start
  start-WillEnd maxsize puts p m = inr (inl m)

  -- What a turn of a running consumer leaves to do: nothing, or a queue that is one shorter.
  take_item-progress :
      (now : F) (clock : StreamId → F) (s : System F) (n : ℕ) (items : List Put)
      → s.pending ≡ []
      → IsMarked items
      → length items ≤ suc n
      → Left n (take_item fl np now clock s (take_front s.queue items))
  unfolding take_item finish
  take_item-progress now clock s n [] e m short = absurd m
  take_item-progress now clock s n (Put.shutdown ∷ rest) e m short = inl refl
  take_item-progress now clock s n (raw b ∷ rest) e m short = inr (e, omega arith)

  turn-progress :
      (now : F) (clock : StreamId → F) (s : System F) (n : ℕ)
      → WillEnd s
      → s.pending ≡ []
      → length s.queue.items ≤ suc n
      → Left n (turn fl np now clock s)
  unfolding get finish
  turn-progress now clock s n w e short = elim (Bool-cases s.finished) [
    | inl over ↦ subst (Left n) (sym (turn_finished fl np now clock s over)) (inl over)
    | inr running ↦ elim (Bool-cases s.stopped) [
      | inl halted ↦ subst (Left n) (sym (turn_stopped fl np now clock s running halted)) (inl refl)
      | inr going ↦
          subst (Left n) (sym (turn_running fl np now clock s running going))
            (take_item-progress now clock s n s.queue.items e (IsMarked-items s running e w) short)
    ]
  ]

  turns_over :
      (n : ℕ) (now : ℕ → F) (clock : ℕ → StreamId → F) (s : System F)
      → s.finished ≡ true
      → (turns n now clock s).finished ≡ true
  unfolding turns
  turns_over zero now clock s e = e
  turns_over (suc n) now clock s e =
      turns_over n now clock _ (ap (λ t. t.finished) (turn_finished fl np _ _ s e) ∙ e)

  turns_end :
      (n : ℕ) (now : ℕ → F) (clock : ℕ → StreamId → F) (s : System F)
      → WillEnd s
      → s.pending ≡ []
      → length s.queue.items ≤ n
      → (turns n now clock s).finished ≡ true
  unfolding turns
  turns_end zero now clock s w e short = elim (Bool-cases s.finished) [
    | inl over ↦ over
    | inr running ↦ absurd (empty_unmarked s.queue.items short (IsMarked-items s running e w))
  ]
  turns_end (suc n) now clock s w e short = elim (turn-progress (now n) (clock n) s n w e short) [
    | inl over ↦ turns_over n now clock _ over
    | inr (e', short') ↦ turns_end n now clock _ (turn-WillEnd (now n) (clock n) s w) e' short'
  ]

  -- Let the source's puts end with the end-of-stream mark, and let the queue be new and of positive
  -- size. In any state that the threads reach in which the source has put all, the consumer alone
  -- returns within as many turns as the queue's size, whether or not items were evicted or the
  -- event was set.
  pub run_returns :
      (maxsize : ℕ) (puts : List Put) (p : Pipeline F) (s : System F)
      → (now : ℕ → F) → (clock : ℕ → StreamId → F) → 0 < maxsize
      → IsMarked puts
      → Reach fl np (start maxsize puts p) s
      → s.pending ≡ []
      → (turns s.queue.maxsize now clock s).finished ≡ true
  run_returns maxsize puts p s now clock pos marked reach e =
      let v = Reach-IsExecution fl np puts p (start-IsExecution fl np maxsize puts p pos) reach in
      turns_end s.queue.maxsize now clock s
        (Reach-WillEnd reach (start-WillEnd maxsize puts p marked)) e v.tracks.bounded
