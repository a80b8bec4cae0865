-- ===== src/StreamStat/Jitter.antt =====
-- The jitter buffer of `_StreamStat` of src/sceptre_pipeline/metrics.py as windows arrive that are
-- numbered by their sample time.
use mathlib.Core.Path.{subst}
use sceptre_pipeline.Prelude.{
  ℕ, suc, ◌+◌, ◌≤◌, ◌<◌, ◌≡◌, refl, sym, ap, ◌∙◌, true, false, Bool-cases, List, [], ◌∷◌, ◌++◌, map,
  inl, inr, arith, length, take, take-append, length-append, append_assoc, ltb, ltb→lt,
  ltb_false→le, le→ltb, lt→ltb,
}
use sceptre_pipeline.Floats.{Floats}
use sceptre_pipeline.StreamStat.{
  Timed, StreamStat, reorder_window, before, heappush, commit, commit_least, add,
}
use sceptre_pipeline.StreamStat.Arrivals.{
  Among, Increasing, Distinct, insert, Among-append, Among-last, Among-snoc, Distinct-new,
  length-insert, insert-Among, Among-insert, insert-Increasing, head_least,
}
use sceptre_pipeline.StreamStat.Committed.{InTimeOrder, integrate, heappush-insert}

-- The numbers of `n` windows in the order of their arrival: each is there once, with no more than
-- `_REORDER_WINDOW` of its successors before it.
pub record IsNear (n : ℕ) (arrivals : List ℕ) : Type 0 where
  pub count : length arrivals ≡ n
  pub distinct : Distinct arrivals
  pub within : (i : ℕ) → Among i arrivals → i < n
  pub prompt : (i : ℕ) → i < n → Among i (take (i + (reorder_window + 1)) arrivals)

module _ {F : Type 0} (fl : Floats F) (w : ℕ → Timed F) where
  -- After the arrivals `seen`: the first `committed` windows were committed in order, and the others that
  -- arrived are pending.
  pub record Buffered (base s : StreamStat F) (seen : List ℕ) : Type 0 where
    pub committed : ℕ
    pub held : List ℕ
    pub state : s ≡ record (integrate fl w committed base) { pending = map w held }
    pub sorted : Increasing held
    pub low : (i : ℕ) → Among i held → committed ≤ i
    pub kept : (i : ℕ) → Among i seen → committed ≤ i → Among i held
    pub arrived : (i : ℕ) → Among i held → Among i seen
    pub all_committed : (i : ℕ) → i < committed → Among i seen
    pub sizes : length held + committed ≡ length seen
    pub bounded : length held ≤ reorder_window

  length-map : (js : List ℕ) → length (map w js) ≡ length js
  length-map [] = refl
  length-map (j ∷ js) = ap suc (length-map js)

  add_room :
      (x c : ℕ) (held : List ℕ) (base : StreamStat F)
      → heappush fl (w x) (map w held) ≡ map w (insert x held)
      → length (insert x held) ≤ reorder_window
      → add fl (w x) (record (integrate fl w c base) { pending = map w held })
        ≡ record (integrate fl w c base) { pending = map w (insert x held) }
  unfolding add
  add_room x c held base pushed h =
      let room : ltb reorder_window (length (map w (insert x held))) ≡ false =
        le→ltb _ _ (omega (arith, h, length-map (insert x held))) in
      rw (pushed, room) refl

  add_full :
      (x c : ℕ) (held later : List ℕ) (base : StreamStat F)
      → heappush fl (w x) (map w held) ≡ map w (c ∷ later)
      → reorder_window < length (c ∷ later)
      → add fl (w x) (record (integrate fl w c base) { pending = map w held })
        ≡ record (integrate fl w (suc c) base) { pending = map w later }
  unfolding add commit_least integrate commit
  add_full x c held later base pushed h =
      let full : ltb reorder_window (length (map w (c ∷ later))) ≡ true =
        lt→ltb _ _ (omega (arith, h, length-map later)) in
      rw (pushed, full) refl

  not_head : (i c : ℕ) (later : List ℕ) → Among i (c ∷ later) → suc c ≤ i → Among i later
  not_head i c later (inl e) h = absurd (omega arith)
  not_head i c later (inr m) h = m

  committed_before :
      (i c : ℕ) (seen : List ℕ) → i < suc c → (i < c → Among i seen) → Among c seen → Among i seen
  committed_before i c seen h before here = elim (Bool-cases (ltb i c)) [
    | inl less ↦ before (ltb→lt i c less)
    | inr more ↦ let e : i ≡ c = omega (arith, ltb_false→le i c more) in rw e here
  ]

  -- What an arrival makes of the numbers held.
  module _ (x : ℕ) (base s : StreamStat F) (seen : List ℕ) (new : Among x seen → ⊥)
      (b : Buffered base s seen) where
    arrived-insert : (i : ℕ) → Among i (insert x b.held) → Among i (seen ++ x ∷ [])
    arrived-insert i m = elim (Among-insert x i b.held m) [
      | inl e ↦ rw e (Among-last x seen [])
      | inr k ↦ Among-append i seen (x ∷ []) (b.arrived i k)
    ]

    low-insert : (i : ℕ) → Among i (insert x b.held) → b.committed ≤ i
    low-insert i m = elim (Among-insert x i b.held m) [
      | inl e ↦ elim (Bool-cases (ltb x b.committed)) [
        | inl early ↦ absurd (new (b.all_committed x (ltb→lt _ _ early)))
        | inr fine ↦ omega (arith, e, ltb_false→le _ _ fine)
      ]
      | inr k ↦ b.low i k
    ]

    kept-insert : (i : ℕ) → Among i (seen ++ x ∷ []) → b.committed ≤ i → Among i (insert x b.held)
    kept-insert i m h = elim (Among-snoc i x seen m) [
      | inl k ↦ insert-Among x i b.held (inr (b.kept i k h))
      | inr e ↦ insert-Among x i b.held (inl e)
    ]

    room-Buffered :
        add fl (w x) s
          ≡ record (integrate fl w b.committed base) { pending = map w (insert x b.held) }
        → length (insert x b.held) ≤ reorder_window
        → Buffered base (add fl (w x) s) (seen ++ x ∷ [])
    room-Buffered added h = record {
      committed = b.committed;
      held = insert x b.held;
      state = added;
      sorted = insert-Increasing x b.held (λ m. new (b.arrived x m)) b.sorted;
      low = low-insert;
      kept = kept-insert;
      arrived = arrived-insert;
      all_committed = λ i k. Among-append i seen (x ∷ []) (b.all_committed i k);
      sizes = omega (arith, b.sizes, length-insert x b.held, length-append seen (x ∷ []));
      bounded = h;
    }

    full-Buffered :
        (later : List ℕ)
        → insert x b.held ≡ b.committed ∷ later
        → add fl (w x) s ≡ record (integrate fl w (suc b.committed) base) { pending = map w later }
        → length later ≤ reorder_window
        → Among b.committed (seen ++ x ∷ [])
        → Buffered base (add fl (w x) s) (seen ++ x ∷ [])
    full-Buffered later split added h here =
        let sorted =
          subst Increasing split (insert-Increasing x b.held (λ m. new (b.arrived x m)) b.sorted) in
        record {
          committed = suc b.committed;
          held = later;
          state = added;
          sorted = sorted.1;
          low = sorted.0;
          kept = λ i m k.
              not_head i b.committed later (subst (Among i) split (kept-insert i m (omega arith)))
                k;
          arrived = λ i m. arrived-insert i (subst (Among i) (sym split) (inr m));
          all_committed = λ i k.
              committed_before i b.committed (seen ++ x ∷ []) k
                (λ l. Among-append i seen (x ∷ []) (b.all_committed i l)) here;
          sizes = omega (
            arith,
            b.sizes,
            length-insert x b.held,
            ap length split,
            length-append seen (x ∷ []),
          );
          bounded = h;
        }

    -- The least number held is the next one, once it has arrived.
    next_first :
        (h : ℕ) (later : List ℕ)
        → insert x b.held ≡ h ∷ later
        → Among b.committed (seen ++ x ∷ [])
        → h ≡ b.committed
    next_first h later split here =
        head_least b.committed h later
          (subst Increasing split (insert-Increasing x b.held (λ m. new (b.arrived x m)) b.sorted))
          (λ i m. low-insert i (subst (Among i) (sym split) m))
          (subst (Among b.committed) split (kept-insert b.committed here (omega arith)))

    added_full :
        heappush fl (w x) (map w b.held) ≡ map w (insert x b.held)
        → (js : List ℕ) → insert x b.held ≡ js
        → reorder_window < length js
        → Among b.committed (seen ++ x ∷ [])
        → Buffered base (add fl (w x) s) (seen ++ x ∷ [])
    added_full pushed [] split h here = absurd (omega arith)
    added_full pushed (j ∷ later) split h here =
        let e = next_first j later split here in
        let split' : insert x b.held ≡ b.committed ∷ later = split ∙ ap (◌∷ later) e in
        full-Buffered later split'
          (ap (add fl (w x)) b.state
            ∙ add_full x b.committed b.held later base (pushed ∙ ap (map w) split') h)
          (omega (arith, b.bounded, length-insert x b.held, ap length split)) here

    added-step :
        heappush fl (w x) (map w b.held) ≡ map w (insert x b.held)
        → (reorder_window < length (insert x b.held) → Among b.committed (seen ++ x ∷ []))
        → Buffered base (add fl (w x) s) (seen ++ x ∷ [])
    added-step pushed here = elim (Bool-cases (ltb reorder_window (length (insert x b.held)))) [
      | inl full ↦
          added_full pushed (insert x b.held) refl (ltb→lt _ _ full) (here (ltb→lt _ _ full))
      | inr room ↦
          room-Buffered
            (ap (add fl (w x)) b.state
              ∙ add_room x b.committed b.held base pushed (ltb_false→le _ _ room))
            (ltb_false→le _ _ room)
    ]

  pub add-Buffered :
      (n x : ℕ) (arrivals seen rest : List ℕ) (base s : StreamStat F)
      → InTimeOrder fl w n
      → IsNear n arrivals
      → arrivals ≡ seen ++ x ∷ rest
      → Buffered base s seen
      → Buffered base (add fl (w x) s) (seen ++ x ∷ [])
  add-Buffered n x arrivals seen rest base s ordered near e b =
      let new = Distinct-new x seen rest (subst Distinct e near.distinct) in
      let split = e ∙ sym (append_assoc seen (x ∷ []) rest) in
      let inside : (i : ℕ) → Among i (seen ++ x ∷ []) → i < n =
        λ i m. near.within i (subst (Among i) (sym split) (Among-append i _ rest m)) in
      let pushed =
        heappush-insert fl w n ordered x b.held (inside x (Among-last x seen []))
          (λ j m. inside j (Among-append j seen (x ∷ []) (b.arrived j m)))
          (λ m. new (b.arrived x m)) in
      added-step x base s seen new b pushed (λ h.
        let size : length (seen ++ x ∷ []) ≡ b.committed + (reorder_window + 1) =
          omega (arith, b.sizes, b.bounded, length-insert x b.held, length-append seen (x ∷ [])) in
        subst (Among b.committed)
          (ap (take (b.committed + (reorder_window + 1))) split
            ∙ take-append (b.committed + (reorder_window + 1)) (seen ++ x ∷ []) rest size)
          (near.prompt b.committed (
            omega (arith, size, near.count, ap length split, length-append (seen ++ x ∷ []) rest))))
