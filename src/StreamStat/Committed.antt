-- ===== src/StreamStat/Committed.antt =====
-- Windows of src/sceptre_pipeline/metrics.py in the order of their timestamps, committed without a
-- buffer, and their insertion among others.
use sceptre_pipeline.Prelude.{
  ℕ, zero, suc, ◌<◌, ◌≡◌, ◌≢◌, refl, true, false, Bool-cases, List, [], ◌∷◌, map, inl, inr, arith,
  ltb, ltb→lt, ltb_false→le,
}
use sceptre_pipeline.Floats.{Floats}
use sceptre_pipeline.StreamStat.{Timed, StreamStat, before, heappush, commit}
use sceptre_pipeline.StreamStat.Arrivals.{Among, insert}

module _ {F : Type 0} (fl : Floats F) (w : ℕ → Timed F) where
  -- Numbered by their timestamps, which are pairwise comparable and different.
  abbrev pub InTimeOrder : ℕ → Type 0
  InTimeOrder n =
      (i j : ℕ)
      → i < j
      → j < n
      → (fl.eq (w i).ts (w j).ts ≡ false)
        × (fl.eq (w j).ts (w i).ts ≡ false)
        × (fl.lt (w i).ts (w j).ts ≡ true)
        × (fl.lt (w j).ts (w i).ts ≡ false)

  -- The reference: the first `n` windows committed in order, with no buffer.
  unfoldable pub integrate : ℕ → StreamStat F → StreamStat F
  integrate zero s = s
  integrate (suc n) s = commit fl (w n) (integrate n s)

  before-ltb :
      (n : ℕ) → InTimeOrder n → (i j : ℕ) → i < n → j < n → i ≢ j → before fl (w i) (w j) ≡ ltb i j
  before-ltb n ordered i j hi hj ne = elim (Bool-cases (ltb i j)) [
    | inl less ↦ let (e, e', l, l') = ordered i j (ltb→lt i j less) hj in rw (less, e) l
    | inr more ↦
        let (e, e', l, l') = ordered j i (omega (arith, ltb_false→le i j more, ne)) hi in
        rw (more, e') l'
  ]

  pub heappush-insert :
      (n : ℕ)
      → InTimeOrder n
      → (i : ℕ) (js : List ℕ) → i < n
      → ((j : ℕ) → Among j js → j < n)
      → (Among i js → ⊥)
      → heappush fl (w i) (map w js) ≡ map w (insert i js)
  unfolding heappush insert
  heappush-insert n ordered i [] h inside new = refl
  heappush-insert n ordered i (j ∷ js) h inside new =
      let e = before-ltb n ordered i j h (inside j (inl refl)) (λ e. new (inl e)) in
      let rest = heappush-insert n ordered i js h (λ k m. inside k (inr m)) (λ m. new (inr m)) in
      elim (Bool-cases (ltb i j)) [
        | inl first ↦ rw (e, first) refl
        | inr later ↦ rw (e, later, rest) refl
      ]
