-- ===== src/Dict/Unique.antt =====
-- Dicts without a repeated key, which is what writes to an empty dict make, and sums over a dict.
use sceptre_pipeline.Prelude.{
  ℕ, ◌+◌, ◌≤◌, ◌≡◌, refl, ◌∙◌, none, some, [], ◌∷◌, Bool-cases, inl, inr, arith,
}
use mathlib.Core.Path.{subst}
use mathlib.Core.Option.{some-injective}
use sceptre_pipeline.Dict.{StreamId, same_id, Dict, get, put}
use sceptre_pipeline.Dict.Laws.{get-put}

pub same_id_comm : (a b : StreamId) → same_id a b ≡ same_id b a
same_id_comm none none = refl
same_id_comm none (some b) = refl
same_id_comm (some a) none = refl
same_id_comm (some a) (some b) = ground arith

module _ {V : Type 0} where
  abbrev pub IsUnique : Dict V → Type 0
  IsUnique [] = Unit
  IsUnique ((k, v) ∷ d) = (get d k ≡ none) × IsUnique d

  pub put-IsUnique : (d : Dict V) (k : StreamId) (v : V) → IsUnique d → IsUnique (put d k v)
  unfolding get put
  put-IsUnique [] k v u = (refl, tt)
  put-IsUnique ((i, w) ∷ d) k v (new, u) = elim (Bool-cases (same_id i k)) [
    | inl same ↦ rw same (new, u)
    | inr other ↦
        rw other (get-put d k i v ∙ rw (same_id_comm k i, other) new, put-IsUnique d k v u)
  ]

  abbrev pub sum : (V → ℕ) → Dict V → ℕ
  sum f [] = 0
  sum f ((k, v) ∷ d) = f v + sum f d

  -- What a write changes in a sum.
  pub sum-put :
      (f : V → ℕ) (d : Dict V) (k : StreamId) (v : V)
      → sum f (put d k v) + (elim (get d k) [ none ↦ 0 | some w ↦ f w ]) ≡ sum f d + f v
  unfolding get put
  sum-put f [] k v = omega arith
  sum-put f ((i, w) ∷ d) k v = elim (Bool-cases (same_id i k)) [
    | inl same ↦ rw same (omega arith)
    | inr other ↦ rw other (omega (arith, sum-put f d k v))
  ]

  -- An entry is within the sum.
  pub get-sum : (f : V → ℕ) (d : Dict V) (k : StreamId) (v : V) → get d k ≡ some v → f v ≤ sum f d
  unfolding get
  get-sum f [] k v e = absurd (cc e)
  get-sum f ((i, w) ∷ d) k v e = elim (Bool-cases (same_id i k)) [
    | inl same ↦ subst (λ u. f u ≤ f w + sum f d) (some-injective w v (rw same at e)) (omega arith)
    | inr other ↦ omega (arith, get-sum f d k v (rw other at e))
  ]
