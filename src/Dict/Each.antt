-- ===== src/Dict/Each.antt =====
-- A predicate on every entry of a dict.
use sceptre_pipeline.Prelude.{◌≡◌, some, [], ◌∷◌, Bool-cases, inl, inr}
use mathlib.Core.Option.{some-injective}
use sceptre_pipeline.Dict.{StreamId, same_id, Dict, get, put}
use sceptre_pipeline.Dict.Laws.{same_id_iff}

module _ {V : Type 0} (P : StreamId → V → Type 0) where
  abbrev pub Each : Dict V → Type 0
  Each [] = Unit
  Each ((k, v) ∷ d) = P k v × Each d

  moved : {j k : StreamId} {v w : V} → j ≡ k → w ≡ v → P j w → P k v
  moved h e p = rw (← h, ← e) p

  pub Each-get : (d : Dict V) (k : StreamId) (v : V) → Each d → get d k ≡ some v → P k v
  unfolding get
  Each-get [] k v h e = absurd (cc e)
  Each-get ((j, w) ∷ d) k v (p, h) e = elim (Bool-cases (same_id j k)) [
    | inl same ↦ moved ((same_id_iff j k).0 same) (some-injective w v (rw same at e)) p
    | inr other ↦ Each-get d k v h (rw other at e)
  ]

  pub Each-put : (d : Dict V) (k : StreamId) (v : V) → Each d → P k v → Each (put d k v)
  unfolding put
  Each-put [] k v h p = (p, tt)
  Each-put ((j, w) ∷ d) k v (q, h) p = elim (Bool-cases (same_id j k)) [
    | inl same ↦ rw (same, (same_id_iff j k).0 same) (p, h)
    | inr other ↦ rw other (q, Each-put d k v h p)
  ]
