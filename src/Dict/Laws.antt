-- ===== src/Dict/Laws.antt =====
-- What a read after a write returns, and how a dict grows.
use sceptre_pipeline.Prelude.{
  ◌+◌, ◌≡◌, ◌≢◌, refl, sym, Bool-cases, inl, inr, true, none, some, [], ◌∷◌, arith, if◌then◌else◌,
  ◌↔◌,
}
use sceptre_pipeline.Dict.{StreamId, same_id, Dict, get, put, size}

pub same_id_iff : (a b : StreamId) → (same_id a b ≡ true) ↔ (a ≡ b)
same_id_iff none none = ground arith
same_id_iff none (some b) = ground arith
same_id_iff (some a) none = ground arith
same_id_iff (some a) (some b) = ground arith

module _ {V : Type 0} where
  pub get-put :
      (d : Dict V) (k j : StreamId) (v : V)
      → get (put d k v) j ≡ (if same_id k j then some v else get d j)
  unfolding get put
  get-put [] k j v = refl
  get-put ((i, w) ∷ d) k j v = ground (arith, get-put d k j v)

  -- A write grows the dict by one entry if the key is new, and else not at all.
  pub size-put :
      (d : Dict V) (k : StreamId) (v : V)
      → size (put d k v) ≡ size d + (elim (get d k) [ none ↦ 1 | some w ↦ 0 ])
  unfolding get put
  size-put [] k v = refl
  size-put ((i, w) ∷ d) k v = ground (arith, size-put d k v)

  pub get-put_self : (d : Dict V) (k : StreamId) (v : V) → get (put d k v) k ≡ some v
  get-put_self d k v = rw (get-put d k k v, (same_id_iff k k).1 refl)

  pub get-put_ne : (d : Dict V) (k j : StreamId) (v : V) → j ≢ k → get (put d k v) j ≡ get d j
  get-put_ne d k j v ne = elim (Bool-cases (same_id k j)) [
    | inl same ↦ absurd (ne (sym ((same_id_iff k j).0 same)))
    | inr other ↦ rw (get-put d k j v, other)
  ]
