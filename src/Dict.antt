-- ===== src/Dict.antt =====
-- Python's dicts keyed by a stream id, in insertion order, and their laws. A key is `int | None`.
pub mod Laws
pub mod Each
pub mod Unique
use sceptre_pipeline.Prelude.{
  ℕ, Bool, true, false, Option, none, some, List, [], ◌∷◌, length, ◌==◌, if◌then◌else◌,
}

abbrev pub StreamId : Type 0
StreamId = Option ℕ

abbrev pub same_id : StreamId → StreamId → Bool
same_id none none = true
same_id none (some b) = false
same_id (some a) none = false
same_id (some a) (some b) = a == b

abbrev pub Dict : Type 0 → Type 0
Dict V = List (StreamId × V)

module _ {V : Type 0} where
  -- `d.get(k)`
  unfoldable pub get : Dict V → StreamId → Option V
  get [] k = none
  get ((j, v) ∷ d) k = if same_id j k then some v else get d k

  -- `d[k] = v`
  unfoldable pub put : Dict V → StreamId → V → Dict V
  put [] k v = (k, v) ∷ []
  put ((j, w) ∷ d) k v = let rest = put d k v in if same_id j k then (j, v) ∷ d else (j, w) ∷ rest

  -- `len(d)`
  abbrev pub size : Dict V → ℕ
  size d = length d
