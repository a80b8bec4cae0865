-- ===== src/Queue.antt =====
-- `BoundedRawQueue` of src/sceptre_pipeline/queues.py. Each method holds the lock throughout, so an
-- execution of the two threads is a sequence of calls. `get` returns `none` where its wait times out
-- on an empty queue.
pub mod Lossy
use sceptre_pipeline.Prelude.{
  ℕ, ◌+◌, Bool, Option, none, some, List, [], ◌∷◌, ◌++◌, length, leb, ltb, if◌then◌else◌,
}
use sceptre_pipeline.Result.{Result, ok, err, value_error}

pub record BoundedRawQueue (A : Type 0) : Type 0 where
  pub maxsize : ℕ
  pub items : List A
  pub dropped : ℕ

module _ {A : Type 0} where
  unfoldable pub init : ℕ → Result (BoundedRawQueue A)
  init maxsize =
      if ltb maxsize 1
      then err value_error
      else ok (record { maxsize = maxsize; items = []; dropped = 0 })

  -- `deque.popleft()`, for its effect
  abbrev pub pop_left : List A → List A
  pop_left [] = []
  pop_left (x ∷ xs) = xs

  unfoldable pub put : A → BoundedRawQueue A → BoundedRawQueue A
  put item q =
      if leb q.maxsize (length q.items)
      then record q { items = pop_left q.items ++ item ∷ []; dropped = q.dropped + 1 }
      else record q { items = q.items ++ item ∷ [] }

  abbrev pub take_front : BoundedRawQueue A → List A → BoundedRawQueue A × Option A
  take_front q [] = (q, none)
  take_front q (x ∷ xs) = (record q { items = xs }, some x)

  unfoldable pub get : BoundedRawQueue A → BoundedRawQueue A × Option A
  get q = take_front q q.items
