-- ===== src/StreamStat.antt =====
-- `_StreamStat` of src/sceptre_pipeline/metrics.py: one stream's windows, held in a jitter buffer
-- and integrated over sample time.
pub mod Accounting
pub mod Efficiency
pub mod Arrivals
pub mod Committed
pub mod Jitter
pub mod Reordering
use sceptre_pipeline.Prelude.{
  ℕ, ◌+◌, Bool, true, false, Option, none, some, List, [], ◌∷◌, length, ltb, if◌then◌else◌,
}
use sceptre_pipeline.Floats.{Floats}

-- `(ts, rate, n)`
pub record Timed (F : Type 0) : Type 0 where
  pub ts : F
  pub rate : F
  pub n : ℕ

-- The field `frontier` is `_last_end` and `_cur_rate`, which are `None` until both are set.
pub record StreamStat (F : Type 0) : Type 0 where
  pub total_samples : ℕ
  pub delivered : ℕ
  pub expected : F
  pub frontier : Option (F × F)
  pub pending : List (Timed F)
  pub rate : Option F
  pub bandwidth : Option F
  pub rate_changed : Bool

abbrev pub reorder_window : ℕ
reorder_window = 64

module _ {F : Type 0} (fl : Floats F) where
  abbrev pub zero_f : F
  zero_f = fl.of_nat 0

  unfoldable pub init : StreamStat F
  init = record {
    total_samples = 0;
    delivered = 0;
    expected = zero_f;
    frontier = none;
    pending = [];
    rate = none;
    bandwidth = none;
    rate_changed = false;
  }

  -- `a < b` of two tuples: at the first place where they differ
  abbrev pub before : Timed F → Timed F → Bool
  before a b =
      if fl.eq a.ts b.ts
      then if fl.eq a.rate b.rate then ltb a.n b.n else fl.lt a.rate b.rate
      else fl.lt a.ts b.ts

  -- `heappush`. The heap is held as the list of what `heappop` returns, the least first.
  unfoldable pub heappush : Timed F → List (Timed F) → List (Timed F)
  heappush x [] = x ∷ []
  heappush x (y ∷ ys) = let rest = heappush x ys in if before x y then x ∷ y ∷ ys else y ∷ rest

  -- the charge for the gap behind the last window, at the rate then in force
  unfoldable pub charge : F → Option (F × F) → F → F
  charge ts none expected = expected
  charge ts (some (last_end, cur_rate)) expected =
      if fl.lt zero_f (fl.sub ts last_end)
      then fl.add expected (fl.mul cur_rate (fl.sub ts last_end))
      else expected

  -- the window's end and rate, if it extends the frontier
  unfoldable pub advance : F → F → Option (F × F) → Option (F × F)
  advance stop rate none = some (stop, rate)
  advance stop rate (some (last_end, cur_rate)) =
      if fl.lt last_end stop then some (stop, rate) else some (last_end, cur_rate)

  -- `_commit`
  unfoldable pub commit : Timed F → StreamStat F → StreamStat F
  commit w s = record s {
    expected = fl.add (charge w.ts s.frontier s.expected) (fl.of_nat w.n);
    delivered = s.delivered + w.n;
    frontier = advance (fl.add w.ts (fl.div (fl.of_nat w.n) w.rate)) w.rate s.frontier;
  }

  -- `self._commit(*heapq.heappop(self._pending))`
  unfoldable pub commit_least : List (Timed F) → StreamStat F → StreamStat F
  commit_least [] s = s
  commit_least (w ∷ ws) s = commit w (record s { pending = ws })

  unfoldable pub add : Timed F → StreamStat F → StreamStat F
  add w s =
      let ws = heappush w s.pending in
      if ltb reorder_window (length ws) then commit_least ws s else record s { pending = ws }

  -- the `while` loop of `finalize`, on what is pending
  unfoldable pub drain : List (Timed F) → StreamStat F → StreamStat F
  drain [] s = record s { pending = [] }
  drain (w ∷ ws) s = drain ws (commit w (record s { pending = ws }))

  unfoldable pub finalize : StreamStat F → StreamStat F
  finalize s = drain s.pending s

  -- A session: the windows as they arrive.
  unfoldable pub add_all : List (Timed F) → StreamStat F → StreamStat F
  add_all [] s = s
  add_all (w ∷ ws) s = add_all ws (add w s)
