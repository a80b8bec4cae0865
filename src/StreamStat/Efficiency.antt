-- ===== src/StreamStat/Efficiency.antt =====
-- Why the efficiency that src/sceptre_pipeline/metrics.py reports is at most 100%: what
-- `_StreamStat` expects covers what it delivers.
use sceptre_pipeline.Prelude.{
  ℕ, ◌+◌, ◌^◌, ◌≤◌, ◌≡◌, true, Bool-cases, Option, none, some, List, [], ◌∷◌, arith, length, ltb,
  inl, inr,
}
use sceptre_pipeline.Floats.{Floats}
use sceptre_pipeline.Buffer.Windows.{All}
use sceptre_pipeline.StreamStat.{
  Timed, StreamStat, reorder_window, zero_f, init, before, heappush, charge, advance, commit,
  commit_least, add, drain, finalize, add_all,
}
use sceptre_pipeline.StreamStat.Accounting.{
  samples_of, Counted, samples_of-heappush, add-Counted, add_all-Counted,
}

module _ {F : Type 0} (fl : Floats F) where
  abbrev pub IsRated : F → Type 0
  IsRated rate = fl.lt (zero_f fl) rate ≡ true

  abbrev pub RatedFrontier : Option (F × F) → Type 0
  RatedFrontier none = Unit
  RatedFrontier (some (last_end, cur_rate)) = IsRated cur_rate

  -- How a sum of floats that starts at 0.0 stays above an integer below 2 ** 53 that it overtakes:
  -- it does when the integer is added to both, and when a product of positive floats is added to it.
  pub record SumLaws : Type 0 where
    pub le_zero : fl.le (zero_f fl) (zero_f fl) ≡ true
    pub le_grow :
        (a n : ℕ) (x : F)
        → a + n ≤ 2 ^ 53
        → fl.le (fl.of_nat a) x ≡ true
        → fl.le (fl.of_nat (a + n)) (fl.add x (fl.of_nat n)) ≡ true
    pub le_gain :
        (a : ℕ) (x r g : F)
        → a ≤ 2 ^ 53
        → fl.le (fl.of_nat a) x ≡ true
        → IsRated r
        → fl.lt (zero_f fl) g ≡ true
        → fl.le (fl.of_nat a) (fl.add x (fl.mul r g)) ≡ true

  -- What was committed is within what was expected, and every rate that can charge a gap is
  -- positive.
  pub record IsCovered (s : StreamStat F) : Type 0 where
    pub covered : fl.le (fl.of_nat s.delivered) s.expected ≡ true
    pub frontier_rated : RatedFrontier s.frontier
    pub pending_rated : All (λ w. IsRated w.rate) s.pending

  pub init-IsCovered : SumLaws → IsCovered (init fl)
  unfolding init
  init-IsCovered laws = record { covered = laws.le_zero; frontier_rated = tt; pending_rated = tt }

  charge-covers :
      (a : ℕ) (ts : F) (frontier : Option (F × F)) (expected : F)
      → SumLaws
      → a ≤ 2 ^ 53
      → RatedFrontier frontier
      → fl.le (fl.of_nat a) expected ≡ true
      → fl.le (fl.of_nat a) (charge fl ts frontier expected) ≡ true
  unfolding charge
  charge-covers a ts none expected laws h rated c = c
  charge-covers a ts (some (last_end, cur_rate)) expected laws h rated c =
      elim (Bool-cases (fl.lt (zero_f fl) (fl.sub ts last_end))) [
        | inl gap ↦ rw gap (laws.le_gain a expected cur_rate _ h c rated gap)
        | inr none_lost ↦ rw none_lost c
      ]

  advance-rated :
      (stop rate : F) (frontier : Option (F × F))
      → IsRated rate
      → RatedFrontier frontier
      → RatedFrontier (advance fl stop rate frontier)
  unfolding advance
  advance-rated stop rate none r rated = r
  advance-rated stop rate (some (last_end, cur_rate)) r rated =
      elim (Bool-cases (fl.lt last_end stop)) [
        | inl further ↦ rw further r
        | inr within ↦ rw within rated
      ]

  commit_bound :
      (w : Timed F) (ws : List (Timed F)) (s : StreamStat F)
      → s.delivered + samples_of (w ∷ ws) ≤ 2 ^ 53
      → (commit fl w (record s { pending = ws })).delivered + samples_of ws ≤ 2 ^ 53
  unfolding commit
  commit_bound w ws s h = omega arith

  commit-IsCovered :
      (w : Timed F) (ws : List (Timed F)) (s : StreamStat F)
      → SumLaws
      → s.delivered + w.n ≤ 2 ^ 53
      → fl.le (fl.of_nat s.delivered) s.expected ≡ true
      → RatedFrontier s.frontier
      → All (λ v. IsRated v.rate) (w ∷ ws)
      → IsCovered (commit fl w (record s { pending = ws }))
  unfolding commit
  commit-IsCovered w ws s laws h c f (r, rs) = record {
    covered =
        laws.le_grow s.delivered w.n _ h
          (charge-covers s.delivered w.ts s.frontier s.expected laws (omega arith) f c);
    frontier_rated = advance-rated _ w.rate s.frontier r f;
    pending_rated = rs;
  }

  heappush-IsRated :
      (w : Timed F) (ws : List (Timed F))
      → IsRated w.rate
      → All (λ v. IsRated v.rate) ws
      → All (λ v. IsRated v.rate) (heappush fl w ws)
  unfolding heappush
  heappush-IsRated w [] r rs = (r, tt)
  heappush-IsRated w (x ∷ ws) r (rx, rs) = elim (Bool-cases (before fl w x)) [
    | inl first ↦ rw first (r, (rx, rs))
    | inr later ↦ rw later (rx, heappush-IsRated w ws r rs)
  ]

  commit_least-IsCovered :
      (ws : List (Timed F)) (s : StreamStat F)
      → SumLaws
      → s.delivered + samples_of ws ≤ 2 ^ 53
      → IsCovered s
      → All (λ v. IsRated v.rate) ws
      → IsCovered (commit_least fl ws s)
  unfolding commit_least
  commit_least-IsCovered [] s laws h c rs = c
  commit_least-IsCovered (w ∷ ws) s laws h c rs =
      commit-IsCovered w ws s laws (omega arith) c.covered c.frontier_rated rs

  pub add-IsCovered :
      (w : Timed F) (s : StreamStat F)
      → SumLaws
      → s.delivered + samples_of (heappush fl w s.pending) ≤ 2 ^ 53
      → IsRated w.rate
      → IsCovered s
      → IsCovered (add fl w s)
  unfolding add
  add-IsCovered w s laws h r c =
      let ws = heappush fl w s.pending in
      let rs = heappush-IsRated w s.pending r c.pending_rated in
      elim (Bool-cases (ltb reorder_window (length ws))) [
        | inl full ↦ rw full (commit_least-IsCovered ws s laws h c rs)
        | inr room ↦
            rw room (record {
              covered = c.covered;
              frontier_rated = c.frontier_rated;
              pending_rated = rs;
            })
      ]

  add_all-IsCovered :
      (ws : List (Timed F)) (total : ℕ) (s : StreamStat F)
      → SumLaws
      → Counted total s
      → total + samples_of ws ≤ 2 ^ 53
      → All (λ w. IsRated w.rate) ws
      → IsCovered s
      → IsCovered (add_all fl ws s)
  unfolding add_all
  add_all-IsCovered [] total s laws n h rs c = c
  add_all-IsCovered (w ∷ ws) total s laws n h (r, rs) c =
      add_all-IsCovered ws (total + w.n) (add fl w s) laws (add-Counted fl total w s n)
        (omega arith) rs
        (add-IsCovered w s laws (omega (arith, samples_of-heappush fl w s.pending, n.counted)) r c)

  drain-IsCovered :
      (ws : List (Timed F)) (s : StreamStat F)
      → SumLaws
      → s.delivered + samples_of ws ≤ 2 ^ 53
      → IsCovered s
      → All (λ w. IsRated w.rate) ws
      → IsCovered (drain fl ws s)
  unfolding drain
  drain-IsCovered [] s laws h c rs = record {
    covered = c.covered;
    frontier_rated = c.frontier_rated;
    pending_rated = tt;
  }
  drain-IsCovered (w ∷ ws) s laws h c (r, rs) =
      drain-IsCovered ws (commit fl w (record s { pending = ws })) laws (commit_bound w ws s h)
        (commit-IsCovered w ws s laws (omega arith) c.covered c.frontier_rated (r, rs)) rs

  pub delivered-expected :
      (ws : List (Timed F)) (total : ℕ) (s : StreamStat F)
      → SumLaws
      → Counted total s
      → IsCovered s
      → total + samples_of ws ≤ 2 ^ 53
      → All (λ w. IsRated w.rate) ws
      → fl.le
          (fl.of_nat (finalize fl (add_all fl ws s)).delivered)
          (finalize fl (add_all fl ws s)).expected
        ≡ true
  unfolding finalize
  delivered-expected ws total s laws n c h rs =
      let n' = add_all-Counted fl ws total s n in
      let t = add_all fl ws s in
      let c' = add_all-IsCovered ws total s laws n h rs c in
      (drain-IsCovered t.pending t laws (omega (arith, n'.counted)) c' c'.pending_rated).covered
