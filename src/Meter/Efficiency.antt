-- ===== src/Meter/Efficiency.antt =====
-- The efficiencies that `capture_summary` of src/sceptre_pipeline/metrics.py reports.
use sceptre_pipeline.Prelude.{
  ℕ, ◌+◌, ◌^◌, ◌≤◌, ◌<◌, ◌≡◌, refl, Bool-cases, Option-cases, Option, none, some, List, [], ◌∷◌,
  ◌==◌, arith, length, ltb, inl, inr, true, false,
}
use sceptre_pipeline.Floats.{Floats}
use sceptre_pipeline.Dict.{StreamId, Dict, get}
use sceptre_pipeline.Dict.Each.{Each, Each-get, Each-put}
use sceptre_pipeline.Dict.Unique.{sum, get-sum}
use sceptre_pipeline.Buffer.{Window}
use sceptre_pipeline.StreamStat.{
  Timed, StreamStat, reorder_window, heappush, commit, drain, add, add_all, finalize,
}
use sceptre_pipeline.StreamStat
use sceptre_pipeline.StreamStat.Accounting.{
  samples_of, Counted, samples_of-heappush, add-Counted, finalize-counts,
}
use sceptre_pipeline.StreamStat.Efficiency.{
  SumLaws, IsRated, IsCovered, init-IsCovered, add-IsCovered, delivered-expected,
}
use sceptre_pipeline.Meter.{
  ThroughputMeter, init, add_window, note, stat_for, rate_of, call, call_all, finalize_all,
  capture_summary,
}
use sceptre_pipeline.Meter.Delivered.{delivered_of, assessed_in, finalize_all-assessed}
use sceptre_pipeline.Meter.Totals.{
  samples_in, samples_of_stat, add-total, stat_for_new, stat_for_old, call-streams,
  call_all-Tallied,
}

pub not_zero : (n : ℕ) → 0 < n → (n == 0) ≡ false
not_zero n h = ground arith

module _ {F : Type 0} (fl : Floats F) where
  -- What the stream has committed or holds is no more than what it emitted.
  pub record IsMeasured (s : StreamStat F) : Type 0 where
    pub held : s.delivered + samples_of s.pending ≤ s.total_samples
    pub bounded : length s.pending ≤ reorder_window
    pub covered : IsCovered fl s

  init-IsMeasured : SumLaws fl → IsMeasured (StreamStat.init fl)
  unfolding StreamStat.init
  init-IsMeasured laws = record {
    held = omega arith;
    bounded = omega arith;
    covered = init-IsCovered fl laws;
  }

  added-IsMeasured :
      (w : Timed F) (s : StreamStat F)
      → SumLaws fl
      → s.total_samples ≤ 2 ^ 53
      → s.delivered + samples_of s.pending + w.n ≤ s.total_samples
      → length s.pending ≤ reorder_window
      → IsRated fl w.rate
      → IsCovered fl s
      → IsMeasured (add fl w s)
  added-IsMeasured w s laws h fits b rated c =
      let n =
        add-Counted fl (s.delivered + samples_of s.pending) w s
          (record { counted = refl; bounded = b }) in
      record {
        held = omega (arith, n.counted, add-total fl w s);
        bounded = n.bounded;
        covered =
            add-IsCovered fl w s laws (omega (arith, samples_of-heappush fl w s.pending)) rated c;
      }

  -- with the window's samples among those emitted
  add_window-IsMeasured :
      (ts : Option F) (rate : F) (n : ℕ) (s : StreamStat F)
      → SumLaws fl
      → s.total_samples ≤ 2 ^ 53
      → s.delivered + samples_of s.pending + n ≤ s.total_samples
      → length s.pending ≤ reorder_window
      → IsCovered fl s
      → IsMeasured (add_window fl ts rate n s)
  unfolding add_window
  add_window-IsMeasured none rate n s laws h fits b c = record {
    held = omega arith;
    bounded = b;
    covered = c;
  }
  add_window-IsMeasured (some ts) rate n s laws h fits b c =
      let same : IsMeasured s = record { held = omega arith; bounded = b; covered = c } in
      elim (Bool-cases (fl.lt (fl.of_nat 0) rate)) [
        | inl rated ↦ elim (Bool-cases (ltb 0 n)) [
          | inl some_samples ↦
              rw (rated, some_samples)
                (added-IsMeasured (record { ts = ts; rate = rate; n = n }) s laws h fits b rated c)
          | inr no_samples ↦ rw (rated, no_samples) same
        ]
        | inr unrated ↦ rw unrated same
      ]

  note-IsMeasured :
      (w : Window F) (s : StreamStat F)
      → SumLaws fl
      → s.total_samples + w.num_samples ≤ 2 ^ 53
      → IsMeasured s
      → IsMeasured (note fl w s)
  unfolding note
  note-IsMeasured w s laws h v = elim (Option-cases (rate_of w.context)) [
    | inl undeclared ↦
        rw (undeclared, note)
          (record {
            held = omega (arith, v.held);
            bounded = v.bounded;
            covered = record {
              covered = v.covered.covered;
              frontier_rated = v.covered.frontier_rated;
              pending_rated = v.covered.pending_rated;
            };
          })
    | inr (rate, declared) ↦
        rw (declared, note)
          (add_window-IsMeasured w.start_timestamp rate w.num_samples _ laws h
            (omega (arith, v.held)) v.bounded
            (record {
              covered = v.covered.covered;
              frontier_rated = v.covered.frontier_rated;
              pending_rated = v.covered.pending_rated;
            }))
  ]

  stat_for-IsMeasured :
      (d : Dict (StreamStat F)) (k : StreamId)
      → SumLaws fl
      → Each (λ j s. IsMeasured s) d
      → IsMeasured (stat_for fl d k) × ((stat_for fl d k).total_samples ≤ sum samples_of_stat d)
  unfolding StreamStat.init
  stat_for-IsMeasured d k laws h = elim (Option-cases (get d k)) [
    | inl new ↦ rw (stat_for_new fl d k new) (init-IsMeasured laws, omega arith)
    | inr (s, old) ↦
        rw (stat_for_old fl d k s old)
          (Each-get (λ j s. IsMeasured s) d k s h old, get-sum samples_of_stat d k s old)
  ]

  call_all-IsMeasured :
      (ws : List (Window F)) (m : ThroughputMeter F)
      → SumLaws fl
      → sum samples_of_stat m.streams + samples_in ws ≤ 2 ^ 53
      → Each (λ j s. IsMeasured s) m.streams
      → Each (λ j s. IsMeasured s) (call_all fl ws m).0.streams
  unfolding call_all call
  call_all-IsMeasured [] m laws h e = e
  call_all-IsMeasured (w ∷ ws) m laws h e =
      let (v, total) = stat_for-IsMeasured m.streams w.stream_id laws e in
      call_all-IsMeasured ws (call fl w m).0 laws
        (omega (arith, call-streams fl m.streams w.stream_id w))
        (Each-put (λ j s. IsMeasured s) m.streams w.stream_id _ e
          (note-IsMeasured w (stat_for fl m.streams w.stream_id) laws (omega (arith, total)) v))

  -- A stream that was drained, of at most so many samples in all.
  pub record IsEfficient (s : StreamStat F) : Type 0 where
    pub drained : s.pending ≡ []
    pub delivered : s.delivered ≤ s.total_samples
    pub covered : fl.le (fl.of_nat s.delivered) s.expected ≡ true

  drain-total :
      (ws : List (Timed F)) (s : StreamStat F) → (drain fl ws s).total_samples ≡ s.total_samples
  unfolding drain commit
  drain-total [] s = refl
  drain-total (w ∷ ws) s = drain-total ws (commit fl w (record s { pending = ws }))

  finalize-IsEfficient :
      (s : StreamStat F)
      → SumLaws fl
      → s.total_samples ≤ 2 ^ 53
      → IsMeasured s
      → IsEfficient (finalize fl s)
  unfolding finalize add_all
  finalize-IsEfficient s laws h v =
      let n = s.delivered + samples_of s.pending in
      let c : Counted (s.delivered + samples_of s.pending) s = record {
        counted = refl;
        bounded = v.bounded;
      } in
      let (b, d, e) = finalize-counts fl [] n s c in
      record {
        drained = e;
        delivered = omega (arith, d, v.held, drain-total s.pending s);
        covered = delivered-expected fl [] n s laws c v.covered (omega (arith, v.held)) tt;
      }

  finalize_all-IsEfficient :
      (d : Dict (StreamStat F))
      → SumLaws fl
      → sum samples_of_stat d ≤ 2 ^ 53
      → Each (λ j s. IsMeasured s) d
      → Each (λ j s. IsEfficient s) (finalize_all fl d)
  unfolding finalize_all
  finalize_all-IsEfficient [] laws h e = tt
  finalize_all-IsEfficient ((k, s) ∷ d) laws h (v, e) =
      (finalize-IsEfficient s laws (omega arith) v, finalize_all-IsEfficient d laws (omega arith) e)

  -- Let a new meter be called with windows of at least one and at most 2 ^ 53 samples in all. Given
  -- that a float sum that is at least an integer up to 2 ^ 53 stays so when the same integer is
  -- added to both, if their sum is within that bound, and when a product of positive floats is
  -- added to it, and that 0.0 <= 0.0, every stream's stat after `capture_summary` has an empty
  -- jitter buffer, has delivered no more than its samples, and its delivered count is at most its
  -- expected one; and for every stream id, the delivered count is the number of the samples of its
  -- windows that have a positive rate and a timestamp.
  pub capture_summary-IsEfficient :
      (ws : List (Window F))
      → SumLaws fl
      → 0 < samples_in ws
      → samples_in ws ≤ 2 ^ 53
      → let d = (capture_summary fl (call_all fl ws init).0).0.streams in
        Each (λ j s. IsEfficient s) d
        × ((k : StreamId) → delivered_of (get d k) ≡ assessed_in fl k ws)
  unfolding capture_summary init
  capture_summary-IsEfficient ws laws some_samples h =
      let m = (call_all fl ws init).0 in
      let t = (call_all-Tallied fl ws init).0 in
      let emitted : (m.total_samples == 0) ≡ false =
        not_zero m.total_samples (omega (arith, t.samples)) in
      rw emitted (
        finalize_all-IsEfficient m.streams laws (omega (arith, t.streams))
            (call_all-IsMeasured ws init laws (omega arith) tt),
        λ k. finalize_all-assessed fl ws init k refl,
      )
