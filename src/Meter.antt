-- ===== src/Meter.antt =====
-- `ThroughputMeter` of src/sceptre_pipeline/metrics.py. The two reports are the values that the
-- source formats into a line.
pub mod Totals
pub mod Delivered
pub mod Efficiency
pub mod Session
pub mod Worst
use sceptre_pipeline.Prelude.{
  ℕ, ◌+◌, ◌-◌, ◌*◌, Bool, true, false, not, ◌&&◌, ◌||◌, Option, none, some, List, [], ◌∷◌, length,
  ltb, ◌==◌, if◌then◌else◌,
}
use sceptre_pipeline.Floats.{Floats}
use sceptre_pipeline.Dict.{StreamId, Dict, get, put}
use sceptre_pipeline.Context.{Context}
use sceptre_pipeline.Buffer.{Window}
use sceptre_pipeline.StreamStat.{StreamStat, add, finalize}
use sceptre_pipeline.StreamStat

pub record ThroughputMeter (F : Type 0) : Type 0 where
  pub total_samples : ℕ
  pub total_bytes : ℕ
  pub unit_count : ℕ
  pub start_time : Option F
  pub streams : Dict (StreamStat F)

-- The line of `summary`.
pub data Summary (F : Type 0) : Type 0 where
  no_samples : Summary F
  too_short : ℕ → Summary F
  rates : (samples : ℕ) (elapsed ms_per_s mb_per_s : F) → Summary F

-- `_verdict`
pub data Verdict : Type 0 where
  fine partial_loss severe_loss : Verdict

-- The line of `capture_summary`. A flagged one has the number of declared streams if several are
-- measurable, whether a rate changed, how many declared streams are not assessable, and the number
-- and the samples of the undeclared ones.
pub data Report (F : Type 0) : Type 0 where
  rate_unknown : Report F
  window_too_short : Report F
  steady : (delivered_rate rate pct : F) (bandwidth : Option F) → Verdict → Report F
  flagged :
      (pct : F) (declared : Option ℕ) (retuned : Bool) (unassessable undeclared excluded : ℕ)
      → Verdict
      → Report F

-- `unit.get("bytes_per_sample") or 0`
abbrev pub or_zero : Option ℕ → ℕ
or_zero none = 0
or_zero (some n) = n

module _ {F : Type 0} where
  unfoldable pub init : ThroughputMeter F
  init = record {
    total_samples = 0;
    total_bytes = 0;
    unit_count = 0;
    start_time = none;
    streams = [];
  }

  -- `start`, with the clock's reading
  unfoldable pub start : F → ThroughputMeter F → ThroughputMeter F
  start now m = record m { start_time = some now }

  abbrev pub rate_of : Option (Context F) → Option F
  rate_of none = none
  rate_of (some ctx) = ctx.sample_rate_hz

  abbrev pub bandwidth_of : Option (Context F) → Option F
  bandwidth_of none = none
  bandwidth_of (some ctx) = ctx.bandwidth_hz

  -- a later `None` keeps the value
  abbrev pub sticky : Option F → Option F → Option F
  sticky none old = old
  sticky (some b) old = some b

  -- the streams with a declared rate, and that rate
  unfoldable pub declared_of : Dict (StreamStat F) → List (StreamStat F × F)
  declared_of [] = []
  declared_of ((k, s) ∷ d) = elim s.rate [ none ↦ declared_of d | some r ↦ (s, r) ∷ declared_of d ]

  unfoldable pub undeclared_of : Dict (StreamStat F) → List (StreamStat F)
  undeclared_of [] = []
  undeclared_of ((k, s) ∷ d) = elim s.rate [ none ↦ s ∷ undeclared_of d | some r ↦ undeclared_of d ]

  -- `sum(s.total_samples for s in ...)`
  unfoldable pub sum_samples : List (StreamStat F) → ℕ
  sum_samples [] = 0
  sum_samples (s ∷ ss) = s.total_samples + sum_samples ss

  -- `any(s.rate_changed for s in ...)`
  unfoldable pub any_changed : List (StreamStat F × F) → Bool
  any_changed [] = false
  any_changed ((s, r) ∷ ss) = s.rate_changed || any_changed ss

module _ {F : Type 0} (fl : Floats F) where
  -- `rate != stat.rate`, where the stat has one
  abbrev pub retunes : F → Option F → Bool
  retunes rate none = false
  retunes rate (some old) = not (fl.eq rate old)

  -- `stat.add(...)` under its guard
  unfoldable pub add_window : Option F → F → ℕ → StreamStat F → StreamStat F
  add_window none rate n s = s
  add_window (some ts) rate n s =
      if fl.lt (fl.of_nat 0) rate && ltb 0 n
      then add fl (record { ts = ts; rate = rate; n = n }) s
      else s

  -- the bookkeeping of one window in its stream's stat
  unfoldable pub note : Window F → StreamStat F → StreamStat F
  note w s = elim (rate_of w.context) [
    | none ↦ record s { total_samples = s.total_samples + w.num_samples }
    | some rate ↦ add_window w.start_timestamp rate w.num_samples (record s {
      total_samples = s.total_samples + w.num_samples;
      rate_changed = retunes rate s.rate || s.rate_changed;
      rate = some rate;
      bandwidth = sticky (bandwidth_of w.context) s.bandwidth;
    })
  ]

  -- The stream's stat, made on its first window.
  unfoldable pub stat_for : Dict (StreamStat F) → StreamId → StreamStat F
  stat_for d k = elim (get d k) [ none ↦ StreamStat.init fl | some s ↦ s ]

  -- `__call__`, with the unit that it hands to the wrapped consumer
  unfoldable pub call : Window F → ThroughputMeter F → ThroughputMeter F × Window F
  call w m = (
    record m {
      total_samples = m.total_samples + w.num_samples;
      total_bytes = m.total_bytes + w.num_samples * or_zero w.bytes_per_sample;
      unit_count = m.unit_count + 1;
      streams = put m.streams w.stream_id (note w (stat_for m.streams w.stream_id));
    },
    w,
  )

  -- the emit callback on what a run emits, in order
  unfoldable pub call_all :
      List (Window F) → ThroughputMeter F → ThroughputMeter F × List (Window F)
  call_all [] m = (m, [])
  call_all (w ∷ ws) m = let (m', u) = call w m in let (m'', us) = call_all ws m' in (m'', u ∷ us)

  abbrev pub million : F
  million = fl.of_nat 1000000

  -- `self._clock() - self._start`, or 0.0
  abbrev pub elapsed_of : Option F → F → F
  elapsed_of none now = fl.of_nat 0
  elapsed_of (some begun) now = fl.sub now begun

  unfoldable pub summary : F → ThroughputMeter F → Summary F
  summary now m =
      let elapsed = elapsed_of m.start_time now in
      if m.total_samples == 0
      then no_samples
      else if fl.le elapsed (fl.of_nat 0)
      then too_short m.total_samples
      else rates m.total_samples elapsed
          (fl.div (fl.div (fl.of_nat m.total_samples) elapsed) million)
          (fl.div (fl.div (fl.of_nat m.total_bytes) elapsed) million)

  unfoldable pub verdict : F → Verdict
  verdict pct =
      if fl.le (fl.of_nat 90) pct
      then fine
      else if fl.le (fl.of_nat 50) pct
      then partial_loss
      else severe_loss

  -- `for stat in self._streams.values(): stat.finalize()`
  unfoldable pub finalize_all : Dict (StreamStat F) → Dict (StreamStat F)
  finalize_all [] = []
  finalize_all ((k, s) ∷ d) = (k, finalize fl s) ∷ finalize_all d

  -- those of the declared streams with `s.expected > 0`
  unfoldable pub measurable_of : List (StreamStat F × F) → List (StreamStat F × F)
  measurable_of [] = []
  measurable_of ((s, r) ∷ ss) =
      let rest = measurable_of ss in if fl.lt (fl.of_nat 0) s.expected then (s, r) ∷ rest else rest

  -- `100.0 * s.delivered / s.expected`
  abbrev pub efficiency : StreamStat F → F
  efficiency s = fl.div (fl.mul (fl.of_nat 100) (fl.of_nat s.delivered)) s.expected

  -- `min(per_stream, key=per_stream.get)`: the first of the least
  unfoldable pub worst_of : StreamStat F × F → List (StreamStat F × F) → StreamStat F × F
  worst_of (s, r) [] = (s, r)
  worst_of (s, r) ((s', r') ∷ ss) =
      let later = worst_of (s', r') ss in
      let kept = worst_of (s, r) ss in if fl.lt (efficiency s') (efficiency s) then later else kept

  -- the report, given what is declared, measurable and undeclared
  unfoldable pub report :
      List (StreamStat F × F) → List (StreamStat F × F) → List (StreamStat F) → Option (Report F)
  report [] measurable undeclared = some rate_unknown
  report (a ∷ rest) [] undeclared = some window_too_short
  report (a ∷ rest) (x ∷ xs) undeclared =
      let (s, rate) = worst_of x xs in
      let pct = fl.round1 (efficiency s) in
      let unassessable = length (a ∷ rest) - length (x ∷ xs) in
      let retuned = any_changed (a ∷ rest) in
      if length (a ∷ rest) == 1 && unassessable == 0 && length undeclared == 0 && not retuned
      then some
          (steady (fl.mul (fl.div pct (fl.of_nat 100)) rate) rate pct s.bandwidth (verdict pct))
      else some (
          flagged pct (if length (x ∷ xs) == 1 then none else some (length (a ∷ rest))) retuned
            unassessable (length undeclared) (sum_samples undeclared) (verdict pct))

  unfoldable pub capture_summary : ThroughputMeter F → ThroughputMeter F × Option (Report F)
  capture_summary m =
      let d = finalize_all m.streams in
      if m.total_samples == 0 then (m, none) else (
        record m { streams = d },
        report (declared_of d) (measurable_of (declared_of d)) (undeclared_of d),
      )
