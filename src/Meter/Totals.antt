-- ===== src/Meter/Totals.antt =====
-- The totals of `ThroughputMeter` of src/sceptre_pipeline/metrics.py over a session.
use sceptre_pipeline.Prelude.{
  ℕ, ◌+◌, ◌*◌, ◌≡◌, refl, ap, ◌∙◌, Bool-cases, Option-cases, Option, none, some, List, [], ◌∷◌,
  ◌&&◌, arith, length, ltb, inl, inr,
}
use sceptre_pipeline.Floats.{Floats}
use sceptre_pipeline.Numpy.{Numpy}
use sceptre_pipeline.Dict.{StreamId, Dict, get, put}
use sceptre_pipeline.Dict.Unique.{sum, sum-put}
use sceptre_pipeline.Buffer.{Window}
use sceptre_pipeline.Buffer.Windows.{All, IsWindow}
use sceptre_pipeline.StreamStat.{
  Timed, StreamStat, reorder_window, heappush, commit, commit_least, add,
}
use sceptre_pipeline.StreamStat
use sceptre_pipeline.Meter.{
  ThroughputMeter, or_zero, rate_of, add_window, note, stat_for, call, call_all,
}

module _ {F : Type 0} where
  abbrev pub samples_in : List (Window F) → ℕ
  samples_in [] = 0
  samples_in (w ∷ ws) = w.num_samples + samples_in ws

  abbrev pub bytes_in : List (Window F) → ℕ
  bytes_in [] = 0
  bytes_in (w ∷ ws) = w.num_samples * or_zero w.bytes_per_sample + bytes_in ws

  -- the lengths of what the windows hold
  abbrev pub raw_bytes_in : List (Window F) → ℕ
  raw_bytes_in [] = 0
  raw_bytes_in (w ∷ ws) = length w.raw + raw_bytes_in ws

  abbrev pub samples_of_stat : StreamStat F → ℕ
  samples_of_stat s = s.total_samples

  -- A meter that has counted some more windows, and the samples of every stream.
  pub record Tallied (ws : List (Window F)) (m m' : ThroughputMeter F) : Type 0 where
    pub samples : m'.total_samples ≡ m.total_samples + samples_in ws
    pub bytes : m'.total_bytes ≡ m.total_bytes + bytes_in ws
    pub units : m'.unit_count ≡ m.unit_count + length ws
    pub streams : sum samples_of_stat m'.streams ≡ sum samples_of_stat m.streams + samples_in ws

module _ {F : Type 0} (fl : Floats F) where
  commit_least-total :
      (ws : List (Timed F)) (s : StreamStat F)
      → (commit_least fl ws s).total_samples ≡ s.total_samples
  unfolding commit_least commit
  commit_least-total [] s = refl
  commit_least-total (w ∷ ws) s = refl

  pub add-total : (w : Timed F) (s : StreamStat F) → (add fl w s).total_samples ≡ s.total_samples
  unfolding add
  add-total w s = elim (Bool-cases (ltb reorder_window (length (heappush fl w s.pending)))) [
    | inl full ↦ rw full (commit_least-total _ s)
    | inr room ↦ rw room refl
  ]

  add_window-total :
      (ts : Option F) (rate : F) (n : ℕ) (s : StreamStat F)
      → (add_window fl ts rate n s).total_samples ≡ s.total_samples
  unfolding add_window
  add_window-total none rate n s = refl
  add_window-total (some ts) rate n s = elim (Bool-cases (fl.lt (fl.of_nat 0) rate && ltb 0 n)) [
    | inl timed ↦ rw timed (add-total _ s)
    | inr other ↦ rw other refl
  ]

  pub note-total :
      (w : Window F) (s : StreamStat F)
      → (note fl w s).total_samples ≡ s.total_samples + w.num_samples
  unfolding note
  note-total w s = elim (Option-cases (rate_of w.context)) [
    | inl undeclared ↦ rw (undeclared, note) refl
    | inr (rate, declared) ↦
        rw (declared, note) (add_window-total w.start_timestamp rate w.num_samples _)
  ]

  pub stat_for_new :
      (d : Dict (StreamStat F)) (k : StreamId)
      → get d k ≡ none
      → stat_for fl d k ≡ StreamStat.init fl
  unfolding stat_for
  stat_for_new d k e = rw (e, stat_for) refl

  pub stat_for_old :
      (d : Dict (StreamStat F)) (k : StreamId) (s : StreamStat F)
      → get d k ≡ some s
      → stat_for fl d k ≡ s
  unfolding stat_for
  stat_for_old d k s e = rw (e, stat_for) refl

  pub call-streams :
      (d : Dict (StreamStat F)) (k : StreamId) (w : Window F)
      → sum samples_of_stat (put d k (note fl w (stat_for fl d k)))
        ≡ sum samples_of_stat d + w.num_samples
  unfolding StreamStat.init
  call-streams d k w =
      let stat = stat_for fl d k in
      let written = sum-put samples_of_stat d k (note fl w stat) in
      elim (Option-cases (get d k)) [
        | inl new ↦
            omega (
              arith,
              rw new at written,
              note-total w stat,
              ap samples_of_stat (stat_for_new d k new),
            )
        | inr (s, old) ↦ omega (
          arith,
          rw old at written,
          note-total w stat,
          ap samples_of_stat (stat_for_old d k s old),
        )
      ]

  pub call_all-Tallied :
      (ws : List (Window F)) (m : ThroughputMeter F)
      → Tallied ws m (call_all fl ws m).0 × ((call_all fl ws m).1 ≡ ws)
  unfolding call_all call
  call_all-Tallied [] m = (
    record {
      samples = omega arith;
      bytes = omega arith;
      units = omega arith;
      streams = omega arith;
    },
    refl,
  )
  call_all-Tallied (w ∷ ws) m =
      let (t, e) = call_all-Tallied ws (call fl w m).0 in
      (
        record {
          samples = omega (arith, t.samples);
          bytes = omega (arith, t.bytes);
          units = omega (arith, t.units);
          streams = omega (arith, t.streams, call-streams m.streams w.stream_id w);
        },
        ap (w ∷◌) e,
      )

  -- What a convertible window counts is what it holds.
  pub bytes_in-raw :
      {Arr : Type 0} (np : Numpy Arr) (ws : List (Window F))
      → All (IsWindow np) ws
      → bytes_in ws ≡ raw_bytes_in ws
  bytes_in-raw np [] v = refl
  bytes_in-raw np (w ∷ ws) (v, vs) =
      omega
        (arith, bytes_in-raw np ws vs, ap (λ o. w.num_samples * or_zero o) v.has_bps ∙ v.counted)
