-- ===== src/Meter/Delivered.antt =====
-- The samples that `ThroughputMeter` of src/sceptre_pipeline/metrics.py counts as delivered, stream
-- by stream: those of the windows with a rate and a timestamp.
use sceptre_pipeline.Prelude.{
  ℕ, ◌+◌, ◌<◌, ◌≡◌, refl, ap, Bool-cases, Option-cases, Option, none, some, List, [], ◌∷◌, arith,
  length, ltb, ltb_false→le, inl, inr, if◌then◌else◌,
}
use sceptre_pipeline.Floats.{Floats}
use sceptre_pipeline.Dict.{StreamId, same_id, Dict, get, put}
use sceptre_pipeline.Dict.Laws.{same_id_iff, get-put}
use sceptre_pipeline.Buffer.{Window}
use sceptre_pipeline.StreamStat.{
  Timed, StreamStat, reorder_window, heappush, commit, commit_least, add, finalize,
}
use sceptre_pipeline.StreamStat
use sceptre_pipeline.StreamStat.Accounting.{
  samples_of, samples_of-heappush, length-heappush, drain-delivered,
}
use sceptre_pipeline.Meter.{
  ThroughputMeter, rate_of, add_window, note, stat_for, call, call_all, finalize_all,
}
use sceptre_pipeline.Meter.Totals.{stat_for_new, stat_for_old}

module _ {F : Type 0} where
  -- committed, or in the jitter buffer
  abbrev pub held : StreamStat F → ℕ
  held s = s.delivered + samples_of s.pending

  abbrev pub held_of : Option (StreamStat F) → ℕ
  held_of none = 0
  held_of (some s) = held s

  abbrev pub delivered_of : Option (StreamStat F) → ℕ
  delivered_of none = 0
  delivered_of (some s) = s.delivered

module _ {F : Type 0} (fl : Floats F) where
  -- a window's samples, if it has a positive rate and a timestamp
  abbrev pub assessed : Option F → Option F → ℕ → ℕ
  assessed none ts n = 0
  assessed (some rate) none n = 0
  assessed (some rate) (some ts) n = if fl.lt (fl.of_nat 0) rate then n else 0

  -- the assessed samples of the stream
  abbrev pub assessed_in : StreamId → List (Window F) → ℕ
  assessed_in k [] = 0
  assessed_in k (w ∷ ws) =
      (if same_id w.stream_id k
        then assessed (rate_of w.context) w.start_timestamp w.num_samples
        else 0)
      + assessed_in k ws

  commit_least-held :
      (ws : List (Timed F)) (s : StreamStat F)
      → 0 < length ws
      → held (commit_least fl ws s) ≡ s.delivered + samples_of ws
  unfolding commit_least commit
  commit_least-held [] s h = absurd (omega arith)
  commit_least-held (w ∷ ws) s h = omega arith

  add-held : (w : Timed F) (s : StreamStat F) → held (add fl w s) ≡ held s + w.n
  unfolding add
  add-held w s =
      let sum = samples_of-heappush fl w s.pending in
      elim (Bool-cases (ltb reorder_window (length (heappush fl w s.pending)))) [
        | inl full ↦ rw full (
            omega (
              arith,
              sum,
              commit_least-held (heappush fl w s.pending) s
                  (omega (arith, length-heappush fl w s.pending)),
            ))
        | inr room ↦ rw room (omega (arith, sum))
      ]

  add_window-held :
      (ts : Option F) (rate : F) (n : ℕ) (s : StreamStat F)
      → held (add_window fl ts rate n s) ≡ held s + assessed (some rate) ts n
  unfolding add_window
  add_window-held none rate n s = omega arith
  add_window-held (some ts) rate n s = elim (Bool-cases (fl.lt (fl.of_nat 0) rate)) [
    | inl rated ↦ elim (Bool-cases (ltb 0 n)) [
      | inl some_samples ↦ rw (rated, some_samples) (add-held _ s)
      | inr no_samples ↦ rw (rated, no_samples) (omega (arith, ltb_false→le 0 n no_samples))
    ]
    | inr unrated ↦ rw unrated (omega arith)
  ]

  note-held :
      (w : Window F) (s : StreamStat F)
      → held (note fl w s) ≡ held s + assessed (rate_of w.context) w.start_timestamp w.num_samples
  unfolding note
  note-held w s = elim (Option-cases (rate_of w.context)) [
    | inl undeclared ↦ rw (undeclared, note) (omega arith)
    | inr (rate, declared) ↦
        rw (declared, note) (add_window-held w.start_timestamp rate w.num_samples _)
  ]

  stat_for-held :
      (d : Dict (StreamStat F)) (k : StreamId) → held (stat_for fl d k) ≡ held_of (get d k)
  unfolding StreamStat.init
  stat_for-held d k = elim (Option-cases (get d k)) [
    | inl new ↦ rw (stat_for_new fl d k new, new) refl
    | inr (s, old) ↦ rw (stat_for_old fl d k s old, old) refl
  ]

  call-held :
      (d : Dict (StreamStat F)) (w : Window F) (k : StreamId)
      → held_of (get (put d w.stream_id (note fl w (stat_for fl d w.stream_id))) k)
        ≡ held_of (get d k)
          + (if same_id w.stream_id k
              then assessed (rate_of w.context) w.start_timestamp w.num_samples
              else 0)
  call-held d w k =
      let stat = stat_for fl d w.stream_id in
      let read = get-put d w.stream_id k (note fl w stat) in
      elim (Bool-cases (same_id w.stream_id k)) [
        | inl same ↦
            let e : w.stream_id ≡ k = (same_id_iff w.stream_id k).0 same in
            rw (read, same)
              (omega (
                arith,
                note-held w stat,
                stat_for-held d w.stream_id,
                ap (λ j. held_of (get d j)) e,
              ))
        | inr other ↦ rw (read, other) (omega arith)
      ]

  call_all-held :
      (ws : List (Window F)) (m : ThroughputMeter F) (k : StreamId)
      → held_of (get (call_all fl ws m).0.streams k) ≡ held_of (get m.streams k) + assessed_in k ws
  unfolding call_all call
  call_all-held [] m k = omega arith
  call_all-held (w ∷ ws) m k =
      omega (arith, call_all-held ws (call fl w m).0 k, call-held m.streams w k)

  finalize_all-delivered :
      (d : Dict (StreamStat F)) (k : StreamId)
      → delivered_of (get (finalize_all fl d) k) ≡ held_of (get d k)
  unfolding finalize_all get finalize
  finalize_all-delivered [] k = refl
  finalize_all-delivered ((j, s) ∷ d) k = elim (Bool-cases (same_id j k)) [
    | inl same ↦ rw same (drain-delivered fl s.pending s).0
    | inr other ↦ rw other (finalize_all-delivered d k)
  ]

  pub finalize_all-assessed :
      (ws : List (Window F)) (m : ThroughputMeter F) (k : StreamId)
      → m.streams ≡ []
      → delivered_of (get (finalize_all fl (call_all fl ws m).0.streams) k) ≡ assessed_in k ws
  unfolding get
  finalize_all-assessed ws m k e = omega (
    arith,
    finalize_all-delivered (call_all fl ws m).0.streams k,
    call_all-held ws m k,
    ap (λ d. held_of (get d k)) e,
  )
