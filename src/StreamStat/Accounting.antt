-- ===== src/StreamStat/Accounting.antt =====
-- What `_StreamStat` of src/sceptre_pipeline/metrics.py counts as delivered and as expected.
use sceptre_pipeline.Prelude.{
  ℕ, ◌+◌, ◌≤◌, ◌<◌, ◌≡◌, refl, ◌∙◌, Bool-cases, List, [], ◌∷◌, arith, length, ltb, ltb_false→le,
  inl, inr,
}
use sceptre_pipeline.Floats.{Floats}
use sceptre_pipeline.StreamStat.{
  Timed, StreamStat, reorder_window, heappush, commit, commit_least, add, drain, finalize, add_all,
}

module _ {F : Type 0} where
  -- the samples of some windows
  abbrev pub samples_of : List (Timed F) → ℕ
  samples_of [] = 0
  samples_of (w ∷ ws) = w.n + samples_of ws

  -- Of `total` samples, each was committed or is pending, and the jitter buffer is within its depth.
  pub record Counted (total : ℕ) (s : StreamStat F) : Type 0 where
    pub counted : s.delivered + samples_of s.pending ≡ total
    pub bounded : length s.pending ≤ reorder_window

module _ {F : Type 0} (fl : Floats F) where
  pub samples_of-heappush :
      (w : Timed F) (ws : List (Timed F)) → samples_of (heappush fl w ws) ≡ w.n + samples_of ws
  unfolding heappush
  samples_of-heappush w [] = refl
  samples_of-heappush w (x ∷ ws) = ground (arith, samples_of-heappush w ws)

  pub length-heappush :
      (w : Timed F) (ws : List (Timed F)) → length (heappush fl w ws) ≡ length ws + 1
  unfolding heappush
  length-heappush w [] = omega arith
  length-heappush w (x ∷ ws) = ground (arith, length-heappush w ws)

  commit_least-Counted :
      (total : ℕ) (ws : List (Timed F)) (s : StreamStat F)
      → s.delivered + samples_of ws ≡ total
      → 0 < length ws
      → length ws ≤ reorder_window + 1
      → Counted total (commit_least fl ws s)
  unfolding commit_least commit
  commit_least-Counted total [] s e some_window h = absurd (omega arith)
  commit_least-Counted total (w ∷ ws) s e some_window h = record {
    counted = omega arith;
    bounded = omega arith;
  }

  pub add-Counted :
      (total : ℕ) (w : Timed F) (s : StreamStat F)
      → Counted total s
      → Counted (total + w.n) (add fl w s)
  unfolding add
  add-Counted total w s c =
      let ws = heappush fl w s.pending in
      let sum = samples_of-heappush w s.pending in
      let len = length-heappush w s.pending in
      elim (Bool-cases (ltb reorder_window (length ws))) [
        | inl full ↦ rw full (
            commit_least-Counted (total + w.n) ws s (omega (arith, sum, c.counted))
              (omega (arith, len)) (omega (arith, len, c.bounded)))
        | inr room ↦ rw room (record {
          counted = omega (arith, sum, c.counted);
          bounded = ltb_false→le reorder_window (length ws) room;
        })
      ]

  pub add_all-Counted :
      (ws : List (Timed F)) (total : ℕ) (s : StreamStat F)
      → Counted total s
      → Counted (total + samples_of ws) (add_all fl ws s)
  unfolding add_all
  add_all-Counted [] total s c = record { counted = omega (arith, c.counted); bounded = c.bounded }
  add_all-Counted (w ∷ ws) total s c =
      let c' = add_all-Counted ws (total + w.n) (add fl w s) (add-Counted total w s c) in
      record { counted = omega (arith, c'.counted); bounded = c'.bounded }

  pub drain-delivered :
      (ws : List (Timed F)) (s : StreamStat F)
      → ((drain fl ws s).delivered ≡ s.delivered + samples_of ws) × ((drain fl ws s).pending ≡ [])
  unfolding drain commit
  drain-delivered [] s = (omega arith, refl)
  drain-delivered (w ∷ ws) s =
      let (n, p) = drain-delivered ws (commit fl w (record s { pending = ws })) in
      (omega (arith, n), p)

  pub finalize-counts :
      (ws : List (Timed F)) (total : ℕ) (s : StreamStat F)
      → Counted total s
      → (length (add_all fl ws s).pending ≤ reorder_window)
        × ((finalize fl (add_all fl ws s)).delivered ≡ total + samples_of ws)
        × ((finalize fl (add_all fl ws s)).pending ≡ [])
  unfolding finalize
  finalize-counts ws total s c =
      let c' = add_all-Counted ws total s c in
      let t = add_all fl ws s in
      let (n, p) = drain-delivered t.pending t in (c'.bounded, n ∙ c'.counted, p)
