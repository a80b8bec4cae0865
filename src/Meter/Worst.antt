-- ===== src/Meter/Worst.antt =====
-- The stream that the verdict of `capture_summary` of src/sceptre_pipeline/metrics.py is about.
use mathlib.Core.Path.{subst}
use sceptre_pipeline.Prelude.{
  ◌≤◌, ◌<◌, ◌≡◌, refl, sym, ◌∙◌, true≢false, Bool, Bool-cases, if_true, if_false, arith, Option,
  none, some, List, [], ◌∷◌, ◌⊎◌, inl, inr, true, false, ◌==◌, length, if◌then◌else◌,
}
use sceptre_pipeline.Floats.{Floats}
use sceptre_pipeline.Buffer.Windows.{All}
use sceptre_pipeline.StreamStat.{StreamStat}
use sceptre_pipeline.Meter.{
  ThroughputMeter, Report, Verdict, rate_unknown, window_too_short, steady, flagged, verdict,
  efficiency, worst_of, report, finalize_all, declared_of, measurable_of, undeclared_of,
  capture_summary,
}
use sceptre_pipeline.Meter.Efficiency.{not_zero}

module _ {F : Type 0} where
  abbrev pub Listed : StreamStat F → List (StreamStat F × F) → Type 0
  Listed s [] = ⊥
  Listed s ((t, r) ∷ ts) = (t ≡ s) ⊎ Listed s ts

  -- what the line says in percent, and its verdict
  abbrev pub said_of : Report F → Option (F × Verdict)
  said_of rate_unknown = none
  said_of window_too_short = none
  said_of (steady rate' rate pct bandwidth v) = some (pct, v)
  said_of (flagged pct declared retuned unassessable undeclared excluded v) = some (pct, v)

  abbrev pub said : Option (Report F) → Option (F × Verdict)
  said none = none
  said (some r) = said_of r

module _ {F : Type 0} (fl : Floats F) where
  -- The order of floats is strict.
  pub record OrderLaws : Type 0 where
    pub irreflexive : (a : F) → fl.lt a a ≡ false
    pub transitive : (a b c : F) → fl.lt a b ≡ true → fl.lt b c ≡ true → fl.lt a c ≡ true

  -- Nothing that is not less than the latter is less than the former, which is less.
  not_less : (a b c : F) → OrderLaws → fl.lt a b ≡ false → fl.lt c b ≡ true → fl.lt a c ≡ false
  not_less a b c laws h k = elim (Bool-cases (fl.lt a c)) [
    | inl less ↦ absurd (true≢false (sym (laws.transitive a c b less k) ∙ h))
    | inr more ↦ more
  ]

  above_less : (a b c : F) → OrderLaws → fl.lt c b ≡ false → fl.lt c a ≡ true → fl.lt a b ≡ false
  above_less a b c laws h k = elim (Bool-cases (fl.lt a b)) [
    | inl less ↦ absurd (true≢false (sym (laws.transitive c a b k less) ∙ h))
    | inr more ↦ more
  ]

  abbrev pub less_than : StreamStat F → StreamStat F → Bool
  less_than s t = fl.lt (efficiency fl s) (efficiency fl t)

  -- The one chosen is among the streams, and neither the first nor a later one is less.
  pub record IsWorst (s : StreamStat F) (ss : List (StreamStat F × F)) (t : StreamStat F)
      : Type 0 where
    pub among : (s ≡ t) ⊎ Listed t ss
    pub below : (s ≡ t) ⊎ (less_than t s ≡ true)
    pub first : less_than s t ≡ false
    pub later : (u : StreamStat F) → Listed u ss → less_than u t ≡ false

  -- The choice goes on from a stream that is less.
  worse :
      (s s' t : StreamStat F) (r' : F) (ss : List (StreamStat F × F))
      → OrderLaws
      → less_than s' s ≡ true
      → IsWorst s' ss t
      → IsWorst s ((s', r') ∷ ss) t
  worse s s' t r' ss laws less v = record {
    among = inr v.among;
    below = elim v.below [
      | inl e ↦ inr (subst (λ u. less_than u s ≡ true) e less)
      | inr k ↦ inr (laws.transitive _ _ _ k less)
    ];
    first = above_less _ _ _ laws v.first less;
    later = λ u m. elim m [
      | inl e ↦ subst (λ o. less_than o t ≡ false) e v.first
      | inr k ↦ v.later u k
    ];
  }

  -- It goes on from the first, past one that is not less.
  kept :
      (s s' t : StreamStat F) (r' : F) (ss : List (StreamStat F × F))
      → OrderLaws
      → less_than s' s ≡ false
      → IsWorst s ss t
      → IsWorst s ((s', r') ∷ ss) t
  kept s s' t r' ss laws more v = record {
    among = elim v.among [ inl e ↦ inl e | inr m ↦ inr (inr m) ];
    below = v.below;
    first = v.first;
    later = λ u m. elim m [
      | inl e ↦
          subst (λ o. less_than o t ≡ false) e
            (elim v.below [
              | inl same ↦ subst (λ o. less_than s' o ≡ false) same more
              | inr k ↦ not_less _ _ _ laws more k
            ])
      | inr k ↦ v.later u k
    ];
  }

  worst_of-IsWorst :
      (ss : List (StreamStat F × F)) (s : StreamStat F) (r : F)
      → OrderLaws
      → IsWorst s ss (worst_of fl (s, r) ss).0
  unfolding worst_of
  worst_of-IsWorst [] s r laws = record {
    among = inl refl;
    below = inl refl;
    first = laws.irreflexive (efficiency fl s);
    later = λ u m. absurd m;
  }
  worst_of-IsWorst ((s', r') ∷ ss) s r laws = elim (Bool-cases (less_than s' s)) [
    | inl less ↦
        rw (if_true (less_than s' s) (worst_of fl (s', r') ss) (worst_of fl (s, r) ss) less)
          (worse s s' _ r' ss laws less (worst_of-IsWorst ss s' r' laws))
    | inr more ↦
        rw (if_false (less_than s' s) (worst_of fl (s', r') ss) (worst_of fl (s, r) ss) more)
          (kept s s' _ r' ss laws more (worst_of-IsWorst ss s r laws))
  ]

  All-of :
      {P : StreamStat F → Type 0} (ss : List (StreamStat F × F))
      → ((u : StreamStat F) → Listed u ss → P u)
      → All (λ u. P u.0) ss
  All-of [] h = tt
  All-of ((s, r) ∷ ss) h = (h s (inl refl), All-of ss (λ u m. h u (inr m)))

  -- The stream that a report is about.
  pub record IsAbout (measurable : List (StreamStat F × F)) (o : Option (Report F)) : Type 0 where
    pub worst : StreamStat F
    pub among : Listed worst measurable
    pub least : All (λ u. less_than u.0 worst ≡ false) measurable
    pub says :
        said o
        ≡ some (fl.round1 (efficiency fl worst), verdict fl (fl.round1 (efficiency fl worst)))

  said_if :
      (b : Bool) (x y : Report F) (v : F × Verdict)
      → said_of x ≡ some v
      → said_of y ≡ some v
      → said (if b then some x else some y) ≡ some v
  said_if true x y v h k = h
  said_if false x y v h k = k

  report-IsAbout :
      (declared measurable : List (StreamStat F × F)) (undeclared : List (StreamStat F))
      → OrderLaws
      → 0 < length declared
      → 0 < length measurable
      → IsAbout measurable (report fl declared measurable undeclared)
  unfolding report
  report-IsAbout [] measurable undeclared laws h k = absurd (omega arith)
  report-IsAbout (a ∷ rest) [] undeclared laws h k = absurd (omega arith)
  report-IsAbout (a ∷ rest) ((s, r) ∷ ss) undeclared laws h k =
      let v = worst_of-IsWorst ss s r laws in
      record {
        worst = (worst_of fl (s, r) ss).0;
        among = v.among;
        least = All-of ((s, r) ∷ ss) (λ u m. elim m [
          | inl e ↦ subst (λ o. less_than o (worst_of fl (s, r) ss).0 ≡ false) e v.first
          | inr l ↦ v.later u l
        ]);
        says = said_if _ _ _ _ refl refl;
      }

  -- Only declared streams are measurable.
  length-measurable : (ss : List (StreamStat F × F)) → length (measurable_of fl ss) ≤ length ss
  unfolding measurable_of
  length-measurable [] = omega arith
  length-measurable ((s, r) ∷ ss) = elim (Bool-cases (fl.lt (fl.of_nat 0) s.expected)) [
    | inl timed ↦ rw timed (omega (arith, length-measurable ss))
    | inr other ↦ rw other (omega (arith, length-measurable ss))
  ]

  emitted_summary :
      (m : ThroughputMeter F)
      → 0 < m.total_samples
      → let d = finalize_all fl m.streams in
        capture_summary fl m ≡ (
          record m { streams = d },
          report fl (declared_of d) (measurable_of fl (declared_of d)) (undeclared_of d),
        )
  unfolding capture_summary
  emitted_summary m emitted = if_false (m.total_samples == 0) _ _ (not_zero m.total_samples emitted)

  -- Given that `<` on floats is irreflexive and transitive: if the meter has counted a sample and a
  -- declared stream is measurable, then the percentage that `capture_summary` reports, and its
  -- verdict, are those of a measurable stream than which no measurable stream has a lower
  -- efficiency.
  pub capture_summary-worst :
      (m : ThroughputMeter F)
      → OrderLaws
      → 0 < m.total_samples
      → let d = (capture_summary fl m).0.streams in
        0 < length (measurable_of fl (declared_of d))
        → IsAbout (measurable_of fl (declared_of d)) (capture_summary fl m).1
  capture_summary-worst m laws emitted =
      let d = finalize_all fl m.streams in
      subst
        (λ o.
          0 < length (measurable_of fl (declared_of o.0.streams))
          → IsAbout (measurable_of fl (declared_of o.0.streams)) o.1)
        (sym (emitted_summary m emitted))
        (λ k.
          report-IsAbout (declared_of d) (measurable_of fl (declared_of d)) (undeclared_of d) laws
            (omega (arith, length-measurable (declared_of d))) k)
