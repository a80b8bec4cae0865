-- ===== src/Tests/Metering.antt =====
-- The meter on windows with a gap between them, and on windows that arrive out of order.
use mathlib.Core.Path.{subst}
use sceptre_pipeline.Prelude.{
  ℕ, zero, suc, take, ap, sym, ◌+◌, ◌*◌, ◌^◌, ◌≤◌, ◌<◌, ◌≡◌, refl, true, some, List, [], ◌∷◌, inl,
  inr, ltb→lt, lt→ltb, leb→le, le→leb, le→ltb, length, map, arith,
}
use sceptre_pipeline.Floats.{fixed_point}
use sceptre_pipeline.Dict.{StreamId}
use sceptre_pipeline.Dict
use sceptre_pipeline.Dict.Each.{Each}
use sceptre_pipeline.Dict.Unique.{sum}
use sceptre_pipeline.Buffer.{Window}
use sceptre_pipeline.StreamStat.{Timed, StreamStat, finalize, add_all}
use sceptre_pipeline.StreamStat
use sceptre_pipeline.StreamStat.Efficiency.{SumLaws}
use sceptre_pipeline.StreamStat.Jitter.{IsNear}
use sceptre_pipeline.StreamStat.Committed.{InTimeOrder, integrate}
use sceptre_pipeline.StreamStat.Arrivals.{Among}
use sceptre_pipeline.StreamStat.Reordering.{finalize-integrate}
use sceptre_pipeline.Meter.{
  severe_loss, ThroughputMeter, call_all, capture_summary, measurable_of, declared_of,
}
use sceptre_pipeline.Meter
use sceptre_pipeline.Meter.Totals.{samples_in, raw_bytes_in, samples_of_stat}
use sceptre_pipeline.Meter.Delivered.{delivered_of, assessed_in}
use sceptre_pipeline.Meter.Efficiency.{IsEfficient, capture_summary-IsEfficient}
use sceptre_pipeline.Meter.Session.{run-metered}
use sceptre_pipeline.Meter.Worst.{said, OrderLaws, IsAbout, capture_summary-worst}
use sceptre_pipeline.Runtime.{run}
use sceptre_pipeline.Tests.Packets.{np, samples, declared_context}
use sceptre_pipeline.Tests.Sessions.{session, items, routed}

-- windows of one sample at one sample a second, three seconds apart
abbrev timed : ℕ → Timed ℕ
timed i = record { ts = i * (3 * 2 ^ 20); rate = 2 ^ 20; n = 1 }

timed-order : InTimeOrder fixed_point timed 3
timed-order i j h k = ground arith

abbrev out_of_order : List ℕ
out_of_order = 1 ∷ 0 ∷ 2 ∷ []

take_whole : {A : Type 0} (n : ℕ) (xs : List A) → length xs ≤ n → take n xs ≡ xs
take_whole zero [] h = refl
take_whole zero (x ∷ xs) h = absurd (omega arith)
take_whole (suc n) [] h = refl
take_whole (suc n) (x ∷ xs) h = ap (x ∷◌) (take_whole n xs (omega arith))

all_there : (i : ℕ) → i < 3 → Among i out_of_order
all_there i h = ground arith

all_within : (i : ℕ) → Among i out_of_order → i < 3
all_within i (inl e) = omega arith
all_within i (inr (inl e)) = omega arith
all_within i (inr (inr (inl e))) = omega arith
all_within i (inr (inr (inr m))) = absurd m

not_again : Among 1 (0 ∷ 2 ∷ []) → ⊥
not_again (inl e) = omega arith
not_again (inr (inl e)) = omega arith
not_again (inr (inr m)) = m

not_later : Among 0 (2 ∷ []) → ⊥
not_later (inl e) = omega arith
not_later (inr m) = m

-- the second before the first
near : IsNear 3 out_of_order
near = record {
  count = refl;
  distinct = (not_again, (not_later, ((λ m. m), tt)));
  within = all_within;
  prompt =
      λ i h. subst (Among i) (sym (take_whole (i + 65) out_of_order (omega arith))) (all_there i h);
}

nothing_pending : (StreamStat.init fixed_point).pending ≡ []
unfolding StreamStat.init
nothing_pending = refl

finalize-integrate_example :
    finalize fixed_point
      (add_all fixed_point (map timed out_of_order) (StreamStat.init fixed_point))
    ≡ record (integrate fixed_point timed 3 (StreamStat.init fixed_point)) { pending = [] }
finalize-integrate_example =
    finalize-integrate fixed_point timed 3 out_of_order (StreamStat.init fixed_point) timed-order
      near nothing_pending

abbrev window : ℕ → Window ℕ
window ts = record {
  raw = samples;
  context = some declared_context;
  start_timestamp = some ts;
  num_samples = 2;
  stream_id = some 7;
  component_dtype = some ">i2";
  is_complex = some true;
  bytes_per_sample = some 4;
}

abbrev windows : List (Window ℕ)
windows = window 0 ∷ window (5 * 2 ^ 20) ∷ []

sum_laws : SumLaws fixed_point
sum_laws = record {
  le_zero = refl;
  le_grow = λ a n x h c. le→leb _ _ (omega (arith, leb→le _ _ c));
  le_gain = λ a x r g h c rated gap. le→leb _ _ (omega (arith, leb→le _ _ c));
}

order_laws : OrderLaws fixed_point
order_laws = record {
  irreflexive = λ a. le→ltb a a (omega arith);
  transitive = λ a b c h k. lt→ltb a c (omega (arith, ltb→lt a b h, ltb→lt b c k));
}

capture_summary-IsEfficient_example :
    let d = (capture_summary fixed_point (call_all fixed_point windows Meter.init).0).0.streams in
    Each (λ j s. IsEfficient fixed_point s) d
    × ((k : StreamId) → delivered_of (Dict.get d k) ≡ assessed_in fixed_point k windows)
capture_summary-IsEfficient_example =
    capture_summary-IsEfficient fixed_point windows sum_laws (omega arith) (omega arith)

abbrev metered : ThroughputMeter ℕ
metered = (call_all fixed_point windows Meter.init).0

emitted : 0 < metered.total_samples
unfolding call_all Meter.call Meter.init
emitted = omega arith

assessable :
    0
    < length
        (measurable_of fixed_point (declared_of (capture_summary fixed_point metered).0.streams))
unfolding call_all Meter.call Meter.init capture_summary measurable_of declared_of
    Meter.finalize_all Meter.note Meter.stat_for Meter.add_window Dict.get Dict.put StreamStat.add
    StreamStat.heappush StreamStat.commit_least StreamStat.commit StreamStat.charge
    StreamStat.advance StreamStat.init finalize StreamStat.drain
assessable = omega arith

capture_summary-worst_example :
    IsAbout fixed_point
      (measurable_of fixed_point (declared_of (capture_summary fixed_point metered).0.streams))
      (capture_summary fixed_point metered).1
capture_summary-worst_example =
    capture_summary-worst fixed_point metered order_laws emitted assessable

run-metered_example :
    let ws = (run fixed_point np items session).1 in
    let m = (call_all fixed_point ws Meter.init).0 in
    ((call_all fixed_point ws Meter.init).1 ≡ ws)
    × (m.unit_count ≡ length ws)
    × (m.total_samples ≡ samples_in ws)
    × (sum samples_of_stat m.streams ≡ m.total_samples)
    × (m.total_bytes ≡ raw_bytes_in ws)
run-metered_example = run-metered fixed_point np items session routed

-- Two samples at the start, two behind a gap of almost five seconds: most of a stream of a thousand
-- samples a second was lost, and 0.08% of it was delivered (83852 parts in 2 ^ 20).
lossy : said (capture_summary fixed_point metered).1 ≡ some (83852, severe_loss)
unfolding call_all Meter.call Meter.init capture_summary measurable_of declared_of
    Meter.finalize_all Meter.note Meter.stat_for Meter.add_window Dict.get Dict.put StreamStat.add
    StreamStat.heappush StreamStat.commit_least StreamStat.commit StreamStat.charge
    StreamStat.advance StreamStat.init finalize StreamStat.drain Meter.report Meter.undeclared_of
    Meter.any_changed Meter.worst_of Meter.verdict
lossy = refl
