-- ===== src/StreamStat/Reordering.antt =====
-- The jitter buffer of `_StreamStat` of src/sceptre_pipeline/metrics.py against an integration of
-- the windows in sample-time order.
use mathlib.Core.Path.{subst}
use sceptre_pipeline.Prelude.{
  ℕ, zero, suc, ◌+◌, ◌≡◌, refl, sym, ap, ◌∙◌, List, [], ◌∷◌, ◌++◌, map, arith, length, append_assoc,
  append-nil,
}
use sceptre_pipeline.Floats.{Floats}
use sceptre_pipeline.StreamStat.{Timed, StreamStat, commit, add, drain, finalize, add_all}
use sceptre_pipeline.StreamStat.Arrivals.{count_from, Increasing-full}
use sceptre_pipeline.StreamStat.Jitter.{IsNear, Buffered, add-Buffered}
use sceptre_pipeline.StreamStat.Committed.{InTimeOrder, integrate}

module _ {F : Type 0} (fl : Floats F) (w : ℕ → Timed F) where
  add_all-Buffered :
      (n : ℕ) (arrivals seen rest : List ℕ) (base s : StreamStat F)
      → InTimeOrder fl w n
      → IsNear n arrivals
      → arrivals ≡ seen ++ rest
      → Buffered fl w base s seen
      → Buffered fl w base (add_all fl (map w rest) s) arrivals
  unfolding add_all
  add_all-Buffered n arrivals seen [] base s ordered near e b =
      subst (Buffered fl w base s) (sym (e ∙ append-nil seen)) b
  add_all-Buffered n arrivals seen (x ∷ rest) base s ordered near e b =
      add_all-Buffered n arrivals (seen ++ x ∷ []) rest base (add fl (w x) s) ordered near
        (e ∙ sym (append_assoc seen (x ∷ []) rest))
        (add-Buffered fl w n x arrivals seen rest base s ordered near e b)

  drain-integrate :
      (k c n : ℕ) (base : StreamStat F) (ws : List (Timed F))
      → c + k ≡ n
      → drain fl (map w (count_from c k)) (record (integrate fl w c base) { pending = ws })
        ≡ record (integrate fl w n base) { pending = [] }
  unfolding drain commit integrate
  drain-integrate zero c n base ws e =
      ap (λ m. record (integrate fl w m base) { pending = [] }) (omega (arith, e))
  drain-integrate (suc k) c n base ws e =
      drain-integrate k (suc c) n base (map w (count_from (suc c) k)) (omega (arith, e))

  all_held :
      (n : ℕ) (arrivals : List ℕ) (base s : StreamStat F)
      → IsNear n arrivals
      → (b : Buffered fl w base s arrivals)
      → (b.held ≡ count_from b.committed (length b.held)) × (b.committed + length b.held ≡ n)
  all_held n arrivals base s near b = (
    Increasing-full b.held b.committed b.sorted b.low
        (λ i m. omega (arith, near.within i (b.arrived i m), near.count, b.sizes)),
    omega (arith, near.count, b.sizes),
  )

  start-Buffered : (base : StreamStat F) → base.pending ≡ [] → Buffered fl w base base []
  unfolding integrate
  start-Buffered base e = record {
    committed = 0;
    held = [];
    state = ap (λ ws. record base { pending = ws }) e;
    sorted = tt;
    low = λ i m. absurd m;
    kept = λ i m h. absurd m;
    arrived = λ i m. absurd m;
    all_committed = λ i h. absurd (omega arith);
    sizes = refl;
    bounded = omega arith;
  }

  -- Let n windows be numbered in the order of their timestamps, which are pairwise comparable and
  -- different, and let each arrive once, with no more than `_REORDER_WINDOW` of its successors
  -- before it. Then the jitter buffer, empty at first and drained at the end, leaves the stat that
  -- committing the n windows in their order leaves, with no buffer.
  pub finalize-integrate :
      (n : ℕ) (arrivals : List ℕ) (s : StreamStat F)
      → InTimeOrder fl w n
      → IsNear n arrivals
      → s.pending ≡ []
      → finalize fl (add_all fl (map w arrivals) s) ≡ record (integrate fl w n s) { pending = [] }
  unfolding finalize
  finalize-integrate n arrivals s ordered near e =
      let t = add_all fl (map w arrivals) s in
      let b = add_all-Buffered n arrivals [] arrivals s s ordered near refl (start-Buffered s e) in
      let (held, total) = all_held n arrivals s t near b in
      ap (λ u. drain fl u.pending u) b.state
      ∙ (ap
            (λ js.
              drain fl (map w js)
                (record (integrate fl w b.committed s) { pending = map w b.held }))
            held
          ∙ drain-integrate (length b.held) b.committed n s (map w b.held) total)
