-- ===== src/Router/Polled.antt =====
-- One stream's samples through the age poll and `flush_all` of `BufferRouter` of
-- src/sceptre_pipeline/buffer.py.
use sceptre_pipeline.Prelude.{
  ◌≡◌, refl, sym, ◌∙◌, false, List, [], ◌∷◌, arith, Bool-cases, Option-cases, inl, inr, append-nil,
}
use sceptre_pipeline.Prelude.Bytes.{Bytes}
use sceptre_pipeline.Floats.{Floats}
use sceptre_pipeline.Numpy.{Numpy}
use sceptre_pipeline.Dict.{StreamId, Dict, get}
use sceptre_pipeline.Dict.Each.{Each, Each-get}
use sceptre_pipeline.Buffer.{IngestBuffer, join, flush, has_chunks}
use sceptre_pipeline.Router.{BufferRouter, flush_all, maybe_flush_on_age, for_each}
use sceptre_pipeline.Router.Visits.{for_each-Visits}
use sceptre_pipeline.Router.Drained.{
  open_bytes, open_bytes-some, open_bytes-none, IsKeyed, flush-IsKeeping, age-IsKeeping,
  Visits-IsKeyed, Visits-dropped, Visits-flow,
}
use sceptre_pipeline.Router.Flow.{Flows}

module _ {F Arr : Type 0} (fl : Floats F) (np : Numpy Arr) where
  pub age-Flows :
      (clock : StreamId → F) (s : BufferRouter F) (k : StreamId)
      → IsKeyed s.buffers
      → Flows k s [] (maybe_flush_on_age fl clock s)
  unfolding maybe_flush_on_age
  age-Flows clock s k v =
      let keeping = age-IsKeeping fl clock in
      inl (
        omega (arith, Visits-dropped _ keeping (for_each-Visits _ s.buffers)),
        Visits-flow _ keeping k (for_each-Visits _ s.buffers) v ∙ sym (append-nil _),
      )

  pub age-IsKeyed :
      (clock : StreamId → F) (s : BufferRouter F)
      → IsKeyed s.buffers
      → IsKeyed (maybe_flush_on_age fl clock s).0.buffers
  unfolding maybe_flush_on_age
  age-IsKeyed clock s v = Visits-IsKeyed _ (age-IsKeeping fl clock) (for_each-Visits _ s.buffers) v

join_of_none : (cs : List Bytes) → has_chunks cs ≡ false → join cs ≡ []
join_of_none [] h = refl
join_of_none (c ∷ cs) h = absurd (cc h)

module _ {F : Type 0} where
  pub flush_all-Flows :
      (s : BufferRouter F) (k : StreamId) → IsKeyed s.buffers → Flows k s [] (flush_all s)
  unfolding flush_all
  flush_all-Flows s k v = inl (
    omega (arith, Visits-dropped _ flush-IsKeeping (for_each-Visits _ s.buffers)),
    Visits-flow _ flush-IsKeeping k (for_each-Visits _ s.buffers) v ∙ sym (append-nil _),
  )

  no_chunks : (buf : IngestBuffer F) → join (flush buf).0.chunks ≡ []
  unfolding flush
  no_chunks buf = elim (Bool-cases (has_chunks buf.chunks)) [
    | inl h ↦ rw h refl
    | inr h ↦ rw h (join_of_none buf.chunks h)
  ]

  all_flushed :
      (d : Dict (IngestBuffer F))
      → Each (λ k buf. join buf.chunks ≡ []) (for_each (λ k buf. flush buf) d).0
  unfolding for_each
  all_flushed [] = tt
  all_flushed ((k, buf) ∷ d) = (no_chunks buf, all_flushed d)

  -- Nothing is left open.
  pub flush_all-open :
      (s : BufferRouter F) (k : StreamId) → open_bytes k (flush_all s).0.buffers ≡ []
  unfolding flush_all
  flush_all-open s k =
      let d = (for_each (λ (j : StreamId) (buf : IngestBuffer F). flush buf) s.buffers).0 in
      elim (Option-cases (get d k)) [
        | inl e ↦ open_bytes-none d k e
        | inr (buf, e) ↦
            open_bytes-some d k buf e
            ∙ Each-get (λ j b. join b.chunks ≡ []) d k buf (all_flushed s.buffers) e
      ]
