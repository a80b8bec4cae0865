-- ===== src/Buffer/Lossless.antt =====
-- The bytes that go into an `IngestBuffer` of src/sceptre_pipeline/buffer.py and come out of it.
use Prim.Native.String.{String}
use mathlib.Core.Path.{◌≡⟨◌⟩◌, ◌∎}
use sceptre_pipeline.Prelude.{
  ℕ, ◌+◌, ◌≡◌, refl, sym, ap, ◌∙◌, Bool, true, false, ◌&&◌, ◌||◌, List, [], ◌∷◌, ◌++◌, arith,
  Bool-cases, Option-cases, ◌⊎◌, inl, inr, append_assoc, append-nil,
}
use sceptre_pipeline.Prelude.Bytes.{Bytes}
use sceptre_pipeline.Floats.{Floats}
use sceptre_pipeline.Numpy.{Numpy}
use sceptre_pipeline.Interpreter.{Metadata, Record, context_record, data_record}
use sceptre_pipeline.Buffer.{
  IngestBuffer, Window, join, has_chunks, is_true, is_none, flush, flush_if, drop_data, adopt,
  push_context, converts, is_other, latched, added, append, store, push_usable, usable, push_data,
  push,
}
use sceptre_pipeline.Buffer.Windows.{join-append}

module _ {F : Type 0} where
  -- the bytes of the windows, in order
  abbrev pub raws : List (Window F) → Bytes
  raws [] = []
  raws (w ∷ ws) = w.raw ++ raws ws

  pub raws-append : (xs ys : List (Window F)) → raws (xs ++ ys) ≡ raws xs ++ raws ys
  raws-append [] ys = refl
  raws-append (w ∷ ws) ys = rw (raws-append ws ys, append_assoc)

  -- the bytes emitted and those still open
  abbrev pub total : IngestBuffer F × List (Window F) → Bytes
  total r = raws r.1 ++ join r.0.chunks

  pub flush_if-total :
      (test : Bool) (buf : IngestBuffer F) → total (flush_if test buf) ≡ join buf.chunks
  unfolding flush_if flush
  flush_if-total false buf = refl
  flush_if-total true buf = elim (Bool-cases (has_chunks buf.chunks)) [
    | inl h ↦ rw (h, append-nil, append-nil)
    | inr h ↦ rw h
  ]

  pub flush_if-dropped :
      (test : Bool) (buf : IngestBuffer F) → (flush_if test buf).0.dropped ≡ buf.dropped
  unfolding flush_if flush
  flush_if-dropped test buf = ground arith

  -- the samples of a record
  abbrev pub payload : Record F → Bytes
  payload (context_record md ctx) = []
  payload (data_record md body) = body

  -- The data went in, or it was counted as dropped.
  abbrev pub Taken : IngestBuffer F → Bytes → IngestBuffer F × List (Window F) → Type 0
  Taken buf body r =
      ((r.0.dropped ≡ buf.dropped) × (total r ≡ join buf.chunks ++ body))
      ⊎ ((r.0.dropped ≡ buf.dropped + 1) × (total r ≡ join buf.chunks))

  behind-total :
      (test : Bool) (buf : IngestBuffer F) (z : Bytes) (r : IngestBuffer F × List (Window F))
      → total r ≡ join (flush_if test buf).0.chunks ++ z
      → total (r.0, (flush_if test buf).1 ++ r.1) ≡ join buf.chunks ++ z
  behind-total test buf z r h =
      raws ((flush_if test buf).1 ++ r.1) ++ join r.0.chunks
      ≡⟨ (rw (raws-append (flush_if test buf).1 r.1, append_assoc)) ⟩
        raws (flush_if test buf).1 ++ total r
      ≡⟨ (rw (h, append_assoc)) ⟩ total (flush_if test buf) ++ z
      ≡⟨ ap (λ l. l ++ z) (flush_if-total test buf) ⟩ join buf.chunks ++ z ∎

  -- a step behind a flush
  behind :
      (test : Bool) (buf : IngestBuffer F) (body : Bytes) (r : IngestBuffer F × List (Window F))
      → Taken (flush_if test buf).0 body r
      → Taken buf body (r.0, (flush_if test buf).1 ++ r.1)
  behind test buf body r (inl (d, t)) =
      inl (d ∙ flush_if-dropped test buf, behind-total test buf body r t)
  behind test buf body r (inr (d, t)) = inr (
    d ∙ ap (λ (n : ℕ). n + 1) (flush_if-dropped test buf),
    behind-total test buf [] r (t ∙ sym (append-nil _)) ∙ append-nil _,
  )

module _ {F Arr : Type 0} (np : Numpy Arr) where
  append-Taken :
      (bps : ℕ) (body : Bytes) (buf : IngestBuffer F) → Taken buf body (append np bps body buf)
  unfolding append
  append-Taken bps body buf = inl (
    flush_if-dropped _ (added np bps body buf),
    flush_if-total _ (added np bps body buf)
        ∙ (join-append buf.chunks (body ∷ []) ∙ rw (append-nil body)),
  )

  store-Taken :
      (now : F) (md : Metadata F) (dtype : String) (bps : ℕ) (body : Bytes) (buf : IngestBuffer F)
      → Taken buf body (store np now md dtype bps body buf)
  unfolding store drop_data
  store-Taken now md dtype bps [] buf = inl (refl, sym (append-nil (join buf.chunks)))
  store-Taken now md dtype bps (x ∷ xs) buf = elim (Bool-cases (has_chunks buf.chunks)) [
    | inl h ↦ rw h (append-Taken bps (x ∷ xs) buf)
    | inr h ↦ elim (Bool-cases (converts (np.dtype dtype) (is_true md.is_complex) bps)) [
      | inl e ↦ rw (h, e) (append-Taken bps (x ∷ xs) (latched np now md dtype bps buf))
      | inr e ↦ rw (h, e) (inr (refl, refl))
    ]
  ]

  push_usable-Taken :
      (now : F) (md : Metadata F) (dtype : String) (bps : ℕ) (body : Bytes) (buf : IngestBuffer F)
      → Taken buf body (push_usable np now md dtype bps body buf)
  unfolding push_usable
  push_usable-Taken now md dtype bps body buf =
      let test1 = has_chunks buf.chunks && md.gap_before in
      let b1 = (flush_if test1 buf).0 in
      let test2 = has_chunks b1.chunks && is_other np b1 dtype (is_true md.is_complex) bps in
      let b2 = (flush_if test2 b1).0 in
      let r = store np now md dtype bps body b2 in
      let r2 : IngestBuffer F × List (Window F) = (r.0, (flush_if test2 b1).1 ++ r.1) in
      behind test1 buf body r2 (behind test2 b1 body r (store-Taken now md dtype bps body b2))

  push_data-Taken :
      (now : F) (md : Metadata F) (body : Bytes) (buf : IngestBuffer F)
      → Taken buf body (push_data np now md body buf)
  unfolding push_data drop_data
  push_data-Taken now md body buf = elim (Bool-cases (is_none buf.current_context || buf.inert)) [
    | inl cold ↦ rw cold (inr (refl, refl))
    | inr warm ↦ elim (Option-cases (usable md.dtype md.bytes_per_sample body)) [
      | inl e ↦ rw (warm, e, push_data) (inr (refl, refl))
      | inr ((dtype, bps), e) ↦
          rw (warm, e, push_data) (push_usable-Taken now md dtype bps body buf)
    ]
  ]

module _ {F Arr : Type 0} (fl : Floats F) (np : Numpy Arr) where
  -- Either `push` counts no drop, and the bytes that it emits followed by those left open are those
  -- that were open followed by the record's samples; or it counts one drop, and they are those that
  -- were open.
  pub push-Taken :
      (now : F) (r : Record F) (buf : IngestBuffer F) → Taken buf (payload r) (push fl np now r buf)
  unfolding push push_context adopt
  push-Taken now (context_record md ctx) buf =
      inl (flush_if-dropped _ buf, flush_if-total _ buf ∙ sym (append-nil (join buf.chunks)))
  push-Taken now (data_record md body) buf = push_data-Taken np now md body buf
