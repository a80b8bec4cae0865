-- ===== src/Buffer/Identity.antt =====
-- The stream id of an `IngestBuffer` of src/sceptre_pipeline/buffer.py and of its windows.
use Prim.Native.String.{String}
use sceptre_pipeline.Prelude.{
  ℕ, ◌≡◌, refl, Bool, true, false, ◌&&◌, ◌||◌, List, [], ◌∷◌, ◌++◌, Bool-cases, Option-cases, inl,
  inr,
}
use sceptre_pipeline.Prelude.Bytes.{Bytes}
use sceptre_pipeline.Floats.{Floats}
use sceptre_pipeline.Numpy.{Numpy}
use sceptre_pipeline.Dict.{StreamId}
use sceptre_pipeline.Interpreter.{Metadata, Record, context_record, data_record}
use sceptre_pipeline.Buffer.{
  IngestBuffer, Window, has_chunks, is_true, is_none, flush, added, flush_if, drop_data, adopt,
  push_context, maybe_flush_on_age, converts, is_other, latched, append, store, push_usable, usable,
  push_data, push,
}
use sceptre_pipeline.Buffer.Windows.{All, All-append}

module _ {F : Type 0} (k : StreamId) where
  abbrev pub IsOf : Window F → Type 0
  IsOf w = w.stream_id ≡ k

  abbrev pub Of : IngestBuffer F × List (Window F) → Type 0
  Of r = (r.0.stream_id ≡ k) × All IsOf r.1

  pub flush_if-Of :
      (test : Bool) (buf : IngestBuffer F) → buf.stream_id ≡ k → Of (flush_if test buf)
  unfolding flush_if flush
  flush_if-Of false buf e = (e, tt)
  flush_if-Of true buf e = elim (Bool-cases (has_chunks buf.chunks)) [
    | inl h ↦ rw h (e, (e, tt))
    | inr h ↦ rw h (e, tt)
  ]

  behind-Of :
      (test : Bool) (buf : IngestBuffer F) (r : IngestBuffer F × List (Window F))
      → buf.stream_id ≡ k
      → Of r
      → Of (r.0, (flush_if test buf).1 ++ r.1)
  behind-Of test buf r e h = (h.0, All-append IsOf _ r.1 (flush_if-Of test buf e).1 h.1)

module _ {F Arr : Type 0} (np : Numpy Arr) (k : StreamId) where
  store-Of :
      (now : F) (md : Metadata F) (dtype : String) (bps : ℕ) (body : Bytes) (buf : IngestBuffer F)
      → buf.stream_id ≡ k
      → Of k (store np now md dtype bps body buf)
  unfolding store drop_data append
  store-Of now md dtype bps [] buf e = (e, tt)
  store-Of now md dtype bps (x ∷ xs) buf e = elim (Bool-cases (has_chunks buf.chunks)) [
    | inl h ↦ rw h (flush_if-Of k _ (added np bps (x ∷ xs) buf) e)
    | inr h ↦ elim (Bool-cases (converts (np.dtype dtype) (is_true md.is_complex) bps)) [
      | inl c ↦
          rw (h, c) (flush_if-Of k _ (added np bps (x ∷ xs) (latched np now md dtype bps buf)) e)
      | inr c ↦ rw (h, c) (e, tt)
    ]
  ]

  push_usable-Of :
      (now : F) (md : Metadata F) (dtype : String) (bps : ℕ) (body : Bytes) (buf : IngestBuffer F)
      → buf.stream_id ≡ k
      → Of k (push_usable np now md dtype bps body buf)
  unfolding push_usable
  push_usable-Of now md dtype bps body buf e =
      let test1 = has_chunks buf.chunks && md.gap_before in
      let b1 = (flush_if test1 buf).0 in
      let test2 = has_chunks b1.chunks && is_other np b1 dtype (is_true md.is_complex) bps in
      let b2 = (flush_if test2 b1).0 in
      let e1 = (flush_if-Of k test1 buf e).0 in
      let r = store np now md dtype bps body b2 in
      let g = store-Of now md dtype bps body b2 (flush_if-Of k test2 b1 e1).0 in
      behind-Of k test1 buf (r.0, (flush_if test2 b1).1 ++ r.1) e (behind-Of k test2 b1 r e1 g)

  push_data-Of :
      (now : F) (md : Metadata F) (body : Bytes) (buf : IngestBuffer F)
      → buf.stream_id ≡ k
      → Of k (push_data np now md body buf)
  unfolding push_data drop_data
  push_data-Of now md body buf e = elim (Bool-cases (is_none buf.current_context || buf.inert)) [
    | inl cold ↦ rw cold (e, tt)
    | inr warm ↦ elim (Option-cases (usable md.dtype md.bytes_per_sample body)) [
      | inl u ↦ rw (warm, u, push_data) (e, tt)
      | inr ((dtype, bps), u) ↦ rw (warm, u, push_data) (push_usable-Of now md dtype bps body buf e)
    ]
  ]

module _ {F Arr : Type 0} (fl : Floats F) (np : Numpy Arr) where
  pub push-Of :
      (now : F) (r : Record F) (buf : IngestBuffer F) → Of buf.stream_id (push fl np now r buf)
  unfolding push push_context adopt
  push-Of now (context_record md ctx) buf = flush_if-Of buf.stream_id _ buf refl
  push-Of now (data_record md body) buf = push_data-Of np buf.stream_id now md body buf refl

  pub age-Of : (now : F) (buf : IngestBuffer F) → Of buf.stream_id (maybe_flush_on_age fl now buf)
  unfolding maybe_flush_on_age
  age-Of now buf = flush_if-Of buf.stream_id _ buf refl
