-- ===== src/Raising/Equivalent.antt =====
-- Each method of src/sceptre_pipeline/buffer.py and the loop of runtime.py under an emit callback
-- that may raise against its namesake under one that returns.
use Prim.Native.String.{String}
use sceptre_pipeline.Prelude.{
  ℕ, refl, Bool, true, false, Bool-cases, Option-cases, ◌||◌, inl, inr, [], ◌∷◌,
}
use sceptre_pipeline.Prelude.Bytes.{Bytes}
use sceptre_pipeline.Floats.{Floats}
use sceptre_pipeline.Numpy.{Numpy}
use sceptre_pipeline.Context.{Context}
use sceptre_pipeline.Interpreter.{Metadata, Record, context_record, data_record}
use sceptre_pipeline.Buffer.{
  IngestBuffer, Window, is_true, has_chunks, is_none, converts, usable, latched, adopt,
}
use sceptre_pipeline.Buffer
use sceptre_pipeline.Raising.{Emit, emit_one, within}
use sceptre_pipeline.Raising.Buffer as RaisingBuffer
use sceptre_pipeline.Raising.Follows.{
  Follows, Follows-returned, emit_all-one, and_then_plain-Follows, and_then-Follows,
}

module _ {S F : Type 0} (emit : Emit S F) where
  pub flush-Follows :
      (s : S) (buf : IngestBuffer F)
      → Follows emit s (Buffer.flush buf) (RaisingBuffer.flush emit s buf)
  unfolding Buffer.flush RaisingBuffer.flush emit_one within
  flush-Follows s buf = elim (Bool-cases (has_chunks buf.chunks)) [
    | inl h ↦ rw h (record { emitted = emit_all-one emit s (Buffer.window buf); intact = inr refl })
    | inr h ↦ rw h (Follows-returned emit s buf)
  ]

  flush_if-Follows :
      (test : Bool) (s : S) (buf : IngestBuffer F)
      → Follows emit s (Buffer.flush_if test buf) (RaisingBuffer.flush_if emit test s buf)
  unfolding Buffer.flush_if RaisingBuffer.flush_if
  flush_if-Follows true s buf = flush-Follows s buf
  flush_if-Follows false s buf = Follows-returned emit s buf

  push_context-Follows :
      (fl : Floats F) (ctx : Context F) (s : S) (buf : IngestBuffer F)
      → Follows emit s
          (Buffer.push_context fl ctx buf)
          (RaisingBuffer.push_context emit fl ctx s buf)
  unfolding Buffer.push_context RaisingBuffer.push_context
  push_context-Follows fl ctx s buf =
      and_then_plain-Follows emit s _ (adopt ctx) _ (flush_if-Follows _ s buf)

  pub age-Follows :
      (fl : Floats F) (now : F) (s : S) (buf : IngestBuffer F)
      → Follows emit s
          (Buffer.maybe_flush_on_age fl now buf)
          (RaisingBuffer.maybe_flush_on_age emit fl now s buf)
  unfolding Buffer.maybe_flush_on_age RaisingBuffer.maybe_flush_on_age
  age-Follows fl now s buf = flush_if-Follows _ s buf

module _ {S F Arr : Type 0} (emit : Emit S F) (np : Numpy Arr) where
  append-Follows :
      (bps : ℕ) (body : Bytes) (s : S) (buf : IngestBuffer F)
      → Follows emit s (Buffer.append np bps body buf) (RaisingBuffer.append emit np bps body s buf)
  unfolding Buffer.append RaisingBuffer.append
  append-Follows bps body s buf = flush_if-Follows emit _ s _

  store-Follows :
      (now : F) (md : Metadata F) (dtype : String) (bps : ℕ) (body : Bytes) (s : S)
      (buf : IngestBuffer F)
      → Follows emit s
          (Buffer.store np now md dtype bps body buf)
          (RaisingBuffer.store emit np now md dtype bps body s buf)
  unfolding Buffer.store RaisingBuffer.store
  store-Follows now md dtype bps [] s buf = Follows-returned emit s buf
  store-Follows now md dtype bps (x ∷ xs) s buf = elim (Bool-cases (has_chunks buf.chunks)) [
    | inl h ↦ rw h (append-Follows bps (x ∷ xs) s buf)
    | inr h ↦ elim (Bool-cases (converts (np.dtype dtype) (is_true md.is_complex) bps)) [
      | inl e ↦ rw (h, e) (append-Follows bps (x ∷ xs) s (latched np now md dtype bps buf))
      | inr e ↦ rw (h, e) (Follows-returned emit s _)
    ]
  ]

  push_usable-Follows :
      (now : F) (md : Metadata F) (dtype : String) (bps : ℕ) (body : Bytes) (s : S)
      (buf : IngestBuffer F)
      → Follows emit s
          (Buffer.push_usable np now md dtype bps body buf)
          (RaisingBuffer.push_usable emit np now md dtype bps body s buf)
  unfolding Buffer.push_usable RaisingBuffer.push_usable
  push_usable-Follows now md dtype bps body s buf =
      and_then-Follows emit s _ _ _
        (λ buf1 s1.
          and_then-Follows emit s1 _ (λ buf2. Buffer.store np now md dtype bps body buf2) _
            (λ buf2 s2. store-Follows now md dtype bps body s2 buf2) _
            (flush_if-Follows emit _ s1 buf1))
        _ (flush_if-Follows emit _ s buf)

  push_data-Follows :
      (now : F) (md : Metadata F) (body : Bytes) (s : S) (buf : IngestBuffer F)
      → Follows emit s
          (Buffer.push_data np now md body buf)
          (RaisingBuffer.push_data emit np now md body s buf)
  unfolding Buffer.push_data RaisingBuffer.push_data
  push_data-Follows now md body s buf =
      elim (Bool-cases (is_none buf.current_context || buf.inert)) [
        | inl cold ↦ rw cold (Follows-returned emit s _)
        | inr warm ↦ elim (Option-cases (usable md.dtype md.bytes_per_sample body)) [
          | inl e ↦
              rw (warm, e, Buffer.push_data, RaisingBuffer.push_data) (Follows-returned emit s _)
          | inr ((dtype, bps), e) ↦
              rw (warm, e, Buffer.push_data, RaisingBuffer.push_data)
                (push_usable-Follows now md dtype bps body s buf)
        ]
      ]

  pub push-Follows :
      (fl : Floats F) (now : F) (r : Record F) (s : S) (buf : IngestBuffer F)
      → Follows emit s (Buffer.push fl np now r buf) (RaisingBuffer.push emit np fl now r s buf)
  unfolding Buffer.push RaisingBuffer.push
  push-Follows fl now (context_record md ctx) s buf = push_context-Follows emit fl ctx s buf
  push-Follows fl now (data_record md body) s buf = push_data-Follows now md body s buf
