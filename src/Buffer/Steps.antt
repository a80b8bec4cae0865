-- ===== src/Buffer/Steps.antt =====
-- The operations of `IngestBuffer` of src/sceptre_pipeline/buffer.py against its invariant.
use Prim.Native.String.{String}
use sceptre_pipeline.Prelude.{
  ℕ, ◌%◌, ◌<◌, ◌≡◌, ◌≢◌, refl, sym, ◌∙◌, true, ◌&&◌, ◌||◌, none, some, List, [], ◌∷◌, length, arith,
  Bool-cases, Option-cases, inl, inr,
}
use sceptre_pipeline.Prelude.Bytes.{Bytes}
use sceptre_pipeline.Floats.{Floats}
use sceptre_pipeline.Numpy.{Numpy}
use sceptre_pipeline.Context.{Context}
use sceptre_pipeline.Dict.{StreamId}
use sceptre_pipeline.Buffer.Windows.{All-append, IsWindow, IsValid, Good, flush_if-Good}
use sceptre_pipeline.Interpreter.{Metadata, Record, context_record, data_record}
use sceptre_pipeline.Buffer.{
  IngestBuffer, Field, init, has_chunks, is_true, is_none, flush_if, drop_data, adopt, differs,
  is_old, push_context, maybe_flush_on_age, converts, is_other, latched, store, push_usable, usable,
  push_data, push,
}
use sceptre_pipeline.Buffer.Latched.{
  usable_inv, warm_context, append-Good, open-IsLatched, drop_data-IsValid, context-flush_if,
  same_bps-flush_if, latched-IsLatched,
}

module _ {F Arr : Type 0} (np : Numpy Arr) where
  module _ (now : F) (md : Metadata F) (dtype : String) (bps : ℕ) (pos : 0 < bps) where
    store-Good :
        (body : Bytes) (buf : IngestBuffer F)
        → IsValid np buf
        → buf.current_context ≢ none
        → (has_chunks buf.chunks ≡ true → buf.bytes_per_sample ≡ some bps)
        → length body % bps ≡ 0
        → Good np (store np now md dtype bps body buf)
    unfolding store drop_data
    store-Good [] buf v labelled same whole_samples = (v, tt)
    store-Good (x ∷ xs) buf v labelled same whole_samples =
        elim (Bool-cases (has_chunks buf.chunks)) [
          | inl h ↦ rw h (
              append-Good np bps (x ∷ xs) buf (open-IsLatched np buf bps v h (same h)) (omega arith)
                whole_samples)
          | inr h ↦ elim (Bool-cases (converts (np.dtype dtype) (is_true md.is_complex) bps)) [
            | inl e ↦
                rw (h, e)
                  (append-Good np bps (x ∷ xs) (latched np now md dtype bps buf)
                    (latched-IsLatched np now md dtype bps buf v h pos labelled e) (omega arith)
                    whole_samples)
            | inr e ↦ rw (h, e) (drop_data-IsValid np "latch-invalid" buf v, tt)
          ]
        ]

    push_usable-Good :
        (body : Bytes) (buf : IngestBuffer F)
        → IsValid np buf
        → buf.current_context ≢ none
        → length body % bps ≡ 0
        → Good np (push_usable np now md dtype bps body buf)
    unfolding push_usable
    push_usable-Good body buf v labelled whole_samples =
        let test1 = has_chunks buf.chunks && md.gap_before in
        let r1 = flush_if test1 buf in
        let test2 = has_chunks r1.0.chunks && is_other np r1.0 dtype (is_true md.is_complex) bps in
        let r2 = flush_if test2 r1.0 in
        let g1 = flush_if-Good np test1 buf v in
        let g2 = flush_if-Good np test2 r1.0 g1.0 in
        let context1 = context-flush_if np test1 buf in
        let context2 = context-flush_if np test2 r1.0 in
        let g3 =
          store-Good body r2.0 g2.0 (λ e. labelled (sym (context2 ∙ context1) ∙ e))
            (same_bps-flush_if np r1.0 dtype (is_true md.is_complex) bps) whole_samples in
        (g3.0, All-append (IsWindow np) r1.1 _ g1.1 (All-append (IsWindow np) r2.1 _ g2.1 g3.1))

  push_data-Good :
      (now : F) (md : Metadata F) (body : Bytes) (buf : IngestBuffer F)
      → IsValid np buf
      → Good np (push_data np now md body buf)
  unfolding push_data drop_data
  push_data-Good now md body buf v = elim (Bool-cases (is_none buf.current_context || buf.inert)) [
    | inl cold ↦ rw cold (drop_data-IsValid np "no-usable-context" buf v, tt)
    | inr warm ↦ elim (Option-cases (usable md.dtype md.bytes_per_sample body)) [
      | inl e ↦ rw (warm, e, push_data) (drop_data-IsValid np "unusable-data" buf v, tt)
      | inr ((dtype, bps), e) ↦
          let (pos, whole_samples) = usable_inv md.dtype md.bytes_per_sample body dtype bps e in
          rw (warm, e, push_data)
            (push_usable-Good now md dtype bps pos body buf v (warm_context buf warm) whole_samples)
    ]
  ]

  adopt-IsValid :
      (ctx : Context F) (buf : IngestBuffer F) → IsValid np buf → IsValid np (adopt ctx buf)
  unfolding adopt
  adopt-IsValid ctx buf v = record {
    empty = v.empty;
    ready = λ h.
        let w = v.ready h in
        record {
          dtype = w.dtype;
          bps = w.bps;
          complex = w.complex;
          has_dtype = w.has_dtype;
          has_bps = w.has_bps;
          has_complex = w.has_complex;
          converted = w.converted;
          positive = w.positive;
          counted = w.counted;
          some_sample = w.some_sample;
          labelled = λ e. cc;
          timed = w.timed;
        };
    arrived = v.arrived;
    small = v.small;
  }

  pub init-IsValid :
      (max_samples : ℕ) (max_age_s : F) (k : StreamId) (fields : List Field)
      → IsValid np (init max_samples max_age_s k fields)
  unfolding init
  init-IsValid max_samples max_age_s k fields = record {
    empty = λ h. refl;
    ready = λ h. absurd (cc h);
    arrived = λ h. absurd (cc h);
    small = λ h. absurd (cc h);
  }

module _ {F Arr : Type 0} (fl : Floats F) (np : Numpy Arr) where
  -- Let the buffer be well formed: without chunks it counts no samples; with chunks it has a dtype,
  -- a size and a complexity that numpy converts, whole samples and their right count, fewer than
  -- `max_samples`, a context and both times. Then every window that `push` emits is convertible,
  -- non-empty, labelled and rightly counted, and the buffer is well formed again.
  pub push-Good :
      (now : F) (r : Record F) (buf : IngestBuffer F)
      → IsValid np buf
      → Good np (push fl np now r buf)
  unfolding push push_context
  push-Good now (context_record md ctx) buf v =
      let g = flush_if-Good np (has_chunks buf.chunks && differs fl buf ctx) buf v in
      (adopt-IsValid np ctx _ g.0, g.1)
  push-Good now (data_record md body) buf v = push_data-Good np now md body buf v

  pub age-Good :
      (now : F) (buf : IngestBuffer F) → IsValid np buf → Good np (maybe_flush_on_age fl now buf)
  unfolding maybe_flush_on_age
  age-Good now buf v = flush_if-Good np (has_chunks buf.chunks && is_old fl now buf) buf v
