-- ===== src/Raising/Buffer.antt =====
-- `IngestBuffer` of src/sceptre_pipeline/buffer.py under an emit callback that may raise.
use Prim.Native.String.{String}
use sceptre_pipeline.Prelude.{
  ℕ, ◌+◌, ◌/◌, Bool, ◌&&◌, ◌||◌, none, some, [], ◌∷◌, length, leb, if◌then◌else◌,
}
use sceptre_pipeline.Prelude.Bytes.{Bytes}
use sceptre_pipeline.Floats.{Floats}
use sceptre_pipeline.Numpy.{Numpy}
use sceptre_pipeline.Context.{Context}
use sceptre_pipeline.Interpreter.{Metadata, Record, context_record, data_record}
use sceptre_pipeline.Buffer.{
  IngestBuffer, is_true, has_chunks, is_none, converts, usable, window, reset, drop_data, adopt,
  differs, is_old, is_other, latched, added,
}
use sceptre_pipeline.Raising.{Emit, Outcome, returned, and_then}

module _ {S F : Type 0} (emit : Emit S F) where
  -- `flush`, which resets the accumulation before it emits
  unfoldable pub flush : S → IngestBuffer F → Outcome S F (IngestBuffer F)
  flush s buf =
      let (s', raised) = emit s (window buf) in
      if has_chunks buf.chunks
      then record { state = reset buf; callback = s'; handed = window buf ∷ []; raised = raised }
      else returned buf s

  -- `if test: self.flush()`
  unfoldable pub flush_if : Bool → S → IngestBuffer F → Outcome S F (IngestBuffer F)
  unfolding flush
  flush_if test s buf = if test then flush s buf else returned buf s

  -- `_push_context`
  unfoldable pub push_context :
      Floats F → Context F → S → IngestBuffer F → Outcome S F (IngestBuffer F)
  push_context fl ctx s buf =
      and_then (flush_if (has_chunks buf.chunks && differs fl buf ctx) s buf)
        (λ buf' s'. returned (adopt ctx buf') s')

  -- `maybe_flush_on_age`
  unfoldable pub maybe_flush_on_age :
      Floats F → F → S → IngestBuffer F → Outcome S F (IngestBuffer F)
  maybe_flush_on_age fl now s buf = flush_if (has_chunks buf.chunks && is_old fl now buf) s buf

module _ {S F Arr : Type 0} (emit : Emit S F) (np : Numpy Arr) where
  -- the append, and the size trigger
  unfoldable pub append : ℕ → Bytes → S → IngestBuffer F → Outcome S F (IngestBuffer F)
  append bps body s buf =
      flush_if emit (leb buf.max_samples (buf.num_samples + length body / bps)) s
        (added np bps body buf)

  -- what follows the two flushes of `_push_data`
  unfoldable pub store :
      F → Metadata F → String → ℕ → Bytes → S → IngestBuffer F → Outcome S F (IngestBuffer F)
  store now md dtype bps [] s buf = returned buf s
  store now md dtype bps (x ∷ xs) s buf =
      if has_chunks buf.chunks
      then append bps (x ∷ xs) s buf
      else if converts (np.dtype dtype) (is_true md.is_complex) bps
      then append bps (x ∷ xs) s (latched np now md dtype bps buf)
      else returned (drop_data "latch-invalid" buf) s

  -- `_push_data` on a record that it can use
  unfoldable pub push_usable :
      F → Metadata F → String → ℕ → Bytes → S → IngestBuffer F → Outcome S F (IngestBuffer F)
  push_usable now md dtype bps body s buf =
      and_then (flush_if emit (has_chunks buf.chunks && md.gap_before) s buf) λ buf1 s1.
        and_then
          (flush_if emit
            (has_chunks buf1.chunks && is_other np buf1 dtype (is_true md.is_complex) bps) s1 buf1)
          (λ buf2 s2. store now md dtype bps body s2 buf2)

  -- `_push_data`
  unfoldable pub push_data :
      F → Metadata F → Bytes → S → IngestBuffer F → Outcome S F (IngestBuffer F)
  push_data now md body s buf =
      if is_none buf.current_context || buf.inert
      then returned (drop_data "no-usable-context" buf) s
      else elim (usable md.dtype md.bytes_per_sample body) [
        | none ↦ returned (drop_data "unusable-data" buf) s
        | some (dtype, bps) ↦ push_usable now md dtype bps body s buf
      ]

  -- `push`
  unfoldable pub push : Floats F → F → Record F → S → IngestBuffer F → Outcome S F (IngestBuffer F)
  push fl now (context_record md ctx) s buf = push_context emit fl ctx s buf
  push fl now (data_record md body) s buf = push_data now md body s buf
