-- ===== src/Buffer/Latched.antt =====
-- An `IngestBuffer` of src/sceptre_pipeline/buffer.py that may be appended to.
use Prim.Native.String.{String}
use sceptre_pipeline.Prelude.{
  ℕ, ◌+◌, ◌*◌, ◌/◌, ◌%◌, ◌<◌, ◌≡◌, ◌≢◌, refl, Bool, true, false, ◌&&◌, ◌||◌, Option, none, some,
  List, [], ◌∷◌, ◌++◌, length, leb, arith, Bool-cases, inl, inr, length-append, append-nil,
}
use sceptre_pipeline.Prelude.Bytes.{Bytes}
use sceptre_pipeline.Numpy.{Numpy}
use sceptre_pipeline.Buffer.Windows.{join-append, IsWindow, IsValid, Good, flush_window}
use sceptre_pipeline.Interpreter.{Metadata}
use sceptre_pipeline.Buffer.{
  IngestBuffer, join, has_chunks, is_true, is_none, window, flush, added, flush_if, drop_data,
  converts, is_other, latched, append, usable,
}

has_chunks-snoc : (xs : List Bytes) (x : Bytes) → has_chunks (xs ++ x ∷ []) ≡ true
has_chunks-snoc [] x = refl
has_chunks-snoc (y ∷ xs) x = refl

-- an append of whole samples
pub whole : (l bps : ℕ) → 0 < bps → l % bps ≡ 0 → 0 < l → (l / bps * bps ≡ l) × (0 < l / bps)
whole l bps p z q = (grind arith, grind arith)

no_chunks : (xs : List Bytes) → has_chunks xs ≡ false → join xs ≡ []
no_chunks [] h = refl
no_chunks (x ∷ xs) h = cc

pub usable_inv :
    (d : Option String) (n : Option ℕ) (body : Bytes) (dtype : String) (bps : ℕ)
    → usable d n body ≡ some (dtype, bps)
    → (0 < bps) × (length body % bps ≡ 0)
usable_inv none n body dtype bps e = cc
usable_inv (some d) none body dtype bps e = cc
usable_inv (some d) (some n) body dtype bps e = ground arith

pub warm_context :
    {F : Type 0} (buf : IngestBuffer F)
    → (is_none buf.current_context || buf.inert) ≡ false
    → buf.current_context ≢ none
warm_context buf h e = ground arith

module _ {F Arr : Type 0} (np : Numpy Arr) where
  -- What may be appended to: an empty buffer that is latched, or an open window.
  pub record IsLatched (buf : IngestBuffer F) (bps : ℕ) : Type 0 where
    pub dtype : String
    pub complex : Bool
    pub has_dtype : buf.component_dtype ≡ some dtype
    pub has_bps : buf.bytes_per_sample ≡ some bps
    pub has_complex : buf.is_complex ≡ some complex
    pub converted : converts (np.dtype dtype) complex bps ≡ true
    pub positive : 0 < bps
    pub counted : buf.num_samples * bps ≡ length (join buf.chunks)
    pub labelled : buf.current_context ≢ none
    pub timed : buf.start_timestamp ≢ none
    pub arrived : buf.first_arrival ≢ none

  module _ (bps : ℕ) (body : Bytes) (buf : IngestBuffer F) (l : IsLatched buf bps)
      (some_bytes : 0 < length body) (whole_samples : length body % bps ≡ 0) where
    added-IsWindow : IsWindow np (window (added np bps body buf))
    added-IsWindow =
        let (exact, more) = whole (length body) bps l.positive whole_samples some_bytes in
        record {
          dtype = l.dtype;
          bps = bps;
          complex = l.complex;
          has_dtype = l.has_dtype;
          has_bps = l.has_bps;
          has_complex = l.has_complex;
          converted = l.converted;
          positive = l.positive;
          counted =
              rw (join-append buf.chunks (body ∷ []), append-nil body, length-append)
                (omega (arith, l.counted));
          some_sample = omega arith;
          labelled = l.labelled;
          timed = l.timed;
        }

    pub append-Good : Good np (append np bps body buf)
    unfolding append flush_if
    append-Good = elim (Bool-cases (leb buf.max_samples (buf.num_samples + length body / bps))) [
      | inl full ↦ rw full (
          flush_window np (added np bps body buf) (λ h. added-IsWindow)
            (has_chunks-snoc buf.chunks body))
      | inr room ↦ rw room (
        record {
          empty = λ h. absurd (cc (h, has_chunks-snoc buf.chunks body));
          ready = λ h. added-IsWindow;
          arrived = λ h. l.arrived;
          small = λ h. ground arith;
        },
        tt,
      )
    ]

  -- an open window of the same interpretation may be appended to
  pub open-IsLatched :
      (buf : IngestBuffer F) (bps : ℕ)
      → IsValid np buf
      → has_chunks buf.chunks ≡ true
      → buf.bytes_per_sample ≡ some bps
      → IsLatched buf bps
  open-IsLatched buf bps v h e =
      let w = v.ready h in
      let same : w.bps ≡ bps = cc (w.has_bps, e) in
      record {
        dtype = w.dtype;
        complex = w.complex;
        has_dtype = w.has_dtype;
        has_bps = e;
        has_complex = w.has_complex;
        converted = rw (← same) w.converted;
        positive = rw (← same) w.positive;
        counted = rw (← same) w.counted;
        labelled = w.labelled;
        timed = w.timed;
        arrived = v.arrived h;
      }

  pub drop_data-IsValid :
      (reason : String) (buf : IngestBuffer F) → IsValid np buf → IsValid np (drop_data reason buf)
  unfolding drop_data
  drop_data-IsValid reason buf v = record {
    empty = v.empty;
    ready = v.ready;
    arrived = v.arrived;
    small = v.small;
  }

  pub context-flush_if :
      (test : Bool) (buf : IngestBuffer F)
      → (flush_if test buf).0.current_context ≡ buf.current_context
  unfolding flush_if flush
  context-flush_if test buf = ground arith

  -- after the flush on another interpretation, what is still open has this one
  pub same_bps-flush_if :
      (buf : IngestBuffer F) (dtype : String) (c : Bool) (bps : ℕ)
      → has_chunks (flush_if (has_chunks buf.chunks && is_other np buf dtype c bps) buf).0.chunks
        ≡ true
      → (flush_if (has_chunks buf.chunks && is_other np buf dtype c bps) buf).0.bytes_per_sample
        ≡ some bps
  unfolding flush_if flush
  same_bps-flush_if buf dtype c bps h = ground arith

  pub latched-IsLatched :
      (now : F) (md : Metadata F) (dtype : String) (bps : ℕ) (buf : IngestBuffer F)
      → IsValid np buf
      → has_chunks buf.chunks ≡ false
      → 0 < bps
      → buf.current_context ≢ none
      → converts (np.dtype dtype) (is_true md.is_complex) bps ≡ true
      → IsLatched (latched np now md dtype bps buf) bps
  latched-IsLatched now md dtype bps buf v h pos labelled e = record {
    dtype = dtype;
    complex = is_true md.is_complex;
    has_dtype = refl;
    has_bps = refl;
    has_complex = refl;
    converted = e;
    positive = pos;
    counted = rw (v.empty h, no_chunks buf.chunks h) (omega arith);
    labelled = labelled;
    timed = λ p. cc;
    arrived = λ p. cc;
  }
