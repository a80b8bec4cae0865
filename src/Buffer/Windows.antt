-- ===== src/Buffer/Windows.antt =====
-- The invariant of an `IngestBuffer` of src/sceptre_pipeline/buffer.py, and of a window.
use Prim.Native.String.{String}
use sceptre_pipeline.Prelude.{
  ℕ, ◌*◌, ◌<◌, ◌≡◌, ◌≢◌, refl, Bool, true, false, none, some, List, [], ◌∷◌, ◌++◌, length,
  Bool-cases, inl, inr, append_assoc,
}
use sceptre_pipeline.Prelude.Bytes.{Bytes}
use sceptre_pipeline.Numpy.{Numpy}
use sceptre_pipeline.Buffer.{
  IngestBuffer, Window, join, has_chunks, window, reset, flush, flush_if, converts,
}

module _ {A : Type 0} (P : A → Type 0) where
  -- the predicate, of every element
  abbrev pub All : List A → Type 0
  All [] = Unit
  All (w ∷ ws) = P w × All ws

  pub All-append : (before after : List A) → All before → All after → All (before ++ after)
  All-append [] after here there = there
  All-append (w ∷ before) after (first, here) there = (first, All-append before after here there)

pub join-append : (xs ys : List Bytes) → join (xs ++ ys) ≡ join xs ++ join ys
join-append [] ys = refl
join-append (x ∷ xs) ys = rw (join-append xs ys, append_assoc)

module _ {F Arr : Type 0} (np : Numpy Arr) where
  -- A window that can be converted: a numeric dtype whose items, one or two to a sample, make up the
  -- bytes per sample, and whole samples, at least one, under a context.
  pub record IsWindow (w : Window F) : Type 0 where
    pub dtype : String
    pub bps : ℕ
    pub complex : Bool
    pub has_dtype : w.component_dtype ≡ some dtype
    pub has_bps : w.bytes_per_sample ≡ some bps
    pub has_complex : w.is_complex ≡ some complex
    pub converted : converts (np.dtype dtype) complex bps ≡ true
    pub positive : 0 < bps
    pub counted : w.num_samples * bps ≡ length w.raw
    pub some_sample : 0 < w.num_samples
    pub labelled : w.context ≢ none
    pub timed : w.start_timestamp ≢ none

  -- An open window has what a flush needs, a first arrival, and fewer samples than `max_samples`.
  pub record IsValid (buf : IngestBuffer F) : Type 0 where
    pub empty : has_chunks buf.chunks ≡ false → buf.num_samples ≡ 0
    pub ready : has_chunks buf.chunks ≡ true → IsWindow (window buf)
    pub arrived : has_chunks buf.chunks ≡ true → buf.first_arrival ≢ none
    pub small : has_chunks buf.chunks ≡ true → buf.num_samples < buf.max_samples

  abbrev pub Good : IngestBuffer F × List (Window F) → Type 0
  Good r = IsValid r.0 × All IsWindow r.1

  pub reset-IsValid : (buf : IngestBuffer F) → IsValid (reset buf)
  reset-IsValid buf = record {
    empty = λ h. refl;
    ready = λ h. absurd (cc h);
    arrived = λ h. absurd (cc h);
    small = λ h. absurd (cc h);
  }

  pub flush_window :
      (buf : IngestBuffer F)
      → (has_chunks buf.chunks ≡ true → IsWindow (window buf))
      → has_chunks buf.chunks ≡ true
      → Good (flush buf)
  unfolding flush
  flush_window buf w h = rw h (reset-IsValid buf, (w h, tt))

  pub flush_if-Good : (test : Bool) (buf : IngestBuffer F) → IsValid buf → Good (flush_if test buf)
  unfolding flush_if flush
  flush_if-Good false buf v = (v, tt)
  flush_if-Good true buf v = elim (Bool-cases (has_chunks buf.chunks)) [
    | inl h ↦ flush_window buf v.ready h
    | inr h ↦ rw h (v, tt)
  ]
