-- ===== src/Buffer/Triggers.antt =====
-- What closes an open window of src/sceptre_pipeline/buffer.py: another context, or a gap.
use Prim.Native.String.{String}
use sceptre_pipeline.Prelude.{
  ℕ, ◌+◌, ◌/◌, ◌≡◌, refl, Bool, true, false, ◌&&◌, ◌||◌, some, List, [], ◌∷◌, arith, Bool-cases,
  Option-cases, ◌⊎◌, inl, inr, append-nil, length, leb,
}
use sceptre_pipeline.Prelude.Bytes.{Bytes}
use sceptre_pipeline.Floats.{Floats}
use sceptre_pipeline.Numpy.{Numpy}
use sceptre_pipeline.Context.{Context}
use sceptre_pipeline.Interpreter.{Metadata}
use sceptre_pipeline.Buffer.{
  IngestBuffer, Window, Field, join, has_chunks, is_true, is_none, window, flush, flush_if,
  drop_data, adopt, read, same_value, any_differs, differs, push_context, converts, is_other,
  latched, append, store, push_usable, usable, push_data,
}
use sceptre_pipeline.Buffer.Windows.{All, All-append}

abbrev pub IsIn : Field → List Field → Type 0
IsIn f [] = ⊥
IsIn f (g ∷ gs) = (f ≡ g) ⊎ IsIn f gs

module _ {F : Type 0} (fl : Floats F) (old new : Context F) where
  -- one key reads alike in both contexts
  abbrev pub alike : Field → Bool
  alike f = same_value fl (read f old) (read f new)

  any_differs_of :
      (f : Field) (fs : List Field) → IsIn f fs → alike f ≡ false → any_differs fl fs old new ≡ true
  any_differs_of f [] m h = absurd m
  any_differs_of f (g ∷ gs) (inl e) h = let k : alike g ≡ false = rw (← e) h in rw k
  any_differs_of f (g ∷ gs) (inr m) h = rw (any_differs_of f gs m h) (ground arith)

  none_differs :
      (fs : List Field) → All (λ f. alike f ≡ true) fs → any_differs fl fs old new ≡ false
  none_differs [] h = refl
  none_differs (f ∷ fs) h = rw (h.0, none_differs fs h.1)

and-false : (b : Bool) → (b && false) ≡ false
and-false true = refl
and-false false = refl

module _ {F : Type 0} (fl : Floats F) (buf : IngestBuffer F) (old new : Context F)
    (known : buf.current_context ≡ some old) where
  differs_known : differs fl buf new ≡ any_differs fl buf.flush_fields old new
  unfolding differs
  differs_known = rw (known, differs)

  -- Let a context be in force and a window be open. If a new context differs in a key of
  -- `flush_fields`, then the window is emitted, labelled with the old context, nothing is left
  -- open, and the new context is in force.
  pub push_context_change :
      (f : Field)
      → IsIn f buf.flush_fields
      → alike fl old new f ≡ false
      → has_chunks buf.chunks ≡ true
      → ((push_context fl new buf).1 ≡ window buf ∷ [])
        × ((window buf).context ≡ some old)
        × ((push_context fl new buf).0.chunks ≡ [])
        × ((push_context fl new buf).0.current_context ≡ some new)
  unfolding push_context flush_if flush adopt
  push_context_change f m h open_window =
      let d = any_differs_of fl old new f buf.flush_fields m h in
      (rw (differs_known, open_window, d), known, rw (differs_known, open_window, d), refl)

  -- Let a context be in force. If a new context agrees with it in every key of `flush_fields`, then
  -- nothing is emitted, the chunks and the sample count stay, and the new context is in force.
  pub push_context_heartbeat :
      All (λ f. alike fl old new f ≡ true) buf.flush_fields
      → ((push_context fl new buf).1 ≡ [])
        × ((push_context fl new buf).0.chunks ≡ buf.chunks)
        × ((push_context fl new buf).0.num_samples ≡ buf.num_samples)
        × ((push_context fl new buf).0.current_context ≡ some new)
  unfolding push_context flush_if flush adopt
  push_context_heartbeat h =
      let d = none_differs fl old new buf.flush_fields h in
      let quiet : (has_chunks buf.chunks && differs fl buf new) ≡ false =
        rw (differs_known, d) (and-false (has_chunks buf.chunks)) in
      (rw quiet, rw quiet, rw quiet, refl)

no_chunks : (xs : List Bytes) → has_chunks xs ≡ false → xs ≡ []
no_chunks [] h = refl
no_chunks (x ∷ xs) h = cc

not_dropped : {n : ℕ} → n + 1 ≡ n → ⊥
not_dropped h = omega arith

module _ {F Arr : Type 0} (np : Numpy Arr) where
  -- Nothing of what was open before is joined to `body`.
  abbrev Apart : Bytes → Bytes → IngestBuffer F × List (Window F) → Type 0
  Apart before body r =
      ((r.0.chunks ≡ []) ⊎ (r.0.chunks ≡ body ∷ []))
      × All (λ w. (w.raw ≡ before) ⊎ (w.raw ≡ body)) r.1

  append-Apart :
      (bps : ℕ) (before body : Bytes) (buf : IngestBuffer F)
      → buf.chunks ≡ []
      → Apart before body (append np bps body buf)
  unfolding append flush_if flush
  append-Apart bps before body buf none_open =
      elim (Bool-cases (leb buf.max_samples (buf.num_samples + length body / bps))) [
        | inl full ↦ rw (full, none_open) (inl refl, (inr (append-nil body), tt))
        | inr room ↦ rw (room, none_open) (inr refl, tt)
      ]

  store-Apart :
      (now : F) (md : Metadata F) (dtype : String) (bps : ℕ) (before body : Bytes)
      (buf : IngestBuffer F)
      → buf.chunks ≡ []
      → Apart before body (store np now md dtype bps body buf)
  unfolding store drop_data
  store-Apart now md dtype bps before [] buf e = (inl e, tt)
  store-Apart now md dtype bps before (x ∷ xs) buf e =
      let closed : has_chunks buf.chunks ≡ false = rw e in
      elim (Bool-cases (converts (np.dtype dtype) (is_true md.is_complex) bps)) [
        | inl c ↦
            rw (closed, c) (append-Apart bps before (x ∷ xs) (latched np now md dtype bps buf) e)
        | inr c ↦ rw (closed, c) (inl e, tt)
      ]

  flushed :
      (t : Bool) (buf : IngestBuffer F)
      → t ≡ true
      → (flush_if (has_chunks buf.chunks && t) buf).0.chunks ≡ []
  unfolding flush_if flush
  flushed t buf gap = elim (Bool-cases (has_chunks buf.chunks)) [
    | inl h ↦ rw (gap, h)
    | inr h ↦ rw (gap, h) (no_chunks buf.chunks h)
  ]

  flushed_raws :
      (t : Bool) (body : Bytes) (buf : IngestBuffer F)
      → t ≡ true
      → All
          (λ w. (w.raw ≡ join buf.chunks) ⊎ (w.raw ≡ body))
          (flush_if (has_chunks buf.chunks && t) buf).1
  unfolding flush_if flush
  flushed_raws t body buf gap = elim (Bool-cases (has_chunks buf.chunks)) [
    | inl h ↦ rw (gap, h) (inl refl, tt)
    | inr h ↦ rw (gap, h) tt
  ]

  quiet :
      (test : Bool) (buf : IngestBuffer F)
      → buf.chunks ≡ []
      → flush_if (has_chunks buf.chunks && test) buf ≡ (buf, [])
  unfolding flush_if
  quiet test buf e = let h : has_chunks buf.chunks ≡ false = rw e in rw h

  push_usable-Apart :
      (now : F) (md : Metadata F) (dtype : String) (bps : ℕ) (body : Bytes) (buf : IngestBuffer F)
      → md.gap_before ≡ true
      → Apart (join buf.chunks) body (push_usable np now md dtype bps body buf)
  unfolding push_usable
  push_usable-Apart now md dtype bps body buf gap =
      let b1 = (flush_if (has_chunks buf.chunks && md.gap_before) buf).0 in
      let e : b1.chunks ≡ [] = flushed md.gap_before buf gap in
      let r = store-Apart now md dtype bps (join buf.chunks) body b1 e in
      rw (quiet (is_other np b1 dtype (is_true md.is_complex) bps) b1 e)
        (r.0, All-append _ _ _ (flushed_raws md.gap_before body buf gap) r.1)

  -- If a data record has `gap_before` and is not dropped, then what is open afterwards is nothing
  -- or its samples alone, and every window emitted holds either what was open before or its samples
  -- alone.
  pub push_data_gap :
      (now : F) (md : Metadata F) (body : Bytes) (buf : IngestBuffer F)
      → md.gap_before ≡ true
      → (push_data np now md body buf).0.dropped ≡ buf.dropped
      → (((push_data np now md body buf).0.chunks ≡ [])
          ⊎ ((push_data np now md body buf).0.chunks ≡ body ∷ []))
        × All (λ w. (w.raw ≡ join buf.chunks) ⊎ (w.raw ≡ body)) (push_data np now md body buf).1
  unfolding push_data drop_data
  push_data_gap now md body buf gap taken =
      elim (Bool-cases (is_none buf.current_context || buf.inert)) [
        | inl cold ↦ absurd (not_dropped (rw cold at taken))
        | inr warm ↦ elim (Option-cases (usable md.dtype md.bytes_per_sample body)) [
          | inl e ↦ absurd (not_dropped (rw (warm, e, push_data) at taken))
          | inr ((dtype, bps), e) ↦
              rw (warm, e, push_data) (push_usable-Apart now md dtype bps body buf gap)
        ]
      ]
