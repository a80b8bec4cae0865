-- ===== src/Raising/Cut.antt =====
-- What a call on an `IngestBuffer` of src/sceptre_pipeline/buffer.py leaves when the emit callback
-- may raise.
use Prim.Native.String.{String}
use mathlib.Core.Path.{subst}
use sceptre_pipeline.Prelude.{
  ℕ, ◌≡◌, refl, sym, ap, ◌∙◌, Bool, true, false, Bool-cases, Option-cases, ◌&&◌, ◌||◌, ◌⊎◌, inl,
  inr, List, [], ◌∷◌, ◌++◌, append-nil, if◌then◌else◌,
}
use sceptre_pipeline.Prelude.Bytes.{Bytes}
use sceptre_pipeline.Floats.{Floats}
use sceptre_pipeline.Numpy.{Numpy}
use sceptre_pipeline.Context.{Context}
use sceptre_pipeline.Interpreter.{Metadata, Record, context_record, data_record}
use sceptre_pipeline.Buffer.{
  IngestBuffer, Window, is_true, has_chunks, is_none, converts, usable, latched, adopt, is_other,
}
use sceptre_pipeline.Buffer
use sceptre_pipeline.Raising.{Emit, Outcome, returned, and_then}
use sceptre_pipeline.Raising.Buffer as RaisingBuffer

-- the same, behind earlier windows
abbrev pub prefixed : {F A : Type 0} → List (Window F) → A × List (Window F) → A × List (Window F)
prefixed ws x = (x.0, ws ++ x.1)

prefixed_same :
    {F A : Type 0} (ws xs : List (Window F)) (x y : A × List (Window F))
    → ws ≡ xs
    → x ≡ y
    → prefixed ws x ≡ prefixed xs y
prefixed_same ws xs x y e e' = ap (λ zs. prefixed zs x) e ∙ ap (prefixed xs) e'

module _ {S F A : Type 0} where
  -- the object and the windows handed over
  abbrev pub left : Outcome S F A → A × List (Window F)
  left o = (o.state, o.handed)

  -- The call did all that `r` says, or an exception left it with something that `Q` allows.
  abbrev pub Partly : A × List (Window F) → (A × List (Window F) → Type 0) → Outcome S F A → Type 0
  Partly r Q o = (left o ≡ r) ⊎ ((o.raised ≡ true) × Q (left o))

  module _ (r : A × List (Window F)) (f : A → A × List (Window F)) (k : A → S → Outcome S F A)
      (Q Q' : A × List (Window F) → Type 0) (rest : (s : S) → Partly (f r.0) Q (k r.0 s))
      (alone : Q' r) (both : (x : A × List (Window F)) → Q x → Q' (prefixed r.1 x)) where
    and_then_of-Partly :
        (raised : Bool) (a : A) (c : S) (ws : List (Window F))
        → (a, ws) ≡ r
        → let o : Outcome S F A = record {
          state = a;
          callback = c;
          handed = ws;
          raised = raised;
        } in
          Partly (prefixed r.1 (f r.0)) Q' (and_then o k)
    unfolding and_then
    and_then_of-Partly true a c ws e = inr (refl, subst Q' (sym e) alone)
    and_then_of-Partly false a c ws e =
        let ws_eq = ap (λ x. x.1) e in
        elim (subst (λ a'. Partly (f r.0) Q (k a' c)) (sym (ap (λ x. x.0) e)) (rest c)) [
          | inl same ↦ inl (prefixed_same ws r.1 (left (k a c)) (f r.0) ws_eq same)
          | inr (over, q) ↦ inr (
            over,
            subst Q' (sym (prefixed_same ws r.1 (left (k a c)) (left (k a c)) ws_eq refl))
                (both (left (k a c)) q),
          )
        ]

    -- A statement that does all, before one that may not.
    pub and_then-Partly :
        (o : Outcome S F A) → left o ≡ r → Partly (prefixed r.1 (f r.0)) Q' (and_then o k)
    and_then-Partly o e = and_then_of-Partly o.raised o.state o.callback o.handed e

module _ {F : Type 0} where
  -- what a flush or nothing leaves
  abbrev pub IsFlush : IngestBuffer F → IngestBuffer F × List (Window F) → Type 0
  IsFlush buf r = (test : Bool) × (r ≡ Buffer.flush_if test buf)

  -- Two flushes in turn are one.
  IsFlush-twice :
      (test more : Bool) (buf : IngestBuffer F)
      → let b = (Buffer.flush_if test buf).0 in
        let r = Buffer.flush_if (has_chunks b.chunks && more) b in
        IsFlush buf (prefixed (Buffer.flush_if test buf).1 r)
  unfolding Buffer.flush_if Buffer.flush
  IsFlush-twice false more buf = (has_chunks buf.chunks && more, refl)
  IsFlush-twice true more buf = elim (Bool-cases (has_chunks buf.chunks)) [
    | inl h ↦ rw h (true, refl)
    | inr h ↦ rw (h, h) (false, refl)
  ]

module _ {S F : Type 0} where
  if_same :
      {A : Type 0} (b : Bool) (x y : A × List (Window F)) (o o' : Outcome S F A)
      → left o ≡ x
      → left o' ≡ y
      → left (if b then o else o') ≡ (if b then x else y)
  if_same true x y o o' h h' = h
  if_same false x y o o' h h' = h'

  module _ (emit : Emit S F) where
    pub flush-left :
        (s : S) (buf : IngestBuffer F) → left (RaisingBuffer.flush emit s buf) ≡ Buffer.flush buf
    unfolding RaisingBuffer.flush Buffer.flush
    flush-left s buf = if_same (has_chunks buf.chunks) _ _ _ _ refl refl

    pub flush_if-left :
        (test : Bool) (s : S) (buf : IngestBuffer F)
        → left (RaisingBuffer.flush_if emit test s buf) ≡ Buffer.flush_if test buf
    unfolding RaisingBuffer.flush_if Buffer.flush_if
    flush_if-left test s buf = if_same test _ _ _ _ (flush-left s buf) refl

    pub age-left :
        (fl : Floats F) (now : F) (s : S) (buf : IngestBuffer F)
        → left (RaisingBuffer.maybe_flush_on_age emit fl now s buf)
          ≡ Buffer.maybe_flush_on_age fl now buf
    unfolding RaisingBuffer.maybe_flush_on_age Buffer.maybe_flush_on_age
    age-left fl now s buf = flush_if-left _ s buf

    -- The call did all that it does under a callback that returns, or it was left by an exception
    -- when it had done a flush and no more.
    abbrev pub Cut :
        IngestBuffer F → IngestBuffer F × List (Window F) → Outcome S F (IngestBuffer F) → Type 0
    Cut buf r o = Partly r (IsFlush buf) o

    push_context-Cut :
        (fl : Floats F) (ctx : Context F) (s : S) (buf : IngestBuffer F)
        → Cut buf (Buffer.push_context fl ctx buf) (RaisingBuffer.push_context emit fl ctx s buf)
    unfolding Buffer.push_context RaisingBuffer.push_context
    push_context-Cut fl ctx s buf =
        let test = has_chunks buf.chunks && Buffer.differs fl buf ctx in
        let r = Buffer.flush_if test buf in
        subst (λ ws. Cut buf (adopt ctx r.0, ws) (RaisingBuffer.push_context emit fl ctx s buf))
          (append-nil r.1)
          (and_then-Partly r (λ b. (adopt ctx b, [])) (λ b s'. returned (adopt ctx b) s') (λ x. ⊥)
            (IsFlush buf) (λ s'. inl refl) (test, refl) (λ x q. absurd q) _
            (flush_if-left test s buf))

  module _ {Arr : Type 0} (emit : Emit S F) (np : Numpy Arr) where
    store-left :
        (now : F) (md : Metadata F) (dtype : String) (bps : ℕ) (body : Bytes) (s : S)
        (buf : IngestBuffer F)
        → left (RaisingBuffer.store emit np now md dtype bps body s buf)
          ≡ Buffer.store np now md dtype bps body buf
    unfolding Buffer.store RaisingBuffer.store Buffer.append RaisingBuffer.append
    store-left now md dtype bps [] s buf = refl
    store-left now md dtype bps (x ∷ xs) s buf =
        if_same (has_chunks buf.chunks) _ _ _ _ (flush_if-left emit _ s _) (
          if_same (converts (np.dtype dtype) (is_true md.is_complex) bps) _ _ _ _
            (flush_if-left emit _ s _) refl)

    push_usable-Cut :
        (now : F) (md : Metadata F) (dtype : String) (bps : ℕ) (body : Bytes) (s : S)
        (buf : IngestBuffer F)
        → Cut emit buf
            (Buffer.push_usable np now md dtype bps body buf)
            (RaisingBuffer.push_usable emit np now md dtype bps body s buf)
    unfolding Buffer.push_usable RaisingBuffer.push_usable
    push_usable-Cut now md dtype bps body s buf =
        let test1 = has_chunks buf.chunks && md.gap_before in
        let r1 = Buffer.flush_if test1 buf in
        let more : IngestBuffer F → Bool = λ b. is_other np b dtype (is_true md.is_complex) bps in
        let r2 : IngestBuffer F → IngestBuffer F × List (Window F) =
          λ b. Buffer.flush_if (has_chunks b.chunks && more b) b in
        let inner : (b : IngestBuffer F) (s' : S)
            → Partly (prefixed (r2 b).1 (Buffer.store np now md dtype bps body (r2 b).0))
                (λ x. x ≡ r2 b)
                (and_then (RaisingBuffer.flush_if emit (has_chunks b.chunks && more b) s' b)
                  (λ b' s''. RaisingBuffer.store emit np now md dtype bps body s'' b')) =
          λ b s'.
            and_then-Partly (r2 b) (λ b'. Buffer.store np now md dtype bps body b')
              (λ b' s''. RaisingBuffer.store emit np now md dtype bps body s'' b') (λ x. ⊥)
              (λ x. x ≡ r2 b) (λ s''. inl (store-left now md dtype bps body s'' _)) refl
              (λ x q. absurd q) _ (flush_if-left emit _ s' b) in
        and_then-Partly r1 (λ b. prefixed (r2 b).1 (Buffer.store np now md dtype bps body (r2 b).0))
          (λ b s'.
            and_then (RaisingBuffer.flush_if emit (has_chunks b.chunks && more b) s' b)
              (λ b' s''. RaisingBuffer.store emit np now md dtype bps body s'' b'))
          (λ x. x ≡ r2 r1.0) (IsFlush buf) (inner r1.0) (test1, refl)
          (λ x q.
            subst (λ y. IsFlush buf (prefixed r1.1 y)) (sym q)
              (IsFlush-twice test1 (more r1.0) buf))
          _ (flush_if-left emit _ s buf)

    push_data-Cut :
        (now : F) (md : Metadata F) (body : Bytes) (s : S) (buf : IngestBuffer F)
        → Cut emit buf
            (Buffer.push_data np now md body buf)
            (RaisingBuffer.push_data emit np now md body s buf)
    unfolding Buffer.push_data RaisingBuffer.push_data
    push_data-Cut now md body s buf = elim (Bool-cases (is_none buf.current_context || buf.inert)) [
      | inl cold ↦ rw cold (inl refl)
      | inr warm ↦ elim (Option-cases (usable md.dtype md.bytes_per_sample body)) [
        | inl e ↦ rw (warm, e, Buffer.push_data, RaisingBuffer.push_data) (inl refl)
        | inr ((dtype, bps), e) ↦
            rw (warm, e, Buffer.push_data, RaisingBuffer.push_data)
              (push_usable-Cut now md dtype bps body s buf)
      ]
    ]

    pub push-Cut :
        (fl : Floats F) (now : F) (r : Record F) (s : S) (buf : IngestBuffer F)
        → Cut emit buf (Buffer.push fl np now r buf) (RaisingBuffer.push emit np fl now r s buf)
    unfolding Buffer.push RaisingBuffer.push
    push-Cut fl now (context_record md ctx) s buf = push_context-Cut emit fl ctx s buf
    push-Cut fl now (data_record md body) s buf = push_data-Cut now md body s buf
