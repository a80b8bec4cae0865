-- ===== src/Raising/Follows.antt =====
-- The methods of src/sceptre_pipeline/buffer.py and runtime.py under an emit callback that may raise
-- against those under one that returns.
use mathlib.Core.Path.{subst, fun_ext}
use sceptre_pipeline.Prelude.{
  ◌≡◌, refl, sym, ap, ◌∙◌, Bool, true, false, true≢false, Bool-cases, ◌⊎◌, inl, inr, List, [], ◌∷◌,
  ◌++◌, append-nil, append_assoc,
}
use sceptre_pipeline.Buffer.{Window}
use sceptre_pipeline.Raising.{Emit, Outcome, returned, behind, and_then, emit_one, emit_all, within}

module _ {S F A : Type 0} where
  and_then_of :
      (raised : Bool) (a : A) (s : S) (ws : List (Window F)) (k l : A → S → Outcome S F A)
      → let o : Outcome S F A = record { state = a; callback = s; handed = ws; raised = raised } in
        and_then (and_then o k) l ≡ and_then o (λ a' s'. and_then (k a' s') l)
  unfolding and_then
  and_then_of true a s ws k l = refl
  and_then_of false a s ws k l = elim (Bool-cases (k a s).raised) [
    | inl now ↦ rw now refl
    | inr later ↦ rw (later, append_assoc) refl
  ]

  pub and_then_assoc :
      (o : Outcome S F A) (k l : A → S → Outcome S F A)
      → and_then (and_then o k) l ≡ and_then o (λ a s. and_then (k a s) l)
  and_then_assoc o k l = and_then_of o.raised o.state o.callback o.handed k l

  -- what is seen of a call but for the object
  abbrev pub seen : Outcome S F A → Outcome S F (Unit {0})
  seen o = within (λ a. tt) o

module _ {S F : Type 0} (emit : Emit S F) where
  pub emit_all-append :
      (s : S) (xs ys : List (Window F))
      → emit_all emit s (xs ++ ys) ≡ and_then (emit_all emit s xs) (λ u s'. emit_all emit s' ys)
  unfolding emit_all and_then
  emit_all-append s [] ys = refl
  emit_all-append s (x ∷ xs) ys =
      ap (and_then (emit_one emit s x)) (fun_ext λ u. fun_ext λ s'. emit_all-append s' xs ys)
      ∙ sym (
          and_then_assoc (emit_one emit s x) (λ u s'. emit_all emit s' xs)
            (λ u s'. emit_all emit s' ys))

  -- The callback gets the windows `r.1` in order, up to the first on which it raises; without an
  -- exception the object is `r.0`.
  pub record Follows {A : Type 0} (s : S) (r : A × List (Window F)) (o : Outcome S F A)
      : Type 0 where
    pub emitted : seen o ≡ emit_all emit s r.1
    pub intact : (o.raised ≡ true) ⊎ (o.state ≡ r.0)

  pub Follows-returned : {A : Type 0} (s : S) (a : A) → Follows s (a, []) (returned a s)
  unfolding emit_all within
  Follows-returned s a = record { emitted = refl; intact = inr refl }

  -- the windows of two statements, as the callback sees those of the first
  pub emit_all-seen :
      (s : S) (xs ys : List (Window F)) (o : Outcome S F (Unit {0}))
      → o ≡ emit_all emit s xs
      → and_then o (λ u s'. emit_all emit s' ys) ≡ emit_all emit s (xs ++ ys)
  emit_all-seen s xs ys o e =
      ap (λ o'. and_then o' (λ u s'. emit_all emit s' ys)) e ∙ sym (emit_all-append s xs ys)

  module _ {A : Type 0} (s : S) (r : A × List (Window F)) (f : A → A × List (Window F))
      (k : A → S → Outcome S F A) (follows : (a : A) (s' : S) → Follows s' (f a) (k a s')) where
    and_then_of-Follows :
        (raised : Bool) (a : A) (c : S) (ws : List (Window F))
        → let o : Outcome S F A = record {
          state = a;
          callback = c;
          handed = ws;
          raised = raised;
        } in
          Follows s r o → Follows s ((f r.0).0, r.1 ++ (f r.0).1) (and_then o k)
    unfolding and_then within
    and_then_of-Follows true a c ws v = record {
      emitted = emit_all-seen s r.1 (f r.0).1 _ v.emitted;
      intact = inl refl;
    }
    and_then_of-Follows false a c ws v = elim v.intact [
      | inl e ↦ absurd (true≢false (sym e))
      | inr e ↦
          let w = follows a c in
          record {
            emitted =
                ap (behind ws) (w.emitted ∙ ap (λ a'. emit_all emit c (f a').1) e)
                ∙ emit_all-seen s r.1 (f r.0).1 _ v.emitted;
            intact = subst (λ a'. ((k a c).raised ≡ true) ⊎ ((k a c).state ≡ (f a').0)) e w.intact;
          }
    ]

    pub and_then-Follows :
        (o : Outcome S F A) → Follows s r o → Follows s ((f r.0).0, r.1 ++ (f r.0).1) (and_then o k)
    and_then-Follows o v = and_then_of-Follows o.raised o.state o.callback o.handed v

  pub within-Follows :
      {A B : Type 0} (s : S) (f : A → B) (r : A × List (Window F)) (o : Outcome S F A)
      → Follows s r o
      → Follows s (f r.0, r.1) (within f o)
  unfolding within
  within-Follows s f r o v = record {
    emitted = v.emitted;
    intact = elim v.intact [ inl e ↦ inl e | inr e ↦ inr (ap f e) ];
  }

  emit_one_of :
      (raised : Bool) (c : S) (ws : List (Window F))
      → let o : Outcome S F (Unit {0}) = record {
        state = tt;
        callback = c;
        handed = ws;
        raised = raised;
      } in
        o ≡ and_then o (λ u s. returned tt s)
  unfolding and_then
  emit_one_of true c ws = refl
  emit_one_of false c ws = rw (append-nil ws) refl

  pub emit_all-one : (s : S) (w : Window F) → emit_one emit s w ≡ emit_all emit s (w ∷ [])
  unfolding emit_all emit_one
  emit_all-one s w = emit_one_of (emit s w).1 (emit s w).0 (w ∷ [])

  -- a statement that emits nothing, behind another
  pub and_then_plain-Follows :
      {A : Type 0} (s : S) (r : A × List (Window F)) (f : A → A) (o : Outcome S F A)
      → Follows s r o
      → Follows s (f r.0, r.1) (and_then o (λ a s'. returned (f a) s'))
  and_then_plain-Follows s r f o v =
      subst (λ ws. Follows s (f r.0, ws) (and_then o (λ a s'. returned (f a) s'))) (append-nil r.1)
        (and_then-Follows s r (λ a. (f a, [])) (λ a s'. returned (f a) s')
          (λ a s'. Follows-returned s' (f a)) o v)
