-- ===== src/Context/Walk.antt =====
-- The CIF0 walk of src/sceptre_pipeline/interpreter.py: the bits that it visits, and where.
use Prim.Native.Nat.{suc, zero}
use native.Mathlib.Decide.{dec_le}
use native.Mathlib.Nat.{le_refl}
use sceptre_pipeline.Prelude.{
  ℕ, ◌+◌, ◌≤◌, ◌<◌, ◌≡◌, ◌≢◌, refl, ap, ==_iff, le→ltb, lt→ltb, inl, inr, true, false, Option, none,
  some, arith, ltb, ◌==◌, if◌then◌else◌, Bool-cases, Option-cases,
}
use sceptre_pipeline.Prelude.Bytes.{Bytes, slice}
use sceptre_pipeline.Floats.{Floats}
use sceptre_pipeline.Result.{Result, ok, err, value_error}
use sceptre_pipeline.Formats.{field_size}
use sceptre_pipeline.Context.{Context, Move, go, stop, is_set, decode_field, visit, walk}

abbrev pub size_or_0 : Option ℕ → ℕ
size_or_0 none = 0
size_or_0 (some n) = n

-- The bytes that the set bits below `n` occupy. Only the bits 10 to 30 have a size.
unfoldable pub span : ℕ → ℕ → ℕ
span cif zero = 0
span cif (suc n) = (if is_set cif n then size_or_0 (field_size n) else 0) + span cif n

field_size_ne_none : (bit : ℕ) → 10 ≤ bit → bit < 31 → field_size bit ≢ none
unfolding field_size
field_size_ne_none bit lo hi e = ground arith

pub field_size_low : (bit : ℕ) → bit < 10 → field_size bit ≡ none
unfolding field_size
field_size_low bit hi = ground arith

pub field_size_31 : field_size 31 ≡ none
unfolding field_size
field_size_31 = refl

bit_31 : (bit : ℕ) → 10 ≤ bit → bit < 32 → field_size bit ≡ none → bit ≡ 31
bit_31 bit lo hi e = elim (dec_le bit 30) [
  | yes p ↦ absurd (field_size_ne_none bit lo (omega arith) e)
  | no p ↦ omega arith
]

pub span-low : (cif n : ℕ) → n ≤ 10 → span cif n ≡ 0
unfolding span
span-low cif zero h = refl
span-low cif (suc n) h = ground (arith, field_size_low n, span-low cif n)

pub span_mono : (cif k n : ℕ) → k ≤ n → span cif k ≤ span cif n
unfolding span
span_mono cif k zero h = let e : k ≡ 0 = omega arith in rw e (le_refl _)
span_mono cif k (suc n) h = elim (dec_le k n) [
  | yes p ↦ omega (arith, span_mono cif k n p)
  | no p ↦ let e : k ≡ suc n = omega arith in rw e (le_refl _)
]

abbrev pub IsOk {ℓ} : {A : Type ℓ} → Result A → Type 0
IsOk (ok a) = Unit
IsOk (err e) = ⊥

module _ {F : Type 0} (fl : Floats F) (b : Bytes) (end_limit cif : ℕ) where
  -- What a round does, by the bit: nothing there; the indicator; the first bit with no fixed size;
  -- a field that is cut off; a field.
  pub data Visit (bit offset : ℕ) (ctx : Context F) (m : Move F) : Type 0 where
    skip : is_set cif bit ≡ false → m ≡ go offset ctx → Visit bit offset ctx m
    mark :
        bit ≡ 31
        → m ≡ go offset (record ctx { context_field_change = some true })
        → Visit bit offset ctx m
    halt : bit < 10 → m ≡ stop (ok ctx) → Visit bit offset ctx m
    cut :
        (size : ℕ)
        → is_set cif bit ≡ true
        → field_size bit ≡ some size
        → end_limit < offset + size
        → m ≡ stop (err value_error)
        → Visit bit offset ctx m
    field :
        (size : ℕ)
        → is_set cif bit ≡ true
        → field_size bit ≡ some size
        → offset + size ≤ end_limit
        → m ≡ go (offset + size) (decode_field fl bit (slice b offset size) ctx)
        → Visit bit offset ctx m

  -- the three ways of a round
  visit_skip :
      (bit offset : ℕ) (ctx : Context F)
      → is_set cif bit ≡ false
      → visit fl b end_limit cif bit offset ctx ≡ go offset ctx
  unfolding visit
  visit_skip bit offset ctx h = rw h

  visit_mark :
      (bit offset : ℕ) (ctx : Context F)
      → is_set cif bit ≡ true
      → bit ≡ 31
      → visit fl b end_limit cif bit offset ctx
        ≡ go offset (record ctx { context_field_change = some true })
  unfolding visit
  visit_mark bit offset ctx h e = rw (h, (==_iff bit 31).1 e)

  visit-stop :
      (bit offset : ℕ) (ctx : Context F)
      → is_set cif bit ≡ true
      → bit < 10
      → visit fl b end_limit cif bit offset ctx ≡ stop (ok ctx)
  unfolding visit
  visit-stop bit offset ctx h lo = rw (h, field_size_low bit lo) (ground arith)

  visit_field :
      (bit size offset : ℕ) (ctx : Context F)
      → is_set cif bit ≡ true
      → field_size bit ≡ some size
      → visit fl b end_limit cif bit offset ctx ≡ (
          if ltb end_limit (offset + size)
          then stop (err value_error)
          else go (offset + size) (decode_field fl bit (slice b offset size) ctx))
  unfolding visit
  visit_field bit size offset ctx h e = elim (Bool-cases (bit == 31)) [
    | inl q ↦ absurd (cc (field_size_31, ap field_size ((==_iff bit 31).0 q)))
    | inr q ↦ rw (h, q, e)
  ]

  pub visit-cases :
      (bit offset : ℕ) (ctx : Context F)
      → bit < 32
      → Visit bit offset ctx (visit fl b end_limit cif bit offset ctx)
  visit-cases bit offset ctx lt = elim (Bool-cases (is_set cif bit)) [
    | inr clear ↦ skip clear (visit_skip bit offset ctx clear)
    | inl set ↦ elim (Option-cases (field_size bit)) [
      | inl e ↦ elim (dec_le 10 bit) [
        | yes hi ↦ let top = bit_31 bit hi lt e in mark top (visit_mark bit offset ctx set top)
        | no lo ↦ halt (omega arith) (visit-stop bit offset ctx set (omega arith))
      ]
      | inr (size, e) ↦ elim (dec_le (offset + size) end_limit) [
        | yes p ↦
            field size set e p
              (rw (visit_field bit size offset ctx set e, le→ltb end_limit (offset + size) p))
        | no p ↦ cut size set e (omega arith) (
            rw (
              visit_field bit size offset ctx set e,
              lt→ltb end_limit (offset + size) (omega arith),
            ))
      ]
    ]
  ]

  abbrev pub run : ℕ → ℕ → Context F → Result (Context F)
  run = walk fl b end_limit cif

  pub run_go :
      (n offset : ℕ) (ctx : Context F) {o : ℕ} {c : Context F}
      → visit fl b end_limit cif n offset ctx ≡ go o c
      → run (suc n) offset ctx ≡ run n o c
  unfolding walk
  run_go n offset ctx e = rw (e, walk)

  pub run-stop :
      (n offset : ℕ) (ctx : Context F) {r : Result (Context F)}
      → visit fl b end_limit cif n offset ctx ≡ stop r
      → run (suc n) offset ctx ≡ r
  unfolding walk
  run-stop n offset ctx e = rw (e, walk)

  -- what a bit adds to the bytes below it
  pub span_clear : (n : ℕ) → is_set cif n ≡ false → span cif (suc n) ≡ span cif n
  unfolding span
  span_clear n h = rw h (omega arith)

  pub span-none : (n : ℕ) → field_size n ≡ none → span cif (suc n) ≡ span cif n
  unfolding span
  span-none n h = ground arith

  pub span_field :
      (n size : ℕ)
      → is_set cif n ≡ true
      → field_size n ≡ some size
      → span cif (suc n) ≡ size + span cif n
  unfolding span
  span_field n size h e = rw (h, e)

  pub span_top : (n : ℕ) → n ≡ 31 → span cif (suc n) ≡ span cif n
  span_top n e = span-none n (rw e field_size_31)

  pub IsOk-of_fits :
      (n offset : ℕ) (ctx : Context F)
      → n ≤ 32
      → offset + span cif n ≤ end_limit
      → IsOk (run n offset ctx)
  unfolding walk
  IsOk-of_fits zero offset ctx le fits = tt
  IsOk-of_fits (suc n) offset ctx le fits = elim (visit-cases n offset ctx le) [
    | skip clear e ↦
        rw (run_go n offset ctx e)
          (IsOk-of_fits n _ _ (omega arith) (omega (arith, span_clear n clear)))
    | mark top e ↦
        rw (run_go n offset ctx e)
          (IsOk-of_fits n _ _ (omega arith) (omega (arith, span_top n top)))
    | halt lo e ↦ rw (run-stop n offset ctx e) tt
    | cut size set e long m ↦ absurd (omega (arith, span_field n size set e))
    | field size set e p m ↦
        rw (run_go n offset ctx m)
          (IsOk-of_fits n _ _ (omega arith) (omega (arith, span_field n size set e)))
  ]

  pub fits_of_ok :
      (n offset : ℕ) (ctx : Context F)
      → n ≤ 32
      → offset ≤ end_limit
      → IsOk (run n offset ctx)
      → offset + span cif n ≤ end_limit
  unfolding span
  fits_of_ok zero offset ctx le inside good = omega arith
  fits_of_ok (suc n) offset ctx le inside good = elim (visit-cases n offset ctx le) [
    | skip clear e ↦ omega (
      arith,
      fits_of_ok n offset ctx (omega arith) inside (rw (run_go n offset ctx e) at good),
      span_clear n clear,
    )
    | mark top e ↦ omega (
      arith,
      fits_of_ok n offset _ (omega arith) inside (rw (run_go n offset ctx e) at good),
      span_top n top,
    )
    | halt lo e ↦ omega (arith, span-low cif (suc n) (omega arith))
    | cut size set e long m ↦ absurd (rw (run-stop n offset ctx m) at good)
    | field size set e p m ↦ omega (
      arith,
      fits_of_ok n _ _ (omega arith) p (rw (run_go n offset ctx m) at good),
      span_field n size set e,
    )
  ]
