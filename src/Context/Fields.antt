-- ===== src/Context/Fields.antt =====
-- `decode_context` of src/sceptre_pipeline/interpreter.py: when it returns, and from which bytes.
use Prim.Native.Nat.{suc, zero}
use native.Mathlib.Decide.{dec_le, ℕ_discrete}
use sceptre_pipeline.Prelude.{
  ℕ, ◌+◌, ◌-◌, ◌≤◌, ◌<◌, ◌≡◌, ◌≢◌, ◌∙◌, sym, refl, ap, ◌↔◌, true, none, some, arith, le→ltb, lt→ltb,
  if◌then◌else◌,
}
use sceptre_pipeline.Prelude.Bytes.{Bytes, slice, from_be}
use sceptre_pipeline.Floats.{Floats}
use sceptre_pipeline.Result.{ok, err, value_error, ok-injective, err-ne-ok}
use sceptre_pipeline.Formats.{field_size}
use sceptre_pipeline.Header.{Header}
use sceptre_pipeline.Payload.{PayloadFormat, decode_payload_format}
use sceptre_pipeline.Context.{
  Context, empty_context, is_set, freq, gain, decode_field, walk, end_limit_of, cif_of,
  decode_context,
}
use sceptre_pipeline.Context.Walk.{
  field_size_low, field_size_31, span, span_mono, IsOk, Visit, visit-cases, run_go, run-stop,
  span_clear, span_field, span_top, IsOk-of_fits, fits_of_ok,
}

module _ {F : Type 0} (fl : Floats F) where
  module _ (b : Bytes) (hdr : Header) where
    abbrev start : ℕ
    start = hdr.header_len + 4

    decode_lem :
        start ≤ end_limit_of fl b hdr
        → decode_context fl b hdr
          ≡ walk fl b (end_limit_of fl b hdr) (cif_of fl b hdr) 32 start empty_context
    unfolding decode_context
    decode_lem h = rw (le→ltb _ _ h)

    cut : ¬ (start ≤ end_limit_of fl b hdr) → err value_error ≡ decode_context fl b hdr
    unfolding decode_context
    cut p = rw (lt→ltb (end_limit_of fl b hdr) start (omega arith))

    -- `decode_context` returns just if the header, the CIF0 word and the fields of all set bits
    -- with a fixed size lie within both the datagram and the declared packet; else it raises.
    pub decode_context_iff :
        IsOk (decode_context fl b hdr)
        ↔ (hdr.header_len + 4 + span (cif_of fl b hdr) 32 ≤ end_limit_of fl b hdr)
    unfolding decode_context
    decode_context_iff = elim (dec_le start (end_limit_of fl b hdr)) [
      | yes p ↦ rw (decode_lem p) (
        fits_of_ok fl b _ _ 32 start empty_context (omega arith) p,
        IsOk-of_fits fl b _ _ 32 start empty_context (omega arith),
      )
      | no p ↦
          rw (lt→ltb (end_limit_of fl b hdr) start (omega arith))
            (λ h. absurd h, λ h. absurd (omega arith))
    ]

  -- One key of the dict, written by the field of the bit `k` alone.
  module _ {X : Type 0} (key : Context F → X) (k size : ℕ) (value : Bytes → X)
      (other : (bit : ℕ) (f : Bytes) (c : Context F)
        → bit ≢ k
        → key (decode_field fl bit f c) ≡ key c)
      (here : (f : Bytes) (c : Context F) → key (decode_field fl k f c) ≡ value f)
      (mark : (c : Context F) → key (record c { context_field_change = some true }) ≡ key c)
      (sized : field_size k ≡ some size) (b : Bytes) (end_limit cif : ℕ) where
    -- the field's own offset moves past each field above it
    shift :
        (n s offset : ℕ)
        → is_set cif n ≡ true
        → field_size n ≡ some s
        → k < n
        → offset + (span cif (suc n) - span cif (suc k))
          ≡ offset + s + (span cif n - span cif (suc k))
    shift n s offset set t lt =
        omega (arith, span_field fl b end_limit cif n s set t, span_mono cif (suc k) n lt)

    no_shift : (offset : ℕ) → offset + (span cif (suc k) - span cif (suc k)) ≡ offset
    no_shift offset = omega arith

    key-below :
        (n offset : ℕ) (c c' : Context F)
        → n ≤ k
        → n ≤ 32
        → walk fl b end_limit cif n offset c ≡ ok c'
        → key c' ≡ key c
    unfolding walk
    key-below zero offset c c' le le' e = ap key (sym (ok-injective e))
    key-below (suc n) offset c c' le le' e = elim (visit-cases fl b end_limit cif n offset c le') [
      | Visit.skip clear m ↦
          key-below n offset c c' (omega arith) (omega arith)
            (rw (run_go fl b end_limit cif n offset c m) at e)
      | Visit.mark top m ↦
          key-below n offset _ c' (omega arith) (omega arith)
            (rw (run_go fl b end_limit cif n offset c m) at e)
          ∙ mark c
      | Visit.halt lo m ↦
          ap key (sym (ok-injective (rw (run-stop fl b end_limit cif n offset c m) at e)))
      | Visit.cut s set t long m ↦
          absurd (err-ne-ok (rw (run-stop fl b end_limit cif n offset c m) at e))
      | Visit.field s set t p m ↦
          key-below n (offset + s) _ c' (omega arith) (omega arith)
            (rw (run_go fl b end_limit cif n offset c m) at e)
          ∙ other n _ c (omega arith)
    ]

    abbrev found : ℕ → Context F → X
    found offset c = if is_set cif k then value (slice b offset size) else key c

    sized_ne_none : field_size k ≢ none
    sized_ne_none e = cc (sized, e)

    key-here :
        (offset : ℕ) (c c' : Context F)
        → k < 32
        → walk fl b end_limit cif (suc k) offset c ≡ ok c'
        → key c' ≡ found (offset + (span cif (suc k) - span cif (suc k))) c
    key-here offset c c' le e = elim (visit-cases fl b end_limit cif k offset c le) [
      | Visit.skip clear m ↦ rw clear (
          key-below k offset c c' (omega arith) (omega arith)
            (rw (run_go fl b end_limit cif k offset c m) at e))
      | Visit.mark top m ↦ absurd (sized_ne_none (rw top field_size_31))
      | Visit.halt lo m ↦ absurd (sized_ne_none (field_size_low k lo))
      | Visit.cut s set t long m ↦
          absurd (err-ne-ok (rw (run-stop fl b end_limit cif k offset c m) at e))
      | Visit.field s set t p m ↦
          let same : s ≡ size = cc (t, sized) in
          rw (set, no_shift offset, ← same)
            (key-below k (offset + s) _ c' (omega arith) (omega arith)
                (rw (run_go fl b end_limit cif k offset c m) at e)
              ∙ here _ c)
    ]

    pub key-at :
        (n offset : ℕ) (c c' : Context F)
        → k < n
        → n ≤ 32
        → walk fl b end_limit cif n offset c ≡ ok c'
        → key c' ≡ found (offset + (span cif n - span cif (suc k))) c
    key-at zero offset c c' lt le e = elim lt [ ]
    key-at (suc n) offset c c' lt le e = elim (ℕ_discrete n k) [
      | yes same ↦ rw same (key-here offset c c' (rw same at le) (rw same at e))
      | no q ↦ elim (visit-cases fl b end_limit cif n offset c le) [
        | Visit.skip clear m ↦ rw (span_clear fl b end_limit cif n clear) (
            key-at n offset c c' (omega arith) (omega arith)
              (rw (run_go fl b end_limit cif n offset c m) at e))
        | Visit.mark top m ↦
            rw (span_top fl b end_limit cif n top, ← mark c)
              (key-at n offset _ c' (omega arith) (omega arith)
                (rw (run_go fl b end_limit cif n offset c m) at e))
        | Visit.halt lo m ↦ absurd (sized_ne_none (field_size_low k (omega arith)))
        | Visit.cut s set t long m ↦
            absurd (err-ne-ok (rw (run-stop fl b end_limit cif n offset c m) at e))
        | Visit.field s set t p m ↦
            rw (shift n s offset set t (omega arith), ← other n (slice b offset s) c q)
              (key-at n (offset + s) _ c' (omega arith) (omega arith)
                (rw (run_go fl b end_limit cif n offset c m) at e))
      ]
    ]

  module _ (b : Bytes) (hdr : Header) where
    abbrev cif : ℕ
    cif = cif_of fl b hdr

    -- The bytes of the field of bit `k`: behind the CIF0 word and the fields of all higher bits.
    abbrev pub field_bytes : ℕ → ℕ → Bytes
    field_bytes k size = slice b (start b hdr + (span cif 32 - span cif (suc k))) size

    abbrev pub fmt : Bytes → PayloadFormat
    fmt f = decode_payload_format (from_be f)

    -- Each of these keys is set just if its bit is, to the value of its own bytes.
    pub record IsDecoded (ctx : Context F) : Type 0 where
      pub bandwidth_hz :
          ctx.bandwidth_hz ≡ (if is_set cif 29 then some (freq fl (field_bytes 29 8)) else none)
      pub rf_hz : ctx.rf_hz ≡ (if is_set cif 27 then some (freq fl (field_bytes 27 8)) else none)
      pub gain_db :
          ctx.gain_db ≡ (if is_set cif 23 then some (gain fl (field_bytes 23 4)) else none)
      pub sample_rate_hz :
          ctx.sample_rate_hz ≡ (if is_set cif 21 then some (freq fl (field_bytes 21 8)) else none)
      pub supported :
          ctx.supported ≡ (if is_set cif 15 then some (fmt (field_bytes 15 8)).supported else none)
      pub bytes_per_sample :
          ctx.bytes_per_sample
          ≡ (if is_set cif 15 then (fmt (field_bytes 15 8)).bytes_per_sample else none)
      pub component_dtype :
          ctx.component_dtype
          ≡ (if is_set cif 15 then (fmt (field_bytes 15 8)).component_dtype else none)
      pub is_complex :
          ctx.is_complex
          ≡ (if is_set cif 15 then some (fmt (field_bytes 15 8)).is_complex else none)

  module _ (b : Bytes) (hdr : Header) (ctx : Context F) (e : decode_context fl b hdr ≡ ok ctx) where
    walked : walk fl b (end_limit_of fl b hdr) (cif b hdr) 32 (start b hdr) empty_context ≡ ok ctx
    walked = elim (dec_le (start b hdr) (end_limit_of fl b hdr)) [
      | yes p ↦ rw (decode_lem b hdr p) at e
      | no p ↦ absurd (err-ne-ok (cut b hdr p ∙ e))
    ]

    -- One key, given how each bit's branch treats it.
    module _ {X : Type 0} (key : Context F → X) (k size : ℕ) (value : Bytes → X)
        (other : (bit : ℕ) (f : Bytes) (c : Context F)
          → bit ≢ k
          → key (decode_field fl bit f c) ≡ key c) where
      decoded_key :
          (here : (f : Bytes) (c : Context F) → key (decode_field fl k f c) ≡ value f)
          (mark : (c : Context F) → key (record c { context_field_change = some true }) ≡ key c)
          (sized : field_size k ≡ some size)
          → k < 32
          → key ctx
            ≡ (if is_set (cif b hdr) k then value (field_bytes b hdr k size) else key empty_context)
      decoded_key here mark sized lt =
          key-at key k size value other here mark sized b _ (cif b hdr) 32 _ empty_context ctx lt
            (omega arith) walked

    -- If `decode_context` returns, then each of the keys `bandwidth_hz`, `rf_hz`, `gain_db`,
    -- `sample_rate_hz`, `supported`, `bytes_per_sample`, `component_dtype` and `is_complex` is set
    -- just if its CIF0 bit is, to the value of the bytes that stand behind the CIF0 word and the
    -- fields of all higher set bits; the last four come from the payload-format word.
    pub decode_context_fields : IsDecoded b hdr ctx
    unfolding decode_field field_size
    decode_context_fields = record {
      bandwidth_hz =
          decoded_key (λ c. c.bandwidth_hz) 29 8 (λ f. some (freq fl f))
            (λ bit f c ne. ground arith) (λ f c. refl) (λ c. refl) refl (omega arith);
      rf_hz =
          decoded_key (λ c. c.rf_hz) 27 8 (λ f. some (freq fl f)) (λ bit f c ne. ground arith)
            (λ f c. refl) (λ c. refl) refl (omega arith);
      gain_db =
          decoded_key (λ c. c.gain_db) 23 4 (λ f. some (gain fl f)) (λ bit f c ne. ground arith)
            (λ f c. refl) (λ c. refl) refl (omega arith);
      sample_rate_hz =
          decoded_key (λ c. c.sample_rate_hz) 21 8 (λ f. some (freq fl f))
            (λ bit f c ne. ground arith) (λ f c. refl) (λ c. refl) refl (omega arith);
      supported =
          decoded_key (λ c. c.supported) 15 8 (λ f. some (fmt b hdr f).supported)
            (λ bit f c ne. ground arith) (λ f c. refl) (λ c. refl) refl (omega arith);
      bytes_per_sample =
          decoded_key (λ c. c.bytes_per_sample) 15 8 (λ f. (fmt b hdr f).bytes_per_sample)
            (λ bit f c ne. ground arith) (λ f c. refl) (λ c. refl) refl (omega arith);
      component_dtype =
          decoded_key (λ c. c.component_dtype) 15 8 (λ f. (fmt b hdr f).component_dtype)
            (λ bit f c ne. ground arith) (λ f c. refl) (λ c. refl) refl (omega arith);
      is_complex =
          decoded_key (λ c. c.is_complex) 15 8 (λ f. some (fmt b hdr f).is_complex)
            (λ bit f c ne. ground arith) (λ f c. refl) (λ c. refl) refl (omega arith);
    }
