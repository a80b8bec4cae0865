-- ===== src/Interpreter/Outcome.antt =====
-- The ways in which `process` of src/sceptre_pipeline/interpreter.py can end, with what led there.
use Prim.Native.String.{String}
use sceptre_pipeline.Prelude.{
  ℕ, ◌+◌, ◌≡◌, refl, Bool, true, false, Option, none, some, inl, inr, ==_iff, Bool-cases,
  Option-cases, ◌==◌,
}
use sceptre_pipeline.Prelude.Bytes.{Bytes}
use sceptre_pipeline.Floats.{Floats}
use sceptre_pipeline.Result.{Result, Error, ok, err, Result-cases}
use sceptre_pipeline.Header.{Header, parse_header}
use sceptre_pipeline.Context.{Context, decode_context}
use sceptre_pipeline.Trim.{trim_data}
use sceptre_pipeline.Dict.{get}
use sceptre_pipeline.Interpreter.{
  Interpreter, Record, warn, drop_packet, is_flood, adopt, is_false, accept, process_context,
  process_samples, process_data, process_packet, process,
}

module _ {F : Type 0} (fl : Floats F) where
  abbrev pub Returned : Type 0
  Returned = Interpreter F × Option (Record F)

  -- How `_process` ends, if it does not raise.
  pub data Outcome (s : Interpreter F) (raw : Bytes) (r : Returned) : Type 0 where
    dropped : (reason : String) → r ≡ drop_packet fl reason s → Outcome s raw r
    adopted :
        (hdr : Header) (ctx : Context F)
        → parse_header raw ≡ ok hdr
        → hdr.packet_type ≡ 4
        → is_flood fl s hdr.stream_id ≡ false
        → decode_context fl raw hdr ≡ ok ctx
        → r ≡ adopt fl s hdr ctx
        → Outcome s raw r
    accepted :
        (hdr : Header) (ctx : Context F) (bps : ℕ) (body : Bytes) (n : ℕ)
        → parse_header raw ≡ ok hdr
        → hdr.packet_type ≡ 1
        → get s.contexts hdr.stream_id ≡ some ctx
        → ctx.bytes_per_sample ≡ some bps
        → is_false ctx.supported ≡ false
        → trim_data raw hdr bps ≡ ok (body, n)
        → r ≡ accept fl s hdr ctx body
        → Outcome s raw r

  -- a call that may raise, and what it may return
  pub data Ends (s : Interpreter F) (raw : Bytes) (m : Result Returned) : Type 0 where
    raised : (e : Error) → m ≡ err e → Ends s raw m
    returned : (r : Returned) → m ≡ ok r → Outcome s raw r → Ends s raw m

  module _ (s : Interpreter F) (raw : Bytes) (hdr : Header)
      (parsed : parse_header raw ≡ ok hdr) where
    samples-Ends :
        (ctx : Context F) (o : Option ℕ)
        → hdr.packet_type ≡ 1
        → get s.contexts hdr.stream_id ≡ some ctx
        → ctx.bytes_per_sample ≡ o
        → Ends s raw (process_samples fl s raw hdr ctx o)
    unfolding process_samples
    samples-Ends ctx none t known size = returned _ refl (dropped _ refl)
    samples-Ends ctx (some bps) t known size = elim (Bool-cases (is_false ctx.supported)) [
      | inl bad ↦ rw bad (returned _ refl (dropped "unsupported-data" refl))
      | inr good ↦ elim (Result-cases (trim_data raw hdr bps)) [
        | inl ((body, n), e) ↦
            rw (good, e)
              (returned _ refl (accepted hdr ctx bps body n parsed t known size good e refl))
        | inr (x, e) ↦ rw (good, e) (raised x refl)
      ]
    ]

    data-Ends : hdr.packet_type ≡ 1 → Ends s raw (process_data fl s raw hdr)
    unfolding process_data
    data-Ends t = elim (Option-cases (get s.contexts hdr.stream_id)) [
      | inl e ↦ rw (e, process_data) (returned _ refl (dropped "no-context" refl))
      | inr (ctx, e) ↦ rw (e, process_data) (samples-Ends ctx ctx.bytes_per_sample t e refl)
    ]

    context-Ends : hdr.packet_type ≡ 4 → Ends s raw (process_context fl s raw hdr)
    unfolding process_context
    context-Ends t = elim (Bool-cases (is_flood fl s hdr.stream_id)) [
      | inl full ↦ rw full (returned _ refl (dropped "stream-flood" refl))
      | inr room ↦ elim (Result-cases (decode_context fl raw hdr)) [
        | inl (ctx, e) ↦ rw (room, e) (returned _ refl (adopted hdr ctx parsed t room e refl))
        | inr (x, e) ↦ rw (room, e) (raised x refl)
      ]
    ]

    typed-Ends :
        (c d : Bool)
        → (hdr.packet_type == 4) ≡ c
        → (hdr.packet_type == 1) ≡ d
        → Ends s raw (process_packet fl s raw)
    unfolding process_packet
    typed-Ends true d p q = rw (parsed, p) (context-Ends ((==_iff _ 4).0 p))
    typed-Ends false true p q = rw (parsed, p, q) (data-Ends ((==_iff _ 1).0 q))
    typed-Ends false false p q =
        rw (parsed, p, q) (returned _ refl (dropped "unknown-packet-type" refl))

  process_packet-Ends : (s : Interpreter F) (raw : Bytes) → Ends s raw (process_packet fl s raw)
  unfolding process_packet
  process_packet-Ends s raw = elim (Result-cases (parse_header raw)) [
    | inl (hdr, e) ↦ typed-Ends s raw hdr e _ _ refl refl
    | inr (x, e) ↦ rw e (raised x refl)
  ]

  -- How `process` ends: the guard counts an exception.
  pub data Processed (s : Interpreter F) (raw : Bytes) (r : Returned) : Type 0 where
    unparseable :
        r ≡ (warn fl "unparseable" (record s { errors = s.errors + 1 }), none) → Processed s raw r
    handled : Outcome s raw r → Processed s raw r

  pub process-cases : (s : Interpreter F) (raw : Bytes) → Processed s raw (process fl s raw)
  unfolding process
  process-cases s raw = elim (process_packet-Ends s raw) [
    | raised x e ↦ rw (e, process) (unparseable refl)
    | returned r e o ↦ rw (e, process) (handled o)
  ]
