-- ===== src/Interpreter/Tally.antt =====
-- The counters `errors` and `dropped` of src/sceptre_pipeline/interpreter.py.
use sceptre_pipeline.Prelude.{ℕ, ◌+◌, ◌≡◌, refl, Option, none, some, List, [], ◌∷◌, length, arith}
use sceptre_pipeline.Prelude.Bytes.{Bytes}
use sceptre_pipeline.Floats.{Floats}
use sceptre_pipeline.Interpreter.{Interpreter, warn, drop_packet, process, process_all}
use sceptre_pipeline.Interpreter.Outcome.{Returned, Processed, Outcome, process-cases}

abbrev count_of {ℓ} : {A : Type ℓ} → Option A → ℕ
count_of none = 0
count_of (some a) = 1

module _ {F : Type 0} (fl : Floats F) where
  abbrev lost : Interpreter F → ℕ
  lost s = s.errors + s.dropped

  IsTallied : (s : Interpreter F) (r : Returned fl) → Type 0
  IsTallied s r = lost r.0 + count_of r.1 ≡ lost s + 1

  outcome-IsTallied :
      (s : Interpreter F) (raw : Bytes) (r : Returned fl) → Outcome fl s raw r → IsTallied s r
  unfolding IsTallied drop_packet warn
  outcome-IsTallied s raw r (Outcome.dropped reason e) = rw e (omega arith)
  outcome-IsTallied s raw r (Outcome.adopted hdr ctx p t room d e) = rw e (omega arith)
  outcome-IsTallied s raw r (Outcome.accepted hdr ctx bps body n p t known size good tr e) =
      rw e (ground arith)

  Processed-IsTallied :
      (s : Interpreter F) (raw : Bytes) (r : Returned fl) → Processed fl s raw r → IsTallied s r
  unfolding IsTallied warn
  Processed-IsTallied s raw r (Processed.unparseable e) = rw e (omega arith)
  Processed-IsTallied s raw r (Processed.handled o) = outcome-IsTallied s raw r o

  pub process-tally :
      (s : Interpreter F) (raw : Bytes)
      → (process fl s raw).0.errors + (process fl s raw).0.dropped + count_of (process fl s raw).1
        ≡ s.errors + s.dropped + 1
  unfolding IsTallied
  process-tally s raw = Processed-IsTallied s raw _ (process-cases fl s raw)

  -- Over any datagrams, the errors and drops counted and the records returned grow together by the
  -- number of datagrams: none is lost without a count.
  pub process_all-tally :
      (s : Interpreter F) (raws : List Bytes)
      → (process_all fl s raws).0.errors
          + (process_all fl s raws).0.dropped
          + length (process_all fl s raws).1
        ≡ s.errors + s.dropped + length raws
  unfolding process_all
  process_all-tally s [] = refl
  process_all-tally s (raw ∷ raws) =
      ground (arith, process-tally s raw, process_all-tally (process fl s raw).0 raws)
