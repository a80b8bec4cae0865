-- ===== src/Interpreter/Gaps.antt =====
-- The packet counters and `gap_before` of src/sceptre_pipeline/interpreter.py.
use sceptre_pipeline.Prelude.{
  ℕ, ◌≡◌, refl, ap, ◌∙◌, Bool-cases, inl, inr, Option, none, some, List, [], ◌∷◌, if◌then◌else◌,
}
use sceptre_pipeline.Prelude.Bytes.{Bytes}
use sceptre_pipeline.Floats.{Floats}
use sceptre_pipeline.Dict.{StreamId, same_id, get}
use sceptre_pipeline.Dict.Laws.{get-put, same_id_iff}
use sceptre_pipeline.Interpreter.{
  Interpreter, Record, context_record, data_record, metadata, warn, drop_packet, is_gap, process,
  process_all,
}
use sceptre_pipeline.Interpreter.Outcome.{Returned, Processed, Outcome, process-cases}

module _ {F : Type 0} where
  -- the counter of the stream `k` after one more record
  abbrev pub next : StreamId → Option ℕ → Record F → Option ℕ
  next k prev (context_record md ctx) = prev
  next k prev (data_record md body) = if same_id md.stream_id k then some md.counter else prev

  -- The counter of the latest data record of the stream `k`, `prev` if there is none.
  abbrev pub latest : StreamId → Option ℕ → List (Record F) → Option ℕ
  latest k prev [] = prev
  latest k prev (r ∷ rs) = latest k (next k prev r) rs

  -- A data record of the stream `k` is flagged exactly if its counter does not follow `prev`.
  abbrev pub IsFlagged : StreamId → Option ℕ → Record F → Type 0
  IsFlagged k prev (context_record md ctx) = Unit
  IsFlagged k prev (data_record md body) =
      if same_id md.stream_id k then md.gap_before ≡ is_gap prev md.counter else Unit

  -- Every data record of the stream `k` is flagged against the one before it.
  abbrev pub AreFlagged : StreamId → Option ℕ → List (Record F) → Type 0
  AreFlagged k prev [] = Unit
  AreFlagged k prev (r ∷ rs) = IsFlagged k prev r × AreFlagged k (next k prev r) rs

  abbrev listed : Option (Record F) → List (Record F)
  listed none = []
  listed (some r) = r ∷ []

  -- the records of a run, those of the first packet in front
  abbrev prepend : Option (Record F) → List (Record F) → List (Record F)
  prepend o rs = elim o [ none ↦ rs | some r ↦ r ∷ rs ]

  AreFlagged-prepend :
      (k : StreamId) (prev : Option ℕ) (o : Option (Record F)) (rs : List (Record F))
      → AreFlagged k prev (listed o)
      → AreFlagged k (latest k prev (listed o)) rs
      → AreFlagged k prev (prepend o rs)
  AreFlagged-prepend k prev none rs h g = g
  AreFlagged-prepend k prev (some r) rs h g = (h.0, g)

  latest-prepend :
      (k : StreamId) (prev : Option ℕ) (o : Option (Record F)) (rs : List (Record F))
      → latest k (latest k prev (listed o)) rs ≡ latest k prev (prepend o rs)
  latest-prepend k prev none rs = refl
  latest-prepend k prev (some r) rs = refl

module _ {F : Type 0} (fl : Floats F) (k : StreamId) where
  abbrev Follows : Interpreter F → Returned fl → Type 0
  Follows s r =
      AreFlagged k (get s.last_counter k) (listed r.1)
      × (get r.0.last_counter k ≡ latest k (get s.last_counter k) (listed r.1))

  flagged :
      (s : Interpreter F) (j : StreamId) (n : ℕ)
      → (if same_id j k
          then is_gap (get s.last_counter j) n ≡ is_gap (get s.last_counter k) n
          else Unit)
  flagged s j n = elim (Bool-cases (same_id j k)) [
    | inl same ↦ rw same (ap (λ i. is_gap (get s.last_counter i) n) ((same_id_iff j k).0 same))
    | inr other ↦ rw other tt
  ]

  outcome-Follows :
      (s : Interpreter F) (raw : Bytes) (r : Returned fl) → Outcome fl s raw r → Follows s r
  unfolding drop_packet warn metadata
  outcome-Follows s raw r (Outcome.dropped reason e) = rw e (tt, refl)
  outcome-Follows s raw r (Outcome.adopted hdr ctx p t room d e) = rw e ((tt, tt), refl)
  outcome-Follows s raw r (Outcome.accepted hdr ctx bps body n p t known size good tr e) = rw e (
    (flagged s hdr.stream_id hdr.packet_counter, tt),
    get-put s.last_counter hdr.stream_id k hdr.packet_counter,
  )

  Processed-Follows :
      (s : Interpreter F) (raw : Bytes) (r : Returned fl) → Processed fl s raw r → Follows s r
  unfolding warn
  Processed-Follows s raw r (Processed.unparseable e) = rw e (tt, refl)
  Processed-Follows s raw r (Processed.handled o) = outcome-Follows s raw r o

  -- Whatever the datagrams, each data record of a stream has `gap_before` just if its counter is
  -- not the one after that of the stream's data record before it; the first is compared with the
  -- counter stored at the start; and the counter stored at the end is that of the stream's last
  -- data record.
  pub process_all-AreFlagged :
      (s : Interpreter F) (raws : List Bytes)
      → AreFlagged k (get s.last_counter k) (process_all fl s raws).1
        × (get (process_all fl s raws).0.last_counter k
            ≡ latest k (get s.last_counter k) (process_all fl s raws).1)
  unfolding process_all
  process_all-AreFlagged s [] = (tt, refl)
  process_all-AreFlagged s (raw ∷ raws) =
      let (flagged, counter) = Processed-Follows s raw _ (process-cases fl s raw) in
      let (rest, last) = process_all-AreFlagged (process fl s raw).0 raws in
      (
        AreFlagged-prepend k _ (process fl s raw).1 _ flagged (rw counter at rest),
        last
            ∙ ap (λ c. latest k c (process_all fl (process fl s raw).0 raws).1) counter
            ∙ latest-prepend k _ (process fl s raw).1 _,
      )
