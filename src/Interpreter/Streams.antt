-- ===== src/Interpreter/Streams.antt =====
-- The per-stream maps of `Interpreter` of src/sceptre_pipeline/interpreter.py.
use sceptre_pipeline.Prelude.{
  ℕ, ◌+◌, ◌≤◌, ◌≡◌, ◌≢◌, refl, sym, ◌∙◌, false, Option, none, some, List, [], ◌∷◌, arith,
  Bool-cases, inl, inr,
}
use sceptre_pipeline.Prelude.Bytes.{Bytes}
use sceptre_pipeline.Floats.{Floats}
use sceptre_pipeline.Result.{ok, ok-injective}
use sceptre_pipeline.Header.{Header, parse_header}
use sceptre_pipeline.Context.{Context}
use sceptre_pipeline.Dict.{StreamId, Dict, same_id, get, put, size}
use sceptre_pipeline.Dict.Laws.{get-put, get-put_ne, size-put, same_id_iff}
use sceptre_pipeline.Interpreter.{
  Interpreter, warn, drop_packet, is_flood, process, process_all, init,
}
use sceptre_pipeline.Interpreter.Outcome.{Returned, Processed, Outcome, process-cases}

abbrev pub IsSome {ℓ} : {A : Type ℓ} → Option A → Type 0
IsSome none = ⊥
IsSome (some a) = Unit

-- At most `max_streams` streams have a context, and only those have a counter.
pub record IsTracked {F : Type 0} (s : Interpreter F) : Type 0 where
  pub bounded : size s.contexts ≤ s.max_streams
  pub known : (k : StreamId) → IsSome (get s.last_counter k) → IsSome (get s.contexts k)

put-known :
    {V : Type 0} (d : Dict V) (k j : StreamId) (v : V)
    → IsSome (get d j)
    → IsSome (get (put d k v) j)
put-known d k j v h = elim (Bool-cases (same_id k j)) [
  | inl same ↦ rw (get-put d k j v, same) tt
  | inr other ↦ rw (get-put d k j v, other) h
]

module _ {F : Type 0} (fl : Floats F) where
  size-adopt :
      (s : Interpreter F) (k : StreamId) (ctx : Context F)
      → size s.contexts ≤ s.max_streams
      → is_flood fl s k ≡ false
      → size (put s.contexts k ctx) ≤ s.max_streams
  size-adopt s k ctx le room = ground (arith, size-put s.contexts k ctx)

  outcome-IsTracked :
      (s : Interpreter F) (raw : Bytes) (r : Returned fl)
      → IsTracked s
      → Outcome fl s raw r
      → IsTracked r.0
  unfolding drop_packet warn
  outcome-IsTracked s raw r v (Outcome.dropped reason e) =
      rw e (record { bounded = v.bounded; known = v.known })
  outcome-IsTracked s raw r v (Outcome.adopted hdr ctx p t room d e) = rw e (record {
    bounded = size-adopt s hdr.stream_id ctx v.bounded room;
    known = λ k h. put-known s.contexts hdr.stream_id k ctx (v.known k h);
  })
  outcome-IsTracked s raw r v (Outcome.accepted hdr ctx bps body n p t known size good tr e) =
      rw e (record {
        bounded = v.bounded;
        known = λ k h. elim (Bool-cases (same_id hdr.stream_id k)) [
          | inl same ↦ rw (← (same_id_iff hdr.stream_id k).0 same, known) tt
          | inr other ↦
              v.known k (rw (get-put s.last_counter hdr.stream_id k hdr.packet_counter, other) at h)
        ];
      })

  unparseable-IsTracked :
      (s : Interpreter F) (r : Returned fl)
      → IsTracked s
      → r ≡ (warn fl "unparseable" (record s { errors = s.errors + 1 }), none)
      → IsTracked r.0
  unfolding warn
  unparseable-IsTracked s r v e = rw e (record { bounded = v.bounded; known = v.known })

  pub process-IsTracked :
      (s : Interpreter F) (raw : Bytes) → IsTracked s → IsTracked (process fl s raw).0
  process-IsTracked s raw v = by_case (process fl s raw) (process-cases fl s raw)
    where
      by_case : (r : Returned fl) → Processed fl s raw r → IsTracked r.0
      by_case r (Processed.handled o) = outcome-IsTracked s raw r v o
      by_case r (Processed.unparseable e) = unparseable-IsTracked s r v e

  max_streams-outcome :
      (s : Interpreter F) (raw : Bytes) (r : Returned fl)
      → Outcome fl s raw r
      → r.0.max_streams ≡ s.max_streams
  unfolding drop_packet warn
  max_streams-outcome s raw r (Outcome.dropped reason e) = rw e
  max_streams-outcome s raw r (Outcome.adopted hdr ctx p t room d e) = rw e
  max_streams-outcome s raw r (Outcome.accepted hdr ctx bps body n p t known size good tr e) = rw e

  -- The entries of every stream but `k` are those of before.
  pub record IsIsolated (k : StreamId) (s s' : Interpreter F) : Type 0 where
    pub contexts : (j : StreamId) → j ≢ k → get s'.contexts j ≡ get s.contexts j
    pub counters : (j : StreamId) → j ≢ k → get s'.last_counter j ≡ get s.last_counter j

  same-header :
      (raw : Bytes) {a b : Header} → parse_header raw ≡ ok a → parse_header raw ≡ ok b → a ≡ b
  same-header raw p q = ok-injective (sym p ∙ q)

  outcome-IsIsolated :
      (s : Interpreter F) (raw : Bytes) (r : Returned fl) (hdr : Header)
      → parse_header raw ≡ ok hdr
      → Outcome fl s raw r
      → IsIsolated hdr.stream_id s r.0
  unfolding drop_packet warn
  outcome-IsIsolated s raw r hdr q (Outcome.dropped reason e) =
      rw e (record { contexts = λ j ne. refl; counters = λ j ne. refl })
  outcome-IsIsolated s raw r hdr q (Outcome.adopted hdr' ctx p t room d e) =
      rw (e, same-header raw q p)
        (record {
          contexts = λ j ne. get-put_ne s.contexts hdr'.stream_id j ctx ne;
          counters = λ j ne. refl;
        })
  outcome-IsIsolated s raw r hdr q (Outcome.accepted hdr' ctx bps body n p t known size good tr e) =
      rw (e, same-header raw q p)
        (record {
          contexts = λ j ne. refl;
          counters = λ j ne. get-put_ne s.last_counter hdr'.stream_id j hdr'.packet_counter ne;
        })

  unparseable-IsIsolated :
      (s : Interpreter F) (r : Returned fl) (k : StreamId)
      → r ≡ (warn fl "unparseable" (record s { errors = s.errors + 1 }), none)
      → IsIsolated k s r.0
  unfolding warn
  unparseable-IsIsolated s r k e =
      rw e (record { contexts = λ j ne. refl; counters = λ j ne. refl })

  pub process-IsIsolated :
      (s : Interpreter F) (raw : Bytes) (hdr : Header)
      → parse_header raw ≡ ok hdr
      → IsIsolated hdr.stream_id s (process fl s raw).0
  process-IsIsolated s raw hdr p = by_case (process fl s raw) (process-cases fl s raw)
    where
      by_case : (r : Returned fl) → Processed fl s raw r → IsIsolated hdr.stream_id s r.0
      by_case r (Processed.handled o) = outcome-IsIsolated s raw r hdr p o
      by_case r (Processed.unparseable e) = unparseable-IsIsolated s r hdr.stream_id e

  pub init-IsTracked : (max_streams : ℕ) → IsTracked (init {F = F} max_streams)
  unfolding init get
  init-IsTracked max_streams = record { bounded = omega arith; known = λ k h. absurd h }

  -- If at most `max_streams` streams have a context and every stream with a counter has one, then
  -- that is so after any datagrams.
  pub process_all-IsTracked :
      (s : Interpreter F) (raws : List Bytes) → IsTracked s → IsTracked (process_all fl s raws).0
  unfolding process_all
  process_all-IsTracked s [] v = v
  process_all-IsTracked s (raw ∷ raws) v =
      process_all-IsTracked (process fl s raw).0 raws (process-IsTracked s raw v)

  -- A datagram whose header parses leaves the context and the counter of every other stream than
  -- its own as they were.
  pub process_other :
      (s : Interpreter F) (raw : Bytes) (hdr : Header) (k : StreamId)
      → parse_header raw ≡ ok hdr
      → k ≢ hdr.stream_id
      → (get (process fl s raw).0.contexts k ≡ get s.contexts k)
        × (get (process fl s raw).0.last_counter k ≡ get s.last_counter k)
  process_other s raw hdr k p ne =
      let i = process-IsIsolated s raw hdr p in (i.contexts k ne, i.counters k ne)
