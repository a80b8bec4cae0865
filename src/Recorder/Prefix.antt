-- ===== src/Recorder/Prefix.antt =====
-- What `append` of src/sceptre_pipeline/recorder.py keeps over a session, and the caps.
use sceptre_pipeline.Prelude.{
  ℕ, ◌+◌, ◌≤◌, ◌≡◌, refl, sym, ap, ◌∙◌, Bool, true, false, ◌||◌, ◌⊎◌, Option, none, some, List, [],
  ◌∷◌, ◌++◌, arith, length, Bool-cases, inl, inr, length-append, append_assoc, append-nil,
}
use sceptre_pipeline.Recorder.{Packet, Recorder, is_full, is_over, append, append_all}

abbrev pub payload_bytes : List Packet → ℕ
payload_bytes [] = 0
payload_bytes (p ∷ ps) = length p.payload + payload_bytes ps

abbrev pub AtMost : Option ℕ → ℕ → Type 0
AtMost none n = Unit
AtMost (some m) n = n ≤ m

-- The caps hold, and the byte count is that of the packets.
pub record IsWithin (r : Recorder) : Type 0 where
  pub packets : AtMost r.max_packets (length r.packets)
  pub bytes : AtMost r.max_bytes r.total_bytes
  pub counted : r.total_bytes ≡ payload_bytes r.packets

payload_bytes-snoc :
    (ps : List Packet) (p : Packet)
    → payload_bytes (ps ++ p ∷ []) ≡ payload_bytes ps + length p.payload
payload_bytes-snoc [] p = omega arith
payload_bytes-snoc (q ∷ ps) p = omega (arith, payload_bytes-snoc ps p)

abbrev refuses : Packet → Recorder → Bool
refuses p r =
    is_full r.max_packets (length r.packets)
    || is_over r.max_bytes (r.total_bytes + length p.payload)

AtMost_full : (m : Option ℕ) (n : ℕ) → is_full m n ≡ false → AtMost m (n + 1)
AtMost_full none n h = tt
AtMost_full (some m) n h = ground arith

AtMost_over : (m : Option ℕ) (n : ℕ) → is_over m n ≡ false → AtMost m n
AtMost_over none n h = tt
AtMost_over (some m) n h = ground arith

append_of_capped : (p : Packet) (r : Recorder) → r.capped ≡ true → append p r ≡ (r, false)
unfolding append
append_of_capped p r e = rw e refl

append_of_refused :
    (p : Packet) (r : Recorder)
    → r.capped ≡ false
    → refuses p r ≡ true
    → append p r ≡ (record r { capped = true }, false)
unfolding append
append_of_refused p r e f = rw (e, f) refl

append_of_room :
    (p : Packet) (r : Recorder)
    → r.capped ≡ false
    → refuses p r ≡ false
    → append p r ≡ (
      record r { packets = r.packets ++ p ∷ []; total_bytes = r.total_bytes + length p.payload },
      true,
    )
unfolding append
append_of_room p r e f = rw (e, f) refl

-- The three ways an append goes.
pub data Append (p : Packet) (r : Recorder) : Recorder × Bool → Type 0 where
  after_cap : r.capped ≡ true → Append p r (r, false)
  at_cap : r.capped ≡ false → refuses p r ≡ true → Append p r (record r { capped = true }, false)
  recorded :
      r.capped ≡ false
      → refuses p r ≡ false
      → Append p r (
        record r { packets = r.packets ++ p ∷ []; total_bytes = r.total_bytes + length p.payload },
        true,
      )

append-cases : (p : Packet) (r : Recorder) → Append p r (append p r)
append-cases p r = elim (Bool-cases r.capped) [
  | inl e ↦ rw (append_of_capped p r e) (after_cap e)
  | inr e ↦ elim (Bool-cases (refuses p r)) [
    | inl f ↦ rw (append_of_refused p r e f) (at_cap e f)
    | inr f ↦ rw (append_of_room p r e f) (recorded e f)
  ]
]

or_false : (a b : Bool) → (a || b) ≡ false → (a ≡ false) × (b ≡ false)
or_false false false h = (refl, refl)
or_false false true h = absurd (ground arith)
or_false true b h = absurd (ground arith)

AtMost_eq : (m : Option ℕ) (a b : ℕ) → a ≡ b → AtMost m a → AtMost m b
AtMost_eq none a b e h = tt
AtMost_eq (some m) a b e h = omega arith

Append-IsWithin :
    (p : Packet) (r : Recorder) (o : Recorder × Bool) → Append p r o → IsWithin r → IsWithin o.0
Append-IsWithin p r _ (after_cap e) v = v
Append-IsWithin p r _ (at_cap e f) v = record {
  packets = v.packets;
  bytes = v.bytes;
  counted = v.counted;
}
Append-IsWithin p r _ (recorded e f) v =
    let (g, h) = or_false _ _ f in
    record {
      packets =
          AtMost_eq r.max_packets _ _ (sym (length-append r.packets (p ∷ [])))
            (AtMost_full r.max_packets (length r.packets) g);
      bytes = AtMost_over r.max_bytes _ h;
      counted = omega (arith, v.counted, payload_bytes-snoc r.packets p);
    }

-- If a recorder is within its packet cap and its byte cap, and its byte count is that of its
-- packets, then that is so after any packets.
append_all-IsWithin : (ps : List Packet) (r : Recorder) → IsWithin r → IsWithin (append_all ps r)
unfolding append_all
append_all-IsWithin [] r v = v
append_all-IsWithin (p ∷ ps) r v =
    append_all-IsWithin ps _ (Append-IsWithin p r (append p r) (append-cases p r) v)

-- What a session records.
pub record IsPrefixOf (ps : List Packet) (r r' : Recorder) : Type 0 where
  pub kept : List Packet
  pub rest : List Packet
  pub order : ps ≡ kept ++ rest
  pub recorded : r'.packets ≡ r.packets ++ kept
  pub complete : (r'.capped ≡ true) ⊎ (rest ≡ [])

still_capped : (ps : List Packet) (r : Recorder) → r.capped ≡ true → append_all ps r ≡ r
unfolding append_all
still_capped [] r e = refl
still_capped (p ∷ ps) r e =
    ap (λ o. append_all ps o.0) (append_of_capped p r e) ∙ still_capped ps r e

nothing_kept :
    (ps : List Packet) (r r' : Recorder)
    → r'.packets ≡ r.packets
    → r'.capped ≡ true
    → IsPrefixOf ps r r'
nothing_kept ps r r' same capped = record {
  kept = [];
  rest = ps;
  order = refl;
  recorded = same ∙ sym (append-nil r.packets);
  complete = inl capped;
}

IsPrefixOf-step :
    (p : Packet) (ps : List Packet) (r : Recorder) (o : Recorder × Bool)
    → Append p r o
    → IsPrefixOf ps o.0 (append_all ps o.0)
    → IsPrefixOf (p ∷ ps) r (append_all ps o.0)
IsPrefixOf-step p ps r _ (after_cap e) q =
    nothing_kept (p ∷ ps) r _ (rw (still_capped ps r e) refl) (rw (still_capped ps r e) e)
IsPrefixOf-step p ps r _ (at_cap e f) q =
    let k = still_capped ps (record r { capped = true }) refl in
    nothing_kept (p ∷ ps) r _ (rw k refl) (rw k refl)
IsPrefixOf-step p ps r _ (recorded e f) q = record {
  kept = p ∷ q.kept;
  rest = q.rest;
  order = ap (p ∷◌) q.order;
  recorded = q.recorded ∙ append_assoc r.packets (p ∷ []) q.kept;
  complete = q.complete;
}

-- Over any packets, a recorder adds a first part of them, in order, and leaves none out unless it
-- is capped.
pub append_all-IsPrefixOf : (ps : List Packet) (r : Recorder) → IsPrefixOf ps r (append_all ps r)
unfolding append_all
append_all-IsPrefixOf [] r = record {
  kept = [];
  rest = [];
  order = refl;
  recorded = sym (append-nil r.packets);
  complete = inr refl;
}
append_all-IsPrefixOf (p ∷ ps) r =
    IsPrefixOf-step p ps r (append p r) (append-cases p r) (append_all-IsPrefixOf ps (append p r).0)

-- If a recorder is within its packet cap and its byte cap, and its byte count is that of its
-- packets, then that is so after any packets; it adds a first part of them, in order, and leaves
-- none out unless it is capped.
pub append_all-IsCapped :
    (ps : List Packet) (r : Recorder)
    → IsWithin r
    → IsWithin (append_all ps r) × IsPrefixOf ps r (append_all ps r)
append_all-IsCapped ps r v = (append_all-IsWithin ps r v, append_all-IsPrefixOf ps r)
