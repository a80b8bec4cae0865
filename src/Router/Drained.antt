-- ===== src/Router/Drained.antt =====
-- What the loops of `BufferRouter` of src/sceptre_pipeline/buffer.py do to one stream's samples.
use mathlib.Core.Path.{subst, ◌≡⟨◌⟩◌, ◌∎}
use sceptre_pipeline.Prelude.{
  ◌≡◌, refl, sym, ap, ◌∙◌, true, false, none, some, List, [], ◌∷◌, ◌++◌, arith, Bool-cases, inl,
  inr, append_assoc, append-nil, if◌then◌else◌,
}
use sceptre_pipeline.Prelude.Bytes.{Bytes}
use sceptre_pipeline.Floats.{Floats}
use sceptre_pipeline.Dict.{StreamId, Dict, same_id, get}
use sceptre_pipeline.Dict.Laws.{same_id_iff}
use sceptre_pipeline.Dict.Each.{Each}
use sceptre_pipeline.Dict.Unique.{IsUnique, sum}
use sceptre_pipeline.Buffer.{IngestBuffer, Window, join, has_chunks, flush, flush_if}
use sceptre_pipeline.Buffer
use sceptre_pipeline.Buffer.Windows.{All}
use sceptre_pipeline.Buffer.Lossless.{raws, total, flush_if-total, flush_if-dropped}
use sceptre_pipeline.Buffer.Identity.{Of, IsOf, flush_if-Of}
use sceptre_pipeline.Router.Visits.{Visits, unvisited, visited}

nil_of_append : (xs ys : Bytes) → xs ++ ys ≡ [] → xs ≡ []
nil_of_append [] ys h = refl
nil_of_append (x ∷ xs) ys h = absurd (cc h)

module _ {F : Type 0} where
  -- the bytes of the stream's windows, in order
  abbrev pub stream_bytes : StreamId → List (Window F) → Bytes
  stream_bytes k [] = []
  stream_bytes k (w ∷ ws) =
      if same_id w.stream_id k then w.raw ++ stream_bytes k ws else stream_bytes k ws

  -- the bytes in the stream's open window
  abbrev pub open_bytes : StreamId → Dict (IngestBuffer F) → Bytes
  open_bytes k d = elim (get d k) [ none ↦ [] | some buf ↦ join buf.chunks ]

  open_bytes_own :
      (d : Dict (IngestBuffer F)) (j k : StreamId) (buf : IngestBuffer F)
      → same_id j k ≡ true
      → open_bytes k ((j, buf) ∷ d) ≡ join buf.chunks
  unfolding get
  open_bytes_own d j k buf h = rw (h, open_bytes) refl

  open_bytes_other :
      (d : Dict (IngestBuffer F)) (j k : StreamId) (buf : IngestBuffer F)
      → same_id j k ≡ false
      → open_bytes k ((j, buf) ∷ d) ≡ open_bytes k d
  unfolding get
  open_bytes_other d j k buf h = rw (h, open_bytes) refl

  pub open_bytes-none :
      (d : Dict (IngestBuffer F)) (k : StreamId) → get d k ≡ none → open_bytes k d ≡ []
  open_bytes-none d k h = rw (h, open_bytes) refl

  pub open_bytes-some :
      (d : Dict (IngestBuffer F)) (k : StreamId) (buf : IngestBuffer F)
      → get d k ≡ some buf
      → open_bytes k d ≡ join buf.chunks
  open_bytes-some d k buf h = rw (h, open_bytes) refl

  pub stream_bytes-append :
      (k : StreamId) (xs ys : List (Window F))
      → stream_bytes k (xs ++ ys) ≡ stream_bytes k xs ++ stream_bytes k ys
  stream_bytes-append k [] ys = refl
  stream_bytes-append k (w ∷ ws) ys = elim (Bool-cases (same_id w.stream_id k)) [
    | inl h ↦ rw (h, stream_bytes-append k ws ys, append_assoc) refl
    | inr h ↦ rw (h, stream_bytes-append k ws ys) refl
  ]

  pub stream_bytes_own :
      (j k : StreamId) (ws : List (Window F))
      → same_id j k ≡ true
      → All (IsOf j) ws
      → stream_bytes k ws ≡ raws ws
  stream_bytes_own j k [] h o = refl
  stream_bytes_own j k (w ∷ ws) h o = rw (o.0, h) (ap (w.raw ++◌) (stream_bytes_own j k ws h o.1))

  pub stream_bytes_other :
      (j k : StreamId) (ws : List (Window F))
      → same_id j k ≡ false
      → All (IsOf j) ws
      → stream_bytes k ws ≡ []
  stream_bytes_other j k [] h o = refl
  stream_bytes_other j k (w ∷ ws) h o = rw (o.0, h) (stream_bytes_other j k ws h o.1)

  -- No two buffers under one key, each with its key as its stream id.
  pub record IsKeyed (d : Dict (IngestBuffer F)) : Type 0 where
    pub unique : IsUnique d
    pub named : Each (λ k buf. buf.stream_id ≡ k) d

  -- A loop body that keeps the buffer's stream id, samples and drop count.
  pub record IsKeeping (f : StreamId → IngestBuffer F → IngestBuffer F × List (Window F))
      : Type 0 where
    pub named : (k : StreamId) (buf : IngestBuffer F) → Of buf.stream_id (f k buf)
    pub total : (k : StreamId) (buf : IngestBuffer F) → total (f k buf) ≡ join buf.chunks
    pub dropped : (k : StreamId) (buf : IngestBuffer F) → (f k buf).0.dropped ≡ buf.dropped

  pub flush-IsKeeping : IsKeeping (λ k buf. flush buf)
  unfolding flush_if
  flush-IsKeeping = record {
    named = λ k buf. flush_if-Of buf.stream_id true buf refl;
    total = λ k buf. flush_if-total true buf;
    dropped = λ k buf. flush_if-dropped true buf;
  }

  pub age-IsKeeping :
      (fl : Floats F) (clock : StreamId → F)
      → IsKeeping (λ k buf. Buffer.maybe_flush_on_age fl (clock k) buf)
  unfolding Buffer.maybe_flush_on_age
  age-IsKeeping fl clock = record {
    named = λ k buf. flush_if-Of buf.stream_id _ buf refl;
    total = λ k buf. flush_if-total _ buf;
    dropped = λ k buf. flush_if-dropped _ buf;
  }

  module _ (f : StreamId → IngestBuffer F → IngestBuffer F × List (Window F))
      (keeping : IsKeeping f) where
    get-Visits-none :
        {d d' : Dict (IngestBuffer F)} {ws : List (Window F)} (k : StreamId)
        → Visits f d (d', ws)
        → get d k ≡ none
        → get d' k ≡ none
    unfolding get
    get-Visits-none k (unvisited d) h = h
    get-Visits-none k (visited j buf d d' ws v) h = elim (Bool-cases (same_id j k)) [
      | inl same ↦ absurd (cc (rw same at h))
      | inr other ↦ rw other (get-Visits-none k v (rw other at h))
    ]

    pub Visits-IsKeyed :
        {d d' : Dict (IngestBuffer F)} {ws : List (Window F)}
        → Visits f d (d', ws)
        → IsKeyed d
        → IsKeyed d'
    Visits-IsKeyed (unvisited d) v = v
    Visits-IsKeyed (visited k buf d d' ws h) v =
        let rest = Visits-IsKeyed h (record { unique = v.unique.1; named = v.named.1 }) in
        record {
          unique = (get-Visits-none k h v.unique.0, rest.unique);
          named = ((keeping.named k buf).0 ∙ v.named.0, rest.named);
        }

    pub Visits-dropped :
        {d d' : Dict (IngestBuffer F)} {ws : List (Window F)}
        → Visits f d (d', ws)
        → sum (λ buf. buf.dropped) d' ≡ sum (λ buf. buf.dropped) d
    Visits-dropped (unvisited d) = refl
    Visits-dropped (visited k buf d d' ws h) =
        omega (arith, keeping.dropped k buf, Visits-dropped h)

    pub Visits-flow :
        {d d' : Dict (IngestBuffer F)} {ws : List (Window F)} (k : StreamId)
        → Visits f d (d', ws)
        → IsKeyed d
        → stream_bytes k ws ++ open_bytes k d' ≡ open_bytes k d
    Visits-flow k (unvisited d) v = refl
    Visits-flow k (visited j buf d d' ws' h) v =
        let rest = Visits-flow k h (record { unique = v.unique.1; named = v.named.1 }) in
        let of = subst (λ i. All (IsOf i) (f j buf).1) v.named.0 (keeping.named j buf).1 in
        let ws = (f j buf).1 in
        elim (Bool-cases (same_id j k)) [
          | inl same ↦
              let missing = subst (λ i. get d i ≡ none) ((same_id_iff j k).0 same) v.unique.0 in
              let nothing =
                nil_of_append (stream_bytes k ws') _ (rest ∙ open_bytes-none d k missing) in
              stream_bytes k (ws ++ ws') ++ open_bytes k ((j, (f j buf).0) ∷ d')
              ≡⟨ (rw
                  (
                    stream_bytes-append k ws ws',
                    stream_bytes_own j k ws same of,
                    nothing,
                    append-nil,
                    open_bytes_own d' j k (f j buf).0 same,
                  )
                  refl) ⟩
                raws ws ++ join (f j buf).0.chunks
              ≡⟨ keeping.total j buf ⟩ join buf.chunks
              ≡⟨ sym (open_bytes_own d j k buf same) ⟩ open_bytes k ((j, buf) ∷ d) ∎
          | inr other ↦
              stream_bytes k (ws ++ ws') ++ open_bytes k ((j, (f j buf).0) ∷ d')
              ≡⟨ (rw
                  (
                    stream_bytes-append k ws ws',
                    stream_bytes_other j k ws other of,
                    open_bytes_other d' j k (f j buf).0 other,
                  )
                  refl) ⟩
                stream_bytes k ws' ++ open_bytes k d'
              ≡⟨ rest ∙ sym (open_bytes_other d j k buf other) ⟩ open_bytes k ((j, buf) ∷ d) ∎
        ]
