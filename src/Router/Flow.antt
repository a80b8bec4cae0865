-- ===== src/Router/Flow.antt =====
-- The samples of one stream through `BufferRouter` of src/sceptre_pipeline/buffer.py.
use mathlib.Core.Path.{subst}
use sceptre_pipeline.Prelude.{
  ℕ, ◌+◌, ◌<◌, ◌≡◌, refl, sym, ap, ◌∙◌, true, false, Option, none, some, List, [], ◌++◌, arith,
  Bool-cases, inl, inr, ◌⊎◌, append_assoc, append-nil, if◌then◌else◌,
}
use sceptre_pipeline.Prelude.Bytes.{Bytes}
use sceptre_pipeline.Floats.{Floats}
use sceptre_pipeline.Numpy.{Numpy}
use sceptre_pipeline.Dict.{StreamId, Dict, same_id, get, put}
use sceptre_pipeline.Dict.Laws.{same_id_iff, get-put}
use sceptre_pipeline.Dict.Each.{Each-get, Each-put}
use sceptre_pipeline.Dict.Unique.{put-IsUnique, sum, sum-put}
use sceptre_pipeline.Interpreter.{Record}
use sceptre_pipeline.Buffer.{IngestBuffer, Window, join, flush, has_chunks}
use sceptre_pipeline.Buffer
use sceptre_pipeline.Buffer.Windows.{All}
use sceptre_pipeline.Buffer.Lossless.{payload, push-Taken, Taken}
use sceptre_pipeline.Buffer.Identity.{IsOf, Of, push-Of}
use sceptre_pipeline.Router.{BufferRouter, stream_of, drop_record, push}
use sceptre_pipeline.Router.Stored.{
  Source, found, fresh, buffer_for-cases, placed, stored, push-stored,
}
use sceptre_pipeline.Router.Drained.{
  stream_bytes, open_bytes, open_bytes-some, open_bytes-none, stream_bytes_own, stream_bytes_other,
  stream_bytes-append, IsKeyed,
}

module _ {F : Type 0} where
  -- What the router and its buffers have counted as dropped.
  abbrev pub lost : BufferRouter F → ℕ
  lost s = s.dropped + sum (λ buf. buf.dropped) s.buffers

  -- Nothing is dropped, and the stream's bytes that went in have come out or are in its open window,
  -- in order; or a drop is counted.
  abbrev pub Flows : StreamId → BufferRouter F → Bytes → BufferRouter F × List (Window F) → Type 0
  Flows k s body r =
      ((lost r.0 ≡ lost s)
        × (stream_bytes k r.1 ++ open_bytes k r.0.buffers ≡ open_bytes k s.buffers ++ body))
      ⊎ (lost s < lost r.0)

  pub Flows-behind :
      (k : StreamId) (s : BufferRouter F) (x y : Bytes) (r r' : BufferRouter F × List (Window F))
      → Flows k s x r
      → Flows k r.0 y r'
      → Flows k s (x ++ y) (r'.0, r.1 ++ r'.1)
  Flows-behind k s x y r r' (inr h) (inr h') = inr (omega arith)
  Flows-behind k s x y r r' (inr h) (inl (l', e')) = inr (omega arith)
  Flows-behind k s x y r r' (inl (l, e)) (inr h') = inr (omega arith)
  Flows-behind k s x y r r' (inl (l, e)) (inl (l', e')) = inl (
    l' ∙ l,
    (rw (stream_bytes-append k r.1 r'.1, append_assoc)
        (ap (stream_bytes k r.1 ++◌) e'
          ∙ (sym (append_assoc (stream_bytes k r.1) (open_bytes k r.0.buffers) y)
              ∙ (ap (◌++ y) e ∙ append_assoc (open_bytes k s.buffers) x y)))),
  )

  -- the bytes that the record brings to the stream
  abbrev pub payload_for : StreamId → Record F → Bytes
  payload_for k r = if same_id (stream_of r) k then payload r else []

  put-IsKeyed :
      (d : Dict (IngestBuffer F)) (k : StreamId) (buf : IngestBuffer F)
      → IsKeyed d
      → buf.stream_id ≡ k
      → IsKeyed (put d k buf)
  put-IsKeyed d k buf v e = record {
    unique = put-IsUnique d k buf v.unique;
    named = Each-put (λ j b. b.stream_id ≡ j) d k buf v.named e;
  }

  put-open :
      (d : Dict (IngestBuffer F)) (j k : StreamId) (buf : IngestBuffer F)
      → same_id j k ≡ true
      → open_bytes k (put d j buf) ≡ join buf.chunks
  put-open d j k buf h = open_bytes-some (put d j buf) k buf (get-put d j k buf ∙ rw h refl)

  put-open_other :
      (d : Dict (IngestBuffer F)) (j k : StreamId) (buf : IngestBuffer F)
      → same_id j k ≡ false
      → open_bytes k (put d j buf) ≡ open_bytes k d
  put-open_other d j k buf h = rw (open_bytes, get-put d j k buf, h) refl

  -- The buffer that a record of the stream goes to: the stream's, or a new one.
  pub record IsBufferFor (s : BufferRouter F) (k : StreamId) (buf : IngestBuffer F) : Type 0 where
    pub named : buf.stream_id ≡ k
    pub held : open_bytes k s.buffers ≡ join buf.chunks
    pub counted : (elim (get s.buffers k) [ none ↦ 0 | some w ↦ w.dropped ]) ≡ buf.dropped

  -- A call on one buffer that takes the bytes, in the router.
  pub placed-Flows :
      (s : BufferRouter F) (j k : StreamId) (buf : IngestBuffer F) (body : Bytes)
      (out : IngestBuffer F × List (Window F))
      → IsBufferFor s j buf
      → Of buf.stream_id out
      → Taken buf body out
      → Flows k s (if same_id j k then body else []) (placed s j out)
  placed-Flows s j k buf body out b (named, windows) taken =
      let of = subst (λ i. All (IsOf i) out.1) b.named windows in
      let count = sum-put (λ (x : IngestBuffer F). x.dropped) s.buffers j out.0 in
      elim taken [
        | inr (d, t) ↦ inr (omega (arith, count, b.counted, d))
        | inl (d, t) ↦ inl (
          omega (arith, count, b.counted, d),
          elim (Bool-cases (same_id j k)) [
            | inl same ↦
                let here =
                  subst (λ i. open_bytes i s.buffers ≡ join buf.chunks) ((same_id_iff j k).0 same)
                    b.held in
                rw
                  (
                    same,
                    stream_bytes_own j k out.1 same of,
                    put-open s.buffers j k out.0 same,
                    here,
                  )
                  t
            | inr other ↦
                rw
                  (
                    other,
                    stream_bytes_other j k out.1 other of,
                    put-open_other s.buffers j k out.0 other,
                    append-nil,
                  )
                  refl
          ],
        )
      ]

  pub placed-IsKeyed :
      (s : BufferRouter F) (j : StreamId) (buf : IngestBuffer F)
      (out : IngestBuffer F × List (Window F))
      → IsKeyed s.buffers
      → IsBufferFor s j buf
      → Of buf.stream_id out
      → IsKeyed (placed s j out).0.buffers
  placed-IsKeyed s j buf out v b (named, windows) =
      put-IsKeyed s.buffers j out.0 v (named ∙ b.named)

  pub Source-IsBufferFor :
      (s : BufferRouter F) (k : StreamId) (buf : IngestBuffer F)
      → IsKeyed s.buffers
      → Source s k (some buf)
      → IsBufferFor s k buf
  unfolding Buffer.init
  Source-IsBufferFor s k _ v (found buf e) = record {
    named = Each-get (λ j b. b.stream_id ≡ j) s.buffers k buf v.named e;
    held = open_bytes-some s.buffers k buf e;
    counted = rw e refl;
  }
  Source-IsBufferFor s k _ v (fresh new room) = record {
    named = refl;
    held = open_bytes-none s.buffers k new;
    counted = rw new refl;
  }

module _ {F Arr : Type 0} (fl : Floats F) (np : Numpy Arr) where
  push_source :
      (now : F) (r : Record F) (s : BufferRouter F) (k : StreamId) (o : Option (IngestBuffer F))
      → IsKeyed s.buffers
      → Source s (stream_of r) o
      → Flows k s (payload_for k r) (stored fl np now r s o)
        × IsKeyed (stored fl np now r s o).0.buffers
  unfolding drop_record stored
  push_source now r s k none v h = (inr (omega arith), v)
  push_source now r s k (some buf) v h =
      let b = Source-IsBufferFor s (stream_of r) buf v h in
      let out = Buffer.push fl np now r buf in
      let of = push-Of fl np now r buf in
      (
        placed-Flows s (stream_of r) k buf (payload r) out b of (push-Taken fl np now r buf),
        placed-IsKeyed s (stream_of r) buf out v b of,
      )

  -- Let the router hold at most one buffer per stream, each under its own stream id. For any
  -- stream, either a push counts no drop, and the stream's emitted bytes followed by its open ones
  -- are those that were open followed by the record's samples, if it is the stream's; or the router
  -- or one of its buffers counts a drop.
  pub push-Flows :
      (now : F) (r : Record F) (s : BufferRouter F) (k : StreamId)
      → IsKeyed s.buffers
      → Flows k s (payload_for k r) (push fl np now (some r) s)
  push-Flows now r s k v =
      rw (push-stored fl np now r s)
        (push_source now r s k _ v (buffer_for-cases s (stream_of r))).0

  pub push-IsKeyed :
      (now : F) (r : Record F) (s : BufferRouter F)
      → IsKeyed s.buffers
      → IsKeyed (push fl np now (some r) s).0.buffers
  push-IsKeyed now r s v =
      rw (push-stored fl np now r s)
        (push_source now r s (stream_of r) _ v (buffer_for-cases s (stream_of r))).1
