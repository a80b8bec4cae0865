-- ===== src/Router/Routed.antt =====
-- The buffers and windows of `BufferRouter` of src/sceptre_pipeline/buffer.py.
use mathlib.Core.Path.{subst}
use sceptre_pipeline.Prelude.{
  ℕ, ◌≤◌, ◌≡◌, refl, ◌∙◌, Option, none, some, List, [], ◌∷◌, arith, Bool, true, leb_false→lt,
}
use sceptre_pipeline.Floats.{Floats}
use sceptre_pipeline.Numpy.{Numpy}
use sceptre_pipeline.Dict.{StreamId, Dict, put, size}
use sceptre_pipeline.Dict.Laws.{size-put}
use sceptre_pipeline.Dict.Each.{Each, Each-get, Each-put}
use sceptre_pipeline.Interpreter.{Record}
use sceptre_pipeline.Buffer.{Field, IngestBuffer, Window, flush, flush_if}
use sceptre_pipeline.Buffer
use sceptre_pipeline.Buffer.Windows.{All, All-append, IsWindow, IsValid, flush_if-Good}
use sceptre_pipeline.Buffer.Steps.{push-Good, init-IsValid}
use sceptre_pipeline.Buffer.Identity.{IsOf, push-Of, flush_if-Of}
use sceptre_pipeline.Router.Visits.{Visits, unvisited, visited, for_each-Visits}
use sceptre_pipeline.Router.{
  BufferRouter, init, stream_of, drop_record, flush_all, push, maybe_flush_on_age,
}
use sceptre_pipeline.Router.Stored.{
  Source, found, fresh, buffer_for-cases, placed, stored, push-stored,
}

module _ {F Arr : Type 0} (np : Numpy Arr) where
  -- A buffer under its stream's id.
  pub record IsBufferOf (k : StreamId) (buf : IngestBuffer F) : Type 0 where
    pub valid : IsValid np buf
    pub named : buf.stream_id ≡ k

  pub record IsRouted (s : BufferRouter F) : Type 0 where
    pub bounded : size s.buffers ≤ s.max_streams
    pub buffers : Each IsBufferOf s.buffers

  -- A window, and of the stream.
  pub record IsWindowOf (k : StreamId) (w : Window F) : Type 0 where
    pub window : IsWindow np w
    pub named : w.stream_id ≡ k

  abbrev pub Routed : BufferRouter F × List (Window F) → Type 0
  Routed r = IsRouted r.0 × All (IsWindow np) r.1

  both :
      (k : StreamId) (ws : List (Window F))
      → All (IsWindow np) ws
      → All (IsOf k) ws
      → All (IsWindowOf k) ws
  both k [] g o = tt
  both k (w ∷ ws) g o = (record { window = g.0; named = o.0 }, both k ws g.1 o.1)

  pub Visits-Each :
      (f : StreamId → IngestBuffer F → IngestBuffer F × List (Window F))
      → ((k : StreamId) (buf : IngestBuffer F)
          → IsBufferOf k buf
          → IsBufferOf k (f k buf).0 × All (IsWindow np) (f k buf).1)
      → {d d' : Dict (IngestBuffer F)} {ws : List (Window F)} → Visits f d (d', ws)
      → Each IsBufferOf d
      → Each IsBufferOf d' × All (IsWindow np) ws
  Visits-Each f step (unvisited d) h = (h, tt)
  Visits-Each f step (visited k buf d d' ws v) (p, h) =
      let (q, g) = step k buf p in
      let (hs, gs) = Visits-Each f step v h in
      ((q, hs), All-append (IsWindow np) (f k buf).1 _ g gs)

  pub size-Visits :
      (f : StreamId → IngestBuffer F → IngestBuffer F × List (Window F))
      → {d d' : Dict (IngestBuffer F)} → {ws : List (Window F)} → Visits f d (d', ws)
      → size d' ≡ size d
  size-Visits f (unvisited d) = refl
  size-Visits f (visited k buf d d' ws v) = omega (arith, size-Visits f v)

  -- a loop over buffers that keeps each well formed
  pub Visits-Routed :
      (f : StreamId → IngestBuffer F → IngestBuffer F × List (Window F))
      → ((k : StreamId) (buf : IngestBuffer F)
          → IsBufferOf k buf
          → IsBufferOf k (f k buf).0 × All (IsWindow np) (f k buf).1)
      → {d' : Dict (IngestBuffer F)} {ws : List (Window F)} (s : BufferRouter F)
      → Visits f s.buffers (d', ws)
      → IsRouted s
      → Routed (record s { buffers = d' }, ws)
  Visits-Routed f step s h v =
      let (each, good) = Visits-Each f step h v.buffers in
      (record { bounded = omega (arith, v.bounded, size-Visits f h); buffers = each }, good)

  pub init-IsRouted :
      (max_samples : ℕ) (max_age_s : F) (fields : List Field) (max_streams : ℕ)
      → IsRouted (init max_samples max_age_s fields max_streams)
  unfolding init
  init-IsRouted max_samples max_age_s fields max_streams = record {
    bounded = omega arith;
    buffers = tt;
  }

  pub flush_if-IsBufferOf :
      (test : Bool) (k : StreamId) (buf : IngestBuffer F)
      → IsBufferOf k buf
      → IsBufferOf k (flush_if test buf).0 × All (IsWindow np) (flush_if test buf).1
  flush_if-IsBufferOf test k buf p =
      let good = flush_if-Good np test buf p.valid in
      (record { valid = good.0; named = (flush_if-Of k test buf p.named).0 }, good.1)

  pub flush_all-IsRouted : (s : BufferRouter F) → IsRouted s → Routed (flush_all s)
  unfolding flush_all flush_if
  flush_all-IsRouted s v =
      Visits-Routed (λ k buf. flush buf) (λ k buf p. flush_if-IsBufferOf true k buf p) s
        (for_each-Visits _ s.buffers) v

  -- a stream's buffer or a new one
  pub Source-IsBufferOf :
      (s : BufferRouter F) (k : StreamId) (buf : IngestBuffer F)
      → IsRouted s
      → Source s k (some buf)
      → IsBufferOf k buf × ((b : IngestBuffer F) → size (put s.buffers k b) ≤ s.max_streams)
  unfolding Buffer.init
  Source-IsBufferOf s k _ v (found buf e) = (
    Each-get IsBufferOf s.buffers k buf v.buffers e,
    λ b. omega (arith, v.bounded, rw e at (size-put s.buffers k b)),
  )
  Source-IsBufferOf s k _ v (fresh new room) = (
    record { valid = init-IsValid np s.max_samples s.max_age_s k s.flush_fields; named = refl },
    λ b. omega (
      arith,
      v.bounded,
      leb_false→lt s.max_streams (size s.buffers) room,
      rw new at (size-put s.buffers k b),
    ),
  )

  -- the router after a call that leaves the buffer well formed
  pub placed-IsRouted :
      (s : BufferRouter F) (k : StreamId) (buf : IngestBuffer F)
      (out : IngestBuffer F × List (Window F))
      → IsRouted s
      → Source s k (some buf)
      → IsBufferOf k out.0
      → IsRouted (placed s k out).0
  placed-IsRouted s k buf out v h p = record {
    bounded = (Source-IsBufferOf s k buf v h).1 out.0;
    buffers = Each-put IsBufferOf s.buffers k out.0 v.buffers p;
  }

module _ {F Arr : Type 0} (fl : Floats F) (np : Numpy Arr) where
  pub age-IsRouted :
      (clock : StreamId → F) (s : BufferRouter F)
      → IsRouted np s
      → Routed np (maybe_flush_on_age fl clock s)
  unfolding maybe_flush_on_age Buffer.maybe_flush_on_age
  age-IsRouted clock s v =
      Visits-Routed np (λ k buf. Buffer.maybe_flush_on_age fl (clock k) buf)
        (λ k buf p. flush_if-IsBufferOf np _ k buf p) s (for_each-Visits _ s.buffers) v

  -- a push to a well-formed buffer
  pub push-IsBufferOf :
      (now : F) (r : Record F) (k : StreamId) (buf : IngestBuffer F)
      → IsBufferOf np k buf
      → IsBufferOf np k (Buffer.push fl np now r buf).0
        × All (IsWindowOf np k) (Buffer.push fl np now r buf).1
  push-IsBufferOf now r k buf p =
      let good = push-Good fl np now r buf p.valid in
      let of = push-Of fl np now r buf in
      (
        record { valid = good.0; named = of.0 ∙ p.named },
        both np k _ good.1 (subst (λ j. All (IsOf j) (Buffer.push fl np now r buf).1) p.named of.1),
      )

  stored-IsRouted :
      (now : F) (r : Record F) (s : BufferRouter F) (o : Option (IngestBuffer F))
      → IsRouted np s
      → Source s (stream_of r) o
      → IsRouted np (stored fl np now r s o).0
        × All (IsWindowOf np (stream_of r)) (stored fl np now r s o).1
  unfolding stored drop_record
  stored-IsRouted now r s none v h = (record { bounded = v.bounded; buffers = v.buffers }, tt)
  stored-IsRouted now r s (some buf) v h =
      let out = Buffer.push fl np now r buf in
      let (p, good) =
        push-IsBufferOf now r (stream_of r) buf (Source-IsBufferOf np s (stream_of r) buf v h).0 in
      (placed-IsRouted np s (stream_of r) buf out v h p, good)

  -- If the router has at most `max_streams` buffers, each well formed and under its own stream id,
  -- then it has so after a push, and every window that the push emits is well formed and of the
  -- record's stream.
  pub push-IsRouted :
      (now : F) (r : Record F) (s : BufferRouter F)
      → IsRouted np s
      → IsRouted np (push fl np now (some r) s).0
        × All (IsWindowOf np (stream_of r)) (push fl np now (some r) s).1
  push-IsRouted now r s v =
      rw (push-stored fl np now r s)
        (stored-IsRouted now r s _ v (buffer_for-cases s (stream_of r)))
