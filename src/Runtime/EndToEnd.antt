-- ===== src/Runtime/EndToEnd.antt =====
-- A session of src/sceptre_pipeline/runtime.py, from datagrams to windows.
use mathlib.Core.Path.{subst}
use sceptre_pipeline.Prelude.{
  ◌≡◌, refl, sym, ap, ◌∙◌, Option, none, some, List, [], ◌∷◌, ◌++◌, arith, inl, inr, append-nil,
}
use sceptre_pipeline.Prelude.Bytes.{Bytes}
use sceptre_pipeline.Floats.{Floats}
use sceptre_pipeline.Numpy.{Numpy}
use sceptre_pipeline.Dict.{StreamId}
use sceptre_pipeline.Interpreter.{Interpreter, Record, process, process_all}
use sceptre_pipeline.Buffer.{Window}
use sceptre_pipeline.Buffer.Windows.{All, All-append, IsWindow}
use sceptre_pipeline.Router.{BufferRouter, push, stream_of, maybe_flush_on_age, flush_all}
use sceptre_pipeline.Router.Routed.{
  IsRouted, Routed, IsWindowOf, push-IsRouted, age-IsRouted, flush_all-IsRouted,
}
use sceptre_pipeline.Router.Drained.{IsKeyed, stream_bytes, open_bytes}
use sceptre_pipeline.Router.Flow.{lost, Flows, Flows-behind, payload_for, push-Flows, push-IsKeyed}
use sceptre_pipeline.Router.Polled.{age-Flows, age-IsKeyed, flush_all-Flows, flush_all-open}
use sceptre_pipeline.Runtime.{Pipeline, Item, shutdown, timeout, datagram, poll, handle, loop, run}

module _ {F : Type 0} where
  -- the datagrams that the loop takes
  abbrev pub datagrams : List (Item F) → List Bytes
  datagrams [] = []
  datagrams (shutdown ∷ items) = []
  datagrams (timeout clock ∷ items) = datagrams items
  datagrams (datagram raw now clock ∷ items) = raw ∷ datagrams items

  -- the samples that the records bring to the stream, in order
  abbrev pub samples_of : StreamId → List (Record F) → Bytes
  samples_of k [] = []
  samples_of k (r ∷ rs) = payload_for k r ++ samples_of k rs

  abbrev pub samples_of_one : StreamId → Option (Record F) → Bytes
  samples_of_one k none = []
  samples_of_one k (some r) = payload_for k r

  pub samples_of-join :
      (k : StreamId) (o : Option (Record F)) (rs : List (Record F))
      → samples_of k (elim o [ none ↦ rs | some x ↦ x ∷ rs ])
        ≡ samples_of_one k o ++ samples_of k rs
  samples_of-join k none rs = refl
  samples_of-join k (some r) rs = refl

module _ {F Arr : Type 0} (fl : Floats F) (np : Numpy Arr) where
  push_opt-Flows :
      (now : F) (o : Option (Record F)) (s : BufferRouter F) (k : StreamId)
      → IsKeyed s.buffers
      → Flows k s (samples_of_one k o) (push fl np now o s) × IsKeyed (push fl np now o s).0.buffers
  unfolding push
  push_opt-Flows now none s k v = (inl (refl, sym (append-nil _)), v)
  push_opt-Flows now (some r) s k v = (push-Flows fl np now r s k v, push-IsKeyed fl np now r s v)

  -- what the interpreter makes of a run of datagrams
  abbrev records : Interpreter F → List Bytes → List (Record F)
  records i raws = (process_all fl i raws).1

  loop-interpreter :
      (items : List (Item F)) (p : Pipeline F)
      → (loop fl np items p).0.interpreter ≡ (process_all fl p.interpreter (datagrams items)).0
  unfolding loop process_all poll handle
  loop-interpreter [] p = refl
  loop-interpreter (shutdown ∷ items) p = refl
  loop-interpreter (timeout clock ∷ items) p = loop-interpreter items _
  loop-interpreter (datagram raw now clock ∷ items) p = loop-interpreter items _

  loop-IsKeyed :
      (items : List (Item F)) (p : Pipeline F)
      → IsKeyed p.router.buffers
      → IsKeyed (loop fl np items p).0.router.buffers
  unfolding loop poll handle
  loop-IsKeyed [] p v = v
  loop-IsKeyed (shutdown ∷ items) p v = v
  loop-IsKeyed (timeout clock ∷ items) p v =
      loop-IsKeyed items _ (age-IsKeyed fl np clock p.router v)
  loop-IsKeyed (datagram raw now clock ∷ items) p v = loop-IsKeyed items _ (
      age-IsKeyed fl np clock _
        (push_opt-Flows now (process fl p.interpreter raw).1 p.router none v).1)

  windows_of :
      (k : StreamId) (ws : List (Window F)) → All (IsWindowOf np k) ws → All (IsWindow np) ws
  windows_of k [] h = tt
  windows_of k (w ∷ ws) h = (h.0.window, windows_of k ws h.1)

  push_opt-Routed :
      (now : F) (o : Option (Record F)) (s : BufferRouter F)
      → IsRouted np s
      → Routed np (push fl np now o s)
  unfolding push
  push_opt-Routed now none s v = (v, tt)
  push_opt-Routed now (some r) s v =
      let (v', g) = push-IsRouted fl np now r s v in (v', windows_of (stream_of r) _ g)

  loop-Flows :
      (items : List (Item F)) (p : Pipeline F) (k : StreamId)
      → IsKeyed p.router.buffers
      → Flows k p.router
          (samples_of k (records p.interpreter (datagrams items)))
          ((loop fl np items p).0.router, (loop fl np items p).1)
  unfolding loop poll handle process_all
  loop-Flows [] p k v = inl (refl, sym (append-nil _))
  loop-Flows (shutdown ∷ items) p k v = inl (refl, sym (append-nil _))
  loop-Flows (timeout clock ∷ items) p k v =
      let r1 = maybe_flush_on_age fl clock p.router in
      let p1 : Pipeline F = record { interpreter = p.interpreter; router = r1.0 } in
      let r = loop fl np items p1 in
      Flows-behind k p.router [] (samples_of k (records p.interpreter (datagrams items))) r1
        (r.0.router, r.1) (age-Flows fl np clock p.router k v)
        (loop-Flows items p1 k (age-IsKeyed fl np clock p.router v))
  loop-Flows (datagram raw now clock ∷ items) p k v =
      let (i, o) = process fl p.interpreter raw in
      let r1 = push fl np now o p.router in
      let r2 = maybe_flush_on_age fl clock r1.0 in
      let (f1, v1) = push_opt-Flows now o p.router k v in
      let f2 = age-Flows fl np clock r1.0 k v1 in
      let p1 : Pipeline F = record { interpreter = i; router = r2.0 } in
      let r = loop fl np items p1 in
      let f3 = loop-Flows items p1 k (age-IsKeyed fl np clock r1.0 v1) in
      let first = samples_of_one k o in
      let rs = records i (datagrams items) in
      subst (λ body. Flows k p.router body (r.0.router, r1.1 ++ r2.1 ++ r.1))
        (ap (◌++ samples_of k rs) (append-nil first) ∙ sym (samples_of-join k o rs))
        (Flows-behind k p.router (first ++ []) (samples_of k rs) (r2.0, r1.1 ++ r2.1)
          (r.0.router, r.1) (Flows-behind k p.router first [] r1 r2 f1 f2) f3)

  -- Let the router hold at most one buffer per stream, each under its own stream id. If a session
  -- counts no drop in the router or in its buffers, then the bytes of the windows emitted for a
  -- stream, in order, are the bytes that were open at the start, followed by the samples of the
  -- stream's data records that the interpreter makes of the datagrams taken: none is lost, doubled
  -- or moved.
  pub run-Flows :
      (items : List (Item F)) (p : Pipeline F) (k : StreamId)
      → IsKeyed p.router.buffers
      → lost (run fl np items p).0.router ≡ lost p.router
      → stream_bytes k (run fl np items p).1
        ≡ open_bytes k p.router.buffers
          ++ samples_of k (process_all fl p.interpreter (datagrams items)).1
  unfolding run
  run-Flows items p k v none_lost =
      let r = loop fl np items p in
      let out = flush_all r.0.router in
      elim (Flows-behind k p.router (samples_of k (records p.interpreter (datagrams items))) []
        (r.0.router, r.1) out (loop-Flows items p k v)
        (flush_all-Flows r.0.router k (loop-IsKeyed items p v))) [
          | inl (same, e) ↦
              sym (append-nil _)
              ∙ (ap (stream_bytes k (r.1 ++ out.1) ++◌) (sym (flush_all-open r.0.router k))
                  ∙ (e ∙ ap (open_bytes k p.router.buffers ++◌) (append-nil _)))
          | inr more ↦ absurd (omega arith)
        ]

  loop-IsRouted :
      (items : List (Item F)) (p : Pipeline F)
      → IsRouted np p.router
      → Routed np ((loop fl np items p).0.router, (loop fl np items p).1)
  unfolding loop poll handle
  loop-IsRouted [] p v = (v, tt)
  loop-IsRouted (shutdown ∷ items) p v = (v, tt)
  loop-IsRouted (timeout clock ∷ items) p v =
      let (v1, g1) = age-IsRouted fl np clock p.router v in
      let (v2, g2) = loop-IsRouted items _ v1 in (v2, All-append (IsWindow np) _ _ g1 g2)
  loop-IsRouted (datagram raw now clock ∷ items) p v =
      let (v1, g1) = push_opt-Routed now (process fl p.interpreter raw).1 p.router v in
      let (v2, g2) = age-IsRouted fl np clock _ v1 in
      let (v3, g3) = loop-IsRouted items _ v2 in
      (v3, All-append (IsWindow np) _ _ (All-append (IsWindow np) _ _ g1 g2) g3)

  -- If at the start the router has at most `max_streams` buffers, each well formed and under its
  -- own stream id, then it has so at the end of a session, and every window emitted on the way, the
  -- final ones included, is convertible, non-empty, labelled and rightly counted.
  pub run-IsRouted :
      (items : List (Item F)) (p : Pipeline F)
      → IsRouted np p.router
      → Routed np ((run fl np items p).0.router, (run fl np items p).1)
  unfolding run
  run-IsRouted items p v =
      let (v1, g1) = loop-IsRouted items p v in
      let (v2, g2) = flush_all-IsRouted np _ v1 in (v2, All-append (IsWindow np) _ _ g1 g2)

  -- At the end of a session no stream has a sample left in an open window.
  run-drained :
      (items : List (Item F)) (p : Pipeline F) (k : StreamId)
      → open_bytes k (run fl np items p).0.router.buffers ≡ []
  unfolding run
  run-drained items p k = flush_all-open (loop fl np items p).0.router k

  -- At the end of a session the interpreter is as it is after the datagrams taken before the
  -- end-of-stream mark, in order: neither timeouts nor the router touch it.
  run-interpreter :
      (items : List (Item F)) (p : Pipeline F)
      → (run fl np items p).0.interpreter ≡ (process_all fl p.interpreter (datagrams items)).0
  unfolding run
  run-interpreter items p = loop-interpreter items p
