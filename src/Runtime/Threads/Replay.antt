-- ===== src/Runtime/Threads/Replay.antt =====
-- A replay of src/sceptre_pipeline/sources.py through the threads of
-- src/sceptre_pipeline/runtime.py.
use mathlib.Core.Path.{subst, ◌≡⟨◌⟩◌, ◌∎}
use sceptre_pipeline.Prelude.{
  ℕ, ◌≤◌, ◌<◌, ◌≡◌, refl, sym, ap, ◌∙◌, Bool, true, false, true≢false, List, [], ◌∷◌, ◌++◌, length,
  arith, append_assoc, if◌then◌else◌, map, none, some,
}
use sceptre_pipeline.Prelude.Bytes.{Bytes}
use sceptre_pipeline.Floats.{Floats}
use sceptre_pipeline.Numpy.{Numpy}
use sceptre_pipeline.Dict.{StreamId}
use sceptre_pipeline.Interpreter.{process_all}
use sceptre_pipeline.Queue.{BoundedRawQueue}
use sceptre_pipeline.Queue.Lossy.{Within, Tracks, done, keep, skip}
use sceptre_pipeline.Recorder.{Packet}
use sceptre_pipeline.Sources.{Put, raw, replay_run}
use sceptre_pipeline.Sources.RecordReplay.{raw_puts, undisturbed, replay_loop-intact}
use sceptre_pipeline.Router.Drained.{IsKeyed, stream_bytes, open_bytes}
use sceptre_pipeline.Router.Flow.{lost}
use sceptre_pipeline.Runtime.{Pipeline, Item, timeout, datagram}
use sceptre_pipeline.Runtime.EndToEnd.{datagrams, samples_of, run-Flows}
use sceptre_pipeline.Runtime.Threads.{System, start, Reach}
use sceptre_pipeline.Runtime.Threads.Items.{puts_of, puts_of-append, IsOpen, Ends}
use sceptre_pipeline.Runtime.Threads.Refinement.{start-IsExecution, Reach-IsExecution}

-- the puts of a replay that is read whole
abbrev pub replay_puts : List Bytes → List Put
replay_puts [] = Put.shutdown ∷ []
replay_puts (body ∷ bodies) = raw body ∷ replay_puts bodies

length-Within : {A : Type 0} {xs ys : List A} → Within xs ys → length xs ≤ length ys
length-Within done = omega arith
length-Within (keep w) = omega (arith, length-Within w)
length-Within (skip w) = omega (arith, length-Within w)

-- A subsequence as long as the whole is the whole.
Within-whole : {A : Type 0} {xs ys : List A} → Within xs ys → length ys ≡ length xs → ys ≡ xs
Within-whole done e = refl
Within-whole (keep {x = x} w) e = ap (x ∷◌) (Within-whole w (omega arith))
Within-whole (skip w) e = absurd (omega (arith, length-Within w))

-- With no drop, what left the queue was received.
pub received_all :
    (history out : List Put) (q : BoundedRawQueue Put)
    → Tracks history out q
    → q.dropped ≡ 0
    → history ≡ out ++ q.items
received_all history out q t none_dropped =
    t.order ∙ ap (◌++ q.items) (Within-whole t.delivered (omega (arith, t.counted)))

module _ {F : Type 0} where
  -- What the loop got up to the mark is what was put up to it.
  same_bodies :
      (bodies : List Bytes) (items : List (Item F)) (rest : List Put)
      → IsOpen items
      → replay_puts bodies ≡ (puts_of items ++ Put.shutdown ∷ []) ++ rest
      → datagrams (items ++ Item.shutdown ∷ []) ≡ bodies
  same_bodies bodies (timeout clock ∷ items) rest h e = same_bodies bodies items rest h e
  same_bodies bodies (Item.shutdown ∷ items) rest h e = absurd h
  same_bodies [] [] rest h e = refl
  same_bodies [] (datagram bytes now clock ∷ items) rest h e = cc
  same_bodies (body ∷ bodies) [] rest h e = cc
  same_bodies (body ∷ bodies) (datagram bytes now clock ∷ items) rest h e =
      let head : body ≡ bytes = cc in
      let tail : replay_puts bodies ≡ (puts_of items ++ Put.shutdown ∷ []) ++ rest = cc in
      rw head (ap (bytes ∷◌) (same_bodies bodies items rest h tail))

  -- The loop that ended at the mark got every datagram of the replay.
  all_datagrams :
      (bodies : List Bytes) (history rest : List Put) (items : List (Item F))
      (q : BoundedRawQueue Put)
      → replay_puts bodies ≡ history ++ rest
      → Tracks history (puts_of items) q
      → q.dropped ≡ 0
      → Ends items
      → datagrams items ≡ bodies
  all_datagrams bodies history rest items q whole t none_dropped (xs, open_loop, e) =
      ap datagrams e
      ∙ same_bodies bodies xs (q.items ++ rest) open_loop (
          replay_puts bodies
          ≡⟨ whole ⟩ history ++ rest
          ≡⟨ ap (◌++ rest) (received_all history (puts_of items) q t none_dropped) ⟩
            (puts_of items ++ q.items) ++ rest
          ≡⟨ append_assoc (puts_of items) q.items rest ⟩ puts_of items ++ (q.items ++ rest)
          ≡⟨ ap (◌++ (q.items ++ rest)) (ap puts_of e ∙ puts_of-append xs (Item.shutdown ∷ [])) ⟩
            (puts_of xs ++ Put.shutdown ∷ []) ++ (q.items ++ rest) ∎)

marked_puts :
    (packets : List Packet)
    → raw_puts packets ++ Put.shutdown ∷ [] ≡ replay_puts (map (λ o. o.payload) packets)
marked_puts [] = refl
marked_puts (o ∷ packets) = ap (raw o.payload ∷◌) (marked_puts packets)

-- What a replay that is read whole puts on the queue.
pub replay_run-puts :
    (pace : Bool) (packets : List Packet)
    → (replay_run pace (undisturbed (some packets))).puts
      ≡ replay_puts (map (λ o. o.payload) packets)
unfolding replay_run
replay_run-puts pace packets =
    ap (λ out. out.puts ++ Put.shutdown ∷ []) (replay_loop-intact pace none packets)
    ∙ marked_puts packets

pub of_finished : (b : Bool) (A B : Type 0) → b ≡ true → (if b then A else B) → A
of_finished true A B e h = h
of_finished false A B e h = absurd (true≢false (sym e))

module _ {F Arr : Type 0} (fl : Floats F) (np : Numpy Arr) where
  -- That the end-of-stream mark stands behind the bodies is all that matters of the replay.
  bodies_samples :
      (maxsize : ℕ) (bodies : List Bytes) (p : Pipeline F) (s : System F) (k : StreamId)
      → 0 < maxsize
      → Reach fl np (start maxsize (replay_puts bodies) p) s
      → s.finished ≡ true
      → s.at_mark ≡ true
      → s.queue.dropped ≡ 0
      → IsKeyed p.router.buffers
      → lost s.pipeline.router ≡ lost p.router
      → stream_bytes k s.windows
        ≡ open_bytes k p.router.buffers ++ samples_of k (process_all fl p.interpreter bodies).1
  bodies_samples maxsize bodies p s k pos reach over marked none_dropped keyed none_lost =
      let v =
        Reach-IsExecution fl np (replay_puts bodies) p
          (start-IsExecution fl np maxsize (replay_puts bodies) p pos) reach in
      let ran = of_finished s.finished _ _ over v.sequential in
      let end_of = of_finished s.at_mark _ _ marked (of_finished s.finished _ _ over v.ended) in
      let bodies_eq =
        all_datagrams bodies v.history s.pending v.items s.queue v.whole v.tracks none_dropped
          end_of in
      ap (λ o. stream_bytes k o.1) (sym ran)
      ∙ (run-Flows fl np v.items p k keyed (ap (λ o. lost o.0.router) ran ∙ none_lost)
          ∙ ap
              (λ raws.
                open_bytes k p.router.buffers ++ samples_of k (process_all fl p.interpreter raws).1)
              bodies_eq)

  -- Let the packets of a capture be replayed, paced or not and without a disturbance, on a new
  -- queue of positive size, and let the steps of the replay's thread and of the consumer's come in
  -- any order. Suppose that in the end the consumer has returned, having left its loop at the
  -- end-of-stream mark, that the queue dropped nothing and the router counted no drop, and that at
  -- the start the router held at most one buffer per stream, each under its own id. Then the bytes
  -- of the windows emitted for a stream are those that were open at the start followed by the
  -- samples of the stream's data records that the interpreter makes of the payloads of all the
  -- packets.
  pub replay_samples :
      (pace : Bool) (packets : List Packet) (maxsize : ℕ) (p : Pipeline F) (s : System F)
      → (k : StreamId) → 0 < maxsize
      → Reach fl np (start maxsize (replay_run pace (undisturbed (some packets))).puts p) s
      → s.finished ≡ true
      → s.at_mark ≡ true
      → s.queue.dropped ≡ 0
      → IsKeyed p.router.buffers
      → lost s.pipeline.router ≡ lost p.router
      → stream_bytes k s.windows
        ≡ open_bytes k p.router.buffers
          ++ samples_of k (process_all fl p.interpreter (map (λ o. o.payload) packets)).1
  replay_samples pace packets maxsize p s k pos reach =
      bodies_samples maxsize (map (λ o. o.payload) packets) p s k pos
        (subst (λ puts. Reach fl np (start maxsize puts p) s) (replay_run-puts pace packets) reach)
