-- ===== src/Runtime/Threads/Live.antt =====
-- A live source of src/sceptre_pipeline/sources.py through the threads of
-- src/sceptre_pipeline/runtime.py.
use sceptre_pipeline.Prelude.{
  ℕ, ◌<◌, ◌≡◌, refl, sym, ap, ◌∙◌, true, List, [], ◌∷◌, ◌++◌, append_assoc, map,
}
use sceptre_pipeline.Prelude.Bytes.{Bytes}
use sceptre_pipeline.Floats.{Floats}
use sceptre_pipeline.Numpy.{Numpy}
use sceptre_pipeline.Dict.{StreamId}
use sceptre_pipeline.Interpreter.{process_all}
use sceptre_pipeline.Recorder.{Packet}
use sceptre_pipeline.Sources.{Put}
use sceptre_pipeline.Sources.RecordReplay.{raw_puts}
use sceptre_pipeline.Router.Drained.{IsKeyed, stream_bytes, open_bytes}
use sceptre_pipeline.Router.Flow.{lost}
use sceptre_pipeline.Runtime.{Pipeline, Item, timeout, datagram, run}
use sceptre_pipeline.Runtime.EndToEnd.{datagrams, samples_of, run-Flows}
use sceptre_pipeline.Runtime.Threads.{System, start, Reach}
use sceptre_pipeline.Runtime.Threads.Items.{puts_of}
use sceptre_pipeline.Runtime.Threads.Refinement.{Reach-refines}
use sceptre_pipeline.Runtime.Threads.Replay.{received_all, of_finished}

abbrev pub payloads : List Packet → List Bytes
payloads packets = map (λ o. o.payload) packets

module _ {F : Type 0} where
  -- A first part of the packets that the loop got, and those that it did not get.
  pub record IsSplit (packets : List Packet) (items : List (Item F)) (rest : List Put)
      : Type 0 where
    pub taken : List Packet
    pub behind : List Packet
    pub whole : packets ≡ taken ++ behind
    pub got : datagrams items ≡ payloads taken
    pub left : rest ≡ raw_puts behind

  -- Without an end-of-stream mark, what the loop got are the first of the packets.
  pub first_packets :
      (packets : List Packet) (items : List (Item F)) (rest : List Put)
      → raw_puts packets ≡ puts_of items ++ rest
      → IsSplit packets items rest
  first_packets packets [] rest e = record {
    taken = [];
    behind = packets;
    whole = refl;
    got = refl;
    left = sym e;
  }
  first_packets packets (timeout clock ∷ items) rest e =
      let s = first_packets packets items rest e in
      record { taken = s.taken; behind = s.behind; whole = s.whole; got = s.got; left = s.left }
  first_packets [] (Item.shutdown ∷ items) rest e = absurd (cc e)
  first_packets (o ∷ packets) (Item.shutdown ∷ items) rest e = absurd (cc e)
  first_packets [] (datagram bytes now clock ∷ items) rest e = absurd (cc e)
  first_packets (o ∷ packets) (datagram bytes now clock ∷ items) rest e =
      let head : bytes ≡ o.payload = cc in
      let tail : raw_puts packets ≡ puts_of items ++ rest = cc in
      let s = first_packets packets items rest tail in
      record {
        taken = o ∷ s.taken;
        behind = s.behind;
        whole = ap (o ∷◌) s.whole;
        got = rw head (ap (o.payload ∷◌) s.got);
        left = s.left;
      }

module _ {F Arr : Type 0} (fl : Floats F) (np : Numpy Arr) where
  -- What an execution that was stopped leaves: the windows hold the samples of the first packets,
  -- and the other packets are in the queue or were not put.
  pub record IsCutOff (packets : List Packet) (p : Pipeline F) (s : System F) : Type 0 where
    pub items : List (Item F)
    pub ran : run fl np items p ≡ (s.pipeline, s.windows)
    pub split : IsSplit packets items (s.queue.items ++ s.pending)
    pub samples :
        (k : StreamId)
        → stream_bytes k s.windows
          ≡ open_bytes k p.router.buffers
            ++ samples_of k (process_all fl p.interpreter (payloads split.taken)).1

  pub live-IsCutOff :
      (maxsize : ℕ) (packets : List Packet) (p : Pipeline F) (s : System F)
      → 0 < maxsize
      → Reach fl np (start maxsize (raw_puts packets) p) s
      → s.finished ≡ true
      → s.queue.dropped ≡ 0
      → IsKeyed p.router.buffers
      → lost s.pipeline.router ≡ lost p.router
      → IsCutOff packets p s
  live-IsCutOff maxsize packets p s pos reach over none_dropped keyed none_lost =
      let v = Reach-refines fl np (raw_puts packets) p maxsize s pos reach in
      let ran = of_finished s.finished _ _ over v.sequential in
      let split = first_packets packets v.items (s.queue.items ++ s.pending) (
        v.whole
        ∙ (ap (◌++ s.pending)
              (received_all v.history (puts_of v.items) s.queue v.tracks none_dropped)
            ∙ append_assoc (puts_of v.items) s.queue.items s.pending)) in
      record {
        items = v.items;
        ran = ran;
        split = split;
        samples = λ k.
            ap (λ o. stream_bytes k o.1) (sym ran)
            ∙ (run-Flows fl np v.items p k keyed (ap (λ o. lost o.0.router) ran ∙ none_lost)
                ∙ ap
                    (λ raws.
                      open_bytes k p.router.buffers
                      ++ samples_of k (process_all fl p.interpreter raws).1)
                    split.got);
      }
