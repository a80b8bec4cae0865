-- ===== src/Receiver/Complete.antt =====
-- What receiver/recieve_udp.py saves.
use sceptre_pipeline.Prelude.{
  ℕ, ◌≤◌, ◌≡◌, refl, sym, ap, ◌∙◌, false, none, some, List, [], ◌∷◌, ◌++◌, append-nil, append_assoc,
  le→leb,
}
use sceptre_pipeline.Prelude.Int.{pos}
use sceptre_pipeline.Floats.{Floats}
use sceptre_pipeline.Recorder.{Packet, Recorder, Capture, append, save}
use sceptre_pipeline.Recorder
use sceptre_pipeline.Receiver.{
  Turn, expired, received, interrupted, capture_loop, receive_udp, done, main,
}

-- the packets that arrive before the loop ends
abbrev pub arrivals_of : List Turn → List Packet
arrivals_of [] = []
arrivals_of (expired ∷ turns) = []
arrivals_of (interrupted ∷ turns) = []
arrivals_of (received p ∷ turns) = p ∷ arrivals_of turns

-- A recorder that nothing can cap.
pub record IsOpen (r : Recorder) : Type 0 where
  pub no_packets_cap : r.max_packets ≡ none
  pub no_bytes_cap : r.max_bytes ≡ none
  pub going : r.capped ≡ false

init-IsOpen : IsOpen (Recorder.init none none)
unfolding Recorder.init
init-IsOpen = record { no_packets_cap = refl; no_bytes_cap = refl; going = refl }

append-IsOpen :
    (p : Packet) (r : Recorder)
    → IsOpen r
    → IsOpen (append p r).0 × ((append p r).0.packets ≡ r.packets ++ p ∷ [])
unfolding append
append-IsOpen p r o =
    rw (o.going, o.no_packets_cap, o.no_bytes_cap)
      (record { no_packets_cap = refl; no_bytes_cap = refl; going = refl }, refl)

capture_loop-packets :
    (turns : List Turn) (r : Recorder)
    → IsOpen r
    → (capture_loop turns r).packets ≡ r.packets ++ arrivals_of turns
unfolding capture_loop
capture_loop-packets [] r o = sym (append-nil r.packets)
capture_loop-packets (expired ∷ turns) r o = sym (append-nil r.packets)
capture_loop-packets (interrupted ∷ turns) r o = sym (append-nil r.packets)
capture_loop-packets (received p ∷ turns) r o =
    let (o', e) = append-IsOpen p r o in
    capture_loop-packets turns (append p r).0 o'
    ∙ (ap (◌++ arrivals_of turns) e ∙ append_assoc r.packets (p ∷ []) (arrivals_of turns))

first_and_rest :
    (first : Packet) (turns : List Turn)
    → (capture_loop turns (append first (Recorder.init none none)).0).packets
      ≡ first ∷ arrivals_of turns
unfolding Recorder.init
first_and_rest first turns =
    let (o, e) = append-IsOpen first (Recorder.init none none) init-IsOpen in
    capture_loop-packets turns _ o ∙ ap (◌++ arrivals_of turns) e

module _ {F : Type 0} (fl : Floats F) where
  -- With a port up to 65535, a positive duration and a first packet, the standalone receiver saves
  -- a capture that starts at that packet's time and holds it and every packet that arrives before
  -- the deadline or an interrupt, in order.
  pub main-saves :
      (port : ℕ) (duration : F) (first : Packet) (turns : List Turn)
      → port ≤ 65535
      → fl.le duration (fl.of_nat 0) ≡ false
      → main fl (pos port) duration (some first) turns
        ≡ done (
            some (record {
              start_time_ns = first.ts_ns;
              duration_seconds = duration;
              packets = first ∷ arrivals_of turns;
            }))
  unfolding main receive_udp save
  main-saves port duration first turns h positive =
      rw (le→leb port 65535 h, positive, first_and_rest first turns) refl
