-- ===== src/Live/Running.antt =====
-- What the thread of `LiveSource` of src/sceptre_pipeline/sources.py leaves.
use sceptre_pipeline.Prelude.{
  ℕ, ◌≡◌, ◌↔◌, ◌⊎◌, or_iff, refl, true, true≢false, Option, some, List, [], ◌∷◌, sym, none,
}
use sceptre_pipeline.Recorder.{Packet, Recorder, append_all}
use sceptre_pipeline.Sources.{Put, Turn, live_loop, quiet, received, broken}
use sceptre_pipeline.Sources.RecordReplay.{raw_puts, packets_of, live_loop-puts, live_loop-recorder}
use sceptre_pipeline.Live.{
  LiveSource, Bind, bound, os_error, other_error, Os, configure_rcvbuf, listen, run,
}

-- The socket fails during the loop.
abbrev pub Breaks : List Turn → Type 0
Breaks [] = ⊥
Breaks (quiet ∷ turns) = Breaks turns
Breaks (received p ∷ turns) = Breaks turns
Breaks (broken ∷ turns) = Unit

live_loop-failed :
    (turns : List Turn) (r : Option Recorder) → ((live_loop turns r).0.failed ≡ true) ↔ Breaks turns
unfolding live_loop
live_loop-failed [] r = ((λ e. absurd (true≢false (sym e))), (λ b. absurd b))
live_loop-failed (quiet ∷ turns) r = live_loop-failed turns r
live_loop-failed (received p ∷ turns) r = live_loop-failed turns _
live_loop-failed (broken ∷ turns) r = ((λ e. tt), (λ b. refl))

-- the recorder, if there is one, after some packets
abbrev pub recorder_after : List Packet → Option Recorder → Option Recorder
recorder_after ps none = none
recorder_after ps (some r) = some (append_all ps r)

recorded :
    (turns : List Turn) (o : Option Recorder)
    → (live_loop turns o).1 ≡ recorder_after (packets_of turns) o
unfolding live_loop
recorded turns (some r) = live_loop-recorder turns r
recorded [] none = refl
recorded (quiet ∷ turns) none = recorded turns none
recorded (received p ∷ turns) none = recorded turns none
recorded (broken ∷ turns) none = refl

-- Where the socket was bound, the loop ran on the turns: it put and recorded every datagram before
-- its end, and `failed` is set where the socket failed or it was set. Where not, nothing was put or recorded.
abbrev pub Ran : Bind → List Turn → LiveSource → LiveSource → List Put → Type 0
Ran (bound addr) turns s s' puts =
    (s'.bound_address ≡ some addr)
    × (puts ≡ raw_puts (packets_of turns))
    × ((s'.failed ≡ true) ↔ ((s.failed ≡ true) ⊎ Breaks turns))
    × (s'.recorder ≡ recorder_after (packets_of turns) s.recorder)
Ran os_error turns s s' puts =
    (s'.bound_address ≡ s.bound_address)
    × (puts ≡ [])
    × (s'.failed ≡ true)
    × (s'.recorder ≡ s.recorder)
Ran other_error turns s s' puts =
    (s'.bound_address ≡ s.bound_address)
    × (puts ≡ [])
    × (s'.failed ≡ s.failed)
    × (s'.recorder ≡ s.recorder)

listen-Ran :
    (b : Bind) (turns : List Turn) (s : LiveSource) (granted : Option ℕ)
    → let (s', puts) = listen b turns (record s { granted_rcvbuf = granted }) in
      (s'.ready ≡ true) × (s'.granted_rcvbuf ≡ granted) × Ran b turns s s' puts
unfolding listen
listen-Ran (bound addr) turns s granted = (
  refl,
  refl,
  (
    refl,
    live_loop-puts turns s.recorder,
    or_iff s.failed _ (live_loop-failed turns s.recorder),
    recorded turns s.recorder,
  ),
)
listen-Ran os_error turns s granted = (refl, refl, (refl, refl, refl, refl))
listen-Ran other_error turns s granted = (refl, refl, (refl, refl, refl, refl))

-- When the thread of a live source ends, its `ready` event is set and the granted receive buffer is
-- what the system reported. If the socket was bound, then its address is known, every datagram
-- received before the end of the loop was put in order and, if there is a recorder, offered to it,
-- and `failed` is set just if it was set before or the socket failed in the loop. If not, nothing
-- was put or recorded and no address was set, and `failed` is set if the bind raised an OSError and
-- is as it was if it raised another exception.
pub run-Ran :
    (os : Os) (turns : List Turn) (s : LiveSource)
    → let (s', puts) = run os turns s in
      (s'.ready ≡ true) × (s'.granted_rcvbuf ≡ os.granted) × Ran os.bind turns s s' puts
unfolding run configure_rcvbuf
run-Ran os turns s = listen-Ran os.bind turns s os.granted
