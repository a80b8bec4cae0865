-- ===== src/Receiver.antt =====
-- `receive_udp` and `main` of receiver/recieve_udp.py, without what they print.
pub mod Complete
use Prim.Native.String.{String}
use sceptre_pipeline.Prelude.{
  ℕ, ◌||◌, not, Bool, true, false, Option, none, some, List, [], ◌∷◌, leb, ◌&&◌, if◌then◌else◌,
}
use sceptre_pipeline.Prelude.Int.{ℤ, pos, negsuc}
use sceptre_pipeline.Floats.{Floats}
use sceptre_pipeline.Recorder.{Packet, Recorder, Capture, append, save}
use sceptre_pipeline.Recorder

-- A turn of the capture loop, behind the first packet: the deadline is past, before the wait or
-- during it; a datagram arrives; or the user interrupts.
pub data Turn : Type 0 where
  expired : Turn
  received : Packet → Turn
  interrupted : Turn

-- the `while` loop
unfoldable pub capture_loop : List Turn → Recorder → Recorder
capture_loop [] r = r
capture_loop (expired ∷ turns) r = r
capture_loop (interrupted ∷ turns) r = r
capture_loop (received p ∷ turns) r = capture_loop turns (append p r).0

-- `receive_udp` behind the bind: what it saves, if a first packet arrives before an interrupt
unfoldable pub receive_udp : {F : Type 0} → F → Option Packet → List Turn → Option (Capture F)
receive_udp duration none turns = none
receive_udp duration (some p) turns =
    some (save p.ts_ns duration (capture_loop turns (append p (Recorder.init none none)).0))

-- `0 <= port <= 65_535`
abbrev pub in_range : ℤ → Bool
in_range (pos n) = leb n 65535
in_range (negsuc n) = false

-- the exits of `main`: status 2 of `parser.error`, or what `receive_udp` saves
pub data Exit (F : Type 0) : Type 0 where
  usage_error : Exit F
  done : Option (Capture F) → Exit F

-- `main` on the parsed port and duration
unfoldable pub main : {F : Type 0} → Floats F → ℤ → F → Option Packet → List Turn → Exit F
main fl port duration first turns =
    if not (in_range port)
    then usage_error
    else if fl.le duration (fl.of_nat 0)
    then usage_error
    else done (receive_udp duration first turns)
