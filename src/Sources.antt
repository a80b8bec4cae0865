-- ===== src/Sources.antt =====
-- The loops of `LiveSource._run` and `ReplaySource._run` of src/sceptre_pipeline/sources.py: what
-- they put on the queue, and what they record.
pub mod RecordReplay
use sceptre_pipeline.Prelude.{
  ℕ, Bool, true, false, ◌&&◌, Option, none, some, List, [], ◌∷◌, ◌++◌, map, ltb, if◌then◌else◌,
}
use sceptre_pipeline.Prelude.Bytes.{Bytes}
use sceptre_pipeline.Recorder.{Packet, Recorder, append}

-- What a source puts on the queue.
pub data Put : Type 0 where
  raw : Bytes → Put
  shutdown : Put

-- A turn of the live loop: the socket times out, a datagram arrives (with the time and the sender
-- that the recorder is given), or the socket fails. The list of turns ends where the stop event is
-- set.
pub data Turn : Type 0 where
  quiet : Turn
  received : Packet → Turn
  broken : Turn

-- What a loop leaves: the items it put, in order, and whether it failed.
pub record Outcome : Type 0 where
  pub puts : List Put
  pub failed : Bool

abbrev pub record_packet : Option Recorder → Packet → Option Recorder
record_packet none p = none
record_packet (some r) p = some (append p r).0

-- the loop of `LiveSource._run`, behind the bind
unfoldable pub live_loop : List Turn → Option Recorder → Outcome × Option Recorder
live_loop [] recorder = (record { puts = []; failed = false }, recorder)
live_loop (quiet ∷ turns) recorder = live_loop turns recorder
live_loop (broken ∷ turns) recorder = (record { puts = []; failed = true }, recorder)
live_loop (received p ∷ turns) recorder =
    let (out, recorder') = live_loop turns (record_packet recorder p) in
    (record out { puts = raw p.payload ∷ out.puts }, recorder')

-- What `ReplaySource._run` sees of the stop event at one packet: `is_set()`, and whether the paced
-- sleep is interrupted.
pub record Stop : Type 0 where
  pub is_set : Bool
  pub woken : Bool

-- `self._pace and prev_ts_ns is not None`, and `delta_s > 0`
abbrev pub sleeps : Bool → Option ℕ → ℕ → Bool
sleeps pace none ts_ns = false
sleeps pace (some prev) ts_ns = pace && ltb prev ts_ns

-- the loop of `ReplaySource._run`; an entry whose time cannot be read is `none`. An entry with a time
-- is taken to have its payload, as all that a recorder writes have.
unfoldable pub replay_loop : Bool → Option ℕ → List (Option Packet × Stop) → Outcome
replay_loop pace prev [] = record { puts = []; failed = false }
replay_loop pace prev ((o, stop) ∷ rest) =
    if stop.is_set then record { puts = []; failed = false } else elim o [
      | none ↦ record { puts = []; failed = true }
      | some p ↦
          let out = replay_loop pace (some p.ts_ns) rest in
          if sleeps pace prev p.ts_ns && stop.woken
          then record { puts = []; failed = false }
          else record out { puts = raw p.payload ∷ out.puts }
    ]

-- `ReplaySource._run`; a capture that cannot be opened or read is `none`.
unfoldable pub replay_run : Bool → Option (List (Option Packet × Stop)) → Outcome
replay_run pace none = record { puts = shutdown ∷ []; failed = true }
replay_run pace (some packets) =
    let out = replay_loop pace none packets in record out { puts = out.puts ++ shutdown ∷ [] }
