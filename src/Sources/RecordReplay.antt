-- ===== src/Sources/RecordReplay.antt =====
-- A live session of src/sceptre_pipeline/sources.py, recorded and replayed.
use mathlib.Core.Path.{subst}
use mathlib.Core.Option.{some-injective}
use sceptre_pipeline.Prelude.{
  ℕ, ◌≡◌, refl, sym, ap, ◌∙◌, Bool, true, false, true≢false, inl, inr, ◌&&◌, Option, none, some,
  List, [], ◌∷◌, ◌++◌, append-nil,
}
use sceptre_pipeline.Recorder.{Packet, Recorder, init, append_all}
use sceptre_pipeline.Recorder.Prefix.{IsPrefixOf, append_all-IsPrefixOf}
use sceptre_pipeline.Sources.{
  Put, raw, shutdown, Turn, quiet, received, broken, live_loop, Stop, sleeps, replay_loop,
  replay_run,
}

-- the datagrams of a list of packets, as they are put
abbrev pub raw_puts : List Packet → List Put
raw_puts [] = []
raw_puts (p ∷ ps) = raw p.payload ∷ raw_puts ps

-- the packets that the live loop receives
abbrev pub packets_of : List Turn → List Packet
packets_of [] = []
packets_of (quiet ∷ turns) = packets_of turns
packets_of (broken ∷ turns) = []
packets_of (received p ∷ turns) = p ∷ packets_of turns

pub live_loop-puts :
    (turns : List Turn) (recorder : Option Recorder)
    → (live_loop turns recorder).0.puts ≡ raw_puts (packets_of turns)
unfolding live_loop
live_loop-puts [] recorder = refl
live_loop-puts (quiet ∷ turns) recorder = live_loop-puts turns recorder
live_loop-puts (broken ∷ turns) recorder = refl
live_loop-puts (received p ∷ turns) recorder = ap (raw p.payload ∷◌) (live_loop-puts turns _)

pub live_loop-recorder :
    (turns : List Turn) (r : Recorder)
    → (live_loop turns (some r)).1 ≡ some (append_all (packets_of turns) r)
unfolding live_loop append_all
live_loop-recorder [] r = refl
live_loop-recorder (quiet ∷ turns) r = live_loop-recorder turns r
live_loop-recorder (broken ∷ turns) r = refl
live_loop-recorder (received p ∷ turns) r = live_loop-recorder turns _

-- a recording that is read whole, while the stop event is never set
abbrev pub intact : List Packet → List (Option Packet × Stop)
intact [] = []
intact (p ∷ ps) = (some p, record { is_set = false; woken = false }) ∷ intact ps

and_false : (b : Bool) → (b && false) ≡ false
and_false true = refl
and_false false = refl

pub replay_loop-intact :
    (pace : Bool) (prev : Option ℕ) (ps : List Packet)
    → replay_loop pace prev (intact ps) ≡ record { puts = raw_puts ps; failed = false }
unfolding replay_loop
replay_loop-intact pace prev [] = refl
replay_loop-intact pace prev (p ∷ ps) =
    rw (and_false (sleeps pace prev p.ts_ns), replay_loop-intact pace (some p.ts_ns) ps) refl

-- ... or that cannot be read
abbrev pub undisturbed : Option (List Packet) → Option (List (Option Packet × Stop))
undisturbed none = none
undisturbed (some ps) = some (intact ps)

-- Under its caps, a recorder holds every packet received.
recorded_all :
    (ps : List Packet) (m n : Option ℕ) (r' : Recorder)
    → append_all ps (init m n) ≡ r'
    → r'.capped ≡ false
    → r'.packets ≡ ps
unfolding init
recorded_all ps m n r' e open_cap =
    let whole = subst (λ r. IsPrefixOf ps (init m n) r) e (append_all-IsPrefixOf ps (init m n)) in
    let nothing_left : whole.rest ≡ [] = elim whole.complete [
      | inl full ↦ absurd (true≢false (sym full ∙ open_cap))
      | inr none_left ↦ none_left
    ] in
    whole.recorded
    ∙ (sym (append-nil whole.kept) ∙ (ap (whole.kept ++◌) (sym nothing_left) ∙ sym whole.order))

module _ {File : Type 0} (dumps : List Packet → File) (loads : File → Option (List Packet))
    (loads-dumps : (ps : List Packet) → loads (dumps ps) ≡ some ps) where
  -- Given that a capture file is read back as it was written, the undisturbed replay of what a live
  -- session recorded, paced or not, puts on the queue the datagrams that the session put there, in
  -- order, and then the end-of-stream mark, and does not fail, if the recorder did not reach a cap.
  pub replay-record :
      (pace : Bool) (turns : List Turn) (max_packets max_bytes : Option ℕ) (r' : Recorder)
      → (live_loop turns (some (init max_packets max_bytes))).1 ≡ some r'
      → r'.capped ≡ false
      → replay_run pace (undisturbed (loads (dumps r'.packets))) ≡ record {
        puts = (live_loop turns (some (init max_packets max_bytes))).0.puts ++ shutdown ∷ [];
        failed = false;
      }
  unfolding replay_run
  replay-record pace turns m n r' e open_cap =
      let same = some-injective _ _ (sym (live_loop-recorder turns (init m n)) ∙ e) in
      let all = recorded_all (packets_of turns) m n r' same open_cap in
      rw
        (
          loads-dumps r'.packets,
          all,
          replay_loop-intact pace none (packets_of turns),
          live_loop-puts turns (some (init m n)),
        )
        refl
