-- ===== src/Tests/Sessions.antt =====
-- Whole sessions: the router, the loop, the queue, the recorder and the limiters.
use sceptre_pipeline.Prelude.{
  ℕ, ◌+◌, ◌%◌, ◌^◌, ◌≡◌, ◌≢◌, ◌||◌, ◌==◌, leb, refl, true, false, some, List, [], ◌∷◌, ◌++◌, arith,
}
use sceptre_pipeline.Floats.{fixed_point}
use sceptre_pipeline.Dict.{StreamId, get}
use sceptre_pipeline.Buffer.{default_flush_fields}
use sceptre_pipeline.Router.{BufferRouter, init, push}
use sceptre_pipeline.Router.Routed.{IsRouted, Routed, init-IsRouted}
use sceptre_pipeline.Router.Drained.{IsKeyed}
use sceptre_pipeline.Router.Isolation.{push_other}
use sceptre_pipeline.Runtime.{Pipeline, Item, shutdown, timeout, datagram, run}
use sceptre_pipeline.Runtime.EndToEnd.{run-IsRouted}
use sceptre_pipeline.Log.{new_log, should_log}
use sceptre_pipeline.Log.Limits.{after_all, occurrences, should_log-after_all}
use sceptre_pipeline.Queue.{BoundedRawQueue}
use sceptre_pipeline.Queue
use sceptre_pipeline.Queue.Lossy.{Call, put_call, get_call, Tracks, produced, run-Tracks, done}
use sceptre_pipeline.Recorder.{Packet, Recorder, append_all}
use sceptre_pipeline.Recorder
use sceptre_pipeline.Recorder.Prefix.{IsWithin, IsPrefixOf, append_all-IsCapped}
use sceptre_pipeline.Sources
use sceptre_pipeline.Sources.{Turn, quiet, received, live_loop, replay_run}
use sceptre_pipeline.Sources.RecordReplay.{undisturbed, replay-record}
use sceptre_pipeline.Tests.Packets.{np, samples, start, context_packet, data_packet}
use sceptre_pipeline.Tests.Buffering.{context_rec}

abbrev router : BufferRouter ℕ
router = init 100 (2 ^ 20) default_flush_fields 4

pub keyed : IsKeyed router.buffers
unfolding init
keyed = record { unique = tt; named = tt }

pub routed : IsRouted np router
routed = init-IsRouted np 100 (2 ^ 20) default_flush_fields 4

abbrev stream_7 : StreamId
stream_7 = some 7

abbrev stream_8 : StreamId
stream_8 = some 8

other_stream : stream_8 ≢ stream_7
other_stream e = cc e

push_other_example :
    get (push fixed_point np 0 (some context_rec) router).0.buffers stream_8
    ≡ get router.buffers stream_8
push_other_example = push_other fixed_point np 0 context_rec router stream_8 other_stream

abbrev pub clock : StreamId → ℕ
clock k = 0

-- two data packets with a lost one between them, then the end of the stream
abbrev pub items : List (Item ℕ)
items =
    datagram context_packet 0 clock
    ∷ datagram (data_packet 3) 0 clock
    ∷ timeout clock
    ∷ datagram (data_packet 5) 0 clock
    ∷ shutdown
    ∷ []

abbrev pub session : Pipeline ℕ
session = record { interpreter = start; router = router }

run-IsRouted_example :
    Routed np ((run fixed_point np items session).0.router, (run fixed_point np items session).1)
run-IsRouted_example = run-IsRouted fixed_point np items session routed

-- the fourth warning of a kind, after one of another
should_log-after_all_example :
    (should_log
      (after_all ("no-context" ∷ "no-context" ∷ "stream-flood" ∷ "no-context" ∷ []) new_log)
      "no-context").1
    ≡ (leb
          (occurrences "no-context"
              ("no-context" ∷ "no-context" ∷ "stream-flood" ∷ "no-context" ∷ [])
            + 1)
          5
        || (occurrences "no-context"
                ("no-context" ∷ "no-context" ∷ "stream-flood" ∷ "no-context" ∷ [])
              + 1)
            % 1000
          == 0)
should_log-after_all_example =
    should_log-after_all ("no-context" ∷ "no-context" ∷ "stream-flood" ∷ "no-context" ∷ [])
      "no-context"

abbrev queue : BoundedRawQueue ℕ
queue = record { maxsize = 2; items = []; dropped = 0 }

abbrev calls : List (Call ℕ)
calls = put_call 1 ∷ put_call 2 ∷ put_call 3 ∷ get_call ∷ put_call 4 ∷ get_call ∷ []

new_queue : Tracks [] [] queue
new_queue = record {
  gone = [];
  order = refl;
  delivered = done;
  counted = omega arith;
  bounded = omega arith;
  positive = omega arith;
}

run-Tracks_example :
    Tracks
      ([] ++ produced calls)
      (Queue.Lossy.run calls queue []).1
      (Queue.Lossy.run calls queue []).0
run-Tracks_example = run-Tracks calls [] [] queue new_queue

abbrev pub packet : ℕ → Packet
packet ts_ns = record { ts_ns = ts_ns; ip = "10.0.0.1"; port = 4991; payload = samples }

abbrev arrivals : List Packet
arrivals = packet 10 ∷ packet 20 ∷ packet 30 ∷ []

abbrev recorder : Recorder
recorder = Recorder.init (some 2) (some 100)

new_recorder : IsWithin recorder
unfolding Recorder.init
new_recorder = record { packets = omega arith; bytes = omega arith; counted = refl }

append_all-IsCapped_example :
    IsWithin (append_all arrivals recorder)
    × IsPrefixOf arrivals recorder (append_all arrivals recorder)
append_all-IsCapped_example = append_all-IsCapped arrivals recorder new_recorder

abbrev turns : List Turn
turns = received (packet 10) ∷ quiet ∷ received (packet 20) ∷ []

abbrev recorded : Recorder
recorded = record {
  max_packets = some 2;
  max_bytes = some 100;
  packets = packet 10 ∷ packet 20 ∷ [];
  total_bytes = 16;
  capped = false;
}

session_recorded : (live_loop turns (some recorder)).1 ≡ some recorded
unfolding live_loop Recorder.init Recorder.append
session_recorded = refl

-- with a file that holds the list itself
replay-record_example : replay_run true (undisturbed (some (packet 10 ∷ packet 20 ∷ []))) ≡ record {
  puts = (live_loop turns (some recorder)).0.puts ++ Sources.shutdown ∷ [];
  failed = false;
}
replay-record_example =
    replay-record (λ (ps : List Packet). ps) (λ ps. some ps) (λ ps. refl) true turns (some 2)
      (some 100) recorded session_recorded refl
