-- ===== src/Tests/Threads.antt =====
-- A replay of two packets through the threads: the theorems on executions at it.
use mathlib.Core.Path.{subst}
use sceptre_pipeline.Prelude.{ℕ, ◌≡◌, refl, true, some, List, [], ◌∷◌, arith, sym}
use sceptre_pipeline.Prelude.Bytes.{Bytes}
use sceptre_pipeline.Prelude.Bytes
use sceptre_pipeline.Floats.{fixed_point}
use sceptre_pipeline.Dict.{StreamId}
use sceptre_pipeline.Dict
use sceptre_pipeline.Log
use sceptre_pipeline.Queue
use sceptre_pipeline.Header
use sceptre_pipeline.Context
use sceptre_pipeline.Formats
use sceptre_pipeline.Payload
use sceptre_pipeline.Payload.Supported.{format_word}
use sceptre_pipeline.Trim
use sceptre_pipeline.Interpreter
use sceptre_pipeline.Interpreter.{process_all}
use sceptre_pipeline.Buffer
use sceptre_pipeline.Router
use sceptre_pipeline.Router.Flow.{lost}
use sceptre_pipeline.Runtime
use sceptre_pipeline.Recorder.{Packet}
use sceptre_pipeline.Sources.{Put, raw, replay_run}
use sceptre_pipeline.Sources.RecordReplay.{undisturbed}
use sceptre_pipeline.Runtime.Threads.{
  System, start, produce, turn, Reach, produced, consumed, here, next,
}
use sceptre_pipeline.Runtime.Threads
use sceptre_pipeline.Runtime.Threads.Refinement.{IsExecution, Reach-refines}
use sceptre_pipeline.Runtime.Threads.Halting.{turns, run_returns}
use sceptre_pipeline.Runtime.Threads.Replay.{replay_puts, replay_run-puts}
use sceptre_pipeline.Tests.Packets.{np, context_packet, data_packet}
use sceptre_pipeline.Tests.Sessions.{session, clock}

abbrev pub bodies : List Bytes
bodies = context_packet ∷ data_packet 3 ∷ []

abbrev pub begun : System ℕ
begun = start 4 (replay_puts bodies) session

abbrev pub one_put : System ℕ
one_put = produce (raw context_packet) (raw (data_packet 3) ∷ Put.shutdown ∷ []) begun

-- The consumer takes the first while the second is still to be put.
abbrev one_taken : System ℕ
one_taken = turn fixed_point np 0 clock one_put

abbrev two_put : System ℕ
two_put = produce (raw (data_packet 3)) (Put.shutdown ∷ []) one_taken

abbrev all_put : System ℕ
all_put = produce Put.shutdown [] two_put

abbrev pub all_taken : System ℕ
all_taken = turn fixed_point np 0 clock (turn fixed_point np 0 clock all_put)

pending_1 : one_taken.pending ≡ raw (data_packet 3) ∷ Put.shutdown ∷ []
unfolding turn start produce Threads.take_item Queue.get Queue.put
pending_1 = refl

pending_2 : two_put.pending ≡ Put.shutdown ∷ []
unfolding produce
pending_2 = refl

reach_put : Reach fixed_point np begun all_put
unfolding start
reach_put =
    next
      (next (next (next here (produced (raw context_packet) _ refl refl)) (consumed 0 clock refl))
        (produced (raw (data_packet 3)) _ pending_1 refl))
      (produced Put.shutdown _ pending_2 refl)

reach_taken : Reach fixed_point np begun all_taken
reach_taken = next (next reach_put (consumed 0 clock refl)) (consumed 0 clock refl)

Reach-refines_example : IsExecution fixed_point np (replay_puts bodies) session all_taken
Reach-refines_example =
    Reach-refines fixed_point np (replay_puts bodies) session 4 all_taken (omega arith) reach_taken

put_all : all_put.pending ≡ []
unfolding produce
put_all = refl

run_returns_example :
    (turns fixed_point np all_put.queue.maxsize (λ n. 0) (λ n. clock) all_put).finished ≡ true
run_returns_example =
    run_returns fixed_point np 4 (replay_puts bodies) session all_put (λ n. 0) (λ n. clock)
      (omega arith) refl reach_put put_all

pub returned :
    (all_taken.finished ≡ true)
    × (all_taken.at_mark ≡ true)
    × (all_taken.queue.dropped ≡ 0)
    × (lost all_taken.pipeline.router ≡ lost session.router)
unfolding start produce turn Threads.take_item Threads.finish Queue.get Queue.put Router.flush_all
    Runtime.handle Router.maybe_flush_on_age Interpreter.init Interpreter.process
    Interpreter.process_packet Header.parse_header Header.Encoder.encode_header Bytes.to_be
    Header.expected_len Bytes.from_be Header.Encoder.word0_of Header.read_fields
    Interpreter.process_data Dict.get Runtime.poll Interpreter.process_context Buffer.adopt
    Buffer.append Buffer.differs Buffer.drop_data Buffer.flush Buffer.flush_if Buffer.init
    Buffer.maybe_flush_on_age Buffer.push Buffer.push_context Buffer.push_data Buffer.push_usable
    Buffer.read Buffer.same_value Buffer.store Context.decode_context Context.decode_field
    Context.visit Context.walk Dict.put Formats.field_size Formats.item_format_dtype
    Header.take_field Interpreter.drop_packet Interpreter.metadata Interpreter.process_samples
    Interpreter.timestamp Interpreter.warn Log.should_log Payload.decode_payload_format Bytes.slice
    Router.buffer_for Router.drop_record Router.for_each Router.push Trim.trim_data format_word
    Router.init
returned = (refl, refl, refl, refl)

abbrev pub recording : List Packet
recording =
    record { ts_ns = 10; ip = "10.0.0.1"; port = 4991; payload = context_packet }
    ∷ record { ts_ns = 20; ip = "10.0.0.1"; port = 4991; payload = data_packet 3 }
    ∷ []

pub reach_replayed :
    Reach fixed_point np
      (start 4 (replay_run true (undisturbed (some recording))).puts session)
      all_taken
reach_replayed =
    subst (λ puts. Reach fixed_point np (start 4 puts session) all_taken)
      (sym (replay_run-puts true recording)) reach_taken
