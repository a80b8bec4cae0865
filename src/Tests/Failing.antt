-- ===== src/Tests/Failing.antt =====
-- A session whose emit callback raises on every window.
use sceptre_pipeline.Prelude.{ℕ, ◌+◌, ◌≡◌, refl, true, false, some}
use sceptre_pipeline.Prelude.Bytes
use sceptre_pipeline.Floats.{fixed_point}
use sceptre_pipeline.Log
use sceptre_pipeline.Dict
use sceptre_pipeline.Header
use sceptre_pipeline.Context
use sceptre_pipeline.Formats
use sceptre_pipeline.Payload
use sceptre_pipeline.Payload.Supported.{format_word}
use sceptre_pipeline.Trim
use sceptre_pipeline.Interpreter
use sceptre_pipeline.Buffer
use sceptre_pipeline.Router
use sceptre_pipeline.Router.Flow.{lost}
use sceptre_pipeline.Runtime
use sceptre_pipeline.Raising
use sceptre_pipeline.Raising.{Emit}
use sceptre_pipeline.Raising.Buffer as RaisingBuffer
use sceptre_pipeline.Raising.Router as RaisingRouter
use sceptre_pipeline.Raising.Pipeline.{Session, run}
use sceptre_pipeline.Raising.Pipeline
use sceptre_pipeline.Raising.Stopped.{IsStopped, IsOrdered, run-IsStopped, run-IsOrdered}
use sceptre_pipeline.Tests.Packets.{np}
use sceptre_pipeline.Tests.Sessions.{session, items, keyed}

-- It counts its calls.
abbrev failing : Emit ℕ ℕ
failing calls w = (calls + 1, true)

abbrev begun : Session ℕ
begun = record { pipeline = session; source_stopped = false }

run-IsStopped_example :
    IsStopped failing fixed_point np 0
      (Runtime.run fixed_point np items session)
      (run failing fixed_point np items 0 begun)
run-IsStopped_example = run-IsStopped failing fixed_point np items 0 begun

nothing_lost :
    lost (run failing fixed_point np items 0 begun).state.pipeline.router ≡ lost session.router
unfolding run Raising.Pipeline.loop Raising.Pipeline.handle Raising.Pipeline.poll Raising.and_then
    Raising.finally Raising.within RaisingRouter.flush_all RaisingRouter.for_each
    RaisingRouter.maybe_flush_on_age RaisingRouter.push RaisingBuffer.flush RaisingBuffer.flush_if
    RaisingBuffer.push RaisingBuffer.push_context RaisingBuffer.push_data RaisingBuffer.push_usable
    RaisingBuffer.store RaisingBuffer.append RaisingBuffer.maybe_flush_on_age Router.init
    Interpreter.init Interpreter.process Interpreter.process_packet Header.parse_header
    Header.Encoder.encode_header Bytes.to_be Header.expected_len Bytes.from_be
    Header.Encoder.word0_of Header.read_fields Interpreter.process_data Dict.get
    Interpreter.process_context Buffer.adopt Buffer.differs Buffer.drop_data Buffer.init Buffer.read
    Buffer.same_value Context.decode_context Context.decode_field Context.visit Context.walk
    Dict.put Formats.field_size Formats.item_format_dtype Header.take_field Interpreter.drop_packet
    Interpreter.metadata Interpreter.process_samples Interpreter.timestamp Interpreter.warn
    Log.should_log Payload.decode_payload_format Bytes.slice Router.buffer_for Router.drop_record
    Trim.trim_data format_word
nothing_lost = refl

-- The callback gets the window that the gap closes, and no other: the second data record is gone with
-- the exception.
one_call : (run failing fixed_point np items 0 begun).callback ≡ 1
unfolding run Raising.Pipeline.loop Raising.Pipeline.handle Raising.Pipeline.poll Raising.and_then
    Raising.finally Raising.within RaisingRouter.flush_all RaisingRouter.for_each
    RaisingRouter.maybe_flush_on_age RaisingRouter.push RaisingBuffer.flush RaisingBuffer.flush_if
    RaisingBuffer.push RaisingBuffer.push_context RaisingBuffer.push_data RaisingBuffer.push_usable
    RaisingBuffer.store RaisingBuffer.append RaisingBuffer.maybe_flush_on_age Router.init
    Interpreter.init Interpreter.process Interpreter.process_packet Header.parse_header
    Header.Encoder.encode_header Bytes.to_be Header.expected_len Bytes.from_be
    Header.Encoder.word0_of Header.read_fields Interpreter.process_data Dict.get
    Interpreter.process_context Buffer.adopt Buffer.differs Buffer.drop_data Buffer.init Buffer.read
    Buffer.same_value Context.decode_context Context.decode_field Context.visit Context.walk
    Dict.put Formats.field_size Formats.item_format_dtype Header.take_field Interpreter.drop_packet
    Interpreter.metadata Interpreter.process_samples Interpreter.timestamp Interpreter.warn
    Log.should_log Payload.decode_payload_format Bytes.slice Router.buffer_for Router.drop_record
    Trim.trim_data format_word
one_call = refl

run-IsOrdered_example :
    IsOrdered failing fixed_point np (some 7) items begun (run failing fixed_point np items 0 begun)
run-IsOrdered_example =
    run-IsOrdered failing fixed_point np items 0 begun (some 7) keyed nothing_lost
