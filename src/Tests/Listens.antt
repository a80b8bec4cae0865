-- ===== src/Tests/Listens.antt =====
-- A live session of two packets through `main` and the threads that it starts, which is interrupted
-- when the consumer has taken the first.
use sceptre_pipeline.Prelude.{
  ℕ, ◌*◌, ◌^◌, ◌<◌, ◌≡◌, refl, true, false, some, none, List, [], ◌∷◌, arith,
}
use sceptre_pipeline.Prelude.Bytes
use sceptre_pipeline.Floats.{fixed_point}
use sceptre_pipeline.Log
use sceptre_pipeline.Dict
use sceptre_pipeline.Header
use sceptre_pipeline.Context
use sceptre_pipeline.Formats
use sceptre_pipeline.Payload
use sceptre_pipeline.Payload.Supported.{format_word}
use sceptre_pipeline.Trim
use sceptre_pipeline.Interpreter
use sceptre_pipeline.Buffer
use sceptre_pipeline.Buffer.{is_none}
use sceptre_pipeline.Queue
use sceptre_pipeline.Router
use sceptre_pipeline.Router.Flow.{lost}
use sceptre_pipeline.Sources
use sceptre_pipeline.Sources.{raw, received}
use sceptre_pipeline.Live
use sceptre_pipeline.Live.{bound}
use sceptre_pipeline.Runtime
use sceptre_pipeline.Runtime.{Item}
use sceptre_pipeline.Runtime.Threads
use sceptre_pipeline.Runtime.Threads.{
  System, start, produce, stop, turn, Reach, produced, consumed, stopping, here, next,
}
use sceptre_pipeline.Cli.{
  Args, Flag, live_flag, port_flag, queue_size_flag, max_samples_flag, max_streams_flag,
  max_age_flag, defaults, set_flag, set_flags, parse_args,
}
use sceptre_pipeline.Cli.Main.{World, Finished, finished, main}
use sceptre_pipeline.Cli.Replayed.{new_pipeline}
use sceptre_pipeline.Cli.Listened.{live_puts, IsListened, main-IsListened}
use sceptre_pipeline.Tests.Packets.{np, context_packet, data_packet}
use sceptre_pipeline.Tests.Sessions.{session, clock}

abbrev flags : List (Flag ℕ)
flags =
    live_flag
    ∷ port_flag 4991
    ∷ queue_size_flag 4
    ∷ max_samples_flag 100
    ∷ max_streams_flag 4
    ∷ max_age_flag (2 ^ 20)
    ∷ []

abbrev args : Args ℕ
args = set_flags fixed_point flags (defaults fixed_point)

abbrev turns : List Sources.Turn
turns =
    received (record { ts_ns = 10; ip = "10.0.0.1"; port = 4991; payload = context_packet })
    ∷ received (record { ts_ns = 20; ip = "10.0.0.1"; port = 4991; payload = data_packet 3 })
    ∷ []

abbrev world : World ℕ
world = record {
  auto_path = "recordings/udp_capture_20260101_000000.pkl";
  captures = λ path. none;
  os = record { linux = true; accepts = true; granted = none; bind = bound ("0.0.0.0", 4991) };
  turns = turns;
  items = [];
  start_time_ns = 0;
  end_time_ns = 3;
  begun = 0;
  now = 3 * 2 ^ 20;
}

parsed : parse_args fixed_point flags ≡ some args
unfolding parse_args set_flags set_flag defaults
parsed = refl

valid :
    (fixed_point.le args.poll_interval (fixed_point.of_nat 0) ≡ false)
    × (args.live ≡ true)
    × (is_none args.port ≡ false)
    × (0 < args.queue_size)
unfolding set_flags set_flag defaults
valid = (refl, refl, refl, omega arith)

abbrev begun : System ℕ
begun = start 4 (raw context_packet ∷ raw (data_packet 3) ∷ []) session

abbrev all_put : System ℕ
all_put =
    produce (raw (data_packet 3)) [] (produce (raw context_packet) (raw (data_packet 3) ∷ []) begun)

-- The event is set when the consumer has taken the first packet, and the consumer returns.
abbrev interrupted : System ℕ
interrupted = turn fixed_point np 0 clock (stop (turn fixed_point np 0 clock all_put))

reach_begun : Reach fixed_point np begun interrupted
unfolding start produce
reach_begun =
    next
      (next
        (next
          (next (next here (produced (raw context_packet) _ refl refl))
            (produced (raw (data_packet 3)) _ refl refl))
          (consumed 0 clock refl))
        (stopping refl))
      (consumed 0 clock refl)

reached :
    Reach fixed_point np
      (start args.queue_size
        (live_puts fixed_point np world args)
        (new_pipeline fixed_point np args))
      interrupted
unfolding set_flags set_flag defaults Live.run Live.listen Live.configure_rcvbuf Live.init
    Sources.live_loop
reached = reach_begun

returned :
    (interrupted.finished ≡ true)
    × (interrupted.queue.dropped ≡ 0)
    × (lost interrupted.pipeline.router ≡ 0)
unfolding start produce stop turn Threads.take_item Threads.finish Queue.get Queue.put
    Router.flush_all Runtime.handle Router.maybe_flush_on_age Interpreter.init Interpreter.process
    Interpreter.process_packet Header.parse_header Header.Encoder.encode_header Bytes.to_be
    Header.expected_len Bytes.from_be Header.Encoder.word0_of Header.read_fields
    Interpreter.process_data Dict.get Runtime.poll Interpreter.process_context Buffer.adopt
    Buffer.append Buffer.differs Buffer.drop_data Buffer.flush Buffer.flush_if Buffer.init
    Buffer.maybe_flush_on_age Buffer.push Buffer.push_context Buffer.push_data Buffer.push_usable
    Buffer.read Buffer.same_value Buffer.store Context.decode_context Context.decode_field
    Context.visit Context.walk Dict.put Formats.field_size Formats.item_format_dtype
    Header.take_field Interpreter.drop_packet Interpreter.metadata Interpreter.process_samples
    Interpreter.timestamp Interpreter.warn Log.should_log Payload.decode_payload_format Bytes.slice
    Router.buffer_for Router.drop_record Router.for_each Router.push Trim.trim_data format_word
    Router.init
returned = (refl, refl, refl)

main-IsListened_example :
    (items : List (Item ℕ)) × (f : Finished ℕ) × (main fixed_point np
        (record world { items = items })
        flags
      ≡ finished f)
    × IsListened fixed_point np (record world { items = items }) args interrupted f
main-IsListened_example =
    main-IsListened fixed_point np world flags args interrupted parsed valid.0 valid.1 valid.2
      valid.3 reached returned.0 returned.1 returned.2
