-- ===== src/Lib.antt =====
-- Verification of the sceptre-pipeline: the ingest path of a VITA-49.2 sample stream, from UDP
-- datagrams to windows of samples.
--
-- The program (src/sceptre_pipeline/, with the scripts receiver/ and scripts/). A source, live or
-- replayed, puts datagrams on a bounded queue on its own thread. The consumer's thread takes them
-- off, has the interpreter decode each into a context or a data record, hands the record to the
-- router, which keeps one buffer per stream, and polls the buffers' ages. A buffer joins the
-- samples of consecutive data records into a window and emits it when the context changes, when it
-- is full, when it is old, or when a packet was lost. The emit callback is a meter that counts
-- windows and compares, for every stream, the samples delivered with those that its timestamps and
-- its declared rate call for. The command line wires these parts.
--
-- The files, and the code they model:
--   Formats      formats.py: constants, header_length, FIELD_SIZE, ITEM_FORMAT_DTYPES
--   Header       interpreter.py: Header, parse_header (Header/Bounds, Roundtrip; Encoder,
--                Word0: a sender)
--   Payload      interpreter.py: decode_payload_format (Payload/Supported)
--   Context      interpreter.py: decode_context (Context/Walk, Context/Fields)
--   Trim         interpreter.py: trim_data (Trim/Samples)
--   Log          interpreter.py: _RateLimitedLog, _log_unsupported_format (Log/Limits)
--   Interpreter  interpreter.py: Interpreter (Interpreter/Outcome: the ways in which process ends;
--                Records, Gaps, Tally and Streams: theorems on them)
--   Buffer       buffer.py: IngestBuffer, with its state in BufferState (Buffer/Windows: the
--                invariant; Latched, Steps, Lossless, Triggers and Identity: theorems on the
--                operations)
--   Router       buffer.py: BufferRouter (Router/Stored, Routed, Isolation, Visits, Drained,
--                Flow, Polled)
--   Queue        queues.py: BoundedRawQueue (Queue/Lossy)
--   Recorder     recorder.py: Recorder (Recorder/Prefix)
--   Runtime      runtime.py: Pipeline (Runtime/EndToEnd); Runtime/Threads: the two threads with the
--                queue and the stop event between them (Items, Refinement, Halting, Work, Bounded,
--                Replay, Live)
--   Raising      buffer.py and runtime.py once more, under an emit callback that may raise:
--                Raising/Buffer, Router and Pipeline (Follows, Equivalent and Sessions: against
--                Buffer, Router and Runtime; Cut, Flow, Turns, Ended and Stopped: what an
--                exception leaves)
--   Sources      sources.py: the loops of LiveSource._run and ReplaySource._run
--                (Sources/RecordReplay)
--   Live         sources.py: LiveSource with its socket (Live/Running)
--   StreamStat   metrics.py: _StreamStat (Accounting, Efficiency: what it counts; Arrivals,
--                Committed, Jitter and Reordering: the jitter buffer)
--   Meter        metrics.py: ThroughputMeter (Meter/Totals, Delivered, Session, Efficiency, Worst)
--   Cli          __main__.py: build_parser; Cli/Main: _build_runtime and main (Cli/Graph,
--                Cli/Exits; Cli/Replayed, Cli/Listened: a replay and a live stream over the
--                threads)
--   Receiver     receiver/recieve_udp.py (Receiver/Complete)
--   Wheelhouse   scripts/build_wheelhouse.py (Wheelhouse/Exits)
--   Binary       scripts/build_binary.py (Binary/Exits)
--   Prelude, Result, Dict, Floats and Numpy hold what these share; Tests the concrete runs.
--
-- How state is modelled. An object is a record, a method a function from the old state to the new
-- one and its result; a method of a buffer or of the router also returns the windows that it hands
-- to the emit callback, in order. There the callback is taken to return. In Raising it is a
-- function of a state of its own and a window, it may raise, and a method returns an `Outcome`:
-- what the exception, if there is one, leaves. A method that may raise otherwise returns a
-- `Result`; `Interpreter.process` catches what `_process` raises, which it does only before it
-- changes its state. A dict by stream id is a list of entries in insertion order. The record and
-- context dicts are typed records; a key that is absent and one whose value is None read alike, as
-- they do by `.get`.
--
-- Numbers. Integers are natural numbers, a word of w bits is below 2 ^ w where it is read, and
-- shifts and masks are divisions and remainders by powers of two. Floats are a parameter (Floats):
-- the theorems hold for any operations, save those on the meter that name laws. Numpy is a
-- parameter (Numpy): which dtype strings it knows, and the conversion of a window, which stays
-- unevaluated (`Buffer.unit_of`). Clock readings are arguments.
--
-- Loops. The walk over CIF0 counts down its 32 bits, the parsers and buffers recurse on their
-- lists, and the two threads' loops run over the list of what each turn receives, which ends where
-- the stop event is set. No definition needs fuel.
--
-- Threads. The queue holds its lock throughout each call, so that an execution is a sequence of
-- calls; Queue/Lossy takes any. In Runtime/Threads a step is a put of the source, a turn of the
-- consumer's loop with its test of the stop event, or the event being set, and an execution is any
-- sequence of steps. The source's puts are those of the run at hand, cut where the event cuts them
-- short. Its end, which follows its last put, is not a step of its own, and the turn at the
-- end-of-stream mark or at the event does the final flush as well, and sets the event, as
-- `source.stop()` does.
--
-- The meter. heapq is held as the list in the order of its pops: an insertion puts an item before
-- the first that is greater. The two summaries are the values that the source formats into a line.
-- What is said of float sums rests on laws of floats that are hypotheses (SumLaws, OrderLaws, and
-- timestamps that are pairwise comparable); IEEE doubles have them, since below 2 ^ 53 integers are
-- exact and rounding is monotone.
--
-- The command line. An option is one flag with its value converted, and a run's outside (clocks,
-- socket, capture files, what the loop gets) is a record, `World`. In it the items of the loop are
-- not tied to what the source puts; Cli/Replayed and Cli/Listened do that, by way of
-- Runtime/Threads. The watchdog of the bind is taken to have run before `main` reads its result, as
-- it has where it stops the pipeline.
--
-- Not modelled: the text of log lines, the two module-level limiters as state of the pure decoders
-- (`Log` has them on their own), the guard of the loop around `process`, which in the model does
-- not raise, the joins of threads, pickle files (their round trip is a hypothesis of
-- Sources/RecordReplay), the words of usage errors and what demo_emit and the scripts print, a
-- socket that cannot be made, and negative integers among the options.

pub mod Prelude
pub mod Result
pub mod Formats
pub mod Header
pub mod Payload
pub mod Floats
pub mod Context
pub mod Trim
pub mod Dict
pub mod Log
pub mod Interpreter
pub mod Numpy
pub mod BufferState
pub mod Binary
pub mod Buffer
pub mod Queue
pub mod Recorder
pub mod Router
pub mod Runtime
pub mod StreamStat
pub mod Meter
pub mod Live
pub mod Raising
pub mod Receiver
pub mod Cli
pub mod Wheelhouse
pub mod Sources
mod Tests
