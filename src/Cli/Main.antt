-- ===== src/Cli/Main.antt =====
-- The object graph and `main` of src/sceptre_pipeline/__main__.py. What the outside does during a
-- run is the record `World`: the threads are in `Runtime.Threads`.
use Prim.Native.String.{String}
use sceptre_pipeline.Prelude.{
  ℕ, ◌-◌, ◌^◌, Bool, true, false, ◌&&◌, Option, none, some, List, leb, if◌then◌else◌,
}
use sceptre_pipeline.Prelude.Int.{ℤ, pos, negsuc}
use sceptre_pipeline.Result.{Result, Error, ok, err, ◌>>=◌}
use sceptre_pipeline.Floats.{Floats}
use sceptre_pipeline.Numpy.{Numpy}
use sceptre_pipeline.Interpreter
use sceptre_pipeline.Buffer.{default_flush_fields, is_none}
use sceptre_pipeline.Router
use sceptre_pipeline.Queue.{BoundedRawQueue}
use sceptre_pipeline.Queue
use sceptre_pipeline.Recorder.{Packet, Recorder, Capture, save}
use sceptre_pipeline.Recorder
use sceptre_pipeline.Sources.{Put, Turn, Stop, replay_run}
use sceptre_pipeline.Live.{LiveSource, Os}
use sceptre_pipeline.Live
use sceptre_pipeline.Runtime.{Pipeline, Item, run}
use sceptre_pipeline.Runtime
use sceptre_pipeline.Meter.{ThroughputMeter, Report, Summary, call_all, summary, capture_summary}
use sceptre_pipeline.Meter
use sceptre_pipeline.Cli.{Args, RecordTo, no_record, auto, at_path, Flag, parse_args}

pub data Source : Type 0 where
  live_source : LiveSource → Source
  replay_source : String → Bool → Source

-- `_Runtime`, and its raw queue
pub record Wired (F : Type 0) : Type 0 where
  pub pipeline : Pipeline F
  pub raw_queue : BoundedRawQueue Put
  pub source : Source
  pub recorder : Option Recorder
  pub record_path : Option String

-- What a run depends on outside the program: the clock readings, the automatic recording path, the
-- packets of a capture file, the socket, and what each turn of the loop gets from the queue. The
-- watchdog of the bind is taken to have run.
pub record World (F : Type 0) : Type 0 where
  pub auto_path : String
  pub captures : String → Option (List (Option Packet × Stop))
  pub os : Os
  pub turns : List Turn
  pub items : List (Item F)
  pub start_time_ns : ℕ
  pub end_time_ns : ℕ
  pub begun : F
  pub now : F

-- What `main` leaves behind: what it logs, the recording that it saves, and its exit code.
pub record Finished (F : Type 0) : Type 0 where
  pub throughput : Summary F
  pub capture_line : Option (Report F)
  pub saved : Option (String × Capture F)
  pub exit_code : ℕ

-- `parser.error` exits with status 2; an exception leaves `main`.
pub data Outcome (F : Type 0) : Type 0 where
  usage_error : Outcome F
  raised : Error → Outcome F
  finished : Finished F → Outcome F

-- `time_ns() - start_time_ns`
abbrev pub elapsed_ns : ℕ → ℕ → ℤ
elapsed_ns now start = if leb start now then pos (now - start) else negsuc (start - now - 1)

-- `args.record is not False`
abbrev pub is_recorded : RecordTo → Bool
is_recorded no_record = false
is_recorded _ = true

abbrev pub path_of : RecordTo → String → Option String
path_of no_record auto_path = none
path_of auto auto_path = some auto_path
path_of (at_path path) auto_path = some path

-- `Path(args.replay)`, in the mode that has one
abbrev pub replay_path : Option String → String
replay_path none = ""
replay_path (some path) = path

unfoldable pub exit_code : Bool → Bool → ℕ
exit_code bind_failed failed = if bind_failed then 1 else if failed then 1 else 0

-- `recorder.save(...)` if there are a recorder and a path
unfoldable pub saved_of :
    {F : Type 0} → Option String → ℕ → F → Option Recorder → Option (String × Capture F)
saved_of (some path) start_time_ns duration (some r) = some (path, save start_time_ns duration r)
saved_of _ start_time_ns duration _ = none

module _ {F : Type 0} (fl : Floats F) where
  abbrev pub recorder_of : Args F → Option Recorder
  recorder_of a =
      if a.live && is_recorded a.record_to
      then some (Recorder.init a.record_max_packets (some a.record_max_bytes))
      else none

  -- `_build_runtime`
  unfoldable pub build_runtime : Args F → String → Result (Wired F)
  build_runtime a auto_path = Queue.init a.queue_size >>= λ raw_queue.
      Runtime.init fl a.poll_interval (Interpreter.init a.max_streams)
        (Router.init a.max_samples a.max_age_s default_flush_fields a.max_streams)
      >>= λ pipeline. ok (record {
        pipeline = pipeline;
        raw_queue = raw_queue;
        source =
            if a.live
            then live_source (Live.init a.host a.port (recorder_of a))
            else replay_source (replay_path a.replay) a.pace;
        recorder = recorder_of a;
        record_path = if a.live then path_of a.record_to auto_path else none;
      })

  -- What the source's thread leaves: whether the watchdog saw no address, whether the source
  -- failed, and the recorder.
  unfoldable pub source_result : World F → Source → Bool × Bool × Option Recorder
  source_result world (replay_source path pace) =
      (false, (replay_run pace (world.captures path)).failed, none)
  source_result world (live_source s) =
      let s' = (Live.run world.os world.turns s).0 in
      (is_none s'.bound_address, s'.failed, s'.recorder)

module _ {F Arr : Type 0} (fl : Floats F) (np : Numpy Arr) where
  -- the run and what `main` does behind it
  unfoldable pub drive : World F → Bool → Wired F → Finished F
  drive world live w =
      let m =
        (call_all fl (run fl np world.items w.pipeline).1 (Meter.start world.begun Meter.init)).0 in
      let (bind_failed, failed, recorder) = source_result fl world w.source in
      record {
        throughput = summary fl world.now m;
        capture_line = if live then (capture_summary fl m).1 else none;
        saved =
            saved_of w.record_path world.start_time_ns
              (fl.div (fl.of_int (elapsed_ns world.end_time_ns world.start_time_ns))
                (fl.of_nat (10 ^ 9)))
              recorder;
        exit_code = exit_code bind_failed failed;
      }

  -- `main` behind `parse_args`
  unfoldable pub main_args : World F → Args F → Outcome F
  main_args world a =
      if fl.le a.poll_interval (fl.of_nat 0)
      then usage_error
      else if a.live && is_none a.port
      then usage_error
      else elim (build_runtime fl a world.auto_path) [
        | err e ↦ raised e
        | ok w ↦ finished (drive world a.live w)
      ]

  unfoldable pub main : World F → List (Flag F) → Outcome F
  main world flags = elim (parse_args fl flags) [ none ↦ usage_error | some a ↦ main_args world a ]
