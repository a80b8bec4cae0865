-- ===== src/Cli.antt =====
-- The options of src/sceptre_pipeline/__main__.py. The integers on the command line are naturals.
pub mod Main
pub mod Graph
pub mod Exits
pub mod Replayed
pub mod Listened
use Prim.Native.String.{String}
use sceptre_pipeline.Prelude.{
  ℕ, Bool, true, false, Option, none, some, List, [], ◌∷◌, if◌then◌else◌,
}
use sceptre_pipeline.Prelude.Int.{pos}
use sceptre_pipeline.Floats.{Floats}
use sceptre_pipeline.Recorder.{default_live_record_max_bytes}

abbrev pub default_max_samples : ℕ
default_max_samples = 625000

abbrev pub default_queue_size : ℕ
default_queue_size = 32768

-- `DEFAULT_MAX_STREAMS` of the interpreter
abbrev pub default_max_streams : ℕ
default_max_streams = 64

-- `--record`: absent, without a path, or with one
pub data RecordTo : Type 0 where
  no_record auto : RecordTo
  at_path : String → RecordTo

-- `argparse.Namespace`
pub record Args (F : Type 0) : Type 0 where
  pub replay : Option String
  pub live : Bool
  pub pace : Bool
  pub host : String
  pub port : Option ℕ
  pub record_to : RecordTo
  pub record_max_bytes : ℕ
  pub record_max_packets : Option ℕ
  pub max_samples : ℕ
  pub max_age_s : F
  pub max_streams : ℕ
  pub queue_size : ℕ
  pub poll_interval : F

-- One option of the command line, its value converted.
pub data Flag (F : Type 0) : Type 0 where
  replay_flag host_flag : String → Flag F
  live_flag pace_flag : Flag F
  port_flag record_max_bytes_flag record_max_packets_flag : ℕ → Flag F
  max_samples_flag max_streams_flag queue_size_flag : ℕ → Flag F
  record_flag : Option String → Flag F
  max_age_flag poll_interval_flag : F → Flag F

-- `nargs="?"` with `const=True`
abbrev pub record_to_of : Option String → RecordTo
record_to_of none = auto
record_to_of (some path) = at_path path

module _ {F : Type 0} (fl : Floats F) where
  -- the defaults of `build_parser`
  unfoldable pub defaults : Args F
  defaults = record {
    replay = none;
    live = false;
    pace = false;
    host = "0.0.0.0";
    port = none;
    record_to = no_record;
    record_max_bytes = default_live_record_max_bytes;
    record_max_packets = none;
    max_samples = default_max_samples;
    max_age_s = fl.of_nat 1;
    max_streams = default_max_streams;
    queue_size = default_queue_size;
    poll_interval = fl.ratio (pos 1) 10;
  }

  -- what an option stores
  unfoldable pub set_flag : Flag F → Args F → Args F
  set_flag (replay_flag path) a = record a { replay = some path }
  set_flag (host_flag host) a = record a { host = host }
  set_flag live_flag a = record a { live = true }
  set_flag pace_flag a = record a { pace = true }
  set_flag (port_flag n) a = record a { port = some n }
  set_flag (record_max_bytes_flag n) a = record a { record_max_bytes = n }
  set_flag (record_max_packets_flag n) a = record a { record_max_packets = some n }
  set_flag (max_samples_flag n) a = record a { max_samples = n }
  set_flag (max_streams_flag n) a = record a { max_streams = n }
  set_flag (queue_size_flag n) a = record a { queue_size = n }
  set_flag (record_flag path) a = record a { record_to = record_to_of path }
  set_flag (max_age_flag x) a = record a { max_age_s = x }
  set_flag (poll_interval_flag x) a = record a { poll_interval = x }

  unfoldable pub set_flags : List (Flag F) → Args F → Args F
  set_flags [] a = a
  set_flags (f ∷ fs) a = set_flags fs (set_flag f a)

  abbrev pub is_given : Option String → Bool
  is_given none = false
  is_given (some path) = true

  -- `parse_args`: the two modes exclude each other, and one is required.
  unfoldable pub parse_args : List (Flag F) → Option (Args F)
  parse_args fs =
      let a = set_flags fs defaults in
      if is_given a.replay then if a.live then none else some a else if a.live then some a else none
