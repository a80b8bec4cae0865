-- ===== src/Live.antt =====
-- `LiveSource` of src/sceptre_pipeline/sources.py with its socket. What the operating system answers
-- is an argument, and what it sends is the list of turns of the loop.
pub mod Running
use Prim.Native.String.{String}
use sceptre_pipeline.Prelude.{
  ℕ, ◌*◌, Bool, true, false, ◌||◌, Option, none, some, List, [], ◌∷◌, ◌++◌, ltb, if◌then◌else◌,
}
use sceptre_pipeline.Recorder.{Recorder}
use sceptre_pipeline.Sources.{Put, Turn, live_loop}

pub record LiveSource : Type 0 where
  pub host : String
  pub port : Option ℕ
  pub recorder : Option Recorder
  pub rcvbuf_bytes : ℕ
  pub failed : Bool
  pub ready : Bool
  pub bound_address : Option (String × ℕ)
  pub granted_rcvbuf : Option ℕ

-- `DEFAULT_RCVBUF_BYTES`
abbrev pub default_rcvbuf_bytes : ℕ
default_rcvbuf_bytes = 8 * 1024 * 1024

unfoldable pub init : String → Option ℕ → Option Recorder → LiveSource
init host port recorder = record {
  host = host;
  port = port;
  recorder = recorder;
  rcvbuf_bytes = default_rcvbuf_bytes;
  failed = false;
  ready = false;
  bound_address = none;
  granted_rcvbuf = none;
}

-- What `bind` and then `getsockname` do: the address, an `OSError`, or another exception, as for a
-- port out of range.
pub data Bind : Type 0 where
  bound : String × ℕ → Bind
  os_error : Bind
  other_error : Bind

-- What the operating system answers to the socket's calls before the loop: whether it is Linux,
-- whether `setsockopt` is accepted, and what `getsockopt` reads if it does not raise.
pub record Os : Type 0 where
  pub linux : Bool
  pub accepts : Bool
  pub granted : Option ℕ
  pub bind : Bind

-- what `_configure_rcvbuf` logs
pub data Notice : Type 0 where
  not_set not_read clamped honored : Notice

-- the warning of a refused request
abbrev pub set_notice : Bool → List Notice
set_notice true = []
set_notice false = not_set ∷ []

-- the last lines of `_configure_rcvbuf`, on what was granted
unfoldable pub granted_notice : ℕ → Option ℕ → List Notice
granted_notice honored_floor none = not_read ∷ []
granted_notice honored_floor (some granted) =
    if ltb granted honored_floor then clamped ∷ [] else honored ∷ []

unfoldable pub configure_rcvbuf : Os → LiveSource → LiveSource × List Notice
configure_rcvbuf os s = (
  record s { granted_rcvbuf = os.granted },
  set_notice os.accepts ++ granted_notice (s.rcvbuf_bytes * (if os.linux then 2 else 1)) os.granted,
)

-- behind the `bind`
unfoldable pub listen : Bind → List Turn → LiveSource → LiveSource × List Put
listen os_error turns s = (record s { ready = true; failed = true }, [])
listen other_error turns s = (record s { ready = true }, [])
listen (bound addr) turns s =
    let (out, recorder) = live_loop turns s.recorder in
    (
      record s {
        ready = true;
        bound_address = some addr;
        recorder = recorder;
        failed = s.failed || out.failed;
      },
      out.puts,
    )

-- `_run`, with what it puts on the queue
unfoldable pub run : Os → List Turn → LiveSource → LiveSource × List Put
run os turns s = listen os.bind turns (configure_rcvbuf os s).0
