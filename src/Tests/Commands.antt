-- ===== src/Tests/Commands.antt =====
-- Runs of the command lines, of the live source and of the wheelhouse script.
use Prim.Native.String.{String}
use text.Mathlib.Text.{◌==◌ as str_eq}
use sceptre_pipeline.Prelude.{
  ℕ, ◌^◌, ◌*◌, ◌<◌, ◌≡◌, ◌↔◌, ◌⊎◌, ◌&&◌, refl, Bool, true, false, none, some, List, [], ◌∷◌, arith,
  if◌then◌else◌,
}
use sceptre_pipeline.Prelude.Int.{pos}
use sceptre_pipeline.Floats.{fixed_point}
use sceptre_pipeline.Result.{value_error}
use sceptre_pipeline.Buffer.{is_none}
use sceptre_pipeline.Recorder
use sceptre_pipeline.Sources.{Turn, received, quiet}
use sceptre_pipeline.Sources
use sceptre_pipeline.Live.{LiveSource, Os, Bind, bound}
use sceptre_pipeline.Live
use sceptre_pipeline.Live.Running.{Ran, run-Ran}
use sceptre_pipeline.Receiver
use sceptre_pipeline.Receiver.{Exit, done}
use sceptre_pipeline.Receiver.Complete.{arrivals_of, main-saves}
use sceptre_pipeline.Cli.{
  Args, Flag, live_flag, port_flag, record_flag, queue_size_flag, defaults, set_flag, set_flags,
  parse_args,
}
use sceptre_pipeline.Cli.Main.{World, Finished, finished, raised, main}
use sceptre_pipeline.Cli.Graph.{IsExit}
use sceptre_pipeline.Cli.Exits
use sceptre_pipeline.Cli.Exits.{main-IsExit, main-rejects}
use sceptre_pipeline.Wheelhouse
use sceptre_pipeline.Wheelhouse.{platform_families, toolchain_command}
use sceptre_pipeline.Wheelhouse.Exits.{AllInstallable, main-exit}
use sceptre_pipeline.Tests.Packets.{np}
use sceptre_pipeline.Tests.Sessions.{items, packet}

abbrev turns : List Turn
turns = received (packet 10) ∷ quiet ∷ received (packet 20) ∷ Sources.broken ∷ []

-- a kernel that grants less than it is asked for
abbrev os : Os
os = record { linux = true; accepts = true; granted = some 425984; bind = bound ("0.0.0.0", 4991) }

abbrev live : LiveSource
live = Live.init "0.0.0.0" (some 4991) (some (Recorder.init none none))

run-Ran_example :
    let (s', puts) = Live.run os turns live in
    (s'.ready ≡ true) × (s'.granted_rcvbuf ≡ os.granted) × Ran os.bind turns live s' puts
run-Ran_example = run-Ran os turns live

abbrev captured : List Receiver.Turn
captured = Receiver.received (packet 20) ∷ Receiver.expired ∷ []

main-saves_example :
    Receiver.main fixed_point (pos 5000) (5 * 2 ^ 20) (some (packet 10)) captured
    ≡ done (
        some (record {
          start_time_ns = 10;
          duration_seconds = 5 * 2 ^ 20;
          packets = packet 10 ∷ arrivals_of captured;
        }))
main-saves_example =
    main-saves fixed_point 5000 (5 * 2 ^ 20) (packet 10) captured (omega arith) refl

abbrev world : World ℕ
world = record {
  auto_path = "recordings/udp_capture_20260101_000000.pkl";
  captures = λ path. none;
  os = os;
  turns = turns;
  items = items;
  start_time_ns = 0;
  end_time_ns = 3;
  begun = 0;
  now = 3 * 2 ^ 20;
}

abbrev flags : List (Flag ℕ)
flags = live_flag ∷ port_flag 4991 ∷ record_flag none ∷ []

abbrev args : Args ℕ
args = set_flags fixed_point flags (defaults fixed_point)

parsed : parse_args fixed_point flags ≡ some args
unfolding parse_args set_flags set_flag defaults
parsed = refl

valid :
    (fixed_point.le args.poll_interval (fixed_point.of_nat 0) ≡ false)
    × ((args.live && is_none args.port) ≡ false)
    × (0 < args.queue_size)
unfolding set_flags set_flag defaults
valid = (refl, refl, omega arith)

main-IsExit_example :
    (f : Finished ℕ) × (main fixed_point np world flags ≡ finished f)
    × IsExit fixed_point args.live world args f
main-IsExit_example = main-IsExit fixed_point np world flags args parsed valid.0 valid.1 valid.2

abbrev no_queue : List (Flag ℕ)
no_queue = live_flag ∷ port_flag 4991 ∷ queue_size_flag 0 ∷ []

abbrev queueless : Args ℕ
queueless = set_flags fixed_point no_queue (defaults fixed_point)

refused :
    (parse_args fixed_point no_queue ≡ some queueless)
    × (fixed_point.le queueless.poll_interval (fixed_point.of_nat 0) ≡ false)
    × ((queueless.live && is_none queueless.port) ≡ false)
    × (queueless.queue_size ≡ 0)
unfolding parse_args set_flags set_flag defaults
refused = (refl, refl, refl, refl)

main-rejects_example : main fixed_point np world no_queue ≡ raised value_error
main-rejects_example =
    main-rejects fixed_point np world no_queue (raised value_error)
      (Exits.no_queue queueless refused.0 refused.1 refused.2 refused.3)

-- pip that finds nothing for one Python version
abbrev succeeds : List String → Bool
succeeds [] = true
succeeds (word ∷ words) = if str_eq word "3.13" then false else succeeds words

main-exit_example :
    ((Wheelhouse.main "python" "wheelhouse" succeeds ≡ 0)
      ⊎ (Wheelhouse.main "python" "wheelhouse" succeeds ≡ 1))
    × ((Wheelhouse.main "python" "wheelhouse" succeeds ≡ 0) ↔ (
        AllInstallable "python" "wheelhouse" succeeds platform_families
        × (succeeds (toolchain_command "python" "wheelhouse") ≡ true)))
main-exit_example = main-exit "python" "wheelhouse" succeeds
