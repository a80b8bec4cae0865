-- ===== src/Tests/Replays.antt =====
-- A replay of two packets through `main` and the threads that it starts.
use sceptre_pipeline.Prelude.{
  ℕ, zero, suc, ◌*◌, ◌^◌, ◌<◌, ◌≡◌, refl, true, false, some, none, List, [], ◌∷◌, arith,
}
use sceptre_pipeline.Floats.{fixed_point}
use sceptre_pipeline.Router
use sceptre_pipeline.Router.Flow.{lost}
use sceptre_pipeline.Sources.{replay_run}
use sceptre_pipeline.Sources.RecordReplay.{undisturbed}
use sceptre_pipeline.Live.{bound}
use sceptre_pipeline.Runtime.{Item}
use sceptre_pipeline.Runtime.Threads.{System, start, turn, Reach, here}
use sceptre_pipeline.Runtime.Threads.Replay.{replay_puts}
use sceptre_pipeline.Runtime.Threads.Bounded.{put_next, Rounds, begin, round, both, run-terminates}
use sceptre_pipeline.Cli.{
  Args, Flag, replay_flag, pace_flag, queue_size_flag, max_samples_flag, max_streams_flag,
  max_age_flag, defaults, set_flag, set_flags, parse_args,
}
use sceptre_pipeline.Cli.Main.{World, Finished, finished, main}
use sceptre_pipeline.Cli.Replayed.{new_pipeline, IsReplayed, main-IsReplayed}
use sceptre_pipeline.Tests.Packets.{np}
use sceptre_pipeline.Tests.Sessions.{session, clock}
use sceptre_pipeline.Tests.Threads.{recording, reach_replayed, all_taken, returned, bodies, begun}

abbrev flags : List (Flag ℕ)
flags =
    replay_flag "capture.pkl"
    ∷ pace_flag
    ∷ queue_size_flag 4
    ∷ max_samples_flag 100
    ∷ max_streams_flag 4
    ∷ max_age_flag (2 ^ 20)
    ∷ []

abbrev args : Args ℕ
args = set_flags fixed_point flags (defaults fixed_point)

abbrev world : World ℕ
world = record {
  auto_path = "recordings/udp_capture_20260101_000000.pkl";
  captures = λ path. undisturbed (some recording);
  os = record { linux = true; accepts = true; granted = none; bind = bound ("0.0.0.0", 4991) };
  turns = [];
  items = [];
  start_time_ns = 0;
  end_time_ns = 3;
  begun = 0;
  now = 3 * 2 ^ 20;
}

parsed : parse_args fixed_point flags ≡ some args
unfolding parse_args set_flags set_flag defaults
parsed = refl

valid :
    (fixed_point.le args.poll_interval (fixed_point.of_nat 0) ≡ false)
    × (args.live ≡ false)
    × (0 < args.queue_size)
unfolding set_flags set_flag defaults
valid = (refl, refl, omega arith)

-- the same threads as in `Threads`
reached :
    Reach fixed_point np
      (start args.queue_size
        (replay_run args.pace (undisturbed (some recording))).puts
        (new_pipeline fixed_point np args))
      all_taken
unfolding set_flags set_flag defaults
reached = reach_replayed

none_lost : lost all_taken.pipeline.router ≡ 0
unfolding Router.init
none_lost = returned.3

main-IsReplayed_example :
    (items : List (Item ℕ)) × (f : Finished ℕ) × (main fixed_point np
        (record world { items = items })
        flags
      ≡ finished f)
    × IsReplayed fixed_point np (record world { items = items }) args recording all_taken f
main-IsReplayed_example =
    main-IsReplayed fixed_point np world flags args recording all_taken parsed valid.0 valid.1
      valid.2 refl reached returned.0 returned.1 returned.2 none_lost

-- The two threads by turns: a put, if there is an item left, and a turn of the consumer.
abbrev alternate : ℕ → System ℕ → System ℕ
alternate zero s = s
alternate (suc n) s =
    let t = alternate n s in turn fixed_point np 0 clock (put_next fixed_point np t.pending t)

alternate-Rounds : (n : ℕ) (s : System ℕ) → Rounds fixed_point np s n (alternate n s)
alternate-Rounds zero s = begin
alternate-Rounds (suc n) s = round (alternate-Rounds n s) (both 0 clock here here here)

run-terminates_example : (alternate 8 begun).finished ≡ true
run-terminates_example =
    run-terminates fixed_point np 4 (replay_puts bodies) session 8 (alternate 8 begun) refl
      (alternate-Rounds 8 begun) (omega arith)
