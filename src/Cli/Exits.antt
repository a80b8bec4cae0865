-- ===== src/Cli/Exits.antt =====
-- How `main` of src/sceptre_pipeline/__main__.py ends.
use sceptre_pipeline.Prelude.{
  ◌<◌, ◌≡◌, refl, sym, ◌∙◌, Bool, true, false, true≢false, ◌&&◌, ◌⊎◌, inl, inr, Option, none, some,
  List, lt→ltb, arith, Bool-cases, if_true, ℕ,
}
use sceptre_pipeline.Result.{Result, ok, err, value_error}
use sceptre_pipeline.Floats.{Floats}
use sceptre_pipeline.Numpy.{Numpy}
use sceptre_pipeline.Buffer.{is_none}
use sceptre_pipeline.Queue.{BoundedRawQueue}
use sceptre_pipeline.Queue
use sceptre_pipeline.Sources.{replay_run}
use sceptre_pipeline.Live.{LiveSource, Bind, bound, os_error, other_error, Os}
use sceptre_pipeline.Live
use sceptre_pipeline.Live.Running.{run-Ran}
use sceptre_pipeline.Cli.{Args, Flag, parse_args}
use sceptre_pipeline.Cli.Main.{
  Wired, World, Finished, Outcome, usage_error, raised, finished, is_recorded, replay_path,
  saved_of, build_runtime, source_result, drive, main_args, main,
}
use sceptre_pipeline.Cli.Graph.{
  IsExit, wired, recorder_in, new_recorder, zero_iff, zero_or_one, live_delivers, live_records,
  saves, build_runtime-wired,
}

both_true :
    (live : Bool) (port : Option ℕ) → live ≡ true → port ≡ none → (live && is_none port) ≡ true
both_true true none e f = refl
both_true true (some n) e f = cc
both_true false port e f = absurd (true≢false (sym e))

module _ {F Arr : Type 0} (fl : Floats F) (np : Numpy Arr) where
  pub drive-IsExit :
      (live : Bool) (world : World F) (a : Args F)
      → IsExit fl live world a (drive fl np world live (wired fl live world a))
  unfolding drive source_result saved_of Live.init
  drive-IsExit false world a = record {
    codes = zero_or_one fl _ _;
    success =
        let (to, from) =
          zero_iff fl false (replay_run a.pace (world.captures (replay_path a.replay))).failed in
        ((λ e. (to e).1), (λ e. from (refl, e)));
    recording = refl;
    silent = refl;
  }
  drive-IsExit true world a =
      let s = Live.init a.host a.port (recorder_in fl true a) in
      let s' = (Live.run world.os world.turns s).0 in
      let (ready, granted, ran) = run-Ran world.os world.turns s in
      let (to, from) = zero_iff fl (is_none s'.bound_address) s'.failed in
      let (delivers, back) = live_delivers fl world.os.bind world.turns s s' _ refl refl ran in
      record {
        codes = zero_or_one fl _ _;
        success = ((λ e. delivers (to e)), (λ d. from (back d)));
        recording = saves fl a.record_to world a _ s'.recorder (λ e.
            live_records fl world.os.bind world.turns s s' _ (new_recorder fl a)
              (if_true (is_recorded a.record_to) _ _ e) ran);
        silent = tt;
      }

  main_parsed :
      (world : World F) (flags : List (Flag F)) (a : Args F)
      → parse_args fl flags ≡ some a
      → main fl np world flags ≡ main_args fl np world a
  unfolding main
  main_parsed world flags a e = rw (e, main) refl

  main_args_rejects :
      (world : World F) (a : Args F)
      → (fl.le a.poll_interval (fl.of_nat 0) ≡ true) ⊎ ((a.live && is_none a.port) ≡ true)
      → main_args fl np world a ≡ usage_error
  unfolding main_args
  main_args_rejects world a (inl poll) = rw poll refl
  main_args_rejects world a (inr port) = elim (Bool-cases (fl.le a.poll_interval (fl.of_nat 0))) [
    | inl poll ↦ rw poll refl
    | inr poll ↦ rw (poll, port) refl
  ]

  -- behind the checks of `main`
  after : World F → Args F → Result (Wired F) → Outcome F
  after world a (err e) = raised e
  after world a (ok w) = finished (drive fl np world a.live w)

  main_args_built :
      (world : World F) (a : Args F) (r : Result (Wired F))
      → fl.le a.poll_interval (fl.of_nat 0) ≡ false
      → (a.live && is_none a.port) ≡ false
      → build_runtime fl a world.auto_path ≡ r
      → main_args fl np world a ≡ after world a r
  unfolding main_args after
  main_args_built world a (err e) poll port built = rw (poll, port, built, main_args) refl
  main_args_built world a (ok w) poll port built = rw (poll, port, built, main_args) refl

  build_runtime-empty :
      (world : World F) (a : Args F)
      → a.queue_size ≡ 0
      → build_runtime fl a world.auto_path ≡ err value_error
  unfolding build_runtime Queue.init
  build_runtime-empty world a h = rw (lt→ltb a.queue_size 1 (omega arith)) refl

  pub main-drive :
      (world : World F) (flags : List (Flag F)) (a : Args F)
      → parse_args fl flags ≡ some a
      → fl.le a.poll_interval (fl.of_nat 0) ≡ false
      → (a.live && is_none a.port) ≡ false
      → 0 < a.queue_size
      → main fl np world flags ≡ finished (drive fl np world a.live (wired fl a.live world a))
  unfolding after
  main-drive world flags a parsed poll port size =
      main_parsed world flags a parsed
      ∙ main_args_built world a _ poll port (build_runtime-wired fl world a size poll)

  -- Let the options parse, with a positive poll interval, a port if the mode is live, and a
  -- positive queue size. Then `main` finishes with 0 or 1, and with 0 just if the capture was
  -- replayed without a failure, or the live socket was bound and did not fail. It saves a recording
  -- just in the live mode with `--record`, at the path given or the automatic one, of every packet
  -- heard that the recorder's caps admit. A replay logs no capture line.
  pub main-IsExit :
      (world : World F) (flags : List (Flag F)) (a : Args F)
      → parse_args fl flags ≡ some a
      → fl.le a.poll_interval (fl.of_nat 0) ≡ false
      → (a.live && is_none a.port) ≡ false
      → 0 < a.queue_size
      → (f : Finished F) × (main fl np world flags ≡ finished f) × IsExit fl a.live world a f
  main-IsExit world flags a parsed poll port size = (
    drive fl np world a.live (wired fl a.live world a),
    main-drive world flags a parsed poll port size,
    drive-IsExit a.live world a,
  )

  -- The command lines that `main` refuses, and how it ends on them.
  pub data Refused (flags : List (Flag F)) : Outcome F → Type 0 where
    unparsed : parse_args fl flags ≡ none → Refused flags usage_error
    no_poll :
        (a : Args F)
        → parse_args fl flags ≡ some a
        → fl.le a.poll_interval (fl.of_nat 0) ≡ true
        → Refused flags usage_error
    no_port :
        (a : Args F)
        → parse_args fl flags ≡ some a
        → a.live ≡ true
        → a.port ≡ none
        → Refused flags usage_error
    no_queue :
        (a : Args F)
        → parse_args fl flags ≡ some a
        → fl.le a.poll_interval (fl.of_nat 0) ≡ false
        → (a.live && is_none a.port) ≡ false
        → a.queue_size ≡ 0
        → Refused flags (raised value_error)

  -- `main` ends with a usage error if the options do not parse, or if they do with a poll interval
  -- that is not positive or in the live mode without a port. If they parse and pass these checks
  -- and the queue size is 0, then a ValueError leaves `main`.
  pub main-rejects :
      (world : World F) (flags : List (Flag F)) (o : Outcome F)
      → Refused flags o
      → main fl np world flags ≡ o
  unfolding main after
  main-rejects world flags _ (unparsed e) = rw (e, main) refl
  main-rejects world flags _ (no_poll a e poll) =
      main_parsed world flags a e ∙ main_args_rejects world a (inl poll)
  main-rejects world flags _ (no_port a e live port) =
      main_parsed world flags a e
      ∙ main_args_rejects world a (inr (both_true a.live a.port live port))
  main-rejects world flags _ (no_queue a e poll port size) =
      main_parsed world flags a e
      ∙ main_args_built world a _ poll port (build_runtime-empty world a size)
