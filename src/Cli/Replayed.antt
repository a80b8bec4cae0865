-- ===== src/Cli/Replayed.antt =====
-- `main` of src/sceptre_pipeline/__main__.py on a capture, over the two threads that it starts.
use sceptre_pipeline.Prelude.{
  ◌<◌, ◌≡◌, refl, sym, ap, ◌∙◌, Bool, true, false, true≢false, ◌&&◌, none, some, List, [], ◌++◌,
  map,
}
use sceptre_pipeline.Floats.{Floats}
use sceptre_pipeline.Numpy.{Numpy}
use sceptre_pipeline.Dict.{StreamId}
use sceptre_pipeline.Dict
use sceptre_pipeline.Interpreter
use sceptre_pipeline.Interpreter.{process_all}
use sceptre_pipeline.Buffer.{default_flush_fields, is_none}
use sceptre_pipeline.Router
use sceptre_pipeline.Router.Drained.{IsKeyed, stream_bytes, open_bytes}
use sceptre_pipeline.Router.Flow.{lost}
use sceptre_pipeline.Recorder.{Packet}
use sceptre_pipeline.Sources.{replay_run}
use sceptre_pipeline.Sources.RecordReplay.{undisturbed, replay_loop-intact}
use sceptre_pipeline.Runtime.{Pipeline, Item, run}
use sceptre_pipeline.Runtime.EndToEnd.{samples_of}
use sceptre_pipeline.Runtime.Threads.{System, start, Reach}
use sceptre_pipeline.Runtime.Threads.Refinement.{Reach-refines}
use sceptre_pipeline.Runtime.Threads.Replay.{replay_samples, of_finished}
use sceptre_pipeline.Meter.{summary, call_all}
use sceptre_pipeline.Meter
use sceptre_pipeline.Cli.{Args, Flag, parse_args}
use sceptre_pipeline.Cli.Main.{World, Finished, finished, replay_path, drive, main}
use sceptre_pipeline.Cli.Graph.{wired}
use sceptre_pipeline.Cli.Exits.{drive-IsExit, main-drive}

module _ {F Arr : Type 0} (fl : Floats F) (np : Numpy Arr) where
  -- what the consumer starts from
  abbrev pub new_pipeline : Args F → Pipeline F
  new_pipeline a = record {
    interpreter = Interpreter.init a.max_streams;
    router = Router.init a.max_samples a.max_age_s default_flush_fields a.max_streams;
  }

  -- The run of `main` leaves what the threads leave; `main` ends with 0, its summary is that of a meter called with the windows of the threads, and
  -- the bytes of a stream's windows are the samples of all its data records.
  pub record IsReplayed (world : World F) (a : Args F) (packets : List Packet) (s : System F)
      (f : Finished F) : Type 0 where
    pub ran : run fl np world.items (new_pipeline a) ≡ (s.pipeline, s.windows)
    pub success : f.exit_code ≡ 0
    pub silent : f.capture_line ≡ none
    pub metered :
        f.throughput
        ≡ summary fl world.now (call_all fl s.windows (Meter.start world.begun Meter.init)).0
    pub whole :
        (k : StreamId)
        → stream_bytes k s.windows
          ≡ samples_of k
              (process_all fl (Interpreter.init a.max_streams) (map (λ o. o.payload) packets)).1

  pub drive-metered :
      (live : Bool) (world : World F) (a : Args F) (s : System F)
      → run fl np world.items (new_pipeline a) ≡ (s.pipeline, s.windows)
      → (drive fl np world live (wired fl live world a)).throughput
        ≡ summary fl world.now (call_all fl s.windows (Meter.start world.begun Meter.init)).0
  unfolding drive
  drive-metered live world a s e =
      ap (λ r. summary fl world.now (call_all fl r.1 (Meter.start world.begun Meter.init)).0) e

  intact-success :
      (world : World F) (a : Args F) (packets : List Packet)
      → world.captures (replay_path a.replay) ≡ undisturbed (some packets)
      → (replay_run a.pace (world.captures (replay_path a.replay))).failed ≡ false
  unfolding replay_run
  intact-success world a packets e =
      ap (λ c. (replay_run a.pace c).failed) e
      ∙ ap (λ o. o.failed) (replay_loop-intact a.pace none packets)

  pub init-keyed :
      (a : Args F)
      → IsKeyed (new_pipeline a).router.buffers
        × (lost (new_pipeline a).router ≡ 0)
        × ((k : StreamId) → open_bytes k (new_pipeline a).router.buffers ≡ [])
  unfolding Router.init Dict.get
  init-keyed a = (record { unique = tt; named = tt }, refl, λ k. refl)

  -- the run of the threads `s`, with what the consumer got as the items of the loop
  drive-IsReplayed :
      (live : Bool) (world : World F) (a : Args F) (packets : List Packet) (s : System F)
      → live ≡ false
      → world.captures (replay_path a.replay) ≡ undisturbed (some packets)
      → run fl np world.items (new_pipeline a) ≡ (s.pipeline, s.windows)
      → ((k : StreamId)
          → stream_bytes k s.windows
            ≡ samples_of k
                (process_all fl (Interpreter.init a.max_streams) (map (λ o. o.payload) packets)).1)
      → IsReplayed world a packets s (drive fl np world live (wired fl live world a))
  drive-IsReplayed true world a packets s e capture ran whole = absurd (true≢false e)
  drive-IsReplayed false world a packets s e capture ran whole =
      let v = drive-IsExit fl np false world a in
      record {
        ran = ran;
        success = v.success.1 (intact-success world a packets capture);
        silent = v.silent;
        metered = drive-metered false world a s ran;
        whole = whole;
      }

  -- Let the options parse, for a replay, with a positive poll interval and a positive queue size,
  -- and let the capture be a list of packets that is read without a disturbance. Let the threads
  -- that `main` starts, the replay's and the consumer's, take their steps in any order until the
  -- consumer has returned, having left its loop at the end-of-stream mark, with no drop counted by
  -- the queue, the router or a buffer. Then `main`, whose loop gets what the consumer got, leaves
  -- the pipeline and emits the windows that the threads do; it ends with 0 and logs no capture
  -- line; its throughput line is that of a meter called with the windows emitted; and the bytes of
  -- the windows of every stream are the samples of all its data records that the interpreter makes
  -- of the packets' payloads.
  pub main-IsReplayed :
      (world : World F) (flags : List (Flag F)) (a : Args F) (packets : List Packet) (s : System F)
      → parse_args fl flags ≡ some a
      → fl.le a.poll_interval (fl.of_nat 0) ≡ false
      → a.live ≡ false
      → 0 < a.queue_size
      → world.captures (replay_path a.replay) ≡ undisturbed (some packets)
      → Reach fl np
          (start a.queue_size
            (replay_run a.pace (undisturbed (some packets))).puts
            (new_pipeline a))
          s
      → s.finished ≡ true
      → s.at_mark ≡ true
      → s.queue.dropped ≡ 0
      → lost s.pipeline.router ≡ 0
      → (items : List (Item F)) × (f : Finished F) × (main fl np
            (record world { items = items })
            flags
          ≡ finished f)
        × IsReplayed (record world { items = items }) a packets s f
  main-IsReplayed world flags a packets s parsed poll replayed size capture reach over marked
        none_dropped none_lost =
      let v = Reach-refines fl np _ (new_pipeline a) a.queue_size s size reach in
      let (keyed, fresh, closed) = init-keyed a in
      let world' = record world { items = v.items } in
      (
        v.items,
        drive fl np world' a.live (wired fl a.live world' a),
        main-drive fl np world' flags a parsed poll (ap (◌&& is_none a.port) replayed) size,
        drive-IsReplayed a.live world' a packets s replayed capture
            (of_finished s.finished _ _ over v.sequential)
            (λ k.
              replay_samples fl np a.pace packets a.queue_size (new_pipeline a) s k size reach over
                marked none_dropped keyed (none_lost ∙ sym fresh)
              ∙ ap
                  (◌++ samples_of k
                    (process_all fl (Interpreter.init a.max_streams)
                      (map (λ o. o.payload) packets)).1)
                  (closed k)),
      )
