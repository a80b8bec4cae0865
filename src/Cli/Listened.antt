-- ===== src/Cli/Listened.antt =====
-- `main` of src/sceptre_pipeline/__main__.py on a live stream, over the two threads that it starts.
use mathlib.Core.Path.{subst}
use sceptre_pipeline.Prelude.{
  ◌<◌, ◌≡◌, refl, sym, ap, ◌∙◌, Bool, true, false, true≢false, some, List, ◌++◌,
}
use sceptre_pipeline.Floats.{Floats}
use sceptre_pipeline.Numpy.{Numpy}
use sceptre_pipeline.Dict.{StreamId}
use sceptre_pipeline.Interpreter
use sceptre_pipeline.Interpreter.{process_all}
use sceptre_pipeline.Buffer.{is_none}
use sceptre_pipeline.Router.Drained.{stream_bytes}
use sceptre_pipeline.Router.Flow.{lost}
use sceptre_pipeline.Recorder.{Packet}
use sceptre_pipeline.Sources.{Put, Turn}
use sceptre_pipeline.Sources.RecordReplay.{raw_puts}
use sceptre_pipeline.Live.{LiveSource, Bind, bound, os_error, other_error}
use sceptre_pipeline.Live
use sceptre_pipeline.Live.Running.{Ran, run-Ran}
use sceptre_pipeline.Runtime.{Item, run}
use sceptre_pipeline.Runtime.EndToEnd.{samples_of}
use sceptre_pipeline.Runtime.Threads.{System, start, Reach}
use sceptre_pipeline.Runtime.Threads.Live.{payloads, IsCutOff, live-IsCutOff}
use sceptre_pipeline.Meter.{summary, call_all}
use sceptre_pipeline.Meter
use sceptre_pipeline.Cli.{Args, Flag, parse_args}
use sceptre_pipeline.Cli.Main.{World, Finished, finished, recorder_of, drive, main}
use sceptre_pipeline.Cli.Graph.{wired, IsExit, heard}
use sceptre_pipeline.Cli.Exits.{drive-IsExit, main-drive}
use sceptre_pipeline.Cli.Replayed.{new_pipeline, drive-metered, init-keyed}

-- What a live source puts are the packets that it hears.
heard_puts :
    (b : Bind) (turns : List Turn) (s s' : LiveSource) (puts : List Put)
    → Ran b turns s s' puts
    → puts ≡ raw_puts (heard b turns)
heard_puts (bound addr) turns s s' puts (at, sent, fails, records) = sent
heard_puts os_error turns s s' puts (at, sent, fails, records) = sent
heard_puts other_error turns s s' puts (at, sent, fails, records) = sent

module _ {F Arr : Type 0} (fl : Floats F) (np : Numpy Arr) where
  -- what the source of the options puts
  abbrev pub live_puts : World F → Args F → List Put
  live_puts world a = (Live.run world.os world.turns (Live.init a.host a.port (recorder_of fl a))).1

  -- The run of `main` leaves what the threads leave; `main` ends as on a live stream, its summary is that of a meter called with the windows
  -- of the threads, and these hold the samples of the first of the packets heard; the others are in
  -- the queue or were not put.
  pub record IsListened (world : World F) (a : Args F) (s : System F) (f : Finished F)
      : Type 0 where
    pub ran : run fl np world.items (new_pipeline fl np a) ≡ (s.pipeline, s.windows)
    pub exit : IsExit fl true world a f
    pub metered :
        f.throughput
        ≡ summary fl world.now (call_all fl s.windows (Meter.start world.begun Meter.init)).0
    pub taken : List Packet
    pub behind : List Packet
    pub whole : heard world.os.bind world.turns ≡ taken ++ behind
    pub left : s.queue.items ++ s.pending ≡ raw_puts behind
    pub samples :
        (k : StreamId)
        → stream_bytes k s.windows
          ≡ samples_of k (process_all fl (Interpreter.init a.max_streams) (payloads taken)).1

  drive-IsListened :
      (live : Bool) (world : World F) (a : Args F) (s : System F)
      → live ≡ true
      → run fl np world.items (new_pipeline fl np a) ≡ (s.pipeline, s.windows)
      → IsCutOff fl np (heard world.os.bind world.turns) (new_pipeline fl np a) s
      → IsListened world a s (drive fl np world live (wired fl live world a))
  drive-IsListened false world a s e ran cut = absurd (true≢false (sym e))
  drive-IsListened true world a s e ran cut = record {
    ran = ran;
    exit = drive-IsExit fl np true world a;
    metered = drive-metered fl np true world a s ran;
    taken = cut.split.taken;
    behind = cut.split.behind;
    whole = cut.split.whole;
    left = cut.split.left;
    samples = λ k.
        cut.samples k
        ∙ ap
            (λ open_at_start.
              open_at_start
              ++ samples_of k
                  (process_all fl (Interpreter.init a.max_streams) (payloads cut.split.taken)).1)
            ((init-keyed fl np a).2 k);
  }

  -- Let the options parse, for a live stream, with a positive poll interval, a port and a positive
  -- queue size. Let the threads that `main` starts, the source's and the consumer's, take their
  -- steps in any order until the consumer has returned, with no drop counted by the queue, the
  -- router or a buffer. Then `main`, whose loop gets what the consumer got, leaves the pipeline and
  -- emits the windows that the threads do; it ends with its exit code, and its recording, of every
  -- packet heard that the caps admit, if one is asked for; its throughput line is that of a meter
  -- called with the windows emitted; and the bytes of the windows of every stream are the samples
  -- of the data records that the interpreter makes of a first part of the packets heard. The other
  -- packets heard are those left in the queue or not put when the consumer returned.
  pub main-IsListened :
      (world : World F) (flags : List (Flag F)) (a : Args F) (s : System F)
      → parse_args fl flags ≡ some a
      → fl.le a.poll_interval (fl.of_nat 0) ≡ false
      → a.live ≡ true
      → is_none a.port ≡ false
      → 0 < a.queue_size
      → Reach fl np (start a.queue_size (live_puts world a) (new_pipeline fl np a)) s
      → s.finished ≡ true
      → s.queue.dropped ≡ 0
      → lost s.pipeline.router ≡ 0
      → (items : List (Item F)) × (f : Finished F) × (main fl np
            (record world { items = items })
            flags
          ≡ finished f)
        × IsListened (record world { items = items }) a s f
  main-IsListened world flags a s parsed poll live port size reach over none_dropped none_lost =
      let (keyed, fresh, closed) = init-keyed fl np a in
      let source = Live.init a.host a.port (recorder_of fl a) in
      let ran = run-Ran world.os world.turns source in
      let puts = heard_puts world.os.bind world.turns source _ (live_puts world a) ran.2 in
      let cut =
        live-IsCutOff fl np a.queue_size (heard world.os.bind world.turns) (new_pipeline fl np a) s
          size
          (subst (λ xs. Reach fl np (start a.queue_size xs (new_pipeline fl np a)) s) puts reach)
          over none_dropped keyed (none_lost ∙ sym fresh) in
      let world' = record world { items = cut.items } in
      (
        cut.items,
        drive fl np world' a.live (wired fl a.live world' a),
        main-drive fl np world' flags a parsed poll (rw (live, port) refl) size,
        drive-IsListened a.live world' a s live cut.ran cut,
      )
