-- ===== src/Cli/Graph.antt =====
-- What a run of `main` of src/sceptre_pipeline/__main__.py is to do, and the objects that it wires.
use Prim.Native.String.{String}
use sceptre_pipeline.Prelude.{
  ◌<◌, ◌≡◌, ◌↔◌, refl, sym, ap, ◌∙◌, Bool, true, false, true≢false, ◌&&◌, ◌⊎◌, inl, inr, Option,
  none, some, List, [], le→ltb, arith, if◌then◌else◌,
}
use sceptre_pipeline.Result.{ok}
use sceptre_pipeline.Floats.{Floats}
use sceptre_pipeline.Interpreter
use sceptre_pipeline.Buffer.{default_flush_fields, is_none}
use sceptre_pipeline.Router
use sceptre_pipeline.Queue.{BoundedRawQueue}
use sceptre_pipeline.Queue
use sceptre_pipeline.Recorder.{Packet, Recorder, Capture, save, append_all}
use sceptre_pipeline.Recorder
use sceptre_pipeline.Sources.{Put, Turn, replay_run}
use sceptre_pipeline.Sources.RecordReplay.{packets_of}
use sceptre_pipeline.Live.{LiveSource, Bind, bound, os_error, other_error, Os}
use sceptre_pipeline.Live
use sceptre_pipeline.Live.Running.{Breaks, Ran, recorder_after}
use sceptre_pipeline.Runtime
use sceptre_pipeline.Cli.{Args, RecordTo, no_record, auto, at_path}
use sceptre_pipeline.Cli.Main.{
  Source, live_source, replay_source, Wired, World, Finished, is_recorded, path_of, replay_path,
  exit_code, saved_of, build_runtime,
}

-- The socket is bound.
abbrev pub IsBound : Bind → Type 0
IsBound (bound addr) = Unit
IsBound os_error = ⊥
IsBound other_error = ⊥

-- the packets that reach the recorder
abbrev pub heard : Bind → List Turn → List Packet
heard (bound addr) turns = packets_of turns
heard os_error turns = []
heard other_error turns = []

module _ {F : Type 0} (fl : Floats F) where
  -- what `_build_runtime` wires, given the mode
  abbrev pub source_of : Bool → Args F → Option Recorder → Source
  source_of live a recorder =
      if live
      then live_source (Live.init a.host a.port recorder)
      else replay_source (replay_path a.replay) a.pace

  abbrev pub new_recorder : Args F → Recorder
  new_recorder a = Recorder.init a.record_max_packets (some a.record_max_bytes)

  -- The source did all it was to do: the capture was read to its end, or the socket was bound and
  -- did not fail.
  abbrev pub Delivers : Bool → World F → Args F → Type 0
  Delivers true world a = IsBound world.os.bind × (Breaks world.turns → ⊥)
  Delivers false world a =
      (replay_run a.pace (world.captures (replay_path a.replay))).failed ≡ false

  pub zero_iff : (b f : Bool) → (exit_code b f ≡ 0) ↔ ((b ≡ false) × (f ≡ false))
  unfolding exit_code
  zero_iff true f = ((λ e. absurd cc), (λ e. absurd (true≢false e.0)))
  zero_iff false true = ((λ e. absurd cc), (λ e. absurd (true≢false e.1)))
  zero_iff false false = ((λ e. (refl, refl)), (λ e. refl))

  pub zero_or_one : (b f : Bool) → (exit_code b f ≡ 0) ⊎ (exit_code b f ≡ 1)
  unfolding exit_code
  zero_or_one true f = inr refl
  zero_or_one false true = inr refl
  zero_or_one false false = inl refl

  not_broken :
      (failed : Bool) (turns : List Turn)
      → ((failed ≡ true) ↔ Breaks turns)
      → (failed ≡ false) ↔ (Breaks turns → ⊥)
  not_broken true turns (to, from) =
      ((λ e. absurd (true≢false e)), (λ none_broken. absurd (none_broken (to refl))))
  not_broken false turns (to, from) = ((λ e b. true≢false (sym (from b))), (λ none_broken. refl))

  not_before :
      {A : Type 0} (b c : Bool) → b ≡ false → ((c ≡ true) ↔ ((b ≡ true) ⊎ A)) → (c ≡ true) ↔ A
  not_before b c e (to, from) = (
    λ on. elim (to on) [ inl before ↦ absurd (true≢false (sym before ∙ e)) | inr a ↦ a ],
    λ a. from (inr a),
  )

  pub live_delivers :
      (b : Bind) (turns : List Turn) (s s' : LiveSource) (puts : List Put)
      → s.bound_address ≡ none
      → s.failed ≡ false
      → Ran b turns s s' puts
      → ((is_none s'.bound_address ≡ false) × (s'.failed ≡ false))
        ↔ (IsBound b × (Breaks turns → ⊥))
  live_delivers (bound addr) turns s s' puts unbound working (at, sent, fails, records) =
      let (to, from) = not_broken s'.failed turns (not_before s.failed s'.failed working fails) in
      ((λ e. (tt, to e.1)), (λ d. (ap is_none at, from d.1)))
  live_delivers os_error turns s s' puts unbound working (at, sent, fails, records) =
      ((λ e. absurd (true≢false (sym (ap is_none (at ∙ unbound)) ∙ e.0))), (λ d. absurd d.0))
  live_delivers other_error turns s s' puts unbound working (at, sent, fails, records) =
      ((λ e. absurd (true≢false (sym (ap is_none (at ∙ unbound)) ∙ e.0))), (λ d. absurd d.0))

  pub live_records :
      (b : Bind) (turns : List Turn) (s s' : LiveSource) (puts : List Put) (r : Recorder)
      → s.recorder ≡ some r
      → Ran b turns s s' puts
      → s'.recorder ≡ some (append_all (heard b turns) r)
  unfolding append_all
  live_records (bound addr) turns s s' puts r e (at, sent, fails, records) =
      records ∙ ap (recorder_after (packets_of turns)) e
  live_records os_error turns s s' puts r e (at, sent, fails, records) = records ∙ e
  live_records other_error turns s s' puts r e (at, sent, fails, records) = records ∙ e

  -- What is saved at a path: the recorder that was made, with every packet heard.
  abbrev pub SavesTo : Option String → World F → Args F → Option (String × Capture F) → Type 0
  SavesTo none world a saved = saved ≡ none
  SavesTo (some path) world a saved =
      (cap : Capture F) × (saved ≡ some (path, cap))
      × (cap.packets ≡ (append_all (heard world.os.bind world.turns) (new_recorder a)).packets)
      × (cap.start_time_ns ≡ world.start_time_ns)

  pub saves :
      (rt : RecordTo) (world : World F) (a : Args F) (duration : F) (o : Option Recorder)
      → (is_recorded rt ≡ true
          → o ≡ some (append_all (heard world.os.bind world.turns) (new_recorder a)))
      → SavesTo
          (path_of rt world.auto_path)
          world
          a
          (saved_of (path_of rt world.auto_path) world.start_time_ns duration o)
  unfolding saved_of save
  saves no_record world a duration o h = refl
  saves auto world a duration o h = rw (h refl) (_, refl, refl, refl)
  saves (at_path path) world a duration o h = rw (h refl) (_, refl, refl, refl)

  -- How a run ends: with 0 exactly if the source did all it was to do, and else with 1; with the
  -- recording, in the live mode and where one is asked for; and with no capture line on a replay.
  pub record IsExit (live : Bool) (world : World F) (a : Args F) (f : Finished F) : Type 0 where
    pub codes : (f.exit_code ≡ 0) ⊎ (f.exit_code ≡ 1)
    pub success : (f.exit_code ≡ 0) ↔ Delivers live world a
    pub recording :
        SavesTo (if live then path_of a.record_to world.auto_path else none) world a f.saved
    pub silent : if live then Unit else f.capture_line ≡ none

  abbrev pub recorder_in : Bool → Args F → Option Recorder
  recorder_in live a = if live && is_recorded a.record_to then some (new_recorder a) else none

  -- the object graph of valid options
  abbrev pub wired : Bool → World F → Args F → Wired F
  wired live world a = record {
    pipeline = record {
      interpreter = Interpreter.init a.max_streams;
      router = Router.init a.max_samples a.max_age_s default_flush_fields a.max_streams;
    };
    raw_queue = record { maxsize = a.queue_size; items = []; dropped = 0 };
    source = source_of live a (recorder_in live a);
    recorder = recorder_in live a;
    record_path = if live then path_of a.record_to world.auto_path else none;
  }

  pub build_runtime-wired :
      (world : World F) (a : Args F)
      → 0 < a.queue_size
      → fl.le a.poll_interval (fl.of_nat 0) ≡ false
      → build_runtime fl a world.auto_path ≡ ok (wired a.live world a)
  unfolding build_runtime Queue.init Runtime.init
  build_runtime-wired world a h poll = rw (le→ltb a.queue_size 1 (omega arith), poll) refl
