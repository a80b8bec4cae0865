-- ===== src/Meter/Session.antt =====
-- `ThroughputMeter` of src/sceptre_pipeline/metrics.py as the emit callback of `Pipeline.run` of
-- src/sceptre_pipeline/runtime.py.
use sceptre_pipeline.Prelude.{◌≡◌, List, length, arith}
use sceptre_pipeline.Floats.{Floats}
use sceptre_pipeline.Numpy.{Numpy}
use sceptre_pipeline.Dict.Unique.{sum}
use sceptre_pipeline.Router.Routed.{IsRouted}
use sceptre_pipeline.Runtime.{Pipeline, Item, run}
use sceptre_pipeline.Runtime.EndToEnd.{run-IsRouted}
use sceptre_pipeline.Meter.{init, call_all}
use sceptre_pipeline.Meter.Totals.{
  samples_in, raw_bytes_in, bytes_in-raw, samples_of_stat, call_all-Tallied,
}

module _ {F Arr : Type 0} (fl : Floats F) (np : Numpy Arr) where
  -- Let the router have at most `max_streams` buffers, each well formed and under its own stream
  -- id. A new meter that is the emit callback of a session hands every window on, in order, counts
  -- the windows and their samples, its streams' sample counts add up to its own, and its byte count
  -- is the number of bytes that the windows hold.
  pub run-metered :
      (items : List (Item F)) (p : Pipeline F)
      → IsRouted np p.router
      → let ws = (run fl np items p).1 in
        let m = (call_all fl ws init).0 in
        ((call_all fl ws init).1 ≡ ws)
        × (m.unit_count ≡ length ws)
        × (m.total_samples ≡ samples_in ws)
        × (sum samples_of_stat m.streams ≡ m.total_samples)
        × (m.total_bytes ≡ raw_bytes_in ws)
  unfolding init
  run-metered items p v =
      let ws = (run fl np items p).1 in
      let (t, handed) = call_all-Tallied fl ws init in
      let (v', good) = run-IsRouted fl np items p v in
      (
        handed,
        omega (arith, t.units),
        omega (arith, t.samples),
        omega (arith, t.streams, t.samples),
        omega (arith, t.bytes, bytes_in-raw fl np ws good),
      )
