-- ===== src/Raising.antt =====
-- An emit callback that may raise, in src/sceptre_pipeline/buffer.py and runtime.py: what a call
-- leaves when it returns, or when an exception of the callback leaves it. The callback is a parameter
-- with a state of its own. The methods are in the children, with the conditions of `Buffer`,
-- `Router` and `Runtime`.
pub mod Buffer
pub mod Router
pub mod Pipeline
pub mod Follows
pub mod Equivalent
pub mod Sessions
pub mod Cut
pub mod Flow
pub mod Turns
pub mod Ended
pub mod Stopped
use sceptre_pipeline.Prelude.{Bool, true, false, ◌||◌, List, [], ◌∷◌, ◌++◌, if◌then◌else◌}
use sceptre_pipeline.Buffer.{Window}

-- The callback's new state, and whether it raises.
abbrev pub Emit : Type 0 → Type 0 → Type 0
Emit S F = S → Window F → S × Bool

-- The object and the callback after a call, the windows handed to the callback, the one on which it
-- raised included, and whether an exception leaves the call.
pub record Outcome (S F A : Type 0) : Type 0 where
  pub state : A
  pub callback : S
  pub handed : List (Window F)
  pub raised : Bool

module _ {S F A : Type 0} where
  abbrev pub returned : A → S → Outcome S F A
  returned a s = record { state = a; callback = s; handed = []; raised = false }

  -- what a call did behind earlier windows
  abbrev pub behind : List (Window F) → Outcome S F A → Outcome S F A
  behind ws o = record o { handed = ws ++ o.handed }

  -- the next statement, which an exception skips
  unfoldable pub and_then : Outcome S F A → (A → S → Outcome S F A) → Outcome S F A
  and_then o rest = if o.raised then o else behind o.handed (rest o.state o.callback)

  -- a `finally`, which an exception does not skip
  unfoldable pub finally : Outcome S F A → (A → S → Outcome S F A) → Outcome S F A
  finally o last =
      let o' = last o.state o.callback in
      record {
        state = o'.state;
        callback = o'.callback;
        handed = o.handed ++ o'.handed;
        raised = o.raised || o'.raised;
      }

-- the callback on one window
unfoldable pub emit_one : {S F : Type 0} → Emit S F → S → Window F → Outcome S F (Unit {0})
emit_one emit s w =
    let (s', raised) = emit s w in
    record { state = tt; callback = s'; handed = w ∷ []; raised = raised }

-- The callback on the windows in order, up to the first on which it raises.
unfoldable pub emit_all : {S F : Type 0} → Emit S F → S → List (Window F) → Outcome S F (Unit {0})
emit_all emit s [] = returned tt s
emit_all emit s (w ∷ ws) = and_then (emit_one emit s w) (λ u s'. emit_all emit s' ws)

-- the call of a method on a part of an object
unfoldable pub within : {S F A B : Type 0} → (A → B) → Outcome S F A → Outcome S F B
within f o = record {
  state = f o.state;
  callback = o.callback;
  handed = o.handed;
  raised = o.raised;
}
