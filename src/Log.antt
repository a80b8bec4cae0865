-- ===== src/Log.antt =====
-- `_RateLimitedLog` and `_log_unsupported_format` of src/sceptre_pipeline/interpreter.py: which
-- occurrences of a warning are logged.
pub mod Limits
use Prim.Native.String.{String}
use text.Mathlib.Text.{◌==◌ as str_eq}
use sceptre_pipeline.Prelude.{
  ℕ, ◌+◌, ◌%◌, Bool, true, false, ◌||◌, List, [], ◌∷◌, length, leb, ◌==◌, if◌then◌else◌,
}

-- `_counts.get(reason, 0)` is a function of the reason.
pub record RateLimitedLog : Type 0 where
  pub first_n : ℕ
  pub every : ℕ
  pub counts : String → ℕ

abbrev pub new_log : RateLimitedLog
new_log = record { first_n = 5; every = 1000; counts = λ reason. 0 }

unfoldable pub should_log : RateLimitedLog → String → RateLimitedLog × Bool
should_log log reason =
    let n = log.counts reason + 1 in
    (
      record log { counts = λ r. if str_eq r reason then n else log.counts r },
      leb n log.first_n || n % log.every == 0,
    )

-- `_UNSUPPORTED_WORDS_LOGGED` and `_unsupported_cap_announced`
pub record UnsupportedLog : Type 0 where
  pub words : List ℕ
  pub cap_announced : Bool

-- `u in _UNSUPPORTED_WORDS_LOGGED`
abbrev pub is_logged : ℕ → List ℕ → Bool
is_logged u [] = false
is_logged u (w ∷ ws) = u == w || is_logged u ws

-- What one call writes to the log.
pub data Line : Type 0 where
  silent : Line
  cap_line : Line
  word_line : ℕ → Line

abbrev pub unsupported_words_cap : ℕ
unsupported_words_cap = 64

-- `_log_unsupported_format`
unfoldable pub log_unsupported_format : ℕ → UnsupportedLog → UnsupportedLog × Line
log_unsupported_format u log =
    if is_logged u log.words
    then (log, silent)
    else if leb unsupported_words_cap (length log.words)
    then (if log.cap_announced
        then (log, silent)
        else (record log { cap_announced = true }, cap_line))
    else (record log { words = u ∷ log.words }, word_line u)
