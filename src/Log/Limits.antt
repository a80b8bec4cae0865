-- ===== src/Log/Limits.antt =====
-- The limiters of src/sceptre_pipeline/interpreter.py over a run of warnings.
use Prim.Native.String.{String}
use text.Mathlib.Text.{◌==◌ as str_eq}
use text.Mathlib.TextEquality.{eq_iff}
use sceptre_pipeline.Prelude.{
  ℕ, ◌+◌, ◌%◌, ◌≤◌, ◌≡◌, refl, ◌∙◌, false, ◌||◌, List, [], ◌∷◌, length, leb, ◌==◌, if◌then◌else◌,
  arith, Bool-cases, inl, inr,
}
use sceptre_pipeline.Log.{
  RateLimitedLog, new_log, should_log, UnsupportedLog, Line, silent, cap_line, word_line,
  unsupported_words_cap, log_unsupported_format,
}

-- a run of warnings
unfoldable pub after_all : List String → RateLimitedLog → RateLimitedLog
after_all [] log = log
after_all (reason ∷ reasons) log = after_all reasons (should_log log reason).0

-- how often the reason is among them
abbrev pub occurrences : String → List String → ℕ
occurrences r [] = 0
occurrences r (reason ∷ reasons) = (if str_eq r reason then 1 else 0) + occurrences r reasons

counts-should_log :
    (log : RateLimitedLog) (reason r : String)
    → (should_log log reason).0.counts r ≡ (if str_eq r reason then 1 else 0) + log.counts r
unfolding should_log
counts-should_log log reason r = elim (Bool-cases (str_eq r reason)) [
  | inl same ↦ rw same (rw (← (eq_iff r reason).0 same) (omega arith))
  | inr other ↦ rw other (omega arith)
]

counts-after_all :
    (reasons : List String) (log : RateLimitedLog) (r : String)
    → (after_all reasons log).counts r ≡ log.counts r + occurrences r reasons
unfolding after_all
counts-after_all [] log r = omega arith
counts-after_all (reason ∷ reasons) log r =
    omega
      (arith, counts-after_all reasons (should_log log reason).0 r, counts-should_log log reason r)

same-after_all :
    (reasons : List String) (log : RateLimitedLog)
    → ((after_all reasons log).first_n ≡ log.first_n) × ((after_all reasons log).every ≡ log.every)
unfolding after_all should_log
same-after_all [] log = (refl, refl)
same-after_all (reason ∷ reasons) log = same-after_all reasons (should_log log reason).0

-- After any run of warnings through a new limiter, one more warning for a reason is logged just if
-- it is among the first five for that reason or its number for that reason is a multiple of 1000,
-- whatever the other reasons did.
pub should_log-after_all :
    (reasons : List String) (reason : String)
    → (should_log (after_all reasons new_log) reason).1
      ≡ (leb (occurrences reason reasons + 1) 5 || (occurrences reason reasons + 1) % 1000 == 0)
unfolding should_log
should_log-after_all reasons reason =
    let (n, m) = same-after_all reasons new_log in
    let c : (after_all reasons new_log).counts reason ≡ occurrences reason reasons =
      omega (arith, counts-after_all reasons new_log reason) in
    rw (n, m, c) refl

-- a run of unsupported words, with the number of lines written
unfoldable pub log_all : List ℕ → UnsupportedLog → UnsupportedLog × ℕ
log_all [] log = (log, 0)
log_all (u ∷ us) log =
    let (log', line) = log_unsupported_format u log in
    let (log'', n) = log_all us log' in
    (log'', elim line [ silent ↦ n | cap_line ↦ n + 1 | word_line w ↦ n + 1 ])

abbrev used : UnsupportedLog → ℕ
used log = (if log.cap_announced then 1 else 0) + length log.words

abbrev written : Line → ℕ
written silent = 0
written cap_line = 1
written (word_line w) = 1

log_unsupported_format-used :
    (u : ℕ) (log : UnsupportedLog)
    → length log.words ≤ unsupported_words_cap
    → (used (log_unsupported_format u log).0 ≡ used log + written (log_unsupported_format u log).1)
      × (length (log_unsupported_format u log).0.words ≤ unsupported_words_cap)
unfolding log_unsupported_format
log_unsupported_format-used u log le = ground arith

line_count :
    (line : Line) (n : ℕ)
    → (elim line as (λ x. ℕ) [ silent ↦ n | cap_line ↦ n + 1 | word_line w ↦ n + 1 ])
      ≡ written line + n
line_count silent n = omega arith
line_count cap_line n = omega arith
line_count (word_line w) n = omega arith

log_all-used :
    (us : List ℕ) (log : UnsupportedLog)
    → length log.words ≤ unsupported_words_cap
    → (used (log_all us log).0 ≡ used log + (log_all us log).1)
      × (length (log_all us log).0.words ≤ unsupported_words_cap)
unfolding log_all
log_all-used [] log le = (omega arith, le)
log_all-used (u ∷ us) log le =
    let (e, le') = log_unsupported_format-used u log le in
    let (e', le'') = log_all-used us (log_unsupported_format u log).0 le' in
    (
      e'
          ∙ rw
              (
                e,
                line_count (log_unsupported_format u log).1
                    (log_all us (log_unsupported_format u log).0).1,
              )
              (omega arith),
      le'',
    )

at_most : (log : UnsupportedLog) (n : ℕ) → length log.words ≤ 64 → used log ≡ n → n ≤ 65
at_most log n le e = ground arith

-- Over any run of unsupported payload-format words from the start of the program, at most 65 lines
-- are logged.
pub log_all-bounded :
    (us : List ℕ)
    → (log_all us (record { words = []; cap_announced = false })).1 ≤ unsupported_words_cap + 1
log_all-bounded us =
    let (e, le) = log_all-used us (record { words = []; cap_announced = false }) (omega arith) in
    at_most (log_all us (record { words = []; cap_announced = false })).0 _ le (e ∙ omega arith)
