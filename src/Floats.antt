-- ===== src/Floats.antt =====
-- Python's floats, which the program computes with and does not implement: a type and the
-- operations that the source uses. Definitions over floats take such a record as a parameter.
use sceptre_pipeline.Prelude.{ℕ, ◌+◌, ◌-◌, ◌*◌, ◌/◌, ◌^◌, Bool, leb, ltb, ◌==◌}
use sceptre_pipeline.Prelude.Int.{ℤ, pos, negsuc}

pub record Floats (F : Type 0) : Type 0 where
  -- an integer made a float
  pub of_nat : ℕ → F
  pub of_int : ℤ → F
  -- the true division `a / b` of two integers
  pub ratio : ℤ → ℕ → F
  pub add : F → F → F
  pub sub : F → F → F
  pub div : F → F → F
  pub mul : F → F → F
  -- `round(a, 1)`
  pub round1 : F → F
  -- `a <= b`, `a < b`, `a == b`
  pub le : F → F → Bool
  pub lt : F → F → Bool
  pub eq : F → F → Bool

-- The values of witnesses and tests: natural numbers of 2 ^ -20, cut off at 0.
abbrev pub fixed_point : Floats ℕ
fixed_point = record {
  of_nat = λ n. n * 2 ^ 20;
  of_int = λ a. elim a [ pos n ↦ n * 2 ^ 20 | negsuc n ↦ 0 ];
  ratio = λ a b. elim a [ pos n ↦ n * 2 ^ 20 / b | negsuc n ↦ 0 ];
  add = λ a b. a + b;
  sub = λ a b. a - b;
  div = λ a b. a * 2 ^ 20 / b;
  mul = λ a b. a * b / 2 ^ 20;
  round1 = λ a. a;
  le = leb;
  lt = ltb;
  eq = λ a b. a == b;
}
