-- ===== src/Prelude/Int.antt =====
-- Signed integers over the native numbers, and the two's-complement reading of a word.
use Prim.Native.Nat.{ℕ, ◌-◌, ◌/◌, ◌^◌}
use sceptre_pipeline.Prelude.Tests.{ltb, if◌then◌else◌}

-- `negsuc n` is -(n + 1).
pub data ℤ : Type 0 where
  pos : ℕ → ℤ
  negsuc : ℕ → ℤ

-- `struct.unpack(">q")` and `struct.unpack(">h")` of the word `w` of `bits` bits.
abbrev pub signed : ℕ → ℕ → ℤ
signed bits w = if ltb w (2 ^ bits / 2) then pos w else negsuc (2 ^ bits - w - 1)
