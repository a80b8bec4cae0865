-- ===== src/Prelude/Bytes.antt =====
-- Byte strings as lists of numbers: slices, and big-endian numbers.
use Prim.Native.Nat.{ℕ, zero, suc, ◌+◌, ◌-◌, ◌*◌, ◌/◌, ◌%◌, ◌^◌, ◌<◌, min}
use native.Mathlib.Nat.{pow-suc}
use native.Mathlib.Omega.{arith}
use mathlib.Core.Path.{◌≡◌, refl}
use mathlib.Core.List.{List, [], ◌∷◌, ◌++◌}
use sceptre_pipeline.Prelude.Lists.{
  length, take, drop, length-append, length-take, length-drop, drop-append, take-append,
}

abbrev pub Bytes : Type 0
Bytes = List ℕ

-- `b[off : off + n]`
unfoldable pub slice : Bytes → ℕ → ℕ → Bytes
slice b off n = take n (drop off b)

be_from : ℕ → Bytes → ℕ
be_from acc [] = acc
be_from acc (x ∷ xs) = be_from (acc * 256 + x) xs

-- `int.from_bytes(b, "big")`, and `struct.unpack` of an unsigned format
unfoldable pub from_be : Bytes → ℕ
unfolding be_from
from_be = be_from 0

-- `n` bytes, most significant first
unfoldable pub to_be : ℕ → ℕ → Bytes
to_be zero x = []
to_be (suc n) x = to_be n (x / 256) ++ (x % 256) ∷ []

pub length-to_be : (n x : ℕ) → length (to_be n x) ≡ n
unfolding to_be
length-to_be zero x = refl
length-to_be (suc n) x =
    omega (arith, length-append (to_be n (x / 256)) ((x % 256) ∷ []), length-to_be n (x / 256))

be_from-snoc :
    (acc : ℕ) (xs : Bytes) (y : ℕ) → be_from acc (xs ++ y ∷ []) ≡ be_from acc xs * 256 + y
unfolding be_from
be_from-snoc acc [] y = refl
be_from-snoc acc (x ∷ xs) y = be_from-snoc (acc * 256 + x) xs y

pub from_be-to_be : (n x : ℕ) → x < 256 ^ n → from_be (to_be n x) ≡ x
unfolding from_be to_be
from_be-to_be zero x h = omega arith
from_be-to_be (suc n) x h = omega (
  arith,
  be_from-snoc 0 (to_be n (x / 256)) (x % 256),
  from_be-to_be n (x / 256) (omega (arith, pow-suc 256 n)),
)

pub length-slice : (b : Bytes) (off n : ℕ) → length (slice b off n) ≡ min n (length b - off)
unfolding slice
length-slice b off n = omega (arith, length-take n (drop off b), length-drop off b)

-- A slice that lies behind a prefix is that part of the whole.
pub slice-append :
    (off n : ℕ) (xs ys zs : Bytes)
    → length xs ≡ off
    → length ys ≡ n
    → slice (xs ++ (ys ++ zs)) off n ≡ ys
unfolding slice
slice-append off n xs ys zs h k = rw (drop-append off xs (ys ++ zs) h) (take-append n ys zs k)
