-- ===== src/Header/Word0.antt =====
-- The fields of word0 as a sender packs them, for `parse_header` of
-- src/sceptre_pipeline/interpreter.py.
use sceptre_pipeline.Prelude.{
  ℕ, ◌/◌, ◌%◌, ◌^◌, ◌≤◌, ◌<◌, ◌≡◌, refl, sym, Bool, true, false, Option, none, some, ◌++◌, length,
  arith, length-append, append-nil, if◌then◌else◌,
}
use sceptre_pipeline.Prelude.Bytes.{Bytes, length-to_be, from_be-to_be, slice-append}
use sceptre_pipeline.Formats.{truthy}
use sceptre_pipeline.Header.{Header, take_field, number, expected_len}
use sceptre_pipeline.Header.Encoder.{
  is_some, bit, bytes_of, be_option, word0_of, Below, HasSize, IsWire,
}

-- One field read at the end of what was read before it.
pub take_field-append :
    (o : Option Bytes) (n : ℕ) (b pre post : Bytes) (off : ℕ)
    → b ≡ pre ++ (bytes_of o ++ post)
    → length pre ≡ off
    → HasSize n o
    → take_field (is_some o) n b off ≡ (o, length (pre ++ bytes_of o))
unfolding take_field
take_field-append none n b pre post off e h k = rw (append-nil, h)
take_field-append (some x) n b pre post off e h k =
    rw (e, slice-append off n pre x post h k, length-append, h, k)

truthy-bit : (b : Bool) → truthy (bit b) ≡ b
truthy-bit true = refl
truthy-bit false = refl

bit-le : (b : Bool) → bit b ≤ 1
bit-le true = omega arith
bit-le false = omega arith

pub is_some-be_option : (n : ℕ) (o : Option ℕ) → is_some (be_option n o) ≡ is_some o
is_some-be_option n none = refl
is_some-be_option n (some x) = refl

pub number-be_option : (n : ℕ) (o : Option ℕ) → Below (256 ^ n) o → number (be_option n o) ≡ o
number-be_option n none k = refl
number-be_option n (some x) k = rw (from_be-to_be n x k)

pub HasSize-be_option : (n : ℕ) (o : Option ℕ) → HasSize n (be_option n o)
HasSize-be_option n none = tt
HasSize-be_option n (some x) = length-to_be n x

-- An optional part is as long as its flag says.
pub length-part :
    (n : ℕ) (o : Option Bytes) → HasSize n o → length (bytes_of o) ≡ (if is_some o then n else 0)
length-part n none k = refl
length-part n (some x) k = k

pub length-be_part :
    (n : ℕ) (o : Option ℕ) → length (bytes_of (be_option n o)) ≡ (if is_some o then n else 0)
length-be_part n none = refl
length-be_part n (some x) = length-to_be n x

module _ (h : Header) (v : IsWire h) where
  pub word0_lt : word0_of h < 256 ^ 4
  unfolding word0_of
  word0_lt = omega (arith, bit-le (is_some h.class_id), bit-le h.has_trailer, v)

  pub packet_type-word0 : word0_of h / 2 ^ 28 % 16 ≡ h.packet_type
  unfolding word0_of
  packet_type-word0 = omega (arith, bit-le (is_some h.class_id), bit-le h.has_trailer, v)

  class_bit-word0 : word0_of h / 2 ^ 27 % 2 ≡ bit (is_some h.class_id)
  unfolding word0_of
  class_bit-word0 = omega (arith, bit-le (is_some h.class_id), bit-le h.has_trailer, v)

  trailer_bit-word0 : word0_of h / 2 ^ 26 % 2 ≡ bit h.has_trailer
  unfolding word0_of
  trailer_bit-word0 = omega (arith, bit-le (is_some h.class_id), bit-le h.has_trailer, v)

  pub class_id-word0 : truthy (word0_of h / 2 ^ 27 % 2) ≡ is_some h.class_id
  class_id-word0 = rw class_bit-word0 (truthy-bit (is_some h.class_id))

  pub trailer-word0 : truthy (word0_of h / 2 ^ 26 % 2) ≡ h.has_trailer
  trailer-word0 = rw trailer_bit-word0 (truthy-bit h.has_trailer)

  pub tsi-word0 : word0_of h / 2 ^ 22 % 4 ≡ h.tsi
  unfolding word0_of
  tsi-word0 = omega (arith, bit-le (is_some h.class_id), bit-le h.has_trailer, v)

  pub tsf-word0 : word0_of h / 2 ^ 20 % 4 ≡ h.tsf
  unfolding word0_of
  tsf-word0 = omega (arith, bit-le (is_some h.class_id), bit-le h.has_trailer, v)

  pub counter-word0 : word0_of h / 2 ^ 16 % 16 ≡ h.packet_counter
  unfolding word0_of
  counter-word0 = omega (arith, bit-le (is_some h.class_id), bit-le h.has_trailer, v)

  pub size-word0 : word0_of h % 2 ^ 16 ≡ h.packet_size
  unfolding word0_of
  size-word0 = omega (arith, bit-le (is_some h.class_id), bit-le h.has_trailer, v)

  pub expected_len-word0 : expected_len (word0_of h) ≡ h.header_len
  unfolding expected_len
  expected_len-word0 =
      rw (packet_type-word0, class_id-word0, tsi-word0, tsf-word0) (sym v.header_len)
