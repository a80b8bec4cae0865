-- ===== src/Payload/Supported.antt =====
-- The payload-format words that src/sceptre_pipeline/interpreter.py takes as supported.
use Prim.Native.String.{String}
use sceptre_pipeline.Prelude.{
  ℕ, ◌+◌, ◌-◌, ◌*◌, ◌/◌, ◌%◌, ◌^◌, ◌<◌, ◌≡◌, refl, ◌↔◌, ◌⊎◌, inl, inr, Bool, true, false, ◌&&◌,
  ◌||◌, ==_iff, Option, none, some, arith, ◌==◌, if◌then◌else◌,
}
use sceptre_pipeline.Formats.{item_format_dtype}
use sceptre_pipeline.Payload.{is_some, decode_payload_format}

-- The supported items, with their wire code, their bits and their numpy dtype.
pub data Item : Type 0 where
  int8 int16 int32 uint8 uint16 uint32 float32 float64 : Item

abbrev pub item_code : Item → ℕ
item_code int8 = 0
item_code int16 = 0
item_code int32 = 0
item_code uint8 = 16
item_code uint16 = 16
item_code uint32 = 16
item_code float32 = 14
item_code float64 = 15

abbrev pub item_bytes : Item → ℕ
item_bytes int8 = 1
item_bytes int16 = 2
item_bytes int32 = 4
item_bytes uint8 = 1
item_bytes uint16 = 2
item_bytes uint32 = 4
item_bytes float32 = 4
item_bytes float64 = 8

abbrev pub item_dtype : Item → String
item_dtype int8 = ">i1"
item_dtype int16 = ">i2"
item_dtype int32 = ">i4"
item_dtype uint8 = ">u1"
item_dtype uint16 = ">u2"
item_dtype uint32 = ">u4"
item_dtype float32 = ">f4"
item_dtype float64 = ">f8"

-- The word of an unpacked, untagged, unrepeated layout of one item, or of two if complex.
unfoldable pub format_word : Bool → Item → ℕ
format_word is_complex i =
    (if is_complex then 1 else 0) * 2 ^ 61
    + item_code i * 2 ^ 56
    + (item_bytes i * 8 - 1) * 2 ^ 38
    + (item_bytes i * 8 - 1) * 2 ^ 32

item_of : ℕ → ℕ → Item
item_of fmt bits =
    if fmt == 0
    then (if bits == 8 then int8 else if bits == 16 then int16 else int32)
    else if fmt == 16
    then (if bits == 8 then uint8 else if bits == 16 then uint16 else uint32)
    else if fmt == 14
    then float32
    else float64

-- Every row of the table is one of the items.
item_of_lem :
    (fmt bits : ℕ) (s : String)
    → item_format_dtype fmt bits ≡ some s
    → (item_code (item_of fmt bits) ≡ fmt)
      × (item_bytes (item_of fmt bits) * 8 ≡ bits)
      × (item_dtype (item_of fmt bits) ≡ s)
unfolding item_format_dtype item_of
item_of_lem fmt bits s h = ground arith

pub supported-format_word :
    (c : Bool) (i : Item) → (decode_payload_format (format_word c i)).supported ≡ true
unfolding decode_payload_format format_word item_format_dtype
supported-format_word true int8 = refl
supported-format_word true int16 = refl
supported-format_word true _ = refl
supported-format_word false int8 = refl
supported-format_word false _ = refl

ten_tests :
    (a b c d e f g h i j : Bool)
    → (a && b && c && d && e && f && g && h && i && j) ≡ true
    → (a ≡ true)
      × (b ≡ true)
      × (c ≡ true)
      × (d ≡ true)
      × (e ≡ true)
      × (f ≡ true)
      × (g ≡ true)
      × (h ≡ true)
      × (i ≡ true)
      × (j ≡ true)
ten_tests a b c d e f g h i j t = ground arith

some_of : (o : Option String) → is_some o ≡ true → (s : String) × (o ≡ some s)
some_of none h = cc
some_of (some s) h = (s, refl)

real_or_complex : (n : ℕ) → (n == 0 || n == 1) ≡ true → (n ≡ 0) ⊎ (n ≡ 1)
real_or_complex n h = ground arith

eq_of : (a b : ℕ) → (a == b) ≡ true → a ≡ b
eq_of a b h = (==_iff a b).0 h

-- What the test of `decode_payload_format` says of the word's fields.
supported_inv :
    (u : ℕ)
    → (decode_payload_format u).supported ≡ true
    → (u / 2 ^ 63 % 2 ≡ 0)
      × ((u / 2 ^ 61 % 4 ≡ 0) ⊎ (u / 2 ^ 61 % 4 ≡ 1))
      × ((s : String) × (item_format_dtype (u / 2 ^ 56 % 32) (u / 2 ^ 32 % 64 + 1) ≡ some s))
      × (u / 2 ^ 38 % 64 ≡ u / 2 ^ 32 % 64)
      × (u / 2 ^ 44 % 2 ^ 12 ≡ 0)
      × (u % 2 ^ 32 ≡ 0)
unfolding decode_payload_format
supported_inv u h =
    let (packing, rc, dtype, bits, event, channel, rep, fraction, count, vector) =
      ten_tests _ _ _ _ _ _ _ _ _ _ h in
    let e1 = eq_of _ _ packing in
    let e2 = eq_of _ _ bits in
    let e3 = eq_of _ _ event in
    let e4 = eq_of _ _ channel in
    let e5 = eq_of _ _ rep in
    let e6 = eq_of _ _ fraction in
    let e7 = eq_of _ _ count in
    let e8 = eq_of _ _ vector in
    (e1, real_or_complex _ rc, some_of _ dtype, omega arith, omega arith, omega arith)

format_word_of_supported :
    (u : ℕ)
    → u < 2 ^ 64
    → (decode_payload_format u).supported ≡ true
    → (c : Bool) × (i : Item) × (u ≡ format_word c i)
unfolding format_word
format_word_of_supported u w h =
    let (p, rc, (s, t), bits, tags, low) = supported_inv u h in
    let (code, size, _) = item_of_lem _ _ s t in
    elim rc [
      | inl r ↦ (false, item_of (u / 2 ^ 56 % 32) (u / 2 ^ 32 % 64 + 1), omega arith)
      | inr r ↦ (true, item_of (u / 2 ^ 56 % 32) (u / 2 ^ 32 % 64 + 1), omega arith)
    ]

-- A 64-bit payload-format word is classified as supported just if it is the word of one of the
-- eight item formats, real or complex cartesian, unpacked, untagged and unrepeated.
pub supported_iff :
    (u : ℕ)
    → u < 2 ^ 64
    → ((decode_payload_format u).supported ≡ true)
      ↔ ((c : Bool) × (i : Item) × (u ≡ format_word c i))
supported_iff u w = (format_word_of_supported u w, λ (c, i, e). rw e (supported-format_word c i))
