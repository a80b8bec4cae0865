-- ===== src/Formats.antt =====
-- src/sceptre_pipeline/formats.py: the wire-format constants of the VITA-49.2 subset, the length of
-- a header, the sizes of the CIF0 fields and the supported item formats.
use Prim.Native.String.{String}
use sceptre_pipeline.Prelude.{
  ℕ, ◌+◌, ◌^◌, Bool, true, false, ◌||◌, Option, none, some, List, [], ◌∷◌, ◌==◌, if◌then◌else◌,
}

abbrev pub packet_type_if_data : ℕ
packet_type_if_data = 1

abbrev pub packet_type_if_context : ℕ
packet_type_if_context = 4

-- `word0 >> shift` divides by a power of two.
abbrev pub w0_packet_type : ℕ
w0_packet_type = 2 ^ 28

abbrev pub w0_class_id : ℕ
w0_class_id = 2 ^ 27

abbrev pub w0_trailer : ℕ
w0_trailer = 2 ^ 26

abbrev pub w0_tsi : ℕ
w0_tsi = 2 ^ 22

abbrev pub w0_tsf : ℕ
w0_tsf = 2 ^ 20

abbrev pub w0_counter : ℕ
w0_counter = 2 ^ 16

-- `word0 & 0xFFFF` is the rest of the division by this.
abbrev pub w0_packet_size : ℕ
w0_packet_size = 2 ^ 16

-- membership in `PACKET_TYPES_WITH_STREAM_ID`
abbrev pub carries_stream_id : ℕ → Bool
carries_stream_id t = t == 1 || t == 3 || t == 4 || t == 5

abbrev pub word0_size : ℕ
word0_size = 4

abbrev pub stream_id_size : ℕ
stream_id_size = 4

abbrev pub class_id_size : ℕ
class_id_size = 8

abbrev pub int_ts_size : ℕ
int_ts_size = 4

abbrev pub frac_ts_size : ℕ
frac_ts_size = 8

abbrev pub trailer_size : ℕ
trailer_size = 4

-- Python's truth of a number
abbrev pub truthy : ℕ → Bool
truthy n = if n == 0 then false else true

abbrev pub header_length : Bool → Bool → ℕ → ℕ → ℕ
header_length has_stream_id has_class_id tsi tsf =
    word0_size
    + (if has_stream_id then stream_id_size else 0)
    + (if has_class_id then class_id_size else 0)
    + (if truthy tsi then int_ts_size else 0)
    + (if truthy tsf then frac_ts_size else 0)

abbrev pub context_field_change_bit : ℕ
context_field_change_bit = 31

abbrev pub cif_bandwidth : ℕ
cif_bandwidth = 29

abbrev pub cif_rf_ref_freq : ℕ
cif_rf_ref_freq = 27

abbrev pub cif_gain : ℕ
cif_gain = 23

abbrev pub cif_sample_rate : ℕ
cif_sample_rate = 21

abbrev pub cif_data_payload_format : ℕ
cif_data_payload_format = 15

abbrev pub field_sizes : List (ℕ × ℕ)
field_sizes =
    (30, 4)
    ∷ (29, 8)
    ∷ (28, 8)
    ∷ (27, 8)
    ∷ (26, 8)
    ∷ (25, 8)
    ∷ (24, 4)
    ∷ (23, 4)
    ∷ (22, 4)
    ∷ (21, 8)
    ∷ (20, 8)
    ∷ (19, 4)
    ∷ (18, 4)
    ∷ (17, 8)
    ∷ (16, 4)
    ∷ (15, 8)
    ∷ (14, 44)
    ∷ (13, 44)
    ∷ (12, 52)
    ∷ (11, 52)
    ∷ (10, 4)
    ∷ []

abbrev find_size : ℕ → List (ℕ × ℕ) → Option ℕ
find_size bit [] = none
find_size bit ((b, n) ∷ rest) = if b == bit then some n else find_size bit rest

-- `FIELD_SIZE.get(bit)`
unfoldable pub field_size : ℕ → Option ℕ
field_size bit = find_size bit field_sizes

-- `ITEM_FORMAT_DTYPES`: item format, item bits, numpy component dtype
abbrev pub item_format_dtypes : List (ℕ × ℕ × String)
item_format_dtypes =
    (0b00000, 8, ">i1")
    ∷ (0b00000, 16, ">i2")
    ∷ (0b00000, 32, ">i4")
    ∷ (0b10000, 8, ">u1")
    ∷ (0b10000, 16, ">u2")
    ∷ (0b10000, 32, ">u4")
    ∷ (0b01110, 32, ">f4")
    ∷ (0b01111, 64, ">f8")
    ∷ []

abbrev find_dtype : ℕ → ℕ → List (ℕ × ℕ × String) → Option String
find_dtype fmt bits [] = none
find_dtype fmt bits ((f, n, s) ∷ rest) =
    if f == fmt
    then (if n == bits then some s else find_dtype fmt bits rest)
    else find_dtype fmt bits rest

-- `ITEM_FORMAT_DTYPES.get((fmt, bits))`
unfoldable pub item_format_dtype : ℕ → ℕ → Option String
item_format_dtype fmt bits = find_dtype fmt bits item_format_dtypes

abbrev pub rc_type_real : ℕ
rc_type_real = 0

abbrev pub rc_type_complex_cartesian : ℕ
rc_type_complex_cartesian = 1

abbrev pub radix_freq_hz : ℕ
radix_freq_hz = 2 ^ 20

abbrev pub radix_gain_db : ℕ
radix_gain_db = 128
