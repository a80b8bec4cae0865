-- ===== src/Header/Encoder.antt =====
-- A sender of the header layout that `parse_header` of src/sceptre_pipeline/interpreter.py reads.
use sceptre_pipeline.Prelude.{
  ℕ, ◌+◌, ◌*◌, ◌^◌, ◌<◌, ◌≡◌, Bool, true, false, Option, none, some, ◌++◌, length, [],
}
use sceptre_pipeline.Prelude.Bytes.{Bytes, to_be}
use sceptre_pipeline.Formats.{carries_stream_id, truthy, header_length}
use sceptre_pipeline.Header.{Header}

abbrev pub is_some {ℓ} : {A : Type ℓ} → Option A → Bool
is_some none = false
is_some (some a) = true

abbrev pub bit : Bool → ℕ
bit true = 1
bit false = 0

-- an optional field as bytes
abbrev pub bytes_of : Option Bytes → Bytes
bytes_of none = []
bytes_of (some b) = b

abbrev pub be_option : ℕ → Option ℕ → Option Bytes
be_option n none = none
be_option n (some x) = some (to_be n x)

-- word0 of a header, with the bits that the parser does not read at zero
unfoldable pub word0_of : Header → ℕ
word0_of h =
    h.packet_type * 2 ^ 28
    + bit (is_some h.class_id) * 2 ^ 27
    + bit h.has_trailer * 2 ^ 26
    + h.tsi * 2 ^ 22
    + h.tsf * 2 ^ 20
    + h.packet_counter * 2 ^ 16
    + h.packet_size

-- The wire layout: word0, stream id, class id, integer and fractional timestamp.
unfoldable pub encode_header : Header → Bytes
encode_header h =
    to_be 4 (word0_of h)
    ++ (bytes_of (be_option 4 h.stream_id)
        ++ (bytes_of h.class_id
            ++ (bytes_of (be_option 4 h.int_ts) ++ bytes_of (be_option 8 h.frac_ps))))

abbrev pub Below : ℕ → Option ℕ → Type 0
Below n none = Unit
Below n (some x) = x < n

abbrev pub HasSize : ℕ → Option Bytes → Type 0
HasSize n none = Unit
HasSize n (some b) = length b ≡ n

-- The headers that can be sent: each field fits its bits, and is there just if its flag says so.
pub record IsWire (h : Header) : Type 0 where
  pub packet_type : h.packet_type < 16
  pub tsi : h.tsi < 4
  pub tsf : h.tsf < 4
  pub packet_counter : h.packet_counter < 16
  pub packet_size : h.packet_size < 2 ^ 16
  pub stream_id : Below (256 ^ 4) h.stream_id
  pub class_id : HasSize 8 h.class_id
  pub int_ts : Below (256 ^ 4) h.int_ts
  pub frac_ps : Below (256 ^ 8) h.frac_ps
  pub has_stream_id : is_some h.stream_id ≡ carries_stream_id h.packet_type
  pub has_int_ts : is_some h.int_ts ≡ truthy h.tsi
  pub has_frac_ps : is_some h.frac_ps ≡ truthy h.tsf
  pub header_len :
      h.header_len
      ≡ header_length (carries_stream_id h.packet_type) (is_some h.class_id) h.tsi h.tsf
