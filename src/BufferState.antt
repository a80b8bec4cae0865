-- ===== src/BufferState.antt =====
-- The state of an `IngestBuffer` of src/sceptre_pipeline/buffer.py, what it emits, and the tests
-- that its methods make.
use Prim.Native.String.{String}
use text.Mathlib.Text.{◌==◌ as str_eq}
use sceptre_pipeline.Prelude.{
  ℕ, ◌*◌, ◌%◌, Bool, true, false, ◌&&◌, ◌||◌, Option, none, some, List, [], ◌∷◌, ◌++◌, length, ◌==◌,
  if◌then◌else◌,
}
use sceptre_pipeline.Prelude.Bytes.{Bytes}
use sceptre_pipeline.Numpy.{Dtype, Numpy}
use sceptre_pipeline.Context.{Context}
use sceptre_pipeline.Dict.{StreamId}
use sceptre_pipeline.Log.{RateLimitedLog}

-- A key of the context dict, for `flush_fields`; a string that is no key reads as `None`.
pub data Field : Type 0 where
  rf_hz sample_rate_hz component_dtype is_complex bandwidth_hz gain_db supported : Field
  bytes_per_sample data_item_format context_field_change : Field
  unknown : String → Field

abbrev pub default_flush_fields : List Field
default_flush_fields = rf_hz ∷ sample_rate_hz ∷ component_dtype ∷ is_complex ∷ []

-- What `ctx.get(key)` returns.
pub data Value (F : Type 0) : Type 0 where
  absent : Value F
  number : F → Value F
  str : String → Value F
  flag : Bool → Value F
  integer : ℕ → Value F

pub record IngestBuffer (F : Type 0) : Type 0 where
  pub max_samples : ℕ
  pub max_age_s : F
  pub stream_id : StreamId
  pub flush_fields : List Field
  pub chunks : List Bytes
  pub num_samples : ℕ
  pub component_dtype : Option String
  pub bytes_per_sample : Option ℕ
  pub is_complex : Option Bool
  pub start_timestamp : Option F
  pub first_arrival : Option F
  pub current_context : Option (Context F)
  pub inert : Bool
  pub dropped : ℕ
  pub log : RateLimitedLog

-- What one `flush` hands over, with the samples still as the joined bytes.
pub record Window (F : Type 0) : Type 0 where
  pub raw : Bytes
  pub context : Option (Context F)
  pub start_timestamp : Option F
  pub num_samples : ℕ
  pub stream_id : StreamId
  pub component_dtype : Option String
  pub is_complex : Option Bool
  pub bytes_per_sample : Option ℕ

-- The emitted dict. Its nested `"metadata"` repeats the last four fields.
pub record Emitted (F Arr : Type 0) : Type 0 where
  pub samples : Arr
  pub window : Window F

abbrev pub is_true : Option Bool → Bool
is_true (some true) = true
is_true _ = false

-- `b"".join(chunks)`
abbrev pub join : List Bytes → Bytes
join [] = []
join (x ∷ xs) = x ++ join xs

-- the conversion in `flush`
unfoldable pub unit_of : {F Arr : Type 0} → Numpy Arr → Window F → Emitted F Arr
unit_of np w =
    let arr = np.to_float32 w.component_dtype w.raw in
    record { samples = if is_true w.is_complex then np.view_complex64 arr else arr; window = w }

-- the truth of a list
abbrev pub has_chunks : List Bytes → Bool
has_chunks [] = false
has_chunks (x ∷ xs) = true

abbrev pub opt : {A F : Type 0} → (A → Value F) → Option A → Value F
opt f none = absent
opt f (some a) = f a

abbrev pub is_none {ℓ} : {A : Type ℓ} → Option A → Bool
is_none none = true
is_none (some a) = false

abbrev pub same_text : Option String → String → Bool
same_text none s = false
same_text (some t) s = str_eq t s

abbrev pub same_flag : Option Bool → Bool → Bool
same_flag (some true) true = true
same_flag (some false) false = true
same_flag _ _ = false

abbrev pub same_number : Option ℕ → ℕ → Bool
same_number none n = false
same_number (some m) n = m == n

-- the test in `_latch`
abbrev pub converts : Option Dtype → Bool → ℕ → Bool
converts none c bps = false
converts (some dt) c bps =
    (dt.kind == b'i' || dt.kind == b'u' || dt.kind == b'f')
    && dt.itemsize * (if c then 2 else 1) == bps

abbrev pub usable : Option String → Option ℕ → Bytes → Option (String × ℕ)
usable (some dtype) (some bps) body =
    if bps == 0 then none else if length body % bps == 0 then some (dtype, bps) else none
usable _ _ body = none
