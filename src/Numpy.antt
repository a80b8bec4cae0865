-- ===== src/Numpy.antt =====
-- What the program uses of numpy, which is not part of the repository: `np.dtype` of a string, and
-- the conversion of a window's bytes. Definitions over arrays take such a record as a parameter.
use Prim.Native.String.{String}
use sceptre_pipeline.Prelude.{ℕ, Option}
use sceptre_pipeline.Prelude.Bytes.{Bytes}

-- `dt.kind`, as the code point of its letter, and `dt.itemsize`
pub record Dtype : Type 0 where
  pub kind : ℕ
  pub itemsize : ℕ

pub record Numpy (Arr : Type 0) : Type 0 where
  -- `np.dtype(name)`; `none` where it raises `TypeError`
  pub dtype : String → Option Dtype
  -- `np.frombuffer(raw, dtype=name).astype(np.float32)`
  pub to_float32 : Option String → Bytes → Arr
  -- `arr.view(np.complex64)`
  pub view_complex64 : Arr → Arr
