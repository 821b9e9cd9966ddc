-- ===== src/Codec/Msl.antt =====
-- internal/kernelc/emit/msl.go: the struct that a Metal kernel declares for a uniform block, with its
-- padding. A declaration is its shape; a failure and a refusal end the generation, and are errors.
pub mod Offsets
use accel.Base.{
  ℕ, zero, suc, ◌+◌, ◌-◌, ◌*◌, ◌/◌, ◌%◌, Bool, true, false, not, ◌||◌, List, [], ◌∷◌, ◌++◌, ◌==◌,
  ltb, if◌then◌else◌,
}
use accel.Base.Result.{Result, ok, err, ◌>>=◌, ◌>>◌, fail_if}
use accel.Std140.{Name, Kind, k_scalar, k_vector, k_array, k_matrix, k_struct}
use accel.Codec.{UniformField}

-- `char _pad[n]`, `T f`, `T f[n]` and `T f[n][m]`
pub data Declaration : Type 0 where
  padding : ℕ → Declaration
  one : Name → Declaration
  row : Name → ℕ → Declaration
  table : Name → ℕ → ℕ → Declaration

pub data MslError : Type 0 where
  bad_vector bad_stride refused behind : MslError

-- The declaration of an array or a matrix.
unfoldable pub strided : UniformField → Result MslError (Declaration × ℕ)
strided f =
    if not (f.stride % 4 == 0) || f.stride == 0 || f.len == 0
    then err bad_stride
    else ok (table f.name f.len (f.stride / 4), f.len * f.stride)

-- `uniformField` of this kind: the declaration and its bytes.
unfoldable pub declare : UniformField → Kind → Result MslError (Declaration × ℕ)
declare f k_scalar = ok (one f.name, 4)
declare f k_vector =
    if ltb f.len 2 || ltb 4 f.len then err bad_vector else ok (row f.name f.len, f.len * 4)
declare f k_matrix = strided f
declare f k_array = strided f
declare f k_struct = err refused

-- `if pad > 0`
unfoldable pub pad_to : ℕ → ℕ → List Declaration
pad_to at next = if ltb 0 (next - at) then padding (next - at) ∷ [] else []

-- The loop of `uniformStruct` from an offset, and its tail.
unfoldable pub declare_from : ℕ → ℕ → List UniformField → Result MslError (List Declaration)
declare_from size at [] = ok (pad_to at size)
declare_from size at (f ∷ fs) = do
  (decl, bytes) ← declare f f.kind
  fail_if (ltb f.offset at) behind
  rest ← declare_from size (f.offset + bytes) fs
  ok (pad_to at f.offset ++ decl ∷ rest)

unfoldable pub uniform_struct : List UniformField → ℕ → Result MslError (List Declaration)
uniform_struct fs size = declare_from size 0 fs
