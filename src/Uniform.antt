-- ===== src/Uniform.antt =====
-- uniform.go: the writer and the reader of a uniform block. A byte is a number below 256, a 32-bit
-- value is its bits, also a float's and a signed integer's, and an offset is Go's `int` as a 64-bit
-- pattern. A result is `none` where the code panics, which a slice out of bounds does.
pub mod Bytes
pub mod Fields
mod Tests
use accel.Base.{
  ℕ, ◌+◌, ◌*◌, ◌/◌, ◌%◌, ◌^◌, Bool, true, false, not, ◌||◌, Option, none, some, List, [], ◌∷◌, leb,
  if◌then◌else◌, length, set, get_or,
}
use accel.Base.Int64.{add64, slt}

-- `failed` is whether `err` is set.
pub record UniformWriter : Type 0 where
  pub dst : List ℕ
  pub failed : Bool

pub record UniformReader : Type 0 where
  pub src : List ℕ
  pub failed : Bool

unfoldable pub new_uniform_writer : List ℕ → UniformWriter
new_uniform_writer dst = record { dst = dst; failed = false }

unfoldable pub new_uniform_reader : List ℕ → UniformReader
new_uniform_reader src = record { src = src; failed = false }

-- `offset < 0 || offset+n > size`
unfoldable pub out_of_block : ℕ → ℕ → ℕ → Bool
out_of_block offset n size = slt offset 0 || slt size (add64 offset n)

unfoldable pub writer_room : UniformWriter → ℕ → ℕ → Bool × UniformWriter
writer_room w offset n =
    if w.failed
    then (false, w)
    else if out_of_block offset n (length w.dst)
    then (false, record w { failed = true })
    else (true, w)

unfoldable pub reader_room : UniformReader → ℕ → ℕ → Bool × UniformReader
reader_room r offset n =
    if r.failed
    then (false, r)
    else if out_of_block offset n (length r.src)
    then (false, record r { failed = true })
    else (true, r)

-- `binary.LittleEndian.PutUint32(b[offset:], v)` and `Uint32(b[offset:])`, in bounds.
unfoldable pub put_uint32 : List ℕ → ℕ → ℕ → List ℕ
put_uint32 b offset v =
    set
      (set (set (set b offset (v % 256)) (offset + 1) (v / 2 ^ 8 % 256)) (offset + 2)
        (v / 2 ^ 16 % 256))
      (offset + 3) (v / 2 ^ 24 % 256)

unfoldable pub uint32_at : List ℕ → ℕ → ℕ
uint32_at b offset =
    get_or b offset 0
    + get_or b (offset + 1) 0 * 2 ^ 8
    + get_or b (offset + 2) 0 * 2 ^ 16
    + get_or b (offset + 3) 0 * 2 ^ 24

-- `U32`, and with the value's bits `I32` and `F32`.
unfoldable pub write_u32 : UniformWriter → ℕ → ℕ → Option UniformWriter
write_u32 w offset v =
    let (fits, w') = writer_room w offset 4 in
    if not fits
    then some w'
    else if leb (offset + 4) (length w'.dst)
    then some (record w' { dst = put_uint32 w'.dst offset v })
    else none

unfoldable pub read_u32 : UniformReader → ℕ → Option (ℕ × UniformReader)
read_u32 r offset =
    let (fits, r') = reader_room r offset 4 in
    if not fits
    then some (0, r')
    else if leb (offset + 4) (length r'.src)
    then some (uint32_at r'.src offset, r')
    else none

-- What a generated encoder does: one write for each field of the layout.
unfoldable pub write_fields : UniformWriter → List (ℕ × ℕ) → Option UniformWriter
write_fields w [] = some w
write_fields w ((offset, v) ∷ rest) = elim (write_u32 w offset v) [
  | none ↦ none
  | some w' ↦ write_fields w' rest
]
