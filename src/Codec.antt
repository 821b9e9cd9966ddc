-- ===== src/Codec.antt =====
-- The generated codec of a uniform block: what internal/kernelc/front/front.go takes from a layout,
-- the writes and reads that internal/kernelc/emit/emit.go emits for it, and the struct that
-- internal/kernelc/emit/msl.go declares for it. An emitted statement is its offset and the part of
-- the value that it names; the three writer methods put the same bits.
pub mod Slots
pub mod Parts
pub mod RoundTrip
pub mod Msl
mod Tests
use accel.Base.{
  ℕ, zero, suc, ◌+◌, ◌-◌, ◌*◌, ◌/◌, ◌%◌, Bool, true, false, not, ◌||◌, Option, none, some, List, [],
  ◌∷◌, ◌++◌, map, ◌==◌, ltb, if◌then◌else◌,
}
use accel.Base.Result.{Result, ok, err, ◌>>=◌, ◌>>◌, fail_if}
use accel.Std140.{
  Name, Scalar, Kind, k_scalar, k_vector, k_array, k_matrix, k_struct, Field, Layout, layout,
  Fields, none_placed, placed,
}
use accel.Uniform.{
  UniformWriter, UniformReader, new_uniform_writer, new_uniform_reader, write_fields, read_u32,
}

-- A kind is its constructor, not its spelling.
pub record UniformField : Type 0 where
  pub name : Name
  pub offset : ℕ
  pub kind : Kind
  pub scalar : Scalar
  pub len : ℕ
  pub rows : ℕ
  pub stride : ℕ

-- What the emitter takes of a member.
abbrev pub uniform_field : Field → UniformField
uniform_field f = record {
  name = f.name;
  offset = f.offset;
  kind = f.kind;
  scalar = f.scalar;
  len = f.len;
  rows = f.rows;
  stride = f.stride;
}

unfoldable pub uniform_fields : Fields → List UniformField
uniform_fields none_placed = []
uniform_fields (placed f e fs) = uniform_field f ∷ uniform_fields fs

-- `value.F`, `value.F[i]` and `value.F[i][j]`
pub data Slot : Type 0 where
  whole : Name → Slot
  item : Name → ℕ → Slot
  cell : Name → ℕ → ℕ → Slot

pub data CodecError : Type 0 where
  no_encoder no_decoder : CodecError

-- `for i := range n`, from `i`, at offsets that are `step` apart.
unfoldable pub run_of : (ℕ → Slot) → ℕ → ℕ → ℕ → ℕ → List (ℕ × Slot)
run_of slot base step i zero = []
run_of slot base step i (suc n) = (base + i * step, slot i) ∷ run_of slot base step (suc i) n

unfoldable pub columns_of : UniformField → ℕ → ℕ → List (ℕ × Slot)
columns_of f col zero = []
columns_of f col (suc n) =
    run_of (cell f.name col) (f.offset + col * f.stride) 4 0 f.rows ++ columns_of f (suc col) n

-- The loops of `decodeField`, which are written a second time there.
unfoldable pub read_run_of : (ℕ → Slot) → ℕ → ℕ → ℕ → ℕ → List (ℕ × Slot)
read_run_of slot base step i zero = []
read_run_of slot base step i (suc n) =
    (base + i * step, slot i) ∷ read_run_of slot base step (suc i) n

unfoldable pub read_columns_of : UniformField → ℕ → ℕ → List (ℕ × Slot)
read_columns_of f col zero = []
read_columns_of f col (suc n) =
    read_run_of (cell f.name col) (f.offset + col * f.stride) 4 0 f.rows
    ++ read_columns_of f (suc col) n

-- `codecField` of this kind.
unfoldable pub codec_kind : UniformField → Kind → Result CodecError (List (ℕ × Slot))
codec_kind f k_scalar = ok ((f.offset, whole f.name) ∷ [])
codec_kind f k_vector = ok (run_of (item f.name) f.offset 4 0 f.len)
codec_kind f k_array = ok (run_of (item f.name) f.offset f.stride 0 f.len)
codec_kind f k_matrix = ok (columns_of f 0 f.len)
codec_kind f k_struct = err no_encoder

-- `decodeField` of this kind.
unfoldable pub decode_kind : UniformField → Kind → Result CodecError (List (ℕ × Slot))
decode_kind f k_scalar = ok ((f.offset, whole f.name) ∷ [])
decode_kind f k_vector = ok (read_run_of (item f.name) f.offset 4 0 f.len)
decode_kind f k_array = ok (read_run_of (item f.name) f.offset f.stride 0 f.len)
decode_kind f k_matrix = ok (read_columns_of f 0 f.len)
decode_kind f k_struct = err no_decoder

-- The bodies of `Encode` and of `Decode`.
unfoldable pub codec_writes : List UniformField → Result CodecError (List (ℕ × Slot))
codec_writes [] = ok []
codec_writes (f ∷ fs) = do ws ← codec_kind f f.kind; rest ← codec_writes fs; ok (ws ++ rest)

unfoldable pub codec_reads : List UniformField → Result CodecError (List (ℕ × Slot))
codec_reads [] = ok []
codec_reads (f ∷ fs) = do rs ← decode_kind f f.kind; rest ← codec_reads fs; ok (rs ++ rest)

-- A value is the bits of its parts.
abbrev pub filled : (Slot → ℕ) → List (ℕ × Slot) → List (ℕ × ℕ)
filled value [] = []
filled value ((at, s) ∷ ws) = (at, value s) ∷ filled value ws

-- `Encode` with these writes.
unfoldable pub encode : List (ℕ × Slot) → (Slot → ℕ) → List ℕ → Option UniformWriter
encode ws value dst = write_fields (new_uniform_writer dst) (filled value ws)

-- What the reads assign, in order.
unfoldable pub read_slots :
    UniformReader → List (ℕ × Slot) → Option (List (Slot × ℕ) × UniformReader)
read_slots r [] = some ([], r)
read_slots r ((at, s) ∷ rs) = elim (read_u32 r at) [
  | none ↦ none
  | some (v, r') ↦ elim (read_slots r' rs) [
    | none ↦ none
    | some (got, last) ↦ some ((s, v) ∷ got, last)
  ]
]

-- `Decode` with these reads.
unfoldable pub decode : List (ℕ × Slot) → List ℕ → Option (List (Slot × ℕ) × UniformReader)
decode rs src = read_slots (new_uniform_reader src) rs
