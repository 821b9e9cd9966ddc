-- ===== src/Std140.antt =====
-- internal/kernelc/std140/std140.go: the layout of a uniform block. A type stands for its underlying
-- type, which is what the code looks at; a name is its bytes; sizes and offsets are natural numbers.
pub mod Members
pub mod Placed
use accel.Base.{
  ℕ, zero, suc, ◌+◌, ◌-◌, ◌*◌, ◌/◌, Bool, true, false, not, ◌||◌, Option, none, some, List, ◌==◌,
  leb, ltb, if◌then◌else◌,
}
use accel.Base.Result.{Result, ok, err, ◌>>=◌, ◌>>◌, fail_if}

abbrev pub Name : Type 0
Name = List ℕ

-- The basic types of Go, and all else that has no layout: what refers to memory, and the rest.
pub data Basic : Type 0 where
  go_bool go_int go_int8 go_int16 go_int32 go_int64 go_uint go_uint8 go_uint16 go_uint32 : Basic
  go_uint64 go_uintptr go_float32 go_float64 go_complex64 go_complex128 go_string go_unsafe : Basic

-- A field's variable, as the type checker reports it.
pub record GoVar : Type 0 where
  pub name : Name
  pub exported : Bool
  pub anonymous : Bool

mutual
  pub data GoType : Type 0 where
    basic : Basic → GoType
    array : ℕ → GoType → GoType
    struct : GoFields → GoType
    reference other : GoType

  pub data GoFields : Type 0 where
    no_fields : GoFields
    field : GoVar → GoType → GoFields → GoFields

pub data Scalar : Type 0 where
  s_invalid s_f32 s_i32 s_u32 : Scalar

pub data Kind : Type 0 where
  k_scalar k_vector k_array k_matrix k_struct : Kind

-- A `Field` without its `Elem`, which stands beside it.
pub record Field : Type 0 where
  pub name : Name
  pub offset : ℕ
  pub size : ℕ
  pub align : ℕ
  pub kind : Kind
  pub len : ℕ
  pub rows : ℕ
  pub stride : ℕ
  pub scalar : Scalar

-- The alignment of a block is 16 always.
mutual
  pub data Layout : Type 0 where
    layout : Name → Fields → ℕ → Layout

  pub data Elem : Type 0 where
    no_elem : Elem
    elem : Layout → Elem

  pub data Fields : Type 0 where
    none_placed : Fields
    placed : Field → Elem → Fields → Fields

-- Why a type has no place in a block: `forbidden`.
pub data Reason : Type 0 where
  no_representation no_shape two_layouts platform_width no_f64 no_memory_model : Reason
  not_four_bytes no_complex not_held : Reason

pub data LayoutError : Type 0 where
  not_a_struct too_deep unexported embedded no_length matrix_of_arrays too_many_rows : LayoutError
  array_of_structs : LayoutError
  forbidden_type forbidden_elem : Reason → LayoutError

abbrev pub max_nesting : ℕ
max_nesting = 8

-- `scalarOf`
unfoldable pub scalar_of : GoType → Option Scalar
scalar_of (basic go_float32) = some s_f32
scalar_of (basic go_int32) = some s_i32
scalar_of (basic go_uint32) = some s_u32
scalar_of t = none

unfoldable pub forbidden : GoType → Reason
forbidden (basic go_bool) = two_layouts
forbidden (basic go_int) = platform_width
forbidden (basic go_uint) = platform_width
forbidden (basic go_uintptr) = platform_width
forbidden (basic go_float64) = no_f64
forbidden (basic go_string) = no_memory_model
forbidden (basic go_int8) = not_four_bytes
forbidden (basic go_int16) = not_four_bytes
forbidden (basic go_int64) = not_four_bytes
forbidden (basic go_uint8) = not_four_bytes
forbidden (basic go_uint16) = not_four_bytes
forbidden (basic go_uint64) = not_four_bytes
forbidden (basic go_complex64) = no_complex
forbidden (basic go_complex128) = no_complex
forbidden (basic b) = not_held
forbidden reference = no_representation
forbidden t = no_shape

-- `align`, whose name the fields have too.
unfoldable pub align_to : ℕ → ℕ → ℕ
align_to offset to = if leb to 0 then offset else (offset + to - 1) / to * to

-- A member at offset 0, with what its kind does not use zero.
unfoldable pub member : Name → Kind → ℕ → ℕ → Field
member name kind align size = record {
  name = name;
  offset = 0;
  size = size;
  align = align;
  kind = kind;
  len = 0;
  rows = 0;
  stride = 0;
  scalar = s_invalid;
}

-- A short array of scalars.
unfoldable pub layout_vector : Name → Scalar → ℕ → Field
layout_vector name s (suc zero) = record (member name k_array 16 16) {
  scalar = s;
  len = 1;
  stride = 16;
}
layout_vector name s (suc (suc zero)) = record (member name k_vector 8 8) { scalar = s; len = 2 }
layout_vector name s (suc (suc (suc zero))) = record (member name k_vector 16 12) {
  scalar = s;
  len = 3;
}
layout_vector name s n = record (member name k_vector 16 16) { scalar = s; len = 4 }

-- An array of `n` arrays of `rows` elements.
unfoldable pub layout_matrix : Name → ℕ → ℕ → Option Scalar → Result LayoutError Field
layout_matrix name n rows none = err matrix_of_arrays
layout_matrix name n rows (some s) =
    if ltb rows 1 || ltb 4 rows
    then err too_many_rows
    else ok (record (member name k_matrix 16 (16 * n)) {
      scalar = s;
      len = n;
      rows = rows;
      stride = 16;
    })

-- An array of what is no scalar.
unfoldable pub layout_nested : Name → ℕ → GoType → Result LayoutError Field
layout_nested name n (array rows t) = layout_matrix name n rows (scalar_of t)
layout_nested name n (struct fs) = err array_of_structs
layout_nested name n t = err (forbidden_elem (forbidden t))

-- An array whose elements have this scalar kind.
unfoldable pub layout_elements : Name → ℕ → GoType → Option Scalar → Result LayoutError Field
layout_elements name n t none = layout_nested name n t
layout_elements name n t (some s) =
    if leb n 4
    then ok (layout_vector name s n)
    else ok (record (member name k_array 16 (16 * n)) { scalar = s; len = n; stride = 16 })

unfoldable pub layout_array : Name → ℕ → GoType → Result LayoutError Field
layout_array name n t = if n == 0 then err no_length else layout_elements name n t (scalar_of t)

-- A struct's layout of its members, which end at an offset, at this depth.
unfoldable pub close_struct : Name → ℕ → Result LayoutError (Fields × ℕ) → Result LayoutError Layout
close_struct name depth r = do
  fail_if (ltb max_nesting depth) too_deep
  (fs, end) ← r
  ok (layout name fs (align_to end 16))

-- The member of a nested struct.
unfoldable pub struct_member : Name → Layout → Field × Elem
struct_member name (layout n fs size) = (member name k_struct 16 size, elem (layout n fs size))

-- `layoutField` of what is no array or struct.
unfoldable pub layout_scalar : Name → GoType → Option Scalar → Result LayoutError (Field × Elem)
layout_scalar name t none = err (forbidden_type (forbidden t))
layout_scalar name t (some s) = ok (record (member name k_scalar 4 4) { scalar = s }, no_elem)

-- `layoutField`, and the loop of `layoutStruct` from an offset.
unfoldable mutual
  pub layout_field : Name → GoType → ℕ → Result LayoutError (Field × Elem)
  layout_field name (array n t) depth = layout_array name n t >>= λ f. ok (f, no_elem)
  layout_field name (struct fs) depth =
      close_struct name (suc depth) (layout_fields fs (suc depth) 0) >>= λ inner.
      ok (struct_member name inner)
  layout_field name (basic b) depth = layout_scalar name (basic b) (scalar_of (basic b))
  layout_field name reference depth = layout_scalar name reference none
  layout_field name other depth = layout_scalar name other none

  pub layout_fields : GoFields → ℕ → ℕ → Result LayoutError (Fields × ℕ)
  layout_fields no_fields depth offset = ok (none_placed, offset)
  layout_fields (field v t fs) depth offset = do
    fail_if (not v.exported) unexported
    fail_if v.anonymous embedded
    (fd, e) ← layout_field v.name t depth
    let at = align_to offset fd.align
    (rest, end) ← layout_fields fs depth (at + fd.size)
    ok (placed (record fd { offset = at }) e rest, end)

-- `layoutStruct`
unfoldable pub layout_struct : Name → GoFields → ℕ → Result LayoutError Layout
layout_struct name fs depth = close_struct name depth (layout_fields fs depth 0)

-- `Of`
unfoldable pub layout_of : Name → GoType → Result LayoutError Layout
layout_of name (struct fs) = layout_struct name fs 0
layout_of name t = err not_a_struct
