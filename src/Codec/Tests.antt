-- ===== src/Codec/Tests.antt =====
-- std140.go and the codec of a block with a scalar, a vector, a matrix and an array.
use accel.Base.{
  ℕ, zero, suc, ◌+◌, ◌*◌, ◌%◌, ◌^◌, ◌<◌, ◌≡◌, refl, true, false, List, [], ◌∷◌, replicate, arith,
}
use accel.Base.Result.{ok, err}
use accel.Std140.{
  GoVar, GoType, GoFields, go_float32, go_int32, go_float64, basic, array, struct, no_fields, field,
  Fields, layout, placed, none_placed, member, scalar_of, align_to, layout_vector, layout_matrix,
  layout_nested, layout_elements, layout_array, close_struct, layout_scalar, layout_field,
  layout_struct, layout_of, forbidden, too_deep, forbidden_type, no_f64, Field, k_scalar, k_array,
  k_matrix, s_f32, s_i32, no_elem,
}
use accel.Std140.Placed.{IsBlock, layout_of-IsBlock}
use accel.Codec.{Slot, whole, item, cell, uniform_fields}
use accel.Codec.RoundTrip.{Codes, IsFlat, layout_of-Codes}
use accel.Codec.Msl.{Declaration, uniform_struct}
use accel.Codec.Msl.Offsets.{offsets_of, end_of, field_offsets, layout_of-IsDeclared}

abbrev exported_as : ℕ → GoVar
exported_as n = record { name = n ∷ []; exported = true; anonymous = false }

-- A float, three floats, an int in the tail of their slot, a matrix of two columns of four, and an
-- array of five.
abbrev param_fields : GoFields
param_fields = field (exported_as 65) (basic go_float32) (
    field (exported_as 66) (array 3 (basic go_float32)) (
      field (exported_as 67) (basic go_int32) (
        field (exported_as 68) (array 2 (array 4 (basic go_float32)))
          (field (exported_as 69) (array 5 (basic go_float32)) no_fields))))

abbrev params : GoType
params = struct param_fields

abbrev at : Field → ℕ → Field
at f offset = record f { offset = offset }

abbrev members : Fields
members =
    placed (record (member (65 ∷ []) k_scalar 4 4) { scalar = s_f32 }) no_elem
      (placed (at (layout_vector (66 ∷ []) s_f32 3) 16) no_elem (
        placed (record (member (67 ∷ []) k_scalar 4 4) { scalar = s_i32; offset = 28 }) no_elem
          (placed
            (record (member (68 ∷ []) k_matrix 16 32) {
              scalar = s_f32;
              len = 2;
              rows = 4;
              stride = 16;
              offset = 32;
            })
            no_elem
            (placed
              (record (member (69 ∷ []) k_array 16 80) {
                scalar = s_f32;
                len = 5;
                stride = 16;
                offset = 64;
              })
              no_elem none_placed))))

laid_out : layout_of (80 ∷ []) params ≡ ok (layout (80 ∷ []) members 144)
unfolding layout_of layout_struct close_struct layout_field layout_scalar layout_array
    layout_elements layout_nested layout_matrix layout_vector member scalar_of align_to
laid_out = refl

-- Nine structs inside one another, in a struct, are a level too many.
abbrev nested : ℕ → GoFields
nested zero = field (exported_as 65) (basic go_float32) no_fields
nested (suc n) = field (exported_as 65) (struct (nested n)) no_fields

nine_levels : layout_of (80 ∷ []) (struct (nested 9)) ≡ err too_deep
unfolding layout_of layout_struct close_struct layout_field
nine_levels = refl

double_refused :
    layout_of [] (struct (field (exported_as 65) (basic go_float64) no_fields))
    ≡ err (forbidden_type no_f64)
unfolding layout_of layout_struct close_struct layout_field layout_scalar scalar_of forbidden
double_refused = refl

-- The parts of a value, each its own number.
abbrev value : Slot → ℕ
value (whole f) = 7
value (item f i) = (i + 100) % 2 ^ 32
value (cell f i j) = (i * 10 + j) % 2 ^ 32

small : (s : Slot) → value s < 2 ^ 32
small (whole f) = omega arith
small (item f i) = omega arith
small (cell f i j) = omega arith

abbrev dst : List ℕ
dst = replicate 144 0

flat : IsFlat members
unfolding layout_vector member
flat = (cc, (cc, (cc, (cc, (cc, tt)))))

layout_of-IsBlock_example : IsBlock (layout (80 ∷ []) members 144)
layout_of-IsBlock_example = layout_of-IsBlock (80 ∷ []) params laid_out

layout_of-Codes_example : Codes param_fields (uniform_fields members) dst value
layout_of-Codes_example =
    layout_of-Codes (80 ∷ []) (80 ∷ []) param_fields members 144 dst value laid_out flat
      (omega arith) (omega arith) small

layout_of-IsDeclared_example :
    (ds : List Declaration) × (uniform_struct (uniform_fields members) 144 ≡ ok ds)
    × (offsets_of 0 ds ≡ field_offsets members)
    × (end_of 0 ds ≡ 144)
layout_of-IsDeclared_example =
    layout_of-IsDeclared (80 ∷ []) (80 ∷ []) params members 144 laid_out flat
