-- ===== src/Codec/Msl/Offsets.antt =====
-- internal/kernelc/emit/msl.go: the declared struct has the layout's offsets.
use mathlib.Core.Path.{ap₂}
use mathlib.Core.List.{append-nil}
use accel.Base.{
  ℕ, ◌+◌, ◌-◌, ◌*◌, ◌%◌, ◌≤◌, ◌≡◌, ◌≢◌, refl, sym, ap, ◌∙◌, subst, false, not, ◌||◌, List, [], ◌∷◌,
  ◌++◌, ◌==◌, ==_iff, ltb, arith, Bool-cases, inl, inr,
}
use accel.Base.Round.{IsMultiple, IsMultiple-trans}
use accel.Base.Result.{ok}
use accel.Std140.{
  Name, GoType, Kind, k_scalar, k_vector, k_array, k_matrix, k_struct, Field, Fields, layout,
  none_placed, placed, align_to, layout_of,
}
use accel.Std140.Placed.{layout_of-IsBlock}
use accel.Std140.Members.{IsPlaced, HasShape, align_to-RoundsUp}
use accel.Codec.{uniform_field, uniform_fields}
use accel.Codec.RoundTrip.{IsFlat}
use accel.Codec.Msl.{
  Declaration, padding, one, row, table, strided, declare, pad_to, declare_from, uniform_struct,
}

-- A language with the layout of C puts each member at the next multiple of its element's size: 1 for
-- a char, 4 for the others.
abbrev pub start_of : ℕ → Declaration → ℕ
start_of at (padding n) = at
start_of at d = align_to at 4

abbrev pub bytes_of : Declaration → ℕ
bytes_of (padding n) = n
bytes_of (one f) = 4
bytes_of (row f n) = n * 4
bytes_of (table f n m) = n * (m * 4)

abbrev names_of : Declaration → ℕ → List (Name × ℕ)
names_of (padding n) at = []
names_of (one f) at = (f, at) ∷ []
names_of (row f n) at = (f, at) ∷ []
names_of (table f n m) at = (f, at) ∷ []

-- Where the named members are, and where the struct ends.
abbrev pub offsets_of : ℕ → List Declaration → List (Name × ℕ)
offsets_of at [] = []
offsets_of at (d ∷ ds) = names_of d (start_of at d) ++ offsets_of (start_of at d + bytes_of d) ds

abbrev pub end_of : ℕ → List Declaration → ℕ
end_of at [] = at
end_of at (d ∷ ds) = end_of (start_of at d + bytes_of d) ds

abbrev pub field_offsets : Fields → List (Name × ℕ)
field_offsets none_placed = []
field_offsets (placed f e fs) = (f.name, f.offset) ∷ field_offsets fs

align_to-IsMultiple : (n : ℕ) → IsMultiple 4 n → align_to n 4 ≡ n
align_to-IsMultiple n (q, e) =
    let (k, f) = (align_to-RoundsUp n 4 (omega arith)).multiple in
    omega (
      arith,
      e,
      f,
      (align_to-RoundsUp n 4 (omega arith)).above,
      (align_to-RoundsUp n 4 (omega arith)).tight,
    )

-- A member's declaration is as long as the member, but a short array's tail is in the struct's too.
record Declares (f : Field) (k : Kind) (d : Declaration) (bytes : ℕ) : Type 0 where
  is : declare (uniform_field f) k ≡ ok (d, bytes)
  long : bytes_of d ≡ bytes
  size : f.size ≡ bytes
  named : (at : ℕ) → IsMultiple 4 at → (start_of at d ≡ at) × (names_of d at ≡ (f.name, at) ∷ [])

strided-is :
    (f : Field)
    → f.stride ≡ 16
    → 1 ≤ f.len
    → strided (uniform_field f) ≡ ok (table f.name f.len 4, f.len * 16)
unfolding strided
strided-is f stride pos =
    let sound : (not (16 % 4 == 0) || 16 == 0 || f.len == 0) ≡ false =
      ground (arith, ==_iff f.len 0) in
    subst
      (λ w.
        strided (record (uniform_field f) { stride = w }) ≡ ok (table f.name f.len 4, f.len * 16))
      (sym stride) (rw sound refl)

table-Declares :
    (f : Field) (k : Kind)
    → declare (uniform_field f) k ≡ strided (uniform_field f)
    → f.size ≡ 16 * f.len
    → f.stride ≡ 16
    → 1 ≤ f.len
    → (d : Declaration) × (bytes : ℕ) × Declares f k d bytes
table-Declares f k e size stride pos = (
  table f.name f.len 4,
  f.len * 16,
  record {
    is = e ∙ strided-is f stride pos;
    long = refl;
    size = omega (arith, size);
    named = λ at m. (align_to-IsMultiple at m, refl);
  },
)

-- A member of a kind that has a declaration has one that is as long as it.
member-Declares :
    (f : Field) (k : Kind)
    → HasShape k f
    → k ≢ k_struct
    → (d : Declaration) × (bytes : ℕ) × Declares f k d bytes
unfolding declare
member-Declares f k_scalar (size, al) flat = (
  one f.name,
  4,
  record { is = refl; long = refl; size = size; named = λ at m. (align_to-IsMultiple at m, refl) },
)
member-Declares f k_vector (size, two, four, al) flat =
    let sound : (ltb f.len 2 || ltb 4 f.len) ≡ false = ground arith in
    (
      row f.name f.len,
      f.len * 4,
      record {
        is = rw sound refl;
        long = refl;
        size = omega (arith, size);
        named = λ at m. (align_to-IsMultiple at m, refl);
      },
    )
member-Declares f k_array (size, stride, pos, al) flat =
    table-Declares f k_array refl size stride pos
member-Declares f k_matrix (size, stride, pos, r, rows, al) flat =
    table-Declares f k_matrix refl size stride pos
member-Declares f k_struct shape flat = absurd (flat refl)

-- Members from an offset are declared at their offsets.
record Struct (fs : Fields) (lo size : ℕ) : Type 0 where
  declared : List Declaration
  made : declare_from size lo (uniform_fields fs) ≡ ok declared
  offsets : offsets_of lo declared ≡ field_offsets fs
  end : end_of lo declared ≡ size

-- Padding moves the place at which the rest is declared.
padded :
    (lo at : ℕ) (ds : List Declaration)
    → lo ≤ at
    → (offsets_of lo (pad_to lo at ++ ds) ≡ offsets_of at ds)
      × (end_of lo (pad_to lo at ++ ds) ≡ end_of at ds)
unfolding pad_to
padded lo at ds le = elim (Bool-cases (ltb 0 (at - lo))) [
  | inl more ↦
      let e : lo + (at - lo) ≡ at = omega (arith, le) in
      rw more (ap (λ o. offsets_of o ds) e, ap (λ o. end_of o ds) e)
  | inr full ↦
      let e : lo ≡ at = ground arith in
      rw full (ap (λ o. offsets_of o ds) e, ap (λ o. end_of o ds) e)
]

fields-Struct : (lo size : ℕ) (fs : Fields) → IsFlat fs → IsPlaced lo fs size → Struct fs lo size
unfolding declare_from uniform_fields IsPlaced
fields-Struct lo size none_placed flat le =
    let (named, end) = padded lo size [] le in
    let same = append-nil (pad_to lo size) in
    record {
      declared = pad_to lo size;
      made = refl;
      offsets = ap (offsets_of lo) (sym same) ∙ named;
      end = ap (end_of lo) (sym same) ∙ end;
    }
fields-Struct lo size (placed f el fs) (here_flat, flat) (above, at, m, n, rest) =
    let (d, bytes, here) = member-Declares f f.kind m.shape here_flat in
    let next : Struct fs (f.offset + bytes) size =
      subst (λ b. Struct fs (f.offset + b) size) here.size
        (fields-Struct (f.offset + f.size) size fs flat rest) in
    let (start, name) = here.named f.offset (IsMultiple-trans 4 f.align f.offset m.grain at) in
    let (named, end) = padded lo f.offset (d ∷ next.declared) above in
    let order : ltb f.offset lo ≡ false = ground arith in
    let after : start_of f.offset d + bytes_of d ≡ f.offset + bytes = ap₂ ◌+◌ start here.long in
    record {
      declared = pad_to lo f.offset ++ d ∷ next.declared;
      made = rw (here.is, order, next.made) refl;
      offsets =
          named
          ∙ ap₂ (λ x y. names_of d x ++ offsets_of y next.declared) start after
          ∙ ap₂ ◌++◌ name next.offsets;
      end = end ∙ ap (λ y. end_of y next.declared) after ∙ next.end;
    }

-- The layout of a struct without nested structs has a declaration in the Metal source, whose members
-- a compiler with the layout rules of C puts at the offsets that the codec writes at, and which ends
-- at the block's size.
pub layout_of-IsDeclared :
    (name type_name : Name) (t : GoType) (fs : Fields) (size : ℕ)
    → layout_of name t ≡ ok (layout type_name fs size)
    → IsFlat fs
    → (ds : List Declaration) × (uniform_struct (uniform_fields fs) size ≡ ok ds)
      × (offsets_of 0 ds ≡ field_offsets fs)
      × (end_of 0 ds ≡ size)
unfolding uniform_struct
layout_of-IsDeclared name type_name t fs size made flat =
    let (multiple, run) = layout_of-IsBlock name t made in
    let s = fields-Struct 0 size fs flat run in (s.declared, s.made, s.offsets, s.end)
