-- ===== src/Codec/Parts.antt =====
-- internal/kernelc/emit/emit.go: a codec has a statement for every part of a value of the struct's type.
use accel.Base.{
  ℕ, zero, suc, ◌+◌, ◌*◌, ◌<◌, ◌≤◌, ◌≡◌, ◌≢◌, ◌⊎◌, inl, inr, refl, sym, subst, not, ◌||◌, Option,
  none, some, List, [], ◌∷◌, ◌++◌, ltb, leb, ◌==◌, IsIn, IsIn-append_left, IsIn-append_right,
  Bool-cases, arith,
}
use native.Mathlib.Decide.{ℕ_discrete}
use accel.Base.Result.{ok, ok-injective, >>=-eq-ok, then_passed}
use accel.Std140.{
  Name, GoType, GoFields, basic, array, struct, reference, other, no_fields, field, Scalar, Kind,
  k_scalar, k_vector, k_array, k_matrix, k_struct, Field, Elem, Fields, placed, scalar_of, align_to,
  member, layout_vector, layout_matrix, layout_nested, layout_elements, layout_array, layout_scalar,
  layout_field, layout_fields,
}
use accel.Codec.{
  UniformField, uniform_field, uniform_fields, Slot, whole, item, cell, run_of, columns_of,
  codec_kind, codec_writes,
}

-- The parts of a value's field, by the field's Go type: itself, its elements, or the elements of its
-- elements. A field that is a struct is refused by the codec, and has none here.
abbrev pub IsPartOf : Name → GoType → Slot → Type 0
IsPartOf name (basic b) s = s ≡ whole name
IsPartOf name (array n (basic b)) s = (i : ℕ) × (i < n) × (s ≡ item name i)
IsPartOf name (array n (array m t)) s = (i : ℕ) × (j : ℕ) × (i < n) × (j < m) × (s ≡ cell name i j)
IsPartOf name t s = ⊥

abbrev pub IsPart : GoFields → Slot → Type 0
IsPart no_fields s = ⊥
IsPart (field v t gs) s = IsPartOf v.name t s ⊎ IsPart gs s

-- The parts of a placed member, by its kind, its name and its two lengths.
abbrev KindPart : Kind → Name → ℕ → ℕ → Slot → Type 0
KindPart k_scalar name n m s = s ≡ whole name
KindPart k_vector name n m s = (i : ℕ) × (i < n) × (s ≡ item name i)
KindPart k_array name n m s = (i : ℕ) × (i < n) × (s ≡ item name i)
KindPart k_matrix name n m s = (i : ℕ) × (j : ℕ) × (i < n) × (j < m) × (s ≡ cell name i j)
KindPart k_struct name n m s = ⊥

abbrev FieldPart : Slot → Field → Type 0
FieldPart s f = KindPart f.kind f.name f.len f.rows s

layout_vector-FieldPart :
    (name : Name) (sc : Scalar) (n i : ℕ)
    → i < n
    → n ≤ 4
    → FieldPart (item name i) (layout_vector name sc n)
unfolding layout_vector member
layout_vector-FieldPart name sc zero i lt le = absurd (omega (arith, lt))
layout_vector-FieldPart name sc (suc zero) i lt le = (i, lt, refl)
layout_vector-FieldPart name sc (suc (suc zero)) i lt le = (i, lt, refl)
layout_vector-FieldPart name sc (suc (suc (suc zero))) i lt le = (i, lt, refl)
layout_vector-FieldPart name sc (suc (suc (suc (suc n)))) i lt le = (i, omega (arith, lt, le), refl)

layout_elements-FieldPart :
    (name : Name) (n i : ℕ) (b : GoType) (o : Option Scalar) {f : Field}
    → layout_nested name n b ≢ ok f
    → layout_elements name n b o ≡ ok f
    → i < n
    → FieldPart (item name i) f
unfolding layout_elements member
layout_elements-FieldPart name n i b none never e lt = absurd (never e)
layout_elements-FieldPart name n i b (some sc) never e lt = elim (Bool-cases (leb n 4)) [
  | inl short ↦
      subst (FieldPart (item name i)) (ok-injective (rw short at e))
        (layout_vector-FieldPart name sc n i lt (ground arith))
  | inr long ↦ subst (FieldPart (item name i)) (ok-injective (rw long at e)) (i, lt, refl)
]

layout_matrix-FieldPart :
    (name : Name) (n m i j : ℕ) (o : Option Scalar) {f : Field}
    → layout_matrix name n m o ≡ ok f
    → i < n
    → j < m
    → FieldPart (cell name i j) f
unfolding layout_matrix member
layout_matrix-FieldPart name n m i j none e lt lt' = cc
layout_matrix-FieldPart name n m i j (some sc) e lt lt' = elim (Bool-cases (ltb m 1 || ltb 4 m)) [
  | inl bad ↦ absurd (cc (rw bad at e))
  | inr good ↦ subst (FieldPart (cell name i j)) (ok-injective (rw good at e)) (i, j, lt, lt', refl)
]

-- A part of the type is a part of the member that the layout makes of it.
layout_array-FieldPart :
    (name : Name) (n : ℕ) (t : GoType) (s : Slot) {f : Field}
    → layout_array name n t ≡ ok f
    → IsPartOf name (array n t) s
    → FieldPart s f
unfolding layout_array layout_nested scalar_of layout_elements
layout_array-FieldPart name n (basic b) s {f} e (i, lt, is) = elim (Bool-cases (n == 0)) [
  | inl empty ↦ absurd (cc (rw empty at e))
  | inr some_ ↦
      subst (λ x. FieldPart x f) (sym is)
        (layout_elements-FieldPart name n i (basic b) (scalar_of (basic b)) (λ x. cc)
          (rw some_ at e) lt)
]
layout_array-FieldPart name n (array m t) s {f} e (i, j, lt, lt', is) = elim (Bool-cases (n == 0)) [
  | inl empty ↦ absurd (cc (rw empty at e))
  | inr some_ ↦
      subst (λ x. FieldPart x f) (sym is)
        (layout_matrix-FieldPart name n m i j (scalar_of t) (rw some_ at e) lt lt')
]
layout_array-FieldPart name n (struct gs) s e p = absurd p
layout_array-FieldPart name n reference s e p = absurd p
layout_array-FieldPart name n other s e p = absurd p

layout_scalar-FieldPart :
    (name : Name) (t : GoType) (o : Option Scalar) {m : Field × Elem}
    → layout_scalar name t o ≡ ok m
    → FieldPart (whole name) m.0
unfolding layout_scalar member
layout_scalar-FieldPart name t none e = cc
layout_scalar-FieldPart name t (some sc) e =
    subst (λ (m : Field × Elem). FieldPart (whole name) m.0) (ok-injective e) refl

layout_field-FieldPart :
    (name : Name) (t : GoType) (depth : ℕ) (s : Slot) {m : Field × Elem}
    → layout_field name t depth ≡ ok m
    → IsPartOf name t s
    → FieldPart s m.0
unfolding layout_field
layout_field-FieldPart name (array n t) depth s e p =
    let (f, made, is) = >>=-eq-ok (layout_array name n t) _ e in
    subst (λ (m : Field × Elem). FieldPart s m.0) (ok-injective is)
      (layout_array-FieldPart name n t s made p)
layout_field-FieldPart name (basic b) depth s {m} e p =
    subst (λ x. FieldPart x m.0) (sym p)
      (layout_scalar-FieldPart name (basic b) (scalar_of (basic b)) e)
layout_field-FieldPart name (struct gs) depth s e p = absurd p
layout_field-FieldPart name reference depth s e p = absurd p
layout_field-FieldPart name other depth s e p = absurd p

-- Some statement is of the part.
abbrev pub HasPart : Slot → List (ℕ × Slot) → Type 0
HasPart s ws = (at : ℕ) × IsIn (at, s) ws

HasPart-append :
    (s : Slot) (xs ys : List (ℕ × Slot)) → HasPart s xs ⊎ HasPart s ys → HasPart s (xs ++ ys)
HasPart-append s xs ys (inl (at, h)) = (at, IsIn-append_left (at, s) xs ys h)
HasPart-append s xs ys (inr (at, h)) = (at, IsIn-append_right (at, s) xs ys h)

run_of-HasPart :
    (slot : ℕ → Slot) (base step i n k : ℕ)
    → i ≤ k
    → k < i + n
    → HasPart (slot k) (run_of slot base step i n)
unfolding run_of
run_of-HasPart slot base step i zero k le lt = absurd (omega (arith, le, lt))
run_of-HasPart slot base step i (suc n) k le lt = elim (ℕ_discrete i k) [
  | yes e ↦ subst (λ x. HasPart (slot x) (run_of slot base step i (suc n))) e (_, inl refl)
  | no ne ↦
      let (at, h) =
        run_of-HasPart slot base step (suc i) n k (omega (arith, le, ne)) (omega (arith, lt)) in
      (at, inr h)
]

columns_of-HasPart :
    (f : UniformField) (col n i j : ℕ)
    → col ≤ i
    → i < col + n
    → j < f.rows
    → HasPart (cell f.name i j) (columns_of f col n)
unfolding columns_of
columns_of-HasPart f col zero i j le lt row = absurd (omega (arith, le, lt))
columns_of-HasPart f col (suc n) i j le lt row =
    let here = run_of (cell f.name col) (f.offset + col * f.stride) 4 0 f.rows in
    HasPart-append (cell f.name i j) here (columns_of f (suc col) n) (elim (ℕ_discrete col i) [
      | yes e ↦ inl (
          subst (λ x. HasPart (cell f.name x j) here) e
            (run_of-HasPart (cell f.name col) (f.offset + col * f.stride) 4 0 f.rows j (omega arith)
              (omega (arith, row))))
      | no ne ↦
          inr (columns_of-HasPart f (suc col) n i j (omega (arith, le, ne)) (omega (arith, lt)) row)
    ])

-- The statements of a member are of all its parts.
codec_kind-HasPart :
    (f : UniformField) (k : Kind) (s : Slot) {ws : List (ℕ × Slot)}
    → codec_kind f k ≡ ok ws
    → KindPart k f.name f.len f.rows s
    → HasPart s ws
unfolding codec_kind
codec_kind-HasPart f k_scalar s e p =
    subst (HasPart s) (ok-injective e)
      (subst (λ x. HasPart x ((f.offset, whole f.name) ∷ [])) (sym p) (f.offset, inl refl))
codec_kind-HasPart f k_vector s e (i, lt, is) = subst (HasPart s) (ok-injective e) (
    subst (λ x. HasPart x (run_of (item f.name) f.offset 4 0 f.len)) (sym is)
      (run_of-HasPart (item f.name) f.offset 4 0 f.len i (omega arith) (omega (arith, lt))))
codec_kind-HasPart f k_array s e (i, lt, is) = subst (HasPart s) (ok-injective e) (
    subst (λ x. HasPart x (run_of (item f.name) f.offset f.stride 0 f.len)) (sym is)
      (run_of-HasPart (item f.name) f.offset f.stride 0 f.len i (omega arith) (omega (arith, lt))))
codec_kind-HasPart f k_matrix s e (i, j, lt, row, is) = subst (HasPart s) (ok-injective e) (
    subst (λ x. HasPart x (columns_of f 0 f.len)) (sym is)
      (columns_of-HasPart f 0 f.len i j (omega arith) (omega (arith, lt)) row))
codec_kind-HasPart f k_struct s e p = absurd p

-- A part of the first member, or one that the statements of the others name.
split_writes :
    (f : Field) (el : Elem) (rest : Fields) (s : Slot) {ws : List (ℕ × Slot)}
    → codec_writes (uniform_fields (placed f el rest)) ≡ ok ws
    → FieldPart s f
      ⊎ ((xs : List (ℕ × Slot)) → codec_writes (uniform_fields rest) ≡ ok xs → HasPart s xs)
    → HasPart s ws
unfolding codec_writes uniform_fields
split_writes f el rest s e p =
    let (first, one, e1) = >>=-eq-ok (codec_kind (uniform_field f) f.kind) _ e in
    let (more, after, e2) = >>=-eq-ok (codec_writes (uniform_fields rest)) _ e1 in
    subst (HasPart s) (ok-injective e2) (
      HasPart-append s first more (elim p [
        | inl q ↦ inl (codec_kind-HasPart (uniform_field f) f.kind s one q)
        | inr has ↦ inr (has more after)
      ]))

-- The statements of a struct's codec are of all parts of its values.
pub codec_writes-HasPart :
    (gs : GoFields) (depth offset : ℕ) (s : Slot) {fs : Fields} {end : ℕ} {ws : List (ℕ × Slot)}
    → layout_fields gs depth offset ≡ ok (fs, end)
    → codec_writes (uniform_fields fs) ≡ ok ws
    → IsPart gs s
    → HasPart s ws
unfolding layout_fields
codec_writes-HasPart no_fields depth offset s made e p = absurd p
codec_writes-HasPart (field v t gs) depth offset s {fs} {end} {ws} made e p =
    let (c1, e1) = then_passed (not v.exported) _ _ made in
    let (c2, e2) = then_passed v.anonymous _ _ e1 in
    let ((fd, el), one, e3) = >>=-eq-ok (layout_field v.name t depth) _ e2 in
    let at = align_to offset fd.align in
    let ((rest, last), after, e4) = >>=-eq-ok (layout_fields gs depth (at + fd.size)) _ e3 in
    let here : Field = record fd { offset = at } in
    let emitted : codec_writes (uniform_fields (placed here el rest)) ≡ ok ws =
      subst (λ (r : Fields × ℕ). codec_writes (uniform_fields r.0) ≡ ok ws) (sym (ok-injective e4))
        e in
    split_writes here el rest s emitted (elim p [
      | inl q ↦ inl (layout_field-FieldPart v.name t depth s one q)
      | inr q ↦
          inr (λ xs made_rest. codec_writes-HasPart gs depth (at + fd.size) s after made_rest q)
    ])
