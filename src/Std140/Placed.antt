-- ===== src/Std140/Placed.antt =====
-- internal/kernelc/std140/std140.go: where a layout puts the members.
use accel.Base.{
  ℕ, suc, ◌+◌, ◌*◌, ◌≡◌, refl, subst, not, Option, none, some, ltb, arith, Bool-cases, inl, inr,
}
use accel.Base.Round.{IsMultiple}
use accel.Base.Result.{Result, ok, ok-injective, >>=-eq-ok, then_passed}
use accel.Std140.{
  Name, GoType, GoFields, basic, array, struct, reference, other, no_fields, field, Scalar, Field,
  Layout, Elem, Fields, layout, LayoutError, max_nesting, scalar_of, align_to, member, layout_array,
  close_struct, struct_member, layout_scalar, layout_field, layout_fields, layout_struct, layout_of,
}
use accel.Std140.Members.{
  IsPlaced, IsNested, IsMember, IsMember-at, IsNested-at, align_to-RoundsUp, IsPlaced-le,
  layout_array-IsMember,
}

-- What is shown of a struct that is closed.
abbrev pub IsBlock : Layout → Type 0
IsBlock (layout n fs size) = IsMultiple 16 size × IsPlaced 0 fs size

close_struct-IsBlock :
    (name : Name) (depth : ℕ) (r : Result LayoutError (Fields × ℕ)) {l : Layout}
    → ((fs : Fields) (end : ℕ) → r ≡ ok (fs, end) → IsPlaced 0 fs end)
    → close_struct name depth r ≡ ok l
    → IsBlock l
unfolding close_struct
close_struct-IsBlock name depth r ih e = elim (Bool-cases (ltb max_nesting depth)) [
  | inl deep ↦ absurd (cc (rw deep at e))
  | inr near ↦
      let ((fs, end), first, last) = >>=-eq-ok r _ (rw near at e) in
      let round = align_to-RoundsUp end 16 (omega arith) in
      subst IsBlock (ok-injective last)
        (round.multiple, IsPlaced-le 0 fs (ih fs end first) round.above)
]

struct_member-IsMember :
    (name : Name) (l : Layout)
    → IsBlock l
    → IsMember (struct_member name l).0 × IsNested (struct_member name l).0 (struct_member name l).1
unfolding struct_member member IsNested
struct_member-IsMember name (layout n fs size) ((q, e), p) = (
  record {
    shape = refl;
    words = (4 * q, omega (arith, e));
    grain = (4, refl);
    positive = omega arith;
  },
  (refl, refl, (q, e), p),
)

abbrev IsGood : Field × Elem → Type 0
IsGood (f, e) = IsMember f × IsNested f e

layout_scalar-IsGood :
    (name : Name) (t : GoType) (s : Option Scalar) {m : Field × Elem}
    → layout_scalar name t s ≡ ok m
    → IsGood m
unfolding layout_scalar member IsNested
layout_scalar-IsGood name t none e = cc
layout_scalar-IsGood name t (some s) e = subst IsGood (ok-injective e) (
  record { shape = (refl, refl); words = (1, refl); grain = (1, refl); positive = omega arith },
  tt,
)

mutual
  unfolding layout_field layout_fields IsPlaced IsNested

  layout_field-IsGood :
      (name : Name) (t : GoType) (depth : ℕ) {m : Field × Elem}
      → layout_field name t depth ≡ ok m
      → IsGood m
  layout_field-IsGood name (array n t) depth e =
      let (f, made, is) = >>=-eq-ok (layout_array name n t) _ e in
      subst IsGood (ok-injective is) (layout_array-IsMember name n t made, tt)
  layout_field-IsGood name (struct fs) depth e =
      let (l, made, is) =
        >>=-eq-ok (close_struct name (suc depth) (layout_fields fs (suc depth) 0)) _ e in
      let block =
        close_struct-IsBlock name (suc depth) (layout_fields fs (suc depth) 0)
          (λ ps end h. layout_fields-IsPlaced fs (suc depth) 0 h) made in
      subst IsGood (ok-injective is) (struct_member-IsMember name l block)
  layout_field-IsGood name (basic b) depth e =
      layout_scalar-IsGood name (basic b) (scalar_of (basic b)) e
  layout_field-IsGood name reference depth e = layout_scalar-IsGood name reference none e
  layout_field-IsGood name other depth e = layout_scalar-IsGood name other none e

  layout_fields-IsPlaced :
      (fs : GoFields) (depth offset : ℕ) {ps : Fields} {end : ℕ}
      → layout_fields fs depth offset ≡ ok (ps, end)
      → IsPlaced offset ps end
  layout_fields-IsPlaced no_fields depth offset e =
      subst (λ (r : Fields × ℕ). IsPlaced offset r.0 r.1) (ok-injective e) (omega arith)
  layout_fields-IsPlaced (field v t fs) depth offset e =
      let (c1, e1) = then_passed (not v.exported) _ _ e in
      let (c2, e2) = then_passed v.anonymous _ _ e1 in
      let ((fd, el), made, e3) = >>=-eq-ok (layout_field v.name t depth) _ e2 in
      let (m, n) = layout_field-IsGood v.name t depth made in
      let at = align_to offset fd.align in
      let ((rest, end), after, e4) = >>=-eq-ok (layout_fields fs depth (at + fd.size)) _ e3 in
      let ih = layout_fields-IsPlaced fs depth (at + fd.size) after in
      let round = align_to-RoundsUp offset fd.align m.positive in
      subst (λ (r : Fields × ℕ). IsPlaced offset r.0 r.1) (ok-injective e4)
        (round.above, round.multiple, IsMember-at fd at m, IsNested-at fd el at n, ih)

-- A layout that is made is a block: the members lie in order and apart, each with the size and at a
-- multiple of the alignment that std140 has for its kind (4 for a scalar, 8 for a vector of two, 16
-- for longer vectors, arrays, matrices and structs), inside a size that is a multiple of 16; and every
-- block that is nested in it is one too, of the size that its member has.
pub layout_of-IsBlock :
    (name : Name) (t : GoType) {l : Layout} → layout_of name t ≡ ok l → IsBlock l
unfolding layout_of layout_struct
layout_of-IsBlock name (struct fs) e =
    close_struct-IsBlock name 0 (layout_fields fs 0 0) (λ ps end h. layout_fields-IsPlaced fs 0 0 h)
      e
layout_of-IsBlock name (basic b) e = cc
layout_of-IsBlock name (array n t) e = cc
layout_of-IsBlock name reference e = cc
layout_of-IsBlock name other e = cc
