-- ===== src/Std140/Members.antt =====
-- internal/kernelc/std140/std140.go: the shape of a member of each kind.
use accel.Base.{
  ℕ, zero, suc, ◌+◌, ◌*◌, ◌<◌, ◌≤◌, ◌≡◌, ◌⊎◌, refl, subst, false, ◌||◌, Option, none, some, leb,
  ltb, ◌==◌, arith, Bool-cases, inl, inr,
}
use accel.Base.Round.{IsMultiple, RoundsUp, div-RoundsUp}
use accel.Base.Result.{ok, ok-injective}
use accel.Std140.{
  Name, GoType, basic, array, struct, reference, other, Scalar, Kind, k_scalar, k_vector, k_array,
  k_matrix, k_struct, Field, Elem, Fields, layout, no_elem, elem, none_placed, placed, scalar_of,
  align_to, member, layout_vector, layout_matrix, layout_nested, layout_elements, layout_array,
}

-- The size and the alignment that a member of this kind has, in bytes, which std140 prescribes: a word
-- for a scalar, two for a vector of two, and four for all else.
abbrev pub HasShape : Kind → Field → Type 0
HasShape k_scalar f = (f.size ≡ 4) × (f.align ≡ 4)
HasShape k_vector f =
    (f.size ≡ 4 * f.len)
    × (2 ≤ f.len)
    × (f.len ≤ 4)
    × (((f.len ≡ 2) × (f.align ≡ 8)) ⊎ ((3 ≤ f.len) × (f.align ≡ 16)))
HasShape k_array f = (f.size ≡ 16 * f.len) × (f.stride ≡ 16) × (1 ≤ f.len) × (f.align ≡ 16)
HasShape k_matrix f =
    (f.size ≡ 16 * f.len)
    × (f.stride ≡ 16)
    × (1 ≤ f.len)
    × (1 ≤ f.rows)
    × (f.rows ≤ 4)
    × (f.align ≡ 16)
HasShape k_struct f = f.align ≡ 16

-- A member has the shape of its kind, and its size and alignment are in whole words.
pub record IsMember (f : Field) : Type 0 where
  pub shape : HasShape f.kind f
  pub words : IsMultiple 4 f.size
  pub grain : IsMultiple 4 f.align
  pub positive : 0 < f.align

-- Members lie in order from an offset to an end, each aligned, and so do those of a nested block.
unfoldable mutual
  pub IsPlaced : ℕ → Fields → ℕ → Type 0
  IsPlaced lo none_placed hi = lo ≤ hi
  IsPlaced lo (placed f e fs) hi =
      (lo ≤ f.offset)
      × IsMultiple f.align f.offset
      × IsMember f
      × IsNested f e
      × IsPlaced (f.offset + f.size) fs hi

  pub IsNested : Field → Elem → Type 0
  IsNested f no_elem = Unit
  IsNested f (elem (layout n fs size)) =
      (f.kind ≡ k_struct) × (f.size ≡ size) × IsMultiple 16 size × IsPlaced 0 fs size

-- A member is at its offset only once it is placed.
pub IsMember-at : (f : Field) (at : ℕ) → IsMember f → IsMember (record f { offset = at })
IsMember-at f at m = record {
  shape = shape_at f.kind m.shape;
  words = m.words;
  grain = m.grain;
  positive = m.positive;
}
  where
    shape_at : (k : Kind) → HasShape k f → HasShape k (record f { offset = at })
    shape_at k_scalar h = h
    shape_at k_vector h = h
    shape_at k_array h = h
    shape_at k_matrix h = h
    shape_at k_struct h = h

pub IsNested-at :
    (f : Field) (e : Elem) (at : ℕ) → IsNested f e → IsNested (record f { offset = at }) e
unfolding IsNested
IsNested-at f no_elem at h = tt
IsNested-at f (elem (layout n fs size)) at h = h

pub align_to-RoundsUp : (offset to : ℕ) → 0 < to → RoundsUp offset to (align_to offset to)
unfolding align_to
align_to-RoundsUp offset to pos =
    let big : leb to 0 ≡ false = ground arith in rw big (div-RoundsUp offset to pos)

pub IsPlaced-le :
    (lo : ℕ) (fs : Fields) {hi top : ℕ} → IsPlaced lo fs hi → hi ≤ top → IsPlaced lo fs top
unfolding IsPlaced
IsPlaced-le lo none_placed p le = omega (arith, p, le)
IsPlaced-le lo (placed f e fs) (a, al, m, n, rest) le =
    (a, al, m, n, IsPlaced-le (f.offset + f.size) fs rest le)

sixteens : (n : ℕ) → IsMultiple 4 (16 * n)
sixteens n = (4 * n, omega arith)

layout_vector-IsMember :
    (name : Name) (s : Scalar) (n : ℕ) → 1 ≤ n → IsMember (layout_vector name s n)
unfolding layout_vector member
layout_vector-IsMember name s zero h = absurd (omega arith)
layout_vector-IsMember name s (suc zero) h = record {
  shape = (refl, refl, omega arith, refl);
  words = (4, refl);
  grain = (4, refl);
  positive = omega arith;
}
layout_vector-IsMember name s (suc (suc zero)) h = record {
  shape = (refl, omega arith, omega arith, inl (refl, refl));
  words = (2, refl);
  grain = (2, refl);
  positive = omega arith;
}
layout_vector-IsMember name s (suc (suc (suc zero))) h = record {
  shape = (refl, omega arith, omega arith, inr (omega arith, refl));
  words = (3, refl);
  grain = (4, refl);
  positive = omega arith;
}
layout_vector-IsMember name s (suc (suc (suc (suc n)))) h = record {
  shape = (refl, omega arith, omega arith, inr (omega arith, refl));
  words = (4, refl);
  grain = (4, refl);
  positive = omega arith;
}

layout_matrix-IsMember :
    (name : Name) (n rows : ℕ) (s : Option Scalar) {f : Field}
    → 1 ≤ n
    → layout_matrix name n rows s ≡ ok f
    → IsMember f
unfolding layout_matrix member
layout_matrix-IsMember name n rows none h e = cc
layout_matrix-IsMember name n rows (some s) h e = elim (Bool-cases (ltb rows 1 || ltb 4 rows)) [
  | inl bad ↦ absurd (cc (rw bad at e))
  | inr good ↦ subst IsMember (ok-injective (rw good at e)) (record {
    shape = (refl, refl, h, ground arith, ground arith, refl);
    words = sixteens n;
    grain = (4, refl);
    positive = omega arith;
  })
]

layout_nested-IsMember :
    (name : Name) (n : ℕ) (t : GoType) {f : Field}
    → 1 ≤ n
    → layout_nested name n t ≡ ok f
    → IsMember f
unfolding layout_nested
layout_nested-IsMember name n (array rows t) h e =
    layout_matrix-IsMember name n rows (scalar_of t) h e
layout_nested-IsMember name n (struct fs) h e = cc
layout_nested-IsMember name n (basic b) h e = cc
layout_nested-IsMember name n reference h e = cc
layout_nested-IsMember name n other h e = cc

layout_elements-IsMember :
    (name : Name) (n : ℕ) (t : GoType) (s : Option Scalar) {f : Field}
    → 1 ≤ n
    → layout_elements name n t s ≡ ok f
    → IsMember f
unfolding layout_elements member
layout_elements-IsMember name n t none h e = layout_nested-IsMember name n t h e
layout_elements-IsMember name n t (some s) h e = elim (Bool-cases (leb n 4)) [
  | inl short ↦ subst IsMember (ok-injective (rw short at e)) (layout_vector-IsMember name s n h)
  | inr long ↦ subst IsMember (ok-injective (rw long at e)) (record {
    shape = (refl, refl, h, refl);
    words = sixteens n;
    grain = (4, refl);
    positive = omega arith;
  })
]

pub layout_array-IsMember :
    (name : Name) (n : ℕ) (t : GoType) {f : Field} → layout_array name n t ≡ ok f → IsMember f
unfolding layout_array
layout_array-IsMember name n t e = elim (Bool-cases (n == 0)) [
  | inl empty ↦ absurd (cc (rw empty at e))
  | inr some_ ↦ layout_elements-IsMember name n t (scalar_of t) (ground arith) (rw some_ at e)
]
