-- ===== src/VertexLayout/Attributes.antt =====
-- vertexlayout.go: what an attribute that is accepted is.
use mathlib.Core.List.{append-nil, append_assoc}
use accel.Base.{
  ℕ, ◌+◌, ◌^◌, ◌<◌, ◌≤◌, ◌≡◌, ◌≢◌, refl, sym, ap, ◌∙◌, subst, inl, inr, ◌⊎◌, Bool, true, false,
  ◌||◌, some, List, [], ◌∷◌, ◌++◌, ◌==◌, IsIn, Bool-cases, arith, ==_iff,
}
use accel.Base.Int64.{add64, slt}
use accel.Base.Result.{Result, ok, ◌>>◌, fail_if, ok-injective}
use accel.VertexLayout.{
  AttrFormat, attr_table, components, size, attr_invalid, attr_float32, attr_float32x2,
  attr_float32x3, attr_float32x4, attr_unorm8x2, attr_unorm8x4, attr_snorm8x2, attr_snorm8x4,
  attr_unorm16x2, attr_unorm16x4, attr_snorm16x2, attr_snorm16x4, VertexAttribute, find_declared,
  is_some, check_attribute,
}

pub passed :
    {E A : Type 0} (c : Bool) (e : E) (k : Result E A) {out : A}
    → (fail_if c e >> k) ≡ ok out
    → (c ≡ false) × (k ≡ ok out)
passed true e k h = cc
passed false e k h = (refl, h)

-- Where no offset is within an attribute of the largest `int`.
abbrev pub IsModest : VertexAttribute → Type 0
IsModest a = (a.offset + 16 < 2 ^ 63) ⊎ (2 ^ 63 ≤ a.offset) × (a.offset < 2 ^ 64)

pub record Fits (stride : ℕ) (a : VertexAttribute) : Type 0 where
  pub fetched : 0 < components a.format
  pub inside : a.offset + size a.format ≤ stride

size-le : (f : AttrFormat) → size f ≤ 16
unfolding size attr_table
size-le attr_invalid = omega arith
size-le attr_float32 = omega arith
size-le attr_float32x2 = omega arith
size-le attr_float32x3 = omega arith
size-le attr_float32x4 = omega arith
size-le attr_unorm8x2 = omega arith
size-le attr_unorm8x4 = omega arith
size-le attr_snorm8x2 = omega arith
size-le attr_snorm8x4 = omega arith
size-le attr_unorm16x2 = omega arith
size-le attr_unorm16x4 = omega arith
size-le attr_snorm16x2 = omega arith
size-le attr_snorm16x4 = omega arith

not_found :
    (declared : List VertexAttribute) (l : ℕ)
    → is_some (find_declared declared l) ≡ false
    → (a : VertexAttribute) → IsIn a declared
    → a.location ≢ l
unfolding find_declared
not_found [] l h a i = absurd i
not_found (d ∷ declared) l h a i = elim (Bool-cases (d.location == l)) [
  | inl y ↦ cc (rw (y, find_declared) at h)
  | inr n ↦ elim i [
    | inl e ↦ λ p. cc ((==_iff d.location l).1 (ap (λ q. q.location) (sym e) ∙ p))
    | inr m ↦ not_found declared l (rw (n, find_declared) at h) a m
  ]
]

pub found :
    (declared : List VertexAttribute) (l : ℕ) (a : VertexAttribute)
    → find_declared declared l ≡ some a
    → IsIn a declared × (a.location ≡ l)
unfolding find_declared
found [] l a h = cc
found (d ∷ declared) l a h = elim (Bool-cases (d.location == l)) [
  | inl y ↦
      let same : d ≡ a = cc (rw (y, find_declared) at h) in
      (inl (sym same), ap (λ q. q.location) (sym same) ∙ (==_iff d.location l).0 y)
  | inr n ↦ let (m, e) = found declared l a (rw (n, find_declared) at h) in (inr m, e)
]

ends_inside :
    (off len stride : ℕ)
    → (off + 16 < 2 ^ 63) ⊎ (2 ^ 63 ≤ off) × (off < 2 ^ 64)
    → len ≤ 16
    → stride < 2 ^ 63
    → (slt off 0 || slt stride (add64 off len)) ≡ false
    → off + len ≤ stride
ends_inside off len stride m le w h = ground arith

-- No location of the list is one of the others'.
abbrev pub Apart : List VertexAttribute → VertexAttribute → Type 0
Apart declared a = (b : VertexAttribute) → IsIn b declared → b.location ≢ a.location

pub check_attribute-Fits :
    (stride : ℕ) (declared : List VertexAttribute) (a : VertexAttribute)
    {out : List VertexAttribute}
    → IsModest a
    → stride < 2 ^ 63
    → check_attribute stride declared a ≡ ok out
    → Fits stride a × Apart declared a × (declared ++ a ∷ [] ≡ out)
unfolding check_attribute
check_attribute-Fits stride declared a m w e =
    let (some_components, e1) = passed (components a.format == 0) _ _ e in
    let (in_stride, e2) =
      passed (slt a.offset 0 || slt stride (add64 a.offset (size a.format))) _ _ e1 in
    let (new, e3) = passed (is_some (find_declared declared a.location)) _ _ e2 in
    (
      record {
        fetched = positive (components a.format) some_components;
        inside = ends_inside a.offset (size a.format) stride m (size-le a.format) w in_stride;
      },
      not_found declared a.location new,
      ok-injective e3,
    )
  where
    positive : (n : ℕ) → (n == 0) ≡ false → 0 < n
    positive n h = ground (arith, ==_iff n 0)

-- Every location is declared once.
abbrev pub Dense : List VertexAttribute → List VertexAttribute → Type 0
Dense declared [] = Unit
Dense declared (a ∷ rest) = Apart declared a × Dense (declared ++ a ∷ []) rest

pub Dense-append :
    (declared xs ys : List VertexAttribute)
    → Dense declared xs
    → Dense (declared ++ xs) ys
    → Dense declared (xs ++ ys)
Dense-append declared [] ys d e = subst (λ l. Dense l ys) (append-nil declared) e
Dense-append declared (x ∷ xs) ys (apart, d) e = (
  apart,
  Dense-append (declared ++ x ∷ []) xs ys d
      (subst (λ l. Dense l ys) (sym (append_assoc declared (x ∷ []) xs)) e),
)
