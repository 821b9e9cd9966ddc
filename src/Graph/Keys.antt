-- ===== src/Graph/Keys.antt =====
-- infer.go: resources, the keys under which they are looked up, and when two are one.
use accel.Base.{ℕ, ◌≡◌, ◌↔◌, inl, inr, true, none, some, arith, Option, Bool-cases}
use accel.Graph.{Ref, ptr_eq, same_resource, key, ref_eq}

pub ptr_eq_iff : (p q : Option ℕ) → (ptr_eq p q ≡ true) ↔ (p ≡ q)
ptr_eq_iff none none = ground arith
ptr_eq_iff none (some q) = ground arith
ptr_eq_iff (some p) none = ground arith
ptr_eq_iff (some p) (some q) = ground arith

pub ref_eq_iff : (a b : Ref) → (ref_eq a b ≡ true) ↔ (a ≡ b)
unfolding ref_eq
ref_eq_iff a b = ground (arith, ptr_eq_iff a.buf b.buf, ptr_eq_iff a.tex b.tex)

-- One resource has one key.
pub key-eq_of_same : (a b : Ref) → same_resource a b ≡ true → key a ≡ key b
unfolding same_resource key
key-eq_of_same a b h = ground (arith, ptr_eq_iff a.buf b.buf, ptr_eq_iff a.tex b.tex)

pub same_resource_symm : (a b : Ref) → same_resource a b ≡ true → same_resource b a ≡ true
unfolding same_resource
same_resource_symm a b h = ground arith

pub same_resource_trans :
    (a b c : Ref) → same_resource a b ≡ true → same_resource b c ≡ true → same_resource a c ≡ true
unfolding same_resource
same_resource_trans a b c h k = ground (
  arith,
  ptr_eq_iff a.buf b.buf,
  ptr_eq_iff b.buf c.buf,
  ptr_eq_iff a.buf c.buf,
  ptr_eq_iff a.tex b.tex,
  ptr_eq_iff b.tex c.tex,
  ptr_eq_iff a.tex c.tex,
)

pub Ref-discrete : (a b : Ref) → Dec (a ≡ b)
Ref-discrete a b = elim (Bool-cases (ref_eq a b)) [
  | inl y ↦ yes ((ref_eq_iff a b).0 y)
  | inr n ↦ no (λ e. cc ((ref_eq_iff a b).1 e))
]

-- Whatever has the key of a resource is that resource.
pub same_of_key :
    (a b c : Ref) → key a ≡ key b → same_resource b c ≡ true → same_resource a c ≡ true
unfolding same_resource key
same_of_key a b c e h = ground (
  arith,
  ptr_eq_iff b.buf c.buf,
  ptr_eq_iff a.buf c.buf,
  ptr_eq_iff b.tex c.tex,
  ptr_eq_iff a.tex c.tex,
)
