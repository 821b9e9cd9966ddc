-- ===== src/Base/Member.antt =====
-- Membership with the place kept: a sum by recursion, which the tactics take apart.
use Prim.Native.Nat.{ℕ, zero, suc, ◌<◌}
use mathlib.Core.Path.{◌≡◌, refl, ap}
use mathlib.Core.Logic.{◌≢◌, ◌⊎◌, inl, inr}
use mathlib.Core.Bool.{Bool, true, false}
use mathlib.Core.List.{List, [], ◌∷◌, ◌++◌, map}
use mathlib.Core.Option.{some}
use native.Mathlib.Omega.{arith}
use accel.Base.Tests.{◌==◌, if◌then◌else◌, Bool-cases}
use accel.Base.Lists.{get_elem?, get_or, set, length}

module _ {A : Type 0} where
  abbrev pub IsIn : A → List A → Type 0
  IsIn a [] = ⊥
  IsIn a (x ∷ xs) = (a ≡ x) ⊎ IsIn a xs

  pub IsIn-append_left : (a : A) (xs ys : List A) → IsIn a xs → IsIn a (xs ++ ys)
  IsIn-append_left a [] ys h = absurd h
  IsIn-append_left a (x ∷ xs) ys (inl e) = inl e
  IsIn-append_left a (x ∷ xs) ys (inr h) = inr (IsIn-append_left a xs ys h)

  pub IsIn-append_right : (a : A) (xs ys : List A) → IsIn a ys → IsIn a (xs ++ ys)
  IsIn-append_right a [] ys h = h
  IsIn-append_right a (x ∷ xs) ys h = inr (IsIn-append_right a xs ys h)

  pub IsIn-append : (a : A) (xs ys : List A) → IsIn a (xs ++ ys) → IsIn a xs ⊎ IsIn a ys
  IsIn-append a [] ys h = inr h
  IsIn-append a (x ∷ xs) ys (inl e) = inl (inl e)
  IsIn-append a (x ∷ xs) ys (inr h) = elim (IsIn-append a xs ys h) [
    | inl l ↦ inl (inr l)
    | inr r ↦ inr r
  ]

  pub IsIn-get_elem? : (xs : List A) (i : ℕ) (a : A) → get_elem? xs i ≡ some a → IsIn a xs
  IsIn-get_elem? [] i a h = cc
  IsIn-get_elem? (x ∷ xs) zero a h = inl (cc)
  IsIn-get_elem? (x ∷ xs) (suc i) a h = inr (IsIn-get_elem? xs i a h)

  -- A loop that keeps what passes a test.
  abbrev pub keep : (A → Bool) → List A → List A
  keep p [] = []
  keep p (x ∷ xs) = let rest = keep p xs in if p x then x ∷ rest else rest

  pub IsIn-keep : (p : A → Bool) (xs : List A) (a : A) → IsIn a xs → p a ≡ true → IsIn a (keep p xs)
  IsIn-keep p [] a h t = absurd h
  IsIn-keep p (x ∷ xs) a (inl e) t = let px : p x ≡ true = rw (← e) t in rw (px, keep) (inl e)
  IsIn-keep p (x ∷ xs) a (inr h) t = elim (Bool-cases (p x)) [
    | inl y ↦ rw (y, keep) (inr (IsIn-keep p xs a h t))
    | inr n ↦ rw (n, keep) (IsIn-keep p xs a h t)
  ]

  pub keep-IsIn :
      (p : A → Bool) (xs : List A) (a : A) → IsIn a (keep p xs) → IsIn a xs × (p a ≡ true)
  keep-IsIn p [] a h = absurd h
  keep-IsIn p (x ∷ xs) a h = elim (Bool-cases (p x)) [
    | inl y ↦ elim (rw (y, keep) at h) [
      | inl e ↦ (inl e, rw e y)
      | inr m ↦ let (i, t) = keep-IsIn p xs a m in (inr i, t)
    ]
    | inr n ↦ let (i, t) = keep-IsIn p xs a (rw (n, keep) at h) in (inr i, t)
  ]

-- A membership test on numbers.
abbrev pub contains : List ℕ → ℕ → Bool
contains [] a = false
contains (x ∷ xs) a = if x == a then true else contains xs a

pub contains-IsIn : (xs : List ℕ) (a : ℕ) → contains xs a ≡ true → IsIn a xs
contains-IsIn [] a h = cc
contains-IsIn (x ∷ xs) a h = ground (arith, contains-IsIn xs a)

pub IsIn-map :
    {A B : Type 0} (f : A → B) (xs : List A) (b : B)
    → IsIn b (map f xs)
    → (a : A) × IsIn a xs × (b ≡ f a)
IsIn-map f [] b h = absurd h
IsIn-map f (x ∷ xs) b (inl e) = (x, inl refl, e)
IsIn-map f (x ∷ xs) b (inr h) = let (a, m, e) = IsIn-map f xs b h in (a, inr m, e)

-- Reads of a row that was written, and of the others.
pub get_or-set_self :
    {A : Type 0} (xs : List A) (i : ℕ) (v d : A) → i < length xs → get_or (set xs i v) i d ≡ v
get_or-set_self [] i v d h = absurd (omega arith)
get_or-set_self (x ∷ xs) zero v d h = refl
get_or-set_self (x ∷ xs) (suc i) v d h = get_or-set_self xs i v d (omega arith)

pub get_or-set_ne :
    {A : Type 0} (xs : List A) (i j : ℕ) (v d : A) → i ≢ j → get_or (set xs i v) j d ≡ get_or xs j d
get_or-set_ne [] i j v d h = refl
get_or-set_ne (x ∷ xs) zero zero v d h = absurd (h refl)
get_or-set_ne (x ∷ xs) zero (suc j) v d h = refl
get_or-set_ne (x ∷ xs) (suc i) zero v d h = refl
get_or-set_ne (x ∷ xs) (suc i) (suc j) v d h = get_or-set_ne xs i j v d (λ e. h (ap suc e))
