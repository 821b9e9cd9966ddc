-- ===== src/Base/Sort.antt =====
-- A stable sort by a numeric key.
use Prim.Native.Nat.{ℕ, ◌<◌, ◌≤◌}
use mathlib.Core.Path.{◌≡◌, ap}
use mathlib.Core.Logic.{◌⊎◌, inl, inr}
use mathlib.Core.Bool.{Bool}
use mathlib.Core.List.{List, [], ◌∷◌}
use native.Mathlib.Omega.{arith}
use accel.Base.Tests.{ltb, if◌then◌else◌, Bool-cases}
use accel.Base.Member.{IsIn}

module _ {A : Type 0} (less : A → A → Bool) where
  -- Before the first element that is not less.
  unfoldable pub insert : A → List A → List A
  insert x [] = x ∷ []
  insert x (y ∷ ys) = let rest = insert x ys in if less y x then y ∷ rest else x ∷ y ∷ ys

  unfoldable pub sort : List A → List A
  sort [] = []
  sort (x ∷ xs) = insert x (sort xs)

  insert-IsIn : (x a : A) (ys : List A) → IsIn a (insert x ys) → (a ≡ x) ⊎ IsIn a ys
  unfolding insert
  insert-IsIn x a [] i = i
  insert-IsIn x a (y ∷ ys) i = elim (Bool-cases (less y x)) [
    | inl t ↦ elim (rw (t, insert) at i) [
      | inl e ↦ inr (inl e)
      | inr m ↦ elim (insert-IsIn x a ys m) [ inl e ↦ inl e | inr k ↦ inr (inr k) ]
    ]
    | inr f ↦ rw (f, insert) at i
  ]

  IsIn-insert : (x a : A) (ys : List A) → (a ≡ x) ⊎ IsIn a ys → IsIn a (insert x ys)
  unfolding insert
  IsIn-insert x a [] i = i
  IsIn-insert x a (y ∷ ys) i = elim (Bool-cases (less y x)) [
    | inl t ↦
        rw (t, insert)
          (elim i [
            | inl e ↦ inr (IsIn-insert x a ys (inl e))
            | inr (inl e) ↦ inl e
            | inr (inr m) ↦ inr (IsIn-insert x a ys (inr m))
          ])
    | inr f ↦ rw (f, insert) i
  ]

  pub sort-IsIn : (a : A) (xs : List A) → IsIn a (sort xs) → IsIn a xs
  unfolding sort
  sort-IsIn a [] i = i
  sort-IsIn a (x ∷ xs) i = elim (insert-IsIn x a (sort xs) i) [
    | inl e ↦ inl e
    | inr m ↦ inr (sort-IsIn a xs m)
  ]

  pub IsIn-sort : (a : A) (xs : List A) → IsIn a xs → IsIn a (sort xs)
  unfolding sort
  IsIn-sort a [] i = i
  IsIn-sort a (x ∷ xs) (inl e) = IsIn-insert x a (sort xs) (inl e)
  IsIn-sort a (x ∷ xs) (inr m) = IsIn-insert x a (sort xs) (inr (IsIn-sort a xs m))

-- No later element has a smaller key.
abbrev pub Sorted : {A : Type 0} → (A → ℕ) → List A → Type 0
Sorted f [] = Unit
Sorted f (x ∷ xs) = ((y : _) → IsIn y xs → f x ≤ f y) × Sorted f xs

module _ {A : Type 0} (f : A → ℕ) where
  abbrev pub by_key : A → A → Bool
  by_key a b = ltb (f a) (f b)

  insert-Sorted : (x : A) (ys : List A) → Sorted f ys → Sorted f (insert by_key x ys)
  unfolding insert
  insert-Sorted x [] s = ((λ y i. absurd i), _)
  insert-Sorted x (y ∷ ys) (lo, s) = elim (Bool-cases (ltb (f y) (f x))) [
    | inl t ↦
        let lt : f y < f x = ground (arith, t) in
        rw (t, insert)
          (
            (λ z i. elim (insert-IsIn by_key x z ys i) [
              | inl e ↦ ground (arith, ap f e)
              | inr m ↦ lo z m
            ]),
            insert-Sorted x ys s,
          )
    | inr n ↦
        let le : f x ≤ f y = ground (arith) in
        rw (n, insert)
          (
            (λ z i. elim i [ inl e ↦ ground (arith, ap f e) | inr m ↦ ground (arith, lo z m) ]),
            (lo, s),
          )
  ]

  pub sort-Sorted : (xs : List A) → Sorted f (sort by_key xs)
  unfolding sort
  sort-Sorted [] = _
  sort-Sorted (x ∷ xs) = insert-Sorted x (sort by_key xs) (sort-Sorted xs)
