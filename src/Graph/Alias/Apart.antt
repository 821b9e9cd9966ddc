-- ===== src/Graph/Alias/Apart.antt =====
-- alias.go: `packTransients` and the order of the users of transients that share bytes.
use accel.Base.{
  ℕ, zero, suc, ◌<◌, ◌≡◌, refl, sym, inl, inr, ◌⊎◌, true, false, some, List, [], ◌∷◌, ◌++◌, IsIn,
  IsIn-append, IsIn-get_elem?, get_elem?, Bool-cases, arith, subst,
}
use accel.Base.Sort.{sort}
use accel.Graph.Reach.{Reach, reaches}
use accel.Graph.Alias.{
  Transient, align_up, before_all, all_before, compatible, lowest_free_offset, packs_before, Packed,
  put_at, place_all, pack_transients, overlap_bytes,
}
use accel.Graph.Alias.Offset.{lowest_free_offset-Clear}

-- Every node that uses the one runs before every node that uses the other.
abbrev pub AllOrdered : Reach → Transient → Transient → Type 0
AllOrdered r t u = (a b : ℕ) → IsIn a t.users → IsIn b u.users → reaches r a b ≡ true

before_all-reaches :
    (r : Reach) (a : ℕ) (bs : List ℕ) (b : ℕ)
    → before_all r a bs ≡ true
    → IsIn b bs
    → reaches r a b ≡ true
unfolding before_all
before_all-reaches r a [] b h i = absurd i
before_all-reaches r a (x ∷ bs) b h i = elim (Bool-cases (reaches r a x)) [
  | inl y ↦ elim i [
    | inl e ↦ rw e y
    | inr m ↦ before_all-reaches r a bs b (rw (y, before_all) at h) m
  ]
  | inr n ↦ cc (rw (n, before_all) at h)
]

all_before-reaches :
    (r : Reach) (as' bs : List ℕ) (a b : ℕ)
    → all_before r as' bs ≡ true
    → IsIn a as'
    → IsIn b bs
    → reaches r a b ≡ true
unfolding all_before
all_before-reaches r [] bs a b h i j = absurd i
all_before-reaches r (x ∷ as') bs a b h i j = elim (Bool-cases (before_all r x bs)) [
  | inl y ↦ elim i [
    | inl e ↦ before_all-reaches r a bs b (rw e y) j
    | inr m ↦ all_before-reaches r as' bs a b (rw (y, all_before) at h) m j
  ]
  | inr n ↦ cc (rw (n, all_before) at h)
]

compatible-AllOrdered :
    (r : Reach) (t u : Transient) → compatible r t u ≡ true → AllOrdered r t u ⊎ AllOrdered r u t
unfolding compatible
compatible-AllOrdered r t u h = elim (Bool-cases (all_before r t.users u.users)) [
  | inl y ↦ inl (λ a b. all_before-reaches r t.users u.users a b y)
  | inr n ↦ inr (λ a b. all_before-reaches r u.users t.users a b (other n))
]
  where
    other : all_before r t.users u.users ≡ false → all_before r u.users t.users ≡ true
    other n = ground (arith, n, h)

-- Of two of the list, the earlier is related to the later.
abbrev Pairwise : (Transient → Transient → Type 0) → List Transient → Type 0
Pairwise R [] = Unit
Pairwise R (x ∷ xs) = ((y : Transient) → IsIn y xs → R x y) × Pairwise R xs

Pairwise-append_one :
    (R : Transient → Transient → Type 0) (xs : List Transient) (t : Transient)
    → Pairwise R xs
    → ((y : Transient) → IsIn y xs → R y t)
    → Pairwise R (xs ++ t ∷ [])
Pairwise-append_one R [] t p h = ((λ y i. absurd i), _)
Pairwise-append_one R (x ∷ xs) t (lo, p) h = (
  (λ y i. elim (IsIn-append y xs (t ∷ []) i) [
    | inl m ↦ lo y m
    | inr (inl e) ↦ subst (R x) (sym e) (h x (inl refl))
    | inr (inr void) ↦ absurd void
  ]),
  Pairwise-append_one R xs t p (λ y i. h y (inr i)),
)

Pairwise-at :
    (R : Transient → Transient → Type 0) (xs : List Transient) (i j : ℕ) (t u : Transient)
    → Pairwise R xs
    → i < j
    → get_elem? xs i ≡ some t
    → get_elem? xs j ≡ some u
    → R t u
Pairwise-at R [] i j t u p lt ei ej = cc
Pairwise-at R (x ∷ xs) i zero t u p lt ei ej = absurd (omega (arith, lt))
Pairwise-at R (x ∷ xs) zero (suc j) t u (lo, p) lt ei ej =
    let same : x ≡ t = cc in subst (λ q. R q u) same (lo u (IsIn-get_elem? xs j u ej))
Pairwise-at R (x ∷ xs) (suc i) (suc j) t u (lo, p) lt ei ej =
    Pairwise-at R xs i j t u p (omega (arith, lt)) ei ej

-- Two placed transients that share a byte are ordered.
abbrev Disjoint : Reach → ℕ → Transient → Transient → Type 0
Disjoint r align u t = overlap_bytes u t align ≡ true → AllOrdered r t u ⊎ AllOrdered r u t

place_all-Pairwise :
    (r : Reach) (align : ℕ) (order : List Transient) (p : Packed)
    → Pairwise (Disjoint r align) p.placed
    → Pairwise (Disjoint r align) (place_all r align order p).placed
unfolding place_all
place_all-Pairwise r align [] p h = h
place_all-Pairwise r align (t ∷ order) p h =
    place_all-Pairwise r align order _ (Pairwise-append_one (Disjoint r align) p.placed _ h apart)
  where
    off : ℕ
    off = lowest_free_offset r t p.placed align (align_up t.bytes align)

    apart : (u : Transient) → IsIn u p.placed → Disjoint r align u (put_at t off)
    apart u i meets = elim (Bool-cases (compatible r t u)) [
      | inl y ↦ compatible-AllOrdered r t u y
      | inr n ↦ cc (lowest_free_offset-Clear r t u p.placed align i n)
    ]

-- Of two packed transients that share a byte of the pool, every user of the one is ordered before
-- every user of the other.
pub pack_transients_ordered :
    (r : Reach) (align : ℕ) (ts : List Transient) (i j : ℕ) (t u : Transient)
    → i < j
    → get_elem? (pack_transients r align ts).placed i ≡ some t
    → get_elem? (pack_transients r align ts).placed j ≡ some u
    → overlap_bytes t u align ≡ true
    → AllOrdered r u t ⊎ AllOrdered r t u
unfolding pack_transients
pack_transients_ordered r align ts i j t u lt ei ej =
    Pairwise-at (Disjoint r align) _ i j t u
      (place_all-Pairwise r align (sort packs_before ts) (record { placed = []; total = 0 }) _) lt
      ei ej
