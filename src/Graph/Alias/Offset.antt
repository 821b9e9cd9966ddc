-- ===== src/Graph/Alias/Offset.antt =====
-- alias.go: the offset that `lowestFreeOffset` finds.
use accel.Base.{
  ℕ, ◌+◌, ◌<◌, ◌≤◌, ◌≡◌, refl, ap, inl, inr, ◌⊎◌, max, false, not, ◌&&◌, List, [], ◌∷◌, ltb, leb,
  map, IsIn, IsIn-keep, Bool-cases, arith,
}
use accel.Base.Round.{IsMultiple, div-RoundsUp}
use accel.Base.Sort.{sort, by_key, Sorted, sort-Sorted, IsIn-sort}
use accel.Graph.Reach.{Reach}
use accel.Graph.Alias.{
  Transient, align_up, ByteRange, compatible, first_free, occupied, lo_of, lowest_free_offset,
  span_of_placed, overlap_bytes, put_at,
}

pub align_up_above : (n to : ℕ) → n ≤ align_up n to
unfolding align_up
align_up_above n to = elim (Bool-cases (leb to 1)) [
  | inl y ↦ rw (y, align_up) (omega arith)
  | inr b ↦
      let lt : 1 < to = ground (arith) in
      rw (b, align_up) (div-RoundsUp n to (omega (arith, lt))).above
]

pub align_up-IsMultiple : (n to : ℕ) → 0 < to → IsMultiple to (align_up n to)
unfolding align_up
align_up-IsMultiple n to pos = elim (Bool-cases (leb to 1)) [
  | inl y ↦ let one : to ≡ 1 = ground (arith) in rw (y, align_up) (n, rw one (omega arith))
  | inr b ↦ rw (b, align_up) (div-RoundsUp n to pos).multiple
]

-- The bytes from `at` and the span do not meet.
abbrev pub Clear : ℕ → ℕ → ByteRange → Type 0
Clear at size o = (at + size ≤ o.lo) ⊎ (o.hi ≤ at)

first_free_above :
    (align size : ℕ) (os : List ByteRange) (at : ℕ) → at ≤ first_free align size os at
unfolding first_free
first_free_above align size [] at = omega arith
first_free_above align size (o ∷ os) at =
    let ih = first_free_above align size os (max at (align_up o.hi align)) in
    elim (Bool-cases (leb (at + size) o.lo)) [
      | inl y ↦ rw (y, first_free) (omega arith)
      | inr n ↦ rw (n, first_free) (omega (arith, ih))
    ]

first_free-Clear :
    (align size : ℕ) (os : List ByteRange) (at : ℕ) (o : ByteRange)
    → Sorted lo_of os
    → IsIn o os
    → Clear (first_free align size os at) size o
unfolding first_free
first_free-Clear align size [] at o s i = absurd i
first_free-Clear align size (p ∷ os) at o (lo, s) i =
    let next = max at (align_up p.hi align) in
    let above = first_free_above align size os next in
    let up = align_up_above p.hi align in
    elim (Bool-cases (leb (at + size) p.lo)) [
      | inl y ↦
          let le : at + size ≤ p.lo = ground (arith, y) in
          rw (y, first_free)
            (inl (elim i [
              | inl e ↦ omega (arith, le, ap lo_of e)
              | inr m ↦ omega (arith, le, lo o m)
            ]))
      | inr n ↦
          rw (n, first_free)
            (elim i [
              | inl e ↦ inr (omega (arith, above, up, ap (λ q. q.hi) e))
              | inr m ↦ first_free-Clear align size os next o s m
            ])
    ]

first_free-IsMultiple :
    (align size : ℕ) (os : List ByteRange) (at : ℕ)
    → 0 < align
    → IsMultiple align at
    → IsMultiple align (first_free align size os at)
unfolding first_free
first_free-IsMultiple align size [] at pos m = m
first_free-IsMultiple align size (o ∷ os) at pos m =
    let up = align_up-IsMultiple o.hi align pos in
    let next : IsMultiple align (max at (align_up o.hi align)) = max_multiple at _ m up in
    elim (Bool-cases (leb (at + size) o.lo)) [
      | inl y ↦ rw (y, first_free) m
      | inr n ↦ rw (n, first_free) (first_free-IsMultiple align size os _ pos next)
    ]
  where
    max_multiple : (a b : ℕ) → IsMultiple align a → IsMultiple align b → IsMultiple align (max a b)
    max_multiple a b x y = elim (Bool-cases (leb a b)) [
      | inl le ↦ let e : max a b ≡ b = ground (arith) in rw e y
      | inr gt ↦ let e : max a b ≡ a = ground (arith) in rw e x
    ]

pub lowest_free_offset-IsMultiple :
    (r : Reach) (t : Transient) (placed : List Transient) (align size : ℕ)
    → 0 < align
    → IsMultiple align (lowest_free_offset r t placed align size)
unfolding lowest_free_offset
lowest_free_offset-IsMultiple r t placed align size pos =
    first_free-IsMultiple align size _ 0 pos (0, omega arith)

pub IsIn-map_of :
    {A B : Type 0} (f : A → B) (xs : List A) (a : A) → IsIn a xs → IsIn (f a) (map f xs)
IsIn-map_of f [] a i = absurd i
IsIn-map_of f (x ∷ xs) a (inl e) = inl (ap f e)
IsIn-map_of f (x ∷ xs) a (inr m) = inr (IsIn-map_of f xs a m)

-- Placed there, a transient shares no byte with one that it is not compatible with.
pub lowest_free_offset-Clear :
    (r : Reach) (t u : Transient) (placed : List Transient) (align : ℕ)
    → IsIn u placed
    → compatible r t u ≡ false
    → overlap_bytes u
        (put_at t (lowest_free_offset r t placed align (align_up t.bytes align)))
        align
      ≡ false
unfolding lowest_free_offset overlap_bytes span_of_placed
lowest_free_offset-Clear r t u placed align i c =
    let o = span_of_placed align u in
    let spans = occupied r t placed align in
    let kept = IsIn-keep (λ u. not (compatible r t u)) placed u i (rw c refl) in
    let at = IsIn-sort (by_key lo_of) o spans (IsIn-map_of (span_of_placed align) _ u kept) in
    let clear =
      first_free-Clear align (align_up t.bytes align) (sort (by_key lo_of) spans) 0 o
        (sort-Sorted lo_of spans) at in
    disjoint _ _ _ _ clear
  where
    disjoint :
        (off size lo hi : ℕ)
        → (off + size ≤ lo) ⊎ (hi ≤ off)
        → (ltb lo (off + size) && ltb off hi) ≡ false
    disjoint off size lo hi h = ground (arith)
