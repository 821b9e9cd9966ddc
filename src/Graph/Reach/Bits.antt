-- ===== src/Graph/Reach/Bits.antt =====
-- infer.go: the rows of the reachability table as sets of nodes.
use accel.Base.{
  ℕ, zero, suc, ◌/◌, ◌%◌, ◌^◌, ◌<◌, ◌≡◌, refl, sym, ◌∙◌, ap, inl, inr, ◌⊎◌, ◌↔◌, List, [], ◌∷◌,
  arith, bit_or, get_or, set, length, length-set, get_or-set_self, get_or-set_ne, subst, IsIn,
}
use native.Mathlib.Decide.{ℕ_discrete}
use accel.Base.Words.{bit, bit-or, bit-le-one, bit-pow_self, bit-pow_ne}
use accel.Graph.Infer.{row}
use accel.Graph.Reach.{mark, union, fill}

-- Node `b` is in the set.
abbrev pub HasBit : List ℕ → ℕ → Type 0
HasBit r b = bit (get_or r (b / 64) 0) (b % 64) ≡ 1

or_one : (x y k : ℕ) → (bit (bit_or x y) k ≡ 1) ↔ ((bit x k ≡ 1) ⊎ (bit y k ≡ 1))
or_one x y k = ground (arith, bit-or x y k, bit-le-one x k, bit-le-one y k)

pow_one : (j k : ℕ) → (bit (2 ^ j) k ≡ 1) ↔ (k ≡ j)
pow_one j k = elim (ℕ_discrete j k) [
  | yes e ↦ (λ _. sym e, λ _. rw e (bit-pow_self k))
  | no ne ↦ (λ h. absurd (omega (arith, bit-pow_ne j k ne)), λ e. absurd (ne (sym e)))
]

pub length-mark : (r : List ℕ) (to : ℕ) → length (mark r to) ≡ length r
unfolding mark
length-mark r to = length-set r (to / 64) (bit_or (get_or r (to / 64) 0) (2 ^ (to % 64)))

pub mark-HasBit :
    (r : List ℕ) (to b : ℕ) → to / 64 < length r → HasBit (mark r to) b ↔ (HasBit r b ⊎ (b ≡ to))
unfolding mark
mark-HasBit r to b lt =
    let word = get_or r (to / 64) 0 in
    let new = bit_or word (2 ^ (to % 64)) in
    elim (ℕ_discrete (to / 64) (b / 64)) [
      | no ne ↦
          let same = get_or-set_ne r (to / 64) (b / 64) new 0 ne in
          let has = λ (x : ℕ). bit x (b % 64) ≡ 1 in
          (
            λ h. inl (subst has same h),
            λ h. elim h [
              | inl old ↦ subst has (sym same) old
              | inr e ↦ absurd (ne (ap (λ x. x / 64) (sym e)))
            ],
          )
      | yes e ↦
          let at : get_or (set r (to / 64) new) (b / 64) 0 ≡ new =
            subst (λ k. get_or (set r (to / 64) new) k 0 ≡ new) e
              (get_or-set_self r (to / 64) new 0 lt) in
          let was : word ≡ get_or r (b / 64) 0 = ap (λ k. get_or r k 0) e in
          let has = λ (x : ℕ). bit x (b % 64) ≡ 1 in
          let o = or_one word (2 ^ (to % 64)) (b % 64) in
          let p = pow_one (to % 64) (b % 64) in
          (
            λ h. elim (o.0 (subst has at h)) [
              | inl old ↦ inl (subst has was old)
              | inr this ↦ inr (omega (arith, p.0 this))
            ],
            λ h. subst has (sym at) (
                o.1 (elim h [
                  | inl old ↦ inl (subst has (sym was) old)
                  | inr q ↦ inr (p.1 (ap (λ x. x % 64) q))
                ])),
          )
    ]

pub length-union : (r o : List ℕ) → length (union r o) ≡ length r
unfolding union
length-union [] o = refl
length-union (x ∷ r) [] = refl
length-union (x ∷ r) (y ∷ o) = ap suc (length-union r o)

get_or-union :
    (r o : List ℕ) (k : ℕ)
    → length r ≡ length o
    → (j : ℕ)
    → (bit (get_or (union r o) k 0) j ≡ 1)
      ↔ ((bit (get_or r k 0) j ≡ 1) ⊎ (bit (get_or o k 0) j ≡ 1))
unfolding union
get_or-union [] [] k e j = (inl, λ h. elim h [ inl x ↦ x | inr x ↦ x ])
get_or-union [] (y ∷ o) k e j = absurd (omega arith)
get_or-union (x ∷ r) [] k e j = absurd (omega arith)
get_or-union (x ∷ r) (y ∷ o) zero e j = or_one x y j
get_or-union (x ∷ r) (y ∷ o) (suc k) e j = get_or-union r o k (omega arith) j

pub union-HasBit :
    (r o : List ℕ) (b : ℕ) → length r ≡ length o → HasBit (union r o) b ↔ (HasBit r b ⊎ HasBit o b)
union-HasBit r o b e = get_or-union r o (b / 64) e (b % 64)

pub length-fill : (t : List (List ℕ)) (r ts : List ℕ) → length (fill t r ts) ≡ length r
unfolding fill
length-fill t r [] = refl
length-fill t r (to ∷ ts) =
    length-fill t (union (mark r to) (row t to)) ts
    ∙ length-union (mark r to) (row t to)
    ∙ length-mark r to

-- The successors, and what they reach.
pub record Through (t : List (List ℕ)) (ts : List ℕ) (b to : ℕ) : Type 0 where
  pub successor : IsIn to ts
  pub reached : (b ≡ to) ⊎ HasBit (row t to) b

Through-later :
    (t : List (List ℕ)) (x : ℕ) (ts : List ℕ) (b : ℕ)
    → (to : ℕ) × Through t ts b to
    → (to : ℕ) × Through t (x ∷ ts) b to
Through-later t x ts b (to, h) = (to, record { successor = inr h.successor; reached = h.reached })

-- Every successor has a place in the row, and a row of its own.
abbrev pub Fits : List (List ℕ) → ℕ → List ℕ → Type 0
Fits t words ts = (to : ℕ) → IsIn to ts → (to / 64 < words) × (length (row t to) ≡ words)

module _ (t : List (List ℕ)) (words b : ℕ) where
  merged_lengths :
      (r : List ℕ) (x : ℕ)
      → length r ≡ words
      → length (row t x) ≡ words
      → (length (mark r x) ≡ length (row t x)) × (length (union (mark r x) (row t x)) ≡ words)
  merged_lengths r x len f =
      (length-mark r x ∙ len ∙ sym f, length-union (mark r x) (row t x) ∙ length-mark r x ∙ len)

  pub fill-HasBit :
      (ts r : List ℕ)
      → length r ≡ words
      → Fits t words ts
      → HasBit (fill t r ts) b
      → HasBit r b ⊎ ((to : ℕ) × Through t ts b to)
  unfolding fill
  fill-HasBit [] r len fits h = inl h
  fill-HasBit (x ∷ ts) r len fits h =
      let m = mark r x in
      let f = fits x (inl refl) in
      let (same, wide) = merged_lengths r x len f.1 in
      elim (fill-HasBit ts (union m (row t x)) wide (λ to i. fits to (inr i)) h) [
        | inr q ↦ inr (Through-later t x ts b q)
        | inl u ↦ elim ((union-HasBit m (row t x) b same).0 u) [
          | inr o ↦ inr (x, record { successor = inl refl; reached = inr o })
          | inl k ↦ elim ((mark-HasBit r x b (omega (arith, f.0))).0 k) [
            | inl old ↦ inl old
            | inr e ↦ inr (x, record { successor = inl refl; reached = inl e })
          ]
        ]
      ]

  fill_keeps :
      (ts r : List ℕ) → length r ≡ words → Fits t words ts → HasBit r b → HasBit (fill t r ts) b
  unfolding fill
  fill_keeps [] r len fits h = h
  fill_keeps (x ∷ ts) r len fits h =
      let m = mark r x in
      let f = fits x (inl refl) in
      let (same, wide) = merged_lengths r x len f.1 in
      fill_keeps ts (union m (row t x)) wide (λ to i. fits to (inr i))
        ((union-HasBit m (row t x) b same).1
          (inl ((mark-HasBit r x b (omega (arith, f.0))).1 (inl h))))

  pub fill_reaches :
      (ts r : List ℕ) (to : ℕ)
      → length r ≡ words
      → Fits t words ts
      → Through t ts b to
      → HasBit (fill t r ts) b
  unfolding fill
  fill_reaches [] r to len fits q = absurd (q.successor)
  fill_reaches (x ∷ ts) r to len fits q =
      let m = mark r x in
      let f = fits x (inl refl) in
      let (same, wide) = merged_lengths r x len f.1 in
      elim (q.successor) [
        | inr i ↦
            fill_reaches ts (union m (row t x)) to wide (λ y j. fits y (inr j))
              (record { successor = i; reached = q.reached })
        | inl e ↦
            fill_keeps ts (union m (row t x)) wide (λ y j. fits y (inr j))
              ((union-HasBit m (row t x) b same).1 (elim (q.reached) [
                | inr o ↦ inr (subst (λ y. HasBit (row t y) b) e o)
                | inl p ↦ inl ((mark-HasBit r x b (omega (arith, f.0))).1 (inr (p ∙ e)))
              ]))
      ]
