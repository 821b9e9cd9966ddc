-- ===== src/Graph/Alias/Written.antt =====
-- alias.go: `firstGap`.
use accel.Base.{
  ℕ, suc, ◌<◌, ◌≤◌, ◌≡◌, refl, ap, inl, inr, Option, none, some, List, [], ◌∷◌, ltb, leb, IsIn,
  Bool-cases, arith, max,
}
use native.Mathlib.Decide.{dec_le}
use accel.Base.Sort.{sort, by_key, Sorted, sort-Sorted, sort-IsIn, IsIn-sort}
use accel.Graph.Alias.{ByteRange, lo_of, reach_from, first_gap}

-- One of the ranges has the byte.
abbrev pub Holds : List ByteRange → ℕ → Type 0
Holds have x = (h : ByteRange) × IsIn h have × (h.lo ≤ x) × (x < h.hi)

Holds-cons : (h : ByteRange) (have : List ByteRange) (x : ℕ) → Holds have x → Holds (h ∷ have) x
Holds-cons h have x (g, i, l, u) = (g, inr i, l, u)

reach_from_above : (hi : ℕ) (os : List ByteRange) (at : ℕ) → at ≤ reach_from hi os at
unfolding reach_from
reach_from_above hi [] at = omega arith
reach_from_above hi (h ∷ os) at =
    let ih = reach_from_above hi os (max at h.hi) in ground (arith, ih)

-- What lies before the stop is held.
reach_from-Holds :
    (hi : ℕ) (os : List ByteRange) (at x : ℕ) → at ≤ x → x < reach_from hi os at → Holds os x
unfolding reach_from
reach_from-Holds hi [] at x le lt = absurd (omega (arith, le, lt))
reach_from-Holds hi (h ∷ os) at x le lt = elim (Bool-cases (ltb at h.lo)) [
  | inl y ↦ let c : x < at = rw (y, reach_from) at lt in absurd (omega (arith, le, c))
  | inr n ↦
      let lo : h.lo ≤ at = ground (arith, n) in
      elim (dec_le (suc x) (max at h.hi)) [
        | yes inside ↦ (h, inl refl, omega (arith, lo, le), omega (arith, inside, le))
        | no out ↦ elim (Bool-cases (leb hi (max at h.hi))) [
          | inl q ↦
              let c : x < max at h.hi = rw (n, q, reach_from) at lt in
              absurd (omega (arith, out, c))
          | inr q ↦
              let c : x < reach_from hi os (max at h.hi) = rw (n, q, reach_from) at lt in
              Holds-cons h os x (reach_from-Holds hi os (max at h.hi) x (omega (arith, out)) c)
        ]
      ]
]

-- Where the walk stops before the end, no range goes on.
reach_from_stops :
    (hi : ℕ) (os : List ByteRange) (at : ℕ) (g : ByteRange)
    → Sorted lo_of os
    → reach_from hi os at < hi
    → IsIn g os
    → g.lo ≤ reach_from hi os at
    → g.hi ≤ reach_from hi os at
unfolding reach_from
reach_from_stops hi [] at g s lt i le = absurd i
reach_from_stops hi (h ∷ os) at g (lo, s) lt i le = elim (Bool-cases (ltb at h.lo)) [
  | inl y ↦
      let first : at < h.lo = ground (arith, y) in
      let c : g.lo ≤ at = rw (y, reach_from) at le in
      elim i [
        | inl e ↦ absurd (omega (arith, first, c, ap lo_of e))
        | inr m ↦ absurd (omega (arith, first, c, lo g m))
      ]
  | inr n ↦ elim (Bool-cases (leb hi (max at h.hi))) [
    | inl q ↦
        let c : max at h.hi < hi = rw (n, q, reach_from) at lt in absurd (ground (arith, q, c))
    | inr q ↦
        let above = reach_from_above hi os (max at h.hi) in
        rw (n, q, reach_from)
          (elim i [
            | inl e ↦ omega (arith, above, ap (λ r. r.hi) e)
            | inr m ↦
                reach_from_stops hi os (max at h.hi) g s (rw (n, q, reach_from) at lt) m
                  (rw (n, q, reach_from) at le)
          ])
  ]
]

-- The gap starts inside what is wanted, at a byte that no range holds, after bytes that all are
-- held.
pub record IsFirstGap (want gap : ByteRange) (have : List ByteRange) : Type 0 where
  pub inside : want.lo ≤ gap.lo
  pub short : gap.lo < gap.hi
  pub to_end : gap.hi ≡ want.hi
  pub before : (x : ℕ) → want.lo ≤ x → x < gap.lo → Holds have x
  pub missing : Holds have gap.lo → ⊥

abbrev pub GapOf : ByteRange → List ByteRange → Option ByteRange → Type 0
GapOf want have none = (x : ℕ) → want.lo ≤ x → x < want.hi → Holds have x
GapOf want have (some gap) = IsFirstGap want gap have

-- Where there is no gap, the ranges hold every byte that is wanted; otherwise the gap is the first.
pub first_gap_lem :
    (want : ByteRange) (have : List ByteRange) → GapOf want have (first_gap want have)
unfolding first_gap
first_gap_lem want have = elim (Bool-cases (leb want.hi stop)) [
  | inl y ↦
      let le : want.hi ≤ stop = ground (arith, y) in
      rw (y, first_gap) (λ x l u. held x l (omega (arith, le, u)))
  | inr n ↦
      let lt : stop < want.hi = ground (arith, n) in
      rw (n, first_gap)
        (record {
          inside = reach_from_above want.hi sorted want.lo;
          short = lt;
          to_end = refl;
          before = held;
          missing = λ h. gap_free lt h;
        })
]
  where
    sorted : List ByteRange
    sorted = sort (by_key lo_of) have

    stop : ℕ
    stop = reach_from want.hi sorted want.lo

    held : (x : ℕ) → want.lo ≤ x → x < stop → Holds have x
    held x l u =
        let (h, i, b, c) = reach_from-Holds want.hi sorted want.lo x l u in
        (h, sort-IsIn (by_key lo_of) h have i, b, c)

    gap_free : stop < want.hi → Holds have stop → ⊥
    gap_free lt (h, i, b, c) =
        let at = IsIn-sort (by_key lo_of) h have i in
        let ends = reach_from_stops want.hi sorted want.lo h (sort-Sorted lo_of have) lt at b in
        omega (arith, c, ends)
