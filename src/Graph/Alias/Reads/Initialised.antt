-- ===== src/Graph/Alias/Reads/Initialised.antt =====
-- alias.go: a graph that `checkTransientsAreWritten` accepts reads no byte that was not written.
use accel.Base.{
  ℕ, ◌+◌, ◌<◌, ◌≤◌, ◌≡◌, refl, sym, ap, subst, inl, inr, Bool, true, false, not, ◌||◌, Option, none,
  some, List, [], ◌∷◌, if◌then◌else◌, get_elem?, IsIn, IsIn-append, Bool-cases, arith,
}
use accel.Graph.{Ref, RangeAccess, RecNode, reads, writes, ptr_eq}
use accel.Graph.Keys.{ptr_eq_iff}
use accel.Graph.Reach.{Reach, reaches}
use accel.Graph.Alias.{ByteRange}
use accel.Graph.Alias.Written.{Holds, GapOf, first_gap_lem}
use accel.Graph.Alias.Reads.{
  range_of, writes_to, accesses_of, written_before, uncovered_read, check_access, or_else,
  check_accesses, check_written,
}

-- An access of node `u` writes byte `x` of the transient.
pub record Writes (nodes : List RecNode) (transient_of : Ref → Option ℕ) (t u x : ℕ) (m : RecNode)
    (w : RangeAccess) : Type 0 where
  pub node : get_elem? nodes u ≡ some m
  pub access : IsIn w m.accesses
  pub target : transient_of w.res ≡ some t
  pub mode : writes w.mode ≡ true
  pub from : w.off ≤ x
  pub to : x < w.off + w.size

module _ (r : Reach) (nodes : List RecNode) (transient_of : Ref → Option ℕ) where
  writes_to-IsIn :
      (t : ℕ) (l : List RangeAccess) (h : ByteRange)
      → IsIn h (writes_to r nodes transient_of t l)
      → (w : RangeAccess) × IsIn w l
        × (transient_of w.res ≡ some t)
        × (writes w.mode ≡ true)
        × (h ≡ range_of w)
  unfolding writes_to
  writes_to-IsIn t [] h i = absurd i
  writes_to-IsIn t (a ∷ l) h i =
      elim (Bool-cases (not (ptr_eq (transient_of a.res) (some t)) || not (writes a.mode))) [
        | inl y ↦
            let (w, m, p, q, e) = writes_to-IsIn t l h (rw (y, writes_to) at i) in
            (w, inr m, p, q, e)
        | inr n ↦ elim (rw (n, writes_to) at i) [
          | inl e ↦
              let same = ptr_eq_iff (transient_of a.res) (some t) in
              (a, inl refl, ground (arith, same), ground arith, e)
          | inr m ↦ let (w, k, p, q, e) = writes_to-IsIn t l h m in (w, inr k, p, q, e)
        ]
      ]

  -- A user that is ordered before node `n` writes the byte.
  abbrev pub Covered : ℕ → List ℕ → ℕ → ℕ → Type 0
  Covered t users n x =
      (u : ℕ) × (m : RecNode) × (w : RangeAccess) × IsIn u users
      × (reaches r u n ≡ true)
      × Writes nodes transient_of t u x m w

  written_at :
      (t u x : ℕ) (o : Option RecNode) (h : ByteRange)
      → get_elem? nodes u ≡ o
      → IsIn h (writes_to r nodes transient_of t (accesses_of r nodes transient_of o))
      → h.lo ≤ x
      → x < h.hi
      → (m : RecNode) × (w : RangeAccess) × Writes nodes transient_of t u x m w
  unfolding writes_to
  written_at t u x none h at i lo hi = absurd i
  written_at t u x (some m) h at i lo hi =
      let (w, k, target, mode, e) = writes_to-IsIn t m.accesses h i in
      (
        m,
        w,
        record {
          node = at;
          access = k;
          target = target;
          mode = mode;
          from = omega (arith, lo, ap (λ q. q.lo) e);
          to = omega (arith, hi, ap (λ q. q.hi) e);
        },
      )

  written_before-Covered :
      (t n : ℕ) (users : List ℕ) (x : ℕ)
      → Holds (written_before r nodes transient_of t n users) x
      → Covered t users n x
  unfolding written_before
  written_before-Covered t n [] x (h, i, lo, hi) = absurd i
  written_before-Covered t n (u ∷ us) x (h, i, lo, hi) = elim (Bool-cases (reaches r u n)) [
    | inr apart ↦
        let (v, m, w, k, o, c) =
          written_before-Covered t n us x (h, rw (apart, written_before) at i, lo, hi) in
        (v, m, w, inr k, o, c)
    | inl ordered ↦
        elim (IsIn-append h _ (written_before r nodes transient_of t n us)
          (rw (ordered, written_before) at i)) [
            | inl here ↦
                let (m, w, k) = written_at t u x (get_elem? nodes u) h refl here lo hi in
                (u, m, w, inl refl, ordered, k)
            | inr later ↦
                let (v, m, w, k, o, c) = written_before-Covered t n us x (h, later, lo, hi) in
                (v, m, w, inr k, o, c)
          ]
  ]

  uncovered_read-Covered :
      (t : ℕ) (users : List ℕ) (n : ℕ) (a : RangeAccess) (x : ℕ)
      → uncovered_read r nodes transient_of t users n a ≡ none
      → a.off ≤ x
      → x < a.off + a.size
      → Covered t users n x
  unfolding uncovered_read
  uncovered_read-Covered t users n a x e lo hi =
      let have = written_before r nodes transient_of t n users in
      let all = subst (GapOf (range_of a) have) e (first_gap_lem (range_of a) have) in
      written_before-Covered t n users x (all x lo hi)

  module _ (users : ℕ → List ℕ) where
    or_else-none :
        (a b : Option ByteRange)
        → or_else r nodes transient_of users a b ≡ none
        → (a ≡ none) × (b ≡ none)
    or_else-none none b e = (refl, e)
    or_else-none (some g) b e = cc

    check_accesses-none :
        (n : ℕ) (l : List RangeAccess) (a : RangeAccess)
        → check_accesses r nodes transient_of users n l ≡ none
        → IsIn a l
        → check_access r nodes transient_of users n a (transient_of a.res) ≡ none
    unfolding check_accesses
    check_accesses-none n [] a e i = absurd i
    check_accesses-none n (b ∷ l) a e i =
        let (first, rest) =
          or_else-none (check_access r nodes transient_of users n b (transient_of b.res)) _ e in
        elim i [
          | inl p ↦
              subst (λ q. check_access r nodes transient_of users n q (transient_of q.res) ≡ none)
                (sym p) first
          | inr m ↦ check_accesses-none n l a rest m
        ]

    check_written-none :
        (l : List RecNode) (n : RecNode)
        → check_written r nodes transient_of users l ≡ none
        → IsIn n l
        → check_accesses r nodes transient_of users n.id n.accesses ≡ none
    unfolding check_written
    check_written-none [] n e i = absurd i
    check_written-none (m ∷ l) n e i =
        let (first, rest) =
          or_else-none (check_accesses r nodes transient_of users m.id m.accesses) _ e in
        elim i [
          | inl p ↦
              subst (λ q. check_accesses r nodes transient_of users q.id q.accesses ≡ none) (sym p)
                first
          | inr k ↦ check_written-none l n rest k
        ]

    check_access-none :
        (n t : ℕ) (a : RangeAccess)
        → reads a.mode ≡ true
        → check_access r nodes transient_of users n a (some t) ≡ none
        → uncovered_read r nodes transient_of t (users t) n a ≡ none
    unfolding check_access
    check_access-none n t a h e = chosen (reads a.mode) h e
      where
        chosen :
            (c : Bool)
            → c ≡ true
            → (if not c then none else uncovered_read r nodes transient_of t (users t) n a) ≡ none
            → uncovered_read r nodes transient_of t (users t) n a ≡ none
        chosen true h e = e
        chosen false h e = cc

    -- In a graph that is accepted, every byte of a transient that a node reads is written by an access
    -- of a user of the transient that reachability orders before that node.
    pub check_written_lem :
        (n : RecNode) (a : RangeAccess) (t x : ℕ)
        → check_written r nodes transient_of users nodes ≡ none
        → IsIn n nodes
        → IsIn a n.accesses
        → transient_of a.res ≡ some t
        → reads a.mode ≡ true
        → a.off ≤ x
        → x < a.off + a.size
        → Covered t (users t) n.id x
    check_written_lem n a t x e i k at h lo hi =
        let one = check_accesses-none n.id n.accesses a (check_written-none nodes n e i) k in
        let one' = subst (λ o. check_access r nodes transient_of users n.id a o ≡ none) at one in
        uncovered_read-Covered t (users t) n.id a x (check_access-none n.id t a h one') lo hi
