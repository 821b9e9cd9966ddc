-- ===== src/Graph/Barrier/Ranges.antt =====
-- barrier.go: what the ranges pending on a resource make a later access need.
use Prim.Native.String.{String}
use accel.Base.{
  ℕ, ◌≡◌, ◌≢◌, refl, inl, inr, ◌⊎◌, Bool, true, false, not, Option, List, [], ◌∷◌, ◌&&◌, arith,
  IsIn, subst, if◌then◌else◌,
}
use accel.Graph.{war, Ref, Access, AccessSpan, reads, writes, overlaps, key}
use accel.Graph.RefMap.{find_state}
use accel.Graph.Barrier.{
  Barrier, RangeState, Ranges, is_none, need, need_readers, check_range, check_ranges,
  ranges_or_none, check_spans,
}

need_readers_keeps :
    (rs : List ℕ) (o : Option Barrier) (src dst : ℕ) (l : String)
    → is_none o ≡ false
    → is_none (need_readers o rs src dst l) ≡ false
unfolding need_readers need
need_readers_keeps [] o src dst l h = h
need_readers_keeps (r ∷ rs) o src dst l h =
    need_readers_keeps rs (need o war src dst r l) src dst l refl

need_readers_some :
    (rs : List ℕ) (o : Option Barrier) (src dst : ℕ) (l : String)
    → rs ≢ []
    → is_none (need_readers o rs src dst l) ≡ false
unfolding need_readers need
need_readers_some [] o src dst l h = absurd (h refl)
need_readers_some (r ∷ rs) o src dst l h =
    need_readers_keeps rs (need o war src dst r l) src dst l refl

-- Whichever branch is taken gives a barrier.
branches :
    (c : Bool) (x y : Option Barrier)
    → (c ≡ true → is_none x ≡ false)
    → (c ≡ false → is_none y ≡ false)
    → is_none (if c then x else y) ≡ false
branches true x y h k = h refl
branches false x y h k = k refl

-- What a pending range has that an access of mode `m` conflicts with.
abbrev pub Hits : RangeState → Access → Type 0
Hits rs m = (rs.written ≡ true) ⊎ (rs.read_nodes ≢ []) × (writes m ≡ true)

only_read :
    {nodes : List ℕ} (m : Access) (w : Bool)
    → (w ≡ true) ⊎ (nodes ≢ []) × (writes m ≡ true)
    → writes m ≡ false
    → (reads m && w) ≡ false
    → ⊥
only_read m w h n k = ground arith

module _ (label : Ref → String) where
  check_range_keeps :
      (rs : RangeState) (a : AccessSpan) (o : Option Barrier)
      → is_none o ≡ false
      → is_none (check_range label rs a o) ≡ false
  unfolding check_range need
  check_range_keeps rs a o h =
      let l = label a.res in
      branches (not (overlaps rs.span a)) _ _ (λ _. h)
        (λ _.
          branches (writes a.mode) _ _
            (λ _. need_readers_keeps rs.read_nodes _ rs.read_stages a.stage l (
              branches rs.written _ _ (λ _. refl)
                (λ _. branches (reads a.mode && rs.written) _ _ (λ _. refl) (λ _. h))))
            (λ _. branches (reads a.mode && rs.written) _ _ (λ _. refl) (λ _. h)))

  check_range_some :
      (rs : RangeState) (a : AccessSpan) (o : Option Barrier)
      → overlaps rs.span a ≡ true
      → Hits rs a.mode
      → is_none (check_range label rs a o) ≡ false
  unfolding check_range need
  check_range_some rs a o m h =
      let l = label a.res in
      branches (not (overlaps rs.span a)) _ _ (λ n. cc (rw m at n))
        (λ _.
          branches (writes a.mode) _ _
            (λ _. elim h [
              | inl w ↦
                  need_readers_keeps rs.read_nodes _ rs.read_stages a.stage l
                    (branches rs.written _ _ (λ _. refl) (λ n. cc))
              | inr (some_reader, _) ↦
                  need_readers_some rs.read_nodes _ rs.read_stages a.stage l some_reader
            ])
            (λ reading.
              branches (reads a.mode && rs.written) _ _ (λ _. refl)
                (λ n. absurd (only_read a.mode rs.written h reading n))))

  check_ranges_keeps :
      (l : List RangeState) (a : AccessSpan) (o : Option Barrier)
      → is_none o ≡ false
      → is_none (check_ranges label l a o) ≡ false
  unfolding check_ranges
  check_ranges_keeps [] a o h = h
  check_ranges_keeps (rs ∷ l) a o h =
      check_ranges_keeps l a (check_range label rs a o) (check_range_keeps rs a o h)

  check_ranges_some :
      (l : List RangeState) (a : AccessSpan) (o : Option Barrier) (rs : RangeState)
      → IsIn rs l
      → overlaps rs.span a ≡ true
      → Hits rs a.mode
      → is_none (check_ranges label l a o) ≡ false
  unfolding check_ranges
  check_ranges_some [] a o rs i m h = absurd i
  check_ranges_some (r ∷ l) a o rs (inl e) m h =
      check_ranges_keeps l a (check_range label r a o)
        (subst (λ q. is_none (check_range label q a o) ≡ false) e (check_range_some rs a o m h))
  check_ranges_some (r ∷ l) a o rs (inr i) m h =
      check_ranges_some l a (check_range label r a o) rs i m h

  check_spans_keeps :
      (st : Ranges) (as' : List AccessSpan) (o : Option Barrier)
      → is_none o ≡ false
      → is_none (check_spans label st as' o) ≡ false
  unfolding check_spans
  check_spans_keeps st [] o h = h
  check_spans_keeps st (a ∷ rest) o h =
      let l = ranges_or_none (find_state st (key a.res)) in
      check_spans_keeps st rest (check_ranges label l a o) (check_ranges_keeps l a o h)

  -- A node with an access that hits a pending range needs a barrier.
  pub check_spans_some :
      (st : Ranges) (as' : List AccessSpan) (o : Option Barrier) (a : AccessSpan) (rs : RangeState)
      → IsIn a as'
      → IsIn rs (ranges_or_none (find_state st (key a.res)))
      → overlaps rs.span a ≡ true
      → Hits rs a.mode
      → is_none (check_spans label st as' o) ≡ false
  unfolding check_spans
  check_spans_some st [] o a rs i j m h = absurd i
  check_spans_some st (b ∷ rest) o a rs (inl e) j m h =
      let l = ranges_or_none (find_state st (key b.res)) in
      check_spans_keeps st rest (check_ranges label l b o) (
        check_ranges_some l b o rs
          (subst (λ q. IsIn rs (ranges_or_none (find_state st (key q.res)))) e j)
          (subst (λ q. overlaps rs.span q ≡ true) e m) (subst (λ q. Hits rs q.mode) e h))
  check_spans_some st (b ∷ rest) o a rs (inr i) j m h =
      check_spans_some st rest (check_ranges label (ranges_or_none (find_state st (key b.res))) b o)
        a rs i j m h
