-- ===== src/Graph/Barrier/Cover.antt =====
-- barrier.go: between two conflicting nodes the plan has a barrier.
use Prim.Native.String.{String}
use accel.Base.{
  ℕ, zero, suc, ◌<◌, ◌≤◌, ◌≡◌, refl, sym, ap, inl, inr, ◌⊎◌, true, false, Option, none, some, List,
  [], ◌∷◌, arith, IsIn, subst, get_elem?, if◌then◌else◌, Bool,
}
use accel.Graph.{Ref, RecNode, AccessSpan, spans_of}
use accel.Graph.Keys.{key-eq_of_same, same_of_key}
use accel.Graph.RefMap.{find_state}
use accel.Graph.Infer.Spans.{overlaps-Meets}
use accel.Graph.Infer.Order.{Conflict}
use accel.Graph.Barrier.{
  Barrier, RangeState, Ranges, is_none, merge, check_spans, commit_ranges, clear_pending,
  plan_nodes, plan_barriers, head_barrier,
}
use accel.Graph.Barrier.Ranges.{Hits, check_spans_some}
use accel.Graph.Barrier.Noted.{
  Noted, Keyed, commit_ranges-Keyed, commit_ranges-Noted, commit_ranges_adds, clear_pending-Keyed,
}
use accel.Graph.Barrier.Recorded.{ranges_at}

-- A barrier at place `q` of the plan, at or before place `p`.
record Found (plan : List (Option Barrier)) (p q : ℕ) (b : Barrier) : Type 0 where
  within : q ≤ p
  at : get_elem? plan q ≡ some (some b)

-- The entry of the plan is the barrier `b`, after node `i` and not after node `j`.
pub record Between (plan : List (Option Barrier)) (i j k : ℕ) (b : Barrier) : Type 0 where
  after : i < k
  before : k ≤ j
  at : get_elem? plan k ≡ some (some b)

module _ (label : Ref → String) where
  Conflict-needs :
      (st : Ranges) (spans : List AccessSpan) (x y : AccessSpan) (rs : RangeState)
      → Noted st x rs
      → IsIn y spans
      → Conflict x y
      → is_none (check_spans label st spans none) ≡ false
  Conflict-needs st spans x y rs v iy c =
      let m = (overlaps-Meets x y).0 c.meets in
      let stored =
        subst (λ k. IsIn rs (ranges_at st k)) (key-eq_of_same x.res y.res m.same) v.stored in
      let meets = (overlaps-Meets rs.span y).1 (record {
        same = same_of_key rs.span.res x.res y.res v.same m.same;
        before = omega (arith, v.off, m.before);
        after = omega (arith, v.off, v.size, m.after);
      }) in
      let hits : Hits rs y.mode = elim (c.writing) [
        | inl wx ↦ inl (v.wrote wx)
        | inr wy ↦ elim (v.live) [ inl w ↦ inl w | inr r ↦ inr (r, wy) ]
      ] in
      check_spans_some label st spans none y rs iy stored meets hits

  Option-split : (o : Option Barrier) → (o ≡ none) ⊎ ((b : Barrier) × (o ≡ some b))
  Option-split none = inl refl
  Option-split (some b) = inr (b, refl)

  merge-none : (c o : Option Barrier) → merge c o ≡ none → o ≡ none
  unfolding merge
  merge-none none o e = e
  merge-none (some c) none e = refl
  merge-none (some c) (some b) e = cc

  shift :
      {plan : List (Option Barrier)} (entry : Option Barrier) {p : ℕ}
      → (q : ℕ) × (b : Barrier) × Found plan p q b
      → (q : ℕ) × (b : Barrier) × Found (entry ∷ plan) (suc p) q b
  shift entry (q, b, f) = (suc q, b, record { within = omega (arith, f.within); at = f.at })

  -- While `x` is pending, a barrier comes before or at the node that it conflicts with.
  plan_covers :
      (ns : List RecNode) (st : Ranges) (cur : Option Barrier) (p : ℕ) (n : RecNode)
      (x y : AccessSpan) (rs : RangeState)
      → Noted st x rs
      → get_elem? ns p ≡ some n
      → IsIn y (spans_of n)
      → Conflict x y
      → (q : ℕ) × (b : Barrier) × Found (plan_nodes label st cur ns) p q b
  unfolding plan_nodes
  plan_covers [] st cur p n x y rs v e iy c = cc
  plan_covers (m ∷ ns) st cur zero n x y rs v e iy c =
      let same : n ≡ m = cc in
      let needs =
        Conflict-needs st (spans_of m) x y rs v (subst (λ k. IsIn y (spans_of k)) same iy) c in
      elim (Option-split (merge cur (check_spans label st (spans_of m) none))) [
        | inr (b, at) ↦ (0, b, record { within = omega arith; at = ap some at })
        | inl gap ↦ absurd (occupied (merge-none cur _ gap) needs)
      ]
    where
      occupied : {o : Option Barrier} → o ≡ none → is_none o ≡ false → ⊥
      occupied e n = cc (ap is_none e)
  plan_covers (m ∷ ns) st cur (suc p) n x y rs v e iy c =
      elim (Option-split (merge cur (check_spans label st (spans_of m) none))) [
        | inr (b, at) ↦ (0, b, record { within = omega arith; at = ap some at })
        | inl gap ↦
            let (r, w) = commit_ranges-Noted (spans_of m) st x rs v in
            let kept : (if is_none (merge cur (check_spans label st (spans_of m) none))
                  then st
                  else clear_pending st)
                ≡ st =
              rw gap in
            let w' = subst (λ s. Noted (commit_ranges s (spans_of m)) x r) (sym kept) w in
            shift _ (plan_covers ns _ none p n x y r w' e iy c)
      ]

  Between-shift :
      {plan : List (Option Barrier)} {i j : ℕ} (entry : Option Barrier)
      → (k : ℕ) × (b : Barrier) × Between plan i j k b
      → (k : ℕ) × (b : Barrier) × Between (entry ∷ plan) (suc i) (suc j) k b
  Between-shift entry (k, b, f) = (
    suc k,
    b,
    record { after = omega (arith, f.after); before = omega (arith, f.before); at = f.at },
  )

  next-Keyed : (c : Bool) (st : Ranges) → Keyed st → Keyed (if c then st else clear_pending st)
  next-Keyed true st k = k
  next-Keyed false st k = clear_pending-Keyed st k

  plan-Between :
      (ns : List RecNode) (st : Ranges) (cur : Option Barrier) (i j : ℕ) (m n : RecNode)
      (x y : AccessSpan)
      → Keyed st
      → i < j
      → get_elem? ns i ≡ some m
      → get_elem? ns j ≡ some n
      → IsIn x (spans_of m)
      → IsIn y (spans_of n)
      → Conflict x y
      → (k : ℕ) × (b : Barrier) × Between (plan_nodes label st cur ns) i j k b
  unfolding plan_nodes
  plan-Between [] st cur i j m n x y kd lt ei ej ix iy c = cc
  plan-Between (h ∷ ns) st cur i zero m n x y kd lt ei ej ix iy c = absurd (omega (arith, lt))
  plan-Between (h ∷ ns) st cur zero (suc j) m n x y kd lt ei ej ix iy c =
      let same : m ≡ h = cc in
      let kept = next-Keyed (is_none (merge cur (check_spans label st (spans_of h) none))) st kd in
      let (r, w) =
        commit_ranges_adds (spans_of h) _ x kept (subst (λ k. IsIn x (spans_of k)) same ix) in
      let (q, b, f) = plan_covers ns _ none j n x y r w ej iy c in
      (suc q, b, record { after = omega arith; before = omega (arith, f.within); at = f.at })
  plan-Between (h ∷ ns) st cur (suc i) (suc j) m n x y kd lt ei ej ix iy c =
      let kept = next-Keyed (is_none (merge cur (check_spans label st (spans_of h) none))) st kd in
      Between-shift _ (
        plan-Between ns _ none i j m n x y (commit_ranges-Keyed (spans_of h) _ kept)
          (omega (arith, lt)) ei ej ix iy c)

  -- Of two nodes with conflicting accesses, the plan has a barrier at a node that comes after the
  -- first and not after the second.
  pub plan_barriers_covers :
      (nodes : List RecNode) (i j : ℕ) (m n : RecNode) (x y : AccessSpan)
      → i < j
      → get_elem? nodes i ≡ some m
      → get_elem? nodes j ≡ some n
      → IsIn x (spans_of m)
      → IsIn y (spans_of n)
      → Conflict x y
      → (k : ℕ) × (b : Barrier) × Between (plan_barriers label nodes) i j k b
  unfolding plan_barriers find_state
  plan_barriers_covers nodes i j m n x y lt ei ej ix iy c =
      plan-Between nodes [] (some head_barrier) i j m n x y (λ k rs v. absurd v) lt ei ej ix iy c
