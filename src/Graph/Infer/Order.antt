-- ===== src/Graph/Infer/Order.antt =====
-- infer.go: every two conflicting accesses end up ordered by the inferred edges.
use accel.Base.{
  ℕ, suc, ◌<◌, ◌≤◌, ◌≡◌, refl, inl, inr, ◌⊎◌, true, arith, List, [], ◌∷◌, ◌++◌, IsIn, length, map,
}
use accel.Graph.{Ref, RangeAccess, RecNode, AccessSpan, writes, key, overlaps, span_of, spans_of}
use accel.Graph.Infer.{States, Dag, classify}
use accel.Graph.Infer.Edges.{Edge}
use accel.Graph.Infer.Classify.{Pending, written, readen}
use accel.Graph.Infer.Nodes.{state_of, classify-Grows, classify-Edge}
use accel.Graph.Infer.StandIns.{Before, direct, Before-trans, Before-Grows, Upto, Stands, Covered}
use accel.Graph.Infer.Fresh.{Holds}

-- Two accesses of one resource that meet, one of them a write.
pub record Conflict (x y : AccessSpan) : Type 0 where
  pub meets : overlaps x y ≡ true
  pub writing : (writes x.mode ≡ true) ⊎ (writes y.mode ≡ true)

-- The recorder numbers nodes in record order.
abbrev pub IsNumbered : ℕ → List RecNode → Type 0
IsNumbered k [] = Unit
IsNumbered k (n ∷ ns) = (n.id ≡ k) × IsNumbered (suc k) ns

abbrev pub NoneEmpty : List RangeAccess → Type 0
NoneEmpty [] = Unit
NoneEmpty (a ∷ rest) = (0 < a.size) × NoneEmpty rest

-- Every access covers a byte at least.
abbrev pub IsSized : List RecNode → Type 0
IsSized [] = Unit
IsSized (n ∷ ns) = NoneEmpty n.accesses × IsSized ns

pub spans_own :
    (id : ℕ) (accs : List RangeAccess) (a : AccessSpan)
    → NoneEmpty accs
    → IsIn a (map (span_of id) accs)
    → (a.node ≡ id) × (0 < a.size)
unfolding span_of
spans_own id [] a h m = absurd m
spans_own id (c ∷ rest) a h (inl e) = rw e (refl, h.0)
spans_own id (c ∷ rest) a h (inr m) = spans_own id rest a h.1 m

-- A pending span is stored under its own key, is not empty, and is an earlier node's.
pub record Earlier (n : ℕ) (k : Ref) (w : AccessSpan) : Type 0 where
  pub stored : key w.res ≡ k
  pub sized : 0 < w.size
  pub earlier : w.node < n

-- What holds before node `n`: `done` are the accesses committed so far.
pub record Inv (n : ℕ) (done : List AccessSpan) (st : States) (d : Dag) : Type 0 where
  pub pending : Holds (Earlier n) st
  pub covered : (x : AccessSpan) → IsIn x done → Covered st d x
  pub room : n ≤ length d.succ

-- Against everything committed before, each node's accesses are ordered; so for all nodes.
abbrev pub AllOrdered : Dag → List AccessSpan → List RecNode → Type 0
AllOrdered d done [] = Unit
AllOrdered d done (n ∷ ns) =
    ((x y : AccessSpan) → IsIn x done → IsIn y (spans_of n) → Conflict x y → Before d x.node n.id)
    × AllOrdered d (spans_of n ++ done) ns

Before-after : (d : Dag) (i k n : ℕ) → Upto d i k → Edge d k n → Before d i n
Before-after d i k n (inl e) h = direct (rw e h)
Before-after d i k n (inr p) h = Before-trans d p (direct h)

-- One node: what conflicts with an access of it has a stand-in, and that one is linked.
pub node_orders :
    (n : ℕ) (done : List AccessSpan) (st : States) (d : Dag) (spans : List AccessSpan)
    → Inv n done st d
    → n < length d.succ
    → (x y : AccessSpan) → IsIn x done
    → IsIn y spans
    → Conflict x y
    → Before (classify st spans n d) x.node n
node_orders n done st d spans v lt x y ix iy c =
    let t = v.covered x ix y c.meets in
    elim (c.writing) [
      | inl wx ↦ by_writer (t.written wx)
      | inr wy ↦ elim (t.touched) [ inl s ↦ by_writer s | inr s ↦ by_reader wy s ]
    ]
  where
    linked :
        (w : AccessSpan)
        → IsIn w (state_of st y).writers ⊎ IsIn w (state_of st y).readers
        → Pending (state_of st y) y w
        → overlaps w y ≡ true
        → Upto d x.node w.node
        → Before (classify st spans n d) x.node n
    linked w i p o u =
        let g = classify-Grows st spans n d in
        let early = (v.pending (key y.res) w i).earlier in
        let up : Upto (classify st spans n d) x.node w.node = elim u [
          | inl e ↦ inl e
          | inr b ↦ inr (Before-Grows d (classify st spans n d) g b)
        ] in
        Before-after (classify st spans n d) x.node w.node n up
          (classify-Edge st spans n d y w iy p o (omega arith) (omega arith))

    by_writer :
        (w : AccessSpan) × Stands d (state_of st y).writers x y w
        → Before (classify st spans n d) x.node n
    by_writer (w, s) = linked w (inl s.pending) (written s.pending) s.meets s.after

    by_reader :
        writes y.mode ≡ true
        → (w : AccessSpan) × Stands d (state_of st y).readers x y w
        → Before (classify st spans n d) x.node n
    by_reader wy (w, s) = linked w (inr s.pending) (readen s.pending wy) s.meets s.after
