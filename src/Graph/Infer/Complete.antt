-- ===== src/Graph/Infer/Complete.antt =====
-- infer.go: `inferEdges` orders every two conflicting accesses.
use accel.Base.{
  ℕ, zero, suc, ◌+◌, ◌<◌, ◌≤◌, ◌≡◌, refl, sym, ◌∙◌, inl, inr, ◌⊎◌, true, some, arith, List, [], ◌∷◌,
  ◌++◌, IsIn, IsIn-append, IsIn-append_left, IsIn-append_right, subst, length, length-replicate,
  get_elem?,
}
use accel.Graph.Keys.{key-eq_of_same}
use accel.Graph.RefMap.{find_state}
use accel.Graph.{RecNode, AccessSpan, writes, key, overlaps, spans_of}
use accel.Graph.Infer.{States, Dag, commit_all, classify, infer_nodes, no_edges, infer_edges}
use accel.Graph.Infer.Spans.{overlaps-Meets}
use accel.Graph.Infer.States.{writers_at, readers_at}
use accel.Graph.Infer.Edges.{Edge, Grows, Grows-refl, Grows-trans}
use accel.Graph.Infer.Classify.{written, readen}
use accel.Graph.Infer.Nodes.{state_of, classify-Grows, classify-Edge}
use accel.Graph.Infer.StandIns.{Before, Before-Grows, Upto, Stands, Covered}
use accel.Graph.Infer.Fresh.{Holds, commit_all-Holds, Settled, commit_all-keeps, commit_all-adds}
use accel.Graph.Infer.Order.{
  Conflict, IsNumbered, IsSized, spans_own, Earlier, Inv, AllOrdered, node_orders,
}

Upto-Grows : (d d' : Dag) → Grows d d' → {i j : ℕ} → Upto d i j → Upto d' i j
Upto-Grows d d' g (inl e) = inl e
Upto-Grows d d' g (inr b) = inr (Before-Grows d d' g b)

Stands-Grows :
    (d d' : Dag) (ws : List AccessSpan) (x b : AccessSpan)
    → Grows d d'
    → (w : AccessSpan) × Stands d ws x b w
    → (w : AccessSpan) × Stands d' ws x b w
Stands-Grows d d' ws x b g (w, s) =
    (w, record { pending = s.pending; meets = s.meets; after = Upto-Grows d d' g s.after })

Covered-Grows :
    (st : States) (d d' : Dag) (x : AccessSpan) → Grows d d' → Covered st d x → Covered st d' x
Covered-Grows st d d' x g c b o =
    let s = state_of st b in
    let t = c b o in
    record {
      written = λ y. Stands-Grows d d' s.writers x b g (t.written y);
      touched = elim (t.touched) [
        | inl w ↦ inl (Stands-Grows d d' s.writers x b g w)
        | inr r ↦ inr (Stands-Grows d d' s.readers x b g r)
      ];
    }

module _ (n : ℕ) (done : List AccessSpan) (st : States) (d : Dag) (spans : List AccessSpan)
    (own : (a : AccessSpan) → IsIn a spans → (a.node ≡ n) × (0 < a.size)) (v : Inv n done st d)
    (lt : n < length d.succ) where
  abbrev d' : Dag
  d' = classify st spans n d

  linked_at :
      (w a : AccessSpan)
      → IsIn a spans
      → writes a.mode ≡ true
      → overlaps w a ≡ true
      → w.node < n
      → IsIn w (writers_at st (key a.res)) ⊎ IsIn w (readers_at st (key a.res))
      → Edge d' w.node n
  linked_at w a m y o early (inl i) =
      classify-Edge st spans n d a w m (written i) o (omega arith) (omega arith)
  linked_at w a m y o early (inr i) =
      classify-Edge st spans n d a w m (readen i y) o (omega arith) (omega arith)

  settled : Holds (Settled d' spans n) st
  settled k w i =
      let e = v.pending k w i in
      record {
        stored = e.stored;
        sized = e.sized;
        linked = λ a m y o. inr (
            linked_at w a m y o e.earlier (
              subst (λ j. IsIn w (writers_at st j) ⊎ IsIn w (readers_at st j))
                (sym e.stored ∙ key-eq_of_same w.res a.res ((overlaps-Meets w a).0 o).same) i));
      }

  node_keeps : Inv (suc n) (spans ++ done) (commit_all st spans) d'
  node_keeps = record {
    pending =
        commit_all-Holds (Earlier (suc n)) spans st
          (λ a m. record {
            stored = refl;
            sized = (own a m).1;
            earlier = omega (arith, (own a m).0);
          })
          (λ k w i.
            let e = v.pending k w i in
            record { stored = e.stored; sized = e.sized; earlier = omega (arith, e.earlier) });
    covered = λ x i. elim (IsIn-append x spans done i) [
      | inl new ↦ commit_all-adds d' spans n own spans st x (λ a m. m) settled new
      | inr old ↦
          commit_all-keeps d' spans n own spans st x (λ a m. m) settled
            (Covered-Grows st d d' x (classify-Grows st spans n d) (v.covered x old))
    ];
    room = omega (arith, (classify-Grows st spans n d).size);
  }

pub infer_nodes-Grows : (ns : List RecNode) (st : States) (d : Dag) → Grows d (infer_nodes st d ns)
unfolding infer_nodes
infer_nodes-Grows [] st d = Grows-refl d
infer_nodes-Grows (n ∷ ns) st d =
    let e = classify st (spans_of n) n.id d in
    let st' = commit_all st (spans_of n) in
    Grows-trans d e (infer_nodes st' e ns) (classify-Grows st (spans_of n) n.id d)
      (infer_nodes-Grows ns st' e)

infer_nodes-AllOrdered :
    (ns : List RecNode) (k : ℕ) (done : List AccessSpan) (st : States) (d : Dag)
    → IsNumbered k ns
    → IsSized ns
    → Inv k done st d
    → k + length ns ≤ length d.succ
    → AllOrdered (infer_nodes st d ns) done ns
unfolding infer_nodes
infer_nodes-AllOrdered [] k done st d num sized v room = tt
infer_nodes-AllOrdered (n ∷ ns) k done st d num sized v room =
    let spans = spans_of n in
    let e = classify st spans n.id d in
    let st' = commit_all st spans in
    let lt : n.id < length d.succ = omega (arith, num.0) in
    let v' : Inv n.id done st d = subst (λ i. Inv i done st d) (sym num.0) v in
    let g = classify-Grows st spans n.id d in
    (
      λ x y ix iy c.
          Before-Grows e (infer_nodes st' e ns) (infer_nodes-Grows ns st' e)
            (node_orders n.id done st d spans v' lt x y ix iy c),
      infer_nodes-AllOrdered ns (suc k) (spans ++ done) st' e num.1 sized.1
          (subst (λ i. Inv (suc i) (spans ++ done) st' e) num.0
            (node_keeps n.id done st d spans
              (λ a m. unfold spans_of in spans_own n.id n.accesses a sized.0 m) v' lt))
          (omega (arith, g.size)),
    )

ordered_done :
    (d : Dag) (ns : List RecNode) (done : List AccessSpan) (j : ℕ) {n : RecNode} (x y : AccessSpan)
    → AllOrdered d done ns
    → IsIn x done
    → get_elem? ns j ≡ some n
    → IsIn y (spans_of n)
    → Conflict x y
    → Before d x.node n.id
ordered_done d [] done j x y o ix e iy c = cc
ordered_done d (m ∷ ns) done zero {n} x y o ix e iy c =
    let same : m ≡ n = cc in
    subst (λ q. Before d x.node q.id) same
      (o.0 x y ix (subst (λ q. IsIn y (spans_of q)) (sym same) iy) c)
ordered_done d (m ∷ ns) done (suc j) x y o ix e iy c =
    ordered_done d ns (spans_of m ++ done) j x y o.1 (IsIn-append_right x (spans_of m) done ix) e iy
      c

ordered_at :
    (d : Dag) (ns : List RecNode) (done : List AccessSpan) (i j : ℕ) {m n : RecNode}
    (x y : AccessSpan)
    → AllOrdered d done ns
    → i < j
    → get_elem? ns i ≡ some m
    → get_elem? ns j ≡ some n
    → IsIn x (spans_of m)
    → IsIn y (spans_of n)
    → Conflict x y
    → Before d x.node n.id
ordered_at d [] done i j x y o lt ei ej ix iy c = cc
ordered_at d (p ∷ ns) done i zero x y o lt ei ej ix iy c = absurd (omega arith)
ordered_at d (p ∷ ns) done zero (suc j) {m} x y o lt ei ej ix iy c =
    let same : p ≡ m = cc in
    ordered_done d ns (spans_of p ++ done) j x y o.1
      (IsIn-append_left x (spans_of p) done (subst (λ q. IsIn x (spans_of q)) (sym same) ix)) ej iy
      c
ordered_at d (p ∷ ns) done (suc i) (suc j) x y o lt ei ej ix iy c =
    ordered_at d ns (spans_of p ++ done) i j x y o.1 (omega arith) ei ej ix iy c

pub numbered_id :
    (ns : List RecNode) (k i : ℕ) {m : RecNode}
    → IsNumbered k ns
    → get_elem? ns i ≡ some m
    → (m.id ≡ k + i) × (i < length ns)
numbered_id [] k i num e = cc
numbered_id (n ∷ ns) k zero {m} num e =
    let same : n ≡ m = cc in subst (λ q. (q.id ≡ k + 0) × (0 < suc (length ns))) same (omega arith)
numbered_id (n ∷ ns) k (suc i) num e = omega (arith, numbered_id ns (suc k) i num.1 e)

spans_node :
    (ns : List RecNode) (k i : ℕ) {m : RecNode} (x : AccessSpan)
    → IsNumbered k ns
    → IsSized ns
    → get_elem? ns i ≡ some m
    → IsIn x (spans_of m)
    → x.node ≡ m.id
unfolding spans_of
spans_node [] k i x num sized e ix = cc
spans_node (n ∷ ns) k zero {m} x num sized e ix =
    let same : n ≡ m = cc in
    subst (λ q. IsIn x (spans_of q) → x.node ≡ q.id) same
      (λ h. (spans_own n.id n.accesses x sized.0 h).0) ix
spans_node (n ∷ ns) k (suc i) x num sized e ix = spans_node ns (suc k) i x num.1 sized.1 e ix

start_Inv : (nodes : List RecNode) → Inv 0 [] [] (no_edges (length nodes))
start_Inv nodes = record {
  pending = λ k w i. unfold find_state in elim i [ inl m ↦ absurd m | inr m ↦ absurd m ];
  covered = λ x i. absurd i;
  room = omega arith;
}

-- For nodes numbered in record order whose accesses are not empty: where an access of node `i` and
-- one of a later node `j` overlap and one of the two writes, the inferred edges lead from `i` to
-- `j`.
pub infer_edges_orders :
    (nodes : List RecNode) (i j : ℕ) {m n : RecNode} (x y : AccessSpan)
    → IsNumbered 0 nodes
    → IsSized nodes
    → i < j
    → get_elem? nodes i ≡ some m
    → get_elem? nodes j ≡ some n
    → IsIn x (spans_of m)
    → IsIn y (spans_of n)
    → Conflict x y
    → Before (infer_edges nodes) i j
unfolding infer_edges
infer_edges_orders nodes i j {m} {n} x y num sized lt ei ej ix iy c =
    let d = infer_edges nodes in
    let all =
      infer_nodes-AllOrdered nodes 0 [] [] (no_edges (length nodes)) num sized (start_Inv nodes)
        (unfold no_edges in omega (arith, length-replicate {A = List ℕ} (length nodes) [])) in
    let from : x.node ≡ i =
      omega (arith, spans_node nodes 0 i x num sized ei ix, numbered_id nodes 0 i num ei) in
    let to : n.id ≡ j = omega (arith, numbered_id nodes 0 j num ej) in
    subst (Before d i) to
      (subst (λ k. Before d k n.id) from (ordered_at d nodes [] i j x y all lt ei ej ix iy c))
