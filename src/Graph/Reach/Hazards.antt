-- ===== src/Graph/Reach/Hazards.antt =====
-- infer.go: `reaches` on the graph that `inferEdges` built.
use accel.Base.{
  ℕ, ◌<◌, ◌≡◌, ◌∙◌, ◌↔◌, true, some, List, [], arith, length, length-replicate, get_elem?, IsIn,
  lt-length_of_get_elem?,
}
use accel.Graph.{RecNode, AccessSpan, spans_of}
use accel.Graph.Infer.{infer_edges, no_edges}
use accel.Graph.Infer.StandIns.{Before}
use accel.Graph.Infer.Order.{Conflict, IsNumbered, IsSized}
use accel.Graph.Infer.Complete.{infer_edges_orders, infer_nodes-Grows}
use accel.Graph.Infer.Forward.{infer_edges_caused}
use accel.Graph.Reach.{reachability, reaches}
use accel.Graph.Reach.Correct.{IsForward, reaches_iff}

pub length-infer_edges : (nodes : List RecNode) → length (infer_edges nodes).succ ≡ length nodes
unfolding infer_edges no_edges
length-infer_edges nodes =
    (infer_nodes-Grows nodes [] (no_edges (length nodes))).size
    ∙ length-replicate {A = List ℕ} (length nodes) []

pub infer_edges-IsForward :
    (nodes : List RecNode) → IsNumbered 0 nodes → IsForward (infer_edges nodes)
infer_edges-IsForward nodes num i j e =
    let (m, n, x, y, c) = infer_edges_caused nodes num i j e in
    (c.forward, omega (arith, lt-length_of_get_elem? nodes j c.target.at, length-infer_edges nodes))

-- Two nodes of a built graph: `reaches` is true exactly if the inferred edges lead from the one to
-- the other.
pub reaches-infer_edges :
    (nodes : List RecNode) (a b : ℕ)
    → IsNumbered 0 nodes
    → a < length nodes
    → b < length nodes
    → (reaches (reachability (infer_edges nodes)) a b ≡ true) ↔ Before (infer_edges nodes) a b
reaches-infer_edges nodes a b num ha hb =
    reaches_iff (infer_edges nodes) a b (infer_edges-IsForward nodes num)
      (omega (arith, length-infer_edges nodes)) (omega (arith, length-infer_edges nodes))

-- Where accesses of two nodes conflict, the planner knows that the later must run after the
-- earlier: `reaches` is true of them in record order.
pub reaches-Conflict :
    (nodes : List RecNode) (i j : ℕ) {m n : RecNode} (x y : AccessSpan)
    → IsNumbered 0 nodes
    → IsSized nodes
    → i < j
    → get_elem? nodes i ≡ some m
    → get_elem? nodes j ≡ some n
    → IsIn x (spans_of m)
    → IsIn y (spans_of n)
    → Conflict x y
    → reaches (reachability (infer_edges nodes)) i j ≡ true
reaches-Conflict nodes i j x y num sized lt ei ej ix iy c =
    (reaches-infer_edges nodes i j num (lt-length_of_get_elem? nodes i ei)
        (lt-length_of_get_elem? nodes j ej)).1
      (infer_edges_orders nodes i j x y num sized lt ei ej ix iy c)
