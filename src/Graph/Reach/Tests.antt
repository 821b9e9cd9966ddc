-- ===== src/Graph/Reach/Tests.antt =====
-- infer.go: a small graph. Node 0 writes a buffer, 1 reads half of it, 2 writes over that half, and
-- 3 reads another buffer.
use accel.Base.{ℕ, ◌≡◌, ◌↔◌, refl, inl, true, false, none, some, List, [], ◌∷◌, arith}
use accel.Graph.RefMap.{find_state, put_state}
use accel.Graph.{
  Access, read, write, Ref, RangeAccess, RecNode, AccessSpan, spans_of, span_of, overlaps, covers,
  same_resource, key, ref_eq,
}
use accel.Graph.Infer.{
  infer_edges, infer_nodes, no_edges, classify, classify_one, link, add_edge, commit_all, commit,
  commit_to, keep_uncovered, assert_acyclic,
}
use accel.Graph.Infer.StandIns.{Before}
use accel.Graph.Infer.Order.{Conflict, IsNumbered}
use accel.Graph.Infer.Complete.{infer_edges_orders}
use accel.Graph.Infer.Forward.{AllCaused, infer_edges_caused, assert_acyclic_lem}
use accel.Graph.Reach.{reachability, reaches, fill_rows, fill, union, mark}
use accel.Graph.Reach.Hazards.{reaches-infer_edges, reaches-Conflict}

abbrev buffer : ℕ → Ref
buffer p = record { buf = some p; tex = none; slot = 0 }

abbrev touch : ℕ → ℕ → ℕ → Access → RangeAccess
touch p off size mode = record { res = buffer p; off = off; size = size; mode = mode; stage = 64 }

abbrev node : ℕ → List RangeAccess → RecNode
node id accs = record { id = id; stage = 64; accesses = accs }

abbrev nodes : List RecNode
nodes =
    node 0 (touch 1 0 8 write ∷ [])
    ∷ node 1 (touch 1 0 4 read ∷ touch 2 0 4 write ∷ [])
    ∷ node 2 (touch 1 2 4 write ∷ [])
    ∷ node 3 (touch 3 0 4 read ∷ [])
    ∷ []

abbrev first_write : AccessSpan
first_write = span_of 0 (touch 1 0 8 write)

abbrev last_write : AccessSpan
last_write = span_of 2 (touch 1 2 4 write)

edges : (infer_edges nodes).succ ≡ (1 ∷ 2 ∷ []) ∷ (2 ∷ []) ∷ [] ∷ [] ∷ []
unfolding infer_edges infer_nodes no_edges classify classify_one link add_edge commit_all commit
    commit_to keep_uncovered find_state put_state spans_of span_of overlaps covers same_resource key
    ref_eq
edges = refl

first_last : Conflict first_write last_write
unfolding span_of overlaps same_resource
first_last = record { meets = refl; writing = inl refl }

nodes-IsNumbered : IsNumbered 0 nodes
nodes-IsNumbered = omega arith

infer_edges_orders_example : Before (infer_edges nodes) 0 2
unfolding spans_of
infer_edges_orders_example =
    infer_edges_orders nodes 0 2 first_write last_write nodes-IsNumbered (omega arith) (omega arith)
      refl refl (inl refl) (inl refl) first_last

infer_edges_caused_example : AllCaused nodes (infer_edges nodes)
infer_edges_caused_example = infer_edges_caused nodes nodes-IsNumbered

assert_acyclic_lem_example : assert_acyclic (infer_edges nodes) ≡ true
assert_acyclic_lem_example = assert_acyclic_lem nodes nodes-IsNumbered

reaches-infer_edges_example :
    (reaches (reachability (infer_edges nodes)) 0 3 ≡ true) ↔ Before (infer_edges nodes) 0 3
reaches-infer_edges_example =
    reaches-infer_edges nodes 0 3 nodes-IsNumbered (omega arith) (omega arith)

reaches-Conflict_example : reaches (reachability (infer_edges nodes)) 0 2 ≡ true
unfolding spans_of
reaches-Conflict_example =
    reaches-Conflict nodes 0 2 first_write last_write nodes-IsNumbered (omega arith) (omega arith)
      refl refl (inl refl) (inl refl) first_last

reaches_table :
    (reaches (reachability (infer_edges nodes)) 0 2 ≡ true)
    × (reaches (reachability (infer_edges nodes)) 2 0 ≡ false)
    × (reaches (reachability (infer_edges nodes)) 0 3 ≡ false)
unfolding reaches reachability fill_rows fill union mark
reaches_table = rw edges (refl, refl, refl)
