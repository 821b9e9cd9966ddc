-- ===== src/Graph/Infer.antt =====
-- infer.go: `inferEdges`. The map from resources to pending spans is an association list; the map
-- of a graph of slices, `succ` and `pred`, is a list of lists indexed by the node's id.
pub mod States
pub mod Spans
pub mod Edges
pub mod Links
pub mod Classify
pub mod Nodes
pub mod StandIns
pub mod Fresh
pub mod Order
pub mod Complete
pub mod Forward
use accel.Base.{
  ltb, ◌&&◌, ℕ, suc, ◌+◌, Bool, true, false, not, Option, none, some, List, [], ◌∷◌, ◌++◌, ◌==◌,
  if◌then◌else◌, keep, contains, get_or, set, length, replicate,
}
use accel.Graph.RefMap.{find_state, put_state, RefMap}
use accel.Graph.{
  Access, Hazard, raw, waw, war, Ref, RecNode, AccessSpan, reads, writes, same_resource, overlaps,
  covers, key, ref_eq, spans_of,
}

-- `resState`
pub record ResState : Type 0 where
  pub writers : List AccessSpan
  pub readers : List AccessSpan

abbrev pub States : Type 0
States = RefMap ResState

-- `g.succ`, `g.pred` and `g.hazards`
pub record Dag : Type 0 where
  pub succ : List (List ℕ)
  pub pred : List (List ℕ)
  pub hazards : ℕ

abbrev pub row : List (List ℕ) → ℕ → List ℕ
row m i = get_or m i []

-- The kind of hazard is not recorded.
unfoldable pub add_edge : ℕ → ℕ → Hazard → Dag → Dag
add_edge from to h d =
    if from == to
    then d
    else if contains (row d.succ from) to
    then record d { hazards = d.hazards + 1 }
    else record {
      succ = set d.succ from (row d.succ from ++ to ∷ []);
      pred = set d.pred to (row d.pred to ++ from ∷ []);
      hazards = d.hazards + 1;
    }

-- `for _, w := range spans { if w.overlaps(a) { g.addEdge(w.node, n, h) } }`
unfoldable pub link : List AccessSpan → AccessSpan → ℕ → Hazard → Dag → Dag
link [] a n h d = d
link (w ∷ ws) a n h d = link ws a n h (if overlaps w a then add_edge w.node n h d else d)

-- The hazards of one access of node `n` against the spans pending on its resource.
unfoldable pub classify_one : ResState → AccessSpan → ℕ → Dag → Dag
classify_one s a n d =
    let d' = if reads a.mode then link s.writers a n raw d else d in
    if writes a.mode then link s.readers a n war (link s.writers a n waw d') else d'

unfoldable pub classify : States → List AccessSpan → ℕ → Dag → Dag
classify st [] n d = d
classify st (a ∷ rest) n d =
    classify st rest n
      (elim (find_state st (key a.res)) [ none ↦ d | some s ↦ classify_one s a n d ])

unfoldable pub keep_uncovered : List AccessSpan → AccessSpan → List AccessSpan
keep_uncovered spans by = keep (λ s. not (covers by s)) spans

abbrev pub state_or_new : Option ResState → ResState
state_or_new none = record { writers = []; readers = [] }
state_or_new (some s) = s

unfoldable pub commit_to : ResState → AccessSpan → ResState
commit_to s a =
    let readers = if reads a.mode then s.readers ++ a ∷ [] else s.readers in
    if writes a.mode
    then record {
      writers = keep_uncovered s.writers a ++ a ∷ [];
      readers = keep_uncovered readers a;
    }
    else record { writers = s.writers; readers = readers }

unfoldable pub commit : States → AccessSpan → States
commit st a = let k = key a.res in put_state st k (commit_to (state_or_new (find_state st k)) a)

unfoldable pub commit_all : States → List AccessSpan → States
commit_all st [] = st
commit_all st (a ∷ rest) = commit_all (commit st a) rest

-- All of a node's accesses are classified before any of them is committed.
unfoldable pub infer_nodes : States → Dag → List RecNode → Dag
infer_nodes st d [] = d
infer_nodes st d (n ∷ ns) =
    let spans = spans_of n in infer_nodes (commit_all st spans) (classify st spans n.id d) ns

-- One empty row for each node.
unfoldable pub no_edges : ℕ → Dag
no_edges n = record { succ = replicate n []; pred = replicate n []; hazards = 0 }

unfoldable pub infer_edges : List RecNode → Dag
infer_edges nodes = infer_nodes [] (no_edges (length nodes)) nodes

-- Whether `e <= from` for no `e` in the row.
unfoldable pub all_after : ℕ → List ℕ → Bool
all_after from [] = true
all_after from (e ∷ es) = ltb from e && all_after from es

unfoldable pub forward_from : ℕ → List (List ℕ) → Bool
forward_from from [] = true
forward_from from (r ∷ rows) = all_after from r && forward_from (suc from) rows

-- `assertAcyclic() == nil`
unfoldable pub assert_acyclic : Dag → Bool
assert_acyclic d = forward_from 0 d.succ
