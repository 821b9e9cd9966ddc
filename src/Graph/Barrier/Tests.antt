-- ===== src/Graph/Barrier/Tests.antt =====
-- barrier.go: the plans of small graphs.
use Prim.Native.String.{String}
use accel.Base.{ℕ, ◌≡◌, refl, inl, inr, false, none, some, List, [], ◌∷◌, arith}
use accel.Graph.{
  Ref, Access, read, write, war, RangeAccess, RecNode, overlaps, same_resource, key, ref_eq,
  span_of, spans_of,
}
use accel.Graph.RefMap.{find_state, put_state}
use accel.Graph.Infer.Order.{Conflict}
use accel.Graph.Barrier.{
  Barrier, merge, need, need_readers, check_range, check_ranges, check_spans, update, update_in,
  clear_range, clear_pending, commit_range, commit_ranges, plan_nodes, plan_barriers, head_barrier,
  count_barriers,
}
use accel.Graph.Barrier.Cover.{Between, plan_barriers_covers}

abbrev buffer : ℕ → Ref
buffer p = record { buf = some p; tex = none; slot = 0 }

abbrev touch : ℕ → Access → RangeAccess
touch p mode = record { res = buffer p; off = 0; size = 4; mode = mode; stage = 64 }

abbrev node : ℕ → List RangeAccess → RecNode
node id accs = record { id = id; stage = 64; accesses = accs }

abbrev label : Ref → String
label r = "b"

-- Node 0 reads one buffer and writes another, node 1 writes the first, and node 2 reads the second.
abbrev nodes : List RecNode
nodes =
    node 0 (touch 2 read ∷ touch 1 write ∷ [])
    ∷ node 1 (touch 2 write ∷ [])
    ∷ node 2 (touch 1 read ∷ [])
    ∷ []

abbrev ordering_only : Barrier
ordering_only = record {
  src = 64;
  dst = 64;
  memory = false;
  reasons = record { hazard = war; from = some 0; label = "b" } ∷ [];
}

-- The barrier of node 1 makes no write visible, and node 2 has none.
plan_of_nodes : plan_barriers label nodes ≡ some head_barrier ∷ some ordering_only ∷ none ∷ []
unfolding plan_barriers plan_nodes check_spans check_ranges check_range need need_readers
    commit_ranges commit_range update update_in clear_pending clear_range merge find_state put_state
    key ref_eq overlaps same_resource span_of spans_of
plan_of_nodes = refl

count_of_nodes : count_barriers (plan_barriers label nodes) ≡ 2
unfolding count_barriers
count_of_nodes = rw plan_of_nodes refl

write_then_read : Conflict (span_of 0 (touch 1 write)) (span_of 2 (touch 1 read))
unfolding span_of overlaps same_resource
write_then_read = record { meets = refl; writing = inl refl }

plan_barriers_covers_example : (k : ℕ) × (b : Barrier) × Between (plan_barriers label nodes) 0 2 k b
unfolding spans_of
plan_barriers_covers_example =
    plan_barriers_covers label nodes 0 2 (node 0 (touch 2 read ∷ touch 1 write ∷ []))
      (node 2 (touch 1 read ∷ [])) (span_of 0 (touch 1 write)) (span_of 2 (touch 1 read))
      (omega arith) refl refl (inr (inl refl)) (inl refl) write_then_read
