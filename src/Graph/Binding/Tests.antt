-- ===== src/Graph/Binding/Tests.antt =====
-- submit.go: a graph whose first node writes a slot that its second one reads.
use accel.Base.{
  ℕ, zero, suc, ◌+◌, ◌*◌, ◌<◌, ◌≤◌, ◌^◌, ◌≡◌, refl, sym, subst, inl, inr, Bool, true, false, none,
  some, List, [], ◌∷◌, get_elem?, IsIn, arith,
}
use accel.Base.Result.{ok, err}
use accel.Buffer.{
  Buffer, BufferView, f32, dtype_size, check_named, check_usable, check_range, out_of_range,
  byte_range,
}
use accel.Graph.{Access, read, write, RangeAccess, RecNode, AccessSpan, span_of, spans_of}
use accel.Graph.Infer.{infer_edges}
use accel.Graph.Infer.StandIns.{Before}
use accel.Graph.Binding.{
  Graph, SlotDescriptor, storage_buffer, SlotBinding, Bound, bind_all, apply_batch, check_bindings,
  stage, check_binding, check_slot, check_bound, usable, check_usage, DType-discrete, descriptor,
  check_overlaps, any_conflict, conflicts, conflict, slot_spans, add_span, slot_span, latest,
  bind_views, rebind_overlap, unbound,
}
use accel.Graph.Binding.Build.{
  built, concrete_spans, concrete_of, add_concrete, slot_writers, slot_writes, accesses_write,
}
use accel.Graph.Binding.Good.{IsGo}
use accel.Graph.Binding.Checked.{IsValid, built-IsValid, bind_all-IsValid}
use accel.Graph.Binding.Ordered.{bound-infer_edges}
use accel.Graph.Binding.Touched.{slotted, Touches, IsBuilt}

-- Every address has a buffer of sixty-four bytes.
abbrev heap : ℕ → Buffer
heap p = record {
  device = 1;
  block = 9;
  at = 128;
  usage = 1;
  bytes = 64;
  state = record { refs = 1; closed = false };
  transient = false;
}

abbrev slots : List SlotDescriptor
slots =
    record { kind = storage_buffer; dtype = f32; min_count = 4 }
    ∷ record { kind = storage_buffer; dtype = f32; min_count = 4 }
    ∷ []

abbrev use_of : ℕ → Access → RangeAccess
use_of s mode = record {
  res = record { buf = none; tex = none; slot = s };
  off = 0;
  size = 16;
  mode = mode;
  stage = 0;
}

abbrev first : RecNode
first = record { id = 0; stage = 0; accesses = use_of 1 write ∷ [] }

abbrev second : RecNode
second = record { id = 1; stage = 0; accesses = use_of 1 read ∷ use_of 2 read ∷ [] }

abbrev nodes : List RecNode
nodes = first ∷ second ∷ []

abbrev graph : Graph
graph = built 1 heap slots nodes

abbrev view_from : ℕ → BufferView
view_from offset = record { buffer = some 7; dtype = f32; offset = offset; count = 4 }

abbrev batch : ℕ → List SlotBinding
batch offset =
    record { slot = 1; view = view_from 4 } ∷ record { slot = 2; view = view_from offset } ∷ []

abbrev taken : List Bound → Bool
taken staged = true

abbrev bound_graph : Graph
bound_graph = record {
  device = 1;
  slots = slots;
  closed = false;
  in_flight = false;
  bound = unbound ∷ view_from 4 ∷ view_from 8 ∷ [];
  concrete = [];
  slot_writer = false ∷ true ∷ false ∷ [];
}

bound_next_to : bind_all graph heap false taken (batch 8) ≡ ok bound_graph
unfolding bind_all apply_batch check_bindings stage check_binding check_slot check_bound usable
    check_usage DType-discrete descriptor check_overlaps any_conflict conflicts conflict slot_spans
    add_span slot_span latest bind_views concrete_spans concrete_of add_concrete slot_writers
    slot_writes accesses_write built check_named check_usable check_range out_of_range byte_range
    dtype_size
bound_next_to = refl

-- One element in common, of which the first node writes.
bound_across : bind_all graph heap false taken (batch 7) ≡ err (rebind_overlap ∷ [])
unfolding bind_all apply_batch check_bindings stage check_binding check_slot check_bound usable
    check_usage DType-discrete descriptor check_overlaps any_conflict conflicts conflict slot_spans
    add_span slot_span latest bind_views concrete_spans concrete_of add_concrete slot_writers
    slot_writes accesses_write built check_named check_usable check_range out_of_range byte_range
    dtype_size
bound_across = refl

view_small :
    (offset : ℕ)
    → offset < 2 ^ 63
    → (u : SlotBinding) → IsIn u (batch offset)
    → (u.view.offset < 2 ^ 64) × (u.view.count < 2 ^ 64)
view_small offset h u (inl e) = rw e (omega arith, omega arith)
view_small offset h u (inr (inl e)) = rw e (omega (arith, h), omega arith)
view_small offset h u (inr (inr i)) = absurd i

few_counted : (s : ℕ) (d : SlotDescriptor) → descriptor slots s ≡ some d → d.min_count < 2 ^ 63
unfolding descriptor
few_counted zero d e = cc
few_counted (suc zero) d e =
    let same : record { kind = storage_buffer; dtype = f32; min_count = 4 } ≡ d = cc in
    subst (λ (d : SlotDescriptor). d.min_count < 2 ^ 63) same (omega arith)
few_counted (suc (suc zero)) d e =
    let same : record { kind = storage_buffer; dtype = f32; min_count = 4 } ≡ d = cc in
    subst (λ (d : SlotDescriptor). d.min_count < 2 ^ 63) same (omega arith)
few_counted (suc (suc (suc s))) d e = cc

batch-IsGo : IsGo heap graph.slots (batch 8)
unfolding built
batch-IsGo = record {
  bytes = λ p. omega arith;
  counts = few_counted;
  offset = λ u i. (view_small 8 (omega arith) u i).0;
  count = λ u i. (view_small 8 (omega arith) u i).1;
}

bind_all-IsValid_example : IsValid bound_graph heap
bind_all-IsValid_example =
    bind_all-IsValid graph heap false taken (batch 8) batch-IsGo (built-IsValid 1 heap slots nodes)
      bound_next_to

abbrev written : AccessSpan
written = record {
  res = record { buf = none; tex = none; slot = 1 };
  off = 0;
  size = 16;
  node = 0;
  mode = write;
  stage = 0;
}

abbrev seen : AccessSpan
seen = record written { node = 1; mode = read }

-- Each access uses four elements at most.
abbrev Covered : AccessSpan → Type 0
Covered a =
    (d : SlotDescriptor) × (descriptor slots a.res.slot ≡ some d)
    × (a.off + a.size ≤ d.min_count * dtype_size d.dtype)

covered :
    (i : ℕ) (n : RecNode) (a : AccessSpan)
    → get_elem? nodes i ≡ some n
    → IsIn a (spans_of n)
    → Covered a
unfolding descriptor spans_of span_of dtype_size
covered zero n a e i =
    let same : first ≡ n = cc in
    elim (subst (λ n. IsIn a (spans_of n)) (sym same) i) [
      | inl is ↦ subst Covered (sym is) (_, refl, omega arith)
      | inr none_more ↦ absurd none_more
    ]
covered (suc zero) n a e i =
    let same : second ≡ n = cc in
    elim (subst (λ n. IsIn a (spans_of n)) (sym same) i) [
      | inl is ↦ subst Covered (sym is) (_, refl, omega arith)
      | inr (inl is) ↦ subst Covered (sym is) (_, refl, omega arith)
      | inr (inr none_more) ↦ absurd none_more
    ]
covered (suc (suc i)) n a e ia = cc

bound_graph-IsBuilt : IsBuilt bound_graph heap nodes
unfolding concrete_spans concrete_of add_concrete slot_writers slot_writes accesses_write
bound_graph-IsBuilt = record {
  concrete = refl;
  writer = refl;
  declared = λ i n a e ia no_buf one. covered i n a e ia;
}

bound_at : Touches bound_graph heap written 7 144 160
unfolding byte_range dtype_size
bound_at = slotted 7 refl refl (omega arith) refl

seen_at : Touches bound_graph heap seen 7 144 160
unfolding byte_range dtype_size
seen_at = slotted 7 refl refl (omega arith) refl

first_written : IsIn written (spans_of first)
unfolding spans_of span_of
first_written = inl refl

second_seen : IsIn seen (spans_of second)
unfolding spans_of span_of
second_seen = inl refl

bound-infer_edges_example : Before (infer_edges nodes) 0 1
bound-infer_edges_example =
    bound-infer_edges bound_graph heap nodes
      (bind_all-IsValid graph heap false taken (batch 8) batch-IsGo
        (built-IsValid 1 heap slots nodes) bound_next_to)
      bound_graph-IsBuilt 0 1 first second written seen 7 144 160 144 160 (refl, (refl, tt))
      ((omega arith, tt), ((omega arith, (omega arith, tt)), tt)) (omega arith) refl refl
      first_written second_seen (inl refl) bound_at seen_at (omega arith) (omega arith)
