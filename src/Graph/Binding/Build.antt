-- ===== src/Graph/Binding/Build.antt =====
-- submit.go and build.go: what a build sets up for binding.
use accel.Base.{
  ℕ, zero, suc, ◌+◌, Bool, false, ◌&&◌, ◌||◌, ◌==◌, if◌then◌else◌, Option, none, some, List, [],
  ◌∷◌, length, replicate,
}
use accel.Buffer.{Buffer}
use accel.Graph.{RangeAccess, RecNode, writes}
use accel.Graph.Binding.{SlotDescriptor, Span, Graph, unbound}

-- `slotWrites`
unfoldable pub accesses_write : List RangeAccess → ℕ → Bool
accesses_write [] s = false
accesses_write (a ∷ rest) s = (a.res.slot == s && writes a.mode) || accesses_write rest s

unfoldable pub slot_writes : List RecNode → ℕ → Bool
slot_writes [] s = false
slot_writes (n ∷ ns) s = accesses_write n.accesses s || slot_writes ns s

-- The span of an access that names a buffer, which is no transient.
unfoldable pub add_concrete : (ℕ → Buffer) → ℕ → RangeAccess → Option ℕ → List Span → List Span
add_concrete heap id a none out = out
add_concrete heap id a (some p) out =
    if (heap p).transient
    then out
    else record {
      slot = 0;
      node = id;
      buf = p;
      lo = (heap p).at + a.off;
      hi = (heap p).at + a.off + a.size;
      write = writes a.mode;
    }
      ∷ out

unfoldable pub concrete_of : (ℕ → Buffer) → ℕ → List RangeAccess → List Span → List Span
concrete_of heap id [] out = out
concrete_of heap id (a ∷ rest) out = add_concrete heap id a a.res.buf (concrete_of heap id rest out)

unfoldable pub concrete_spans : (ℕ → Buffer) → List RecNode → List Span
concrete_spans heap [] = []
concrete_spans heap (n ∷ ns) = concrete_of heap n.id n.accesses (concrete_spans heap ns)

-- `slotWriter` of `n` slots from `s`.
unfoldable pub slot_writers : List RecNode → ℕ → ℕ → List Bool
slot_writers nodes s zero = []
slot_writers nodes s (suc n) = slot_writes nodes s ∷ slot_writers nodes (suc s) n

-- What a build sets up for binding; entry 0 is unused.
unfoldable pub built : ℕ → (ℕ → Buffer) → List SlotDescriptor → List RecNode → Graph
built device heap slots nodes = record {
  device = device;
  slots = slots;
  closed = false;
  in_flight = false;
  bound = replicate (suc (length slots)) unbound;
  concrete = concrete_spans heap nodes;
  slot_writer = false ∷ slot_writers nodes 1 (length slots);
}
