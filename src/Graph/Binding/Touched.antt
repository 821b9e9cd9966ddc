-- ===== src/Graph/Binding/Touched.antt =====
-- submit.go: what an access touches through its slot when the graph runs.
use native.Mathlib.Nat.{mul-le-mul_right}
use accel.Base.{
  ℕ, zero, suc, ◌+◌, ◌*◌, ◌<◌, ◌≤◌, ◌≡◌, refl, ap, ◌∙◌, inl, inr, true, false, ◌||◌, none, some,
  List, ◌∷◌, get_or, get_elem?, length, IsIn, arith,
}
use accel.Buffer.{dtype_size, Buffer, byte_range}
use accel.Graph.{RecNode, AccessSpan, writes, spans_of}
use accel.Graph.Binding.{Graph, Span, SlotDescriptor, descriptor}
use accel.Graph.Binding.Build.{slot_writes, concrete_spans, slot_writers}
use accel.Graph.Binding.Overlaps.{IsApart}
use accel.Graph.Binding.Spans.{slot_writes-IsIn, get_or-slot_writers}
use accel.Graph.Binding.Checked.{IsValid, view_at, descriptor-le}

-- The bytes of a buffer that an access touches when the graph runs: of a buffer that it names, which
-- is no transient, or of the one that its slot is bound to.
pub data Touches (g : Graph) (heap : ℕ → Buffer) (a : AccessSpan) : ℕ → ℕ → ℕ → Type 0 where
  named :
      (p : ℕ)
      → a.res.buf ≡ some p
      → (heap p).transient ≡ false
      → Touches g heap a p ((heap p).at + a.off) ((heap p).at + a.off + a.size)
  slotted :
      (p : ℕ)
      → a.res.buf ≡ none
      → a.res.tex ≡ none
      → 1 ≤ a.res.slot
      → (view_at g a.res.slot).buffer ≡ some p
      → Touches g heap a p
          ((heap p).at + (byte_range (view_at g a.res.slot)).0 + a.off)
          ((heap p).at + (byte_range (view_at g a.res.slot)).0 + a.off + a.size)

-- A build of these nodes: the spans and the writers are theirs, and a slot's least count covers what
-- they touch of it: the recorder refuses a use beyond it.
pub record IsBuilt (g : Graph) (heap : ℕ → Buffer) (nodes : List RecNode) : Type 0 where
  pub concrete : g.concrete ≡ concrete_spans heap nodes
  pub writer : g.slot_writer ≡ false ∷ slot_writers nodes 1 (length g.slots)
  pub declared :
      (i : ℕ) (n : RecNode) (a : AccessSpan)
      → get_elem? nodes i ≡ some n
      → IsIn a (spans_of n)
      → a.res.buf ≡ none
      → 1 ≤ a.res.slot
      → (d : SlotDescriptor) × (descriptor g.slots a.res.slot ≡ some d)
        × (a.off + a.size ≤ d.min_count * dtype_size d.dtype)

pub writer_at :
    (g : Graph) (heap : ℕ → Buffer) (nodes : List RecNode) (i : ℕ) (n : RecNode) (a : AccessSpan)
    → IsBuilt g heap nodes
    → 1 ≤ a.res.slot
    → a.res.slot ≤ length g.slots
    → get_elem? nodes i ≡ some n
    → IsIn a (spans_of n)
    → writes a.mode ≡ true
    → get_or g.slot_writer a.res.slot false ≡ true
writer_at g heap nodes i n a b one le e ia w = by_slot a.res.slot refl one le
  where
    by_slot :
        (s : ℕ) → s ≡ a.res.slot → 1 ≤ s → s ≤ length g.slots → get_or g.slot_writer s false ≡ true
    by_slot zero is one le = absurd (omega arith)
    by_slot (suc s) is one le =
        ap (λ ws. get_or ws (suc s) false) b.writer
        ∙ get_or-slot_writers nodes 1 (length g.slots) s (omega arith)
        ∙ ap (slot_writes nodes) (omega (arith, is))
        ∙ slot_writes-IsIn nodes i n a e ia w

-- Where one of two spans writes and they share bytes of one buffer, they are not apart.
pub not-apart :
    (a b : Span) (lo hi lo' hi' : ℕ)
    → IsApart a b
    → a.buf ≡ b.buf
    → (a.write || b.write) ≡ true
    → a.lo ≤ lo
    → hi ≤ a.hi
    → b.lo ≤ lo'
    → hi' ≤ b.hi
    → lo < hi'
    → lo' < hi
    → ⊥
not-apart a b lo hi lo' hi' h same w l1 l2 l3 l4 m1 m2 = elim (h same w) [
  | inl p ↦ omega (arith, p, l1, l2, l3, l4, m1, m2)
  | inr q ↦ omega (arith, q, l1, l2, l3, l4, m1, m2)
]

-- What an access touches through a slot lies in the slot's span.
pub in_span :
    (g : Graph) (heap : ℕ → Buffer) (nodes : List RecNode) (i : ℕ) (n : RecNode) (a : AccessSpan)
    (p : ℕ)
    → IsValid g heap
    → IsBuilt g heap nodes
    → get_elem? nodes i ≡ some n
    → IsIn a (spans_of n)
    → a.res.buf ≡ none
    → 1 ≤ a.res.slot
    → (view_at g a.res.slot).buffer ≡ some p
    → (a.res.slot ≤ length g.slots)
      × (a.off + a.size ≤ (byte_range (view_at g a.res.slot)).1)
      × ((heap p).transient ≡ false)
in_span g heap nodes i n a p valid b e ia no_buf one ep =
    let (d, ed, room) = b.declared i n a e ia no_buf one in
    let good = valid.good a.res.slot p d ed ep in
    let range : (byte_range (view_at g a.res.slot)).1
        ≡ (view_at g a.res.slot).count * dtype_size d.dtype =
      ap (λ r. r.1) good.exact ∙ ap (λ t. (view_at g a.res.slot).count * dtype_size t) good.typed in
    (
      (descriptor-le g.slots a.res.slot ed).1,
      omega (arith, room, range, mul-le-mul_right (dtype_size d.dtype) good.enough),
      good.lasting,
    )
