-- ===== src/Graph/Binding/Ordered.antt =====
-- submit.go and infer.go: the edges that are inferred before the slots are bound order all that the
-- bound graph touches.
use native.Mathlib.Decide.{ℕ_discrete}
use accel.Base.{
  ℕ, ◌+◌, ◌<◌, ◌≤◌, ◌≡◌, ◌≢◌, refl, sym, ap, subst, ◌⊎◌, inl, inr, true, false, ==_iff, none, some,
  List, get_or, get_elem?, IsIn, or_left, or_right, arith,
}
use accel.Buffer.{Buffer, byte_range}
use accel.Graph.{Ref, RecNode, AccessSpan, writes, ptr_eq, same_resource, overlaps, spans_of}
use accel.Graph.Infer.{infer_edges}
use accel.Graph.Infer.StandIns.{Before}
use accel.Graph.Infer.Order.{Conflict, IsNumbered, IsSized}
use accel.Graph.Infer.Complete.{infer_edges_orders}
use accel.Graph.Binding.{Graph, slot_span}
use accel.Graph.Binding.Spans.{named_span, concrete_spans-IsIn}
use accel.Graph.Binding.Checked.{IsValid, view_at, span_at}
use accel.Graph.Binding.Touched.{named, slotted, Touches, IsBuilt, writer_at, not-apart, in_span}

same_resource_named :
    (a b : Ref) (p : ℕ) → a.buf ≡ some p → b.buf ≡ some p → same_resource a b ≡ true
unfolding same_resource
same_resource_named a b p ea eb = rw (ea, eb, ptr_eq) (ground arith)

same_resource_slotted :
    (a b : Ref)
    → a.buf ≡ none
    → b.buf ≡ none
    → a.tex ≡ none
    → b.tex ≡ none
    → 1 ≤ a.slot
    → a.slot ≡ b.slot
    → same_resource a b ≡ true
unfolding same_resource
same_resource_slotted a b ea eb ta tb one same =
    rw (ea, eb, ta, tb) (ground (arith, ==_iff a.slot 0, ==_iff a.slot b.slot))

meets :
    (x y : AccessSpan)
    → same_resource x.res y.res ≡ true
    → x.off < y.off + y.size
    → y.off < x.off + x.size
    → overlaps x y ≡ true
unfolding overlaps
meets x y same l m = rw same (ground arith)

module _ (g : Graph) (heap : ℕ → Buffer) (nodes : List RecNode) (valid : IsValid g heap)
    (built : IsBuilt g heap nodes) where
  -- A slot never shares a written byte with a range that a node names.
  named_slotted :
      (i j : ℕ) (m n : RecNode) (x y : AccessSpan) (p : ℕ)
      → get_elem? nodes i ≡ some m
      → get_elem? nodes j ≡ some n
      → IsIn x (spans_of m)
      → IsIn y (spans_of n)
      → (writes x.mode ≡ true) ⊎ (writes y.mode ≡ true)
      → x.res.buf ≡ some p
      → (heap p).transient ≡ false
      → y.res.buf ≡ none
      → 1 ≤ y.res.slot
      → (view_at g y.res.slot).buffer ≡ some p
      → (heap p).at + x.off < (heap p).at + (byte_range (view_at g y.res.slot)).0 + y.off + y.size
      → (heap p).at + (byte_range (view_at g y.res.slot)).0 + y.off < (heap p).at + x.off + x.size
      → ⊥
  unfolding slot_span
  named_slotted i j m n x y p ei ej ix iy w xb lasting yb one yv l1 l2 =
      let (le, room, _) = in_span g heap nodes j n y p valid built ej iy yb one yv in
      let c = named_span heap m.id x.mode x.off x.size p in
      let known : IsIn c g.concrete =
        subst (IsIn c) (sym built.concrete)
          (concrete_spans-IsIn heap nodes i m x p ei ix xb lasting) in
      not-apart (span_at g heap y.res.slot p) c
        ((heap p).at + (byte_range (view_at g y.res.slot)).0 + y.off)
        ((heap p).at + (byte_range (view_at g y.res.slot)).0 + y.off + y.size) ((heap p).at + x.off)
        ((heap p).at + x.off + x.size) (valid.concretes y.res.slot p c one le yv known) refl
        (elim w [
          | inl wx ↦ or_right (get_or g.slot_writer y.res.slot false) (writes x.mode) wx
          | inr wy ↦
              or_left (get_or g.slot_writer y.res.slot false) (writes x.mode)
                (writer_at g heap nodes j n y built one le ej iy wy)
        ])
        (omega arith) (omega (arith, room)) (omega arith) (omega arith) l2 l1

  -- Two slots never share a written byte.
  slotted_slotted :
      (i j : ℕ) (m n : RecNode) (x y : AccessSpan) (p : ℕ)
      → get_elem? nodes i ≡ some m
      → get_elem? nodes j ≡ some n
      → IsIn x (spans_of m)
      → IsIn y (spans_of n)
      → (writes x.mode ≡ true) ⊎ (writes y.mode ≡ true)
      → x.res.buf ≡ none
      → y.res.buf ≡ none
      → 1 ≤ x.res.slot
      → 1 ≤ y.res.slot
      → x.res.slot ≢ y.res.slot
      → (view_at g x.res.slot).buffer ≡ some p
      → (view_at g y.res.slot).buffer ≡ some p
      → (heap p).at + (byte_range (view_at g x.res.slot)).0 + x.off
        < (heap p).at + (byte_range (view_at g y.res.slot)).0 + y.off + y.size
      → (heap p).at + (byte_range (view_at g y.res.slot)).0 + y.off
        < (heap p).at + (byte_range (view_at g x.res.slot)).0 + x.off + x.size
      → ⊥
  unfolding slot_span
  slotted_slotted i j m n x y p ei ej ix iy w xb yb x1 y1 ne xv yv l1 l2 =
      let (xn, x_room, _) = in_span g heap nodes i m x p valid built ei ix xb x1 xv in
      let (yn, y_room, _) = in_span g heap nodes j n y p valid built ej iy yb y1 yv in
      let x_writer = get_or g.slot_writer x.res.slot false in
      let y_writer = get_or g.slot_writer y.res.slot false in
      not-apart (span_at g heap x.res.slot p) (span_at g heap y.res.slot p)
        ((heap p).at + (byte_range (view_at g x.res.slot)).0 + x.off)
        ((heap p).at + (byte_range (view_at g x.res.slot)).0 + x.off + x.size)
        ((heap p).at + (byte_range (view_at g y.res.slot)).0 + y.off)
        ((heap p).at + (byte_range (view_at g y.res.slot)).0 + y.off + y.size)
        (valid.slots x.res.slot y.res.slot p p x1 xn y1 yn ne xv yv) refl
        (elim w [
          | inl wx ↦ or_left x_writer y_writer (writer_at g heap nodes i m x built x1 xn ei ix wx)
          | inr wy ↦ or_right x_writer y_writer (writer_at g heap nodes j n y built y1 yn ej iy wy)
        ])
        (omega arith) (omega (arith, x_room)) (omega arith) (omega (arith, y_room)) l1 l2

  -- What two accesses touch at run time in common, they have in common as they were recorded.
  touch-Conflict :
      (i j : ℕ) (m n : RecNode) (x y : AccessSpan) (p lo hi lo' hi' : ℕ)
      → get_elem? nodes i ≡ some m
      → get_elem? nodes j ≡ some n
      → IsIn x (spans_of m)
      → IsIn y (spans_of n)
      → (writes x.mode ≡ true) ⊎ (writes y.mode ≡ true)
      → Touches g heap x p lo hi
      → Touches g heap y p lo' hi'
      → lo < hi'
      → lo' < hi
      → Conflict x y
  touch-Conflict i j m n x y p lo hi lo' hi' ei ej ix iy w (named _ xb xt) (named _ yb yt) l1 l2 =
      record {
        meets =
            meets x y (same_resource_named x.res y.res p xb yb) (omega (arith, l1))
              (omega (arith, l2));
        writing = w;
      }
  touch-Conflict i j m n x y p lo hi lo' hi' ei ej ix iy w (named _ xb xt) (slotted _ yb yt y1 yv)
        l1 l2 =
      absurd (named_slotted i j m n x y p ei ej ix iy w xb xt yb y1 yv l1 l2)
  touch-Conflict i j m n x y p lo hi lo' hi' ei ej ix iy w (slotted _ xb xt x1 xv) (named _ yb yt)
        l1 l2 =
      absurd (
        named_slotted j i n m y x p ej ei iy ix (elim w [ inl wx ↦ inr wx | inr wy ↦ inl wy ]) yb yt
          xb x1 xv l2 l1)
  touch-Conflict i j m n x y p lo hi lo' hi' ei ej ix iy w (slotted _ xb xt x1 xv)
        (slotted _ yb yt y1 yv) l1 l2 =
      elim (ℕ_discrete x.res.slot y.res.slot) [
        | yes same ↦
            let base : (byte_range (view_at g x.res.slot)).0
                ≡ (byte_range (view_at g y.res.slot)).0 =
              ap (λ s. (byte_range (view_at g s)).0) same in
            record {
              meets =
                  meets x y (same_resource_slotted x.res y.res xb yb xt yt x1 same)
                    (omega (arith, l1, base)) (omega (arith, l2, base));
              writing = w;
            }
        | no other ↦
            absurd (slotted_slotted i j m n x y p ei ej ix iy w xb yb x1 y1 other xv yv l1 l2)
      ]

  -- In a graph with valid bindings whose nodes are numbered in record order and whose accesses are
  -- not empty: where an access of node `i` and one of a later node `j` touch a byte of one buffer as
  -- the slots are bound, and one of the two writes, the edges that were inferred before any slot was
  -- bound lead from `i` to `j`.
  pub bound-infer_edges :
      (i j : ℕ) (m n : RecNode) (x y : AccessSpan) (p lo hi lo' hi' : ℕ)
      → IsNumbered 0 nodes
      → IsSized nodes
      → i < j
      → get_elem? nodes i ≡ some m
      → get_elem? nodes j ≡ some n
      → IsIn x (spans_of m)
      → IsIn y (spans_of n)
      → (writes x.mode ≡ true) ⊎ (writes y.mode ≡ true)
      → Touches g heap x p lo hi
      → Touches g heap y p lo' hi'
      → lo < hi'
      → lo' < hi
      → Before (infer_edges nodes) i j
  bound-infer_edges i j m n x y p lo hi lo' hi' num sized lt ei ej ix iy w tx ty l1 l2 =
      infer_edges_orders nodes i j x y num sized lt ei ej ix iy
        (touch-Conflict i j m n x y p lo hi lo' hi' ei ej ix iy w tx ty l1 l2)
