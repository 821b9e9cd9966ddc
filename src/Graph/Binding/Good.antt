-- ===== src/Graph/Binding/Good.antt =====
-- submit.go: what a view that `checkBinding` takes is.
use accel.Base.{
  ℕ, ◌+◌, ◌*◌, ◌^◌, ◌<◌, ◌≤◌, ◌≡◌, refl, sym, subst, inl, inr, true, false, not, ◌==◌, ==_iff, some,
  List, [], ◌∷◌, IsIn, arith,
}
use mathlib.Core.Logic.{ite}
use accel.Base.Int64.{slt}
use accel.Base.Result.{Result, ok, err, then_passed, >>=-eq-ok}
use accel.Buffer.{DType, dtype_size, Buffer, BufferView, BufferError, check_named, byte_range}
use accel.Buffer.Ranges.{check_named-IsChecked}
use accel.Graph.Binding.{
  Graph, SlotDescriptor, SlotBinding, Bound, BindError, DType-discrete, same_dtype, is_buffer,
  descriptor, usable, check_bound, check_slot, check_binding, stage, check_bindings,
}

-- A view that a slot may have: of the slot's type and with the elements that the nodes need, in bytes
-- of an open range of a buffer of the device that is no transient.
pub record IsGood (device : ℕ) (heap : ℕ → Buffer) (d : SlotDescriptor) (v : BufferView) (p : ℕ)
    : Type 0 where
  pub typed : v.dtype ≡ d.dtype
  pub lasting : (heap p).transient ≡ false
  pub ours : (heap p).device ≡ device
  pub exact : byte_range v ≡ (v.offset * dtype_size v.dtype, v.count * dtype_size v.dtype)
  pub inside : (byte_range v).0 + (byte_range v).1 ≤ (heap p).bytes
  pub enough : d.min_count ≤ v.count

-- Sizes and views are Go's: a buffer's bytes and a slot's least count are not negative.
pub record IsGo (heap : ℕ → Buffer) (slots : List SlotDescriptor) (us : List SlotBinding)
    : Type 0 where
  pub bytes : (p : ℕ) → (heap p).bytes < 2 ^ 63
  pub counts : (s : ℕ) (d : SlotDescriptor) → descriptor slots s ≡ some d → d.min_count < 2 ^ 63
  pub offset : (u : SlotBinding) → IsIn u us → u.view.offset < 2 ^ 64
  pub count : (u : SlotBinding) → IsIn u us → u.view.count < 2 ^ 64

same_dtype-eq : (a b : DType) → not (same_dtype a b) ≡ false → a ≡ b
same_dtype-eq a b e = by_case (DType-discrete a b) e
  where
    by_case : (t : Dec (a ≡ b)) → not (ite t true false) ≡ false → a ≡ b
    by_case (yes p) h = p
    by_case (no q) h = cc

usable-ok : (r : Result BufferError (Unit {0})) {u : Unit {0}} → usable r ≡ ok u → r ≡ ok tt
unfolding usable
usable-ok (ok u) e = refl
usable-ok (err x) e = cc

count_le : (c m : ℕ) → c < 2 ^ 63 → m < 2 ^ 63 → slt c m ≡ false → m ≤ c
count_le c m hc hm e = ground arith

check_bound-IsGood :
    (device : ℕ) (heap : ℕ → Buffer) (b : SlotBinding) (d : SlotDescriptor) (p : ℕ) {r : Bound}
    → (heap p).bytes < 2 ^ 63
    → d.min_count < 2 ^ 63
    → b.view.offset < 2 ^ 64
    → b.view.count < 2 ^ 64
    → check_bound device heap b d p ≡ ok r
    → IsGood device heap d b.view p
unfolding check_bound
check_bound-IsGood device heap b d p hb hm ho hc e =
    let v = b.view in
    let (c1, e1) = then_passed (not (is_buffer d.kind)) _ _ e in
    let (c2, e2) = then_passed (not (same_dtype v.dtype d.dtype)) _ _ e1 in
    let (_, c3, e3) = >>=-eq-ok (usable (check_named heap v (some p))) _ e2 in
    let (c4, e4) = then_passed (not ((heap p).device == device)) _ _ e3 in
    let (c5, e5) = then_passed (slt v.count d.min_count) _ _ e4 in
    let (opened, lasting, exact, inside, positive) =
      check_named-IsChecked heap v p hb ho hc (usable-ok (check_named heap v (some p)) c3) in
    record {
      typed = same_dtype-eq v.dtype d.dtype c2;
      lasting = lasting;
      ours = ground (arith, ==_iff (heap p).device device);
      exact = exact;
      inside = inside;
      enough = count_le v.count d.min_count positive hm c5;
    }

-- A batch without errors has none in a binding.
stage_none :
    (r : Result BindError Bound) (rest : List Bound × List BindError)
    → (stage r rest).1 ≡ []
    → ((x : Bound) × (r ≡ ok x)) × (rest.1 ≡ [])
unfolding stage
stage_none (ok x) rest e = ((x, refl), e)
stage_none (err w) rest e = cc

pub check_bindings-IsIn :
    (g : Graph) (heap : ℕ → Buffer) (bs : List SlotBinding) (b : SlotBinding)
    → (check_bindings g heap bs).1 ≡ []
    → IsIn b bs
    → (x : Bound) × (check_binding g heap b ≡ ok x)
unfolding check_bindings
check_bindings-IsIn g heap [] b e i = absurd i
check_bindings-IsIn g heap (c ∷ bs) b e (inl same) =
    let (made, rest) = stage_none (check_binding g heap c) (check_bindings g heap bs) e in
    subst (λ c. (x : Bound) × (check_binding g heap c ≡ ok x)) (sym same) made
check_bindings-IsIn g heap (c ∷ bs) b e (inr i) =
    let (made, rest) = stage_none (check_binding g heap c) (check_bindings g heap bs) e in
    check_bindings-IsIn g heap bs b rest i

pub check_binding-IsGood :
    (g : Graph) (heap : ℕ → Buffer) (b : SlotBinding) (d : SlotDescriptor) (p : ℕ) {x : Bound}
    → (heap p).bytes < 2 ^ 63
    → d.min_count < 2 ^ 63
    → b.view.offset < 2 ^ 64
    → b.view.count < 2 ^ 64
    → descriptor g.slots b.slot ≡ some d
    → b.view.buffer ≡ some p
    → check_binding g heap b ≡ ok x
    → IsGood g.device heap d b.view p
unfolding check_binding check_slot
check_binding-IsGood g heap b d p hb hm ho hc ed ep e =
    check_bound-IsGood g.device heap b d p hb hm ho hc (rw (ed, ep, check_slot) at e)
