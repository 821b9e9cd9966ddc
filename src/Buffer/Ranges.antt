-- ===== src/Buffer/Ranges.antt =====
-- buffer.go: the bytes of a view.
use mathlib.Core.Path.{ap₂}
use accel.Base.{
  ℕ, ◌+◌, ◌*◌, ◌/◌, ◌^◌, ◌<◌, ◌≤◌, ◌≡◌, ◌≢◌, ◌↔◌, refl, sym, ap, ◌∙◌, false, not, ◌&&◌, ◌||◌, ◌==◌,
  ==_iff, some, arith, neither,
}
use accel.Base.Int64.{slt}
use accel.Base.Result.{ok, ok-injective, then_passed, last_passed, passed-eq, >>=-eq-ok}
use accel.Buffer.{
  DType, f32, f16, bf16, i32, u32, i8, u8, no_dtype, dtype_size, Buffer, BufferView, mul64,
  out_of_range, view_as, check_usable, check_range, check_named, byte_range,
}

-- Elements that lie in a buffer, whose bytes no arithmetic wraps.
abbrev pub IsInside : ℕ → ℕ → ℕ → ℕ → Type 0
IsInside offset count elem bytes = (offset + count) * elem ≤ bytes

-- The two tests of a range, on non-negative numbers.
in_range :
    (d : DType) (offset count bytes : ℕ)
    → dtype_size d ≢ 0
    → bytes < 2 ^ 63
    → offset < 2 ^ 64
    → count < 2 ^ 64
    → ((slt offset 0 || slt count 0) ≡ false)
    → (out_of_range offset count (dtype_size d) bytes ≡ false)
    → IsInside offset count (dtype_size d) bytes
unfolding out_of_range dtype_size
in_range f32 o c b nz hb ho hc s r = ground arith
in_range f16 o c b nz hb ho hc s r = ground arith
in_range bf16 o c b nz hb ho hc s r = ground arith
in_range i32 o c b nz hb ho hc s r = ground arith
in_range u32 o c b nz hb ho hc s r = ground arith
in_range i8 o c b nz hb ho hc s r = ground arith
in_range u8 o c b nz hb ho hc s r = ground arith
in_range no_dtype o c b nz hb ho hc s r = absurd (nz refl)

range_in :
    (d : DType) (offset count bytes : ℕ)
    → dtype_size d ≢ 0
    → bytes < 2 ^ 63
    → IsInside offset count (dtype_size d) bytes
    → ((slt offset 0 || slt count 0) ≡ false)
      × (out_of_range offset count (dtype_size d) bytes ≡ false)
unfolding out_of_range dtype_size
range_in f32 o c b nz hb i = (ground arith, ground arith)
range_in f16 o c b nz hb i = (ground arith, ground arith)
range_in bf16 o c b nz hb i = (ground arith, ground arith)
range_in i32 o c b nz hb i = (ground arith, ground arith)
range_in u32 o c b nz hb i = (ground arith, ground arith)
range_in i8 o c b nz hb i = (ground arith, ground arith)
range_in u8 o c b nz hb i = (ground arith, ground arith)
range_in no_dtype o c b nz hb i = absurd (nz refl)

-- The elements that a whole buffer holds are all of its bytes.
abbrev pub IsWhole : ℕ → ℕ → ℕ → ℕ → Type 0
IsWhole offset count elem bytes = offset ≡ 0 → count ≡ bytes / elem → count * elem ≡ bytes

-- The products of what lies inside do not wrap.
product_lem :
    (d : DType) (offset count bytes : ℕ)
    → bytes < 2 ^ 63
    → IsInside offset count (dtype_size d) bytes
    → (mul64 offset (dtype_size d) ≡ offset * dtype_size d)
      × (mul64 count (dtype_size d) ≡ count * dtype_size d)
unfolding dtype_size
product_lem f32 o c b hb i = (omega (arith, hb, i), omega (arith, hb, i))
product_lem f16 o c b hb i = (omega (arith, hb, i), omega (arith, hb, i))
product_lem bf16 o c b hb i = (omega (arith, hb, i), omega (arith, hb, i))
product_lem i32 o c b hb i = (omega (arith, hb, i), omega (arith, hb, i))
product_lem u32 o c b hb i = (omega (arith, hb, i), omega (arith, hb, i))
product_lem i8 o c b hb i = (omega (arith, hb, i), omega (arith, hb, i))
product_lem u8 o c b hb i = (omega (arith, hb, i), omega (arith, hb, i))
product_lem no_dtype o c b hb i = (omega arith, omega arith)

whole_of : (o c e w b : ℕ) → (o == 0 && c == e && not (w == b)) ≡ false → o ≡ 0 → c ≡ e → w ≡ b
whole_of o c e w b h = ground (arith, ==_iff o 0, ==_iff c e, ==_iff w b)

whole_back : (o c e w b : ℕ) → (o ≡ 0 → c ≡ e → w ≡ b) → (o == 0 && c == e && not (w == b)) ≡ false
whole_back o c e w b h = ground (arith, ==_iff o 0, ==_iff c e, ==_iff w b)

IsWhole-iff :
    (d : DType) (o c b : ℕ)
    → b < 2 ^ 63
    → IsInside o c (dtype_size d) b
    → ((o == 0 && c == b / dtype_size d && not (mul64 c (dtype_size d) == b)) ≡ false)
      ↔ IsWhole o c (dtype_size d) b
IsWhole-iff d o c b hb i =
    let same = (product_lem d o c b hb i).1 in
    (
      λ h x y. sym same ∙ whole_of o c (b / dtype_size d) (mul64 c (dtype_size d)) b h x y,
      λ h. whole_back o c (b / dtype_size d) (mul64 c (dtype_size d)) b (λ x y. same ∙ h x y),
    )

-- What a view asks for, in numbers that do not wrap.
pub record IsViewable (b : Buffer) (d : DType) (offset count : ℕ) : Type 0 where
  pub opened : b.state.closed ≡ false
  pub typed : dtype_size d ≢ 0
  pub inside : IsInside offset count (dtype_size d) b.bytes
  pub whole : IsWhole offset count (dtype_size d) b.bytes

abbrev view_of : ℕ → DType → ℕ → ℕ → BufferView
view_of p d offset count = record { buffer = some p; dtype = d; offset = offset; count = count }

view_as-IsViewable :
    (p : ℕ) (b : Buffer) (d : DType) (o c : ℕ) (v : BufferView)
    → b.bytes < 2 ^ 63
    → o < 2 ^ 64
    → c < 2 ^ 64
    → view_as p b d o c ≡ ok v
    → IsViewable b d o c × (v ≡ view_of p d o c)
unfolding view_as
view_as-IsViewable p b d o c v hb ho hc e =
    let elem = dtype_size d in
    let (c1, e1) = then_passed b.state.closed _ _ e in
    let (c2, e2) = then_passed (elem == 0) _ _ e1 in
    let (c3, e3) = then_passed (slt o 0 || slt c 0) _ _ e2 in
    let (c4, e4) = then_passed (out_of_range o c elem b.bytes) _ _ e3 in
    let (c5, e5) =
      then_passed (o == 0 && c == b.bytes / elem && not (mul64 c elem == b.bytes)) _ _ e4 in
    let typed : elem ≢ 0 = λ z. cc ((==_iff elem 0).1 z, c2) in
    let inside = in_range d o c b.bytes typed hb ho hc c3 c4 in
    (
      record {
        opened = c1;
        typed = typed;
        inside = inside;
        whole = (IsWhole-iff d o c b.bytes hb inside).0 c5;
      },
      sym (ok-injective e5),
    )

IsViewable-view_as :
    (p : ℕ) (b : Buffer) (d : DType) (o c : ℕ)
    → b.bytes < 2 ^ 63
    → IsViewable b d o c
    → view_as p b d o c ≡ ok (view_of p d o c)
unfolding view_as
IsViewable-view_as p b d o c hb i =
    let elem = dtype_size d in
    let (signs, range) = range_in d o c b.bytes i.typed hb i.inside in
    let sized : (elem == 0) ≡ false = ground (arith, ==_iff elem 0, i.typed) in
    passed-eq b.state.closed _ _ i.opened
    ∙ passed-eq (elem == 0) _ _ sized
    ∙ passed-eq (slt o 0 || slt c 0) _ _ signs
    ∙ passed-eq (out_of_range o c elem b.bytes) _ _ range
    ∙ passed-eq (o == 0 && c == b.bytes / elem && not (mul64 c elem == b.bytes)) _ _
        ((IsWhole-iff d o c b.bytes hb i.inside).1 i.whole)

-- Of a buffer whose bytes are an int, `ViewAs` gives a view exactly if the buffer is open, the type
-- has a size, the elements lie in the buffer, and those of a whole buffer leave no byte over; and the
-- view is of that buffer, type and elements.
pub view_as_decides :
    (p : ℕ) (b : Buffer) (d : DType) (offset count : ℕ) (v : BufferView)
    → b.bytes < 2 ^ 63
    → offset < 2 ^ 64
    → count < 2 ^ 64
    → (view_as p b d offset count ≡ ok v) ↔ (
        IsViewable b d offset count
        × (v ≡ record { buffer = some p; dtype = d; offset = offset; count = count }))
view_as_decides p b d offset count v hb ho hc = (
  view_as-IsViewable p b d offset count v hb ho hc,
  λ (i, e). IsViewable-view_as p b d offset count hb i ∙ ap ok (sym e),
)

-- A view that passes its check names bytes of an open buffer that is no transient: its byte range is
-- the elements' without wrapping, and ends inside the buffer; its count is not negative.
pub check_named-IsChecked :
    (heap : ℕ → Buffer) (v : BufferView) (p : ℕ)
    → (heap p).bytes < 2 ^ 63
    → v.offset < 2 ^ 64
    → v.count < 2 ^ 64
    → check_named heap v (some p) ≡ ok tt
    → ((heap p).state.closed ≡ false)
      × ((heap p).transient ≡ false)
      × (byte_range v ≡ (v.offset * dtype_size v.dtype, v.count * dtype_size v.dtype))
      × ((byte_range v).0 + (byte_range v).1 ≤ (heap p).bytes)
      × (v.count < 2 ^ 63)
unfolding check_named check_usable check_range byte_range
check_named-IsChecked heap v p hb ho hc e =
    let b = heap p in
    let elem = dtype_size v.dtype in
    let (_, usable, range) = >>=-eq-ok (check_usable b) _ e in
    let (c1, u1) = then_passed b.state.closed _ _ usable in
    let c2 = last_passed b.transient _ u1 in
    let (c3, r1) = then_passed (elem == 0) _ _ range in
    let c4 =
      last_passed (slt v.offset 0 || slt v.count 0 || out_of_range v.offset v.count elem b.bytes) _
        r1 in
    let (signs, range_ok) = neither (slt v.offset 0 || slt v.count 0) _ c4 in
    let typed : elem ≢ 0 = λ z. cc ((==_iff elem 0).1 z, c3) in
    let inside = in_range v.dtype v.offset v.count b.bytes typed hb ho hc signs range_ok in
    let (same_offset, same_count) = product_lem v.dtype v.offset v.count b.bytes hb inside in
    (
      c1,
      c2,
      ap₂ (λ x y. (x, y)) same_offset same_count,
      omega (arith, same_offset, same_count, inside),
      not_negative v.count hc (neither (slt v.offset 0) (slt v.count 0) signs).1,
    )
  where
    not_negative : (n : ℕ) → n < 2 ^ 64 → slt n 0 ≡ false → n < 2 ^ 63
    not_negative n hn e = ground arith
