-- ===== src/Buffer/Tests.antt =====
-- buffer.go: views of a buffer of sixty-six bytes.
use accel.Base.{◌-◌, ◌^◌, ◌↔◌, ◌≡◌, refl, false, some, arith}
use accel.Base.Result.{ok, err}
use accel.Buffer.{
  Buffer, BufferView, f32, dtype_size, view_as, out_of_range, past_end, not_whole, negative,
}
use accel.Buffer.Ranges.{IsViewable, view_as_decides}

abbrev weights : Buffer
weights = record {
  device = 1;
  block = 9;
  at = 128;
  usage = 1;
  bytes = 66;
  state = record { refs = 1; closed = false };
  transient = false;
}

abbrev tail : BufferView
tail = record { buffer = some 5; dtype = f32; offset = 4; count = 12 }

tail_made : view_as 5 weights f32 4 12 ≡ ok tail
unfolding view_as out_of_range dtype_size
tail_made = refl

one_too_many : view_as 5 weights f32 4 13 ≡ err past_end
unfolding view_as out_of_range dtype_size
one_too_many = refl

-- All that fits from the start leaves two bytes over.
whole_refused : view_as 5 weights f32 0 16 ≡ err not_whole
unfolding view_as out_of_range dtype_size
whole_refused = refl

minus_one_refused : view_as 5 weights f32 (2 ^ 64 - 1) 1 ≡ err negative
unfolding view_as dtype_size
minus_one_refused = refl

view_as_decides_example :
    (view_as 5 weights f32 4 12 ≡ ok tail) ↔ (IsViewable weights f32 4 12 × (tail ≡ tail))
view_as_decides_example =
    view_as_decides 5 weights f32 4 12 tail (omega arith) (omega arith) (omega arith)
