-- ===== src/Buffer.antt =====
-- buffer.go and memory.go: element types, and the views of a buffer. A view names its buffer by an
-- address, of which `none` is nil; offsets, counts and sizes are Go's `int`, as 64-bit patterns. The
-- calls that a view's check stands before are not here.
pub mod Ranges
mod Tests
use accel.Base.{
  ℕ, ◌+◌, ◌-◌, ◌*◌, ◌/◌, ◌%◌, ◌^◌, Bool, true, false, not, ◌&&◌, ◌||◌, ◌==◌, Option, none, some,
}
use accel.Base.Int64.{sub64, slt}
use accel.Base.Result.{Result, ok, err, ◌>>=◌, ◌>>◌, fail_if}
use accel.Resource.{ResourceState}

-- `no_dtype` is a number that names no type.
pub data DType : Type 0 where
  f32 f16 bf16 i32 u32 i8 u8 no_dtype : DType

-- `DType.Size`, from `dtypeInfo`.
unfoldable pub dtype_size : DType → ℕ
dtype_size f32 = 4
dtype_size f16 = 2
dtype_size bf16 = 2
dtype_size i32 = 4
dtype_size u32 = 4
dtype_size i8 = 1
dtype_size u8 = 1
dtype_size no_dtype = 0

-- What views and bindings read of a buffer: its pool's device and block, and its place there.
pub record Buffer : Type 0 where
  pub device : ℕ
  pub block : ℕ
  pub at : ℕ
  pub usage : ℕ
  pub bytes : ℕ
  pub state : ResourceState
  pub transient : Bool

pub record BufferView : Type 0 where
  pub buffer : Option ℕ
  pub dtype : DType
  pub offset : ℕ
  pub count : ℕ

pub data BufferError : Type 0 where
  no_buffer closed not_a_dtype negative past_end not_whole is_transient : BufferError

abbrev pub mul64 : ℕ → ℕ → ℕ
mul64 a b = a * b % 2 ^ 64

-- `outOfRange`
unfoldable pub out_of_range : ℕ → ℕ → ℕ → ℕ → Bool
out_of_range offset count elem bytes =
    let limit = bytes / elem in slt limit offset || slt (sub64 limit offset) count

-- `ViewAs` of the buffer at an address.
unfoldable pub view_as : ℕ → Buffer → DType → ℕ → ℕ → Result BufferError BufferView
view_as p b d offset count = do
  fail_if b.state.closed closed
  let elem = dtype_size d
  fail_if (elem == 0) not_a_dtype
  fail_if (slt offset 0 || slt count 0) negative
  fail_if (out_of_range offset count elem b.bytes) past_end
  fail_if (offset == 0 && count == b.bytes / elem && not (mul64 count elem == b.bytes)) not_whole
  ok (record { buffer = some p; dtype = d; offset = offset; count = count })

unfoldable pub check_usable : Buffer → Result BufferError (Unit {0})
check_usable b = do fail_if b.state.closed closed; fail_if b.transient is_transient

unfoldable pub check_range : BufferView → Buffer → Result BufferError (Unit {0})
check_range v b = do
  let elem = dtype_size v.dtype
  fail_if (elem == 0) not_a_dtype
  fail_if (slt v.offset 0 || slt v.count 0 || out_of_range v.offset v.count elem b.bytes) past_end

-- `BufferView.check`, of the buffers by address.
unfoldable pub check_named : (ℕ → Buffer) → BufferView → Option ℕ → Result BufferError (Unit {0})
check_named heap v none = err no_buffer
check_named heap v (some p) = check_usable (heap p) >> check_range v (heap p)

unfoldable pub check_view : (ℕ → Buffer) → BufferView → Result BufferError (Unit {0})
check_view heap v = check_named heap v v.buffer

unfoldable pub byte_range : BufferView → ℕ × ℕ
byte_range v = let elem = dtype_size v.dtype in (mul64 v.offset elem, mul64 v.count elem)
