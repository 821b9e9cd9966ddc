-- ===== src/Graph/Binding.antt =====
-- submit.go: the resources that a graph's slots are bound to. The buffers stand by address; a slot is
-- its number, of which 0 is none; an error is its kind. `lost` is whether the driver has lost the
-- device, and `rebind` whether its executable takes a batch. Places in a pool are natural numbers.
pub mod Build
pub mod Overlaps
pub mod Good
pub mod Checked
pub mod Spans
pub mod Touched
pub mod Ordered
mod Tests
use mathlib.Core.Logic.{ite}
use accel.Base.{
  ◌≡◌, ℕ, zero, suc, ◌+◌, ◌-◌, Bool, true, false, not, ◌&&◌, ◌||◌, ◌==◌, ltb, leb, if◌then◌else◌,
  Option, none, some, List, [], ◌∷◌, ◌++◌, length, get_elem?, get_or, set, replicate, bit_and,
}
use accel.Base.Int64.{slt}
use accel.Base.Result.{Result, ok, err, ◌>>=◌, ◌>>◌, fail_if}
use accel.Resource.{ResourceState}
use accel.Buffer.{
  DType, f32, f16, bf16, i32, u32, i8, u8, no_dtype, Buffer, BufferView, BufferError, check_named,
  byte_range,
}
use accel.Graph.{Access, Ref, RangeAccess, RecNode, writes, is_nil}

pub data BindingKind : Type 0 where
  storage_buffer uniform_buffer sampled_texture storage_texture sampler attachment : BindingKind

-- What binding reads of a slot's descriptor.
pub record SlotDescriptor : Type 0 where
  pub kind : BindingKind
  pub dtype : DType
  pub min_count : ℕ

pub record SlotBinding : Type 0 where
  pub slot : ℕ
  pub view : BufferView

-- The driver's binding.
pub record Bound : Type 0 where
  pub slot : ℕ
  pub block : ℕ
  pub offset : ℕ
  pub size : ℕ

pub data BindError : Type 0 where
  graph_closed device_lost slot_unbound kind_mismatch dtype_mismatch foreign_resource : BindError
  too_small usage_missing graph_in_flight rebind_overlap not_rebound : BindError
  unusable : BufferError → BindError

pub record Span : Type 0 where
  pub slot : ℕ
  pub node : ℕ
  pub buf : ℕ
  pub lo : ℕ
  pub hi : ℕ
  pub write : Bool

-- What binding and running read and change of a graph.
pub record Graph : Type 0 where
  pub device : ℕ
  pub slots : List SlotDescriptor
  pub closed : Bool
  pub in_flight : Bool
  pub bound : List BufferView
  pub concrete : List Span
  pub slot_writer : List Bool

unfoldable pub DType-discrete : (a b : DType) → Dec (a ≡ b)
DType-discrete = hlevel

unfoldable pub descriptor : List SlotDescriptor → ℕ → Option SlotDescriptor
descriptor slots zero = none
descriptor slots (suc s) = get_elem? slots s

-- `BufferStorage` and `BufferUniform`
abbrev pub buffer_usage : BindingKind → ℕ
buffer_usage uniform_buffer = 2
buffer_usage kind = 1

abbrev pub is_buffer : BindingKind → Bool
is_buffer storage_buffer = true
is_buffer uniform_buffer = true
is_buffer kind = false

unfoldable pub check_usage : SlotDescriptor → Buffer → Result BindError (Unit {0})
check_usage d b = fail_if (bit_and b.usage (buffer_usage d.kind) == 0) usage_missing

-- An error of a view's check.
unfoldable pub usable : Result BufferError (Unit {0}) → Result BindError (Unit {0})
usable (ok u) = ok u
usable (err e) = err (unusable e)

abbrev pub same_dtype : DType → DType → Bool
same_dtype a b = ite (DType-discrete a b) true false

-- `checkBinding` of a view that names the buffer at an address, for a slot's descriptor.
unfoldable pub check_bound :
    ℕ → (ℕ → Buffer) → SlotBinding → SlotDescriptor → ℕ → Result BindError Bound
check_bound device heap b d p = do
  let v = b.view
  fail_if (not (is_buffer d.kind)) kind_mismatch
  fail_if (not (same_dtype v.dtype d.dtype)) dtype_mismatch
  usable (check_named heap v (some p))
  fail_if (not ((heap p).device == device)) foreign_resource
  fail_if (slt v.count d.min_count) too_small
  check_usage d (heap p)
  let (off, size) = byte_range v
  ok (record { slot = b.slot; block = (heap p).block; offset = (heap p).at + off; size = size })

unfoldable pub check_slot :
    ℕ → (ℕ → Buffer) → SlotBinding → Option SlotDescriptor → Option ℕ → Result BindError Bound
check_slot device heap b none v = err slot_unbound
check_slot device heap b (some d) none = err slot_unbound
check_slot device heap b (some d) (some p) = check_bound device heap b d p

unfoldable pub check_binding : Graph → (ℕ → Buffer) → SlotBinding → Result BindError Bound
check_binding g heap b = check_slot g.device heap b (descriptor g.slots b.slot) b.view.buffer

-- The staged bindings and all errors of a batch.
unfoldable pub stage :
    Result BindError Bound → List Bound × List BindError → List Bound × List BindError
stage (ok s) (staged, errs) = (s ∷ staged, errs)
stage (err e) (staged, errs) = (staged, e ∷ errs)

unfoldable pub check_bindings :
    Graph → (ℕ → Buffer) → List SlotBinding → List Bound × List BindError
check_bindings g heap [] = ([], [])
check_bindings g heap (b ∷ bs) = stage (check_binding g heap b) (check_bindings g heap bs)

-- No view.
abbrev pub unbound : BufferView
unbound = record { buffer = none; dtype = f32; offset = 0; count = 0 }

-- A slot's view with a batch applied.
unfoldable pub latest : List SlotBinding → ℕ → BufferView → BufferView
latest [] s v = v
latest (u ∷ us) s v = latest us s (if u.slot == s then u.view else v)

-- A slot's span, of a view that names the buffer at an address.
unfoldable pub slot_span : (ℕ → Buffer) → ℕ → Bool → BufferView → ℕ → Span
slot_span heap s write v p =
    let (off, size) = byte_range v in
    let base = (heap p).at + off in
    record { slot = s; node = 0; buf = p; lo = base; hi = base + size; write = write }

unfoldable pub add_span : (ℕ → Buffer) → ℕ → Bool → BufferView → Option ℕ → List Span → List Span
add_span heap s write v none spans = spans
add_span heap s write v (some p) spans = slot_span heap s write v p ∷ spans

-- The spans of `n` slots from `s`.
unfoldable pub slot_spans : Graph → (ℕ → Buffer) → List SlotBinding → ℕ → ℕ → List Span
slot_spans g heap us s zero = []
slot_spans g heap us s (suc n) =
    let v = latest us s (get_or g.bound s unbound) in
    add_span heap s (get_or g.slot_writer s false) v v.buffer (slot_spans g heap us (suc s) n)

-- Two spans that share bytes, of which one writes.
unfoldable pub conflict : Span → Span → Bool
conflict a b =
    if not (a.buf == b.buf) || not (a.write || b.write)
    then false
    else if leb b.hi a.lo || leb a.hi b.lo
    then false
    else true

unfoldable pub conflicts : Span → List Span → Bool
conflicts a [] = false
conflicts a (b ∷ bs) = conflict a b || conflicts a bs

unfoldable pub any_conflict : List Span → List Span → Bool
any_conflict [] concrete = false
any_conflict (a ∷ rest) concrete =
    conflicts a rest || conflicts a concrete || any_conflict rest concrete

-- `checkOverlaps`: whether it finds a conflict in the bindings with a batch applied.
unfoldable pub check_overlaps : Graph → (ℕ → Buffer) → List SlotBinding → Bool
check_overlaps g heap us = any_conflict (slot_spans g heap us 1 (length g.slots)) g.concrete

unfoldable pub bind_views : List SlotBinding → List BufferView → List BufferView
bind_views [] bound = bound
bind_views (b ∷ bs) bound = bind_views bs (set bound b.slot b.view)

-- `bindAll`, with the errors that a caller sees joined.
unfoldable pub apply_batch :
    Graph
    → (ℕ → Buffer)
    → Bool
    → (List Bound → Bool)
    → List SlotBinding
    → List Bound × List BindError
    → Result (List BindError) Graph
apply_batch g heap lost rebind bs (staged, e ∷ errs) = err (e ∷ errs)
apply_batch g heap lost rebind bs (staged, []) = do
  fail_if g.in_flight (graph_in_flight ∷ [])
  fail_if (check_overlaps g heap bs) (rebind_overlap ∷ [])
  fail_if (not (rebind staged)) (not_rebound ∷ [])
  ok (record g { bound = bind_views bs g.bound })

unfoldable pub bind_all :
    Graph
    → (ℕ → Buffer)
    → Bool
    → (List Bound → Bool)
    → List SlotBinding
    → Result (List BindError) Graph
bind_all g heap lost rebind bs = do
  fail_if g.closed (graph_closed ∷ [])
  fail_if lost (device_lost ∷ [])
  apply_batch g heap lost rebind bs (check_bindings g heap bs)
