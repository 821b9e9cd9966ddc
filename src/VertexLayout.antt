-- ===== src/VertexLayout.antt =====
-- vertexlayout.go: attribute formats, and the check of a pipeline's vertex buffers against its vertex
-- stage. `int`s are 64-bit patterns. The map `declared` is the list of the attributes that were
-- entered; it is looked up by location, and no location is entered twice.
pub mod Attributes
pub mod Accepted
mod Tests
use Prim.Native.String.{String}
use accel.Base.{
  ℕ, ◌*◌, Bool, true, false, not, ◌&&◌, ◌||◌, Option, none, some, List, [], ◌∷◌, ◌++◌, ◌==◌,
  if◌then◌else◌, length,
}
use accel.Base.Int64.{add64, slt, not_positive}
use accel.Base.Result.{Result, ok, err, ◌>>=◌, ◌>>◌, fail_if}

pub data AttrFormat : Type 0 where
  attr_invalid attr_float32 attr_float32x2 attr_float32x3 attr_float32x4 : AttrFormat
  attr_unorm8x2 attr_unorm8x4 attr_snorm8x2 attr_snorm8x4 : AttrFormat
  attr_unorm16x2 attr_unorm16x4 attr_snorm16x2 attr_snorm16x4 : AttrFormat

pub record AttrInfo : Type 0 where
  pub name : String
  pub components : ℕ
  pub bytes : ℕ
  pub signed : Bool
  pub normalized : Bool

abbrev info : String → ℕ → ℕ → Bool → Bool → AttrInfo
info n c b s z = record { name = n; components = c; bytes = b; signed = s; normalized = z }

-- `attrTable`, with the zero entry for what it has not.
unfoldable pub attr_table : AttrFormat → AttrInfo
attr_table attr_invalid = info "" 0 0 false false
attr_table attr_float32 = info "float32" 1 4 true false
attr_table attr_float32x2 = info "float32x2" 2 4 true false
attr_table attr_float32x3 = info "float32x3" 3 4 true false
attr_table attr_float32x4 = info "float32x4" 4 4 true false
attr_table attr_unorm8x2 = info "unorm8x2" 2 1 false true
attr_table attr_unorm8x4 = info "unorm8x4" 4 1 false true
attr_table attr_snorm8x2 = info "snorm8x2" 2 1 true true
attr_table attr_snorm8x4 = info "snorm8x4" 4 1 true true
attr_table attr_unorm16x2 = info "unorm16x2" 2 2 false true
attr_table attr_unorm16x4 = info "unorm16x4" 4 2 false true
attr_table attr_snorm16x2 = info "snorm16x2" 2 2 true true
attr_table attr_snorm16x4 = info "snorm16x4" 4 2 true true

unfoldable pub components : AttrFormat → ℕ
components f = (attr_table f).components

unfoldable pub size : AttrFormat → ℕ
size f = let i = attr_table f in i.components * i.bytes

pub data StepMode : Type 0 where
  step_vertex step_instance : StepMode

pub record VertexAttribute : Type 0 where
  pub location : ℕ
  pub format : AttrFormat
  pub offset : ℕ

pub record VertexBufferLayout : Type 0 where
  pub stride : ℕ
  pub step_mode : StepMode
  pub attributes : List VertexAttribute

pub record StageAttribute : Type 0 where
  pub name : String
  pub index : ℕ
  pub components : ℕ

pub data LayoutError : Type 0 where
  too_many_buffers stride_not_positive no_attributes no_components out_of_stride : LayoutError
  declared_twice count_differs not_declared width_differs : LayoutError

unfoldable pub find_declared : List VertexAttribute → ℕ → Option VertexAttribute
find_declared [] l = none
find_declared (a ∷ declared) l = if a.location == l then some a else find_declared declared l

abbrev pub is_some : Option VertexAttribute → Bool
is_some none = false
is_some (some a) = true

unfoldable pub check_attribute :
    ℕ → List VertexAttribute → VertexAttribute → Result LayoutError (List VertexAttribute)
check_attribute stride declared a = do
  fail_if (components a.format == 0) no_components
  fail_if (slt a.offset 0 || slt stride (add64 a.offset (size a.format))) out_of_stride
  fail_if (is_some (find_declared declared a.location)) declared_twice
  ok (declared ++ a ∷ [])

unfoldable pub check_attributes :
    ℕ → List VertexAttribute → List VertexAttribute → Result LayoutError (List VertexAttribute)
check_attributes stride declared [] = ok declared
check_attributes stride declared (a ∷ rest) = do
  declared' ← check_attribute stride declared a
  check_attributes stride declared' rest

unfoldable pub check_buffers :
    List VertexAttribute → List VertexBufferLayout → Result LayoutError (List VertexAttribute)
check_buffers declared [] = ok declared
check_buffers declared (b ∷ bufs) = do
  fail_if (not_positive b.stride) stride_not_positive
  fail_if (length b.attributes == 0) no_attributes
  declared' ← check_attributes b.stride declared b.attributes
  check_buffers declared' bufs

unfoldable pub check_width : Option VertexAttribute → ℕ → Result LayoutError (Unit {0})
check_width none n = err not_declared
check_width (some got) n = fail_if (not (components got.format == n)) width_differs

unfoldable pub check_stage :
    List VertexAttribute → List StageAttribute → Result LayoutError (Unit {0})
check_stage declared [] = ok tt
check_stage declared (want ∷ rest) = do
  check_width (find_declared declared want.index) want.components
  check_stage declared rest

unfoldable pub check_vertex_layout :
    ℕ → List StageAttribute → List VertexBufferLayout → Result LayoutError (Unit {0})
check_vertex_layout limit vs bufs = do
  fail_if (slt 0 limit && slt limit (length bufs)) too_many_buffers
  declared ← check_buffers [] bufs
  fail_if (not (length declared == length vs)) count_differs
  check_stage declared vs
