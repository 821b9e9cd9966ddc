-- ===== src/Graph.antt =====
-- record.go, infer.go: the command graph's data. A pointer is its address; a nil one is `none`.
pub mod Keys
pub mod RefMap
pub mod Infer
pub mod Reach
pub mod Barrier
pub mod Alias
pub mod Binding
pub mod Run
use accel.Base.{
  ℕ, ◌+◌, Bool, true, false, Option, none, some, List, [], ◌∷◌, ltb, leb, ◌==◌, ◌&&◌, ◌||◌, not,
  if◌then◌else◌, map,
}

pub data Access : Type 0 where
  read write read_write : Access

pub data Hazard : Type 0 where
  raw waw war : Hazard

-- `resourceRef`
pub record Ref : Type 0 where
  pub buf : Option ℕ
  pub tex : Option ℕ
  pub slot : ℕ

-- `access`, less the uniform promise, which only the recorder reads.
pub record RangeAccess : Type 0 where
  pub res : Ref
  pub off : ℕ
  pub size : ℕ
  pub mode : Access
  pub stage : ℕ

-- The fields of `recNode` that planning reads.
pub record RecNode : Type 0 where
  pub id : ℕ
  pub stage : ℕ
  pub accesses : List RangeAccess

pub record AccessSpan : Type 0 where
  pub res : Ref
  pub off : ℕ
  pub size : ℕ
  pub node : ℕ
  pub mode : Access
  pub stage : ℕ

-- `a.mode == AccessRead || a.mode == AccessReadWrite`
abbrev pub reads : Access → Bool
reads write = false
reads _ = true

abbrev pub writes : Access → Bool
writes read = false
writes _ = true

abbrev pub is_nil : Option ℕ → Bool
is_nil none = true
is_nil (some p) = false

abbrev pub ptr_eq : Option ℕ → Option ℕ → Bool
ptr_eq none none = true
ptr_eq (some p) (some q) = p == q
ptr_eq _ _ = false

unfoldable pub same_resource : Ref → Ref → Bool
same_resource a b =
    if not (is_nil a.buf) || not (is_nil b.buf)
    then ptr_eq a.buf b.buf
    else if not (is_nil a.tex) || not (is_nil b.tex)
    then ptr_eq a.tex b.tex
    else not (a.slot == 0) && a.slot == b.slot

-- Half-open intervals of one resource.
unfoldable pub overlaps : AccessSpan → AccessSpan → Bool
overlaps a b = same_resource a.res b.res && ltb a.off (b.off + b.size) && ltb b.off (a.off + a.size)

unfoldable pub covers : AccessSpan → AccessSpan → Bool
covers a b = same_resource a.res b.res && leb a.off b.off && leb (b.off + b.size) (a.off + a.size)

-- The identity under which a resource is looked up.
unfoldable pub key : Ref → Ref
key r =
    if not (is_nil r.buf)
    then record { buf = r.buf; tex = none; slot = 0 }
    else if not (is_nil r.tex)
    then record { buf = none; tex = r.tex; slot = 0 }
    else record { buf = none; tex = none; slot = r.slot }

-- `==` of the map's keys.
unfoldable pub ref_eq : Ref → Ref → Bool
ref_eq a b = ptr_eq a.buf b.buf && ptr_eq a.tex b.tex && a.slot == b.slot

unfoldable pub span_of : ℕ → RangeAccess → AccessSpan
span_of id a = record {
  res = a.res;
  off = a.off;
  size = a.size;
  node = id;
  mode = a.mode;
  stage = a.stage;
}

unfoldable pub spans_of : RecNode → List AccessSpan
unfolding span_of
spans_of n = map (span_of n.id) n.accesses
