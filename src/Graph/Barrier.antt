-- ===== src/Graph/Barrier.antt =====
-- barrier.go: the barrier plan. Barriers are emitted in record order, one entry for each node, so
-- `barriersBefore` is the list of what the walk emits. A reason's `from` is `none` for Go's -1, and
-- `label` is `labelOf`, which reads the descriptors.
pub mod Ranges
pub mod Recorded
pub mod Noted
pub mod Cover
mod Tests
use Prim.Native.String.{String}
use accel.Base.{
  ℕ, suc, ◌+◌, Bool, true, false, not, Option, none, some, List, [], ◌∷◌, ◌++◌, ◌==◌, ◌&&◌, bit_or,
  if◌then◌else◌, map, length,
}
use accel.Graph.{
  Access, Hazard, raw, waw, war, Ref, RecNode, AccessSpan, reads, writes, overlaps, key, spans_of,
}
use accel.Graph.RefMap.{RefMap, find_state, put_state}

-- `barrierReason`
pub record Reason : Type 0 where
  pub hazard : Hazard
  pub from : Option ℕ
  pub label : String

-- `barrier`
pub record Barrier : Type 0 where
  pub src : ℕ
  pub dst : ℕ
  pub memory : Bool
  pub reasons : List Reason

-- `rangeState`
pub record RangeState : Type 0 where
  pub span : AccessSpan
  pub last_write_stage : ℕ
  pub last_write_node : ℕ
  pub written : Bool
  pub read_stages : ℕ
  pub read_nodes : List ℕ

abbrev pub Ranges : Type 0
Ranges = RefMap (List RangeState)

-- The union of the nine stages.
abbrev pub stage_all : ℕ
stage_all = 511

abbrev pub is_war : Hazard → Bool
is_war war = true
is_war _ = false

abbrev pub or_empty : Option Barrier → Barrier
or_empty none = record { src = 0; dst = 0; memory = false; reasons = [] }
or_empty (some b) = b

abbrev pub is_none : Option Barrier → Bool
is_none none = true
is_none (some _) = false

-- The closure `need`.
unfoldable pub need : Option Barrier → Hazard → ℕ → ℕ → ℕ → String → Option Barrier
need o h src dst from label =
    let b = or_empty o in
    some (record {
      src = bit_or (b.src) src;
      dst = bit_or (b.dst) dst;
      memory = if is_war h then b.memory else true;
      reasons = b.reasons ++ record { hazard = h; from = some from; label = label } ∷ [];
    })

unfoldable pub need_readers : Option Barrier → List ℕ → ℕ → ℕ → String → Option Barrier
need_readers o [] src dst label = o
need_readers o (r ∷ rs) src dst label = need_readers (need o war src dst r label) rs src dst label

abbrev pub ranges_or_none : Option (List RangeState) → List RangeState
ranges_or_none none = []
ranges_or_none (some l) = l

module _ (label : Ref → String) where
  -- One access against one range that is pending on its resource.
  unfoldable pub check_range : RangeState → AccessSpan → Option Barrier → Option Barrier
  check_range rs a o =
      if not (overlaps rs.span a)
      then o
      else let l = label a.res in
        let o' =
          if reads a.mode && rs.written
          then need o raw rs.last_write_stage a.stage rs.last_write_node l
          else o in
        if writes a.mode
        then need_readers
            (if rs.written
              then need o' waw rs.last_write_stage a.stage rs.last_write_node l
              else o')
            rs.read_nodes rs.read_stages a.stage l
        else o'

  unfoldable pub check_ranges : List RangeState → AccessSpan → Option Barrier → Option Barrier
  check_ranges [] a o = o
  check_ranges (rs ∷ rest) a o = check_ranges rest a (check_range rs a o)

  unfoldable pub check_spans : Ranges → List AccessSpan → Option Barrier → Option Barrier
  check_spans st [] o = o
  check_spans st (a ∷ rest) o =
      check_spans st rest (check_ranges (ranges_or_none (find_state st (key a.res))) a o)

unfoldable pub clear_range : RangeState → RangeState
clear_range rs = record rs { written = false; read_stages = 0; read_nodes = [] }

unfoldable pub clear_pending : Ranges → Ranges
clear_pending [] = []
clear_pending ((k, l) ∷ st) = (k, map clear_range l) ∷ clear_pending st

unfoldable pub update : RangeState → AccessSpan → RangeState
update rs a =
    let rs' =
      if reads a.mode
      then record rs {
        read_stages = bit_or rs.read_stages a.stage;
        read_nodes = rs.read_nodes ++ a.node ∷ [];
      }
      else rs in
    if writes a.mode
    then record rs' {
      written = true;
      last_write_stage = a.stage;
      last_write_node = a.node;
      read_stages = 0;
      read_nodes = [];
    }
    else rs'

abbrev pub new_range : AccessSpan → RangeState
new_range a = record {
  span = a;
  last_write_stage = 0;
  last_write_node = 0;
  written = false;
  read_stages = 0;
  read_nodes = [];
}

-- The range with the same bounds is updated; where there is none, one is added.
unfoldable pub update_in : List RangeState → AccessSpan → List RangeState
update_in [] a = update (new_range a) a ∷ []
update_in (rs ∷ rest) a =
    if rs.span.off == a.off && rs.span.size == a.size
    then update rs a ∷ rest
    else rs ∷ update_in rest a

unfoldable pub commit_range : Ranges → AccessSpan → Ranges
commit_range st a =
    let k = key a.res in put_state st k (update_in (ranges_or_none (find_state st k)) a)

unfoldable pub commit_ranges : Ranges → List AccessSpan → Ranges
commit_ranges st [] = st
commit_ranges st (a ∷ rest) = commit_ranges (commit_range st a) rest

-- The entry of one node, from the one that stands there already and the barrier it needs.
unfoldable pub merge : Option Barrier → Option Barrier → Option Barrier
merge none b = b
merge (some c) none = some c
merge (some c) (some b) = some (record c { reasons = c.reasons ++ b.reasons })

-- The walk; `cur` is what stands before the first of the nodes.
unfoldable pub plan_nodes :
    (Ref → String) → Ranges → Option Barrier → List RecNode → List (Option Barrier)
plan_nodes label st cur [] = []
plan_nodes label st cur (n ∷ ns) =
    let spans = spans_of n in
    let entry = merge cur (check_spans label st spans none) in
    let st' = if is_none entry then st else clear_pending st in
    entry ∷ plan_nodes label (commit_ranges st' spans) none ns

-- The barrier before the first node.
abbrev pub head_barrier : Barrier
head_barrier = record {
  src = stage_all;
  dst = stage_all;
  memory = true;
  reasons = record { hazard = raw; from = none; label = "head of submission" } ∷ [];
}

unfoldable pub plan_barriers : (Ref → String) → List RecNode → List (Option Barrier)
plan_barriers label nodes = plan_nodes label [] (some head_barrier) nodes

-- `g.barriers`
unfoldable pub count_barriers : List (Option Barrier) → ℕ
count_barriers [] = 0
count_barriers (o ∷ rest) = if is_none o then count_barriers rest else suc (count_barriers rest)

-- The conservative plan.
unfoldable pub plan_serial_barriers : List RecNode → List (Option Barrier)
plan_serial_barriers [] = []
plan_serial_barriers (n ∷ ns) =
    some (record {
      src = stage_all;
      dst = stage_all;
      memory = true;
      reasons = record { hazard = raw; from = none; label = "the conservative plan" } ∷ [];
    })
    ∷ plan_serial_barriers ns
