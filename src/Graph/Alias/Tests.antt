-- ===== src/Graph/Alias/Tests.antt =====
-- alias.go: three transients of a chain of three nodes. The third shares the bytes of the first.
use accel.Base.{ℕ, inl, inr, ◌≡◌, refl, ◌⊎◌, true, false, Option, none, some, List, [], ◌∷◌, arith}
use accel.Base.Sort.{insert, sort}
use accel.Graph.Reach.{Reach, reaches}
use accel.Graph.{Ref, Access, read, write, RangeAccess, RecNode}
use accel.Graph.Alias.Reads.{
  check_written, check_accesses, check_access, uncovered_read, written_before, writes_to,
}
use accel.Graph.Alias.Reads.Initialised.{Covered, check_written_lem}
use accel.Graph.Barrier.{Barrier}
use accel.Graph.Alias.{
  Transient, align_up, before_all, all_before, compatible, first_free, lowest_free_offset,
  first_writer, packs_before, place_all, pack_transients, overlap_bytes, span_of_placed, ByteRange,
  reach_from, first_gap,
}
use accel.Graph.Alias.Apart.{AllOrdered, pack_transients_ordered}
use accel.Graph.Alias.Pool.{Places, pack_transients-Places}
use accel.Graph.Alias.Written.{GapOf, first_gap_lem}
use accel.Graph.Alias.Handover.{plan_handovers}
use accel.Graph.Alias.Handover.Guards.{Guarded, Shares, plan_handovers-Guarded}

-- 0 reaches 1, 2 and 3, 1 reaches 2 and 3, and 2 reaches 3.
abbrev chain : Reach
chain = record { rows = (14 ∷ []) ∷ (12 ∷ []) ∷ (8 ∷ []) ∷ (0 ∷ []) ∷ []; words = 1 }

abbrev transient : ℕ → List ℕ → Transient
transient bytes users = record {
  bytes = bytes;
  offset = 0;
  placed = false;
  users = users;
  writer = none;
}

abbrev at : Transient → ℕ → Transient
at t off = record t { offset = off; placed = true }

abbrev first : Transient
first = transient 300 (0 ∷ 1 ∷ [])

abbrev second : Transient
second = transient 200 (1 ∷ 2 ∷ [])

abbrev third : Transient
third = transient 100 (2 ∷ 3 ∷ [])

abbrev all_three : List Transient
all_three = third ∷ first ∷ second ∷ []

pack_of_three :
    pack_transients chain 256 all_three
    ≡ record { placed = at first 0 ∷ at second 512 ∷ at third 0 ∷ []; total = 768 }
unfolding pack_transients place_all sort insert packs_before first_writer lowest_free_offset
    first_free span_of_placed compatible all_before before_all reaches align_up
pack_of_three = refl

pack_transients_ordered_example :
    AllOrdered chain (at third 0) (at first 0) ⊎ AllOrdered chain (at first 0) (at third 0)
unfolding pack_transients place_all sort insert packs_before first_writer lowest_free_offset
    first_free span_of_placed compatible all_before before_all reaches align_up overlap_bytes
pack_transients_ordered_example =
    pack_transients_ordered chain 256 all_three 0 2 (at first 0) (at third 0) (omega arith) refl
      refl refl

pack_transients-Places_example : Places 256 all_three (pack_transients chain 256 all_three)
pack_transients-Places_example = pack_transients-Places chain 256 all_three (omega arith)

abbrev half : ByteRange
half = record { lo = 0; hi = 4 }

gap_after_half :
    first_gap (record { lo = 2; hi = 8 }) (record { lo = 6; hi = 8 } ∷ half ∷ [])
    ≡ some (record { lo = 4; hi = 8 })
unfolding first_gap reach_from sort insert
gap_after_half = refl

first_gap_lem_example :
    GapOf
      (record { lo = 2; hi = 8 })
      (half ∷ [])
      (first_gap (record { lo = 2; hi = 8 }) (half ∷ []))
first_gap_lem_example = first_gap_lem (record { lo = 2; hi = 8 }) (half ∷ [])

abbrev empty_plan : List (Option Barrier)
empty_plan = none ∷ none ∷ none ∷ none ∷ []

shared_bytes : Shares 256 (at third 0) (at first 0)
unfolding overlap_bytes align_up
shared_bytes = record { placed = refl; used = refl; meets = refl }

plan_handovers-Guarded_example :
    Guarded
      (plan_handovers 256
        (64 ∷ 64 ∷ 64 ∷ 64 ∷ [])
        empty_plan
        (at first 0 ∷ at second 512 ∷ at third 0 ∷ []))
      2
plan_handovers-Guarded_example =
    plan_handovers-Guarded 256 (64 ∷ 64 ∷ 64 ∷ 64 ∷ []) empty_plan
      (at first 0 ∷ at second 512 ∷ at third 0 ∷ []) 0 2 (at third 0) (at first 0) (omega arith)
      refl refl refl refl shared_bytes (omega arith)

-- Node 0 writes the first half of a transient, node 1 the second, and node 2 reads all of it.
abbrev touch : ℕ → ℕ → Access → RangeAccess
touch off size mode = record {
  res = record { buf = some 1; tex = none; slot = 0 };
  off = off;
  size = size;
  mode = mode;
  stage = 64;
}

abbrev node : ℕ → RangeAccess → RecNode
node id a = record { id = id; stage = 64; accesses = a ∷ [] }

abbrev halves : List RecNode
halves = node 0 (touch 0 4 write) ∷ node 1 (touch 4 4 write) ∷ node 2 (touch 0 8 read) ∷ []

abbrev buffer_transient : Ref → Option ℕ
buffer_transient r = r.buf

abbrev users : ℕ → List ℕ
users t = 0 ∷ 1 ∷ 2 ∷ []

halves_written : check_written chain halves buffer_transient users halves ≡ none
unfolding check_written check_accesses check_access uncovered_read written_before writes_to
    first_gap reach_from sort insert reaches
halves_written = refl

half_unwritten :
    check_written chain
      (node 0 (touch 0 4 write) ∷ node 1 (touch 0 8 read) ∷ [])
      buffer_transient
      users
      (node 0 (touch 0 4 write) ∷ node 1 (touch 0 8 read) ∷ [])
    ≡ some (record { lo = 4; hi = 8 })
unfolding check_written check_accesses check_access uncovered_read written_before writes_to
    first_gap reach_from sort insert reaches
half_unwritten = refl

check_written_lem_example : Covered chain halves buffer_transient 1 (users 1) 2 5
check_written_lem_example =
    check_written_lem chain halves buffer_transient users (node 2 (touch 0 8 read)) (touch 0 8 read)
      1 5 halves_written (inr (inr (inl refl))) (inl refl) refl refl (omega arith) (omega arith)
