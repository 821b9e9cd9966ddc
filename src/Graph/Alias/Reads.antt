-- ===== src/Graph/Alias/Reads.antt =====
-- alias.go: `checkTransientsAreWritten`. A transient is known by its number; `transient_of` gives that
-- of a resource's buffer, and `users` the nodes that use it.
pub mod Initialised
use accel.Base.{
  ℕ, ◌+◌, ◌≡◌, Bool, true, false, not, ◌&&◌, ◌||◌, Option, none, some, List, [], ◌∷◌, ◌++◌, ◌==◌,
  if◌then◌else◌, get_elem?,
}
use accel.Graph.{Ref, Access, RangeAccess, RecNode, reads, writes, ptr_eq}
use accel.Graph.Reach.{Reach, reaches}
use accel.Graph.Alias.{ByteRange, first_gap}

abbrev pub range_of : RangeAccess → ByteRange
range_of a = record { lo = a.off; hi = a.off + a.size }

module _ (r : Reach) (nodes : List RecNode) (transient_of : Ref → Option ℕ) where
  -- The ranges of a transient that a list of accesses writes.
  unfoldable pub writes_to : ℕ → List RangeAccess → List ByteRange
  writes_to t [] = []
  writes_to t (a ∷ rest) =
      let later = writes_to t rest in
      if not (ptr_eq (transient_of a.res) (some t)) || not (writes a.mode)
      then later
      else range_of a ∷ later

  abbrev pub accesses_of : Option RecNode → List RangeAccess
  accesses_of none = []
  accesses_of (some n) = n.accesses

  -- What the users that are ordered before node `n` write.
  unfoldable pub written_before : ℕ → ℕ → List ℕ → List ByteRange
  written_before t n [] = []
  written_before t n (u ∷ us) =
      let later = written_before t n us in
      if not (reaches r u n) then later else writes_to t (accesses_of (get_elem? nodes u)) ++ later

  unfoldable pub uncovered_read : ℕ → List ℕ → ℕ → RangeAccess → Option ByteRange
  uncovered_read t users n a = first_gap (range_of a) (written_before t n users)

  module _ (users : ℕ → List ℕ) where
    unfoldable pub check_access : ℕ → RangeAccess → Option ℕ → Option ByteRange
    check_access n a none = none
    check_access n a (some t) = if not (reads a.mode) then none else uncovered_read t (users t) n a

    -- The first of two failures.
    abbrev pub or_else : Option ByteRange → Option ByteRange → Option ByteRange
    or_else none b = b
    or_else (some g) b = some g

    unfoldable pub check_accesses : ℕ → List RangeAccess → Option ByteRange
    check_accesses n [] = none
    check_accesses n (a ∷ rest) =
        or_else (check_access n a (transient_of a.res)) (check_accesses n rest)

    -- `none` when the graph is accepted, and else the range that nothing writes first.
    unfoldable pub check_written : List RecNode → Option ByteRange
    check_written [] = none
    check_written (n ∷ rest) = or_else (check_accesses n.id n.accesses) (check_written rest)
