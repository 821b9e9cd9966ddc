-- ===== src/Graph/Reach.antt =====
-- infer.go: `reachability` and `reaches`. The packed array `reach` is kept as its rows, the slices
-- `reach[i*words : (i+1)*words]` by which alone the code reads and writes it.
pub mod Bits
pub mod Correct
pub mod Hazards
mod Tests
use accel.Base.{
  ℕ, zero, suc, ◌+◌, ◌/◌, ◌%◌, ◌^◌, Bool, false, not, List, [], ◌∷◌, bit_and, bit_or, ◌==◌,
  if◌then◌else◌, get_or, set, length, replicate,
}
use accel.Graph.Infer.{Dag, row}

pub record Reach : Type 0 where
  pub rows : List (List ℕ)
  pub words : ℕ

-- `row[to/64] |= 1 << (to % 64)`
unfoldable pub mark : List ℕ → ℕ → List ℕ
mark r to = set r (to / 64) (bit_or (get_or r (to / 64) 0) (2 ^ (to % 64)))

-- `for w := range row { row[w] |= other[w] }`
unfoldable pub union : List ℕ → List ℕ → List ℕ
union [] other = []
union (x ∷ r) [] = x ∷ r
union (x ∷ r) (y ∷ other) = bit_or x y ∷ union r other

-- The row of a node, from those of its successors.
unfoldable pub fill : List (List ℕ) → List ℕ → List ℕ → List ℕ
fill t r [] = r
fill t r (to ∷ ts) = fill t (union (mark r to) (row t to)) ts

-- `for i := n - 1; i >= 0; i--`, with `i` rounds left.
unfoldable pub fill_rows : List (List ℕ) → List (List ℕ) → ℕ → List (List ℕ)
fill_rows succ t zero = t
fill_rows succ t (suc i) = fill_rows succ (set t i (fill t (row t i) (row succ i))) i

unfoldable pub reachability : Dag → Reach
reachability d =
    let n = length d.succ in
    if n == 0
    then record { rows = []; words = 0 }
    else let words = (n + 63) / 64 in
      record { rows = fill_rows d.succ (replicate n (replicate words 0)) n; words = words }

unfoldable pub reaches : Reach → ℕ → ℕ → Bool
reaches r a b =
    if r.words == 0
    then false
    else not (bit_and (get_or (row r.rows a) (b / 64) 0) (2 ^ (b % 64)) == 0)
