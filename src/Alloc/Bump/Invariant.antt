-- ===== src/Alloc/Bump/Invariant.antt =====
-- internal/alloc/bump.go: the invariant of a `Bump` and its store, and that `Alloc` keeps it.
use accel.Base.{
  ℕ, ◌+◌, ◌≤◌, ◌<◌, ◌≡◌, some, List, [], ◌∷◌, ◌++◌, arith, length, get_elem?, get_elem?-append_left,
  get_elem?-append_length,
}
use accel.Base.Round.{IsMultiple}
use accel.Alloc.{Allocation, Store}
use accel.Alloc.Params.Bounds.{IsPower, IsSmall}
use accel.Alloc.Bump.{Bump}

-- The handles `hs` name allocations of `self` that lie one behind the other in `[lo, hi)`.
abbrev pub Packed : Store → ℕ → ℕ → ℕ → List ℕ → ℕ → Type 0
Packed s self g lo [] hi = lo ≤ hi
Packed s self g lo (h ∷ hs) hi =
    (al : Allocation) × (get_elem? s h ≡ some al)
    × (al.owner ≡ some self)
    × (lo ≤ al.offset)
    × (0 < al.size)
    × IsMultiple g al.offset
    × IsMultiple g al.size
    × Packed s self g (al.offset + al.size) hs hi

pub record IsValid (b : Bump) (s : Store) : Type 0 where
  pub power : IsPower b.granularity
  pub small : IsSmall b.size
  pub room : b.granularity ≤ b.size
  pub within : b.cursor ≤ b.size
  pub charged : b.used ≡ b.cursor
  pub counted : b.allocations ≡ length b.live
  pub packed : Packed s b.self b.granularity 0 b.live b.cursor

-- Every placed block takes a byte at least.
pub Packed-length :
    (s : Store) (self g lo : ℕ) (hs : List ℕ) (hi : ℕ)
    → Packed s self g lo hs hi
    → lo + length hs ≤ hi
Packed-length s self g lo [] hi p = omega arith
Packed-length s self g lo (h ∷ hs) hi (al, _, _, le, pos, _, _, rest) =
    omega (arith, Packed-length s self g (al.offset + al.size) hs hi rest)

-- One more allocation behind the last.
pub Packed-concat :
    (s : Store) (self g lo : ℕ) (hs : List ℕ) (hi : ℕ) (al : Allocation)
    → Packed s self g lo hs hi
    → al.owner ≡ some self
    → hi ≤ al.offset
    → 0 < al.size
    → IsMultiple g al.offset
    → IsMultiple g al.size
    → Packed (s ++ al ∷ []) self g lo (hs ++ length s ∷ []) (al.offset + al.size)
Packed-concat s self g lo [] hi al p own le pos mo ms =
    (al, get_elem?-append_length s al, own, omega arith, pos, mo, ms, omega arith)
Packed-concat s self g lo (h ∷ hs) hi al (a, at, o, l, z, m, n, rest) own le pos mo ms = (
  a,
  get_elem?-append_left s (al ∷ []) h at,
  o,
  l,
  z,
  m,
  n,
  Packed-concat s self g (a.offset + a.size) hs hi al rest own le pos mo ms,
)
