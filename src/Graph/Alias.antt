-- ===== src/Graph/Alias.antt =====
-- alias.go: the placement of transients in one pool, and build.go: `alignUp`. The packed transients
-- are listed in the order in which they were placed; the sort is a stable insertion sort.
pub mod Offset
pub mod Apart
pub mod Pool
pub mod Written
pub mod Handover
pub mod Reads
mod Tests
use accel.Base.{
  ℕ, zero, suc, ◌+◌, ◌-◌, ◌*◌, ◌/◌, ◌<◌, max, Bool, true, false, not, ◌&&◌, ◌||◌, Option, none,
  some, List, [], ◌∷◌, ◌++◌, ◌==◌, ltb, leb, if◌then◌else◌, map, keep,
}
use accel.Base.Sort.{sort, by_key}
use accel.Graph.Reach.{Reach, reaches}

-- `transient`: the fields that packing reads and writes. `writer` is `none` for Go's -1.
pub record Transient : Type 0 where
  pub bytes : ℕ
  pub offset : ℕ
  pub placed : Bool
  pub users : List ℕ
  pub writer : Option ℕ

unfoldable pub align_up : ℕ → ℕ → ℕ
align_up n to = if leb to 1 then n else (n + to - 1) / to * to

unfoldable pub before_all : Reach → ℕ → List ℕ → Bool
before_all r a [] = true
before_all r a (b ∷ bs) = if not (reaches r a b) then false else before_all r a bs

unfoldable pub all_before : Reach → List ℕ → List ℕ → Bool
all_before r [] bs = true
all_before r (a ∷ rest) bs = if not (before_all r a bs) then false else all_before r rest bs

unfoldable pub compatible : Reach → Transient → Transient → Bool
compatible r a b = all_before r a.users b.users || all_before r b.users a.users

-- `span` and `byteRange`
pub record ByteRange : Type 0 where
  pub lo : ℕ
  pub hi : ℕ

unfoldable pub span_of_placed : ℕ → Transient → ByteRange
span_of_placed align u = record { lo = u.offset; hi = u.offset + align_up u.bytes align }

-- The walk over the occupied spans.
unfoldable pub first_free : ℕ → ℕ → List ByteRange → ℕ → ℕ
first_free align size [] at = at
first_free align size (o ∷ rest) at =
    let next = first_free align size rest (max at (align_up o.hi align)) in
    if leb (at + size) o.lo then at else next

abbrev pub occupied : Reach → Transient → List Transient → ℕ → List ByteRange
occupied r t placed align = map (span_of_placed align) (keep (λ u. not (compatible r t u)) placed)

abbrev pub lo_of : ByteRange → ℕ
lo_of o = o.lo

unfoldable pub lowest_free_offset : Reach → Transient → List Transient → ℕ → ℕ → ℕ
lowest_free_offset r t placed align size =
    first_free align size (sort (by_key lo_of) (occupied r t placed align)) 0

abbrev pub head_or_zero : List ℕ → ℕ
head_or_zero [] = 0
head_or_zero (u ∷ us) = u

unfoldable pub first_writer : Transient → ℕ
first_writer t = elim (t.writer) [ none ↦ head_or_zero t.users | some w ↦ w ]

-- The larger first, then the earlier first writer.
unfoldable pub packs_before : Transient → Transient → Bool
packs_before a b =
    if not (a.bytes == b.bytes) then ltb b.bytes a.bytes else ltb (first_writer a) (first_writer b)

pub record Packed : Type 0 where
  pub placed : List Transient
  pub total : ℕ

abbrev pub put_at : Transient → ℕ → Transient
put_at t off = record t { offset = off; placed = true }

unfoldable pub place_all : Reach → ℕ → List Transient → Packed → Packed
place_all r align [] p = p
place_all r align (t ∷ order) p =
    let size = align_up t.bytes align in
    let off = lowest_free_offset r t p.placed align size in
    place_all r align order
      (record { placed = p.placed ++ put_at t off ∷ []; total = max p.total (off + size) })

unfoldable pub pack_transients : Reach → ℕ → List Transient → Packed
pack_transients r align ts =
    let p = place_all r align (sort packs_before ts) (record { placed = []; total = 0 }) in
    record { placed = p.placed; total = align_up p.total align }

unfoldable pub overlap_bytes : Transient → Transient → ℕ → Bool
overlap_bytes a b align =
    let ah = a.offset + align_up a.bytes align in
    let bh = b.offset + align_up b.bytes align in ltb a.offset bh && ltb b.offset ah

-- The loop of `firstGap` over the sorted ranges: where it stops.
unfoldable pub reach_from : ℕ → List ByteRange → ℕ → ℕ
reach_from hi [] at = at
reach_from hi (h ∷ rest) at =
    let next = max at h.hi in
    let later = reach_from hi rest next in
    if ltb at h.lo then at else if leb hi next then next else later

-- `none` when the ranges cover what is wanted, and the first gap otherwise.
unfoldable pub first_gap : ByteRange → List ByteRange → Option ByteRange
first_gap want have =
    let at = reach_from want.hi (sort (by_key lo_of) have) want.lo in
    if leb want.hi at then none else some (record { lo = at; hi = want.hi })
