-- ===== src/Alloc/Bump/Place.antt =====
-- internal/alloc/bump.go: what `Alloc` returns, and when it does.
use native.Mathlib.Decide.{dec_le}
use accel.Base.{
  sym, subst, ℕ, suc, ◌+◌, ◌^◌, ◌≤◌, ◌<◌, ◌≡◌, max, refl, ◌∙◌, none, some, [], ◌∷◌, ◌++◌, arith,
  length, get_elem?, length-append, get_elem?-append_length,
}
use accel.Base.Result.{ok, err, >>=-eq-ok, ok-injective}
use accel.Base.Round.{IsMultiple, IsMultiple-trans}
use accel.Alloc.{Allocation, Store, no_space}
use accel.Alloc.Params.{round_up, check_params}
use accel.Alloc.Params.Bounds.{
  IsPower, IsSmall, Served, Served-IsMultiple, Served-stricter, round_up-RoundsUp,
  check_params-Served, check_params-ok, max-IsPower,
}
use accel.Alloc.Bump.{Bump, place, alloc}
use accel.Alloc.Bump.Invariant.{IsValid, Packed-length, Packed-concat}

-- What a successful `Alloc` of `size` bytes at `align` did.
pub record Placed (b : Bump) (s : Store) (size align h : ℕ) (b' : Bump) (s' : Store)
    (al : Allocation) : Type 0 where
  pub found : get_elem? s' h ≡ some al
  pub owner : al.owner ≡ some b.self
  pub enough : size ≤ al.size
  pub tight : al.size < size + b.granularity
  pub aligned : IsMultiple align al.offset
  pub ahead : b.cursor ≤ al.offset
  pub end : b'.cursor ≡ al.offset + al.size
  pub inside : b'.cursor ≤ b.size
  pub live : b'.live ≡ b.live ++ h ∷ []
  pub store : s' ≡ s ++ al ∷ []

abbrev made : Bump → ℕ → ℕ → Allocation
made b size align = record {
  offset = round_up b.cursor align;
  size = size;
  blk = none;
  owner = some b.self;
}

abbrev moved : Bump → Store → ℕ → Bump
moved b s end = record b {
  allocator = record (b.allocator) { used = end; allocations = suc b.allocations };
  cursor = end;
  live = b.live ++ length s ∷ [];
}

module _ (b : Bump) (s : Store) (size align : ℕ) (v : IsValid b s) (p : IsPower align)
    (k : size ≤ 2 ^ 62) (l : IsSmall align) where
  -- No sum of `place` wraps: it returns exactly when the rounded request fits.
  place-ok :
      round_up b.cursor align + size ≤ b.size
      → place b s size align
        ≡ ok (length s, moved b s (round_up b.cursor align + size), s ++ made b size align ∷ [])
  unfolding place
  place-ok fits =
      let len = Packed-length s b.self b.granularity 0 b.live b.cursor v.packed in
      let up = round_up-RoundsUp b.cursor align p (omega (arith, v.within, v.small)) l in
      ground arith

  place_full : b.size < round_up b.cursor align + size → place b s size align ≡ err no_space
  unfolding place
  place_full full =
      let up = round_up-RoundsUp b.cursor align p (omega (arith, v.within, v.small)) l in
      ground arith

-- The postcondition of `Alloc`, of the triple that it returns.
abbrev pub Post : Bump → Store → ℕ → ℕ → ℕ × Bump × Store → Type 0
Post b s size align (h, b', s') =
    IsValid b' s' × ((al : Allocation) × Placed b s size align h b' s' al)

module _ (b : Bump) (s : Store) (size align : ℕ) (v : IsValid b s) (hs : IsSmall size)
    (ha : IsSmall align) where
  Served-fits :
      {size' align' : ℕ}
      → Served b.allocator size align size' align'
      → round_up b.cursor align' + size' ≤ b.size
      → Post b s size align
          (length s, moved b s (round_up b.cursor align' + size'), s ++ made b size' align' ∷ [])
  Served-fits {size'} {align'} d fits =
      let g = b.granularity in
      let up =
        round_up-RoundsUp b.cursor align' d.power' (omega (arith, v.within, v.small))
          (omega (arith, d.raised, v.room, v.small)) in
      let over = λ (k : ℕ) (m : IsMultiple k align').
        IsMultiple-trans k align' (round_up b.cursor align') m up.multiple in
      (
        record {
          power = v.power;
          small = v.small;
          room = v.room;
          within = fits;
          charged = refl;
          counted = omega (arith, v.counted, length-append b.live (length s ∷ []));
          packed =
              Packed-concat s b.self g 0 b.live b.cursor (made b size' align') v.packed refl
                up.above (omega (arith, d.rounded.above, d.positive))
                (over g (Served-IsMultiple b.allocator size align v.power d)) d.rounded.multiple;
        },
        (
          made b size' align',
          record {
            found = get_elem?-append_length s (made b size' align');
            owner = refl;
            enough = d.rounded.above;
            tight = d.rounded.tight;
            aligned = over align (Served-stricter b.allocator size align d);
            ahead = up.above;
            end = refl;
            inside = fits;
            live = refl;
            store = refl;
          },
        ),
      )

  Served-placed :
      {size' align' : ℕ} {r : ℕ × Bump × Store}
      → Served b.allocator size align size' align'
      → place b s size' align' ≡ ok r
      → Post b s size align r
  Served-placed {size'} {align'} {r} d e =
      let k : size' ≤ 2 ^ 62 = omega (arith, d.rounded.tight, v.room, v.small) in
      let l : IsSmall align' = omega (arith, d.raised, v.room, v.small) in
      elim (dec_le (round_up b.cursor align' + size') b.size) [
        | yes fits ↦
            let same = ok-injective (sym (place-ok b s size' align' v d.power' k l fits) ∙ e) in
            subst (Post b s size align) same (Served-fits d fits)
        | no over ↦ absurd (ground (arith, place_full b s size' align' v d.power' k l))
      ]

  -- A successful `Alloc` returns a new handle to bytes of the pool that are enough, aligned, and
  -- behind all that was placed before, wastes less than one granule, and keeps the invariant.
  pub alloc-Post : {r : ℕ × Bump × Store} → alloc b s size align ≡ ok r → Post b s size align r
  unfolding alloc
  alloc-Post {r} e =
      let (req, checked, placed) =
        >>=-eq-ok (check_params b.allocator size align) (λ (k, l). place b s k l) e in
      Served-placed
        (check_params-Served b.allocator size align v.power (omega (arith, v.room, v.small)) hs
          checked)
        placed

-- A well-formed request is placed exactly when its rounded size fits behind the rounded cursor.
pub alloc_decides :
    (b : Bump) (s : Store) (size align : ℕ)
    → IsValid b s
    → 0 < size
    → IsSmall size
    → IsPower align
    → IsSmall align
    → let end = round_up b.cursor (max align b.granularity) + round_up size b.granularity in
      (end ≤ b.size → (r : ℕ × Bump × Store) × (alloc b s size align ≡ ok r))
      × (b.size < end → alloc b s size align ≡ err no_space)
unfolding alloc
alloc_decides b s size align v pos hs p ha =
    let g = b.granularity in
    let hg : IsSmall g = omega (arith, v.room, v.small) in
    let checked = check_params-ok b.allocator size align hg pos (omega arith) p ha in
    let q = max-IsPower align g p v.power in
    let up = round_up-RoundsUp size g v.power (omega arith) hg in
    let k : round_up size g ≤ 2 ^ 62 = omega (arith, up.tight) in
    let l : IsSmall (max align g) = omega arith in
    (
      λ fits. (
        (
          length s,
          moved b s (round_up b.cursor (max align g) + round_up size g),
          s ++ made b (round_up size g) (max align g) ∷ [],
        ),
        rw checked (place-ok b s (round_up size g) (max align g) v q k l fits),
      ),
      λ full. rw checked (place_full b s (round_up size g) (max align g) v q k l full),
    )
