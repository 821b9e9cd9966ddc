-- ===== src/Graph/Alias/Pool.antt =====
-- alias.go: `packTransients` and the pool.
use accel.Base.{
  ℕ, ◌+◌, ◌<◌, ◌≤◌, ap, inl, inr, List, [], ◌∷◌, IsIn, IsIn-append_left, IsIn-append_right, arith,
}
use accel.Base.Round.{IsMultiple}
use accel.Base.Sort.{sort, IsIn-sort}
use accel.Graph.Reach.{Reach}
use accel.Graph.Alias.{
  Transient, align_up, lowest_free_offset, packs_before, Packed, put_at, place_all, pack_transients,
}
use accel.Graph.Alias.Offset.{lowest_free_offset-IsMultiple, align_up_above, align_up-IsMultiple}

-- The transient stands at `off` in the pool.
pub record Stands (align : ℕ) (t : Transient) (p : Packed) (off : ℕ) : Type 0 where
  pub stored : IsIn (put_at t off) p.placed
  pub aligned : IsMultiple align off
  pub within : off + align_up t.bytes align ≤ p.total

place_all-Stands :
    (r : Reach) (align : ℕ) (order : List Transient) (p : Packed) (t : Transient) (off : ℕ)
    → Stands align t p off
    → Stands align t (place_all r align order p) off
unfolding place_all
place_all-Stands r align [] p t off s = s
place_all-Stands r align (u ∷ order) p t off s = place_all-Stands r align order _ t off (record {
  stored = IsIn-append_left _ p.placed _ s.stored;
  aligned = s.aligned;
  within = omega (arith, s.within);
})

place_all_places :
    (r : Reach) (align : ℕ) (order : List Transient) (p : Packed) (t : Transient)
    → 0 < align
    → IsIn t order
    → (off : ℕ) × Stands align t (place_all r align order p) off
unfolding place_all
place_all_places r align [] p t pos i = absurd i
place_all_places r align (u ∷ order) p t pos (inr m) = place_all_places r align order _ t pos m
place_all_places r align (u ∷ order) p t pos (inl e) =
    let off = lowest_free_offset r u p.placed align (align_up u.bytes align) in
    (
      off,
      place_all-Stands r align order _ t off (record {
        stored = IsIn-append_right _ p.placed _ (inl (ap (λ q. put_at q off) e));
        aligned = lowest_free_offset-IsMultiple r u p.placed align _ pos;
        within = omega (arith, ap (λ q. align_up q.bytes align) e);
      }),
    )

-- The pool has a size that is a multiple of the alignment, and every transient a place in it.
pub record Places (align : ℕ) (ts : List Transient) (p : Packed) : Type 0 where
  pub size : IsMultiple align p.total
  pub every : (t : Transient) → IsIn t ts → (off : ℕ) × Stands align t p off

-- With a positive alignment, every transient gets an offset that is a multiple of it, at which its
-- bytes, rounded up, end inside the pool, and the pool's size is such a multiple too.
pub pack_transients-Places :
    (r : Reach) (align : ℕ) (ts : List Transient)
    → 0 < align
    → Places align ts (pack_transients r align ts)
unfolding pack_transients
pack_transients-Places r align ts pos =
    let p = place_all r align (sort packs_before ts) (record { placed = []; total = 0 }) in
    record {
      size = align_up-IsMultiple p.total align pos;
      every = λ t i.
          let (off, s) =
            place_all_places r align (sort packs_before ts) (record { placed = []; total = 0 }) t
              pos (IsIn-sort packs_before t ts i) in
          (
            off,
            record {
              stored = s.stored;
              aligned = s.aligned;
              within = omega (arith, s.within, align_up_above p.total align);
            },
          );
    }
