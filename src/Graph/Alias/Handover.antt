-- ===== src/Graph/Alias/Handover.antt =====
-- alias.go: `planHandovers`. `stages` are the nodes' stages; `lastUser`'s -1 is `none`.
pub mod Guards
use Prim.Native.String.{String}
use accel.Base.{
  ℕ, Bool, true, false, not, ◌||◌, Option, none, some, List, [], ◌∷◌, ◌++◌, ltb, if◌then◌else◌,
  get_or, set,
}
use accel.Graph.{raw}
use accel.Graph.Barrier.{Barrier, stage_all}
use accel.Graph.Alias.{Transient, overlap_bytes, head_or_zero}

abbrev pub is_empty : List ℕ → Bool
is_empty [] = true
is_empty (u ∷ us) = false

unfoldable pub last_user : List ℕ → Option ℕ
last_user [] = none
last_user (u ∷ us) = if is_empty us then some u else last_user us

abbrev pub or_new : Option Barrier → ℕ → Barrier
or_new none stage = record { src = stage_all; dst = stage; memory = true; reasons = [] }
or_new (some b) stage = b

unfoldable pub require_barrier :
    List ℕ → List (Option Barrier) → ℕ → Option ℕ → List (Option Barrier)
require_barrier stages plan before from =
    let b = or_new (get_or plan before none) (get_or stages before 0) in
    set plan before (
      some (record b {
        memory = true;
        reasons =
            b.reasons ++ record { hazard = raw; from = from; label = "aliasing handover" } ∷ [];
      }))

-- The body of the inner loop.
unfoldable pub hand_over :
    ℕ → List ℕ → List (Option Barrier) → Transient → Transient → List (Option Barrier)
hand_over align stages plan a b =
    if not b.placed || is_empty b.users || not (overlap_bytes a b align)
    then plan
    else if ltb (head_or_zero a.users) (head_or_zero b.users)
    then require_barrier stages plan (head_or_zero b.users) (last_user a.users)
    else require_barrier stages plan (head_or_zero a.users) (last_user b.users)

unfoldable pub hand_over_all :
    ℕ → List ℕ → List (Option Barrier) → Transient → List Transient → List (Option Barrier)
hand_over_all align stages plan a [] = plan
hand_over_all align stages plan a (b ∷ bs) =
    hand_over_all align stages (hand_over align stages plan a b) a bs

-- The outer loop, with the transients before and from `i`.
unfoldable pub handovers_from :
    ℕ → List ℕ → List (Option Barrier) → List Transient → List Transient → List (Option Barrier)
handovers_from align stages plan earlier [] = plan
handovers_from align stages plan earlier (a ∷ rest) =
    let plan' =
      if not a.placed || is_empty a.users
      then plan
      else hand_over_all align stages plan a earlier in
    handovers_from align stages plan' (earlier ++ a ∷ []) rest

unfoldable pub plan_handovers :
    ℕ → List ℕ → List (Option Barrier) → List Transient → List (Option Barrier)
plan_handovers align stages plan ts = handovers_from align stages plan [] ts
