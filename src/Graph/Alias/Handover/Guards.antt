-- ===== src/Graph/Alias/Handover/Guards.antt =====
-- alias.go: between two transients that share bytes there is a barrier.
use accel.Base.{
  ℕ, zero, suc, ◌<◌, ◌≡◌, ◌≢◌, refl, sym, inl, inr, ◌⊎◌, max, Bool, true, false, not, ◌||◌, Option,
  some, List, [], ◌∷◌, ◌++◌, ltb, if◌then◌else◌, get_elem?, length, length-set, get_elem?-set_self,
  get_elem?-set_ne, IsIn, IsIn-append_left, IsIn-append_right, Bool-cases, arith, subst,
  lt-length_of_get_elem?, ◌∙◌,
}
use native.Mathlib.Decide.{ℕ_discrete}
use accel.Graph.Barrier.{Barrier}
use accel.Graph.Alias.{Transient, overlap_bytes, head_or_zero}
use accel.Graph.Alias.Handover.{
  is_empty, last_user, require_barrier, hand_over, hand_over_all, handovers_from, plan_handovers,
}

-- Before node `k` there is a barrier that makes writes visible.
pub record Guarded (plan : List (Option Barrier)) (k : ℕ) : Type 0 where
  pub barrier : Barrier
  pub at : get_elem? plan k ≡ some (some barrier)
  pub memory : barrier.memory ≡ true

-- A plan that has the length and the guarded nodes of another.
record Keeps (old new : List (Option Barrier)) : Type 0 where
  long : length new ≡ length old
  guards : (k : ℕ) → Guarded old k → Guarded new k

Keeps-refl : (plan : List (Option Barrier)) → Keeps plan plan
Keeps-refl plan = record { long = refl; guards = λ k g. g }

Keeps-trans : {a b c : List (Option Barrier)} → Keeps a b → Keeps b c → Keeps a c
Keeps-trans x y = record { long = y.long ∙ x.long; guards = λ k g. y.guards k (x.guards k g) }

-- The branch that is taken for a placed transient with users.
taken :
    (plan plan' : List (Option Barrier)) (k : ℕ) (p e : Bool)
    → p ≡ true
    → e ≡ false
    → Guarded plan' k
    → Guarded (if not p || e then plan else plan') k
taken plan plan' k true false x y g = g
taken plan plan' k true true x y g = cc
taken plan plan' k false e x y g = cc

-- What `planHandovers` asks of a pair.
pub record Shares (align : ℕ) (a b : Transient) : Type 0 where
  pub placed : b.placed ≡ true
  pub used : is_empty b.users ≡ false
  pub meets : overlap_bytes a b align ≡ true

abbrev pub later_first : Transient → Transient → ℕ
later_first a b = max (head_or_zero a.users) (head_or_zero b.users)

module _ (align : ℕ) (stages : List ℕ) where
  require_barrier-Guarded :
      (plan : List (Option Barrier)) (k : ℕ) (from : Option ℕ)
      → k < length plan
      → Guarded (require_barrier stages plan k from) k
  unfolding require_barrier
  require_barrier-Guarded plan k from h = record {
    barrier = _;
    at = get_elem?-set_self plan k _ h;
    memory = refl;
  }

  require_barrier-Keeps :
      (plan : List (Option Barrier)) (k : ℕ) (from : Option ℕ)
      → Keeps plan (require_barrier stages plan k from)
  unfolding require_barrier
  require_barrier-Keeps plan k from = record { long = same_length; guards = kept }
    where
      same_length : length (require_barrier stages plan k from) ≡ length plan
      same_length = length-set plan k _

      elsewhere : (j : ℕ) → k ≢ j → Guarded plan j → Guarded (require_barrier stages plan k from) j
      elsewhere j ne g = record {
        barrier = g.barrier;
        at = get_elem?-set_ne plan _ ne ∙ g.at;
        memory = g.memory;
      }

      kept : (j : ℕ) → Guarded plan j → Guarded (require_barrier stages plan k from) j
      kept j g = elim (ℕ_discrete k j) [
        | yes e ↦ subst (Guarded (require_barrier stages plan k from)) e (
            require_barrier-Guarded plan k from
              (subst (λ q. q < length plan) (sym e) (lt-length_of_get_elem? plan j g.at)))
        | no ne ↦ elsewhere j ne g
      ]

  hand_over-Keeps :
      (plan : List (Option Barrier)) (a b : Transient)
      → Keeps plan (hand_over align stages plan a b)
  unfolding hand_over
  hand_over-Keeps plan a b =
      chosen (not b.placed || is_empty b.users || not (overlap_bytes a b align))
        (ltb (head_or_zero a.users) (head_or_zero b.users))
    where
      chosen :
          (p q : Bool)
          → Keeps plan (
              if p
              then plan
              else if q
              then require_barrier stages plan (head_or_zero b.users) (last_user a.users)
              else require_barrier stages plan (head_or_zero a.users) (last_user b.users))
      chosen true q = Keeps-refl plan
      chosen false true = require_barrier-Keeps plan _ _
      chosen false false = require_barrier-Keeps plan _ _

  hand_over-Guarded :
      (plan : List (Option Barrier)) (a b : Transient)
      → Shares align a b
      → later_first a b < length plan
      → Guarded (hand_over align stages plan a b) (later_first a b)
  unfolding hand_over overlap_bytes
  hand_over-Guarded plan a b s h =
      elim (Bool-cases (ltb (head_or_zero a.users) (head_or_zero b.users))) [
        | inl y ↦
            let e : later_first a b ≡ head_or_zero b.users = ground (arith, y) in
            rw (s.placed, s.used, s.meets, y)
              (subst (Guarded _) (sym e)
                (require_barrier-Guarded plan (head_or_zero b.users) _ (rw e at h)))
        | inr n ↦
            let e : later_first a b ≡ head_or_zero a.users = ground (arith, n) in
            rw (s.placed, s.used, s.meets, n)
              (subst (Guarded _) (sym e)
                (require_barrier-Guarded plan (head_or_zero a.users) _ (rw e at h)))
      ]

  hand_over_all-Keeps :
      (plan : List (Option Barrier)) (a : Transient) (bs : List Transient)
      → Keeps plan (hand_over_all align stages plan a bs)
  unfolding hand_over_all
  hand_over_all-Keeps plan a [] = Keeps-refl plan
  hand_over_all-Keeps plan a (b ∷ bs) =
      Keeps-trans (hand_over-Keeps plan a b)
        (hand_over_all-Keeps (hand_over align stages plan a b) a bs)

  hand_over_all-Guarded :
      (plan : List (Option Barrier)) (a b : Transient) (bs : List Transient)
      → IsIn b bs
      → Shares align a b
      → later_first a b < length plan
      → Guarded (hand_over_all align stages plan a bs) (later_first a b)
  unfolding hand_over_all
  hand_over_all-Guarded plan a b [] i s h = absurd i
  hand_over_all-Guarded plan a b (c ∷ bs) (inl e) s h =
      (hand_over_all-Keeps (hand_over align stages plan a c) a bs).guards _ (
        subst (λ q. Guarded (hand_over align stages plan a q) (later_first a b)) e
          (hand_over-Guarded plan a b s h))
  hand_over_all-Guarded plan a b (c ∷ bs) (inr m) s h =
      hand_over_all-Guarded (hand_over align stages plan a c) a b bs m s
        (subst (λ q. later_first a b < q) (sym (hand_over-Keeps plan a c).long) h)

  abbrev after_one : List (Option Barrier) → Transient → List Transient → List (Option Barrier)
  after_one plan a seen =
      if not a.placed || is_empty a.users then plan else hand_over_all align stages plan a seen

  handovers_from-Keeps :
      (plan : List (Option Barrier)) (seen ts : List Transient)
      → Keeps plan (handovers_from align stages plan seen ts)
  unfolding handovers_from
  handovers_from-Keeps plan seen [] = Keeps-refl plan
  handovers_from-Keeps plan seen (a ∷ ts) =
      Keeps-trans (round_keeps (not a.placed || is_empty a.users))
        (handovers_from-Keeps (after_one plan a seen) (seen ++ a ∷ []) ts)
    where
      round_keeps :
          (c : Bool) → Keeps plan (if c then plan else hand_over_all align stages plan a seen)
      round_keeps true = Keeps-refl plan
      round_keeps false = hand_over_all-Keeps plan a seen

  round_long :
      (c : Bool) (plan : List (Option Barrier)) (a : Transient) (seen : List Transient) (k : ℕ)
      → k < length plan
      → k < length (if c then plan else hand_over_all align stages plan a seen)
  round_long true plan a seen k h = h
  round_long false plan a seen k h =
      subst (λ q. k < q) (sym (hand_over_all-Keeps plan a seen).long) h

  -- The transient `b` was seen before, or stands before `a` in the list.
  handovers_from-Guarded :
      (plan : List (Option Barrier)) (seen ts : List Transient) (j : ℕ) (a b : Transient)
      → get_elem? ts j ≡ some a
      → IsIn b seen ⊎ ((i : ℕ) × (i < j) × (get_elem? ts i ≡ some b))
      → a.placed ≡ true
      → is_empty a.users ≡ false
      → Shares align a b
      → later_first a b < length plan
      → Guarded (handovers_from align stages plan seen ts) (later_first a b)
  unfolding handovers_from
  handovers_from-Guarded plan seen [] j a b e o pa ua s h = cc
  handovers_from-Guarded plan seen (c ∷ ts) zero a b e (inr (i, lt, _)) pa ua s h =
      absurd (omega (arith, lt))
  handovers_from-Guarded plan seen (c ∷ ts) zero a b e (inl m) pa ua s h =
      let same : c ≡ a = cc in
      (handovers_from-Keeps (after_one plan c seen) (seen ++ c ∷ []) ts).guards _ (
        subst (λ q. Guarded (after_one plan q seen) (later_first a b)) (sym same)
          (taken _ _ _ a.placed (is_empty a.users) pa ua
            (hand_over_all-Guarded plan a b seen m s h)))
  handovers_from-Guarded plan seen (c ∷ ts) (suc j) a b e o pa ua s h =
      handovers_from-Guarded (after_one plan c seen) (seen ++ c ∷ []) ts j a b e
        (elim o [
          | inl m ↦ inl (IsIn-append_left b seen _ m)
          | inr (zero, lt, eb) ↦
              let same : c ≡ b = cc in inl (IsIn-append_right b seen _ (inl (sym same)))
          | inr (suc i, lt, eb) ↦ inr (i, omega (arith, lt), eb)
        ])
        pa ua s (round_long _ plan c seen _ h)

  -- Of two placed transients that have users and share a byte, there is a barrier that makes writes
  -- visible before the first user of the one that is used later, where the plan has that node.
  pub plan_handovers-Guarded :
      (plan : List (Option Barrier)) (ts : List Transient) (i j : ℕ) (a b : Transient)
      → i < j
      → get_elem? ts i ≡ some b
      → get_elem? ts j ≡ some a
      → a.placed ≡ true
      → is_empty a.users ≡ false
      → Shares align a b
      → later_first a b < length plan
      → Guarded (plan_handovers align stages plan ts) (later_first a b)
  unfolding plan_handovers
  plan_handovers-Guarded plan ts i j a b lt eb ea =
      handovers_from-Guarded plan [] ts j a b ea (inr (i, lt, eb))
