-- ===== src/Graph/Reach/Correct.antt =====
-- infer.go: the reachability table holds exactly the pairs that the edges order.
use accel.Base.{
  ℕ, zero, suc, ◌+◌, ◌/◌, ◌%◌, ◌^◌, ◌<◌, ◌≤◌, ◌≡◌, ◌≢◌, refl, sym, ◌∙◌, ap, inl, inr, ◌↔◌, true,
  false, not, List, [], arith, bit_and, get_or, set, length, length-set, length-replicate,
  get_or-set_self, get_or-set_ne, subst, replicate, ◌==◌,
}
use native.Mathlib.Decide.{ℕ_discrete}
use accel.Base.Words.{bit, bit_and-pow, bit-le-one, two_pow_pos, bit-zero}
use accel.Graph.Infer.{Dag, row}
use accel.Graph.Infer.Edges.{Edge}
use accel.Graph.Infer.StandIns.{Before, direct, via}
use accel.Graph.Reach.{fill, fill_rows, reachability, reaches}
use accel.Graph.Reach.Bits.{HasBit, length-fill, Fits, fill-HasBit, fill_reaches}

-- Every edge runs from a node to a later one.
abbrev pub IsForward : Dag → Type 0
IsForward d = (i j : ℕ) → Edge d i j → (i < j) × (j < length d.succ)

-- The rows from `i` on are final, and those before it are still empty.
record Partly (d : Dag) (words i : ℕ) (t : List (List ℕ)) : Type 0 where
  size : length t ≡ length d.succ
  wide : (k : ℕ) → k < length d.succ → length (row t k) ≡ words
  blank : (k b : ℕ) → k < i → HasBit (row t k) b → ⊥
  sound : (k b : ℕ) → i ≤ k → k < length d.succ → HasBit (row t k) b → Before d k b
  complete : (k b : ℕ) → i ≤ k → k < length d.succ → Before d k b → HasBit (row t k) b

module _ (d : Dag) (words : ℕ) (fwd : IsForward d)
    (enough : (b : ℕ) → b < length d.succ → b / 64 < words) where
  module _ (i : ℕ) (t : List (List ℕ)) (lt : i < length d.succ) (v : Partly d words (suc i) t) where
    abbrev filled : List ℕ
    filled = fill t (row t i) (row d.succ i)

    fits : Fits t words (row d.succ i)
    fits to m = let f = fwd i to m in (enough to f.1, v.wide to f.1)

    filled_sound : (b : ℕ) → HasBit filled b → Before d i b
    filled_sound b h = elim (fill-HasBit t words b (row d.succ i) (row t i) (v.wide i lt) fits h) [
      | inl old ↦ absurd (v.blank i b (omega arith) old)
      | inr (to, q) ↦ elim (q.reached) [
        | inl e ↦ direct (rw e (q.successor))
        | inr r ↦ let f = fwd i to q.successor in via q.successor (v.sound to b f.0 f.1 r)
      ]
    ]

    filled_complete : (b : ℕ) → Before d i b → HasBit filled b
    filled_complete b (direct e) =
        fill_reaches t words b (row d.succ i) (row t i) b (v.wide i lt) fits
          (record { successor = e; reached = inl refl })
    filled_complete b (via {k = k} e p) =
        let f = fwd i k e in
        fill_reaches t words b (row d.succ i) (row t i) k (v.wide i lt) fits
          (record { successor = e; reached = inr (v.complete k b f.0 f.1 p) })

    at_self : row (set t i filled) i ≡ filled
    at_self = get_or-set_self t i filled [] (omega (arith, v.size))

    at_other : (k : ℕ) → i ≢ k → row (set t i filled) k ≡ row t k
    at_other k ne = get_or-set_ne t i k filled [] ne

    step : Partly d words i (set t i filled)
    step = record {
      size = length-set t i filled ∙ v.size;
      wide = λ k h. elim (ℕ_discrete i k) [
        | yes e ↦
            subst (λ j. length (row (set t i filled) j) ≡ words) e
              (ap length at_self ∙ length-fill t (row t i) (row d.succ i) ∙ v.wide i lt)
        | no ne ↦ ap length (at_other k ne) ∙ v.wide k h
      ];
      blank = λ k b h m.
          v.blank k b (omega arith) (subst (λ r. HasBit r b) (at_other k (omega arith)) m);
      sound = λ k b le h m. elim (ℕ_discrete i k) [
        | yes e ↦
            subst (λ j. Before d j b) e
              (filled_sound b (
                subst (λ r. HasBit r b) at_self
                  (subst (λ j. HasBit (row (set t i filled) j) b) (sym e) m)))
        | no ne ↦ v.sound k b (omega arith) h (subst (λ r. HasBit r b) (at_other k ne) m)
      ];
      complete = λ k b le h p. elim (ℕ_discrete i k) [
        | yes e ↦
            subst (λ j. HasBit (row (set t i filled) j) b) e
              (subst (λ r. HasBit r b) (sym at_self)
                (filled_complete b (subst (λ j. Before d j b) (sym e) p)))
        | no ne ↦ subst (λ r. HasBit r b) (sym (at_other k ne)) (v.complete k b (omega arith) h p)
      ];
    }

  fill_rows-Partly :
      (i : ℕ) (t : List (List ℕ))
      → i ≤ length d.succ
      → Partly d words i t
      → Partly d words 0 (fill_rows d.succ t i)
  unfolding fill_rows
  fill_rows-Partly zero t le v = v
  fill_rows-Partly (suc i) t le v =
      fill_rows-Partly i (set t i (fill t (row t i) (row d.succ i))) (omega arith) (step i t le v)

abbrev zeros : ℕ → List ℕ
zeros words = replicate words 0

row-zeros : (n words k : ℕ) → k < n → row (replicate n (zeros words)) k ≡ zeros words
row-zeros zero words k h = absurd (omega arith)
row-zeros (suc n) words zero h = refl
row-zeros (suc n) words (suc k) h = row-zeros n words k (omega arith)

zeros_bit : (words k : ℕ) → get_or {A = ℕ} (zeros words) k 0 ≡ 0
zeros_bit zero k = refl
zeros_bit (suc words) zero = refl
zeros_bit (suc words) (suc k) = zeros_bit words k

start-Partly :
    (d : Dag) (words : ℕ) → Partly d words (length d.succ) (replicate (length d.succ) (zeros words))
start-Partly d words =
    let n = length d.succ in
    let empty = replicate n (zeros words) in
    record {
      size = length-replicate n (zeros words);
      wide = λ k h. ap length (row-zeros n words k h) ∙ length-replicate {A = ℕ} words 0;
      blank = λ k b h m.
          let none_set : bit (get_or (row empty k) (b / 64) 0) (b % 64) ≡ 0 =
            rw (row-zeros n words k h, zeros_bit words (b / 64)) (bit-zero (b % 64)) in
          omega arith;
      sound = λ k b le h m. absurd (omega arith);
      complete = λ k b le h p. absurd (omega arith);
    }

tests_bit : (x k : ℕ) → (not (bit_and x (2 ^ k) == 0) ≡ true) ↔ (bit x k ≡ 1)
tests_bit x k = elim (ℕ_discrete (bit x k) 1) [
  | yes e ↦
      let z : bit_and x (2 ^ k) ≡ 2 ^ k = bit_and-pow x k ∙ rw e (omega arith) in
      (λ _. e, λ _. rw z (ground (arith, two_pow_pos k)))
  | no ne ↦
      let zero_bit : bit x k ≡ 0 = omega (arith, bit-le-one x k) in
      let z : bit_and x (2 ^ k) ≡ 0 = bit_and-pow x k ∙ rw zero_bit (omega arith) in
      (λ h. cc (rw z at h), λ e. absurd (ne e))
]

-- On a graph whose edges run forward, `reaches` answers whether the edges lead from one node to the
-- other.
pub reaches_iff :
    (d : Dag) (a b : ℕ)
    → IsForward d
    → a < length d.succ
    → b < length d.succ
    → (reaches (reachability d) a b ≡ true) ↔ Before d a b
unfolding reaches reachability
reaches_iff d a b fwd ha hb =
    let n = length d.succ in
    let words = (n + 63) / 64 in
    let final = fill_rows d.succ (replicate n (zeros words)) n in
    let v =
      fill_rows-Partly d words fwd (λ c h. omega arith) n (replicate n (zeros words)) (omega arith)
        (start-Partly d words) in
    let t = tests_bit (get_or (row final a) (b / 64) 0) (b % 64) in
    let some_node : (n == 0) ≡ false = ground arith in
    let some_word : (words == 0) ≡ false = ground arith in
    let e : reaches (reachability d) a b
        ≡ not (bit_and (get_or (row final a) (b / 64) 0) (2 ^ (b % 64)) == 0) =
      rw some_node (rw some_word refl) in
    (
      λ h. v.sound a b (omega arith) ha (t.0 (sym e ∙ h)),
      λ p. e ∙ t.1 (v.complete a b (omega arith) ha p),
    )
