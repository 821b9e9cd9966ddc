-- ===== src/Texture/Chain.antt =====
-- texturealloc.go: how many levels a mip chain has.
use accel.Base.{
  ℕ, zero, suc, ◌+◌, ◌/◌, ◌^◌, ◌<◌, ◌≤◌, ◌≡◌, refl, sym, ap, ◌∙◌, inl, inr, ◌⊎◌, max, true, false,
  ◌||◌, some, ltb, Bool-cases, arith,
}
use accel.Base.Words.{two_pow_suc}
use native.Mathlib.Nat.{div-div-eq-div-mul, mul_comm, div-le_self}
use native.Mathlib.Decide.{dec_le}
use accel.TextureView.{mip_extent}
use accel.Texture.{mip_chain, mip_chain_length}

-- One round of the loop is one level.
mip_extent-suc : (w k : ℕ) → mip_extent w (suc k) ≡ mip_extent (max 1 (w / 2)) k
unfolding mip_extent
mip_extent-suc w k =
    let halves : w / 2 ^ suc k ≡ w / 2 / 2 ^ k =
      ap (λ (p : ℕ). w / p) (two_pow_suc k ∙ mul_comm (2 ^ k) 2)
      ∙ sym (div-div-eq-div-mul w 2 (2 ^ k)) in
    elim (dec_le 1 (w / 2)) [
      | yes some_left ↦
          let e : max 1 (w / 2) ≡ w / 2 = omega (arith, some_left) in rw (halves, e) refl
      | no none_left ↦
          let e : w / 2 ≡ 0 = omega (arith, none_left) in
          let z : 0 / 2 ^ k ≤ 0 = div-le_self 0 (2 ^ k) in
          let o : 1 / 2 ^ k ≤ 1 = div-le_self 1 (2 ^ k) in rw (halves, e) (omega (arith, z, o))
    ]

mip_extent-one : (w : ℕ) → 0 < w → w ≤ 1 → mip_extent w 0 ≡ 1
unfolding mip_extent
mip_extent-one w p h = let e : w ≡ 1 = omega (arith, p, h) in rw e refl

mip_extent-base : (w : ℕ) → 1 < w → 1 < mip_extent w 0
unfolding mip_extent
mip_extent-base w h = omega (arith, h)

-- Both axes are one at level `k`, and at no level before it.
pub record EndsAt (w h k : ℕ) : Type 0 where
  pub width : mip_extent w k ≡ 1
  pub height : mip_extent h k ≡ 1
  pub before : (j : ℕ) → j < k → (1 < mip_extent w j) ⊎ (1 < mip_extent h j)

EndsAt-suc :
    (w h k : ℕ) → (1 < w) ⊎ (1 < h) → EndsAt (max 1 (w / 2)) (max 1 (h / 2)) k → EndsAt w h (suc k)
EndsAt-suc w h k big e = record {
  width = mip_extent-suc w k ∙ e.width;
  height = mip_extent-suc h k ∙ e.height;
  before = earlier;
}
  where
    earlier : (j : ℕ) → j < suc k → (1 < mip_extent w j) ⊎ (1 < mip_extent h j)
    earlier zero lt = elim big [
      | inl a ↦ inl (mip_extent-base w a)
      | inr b ↦ inr (mip_extent-base h b)
    ]
    earlier (suc j) lt = elim (e.before j (omega (arith, lt))) [
      | inl a ↦ inl (rw (mip_extent-suc w j) a)
      | inr b ↦ inr (rw (mip_extent-suc h j) b)
    ]

mip_chain_lem :
    (fuel w h n : ℕ)
    → 0 < w
    → 0 < h
    → w < fuel
    → h < fuel
    → (k : ℕ) × (mip_chain fuel w h n ≡ some (n + k)) × EndsAt w h k
unfolding mip_chain
mip_chain_lem zero w h n pw ph fw fh = absurd (omega (arith, fw))
mip_chain_lem (suc fuel) w h n pw ph fw fh = elim (Bool-cases (ltb 1 w || ltb 1 h)) [
  | inl more ↦
      let big : (1 < w) ⊎ (1 < h) = either w h more in
      let (k, e, ends) =
        mip_chain_lem fuel (max 1 (w / 2)) (max 1 (h / 2)) (n + 1) (omega arith) (omega arith)
          (shrinks w h big fw fh) (shrinks h w (swap w h big) fh fw) in
      let same : n + 1 + k ≡ n + suc k = omega arith in
      (suc k, rw (more, mip_chain) (e ∙ ap some same), EndsAt-suc w h k big ends)
  | inr done ↦
      let (lw, lh) = both w h done in
      let same : n ≡ n + 0 = omega arith in
      (
        0,
        rw (done, mip_chain) (ap some same),
        record {
          width = mip_extent-one w pw lw;
          height = mip_extent-one h ph lh;
          before = λ j lt. absurd (omega (arith, lt));
        },
      )
]
  where
    either : (a b : ℕ) → (ltb 1 a || ltb 1 b) ≡ true → (1 < a) ⊎ (1 < b)
    either a b h = ground arith

    both : (a b : ℕ) → (ltb 1 a || ltb 1 b) ≡ false → (a ≤ 1) × (b ≤ 1)
    both a b h = ground arith

    swap : (a b : ℕ) → (1 < a) ⊎ (1 < b) → (1 < b) ⊎ (1 < a)
    swap a b (inl x) = inr x
    swap a b (inr x) = inl x

    shrinks : (a b : ℕ) → (1 < a) ⊎ (1 < b) → a < suc fuel → b < suc fuel → max 1 (a / 2) < fuel
    shrinks a b big x y = omega (arith, big, x, y)

-- The loop ends for every extent, and counts the levels up to the first at which both axes are one.
pub mip_chain_length_ends :
    (w h : ℕ) → 0 < w → 0 < h → (k : ℕ) × (mip_chain_length w h ≡ some (suc k)) × EndsAt w h k
unfolding mip_chain_length
mip_chain_length_ends w h pw ph =
    let (k, e, ends) = mip_chain_lem (suc (max w h)) w h 1 pw ph (omega arith) (omega arith) in
    let same : 1 + k ≡ suc k = omega arith in (k, e ∙ ap some same, ends)
