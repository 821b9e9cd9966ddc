-- ===== src/TextureView/Layout.antt =====
-- textureview.go: the subresources of a texture lie apart.
use accel.Base.{
  ℕ, zero, suc, ◌+◌, ◌-◌, ◌*◌, ◌<◌, ◌≤◌, ◌≡◌, ◌∙◌, subst, inl, inr, ◌⊎◌, max, true, false, ◌==◌,
  Bool-cases, ==_iff, arith,
}
use native.Mathlib.Nat.{mul_comm}
use accel.Format.{Device}
use accel.TextureView.{Texture, level_of, find_level, subresource}

mul_le : (a k s : ℕ) → (suc a) * s ≤ (suc a + k) * s
mul_le a k s = grind arith

pub slot_ends : (a b s : ℕ) → a < b → a * s + s ≤ b * s
slot_ends a b s h =
    let e : suc a + (b - suc a) ≡ b = omega (arith, h) in
    let le : suc a * s ≤ b * s = subst (λ k. suc a * s ≤ k * s) e (mul_le a (b - suc a) s) in
    let one : suc a * s ≡ a * s + s = grind arith in omega (arith, le, one)

-- Levels or layers in order: the one lies before the other.
abbrev pub Before : ℕ → ℕ → ℕ → ℕ → Type 0
Before m l m' l' = (m < m') ⊎ (m ≡ m') × (l < l')

module _ (d : Device) (t : Texture) where
  -- A level starts where the levels before it end, or after.
  find_level_above :
      (mip layer left m off : ℕ)
      → m ≤ mip
      → mip < m + left
      → off ≤ (find_level d t mip layer left m off).offset
  unfolding find_level level_of
  find_level_above mip layer zero m off lo hi = absurd (omega (arith, lo, hi))
  find_level_above mip layer (suc left) m off lo hi = elim (Bool-cases (m == mip)) [
    | inl y ↦ rw (y, find_level) (omega arith)
    | inr n ↦
        let next : suc m ≤ mip = ground (arith, ==_iff m mip) in
        let size = (level_of d t m off layer).size in
        let ih =
          find_level_above mip layer left (suc m) (off + size * max t.array_layers 1) next
            (omega (arith, hi)) in
        rw (n, find_level) (omega (arith, ih))
  ]

  find_level_apart :
      (a la b lb left m off : ℕ)
      → m ≤ a
      → b < m + left
      → la < max t.array_layers 1
      → Before a la b lb
      → (find_level d t a la left m off).offset + (find_level d t a la left m off).size
        ≤ (find_level d t b lb left m off).offset
  unfolding find_level level_of
  find_level_apart a la b lb zero m off lo hi inside o = omega arith
  find_level_apart a la b lb (suc left) m off lo hi inside o =
      let size = (level_of d t m off la).size in
      let layers = max t.array_layers 1 in
      elim (Bool-cases (m == a)) [
        | inl y ↦
            let at : m ≡ a = (==_iff m a).0 y in
            elim o [
              | inl lt ↦
                  let past : (m == b) ≡ false = ground (arith, ==_iff m b, at, lt) in
                  let above =
                    find_level_above b lb left (suc m) (off + size * layers) (omega (arith, at, lt))
                      (omega (arith, hi)) in
                  let ends = slot_ends la layers size inside in
                  let turn : layers * size ≡ size * layers = mul_comm layers size in
                  rw (y, past, find_level) (omega (arith, above, ends, turn))
              | inr (same, lt) ↦
                  let too : (m == b) ≡ true = (==_iff m b).1 (at ∙ same) in
                  let ends = slot_ends la lb size lt in
                  rw (y, too, find_level) (omega (arith, ends))
            ]
        | inr n ↦
            let next : suc m ≤ a = ground (arith, ==_iff m a) in
            let other : (m == b) ≡ false = ground (arith, ==_iff m b, next, o) in
            let ih =
              find_level_apart a la b lb left (suc m) (off + size * layers) next (omega (arith, hi))
                inside o in
            rw (n, other, find_level) ih
      ]

  -- Of two subresources of a texture, the one of the lower level, or of the lower layer of the same
  -- level, ends where the other begins or before.
  pub subresource_apart :
      (m l m' l' : ℕ)
      → m' < max t.mip_levels 1
      → l < max t.array_layers 1
      → Before m l m' l'
      → (subresource d t m l).offset + (subresource d t m l).size ≤ (subresource d t m' l').offset
  unfolding subresource
  subresource_apart m l m' l' hm hl o =
      find_level_apart m l m' l' (max t.mip_levels 1) 0 0 (omega arith) (omega (arith, hm)) hl o
