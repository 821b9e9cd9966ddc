-- ===== src/Texture/Bytes.antt =====
-- texturealloc.go and textureview.go: every subresource lies inside the texture's bytes.
use accel.Base.{
  ℕ, zero, suc, ◌+◌, ◌*◌, ◌<◌, ◌≤◌, ◌≡◌, inl, inr, max, ◌==◌, Bool-cases, ==_iff, arith,
}
use native.Mathlib.Nat.{mul_comm}
use accel.Format.{Device}
use accel.TextureView.{Texture, level_of, find_level, subresource}
use accel.TextureView.Layout.{slot_ends}
use accel.Texture.{level_bytes, texture_bytes}

module _ (d : Device) (t : Texture) where
  level_bytes_above : (left m total : ℕ) → total ≤ level_bytes d t left m total
  unfolding level_bytes
  level_bytes_above zero m total = omega arith
  level_bytes_above (suc left) m total = omega (arith, level_bytes_above left (suc m) _)

  find_level-le :
      (mip layer left m off : ℕ)
      → m ≤ mip
      → mip < m + left
      → layer < max t.array_layers 1
      → (find_level d t mip layer left m off).offset + (find_level d t mip layer left m off).size
        ≤ level_bytes d t left m off
  unfolding find_level level_of level_bytes
  find_level-le mip layer zero m off lo hi inside = absurd (omega (arith, lo, hi))
  find_level-le mip layer (suc left) m off lo hi inside =
      let size = (level_of d t m off layer).size in
      let layers = max t.array_layers 1 in
      elim (Bool-cases (m == mip)) [
        | inl y ↦
            let ends = slot_ends layer layers size inside in
            let turn : layers * size ≡ size * layers = mul_comm layers size in
            let rest = level_bytes_above left (suc m) (off + size * layers) in
            rw (y, find_level) (omega (arith, ends, turn, rest))
        | inr n ↦
            let next : suc m ≤ mip = ground (arith, ==_iff m mip) in
            let ih =
              find_level-le mip layer left (suc m) (off + size * layers) next (omega (arith, hi))
                inside in
            rw (n, find_level) ih
      ]

  -- The bytes of a subresource of a level and a layer that the texture has lie inside the bytes that
  -- are allocated for it.
  pub subresource-le :
      (mip layer : ℕ)
      → mip < max t.mip_levels 1
      → layer < max t.array_layers 1
      → (subresource d t mip layer).offset + (subresource d t mip layer).size ≤ texture_bytes d t
  unfolding subresource texture_bytes
  subresource-le mip layer hm hl =
      find_level-le mip layer (max t.mip_levels 1) 0 0 (omega arith) (omega (arith, hm)) hl
