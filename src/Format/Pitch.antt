-- ===== src/Format/Pitch.antt =====
-- format.go: row pitches.
use accel.Base.{
  ℕ, ◌+◌, ◌-◌, ◌*◌, ◌/◌, ◌<◌, ◌≡◌, ◌↔◌, refl, sym, ap, ◌∙◌, false, not, ◌==◌, arith, ==_iff,
  Bool-cases, inl, inr, subst, leb,
}
use native.Mathlib.Nat.{add-mul-div_right, div-eq_of_lt}
use accel.Base.Round.{IsMultiple, RoundsUp, div-RoundsUp}
use accel.Graph.Alias.{align_up}
use accel.Format.{Format, Device, bytes_per_pixel, aligned_row_pitch, tight_row_pitch, repacks}

align_up-RoundsUp : (n to : ℕ) → 0 < to → RoundsUp n to (align_up n to)
unfolding align_up
align_up-RoundsUp n to pos = elim (Bool-cases (leb to 1)) [
  | inl y ↦
      let one : to ≡ 1 = ground (arith, y, pos) in
      rw (y, align_up)
        (record {
          above = omega arith;
          tight = omega (arith, pos);
          multiple = (n, rw one (omega arith));
        })
  | inr b ↦ rw (b, align_up) (div-RoundsUp n to pos)
]

-- A multiple is rounded to itself.
align_up_of_multiple : (q to : ℕ) → 0 < to → align_up (q * to) to ≡ q * to
unfolding align_up
align_up_of_multiple q to pos = elim (Bool-cases (leb to 1)) [
  | inl y ↦ rw (y, align_up) refl
  | inr b ↦
      let e : q * to + to - 1 ≡ (to - 1) + q * to = omega (arith, pos) in
      let z : (to - 1) / to ≡ 0 = div-eq_of_lt (omega (arith, pos)) in
      rw (b, align_up, e, add-mul-div_right (to - 1) q pos, z) (omega arith)
]

module _ (d : Device) (f : Format) (width : ℕ) where
  pitch_of_known :
      0 < bytes_per_pixel f
      → 0 < width
      → aligned_row_pitch d f width ≡ align_up (width * bytes_per_pixel f) d.min_row_pitch
  unfolding aligned_row_pitch
  pitch_of_known known wide = rw (no_zero (bytes_per_pixel f) known, no_zero width wide) refl
    where
      no_zero : (n : ℕ) → 0 < n → (n == 0) ≡ false
      no_zero n h = ground (arith, ==_iff n 0)

  -- For a format of known size, a positive width and a positive alignment: the row pitch of a copy is
  -- the least multiple of the alignment that holds a row, and a copy is repacked exactly if the tight
  -- row is no such multiple.
  pub repacks_iff :
      0 < bytes_per_pixel f
      → 0 < width
      → 0 < d.min_row_pitch
      → RoundsUp (tight_row_pitch f width) d.min_row_pitch (aligned_row_pitch d f width)
        × ((repacks d f width ≡ false) ↔ IsMultiple d.min_row_pitch (tight_row_pitch f width))
  unfolding repacks tight_row_pitch
  repacks_iff known wide pos =
      let tight = width * bytes_per_pixel f in
      let e = pitch_of_known known wide in
      let up = align_up-RoundsUp tight d.min_row_pitch pos in
      (
        subst (RoundsUp tight d.min_row_pitch) (sym e) up,
        (
          (λ h.
              let same : align_up tight d.min_row_pitch ≡ tight =
                sym e ∙ equal (aligned_row_pitch d f width) tight h in
              subst (IsMultiple d.min_row_pitch) same up.multiple),
          (λ (q, m).
              let same : aligned_row_pitch d f width ≡ tight =
                e
                ∙ ap (λ t. align_up t d.min_row_pitch) m
                ∙ align_up_of_multiple q d.min_row_pitch pos
                ∙ sym m in
              unequal (aligned_row_pitch d f width) tight same),
        ),
      )
    where
      equal : (x y : ℕ) → not (x == y) ≡ false → x ≡ y
      equal x y h = ground (arith, ==_iff x y)

      unequal : (x y : ℕ) → x ≡ y → not (x == y) ≡ false
      unequal x y h = ground (arith, ==_iff x y)
