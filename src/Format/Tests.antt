-- ===== src/Format/Tests.antt =====
-- format.go: two row pitches on a device that aligns rows to 256 bytes.
use accel.Base.{◌≡◌, ◌↔◌, refl, true, false, arith}
use accel.Base.Round.{RoundsUp, IsMultiple}
use accel.Graph.Alias.{align_up}
use accel.Format.{
  rgba8_unorm, r16_float, depth32_float_stencil8, Device, entry, format_table, bytes_per_pixel,
  format_info, planar, aligned_row_pitch, tight_row_pitch, repacks, stencil_plane_pitch,
}
use accel.Format.Baseline.{Honest, format_info-Honest}
use accel.Format.Pitch.{repacks_iff}

abbrev metal : Device
metal = record { is_cpu = false; min_row_pitch = 256 }

narrow : repacks metal rgba8_unorm 100 ≡ true
unfolding repacks aligned_row_pitch tight_row_pitch bytes_per_pixel entry format_table align_up
narrow = refl

wide : repacks metal rgba8_unorm 1024 ≡ false
unfolding repacks aligned_row_pitch tight_row_pitch bytes_per_pixel entry format_table align_up
wide = refl

stencil : stencil_plane_pitch metal depth32_float_stencil8 100 ≡ 256
unfolding stencil_plane_pitch planar entry format_table align_up
stencil = refl

repacks_iff_example :
    RoundsUp (tight_row_pitch rgba8_unorm 100) 256 (aligned_row_pitch metal rgba8_unorm 100)
    × ((repacks metal rgba8_unorm 100 ≡ false) ↔ IsMultiple 256 (tight_row_pitch rgba8_unorm 100))
unfolding bytes_per_pixel entry format_table
repacks_iff_example = repacks_iff metal rgba8_unorm 100 (omega arith) (omega arith) (omega arith)

format_info-Honest_example : Honest (entry r16_float) (format_info metal r16_float)
format_info-Honest_example = format_info-Honest metal r16_float
