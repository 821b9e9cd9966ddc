-- ===== src/TextureView/View.antt =====
-- textureview.go: `View` and the formats that a view may have. The texture is open and not nil; a mip
-- and a layer are Go's `int`s, as 64-bit patterns. Each clause of `incompatible` is an error.
pub mod Families
use mathlib.Core.Logic.{ite}
use accel.Base.{
  ℕ, max, Bool, true, false, not, ◌&&◌, ◌||◌, Option, none, some, ◌==◌, leb, if◌then◌else◌,
}
use accel.Base.Int64.{slt}
use accel.Base.Result.{Result, ok, err}
use accel.Format.{Format, format_invalid, Format-discrete, Device, FormatInfo, format_info}
use accel.TextureView.{Texture}

pub data ViewError : Type 0 where
  no_mip no_layer bytes_differ channels_differ aspects_differ encodings_agree : ViewError

-- A descriptor, and the view that is made of it.
pub record View : Type 0 where
  pub mip : ℕ
  pub layer : ℕ
  pub format : Format

-- `a != b` on Booleans.
abbrev pub differs : Bool → Bool → Bool
differs true b = not b
differs false b = b

unfoldable pub incompatible : Device → Format → Format → Option ViewError
incompatible d have want =
    let a = format_info d have in
    let b = format_info d want in
    if not (a.bytes_per_pixel == b.bytes_per_pixel) || a.bytes_per_pixel == 0
    then some bytes_differ
    else if not (a.channels == b.channels)
    then some channels_differ
    else if differs a.is_depth b.is_depth || differs a.is_stencil b.is_stencil
    then some aspects_differ
    else if not (differs a.is_srgb b.is_srgb)
    then ite (Format-discrete have want) none (some encodings_agree)
    else none

abbrev pub out_of_range : ℕ → ℕ → Bool
out_of_range i n = slt i 0 || not (slt i n)

unfoldable pub reinterpreted : Device → Texture → View → Option ViewError → Result ViewError View
reinterpreted d t v none = ok v
reinterpreted d t v (some why) = err why

unfoldable pub view : Device → Texture → View → Result ViewError View
view d t v =
    if out_of_range v.mip (max t.mip_levels 1)
    then err no_mip
    else if out_of_range v.layer (max t.array_layers 1)
    then err no_layer
    else ite (Format-discrete v.format format_invalid) (ok (record v { format = t.format }))
        (reinterpreted d t v (incompatible d t.format v.format))
