-- ===== src/Format.antt =====
-- format.go: the table of texture formats, and the row pitches of copies. A device is the two facts
-- that the functions read of it. Widths are natural numbers: a negative one gives what 0 gives. A
-- format is a number in the source; of those without a name, which the table does not have and `plan`
-- answers as it does the invalid one, there is none here.
pub mod Pitch
pub mod Baseline
mod Tests
use Prim.Native.String.{String}
use accel.Base.{ℕ, ◌*◌, Bool, true, false, not, ◌&&◌, ◌||◌, Option, none, some, ◌==◌, if◌then◌else◌}
use accel.Graph.Alias.{align_up}

pub data Format : Type 0 where
  format_invalid : Format
  rgba8_unorm rgba8_unorm_srgb bgra8_unorm r16_float rg16_float rgba16_float : Format
  r32_float rg32_float rgba32_float depth32_float depth24_plus_stencil8 depth32_float_stencil8 :
      Format

-- `==` of formats.
unfoldable pub Format-discrete : Discrete Format
Format-discrete = hlevel

pub record FormatEntry : Type 0 where
  pub name : String
  pub bpp : ℕ
  pub channels : ℕ
  pub depth : Bool
  pub stencil : Bool
  pub srgb : Bool
  pub renderable : Bool
  pub sampleable : Bool
  pub filterable : Bool
  pub storage_read : Bool
  pub storage_write : Bool
  pub blendable : Bool
  pub planar : Bool

-- An entry with none of the flags.
abbrev pub plain : String → ℕ → ℕ → FormatEntry
plain n b c = record {
  name = n;
  bpp = b;
  channels = c;
  depth = false;
  stencil = false;
  srgb = false;
  renderable = false;
  sampleable = false;
  filterable = false;
  storage_read = false;
  storage_write = false;
  blendable = false;
  planar = false;
}

unfoldable pub format_table : Format → Option FormatEntry
format_table format_invalid = none
format_table rgba8_unorm = some (record (plain "RGBA8Unorm" 4 4) {
  renderable = true;
  sampleable = true;
  filterable = true;
  storage_read = true;
  storage_write = true;
  blendable = true;
})
format_table rgba8_unorm_srgb = some (record (plain "RGBA8UnormSRGB" 4 4) {
  srgb = true;
  renderable = true;
  sampleable = true;
  filterable = true;
  blendable = true;
})
format_table bgra8_unorm = some (record (plain "BGRA8Unorm" 4 4) {
  renderable = true;
  sampleable = true;
  filterable = true;
  blendable = true;
})
format_table r16_float = some (record (plain "R16Float" 2 1) {
  renderable = true;
  sampleable = true;
  filterable = true;
  blendable = true;
})
format_table rg16_float = some (record (plain "RG16Float" 4 2) {
  renderable = true;
  sampleable = true;
  filterable = true;
  blendable = true;
})
format_table rgba16_float = some (record (plain "RGBA16Float" 8 4) {
  renderable = true;
  sampleable = true;
  filterable = true;
  storage_read = true;
  storage_write = true;
  blendable = true;
})
format_table r32_float = some (record (plain "R32Float" 4 1) {
  renderable = true;
  sampleable = true;
  storage_read = true;
  storage_write = true;
})
format_table rg32_float =
    some (record (plain "RG32Float" 8 2) { renderable = true; sampleable = true })
format_table rgba32_float = some (record (plain "RGBA32Float" 16 4) {
  renderable = true;
  sampleable = true;
  storage_read = true;
  storage_write = true;
})
format_table depth32_float =
    some (record (plain "Depth32Float" 4 1) { depth = true; renderable = true; sampleable = true })
format_table depth24_plus_stencil8 =
    some
      (record (plain "Depth24PlusStencil8" 0 2) { depth = true; stencil = true; renderable = true })
format_table depth32_float_stencil8 = some (record (plain "Depth32FloatStencil8" 4 2) {
  depth = true;
  stencil = true;
  planar = true;
  renderable = true;
})

-- A map's zero entry.
unfoldable pub entry : Format → FormatEntry
entry f = elim (format_table f) [ none ↦ plain "" 0 0 | some e ↦ e ]

unfoldable pub bytes_per_pixel : Format → ℕ
bytes_per_pixel f = (entry f).bpp

unfoldable pub is_depth : Format → Bool
is_depth f = (entry f).depth

unfoldable pub planar : Format → Bool
planar f = (entry f).planar

unfoldable pub valid : Format → Bool
valid f = elim (format_table f) [ none ↦ false | some e ↦ true ]

-- `driver.Format`
pub data DriverFormat : Type 0 where
  driver_invalid : DriverFormat
  driver_rgba8_unorm driver_rgba8_unorm_srgb driver_bgra8_unorm driver_r16_float driver_rg16_float
        driver_rgba16_float :
      DriverFormat
  driver_r32_float driver_rg32_float driver_rgba32_float driver_depth32_float
        driver_depth24_plus_stencil8 driver_depth32_float_stencil8 :
      DriverFormat

unfoldable pub plan : Format → DriverFormat
plan format_invalid = driver_invalid
plan rgba8_unorm = driver_rgba8_unorm
plan rgba8_unorm_srgb = driver_rgba8_unorm_srgb
plan bgra8_unorm = driver_bgra8_unorm
plan r16_float = driver_r16_float
plan rg16_float = driver_rg16_float
plan rgba16_float = driver_rgba16_float
plan r32_float = driver_r32_float
plan rg32_float = driver_rg32_float
plan rgba32_float = driver_rgba32_float
plan depth32_float = driver_depth32_float
plan depth24_plus_stencil8 = driver_depth24_plus_stencil8
plan depth32_float_stencil8 = driver_depth32_float_stencil8

pub record Device : Type 0 where
  pub is_cpu : Bool
  pub min_row_pitch : ℕ

pub record FormatInfo : Type 0 where
  pub format : Format
  pub bytes_per_pixel : ℕ
  pub channels : ℕ
  pub is_depth : Bool
  pub is_stencil : Bool
  pub is_srgb : Bool
  pub renderable : Bool
  pub sampleable : Bool
  pub filterable : Bool
  pub storage_read : Bool
  pub storage_write : Bool
  pub blendable : Bool
  pub host_copyable : Bool

unfoldable pub format_info : Device → Format → FormatInfo
format_info d f = elim (format_table f) [
  | none ↦ record {
    format = format_invalid;
    bytes_per_pixel = 0;
    channels = 0;
    is_depth = false;
    is_stencil = false;
    is_srgb = false;
    renderable = false;
    sampleable = false;
    filterable = false;
    storage_read = false;
    storage_write = false;
    blendable = false;
    host_copyable = false;
  }
  | some e ↦ record {
    format = f;
    bytes_per_pixel = e.bpp;
    channels = e.channels;
    is_depth = e.depth;
    is_stencil = e.stencil;
    is_srgb = e.srgb;
    renderable = e.renderable;
    sampleable = e.sampleable;
    filterable = if d.is_cpu && not e.depth then e.sampleable else e.filterable;
    storage_read = e.storage_read;
    storage_write = e.storage_write;
    blendable = e.blendable;
    host_copyable = not e.depth;
  }
]

unfoldable pub aligned_row_pitch : Device → Format → ℕ → ℕ
aligned_row_pitch d f width =
    let bpp = bytes_per_pixel f in
    if bpp == 0 || width == 0 then 0 else align_up (width * bpp) d.min_row_pitch

unfoldable pub tight_row_pitch : Format → ℕ → ℕ
tight_row_pitch f width = width * bytes_per_pixel f

unfoldable pub repacks : Device → Format → ℕ → Bool
repacks d f width = not (aligned_row_pitch d f width == tight_row_pitch f width)

unfoldable pub stencil_plane_pitch : Device → Format → ℕ → ℕ
stencil_plane_pitch d f width =
    if not (planar f) || width == 0 then 0 else align_up width d.min_row_pitch
