-- ===== src/Format/Baseline.antt =====
-- format.go: what a device reports of a format, beside the table.
use accel.Base.{
  ◌≡◌, refl, subst, Bool, true, false, not, ◌&&◌, ◌||◌, none, some, inl, inr, Option-cases, arith,
}
use accel.Format.{
  plain, Format, format_invalid, FormatEntry, format_table, entry, Device, FormatInfo, format_info,
  rgba8_unorm, rgba8_unorm_srgb, bgra8_unorm, r16_float, rg16_float, rgba16_float, r32_float,
  rg32_float, rgba32_float, depth32_float, depth24_plus_stencil8, depth32_float_stencil8,
}

-- A device reports no less than the entry of the table.
pub record IsAtLeast (e : FormatEntry) (i : FormatInfo) : Type 0 where
  pub renderable : e.renderable ≡ true → i.renderable ≡ true
  pub sampleable : e.sampleable ≡ true → i.sampleable ≡ true
  pub filterable : e.filterable ≡ true → i.filterable ≡ true
  pub storage_read : e.storage_read ≡ true → i.storage_read ≡ true
  pub storage_write : e.storage_write ≡ true → i.storage_write ≡ true
  pub blendable : e.blendable ≡ true → i.blendable ≡ true

-- At least the baseline of the table, filtering and blending only of what can be sampled and rendered
-- to, no storage of sRGB formats, and no filtering or copies to the host of depth.
pub record Honest (e : FormatEntry) (i : FormatInfo) : Type 0 where
  pub baseline : IsAtLeast e i
  pub filters : i.filterable ≡ true → i.sampleable ≡ true
  pub blends : i.blendable ≡ true → i.renderable ≡ true
  pub stores : i.is_srgb ≡ true → (i.storage_read ≡ false) × (i.storage_write ≡ false)
  pub copies : i.is_depth ≡ true → (i.host_copyable ≡ false) × (i.filterable ≡ false)

-- What the rows of the table have in common.
abbrev sound : FormatEntry → Bool
sound e =
    (not e.filterable || e.sampleable && not e.depth)
    && (not e.blendable || e.renderable)
    && (not e.srgb || not e.storage_read && not e.storage_write)

entry_sound : (f : Format) → sound (entry f) ≡ true
unfolding entry format_table
entry_sound format_invalid = refl
entry_sound rgba8_unorm = refl
entry_sound rgba8_unorm_srgb = refl
entry_sound bgra8_unorm = refl
entry_sound r16_float = refl
entry_sound rg16_float = refl
entry_sound rgba16_float = refl
entry_sound r32_float = refl
entry_sound rg32_float = refl
entry_sound rgba32_float = refl
entry_sound depth32_float = refl
entry_sound depth24_plus_stencil8 = refl
entry_sound depth32_float_stencil8 = refl

-- On every device and for every format, also the invalid one, the report is consistent and at least
-- the baseline: what the table says can be rendered to, sampled, filtered, read or written in storage
-- or blended, can be on the device; what filters is sampleable, what blends is renderable, an sRGB
-- format has no storage, and a depth format is neither filterable nor copyable to the host.
pub format_info-Honest : (d : Device) (f : Format) → Honest (entry f) (format_info d f)
unfolding entry format_info
format_info-Honest d f = elim (Option-cases (format_table f)) [
  | inl miss ↦
      rw (miss, entry, format_info)
        (record {
          baseline = record {
            renderable = λ h. cc;
            sampleable = λ h. cc;
            filterable = λ h. cc;
            storage_read = λ h. cc;
            storage_write = λ h. cc;
            blendable = λ h. cc;
          };
          filters = λ h. cc;
          blends = λ h. cc;
          stores = λ h. cc;
          copies = λ h. cc;
        })
  | inr (e, at) ↦
      let s : sound e ≡ true = from_entry e at in
      rw (at, entry, format_info)
        (record {
          baseline = record {
            renderable = λ h. h;
            sampleable = λ h. h;
            filterable = λ h. ground arith;
            storage_read = λ h. h;
            storage_write = λ h. h;
            blendable = λ h. h;
          };
          filters = λ h. ground arith;
          blends = λ h. ground arith;
          stores = λ h. (ground arith, ground arith);
          copies = λ h. (ground arith, ground arith);
        })
]
  where
    from_entry : (e : FormatEntry) → format_table f ≡ some e → sound e ≡ true
    from_entry e at =
        subst (λ r. sound (elim r [ none ↦ plain "" 0 0 | some x ↦ x ]) ≡ true) at (entry_sound f)
