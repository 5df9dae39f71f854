-- ===== src/Flash/Copy.antt =====
-- The copies between the areas (port/flash_interface/flash_control.c).
use rp2040_wiznet_eaa_s_aws.Prelude.{
  ℕ, zero, suc, ◌+◌, ◌-◌, ◌*◌, ◌%◌, ◌^◌, ◌≤◌, ◌<◌, ◌≡◌, ◌⊎◌, Mem, arith, inl, ap, ◌∙◌, refl, sym,
}
use rp2040_wiznet_eaa_s_aws.Prelude.Word.{add32, u32}
use native.Mathlib.Decide.{dec_lt}
use native.Mathlib.Nat.{add_assoc}
use rp2040_wiznet_eaa_s_aws.Flash.Rom.{FlashRom, IsFlash}
use rp2040_wiznet_eaa_s_aws.Flash.Erase.{IsErased, unit_count-pages}
use rp2040_wiznet_eaa_s_aws.Flash.Areas.{erase_areas}
use rp2040_wiznet_eaa_s_aws.Flash.{
  unit_count, copy_pages, copy_ota_area_data_to_app_area, copy_factory_area_data_to_app_area,
  copy_app_area_data_to_factory_area, erase_flash_total_app_area, erase_flash_total_factory_area,
}

-- `flash'` holds the bytes from `from` on at `to`, `n` of them, and is `flash` elsewhere.
pub record IsCopied (from to n : ℕ) (flash flash' : Mem) : Type 0 where
  pub inside : (k : ℕ) → k < n → flash' (to + k) ≡ flash (from + k)
  pub outside : (a : ℕ) → (a < to) ⊎ (to + n ≤ a) → flash' a ≡ flash a

-- The two ranges of `n` bytes do not meet.
abbrev pub AreApart : ℕ → ℕ → ℕ → Type 0
AreApart from to n = (from + n ≤ to) ⊎ (to + n ≤ from)

module _ (rom : FlashRom) (law : IsFlash rom) where
  -- A page, then the rest.
  IsCopied-page :
      (from to n : ℕ) (flash after : Mem)
      → to % 256 ≡ 0
      → AreApart from to (n + 256)
      → ((k : ℕ) → k < n + 256 → flash (to + k) ≡ 0xff)
      → IsCopied
          (from + 256)
          (to + 256)
          n
          (rom.flash_range_program to (λ k. flash (from + k)) 256 flash)
          after
      → IsCopied from to (n + 256) flash after
  IsCopied-page from to n flash after aligned apart erased rest = record {
    inside = λ k h. elim (dec_lt k 256) [
      | yes p ↦
          let index : to + k - to ≡ k = omega arith in
          rest.outside (to + k) (inl (omega arith))
          ∙ law.program_inside to 256 (λ k. flash (from + k)) flash (to + k) aligned refl
              (omega arith) (omega arith) (erased k h)
          ∙ ap (λ j. flash (from + j)) index
      | no p ↦
          let there : to + k ≡ to + 256 + (k - 256) = omega arith in
          let here : from + 256 + (k - 256) ≡ from + k = omega arith in
          ap after there
          ∙ rest.inside (k - 256) (omega arith)
          ∙ law.program_outside to 256 (λ k. flash (from + k)) flash (from + 256 + (k - 256))
              aligned refl (omega arith)
          ∙ ap flash here
    ];
    outside = λ a h.
        rest.outside a (omega arith)
        ∙ law.program_outside to 256 (λ k. flash (from + k)) flash a aligned refl (omega arith);
  }

  -- The loop copies the pages that are left, if the range to be written is erased and the range to be
  -- read does not meet it.
  pub copy_pages-IsCopied :
      (from left i to n : ℕ) (flash : Mem)
      → to % 256 ≡ 0
      → n ≡ left * 256
      → to + n ≤ 2 ^ 31
      → i * 256 + n ≤ 2 ^ 31
      → AreApart (from + i * 256) to n
      → ((k : ℕ) → k < n → flash (to + k) ≡ 0xff)
      → IsCopied (from + i * 256) to n flash (copy_pages rom from left i to flash)
  unfolding copy_pages
  copy_pages-IsCopied from zero i to n flash aligned size small short apart erased = record {
    inside = λ k h. absurd (omega arith);
    outside = λ a h. refl;
  }
  copy_pages-IsCopied from (suc left) i to n flash aligned size small short apart erased =
      let m : ℕ = left * 256 in
      let whole : n ≡ m + 256 = omega arith in
      let offset : u32 (i * 256) ≡ i * 256 = omega arith in
      let next : add32 to 256 ≡ to + 256 = omega arith in
      let start : from + i * 256 + 256 ≡ from + (i + 1) * 256 = omega arith in
      let programmed : Mem =
        rom.flash_range_program to (λ k. flash (from + i * 256 + k)) 256 flash in
      let blank : (k : ℕ) → k < m → programmed (to + 256 + k) ≡ 0xff = λ k h.
        law.program_outside to 256 (λ k. flash (from + i * 256 + k)) flash (to + 256 + k) aligned
          refl (omega arith)
        ∙ ap flash (add_assoc to 256 k)
        ∙ erased (256 + k) (omega arith) in
      rw (offset, next, whole)
        (IsCopied-page (from + i * 256) to m flash _ aligned (omega arith)
          (λ k h. erased k (omega arith))
          (rw start (
            copy_pages-IsCopied from left (i + 1) (to + 256) m programmed (omega arith) refl
              (omega arith) (omega arith) (omega arith) blank)))

-- An image of `size` bytes was copied from `from` into the area at `to`: no byte outside the area
-- changed.
pub record IsInstalled (from to size : ℕ) (flash flash' : Mem) : Type 0 where
  pub image : (k : ℕ) → k < size → flash' (to + k) ≡ flash (from + k)
  pub outside : (a : ℕ) → (a < to) ⊎ (to + 0x80000 ≤ a) → flash' a ≡ flash a

module _ (rom : FlashRom) (law : IsFlash rom) where
  -- Copying into an area that has been erased.
  installed :
      (from to size : ℕ) (flash erased : Mem)
      → to % 256 ≡ 0
      → to ≤ 0x1000000
      → size ≤ 0x80000
      → AreApart from to 0x80000
      → IsErased to (to + 0x80000) flash erased
      → IsInstalled from to size flash (copy_pages rom from (unit_count size 256) 0 to erased)
  installed from to size flash erased aligned small fits apart blank =
      let pages : ℕ = unit_count size 256 in
      let enough : (size ≤ pages * 256) × (pages * 256 < size + 256) =
        unit_count-pages size (omega arith) in
      let zero_th : from + 0 * 256 ≡ from = omega arith in
      let c : IsCopied (from + 0 * 256) to (pages * 256) erased
          (copy_pages rom from pages 0 to erased) =
        copy_pages-IsCopied rom law from pages 0 to (pages * 256) erased aligned refl (omega arith)
          (omega arith) (omega arith) (λ k h. blank.inside (to + k) (omega arith) (omega arith)) in
      record {
        image = λ k h.
            c.inside k (omega arith)
            ∙ ap (λ b. erased (b + k)) zero_th
            ∙ blank.outside (from + k) (omega arith);
        outside = λ a h. c.outside a (omega arith) ∙ blank.outside a h;
      }

  -- The boot loader's update: an image of at most APPLICATION_SIZE bytes arrives in the application
  -- area as it stands in the download area, and nothing outside the application area changes.
  pub copy_ota-IsInstalled :
      (size : ℕ) (flash : Mem)
      → size ≤ 0x80000
      → IsInstalled 0x140000 0x40000 size flash (copy_ota_area_data_to_app_area rom size flash)
  unfolding copy_ota_area_data_to_app_area
  copy_ota-IsInstalled size flash fits =
      installed 0x140000 0x40000 size flash (erase_flash_total_app_area rom flash) refl
        (omega arith) fits (omega arith) (erase_areas rom law flash).0

  copy_factory-IsInstalled :
      (size : ℕ) (flash : Mem)
      → size ≤ 0x80000
      → IsInstalled 0xc0000 0x40000 size flash (copy_factory_area_data_to_app_area rom size flash)
  unfolding copy_factory_area_data_to_app_area
  copy_factory-IsInstalled size flash fits =
      installed 0xc0000 0x40000 size flash (erase_flash_total_app_area rom flash) refl (omega arith)
        fits (omega arith) (erase_areas rom law flash).0

  copy_app-IsInstalled :
      (size : ℕ) (flash : Mem)
      → size ≤ 0x80000
      → IsInstalled 0x40000 0xc0000 size flash (copy_app_area_data_to_factory_area rom size flash)
  unfolding copy_app_area_data_to_factory_area
  copy_app-IsInstalled size flash fits =
      installed 0x40000 0xc0000 size flash (erase_flash_total_factory_area rom flash) refl
        (omega arith) fits (omega arith) (erase_areas rom law flash).1

  -- The factory image: an application that was copied to the factory area is restored byte for byte
  -- by the copy back, whatever happened to the flash outside the factory area in between.
  pub factory_restore :
      (flash later : Mem)
      → ((a : ℕ)
          → 0xc0000 ≤ a
          → a < 0x140000
          → later a ≡ copy_app_area_data_to_factory_area rom 0x80000 flash a)
      → (a : ℕ) → 0x40000 ≤ a
      → a < 0xc0000
      → copy_factory_area_data_to_app_area rom 0x80000 later a ≡ flash a
  factory_restore flash later same a from to =
      let k : ℕ = a - 0x40000 in
      let back : 0x40000 + k ≡ a = omega arith in
      let restored : copy_factory_area_data_to_app_area rom 0x80000 later (0x40000 + k)
          ≡ flash (0x40000 + k) =
        (copy_factory-IsInstalled 0x80000 later (omega arith)).image k (omega arith)
        ∙ same (0xc0000 + k) (omega arith) (omega arith)
        ∙ (copy_app-IsInstalled 0x80000 flash (omega arith)).image k (omega arith) in
      rw back at restored

  -- The size is not checked. A size above APPLICATION_SIZE (and up to the download area) copies on
  -- into the factory area: where that is erased, it receives what stands behind the download area,
  -- which is the configuration.
  pub copy_ota_overrun :
      (size : ℕ) (flash : Mem)
      → 0x80000 < size
      → size ≤ 0x100000
      → ((a : ℕ) → 0xc0000 ≤ a → a < 0x140000 → flash a ≡ 0xff)
      → (k : ℕ) → k < size - 0x80000
      → copy_ota_area_data_to_app_area rom size flash (0xc0000 + k) ≡ flash (0x1c0000 + k)
  unfolding copy_ota_area_data_to_app_area
  copy_ota_overrun size flash over fits factory k h =
      let erased : Mem = erase_flash_total_app_area rom flash in
      let blank : IsErased 0x40000 0xc0000 flash erased = (erase_areas rom law flash).0 in
      let pages : ℕ = unit_count size 256 in
      let enough : (size ≤ pages * 256) × (pages * 256 < size + 256) =
        unit_count-pages size (omega arith) in
      let all_blank : (j : ℕ) → j < pages * 256 → erased (0x40000 + j) ≡ 0xff = λ j p.
        elim (dec_lt j 0x80000) [
          | yes q ↦ blank.inside (0x40000 + j) (omega arith) (omega arith)
          | no q ↦
              blank.outside (0x40000 + j) (omega arith)
              ∙ factory (0x40000 + j) (omega arith) (omega arith)
        ] in
      let c : IsCopied 0x140000 0x40000 (pages * 256) erased
          (copy_pages rom 0x140000 pages 0 0x40000 erased) =
        copy_pages-IsCopied rom law 0x140000 pages 0 0x40000 (pages * 256) erased refl refl
          (omega arith) (omega arith) (omega arith) all_blank in
      let target : 0x40000 + (0x80000 + k) ≡ 0xc0000 + k = omega arith in
      let source : 0x140000 + (0x80000 + k) ≡ 0x1c0000 + k = omega arith in
      let copied = c.inside (0x80000 + k) (omega arith) in
      ap (copy_pages rom 0x140000 pages 0 0x40000 erased) (sym target)
      ∙ copied
      ∙ ap erased source
      ∙ blank.outside (0x1c0000 + k) (omega arith)
