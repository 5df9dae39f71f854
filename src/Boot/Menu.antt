-- ===== src/Boot/Menu.antt =====
-- What the boot loader's menus can change (boot/test_menu.c).
use rp2040_wiznet_eaa_s_aws.Prelude.{
  ℕ, ◌<◌, ◌≡◌, inl, inr, ◌==◌, List, [], ◌∷◌, none, some, Mem, arith, ◌∙◌, Bool-cases,
}
use rp2040_wiznet_eaa_s_aws.Flash.Rom.{FlashRom, IsFlash}
use rp2040_wiznet_eaa_s_aws.Flash.Erase.{erase_flash-IsErased}
use rp2040_wiznet_eaa_s_aws.Flash.Areas.{erase_areas}
use rp2040_wiznet_eaa_s_aws.Flash.{erase_flash_provisioned_cert_info}
use rp2040_wiznet_eaa_s_aws.Boot.{Key, erase_choice, procedure_erase_flash}

module _ (rom : FlashRom) (law : IsFlash rom) where
  -- Erasing the certificates leaves everything before the configuration area.
  cert_info_kept :
      (flash : Mem) (a : ℕ) → a < 0x1c3000 → erase_flash_provisioned_cert_info rom flash a ≡ flash a
  unfolding erase_flash_provisioned_cert_info
  cert_info_kept flash a h =
      (erase_flash-IsErased rom law 0x1c3000 4864 flash (omega arith) (omega arith)).outside a
        (inl h)

  erase_choice_kept :
      (ch : ℕ) (flash : Mem) (a : ℕ) → a < 0xc0000 → erase_choice rom ch flash a ≡ flash a
  unfolding erase_choice
  erase_choice_kept ch flash a h =
      let areas = erase_areas rom law flash in
      ground (
        arith,
        areas.1.outside a (inl h),
        areas.2.outside a (inl (omega arith)),
        areas.3.outside a (inl (omega arith)),
        cert_info_kept flash a (omega arith),
      )

  -- No sequence of keys in the menu for erasing changes a byte of the boot loader or of the
  -- application, although one of its entries is for erasing the application area.
  pub procedure_erase_flash_keeps :
      (keys : List Key) (flash flash' : Mem)
      → procedure_erase_flash rom keys flash ≡ some flash'
      → (a : ℕ) → a < 0xc0000
      → flash' a ≡ flash a
  unfolding procedure_erase_flash
  procedure_erase_flash_keeps [] flash flash' e a h = cc
  procedure_erase_flash_keeps (none ∷ keys) flash flash' e a h =
      procedure_erase_flash_keeps keys flash flash' e a h
  procedure_erase_flash_keeps (some ch ∷ keys) flash flash' e a h = elim (Bool-cases (ch == b'q')) [
    | inl q ↦ let same = rw q at e in ground arith
    | inr q ↦
        procedure_erase_flash_keeps keys (erase_choice rom ch flash) flash' (rw q at e) a h
        ∙ erase_choice_kept ch flash a h
  ]
