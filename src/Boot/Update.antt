-- ===== src/Boot/Update.antt =====
-- The update that the boot loader makes, and the jump to the application (boot/main.c).
use rp2040_wiznet_eaa_s_aws.Prelude.{
  ℕ, ◌+◌, ◌≤◌, ◌<◌, ◌≡◌, ◌≢◌, ◌⊎◌, inl, inr, refl, ltb, ◌==◌, if◌then◌else◌, List, [], ◌∷◌, ◌++◌,
  Option, none, some, Mem, arith, ◌∙◌, sym, ap, All, Bool-cases, lt→ltb, le→not_ltb,
}
use rp2040_wiznet_eaa_s_aws.Prelude.Word.{sub32}
use rp2040_wiznet_eaa_s_aws.Config.{Layout, IsLayout}
use rp2040_wiznet_eaa_s_aws.Flash.Rom.{FlashRom, IsFlash}
use rp2040_wiznet_eaa_s_aws.Flash.Save.{load-save_flash_common_config_info, saved_byte}
use rp2040_wiznet_eaa_s_aws.Flash.Copy.{IsInstalled, copy_ota-IsInstalled}
use rp2040_wiznet_eaa_s_aws.Flash.{save_flash_common_config_info, copy_ota_area_data_to_app_area}
use rp2040_wiznet_eaa_s_aws.Boot.{Turn, BootState, start_ota, boot_turn, boot_loop, boot_main}

-- A turn without a key, within the time to wait.
abbrev pub IsIdle : ℕ → Turn → Type 0
IsIdle start turn = (turn.key ≡ none) × (sub32 turn.now start ≤ 2000)

-- The configuration in the flash.
abbrev pub stored_config : Mem → Mem
stored_config flash = λ k. flash (0x1c0000 + k)

-- The configuration in the memory of `main`, in front of whatever lies behind it.
abbrev loaded_config : Layout → Mem → Mem → Mem
loaded_config layout ram flash =
    λ k. if ltb k layout.sizeof_app_common then flash (0x1c0000 + k) else ram k

-- The variables of `main` when it has loaded the configuration.
abbrev boot_state : Layout → ℕ → Mem → Mem → BootState
boot_state layout now ram flash = record {
  start_timeout_ms = now;
  app_common = loaded_config layout ram flash;
  flash = flash;
}

-- What an update with an image of `size` bytes leaves in the flash.
pub record IsUpdated (layout : Layout) (size : ℕ) (flash flash' : Mem) : Type 0 where
  pub image : (k : ℕ) → k < size → flash' (0x40000 + k) ≡ flash (0x140000 + k)
  pub switched_off : layout.ota_status_of (stored_config flash') ≡ 0
  pub outside :
      (a : ℕ) → (a < 0x40000) ⊎ (0xc0000 ≤ a) → (a < 0x1c0000) ⊎ (0x1c2000 ≤ a) → flash' a ≡ flash a

-- The loader jumps to the application, with a flash of the given kind.
unfoldable pub BootFlash : Option BootState → (Mem → Type 0) → Type 0
BootFlash none P = ⊥
BootFlash (some s) P = P s.flash

module _ (rom : FlashRom) (law : IsFlash rom) (layout : Layout) (lay : IsLayout layout) where
  -- The update switches itself off, in the memory and in the flash.
  start_ota-off :
      (s : BootState)
      → layout.ota_status_of s.app_common ≡ 1
      → (layout.ota_status_of (start_ota rom layout s).app_common ≡ 0)
        × (layout.ota_status_of (stored_config (start_ota rom layout s).flash) ≡ 0)
  unfolding start_ota
  start_ota-off s on =
      let app : Mem = layout.with_ota_status 0 s.app_common in
      let off : layout.ota_status_of app ≡ 0 = lay.status_of_with 0 s.app_common (omega arith) in
      let flash : Mem =
        copy_ota_area_data_to_app_area rom (layout.firmware_size_of s.app_common) s.flash in
      rw on (
        off,
        lay.status_within _ app (saved_byte rom law layout.sizeof_app_common app flash lay.fits)
            ∙ off,
      )

  -- A second turn does nothing more.
  start_ota_twice :
      (s : BootState) → start_ota rom layout (start_ota rom layout s) ≡ start_ota rom layout s
  start_ota_twice s = elim (Bool-cases (layout.ota_status_of s.app_common == 1)) [
    | inl on ↦
        let off = (start_ota-off s (ground arith)).0 in
        start_ota-same (start_ota rom layout s) (omega arith)
    | inr off ↦ let same = start_ota-same s (ground arith) in ap (start_ota rom layout) same
  ]
    where
      start_ota-same :
          (t : BootState) → layout.ota_status_of t.app_common ≢ 1 → start_ota rom layout t ≡ t
      start_ota-same t h = unfold start_ota in ground arith

  start_ota-start : (s : BootState) → (start_ota rom layout s).start_timeout_ms ≡ s.start_timeout_ms
  unfolding start_ota
  start_ota-start s = ground arith

  -- Idle turns after an update change nothing, and the first turn behind the time to wait jumps.
  idle_turns :
      (turns : List Turn) (late : Turn) (rest : List Turn) (s : BootState)
      → start_ota rom layout s ≡ s
      → All (IsIdle s.start_timeout_ms) turns
      → 2000 < sub32 late.now s.start_timeout_ms
      → boot_loop rom layout (turns ++ late ∷ rest) s ≡ some s
  unfolding boot_loop boot_turn
  idle_turns [] late rest s done idle jump = rw (lt→ltb _ _ jump)
  idle_turns (turn ∷ turns) late rest s done idle jump =
      rw (le→not_ltb _ _ idle.0.1, idle.0.0, done) (idle_turns turns late rest s done idle.1 jump)

  -- Without keys the loop makes the update that the configuration asks for, once, and jumps with what
  -- the first turn left, at the first turn behind the 2000 ms.
  pub boot_loop_idle :
      (first : Turn) (turns : List Turn) (late : Turn) (rest : List Turn) (s : BootState)
      → All (IsIdle s.start_timeout_ms) (first ∷ turns)
      → 2000 < sub32 late.now s.start_timeout_ms
      → boot_loop rom layout (first ∷ (turns ++ late ∷ rest)) s ≡ some (start_ota rom layout s)
  unfolding boot_loop boot_turn
  boot_loop_idle first turns late rest s idle jump =
      rw (le→not_ltb _ _ idle.0.1, idle.0.0)
        (idle_turns turns late rest (start_ota rom layout s) (start_ota_twice s)
          (rw (start_ota-start s) idle.1) (rw (start_ota-start s) jump))

  -- The configuration as `main` loads it has the fields of the stored one.
  loaded_status :
      (ram flash : Mem)
      → layout.ota_status_of (loaded_config layout ram flash)
        ≡ layout.ota_status_of (stored_config flash)
  loaded_status ram flash =
      lay.status_within (loaded_config layout ram flash) (stored_config flash) (λ k h. ground arith)

  loaded_size :
      (ram flash : Mem)
      → layout.firmware_size_of (loaded_config layout ram flash)
        ≡ layout.firmware_size_of (stored_config flash)
  loaded_size ram flash =
      lay.size_within (loaded_config layout ram flash) (stored_config flash) (λ k h. ground arith)

  start_ota-flash :
      (s : BootState)
      → layout.ota_status_of s.app_common ≡ 1
      → (start_ota rom layout s).flash
        ≡ save_flash_common_config_info rom layout.sizeof_app_common
            (layout.with_ota_status 0 s.app_common)
            (copy_ota_area_data_to_app_area rom (layout.firmware_size_of s.app_common) s.flash)
  unfolding start_ota
  start_ota-flash s on = rw on refl

  -- The update, from the flash alone.
  start_ota-IsUpdated :
      (s : BootState)
      → layout.ota_status_of s.app_common ≡ 1
      → layout.firmware_size_of s.app_common ≤ 0x80000
      → IsUpdated layout
          (layout.firmware_size_of s.app_common)
          s.flash
          (start_ota rom layout s).flash
  start_ota-IsUpdated s on small =
      let size : ℕ = layout.firmware_size_of s.app_common in
      let app : Mem = layout.with_ota_status 0 s.app_common in
      let copied : Mem = copy_ota_area_data_to_app_area rom size s.flash in
      let installed : IsInstalled 0x140000 0x40000 size s.flash copied =
        copy_ota-IsInstalled rom law size s.flash small in
      let saved =
        load-save_flash_common_config_info rom law layout.sizeof_app_common app copied lay.fits in
      let same = start_ota-flash s on in
      record {
        image = λ k h.
            ap (λ f. f (0x40000 + k)) same
            ∙ saved.1 (0x40000 + k) (inl (omega arith))
            ∙ installed.image k h;
        switched_off = (start_ota-off s on).1;
        outside = λ a h k. ap (λ f. f a) same ∙ saved.1 a k ∙ installed.outside a h;
      }

  -- When the configuration in the flash asks for an update with an image of at most APPLICATION_SIZE
  -- bytes, and no key is pressed until the first turn behind the 2000 ms, `main` jumps to an
  -- application area that holds the downloaded image; the stored configuration no longer asks for an
  -- update; and nothing changed outside the application area and the configuration's two sectors.
  pub boot_main_update :
      (now : ℕ) (ram flash : Mem) (first : Turn) (turns : List Turn) (late : Turn)
      (rest : List Turn)
      → layout.ota_status_of (stored_config flash) ≡ 1
      → layout.firmware_size_of (stored_config flash) ≤ 0x80000
      → All (IsIdle now) (first ∷ turns)
      → 2000 < sub32 late.now now
      → BootFlash
          (boot_main rom layout now ram (first ∷ (turns ++ late ∷ rest)) flash)
          (IsUpdated layout (layout.firmware_size_of (stored_config flash)) flash)
  unfolding boot_main BootFlash
  boot_main_update now ram flash first turns late rest on small idle jump =
      rw (boot_loop_idle first turns late rest (boot_state layout now ram flash) idle jump) (
        rw (sym (loaded_size ram flash)) (
          start_ota-IsUpdated (boot_state layout now ram flash) (loaded_status ram flash ∙ on)
            (omega (arith, loaded_size ram flash))))

  -- When the configuration in the flash does not ask for an update, and no key is pressed until the
  -- first turn behind the 2000 ms, `main` jumps with the flash as it was.
  pub boot_main_without_update :
      (now : ℕ) (ram flash : Mem) (first : Turn) (turns : List Turn) (late : Turn)
      (rest : List Turn)
      → layout.ota_status_of (stored_config flash) ≢ 1
      → All (IsIdle now) (first ∷ turns)
      → 2000 < sub32 late.now now
      → BootFlash
          (boot_main rom layout now ram (first ∷ (turns ++ late ∷ rest)) flash)
          (λ flash'. flash' ≡ flash)
  unfolding boot_main BootFlash start_ota
  boot_main_without_update now ram flash first turns late rest off idle jump =
      rw (boot_loop_idle first turns late rest (boot_state layout now ram flash) idle jump)
        (ground (arith, loaded_status ram flash))
