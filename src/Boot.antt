-- ===== src/Boot.antt =====
-- The boot loader (boot/main.c and boot/test_menu.c). What it waits for is given in advance: the clock
-- readings and the keys.
pub mod Menu
pub mod Update
mod Tests
use rp2040_wiznet_eaa_s_aws.Prelude.{
  ℕ, ◌+◌, ◌-◌, ltb, ◌==◌, if◌then◌else◌, List, [], ◌∷◌, Option, none, some, Mem, ◌>>=◌,
}
use rp2040_wiznet_eaa_s_aws.Prelude.Word.{sub32}
use rp2040_wiznet_eaa_s_aws.Config.{Layout, start_fw_ota_disable, start_fw_ota_enable}
use rp2040_wiznet_eaa_s_aws.Flash.Layout.{
  application_size, flash_common_config_start_addr, flash_start_addr,
}
use rp2040_wiznet_eaa_s_aws.Flash.Rom.{FlashRom}
use rp2040_wiznet_eaa_s_aws.Flash.{
  erase_flash_total_config_area, erase_flash_total_factory_area, erase_flash_total_ota_area,
  erase_flash_provisioned_cert_info, copy_app_area_data_to_factory_area,
  copy_factory_area_data_to_app_area, copy_ota_area_data_to_app_area, save_flash_common_config_info,
}

abbrev pub jump_app_timeout_ms : ℕ
jump_app_timeout_ms = 2000

-- What `getchar_timeout_us` returns: a key, or nothing within the time.
abbrev pub Key : Type 0
Key = Option ℕ

module _ (rom : FlashRom) where
  -- What a key other than the one that quits does. Key 2, for the application area, erases the
  -- configuration area.
  unfoldable pub erase_choice : ℕ → Mem → Mem
  erase_choice ch flash =
      if ch == b'1'
      then erase_flash_total_config_area rom flash
      else if ch == b'2'
      then erase_flash_total_config_area rom flash
      else if ch == b'3'
      then erase_flash_total_factory_area rom flash
      else if ch == b'4'
      then erase_flash_total_ota_area rom flash
      else if ch == b'5'
      then erase_flash_provisioned_cert_info rom flash
      else flash

  -- The loop of the menu; `none` when the keys run out before the one that quits.
  unfoldable pub procedure_erase_flash : List Key → Mem → Option Mem
  unfolding erase_choice
  procedure_erase_flash [] flash = none
  procedure_erase_flash (none ∷ keys) flash = procedure_erase_flash keys flash
  procedure_erase_flash (some ch ∷ keys) flash =
      let rest = procedure_erase_flash keys (erase_choice ch flash) in
      if ch == b'q' then some flash else rest

  unfoldable pub factory_choice : ℕ → Mem → Mem
  factory_choice ch flash =
      if ch == b'1'
      then copy_app_area_data_to_factory_area rom application_size flash
      else if ch == b'2'
      then copy_factory_area_data_to_app_area rom application_size flash
      else flash

  unfoldable pub procedure_factory_fw : List Key → Mem → Option Mem
  unfolding factory_choice
  procedure_factory_fw [] flash = none
  procedure_factory_fw (none ∷ keys) flash = procedure_factory_fw keys flash
  procedure_factory_fw (some ch ∷ keys) flash =
      let rest = procedure_factory_fw keys (factory_choice ch flash) in
      if ch == b'q' then some flash else rest

  -- Printing changes nothing: only the key that quits counts.
  unfoldable pub procedure_print_flash : List Key → Mem → Option Mem
  procedure_print_flash [] flash = none
  procedure_print_flash (none ∷ keys) flash = procedure_print_flash keys flash
  procedure_print_flash (some ch ∷ keys) flash =
      let rest = procedure_print_flash keys flash in if ch == b'q' then some flash else rest

-- One turn of the main loop: the clock at its start, the key, the keys that a menu reads, and the
-- clock when a menu is left.
pub record Turn : Type 0 where
  pub now : ℕ
  pub key : Key
  pub menu_keys : List Key
  pub left_menu : ℕ

-- The variables of `main` and the flash.
pub record BootState : Type 0 where
  pub start_timeout_ms : ℕ
  pub app_common : Mem
  pub flash : Mem

module _ (rom : FlashRom) (layout : Layout) where
  open layout use {sizeof_app_common, ota_status_of, firmware_size_of, with_ota_status}

  -- The update at the start of a turn.
  unfoldable pub start_ota : BootState → BootState
  start_ota s =
      let app_common' = with_ota_status start_fw_ota_disable s.app_common in
      if ota_status_of s.app_common == start_fw_ota_enable
      then record s {
        app_common = app_common';
        flash =
            save_flash_common_config_info rom sizeof_app_common app_common'
              (copy_ota_area_data_to_app_area rom (firmware_size_of s.app_common) s.flash);
      }
      else s

  -- The menu that a key opens. Any other key leaves the timeout as it is.
  unfoldable pub handle_key : Turn → ℕ → BootState → Option BootState
  unfolding procedure_erase_flash procedure_print_flash procedure_factory_fw
  handle_key turn ch s =
      let close =
        λ (flash' : Mem). some (record s { start_timeout_ms = turn.left_menu; flash = flash' }) in
      if ch == b'1'
      then procedure_erase_flash rom turn.menu_keys s.flash >>= close
      else if ch == b'2'
      then procedure_print_flash rom turn.menu_keys s.flash >>= close
      else if ch == b'3'
      then procedure_factory_fw rom turn.menu_keys s.flash >>= close
      else some s

  unfoldable pub boot_turn : Turn → BootState → Option BootState
  unfolding start_ota handle_key
  boot_turn turn s = elim turn.key [
    | none ↦ some (start_ota s)
    | some ch ↦ handle_key turn ch (start_ota s)
  ]

  -- The main loop: the state in which it jumps to the application, or `none` if it is still waiting
  -- when the turns have run out.
  unfoldable pub boot_loop : List Turn → BootState → Option BootState
  unfolding boot_turn
  boot_loop [] s = none
  boot_loop (turn ∷ turns) s =
      let rest = boot_turn turn s >>= λ s'. boot_loop turns s' in
      if ltb jump_app_timeout_ms (sub32 turn.now s.start_timeout_ms) then some s else rest

  -- `main` from the load of the configuration on. `ram` is the memory behind the structure.
  unfoldable pub boot_main : ℕ → Mem → List Turn → Mem → Option BootState
  unfolding boot_loop
  boot_main now ram turns flash = boot_loop turns (record {
    start_timeout_ms = now;
    app_common = λ k.
        if ltb k sizeof_app_common
        then flash (flash_common_config_start_addr - flash_start_addr + k)
        else ram k;
    flash = flash;
  })
