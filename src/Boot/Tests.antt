-- ===== src/Boot/Tests.antt =====
-- The boot loader on a concrete flash.
use rp2040_wiznet_eaa_s_aws.Prelude.{
  ℕ, ◌≡◌, refl, [], ◌∷◌, ◌++◌, none, some, Mem, arith, if◌then◌else◌, ◌==◌,
}
use rp2040_wiznet_eaa_s_aws.Config.{simple_layout, simple_layout-IsLayout}
use rp2040_wiznet_eaa_s_aws.Flash.Rom.{simple_rom, simple_rom-IsFlash}
use rp2040_wiznet_eaa_s_aws.Flash.{erase_flash_total_config_area}
use rp2040_wiznet_eaa_s_aws.Boot.{
  Turn, BootState, start_ota, boot_loop, boot_main, procedure_erase_flash,
}
use rp2040_wiznet_eaa_s_aws.Boot.Menu.{procedure_erase_flash_keeps}
use rp2040_wiznet_eaa_s_aws.Boot.Update.{
  IsUpdated, BootFlash, boot_loop_idle, boot_main_update, boot_main_without_update,
}

-- A flash whose configuration asks for an update with an image of 5 bytes.
abbrev armed_flash : Mem
armed_flash = λ a. if a == 0x1c0000 then 1 else (if a == 0x1c0001 then 5 else 0)

abbrev unarmed_flash : Mem
unarmed_flash = λ a. 0

abbrev ram : Mem
ram = λ k. 0

abbrev idle_turn : ℕ → Turn
idle_turn now = record { now = now; key = none; menu_keys = []; left_menu = 0 }

boot_main_update_example :
    BootFlash
      (boot_main simple_rom simple_layout 100 ram
        (idle_turn 200 ∷ ([] ++ idle_turn 2200 ∷ []))
        armed_flash)
      (IsUpdated simple_layout 5 armed_flash)
boot_main_update_example =
    boot_main_update simple_rom simple_rom-IsFlash simple_layout simple_layout-IsLayout 100 ram
      armed_flash (idle_turn 200) [] (idle_turn 2200) [] refl (omega arith)
      ((refl, omega arith), tt) (omega arith)

boot_main_without_update_example :
    BootFlash
      (boot_main simple_rom simple_layout 100 ram
        (idle_turn 200 ∷ ([] ++ idle_turn 2200 ∷ []))
        unarmed_flash)
      (λ flash'. flash' ≡ unarmed_flash)
boot_main_without_update_example =
    boot_main_without_update simple_rom simple_rom-IsFlash simple_layout simple_layout-IsLayout 100
      ram unarmed_flash (idle_turn 200) [] (idle_turn 2200) [] (λ e. omega (arith, e))
      ((refl, omega arith), tt) (omega arith)

abbrev start_state : BootState
start_state = record { start_timeout_ms = 100; app_common = ram; flash = unarmed_flash }

boot_loop_idle_example :
    boot_loop simple_rom simple_layout (idle_turn 200 ∷ ([] ++ idle_turn 2200 ∷ [])) start_state
    ≡ some (start_ota simple_rom simple_layout start_state)
boot_loop_idle_example =
    boot_loop_idle simple_rom simple_rom-IsFlash simple_layout simple_layout-IsLayout
      (idle_turn 200) [] (idle_turn 2200) [] start_state ((refl, omega arith), tt) (omega arith)

abbrev counting : Mem
counting = λ a. a

-- The key for the application area, then the one that quits.
procedure_erase_flash_keeps_example :
    erase_flash_total_config_area simple_rom counting 0x40000 ≡ counting 0x40000
unfolding procedure_erase_flash
procedure_erase_flash_keeps_example =
    procedure_erase_flash_keeps simple_rom simple_rom-IsFlash (some b'2' ∷ some b'q' ∷ []) counting
      (erase_flash_total_config_area simple_rom counting) quits 0x40000 (omega arith)
  where
    quits :
        procedure_erase_flash simple_rom (some b'2' ∷ some b'q' ∷ []) counting
        ≡ some (erase_flash_total_config_area simple_rom counting)
    quits = refl
