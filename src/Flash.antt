-- ===== src/Flash.antt =====
-- The flash of the device (port/flash_interface/flash_control.c). The flash is a function from an
-- offset to a byte; erasing and programming it is the SDK's, a parameter with its promises.
pub mod Layout
pub mod Rom
pub mod Erase
pub mod Save
pub mod Copy
pub mod Areas
mod Tests
use rp2040_wiznet_eaa_s_aws.Prelude.{
  ℕ, zero, suc, ◌+◌, ◌-◌, ◌*◌, ◌/◌, ◌%◌, ◌^◌, Bool, true, false, ltb, ◌==◌, if◌then◌else◌, Mem,
  read, List, [], ◌∷◌,
}
use rp2040_wiznet_eaa_s_aws.Prelude.Word.{u16, u32, add32, sub32}
use Layout.{
  page_size, sector_size, config_area_size, application_size, flash_start_addr,
  flash_app_start_addr, flash_factory_fw_start_addr, flash_temp_fw_start_addr,
  flash_common_config_start_addr, flash_provioned_cert_info_start_addr,
  flash_provioned_ownership_start_addr, flash_provioned_cert_id_start_addr, sizeof_cert_info,
}
use Rom.{FlashRom}

-- The number of sectors or pages that hold `data_size` bytes, in a `uint16_t`.
unfoldable pub unit_count : ℕ → ℕ → ℕ
unit_count data_size unit =
    let count = u16 (data_size / unit) in
    if ltb 0 (data_size % unit) then u16 (count + 1) else count

module _ (rom : FlashRom) where
  open rom use {flash_range_erase, flash_range_program}

  unfoldable pub erase_flash : ℕ → ℕ → Mem → Mem
  unfolding unit_count
  erase_flash offset data_size =
      flash_range_erase offset (unit_count data_size sector_size * sector_size)

  -- `data` are the bytes from the pointer on: whole pages are read, also behind `data_size`.
  unfoldable pub write_flash : ℕ → Mem → ℕ → Mem → Mem
  unfolding unit_count
  write_flash offset bytes data_size =
      flash_range_program offset bytes (unit_count data_size page_size * page_size)

  unfoldable pub erase_flash_provisioned_cert_info : Mem → Mem
  unfolding erase_flash
  erase_flash_provisioned_cert_info =
      erase_flash (flash_provioned_cert_info_start_addr - flash_start_addr) sizeof_cert_info

  unfoldable pub erase_flash_total_config_area : Mem → Mem
  unfolding erase_flash
  erase_flash_total_config_area =
      erase_flash (flash_common_config_start_addr - flash_start_addr) config_area_size

  unfoldable pub erase_flash_total_app_area : Mem → Mem
  unfolding erase_flash
  erase_flash_total_app_area =
      erase_flash (flash_app_start_addr - flash_start_addr) application_size

  unfoldable pub erase_flash_total_factory_area : Mem → Mem
  unfolding erase_flash
  erase_flash_total_factory_area =
      erase_flash (flash_factory_fw_start_addr - flash_start_addr) application_size

  unfoldable pub erase_flash_total_ota_area : Mem → Mem
  unfolding erase_flash
  erase_flash_total_ota_area =
      erase_flash (flash_temp_fw_start_addr - flash_start_addr) application_size

  unfoldable pub save_flash_provisioned_cert_info : Mem → Mem → Mem
  unfolding erase_flash_provisioned_cert_info write_flash
  save_flash_provisioned_cert_info cert_info flash =
      write_flash (flash_provioned_cert_info_start_addr - flash_start_addr) cert_info
        sizeof_cert_info (erase_flash_provisioned_cert_info flash)

  unfoldable pub write_flash_ota_binary : ℕ → Mem → ℕ → Mem → Mem
  unfolding write_flash
  write_flash_ota_binary flash_offset binary data_size =
      write_flash (add32 (flash_temp_fw_start_addr - flash_start_addr) flash_offset) binary
        data_size

  -- `sizeof(APP_COMMON_t)` depends on a structure of the network library.
  module _ (sizeof_app_common : ℕ) where
    unfoldable pub erase_flash_common_config_info : Mem → Mem
    unfolding erase_flash
    erase_flash_common_config_info =
        erase_flash (flash_common_config_start_addr - flash_start_addr) sizeof_app_common

    unfoldable pub save_flash_common_config_info : Mem → Mem → Mem
    unfolding erase_flash_common_config_info write_flash
    save_flash_common_config_info app_common flash =
        write_flash (flash_common_config_start_addr - flash_start_addr) app_common sizeof_app_common
          (erase_flash_common_config_info flash)

  -- The loop of the three copies: round `i` with `left` to go reads a page at `from + i * 256` into
  -- the buffer and programs it at `to`.
  unfoldable pub copy_pages : ℕ → ℕ → ℕ → ℕ → Mem → Mem
  copy_pages from zero i to flash = flash
  copy_pages from (suc left) i to flash =
      copy_pages from left (i + 1) (add32 to page_size)
        (flash_range_program to (λ k. flash (from + u32 (i * page_size) + k)) page_size flash)

  unfoldable pub copy_ota_area_data_to_app_area : ℕ → Mem → Mem
  unfolding erase_flash_total_app_area copy_pages unit_count
  copy_ota_area_data_to_app_area data_size flash =
      copy_pages (flash_temp_fw_start_addr - flash_start_addr) (unit_count data_size page_size) 0
        (flash_app_start_addr - flash_start_addr) (erase_flash_total_app_area flash)

  unfoldable pub copy_factory_area_data_to_app_area : ℕ → Mem → Mem
  unfolding erase_flash_total_app_area copy_pages unit_count
  copy_factory_area_data_to_app_area data_size flash =
      copy_pages (flash_factory_fw_start_addr - flash_start_addr) (unit_count data_size page_size) 0
        (flash_app_start_addr - flash_start_addr) (erase_flash_total_app_area flash)

  unfoldable pub copy_app_area_data_to_factory_area : ℕ → Mem → Mem
  unfolding erase_flash_total_factory_area copy_pages unit_count
  copy_app_area_data_to_factory_area data_size flash =
      copy_pages (flash_app_start_addr - flash_start_addr) (unit_count data_size page_size) 0
        (flash_factory_fw_start_addr - flash_start_addr) (erase_flash_total_factory_area flash)

-- Reading is a plain memory access through the flash's addresses.
unfoldable pub load_flash_provisioned_cert_info : Mem → List ℕ
load_flash_provisioned_cert_info flash =
    read flash (flash_provioned_cert_info_start_addr - flash_start_addr) sizeof_cert_info

unfoldable pub load_flash_certificate_ownership_token : ℕ → Mem → List ℕ
load_flash_certificate_ownership_token size flash =
    read flash (flash_provioned_ownership_start_addr - flash_start_addr) size

unfoldable pub load_flash_certificate_cert_id : ℕ → Mem → List ℕ
load_flash_certificate_cert_id size flash =
    read flash (flash_provioned_cert_id_start_addr - flash_start_addr) size

unfoldable pub load_flash_common_config_info : ℕ → Mem → List ℕ
load_flash_common_config_info sizeof_app_common flash =
    read flash (flash_common_config_start_addr - flash_start_addr) sizeof_app_common

-- `MEMCMP` with a structure that is filled with 0xFF.
unfoldable pub all_erased : List ℕ → Bool
all_erased [] = true
all_erased (b ∷ bs) = let rest = all_erased bs in if b == 0xff then rest else false

unfoldable pub check_flash_common_config_info_empty : ℕ → Mem → Bool
unfolding all_erased
check_flash_common_config_info_empty sizeof_app_common flash =
    all_erased (read flash (flash_common_config_start_addr - flash_start_addr) sizeof_app_common)
