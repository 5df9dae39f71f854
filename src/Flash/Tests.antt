-- ===== src/Flash/Tests.antt =====
-- The flash on a concrete chip.
use rp2040_wiznet_eaa_s_aws.Prelude.{ℕ, ◌+◌, ◌≤◌, ◌<◌, ◌≡◌, ◌⊎◌, refl, Mem, arith, read}
use rp2040_wiznet_eaa_s_aws.Flash.Layout.{sizeof_cert_info}
use rp2040_wiznet_eaa_s_aws.Flash.Rom.{simple_rom, simple_rom-IsFlash}
use rp2040_wiznet_eaa_s_aws.Flash.Erase.{IsErased}
use rp2040_wiznet_eaa_s_aws.Flash.Areas.{erase_areas}
use rp2040_wiznet_eaa_s_aws.Flash.Save.{
  load-save_flash_common_config_info, load-save_flash_provisioned_cert_info,
}
use rp2040_wiznet_eaa_s_aws.Flash.Copy.{
  IsInstalled, copy_ota-IsInstalled, factory_restore, copy_ota_overrun,
}
use rp2040_wiznet_eaa_s_aws.Flash.{
  load_flash_common_config_info, save_flash_common_config_info, load_flash_provisioned_cert_info,
  save_flash_provisioned_cert_info, load_flash_certificate_ownership_token,
  load_flash_certificate_cert_id, copy_ota_area_data_to_app_area,
  copy_app_area_data_to_factory_area, copy_factory_area_data_to_app_area,
  erase_flash_total_app_area, erase_flash_total_factory_area, erase_flash_total_ota_area,
  erase_flash_total_config_area,
}

abbrev erased_flash : Mem
erased_flash = λ a. 0xff

abbrev counting : Mem
counting = λ k. k

load-save_flash_common_config_info_example :
    (load_flash_common_config_info 300
        (save_flash_common_config_info simple_rom 300 counting erased_flash)
      ≡ read counting 0 300)
    × ((a : ℕ)
        → (a < 0x1c0000) ⊎ (0x1c2000 ≤ a)
        → save_flash_common_config_info simple_rom 300 counting erased_flash a ≡ erased_flash a)
load-save_flash_common_config_info_example =
    load-save_flash_common_config_info simple_rom simple_rom-IsFlash 300 counting erased_flash
      (omega arith)

load-save_flash_provisioned_cert_info_example :
    let saved = save_flash_provisioned_cert_info simple_rom counting erased_flash in
    (load_flash_provisioned_cert_info saved ≡ read counting 0 sizeof_cert_info)
    × (load_flash_certificate_ownership_token 512 saved ≡ read counting 4096 512)
    × (load_flash_certificate_cert_id 256 saved ≡ read counting 4608 256)
    × ((a : ℕ) → (a < 0x1c3000) ⊎ (0x1c5000 ≤ a) → saved a ≡ erased_flash a)
load-save_flash_provisioned_cert_info_example =
    load-save_flash_provisioned_cert_info simple_rom simple_rom-IsFlash counting erased_flash

copy_ota-IsInstalled_example :
    IsInstalled 0x140000 0x40000 1000 counting
      (copy_ota_area_data_to_app_area simple_rom 1000 counting)
copy_ota-IsInstalled_example =
    copy_ota-IsInstalled simple_rom simple_rom-IsFlash 1000 counting (omega arith)

factory_restore_example :
    copy_factory_area_data_to_app_area simple_rom 0x80000
      (copy_app_area_data_to_factory_area simple_rom 0x80000 counting)
      0x40007
    ≡ counting 0x40007
factory_restore_example =
    factory_restore simple_rom simple_rom-IsFlash counting
      (copy_app_area_data_to_factory_area simple_rom 0x80000 counting) (λ a h k. refl) 0x40007
      (omega arith) (omega arith)

copy_ota_overrun_example :
    copy_ota_area_data_to_app_area simple_rom 0x80100 erased_flash (0xc0000 + 5)
    ≡ erased_flash (0x1c0000 + 5)
copy_ota_overrun_example =
    copy_ota_overrun simple_rom simple_rom-IsFlash 0x80100 erased_flash (omega arith) (omega arith)
      (λ a h k. refl) 5 (omega arith)

erase_areas_example :
    IsErased 0x40000 0xc0000 counting (erase_flash_total_app_area simple_rom counting)
    × IsErased 0xc0000 0x140000 counting (erase_flash_total_factory_area simple_rom counting)
    × IsErased 0x140000 0x1c0000 counting (erase_flash_total_ota_area simple_rom counting)
    × IsErased 0x1c0000 0x200000 counting (erase_flash_total_config_area simple_rom counting)
erase_areas_example = erase_areas simple_rom simple_rom-IsFlash counting
