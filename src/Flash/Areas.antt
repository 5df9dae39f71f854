-- ===== src/Flash/Areas.antt =====
-- The areas of the flash (port/flash_interface/flash_control.c and flash_control.h).
use rp2040_wiznet_eaa_s_aws.Prelude.{Mem, arith}
use rp2040_wiznet_eaa_s_aws.Flash.Rom.{FlashRom, IsFlash}
use rp2040_wiznet_eaa_s_aws.Flash.Erase.{IsErased, erase_flash_exact}
use rp2040_wiznet_eaa_s_aws.Flash.{
  erase_flash_total_app_area, erase_flash_total_factory_area, erase_flash_total_ota_area,
  erase_flash_total_config_area,
}

module _ (rom : FlashRom) (law : IsFlash rom) where
  -- Each of the four functions that erase a whole area erases every byte of that area and no byte
  -- outside it: the application at 0x40000, the factory image at 0xC0000, the downloaded image at
  -- 0x140000, and the configuration from 0x1C0000 to the end of the flash.
  pub erase_areas :
      (flash : Mem)
      → IsErased 0x40000 0xc0000 flash (erase_flash_total_app_area rom flash)
        × IsErased 0xc0000 0x140000 flash (erase_flash_total_factory_area rom flash)
        × IsErased 0x140000 0x1c0000 flash (erase_flash_total_ota_area rom flash)
        × IsErased 0x1c0000 0x200000 flash (erase_flash_total_config_area rom flash)
  unfolding erase_flash_total_app_area erase_flash_total_factory_area erase_flash_total_ota_area
      erase_flash_total_config_area
  erase_areas flash = (
    erase_flash_exact rom law 0x40000 0x80000 0xc0000 flash (omega arith) (omega arith)
        (omega arith) (omega arith),
    erase_flash_exact rom law 0xc0000 0x80000 0x140000 flash (omega arith) (omega arith)
        (omega arith) (omega arith),
    erase_flash_exact rom law 0x140000 0x80000 0x1c0000 flash (omega arith) (omega arith)
        (omega arith) (omega arith),
    erase_flash_exact rom law 0x1c0000 0x40000 0x200000 flash (omega arith) (omega arith)
        (omega arith) (omega arith),
  )
