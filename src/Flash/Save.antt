-- ===== src/Flash/Save.antt =====
-- Saving the configuration and the certificates, and loading them again
-- (port/flash_interface/flash_control.c).
use rp2040_wiznet_eaa_s_aws.Prelude.{
  ℕ, ◌+◌, ◌*◌, ◌%◌, ◌≤◌, ◌<◌, ◌≡◌, ◌⊎◌, Mem, arith, ◌∙◌, read, read_congr,
}
use rp2040_wiznet_eaa_s_aws.Flash.Rom.{FlashRom, IsFlash}
use rp2040_wiznet_eaa_s_aws.Flash.Layout.{sizeof_cert_info}
use rp2040_wiznet_eaa_s_aws.Flash.Erase.{
  erase_flash-IsErased, write_flash-inside, write_flash-outside, unit_count-sectors,
}
use rp2040_wiznet_eaa_s_aws.Flash.{
  erase_flash, write_flash, erase_flash_common_config_info, save_flash_common_config_info,
  load_flash_common_config_info, save_flash_provisioned_cert_info, load_flash_provisioned_cert_info,
  load_flash_certificate_ownership_token, load_flash_certificate_cert_id,
}

module _ (rom : FlashRom) (law : IsFlash rom) where
  -- Erasing and then writing at a sector's start stores the data.
  stored :
      (offset n : ℕ) (bytes flash : Mem) (k : ℕ)
      → offset % 4096 ≡ 0
      → n ≤ 65535 * 256
      → k < n
      → write_flash rom offset bytes n (erase_flash rom offset n flash) (offset + k) ≡ bytes k
  stored offset n bytes flash k aligned fits h =
      write_flash-inside rom law offset n bytes (erase_flash rom offset n flash) k (omega arith)
        fits h
        ((erase_flash-IsErased rom law offset n flash aligned (omega arith)).inside (offset + k)
          (omega arith) (omega (arith, unit_count-sectors n (omega arith))))

  -- ... and changes nothing outside the whole sectors that are set aside for them.
  kept :
      (offset n room : ℕ) (bytes flash : Mem) (a : ℕ)
      → offset % 4096 ≡ 0
      → n ≤ 65535 * 256
      → n ≤ room
      → room % 4096 ≡ 0
      → (a < offset) ⊎ (offset + room ≤ a)
      → write_flash rom offset bytes n (erase_flash rom offset n flash) a ≡ flash a
  kept offset n room bytes flash a aligned fits fit whole h =
      write_flash-outside rom law offset n room bytes (erase_flash rom offset n flash) a
        (omega arith) fits fit (omega arith) h
      ∙ (erase_flash-IsErased rom law offset n flash aligned (omega arith)).outside a
          (omega (arith, unit_count-sectors n (omega arith)))

  -- The saved configuration, byte by byte.
  pub saved_byte :
      (size : ℕ) (app_common flash : Mem)
      → size ≤ 0x2000
      → (k : ℕ) → k < size
      → save_flash_common_config_info rom size app_common flash (0x1c0000 + k) ≡ app_common k
  unfolding save_flash_common_config_info erase_flash_common_config_info
  saved_byte size app_common flash fits k h =
      stored 0x1c0000 size app_common flash k (omega arith) (omega arith) h

  -- A range that was stored is read back.
  read-stored :
      (offset n i m : ℕ) (bytes flash : Mem)
      → offset % 4096 ≡ 0
      → n ≤ 65535 * 256
      → i + m ≤ n
      → read (write_flash rom offset bytes n (erase_flash rom offset n flash)) (offset + i) m
        ≡ read bytes i m
  read-stored offset n i m bytes flash aligned fits within =
      read_congr (write_flash rom offset bytes n (erase_flash rom offset n flash)) bytes
        (offset + i) i m
        (λ k h.
          let e : offset + i + k ≡ offset + (i + k) = omega arith in
          rw e (stored offset n bytes flash (i + k) aligned fits (omega arith)))

  -- A configuration of at most 0x2000 bytes that is saved is what is loaded afterwards, and saving
  -- it changes no byte outside the 0x2000 bytes before the claim certificates.
  pub load-save_flash_common_config_info :
      (size : ℕ) (app_common flash : Mem)
      → size ≤ 0x2000
      → (load_flash_common_config_info size
            (save_flash_common_config_info rom size app_common flash)
          ≡ read app_common 0 size)
        × ((a : ℕ)
            → (a < 0x1c0000) ⊎ (0x1c2000 ≤ a)
            → save_flash_common_config_info rom size app_common flash a ≡ flash a)
  unfolding load_flash_common_config_info save_flash_common_config_info
      erase_flash_common_config_info
  load-save_flash_common_config_info size app_common flash fits = (
    read-stored 0x1c0000 size 0 size app_common flash (omega arith) (omega arith) (omega arith),
    λ a h.
        kept 0x1c0000 size 0x2000 app_common flash a (omega arith) (omega arith) fits (omega arith)
          h,
  )

  -- Certificates that are saved are what is loaded afterwards; the two loads of single fields read
  -- the ownership token and the certificate's id out of the same structure; and only the two sectors
  -- behind the claim certificates change.
  pub load-save_flash_provisioned_cert_info :
      (cert_info flash : Mem)
      → let saved = save_flash_provisioned_cert_info rom cert_info flash in
        (load_flash_provisioned_cert_info saved ≡ read cert_info 0 sizeof_cert_info)
        × (load_flash_certificate_ownership_token 512 saved ≡ read cert_info 4096 512)
        × (load_flash_certificate_cert_id 256 saved ≡ read cert_info 4608 256)
        × ((a : ℕ) → (a < 0x1c3000) ⊎ (0x1c5000 ≤ a) → saved a ≡ flash a)
  unfolding load_flash_provisioned_cert_info save_flash_provisioned_cert_info
      load_flash_certificate_ownership_token load_flash_certificate_cert_id
  load-save_flash_provisioned_cert_info cert_info flash = (
    read-stored 0x1c3000 4864 0 4864 cert_info flash (omega arith) (omega arith) (omega arith),
    read-stored 0x1c3000 4864 4096 512 cert_info flash (omega arith) (omega arith) (omega arith),
    read-stored 0x1c3000 4864 4608 256 cert_info flash (omega arith) (omega arith) (omega arith),
    λ a h.
        kept 0x1c3000 4864 0x2000 cert_info flash a (omega arith) (omega arith) (omega arith)
          (omega arith) h,
  )
