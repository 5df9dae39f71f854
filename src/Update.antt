-- ===== src/Update.antt =====
-- The update as a whole: the job that asks for it (app/aws_iot/iot_jobs_handler.c), and the boot loader that
-- makes it after the device has started again (boot/main.c).
mod Tests
use rp2040_wiznet_eaa_s_aws.Prelude.{
  ℕ, ◌+◌, ◌≤◌, ◌<◌, ◌≡◌, refl, ap, ◌∙◌, sym, Bool, true, List, [], ◌∷◌, ◌++◌, Option, none, some,
  Mem, read, read_congr, arith, All,
}
use rp2040_wiznet_eaa_s_aws.Prelude.Word.{sub32}
use rp2040_wiznet_eaa_s_aws.Prelude.CStr.{strncmp_eq}
use rp2040_wiznet_eaa_s_aws.Crc16.{crc16_ccitt}
use rp2040_wiznet_eaa_s_aws.Config.{Layout, IsLayout, AppCommon}
use rp2040_wiznet_eaa_s_aws.Flash.Rom.{FlashRom, IsFlash}
use rp2040_wiznet_eaa_s_aws.Http.{Network}
use rp2040_wiznet_eaa_s_aws.Jobs.Texts.{job_type_ota}
use rp2040_wiznet_eaa_s_aws.Jobs.Ota.{Exchange}
use rp2040_wiznet_eaa_s_aws.Jobs.Parse.{Json}
use rp2040_wiznet_eaa_s_aws.Jobs.Events.{JobsState}
use rp2040_wiznet_eaa_s_aws.Jobs.Handler.{start_job_document}
use rp2040_wiznet_eaa_s_aws.Jobs.Handler.Verified.{IsArmed, start_job_document-IsArmed}
use rp2040_wiznet_eaa_s_aws.Boot.{BootState, Turn, boot_main}
use rp2040_wiznet_eaa_s_aws.Boot.Update.{
  IsIdle, IsUpdated, BootFlash, boot_main_update, stored_config,
}

BootFlash-map :
    (o : Option BootState) (P Q : Mem → Type 0)
    → ((f : Mem) → P f → Q f)
    → BootFlash o P
    → BootFlash o Q
unfolding BootFlash
BootFlash-map none P Q h k = k
BootFlash-map (some s) P Q h k = h s.flash k

module _ (rom : FlashRom) (law : IsFlash rom) (layout : Layout) (lay : IsLayout layout) where
  -- After an OTA job that returned with the update asked for, with an image that fits the application
  -- area, the boot loader, when no key is pressed until the first turn behind the 2000 ms, jumps to an
  -- application area whose first bytes, as many as the job gave as the size, have the checksum that the
  -- job gave, and the stored configuration no longer asks for an update.
  pub start_job_document-boot_main :
      (json : Json) (network : Network) (exchange : Exchange) (app app' : AppCommon)
      (s s' : JobsState) (ok : Bool) (now : ℕ) (ram : Mem) (first : Turn) (turns : List Turn)
      (late : Turn) (rest : List Turn)
      → strncmp_eq s.execution.job_type job_type_ota 4 ≡ true
      → start_job_document rom layout json network exchange app s ≡ some (ok, app', s')
      → app'.device_ota_info.start_firmware_ota_status ≡ 1
      → app'.device_ota_info.firmware_size ≤ 0x80000
      → All (IsIdle now) (first ∷ turns)
      → 2000 < sub32 late.now now
      → BootFlash (boot_main rom layout now ram (first ∷ (turns ++ late ∷ rest)) s'.flash) (λ f.
        (crc16_ccitt (read f 0x40000 app'.device_ota_info.firmware_size)
          ≡ app'.device_ota_info.firmware_crc)
        × (layout.ota_status_of (stored_config f) ≡ 0))
  start_job_document-boot_main json network exchange app app' s s' ok now ram first turns late rest
        is_ota e on small idle jump =
      let armed : IsArmed layout app' s' ok =
        start_job_document-IsArmed rom law layout lay json network exchange app app' s s' ok is_ota
          e on small in
      let size : ℕ = layout.firmware_size_of (stored_config s'.flash) in
      BootFlash-map (boot_main rom layout now ram (first ∷ (turns ++ late ∷ rest)) s'.flash)
        (IsUpdated layout size s'.flash) _
        (λ f u. (
          ap crc16_ccitt (
                read_congr f s'.flash 0x40000 0x140000 app'.device_ota_info.firmware_size
                  (λ k h. u.image k (omega (arith, armed.stored_size))))
              ∙ armed.checksum,
          u.switched_off,
        ))
        (boot_main_update rom law layout lay now ram s'.flash first turns late rest
          armed.stored_status (omega (arith, armed.stored_size)) idle jump)
