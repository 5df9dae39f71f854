-- ===== src/Jobs/Handler/Verified.antt =====
-- An update is only asked for when the image's checksum is right (app/aws_iot/iot_jobs_handler.c).
use rp2040_wiznet_eaa_s_aws.Prelude.{
  ℕ, ◌+◌, ◌<◌, ◌≤◌, ◌≡◌, inl, inr, refl, ap, ◌∙◌, Bool, true, false, List, ◌++◌, some, length,
  replicate, Mem, read, read_congr, arith, Bool-cases, IfReturns, IfReturns-intro, IfReturns-any,
  IfReturns-elim, IfReturns-bind,
}
use rp2040_wiznet_eaa_s_aws.Prelude.CStr.{c_str, strncmp_eq, strncpy, sprintf}
use rp2040_wiznet_eaa_s_aws.Crc16.{crc16_ccitt}
use rp2040_wiznet_eaa_s_aws.Config.{Layout, IsLayout, AppCommon}
use rp2040_wiznet_eaa_s_aws.Flash.Rom.{FlashRom, IsFlash}
use rp2040_wiznet_eaa_s_aws.Flash.Save.{load-save_flash_common_config_info, saved_byte}
use rp2040_wiznet_eaa_s_aws.Flash.{save_flash_common_config_info}
use rp2040_wiznet_eaa_s_aws.Http.{Network}
use rp2040_wiznet_eaa_s_aws.Device.{is_upper_version_fw}
use rp2040_wiznet_eaa_s_aws.Jobs.Texts.{job_type_ota, invalid_version}
use rp2040_wiznet_eaa_s_aws.Jobs.Ota.{Exchange, OtaResult}
use rp2040_wiznet_eaa_s_aws.Jobs.Ota.Download.{ota_download_firmware-crc}
use rp2040_wiznet_eaa_s_aws.Jobs.Parse.{Json, OtaParams, parsing_ota_job_params}
use rp2040_wiznet_eaa_s_aws.Jobs.Events.{JobsState, empty_execution}
use rp2040_wiznet_eaa_s_aws.Jobs.Handler.{
  arm_update, after_download, refuse_version, after_parse, run_ota, start_job_document,
}

-- What holds when an update is asked for: the job succeeded, the device is to start again, the download
-- area has the checksum, and the stored configuration asks for the update, with the image's size.
pub record IsArmed (layout : Layout) (app : AppCommon) (s : JobsState) (ok : Bool) : Type 0 where
  pub done : ok ≡ true
  pub reboots : app.enable_reboot ≡ true
  pub checksum :
      crc16_ccitt (read s.flash 0x140000 app.device_ota_info.firmware_size)
      ≡ app.device_ota_info.firmware_crc
  pub stored_status : layout.ota_status_of (λ k. s.flash (0x1c0000 + k)) ≡ 1
  pub stored_size :
      layout.firmware_size_of (λ k. s.flash (0x1c0000 + k)) ≡ app.device_ota_info.firmware_size

module _ (rom : FlashRom) (law : IsFlash rom) (layout : Layout) (lay : IsLayout layout) where
  arm_update-IsArmed :
      (app : AppCommon) (s : JobsState)
      → s.execution.job_ota.firmware_size ≤ 0x80000
      → crc16_ccitt (read s.flash 0x140000 s.execution.job_ota.firmware_size)
        ≡ s.execution.job_ota.firmware_crc
      → IsArmed layout (arm_update rom layout app s).1 (arm_update rom layout app s).2 true
  unfolding arm_update
  arm_update-IsArmed app s small checksum =
      let size : ℕ = s.execution.job_ota.firmware_size in
      let app' : AppCommon = record app {
        device_ota_info = record {
          start_firmware_ota_status = 1;
          firmware_size = size;
          firmware_crc = s.execution.job_ota.firmware_crc;
        };
      } in
      let bytes : Mem = layout.bytes_of app' in
      let saved : Mem = save_flash_common_config_info rom layout.sizeof_app_common bytes s.flash in
      let same : (k : ℕ) → k < layout.sizeof_app_common → saved (0x1c0000 + k) ≡ bytes k =
        saved_byte rom law layout.sizeof_app_common bytes s.flash lay.fits in
      let frame =
        (load-save_flash_common_config_info rom law layout.sizeof_app_common bytes s.flash
          lay.fits).1 in
      record {
        done = refl;
        reboots = refl;
        checksum =
            ap crc16_ccitt (
              read_congr saved s.flash 0x140000 0x140000 size
                (λ k h. frame (0x140000 + k) (inl (omega arith))))
            ∙ checksum;
        stored_status =
            lay.status_within (λ k. saved (0x1c0000 + k)) bytes same
            ∙ lay.status_of_bytes app' (omega arith);
        stored_size =
            lay.size_within (λ k. saved (0x1c0000 + k)) bytes same
            ∙ lay.size_of_bytes app' (omega arith);
      }

  -- An update that is asked for with an image that fits is armed.
  abbrev pub IsArmedIfOn : Bool × AppCommon × JobsState → Type 0
  IsArmedIfOn r =
      r.1.device_ota_info.start_firmware_ota_status ≡ 1
      → r.1.device_ota_info.firmware_size ≤ 0x80000
      → IsArmed layout r.1 r.2 r.0

  after_download-IsArmed :
      (app : AppCommon) (s : JobsState) (r : OtaResult)
      → app.device_ota_info.start_firmware_ota_status ≡ 0
      → (r.verified ≡ true
          → crc16_ccitt (read r.flash 0x140000 s.execution.job_ota.firmware_size)
            ≡ s.execution.job_ota.firmware_crc)
      → IsArmedIfOn (after_download rom layout app s r)
  unfolding after_download
  after_download-IsArmed app s r off checksum = elim (Bool-cases r.verified) [
    | inl p ↦ rw p (λ on small.
        arm_update-IsArmed app
          (record s { process_log = r.log_msg; http_config = r.http_config; flash = r.flash }) small
          (checksum p))
    | inr q ↦ rw q (λ on small. absurd (omega (arith, off, on)))
  ]

  refuse_version-IsArmed :
      (app : AppCommon) (s : JobsState)
      → app.device_ota_info.start_firmware_ota_status ≡ 0
      → IfReturns (refuse_version app s) IsArmedIfOn
  unfolding refuse_version
  refuse_version-IsArmed app s off =
      IfReturns-bind (sprintf 512 (invalid_version ++ c_str s.execution.job_ota.firmware_version))
        (λ text.
          some (false, app, record s { process_log = strncpy s.process_log text (length text) }))
        (λ t. Unit) IsArmedIfOn (IfReturns-intro _ (λ t. Unit) (λ t e. tt))
        (λ t h on small. absurd (omega (arith, off, on)))

  module _ (json : Json) (network : Network) (exchange : Exchange) where
    run_ota-IsArmed :
        (app : AppCommon) (s : JobsState)
        → app.device_ota_info.start_firmware_ota_status ≡ 0
        → IfReturns (run_ota rom layout json network exchange app s) IsArmedIfOn
    unfolding run_ota
    run_ota-IsArmed app s off =
        let ota : OtaParams = s.execution.job_ota in
        IfReturns-bind (is_upper_version_fw ota.firmware_version) _ (λ _. Unit) IsArmedIfOn
          (IfReturns-any (is_upper_version_fw ota.firmware_version))
          (λ upper u. elim (Bool-cases upper) [
            | inl p ↦ rw p (
                IfReturns-bind _ _
                  (λ r.
                    r.verified ≡ true
                    → crc16_ccitt (read r.flash 0x140000 ota.firmware_size) ≡ ota.firmware_crc)
                  IsArmedIfOn
                  (IfReturns-intro _ _ (λ r e.
                    ota_download_firmware-crc rom network exchange ota.firmware_url
                      ota.firmware_size ota.firmware_crc s.process_log s.http_config s.flash r e))
                  (λ r h. after_download-IsArmed app s r off h))
            | inr q ↦ rw q (refuse_version-IsArmed app s off)
          ])

    after_parse-IsArmed :
        (app : AppCommon) (s : JobsState) (parsed : Bool × OtaParams)
        → app.device_ota_info.start_firmware_ota_status ≡ 0
        → IfReturns (after_parse rom layout json network exchange app s parsed) IsArmedIfOn
    unfolding after_parse
    after_parse-IsArmed app s parsed off = elim (Bool-cases parsed.0) [
      | inl p ↦ rw p (
          run_ota-IsArmed app (record s { execution = record s.execution { job_ota = parsed.1 } })
            off)
      | inr q ↦ rw q (λ on small. absurd (omega (arith, off, on)))
    ]

    -- Whenever an OTA job returns with the update asked for, and the image fits the application area, the
    -- job has succeeded, the device is to start again, the bytes of the download area up to the image's
    -- size have the checksum that the job gave, and the configuration in the flash asks for the update.
    pub start_job_document-IsArmed :
        (app app' : AppCommon) (s s' : JobsState) (ok : Bool)
        → strncmp_eq s.execution.job_type job_type_ota 4 ≡ true
        → start_job_document rom layout json network exchange app s ≡ some (ok, app', s')
        → app'.device_ota_info.start_firmware_ota_status ≡ 1
        → app'.device_ota_info.firmware_size ≤ 0x80000
        → IsArmed layout app' s' ok
    unfolding start_job_document
    start_job_document-IsArmed app app' s s' ok is_ota e =
        let t : JobsState = record s { process_log = replicate 512 0 } in
        let off : AppCommon = record app {
          device_ota_info = record app.device_ota_info { start_firmware_ota_status = 0 };
        } in
        let document : List ℕ = c_str s.execution.job_document in
        let job : IfReturns (start_job_document rom layout json network exchange app s)
            IsArmedIfOn =
          rw is_ota (
            IfReturns-bind (parsing_ota_job_params json document empty_execution.job_ota 2176 64)
              (λ parsed. after_parse rom layout json network exchange off t parsed) (λ p. Unit)
              IsArmedIfOn (IfReturns-intro _ (λ p. Unit) (λ p k. tt))
              (λ p h. after_parse-IsArmed off t p refl)) in
        IfReturns-elim _ IsArmedIfOn (ok, app', s') e job
