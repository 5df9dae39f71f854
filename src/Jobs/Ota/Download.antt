-- ===== src/Jobs/Ota/Download.antt =====
-- The download and its check as a whole (app/aws_iot/iot_jobs_job_ota_handler.c).
use rp2040_wiznet_eaa_s_aws.Prelude.{
  ℕ, ◌+◌, ◌<◌, ◌≤◌, ◌≡◌, ap, ◌∙◌, sym, true, List, [], ◌∷◌, ◌++◌, map, Option, none, some, length,
  Mem, read, arith, ◌>>=◌, All,
}
use rp2040_wiznet_eaa_s_aws.Prelude.Int.{ℤ}
use rp2040_wiznet_eaa_s_aws.Crc16.{crc16_ccitt}
use rp2040_wiznet_eaa_s_aws.Flash.Rom.{FlashRom}
use rp2040_wiznet_eaa_s_aws.Http.{Network, HttpConfig, http_get}
use rp2040_wiznet_eaa_s_aws.Jobs.Ota.Chunks.{concat}
use rp2040_wiznet_eaa_s_aws.Jobs.Ota.{
  http_insufficient_memory, bytes, Exchange, OtaResult, request_status,
  ota_http_send_request_callback, verify_firmware, ota_download_firmware,
}

-- The exchange brings the bytes of `stream`: the response does not fit the client's buffer, its body and
-- the first `recv` fill a buffer, further calls fill one each, and the last round comes in two pieces.
pub record IsDelivered (exchange : Exchange) (stream : List ℕ) : Type 0 where
  pub first : List ℕ
  pub fulls : List (List ℕ)
  pub a : List ℕ
  pub b : List ℕ
  pub too_long : request_status exchange ≡ http_insufficient_memory
  pub input : exchange.received ≡ bytes first ∷ (map bytes fulls ++ bytes a ∷ bytes b ∷ [])
  pub all : stream ≡ (exchange.body ++ first) ++ (concat fulls ++ (a ++ b))
  pub whole : length exchange.body + length first ≡ 2048
  pub full : All (λ c. length c ≡ 2048) fulls
  pub short : length a < 2048
  pub fit : length a + length b ≤ 2048
  pub some_bytes : 0 < length a + length b
  pub size : exchange.content_length ≡ length stream

-- The checksum decides, and nothing else changes.
module _ (fw_size fw_crc : ℕ) (log_msg : List ℕ) (config : HttpConfig) (flash : Mem) where
  verify_firmware-crc :
      (ret : ℤ)
      → (verify_firmware fw_size fw_crc log_msg ret config flash).verified ≡ true
      → crc16_ccitt (read flash 0x140000 fw_size) ≡ fw_crc
  unfolding verify_firmware
  verify_firmware-crc ret ok = ground arith

  verify_firmware-flash :
      (ret : ℤ) → (verify_firmware fw_size fw_crc log_msg ret config flash).flash ≡ flash
  unfolding verify_firmware
  verify_firmware-flash ret = ground arith

module _ (rom : FlashRom) (network : Network) (exchange : Exchange) where
  -- Whenever the download is reported as good, the bytes of the download area up to the given size have
  -- the given checksum.
  pub ota_download_firmware-crc :
      (url : List ℕ) (fw_size fw_crc : ℕ) (log_msg : List ℕ) (config : HttpConfig) (flash : Mem)
      (r : OtaResult)
      → ota_download_firmware rom network exchange url fw_size fw_crc log_msg config flash ≡ some r
      → r.verified ≡ true
      → crc16_ccitt (read r.flash 0x140000 fw_size) ≡ fw_crc
  unfolding ota_download_firmware
  ota_download_firmware-crc url fw_size fw_crc log_msg config flash r e ok =
      checked
        (http_get (λ c f. ota_http_send_request_callback rom exchange f) network url true true
          config flash)
        e
    where
      checked :
          (got : Option (ℤ × HttpConfig × Mem))
          → (got >>= λ done. some (verify_firmware fw_size fw_crc log_msg done.0 done.1 done.2))
            ≡ some r
          → crc16_ccitt (read r.flash 0x140000 fw_size) ≡ fw_crc
      checked none k = ground arith
      checked (some (ret, config', flash')) k =
          let same : verify_firmware fw_size fw_crc log_msg ret config' flash' ≡ r = ground arith in
          let kept : r.flash ≡ flash' =
            ap (λ q. q.flash) (sym same)
            ∙ verify_firmware-flash fw_size fw_crc log_msg config' flash' ret in
          rw kept (
            verify_firmware-crc fw_size fw_crc log_msg config' flash' ret
              (ap (λ q. q.verified) same ∙ ok))
