-- ===== src/Update/Tests.antt =====
-- An update from the job to the application, on a concrete chip.
use rp2040_wiznet_eaa_s_aws.Prelude.{
  ℕ, ◌≡◌, refl, Bool, true, false, if◌then◌else◌, ◌==◌, List, [], ◌∷◌, ◌++◌, Option, none, some,
  replicate, get_or, read, arith,
}
use rp2040_wiznet_eaa_s_aws.Prelude.Int.{pos}
use rp2040_wiznet_eaa_s_aws.Crc16.{crc16_ccitt}
use rp2040_wiznet_eaa_s_aws.Crc16.Table.{crc16_ccitt_tab}
use rp2040_wiznet_eaa_s_aws.Config.{
  simple_layout, simple_layout-IsLayout, AppCommon, jobs_connected,
}
use rp2040_wiznet_eaa_s_aws.Flash.Rom.{simple_rom, simple_rom-IsFlash}
use rp2040_wiznet_eaa_s_aws.Http.{Network, empty_http_config}
use rp2040_wiznet_eaa_s_aws.Jobs.JobList.{no_jobs}
use rp2040_wiznet_eaa_s_aws.Jobs.Texts.{job_type_ota}
use rp2040_wiznet_eaa_s_aws.Jobs.Parse.{Json}
use rp2040_wiznet_eaa_s_aws.Jobs.Ota.{
  http_success, http_insufficient_memory, bytes, Exchange, OtaResult, ota_download_firmware,
}
use rp2040_wiznet_eaa_s_aws.Jobs.Ota.Download.{ota_download_firmware-crc}
use rp2040_wiznet_eaa_s_aws.Prelude.CStr.{strncmp_eq}
use rp2040_wiznet_eaa_s_aws.Jobs.Events.{JobsState, empty_execution}
use rp2040_wiznet_eaa_s_aws.Jobs.Handler.{start_job_document}
use rp2040_wiznet_eaa_s_aws.Jobs.Handler.Verified.{IsArmed, start_job_document-IsArmed}
use rp2040_wiznet_eaa_s_aws.Boot.{Turn, boot_main}
use rp2040_wiznet_eaa_s_aws.Boot.Update.{BootFlash, stored_config}
use rp2040_wiznet_eaa_s_aws.Update.{start_job_document-boot_main}

-- The values of a job's document: the URL, the version, the size and the checksum.
abbrev document : List ℕ
document =
    b'h' ∷ b't' ∷ b't' ∷ b'p' ∷ b':' ∷ b'/' ∷ b'/' ∷ b'1' ∷ b'0' ∷ b'.' ∷ b'0' ∷ b'.' ∷ b'0' ∷ b'.'
    ∷ b'1' ∷ b'/' ∷ b'f' ∷ b'1' ∷ b'.' ∷ b'0' ∷ b'.' ∷ b'0' ∷ b'4' ∷ b',' ∷ b'0' ∷ b'd' ∷ b'0'
    ∷ b'3' ∷ b',' ∷ []

-- A library that knows where they stand.
abbrev document_json : Json
document_json = record {
  json_validate = λ payload. true;
  json_search = λ payload query.
      if get_or query 2 0 == b'U'
      then some (0, 17)
      else if get_or query 2 0 == b'V'
      then some (17, 5)
      else if get_or query 2 0 == b'S'
      then some (22, 1)
      else some (24, 4);
}

abbrev up : Network
up = record {
  dns_answer = none;
  socket_opens = true;
  connects = true;
  tls_connects = false;
  http_network_error = pos 2;
}

abbrev exchange : Exchange
exchange = record {
  initialized = http_success;
  added_content_type = http_success;
  added_connection = http_success;
  sent = http_insufficient_memory;
  body = 1 ∷ 2 ∷ 3 ∷ 4 ∷ [];
  content_length = 4;
  received = bytes [] ∷ [];
}

abbrev state : JobsState
state = record {
  job_id_list = no_jobs;
  execution = record empty_execution { job_type = job_type_ota ++ 0 ∷ []; job_document = document };
  process_log = [];
  thing_name_for_event_callback = none;
  has_job_id_for_event_callback = false;
  recved_get_job = false;
  recved_start_next_job = false;
  recved_job_update = false;
  http_config = empty_http_config;
  flash = λ a. 0xff;
  published = [];
}

abbrev app : AppCommon
app = record {
  device_info = record {
    eth_net_info = [];
    thing_name = [];
    location = [];
    manufacturer = [];
    aws_end_point = [];
    aws_template_name = [];
    cert_ownership_token = [];
  };
  device_ota_info = record { start_firmware_ota_status = 0; firmware_size = 0; firmware_crc = 0 };
  aws_iot_jobs_status = jobs_connected;
  is_wiz_chip_link_up = true;
  is_dhcp_done = true;
  is_valid_claim_cert_info = true;
  is_valid_provisioned_cert_info = true;
  enable_refresh_provisioned_cert = false;
  is_run_aws_iot_jobs = true;
  enable_reboot = false;
}

-- What a computation returned.
abbrev result_of : Option (Bool × AppCommon × JobsState) → Bool × AppCommon × JobsState
result_of none = (false, app, state)
result_of (some r) = r

abbrev done : Bool × AppCommon × JobsState
done = result_of (start_job_document simple_rom simple_layout document_json up exchange app state)

runs :
    start_job_document simple_rom simple_layout document_json up exchange app state
    ≡ some (done.0, done.1, done.2)
unfolding start_job_document
runs = refl

done-on :
    (done.1.device_ota_info.start_firmware_ota_status ≡ 1)
    × (done.1.device_ota_info.firmware_size ≡ 4)
unfolding start_job_document crc16_ccitt crc16_ccitt_tab read
done-on = (refl, refl)

start_job_document-IsArmed_example : IsArmed simple_layout done.1 done.2 done.0
unfolding strncmp_eq
start_job_document-IsArmed_example =
    start_job_document-IsArmed simple_rom simple_rom-IsFlash simple_layout simple_layout-IsLayout
      document_json up exchange app done.1 state done.2 done.0 refl runs done-on.0
      (omega (arith, done-on.1))

abbrev idle_turn : ℕ → Turn
idle_turn now = record { now = now; key = none; menu_keys = []; left_menu = 0 }

start_job_document-boot_main_example :
    BootFlash
      (boot_main simple_rom simple_layout 100
        (λ k. 0)
        (idle_turn 200 ∷ ([] ++ idle_turn 2200 ∷ []))
        done.2.flash)
      (λ f.
        (crc16_ccitt (read f 0x40000 done.1.device_ota_info.firmware_size)
          ≡ done.1.device_ota_info.firmware_crc)
        × (simple_layout.ota_status_of (stored_config f) ≡ 0))
unfolding strncmp_eq
start_job_document-boot_main_example =
    start_job_document-boot_main simple_rom simple_rom-IsFlash simple_layout simple_layout-IsLayout
      document_json up exchange app done.1 state done.2 done.0 100 (λ k. 0) (idle_turn 200) []
      (idle_turn 2200) [] refl runs done-on.0 (omega (arith, done-on.1)) ((refl, omega arith), tt)
      (omega arith)

abbrev downloaded : Option OtaResult
downloaded =
    ota_download_firmware simple_rom up exchange document 4 0x0d03 (replicate 512 0)
      empty_http_config (λ a. 0xff)

abbrev download_of : Option OtaResult → OtaResult
download_of none = record {
  verified = false;
  log_msg = [];
  http_config = empty_http_config;
  flash = λ a. 0;
}
download_of (some r) = r

download_runs :
    (downloaded ≡ some (download_of downloaded)) × ((download_of downloaded).verified ≡ true)
unfolding ota_download_firmware crc16_ccitt crc16_ccitt_tab read
download_runs = (refl, refl)

ota_download_firmware-crc_example :
    crc16_ccitt (read (download_of downloaded).flash 0x140000 4) ≡ 0x0d03
ota_download_firmware-crc_example =
    ota_download_firmware-crc simple_rom up exchange document 4 0x0d03 (replicate 512 0)
      empty_http_config (λ a. 0xff) (download_of downloaded) download_runs.0 download_runs.1
