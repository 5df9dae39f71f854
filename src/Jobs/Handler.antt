-- ===== src/Jobs/Handler.antt =====
-- The procedures for the jobs (app/aws_iot/iot_jobs_handler.c). For every message that is published it is
-- given whether the MQTT library sends it, and what the wait for the answer sees.
pub mod Verified
pub mod Running
pub mod Queued
use rp2040_wiznet_eaa_s_aws.Prelude.{
  ℕ, zero, suc, ◌+◌, Bool, true, false, ltb, if◌then◌else◌, not, List, [], ◌∷◌, ◌++◌, Option, none,
  some, length, replicate, ◌>>=◌,
}
use rp2040_wiznet_eaa_s_aws.Prelude.CStr.{c_str, strlen, strncpy, strncmp_eq, sprintf}
use rp2040_wiznet_eaa_s_aws.Config.{
  Layout, DeviceInfo, DeviceOtaInfo, AppCommon, start_fw_ota_disable, start_fw_ota_enable,
}
use rp2040_wiznet_eaa_s_aws.Device.{is_upper_version_fw}
use rp2040_wiznet_eaa_s_aws.Flash.Rom.{FlashRom}
use rp2040_wiznet_eaa_s_aws.Flash.{save_flash_common_config_info}
use rp2040_wiznet_eaa_s_aws.Http.{Network}
use rp2040_wiznet_eaa_s_aws.Jobs.JobList.{get_first_job_id, del_first_job_id}
use rp2040_wiznet_eaa_s_aws.Jobs.Texts.{
  aws_things, jobs, jobs_get, jobs_start_next, update, update_head, update_middle, update_tail,
  job_type_ota, status_failed, status_succeeded, fail_to_parse, invalid_version,
}
use rp2040_wiznet_eaa_s_aws.Jobs.Ota.{Exchange, OtaResult, ota_download_firmware}
use rp2040_wiznet_eaa_s_aws.Jobs.Parse.{Json, OtaParams, parsing_ota_job_params}
use rp2040_wiznet_eaa_s_aws.Jobs.Events.{
  Execution, empty_execution, JobsState, Round, max_mqtt_topic_size,
  iot_jobs_mqtt_wait_recv_get_job, iot_jobs_mqtt_wait_recv_start_next_job,
  iot_jobs_mqtt_wait_recv_job_update_accepted,
}

abbrev pub max_jobs_documnet_log_size : ℕ
max_jobs_documnet_log_size = 512

abbrev pub pub_msg_buf_size : ℕ
pub_msg_buf_size = 1024

-- Whether a message is sent, the clock when the wait for its answer starts, and the wait's rounds.
pub record Answer : Type 0 where
  pub is_sent : Bool
  pub start : ℕ
  pub rounds : List Round

-- The result is whether the library has sent the message.
unfoldable pub mqtt_transport_publish : Answer → List ℕ → List ℕ → JobsState → Bool × JobsState
mqtt_transport_publish answer topic message s =
    if answer.is_sent
    then (true, record s { published = (topic, message) ∷ s.published })
    else (false, s)

module _ (json : Json) where
  unfoldable pub iot_jobs_get_procedure :
      Answer → DeviceInfo → JobsState → Option (Bool × JobsState)
  unfolding sprintf mqtt_transport_publish iot_jobs_mqtt_wait_recv_get_job c_str
  iot_jobs_get_procedure answer device s =
      sprintf max_mqtt_topic_size (aws_things ++ c_str device.thing_name ++ jobs_get) >>= λ topic.
      let sent =
        mqtt_transport_publish answer topic []
          (record s { thing_name_for_event_callback = some device.thing_name }) in
      if sent.0
      then iot_jobs_mqtt_wait_recv_get_job json 1000 answer.start answer.rounds sent.1
      else some (false, sent.1)

  unfoldable pub iot_jobs_start_next_procedure :
      Answer → DeviceInfo → JobsState → Option (Bool × JobsState)
  unfolding sprintf mqtt_transport_publish iot_jobs_mqtt_wait_recv_start_next_job c_str
  iot_jobs_start_next_procedure answer device s =
      sprintf max_mqtt_topic_size (aws_things ++ c_str device.thing_name ++ jobs_start_next)
      >>= λ topic.
          let sent =
            mqtt_transport_publish answer topic []
              (record s { thing_name_for_event_callback = some device.thing_name }) in
          if sent.0
          then iot_jobs_mqtt_wait_recv_start_next_job json 1000 answer.start answer.rounds sent.1
          else some (false, sent.1)

  -- The job id is the one in `execution`, to which the callback's pointer then points.
  unfoldable pub iot_jobs_update_job_status_procedure :
      Answer → DeviceInfo → List ℕ → List ℕ → JobsState → Option (Bool × JobsState)
  unfolding sprintf mqtt_transport_publish iot_jobs_mqtt_wait_recv_job_update_accepted c_str
  iot_jobs_update_job_status_procedure answer device status log_msg s =
      sprintf max_mqtt_topic_size
        (aws_things ++ c_str device.thing_name ++ jobs ++ c_str s.execution.job_id ++ update)
      >>= λ topic.
          sprintf pub_msg_buf_size
            (update_head ++ status ++ update_middle ++ c_str log_msg ++ update_tail)
          >>= λ message.
              let sent = mqtt_transport_publish answer topic message (record s {
                thing_name_for_event_callback = some device.thing_name;
                has_job_id_for_event_callback = true;
              }) in
              if sent.0
              then iot_jobs_mqtt_wait_recv_job_update_accepted json 1000 answer.start answer.rounds
                  sent.1
              else some (false, sent.1)

-- The end of an OTA job whose image is in the download area: the flag for the boot loader is set, in
-- the memory and in the flash.
unfoldable pub arm_update : FlashRom → Layout → AppCommon → JobsState → Bool × AppCommon × JobsState
unfolding save_flash_common_config_info
arm_update rom layout app s =
    let app' : AppCommon = record app {
      device_ota_info = record {
        start_firmware_ota_status = start_fw_ota_enable;
        firmware_size = s.execution.job_ota.firmware_size;
        firmware_crc = s.execution.job_ota.firmware_crc;
      };
    } in
    (
      true,
      record app' { enable_reboot = true },
      record s {
        flash =
            save_flash_common_config_info rom layout.sizeof_app_common (layout.bytes_of app')
              s.flash;
      },
    )

-- Behind the download: its log and what it left in the flash are kept, whatever it says.
unfoldable pub after_download :
    FlashRom → Layout → AppCommon → JobsState → OtaResult → Bool × AppCommon × JobsState
unfolding arm_update
after_download rom layout app s r =
    let s' : JobsState = record s {
      process_log = r.log_msg;
      http_config = r.http_config;
      flash = r.flash;
    } in
    if r.verified then arm_update rom layout app s' else (false, app, s')

-- A version that is not high enough.
unfoldable pub refuse_version : AppCommon → JobsState → Option (Bool × AppCommon × JobsState)
unfolding sprintf strncpy c_str
refuse_version app s =
    sprintf max_jobs_documnet_log_size
      (invalid_version ++ c_str s.execution.job_ota.firmware_version)
    >>= λ text.
        some (false, app, record s { process_log = strncpy s.process_log text (length text) })

module _ (rom : FlashRom) (layout : Layout) (json : Json) (network : Network)
    (exchange : Exchange) where
  -- An OTA job with its parameters.
  unfoldable pub run_ota : AppCommon → JobsState → Option (Bool × AppCommon × JobsState)
  unfolding is_upper_version_fw ota_download_firmware after_download refuse_version
  run_ota app s =
      let ota : OtaParams = s.execution.job_ota in
      let download =
        ota_download_firmware rom network exchange ota.firmware_url ota.firmware_size
          ota.firmware_crc s.process_log s.http_config s.flash
        >>= λ r. some (after_download rom layout app s r) in
      is_upper_version_fw ota.firmware_version >>= λ upper.
      if upper then download else refuse_version app s

  -- Behind `parsing_ota_job_params`; the log is empty before.
  unfoldable pub after_parse :
      AppCommon → JobsState → Bool × OtaParams → Option (Bool × AppCommon × JobsState)
  unfolding run_ota strncpy
  after_parse app s parsed =
      let t : JobsState = record s { execution = record s.execution { job_ota = parsed.1 } } in
      let run = run_ota app t in
      if parsed.0
      then run
      else some (
        false,
        app,
        record t { process_log = strncpy s.process_log fail_to_parse (length fail_to_parse) },
      )

  -- The result, `pAppCommon` and the handler's variables behind it. A job of any other type does nothing.
  unfoldable pub start_job_document : AppCommon → JobsState → Option (Bool × AppCommon × JobsState)
  unfolding strncmp_eq parsing_ota_job_params after_parse c_str
  start_job_document app s =
      let s' : JobsState = record s { process_log = replicate max_jobs_documnet_log_size 0 } in
      let app' : AppCommon = record app {
        device_ota_info = record app.device_ota_info {
          start_firmware_ota_status = start_fw_ota_disable;
        };
      } in
      let ota =
        parsing_ota_job_params json (c_str s.execution.job_document) empty_execution.job_ota 2176 64
        >>= λ parsed. after_parse app' s' parsed in
      if strncmp_eq s.execution.job_type job_type_ota 4 then ota else some (true, app, s')

-- How the procedure for a job ends: it returns, or the device starts again.
pub data Ended : Type 0 where
  returned : Bool → Ended
  rebooted : Ended

-- The answers to the messages of one run: the one for the next job, and the one for the status.
pub record Answers : Type 0 where
  pub start_next : Answer
  pub update_status : Answer

module _ (rom : FlashRom) (layout : Layout) (json : Json) (network : Network)
    (exchange : Exchange) where
  -- Behind `start_job_document`: the status is reported, and the job leaves the list when the report is
  -- accepted.
  unfoldable pub report_job :
      Answer → Bool → AppCommon → JobsState → Option (Ended × AppCommon × JobsState)
  unfolding iot_jobs_update_job_status_procedure del_first_job_id
  report_job answer is_done app s =
      let s' : JobsState = record s { execution = record s.execution { is_job_started = false } } in
      iot_jobs_update_job_status_procedure json answer app.device_info
        (if is_done then status_succeeded else status_failed) s.process_log s'
      >>= λ reported.
          let t : JobsState =
            if reported.0
            then record reported.1 { job_id_list = del_first_job_id reported.1.job_id_list }
            else reported.1 in
          some (
            if is_done
                then (if app.enable_reboot then rebooted else returned true)
                else returned false,
            app,
            t,
          )

  unfoldable pub iot_jobs_start_job_document_procedure :
      Answers → AppCommon → JobsState → Option (Ended × AppCommon × JobsState)
  unfolding get_first_job_id iot_jobs_start_next_procedure start_job_document report_job
  iot_jobs_start_job_document_procedure answers app s =
      let app' : AppCommon = record app { enable_reboot = false } in
      let run =
        iot_jobs_start_next_procedure json answers.start_next app'.device_info
          (record s { execution = empty_execution })
        >>= λ next.
            let t : JobsState = record next.1 {
              execution = record next.1.execution { is_job_started = true };
            } in
            let job = start_job_document rom layout json network exchange app' t >>= λ done.
            report_job answers.update_status done.0 done.1 done.2 in
            if next.0 then job else some (returned false, app', next.1) in
      get_first_job_id s.job_id_list (replicate 64 0) 0 >>= λ first.
      if not first.0
      then some (returned true, app', s)
      else if s.execution.is_job_started
      then some (returned true, app', s)
      else run
