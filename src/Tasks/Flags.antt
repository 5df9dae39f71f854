-- ===== src/Tasks/Flags.antt =====
-- A job leaves the flags of the network and of the connection alone (app/aws_iot/iot_jobs_handler.c).
use rp2040_wiznet_eaa_s_aws.Prelude.{
  ◌≡◌, refl, inl, inr, Bool, true, false, if◌then◌else◌, ◌++◌, replicate, IfReturns, IfReturns-bind,
  IfReturns-any, Bool-cases,
}
use rp2040_wiznet_eaa_s_aws.Prelude.CStr.{c_str, strncmp_eq, sprintf}
use rp2040_wiznet_eaa_s_aws.Config.{Layout, AppCommon}
use rp2040_wiznet_eaa_s_aws.Device.{is_upper_version_fw}
use rp2040_wiznet_eaa_s_aws.Flash.Rom.{FlashRom}
use rp2040_wiznet_eaa_s_aws.Http.{Network}
use rp2040_wiznet_eaa_s_aws.Jobs.JobList.{get_first_job_id}
use rp2040_wiznet_eaa_s_aws.Jobs.Texts.{
  job_type_ota, status_failed, status_succeeded, invalid_version,
}
use rp2040_wiznet_eaa_s_aws.Jobs.Parse.{Json, OtaParams, parsing_ota_job_params}
use rp2040_wiznet_eaa_s_aws.Jobs.Ota.{Exchange, OtaResult, ota_download_firmware}
use rp2040_wiznet_eaa_s_aws.Jobs.Events.{JobsState, empty_execution}
use rp2040_wiznet_eaa_s_aws.Jobs.Handler.{
  Answer, Answers, arm_update, after_download, refuse_version, run_ota, after_parse,
  start_job_document, report_job, iot_jobs_update_job_status_procedure,
  iot_jobs_start_next_procedure, iot_jobs_start_job_document_procedure,
}

pub record KeepsFlags (app app' : AppCommon) : Type 0 where
  pub same_link : app'.is_wiz_chip_link_up ≡ app.is_wiz_chip_link_up
  pub same_dhcp : app'.is_dhcp_done ≡ app.is_dhcp_done
  pub same_status : app'.aws_iot_jobs_status ≡ app.aws_iot_jobs_status

kept : (app : AppCommon) → KeepsFlags app app
kept app = record { same_link = refl; same_dhcp = refl; same_status = refl }

module _ (rom : FlashRom) (layout : Layout) where
  after_download-KeepsFlags :
      (base app : AppCommon) (s : JobsState) (r : OtaResult)
      → KeepsFlags base app
      → KeepsFlags base (after_download rom layout app s r).1
  unfolding after_download arm_update
  after_download-KeepsFlags base app s r k = elim (Bool-cases r.verified) [
    | inl p ↦
        rw p
          (record { same_link = k.same_link; same_dhcp = k.same_dhcp; same_status = k.same_status })
    | inr q ↦ rw q k
  ]

  refuse_version-KeepsFlags :
      (base app : AppCommon) (s : JobsState)
      → KeepsFlags base app
      → IfReturns (refuse_version app s) (λ r. KeepsFlags base r.1)
  unfolding refuse_version
  refuse_version-KeepsFlags base app s k =
      IfReturns-bind (sprintf 512 (invalid_version ++ c_str s.execution.job_ota.firmware_version)) _
        (λ _. Unit) _
        (IfReturns-any
          (sprintf 512 (invalid_version ++ c_str s.execution.job_ota.firmware_version)))
        (λ text u. k)

  module _ (json : Json) (network : Network) (exchange : Exchange) where
    run_ota-KeepsFlags :
        (base app : AppCommon) (s : JobsState)
        → KeepsFlags base app
        → IfReturns (run_ota rom layout json network exchange app s) (λ r. KeepsFlags base r.1)
    unfolding run_ota
    run_ota-KeepsFlags base app s k =
        let ota : OtaParams = s.execution.job_ota in
        let download =
          ota_download_firmware rom network exchange ota.firmware_url ota.firmware_size
            ota.firmware_crc s.process_log s.http_config s.flash in
        IfReturns-bind (is_upper_version_fw ota.firmware_version) _ (λ _. Unit) _
          (IfReturns-any (is_upper_version_fw ota.firmware_version))
          (λ upper u. elim (Bool-cases upper) [
            | inl p ↦ rw p (
                IfReturns-bind download _ (λ _. Unit) _ (IfReturns-any download)
                  (λ r u. after_download-KeepsFlags base app s r k))
            | inr q ↦ rw q (refuse_version-KeepsFlags base app s k)
          ])

    after_parse-KeepsFlags :
        (base app : AppCommon) (s : JobsState) (parsed : Bool × OtaParams)
        → KeepsFlags base app
        → IfReturns
            (after_parse rom layout json network exchange app s parsed)
            (λ r. KeepsFlags base r.1)
    unfolding after_parse
    after_parse-KeepsFlags base app s parsed k = elim (Bool-cases parsed.0) [
      | inl p ↦ rw p (
          run_ota-KeepsFlags base app
            (record s { execution = record s.execution { job_ota = parsed.1 } }) k)
      | inr q ↦ rw q k
    ]

    start_job_document-KeepsFlags :
        (base app : AppCommon) (s : JobsState)
        → KeepsFlags base app
        → IfReturns
            (start_job_document rom layout json network exchange app s)
            (λ r. KeepsFlags base r.1)
    unfolding start_job_document
    start_job_document-KeepsFlags base app s k =
        let t : JobsState = record s { process_log = replicate 512 0 } in
        let off : AppCommon = record app {
          device_ota_info = record app.device_ota_info { start_firmware_ota_status = 0 };
        } in
        let k' : KeepsFlags base off = record {
          same_link = k.same_link;
          same_dhcp = k.same_dhcp;
          same_status = k.same_status;
        } in
        let parse =
          parsing_ota_job_params json (c_str s.execution.job_document) empty_execution.job_ota 2176
            64 in
        elim (Bool-cases (strncmp_eq s.execution.job_type job_type_ota 4)) [
          | inl p ↦ rw p (
              IfReturns-bind parse _ (λ _. Unit) _ (IfReturns-any parse)
                (λ parsed u. after_parse-KeepsFlags base off t parsed k'))
          | inr q ↦ rw q k
        ]

    report_job-KeepsFlags :
        (answer : Answer) (is_done : Bool) (base app : AppCommon) (s : JobsState)
        → KeepsFlags base app
        → IfReturns
            (report_job rom layout json network exchange answer is_done app s)
            (λ r. KeepsFlags base r.1)
    unfolding report_job
    report_job-KeepsFlags answer is_done base app s k =
        let report =
          iot_jobs_update_job_status_procedure json answer app.device_info
            (if is_done then status_succeeded else status_failed) s.process_log
            (record s { execution = record s.execution { is_job_started = false } }) in
        IfReturns-bind report _ (λ _. Unit) _ (IfReturns-any report) (λ reported u. k)

    -- Whatever a job does, it changes none of the flags of the network and of the connection.
    pub start_procedure-KeepsFlags :
        (answers : Answers) (app : AppCommon) (s : JobsState)
        → IfReturns
            (iot_jobs_start_job_document_procedure rom layout json network exchange answers app s)
            (λ r. KeepsFlags app r.1)
    unfolding iot_jobs_start_job_document_procedure
    start_procedure-KeepsFlags answers app s =
        let app' : AppCommon = record app { enable_reboot = false } in
        let k : KeepsFlags app app' = record {
          same_link = refl;
          same_dhcp = refl;
          same_status = refl;
        } in
        let next =
          iot_jobs_start_next_procedure json answers.start_next app'.device_info
            (record s { execution = empty_execution }) in
        IfReturns-bind (get_first_job_id s.job_id_list (replicate 64 0) 0) _ (λ _. Unit) _
          (IfReturns-any (get_first_job_id s.job_id_list (replicate 64 0) 0))
          (λ first u. elim (Bool-cases first.0) [
            | inr q ↦ rw q k
            | inl p ↦ elim (Bool-cases s.execution.is_job_started) [
              | inl p' ↦ rw (p, p') k
              | inr q' ↦
                  rw (p, q')
                    (IfReturns-bind next _ (λ _. Unit) _ (IfReturns-any next)
                      (λ n v. elim (Bool-cases n.0) [
                        | inr q'' ↦ rw q'' k
                        | inl p'' ↦
                            let t : JobsState = record n.1 {
                              execution = record n.1.execution { is_job_started = true };
                            } in
                            rw p'' (
                              IfReturns-bind
                                (start_job_document rom layout json network exchange app' t) _
                                (λ r. KeepsFlags app r.1) _
                                (start_job_document-KeepsFlags app app' t k)
                                (λ done h.
                                  report_job-KeepsFlags answers.update_status done.0 app done.1
                                    done.2 h))
                      ]))
            ]
          ])
