-- ===== src/Tasks/Consistent.antt =====
-- What holds between the passes of the tasks: the link, and the connection's state (app/tasks).
pub mod Jobs
use rp2040_wiznet_eaa_s_aws.Prelude.{
  ℕ, ◌≡◌, refl, sym, subst, ap, ◌∙◌, inl, inr, Bool, true, false, ltb, if◌then◌else◌, not, ◌&&◌,
  List, ◌*◌, Option, none, some, ◌>>=◌, IfReturns, IfReturns-bind, IfReturns-mono, IfReturns-any,
  IfReturns-if, IfReturns-elim, Bool-cases,
}
use rp2040_wiznet_eaa_s_aws.Prelude.Word.{u16, u32, sub32}
use rp2040_wiznet_eaa_s_aws.Config.{
  Layout, AppCommon, JobsStatus, jobs_connected, jobs_disconnected,
}
use rp2040_wiznet_eaa_s_aws.Flash.Rom.{FlashRom}
use rp2040_wiznet_eaa_s_aws.Ethernet.{dhcp_process}
use rp2040_wiznet_eaa_s_aws.Mqtt.{Mqtt, MqttState, mqtt_idle, mqtt_running, TlsContext}
use rp2040_wiznet_eaa_s_aws.Jobs.Parse.{Json}
use rp2040_wiznet_eaa_s_aws.Jobs.Events.{JobsState}
use rp2040_wiznet_eaa_s_aws.Jobs.Connect.{iot_jobs_connect_procedure, iot_jobs_close_procedure}
use rp2040_wiznet_eaa_s_aws.Jobs.Handler.{
  Ended, returned, rebooted, iot_jobs_get_procedure, iot_jobs_start_job_document_procedure,
}
use rp2040_wiznet_eaa_s_aws.Fleet.Parse.{Cbor}
use rp2040_wiznet_eaa_s_aws.Fleet.Events.{Fleet}
use rp2040_wiznet_eaa_s_aws.Fleet.Handle.{fleet_provisioning_handle}
use rp2040_wiznet_eaa_s_aws.Tasks.{System, has_network, start_tasks}
use rp2040_wiznet_eaa_s_aws.Tasks.Idle.{IdleRound, watch_link, request_address, idle_round}
use rp2040_wiznet_eaa_s_aws.Tasks.MainApp.{
  Pem, MainRound, main_app_start, refresh_cert, main_app_round,
}
use rp2040_wiznet_eaa_s_aws.Tasks.AwsIotJobs.{
  JobsRound, Pass, going, restarted, jobs_start, jobs_close, ask_refresh, jobs_document,
  jobs_connected_pass, jobs_disconnected_pass, jobs_pass, aws_iot_jobs_round,
}
use rp2040_wiznet_eaa_s_aws.Tasks.Flags.{KeepsFlags, start_procedure-KeepsFlags}
use rp2040_wiznet_eaa_s_aws.Tasks.Sessions.{
  fleet_provisioning_handle_state, iot_jobs_close_procedure_idle,
  iot_jobs_connect_procedure_running,
}

-- The connection's state that the tasks rely on: a session runs exactly when the task for the jobs has
-- started and counts itself connected.
abbrev pub session_of : Bool → JobsStatus → MqttState
session_of false status = mqtt_idle
session_of true jobs_disconnected = mqtt_idle
session_of true jobs_connected = mqtt_running

pub record IsConsistent (s : System) : Type 0 where
  pub linked : s.app.is_dhcp_done ≡ true → s.app.is_wiz_chip_link_up ≡ true
  pub session : s.mqtt.config.mqtt_state ≡ session_of s.jobs_started s.app.aws_iot_jobs_status

-- The idle task.
request_address-IsConsistent :
    (round : IdleRound) (app : AppCommon) (s : System)
    → app.is_wiz_chip_link_up ≡ true
    → s.mqtt.config.mqtt_state ≡ session_of s.jobs_started app.aws_iot_jobs_status
    → IfReturns (request_address round app s) IsConsistent
unfolding request_address
request_address-IsConsistent round app s up session =
    let asked = dhcp_process round.dhcp app.device_info.eth_net_info in
    IfReturns-bind asked _ (λ _. Unit) _ (IfReturns-any asked)
      (λ answer u. elim (Bool-cases answer.0) [
        | inl p ↦ rw p (record { linked = λ _. up; session = session })
        | inr q ↦ rw q (record { linked = λ _. up; session = session })
      ])

watch_link-linked :
    (phy_link : Bool) (app : AppCommon)
    → (app.is_dhcp_done ≡ true → app.is_wiz_chip_link_up ≡ true)
    → (watch_link phy_link app).is_dhcp_done ≡ true
    → (watch_link phy_link app).is_wiz_chip_link_up ≡ true
unfolding watch_link
watch_link-linked true app h e = refl
watch_link-linked false app h e = e

watch_link_status :
    (phy_link : Bool) (app : AppCommon)
    → (watch_link phy_link app).aws_iot_jobs_status ≡ app.aws_iot_jobs_status
unfolding watch_link
watch_link_status true app = refl
watch_link_status false app = refl

both_right : (a b : Bool) → (a && b) ≡ true → b ≡ true
both_right true b e = e
both_right false b e = cc

pub idle_round-IsConsistent :
    (round : IdleRound) (s : System) → IsConsistent s → IfReturns (idle_round round s) IsConsistent
unfolding idle_round
idle_round-IsConsistent round s old =
    let app' : AppCommon = watch_link round.phy_link s.app in
    let session' : s.mqtt.config.mqtt_state ≡ session_of s.jobs_started app'.aws_iot_jobs_status =
      old.session ∙ ap (session_of s.jobs_started) (sym (watch_link_status round.phy_link s.app)) in
    let same : IsConsistent (record s { app = app' }) = record {
      linked = watch_link-linked round.phy_link s.app old.linked;
      session = session';
    } in
    IfReturns-if (not app'.is_dhcp_done && app'.is_wiz_chip_link_up) _ _ IsConsistent
      (λ p.
        request_address-IsConsistent round app' s
          (both_right (not app'.is_dhcp_done) app'.is_wiz_chip_link_up p) session')
      (λ _.
        IfReturns-if (app'.is_dhcp_done && app'.is_wiz_chip_link_up) _ _ IsConsistent
          (λ p.
            IfReturns-if (ltb (u32 (round.lease_time_s * 1000)) (sub32 round.now s.refresh_dhcp_ms))
              _ _ IsConsistent
              (λ _.
                request_address-IsConsistent round (record app' { is_dhcp_done = false }) s
                  (both_right app'.is_dhcp_done app'.is_wiz_chip_link_up p) session')
              (λ _. same))
          (λ _. same))

-- The task for the provisioning.
module _ (rom : FlashRom) (cbor : Cbor) (claim : TlsContext) (pem : Pem) where
  refresh_cert-IsConsistent :
      (round : MainRound) (s : System)
      → IsConsistent s
      → IfReturns (refresh_cert rom cbor claim round s) IsConsistent
  unfolding refresh_cert
  refresh_cert-IsConsistent round s old =
      let fleet' : Fleet = record s.fleet { mqtt = s.mqtt; flash = s.jobs.flash } in
      IfReturns-bind
        (fleet_provisioning_handle rom cbor claim round.connect round.create round.register
          s.app.device_info fleet')
        _ _ _
        (fleet_provisioning_handle_state rom cbor claim round.connect round.create round.register
          s.app.device_info fleet')
        (λ r h. elim (Bool-cases r.0) [
          | inl p ↦ rw p (record { linked = old.linked; session = h ∙ old.session })
          | inr q ↦ rw q (record { linked = old.linked; session = h ∙ old.session })
        ])

  pub main_app_round-IsConsistent :
      (round : MainRound) (s : System)
      → IsConsistent s
      → IfReturns (main_app_round rom cbor claim pem round s) IsConsistent
  unfolding main_app_round main_app_start
  main_app_round-IsConsistent round s old =
      IfReturns-if (not (has_network s.app)) _ _ IsConsistent (λ _. old)
        (λ _.
          IfReturns-if (not s.main_started) _ _ IsConsistent
            (λ _. record { linked = old.linked; session = old.session })
            (λ _.
              IfReturns-if (s.app.enable_refresh_provisioned_cert) _ _ IsConsistent
                (λ _. refresh_cert-IsConsistent round s old)
                (λ _.
                  IfReturns-if (s.app.is_valid_provisioned_cert_info) _ _ IsConsistent
                    (λ _. record { linked = old.linked; session = old.session }) (λ _. old))))
