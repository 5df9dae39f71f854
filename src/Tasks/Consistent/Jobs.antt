-- ===== src/Tasks/Consistent/Jobs.antt =====
-- The passes of the task for the jobs (app/tasks/aws_iot_jobs_task.c) keep what holds between the tasks.
use rp2040_wiznet_eaa_s_aws.Prelude.{
  ◌≡◌, refl, sym, ap, ◌∙◌, inl, inr, Bool, true, false, ltb, if◌then◌else◌, not, Option, some,
  ◌>>=◌, IfReturns, IfReturns-bind, IfReturns-any, IfReturns-if, Bool-cases,
}
use rp2040_wiznet_eaa_s_aws.Prelude.Word.{sub32}
use rp2040_wiznet_eaa_s_aws.Config.{
  Layout, AppCommon, JobsStatus, jobs_connected, jobs_disconnected,
}
use rp2040_wiznet_eaa_s_aws.Flash.Rom.{FlashRom}
use rp2040_wiznet_eaa_s_aws.Mqtt.{mqtt_idle}
use rp2040_wiznet_eaa_s_aws.Jobs.Parse.{Json}
use rp2040_wiznet_eaa_s_aws.Jobs.Events.{JobsState}
use rp2040_wiznet_eaa_s_aws.Jobs.Connect.{iot_jobs_connect_procedure, iot_jobs_close_procedure}
use rp2040_wiznet_eaa_s_aws.Jobs.Handler.{
  Ended, returned, rebooted, iot_jobs_get_procedure, iot_jobs_start_job_document_procedure,
}
use rp2040_wiznet_eaa_s_aws.Tasks.{System, has_network}
use rp2040_wiznet_eaa_s_aws.Tasks.AwsIotJobs.{
  JobsRound, Pass, going, restarted, jobs_start, jobs_close, ask_refresh, jobs_document,
  jobs_connected_pass, jobs_disconnected_pass, jobs_pass, aws_iot_jobs_round,
}
use rp2040_wiznet_eaa_s_aws.Tasks.Flags.{KeepsFlags, start_procedure-KeepsFlags}
use rp2040_wiznet_eaa_s_aws.Tasks.Sessions.{
  iot_jobs_close_procedure_idle, iot_jobs_connect_procedure_running,
}
use rp2040_wiznet_eaa_s_aws.Tasks.Consistent.{session_of, IsConsistent}

-- How a pass of the task for the jobs ends; a restart is no state of the tasks.
abbrev pub IsConsistentPass : Pass → Type 0
IsConsistentPass (going s) = IsConsistent s
IsConsistentPass (restarted s) = Unit

is_false : (b : Bool) → not b ≡ true → b ≡ false
is_false true e = cc
is_false false e = refl

is_true : (b : Bool) → not b ≡ false → b ≡ true
is_true true e = refl
is_true false e = cc

-- The task for the jobs, which has started.
module _ (rom : FlashRom) (layout : Layout) (json : Json) where
  jobs_close-IsConsistent :
      (round : JobsRound) (s : System)
      → (s.app.is_dhcp_done ≡ true → s.app.is_wiz_chip_link_up ≡ true)
      → s.jobs_started ≡ true
      → IfReturns (jobs_close round s) IsConsistent
  unfolding jobs_close
  jobs_close-IsConsistent round s linked started =
      let close = iot_jobs_close_procedure round.ends round.disconnects s.app.device_info s.mqtt in
      IfReturns-bind close _ _ _
        (iot_jobs_close_procedure_idle round.ends round.disconnects s.app.device_info s.mqtt)
        (λ m h. record {
          linked = linked;
          session = h ∙ ap (λ b. session_of b jobs_disconnected) (sym started);
        })

  jobs_document-IsConsistent :
      (round : JobsRound) (s : System)
      → IsConsistent s
      → s.jobs_started ≡ true
      → IfReturns (jobs_document rom layout json round s) IsConsistentPass
  unfolding jobs_document
  jobs_document-IsConsistent round s old started =
      IfReturns-if (ltb 1000 (sub32 round.now s.start_job_document_ms)) _ _ IsConsistentPass
        (λ _.
          IfReturns-bind
            (iot_jobs_start_job_document_procedure rom layout json round.network round.exchange
              round.job s.app s.jobs)
            _ _ _
            (start_procedure-KeepsFlags rom layout json round.network round.exchange round.job s.app
              s.jobs)
            (λ r k. ended r.0 r.1 r.2 k))
        (λ _. old)
    where
      ended :
          (end : Ended) (app : AppCommon) (jobs : JobsState)
          → KeepsFlags s.app app
          → IfReturns
              (elim end as (λ _. Option Pass) [
                | returned ok ↦
                    if ok
                    then some (going (record s { app = app; jobs = jobs }))
                    else (jobs_close round (record s { app = app; jobs = jobs }) >>= λ t.
                        some (going t))
                | rebooted ↦ some (restarted (record s { app = app; jobs = jobs }))
              ])
              IsConsistentPass
      ended rebooted app jobs k = tt
      ended (returned ok) app jobs k =
          let linked : app.is_dhcp_done ≡ true → app.is_wiz_chip_link_up ≡ true =
            λ e. k.same_link ∙ old.linked (sym k.same_dhcp ∙ e) in
          let s' : System = record s { app = app; jobs = jobs } in
          IfReturns-if ok _ _ IsConsistentPass
            (λ _. record {
              linked = linked;
              session = old.session ∙ ap (session_of s.jobs_started) (sym k.same_status);
            })
            (λ _.
              IfReturns-bind (jobs_close round s') _ IsConsistent _
                (jobs_close-IsConsistent round s' linked started) (λ t h. h))

  connected_pass-IsConsistent :
      (round : JobsRound) (s : System)
      → IsConsistent s
      → s.jobs_started ≡ true
      → IfReturns (jobs_connected_pass rom layout json round s) IsConsistentPass
  unfolding jobs_connected_pass
  connected_pass-IsConsistent round s old started =
      let get = iot_jobs_get_procedure json round.get s.app.device_info s.jobs in
      IfReturns-if (ltb 10000 (sub32 round.now s.start_get_job_ms)) _ _ IsConsistentPass
        (λ _.
          IfReturns-bind get _ (λ _. Unit) _ (IfReturns-any get)
            (λ r u.
              let t : System = record s { start_get_job_ms = round.get_ms; jobs = r.1 } in
              let same : IsConsistent t = record { linked = old.linked; session = old.session } in
              IfReturns-if (r.0) _ _ IsConsistentPass
                (λ _. jobs_document-IsConsistent round t same started)
                (λ _.
                  IfReturns-bind (jobs_close round t) _ IsConsistent _
                    (jobs_close-IsConsistent round t old.linked started) (λ v h. h))))
        (λ _. jobs_document-IsConsistent round s old started)

  disconnected_pass-IsConsistent :
      (round : JobsRound) (s : System)
      → IsConsistent s
      → s.jobs_started ≡ true
      → s.app.aws_iot_jobs_status ≡ jobs_disconnected
      → IfReturns (jobs_disconnected_pass rom layout json round s) IsConsistentPass
  unfolding jobs_disconnected_pass
  disconnected_pass-IsConsistent round s old started off =
      let idle : s.mqtt.config.mqtt_state ≡ mqtt_idle =
        old.session
        ∙ ap (λ b. session_of b s.app.aws_iot_jobs_status) started
        ∙ ap (session_of true) off in
      IfReturns-bind
        (iot_jobs_connect_procedure round.connect round.accepts_get round.accepts_next
          s.app.device_info s.jobs.flash s.mqtt)
        _ _ _
        (iot_jobs_connect_procedure_running round.connect round.accepts_get round.accepts_next
          s.app.device_info s.jobs.flash s.mqtt idle)
        (λ c h.
          let t : System = record s { mqtt = c.1 } in
          let u : System = record t {
            connect_fail_count = 0;
            app = record t.app { aws_iot_jobs_status = jobs_connected };
            start_get_job_ms = round.connected_ms;
            start_job_document_ms = round.connected_ms';
          } in
          IfReturns-if (c.0) _ _ IsConsistentPass
            (λ p.
              connected_pass-IsConsistent round u
                (record {
                  linked = old.linked;
                  session = h p ∙ ap (λ b. session_of b jobs_connected) (sym started);
                })
                started)
            (λ _.
              IfReturns-bind (jobs_close round t) _ IsConsistent _
                (jobs_close-IsConsistent round t old.linked started)
                (λ v k. record { linked = k.linked; session = k.session })))

  by_status :
      (round : JobsRound) (s : System)
      → IsConsistent s
      → s.jobs_started ≡ true
      → (status : JobsStatus) → s.app.aws_iot_jobs_status ≡ status
      → IfReturns
          (elim status as (λ _. Option Pass) [
            | jobs_connected ↦ jobs_connected_pass rom layout json round s
            | jobs_disconnected ↦ jobs_disconnected_pass rom layout json round s
          ])
          IsConsistentPass
  by_status round s old started jobs_connected e = connected_pass-IsConsistent round s old started
  by_status round s old started jobs_disconnected e =
      disconnected_pass-IsConsistent round s old started e

  stopped_by_status :
      (round : JobsRound) (s : System)
      → IsConsistent s
      → s.jobs_started ≡ true
      → (status : JobsStatus)
      → IfReturns
          (elim status as (λ _. Option Pass) [
            | jobs_connected ↦ (jobs_close round s >>= λ t. some (going t))
            | jobs_disconnected ↦ some (going s)
          ])
          IsConsistentPass
  stopped_by_status round s old started jobs_connected =
      IfReturns-bind (jobs_close round s) _ IsConsistent _
        (jobs_close-IsConsistent round s old.linked started) (λ t h. h)
  stopped_by_status round s old started jobs_disconnected = old

  jobs_pass-IsConsistent :
      (round : JobsRound) (s : System)
      → IsConsistent s
      → s.jobs_started ≡ true
      → IfReturns (jobs_pass rom layout json round s) IsConsistentPass
  unfolding jobs_pass
  jobs_pass-IsConsistent round s old started =
      IfReturns-if (not s.app.is_run_aws_iot_jobs) _ _ IsConsistentPass
        (λ _. stopped_by_status round s old started s.app.aws_iot_jobs_status)
        (λ _. by_status round s old started s.app.aws_iot_jobs_status refl)

  ask_refresh-IsConsistent :
      (s : System)
      → IsConsistent s
      → s.jobs_started ≡ true
      → IsConsistent (ask_refresh s) × ((ask_refresh s).jobs_started ≡ true)
  unfolding ask_refresh
  ask_refresh-IsConsistent s old started = elim (Bool-cases (ltb 5 s.connect_fail_count)) [
    | inl p ↦ rw p (record { linked = old.linked; session = old.session }, started)
    | inr q ↦ rw q (old, started)
  ]

  pub aws_iot_jobs_round-IsConsistent :
      (round : JobsRound) (s : System)
      → IsConsistent s
      → IfReturns (aws_iot_jobs_round rom layout json round s) IsConsistentPass
  unfolding aws_iot_jobs_round jobs_start
  aws_iot_jobs_round-IsConsistent round s old =
      IfReturns-if (not (has_network s.app)) _ _ IsConsistentPass (λ _. old)
        (λ _.
          IfReturns-if (not s.jobs_started) _ _ IsConsistentPass
            (λ q. record {
              linked = old.linked;
              session =
                  old.session
                  ∙ ap (λ b. session_of b s.app.aws_iot_jobs_status) (is_false s.jobs_started q);
            })
            (λ q.
              let asked = ask_refresh-IsConsistent s old (is_true s.jobs_started q) in
              jobs_pass-IsConsistent round (ask_refresh s) asked.0 asked.1))
