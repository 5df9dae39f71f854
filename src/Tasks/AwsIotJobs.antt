-- ===== src/Tasks/AwsIotJobs.antt =====
-- The task for the jobs (app/tasks/aws_iot_jobs_task.c).
use rp2040_wiznet_eaa_s_aws.Prelude.{
  ℕ, ◌+◌, Bool, true, false, ltb, if◌then◌else◌, not, Option, some, ◌>>=◌,
}
use rp2040_wiznet_eaa_s_aws.Prelude.Word.{u16, sub32}
use rp2040_wiznet_eaa_s_aws.Config.{Layout, jobs_connected, jobs_disconnected}
use rp2040_wiznet_eaa_s_aws.Flash.Rom.{FlashRom}
use rp2040_wiznet_eaa_s_aws.Http.{Network}
use rp2040_wiznet_eaa_s_aws.Mqtt.Connect.{ConnectAnswers}
use rp2040_wiznet_eaa_s_aws.Jobs.Parse.{Json}
use rp2040_wiznet_eaa_s_aws.Jobs.Ota.{Exchange}
use rp2040_wiznet_eaa_s_aws.Jobs.Connect.{iot_jobs_connect_procedure, iot_jobs_close_procedure}
use rp2040_wiznet_eaa_s_aws.Jobs.Handler.{
  Answer, Answers, returned, rebooted, iot_jobs_get_procedure,
  iot_jobs_start_job_document_procedure,
}
use rp2040_wiznet_eaa_s_aws.Tasks.{System, has_network}

abbrev pub iot_jobs_get_job_time_ms : ℕ
iot_jobs_get_job_time_ms = 10000

abbrev pub iot_jobs_start_job_document_time_ms : ℕ
iot_jobs_start_job_document_time_ms = 1000

abbrev pub iot_jobs_max_connect_fail_count : ℕ
iot_jobs_max_connect_fail_count = 5

-- One pass: what the connection and its end meet, the clock where it is read, and what the procedures for
-- the jobs meet.
pub record JobsRound : Type 0 where
  pub connect : ConnectAnswers
  pub accepts_get : Bool
  pub accepts_next : Bool
  pub ends : ℕ → Bool
  pub disconnects : Bool
  pub connected_ms : ℕ
  pub connected_ms' : ℕ
  pub now : ℕ
  pub get_ms : ℕ
  pub get : Answer
  pub network : Network
  pub exchange : Exchange
  pub job : Answers

-- How a pass ends: the task goes on, or the device starts again.
pub data Pass : Type 0 where
  going : System → Pass
  restarted : System → Pass

unfoldable pub jobs_start : System → System
jobs_start s = record s {
  jobs_started = true;
  connect_fail_count = 0;
  app = record s.app { aws_iot_jobs_status = jobs_disconnected; is_run_aws_iot_jobs = false };
}

-- The connection is closed.
unfoldable pub jobs_close : JobsRound → System → Option System
unfolding iot_jobs_close_procedure
jobs_close round s =
    iot_jobs_close_procedure round.ends round.disconnects s.app.device_info s.mqtt >>= λ m.
    some (record s { mqtt = m; app = record s.app { aws_iot_jobs_status = jobs_disconnected } })

-- Many failures ask for another certificate.
unfoldable pub ask_refresh : System → System
ask_refresh s =
    if ltb iot_jobs_max_connect_fail_count s.connect_fail_count
    then record s { app = record s.app { enable_refresh_provisioned_cert = true } }
    else s

module _ (rom : FlashRom) (layout : Layout) (json : Json) where
  -- A job is started, the time behind the connection being over.
  unfoldable pub jobs_document : JobsRound → System → Option Pass
  unfolding iot_jobs_start_job_document_procedure jobs_close
  jobs_document round s =
      let run =
        iot_jobs_start_job_document_procedure rom layout json round.network round.exchange round.job
          s.app s.jobs
        >>= λ r.
            let s' : System = record s { app = r.1; jobs = r.2 } in
            let close = jobs_close round s' >>= λ t. some (going t) in
            elim r.0 [
              | returned ok ↦ if ok then some (going s') else close
              | rebooted ↦ some (restarted s')
            ] in
      if ltb iot_jobs_start_job_document_time_ms (sub32 round.now s.start_job_document_ms)
      then run
      else some (going s)

  -- A pass with a connection.
  unfoldable pub jobs_connected_pass : JobsRound → System → Option Pass
  unfolding iot_jobs_get_procedure jobs_close jobs_document
  jobs_connected_pass round s =
      let s' : System = record s { start_get_job_ms = round.get_ms } in
      let ask = iot_jobs_get_procedure json round.get s.app.device_info s.jobs >>= λ r.
      let t : System = record s' { jobs = r.1 } in
      let close = jobs_close round t >>= λ u. some (going u) in
      let go = jobs_document round t in if r.0 then go else close in
      let wait = jobs_document round s in
      if ltb iot_jobs_get_job_time_ms (sub32 round.now s.start_get_job_ms) then ask else wait

  -- A pass without a connection: one is made.
  unfoldable pub jobs_disconnected_pass : JobsRound → System → Option Pass
  unfolding iot_jobs_connect_procedure jobs_close jobs_connected_pass
  jobs_disconnected_pass round s =
      iot_jobs_connect_procedure round.connect round.accepts_get round.accepts_next
        s.app.device_info s.jobs.flash s.mqtt
      >>= λ c.
          let t : System = record s { mqtt = c.1 } in
          let go = jobs_connected_pass round (record t {
            connect_fail_count = 0;
            app = record t.app { aws_iot_jobs_status = jobs_connected };
            start_get_job_ms = round.connected_ms;
            start_job_document_ms = round.connected_ms';
          }) in
          let fail = jobs_close round t >>= λ u.
          some (going (record u { connect_fail_count = u16 (u.connect_fail_count + 1) })) in
          if c.0 then go else fail

  -- By the status of the connection.
  unfoldable pub jobs_pass : JobsRound → System → Option Pass
  unfolding jobs_close jobs_connected_pass jobs_disconnected_pass
  jobs_pass round s =
      let close = jobs_close round s >>= λ t. some (going t) in
      let connected = jobs_connected_pass round s in
      let disconnected = jobs_disconnected_pass round s in
      if not s.app.is_run_aws_iot_jobs
      then elim s.app.aws_iot_jobs_status [
        | jobs_connected ↦ close
        | jobs_disconnected ↦ some (going s)
      ]
      else elim s.app.aws_iot_jobs_status [
        | jobs_connected ↦ connected
        | jobs_disconnected ↦ disconnected
      ]

  unfoldable pub aws_iot_jobs_round : JobsRound → System → Option Pass
  unfolding jobs_start ask_refresh jobs_pass
  aws_iot_jobs_round round s =
      let pass = jobs_pass round (ask_refresh s) in
      if not (has_network s.app)
      then some (going s)
      else if not s.jobs_started
      then some (going (jobs_start s))
      else pass
