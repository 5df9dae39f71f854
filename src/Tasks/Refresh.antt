-- ===== src/Tasks/Refresh.antt =====
-- A broker that refuses the session again and again (app/tasks/aws_iot_jobs_task.c, main_app_task.c).
use rp2040_wiznet_eaa_s_aws.Prelude.{
  ℕ, suc, ◌+◌, ◌<◌, ◌≡◌, refl, ap, ◌∙◌, inl, inr, true, false, ltb, not, List, [], ◌∷◌, Option,
  some, length, All, arith, ◌>>=◌, Returns, Returns-mono, Returns-bind, if_then, if_else,
  Returns-else, Bool-cases, lt→ltb,
}
use rp2040_wiznet_eaa_s_aws.Prelude.Word.{u16}
use rp2040_wiznet_eaa_s_aws.Config.{Layout, JobsStatus, jobs_connected, jobs_disconnected}
use rp2040_wiznet_eaa_s_aws.Flash.Rom.{FlashRom}
use rp2040_wiznet_eaa_s_aws.Mqtt.{mqtt_idle, TlsContext}
use rp2040_wiznet_eaa_s_aws.Jobs.Parse.{Json}
use rp2040_wiznet_eaa_s_aws.Jobs.Connect.{iot_jobs_connect_procedure, iot_jobs_close_procedure}
use rp2040_wiznet_eaa_s_aws.Jobs.Connect.Ready.{IsUsable}
use rp2040_wiznet_eaa_s_aws.Fleet.Parse.{Cbor}
use rp2040_wiznet_eaa_s_aws.Tasks.{System, has_network}
use rp2040_wiznet_eaa_s_aws.Tasks.MainApp.{Pem, MainRound, refresh_cert, main_app_round}
use rp2040_wiznet_eaa_s_aws.Tasks.AwsIotJobs.{
  JobsRound, Pass, going, restarted, jobs_close, ask_refresh, jobs_connected_pass,
  jobs_disconnected_pass, jobs_pass, aws_iot_jobs_round,
}
use rp2040_wiznet_eaa_s_aws.Tasks.Refused.{
  iot_jobs_connect_procedure_refused, iot_jobs_close_procedure_empty,
}

-- The task for the jobs has the network and is asked to run, and has failed a number of times.
pub record IsTrying (n : ℕ) (s : System) : Type 0 where
  pub main_runs : s.main_started ≡ true
  pub jobs_run : s.jobs_started ≡ true
  pub has_link : s.app.is_wiz_chip_link_up ≡ true
  pub has_address : s.app.is_dhcp_done ≡ true
  pub is_asked : s.app.is_run_aws_iot_jobs ≡ true
  pub is_off : s.app.aws_iot_jobs_status ≡ jobs_disconnected
  pub is_idle : s.mqtt.config.mqtt_state ≡ mqtt_idle
  pub failures : s.connect_fail_count ≡ n
  pub usable : IsUsable s.app.device_info

-- After a pass: a certificate is asked for if there were more than five failures before it.
record HasTried (n : ℕ) (s : System) : Type 0 where
  trying : IsTrying (suc n) s
  refresh : 5 < n → s.app.enable_refresh_provisioned_cert ≡ true

abbrev TriedPass : ℕ → Pass → Type 0
TriedPass n (going s) = HasTried n s
TriedPass n (restarted s) = ⊥

trying_network : (n : ℕ) (s : System) → IsTrying n s → has_network s.app ≡ true
trying_network n s h = rw (h.has_link, h.has_address) refl

ask_refresh_trying :
    (n : ℕ) (s : System)
    → IsTrying n s
    → IsTrying n (ask_refresh s)
      × (5 < n → (ask_refresh s).app.enable_refresh_provisioned_cert ≡ true)
unfolding ask_refresh
ask_refresh_trying n s h = elim (Bool-cases (ltb 5 s.connect_fail_count)) [
  | inl p ↦ rw p (
    record {
      main_runs = h.main_runs;
      jobs_run = h.jobs_run;
      has_link = h.has_link;
      has_address = h.has_address;
      is_asked = h.is_asked;
      is_off = h.is_off;
      is_idle = h.is_idle;
      failures = h.failures;
      usable = h.usable;
    },
    λ m. refl,
  )
  | inr q ↦ rw q (
    h,
    λ m.
        let p : ltb 5 s.connect_fail_count ≡ true =
          lt→ltb 5 s.connect_fail_count (omega (arith, h.failures)) in
        cc,
  )
]

-- The broker refuses the session in a pass.
abbrev pub IsRefused : JobsRound → Type 0
IsRefused round = round.connect.mqtt_connect ≡ false

abbrev AskedPass : Pass → Type 0
AskedPass (going s) =
    (s.app.enable_refresh_provisioned_cert ≡ true)
    × (s.main_started ≡ true)
    × (has_network s.app ≡ true)
AskedPass (restarted s) = ⊥

module _ (rom : FlashRom) (layout : Layout) (json : Json) where
  disconnected_pass_tried :
      (n : ℕ) (round : JobsRound) (s : System)
      → n < 65535
      → round.connect.mqtt_connect ≡ false
      → IsTrying n s
      → (5 < n → s.app.enable_refresh_provisioned_cert ≡ true)
      → Returns (jobs_disconnected_pass rom layout json round s) (TriedPass n)
  unfolding jobs_disconnected_pass jobs_close
  disconnected_pass_tried n round s few refused h asked =
      Returns-bind
        (iot_jobs_connect_procedure round.connect round.accepts_get round.accepts_next
          s.app.device_info s.jobs.flash s.mqtt)
        _ _ _
        (iot_jobs_connect_procedure_refused round.connect round.accepts_get round.accepts_next
          s.app.device_info s.jobs.flash s.mqtt refused h.is_idle h.usable)
        (λ c k.
          let t : System = record s { mqtt = c.1 } in
          Returns-else c.0 _ _ (TriedPass n) (k.0) (
            Returns-bind (jobs_close round t) _
              (λ u. HasTried n (record u { connect_fail_count = u16 (u.connect_fail_count + 1) })) _
              (Returns-bind
                (iot_jobs_close_procedure round.ends round.disconnects s.app.device_info c.1) _ _ _
                (iot_jobs_close_procedure_empty round.ends round.disconnects s.app.device_info c.1
                  k.1.no_subscriptions h.usable)
                (λ m idle. record {
                  trying = record {
                    main_runs = h.main_runs;
                    jobs_run = h.jobs_run;
                    has_link = h.has_link;
                    has_address = h.has_address;
                    is_asked = h.is_asked;
                    is_off = refl;
                    is_idle = idle;
                    failures = omega (arith, h.failures);
                    usable = h.usable;
                  };
                  refresh = asked;
                }))
              (λ u l. l)))

  by_status_tried :
      (n : ℕ) (round : JobsRound) (s : System) (status : JobsStatus)
      → status ≡ jobs_disconnected
      → Returns (jobs_disconnected_pass rom layout json round s) (TriedPass n)
      → Returns
          (elim status as (λ _. Option Pass) [
            | jobs_connected ↦ jobs_connected_pass rom layout json round s
            | jobs_disconnected ↦ jobs_disconnected_pass rom layout json round s
          ])
          (TriedPass n)
  by_status_tried n round s jobs_connected e h = cc
  by_status_tried n round s jobs_disconnected e h = h

  round_tried :
      (n : ℕ) (round : JobsRound) (s : System)
      → n < 65535
      → round.connect.mqtt_connect ≡ false
      → IsTrying n s
      → Returns (aws_iot_jobs_round rom layout json round s) (TriedPass n)
  unfolding aws_iot_jobs_round jobs_pass
  round_tried n round s few refused h =
      let asked = ask_refresh_trying n s h in
      let s' : System = ask_refresh s in
      Returns-else (not (has_network s.app)) _ _ (TriedPass n) (ap not (trying_network n s h)) (
        Returns-else (not s.jobs_started) _ _ (TriedPass n) (ap not h.jobs_run) (
          Returns-else (not s'.app.is_run_aws_iot_jobs) _ _ (TriedPass n) (ap not asked.0.is_asked)
            (by_status_tried n round s' s'.app.aws_iot_jobs_status asked.0.is_off
              (disconnected_pass_tried n round s' few refused asked.0 asked.1))))

  -- Passes of the task for the jobs in a row.
  pub run_jobs : List JobsRound → System → Option Pass
  run_jobs [] s = some (going s)
  run_jobs (round ∷ rounds) s = aws_iot_jobs_round rom layout json round s >>= λ pass. elim pass [
    | going t ↦ run_jobs rounds t
    | restarted t ↦ some (restarted t)
  ]

  go_on :
      (n : ℕ) (pass : Pass) (f : System → Option Pass) (P : Pass → Type 0)
      → TriedPass n pass
      → ((t : System) → HasTried n t → Returns (f t) P)
      → Returns
          (elim pass as (λ _. Option Pass) [ going t ↦ f t | restarted t ↦ some (restarted t) ])
          P
  go_on n (going t) f P k h = h t k
  go_on n (restarted t) f P k h = absurd k

  run_jobs_tried :
      (n : ℕ) (round : JobsRound) (rounds : List JobsRound) (s : System)
      → IsTrying n s
      → All IsRefused (round ∷ rounds)
      → 5 < n + length rounds
      → n + length rounds < 65535
      → Returns (run_jobs (round ∷ rounds) s) AskedPass
  unfolding run_jobs
  run_jobs_tried n round [] s h refused many few =
      Returns-bind (aws_iot_jobs_round rom layout json round s) _ (TriedPass n) AskedPass
        (round_tried n round s (omega arith) (refused.0) h)
        (λ pass k.
          go_on n pass (λ t. some (going t)) AskedPass k
            (λ t tried. (
              tried.refresh (omega arith),
              tried.trying.main_runs,
              trying_network (suc n) t tried.trying,
            )))
  run_jobs_tried n round (round' ∷ rounds) s h refused many few =
      Returns-bind (aws_iot_jobs_round rom layout json round s) _ (TriedPass n) AskedPass
        (round_tried n round s (omega arith) (refused.0) h)
        (λ pass k. go_on n pass (run_jobs (round' ∷ rounds)) AskedPass k (λ t tried.
          run_jobs_tried (suc n) round' rounds t tried.trying refused.1 (omega arith)
            (omega arith)))

-- The next pass of the main task provisions the device anew.
module _ (rom : FlashRom) (cbor : Cbor) (claim : TlsContext) (pem : Pem) where
  abbrev pub Refreshes : MainRound → Pass → Type 0
  Refreshes round (going t) =
      main_app_round rom cbor claim pem round t ≡ refresh_cert rom cbor claim round t
  Refreshes round (restarted t) = ⊥

  asked-Refreshes : (round : MainRound) (pass : Pass) → AskedPass pass → Refreshes round pass
  unfolding main_app_round
  asked-Refreshes round (going t) h =
      if_else (not (has_network t.app)) _ _ (ap not (h.2))
      ∙ if_else (not t.main_started) _ _ (ap not (h.1))
      ∙ if_then t.app.enable_refresh_provisioned_cert _ _ (h.0)
  asked-Refreshes round (restarted t) h = h

  -- Both tasks have started and have the network, the one for the jobs is asked to run, is not connected and
  -- has not failed before, the connection is idle, and the device has a name that fits and an address that can
  -- be read. When the broker refuses the session in more than six, and fewer than 65535, passes in a row of
  -- the task for the jobs, then these passes return, and the next pass of the main task provisions the
  -- device anew.
  pub run_jobs-Refreshes :
      (layout : Layout) (json : Json) (rounds : List JobsRound) (round : MainRound) (s : System)
      → IsTrying 0 s
      → All IsRefused rounds
      → 6 < length rounds
      → length rounds < 65535
      → Returns (run_jobs rom layout json rounds s) (Refreshes round)
  run_jobs-Refreshes layout json [] round s h refused many few = absurd (omega arith)
  run_jobs-Refreshes layout json (first ∷ rounds) round s h refused many few =
      Returns-mono (run_jobs rom layout json (first ∷ rounds) s) AskedPass _
        (run_jobs_tried rom layout json 0 first rounds s h refused (omega arith) (omega arith))
        (λ pass k. asked-Refreshes round pass k)
