-- ===== src/Tasks/Reach.antt =====
-- The tasks together (app/main.c, app/tasks): their passes in any order.
use rp2040_wiznet_eaa_s_aws.Prelude.{◌≡◌, refl, some, IfReturns-elim}
use rp2040_wiznet_eaa_s_aws.Config.{Layout, AppCommon}
use rp2040_wiznet_eaa_s_aws.Flash.Rom.{FlashRom}
use rp2040_wiznet_eaa_s_aws.Mqtt.{TlsContext}
use rp2040_wiznet_eaa_s_aws.Jobs.Parse.{Json}
use rp2040_wiznet_eaa_s_aws.Jobs.Events.{JobsState}
use rp2040_wiznet_eaa_s_aws.Fleet.Parse.{Cbor}
use rp2040_wiznet_eaa_s_aws.Fleet.Events.{Fleet}
use rp2040_wiznet_eaa_s_aws.Tasks.{System, start_tasks}
use rp2040_wiznet_eaa_s_aws.Tasks.Idle.{IdleRound, idle_round}
use rp2040_wiznet_eaa_s_aws.Tasks.MainApp.{Pem, MainRound, main_app_round}
use rp2040_wiznet_eaa_s_aws.Tasks.AwsIotJobs.{JobsRound, going, aws_iot_jobs_round}
use rp2040_wiznet_eaa_s_aws.Tasks.Consistent.{
  IsConsistent, idle_round-IsConsistent, main_app_round-IsConsistent,
}
use rp2040_wiznet_eaa_s_aws.Tasks.Consistent.Jobs.{
  IsConsistentPass, aws_iot_jobs_round-IsConsistent,
}

-- One pass of one of the three tasks. A pass that restarts the device, or is a fault, leads nowhere; such a
-- fault is the end of a session that the task itself has connected, whose topics are gone.
module _ (rom : FlashRom) (layout : Layout) (json : Json) (cbor : Cbor) (claim : TlsContext)
    (pem : Pem) where
  pub data Step (s : System) : System → Type 0 where
    idle_step : (round : IdleRound) (t : System) → idle_round round s ≡ some t → Step s t
    main_step :
        (round : MainRound) (t : System)
        → main_app_round rom cbor claim pem round s ≡ some t
        → Step s t
    jobs_step :
        (round : JobsRound) (t : System)
        → aws_iot_jobs_round rom layout json round s ≡ some (going t)
        → Step s t

  pub data Reach (s : System) : System → Type 0 where
    here : Reach s s
    next : {t u : System} → Reach s t → Step t u → Reach s u

  Step-IsConsistent : {s t : System} → Step s t → IsConsistent s → IsConsistent t
  Step-IsConsistent {s} (idle_step round t e) old =
      IfReturns-elim (idle_round round s) IsConsistent t e (idle_round-IsConsistent round s old)
  Step-IsConsistent {s} (main_step round t e) old =
      IfReturns-elim (main_app_round rom cbor claim pem round s) IsConsistent t e
        (main_app_round-IsConsistent rom cbor claim pem round s old)
  Step-IsConsistent {s} (jobs_step round t e) old =
      IfReturns-elim (aws_iot_jobs_round rom layout json round s) IsConsistentPass (going t) e
        (aws_iot_jobs_round-IsConsistent rom layout json round s old)

  Reach-Step : (s t : System) → IsConsistent s → Reach s t → IsConsistent t
  Reach-Step s t old here = old
  Reach-Step s u old (next {t} reach step) = Step-IsConsistent step (Reach-Step s t old reach)

  -- A state is consistent when an address is held only while the link is up, and a session runs exactly
  -- when the task for the jobs has started and counts itself connected, and is idle otherwise. The state
  -- that `main` hands to the tasks is consistent; and from any consistent state, also one whose session
  -- can be closed, the passes of the tasks in any order that return lead to consistent states only.
  pub Reach-IsConsistent :
      (app : AppCommon) (jobs : JobsState) (fleet : Fleet) (s t : System)
      → IsConsistent s
      → Reach s t
      → IsConsistent (start_tasks app jobs fleet) × IsConsistent t
  unfolding start_tasks
  Reach-IsConsistent app jobs fleet s t old reach =
      (record { linked = λ e. cc; session = refl }, Reach-Step s t old reach)
