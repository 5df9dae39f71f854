-- ===== src/Tasks.antt =====
-- The tasks (app/tasks and app/main.c) over the variables that they share. A step of the model is one pass
-- of a task's loop.
pub mod DefaultDevice
pub mod Idle
pub mod MainApp
pub mod AwsIotJobs
pub mod Flags
pub mod Sessions
pub mod Consistent
pub mod Reach
pub mod Refused
pub mod Refresh
mod Tests
use rp2040_wiznet_eaa_s_aws.Prelude.{ℕ, Bool, false, ◌&&◌, [], none}
use rp2040_wiznet_eaa_s_aws.Config.{AppCommon}
use rp2040_wiznet_eaa_s_aws.Mqtt.{Mqtt, empty_mqtt_config}
use rp2040_wiznet_eaa_s_aws.Jobs.Events.{JobsState}
use rp2040_wiznet_eaa_s_aws.Fleet.Events.{Fleet}

-- `appCommon`, the variables of the handlers and of the connection, and those of the tasks that last from
-- one pass to the next. The connection and the flash are the ones of `mqtt` and `jobs`; `fleet` gets them
-- when the provisioning runs. A task waits for the network before its loop.
pub record System : Type 0 where
  pub app : AppCommon
  pub jobs : JobsState
  pub mqtt : Mqtt
  pub fleet : Fleet
  pub main_started : Bool
  pub jobs_started : Bool
  pub connect_fail_count : ℕ
  pub start_get_job_ms : ℕ
  pub start_job_document_ms : ℕ
  pub refresh_dhcp_ms : ℕ

abbrev pub has_network : AppCommon → Bool
has_network app = app.is_wiz_chip_link_up && app.is_dhcp_done

-- clearAppFlags.
unfoldable pub clear_app_flags : AppCommon → AppCommon
clear_app_flags app = record app {
  is_dhcp_done = false;
  is_run_aws_iot_jobs = false;
  is_valid_claim_cert_info = false;
  is_valid_provisioned_cert_info = false;
  is_wiz_chip_link_up = false;
}

-- What `main` hands to the tasks: the configuration that it has loaded or filled in, with its flags cleared,
-- and the variables as the program starts with them.
unfoldable pub start_tasks : AppCommon → JobsState → Fleet → System
unfolding clear_app_flags
start_tasks app' jobs' fleet' = record {
  app = clear_app_flags app';
  jobs = jobs';
  mqtt = record {
    config = empty_mqtt_config;
    event_callback = none;
    tls_context = none;
    tls_allocated = false;
    transport = none;
    effects = [];
  };
  fleet = fleet';
  main_started = false;
  jobs_started = false;
  connect_fail_count = 0;
  start_get_job_ms = 0;
  start_job_document_ms = 0;
  refresh_dhcp_ms = 0;
}
