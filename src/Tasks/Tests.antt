-- ===== src/Tasks/Tests.antt =====
-- The tasks on a concrete device.
use rp2040_wiznet_eaa_s_aws.Prelude.{
  ◌≡◌, refl, true, false, List, [], ◌∷◌, some, none, arith, Returns,
}
use rp2040_wiznet_eaa_s_aws.Prelude.Int.{pos}
use rp2040_wiznet_eaa_s_aws.Config.{simple_layout, AppCommon, jobs_connected, jobs_disconnected}
use rp2040_wiznet_eaa_s_aws.Ethernet.{dhcp_ip_leased}
use rp2040_wiznet_eaa_s_aws.Flash.Rom.{simple_rom}
use rp2040_wiznet_eaa_s_aws.Http.{empty_http_config}
use rp2040_wiznet_eaa_s_aws.Mqtt.{TlsContext, mqtt_running}
use rp2040_wiznet_eaa_s_aws.Jobs.JobList.{no_jobs}
use rp2040_wiznet_eaa_s_aws.Jobs.Parse.{Json}
use rp2040_wiznet_eaa_s_aws.Jobs.Ota.{http_success}
use rp2040_wiznet_eaa_s_aws.Jobs.Events.{JobsState, empty_execution}
use rp2040_wiznet_eaa_s_aws.Jobs.Handler.{Answer}
use rp2040_wiznet_eaa_s_aws.Jobs.Connect.Tests.{
  test_device, test_device-IsUsable, test_answers, idle_mqtt,
}
use rp2040_wiznet_eaa_s_aws.Fleet.Parse.{Cbor, empty_cert_info}
use rp2040_wiznet_eaa_s_aws.Fleet.Events.{Fleet}
use rp2040_wiznet_eaa_s_aws.Fleet.Handle.{Phase}
use rp2040_wiznet_eaa_s_aws.Tasks.{System, start_tasks}
use rp2040_wiznet_eaa_s_aws.Tasks.Idle.{IdleRound, idle_round}
use rp2040_wiznet_eaa_s_aws.Tasks.MainApp.{Pem, MainRound}
use rp2040_wiznet_eaa_s_aws.Tasks.AwsIotJobs.{JobsRound, going, aws_iot_jobs_round}
use rp2040_wiznet_eaa_s_aws.Tasks.Consistent.{IsConsistent}
use rp2040_wiznet_eaa_s_aws.Tasks.Reach.{here, next, jobs_step, Reach-IsConsistent}
use rp2040_wiznet_eaa_s_aws.Tasks.Refresh.{IsTrying, run_jobs, Refreshes, run_jobs-Refreshes}

abbrev test_cbor : Cbor
test_cbor = record {
  cbor_parser_init = λ payload. true;
  cbor_value_is_map = λ payload. true;
  cbor_value_map_find_value = λ payload key. true;
  cbor_value_copy_text_string = λ payload key buffer. (true, buffer);
}

abbrev test_json : Json
test_json = record { json_validate = λ payload. true; json_search = λ payload query. none }

abbrev test_pem : Pem
test_pem = record { mbedtls_x509_crt_parse = λ text. true; mbedtls_pk_parse_key = λ text. true }

abbrev claim : TlsContext
claim = record { client_cert = 1 ∷ []; private_key = 2 ∷ [] }

abbrev test_app : AppCommon
test_app = record {
  device_info = test_device;
  device_ota_info = record { start_firmware_ota_status = 0; firmware_size = 0; firmware_crc = 0 };
  aws_iot_jobs_status = jobs_disconnected;
  is_wiz_chip_link_up = true;
  is_dhcp_done = true;
  is_valid_claim_cert_info = false;
  is_valid_provisioned_cert_info = true;
  enable_refresh_provisioned_cert = false;
  is_run_aws_iot_jobs = true;
  enable_reboot = false;
}

abbrev test_jobs : JobsState
test_jobs = record {
  job_id_list = no_jobs;
  execution = empty_execution;
  process_log = [];
  thing_name_for_event_callback = none;
  has_job_id_for_event_callback = false;
  recved_get_job = false;
  recved_start_next_job = false;
  recved_job_update = false;
  http_config = empty_http_config;
  flash = λ a. 0xff;
  published = [];
}

abbrev test_fleet : Fleet
test_fleet = record {
  mqtt = idle_mqtt;
  flash = λ a. 0xff;
  aws_template_name = none;
  temp_ownership_token = [];
  pub_msg_buf = [];
  cert_info = empty_cert_info;
  recved_create_key_and_cert = false;
  recved_register_thing = false;
}

-- The cable is plugged in and the device gets an address.
abbrev first_pass : IdleRound
first_pass = record {
  now = 100;
  phy_link = true;
  lease_time_s = 3600;
  dhcp = record {
    is_dynamic = true;
    start = 110;
    rounds = record { is_linked = true; now = 210; result = dhcp_ip_leased } ∷ [];
    net_info = 192 ∷ 168 ∷ 0 ∷ 7 ∷ [];
  };
  behind = 300;
}

abbrev started : System
started = start_tasks test_app test_jobs test_fleet

abbrev with_address : System
with_address = record started {
  app = record started.app {
    device_info = record test_device { eth_net_info = 192 ∷ 168 ∷ 0 ∷ 7 ∷ [] };
    is_wiz_chip_link_up = true;
    is_dhcp_done = true;
  };
  refresh_dhcp_ms = 300;
}

runs : idle_round first_pass started ≡ some with_address
unfolding start_tasks idle_round
runs = refl

-- The task for the jobs, asked to run.
abbrev trying : System
trying = record {
  app = test_app;
  jobs = test_jobs;
  mqtt = idle_mqtt;
  fleet = test_fleet;
  main_started = true;
  jobs_started = true;
  connect_fail_count = 0;
  start_get_job_ms = 0;
  start_job_document_ms = 0;
  refresh_dhcp_ms = 0;
}

trying-IsTrying : IsTrying 0 trying
trying-IsTrying = record {
  main_runs = refl;
  jobs_run = refl;
  has_link = refl;
  has_address = refl;
  is_asked = refl;
  is_off = refl;
  is_idle = refl;
  failures = refl;
  usable = test_device-IsUsable;
}

abbrev no_answer : Answer
no_answer = record { is_sent = false; start = 0; rounds = [] }

-- The broker refuses the session.
abbrev refused : JobsRound
refused = record {
  connect = record test_answers { mqtt_connect = false };
  accepts_get = true;
  accepts_next = true;
  ends = λ i. true;
  disconnects = true;
  connected_ms = 0;
  connected_ms' = 0;
  now = 0;
  get_ms = 0;
  get = no_answer;
  network = record {
    dns_answer = none;
    socket_opens = false;
    connects = false;
    tls_connects = false;
    http_network_error = pos 2;
  };
  exchange = record {
    initialized = http_success;
    added_content_type = http_success;
    added_connection = http_success;
    sent = http_success;
    body = [];
    content_length = 0;
    received = [];
  };
  job = record { start_next = no_answer; update_status = no_answer };
}

-- A session without a subscription runs, and the task is told to stop: it closes the session.
abbrev stopping : System
stopping = record trying {
  app = record test_app { is_run_aws_iot_jobs = false; aws_iot_jobs_status = jobs_connected };
  mqtt = record idle_mqtt { config = record idle_mqtt.config { mqtt_state = mqtt_running } };
}

abbrev stopped : System
stopped = record stopping {
  app = record stopping.app { aws_iot_jobs_status = jobs_disconnected };
  mqtt = idle_mqtt;
}

closes :
    aws_iot_jobs_round simple_rom simple_layout test_json refused stopping ≡ some (going stopped)
unfolding aws_iot_jobs_round
closes = refl

Reach-IsConsistent_example :
    IsConsistent (start_tasks test_app test_jobs test_fleet) × IsConsistent stopped
Reach-IsConsistent_example =
    Reach-IsConsistent simple_rom simple_layout test_json test_cbor claim test_pem test_app
      test_jobs test_fleet stopping stopped (record { linked = λ e. refl; session = refl })
      (next here (jobs_step refused stopped closes))

abbrev no_phase : Phase
no_phase = record {
  accepts_first = false;
  accepts_second = false;
  is_sent = false;
  ends_first = λ i. true;
  ends_second = λ i. true;
  start = 0;
  rounds = [];
}

abbrev main_pass : MainRound
main_pass = record { connect = test_answers; create = no_phase; register = no_phase }

abbrev seven : List JobsRound
seven = refused ∷ refused ∷ refused ∷ refused ∷ refused ∷ refused ∷ refused ∷ []

run_jobs-Refreshes_example :
    Returns
      (run_jobs simple_rom simple_layout test_json seven trying)
      (Refreshes simple_rom test_cbor claim test_pem main_pass)
run_jobs-Refreshes_example =
    run_jobs-Refreshes simple_rom test_cbor claim test_pem simple_layout test_json seven main_pass
      trying trying-IsTrying (refl, (refl, (refl, (refl, (refl, (refl, (refl, tt)))))))
      (omega arith) (omega arith)
