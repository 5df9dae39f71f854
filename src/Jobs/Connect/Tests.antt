-- ===== src/Jobs/Connect/Tests.antt =====
-- The connection for the jobs on a concrete device.
use rp2040_wiznet_eaa_s_aws.Prelude.{
  ◌≡◌, ◌⊎◌, refl, true, false, [], ◌∷◌, none, some, arith, Returns, Mem,
}
use rp2040_wiznet_eaa_s_aws.Prelude.Int.{pos}
use rp2040_wiznet_eaa_s_aws.Prelude.CStr.{c_str}
use rp2040_wiznet_eaa_s_aws.Device.{is_ipaddr}
use rp2040_wiznet_eaa_s_aws.Config.{DeviceInfo}
use rp2040_wiznet_eaa_s_aws.Mqtt.{Mqtt, empty_mqtt_config}
use rp2040_wiznet_eaa_s_aws.Mqtt.Connect.{ConnectAnswers}
use rp2040_wiznet_eaa_s_aws.Jobs.Connect.{iot_jobs_connect_procedure, iot_jobs_close_procedure}
use rp2040_wiznet_eaa_s_aws.Jobs.Connect.Ready.{
  IsUsable, IsReady, iot_jobs_connect_procedure-IsReady, iot_jobs_close_procedure_dangling,
}

abbrev pub test_device : DeviceInfo
test_device = record {
  eth_net_info = [];
  thing_name = b'd' ∷ b'1' ∷ 0 ∷ [];
  location = b'l' ∷ 0 ∷ [];
  manufacturer = b'm' ∷ 0 ∷ [];
  aws_end_point = b'1' ∷ b'0' ∷ b'.' ∷ b'0' ∷ b'.' ∷ b'0' ∷ b'.' ∷ b'1' ∷ 0 ∷ [];
  aws_template_name = b't' ∷ 0 ∷ [];
  cert_ownership_token = [];
}

pub test_device-IsUsable : IsUsable test_device
unfolding is_ipaddr c_str
test_device-IsUsable = record { fits = omega arith; address = tt }

abbrev pub test_answers : ConnectAnswers
test_answers = record {
  dns_answer = some (10 ∷ 0 ∷ 0 ∷ 1 ∷ []);
  socket_opens = true;
  connects = true;
  tls_set_up = record {
    crt_parse_root = pos 0;
    set_hostname = pos 0;
    crt_parse_client = pos 0;
    pk_parse_key = pos 0;
    config_defaults = pos 0;
    conf_own_cert = pos 0;
    ssl_setup = pos 0;
  };
  tls_socket_connect = pos 0;
  mqtt_init = true;
  mqtt_init_stateful_qos = true;
  mqtt_connect = true;
  disconnects = true;
}

abbrev pub idle_mqtt : Mqtt
idle_mqtt = record {
  config = empty_mqtt_config;
  event_callback = none;
  tls_context = none;
  tls_allocated = false;
  transport = none;
  effects = [];
}

abbrev test_flash : Mem
test_flash a = a

iot_jobs_connect_procedure-IsReady_example :
    Returns
      (iot_jobs_connect_procedure test_answers true true test_device test_flash idle_mqtt)
      (λ r. ((r.0 ≡ true) × IsReady test_device test_flash idle_mqtt r.1) ⊎ (r.0 ≡ false))
iot_jobs_connect_procedure-IsReady_example =
    iot_jobs_connect_procedure-IsReady test_answers true true test_device test_flash idle_mqtt refl
      test_device-IsUsable

iot_jobs_close_procedure_dangling_example :
    Returns
      (iot_jobs_connect_procedure test_answers true true test_device test_flash idle_mqtt)
      (λ r. (iot_jobs_close_procedure (λ i. true) true test_device r.1 ≡ none) ⊎ (r.0 ≡ false))
iot_jobs_close_procedure_dangling_example =
    iot_jobs_close_procedure_dangling test_answers true true (λ i. true) true test_device test_flash
      idle_mqtt refl test_device-IsUsable
