-- ===== src/Jobs/Connect.antt =====
-- The connection for the jobs (app/aws_iot/iot_jobs_handler.c).
pub mod Ready
pub mod Subscribed
pub mod Tests
use rp2040_wiznet_eaa_s_aws.Prelude.{
  ℕ, ◌+◌, Bool, true, false, if◌then◌else◌, not, List, ◌++◌, Option, none, some, take, drop, Mem,
  ◌>>=◌,
}
use rp2040_wiznet_eaa_s_aws.Prelude.Int.{ℤ, is_zero}
use rp2040_wiznet_eaa_s_aws.Prelude.CStr.{c_str, sprintf}
use rp2040_wiznet_eaa_s_aws.Config.{DeviceInfo}
use rp2040_wiznet_eaa_s_aws.Flash.Layout.{max_pem_size}
use rp2040_wiznet_eaa_s_aws.Flash.{load_flash_provisioned_cert_info}
use rp2040_wiznet_eaa_s_aws.Mqtt.{
  Mqtt, TlsContext, local, jobs_callback, mqtt_keep_alive_s, set_mqtt_event_callback,
  mqtt_transport_init, mqtt_transport_close,
}
use rp2040_wiznet_eaa_s_aws.Mqtt.Table.{
  end_scope, mqtt_transport_subscribe, mqtt_transport_unsubscribe,
}
use rp2040_wiznet_eaa_s_aws.Mqtt.Connect.{ConnectAnswers, mqtt_transport_connect}
use rp2040_wiznet_eaa_s_aws.Jobs.Texts.{
  aws_things, jobs, get_accepted, start_next_accepted, update_accepted,
}
use rp2040_wiznet_eaa_s_aws.Jobs.Events.{max_mqtt_topic_size}

abbrev pub socket_mqtt_iot_jobs : ℕ
socket_mqtt_iot_jobs = 1

abbrev pub aws_mqtt_port : ℕ
aws_mqtt_port = 8883

abbrev pub max_mqtt_client_id_size : ℕ
max_mqtt_client_id_size = 50

-- The certificate and the key at the start of AWS_FP_DEVICE_CERT_INFO_t.
abbrev pub tls_context_of : List ℕ → TlsContext
tls_context_of cert_info = record {
  client_cert = take max_pem_size cert_info;
  private_key = take max_pem_size (drop max_pem_size cert_info);
}

-- The client's id stands in a buffer of the function.
unfoldable pub iot_jobs_mqtt_connect :
    ConnectAnswers → DeviceInfo → Mem → Mqtt → Option (Bool × Mqtt)
unfolding mqtt_transport_init mqtt_transport_connect mqtt_transport_close set_mqtt_event_callback
    load_flash_provisioned_cert_info sprintf c_str
iot_jobs_mqtt_connect answers device flash m =
    sprintf max_mqtt_client_id_size (c_str device.thing_name) >>= λ client_id.
    let ready =
      mqtt_transport_init true (some client_id) none none mqtt_keep_alive_s
        (set_mqtt_event_callback (some jobs_callback) m) in
    let connect =
      mqtt_transport_connect answers socket_mqtt_iot_jobs true device.aws_end_point aws_mqtt_port
        (tls_context_of (load_flash_provisioned_cert_info flash)) ready.1
      >>= λ r. some (
          if is_zero r.0
          then (true, r.1)
          else (false, (mqtt_transport_close answers.disconnects true r.1).1)) in
    if is_zero ready.0 then connect else some (false, ready.1)

unfoldable pub iot_jobs_mqtt_close : Bool → Mqtt → Bool × Mqtt
unfolding mqtt_transport_close
iot_jobs_mqtt_close disconnects m = (true, (mqtt_transport_close disconnects true m).1)

-- The topic is written into a buffer of the function, and the table keeps the pointer to it.
unfoldable pub subscribe_local : Bool → List ℕ → Mqtt → Option (Bool × Mqtt)
unfolding sprintf mqtt_transport_subscribe end_scope
subscribe_local accepts text m = sprintf max_mqtt_topic_size text >>= λ topic.
    mqtt_transport_subscribe accepts 1 (local topic) m >>= λ r. some (is_zero r.0, end_scope r.1)

unfoldable pub unsubscribe_local : (ℕ → Bool) → List ℕ → Mqtt → Option (Bool × Mqtt)
unfolding sprintf mqtt_transport_unsubscribe
unsubscribe_local accepts text m = sprintf max_mqtt_topic_size text >>= λ topic.
    mqtt_transport_unsubscribe accepts topic m >>= λ r. some (true, r.1)

unfoldable pub iot_jobs_mqtt_subscribe_jobs_get_topic : Bool → List ℕ → Mqtt → Option (Bool × Mqtt)
unfolding subscribe_local c_str
iot_jobs_mqtt_subscribe_jobs_get_topic accepts thing_name =
    subscribe_local accepts (aws_things ++ c_str thing_name ++ get_accepted)

unfoldable pub iot_jobs_mqtt_unsubscribe_jobs_get_topic :
    (ℕ → Bool) → List ℕ → Mqtt → Option (Bool × Mqtt)
unfolding unsubscribe_local c_str
iot_jobs_mqtt_unsubscribe_jobs_get_topic accepts thing_name =
    unsubscribe_local accepts (aws_things ++ c_str thing_name ++ get_accepted)

unfoldable pub iot_jobs_mqtt_subscribe_jobs_start_next_topic :
    Bool → List ℕ → Mqtt → Option (Bool × Mqtt)
unfolding subscribe_local c_str
iot_jobs_mqtt_subscribe_jobs_start_next_topic accepts thing_name =
    subscribe_local accepts (aws_things ++ c_str thing_name ++ start_next_accepted)

unfoldable pub iot_jobs_mqtt_unsubscribe_jobs_start_next_topic :
    (ℕ → Bool) → List ℕ → Mqtt → Option (Bool × Mqtt)
unfolding unsubscribe_local c_str
iot_jobs_mqtt_unsubscribe_jobs_start_next_topic accepts thing_name =
    unsubscribe_local accepts (aws_things ++ c_str thing_name ++ start_next_accepted)

unfoldable pub iot_jobs_mqtt_subscribe_jobs_update_topic :
    Bool → List ℕ → List ℕ → Mqtt → Option (Bool × Mqtt)
unfolding subscribe_local c_str
iot_jobs_mqtt_subscribe_jobs_update_topic accepts thing_name job_id =
    subscribe_local accepts
      (aws_things ++ c_str thing_name ++ jobs ++ c_str job_id ++ update_accepted)

-- The topic that is built is the one for the next job, which has no place for the job's id.
unfoldable pub iot_jobs_mqtt_unsubscribe_jobs_update_topic :
    (ℕ → Bool) → List ℕ → List ℕ → Mqtt → Option (Bool × Mqtt)
unfolding unsubscribe_local c_str
iot_jobs_mqtt_unsubscribe_jobs_update_topic accepts thing_name job_id =
    unsubscribe_local accepts (aws_things ++ c_str thing_name ++ start_next_accepted)

-- Whether the library accepts the two subscriptions is given.
unfoldable pub iot_jobs_connect_procedure :
    ConnectAnswers → Bool → Bool → DeviceInfo → Mem → Mqtt → Option (Bool × Mqtt)
unfolding iot_jobs_mqtt_connect iot_jobs_mqtt_subscribe_jobs_get_topic
    iot_jobs_mqtt_subscribe_jobs_start_next_topic
iot_jobs_connect_procedure answers accepts_get accepts_next device flash m =
    iot_jobs_mqtt_connect answers device flash m >>= λ c.
    let subscribe =
      iot_jobs_mqtt_subscribe_jobs_get_topic accepts_get device.thing_name c.1 >>= λ g.
      let next = iot_jobs_mqtt_subscribe_jobs_start_next_topic accepts_next device.thing_name g.1 in
      if g.0 then next else some (false, g.1) in
    if c.0 then subscribe else some (false, c.1)

unfoldable pub iot_jobs_close_procedure : (ℕ → Bool) → Bool → DeviceInfo → Mqtt → Option Mqtt
unfolding iot_jobs_mqtt_unsubscribe_jobs_get_topic iot_jobs_mqtt_unsubscribe_jobs_start_next_topic
    iot_jobs_mqtt_close
iot_jobs_close_procedure accepts disconnects device m =
    iot_jobs_mqtt_unsubscribe_jobs_get_topic accepts device.thing_name m >>= λ g.
    iot_jobs_mqtt_unsubscribe_jobs_start_next_topic accepts device.thing_name g.1 >>= λ n.
    some (iot_jobs_mqtt_close disconnects n.1).1
