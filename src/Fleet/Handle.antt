-- ===== src/Fleet/Handle.antt =====
-- The run of the provisioning (app/aws_iot/fleet_provisioning_handler.c). What the MQTT library answers,
-- and what the two waits see, is given in advance.
pub mod Closed
pub mod Created
pub mod Freed
pub mod Linked
pub mod Provisioned
pub mod Quiet
pub mod Refused
pub mod Success
pub mod TlsKept
use rp2040_wiznet_eaa_s_aws.Prelude.{
  ℕ, Bool, true, false, if◌then◌else◌, List, ◌++◌, Option, none, some, length, ◌>>=◌,
}
use rp2040_wiznet_eaa_s_aws.Prelude.Int.{ℤ, is_zero}
use rp2040_wiznet_eaa_s_aws.Prelude.CStr.{c_str, copy_terminated, sprintf}
use rp2040_wiznet_eaa_s_aws.Config.{DeviceInfo}
use rp2040_wiznet_eaa_s_aws.Flash.Rom.{FlashRom}
use rp2040_wiznet_eaa_s_aws.Mqtt.{
  Mqtt, TopicFilter, constant, local, TlsContext, provisioning_callback, mqtt_keep_alive_s,
  set_mqtt_event_callback, mqtt_transport_init, mqtt_transport_close, mqtt_transport_publish,
}
use rp2040_wiznet_eaa_s_aws.Mqtt.Table.{
  end_scope, mqtt_transport_subscribe, mqtt_transport_unsubscribe,
}
use rp2040_wiznet_eaa_s_aws.Mqtt.Connect.{ConnectAnswers, mqtt_transport_connect}
use rp2040_wiznet_eaa_s_aws.Jobs.Connect.{aws_mqtt_port, max_mqtt_client_id_size}
use rp2040_wiznet_eaa_s_aws.Jobs.Events.{Round, max_mqtt_topic_size}
use rp2040_wiznet_eaa_s_aws.Fleet.Texts.{
  create_accepted, create_rejected, create_key_and_cert, provision_accepted, provision_rejected,
  provision, register_token, register_serial, register_location, register_manufacturer,
  register_end,
}
use rp2040_wiznet_eaa_s_aws.Fleet.Parse.{Cbor}
use rp2040_wiznet_eaa_s_aws.Fleet.Events.{
  Fleet, template_topic, wait_recv_create_cert_and_key_accept_msg, wait_register_thing_accept_msg,
}

abbrev pub socket_mqtt_fleet_provisioning : ℕ
socket_mqtt_fleet_provisioning = 0

-- One exchange: whether the library accepts the two subscriptions and sends the message, whether it
-- accepts the two ends of a subscription, for each slot, the clock when the wait starts, and its rounds.
pub record Phase : Type 0 where
  pub accepts_first : Bool
  pub accepts_second : Bool
  pub is_sent : Bool
  pub ends_first : ℕ → Bool
  pub ends_second : ℕ → Bool
  pub start : ℕ
  pub rounds : List Round

-- An operation of the connection, on the variables as a whole.
abbrev pub on_mqtt : (Mqtt → Option (ℤ × Mqtt)) → Fleet → Option (ℤ × Fleet)
on_mqtt operation s = operation s.mqtt >>= λ r. some (r.0, record s { mqtt = r.1 })

-- Both topics are given up, whether the answer came or not.
unfoldable pub end_both : Phase → List ℕ → List ℕ → Bool × Fleet → Option (Bool × Fleet)
unfolding mqtt_transport_unsubscribe
end_both phase first second waited =
    on_mqtt (mqtt_transport_unsubscribe phase.ends_first first) waited.1 >>= λ u.
    on_mqtt (mqtt_transport_unsubscribe phase.ends_second second) u.1 >>= λ v. some (waited.0, v.1)

-- A message is sent, whatever the library says.
unfoldable pub send_message : Phase → List ℕ → Fleet → Fleet
unfolding mqtt_transport_publish c_str
send_message phase topic s = record s {
  mqtt = (mqtt_transport_publish phase.is_sent topic (c_str s.pub_msg_buf) s.mqtt).1;
}

-- The text of the request.
unfoldable pub register_message : DeviceInfo → List ℕ → List ℕ
unfolding c_str
register_message device token =
    register_token
    ++ (c_str token
        ++ (register_serial
            ++ (c_str device.thing_name
                ++ (register_location
                    ++ (c_str device.location
                        ++ (register_manufacturer
                            ++ (c_str device.manufacturer ++ register_end)))))))

-- The end of the connection, on every branch behind it.
unfoldable pub close_fleet : Bool → Bool × Fleet → Bool × Fleet
unfolding mqtt_transport_close
close_fleet disconnects r =
    (r.0, record r.1 { mqtt = (mqtt_transport_close disconnects true r.1.mqtt).1 })

module _ (rom : FlashRom) (cbor : Cbor) where
  unfoldable pub process_create_cert_and_key : Phase → Fleet → Option (Bool × Fleet)
  unfolding mqtt_transport_subscribe mqtt_transport_unsubscribe send_message end_both
      wait_recv_create_cert_and_key_accept_msg
  process_create_cert_and_key phase s =
      on_mqtt (mqtt_transport_subscribe phase.accepts_first 1 (constant create_accepted)) s >>= λ a.
      let second =
        on_mqtt (mqtt_transport_subscribe phase.accepts_second 1 (constant create_rejected)) a.1
        >>= λ b.
            let undo =
              on_mqtt (mqtt_transport_unsubscribe phase.ends_first create_accepted) b.1 >>= λ u.
              some (false, u.1) in
            let exchange =
              wait_recv_create_cert_and_key_accept_msg rom cbor 5000 phase.start phase.rounds
                (send_message phase create_key_and_cert b.1)
              >>= end_both phase create_accepted create_rejected in
            if is_zero b.0 then exchange else undo in
      if is_zero a.0 then second else some (false, a.1)

  -- The request behind the two subscriptions: `sprintf` of the topic and of the message.
  unfoldable pub register_exchange :
      Phase → DeviceInfo → List ℕ → List ℕ → Fleet → Option (Bool × Fleet)
  unfolding sprintf c_str copy_terminated send_message end_both wait_register_thing_accept_msg
      register_message
  register_exchange phase device accepted rejected s =
      sprintf max_mqtt_topic_size (template_topic (some device.aws_template_name) provision)
      >>= λ topic.
          let message = register_message device s.temp_ownership_token in
          copy_terminated s.pub_msg_buf message (length message) >>= λ buffer.
          wait_register_thing_accept_msg rom cbor 5000 phase.start phase.rounds
            (send_message phase topic (record s { pub_msg_buf = buffer }))
          >>= end_both phase accepted rejected

  -- The two topics stand in buffers of the function.
  unfoldable pub register_in_scope : Phase → DeviceInfo → Fleet → Option (Bool × Fleet)
  unfolding sprintf c_str mqtt_transport_subscribe mqtt_transport_unsubscribe register_exchange
  register_in_scope phase device s =
      sprintf max_mqtt_topic_size
        (template_topic (some device.aws_template_name) provision_accepted)
      >>= λ accepted.
          on_mqtt (mqtt_transport_subscribe phase.accepts_first 1 (local accepted)) s >>= λ a.
          let second =
            sprintf max_mqtt_topic_size
              (template_topic (some device.aws_template_name) provision_rejected)
            >>= λ rejected.
                on_mqtt (mqtt_transport_subscribe phase.accepts_second 1 (local rejected)) a.1
                >>= λ b.
                    let undo =
                      on_mqtt (mqtt_transport_unsubscribe phase.ends_first accepted) b.1 >>= λ u.
                      some (false, u.1) in
                    let exchange = register_exchange phase device accepted rejected b.1 in
                    if is_zero b.0 then exchange else undo in
          if is_zero a.0 then second else some (false, a.1)

  unfoldable pub process_register_thing : Phase → DeviceInfo → Fleet → Option (Bool × Fleet)
  unfolding register_in_scope end_scope
  process_register_thing phase device s =
      register_in_scope phase device s >>= λ r. some (r.0, record r.1 { mqtt = end_scope r.1.mqtt })

  -- Behind the connection.
  unfoldable pub provision_connected :
      ConnectAnswers → Phase → Phase → DeviceInfo → Fleet → Option (Bool × Fleet)
  unfolding process_create_cert_and_key process_register_thing close_fleet
  provision_connected answers create register device s =
      process_create_cert_and_key create s >>= λ c.
      let go = process_register_thing register device c.1 >>= λ r.
      some (close_fleet answers.disconnects r) in
      if c.0 then go else some (close_fleet answers.disconnects (false, c.1))

  -- `claim` are the certificate and the key that are built in.
  unfoldable pub fleet_provisioning_handle :
      TlsContext → ConnectAnswers → Phase → Phase → DeviceInfo → Fleet → Option (Bool × Fleet)
  unfolding sprintf c_str set_mqtt_event_callback mqtt_transport_init mqtt_transport_connect
      close_fleet provision_connected
  fleet_provisioning_handle claim answers create register device s =
      let s' : Fleet = record s {
        aws_template_name = some device.aws_template_name;
        mqtt = set_mqtt_event_callback (some provisioning_callback) s.mqtt;
        recved_create_key_and_cert = false;
        recved_register_thing = false;
      } in
      sprintf max_mqtt_client_id_size (c_str device.thing_name) >>= λ client_id.
      let ready = mqtt_transport_init true (some client_id) none none mqtt_keep_alive_s s'.mqtt in
      let connect =
        mqtt_transport_connect answers socket_mqtt_fleet_provisioning true device.aws_end_point
          aws_mqtt_port claim ready.1
        >>= λ c.
            let t : Fleet = record s' { mqtt = c.1 } in
            let go = provision_connected answers create register device t in
            if is_zero c.0 then go else some (close_fleet answers.disconnects (false, t)) in
      if is_zero ready.0 then connect else some (false, record s' { mqtt = ready.1 })
