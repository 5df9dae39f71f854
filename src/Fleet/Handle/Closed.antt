-- ===== src/Fleet/Handle/Closed.antt =====
-- The connection behind a provisioning (app/aws_iot/fleet_provisioning_handler.c).
use rp2040_wiznet_eaa_s_aws.Prelude.{
  ℕ, ◌≡◌, refl, inl, inr, Bool, true, false, List, Option, none, some, IfReturns, IfReturns-bind,
  IfReturns-any, Bool-cases,
}
use rp2040_wiznet_eaa_s_aws.Prelude.Int.{ℤ, is_zero}
use rp2040_wiznet_eaa_s_aws.Prelude.CStr.{c_str, sprintf}
use rp2040_wiznet_eaa_s_aws.Config.{DeviceInfo}
use rp2040_wiznet_eaa_s_aws.Flash.Rom.{FlashRom}
use rp2040_wiznet_eaa_s_aws.Mqtt.{
  Mqtt, mqtt_idle, TlsContext, provisioning_callback, connect_info_of, empty_mqtt_config,
  set_mqtt_event_callback, mqtt_transport_close,
}
use rp2040_wiznet_eaa_s_aws.Mqtt.Connect.{ConnectAnswers, mqtt_transport_connect}
use rp2040_wiznet_eaa_s_aws.Mqtt.Session.{IsClosed, mqtt_transport_init_idle}
use rp2040_wiznet_eaa_s_aws.Fleet.Parse.{Cbor}
use rp2040_wiznet_eaa_s_aws.Fleet.Events.{Fleet}
use rp2040_wiznet_eaa_s_aws.Fleet.Handle.{
  Phase, close_fleet, process_create_cert_and_key, process_register_thing, provision_connected,
  fleet_provisioning_handle,
}

-- No session, no subscription, and no pointer to a TLS context.
pub record IsReleased (m : Mqtt) : Type 0 where
  pub closed : IsClosed m
  pub no_tls : m.tls_context ≡ none

close_fleet-IsReleased :
    (disconnects : Bool) (r : Bool × Fleet) → IsReleased (close_fleet disconnects r).1.mqtt
unfolding close_fleet mqtt_transport_close
close_fleet-IsReleased disconnects r = record {
  closed = record { idle = refl; no_subscriptions = refl };
  no_tls = refl;
}

module _ (rom : FlashRom) (cbor : Cbor) where
  provision_connected-IsReleased :
      (answers : ConnectAnswers) (create register : Phase) (device : DeviceInfo) (s : Fleet)
      → IfReturns
          (provision_connected rom cbor answers create register device s)
          (λ r. IsReleased r.1.mqtt)
  unfolding provision_connected
  provision_connected-IsReleased answers create register device s =
      IfReturns-bind (process_create_cert_and_key rom cbor create s) _ (λ _. Unit) _
        (IfReturns-any (process_create_cert_and_key rom cbor create s))
        (λ c _. elim (Bool-cases c.0) [
          | inr failed ↦ rw failed (close_fleet-IsReleased answers.disconnects (false, c.1))
          | inl good ↦ rw good (
              IfReturns-bind (process_register_thing rom cbor register device c.1) _ (λ _. Unit) _
                (IfReturns-any (process_register_thing rom cbor register device c.1))
                (λ r _. close_fleet-IsReleased answers.disconnects r))
        ])

  -- A provisioning from the idle state leaves such a connection.
  pub fleet_provisioning_handle-IsReleased :
      (claim : TlsContext) (answers : ConnectAnswers) (create register : Phase)
      (device : DeviceInfo) (s : Fleet)
      → s.mqtt.config.mqtt_state ≡ mqtt_idle
      → IfReturns
          (fleet_provisioning_handle rom cbor claim answers create register device s)
          (λ r. IsReleased r.1.mqtt)
  unfolding fleet_provisioning_handle set_mqtt_event_callback
  fleet_provisioning_handle-IsReleased claim answers create register device s idle =
      let id : List ℕ = c_str device.thing_name in
      let begun : Mqtt = record s.mqtt { event_callback = some provisioning_callback } in
      IfReturns-bind (sprintf 50 id) _ (λ _. Unit) _ (IfReturns-any (sprintf 50 id))
        (λ client_id _.
          let ready : Mqtt = record begun {
            config = record empty_mqtt_config {
              mqtt_connect_info = connect_info_of true client_id none none 30;
            };
          } in
          let connect : Option (ℤ × Mqtt) =
            mqtt_transport_connect answers 0 true device.aws_end_point 8883 claim ready in
          rw (mqtt_transport_init_idle true client_id none none 30 begun idle) (
            IfReturns-bind connect _ (λ _. Unit) _ (IfReturns-any connect)
              (λ c _.
                let t : Fleet = record s {
                  aws_template_name = some device.aws_template_name;
                  mqtt = c.1;
                  recved_create_key_and_cert = false;
                  recved_register_thing = false;
                } in
                elim (Bool-cases (is_zero c.0)) [
                  | inr bad ↦ rw bad (close_fleet-IsReleased answers.disconnects (false, t))
                  | inl good ↦
                      rw good (provision_connected-IsReleased answers create register device t)
                ])))
