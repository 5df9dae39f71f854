-- ===== src/Tasks/Sessions.antt =====
-- What the provisioning and the connection for the jobs leave of the connection's state
-- (app/aws_iot/fleet_provisioning_handler.c, app/aws_iot/iot_jobs_handler.c).
use rp2040_wiznet_eaa_s_aws.Prelude.{
  ℕ, ◌≡◌, ◌⊎◌, refl, sym, ap, ◌∙◌, inl, inr, Bool, true, List, ◌++◌, Option, none, some, Mem,
  IfReturns, IfReturns-bind, IfReturns-mono, IfReturns-any, Bool-cases, ltb,
}
use rp2040_wiznet_eaa_s_aws.Prelude.Int.{negsuc}
use rp2040_wiznet_eaa_s_aws.Prelude.CStr.{c_str, sprintf}
use rp2040_wiznet_eaa_s_aws.Config.{DeviceInfo}
use rp2040_wiznet_eaa_s_aws.Flash.{load_flash_provisioned_cert_info}
use rp2040_wiznet_eaa_s_aws.Flash.Rom.{FlashRom}
use rp2040_wiznet_eaa_s_aws.Mqtt.{
  Mqtt, MqttState, mqtt_idle, mqtt_running, TlsContext, TopicFilter, local, topic_text,
  jobs_callback, provisioning_callback, connect_info_of, empty_mqtt_config, init_in,
  set_mqtt_event_callback, mqtt_transport_init, mqtt_transport_close,
}
use rp2040_wiznet_eaa_s_aws.Mqtt.Table.{store_subscription, end_scope, mqtt_transport_subscribe}
use rp2040_wiznet_eaa_s_aws.Mqtt.Connect.{ConnectAnswers, mqtt_transport_connect}
use rp2040_wiznet_eaa_s_aws.Mqtt.Session.{mqtt_transport_connect-Outcome, mqtt_transport_init_idle}
use rp2040_wiznet_eaa_s_aws.Jobs.Texts.{aws_things, get_accepted, start_next_accepted}
use rp2040_wiznet_eaa_s_aws.Jobs.Connect.{
  tls_context_of, iot_jobs_mqtt_connect, subscribe_local, iot_jobs_mqtt_subscribe_jobs_get_topic,
  iot_jobs_mqtt_unsubscribe_jobs_get_topic, iot_jobs_mqtt_unsubscribe_jobs_start_next_topic,
  iot_jobs_mqtt_subscribe_jobs_start_next_topic, iot_jobs_connect_procedure,
  iot_jobs_close_procedure, iot_jobs_mqtt_close,
}
use rp2040_wiznet_eaa_s_aws.Fleet.Parse.{Cbor}
use rp2040_wiznet_eaa_s_aws.Fleet.Events.{Fleet}
use rp2040_wiznet_eaa_s_aws.Fleet.Handle.{Phase, fleet_provisioning_handle}
use rp2040_wiznet_eaa_s_aws.Fleet.Handle.Closed.{fleet_provisioning_handle-IsReleased}

MqttState-cases : (state : MqttState) → (state ≡ mqtt_idle) ⊎ (state ≡ mqtt_running)
MqttState-cases mqtt_idle = inl refl
MqttState-cases mqtt_running = inr refl

-- With a session that runs nothing is initialized.
init_running :
    (clean_session : Bool) (client_id : Option (List ℕ)) (user_name password : Option (List ℕ))
    (keep_alive : ℕ) (m : Mqtt)
    → m.config.mqtt_state ≡ mqtt_running
    → mqtt_transport_init clean_session client_id user_name password keep_alive m ≡ (negsuc 0, m)
unfolding mqtt_transport_init
init_running clean_session client_id user_name password keep_alive m running =
    ap (λ state. init_in state clean_session client_id user_name password keep_alive m) running

-- A provisioning leaves the connection's state as it was.
pub fleet_provisioning_handle_state :
    (rom : FlashRom) (cbor : Cbor) (claim : TlsContext) (answers : ConnectAnswers)
    (create register : Phase) (device : DeviceInfo) (s : Fleet)
    → IfReturns
        (fleet_provisioning_handle rom cbor claim answers create register device s)
        (λ r. r.1.mqtt.config.mqtt_state ≡ s.mqtt.config.mqtt_state)
unfolding fleet_provisioning_handle set_mqtt_event_callback
fleet_provisioning_handle_state rom cbor claim answers create register device s =
    elim (MqttState-cases s.mqtt.config.mqtt_state) [
      | inl idle ↦
          IfReturns-mono (fleet_provisioning_handle rom cbor claim answers create register device s)
            _ _
            (fleet_provisioning_handle-IsReleased rom cbor claim answers create register device s
              idle)
            (λ r h. h.closed.idle ∙ sym idle)
      | inr running ↦
          IfReturns-bind (sprintf 50 (c_str device.thing_name)) _ (λ _. Unit) _
            (IfReturns-any (sprintf 50 (c_str device.thing_name)))
            (λ client_id u.
              rw
                (init_running true (some client_id) none none 30
                  (record s.mqtt { event_callback = some provisioning_callback }) running)
                refl)
    ]

-- Closing the connection leaves it idle.
pub iot_jobs_close_procedure_idle :
    (accepts : ℕ → Bool) (disconnects : Bool) (device : DeviceInfo) (m : Mqtt)
    → IfReturns
        (iot_jobs_close_procedure accepts disconnects device m)
        (λ m'. m'.config.mqtt_state ≡ mqtt_idle)
unfolding iot_jobs_close_procedure iot_jobs_mqtt_close mqtt_transport_close
iot_jobs_close_procedure_idle accepts disconnects device m =
    let name : List ℕ = device.thing_name in
    IfReturns-bind (iot_jobs_mqtt_unsubscribe_jobs_get_topic accepts name m) _ (λ _. Unit) _
      (IfReturns-any (iot_jobs_mqtt_unsubscribe_jobs_get_topic accepts name m))
      (λ g u.
        IfReturns-bind (iot_jobs_mqtt_unsubscribe_jobs_start_next_topic accepts name g.1) _
          (λ _. Unit) _
          (IfReturns-any (iot_jobs_mqtt_unsubscribe_jobs_start_next_topic accepts name g.1))
          (λ n v. refl))

subscribe_state :
    (accepts : Bool) (qos : ℕ) (topic : TopicFilter) (m : Mqtt)
    → IfReturns
        (mqtt_transport_subscribe accepts qos topic m)
        (λ r. r.1.config.mqtt_state ≡ m.config.mqtt_state)
unfolding mqtt_transport_subscribe store_subscription
subscribe_state accepts qos topic m = elim (Bool-cases (ltb 5 m.config.subscribe_count)) [
  | inl full ↦ rw full refl
  | inr q ↦ rw q (
      IfReturns-bind (topic_text topic) _ (λ _. Unit) _ (IfReturns-any (topic_text topic))
        (λ text u. elim (Bool-cases (ltb m.config.subscribe_count 5)) [
          | inr q' ↦ rw q' tt
          | inl p ↦
              rw p (elim (Bool-cases accepts) [ inl good ↦ rw good refl | inr bad ↦ rw bad refl ])
        ]))
]

subscribe_local_state :
    (accepts : Bool) (text : List ℕ) (m : Mqtt)
    → IfReturns (subscribe_local accepts text m) (λ r. r.1.config.mqtt_state ≡ m.config.mqtt_state)
unfolding subscribe_local end_scope
subscribe_local_state accepts text m =
    IfReturns-bind (sprintf 256 text) _ (λ _. Unit) _ (IfReturns-any (sprintf 256 text))
      (λ topic u.
        IfReturns-bind (mqtt_transport_subscribe accepts 1 (local topic) m) _ _ _
          (subscribe_state accepts 1 (local topic) m) (λ r h. h))

mqtt_connect_running :
    (answers : ConnectAnswers) (device : DeviceInfo) (flash : Mem) (m : Mqtt)
    → m.config.mqtt_state ≡ mqtt_idle
    → IfReturns
        (iot_jobs_mqtt_connect answers device flash m)
        (λ r. r.0 ≡ true → r.1.config.mqtt_state ≡ mqtt_running)
unfolding iot_jobs_mqtt_connect set_mqtt_event_callback
mqtt_connect_running answers device flash m idle =
    IfReturns-bind (sprintf 50 (c_str device.thing_name)) _ (λ _. Unit) _
      (IfReturns-any (sprintf 50 (c_str device.thing_name)))
      (λ client_id u.
        let begun : Mqtt = record m { event_callback = some jobs_callback } in
        let ready : Mqtt = record begun {
          config = record empty_mqtt_config {
            mqtt_connect_info = connect_info_of true client_id none none 30;
          };
        } in
        let tls : TlsContext = tls_context_of (load_flash_provisioned_cert_info flash) in
        rw (mqtt_transport_init_idle true client_id none none 30 begun idle) (
          IfReturns-bind (mqtt_transport_connect answers 1 true device.aws_end_point 8883 tls ready)
            _ _ _
            (mqtt_transport_connect-Outcome answers 1 8883 true tls device.aws_end_point ready refl)
            (λ r h. elim h [
              | inl opened ↦ rw (opened.0) (λ _. opened.1.running)
              | inr closed ↦ rw (closed.0) (λ e. cc)
            ])))

-- A connection for the jobs that is reported as good has a session that runs.
pub iot_jobs_connect_procedure_running :
    (answers : ConnectAnswers) (accepts_get accepts_next : Bool) (device : DeviceInfo) (flash : Mem)
    (m : Mqtt)
    → m.config.mqtt_state ≡ mqtt_idle
    → IfReturns
        (iot_jobs_connect_procedure answers accepts_get accepts_next device flash m)
        (λ r. r.0 ≡ true → r.1.config.mqtt_state ≡ mqtt_running)
unfolding iot_jobs_connect_procedure iot_jobs_mqtt_subscribe_jobs_get_topic
    iot_jobs_mqtt_subscribe_jobs_start_next_topic
iot_jobs_connect_procedure_running answers accepts_get accepts_next device flash m idle =
    let get_topic : List ℕ = aws_things ++ c_str device.thing_name ++ get_accepted in
    let next_topic : List ℕ = aws_things ++ c_str device.thing_name ++ start_next_accepted in
    IfReturns-bind (iot_jobs_mqtt_connect answers device flash m) _ _ _
      (mqtt_connect_running answers device flash m idle)
      (λ c h. elim (Bool-cases c.0) [
        | inr q ↦ rw q (λ e. cc)
        | inl p ↦ rw p (
            IfReturns-bind (subscribe_local accepts_get get_topic c.1) _ _ _
              (subscribe_local_state accepts_get get_topic c.1)
              (λ g k. elim (Bool-cases g.0) [
                | inr q ↦ rw q (λ e. cc)
                | inl p' ↦ rw p' (
                    IfReturns-mono (subscribe_local accepts_next next_topic g.1) _ _
                      (subscribe_local_state accepts_next next_topic g.1) (λ n l _. l ∙ k ∙ h p))
              ]))
      ])
