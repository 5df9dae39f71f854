-- ===== src/Tasks/Refused.antt =====
-- A connection for the jobs that the broker refuses (app/aws_iot/iot_jobs_handler.c).
use rp2040_wiznet_eaa_s_aws.Prelude.{
  ℕ, ◌<◌, ◌≡◌, refl, sym, subst, ap, ◌∙◌, inl, inr, Bool, true, false, List, ◌++◌, none, some,
  length, length-append, Mem, arith, Returns, Returns-mono, Returns-bind, Returns-both, IfReturns,
  IfReturns-bind, IfReturns-any, Bool-cases, ◌==◌,
}
use rp2040_wiznet_eaa_s_aws.Prelude.Int.{is_zero}
use rp2040_wiznet_eaa_s_aws.Prelude.CStr.{c_str, sprintf, sprintf_lem}
use rp2040_wiznet_eaa_s_aws.Device.{is_ipaddr}
use rp2040_wiznet_eaa_s_aws.Config.{DeviceInfo}
use rp2040_wiznet_eaa_s_aws.Flash.{load_flash_provisioned_cert_info}
use rp2040_wiznet_eaa_s_aws.Mqtt.{
  Mqtt, mqtt_idle, TlsContext, jobs_callback, connect_info_of, empty_mqtt_config,
  set_mqtt_event_callback, mqtt_transport_close,
}
use rp2040_wiznet_eaa_s_aws.Mqtt.Table.{mqtt_transport_unsubscribe}
use rp2040_wiznet_eaa_s_aws.Mqtt.Connect.{
  ConnectAnswers, find_broker, open_connection, open_session, connect_failed, connect_in,
  mqtt_transport_connect,
}
use rp2040_wiznet_eaa_s_aws.Mqtt.Session.{
  IsClosed, mqtt_transport_connect_total, mqtt_transport_init_idle,
}
use rp2040_wiznet_eaa_s_aws.Jobs.Texts.{aws_things, get_accepted, start_next_accepted}
use rp2040_wiznet_eaa_s_aws.Jobs.Connect.{
  tls_context_of, iot_jobs_mqtt_connect, unsubscribe_local,
  iot_jobs_mqtt_unsubscribe_jobs_get_topic, iot_jobs_mqtt_unsubscribe_jobs_start_next_topic,
  iot_jobs_mqtt_close, iot_jobs_connect_procedure, iot_jobs_close_procedure,
}
use rp2040_wiznet_eaa_s_aws.Jobs.Connect.Ready.{IsUsable}

-- The MQTT library does not get a session.
module _ (answers : ConnectAnswers) (refused : answers.mqtt_connect ≡ false) (sock port : ℕ)
    (ssl_flag : Bool) (tls : TlsContext) where
  open_session_refused : (m : Mqtt) → is_zero (open_session answers sock ssl_flag m).0 ≡ false
  unfolding open_session connect_failed
  open_session_refused m = elim (Bool-cases answers.mqtt_init) [
    | inr q ↦ rw q refl
    | inl p ↦ elim (Bool-cases answers.mqtt_init_stateful_qos) [
      | inr q ↦ rw (p, q) refl
      | inl p' ↦ rw (p, p', refused) refl
    ]
  ]

  idle_refused :
      (domain : List ℕ) (m : Mqtt)
      → IfReturns
          (connect_in answers sock ssl_flag mqtt_idle domain port tls m)
          (λ r. is_zero r.0 ≡ false)
  unfolding connect_in
  idle_refused domain m =
      let found = find_broker answers sock ssl_flag domain m in
      IfReturns-bind found _ (λ _. Unit) _ (IfReturns-any found)
        (λ r u. elim (Bool-cases (is_zero r.0)) [
          | inr q ↦ rw q q
          | inl p ↦
              elim (Bool-cases (is_zero (open_connection answers sock ssl_flag port tls r.1).0)) [
                | inr q ↦ rw (p, q) q
                | inl p' ↦
                    rw (p, p')
                      (open_session_refused (open_connection answers sock ssl_flag port tls r.1).1)
              ]
        ])

  mqtt_transport_connect_refused :
      (domain : List ℕ) (m : Mqtt)
      → m.config.mqtt_state ≡ mqtt_idle
      → Returns (is_ipaddr domain m.config.mqtt_ip) (λ _. Unit)
      → Returns
          (mqtt_transport_connect answers sock ssl_flag domain port tls m)
          (λ r. (is_zero r.0 ≡ false) × IsClosed r.1)
  unfolding mqtt_transport_connect
  mqtt_transport_connect_refused domain m idle total =
      let run = mqtt_transport_connect answers sock ssl_flag domain port tls m in
      Returns-mono run _ _
        (Returns-both run _ _
          (mqtt_transport_connect_total answers sock port ssl_flag tls domain m idle total)
          (subst
            (λ state.
              IfReturns (connect_in answers sock ssl_flag state domain port tls m)
                (λ r. is_zero r.0 ≡ false))
            (sym idle) (idle_refused domain m)))
        (λ r h. elim (h.0) [ inl opened ↦ cc | inr closed ↦ closed ])

-- A connection for the jobs that is refused leaves nothing behind.
pub iot_jobs_connect_procedure_refused :
    (answers : ConnectAnswers) (accepts_get accepts_next : Bool) (device : DeviceInfo) (flash : Mem)
    (m : Mqtt)
    → answers.mqtt_connect ≡ false
    → m.config.mqtt_state ≡ mqtt_idle
    → IsUsable device
    → Returns
        (iot_jobs_connect_procedure answers accepts_get accepts_next device flash m)
        (λ r. (r.0 ≡ false) × IsClosed r.1)
unfolding iot_jobs_connect_procedure iot_jobs_mqtt_connect mqtt_transport_close
    set_mqtt_event_callback
iot_jobs_connect_procedure_refused answers accepts_get accepts_next device flash m refused idle
      usable =
    let id : List ℕ = c_str device.thing_name in
    let tls : TlsContext = tls_context_of (load_flash_provisioned_cert_info flash) in
    let begun : Mqtt = record m { event_callback = some jobs_callback } in
    Returns-bind (iot_jobs_mqtt_connect answers device flash m) _
      (λ r. (r.0 ≡ false) × IsClosed r.1) _
      (Returns-bind (sprintf 50 id) _ _ _ (sprintf_lem 50 id usable.fits) (λ client_id e.
        let ready : Mqtt = record begun {
          config = record empty_mqtt_config {
            mqtt_connect_info = connect_info_of true client_id none none 30;
          };
        } in
        rw (mqtt_transport_init_idle true client_id none none 30 begun idle) (
          Returns-bind (mqtt_transport_connect answers 1 true device.aws_end_point 8883 tls ready) _
            _ _
            (mqtt_transport_connect_refused answers refused 1 8883 true tls device.aws_end_point
              ready refl usable.address)
            (λ r h. rw (h.0) (refl, record { idle = refl; no_subscriptions = refl })))))
      (λ c h. rw (h.0) (refl, h.1))

nothing_to_end :
    (accepts : ℕ → Bool) (text : List ℕ) (m : Mqtt)
    → m.config.subscribe_count ≡ 0
    → length text < 256
    → Returns (unsubscribe_local accepts text m) (λ r. r.1 ≡ m)
unfolding unsubscribe_local mqtt_transport_unsubscribe
nothing_to_end accepts text m empty fits =
    let no_loop : (m.config.subscribe_count == 0) ≡ true = ground arith in
    Returns-bind (sprintf 256 text) _ _ _ (sprintf_lem 256 text fits) (λ topic e. rw no_loop refl)

-- Without a subscription the connection is closed without a fault.
pub iot_jobs_close_procedure_empty :
    (accepts : ℕ → Bool) (disconnects : Bool) (device : DeviceInfo) (m : Mqtt)
    → m.config.subscribe_count ≡ 0
    → IsUsable device
    → Returns
        (iot_jobs_close_procedure accepts disconnects device m)
        (λ m'. m'.config.mqtt_state ≡ mqtt_idle)
unfolding iot_jobs_close_procedure iot_jobs_mqtt_unsubscribe_jobs_get_topic
    iot_jobs_mqtt_unsubscribe_jobs_start_next_topic iot_jobs_mqtt_close mqtt_transport_close
iot_jobs_close_procedure_empty accepts disconnects device m empty usable =
    let name : List ℕ = c_str device.thing_name in
    let get_topic : List ℕ = aws_things ++ name ++ get_accepted in
    let next_topic : List ℕ = aws_things ++ name ++ start_next_accepted in
    Returns-bind (unsubscribe_local accepts get_topic m) _ _ _
      (nothing_to_end accepts get_topic m empty
        (omega (arith, usable.fits, length-append name get_accepted)))
      (λ g e.
        Returns-bind (unsubscribe_local accepts next_topic g.1) _ _ _
          (nothing_to_end accepts next_topic g.1
            (ap (λ (x : Mqtt). x.config.subscribe_count) e ∙ empty)
            (omega (arith, usable.fits, length-append name start_next_accepted)))
          (λ n e'. refl))
