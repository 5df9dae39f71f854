-- ===== src/Mqtt/Session/Opened.antt =====
-- A TLS connection whose every step succeeds (port/network_interface/mqtt_interface.c).
use rp2040_wiznet_eaa_s_aws.Prelude.{
  ℕ, ◌≡◌, inl, inr, refl, sym, subst, true, List, some, Returns, Returns-mono, Returns-bind,
  Returns-both, Bool-cases,
}
use rp2040_wiznet_eaa_s_aws.Prelude.Int.{is_zero}
use rp2040_wiznet_eaa_s_aws.Tls.{tls_socket_init}
use rp2040_wiznet_eaa_s_aws.Device.{is_ipaddr}
use rp2040_wiznet_eaa_s_aws.Mqtt.{Mqtt, mqtt_idle, TlsContext}
use rp2040_wiznet_eaa_s_aws.Mqtt.Connect.{
  ConnectAnswers, find_broker, open_connection, open_session, connect_in, mqtt_transport_connect,
}
use rp2040_wiznet_eaa_s_aws.Mqtt.Session.{IsOpen, mqtt_transport_connect-Outcome}

-- The name server knows the broker, and every call of the TLS and the MQTT library succeeds.
pub record IsAnswering (answers : ConnectAnswers) : Type 0 where
  pub ip : List ℕ
  pub is_known : answers.dns_answer ≡ some ip
  pub has_context : is_zero (tls_socket_init true true answers.tls_set_up) ≡ true
  pub has_link : is_zero answers.tls_socket_connect ≡ true
  pub has_library : answers.mqtt_init ≡ true
  pub has_records : answers.mqtt_init_stateful_qos ≡ true
  pub has_session : answers.mqtt_connect ≡ true

module _ (answers : ConnectAnswers) (sock port : ℕ) (tls : TlsContext) where
  broker_found :
      (domain : List ℕ) (m : Mqtt)
      → IsAnswering answers
      → Returns (is_ipaddr domain m.config.mqtt_ip) (λ _. Unit)
      → Returns (find_broker answers sock true domain m) (λ r. is_zero r.0 ≡ true)
  unfolding find_broker
  broker_found domain m answering total =
      Returns-bind (is_ipaddr domain m.config.mqtt_ip) _ (λ _. Unit) _ total
        (λ answer u. elim (Bool-cases answer.0) [
          | inl p ↦ rw p refl
          | inr q ↦ rw (q, answering.is_known) refl
        ])

  session_opened :
      (m : Mqtt)
      → IsAnswering answers
      → (is_zero (open_connection answers sock true port tls m).0 ≡ true)
        × (is_zero
              (open_session answers sock true (open_connection answers sock true port tls m).1).0
            ≡ true)
  unfolding open_connection open_session
  session_opened m answering =
      rw
        (
          answering.has_context, answering.has_link, answering.has_library, answering.has_records,
          answering.has_session,
        )
        (refl, refl)

  idle_opened :
      (domain : List ℕ) (m : Mqtt)
      → IsAnswering answers
      → Returns (is_ipaddr domain m.config.mqtt_ip) (λ _. Unit)
      → Returns (connect_in answers sock true mqtt_idle domain port tls m) (λ r. is_zero r.0 ≡ true)
  unfolding connect_in
  idle_opened domain m answering total =
      Returns-bind (find_broker answers sock true domain m) _ _ _
        (broker_found domain m answering total)
        (λ r h. let opened = session_opened r.1 answering in rw (h, opened.0) (opened.1))

  -- From the idle state such a connection gives 0 and a session.
  pub mqtt_transport_connect-IsOpen :
      (domain : List ℕ) (m : Mqtt)
      → m.config.mqtt_state ≡ mqtt_idle
      → IsAnswering answers
      → Returns (is_ipaddr domain m.config.mqtt_ip) (λ _. Unit)
      → Returns
          (mqtt_transport_connect answers sock true domain port tls m)
          (λ r. (is_zero r.0 ≡ true) × IsOpen sock port true tls m r.1)
  unfolding mqtt_transport_connect
  mqtt_transport_connect-IsOpen domain m idle answering total =
      Returns-mono (mqtt_transport_connect answers sock true domain port tls m) _ _
        (Returns-both (mqtt_transport_connect answers sock true domain port tls m)
          (λ r. is_zero r.0 ≡ true) _
          (subst
            (λ state.
              Returns (connect_in answers sock true state domain port tls m)
                (λ r. is_zero r.0 ≡ true))
            (sym idle) (idle_opened domain m answering total))
          (mqtt_transport_connect-Outcome answers sock port true tls domain m idle))
        (λ r h. elim h.1 [ inl open' ↦ open' | inr closed ↦ cc ])
