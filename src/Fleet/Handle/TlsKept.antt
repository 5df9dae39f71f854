-- ===== src/Fleet/Handle/TlsKept.antt =====
-- The two exchanges of a provisioning keep the pointer to the TLS context
-- (app/aws_iot/fleet_provisioning_handler.c).
use rp2040_wiznet_eaa_s_aws.Prelude.{
  ℕ, ◌≡◌, ◌∙◌, Bool, false, ltb, if◌then◌else◌, List, [], ◌∷◌, Option, some, length, ◌>>=◌,
  IfReturns, IfReturns-bind, IfReturns-any, IfReturns-if,
}
use rp2040_wiznet_eaa_s_aws.Prelude.Word.{sub32}
use rp2040_wiznet_eaa_s_aws.Prelude.Int.{is_zero}
use rp2040_wiznet_eaa_s_aws.Prelude.CStr.{c_str, sprintf, copy_terminated}
use rp2040_wiznet_eaa_s_aws.Config.{DeviceInfo}
use rp2040_wiznet_eaa_s_aws.Flash.Rom.{FlashRom}
use rp2040_wiznet_eaa_s_aws.Mqtt.{TlsContext, TopicFilter, constant, local}
use rp2040_wiznet_eaa_s_aws.Mqtt.Table.{
  end_scope, mqtt_transport_subscribe, mqtt_transport_unsubscribe,
}
use rp2040_wiznet_eaa_s_aws.Jobs.Events.{Packet, publish, other_packet, Round}
use rp2040_wiznet_eaa_s_aws.Fleet.Texts.{
  provision_accepted, provision_rejected, provision, create_key_and_cert, create_accepted,
  create_rejected,
}
use rp2040_wiznet_eaa_s_aws.Fleet.Parse.{Cbor}
use rp2040_wiznet_eaa_s_aws.Fleet.Events.{
  Fleet, begins_with, template_topic, on_create_accepted, on_register_accepted, on_template_topic,
  fleet_provisioning_event_callback, mqtt_transport_yield, wait_accepted,
  wait_recv_create_cert_and_key_accept_msg, wait_register_thing_accept_msg,
}
use rp2040_wiznet_eaa_s_aws.Fleet.Handle.{
  Phase, on_mqtt, end_both, send_message, process_create_cert_and_key, register_exchange,
  register_message, register_in_scope, process_register_thing,
}
use rp2040_wiznet_eaa_s_aws.Mqtt.TlsKept.{subscribe_keeps, unsubscribe_keeps, publish_keeps}

module _ (rom : FlashRom) (cbor : Cbor) (tls : Option TlsContext) where
  -- The pointer is the given one.
  abbrev P : Fleet → Type 0
  P s = s.mqtt.tls_context ≡ tls

  on_subscribe :
      (accepts : Bool) (topic : TopicFilter) (s : Fleet)
      → P s
      → IfReturns (on_mqtt (mqtt_transport_subscribe accepts 1 topic) s) (λ r. P r.1)
  on_subscribe accepts topic s p =
      IfReturns-bind (mqtt_transport_subscribe accepts 1 topic s.mqtt) _ _ _
        (subscribe_keeps accepts 1 topic s.mqtt) (λ r h. h ∙ p)

  on_unsubscribe :
      (accepts : ℕ → Bool) (topic : List ℕ) (s : Fleet)
      → P s
      → IfReturns (on_mqtt (mqtt_transport_unsubscribe accepts topic) s) (λ r. P r.1)
  on_unsubscribe accepts topic s p =
      IfReturns-bind (mqtt_transport_unsubscribe accepts topic s.mqtt) _ _ _
        (unsubscribe_keeps accepts topic s.mqtt) (λ r h. h ∙ p)

  callback_keeps :
      (packet : Packet) (s : Fleet)
      → P s
      → IfReturns (fleet_provisioning_event_callback rom cbor packet s) P
  unfolding fleet_provisioning_event_callback on_create_accepted on_template_topic
      on_register_accepted
  callback_keeps other_packet s p = p
  callback_keeps (publish topic payload) s p =
      let accepted = sprintf 256 (template_topic s.aws_template_name provision_accepted) in
      let rejected = sprintf 256 (template_topic s.aws_template_name provision_rejected) in
      IfReturns-if (begins_with topic create_accepted) _ _ P (λ _. p)
        (λ _.
          IfReturns-if (begins_with topic create_rejected) _ _ P (λ _. p)
            (λ _.
              IfReturns-bind accepted _ (λ _. Unit) P (IfReturns-any accepted)
                (λ text u.
                  IfReturns-if (begins_with topic text) _ _ P (λ _. p)
                    (λ _.
                      IfReturns-bind rejected _ (λ _. Unit) P (IfReturns-any rejected)
                        (λ text' u'. p)))))

  yield_keeps :
      (packets : List Packet) (s : Fleet)
      → P s
      → IfReturns (mqtt_transport_yield rom cbor packets s) P
  unfolding mqtt_transport_yield
  yield_keeps [] s p = p
  yield_keeps (packet ∷ packets) s p =
      IfReturns-bind (fleet_provisioning_event_callback rom cbor packet s) _ P P
        (callback_keeps packet s p) (λ s' p'. yield_keeps packets s' p')

  wait_keeps :
      (recved : Fleet → Bool) (clear : Fleet → Fleet) (timeout_ms start : ℕ) (rounds : List Round)
      (s : Fleet)
      → ((t : Fleet) → P t → P (clear t))
      → P s
      → IfReturns (wait_accepted rom cbor recved clear timeout_ms start rounds s) (λ r. P r.1)
  unfolding wait_accepted
  wait_keeps recved clear timeout_ms start [] s keeps p = tt
  wait_keeps recved clear timeout_ms start (round ∷ rounds) s keeps p =
      IfReturns-if (ltb timeout_ms (sub32 round.now start)) _ _ _ (λ _. p)
        (λ _.
          IfReturns-bind (mqtt_transport_yield rom cbor round.packets s) _ P _
            (yield_keeps round.packets s p)
            (λ s' p'.
              IfReturns-if (recved s') _ _ _ (λ _. keeps s' p')
                (λ _. wait_keeps recved clear timeout_ms start rounds s' keeps p')))

  end_both_keeps :
      (phase : Phase) (first second : List ℕ) (waited : Bool × Fleet)
      → P waited.1
      → IfReturns (end_both phase first second waited) (λ r. P r.1)
  unfolding end_both
  end_both_keeps phase first second waited p =
      IfReturns-bind (on_mqtt (mqtt_transport_unsubscribe phase.ends_first first) waited.1) _ _ _
        (on_unsubscribe phase.ends_first first waited.1 p)
        (λ u q.
          IfReturns-bind (on_mqtt (mqtt_transport_unsubscribe phase.ends_second second) u.1) _ _ _
            (on_unsubscribe phase.ends_second second u.1 q) (λ v q'. q'))

  second_keeps :
      (phase : Phase) (first : List ℕ) (second : TopicFilter)
      (exchange : Fleet → Option (Bool × Fleet)) (s : Fleet)
      → ((t : Fleet) → P t → IfReturns (exchange t) (λ r. P r.1))
      → P s
      → IfReturns
          (on_mqtt (mqtt_transport_subscribe phase.accepts_second 1 second) s >>= λ b.
            if is_zero b.0
            then exchange b.1
            else on_mqtt (mqtt_transport_unsubscribe phase.ends_first first) b.1 >>= λ u.
                some (false, u.1))
          (λ r. P r.1)
  second_keeps phase first second exchange s ex p =
      IfReturns-bind (on_mqtt (mqtt_transport_subscribe phase.accepts_second 1 second) s) _ _ _
        (on_subscribe phase.accepts_second second s p)
        (λ b q.
          IfReturns-if (is_zero b.0) _ _ _ (λ _. ex b.1 q)
            (λ _.
              IfReturns-bind (on_mqtt (mqtt_transport_unsubscribe phase.ends_first first) b.1) _ _ _
                (on_unsubscribe phase.ends_first first b.1 q) (λ u q'. q')))

  pub create_keeps :
      (phase : Phase) (s : Fleet)
      → P s
      → IfReturns (process_create_cert_and_key rom cbor phase s) (λ r. P r.1)
  unfolding process_create_cert_and_key send_message wait_recv_create_cert_and_key_accept_msg
  create_keeps phase s p =
      let wait : Fleet → Option (Bool × Fleet) = λ t.
        wait_recv_create_cert_and_key_accept_msg rom cbor 5000 phase.start phase.rounds
          (send_message phase create_key_and_cert t) in
      IfReturns-bind
        (on_mqtt (mqtt_transport_subscribe phase.accepts_first 1 (constant create_accepted)) s) _ _
        _ (on_subscribe phase.accepts_first (constant create_accepted) s p)
        (λ a q.
          IfReturns-if (is_zero a.0) _ _ _
            (λ _.
              second_keeps phase create_accepted (constant create_rejected)
                (λ t. wait t >>= end_both phase create_accepted create_rejected) a.1
                (λ t p'.
                  IfReturns-bind (wait t) _ _ _
                    (wait_keeps _ _ 5000 phase.start phase.rounds
                      (send_message phase create_key_and_cert t) (λ u p''. p'')
                      (publish_keeps phase.is_sent create_key_and_cert (c_str t.pub_msg_buf) t.mqtt
                        ∙ p'))
                    (λ w p''. end_both_keeps phase create_accepted create_rejected w p''))
                q)
            (λ _. q))

  exchange_keeps :
      (phase : Phase) (device : DeviceInfo) (accepted rejected : List ℕ) (s : Fleet)
      → P s
      → IfReturns (register_exchange rom cbor phase device accepted rejected s) (λ r. P r.1)
  unfolding register_exchange send_message wait_register_thing_accept_msg
  exchange_keeps phase device accepted rejected s p =
      let message = register_message device s.temp_ownership_token in
      let request = template_topic (some device.aws_template_name) provision in
      IfReturns-bind (sprintf 256 request) _ (λ _. Unit) _ (IfReturns-any (sprintf 256 request))
        (λ topic _.
          IfReturns-bind (copy_terminated s.pub_msg_buf message (length message)) _ (λ _. Unit) _
            (IfReturns-any (copy_terminated s.pub_msg_buf message (length message)))
            (λ buffer _.
              let start : Fleet = send_message phase topic (record s { pub_msg_buf = buffer }) in
              IfReturns-bind
                (wait_register_thing_accept_msg rom cbor 5000 phase.start phase.rounds start) _ _ _
                (wait_keeps (λ t. t.recved_register_thing)
                  (λ t. record t { recved_register_thing = false }) 5000 phase.start phase.rounds
                  start (λ u q. q) (publish_keeps phase.is_sent topic (c_str buffer) s.mqtt ∙ p))
                (λ w h. end_both_keeps phase accepted rejected w h)))

  pub register_keeps :
      (phase : Phase) (device : DeviceInfo) (s : Fleet)
      → P s
      → IfReturns (process_register_thing rom cbor phase device s) (λ r. P r.1)
  unfolding process_register_thing register_in_scope end_scope
  register_keeps phase device s p =
      let topic : List ℕ → List ℕ = template_topic (some device.aws_template_name) in
      IfReturns-bind (register_in_scope rom cbor phase device s) _ (λ r. P r.1) _
        (IfReturns-bind (sprintf 256 (topic provision_accepted)) _ (λ _. Unit) _
          (IfReturns-any (sprintf 256 (topic provision_accepted)))
          (λ accepted _.
            IfReturns-bind
              (on_mqtt (mqtt_transport_subscribe phase.accepts_first 1 (local accepted)) s) _ _ _
              (on_subscribe phase.accepts_first (local accepted) s p)
              (λ a q.
                IfReturns-if (is_zero a.0) _ _ _
                  (λ _.
                    IfReturns-bind (sprintf 256 (topic provision_rejected)) _ (λ _. Unit) _
                      (IfReturns-any (sprintf 256 (topic provision_rejected)))
                      (λ rejected _.
                        second_keeps phase accepted (local rejected)
                          (register_exchange rom cbor phase device accepted rejected) a.1
                          (λ t p'. exchange_keeps phase device accepted rejected t p') q))
                  (λ _. q))))
        (λ r h. h)
