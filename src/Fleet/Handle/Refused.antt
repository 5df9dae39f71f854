-- ===== src/Fleet/Handle/Refused.antt =====
-- A provisioning that the cloud does not accept (app/aws_iot/fleet_provisioning_handler.c).
use rp2040_wiznet_eaa_s_aws.Prelude.{
  ℕ, ◌≡◌, refl, inl, inr, ◌∙◌, Bool, true, false, if◌then◌else◌, List, Option, none, some, Mem,
  ◌>>=◌, IfReturns, IfReturns-bind, IfReturns-mono, IfReturns-any, length, IfReturns-intro,
  Bool-cases,
}
use rp2040_wiznet_eaa_s_aws.Prelude.Int.{ℤ, is_zero}
use rp2040_wiznet_eaa_s_aws.Prelude.CStr.{c_str, sprintf, copy_terminated}
use rp2040_wiznet_eaa_s_aws.Config.{DeviceInfo}
use rp2040_wiznet_eaa_s_aws.Flash.Rom.{FlashRom}
use rp2040_wiznet_eaa_s_aws.Mqtt.{
  Mqtt, TlsContext, TopicFilter, constant, local, provisioning_callback, set_mqtt_event_callback,
  mqtt_transport_init,
}
use rp2040_wiznet_eaa_s_aws.Mqtt.Table.{mqtt_transport_subscribe, mqtt_transport_unsubscribe}
use rp2040_wiznet_eaa_s_aws.Mqtt.Connect.{ConnectAnswers, mqtt_transport_connect}
use rp2040_wiznet_eaa_s_aws.Fleet.Texts.{
  provision_accepted, provision_rejected, provision, create_key_and_cert, create_accepted,
  create_rejected,
}
use rp2040_wiznet_eaa_s_aws.Fleet.Parse.{Cbor}
use rp2040_wiznet_eaa_s_aws.Fleet.Events.{
  Fleet, template_topic, wait_recv_create_cert_and_key_accept_msg, wait_register_thing_accept_msg,
}
use rp2040_wiznet_eaa_s_aws.Fleet.Handle.{
  Phase, on_mqtt, end_both, send_message, process_create_cert_and_key, register_exchange,
  register_message, register_in_scope, process_register_thing, close_fleet, provision_connected,
  fleet_provisioning_handle,
}
use rp2040_wiznet_eaa_s_aws.Fleet.Handle.Quiet.{
  HasNoAcceptance, IsUntouched, wait_keeps, wait_fails,
}

module _ (rom : FlashRom) (cbor : Cbor) (flash : Mem) (name : List ℕ) where
  abbrev P : Fleet → Type 0
  P = IsUntouched flash name

  any_mqtt : (s : Fleet) (m : Mqtt) → P s → P (record s { mqtt = m })
  any_mqtt s m p = record {
    same_flash = p.same_flash;
    not_registered = p.not_registered;
    same_name = p.same_name;
  }

  on_mqtt_keeps :
      (operation : Mqtt → Option (ℤ × Mqtt)) (s : Fleet)
      → P s
      → IfReturns (on_mqtt operation s) (λ r. P r.1)
  on_mqtt_keeps operation s p =
      IfReturns-bind (operation s.mqtt) _ (λ _. Unit) _
        (IfReturns-intro (operation s.mqtt) _ (λ _ _. tt)) (λ r _. any_mqtt s r.1 p)

  end_both_keeps :
      (phase : Phase) (first second : List ℕ) (waited : Bool × Fleet)
      → P waited.1
      → IfReturns (end_both phase first second waited) (λ r. (r.0 ≡ waited.0) × P r.1)
  unfolding end_both
  end_both_keeps phase first second waited p =
      IfReturns-bind (on_mqtt (mqtt_transport_unsubscribe phase.ends_first first) waited.1) _ _ _
        (on_mqtt_keeps (mqtt_transport_unsubscribe phase.ends_first first) waited.1 p)
        (λ u q.
          IfReturns-bind (on_mqtt (mqtt_transport_unsubscribe phase.ends_second second) u.1) _ _ _
            (on_mqtt_keeps (mqtt_transport_unsubscribe phase.ends_second second) u.1 q)
            (λ v q'. (refl, q')))

  -- The second subscription, and behind it the exchange or the end of the first subscription.
  second_keeps :
      (phase : Phase) (first : List ℕ) (second : TopicFilter)
      (exchange : Fleet → Option (Bool × Fleet)) (Q : Bool × Fleet → Type 0) (s : Fleet)
      → ((t : Fleet) → P t → IfReturns (exchange t) Q)
      → ((t : Fleet) → P t → Q (false, t))
      → P s
      → IfReturns
          (on_mqtt (mqtt_transport_subscribe phase.accepts_second 1 second) s >>= λ b.
            if is_zero b.0
            then exchange b.1
            else on_mqtt (mqtt_transport_unsubscribe phase.ends_first first) b.1 >>= λ u.
                some (false, u.1))
          Q
  second_keeps phase first second exchange Q s ex failed p =
      IfReturns-bind (on_mqtt (mqtt_transport_subscribe phase.accepts_second 1 second) s) _ _ Q
        (on_mqtt_keeps (mqtt_transport_subscribe phase.accepts_second 1 second) s p)
        (λ b q. elim (Bool-cases (is_zero b.0)) [
          | inl good ↦ rw good (ex b.1 q)
          | inr bad ↦ rw bad (
              IfReturns-bind (on_mqtt (mqtt_transport_unsubscribe phase.ends_first first) b.1) _ _ Q
                (on_mqtt_keeps (mqtt_transport_unsubscribe phase.ends_first first) b.1 q)
                (λ u q'. failed u.1 q'))
        ])

  create_keeps :
      (phase : Phase) (s : Fleet)
      → HasNoAcceptance name phase.rounds
      → P s
      → IfReturns (process_create_cert_and_key rom cbor phase s) (λ r. P r.1)
  unfolding process_create_cert_and_key send_message wait_recv_create_cert_and_key_accept_msg
  create_keeps phase s quiet p =
      let start : Fleet → Fleet = λ t. send_message phase create_key_and_cert t in
      let wait : Fleet → Option (Bool × Fleet) = λ t.
        wait_recv_create_cert_and_key_accept_msg rom cbor 5000 phase.start phase.rounds (start t) in
      IfReturns-bind
        (on_mqtt (mqtt_transport_subscribe phase.accepts_first 1 (constant create_accepted)) s) _ _
        _
        (on_mqtt_keeps (mqtt_transport_subscribe phase.accepts_first 1 (constant create_accepted)) s
          p)
        (λ a q. elim (Bool-cases (is_zero a.0)) [
          | inr failed ↦ rw failed q
          | inl first ↦ rw first (
              second_keeps phase create_accepted (constant create_rejected)
                (λ t. wait t >>= end_both phase create_accepted create_rejected) (λ r. P r.1) a.1
                (λ t p'.
                  IfReturns-bind (wait t) _ _ _
                    (wait_keeps rom cbor flash name _ _ 5000 phase.start phase.rounds (start t)
                      (λ u p''. record {
                        same_flash = p''.same_flash;
                        not_registered = p''.not_registered;
                        same_name = p''.same_name;
                      })
                      quiet (any_mqtt t _ p'))
                    (λ w p''.
                      IfReturns-mono (end_both phase create_accepted create_rejected w) _ _
                        (end_both_keeps phase create_accepted create_rejected w p'') (λ r h. h.1)))
                (λ t p'. p') q)
        ])

  exchange_keeps :
      (phase : Phase) (device : DeviceInfo) (accepted rejected : List ℕ) (s : Fleet)
      → HasNoAcceptance name phase.rounds
      → P s
      → IfReturns
          (register_exchange rom cbor phase device accepted rejected s)
          (λ r. (r.0 ≡ false) × P r.1)
  unfolding register_exchange send_message wait_register_thing_accept_msg
  exchange_keeps phase device accepted rejected s quiet p =
      let message = register_message device s.temp_ownership_token in
      let request = template_topic (some device.aws_template_name) provision in
      IfReturns-bind (sprintf 256 request) _ (λ _. Unit) _ (IfReturns-any (sprintf 256 request))
        (λ topic _.
          IfReturns-bind (copy_terminated s.pub_msg_buf message (length message)) _ (λ _. Unit) _
            (IfReturns-any (copy_terminated s.pub_msg_buf message (length message)))
            (λ buffer _.
              let start : Fleet = send_message phase topic (record s { pub_msg_buf = buffer }) in
              IfReturns-bind
                (wait_register_thing_accept_msg rom cbor 5000 phase.start phase.rounds start) _ _ _
                (wait_fails rom cbor flash name (λ t. t.recved_register_thing)
                  (λ t. record t { recved_register_thing = false }) 5000 phase.start phase.rounds
                  start (λ t q. q.not_registered) quiet
                  (record {
                    same_flash = p.same_flash;
                    not_registered = p.not_registered;
                    same_name = p.same_name;
                  }))
                (λ w h.
                  IfReturns-mono (end_both phase accepted rejected w) _ _
                    (end_both_keeps phase accepted rejected w h.1) (λ r k. (k.0 ∙ h.0, k.1)))))

  register_keeps :
      (phase : Phase) (device : DeviceInfo) (s : Fleet)
      → HasNoAcceptance name phase.rounds
      → P s
      → IfReturns (process_register_thing rom cbor phase device s) (λ r. (r.0 ≡ false) × P r.1)
  unfolding process_register_thing register_in_scope
  register_keeps phase device s quiet p =
      let topic : List ℕ → List ℕ = template_topic (some device.aws_template_name) in
      IfReturns-bind (register_in_scope rom cbor phase device s) _ (λ r. (r.0 ≡ false) × P r.1) _
        (IfReturns-bind (sprintf 256 (topic provision_accepted)) _ (λ _. Unit) _
          (IfReturns-any (sprintf 256 (topic provision_accepted)))
          (λ accepted _.
            IfReturns-bind
              (on_mqtt (mqtt_transport_subscribe phase.accepts_first 1 (local accepted)) s) _ _ _
              (on_mqtt_keeps (mqtt_transport_subscribe phase.accepts_first 1 (local accepted)) s p)
              (λ a q. elim (Bool-cases (is_zero a.0)) [
                | inr failed ↦ rw failed (refl, q)
                | inl first ↦ rw first (
                    IfReturns-bind (sprintf 256 (topic provision_rejected)) _ (λ _. Unit) _
                      (IfReturns-any (sprintf 256 (topic provision_rejected)))
                      (λ rejected _.
                        second_keeps phase accepted (local rejected)
                          (register_exchange rom cbor phase device accepted rejected)
                          (λ r. (r.0 ≡ false) × P r.1) a.1
                          (λ t p'. exchange_keeps phase device accepted rejected t quiet p')
                          (λ t p'. (refl, p')) q))
              ])))
        (λ r h. (h.0, any_mqtt r.1 _ h.1))

  connected_keeps :
      (answers : ConnectAnswers) (create register : Phase) (device : DeviceInfo) (s : Fleet)
      → HasNoAcceptance name create.rounds
      → HasNoAcceptance name register.rounds
      → P s
      → IfReturns
          (provision_connected rom cbor answers create register device s)
          (λ r. (r.0 ≡ false) × P r.1)
  unfolding provision_connected close_fleet
  connected_keeps answers create register device s quiet quiet' p =
      IfReturns-bind (process_create_cert_and_key rom cbor create s) _ _ _
        (create_keeps create s quiet p)
        (λ c q. elim (Bool-cases c.0) [
          | inr failed ↦ rw failed (refl, any_mqtt c.1 _ q)
          | inl good ↦ rw good (
              IfReturns-bind (process_register_thing rom cbor register device c.1) _ _ _
                (register_keeps register device c.1 quiet' q) (λ r h. (h.0, any_mqtt r.1 _ h.1)))
        ])

-- While no message on the topic for an accepted registration arrives, a provisioning that returns does not
-- succeed, and it changes nothing in the flash.
pub fleet_provisioning_handle_refused :
    (rom : FlashRom) (cbor : Cbor) (claim : TlsContext) (answers : ConnectAnswers)
    (create register : Phase) (device : DeviceInfo) (s : Fleet)
    → HasNoAcceptance device.aws_template_name create.rounds
    → HasNoAcceptance device.aws_template_name register.rounds
    → IfReturns
        (fleet_provisioning_handle rom cbor claim answers create register device s)
        (λ r. (r.0 ≡ false) × (r.1.flash ≡ s.flash))
unfolding fleet_provisioning_handle close_fleet set_mqtt_event_callback
fleet_provisioning_handle_refused rom cbor claim answers create register device s quiet quiet' =
    let id : List ℕ = c_str device.thing_name in
    let begun : Mqtt = record s.mqtt { event_callback = some provisioning_callback } in
    IfReturns-bind (sprintf 50 id) _ (λ _. Unit) _ (IfReturns-any (sprintf 50 id))
      (λ client_id _.
        let ready : ℤ × Mqtt = mqtt_transport_init true (some client_id) none none 30 begun in
        elim (Bool-cases (is_zero ready.0)) [
          | inr bad ↦ rw bad (refl, refl)
          | inl good ↦
              let connect : Option (ℤ × Mqtt) =
                mqtt_transport_connect answers 0 true device.aws_end_point 8883 claim ready.1 in
              rw good (
                IfReturns-bind connect _ (λ _. Unit) _ (IfReturns-any connect)
                  (λ c _.
                    let t : Fleet = record s {
                      aws_template_name = some device.aws_template_name;
                      mqtt = c.1;
                      recved_create_key_and_cert = false;
                      recved_register_thing = false;
                    } in
                    elim (Bool-cases (is_zero c.0)) [
                      | inr bad' ↦ rw bad' (refl, refl)
                      | inl good' ↦ rw good' (
                          IfReturns-mono
                            (provision_connected rom cbor answers create register device t) _ _
                            (connected_keeps rom cbor s.flash device.aws_template_name answers
                              create register device t quiet quiet'
                              (record {
                                same_flash = refl;
                                not_registered = refl;
                                same_name = refl;
                              }))
                            (λ r h. (h.0, h.1.same_flash)))
                    ]))
        ])
