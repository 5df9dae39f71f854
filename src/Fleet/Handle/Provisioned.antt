-- ===== src/Fleet/Handle/Provisioned.antt =====
-- A registration that succeeds (app/aws_iot/fleet_provisioning_handler.c).
use rp2040_wiznet_eaa_s_aws.Prelude.{
  ℕ, ◌<◌, ◌≤◌, ◌≡◌, refl, sym, subst, ap, ◌∙◌, Bool, true, false, List, Option, some, length, Mem,
  arith, ◌>>=◌, Returns, Returns-mono, Returns-bind, length-append, lt→ltb,
}
use rp2040_wiznet_eaa_s_aws.Prelude.CStr.{
  c_str, sprintf, sprintf_lem, sprintf_fits, copy_terminated,
}
use rp2040_wiznet_eaa_s_aws.Config.{DeviceInfo}
use rp2040_wiznet_eaa_s_aws.Flash.Rom.{FlashRom}
use rp2040_wiznet_eaa_s_aws.Flash.{save_flash_provisioned_cert_info}
use rp2040_wiznet_eaa_s_aws.Mqtt.{local}
use rp2040_wiznet_eaa_s_aws.Mqtt.Table.{mqtt_transport_subscribe}
use rp2040_wiznet_eaa_s_aws.Mqtt.Readable.{IsReadable}
use rp2040_wiznet_eaa_s_aws.Jobs.Events.{publish}
use rp2040_wiznet_eaa_s_aws.Fleet.Texts.{
  provision_accepted, provision_rejected, provision, create_accepted, create_rejected,
}
use rp2040_wiznet_eaa_s_aws.Fleet.Parse.{memory_of, Cbor}
use rp2040_wiznet_eaa_s_aws.Fleet.Events.{
  Fleet, begins_with, template_topic, on_register_accepted, on_template_topic,
  fleet_provisioning_event_callback, wait_register_thing_accept_msg,
}
use rp2040_wiznet_eaa_s_aws.Fleet.Handle.{
  Phase, on_mqtt, end_both, send_message, register_message, register_exchange, register_in_scope,
  process_register_thing,
}
use rp2040_wiznet_eaa_s_aws.Fleet.Handle.Linked.{
  IsLinked, linked_few, linked-IsReadable, subscribe-IsLinked, end-IsLinked, send-IsLinked,
}
use rp2040_wiznet_eaa_s_aws.Fleet.Handle.Created.{IsAnswered, wait_answered}

-- The message on the topic for an accepted registration, and on no other that the callback knows.
pub record IsAcceptance (name topic : List ℕ) : Type 0 where
  pub begins : begins_with topic (template_topic (some name) provision_accepted) ≡ true
  pub no_certificate : begins_with topic create_accepted ≡ false
  pub no_refusal : begins_with topic create_rejected ≡ false

-- The template's name and the request with a token fit their buffers.
pub record IsRegistrable (device : DeviceInfo) (token : List ℕ) : Type 0 where
  pub name_fits : length (c_str device.aws_template_name) < 64
  pub message_fits : length (register_message device token) < 1024

topic_fits :
    (device : DeviceInfo) (token end_of_topic : List ℕ)
    → IsRegistrable device token
    → length end_of_topic < 100
    → length (template_topic (some device.aws_template_name) end_of_topic) < 256
topic_fits device token end_of_topic registrable short =
    omega
      (arith, registrable.name_fits, length-append (c_str device.aws_template_name) end_of_topic)

copy_terminated_returns :
    (dst src : List ℕ) (n : ℕ) → n < length dst → Returns (copy_terminated dst src n) (λ _. Unit)
unfolding copy_terminated
copy_terminated_returns dst src n fits = rw (lt→ltb n (length dst) fits) tt

module _ (rom : FlashRom) (cbor : Cbor) where
  -- The flash behind an accepted registration.
  abbrev pub stored : Fleet → Mem
  stored s = save_flash_provisioned_cert_info rom (memory_of s.cert_info) s.flash

  template_accepted :
      (topic : List ℕ) (s : Fleet)
      → begins_with topic (template_topic s.aws_template_name provision_accepted) ≡ true
      → length (template_topic s.aws_template_name provision_accepted) < 256
      → on_template_topic rom cbor topic s ≡ some (on_register_accepted rom cbor s)
  unfolding on_template_topic
  template_accepted topic s begins fits =
      rw (sprintf_fits 256 (template_topic s.aws_template_name provision_accepted) fits, begins)
        refl

  acceptance_arrives :
      (topic payload name : List ℕ) (s : Fleet)
      → IsAcceptance name topic
      → s.aws_template_name ≡ some name
      → length (template_topic (some name) provision_accepted) < 256
      → fleet_provisioning_event_callback rom cbor (publish topic payload) s
        ≡ some (on_register_accepted rom cbor s)
  unfolding fleet_provisioning_event_callback
  acceptance_arrives topic payload name s acceptance named fits =
      rw (acceptance.no_certificate, acceptance.no_refusal)
        (template_accepted topic s
          (subst (λ n. begins_with topic (template_topic n provision_accepted) ≡ true) (sym named)
            acceptance.begins)
          (subst (λ n. length (template_topic n provision_accepted) < 256) (sym named) fits))

  exchange_succeeds :
      (phase : Phase) (topic payload accepted rejected : List ℕ) (device : DeviceInfo) (s : Fleet)
      → IsAnswered phase topic payload
      → s.recved_register_thing ≡ false
      → IsAcceptance device.aws_template_name topic
      → IsRegistrable device s.temp_ownership_token
      → s.aws_template_name ≡ some device.aws_template_name
      → length s.pub_msg_buf ≡ 1024
      → IsReadable s.mqtt
      → Returns
          (register_exchange rom cbor phase device accepted rejected s)
          (λ r. (r.0 ≡ true) × (r.1.flash ≡ stored s))
  unfolding register_exchange wait_register_thing_accept_msg on_register_accepted
  exchange_succeeds phase topic payload accepted rejected device s answered not_yet acceptance
        registrable named size readable =
      let request : List ℕ = template_topic (some device.aws_template_name) provision in
      let message : List ℕ = register_message device s.temp_ownership_token in
      Returns-bind (sprintf 256 request) _ _ _
        (sprintf_lem 256 request
          (topic_fits device s.temp_ownership_token provision registrable (omega arith)))
        (λ text _.
          Returns-bind (copy_terminated s.pub_msg_buf message (length message)) _ _ _
            (copy_terminated_returns s.pub_msg_buf message (length message)
              (omega (arith, registrable.message_fits)))
            (λ buffer _. acceptance_ends buffer text))
    where
      acceptance_ends :
          (buffer text : List ℕ)
          → Returns
              (wait_register_thing_accept_msg rom cbor 5000 phase.start phase.rounds
                  (send_message phase text (record s { pub_msg_buf = buffer }))
                >>= end_both phase accepted rejected)
              (λ r. (r.0 ≡ true) × (r.1.flash ≡ stored s))
      acceptance_ends buffer text =
          let base : Fleet = record s { pub_msg_buf = buffer } in
          let t : Fleet = send_message phase text base in
          let sent : IsLinked s.mqtt.config.subscribe_count base t =
            send-IsLinked s.mqtt.config.subscribe_count phase text base base
              (record { link = s.mqtt; same = refl; few = omega arith; readable = readable }) in
          let done : Fleet = record (on_register_accepted rom cbor t) {
            recved_register_thing = false;
          } in
          let waited : wait_register_thing_accept_msg rom cbor 5000 phase.start phase.rounds t
              ≡ some (true, done) =
            wait_answered rom cbor phase topic payload (λ x. x.recved_register_thing)
              (λ x. record x { recved_register_thing = false }) t (on_register_accepted rom cbor t)
              answered (ap (λ (x : Fleet). x.recved_register_thing) sent.same ∙ not_yet)
              (acceptance_arrives topic payload device.aws_template_name t acceptance
                (ap (λ (x : Fleet). x.aws_template_name) sent.same ∙ named)
                (topic_fits device s.temp_ownership_token provision_accepted registrable
                  (omega arith)))
              refl in
          subst
            (λ (o : Option (Bool × Fleet)).
              Returns (o >>= end_both phase accepted rejected)
                (λ r. (r.0 ≡ true) × (r.1.flash ≡ stored s)))
            (sym waited)
            (Returns-mono (end_both phase accepted rejected (true, done)) _ _
              (end-IsLinked s.mqtt.config.subscribe_count phase accepted rejected done (true, done)
                (record {
                  link = t.mqtt;
                  same = refl;
                  few = linked_few s.mqtt.config.subscribe_count base t sent;
                  readable = linked-IsReadable s.mqtt.config.subscribe_count base t sent;
                }))
              (λ r k. (k.0, ap (λ (x : Fleet). x.flash) k.1.same ∙ ap stored sent.same)))

  pub register_succeeds :
      (phase : Phase) (topic payload : List ℕ) (device : DeviceInfo) (s : Fleet)
      → IsAnswered phase topic payload
      → s.recved_register_thing ≡ false
      → IsAcceptance device.aws_template_name topic
      → IsRegistrable device s.temp_ownership_token
      → s.aws_template_name ≡ some device.aws_template_name
      → length s.pub_msg_buf ≡ 1024
      → IsReadable s.mqtt
      → s.mqtt.config.subscribe_count ≤ 2
      → Returns
          (process_register_thing rom cbor phase device s)
          (λ r. (r.0 ≡ true) × (r.1.flash ≡ stored s))
  unfolding process_register_thing register_in_scope
  register_succeeds phase topic payload device s answered not_yet acceptance registrable named size
        readable few =
      let topic_of : List ℕ → List ℕ = template_topic (some device.aws_template_name) in
      let token : List ℕ = s.temp_ownership_token in
      let itself : IsLinked 2 s s = record {
        link = s.mqtt;
        same = refl;
        few = few;
        readable = readable;
      } in
      Returns-bind (register_in_scope rom cbor phase device s) _
        (λ r. (r.0 ≡ true) × (r.1.flash ≡ stored s)) _
        (Returns-bind (sprintf 256 (topic_of provision_accepted)) _ _ _
          (sprintf_lem 256 (topic_of provision_accepted)
            (topic_fits device token provision_accepted registrable (omega arith)))
          (λ accepted _.
            Returns-bind
              (on_mqtt (mqtt_transport_subscribe phase.accepts_first 1 (local accepted)) s) _ _ _
              (subscribe-IsLinked 2 phase.accepts_first (local accepted) accepted s s
                answered.first_accepted refl (omega arith) itself)
              (λ a h. rw (h.0) (
                Returns-bind (sprintf 256 (topic_of provision_rejected)) _ _ _
                  (sprintf_lem 256 (topic_of provision_rejected)
                    (topic_fits device token provision_rejected registrable (omega arith)))
                  (λ rejected _.
                    Returns-bind
                      (on_mqtt (mqtt_transport_subscribe phase.accepts_second 1 (local rejected))
                        a.1)
                      _ _ _
                      (subscribe-IsLinked 3 phase.accepts_second (local rejected) rejected s a.1
                        answered.second_accepted refl (omega arith) h.1)
                      (λ b h'. rw (h'.0) (
                        subst
                          (λ (x : Fleet).
                            Returns (register_exchange rom cbor phase device accepted rejected x)
                              (λ r. (r.0 ≡ true) × (r.1.flash ≡ stored s)))
                          (sym h'.1.same)
                          (exchange_succeeds phase topic payload accepted rejected device
                            (record s { mqtt = h'.1.link }) answered not_yet acceptance registrable
                            named size h'.1.readable))))))))
        (λ r h. h)
