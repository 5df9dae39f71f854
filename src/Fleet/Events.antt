-- ===== src/Fleet/Events.antt =====
-- The events of the provisioning (app/aws_iot/fleet_provisioning_handler.c): the callback for what MQTT
-- delivers, and the two loops that wait for it. A write behind the end of a buffer is `none`.
use rp2040_wiznet_eaa_s_aws.Prelude.{
  ℕ, Bool, true, false, ltb, if◌then◌else◌, List, [], ◌∷◌, ◌++◌, Option, none, some, Mem, ◌>>=◌,
}
use rp2040_wiznet_eaa_s_aws.Prelude.Word.{sub32}
use rp2040_wiznet_eaa_s_aws.Prelude.CStr.{c_str, strlen, strncmp_eq, sprintf}
use rp2040_wiznet_eaa_s_aws.Flash.Rom.{FlashRom}
use rp2040_wiznet_eaa_s_aws.Flash.{save_flash_provisioned_cert_info}
use rp2040_wiznet_eaa_s_aws.Mqtt.{Mqtt}
use rp2040_wiznet_eaa_s_aws.Jobs.Events.{
  Packet, publish, other_packet, Round, text_of, max_mqtt_topic_size,
}
use rp2040_wiznet_eaa_s_aws.Fleet.Texts.{
  create_accepted, create_rejected, provisioning_templates, provision_accepted, provision_rejected,
}
use rp2040_wiznet_eaa_s_aws.Fleet.Parse.{
  CertInfo, memory_of, Cbor, parsing_accept_certificate_create_msg,
}

-- The handler's variables, with the callback's structure, the MQTT connection, and the flash.
pub record Fleet : Type 0 where
  pub mqtt : Mqtt
  pub flash : Mem
  pub aws_template_name : Option (List ℕ)
  pub temp_ownership_token : List ℕ
  pub pub_msg_buf : List ℕ
  pub cert_info : CertInfo
  pub recved_create_key_and_cert : Bool
  pub recved_register_thing : Bool

-- Whether the topic of a message begins with a text.
unfoldable pub begins_with : List ℕ → List ℕ → Bool
unfolding strncmp_eq strlen
begins_with topic text = strncmp_eq topic text (strlen text)

-- The topics with the template's name.
abbrev pub template_topic : Option (List ℕ) → List ℕ → List ℕ
template_topic name end_of_topic = provisioning_templates ++ text_of name ++ end_of_topic

module _ (rom : FlashRom) (cbor : Cbor) where
  -- The answer with the new certificate. The result of the parsing is not looked at.
  unfoldable pub on_create_accepted : List ℕ → Fleet → Fleet
  unfolding parsing_accept_certificate_create_msg
  on_create_accepted payload s =
      let parsed =
        parsing_accept_certificate_create_msg cbor payload s.cert_info s.temp_ownership_token in
      record s {
        cert_info = parsed.1;
        temp_ownership_token = parsed.2;
        recved_create_key_and_cert = true;
      }

  -- The thing is registered: the certificate is stored.
  unfoldable pub on_register_accepted : Fleet → Fleet
  unfolding save_flash_provisioned_cert_info
  on_register_accepted s = record s {
    recved_register_thing = true;
    flash = save_flash_provisioned_cert_info rom (memory_of s.cert_info) s.flash;
  }

  -- The messages with a template's name in their topic; those of a refusal are only traced.
  unfoldable pub on_template_topic : List ℕ → Fleet → Option Fleet
  unfolding sprintf begins_with on_register_accepted c_str
  on_template_topic topic s =
      sprintf max_mqtt_topic_size (template_topic s.aws_template_name provision_accepted)
      >>= λ accepted.
          let rejected =
            sprintf max_mqtt_topic_size (template_topic s.aws_template_name provision_rejected)
            >>= λ text. some s in
          if begins_with topic accepted then some (on_register_accepted s) else rejected

  unfoldable pub fleet_provisioning_event_callback : Packet → Fleet → Option Fleet
  unfolding begins_with on_create_accepted on_template_topic
  fleet_provisioning_event_callback other_packet s = some s
  fleet_provisioning_event_callback (publish topic payload) s =
      if begins_with topic create_accepted
      then some (on_create_accepted payload s)
      else if begins_with topic create_rejected
      then some s
      else on_template_topic topic s

  -- `MQTT_ProcessLoop` calls back for every packet that has arrived.
  unfoldable pub mqtt_transport_yield : List Packet → Fleet → Option Fleet
  unfolding fleet_provisioning_event_callback
  mqtt_transport_yield [] s = some s
  mqtt_transport_yield (p ∷ packets) s =
      fleet_provisioning_event_callback p s >>= λ s'. mqtt_transport_yield packets s'

  -- The loop of the two waits; `none` when it still waits at the end of what was given.
  unfoldable pub wait_accepted :
      (Fleet → Bool) → (Fleet → Fleet) → ℕ → ℕ → List Round → Fleet → Option (Bool × Fleet)
  unfolding mqtt_transport_yield
  wait_accepted recved clear timeout_ms start [] s = none
  wait_accepted recved clear timeout_ms start (round ∷ rounds) s =
      let rest = mqtt_transport_yield round.packets s >>= λ s'.
      let again = wait_accepted recved clear timeout_ms start rounds s' in
      if recved s' then some (true, clear s') else again in
      if ltb timeout_ms (sub32 round.now start) then some (false, s) else rest

  unfoldable pub wait_recv_create_cert_and_key_accept_msg :
      ℕ → ℕ → List Round → Fleet → Option (Bool × Fleet)
  unfolding wait_accepted
  wait_recv_create_cert_and_key_accept_msg timeout_ms start rounds s =
      wait_accepted (λ t. t.recved_create_key_and_cert)
        (λ t. record t { recved_create_key_and_cert = false }) timeout_ms start rounds s

  unfoldable pub wait_register_thing_accept_msg : ℕ → ℕ → List Round → Fleet → Option (Bool × Fleet)
  unfolding wait_accepted
  wait_register_thing_accept_msg timeout_ms start rounds s =
      wait_accepted (λ t. t.recved_register_thing) (λ t. record t { recved_register_thing = false })
        timeout_ms start rounds s
