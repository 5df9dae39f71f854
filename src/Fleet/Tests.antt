-- ===== src/Fleet/Tests.antt =====
-- The provisioning of a concrete device.
use rp2040_wiznet_eaa_s_aws.Prelude.{
  ℕ, ◌+◌, ◌-◌, ◌≡◌, refl, true, false, List, [], ◌∷◌, ◌++◌, none, some, length, replicate, drop,
  Returns, IfReturns,
}
use rp2040_wiznet_eaa_s_aws.Flash.Rom.{simple_rom}
use rp2040_wiznet_eaa_s_aws.Mqtt.{TlsContext}
use rp2040_wiznet_eaa_s_aws.Prelude.Int.{negsuc}
use rp2040_wiznet_eaa_s_aws.Mqtt.Connect.{ConnectAnswers}
use rp2040_wiznet_eaa_s_aws.Jobs.Events.{other_packet, publish}
use rp2040_wiznet_eaa_s_aws.Jobs.Connect.Tests.{test_device, test_answers, idle_mqtt}
use rp2040_wiznet_eaa_s_aws.Fleet.Texts.{create_accepted, provision_accepted}
use rp2040_wiznet_eaa_s_aws.Fleet.Parse.{CertInfo, empty_cert_info, Cbor}
use rp2040_wiznet_eaa_s_aws.Fleet.Events.{Fleet, template_topic}
use rp2040_wiznet_eaa_s_aws.Fleet.Handle.{Phase, fleet_provisioning_handle}
use rp2040_wiznet_eaa_s_aws.Fleet.Handle.Refused.{fleet_provisioning_handle_refused}

-- A library that finds the payload under each of the keys.
abbrev test_cbor : Cbor
test_cbor = record {
  cbor_parser_init = λ payload. true;
  cbor_value_is_map = λ payload. true;
  cbor_value_map_find_value = λ payload key. true;
  cbor_value_copy_text_string =
      λ payload key buffer. (true, payload ++ 0 ∷ drop (length payload + 1) buffer);
}

abbrev test_payload : List ℕ
test_payload = b'p' ∷ b'k' ∷ []

-- The payload as a text in a buffer of a size.
abbrev in_buffer : ℕ → List ℕ
in_buffer n = test_payload ++ 0 ∷ replicate (n - 3) 0

abbrev test_info : CertInfo
test_info = record {
  device_provisioned_cert = in_buffer 2048;
  device_provisioned_private_key = in_buffer 2048;
  device_cert_ownership_token = in_buffer 512;
  device_cert_id = in_buffer 256;
}

abbrev test_fleet : Fleet
test_fleet = record {
  mqtt = idle_mqtt;
  flash = λ a. 0xff;
  aws_template_name = none;
  temp_ownership_token = replicate 512 0;
  pub_msg_buf = replicate 1024 0;
  cert_info = empty_cert_info;
  recved_create_key_and_cert = false;
  recved_register_thing = false;
}

abbrev claim : TlsContext
claim = record { client_cert = 1 ∷ []; private_key = 2 ∷ [] }

-- An exchange whose first round brings a message.
abbrev answered_by : List ℕ → Phase
answered_by topic = record {
  accepts_first = true;
  accepts_second = true;
  is_sent = true;
  ends_first = λ i. true;
  ends_second = λ i. true;
  start = 100;
  rounds =
      record { now = 150; packets = other_packet ∷ [] }
      ∷ record {
        now = 200;
        packets = other_packet ∷ publish topic test_payload ∷ other_packet ∷ [];
      }
      ∷ [];
}

abbrev create : Phase
create = answered_by create_accepted

abbrev registration_topic : List ℕ
registration_topic = template_topic (some test_device.aws_template_name) provision_accepted

abbrev register : Phase
register = answered_by registration_topic

-- A handshake that fails leaves the TLS context that was set up, and no pointer to free it by.
abbrev no_handshake : ConnectAnswers
no_handshake = record test_answers { tls_socket_connect = negsuc 0 }

leak :
    Returns
      (fleet_provisioning_handle simple_rom test_cbor claim no_handshake create register test_device
        test_fleet)
      (λ r. (r.0 ≡ false) × (r.1.mqtt.tls_context ≡ none) × (r.1.mqtt.tls_allocated ≡ true))
unfolding fleet_provisioning_handle
leak = (refl, refl, refl)

-- An exchange in which no message arrives before the time is over.
abbrev unanswered : Phase
unanswered = record create {
  rounds =
      record { now = 200; packets = other_packet ∷ [] } ∷ record { now = 5200; packets = [] } ∷ [];
}

fleet_provisioning_handle_refused_example :
    IfReturns
      (fleet_provisioning_handle simple_rom test_cbor claim test_answers unanswered unanswered
        test_device test_fleet)
      (λ r. (r.0 ≡ false) × (r.1.flash ≡ λ a. 0xff))
fleet_provisioning_handle_refused_example =
    fleet_provisioning_handle_refused simple_rom test_cbor claim test_answers unanswered unanswered
      test_device test_fleet ((tt, tt), (tt, tt)) ((tt, tt), (tt, tt))
