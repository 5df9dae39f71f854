-- ===== src/Fleet/Handle/Success.antt =====
-- A provisioning that succeeds, from the connection to the stored certificate, and the connection for the
-- jobs behind it (app/aws_iot/fleet_provisioning_handler.c and app/aws_iot/iot_jobs_handler.c).
use rp2040_wiznet_eaa_s_aws.Prelude.{ℕ, ◌≡◌, true, List, length}
use rp2040_wiznet_eaa_s_aws.Config.{DeviceInfo}
use rp2040_wiznet_eaa_s_aws.Mqtt.{Mqtt, TlsContext}
use rp2040_wiznet_eaa_s_aws.Fleet.Texts.{create_accepted}
use rp2040_wiznet_eaa_s_aws.Fleet.Parse.{CertInfo, Cbor, parsing_accept_certificate_create_msg}
use rp2040_wiznet_eaa_s_aws.Fleet.Events.{Fleet, begins_with}
use rp2040_wiznet_eaa_s_aws.Fleet.Handle.{Phase}
use rp2040_wiznet_eaa_s_aws.Fleet.Handle.Created.{IsAnswered}
use rp2040_wiznet_eaa_s_aws.Fleet.Handle.Provisioned.{IsAcceptance, IsRegistrable}

-- The cloud answers: a message with a certificate and a token that the CBOR library can read, and the
-- acceptance of the registration. The texts fit their buffers.
pub record IsProvisioning (cbor : Cbor) (create register : Phase) (device : DeviceInfo)
    (info : CertInfo) (s : Fleet) : Type 0 where
  pub token : List ℕ
  pub create_topic : List ℕ
  pub create_payload : List ℕ
  pub created : IsAnswered create create_topic create_payload
  pub begins : begins_with create_topic create_accepted ≡ true
  pub parsed :
      parsing_accept_certificate_create_msg cbor create_payload s.cert_info s.temp_ownership_token
      ≡ (true, info, token)
  pub register_topic : List ℕ
  pub register_payload : List ℕ
  pub registered : IsAnswered register register_topic register_payload
  pub acceptance : IsAcceptance device.aws_template_name register_topic
  pub registrable : IsRegistrable device token
  pub buffer_size : length s.pub_msg_buf ≡ 1024

-- The sizes of the structure's texts.
pub record IsSized (info : CertInfo) : Type 0 where
  pub cert_size : length info.device_provisioned_cert ≡ 2048
  pub key_size : length info.device_provisioned_private_key ≡ 2048
  pub token_size : length info.device_cert_ownership_token ≡ 512
  pub id_size : length info.device_cert_id ≡ 256

abbrev context_with : List ℕ → List ℕ → TlsContext
context_with cert key = record { client_cert = cert; private_key = key }

-- The certificate and the key of a structure.
abbrev pub certificate_of : CertInfo → TlsContext
certificate_of info = context_with info.device_provisioned_cert info.device_provisioned_private_key
