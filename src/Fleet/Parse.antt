-- ===== src/Fleet/Parse.antt =====
-- What the provisioning reads out of the answer with the new certificate
-- (app/aws_iot/fleet_provisioning_handler.c). The CBOR library finds and copies the texts.
use rp2040_wiznet_eaa_s_aws.Prelude.{
  ℕ, Bool, true, false, if◌then◌else◌, not, List, ◌++◌, length, replicate, take, get_or, Mem,
}
use rp2040_wiznet_eaa_s_aws.Prelude.Word.{u16}
use rp2040_wiznet_eaa_s_aws.Prelude.CStr.{strlen, strncpy}
use rp2040_wiznet_eaa_s_aws.Flash.Layout.{
  max_pem_size, max_fp_cert_id_size, max_fp_cert_ownership_token_size,
}
use rp2040_wiznet_eaa_s_aws.Fleet.Texts.{
  certificate_id, certificate_pem, private_key_text, ownership_token_text,
}

-- AWS_FP_DEVICE_CERT_INFO_t.
pub record CertInfo : Type 0 where
  pub device_provisioned_cert : List ℕ
  pub device_provisioned_private_key : List ℕ
  pub device_cert_ownership_token : List ℕ
  pub device_cert_id : List ℕ

abbrev pub empty_cert_info : CertInfo
empty_cert_info = record {
  device_provisioned_cert = replicate max_pem_size 0;
  device_provisioned_private_key = replicate max_pem_size 0;
  device_cert_ownership_token = replicate max_fp_cert_ownership_token_size 0;
  device_cert_id = replicate max_fp_cert_id_size 0;
}

-- The bytes of the structure, which has no gaps.
unfoldable pub bytes_of : CertInfo → List ℕ
bytes_of info =
    info.device_provisioned_cert
    ++ (info.device_provisioned_private_key
        ++ (info.device_cert_ownership_token ++ info.device_cert_id))

abbrev pub memory_of : CertInfo → Mem
memory_of info k = get_or (bytes_of info) k 0

-- The CBOR library on a payload: whether the parser accepts it, whether it is a map, whether the search
-- for a key ends without an error, and the copy of a key's text into a buffer: whether the text fits, and
-- the buffer behind it.
pub record Cbor : Type 0 where
  pub cbor_parser_init : List ℕ → Bool
  pub cbor_value_is_map : List ℕ → Bool
  pub cbor_value_map_find_value : List ℕ → List ℕ → Bool
  pub cbor_value_copy_text_string : List ℕ → List ℕ → List ℕ → Bool × List ℕ

module _ (cbor : Cbor) where
  open cbor use {
    cbor_parser_init, cbor_value_is_map, cbor_value_map_find_value, cbor_value_copy_text_string,
  }

  -- The search for a key and the copy of its text.
  unfoldable pub copy_text : List ℕ → List ℕ → List ℕ → Bool × List ℕ
  copy_text payload key buffer =
      if cbor_value_map_find_value payload key
      then cbor_value_copy_text_string payload key buffer
      else (false, buffer)

  -- The four texts in a row; the token is copied into the handler's variable without its end.
  unfoldable pub copy_texts : List ℕ → CertInfo → List ℕ → Bool × CertInfo × List ℕ
  unfolding copy_text strlen strncpy
  copy_texts payload info token =
      let id = copy_text payload certificate_id info.device_cert_id in
      let with_id : CertInfo = record info { device_cert_id = id.1 } in
      let pem = copy_text payload certificate_pem info.device_provisioned_cert in
      let with_pem : CertInfo = record with_id { device_provisioned_cert = pem.1 } in
      let key = copy_text payload private_key_text info.device_provisioned_private_key in
      let with_key : CertInfo = record with_pem { device_provisioned_private_key = key.1 } in
      let own = copy_text payload ownership_token_text info.device_cert_ownership_token in
      let with_token : CertInfo = record with_key { device_cert_ownership_token = own.1 } in
      if not id.0
      then (false, with_id, token)
      else if not pem.0
      then (false, with_pem, token)
      else if not key.0
      then (false, with_key, token)
      else if not own.0
      then (false, with_token, token)
      else (true, with_token, strncpy token own.1 (strlen own.1))

  -- The result, and `pAwsFpDeviceCertInfo` and the handler's token behind it. The length of the payload
  -- is passed as 16 bits.
  unfoldable pub parsing_accept_certificate_create_msg :
      List ℕ → CertInfo → List ℕ → Bool × CertInfo × List ℕ
  unfolding copy_texts
  parsing_accept_certificate_create_msg payload' info token =
      let payload = take (u16 (length payload')) payload' in
      if not (cbor_parser_init payload)
      then (false, info, token)
      else if not (cbor_value_is_map payload)
      then (false, info, token)
      else copy_texts payload info token
