-- ===== src/Jobs/Parse.antt =====
-- What the handler reads out of the payloads (app/aws_iot/iot_jobs_handler.c). The JSON library finds a
-- value; a write behind the end of a buffer is `none`.
use rp2040_wiznet_eaa_s_aws.Prelude.{
  ℕ, Bool, true, false, ltb, if◌then◌else◌, not, List, Option, none, some, drop, ◌>>=◌,
}
use rp2040_wiznet_eaa_s_aws.Prelude.Word.{u16}
use rp2040_wiznet_eaa_s_aws.Prelude.CStr.{strncpy, copy_terminated}
use rp2040_wiznet_eaa_s_aws.Device.{string_to_int, hex_string_to_int}
use rp2040_wiznet_eaa_s_aws.Jobs.Texts.{
  queued_job_id, execution_job_id, execution_job_document, execution_job_type, fw_url, fw_version,
  fw_size, fw_crc,
}

-- `JSON_Validate` succeeds, and where `JSON_Search` finds a query's value: its index and its length.
pub record Json : Type 0 where
  pub json_validate : List ℕ → Bool
  pub json_search : List ℕ → List ℕ → Option (ℕ × ℕ)

-- AWS_OTA_PARAMS_t.
pub record OtaParams : Type 0 where
  pub firmware_url : List ℕ
  pub firmware_crc : ℕ
  pub firmware_version : List ℕ
  pub firmware_size : ℕ

module _ (json : Json) where
  open json use {json_validate, json_search}

  -- The result, and `pJobId` behind it.
  unfoldable pub parsing_get_job_accepted : List ℕ → List ℕ → ℕ → Bool × List ℕ
  unfolding strncpy
  parsing_get_job_accepted payload job_id max_job_id_length =
      if not (json_validate payload)
      then (false, job_id)
      else elim (json_search payload queued_job_id) [
        | none ↦ (false, job_id)
        | some (at_index, len) ↦
            if ltb max_job_id_length len
            then (false, job_id)
            else (true, strncpy job_id (drop at_index payload) len)
      ]

  -- A value that is found is copied with its end, however long it is; one that is not is traced.
  unfoldable pub copy_found : List ℕ → List ℕ → List ℕ → Option (List ℕ)
  unfolding copy_terminated
  copy_found payload query buffer = elim (json_search payload query) [
    | none ↦ some buffer
    | some (at_index, len) ↦ copy_terminated buffer (drop at_index payload) len
  ]

  -- The result, and the three buffers behind it. The lengths of the buffers are not used.
  unfoldable pub parsing_start_next_job_accepted :
      List ℕ → List ℕ → List ℕ → List ℕ → Option (Bool × List ℕ × List ℕ × List ℕ)
  unfolding copy_found
  parsing_start_next_job_accepted payload job_id job_document job_type =
      if not (json_validate payload)
      then some (false, job_id, job_document, job_type)
      else copy_found payload execution_job_id job_id >>= λ job_id'.
          copy_found payload execution_job_document job_document >>= λ job_document'.
          copy_found payload execution_job_type job_type >>= λ job_type'.
          some (true, job_id', job_document', job_type')

  -- A value that is looked for and may not be longer than its buffer.
  unfoldable pub search_within : List ℕ → List ℕ → ℕ → Option (ℕ × ℕ)
  search_within payload query max_length = elim (json_search payload query) [
    | none ↦ none
    | some (at_index, len) ↦ if ltb max_length len then none else some (at_index, len)
  ]

  -- The copies behind the checks.
  unfoldable pub store_ota_params :
      List ℕ → OtaParams → (ℕ × ℕ) → (ℕ × ℕ) → (ℕ × ℕ) → (ℕ × ℕ) → Option (Bool × OtaParams)
  unfolding copy_terminated string_to_int hex_string_to_int
  store_ota_params payload out url version size crc =
      copy_terminated out.firmware_url (drop url.0 payload) url.1 >>= λ url'.
      copy_terminated out.firmware_version (drop version.0 payload) version.1 >>= λ version'. some (
        true,
        record {
          firmware_url = url';
          firmware_crc = u16 (hex_string_to_int (drop crc.0 payload));
          firmware_version = version';
          firmware_size = string_to_int (drop size.0 payload);
        },
      )

  -- The result, and what the pointers point to behind it.
  unfoldable pub parsing_ota_job_params : List ℕ → OtaParams → ℕ → ℕ → Option (Bool × OtaParams)
  unfolding search_within store_ota_params
  parsing_ota_job_params payload out max_fw_url_length max_fw_version_length =
      if not (json_validate payload)
      then some (false, out)
      else elim (search_within payload fw_url max_fw_url_length) [
        | none ↦ some (false, out)
        | some url ↦ elim (search_within payload fw_version max_fw_version_length) [
          | none ↦ some (false, out)
          | some version ↦ elim (json_search payload fw_size) [
            | none ↦ some (false, out)
            | some size ↦ elim (json_search payload fw_crc) [
              | none ↦ some (false, out)
              | some crc ↦ store_ota_params payload out url version size crc
            ]
          ]
        ]
      ]
