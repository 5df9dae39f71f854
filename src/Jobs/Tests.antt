-- ===== src/Jobs/Tests.antt =====
-- The jobs on a concrete chip, with a JSON library that knows the values of one payload.
use rp2040_wiznet_eaa_s_aws.Prelude.{
  ℕ, ◌≡◌, ◌⊎◌, refl, true, false, List, [], ◌∷◌, ◌++◌, none, some, length, replicate, Mem, arith,
  Returns,
}
use rp2040_wiznet_eaa_s_aws.Prelude.Int.{ℤ, pos, negsuc}
use rp2040_wiznet_eaa_s_aws.Flash.Rom.{simple_rom, simple_rom-IsFlash}
use rp2040_wiznet_eaa_s_aws.Http.{Network, empty_http_config}
use rp2040_wiznet_eaa_s_aws.Jobs.JobList.{no_jobs}
use rp2040_wiznet_eaa_s_aws.Jobs.JobList.Refine.{slots_of}
use rp2040_wiznet_eaa_s_aws.Jobs.Parse.{Json}
use rp2040_wiznet_eaa_s_aws.Jobs.Ota.{
  http_success, http_insufficient_memory, bytes, Exchange, ota_http_send_request_callback,
}
use rp2040_wiznet_eaa_s_aws.Jobs.Ota.Callback.{ota_http_send_request_callback_returns}
use rp2040_wiznet_eaa_s_aws.Jobs.Ota.Chunks.{ota_http_send_request_callback-IsStored}
use rp2040_wiznet_eaa_s_aws.Jobs.Ota.Stored.{IsStored}
use rp2040_wiznet_eaa_s_aws.Jobs.Events.{
  JobsState, empty_execution, publish, start_next_topic, update_topic, Round, get_topic,
  iot_jobs_event_callback, wait_loop,
}
use rp2040_wiznet_eaa_s_aws.Jobs.Handler.Running.{
  KeepsJob, iot_jobs_event_callback-KeepsJob, wait_loop_timeout,
}
use rp2040_wiznet_eaa_s_aws.Jobs.Handler.Queued.{queued, iot_jobs_event_callback-queued}

abbrev test_host : List ℕ
test_host = b'1' ∷ b'0' ∷ b'.' ∷ b'0' ∷ b'.' ∷ b'0' ∷ b'.' ∷ b'1' ∷ []

abbrev thing : List ℕ
thing = b'd' ∷ b'e' ∷ b'v' ∷ []

abbrev erased_flash : Mem
erased_flash = λ a. 0xff

abbrev up : Network
up = record {
  dns_answer = none;
  socket_opens = true;
  connects = true;
  tls_connects = false;
  http_network_error = pos 2;
}

-- A body that fills the buffer, then one byte.
abbrev body : List ℕ
body = replicate 2048 7

abbrev exchange : Exchange
exchange = record {
  initialized = http_success;
  added_content_type = http_success;
  added_connection = http_success;
  sent = http_insufficient_memory;
  body = body;
  content_length = 2049;
  received = bytes [] ∷ bytes (5 ∷ []) ∷ bytes [] ∷ [];
}

abbrev stream : List ℕ
stream = (body ++ []) ++ ([] ++ ((5 ∷ []) ++ []))

ota_http_send_request_callback-IsStored_example :
    Returns
      (ota_http_send_request_callback simple_rom exchange erased_flash)
      (λ r. (r.0 ≡ pos 0) × IsStored stream erased_flash r.1)
unfolding ota_http_send_request_callback
ota_http_send_request_callback-IsStored_example =
    ota_http_send_request_callback-IsStored simple_rom simple_rom-IsFlash exchange [] [] (5 ∷ []) []
      erased_flash refl refl refl tt (omega arith) (omega arith) (omega arith) refl (omega arith)

-- A response that fits the client's buffer.
abbrev short_exchange : Exchange
short_exchange = record exchange { sent = http_success }

ota_http_send_request_callback_returns_example :
    (◌≡◌ {A = ℤ} (negsuc 1) (pos 0)) ⊎ (◌≡◌ {A = ℤ} (negsuc 1) (negsuc 1))
unfolding ota_http_send_request_callback
ota_http_send_request_callback_returns_example =
    ota_http_send_request_callback_returns simple_rom short_exchange erased_flash erased_flash
      (negsuc 1) ends
  where
    ends :
        ota_http_send_request_callback simple_rom short_exchange erased_flash
        ≡ some (negsuc 1, erased_flash)
    ends = refl

-- Four bytes, whose checksum is 0x0d03.
abbrev four_exchange : Exchange
four_exchange = record exchange {
  body = 1 ∷ 2 ∷ 3 ∷ 4 ∷ [];
  content_length = 4;
  received = bytes [] ∷ [];
}

abbrev state : JobsState
state = record {
  job_id_list = no_jobs;
  execution = empty_execution;
  process_log = [];
  thing_name_for_event_callback = some thing;
  has_job_id_for_event_callback = true;
  recved_get_job = false;
  recved_start_next_job = false;
  recved_job_update = false;
  http_config = empty_http_config;
  flash = erased_flash;
  published = [];
}

abbrev id_payload : List ℕ
id_payload = b'j' ∷ b'7' ∷ []

-- A library that takes the whole payload for the value.
abbrev whole_json : Json
whole_json = record {
  json_validate = λ payload. true;
  json_search = λ payload query. some (0, length payload);
}

iot_jobs_event_callback-queued_example :
    Returns
      (iot_jobs_event_callback whole_json (publish (get_topic state) id_payload) state)
      (λ s'. (s'.recved_get_job ≡ true) × (s'.job_id_list ≡ slots_of (queued [] id_payload)))
unfolding get_topic start_next_topic update_topic
iot_jobs_event_callback-queued_example =
    iot_jobs_event_callback-queued whole_json id_payload thing id_payload [] state
      ((λ q. omega arith, (λ q. omega arith, tt)), omega arith, omega arith)
      (record { is_json = refl; index = 0; behind = []; found = refl; value = refl }) (omega arith)
      tt refl refl (omega arith) (omega arith)

abbrev running_state : JobsState
running_state = record state { execution = record empty_execution { is_job_started = true } }

iot_jobs_event_callback-KeepsJob_example :
    KeepsJob running_state (record running_state { recved_start_next_job = true })
unfolding iot_jobs_event_callback
iot_jobs_event_callback-KeepsJob_example =
    iot_jobs_event_callback-KeepsJob whole_json
      (publish (start_next_topic running_state) id_payload) running_state
      (record running_state { recved_start_next_job = true }) refl refl

abbrev silent : Round
silent = record { now = 500; packets = [] }

abbrev late : Round
late = record { now = 1600; packets = [] }

wait_loop_timeout_example :
    wait_loop whole_json
      (λ t. t.recved_get_job)
      (λ t. record t { recved_get_job = false })
      1000
      500
      ((silent ∷ []) ++ late ∷ [])
      state
    ≡ some (false, state)
wait_loop_timeout_example =
    wait_loop_timeout whole_json (λ t. t.recved_get_job) (λ t. record t { recved_get_job = false })
      1000 500 (silent ∷ []) late [] state refl ((refl, omega arith), tt) (omega arith)
