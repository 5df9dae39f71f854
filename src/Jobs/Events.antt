-- ===== src/Jobs/Events.antt =====
-- The events of the handler (app/aws_iot/iot_jobs_handler.c): the callback for what MQTT delivers, and the
-- loops that wait for it. A write behind the end of a buffer is `none`.
use rp2040_wiznet_eaa_s_aws.Prelude.{
  ℕ, Bool, true, false, ltb, if◌then◌else◌, List, [], ◌∷◌, ◌++◌, Option, none, some, length,
  replicate, Mem, ◌>>=◌,
}
use rp2040_wiznet_eaa_s_aws.Prelude.Word.{u16, sub32}
use rp2040_wiznet_eaa_s_aws.Prelude.CStr.{c_str, strlen, strncmp_eq, copy_terminated}
use rp2040_wiznet_eaa_s_aws.Http.{HttpConfig}
use rp2040_wiznet_eaa_s_aws.Jobs.JobList.{JobIdList, add_job_id, is_exist_job_id}
use rp2040_wiznet_eaa_s_aws.Jobs.Texts.{
  aws_things, jobs, get_accepted, start_next_accepted, update_accepted, null_text,
}
use rp2040_wiznet_eaa_s_aws.Jobs.Parse.{
  Json, OtaParams, parsing_get_job_accepted, parsing_start_next_job_accepted,
}

abbrev pub max_mqtt_topic_size : ℕ
max_mqtt_topic_size = 256

-- AWS_JOBS_EXECUTION_PARAMS_t.
pub record Execution : Type 0 where
  pub is_job_started : Bool
  pub job_type : List ℕ
  pub job_id : List ℕ
  pub job_document : List ℕ
  pub job_ota : OtaParams

-- What `memset` leaves.
abbrev pub empty_execution : Execution
empty_execution = record {
  is_job_started = false;
  job_type = replicate 64 0;
  job_id = replicate 64 0;
  job_document = replicate 4096 0;
  job_ota = record {
    firmware_url = replicate 2176 0;
    firmware_crc = 0;
    firmware_version = replicate 64 0;
    firmware_size = 0;
  };
}

-- The handler's variables, the HTTP client's configuration, the flash, and the messages that
-- the MQTT library has sent, the last one first. The callback's pointer to the job id is null or
-- points to the id in `execution`.
pub record JobsState : Type 0 where
  pub job_id_list : JobIdList
  pub execution : Execution
  pub process_log : List ℕ
  pub thing_name_for_event_callback : Option (List ℕ)
  pub has_job_id_for_event_callback : Bool
  pub recved_get_job : Bool
  pub recved_start_next_job : Bool
  pub recved_job_update : Bool
  pub http_config : HttpConfig
  pub flash : Mem
  pub published : List (List ℕ × List ℕ)

-- What the MQTT library delivers: a message with its topic and its payload, or another packet.
pub data Packet : Type 0 where
  publish : List ℕ → List ℕ → Packet
  other_packet : Packet

-- `%s` of a pointer that may be null.
abbrev pub text_of : Option (List ℕ) → List ℕ
text_of none = null_text
text_of (some s) = c_str s

-- `sprintf` into a topic's buffer, and `strncmp` with the topic of a message, over the latter's length.
unfoldable pub is_topic : List ℕ → List ℕ → Option Bool
unfolding strncmp_eq
is_topic text topic =
    if ltb (length text) max_mqtt_topic_size
    then some (strncmp_eq topic text (length topic))
    else none

-- The texts that are compared with.
unfoldable pub get_topic : JobsState → List ℕ
unfolding c_str
get_topic s = aws_things ++ text_of s.thing_name_for_event_callback ++ get_accepted

unfoldable pub start_next_topic : JobsState → List ℕ
unfolding c_str
start_next_topic s = aws_things ++ text_of s.thing_name_for_event_callback ++ start_next_accepted

unfoldable pub update_topic : JobsState → List ℕ
unfolding c_str
update_topic s =
    aws_things
    ++ text_of s.thing_name_for_event_callback
    ++ jobs
    ++ text_of (if s.has_job_id_for_event_callback then some s.execution.job_id else none)
    ++ update_accepted

-- What a part of the callback did: whether it returned, the buffer for the job id, and the state.
pub record Handled : Type 0 where
  pub is_returned : Bool
  pub temp_job_id : List ℕ
  pub state : JobsState

-- One round of a loop that waits: the clock, and the packets that arrive.
pub record Round : Type 0 where
  pub now : ℕ
  pub packets : List Packet

module _ (json : Json) where
  -- A message with the list of queued jobs.
  unfoldable pub on_get_accepted : List ℕ → List ℕ → JobsState → Option Handled
  unfolding parsing_get_job_accepted is_exist_job_id add_job_id strlen
  on_get_accepted payload temp_job_id s =
      let s' : JobsState = record s { recved_get_job = true } in
      let parsed = parsing_get_job_accepted json payload temp_job_id (length temp_job_id) in
      let id_length = u16 (strlen parsed.1) in
      let add = add_job_id s.job_id_list parsed.1 id_length >>= λ added. some (record {
        is_returned = if added.0 then false else true;
        temp_job_id = parsed.1;
        state = record s' { job_id_list = added.1 };
      }) in
      if parsed.0
      then if is_exist_job_id s.job_id_list parsed.1 id_length
        then some (record { is_returned = true; temp_job_id = parsed.1; state = s' })
        else add
      else some (record { is_returned = false; temp_job_id = parsed.1; state = s' })

  -- A message with the next job: it is kept unless a job is running.
  unfoldable pub on_start_next_accepted : List ℕ → List ℕ → JobsState → Option JobsState
  unfolding parsing_start_next_job_accepted copy_terminated strlen
  on_start_next_accepted payload temp_job_id s =
      let s' : JobsState = record s { recved_start_next_job = true } in
      parsing_start_next_job_accepted json payload temp_job_id (replicate 4096 0) (replicate 64 0)
      >>= λ parsed.
          let store =
            copy_terminated s.execution.job_id parsed.1 (u16 (strlen parsed.1)) >>= λ job_id'.
            copy_terminated s.execution.job_document parsed.2 (u16 (strlen parsed.2))
            >>= λ document'.
                copy_terminated s.execution.job_type parsed.3 (u16 (strlen parsed.3)) >>= λ type'.
                some (record s' {
                  execution = record s.execution {
                    job_id = job_id';
                    job_document = document';
                    job_type = type';
                  };
                }) in
          if parsed.0 then (if s.execution.is_job_started then some s' else store) else some s'

  -- The callback behind the first part.
  unfoldable pub handle_rest : List ℕ → List ℕ → Handled → Option JobsState
  unfolding is_topic start_next_topic update_topic on_start_next_accepted
  handle_rest topic payload h =
      if h.is_returned
      then some h.state
      else is_topic (start_next_topic h.state) topic >>= λ next.
          (if next then on_start_next_accepted payload h.temp_job_id h.state else some h.state)
          >>= λ s'. is_topic (update_topic s') topic >>= λ updated.
              some (if updated then record s' { recved_job_update = true } else s')

  unfoldable pub iot_jobs_event_callback : Packet → JobsState → Option JobsState
  unfolding is_topic get_topic on_get_accepted handle_rest
  iot_jobs_event_callback other_packet s = some s
  iot_jobs_event_callback (publish topic payload) s = is_topic (get_topic s) topic >>= λ got.
      (if got
        then on_get_accepted payload (replicate 64 0) s
        else some (record { is_returned = false; temp_job_id = replicate 64 0; state = s }))
      >>= λ h. handle_rest topic payload h

  -- `MQTT_ProcessLoop` calls back for every packet that has arrived.
  unfoldable pub mqtt_transport_yield : List Packet → JobsState → Option JobsState
  unfolding iot_jobs_event_callback
  mqtt_transport_yield [] s = some s
  mqtt_transport_yield (p ∷ packets) s =
      iot_jobs_event_callback p s >>= λ s'. mqtt_transport_yield packets s'

  -- The loop of the three waits; `none` when it still waits at the end of what was given.
  unfoldable pub wait_loop :
      (JobsState → Bool)
      → (JobsState → JobsState)
      → ℕ
      → ℕ
      → List Round
      → JobsState
      → Option (Bool × JobsState)
  unfolding mqtt_transport_yield
  wait_loop recved clear timeout_ms start [] s = none
  wait_loop recved clear timeout_ms start (round ∷ rounds) s =
      let rest = mqtt_transport_yield round.packets s >>= λ s'.
      let again = wait_loop recved clear timeout_ms start rounds s' in
      if recved s' then some (true, clear s') else again in
      if ltb timeout_ms (sub32 round.now start) then some (false, s) else rest

  unfoldable pub iot_jobs_mqtt_wait_recv_get_job :
      ℕ → ℕ → List Round → JobsState → Option (Bool × JobsState)
  unfolding wait_loop
  iot_jobs_mqtt_wait_recv_get_job timeout_ms start rounds s =
      wait_loop (λ t. t.recved_get_job) (λ t. record t { recved_get_job = false }) timeout_ms start
        rounds s

  unfoldable pub iot_jobs_mqtt_wait_recv_start_next_job :
      ℕ → ℕ → List Round → JobsState → Option (Bool × JobsState)
  unfolding wait_loop
  iot_jobs_mqtt_wait_recv_start_next_job timeout_ms start rounds s =
      wait_loop (λ t. t.recved_start_next_job) (λ t. record t { recved_start_next_job = false })
        timeout_ms start rounds s

  unfoldable pub iot_jobs_mqtt_wait_recv_job_update_accepted :
      ℕ → ℕ → List Round → JobsState → Option (Bool × JobsState)
  unfolding wait_loop
  iot_jobs_mqtt_wait_recv_job_update_accepted timeout_ms start rounds s =
      wait_loop (λ t. t.recved_job_update) (λ t. record t { recved_job_update = false }) timeout_ms
        start rounds s
