-- ===== src/Mqtt.antt =====
-- The MQTT connection (port/network_interface/mqtt_interface.c). What the MQTT library, the sockets, the
-- TLS library and the name server answer is given in advance.
pub mod Table
pub mod Connect
pub mod Session
pub mod Subscriptions
pub mod Readable
pub mod TlsKept
mod Tests
use rp2040_wiznet_eaa_s_aws.Prelude.{
  ℕ, ◌+◌, ◌-◌, Bool, false, ltb, ◌==◌, true, ◌&&◌, if◌then◌else◌, not, List, [], ◌∷◌, Option, none,
  some, length, replicate, set, map, ◌>>=◌,
}
use rp2040_wiznet_eaa_s_aws.Prelude.Word.{u8, u16, sub32}
use rp2040_wiznet_eaa_s_aws.Prelude.Int.{ℤ, pos, negsuc, is_zero}
use rp2040_wiznet_eaa_s_aws.Prelude.CStr.{strlen, strncmp_eq}
use rp2040_wiznet_eaa_s_aws.Device.{is_ipaddr}

abbrev pub mqtt_subscription_max_num : ℕ
mqtt_subscription_max_num = 5

abbrev pub mqtt_read_timeout_ms : ℕ
mqtt_read_timeout_ms = 1000

abbrev pub mqtt_keep_alive_s : ℕ
mqtt_keep_alive_s = 30

pub data MqttState : Type 0 where
  mqtt_idle mqtt_running : MqttState

-- A pointer to a text: to a constant of the program, to a buffer of a function that has not returned, or
-- to a buffer that is gone.
pub data TopicFilter : Type 0 where
  null_topic : TopicFilter
  constant : List ℕ → TopicFilter
  local : List ℕ → TopicFilter
  gone : TopicFilter

-- Reading through a pointer; `none` is a null pointer, or a buffer that is gone.
abbrev pub topic_text : TopicFilter → Option (List ℕ)
topic_text null_topic = none
topic_text (constant s) = some s
topic_text (local s) = some s
topic_text gone = none

pub record SubscribeInfo : Type 0 where
  pub qos : ℕ
  pub topic_filter : TopicFilter
  pub topic_filter_length : ℕ

abbrev pub no_subscription : SubscribeInfo
no_subscription = record { qos = 0; topic_filter = null_topic; topic_filter_length = 0 }

-- `none` is a null pointer.
pub record ConnectInfo : Type 0 where
  pub clean_session : Bool
  pub client_identifier : Option (List ℕ)
  pub client_identifier_length : ℕ
  pub keep_alive_seconds : ℕ
  pub user_name : Option (List ℕ)
  pub user_name_length : ℕ
  pub password : Option (List ℕ)
  pub password_length : ℕ

-- The functions that the library calls back.
pub data Callback : Type 0 where
  dummy_callback jobs_callback provisioning_callback : Callback

-- The callback that is set, or the file's own.
abbrev pub chosen_callback : Option Callback → Callback
chosen_callback none = dummy_callback
chosen_callback (some c) = c

-- Of the library's context the callback is kept, as MQTT_Init sets it.
pub record MqttConfig : Type 0 where
  pub mqtt_context : Option Callback
  pub mqtt_connect_info : ConnectInfo
  pub mqtt_state : MqttState
  pub mqtt_subscribe_info : List SubscribeInfo
  pub subscribe_count : ℕ
  pub mqtt_ip : List ℕ

-- What `memset` leaves.
abbrev pub empty_mqtt_config : MqttConfig
empty_mqtt_config = record {
  mqtt_context = none;
  mqtt_connect_info = record {
    clean_session = false;
    client_identifier = none;
    client_identifier_length = 0;
    keep_alive_seconds = 0;
    user_name = none;
    user_name_length = 0;
    password = none;
    password_length = 0;
  };
  mqtt_state = mqtt_idle;
  mqtt_subscribe_info = replicate mqtt_subscription_max_num no_subscription;
  subscribe_count = 0;
  mqtt_ip = replicate 4 0;
}

-- The certificates that a TLS connection uses.
pub record TlsContext : Type 0 where
  pub client_cert : List ℕ
  pub private_key : List ℕ

abbrev pub is_set : Option TlsContext → Bool
is_set none = false
is_set (some tls) = true

-- The socket that the library's transport functions use, and whether these are the TLS ones.
pub record Transport : Type 0 where
  pub sock : ℕ
  pub is_secure : Bool

-- What was done on the network.
pub data Effect : Type 0 where
  opened : ℕ → List ℕ → ℕ → Effect
  connected : ConnectInfo → Effect
  subscribed : List ℕ → Effect
  unsubscribed : List ℕ → Effect
  published : List ℕ → List ℕ → Effect

-- The variables of the file, and what was done on the network, the last first. `tls_context` is the
-- pointer g_mqtt_tls_context_ptr. `tls_allocated` tells whether there is a TLS context that
-- `tls_socket_init` has set up and that has not been freed since.
pub record Mqtt : Type 0 where
  pub config : MqttConfig
  pub event_callback : Option Callback
  pub tls_context : Option TlsContext
  pub tls_allocated : Bool
  pub transport : Option Transport
  pub effects : List Effect

unfoldable pub set_mqtt_state : MqttState → Mqtt → Mqtt
set_mqtt_state state m = record m { config = record m.config { mqtt_state = state } }

unfoldable pub get_mqtt_state : Mqtt → MqttState
get_mqtt_state m = m.config.mqtt_state

unfoldable pub set_mqtt_event_callback : Option Callback → Mqtt → Mqtt
set_mqtt_event_callback callback m = record m { event_callback = callback }

unfoldable pub unset_mqtt_event_callback : Mqtt → Mqtt
unset_mqtt_event_callback m = record m { event_callback = none }

-- The length of a text that may be missing.
abbrev pub opt_strlen : Option (List ℕ) → ℕ
opt_strlen none = 0
opt_strlen (some s) = strlen s

-- The information for the library.
abbrev pub connect_info_of : Bool → List ℕ → Option (List ℕ) → Option (List ℕ) → ℕ → ConnectInfo
connect_info_of clean_session' client_id user_name' password' keep_alive = record {
  clean_session = clean_session';
  client_identifier = some client_id;
  client_identifier_length = u16 (strlen client_id);
  keep_alive_seconds = u16 keep_alive;
  user_name = user_name';
  user_name_length = u16 (opt_strlen user_name');
  password = password';
  password_length = u16 (opt_strlen password');
}

-- By the state that the connection is in.
unfoldable pub init_in :
    MqttState → Bool → Option (List ℕ) → Option (List ℕ) → Option (List ℕ) → ℕ → Mqtt → ℤ × Mqtt
unfolding strlen
init_in mqtt_running clean_session' client_id user_name' password' keep_alive m = (negsuc 0, m)
init_in mqtt_idle clean_session' none user_name' password' keep_alive m = (negsuc 0, m)
init_in mqtt_idle clean_session' (some client_id) user_name' password' keep_alive m = (
  pos 0,
  record m {
    config = record empty_mqtt_config {
      mqtt_connect_info = connect_info_of clean_session' client_id user_name' password' keep_alive;
    };
  },
)

unfoldable pub mqtt_transport_init :
    Bool → Option (List ℕ) → Option (List ℕ) → Option (List ℕ) → ℕ → Mqtt → ℤ × Mqtt
unfolding init_in
mqtt_transport_init clean_session' client_id user_name' password' keep_alive m =
    init_in m.config.mqtt_state clean_session' client_id user_name' password' keep_alive m

-- The TLS context is freed through the pointer, if that is set; whether the socket disconnects is given.
unfoldable pub mqtt_transport_close : Bool → Bool → Mqtt → ℤ × Mqtt
mqtt_transport_close disconnects ssl_flag m = (
  if disconnects then pos 0 else negsuc 0,
  record m {
    tls_context = if ssl_flag then none else m.tls_context;
    tls_allocated = if ssl_flag && is_set m.tls_context then false else m.tls_allocated;
    config = record m.config { subscribe_count = 0; mqtt_state = mqtt_idle };
  },
)

-- Whether the library sends the message is given.
unfoldable pub mqtt_transport_publish : Bool → List ℕ → List ℕ → Mqtt → ℤ × Mqtt
mqtt_transport_publish accepts topic payload m =
    if accepts
    then (pos 0, record m { effects = published topic payload ∷ m.effects })
    else (negsuc 0, m)

-- One round of the loop that reads: how many bytes wait, what `recv` returns, and the clock behind it.
pub record ReadRound : Type 0 where
  pub rx_size : ℕ
  pub recv_result : ℤ
  pub now : ℕ

-- Whether the socket is connected, and what `send` returns, are given.
unfoldable pub mqtt_write : Bool → ℤ → ℤ
mqtt_write is_established send_result = if is_established then send_result else pos 0

-- The loop that waits for bytes; `none` when it still waits at the end of what was given.
unfoldable pub mqtt_read : ℕ → List ReadRound → Option ℤ
mqtt_read start [] = none
mqtt_read start (round ∷ rounds) =
    let size : ℤ = if ltb 0 round.rx_size then round.recv_result else pos 0 in
    let again = mqtt_read start rounds in
    let late = if ltb mqtt_read_timeout_ms (sub32 round.now start) then some size else again in
    if not (is_zero size) then some size else late

unfoldable pub mqtts_write : Bool → ℤ → ℤ
mqtts_write is_established write_result = if is_established then write_result else pos 0

unfoldable pub mqtts_read : Bool → ℤ → ℤ
mqtts_read is_established read_result = if is_established then read_result else pos 0
