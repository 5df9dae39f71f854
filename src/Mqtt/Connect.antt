-- ===== src/Mqtt/Connect.antt =====
-- How a connection is made (port/network_interface/mqtt_interface.c). What the name server, the sockets, the
-- TLS and the MQTT library answer is given in advance.
use rp2040_wiznet_eaa_s_aws.Prelude.{
  ℕ, Bool, true, if◌then◌else◌, not, List, ◌∷◌, Option, none, some, ◌>>=◌,
}
use rp2040_wiznet_eaa_s_aws.Prelude.Int.{ℤ, pos, negsuc, is_zero}
use rp2040_wiznet_eaa_s_aws.Tls.{TlsSetUp, tls_socket_init}
use rp2040_wiznet_eaa_s_aws.Device.{is_ipaddr}
use rp2040_wiznet_eaa_s_aws.Mqtt.{
  Mqtt, MqttState, TlsContext, chosen_callback, connected, mqtt_idle, mqtt_running,
  mqtt_transport_close, opened,
}

-- The answers while a connection is made: the address from the name server, the calls of the sockets, the
-- results of the TLS calls, the three calls of the MQTT library, and the socket's disconnection.
pub record ConnectAnswers : Type 0 where
  pub dns_answer : Option (List ℕ)
  pub socket_opens : Bool
  pub connects : Bool
  pub tls_set_up : TlsSetUp
  pub tls_socket_connect : ℤ
  pub mqtt_init : Bool
  pub mqtt_init_stateful_qos : Bool
  pub mqtt_connect : Bool
  pub disconnects : Bool

module _ (answers : ConnectAnswers) (sock' : ℕ) (ssl_flag : Bool) where
  -- The end of every branch that fails.
  unfoldable pub connect_failed : ℤ → Mqtt → ℤ × Mqtt
  unfolding mqtt_transport_close
  connect_failed ret m = (ret, (mqtt_transport_close answers.disconnects ssl_flag m).1)

  -- The address of the broker; a result that is not 0 ends the connection.
  unfoldable pub find_broker : List ℕ → Mqtt → Option (ℤ × Mqtt)
  unfolding is_ipaddr connect_failed
  find_broker domain m = is_ipaddr domain m.config.mqtt_ip >>= λ answer.
      let m' : Mqtt = record m { config = record m.config { mqtt_ip = answer.1 } } in
      if answer.0 then some (pos 0, m') else elim answers.dns_answer [
        | none ↦ some (connect_failed (negsuc 0) m')
        | some ip ↦ some (pos 0, record m { config = record m.config { mqtt_ip = ip } })
      ]

  -- The connection to the broker's address, with TLS or without. Both contexts that the program has ask for
  -- the verification of the server and for a certificate of the client. The pointer to the context is set
  -- at the end, so `connect_failed` does not free a context whose set-up or handshake fails.
  unfoldable pub open_connection : ℕ → TlsContext → Mqtt → ℤ × Mqtt
  unfolding connect_failed tls_socket_init
  open_connection port tls m =
      let m' : Mqtt = record m {
        transport = some (record { sock = sock'; is_secure = ssl_flag });
        effects = opened sock' m.config.mqtt_ip port ∷ m.effects;
        tls_context = if ssl_flag then some tls else m.tls_context;
        tls_allocated = if ssl_flag then true else m.tls_allocated;
      } in
      let allocated : Mqtt = record m { tls_allocated = true } in
      if ssl_flag
      then if not (is_zero (tls_socket_init true true answers.tls_set_up))
        then connect_failed (tls_socket_init true true answers.tls_set_up) allocated
        else if not (is_zero answers.tls_socket_connect)
        then connect_failed answers.tls_socket_connect allocated
        else (pos 0, m')
      else if not answers.socket_opens
      then connect_failed (negsuc 0) m
      else if not answers.connects
      then connect_failed (negsuc 0) m
      else (pos 0, m')

  -- The session with the broker.
  unfoldable pub open_session : Mqtt → ℤ × Mqtt
  unfolding connect_failed
  open_session m =
      let m' : Mqtt = record m {
        config = record m.config { mqtt_context = some (chosen_callback m.event_callback) };
      } in
      if not answers.mqtt_init
      then connect_failed (negsuc 0) m
      else if not answers.mqtt_init_stateful_qos
      then connect_failed (negsuc 0) m'
      else if not answers.mqtt_connect
      then connect_failed (negsuc 0) m'
      else (
        pos 0,
        record m' {
          config = record m'.config { mqtt_state = mqtt_running };
          effects = connected m.config.mqtt_connect_info ∷ m.effects;
        },
      )

  -- By the state that the connection is in.
  unfoldable pub connect_in : MqttState → List ℕ → ℕ → TlsContext → Mqtt → Option (ℤ × Mqtt)
  unfolding find_broker open_connection open_session
  connect_in mqtt_running domain port tls m = some (negsuc 0, m)
  connect_in mqtt_idle domain port tls m = find_broker domain m >>= λ found.
      let link = open_connection port tls found.1 in
      let session = open_session link.1 in
      some (if not (is_zero found.0) then found else if not (is_zero link.0) then link else session)

  unfoldable pub mqtt_transport_connect : List ℕ → ℕ → TlsContext → Mqtt → Option (ℤ × Mqtt)
  unfolding connect_in
  mqtt_transport_connect domain port tls m = connect_in m.config.mqtt_state domain port tls m
