-- ===== src/Mqtt/Session.antt =====
-- How a connection is made and ended (port/network_interface/mqtt_interface.c).
pub mod Opened
use rp2040_wiznet_eaa_s_aws.Prelude.{
  sym, subst, Returns, Returns-mono, Returns-both, Returns-bind, IfReturns-bind, IfReturns-intro,
  ap, ap₂, ◌∷◌, not, if◌then◌else◌, ap, ap₂, ℕ, ◌≡◌, ◌⊎◌, inl, inr, refl, Bool, true, false, List,
  Option, none, some, arith, ◌>>=◌, IfReturns, Bool-cases,
}
use rp2040_wiznet_eaa_s_aws.Prelude.Int.{ℤ, pos, negsuc, is_zero}
use rp2040_wiznet_eaa_s_aws.Tls.{tls_socket_init}
use rp2040_wiznet_eaa_s_aws.Device.{is_ipaddr}
use rp2040_wiznet_eaa_s_aws.Mqtt.{
  Mqtt, MqttConfig, mqtt_idle, mqtt_running, TlsContext, Transport, Callback, dummy_callback,
  chosen_callback, connected, opened, Effect, connect_info_of, empty_mqtt_config, init_in,
  mqtt_transport_init, mqtt_transport_close,
}
use rp2040_wiznet_eaa_s_aws.Mqtt.Connect.{
  ConnectAnswers, connect_failed, find_broker, open_connection, open_session, connect_in,
  mqtt_transport_connect,
}

-- No session, and no subscription in the table.
pub record IsClosed (m : Mqtt) : Type 0 where
  pub idle : m.config.mqtt_state ≡ mqtt_idle
  pub no_subscriptions : m.config.subscribe_count ≡ 0

-- A session with the broker over the given socket, that calls the given function back; with TLS it uses
-- the context.
pub record IsOpen (sock port : ℕ) (ssl_flag : Bool) (tls : TlsContext) (before m : Mqtt)
    : Type 0 where
  pub running : m.config.mqtt_state ≡ mqtt_running
  pub calls_back : m.config.mqtt_context ≡ some (chosen_callback before.event_callback)
  pub transported : m.transport ≡ some (record { sock = sock; is_secure = ssl_flag })
  pub secured : ssl_flag ≡ true → m.tls_context ≡ some tls
  pub same_subscriptions : m.config.subscribe_count ≡ before.config.subscribe_count
  pub same_table : m.config.mqtt_subscribe_info ≡ before.config.mqtt_subscribe_info
  pub done :
      m.effects
      ≡ connected before.config.mqtt_connect_info
        ∷ opened sock m.config.mqtt_ip port
        ∷ before.effects

-- What no step of a connection changes before the session.
pub record IsKept (before m : Mqtt) : Type 0 where
  pub same_callback : m.event_callback ≡ before.event_callback
  pub same_count : m.config.subscribe_count ≡ before.config.subscribe_count
  pub same_slots : m.config.mqtt_subscribe_info ≡ before.config.mqtt_subscribe_info
  pub same_info : m.config.mqtt_connect_info ≡ before.config.mqtt_connect_info

module _ (answers : ConnectAnswers) (sock port : ℕ) (ssl_flag : Bool) (tls : TlsContext) where
  -- The result is 0 with a session, or another one with none.
  abbrev pub Outcome : Mqtt → ℤ × Mqtt → Type 0
  Outcome before r =
      ((is_zero r.0 ≡ true) × IsOpen sock port ssl_flag tls before r.1)
      ⊎ ((is_zero r.0 ≡ false) × IsClosed r.1)

  failed :
      (before m : Mqtt) (ret : ℤ)
      → is_zero ret ≡ false
      → Outcome before (connect_failed answers sock ssl_flag ret m)
  unfolding connect_failed mqtt_transport_close
  failed before m ret h = inr (h, record { idle = refl; no_subscriptions = refl })

  session-Outcome :
      (before m : Mqtt)
      → IsKept before m
      → m.transport ≡ some (record { sock = sock; is_secure = ssl_flag })
      → (ssl_flag ≡ true → m.tls_context ≡ some tls)
      → m.effects ≡ opened sock m.config.mqtt_ip port ∷ before.effects
      → Outcome before (open_session answers sock ssl_flag m)
  unfolding open_session
  session-Outcome before m kept link secure effects =
      let m' : Mqtt = record m {
        config = record m.config { mqtt_context = some (chosen_callback m.event_callback) };
      } in
      elim (Bool-cases answers.mqtt_init) [
        | inr q ↦ rw q (failed before m (negsuc 0) refl)
        | inl p ↦ elim (Bool-cases answers.mqtt_init_stateful_qos) [
          | inr q ↦ rw (p, q) (failed before m' (negsuc 0) refl)
          | inl p' ↦ elim (Bool-cases answers.mqtt_connect) [
            | inr q ↦ rw (p, p', q) (failed before m' (negsuc 0) refl)
            | inl p'' ↦
                rw (p, p', p'')
                  (inl (
                    refl,
                    record {
                      running = refl;
                      calls_back = ap (λ c. some (chosen_callback c)) kept.same_callback;
                      transported = link;
                      secured = secure;
                      same_subscriptions = kept.same_count;
                      same_table = kept.same_slots;
                      done = ap₂ ◌∷◌ (ap connected kept.same_info) effects;
                    },
                  ))
          ]
        ]
      ]

  link_failed :
      (before m : Mqtt) (ret : ℤ)
      → is_zero ret ≡ false
      → let link = connect_failed answers sock ssl_flag ret m in
        Outcome before
          (if not (is_zero link.0) then link else open_session answers sock ssl_flag link.1)
  unfolding connect_failed mqtt_transport_close
  link_failed before m ret h = rw h (inr (h, record { idle = refl; no_subscriptions = refl }))

  -- Behind the name server.
  open-Outcome :
      (before m : Mqtt)
      → IsKept before m
      → m.effects ≡ before.effects
      → let link = open_connection answers sock ssl_flag port tls m in
        Outcome before
          (if not (is_zero link.0) then link else open_session answers sock ssl_flag link.1)
  unfolding open_connection
  open-Outcome before m kept effects =
      let opened_to : List Effect = opened sock m.config.mqtt_ip port ∷ m.effects in
      let linked : Mqtt = record m {
        transport = some (record { sock = sock; is_secure = ssl_flag });
        effects = opened_to;
        tls_context = if ssl_flag then some tls else m.tls_context;
        tls_allocated = if ssl_flag then true else m.tls_allocated;
      } in
      let allocated : Mqtt = record m { tls_allocated = true } in
      let kept' : IsKept before linked = record {
        same_callback = kept.same_callback;
        same_count = kept.same_count;
        same_slots = kept.same_slots;
        same_info = kept.same_info;
      } in
      let session : Outcome before (open_session answers sock ssl_flag linked) =
        session-Outcome before linked kept' refl (λ e. rw e refl)
          (ap (λ l. opened sock m.config.mqtt_ip port ∷ l) effects) in
      elim (Bool-cases ssl_flag) [
        | inl p ↦ elim (Bool-cases (is_zero (tls_socket_init true true answers.tls_set_up))) [
          | inr q ↦
              rw (p, q)
                (rw p at
                  (link_failed before allocated (tls_socket_init true true answers.tls_set_up) q))
          | inl q ↦ elim (Bool-cases (is_zero answers.tls_socket_connect)) [
            | inr q' ↦
                rw (p, q, q') (rw p at (link_failed before allocated answers.tls_socket_connect q'))
            | inl q' ↦ rw (p, q, q') (rw p at session)
          ]
        ]
        | inr p ↦ elim (Bool-cases answers.socket_opens) [
          | inr q ↦ rw (p, q) (rw p at (link_failed before m (negsuc 0) refl))
          | inl q ↦ elim (Bool-cases answers.connects) [
            | inr q' ↦ rw (p, q, q') (rw p at (link_failed before m (negsuc 0) refl))
            | inl q' ↦ rw (p, q, q') (rw (p, q, q') at session)
          ]
        ]
      ]

  -- The broker's address is found, or the connection is closed.
  abbrev Found : Mqtt → ℤ × Mqtt → Type 0
  Found before r =
      ((is_zero r.0 ≡ true) × IsKept before r.1 × (r.1.effects ≡ before.effects))
      ⊎ ((is_zero r.0 ≡ false) × IsClosed r.1)

  found :
      (domain : List ℕ) (m : Mqtt)
      → IfReturns (find_broker answers sock ssl_flag domain m) (Found m)
  unfolding find_broker connect_failed mqtt_transport_close
  found domain m =
      IfReturns-bind (is_ipaddr domain m.config.mqtt_ip) _ (λ _. Unit) (Found m)
        (IfReturns-intro (is_ipaddr domain m.config.mqtt_ip) _ (λ a e. tt))
        (λ answer u. elim (Bool-cases answer.0) [
          | inl p ↦ rw p (inl (refl, same answer.1, refl))
          | inr q ↦ rw q (asked answers.dns_answer answer.1)
        ])
    where
      same : (ip : List ℕ) → IsKept m (record m { config = record m.config { mqtt_ip = ip } })
      same ip = record {
        same_callback = refl;
        same_count = refl;
        same_slots = refl;
        same_info = refl;
      }

      asked :
          (dns : Option (List ℕ)) (ip : List ℕ)
          → IfReturns
              (elim dns as (λ _. Option (ℤ × Mqtt)) [
                | none ↦ some (
                    connect_failed answers sock ssl_flag
                      (negsuc 0)
                      (record m { config = record m.config { mqtt_ip = ip } }))
                | some ip' ↦ some (pos 0, record m { config = record m.config { mqtt_ip = ip' } })
              ])
              (Found m)
      asked none ip = inr (refl, record { idle = refl; no_subscriptions = refl })
      asked (some ip') ip = inl (refl, same ip', refl)

  idle-Outcome :
      (domain : List ℕ) (m : Mqtt)
      → IfReturns (connect_in answers sock ssl_flag mqtt_idle domain port tls m) (Outcome m)
  unfolding connect_in
  idle-Outcome domain m =
      IfReturns-bind (find_broker answers sock ssl_flag domain m) _ (Found m) (Outcome m)
        (found domain m)
        (λ r h. elim h [
          | inl h' ↦ rw (h'.0) (open-Outcome m r.1 h'.1 h'.2)
          | inr h' ↦ rw (h'.0) (inr h')
        ])

  -- From the idle state, a connection that returns gives 0 and a session with the broker, or another
  -- result and no session.
  pub mqtt_transport_connect-Outcome :
      (domain : List ℕ) (m : Mqtt)
      → m.config.mqtt_state ≡ mqtt_idle
      → IfReturns (mqtt_transport_connect answers sock ssl_flag domain port tls m) (Outcome m)
  unfolding mqtt_transport_connect
  mqtt_transport_connect-Outcome domain m idle =
      subst
        (λ state. IfReturns (connect_in answers sock ssl_flag state domain port tls m) (Outcome m))
        (sym idle) (idle-Outcome domain m)

module _ (answers : ConnectAnswers) (sock port : ℕ) (ssl_flag : Bool) (tls : TlsContext) where
  found_total :
      (domain : List ℕ) (m : Mqtt)
      → Returns (is_ipaddr domain m.config.mqtt_ip) (λ _. Unit)
      → Returns (find_broker answers sock ssl_flag domain m) (λ _. Unit)
  unfolding find_broker
  found_total domain m total =
      Returns-bind (is_ipaddr domain m.config.mqtt_ip) _ (λ _. Unit) (λ _. Unit) total
        (λ answer u. elim (Bool-cases answer.0) [
          | inl p ↦ rw p tt
          | inr q ↦ rw q (asked answers.dns_answer answer.1)
        ])
    where
      asked :
          (dns : Option (List ℕ)) (ip : List ℕ)
          → Returns
              (elim dns as (λ _. Option (ℤ × Mqtt)) [
                | none ↦ some (
                    connect_failed answers sock ssl_flag
                      (negsuc 0)
                      (record m { config = record m.config { mqtt_ip = ip } }))
                | some ip' ↦ some (pos 0, record m { config = record m.config { mqtt_ip = ip' } })
              ])
              (λ _. Unit)
      asked none ip = tt
      asked (some ip') ip = tt

  -- A connection returns unless reading the broker's address is a fault.
  pub mqtt_transport_connect_total :
      (domain : List ℕ) (m : Mqtt)
      → m.config.mqtt_state ≡ mqtt_idle
      → Returns (is_ipaddr domain m.config.mqtt_ip) (λ _. Unit)
      → Returns
          (mqtt_transport_connect answers sock ssl_flag domain port tls m)
          (Outcome answers sock port ssl_flag tls m)
  unfolding mqtt_transport_connect connect_in
  mqtt_transport_connect_total domain m idle total =
      Returns-mono (mqtt_transport_connect answers sock ssl_flag domain port tls m) _ _
        (Returns-both (mqtt_transport_connect answers sock ssl_flag domain port tls m) (λ _. Unit) _
          (subst
            (λ state.
              Returns (connect_in answers sock ssl_flag state domain port tls m) (λ _. Unit))
            (sym idle)
            (Returns-bind (find_broker answers sock ssl_flag domain m) _ (λ _. Unit) (λ _. Unit)
              (found_total domain m total) (λ r u. tt)))
          (mqtt_transport_connect-Outcome answers sock port ssl_flag tls domain m idle))
        (λ r h. h.1)

-- From the idle state the configuration is filled in anew.
pub mqtt_transport_init_idle :
    (clean_session : Bool) (client_id : List ℕ) (user_name password : Option (List ℕ))
    (keep_alive : ℕ) (m : Mqtt)
    → m.config.mqtt_state ≡ mqtt_idle
    → mqtt_transport_init clean_session (some client_id) user_name password keep_alive m ≡ (
      pos 0,
      record m {
        config = record empty_mqtt_config {
          mqtt_connect_info = connect_info_of clean_session client_id user_name password keep_alive;
        };
      },
    )
unfolding mqtt_transport_init
mqtt_transport_init_idle clean_session client_id user_name password keep_alive m idle =
    ap (λ state. init_in state clean_session (some client_id) user_name password keep_alive m) idle
