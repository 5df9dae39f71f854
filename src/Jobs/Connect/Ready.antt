-- ===== src/Jobs/Connect/Ready.antt =====
-- The connection for the jobs as a whole (app/aws_iot/iot_jobs_handler.c).
use rp2040_wiznet_eaa_s_aws.Prelude.{
  ℕ, length-append, ◌<◌, ◌≡◌, ◌⊎◌, inl, inr, refl, ap, ◌∙◌, Bool, true, false, List, ◌∷◌, ◌++◌,
  none, some, set, map, length, replicate, Mem, arith, Returns, Returns-bind, Returns-mono, ap₂,
}
use rp2040_wiznet_eaa_s_aws.Prelude.Word.{u16}
use rp2040_wiznet_eaa_s_aws.Prelude.CStr.{c_str, strlen, sprintf, sprintf_lem}
use rp2040_wiznet_eaa_s_aws.Device.{is_ipaddr}
use rp2040_wiznet_eaa_s_aws.Config.{DeviceInfo}
use rp2040_wiznet_eaa_s_aws.Flash.{load_flash_provisioned_cert_info}
use rp2040_wiznet_eaa_s_aws.Mqtt.{
  Mqtt, mqtt_idle, connect_info_of, empty_mqtt_config, set_mqtt_event_callback, mqtt_running,
  ConnectInfo, SubscribeInfo, local, gone, jobs_callback, opened, connected, subscribed,
}
use rp2040_wiznet_eaa_s_aws.Mqtt.Table.{end_of_buffer}
use rp2040_wiznet_eaa_s_aws.Mqtt.Connect.{mqtt_transport_connect, ConnectAnswers}
use rp2040_wiznet_eaa_s_aws.Mqtt.Session.{
  IsOpen, mqtt_transport_connect_total, mqtt_transport_init_idle,
}
use rp2040_wiznet_eaa_s_aws.Jobs.Texts.{aws_things, get_accepted, start_next_accepted}
use rp2040_wiznet_eaa_s_aws.Jobs.Connect.{
  tls_context_of, iot_jobs_mqtt_connect, subscribe_local, iot_jobs_mqtt_subscribe_jobs_get_topic,
  iot_jobs_mqtt_subscribe_jobs_start_next_topic, iot_jobs_mqtt_unsubscribe_jobs_get_topic,
  iot_jobs_connect_procedure, iot_jobs_close_procedure,
}
use rp2040_wiznet_eaa_s_aws.Jobs.Connect.Subscribed.{
  IsSubscribed, subscribe_local_outcome, unsubscribe_gone,
}

-- The name fits the buffer for the client's id, and reading the broker's address is no fault.
pub record IsUsable (device : DeviceInfo) : Type 0 where
  pub fits : length (c_str device.thing_name) < 50
  pub address : Returns (is_ipaddr device.aws_end_point (replicate 4 0)) (λ _. Unit)

abbrev pub topic_of : DeviceInfo → List ℕ → List ℕ
topic_of device end_of_topic = aws_things ++ c_str device.thing_name ++ end_of_topic

-- A session for the jobs: it uses the certificate that is stored in the flash, calls the handler back, and
-- has the two subscriptions.
pub record IsReady (device : DeviceInfo) (flash : Mem) (m m' : Mqtt) : Type 0 where
  pub running : m'.config.mqtt_state ≡ mqtt_running
  pub calls_back : m'.config.mqtt_context ≡ some jobs_callback
  pub secured : m'.tls_context ≡ some (tls_context_of (load_flash_provisioned_cert_info flash))
  pub two : m'.config.subscribe_count ≡ 2
  pub broker : List ℕ
  pub info : ConnectInfo
  pub id : info.client_identifier ≡ some (c_str device.thing_name)
  pub done :
      m'.effects
      ≡ subscribed (topic_of device start_next_accepted)
        ∷ subscribed (topic_of device get_accepted)
        ∷ connected info
        ∷ opened 1 broker 8883
        ∷ m.effects

-- A session for the jobs whose table begins with a topic that is gone.
record IsDangling (m : Mqtt) : Type 0 where
  slot : SubscribeInfo
  slots : List SubscribeInfo
  table : m.config.mqtt_subscribe_info ≡ slot ∷ slots
  is_gone : slot.topic_filter ≡ gone

-- What the connection starts from.
abbrev initial : ConnectInfo → Mqtt → Mqtt
initial info m = record m {
  event_callback = some jobs_callback;
  config = record empty_mqtt_config { mqtt_connect_info = info };
}

record IsConnected (device : DeviceInfo) (flash : Mem) (m m' : Mqtt) : Type 0 where
  info : ConnectInfo
  id : info.client_identifier ≡ some (c_str device.thing_name)
  session :
      IsOpen 1 8883 true
        (tls_context_of (load_flash_provisioned_cert_info flash))
        (initial info m)
        m'

mqtt_connect_outcome :
    (answers : ConnectAnswers) (device : DeviceInfo) (flash : Mem) (m : Mqtt)
    → m.config.mqtt_state ≡ mqtt_idle
    → IsUsable device
    → Returns
        (iot_jobs_mqtt_connect answers device flash m)
        (λ r. ((r.0 ≡ true) × IsConnected device flash m r.1) ⊎ (r.0 ≡ false))
unfolding iot_jobs_mqtt_connect set_mqtt_event_callback
mqtt_connect_outcome answers device flash m idle usable =
    let id : List ℕ = c_str device.thing_name in
    Returns-bind (sprintf 50 id) _ (λ t. t ≡ id) _ (sprintf_lem 50 id usable.fits)
      (λ client_id e.
        let info : ConnectInfo = connect_info_of true client_id none none 30 in
        rw
          (mqtt_transport_init_idle true client_id none none 30
            (record m { event_callback = some jobs_callback }) idle)
          (Returns-bind
            (mqtt_transport_connect answers 1 true device.aws_end_point 8883
              (tls_context_of (load_flash_provisioned_cert_info flash)) (initial info m))
            _ _ _
            (mqtt_transport_connect_total answers 1 8883 true
              (tls_context_of (load_flash_provisioned_cert_info flash)) device.aws_end_point
              (initial info m) refl usable.address)
            (λ r h. elim h [
              | inl h' ↦
                  rw (h'.0) (inl (refl, record { info = info; id = ap some e; session = h'.1 }))
              | inr h' ↦ rw (h'.0) (inr refl)
            ])))

slot_for : List ℕ → SubscribeInfo
slot_for text = record {
  qos = 1;
  topic_filter = local text;
  topic_filter_length = u16 (strlen text);
}

both_subscribed :
    (device : DeviceInfo) (flash : Mem) (m c g n : Mqtt)
    → IsConnected device flash m c
    → IsSubscribed (topic_of device get_accepted) c g
    → IsSubscribed (topic_of device start_next_accepted) g n
    → IsReady device flash m n × IsDangling n
unfolding slot_for
both_subscribed device flash m c g n connection get next =
    let none_yet : c.config.subscribe_count ≡ 0 = connection.session.same_subscriptions in
    let one : g.config.subscribe_count ≡ 1 = omega (arith, get.counted) in
    let next_slot : SubscribeInfo = slot_for (topic_of device start_next_accepted) in
    let get_slot : SubscribeInfo = slot_for (topic_of device get_accepted) in
    let table_g =
      get.stored
      ∙ ap₂ (λ (l : List SubscribeInfo) i. map end_of_buffer (set l i get_slot))
          connection.session.same_table none_yet in
    (
      record {
        running = next.same_state ∙ get.same_state ∙ connection.session.running;
        calls_back = next.same_context ∙ get.same_context ∙ connection.session.calls_back;
        secured = next.same_tls ∙ get.same_tls ∙ connection.session.secured refl;
        two = omega (arith, next.counted);
        broker = c.config.mqtt_ip;
        info = connection.info;
        id = connection.id;
        done =
            next.logged
            ∙ ap (λ l. subscribed (topic_of device start_next_accepted) ∷ l)
                (get.logged
                  ∙ ap (λ l. subscribed (topic_of device get_accepted) ∷ l)
                      connection.session.done);
      },
      record {
        slot = end_of_buffer (end_of_buffer get_slot);
        slots = _;
        table =
            next.stored
            ∙ ap₂ (λ (l : List SubscribeInfo) i. map end_of_buffer (set l i next_slot)) table_g one;
        is_gone = refl;
      },
    )

topic_fits :
    (device : DeviceInfo) (end_of_topic : List ℕ)
    → IsUsable device
    → length end_of_topic < 100
    → length (topic_of device end_of_topic) < 256
topic_fits device end_of_topic usable short =
    omega (arith, usable.fits, length-append (c_str device.thing_name) end_of_topic)

procedure_outcome :
    (answers : ConnectAnswers) (accepts_get accepts_next : Bool) (device : DeviceInfo) (flash : Mem)
    (m : Mqtt)
    → m.config.mqtt_state ≡ mqtt_idle
    → IsUsable device
    → Returns
        (iot_jobs_connect_procedure answers accepts_get accepts_next device flash m)
        (λ r. ((r.0 ≡ true) × IsReady device flash m r.1 × IsDangling r.1) ⊎ (r.0 ≡ false))
unfolding iot_jobs_connect_procedure iot_jobs_mqtt_subscribe_jobs_get_topic
    iot_jobs_mqtt_subscribe_jobs_start_next_topic
procedure_outcome answers accepts_get accepts_next device flash m idle usable =
    Returns-bind (iot_jobs_mqtt_connect answers device flash m) _ _ _
      (mqtt_connect_outcome answers device flash m idle usable)
      (λ c h. elim h [
        | inr failed ↦ rw failed (inr refl)
        | inl (p, connection) ↦ rw p (
            Returns-bind (subscribe_local accepts_get (topic_of device get_accepted) c.1) _ _ _
              (subscribe_local_outcome accepts_get (topic_of device get_accepted) c.1
                (omega (arith, connection.session.same_subscriptions))
                (topic_fits device get_accepted usable (omega arith)))
              (λ g k. elim k [
                | inr failed ↦ rw failed (inr refl)
                | inl (q, get) ↦ rw q (
                    Returns-mono
                      (subscribe_local accepts_next (topic_of device start_next_accepted) g.1) _ _
                      (subscribe_local_outcome accepts_next (topic_of device start_next_accepted)
                        g.1 (omega (arith, get.counted, connection.session.same_subscriptions))
                        (topic_fits device start_next_accepted usable (omega arith)))
                      (λ n l. elim l [
                        | inr failed ↦ inr failed
                        | inl (r, next) ↦
                            let both =
                              both_subscribed device flash m c.1 g.1 n.1 connection get next in
                            inl (r, both.0, both.1)
                      ]))
              ]))
      ])

-- From the idle state, for a device with a name that fits and an address that can be read, the connection
-- for the jobs returns. It fails, or it is a session that uses the certificate
-- stored in the flash, calls the handler back, and has exactly the subscriptions to the two topics.
pub iot_jobs_connect_procedure-IsReady :
    (answers : ConnectAnswers) (accepts_get accepts_next : Bool) (device : DeviceInfo) (flash : Mem)
    (m : Mqtt)
    → m.config.mqtt_state ≡ mqtt_idle
    → IsUsable device
    → Returns
        (iot_jobs_connect_procedure answers accepts_get accepts_next device flash m)
        (λ r. ((r.0 ≡ true) × IsReady device flash m r.1) ⊎ (r.0 ≡ false))
iot_jobs_connect_procedure-IsReady answers accepts_get accepts_next device flash m idle usable =
    Returns-mono (iot_jobs_connect_procedure answers accepts_get accepts_next device flash m) _ _
      (procedure_outcome answers accepts_get accepts_next device flash m idle usable)
      (λ r h. elim h [ inl (p, ready, dangling) ↦ inl (p, ready) | inr q ↦ inr q ])

-- From the idle state, for a device with a name that fits and an address that can be read, the connection
-- for the jobs returns. It fails, or the procedure that closes it reads a topic that stood in a buffer of a
-- function that has returned.
pub iot_jobs_close_procedure_dangling :
    (answers : ConnectAnswers) (accepts_get accepts_next : Bool) (accepts : ℕ → Bool)
    (disconnects : Bool) (device : DeviceInfo) (flash : Mem) (m : Mqtt)
    → m.config.mqtt_state ≡ mqtt_idle
    → IsUsable device
    → Returns
        (iot_jobs_connect_procedure answers accepts_get accepts_next device flash m)
        (λ r. (iot_jobs_close_procedure accepts disconnects device r.1 ≡ none) ⊎ (r.0 ≡ false))
unfolding iot_jobs_close_procedure iot_jobs_mqtt_unsubscribe_jobs_get_topic
iot_jobs_close_procedure_dangling answers accepts_get accepts_next accepts disconnects device flash
      m idle usable =
    Returns-mono (iot_jobs_connect_procedure answers accepts_get accepts_next device flash m) _ _
      (procedure_outcome answers accepts_get accepts_next device flash m idle usable)
      (λ r h. elim h [
        | inr q ↦ inr q
        | inl (p, ready, dangling) ↦ inl (
            rw
              (unsubscribe_gone accepts (topic_of device get_accepted) dangling.slot dangling.slots
                r.1 dangling.table dangling.is_gone (omega (arith, ready.two)))
              refl)
      ])
