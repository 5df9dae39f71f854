-- ===== src/Mqtt/Tests.antt =====
-- The MQTT connection with concrete topics.
use rp2040_wiznet_eaa_s_aws.Prelude.{
  false, ℕ, ◌≡◌, refl, true, List, [], ◌∷◌, none, some, arith, Returns,
}
use rp2040_wiznet_eaa_s_aws.Prelude.Int.{pos}
use rp2040_wiznet_eaa_s_aws.Prelude.CStr.{is_prefix}
use rp2040_wiznet_eaa_s_aws.Mqtt.{Mqtt, SubscribeInfo, constant, unsubscribed, empty_mqtt_config}
use rp2040_wiznet_eaa_s_aws.Mqtt.Table.{mqtt_transport_unsubscribe}
use rp2040_wiznet_eaa_s_aws.Mqtt.Subscriptions.{mqtt_transport_unsubscribe_lost}

abbrev idle : Mqtt
idle = record {
  config = empty_mqtt_config;
  event_callback = none;
  tls_context = none;
  tls_allocated = false;
  transport = none;
  effects = [];
}

abbrev slot_of : List ℕ → SubscribeInfo
slot_of topic = record { qos = 1; topic_filter = constant topic; topic_filter_length = 1 }

-- Two topics are subscribed to.
abbrev with_two : Mqtt
with_two = record idle {
  config = record empty_mqtt_config {
    mqtt_subscribe_info = slot_of (b'a' ∷ []) ∷ slot_of (b'b' ∷ []) ∷ [];
    subscribe_count = 2;
  };
}

mqtt_transport_unsubscribe_lost_example :
    Returns (mqtt_transport_unsubscribe (λ i. true) (b'a' ∷ []) with_two) (λ r.
      (r.0 ≡ pos 0)
      × (r.1.config.subscribe_count ≡ 1)
      × (r.1.effects ≡ unsubscribed (b'a' ∷ []) ∷ [])
      × (mqtt_transport_unsubscribe (λ i. true) (b'b' ∷ []) r.1 ≡ some (pos 0, r.1)))
unfolding is_prefix
mqtt_transport_unsubscribe_lost_example =
    mqtt_transport_unsubscribe_lost (λ i. true) (λ i. true) (b'a' ∷ []) (b'b' ∷ [])
      (slot_of (b'a' ∷ [])) (slot_of (b'b' ∷ [])) [] with_two (λ q. omega arith, tt) refl refl refl
      refl refl
