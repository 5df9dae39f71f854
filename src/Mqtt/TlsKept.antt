-- ===== src/Mqtt/TlsKept.antt =====
-- The table's operations and the pointer to the TLS context (port/network_interface/mqtt_interface.c).
use rp2040_wiznet_eaa_s_aws.Prelude.{
  ℕ, ◌+◌, ◌-◌, ◌≡◌, refl, inl, inr, Bool, true, false, ltb, ◌==◌, List, [], ◌∷◌, IfReturns,
  IfReturns-bind, IfReturns-any, IfReturns-if, Bool-cases,
}
use rp2040_wiznet_eaa_s_aws.Prelude.CStr.{strlen, strncmp_eq}
use rp2040_wiznet_eaa_s_aws.Mqtt.{
  Mqtt, SubscribeInfo, TopicFilter, topic_text, unsubscribed, mqtt_transport_publish,
}
use rp2040_wiznet_eaa_s_aws.Mqtt.Table.{
  store_subscription, mqtt_transport_subscribe, unsubscribe_loop, mqtt_transport_unsubscribe,
}

-- A subscription keeps it, and so do the end of one and a message that is sent.
pub subscribe_keeps :
    (accepts : Bool) (qos : ℕ) (topic : TopicFilter) (m : Mqtt)
    → IfReturns
        (mqtt_transport_subscribe accepts qos topic m)
        (λ r. r.1.tls_context ≡ m.tls_context)
unfolding mqtt_transport_subscribe store_subscription
subscribe_keeps accepts qos topic m = elim (Bool-cases (ltb 5 m.config.subscribe_count)) [
  | inl full ↦ rw full refl
  | inr q ↦ rw q (
      IfReturns-bind (topic_text topic) _ (λ _. Unit) _ (IfReturns-any (topic_text topic))
        (λ text u. elim (Bool-cases (ltb m.config.subscribe_count 5)) [
          | inr q' ↦ rw q' tt
          | inl p ↦
              rw p (elim (Bool-cases accepts) [ inl good ↦ rw good refl | inr bad ↦ rw bad refl ])
        ]))
]

loop_keeps :
    (accepts : ℕ → Bool) (topic : List ℕ) (i : ℕ) (slots : List SubscribeInfo) (m : Mqtt)
    → IfReturns (unsubscribe_loop accepts topic i slots m) (λ r. r.1.tls_context ≡ m.tls_context)
unfolding unsubscribe_loop
loop_keeps accepts topic i [] m =
    IfReturns-if (ltb i m.config.subscribe_count) _ _ _ (λ p. tt) (λ q. refl)
loop_keeps accepts topic i (slot ∷ slots) m =
    IfReturns-if (ltb i m.config.subscribe_count) _ _ _
      (λ p.
        IfReturns-bind (topic_text slot.topic_filter) _ (λ _. Unit) _
          (IfReturns-any (topic_text slot.topic_filter))
          (λ text u.
            IfReturns-if (strncmp_eq topic text (strlen text)) _ _ _
              (λ hit.
                IfReturns-if (accepts i) _ _ _
                  (λ good. loop_keeps accepts topic (i + 1) slots (record m {
                    config = record m.config { subscribe_count = m.config.subscribe_count - 1 };
                    effects = unsubscribed text ∷ m.effects;
                  }))
                  (λ bad. refl))
              (λ other. loop_keeps accepts topic (i + 1) slots m)))
      (λ q. refl)

pub unsubscribe_keeps :
    (accepts : ℕ → Bool) (topic : List ℕ) (m : Mqtt)
    → IfReturns (mqtt_transport_unsubscribe accepts topic m) (λ r. r.1.tls_context ≡ m.tls_context)
unfolding mqtt_transport_unsubscribe
unsubscribe_keeps accepts topic m =
    IfReturns-if (m.config.subscribe_count == 0) _ _ _ (λ p. refl)
      (λ q. loop_keeps accepts topic 0 m.config.mqtt_subscribe_info m)

pub publish_keeps :
    (is_sent : Bool) (topic payload : List ℕ) (m : Mqtt)
    → (mqtt_transport_publish is_sent topic payload m).1.tls_context ≡ m.tls_context
unfolding mqtt_transport_publish
publish_keeps true topic payload m = refl
publish_keeps false topic payload m = refl
