-- ===== src/Mqtt/Subscriptions.antt =====
-- The table of subscriptions (port/network_interface/mqtt_interface.c).
use rp2040_wiznet_eaa_s_aws.Prelude.{
  ℕ, suc, ◌+◌, ◌<◌, ◌≡◌, refl, Bool, true, false, List, ◌∷◌, some, set, arith, Returns,
  if◌then◌else◌, lt→ltb, le→not_ltb, ==_ne, ◌==◌, ap, ◌∙◌,
}
use rp2040_wiznet_eaa_s_aws.Prelude.Word.{u8, u16}
use rp2040_wiznet_eaa_s_aws.Prelude.Int.{pos, negsuc}
use rp2040_wiznet_eaa_s_aws.Prelude.CStr.{
  strlen, IsText, is_prefix, strncmp_text, strncmp_same, strlen_text,
}
use rp2040_wiznet_eaa_s_aws.Mqtt.{
  Mqtt, TopicFilter, topic_text, SubscribeInfo, subscribed, unsubscribed,
}
use rp2040_wiznet_eaa_s_aws.Mqtt.Table.{
  store_subscription, mqtt_transport_subscribe, unsubscribe_loop, mqtt_transport_unsubscribe,
}

-- The slots behind a subscription to a text.
abbrev pub slots_with : ℕ → TopicFilter → List ℕ → Mqtt → List SubscribeInfo
slots_with qos topic text m =
    set m.config.mqtt_subscribe_info m.config.subscribe_count
      (record { qos = qos; topic_filter = topic; topic_filter_length = u16 (strlen text) })

-- With fewer than five subscriptions a topic is stored behind the others, and counts if the library
-- accepts it.
pub subscribe_free :
    (accepts : Bool) (qos : ℕ) (topic : TopicFilter) (text : List ℕ) (m : Mqtt)
    → topic_text topic ≡ some text
    → m.config.subscribe_count < 5
    → mqtt_transport_subscribe accepts qos topic m
      ≡ some (
          let stored : Mqtt = record m {
            config = record m.config { mqtt_subscribe_info = slots_with qos topic text m };
          } in
          if accepts
          then (
            pos 0,
            record stored {
              config = record stored.config { subscribe_count = suc m.config.subscribe_count };
              effects = subscribed text ∷ m.effects;
            },
          )
          else (negsuc 0, stored))
unfolding mqtt_transport_subscribe store_subscription
subscribe_free true qos topic text m readable free =
    let count : u8 (m.config.subscribe_count + 1) ≡ suc m.config.subscribe_count = omega arith in
    simp
      (
        le→not_ltb 5 m.config.subscribe_count (omega arith),
        readable,
        lt→ltb m.config.subscribe_count 5 free,
        count,
      )
      refl
subscribe_free false qos topic text m readable free =
    simp
      (
        le→not_ltb 5 m.config.subscribe_count (omega arith),
        readable,
        lt→ltb m.config.subscribe_count 5 free,
      )
      refl

first_given_up :
    (accepts : ℕ → Bool) (first : List ℕ) (a b : SubscribeInfo) (rest : List SubscribeInfo)
    (m : Mqtt)
    → IsText first
    → topic_text a.topic_filter ≡ some first
    → m.config.subscribe_count ≡ 2
    → accepts 0 ≡ true
    → unsubscribe_loop accepts first 0 (a ∷ b ∷ rest) m
      ≡ some (
        pos 0,
        record m {
          config = record m.config { subscribe_count = 1 };
          effects = unsubscribed first ∷ m.effects;
        },
      )
unfolding unsubscribe_loop
first_given_up accepts first a b rest m text readable two accepted =
    simp (two, readable, strlen_text first text, strncmp_same first, accepted) refl

other_kept :
    (accepts : ℕ → Bool) (first second : List ℕ) (a b : SubscribeInfo) (rest : List SubscribeInfo)
    (m : Mqtt)
    → IsText first
    → is_prefix first second ≡ false
    → topic_text a.topic_filter ≡ some first
    → m.config.subscribe_count ≡ 1
    → unsubscribe_loop accepts second 0 (a ∷ b ∷ rest) m ≡ some (pos 0, m)
unfolding unsubscribe_loop
other_kept accepts first second a b rest m text no_prefix readable one =
    simp (one, readable, strlen_text first text, strncmp_text first second text, no_prefix) refl

-- The loop runs over the table unless there is no subscription.
pub unsubscribe_slots :
    (accepts : ℕ → Bool) (topic : List ℕ) (slots : List SubscribeInfo) (m : Mqtt)
    → m.config.mqtt_subscribe_info ≡ slots
    → 0 < m.config.subscribe_count
    → mqtt_transport_unsubscribe accepts topic m ≡ unsubscribe_loop accepts topic 0 slots m
unfolding mqtt_transport_unsubscribe
unsubscribe_slots accepts topic slots m table some_left =
    let more : (m.config.subscribe_count == 0) ≡ false =
      ==_ne m.config.subscribe_count 0 (omega arith) in
    rw more (ap (λ s. unsubscribe_loop accepts topic 0 s m) table)

-- Two topics are subscribed to and the first is given up: the second can no longer be given up, unless the
-- first is a beginning of it. The call says that it went well, and neither the connection nor the count of
-- the subscriptions changes.
pub mqtt_transport_unsubscribe_lost :
    (accepts accepts' : ℕ → Bool) (first second : List ℕ) (a b : SubscribeInfo)
    (rest : List SubscribeInfo) (m : Mqtt)
    → IsText first
    → is_prefix first second ≡ false
    → m.config.mqtt_subscribe_info ≡ a ∷ b ∷ rest
    → topic_text a.topic_filter ≡ some first
    → m.config.subscribe_count ≡ 2
    → accepts 0 ≡ true
    → Returns (mqtt_transport_unsubscribe accepts first m) (λ r.
      (r.0 ≡ pos 0)
      × (r.1.config.subscribe_count ≡ 1)
      × (r.1.effects ≡ unsubscribed first ∷ m.effects)
      × (mqtt_transport_unsubscribe accepts' second r.1 ≡ some (pos 0, r.1)))
mqtt_transport_unsubscribe_lost accepts accepts' first second a b rest m text no_prefix slots
      readable two accepted =
    let m' : Mqtt = record m {
      config = record m.config { subscribe_count = 1 };
      effects = unsubscribed first ∷ m.effects;
    } in
    let given_up : mqtt_transport_unsubscribe accepts first m ≡ some (pos 0, m') =
      unsubscribe_slots accepts first (a ∷ b ∷ rest) m slots (omega arith)
      ∙ first_given_up accepts first a b rest m text readable two accepted in
    let kept : mqtt_transport_unsubscribe accepts' second m' ≡ some (pos 0, m') =
      unsubscribe_slots accepts' second (a ∷ b ∷ rest) m' slots (omega arith)
      ∙ other_kept accepts' first second a b rest m' text no_prefix readable refl in
    rw given_up (refl, refl, refl, kept)
