-- ===== src/Mqtt/Table.antt =====
-- The table of subscriptions (port/network_interface/mqtt_interface.c). Whether the library accepts a call
-- is given.
use rp2040_wiznet_eaa_s_aws.Prelude.{
  ℕ, ◌+◌, ◌-◌, Bool, ltb, ◌==◌, if◌then◌else◌, List, [], ◌∷◌, Option, none, some, set, map, ◌>>=◌,
}
use rp2040_wiznet_eaa_s_aws.Prelude.Word.{u8, u16}
use rp2040_wiznet_eaa_s_aws.Prelude.Int.{ℤ, pos, negsuc}
use rp2040_wiznet_eaa_s_aws.Prelude.CStr.{strlen, strncmp_eq}
use rp2040_wiznet_eaa_s_aws.Mqtt.{
  Mqtt, SubscribeInfo, TopicFilter, gone, local, mqtt_subscription_max_num, subscribed, topic_text,
  unsubscribed,
}

abbrev pub end_of_buffer : SubscribeInfo → SubscribeInfo
end_of_buffer info = record info {
  topic_filter = elim info.topic_filter [ local s ↦ gone | other ↦ other ];
}

-- A function returns: its buffers are gone.
unfoldable pub end_scope : Mqtt → Mqtt
end_scope m = record m {
  config = record m.config { mqtt_subscribe_info = map end_of_buffer m.config.mqtt_subscribe_info };
}

-- A slot of the table is written; `none` is a write behind its end.
unfoldable pub store_subscription : ℕ → SubscribeInfo → Mqtt → Option Mqtt
store_subscription i info m =
    if ltb i mqtt_subscription_max_num
    then some (record m {
      config = record m.config { mqtt_subscribe_info = set m.config.mqtt_subscribe_info i info };
    })
    else none

-- Whether the library accepts the call is given.
unfoldable pub mqtt_transport_subscribe : Bool → ℕ → TopicFilter → Mqtt → Option (ℤ × Mqtt)
unfolding store_subscription strlen
mqtt_transport_subscribe accepts qos' topic m =
    if ltb mqtt_subscription_max_num m.config.subscribe_count
    then some (negsuc 0, m)
    else topic_text topic >>= λ text.
        store_subscription m.config.subscribe_count
          (record { qos = qos'; topic_filter = topic; topic_filter_length = u16 (strlen text) }) m
        >>= λ m'. some (
            if accepts
            then (
              pos 0,
              record m' {
                config = record m'.config { subscribe_count = u8 (m'.config.subscribe_count + 1) };
                effects = subscribed text ∷ m'.effects;
              },
            )
            else (negsuc 0, m'))

-- The loop from slot `i` on, with the slots from there on; `accepts` says for each slot whether the
-- library accepts the call for it. The number of subscriptions falls while the loop runs.
unfoldable pub unsubscribe_loop :
    (ℕ → Bool) → List ℕ → ℕ → List SubscribeInfo → Mqtt → Option (ℤ × Mqtt)
unfolding strncmp_eq strlen
unsubscribe_loop accepts topic i [] m =
    if ltb i m.config.subscribe_count then none else some (pos 0, m)
unsubscribe_loop accepts topic i (slot ∷ slots) m =
    let next = topic_text slot.topic_filter >>= λ text.
    let hit = unsubscribe_loop accepts topic (i + 1) slots (record m {
      config = record m.config { subscribe_count = m.config.subscribe_count - 1 };
      effects = unsubscribed text ∷ m.effects;
    }) in
    let other = unsubscribe_loop accepts topic (i + 1) slots m in
    if strncmp_eq topic text (strlen text)
    then (if accepts i then hit else some (negsuc 0, m))
    else other in
    if ltb i m.config.subscribe_count then next else some (pos 0, m)

unfoldable pub mqtt_transport_unsubscribe : (ℕ → Bool) → List ℕ → Mqtt → Option (ℤ × Mqtt)
unfolding unsubscribe_loop
mqtt_transport_unsubscribe accepts topic m =
    if m.config.subscribe_count == 0
    then some (pos 0, m)
    else unsubscribe_loop accepts topic 0 m.config.mqtt_subscribe_info m
