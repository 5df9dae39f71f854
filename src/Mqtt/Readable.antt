-- ===== src/Mqtt/Readable.antt =====
-- Tables whose topics can be read (port/network_interface/mqtt_interface.c).
use rp2040_wiznet_eaa_s_aws.Prelude.{
  ℕ, zero, suc, ◌+◌, ◌-◌, ◌<◌, ◌≤◌, ◌≡◌, refl, inl, inr, ◌∙◌, sym, subst, ap, Bool, true, false,
  ltb, List, [], ◌∷◌, some, set, length, length-set, arith, ◌>>=◌, Returns, Returns-mono,
  le→not_ltb, Bool-cases, ◌==◌,
}
use native.Mathlib.Decide.{dec_lt}
use rp2040_wiznet_eaa_s_aws.Prelude.Int.{ℤ, pos, is_zero}
use rp2040_wiznet_eaa_s_aws.Prelude.CStr.{strlen, strncmp_eq}
use rp2040_wiznet_eaa_s_aws.Mqtt.{Mqtt, TopicFilter, topic_text, SubscribeInfo, unsubscribed}
use rp2040_wiznet_eaa_s_aws.Mqtt.Table.{
  mqtt_transport_subscribe, unsubscribe_loop, mqtt_transport_unsubscribe,
}
use rp2040_wiznet_eaa_s_aws.Mqtt.Subscriptions.{subscribe_free, unsubscribe_slots}

-- The first `n` slots can be read.
abbrev pub FirstReadable : ℕ → List SubscribeInfo → Type 0
FirstReadable zero slots = Unit {0}
FirstReadable (suc n) [] = ⊥
FirstReadable (suc n) (slot ∷ slots) =
    ((text : List ℕ) × (topic_text slot.topic_filter ≡ some text)) × FirstReadable n slots

-- The table has five slots, and those in use can be read.
pub record IsReadable (m : Mqtt) : Type 0 where
  pub size : length m.config.mqtt_subscribe_info ≡ 5
  pub readable : FirstReadable m.config.subscribe_count m.config.mqtt_subscribe_info

fewer_readable :
    (k n : ℕ) (slots : List SubscribeInfo) → k ≤ n → FirstReadable n slots → FirstReadable k slots
fewer_readable zero n slots h r = tt
fewer_readable (suc k) zero slots h r = absurd (omega arith)
fewer_readable (suc k) (suc n) [] h r = r
fewer_readable (suc k) (suc n) (slot ∷ slots) h r =
    (r.0, fewer_readable k n slots (omega arith) r.1)

set_readable :
    (n : ℕ) (slots : List SubscribeInfo) (slot : SubscribeInfo) (text : List ℕ)
    → n < length slots
    → topic_text slot.topic_filter ≡ some text
    → FirstReadable n slots
    → FirstReadable (suc n) (set slots n slot)
set_readable n [] slot text h e r = absurd (omega arith)
set_readable zero (other ∷ slots) slot text h e r = ((text, e), tt)
set_readable (suc n) (other ∷ slots) slot text h e r =
    (r.0, set_readable n slots slot text (omega arith) e r.1)

-- What an operation leaves of the connection: the table, and no more subscriptions than a bound.
pub record IsWithin (bound : ℕ) (m m' : Mqtt) : Type 0 where
  pub few : m'.config.subscribe_count ≤ bound
  pub readable : IsReadable m'

loop_returns :
    (accepts : ℕ → Bool) (topic : List ℕ) (i n : ℕ) (slots : List SubscribeInfo) (m : Mqtt)
    → m.config.subscribe_count ≤ i + n
    → FirstReadable n slots
    → Returns (unsubscribe_loop accepts topic i slots m) (λ r.
      (r.1.config.subscribe_count ≤ m.config.subscribe_count)
      × (r.1.config.mqtt_subscribe_info ≡ m.config.mqtt_subscribe_info))
unfolding unsubscribe_loop
loop_returns accepts topic i zero [] m h r =
    rw (le→not_ltb i m.config.subscribe_count (omega arith)) (omega arith, refl)
loop_returns accepts topic i (suc n) [] m h r = absurd r
loop_returns accepts topic i zero (slot ∷ slots) m h r =
    rw (le→not_ltb i m.config.subscribe_count (omega arith)) (omega arith, refl)
loop_returns accepts topic i (suc n) (slot ∷ slots) m h r =
    let given_up : Mqtt = record m {
      config = record m.config { subscribe_count = m.config.subscribe_count - 1 };
      effects = unsubscribed r.0.0 ∷ m.effects;
    } in
    let hit =
      Returns-mono (unsubscribe_loop accepts topic (i + 1) slots given_up) _
        (λ (q : ℤ × Mqtt).
          (q.1.config.subscribe_count ≤ m.config.subscribe_count)
          × (q.1.config.mqtt_subscribe_info ≡ m.config.mqtt_subscribe_info))
        (loop_returns accepts topic (i + 1) n slots given_up (omega arith) r.1)
        (λ q k. (omega (arith, k.0), k.1)) in
    let other = loop_returns accepts topic (i + 1) n slots m (omega arith) r.1 in
    elim (Bool-cases (ltb i m.config.subscribe_count)) [
      | inr done ↦ rw done (omega arith, refl)
      | inl more ↦ elim (Bool-cases (strncmp_eq topic r.0.0 (strlen r.0.0))) [
        | inr differs ↦ rw (more, r.0.1, ◌>>=◌, differs) other
        | inl same ↦ elim (Bool-cases (accepts i)) [
          | inl good ↦ rw (more, r.0.1, ◌>>=◌, same, good) hit
          | inr bad ↦ rw (more, r.0.1, ◌>>=◌, same, bad) (omega arith, refl)
        ]
      ]
    ]

unsubscribe_nothing :
    (accepts : ℕ → Bool) (topic : List ℕ) (m : Mqtt)
    → m.config.subscribe_count ≡ 0
    → mqtt_transport_unsubscribe accepts topic m ≡ some (pos 0, m)
unfolding mqtt_transport_unsubscribe
unsubscribe_nothing accepts topic m e =
    let none_left : (m.config.subscribe_count == 0) ≡ true = ground arith in rw none_left refl

-- Giving up a topic keeps a table readable, and takes no subscription away that was not there.
pub mqtt_transport_unsubscribe-IsReadable :
    (accepts : ℕ → Bool) (topic : List ℕ) (m : Mqtt)
    → IsReadable m
    → Returns
        (mqtt_transport_unsubscribe accepts topic m)
        (λ r. IsWithin m.config.subscribe_count m r.1)
mqtt_transport_unsubscribe-IsReadable accepts topic m old =
    elim (dec_lt 0 m.config.subscribe_count) [
      | yes p ↦ rw (unsubscribe_slots accepts topic m.config.mqtt_subscribe_info m refl p) (
          Returns-mono (unsubscribe_loop accepts topic 0 m.config.mqtt_subscribe_info m) _ _
            (loop_returns accepts topic 0 m.config.subscribe_count m.config.mqtt_subscribe_info m
              (omega arith) old.readable)
            (λ r k. record {
              few = k.0;
              readable = record {
                size = ap length k.1 ∙ old.size;
                readable =
                    fewer_readable r.1.config.subscribe_count m.config.subscribe_count
                      r.1.config.mqtt_subscribe_info (k.0)
                      (subst (FirstReadable m.config.subscribe_count) (sym k.1) old.readable);
              };
            }))
      | no p ↦
          rw (unsubscribe_nothing accepts topic m (omega arith))
            (record { few = omega arith; readable = old })
    ]

-- With fewer than five subscriptions an accepted one keeps the table readable.
pub mqtt_transport_subscribe-IsReadable :
    (accepts : Bool) (qos : ℕ) (topic : TopicFilter) (text : List ℕ) (m : Mqtt)
    → accepts ≡ true
    → topic_text topic ≡ some text
    → m.config.subscribe_count < 5
    → IsReadable m
    → Returns
        (mqtt_transport_subscribe accepts qos topic m)
        (λ r. (is_zero r.0 ≡ true) × IsWithin (suc m.config.subscribe_count) m r.1)
mqtt_transport_subscribe-IsReadable false qos topic text m accepted e free old = cc
mqtt_transport_subscribe-IsReadable true qos topic text m accepted e free old =
    rw (subscribe_free true qos topic text m e free) (
      refl,
      record {
        few = omega arith;
        readable = record {
          size = length-set m.config.mqtt_subscribe_info m.config.subscribe_count _ ∙ old.size;
          readable =
              set_readable m.config.subscribe_count m.config.mqtt_subscribe_info _ text
                (omega (arith, old.size)) e old.readable;
        };
      },
    )
