-- ===== src/Jobs/Connect/Subscribed.antt =====
-- Subscriptions to topics in buffers of a function that returns (app/aws_iot/iot_jobs_handler.c).
use rp2040_wiznet_eaa_s_aws.Prelude.{
  ℕ, suc, ◌<◌, ◌≡◌, ◌⊎◌, inl, inr, refl, ap, ◌∙◌, Bool, true, false, ltb, List, ◌∷◌, Option, none,
  some, set, map, length, ◌>>=◌, Returns, Returns-bind, Bool-cases, lt→ltb,
}
use rp2040_wiznet_eaa_s_aws.Prelude.Word.{u16}
use rp2040_wiznet_eaa_s_aws.Prelude.Int.{ℤ}
use rp2040_wiznet_eaa_s_aws.Prelude.CStr.{strlen, sprintf, sprintf_lem}
use rp2040_wiznet_eaa_s_aws.Mqtt.{Mqtt, SubscribeInfo, local, gone, subscribed}
use rp2040_wiznet_eaa_s_aws.Mqtt.Table.{end_of_buffer, end_scope, unsubscribe_loop}
use rp2040_wiznet_eaa_s_aws.Mqtt.Subscriptions.{subscribe_free, unsubscribe_slots}
use rp2040_wiznet_eaa_s_aws.Jobs.Connect.{subscribe_local, unsubscribe_local}

-- `m'` has one subscription more than `m`, whose topic stood in a buffer that is gone.
pub record IsSubscribed (text : List ℕ) (m m' : Mqtt) : Type 0 where
  pub counted : m'.config.subscribe_count ≡ suc m.config.subscribe_count
  pub stored :
      m'.config.mqtt_subscribe_info
      ≡ map end_of_buffer (
          set m.config.mqtt_subscribe_info m.config.subscribe_count (record {
            qos = 1;
            topic_filter = local text;
            topic_filter_length = u16 (strlen text);
          }))
  pub logged : m'.effects ≡ subscribed text ∷ m.effects
  pub same_state : m'.config.mqtt_state ≡ m.config.mqtt_state
  pub same_context : m'.config.mqtt_context ≡ m.config.mqtt_context
  pub same_tls : m'.tls_context ≡ m.tls_context

pub subscribe_local_outcome :
    (accepts : Bool) (text : List ℕ) (m : Mqtt)
    → m.config.subscribe_count < 5
    → length text < 256
    → Returns
        (subscribe_local accepts text m)
        (λ r. ((r.0 ≡ true) × IsSubscribed text m r.1) ⊎ (r.0 ≡ false))
unfolding subscribe_local end_scope
subscribe_local_outcome true text m free fits =
    Returns-bind (sprintf 256 text) _ (λ t. t ≡ text) _ (sprintf_lem 256 text fits)
      (λ topic e. rw (subscribe_free true 1 (local topic) topic m refl free) (
        inl (
          refl,
          record {
            counted = refl;
            stored = rw e refl;
            logged = rw e refl;
            same_state = refl;
            same_context = refl;
            same_tls = refl;
          },
        )))
subscribe_local_outcome false text m free fits =
    Returns-bind (sprintf 256 text) _ (λ t. t ≡ text) _ (sprintf_lem 256 text fits)
      (λ topic e. rw (subscribe_free false 1 (local topic) topic m refl free) (inr refl))

-- Giving up a topic reads the topics before it, and the first of them is gone.
gone_read :
    (accepts : ℕ → Bool) (text : List ℕ) (slot : SubscribeInfo) (slots : List SubscribeInfo)
    (m : Mqtt)
    → slot.topic_filter ≡ gone
    → 0 < m.config.subscribe_count
    → unsubscribe_loop accepts text 0 (slot ∷ slots) m ≡ none
unfolding unsubscribe_loop
gone_read accepts text slot slots m is_gone some_left =
    simp (lt→ltb 0 m.config.subscribe_count some_left, is_gone) refl

pub unsubscribe_gone :
    (accepts : ℕ → Bool) (text : List ℕ) (slot : SubscribeInfo) (slots : List SubscribeInfo)
    (m : Mqtt)
    → m.config.mqtt_subscribe_info ≡ slot ∷ slots
    → slot.topic_filter ≡ gone
    → 0 < m.config.subscribe_count
    → unsubscribe_local accepts text m ≡ none
unfolding unsubscribe_local sprintf
unsubscribe_gone accepts text slot slots m table is_gone some_left =
    elim (Bool-cases (ltb (length text) 256)) [
      | inl p ↦ rw p (
          ap (λ (o : Option (ℤ × Mqtt)). o >>= λ r. some (true, r.1))
            (unsubscribe_slots accepts text (slot ∷ slots) m table some_left
              ∙ gone_read accepts text slot slots m is_gone some_left))
      | inr q ↦ rw q refl
    ]
