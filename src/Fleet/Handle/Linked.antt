-- ===== src/Fleet/Handle/Linked.antt =====
-- The steps of a provisioning that change only the connection (app/aws_iot/fleet_provisioning_handler.c).
use rp2040_wiznet_eaa_s_aws.Prelude.{
  ℕ, suc, ◌<◌, ◌≤◌, ◌≡◌, refl, sym, subst, ap, ◌∙◌, inl, inr, Bool, true, List, some, arith,
  Returns, Returns-bind, Bool-cases,
}
use rp2040_wiznet_eaa_s_aws.Prelude.Int.{is_zero}
use rp2040_wiznet_eaa_s_aws.Mqtt.{Mqtt, TopicFilter, topic_text, mqtt_transport_publish}
use rp2040_wiznet_eaa_s_aws.Mqtt.Table.{mqtt_transport_subscribe, mqtt_transport_unsubscribe}
use rp2040_wiznet_eaa_s_aws.Mqtt.Readable.{
  IsReadable, mqtt_transport_subscribe-IsReadable, mqtt_transport_unsubscribe-IsReadable,
}
use rp2040_wiznet_eaa_s_aws.Fleet.Events.{Fleet}
use rp2040_wiznet_eaa_s_aws.Fleet.Handle.{Phase, on_mqtt, end_both, send_message}

-- `s` but for the connection, which has at most `k` subscriptions.
pub record IsLinked (k : ℕ) (s t : Fleet) : Type 0 where
  pub link : Mqtt
  pub same : t ≡ record s { mqtt = link }
  pub few : link.config.subscribe_count ≤ k
  pub readable : IsReadable link

pub linked_few : (k : ℕ) (s t : Fleet) → IsLinked k s t → t.mqtt.config.subscribe_count ≤ k
linked_few k s t linked =
    subst (λ (x : Fleet). x.mqtt.config.subscribe_count ≤ k) (sym linked.same) linked.few

pub linked-IsReadable : (k : ℕ) (s t : Fleet) → IsLinked k s t → IsReadable t.mqtt
linked-IsReadable k s t linked =
    subst (λ (x : Fleet). IsReadable x.mqtt) (sym linked.same) linked.readable

pub IsLinked-trans : (k n : ℕ) (s t u : Fleet) → IsLinked k s t → IsLinked n t u → IsLinked n s u
IsLinked-trans k n s t u st tu = record {
  link = tu.link;
  same = tu.same ∙ ap (λ (x : Fleet). record x { mqtt = tu.link }) st.same;
  few = tu.few;
  readable = tu.readable;
}

pub subscribe-IsLinked :
    (k : ℕ) (accepts : Bool) (topic : TopicFilter) (text : List ℕ) (s t : Fleet)
    → accepts ≡ true
    → topic_text topic ≡ some text
    → k < 5
    → IsLinked k s t
    → Returns
        (on_mqtt (mqtt_transport_subscribe accepts 1 topic) t)
        (λ r. (is_zero r.0 ≡ true) × IsLinked (suc k) s r.1)
subscribe-IsLinked k accepts topic text s t accepted e room linked =
    let few : t.mqtt.config.subscribe_count ≤ k = linked_few k s t linked in
    let readable : IsReadable t.mqtt = linked-IsReadable k s t linked in
    Returns-bind (mqtt_transport_subscribe accepts 1 topic t.mqtt) _ _ _
      (mqtt_transport_subscribe-IsReadable accepts 1 topic text t.mqtt accepted e (omega arith)
        readable)
      (λ r h. (
        h.0,
        IsLinked-trans k (suc k) s t _ linked (record {
          link = r.1;
          same = refl;
          few = omega (arith, h.1.few);
          readable = h.1.readable;
        }),
      ))

pub unsubscribe-IsLinked :
    (k : ℕ) (accepts : ℕ → Bool) (topic : List ℕ) (s t : Fleet)
    → IsLinked k s t
    → Returns (on_mqtt (mqtt_transport_unsubscribe accepts topic) t) (λ r. IsLinked k s r.1)
unsubscribe-IsLinked k accepts topic s t linked =
    let few : t.mqtt.config.subscribe_count ≤ k = linked_few k s t linked in
    let readable : IsReadable t.mqtt = linked-IsReadable k s t linked in
    Returns-bind (mqtt_transport_unsubscribe accepts topic t.mqtt) _ _ _
      (mqtt_transport_unsubscribe-IsReadable accepts topic t.mqtt readable)
      (λ r h.
        IsLinked-trans k k s t _ linked
          (record { link = r.1; same = refl; few = omega (arith, h.few); readable = h.readable }))

pub end-IsLinked :
    (k : ℕ) (phase : Phase) (first second : List ℕ) (s : Fleet) (waited : Bool × Fleet)
    → IsLinked k s waited.1
    → Returns (end_both phase first second waited) (λ r. (r.0 ≡ waited.0) × IsLinked k s r.1)
unfolding end_both
end-IsLinked k phase first second s waited linked =
    Returns-bind (on_mqtt (mqtt_transport_unsubscribe phase.ends_first first) waited.1) _ _ _
      (unsubscribe-IsLinked k phase.ends_first first s waited.1 linked)
      (λ u q.
        Returns-bind (on_mqtt (mqtt_transport_unsubscribe phase.ends_second second) u.1) _ _ _
          (unsubscribe-IsLinked k phase.ends_second second s u.1 q) (λ v q'. (refl, q')))

-- Sending a message changes the connection only in what it has sent.
pub send-IsLinked :
    (k : ℕ) (phase : Phase) (topic : List ℕ) (s t : Fleet)
    → IsLinked k s t
    → IsLinked k s (send_message phase topic t)
unfolding send_message mqtt_transport_publish
send-IsLinked k phase topic s t linked = elim (Bool-cases phase.is_sent) [
  | inl sent ↦ rw sent (
      IsLinked-trans k k s t _ linked (record {
        link = _;
        same = refl;
        few = linked_few k s t linked;
        readable =
            let old : IsReadable t.mqtt = linked-IsReadable k s t linked in
            record { size = old.size; readable = old.readable };
      }))
  | inr not_sent ↦ rw not_sent linked
]
