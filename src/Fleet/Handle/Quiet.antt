-- ===== src/Fleet/Handle/Quiet.antt =====
-- Waits in which no acceptance of a registration arrives (app/aws_iot/fleet_provisioning_handler.c).
use rp2040_wiznet_eaa_s_aws.Prelude.{
  ℕ, ◌≡◌, refl, ap, inl, inr, ◌∙◌, Bool, false, ltb, List, [], ◌∷◌, some, Mem, All, IfReturns,
  IfReturns-bind, IfReturns-intro, Bool-cases,
}
use rp2040_wiznet_eaa_s_aws.Prelude.Word.{sub32}
use rp2040_wiznet_eaa_s_aws.Prelude.CStr.{sprintf, sprintf_result}
use rp2040_wiznet_eaa_s_aws.Flash.Rom.{FlashRom}
use rp2040_wiznet_eaa_s_aws.Jobs.Events.{Packet, publish, other_packet, Round}
use rp2040_wiznet_eaa_s_aws.Fleet.Texts.{
  provision_accepted, provision_rejected, create_accepted, create_rejected,
}
use rp2040_wiznet_eaa_s_aws.Fleet.Parse.{Cbor}
use rp2040_wiznet_eaa_s_aws.Fleet.Events.{
  Fleet, begins_with, template_topic, on_create_accepted, on_template_topic,
  fleet_provisioning_event_callback, mqtt_transport_yield, wait_accepted,
}

-- A packet that is no message on the topic for an accepted registration.
abbrev pub IsNoAcceptance : List ℕ → Packet → Type 0
IsNoAcceptance name other_packet = Unit {0}
IsNoAcceptance name (publish topic payload) =
    begins_with topic (template_topic (some name) provision_accepted) ≡ false

abbrev pub HasNoAcceptance : List ℕ → List Round → Type 0
HasNoAcceptance name rounds =
    All (λ (round : Round). All (IsNoAcceptance name) round.packets) rounds

-- Nothing is stored, and no registration is accepted.
pub record IsUntouched (flash : Mem) (name : List ℕ) (s : Fleet) : Type 0 where
  pub same_flash : s.flash ≡ flash
  pub not_registered : s.recved_register_thing ≡ false
  pub same_name : s.aws_template_name ≡ some name

module _ (rom : FlashRom) (cbor : Cbor) (flash : Mem) (name : List ℕ) where
  abbrev P : Fleet → Type 0
  P = IsUntouched flash name

  template_topic_keeps :
      (topic : List ℕ) (s : Fleet)
      → begins_with topic (template_topic (some name) provision_accepted) ≡ false
      → P s
      → IfReturns (on_template_topic rom cbor topic s) P
  unfolding on_template_topic sprintf
  template_topic_keeps topic s quiet p =
      IfReturns-bind (sprintf 256 (template_topic s.aws_template_name provision_accepted)) _
        (λ t. t ≡ template_topic s.aws_template_name provision_accepted) P
        (sprintf_result 256 (template_topic s.aws_template_name provision_accepted))
        (λ accepted e.
          let refused : begins_with topic accepted ≡ false =
            ap (begins_with topic) (e ∙ ap (λ n. template_topic n provision_accepted) p.same_name)
            ∙ quiet in
          rw refused (
            IfReturns-bind (sprintf 256 (template_topic s.aws_template_name provision_rejected)) _
              (λ _. Unit) P
              (IfReturns-intro (sprintf 256 (template_topic s.aws_template_name provision_rejected))
                _ (λ _ _. tt))
              (λ _ _. p)))

  callback_keeps :
      (packet : Packet) (s : Fleet)
      → IsNoAcceptance name packet
      → P s
      → IfReturns (fleet_provisioning_event_callback rom cbor packet s) P
  unfolding fleet_provisioning_event_callback on_create_accepted
  callback_keeps other_packet s quiet p = p
  callback_keeps (publish topic payload) s quiet p =
      elim (Bool-cases (begins_with topic create_accepted)) [
        | inl q ↦ rw q (record {
          same_flash = p.same_flash;
          not_registered = p.not_registered;
          same_name = p.same_name;
        })
        | inr q ↦ elim (Bool-cases (begins_with topic create_rejected)) [
          | inl q' ↦ rw (q, q') p
          | inr q' ↦ rw (q, q') (template_topic_keeps topic s quiet p)
        ]
      ]

  yield_keeps :
      (packets : List Packet) (s : Fleet)
      → All (IsNoAcceptance name) packets
      → P s
      → IfReturns (mqtt_transport_yield rom cbor packets s) P
  unfolding mqtt_transport_yield
  yield_keeps [] s quiet p = p
  yield_keeps (packet ∷ packets) s quiet p =
      IfReturns-bind (fleet_provisioning_event_callback rom cbor packet s) _ P P
        (callback_keeps packet s quiet.0 p) (λ s' p'. yield_keeps packets s' quiet.1 p')

  -- A wait keeps this, and ends well only by its flag.
  pub wait_keeps :
      (recved : Fleet → Bool) (clear : Fleet → Fleet) (timeout_ms start : ℕ) (rounds : List Round)
      (s : Fleet)
      → ((t : Fleet) → P t → P (clear t))
      → HasNoAcceptance name rounds
      → P s
      → IfReturns (wait_accepted rom cbor recved clear timeout_ms start rounds s) (λ r. P r.1)
  unfolding wait_accepted
  wait_keeps recved clear timeout_ms start [] s keeps quiet p = tt
  wait_keeps recved clear timeout_ms start (round ∷ rounds) s keeps quiet p =
      elim (Bool-cases (ltb timeout_ms (sub32 round.now start))) [
        | inl late ↦ rw late p
        | inr early ↦ rw early (
            IfReturns-bind (mqtt_transport_yield rom cbor round.packets s) _ P _
              (yield_keeps round.packets s quiet.0 p)
              (λ s' p'. elim (Bool-cases (recved s')) [
                | inl q ↦ rw q (keeps s' p')
                | inr q ↦ rw q (wait_keeps recved clear timeout_ms start rounds s' keeps quiet.1 p')
              ]))
      ]

  -- A wait whose flag is never set ends without it.
  pub wait_fails :
      (recved : Fleet → Bool) (clear : Fleet → Fleet) (timeout_ms start : ℕ) (rounds : List Round)
      (s : Fleet)
      → ((t : Fleet) → P t → recved t ≡ false)
      → HasNoAcceptance name rounds
      → P s
      → IfReturns
          (wait_accepted rom cbor recved clear timeout_ms start rounds s)
          (λ r. (r.0 ≡ false) × P r.1)
  unfolding wait_accepted
  wait_fails recved clear timeout_ms start [] s never quiet p = tt
  wait_fails recved clear timeout_ms start (round ∷ rounds) s never quiet p =
      elim (Bool-cases (ltb timeout_ms (sub32 round.now start))) [
        | inl late ↦ rw late (refl, p)
        | inr early ↦ rw early (
            IfReturns-bind (mqtt_transport_yield rom cbor round.packets s) _ P _
              (yield_keeps round.packets s quiet.0 p)
              (λ s' p'.
                rw (never s' p')
                  (wait_fails recved clear timeout_ms start rounds s' never quiet.1 p')))
      ]
