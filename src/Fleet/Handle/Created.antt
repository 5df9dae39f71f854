-- ===== src/Fleet/Handle/Created.antt =====
-- An exchange that brings a certificate (app/aws_iot/fleet_provisioning_handler.c).
use rp2040_wiznet_eaa_s_aws.Prelude.{
  ℕ, ◌≤◌, ◌≡◌, refl, sym, subst, ap, ◌∙◌, Bool, true, false, List, [], ◌∷◌, ◌++◌, All, Option, some,
  arith, ◌>>=◌, Returns, Returns-bind, le→not_ltb,
}
use rp2040_wiznet_eaa_s_aws.Prelude.Word.{sub32}
use rp2040_wiznet_eaa_s_aws.Flash.Rom.{FlashRom}
use rp2040_wiznet_eaa_s_aws.Mqtt.{constant}
use rp2040_wiznet_eaa_s_aws.Mqtt.Table.{mqtt_transport_subscribe}
use rp2040_wiznet_eaa_s_aws.Mqtt.Readable.{IsReadable}
use rp2040_wiznet_eaa_s_aws.Jobs.Events.{Packet, publish, other_packet, Round}
use rp2040_wiznet_eaa_s_aws.Fleet.Texts.{create_key_and_cert, create_accepted, create_rejected}
use rp2040_wiznet_eaa_s_aws.Fleet.Parse.{CertInfo, Cbor, parsing_accept_certificate_create_msg}
use rp2040_wiznet_eaa_s_aws.Fleet.Events.{
  Fleet, begins_with, on_create_accepted, fleet_provisioning_event_callback, mqtt_transport_yield,
  wait_accepted, wait_recv_create_cert_and_key_accept_msg,
}
use rp2040_wiznet_eaa_s_aws.Fleet.Handle.{
  Phase, on_mqtt, end_both, send_message, process_create_cert_and_key,
}
use rp2040_wiznet_eaa_s_aws.Fleet.Handle.Linked.{
  IsLinked, subscribe-IsLinked, end-IsLinked, send-IsLinked,
}

-- Packets that are no messages, such as acknowledgements.
abbrev pub AreOther : List Packet → Type 0
AreOther packets = All (λ p. p ≡ other_packet) packets

-- The library accepts both subscriptions; before the wait's 5000 ms are over a round brings one message,
-- beside packets that are no messages; and the rounds before it bring no message.
pub record IsAnswered (phase : Phase) (topic payload : List ℕ) : Type 0 where
  pub first_accepted : phase.accepts_first ≡ true
  pub second_accepted : phase.accepts_second ≡ true
  pub earlier : List Round
  pub round : Round
  pub later : List Round
  pub rounds : phase.rounds ≡ earlier ++ round ∷ later
  pub earlier_in_time : All (λ (r : Round). sub32 r.now phase.start ≤ 5000) earlier
  pub earlier_quiet : All (λ (r : Round). AreOther r.packets) earlier
  pub in_time : sub32 round.now phase.start ≤ 5000
  pub ahead : List Packet
  pub behind : List Packet
  pub ahead_quiet : AreOther ahead
  pub behind_quiet : AreOther behind
  pub packets : round.packets ≡ ahead ++ publish topic payload ∷ behind

module _ (rom : FlashRom) (cbor : Cbor) where
  yield-AreOther :
      (packets : List Packet) (s : Fleet)
      → AreOther packets
      → mqtt_transport_yield rom cbor packets s ≡ some s
  unfolding mqtt_transport_yield fleet_provisioning_event_callback
  yield-AreOther [] s h = refl
  yield-AreOther (p ∷ packets) s h = rw (h.0) (yield-AreOther packets s h.1)

  yield_message :
      (ahead behind : List Packet) (message : Packet) (s t : Fleet)
      → AreOther ahead
      → AreOther behind
      → fleet_provisioning_event_callback rom cbor message s ≡ some t
      → mqtt_transport_yield rom cbor (ahead ++ message ∷ behind) s ≡ some t
  unfolding mqtt_transport_yield fleet_provisioning_event_callback
  yield_message [] behind message s t h k called = rw called (yield-AreOther behind t k)
  yield_message (p ∷ ahead) behind message s t h k called =
      rw (h.0) (yield_message ahead behind message s t h.1 k called)

  -- A wait in which a round brings what it waits for.
  wait_reaches :
      (earlier later : List Round) (round : Round) (start : ℕ) (recved : Fleet → Bool)
      (clear : Fleet → Fleet) (s t : Fleet)
      → All (λ (r : Round). sub32 r.now start ≤ 5000) earlier
      → All (λ (r : Round). AreOther r.packets) earlier
      → sub32 round.now start ≤ 5000
      → recved s ≡ false
      → mqtt_transport_yield rom cbor round.packets s ≡ some t
      → recved t ≡ true
      → wait_accepted rom cbor recved clear 5000 start (earlier ++ round ∷ later) s
        ≡ some (true, clear t)
  unfolding wait_accepted
  wait_reaches [] later round start recved clear s t times quiet time not_yet yielded received =
      rw (le→not_ltb 5000 (sub32 round.now start) time, yielded, received) refl
  wait_reaches (r ∷ earlier) later round start recved clear s t times quiet time not_yet yielded
        received =
      rw (le→not_ltb 5000 (sub32 r.now start) times.0, yield-AreOther r.packets s quiet.0, not_yet)
        (wait_reaches earlier later round start recved clear s t times.1 quiet.1 time not_yet
          yielded received)

  pub wait_answered :
      (phase : Phase) (topic payload : List ℕ) (recved : Fleet → Bool) (clear : Fleet → Fleet)
      (s t : Fleet)
      → IsAnswered phase topic payload
      → recved s ≡ false
      → fleet_provisioning_event_callback rom cbor (publish topic payload) s ≡ some t
      → recved t ≡ true
      → wait_accepted rom cbor recved clear 5000 phase.start phase.rounds s ≡ some (true, clear t)
  wait_answered phase topic payload recved clear s t answered not_yet called received =
      ap (λ l. wait_accepted rom cbor recved clear 5000 phase.start l s) answered.rounds
      ∙ wait_reaches answered.earlier answered.later answered.round phase.start recved clear s t
          answered.earlier_in_time answered.earlier_quiet answered.in_time not_yet
          (ap (λ l. mqtt_transport_yield rom cbor l s) answered.packets
            ∙ yield_message answered.ahead answered.behind (publish topic payload) s t
                answered.ahead_quiet answered.behind_quiet called)
          received

  -- What the answer with the certificate changes.
  abbrev pub with_certificate : CertInfo → List ℕ → Fleet → Fleet
  with_certificate info token s = record s {
    cert_info = info;
    temp_ownership_token = token;
    recved_create_key_and_cert = false;
  }

  certificate_arrives :
      (phase : Phase) (topic payload : List ℕ) (info : CertInfo) (token : List ℕ) (s b : Fleet)
      → IsAnswered phase topic payload
      → s.recved_create_key_and_cert ≡ false
      → begins_with topic create_accepted ≡ true
      → parsing_accept_certificate_create_msg cbor payload s.cert_info s.temp_ownership_token
        ≡ (true, info, token)
      → IsLinked 2 s b
      → Returns
          (wait_recv_create_cert_and_key_accept_msg rom cbor 5000 phase.start phase.rounds
              (send_message phase create_key_and_cert b)
            >>= end_both phase create_accepted create_rejected)
          (λ r. (r.0 ≡ true) × IsLinked 2 (with_certificate info token s) r.1)
  unfolding wait_recv_create_cert_and_key_accept_msg fleet_provisioning_event_callback
      on_create_accepted
  certificate_arrives phase topic payload info token s b answered not_yet begins parsed linked =
      let t : Fleet = send_message phase create_key_and_cert b in
      let sent : IsLinked 2 s t = send-IsLinked 2 phase create_key_and_cert s b linked in
      let certified : Fleet → Fleet = λ x. record (on_create_accepted rom cbor payload x) {
        recved_create_key_and_cert = false;
      } in
      let waited : wait_recv_create_cert_and_key_accept_msg rom cbor 5000 phase.start phase.rounds t
          ≡ some (true, certified t) =
        wait_answered phase topic payload (λ x. x.recved_create_key_and_cert)
          (λ x. record x { recved_create_key_and_cert = false }) t
          (on_create_accepted rom cbor payload t) answered
          (ap (λ x. x.recved_create_key_and_cert) sent.same ∙ not_yet) (rw begins refl) refl in
      let linked' : IsLinked 2 (with_certificate info token s) (certified t) = record {
        link = sent.link;
        same =
            ap certified sent.same
            ∙ ap
                (λ (q : Bool × CertInfo × List ℕ). record s {
                  mqtt = sent.link;
                  cert_info = q.1;
                  temp_ownership_token = q.2;
                  recved_create_key_and_cert = false;
                })
                parsed;
        few = sent.few;
        readable = sent.readable;
      } in
      subst
        (λ (o : Option (Bool × Fleet)).
          Returns (o >>= end_both phase create_accepted create_rejected)
            (λ r. (r.0 ≡ true) × IsLinked 2 (with_certificate info token s) r.1))
        (sym waited)
        (end-IsLinked 2 phase create_accepted create_rejected (with_certificate info token s)
          (true, certified t) linked')

  pub create_succeeds :
      (phase : Phase) (topic payload : List ℕ) (info : CertInfo) (token : List ℕ) (s : Fleet)
      → IsAnswered phase topic payload
      → s.recved_create_key_and_cert ≡ false
      → begins_with topic create_accepted ≡ true
      → parsing_accept_certificate_create_msg cbor payload s.cert_info s.temp_ownership_token
        ≡ (true, info, token)
      → IsReadable s.mqtt
      → s.mqtt.config.subscribe_count ≡ 0
      → Returns
          (process_create_cert_and_key rom cbor phase s)
          (λ r. (r.0 ≡ true) × IsLinked 2 (with_certificate info token s) r.1)
  unfolding process_create_cert_and_key wait_recv_create_cert_and_key_accept_msg
  create_succeeds phase topic payload info token s answered not_yet begins parsed readable
        none_yet =
      let itself : IsLinked 0 s s = record {
        link = s.mqtt;
        same = refl;
        few = omega arith;
        readable = readable;
      } in
      Returns-bind
        (on_mqtt (mqtt_transport_subscribe phase.accepts_first 1 (constant create_accepted)) s) _ _
        _
        (subscribe-IsLinked 0 phase.accepts_first (constant create_accepted) create_accepted s s
          answered.first_accepted refl (omega arith) itself)
        (λ a h. rw (h.0) (
          Returns-bind
            (on_mqtt (mqtt_transport_subscribe phase.accepts_second 1 (constant create_rejected))
              a.1)
            _ _ _
            (subscribe-IsLinked 1 phase.accepts_second (constant create_rejected) create_rejected s
              a.1 answered.second_accepted refl (omega arith) h.1)
            (λ b h'. rw (h'.0) (
              certificate_arrives phase topic payload info token s b.1 answered not_yet begins
                parsed h'.1))))
