-- ===== src/Jobs/Handler/Running.antt =====
-- What the events may change (app/aws_iot/iot_jobs_handler.c).
use rp2040_wiznet_eaa_s_aws.Prelude.{
  ℕ, ◌<◌, ◌≤◌, ◌≡◌, inl, inr, refl, ap, ◌∙◌, Bool, true, false, if◌then◌else◌, List, [], ◌∷◌, ◌++◌,
  some, length, replicate, Bool-cases, All, lt→ltb, le→not_ltb, IfReturns, IfReturns-intro,
  IfReturns-elim, IfReturns-bind,
}
use rp2040_wiznet_eaa_s_aws.Prelude.Word.{sub32, u16}
use rp2040_wiznet_eaa_s_aws.Prelude.CStr.{strlen}
use rp2040_wiznet_eaa_s_aws.Jobs.JobList.{add_job_id, is_exist_job_id}
use rp2040_wiznet_eaa_s_aws.Jobs.Parse.{
  Json, parsing_get_job_accepted, parsing_start_next_job_accepted,
}
use rp2040_wiznet_eaa_s_aws.Jobs.Events.{
  JobsState, Packet, publish, other_packet, Handled, Round, is_topic, get_topic, start_next_topic,
  update_topic, on_get_accepted, on_start_next_accepted, handle_rest, iot_jobs_event_callback,
  mqtt_transport_yield, wait_loop,
}

-- A running job is not touched.
abbrev pub KeepsJob : JobsState → JobsState → Type 0
KeepsJob s s' = (s'.execution ≡ s.execution) × (s'.flash ≡ s.flash)

module _ (json : Json) where
  on_get_accepted-KeepsJob :
      (payload temp : List ℕ) (s : JobsState)
      → IfReturns (on_get_accepted json payload temp s) (λ h. KeepsJob s h.state)
  unfolding on_get_accepted
  on_get_accepted-KeepsJob payload temp s =
      let parsed = parsing_get_job_accepted json payload temp (length temp) in
      let id_length : ℕ = u16 (strlen parsed.1) in
      elim (Bool-cases parsed.0) [
        | inl p ↦ elim (Bool-cases (is_exist_job_id s.job_id_list parsed.1 id_length)) [
          | inl q ↦ rw (p, q) (refl, refl)
          | inr q ↦
              rw (p, q)
                (IfReturns-bind (add_job_id s.job_id_list parsed.1 id_length) _ (λ a. Unit) _
                  (IfReturns-intro _ (λ a. Unit) (λ a e. tt)) (λ a h. (refl, refl)))
        ]
        | inr p ↦ rw p (refl, refl)
      ]

  on_start_next_accepted-KeepsJob :
      (payload temp : List ℕ) (s : JobsState)
      → s.execution.is_job_started ≡ true
      → IfReturns (on_start_next_accepted json payload temp s) (KeepsJob s)
  unfolding on_start_next_accepted
  on_start_next_accepted-KeepsJob payload temp s running = rw running (
      IfReturns-bind
        (parsing_start_next_job_accepted json payload temp (replicate 4096 0) (replicate 64 0)) _
        (λ a. Unit) _ (IfReturns-intro _ (λ a. Unit) (λ a e. tt))
        (λ parsed h. elim (Bool-cases parsed.0) [
          | inl p ↦ rw p (refl, refl)
          | inr p ↦ rw p (refl, refl)
        ]))

  handle_rest-KeepsJob :
      (topic payload : List ℕ) (h : Handled)
      → h.state.execution.is_job_started ≡ true
      → IfReturns (handle_rest json topic payload h) (KeepsJob h.state)
  unfolding handle_rest
  handle_rest-KeepsJob topic payload h running = elim (Bool-cases h.is_returned) [
    | inl p ↦ rw p (refl, refl)
    | inr p ↦ rw p (
        IfReturns-bind (is_topic (start_next_topic h.state) topic) _ (λ a. Unit) _
          (IfReturns-intro _ (λ a. Unit) (λ a e. tt))
          (λ next n.
            IfReturns-bind
              (if next
                then on_start_next_accepted json payload h.temp_job_id h.state
                else some h.state)
              _ (KeepsJob h.state) _ (started next)
              (λ s' kept.
                IfReturns-bind (is_topic (update_topic s') topic) _ (λ a. Unit) _
                  (IfReturns-intro _ (λ a. Unit) (λ a e. tt))
                  (λ updated u. flagged updated s' kept))))
  ]
    where
      started :
          (next : Bool)
          → IfReturns
              (if next
                then on_start_next_accepted json payload h.temp_job_id h.state
                else some h.state)
              (KeepsJob h.state)
      started true = on_start_next_accepted-KeepsJob payload h.temp_job_id h.state running
      started false = (refl, refl)

      flagged :
          (updated : Bool) (s' : JobsState)
          → KeepsJob h.state s'
          → KeepsJob h.state (if updated then record s' { recved_job_update = true } else s')
      flagged true s' kept = kept
      flagged false s' kept = kept

  -- No packet changes the parameters of a job that runs, or the flash.
  pub iot_jobs_event_callback-KeepsJob :
      (p : Packet) (s s' : JobsState)
      → s.execution.is_job_started ≡ true
      → iot_jobs_event_callback json p s ≡ some s'
      → KeepsJob s s'
  iot_jobs_event_callback-KeepsJob p s s' running e =
      IfReturns-elim _ (KeepsJob s) s' e (callback p)
    where
      handled :
          (topic payload : List ℕ) (h : Handled)
          → KeepsJob s h.state
          → IfReturns (handle_rest json topic payload h) (KeepsJob s)
      handled topic payload h kept = IfReturns-intro _ (KeepsJob s) (λ t k.
          let k' : KeepsJob h.state t =
            IfReturns-elim _ (KeepsJob h.state) t k (
              handle_rest-KeepsJob topic payload h (ap (λ x. x.is_job_started) kept.0 ∙ running)) in
          (k'.0 ∙ kept.0, k'.1 ∙ kept.1))

      first :
          (payload : List ℕ) (got : Bool)
          → IfReturns
              (if got
                then on_get_accepted json payload (replicate 64 0) s
                else some (record { is_returned = false; temp_job_id = replicate 64 0; state = s }))
              (λ h. KeepsJob s h.state)
      first payload true = on_get_accepted-KeepsJob payload (replicate 64 0) s
      first payload false = (refl, refl)

      callback : (p : Packet) → IfReturns (iot_jobs_event_callback json p s) (KeepsJob s)
      callback other_packet = unfold iot_jobs_event_callback in (refl, refl)
      callback (publish topic payload) =
          unfold iot_jobs_event_callback in
          IfReturns-bind (is_topic (get_topic s) topic) _ (λ a. Unit) _
            (IfReturns-intro _ (λ a. Unit) (λ a e. tt))
            (λ got g.
              IfReturns-bind
                (if got
                  then on_get_accepted json payload (replicate 64 0) s
                  else some
                      (record { is_returned = false; temp_job_id = replicate 64 0; state = s }))
                _ (λ h. KeepsJob s h.state) _ (first payload got)
                (λ h kept. handled topic payload h kept))

  -- A wait in which no packet arrives gives up at the first round behind the time, and changes nothing,
  -- if what it waits for is not there at its start.
  pub wait_loop_timeout :
      (recved : JobsState → Bool) (clear : JobsState → JobsState) (timeout_ms start : ℕ)
      (silent : List Round) (late : Round) (rest : List Round) (s : JobsState)
      → recved s ≡ false
      → All (λ r. (r.packets ≡ []) × (sub32 r.now start ≤ timeout_ms)) silent
      → timeout_ms < sub32 late.now start
      → wait_loop json recved clear timeout_ms start (silent ++ late ∷ rest) s ≡ some (false, s)
  unfolding wait_loop mqtt_transport_yield
  wait_loop_timeout recved clear timeout_ms start [] late rest s none_yet silent_ok is_late =
      rw (lt→ltb _ _ is_late) refl
  wait_loop_timeout recved clear timeout_ms start (r ∷ silent) late rest s none_yet silent_ok
        is_late =
      rw (le→not_ltb _ _ silent_ok.0.1, silent_ok.0.0, none_yet)
        (wait_loop_timeout recved clear timeout_ms start silent late rest s none_yet silent_ok.1
          is_late)
