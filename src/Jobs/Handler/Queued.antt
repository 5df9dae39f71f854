-- ===== src/Jobs/Handler/Queued.antt =====
-- How a queued job reaches the list of job ids (app/aws_iot/iot_jobs_handler.c).
use rp2040_wiznet_eaa_s_aws.Prelude.{
  ℕ, suc, ◌-◌, ◌<◌, ◌≤◌, ◌≡◌, refl, ◌∙◌, Bool, true, false, ◌==◌, if◌then◌else◌, List, [], ◌∷◌,
  ◌++◌, some, length, length-append, length-replicate, replicate, drop, arith, ◌>>=◌, Bool-cases,
  All, lt→ltb, le→not_ltb, Returns, inl, inr,
}
use rp2040_wiznet_eaa_s_aws.Prelude.Word.{u16}
use rp2040_wiznet_eaa_s_aws.Prelude.CStr.{
  strncmp_same, c_str, strlen, strlen-text, strncpy_text, strncmp_eq, drop-replicate, IsText,
}
use rp2040_wiznet_eaa_s_aws.Jobs.JobList.Queue
use rp2040_wiznet_eaa_s_aws.Jobs.JobList.Queue.{JobId, IsJobId, begins_some}
use rp2040_wiznet_eaa_s_aws.Jobs.JobList.Refine.{
  slots_of, slot_of, add_job_id_refines, is_exist_job_id_refines,
}
use rp2040_wiznet_eaa_s_aws.Jobs.Texts.{
  queued_job_id, aws_things, get_accepted, start_next_accepted,
}
use rp2040_wiznet_eaa_s_aws.Jobs.Parse.{Json, parsing_get_job_accepted}
use rp2040_wiznet_eaa_s_aws.Jobs.Events.{
  JobsState, publish, Handled, is_topic, get_topic, start_next_topic, update_topic, on_get_accepted,
  handle_rest, iot_jobs_event_callback,
}

-- The queue behind a message with a job id: an id that begins one of the queued ids is taken for it.
abbrev pub queued : List JobId → JobId → List JobId
queued ids id = if begins_some id ids then ids else (Queue.push ids id).1

-- A payload in which the library finds a job id.
pub record HasQueuedJob (json : Json) (payload : List ℕ) (id : JobId) : Type 0 where
  pub is_json : json.json_validate payload ≡ true
  pub index : ℕ
  pub behind : List ℕ
  pub found : json.json_search payload queued_job_id ≡ some (index, length id)
  pub value : drop index payload ≡ id ++ behind

strncmp_common :
    (p a b : List ℕ)
    → IsText p
    → strncmp_eq (p ++ a) (p ++ b) (length (p ++ a)) ≡ strncmp_eq a b (length a)
unfolding strncmp_eq
strncmp_common [] a b h = refl
strncmp_common (c ∷ p) a b h = ground (arith, h.0, strncmp_common p a b h.1)

c_str-IsText : (s : List ℕ) → IsText (c_str s)
unfolding c_str
c_str-IsText [] = tt
c_str-IsText (c ∷ s) = elim (Bool-cases (c == 0)) [
  | inl p ↦ rw p tt
  | inr p ↦ rw p (λ e. ground arith, c_str-IsText s)
]

aws_things-IsText : IsText aws_things
aws_things-IsText = by_bytes aws_things refl
  where
    all_text : List ℕ → Bool
    all_text [] = true
    all_text (c ∷ s) = let rest = all_text s in if c == 0 then false else rest

    by_bytes : (s : List ℕ) → all_text s ≡ true → IsText s
    by_bytes [] h = tt
    by_bytes (c ∷ s) h = elim (Bool-cases (c == 0)) [
      | inl p ↦ absurd (ground (arith, h, p))
      | inr p ↦ (λ e. ground arith, by_bytes s (rw p at h))
    ]

-- The message on the topic for queued jobs is not taken for the next job.
other_topic :
    (thing : List ℕ)
    → strncmp_eq
        (aws_things ++ c_str thing ++ get_accepted)
        (aws_things ++ c_str thing ++ start_next_accepted)
        (length (aws_things ++ c_str thing ++ get_accepted))
      ≡ false
unfolding strncmp_eq
other_topic thing =
    strncmp_common aws_things (c_str thing ++ get_accepted) (c_str thing ++ start_next_accepted)
      aws_things-IsText
    ∙ strncmp_common (c_str thing) get_accepted start_next_accepted (c_str-IsText thing)

module _ (json : Json) where
  parsed_id :
      (payload : List ℕ) (id : JobId)
      → IsJobId id
      → HasQueuedJob json payload id
      → parsing_get_job_accepted json payload (replicate 64 0) 64 ≡ (true, slot_of id)
  unfolding parsing_get_job_accepted
  parsed_id payload id is_id has =
      let room : 64 - length id ≡ suc (64 - suc (length id)) = omega arith in
      rw
        (
          has.is_json,
          has.found,
          le→not_ltb 64 (length id) (omega arith),
          has.value,
          strncpy_text (replicate 64 0) id has.behind is_id.0
              (omega (arith, length-replicate {A = ℕ} 64 0)),
          drop-replicate (length id) 64 0,
          room,
        )
        refl

  on_get_accepted-queued :
      (payload : List ℕ) (id : JobId) (ids : List JobId) (s : JobsState)
      → IsJobId id
      → HasQueuedJob json payload id
      → length ids ≤ 5
      → All IsJobId ids
      → s.job_id_list ≡ slots_of ids
      → on_get_accepted json payload (replicate 64 0) s
        ≡ some (record {
          is_returned =
              if begins_some id ids then true else (if (Queue.push ids id).0 then false else true);
          temp_job_id = slot_of id;
          state = record s { recved_get_job = true; job_id_list = slots_of (queued ids id) };
        })
  unfolding on_get_accepted
  on_get_accepted-queued payload id ids s is_id has len ok list =
      let parsed : parsing_get_job_accepted json payload (replicate 64 0)
            (length {A = ℕ} (replicate 64 0))
          ≡ (true, slot_of id) =
        rw (length-replicate {A = ℕ} 64 0) (parsed_id payload id is_id has) in
      let size : u16 (strlen (slot_of id)) ≡ length id =
        omega (arith, strlen-text id (replicate (64 - suc (length id)) 0) is_id.0) in
      rw
        (
          parsed,
          size,
          list,
          is_exist_job_id_refines (5 - length ids) ids id (0 ∷ replicate (64 - suc (length id)) 0)
              is_id,
          add_job_id_refines ids id (0 ∷ replicate (64 - suc (length id)) 0) len ok is_id,
        )
        (elim (Bool-cases (begins_some id ids)) [ inl p ↦ rw p refl | inr p ↦ rw p refl ])

  -- What comes behind keeps the list, for a message on another topic than the next job's.
  handle_rest_keeps :
      (topic payload : List ℕ) (h : Handled)
      → is_topic (start_next_topic h.state) topic ≡ some false
      → length (update_topic h.state) < 256
      → Returns (handle_rest json topic payload h) (λ s'.
        (s'.recved_get_job ≡ h.state.recved_get_job) × (s'.job_id_list ≡ h.state.job_id_list))
  unfolding handle_rest
  handle_rest_keeps topic payload h other fit = elim (Bool-cases h.is_returned) [
    | inl p ↦ rw p (refl, refl)
    | inr p ↦
        rw (p, other, ◌>>=◌, is_topic, lt→ltb (length (update_topic h.state)) 256 fit) (flagged _)
  ]
    where
      flagged :
          (b : Bool)
          → let s' = if b then record h.state { recved_job_update = true } else h.state in
            (s'.recved_get_job ≡ h.state.recved_get_job) × (s'.job_id_list ≡ h.state.job_id_list)
      flagged true = (refl, refl)
      flagged false = (refl, refl)

  get_topic-length :
      (s : JobsState) (thing : List ℕ)
      → s.thing_name_for_event_callback ≡ some thing
      → (get_topic s ≡ aws_things ++ c_str thing ++ get_accepted)
        × (start_next_topic s ≡ aws_things ++ c_str thing ++ start_next_accepted)
        × (length (get_topic s) ≤ length (start_next_topic s))
  unfolding get_topic start_next_topic
  get_topic-length s thing name = rw name (
    refl,
    refl,
    omega (
      arith,
      length-append (c_str thing) get_accepted,
      length-append (c_str thing) start_next_accepted,
    ),
  )

  is_topic_same : (t : List ℕ) → length t < 256 → is_topic t t ≡ some true
  unfolding is_topic
  is_topic_same t h = rw (lt→ltb (length t) 256 h, strncmp_same t) refl

  is_topic_other :
      (s : JobsState) (thing : List ℕ)
      → s.thing_name_for_event_callback ≡ some thing
      → length (start_next_topic s) < 256
      → is_topic (start_next_topic s) (get_topic s) ≡ some false
  unfolding is_topic
  is_topic_other s thing name h =
      let t = get_topic-length s thing name in
      rw (lt→ltb (length (start_next_topic s)) 256 h, t.0, t.1, other_topic thing) refl

  -- A message on the topic for queued jobs, in whose payload the library finds a job id that fits a slot,
  -- is received, and the list of job ids is the queue with that id behind it, unless the id begins one of
  -- the queued ids or five ids are queued: then the list stays.
  pub iot_jobs_event_callback-queued :
      (payload thing : List ℕ) (id : JobId) (ids : List JobId) (s : JobsState)
      → IsJobId id
      → HasQueuedJob json payload id
      → length ids ≤ 5
      → All IsJobId ids
      → s.job_id_list ≡ slots_of ids
      → s.thing_name_for_event_callback ≡ some thing
      → length (start_next_topic s) < 256
      → length (update_topic s) < 256
      → Returns
          (iot_jobs_event_callback json (publish (get_topic s) payload) s)
          (λ s'. (s'.recved_get_job ≡ true) × (s'.job_id_list ≡ slots_of (queued ids id)))
  unfolding iot_jobs_event_callback
  iot_jobs_event_callback-queued payload thing id ids s is_id has len ok list name fit_next
        fit_update =
      let short : length (get_topic s) < 256 = omega (arith, (get_topic-length s thing name).2) in
      let h : Handled = record {
        is_returned =
            if begins_some id ids then true else (if (Queue.push ids id).0 then false else true);
        temp_job_id = slot_of id;
        state = record s { recved_get_job = true; job_id_list = slots_of (queued ids id) };
      } in
      let got : is_topic (get_topic s) (get_topic s) ≡ some true =
        is_topic_same (get_topic s) short in
      rw (got, on_get_accepted-queued payload id ids s is_id has len ok list)
        (handle_rest_keeps (get_topic s) payload h (is_topic_other s thing name fit_next)
          fit_update)
