-- ===== src/Jobs/JobList/Refine.antt =====
-- The slots of app/aws_iot/iot_jobs_job_list.c implement the queue.
use rp2040_wiznet_eaa_s_aws.Prelude.{
  ltb, if◌then◌else◌, ℕ, zero, suc, ◌+◌, ◌-◌, ◌≤◌, ◌≡◌, refl, true, false, List, [], ◌∷◌, ◌++◌, map,
  none, some, set, replicate, length, drop, All, arith, ap, ◌∙◌, sym, length-append, lt→ltb,
  le→not_ltb,
}
use native.Mathlib.Decide.{dec_lt}
use rp2040_wiznet_eaa_s_aws.Prelude.CStr.{
  c_str, strlen, strncmp_eq, copy_terminated, copy_terminated_text, strlen-text, IsText,
  strncmp_eq-is_prefix, is_prefix-text, drop-replicate,
}
use rp2040_wiznet_eaa_s_aws.Jobs.JobList.Queue
use rp2040_wiznet_eaa_s_aws.Jobs.JobList.Queue.{JobId, IsJobId, head_of, rest_of, begins_some}
use rp2040_wiznet_eaa_s_aws.Jobs.JobList.{
  JobIdList, blank, is_empty_job_id_list, is_exist_job_id, available_index_from,
  get_available_index, get_first_job_id, shift_slots, del_first_job_id, add_job_id,
}

-- A slot that holds a job id: the text, its end, and zeros.
abbrev pub slot_of : JobId → List ℕ
slot_of id = id ++ 0 ∷ replicate (64 - suc (length id)) 0

-- The slots that hold a queue.
abbrev pub slots_of : List JobId → JobIdList
slots_of ids = map slot_of ids ++ replicate (5 - length ids) blank

pub strlen-slot_of : (id : JobId) → IsText id → strlen (slot_of id) ≡ length id
strlen-slot_of id h = strlen-text id _ h

pub blank-strlen : strlen blank ≡ 0
unfolding strlen c_str
blank-strlen = refl

-- The first free slot is the one behind the ids.
pub available_index_from-map :
    (i n : ℕ) (ids : List JobId)
    → All IsJobId ids
    → available_index_from i (map slot_of ids ++ replicate (suc n) blank) ≡ some (i + length ids)
unfolding available_index_from
available_index_from-map i n [] h = ground (arith, blank-strlen)
available_index_from-map i n (id ∷ ids) h =
    ground (arith, strlen-slot_of id h.0.0, h.0.1, available_index_from-map (i + 1) n ids h.1)

available_index_from-full :
    (i : ℕ) (ids : List JobId)
    → All IsJobId ids
    → available_index_from i (map slot_of ids ++ []) ≡ none
unfolding available_index_from
available_index_from-full i [] h = refl
available_index_from-full i (id ∷ ids) h =
    ground (arith, strlen-slot_of id h.0.0, h.0.1, available_index_from-full (i + 1) ids h.1)

pub set-map :
    (n : ℕ) (ids : List JobId) (slot : List ℕ)
    → set (map slot_of ids ++ replicate (suc n) blank) (length ids) slot
      ≡ map slot_of ids ++ slot ∷ replicate n blank
set-map n [] slot = refl
set-map n (id ∷ ids) slot = ap (λ l. slot_of id ∷ l) (set-map n ids slot)

stored_slot :
    (id t : List ℕ) → IsJobId id → copy_terminated blank (id ++ t) (length id) ≡ some (slot_of id)
stored_slot id t h =
    copy_terminated_text blank id t h.0 h.2
    ∙ ap (λ r. some (id ++ 0 ∷ r)) (drop-replicate (suc (length id)) 64 0)

add-free :
    (n : ℕ) (ids : List JobId) (id t : List ℕ)
    → All IsJobId ids
    → IsJobId id
    → add_job_id (map slot_of ids ++ replicate (suc n) blank) (id ++ t) (length id)
      ≡ some (true, map slot_of ids ++ slot_of id ∷ replicate n blank)
unfolding add_job_id get_available_index
add-free n ids id t h k =
    ground
      (arith, available_index_from-map 0 n ids h, stored_slot id t k, set-map n ids (slot_of id))

add-full :
    (ids : List JobId) (id t : List ℕ)
    → All IsJobId ids
    → add_job_id (map slot_of ids ++ []) (id ++ t) (length id) ≡ some (false, map slot_of ids ++ [])
unfolding add_job_id get_available_index
add-full ids id t h = ground (arith, available_index_from-full 0 ids h)

slots-append :
    (ids : List JobId) (id : JobId) (slots : JobIdList)
    → map slot_of (ids ++ id ∷ []) ++ slots ≡ map slot_of ids ++ slot_of id ∷ slots
slots-append [] id slots = refl
slots-append (other ∷ ids) id slots = ap (λ l. slot_of other ∷ l) (slots-append ids id slots)

-- A queue that is longer by one leaves one blank slot less.
pub slots_of-append :
    (ids : List JobId) (id : JobId)
    → slots_of (ids ++ id ∷ []) ≡ map slot_of ids ++ slot_of id ∷ replicate (4 - length ids) blank
slots_of-append ids id =
    let e : 5 - length (ids ++ id ∷ []) ≡ 4 - length ids =
      omega (arith, length-append ids (id ∷ [])) in
    slots-append ids id _ ∙ ap (λ n. map slot_of ids ++ slot_of id ∷ replicate n blank) e

-- `add_job_id` with a job id that fits a slot appends it while fewer than five are queued, and
-- otherwise returns false and changes nothing; it writes outside no buffer.
pub add_job_id_refines :
    (ids : List JobId) (id t : List ℕ)
    → length ids ≤ 5
    → All IsJobId ids
    → IsJobId id
    → add_job_id (slots_of ids) (id ++ t) (length id)
      ≡ some ((Queue.push ids id).0, slots_of (Queue.push ids id).1)
unfolding Queue.push
add_job_id_refines ids id t len h k = elim (dec_lt (length ids) 5) [
  | yes p ↦
      let e : 5 - length ids ≡ suc (4 - length ids) = omega arith in
      rw (e, lt→ltb (length ids) 5 p)
        (add-free (4 - length ids) ids id t h k
          ∙ ap (λ slots. some (true, slots)) (sym (slots_of-append ids id)))
  | no p ↦
      let e : 5 - length ids ≡ 0 = omega arith in
      rw (e, le→not_ltb (length ids) 5 (omega arith)) (rw e (add-full ids id t h))
]

-- `del_first_job_id` removes the first job id; on an empty list it does nothing.
pub del_first_job_id_refines :
    (ids : List JobId) → length ids ≤ 5 → del_first_job_id (slots_of ids) ≡ slots_of (rest_of ids)
unfolding del_first_job_id shift_slots
del_first_job_id_refines [] h = refl
del_first_job_id_refines (a ∷ []) h = refl
del_first_job_id_refines (a ∷ b ∷ []) h = refl
del_first_job_id_refines (a ∷ b ∷ c ∷ []) h = refl
del_first_job_id_refines (a ∷ b ∷ c ∷ d ∷ []) h = refl
del_first_job_id_refines (a ∷ b ∷ c ∷ d ∷ e ∷ []) h = refl
del_first_job_id_refines (a ∷ b ∷ c ∷ d ∷ e ∷ f ∷ ids) h = absurd (omega arith)

is_exist-blank :
    (n : ℕ) (id t : List ℕ)
    → IsJobId id
    → is_exist_job_id (replicate n blank) (id ++ t) (length id) ≡ false
unfolding is_exist_job_id strncmp_eq
is_exist-blank zero id t h = refl
is_exist-blank (suc n) [] t h = absurd (omega arith)
is_exist-blank (suc n) (c ∷ id) t h = ground (arith, h.0.0, is_exist-blank n (c ∷ id) t h)

-- `is_exist_job_id` says whether the id is a prefix of a queued one: it compares as many bytes as
-- the id that is asked for has.
pub is_exist_job_id_refines :
    (n : ℕ) (ids : List JobId) (id t : List ℕ)
    → IsJobId id
    → is_exist_job_id (map slot_of ids ++ replicate n blank) (id ++ t) (length id)
      ≡ begins_some id ids
unfolding is_exist_job_id begins_some
is_exist_job_id_refines n [] id t h = is_exist-blank n id t h
is_exist_job_id_refines n (other ∷ ids) id t h = ground (
  arith,
  strncmp_eq-is_prefix id other (replicate (64 - suc (length other)) 0) t h.0,
  is_prefix-text id other (replicate (64 - suc (length other)) 0) h.0,
  is_exist_job_id_refines n ids id t h,
)

-- `is_empty_job_id_list` returns true when a job id is queued.
pub is_empty_job_id_list_refines :
    (ids : List JobId) → All IsJobId ids → is_empty_job_id_list (slots_of ids) ≡ Queue.holds ids
unfolding is_empty_job_id_list Queue.holds
is_empty_job_id_list_refines [] h = ground (arith, blank-strlen)
is_empty_job_id_list_refines (id ∷ ids) h = ground (arith, strlen-slot_of id h.0.0, h.0.1)

-- `get_available_index` finds the slot behind the last job id, while fewer than five are queued.
pub get_available_index_refines :
    (ids : List JobId)
    → length ids ≤ 5
    → All IsJobId ids
    → get_available_index (slots_of ids) ≡ (if ltb (length ids) 5 then some (length ids) else none)
unfolding get_available_index
get_available_index_refines ids len h = elim (dec_lt (length ids) 5) [
  | yes p ↦
      let e : 5 - length ids ≡ suc (4 - length ids) = omega arith in
      rw (e, lt→ltb (length ids) 5 p)
        (available_index_from-map 0 (4 - length ids) ids h ∙ ap some (omega arith))
  | no p ↦
      let e : 5 - length ids ≡ 0 = omega arith in
      rw (e, le→not_ltb (length ids) 5 (omega arith)) (available_index_from-full 0 ids h)
]

-- `get_first_job_id` copies the first job id into a buffer of the slots' size and tells its length;
-- on an empty list it returns false and leaves both as they are.
pub get_first_job_id_refines :
    (ids : List JobId) (buf : List ℕ) (len : ℕ)
    → All IsJobId ids
    → length buf ≡ 64
    → get_first_job_id (slots_of ids) buf len
      ≡ some (elim ids [
        | [] ↦ (false, buf, len)
        | id ∷ others ↦ (true, id ++ 0 ∷ drop (suc (length id)) buf, length id)
      ])
unfolding get_first_job_id is_empty_job_id_list
get_first_job_id_refines [] buf len h size = ground (arith, blank-strlen)
get_first_job_id_refines (id ∷ ids) buf len h size = ground (
  arith,
  strlen-slot_of id h.0.0,
  h.0.1,
  h.0.2,
  copy_terminated_text buf id (0 ∷ replicate (64 - suc (length id)) 0) h.0.0 (omega arith),
)
