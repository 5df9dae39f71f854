-- ===== src/Jobs/JobList/Run.antt =====
-- Sequences of calls on the slots of app/aws_iot/iot_jobs_job_list.c.
use rp2040_wiznet_eaa_s_aws.Prelude.{
  suc, ◌-◌, ◌≤◌, ◌≡◌, refl, ltb, if◌then◌else◌, List, [], ◌∷◌, ◌++◌, Option, none, some, replicate,
  length, drop, All, arith, ◌>>=◌, All-append, length-append, Bool-cases, inl, inr,
}
use rp2040_wiznet_eaa_s_aws.Prelude.CStr.{c_str, c_str-text}
use rp2040_wiznet_eaa_s_aws.Jobs.JobList.Queue
use rp2040_wiznet_eaa_s_aws.Jobs.JobList.Queue.{
  JobId, IsJobId, Op, add, exist, first, del, empty, available, Reply, added, found, front, deleted,
  holds_job, index, HasJobId, IsIds, head_of, rest_of, begins_some-whole,
}
use rp2040_wiznet_eaa_s_aws.Jobs.JobList.{
  JobIdList, is_empty_job_id_list, get_available_index, is_exist_job_id, get_first_job_id,
  del_first_job_id, add_job_id,
}
use rp2040_wiznet_eaa_s_aws.Jobs.JobList.Refine.{
  is_empty_job_id_list_refines, get_available_index_refines, del_first_job_id_refines,
  get_first_job_id_refines, add_job_id_refines, is_exist_job_id_refines, slots_of,
}

-- The calls in order on the slots, each with the reply that the caller sees.
pub run_slots : JobIdList → List Op → Option (List Reply)
run_slots slots [] = some []
run_slots slots (add id ∷ ops) = add_job_id slots (id ++ 0 ∷ []) (length id) >>= λ r.
    run_slots r.1 ops >>= λ replies. some (added r.0 ∷ replies)
run_slots slots (exist id ∷ ops) = run_slots slots ops >>= λ replies.
    some (found (is_exist_job_id slots (id ++ 0 ∷ []) (length id)) ∷ replies)
run_slots slots (first ∷ ops) = get_first_job_id slots (replicate 64 0) 0 >>= λ r.
    run_slots slots ops >>= λ replies.
    some (front (if r.0 then some (c_str r.1) else none) ∷ replies)
run_slots slots (del ∷ ops) =
    run_slots (del_first_job_id slots) ops >>= λ replies. some (deleted ∷ replies)
run_slots slots (empty ∷ ops) =
    run_slots slots ops >>= λ replies. some (holds_job (is_empty_job_id_list slots) ∷ replies)
run_slots slots (available ∷ ops) =
    run_slots slots ops >>= λ replies. some (index (get_available_index slots) ∷ replies)

push-length : (ids : List JobId) (id : JobId) → length ids ≤ 5 → length (Queue.push ids id).1 ≤ 5
unfolding Queue.push
push-length ids id h = ground (arith, length-append ids (id ∷ []))

push-All :
    (allowed : JobId → Type 0) (ids : List JobId) (id : JobId)
    → All allowed ids
    → allowed id
    → All allowed (Queue.push ids id).1
unfolding Queue.push
push-All allowed ids id h k = elim (Bool-cases (ltb (length ids) 5)) [
  | inl p ↦ rw p (All-append allowed ids (id ∷ []) h (k, tt))
  | inr p ↦ rw p h
]

rest_of-valid :
    (allowed : JobId → Type 0) (ids : List JobId)
    → length ids ≤ 5
    → All allowed ids
    → (length (rest_of ids) ≤ 5) × All allowed (rest_of ids)
rest_of-valid allowed [] h k = (omega arith, k)
rest_of-valid allowed (id ∷ ids) h k = (omega arith, k.1)

first-bind :
    (ids : List JobId) (replies : List Reply)
    → All IsJobId ids
    → (get_first_job_id (slots_of ids) (replicate 64 0) 0 >>= λ r.
        some (front (if r.0 then some (c_str r.1) else none) ∷ replies))
      ≡ some (front (head_of ids) ∷ replies)
first-bind [] replies h = rw (get_first_job_id_refines [] (replicate 64 0) 0 h refl)
first-bind (id ∷ ids) replies h = rw (
  get_first_job_id_refines (id ∷ ids) (replicate 64 0) 0 h refl,
  c_str-text id (drop (suc (length id)) (replicate 64 0)) h.0.0,
)

fits-All :
    (allowed : JobId → Type 0) (ids : List JobId)
    → IsIds allowed
    → All allowed ids
    → All IsJobId ids
fits-All allowed [] law h = tt
fits-All allowed (id ∷ ids) law h = (law.fits id h.0, fits-All allowed ids law h.1)

-- Among job ids that fit a slot with the end, and of which none is a proper prefix of another: no
-- sequence of the calls `add_job_id`, `is_exist_job_id`, `get_first_job_id`, `del_first_job_id`,
-- `is_empty_job_id_list` and `get_available_index` tells the slots that hold a queue of at most five of
-- the ids from the bounded queue itself, which compares ids as a whole; and no call writes outside a
-- buffer.
pub run_slots_refines :
    (allowed : JobId → Type 0) (ops : List Op) (ids : List JobId)
    → IsIds allowed
    → All (HasJobId allowed) ops
    → length ids ≤ 5
    → All allowed ids
    → run_slots (slots_of ids) ops ≡ some (Queue.run ids ops)
unfolding run_slots Queue.run
run_slots_refines allowed [] ids law v len h = refl
run_slots_refines allowed (add id ∷ ops) ids law v len h = rw (
  add_job_id_refines ids id (0 ∷ []) len (fits-All allowed ids law h) (law.fits id v.0),
  run_slots_refines allowed ops (Queue.push ids id).1 law v.1 (push-length ids id len)
      (push-All allowed ids id h v.0),
)
run_slots_refines allowed (exist id ∷ ops) ids law v len h = rw (
  is_exist_job_id_refines (5 - length ids) ids id (0 ∷ []) (law.fits id v.0),
  begins_some-whole allowed law id ids v.0 h,
  run_slots_refines allowed ops ids law v.1 len h,
)
run_slots_refines allowed (first ∷ ops) ids law v len h =
    rw (run_slots_refines allowed ops ids law v.1 len h)
      (first-bind ids (Queue.run ids ops) (fits-All allowed ids law h))
run_slots_refines allowed (del ∷ ops) ids law v len h =
    let valid = rest_of-valid allowed ids len h in
    rw (
      del_first_job_id_refines ids len,
      run_slots_refines allowed ops (rest_of ids) law v.1 valid.0 valid.1,
    )
run_slots_refines allowed (empty ∷ ops) ids law v len h = rw (
  run_slots_refines allowed ops ids law v.1 len h,
  is_empty_job_id_list_refines ids (fits-All allowed ids law h),
)
run_slots_refines allowed (available ∷ ops) ids law v len h = rw (
  run_slots_refines allowed ops ids law v.1 len h,
  get_available_index_refines ids len (fits-All allowed ids law h),
)
