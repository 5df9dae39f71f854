-- ===== src/Jobs/JobList/Limits.antt =====
-- Job ids that the slots of app/aws_iot/iot_jobs_job_list.c do not tell apart or do not hold.
use rp2040_wiznet_eaa_s_aws.Prelude.{
  ℕ, suc, ◌-◌, ◌≤◌, ◌<◌, ◌≡◌, true, List, ◌∷◌, ◌++◌, none, length, All, arith, ◌∙◌,
}
use rp2040_wiznet_eaa_s_aws.Prelude.CStr.{copy_terminated, is_prefix-append}
use rp2040_wiznet_eaa_s_aws.Jobs.JobList.Queue.{JobId, IsJobId, begins_some}
use rp2040_wiznet_eaa_s_aws.Jobs.JobList.{is_exist_job_id, get_available_index, add_job_id}
use rp2040_wiznet_eaa_s_aws.Jobs.JobList.Refine.{
  available_index_from-map, is_exist_job_id_refines, slots_of,
}

-- A job whose id is a prefix of a queued job's id is taken for one that is queued.
pub is_exist_job_id_prefix :
    (ids : List JobId) (id more t : List ℕ)
    → IsJobId id
    → is_exist_job_id (slots_of ((id ++ more) ∷ ids)) (id ++ t) (length id) ≡ true
unfolding begins_some
is_exist_job_id_prefix ids id more t h =
    is_exist_job_id_refines (5 - length ((id ++ more) ∷ ids)) ((id ++ more) ∷ ids) id t h
    ∙ ground (arith, is_prefix-append id more)

-- A job id of the slots' full size, or longer, is written behind its slot whenever one is free.
pub add_job_id_overflow :
    (ids : List JobId) (id : List ℕ) (len : ℕ)
    → length ids < 5
    → All IsJobId ids
    → 64 ≤ len
    → add_job_id (slots_of ids) id len ≡ none
unfolding add_job_id get_available_index copy_terminated
add_job_id_overflow ids id len p h big =
    let e : 5 - length ids ≡ suc (4 - length ids) = omega arith in
    rw e (ground (arith, available_index_from-map 0 (4 - length ids) ids h))
