-- ===== src/Jobs/JobList/Tests.antt =====
-- The job list on concrete ids.
use rp2040_wiznet_eaa_s_aws.Prelude.{
  ℕ, ◌≡◌, refl, sym, ◌∙◌, ◌⊎◌, inl, inr, false, true, List, [], ◌∷◌, ◌++◌, none, some, arith,
}
use rp2040_wiznet_eaa_s_aws.Prelude.CStr.{is_prefix}
use rp2040_wiznet_eaa_s_aws.Jobs.JobList.Queue
use rp2040_wiznet_eaa_s_aws.Jobs.JobList.Queue.{
  JobId, IsJobId, IsIds, Op, add, exist, first, del, empty, available,
}
use rp2040_wiznet_eaa_s_aws.Jobs.JobList.Refine.{slots_of}
use rp2040_wiznet_eaa_s_aws.Jobs.JobList.Run.{run_slots, run_slots_refines}
use rp2040_wiznet_eaa_s_aws.Jobs.JobList.Limits.{is_exist_job_id_prefix, add_job_id_overflow}
use rp2040_wiznet_eaa_s_aws.Jobs.JobList.{add_job_id, is_exist_job_id}

abbrev job : List ℕ
job = b'j' ∷ b'o' ∷ b'b' ∷ b'-' ∷ b'1' ∷ []

abbrev more : List ℕ
more = b'0' ∷ []

pub job-IsJobId : IsJobId job
job-IsJobId = (
  (
    λ q. omega arith,
    (λ q. omega arith, (λ q. omega arith, (λ q. omega arith, (λ q. omega arith, tt)))),
  ),
  omega arith,
  omega arith,
)

booleans_differ : false ≡ true → ⊥
booleans_differ e = ground (arith, e)

abbrev job' : List ℕ
job' = b'j' ∷ b'o' ∷ b'b' ∷ b'-' ∷ b'2' ∷ []

abbrev IsTestId : JobId → Type 0
IsTestId id = (id ≡ job) ⊎ (id ≡ job')

job'-IsJobId : IsJobId job'
job'-IsJobId = (
  (
    λ q. omega arith,
    (λ q. omega arith, (λ q. omega arith, (λ q. omega arith, (λ q. omega arith, tt)))),
  ),
  omega arith,
  omega arith,
)

test_ids-IsIds : IsIds IsTestId
unfolding is_prefix
test_ids-IsIds = record {
  fits = λ id h. elim h [ inl p ↦ rw p job-IsJobId | inr q ↦ rw q job'-IsJobId ];
  whole = λ id other h k e. elim h [
    | inl p ↦ elim k [ inl q ↦ p ∙ sym q | inr q ↦ absurd (booleans_differ (rw (p, q) at e)) ]
    | inr p ↦ elim k [ inl q ↦ absurd (booleans_differ (rw (p, q) at e)) | inr q ↦ p ∙ sym q ]
  ];
}

abbrev ops : List Op
ops =
    empty
    ∷ add job
    ∷ available
    ∷ add job'
    ∷ exist job'
    ∷ first
    ∷ del
    ∷ exist job
    ∷ empty
    ∷ first
    ∷ []

run_slots_refines_example : run_slots (slots_of []) ops ≡ some (Queue.run [] ops)
run_slots_refines_example =
    run_slots_refines IsTestId ops [] test_ids-IsIds
      (tt, (inl refl, (tt, (inr refl, (inr refl, (tt, (tt, (inl refl, (tt, (tt, tt))))))))))
      (omega arith) tt

is_exist_job_id_prefix_example :
    is_exist_job_id (slots_of ((job ++ more) ∷ [])) (job ++ 0 ∷ []) 5 ≡ true
is_exist_job_id_prefix_example = is_exist_job_id_prefix [] job more (0 ∷ []) job-IsJobId

add_job_id_overflow_example : add_job_id (slots_of []) job 64 ≡ none
add_job_id_overflow_example = add_job_id_overflow [] job 64 (omega arith) tt (omega arith)
