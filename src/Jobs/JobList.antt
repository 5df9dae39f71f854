-- ===== src/Jobs/JobList.antt =====
-- The list of job ids (app/aws_iot/iot_jobs_job_list.c): MAX_AWS_JOB_LIST_SIZE slots of
-- MAX_AWS_JOB_ID_SIZE bytes, an empty string where a slot is free. An operation that can write behind
-- the end of a buffer returns `none` there.
pub mod Limits
pub mod Queue
pub mod Refine
pub mod Run
mod Tests
use rp2040_wiznet_eaa_s_aws.Prelude.{
  ℕ, zero, suc, ◌+◌, ◌-◌, Bool, true, false, ltb, ◌==◌, if◌then◌else◌, List, [], ◌∷◌, Option, none,
  some, get_or, set, replicate, ◌>>=◌,
}
use rp2040_wiznet_eaa_s_aws.Prelude.Word.{u16}
use rp2040_wiznet_eaa_s_aws.Prelude.CStr.{strlen, strncmp_eq, copy_terminated}

abbrev pub max_aws_job_list_size : ℕ
max_aws_job_list_size = 5

abbrev pub max_aws_job_id_size : ℕ
max_aws_job_id_size = 64

abbrev pub JobIdList : Type 0
JobIdList = List (List ℕ)

-- A slot after `memset`.
abbrev pub blank : List ℕ
blank = replicate max_aws_job_id_size 0

-- The declaration `{"",}`.
abbrev pub no_jobs : JobIdList
no_jobs = replicate max_aws_job_list_size blank

-- Against its name it returns true when there is a job.
unfoldable pub is_empty_job_id_list : JobIdList → Bool
unfolding strlen
is_empty_job_id_list slots = if ltb 0 (strlen (get_or slots 0 [])) then true else false

unfoldable pub is_exist_job_id : JobIdList → List ℕ → ℕ → Bool
unfolding strncmp_eq
is_exist_job_id [] job_id job_id_length = false
is_exist_job_id (slot ∷ slots) job_id job_id_length =
    let rest = is_exist_job_id slots job_id job_id_length in
    if strncmp_eq slot job_id job_id_length then true else rest

-- The loop from index `i` on; `none` is the result false.
unfoldable pub available_index_from : ℕ → JobIdList → Option ℕ
unfolding strlen
available_index_from i [] = none
available_index_from i (slot ∷ slots) =
    let rest = available_index_from (i + 1) slots in if strlen slot == 0 then some i else rest

unfoldable pub get_available_index : JobIdList → Option ℕ
unfolding available_index_from
get_available_index slots = available_index_from 0 slots

-- The result, and what `pJobId` and `jobIdLength` point to afterwards.
unfoldable pub get_first_job_id : JobIdList → List ℕ → ℕ → Option (Bool × List ℕ × ℕ)
unfolding is_empty_job_id_list copy_terminated
get_first_job_id slots job_id job_id_length =
    let first : List ℕ = get_or slots 0 [] in
    let copied =
      copy_terminated job_id first (strlen first) >>= λ buf. some (true, buf, u16 (strlen first)) in
    if is_empty_job_id_list slots then copied else some (false, job_id, job_id_length)

-- The loop at index `i`, with `left` rounds to go.
unfoldable pub shift_slots : ℕ → ℕ → JobIdList → JobIdList
shift_slots zero i slots = slots
shift_slots (suc left) i slots =
    shift_slots left (i + 1) (set (set slots (i - 1) (get_or slots i [])) i blank)

unfoldable pub del_first_job_id : JobIdList → JobIdList
unfolding shift_slots
del_first_job_id slots = shift_slots 4 1 (set slots 0 blank)

unfoldable pub add_job_id : JobIdList → List ℕ → ℕ → Option (Bool × JobIdList)
unfolding get_available_index copy_terminated
add_job_id slots job_id job_id_length = elim (get_available_index slots) [
  | none ↦ some (false, slots)
  | some idx ↦
      copy_terminated blank job_id job_id_length >>= λ slot. some (true, set slots idx slot)
]
