-- ===== src/Jobs/JobList/Queue.antt =====
-- What a client of the job list relies on: a bounded queue of job ids, where ids are compared as a whole.
use rp2040_wiznet_eaa_s_aws.Prelude.{
  ℕ, ◌<◌, Bool, true, false, ltb, if◌then◌else◌, ◌==◌, ◌≡◌, ◌∙◌, refl, sym, ap, All, arith, inl,
  inr, Bool-cases, List, [], ◌∷◌, ◌++◌, Option, none, some, length,
}
use rp2040_wiznet_eaa_s_aws.Prelude.CStr.{IsText, is_prefix}

abbrev pub JobId : Type 0
JobId = List ℕ

-- A job id that fits a slot with its end.
abbrev pub IsJobId : JobId → Type 0
IsJobId id = IsText id × (0 < length id) × (length id < 64)

-- The calls, and what the caller sees of each.
pub data Op : Type 0 where
  add : JobId → Op
  exist : JobId → Op
  first : Op
  del : Op
  empty : Op
  available : Op

pub data Reply : Type 0 where
  added : Bool → Reply
  found : Bool → Reply
  front : Option JobId → Reply
  deleted : Reply
  holds_job : Bool → Reply
  index : Option ℕ → Reply

-- The id that a call names is one of those that the given predicate allows.
abbrev pub HasJobId : (JobId → Type 0) → Op → Type 0
HasJobId allowed (add id) = allowed id
HasJobId allowed (exist id) = allowed id
HasJobId allowed first = Unit
HasJobId allowed del = Unit
HasJobId allowed empty = Unit
HasJobId allowed available = Unit

-- The ids that are allowed fit a slot, and none is a proper prefix of another.
pub record IsIds (allowed : JobId → Type 0) : Type 0 where
  pub fits : (id : JobId) → allowed id → IsJobId id
  pub whole :
      (id other : JobId) → allowed id → allowed other → is_prefix id other ≡ true → id ≡ other

unfoldable pub push : List JobId → JobId → Bool × List JobId
push ids id = if ltb (length ids) 5 then (true, ids ++ id ∷ []) else (false, ids)

abbrev pub head_of : List JobId → Option JobId
head_of [] = none
head_of (id ∷ ids) = some id

abbrev pub rest_of : List JobId → List JobId
rest_of [] = []
rest_of (id ∷ ids) = ids

-- Whether an id is a prefix of a queued one.
unfoldable pub begins_some : JobId → List JobId → Bool
begins_some id [] = false
begins_some id (other ∷ ids) =
    let rest = begins_some id ids in if is_prefix id other then true else rest

-- Two ids are the same.
unfoldable same_id : JobId → JobId → Bool
same_id [] [] = true
same_id [] (d ∷ other) = false
same_id (c ∷ id) [] = false
same_id (c ∷ id) (d ∷ other) = let rest = same_id id other in if c == d then rest else false

-- Whether an id is queued.
unfoldable pub member : JobId → List JobId → Bool
unfolding same_id
member id [] = false
member id (other ∷ ids) = let rest = member id ids in if same_id id other then true else rest

unfoldable pub holds : List JobId → Bool
holds [] = false
holds (id ∷ ids) = true

unfoldable pub run : List JobId → List Op → List Reply
unfolding push member holds
run ids [] = []
run ids (add id ∷ ops) = added (push ids id).0 ∷ run (push ids id).1 ops
run ids (exist id ∷ ops) = found (member id ids) ∷ run ids ops
run ids (first ∷ ops) = front (head_of ids) ∷ run ids ops
run ids (del ∷ ops) = deleted ∷ run (rest_of ids) ops
run ids (empty ∷ ops) = holds_job (holds ids) ∷ run ids ops
run ids (available ∷ ops) =
    index (if ltb (length ids) 5 then some (length ids) else none) ∷ run ids ops

same_id_refl : (id : JobId) → same_id id id ≡ true
unfolding same_id
same_id_refl [] = refl
same_id_refl (c ∷ id) = ground (arith, same_id_refl id)

same_id-is_prefix : (id other : JobId) → same_id id other ≡ true → is_prefix id other ≡ true
unfolding same_id is_prefix
same_id-is_prefix [] [] h = refl
same_id-is_prefix [] (d ∷ other) h = refl
same_id-is_prefix (c ∷ id) [] h = h
same_id-is_prefix (c ∷ id) (d ∷ other) h = ground (arith, same_id-is_prefix id other)

-- Among ids of which none is a proper prefix of another, the test by prefix is the test of the whole.
same_id-whole :
    (allowed : JobId → Type 0)
    → IsIds allowed
    → (id other : JobId) → allowed id
    → allowed other
    → is_prefix id other ≡ same_id id other
same_id-whole allowed ids id other h k = elim (Bool-cases (is_prefix id other)) [
  | inl p ↦ p ∙ sym (ap (same_id id) (sym (ids.whole id other h k p)) ∙ same_id_refl id)
  | inr q ↦ elim (Bool-cases (same_id id other)) [
    | inl p ↦ same_id-is_prefix id other p ∙ sym p
    | inr q' ↦ q ∙ sym q'
  ]
]

pub begins_some-whole :
    (allowed : JobId → Type 0)
    → IsIds allowed
    → (id : JobId) (others : List JobId) → allowed id
    → All allowed others
    → begins_some id others ≡ member id others
unfolding begins_some member
begins_some-whole allowed ids id [] h k = refl
begins_some-whole allowed ids id (other ∷ others) h k =
    rw (same_id-whole allowed ids id other h k.0, begins_some-whole allowed ids id others h k.1)
      refl
