-- ===== src/Tasks/Store.antt =====
-- verification_task.go, over the task collection as a list. Each database call succeeds or the call
-- that makes it fails, and an update whose reply is lost is applied all the same; retries repeat a call
-- and are not seen here.
use migration_verifier_docdb.Base.{
  ℕ, Bool, false, not, Option, none, some, List, [], ◌∷◌, String, if◌then◌else◌, ltb, ◌==◌, ◌&&◌,
  ◌||◌, Outcome, ok, err, ◌≡◌, refl, ap, arith,
}
use migration_verifier_docdb.Tasks.Types.{
  primary, added, processing, same_type, same_status, rank, Task, in_generation,
}

pub data TaskError : Type 0 where
  error_update_task database_error : TaskError
  no_namespace : String → TaskError
  too_many_recheck_tasks : TaskError
  wrong_generation : ℕ → TaskError
  bad_primary_status too_many_primaries length_mismatch : TaskError

abbrev pub Tasks : Type 0
Tasks = List Task

-- The database's updates and deletes by a filter.
unfoldable pub update_many : (Task → Bool) → (Task → Task) → Tasks → Tasks
update_many p f [] = []
update_many p f (t ∷ ts) = (if p t then f t else t) ∷ update_many p f ts

unfoldable pub update_one : (Task → Bool) → (Task → Task) → Tasks → Tasks
update_one p f [] = []
update_one p f (t ∷ ts) = if p t then f t ∷ ts else t ∷ update_one p f ts

unfoldable pub delete_many : (Task → Bool) → Tasks → Tasks
delete_many p [] = []
delete_many p (t ∷ ts) = if p t then delete_many p ts else t ∷ delete_many p ts

unfoldable pub find : (Task → Bool) → Tasks → Tasks
find p [] = []
find p (t ∷ ts) = if p t then t ∷ find p ts else find p ts

unfoldable pub any_task : (Task → Bool) → Tasks → Bool
any_task p [] = false
any_task p (t ∷ ts) = p t || any_task p ts

-- The filter of FindNextVerifyTaskAndUpdate.
abbrev pub is_claimable : ℕ → Task → Bool
is_claimable g t =
    in_generation g t && not (same_type t.task_type primary) && same_status t.status added

-- Its update.
abbrev pub claim : ℕ → Task → Task
claim now t = record t { status = processing; begin_time = some now }

-- The least rank among the claimable tasks, if there is one (its sort by type).
unfoldable pub least_rank : ℕ → Tasks → Option ℕ
least_rank g [] = none
least_rank g (t ∷ ts) =
    let r = rank t.task_type in
    let rest = least_rank g ts in
    if is_claimable g t
    then (elim rest [ none ↦ some r | some s ↦ some (if ltb s r then s else r) ])
    else rest

-- Claims the first task of a rank; the result is the task after the update.
unfoldable pub claim_first : ℕ → ℕ → ℕ → Tasks → Option Task × Tasks
claim_first g now r [] = (none, [])
claim_first g now r (t ∷ ts) =
    let (found, rest) = claim_first g now r ts in
    if is_claimable g t && rank t.task_type == r
    then (some (claim now t), claim now t ∷ ts)
    else (found, t ∷ rest)

-- FindNextVerifyTaskAndUpdate.
unfoldable pub find_next_verify_task_and_update : ℕ → ℕ → Tasks → Option Task × Tasks
unfolding least_rank claim_first
find_next_verify_task_and_update g now ts = elim (least_rank g ts) [
  | none ↦ (none, ts)
  | some r ↦ claim_first g now r ts
]

-- The fields that UpdateVerificationTask sets.
abbrev pub set_progress : Task → Task → Task
set_progress task t = record t {
  status = task.status;
  documents_count = task.documents_count;
  found_source_documents_count = task.found_source_documents_count;
  source_bytes_count = task.source_bytes_count;
}

-- UpdateVerificationTask, where the database answers.
unfoldable pub update_verification_task : Task → Tasks → Outcome TaskError Tasks
unfolding any_task update_one
update_verification_task task ts =
    let p = λ (t : Task). t.primary_key == task.primary_key in
    if any_task p ts then ok (update_one p (set_progress task) ts) else err error_update_task

-- How the last attempt of an update ends: with an answer, or with an error before or after the update.
pub data UpdateReply : Type 0 where
  answered refused reply_lost : UpdateReply

abbrev pub in_database : Tasks → Outcome TaskError Tasks → Outcome TaskError (Unit {0}) × Tasks
in_database ts (err e) = (err e, ts)
in_database ts (ok us) = (ok tt, us)

-- UpdateVerificationTask: its result, and the task collection after it.
unfoldable pub send_update : UpdateReply → Task → Tasks → Outcome TaskError (Unit {0}) × Tasks
unfolding update_verification_task update_one
send_update answered task ts = in_database ts (update_verification_task task ts)
send_update refused task ts = (err database_error, ts)
send_update reply_lost task ts =
    (err database_error, update_one (λ t. t.primary_key == task.primary_key) (set_progress task) ts)

pub send_update-ok :
    (reply : UpdateReply) (task : Task) (ts us : Tasks)
    → send_update reply task ts ≡ (ok tt, us)
    → (reply ≡ answered) × (update_verification_task task ts ≡ ok us)
unfolding send_update
send_update-ok answered task ts us h = (refl, by_outcome (update_verification_task task ts) h)
  where
    by_outcome : (o : Outcome TaskError Tasks) → in_database ts o ≡ (ok tt, us) → o ≡ ok us
    by_outcome (err e) x = absurd (ground arith)
    by_outcome (ok vs) x = ap (λ r. ok r.1) x
send_update-ok refused task ts us h = absurd (ground arith)
send_update-ok reply_lost task ts us h = absurd (ground arith)
