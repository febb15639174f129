-- ===== src/Process/Attempts.antt =====
-- processAnyTask of check.go for a document task: up to five attempts, each but the first after the
-- mismatches of the task are cleared.
use migration_verifier_docdb.Base.{
  ℕ, suc, Bool, List, [], ◌∷◌, if◌then◌else◌, ◌==◌, ◌&&◌, not, Outcome, ok, err,
}
use migration_verifier_docdb.Recheck.{Doc}
use migration_verifier_docdb.Tasks.{Task, UpdateReply}
use migration_verifier_docdb.Process.Mismatches.{
  Metadata, ProcessError, canceled, clear_mismatches_for_task,
}
use migration_verifier_docdb.Process.Documents.{ReportEvent, process_verify_task}

-- What an attempt meets: whether the old mismatches can be cleared, the comparison's reports, and the
-- reply to the task's update.
pub record Attempt : Type 0 where
  pub clears : Bool
  pub events : List ReportEvent
  pub update_reply : UpdateReply

abbrev pub max_attempts : ℕ
max_attempts = 5

-- clearMismatchesIfRetryingTask: a failure is only logged.
unfoldable pub clear_mismatches_if_retrying_task : Task → ℕ → Bool → Metadata → Metadata
unfolding clear_mismatches_for_task
clear_mismatches_if_retrying_task task attempt_number clears m =
    if attempt_number == 0 then m else if clears then clear_mismatches_for_task task m else m

module _ (size : Doc → ℕ) (generation : ℕ) (last : Bool) (transient : ProcessError → Bool)
    (task : Task) where
  -- The callback for a document task.
  unfoldable pub attempt_task : ℕ → Attempt → Metadata → Outcome ProcessError Task × Metadata
  unfolding clear_mismatches_if_retrying_task
  attempt_task n a m =
      process_verify_task size generation last task a.update_reply a.events
        (clear_mismatches_if_retrying_task task n a.clears m)

  abbrev pub after_attempt :
      Outcome ProcessError Task × Metadata
      → Bool
      → (Metadata → Outcome ProcessError Task × Metadata)
      → Outcome ProcessError Task × Metadata
  after_attempt (ok t, m) over next = (ok t, m)
  after_attempt (err e, m) over next = if transient e && not over then next m else (err e, m)

  -- The attempts from a number on. The list has what each of them meets; at its end the context is.
  unfoldable pub process_attempts :
      ℕ → List Attempt → Metadata → Outcome ProcessError Task × Metadata
  process_attempts n [] m = (err canceled, m)
  process_attempts n (a ∷ as') m =
      after_attempt (attempt_task n a m) (suc n == max_attempts) (process_attempts (suc n) as')

  unfoldable pub process_document_task :
      List Attempt → Metadata → Outcome ProcessError Task × Metadata
  unfolding process_attempts attempt_task
  process_document_task as' m = process_attempts 0 as' m
