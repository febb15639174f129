-- ===== src/Process/Mismatches.antt =====
-- The metadata that processing a task changes: tasks, requests to the recheck queues, mismatches
-- (mismatches.go) and the last-rechecked times of the two clusters (compare.go).
use migration_verifier_docdb.Base.{
  ℕ, ◌≡◌, refl, arith, Bool, true, false, Option, none, some, List, [], ◌∷◌, ◌++◌, map,
  if◌then◌else◌, ◌==◌, ◌&&◌, Outcome, ok, err,
}
use migration_verifier_docdb.Bson.{Timestamp, after}
use migration_verifier_docdb.Compare.{Result, Error}
use migration_verifier_docdb.Recheck.{Doc, WhichCluster, src, dst, QueuePanic}
use migration_verifier_docdb.Tasks.{TaskType, Task, Tasks, TaskError, same_type}

-- MismatchInfo.
pub record MismatchInfo : Type 0 where
  pub task_id : ℕ
  pub task_type : TaskType
  pub generation : Option ℕ
  pub detail : Result

-- Each request to a recheck queue is kept with the generation of its queue.
pub record Metadata : Type 0 where
  pub tasks : Tasks
  pub queue : List (ℕ × List Doc)
  pub mismatches : List MismatchInfo
  pub src_last_rechecked_ts : Timestamp
  pub dst_last_rechecked_ts : Timestamp

-- Panics are errors too: a closed channel without problems, and those of the recheck queue.
pub data ProcessError : Type 0 where
  comparison_failed : Error → ProcessError
  canceled closed_without_problems persisting_failed : ProcessError
  queue_panic : QueuePanic → ProcessError
  no_mismatch_times : ProcessError
  task_error : TaskError → ProcessError

unfoldable pub mismatch_info : Task → Result → MismatchInfo
mismatch_info task r = record {
  task_id = task.primary_key;
  task_type = task.task_type;
  generation = task.generation;
  detail = r;
}

-- recordMismatches.
unfoldable pub record_mismatches : Task → List Result → Metadata → Metadata
record_mismatches task problems m = record m {
  mismatches = m.mismatches ++ map (mismatch_info task) problems;
}

abbrev same_generation : Option ℕ → Option ℕ → Bool
same_generation none none = true
same_generation (some g) (some h) = g == h
same_generation _ _ = false

-- The filter of clearMismatchesForTask.
abbrev pub is_of_task : Task → MismatchInfo → Bool
is_of_task task i =
    same_generation i.generation task.generation
    && same_type i.task_type task.task_type
    && i.task_id == task.primary_key

abbrev pub drop_of_task : Task → List MismatchInfo → List MismatchInfo
drop_of_task task [] = []
drop_of_task task (i ∷ is) =
    let rest = drop_of_task task is in if is_of_task task i then rest else i ∷ rest

-- clearMismatchesForTask.
unfoldable pub clear_mismatches_for_task : Task → Metadata → Metadata
clear_mismatches_for_task task m = record m { mismatches = drop_of_task task m.mismatches }

abbrev later_of : Timestamp → Timestamp → Timestamp
later_of optime t = if after optime t then optime else t

-- NoteCompareOfOptime.
unfoldable pub note_compare_of_optime : WhichCluster → Timestamp → Metadata → Metadata
note_compare_of_optime src optime m = record m {
  src_last_rechecked_ts = later_of optime m.src_last_rechecked_ts;
}
note_compare_of_optime dst optime m = record m {
  dst_last_rechecked_ts = later_of optime m.dst_last_rechecked_ts;
}

-- What follows a step that may fail: its changes to the metadata stay.
abbrev pub and_then {μ ℓ κ} :
    {E : Type μ} {A : Type ℓ} {B : Type κ}
    → Outcome E A × Metadata
    → (A → Metadata → Outcome E B × Metadata)
    → Outcome E B × Metadata
and_then (err e, m) next = (err e, m)
and_then (ok a, m) next = next a m

-- Inversion of a successful chain.
pub and_then-ok :
    {E A B : Type 0} (s : Outcome E A × Metadata) (next : A → Metadata → Outcome E B × Metadata)
    (b : B) (m : Metadata)
    → and_then s next ≡ (ok b, m)
    → (a : A) × (n : Metadata) × (s ≡ (ok a, n)) × (next a n ≡ (ok b, m))
and_then-ok (ok a, n) next b m h = (a, n, refl, h)
and_then-ok (err e, n) next b m h = absurd (ground arith)
