-- ===== src/Tasks/Creation.antt =====
-- How tasks come to be, and how they are counted: the rest of verification_task.go, and the queries
-- of check.go and migration_verifier.go.
use migration_verifier_docdb.Base.{
  ℕ, suc, ◌+◌, Bool, true, false, not, Option, none, some, List, [], ◌∷◌, ◌++◌, String,
  if◌then◌else◌, ◌==◌, ◌&&◌, ◌||◌, Outcome, ok, err, length,
}
use migration_verifier_docdb.Bson.{Timestamp}
use migration_verifier_docdb.Compare.{RawValue}
use migration_verifier_docdb.NsMap.{NsMap, get_dst_namespace}
use migration_verifier_docdb.Tasks.Types.{
  TaskType, process_recheck_queue, verify_collection, verify_documents, primary, Status, added,
  processing, completed, failed, metadata_mismatch, same_type, same_status, QueryFilter, Task,
  in_generation,
}
use migration_verifier_docdb.Tasks.Store.{
  Tasks, TaskError, error_update_task, no_namespace, update_many, update_one, any_task,
}

abbrev no_filter : QueryFilter
no_filter = record { partition = none; shard_keys = []; namespace = ""; to = "" }

abbrev pub new_task : ℕ → TaskType → Option ℕ → QueryFilter → Task
new_task key ty g qf = record {
  primary_key = key;
  task_type = ty;
  status = added;
  generation = g;
  begin_time = none;
  ids = [];
  query_filter = qf;
  documents_count = 0;
  found_source_documents_count = 0;
  source_bytes_count = 0;
  first_mismatch_time = [];
  src_timestamp = none;
  dst_timestamp = none;
}

-- CreatePrimaryTaskIfNeeded, with the ID that a new primary task gets: whether it was created.
unfoldable pub create_primary_task_if_needed : ℕ → Tasks → Bool × Tasks
unfolding any_task
create_primary_task_if_needed key ts =
    if any_task (λ t. same_type t.task_type primary) ts
    then (false, ts)
    else (true, ts ++ new_task key primary none no_filter ∷ [])

-- UpdatePrimaryTaskComplete.
unfoldable pub update_primary_task_complete : Tasks → Outcome TaskError Tasks
unfolding any_task update_many
update_primary_task_complete ts =
    let p = λ (t : Task). same_type t.task_type primary in
    if any_task p ts
    then ok (update_many p (λ t. record t { status = completed }) ts)
    else err error_update_task

-- The destination of a source namespace: itself, unless there is a namespace map.
unfoldable pub map_namespace : NsMap → String → Outcome TaskError String
unfolding get_dst_namespace
map_namespace m src =
    if length m.src_dst_ns_map == 0
    then ok src
    else elim (get_dst_namespace m src) [ none ↦ err (no_namespace src) | some d ↦ ok d ]

-- insertCollectionVerificationTask.
unfoldable pub insert_collection_verification_task :
    NsMap → ℕ → String → ℕ → Tasks → Outcome TaskError Tasks
unfolding map_namespace
insert_collection_verification_task m key src g ts = elim (map_namespace m src) [
  | err e ↦ err e
  | ok dst ↦ ok (
      ts
      ++ new_task key verify_collection (some g)
          (record { partition = none; shard_keys = []; namespace = src; to = dst })
        ∷ [])
]

-- InsertPartitionVerificationTask.
unfoldable pub insert_partition_verification_task :
    ℕ → RawValue × RawValue → List String → String → String → ℕ → Tasks → Tasks
insert_partition_verification_task key bounds shard_keys src dst g ts =
    ts
    ++ new_task key verify_documents (some g)
        (record { partition = some bounds; shard_keys = shard_keys; namespace = src; to = dst })
      ∷ []

-- createDocumentRecheckTask.
unfoldable pub create_document_recheck_task :
    NsMap
    → ℕ
    → ℕ
    → List RawValue
    → List (ℕ × ℕ)
    → Option Timestamp
    → Option Timestamp
    → String
    → Outcome TaskError Task
unfolding map_namespace
create_document_recheck_task m key g ids times src_ts dst_ts src = elim (map_namespace m src) [
  | err e ↦ err e
  | ok dst ↦
      ok
        (record (new_task key verify_documents (some g)
          (record { partition = none; shard_keys = []; namespace = src; to = dst })) {
            ids = ids;
            documents_count = length ids;
            first_mismatch_time = times;
            src_timestamp = src_ts;
            dst_timestamp = dst_ts;
          })
]

-- ensureCreateRecheckTaskIfNeeded: an upsert that puts a processing or new recheck task to added.
unfoldable pub ensure_create_recheck_task : ℕ → ℕ → Bool → Tasks → Tasks
unfolding any_task update_one
ensure_create_recheck_task key g queue_is_empty ts =
    let p = λ (t : Task). in_generation g t && same_type t.task_type process_recheck_queue in
    let reset = λ (t : Task).
      if same_status t.status processing
      then record t { status = added; begin_time = none }
      else t in
    if queue_is_empty
    then ts
    else if any_task p ts
    then update_one p reset ts
    else ts ++ new_task key process_recheck_queue (some g) no_filter ∷ []

-- api.VerificationStatus, and getVerificationStatusForGeneration.
pub record VerificationStatus : Type 0 where
  pub total_tasks : ℕ
  pub added_tasks : ℕ
  pub processing_tasks : ℕ
  pub failed_tasks : ℕ
  pub completed_tasks : ℕ
  pub metadata_mismatch_tasks : ℕ

abbrev is_counted : ℕ → Task → Bool
is_counted g t = in_generation g t && not (same_type t.task_type primary)

unfoldable pub count_status : ℕ → Status → Tasks → ℕ
count_status g s [] = 0
count_status g s (t ∷ ts) =
    let rest = count_status g s ts in
    if is_counted g t && same_status t.status s then suc rest else rest

unfoldable pub get_verification_status : ℕ → Tasks → VerificationStatus
unfolding count_status
get_verification_status g ts = record {
  total_tasks =
      count_status g added ts
      + count_status g processing ts
      + count_status g failed ts
      + count_status g completed ts
      + count_status g metadata_mismatch ts;
  added_tasks = count_status g added ts;
  processing_tasks = count_status g processing ts;
  failed_tasks = count_status g failed ts;
  completed_tasks = count_status g completed ts;
  metadata_mismatch_tasks = count_status g metadata_mismatch ts;
}

-- FetchFailedAndIncompleteTasks.
unfoldable pub fetch_failed_and_incomplete_tasks : TaskType → ℕ → Tasks → Tasks × Tasks
fetch_failed_and_incomplete_tasks ty g [] = ([], [])
fetch_failed_and_incomplete_tasks ty g (t ∷ ts) =
    let (bad, open_tasks) = fetch_failed_and_incomplete_tasks ty g ts in
    if same_type t.task_type ty && in_generation g t
    then (if same_status t.status failed || same_status t.status metadata_mismatch
        then (t ∷ bad, open_tasks)
        else if same_status t.status completed
        then (bad, open_tasks)
        else (bad, t ∷ open_tasks))
    else (bad, open_tasks)
