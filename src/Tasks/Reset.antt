-- ===== src/Tasks/Reset.antt =====
-- reset.go: rolling back what an interrupted run left in progress.
use migration_verifier_docdb.Base.{
  ℕ, Bool, true, false, not, Option, none, some, [], ◌∷◌, String, if◌then◌else◌, ◌==◌, ◌&&◌,
  Outcome, ok, err, ◌>>=◌, holds,
}
use migration_verifier_docdb.Base.Text.{text_dec}
use migration_verifier_docdb.Tasks.Types.{
  TaskType, process_recheck_queue, verify_collection, verify_documents, primary, added, processing,
  completed, same_type, same_status, Task, in_generation,
}
use migration_verifier_docdb.Tasks.Store.{
  Tasks, TaskError, too_many_recheck_tasks, wrong_generation, bad_primary_status,
  too_many_primaries, update_many, delete_many, find,
}

-- defaultTaskUpdate.
abbrev pub default_task_update : Task → Task
default_task_update t = record t { status = added; begin_time = none }

abbrev pub is_in_progress : TaskType → Task → Bool
is_in_progress ty t = same_type t.task_type ty && same_status t.status processing

-- findInProgressTasks.
unfoldable pub find_in_progress_tasks : TaskType → Tasks → Tasks
unfolding find
find_in_progress_tasks ty ts = find (is_in_progress ty) ts

abbrev pub is_incomplete_primary : Task → Bool
is_incomplete_primary t = same_type t.task_type primary && not (same_status t.status completed)

abbrev pub is_not_primary : Task → Bool
is_not_primary t = not (same_type t.task_type primary)

-- The switch of handleIncompletePrimary, on the incomplete primary tasks found.
unfoldable pub reset_non_primaries : Tasks → Tasks → Outcome TaskError (Bool × Tasks)
unfolding delete_many
reset_non_primaries [] ts = ok (false, ts)
reset_non_primaries (p ∷ []) ts =
    if same_status p.status added
    then ok (true, delete_many is_not_primary ts)
    else err bad_primary_status
reset_non_primaries (p ∷ q ∷ ps) ts = err too_many_primaries

-- handleIncompletePrimary; its panics are errors here.
unfoldable pub handle_incomplete_primary : Tasks → Outcome TaskError (Bool × Tasks)
unfolding find reset_non_primaries
handle_incomplete_primary ts = reset_non_primaries (find is_incomplete_primary ts) ts

abbrev pub has_key : ℕ → Task → Bool
has_key k t = t.primary_key == k

abbrev pub is_document_task_of : String → Task → Bool
is_document_task_of ns t =
    same_type t.task_type verify_documents && holds (text_dec t.query_filter.namespace ns)

-- The loop of resetCollectionTasksIfNeeded. An `_id` is unique, so its update reaches each task that
-- has it.
unfoldable pub reset_collections : Tasks → Tasks → Tasks
unfolding update_many delete_many
reset_collections [] ts = ts
reset_collections (t ∷ found) ts = reset_collections found (
    update_many (has_key t.primary_key) default_task_update (
      if in_generation 0 t
      then delete_many (is_document_task_of t.query_filter.namespace) ts
      else ts))

unfoldable pub reset_collection_tasks_if_needed : Tasks → Tasks
unfolding find_in_progress_tasks reset_collections
reset_collection_tasks_if_needed ts =
    reset_collections (find_in_progress_tasks verify_collection ts) ts

-- The generation of a task; only a primary task has none.
abbrev pub generation_or : ℕ → Option ℕ → ℕ
generation_or d none = d
generation_or d (some g) = g

abbrev pub is_document_task_in : ℕ → Task → Bool
is_document_task_in g t = in_generation g t && same_type t.task_type verify_documents

-- resetProcessRecheckQueueTasksIfNeeded, on the tasks found.
unfoldable pub reset_recheck_queue : ℕ → Tasks → Tasks → Outcome TaskError Tasks
unfolding update_many delete_many
reset_recheck_queue g [] ts = ok ts
reset_recheck_queue g (t ∷ []) ts =
    if in_generation g t
    then ok (
        update_many (has_key t.primary_key) default_task_update
          (delete_many (is_document_task_in g) ts))
    else err (wrong_generation (generation_or 0 t.generation))
reset_recheck_queue g (t ∷ u ∷ us) ts = err too_many_recheck_tasks

unfoldable pub reset_process_recheck_queue_tasks_if_needed : ℕ → Tasks → Outcome TaskError Tasks
unfolding find_in_progress_tasks reset_recheck_queue
reset_process_recheck_queue_tasks_if_needed g ts =
    reset_recheck_queue g (find_in_progress_tasks process_recheck_queue ts) ts

-- resetDocumentTasksIfNeeded.
unfoldable pub reset_document_tasks_if_needed : Tasks → Tasks
unfolding update_many
reset_document_tasks_if_needed ts =
    update_many (is_in_progress verify_documents) default_task_update ts

-- ResetInProgressTasks, with the verifier's generation.
unfoldable pub reset_in_progress_tasks : ℕ → Tasks → Outcome TaskError Tasks
unfolding handle_incomplete_primary reset_collection_tasks_if_needed
    reset_process_recheck_queue_tasks_if_needed reset_document_tasks_if_needed
reset_in_progress_tasks g ts = handle_incomplete_primary ts >>= λ (did_reset, ts').
    if did_reset
    then ok ts'
    else reset_process_recheck_queue_tasks_if_needed g (reset_collection_tasks_if_needed ts')
      >>= λ ts''. ok (reset_document_tasks_if_needed ts'')
