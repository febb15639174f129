-- ===== src/Tests/Working.antt =====
-- Two workers that take two tasks, one after the other.
use migration_verifier_docdb.Base.{ℕ, ◌≡◌, refl, none, some, [], ◌∷◌}
use migration_verifier_docdb.Tasks.{
  TaskType, verify_collection, verify_documents, added, Task, Tasks,
  find_next_verify_task_and_update, claim,
}
use migration_verifier_docdb.Tasks.Workers.{Workers, WorkRun, stays, steps, takes_task}
use migration_verifier_docdb.Tasks.Waiting.{IsUnique, IsExclusive}
use migration_verifier_docdb.Tasks.Exclusive.{WorkRun-IsExclusive}

abbrev pub waiting : ℕ → TaskType → Task
waiting key ty = record {
  primary_key = key;
  task_type = ty;
  status = added;
  generation = some 0;
  begin_time = none;
  ids = [];
  query_filter = record { partition = none; shard_keys = []; namespace = "db.c"; to = "db.c" };
  documents_count = 0;
  found_source_documents_count = 0;
  source_bytes_count = 0;
  first_mismatch_time = [];
  src_timestamp = none;
  dst_timestamp = none;
}

abbrev two_tasks : Tasks
two_tasks = waiting 1 verify_documents ∷ waiting 2 verify_collection ∷ []

abbrev idle : Workers
idle = record { tasks = two_tasks; held = [] }

-- The collection task goes first.
abbrev one_busy : Workers
one_busy = record {
  tasks = waiting 1 verify_documents ∷ claim 5 (waiting 2 verify_collection) ∷ [];
  held = (0, 2) ∷ [];
}

abbrev both_busy : Workers
both_busy = record {
  tasks = claim 6 (waiting 1 verify_documents) ∷ claim 5 (waiting 2 verify_collection) ∷ [];
  held = (1, 1) ∷ (0, 2) ∷ [];
}

first_take :
    find_next_verify_task_and_update 0 5 two_tasks
    ≡ (some (claim 5 (waiting 2 verify_collection)), one_busy.tasks)
unfolding find_next_verify_task_and_update
first_take = refl

second_take :
    find_next_verify_task_and_update 0 6 one_busy.tasks
    ≡ (some (claim 6 (waiting 1 verify_documents)), both_busy.tasks)
unfolding find_next_verify_task_and_update
second_take = refl

both_take : WorkRun 0 idle both_busy
both_take =
    steps idle one_busy both_busy
      (steps idle idle one_busy (stays idle)
        (takes_task idle 0 5 (claim 5 (waiting 2 verify_collection)) one_busy.tasks first_take))
      (takes_task one_busy 1 6 (claim 6 (waiting 1 verify_documents)) both_busy.tasks second_take)

two_tasks-IsUnique : IsUnique two_tasks
two_tasks-IsUnique = ((refl, tt), (tt, tt))

WorkRun-IsExclusive_example : IsExclusive both_busy.held × IsUnique both_busy.tasks
WorkRun-IsExclusive_example = WorkRun-IsExclusive 0 two_tasks both_busy two_tasks-IsUnique both_take
