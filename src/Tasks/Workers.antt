-- ===== src/Tasks/Workers.antt =====
-- The workers of check.go (work, processAnyTask) at the task collection: each takes tasks, adds
-- tasks, and records the results of its own; their steps interleave in any order.
use migration_verifier_docdb.Base.{
  ℕ, ◌≡◌, ◌≢◌, Bool, false, some, List, [], ◌∷◌, ◌++◌, ok, ◌==◌, ◌||◌,
}
use migration_verifier_docdb.Tasks.Types.{added, Task}
use migration_verifier_docdb.Tasks.Store.{
  Tasks, find_next_verify_task_and_update, update_verification_task,
}
use migration_verifier_docdb.Tasks.Reset.{has_key}
use migration_verifier_docdb.Tasks.InProgress.{None}

-- The tasks, and the key of the task that each busy worker has taken.
pub record Workers : Type 0 where
  pub tasks : Tasks
  pub held : List (ℕ × ℕ)

abbrev pub is_held : ℕ → List (ℕ × ℕ) → Bool
is_held k [] = false
is_held k ((w, j) ∷ held) = j == k || is_held k held

-- One step of one worker. A worker takes the next task of the generation; it adds a task under an ID
-- that is new; it records the result of its task, whose status is then another one than `added`.
pub data WorkStep (g : ℕ) : Workers → Workers → Type 0 where
  takes_task :
      (s : Workers) (w now : ℕ) (t : Task) (ts : Tasks)
      → find_next_verify_task_and_update g now s.tasks ≡ (some t, ts)
      → WorkStep g s (record { tasks = ts; held = (w, t.primary_key) ∷ s.held })
  inserts_task :
      (s : Workers) (t : Task)
      → None (has_key t.primary_key) s.tasks
      → is_held t.primary_key s.held ≡ false
      → WorkStep g s (record { tasks = s.tasks ++ t ∷ []; held = s.held })
  finishes_task :
      (s : Workers) (w k : ℕ) (before behind : List (ℕ × ℕ)) (t : Task) (ts : Tasks)
      → s.held ≡ before ++ (w, k) ∷ behind
      → t.primary_key ≡ k
      → t.status ≢ added
      → update_verification_task t s.tasks ≡ ok ts
      → WorkStep g s (record { tasks = ts; held = before ++ behind })

pub data WorkRun (g : ℕ) : Workers → Workers → Type 0 where
  stays : (s : Workers) → WorkRun g s s
  steps : (s u v : Workers) → WorkRun g s u → WorkStep g u v → WorkRun g s v
