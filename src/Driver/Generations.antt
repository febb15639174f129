-- ===== src/Driver/Generations.antt =====
-- CheckDriver: the generations, one after the other.
use migration_verifier_docdb.Base.{
  ℕ, suc, Bool, true, false, not, Option, none, some, List, [], ◌∷◌, String, if◌then◌else◌, ◌||◌,
  Outcome, ok, err,
}
use migration_verifier_docdb.Tasks.{Tasks, reset_in_progress_tasks, ensure_create_recheck_task}
use migration_verifier_docdb.Driver.Setup.{
  DriverSettings, DriverError, setup_failed, preflight_failed, readers_failed, metadata_unreadable,
  persist_failed, persist_panicked, worker_failed, handling_failed, canceled, recheck_task_failed,
  deadlock, Driver, persist_generation, read_generation, recall_last_rechecked_optimes, Step,
  then_do, set_tasks, create_initial_tasks_if_needed,
}

-- How change handling ends, once writes are off.
pub data Handling : Type 0 where
  handled handling_fails context_ends : Handling

-- How the generation's replacement in the metadata ends: with one document affected, with an error, or
-- with another count, on which the code panics.
pub data Persisting : Type 0 where
  is_persisted persist_errs miscounted : Persisting

-- What a generation meets: how it is persisted, whether CheckWorker succeeds and the tasks that
-- it leaves, whether WritesOff is called, how change handling ends then, whether the next generation's
-- recheck queue is empty, and whether its recheck task can be created.
pub record Round : Type 0 where
  pub persisting : Persisting
  pub works : Bool
  pub tasks_after : Tasks
  pub turns_writes_off : Bool
  pub handling : Handling
  pub queue_is_empty : Bool
  pub ensures : Bool

-- What CheckDriver meets before: whether the metadata can be dropped or read, the checks and starts
-- that follow, and the namespaces that the clusters list.
pub record Start : Type 0 where
  pub metadata_answers : Bool
  pub preflight : Bool
  pub readers_start : Bool
  pub indexes_added : Bool
  pub handling_starts : Bool
  pub listed : Option (List String × List String)

abbrev pub unlock : Driver → Driver
unlock d = record d { locked = false }

abbrev pub lock : Driver → Driver
lock d = record d { locked = true }

abbrev pub need : Bool → DriverError → Driver → Step
need b e d = if b then (ok tt, d) else (err e, d)

-- Once change handling has ended, the next generation is the last.
abbrev pub await_handling : Round → Driver → Step
await_handling r d = if not d.writes_off then (ok tt, d) else (elim r.handling [
  | handled ↦ (ok tt, record d { last_generation = true })
  | handling_fails ↦ (err handling_failed, unlock d)
  | context_ends ↦ (err canceled, unlock d)
])

module _ (s : DriverSettings) where
  -- ensureCreateRecheckTaskIfNeeded for the next generation: its error is returned under the lock.
  abbrev pub next_generation : Round → Driver → Step
  next_generation r d =
      let e = record d { generation = suc d.generation } in
      if r.ensures
      then (
        ok tt,
        record e {
          tasks =
              ensure_create_recheck_task (s.keys (suc d.generation)) e.generation r.queue_is_empty
                e.tasks;
        },
      )
      else (err recheck_task_failed, e)

  abbrev pub after_work : Round → Driver → Driver
  after_work r d = record (unlock (persist_generation s d)) {
    tasks = r.tasks_after;
    writes_off = d.writes_off || r.turns_writes_off;
  }

  -- The rest of a generation, once it is persisted.
  abbrev pub work_on : Round → Driver → (Driver → Step) → Step
  work_on r d next =
      if not r.works
      then (err worker_failed, after_work r d)
      else if d.last_generation
      then (ok tt, after_work r d)
      else then_do (await_handling r (lock (after_work r d)))
          λ e. then_do (next_generation r e) next

  -- The loop of CheckDriver, which starts under the lock, and panics under it; at the end of the rounds
  -- the context ends.
  unfoldable pub run_generations : List Round → Driver → Step
  unfolding persist_generation
  run_generations [] d = (err canceled, unlock d)
  run_generations (r ∷ rs) d =
      let next = λ (e : Driver). run_generations rs e in
      elim r.persisting [
        | is_persisted ↦ work_on r d next
        | persist_errs ↦ (err persist_failed, unlock d)
        | miscounted ↦ (err persist_panicked, lock (persist_generation s d))
      ]

  -- A failure of the set-up gives the lock up.
  abbrev pub unlocked_if_err : Step → Step
  unlocked_if_err (err e, d) = (err e, unlock d)
  unlocked_if_err (ok u, d) = (ok u, d)

  abbrev pub resumed : Driver → Outcome DriverError (Option ℕ) → Step
  resumed d (err e) = (err e, d)
  resumed d (ok none) = (ok tt, d)
  resumed d (ok (some g)) = (ok tt, record d { generation = g })

  abbrev pub open_metadata : Start → Driver → Step
  open_metadata st d =
      if s.start_clean
      then then_do (need st.metadata_answers metadata_unreadable d)
          (λ e. (ok tt, record e { persisted = none; tasks = [] }))
      else resumed d (read_generation s st.metadata_answers d.persisted)

  -- The steps before the generations.
  unfoldable pub set_up : Start → Driver → Step
  unfolding read_generation recall_last_rechecked_optimes create_initial_tasks_if_needed
  set_up st d = then_do (open_metadata st d) λ d1.
      then_do (need st.preflight preflight_failed d1) λ d2.
        then_do (need st.readers_start readers_failed d2) λ d3.
          then_do (need st.indexes_added setup_failed d3) λ d4.
            then_do (set_tasks d4 (reset_in_progress_tasks d4.generation d4.tasks)) λ d5.
              then_do (need st.handling_starts readers_failed (recall_last_rechecked_optimes d5))
                λ d6. create_initial_tasks_if_needed s st.listed d6

  -- The deferred function takes the lock: it waits for ever if the driver still holds it.
  abbrev pub finish_driver : Step → Step
  finish_driver (o, d) = if d.locked then (err deadlock, d) else (o, record d { running = false })

  -- CheckDriver.
  unfoldable pub check_driver : Start → List Round → Driver → Step
  unfolding set_up run_generations
  check_driver st rs d =
      if d.running
      then (ok tt, d)
      else finish_driver (
          then_do (unlocked_if_err (set_up st (record (lock d) { running = true })))
            (run_generations rs))
