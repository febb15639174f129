-- ===== src/Tests/Driving.antt =====
-- A driver that runs three generations: writes are turned off in the second.
use migration_verifier_docdb.Base.{
  ◌≡◌, ◌↔◌, refl, true, false, none, some, List, [], ◌∷◌, ok, err, ◌+◌,
}
use migration_verifier_docdb.Tasks.{ensure_create_recheck_task}
use migration_verifier_docdb.Driver.{
  DriverSettings, Driver, recheck_task_failed, Round, handled, is_persisted, persist_generation,
  read_generation, run_generations,
}
use migration_verifier_docdb.Driver.Resumes.{read_generation-persist_generation}
use migration_verifier_docdb.Driver.Finishes.{Succeeds, generations_after, run_generations-Succeeds}
use migration_verifier_docdb.Driver.Ends.{run_generations-EndsWell}

abbrev settings : DriverSettings
settings = record {
  start_clean = false;
  verify_all = false;
  metadata_version = 3;
  src_change_reader_method = "changeStream";
  dst_change_reader_method = "changeStream";
  ns_map = record { src_dst_ns_map = []; dst_src_ns_map = [] };
  keys = λ n. n;
}

abbrev driver : Driver
driver = record {
  locked = true;
  running = true;
  writes_off = false;
  last_generation = false;
  generation = 0;
  src_namespaces = "db.c" ∷ [];
  dst_namespaces = "db.c" ∷ [];
  src_last_rechecked_ts = record { t = 0; i = 0 };
  dst_last_rechecked_ts = record { t = 0; i = 0 };
  persisted = none;
  tasks = [];
}

abbrev round : Round
round = record {
  persisting = is_persisted;
  works = true;
  tasks_after = [];
  turns_writes_off = false;
  handling = handled;
  queue_is_empty = true;
  ensures = true;
}

abbrev rounds : List Round
rounds = round ∷ record round { turns_writes_off = true } ∷ round ∷ []

abbrev at_end : Driver
unfolding persist_generation
at_end =
    persist_generation settings
      (record driver { locked = false; writes_off = true; last_generation = true; generation = 2 })

runs : run_generations settings rounds driver ≡ (ok tt, at_end)
unfolding run_generations persist_generation ensure_create_recheck_task
runs = refl

run_generations-Succeeds_example :
    Succeeds false rounds
    × (at_end.generation ≡ 0 + generations_after false rounds)
    × (at_end.persisted ≡ (persist_generation settings at_end).persisted)
run_generations-Succeeds_example = run_generations-Succeeds settings rounds driver at_end refl runs

run_generations-EndsWell_example :
    (e : Driver) × (run_generations settings rounds driver ≡ (ok tt, e))
run_generations-EndsWell_example =
    run_generations-EndsWell settings rounds driver refl
      ((refl, refl), refl, ((refl, refl), refl, (refl, (refl, refl))))

-- The recheck task of the second generation cannot be created.
abbrev stuck_rounds : List Round
stuck_rounds = record round { ensures = false } ∷ []

is_stuck : (run_generations settings stuck_rounds driver).0 ≡ err recheck_task_failed
unfolding run_generations
is_stuck = refl

read_generation-persist_generation_example :
    (read_generation settings true (persist_generation settings driver).persisted ≡ ok (some 0)) ↔ (
      (settings.metadata_version ≡ settings.metadata_version)
      × (settings.src_change_reader_method ≡ settings.src_change_reader_method)
      × (settings.dst_change_reader_method ≡ settings.dst_change_reader_method)
      × (driver.generation ≡ 0))
read_generation-persist_generation_example =
    read_generation-persist_generation settings settings driver 0
