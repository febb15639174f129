-- ===== src/Process/Collections.antt =====
-- ProcessCollectionVerificationTask of migration_verifier.go: a collection's metadata is compared and,
-- in the first generation, the collection is partitioned.
use migration_verifier_docdb.Base.{
  ℕ, suc, Bool, false, Option, none, some, List, [], ◌∷◌, ◌++◌, String, if◌then◌else◌, ◌&&◌,
  Outcome, ok, err, holds,
}
use migration_verifier_docdb.Bson.{Raw}
use migration_verifier_docdb.Compare.{Result, Driver}
use migration_verifier_docdb.NsMap.{NsMap}
use migration_verifier_docdb.Recheck.{is_empty}
use migration_verifier_docdb.Tasks.{
  Task, Tasks, TaskError, Status, processing, completed, failed, metadata_mismatch,
  verify_collection, same_type, same_status, in_generation, UpdateReply, send_update,
  insert_collection_verification_task,
}
use migration_verifier_docdb.Collection.{
  CollectionSpec, collection, CollectionType-discrete, Printer, IndexOps, ShardKeys, SpecError,
  IndexError, compare_collection_specifications, verify_indexes, verify_sharding_if_needed,
}
use migration_verifier_docdb.Process.Mismatches.{Metadata, record_mismatches, and_then}
use migration_verifier_docdb.Process.Documents.{partly, written_of}
use migration_verifier_docdb.Process.Partitioning.{
  Write, spec_mismatches, failed_collection, index_mismatches, sharding_mismatches, CollectionError,
  wrong_task_state, only_on_destination, only_on_source, spec_error, index_error, write_failed,
  insertion_failed, update_failed, PartitionSettings, PartitionCalls, partition_collection,
}

-- The verifier's settings.
pub record Settings : Type 0 where
  pub drv : Driver
  pub printer : Printer
  pub index_ops : IndexOps
  pub verify_all : Bool
  pub ns_map : NsMap
  pub generation : ℕ
  pub partition_settings : PartitionSettings

-- What the clusters answer for the collection of a task; `left_by` says which mismatches a failed write
-- has written.
pub record CollectionCalls : Type 0 where
  pub src_ns : String
  pub dst_ns : String
  pub src_spec : Outcome CollectionError (Option CollectionSpec)
  pub dst_spec : Outcome CollectionError (Option CollectionSpec)
  pub coll_bytes : Outcome CollectionError (ℕ × ℕ)
  pub size_reply : UpdateReply
  pub task_reply : UpdateReply
  pub src_indexes : Outcome CollectionError (List Raw)
  pub dst_indexes : Outcome CollectionError (List Raw)
  pub shard_keys : ShardKeys CollectionError
  pub partition_calls : PartitionCalls
  pub left_by : Write → ℕ → ℕ → Bool

abbrev pub lift_spec : {A : Type 0} → Outcome SpecError A → Outcome CollectionError A
lift_spec (ok a) = ok a
lift_spec (err e) = err (spec_error e)

abbrev pub lift_index : {A : Type 0} → Outcome IndexError A → Outcome CollectionError A
lift_index (ok a) = ok a
lift_index (err e) = err (index_error e)

-- A step that leaves the metadata alone.
abbrev pub given :
    {A : Type 0} → Outcome CollectionError A → Metadata → Outcome CollectionError A × Metadata
given o m = (o, m)

abbrev pub Step : Type 0 → Type 0
Step A = Metadata → Outcome CollectionError A × Metadata

module _ (v : Settings) (calls : CollectionCalls) where
  open v use {drv, printer, index_ops, verify_all, ns_map, generation, partition_settings}
  open calls use {src_ns, dst_ns, partition_calls}

  abbrev pub can_write : Write → Bool
  can_write w = partition_calls.can_write w

  -- recordMismatches, which may fail.
  unfoldable pub write_mismatches : Write → Task → List Result → Step (Unit {0})
  unfolding record_mismatches
  write_mismatches w task problems m =
      if can_write w then (ok tt, record_mismatches task problems m) else (
        err (write_failed w),
        record_mismatches task (written_of (partly (calls.left_by w)) problems) m,
      )

  abbrev pub stored :
      Metadata → Outcome TaskError Tasks → Outcome CollectionError (Unit {0}) × Metadata
  stored m (err e) = (err (insertion_failed e), m)
  stored m (ok ts) = (ok tt, record m { tasks = ts })

  -- InsertFailedCollectionVerificationTask, for the next generation.
  unfoldable pub insert_failed_collection : Step (Unit {0})
  insert_failed_collection m =
      if can_write failed_collection
      then stored m (
          insert_collection_verification_task ns_map (partition_calls.keys 0) src_ns
            (suc generation) m.tasks)
      else (err (write_failed failed_collection), m)

  abbrev pub set_size : Task → ℕ × ℕ → Task
  set_size task (bytes, docs) = record task { documents_count = docs; source_bytes_count = bytes }

  abbrev pub store_size :
      Task → Metadata → Outcome CollectionError (ℕ × ℕ) → Outcome CollectionError Task × Metadata
  store_size task m (err e) = (err e, m)
  store_size task m (ok sizes) = (
    ok (set_size task sizes),
    record m { tasks = (send_update calls.size_reply (set_size task sizes) m.tasks).1 },
  )

  -- setCollectionSizeInTask: a failed update of the task is only logged.
  unfoldable pub set_collection_size_in_task : Task → Step Task
  unfolding send_update
  set_collection_size_in_task task m =
      if same_type task.task_type verify_collection && same_status task.status processing
      then store_size task m calls.coll_bytes
      else (err wrong_task_state, m)

  abbrev pub is_collection : Option CollectionSpec → Bool
  is_collection none = false
  is_collection (some s) = holds (CollectionType-discrete s.spec_type collection)

  abbrev pub sized_task : Task → Option CollectionSpec → Step Task
  sized_task task s m = if is_collection s then set_collection_size_in_task task m else (ok task, m)

  abbrev pub with_status : Task → Status → Task
  with_status task s = record task { status = s }

  -- Problems of the specifications are recorded, and the next generation gets a collection task.
  unfoldable pub note_spec_problems : Task → List Result → Step Task
  unfolding write_mismatches insert_failed_collection
  note_spec_problems task [] m = (ok task, m)
  note_spec_problems task (p ∷ ps) m =
      and_then (write_mismatches spec_mismatches task (p ∷ ps) m) λ _ m1.
        and_then (insert_failed_collection m1) λ _ m2. (ok (with_status task metadata_mismatch), m2)

  -- The same for problems found later, whose collection task may be there already.
  unfoldable pub note_problems : Write → Bool → Task → List Result → Step Task
  unfolding write_mismatches insert_failed_collection
  note_problems w inserts task [] m = (ok task, m)
  note_problems w inserts task (p ∷ ps) m =
      and_then (if inserts then insert_failed_collection m else (ok tt, m)) λ _ m1.
        and_then (write_mismatches w task (p ∷ ps) m1)
          λ _ m2. (ok (with_status task metadata_mismatch), m2)

  abbrev pub index_problems :
      CollectionSpec → CollectionSpec → Outcome CollectionError (List Result)
  index_problems s d = elim calls.src_indexes [
    | err e ↦ err e
    | ok src_specs ↦ elim calls.dst_indexes [
      | err e ↦ err e
      | ok dst_specs ↦ lift_index (
          verify_indexes index_ops partition_settings.src_is_document_db src_ns dst_ns src_specs
            dst_specs s.id_index d.id_index)
    ]
  ]

  abbrev pub finished_status : Task → Task
  finished_status task =
      if same_status task.status processing then with_status task completed else task

  abbrev pub partition_if_first : Task → Step (Unit {0})
  partition_if_first task m =
      if in_generation 0 task
      then partition_collection partition_settings partition_calls generation src_ns dst_ns
          task.source_bytes_count m
      else (ok tt, m)

  -- The rest of verifyMetadataAndPartitionCollection, once the data are known to be comparable.
  unfoldable pub verify_indexes_and_partition :
      CollectionSpec → CollectionSpec → List Result → Task → Step Task
  unfolding note_problems partition_collection verify_sharding_if_needed
  verify_indexes_and_partition s d ps task m = and_then (given (index_problems s d) m) λ qs m1.
      and_then (note_problems index_mismatches (is_empty ps) task qs m1) λ task1 m2.
        and_then (given (verify_sharding_if_needed calls.shard_keys src_ns) m2) λ ss m3.
          and_then (note_problems sharding_mismatches (is_empty (ps ++ qs)) task1 ss m3) λ task2 m4.
            and_then (partition_if_first task2 m4) λ _ m5. (ok (finished_status task2), m5)

  abbrev pub without_data : Task → Task
  without_data task =
      with_status task (if same_status task.status metadata_mismatch then failed else completed)

  -- What is done with the comparison of the specifications: after a failed one without data to
  -- compare the task has failed.
  unfoldable pub verify_data :
      CollectionSpec → CollectionSpec → Task → List Result × Bool → Step Task
  unfolding note_spec_problems verify_indexes_and_partition
  verify_data s d task (ps, verifies_data) m = and_then (note_spec_problems task ps m) λ task1 m1.
      if verifies_data
      then verify_indexes_and_partition s d ps task1 m1
      else (ok (without_data task1), m1)

  -- The two specifications that were found.
  unfoldable pub verify_specs : Task → Option CollectionSpec → Option CollectionSpec → Step Task
  unfolding verify_data
  verify_specs task none none m = (ok (with_status task completed), m)
  verify_specs task none (some d) m = (err only_on_destination, m)
  verify_specs task (some s) none m = (err only_on_source, m)
  verify_specs task (some s) (some d) m =
      and_then
        (given
          (lift_spec (
            compare_collection_specifications drv printer partition_settings.src_is_document_db
              verify_all src_ns dst_ns s d))
          m)
        (verify_data s d task)

  -- verifyMetadataAndPartitionCollection: the task as it leaves it.
  unfoldable pub verify_metadata_and_partition_collection : Task → Step Task
  unfolding set_collection_size_in_task verify_specs
  verify_metadata_and_partition_collection task m = and_then (given calls.src_spec m) λ s m1.
      and_then (given calls.dst_spec m1)
        λ d m2. and_then (sized_task task s m2) λ task1 m3. verify_specs task1 s d m3

  abbrev pub store_task :
      Task
      → Metadata
      → Outcome TaskError (Unit {0}) × Tasks
      → Outcome CollectionError Task × Metadata
  store_task task m (err e, ts) = (err (update_failed e), record m { tasks = ts })
  store_task task m (ok u, ts) = (ok task, record m { tasks = ts })

  -- ProcessCollectionVerificationTask, with the task that it stores.
  unfoldable pub process_collection_verification_task : Task → Step Task
  unfolding verify_metadata_and_partition_collection send_update
  process_collection_verification_task task m =
      and_then (verify_metadata_and_partition_collection task m)
        λ task1 m1. store_task task1 m1 (send_update calls.task_reply task1 m1.tasks)
