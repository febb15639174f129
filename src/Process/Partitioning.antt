-- ===== src/Process/Partitioning.antt =====
-- partitionCollection of migration_verifier.go: which partitioner a collection gets, and the document
-- tasks for its partitions.
use migration_verifier_docdb.Base.{
  ℕ, suc, Bool, true, false, List, [], ◌∷◌, String, if◌then◌else◌, ltb, leb, ◌&&◌, Outcome, ok, err,
}
use migration_verifier_docdb.Collection.{SpecError, IndexError}
use migration_verifier_docdb.Compare.{RawValue}
use migration_verifier_docdb.Tasks.{TaskError, insert_partition_verification_task}
use migration_verifier_docdb.Process.Mismatches.{Metadata}

-- The database writes that can fail, for a collection task.
pub data Write : Type 0 where
  spec_mismatches failed_collection index_mismatches sharding_mismatches : Write
  partition_task : ℕ → Write

-- `wrong_task_state` and `bad_scheme` are panics.
pub data CollectionError : Type 0 where
  call_failed wrong_task_state bad_scheme : CollectionError
  only_on_destination only_on_source : CollectionError
  spec_error : SpecError → CollectionError
  index_error : IndexError → CollectionError
  write_failed : Write → CollectionError
  insertion_failed : TaskError → CollectionError
  natural_unsupported replica_set_needed : CollectionError
  update_failed : TaskError → CollectionError

-- partitions.Scheme, an open string.
pub data Scheme : Type 0 where
  scheme_id scheme_natural other_scheme : Scheme

-- The ways to partition a collection.
pub data Partitioner : Type 0 where
  index_walk sample_rate sample single_natural natural : Partitioner

-- What the choice of a partitioner depends on: the verifier's scheme and partition size, and what is
-- known of the source. `buckets` says that the collection holds a time series' buckets.
pub record PartitionSettings : Type 0 where
  pub scheme : Scheme
  pub partition_size_in_bytes : ℕ
  pub buckets : Bool
  pub src_is_document_db : Bool
  pub src_has_sample_rate : Bool
  pub src_is_replica_set : Outcome CollectionError Bool
  pub find_can_resume : Bool

abbrev choose_natural :
    PartitionSettings → Outcome CollectionError Bool → Outcome CollectionError Partitioner
choose_natural s (err e) = err e
choose_natural s (ok false) = err replica_set_needed
choose_natural s (ok true) = ok (if s.find_can_resume then natural else single_natural)

abbrev choose_for : PartitionSettings → Scheme → Outcome CollectionError Partitioner
choose_for s scheme_id = ok (
    if s.src_is_document_db
    then index_walk
    else if s.src_has_sample_rate
    then sample_rate
    else sample)
choose_for s scheme_natural =
    if s.src_is_document_db then err natural_unsupported else choose_natural s s.src_is_replica_set
choose_for s other_scheme = err bad_scheme

-- The switch of partitionCollection.
unfoldable pub choose_partitioner : PartitionSettings → Outcome CollectionError Partitioner
choose_partitioner s = choose_for s (if s.buckets then scheme_id else s.scheme)

-- Whether `idealNumPartitions <= 1`: a quotient of floats, exact where the sizes are below 2 ^ 53.
unfoldable pub is_small : PartitionSettings → ℕ → Bool
is_small s coll_bytes = ltb 0 s.partition_size_in_bytes && leb coll_bytes s.partition_size_in_bytes

abbrev pub Bounds : Type 0
Bounds = RawValue × RawValue

-- What the driver and the partitioners answer for the collection: its shard key's fields, and the
-- bounds that each partitioner finds. `keys` gives the IDs of new tasks.
pub record PartitionCalls : Type 0 where
  pub shard_key_fields : Outcome CollectionError (List String)
  pub bounds : Partitioner → Outcome CollectionError (List Bounds)
  pub whole : Bounds
  pub keys : ℕ → ℕ
  pub can_write : Write → Bool

-- The shard key that the tasks get. The partitions of the legacy partitioner get none.
abbrev pub task_shard_keys : Partitioner → List String → List String
task_shard_keys sample fields = []
task_shard_keys _ fields = fields

module _ (s : PartitionSettings) (calls : PartitionCalls) (generation : ℕ)
    (src_ns dst_ns : String) where
  -- The tasks for partitions, from a number on.
  unfoldable pub insert_partitions :
      List String → ℕ → List Bounds → Metadata → Outcome CollectionError (Unit {0}) × Metadata
  insert_partitions fields i [] m = (ok tt, m)
  insert_partitions fields i (b ∷ bs) m =
      let rest = insert_partitions fields (suc i) bs (record m {
        tasks =
            insert_partition_verification_task (calls.keys i) b fields src_ns dst_ns generation
              m.tasks;
      }) in
      if calls.can_write (partition_task i)
      then rest
      else (err (write_failed (partition_task i)), m)

  abbrev pub insert_found :
      Partitioner
      → List String
      → Metadata
      → Outcome CollectionError (List Bounds)
      → Outcome CollectionError (Unit {0}) × Metadata
  insert_found p fields m (err e) = (err e, m)
  insert_found p fields m (ok bs) = insert_partitions (task_shard_keys p fields) 1 bs m

  abbrev pub insert_chosen :
      List String
      → Metadata
      → Outcome CollectionError Partitioner
      → Outcome CollectionError (Unit {0}) × Metadata
  insert_chosen fields m (err e) = (err e, m)
  insert_chosen fields m (ok p) = insert_found p fields m (calls.bounds p)

  abbrev pub insert_all :
      ℕ
      → Metadata
      → Outcome CollectionError (List String)
      → Outcome CollectionError (Unit {0}) × Metadata
  insert_all coll_bytes m (err e) = (err e, m)
  insert_all coll_bytes m (ok fields) =
      if is_small s coll_bytes
      then insert_partitions fields 1 (calls.whole ∷ []) m
      else insert_chosen fields m (choose_partitioner s)

  -- partitionCollection.
  unfoldable pub partition_collection : ℕ → Metadata → Outcome CollectionError (Unit {0}) × Metadata
  unfolding insert_partitions choose_partitioner is_small
  partition_collection coll_bytes m = insert_all coll_bytes m calls.shard_key_fields
