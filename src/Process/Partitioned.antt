-- ===== src/Process/Partitioned.antt =====
-- Partitioning a collection records no mismatch.
use migration_verifier_docdb.Base.{
  ℕ, suc, ◌≡◌, refl, Bool, true, false, List, [], ◌∷◌, String, if◌then◌else◌, Outcome, ok, err,
  Bool-cases, inl, inr,
}
use migration_verifier_docdb.Process.Mismatches.{Metadata}
use migration_verifier_docdb.Process.Partitioning.{
  partition_task, CollectionError, Partitioner, Bounds, PartitionSettings, PartitionCalls,
  task_shard_keys, insert_partitions, insert_found, insert_chosen, insert_all, choose_partitioner,
  is_small, partition_collection,
}

-- Partitioning records no mismatch.
module _ (s : PartitionSettings) (calls : PartitionCalls) (g : ℕ) (src_ns dst_ns : String) where
  pub insert_partitions-mismatches :
      (fields : List String) (i : ℕ) (bs : List Bounds) (m : Metadata)
      → (insert_partitions s calls g src_ns dst_ns fields i bs m).1.mismatches ≡ m.mismatches
  unfolding insert_partitions
  insert_partitions-mismatches fields i [] m = refl
  insert_partitions-mismatches fields i (b ∷ bs) m =
      elim (Bool-cases (calls.can_write (partition_task i))) [
        | inl e ↦ rw e (insert_partitions-mismatches fields (suc i) bs _)
        | inr e ↦ rw e refl
      ]

  pub partition_collection-mismatches :
      (bytes : ℕ) (m : Metadata)
      → (partition_collection s calls g src_ns dst_ns bytes m).1.mismatches ≡ m.mismatches
  unfolding partition_collection
  partition_collection-mismatches bytes m = by_fields calls.shard_key_fields
    where
      by_bounds :
          (p : Partitioner) (fields : List String) (o : Outcome CollectionError (List Bounds))
          → (insert_found s calls g src_ns dst_ns p fields m o).1.mismatches ≡ m.mismatches
      by_bounds p fields (err e) = refl
      by_bounds p fields (ok bs) = insert_partitions-mismatches (task_shard_keys p fields) 1 bs m

      by_partitioner :
          (fields : List String) (o : Outcome CollectionError Partitioner)
          → (insert_chosen s calls g src_ns dst_ns fields m o).1.mismatches ≡ m.mismatches
      by_partitioner fields (err e) = refl
      by_partitioner fields (ok p) = by_bounds p fields (calls.bounds p)

      by_size :
          (fields : List String) (b : Bool)
          → (if b
              then insert_partitions s calls g src_ns dst_ns fields 1 (calls.whole ∷ []) m
              else insert_chosen s calls g src_ns dst_ns fields m
                  (choose_partitioner s)).1.mismatches
            ≡ m.mismatches
      by_size fields true = insert_partitions-mismatches fields 1 (calls.whole ∷ []) m
      by_size fields false = by_partitioner fields (choose_partitioner s)

      by_fields :
          (o : Outcome CollectionError (List String))
          → (insert_all s calls g src_ns dst_ns bytes m o).1.mismatches ≡ m.mismatches
      by_fields (err e) = refl
      by_fields (ok fields) = by_size fields (is_small s bytes)
