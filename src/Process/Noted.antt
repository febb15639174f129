-- ===== src/Process/Noted.antt =====
-- The mismatches that a collection task's steps record.
use migration_verifier_docdb.Base.{
  map-append, suc, ◌≡◌, refl, sym, ◌∙◌, ap, subst, Bool, true, false, List, [], ◌∷◌, ◌++◌,
  append-nil, append_assoc, map, arith, if◌then◌else◌, Outcome, ok, err, ok-injective,
}
use migration_verifier_docdb.Compare.{Result}
use migration_verifier_docdb.Recheck.{is_empty}
use migration_verifier_docdb.Tasks.{
  Task, Tasks, TaskError, metadata_mismatch, insert_collection_verification_task, in_generation,
}
use migration_verifier_docdb.Collection.{CollectionSpec, verify_sharding_if_needed}
use migration_verifier_docdb.Process.Mismatches.{
  Metadata, mismatch_info, record_mismatches, and_then-ok,
}
use migration_verifier_docdb.Process.Documents.{partly, written_of}
use migration_verifier_docdb.Process.Partitioning.{
  Write, spec_mismatches, index_mismatches, sharding_mismatches, failed_collection, write_failed,
  CollectionError, partition_collection,
}
use migration_verifier_docdb.Process.Collections.{
  Settings, CollectionCalls, given, stored, insert_failed_collection, can_write, write_mismatches,
  note_spec_problems, note_problems, index_problems, finished_status, partition_if_first,
  verify_indexes_and_partition,
}
use migration_verifier_docdb.Process.Partitioned.{partition_collection-mismatches}

abbrev pub noted : Task → List Result → Task
noted task [] = task
noted task (p ∷ ps) = record task { status = metadata_mismatch }

abbrev pub Adds : Task → List Result → Metadata → Metadata → Type 0
Adds task ps m m' = m'.mismatches ≡ m.mismatches ++ map (mismatch_info task) ps

pub Adds-trans :
    (task : Task) (ps qs : List Result) (m n o : Metadata)
    → Adds task ps m n
    → Adds task qs n o
    → Adds task (ps ++ qs) m o
Adds-trans task ps qs m n o a b =
    b
    ∙ ap (λ l. l ++ map (mismatch_info task) qs) a
    ∙ append_assoc m.mismatches (map (mismatch_info task) ps) (map (mismatch_info task) qs)
    ∙ ap (λ l. m.mismatches ++ l) (sym (map-append (mismatch_info task) ps qs))

pub Adds-nil : (task : Task) (m n : Metadata) → n.mismatches ≡ m.mismatches → Adds task [] m n
Adds-nil task m n h = h ∙ sym (append-nil m.mismatches)

module _ (v : Settings) (calls : CollectionCalls) where
  pub write_mismatches-Adds :
      (w : Write) (task : Task) (ps : List Result) (m m' : Metadata)
      → write_mismatches v calls w task ps m ≡ (ok tt, m')
      → Adds task ps m m'
  unfolding write_mismatches record_mismatches
  write_mismatches-Adds w task ps m m' h = by_test (can_write v calls w) h
    where
      by_test :
          (b : Bool)
          → ◌≡◌ {A = Outcome CollectionError (Unit {0}) × Metadata}
              (if b then (ok tt, record_mismatches task ps m) else (
                err (write_failed w),
                record_mismatches task (written_of (partly (calls.left_by w)) ps) m,
              ))
              (ok tt, m')
          → Adds task ps m m'
      by_test true x = ap (λ r. r.1.mismatches) (sym x)
      by_test false x = absurd (ground arith)

  pub insert_failed-mismatches :
      (m : Metadata) → (insert_failed_collection v calls m).1.mismatches ≡ m.mismatches
  unfolding insert_failed_collection
  insert_failed-mismatches m = by_test (can_write v calls failed_collection) (
      insert_collection_verification_task v.ns_map (calls.partition_calls.keys 0) calls.src_ns
        (suc v.generation) m.tasks)
    where
      by_test :
          (b : Bool) (o : Outcome TaskError Tasks)
          → (if b
              then stored v calls m o
              else (err (write_failed failed_collection), m)).1.mismatches
            ≡ m.mismatches
      by_test true (err e) = refl
      by_test true (ok ts) = refl
      by_test false o = refl

  pub note_spec-noted :
      (task task' : Task) (ps : List Result) (m m' : Metadata)
      → note_spec_problems v calls task ps m ≡ (ok task', m')
      → (noted task ps ≡ task') × Adds task ps m m'
  unfolding note_spec_problems
  note_spec-noted task task' [] m m' h =
      (ok-injective (ap (λ r. r.0) h), Adds-nil task m m' (ap (λ r. r.1.mismatches) (sym h)))
  note_spec-noted task task' (p ∷ ps) m m' h =
      let (_, n, a, h1) =
        and_then-ok (write_mismatches v calls spec_mismatches task (p ∷ ps) m) _ task' m' h in
      let (_, o, b, h2) = and_then-ok (insert_failed_collection v calls n) _ task' m' h1 in
      (
        ok-injective (ap (λ r. r.0) h2),
        ap (λ r. r.1.mismatches) (sym h2)
            ∙ ap (λ r. r.1.mismatches) (sym b)
            ∙ insert_failed-mismatches n
            ∙ write_mismatches-Adds spec_mismatches task (p ∷ ps) m n a,
      )

  pub note_problems-noted :
      (w : Write) (inserts : Bool) (task task' : Task) (ps : List Result) (m m' : Metadata)
      → note_problems v calls w inserts task ps m ≡ (ok task', m')
      → (noted task ps ≡ task') × Adds task ps m m'
  unfolding note_problems
  note_problems-noted w inserts task task' [] m m' h =
      (ok-injective (ap (λ r. r.0) h), Adds-nil task m m' (ap (λ r. r.1.mismatches) (sym h)))
  note_problems-noted w inserts task task' (p ∷ ps) m m' h =
      let (_, n, a, h1) =
        and_then-ok (if inserts then insert_failed_collection v calls m else (ok tt, m)) _ task' m'
          h in
      let (_, o, b, h2) = and_then-ok (write_mismatches v calls w task (p ∷ ps) n) _ task' m' h1 in
      (
        ok-injective (ap (λ r. r.0) h2),
        ap (λ r. r.1.mismatches) (sym h2)
            ∙ write_mismatches-Adds w task (p ∷ ps) n o b
            ∙ ap (λ l. l ++ map (mismatch_info task) (p ∷ ps)) (kept inserts n a),
      )
    where
      kept :
          (b : Bool) (n : Metadata)
          → (if b then insert_failed_collection v calls m else (ok tt, m)) ≡ (ok tt, n)
          → n.mismatches ≡ m.mismatches
      kept true n x = ap (λ r. r.1.mismatches) (sym x) ∙ insert_failed-mismatches m
      kept false n x = ap (λ r. r.1.mismatches) (sym x)

  pub Adds-noted :
      (task : Task) (qs ss : List Result) (m n : Metadata)
      → Adds (noted task qs) ss m n
      → Adds task ss m n
  unfolding mismatch_info
  Adds-noted task [] ss m n h = h
  Adds-noted task (q ∷ qs) ss m n h = h

  -- What the indexes and the shard keys show, after the specifications.
  abbrev pub FindsMore : CollectionSpec → CollectionSpec → List Result → List Result → Type 0
  FindsMore s d qs ss =
      (index_problems v calls s d ≡ ok qs)
      × (verify_sharding_if_needed calls.shard_keys calls.src_ns ≡ ok ss)

  pub partition-mismatches :
      (task : Task) (m m' : Metadata)
      → partition_if_first v calls task m ≡ (ok tt, m')
      → m'.mismatches ≡ m.mismatches
  partition-mismatches task m m' h = by_test (in_generation 0 task) h
    where
      partitioned : Outcome CollectionError (Unit {0}) × Metadata
      partitioned =
          partition_collection v.partition_settings calls.partition_calls v.generation calls.src_ns
            calls.dst_ns task.source_bytes_count m

      by_test :
          (b : Bool)
          → (if b then partitioned else (ok tt, m)) ≡ (ok tt, m')
          → m'.mismatches ≡ m.mismatches
      by_test true x =
          ap (λ r. r.1.mismatches) (sym x)
          ∙ partition_collection-mismatches v.partition_settings calls.partition_calls v.generation
              calls.src_ns calls.dst_ns task.source_bytes_count m
      by_test false x = ap (λ r. r.1.mismatches) (sym x)

  pub indexes-judged :
      (s d : CollectionSpec) (ps : List Result) (task task' : Task) (m m' : Metadata)
      → verify_indexes_and_partition v calls s d ps task m ≡ (ok task', m')
      → (qs : List Result) × (ss : List Result) × FindsMore s d qs ss
        × (finished_status v calls (noted (noted task qs) ss) ≡ task')
        × Adds task (qs ++ ss) m m'
  unfolding verify_indexes_and_partition
  indexes-judged s d ps task task' m m' h =
      let (qs, n, a, h1) = and_then-ok (given (index_problems v calls s d) m) _ task' m' h in
      let (t1, o, b, h2) =
        and_then-ok (note_problems v calls index_mismatches (is_empty ps) task qs n) _ task' m'
          h1 in
      let (ss, p, c, h3) =
        and_then-ok (given (verify_sharding_if_needed calls.shard_keys calls.src_ns) o) _ task' m'
          h2 in
      let (t2, q, e, h4) =
        and_then-ok (note_problems v calls sharding_mismatches (is_empty (ps ++ qs)) t1 ss p) _
          task' m' h3 in
      let (_, r, f, h5) = and_then-ok (partition_if_first v calls t2 q) _ task' m' h4 in
      let (x, y) = note_problems-noted index_mismatches (is_empty ps) task t1 qs n o b in
      let (z, w) = note_problems-noted sharding_mismatches (is_empty (ps ++ qs)) t1 t2 ss p q e in
      let first : Adds task qs m o = subst (λ u. Adds task qs u o) (ap (λ k. k.1) (sym a)) y in
      let second : Adds task ss o q =
        subst (λ u. Adds task ss u q) (ap (λ k. k.1) (sym c))
          (Adds-noted task qs ss p q (subst (λ t. Adds t ss p q) (sym x) w)) in
      (
        qs,
        ss,
        (ap (λ k. k.0) a, ap (λ k. k.0) c),
        ap (λ t. finished_status v calls (noted t ss)) x
            ∙ ap (finished_status v calls) z
            ∙ ok-injective (ap (λ k. k.0) h5),
        ap (λ k. k.1.mismatches) (sym h5)
            ∙ partition-mismatches t2 q r f
            ∙ Adds-trans task qs ss m o q first second,
      )
