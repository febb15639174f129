-- ===== src/Process/Judged.antt =====
-- What a collection task finds, what it records, and the status that it gets.
use migration_verifier_docdb.Base.{
  ℕ, ◌≡◌, refl, sym, ◌∙◌, ap, ap₂, subst, Bool, true, false, ◌&&◌, List, [], ◌∷◌, ◌++◌, append-nil,
  map, arith, if◌then◌else◌, Outcome, ok, err, ok-injective, Option, some,
}
use migration_verifier_docdb.Compare.{Result}
use migration_verifier_docdb.Tasks.{
  Task, Tasks, TaskError, Status, processing, completed, failed, metadata_mismatch, same_status,
  same_type, verify_collection, send_update, send_update-ok,
}
use migration_verifier_docdb.Collection.{
  CollectionSpec, SpecError, compare_collection_specifications,
}
use migration_verifier_docdb.Process.Mismatches.{Metadata, mismatch_info, and_then, and_then-ok}
use migration_verifier_docdb.Process.Partitioning.{CollectionError}
use migration_verifier_docdb.Process.Collections.{
  Settings, CollectionCalls, given, lift_spec, store_size, set_collection_size_in_task,
  is_collection, sized_task, note_spec_problems, finished_status, verify_data, verify_specs,
  verify_metadata_and_partition_collection, store_task, process_collection_verification_task,
}
use migration_verifier_docdb.Process.Stored.{IsStored, update-IsStored}
use migration_verifier_docdb.Process.Noted.{
  noted, Adds, Adds-trans, note_spec-noted, Adds-noted, FindsMore, indexes-judged,
}

-- The status for the problems that were found, and whether the data could be compared.
abbrev pub verdict : Bool → List Result → Status
verdict verifies_data [] = completed
verdict true (p ∷ ps) = metadata_mismatch
verdict false (p ∷ ps) = failed

module _ (v : Settings) (calls : CollectionCalls) where
  noted-verdict :
      (task : Task) (ps qs ss : List Result)
      → task.status ≡ processing
      → (finished_status v calls (noted (noted (noted task ps) qs) ss)).status
        ≡ verdict true (ps ++ (qs ++ ss))
  noted-verdict task [] [] [] h = rw h refl
  noted-verdict task [] [] (s ∷ ss) h = refl
  noted-verdict task [] (q ∷ qs) [] h = refl
  noted-verdict task [] (q ∷ qs) (s ∷ ss) h = refl
  noted-verdict task (p ∷ ps) [] [] h = refl
  noted-verdict task (p ∷ ps) [] (s ∷ ss) h = refl
  noted-verdict task (p ∷ ps) (q ∷ qs) [] h = refl
  noted-verdict task (p ∷ ps) (q ∷ qs) (s ∷ ss) h = refl

  noted-verdict-false :
      (task : Task) (ps : List Result)
      → task.status ≡ processing
      → (if same_status (noted task ps).status metadata_mismatch then failed else completed)
        ≡ verdict false ps
  noted-verdict-false task [] h = rw h refl
  noted-verdict-false task (p ∷ ps) h = refl

  -- What is found about a collection that both sides have.
  abbrev pub Finds :
      CollectionSpec → CollectionSpec → Bool → List Result → List Result → List Result → Type 0
  Finds s d verifies_data ps qs ss =
      (compare_collection_specifications v.drv v.printer v.partition_settings.src_is_document_db
          v.verify_all calls.src_ns calls.dst_ns s d
        ≡ ok (ps, verifies_data))
      × (if verifies_data then FindsMore v calls s d qs ss else (qs ≡ []) × (ss ≡ []))

  -- The task keeps its key, gets the status of the problems, and they are recorded.
  abbrev pub Judges : CollectionSpec → CollectionSpec → Task → Task → Metadata → Metadata → Type 0
  Judges s d task task' m m' =
      (verifies_data : Bool) × (ps : List Result) × (qs : List Result) × (ss : List Result) × Finds
        s d verifies_data ps qs ss
      × (task'.primary_key ≡ task.primary_key)
      × (task'.status ≡ verdict verifies_data (ps ++ (qs ++ ss)))
      × Adds task (ps ++ (qs ++ ss)) m m'

  abbrev pub IsJudged : CollectionSpec → CollectionSpec → Task → Task → Metadata → Metadata → Type 0
  IsJudged s d task task' m m' = Judges s d task task' m m' × IsStored task' m'.tasks

  noted-key : (task : Task) (ps : List Result) → (noted task ps).primary_key ≡ task.primary_key
  noted-key task [] = refl
  noted-key task (p ∷ ps) = refl

  finished-key : (task : Task) → (finished_status v calls task).primary_key ≡ task.primary_key
  finished-key task = ground arith

  data-Judges :
      (s d : CollectionSpec) (ps : List Result) (verifies_data : Bool) (task task' : Task)
      (m m' : Metadata)
      → compare_collection_specifications v.drv v.printer v.partition_settings.src_is_document_db
          v.verify_all calls.src_ns calls.dst_ns s d
        ≡ ok (ps, verifies_data)
      → task.status ≡ processing
      → verify_data v calls s d task (ps, verifies_data) m ≡ (ok task', m')
      → Judges s d task task' m m'
  unfolding verify_data
  data-Judges s d ps true task task' m m' e k h =
      let (t1, n, a, h1) = and_then-ok (note_spec_problems v calls task ps m) _ task' m' h in
      let (x, y) = note_spec-noted v calls task t1 ps m n a in
      let (qs, ss, f, z, w) = indexes-judged v calls s d ps t1 task' n m' h1 in
      (
        true,
        ps,
        qs,
        ss,
        (e, f),
        ap (λ t. t.primary_key) (sym z)
            ∙ finished-key (noted (noted t1 qs) ss)
            ∙ noted-key (noted t1 qs) ss
            ∙ noted-key t1 qs
            ∙ ap (λ t. t.primary_key) (sym x)
            ∙ noted-key task ps,
        ap (λ t. t.status) (sym z)
            ∙ ap (λ t. (finished_status v calls (noted (noted t qs) ss)).status) (sym x)
            ∙ noted-verdict task ps qs ss k,
        Adds-trans task ps (qs ++ ss) m n m' y (
            Adds-noted v calls task ps (qs ++ ss) n m'
              (subst (λ t. Adds t (qs ++ ss) n m') (sym x) w)),
      )
  data-Judges s d ps false task task' m m' e k h =
      let (t1, n, a, h1) = and_then-ok (note_spec_problems v calls task ps m) _ task' m' h in
      let (x, y) = note_spec-noted v calls task t1 ps m n a in
      (
        false,
        ps,
        [],
        [],
        (e, (refl, refl)),
        ap (λ t. t.primary_key) (sym (ok-injective (ap (λ r. r.0) h1)))
            ∙ ap (λ t. t.primary_key) (sym x)
            ∙ noted-key task ps,
        ap (λ t. t.status) (sym (ok-injective (ap (λ r. r.0) h1)))
            ∙ ap (λ t. if same_status t.status metadata_mismatch then failed else completed) (sym x)
            ∙ noted-verdict-false task ps k
            ∙ ap (verdict false) (sym (append-nil ps)),
        subst (λ rs. Adds task rs m m') (sym (append-nil ps))
            (ap (λ r. r.1.mismatches) (sym h1) ∙ y),
      )

  sized-kept :
      (task task' : Task) (s : Option CollectionSpec) (m m' : Metadata)
      → sized_task v calls task s m ≡ (ok task', m')
      → (task'.status ≡ task.status)
        × (task'.primary_key ≡ task.primary_key)
        × (m'.mismatches ≡ m.mismatches)
        × (mismatch_info task' ≡ mismatch_info task)
  unfolding set_collection_size_in_task mismatch_info
  sized-kept task task' s m m' h = by_spec (is_collection v calls s) h
    where
      by_size :
          (o : Outcome CollectionError (ℕ × ℕ))
          → store_size v calls task m o ≡ (ok task', m')
          → (task'.status ≡ task.status)
            × (task'.primary_key ≡ task.primary_key)
            × (m'.mismatches ≡ m.mismatches)
            × (mismatch_info task' ≡ mismatch_info task)
      by_size (err e) x = absurd (ground arith)
      by_size (ok (bytes, docs)) x =
          let same = sym (ok-injective (ap (λ r. r.0) x)) in
          (
            ap (λ t. t.status) same,
            ap (λ t. t.primary_key) same,
            ap (λ r. r.1.mismatches) (sym x),
            ap mismatch_info same,
          )

      by_state :
          (b : Bool)
          → (if b
              then store_size v calls task m calls.coll_bytes
              else (err CollectionError.wrong_task_state, m))
            ≡ (ok task', m')
          → (task'.status ≡ task.status)
            × (task'.primary_key ≡ task.primary_key)
            × (m'.mismatches ≡ m.mismatches)
            × (mismatch_info task' ≡ mismatch_info task)
      by_state true x = by_size calls.coll_bytes x
      by_state false x = absurd (ground arith)

      by_spec :
          (b : Bool)
          → (if b then set_collection_size_in_task v calls task m else (ok task, m))
            ≡ (ok task', m')
          → (task'.status ≡ task.status)
            × (task'.primary_key ≡ task.primary_key)
            × (m'.mismatches ≡ m.mismatches)
            × (mismatch_info task' ≡ mismatch_info task)
      by_spec true x =
          by_state
            (same_type task.task_type verify_collection && same_status task.status processing) x
      by_spec false x =
          let same = sym (ok-injective (ap (λ r. r.0) x)) in
          (
            ap (λ t. t.status) same,
            ap (λ t. t.primary_key) same,
            ap (λ r. r.1.mismatches) (sym x),
            ap mismatch_info same,
          )

  specs-Judges :
      (s d : CollectionSpec) (task task' : Task) (m m' : Metadata)
      → task.status ≡ processing
      → verify_specs v calls task (some s) (some d) m ≡ (ok task', m')
      → Judges s d task task' m m'
  unfolding verify_specs
  specs-Judges s d task task' m m' k h =
      by_comparison
        (compare_collection_specifications v.drv v.printer v.partition_settings.src_is_document_db
          v.verify_all calls.src_ns calls.dst_ns s d)
        refl h
    where
      by_comparison :
          (o : Outcome SpecError (List Result × Bool))
          → compare_collection_specifications v.drv v.printer
              v.partition_settings.src_is_document_db v.verify_all calls.src_ns calls.dst_ns s d
            ≡ o
          → and_then (given (lift_spec o) m) (verify_data v calls s d task) ≡ (ok task', m')
          → Judges s d task task' m m'
      by_comparison (err e) c x = absurd (ground arith)
      by_comparison (ok (ps, b)) c x = data-Judges s d ps b task task' m m' c k x

  Judges-start :
      (s d : CollectionSpec) (task t1 task' : Task) (m n m' : Metadata)
      → t1.primary_key ≡ task.primary_key
      → n.mismatches ≡ m.mismatches
      → mismatch_info t1 ≡ mismatch_info task
      → Judges s d t1 task' n m'
      → Judges s d task task' m m'
  Judges-start s d task t1 task' m n m' w y z (b, ps, qs, ss, f, k, e, a) =
      (b, ps, qs, ss, f, k ∙ w, e, a ∙ ap₂ (λ l i. l ++ map i (ps ++ (qs ++ ss))) y z)

  metadata-Judges :
      (s d : CollectionSpec) (task task' : Task) (m m' : Metadata)
      → calls.src_spec ≡ ok (some s)
      → calls.dst_spec ≡ ok (some d)
      → task.status ≡ processing
      → verify_metadata_and_partition_collection v calls task m ≡ (ok task', m')
      → Judges s d task task' m m'
  unfolding verify_metadata_and_partition_collection
  metadata-Judges s d task task' m m' p q k h =
      let (t1, n, a, h1) =
        and_then-ok (sized_task v calls task (some s) m) _ task' m' (rw (p, q) at h) in
      let (x, w, y, z) = sized-kept task t1 (some s) m n a in
      Judges-start s d task t1 task' m n m' w y z (specs-Judges s d t1 task' n m' (x ∙ k) h1)

  -- When ProcessCollectionVerificationTask succeeds for a collection in progress that both sides
  -- have, it records as mismatches of the task all the problems of the specifications and, if the
  -- data can be compared, of the indexes and of the shard keys, in this order. The task is completed
  -- if there are none; else it has a metadata mismatch, or has failed where the data cannot be
  -- compared. The task collection then holds the task under its key with this status and its counts.
  pub process_collection_verification_task-IsJudged :
      (s d : CollectionSpec) (task task' : Task) (m m' : Metadata)
      → calls.src_spec ≡ ok (some s)
      → calls.dst_spec ≡ ok (some d)
      → task.status ≡ processing
      → process_collection_verification_task v calls task m ≡ (ok task', m')
      → IsJudged s d task task' m m'
  unfolding process_collection_verification_task
  process_collection_verification_task-IsJudged s d task task' m m' p q k h =
      let (t1, n, a, h1) =
        and_then-ok (verify_metadata_and_partition_collection v calls task m) _ task' m' h in
      after t1 n (send_update calls.task_reply t1 n.tasks) refl
        (metadata-Judges s d task t1 m n p q k a) h1
    where
      after :
          (t : Task) (n : Metadata) (r : Outcome TaskError (Unit {0}) × Tasks)
          → send_update calls.task_reply t n.tasks ≡ r
          → Judges s d task t m n
          → store_task v calls t n r ≡ (ok task', m')
          → IsJudged s d task task' m m'
      after t n (err e, ts) u j w = absurd (ground arith)
      after t n (ok tt, ts) u j w =
          let same : t ≡ task' = ok-injective (ap (λ r. r.0) w) in
          let end : record n { tasks = ts } ≡ m' = ap (λ r. r.1) w in
          subst (λ (x : Task). IsJudged s d task x m m') same
            (subst (λ (o : Metadata). IsJudged s d task t m o) end
              (j, update-IsStored t n.tasks ts (send_update-ok calls.task_reply t n.tasks ts u).1))
