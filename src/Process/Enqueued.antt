-- ===== src/Process/Enqueued.antt =====
-- The rechecks and the mismatches of one report.
use migration_verifier_docdb.Base.{
  ℕ, zero, suc, ◌+◌, ◌<◌, ◌≤◌, ◌≡◌, refl, sym, ◌∙◌, ap, Bool, true, false, none, some, List, [],
  ◌∷◌, ◌++◌, append-nil, append_assoc, map, String, arith, if◌then◌else◌, ok, length, length-map,
  length-append, replicate, get_elem?,
}
use migration_verifier_docdb.Compare.{Result}
use migration_verifier_docdb.Events.{split_namespace}
use migration_verifier_docdb.Recheck.{
  Doc, entry_of, index, recheck_doc, recheck_docs, batch_rechecks, insert_recheck_docs,
}
use migration_verifier_docdb.Recheck.Batches.{concat, batch_rechecks-concat}
use migration_verifier_docdb.Tasks.{Task}
use migration_verifier_docdb.Process.Mismatches.{Metadata, mismatch_info, record_mismatches}
use migration_verifier_docdb.Process.Documents.{
  insert_failed_compare_recheck_docs, in_queue, persist_problems, after_both, Written, whole,
  partly, written_of, requests_of, problem_ids, problem_sizes, problem_times,
}

-- The recheck document for a problem with a document of a namespace.
abbrev pub recheck_at : String × String → Result → Doc
recheck_at (db, coll) p = record {
  src_database_name = db;
  src_collection_name = coll;
  document_id = p.id;
  data_size = p.data_size;
  change_op_time = none;
  from_dst = false;
  first_mismatch_time = some p.mismatch_history.first;
}

abbrev pub recheck_of : Task → Result → Doc
recheck_of task p = recheck_at (split_namespace task.query_filter.namespace) p

-- The documents of the requests, each with the generation of its queue.
abbrev pub tagged : ℕ → List Doc → List (ℕ × Doc)
tagged g [] = []
tagged g (d ∷ ds) = (g, d) ∷ tagged g ds

abbrev pub queued : List (ℕ × List Doc) → List (ℕ × Doc)
queued [] = []
queued ((g, ds) ∷ rs) = tagged g ds ++ queued rs

pub tagged-append : (g : ℕ) (xs ys : List Doc) → tagged g (xs ++ ys) ≡ tagged g xs ++ tagged g ys
tagged-append g [] ys = refl
tagged-append g (x ∷ xs) ys = ap (λ zs. (g, x) ∷ zs) (tagged-append g xs ys)

queued-append : (xs ys : List (ℕ × List Doc)) → queued (xs ++ ys) ≡ queued xs ++ queued ys
queued-append [] ys = refl
queued-append ((g, ds) ∷ xs) ys =
    ap (λ zs. tagged g ds ++ zs) (queued-append xs ys)
    ∙ sym (append_assoc (tagged g ds) (queued xs) (queued ys))

queued-in_queue : (g : ℕ) (rs : List (List Doc)) → queued (in_queue g rs) ≡ tagged g (concat rs)
queued-in_queue g [] = refl
queued-in_queue g (r ∷ rs) =
    ap (λ zs. tagged g r ++ zs) (queued-in_queue g rs) ∙ sym (tagged-append g r (concat rs))

get_elem?-map :
    {A B : Type 0} (f : A → B) (pre : List A) (x : A) (xs : List A)
    → get_elem? (map f (pre ++ x ∷ xs)) (length pre) ≡ some (f x)
get_elem?-map f [] x xs = refl
get_elem?-map f (y ∷ pre) x xs = get_elem?-map f pre x xs

get_elem?-replicate : {A : Type 0} (n i : ℕ) (a : A) → i < n → get_elem? (replicate n a) i ≡ some a
get_elem?-replicate zero i a h = absurd (ground arith)
get_elem?-replicate (suc n) zero a h = refl
get_elem?-replicate (suc n) (suc i) a h = get_elem?-replicate n i a (omega (arith, h))

entry_of-map :
    {A B : Type 0} (f : A → B) (pre : List A) (x : A) (xs : List A)
    → entry_of (length pre) (map f (pre ++ x ∷ xs)) ≡ ok (some (f x))
entry_of-map f [] x xs = refl
entry_of-map f (y ∷ pre) x xs = rw (get_elem?-map f pre x xs) refl

index-map :
    {A B : Type 0} (f : A → B) (pre : List A) (x : A) (xs : List A)
    → index (length pre) (map f (pre ++ x ∷ xs)) ≡ ok (f x)
index-map f pre x xs = rw (get_elem?-map f pre x xs, index) refl

index-replicate : {A : Type 0} (n i : ℕ) (a : A) → i < n → index i (replicate n a) ≡ ok a
index-replicate n i a h = rw (get_elem?-replicate n i a h, index) refl

module _ (db coll : String) where
  recheck_doc-problem :
      (n : ℕ) (pre : List Result) (p : Result) (ps : List Result)
      → length pre < n
      → recheck_doc false
          (length pre)
          db
          (replicate n coll)
          (problem_ids (pre ++ p ∷ ps))
          (problem_sizes (pre ++ p ∷ ps))
          (problem_times (pre ++ p ∷ ps))
          []
        ≡ ok (recheck_at (db, coll) p)
  unfolding recheck_doc
  recheck_doc-problem n pre p ps h =
      rw
        (
          entry_of-map (λ (q : Result). q.mismatch_history.first) pre p ps,
          index-map (λ (q : Result). q.id) pre p ps,
          index-map (λ (q : Result). q.data_size) pre p ps,
          index-replicate n (length pre) coll h,
        )
        refl

  recheck_docs-problems :
      (n : ℕ) (pre ps : List Result)
      → length pre + length ps ≤ n
      → recheck_docs false
          (length pre)
          (replicate (length ps) db)
          (replicate n coll)
          (problem_ids (pre ++ ps))
          (problem_sizes (pre ++ ps))
          (problem_times (pre ++ ps))
          []
        ≡ ok (map (recheck_at (db, coll)) ps)
  unfolding recheck_docs
  recheck_docs-problems n pre [] h = refl
  recheck_docs-problems n pre (p ∷ ps) h =
      let rest =
        recheck_docs-problems n (pre ++ p ∷ []) ps (omega (arith, h, length-append pre (p ∷ []))) in
      let l : length (pre ++ p ∷ []) ≡ suc (length pre) =
        omega (arith, length-append pre (p ∷ [])) in
      rw (recheck_doc-problem n pre p ps (omega (arith, h)))
        (rw (← l) (rw (← append_assoc pre (p ∷ []) ps) (rw rest refl)))

-- The requests for the problems of a report.
pub insert_failed-problems :
    (size : Doc → ℕ) (generation : ℕ) (task : Task) (p : Result) (ps : List Result)
    → insert_failed_compare_recheck_docs size generation task
        (problem_ids (p ∷ ps))
        (problem_sizes (p ∷ ps))
        (problem_times (p ∷ ps))
      ≡ ok (suc generation, batch_rechecks size [] 0 (map (recheck_of task) (p ∷ ps)))
unfolding insert_failed_compare_recheck_docs insert_recheck_docs
insert_failed-problems size generation task p ps =
    let (db, coll) = split_namespace task.query_filter.namespace in
    rw (length-map (λ (q : Result). q.id) ps)
      (rw (recheck_docs-problems db coll (suc (length ps)) [] (p ∷ ps) (omega arith)) refl)

-- What a report with problems leaves in the metadata, when its rechecks and its mismatches are
-- persisted.
abbrev pub IsPersisted : ℕ → Bool → Task → List Result → Metadata → Metadata → Type 0
IsPersisted generation last task ps m m' =
    (m'.mismatches ≡ m.mismatches ++ map (mismatch_info task) ps)
    × (queued m'.queue
        ≡ queued m.queue
          ++ (if last then [] else tagged (suc generation) (map (recheck_of task) ps)))
    × (m'.tasks ≡ m.tasks)

module _ (size : Doc → ℕ) (generation : ℕ) (task : Task) (p : Result) (ps : List Result) where
  pub persist_problems-next :
      (enqueues records : Written) (m : Metadata)
      → persist_problems size generation false task (p ∷ ps) enqueues records m ≡ (
          let m' = record_mismatches task (written_of records (p ∷ ps)) m in
          (
            after_both enqueues records,
            record m' {
              queue =
                  m'.queue
                  ++ in_queue (suc generation) (
                      requests_of enqueues
                        (batch_rechecks size [] 0 (map (recheck_of task) (p ∷ ps))));
            },
          ))
  unfolding persist_problems
  persist_problems-next enqueues records m =
      rw (insert_failed-problems size generation task p ps) refl

  queued-rechecks :
      (q : List (ℕ × List Doc))
      → queued (
          q
          ++ in_queue (suc generation) (batch_rechecks size [] 0 (map (recheck_of task) (p ∷ ps))))
        ≡ queued q ++ tagged (suc generation) (map (recheck_of task) (p ∷ ps))
  queued-rechecks q =
      let ds = map (recheck_of task) (p ∷ ps) in
      let rs = batch_rechecks size [] 0 ds in
      queued-append q (in_queue (suc generation) rs)
      ∙ ap (λ zs. queued q ++ zs)
          (queued-in_queue (suc generation) rs
            ∙ ap (tagged (suc generation)) (batch_rechecks-concat size [] 0 ds))

  pub persist_problems-IsPersisted :
      (last : Bool) (enqueues records : Written) (m m' : Metadata)
      → persist_problems size generation last task (p ∷ ps) enqueues records m ≡ (ok tt, m')
      → IsPersisted generation last task (p ∷ ps) m m'
  unfolding persist_problems
  persist_problems-IsPersisted true enqueues whole m m' h =
      let e = sym (ap (λ r. r.1) h) in
      (
        ap (λ (n : Metadata). n.mismatches) e,
        ap (λ (n : Metadata). queued n.queue) e ∙ sym (append-nil (queued m.queue)),
        ap (λ (n : Metadata). n.tasks) e,
      )
  persist_problems-IsPersisted true enqueues (partly f) m m' h = absurd (ground arith)
  persist_problems-IsPersisted false whole whole m m' h =
      let e = sym (ap (λ r. r.1) (sym (persist_problems-next whole whole m) ∙ h)) in
      (
        ap (λ (n : Metadata). n.mismatches) e,
        ap (λ (n : Metadata). queued n.queue) e ∙ queued-rechecks m.queue,
        ap (λ (n : Metadata). n.tasks) e,
      )
  persist_problems-IsPersisted false (partly f) records m m' h =
      absurd (ground (arith, sym (persist_problems-next (partly f) records m) ∙ h))
  persist_problems-IsPersisted false whole (partly f) m m' h =
      absurd (ground (arith, sym (persist_problems-next whole (partly f) m) ∙ h))

  -- A report that can be persisted is.
  pub persist_problems_succeeds :
      (last : Bool) (m : Metadata)
      → (m' : Metadata) × (persist_problems size generation last task (p ∷ ps) whole whole m
          ≡ (ok tt, m'))
  unfolding persist_problems
  persist_problems_succeeds true m = (_, refl)
  persist_problems_succeeds false m = (_, persist_problems-next whole whole m)
