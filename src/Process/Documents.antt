-- ===== src/Process/Documents.antt =====
-- ProcessVerifyTask of migration_verifier.go: the comparator's reports become rechecks, mismatches and
-- the task's new status.
use migration_verifier_docdb.Base.{
  ℕ, suc, ◌+◌, Bool, Option, none, some, List, [], ◌∷◌, ◌++◌, map, if◌then◌else◌, ◌==◌, Outcome, ok,
  err, length, replicate,
}
use migration_verifier_docdb.Base.Words.{add64}
use migration_verifier_docdb.Bson.{Timestamp}
use migration_verifier_docdb.Compare.{RawValue, Result, Report, Error}
use migration_verifier_docdb.Events.{split_namespace}
use migration_verifier_docdb.Recheck.{Doc, WhichCluster, src, dst, is_empty, insert_recheck_docs}
use migration_verifier_docdb.Tasks.{
  Task, Tasks, TaskError, completed, failed, UpdateReply, send_update,
}
use migration_verifier_docdb.Process.Mismatches.{
  Metadata, ProcessError, comparison_failed, canceled, closed_without_problems, persisting_failed,
  queue_panic, no_mismatch_times, task_error, record_mismatches, and_then, note_compare_of_optime,
}

-- How far a write came: all was written, or an error came when only some was, by its request and its
-- position in it.
pub data Written : Type 0 where
  whole : Written
  partly : (ℕ → ℕ → Bool) → Written

abbrev pub select : {A : Type 0} → (ℕ → Bool) → ℕ → List A → List A
select f i [] = []
select f i (x ∷ xs) = let rest = select f (suc i) xs in if f i then x ∷ rest else rest

abbrev pub written_of : {A : Type 0} → Written → List A → List A
written_of whole xs = xs
written_of (partly f) xs = select (f 0) 0 xs

abbrev pub select_each : {A : Type 0} → (ℕ → ℕ → Bool) → ℕ → List (List A) → List (List A)
select_each f i [] = []
select_each f i (r ∷ rs) = select (f i) 0 r ∷ select_each f (suc i) rs

abbrev pub requests_of : {A : Type 0} → Written → List (List A) → List (List A)
requests_of whole rs = rs
requests_of (partly f) rs = select_each f 0 rs

-- What the select of ProcessVerifyTask takes: a report, with how far the writes of its rechecks and of
-- its mismatches come, an error, or the end of the context. A closed channel is the end of the list.
pub data ReportEvent : Type 0 where
  report : Report → Written → Written → ReportEvent
  comparison_error : Error → ReportEvent
  context_done : ReportEvent

pub record Counts : Type 0 where
  pub problems_count : ℕ
  pub docs_count : ℕ
  pub bytes_count : ℕ

abbrev pub add_report : Report → Counts → Counts
add_report r c = record {
  problems_count = c.problems_count + length r.problems;
  docs_count = add64 c.docs_count r.doc_count;
  bytes_count = add64 c.bytes_count r.byte_count;
}

-- InsertFailedCompareRecheckDocs: the queue's generation and the requests.
unfoldable pub insert_failed_compare_recheck_docs :
    (Doc → ℕ)
    → ℕ
    → Task
    → List RawValue
    → List ℕ
    → List ℕ
    → Outcome ProcessError (ℕ × List (List Doc))
insert_failed_compare_recheck_docs size generation task ids sizes times =
    let (db, coll) = split_namespace task.query_filter.namespace in
    let n = length ids in
    if is_empty times
    then err no_mismatch_times
    else (elim (insert_recheck_docs size generation (replicate n db) (replicate n coll) ids sizes
        times none []) [ err p ↦ err (queue_panic p) | ok r ↦ ok r ])

-- The slices of a report's problems.
abbrev pub problem_ids : List Result → List RawValue
problem_ids ps = map (λ (p : Result). p.id) ps

abbrev pub problem_sizes : List Result → List ℕ
problem_sizes ps = map (λ (p : Result). p.data_size) ps

abbrev pub problem_times : List Result → List ℕ
problem_times ps = map (λ (p : Result). p.mismatch_history.first) ps

abbrev pub after_persisting : Written → Outcome ProcessError (Unit {0})
after_persisting whole = ok tt
after_persisting (partly f) = err persisting_failed

abbrev pub after_both : Written → Written → Outcome ProcessError (Unit {0})
after_both whole records = after_persisting records
after_both (partly f) records = err persisting_failed

abbrev pub in_queue : ℕ → List (List Doc) → List (ℕ × List Doc)
in_queue g [] = []
in_queue g (r ∷ rs) = (g, r) ∷ in_queue g rs

-- NoteCompareOfOptime, if the task has a timestamp for the cluster.
abbrev pub note_optime : WhichCluster → Option Timestamp → Metadata → Metadata
note_optime cluster none m = m
note_optime cluster (some ts) m = note_compare_of_optime cluster ts m

module _ (size : Doc → ℕ) (generation : ℕ) (last_generation : Bool) (task : Task) where
  -- The two concurrent calls for a report with problems.
  unfoldable pub persist_problems :
      List Result → Written → Written → Metadata → Outcome ProcessError (Unit {0}) × Metadata
  unfolding record_mismatches
  persist_problems problems enqueues records m =
      let m' = record_mismatches task (written_of records problems) m in
      if last_generation
      then (after_persisting records, m')
      else (elim (insert_failed_compare_recheck_docs size generation task (problem_ids problems)
          (problem_sizes problems) (problem_times problems)) [
            | err e ↦ (err e, m')
            | ok (g, rs) ↦ (
              after_both enqueues records,
              record m' { queue = m'.queue ++ in_queue g (requests_of enqueues rs) },
            )
          ])

  -- The end of the loop's body: a report without problems is the last.
  abbrev pub after_report :
      List Result
      → Written
      → Written
      → Counts
      → (Metadata → Outcome ProcessError Counts × Metadata)
      → Metadata
      → Outcome ProcessError Counts × Metadata
  after_report [] enqueues records c next m = (ok c, m)
  after_report (p ∷ ps) enqueues records c next m =
      and_then (persist_problems (p ∷ ps) enqueues records m) (λ _ m'. next m')

  -- The loop over the reports.
  unfoldable pub read_reports :
      List ReportEvent → Counts → Metadata → Outcome ProcessError Counts × Metadata
  read_reports [] c m =
      if c.problems_count == 0 then (err closed_without_problems, m) else (ok c, m)
  read_reports (context_done ∷ es) c m = (err canceled, m)
  read_reports (comparison_error e ∷ es) c m = (err (comparison_failed e), m)
  read_reports (report r enqueues records ∷ es) c m =
      after_report r.problems enqueues records (add_report r c) (read_reports es (add_report r c)) m

  -- The task as the counts leave it.
  unfoldable pub judge_task : Counts → Task
  judge_task c = record task {
    status = if c.problems_count == 0 then completed else failed;
    found_source_documents_count = c.docs_count;
    source_bytes_count = c.bytes_count;
  }

  -- Its end, after the task's update.
  abbrev pub finish_task :
      Task → Metadata → Outcome TaskError (Unit {0}) × Tasks → Outcome ProcessError Task × Metadata
  finish_task task' m (err e, ts) = (err (task_error e), record m { tasks = ts })
  finish_task task' m (ok u, ts) = (
    ok task',
    note_optime dst task'.dst_timestamp
        (note_optime src task'.src_timestamp (record m { tasks = ts })),
  )

  unfoldable pub process_verify_task :
      UpdateReply → List ReportEvent → Metadata → Outcome ProcessError Task × Metadata
  unfolding read_reports judge_task send_update
  process_verify_task reply es m =
      and_then (read_reports es (record { problems_count = 0; docs_count = 0; bytes_count = 0 }) m)
        λ c m'. finish_task (judge_task c) m' (send_update reply (judge_task c) m'.tasks)
