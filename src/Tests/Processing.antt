-- ===== src/Tests/Processing.antt =====
-- A document task whose comparison finds a missing document, at the first or at the second attempt.
use migration_verifier_docdb.Base.{ℕ, ◌≡◌, refl, true, false, none, some, List, [], ◌∷◌, ok, err}
use migration_verifier_docdb.Compare.{Result, cluster_target, no_history, missing}
use migration_verifier_docdb.Events.{split_namespace}
use migration_verifier_docdb.Recheck.{Doc, insert_recheck_docs}
use migration_verifier_docdb.Tasks.{
  Task, processing, failed, verify_documents, update_verification_task, answered, send_update,
  any_task, has_key,
}
use migration_verifier_docdb.Tests.Working.{waiting}
use migration_verifier_docdb.Process.{
  Metadata, canceled, ReportEvent, whole, report, context_done, mismatch_info, process_verify_task,
  read_reports, persist_problems, judge_task, record_mismatches, insert_failed_compare_recheck_docs,
  clear_mismatches_for_task,
}
use migration_verifier_docdb.Process.Reported.{IsReported, process_verify_task-IsReported}
use migration_verifier_docdb.Process.Succeeds.{
  IsRead, process_verify_task-EndsWell, process_verify_task-IsRead,
}
use migration_verifier_docdb.Process.Attempts.{
  Attempt, process_attempts, attempt_task, clear_mismatches_if_retrying_task, process_document_task,
}
use migration_verifier_docdb.Process.Retried.{Leaves, process_document_task-Leaves}

abbrev doc_task : Task
doc_task = record (waiting 3 verify_documents) { status = processing }

abbrev missing_doc : ℕ → Result
missing_doc n = record {
  id = record { ty = 16; value = n ∷ [] };
  field = "";
  details = missing;
  cluster = cluster_target;
  namespace = "db.c";
  mismatch_history = no_history;
  data_size = 40;
  src_timestamp = none;
  dst_timestamp = none;
}

abbrev two_reports : List ReportEvent
two_reports =
    report (record { problems = missing_doc 1 ∷ []; doc_count = 2; byte_count = 50 }) whole whole
    ∷ report (record { problems = []; doc_count = 3; byte_count = 10 }) whole whole
    ∷ []

abbrev pub start : Metadata
start = record {
  tasks = doc_task ∷ [];
  queue = [];
  mismatches = [];
  src_last_rechecked_ts = record { t = 0; i = 0 };
  dst_last_rechecked_ts = record { t = 0; i = 0 };
}

abbrev judged : Task
judged = record doc_task {
  status = failed;
  found_source_documents_count = 5;
  source_bytes_count = 60;
}

abbrev recheck : Doc
recheck = record {
  src_database_name = "db";
  src_collection_name = "c";
  document_id = record { ty = 16; value = 1 ∷ [] };
  data_size = 40;
  change_op_time = none;
  from_dst = false;
  first_mismatch_time = some 0;
}

abbrev finished : Metadata
finished = record start {
  tasks = judged ∷ [];
  queue = (1, recheck ∷ []) ∷ [];
  mismatches = mismatch_info doc_task (missing_doc 1) ∷ [];
}

finishes :
    process_verify_task (λ d. 80) 0 false doc_task answered two_reports start
    ≡ (ok judged, finished)
unfolding process_verify_task read_reports persist_problems judge_task record_mismatches
    insert_failed_compare_recheck_docs insert_recheck_docs split_namespace update_verification_task
    send_update
finishes = refl

process_verify_task-IsReported_example :
    IsReported (λ d. 80) 0 false doc_task two_reports start judged finished
process_verify_task-IsReported_example =
    process_verify_task-IsReported (λ d. 80) 0 false doc_task answered two_reports start judged
      finished finishes

task_is_there : any_task (has_key doc_task.primary_key) start.tasks ≡ true
unfolding any_task
task_is_there = refl

process_verify_task-EndsWell_example :
    (task' : Task) × (m' : Metadata) × (process_verify_task
        (λ d. 80)
        0
        false
        doc_task
        answered
        two_reports
        start
      ≡ (ok task', m'))
process_verify_task-EndsWell_example =
    process_verify_task-EndsWell (λ d. 80) 0 false doc_task two_reports start (refl, refl, tt)
      task_is_there

-- The context ends after a report with a problem.
abbrev interrupted_reports : List ReportEvent
interrupted_reports =
    report (record { problems = missing_doc 1 ∷ []; doc_count = 2; byte_count = 50 }) whole whole
    ∷ context_done
    ∷ []

abbrev after_interruption : Metadata
after_interruption = record finished { tasks = start.tasks }

is_interrupted :
    process_verify_task (λ d. 80) 0 false doc_task answered interrupted_reports start
    ≡ (err canceled, after_interruption)
unfolding process_verify_task read_reports persist_problems record_mismatches
    insert_failed_compare_recheck_docs insert_recheck_docs split_namespace
is_interrupted = refl

process_verify_task-IsRead_example :
    IsRead false 0 two_reports
    × (answered ≡ answered)
    × (any_task (has_key doc_task.primary_key) start.tasks ≡ true)
process_verify_task-IsRead_example =
    process_verify_task-IsRead (λ d. 80) 0 false doc_task answered two_reports start finished judged
      finishes

abbrev two_attempts : List Attempt
two_attempts =
    record { clears = true; events = interrupted_reports; update_reply = answered }
    ∷ record { clears = true; events = two_reports; update_reply = answered }
    ∷ []

-- The document is queued twice, but is one mismatch.
abbrev after_retry : Metadata
after_retry = record finished { queue = (1, recheck ∷ []) ∷ (1, recheck ∷ []) ∷ [] }

is_retried :
    process_document_task (λ d. 80) 0 false (λ e. true) doc_task two_attempts start
    ≡ (ok judged, after_retry)
unfolding process_document_task process_attempts attempt_task clear_mismatches_if_retrying_task
    process_verify_task read_reports persist_problems judge_task record_mismatches
    insert_failed_compare_recheck_docs insert_recheck_docs split_namespace update_verification_task
    send_update mismatch_info clear_mismatches_for_task
is_retried = refl

process_document_task-Leaves_example : Leaves doc_task [] two_attempts after_retry
process_document_task-Leaves_example =
    process_document_task-Leaves (λ d. 80) 0 false (λ e. true) doc_task two_attempts start
      after_retry judged refl (refl, (refl, tt)) is_retried
