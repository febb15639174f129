-- ===== src/Tests/Verifying.antt =====
-- Tasks of a verifier that was interrupted, and rechecks of two documents.
use migration_verifier_docdb.Base.Text.{text_dec}
use migration_verifier_docdb.Base.{
  ℕ_discrete, ℕ, ◌≡◌, ◌≢◌, refl, true, false, Option, none, some, List, [], ◌∷◌, String, Outcome,
  ok, err, length, All,
}
use migration_verifier_docdb.Bson.{bytes_dec, Timestamp}
use migration_verifier_docdb.Compare.{RawValue}
use migration_verifier_docdb.Tasks.{
  TaskType, verify_collection, verify_documents, primary, Status, added, processing, completed,
  Task, Tasks, is_in_progress, reset_in_progress_tasks,
}
use migration_verifier_docdb.Tasks.InProgress.{None}
use migration_verifier_docdb.Tasks.Rollback.{reset_in_progress_tasks-None}
use migration_verifier_docdb.Tasks.Claim.{ClaimOutcome, find_next_verify_task_and_update-claims}
use migration_verifier_docdb.Recheck.{
  Doc, dst, insert_recheck_docs, recheck_docs, is_dst, Settings, RecheckError,
  generate_recheck_tasks,
}
use migration_verifier_docdb.Recheck.Batches.{concat, IsBounded, insert_recheck_docs-requests}
use migration_verifier_docdb.Recheck.Persisted.{distinct, requests_entries}
use migration_verifier_docdb.Recheck.Bounds.{
  IsBoundedRequest, generate_recheck_tasks-IsBoundedRequest,
}
use migration_verifier_docdb.Recheck.Covers.{generate_recheck_tasks-covers}

abbrev task : ℕ → TaskType → Status → Option ℕ → Task
task key ty st g = record {
  primary_key = key;
  task_type = ty;
  status = st;
  generation = g;
  begin_time = none;
  ids = [];
  query_filter = record {
    partition = none;
    shard_keys = [];
    namespace = "db.coll";
    to = "db.coll";
  };
  documents_count = 0;
  found_source_documents_count = 0;
  source_bytes_count = 0;
  first_mismatch_time = [];
  src_timestamp = none;
  dst_timestamp = none;
}

-- A collection task was being partitioned: one of its document tasks is there.
abbrev interrupted : Tasks
interrupted =
    task 1 primary completed none
    ∷ task 2 verify_collection processing (some 0)
    ∷ task 3 verify_documents processing (some 0)
    ∷ []

abbrev rolled_back : Tasks
rolled_back = task 1 primary completed none ∷ task 2 verify_collection added (some 0) ∷ []

rolls_back : reset_in_progress_tasks 0 interrupted ≡ ok rolled_back
unfolding reset_in_progress_tasks text_dec
rolls_back = refl

documents≢primary : verify_documents ≢ primary
documents≢primary h = cc

reset_in_progress_tasks-None_example : None (is_in_progress verify_documents) rolled_back
reset_in_progress_tasks-None_example =
    reset_in_progress_tasks-None verify_documents 0 interrupted rolled_back documents≢primary
      rolls_back

find_next_verify_task_and_update-claims_example : ClaimOutcome 0 7 rolled_back
find_next_verify_task_and_update-claims_example =
    find_next_verify_task_and_update-claims 0 7 rolled_back

abbrev id : ℕ → RawValue
id n = record { ty = 16; value = n ∷ [] }

abbrev stamp : Timestamp
stamp = record { t = 5; i = 1 }

abbrev changed : ℕ → Doc
changed n = record {
  src_database_name = "db";
  src_collection_name = "coll";
  document_id = id n;
  data_size = 100;
  change_op_time = some stamp;
  from_dst = true;
  first_mismatch_time = none;
}

sent :
    insert_recheck_docs
      (λ d. 80)
      0
      ("db" ∷ "db" ∷ [])
      ("coll" ∷ "coll" ∷ [])
      (id 1 ∷ id 2 ∷ [])
      (100 ∷ 100 ∷ [])
      []
      (some dst)
      (stamp ∷ stamp ∷ [])
    ≡ ok (1, (changed 1 ∷ changed 2 ∷ []) ∷ [])
unfolding insert_recheck_docs
sent = refl

abbrev one : ℕ
one = 1

abbrev db_names : List String
db_names = "db" ∷ "db" ∷ []

insert_recheck_docs-requests_example :
    (one ≡ 1)
    × (recheck_docs
          (is_dst (some dst))
          0
          ("db" ∷ "db" ∷ [])
          ("coll" ∷ "coll" ∷ [])
          (id 1 ∷ id 2 ∷ [])
          (100 ∷ 100 ∷ [])
          []
          (stamp ∷ stamp ∷ [])
        ≡ ok (concat ((changed 1 ∷ changed 2 ∷ []) ∷ [])))
    × (length (concat ((changed 1 ∷ changed 2 ∷ []) ∷ [])) ≡ length db_names)
    × All IsBounded ((changed 1 ∷ changed 2 ∷ []) ∷ [])
insert_recheck_docs-requests_example =
    insert_recheck_docs-requests (λ d. 80) 0 1 ("db" ∷ "db" ∷ []) ("coll" ∷ "coll" ∷ [])
      (id 1 ∷ id 2 ∷ []) (100 ∷ 100 ∷ []) [] (some dst) (stamp ∷ stamp ∷ [])
      ((changed 1 ∷ changed 2 ∷ []) ∷ []) sent

abbrev settings : Settings
settings = record {
  ns_map = record { src_dst_ns_map = []; dst_src_ns_map = [] };
  generation = 1;
  partition_size_in_bytes = 150;
  new_id = λ n. n;
  task_size = λ t. 200;
}

abbrev queue : List Doc
queue = changed 1 ∷ changed 1 ∷ changed 2 ∷ changed 3 ∷ []

abbrev requests_or_none : Outcome RecheckError (List (List Task)) → List (List Task)
requests_or_none (ok rs) = rs
requests_or_none (err e) = []

unfoldable requests_of : List Doc → List (List Task)
unfolding generate_recheck_tasks
requests_of ds = requests_or_none (generate_recheck_tasks settings ds false)

generated : generate_recheck_tasks settings queue false ≡ ok (requests_of queue)
unfolding generate_recheck_tasks requests_of text_dec bytes_dec ℕ_discrete
generated = refl

generate_recheck_tasks-covers_example :
    requests_entries (requests_of queue) ≡ distinct "" "" none queue
generate_recheck_tasks-covers_example =
    generate_recheck_tasks-covers settings queue (requests_of queue) generated

generate_recheck_tasks-IsBoundedRequest_example : All IsBoundedRequest (requests_of queue)
generate_recheck_tasks-IsBoundedRequest_example =
    generate_recheck_tasks-IsBoundedRequest settings queue (requests_of queue) generated
