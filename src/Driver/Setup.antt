-- ===== src/Driver/Setup.antt =====
-- What CheckDriver does before the generations: the persisted generation, the last-rechecked times and
-- the initial tasks.
use migration_verifier_docdb.Base.{
  ℕ, suc, Bool, true, false, not, Option, none, some, List, [], ◌∷◌, ◌++◌, String, if◌then◌else◌,
  ◌==◌, ◌&&◌, ◌||◌, ltb, Outcome, ok, err, holds, length,
}
use migration_verifier_docdb.Base.Text.{text_dec}
use migration_verifier_docdb.Bson.{Timestamp, after}
use migration_verifier_docdb.NsMap.{NsMap}
use migration_verifier_docdb.Recheck.{WhichCluster, src, dst, is_empty}
use migration_verifier_docdb.Tasks.{
  Task, Tasks, TaskError, completed, failed, verify_documents, same_type, same_status,
  create_primary_task_if_needed, update_primary_task_complete, insert_collection_verification_task,
}

-- generationDoc.
pub record GenerationDoc : Type 0 where
  pub generation : ℕ
  pub metadata_version : ℕ
  pub source_change_reader_opt : String
  pub destination_change_reader_opt : String

-- What a driver does not change. `keys` gives the IDs of new tasks.
pub record DriverSettings : Type 0 where
  pub start_clean : Bool
  pub verify_all : Bool
  pub metadata_version : ℕ
  pub src_change_reader_method : String
  pub dst_change_reader_method : String
  pub ns_map : NsMap
  pub keys : ℕ → ℕ

-- The errors of CheckDriver. In a `deadlock` it waits for its own lock.
pub data DriverError : Type 0 where
  metadata_unreadable setup_failed preflight_failed readers_failed : DriverError
  metadata_mismatch_err : ℕ → DriverError
  change_reader_opt_mismatch_err : WhichCluster → DriverError
  namespaces_do_not_match : DriverError
  tasks_failed : TaskError → DriverError
  persist_failed persist_panicked worker_failed handling_failed canceled recheck_task_failed
        deadlock :
      DriverError

-- The fields of the verifier that the driver changes, and the metadata. `locked` says that it holds the
-- verifier's lock.
pub record Driver : Type 0 where
  pub locked : Bool
  pub running : Bool
  pub writes_off : Bool
  pub last_generation : Bool
  pub generation : ℕ
  pub src_namespaces : List String
  pub dst_namespaces : List String
  pub src_last_rechecked_ts : Timestamp
  pub dst_last_rechecked_ts : Timestamp
  pub persisted : Option GenerationDoc
  pub tasks : Tasks

-- persistGenerationWhileLocked, when it succeeds.
unfoldable pub persist_generation : DriverSettings → Driver → Driver
persist_generation s d = record d {
  persisted = some (record {
    generation = d.generation;
    metadata_version = s.metadata_version;
    source_change_reader_opt = s.src_change_reader_method;
    destination_change_reader_opt = s.dst_change_reader_method;
  });
}

abbrev checked_generation : DriverSettings → GenerationDoc → Outcome DriverError (Option ℕ)
checked_generation s doc =
    if not (doc.metadata_version == s.metadata_version)
    then err (metadata_mismatch_err doc.metadata_version)
    else if not (holds (text_dec doc.source_change_reader_opt s.src_change_reader_method))
    then err (change_reader_opt_mismatch_err src)
    else if not (holds (text_dec doc.destination_change_reader_opt s.dst_change_reader_method))
    then err (change_reader_opt_mismatch_err dst)
    else ok (some doc.generation)

-- readGeneration: whether the metadata can be read, and the document that is there.
unfoldable pub read_generation :
    DriverSettings → Bool → Option GenerationDoc → Outcome DriverError (Option ℕ)
read_generation s false doc = err metadata_unreadable
read_generation s true none = ok none
read_generation s true (some doc) = checked_generation s doc

-- The filter of recallLastRecheckedOpTimes, but for the timestamp.
abbrev pub is_rechecked : Task → Bool
is_rechecked t =
    elim t.generation as (λ x. Bool) [ none ↦ false | some g ↦ ltb 0 g ]
    && same_type t.task_type verify_documents
    && (same_status t.status completed || same_status t.status failed)

abbrev pub later : Option Timestamp → Option Timestamp → Option Timestamp
later none r = r
later (some t) none = some t
later (some t) (some u) = if after u t then some u else some t

-- The latest timestamp of such tasks: the first in the descending order.
unfoldable pub latest_rechecked : (Task → Option Timestamp) → Tasks → Option Timestamp
latest_rechecked ts [] = none
latest_rechecked ts (t ∷ rest) =
    let r = latest_rechecked ts rest in if is_rechecked t then later (ts t) r else r

abbrev or_kept : Timestamp → Option Timestamp → Timestamp
or_kept t none = t
or_kept t (some u) = u

-- recallLastRecheckedOpTimes.
unfoldable pub recall_last_rechecked_optimes : Driver → Driver
unfolding latest_rechecked
recall_last_rechecked_optimes d = if d.generation == 0 then d else (record d {
  src_last_rechecked_ts =
      or_kept d.src_last_rechecked_ts (latest_rechecked (λ t. t.src_timestamp) d.tasks);
  dst_last_rechecked_ts =
      or_kept d.dst_last_rechecked_ts (latest_rechecked (λ t. t.dst_timestamp) d.tasks);
})

abbrev pub is_listed : String → List String → Bool
is_listed s [] = false
is_listed s (t ∷ ts) = holds (text_dec t s) || is_listed s ts

-- setupAllNamespaceList, of the namespaces that the clusters list.
unfoldable pub setup_all_namespace_list : List String → List String → List String
setup_all_namespace_list srcs [] = srcs
setup_all_namespace_list srcs dsts = srcs ++ unlisted dsts
  where
    unlisted : List String → List String
    unlisted [] = []
    unlisted (t ∷ ts) = let rest = unlisted ts in if is_listed t srcs then rest else t ∷ rest

-- A step of the driver that may fail: its changes stay.
abbrev pub Step : Type 0
Step = Outcome DriverError (Unit {0}) × Driver

abbrev pub then_do : Step → (Driver → Step) → Step
then_do (err e, d) next = (err e, d)
then_do (ok u, d) next = next d

abbrev pub set_tasks : Driver → Outcome TaskError Tasks → Step
set_tasks d (err e) = (err (tasks_failed e), d)
set_tasks d (ok ts) = (ok tt, record d { tasks = ts })

-- The loop over the source namespaces.
unfoldable pub insert_collection_tasks : DriverSettings → ℕ → List String → Driver → Step
insert_collection_tasks s i [] d = (ok tt, d)
insert_collection_tasks s i (ns ∷ nss) d =
    let next = λ (e : Driver). insert_collection_tasks s (suc i) nss e in
    then_do
      (set_tasks d
        (insert_collection_verification_task s.ns_map (s.keys i) ns d.generation d.tasks))
      next

abbrev pub insert_and_complete : DriverSettings → Driver → Step
insert_and_complete s d =
    then_do (insert_collection_tasks s 1 d.src_namespaces d)
      λ e. set_tasks e (update_primary_task_complete e.tasks)

-- What is done with the answer of CreatePrimaryTaskIfNeeded, given the namespaces that the clusters
-- list.
abbrev pub after_primary :
    DriverSettings → Option (List String × List String) → Driver → Bool × Tasks → Step
after_primary s listed d (false, ts) = (ok tt, record d { tasks = ts })
after_primary s listed d (true, ts) =
    if not s.verify_all then insert_and_complete s (record d { tasks = ts }) else (elim listed [
      | none ↦ (err setup_failed, record d { tasks = ts })
      | some (srcs, dsts) ↦ insert_and_complete s (record d {
        tasks = ts;
        src_namespaces = setup_all_namespace_list srcs dsts;
        dst_namespaces = setup_all_namespace_list srcs dsts;
      })
    ])

abbrev pub create_tasks : DriverSettings → Option (List String × List String) → Driver → Step
create_tasks s listed d =
    after_primary s listed d (create_primary_task_if_needed (s.keys 0) d.tasks)

abbrev pub with_dst : Driver → Driver
with_dst d = if is_empty d.dst_namespaces then record d { dst_namespaces = d.src_namespaces } else d

-- CreateInitialTasksIfNeeded.
unfoldable pub create_initial_tasks_if_needed :
    DriverSettings → Option (List String × List String) → Driver → Step
unfolding insert_collection_tasks setup_all_namespace_list
create_initial_tasks_if_needed s listed d =
    if s.verify_all
    then create_tasks s listed d
    else if is_empty d.src_namespaces
    then (ok tt, d)
    else if not (length d.src_namespaces == length (with_dst d).dst_namespaces)
    then (err namespaces_do_not_match, with_dst d)
    else create_tasks s listed (with_dst d)
