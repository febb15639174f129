-- ===== src/Tasks/Types.antt =====
-- tasks/task.go and tasks/query_filter.go: the tasks that the metadata database holds.
use migration_verifier_docdb.Base.{
  ℕ, Bool, true, false, Option, none, some, List, [], ◌∷◌, String, if◌then◌else◌, ltb, ◌==◌, holds,
  ◌||◌,
}
use migration_verifier_docdb.Base.Text.{text_dec}
use migration_verifier_docdb.Bson.{Timestamp}
use migration_verifier_docdb.Compare.{RawValue}

pub data TaskType : Type 0 where
  process_recheck_queue verify_collection verify_documents primary : TaskType

pub data Status : Type 0 where
  added processing completed failed metadata_mismatch : Status

pub TaskType-discrete : Discrete TaskType
TaskType-discrete = hlevel

abbrev pub same_type : TaskType → TaskType → Bool
same_type process_recheck_queue process_recheck_queue = true
same_type verify_collection verify_collection = true
same_type verify_documents verify_documents = true
same_type primary primary = true
same_type _ _ = false

abbrev pub same_status : Status → Status → Bool
same_status added added = true
same_status processing processing = true
same_status completed completed = true
same_status failed failed = true
same_status metadata_mismatch metadata_mismatch = true
same_status _ _ = false

-- The order of the types' names, by which workers take tasks.
abbrev pub rank : TaskType → ℕ
rank primary = 0
rank process_recheck_queue = 1
rank verify_collection = 2
rank verify_documents = 3

-- tasks.QueryFilter. The partition of a document task is known by its two bounds.
pub record QueryFilter : Type 0 where
  pub partition : Option (RawValue × RawValue)
  pub shard_keys : List String
  pub namespace : String
  pub to : String

-- tasks.Task, and the time `begin_time` that a claim sets. The primary task has no generation.
pub record Task : Type 0 where
  pub primary_key : ℕ
  pub task_type : TaskType
  pub status : Status
  pub generation : Option ℕ
  pub begin_time : Option ℕ
  pub ids : List RawValue
  pub query_filter : QueryFilter
  pub documents_count : ℕ
  pub found_source_documents_count : ℕ
  pub source_bytes_count : ℕ
  pub first_mismatch_time : List (ℕ × ℕ)
  pub src_timestamp : Option Timestamp
  pub dst_timestamp : Option Timestamp

-- QueryFilter.GetDocKeyFields: the ID comes first unless the shard key has it.
abbrev contains : String → List String → Bool
contains k [] = false
contains k (j ∷ js) = holds (text_dec j k) || contains k js

unfoldable pub get_doc_key_fields : QueryFilter → List String
get_doc_key_fields qf =
    if contains "_id" qf.shard_keys then qf.shard_keys else "_id" ∷ qf.shard_keys

-- QueryFilter.DstNamespace.
unfoldable pub dst_namespace : QueryFilter → String
dst_namespace qf = if holds (text_dec qf.to "") then qf.namespace else qf.to

-- Task.IsRecheck.
unfoldable pub is_recheck : Task → Bool
is_recheck t = elim t.generation [ none ↦ false | some g ↦ ltb 0 g ]

abbrev pub in_generation : ℕ → Task → Bool
in_generation g t = elim t.generation [ none ↦ false | some h ↦ h == g ]
