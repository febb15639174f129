-- ===== src/Events/Recorder.antt =====
-- event_recorder.go, parsed_event.go's event, and addToEventCounts of change_reader.go.
use migration_verifier_docdb.Base.{ℕ, suc, ◌+◌, Bool, true, false, Option, none, some, List, String}
use migration_verifier_docdb.Base.Text.{text_dec}
use migration_verifier_docdb.Base.Dict.{lookup, insert}
use migration_verifier_docdb.Bson.{Timestamp}
use migration_verifier_docdb.Compare.{RawValue}
use migration_verifier_docdb.Recheck.{namespace_of}

-- The operation types that the program names, and any other.
pub data OpType : Type 0 where
  insert_op update_op replace_op delete_op create_op modify_op create_indexes_op : OpType
  drop_indexes_op shard_collection_op reshard_collection_op refine_shard_key_op : OpType
  unknown_op : String → OpType

pub record Namespace : Type 0 where
  pub db : String
  pub coll : String

-- ParsedEvent; of the full document, its length.
pub record ParsedEvent : Type 0 where
  pub op_type : OpType
  pub ns : Option Namespace
  pub doc_id : Option RawValue
  pub full_document : Option ℕ
  pub full_doc_len : Option ℕ
  pub cluster_time : Option Timestamp

-- api.ChangeEventCounts.
pub record ChangeEventCounts : Type 0 where
  pub inserts : ℕ
  pub updates : ℕ
  pub replaces : ℕ
  pub deletes : ℕ
  pub creates : ℕ
  pub modifies : ℕ
  pub create_indexes : ℕ
  pub drop_indexes : ℕ
  pub shard_collections : ℕ
  pub reshard_collections : ℕ
  pub refine_shard_keys : ℕ

abbrev pub no_counts : ChangeEventCounts
no_counts = record {
  inserts = 0;
  updates = 0;
  replaces = 0;
  deletes = 0;
  creates = 0;
  modifies = 0;
  create_indexes = 0;
  drop_indexes = 0;
  shard_collections = 0;
  reshard_collections = 0;
  refine_shard_keys = 0;
}

-- The switch that AddEvent and addToEventCounts share; the second part says whether the type is
-- known.
unfoldable pub count_event : OpType → ChangeEventCounts → ChangeEventCounts × Bool
count_event insert_op c = (record c { inserts = suc c.inserts }, true)
count_event update_op c = (record c { updates = suc c.updates }, true)
count_event replace_op c = (record c { replaces = suc c.replaces }, true)
count_event delete_op c = (record c { deletes = suc c.deletes }, true)
count_event create_op c = (record c { creates = suc c.creates }, true)
count_event modify_op c = (record c { modifies = suc c.modifies }, true)
count_event create_indexes_op c = (record c { create_indexes = suc c.create_indexes }, true)
count_event drop_indexes_op c = (record c { drop_indexes = suc c.drop_indexes }, true)
count_event shard_collection_op c = (record c { shard_collections = suc c.shard_collections }, true)
count_event reshard_collection_op c =
    (record c { reshard_collections = suc c.reshard_collections }, true)
count_event refine_shard_key_op c = (record c { refine_shard_keys = suc c.refine_shard_keys }, true)
count_event (unknown_op s) c = (c, false)

-- ChangeEventCounts.CountDDL and ChangeEventCounts.Total.
unfoldable pub count_ddl : ChangeEventCounts → ℕ
count_ddl c =
    c.creates + c.modifies + c.create_indexes + c.drop_indexes + c.shard_collections
    + c.reshard_collections + c.refine_shard_keys

unfoldable pub total_events : ChangeEventCounts → ℕ
unfolding count_ddl
total_events c = c.inserts + c.updates + c.replaces + c.deletes + count_ddl c

abbrev pub EventRecorder : Type 0
EventRecorder = List (String × ChangeEventCounts)

pub data EventError : Type 0 where
  no_event_namespace : EventError
  unknown_op_type : String → EventError

abbrev counts_or_zero : Option ChangeEventCounts → ChangeEventCounts
counts_or_zero none = no_counts
counts_or_zero (some c) = c

abbrev error_unless : Bool → EventError → Option EventError
error_unless true e = none
error_unless false e = some e

abbrev name_of : OpType → String
name_of (unknown_op s) = s
name_of _ = ""

-- AddEvent: the error if there is one, and the recorder, which has an entry for the namespace even
-- where the type is unknown.
unfoldable pub add_event : ParsedEvent → EventRecorder → Option EventError × EventRecorder
unfolding count_event
add_event e m = elim e.ns [
  | none ↦ (some no_event_namespace, m)
  | some ns ↦
      let key = namespace_of ns.db ns.coll in
      let (counts, known) = count_event e.op_type (counts_or_zero (lookup text_dec key m)) in
      (error_unless known (unknown_op_type (name_of e.op_type)), insert text_dec key counts m)
]

-- addToEventCounts: a type that is not known is not counted.
unfoldable pub add_to_event_counts : OpType → ChangeEventCounts → ChangeEventCounts
unfolding count_event
add_to_event_counts op c = (count_event op c).0
