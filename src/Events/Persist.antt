-- ===== src/Events/Persist.antt =====
-- PersistChangeEvents of recheck_persist.go, and SplitNamespace of mmongo/namespace.go.
use Prim.Native.String.{find as find_text, slice, len as text_len}
use migration_verifier_docdb.Base.{
  ℕ, suc, Bool, true, false, not, Option, none, some, List, [], ◌∷◌, ◌++◌, String, if◌then◌else◌,
  ltb, ◌==◌, ◌&&◌, ◌||◌, Outcome, ok, err, ◌>>=◌, holds, length,
}
use migration_verifier_docdb.Base.Text.{text_dec}
use migration_verifier_docdb.Base.Words.{int32}
use migration_verifier_docdb.Bson.{Timestamp}
use migration_verifier_docdb.Compare.{RawValue}
use migration_verifier_docdb.NsMap.{NsMap, get_src_namespace}
use migration_verifier_docdb.Recheck.{
  Doc, WhichCluster, src, dst, QueuePanic, insert_recheck_docs, is_empty, namespace_of,
}
use migration_verifier_docdb.Events.Recorder.{
  OpType, insert_op, update_op, replace_op, delete_op, unknown_op, Namespace, ParsedEvent,
  ChangeEventCounts, EventRecorder, EventError, add_event, add_to_event_counts,
}

abbrev pub default_user_document_size : ℕ
default_user_document_size = 1024

-- SplitNamespace: at the first dot, if there is one.
unfoldable pub split_namespace : String → String × String
split_namespace ns =
    let dot = find_text ns "." in
    if ltb (text_len ns) dot then (ns, "") else (slice ns 0 dot, slice ns (suc dot) (text_len ns))

-- allowedSrcDDLOpTypes.
unfoldable pub is_allowed_ddl : OpType → Bool
is_allowed_ddl insert_op = false
is_allowed_ddl update_op = false
is_allowed_ddl replace_op = false
is_allowed_ddl delete_op = false
is_allowed_ddl (unknown_op s) = false
is_allowed_ddl _ = true

-- Errors, and the panics of an assertion, of a nil pointer and of insertRecheckDocs.
pub data PersistError : Type 0 where
  event_error : EventError → PersistError
  no_source_namespace : String → PersistError
  ddl_not_allowed nil_pointer : PersistError
  queue_panic : QueuePanic → PersistError

-- What the function reads of the verifier and of the reader.
pub record Origin : Type 0 where
  pub cluster : WhichCluster
  pub ns_map : NsMap
  pub meta_db_name : String
  pub generation : ℕ
  pub doc_size : Doc → ℕ

-- The reader's counts and recorder, and the function's slices.
pub record Slices : Type 0 where
  pub counts : ChangeEventCounts
  pub recorder : EventRecorder
  pub db_names : List String
  pub coll_names : List String
  pub doc_ids : List RawValue
  pub data_sizes : List ℕ
  pub op_times : List Timestamp

abbrev pub is_src : WhichCluster → Bool
is_src src = true
is_src dst = false

abbrev pub or_zero_length : Option ℕ → ℕ
or_zero_length none = 0
or_zero_length (some n) = n

-- The size of the event's document.
unfoldable pub event_data_size : ParsedEvent → ℕ
event_data_size e =
    if ltb 0 (or_zero_length e.full_doc_len)
    then int32 (or_zero_length e.full_doc_len)
    else (elim e.full_document [ none ↦ default_user_document_size | some n ↦ int32 n ])

-- The source namespace of a document event; none if the event is in the metadata database.
unfoldable pub source_namespace :
    Origin → Namespace → Outcome PersistError (Option (String × String))
unfolding split_namespace get_src_namespace
source_namespace o ns =
    if is_src o.cluster || length o.ns_map.src_dst_ns_map == 0
    then ok (some (ns.db, ns.coll))
    else if holds (text_dec ns.db o.meta_db_name)
    then ok none
    else elim (get_src_namespace o.ns_map (namespace_of ns.db ns.coll)) [
      | none ↦ err (no_source_namespace (namespace_of ns.db ns.coll))
      | some s ↦ ok (some (split_namespace s))
    ]

-- The end of the loop's body: the event is recorded and goes into the slices.
unfoldable pub append_event :
    ParsedEvent → RawValue → String × String → Slices → Outcome PersistError Slices
unfolding add_event event_data_size
append_event e id (db, coll) s =
    let (failure, recorder) = add_event e s.recorder in
    elim failure [
      | some f ↦ err (event_error f)
      | none ↦ elim e.cluster_time [
        | none ↦ err nil_pointer
        | some ts ↦ ok (record s {
          recorder = recorder;
          db_names = s.db_names ++ db ∷ [];
          coll_names = s.coll_names ++ coll ∷ [];
          doc_ids = s.doc_ids ++ id ∷ [];
          data_sizes = s.data_sizes ++ event_data_size e ∷ [];
          op_times = s.op_times ++ ts ∷ [];
        })
      ]
    ]

-- The part of the loop's body for an event with a document ID.
unfoldable pub add_document_event :
    Origin → ParsedEvent → RawValue → Slices → Outcome PersistError Slices
unfolding source_namespace append_event
add_document_event o e id s = elim e.ns [
  | none ↦ err nil_pointer
  | some ns ↦ source_namespace o ns >>= λ found. elim found [
    | none ↦ ok s
    | some names ↦ append_event e id names s
  ]
]

-- The loop's body.
unfoldable pub handle_event : Origin → ParsedEvent → Slices → Outcome PersistError Slices
unfolding add_to_event_counts add_document_event is_allowed_ddl
handle_event o e s =
    let s' = record s { counts = add_to_event_counts e.op_type s.counts } in
    elim e.doc_id [
      | none ↦
          if is_src o.cluster && not (is_allowed_ddl e.op_type) then err ddl_not_allowed else ok s'
      | some id ↦ add_document_event o e id s'
    ]

unfoldable pub handle_events : Origin → List ParsedEvent → Slices → Outcome PersistError Slices
unfolding handle_event
handle_events o [] s = ok s
handle_events o (e ∷ es) s = handle_event o e s >>= λ s'. handle_events o es s'

abbrev pub queue_or_panic : {A : Type 0} → Outcome QueuePanic A → Outcome PersistError A
queue_or_panic (ok a) = ok a
queue_or_panic (err p) = err (queue_panic p)

-- PersistChangeEvents: the reader's counts and recorder after it, and the requests to the queue of
-- a generation, if there are any.
unfoldable pub persist_change_events :
    Origin
    → List ParsedEvent
    → ChangeEventCounts × EventRecorder
    → Outcome PersistError ((ChangeEventCounts × EventRecorder) × Option (ℕ × List (List Doc)))
unfolding handle_events insert_recheck_docs
persist_change_events o es (counts, recorder) =
    handle_events o es (record {
      counts = counts;
      recorder = recorder;
      db_names = [];
      coll_names = [];
      doc_ids = [];
      data_sizes = [];
      op_times = [];
    })
    >>= λ s.
        if is_empty s.doc_ids
        then ok ((s.counts, s.recorder), none)
        else (queue_or_panic (
              insert_recheck_docs o.doc_size o.generation s.db_names s.coll_names s.doc_ids
                s.data_sizes [] (some o.cluster) s.op_times)
            >>= λ sent. ok ((s.counts, s.recorder), some sent))
