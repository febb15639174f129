-- ===== src/Recheck/Generate.antt =====
-- GenerateRecheckTasks of recheck.go, and util.BSONArraySizer: the queue's documents, in the order of
-- their keys, become document tasks, and the tasks become insert requests.
use migration_verifier_docdb.Base.{
  ℕ, zero, suc, ◌+◌, ◌/◌, Bool, true, false, not, Option, none, some, List, [], ◌∷◌, ◌++◌, String,
  if◌then◌else◌, ltb, leb, ◌==◌, ◌&&◌, ◌||◌, Outcome, ok, err, length, holds, ℕ_discrete,
}
use migration_verifier_docdb.Base.Text.{text_dec}
use migration_verifier_docdb.Base.Dict.{insert, delete}
use migration_verifier_docdb.Bson.{Timestamp, after, bytes_dec}
use migration_verifier_docdb.Compare.{RawValue}
use migration_verifier_docdb.NsMap.{NsMap}
use migration_verifier_docdb.Tasks.{Task, TaskError, create_document_recheck_task}
use migration_verifier_docdb.Recheck.Queue.{Doc, is_empty}
use Prim.Native.String.{◌++◌ as join}

abbrev pub max_tasks_per_request : ℕ
max_tasks_per_request = 500

abbrev pub max_insert_size : ℕ
max_insert_size = 262144

abbrev pub max_recheck_ids_bytes : ℕ
max_recheck_ids_bytes = 1048576

abbrev pub max_recheck_ids : ℕ
max_recheck_ids = 10000

-- The length of a number's decimal form; 19 digits are enough for an int.
abbrev decimal_length : ℕ → ℕ → ℕ
decimal_length zero n = 1
decimal_length (suc fuel) n = elim (ltb n 10) [
  | true ↦ 1
  | false ↦ suc (decimal_length fuel (n / 10))
]

-- util.BSONArraySizer.
pub record BsonArraySizer : Type 0 where
  pub elems_size : ℕ
  pub count : ℕ

unfoldable pub sizer_add : RawValue → BsonArraySizer → BsonArraySizer
sizer_add el b = record {
  elems_size = b.elems_size + (1 + decimal_length 19 b.count + 1 + length el.value);
  count = suc b.count;
}

unfoldable pub sizer_len : BsonArraySizer → ℕ
sizer_len b = 5 + b.elems_size

-- newerTimestamp, and the zero timestamp that stands for none.
unfoldable pub newer_timestamp : Timestamp → Timestamp → Timestamp
newer_timestamp a b = if after a b then a else b

abbrev pub zero_timestamp : Timestamp
zero_timestamp = record { t = 0; i = 0 }

abbrev pub if_not_zero : Timestamp → Option Timestamp
if_not_zero ts = if ts.t == 0 && ts.i == 0 then none else some ts

-- bson.RawValue's Equal, against the last ID if there is one.
abbrev pub is_last_id : RawValue → Option RawValue → Bool
is_last_id a none = false
is_last_id a (some b) = a.ty == b.ty && holds (bytes_dec a.value b.value)

abbrev pub namespace_of : String → String → String
namespace_of db coll = join db (join "." coll)

-- What the function reads of the verifier, the IDs it gives to new tasks, and the lengths of the
-- marshaled tasks.
pub record Settings : Type 0 where
  pub ns_map : NsMap
  pub generation : ℕ
  pub partition_size_in_bytes : ℕ
  pub new_id : ℕ → ℕ
  pub task_size : Task → ℕ

-- The function's variables, and the insert requests so far.
pub record Grouping : Type 0 where
  pub prev_db_name : String
  pub prev_coll_name : String
  pub id_accum : List RawValue
  pub ids_sizer : BsonArraySizer
  pub data_size_accum : ℕ
  pub first_mismatch_time : List (ℕ × ℕ)
  pub latest_src_timestamp : Timestamp
  pub latest_dst_timestamp : Timestamp
  pub last_id : Option RawValue
  pub cur_tasks : List Task
  pub cur_tasks_bytes : ℕ
  pub total_tasks : ℕ
  pub requests : List (List Task)

-- Errors; the second is a panic.
pub data RecheckError : Type 0 where
  task_error : TaskError → RecheckError
  optime_with_mismatch cursor_failed : RecheckError

-- The end of persistBufferedRechecks. The count of bytes goes on from one request to the next.
unfoldable pub buffer_task : Settings → Task → Grouping → Grouping
buffer_task s task g =
    let tasks = g.cur_tasks ++ task ∷ [] in
    let bytes = g.cur_tasks_bytes + s.task_size task in
    if length tasks == max_tasks_per_request || leb max_insert_size bytes
    then (record g {
      cur_tasks = [];
      cur_tasks_bytes = bytes;
      total_tasks = suc g.total_tasks;
      requests = g.requests ++ tasks ∷ [];
    })
    else (record g { cur_tasks = tasks; cur_tasks_bytes = bytes; total_tasks = suc g.total_tasks })

-- persistBufferedRechecks.
unfoldable pub persist_buffered_rechecks : Settings → Grouping → Outcome RecheckError Grouping
unfolding buffer_task create_document_recheck_task
persist_buffered_rechecks s g =
    if is_empty g.id_accum
    then ok g
    else elim (create_document_recheck_task s.ns_map (s.new_id g.total_tasks) s.generation
        g.id_accum g.first_mismatch_time (if_not_zero g.latest_src_timestamp)
        (if_not_zero g.latest_dst_timestamp) (namespace_of g.prev_db_name g.prev_coll_name)) [
          | err e ↦ err (task_error e)
          | ok task ↦ ok (buffer_task s task g)
        ]

abbrev pub is_same_namespace : Doc → Grouping → Bool
is_same_namespace d g =
    holds (text_dec d.src_database_name g.prev_db_name)
    && holds (text_dec d.src_collection_name g.prev_coll_name)

abbrev pub is_same_doc : Doc → Grouping → Bool
is_same_doc d g = is_same_namespace d g && is_last_id d.document_id g.last_id

-- Whether the rechecks so far are persisted before a document that is not the same.
unfoldable pub is_group_over : Settings → Doc → Grouping → Bool
unfolding sizer_len
is_group_over s d g =
    not (is_same_namespace d g)
    || leb max_recheck_ids (length g.id_accum)
    || leb max_recheck_ids_bytes (sizer_len g.ids_sizer)
    || leb s.partition_size_in_bytes g.data_size_accum

-- The variables anew, for the namespace of a document.
unfoldable pub start_group : Doc → Grouping → Grouping
start_group d g = record g {
  prev_db_name = d.src_database_name;
  prev_coll_name = d.src_collection_name;
  ids_sizer = record { elems_size = 0; count = 0 };
  data_size_accum = 0;
  id_accum = [];
  last_id = none;
  first_mismatch_time = [];
  latest_src_timestamp = zero_timestamp;
  latest_dst_timestamp = zero_timestamp;
}

-- The metadata of the document, at an index of the IDs.
unfoldable pub add_metadata : Doc → Bool → ℕ → Grouping → Outcome RecheckError Grouping
unfolding newer_timestamp
add_metadata d same i g = elim d.change_op_time [
  | some optime ↦ elim d.first_mismatch_time [
    | some t ↦ err optime_with_mismatch
    | none ↦ ok (
        if d.from_dst
        then (record g {
          latest_dst_timestamp = newer_timestamp g.latest_dst_timestamp optime;
          first_mismatch_time = delete ℕ_discrete i g.first_mismatch_time;
        })
        else (record g {
          latest_src_timestamp = newer_timestamp g.latest_src_timestamp optime;
          first_mismatch_time = delete ℕ_discrete i g.first_mismatch_time;
        }))
  ]
  | none ↦ elim d.first_mismatch_time [
    | none ↦ ok g
    | some t ↦ ok (
        if same
        then g
        else (record g { first_mismatch_time = insert ℕ_discrete i t g.first_mismatch_time }))
  ]
]

-- The document's own entry.
unfoldable pub add_id : Doc → Grouping → Grouping
unfolding sizer_add
add_id d g = record g {
  last_id = some d.document_id;
  ids_sizer = sizer_add d.document_id g.ids_sizer;
  data_size_accum = g.data_size_accum + d.data_size;
  id_accum = g.id_accum ++ d.document_id ∷ [];
}
