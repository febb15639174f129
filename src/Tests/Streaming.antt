-- ===== src/Tests/Streaming.antt =====
-- A batch of change events of the destination, whose namespaces are mapped.
use migration_verifier_docdb.Base.Text.{text_dec}
use migration_verifier_docdb.Base.Dict.{lookup}
use migration_verifier_docdb.Base.{
  ℕ, ◌≡◌, refl, Option, none, some, List, [], ◌∷◌, String, Outcome, ok, err,
}
use migration_verifier_docdb.Recheck.{Doc, dst}
use migration_verifier_docdb.Events.{
  OpType, insert_op, delete_op, ParsedEvent, ChangeEventCounts, no_counts, EventRecorder,
  PersistError, Origin, persist_change_events,
}
use migration_verifier_docdb.Events.Named.{AreRows}
use migration_verifier_docdb.Events.Rows.{Row}
use migration_verifier_docdb.Events.Rechecks.{IsSent, persist_change_events-IsSent}

abbrev event : OpType → String → ℕ → ParsedEvent
event op db n = record {
  op_type = op;
  ns = some (record { db = db; coll = "y" });
  doc_id = some (record { ty = 16; value = n ∷ [] });
  full_document = none;
  full_doc_len = none;
  cluster_time = some (record { t = 7; i = n });
}

abbrev origin : Origin
origin = record {
  cluster = dst;
  ns_map = record { src_dst_ns_map = ("a.x", "b.y") ∷ []; dst_src_ns_map = ("b.y", "a.x") ∷ [] };
  meta_db_name = "meta";
  generation = 3;
  doc_size = λ d. 90;
}

-- The second event is in the metadata database.
abbrev batch : List ParsedEvent
batch = event insert_op "b" 1 ∷ event insert_op "meta" 2 ∷ event delete_op "b" 3 ∷ []

abbrev Persisted : Type 0
Persisted = (ChangeEventCounts × EventRecorder) × Option (ℕ × List (List Doc))

abbrev persisted_or_none : Outcome PersistError Persisted → Persisted
persisted_or_none (ok p) = p
persisted_or_none (err e) = ((no_counts, []), none)

unfoldable persisted : Persisted
unfolding persist_change_events
persisted = persisted_or_none (persist_change_events origin batch (no_counts, []))

persists : persist_change_events origin batch (no_counts, []) ≡ ok (persisted.0, persisted.1)
unfolding persist_change_events persisted text_dec lookup
persists = refl

persist_change_events-IsSent_example :
    (rows : List Row) × AreRows origin batch rows × IsSent origin rows persisted.1
persist_change_events-IsSent_example =
    persist_change_events-IsSent origin batch (no_counts, []) persisted.0 persisted.1 persists
