-- ===== src/Events/Rows.antt =====
-- The slices of PersistChangeEvents, as rows.
use migration_verifier_docdb.Base.{
  map-append, ℕ, ◌≡◌, sym, ◌∙◌, ap, subst, Bool, true, false, not, Option, none, some, List, [],
  ◌∷◌, ◌++◌, append-nil, append_assoc, map, String, arith, if◌then◌else◌, ◌&&◌, Outcome, ok, err,
  ◌>>=◌, >>=-eq-ok, ok-injective,
}
use migration_verifier_docdb.Bson.{Timestamp}
use migration_verifier_docdb.Compare.{RawValue}
use migration_verifier_docdb.Events.Recorder.{
  Namespace, ParsedEvent, EventRecorder, EventError, add_event, add_to_event_counts,
}
use migration_verifier_docdb.Events.Persist.{
  PersistError, event_error, nil_pointer, ddl_not_allowed, Origin, Slices, is_src, is_allowed_ddl,
  event_data_size, source_namespace, append_event, add_document_event, handle_event, handle_events,
}

-- A document to recheck: its source namespace, its ID, its size, and the time of its change.
abbrev pub Row : Type 0
Row = String × String × RawValue × ℕ × Timestamp

abbrev pub timed_rows : ParsedEvent → RawValue → String → String → Option Timestamp → List Row
timed_rows e id db coll none = []
timed_rows e id db coll (some ts) = (db, coll, id, event_data_size e, ts) ∷ []

abbrev pub found_rows :
    ParsedEvent → RawValue → Outcome PersistError (Option (String × String)) → List Row
found_rows e id (err f) = []
found_rows e id (ok none) = []
found_rows e id (ok (some (db, coll))) = timed_rows e id db coll e.cluster_time

abbrev pub document_rows : Origin → ParsedEvent → RawValue → Option Namespace → List Row
document_rows o e id none = []
document_rows o e id (some ns) = found_rows e id (source_namespace o ns)

abbrev pub event_rows : Origin → ParsedEvent → Option RawValue → List Row
event_rows o e none = []
event_rows o e (some id) = document_rows o e id e.ns

-- The documents of a batch of events, in order.
abbrev pub rows_of : Origin → List ParsedEvent → List Row
rows_of o [] = []
rows_of o (e ∷ es) = event_rows o e e.doc_id ++ rows_of o es

-- The function's parallel slices hold the fields of some rows.
pub record IsSliced (s : Slices) (rows : List Row) : Type 0 where
  pub dbs : s.db_names ≡ map (λ r. r.0) rows
  pub colls : s.coll_names ≡ map (λ r. r.1) rows
  pub ids : s.doc_ids ≡ map (λ r. r.2) rows
  pub sizes : s.data_sizes ≡ map (λ r. r.3) rows
  pub times : s.op_times ≡ map (λ r. r.4) rows

unchanged : (s : Slices) (rows : List Row) → IsSliced s rows → IsSliced s (rows ++ [])
unchanged s rows h = subst (IsSliced s) (sym (append-nil rows)) h

add_row :
    {A : Type 0} (f : Row → A) (xs : List A) (rows : List Row) (r : Row)
    → xs ≡ map f rows
    → xs ++ f r ∷ [] ≡ map f (rows ++ r ∷ [])
add_row f xs rows r h = ap (λ ys. ys ++ f r ∷ []) h ∙ sym (map-append f rows (r ∷ []))

append_event-IsSliced :
    (e : ParsedEvent) (id : RawValue) (db coll : String) (s s' : Slices) (rows : List Row)
    → IsSliced s rows
    → append_event e id (db, coll) s ≡ ok s'
    → IsSliced s' (rows ++ timed_rows e id db coll e.cluster_time)
unfolding append_event
append_event-IsSliced e id db coll s s' rows h x =
    by_record (add_event e s.recorder) e.cluster_time x
  where
    by_record :
        (p : Option EventError × EventRecorder) (t : Option Timestamp)
        → (elim p.0 as (λ k. Outcome PersistError Slices) [
          | some f ↦ err (event_error f)
          | none ↦ elim t as (λ k. Outcome PersistError Slices) [
            | none ↦ err nil_pointer
            | some ts ↦ ok (record s {
              recorder = p.1;
              db_names = s.db_names ++ db ∷ [];
              coll_names = s.coll_names ++ coll ∷ [];
              doc_ids = s.doc_ids ++ id ∷ [];
              data_sizes = s.data_sizes ++ event_data_size e ∷ [];
              op_times = s.op_times ++ ts ∷ [];
            })
          ]
        ])
          ≡ ok s'
        → IsSliced s' (rows ++ timed_rows e id db coll t)
    by_record (some f, m) t y = absurd (ground arith)
    by_record (none, m) none y = absurd (ground arith)
    by_record (none, m) (some ts) y =
        subst (λ k. IsSliced k (rows ++ (db, coll, id, event_data_size e, ts) ∷ []))
          (ok-injective y)
          (record {
            dbs = add_row (λ r. r.0) _ rows (db, coll, id, event_data_size e, ts) h.dbs;
            colls = add_row (λ r. r.1) _ rows (db, coll, id, event_data_size e, ts) h.colls;
            ids = add_row (λ r. r.2) _ rows (db, coll, id, event_data_size e, ts) h.ids;
            sizes = add_row (λ r. r.3) _ rows (db, coll, id, event_data_size e, ts) h.sizes;
            times = add_row (λ r. r.4) _ rows (db, coll, id, event_data_size e, ts) h.times;
          })

add_document_event-IsSliced :
    (o : Origin) (e : ParsedEvent) (id : RawValue) (s s' : Slices) (rows : List Row)
    → IsSliced s rows
    → add_document_event o e id s ≡ ok s'
    → IsSliced s' (rows ++ document_rows o e id e.ns)
unfolding add_document_event
add_document_event-IsSliced o e id s s' rows h x = by_ns e.ns x
  where
    by_found :
        (f : Outcome PersistError (Option (String × String)))
        → (f >>= λ found. elim found as (λ k. Outcome PersistError Slices) [
          | none ↦ ok s
          | some names ↦ append_event e id names s
        ])
          ≡ ok s'
        → IsSliced s' (rows ++ found_rows e id f)
    by_found (err p) y = absurd (ground arith)
    by_found (ok none) y =
        subst (λ k. IsSliced k (rows ++ [])) (ok-injective y) (unchanged s rows h)
    by_found (ok (some (db, coll))) y = append_event-IsSliced e id db coll s s' rows h y

    by_ns :
        (n : Option Namespace)
        → (elim n as (λ k. Outcome PersistError Slices) [
          | none ↦ err nil_pointer
          | some ns ↦ source_namespace o ns >>= λ found.
              elim found as (λ k. Outcome PersistError Slices) [
                | none ↦ ok s
                | some names ↦ append_event e id names s
              ]
        ])
          ≡ ok s'
        → IsSliced s' (rows ++ document_rows o e id n)
    by_ns none y = absurd (ground arith)
    by_ns (some ns) y = by_found (source_namespace o ns) y

handle_event-IsSliced :
    (o : Origin) (e : ParsedEvent) (s s' : Slices) (rows : List Row)
    → IsSliced s rows
    → handle_event o e s ≡ ok s'
    → IsSliced s' (rows ++ event_rows o e e.doc_id)
unfolding handle_event
handle_event-IsSliced o e s s' rows h x = by_id e.doc_id x
  where
    counted : Slices
    counted = record s { counts = add_to_event_counts e.op_type s.counts }

    counted-IsSliced : IsSliced counted rows
    counted-IsSliced = record {
      dbs = h.dbs;
      colls = h.colls;
      ids = h.ids;
      sizes = h.sizes;
      times = h.times;
    }

    by_test :
        (b : Bool)
        → (if b then err ddl_not_allowed else ok counted) ≡ ok s'
        → IsSliced s' (rows ++ [])
    by_test true y = absurd (ground arith)
    by_test false y =
        subst (λ k. IsSliced k (rows ++ [])) (ok-injective y)
          (unchanged counted rows counted-IsSliced)

    by_id :
        (i : Option RawValue)
        → (elim i as (λ k. Outcome PersistError Slices) [
          | none ↦
              if is_src o.cluster && not (is_allowed_ddl e.op_type)
              then err ddl_not_allowed
              else ok counted
          | some id ↦ add_document_event o e id counted
        ])
          ≡ ok s'
        → IsSliced s' (rows ++ event_rows o e i)
    by_id none y = by_test (is_src o.cluster && not (is_allowed_ddl e.op_type)) y
    by_id (some id) y = add_document_event-IsSliced o e id counted s' rows counted-IsSliced y

pub handle_events-IsSliced :
    (o : Origin) (es : List ParsedEvent) (s s' : Slices) (rows : List Row)
    → IsSliced s rows
    → handle_events o es s ≡ ok s'
    → IsSliced s' (rows ++ rows_of o es)
unfolding handle_events
handle_events-IsSliced o [] s s' rows h x =
    subst (λ k. IsSliced k (rows ++ [])) (ok-injective x) (unchanged s rows h)
handle_events-IsSliced o (e ∷ es) s s' rows h x =
    let (u, p, y) = >>=-eq-ok (handle_event o e s) (λ u. handle_events o es u) x in
    subst (IsSliced s') (append_assoc rows (event_rows o e e.doc_id) (rows_of o es)) (
      handle_events-IsSliced o es u s' (rows ++ event_rows o e e.doc_id)
        (handle_event-IsSliced o e s u rows h p) y)
