-- ===== src/Events/Named.antt =====
-- The documents that a batch of events names, stated without the code's functions, and that the slices
-- of PersistChangeEvents hold them.
use migration_verifier_docdb.Base.{
  ◌≡◌, ◌≢◌, refl, sym, ◌∙◌, false, not, Option, none, some, List, [], ◌∷◌, ◌++◌, String, arith,
  if◌then◌else◌, ◌==◌, ◌&&◌, ◌||◌, Outcome, ok, err, ◌>>=◌, >>=-eq-ok, ok-injective, length, holds,
  subst,
}
use migration_verifier_docdb.Base.Text.{text_dec}
use migration_verifier_docdb.Bson.{Timestamp}
use migration_verifier_docdb.Compare.{RawValue}
use migration_verifier_docdb.NsMap.{get_src_namespace}
use migration_verifier_docdb.Recheck.{WhichCluster, src, dst, namespace_of}
use migration_verifier_docdb.Events.Recorder.{
  Namespace, ParsedEvent, EventRecorder, EventError, add_event, add_to_event_counts,
}
use migration_verifier_docdb.Events.Persist.{
  PersistError, event_error, nil_pointer, ddl_not_allowed, no_source_namespace, Origin, Slices,
  is_src, is_allowed_ddl, event_data_size, split_namespace, source_namespace, append_event,
  add_document_event, handle_event, handle_events,
}
use migration_verifier_docdb.Events.Rows.{
  Row, timed_rows, found_rows, document_rows, event_rows, rows_of,
}

-- The source names of an event's namespace, if the event counts. Those of a source event, or without
-- a namespace map, are the event's own; else an event in the metadata database does not count, and the
-- names of any other are looked up in the map.
pub data Names (o : Origin) (ns : Namespace) : Option (String × String) → Type 0 where
  from_src : o.cluster ≡ src → Names o ns (some (ns.db, ns.coll))
  unmapped : o.ns_map.src_dst_ns_map ≡ [] → Names o ns (some (ns.db, ns.coll))
  in_metadata :
      o.cluster ≡ dst → o.ns_map.src_dst_ns_map ≢ [] → ns.db ≡ o.meta_db_name → Names o ns none
  mapped :
      {s : String}
      → o.cluster ≡ dst
      → o.ns_map.src_dst_ns_map ≢ []
      → ns.db ≢ o.meta_db_name
      → get_src_namespace o.ns_map (namespace_of ns.db ns.coll) ≡ some s
      → Names o ns (some (split_namespace s))

-- The rows of a batch, in order: one for each event with a document ID that counts.
pub data AreRows (o : Origin) : List ParsedEvent → List Row → Type 0 where
  no_rows : AreRows o [] []
  without_id :
      {e : ParsedEvent} {es : List ParsedEvent} {rows : List Row}
      → e.doc_id ≡ none
      → AreRows o es rows
      → AreRows o (e ∷ es) rows
  not_counted :
      {e : ParsedEvent} {es : List ParsedEvent} {rows : List Row} {id : RawValue} {ns : Namespace}
      → e.doc_id ≡ some id
      → e.ns ≡ some ns
      → Names o ns none
      → AreRows o es rows
      → AreRows o (e ∷ es) rows
  counted :
      {e : ParsedEvent} {es : List ParsedEvent} {rows : List Row} {id : RawValue} {ns : Namespace}
      {db coll : String} {ts : Timestamp}
      → e.doc_id ≡ some id
      → e.ns ≡ some ns
      → Names o ns (some (db, coll))
      → e.cluster_time ≡ some ts
      → AreRows o es rows
      → AreRows o (e ∷ es) ((db, coll, id, event_data_size e, ts) ∷ rows)

source_namespace-Names :
    (o : Origin) (ns : Namespace) (f : Option (String × String))
    → source_namespace o ns ≡ ok f
    → Names o ns f
unfolding source_namespace
source_namespace-Names o ns f h = by_cluster o.cluster refl o.ns_map.src_dst_ns_map refl h
  where
    by_map :
        (w : o.cluster ≡ dst) (l : o.ns_map.src_dst_ns_map ≢ []) (n : ns.db ≢ o.meta_db_name)
        (s : Option String)
        → get_src_namespace o.ns_map (namespace_of ns.db ns.coll) ≡ s
        → (elim s as (λ k. Outcome PersistError (Option (String × String))) [
          | none ↦ err (no_source_namespace (namespace_of ns.db ns.coll))
          | some s ↦ ok (some (split_namespace s))
        ])
          ≡ ok f
        → Names o ns f
    by_map w l n none e x = absurd (ground arith)
    by_map w l n (some s) e x = subst (Names o ns) (ok-injective x) (mapped w l n e)

    by_db :
        (w : o.cluster ≡ dst) (l : o.ns_map.src_dst_ns_map ≢ []) (d : Dec (ns.db ≡ o.meta_db_name))
        → (if holds d
            then ok none
            else (elim (get_src_namespace o.ns_map (namespace_of ns.db ns.coll))
                as (λ k. Outcome PersistError (Option (String × String))) [
                  | none ↦ err (no_source_namespace (namespace_of ns.db ns.coll))
                  | some s ↦ ok (some (split_namespace s))
                ]))
          ≡ ok f
        → Names o ns f
    by_db w l (yes p) x = subst (Names o ns) (ok-injective x) (in_metadata w l p)
    by_db w l (no n) x =
        by_map w l n (get_src_namespace o.ns_map (namespace_of ns.db ns.coll)) refl x

    rest : Outcome PersistError (Option (String × String))
    rest =
        if holds (text_dec ns.db o.meta_db_name)
        then ok none
        else (elim (get_src_namespace o.ns_map (namespace_of ns.db ns.coll))
            as (λ k. Outcome PersistError (Option (String × String))) [
              | none ↦ err (no_source_namespace (namespace_of ns.db ns.coll))
              | some s ↦ ok (some (split_namespace s))
            ])

    by_cluster :
        (c : WhichCluster)
        → o.cluster ≡ c
        → (l : List (String × String)) → o.ns_map.src_dst_ns_map ≡ l
        → (if is_src c || length l == 0 then ok (some (ns.db, ns.coll)) else rest) ≡ ok f
        → Names o ns f
    by_cluster src w l k x = subst (Names o ns) (ok-injective x) (from_src w)
    by_cluster dst w [] k x = subst (Names o ns) (ok-injective x) (unmapped k)
    by_cluster dst w (p ∷ l) k x =
        by_db w (λ e. nonempty (sym k ∙ e)) (text_dec ns.db o.meta_db_name) (rw some_pairs at x)
      where
        some_pairs : (length (p ∷ l) == 0) ≡ false
        some_pairs = ground arith

        nonempty : (p ∷ l) ≢ []
        nonempty e = cc

module _ (o : Origin) (e : ParsedEvent) (es : List ParsedEvent) (rows : List Row) where
  appended :
      (id : RawValue) (ns : Namespace) (db coll : String) (s s' : Slices)
      → e.doc_id ≡ some id
      → e.ns ≡ some ns
      → Names o ns (some (db, coll))
      → AreRows o es rows
      → append_event e id (db, coll) s ≡ ok s'
      → AreRows o (e ∷ es) (timed_rows e id db coll e.cluster_time ++ rows)
  unfolding append_event
  appended id ns db coll s s' i n w a x = by_record (add_event e s.recorder) e.cluster_time refl x
    where
      by_record :
          (p : Option EventError × EventRecorder) (t : Option Timestamp)
          → e.cluster_time ≡ t
          → (elim p.0 as (λ k. Outcome PersistError Slices) [
            | some f ↦ err (event_error f)
            | none ↦ elim t as (λ k. Outcome PersistError Slices) [
              | none ↦ err nil_pointer
              | some ts ↦ ok (record s {
                recorder = p.1;
                db_names = s.db_names ++ db ∷ [];
                coll_names = s.coll_names ++ coll ∷ [];
                doc_ids = s.doc_ids ++ id ∷ [];
                data_sizes = s.data_sizes ++ event_data_size e ∷ [];
                op_times = s.op_times ++ ts ∷ [];
              })
            ]
          ])
            ≡ ok s'
          → AreRows o (e ∷ es) (timed_rows e id db coll t ++ rows)
      by_record (some f, m) t c y = absurd (ground arith)
      by_record (none, m) none c y = absurd (ground arith)
      by_record (none, m) (some ts) c y = counted i n w c a

  added :
      (id : RawValue) (s s' : Slices)
      → e.doc_id ≡ some id
      → AreRows o es rows
      → add_document_event o e id s ≡ ok s'
      → AreRows o (e ∷ es) (document_rows o e id e.ns ++ rows)
  unfolding add_document_event
  added id s s' i a x = by_ns e.ns refl x
    where
      by_found :
          (ns : Namespace)
          → e.ns ≡ some ns
          → (f : Outcome PersistError (Option (String × String))) → source_namespace o ns ≡ f
          → (f >>= λ found. elim found as (λ k. Outcome PersistError Slices) [
            | none ↦ ok s
            | some names ↦ append_event e id names s
          ])
            ≡ ok s'
          → AreRows o (e ∷ es) (found_rows e id f ++ rows)
      by_found ns n (err p) w y = absurd (ground arith)
      by_found ns n (ok none) w y = not_counted i n (source_namespace-Names o ns none w) a
      by_found ns n (ok (some (db, coll))) w y =
          appended id ns db coll s s' i n (source_namespace-Names o ns (some (db, coll)) w) a y

      by_ns :
          (n : Option Namespace)
          → e.ns ≡ n
          → (elim n as (λ k. Outcome PersistError Slices) [
            | none ↦ err nil_pointer
            | some ns ↦ source_namespace o ns >>= λ found.
                elim found as (λ k. Outcome PersistError Slices) [
                  | none ↦ ok s
                  | some names ↦ append_event e id names s
                ]
          ])
            ≡ ok s'
          → AreRows o (e ∷ es) (document_rows o e id n ++ rows)
      by_ns none n y = absurd (ground arith)
      by_ns (some ns) n y = by_found ns n (source_namespace o ns) refl y

  handled :
      (s s' : Slices)
      → AreRows o es rows
      → handle_event o e s ≡ ok s'
      → AreRows o (e ∷ es) (event_rows o e e.doc_id ++ rows)
  unfolding handle_event
  handled s s' a x = by_id e.doc_id refl x
    where
      by_id :
          (i : Option RawValue)
          → e.doc_id ≡ i
          → (elim i as (λ k. Outcome PersistError Slices) [
            | none ↦
                if is_src o.cluster && not (is_allowed_ddl e.op_type)
                then err ddl_not_allowed
                else ok (record s { counts = add_to_event_counts e.op_type s.counts })
            | some id ↦
                add_document_event o e id
                  (record s { counts = add_to_event_counts e.op_type s.counts })
          ])
            ≡ ok s'
          → AreRows o (e ∷ es) (event_rows o e i ++ rows)
      by_id none i y = without_id i a
      by_id (some id) i y = added id _ s' i a y

pub handle_events-AreRows :
    (o : Origin) (es : List ParsedEvent) (s s' : Slices)
    → handle_events o es s ≡ ok s'
    → AreRows o es (rows_of o es)
unfolding handle_events
handle_events-AreRows o [] s s' x = no_rows
handle_events-AreRows o (e ∷ es) s s' x =
    let (u, p, y) = >>=-eq-ok (handle_event o e s) (λ u. handle_events o es u) x in
    handled o e es (rows_of o es) s u (handle_events-AreRows o es u s' y) p
