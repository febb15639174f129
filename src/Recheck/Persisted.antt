-- ===== src/Recheck/Persisted.antt =====
-- What the tasks hold that GenerateRecheckTasks has made so far.
use migration_verifier_docdb.Base.{
  ℕ, ◌⊎◌, inl, inr, suc, ◌+◌, ◌==◌, ◌||◌, leb, ◌≡◌, refl, sym, ◌∙◌, ap, ap₂, Bool, true, false,
  Option, none, some, List, [], ◌∷◌, ◌++◌, append-nil, append_assoc, String, arith, if◌then◌else◌,
  Outcome, ok, err, ok-injective, length, ◌&&◌, holds,
}
use migration_verifier_docdb.Base.Text.{text_dec}
use migration_verifier_docdb.Bson.{Timestamp}
use migration_verifier_docdb.Compare.{RawValue}
use migration_verifier_docdb.NsMap.{NsMap}
use migration_verifier_docdb.Tasks.{
  Task, TaskError, create_document_recheck_task, map_namespace, new_task, verify_documents,
}
use migration_verifier_docdb.Recheck.Queue.{Doc, is_empty}
use migration_verifier_docdb.Recheck.Generate.{
  Settings, Grouping, RecheckError, task_error, max_tasks_per_request, max_insert_size, if_not_zero,
  buffer_task, persist_buffered_rechecks, is_last_id, namespace_of,
}

-- A document to check: its namespace and its ID.
abbrev pub Entry : Type 0
Entry = String × RawValue

abbrev pub entries_of : String → List RawValue → List Entry
entries_of ns [] = []
entries_of ns (id ∷ ids) = (ns, id) ∷ entries_of ns ids

-- The documents of tasks, and of requests.
abbrev pub tasks_entries : List Task → List Entry
tasks_entries [] = []
tasks_entries (t ∷ ts) = entries_of t.query_filter.namespace t.ids ++ tasks_entries ts

abbrev pub requests_entries : List (List Task) → List Entry
requests_entries [] = []
requests_entries (ts ∷ rs) = tasks_entries ts ++ requests_entries rs

-- The queue's documents, without one that has the namespace and the ID of the one before it.
abbrev pub distinct : String → String → Option RawValue → List Doc → List Entry
distinct db coll last [] = []
distinct db coll last (d ∷ ds) =
    let same =
      (holds (text_dec d.src_database_name db) && holds (text_dec d.src_collection_name coll))
      && is_last_id d.document_id last in
    let rest = distinct db coll last ds in
    let next = distinct d.src_database_name d.src_collection_name (some d.document_id) ds in
    if same
    then rest
    else (namespace_of d.src_database_name d.src_collection_name, d.document_id) ∷ next

pub entries_of-append :
    (ns : String) (xs ys : List RawValue)
    → entries_of ns (xs ++ ys) ≡ entries_of ns xs ++ entries_of ns ys
entries_of-append ns [] ys = refl
entries_of-append ns (x ∷ xs) ys = ap (λ es. (ns, x) ∷ es) (entries_of-append ns xs ys)

pub tasks_entries-append :
    (xs ys : List Task) → tasks_entries (xs ++ ys) ≡ tasks_entries xs ++ tasks_entries ys
tasks_entries-append [] ys = refl
tasks_entries-append (x ∷ xs) ys =
    ap (λ es. entries_of x.query_filter.namespace x.ids ++ es) (tasks_entries-append xs ys)
    ∙ sym (
        append_assoc (entries_of x.query_filter.namespace x.ids) (tasks_entries xs)
          (tasks_entries ys))

pub requests_entries-append :
    (xs ys : List (List Task))
    → requests_entries (xs ++ ys) ≡ requests_entries xs ++ requests_entries ys
requests_entries-append [] ys = refl
requests_entries-append (x ∷ xs) ys =
    ap (λ es. tasks_entries x ++ es) (requests_entries-append xs ys)
    ∙ sym (append_assoc (tasks_entries x) (requests_entries xs) (requests_entries ys))

-- What the tasks so far hold, and what is buffered.
abbrev pub persisted : Grouping → List Entry
persisted g = requests_entries g.requests ++ tasks_entries g.cur_tasks

abbrev pub buffered : Grouping → List Entry
buffered g = entries_of (namespace_of g.prev_db_name g.prev_coll_name) g.id_accum

pub buffer_task-persisted :
    (s : Settings) (t : Task) (g : Grouping)
    → persisted (buffer_task s t g) ≡ persisted g ++ entries_of t.query_filter.namespace t.ids
unfolding buffer_task
buffer_task-persisted s t g = by_test (
    length (g.cur_tasks ++ t ∷ []) == max_tasks_per_request
    || leb max_insert_size (g.cur_tasks_bytes + s.task_size t))
  where
    by_test :
        (b : Bool)
        → persisted (
            if b
            then (record g {
              cur_tasks = [];
              cur_tasks_bytes = g.cur_tasks_bytes + s.task_size t;
              total_tasks = suc g.total_tasks;
              requests = g.requests ++ (g.cur_tasks ++ t ∷ []) ∷ [];
            })
            else (record g {
              cur_tasks = g.cur_tasks ++ t ∷ [];
              cur_tasks_bytes = g.cur_tasks_bytes + s.task_size t;
              total_tasks = suc g.total_tasks;
            }))
          ≡ persisted g ++ entries_of t.query_filter.namespace t.ids
    by_test true = simp (requests_entries-append, tasks_entries-append, append-nil, append_assoc)
    by_test false = simp (tasks_entries-append, append-nil, append_assoc)

pub create-ids :
    (m : NsMap) (k g : ℕ) (ids : List RawValue) (ft : List (ℕ × ℕ)) (a b : Option Timestamp)
    (ns : String) (t : Task)
    → create_document_recheck_task m k g ids ft a b ns ≡ ok t
    → (t.ids ≡ ids) × (t.query_filter.namespace ≡ ns)
unfolding create_document_recheck_task
create-ids m k g ids ft a b ns t h = by_map (map_namespace m ns) h
  where
    by_map :
        (o : Outcome TaskError String)
        → (elim o as (λ x. Outcome TaskError Task) [
          | err e ↦ err e
          | ok dst ↦
              ok
                (record (new_task k verify_documents
                  (some g)
                  (record { partition = none; shard_keys = []; namespace = ns; to = dst })) {
                    ids = ids;
                    documents_count = length ids;
                    first_mismatch_time = ft;
                    src_timestamp = a;
                    dst_timestamp = b;
                  })
        ])
          ≡ ok t
        → (t.ids ≡ ids) × (t.query_filter.namespace ≡ ns)
    by_map (ok dst) x =
        let y = ok-injective x in
        (sym (ap (λ u. u.ids) y), sym (ap (λ u. u.query_filter.namespace) y))
    by_map (err e) x = absurd (ground arith)

-- What persistBufferedRechecks does: nothing where nothing is buffered, and otherwise it makes a task
-- of what is.
pub persist-cases :
    (s : Settings) (g g' : Grouping)
    → persist_buffered_rechecks s g ≡ ok g'
    → ((g.id_accum ≡ []) × (g ≡ g'))
      ⊎ ((t : Task) × (t.ids ≡ g.id_accum)
          × (t.query_filter.namespace ≡ namespace_of g.prev_db_name g.prev_coll_name)
          × (is_empty g.id_accum ≡ false)
          × (buffer_task s t g ≡ g'))
unfolding persist_buffered_rechecks
persist-cases s g g' h = by_ids g.id_accum refl h
  where
    task : Outcome TaskError Task
    task =
        create_document_recheck_task s.ns_map (s.new_id g.total_tasks) s.generation g.id_accum
          g.first_mismatch_time (if_not_zero g.latest_src_timestamp)
          (if_not_zero g.latest_dst_timestamp) (namespace_of g.prev_db_name g.prev_coll_name)

    Cases : Type 0
    Cases =
        ((g.id_accum ≡ []) × (g ≡ g'))
        ⊎ ((t : Task) × (t.ids ≡ g.id_accum)
            × (t.query_filter.namespace ≡ namespace_of g.prev_db_name g.prev_coll_name)
            × (is_empty g.id_accum ≡ false)
            × (buffer_task s t g ≡ g'))

    by_task :
        (o : Outcome TaskError Task)
        → task ≡ o
        → is_empty g.id_accum ≡ false
        → (elim o as (λ x. Outcome RecheckError Grouping) [
          | err e ↦ err (task_error e)
          | ok t ↦ ok (buffer_task s t g)
        ])
          ≡ ok g'
        → Cases
    by_task (ok t) e n x =
        let (i, ns) =
          create-ids s.ns_map (s.new_id g.total_tasks) s.generation g.id_accum g.first_mismatch_time
            (if_not_zero g.latest_src_timestamp) (if_not_zero g.latest_dst_timestamp)
            (namespace_of g.prev_db_name g.prev_coll_name) t e in
        inr (t, i, ns, n, ok-injective x)
    by_task (err e) q n x = absurd (ground arith)

    by_ids :
        (ids : List RawValue)
        → g.id_accum ≡ ids
        → (if is_empty ids then ok g else (elim task as (λ x. Outcome RecheckError Grouping) [
          | err e ↦ err (task_error e)
          | ok t ↦ ok (buffer_task s t g)
        ]))
          ≡ ok g'
        → Cases
    by_ids [] e x = inl (e, ok-injective x)
    by_ids (id ∷ ids) e x = by_task task refl (ap is_empty e) x

pub persist-persisted :
    (s : Settings) (g g' : Grouping)
    → persist_buffered_rechecks s g ≡ ok g'
    → persisted g' ≡ persisted g ++ buffered g
persist-persisted s g g' h = elim (persist-cases s g g' h) [
  | inl (e, x) ↦
      sym (ap (λ u. persisted u) x)
      ∙ sym (append-nil (persisted g))
      ∙ ap (λ ids. persisted g ++ entries_of (namespace_of g.prev_db_name g.prev_coll_name) ids)
          (sym e)
  | inr (t, i, n, f, x) ↦
      sym (ap (λ u. persisted u) x)
      ∙ buffer_task-persisted s t g
      ∙ ap (λ es. persisted g ++ es) (ap₂ entries_of n i)
]
