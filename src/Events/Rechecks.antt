-- ===== src/Events/Rechecks.antt =====
-- What PersistChangeEvents puts into the recheck queue.
use migration_verifier_docdb.Base.{
  ℕ, suc, ◌≡◌, refl, sym, ◌∙◌, ap, subst, Bool, true, false, Option, none, some, List, [], ◌∷◌,
  ◌++◌, append_assoc, map, arith, if◌then◌else◌, Outcome, ok, err, ◌>>=◌, >>=-eq-ok, ok-injective,
  length, length-append, get_elem?, All,
}
use migration_verifier_docdb.Recheck.{
  Doc, is_dst, is_empty, entry_of, index, recheck_doc, recheck_docs, insert_recheck_docs,
  QueuePanic,
}
use migration_verifier_docdb.Recheck.Batches.{concat, IsBounded, insert_recheck_docs-requests}
use migration_verifier_docdb.Events.Recorder.{ParsedEvent, ChangeEventCounts, EventRecorder}
use migration_verifier_docdb.Events.Persist.{
  PersistError, queue_or_panic, Origin, Slices, handle_events, persist_change_events,
}
use migration_verifier_docdb.Events.Named.{AreRows, handle_events-AreRows}
use migration_verifier_docdb.Events.Rows.{Row, rows_of, IsSliced, handle_events-IsSliced}

-- The document of the queue that stands for a row.
abbrev pub doc_of : Bool → Row → Doc
doc_of from_dst (db, coll, id, size, ts) = record {
  src_database_name = db;
  src_collection_name = coll;
  document_id = id;
  data_size = size;
  change_op_time = some ts;
  from_dst = from_dst;
  first_mismatch_time = none;
}

get_at :
    {A : Type 0} (f : Row → A) (pre : List Row) (r : Row) (rows : List Row)
    → get_elem? (map f (pre ++ r ∷ rows)) (length pre) ≡ some (f r)
get_at f [] r rows = refl
get_at f (p ∷ pre) r rows = get_at f pre r rows

index_at :
    {A : Type 0} (f : Row → A) (pre : List Row) (r : Row) (rows : List Row)
    → index (length pre) (map f (pre ++ r ∷ rows)) ≡ ok (f r)
index_at f [] r rows = refl
index_at f (p ∷ pre) r rows = index_at f pre r rows

entry_at :
    {A : Type 0} (f : Row → A) (pre : List Row) (r : Row) (rows : List Row)
    → entry_of (length pre) (map f (pre ++ r ∷ rows)) ≡ ok (some (f r))
entry_at f [] r rows = refl
entry_at f (p ∷ pre) r rows = rw (get_at f pre r rows) refl

chain :
    {A B : Type 0} (m : Outcome QueuePanic A) (a : A) (f : A → Outcome QueuePanic B)
    (o : Outcome QueuePanic B)
    → m ≡ ok a
    → f a ≡ o
    → (m >>= f) ≡ o
chain m a f o h x = ap (λ k. k >>= f) h ∙ x

recheck_doc-row :
    (b : Bool) (pre : List Row) (r : Row) (rows : List Row)
    → recheck_doc b
        (length pre)
        r.0
        (map (λ x. x.1) (pre ++ r ∷ rows))
        (map (λ x. x.2) (pre ++ r ∷ rows))
        (map (λ x. x.3) (pre ++ r ∷ rows))
        []
        (map (λ x. x.4) (pre ++ r ∷ rows))
      ≡ ok (doc_of b r)
unfolding recheck_doc
recheck_doc-row b pre r rows = chain _ (some r.4) _ _ (entry_at (λ x. x.4) pre r rows) (
    chain _ r.1 _ _ (index_at (λ x. x.1) pre r rows) (
      chain _ r.2 _ _ (index_at (λ x. x.2) pre r rows)
        (chain _ r.3 _ _ (index_at (λ x. x.3) pre r rows) refl)))

recheck_docs-rows :
    (b : Bool) (pre rows : List Row) (i : ℕ)
    → i ≡ length pre
    → recheck_docs b i
        (map (λ x. x.0) rows)
        (map (λ x. x.1) (pre ++ rows))
        (map (λ x. x.2) (pre ++ rows))
        (map (λ x. x.3) (pre ++ rows))
        []
        (map (λ x. x.4) (pre ++ rows))
      ≡ ok (map (doc_of b) rows)
unfolding recheck_docs
recheck_docs-rows b pre [] i h = refl
recheck_docs-rows b pre (r ∷ rows) i h =
    let here =
      subst
        (λ k.
          recheck_doc b k r.0 (map (λ x. x.1) (pre ++ r ∷ rows)) (map (λ x. x.2) (pre ++ r ∷ rows))
            (map (λ x. x.3) (pre ++ r ∷ rows)) [] (map (λ x. x.4) (pre ++ r ∷ rows))
          ≡ ok (doc_of b r))
        (sym h) (recheck_doc-row b pre r rows) in
    let later =
      subst
        (λ all.
          recheck_docs b (suc i) (map (λ x. x.0) rows) (map (λ x. x.1) all) (map (λ x. x.2) all)
            (map (λ x. x.3) all) [] (map (λ x. x.4) all)
          ≡ ok (map (doc_of b) rows))
        (append_assoc pre (r ∷ []) rows)
        (recheck_docs-rows b (pre ++ r ∷ []) rows (suc i)
          (omega (arith, h, length-append pre (r ∷ [])))) in
    chain _ (doc_of b r) _ _ here (chain _ (map (doc_of b) rows) _ _ later refl)

-- What is sent for some rows: nothing if there are none, and otherwise requests for the next
-- generation that hold the rows' documents, in order, 1 to 1000 each.
abbrev pub IsSent : Origin → List Row → Option (ℕ × List (List Doc)) → Type 0
IsSent o rows none = rows ≡ []
IsSent o rows (some (queue, rs)) =
    (queue ≡ suc o.generation)
    × (concat rs ≡ map (doc_of (is_dst (some o.cluster))) rows)
    × All IsBounded rs

inserted-IsSent :
    (o : Origin) (s : Slices) (rows : List Row) (queue : ℕ) (rs : List (List Doc))
    → IsSliced s rows
    → insert_recheck_docs o.doc_size o.generation s.db_names s.coll_names s.doc_ids s.data_sizes []
        (some o.cluster)
        s.op_times
      ≡ ok (queue, rs)
    → IsSent o rows (some (queue, rs))
inserted-IsSent o s rows queue rs h x =
    let (q, docs, n, b) =
      insert_recheck_docs-requests o.doc_size o.generation queue s.db_names s.coll_names s.doc_ids
        s.data_sizes [] (some o.cluster) s.op_times rs x in
    (q, ok-injective (sym docs ∙ same_docs ∙ recheck_docs-rows _ [] rows 0 refl), b)
  where
    same_docs :
        recheck_docs
          (is_dst (some o.cluster))
          0
          s.db_names
          s.coll_names
          s.doc_ids
          s.data_sizes
          []
          s.op_times
        ≡ recheck_docs
            (is_dst (some o.cluster))
            0
            (map (λ x. x.0) rows)
            (map (λ x. x.1) rows)
            (map (λ x. x.2) rows)
            (map (λ x. x.3) rows)
            []
            (map (λ x. x.4) rows)
    same_docs = rw (h.dbs, h.colls, h.ids, h.sizes, h.times) refl

empty-rows : (rows : List Row) → is_empty (map (λ r. r.2) rows) ≡ true → rows ≡ []
empty-rows [] e = refl
empty-rows (r ∷ rows) e = absurd (ground arith)

-- When PersistChangeEvents succeeds, its requests to the next generation's queue hold, in order, one
-- document for each event of the batch that has a document ID, with the time of the change, 1 to 1000
-- in each request; if there is no such event, nothing is sent. The document is under the event's own
-- names if the event is the source's or the namespace map is empty; else an event in the metadata
-- database counts as none, and the names of any other are those that the map gives.
pub persist_change_events-IsSent :
    (o : Origin) (es : List ParsedEvent) (start end : ChangeEventCounts × EventRecorder)
    (sent : Option (ℕ × List (List Doc)))
    → persist_change_events o es start ≡ ok (end, sent)
    → (rows : List Row) × AreRows o es rows × IsSent o rows sent
unfolding persist_change_events
persist_change_events-IsSent o es (counts, recorder) end sent h =
    let (s, p, y) = >>=-eq-ok (handle_events o es first) (λ s. send s) h in
    let w = handle_events-IsSliced o es first s [] first-IsSliced p in
    (rows_of o es, handle_events-AreRows o es first s p, by_ids s w (is_empty s.doc_ids) refl y)
  where
    first : Slices
    first = record {
      counts = counts;
      recorder = recorder;
      db_names = [];
      coll_names = [];
      doc_ids = [];
      data_sizes = [];
      op_times = [];
    }

    first-IsSliced : IsSliced first []
    first-IsSliced = record { dbs = refl; colls = refl; ids = refl; sizes = refl; times = refl }

    Sent : Type 0
    Sent = (ChangeEventCounts × EventRecorder) × Option (ℕ × List (List Doc))

    insert : Slices → Outcome QueuePanic (ℕ × List (List Doc))
    insert s =
        insert_recheck_docs o.doc_size o.generation s.db_names s.coll_names s.doc_ids s.data_sizes
          [] (some o.cluster) s.op_times

    note : Slices → ℕ × List (List Doc) → Outcome PersistError Sent
    note s x = ok ((s.counts, s.recorder), some x)

    nothing : Slices → Outcome PersistError Sent
    nothing s = ok ((s.counts, s.recorder), none)

    send : Slices → Outcome PersistError Sent
    send s = if is_empty s.doc_ids then nothing s else (queue_or_panic (insert s) >>= λ x. note s x)

    by_insert :
        (s : Slices)
        → IsSliced s (rows_of o es)
        → (r : Outcome QueuePanic (ℕ × List (List Doc))) → insert s ≡ r
        → (queue_or_panic r >>= λ x. note s x) ≡ ok (end, sent)
        → IsSent o (rows_of o es) sent
    by_insert s w (err p) e x = absurd (ground arith)
    by_insert s w (ok (queue, rs)) e x =
        subst (IsSent o (rows_of o es)) (ap (λ k. k.1) (ok-injective x))
          (inserted-IsSent o s (rows_of o es) queue rs w e)

    by_ids :
        (s : Slices)
        → IsSliced s (rows_of o es)
        → (b : Bool) → is_empty s.doc_ids ≡ b
        → (if b then nothing s else (queue_or_panic (insert s) >>= λ x. note s x)) ≡ ok (end, sent)
        → IsSent o (rows_of o es) sent
    by_ids s w true e x =
        subst (IsSent o (rows_of o es)) (ap (λ k. k.1) (ok-injective x))
          (empty-rows (rows_of o es) (sym (ap is_empty w.ids) ∙ e))
    by_ids s w false e x = by_insert s w (insert s) refl x
