-- ===== src/Recheck/Covers.antt =====
-- GenerateRecheckTasks makes tasks for the queue's documents, each once, and for no others.
use migration_verifier_docdb.Base.{
  ◌-◌, ◌||◌, ◌≡◌, refl, sym, ◌∙◌, ap, ap₂, subst, Bool, true, false, not, none, some, List, [], ◌∷◌,
  ◌++◌, append-nil, append_assoc, String, arith, if◌then◌else◌, ok, ◌>>=◌, >>=-eq-ok, ok-injective,
  length, ◌&&◌, holds,
}
use migration_verifier_docdb.Tasks.{Task}
use migration_verifier_docdb.Recheck.Queue.{Doc, is_empty}
use migration_verifier_docdb.Recheck.Generate.{
  Settings, Grouping, persist_buffered_rechecks, is_same_namespace, is_same_doc, is_group_over,
  start_group, add_metadata, add_id, namespace_of,
}
use migration_verifier_docdb.Recheck.Read.{
  close_group, read_recheck, read_rechecks, no_group, generate_recheck_tasks,
}
use migration_verifier_docdb.Recheck.Persisted.{
  Entry, entries_of, tasks_entries, requests_entries, distinct, entries_of-append,
  requests_entries-append, persisted, persist-persisted,
}
use migration_verifier_docdb.Recheck.Metadata.{Core, core, add_metadata-core}

-- What the documents read so far give, persisted or not.
abbrev emitted : Core → List Entry
emitted (rs, ts, db, coll, ids, last) =
    (requests_entries rs ++ tasks_entries ts) ++ entries_of (namespace_of db coll) ids

-- The rest of the documents, read after a state.
abbrev distinct_after : Core → List Doc → List Entry
distinct_after (rs, ts, db, coll, ids, last) ds = distinct db coll last ds

holds-eq : {a b : String} (e : Dec (a ≡ b)) → holds e ≡ true → b ≡ a
holds-eq (yes p) h = sym p
holds-eq (no n) h = absurd (ground arith)

and_true : (a b : Bool) → (a && b) ≡ true → (a ≡ true) × (b ≡ true)
and_true a b h = ground arith

still_same : (a b c e : Bool) → (not a || b || c || e) ≡ false → a ≡ true
still_same a b c e h = ground arith

close_group-emitted :
    (s : Settings) (d : Doc) (g g' : Grouping)
    → close_group s d g ≡ ok g'
    → (emitted (core g') ≡ emitted (core g))
      × (g'.prev_db_name ≡ d.src_database_name)
      × (g'.prev_coll_name ≡ d.src_collection_name)
unfolding close_group is_group_over start_group
close_group-emitted s d g g' h = by_over (is_group_over s d g) refl h
  where
    by_over :
        (b : Bool)
        → is_group_over s d g ≡ b
        → (if b then (persist_buffered_rechecks s g >>= λ u. ok (start_group d u)) else ok g)
          ≡ ok g'
        → (emitted (core g') ≡ emitted (core g))
          × (g'.prev_db_name ≡ d.src_database_name)
          × (g'.prev_coll_name ≡ d.src_collection_name)
    by_over true e x =
        let (u, p, y) = >>=-eq-ok (persist_buffered_rechecks s g) (λ u. ok (start_group d u)) x in
        subst
          (λ v.
            (emitted (core v) ≡ emitted (core g))
            × (v.prev_db_name ≡ d.src_database_name)
            × (v.prev_coll_name ≡ d.src_collection_name))
          (ok-injective y) (append-nil (persisted u) ∙ persist-persisted s g u p, refl, refl)
    by_over false e x =
        let same = ok-injective x in
        let n = and_true _ _ (still_same (is_same_namespace d g) _ _ _ e) in
        (
          sym (ap (λ v. emitted (core v)) same),
          sym (ap (λ v. v.prev_db_name) same) ∙ holds-eq _ n.0,
          sym (ap (λ v. v.prev_coll_name) same) ∙ holds-eq _ n.1,
        )

abbrev next_after : Doc → List Doc → Core → List Entry
next_after d ds (rs, ts, db, coll, ids, last) =
    (namespace_of db coll, d.document_id) ∷ distinct db coll (some d.document_id) ds

add_id-emitted :
    (d : Doc) (v : Grouping) (ds : List Doc)
    → emitted (core (add_id d v)) ++ distinct_after (core (add_id d v)) ds
      ≡ emitted (core v) ++ next_after d ds (core v)
unfolding add_id
add_id-emitted d v ds = simp (entries_of-append, append_assoc)

read_recheck-emitted :
    (s : Settings) (d : Doc) (g g' : Grouping) (ds : List Doc)
    → read_recheck s d g ≡ ok g'
    → emitted (core g') ++ distinct_after (core g') ds
      ≡ emitted (core g) ++ distinct_after (core g) (d ∷ ds)
unfolding read_recheck add_id
read_recheck-emitted s d g g' ds h = by_same (is_same_doc d g) refl h
  where
    by_same :
        (b : Bool)
        → is_same_doc d g ≡ b
        → (if b
            then add_metadata d true (length g.id_accum - 1) g
            else (close_group s d g >>= λ u.
                add_metadata d false (length u.id_accum) u >>= λ v. ok (add_id d v)))
          ≡ ok g'
        → emitted (core g') ++ distinct_after (core g') ds
          ≡ emitted (core g) ++ distinct_after (core g) (d ∷ ds)
    by_same true e x =
        ap (λ c. emitted c ++ distinct_after c ds) (add_metadata-core d true _ g g' x) ∙ rw e refl
    by_same false e x =
        let (u, p, y) = >>=-eq-ok (close_group s d g) _ x in
        let (v, q, z) = >>=-eq-ok (add_metadata d false (length u.id_accum) u) _ y in
        let (same, db, coll) = close_group-emitted s d g u p in
        sym (ap (λ w. emitted (core w) ++ distinct_after (core w) ds) (ok-injective z))
        ∙ add_id-emitted d v ds
        ∙ ap (λ c. emitted c ++ next_after d ds c) (add_metadata-core d false _ u v q)
        ∙ ap₂
            (λ m n.
              emitted (core u)
              ++ ((namespace_of m n, d.document_id) ∷ distinct m n (some d.document_id) ds))
            db coll
        ∙ ap
            (λ es.
              es
              ++ ((namespace_of d.src_database_name d.src_collection_name, d.document_id)
                  ∷ distinct d.src_database_name d.src_collection_name (some d.document_id) ds))
            same
        ∙ rw e refl

read_rechecks-emitted :
    (s : Settings) (ds : List Doc) (g g' : Grouping)
    → read_rechecks s ds g ≡ ok g'
    → emitted (core g') ≡ emitted (core g) ++ distinct_after (core g) ds
unfolding read_rechecks
read_rechecks-emitted s [] g g' h =
    sym (ap (λ u. emitted (core u)) (ok-injective h)) ∙ sym (append-nil (emitted (core g)))
read_rechecks-emitted s (d ∷ ds) g g' h =
    let (u, p, y) = >>=-eq-ok (read_recheck s d g) (λ u. read_rechecks s ds u) h in
    read_rechecks-emitted s ds u g' y ∙ read_recheck-emitted s d g u ds p

-- When GenerateRecheckTasks succeeds, the documents of its requests' tasks are, in order, those of
-- the queue, each taken once where equal ones follow each other.
pub generate_recheck_tasks-covers :
    (s : Settings) (ds : List Doc) (rs : List (List Task))
    → generate_recheck_tasks s ds false ≡ ok rs
    → requests_entries rs ≡ distinct "" "" none ds
unfolding generate_recheck_tasks
generate_recheck_tasks-covers s ds rs h =
    let (g, p, y) = >>=-eq-ok (read_rechecks s ds no_group) _ h in
    let (g', q, z) = >>=-eq-ok (persist_buffered_rechecks s g) _ y in
    sym (ap requests_entries (ok-injective z))
    ∙ last_request g'
    ∙ persist-persisted s g g' q
    ∙ read_rechecks-emitted s ds no_group g p
  where
    last_request :
        (g : Grouping)
        → requests_entries
            (if is_empty g.cur_tasks then g.requests else g.requests ++ g.cur_tasks ∷ [])
          ≡ persisted g
    last_request g = by_tasks g.requests g.cur_tasks
      where
        by_tasks :
            (reqs : List (List Task)) (ts : List Task)
            → requests_entries (if is_empty ts then reqs else reqs ++ ts ∷ [])
              ≡ requests_entries reqs ++ tasks_entries ts
        by_tasks reqs [] = sym (append-nil (requests_entries reqs))
        by_tasks reqs (t ∷ ts) = simp (requests_entries-append, append-nil)
