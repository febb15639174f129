-- ===== src/Recheck/Bounds.antt =====
-- The sizes of the recheck tasks and of their insert requests.
use migration_verifier_docdb.Base.{
  ℕ, suc, ◌+◌, ◌-◌, ◌≤◌, ◌≡◌, refl, sym, subst, inl, inr, Bool, true, false, not, List, [], ◌∷◌,
  ◌++◌, arith, if◌then◌else◌, ◌==◌, leb, ◌||◌, ok, ◌>>=◌, >>=-eq-ok, ok-injective, length,
  length-append, All, All-append,
}
use migration_verifier_docdb.Compare.{RawValue}
use migration_verifier_docdb.Tasks.{Task}
use migration_verifier_docdb.Recheck.Queue.{Doc, is_empty}
use migration_verifier_docdb.Recheck.Generate.{
  Settings, Grouping, max_recheck_ids, max_tasks_per_request, max_insert_size, buffer_task,
  persist_buffered_rechecks, is_same_doc, is_group_over, start_group, add_metadata, add_id,
}
use migration_verifier_docdb.Recheck.Read.{
  close_group, read_recheck, read_rechecks, no_group, generate_recheck_tasks,
}
use migration_verifier_docdb.Recheck.Persisted.{persist-cases}
use migration_verifier_docdb.Recheck.Metadata.{Core, core, add_metadata-core}

-- A task has 1 to 10,000 documents, and a request 1 to 500 tasks.
abbrev pub IsBoundedTask : Task → Type 0
IsBoundedTask t = (1 ≤ length t.ids) × (length t.ids ≤ max_recheck_ids)

abbrev pub IsBoundedRequest : List Task → Type 0
IsBoundedRequest ts = (1 ≤ length ts) × (length ts ≤ max_tasks_per_request) × All IsBoundedTask ts

record IsWithin (c : Core) : Type 0 where
  pub ids : length c.4 ≤ max_recheck_ids
  pub tasks : suc (length c.1) ≤ max_tasks_per_request
  pub each : All IsBoundedTask c.1
  pub requests : All IsBoundedRequest c.0

buffer_task-IsWithin :
    (s : Settings) (t : Task) (g : Grouping)
    → IsBoundedTask t
    → IsWithin (core g)
    → IsWithin (core (buffer_task s t g))
unfolding buffer_task
buffer_task-IsWithin s t g b w =
    by_tests (length (g.cur_tasks ++ t ∷ []) == max_tasks_per_request)
      (leb max_insert_size (g.cur_tasks_bytes + s.task_size t)) refl
  where
    each' : All IsBoundedTask (g.cur_tasks ++ t ∷ [])
    each' = All-append IsBoundedTask g.cur_tasks (t ∷ []) w.each (b, tt)

    request : IsBoundedRequest (g.cur_tasks ++ t ∷ [])
    request = (
      omega (arith, length-append g.cur_tasks (t ∷ [])),
      omega (arith, length-append g.cur_tasks (t ∷ []), w.tasks),
      each',
    )

    by_tests :
        (x y : Bool)
        → (length (g.cur_tasks ++ t ∷ []) == max_tasks_per_request) ≡ x
        → IsWithin (
            core (
              if x || y
              then (record g {
                cur_tasks = [];
                cur_tasks_bytes = g.cur_tasks_bytes + s.task_size t;
                total_tasks = suc g.total_tasks;
                requests = g.requests ++ (g.cur_tasks ++ t ∷ []) ∷ [];
              })
              else (record g {
                cur_tasks = g.cur_tasks ++ t ∷ [];
                cur_tasks_bytes = g.cur_tasks_bytes + s.task_size t;
                total_tasks = suc g.total_tasks;
              })))
    by_tests true y e = record {
      ids = w.ids;
      tasks = omega arith;
      each = tt;
      requests = All-append IsBoundedRequest g.requests _ w.requests (request, tt);
    }
    by_tests false true e = record {
      ids = w.ids;
      tasks = omega arith;
      each = tt;
      requests = All-append IsBoundedRequest g.requests _ w.requests (request, tt);
    }
    by_tests false false e = record {
      ids = w.ids;
      tasks = ground (arith, length-append g.cur_tasks (t ∷ []), w.tasks);
      each = each';
      requests = w.requests;
    }

-- Persisting keeps the bounds, and the buffer as it is.
persist-IsWithin :
    (s : Settings) (g g' : Grouping)
    → IsWithin (core g)
    → persist_buffered_rechecks s g ≡ ok g'
    → IsWithin (core g')
persist-IsWithin s g g' w h = elim (persist-cases s g g' h) [
  | inl (e, x) ↦ subst (λ u. IsWithin (core u)) x w
  | inr (t, i, n, f, x) ↦
      subst (λ u. IsWithin (core u)) x
        (buffer_task-IsWithin s t g
          (subst (λ is. (1 ≤ length is) × (length is ≤ max_recheck_ids)) (sym i)
            (not_empty g.id_accum f, w.ids))
          w)
]
  where
    not_empty : (is : List RawValue) → is_empty is ≡ false → 1 ≤ length is
    not_empty [] e = absurd (ground arith)
    not_empty (i ∷ is) e = omega arith

-- A group that goes on has room for a document.
has_room :
    (a c e : Bool) (n : ℕ)
    → (not a || leb max_recheck_ids n || c || e) ≡ false
    → suc n ≤ max_recheck_ids
has_room a c e n h = ground arith

close_group-IsWithin :
    (s : Settings) (d : Doc) (g g' : Grouping)
    → IsWithin (core g)
    → close_group s d g ≡ ok g'
    → IsWithin (core g') × (suc (length g'.id_accum) ≤ max_recheck_ids)
unfolding close_group is_group_over start_group
close_group-IsWithin s d g g' w h = by_over (is_group_over s d g) refl h
  where
    by_over :
        (b : Bool)
        → is_group_over s d g ≡ b
        → (if b then (persist_buffered_rechecks s g >>= λ u. ok (start_group d u)) else ok g)
          ≡ ok g'
        → IsWithin (core g') × (suc (length g'.id_accum) ≤ max_recheck_ids)
    by_over true e x =
        let (u, p, y) = >>=-eq-ok (persist_buffered_rechecks s g) (λ u. ok (start_group d u)) x in
        let v = persist-IsWithin s g u w p in
        subst (λ k. IsWithin (core k) × (suc (length k.id_accum) ≤ max_recheck_ids))
          (ok-injective y)
          (
            record { ids = omega arith; tasks = v.tasks; each = v.each; requests = v.requests },
            omega arith,
          )
    by_over false e x =
        subst (λ k. IsWithin (core k) × (suc (length k.id_accum) ≤ max_recheck_ids))
          (ok-injective x) (w, has_room _ _ _ (length g.id_accum) e)

add_id-IsWithin :
    (d : Doc) (g : Grouping)
    → IsWithin (core g)
    → suc (length g.id_accum) ≤ max_recheck_ids
    → IsWithin (core (add_id d g))
unfolding add_id
add_id-IsWithin d g w h = record {
  ids = omega (arith, h, length-append g.id_accum (d.document_id ∷ []));
  tasks = w.tasks;
  each = w.each;
  requests = w.requests;
}

read_recheck-IsWithin :
    (s : Settings) (d : Doc) (g g' : Grouping)
    → IsWithin (core g)
    → read_recheck s d g ≡ ok g'
    → IsWithin (core g')
unfolding read_recheck
read_recheck-IsWithin s d g g' w h = by_same (is_same_doc d g) h
  where
    by_same :
        (b : Bool)
        → (if b
            then add_metadata d true (length g.id_accum - 1) g
            else (close_group s d g >>= λ u.
                add_metadata d false (length u.id_accum) u >>= λ v. ok (add_id d v)))
          ≡ ok g'
        → IsWithin (core g')
    by_same true x = subst IsWithin (sym (add_metadata-core d true _ g g' x)) w
    by_same false x =
        let (u, p, y) = >>=-eq-ok (close_group s d g) _ x in
        let (v, q, z) = >>=-eq-ok (add_metadata d false (length u.id_accum) u) _ y in
        let (wu, room) = close_group-IsWithin s d g u w p in
        let c = sym (add_metadata-core d false _ u v q) in
        subst (λ k. IsWithin (core k)) (ok-injective z)
          (add_id-IsWithin d v (subst IsWithin c wu)
            (subst (λ k. suc (length k.4) ≤ max_recheck_ids) c room))

read_rechecks-IsWithin :
    (s : Settings) (ds : List Doc) (g g' : Grouping)
    → IsWithin (core g)
    → read_rechecks s ds g ≡ ok g'
    → IsWithin (core g')
unfolding read_rechecks
read_rechecks-IsWithin s [] g g' w h = subst (λ u. IsWithin (core u)) (ok-injective h) w
read_rechecks-IsWithin s (d ∷ ds) g g' w h =
    let (u, p, y) = >>=-eq-ok (read_recheck s d g) (λ u. read_rechecks s ds u) h in
    read_rechecks-IsWithin s ds u g' (read_recheck-IsWithin s d g u w p) y

-- Each request of GenerateRecheckTasks holds 1 to 500 tasks, and each task 1 to 10,000 documents.
pub generate_recheck_tasks-IsBoundedRequest :
    (s : Settings) (ds : List Doc) (rs : List (List Task))
    → generate_recheck_tasks s ds false ≡ ok rs
    → All IsBoundedRequest rs
unfolding generate_recheck_tasks
generate_recheck_tasks-IsBoundedRequest s ds rs h =
    let (g, p, y) = >>=-eq-ok (read_rechecks s ds no_group) _ h in
    let (g', q, z) = >>=-eq-ok (persist_buffered_rechecks s g) _ y in
    let start : IsWithin (core no_group) = record {
      ids = omega arith;
      tasks = omega arith;
      each = tt;
      requests = tt;
    } in
    let w = persist-IsWithin s g g' (read_rechecks-IsWithin s ds no_group g start p) q in
    subst (All IsBoundedRequest) (ok-injective z)
      (last_request g'.requests g'.cur_tasks w.requests w.tasks w.each)
  where
    last_request :
        (reqs : List (List Task)) (ts : List Task)
        → All IsBoundedRequest reqs
        → suc (length ts) ≤ max_tasks_per_request
        → All IsBoundedTask ts
        → All IsBoundedRequest (if is_empty ts then reqs else reqs ++ ts ∷ [])
    last_request reqs [] r l e = r
    last_request reqs (t ∷ ts) r l e =
        All-append IsBoundedRequest reqs ((t ∷ ts) ∷ []) r ((omega arith, omega (arith, l), e), tt)
