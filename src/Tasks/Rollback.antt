-- ===== src/Tasks/Rollback.antt =====
-- After reset.go has run, nothing is in progress; running it again changes nothing.
use migration_verifier_docdb.Base.{
  ℕ, ◌≡◌, ◌≢◌, ◌⊎◌, inl, inr, refl, sym, ◌∙◌, ap, Bool, true, false, [], ◌∷◌, arith, if◌then◌else◌,
  Outcome, ok, ◌>>=◌, >>=-eq-ok, ok-injective, subst, Bool-cases,
}
use migration_verifier_docdb.Tasks.Types.{
  TaskType, process_recheck_queue, verify_collection, verify_documents, primary, added, same_type,
  same_status, Task, in_generation,
}
use migration_verifier_docdb.Tasks.Store.{Tasks, TaskError, update_many, delete_many, find}
use migration_verifier_docdb.Tasks.Reset.{
  is_in_progress, find_in_progress_tasks, is_incomplete_primary, is_not_primary,
  reset_non_primaries, handle_incomplete_primary, has_key, reset_collections,
  reset_collection_tasks_if_needed, is_document_task_in, reset_recheck_queue,
  reset_process_recheck_queue_tasks_if_needed, reset_document_tasks_if_needed,
  reset_in_progress_tasks,
}
use migration_verifier_docdb.Tasks.InProgress.{
  None, Found, Found-None, Found-find, if_ok, None-delete, Found-delete, None-update, Found-update,
}

-- The loop over the collection tasks found leaves none of them in progress.
reset_collections-None :
    (ty : TaskType) (found ts : Tasks)
    → Found (is_in_progress ty) found ts
    → None (is_in_progress ty) (reset_collections found ts)
unfolding reset_collections
reset_collections-None ty [] ts f = Found-None (is_in_progress ty) ts f
reset_collections-None ty (t ∷ found) ts f = elim (Bool-cases (in_generation 0 t)) [
  | inl h ↦ rw h (
      reset_collections-None ty found _
        (Found-update ty t found _ (Found-delete (is_in_progress ty) _ (t ∷ found) ts f)))
  | inr h ↦ rw h (reset_collections-None ty found _ (Found-update ty t found ts f))
]

-- It adds no task in progress of any type.
reset_collections-kept :
    (ty : TaskType) (found ts : Tasks)
    → None (is_in_progress ty) ts
    → None (is_in_progress ty) (reset_collections found ts)
unfolding reset_collections
reset_collections-kept ty [] ts n = n
reset_collections-kept ty (t ∷ found) ts n = elim (Bool-cases (in_generation 0 t)) [
  | inl h ↦ rw h (
      reset_collections-kept ty found _
        (None-update ty _ _ (None-delete (is_in_progress ty) _ ts n)))
  | inr h ↦ rw h (reset_collections-kept ty found _ (None-update ty _ ts n))
]

-- The recheck queue's tasks: none in progress is left, whatever was found.
reset_recheck_queue-None :
    (ty : TaskType) (g : ℕ) (found ts ts' : Tasks)
    → Found (is_in_progress ty) found ts
    → reset_recheck_queue g found ts ≡ ok ts'
    → None (is_in_progress ty) ts'
unfolding reset_recheck_queue
reset_recheck_queue-None ty g [] ts ts' f e =
    subst (None (is_in_progress ty)) (ok-injective e) (Found-None (is_in_progress ty) ts f)
reset_recheck_queue-None ty g (t ∷ []) ts ts' f e =
    let (h, x) = if_ok (in_generation g t) _ ts' _ e in
    subst (None (is_in_progress ty)) x (
      Found-None (is_in_progress ty) _ (
        Found-update ty t [] _
          (Found-delete (is_in_progress ty) (is_document_task_in g) (t ∷ []) ts f)))
reset_recheck_queue-None ty g (t ∷ u ∷ us) ts ts' f e = absurd (ground arith)

reset_recheck_queue-kept :
    (ty : TaskType) (g : ℕ) (found ts ts' : Tasks)
    → None (is_in_progress ty) ts
    → reset_recheck_queue g found ts ≡ ok ts'
    → None (is_in_progress ty) ts'
unfolding reset_recheck_queue
reset_recheck_queue-kept ty g [] ts ts' n e = subst (None (is_in_progress ty)) (ok-injective e) n
reset_recheck_queue-kept ty g (t ∷ []) ts ts' n e =
    let (h, x) = if_ok (in_generation g t) _ ts' _ e in
    subst (None (is_in_progress ty)) x (
      None-update ty (has_key t.primary_key) _
        (None-delete (is_in_progress ty) (is_document_task_in g) ts n))
reset_recheck_queue-kept ty g (t ∷ u ∷ us) ts ts' n e = absurd (ground arith)

-- The last update leaves no document task in progress.
reset_document_tasks-None :
    (ts : Tasks) → None (is_in_progress verify_documents) (reset_document_tasks_if_needed ts)
unfolding reset_document_tasks_if_needed update_many
reset_document_tasks-None [] = tt
reset_document_tasks-None (t ∷ ts) = (ground arith, reset_document_tasks-None ts)

None-document :
    (ty : TaskType) (ts : Tasks)
    → None (is_in_progress ty) ts
    → None (is_in_progress ty) (reset_document_tasks_if_needed ts)
unfolding reset_document_tasks_if_needed
None-document ty ts n = None-update ty _ ts n

if_false :
    (b : Bool) (y x z : Outcome TaskError Tasks) → b ≡ false → (if b then y else x) ≡ z → x ≡ z
if_false false y x z h e = e
if_false true y x z h e = absurd (ground arith)

if_true : (b : Bool) (x y z : Outcome TaskError Tasks) → b ≡ true → (if b then x else y) ≡ z → x ≡ z
if_true true x y z h e = e
if_true false x y z h e = absurd (ground arith)

not_primary : (ty : TaskType) → ty ≢ primary → same_type primary ty ≡ false
not_primary process_recheck_queue n = refl
not_primary verify_collection n = refl
not_primary verify_documents n = refl
not_primary primary n = absurd (n refl)

-- Deleting every task but the primary ones leaves nothing of another type.
delete_non_primaries-None :
    (ty : TaskType) (ts : Tasks)
    → same_type primary ty ≡ false
    → None (is_in_progress ty) (delete_many is_not_primary ts)
unfolding delete_many
delete_non_primaries-None ty [] h = tt
delete_non_primaries-None ty (t ∷ ts) h = elim (Bool-cases (is_not_primary t)) [
  | inl e ↦ rw e (delete_non_primaries-None ty ts h)
  | inr e ↦ rw e (primary_not_in_progress ty t h e, delete_non_primaries-None ty ts h)
]
  where
    primary_not_in_progress :
        (ty : TaskType) (t : Task)
        → same_type primary ty ≡ false
        → is_not_primary t ≡ false
        → is_in_progress ty t ≡ false
    primary_not_in_progress ty t h e = ground arith

-- The reset of the primary task: with no incomplete primary task nothing changes; with one, every
-- other task goes.
reset_non_primaries-cases :
    (found ts ts' : Tasks) (b : Bool)
    → reset_non_primaries found ts ≡ ok (b, ts')
    → ((b ≡ false) × (ts ≡ ts')) ⊎ ((b ≡ true) × (delete_many is_not_primary ts ≡ ts'))
unfolding reset_non_primaries
reset_non_primaries-cases [] ts ts' b e =
    inl (sym (ap (λ r. r.0) (ok-injective e)), ap (λ r. r.1) (ok-injective e))
reset_non_primaries-cases (p ∷ []) ts ts' b e =
    let (h, x) = if_ok (same_status p.status added) _ (b, ts') _ e in
    inr (sym (ap (λ r. r.0) x), ap (λ r. r.1) x)
reset_non_primaries-cases (p ∷ q ∷ ps) ts ts' b e = absurd (ground arith)

-- The three resets after it.
reset_each-None :
    (ty : TaskType) (g : ℕ) (ts us : Tasks)
    → ty ≢ primary
    → reset_process_recheck_queue_tasks_if_needed g (reset_collection_tasks_if_needed ts) ≡ ok us
    → None (is_in_progress ty) (reset_document_tasks_if_needed us)
unfolding reset_process_recheck_queue_tasks_if_needed reset_collection_tasks_if_needed
    find_in_progress_tasks
reset_each-None process_recheck_queue g ts us n h =
    let found =
      find_in_progress_tasks process_recheck_queue (reset_collection_tasks_if_needed ts) in
    None-document process_recheck_queue us (
      reset_recheck_queue-None process_recheck_queue g found (reset_collection_tasks_if_needed ts)
        us (Found-find (is_in_progress process_recheck_queue) (reset_collection_tasks_if_needed ts))
        h)
reset_each-None verify_collection g ts us n h =
    let found =
      find_in_progress_tasks process_recheck_queue (reset_collection_tasks_if_needed ts) in
    None-document verify_collection us (
      reset_recheck_queue-kept verify_collection g found (reset_collection_tasks_if_needed ts) us
        (reset_collections-None verify_collection (find_in_progress_tasks verify_collection ts) ts
          (Found-find (is_in_progress verify_collection) ts))
        h)
reset_each-None verify_documents g ts us n h = reset_document_tasks-None us
reset_each-None primary g ts us n h = absurd (n refl)

reset_rest-None :
    (ty : TaskType) (g : ℕ) (ts ts' : Tasks)
    → ty ≢ primary
    → (reset_process_recheck_queue_tasks_if_needed g (reset_collection_tasks_if_needed ts)
        >>= λ ts''. ok (reset_document_tasks_if_needed ts''))
      ≡ ok ts'
    → None (is_in_progress ty) ts'
reset_rest-None ty g ts ts' n e =
    let (us, h, x) = >>=-eq-ok _ _ e in
    subst (None (is_in_progress ty)) (ok-injective x) (reset_each-None ty g ts us n h)

-- When the reset succeeds, no task but a primary one is in progress any more.
pub reset_in_progress_tasks-None :
    (ty : TaskType) (g : ℕ) (ts ts' : Tasks)
    → ty ≢ primary
    → reset_in_progress_tasks g ts ≡ ok ts'
    → None (is_in_progress ty) ts'
unfolding reset_in_progress_tasks handle_incomplete_primary
reset_in_progress_tasks-None ty g ts ts' n e =
    let ((b, us), h, x) = >>=-eq-ok (handle_incomplete_primary ts) _ e in
    elim (reset_non_primaries-cases (find is_incomplete_primary ts) ts us b h) [
      | inl (b0, same) ↦ reset_rest-None ty g us ts' n (if_false b (ok us) _ (ok ts') b0 x)
      | inr (b1, gone) ↦
          subst (None (is_in_progress ty)) (gone ∙ ok-injective (if_true b (ok us) _ (ok ts') b1 x))
            (delete_non_primaries-None ty ts (not_primary ty n))
    ]
