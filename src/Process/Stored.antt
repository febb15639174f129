-- ===== src/Process/Stored.antt =====
-- What UpdateVerificationTask leaves in the task collection.
use migration_verifier_docdb.Base.{
  ◌≡◌, refl, subst, true, [], ◌∷◌, arith, ok, ok-injective, Bool-cases, inl, inr,
}
use migration_verifier_docdb.Tasks.{
  Task, Tasks, has_key, find, any_task, update_one, set_progress, update_verification_task,
}

-- The first task in the collection with the task's key has its status and its counts.
abbrev pub IsStored : Task → Tasks → Type 0
IsStored task ts =
    (t : Task) × (rest : Tasks) × (find (has_key task.primary_key) ts ≡ t ∷ rest)
    × (t.status ≡ task.status)
    × (t.documents_count ≡ task.documents_count)
    × (t.found_source_documents_count ≡ task.found_source_documents_count)
    × (t.source_bytes_count ≡ task.source_bytes_count)

update_one-finds :
    (task : Task) (ts : Tasks)
    → any_task (has_key task.primary_key) ts ≡ true
    → (t : Task) × (rest : Tasks) × (find
          (has_key task.primary_key)
          (update_one (has_key task.primary_key) (set_progress task) ts)
        ≡ set_progress task t ∷ rest)
unfolding any_task update_one find
update_one-finds task [] h = cc
update_one-finds task (t ∷ ts) h = elim (Bool-cases (has_key task.primary_key t)) [
  | inl e ↦ (t, find (has_key task.primary_key) ts, rw e (rw e refl))
  | inr e ↦ let (u, rest, x) = update_one-finds task ts (ground arith) in (u, rest, rw e (rw e x))
]

pub update-IsStored :
    (task : Task) (ts us : Tasks) → update_verification_task task ts ≡ ok us → IsStored task us
unfolding update_verification_task
update-IsStored task ts us h = elim (Bool-cases (any_task (has_key task.primary_key) ts)) [
  | inl e ↦
      let (t, rest, x) = update_one-finds task ts e in
      subst (IsStored task) (ok-injective (rw e at h))
        (set_progress task t, rest, x, refl, refl, refl, refl)
  | inr e ↦ absurd (ground arith)
]
