-- ===== src/Tasks/Progress.antt =====
-- What is taken, and which IDs there are, under the workers' steps.
use migration_verifier_docdb.Base.{
  ℕ, ◌≡◌, ◌≢◌, refl, inl, inr, Bool, true, false, List, [], ◌∷◌, ◌++◌, arith, if◌then◌else◌, ◌==◌,
  ◌||◌, ok, err, ok-injective, Bool-cases,
}
use migration_verifier_docdb.Tasks.Types.{
  Status, added, processing, completed, failed, metadata_mismatch, same_status, Task,
}
use migration_verifier_docdb.Tasks.Store.{
  Tasks, update_one, any_task, set_progress, update_verification_task, error_update_task,
}
use migration_verifier_docdb.Tasks.Reset.{has_key}
use migration_verifier_docdb.Tasks.InProgress.{None}
use migration_verifier_docdb.Tasks.Workers.{is_held}
use migration_verifier_docdb.Tasks.Waiting.{
  None-append, weaken_key, key_sym, IsUnique, IsExclusive, is_waiting, AreTaken,
}

pub not_added : (s : Status) → s ≢ added → same_status s added ≡ false
not_added added n = absurd (n refl)
not_added processing n = refl
not_added completed n = refl
not_added failed n = refl
not_added metadata_mismatch n = refl

-- The update that UpdateVerificationTask makes.
pub None-progress :
    (k : ℕ) (task : Task) (ts : Tasks)
    → None (has_key k) ts
    → None (has_key k) (update_one (has_key task.primary_key) (set_progress task) ts)
unfolding update_one
None-progress k task [] n = tt
None-progress k task (t ∷ ts) (e, n) = elim (Bool-cases (has_key task.primary_key t)) [
  | inl h ↦ rw h (e, n)
  | inr h ↦ rw h (e, None-progress k task ts n)
]

pub IsUnique-progress :
    (task : Task) (ts : Tasks)
    → IsUnique ts
    → IsUnique (update_one (has_key task.primary_key) (set_progress task) ts)
unfolding update_one
IsUnique-progress task [] u = tt
IsUnique-progress task (t ∷ ts) (n, u) = elim (Bool-cases (has_key task.primary_key t)) [
  | inl h ↦ rw h (n, u)
  | inr h ↦ rw h (None-progress t.primary_key task ts n, IsUnique-progress task ts u)
]

pub progress-waiting :
    (k : ℕ) (task t : Task)
    → same_status task.status added ≡ false
    → is_waiting k (set_progress task t) ≡ false
progress-waiting k task t e = ground arith

pub waiting-progress :
    (k : ℕ) (task : Task) (ts : Tasks)
    → same_status task.status added ≡ false
    → None (is_waiting k) ts
    → None (is_waiting k) (update_one (has_key task.primary_key) (set_progress task) ts)
unfolding update_one
waiting-progress k task [] e n = tt
waiting-progress k task (t ∷ ts) e (f, n) = elim (Bool-cases (has_key task.primary_key t)) [
  | inl h ↦ rw h (progress-waiting k task t e, n)
  | inr h ↦ rw h (f, waiting-progress k task ts e n)
]

pub AreTaken-progress :
    (held : List (ℕ × ℕ)) (task : Task) (ts : Tasks)
    → same_status task.status added ≡ false
    → AreTaken held ts
    → AreTaken held (update_one (has_key task.primary_key) (set_progress task) ts)
AreTaken-progress [] task ts e h = tt
AreTaken-progress ((w, k) ∷ held) task ts e (n, h) =
    (waiting-progress k task ts e n, AreTaken-progress held task ts e h)

pub updated :
    (task : Task) (ts ts' : Tasks)
    → update_verification_task task ts ≡ ok ts'
    → update_one (has_key task.primary_key) (set_progress task) ts ≡ ts'
unfolding update_verification_task
updated task ts ts' h = by_test (any_task (has_key task.primary_key) ts) h
  where
    by_test :
        (b : Bool)
        → (if b
            then ok (update_one (has_key task.primary_key) (set_progress task) ts)
            else err error_update_task)
          ≡ ok ts'
        → update_one (has_key task.primary_key) (set_progress task) ts ≡ ts'
    by_test true x = ok-injective x
    by_test false x = absurd (ground arith)

-- A new task, under a new ID.
pub IsUnique-insert :
    (ts : Tasks) (t : Task)
    → IsUnique ts
    → None (has_key t.primary_key) ts
    → IsUnique (ts ++ t ∷ [])
IsUnique-insert [] t u n = (tt, tt)
IsUnique-insert (x ∷ xs) t (m, u) (e, n) = (
  None-append (has_key x.primary_key) xs (t ∷ []) m (key_sym t x e, tt),
  IsUnique-insert xs t u n,
)

pub held_cases : (a b : Bool) → (a || b) ≡ false → (a ≡ false) × (b ≡ false)
held_cases a b h = ground arith

pub other_key : (j : ℕ) (t : Task) → (j == t.primary_key) ≡ false → has_key j t ≡ false
other_key j t e = ground arith

pub AreTaken-insert :
    (held : List (ℕ × ℕ)) (ts : Tasks) (t : Task)
    → is_held t.primary_key held ≡ false
    → AreTaken held ts
    → AreTaken held (ts ++ t ∷ [])
AreTaken-insert [] ts t e h = tt
AreTaken-insert ((w, j) ∷ held) ts t e (n, h) =
    let (a, b) = held_cases (j == t.primary_key) (is_held t.primary_key held) e in
    (
      None-append (is_waiting j) ts (t ∷ []) n (weaken_key j t (other_key j t a), tt),
      AreTaken-insert held ts t b h,
    )

-- A worker that no longer holds its task.
pub held-remove :
    (k : ℕ) (xs ys : List (ℕ × ℕ)) (x : ℕ × ℕ)
    → is_held k (xs ++ x ∷ ys) ≡ false
    → is_held k (xs ++ ys) ≡ false
held-remove k [] ys (w, j) e = (held_cases (j == k) (is_held k ys) e).1
held-remove k ((v, i) ∷ xs) ys x e =
    let (a, b) = held_cases (i == k) (is_held k (xs ++ x ∷ ys)) e in
    both_false (i == k) (is_held k (xs ++ ys)) a (held-remove k xs ys x b)
  where
    both_false : (a b : Bool) → a ≡ false → b ≡ false → (a || b) ≡ false
    both_false a b p q = ground arith

pub IsExclusive-remove :
    (xs ys : List (ℕ × ℕ)) (x : ℕ × ℕ) → IsExclusive (xs ++ x ∷ ys) → IsExclusive (xs ++ ys)
IsExclusive-remove [] ys x (e, h) = h
IsExclusive-remove ((v, i) ∷ xs) ys x (e, h) =
    (held-remove i xs ys x e, IsExclusive-remove xs ys x h)

pub AreTaken-remove :
    (xs ys : List (ℕ × ℕ)) (x : ℕ × ℕ) (ts : Tasks)
    → AreTaken (xs ++ x ∷ ys) ts
    → AreTaken (xs ++ ys) ts
AreTaken-remove [] ys x ts (n, h) = h
AreTaken-remove ((v, i) ∷ xs) ys x ts (n, h) = (n, AreTaken-remove xs ys x ts h)
