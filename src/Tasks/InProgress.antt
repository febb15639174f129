-- ===== src/Tasks/InProgress.antt =====
-- Tasks in progress under the updates, deletes and searches of the task store.
use migration_verifier_docdb.Base.{
  ℕ, ◌≡◌, inl, inr, refl, sym, Bool, true, false, [], ◌∷◌, arith, if◌then◌else◌, ◌==◌, ◌||◌, ok,
  err, ok-injective, subst, Bool-cases,
}
use migration_verifier_docdb.Tasks.Types.{TaskType, Task}
use migration_verifier_docdb.Tasks.Store.{Tasks, TaskError, update_many, delete_many, find}
use migration_verifier_docdb.Tasks.Reset.{default_task_update, is_in_progress, has_key}

-- No task of the list passes a test.
abbrev pub None : (Task → Bool) → Tasks → Type 0
None p [] = Unit
None p (t ∷ ts) = (p t ≡ false) × None p ts

-- Every task that passes `p` has the key of a task of the other list.
abbrev pub key_in : ℕ → Tasks → Bool
key_in k [] = false
key_in k (t ∷ ts) = t.primary_key == k || key_in k ts

abbrev pub Found : (Task → Bool) → Tasks → Tasks → Type 0
Found p found [] = Unit
Found p found (t ∷ ts) = (p t ≡ true → key_in t.primary_key found ≡ true) × Found p found ts

pub find-None : (p : Task → Bool) (ts : Tasks) → None p ts → find p ts ≡ []
unfolding find
find-None p [] n = refl
find-None p (t ∷ ts) (e, n) = rw e (find-None p ts n)

pub None-find : (p : Task → Bool) (ts : Tasks) → find p ts ≡ [] → None p ts
unfolding find
None-find p [] e = tt
None-find p (t ∷ ts) e = elim (Bool-cases (p t)) [
  | inl h ↦ absurd (ground arith)
  | inr h ↦ (h, None-find p ts (ground arith))
]

pub Found-None : (p : Task → Bool) (ts : Tasks) → Found p [] ts → None p ts
Found-None p [] f = tt
Found-None p (t ∷ ts) (h, f) = (ground arith, Found-None p ts f)

pub Found-more :
    (p : Task → Bool) (t : Task) (found ts : Tasks) → Found p found ts → Found p (t ∷ found) ts
Found-more p t found [] f = tt
Found-more p t found (u ∷ ts) (h, f) = (λ e. ground (arith, h e), Found-more p t found ts f)

pub find-pos :
    (p : Task → Bool) (t : Task) (ts : Tasks) → p t ≡ true → find p (t ∷ ts) ≡ t ∷ find p ts
unfolding find
find-pos p t ts h = rw h refl

pub find-neg : (p : Task → Bool) (t : Task) (ts : Tasks) → p t ≡ false → find p (t ∷ ts) ≡ find p ts
unfolding find
find-neg p t ts h = rw h refl

pub Found-find : (p : Task → Bool) (ts : Tasks) → Found p (find p ts) ts
Found-find p [] = tt
Found-find p (t ∷ ts) = elim (Bool-cases (p t)) [
  | inl h ↦
      subst (λ us. Found p us (t ∷ ts)) (sym (find-pos p t ts h))
        (λ e. ground arith, Found-more p t (find p ts) ts (Found-find p ts))
  | inr h ↦ subst (λ us. Found p us (t ∷ ts)) (sym (find-neg p t ts h)) (λ e. cc, Found-find p ts)
]

-- The value of a test that does not fail.
pub if_ok :
    {A : Type 0} (b : Bool) (x y : A) (e : TaskError)
    → (if b then ok x else err e) ≡ ok y
    → (b ≡ true) × (x ≡ y)
if_ok true x y e h = (refl, ok-injective h)
if_ok false x y e h = absurd (ground arith)

pub None-delete : (p q : Task → Bool) (ts : Tasks) → None p ts → None p (delete_many q ts)
unfolding delete_many
None-delete p q [] n = tt
None-delete p q (t ∷ ts) (e, n) = ground (arith, None-delete p q ts n)

pub Found-delete :
    (p q : Task → Bool) (found ts : Tasks) → Found p found ts → Found p found (delete_many q ts)
unfolding delete_many
Found-delete p q found [] f = tt
Found-delete p q found (t ∷ ts) (h, f) = elim (Bool-cases (q t)) [
  | inl e ↦ rw e (Found-delete p q found ts f)
  | inr e ↦ rw e (h, Found-delete p q found ts f)
]

-- An update into `added` adds no task in progress.
pub None-update :
    (ty : TaskType) (q : Task → Bool) (ts : Tasks)
    → None (is_in_progress ty) ts
    → None (is_in_progress ty) (update_many q default_task_update ts)
unfolding update_many
None-update ty q [] n = tt
None-update ty q (t ∷ ts) (e, n) = (ground arith, None-update ty q ts n)

-- An update by key takes that key out of what is left to reset.
pub Found-update :
    (ty : TaskType) (t : Task) (found ts : Tasks)
    → Found (is_in_progress ty) (t ∷ found) ts
    → Found (is_in_progress ty) found (update_many (has_key t.primary_key) default_task_update ts)
unfolding update_many
Found-update ty t found [] f = tt
Found-update ty t found (u ∷ ts) (h, f) = elim (Bool-cases (has_key t.primary_key u)) [
  | inl e ↦ rw e (λ e'. ground arith, Found-update ty t found ts f)
  | inr e ↦ rw e (λ e'. ground (arith, h e'), Found-update ty t found ts f)
]
