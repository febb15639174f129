-- ===== src/Tasks/Waiting.antt =====
-- Tasks that wait to be taken, in a list in which no ID stands twice.
use migration_verifier_docdb.Base.{
  ℕ, ◌≡◌, refl, Bool, true, false, List, [], ◌∷◌, ◌++◌, arith, ◌==◌, ◌&&◌, ◌||◌,
}
use migration_verifier_docdb.Tasks.Types.{added, same_status, Task}
use migration_verifier_docdb.Tasks.Store.{Tasks, claim, is_claimable}
use migration_verifier_docdb.Tasks.Reset.{has_key}
use migration_verifier_docdb.Tasks.InProgress.{None}
use migration_verifier_docdb.Tasks.Workers.{is_held}

-- No ID stands twice in the tasks.
abbrev pub IsUnique : Tasks → Type 0
IsUnique [] = Unit
IsUnique (t ∷ ts) = None (has_key t.primary_key) ts × IsUnique ts

-- No worker holds what another one holds.
abbrev pub IsExclusive : List (ℕ × ℕ) → Type 0
IsExclusive [] = Unit
IsExclusive ((w, k) ∷ held) = (is_held k held ≡ false) × IsExclusive held

abbrev pub is_waiting : ℕ → Task → Bool
is_waiting k t = has_key k t && same_status t.status added

-- What is held does not wait to be taken.
abbrev pub AreTaken : List (ℕ × ℕ) → Tasks → Type 0
AreTaken [] ts = Unit
AreTaken ((w, k) ∷ held) ts = None (is_waiting k) ts × AreTaken held ts

pub None-append : (p : Task → Bool) (xs ys : Tasks) → None p xs → None p ys → None p (xs ++ ys)
None-append p [] ys n m = m
None-append p (x ∷ xs) ys (e, n) m = (e, None-append p xs ys n m)

pub None-left : (p : Task → Bool) (xs ys : Tasks) → None p (xs ++ ys) → None p xs
None-left p [] ys n = tt
None-left p (x ∷ xs) ys (e, n) = (e, None-left p xs ys n)

pub None-right : (p : Task → Bool) (xs ys : Tasks) → None p (xs ++ ys) → None p ys
None-right p [] ys n = n
None-right p (x ∷ xs) ys (e, n) = None-right p xs ys n

-- Replacing one task by another that does not pass a test.
pub None-replace :
    (p : Task → Bool) (xs ys : Tasks) (t u : Task)
    → p u ≡ false
    → None p (xs ++ t ∷ ys)
    → None p (xs ++ u ∷ ys)
None-replace p xs ys t u e n =
    None-append p xs (u ∷ ys) (None-left p xs (t ∷ ys) n) (e, (None-right p xs (t ∷ ys) n).1)

pub weaken_key : (k : ℕ) (t : Task) → has_key k t ≡ false → is_waiting k t ≡ false
weaken_key k t e = ground arith

pub None-waiting : (k : ℕ) (ts : Tasks) → None (has_key k) ts → None (is_waiting k) ts
None-waiting k [] n = tt
None-waiting k (t ∷ ts) (e, n) = (weaken_key k t e, None-waiting k ts n)

pub key_sym : (t u : Task) → has_key t.primary_key u ≡ false → has_key u.primary_key t ≡ false
key_sym t u e = ground arith

-- The other tasks of a list without double IDs have other IDs.
pub unique-before :
    (xs ys : Tasks) (t : Task) → IsUnique (xs ++ t ∷ ys) → None (has_key t.primary_key) xs
unique-before [] ys t u = tt
unique-before (x ∷ xs) ys t (n, u) =
    (key_sym x t (None-right (has_key x.primary_key) xs (t ∷ ys) n).0, unique-before xs ys t u)

pub unique-behind :
    (xs ys : Tasks) (t : Task) → IsUnique (xs ++ t ∷ ys) → None (has_key t.primary_key) ys
unique-behind [] ys t (n, u) = n
unique-behind (x ∷ xs) ys t (n, u) = unique-behind xs ys t u

pub IsUnique-claim :
    (xs ys : Tasks) (t : Task) (now : ℕ)
    → IsUnique (xs ++ t ∷ ys)
    → IsUnique (xs ++ claim now t ∷ ys)
IsUnique-claim [] ys t now u = u
IsUnique-claim (x ∷ xs) ys t now (n, u) = (
  None-replace (has_key x.primary_key) xs ys t (claim now t)
      (None-right (has_key x.primary_key) xs (t ∷ ys) n).0 n,
  IsUnique-claim xs ys t now u,
)

pub claimed-waiting : (k now : ℕ) (t : Task) → is_waiting k (claim now t) ≡ false
claimed-waiting k now t = ground arith

pub AreTaken-claim :
    (held : List (ℕ × ℕ)) (xs ys : Tasks) (t : Task) (now : ℕ)
    → AreTaken held (xs ++ t ∷ ys)
    → AreTaken held (xs ++ claim now t ∷ ys)
AreTaken-claim [] xs ys t now h = tt
AreTaken-claim ((w, k) ∷ held) xs ys t now (n, h) = (
  None-replace (is_waiting k) xs ys t (claim now t) (claimed-waiting k now t) n,
  AreTaken-claim held xs ys t now h,
)

pub claimable-waiting :
    (g k : ℕ) (t : Task)
    → is_claimable g t ≡ true
    → is_waiting k t ≡ false
    → (k == t.primary_key) ≡ false
claimable-waiting g k t c e = ground arith

-- A task that can be claimed is not held.
pub claimable_not_held :
    (g : ℕ) (held : List (ℕ × ℕ)) (xs ys : Tasks) (t : Task)
    → is_claimable g t ≡ true
    → AreTaken held (xs ++ t ∷ ys)
    → is_held t.primary_key held ≡ false
claimable_not_held g [] xs ys t c h = refl
claimable_not_held g ((w, k) ∷ held) xs ys t c (n, h) =
    or_false (k == t.primary_key) (is_held t.primary_key held)
      (claimable-waiting g k t c (None-right (is_waiting k) xs (t ∷ ys) n).0)
      (claimable_not_held g held xs ys t c h)
  where
    or_false : (a b : Bool) → a ≡ false → b ≡ false → (a || b) ≡ false
    or_false a b p q = ground arith
