-- ===== src/Tasks/Exclusive.antt =====
-- No two workers hold one task.
use migration_verifier_docdb.Base.{
  ℕ, ◌≡◌, ◌≢◌, sym, ◌∙◌, ap, subst, false, Option, none, some, [], ◌∷◌, ◌++◌, arith,
}
use mathlib.Core.Path.{subst₂}
use mathlib.Core.Option.{some-injective}
use migration_verifier_docdb.Tasks.Types.{Task}
use migration_verifier_docdb.Tasks.Store.{Tasks, claim}
use migration_verifier_docdb.Tasks.Claim.{
  IsClaim, ClaimOutcome, takes, finds_none, find_next_verify_task_and_update-claims,
}
use migration_verifier_docdb.Tasks.Workers.{
  Workers, is_held, WorkStep, takes_task, inserts_task, finishes_task, WorkRun, stays, steps,
}
use migration_verifier_docdb.Tasks.Waiting.{
  None-append, None-waiting, unique-before, unique-behind, IsUnique-claim, claimed-waiting,
  AreTaken-claim, claimable_not_held, IsUnique, IsExclusive, is_waiting, AreTaken,
}
use migration_verifier_docdb.Tasks.Progress.{
  not_added, IsUnique-progress, AreTaken-progress, updated, IsUnique-insert, AreTaken-insert,
  IsExclusive-remove, AreTaken-remove,
}

record IsSound (s : Workers) : Type 0 where
  pub unique : IsUnique s.tasks
  pub exclusive : IsExclusive s.held
  pub taken : AreTaken s.held s.tasks

claim-IsSound :
    (g w now : ℕ) (s : Workers) (t : Task) (ts : Tasks)
    → IsClaim g now s.tasks t ts
    → IsSound s
    → IsSound (record { tasks = ts; held = (w, t.primary_key) ∷ s.held })
claim-IsSound g w now s t ts c i =
    let unique = subst IsUnique c.before i.unique in
    let taken = subst (AreTaken s.held) c.before i.taken in
    let after : c.earlier ++ claim now c.original ∷ c.later ≡ ts =
      ap (λ u. c.earlier ++ u ∷ c.later) (sym c.claimed) ∙ sym c.after in
    let key : c.original.primary_key ≡ t.primary_key = sym (ap (λ u. u.primary_key) c.claimed) in
    record {
      unique = subst IsUnique after (IsUnique-claim c.earlier c.later c.original now unique);
      exclusive = (
        subst (λ k. is_held k s.held ≡ false) key
            (claimable_not_held g s.held c.earlier c.later c.original c.claimable taken),
        i.exclusive,
      );
      taken =
          subst (λ k. AreTaken ((w, k) ∷ s.held) ts) key
            (subst (λ us. AreTaken ((w, c.original.primary_key) ∷ s.held) us) after
              (
                None-append (is_waiting c.original.primary_key) c.earlier
                    (claim now c.original ∷ c.later)
                    (None-waiting c.original.primary_key c.earlier
                      (unique-before c.earlier c.later c.original unique))
                    (
                      claimed-waiting c.original.primary_key now c.original,
                      None-waiting c.original.primary_key c.later
                          (unique-behind c.earlier c.later c.original unique),
                    ),
                AreTaken-claim s.held c.earlier c.later c.original now taken,
              ));
    }

step-IsSound : (g : ℕ) (s s' : Workers) → WorkStep g s s' → IsSound s → IsSound s'
step-IsSound g s s' (takes_task s₀ w now t ts e) i =
    by_outcome (find_next_verify_task_and_update-claims g now s.tasks)
  where
    by_outcome :
        ClaimOutcome g now s.tasks
        → IsSound (record { tasks = ts; held = (w, t.primary_key) ∷ s.held })
    by_outcome (takes taken us e' c) =
        let same = sym e' ∙ e in
        claim-IsSound g w now s t ts
          (subst₂ (λ a b. IsClaim g now s.tasks a b) (some-injective taken t (ap (λ r. r.0) same))
            (ap (λ r. r.1) same) c)
          i
    by_outcome (finds_none e' n) = absurd (none_some t (ap (λ r. r.0) (sym e' ∙ e)))
      where
        none_some : (t : Task) → ◌≢◌ {A = Option Task} none (some t)
        none_some t h = ground arith
step-IsSound g s s' (inserts_task s₀ t n e) i = record {
  unique = IsUnique-insert s.tasks t i.unique n;
  exclusive = i.exclusive;
  taken = AreTaken-insert s.held s.tasks t e i.taken;
}
step-IsSound g s s' (finishes_task s₀ w k before behind t ts h e n u) i =
    let new = updated t s.tasks ts u in
    record {
      unique = subst IsUnique new (IsUnique-progress t s.tasks i.unique);
      exclusive = IsExclusive-remove before behind (w, k) (subst IsExclusive h i.exclusive);
      taken =
          AreTaken-remove before behind (w, k) ts
            (subst₂ AreTaken h new
              (AreTaken-progress s.held t s.tasks (not_added t.status n) i.taken));
    }

run-IsSound : (g : ℕ) (s s' : Workers) → WorkRun g s s' → IsSound s → IsSound s'
run-IsSound g s s' (stays s₀) i = i
run-IsSound g s s' (steps s₀ u v r e) i = step-IsSound g u s' e (run-IsSound g s u r i)

-- Where no ID stands twice and no worker is busy, any interleaving of the workers' steps leaves no two
-- workers with one task, and no ID twice.
pub WorkRun-IsExclusive :
    (g : ℕ) (ts : Tasks) (s : Workers)
    → IsUnique ts
    → WorkRun g (record { tasks = ts; held = [] }) s
    → IsExclusive s.held × IsUnique s.tasks
WorkRun-IsExclusive g ts s u r =
    let i =
      run-IsSound g (record { tasks = ts; held = [] }) s r
        (record { unique = u; exclusive = tt; taken = tt }) in
    (i.exclusive, i.unique)
