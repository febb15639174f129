-- ===== src/Driver/Ends.antt =====
-- When the generations end well, and when the driver waits for its own lock.
use migration_verifier_docdb.Base.{
  suc, ◌⊎◌, ◌≡◌, ◌≢◌, ◌↔◌, refl, sym, subst, Bool, true, false, not, List, [], ◌∷◌, if◌then◌else◌,
  ok, err,
}
use migration_verifier_docdb.Tasks.{ensure_create_recheck_task}
use migration_verifier_docdb.Driver.Setup.{
  DriverSettings, DriverError, recheck_task_failed, persist_panicked, deadlock, Driver, Step,
  then_do,
}
use migration_verifier_docdb.Driver.Generations.{
  Round, Handling, handled, handling_fails, context_ends, unlock, lock, await_handling,
  next_generation, after_work, run_generations, Persisting, is_persisted, persist_errs, miscounted,
  finish_driver,
}
use migration_verifier_docdb.Driver.Finishes.{IsLast, Succeeds}

-- The tests of a generation, for a predicate on the steps.
tests-cases :
    (P : Step → Type 0) (p : Persisting) (w l : Bool) (a m b c x : Step)
    → (p ≡ persist_errs → P a)
    → (p ≡ miscounted → P m)
    → (w ≡ false → P b)
    → (l ≡ true → P c)
    → (l ≡ false → P x)
    → P (elim p as (λ y. Step) [
      | is_persisted ↦ if not w then b else if l then c else x
      | persist_errs ↦ a
      | miscounted ↦ m
    ])
tests-cases P persist_errs w l a m b c x f g h k o = f refl
tests-cases P miscounted w l a m b c x f g h k o = g refl
tests-cases P is_persisted false l a m b c x f g h k o = h refl
tests-cases P is_persisted true true a m b c x f g h k o = k refl
tests-cases P is_persisted true false a m b c x f g h k o = o refl

await_handling-cases :
    (P : Step → Type 0) (r : Round) (d : Driver) (next : Driver → Step)
    → (d.writes_off ≡ false → P (next d))
    → (d.writes_off ≡ true → r.handling ≡ handled → P (next (record d { last_generation = true })))
    → (d.writes_off ≡ true
        → r.handling ≢ handled
        → (e : DriverError) → ((e ≢ recheck_task_failed) × (e ≢ persist_panicked) × (e ≢ deadlock))
        → P (err e, unlock d))
    → P (then_do (await_handling r d) next)
await_handling-cases P r d next f g h = by_writes d.writes_off r.handling refl refl
  where
    by_writes :
        (off : Bool) (k : Handling)
        → d.writes_off ≡ off
        → r.handling ≡ k
        → P (
            then_do
              (if not off then (ok tt, d) else (elim k as (λ x. Step) [
                | handled ↦ (ok tt, record d { last_generation = true })
                | handling_fails ↦ (err DriverError.handling_failed, unlock d)
                | context_ends ↦ (err DriverError.canceled, unlock d)
              ]))
              next)
    by_writes false k p q = f p
    by_writes true handled p q = g p q
    by_writes true handling_fails p q =
        h p (λ x. absurd (cc (q, x))) DriverError.handling_failed ((λ x. cc), (λ x. cc), (λ x. cc))
    by_writes true context_ends p q =
        h p (λ x. absurd (cc (q, x))) DriverError.canceled ((λ x. cc), (λ x. cc), (λ x. cc))

module _ (s : DriverSettings) where
  abbrev after_next : Round → Driver → Driver
  after_next r f = record f {
    generation = suc f.generation;
    tasks =
        ensure_create_recheck_task (s.keys (suc f.generation)) (suc f.generation) r.queue_is_empty
          f.tasks;
  }

  next_generation-cases :
      (P : Step → Type 0) (r : Round) (d : Driver) (next : Driver → Step)
      → (r.ensures ≡ true → P (next (after_next r d)))
      → (r.ensures ≡ false
          → P (err recheck_task_failed, record d { generation = suc d.generation }))
      → P (then_do (next_generation s r d) next)
  next_generation-cases P r d next f g = by_test r.ensures refl
    where
      by_test :
          (b : Bool)
          → r.ensures ≡ b
          → P (
              then_do
                (if b
                  then (ok tt, after_next r d)
                  else (err recheck_task_failed, record d { generation = suc d.generation }))
                next)
      by_test true p = f p
      by_test false p = g p

  abbrev EndsWell : Step → Type 0
  EndsWell st = (e : Driver) × (st ≡ (ok tt, e))

  IsLast-EndsWell :
      (rs : List Round) (d : Driver)
      → d.last_generation ≡ true
      → IsLast rs
      → EndsWell (run_generations s rs d)
  unfolding run_generations
  IsLast-EndsWell [] d l h = absurd h
  IsLast-EndsWell (r ∷ rs) d l (p, w) =
      tests-cases EndsWell r.persisting r.works d.last_generation _ _ _ _ _
        (λ e. absurd (cc (p, e))) (λ e. absurd (cc (p, e))) (λ e. absurd (cc (w, e)))
        (λ e. (after_work s r d, refl)) (λ e. absurd (cc (l, e)))

  -- For a driver that is not in its last generation: if the generations before writes are off succeed,
  -- then one whose change handling ends without an error, and one more, the loop ends without an error.
  pub run_generations-EndsWell :
      (rs : List Round) (d : Driver)
      → d.last_generation ≡ false
      → Succeeds d.writes_off rs
      → (e : Driver) × (run_generations s rs d ≡ (ok tt, e))
  unfolding run_generations
  run_generations-EndsWell [] d l h = absurd h
  run_generations-EndsWell (r ∷ rs) d l ((p, w), t, more) =
      tests-cases EndsWell r.persisting r.works d.last_generation _ _ _ _ _
        (λ e. absurd (cc (p, e))) (λ e. absurd (cc (p, e))) (λ e. absurd (cc (w, e)))
        (λ e. absurd (cc (l, e)))
        λ e.
          await_handling-cases EndsWell r (lock (after_work s r d)) _
            (λ q.
              next_generation-cases EndsWell r (lock (after_work s r d)) (run_generations s rs)
                (λ x.
                  run_generations-EndsWell rs (after_next r (lock (after_work s r d))) l
                    (subst (λ b. Succeeds b rs) (sym q) (rw q at more)))
                (λ x. absurd (cc (t, x))))
            (λ q j.
              next_generation-cases EndsWell r
                (record (lock (after_work s r d)) { last_generation = true }) (run_generations s rs)
                (λ x. IsLast-EndsWell rs _ refl (rw q at more).1) (λ x. absurd (cc (t, x))))
            (λ q j e' n. absurd (j (rw q at more).0))

  -- Whether the driver then waits for its own lock.
  abbrev Waits : Step → Type 0
  Waits st =
      ((finish_driver s st).0 ≡ err deadlock)
      ↔ ((st.0 ≡ err recheck_task_failed) ⊎ (st.0 ≡ err persist_panicked))
