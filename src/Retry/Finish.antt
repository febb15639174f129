-- ===== src/Retry/Finish.antt =====
-- What a round of the retry loop did when the loop ends with it.
use migration_verifier_docdb.Base.{
  ℕ, suc, ◌-◌, ◌≤◌, ◌≡◌, refl, Bool, true, false, not, Option, none, some, List, String, arith,
  if◌then◌else◌, Outcome, ok, err,
}
use migration_verifier_docdb.Retry.Builders.{Retryer, FuncInfo, get_descriptions}
use migration_verifier_docdb.Retry.Loop.{
  Attempt, Environment, RetryError, not_retryable, context_canceled, func_info,
  retry_limit_exceeded, LoopState, Step, done, again, should_retry, limit_exceeded, next_sleep_time,
  after_failure, after_group, no_func_info, before_failed, attempt_once, reset_others,
}
use migration_verifier_docdb.Retry.Rounds.{after_wait}

abbrev pub Result : Type 0 → Type 0
Result E = Outcome (RetryError E) (Unit {0})

-- Facts about the last round, by its result.
pub record Finished {E : Type 0} (env : Environment E) (r : Retryer) (st : LoopState) (o : Result E)
    (st' : LoopState) : Type 0 where
  pub attempts : st'.attempts_so_far ≤ suc st.attempts_so_far
  pub success :
      o ≡ ok tt
      → ((env.attempt st.attempts_so_far).group_error ≡ none)
        × (st'.attempts_so_far ≡ suc st.attempts_so_far)
  pub gave_up :
      (ds : List String) (n d : ℕ) (e : E)
      → o ≡ err (retry_limit_exceeded ds n d e)
      → (n ≡ suc st.attempts_so_far) × (limit_exceeded r d n ≡ true)

-- The end of a round, whichever it is: with a success, or with an error.
module _ {E : Type 0} (env : Environment E) (r : Retryer) (st : LoopState) where
  Finished-ok :
      (env.attempt st.attempts_so_far).group_error ≡ none
      → Finished env r st (ok tt) (after_wait env st)
  Finished-ok g = record {
    attempts = omega arith;
    success = λ p. (g, refl);
    gave_up = λ ds n d e p. absurd (ground arith);
  }

  Finished-limit :
      (ds : List String) (d : ℕ) (e : E)
      → limit_exceeded r d (suc st.attempts_so_far) ≡ true
      → Finished env r st
          (err (retry_limit_exceeded ds (suc st.attempts_so_far) d e))
          (after_wait env st)
  Finished-limit ds d e h = record {
    attempts = omega arith;
    success = λ p. absurd (ground arith);
    gave_up = λ ds' n d' e' p. (cc, cc);
  }

  Finished-before : (e : E) → Finished env r st (err (before_failed r.description e)) st
  Finished-before e = record {
    attempts = omega arith;
    success = λ p. absurd (ground arith);
    gave_up = λ ds n d e p. absurd (ground arith);
  }

  Finished-index : (i : ℕ) → Finished env r st (err (no_func_info i)) (after_wait env st)
  Finished-index i = record {
    attempts = omega arith;
    success = λ p. absurd (ground arith);
    gave_up = λ ds n d e p. absurd (ground arith);
  }

  Finished-fatal :
      (ds : List String) (e : E) → Finished env r st (err (not_retryable ds e)) (after_wait env st)
  Finished-fatal ds e = record {
    attempts = omega arith;
    success = λ p. absurd (ground arith);
    gave_up = λ ds n d e p. absurd (ground arith);
  }

  Finished-canceled : (c : E) → Finished env r st (err (context_canceled c)) (after_wait env st)
  Finished-canceled c = record {
    attempts = omega arith;
    success = λ p. absurd (ground arith);
    gave_up = λ ds n d e p. absurd (ground arith);
  }

-- The same, of whatever step a round is.
abbrev pub Ended : {E : Type 0} → Environment E → Retryer → LoopState → Step E → Type 0
Ended env r st (done o st') = Finished env r st o st'
Ended env r st (again st') = Unit

Ended-after_failure :
    {E : Type 0} (env : Environment E) (r : Retryer) (st : LoopState) (a : Attempt E) (i : ℕ)
    (fi : FuncInfo) (e : E)
    → Ended env r st (after_failure env r (after_wait env st) a i fi e)
unfolding after_failure
Ended-after_failure {E} env r st a i fi e =
    by_tests (should_retry env r e) (limit_exceeded r duration (suc st.attempts_so_far)) a.canceled
      refl
  where
    duration : ℕ
    duration = a.failed_at - fi.last_reset

    by_tests :
        (s l : Bool) (c : Option E)
        → limit_exceeded r duration (suc st.attempts_so_far) ≡ l
        → Ended env r st (
            if not s
            then done (err (not_retryable (get_descriptions fi) e)) (after_wait env st)
            else if l
            then done
                (err
                  (retry_limit_exceeded (get_descriptions fi) (suc st.attempts_so_far) duration e))
                (after_wait env st)
            else (elim c [
              | some x ↦ done (err (context_canceled x)) (after_wait env st)
              | none ↦ again (record (after_wait env st) {
                sleep_time = next_sleep_time st.sleep_time;
                func_infos = reset_others i a.woke_at (after_wait env st).func_infos;
              })
            ]))
    by_tests false l c h = Finished-fatal env r st (get_descriptions fi) e
    by_tests true true c h = Finished-limit env r st (get_descriptions fi) duration e h
    by_tests true false (some x) h = Finished-canceled env r st x
    by_tests true false none h = tt

Ended-after_group :
    {E : Type 0} (env : Environment E) (r : Retryer) (st : LoopState)
    → Ended env r st (after_group env r (after_wait env st) (env.attempt st.attempts_so_far))
unfolding after_group
Ended-after_group {E} env r st = by_group (env.attempt st.attempts_so_far).group_error refl
  where
    by_func :
        (i : ℕ) (e : E) (m : Option FuncInfo)
        → Ended env r st (elim m [
          | none ↦ done (err (no_func_info i)) (after_wait env st)
          | some fi ↦
              after_failure env r (after_wait env st) (env.attempt st.attempts_so_far) i fi e
        ])
    by_func i e none = Finished-index env r st i
    by_func i e (some fi) = Ended-after_failure env r st (env.attempt st.attempts_so_far) i fi e

    by_group :
        (g : Option (ℕ × E))
        → (env.attempt st.attempts_so_far).group_error ≡ g
        → Ended env r st (elim g [
          | none ↦ done (ok tt) (after_wait env st)
          | some (i, e) ↦ elim (func_info i (after_wait env st).func_infos) [
            | none ↦ done (err (no_func_info i)) (after_wait env st)
            | some fi ↦
                after_failure env r (after_wait env st) (env.attempt st.attempts_so_far) i fi e
          ]
        ])
    by_group none h = Finished-ok env r st h
    by_group (some (i, e)) h = by_func i e (func_info i (after_wait env st).func_infos)

pub attempt_once-Ended :
    {E : Type 0} (env : Environment E) (r : Retryer) (st : LoopState)
    → Ended env r st (attempt_once env r st)
unfolding attempt_once
attempt_once-Ended {E} env r st =
    by_before (if r.has_before then (env.attempt st.attempts_so_far).before_error else none)
  where
    by_before :
        (b : Option E)
        → Ended env r st (elim b [
          | some e ↦ done (err (before_failed r.description e)) st
          | none ↦ after_group env r (after_wait env st) (env.attempt st.attempts_so_far)
        ])
    by_before none = Ended-after_group env r st
    by_before (some e) = Finished-before env r st e
