-- ===== src/Retry/Loop.antt =====
-- runRetryLoop of internal/retry/retry.go. The callbacks run as a group; what the group, the clock
-- and the context do in each attempt comes from the environment.
use migration_verifier_docdb.Base.{
  ℕ, zero, suc, ◌-◌, ◌*◌, Bool, false, not, Option, none, some, List, [], ◌∷◌, String, map,
  if◌then◌else◌, ltb, leb, ◌&&◌, ◌||◌, Outcome, ok, err,
}
use migration_verifier_docdb.Retry.Builders.{
  authentication_failed_code, min_sleep_time, max_sleep_time, sleep_time_multiplier, Retryer,
  FuncInfo, note_success, reset_at, get_descriptions,
}

-- What happens in one attempt: the error of the function that runs before, the callbacks' notes of
-- success (callback, time), the group's error with the number of the callback that failed, the time
-- it failed, an error of the context during the sleep, and the time after the sleep.
pub record Attempt (E : Type 0) : Type 0 where
  pub before_error : Option E
  pub successes : List (ℕ × String × ℕ)
  pub group_error : Option (ℕ × E)
  pub failed_at : ℕ
  pub canceled : Option E
  pub woke_at : ℕ

-- util.IsTransientError, mmongo.ErrorHasCode, whether a test runs, and the attempts.
pub record Environment (E : Type 0) : Type 0 where
  pub is_transient_error : E → Bool
  pub error_has_code : E → ℕ → Bool
  pub is_testing : Bool
  pub start_time : ℕ
  pub attempt : ℕ → Attempt E

-- Errors of the loop; the last is the panic of an index out of range.
pub data RetryError (E : Type 0) : Type 0 where
  no_callbacks : Option String → RetryError E
  before_failed : Option String → E → RetryError E
  not_retryable : List String → E → RetryError E
  retry_limit_exceeded : List String → ℕ → ℕ → E → RetryError E
  context_canceled : E → RetryError E
  no_func_info : ℕ → RetryError E

pub record LoopState : Type 0 where
  pub attempts_so_far : ℕ
  pub sleep_time : ℕ
  pub func_infos : List FuncInfo

pub data Step (E : Type 0) : Type 0 where
  done : Outcome (RetryError E) (Unit {0}) → LoopState → Step E
  again : LoopState → Step E

-- errHasAnyCode.
unfoldable pub err_has_any_code : {E : Type 0} → Environment E → E → List ℕ → Bool
err_has_any_code env e [] = false
err_has_any_code env e (c ∷ cs) = env.error_has_code e c || err_has_any_code env e cs

-- shouldRetryWithSleep.
unfoldable pub should_retry : {E : Type 0} → Environment E → Retryer → E → Bool
unfolding err_has_any_code
should_retry env r e =
    env.is_transient_error e
    || err_has_any_code env e r.additional_error_codes
    || (env.is_testing && err_has_any_code env e (authentication_failed_code ∷ []))

abbrev pub func_info : ℕ → List FuncInfo → Option FuncInfo
func_info i [] = none
func_info zero (fi ∷ fis) = some fi
func_info (suc i) (fi ∷ fis) = func_info i fis

abbrev update_func_info : ℕ → (FuncInfo → FuncInfo) → List FuncInfo → List FuncInfo
update_func_info i f [] = []
update_func_info zero f (fi ∷ fis) = f fi ∷ fis
update_func_info (suc i) f (fi ∷ fis) = fi ∷ update_func_info i f fis

unfoldable pub note_successes : List (ℕ × String × ℕ) → List FuncInfo → List FuncInfo
unfolding note_success
note_successes [] fis = fis
note_successes ((i, d, now) ∷ ns) fis =
    note_successes ns (update_func_info i (note_success d now) fis)

-- Every callback but the failed one counts as having just succeeded.
unfoldable pub reset_others : ℕ → ℕ → List FuncInfo → List FuncInfo
reset_others i now [] = []
reset_others zero now (fi ∷ fis) = fi ∷ map (reset_at now) fis
reset_others (suc i) now (fi ∷ fis) = reset_at now fi ∷ reset_others i now fis

-- The two limits. A clock that runs backwards gives no positive duration.
unfoldable pub limit_exceeded : Retryer → ℕ → ℕ → Bool
limit_exceeded r duration attempts =
    (elim r.time_limit [ none ↦ false | some limit ↦ ltb limit duration ])
    || (elim r.max_attempts [ none ↦ false | some limit ↦ leb limit attempts ])

abbrev pub next_sleep_time : ℕ → ℕ
next_sleep_time t =
    if ltb max_sleep_time (t * sleep_time_multiplier)
    then max_sleep_time
    else t * sleep_time_multiplier

-- The attempt after its group has failed in callback `i`.
unfoldable pub after_failure :
    {E : Type 0} → Environment E → Retryer → LoopState → Attempt E → ℕ → FuncInfo → E → Step E
unfolding should_retry limit_exceeded get_descriptions reset_others
after_failure env r st a i fi e =
    let duration = a.failed_at - fi.last_reset in
    if not (should_retry env r e)
    then done (err (not_retryable (get_descriptions fi) e)) st
    else if limit_exceeded r duration st.attempts_so_far
    then done (err (retry_limit_exceeded (get_descriptions fi) st.attempts_so_far duration e)) st
    else elim a.canceled [
      | some c ↦ done (err (context_canceled c)) st
      | none ↦ again (record st {
        sleep_time = next_sleep_time st.sleep_time;
        func_infos = reset_others i a.woke_at st.func_infos;
      })
    ]

-- After `eg.Wait`.
unfoldable pub after_group : {E : Type 0} → Environment E → Retryer → LoopState → Attempt E → Step E
unfolding after_failure
after_group env r st a = elim a.group_error [
  | none ↦ done (ok tt) st
  | some (i, e) ↦ elim (func_info i st.func_infos) [
    | none ↦ done (err (no_func_info i)) st
    | some fi ↦ after_failure env r st a i fi e
  ]
]

-- One round of the loop.
unfoldable pub attempt_once : {E : Type 0} → Environment E → Retryer → LoopState → Step E
unfolding after_group note_successes
attempt_once env r st =
    let a = env.attempt st.attempts_so_far in
    elim (if r.has_before then a.before_error else none) [
      | some e ↦ done (err (before_failed r.description e)) st
      | none ↦
          after_group env r
            (record st {
              attempts_so_far = suc st.attempts_so_far;
              func_infos = note_successes a.successes st.func_infos;
            })
            a
    ]

unfoldable pub run_retry_loop :
    {E : Type 0}
    → ℕ
    → Environment E
    → Retryer
    → LoopState
    → Option (Outcome (RetryError E) (Unit {0}) × LoopState)
unfolding attempt_once
run_retry_loop zero env r st = none
run_retry_loop (suc n) env r st = elim (attempt_once env r st) [
  | done o st' ↦ some (o, st')
  | again st' ↦ run_retry_loop n env r st'
]

unfoldable pub initial : {E : Type 0} → Environment E → Retryer → LoopState
initial env r = record {
  attempts_so_far = 0;
  sleep_time = min_sleep_time;
  func_infos =
      map
        (λ d. record {
          description = d;
          loop_description = r.description;
          last_reset = env.start_time;
          reset_description = none;
          resets_so_far = 0;
        })
        r.callbacks;
}

-- Run.
unfoldable pub run :
    {E : Type 0}
    → ℕ
    → Environment E
    → Retryer
    → Option (Outcome (RetryError E) (Unit {0}) × LoopState)
unfolding run_retry_loop initial
run fuel env r = elim r.callbacks [
  | [] ↦ some (err (no_callbacks r.description), initial env r)
  | ◌∷◌ d ds ↦ run_retry_loop fuel env r (initial env r)
]
