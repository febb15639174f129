-- ===== src/Tests/Retrying.antt =====
-- A retry loop with at most three attempts: two fail with an error that is retried.
use migration_verifier_docdb.Base.{
  ℕ, zero, suc, ◌≡◌, ◌≤◌, ◌<◌, ◌*◌, ◌^◌, min, refl, true, false, Option, none, some, [], ◌∷◌, ok,
  err, arith, ◌==◌,
}
use migration_verifier_docdb.Retry.{
  Retryer, second, max_sleep_time, Attempt, Environment, retry_limit_exceeded, LoopState, Step,
  done, again, attempt_once, initial, run,
}
use migration_verifier_docdb.Retry.Ends.{
  starts, retries, Reaches-sleep_time, FailsTransiently, run-ends, run-success, run-gives_up,
}
use migration_verifier_docdb.Retry.Finish.{Result}

-- Attempt n takes until time 10 n; its callback fails with error n.
abbrev failing : ℕ → Attempt ℕ
failing n = record {
  before_error = none;
  successes = [];
  group_error = some (0, n);
  failed_at = 10 * n;
  canceled = none;
  woke_at = 10 * n;
}

abbrev succeeding : Attempt ℕ
succeeding = record {
  before_error = none;
  successes = [];
  group_error = none;
  failed_at = 0;
  canceled = none;
  woke_at = 0;
}

-- The third attempt succeeds.
abbrev third_succeeds : ℕ → Attempt ℕ
third_succeeds zero = failing 0
third_succeeds (suc zero) = failing 1
third_succeeds (suc (suc n)) = succeeding

abbrev environment : (ℕ → Attempt ℕ) → Environment ℕ
environment attempts = record {
  is_transient_error = λ e. true;
  error_has_code = λ e c. e == c;
  is_testing = false;
  start_time = 0;
  attempt = attempts;
}

abbrev three_times : Retryer
three_times = record {
  time_limit = none;
  has_before = false;
  callbacks = "the callback" ∷ [];
  description = some "the loop";
  additional_error_codes = [];
  max_attempts = some 3;
}

unfoldable state_of : Step ℕ → LoopState
state_of (done o st) = st
state_of (again st) = st

unfoldable after_failures : LoopState
unfolding attempt_once initial state_of
after_failures =
    state_of
      (attempt_once (environment failing) three_times (initial (environment failing) three_times))

first_fails :
    attempt_once (environment failing) three_times (initial (environment failing) three_times)
    ≡ again after_failures
unfolding attempt_once initial after_failures state_of
first_fails = refl

Reaches-sleep_time_example :
    after_failures.sleep_time ≡ min (second * 2 ^ after_failures.attempts_so_far) max_sleep_time
Reaches-sleep_time_example =
    Reaches-sleep_time (environment failing) three_times after_failures
      (retries (initial (environment failing) three_times) after_failures starts first_fails)

run-ends_example :
    (o : Result ℕ) × (st : LoopState) × (run 3 (environment failing) three_times ≡ some (o, st))
    × (st.attempts_so_far ≤ 3)
run-ends_example = run-ends (environment failing) three_times 3 refl (omega arith)

unfoldable run_state : Option (Result ℕ × LoopState) → LoopState
run_state none = after_failures
run_state (some (o, st)) = st

unfoldable success_state : LoopState
unfolding run run_state
success_state = run_state (run 5 (environment third_succeeds) three_times)

succeeds : run 5 (environment third_succeeds) three_times ≡ some (ok tt, success_state)
unfolding run success_state run_state
succeeds = refl

run-success_example :
    (n : ℕ) × (success_state.attempts_so_far ≡ suc n)
    × ((third_succeeds n).group_error ≡ none)
    × ((k : ℕ) → k < n → FailsTransiently (environment third_succeeds) three_times k)
run-success_example = run-success (environment third_succeeds) three_times 5 success_state succeeds

unfoldable failed_state : LoopState
unfolding run run_state
failed_state = run_state (run 5 (environment failing) three_times)

gives_up :
    run 5 (environment failing) three_times
    ≡ some (err (retry_limit_exceeded ("the loop" ∷ "the callback" ∷ []) 3 20 2), failed_state)
unfolding run failed_state run_state
gives_up = refl

abbrev three : ℕ
three = 3

run-gives_up_example :
    (three ≡ 3) × ((k : ℕ) → suc k < 3 → FailsTransiently (environment failing) three_times k)
run-gives_up_example =
    run-gives_up (environment failing) three_times 5 3 3 20 ("the loop" ∷ "the callback" ∷ []) 2
      failed_state refl refl (omega arith) gives_up
