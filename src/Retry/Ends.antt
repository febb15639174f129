-- ===== src/Retry/Ends.antt =====
-- How the retry loop ends, and how long it sleeps.
use migration_verifier_docdb.Base.{
  ℕ, zero, suc, ◌+◌, ◌*◌, ◌^◌, ◌≤◌, ◌<◌, min, ◌≡◌, ◌≢◌, refl, sym, ◌∙◌, ap, subst, Option, none,
  some, List, [], ◌∷◌, String, Bool, true, false, ltb, leb, ◌||◌, arith, dec_lt, ok, err,
}
use mathlib.Core.Option.{some-injective}
use migration_verifier_docdb.Retry.Builders.{max_sleep_time, second, Retryer}
use migration_verifier_docdb.Retry.Loop.{
  Environment, no_callbacks, retry_limit_exceeded, limit_exceeded, LoopState, Step, done, again,
  should_retry, attempt_once, run_retry_loop, initial, run, next_sleep_time,
}
use migration_verifier_docdb.Retry.Rounds.{attempt_once-again}
use migration_verifier_docdb.Retry.Finish.{Result, Finished, Ended, attempt_once-Ended}

-- The states in which the loop starts a round.
pub data Reaches {E : Type 0} (env : Environment E) (r : Retryer) : LoopState → Type 0 where
  starts : Reaches env r (initial env r)
  retries :
      (st st' : LoopState)
      → Reaches env r st
      → attempt_once env r st ≡ again st'
      → Reaches env r st'

doubled :
    (k : ℕ)
    → next_sleep_time (min (second * 2 ^ k) max_sleep_time)
      ≡ min (second * 2 ^ suc k) max_sleep_time
doubled k = ground arith

-- Before each round the sleep time is, as the comment in constants.go says, 1, 2, 4, 8, 16, 16, …
-- seconds: 2 ^ k seconds after k attempts, but 16 at most.
pub Reaches-sleep_time :
    {E : Type 0} (env : Environment E) (r : Retryer) (st : LoopState)
    → Reaches env r st
    → st.sleep_time ≡ min (second * 2 ^ st.attempts_so_far) max_sleep_time
unfolding initial
Reaches-sleep_time env r st starts = refl
Reaches-sleep_time env r st (retries u v p e) =
    let w = attempt_once-again env r u v e in
    w.sleep
    ∙ ap next_sleep_time (Reaches-sleep_time env r u p)
    ∙ doubled u.attempts_so_far
    ∙ ap (λ k. min (second * 2 ^ k) max_sleep_time) (sym w.attempts)

-- An attempt that failed with an error that is retried.
abbrev pub FailsTransiently : {E : Type 0} → Environment E → Retryer → ℕ → Type 0
FailsTransiently {E} env r n =
    (i : ℕ) × (e : E) × ((env.attempt n).group_error ≡ some (i, e)) × (should_retry env r e ≡ true)

Reaches-failed :
    {E : Type 0} (env : Environment E) (r : Retryer) (st : LoopState)
    → Reaches env r st
    → (n : ℕ) → n < st.attempts_so_far
    → FailsTransiently env r n
unfolding initial
Reaches-failed env r st starts n h = absurd (ground arith)
Reaches-failed env r st (retries u v p e) n h =
    let w = attempt_once-again env r u v e in
    elim (dec_lt n u.attempts_so_far) [
      | yes b ↦ Reaches-failed env r u p n b
      | no b ↦
          let same : u.attempts_so_far ≡ n = omega (arith, w.attempts, h, b) in
          (
            w.failed_func,
            w.last_err,
            subst (λ k. (env.attempt k).group_error ≡ some (w.failed_func, w.last_err)) same
                w.failed,
            w.retryable,
          )
    ]

abbrev RunResult : Type 0 → Type 0
RunResult E = Option (Result E × LoopState)

-- A run of the loop: the last round starts in a state that the loop reaches.
pub run_retry_loop-last :
    {E : Type 0} (env : Environment E) (r : Retryer) (fuel : ℕ) (st st' : LoopState) (o : Result E)
    → Reaches env r st
    → run_retry_loop fuel env r st ≡ some (o, st')
    → (u : LoopState) × Reaches env r u × (attempt_once env r u ≡ done o st')
unfolding run_retry_loop
run_retry_loop-last env r zero st st' o p e = absurd (ground arith)
run_retry_loop-last {E} env r (suc n) st st' o p e =
    by_step (attempt_once env r st) refl e (λ u q x. run_retry_loop-last env r n u st' o q x)
  where
    by_step :
        (s : Step E)
        → attempt_once env r st ≡ s
        → (elim s as (λ k. RunResult E) [
          | done o u ↦ some (o, u)
          | again u ↦ run_retry_loop n env r u
        ])
          ≡ some (o, st')
        → ((u : LoopState)
            → Reaches env r u
            → run_retry_loop n env r u ≡ some (o, st')
            → (v : LoopState) × Reaches env r v × (attempt_once env r v ≡ done o st'))
        → (u : LoopState) × Reaches env r u × (attempt_once env r u ≡ done o st')
    by_step (done o' u) h x ih = (st, p, h ∙ cc)
    by_step (again u) h x ih = ih u (retries st u p h) x

-- With a limit on the attempts the loop ends within as many rounds.
run_retry_loop-ends :
    {E : Type 0} (env : Environment E) (r : Retryer) (m fuel : ℕ) (st : LoopState)
    → r.max_attempts ≡ some m
    → st.attempts_so_far < m
    → m ≤ st.attempts_so_far + fuel
    → (o : Result E) × (st' : LoopState) × (run_retry_loop fuel env r st ≡ some (o, st'))
      × (st'.attempts_so_far ≤ m)
unfolding run_retry_loop
run_retry_loop-ends env r m zero st e h b = absurd (ground arith)
run_retry_loop-ends {E} env r m (suc n) st e h b =
    by_step (attempt_once env r st) refl (attempt_once-Ended env r st)
      (λ u l b'. run_retry_loop-ends env r m n u e l b')
  where
    by_step :
        (s : Step E)
        → attempt_once env r st ≡ s
        → Ended env r st s
        → ((u : LoopState)
            → u.attempts_so_far < m
            → m ≤ u.attempts_so_far + n
            → (o : Result E) × (st' : LoopState) × (run_retry_loop n env r u ≡ some (o, st'))
              × (st'.attempts_so_far ≤ m))
        → (o : Result E) × (st' : LoopState) × ((elim s as (λ k. RunResult E) [
          | done o u ↦ some (o, u)
          | again u ↦ run_retry_loop n env r u
        ])
            ≡ some (o, st'))
          × (st'.attempts_so_far ≤ m)
    by_step (done o u) x f ih = (o, u, refl, omega (arith, f.attempts, h))
    by_step (again u) x f ih =
        let w = attempt_once-again env r st u x in
        ih u (subst (λ k. k < m) (sym w.attempts) (w.within m e)) (omega (arith, w.attempts, b))

-- With a positive limit on the attempts a run ends within that many rounds, whatever the callbacks
-- do, and counts no more attempts than the limit.
pub run-ends :
    {E : Type 0} (env : Environment E) (r : Retryer) (m : ℕ)
    → r.max_attempts ≡ some m
    → 0 < m
    → (o : Result E) × (st : LoopState) × (run m env r ≡ some (o, st)) × (st.attempts_so_far ≤ m)
unfolding run initial
run-ends {E} env r m e h =
    by_callbacks r.callbacks (run_retry_loop-ends env r m m (initial env r) e h (omega arith))
  where
    by_callbacks :
        (cs : List String)
        → ((o : Result E) × (st : LoopState) × (run_retry_loop m env r (initial env r)
              ≡ some (o, st))
            × (st.attempts_so_far ≤ m))
        → (o : Result E) × (st : LoopState) × ((elim cs as (λ k. RunResult E) [
          | [] ↦ some (err (no_callbacks r.description), initial env r)
          | ◌∷◌ d ds ↦ run_retry_loop m env r (initial env r)
        ])
            ≡ some (o, st))
          × (st.attempts_so_far ≤ m)
    by_callbacks [] x = (err (no_callbacks r.description), initial env r, refl, omega arith)
    by_callbacks (d ∷ ds) x = x

-- The last round of a run that has not failed for want of callbacks.
run-last :
    {E : Type 0} (env : Environment E) (r : Retryer) (fuel : ℕ) (st : LoopState) (o : Result E)
    → o ≢ err (no_callbacks r.description)
    → run fuel env r ≡ some (o, st)
    → (u : LoopState) × Reaches env r u × Finished env r u o st
unfolding run
run-last {E} env r fuel st o n e = by_callbacks r.callbacks e
  where
    by_callbacks :
        (cs : List String)
        → (elim cs as (λ k. RunResult E) [
          | [] ↦ some (err (no_callbacks r.description), initial env r)
          | ◌∷◌ d ds ↦ run_retry_loop fuel env r (initial env r)
        ])
          ≡ some (o, st)
        → (u : LoopState) × Reaches env r u × Finished env r u o st
    by_callbacks [] x = absurd (n (sym (ap (λ p. p.0) (some-injective _ (o, st) x))))
    by_callbacks (d ∷ ds) x =
        let (u, p, y) = run_retry_loop-last env r fuel (initial env r) st o starts x in
        (u, p, subst (Ended env r u) y (attempt_once-Ended env r u))

-- A run succeeds only by an attempt in which no callback failed, and only after attempts that all
-- failed with an error that is retried: no other error is passed over.
pub run-success :
    {E : Type 0} (env : Environment E) (r : Retryer) (fuel : ℕ) (st : LoopState)
    → run fuel env r ≡ some (ok tt, st)
    → (n : ℕ) × (st.attempts_so_far ≡ suc n)
      × ((env.attempt n).group_error ≡ none)
      × ((k : ℕ) → k < n → FailsTransiently env r k)
run-success env r fuel st e =
    let (u, p, f) = run-last env r fuel st (ok tt) (λ x. absurd (ground arith)) e in
    let (g, a) = f.success refl in (u.attempts_so_far, a, g, Reaches-failed env r u p)

exceeded :
    (r : Retryer) (d n m : ℕ)
    → r.time_limit ≡ none
    → r.max_attempts ≡ some m
    → limit_exceeded r d n ≡ true
    → m ≤ n
unfolding limit_exceeded
exceeded r d n m t e h =
    let tests = λ (t₀ m₀ : Option ℕ).
      ((elim t₀ as (λ k. Bool) [ none ↦ false | some limit ↦ ltb limit d ])
        || (elim m₀ as (λ k. Bool) [ none ↦ false | some limit ↦ leb limit n ])) in
    let b : leb m n ≡ true =
      subst (λ o. tests none o ≡ true) e (subst (λ o. tests o r.max_attempts ≡ true) t h) in
    ground arith

Reaches-below :
    {E : Type 0} (env : Environment E) (r : Retryer) (m : ℕ) (st : LoopState)
    → r.max_attempts ≡ some m
    → 0 < m
    → Reaches env r st
    → st.attempts_so_far < m
unfolding initial
Reaches-below env r m st e h starts = h
Reaches-below env r m st e h (retries u v p x) =
    let w = attempt_once-again env r u v x in subst (λ k. k < m) (sym w.attempts) (w.within m e)

-- With no time limit and a positive limit on the attempts, a run that reports that its limit is
-- exceeded reports exactly as many attempts, and all but the last failed with an error that is
-- retried.
pub run-gives_up :
    {E : Type 0} (env : Environment E) (r : Retryer) (fuel m n d : ℕ) (ds : List String) (e : E)
    (st : LoopState)
    → r.time_limit ≡ none
    → r.max_attempts ≡ some m
    → 0 < m
    → run fuel env r ≡ some (err (retry_limit_exceeded ds n d e), st)
    → (n ≡ m) × ((k : ℕ) → suc k < m → FailsTransiently env r k)
run-gives_up env r fuel m n d ds e st t l h x =
    let (u, p, f) = run-last env r fuel st _ (λ y. absurd (ground arith)) x in
    let (same, over) = f.gave_up ds n d e refl in
    let all : n ≡ m =
      omega (arith, same, exceeded r d n m t l over, Reaches-below env r m u l h p) in
    (all, λ k b. Reaches-failed env r u p k (omega (arith, b, all, same)))
