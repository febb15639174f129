-- ===== src/Retry/Rounds.antt =====
-- What a round of the retry loop did when the loop goes on after it.
use migration_verifier_docdb.Base.{
  ℕ, suc, ◌-◌, ◌<◌, ◌≡◌, ◌≢◌, refl, sym, ap, subst, Bool, true, false, not, Option, none, some,
  List, arith, if◌then◌else◌, ltb, leb, ◌||◌, Outcome, ok, err,
}
use migration_verifier_docdb.Retry.Builders.{Retryer, FuncInfo, get_descriptions}
use migration_verifier_docdb.Retry.Loop.{
  Attempt, Environment, RetryError, not_retryable, context_canceled, func_info,
  retry_limit_exceeded, LoopState, Step, done, again, should_retry, limit_exceeded, next_sleep_time,
  after_failure, after_group, no_func_info, before_failed, attempt_once, reset_others,
  note_successes,
}

-- A round after which the loop goes on.
pub record Retried {E : Type 0} (env : Environment E) (r : Retryer) (st st' : LoopState)
    : Type 0 where
  pub failed_func : ℕ
  pub last_err : E
  pub failed : (env.attempt st.attempts_so_far).group_error ≡ some (failed_func, last_err)
  pub retryable : should_retry env r last_err ≡ true
  pub attempts : st'.attempts_so_far ≡ suc st.attempts_so_far
  pub sleep : st'.sleep_time ≡ next_sleep_time st.sleep_time
  pub within : (m : ℕ) → r.max_attempts ≡ some m → suc st.attempts_so_far < m

or_false : (a b : Bool) → (a || b) ≡ false → b ≡ false
or_false a b h = ground arith

below_limit :
    (r : Retryer) (d n m : ℕ) → limit_exceeded r d n ≡ false → r.max_attempts ≡ some m → n < m
unfolding limit_exceeded
below_limit r d n m h e =
    let b : leb m n ≡ false =
      subst (λ o. (elim o [ none ↦ false | some limit ↦ leb limit n ]) ≡ false) e
        (or_false (elim r.time_limit [ none ↦ false | some limit ↦ ltb limit d ])
          (elim r.max_attempts [ none ↦ false | some limit ↦ leb limit n ]) h) in
    ground arith

done≢again :
    {E : Type 0} (o : Outcome (RetryError E) (Unit {0})) (st st' : LoopState)
    → done o st ≢ again st'
done≢again o st st' h = ground arith

goes_on :
    {E : Type 0} (s l : Bool) (c : Option E) (x y : Outcome (RetryError E) (Unit {0}))
    (z : E → Outcome (RetryError E) (Unit {0})) (st w st' : LoopState)
    → (if not s
        then done x st
        else if l
        then done y st
        else (elim c [ some e ↦ done (z e) st | none ↦ again w ]))
      ≡ again st'
    → (s ≡ true) × (l ≡ false) × (w ≡ st')
goes_on false l c x y z st w st' h = absurd (done≢again x st st' h)
goes_on true true c x y z st w st' h = absurd (done≢again y st st' h)
goes_on true false (some e) x y z st w st' h = absurd (done≢again (z e) st st' h)
goes_on true false none x y z st w st' h = (refl, refl, cc)

after_failure-again :
    {E : Type 0} (env : Environment E) (r : Retryer) (st st' : LoopState) (a : Attempt E) (i : ℕ)
    (fi : FuncInfo) (e : E)
    → after_failure env r st a i fi e ≡ again st'
    → (should_retry env r e ≡ true)
      × (st'.attempts_so_far ≡ st.attempts_so_far)
      × (st'.sleep_time ≡ next_sleep_time st.sleep_time)
      × ((m : ℕ) → r.max_attempts ≡ some m → st.attempts_so_far < m)
unfolding after_failure
after_failure-again env r st st' a i fi e h =
    let (s, l, w) =
      goes_on (should_retry env r e)
        (limit_exceeded r (a.failed_at - fi.last_reset) st.attempts_so_far) a.canceled
        (err (not_retryable (get_descriptions fi) e))
        (err (
          retry_limit_exceeded (get_descriptions fi) st.attempts_so_far
            (a.failed_at - fi.last_reset) e))
        (λ c. err (context_canceled c)) st
        (record st {
          sleep_time = next_sleep_time st.sleep_time;
          func_infos = reset_others i a.woke_at st.func_infos;
        })
        st' h in
    (
      s,
      sym (ap (λ v. v.attempts_so_far) w),
      sym (ap (λ v. v.sleep_time) w),
      λ m. below_limit r (a.failed_at - fi.last_reset) st.attempts_so_far m l,
    )

found_goes_on :
    {E : Type 0} (m : Option FuncInfo) (x : Outcome (RetryError E) (Unit {0})) (st st' : LoopState)
    (k : FuncInfo → Step E)
    → (elim m [ none ↦ done x st | some fi ↦ k fi ]) ≡ again st'
    → (fi : FuncInfo) × (k fi ≡ again st')
found_goes_on none x st st' k h = absurd (done≢again x st st' h)
found_goes_on (some fi) x st st' k h = (fi, h)

group_goes_on :
    {E : Type 0} (g : Option (ℕ × E)) (fis : List FuncInfo) (st st' : LoopState)
    (k : ℕ → FuncInfo → E → Step E)
    → (elim g [
      | none ↦ done (ok tt) st
      | some (i, e) ↦ elim (func_info i fis) [
        | none ↦ done (err (no_func_info i)) st
        | some fi ↦ k i fi e
      ]
    ])
      ≡ again st'
    → (i : ℕ) × (e : E) × (fi : FuncInfo) × (g ≡ some (i, e)) × (k i fi e ≡ again st')
group_goes_on none fis st st' k h = absurd (done≢again (ok tt) st st' h)
group_goes_on (some (i, e)) fis st st' k h =
    let (fi, x) =
      found_goes_on (func_info i fis) (err (no_func_info i)) st st' (λ fi. k i fi e) h in
    (i, e, fi, refl, x)

after_group-again :
    {E : Type 0} (env : Environment E) (r : Retryer) (st st' : LoopState) (a : Attempt E)
    → after_group env r st a ≡ again st'
    → (i : ℕ) × (e : E) × (fi : FuncInfo) × (a.group_error ≡ some (i, e))
      × (after_failure env r st a i fi e ≡ again st')
unfolding after_group
after_group-again env r st st' a h =
    group_goes_on a.group_error st.func_infos st st' (λ i fi e. after_failure env r st a i fi e) h

before_goes_on :
    {E : Type 0} (b : Option E) (z : E → Outcome (RetryError E) (Unit {0})) (s : Step E)
    (st st' : LoopState)
    → (elim b [ some e ↦ done (z e) st | none ↦ s ]) ≡ again st'
    → s ≡ again st'
before_goes_on none z s st st' h = h
before_goes_on (some e) z s st st' h = absurd (done≢again (z e) st st' h)

-- The state of the loop when the group of an attempt is done.
abbrev pub after_wait : {E : Type 0} → Environment E → LoopState → LoopState
after_wait env st = record st {
  attempts_so_far = suc st.attempts_so_far;
  func_infos = note_successes (env.attempt st.attempts_so_far).successes st.func_infos;
}

pub attempt_once-again :
    {E : Type 0} (env : Environment E) (r : Retryer) (st st' : LoopState)
    → attempt_once env r st ≡ again st'
    → Retried env r st st'
unfolding attempt_once
attempt_once-again env r st st' h =
    let a = env.attempt st.attempts_so_far in
    let g =
      before_goes_on (if r.has_before then a.before_error else none)
        (λ e. err (before_failed r.description e)) (after_group env r (after_wait env st) a) st st'
        h in
    let (i, e, fi, f, x) = after_group-again env r (after_wait env st) st' a g in
    let (s, n, t, w) = after_failure-again env r (after_wait env st) st' a i fi e x in
    record {
      failed_func = i;
      last_err = e;
      failed = f;
      retryable = s;
      attempts = n;
      sleep = t;
      within = w;
    }
