-- ===== src/Tasks/Claim.antt =====
-- How workers take tasks: FindNextVerifyTaskAndUpdate of verification_task.go.
use migration_verifier_docdb.Base.{
  ℕ, ◌≤◌, ◌≡◌, ◌⊎◌, inl, inr, refl, sym, ◌∙◌, ap, Bool, true, false, Option, none, some, [], ◌∷◌,
  ◌++◌, subst, arith, if◌then◌else◌, ltb, ◌==◌, ◌&&◌, Bool-cases,
}
use mathlib.Core.Option.{some-injective}
use migration_verifier_docdb.Tasks.Types.{rank, Task}
use migration_verifier_docdb.Tasks.Store.{
  Tasks, is_claimable, claim, least_rank, claim_first, find_next_verify_task_and_update,
}
use migration_verifier_docdb.Tasks.InProgress.{None}

abbrev pub has_rank : ℕ → ℕ → Task → Bool
has_rank g r t = is_claimable g t && rank t.task_type == r

abbrev pub has_lower_rank : ℕ → ℕ → Task → Bool
has_lower_rank g r t = is_claimable g t && ltb (rank t.task_type) r

-- What a claim does to the tasks: it takes one that can be claimed, changes no other, takes none of
-- a later type while one of an earlier type waits, and of one type the first.
pub record IsClaim (g now : ℕ) (ts : Tasks) (taken : Task) (ts' : Tasks) : Type 0 where
  pub earlier : Tasks
  pub original : Task
  pub later : Tasks
  pub before : ts ≡ earlier ++ original ∷ later
  pub after : ts' ≡ earlier ++ taken ∷ later
  pub claimed : taken ≡ claim now original
  pub claimable : is_claimable g original ≡ true
  pub first : None (has_rank g (rank original.task_type)) earlier
  pub least : None (has_lower_rank g (rank original.task_type)) ts

abbrev smaller : ℕ → Option ℕ → ℕ
smaller k none = k
smaller k (some s) = if ltb s k then s else k

smaller-fst : (k : ℕ) (m : Option ℕ) → smaller k m ≤ k
smaller-fst k none = omega arith
smaller-fst k (some s) = ground arith

smaller-snd : (k s : ℕ) → smaller k (some s) ≤ s
smaller-snd k s = ground arith

-- The two results that `least_rank` can have on a list with a task in front.
least_rank-cons :
    (g : ℕ) (t : Task) (ts : Tasks)
    → ((is_claimable g t ≡ false) × (least_rank g (t ∷ ts) ≡ least_rank g ts))
      ⊎ ((is_claimable g t ≡ true)
          × (least_rank g (t ∷ ts) ≡ some (smaller (rank t.task_type) (least_rank g ts))))
unfolding least_rank
least_rank-cons g t ts = elim (Bool-cases (is_claimable g t)) [
  | inl h ↦ inr (h, rw h (lift_smaller (rank t.task_type) (least_rank g ts)))
  | inr h ↦ inl (h, rw h refl)
]
  where
    lift_smaller :
        (k : ℕ) (m : Option ℕ)
        → (elim m [ none ↦ some k | some s ↦ some (if ltb s k then s else k) ]) ≡ some (smaller k m)
    lift_smaller k none = refl
    lift_smaller k (some s) = refl

None-weaken :
    (p q : Task → Bool) (ts : Tasks)
    → ((t : Task) → p t ≡ false → q t ≡ false)
    → None p ts
    → None q ts
None-weaken p q [] w n = tt
None-weaken p q (t ∷ ts) w (e, n) = (w t e, None-weaken p q ts w n)

least_rank-none : (g : ℕ) (ts : Tasks) → least_rank g ts ≡ none → None (is_claimable g) ts
least_rank-none g [] e = tt
least_rank-none g (t ∷ ts) e = elim (least_rank-cons g t ts) [
  | inl (h, x) ↦ (h, least_rank-none g ts (sym x ∙ e))
  | inr (h, x) ↦ absurd (ground arith)
]

lower :
    (g r s : ℕ) → r ≤ s → (t : Task) → has_lower_rank g s t ≡ false → has_lower_rank g r t ≡ false
lower g r s h t e = ground arith

unclaimable : (g r : ℕ) (t : Task) → is_claimable g t ≡ false → has_lower_rank g r t ≡ false
unclaimable g r t e = ground arith

below-smaller :
    (g k : ℕ) (ts : Tasks) (m : Option ℕ)
    → least_rank g ts ≡ m
    → ((s : ℕ) → least_rank g ts ≡ some s → None (has_lower_rank g s) ts)
    → None (has_lower_rank g (smaller k m)) ts
below-smaller g k ts none e ih =
    None-weaken (is_claimable g) (has_lower_rank g k) ts (unclaimable g k) (least_rank-none g ts e)
below-smaller g k ts (some s) e ih =
    None-weaken (has_lower_rank g s) (has_lower_rank g (smaller k (some s))) ts
      (lower g (smaller k (some s)) s (smaller-snd k s)) (ih s e)

not_lower : (g r : ℕ) (t : Task) → r ≤ rank t.task_type → has_lower_rank g r t ≡ false
not_lower g r t h = ground arith

-- No task has a lower rank than the least one.
least_rank-least : (g r : ℕ) (ts : Tasks) → least_rank g ts ≡ some r → None (has_lower_rank g r) ts
least_rank-least g r [] e = tt
least_rank-least g r (t ∷ ts) e = elim (least_rank-cons g t ts) [
  | inl (h, x) ↦ (unclaimable g r t h, least_rank-least g r ts (sym x ∙ e))
  | inr (h, x) ↦
      subst (λ s. None (has_lower_rank g s) (t ∷ ts)) (some-injective _ r (sym x ∙ e))
        (
          not_lower g _ t (smaller-fst (rank t.task_type) (least_rank g ts)),
          below-smaller g (rank t.task_type) ts (least_rank g ts) refl
              (λ s. least_rank-least g s ts),
        )
]

-- Some task has the least rank.
attained-cons :
    (g r : ℕ) (t : Task) (ts : Tasks) (m : Option ℕ)
    → is_claimable g t ≡ true
    → smaller (rank t.task_type) m ≡ r
    → (m ≡ some r → ¬ None (has_rank g r) ts)
    → ¬ None (has_rank g r) (t ∷ ts)
attained-cons g r t ts none h e ih (n, ns) = ground arith
attained-cons g r t ts (some s) h e ih (n, ns) = elim (Bool-cases (ltb s (rank t.task_type))) [
  | inl b ↦ ih (ap some (ground arith)) ns
  | inr b ↦ ground arith
]

least_rank-attained : (g r : ℕ) (ts : Tasks) → least_rank g ts ≡ some r → ¬ None (has_rank g r) ts
unfolding least_rank
least_rank-attained g r [] e n = absurd (ground arith)
least_rank-attained g r (t ∷ ts) e n = elim (least_rank-cons g t ts) [
  | inl (h, x) ↦ least_rank-attained g r ts (sym x ∙ e) n.1
  | inr (h, x) ↦
      attained-cons g r t ts (least_rank g ts) h (some-injective _ r (sym x ∙ e))
        (λ y. least_rank-attained g r ts y) n
]

-- What `claim_first` finds.
claim_first-cases :
    (g now r : ℕ) (ts : Tasks)
    → None (has_rank g r) ts
      ⊎ ((earlier : Tasks) × (t : Task) × (later : Tasks) × (ts ≡ earlier ++ t ∷ later)
          × (claim_first g now r ts ≡ (some (claim now t), earlier ++ claim now t ∷ later))
          × (has_rank g r t ≡ true)
          × None (has_rank g r) earlier)
unfolding claim_first
claim_first-cases g now r [] = inl tt
claim_first-cases g now r (t ∷ ts) = elim (Bool-cases (has_rank g r t)) [
  | inl h ↦ inr ([], t, ts, refl, rw h refl, h, tt)
  | inr h ↦ elim (claim_first-cases g now r ts) [
    | inl n ↦ inl (h, n)
    | inr (earlier, u, later, b, a, hu, n) ↦
        inr (t ∷ earlier, u, later, ap (λ us. t ∷ us) b, rw (h, a) refl, hu, (h, n))
  ]
]

-- What FindNextVerifyTaskAndUpdate does, on every list of tasks.
pub data ClaimOutcome (g now : ℕ) (ts : Tasks) : Type 0 where
  takes :
      (taken : Task) (ts' : Tasks)
      → find_next_verify_task_and_update g now ts ≡ (some taken, ts')
      → IsClaim g now ts taken ts'
      → ClaimOutcome g now ts
  finds_none :
      find_next_verify_task_and_update g now ts ≡ (none, ts)
      → None (is_claimable g) ts
      → ClaimOutcome g now ts

taken_by_rank :
    (g now : ℕ) (ts : Tasks) (m : Option ℕ) → least_rank g ts ≡ m → ClaimOutcome g now ts
unfolding find_next_verify_task_and_update
taken_by_rank g now ts none e =
    finds_none (rw (e, find_next_verify_task_and_update) refl) (least_rank-none g ts e)
taken_by_rank g now ts (some r) e = elim (claim_first-cases g now r ts) [
  | inl n ↦ absurd (least_rank-attained g r ts e n)
  | inr (earlier, t, later, b, a, h, n) ↦
      takes (claim now t) (earlier ++ claim now t ∷ later)
        (rw (e, find_next_verify_task_and_update) a) (claim_of g now r ts earlier later t e b h n)
]
  where
    claim_of :
        (g now r : ℕ) (ts earlier later : Tasks) (t : Task)
        → least_rank g ts ≡ some r
        → ts ≡ earlier ++ t ∷ later
        → has_rank g r t ≡ true
        → None (has_rank g r) earlier
        → IsClaim g now ts (claim now t) (earlier ++ claim now t ∷ later)
    claim_of g now r ts earlier later t e b h n =
        let same : r ≡ rank t.task_type = ground arith in
        record {
          earlier = earlier;
          original = t;
          later = later;
          before = b;
          after = refl;
          claimed = refl;
          claimable = ground arith;
          first = subst (λ s. None (has_rank g s) earlier) same n;
          least = subst (λ s. None (has_lower_rank g s) ts) same (least_rank-least g r ts e);
        }

-- FindNextVerifyTaskAndUpdate takes the first claimable task of the least type and changes no
-- other, or it finds none, when no task can be claimed.
pub find_next_verify_task_and_update-claims : (g now : ℕ) (ts : Tasks) → ClaimOutcome g now ts
find_next_verify_task_and_update-claims g now ts = taken_by_rank g now ts (least_rank g ts) refl
