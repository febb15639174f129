-- ===== src/Driver/Finishes.antt =====
-- How the generations end: with the last one, once writes are off, or with the driver's lock held.
use migration_verifier_docdb.Base.{
  ℕ, suc, ◌+◌, ◌≡◌, ◌⊎◌, refl, sym, ◌∙◌, ap, subst, Bool, true, false, not, List, [], ◌∷◌, arith,
  if◌then◌else◌, ◌||◌, ok, err, Bool-cases, inl, inr,
}
use migration_verifier_docdb.Driver.Setup.{
  DriverSettings, DriverError, Driver, persist_generation, Step, then_do,
}
use migration_verifier_docdb.Driver.Generations.{
  Round, Handling, handled, handling_fails, context_ends, unlock, lock, await_handling,
  next_generation, after_work, run_generations, Persisting, is_persisted, persist_errs, miscounted,
  work_on,
}

-- A generation is persisted, and its workers succeed.
abbrev pub Works : Round → Type 0
Works r = (r.persisting ≡ is_persisted) × (r.works ≡ true)

abbrev pub IsLast : List Round → Type 0
IsLast [] = ⊥
IsLast (r ∷ rs) = Works r

-- The generations go on until writes are off; then change handling ends well, and one more follows.
abbrev pub Succeeds : Bool → List Round → Type 0
Succeeds off [] = ⊥
Succeeds off (r ∷ rs) =
    Works r
    × (r.ensures ≡ true)
    × (if off || r.turns_writes_off then (r.handling ≡ handled) × IsLast rs else Succeeds false rs)

-- The generations after the first.
abbrev pub generations_after : Bool → List Round → ℕ
generations_after off [] = 0
generations_after off (r ∷ rs) =
    let rest = generations_after false rs in if off || r.turns_writes_off then 1 else suc rest

then_do-ok :
    (st : Step) (next : Driver → Step) (d : Driver)
    → then_do st next ≡ (ok tt, d)
    → (e : Driver) × (st ≡ (ok tt, e)) × (next e ≡ (ok tt, d))
then_do-ok (ok u, e) next d h = (e, refl, h)
then_do-ok (err x, e) next d h = absurd (ground arith)

await_handling-ok :
    (r : Round) (d e : Driver)
    → await_handling r d ≡ (ok tt, e)
    → (e.generation ≡ d.generation)
      × (e.writes_off ≡ d.writes_off)
      × (((d.writes_off ≡ false) × (e.last_generation ≡ d.last_generation))
          ⊎ ((d.writes_off ≡ true) × (r.handling ≡ handled) × (e.last_generation ≡ true)))
await_handling-ok r d e h = by_writes d.writes_off r.handling refl refl h
  where
    by_writes :
        (off : Bool) (k : Handling)
        → d.writes_off ≡ off
        → r.handling ≡ k
        → (if not off then (ok tt, d) else (elim k as (λ x. Step) [
          | handled ↦ (ok tt, record d { last_generation = true })
          | handling_fails ↦ (err DriverError.handling_failed, unlock d)
          | context_ends ↦ (err DriverError.canceled, unlock d)
        ]))
          ≡ (ok tt, e)
        → (e.generation ≡ d.generation)
          × (e.writes_off ≡ d.writes_off)
          × (((d.writes_off ≡ false) × (e.last_generation ≡ d.last_generation))
              ⊎ ((d.writes_off ≡ true) × (r.handling ≡ handled) × (e.last_generation ≡ true)))
    by_writes false k p q x =
        let same = sym (ap (λ st. st.1) x) in
        (
          ap (λ d. d.generation) same,
          ap (λ d. d.writes_off) same,
          inl (p, ap (λ d. d.last_generation) same),
        )
    by_writes true handled p q x =
        let same = sym (ap (λ st. st.1) x) in
        (
          ap (λ d. d.generation) same,
          ap (λ d. d.writes_off) same,
          inr (p, q, ap (λ d. d.last_generation) same),
        )
    by_writes true handling_fails p q x = absurd (ground arith)
    by_writes true context_ends p q x = absurd (ground arith)

goes_on :
    (r : Round) (rs : List Round) (off : Bool) (n : ℕ)
    → (off || r.turns_writes_off) ≡ false
    → Works r
    → r.ensures ≡ true
    → Succeeds false rs
    → Succeeds off (r ∷ rs)
      × (suc n + generations_after false rs ≡ n + generations_after off (r ∷ rs))
goes_on r rs off n q w t more = rw q ((w, t, more), omega arith)

comes_last :
    (r : Round) (rs : List Round) (off : Bool) (n : ℕ)
    → (off || r.turns_writes_off) ≡ true
    → Works r
    → r.ensures ≡ true
    → r.handling ≡ handled
    → IsLast rs
    → Succeeds off (r ∷ rs) × (suc n ≡ n + generations_after off (r ∷ rs))
comes_last r rs off n q w t j more = rw q ((w, t, (j, more)), omega arith)

module _ (s : DriverSettings) where
  next_generation-ok :
      (r : Round) (d e : Driver)
      → next_generation s r d ≡ (ok tt, e)
      → (r.ensures ≡ true)
        × (e.generation ≡ suc d.generation)
        × (e.writes_off ≡ d.writes_off)
        × (e.last_generation ≡ d.last_generation)
  next_generation-ok r d e h = elim (Bool-cases r.ensures) [
    | inl p ↦
        let same = sym (ap (λ st. st.1) (rw p at h)) in
        (
          p,
          ap (λ d. d.generation) same,
          ap (λ d. d.writes_off) same,
          ap (λ d. d.last_generation) same,
        )
    | inr p ↦ absurd (ground arith)
  ]

  -- A generation that is not cut short.
  round-Works :
      (r : Round) (rs : List Round) (d e : Driver)
      → run_generations s (r ∷ rs) d ≡ (ok tt, e)
      → Works r
        × (((d.last_generation ≡ true) × (e ≡ after_work s r d))
            ⊎ ((d.last_generation ≡ false)
                × (then_do
                      (await_handling r (lock (after_work s r d)))
                      (λ f. then_do (next_generation s r f) (run_generations s rs))
                    ≡ (ok tt, e))))
  unfolding run_generations
  round-Works r rs d e h = by_persisting r.persisting refl h
    where
      Ends : Type 0
      Ends =
          Works r
          × (((d.last_generation ≡ true) × (e ≡ after_work s r d))
              ⊎ ((d.last_generation ≡ false)
                  × (then_do (await_handling r (lock (after_work s r d)))
                        (λ f. then_do (next_generation s r f) (run_generations s rs))
                      ≡ (ok tt, e))))

      by_tests :
          (w l : Bool)
          → r.persisting ≡ is_persisted
          → r.works ≡ w
          → d.last_generation ≡ l
          → (if not w
              then (err DriverError.worker_failed, after_work s r d)
              else if l
              then (ok tt, after_work s r d)
              else then_do
                  (await_handling r (lock (after_work s r d)))
                  (λ f. then_do (next_generation s r f) (run_generations s rs)))
            ≡ (ok tt, e)
          → Ends
      by_tests false l x y z k = absurd (ground arith)
      by_tests true true x y z k = ((x, y), inl (z, sym (ap (λ st. st.1) k)))
      by_tests true false x y z k = ((x, y), inr (z, k))

      by_persisting :
          (p : Persisting)
          → r.persisting ≡ p
          → (elim p as (λ x. Step) [
            | is_persisted ↦ work_on s r d (run_generations s rs)
            | persist_errs ↦ (err DriverError.persist_failed, unlock d)
            | miscounted ↦ (err DriverError.persist_panicked, lock (persist_generation s d))
          ])
            ≡ (ok tt, e)
          → Ends
      by_persisting is_persisted x k = by_tests r.works d.last_generation x refl refl k
      by_persisting persist_errs x k = absurd (ground arith)
      by_persisting miscounted x k = absurd (ground arith)

  IsLast-ends :
      (rs : List Round) (d e : Driver)
      → d.last_generation ≡ true
      → run_generations s rs d ≡ (ok tt, e)
      → IsLast rs
        × (e.generation ≡ d.generation)
        × (e.persisted ≡ (persist_generation s e).persisted)
  unfolding run_generations persist_generation
  IsLast-ends [] d e l h = absurd (ground arith)
  IsLast-ends (r ∷ rs) d e l h =
      let (w, o) = round-Works r rs d e h in
      elim o [
        | inl (_, q) ↦ (
          w,
          ap (λ x. x.generation) q,
          subst (λ x. x.persisted ≡ (persist_generation s x).persisted) (sym q) refl,
        )
        | inr (m, _) ↦ absurd (cc (l, m))
      ]

  -- When the loop ends well for a driver that is not in its last generation, there are the generations
  -- before writes are off, all of which succeed, then one whose change handling ends without an error,
  -- and then one more; each is persisted, and the number of the last is that of the first plus the
  -- count of those that follow.
  pub run_generations-Succeeds :
      (rs : List Round) (d e : Driver)
      → d.last_generation ≡ false
      → run_generations s rs d ≡ (ok tt, e)
      → Succeeds d.writes_off rs
        × (e.generation ≡ d.generation + generations_after d.writes_off rs)
        × (e.persisted ≡ (persist_generation s e).persisted)
  unfolding run_generations persist_generation
  run_generations-Succeeds [] d e l h = absurd (ground arith)
  run_generations-Succeeds (r ∷ rs) d e l h =
      let (w, o) = round-Works r rs d e h in
      elim o [
        | inl (m, _) ↦ absurd (cc (l, m))
        | inr (_, k) ↦
            let (f, x, k1) = then_do-ok (await_handling r (lock (after_work s r d))) _ e k in
            let (g, y, k2) = then_do-ok (next_generation s r f) _ e k1 in
            let (a, b, c) = await_handling-ok r (lock (after_work s r d)) f x in
            let (t, u, v, z) = next_generation-ok r f g y in
            elim c [
              | inl (q, m) ↦
                  let (more, n, p) = run_generations-Succeeds rs g e (z ∙ m ∙ l) k2 in
                  let off : g.writes_off ≡ false = v ∙ b ∙ q in
                  let (there, count) =
                    goes_on r rs d.writes_off d.generation q w t
                      (subst (λ x. Succeeds x rs) off more) in
                  (
                    there,
                    n
                        ∙ ap (λ x. g.generation + generations_after x rs) off
                        ∙ ap (λ x. x + generations_after false rs) (u ∙ ap suc a)
                        ∙ count,
                    p,
                  )
              | inr (q, j, m) ↦
                  let (more, n, p) = IsLast-ends rs g e (z ∙ m) k2 in
                  let (there, count) = comes_last r rs d.writes_off d.generation q w t j more in
                  (there, n ∙ u ∙ ap suc a ∙ count, p)
            ]
      ]
