-- ===== src/History.antt =====
-- history/history.go: entries that expire, and the reference that forgets nothing.
use migration_verifier_docdb.Base.{
  ℕ, suc, ◌+◌, ◌≤◌, ◌≡◌, refl, sym, ◌∙◌, ap, Bool, true, false, List, [], ◌∷◌, ◌++◌, append-nil,
  append_assoc, arith, if◌then◌else◌, ltb, length, drop, All, All-append, Bool-cases, inl, inr,
}

-- Log, with a time in nanoseconds.
pub record Log (T : Type 0) : Type 0 where
  pub at : ℕ
  pub datum : T

pub record History (T : Type 0) : Type 0 where
  pub ttl : ℕ
  pub logs : List (Log T)

unfoldable pub new_history : {T : Type 0} → ℕ → History T
new_history ttl = record { ttl = ttl; logs = [] }

-- Whether an entry has expired: its time is before the time now less the TTL.
abbrev pub is_stale : {T : Type 0} → ℕ → ℕ → Log T → Bool
is_stale ttl now l = ltb (l.at + ttl) now

-- getFirstValidIdxWhileLocked.
unfoldable pub first_valid_idx : {T : Type 0} → ℕ → ℕ → List (Log T) → ℕ
first_valid_idx ttl now [] = 0
first_valid_idx ttl now (l ∷ ls) =
    let rest = first_valid_idx ttl now ls in if is_stale ttl now l then suc rest else 0

-- reapWhileLocked.
unfoldable pub reap : {T : Type 0} → ℕ → History T → History T
unfolding first_valid_idx
reap now h = record h { logs = drop (first_valid_idx h.ttl now h.logs) h.logs }

-- Get, at a time.
unfoldable pub get_logs : {T : Type 0} → ℕ → History T → List (Log T)
unfolding first_valid_idx
get_logs now h = drop (first_valid_idx h.ttl now h.logs) h.logs

-- Add, at a time: the history, and its count of entries.
unfoldable pub add_log : {T : Type 0} → ℕ → T → History T → History T × ℕ
unfolding reap
add_log now x h =
    let logs = (reap now h).logs ++ record { at = now; datum = x } ∷ [] in
    (record h { logs = logs }, length logs)

-- SumLogs, with the addition of the entries' type, which may wrap, and from the type's zero on.
unfoldable pub sum_logs : {T : Type 0} → (T → T → T) → T → List (Log T) → T
sum_logs add sum [] = sum
sum_logs add sum (l ∷ ls) = sum_logs add (add sum l.datum) ls

-- Additions one after the other, each at the time of its entry.
unfoldable pub add_logs : {T : Type 0} → List (Log T) → History T → History T
unfolding add_log
add_logs [] h = h
add_logs (l ∷ ls) h = add_logs ls (add_log l.at l.datum h).0

-- The entries that have not expired.
abbrev pub fresh : {T : Type 0} → ℕ → ℕ → List (Log T) → List (Log T)
fresh ttl now [] = []
fresh ttl now (l ∷ ls) =
    let rest = fresh ttl now ls in if is_stale ttl now l then rest else l ∷ rest

-- Times do not go back.
abbrev pub IsOrdered : {T : Type 0} → List (Log T) → Type 0
IsOrdered [] = Unit
IsOrdered (l ∷ ls) = All (λ m. l.at ≤ m.at) ls × IsOrdered ls

module _ {T : Type 0} (ttl : ℕ) where
  fresh_later :
      (now : ℕ) (l : Log T) (ls : List (Log T))
      → is_stale ttl now l ≡ false
      → All (λ m. l.at ≤ m.at) ls
      → fresh ttl now ls ≡ ls
  fresh_later now l [] e a = refl
  fresh_later now l (m ∷ ms) e (b, a) =
      rw (valid now l m e b) (ap (λ xs. m ∷ xs) (fresh_later now l ms e a))
    where
      valid :
          (now : ℕ) (l m : Log T)
          → is_stale ttl now l ≡ false
          → l.at ≤ m.at
          → is_stale ttl now m ≡ false
      valid now l m e b = ground arith

  drop-fresh :
      (now : ℕ) (ls : List (Log T))
      → IsOrdered ls
      → drop (first_valid_idx ttl now ls) ls ≡ fresh ttl now ls
  unfolding first_valid_idx
  drop-fresh now [] o = refl
  drop-fresh now (l ∷ ls) (a, o) = elim (Bool-cases (is_stale ttl now l)) [
    | inl e ↦ rw e (drop-fresh now ls o)
    | inr e ↦ rw e (ap (λ xs. l ∷ xs) (sym (fresh_later now l ls e a)))
  ]

  fresh-fresh :
      (t now : ℕ) (ls : List (Log T)) → t ≤ now → fresh ttl now (fresh ttl t ls) ≡ fresh ttl now ls
  fresh-fresh t now [] h = refl
  fresh-fresh t now (l ∷ ls) h = elim (Bool-cases (is_stale ttl t l)) [
    | inl e ↦ rw (e, later t now l h e) (fresh-fresh t now ls h)
    | inr e ↦ elim (Bool-cases (is_stale ttl now l)) [
      | inl f ↦ rw (e, f) (fresh-fresh t now ls h)
      | inr f ↦ rw (e, f) (ap (λ xs. l ∷ xs) (fresh-fresh t now ls h))
    ]
  ]
    where
      later :
          (t now : ℕ) (l : Log T) → t ≤ now → is_stale ttl t l ≡ true → is_stale ttl now l ≡ true
      later t now l h e = ground arith

  fresh-append :
      (now : ℕ) (xs ys : List (Log T))
      → fresh ttl now (xs ++ ys) ≡ fresh ttl now xs ++ fresh ttl now ys
  fresh-append now [] ys = refl
  fresh-append now (x ∷ xs) ys = elim (Bool-cases (is_stale ttl now x)) [
    | inl e ↦ rw e (fresh-append now xs ys)
    | inr e ↦ rw e (ap (λ zs. x ∷ zs) (fresh-append now xs ys))
  ]

  All-fresh :
      (t now : ℕ) (ls : List (Log T))
      → All (λ m. t ≤ m.at) ls
      → All (λ m. t ≤ m.at) (fresh ttl now ls)
  All-fresh t now [] a = tt
  All-fresh t now (l ∷ ls) (b, a) = elim (Bool-cases (is_stale ttl now l)) [
    | inl e ↦ rw e (All-fresh t now ls a)
    | inr e ↦ rw e (b, All-fresh t now ls a)
  ]

  IsOrdered-fresh : (now : ℕ) (ls : List (Log T)) → IsOrdered ls → IsOrdered (fresh ttl now ls)
  IsOrdered-fresh now [] o = tt
  IsOrdered-fresh now (l ∷ ls) (a, o) = elim (Bool-cases (is_stale ttl now l)) [
    | inl e ↦ rw e (IsOrdered-fresh now ls o)
    | inr e ↦ rw e (All-fresh l.at now ls a, IsOrdered-fresh now ls o)
  ]

  IsOrdered-snoc :
      (t : ℕ) (ls : List (Log T)) (l : Log T)
      → IsOrdered ls
      → All (λ m. m.at ≤ t) ls
      → t ≤ l.at
      → IsOrdered (ls ++ l ∷ [])
  IsOrdered-snoc t [] l o a h = (tt, tt)
  IsOrdered-snoc t (m ∷ ms) l (b, o) (c, a) h = (
    All-append (λ k. m.at ≤ k.at) ms (l ∷ []) b (omega (arith, c, h), tt),
    IsOrdered-snoc t ms l o a h,
  )

  before_later :
      (t u : ℕ) (ls : List (Log T)) → t ≤ u → All (λ m. m.at ≤ t) ls → All (λ m. m.at ≤ u) ls
  before_later t u [] h a = tt
  before_later t u (l ∷ ls) h (b, a) = (omega (arith, b, h), before_later t u ls h a)

  not_stale_now : (l : Log T) → is_stale ttl l.at l ≡ false
  not_stale_now l = ground arith

  -- An entry that is added at its time.
  add_log-fresh :
      (t : ℕ) (seen : List (Log T)) (l : Log T) (h : History T)
      → h.ttl ≡ ttl
      → h.logs ≡ fresh ttl t seen
      → IsOrdered seen
      → t ≤ l.at
      → (add_log l.at l.datum h).0.logs ≡ fresh ttl l.at (seen ++ l ∷ [])
  unfolding add_log reap
  add_log-fresh t seen l h p q o b =
      ap (λ x. drop (first_valid_idx x.0 l.at x.1) x.1 ++ l ∷ []) same
      ∙ ap (λ ls. ls ++ l ∷ [])
          (drop-fresh l.at (fresh ttl t seen) (IsOrdered-fresh t seen o)
            ∙ fresh-fresh t l.at seen b)
      ∙ sym (
          fresh-append l.at seen (l ∷ [])
          ∙ ap (λ ls. fresh ttl l.at seen ++ ls) (rw (not_stale_now l) refl))
    where
      same : ◌≡◌ {A = ℕ × List (Log T)} (h.ttl, h.logs) (ttl, fresh ttl t seen)
      same = rw (p, q) refl

  add_logs-fresh :
      (t now : ℕ) (seen ls : List (Log T)) (h : History T)
      → h.ttl ≡ ttl
      → h.logs ≡ fresh ttl t seen
      → IsOrdered seen
      → All (λ m. m.at ≤ t) seen
      → IsOrdered ls
      → All (λ m. t ≤ m.at) ls
      → All (λ m. m.at ≤ now) ls
      → t ≤ now
      → get_logs now (add_logs ls h) ≡ fresh ttl now (seen ++ ls)
  unfolding add_logs get_logs
  add_logs-fresh t now seen [] h p q o a o' a' n b =
      rw (p, q)
        (drop-fresh now (fresh ttl t seen) (IsOrdered-fresh t seen o)
          ∙ fresh-fresh t now seen b
          ∙ ap (fresh ttl now) (sym (append-nil seen)))
  add_logs-fresh t now seen (l ∷ ls) h p q o a (lo, o') (c, a') (d, n) b =
      add_logs-fresh l.at now (seen ++ l ∷ []) ls (add_log l.at l.datum h).0 (ttl_kept l h p)
        (add_log-fresh t seen l h p q o c) (IsOrdered-snoc t seen l o a c)
        (All-append (λ m. m.at ≤ l.at) seen (l ∷ []) (before_later t l.at seen c a)
          (omega arith, tt))
        o' lo n d
      ∙ ap (fresh ttl now) (append_assoc seen (l ∷ []) ls)
    where
      ttl_kept : (l : Log T) (h : History T) → h.ttl ≡ ttl → (add_log l.at l.datum h).0.ttl ≡ ttl
      ttl_kept l h p = p

-- After additions whose times do not go back, Get at a later time gives exactly the entries that have
-- not expired, in order: no entry is reaped too early, and none stays too long.
pub get_logs-add_logs :
    {T : Type 0} (ttl now : ℕ) (ls : List (Log T))
    → IsOrdered ls
    → All (λ m. m.at ≤ now) ls
    → get_logs now (add_logs ls (new_history ttl)) ≡ fresh ttl now ls
unfolding new_history
get_logs-add_logs ttl now ls o a =
    add_logs-fresh ttl 0 now [] ls (new_history ttl) refl refl tt tt o (from_zero ls) a
      (omega arith)
  where
    from_zero : {T : Type 0} (ls : List (Log T)) → All (λ m. 0 ≤ m.at) ls
    from_zero [] = tt
    from_zero (l ∷ ls) = (omega arith, from_zero ls)
