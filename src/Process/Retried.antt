-- ===== src/Process/Retried.antt =====
-- The mismatches that a retried document task leaves.
use migration_verifier_docdb.Base.{
  map-append, ℕ, suc, ◌≡◌, refl, sym, ◌∙◌, ap, ap₂, Bool, true, false, List, [], ◌∷◌, ◌++◌, map,
  arith, append-nil, append_assoc, if◌then◌else◌, ◌==◌, ◌&&◌, not, Outcome, ok, err, Bool-cases,
  inl, inr, Option, none, some, All,
}
use migration_verifier_docdb.Compare.{Result}
use migration_verifier_docdb.Recheck.{Doc}
use migration_verifier_docdb.Tasks.{
  Task, Tasks, TaskError, TaskType, process_recheck_queue, verify_collection, verify_documents,
  primary, same_type, UpdateReply, send_update,
}
use migration_verifier_docdb.Process.Mismatches.{
  Metadata, MismatchInfo, ProcessError, mismatch_info, is_of_task, drop_of_task, and_then,
  record_mismatches,
}
use migration_verifier_docdb.Process.Documents.{
  ReportEvent, report, comparison_error, context_done, Counts, add_report, persist_problems,
  Written, written_of, after_report, read_reports, judge_task, finish_task, process_verify_task,
}
use migration_verifier_docdb.Process.Reported.{problems_of, process_verify_task-IsReported}
use migration_verifier_docdb.Process.Attempts.{
  Attempt, max_attempts, clear_mismatches_if_retrying_task, attempt_task, after_attempt,
  process_attempts, process_document_task,
}

same_type_refl : (t : TaskType) → same_type t t ≡ true
same_type_refl process_recheck_queue = refl
same_type_refl verify_collection = refl
same_type_refl verify_documents = refl
same_type_refl primary = refl

own_mismatch : (task : Task) (r : Result) → is_of_task task (mismatch_info task r) ≡ true
unfolding mismatch_info
own_mismatch task r = by_generation task.generation refl
  where
    by_generation :
        (g : Option ℕ) → task.generation ≡ g → is_of_task task (mismatch_info task r) ≡ true
    by_generation none e = rw (e, same_type_refl task.task_type) (ground arith)
    by_generation (some h) e = rw (e, same_type_refl task.task_type) (ground arith)

drop-own : (task : Task) (rs : List Result) → drop_of_task task (map (mismatch_info task) rs) ≡ []
drop-own task [] = refl
drop-own task (r ∷ rs) = rw (own_mismatch task r) (drop-own task rs)

drop-append :
    (task : Task) (xs ys : List MismatchInfo)
    → drop_of_task task (xs ++ ys) ≡ drop_of_task task xs ++ drop_of_task task ys
drop-append task [] ys = refl
drop-append task (x ∷ xs) ys = elim (Bool-cases (is_of_task task x)) [
  | inl e ↦ rw e (drop-append task xs ys)
  | inr e ↦ rw e (ap (λ zs. x ∷ zs) (drop-append task xs ys))
]

module _ (size : Doc → ℕ) (generation : ℕ) (last : Bool) (task : Task) where
  -- Whatever happens, only mismatches of the task are added.
  abbrev AddsOwn : Metadata → Metadata → Type 0
  AddsOwn m n = (rs : List Result) × (n.mismatches ≡ m.mismatches ++ map (mismatch_info task) rs)

  AddsOwn-refl : (m : Metadata) → AddsOwn m m
  AddsOwn-refl m = ([], sym (append-nil m.mismatches))

  AddsOwn-trans : (m n o : Metadata) → AddsOwn m n → AddsOwn n o → AddsOwn m o
  AddsOwn-trans m n o (xs, p) (ys, q) = (
    xs ++ ys,
    q
        ∙ ap (λ l. l ++ map (mismatch_info task) ys) p
        ∙ append_assoc m.mismatches (map (mismatch_info task) xs) (map (mismatch_info task) ys)
        ∙ ap (λ l. m.mismatches ++ l) (sym (map-append (mismatch_info task) xs ys)),
  )

  persist_problems-AddsOwn :
      (ps : List Result) (enqueues records : Written) (m : Metadata)
      → AddsOwn m (persist_problems size generation last task ps enqueues records m).1
  unfolding persist_problems record_mismatches
  persist_problems-AddsOwn ps enqueues records m = (written_of records ps, ground arith)

  and_then-AddsOwn :
      {A B : Type 0} (m : Metadata) (s : Outcome ProcessError A × Metadata)
      (next : A → Metadata → Outcome ProcessError B × Metadata)
      → AddsOwn m s.1
      → ((a : A) (n : Metadata) → AddsOwn n (next a n).1)
      → AddsOwn m (and_then s next).1
  and_then-AddsOwn m (err e, n) next a b = a
  and_then-AddsOwn m (ok x, n) next a b = AddsOwn-trans m n (next x n).1 a (b x n)

  read_reports-AddsOwn :
      (es : List ReportEvent) (c : Counts) (m : Metadata)
      → AddsOwn m (read_reports size generation last task es c m).1
  unfolding read_reports
  read_reports-AddsOwn [] c m = ([], ground (arith, append-nil m.mismatches))
  read_reports-AddsOwn (context_done ∷ es) c m = AddsOwn-refl m
  read_reports-AddsOwn (comparison_error e ∷ es) c m = AddsOwn-refl m
  read_reports-AddsOwn (report r enqueues records ∷ es) c m =
      by_problems r.problems (add_report r c) (read_reports-AddsOwn es (add_report r c))
    where
      by_problems :
          (qs : List Result) (d : Counts)
          → ((n : Metadata) → AddsOwn n (read_reports size generation last task es d n).1)
          → AddsOwn m
              (after_report size generation last task qs enqueues records d
                (read_reports size generation last task es d)
                m).1
      by_problems [] d ih = AddsOwn-refl m
      by_problems (p ∷ ps) d ih =
          and_then-AddsOwn m
            (persist_problems size generation last task (p ∷ ps) enqueues records m) _
            (persist_problems-AddsOwn (p ∷ ps) enqueues records m) (λ _ n. ih n)

  failed-AddsOwn :
      (reply : UpdateReply) (es : List ReportEvent) (m m' : Metadata) (e : ProcessError)
      → process_verify_task size generation last task reply es m ≡ (err e, m')
      → AddsOwn m m'
  unfolding process_verify_task
  failed-AddsOwn reply es m m' e h =
      by_reports (read_reports size generation last task es zero_counts m)
        (read_reports-AddsOwn es zero_counts m) h
    where
      zero_counts : Counts
      zero_counts = record { problems_count = 0; docs_count = 0; bytes_count = 0 }

      by_update :
          (task' : Task) (n : Metadata) (o : Outcome TaskError (Unit {0}) × Tasks)
          → AddsOwn m n
          → finish_task size generation last task task' n o ≡ (err e, m')
          → AddsOwn m m'
      by_update task' n (err f, ts) (rs, p) x = (rs, ap (λ s. s.1.mismatches) (sym x) ∙ p)
      by_update task' n (ok u, ts) a x = absurd (ground arith)

      by_reports :
          (s : Outcome ProcessError Counts × Metadata)
          → AddsOwn m s.1
          → and_then s (λ c n.
            finish_task size generation last task
              (judge_task size generation last task c)
              n
              (send_update reply (judge_task size generation last task c) n.tasks))
            ≡ (err e, m')
          → AddsOwn m m'
      by_reports (err f, n) (rs, p) x = (rs, ap (λ s. s.1.mismatches) (sym x) ∙ p)
      by_reports (ok c, n) a x = by_update _ n _ a x

-- The mismatches of a task are those of one attempt's reports.
abbrev pub Leaves : Task → List MismatchInfo → List Attempt → Metadata → Type 0
Leaves task others as' m' =
    (before : List Attempt) × (a : Attempt) × (after : List Attempt) × (as' ≡ before ++ a ∷ after)
    × (m'.mismatches ≡ others ++ map (mismatch_info task) (problems_of a.events))

module _ (size : Doc → ℕ) (generation : ℕ) (last : Bool) (transient : ProcessError → Bool)
    (task : Task) (others : List MismatchInfo) (foreign : drop_of_task task others ≡ others) where
  cleared_again :
      (n : ℕ) (m : Metadata) (rs : List Result)
      → m.mismatches ≡ others ++ map (mismatch_info task) rs
      → (clear_mismatches_if_retrying_task task (suc n) true m).mismatches ≡ others
  unfolding clear_mismatches_if_retrying_task
  cleared_again n m rs h =
      let not_first : (suc n == 0) ≡ false = ground arith in
      rw not_first (
        ap (drop_of_task task) h
        ∙ drop-append task others (map (mismatch_info task) rs)
        ∙ ap₂ (λ xs ys. xs ++ ys) foreign (drop-own task rs)
        ∙ append-nil others)

  process_attempts-Leaves :
      (n : ℕ) (as' : List Attempt) (m m' : Metadata) (task' : Task)
      → All (λ a. a.clears ≡ true) as'
      → (clear_mismatches_if_retrying_task task n true m).mismatches ≡ others
      → process_attempts size generation last transient task n as' m ≡ (ok task', m')
      → Leaves task others as' m'
  unfolding process_attempts attempt_task
  process_attempts-Leaves n [] m m' task' c k h = absurd (ground arith)
  process_attempts-Leaves n (a ∷ as') m m' task' (c, cs) k h =
      by_attempt (attempt_task size generation last transient task n a m)
        (λ n' x y. process_attempts-Leaves (suc n) as' n' m' task' cs x y) refl h
    where
      start : Metadata
      start = clear_mismatches_if_retrying_task task n a.clears m

      clean : start.mismatches ≡ others
      clean = rw c k

      one_more : Leaves task others as' m' → Leaves task others (a ∷ as') m'
      one_more (before, b, after, p, q) = (a ∷ before, b, after, ap (λ l. a ∷ l) p, q)

      opened :
          {s : Outcome ProcessError Task × Metadata}
          → attempt_task size generation last transient task n a m ≡ s
          → process_verify_task size generation last task a.update_reply a.events start ≡ s
      opened e = e

      by_test :
          (o : Metadata) (f : ProcessError) (b : Bool)
          → (process_attempts size generation last transient task (suc n) as' o ≡ (ok task', m')
              → Leaves task others as' m')
          → ◌≡◌ {A = Outcome ProcessError Task × Metadata}
              (if b
                then process_attempts size generation last transient task (suc n) as' o
                else (err f, o))
              (ok task', m')
          → Leaves task others (a ∷ as') m'
      by_test o f true ih x = one_more (ih x)
      by_test o f false ih x = absurd (ground arith)

      by_attempt :
          (s : Outcome ProcessError Task × Metadata)
          → ((o : Metadata)
              → (clear_mismatches_if_retrying_task task (suc n) true o).mismatches ≡ others
              → process_attempts size generation last transient task (suc n) as' o ≡ (ok task', m')
              → Leaves task others as' m')
          → attempt_task size generation last transient task n a m ≡ s
          → after_attempt size generation last transient task s
              (suc n == max_attempts)
              (process_attempts size generation last transient task (suc n) as')
            ≡ (ok task', m')
          → Leaves task others (a ∷ as') m'
      by_attempt (ok t, o) ih e x =
          let r =
            process_verify_task-IsReported size generation last task a.update_reply a.events start
              task' m' (opened e ∙ x) in
          (
            [],
            a,
            as',
            refl,
            r.3 ∙ ap (λ l. l ++ map (mismatch_info task) (problems_of a.events)) clean,
          )
      by_attempt (err f, o) ih e x =
          let (rs, p) =
            failed-AddsOwn size generation last task a.update_reply a.events start o f (opened e) in
          let own = p ∙ ap (λ l. l ++ map (mismatch_info task) rs) clean in
          by_test o f (transient f && not (suc n == max_attempts)) (ih o (cleared_again n o rs own))
            x

-- When a document task that had no mismatches is processed with success, after any number of attempts
-- of which each retry could clear the old mismatches, its mismatches are those of one attempt's
-- reports, each once, and the other tasks' mismatches are as before.
pub process_document_task-Leaves :
    (size : Doc → ℕ) (generation : ℕ) (last : Bool) (transient : ProcessError → Bool) (task : Task)
    (as' : List Attempt) (m m' : Metadata) (task' : Task)
    → drop_of_task task m.mismatches ≡ m.mismatches
    → All (λ a. a.clears ≡ true) as'
    → process_document_task size generation last transient task as' m ≡ (ok task', m')
    → Leaves task m.mismatches as' m'
unfolding process_document_task clear_mismatches_if_retrying_task
process_document_task-Leaves size generation last transient task as' m m' task' foreign c h =
    process_attempts-Leaves size generation last transient task m.mismatches foreign 0 as' m m'
      task' c refl h
