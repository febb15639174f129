-- ===== src/Process/Succeeds.antt =====
-- When ProcessVerifyTask succeeds, and what a failure of it leaves alone.
use migration_verifier_docdb.Base.{
  ℕ, ◌+◌, ◌≡◌, ◌≢◌, refl, sym, ◌∙◌, ap, Bool, true, List, [], ◌∷◌, arith, Outcome, ok, err, length,
  ◌⊎◌, inl, inr, Bool-cases,
}
use migration_verifier_docdb.Compare.{Result}
use migration_verifier_docdb.Recheck.{Doc}
use migration_verifier_docdb.Tasks.{
  Task, Tasks, has_key, any_task, update_one, set_progress, update_verification_task, TaskError,
  UpdateReply, answered, send_update, send_update-ok,
}
use migration_verifier_docdb.Process.Mismatches.{Metadata, ProcessError, and_then, and_then-ok}
use migration_verifier_docdb.Process.Documents.{
  ReportEvent, report, comparison_error, context_done, Counts, add_report, persist_problems,
  Written, whole, partly, after_report, read_reports, judge_task, finish_task, process_verify_task,
}
use migration_verifier_docdb.Process.Enqueued.{persist_problems_succeeds}
use migration_verifier_docdb.Process.Reported.{read_reports-IsPersisted}

-- The reports end in one without problems, or the channel is closed after some problems; all that
-- is read before can be persisted.
abbrev EndsAfter : List Result → Written → Written → Type 0 → Type 0
EndsAfter [] enqueues records rest = Unit
EndsAfter (p ∷ ps) enqueues records rest = (enqueues ≡ whole) × (records ≡ whole) × rest

abbrev pub EndsWell : ℕ → List ReportEvent → Type 0
EndsWell k [] = k ≢ 0
EndsWell k (context_done ∷ es) = ⊥
EndsWell k (comparison_error e ∷ es) = ⊥
EndsWell k (report r enqueues records ∷ es) =
    EndsAfter r.problems enqueues records (EndsWell (k + length r.problems) es)

-- The same, as far as a success shows it: in the last generation nothing is enqueued.
abbrev IsReadAfter : Bool → List Result → Written → Written → Type 0 → Type 0
IsReadAfter last [] enqueues records rest = Unit
IsReadAfter last (p ∷ ps) enqueues records rest =
    ((last ≡ true) ⊎ (enqueues ≡ whole)) × (records ≡ whole) × rest

abbrev pub IsRead : Bool → ℕ → List ReportEvent → Type 0
IsRead last k [] = k ≢ 0
IsRead last k (context_done ∷ es) = ⊥
IsRead last k (comparison_error e ∷ es) = ⊥
IsRead last k (report r enqueues records ∷ es) =
    IsReadAfter last r.problems enqueues records (IsRead last (k + length r.problems) es)

module _ (size : Doc → ℕ) (generation : ℕ) (last : Bool) (task : Task) where
  abbrev Ends : Outcome ProcessError Counts × Metadata → Type 0
  Ends s = (c : Counts) × (m : Metadata) × (s ≡ (ok c, m))

  read_reports-Ends :
      (es : List ReportEvent) (c : Counts) (m : Metadata)
      → EndsWell c.problems_count es
      → Ends (read_reports size generation last task es c m)
  unfolding read_reports
  read_reports-Ends [] c m h = (c, m, ground arith)
  read_reports-Ends (context_done ∷ es) c m h = absurd h
  read_reports-Ends (comparison_error e ∷ es) c m h = absurd h
  read_reports-Ends (report r enqueues records ∷ es) c m h =
      by_problems r.problems (add_report r c) (λ n x. read_reports-Ends es (add_report r c) n x) h
    where
      by_problems :
          (qs : List Result) (d : Counts)
          → ((n : Metadata)
              → EndsWell (c.problems_count + length r.problems) es
              → Ends (read_reports size generation last task es d n))
          → EndsAfter qs enqueues records (EndsWell (c.problems_count + length r.problems) es)
          → Ends (
              after_report size generation last task qs enqueues records d
                (read_reports size generation last task es d)
                m)
      by_problems [] d ih x = (d, m, refl)
      by_problems (p ∷ ps) d ih (a, b, x) =
          let (n, y) = persist_problems_succeeds size generation task p ps last m in
          rw (a, b, y) (ih n x)

  update_succeeds :
      (task' : Task) (ts : Tasks)
      → any_task (has_key task'.primary_key) ts ≡ true
      → (us : Tasks) × (send_update answered task' ts ≡ (ok tt, us))
  unfolding update_verification_task send_update
  update_succeeds task' ts h =
      (update_one (has_key task'.primary_key) (set_progress task') ts, rw h refl)

  -- If the comparison ends well, the task is in the task collection and the database answers to its
  -- update, ProcessVerifyTask succeeds.
  pub process_verify_task-EndsWell :
      (es : List ReportEvent) (m : Metadata)
      → EndsWell 0 es
      → any_task (has_key task.primary_key) m.tasks ≡ true
      → (task' : Task) × (m' : Metadata) × (process_verify_task size generation last task answered
            es m
          ≡ (ok task', m'))
  unfolding process_verify_task judge_task
  process_verify_task-EndsWell es m h k =
      let (c, n, y) =
        read_reports-Ends es (record { problems_count = 0; docs_count = 0; bytes_count = 0 }) m h in
      let (_, (_, _, r)) = read_reports-IsPersisted size generation last task es _ c m n y in
      let judged = judge_task size generation last task c in
      let (ts, u) =
        update_succeeds judged n.tasks (ap (any_task (has_key task.primary_key)) r ∙ k) in
      let end = λ (d : Counts) (o : Metadata).
        finish_task size generation last task (judge_task size generation last task d) o
          (send_update answered (judge_task size generation last task d) o.tasks) in
      (_, _, ap (λ s. and_then s end) y ∙ ap (finish_task size generation last task judged n) u)

  persist_problems-ok :
      (ps : List Result) (enqueues records : Written) (m n : Metadata)
      → persist_problems size generation last task ps enqueues records m ≡ (ok tt, n)
      → ((last ≡ true) ⊎ (enqueues ≡ whole)) × (records ≡ whole)
  unfolding persist_problems
  persist_problems-ok ps enqueues (partly f) m n h = absurd (ground (arith, h))
  persist_problems-ok ps whole whole m n h = (inr refl, refl)
  persist_problems-ok ps (partly f) whole m n h = elim (Bool-cases last) [
    | inl e ↦ (inl e, refl)
    | inr e ↦ absurd (ground (arith, h, e))
  ]

  read_reports-IsRead :
      (es : List ReportEvent) (c d : Counts) (m n : Metadata)
      → read_reports size generation last task es c m ≡ (ok d, n)
      → IsRead last c.problems_count es
  unfolding read_reports
  read_reports-IsRead [] c d m n h = λ e. ground (arith, e)
  read_reports-IsRead (context_done ∷ es) c d m n h = absurd (ground arith)
  read_reports-IsRead (comparison_error e ∷ es) c d m n h = absurd (ground arith)
  read_reports-IsRead (report r enqueues records ∷ es) c d m n h =
      by_problems r.problems (add_report r c)
        (λ o x. read_reports-IsRead es (add_report r c) d o n x) h
    where
      by_problems :
          (qs : List Result) (e : Counts)
          → ((o : Metadata)
              → read_reports size generation last task es e o ≡ (ok d, n)
              → IsRead last (c.problems_count + length r.problems) es)
          → after_report size generation last task qs enqueues records e
              (read_reports size generation last task es e)
              m
            ≡ (ok d, n)
          → IsReadAfter last qs enqueues records
              (IsRead last (c.problems_count + length r.problems) es)
      by_problems [] e ih x = tt
      by_problems (p ∷ ps) e ih x =
          let (_, o, a, b) =
            and_then-ok (persist_problems size generation last task (p ∷ ps) enqueues records m) _ d
              n x in
          let (f, g) = persist_problems-ok (p ∷ ps) enqueues records m o a in (f, g, ih o b)

  -- ProcessVerifyTask passes no error over: when it succeeds, the task is in the task collection, its
  -- update is answered, and what it has read ends in a report without problems, or in the channel's
  -- close after some problems; there is no error of the comparison and no end of the context before,
  -- and each report with problems could be persisted, its mismatches and, unless this is the last
  -- generation, its rechecks.
  pub process_verify_task-IsRead :
      (reply : UpdateReply) (es : List ReportEvent) (m m' : Metadata) (task' : Task)
      → process_verify_task size generation last task reply es m ≡ (ok task', m')
      → IsRead last 0 es × (reply ≡ answered) × (any_task (has_key task.primary_key) m.tasks ≡ true)
  unfolding process_verify_task judge_task update_verification_task
  process_verify_task-IsRead reply es m m' task' h =
      let (c, n, a, b) =
        and_then-ok (read_reports size generation last task es zero_counts m) _ task' m' h in
      let (_, (_, _, r)) =
        read_reports-IsPersisted size generation last task es zero_counts c m n a in
      (
        read_reports-IsRead es zero_counts c m n a,
        (by_update (judge_task size generation last task c) n b).0,
        ap (any_task (has_key task.primary_key)) (sym r)
            ∙ (by_update (judge_task size generation last task c) n b).1,
      )
    where
      zero_counts : Counts
      zero_counts = record { problems_count = 0; docs_count = 0; bytes_count = 0 }

      is_there :
          (t : Task) (ts us : Tasks)
          → update_verification_task t ts ≡ ok us
          → any_task (has_key t.primary_key) ts ≡ true
      is_there t ts us x = elim (Bool-cases (any_task (has_key t.primary_key) ts)) [
        | inl e ↦ e
        | inr e ↦ absurd (ground (arith, rw e at x))
      ]

      by_reply :
          (t : Task) (n : Metadata) (o : Outcome TaskError (Unit {0}) × Tasks)
          → send_update reply t n.tasks ≡ o
          → finish_task size generation last task t n o ≡ (ok task', m')
          → (reply ≡ answered) × (any_task (has_key t.primary_key) n.tasks ≡ true)
      by_reply t n (err e, ts) u x = absurd (ground arith)
      by_reply t n (ok tt, ts) u x =
          let (p, q) = send_update-ok reply t n.tasks ts u in (p, is_there t n.tasks ts q)

      by_update :
          (t : Task) (n : Metadata)
          → finish_task size generation last task t n (send_update reply t n.tasks) ≡ (ok task', m')
          → (reply ≡ answered) × (any_task (has_key t.primary_key) n.tasks ≡ true)
      by_update t n x = by_reply t n (send_update reply t n.tasks) refl x
