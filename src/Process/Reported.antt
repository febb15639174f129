-- ===== src/Process/Reported.antt =====
-- What ProcessVerifyTask leaves in the metadata, against the reports that it reads.
use migration_verifier_docdb.Base.{
  map-append, ℕ, suc, ◌+◌, ◌%◌, ◌≡◌, refl, sym, ◌∙◌, ap, subst, Bool, true, false, List, [], ◌∷◌,
  ◌++◌, append-nil, append_assoc, map, arith, if◌then◌else◌, ◌==◌, Outcome, ok, err, ok-injective,
  length, length-append, Option, none, some,
}
use migration_verifier_docdb.Base.Words.{word, add64}
use migration_verifier_docdb.Compare.{Result}
use migration_verifier_docdb.Recheck.{Doc, WhichCluster, src, dst}
use migration_verifier_docdb.Bson.{Timestamp}
use migration_verifier_docdb.Tasks.{
  Task, Tasks, TaskError, completed, failed, update_verification_task, UpdateReply, send_update,
  send_update-ok,
}
use migration_verifier_docdb.Process.Mismatches.{
  Metadata, ProcessError, closed_without_problems, mismatch_info, and_then-ok,
  note_compare_of_optime,
}
use migration_verifier_docdb.Process.Documents.{
  ReportEvent, report, comparison_error, context_done, Counts, add_report, persist_problems,
  after_report, read_reports, judge_task, note_optime, finish_task, process_verify_task,
}
use migration_verifier_docdb.Process.Enqueued.{
  recheck_of, tagged, tagged-append, queued, IsPersisted, persist_problems-IsPersisted,
}

abbrev and_more : List Result → List Result → List Result
and_more [] rest = []
and_more (p ∷ ps) rest = (p ∷ ps) ++ rest

abbrev unless_empty : List Result → ℕ → ℕ
unless_empty [] n = 0
unless_empty (p ∷ ps) n = n

-- The problems of the reports up to the first without one.
abbrev pub problems_of : List ReportEvent → List Result
problems_of [] = []
problems_of (context_done ∷ es) = []
problems_of (comparison_error e ∷ es) = []
problems_of (report r enqueues records ∷ es) = and_more r.problems (problems_of es)

-- The source documents that those reports count.
abbrev pub docs_of : List ReportEvent → ℕ
docs_of [] = 0
docs_of (context_done ∷ es) = 0
docs_of (comparison_error e ∷ es) = 0
docs_of (report r enqueues records ∷ es) = r.doc_count + unless_empty r.problems (docs_of es)

module _ (size : Doc → ℕ) (generation : ℕ) (last : Bool) (task : Task) where
  abbrev queued_for : List Result → List (ℕ × Doc)
  queued_for ps = if last then [] else tagged (suc generation) (map (recheck_of task) ps)

  queued_for-append : (ps qs : List Result) → queued_for (ps ++ qs) ≡ queued_for ps ++ queued_for qs
  queued_for-append ps qs = by_last last
    where
      by_last :
          (b : Bool)
          → (if b then [] else tagged (suc generation) (map (recheck_of task) (ps ++ qs)))
            ≡ (if b then [] else tagged (suc generation) (map (recheck_of task) ps))
              ++ (if b then [] else tagged (suc generation) (map (recheck_of task) qs))
      by_last true = refl
      by_last false =
          ap (tagged (suc generation)) (map-append (recheck_of task) ps qs)
          ∙ tagged-append (suc generation) (map (recheck_of task) ps) (map (recheck_of task) qs)

  IsPersisted-trans :
      (ps qs : List Result) (m n o : Metadata)
      → IsPersisted generation last task ps m n
      → IsPersisted generation last task qs n o
      → IsPersisted generation last task (ps ++ qs) m o
  IsPersisted-trans ps qs m n o (a, b, c) (x, y, z) = (
    x
        ∙ ap (λ l. l ++ map (mismatch_info task) qs) a
        ∙ append_assoc m.mismatches (map (mismatch_info task) ps) (map (mismatch_info task) qs)
        ∙ ap (λ l. m.mismatches ++ l) (sym (map-append (mismatch_info task) ps qs)),
    y
        ∙ ap (λ l. l ++ queued_for qs) b
        ∙ append_assoc (queued m.queue) (queued_for ps) (queued_for qs)
        ∙ ap (λ l. queued m.queue ++ l) (sym (queued_for-append ps qs)),
    z ∙ c,
  )

  IsPersisted-nil : (m : Metadata) → IsPersisted generation last task [] m m
  IsPersisted-nil m = (
    sym (append-nil m.mismatches),
    sym (append-nil (queued m.queue)) ∙ ap (λ l. queued m.queue ++ l) (by_last last),
    refl,
  )
    where
      by_last : (b : Bool) → [] ≡ (if b then [] else tagged (suc generation) [])
      by_last true = refl
      by_last false = refl

  abbrev pub IsCounted : List ReportEvent → Counts → Counts → Type 0
  IsCounted es c c' =
      (c'.problems_count ≡ c.problems_count + length (problems_of es))
      × (c'.docs_count % word ≡ (c.docs_count + docs_of es) % word)

  pub read_reports-IsPersisted :
      (es : List ReportEvent) (c c' : Counts) (m m' : Metadata)
      → read_reports size generation last task es c m ≡ (ok c', m')
      → IsCounted es c c' × IsPersisted generation last task (problems_of es) m m'
  unfolding read_reports
  read_reports-IsPersisted [] c c' m m' h = by_count (c.problems_count == 0) h
    where
      by_count :
          (b : Bool)
          → ◌≡◌ {A = Outcome ProcessError Counts × Metadata}
              (if b then (err closed_without_problems, m) else (ok c, m))
              (ok c', m')
          → IsCounted [] c c' × IsPersisted generation last task [] m m'
      by_count true x = absurd (ground arith)
      by_count false x =
          let e = ok-injective (ap (λ r. r.0) x) in
          (
            (
              omega (arith, ap (λ (d : Counts). d.problems_count) e),
              omega (arith, ap (λ (d : Counts). d.docs_count) e),
            ),
            subst (IsPersisted generation last task [] m) (ap (λ r. r.1) x) (IsPersisted-nil m),
          )
  read_reports-IsPersisted (context_done ∷ es) c c' m m' h = absurd (ground arith)
  read_reports-IsPersisted (comparison_error e ∷ es) c c' m m' h = absurd (ground arith)
  read_reports-IsPersisted (report r enqueues records ∷ es) c c' m m' h =
      by_problems r.problems (add_report r c) refl refl
        (λ n x. read_reports-IsPersisted es (add_report r c) c' n m' x) h
    where
      by_problems :
          (qs : List Result) (d : Counts)
          → d.problems_count ≡ c.problems_count + length qs
          → d.docs_count ≡ add64 c.docs_count r.doc_count
          → ((n : Metadata)
              → read_reports size generation last task es d n ≡ (ok c', m')
              → IsCounted es d c' × IsPersisted generation last task (problems_of es) n m')
          → after_report size generation last task qs enqueues records d
              (read_reports size generation last task es d)
              m
            ≡ (ok c', m')
          → ((c'.problems_count ≡ c.problems_count + length (and_more qs (problems_of es)))
              × (c'.docs_count % word
                  ≡ (c.docs_count + (r.doc_count + unless_empty qs (docs_of es))) % word))
            × IsPersisted generation last task (and_more qs (problems_of es)) m m'
      by_problems [] d k l ih x =
          let e = ok-injective (ap (λ r. r.0) x) in
          (
            (
              omega (arith, k, ap (λ (d : Counts). d.problems_count) e),
              omega (arith, l, ap (λ (d : Counts). d.docs_count) e),
            ),
            subst (IsPersisted generation last task [] m) (ap (λ r. r.1) x) (IsPersisted-nil m),
          )
      by_problems (p ∷ ps) d k l ih x =
          let (u, n, y, z) =
            and_then-ok (persist_problems size generation last task (p ∷ ps) enqueues records m)
              (λ _ n. read_reports size generation last task es d n) c' m' x in
          let ((a, b), q) = ih n z in
          (
            (omega (arith, a, k, length-append (p ∷ ps) (problems_of es)), omega (arith, b, l)),
            IsPersisted-trans (p ∷ ps) (problems_of es) m n m'
                (persist_problems-IsPersisted size generation task p ps last enqueues records m n y)
                q,
          )

  -- What ProcessVerifyTask's success means, for the task that it returns.
  abbrev pub IsReported : List ReportEvent → Metadata → Task → Metadata → Type 0
  IsReported es m task' m' =
      (task'.status ≡ (if length (problems_of es) == 0 then completed else failed))
      × (task'.found_source_documents_count % word ≡ docs_of es % word)
      × (update_verification_task task' m.tasks ≡ ok m'.tasks)
      × (m'.mismatches ≡ m.mismatches ++ map (mismatch_info task) (problems_of es))
      × (queued m'.queue ≡ queued m.queue ++ queued_for (problems_of es))

note_optime-keeps :
    (cluster : WhichCluster) (o : Option Timestamp) (m : Metadata)
    → let n = note_optime cluster o m in
      (n.tasks ≡ m.tasks) × (n.mismatches ≡ m.mismatches) × (n.queue ≡ m.queue)
unfolding note_compare_of_optime
note_optime-keeps cluster none m = (refl, refl, refl)
note_optime-keeps src (some ts) m = (refl, refl, refl)
note_optime-keeps dst (some ts) m = (refl, refl, refl)

finished :
    (size : Doc → ℕ) (generation : ℕ) (last : Bool) (task : Task) (es : List ReportEvent)
    (m n : Metadata) (task' : Task) (m' : Metadata) (c : Counts) (reply : UpdateReply)
    → c.problems_count ≡ 0 + length (problems_of es)
    → c.docs_count % word ≡ (0 + docs_of es) % word
    → IsPersisted generation last task (problems_of es) m n
    → finish_task size generation last task
        (judge_task size generation last task c)
        n
        (send_update reply (judge_task size generation last task c) n.tasks)
      ≡ (ok task', m')
    → IsReported size generation last task es m task' m'
unfolding judge_task
finished size generation last task es m n task' m' c reply a b (p, q, r) h =
    by_update (send_update reply judged n.tasks) refl h
  where
    judged : Task
    judged = judge_task size generation last task c

    by_update :
        (o : Outcome TaskError (Unit {0}) × Tasks)
        → send_update reply judged n.tasks ≡ o
        → finish_task size generation last task judged n o ≡ (ok task', m')
        → IsReported size generation last task es m task' m'
    by_update (err e, ts) u x = absurd (ground arith)
    by_update (ok tt, ts) u x =
        let same : judged ≡ task' = ok-injective (ap (λ s. s.0) x) in
        let end : _ ≡ m' = ap (λ s. s.1) x in
        let first = note_optime-keeps src judged.src_timestamp (record n { tasks = ts }) in
        let second =
          note_optime-keeps dst judged.dst_timestamp
            (note_optime src judged.src_timestamp (record n { tasks = ts })) in
        subst (λ (t : Task). IsReported size generation last task es m t m') same
          (subst (λ (o : Metadata). IsReported size generation last task es m judged o) end
            (
              ap (λ k. if k == 0 then completed else failed) (omega (arith, a)),
              omega (arith, b),
              ap (update_verification_task judged) (sym r)
                  ∙ (send_update-ok reply judged n.tasks ts u).1
                  ∙ ap ok (sym (second.0 ∙ first.0)),
              (second.1 ∙ first.1) ∙ p,
              ap queued (second.2 ∙ first.2) ∙ q,
            ))

-- When ProcessVerifyTask succeeds, each problem of the reports that it reads is recorded as a mismatch
-- of the task, and unless this is the last generation its document is queued once, in order, for the
-- next generation; the task is completed exactly if there was no problem, counts the reports' source
-- documents modulo 2 ^ 64, and is stored.
pub process_verify_task-IsReported :
    (size : Doc → ℕ) (generation : ℕ) (last : Bool) (task : Task) (reply : UpdateReply)
    (es : List ReportEvent) (m : Metadata) (task' : Task) (m' : Metadata)
    → process_verify_task size generation last task reply es m ≡ (ok task', m')
    → IsReported size generation last task es m task' m'
unfolding process_verify_task
process_verify_task-IsReported size generation last task reply es m task' m' h =
    let zero_counts : Counts = record { problems_count = 0; docs_count = 0; bytes_count = 0 } in
    let (c, n, y, z) =
      and_then-ok (read_reports size generation last task es zero_counts m) _ task' m' h in
    let ((a, b), p) = read_reports-IsPersisted size generation last task es zero_counts c m n y in
    finished size generation last task es m n task' m' c reply a b p z
