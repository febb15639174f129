-- ===== src/Tests/Comparing.antt =====
-- The comparator on a small stream of documents: a pair of numbers stands for a document's key and
-- its contents.
use migration_verifier_docdb.Base.{
  ℕ, ◌≡◌, ◌≢◌, refl, Bool, true, false, none, List, [], ◌∷◌, ◌++◌, Outcome, ok, err, if◌then◌else◌,
  ◌==◌, ◌↔◌, ℕ_discrete,
}
use migration_verifier_docdb.Base.Dict.{insert, lookup}
use migration_verifier_docdb.Bson.{bytes_dec}
use migration_verifier_docdb.Compare.{
  RawValue, Key, Result, Error, cluster_target, no_history, DocWithTs, CompareOps, Report,
  Comparator, new_comparator, process_single_doc, get_map_key, flush, Channel, closed, send, docs,
  cursor_done, run, interleave, out_of_fuel,
}
use migration_verifier_docdb.Compare.Pairing.{
  Steps, IsPaired, IsDistinct, process_all, expected, record_steps, unmatched, find_doc, key_of,
  process_all-expected,
}
use migration_verifier_docdb.Compare.Verdict.{weave, report-clean, interleave-process_all}
use migration_verifier_docdb.Compare.Memory.{
  IsAccounted, weight, id_lengths, process_single_doc-IsAccounted,
}
use migration_verifier_docdb.Compare.Terminates.{run_ends}

abbrev Small : Type 0
Small = ℕ × ℕ

abbrev id_of : Small → RawValue
id_of d = record { ty = 16; value = d.0 ∷ [] }

abbrev difference : Small → Result
difference d = record {
  id = id_of d;
  field = "";
  details = "Mismatch";
  cluster = cluster_target;
  namespace = "db.coll";
  mismatch_history = no_history;
  data_size = 0;
  src_timestamp = none;
  dst_timestamp = none;
}

abbrev small_ops : CompareOps Small
small_ops = record {
  get_doc_key_values = λ d. ok (id_of d ∷ []);
  doc_id = id_of;
  doc_size = λ d. 20;
  doc_len = λ d. 20;
  compare_one_document = λ s d. if s.1 == d.1 then ok [] else ok (difference s ∷ []);
}

abbrev doc : ℕ → ℕ → DocWithTs Small
doc k v = record { doc = (k, v); ts = record { t = 1; i = 1 } }

abbrev clock : ℕ → ℕ → ℕ
clock n i = 1000

-- Document 1 is the same on both sides; the destination lacks document 2.
abbrev steps : Steps Small
steps = (true, doc 1 5) ∷ (false, doc 1 5) ∷ (true, doc 2 7) ∷ []

abbrev paired_steps : Steps Small
paired_steps = (true, doc 1 5) ∷ (false, doc 1 5) ∷ []

abbrev state_or_new : Outcome Error (ℕ × Comparator Small) → Comparator Small
state_or_new (ok (n, c)) = c
state_or_new (err e) = new_comparator Small

abbrev flushed_or_new : Outcome Error (Comparator Small) → Comparator Small
flushed_or_new (ok c) = c
flushed_or_new (err e) = new_comparator Small

abbrev first_report : List Report → Report
first_report [] = record { problems = []; doc_count = 0; byte_count = 0 }
first_report (r ∷ rs) = r

-- The comparator after some steps, after the flush, and the report of the flush.
unfoldable after_steps : Steps Small → Comparator Small
unfolding process_all new_comparator
after_steps ss = state_or_new (process_all small_ops "db.coll" [] clock ss 0 (new_comparator Small))

unfoldable after_flush : Steps Small → Comparator Small
unfolding after_steps flush
after_flush ss = flushed_or_new (flush small_ops "db.coll" [] (clock 9) true (after_steps ss))

unfoldable report_of : Steps Small → Report
unfolding after_flush
report_of ss = first_report (after_flush ss).reports

new-IsPaired : IsPaired small_ops (new_comparator Small) []
unfolding new_comparator lookup unmatched
new-IsPaired = record { src = λ k. refl; dst = λ k. refl }

steps-IsDistinct : IsDistinct small_ops [] steps
unfolding IsDistinct find_doc bytes_dec get_map_key ℕ_discrete
steps-IsDistinct = (refl, (refl, (refl, tt)))

paired-IsDistinct : IsDistinct small_ops [] paired_steps
unfolding IsDistinct find_doc bytes_dec get_map_key ℕ_discrete
paired-IsDistinct = (refl, (refl, tt))

process_all-steps :
    process_all small_ops "db.coll" [] clock steps 0 (new_comparator Small)
    ≡ ok (3, after_steps steps)
unfolding process_all after_steps new_comparator lookup insert bytes_dec get_map_key ℕ_discrete
process_all-steps = refl

process_all-paired_steps :
    process_all small_ops "db.coll" [] clock paired_steps 0 (new_comparator Small)
    ≡ ok (2, after_steps paired_steps)
unfolding process_all after_steps new_comparator lookup insert bytes_dec get_map_key ℕ_discrete
process_all-paired_steps = refl

flush-paired_steps :
    flush small_ops "db.coll" [] (clock 9) true (after_steps paired_steps)
    ≡ ok (after_flush paired_steps)
unfolding after_flush flush
flush-paired_steps = refl

paired_reports :
    (after_flush paired_steps).reports
    ≡ (after_steps paired_steps).reports ++ report_of paired_steps ∷ []
unfolding after_flush after_steps report_of lookup insert bytes_dec get_map_key ℕ_discrete
paired_reports = refl

process_all-expected_example :
    IsPaired small_ops (after_steps steps) (record_steps [] steps)
    × ((after_steps steps).problems
        ≡ (new_comparator Small).problems ++ expected small_ops "db.coll" [] clock 0 [] steps)
process_all-expected_example =
    process_all-expected small_ops "db.coll" [] clock steps 0 3 (new_comparator Small)
      (after_steps steps) [] new-IsPaired steps-IsDistinct process_all-steps

report-clean_example : ((report_of paired_steps).problems ≡ []) ↔ (
    (expected small_ops "db.coll" [] clock 0 [] paired_steps ≡ [])
    × ((side : Bool) (k : Key) → unmatched small_ops side k (record_steps [] paired_steps) ≡ none))
report-clean_example =
    report-clean small_ops "db.coll" [] clock (clock 9) paired_steps 2 (after_steps paired_steps)
      (after_flush paired_steps) (report_of paired_steps) paired-IsDistinct process_all-paired_steps
      flush-paired_steps paired_reports

interleave-process_all_example :
    interleave small_ops "db.coll" [] clock
      (λ n. true)
      (doc 1 5 ∷ doc 2 7 ∷ [])
      (doc 1 5 ∷ [])
      0
      (new_comparator Small)
    ≡ process_all small_ops "db.coll" [] clock
        (weave (doc 1 5 ∷ doc 2 7 ∷ []) (doc 1 5 ∷ []))
        0
        (new_comparator Small)
interleave-process_all_example =
    interleave-process_all small_ops "db.coll" [] clock (λ n. true) (doc 1 5 ∷ doc 2 7 ∷ [])
      (doc 1 5 ∷ []) 0 (new_comparator Small)

abbrev src_stream : Channel Small
src_stream = send (record { msg_type = docs; docs_with_ts = doc 1 5 ∷ doc 2 7 ∷ [] }) closed

abbrev dst_stream : Channel Small
dst_stream =
    send (record { msg_type = cursor_done; docs_with_ts = [] })
      (send (record { msg_type = docs; docs_with_ts = doc 1 5 ∷ [] }) closed)

run_ends_example :
    run small_ops "db.coll" [] clock (λ n. true) src_stream dst_stream (new_comparator Small)
    ≢ err out_of_fuel
run_ends_example = run_ends small_ops "db.coll" [] clock (λ n. true) src_stream dst_stream

new-IsAccounted : IsAccounted small_ops (new_comparator Small)
unfolding new_comparator weight id_lengths
new-IsAccounted = record { src_map = tt; dst_map = tt; bytes = refl }

unfoldable after_one : Comparator Small
unfolding process_single_doc new_comparator
after_one =
    flushed_or_new
      (process_single_doc small_ops "db.coll" [] (clock 0) (doc 1 5) true (new_comparator Small))

not_cached : lookup bytes_dec (key_of small_ops (doc 1 5)) (new_comparator Small).src_cache ≡ none
unfolding lookup new_comparator
not_cached = refl

process_one :
    process_single_doc small_ops "db.coll" [] (clock 0) (doc 1 5) true (new_comparator Small)
    ≡ ok after_one
unfolding after_one process_single_doc lookup
process_one = refl

process_single_doc-IsAccounted_example : IsAccounted small_ops after_one
process_single_doc-IsAccounted_example =
    process_single_doc-IsAccounted small_ops "db.coll" [] (clock 0) true (doc 1 5)
      (new_comparator Small) after_one new-IsAccounted not_cached process_one
