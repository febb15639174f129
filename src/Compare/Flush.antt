-- ===== src/Compare/Flush.antt =====
-- comparator.go: the flush of the caches and of the problems.
use migration_verifier_docdb.Base.{
  ℕ, suc, Bool, true, false, Option, none, some, List, [], ◌∷◌, ◌++◌, String, if◌then◌else◌,
  Outcome, ok, err, ◌>>=◌, length,
}
use migration_verifier_docdb.Base.Words.{int32}
use migration_verifier_docdb.Compare.Types.{
  Key, Result, cluster_source, cluster_target, missing, Error, channel_write_error, DocWithTs,
  CompareOps, first_mismatch_time, create_mismatch_times,
}
use migration_verifier_docdb.Compare.Caches.{Cache, Comparator, publish_history_counts, why_flush}

-- The ID map is that of the task; `now` is the clock, read once for each result.
module _ {Doc : Type 0} (ops : CompareOps Doc) (namespace : String) (ids : List (Key × ℕ)) where
  -- A document that only one side has.
  unfoldable pub missing_result : (ℕ → ℕ) → Bool → ℕ → DocWithTs Doc → Result
  missing_result now is_src i d = record {
    id = ops.doc_id d.doc;
    field = "";
    details = missing;
    cluster = if is_src then cluster_target else cluster_source;
    namespace = namespace;
    mismatch_history = create_mismatch_times (now i) (first_mismatch_time ids (ops.doc_id d.doc));
    data_size = int32 (ops.doc_len d.doc);
    src_timestamp = if is_src then some d.ts else none;
    dst_timestamp = if is_src then none else some d.ts;
  }

  -- sweepMissingDocs: the loop over one cache.
  unfoldable pub sweep_cache : (ℕ → ℕ) → Bool → ℕ → Cache Doc → List Result
  unfolding missing_result
  sweep_cache now is_src i [] = []
  sweep_cache now is_src i ((k, d) ∷ m) =
      missing_result now is_src i d ∷ sweep_cache now is_src (suc i) m

  unfoldable pub sweep_missing_docs : (ℕ → ℕ) → Comparator Doc → Comparator Doc
  unfolding sweep_cache
  sweep_missing_docs now c = record c {
    problems =
        (c.problems ++ sweep_cache now true 0 c.src_cache)
        ++ sweep_cache now false (length c.src_cache) c.dst_cache;
  }

  -- flush. `writable` says whether the report channel takes the report before the context ends.
  unfoldable pub flush : (ℕ → ℕ) → Bool → Comparator Doc → Outcome Error (Comparator Doc)
  unfolding sweep_missing_docs publish_history_counts
  flush now writable c =
      let swept = sweep_missing_docs now c in
      if writable
      then ok (
          publish_history_counts (record swept {
            reports =
                c.reports
                ++ record {
                  problems = swept.problems;
                  doc_count = c.src_doc_count;
                  byte_count = c.src_byte_count;
                }
                  ∷ [];
            problems = [];
            src_cache = [];
            dst_cache = [];
            src_doc_count = 0;
            src_byte_count = 0;
            cached_variable_bytes = 0;
          }))
      else err channel_write_error

  unfoldable pub flush_if_needed :
      (ℕ → ℕ) → Bool → Comparator Doc → Outcome Error (Comparator Doc × Option String)
  unfolding flush why_flush
  flush_if_needed now writable c = elim (why_flush c) [
    | none ↦ ok (c, none)
    | some why ↦ flush now writable c >>= λ c'. ok (c', some why)
  ]
