-- ===== src/Compare/Caches.antt =====
-- comparator.go: the caches, one document at a time.
use migration_verifier_docdb.Base.{
  ℕ, suc, ◌+◌, Bool, false, Option, none, some, List, [], ◌∷◌, ◌++◌, String, if◌then◌else◌, leb,
  Outcome, ok, ◌>>=◌, length,
}
use migration_verifier_docdb.Base.Dict.{lookup, insert, delete}
use migration_verifier_docdb.Base.Words.{add64, sub64, ge64}
use migration_verifier_docdb.Bson.{bytes_dec}
use migration_verifier_docdb.Compare.Types.{
  Key, get_map_key, Result, Error, wrap, DocWithTs, CompareOps, first_mismatch_time,
  create_mismatch_times,
}

abbrev pub comparator_max_problems_len : ℕ
comparator_max_problems_len = 100000

abbrev pub comparator_max_variable_bytes : ℕ
comparator_max_variable_bytes = 31457280

-- comparisonHistoryThreshold (compare.go).
abbrev pub comparison_history_threshold : ℕ
comparison_history_threshold = 500

abbrev pub Cache : Type 0 → Type 0
Cache Doc = List (Key × DocWithTs Doc)

-- DocCompareReport.
pub record Report : Type 0 where
  pub problems : List Result
  pub doc_count : ℕ
  pub byte_count : ℕ

-- The fields of `comparator` that change. `history` holds what was added to the verifier's
-- docs-compared and bytes-compared histories, `worker_counts` what the worker tracker was told,
-- and `reports` what was written to the report channel; each newest last.
pub record Comparator (Doc : Type 0) : Type 0 where
  pub src_closed : Bool
  pub dst_closed : Bool
  pub src_cache : Cache Doc
  pub dst_cache : Cache Doc
  pub problems : List Result
  pub src_doc_count : ℕ
  pub src_byte_count : ℕ
  pub cur_history_doc_count : ℕ
  pub cur_history_byte_count : ℕ
  pub cached_variable_bytes : ℕ
  pub history : List (ℕ × ℕ)
  pub worker_counts : ℕ × ℕ
  pub reports : List Report

-- newComparator, as far as the fields above.
unfoldable pub new_comparator : (Doc : Type 0) → Comparator Doc
new_comparator Doc = record {
  src_closed = false;
  dst_closed = false;
  src_cache = [];
  dst_cache = [];
  problems = [];
  src_doc_count = 0;
  src_byte_count = 0;
  cur_history_doc_count = 0;
  cur_history_byte_count = 0;
  cached_variable_bytes = 0;
  history = [];
  worker_counts = (0, 0);
  reports = [];
}

module _ {Doc : Type 0} where
  -- publishHistoryCounts.
  unfoldable pub publish_history_counts : Comparator Doc → Comparator Doc
  publish_history_counts c = record c {
    history = c.history ++ (c.cur_history_doc_count, c.cur_history_byte_count) ∷ [];
    cur_history_doc_count = 0;
    cur_history_byte_count = 0;
  }

  unfoldable pub count_unpaired_docs : Comparator Doc → ℕ
  count_unpaired_docs c = length c.src_cache + length c.dst_cache

  -- Why flushIfNeeded flushes.
  unfoldable pub why_flush : Comparator Doc → Option String
  unfolding count_unpaired_docs
  why_flush c =
      if leb comparator_max_problems_len (count_unpaired_docs c + length c.problems)
      then some "problems count"
      else if ge64 c.cached_variable_bytes comparator_max_variable_bytes
      then some "memory usage"
      else none

-- The ID map is that of the task; `now` is the clock, read once for each result.
module _ {Doc : Type 0} (ops : CompareOps Doc) (namespace : String) (ids : List (Key × ℕ)) where
  -- recordSrcMetrics: the loop over the batch.
  unfoldable pub record_sizes : List (DocWithTs Doc) → Comparator Doc → Comparator Doc
  unfolding publish_history_counts
  record_sizes [] c = c
  record_sizes (d ∷ ds) c =
      let size = ops.doc_size d.doc in
      let c' = record c {
        src_byte_count = add64 c.src_byte_count size;
        cur_history_byte_count = add64 c.cur_history_byte_count size;
      } in
      record_sizes ds (
        if ge64 c'.cur_history_doc_count comparison_history_threshold
        then publish_history_counts c'
        else c')

  unfoldable pub record_src_metrics : List (DocWithTs Doc) → Comparator Doc → Comparator Doc
  unfolding record_sizes
  record_src_metrics docs c =
      let c' = record_sizes docs (record c {
        src_doc_count = add64 c.src_doc_count (length docs);
        cur_history_doc_count = add64 c.cur_history_doc_count (length docs);
      }) in
      record c' { worker_counts = (c'.src_doc_count, c'.src_byte_count) }

  -- The loop over a pair's mismatches: each gets its history and both timestamps.
  unfoldable pub annotate : (ℕ → ℕ) → ℕ → DocWithTs Doc → DocWithTs Doc → List Result → List Result
  annotate now i src dst [] = []
  annotate now i src dst (r ∷ rs) =
      record r {
        mismatch_history =
            create_mismatch_times (now i) (first_mismatch_time ids (ops.doc_id src.doc));
        src_timestamp = some src.ts;
        dst_timestamp = some dst.ts;
      }
      ∷ annotate now (suc i) src dst rs

  unfoldable pub add_id_lengths : List Result → ℕ → ℕ
  add_id_lengths [] n = n
  add_id_lengths (r ∷ rs) n = add_id_lengths rs (add64 n (length r.id.value))

  -- processSingleDoc once the key is known, where the other side lacks the document.
  unfoldable pub cache_doc : Bool → Key → DocWithTs Doc → Comparator Doc → Comparator Doc
  cache_doc is_src key cur c =
      let c' = record c {
        cached_variable_bytes = add64 c.cached_variable_bytes (length key + ops.doc_len cur.doc);
      } in
      if is_src
      then record c' { src_cache = insert bytes_dec key cur c.src_cache }
      else record c' { dst_cache = insert bytes_dec key cur c.dst_cache }

  -- The same where the other side has it: the entry leaves that cache, and the two are compared.
  unfoldable pub compare_pair :
      (ℕ → ℕ)
      → Bool
      → Key
      → DocWithTs Doc
      → DocWithTs Doc
      → Comparator Doc
      → Outcome Error (Comparator Doc)
  unfolding annotate add_id_lengths
  compare_pair now is_src key cur theirs c =
      let c' = record c {
        src_cache = if is_src then c.src_cache else delete bytes_dec key c.src_cache;
        dst_cache = if is_src then delete bytes_dec key c.dst_cache else c.dst_cache;
        cached_variable_bytes = sub64 c.cached_variable_bytes (length key + ops.doc_len theirs.doc);
      } in
      let src = if is_src then cur else theirs in
      let dst = if is_src then theirs else cur in
      wrap (ops.compare_one_document src.doc dst.doc) >>= λ mismatches. ok (record c' {
        problems = c'.problems ++ annotate now 0 src dst mismatches;
        cached_variable_bytes = add_id_lengths mismatches c'.cached_variable_bytes;
      })

  -- processSingleDoc once the key is known.
  unfoldable pub process_keyed :
      (ℕ → ℕ) → DocWithTs Doc → Bool → Key → Comparator Doc → Outcome Error (Comparator Doc)
  unfolding cache_doc compare_pair
  process_keyed now cur is_src key c =
      elim (lookup bytes_dec key (if is_src then c.dst_cache else c.src_cache)) [
        | none ↦ ok (cache_doc is_src key cur c)
        | some theirs ↦ compare_pair now is_src key cur theirs c
      ]

  unfoldable pub process_single_doc :
      (ℕ → ℕ) → DocWithTs Doc → Bool → Comparator Doc → Outcome Error (Comparator Doc)
  unfolding process_keyed
  process_single_doc now cur is_src c = do
    values ← wrap (ops.get_doc_key_values cur.doc)
    let key = get_map_key [] values
    process_keyed now cur is_src key c
