-- ===== src/Recheck/Queue.antt =====
-- The recheck queue: recheck.Doc of recheck/recheck.go, and insertRecheckDocs of recheck.go, which
-- sends documents to the queue of the next generation in requests of a bounded size.
use migration_verifier_docdb.Base.{
  same_bool, ℕ, suc, ◌+◌, Bool, true, false, not, Option, none, some, List, [], ◌∷◌, ◌++◌, String,
  if◌then◌else◌, ltb, leb, ◌&&◌, ◌||◌, Outcome, ok, err, ◌>>=◌, length, get_elem?,
}
use migration_verifier_docdb.Bson.{Timestamp}
use migration_verifier_docdb.Compare.{RawValue}

abbrev pub recheck_batch_byte_limit : ℕ
recheck_batch_byte_limit = 1048576

abbrev pub recheck_batch_count_limit : ℕ
recheck_batch_count_limit = 1000

-- recheck.Doc, without the random part of its key.
pub record Doc : Type 0 where
  pub src_database_name : String
  pub src_collection_name : String
  pub document_id : RawValue
  pub data_size : ℕ
  pub change_op_time : Option Timestamp
  pub from_dst : Bool
  pub first_mismatch_time : Option ℕ

pub data WhichCluster : Type 0 where
  src dst : WhichCluster

-- Panics: the two checks of insertRecheckDocs, and an index out of range.
pub data QueuePanic : Type 0 where
  times_and_optimes no_change_origin index_out_of_range : QueuePanic

abbrev pub is_empty {ℓ} : {A : Type ℓ} → List A → Bool
is_empty [] = true
is_empty (x ∷ xs) = false

-- The entry of a list that holds nothing or one entry for each document.
abbrev pub entry_of {ℓ} : {A : Type ℓ} → ℕ → List A → Outcome QueuePanic (Option A)
entry_of i xs =
    if is_empty xs
    then ok none
    else (elim (get_elem? xs i) [ none ↦ err index_out_of_range | some x ↦ ok (some x) ])

abbrev pub index {ℓ} : {A : Type ℓ} → ℕ → List A → Outcome QueuePanic A
index i xs = elim (get_elem? xs i) [ none ↦ err index_out_of_range | some x ↦ ok x ]

-- The document that insertRecheckDocs makes at an index of its parallel slices, and all of them from
-- an index on.
unfoldable pub recheck_doc :
    Bool
    → ℕ
    → String
    → List String
    → List RawValue
    → List ℕ
    → List ℕ
    → List Timestamp
    → Outcome QueuePanic Doc
recheck_doc from_dst i db colls ids sizes times optimes = do
  time ← entry_of i times
  optime ← entry_of i optimes
  coll ← index i colls
  id ← index i ids
  size ← index i sizes
  ok (record {
    src_database_name = db;
    src_collection_name = coll;
    document_id = id;
    data_size = size;
    change_op_time = optime;
    from_dst = from_dst;
    first_mismatch_time = time;
  })

unfoldable pub recheck_docs :
    Bool
    → ℕ
    → List String
    → List String
    → List RawValue
    → List ℕ
    → List ℕ
    → List Timestamp
    → Outcome QueuePanic (List Doc)
unfolding recheck_doc
recheck_docs from_dst i [] colls ids sizes times optimes = ok []
recheck_docs from_dst i (db ∷ dbs) colls ids sizes times optimes =
    let rest = recheck_docs from_dst (suc i) dbs colls ids sizes times optimes in
    recheck_doc from_dst i db colls ids sizes times optimes >>= λ d. rest >>= λ ds. ok (d ∷ ds)

-- The requests that it sends for them, with the length of each marshaled document.
unfoldable pub batch_rechecks : (Doc → ℕ) → List Doc → ℕ → List Doc → List (List Doc)
batch_rechecks size cur bytes [] = if is_empty cur then [] else cur ∷ []
batch_rechecks size cur bytes (d ∷ ds) =
    let cur' = cur ++ d ∷ [] in
    let bytes' = bytes + size d in
    let flushed = cur' ∷ batch_rechecks size [] 0 ds in
    let kept = batch_rechecks size cur' bytes' ds in
    if ltb recheck_batch_byte_limit bytes' || leb recheck_batch_count_limit (length cur')
    then flushed
    else kept

abbrev pub is_dst : Option WhichCluster → Bool
is_dst (some dst) = true
is_dst _ = false

abbrev pub is_given {ℓ} : {A : Type ℓ} → Option A → Bool
is_given none = false
is_given (some x) = true

-- insertRecheckDocs, of a verifier in a generation: the generation of the queue that it inserts
-- into, and the requests.
unfoldable pub insert_recheck_docs :
    (Doc → ℕ)
    → ℕ
    → List String
    → List String
    → List RawValue
    → List ℕ
    → List ℕ
    → Option WhichCluster
    → List Timestamp
    → Outcome QueuePanic (ℕ × List (List Doc))
unfolding recheck_docs batch_rechecks
insert_recheck_docs size generation dbs colls ids sizes times origin optimes =
    if same_bool (is_empty times) (is_empty optimes)
    then err times_and_optimes
    else if not (is_empty optimes) && not (is_given origin)
    then err no_change_origin
    else (recheck_docs (is_dst origin) 0 dbs colls ids sizes times optimes >>= λ ds.
        ok (suc generation, batch_rechecks size [] 0 ds))
