-- ===== src/Recheck/Batches.antt =====
-- The requests of insertRecheckDocs.
use migration_verifier_docdb.Base.{
  same_bool, ℕ, suc, ◌+◌, ◌≤◌, ◌≡◌, refl, sym, ◌∙◌, ap, Bool, true, false, List, [], ◌∷◌, ◌++◌,
  append_assoc, arith, if◌then◌else◌, ltb, leb, ◌||◌, length, length-append, All, subst, Option,
  String, Outcome, ok, err, ◌>>=◌, >>=-eq-ok, ok-injective, not, ◌&&◌,
}
use migration_verifier_docdb.Bson.{Timestamp}
use migration_verifier_docdb.Compare.{RawValue}
use migration_verifier_docdb.Recheck.Queue.{
  Doc, is_empty, WhichCluster, QueuePanic, times_and_optimes, no_change_origin, recheck_doc,
  recheck_docs, insert_recheck_docs, is_given, is_dst, batch_rechecks, recheck_batch_byte_limit,
  recheck_batch_count_limit,
}

-- The documents of a list of requests.
abbrev pub concat : List (List Doc) → List Doc
concat [] = []
concat (r ∷ rs) = r ++ concat rs

-- A request that is not empty and has at most 1000 documents.
abbrev pub IsBounded : List Doc → Type 0
IsBounded r = (1 ≤ length r) × (length r ≤ recheck_batch_count_limit)

-- Together the requests hold the documents, in order.
pub batch_rechecks-concat :
    (size : Doc → ℕ) (cur : List Doc) (bytes : ℕ) (ds : List Doc)
    → concat (batch_rechecks size cur bytes ds) ≡ cur ++ ds
unfolding batch_rechecks
batch_rechecks-concat size [] bytes [] = refl
batch_rechecks-concat size (c ∷ cur) bytes [] = refl
batch_rechecks-concat size cur bytes (d ∷ ds) =
    by_test
      (ltb recheck_batch_byte_limit (bytes + size d)
        || leb recheck_batch_count_limit (length (cur ++ d ∷ [])))
      (batch_rechecks-concat size [] 0 ds)
      (batch_rechecks-concat size (cur ++ d ∷ []) (bytes + size d) ds)
  where
    by_test :
        (b : Bool)
        → concat (batch_rechecks size [] 0 ds) ≡ ds
        → concat (batch_rechecks size (cur ++ d ∷ []) (bytes + size d) ds) ≡ (cur ++ d ∷ []) ++ ds
        → concat (
            if b
            then (cur ++ d ∷ []) ∷ batch_rechecks size [] 0 ds
            else batch_rechecks size (cur ++ d ∷ []) (bytes + size d) ds)
          ≡ cur ++ (d ∷ ds)
    by_test true p q = ap (λ es. (cur ++ d ∷ []) ++ es) p ∙ append_assoc cur (d ∷ []) ds
    by_test false p q = q ∙ append_assoc cur (d ∷ []) ds

pub batch_rechecks-IsBounded :
    (size : Doc → ℕ) (cur : List Doc) (bytes : ℕ) (ds : List Doc)
    → suc (length cur) ≤ recheck_batch_count_limit
    → All IsBounded (batch_rechecks size cur bytes ds)
unfolding batch_rechecks
batch_rechecks-IsBounded size [] bytes [] h = tt
batch_rechecks-IsBounded size (c ∷ cur) bytes [] h = ((omega arith, omega (arith, h)), tt)
batch_rechecks-IsBounded size cur bytes (d ∷ ds) h =
    by_test (ltb recheck_batch_byte_limit (bytes + size d))
      (leb recheck_batch_count_limit (length (cur ++ d ∷ []))) refl
      (batch_rechecks-IsBounded size [] 0 ds (omega arith))
      (λ l. batch_rechecks-IsBounded size (cur ++ d ∷ []) (bytes + size d) ds l)
  where
    by_test :
        (a b : Bool)
        → leb recheck_batch_count_limit (length (cur ++ d ∷ [])) ≡ b
        → All IsBounded (batch_rechecks size [] 0 ds)
        → (suc (length (cur ++ d ∷ [])) ≤ recheck_batch_count_limit
            → All IsBounded (batch_rechecks size (cur ++ d ∷ []) (bytes + size d) ds))
        → All IsBounded (
            if a || b
            then (cur ++ d ∷ []) ∷ batch_rechecks size [] 0 ds
            else batch_rechecks size (cur ++ d ∷ []) (bytes + size d) ds)
    by_test true b e p q = (
      (omega (arith, length-append cur (d ∷ [])), omega (arith, length-append cur (d ∷ []), h)),
      p,
    )
    by_test false true e p q = (
      (omega (arith, length-append cur (d ∷ [])), omega (arith, length-append cur (d ∷ []), h)),
      p,
    )
    by_test false false e p q = q (ground (arith, e))

recheck_docs-length :
    (b : Bool) (i : ℕ) (dbs colls : List String) (ids : List RawValue) (sizes times : List ℕ)
    (optimes : List Timestamp) (ds : List Doc)
    → recheck_docs b i dbs colls ids sizes times optimes ≡ ok ds
    → length ds ≡ length dbs
unfolding recheck_docs
recheck_docs-length b i [] colls ids sizes times optimes ds h = ap length (sym (ok-injective h))
recheck_docs-length b i (db ∷ dbs) colls ids sizes times optimes ds h =
    let rest = recheck_docs b (suc i) dbs colls ids sizes times optimes in
    let (d, p, x) =
      >>=-eq-ok (recheck_doc b i db colls ids sizes times optimes) (λ d. rest >>= λ us. ok (d ∷ us))
        h in
    let (us, q, y) = >>=-eq-ok rest (λ us. ok (d ∷ us)) x in
    ap length (sym (ok-injective y))
    ∙ ap suc (recheck_docs-length b (suc i) dbs colls ids sizes times optimes us q)

abbrev sends : (Doc → ℕ) → ℕ → List Doc → Outcome QueuePanic (ℕ × List (List Doc))
sends size generation ds = ok (suc generation, batch_rechecks size [] 0 ds)

-- When insertRecheckDocs sends requests, they are for the generation after the verifier's; together
-- they hold one document for each entry of the slices, in order, and each holds 1 to 1000.
pub insert_recheck_docs-requests :
    (size : Doc → ℕ) (generation queue : ℕ) (dbs colls : List String) (ids : List RawValue)
    (sizes times : List ℕ) (origin : Option WhichCluster) (optimes : List Timestamp)
    (rs : List (List Doc))
    → insert_recheck_docs size generation dbs colls ids sizes times origin optimes ≡ ok (queue, rs)
    → (queue ≡ suc generation)
      × (recheck_docs (is_dst origin) 0 dbs colls ids sizes times optimes ≡ ok (concat rs))
      × (length (concat rs) ≡ length dbs)
      × All IsBounded rs
unfolding insert_recheck_docs
insert_recheck_docs-requests size generation queue dbs colls ids sizes times origin optimes rs h =
    by_checks (same_bool (is_empty times) (is_empty optimes))
      (not (is_empty optimes) && not (is_given origin)) h
  where
    docs : Outcome QueuePanic (List Doc)
    docs = recheck_docs (is_dst origin) 0 dbs colls ids sizes times optimes

    by_docs :
        (docs >>= λ ds. sends size generation ds) ≡ ok (queue, rs)
        → (queue ≡ suc generation)
          × (docs ≡ ok (concat rs))
          × (length (concat rs) ≡ length dbs)
          × All IsBounded rs
    by_docs x =
        let (ds, p, y) = >>=-eq-ok docs _ x in
        let same : batch_rechecks size [] 0 ds ≡ rs = ap (λ r. r.1) (ok-injective y) in
        let all : concat rs ≡ ds = ap concat (sym same) ∙ batch_rechecks-concat size [] 0 ds in
        (
          sym (ap (λ r. r.0) (ok-injective y)),
          p ∙ ap ok (sym all),
          ap length all
              ∙ recheck_docs-length (is_dst origin) 0 dbs colls ids sizes times optimes ds p,
          subst (All IsBounded) same (batch_rechecks-IsBounded size [] 0 ds (omega arith)),
        )

    by_checks :
        (a b : Bool)
        → (if a
            then err times_and_optimes
            else if b
            then err no_change_origin
            else (docs >>= λ ds. sends size generation ds))
          ≡ ok (queue, rs)
        → (queue ≡ suc generation)
          × (docs ≡ ok (concat rs))
          × (length (concat rs) ≡ length dbs)
          × All IsBounded rs
    by_checks true b x = absurd (ground arith)
    by_checks false true x = absurd (ground arith)
    by_checks false false x = by_docs x
