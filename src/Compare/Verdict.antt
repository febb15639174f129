-- ===== src/Compare/Verdict.antt =====
-- What the comparator's final report says of the documents that both sides sent (comparator.go,
-- compare.go).
use migration_verifier_docdb.Base.{
  ℕ, suc, ◌≡◌, ◌↔◌, refl, sym, ◌∙◌, ap, fun_ext, Bool, true, false, none, List, [], ◌∷◌, ◌++◌,
  String, arith, ok, length, append-eq-nil, append-cancel_left,
}
use migration_verifier_docdb.Base.Dict.{lookup}
use migration_verifier_docdb.Bson.{bytes_dec}
use migration_verifier_docdb.Compare.Types.{Key, Result, DocWithTs, CompareOps}
use migration_verifier_docdb.Compare.Caches.{Comparator, Report, Cache, new_comparator}
use migration_verifier_docdb.Compare.Flush.{sweep_cache, sweep_missing_docs, flush}
use migration_verifier_docdb.Compare.Run.{interleave}
use migration_verifier_docdb.Compare.Pairing.{
  Steps, IsPaired, IsDistinct, unmatched, process_all, expected, record_steps, process_all-expected,
}

-- The order in which run's inner loop takes two batches: a source document first, in turn.
unfoldable pub weave : {Doc : Type 0} → List (DocWithTs Doc) → List (DocWithTs Doc) → Steps Doc
weave [] [] = []
weave (s ∷ ss) [] = (true, s) ∷ weave ss []
weave [] (d ∷ ds) = (false, d) ∷ weave [] ds
weave (s ∷ ss) (d ∷ ds) = (true, s) ∷ (false, d) ∷ weave ss ds

module _ {Doc : Type 0} (ops : CompareOps Doc) (namespace : String) (ids : List (Key × ℕ)) where
  module _ (now : ℕ → ℕ → ℕ) (writable : ℕ → Bool) where
    -- The loop over two batches handles the documents in the woven order.
    pub interleave-process_all :
        (ss ds : List (DocWithTs Doc)) (n : ℕ) (c : Comparator Doc)
        → interleave ops namespace ids now writable ss ds n c
          ≡ process_all ops namespace ids now (weave ss ds) n c
    unfolding interleave process_all weave
    interleave-process_all [] [] n c = refl
    interleave-process_all (s ∷ ss) [] n c =
        rw (fun_ext (λ c'. interleave-process_all ss [] (suc n) c'))
    interleave-process_all [] (d ∷ ds) n c =
        rw (fun_ext (λ c'. interleave-process_all [] ds (suc n) c'))
    interleave-process_all (s ∷ ss) (d ∷ ds) n c =
        rw (fun_ext (λ c''. interleave-process_all ss ds (suc (suc n)) c''))

  cache-nil : (m : Cache Doc) → ((k : Key) → lookup bytes_dec k m ≡ none) → m ≡ []
  unfolding lookup
  cache-nil [] h = refl
  cache-nil ((k, d) ∷ m) h = absurd (ground (arith, h k))

  sweep_cache-nil :
      (clock : ℕ → ℕ) (side : Bool) (i : ℕ) (m : Cache Doc)
      → sweep_cache ops namespace ids clock side i m ≡ []
      → m ≡ []
  unfolding sweep_cache
  sweep_cache-nil clock side i [] h = refl
  sweep_cache-nil clock side i ((k, d) ∷ m) h = cc

  -- The problems that a flush reports.
  abbrev pub swept : (ℕ → ℕ) → Comparator Doc → List Result
  swept clock c = (sweep_missing_docs ops namespace ids clock c).problems

  pub flush-reports :
      (clock : ℕ → ℕ) (c c' : Comparator Doc)
      → flush ops namespace ids clock true c ≡ ok c'
      → (c'.reports
          ≡ c.reports
            ++ (record {
              problems = swept clock c;
              doc_count = c.src_doc_count;
              byte_count = c.src_byte_count;
            })
              ∷ [])
        × (c'.problems ≡ [])
        × (c'.src_cache ≡ [])
        × (c'.dst_cache ≡ [])
        × (c'.cached_variable_bytes ≡ 0)
  unfolding flush
  flush-reports clock c c' h = ground arith

  module _ (now : ℕ → ℕ → ℕ) (clock : ℕ → ℕ) where
    reported :
        (c c' : Comparator Doc) (r : Report)
        → flush ops namespace ids clock true c ≡ ok c'
        → c'.reports ≡ c.reports ++ r ∷ []
        → r.problems ≡ swept clock c
    reported c c' r f e =
        let last : r ∷ []
            ≡ record {
              problems = swept clock c;
              doc_count = c.src_doc_count;
              byte_count = c.src_byte_count;
            }
              ∷ [] =
          append-cancel_left c.reports _ _ (sym e ∙ (flush-reports clock c c' f).0) in
        cc

    start-problems :
        (c : Comparator Doc) (steps : Steps Doc)
        → c.problems ≡ (new_comparator Doc).problems ++ expected ops namespace ids now 0 [] steps
        → c.problems ≡ expected ops namespace ids now 0 [] steps
    unfolding new_comparator
    start-problems c steps q = q

    start-IsPaired : IsPaired ops (new_comparator Doc) []
    unfolding lookup unmatched new_comparator
    start-IsPaired = record { src = λ k. refl; dst = λ k. refl }

    swept-nil :
        (steps : Steps Doc) (c : Comparator Doc)
        → IsPaired ops c (record_steps [] steps)
        → c.problems ≡ expected ops namespace ids now 0 [] steps
        → swept clock c ≡ []
        → (expected ops namespace ids now 0 [] steps ≡ [])
          × ((side : Bool) (k : Key) → unmatched ops side k (record_steps [] steps) ≡ none)
    unfolding sweep_missing_docs lookup
    swept-nil steps c p q h =
        let (h₁, h₂) =
          append-eq-nil (c.problems ++ sweep_cache ops namespace ids clock true 0 c.src_cache) _
            h in
        let (h₃, h₄) = append-eq-nil c.problems _ h₁ in
        let s = sweep_cache-nil clock true 0 c.src_cache h₄ in
        let d = sweep_cache-nil clock false (length c.src_cache) c.dst_cache h₂ in
        (sym q ∙ h₃, none_left s d)
      where
        none_left :
            c.src_cache ≡ []
            → c.dst_cache ≡ []
            → (side : Bool) (k : Key) → unmatched ops side k (record_steps [] steps) ≡ none
        none_left s d true k = sym (p.src k) ∙ ap (lookup bytes_dec k) s
        none_left s d false k = sym (p.dst k) ∙ ap (lookup bytes_dec k) d

    nil-swept :
        (steps : Steps Doc) (c : Comparator Doc)
        → IsPaired ops c (record_steps [] steps)
        → c.problems ≡ expected ops namespace ids now 0 [] steps
        → expected ops namespace ids now 0 [] steps ≡ []
        → ((side : Bool) (k : Key) → unmatched ops side k (record_steps [] steps) ≡ none)
        → swept clock c ≡ []
    unfolding sweep_missing_docs sweep_cache
    nil-swept steps c p q e u =
        let s = cache-nil c.src_cache (λ k. p.src k ∙ u true k) in
        let d = cache-nil c.dst_cache (λ k. p.dst k ∙ u false k) in rw (q, e, s, d)

    -- Where the documents come to a new comparator and no side shows a key twice, and the flush right
    -- after them is the first, its report is free of problems exactly if every document of either
    -- side has a peer on the other, and no pair has a mismatch.
    pub report-clean :
        (steps : Steps Doc) (n' : ℕ) (c c' : Comparator Doc) (r : Report)
        → IsDistinct ops [] steps
        → process_all ops namespace ids now steps 0 (new_comparator Doc) ≡ ok (n', c)
        → flush ops namespace ids clock true c ≡ ok c'
        → c'.reports ≡ c.reports ++ r ∷ []
        → (r.problems ≡ []) ↔ (
            (expected ops namespace ids now 0 [] steps ≡ [])
            × ((side : Bool) (k : Key) → unmatched ops side k (record_steps [] steps) ≡ none))
    report-clean steps n' c c' r dist h f e =
        let (p, q) =
          process_all-expected ops namespace ids now steps 0 n' (new_comparator Doc) c []
            start-IsPaired dist h in
        let same = reported c c' r f e in
        (
          λ z. swept-nil steps c p (start-problems c steps q) (sym same ∙ z),
          λ (a, u). same ∙ nil-swept steps c p (start-problems c steps q) a u,
        )
