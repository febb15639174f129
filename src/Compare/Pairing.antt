-- ===== src/Compare/Pairing.antt =====
-- The caches of comparator.go against a reference without caches: documents are compared with what
-- has been seen of the other side.
use migration_verifier_docdb.Base.{
  ℕ, suc, ◌≡◌, sym, ◌∙◌, ap, subst, Bool, true, false, not, Option, none, some, List, [], ◌∷◌, ◌++◌,
  append_assoc, append-nil, String, arith, Outcome, ok, err, ◌>>=◌, >>=-eq-ok, ite,
}
use migration_verifier_docdb.Base.Dict.{lookup, lookup-insert, lookup-delete}
use migration_verifier_docdb.Bson.{bytes_dec}
use migration_verifier_docdb.Compare.Types.{Key, get_map_key, Result, Error, DocWithTs, CompareOps}
use migration_verifier_docdb.Compare.Caches.{
  Comparator, annotate, process_single_doc, process_keyed,
}

-- Documents in the order of their handling; `true` marks the source's.
abbrev pub Steps : Type 0 → Type 0
Steps Doc = List (Bool × DocWithTs Doc)

-- All steps, newest first.
unfoldable pub record_steps : {Doc : Type 0} → Steps Doc → Steps Doc → Steps Doc
record_steps seen [] = seen
record_steps seen (step ∷ steps) = record_steps (step ∷ seen) steps

module _ {Doc : Type 0} (ops : CompareOps Doc) where
  abbrev pub key_of : DocWithTs Doc → Key
  key_of d = elim (ops.get_doc_key_values d.doc) [ ok vs ↦ get_map_key [] vs | err e ↦ [] ]

  -- What one side last showed under a key, of the steps newest first.
  unfoldable pub find_doc : Bool → Key → Steps Doc → Option (DocWithTs Doc)
  find_doc true k [] = none
  find_doc false k [] = none
  find_doc true k ((true, d) ∷ seen) = ite (bytes_dec (key_of d) k) (some d) (find_doc true k seen)
  find_doc true k ((false, d) ∷ seen) = find_doc true k seen
  find_doc false k ((true, d) ∷ seen) = find_doc false k seen
  find_doc false k ((false, d) ∷ seen) =
      ite (bytes_dec (key_of d) k) (some d) (find_doc false k seen)

  -- A document whose peer has not been seen.
  unfoldable pub unmatched : Bool → Key → Steps Doc → Option (DocWithTs Doc)
  unfolding find_doc
  unmatched side k seen = elim (find_doc (not side) k seen) [
    | some _ ↦ none
    | none ↦ find_doc side k seen
  ]

  -- No side shows a key twice.
  unfoldable pub IsDistinct : Steps Doc → Steps Doc → Type 0
  IsDistinct seen [] = Unit
  IsDistinct seen ((side, d) ∷ steps) =
      (find_doc side (key_of d) seen ≡ none) × IsDistinct ((side, d) ∷ seen) steps

  -- Each cache holds exactly its side's documents whose peer has not been seen.
  pub record IsPaired (c : Comparator Doc) (seen : Steps Doc) : Type 0 where
    pub src : (k : Key) → lookup bytes_dec k c.src_cache ≡ unmatched true k seen
    pub dst : (k : Key) → lookup bytes_dec k c.dst_cache ≡ unmatched false k seen

  module _ (namespace : String) (ids : List (Key × ℕ)) where
    -- The mismatches of a document and its peer.
    unfoldable pub pair_results : (ℕ → ℕ) → DocWithTs Doc → DocWithTs Doc → List Result
    unfolding annotate
    pair_results now src dst = elim (ops.compare_one_document src.doc dst.doc) [
      | ok ms ↦ annotate ops namespace ids now 0 src dst ms
      | err e ↦ []
    ]

    unfoldable pub step_results : (ℕ → ℕ) → Bool → DocWithTs Doc → Steps Doc → List Result
    unfolding pair_results find_doc
    step_results now true d seen = elim (find_doc false (key_of d) seen) [
      | none ↦ []
      | some their ↦ pair_results now d their
    ]
    step_results now false d seen = elim (find_doc true (key_of d) seen) [
      | none ↦ []
      | some their ↦ pair_results now their d
    ]

    step-src :
        (now : ℕ → ℕ) (c c' : Comparator Doc) (seen : Steps Doc) (d : DocWithTs Doc)
        → IsPaired c seen
        → find_doc true (key_of d) seen ≡ none
        → process_keyed ops namespace ids now d true (key_of d) c ≡ ok c'
        → IsPaired c' ((true, d) ∷ seen)
          × (c'.problems ≡ c.problems ++ step_results now true d seen)
    unfolding process_keyed unmatched step_results
    step-src now c c' seen d p new h = (
      record {
        src = λ k. ground (
          arith,
          p.src k,
          p.src (key_of d),
          p.dst (key_of d),
          lookup-insert bytes_dec (key_of d) k d c.src_cache,
        );
        dst = λ k.
            ground
              (arith, p.dst k, p.dst (key_of d), lookup-delete bytes_dec (key_of d) k c.dst_cache);
      },
      ground (arith, p.dst (key_of d), append-nil c.problems),
    )

    step-dst :
        (now : ℕ → ℕ) (c c' : Comparator Doc) (seen : Steps Doc) (d : DocWithTs Doc)
        → IsPaired c seen
        → find_doc false (key_of d) seen ≡ none
        → process_keyed ops namespace ids now d false (key_of d) c ≡ ok c'
        → IsPaired c' ((false, d) ∷ seen)
          × (c'.problems ≡ c.problems ++ step_results now false d seen)
    unfolding process_keyed unmatched step_results
    step-dst now c c' seen d p new h = (
      record {
        src = λ k.
            ground
              (arith, p.src k, p.src (key_of d), lookup-delete bytes_dec (key_of d) k c.src_cache);
        dst = λ k. ground (
          arith,
          p.dst k,
          p.src (key_of d),
          p.dst (key_of d),
          lookup-insert bytes_dec (key_of d) k d c.dst_cache,
        );
      },
      ground (arith, p.src (key_of d), append-nil c.problems),
    )

    pub process_single_doc-keyed :
        (now : ℕ → ℕ) (side : Bool) (d : DocWithTs Doc) (c c' : Comparator Doc)
        → process_single_doc ops namespace ids now d side c ≡ ok c'
        → process_keyed ops namespace ids now d side (key_of d) c ≡ ok c'
    unfolding process_single_doc
    process_single_doc-keyed now side d c c' h = ground arith

    -- One document: it is compared with its peer if that has been seen, and otherwise kept.
    pub process_single_doc-IsPaired :
        (now : ℕ → ℕ) (side : Bool) (c c' : Comparator Doc) (seen : Steps Doc) (d : DocWithTs Doc)
        → IsPaired c seen
        → find_doc side (key_of d) seen ≡ none
        → process_single_doc ops namespace ids now d side c ≡ ok c'
        → IsPaired c' ((side, d) ∷ seen)
          × (c'.problems ≡ c.problems ++ step_results now side d seen)
    process_single_doc-IsPaired now true c c' seen d p new h =
        step-src now c c' seen d p new (process_single_doc-keyed now true d c c' h)
    process_single_doc-IsPaired now false c c' seen d p new h =
        step-dst now c c' seen d p new (process_single_doc-keyed now false d c c' h)

    module _ (now : ℕ → ℕ → ℕ) where
      -- The documents one after another.
      unfoldable pub process_all :
          Steps Doc → ℕ → Comparator Doc → Outcome Error (ℕ × Comparator Doc)
      unfolding process_single_doc
      process_all [] n c = ok (n, c)
      process_all ((side, d) ∷ steps) n c =
          process_single_doc ops namespace ids (now n) d side c >>= λ c'.
          process_all steps (suc n) c'

      -- What the reference reports: for each document the mismatches with its peer, at the moment
      -- when the second of the two appears.
      unfoldable pub expected : ℕ → Steps Doc → Steps Doc → List Result
      unfolding step_results
      expected n seen [] = []
      expected n seen ((side, d) ∷ steps) =
          step_results (now n) side d seen ++ expected (suc n) ((side, d) ∷ seen) steps

      -- Where no side shows a key twice, handling documents in any order reports exactly what the
      -- reference without caches reports, and leaves exactly the unmatched documents in the caches.
      pub process_all-expected :
          (steps : Steps Doc) (n n' : ℕ) (c c' : Comparator Doc) (seen : Steps Doc)
          → IsPaired c seen
          → IsDistinct seen steps
          → process_all steps n c ≡ ok (n', c')
          → IsPaired c' (record_steps seen steps)
            × (c'.problems ≡ c.problems ++ expected n seen steps)
      unfolding process_all expected IsDistinct record_steps
      process_all-expected [] n n' c c' seen p dist h =
          let e : c ≡ c' = cc in
          (
            subst (λ x. IsPaired x seen) e p,
            ap (λ (x : Comparator Doc). x.problems) (sym e) ∙ sym (append-nil c.problems),
          )
      process_all-expected ((side, d) ∷ steps) n n' c c' seen p (new, dist) h =
          let (c₁, e₁, e₂) =
            >>=-eq-ok (process_single_doc ops namespace ids (now n) d side c) _ h in
          let (p₁, q₁) = process_single_doc-IsPaired (now n) side c c₁ seen d p new e₁ in
          let (p₂, q₂) =
            process_all-expected steps (suc n) n' c₁ c' ((side, d) ∷ seen) p₁ dist e₂ in
          (
            p₂,
            q₂
                ∙ ap (λ x. x ++ expected (suc n) ((side, d) ∷ seen) steps) q₁
                ∙ append_assoc c.problems (step_results (now n) side d seen)
                    (expected (suc n) ((side, d) ∷ seen) steps),
          )
