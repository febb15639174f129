-- ===== src/Collection/IndexMatch.antt =====
-- When the comparison of two collections' indexes reports nothing.
use migration_verifier_docdb.Base.{
  ◌≡◌, ◌≢◌, ◌↔◌, refl, sym, ◌∙◌, ap, ap₂, subst, Bool, true, false, List, [], ◌∷◌, ◌++◌, String,
  arith, Outcome, ok, ok-injective, ◌>>=◌, >>=-eq-ok, Option, none, some, append-eq-nil,
}
use migration_verifier_docdb.Base.Text.{text_dec}
use migration_verifier_docdb.Base.Dict.{lookup, IsMap}
use migration_verifier_docdb.Bson.{Raw}
use migration_verifier_docdb.Compare.{Result}
use migration_verifier_docdb.Collection.Indexes.{
  IndexOps, IndexError, Indexes, get_indexes_map, with_id_index, normalized_indexes, one_index,
  matched_index, dst_indexes_results, is_found, src_indexes_results, verify_indexes,
}
use migration_verifier_docdb.Collection.IndexMaps.{
  lookup-head, lookup-tail, indexes_map-IsMap, with_id_index-IsMap, normalized-IsMap,
}

module _ (ops : IndexOps) where
  -- Two indexes of a name agree: both are missing, or neither is and no difference is described.
  abbrev pub Agree : Option Raw → Option Raw → Type 0
  Agree none none = Unit
  Agree (some s) (some d) = ops.describe_spec_differences s d ≡ some none
  Agree _ _ = ⊥

  abbrev pub indexes_of : Bool → List Raw → Raw → Outcome IndexError Indexes
  indexes_of is_document_db specs id_index = get_indexes_map ops specs >>= λ m.
      normalized_indexes ops is_document_db (with_id_index ops id_index m)

  one_index-nil :
      (src_ns dst_ns name : String) (d : Raw) (o : Option Raw) (rs : List Result)
      → one_index ops src_ns dst_ns name d o ≡ ok rs
      → (rs ≡ []) ↔ Agree o (some d)
  one_index-nil src_ns dst_ns name d none rs h = (λ n. cc, λ a. absurd a)
  one_index-nil src_ns dst_ns name d (some s) rs h =
      by_difference (ops.describe_spec_differences s d) h
    where
      by_difference :
          (o : Option (Option String))
          → matched_index ops dst_ns name d o ≡ ok rs
          → (rs ≡ []) ↔ (o ≡ some none)
      by_difference none x = absurd (ground arith)
      by_difference (some none) x = (λ n. refl, λ n. sym (ok-injective x))
      by_difference (some (some t)) x = (λ n. cc, λ n. cc)

  -- The destination's entries, each of which agrees with the source's index of its name.
  abbrev AllAgree : Indexes → Indexes → Type 0
  AllAgree src_map [] = Unit
  AllAgree src_map ((k, d) ∷ m) = Agree (lookup text_dec k src_map) (some d) × AllAgree src_map m

  dst_results-nil :
      (src_ns dst_ns : String) (src_map m : Indexes) (rs : List Result)
      → dst_indexes_results ops src_ns dst_ns src_map m ≡ ok rs
      → (rs ≡ []) ↔ AllAgree src_map m
  unfolding dst_indexes_results
  dst_results-nil src_ns dst_ns src_map [] rs h = (λ n. tt, λ a. sym (ok-injective h))
  dst_results-nil src_ns dst_ns src_map ((k, d) ∷ m) rs h =
      let (us, p, x) =
        >>=-eq-ok (one_index ops src_ns dst_ns k d (lookup text_dec k src_map)) _ h in
      let (vs, q, y) = >>=-eq-ok (dst_indexes_results ops src_ns dst_ns src_map m) _ x in
      let first = one_index-nil src_ns dst_ns k d (lookup text_dec k src_map) us p in
      let second = dst_results-nil src_ns dst_ns src_map m vs q in
      let same : us ++ vs ≡ rs = ok-injective y in
      (
        λ n. let (a, b) = append-eq-nil us vs (same ∙ n) in (first.0 a, second.0 b),
        λ (a, b). sym same ∙ ap₂ (λ xs ys. xs ++ ys) (first.1 a) (second.1 b),
      )

  AllFound : Indexes → Indexes → Type 0
  AllFound dst_map [] = Unit
  AllFound dst_map ((k, s) ∷ m) =
      (is_found ops (lookup text_dec k dst_map) ≡ true) × AllFound dst_map m

  src_results-nil :
      (dst_ns : String) (dst_map m : Indexes)
      → (src_indexes_results ops dst_ns dst_map m ≡ []) ↔ AllFound dst_map m
  unfolding src_indexes_results AllFound
  src_results-nil dst_ns dst_map [] = (λ n. tt, λ a. refl)
  src_results-nil dst_ns dst_map ((k, s) ∷ m) =
      by_found (is_found ops (lookup text_dec k dst_map)) refl (src_results-nil dst_ns dst_map m)
    where
      by_found :
          (b : Bool)
          → is_found ops (lookup text_dec k dst_map) ≡ b
          → (src_indexes_results ops dst_ns dst_map m ≡ []) ↔ AllFound dst_map m
          → (src_indexes_results ops dst_ns dst_map ((k, s) ∷ m) ≡ [])
            ↔ ((is_found ops (lookup text_dec k dst_map) ≡ true) × AllFound dst_map m)
      by_found true e ih = rw e (λ n. (refl, ih.0 n), λ (a, b). ih.1 b)
      by_found false e ih = rw e (λ n. cc, λ (a, b). cc)

  -- The two maps agree at every name.
  abbrev pub SameIndexes : Indexes → Indexes → Type 0
  SameIndexes src_map dst_map =
      (k : String) → Agree (lookup text_dec k src_map) (lookup text_dec k dst_map)

  entry_agrees :
      (src_map m : Indexes) (k : String) (d : Raw)
      → AllAgree src_map m
      → lookup text_dec k m ≡ some d
      → Agree (lookup text_dec k src_map) (some d)
  entry_agrees src_map [] k d a h = absurd (cc (lookup_nil k, h))
    where
      lookup_nil : (k : String) → lookup {V = Raw} text_dec k [] ≡ none
      lookup_nil k = unfold lookup in refl
  entry_agrees src_map ((j, e) ∷ m) k d (a, b) h = elim (text_dec j k) [
    | yes p ↦
        subst (λ x. Agree (lookup text_dec x src_map) (some d)) p
          (subst (λ o. Agree (lookup text_dec j src_map) o)
            (sym (lookup-head j e m) ∙ ap (λ x. lookup text_dec x ((j, e) ∷ m)) p ∙ h) a)
    | no n ↦ entry_agrees src_map m k d b (sym (lookup-tail j k e m n) ∙ h)
  ]

  entry_found :
      (dst_map m : Indexes) (k : String) (s : Raw)
      → AllFound dst_map m
      → lookup text_dec k m ≡ some s
      → is_found ops (lookup text_dec k dst_map) ≡ true
  unfolding AllFound
  entry_found dst_map [] k s a h = absurd (cc (lookup_nil k, h))
    where
      lookup_nil : (k : String) → lookup {V = Raw} text_dec k [] ≡ none
      lookup_nil k = unfold lookup in refl
  entry_found dst_map ((j, e) ∷ m) k s (a, b) h = elim (text_dec j k) [
    | yes p ↦ subst (λ x. is_found ops (lookup text_dec x dst_map) ≡ true) p a
    | no n ↦ entry_found dst_map m k s b (sym (lookup-tail j k e m n) ∙ h)
  ]

  all-to_same :
      (src_map dst_map : Indexes)
      → AllAgree src_map dst_map
      → AllFound dst_map src_map
      → SameIndexes src_map dst_map
  all-to_same src_map dst_map a f k =
      by_lookups (lookup text_dec k src_map) (lookup text_dec k dst_map) refl refl
    where
      by_lookups :
          (s d : Option Raw)
          → lookup text_dec k src_map ≡ s
          → lookup text_dec k dst_map ≡ d
          → Agree s d
      by_lookups none none p q = tt
      by_lookups s (some d) p q =
          subst (λ o. Agree o (some d)) p (entry_agrees src_map dst_map k d a q)
      by_lookups (some s) none p q =
          absurd (cc (entry_found dst_map src_map k s f p, ap (is_found ops) q))

  same-to_agree :
      (src_map m : Indexes)
      → IsMap text_dec m
      → ((k : String) (d : Raw)
          → lookup text_dec k m ≡ some d
          → Agree (lookup text_dec k src_map) (some d))
      → AllAgree src_map m
  same-to_agree src_map [] i a = tt
  same-to_agree src_map ((j, e) ∷ m) (n, i) a = (
    a j e (lookup-head j e m),
    same-to_agree src_map m i λ k d h. a k d (lookup-tail j k e m (λ p. absurd (cc (p, n, h))) ∙ h),
  )

  same-to_found :
      (dst_map m : Indexes)
      → ((k : String)
          → lookup text_dec k m ≢ none
          → is_found ops (lookup text_dec k dst_map) ≡ true)
      → AllFound dst_map m
  unfolding AllFound
  same-to_found dst_map [] a = tt
  same-to_found dst_map ((j, e) ∷ m) a = (
    a j (λ h. absurd (cc (lookup-head j e m, h))),
    same-to_found dst_map m λ k n. a k (elim (text_dec j k) [
      | yes p ↦ λ h. absurd (cc (lookup-head j e m, ap (λ x. lookup text_dec x ((j, e) ∷ m)) p, h))
      | no q ↦ λ h. n (sym (lookup-tail j k e m q) ∙ h)
    ]),
  )

  Agree-found : (s d : Option Raw) → Agree s d → s ≢ none → is_found ops d ≡ true
  Agree-found none d a n = absurd (n refl)
  Agree-found (some s) none a n = absurd a
  Agree-found (some s) (some d) a n = refl

  -- When verifyIndexes succeeds, it reports nothing exactly if the two sides have indexes under the
  -- same names and no difference is described between any two of one name. The indexes are those that
  -- the server lists, and the ID index of the specification, normalized if the source is DocumentDB.
  pub verify_indexes-nil :
      (is_document_db : Bool) (src_ns dst_ns : String) (src_specs dst_specs : List Raw)
      (src_id_index dst_id_index : Raw) (rs : List Result)
      → verify_indexes ops is_document_db src_ns dst_ns src_specs dst_specs src_id_index
          dst_id_index
        ≡ ok rs
      → (src_map : Indexes) × (dst_map : Indexes) × (indexes_of is_document_db src_specs
            src_id_index
          ≡ ok src_map)
        × (indexes_of is_document_db dst_specs dst_id_index ≡ ok dst_map)
        × ((rs ≡ []) ↔ SameIndexes src_map dst_map)
  unfolding verify_indexes
  verify_indexes-nil is_document_db src_ns dst_ns src_specs dst_specs src_id_index dst_id_index rs
        h =
      let (m, p, h1) = >>=-eq-ok (get_indexes_map ops src_specs) _ h in
      let (n, q, h2) = >>=-eq-ok (get_indexes_map ops dst_specs) _ h1 in
      let (src_map, p', h3) =
        >>=-eq-ok (normalized_indexes ops is_document_db (with_id_index ops src_id_index m)) _ h2 in
      let (dst_map, q', h4) =
        >>=-eq-ok (normalized_indexes ops is_document_db (with_id_index ops dst_id_index n)) _ h3 in
      let (us, r, h5) = >>=-eq-ok (dst_indexes_results ops src_ns dst_ns src_map dst_map) _ h4 in
      let vs = src_indexes_results ops dst_ns dst_map src_map in
      let i =
        normalized-IsMap ops is_document_db (with_id_index ops dst_id_index n) dst_map q'
          (with_id_index-IsMap ops dst_id_index n (indexes_map-IsMap ops dst_specs [] n tt q)) in
      let next = λ (id_index : Raw) (o : Indexes).
        normalized_indexes ops is_document_db (with_id_index ops id_index o) in
      (
        src_map,
        dst_map,
        ap (λ o. o >>= next src_id_index) p ∙ p',
        ap (λ o. o >>= next dst_id_index) q ∙ q',
        (
          λ e.
              let (a, b) = append-eq-nil us vs (ok-injective h5 ∙ e) in
              all-to_same src_map dst_map ((dst_results-nil src_ns dst_ns src_map dst_map us r).0 a)
                ((src_results-nil dst_ns dst_map src_map).0 b),
          λ a.
              sym (ok-injective h5)
              ∙ ap₂ (λ xs ys. xs ++ ys)
                  ((dst_results-nil src_ns dst_ns src_map dst_map us r).1 (
                    same-to_agree src_map dst_map i
                      (λ k d e. subst (λ o. Agree (lookup text_dec k src_map) o) e (a k))))
                  ((src_results-nil dst_ns dst_map src_map).1 (
                    same-to_found dst_map src_map (λ k e.
                      Agree-found (lookup text_dec k src_map) (lookup text_dec k dst_map) (a k)
                        e))),
        ),
      )
