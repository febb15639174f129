-- ===== src/Collection/Matches.antt =====
-- When the comparison of two collections' specifications reports nothing.
use migration_verifier_docdb.Base.{
  same_bool, ◌⊎◌, ◌&&◌, ◌||◌, ◌≡◌, ◌≢◌, ◌↔◌, refl, sym, ◌∙◌, ap, ap₂, Bool, true, false, List, [],
  ◌∷◌, ◌++◌, String, arith, if◌then◌else◌, Outcome, ok, err, ok-injective, >>=-eq-ok, holds, Option,
  none, some, append-eq-nil, Bool-cases, inl, inr,
}
use migration_verifier_docdb.Bson.{
  Value, Raw, Raw-discrete, elements, Fields, MismatchDetails, CompareError, compare_with_details,
}
use migration_verifier_docdb.Base.Text.{text_dec}
use migration_verifier_docdb.Compare.{Result, Driver}
use migration_verifier_docdb.Compare.OneDocument.{mismatch_results-ne-nil}
use migration_verifier_docdb.Collection.Specs.{
  CollectionSpec, CollectionType-discrete, Printer, no_raw, marshal, kept_options,
  is_skipped_option, boolean_ok, is_false, normalize_collection_options, normalized,
  read_only_results, options_results, type_allows_data, spec_result, options_report, no_id,
  src_and_dst, compare_same_type, compare_collection_specifications,
}

elements-marshal : (es : Fields) → elements (marshal es) ≡ some es
unfolding elements
elements-marshal [] = refl
elements-marshal ((k, v) ∷ es) = rw (elements-marshal es) refl

-- An option that the normalization leaves out.
abbrev pub IsLeftOut : String → Value → Type 0
IsLeftOut k v =
    (k ≡ "storageEngine") ⊎ (k ≡ "autoIndexId") ⊎ ((k ≡ "capped") × (boolean_ok v ≡ some false))

-- The second list is the first without the options that are left out.
pub data Keeps : Fields → Fields → Type 0 where
  keeps_nil : Keeps [] []
  leaves_out :
      {k : String} {v : Value} {es fs : Fields}
      → IsLeftOut k v
      → Keeps es fs
      → Keeps ((k, v) ∷ es) fs
  keeps :
      {k : String} {v : Value} {es fs : Fields}
      → ¬ IsLeftOut k v
      → Keeps es fs
      → Keeps ((k, v) ∷ es) ((k, v) ∷ fs)

holds_no : {P : Type 0} (d : Dec P) → ¬ P → holds d ≡ false
holds_no (yes p) n = absurd (n p)
holds_no (no q) n = refl

holds-true : {P : Type 0} (d : Dec P) → holds d ≡ true → P
holds-true (yes p) h = p
holds-true (no q) h = cc

holds-false : {P : Type 0} (d : Dec P) → holds d ≡ false → ¬ P
holds-false (yes p) h = cc
holds-false (no q) h = q

is_false_iff : (o : Option Bool) → (is_false o ≡ true) ↔ (o ≡ some false)
is_false_iff none = (λ h. cc, λ h. cc)
is_false_iff (some true) = (λ h. cc, λ h. cc)
is_false_iff (some false) = (λ h. refl, λ h. refl)

skipped-IsLeftOut : (k : String) (v : Value) → is_skipped_option k v ≡ true → IsLeftOut k v
unfolding is_skipped_option
skipped-IsLeftOut k v h =
    by_names (text_dec k "storageEngine") (text_dec k "autoIndexId") (text_dec k "capped") h
  where
    by_names :
        (d : Dec (k ≡ "storageEngine")) (e : Dec (k ≡ "autoIndexId")) (f : Dec (k ≡ "capped"))
        → ((holds d || holds e) || (holds f && is_false (boolean_ok v))) ≡ true
        → IsLeftOut k v
    by_names (yes p) e f x = inl p
    by_names (no p) (yes q) f x = inr (inl q)
    by_names (no p) (no q) (yes r) x = inr (inr (r, (is_false_iff (boolean_ok v)).0 x))
    by_names (no p) (no q) (no r) x = cc

kept-IsLeftOut : (k : String) (v : Value) → is_skipped_option k v ≡ false → ¬ IsLeftOut k v
unfolding is_skipped_option
kept-IsLeftOut k v h =
    by_names (text_dec k "storageEngine") (text_dec k "autoIndexId") (text_dec k "capped") h
  where
    by_names :
        (d : Dec (k ≡ "storageEngine")) (e : Dec (k ≡ "autoIndexId")) (f : Dec (k ≡ "capped"))
        → ((holds d || holds e) || (holds f && is_false (boolean_ok v))) ≡ false
        → ¬ IsLeftOut k v
    by_names (yes p) e f x y = cc
    by_names (no p) (yes q) f x y = cc
    by_names (no p) (no q) f x (inl y) = p y
    by_names (no p) (no q) f x (inr (inl y)) = q y
    by_names (no p) (no q) (no r) x (inr (inr (y, z))) = r y
    by_names (no p) (no q) (yes r) x (inr (inr (y, z))) =
        absurd (ground (arith, (is_false_iff (boolean_ok v)).1 z, x))

kept_options-Keeps : (es : Fields) → Keeps es (kept_options es)
unfolding kept_options
kept_options-Keeps [] = keeps_nil
kept_options-Keeps ((k, v) ∷ es) = elim (Bool-cases (is_skipped_option k v)) [
  | inl e ↦ rw e (leaves_out (skipped-IsLeftOut k v e) (kept_options-Keeps es))
  | inr e ↦ rw e (keeps (kept-IsLeftOut k v e) (kept_options-Keeps es))
]

-- Where the options of a collection can be read, their normalization succeeds, and its result has, in
-- order and with their values, exactly the options but for storageEngine, autoIndexId, and capped if
-- its value is false.
pub normalize_collection_options-Keeps :
    (opts : Raw) (es : Fields)
    → elements opts ≡ some es
    → (o : Raw) × (fs : Fields) × (normalize_collection_options opts ≡ ok o)
      × (elements o ≡ some fs)
      × Keeps es fs
unfolding normalize_collection_options elements
normalize_collection_options-Keeps opts es h = (
  marshal (kept_options es),
  kept_options es,
  rw (holds_no (Raw-discrete opts no_raw) (λ x. is_bad (ap elements (sym x) ∙ h)), h) refl,
  elements-marshal (kept_options es),
  kept_options-Keeps es,
)
  where
    is_bad : ¬ (elements no_raw ≡ some es)
    is_bad x = cc

same_bool_iff : (a b : Bool) → (same_bool a b ≡ true) ↔ (a ≡ b)
same_bool_iff true true = (λ h. refl, λ h. refl)
same_bool_iff true false = (λ h. cc, λ h. cc)
same_bool_iff false true = (λ h. cc, λ h. cc)
same_bool_iff false false = (λ h. refl, λ h. refl)

-- The two specifications, as the comparison sees them, are the same.
abbrev pub SameSpecs : Bool → CollectionSpec → CollectionSpec → Type 0
SameSpecs src_is_document_db src dst =
    (src.spec_type ≡ dst.spec_type)
    × (src.read_only ≡ dst.read_only)
    × (normalized src_is_document_db src.options ≡ normalized src_is_document_db dst.options)

module _ (drv : Driver) (pr : Printer) (src_ns dst_ns : String) where
  read_only-nil : (a b : Bool) → (read_only_results drv pr dst_ns a b ≡ []) ↔ (a ≡ b)
  unfolding read_only_results
  read_only-nil a b = elim (Bool-cases (same_bool a b)) [
    | inl e ↦ (λ h. (same_bool_iff a b).0 e, λ h. rw e refl)
    | inr e ↦ (
      λ h. absurd (some_result (rw e at h)),
      λ h. absurd (ground (arith, (same_bool_iff a b).1 h, e)),
    )
  ]
    where
      some_result : {r : Result} → (r ∷ []) ≢ []
      some_result h = cc

  options-nil :
      (a b : Raw) (rs : List Result)
      → options_results drv pr src_ns dst_ns a b ≡ ok rs
      → (rs ≡ []) ↔ (a ≡ b)
  unfolding options_results
  options-nil a b rs h = by_test (holds (Raw-discrete a b)) refl h
    where
      by_details :
          (o : Outcome CompareError (Option MismatchDetails))
          → compare_with_details a b ≡ o
          → options_report drv pr src_ns dst_ns a b o ≡ ok rs
          → rs ≢ []
      by_details (err e) d x n = absurd (ground arith)
      by_details (ok none) d x n = cc
      by_details (ok (some m)) d x n =
          mismatch_results-ne-nil drv src_ns a b (pr.text_value "spec") "options." m d
            (ok-injective x ∙ n)

      by_test :
          (t : Bool)
          → holds (Raw-discrete a b) ≡ t
          → (if t
              then ok []
              else options_report drv pr src_ns dst_ns a b (compare_with_details a b))
            ≡ ok rs
          → (rs ≡ []) ↔ (a ≡ b)
      by_test true e x = (λ n. holds-true (Raw-discrete a b) e, λ n. sym (ok-injective x))
      by_test false e x = (
        λ n. absurd (by_details (compare_with_details a b) refl x n),
        λ n. absurd (holds-false (Raw-discrete a b) e n),
      )

  same_type-nil :
      (is_document_db verify_all : Bool) (src dst : CollectionSpec) (rs : List Result)
      (data_allowed : Bool)
      → compare_same_type drv pr is_document_db verify_all src_ns dst_ns src dst
        ≡ ok (rs, data_allowed)
      → (rs ≡ []) ↔ (
          (src.read_only ≡ dst.read_only)
          × (normalized is_document_db src.options ≡ normalized is_document_db dst.options))
  unfolding compare_same_type
  same_type-nil is_document_db verify_all src dst rs data_allowed h =
      let (a, p, h1) = >>=-eq-ok (normalized is_document_db src.options) _ h in
      let (b, q, h2) = >>=-eq-ok (normalized is_document_db dst.options) _ h1 in
      let (os, r, h3) = >>=-eq-ok (options_results drv pr src_ns dst_ns a b) _ h2 in
      let (_, _, h4) = >>=-eq-ok (type_allows_data verify_all src.spec_type) _ h3 in
      let ros = read_only_results drv pr dst_ns src.read_only dst.read_only in
      let same : rs ≡ ros ++ os = ap (λ x. x.0) (sym (ok-injective h4)) in
      let first = read_only-nil src.read_only dst.read_only in
      let second = options-nil a b os r in
      (
        λ n.
            let (x, y) = append-eq-nil ros os (sym same ∙ n) in
            (first.0 x, p ∙ ap ok (second.0 y) ∙ sym q),
        λ (x, y).
            same ∙ ap₂ (λ us vs. us ++ vs) (first.1 x) (second.1 (ok-injective (sym p ∙ y ∙ q))),
      )

  -- When the comparison of two specifications succeeds, it reports nothing exactly if the types and
  -- the read-only flags are the same and so are the options, which are normalized before if the source
  -- is DocumentDB.
  pub compare_collection_specifications-nil :
      (is_document_db verify_all : Bool) (src dst : CollectionSpec) (rs : List Result)
      (data_allowed : Bool)
      → compare_collection_specifications drv pr is_document_db verify_all src_ns dst_ns src dst
        ≡ ok (rs, data_allowed)
      → (rs ≡ []) ↔ SameSpecs is_document_db src dst
  unfolding compare_collection_specifications
  compare_collection_specifications-nil is_document_db verify_all src dst rs data_allowed h =
      by_test (holds (CollectionType-discrete src.spec_type dst.spec_type)) refl h
    where
      by_test :
          (t : Bool)
          → holds (CollectionType-discrete src.spec_type dst.spec_type) ≡ t
          → (if t
              then compare_same_type drv pr is_document_db verify_all src_ns dst_ns src dst
              else ok (
                spec_result drv pr src_ns (no_id drv pr) "type" (
                      src_and_dst drv pr
                        (pr.print_type src.spec_type)
                        (pr.print_type dst.spec_type))
                    ∷ [],
                false,
              ))
            ≡ ok (rs, data_allowed)
          → (rs ≡ []) ↔ SameSpecs is_document_db src dst
      by_test true e x =
          let both = same_type-nil is_document_db verify_all src dst rs data_allowed x in
          (λ n. (holds-true _ e, (both.0 n).0, (both.0 n).1), λ (_, y, z). both.1 (y, z))
      by_test false e x = (
        λ n. absurd (ground (arith, ap (λ y. y.0) (ok-injective x), n)),
        λ (y, _, _). absurd (holds-false _ e y),
      )
