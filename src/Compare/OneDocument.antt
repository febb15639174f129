-- ===== src/Compare/OneDocument.antt =====
-- When compareOneDocument (compare.go) reports no mismatch.
use migration_verifier_docdb.Base.{
  ◌≡◌, ◌≢◌, ◌↔◌, ◌⊎◌, inl, inr, refl, sym, ◌∙◌, ap, none, some, List, [], String, arith, Outcome,
  ok, ◌>>=◌, length, length-append, length-map, >>=-eq-ok,
}
use migration_verifier_docdb.Bson.{Raw, Raw-discrete, MismatchDetails, compare_with_details}
use migration_verifier_docdb.Bson.Stop.{compare_document-details, compare_document-true}
use migration_verifier_docdb.Bson.Same.{SameDocument}
use migration_verifier_docdb.Bson.Decides.{compare_document-decides}
use migration_verifier_docdb.Compare.Types.{RawValue, Result, MethodError}
use migration_verifier_docdb.Compare.Methods.{
  Method, ignore_order, to_hashed_index_key, Driver, raw_doc_id, mismatch_results, compare_unequal,
  compare_one_document, is_hashed, should_ignore_field_order,
}
use migration_verifier_docdb.Compare.Sizes.{size, compare_with_details-size, Outcome-cases}

module _ (drv : Driver) (namespace : String) where
  length-mismatch_results :
      (d : MismatchDetails) (src dst : Raw) (id : RawValue) (prefix : String)
      → length (mismatch_results drv d src dst namespace id prefix) ≡ size d
  unfolding mismatch_results
  length-mismatch_results d src dst id prefix = omega (arith, length-append {0}, length-map {0, 0})

  pub mismatch_results-ne-nil :
      (src dst : Raw) (id : RawValue) (prefix : String) (d : MismatchDetails)
      → compare_with_details src dst ≡ ok (some d)
      → mismatch_results drv d src dst namespace id prefix ≢ []
  mismatch_results-ne-nil src dst id prefix d h e = absurd (
      omega (
        arith,
        length-mismatch_results d src dst id prefix,
        compare_with_details-size src dst d h,
        ap length e,
      ))

  unequal-ne-ok_nil :
      (m : Method) (src dst : Raw) (id : RawValue)
      → m ≢ ignore_order
      → compare_unequal drv m src dst namespace id ≢ ok []
  unfolding compare_unequal is_hashed should_ignore_field_order
  unequal-ne-ok_nil to_hashed_index_key src dst id n h = cc
  unequal-ne-ok_nil ignore_order src dst id n h = n refl
  unequal-ne-ok_nil _ src dst id n h = elim (Outcome-cases (compare_with_details src dst)) [
    | inl (inl e) ↦ ground arith
    | inl (inr (d, e)) ↦ ground (arith, mismatch_results-ne-nil src dst id "" d e)
    | inr (x, e) ↦ ground arith
  ]

  equal_ok :
      (m : Method) (src dst : Raw)
      → src ≡ dst
      → compare_one_document drv m src dst namespace ≡ ok []
  unfolding compare_one_document
  equal_ok m src dst e =
      elim (Raw-discrete src dst)
        as (λ x.
          (elim x as (λ y. Outcome MethodError (List Result)) [
            | yes p ↦ ok []
            | no p ↦ raw_doc_id drv m src >>= compare_unequal drv m src dst namespace
          ])
          ≡ ok []) [ yes p ↦ refl | no p ↦ absurd (p e) ]

  -- Of unequal documents the rest of the comparison decides.
  unequal_only :
      (m : Method) (src dst : Raw)
      → src ≢ dst
      → compare_one_document drv m src dst namespace
        ≡ (raw_doc_id drv m src >>= compare_unequal drv m src dst namespace)
  unfolding compare_one_document
  unequal_only m src dst n =
      elim (Raw-discrete src dst)
        as (λ x.
          (elim x as (λ y. Outcome MethodError (List Result)) [
            | yes p ↦ ok []
            | no p ↦ raw_doc_id drv m src >>= compare_unequal drv m src dst namespace
          ])
          ≡ (raw_doc_id drv m src >>= compare_unequal drv m src dst namespace)) [
            | yes p ↦ absurd (n p)
            | no p ↦ refl
          ]

  exact_only :
      (m : Method) (src dst : Raw)
      → m ≢ ignore_order
      → compare_one_document drv m src dst namespace ≡ ok []
      → src ≡ dst
  exact_only m src dst n h = elim (Raw-discrete src dst) [
    | yes p ↦ p
    | no p ↦
        let (id, e₁, e₂) =
          >>=-eq-ok (raw_doc_id drv m src) (compare_unequal drv m src dst namespace)
            (sym (unequal_only m src dst p) ∙ h) in
        absurd (unequal-ne-ok_nil m src dst id n e₂)
  ]

  unequal_same :
      (src dst : Raw) (id : RawValue)
      → compare_unequal drv ignore_order src dst namespace id ≡ ok []
      → SameDocument src dst
  unfolding compare_unequal is_hashed should_ignore_field_order
  unequal_same src dst id h = elim (Outcome-cases (compare_with_details src dst)) [
    | inl (inl e) ↦ (compare_document-decides src dst).0 (compare_document-details src dst none e)
    | inl (inr (d, e)) ↦ absurd (ground (arith, mismatch_results-ne-nil src dst id "" d e))
    | inr (x, e) ↦ absurd (ground arith)
  ]

  same_unequal :
      (src dst : Raw) (id : RawValue)
      → SameDocument src dst
      → compare_unequal drv ignore_order src dst namespace id ≡ ok []
  unfolding compare_unequal is_hashed should_ignore_field_order
  same_unequal src dst id h =
      let e = compare_document-true src dst ((compare_document-decides src dst).1 h) in ground arith

  unordered_only :
      (src dst : Raw)
      → compare_one_document drv ignore_order src dst namespace ≡ ok []
      → (src ≡ dst)
        ⊎ (((id : RawValue) × (raw_doc_id drv ignore_order src ≡ ok id)) × SameDocument src dst)
  unordered_only src dst h = elim (Raw-discrete src dst) [
    | yes p ↦ inl p
    | no p ↦
        let (id, e₁, e₂) =
          >>=-eq-ok (raw_doc_id drv ignore_order src)
            (compare_unequal drv ignore_order src dst namespace)
            (sym (unequal_only ignore_order src dst p) ∙ h) in
        inr ((id, e₁), unequal_same src dst id e₂)
  ]

  unordered_ok :
      (src dst : Raw)
      → (src ≡ dst)
        ⊎ (((id : RawValue) × (raw_doc_id drv ignore_order src ≡ ok id)) × SameDocument src dst)
      → compare_one_document drv ignore_order src dst namespace ≡ ok []
  unordered_ok src dst (inl e) = equal_ok ignore_order src dst e
  unordered_ok src dst (inr ((id, e), s)) = elim (Raw-discrete src dst) [
    | yes p ↦ equal_ok ignore_order src dst p
    | no p ↦
        unequal_only ignore_order src dst p
        ∙ ap (λ x. x >>= compare_unequal drv ignore_order src dst namespace) e
        ∙ same_unequal src dst id s
  ]

  -- Unless field order is ignored, no mismatch is reported exactly if the documents are equal byte
  -- for byte.
  pub compare_one_document-exact :
      (m : Method) (src dst : Raw)
      → m ≢ ignore_order
      → (compare_one_document drv m src dst namespace ≡ ok []) ↔ (src ≡ dst)
  compare_one_document-exact m src dst n = (exact_only m src dst n, equal_ok m src dst)

  -- With field order ignored, no mismatch is reported exactly if the documents are equal byte for
  -- byte, or the source's ID can be read and the documents hold the same fields with the same values
  -- in some order at every depth.
  pub compare_one_document-unordered :
      (src dst : Raw)
      → (compare_one_document drv ignore_order src dst namespace ≡ ok []) ↔ (
          (src ≡ dst)
          ⊎ (((id : RawValue) × (raw_doc_id drv ignore_order src ≡ ok id)) × SameDocument src dst))
  compare_one_document-unordered src dst = (unordered_only src dst, unordered_ok src dst)
