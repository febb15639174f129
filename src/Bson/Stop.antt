-- ===== src/Bson/Stop.antt =====
-- Stopping at the first mismatch against collecting all of them (bson_compare.go).
use migration_verifier_docdb.Base.{
  ◌≡◌, refl, ap, Outcome, ok, err, Bool, true, false, Option, none, some, List, [], ◌∷◌, ◌++◌,
  String, arith, Option-cases, inl, inr,
}
use migration_verifier_docdb.Base.Text.{text_dec}
use migration_verifier_docdb.Base.Dict.{insert}
use migration_verifier_docdb.Bson.Types.{Raw, end, bad, element, elements}
use migration_verifier_docdb.Bson.Unordered.{
  CompareError, MismatchDetails, no_details, Fields, finish, to_map, compare_fields,
  compare_with_details, compare_document,
}

abbrev pub is_none {ℓ} : {A : Type ℓ} → Option A → Bool
is_none none = true
is_none (some a) = false

-- After a mismatch the collecting run ends in a mismatch.
compare_fields_mismatched :
    (m : Fields) (used : List (String × Bool)) (d : MismatchDetails) (dst : Raw)
    (o : Option MismatchDetails)
    → compare_fields false m used d true dst ≡ ok o
    → is_none o ≡ false
unfolding compare_fields finish
compare_fields_mismatched m used d end o h = ground arith
compare_fields_mismatched m used d (bad b) o h = ground arith
compare_fields_mismatched m used d (element k v rest) o h = ground (
  arith,
  compare_fields_mismatched m used
      (record d { missing_field_on_src = d.missing_field_on_src ++ k ∷ [] }) rest o,
  compare_fields_mismatched m (insert text_dec k true used) d rest o,
  compare_fields_mismatched m (insert text_dec k true used)
      (record d { field_contents_differ = d.field_contents_differ ++ k ∷ [] }) rest o,
)

finish_agrees :
    (m : Fields) (used : List (String × Bool)) (d d' : MismatchDetails) (any : Bool)
    → is_none (finish true m used d any) ≡ is_none (finish false m used d' any)
unfolding finish
finish_agrees m used d d' any = ground arith

abbrev verdict : Outcome CompareError (Option MismatchDetails) → Outcome CompareError Bool
verdict (err e) = err e
verdict (ok none) = ok true
verdict (ok (some d)) = ok false

verdict-ok : (o : Option MismatchDetails) → verdict (ok o) ≡ ok (is_none o)
verdict-ok none = refl
verdict-ok (some d) = refl

compare_fields_agrees :
    (m : Fields) (used : List (String × Bool)) (d d' : MismatchDetails) (dst : Raw)
    (o : Option MismatchDetails)
    → compare_fields false m used d' false dst ≡ ok o
    → verdict (compare_fields true m used d false dst) ≡ ok (is_none o)
unfolding compare_fields
compare_fields_agrees m used d d' end o h =
    ground (arith, finish_agrees m used d d' false, verdict-ok (finish true m used d false))
compare_fields_agrees m used d d' (bad b) o h =
    ground (arith, finish_agrees m used d d' false, verdict-ok (finish true m used d false))
compare_fields_agrees m used d d' (element k v rest) o h = ground (
  arith,
  compare_fields_mismatched m used
      (record d' { missing_field_on_src = d'.missing_field_on_src ++ k ∷ [] }) rest o,
  compare_fields_mismatched m (insert text_dec k true used)
      (record d' { field_contents_differ = d'.field_contents_differ ++ k ∷ [] }) rest o,
  compare_fields_agrees m (insert text_dec k true used) d d' rest o,
)

-- Where the comparison that collects every mismatch finishes, the one that stops at the first
-- finishes too, and answers that the documents match exactly if the other found no mismatch.
pub compare_document-details :
    (src dst : Raw) (o : Option MismatchDetails)
    → compare_with_details src dst ≡ ok o
    → compare_document src dst ≡ ok (is_none o)
unfolding compare_document compare_with_details
compare_document-details src dst o h = elim (Option-cases (elements src)) [
  | inl e ↦ ground arith
  | inr (es, e) ↦
      ground (arith, compare_fields_agrees (to_map [] es) [] no_details no_details dst o)
]

finish-none :
    (m : Fields) (used : List (String × Bool)) (d : MismatchDetails)
    → finish true m used d false ≡ none
    → finish false m used d false ≡ none
unfolding finish
finish-none m used d h = ground arith

compare_fields-none :
    (m : Fields) (used : List (String × Bool)) (d : MismatchDetails) (dst : Raw)
    → compare_fields true m used d false dst ≡ ok none
    → compare_fields false m used d false dst ≡ ok none
unfolding compare_fields
compare_fields-none m used d end h = ap ok (finish-none m used d (cc))
compare_fields-none m used d (bad b) h = ap ok (finish-none m used d (cc))
compare_fields-none m used d (element k v rest) h =
    ground (arith, compare_fields-none m (insert text_dec k true used) d rest)

-- Where the comparison that stops at the first mismatch finds none, so does the other.
pub compare_document-true :
    (src dst : Raw) → compare_document src dst ≡ ok true → compare_with_details src dst ≡ ok none
unfolding compare_document compare_with_details
compare_document-true src dst h = elim (Option-cases (elements src)) [
  | inl e ↦ absurd (ground arith)
  | inr (es, e) ↦ ground (arith, compare_fields-none (to_map [] es) [] no_details dst)
]
