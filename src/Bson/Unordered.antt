-- ===== src/Bson/Unordered.antt =====
-- bsonUnorderedCompareRawElements and the functions around it (bson_compare.go).
use migration_verifier_docdb.Base.{
  ℕ, Bool, true, false, Option, none, some, List, [], ◌∷◌, ◌++◌, String, if◌then◌else◌, ◌==◌, ◌&&◌,
  ◌||◌, not, length, holds, Outcome, ok, err,
}
use migration_verifier_docdb.Base.Text.{text_dec}
use migration_verifier_docdb.Base.Dict.{lookup, insert}
use migration_verifier_docdb.Bson.Types.{
  Scalar, Value, leaf, document, array, Raw, end, bad, element, elements, Scalar-discrete,
  bytes_dec,
}

pub data CompareError : Type 0 where
  bad_source bad_destination array_keys_differ : CompareError

pub record MismatchDetails : Type 0 where
  pub missing_field_on_src : List String
  pub missing_field_on_dst : List String
  pub field_contents_differ : List String

abbrev pub no_details : MismatchDetails
no_details = record {
  missing_field_on_src = [];
  missing_field_on_dst = [];
  field_contents_differ = [];
}

abbrev pub Fields : Type 0
Fields = List (String × Value)

-- The loop that fills `srcMap`: a repeated key keeps its last value.
unfoldable pub to_map : Fields → Fields → Fields
to_map m [] = m
to_map m ((k, v) ∷ es) = to_map (insert text_dec k v m) es

-- The loop over `srcMap` for keys that no destination element used.
unfoldable pub unused : Bool → Fields → List (String × Bool) → MismatchDetails → MismatchDetails
unused stop [] used d = d
unused stop ((k, v) ∷ m) used d =
    let d' = record d { missing_field_on_dst = d.missing_field_on_dst ++ k ∷ [] } in
    let found = unused stop m used d' in
    let rest = unused stop m used d in
    elim (lookup text_dec k used) [ some _ ↦ rest | none ↦ if stop then d' else found ]

-- Whether any key of `srcMap` is unused.
unfoldable pub any_unused : Fields → List (String × Bool) → Bool
any_unused [] used = false
any_unused ((k, v) ∷ m) used = elim (lookup text_dec k used) [
  | some _ ↦ any_unused m used
  | none ↦ true
]

-- What stands after the loop over the destination's elements.
unfoldable pub finish :
    Bool → Fields → List (String × Bool) → MismatchDetails → Bool → Option MismatchDetails
unfolding unused any_unused
finish stop m used d any =
    if not (length m == length used)
    then (if any || any_unused m used then some (unused stop m used d) else none)
    else (if any then some d else none)

-- `RawValue.Equal` at two values of one type that is neither an array nor a document.
unfoldable pub leaf_equal : Value → Scalar → List ℕ → Bool
leaf_equal (leaf t b) t' b' = holds (Scalar-discrete t t') && holds (bytes_dec b b')
leaf_equal (document r) t' b' = false
leaf_equal (array r) t' b' = false

unfoldable mutual
  -- bsonUnorderedCompareRawValue.
  pub compare_value : Value → Value → Outcome CompareError Bool
  compare_value s (leaf t b) = ok (leaf_equal s t b)
  compare_value s (document d) = elim s [
    | document r ↦ elim (elements r) [
      | none ↦ err bad_source
      | some es ↦ elim (elements d) [
        | none ↦ err bad_destination
        | some _ ↦ elim (compare_fields true (to_map [] es) [] no_details false d) [
          | err e ↦ err e
          | ok none ↦ ok true
          | ok (some _) ↦ ok false
        ]
      ]
    ]
    | _ ↦ ok false
  ]
  compare_value s (array d) = elim s [
    | array r ↦ elim (elements r) [
      | none ↦ err bad_source
      | some es ↦ elim (elements d) [
        | none ↦ err bad_destination
        | some ds ↦ if length es == length ds then compare_items es d else ok false
      ]
    ]
    | _ ↦ ok false
  ]

  -- The loop of bsonUnorderedCompareRawElements over the destination's elements.
  pub compare_fields :
      Bool
      → Fields
      → List (String × Bool)
      → MismatchDetails
      → Bool
      → Raw
      → Outcome CompareError (Option MismatchDetails)
  compare_fields stop m used d any end = ok (finish stop m used d any)
  compare_fields stop m used d any (bad b) = ok (finish stop m used d any)
  compare_fields stop m used d any (element k v rest) = elim (lookup text_dec k m) [
    | none ↦
        let d' = record d { missing_field_on_src = d.missing_field_on_src ++ k ∷ [] } in
        let more = compare_fields stop m used d' true rest in if stop then ok (some d') else more
    | some sv ↦
        let d' = record d { field_contents_differ = d.field_contents_differ ++ k ∷ [] } in
        let used' = insert text_dec k true used in
        let same = compare_fields stop m used' d any rest in
        let differs = compare_fields stop m used' d' true rest in
        elim (compare_value sv v) [
          | err e ↦ err e
          | ok true ↦ if stop && any then ok (some d) else same
          | ok false ↦ if stop then ok (some d') else differs
        ]
  ]

  -- The loop of bsonUnorderedCompareRawArray.
  pub compare_items : Fields → Raw → Outcome CompareError Bool
  compare_items es end = ok true
  compare_items es (bad b) = ok true
  compare_items es (element k v rest) = elim es [
    | [] ↦ ok true
    | (j, sv) ∷ es' ↦ elim (text_dec j k) [
      | no _ ↦ err array_keys_differ
      | yes _ ↦
          let more = compare_items es' rest in
          elim (compare_value sv v) [ err e ↦ err e | ok true ↦ more | ok false ↦ ok false ]
    ]
  ]

-- parseDocuments: the two element lists, or the first that does not parse.
unfoldable pub parse_documents : Raw → Raw → Outcome CompareError (Fields × Fields)
parse_documents src dst = elim (elements src) [
  | none ↦ err bad_source
  | some es ↦ elim (elements dst) [ none ↦ err bad_destination | some ds ↦ ok (es, ds) ]
]

-- bsonUnorderedCompareRawElements, at the elements that `parse_documents` found.
unfoldable pub compare_elements :
    Fields → Raw → Bool → Outcome CompareError (Option MismatchDetails)
unfolding compare_fields to_map
compare_elements es dst stop = compare_fields stop (to_map [] es) [] no_details false dst

-- BsonUnorderedCompareRawDocumentWithDetails: `none` if the documents match.
unfoldable pub compare_with_details : Raw → Raw → Outcome CompareError (Option MismatchDetails)
unfolding parse_documents compare_elements
compare_with_details src dst = elim (parse_documents src dst) [
  | err e ↦ err e
  | ok (es, _) ↦ compare_elements es dst false
]

-- BsonUnorderedCompareRawDocument: whether the documents match.
unfoldable pub compare_document : Raw → Raw → Outcome CompareError Bool
unfolding parse_documents compare_elements
compare_document src dst = elim (parse_documents src dst) [
  | err e ↦ err e
  | ok (es, _) ↦ elim (compare_elements es dst true) [
    | err e ↦ err e
    | ok none ↦ ok true
    | ok (some _) ↦ ok false
  ]
]
