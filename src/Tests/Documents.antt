-- ===== src/Tests/Documents.antt =====
-- Two documents that hold the same fields in two orders, and a namespace map.
use migration_verifier_docdb.Base.Text.{text_dec}
use migration_verifier_docdb.Base.Dict.{lookup, insert}
use migration_verifier_docdb.Base.{
  ℕ_discrete, ℕ, ◌≡◌, ◌≢◌, ◌⊎◌, refl, true, none, some, List, [], ◌∷◌, String, ok, ◌↔◌, length,
}
use migration_verifier_docdb.Bson.{
  leaf_equal, finish, elements, bytes_dec, Scalar-discrete, int32, Value, leaf, document, array,
  Raw, end, element, compare_with_details, compare_document,
}
use migration_verifier_docdb.Bson.Same.{SameDocument}
use migration_verifier_docdb.Bson.Decides.{compare_document-decides}
use migration_verifier_docdb.Bson.Stop.{compare_document-details}
use migration_verifier_docdb.Compare.{
  RawValue, Driver, binary, ignore_order, Lookup, found, element_not_found, raw_doc_id,
  compare_one_document,
}
use migration_verifier_docdb.Compare.OneDocument.{
  compare_one_document-exact, compare_one_document-unordered,
}
use migration_verifier_docdb.NsMap.{
  NsMap, new_ns_map, populate_with_namespaces, get_dst_namespace, get_src_namespace, len,
  populate-roundtrip,
}

abbrev number : ℕ → Value
number n = leaf int32 (n ∷ 0 ∷ 0 ∷ 0 ∷ [])

abbrev pub ab : Raw
ab = element "_id" (number 1) (element "a" (number 2) end)

abbrev pub ba : Raw
ba = element "a" (number 2) (element "_id" (number 1) end)

abbrev bytes_of : Value → List ℕ
bytes_of (leaf s b) = b
bytes_of (document r) = []
bytes_of (array r) = []

-- A driver that finds no field but the first.
abbrev lookup_first : Raw → List String → Lookup
lookup_first (element k v r) path = found v
lookup_first _ path = element_not_found

abbrev pub driver : Driver
driver = record {
  raw_value = λ v. record { ty = 16; value = bytes_of v };
  raw_len = λ r. 20;
  lookup_err = lookup_first;
  type_string = λ t. "a type";
  as_int64 = λ v. 0;
}

compare_document-decides_example : (compare_document ab ba ≡ ok true) ↔ SameDocument ab ba
compare_document-decides_example = compare_document-decides ab ba

same_details : compare_with_details ab ba ≡ ok none
unfolding compare_with_details elements lookup insert text_dec leaf_equal Scalar-discrete bytes_dec
    ℕ_discrete finish
same_details = refl

compare_document-details_example : compare_document ab ba ≡ ok true
compare_document-details_example = compare_document-details ab ba none same_details

binary≢ignore_order : binary ≢ ignore_order
binary≢ignore_order h = cc

compare_one_document-exact_example :
    (compare_one_document driver binary ab ba "db.coll" ≡ ok []) ↔ (ab ≡ ba)
compare_one_document-exact_example =
    compare_one_document-exact driver "db.coll" binary ab ba binary≢ignore_order

compare_one_document-unordered_example :
    (compare_one_document driver ignore_order ab ba "db.coll" ≡ ok []) ↔ (
      (ab ≡ ba)
      ⊎ (((id : RawValue) × (raw_doc_id driver ignore_order ab ≡ ok id)) × SameDocument ab ba))
compare_one_document-unordered_example = compare_one_document-unordered driver "db.coll" ab ba

abbrev pub two_maps : NsMap
two_maps = record {
  src_dst_ns_map = ("a.x", "b.x") ∷ ("a.y", "b.y") ∷ [];
  dst_src_ns_map = ("b.x", "a.x") ∷ ("b.y", "a.y") ∷ [];
}

populates :
    populate_with_namespaces ("a.x" ∷ "a.y" ∷ []) ("b.x" ∷ "b.y" ∷ []) new_ns_map ≡ ok two_maps
unfolding populate_with_namespaces new_ns_map lookup insert text_dec
populates = refl

populate-roundtrip_example :
    (get_dst_namespace two_maps "a.y" ≡ some "b.y")
    × (get_src_namespace two_maps "b.y" ≡ some "a.y")
    × ((a b : String)
        → (get_dst_namespace two_maps a ≡ some b) ↔ (get_src_namespace two_maps b ≡ some a))
    × (len two_maps ≡ ok (length two_maps.src_dst_ns_map))
populate-roundtrip_example =
    populate-roundtrip ("a.x" ∷ "a.y" ∷ []) ("b.x" ∷ "b.y" ∷ []) two_maps 1 "a.y" "b.y" populates
      refl refl
