-- ===== src/Compare/Methods.antt =====
-- compare/method.go, dockey/raw.go, and compareOneDocument (compare.go) with
-- mismatchResultsToVerificationResults (migration_verifier.go).
use Prim.Native.String.{◌++◌ as ◌++ₛ◌}
use migration_verifier_docdb.Base.{
  ℕ, ◌≡◌, Bool, true, false, Option, none, some, List, [], ◌∷◌, ◌++◌, String, if◌then◌else◌,
  Outcome, ok, err, ◌>>=◌, holds, max, map,
}
use mathlib.Core.Option
use migration_verifier_docdb.Base.Words.{int32}
use migration_verifier_docdb.Bson.{
  Scalar, null, Value, leaf, document, array, Raw, Raw-discrete, elements, Fields, MismatchDetails,
  compare_with_details,
}
use migration_verifier_docdb.Compare.Types.{
  RawValue, Result, Cluster, cluster_source, cluster_target, no_history, missing, MethodError,
  doc_key_error, doc_id_error, unknown_method, compare_error, CompareOps,
}

-- compare.Method. Its type is an open string: `other` is a value that no constant names.
pub data Method : Type 0 where
  binary ignore_order to_hashed_index_key other : Method

-- bson.Type.
pub data ValueType : Type 0 where
  scalar : Scalar → ValueType
  document_type array_type : ValueType

abbrev pub value_type : Value → ValueType
value_type (leaf t b) = scalar t
value_type (document r) = document_type
value_type (array r) = array_type

-- bson.Raw.LookupErr: the value, or why there is none.
pub data Lookup : Type 0 where
  found : Value → Lookup
  element_not_found invalid_depth corrupt : Lookup

-- What the driver does with a parsed document. A path is a field name split at its dots.
pub record Driver : Type 0 where
  pub raw_value : Value → RawValue
  pub raw_len : Raw → ℕ
  pub lookup_err : Raw → List String → Lookup
  pub type_string : Option ValueType → String
  pub as_int64 : Value → ℕ

pub ValueType-discrete : Discrete ValueType
ValueType-discrete = hlevel

abbrev pub mismatch : String
mismatch = "Mismatch"

-- Method.ShouldIgnoreFieldOrder and Method.ComparesFullDocuments.
unfoldable pub should_ignore_field_order : Method → Bool
should_ignore_field_order ignore_order = true
should_ignore_field_order _ = false

unfoldable pub compares_full_documents : Method → Bool
compares_full_documents binary = true
compares_full_documents ignore_order = true
compares_full_documents _ = false

unfoldable pub is_hashed : Method → Bool
is_hashed to_hashed_index_key = true
is_hashed _ = false

module _ (drv : Driver) where
  abbrev lookup_id : Lookup → Outcome MethodError RawValue
  lookup_id (found v) = ok (drv.raw_value v)
  lookup_id _ = err doc_id_error

  -- AppendDocKeyFields: a field that the document lacks is null in the key.
  unfoldable pub append_doc_key_fields :
      List RawValue → Raw → List (List String) → Outcome MethodError (List RawValue)
  append_doc_key_fields vals doc [] = ok vals
  append_doc_key_fields vals doc (path ∷ paths) =
      let next = λ (v : RawValue). append_doc_key_fields (vals ++ v ∷ []) doc paths in
      elim (drv.lookup_err doc path) [
        | found v ↦ next (drv.raw_value v)
        | element_not_found ↦ next (drv.raw_value (leaf null []))
        | invalid_depth ↦ next (drv.raw_value (leaf null []))
        | corrupt ↦ err doc_key_error
      ]

  abbrev pub raw_values : Fields → List RawValue
  raw_values [] = []
  raw_values ((k, v) ∷ es) = drv.raw_value v ∷ raw_values es

  -- Method.GetDocKeyValues. For a method that no constant names the key document is nil, which does
  -- not parse.
  unfoldable pub get_doc_key_values :
      Method → List RawValue → Raw → List (List String) → Outcome MethodError (List RawValue)
  unfolding append_doc_key_fields
  get_doc_key_values binary vals doc paths = append_doc_key_fields vals doc paths
  get_doc_key_values ignore_order vals doc paths = append_doc_key_fields vals doc paths
  get_doc_key_values to_hashed_index_key vals doc paths = elim (drv.lookup_err doc ("k" ∷ [])) [
    | found v ↦ elim v [
      | document r ↦ elim (elements r) [
        | some es ↦ ok (vals ++ raw_values es)
        | none ↦ err doc_key_error
      ]
      | _ ↦ err doc_key_error
    ]
    | _ ↦ err doc_key_error
  ]
  get_doc_key_values other vals doc paths = err doc_key_error

  -- Method.RawDocIDForComparison; ClonedDocIDForComparison returns the same value.
  unfoldable pub raw_doc_id : Method → Raw → Outcome MethodError RawValue
  raw_doc_id binary doc = lookup_id (drv.lookup_err doc ("_id" ∷ []))
  raw_doc_id ignore_order doc = lookup_id (drv.lookup_err doc ("_id" ∷ []))
  raw_doc_id to_hashed_index_key doc = lookup_id (drv.lookup_err doc ("k" ∷ "_id" ∷ []))
  raw_doc_id other doc = err unknown_method

  -- The value of a field, for the report of a difference: a field that is not there has no type.
  unfoldable pub lookup_type : Raw → String → Option ValueType
  lookup_type doc field = elim (drv.lookup_err doc (field ∷ [])) [
    | found v ↦ some (value_type v)
    | _ ↦ none
  ]

  -- The details of a field whose contents differ.
  unfoldable pub differ_details : Raw → Raw → String → String
  unfolding lookup_type
  differ_details src dst field =
      let s = lookup_type src field in
      let d = lookup_type dst field in
      if holds (Option.discrete ValueType-discrete s d)
      then mismatch
      else mismatch
        ++ₛ " : type mismatch: src="
        ++ₛ drv.type_string s
        ++ₛ ", dst="
        ++ₛ drv.type_string d

  -- The three loops of mismatchResultsToVerificationResults.
  unfoldable pub field_result : Cluster → String → RawValue → String → String → String → Result
  field_result cluster details id namespace prefix field = record {
    id = id;
    field = prefix ++ₛ field;
    details = details;
    cluster = cluster;
    namespace = namespace;
    mismatch_history = no_history;
    data_size = 0;
    src_timestamp = none;
    dst_timestamp = none;
  }

  unfoldable pub mismatch_results :
      MismatchDetails → Raw → Raw → String → RawValue → String → List Result
  unfolding field_result differ_details
  mismatch_results d src dst namespace id prefix =
      map (field_result cluster_source missing id namespace prefix) d.missing_field_on_src
      ++ map (field_result cluster_target missing id namespace prefix) d.missing_field_on_dst
      ++ map
          (λ field.
            field_result cluster_target (differ_details src dst field) id namespace prefix field)
          d.field_contents_differ

  -- A result about the whole document.
  unfoldable pub document_result : String → ℕ → RawValue → String → Result
  document_result details size id namespace = record {
    id = id;
    field = "";
    details = details;
    cluster = cluster_target;
    namespace = namespace;
    mismatch_history = no_history;
    data_size = size;
    src_timestamp = none;
    dst_timestamp = none;
  }

  -- compareOneDocument once the documents are known to differ in some byte, and the ID is known.
  unfoldable pub compare_unequal :
      Method → Raw → Raw → String → RawValue → Outcome MethodError (List Result)
  unfolding mismatch_results document_result is_hashed should_ignore_field_order
  compare_unequal method src dst namespace id =
      if is_hashed method
      then ok (document_result mismatch 0 id namespace ∷ [])
      else elim (compare_with_details src dst) [
        | err e ↦ err (compare_error e)
        | ok none ↦
            if should_ignore_field_order method
            then ok []
            else ok (
                document_result (mismatch ++ₛ " : only field order differs")
                  (int32 (max (drv.raw_len src) (drv.raw_len dst))) id namespace
                ∷ [])
        | ok (some d) ↦ ok (mismatch_results d src dst namespace id "")
      ]

  unfoldable pub compare_one_document :
      Method → Raw → Raw → String → Outcome MethodError (List Result)
  unfolding compare_unequal raw_doc_id
  compare_one_document method src dst namespace = elim (Raw-discrete src dst) [
    | yes p ↦ ok []
    | no p ↦ raw_doc_id method src >>= compare_unequal method src dst namespace
  ]

  -- Method.DocSize: none is the panic of the assertion that a hashed document has its size field.
  unfoldable pub doc_size : Method → Raw → Option ℕ
  unfolding compares_full_documents
  doc_size method doc =
      if compares_full_documents method
      then some (drv.raw_len doc)
      else elim (drv.lookup_err doc ("s" ∷ [])) [ found v ↦ some (drv.as_int64 v) | _ ↦ none ]

  -- A document whose ID and size can be read. On any other the comparator panics, by `lo.Must` or the
  -- assertion.
  pub record ReadableDoc (method : Method) : Type 0 where
    pub raw : Raw
    pub id : RawValue
    pub size : ℕ
    pub id_read : raw_doc_id method raw ≡ ok id
    pub size_read : doc_size method raw ≡ some size

  -- The comparator's interface, for BSON documents.
  unfoldable pub bson_ops :
      (method : Method) → List (List String) → String → CompareOps (ReadableDoc method)
  unfolding compare_one_document get_doc_key_values
  bson_ops method paths namespace = record {
    get_doc_key_values = λ d. get_doc_key_values method [] d.raw paths;
    doc_id = λ d. d.id;
    doc_size = λ d. d.size;
    doc_len = λ d. drv.raw_len d.raw;
    compare_one_document = λ s d. compare_one_document method s.raw d.raw namespace;
  }
