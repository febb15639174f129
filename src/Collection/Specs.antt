-- ===== src/Collection/Specs.antt =====
-- compareCollectionSpecifications of migration_verifier.go, and the normalization of collection
-- options of documentdb.go.
use Prim.Native.String.{◌++◌ as ◌++ₛ◌}
use migration_verifier_docdb.Base.{
  same_bool, Bool, true, false, Option, none, some, List, [], ◌∷◌, ◌++◌, String, if◌then◌else◌,
  ◌==◌, ◌&&◌, ◌||◌, Outcome, ok, err, ◌>>=◌, holds,
}
use migration_verifier_docdb.Base.Text.{text_dec}
use migration_verifier_docdb.Bson.{
  boolean, Value, leaf, Raw, end, bad, element, Raw-discrete, elements, Fields, CompareError,
  MismatchDetails, compare_with_details,
}
use migration_verifier_docdb.Compare.{
  RawValue, Result, cluster_target, no_history, Driver, found, Lookup, mismatch, mismatch_results,
}

-- The collection types that the program knows, and any other.
pub data CollectionType : Type 0 where
  collection view timeseries : CollectionType
  other_type : String → CollectionType

unfoldable pub CollectionType-discrete : Discrete CollectionType
CollectionType-discrete = hlevel text_dec

-- collspec.CollectionSpec. A document that is not there is the empty, unparsable one.
pub record CollectionSpec : Type 0 where
  pub spec_type : CollectionType
  pub options : Raw
  pub read_only : Bool
  pub id_index : Raw

abbrev pub no_raw : Raw
no_raw = bad []

-- How Go prints the values of a report, and the raw value of a text.
pub record Printer : Type 0 where
  pub print_type : CollectionType → String
  pub print_bool : Bool → String
  pub print_raw : Raw → String
  pub text_value : String → RawValue

pub data SpecError : Type 0 where
  options_unreadable : SpecError
  options_incomparable : CompareError → SpecError
  timeseries_under_filtering : SpecError
  unrecognized_type : CollectionType → SpecError

-- RawValue.BooleanOK.
abbrev pub boolean_ok : Value → Option Bool
boolean_ok (leaf boolean (b ∷ bs)) = some (b == 1)
boolean_ok _ = none

-- bson.Marshal of a list of elements.
abbrev pub marshal : Fields → Raw
marshal [] = end
marshal ((k, v) ∷ es) = element k v (marshal es)

abbrev pub is_false : Option Bool → Bool
is_false (some false) = true
is_false _ = false

-- docDBIncomparableCollectionOptions.
abbrev is_incomparable_option : String → Bool
is_incomparable_option k = holds (text_dec k "storageEngine") || holds (text_dec k "autoIndexId")

-- Whether the loop of normalizeCollectionOptionsForDocumentDB skips an element.
unfoldable pub is_skipped_option : String → Value → Bool
is_skipped_option k v =
    is_incomparable_option k || (holds (text_dec k "capped") && is_false (boolean_ok v))

unfoldable pub kept_options : Fields → Fields
unfolding is_skipped_option
kept_options [] = []
kept_options ((k, v) ∷ es) =
    let rest = kept_options es in if is_skipped_option k v then rest else (k, v) ∷ rest

-- normalizeCollectionOptionsForDocumentDB.
unfoldable pub normalize_collection_options : Raw → Outcome SpecError Raw
unfolding kept_options
normalize_collection_options opts =
    if holds (Raw-discrete opts no_raw) then ok opts else (elim (elements opts) [
      | none ↦ err options_unreadable
      | some es ↦ ok (marshal (kept_options es))
    ])

abbrev is_true : Option Bool → Bool
is_true (some b) = b
is_true none = false

abbrev found_true : Lookup → Bool
found_true (found v) = is_true (boolean_ok v)
found_true _ = false

-- The switch on the collection's type: whether the data can be compared.
unfoldable pub type_allows_data : Bool → CollectionType → Outcome SpecError Bool
type_allows_data verify_all collection = ok true
type_allows_data verify_all view = ok false
type_allows_data verify_all timeseries =
    if verify_all then ok false else err timeseries_under_filtering
type_allows_data verify_all (other_type t) = err (unrecognized_type (other_type t))

abbrev pub normalized : Bool → Raw → Outcome SpecError Raw
normalized true opts = normalize_collection_options opts
normalized false opts = ok opts

module _ (drv : Driver) (pr : Printer) where
  -- isCappedOption.
  unfoldable pub is_capped_option : Raw → Bool
  is_capped_option opts = found_true (drv.lookup_err opts ("capped" ∷ []))

  unfoldable pub spec_result : String → RawValue → String → String → Result
  spec_result namespace id field details = record {
    id = id;
    field = field;
    details = mismatch ++ₛ details;
    cluster = cluster_target;
    namespace = namespace;
    mismatch_history = no_history;
    data_size = 0;
    src_timestamp = none;
    dst_timestamp = none;
  }

  abbrev pub no_id : RawValue
  no_id = record { ty = 0; value = [] }

  abbrev pub src_and_dst : String → String → String
  src_and_dst a b = ": src: " ++ₛ a ++ₛ ", dst: " ++ₛ b

  -- The result on the read-only flags.
  unfoldable pub read_only_results : String → Bool → Bool → List Result
  unfolding spec_result
  read_only_results dst_ns a b =
      if same_bool a b
      then []
      else spec_result dst_ns no_id "readOnly" (src_and_dst (pr.print_bool a) (pr.print_bool b))
        ∷ []

  -- The results on options that differ, by their comparison.
  abbrev pub options_report :
      String
      → String
      → Raw
      → Raw
      → Outcome CompareError (Option MismatchDetails)
      → Outcome SpecError (List Result)
  options_report src_ns dst_ns src dst (err e) = err (options_incomparable e)
  options_report src_ns dst_ns src dst (ok none) = ok (
      spec_result dst_ns (pr.text_value "spec") "options (field order only)"
        (src_and_dst (pr.print_raw src) (pr.print_raw dst))
      ∷ [])
  options_report src_ns dst_ns src dst (ok (some d)) =
      ok (mismatch_results drv d src dst src_ns (pr.text_value "spec") "options.")

  unfoldable pub options_results : String → String → Raw → Raw → Outcome SpecError (List Result)
  unfolding spec_result
  options_results src_ns dst_ns src dst =
      if holds (Raw-discrete src dst)
      then ok []
      else options_report src_ns dst_ns src dst (compare_with_details src dst)

  -- The rest of compareCollectionSpecifications, for collections of one type.
  unfoldable pub compare_same_type :
      Bool
      → Bool
      → String
      → String
      → CollectionSpec
      → CollectionSpec
      → Outcome SpecError (List Result × Bool)
  unfolding read_only_results options_results type_allows_data is_capped_option
      normalize_collection_options
  compare_same_type src_is_document_db verify_all src_ns dst_ns src dst = do
    a ← normalized src_is_document_db src.options
    b ← normalized src_is_document_db dst.options
    rs ← options_results src_ns dst_ns a b
    data_allowed ← type_allows_data verify_all src.spec_type
    ok (
      read_only_results dst_ns src.read_only dst.read_only ++ rs,
      data_allowed && same_bool (is_capped_option a) (is_capped_option b),
    )

  -- compareCollectionSpecifications.
  unfoldable pub compare_collection_specifications :
      Bool
      → Bool
      → String
      → String
      → CollectionSpec
      → CollectionSpec
      → Outcome SpecError (List Result × Bool)
  unfolding compare_same_type spec_result
  compare_collection_specifications src_is_document_db verify_all src_ns dst_ns src dst =
      if holds (CollectionType-discrete src.spec_type dst.spec_type)
      then compare_same_type src_is_document_db verify_all src_ns dst_ns src dst
      else ok (
        spec_result src_ns no_id "type"
              (src_and_dst (pr.print_type src.spec_type) (pr.print_type dst.spec_type))
            ∷ [],
        false,
      )
