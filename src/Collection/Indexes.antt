-- ===== src/Collection/Indexes.antt =====
-- getIndexesMap and verifyIndexes of migration_verifier.go, the normalization of index specifications
-- of documentdb.go.
use migration_verifier_docdb.Base.{
  Bool, true, false, Option, none, some, List, [], ◌∷◌, ◌++◌, String, if◌then◌else◌, ◌||◌, Outcome,
  ok, err, ◌>>=◌, holds,
}
use migration_verifier_docdb.Base.Text.{text_dec}
use migration_verifier_docdb.Base.Dict.{lookup, insert}
use migration_verifier_docdb.Bson.{Value, Raw, Raw-discrete, elements, Fields}
use migration_verifier_docdb.Compare.{
  RawValue, Result, Cluster, cluster_source, cluster_target, no_history, missing,
}
use migration_verifier_docdb.Collection.Specs.{no_raw, marshal}

pub data IndexError : Type 0 where
  unnamed_index bad_index_name : IndexError
  index_unreadable : IndexError
  incomparable_indexes : String → IndexError

-- What the program asks about an index specification: mbson.RawLookup of its name (no field, a field
-- that is no text, or the name), index.DescribeSpecDifferences, and the raw value of a text.
pub data NameLookup : Type 0 where
  no_name bad_name : NameLookup
  named : String → NameLookup

pub record IndexOps : Type 0 where
  pub index_name : Raw → NameLookup
  pub describe_spec_differences : Raw → Raw → Option (Option String)
  pub text_value : String → RawValue
  pub int32_two : Value

abbrev pub Indexes : Type 0
Indexes = List (String × Raw)

module _ (ops : IndexOps) where
  -- getIndexesMap, of the specifications that the server lists.
  unfoldable pub indexes_map : List Raw → Indexes → Outcome IndexError Indexes
  indexes_map [] m = ok m
  indexes_map (spec ∷ specs) m = elim (ops.index_name spec) [
    | no_name ↦ err unnamed_index
    | bad_name ↦ err bad_index_name
    | named k ↦ indexes_map specs (insert text_dec k spec m)
  ]

  abbrev pub get_indexes_map : List Raw → Outcome IndexError Indexes
  get_indexes_map specs = indexes_map specs []

  -- docDBIncomparableIndexFields.
  abbrev is_incomparable_field : String → Bool
  is_incomparable_field k = holds (text_dec k "ns") || holds (text_dec k "2dsphereIndexVersion")

  unfoldable pub kept_fields : Fields → Fields
  kept_fields [] = []
  kept_fields ((k, v) ∷ es) =
      let rest = kept_fields es in
      if is_incomparable_field k
      then rest
      else if holds (text_dec k "v")
      then (k, ops.int32_two) ∷ rest
      else (k, v) ∷ rest

  -- normalizeIndexSpecForDocumentDB.
  unfoldable pub normalize_index_spec : Raw → Outcome IndexError Raw
  unfolding kept_fields
  normalize_index_spec spec =
      if holds (Raw-discrete spec no_raw) then ok spec else (elim (elements spec) [
        | none ↦ err index_unreadable
        | some es ↦ ok (marshal (kept_fields es))
      ])

  -- normalizeIndexSpecsForDocumentDB.
  unfoldable pub normalize_index_specs : Indexes → Outcome IndexError Indexes
  unfolding normalize_index_spec
  normalize_index_specs [] = ok []
  normalize_index_specs ((k, spec) ∷ m) =
      let rest = normalize_index_specs m in
      normalize_index_spec spec >>= λ s. rest >>= λ n. ok ((k, s) ∷ n)

  -- The ID index of the collection's specification goes under its own key, if there is one.
  unfoldable pub with_id_index : Raw → Indexes → Indexes
  with_id_index id_index m =
      if holds (Raw-discrete id_index no_raw) then m else insert text_dec "_id" id_index m

  abbrev pub index_result : String → String → Cluster → String → Result
  index_result name details cluster namespace = record {
    id = ops.text_value name;
    field = "index";
    details = details;
    cluster = cluster;
    namespace = namespace;
    mismatch_history = no_history;
    data_size = 0;
    src_timestamp = none;
    dst_timestamp = none;
  }

  -- The loop over the destination's indexes, for one of them.
  abbrev pub matched_index :
      String → String → Raw → Option (Option String) → Outcome IndexError (List Result)
  matched_index dst_ns name dst_spec none = err (incomparable_indexes name)
  matched_index dst_ns name dst_spec (some none) = ok []
  matched_index dst_ns name dst_spec (some (some diff)) =
      ok (index_result name diff cluster_target dst_ns ∷ [])

  abbrev pub one_index :
      String → String → String → Raw → Option Raw → Outcome IndexError (List Result)
  one_index src_ns dst_ns name dst_spec none =
      ok (index_result name missing cluster_source src_ns ∷ [])
  one_index src_ns dst_ns name dst_spec (some src_spec) =
      matched_index dst_ns name dst_spec (ops.describe_spec_differences src_spec dst_spec)

  unfoldable pub dst_indexes_results :
      String → String → Indexes → Indexes → Outcome IndexError (List Result)
  dst_indexes_results src_ns dst_ns src_map [] = ok []
  dst_indexes_results src_ns dst_ns src_map ((name, dst_spec) ∷ m) =
      let rest = dst_indexes_results src_ns dst_ns src_map m in
      one_index src_ns dst_ns name dst_spec (lookup text_dec name src_map) >>= λ rs.
      rest >>= λ ss. ok (rs ++ ss)

  abbrev pub is_found : Option Raw → Bool
  is_found none = false
  is_found (some r) = true

  -- The loop over the source's indexes: an index is used if the destination has its name.
  unfoldable pub src_indexes_results : String → Indexes → Indexes → List Result
  src_indexes_results dst_ns dst_map [] = []
  src_indexes_results dst_ns dst_map ((name, spec) ∷ m) =
      let rest = src_indexes_results dst_ns dst_map m in
      if is_found (lookup text_dec name dst_map)
      then rest
      else index_result name missing cluster_target dst_ns ∷ rest

  abbrev pub normalized_indexes : Bool → Indexes → Outcome IndexError Indexes
  normalized_indexes true m = normalize_index_specs m
  normalized_indexes false m = ok m

  -- verifyIndexes, given the indexes that the clusters list and the ID indexes.
  unfoldable pub verify_indexes :
      Bool → String → String → List Raw → List Raw → Raw → Raw → Outcome IndexError (List Result)
  unfolding indexes_map normalize_index_specs with_id_index dst_indexes_results src_indexes_results
  verify_indexes src_is_document_db src_ns dst_ns src_specs dst_specs src_id_index dst_id_index = do
    m ← get_indexes_map src_specs
    n ← get_indexes_map dst_specs
    src_map ← normalized_indexes src_is_document_db (with_id_index src_id_index m)
    dst_map ← normalized_indexes src_is_document_db (with_id_index dst_id_index n)
    rs ← dst_indexes_results src_ns dst_ns src_map dst_map
    ok (rs ++ src_indexes_results dst_ns dst_map src_map)
