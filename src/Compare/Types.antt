-- ===== src/Compare/Types.antt =====
-- What the comparator works on: documents with timestamps, raw values, results, and the interface to
-- the comparison method (compare/result.go, compare/compare.go, compare_key.go, compare_lookup.go).
use migration_verifier_docdb.Base.{
  ℕ, suc, ◌==◌, Bool, Option, none, some, List, [], ◌∷◌, ◌++◌, String, if◌then◌else◌, Outcome, ok,
  err, ℕ_discrete, ◌&&◌, holds,
}
use migration_verifier_docdb.Base.Text.{text_dec}
use migration_verifier_docdb.Base.Dict.{lookup, insert}
use migration_verifier_docdb.Base.Int.{ℤ, pos, sub_ℕ}
use migration_verifier_docdb.Base.Words.{int32}
use migration_verifier_docdb.Bson.{Timestamp, bytes_dec, CompareError}

-- bson.RawValue: a type byte, and the value's bytes.
pub record RawValue : Type 0 where
  pub ty : ℕ
  pub value : List ℕ

abbrev pub Key : Type 0
Key = List ℕ

-- rvToMapKey.
unfoldable pub rv_to_map_key : Key → RawValue → Key
rv_to_map_key buf rv = buf ++ rv.ty ∷ rv.value

-- getMapKey.
unfoldable pub get_map_key : Key → List RawValue → Key
unfolding rv_to_map_key
get_map_key buf [] = buf
get_map_key buf (v ∷ vs) = get_map_key (rv_to_map_key buf v) vs

-- recheck.MismatchHistory, with times in milliseconds since the epoch.
pub record MismatchHistory : Type 0 where
  pub first : ℕ
  pub duration_ms : ℤ

-- constants.ClusterSource and constants.ClusterTarget; a result of no cluster has "".
pub data Cluster : Type 0 where
  cluster_source cluster_target no_cluster : Cluster

-- compare.Result.
pub record Result : Type 0 where
  pub id : RawValue
  pub field : String
  pub details : String
  pub cluster : Cluster
  pub namespace : String
  pub mismatch_history : MismatchHistory
  pub data_size : ℕ
  pub src_timestamp : Option Timestamp
  pub dst_timestamp : Option Timestamp

abbrev pub no_history : MismatchHistory
no_history = record { first = 0; duration_ms = pos 0 }

abbrev pub missing : String
missing = "Missing"

-- Result.DocumentIsMissing.
unfoldable pub document_is_missing : Result → Bool
document_is_missing r = holds (text_dec r.details missing) && holds (text_dec r.field "")

-- Errors of the comparison method.
pub data MethodError : Type 0 where
  doc_key_error doc_id_error unknown_method : MethodError
  compare_error : CompareError → MethodError

-- Errors of the comparator; `assertion_failed` is a panic of `lo.Assertf`.
pub data Error : Type 0 where
  method_error : MethodError → Error
  reader_stalled channel_write_error assertion_failed out_of_fuel : Error

-- errors.Wrap around a call of the comparison method.
abbrev pub wrap : {A : Type 0} → Outcome MethodError A → Outcome Error A
wrap (ok a) = ok a
wrap (err e) = err (method_error e)

-- compare.DocWithTs.
pub record DocWithTs (Doc : Type 0) : Type 0 where
  pub doc : Doc
  pub ts : Timestamp

-- What the comparator asks of the comparison method and of the driver: `GetDocKeyValues`, the
-- document's ID, `DocSize`, `len(doc)` and compareOneDocument.
pub record CompareOps (Doc : Type 0) : Type 0 where
  pub get_doc_key_values : Doc → Outcome MethodError (List RawValue)
  pub doc_id : Doc → RawValue
  pub doc_size : Doc → ℕ
  pub doc_len : Doc → ℕ
  pub compare_one_document : Doc → Doc → Outcome MethodError (List Result)

-- A Go map read: a missing key reads as the zero value.
abbrev pub or_zero : Option ℕ → ℕ
or_zero none = 0
or_zero (some t) = t

-- createIDToFirstMismatchTime: the task's IDs, and the first-mismatch times by position. A missing
-- position reads as 0, which stands for no time.
unfoldable pub create_id_map : ℕ → List RawValue → List (ℕ × ℕ) → List (Key × ℕ) → List (Key × ℕ)
unfolding rv_to_map_key
create_id_map i [] times m = m
create_id_map i (id ∷ ids) times m =
    let time = or_zero (lookup ℕ_discrete (int32 i) times) in
    create_id_map (suc i) ids times
      (if time == 0 then m else insert bytes_dec (rv_to_map_key [] id) time m)

-- firstMismatchTimeLookup.get, on the map that the lookup caches: `option.IfNotZero(m[key])`.
unfoldable pub first_mismatch_time : List (Key × ℕ) → RawValue → Option ℕ
unfolding rv_to_map_key
first_mismatch_time m id = elim (lookup bytes_dec (rv_to_map_key [] id) m) [
  | none ↦ none
  | some t ↦ if t == 0 then none else some t
]

-- createMismatchTimes, with the clock's reading in milliseconds.
unfoldable pub create_mismatch_times : ℕ → Option ℕ → MismatchHistory
create_mismatch_times now none = record { first = now; duration_ms = pos 0 }
create_mismatch_times now (some t) = record { first = t; duration_ms = sub_ℕ now t }
