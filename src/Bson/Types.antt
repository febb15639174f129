-- ===== src/Bson/Types.antt =====
-- bson.Type, bson.RawValue, bson.Raw and bson.Timestamp, as far as the program reads them.
use migration_verifier_docdb.Base.{
  ℕ, Bool, Option, none, some, List, [], ◌∷◌, String, ltb, ◌==◌, ◌&&◌, ◌||◌, ℕ_discrete,
}
use migration_verifier_docdb.Base.Text.{text_dec}

-- The types of BSON values but for arrays and embedded documents.
pub data Scalar : Type 0 where
  min_key double string binary undefined object_id boolean date null regex db_pointer : Scalar
  javascript symbol code_with_scope int32 timestamp int64 decimal128 max_key : Scalar

mutual
  pub data Value : Type 0 where
    leaf : Scalar → List ℕ → Value
    document : Raw → Value
    array : Raw → Value

  pub data Raw : Type 0 where
    end : Raw
    bad : List ℕ → Raw
    element : String → Value → Raw → Raw

unfoldable pub Scalar-discrete : Discrete Scalar
Scalar-discrete = hlevel

unfoldable pub bytes_dec : Discrete (List ℕ)
bytes_dec = hlevel ℕ_discrete

-- bson.Timestamp: seconds, and an increment within the second. Both are uint32.
pub record Timestamp : Type 0 where
  pub t : ℕ
  pub i : ℕ

-- `Timestamp.After`.
abbrev pub after : Timestamp → Timestamp → Bool
after a b = ltb b.t a.t || (a.t == b.t && ltb b.i a.i)

-- `bson.Raw.Elements`: fails if any part of the document does not parse.
unfoldable pub elements : Raw → Option (List (String × Value))
elements end = some []
elements (bad b) = none
elements (element k v r) = elim (elements r) [ none ↦ none | some es ↦ some ((k, v) ∷ es) ]

unfoldable pub Raw-discrete : Discrete Raw
Raw-discrete = hlevel (ℕ_discrete, text_dec)
