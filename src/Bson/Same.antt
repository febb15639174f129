-- ===== src/Bson/Same.antt =====
-- What it means that two documents match when field order is ignored, said without maps and without
-- the order of the comparison (for bson_compare.go).
use migration_verifier_docdb.Base.{
  ◌≡◌, ◌≢◌, refl, true, Option, none, some, [], ◌∷◌, String, arith, length, ite,
}
use migration_verifier_docdb.Base.Text.{text_dec}
use migration_verifier_docdb.Base.Dict.{lookup, insert, IsMap, lookup-insert, insert-IsMap}
use migration_verifier_docdb.Bson.Types.{
  Value, leaf, document, array, Raw, end, bad, element, elements,
}
use migration_verifier_docdb.Bson.Unordered.{Fields, to_map}
use migration_verifier_docdb.Bson.Used.{Used}

-- The value of a field: of a repeated one, the last.
unfoldable pub last_value : String → Fields → Option Value
last_value k [] = none
last_value k ((j, v) ∷ es) = elim (last_value k es) [
  | some w ↦ some w
  | none ↦ ite (text_dec j k) (some v) none
]

pub lookup-to_map :
    (k : String) (m es : Fields)
    → lookup text_dec k (to_map m es)
      ≡ (elim (last_value k es) [ some w ↦ some w | none ↦ lookup text_dec k m ])
unfolding last_value to_map
lookup-to_map k m [] = refl
lookup-to_map k m ((j, v) ∷ es) =
    ground (arith, lookup-to_map k (insert text_dec j v m) es, lookup-insert text_dec j k v m)

pub to_map-IsMap : (m es : Fields) → IsMap text_dec m → IsMap text_dec (to_map m es)
unfolding to_map
to_map-IsMap m [] h = h
to_map-IsMap m ((j, v) ∷ es) h =
    to_map-IsMap (insert text_dec j v m) es (insert-IsMap text_dec j v m h)

-- No element of the document has the key.
abbrev pub Lacks : String → Raw → Type 0
Lacks k end = Unit
Lacks k (bad b) = Unit
Lacks k (element j v r) = (j ≢ k) × Lacks k r

abbrev pub Parses : Raw → Fields → Type 0
Parses r es = elements r ≡ some es

unfoldable mutual
  -- The same type; the same bytes, or the same fields in some order, or the same items in order.
  pub Same : Value → Value → Type 0
  Same s (leaf t b) = s ≡ leaf t b
  Same s (document d) =
      (r : Raw) × (s ≡ document r)
      × ((es : Fields) × Parses r es
          × ((ds : Fields) × Parses d ds
              × SameFields es d
              × ((k : String) → Lacks k d → last_value k es ≡ none)))
  Same s (array d) =
      (r : Raw) × (s ≡ array r)
      × ((es : Fields) × Parses r es
          × ((ds : Fields) × Parses d ds × (length es ≡ length ds) × SameItems es d))

  pub SameFields : Fields → Raw → Type 0
  SameFields es end = Unit
  SameFields es (bad b) = Unit
  SameFields es (element k v d) =
      ((sv : Value) × (last_value k es ≡ some sv) × Same sv v) × SameFields es d

  pub SameItems : Fields → Raw → Type 0
  SameItems es end = Unit
  SameItems es (bad b) = Unit
  SameItems es (element k v d) = elim es [
    | [] ↦ ⊥
    | (j, sv) ∷ es' ↦ (j ≡ k) × Same sv v × SameItems es' d
  ]

-- Two whole documents.
unfoldable pub SameDocument : Raw → Raw → Type 0
SameDocument r d =
    (es : Fields) × Parses r es
    × ((ds : Fields) × Parses d ds
        × SameFields es d
        × ((k : String) → Lacks k d → last_value k es ≡ none))

-- The keys that the loop over the destination's elements marks as used.
unfoldable pub mark : Used → Raw → Used
mark u end = u
mark u (bad b) = u
mark u (element k v d) = mark (insert text_dec k true u) d

pub mark-IsMap : (u : Used) (d : Raw) → IsMap text_dec u → IsMap text_dec (mark u d)
unfolding mark
mark-IsMap u end h = h
mark-IsMap u (bad b) h = h
mark-IsMap u (element k v d) h =
    mark-IsMap (insert text_dec k true u) d (insert-IsMap text_dec k true u h)

-- A key is marked exactly if it was before, or stands in the document.
pub mark-none :
    (k : String) (u : Used) (d : Raw)
    → lookup text_dec k (mark u d) ≡ none
    → (lookup text_dec k u ≡ none) × Lacks k d
unfolding mark
mark-none k u end h = (h, tt)
mark-none k u (bad b) h = (h, tt)
mark-none k u (element j v d) h =
    ground (arith, mark-none k (insert text_dec j true u) d h, lookup-insert text_dec j k true u)

pub none-mark :
    (k : String) (u : Used) (d : Raw)
    → lookup text_dec k u ≡ none
    → Lacks k d
    → lookup text_dec k (mark u d) ≡ none
unfolding mark
none-mark k u end h l = h
none-mark k u (bad b) h l = h
none-mark k u (element j v d) h (ne, l) =
    none-mark k (insert text_dec j true u) d (ground (arith, lookup-insert text_dec j k true u)) l
