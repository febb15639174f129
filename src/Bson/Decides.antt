-- ===== src/Bson/Decides.antt =====
-- The comparison of bson_compare.go decides the relation of Same.antt.
use migration_verifier_docdb.Base.{
  ok, ◌≡◌, ◌≢◌, ◌↔◌, refl, sym, ◌∙◌, true, false, none, some, [], ◌∷◌, String, arith, length,
  Option-cases, inl, inr, ap,
}
use migration_verifier_docdb.Base.Text.{text_dec}
use migration_verifier_docdb.Base.Dict.{lookup, insert}
use migration_verifier_docdb.Bson.Types.{
  Scalar, Value, leaf, document, array, Raw, end, bad, element, elements,
}
use migration_verifier_docdb.Bson.Unordered.{
  no_details, Fields, to_map, leaf_equal, finish, compare_fields, compare_value, compare_items,
  compare_document,
}
use migration_verifier_docdb.Bson.Used.{
  Used, Within, finish-none, none-finish, any_unused-lookup, lookup-any_unused,
}
use migration_verifier_docdb.Bson.Same.{
  last_value, lookup-to_map, to_map-IsMap, Lacks, Same, SameFields, SameItems, SameDocument, mark,
  mark-IsMap, mark-none, none-mark,
}

leaf_sound : (s : Value) (t : Scalar) (b : _) → leaf_equal s t b ≡ true → s ≡ leaf t b
unfolding leaf_equal
leaf_sound (leaf t' b') t b h = ground arith
leaf_sound (document r) t b h = cc
leaf_sound (array r) t b h = cc

leaf_complete : (s : Value) (t : Scalar) (b : _) → s ≡ leaf t b → leaf_equal s t b ≡ true
unfolding leaf_equal
leaf_complete (leaf t' b') t b h = ground arith
leaf_complete (document r) t b h = cc
leaf_complete (array r) t b h = cc

abbrev map_of : Fields → Fields
map_of es = to_map [] es

map_of-lookup : (k : String) (es : Fields) → lookup text_dec k (map_of es) ≡ last_value k es
unfolding lookup
map_of-lookup k es = ground (arith, lookup-to_map k [] es)

SameFields-Lacks :
    (es : Fields) (d : Raw) (k : String) → SameFields es d → last_value k es ≡ none → Lacks k d
unfolding SameFields
SameFields-Lacks es end k f e = tt
SameFields-Lacks es (bad b) k f e = tt
SameFields-Lacks es (element j v d) k ((sv, found, _), f) e =
    ((λ p. cc (ap (λ i. last_value i es) p)), SameFields-Lacks es d k f e)

mark-Within : (es : Fields) (d : Raw) → SameFields es d → Within (mark [] d) (map_of es)
unfolding lookup
mark-Within es d f k e =
    none-mark k [] d refl (SameFields-Lacks es d k f (sym (map_of-lookup k es) ∙ e))

covered :
    (es : Fields) (d : Raw)
    → SameFields es d
    → finish true (map_of es) (mark [] d) no_details false ≡ none
    → (k : String) → Lacks k d
    → last_value k es ≡ none
unfolding lookup
covered es d f h k l =
    sym (map_of-lookup k es)
    ∙ any_unused-lookup (map_of es) (mark [] d) k
        (finish-none true (map_of es) (mark [] d) no_details (to_map-IsMap [] es tt)
          (mark-IsMap [] d tt) (mark-Within es d f) h)
        (none-mark k [] d refl l)

covered-finish :
    (es : Fields) (d : Raw)
    → ((k : String) → Lacks k d → last_value k es ≡ none)
    → finish true (map_of es) (mark [] d) no_details false ≡ none
unfolding lookup
covered-finish es d h = none-finish true (map_of es) (mark [] d) no_details (
    lookup-any_unused (map_of es) (mark [] d) (to_map-IsMap [] es tt)
      (λ k e. map_of-lookup k es ∙ h k (mark-none k [] d e).1))

no_items :
    (ds : Fields) (k : String) (v : Value) (d : Raw)
    → elements (element k v d) ≡ some ds
    → length ds ≢ 0
unfolding elements
no_items ds k v d p = λ q. ground arith

mutual
  unfolding compare_value compare_fields compare_items Same SameFields SameItems mark elements

  sound_value : (s v : Value) → compare_value s v ≡ ok true → Same s v
  sound_value s (leaf t b) h = leaf_sound s t b (cc)
  sound_value (leaf t b) (document d) h = cc
  sound_value (array r) (document d) h = cc
  sound_value (document r) (document d) h = elim (Option-cases (elements r)) [
    | inl e ↦ ground arith
    | inr (es, e) ↦ elim (Option-cases (elements d)) [
      | inl e' ↦ ground arith
      | inr (ds, e') ↦
          let (f, w) = sound_fields es [] d (ground arith) in
          (r, refl, (es, e, (ds, e', f, covered es d f w)))
    ]
  ]
  sound_value (leaf t b) (array d) h = cc
  sound_value (document r) (array d) h = cc
  sound_value (array r) (array d) h = elim (Option-cases (elements r)) [
    | inl e ↦ ground arith
    | inr (es, e) ↦ elim (Option-cases (elements d)) [
      | inl e' ↦ ground arith
      | inr (ds, e') ↦ (
        r,
        refl,
        (es, e, (ds, e', ground arith, sound_items es ds d e' (ground arith) (ground arith))),
      )
    ]
  ]

  sound_fields :
      (es : Fields) (u : Used) (d : Raw)
      → compare_fields true (map_of es) u no_details false d ≡ ok none
      → SameFields es d × (finish true (map_of es) (mark u d) no_details false ≡ none)
  sound_fields es u end h = (tt, cc)
  sound_fields es u (bad b) h = (tt, cc)
  sound_fields es u (element k v d) h = elim (Option-cases (lookup text_dec k (map_of es))) [
    | inl e ↦ ground arith
    | inr (sv, e) ↦
        let (f, w) = sound_fields es (insert text_dec k true u) d (ground arith) in
        (((sv, sym (map_of-lookup k es) ∙ e, sound_value sv v (ground arith)), f), w)
  ]

  sound_items :
      (es ds : Fields) (d : Raw)
      → elements d ≡ some ds
      → length es ≡ length ds
      → compare_items es d ≡ ok true
      → SameItems es d
  sound_items es ds end p l h = tt
  sound_items es ds (bad b) p l h = tt
  sound_items [] ds (element k v d) p l h = absurd (no_items ds k v d p (sym l))
  sound_items ((j, sv) ∷ es) ds (element k v d) p l h = elim (Option-cases (elements d)) [
    | inl e ↦ ground arith
    | inr (ds', e) ↦ elim (text_dec j k) [
      | no q ↦ absurd (ground arith)
      | yes q ↦
          (q, sound_value sv v (ground arith), sound_items es ds' d e (ground arith) (ground arith))
    ]
  ]

mutual
  unfolding compare_value compare_fields compare_items Same SameFields SameItems mark elements

  complete_value : (s v : Value) → Same s v → compare_value s v ≡ ok true
  complete_value s (leaf t b) h = ap ok (leaf_complete s t b h)
  complete_value s (document d) (r, p, (es, e, (ds, e', f, w))) =
      let done = complete_fields es [] d f (covered-finish es d w) in ground arith
  complete_value s (array d) (r, p, (es, e, (ds, e', l, f))) =
      let done = complete_items es d f in ground arith

  complete_fields :
      (es : Fields) (u : Used) (d : Raw)
      → SameFields es d
      → finish true (map_of es) (mark u d) no_details false ≡ none
      → compare_fields true (map_of es) u no_details false d ≡ ok none
  complete_fields es u end f w = ap ok w
  complete_fields es u (bad b) f w = ap ok w
  complete_fields es u (element k v d) ((sv, e, same), f) w =
      let rest = complete_fields es (insert text_dec k true u) d f w in
      let here = complete_value sv v same in ground (arith, map_of-lookup k es)

  complete_items : (es : Fields) (d : Raw) → SameItems es d → compare_items es d ≡ ok true
  complete_items es end f = refl
  complete_items es (bad b) f = refl
  complete_items [] (element k v d) f = refl
  complete_items ((j, sv) ∷ es) (element k v d) (p, same, f) =
      let rest = complete_items es d f in let here = complete_value sv v same in ground arith

sound : (src dst : Raw) → compare_document src dst ≡ ok true → SameDocument src dst
unfolding compare_document SameDocument
sound src dst h = elim (Option-cases (elements src)) [
  | inl e ↦ absurd (ground arith)
  | inr (es, e) ↦ elim (Option-cases (elements dst)) [
    | inl e' ↦ absurd (ground arith)
    | inr (ds, e') ↦
        let (f, w) = sound_fields es [] dst (ground arith) in
        (es, e, (ds, e', f, covered es dst f w))
  ]
]

complete : (src dst : Raw) → SameDocument src dst → compare_document src dst ≡ ok true
unfolding compare_document SameDocument
complete src dst (es, e, (ds, e', f, w)) =
    let done = complete_fields es [] dst f (covered-finish es dst w) in ground arith

-- The comparison answers that two documents match exactly if they parse and hold the same fields
-- with the same values, whatever the order of the fields at any depth; array items keep their order.
pub compare_document-decides :
    (src dst : Raw) → (compare_document src dst ≡ ok true) ↔ SameDocument src dst
compare_document-decides src dst = (sound src dst, complete src dst)
