-- ===== src/Bson/Used.antt =====
-- The set of used keys in bsonUnorderedCompareRawElements (bson_compare.go): the two maps have the
-- same size exactly if every source key was used.
use migration_verifier_docdb.Base.{
  ℕ, suc, ◌+◌, ◌≡◌, refl, Bool, false, none, some, List, [], ◌∷◌, String, arith, length,
  Option-cases, inl, inr, subst,
}
use migration_verifier_docdb.Base.Text.{text_dec}
use migration_verifier_docdb.Base.Dict.{lookup, delete, IsMap, lookup-delete, delete-IsMap}
use migration_verifier_docdb.Bson.Types.{Value}
use migration_verifier_docdb.Bson.Unordered.{Fields, any_unused, finish, MismatchDetails}

abbrev pub Used : Type 0
Used = List (String × Bool)

length-delete_absent :
    (k : String) (u : Used) → lookup text_dec k u ≡ none → delete text_dec k u ≡ u
unfolding lookup delete
length-delete_absent k [] h = refl
length-delete_absent k ((j, b) ∷ u) h = ground (arith, length-delete_absent k u)

length-delete :
    (k : String) (u : Used) {b : Bool}
    → IsMap text_dec u
    → lookup text_dec k u ≡ some b
    → length u ≡ suc (length (delete text_dec k u))
unfolding lookup delete
length-delete k [] h e = ground arith
length-delete k ((j, c) ∷ u) {b} (a, h) e =
    ground (arith, length-delete k u {b = b} h, length-delete_absent k u)

unfoldable pub count_unused : Fields → Used → ℕ
count_unused [] u = 0
count_unused ((k, v) ∷ m) u = elim (lookup text_dec k u) [
  | some _ ↦ count_unused m u
  | none ↦ suc (count_unused m u)
]

count_unused-delete :
    (k : String) (m : Fields) (u : Used)
    → lookup text_dec k m ≡ none
    → count_unused m (delete text_dec k u) ≡ count_unused m u
unfolding lookup count_unused
count_unused-delete k [] u h = refl
count_unused-delete k ((j, v) ∷ m) u h =
    ground (arith, lookup-delete text_dec k j u, count_unused-delete k m u)

-- Every used key is a key of the map.
abbrev pub Within : Used → Fields → Type 0
Within u m = (k : String) → lookup text_dec k m ≡ none → lookup text_dec k u ≡ none

Within-nil : (u : Used) → Within u [] → length u ≡ 0
unfolding lookup
Within-nil [] h = refl
Within-nil ((k, b) ∷ u) h = ground (arith, h k)

Within-delete :
    (k : String) (v : Value) (m : Fields) (u : Used)
    → Within u ((k, v) ∷ m)
    → Within (delete text_dec k u) m
unfolding lookup
Within-delete k v m u h j e = ground (arith, h j, lookup-delete text_dec k j u)

pub length-count_unused :
    (m : Fields) (u : Used)
    → IsMap text_dec m
    → IsMap text_dec u
    → Within u m
    → length m ≡ length u + count_unused m u
unfolding count_unused
length-count_unused [] u hm hu w = omega (arith, Within-nil u w)
length-count_unused ((k, v) ∷ m) u (a, hm) hu w =
    let ih =
      length-count_unused m (delete text_dec k u) hm (delete-IsMap text_dec k u hu)
        (Within-delete k v m u w) in
    elim (Option-cases (lookup text_dec k u)) [
      | inl e ↦ ground (arith, ih, count_unused-delete k m u a, length-delete_absent k u e)
      | inr (b, e) ↦ ground (arith, ih, count_unused-delete k m u a, length-delete k u hu e)
    ]

any_unused-count : (m : Fields) (u : Used) → count_unused m u ≡ 0 → any_unused m u ≡ false
unfolding count_unused any_unused
any_unused-count [] u h = refl
any_unused-count ((k, v) ∷ m) u h = ground (arith, any_unused-count m u)

count-any_unused : (m : Fields) (u : Used) → any_unused m u ≡ false → count_unused m u ≡ 0
unfolding count_unused any_unused
count-any_unused [] u h = refl
count-any_unused ((k, v) ∷ m) u h = ground (arith, count-any_unused m u)

-- The short cut by sizes changes nothing: `finish` reports no mismatch exactly if none was found
-- before and no source key is unused.
pub finish-none :
    (stop : Bool) (m : Fields) (u : Used) (d : MismatchDetails)
    → IsMap text_dec m
    → IsMap text_dec u
    → Within u m
    → finish stop m u d false ≡ none
    → any_unused m u ≡ false
unfolding finish
finish-none stop m u d hm hu w h =
    ground (arith, length-count_unused m u hm hu w, any_unused-count m u)

pub none-finish :
    (stop : Bool) (m : Fields) (u : Used) (d : MismatchDetails)
    → any_unused m u ≡ false
    → finish stop m u d false ≡ none
unfolding finish
none-finish stop m u d h = ground arith

-- A key that is not used is no key of the map.
pub any_unused-lookup :
    (m : Fields) (u : Used) (k : String)
    → any_unused m u ≡ false
    → lookup text_dec k u ≡ none
    → lookup text_dec k m ≡ none
unfolding lookup any_unused
any_unused-lookup [] u k h e = refl
any_unused-lookup ((j, v) ∷ m) u k h e = ground (arith, any_unused-lookup m u k)

pub lookup-any_unused :
    (m : Fields) (u : Used)
    → IsMap text_dec m
    → ((k : String) → lookup text_dec k u ≡ none → lookup text_dec k m ≡ none)
    → any_unused m u ≡ false
unfolding lookup any_unused
lookup-any_unused [] u hm h = refl
lookup-any_unused ((j, v) ∷ m) u (a, hm) h = ground (
  arith,
  h j,
  lookup-any_unused m u hm (λ k e. elim (text_dec j k) [
    | yes p ↦ subst (λ i. lookup text_dec i m ≡ none) p a
    | no p ↦ ground (arith, h k)
  ]),
)
