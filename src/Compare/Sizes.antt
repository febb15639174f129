-- ===== src/Compare/Sizes.antt =====
-- How many mismatches the comparison of two documents collects.
use migration_verifier_docdb.Base.{
  ℕ, ◌+◌, ◌<◌, ◌≤◌, ◌≡◌, ◌⊎◌, inl, inr, refl, Bool, true, false, Option, none, some, List, [], ◌∷◌,
  ◌++◌, String, arith, Outcome, ok, err, length, length-append, Option-cases,
}
use migration_verifier_docdb.Base.Text.{text_dec}
use migration_verifier_docdb.Base.Dict.{insert}
use migration_verifier_docdb.Bson.{
  Raw, end, bad, element, elements, Fields, MismatchDetails, no_details, to_map, unused, any_unused,
  finish, compare_fields, compare_with_details,
}

abbrev pub size : MismatchDetails → ℕ
size d =
    length d.missing_field_on_src + length d.missing_field_on_dst + length d.field_contents_differ

pub size-unused :
    (stop : Bool) (m : Fields) (u : List (String × Bool)) (d : MismatchDetails)
    → size d ≤ size (unused stop m u d)
unfolding unused
size-unused stop [] u d = omega arith
size-unused stop ((k, v) ∷ m) u d =
    let d' = record d { missing_field_on_dst = d.missing_field_on_dst ++ k ∷ [] } in
    ground (
      arith,
      size-unused stop m u d,
      size-unused stop m u d',
      length-append d.missing_field_on_dst (k ∷ []),
    )

pub size-any_unused :
    (stop : Bool) (m : Fields) (u : List (String × Bool)) (d : MismatchDetails)
    → any_unused m u ≡ true
    → size d < size (unused stop m u d)
unfolding unused any_unused
size-any_unused stop [] u d h = cc
size-any_unused stop ((k, v) ∷ m) u d h =
    let d' = record d { missing_field_on_dst = d.missing_field_on_dst ++ k ∷ [] } in
    ground (
      arith,
      size-any_unused stop m u d,
      size-unused stop m u d',
      length-append d.missing_field_on_dst (k ∷ []),
    )

pub finish-size :
    (stop : Bool) (m : Fields) (u : List (String × Bool)) (d d' : MismatchDetails) (any : Bool)
    → finish stop m u d any ≡ some d'
    → (any ≡ true → 0 < size d)
    → 0 < size d'
unfolding finish
finish-size stop m u d d' any h k =
    ground (arith, size-unused stop m u d, size-any_unused stop m u d)

pub compare_fields-size :
    (m : Fields) (u : List (String × Bool)) (d d' : MismatchDetails) (any : Bool) (dst : Raw)
    → compare_fields false m u d any dst ≡ ok (some d')
    → (any ≡ true → 0 < size d)
    → 0 < size d'
unfolding compare_fields
compare_fields-size m u d d' any end h k = finish-size false m u d d' any (cc) k
compare_fields-size m u d d' any (bad b) h k = finish-size false m u d d' any (cc) k
compare_fields-size m u d d' any (element key v rest) h k = ground (
  arith,
  compare_fields-size m u (record d { missing_field_on_src = d.missing_field_on_src ++ key ∷ [] })
      d' true rest,
  compare_fields-size m (insert text_dec key true u) d d' any rest,
  compare_fields-size m (insert text_dec key true u)
      (record d { field_contents_differ = d.field_contents_differ ++ key ∷ [] }) d' true rest,
  length-append d.missing_field_on_src (key ∷ []),
  length-append d.field_contents_differ (key ∷ []),
)

-- A mismatch that is reported names at least one field.
pub compare_with_details-size :
    (src dst : Raw) (d : MismatchDetails) → compare_with_details src dst ≡ ok (some d) → 0 < size d
unfolding compare_with_details
compare_with_details-size src dst d h = elim (Option-cases (elements src)) [
  | inl e ↦ absurd (ground arith)
  | inr (es, e) ↦ ground (arith, compare_fields-size (to_map [] es) [] no_details d false dst)
]

pub Outcome-cases :
    {E A : Type 0} (o : Outcome E (Option A))
    → ((o ≡ ok none) ⊎ ((a : A) × (o ≡ ok (some a)))) ⊎ ((e : E) × (o ≡ err e))
Outcome-cases (ok none) = inl (inl refl)
Outcome-cases (ok (some a)) = inl (inr (a, refl))
Outcome-cases (err e) = inr (e, refl)
