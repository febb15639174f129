-- ===== src/Collection/IndexMaps.antt =====
-- The maps of a collection's indexes by name: no name stands twice in them.
use migration_verifier_docdb.Base.{
  ◌≡◌, ◌≢◌, refl, subst, Bool, true, false, List, [], ◌∷◌, String, arith, ite, if_pos, if_neg,
  Outcome, ok, err, ok-injective, >>=-eq-ok, holds, none, some, Bool-cases, inl, inr,
}
use migration_verifier_docdb.Base.Text.{text_dec}
use migration_verifier_docdb.Base.Dict.{lookup, insert, IsMap, insert-IsMap}
use migration_verifier_docdb.Bson.{Raw, Raw-discrete}
use migration_verifier_docdb.Collection.Specs.{no_raw}
use migration_verifier_docdb.Collection.Indexes.{
  IndexOps, IndexError, Indexes, NameLookup, no_name, bad_name, named, indexes_map, with_id_index,
  normalize_index_spec, normalize_index_specs, normalized_indexes,
}

pub lookup-head : (k : String) (r : Raw) (m : Indexes) → lookup text_dec k ((k, r) ∷ m) ≡ some r
unfolding lookup
lookup-head k r m = if_pos (text_dec k k) refl (some r) (lookup text_dec k m)

pub lookup-tail :
    (j k : String) (r : Raw) (m : Indexes)
    → j ≢ k
    → lookup text_dec k ((j, r) ∷ m) ≡ lookup text_dec k m
unfolding lookup
lookup-tail j k r m n = if_neg (text_dec j k) n (some r) (lookup text_dec k m)

module _ (ops : IndexOps) where
  pub indexes_map-IsMap :
      (specs : List Raw) (m n : Indexes)
      → IsMap text_dec m
      → indexes_map ops specs m ≡ ok n
      → IsMap text_dec n
  unfolding indexes_map
  indexes_map-IsMap [] m n i h = subst (IsMap text_dec) (ok-injective h) i
  indexes_map-IsMap (spec ∷ specs) m n i h =
      by_name (ops.index_name spec) (λ m' i' x. indexes_map-IsMap specs m' n i' x) h
    where
      by_name :
          (k : NameLookup)
          → ((m' : Indexes)
              → IsMap text_dec m'
              → indexes_map ops specs m' ≡ ok n
              → IsMap text_dec n)
          → (elim k as (λ x. Outcome IndexError Indexes) [
            | no_name ↦ err IndexError.unnamed_index
            | bad_name ↦ err IndexError.bad_index_name
            | named k ↦ indexes_map ops specs (insert text_dec k spec m)
          ])
            ≡ ok n
          → IsMap text_dec n
      by_name no_name ih x = absurd (ground arith)
      by_name bad_name ih x = absurd (ground arith)
      by_name (named k) ih x = ih (insert text_dec k spec m) (insert-IsMap text_dec k spec m i) x

  pub with_id_index-IsMap :
      (r : Raw) (m : Indexes) → IsMap text_dec m → IsMap text_dec (with_id_index ops r m)
  unfolding with_id_index
  with_id_index-IsMap r m i = elim (Bool-cases (holds (Raw-discrete r no_raw))) [
    | inl e ↦ rw e i
    | inr e ↦ rw e (insert-IsMap text_dec "_id" r m i)
  ]

  -- Normalizing keeps the names.
  normalize-lookup-none :
      (m n : Indexes) (k : String)
      → normalize_index_specs ops m ≡ ok n
      → lookup text_dec k m ≡ none
      → lookup text_dec k n ≡ none
  unfolding normalize_index_specs lookup
  normalize-lookup-none [] n k h e = subst (λ o. lookup text_dec k o ≡ none) (ok-injective h) refl
  normalize-lookup-none ((j, s) ∷ m) n k h e =
      let (t, p, x) = >>=-eq-ok (normalize_index_spec ops s) _ h in
      let (o, q, y) = >>=-eq-ok (normalize_index_specs ops m) _ x in
      subst (λ u. lookup text_dec k u ≡ none) (ok-injective y)
        (by_key o t (text_dec j k) (λ r. normalize-lookup-none m o k q r) e)
    where
      by_key :
          (o : Indexes) (t : Raw) (d : Dec (j ≡ k))
          → (lookup text_dec k m ≡ none → lookup text_dec k o ≡ none)
          → ite d (some s) (lookup text_dec k m) ≡ none
          → ite d (some t) (lookup text_dec k o) ≡ none
      by_key o t (yes p) ih x = absurd (ground arith)
      by_key o t (no p) ih x = ih x

  normalize-IsMap :
      (m n : Indexes) → normalize_index_specs ops m ≡ ok n → IsMap text_dec m → IsMap text_dec n
  unfolding normalize_index_specs
  normalize-IsMap [] n h i = subst (IsMap text_dec) (ok-injective h) tt
  normalize-IsMap ((j, s) ∷ m) n h (e, i) =
      let (t, p, x) = >>=-eq-ok (normalize_index_spec ops s) _ h in
      let (o, q, y) = >>=-eq-ok (normalize_index_specs ops m) _ x in
      subst (IsMap text_dec) (ok-injective y)
        (normalize-lookup-none m o j q e, normalize-IsMap m o q i)

  pub normalized-IsMap :
      (b : Bool) (m n : Indexes)
      → normalized_indexes ops b m ≡ ok n
      → IsMap text_dec m
      → IsMap text_dec n
  normalized-IsMap true m n h i = normalize-IsMap m n h i
  normalized-IsMap false m n h i = subst (IsMap text_dec) (ok-injective h) i
