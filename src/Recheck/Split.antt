-- ===== src/Recheck/Split.antt =====
-- SplitArrayByBSONMaxSize of internal/util/bson.go: values in groups of a soft maximal size.
use migration_verifier_docdb.Base.{
  ℕ, ◌<◌, ◌≤◌, ◌≡◌, inl, inr, refl, sym, ◌∙◌, ap, subst, false, List, [], ◌∷◌, ◌++◌, append-nil,
  append_assoc, if◌then◌else◌, leb, leb→le, arith, Outcome, ok, ok-injective, >>=-eq-ok, ◌>>=◌, All,
  All-append, Bool-cases,
}
use migration_verifier_docdb.Compare.{RawValue}
use migration_verifier_docdb.Recheck.Generate.{BsonArraySizer, sizer_add, sizer_len}

abbrev pub flatten : {A : Type 0} → List (List A) → List A
flatten [] = []
flatten (g ∷ gs) = g ++ flatten gs

abbrev empty_sizer : BsonArraySizer
empty_sizer = record { elems_size = 0; count = 0 }

-- The variables of SplitArrayByBSONMaxSize.
record Splitting (A : Type 0) : Type 0 where
  groups : List (List A)
  cur_group : List A
  sizer : BsonArraySizer

-- The group that is left over.
abbrev last_group : {A : Type 0} → List A → List (List A)
last_group [] = []
last_group (x ∷ xs) = (x ∷ xs) ∷ []

module _ {E A : Type 0} (convert : A → Outcome E RawValue) (soft_max_size : ℕ) where
  -- A round of its loop, after the value's conversion.
  unfoldable split_round : A → RawValue → Splitting A → Splitting A
  split_round x v st =
      if leb soft_max_size (sizer_len (sizer_add v st.sizer))
      then record {
        groups = st.groups ++ (st.cur_group ++ x ∷ []) ∷ [];
        cur_group = [];
        sizer = empty_sizer;
      }
      else record st { cur_group = st.cur_group ++ x ∷ []; sizer = sizer_add v st.sizer }

  unfoldable split_ids : List A → Splitting A → Outcome E (List (List A))
  split_ids [] st = ok (st.groups ++ last_group st.cur_group)
  split_ids (x ∷ xs) st = convert x >>= λ v. split_ids xs (split_round x v st)

  unfoldable pub split_array_by_bson_max_size : List A → Outcome E (List (List A))
  unfolding split_ids split_round
  split_array_by_bson_max_size ids =
      split_ids ids (record { groups = []; cur_group = []; sizer = empty_sizer })

  -- The sizer after values of an array.
  abbrev sized : List A → BsonArraySizer → Outcome E BsonArraySizer
  sized [] b = ok b
  sized (x ∷ xs) b = convert x >>= λ v. sized xs (sizer_add v b)

  -- Values whose array is shorter than the soft maximum.
  abbrev pub IsShort : List A → Type 0
  IsShort g = (b : BsonArraySizer) × (sized g empty_sizer ≡ ok b) × (sizer_len b < soft_max_size)

  -- Values whose array is not shorter, but would be without the last one.
  abbrev pub IsFull : List A → Type 0
  IsFull g =
      (xs : List A) × (x : A) × (b : BsonArraySizer) × (g ≡ xs ++ x ∷ [])
      × IsShort xs
      × (sized g empty_sizer ≡ ok b)
      × (soft_max_size ≤ sizer_len b)

  sized-snoc :
      (xs : List A) (x : A) (v : RawValue) (a b : BsonArraySizer)
      → sized xs a ≡ ok b
      → convert x ≡ ok v
      → sized (xs ++ x ∷ []) a ≡ ok (sizer_add v b)
  sized-snoc [] x v a b h c =
      ap (λ m. m >>= λ w. ok (sizer_add w a)) c ∙ ap (λ d. ok (sizer_add v d)) (ok-injective h)
  sized-snoc (y ∷ ys) x v a b h c =
      let (w, p, q) = >>=-eq-ok (convert y) (λ w. sized ys (sizer_add w a)) h in
      ap (λ m. m >>= λ w. sized (ys ++ x ∷ []) (sizer_add w a)) p
      ∙ sized-snoc ys x v (sizer_add w a) b q c

  flatten-snoc : (gs : List (List A)) (g : List A) → flatten (gs ++ g ∷ []) ≡ flatten gs ++ g
  flatten-snoc [] g = append-nil g
  flatten-snoc (h ∷ hs) g =
      ap (λ ys. h ++ ys) (flatten-snoc hs g) ∙ sym (append_assoc h (flatten hs) g)

  -- The groups of some values: full ones, and a short one that is left over.
  abbrev pub IsSplit : List A → List (List A) → Type 0
  IsSplit ids gs =
      (full : List (List A)) × (rest : List A) × (gs ≡ full ++ last_group rest)
      × (flatten full ++ rest ≡ ids)
      × All IsFull full
      × IsShort rest

  -- The loop's state after some values.
  IsSplitting : List A → Splitting A → Type 0
  IsSplitting seen st =
      (flatten st.groups ++ st.cur_group ≡ seen)
      × All IsFull st.groups
      × (sized st.cur_group empty_sizer ≡ ok st.sizer)
      × (sizer_len st.sizer < soft_max_size)

  module _ (roomy : 5 < soft_max_size) where
    empty_short : sizer_len empty_sizer < soft_max_size
    unfolding sizer_len
    empty_short = roomy

    leb-false : (a b : ℕ) → leb a b ≡ false → b < a
    leb-false a b e = ground arith

    split_round-IsSplitting :
        (seen : List A) (x : A) (v : RawValue) (st : Splitting A)
        → convert x ≡ ok v
        → IsSplitting seen st
        → IsSplitting (seen ++ x ∷ []) (split_round x v st)
    unfolding split_round IsSplitting
    split_round-IsSplitting seen x v st c (s, f, z, b) =
        let longer = sized-snoc st.cur_group x v empty_sizer st.sizer z c in
        let joined =
          sym (append_assoc (flatten st.groups) st.cur_group (x ∷ []))
          ∙ ap (λ ys. ys ++ x ∷ []) s in
        elim (Bool-cases (leb soft_max_size (sizer_len (sizer_add v st.sizer)))) [
          | inl e ↦ rw e (
            append-nil _ ∙ flatten-snoc st.groups (st.cur_group ++ x ∷ []) ∙ joined,
            All-append IsFull st.groups _ f (
              (st.cur_group, x, sizer_add v st.sizer, refl, (st.sizer, z, b), longer, leb→le _ _ e),
              tt,
            ),
            refl,
            empty_short,
          )
          | inr e ↦ rw e (joined, f, longer, leb-false _ _ e)
        ]

    start-IsSplitting : IsSplitting [] (record { groups = []; cur_group = []; sizer = empty_sizer })
    unfolding IsSplitting
    start-IsSplitting = (refl, tt, refl, empty_short)

    split_ids-IsSplit :
        (seen ids : List A) (st : Splitting A)
        → IsSplitting seen st
        → All (λ x. (v : RawValue) × (convert x ≡ ok v)) ids
        → (gs : List (List A)) × (split_ids ids st ≡ ok gs) × IsSplit (seen ++ ids) gs
    unfolding split_ids IsSplitting
    split_ids-IsSplit seen [] st (s, f, z, b) a = (
      st.groups ++ last_group st.cur_group,
      refl,
      (st.groups, st.cur_group, refl, s ∙ sym (append-nil seen), f, (st.sizer, z, b)),
    )
    split_ids-IsSplit seen (x ∷ xs) st i ((v, c), a) =
        let (gs, p, q) =
          split_ids-IsSplit (seen ++ x ∷ []) xs (split_round x v st)
            (split_round-IsSplitting seen x v st c i) a in
        (
          gs,
          ap (λ m. m >>= λ w. split_ids xs (split_round x w st)) c ∙ p,
          subst (λ ys. IsSplit ys gs) (append_assoc seen (x ∷ []) xs) q,
        )

-- Where the soft maximum leaves room for more than an empty array and each value can be converted,
-- SplitArrayByBSONMaxSize succeeds. Its groups hold the values in order; each group but a last one
-- reaches the maximum as an array and would not without its last value; the last one is below it.
pub split_array_by_bson_max_size-IsSplit :
    {E A : Type 0} (convert : A → Outcome E RawValue) (soft_max_size : ℕ) (ids : List A)
    → 5 < soft_max_size
    → All (λ x. (v : RawValue) × (convert x ≡ ok v)) ids
    → (gs : List (List A)) × (split_array_by_bson_max_size convert soft_max_size ids ≡ ok gs)
      × IsSplit convert soft_max_size ids gs
unfolding split_array_by_bson_max_size
split_array_by_bson_max_size-IsSplit convert soft_max_size ids roomy a =
    split_ids-IsSplit convert soft_max_size roomy [] ids
      (record { groups = []; cur_group = []; sizer = empty_sizer })
      (start-IsSplitting convert soft_max_size roomy) a
