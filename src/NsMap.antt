-- ===== src/NsMap.antt =====
-- nsmap.go: the namespace map between source and destination.
use migration_verifier_docdb.Base.{
  ℕ, ◌≡◌, ◌↔◌, refl, Option, none, some, List, [], ◌∷◌, String, arith, length, Outcome, ok, err,
  if◌then◌else◌, ◌==◌, zero, suc, get_elem?, ok-injective, >>=-eq-ok, ◌>>=◌, subst,
}
use mathlib.Core.Path.{subst₂}
use mathlib.Core.Option.{some-injective}
use migration_verifier_docdb.Base.Text.{text_dec}
use migration_verifier_docdb.Base.Dict.{lookup, insert, lookup-insert, length-insert_new}

pub record NsMap : Type 0 where
  pub src_dst_ns_map : List (String × String)
  pub dst_src_ns_map : List (String × String)

-- The panics of nsmap.go.
pub data Panic : Type 0 where
  length_mismatch : Panic
  source_exists destination_exists : String → Panic

unfoldable pub new_ns_map : NsMap
new_ns_map = record { src_dst_ns_map = []; dst_src_ns_map = [] }

-- One round of the loop of PopulateWithNamespaces.
unfoldable pub add_pair : String → String → NsMap → Outcome Panic NsMap
add_pair src dst m = elim (lookup text_dec src m.src_dst_ns_map) [
  | some _ ↦ err (source_exists src)
  | none ↦ elim (lookup text_dec dst m.dst_src_ns_map) [
    | some _ ↦ err (destination_exists dst)
    | none ↦ ok (record {
      src_dst_ns_map = insert text_dec src dst m.src_dst_ns_map;
      dst_src_ns_map = insert text_dec dst src m.dst_src_ns_map;
    })
  ]
]

unfoldable pub add_pairs : List String → List String → NsMap → Outcome Panic NsMap
unfolding add_pair
add_pairs [] ds m = ok m
add_pairs (s ∷ ss) [] m = ok m
add_pairs (s ∷ ss) (d ∷ ds) m = add_pair s d m >>= λ m'. add_pairs ss ds m'

-- PopulateWithNamespaces.
unfoldable pub populate_with_namespaces : List String → List String → NsMap → Outcome Panic NsMap
unfolding add_pairs
populate_with_namespaces ss ds m =
    if length ss == length ds then add_pairs ss ds m else err length_mismatch

unfoldable pub get_dst_namespace : NsMap → String → Option String
get_dst_namespace m src = lookup text_dec src m.src_dst_ns_map

unfoldable pub get_src_namespace : NsMap → String → Option String
get_src_namespace m dst = lookup text_dec dst m.dst_src_ns_map

-- NSMap.Len.
unfoldable pub len : NsMap → Outcome Panic ℕ
len m =
    if length m.src_dst_ns_map == length m.dst_src_ns_map
    then ok (length m.src_dst_ns_map)
    else err length_mismatch

-- The two maps are inverse to one another, and of one size.
pub record IsInverse (m : NsMap) : Type 0 where
  pub back : (s d : String) → (get_dst_namespace m s ≡ some d) ↔ (get_src_namespace m d ≡ some s)
  pub size : length m.src_dst_ns_map ≡ length m.dst_src_ns_map

add_pair-IsInverse :
    (s d : String) (m m' : NsMap) → IsInverse m → add_pair s d m ≡ ok m' → IsInverse m'
unfolding add_pair get_dst_namespace get_src_namespace
add_pair-IsInverse s d m m' v h = record {
  back = λ a b. (
    ground (
      arith,
      (v.back a b).0,
      (v.back a d).0,
      (v.back s b).0,
      lookup-insert text_dec s a d m.src_dst_ns_map,
      lookup-insert text_dec d b s m.dst_src_ns_map,
    ),
    ground (
      arith,
      (v.back a b).1,
      (v.back a d).1,
      (v.back s b).1,
      lookup-insert text_dec s a d m.src_dst_ns_map,
      lookup-insert text_dec d b s m.dst_src_ns_map,
    ),
  );
  size = ground (
    arith,
    v.size,
    length-insert_new text_dec s d m.src_dst_ns_map,
    length-insert_new text_dec d s m.dst_src_ns_map,
  );
}

add_pairs-IsInverse :
    (ss ds : List String) (m m' : NsMap) → IsInverse m → add_pairs ss ds m ≡ ok m' → IsInverse m'
unfolding add_pairs
add_pairs-IsInverse [] ds m m' v h = subst IsInverse (ok-injective h) v
add_pairs-IsInverse (s ∷ ss) [] m m' v h = subst IsInverse (ok-injective h) v
add_pairs-IsInverse (s ∷ ss) (d ∷ ds) m m' v h =
    let (m₁, e₁, e₂) = >>=-eq-ok (add_pair s d m) (add_pairs ss ds) h in
    add_pairs-IsInverse ss ds m₁ m' (add_pair-IsInverse s d m m₁ v e₁) e₂

-- A pair that is in the map stays there.
add_pair_keeps :
    (s d a b : String) (m m' : NsMap)
    → get_dst_namespace m a ≡ some b
    → add_pair s d m ≡ ok m'
    → get_dst_namespace m' a ≡ some b
unfolding add_pair get_dst_namespace
add_pair_keeps s d a b m m' g h = ground (arith, lookup-insert text_dec s a d m.src_dst_ns_map)

add_pair_adds :
    (s d : String) (m m' : NsMap) → add_pair s d m ≡ ok m' → get_dst_namespace m' s ≡ some d
unfolding add_pair get_dst_namespace
add_pair_adds s d m m' h = ground (arith, lookup-insert text_dec s s d m.src_dst_ns_map)

add_pairs_keeps :
    (ss ds : List String) (a b : String) (m m' : NsMap)
    → get_dst_namespace m a ≡ some b
    → add_pairs ss ds m ≡ ok m'
    → get_dst_namespace m' a ≡ some b
unfolding add_pairs
add_pairs_keeps [] ds a b m m' g h = subst (λ x. get_dst_namespace x a ≡ some b) (ok-injective h) g
add_pairs_keeps (s ∷ ss) [] a b m m' g h =
    subst (λ x. get_dst_namespace x a ≡ some b) (ok-injective h) g
add_pairs_keeps (s ∷ ss) (d ∷ ds) a b m m' g h =
    let (m₁, e₁, e₂) = >>=-eq-ok (add_pair s d m) (add_pairs ss ds) h in
    add_pairs_keeps ss ds a b m₁ m' (add_pair_keeps s d a b m m₁ g e₁) e₂

add_pairs_gets :
    (ss ds : List String) (i : ℕ) (a b : String) (m m' : NsMap)
    → get_elem? ss i ≡ some a
    → get_elem? ds i ≡ some b
    → add_pairs ss ds m ≡ ok m'
    → get_dst_namespace m' a ≡ some b
unfolding add_pairs
add_pairs_gets [] ds i a b m m' p q h = cc
add_pairs_gets (s ∷ ss) [] i a b m m' p q h = cc
add_pairs_gets (s ∷ ss) (d ∷ ds) zero a b m m' p q h =
    let (m₁, e₁, e₂) = >>=-eq-ok (add_pair s d m) (add_pairs ss ds) h in
    add_pairs_keeps ss ds a b m₁ m'
      (subst₂ (λ x y. get_dst_namespace m₁ x ≡ some y) (some-injective s a p) (some-injective d b q)
        (add_pair_adds s d m m₁ e₁))
      e₂
add_pairs_gets (s ∷ ss) (d ∷ ds) (suc i) a b m m' p q h =
    let (m₁, e₁, e₂) = >>=-eq-ok (add_pair s d m) (add_pairs ss ds) h in
    add_pairs_gets ss ds i a b m₁ m' p q e₂

new-IsInverse : IsInverse new_ns_map
unfolding new_ns_map get_dst_namespace get_src_namespace lookup
new-IsInverse = record { back = λ s d. ((λ h. cc), (λ h. cc)); size = refl }

-- A map that was filled without a panic pairs the namespaces position by position, in both
-- directions; its two halves are inverse to one another and of one size, so that `len` does not
-- panic.
pub populate-roundtrip :
    (ss ds : List String) (m : NsMap) (i : ℕ) (s d : String)
    → populate_with_namespaces ss ds new_ns_map ≡ ok m
    → get_elem? ss i ≡ some s
    → get_elem? ds i ≡ some d
    → (get_dst_namespace m s ≡ some d)
      × (get_src_namespace m d ≡ some s)
      × ((a b : String) → (get_dst_namespace m a ≡ some b) ↔ (get_src_namespace m b ≡ some a))
      × (len m ≡ ok (length m.src_dst_ns_map))
unfolding populate_with_namespaces len
populate-roundtrip ss ds m i s d h p q =
    let filled : add_pairs ss ds new_ns_map ≡ ok m = ground arith in
    let v = add_pairs-IsInverse ss ds new_ns_map m new-IsInverse filled in
    let g = add_pairs_gets ss ds i s d new_ns_map m p q filled in
    (g, (v.back s d).0 g, v.back, ground (arith, v.size))
