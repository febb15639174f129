-- ===== src/Collection/ShardMatch.antt =====
-- When the comparison of two collections' shard keys reports nothing.
use migration_verifier_docdb.Base.{
  ◌≡◌, ◌⊎◌, ◌↔◌, refl, sym, ◌∙◌, ap, subst, Bool, true, false, not, List, [], String, if◌then◌else◌,
  ◌||◌, ok, ok-injective, ◌>>=◌, >>=-eq-ok, holds, Option, none, some, inl, inr,
}
use migration_verifier_docdb.Bson.{Raw, Raw-discrete}
use migration_verifier_docdb.Compare.{Result}
use migration_verifier_docdb.Collection.Sharding.{
  ShardKeys, by_answer, compare_keys, verify_sharding_if_needed,
}

module _ {E : Type 0} (k : ShardKeys E) (src_ns : String) where
  -- Two shard keys match: there are none, they are equal, or the server thinks that they match.
  abbrev pub KeysMatch : Option Raw → Option Raw → Type 0
  KeysMatch none none = Unit
  KeysMatch (some s) (some d) = (s ≡ d) ⊎ (k.server_thinks_these_match s d ≡ ok true)
  KeysMatch _ _ = ⊥

  -- A cluster is not sharded, or the shard keys match.
  abbrev pub SameSharding : Type 0
  SameSharding =
      (k.src_sharded ≡ false)
      ⊎ ((k.dst_sharded ≡ false)
          ⊎ ((s : Option Raw) × (d : Option Raw) × (k.src_key ≡ ok s)
              × (k.dst_key ≡ ok d)
              × KeysMatch s d))

  by_answer-nil : (s d : Raw) (same : Bool) → (by_answer k src_ns s d same ≡ []) ↔ (same ≡ true)
  by_answer-nil s d true = (λ n. refl, λ a. refl)
  by_answer-nil s d false = (λ n. cc, λ a. cc)

  compare_keys-nil :
      (s d : Option Raw) (rs : List Result)
      → compare_keys k src_ns s d ≡ ok rs
      → (rs ≡ []) ↔ KeysMatch s d
  compare_keys-nil none none rs h = (λ n. tt, λ a. sym (ok-injective h))
  compare_keys-nil (some s) none rs h = (λ n. cc, λ a. absurd a)
  compare_keys-nil none (some d) rs h = (λ n. cc, λ a. absurd a)
  compare_keys-nil (some s) (some d) rs h = by_keys (Raw-discrete s d) h
    where
      by_keys :
          (e : Dec (s ≡ d))
          → (if holds e
              then ok []
              else (k.server_thinks_these_match s d >>= λ same. ok (by_answer k src_ns s d same)))
            ≡ ok rs
          → (rs ≡ []) ↔ KeysMatch (some s) (some d)
      by_keys (yes p) x = (λ n. inl p, λ a. sym (ok-injective x))
      by_keys (no q) x =
          let (same, y, z) = >>=-eq-ok (k.server_thinks_these_match s d) _ x in
          let (there, back) = by_answer-nil s d same in
          (
            λ n. inr (y ∙ ap ok (there (ok-injective z ∙ n))),
            λ a. elim a [
              | inl p ↦ absurd (q p)
              | inr e ↦ sym (ok-injective z) ∙ back (ok-injective (sym y ∙ e))
            ],
          )

  -- When verifyShardingIfNeeded succeeds, it reports nothing exactly if a cluster is not sharded, the
  -- collection is sharded on neither, or its shard keys are equal or match for the server.
  pub verify_sharding_if_needed-nil :
      (rs : List Result) → verify_sharding_if_needed k src_ns ≡ ok rs → (rs ≡ []) ↔ SameSharding
  unfolding verify_sharding_if_needed
  verify_sharding_if_needed-nil rs h = by_clusters k.src_sharded k.dst_sharded refl refl h
    where
      by_clusters :
          (a b : Bool)
          → k.src_sharded ≡ a
          → k.dst_sharded ≡ b
          → (if not a || not b
              then ok []
              else (k.src_key >>= λ s. k.dst_key >>= λ d. compare_keys k src_ns s d))
            ≡ ok rs
          → (rs ≡ []) ↔ SameSharding
      by_clusters false b p q x = (λ n. inl p, λ a. sym (ok-injective x))
      by_clusters true false p q x = (λ n. inr (inl q), λ a. sym (ok-injective x))
      by_clusters true true p q x =
          let (s, y, x1) = >>=-eq-ok k.src_key _ x in
          let (d, z, x2) = >>=-eq-ok k.dst_key _ x1 in
          let (there, back) = compare_keys-nil s d rs x2 in
          (
            λ n. inr (inr (s, d, y, z, there n)),
            λ a. elim a [
              | inl e ↦ absurd (cc (p, e))
              | inr (inl e) ↦ absurd (cc (q, e))
              | inr (inr (s', d', y', z', e)) ↦
                  (compare_keys-nil s' d' rs (
                      subst (λ o. compare_keys k src_ns o d' ≡ ok rs) (ok-injective (sym y ∙ y'))
                        (subst (λ o. compare_keys k src_ns s o ≡ ok rs) (ok-injective (sym z ∙ z'))
                          x2))).1
                    e
            ],
          )
