-- ===== src/Compare/Memory.antt =====
-- The comparator's count of cached bytes (comparator.go) is exact while no side shows a key twice.
use migration_verifier_docdb.Base.{
  ℕ, suc, ◌+◌, ◌%◌, ◌≡◌, refl, sym, ◌∙◌, Bool, true, false, Option, none, some, List, [], ◌∷◌, ◌++◌,
  String, arith, if◌then◌else◌, ok, length, Option-cases, inl, inr, >>=-eq-ok, ok-injective, subst,
}
use migration_verifier_docdb.Base.Dict.{lookup, insert, delete, IsMap, insert-IsMap, delete-IsMap}
use migration_verifier_docdb.Base.Words.{word, add64, sub64, sub64-add64}
use migration_verifier_docdb.Bson.{bytes_dec}
use migration_verifier_docdb.Compare.Types.{Key, Result, DocWithTs, CompareOps, wrap}
use migration_verifier_docdb.Compare.Caches.{
  Comparator, Cache, annotate, add_id_lengths, cache_doc, compare_pair, process_keyed,
  process_single_doc,
}
use migration_verifier_docdb.Compare.Pairing.{key_of, process_single_doc-keyed}

unfoldable pub id_lengths : List Result → ℕ
id_lengths [] = 0
id_lengths (r ∷ rs) = length r.id.value + id_lengths rs

id_lengths-append : (rs qs : List Result) → id_lengths (rs ++ qs) ≡ id_lengths rs + id_lengths qs
unfolding id_lengths
id_lengths-append [] qs = omega arith
id_lengths-append (r ∷ rs) qs = omega (arith, id_lengths-append rs qs)

module _ {Doc : Type 0} (ops : CompareOps Doc) where
  unfoldable pub weight : Cache Doc → ℕ
  weight [] = 0
  weight ((k, d) ∷ m) = (length k + ops.doc_len d.doc) + weight m

  weight-insert_new :
      (k : Key) (d : DocWithTs Doc) (m : Cache Doc)
      → lookup bytes_dec k m ≡ none
      → weight (insert bytes_dec k d m) ≡ weight m + (length k + ops.doc_len d.doc)
  unfolding weight lookup insert
  weight-insert_new k d [] h = omega arith
  weight-insert_new k d ((j, w) ∷ m) h = ground (arith, weight-insert_new k d m)

  delete_absent : (k : Key) (m : Cache Doc) → lookup bytes_dec k m ≡ none → delete bytes_dec k m ≡ m
  unfolding lookup delete
  delete_absent k [] h = refl
  delete_absent k ((j, w) ∷ m) h = ground (arith, delete_absent k m)

  weight-delete :
      (k : Key) (d : DocWithTs Doc) (m : Cache Doc)
      → IsMap bytes_dec m
      → lookup bytes_dec k m ≡ some d
      → weight m ≡ weight (delete bytes_dec k m) + (length k + ops.doc_len d.doc)
  unfolding weight lookup delete
  weight-delete k d [] h e = cc
  weight-delete k d ((j, w) ∷ m) (a, h) e = ground (arith, weight-delete k d m h, delete_absent k m)

  -- The count is the size of the cached keys and documents and of the IDs in the problems.
  pub record IsAccounted (c : Comparator Doc) : Type 0 where
    pub src_map : IsMap bytes_dec c.src_cache
    pub dst_map : IsMap bytes_dec c.dst_cache
    pub bytes :
        c.cached_variable_bytes
        ≡ (weight c.src_cache + weight c.dst_cache + id_lengths c.problems) % word

  module _ (namespace : String) (ids : List (Key × ℕ)) where
    id_lengths-annotate :
        (now : ℕ → ℕ) (i : ℕ) (s d : DocWithTs Doc) (rs : List Result)
        → id_lengths (annotate ops namespace ids now i s d rs) ≡ id_lengths rs
    unfolding id_lengths annotate
    id_lengths-annotate now i s d [] = refl
    id_lengths-annotate now i s d (r ∷ rs) = omega (arith, id_lengths-annotate now (suc i) s d rs)

    add_id_lengths_lem :
        (rs : List Result) (a b : ℕ)
        → b ≡ a % word
        → add_id_lengths ops namespace ids rs b ≡ (a + id_lengths rs) % word
    unfolding id_lengths add_id_lengths
    add_id_lengths_lem [] a b h = omega arith
    add_id_lengths_lem (r ∷ rs) a b h =
        let n = length r.id.value in
        omega (arith, add_id_lengths_lem rs (a + n) (add64 b n) (omega arith))

    cache_doc-IsAccounted :
        (side : Bool) (key : Key) (d : DocWithTs Doc) (c : Comparator Doc)
        → IsAccounted c
        → lookup bytes_dec key (if side then c.src_cache else c.dst_cache) ≡ none
        → IsAccounted (cache_doc ops namespace ids side key d c)
    unfolding cache_doc
    cache_doc-IsAccounted true key d c a new = record {
      src_map = insert-IsMap bytes_dec key d c.src_cache a.src_map;
      dst_map = a.dst_map;
      bytes = omega (arith, a.bytes, weight-insert_new key d c.src_cache new);
    }
    cache_doc-IsAccounted false key d c a new = record {
      src_map = a.src_map;
      dst_map = insert-IsMap bytes_dec key d c.dst_cache a.dst_map;
      bytes = omega (arith, a.bytes, weight-insert_new key d c.dst_cache new);
    }

    -- The count after the peer, of weight `w`, leaves its cache and the mismatches come in.
    pair_bytes :
        (ms : List Result) (b x w : ℕ)
        → b ≡ (x + w) % word
        → add_id_lengths ops namespace ids ms (sub64 b w) ≡ (x + id_lengths ms) % word
    pair_bytes ms b x w h = add_id_lengths_lem ms x (sub64 b w) (sub64-add64 b x w h)

    compare_pair-IsAccounted :
        (now : ℕ → ℕ) (side : Bool) (key : Key) (d their : DocWithTs Doc) (c c' : Comparator Doc)
        → IsAccounted c
        → lookup bytes_dec key (if side then c.dst_cache else c.src_cache) ≡ some their
        → compare_pair ops namespace ids now side key d their c ≡ ok c'
        → IsAccounted c'
    unfolding compare_pair
    compare_pair-IsAccounted now true key d their c c' a e h =
        let (ms, e₁, e₂) = >>=-eq-ok (wrap (ops.compare_one_document d.doc their.doc)) _ h in
        let x =
          weight c.src_cache + weight (delete bytes_dec key c.dst_cache) + id_lengths c.problems in
        let w = length key + ops.doc_len their.doc in
        let fact =
          pair_bytes ms c.cached_variable_bytes x w
            (omega (arith, a.bytes, weight-delete key their c.dst_cache a.dst_map e)) in
        subst IsAccounted (ok-injective e₂) (record {
          src_map = a.src_map;
          dst_map = delete-IsMap bytes_dec key c.dst_cache a.dst_map;
          bytes =
              fact
              ∙ (omega (
                arith,
                id_lengths-append c.problems (annotate ops namespace ids now 0 d their ms),
                id_lengths-annotate now 0 d their ms,
              ));
        })
    compare_pair-IsAccounted now false key d their c c' a e h =
        let (ms, e₁, e₂) = >>=-eq-ok (wrap (ops.compare_one_document their.doc d.doc)) _ h in
        let x =
          weight (delete bytes_dec key c.src_cache) + weight c.dst_cache + id_lengths c.problems in
        let w = length key + ops.doc_len their.doc in
        let fact =
          pair_bytes ms c.cached_variable_bytes x w
            (omega (arith, a.bytes, weight-delete key their c.src_cache a.src_map e)) in
        subst IsAccounted (ok-injective e₂) (record {
          src_map = delete-IsMap bytes_dec key c.src_cache a.src_map;
          dst_map = a.dst_map;
          bytes =
              fact
              ∙ (omega (
                arith,
                id_lengths-append c.problems (annotate ops namespace ids now 0 their d ms),
                id_lengths-annotate now 0 their d ms,
              ));
        })

    -- A document whose own side has not cached its key keeps the count of cached bytes exact modulo 2
    -- ^ 64, whether it is cached or compared with its peer.
    pub process_single_doc-IsAccounted :
        (now : ℕ → ℕ) (side : Bool) (d : DocWithTs Doc) (c c' : Comparator Doc)
        → IsAccounted c
        → lookup bytes_dec (key_of ops d) (if side then c.src_cache else c.dst_cache) ≡ none
        → process_single_doc ops namespace ids now d side c ≡ ok c'
        → IsAccounted c'
    unfolding process_keyed
    process_single_doc-IsAccounted now side d c c' a new h =
        elim (Option-cases (lookup bytes_dec key theirs)) [
          | inl e ↦
              subst IsAccounted (ok-injective (sym (split e) ∙ keyed))
                (cache_doc-IsAccounted side key d c a new)
          | inr (t, e) ↦ compare_pair-IsAccounted now side key d t c c' a e (sym (split e) ∙ keyed)
        ]
      where
        key : Key
        key = key_of ops d

        theirs : Cache Doc
        theirs = if side then c.dst_cache else c.src_cache

        keyed : process_keyed ops namespace ids now d side key c ≡ ok c'
        keyed = process_single_doc-keyed ops namespace ids now side d c c' h

        split :
            {o : Option (DocWithTs Doc)}
            → lookup bytes_dec key theirs ≡ o
            → process_keyed ops namespace ids now d side key c ≡ (elim o [
              | none ↦ ok (cache_doc ops namespace ids side key d c)
              | some t ↦ compare_pair ops namespace ids now side key d t c
            ])
        split e = rw (e, process_keyed)
