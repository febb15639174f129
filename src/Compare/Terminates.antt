-- ===== src/Compare/Terminates.antt =====
-- The comparator's loop ends (compare.go): the fuel of `run` is never used up.
use migration_verifier_docdb.Base.{
  ℕ, zero, suc, ◌+◌, ◌<◌, ◌≤◌, ◌≡◌, ◌≢◌, refl, Bool, true, false, none, List, [], ◌∷◌, ◌++◌, String,
  arith, if◌then◌else◌, ◌∙◌, ok, err, Bool-cases, inl, inr,
}
use migration_verifier_docdb.Compare.Types.{Key, out_of_fuel, DocWithTs, CompareOps}
use migration_verifier_docdb.Compare.Caches.{Comparator, new_comparator, process_single_doc}
use migration_verifier_docdb.Compare.Flush.{flush, flush_if_needed}
use migration_verifier_docdb.Compare.Run.{
  Channel, remaining, read_src, read_dst, read_batches, still_reading, interleave, run_round,
  run_loop, run,
}
use migration_verifier_docdb.Compare.Ends.{
  SameFlags, Ends, Ends->>=, Ends-not, Ends-weaken, left, holds_open, read_dst-Ends,
  process_single_doc-Ends, read_src-Ends, flush-Ends, flush_if_needed-Ends,
}

module _ {Doc : Type 0} (ops : CompareOps Doc) (namespace : String) (ids : List (Key × ℕ)) where
  module _ (now : ℕ → ℕ → ℕ) (writable : ℕ → Bool) where
    interleave-Ends :
        (ss ds : List (DocWithTs Doc)) (n : ℕ) (c : Comparator Doc)
        → Ends (λ r. SameFlags r.1 c) (interleave ops namespace ids now writable ss ds n c)
    unfolding interleave
    interleave-Ends [] [] n c = (refl, refl)
    interleave-Ends (s ∷ ss) [] n c =
        Ends->>= _ _ (process_single_doc ops namespace ids (now n) s true c) _
          (process_single_doc-Ends ops namespace ids (now n) s true c)
          (λ c' h.
            Ends-weaken _ _ (interleave ops namespace ids now writable ss [] (suc n) c')
              (interleave-Ends ss [] (suc n) c') (λ r k. (k.0 ∙ h.0, k.1 ∙ h.1)))
    interleave-Ends [] (d ∷ ds) n c =
        Ends->>= _ _ (process_single_doc ops namespace ids (now n) d false c) _
          (process_single_doc-Ends ops namespace ids (now n) d false c)
          (λ c' h.
            Ends-weaken _ _ (interleave ops namespace ids now writable [] ds (suc n) c')
              (interleave-Ends [] ds (suc n) c') (λ r k. (k.0 ∙ h.0, k.1 ∙ h.1)))
    interleave-Ends (s ∷ ss) (d ∷ ds) n c =
        Ends->>= _ _ (process_single_doc ops namespace ids (now n) s true c) _
          (process_single_doc-Ends ops namespace ids (now n) s true c)
          (λ c' h.
            Ends->>= _ _ (process_single_doc ops namespace ids (now (suc n)) d false c') _
              (process_single_doc-Ends ops namespace ids (now (suc n)) d false c')
              (λ c'' h'.
                Ends-weaken _ _ (interleave ops namespace ids now writable ss ds (suc (suc n)) c'')
                  (interleave-Ends ss ds (suc (suc n)) c'')
                  (λ r k. (k.0 ∙ h'.0 ∙ h.0, k.1 ∙ h'.1 ∙ h.1))))

  abbrev Batch : Type 0
  Batch = List (DocWithTs Doc)

  abbrev total : Channel Doc → Channel Doc → Comparator Doc → ℕ
  total src dst c = left c.src_closed src + left c.dst_closed dst

  abbrev SrcRead : Channel Doc → Comparator Doc → Batch × Channel Doc × Comparator Doc → Type 0
  SrcRead src c r =
      (left r.2.src_closed r.1 + holds_open c.src_closed ≤ left c.src_closed src)
      × (r.2.dst_closed ≡ c.dst_closed)

  read_src_half :
      (src : Channel Doc) (c : Comparator Doc)
      → Ends
          (SrcRead src c)
          (if c.src_closed then ok ([], src, c) else read_src ops namespace ids src c)
  read_src_half src c = elim (Bool-cases c.src_closed) [
    | inl e ↦ simp e (omega arith, refl)
    | inr e ↦ simp e (
        Ends-weaken _ _ (read_src ops namespace ids src c) (read_src-Ends ops namespace ids src c e)
          (λ r h. (ground (arith, h.0), h.1)))
  ]

  abbrev DstRead :
      Channel Doc → Comparator Doc → Batch × Channel Doc × Bool × Comparator Doc → Type 0
  DstRead dst c r =
      (left r.3.dst_closed r.1 + holds_open c.dst_closed ≤ left c.dst_closed dst)
      × (r.3.src_closed ≡ c.src_closed)

  read_dst_half :
      (dst : Channel Doc) (c : Comparator Doc)
      → Ends (DstRead dst c) (if c.dst_closed then ok ([], dst, false, c) else read_dst false dst c)
  read_dst_half dst c = elim (Bool-cases c.dst_closed) [
    | inl e ↦ simp e (omega arith, refl)
    | inr e ↦ simp e (
        Ends-weaken _ _ (read_dst false dst c) (read_dst-Ends false dst c e)
          (λ r h. (ground (arith, h.0), h.1)))
  ]

  abbrev Both : Type 0
  Both = Batch × Channel Doc × Batch × Channel Doc × Bool × Comparator Doc

  abbrev BothRead : Channel Doc → Channel Doc → Comparator Doc → Both → Type 0
  BothRead src dst c r =
      total r.1 r.3 r.5 + holds_open c.src_closed + holds_open c.dst_closed ≤ total src dst c

  both_read :
      (src dst : Channel Doc) (c : Comparator Doc) (a : Batch × Channel Doc × Comparator Doc)
      (b : Batch × Channel Doc × Bool × Comparator Doc)
      → SrcRead src c a
      → DstRead dst a.2 b
      → BothRead src dst c (a.0, a.1, b.0, b.1, b.2, b.3)
  both_read src dst c a b h k = let e = h.1 in let f = k.1 in ground (arith, h.0, k.0)

  read_batches-Ends :
      (src dst : Channel Doc) (c : Comparator Doc)
      → Ends (BothRead src dst c) (read_batches ops namespace ids src dst c)
  unfolding read_batches
  read_batches-Ends src dst c =
      Ends->>= {A = Batch × Channel Doc × Comparator Doc} (SrcRead src c) (BothRead src dst c)
        (if c.src_closed then ok ([], src, c) else read_src ops namespace ids src c) _
        (read_src_half src c)
        (λ a h.
          Ends->>= {A = Batch × Channel Doc × Bool × Comparator Doc} (DstRead dst a.2)
            (BothRead src dst c)
            (if a.2.dst_closed then ok ([], dst, false, a.2) else read_dst false dst a.2) _
            (read_dst_half dst a.2) (λ b k. both_read src dst c a b h k))

  module _ (now : ℕ → ℕ → ℕ) (writable : ℕ → Bool) where
    abbrev RoundDone :
        Channel Doc
        → Channel Doc
        → Comparator Doc
        → Channel Doc × Channel Doc × ℕ × Comparator Doc
        → Type 0
    RoundDone src dst c r =
        total r.0 r.1 r.3 + holds_open c.src_closed + holds_open c.dst_closed ≤ total src dst c

    flush_half :
        (done : Bool) (n : ℕ) (c : Comparator Doc)
        → Ends
            (λ r. SameFlags r.0 c)
            (if done
              then flush_if_needed ops namespace ids (now n) (writable n) c
              else ok (c, none))
    flush_half true n c = flush_if_needed-Ends ops namespace ids (now n) (writable n) c
    flush_half false n c = (refl, refl)

    round_done :
        (src dst : Channel Doc) (c : Comparator Doc) (a : Both) (b d : Comparator Doc) (n : ℕ)
        → BothRead src dst c a
        → SameFlags b a.5
        → SameFlags d b
        → RoundDone src dst c (a.1, a.3, n, d)
    round_done src dst c a b d n h k l =
        let e = k.0 in let f = k.1 in let e' = l.0 in let f' = l.1 in ground (arith, h)

    run_round-Ends :
        (src dst : Channel Doc) (n : ℕ) (c : Comparator Doc)
        → Ends (RoundDone src dst c) (run_round ops namespace ids now writable src dst n c)
    unfolding run_round
    run_round-Ends src dst n c =
        Ends->>= {A = Both} (BothRead src dst c) (RoundDone src dst c)
          (read_batches ops namespace ids src dst c) _ (read_batches-Ends src dst c)
          (λ a h.
            Ends->>= (λ r. SameFlags r.0 a.5) (RoundDone src dst c)
              (if a.4
                then flush_if_needed ops namespace ids (now n) (writable n) a.5
                else ok (a.5, none))
              _ (flush_half a.4 n a.5)
              (λ b k.
                Ends->>= (λ r. SameFlags r.1 b.0) (RoundDone src dst c)
                  (interleave ops namespace ids now writable a.0 a.2 n b.0) _
                  (interleave-Ends now writable a.0 a.2 n b.0)
                  (λ d l. round_done src dst c a b.0 d.1 d.0 h k l)))

    open_when_reading :
        (c : Comparator Doc)
        → still_reading c ≡ true
        → 0 < holds_open c.src_closed + holds_open c.dst_closed
    unfolding still_reading
    open_when_reading c h = ground arith

    run_loop-Ends :
        (fuel : ℕ) (src dst : Channel Doc) (n : ℕ) (c : Comparator Doc)
        → total src dst c < fuel
        → Ends (λ c'. Unit {0}) (run_loop ops namespace ids now writable fuel src dst n c)
    unfolding run_loop
    run_loop-Ends zero src dst n c h = absurd (omega arith)
    run_loop-Ends (suc fuel) src dst n c h = elim (Bool-cases (still_reading c)) [
      | inl e ↦
          rw (e, run_loop)
            (Ends->>= _ _ (run_round ops namespace ids now writable src dst n c) _
              (run_round-Ends src dst n c)
              (λ a k. run_loop-Ends fuel a.0 a.1 a.2 a.3 (omega (arith, open_when_reading c e, k))))
      | inr e ↦
          rw (e, run_loop)
            (Ends-weaken _ _ (flush ops namespace ids (now n) (writable n) c)
              (flush-Ends ops namespace ids (now n) (writable n) c) (λ a k. tt))
    ]

    -- The comparison of two streams of messages always ends: with the final flush, or with an error
    -- of a reader, of the comparison, or of the report channel; its fuel is never used up.
    pub run_ends :
        (src dst : Channel Doc)
        → run ops namespace ids now writable src dst (new_comparator Doc) ≢ err out_of_fuel
    unfolding run new_comparator
    run_ends src dst e =
        let start : Comparator Doc = record (new_comparator Doc) {
          history = (new_comparator Doc).history ++ (0, 0) ∷ [];
        } in
        let fuel = suc (remaining src + remaining dst) in
        Ends-not (run_loop ops namespace ids now writable fuel src dst 0 start)
          (run_loop-Ends fuel src dst 0 start (omega arith)) e
