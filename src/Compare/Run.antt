-- ===== src/Compare/Run.antt =====
-- compare.go and comparator.go: reading both channels and the comparison loop.
use migration_verifier_docdb.Base.{
  ℕ, zero, suc, ◌+◌, Bool, true, false, not, none, List, [], ◌∷◌, ◌++◌, String, if◌then◌else◌, leb,
  ◌||◌, Outcome, ok, err, ◌>>=◌, length,
}
use migration_verifier_docdb.Compare.Types.{
  Key, Error, reader_stalled, assertion_failed, out_of_fuel, DocWithTs, CompareOps,
}
use migration_verifier_docdb.Compare.Caches.{Comparator, process_single_doc, record_src_metrics}
use migration_verifier_docdb.Compare.Flush.{flush, flush_if_needed}

-- compare.ToComparatorBatchSize.
abbrev pub to_comparator_batch_size : ℕ
to_comparator_batch_size = 100

-- compare.ToComparatorMsg: its type, and its documents.
pub data MsgType : Type 0 where
  docs padding cursor_done : MsgType

pub record Msg (Doc : Type 0) : Type 0 where
  pub msg_type : MsgType
  pub docs_with_ts : List (DocWithTs Doc)

-- What a reader will still send: messages, then the close of the channel, or nothing more at all,
-- which the comparator's stall check turns into an error.
pub data Channel (Doc : Type 0) : Type 0 where
  closed : Channel Doc
  stalled : Channel Doc
  send : Msg Doc → Channel Doc → Channel Doc

module _ {Doc : Type 0} where
  unfoldable pub remaining : Channel Doc → ℕ
  remaining closed = 1
  remaining stalled = 1
  remaining (send m ch) = suc (remaining ch)

  -- The destination half of readBatches: cursor-done flags are noted and passed over.
  unfoldable pub read_dst :
      Bool
      → Channel Doc
      → Comparator Doc
      → Outcome Error (List (DocWithTs Doc) × Channel Doc × Bool × Comparator Doc)
  read_dst done closed c = ok ([], closed, done, record c { dst_closed = true })
  read_dst done stalled c = err reader_stalled
  read_dst done (send m ch) c =
      let later = read_dst true ch c in
      elim m.msg_type [
        | padding ↦
            if leb (length m.docs_with_ts) 0 then ok ([], ch, done, c) else err assertion_failed
        | docs ↦
            if leb (length m.docs_with_ts) to_comparator_batch_size
            then ok (m.docs_with_ts, ch, done, c)
            else err assertion_failed
        | cursor_done ↦ if leb (length m.docs_with_ts) 0 then later else err assertion_failed
      ]

  -- comparator.stillReading.
  unfoldable pub still_reading : Comparator Doc → Bool
  still_reading c = not c.src_closed || not c.dst_closed

module _ {Doc : Type 0} (ops : CompareOps Doc) (namespace : String) (ids : List (Key × ℕ)) where
  -- The source half of readBatches.
  unfoldable pub read_src :
      Channel Doc
      → Comparator Doc
      → Outcome Error (List (DocWithTs Doc) × Channel Doc × Comparator Doc)
  unfolding record_src_metrics
  read_src closed c = ok ([], closed, record c { src_closed = true })
  read_src stalled c = err reader_stalled
  read_src (send m ch) c = elim m.msg_type [
    | docs ↦
        if leb (length m.docs_with_ts) to_comparator_batch_size
        then ok (m.docs_with_ts, ch, record_src_metrics ops namespace ids m.docs_with_ts c)
        else err assertion_failed
    | _ ↦ err assertion_failed
  ]

  -- readBatches. A closed channel is not read again.
  unfoldable pub read_batches :
      Channel Doc
      → Channel Doc
      → Comparator Doc
      → Outcome Error (
          List (DocWithTs Doc)
          × Channel Doc
          × List (DocWithTs Doc)
          × Channel Doc
          × Bool
          × Comparator Doc)
  unfolding read_src read_dst
  read_batches src dst c = do
    (src_batch, src', c') ← if c.src_closed then ok ([], src, c) else read_src src c
    (dst_batch, dst', done, c'') ←
        if c'.dst_closed then ok ([], dst, false, c') else read_dst false dst c'
    ok (src_batch, src', dst_batch, dst', done, c'')

  -- `now n` is the clock while the n-th document is handled.
  module _ (now : ℕ → ℕ → ℕ) (writable : ℕ → Bool) where
    -- The loop that interleaves two batches, a source document first.
    unfoldable pub interleave :
        List (DocWithTs Doc)
        → List (DocWithTs Doc)
        → ℕ
        → Comparator Doc
        → Outcome Error (ℕ × Comparator Doc)
    unfolding process_single_doc
    interleave [] [] n c = ok (n, c)
    interleave (s ∷ ss) [] n c =
        process_single_doc ops namespace ids (now n) s true c >>= λ c'. interleave ss [] (suc n) c'
    interleave [] (d ∷ ds) n c =
        process_single_doc ops namespace ids (now n) d false c >>= λ c'. interleave [] ds (suc n) c'
    interleave (s ∷ ss) (d ∷ ds) n c =
        process_single_doc ops namespace ids (now n) s true c >>= λ c'.
        process_single_doc ops namespace ids (now (suc n)) d false c' >>= λ c''.
        interleave ss ds (suc (suc n)) c''

    -- One round of run's loop.
    unfoldable pub run_round :
        Channel Doc
        → Channel Doc
        → ℕ
        → Comparator Doc
        → Outcome Error (Channel Doc × Channel Doc × ℕ × Comparator Doc)
    unfolding read_batches flush_if_needed interleave
    run_round src dst n c = do
      (src_batch, src', dst_batch, dst', done, c') ← read_batches src dst c
      (c'', _) ←
          if done then flush_if_needed ops namespace ids (now n) (writable n) c' else ok (c', none)
      (n', c''') ← interleave src_batch dst_batch n c''
      ok (src', dst', n', c''')

    unfoldable pub run_loop :
        ℕ → Channel Doc → Channel Doc → ℕ → Comparator Doc → Outcome Error (Comparator Doc)
    unfolding run_round flush still_reading
    run_loop zero src dst n c = err out_of_fuel
    run_loop (suc fuel) src dst n c = elim (still_reading c) [
      | true ↦ run_round src dst n c >>= λ (src', dst', n', c'). run_loop fuel src' dst' n' c'
      | false ↦ flush ops namespace ids (now n) (writable n) c
    ]

    -- run, with a round for each message and each close, and one more that ends the loop.
    unfoldable pub run : Channel Doc → Channel Doc → Comparator Doc → Outcome Error (Comparator Doc)
    unfolding run_loop remaining
    run src dst c =
        run_loop (suc (remaining src + remaining dst)) src dst 0
          (record c { history = c.history ++ (0, 0) ∷ [] })
