-- ===== src/Compare/Ends.antt =====
-- How the parts of the comparison loop end: never for want of fuel, and with the flags of the channels
-- as they leave them.
use migration_verifier_docdb.Base.{
  ℕ, ◌<◌, ◌≡◌, ◌≢◌, refl, Bool, true, false, List, [], ◌∷◌, String, arith, if◌then◌else◌,
  Option-cases, leb, Outcome, ok, err, ◌>>=◌, inl, inr, length,
}
use migration_verifier_docdb.Base.Words.{add64}
use migration_verifier_docdb.Compare.Types.{Key, Error, out_of_fuel, DocWithTs, CompareOps}
use migration_verifier_docdb.Compare.Caches.{
  Comparator, process_single_doc, record_src_metrics, record_sizes, publish_history_counts,
  why_flush,
}
use migration_verifier_docdb.Compare.Flush.{flush, flush_if_needed, sweep_missing_docs}
use migration_verifier_docdb.Compare.Run.{
  Channel, closed, stalled, send, remaining, read_src, read_dst, MsgType, padding, docs,
  cursor_done, to_comparator_batch_size,
}

-- The closed flags of two states agree.
abbrev pub SameFlags : {Doc : Type 0} → Comparator Doc → Comparator Doc → Type 0
SameFlags a b = (a.src_closed ≡ b.src_closed) × (a.dst_closed ≡ b.dst_closed)

-- An outcome that is not the end of the fuel, and satisfies `P` if it is a value.
abbrev pub Ends : {A : Type 0} → (A → Type 0) → Outcome Error A → Type 0
Ends P (ok a) = P a
Ends P (err e) = e ≢ out_of_fuel

pub Ends->>= :
    {A B : Type 0} (P : A → Type 0) (Q : B → Type 0) (m : Outcome Error A) (f : A → Outcome Error B)
    → Ends P m
    → ((a : A) → P a → Ends Q (f a))
    → Ends Q (m >>= f)
Ends->>= P Q (ok a) f h k = k a h
Ends->>= P Q (err e) f h k = h

pub Ends-not : {A : Type 0} (m : Outcome Error A) → Ends (λ a. Unit {0}) m → m ≢ err out_of_fuel
Ends-not (ok a) h e = cc
Ends-not (err x) h e = h (cc)

pub Ends-weaken :
    {A : Type 0} (P Q : A → Type 0) (m : Outcome Error A)
    → Ends P m
    → ((a : A) → P a → Q a)
    → Ends Q m
Ends-weaken P Q (ok a) h k = k a h
Ends-weaken P Q (err e) h k = h

pub Ends-if :
    {A : Type 0} (P : A → Type 0) (t : Bool) (a b : Outcome Error A)
    → Ends P a
    → Ends P b
    → Ends P (if t then a else b)
Ends-if P true a b h k = h
Ends-if P false a b h k = k

pub Ends-type :
    {A : Type 0} (P : A → Type 0) (t : MsgType) (a b c : Outcome Error A)
    → Ends P a
    → Ends P b
    → Ends P c
    → Ends P (elim t [ padding ↦ a | docs ↦ b | cursor_done ↦ c ])
Ends-type P padding a b c h k l = h
Ends-type P docs a b c h k l = k
Ends-type P cursor_done a b c h k l = l

-- What is left to read: nothing of a closed channel.
abbrev pub left : {Doc : Type 0} → Bool → Channel Doc → ℕ
left true ch = 0
left false ch = remaining ch

-- 1 for a channel that is still open.
abbrev pub holds_open : Bool → ℕ
holds_open true = 0
holds_open false = 1

module _ {Doc : Type 0} where
  pub read_dst-Ends :
      (done : Bool) (ch : Channel Doc) (c : Comparator Doc)
      → c.dst_closed ≡ false
      → Ends
          (λ r. (left r.3.dst_closed r.1 < remaining ch) × (r.3.src_closed ≡ c.src_closed))
          (read_dst done ch c)
  unfolding read_dst remaining
  read_dst-Ends done closed c o = (omega arith, refl)
  read_dst-Ends done stalled c o = λ e. cc
  read_dst-Ends done (send m ch) c o =
      Ends-type _ m.msg_type _ _ _
        (Ends-if _ (leb (length m.docs_with_ts) 0) _ _ (rw o (omega arith), refl) (λ e. cc))
        (Ends-if _ (leb (length m.docs_with_ts) to_comparator_batch_size) _ _
          (rw o (omega arith), refl) (λ e. cc))
        (Ends-if _ (leb (length m.docs_with_ts) 0) _ _
          (Ends-weaken _ _ (read_dst true ch c) (read_dst-Ends true ch c o)
            (λ r h. (omega (arith, h.0), h.1)))
          (λ e. cc))

module _ {Doc : Type 0} (ops : CompareOps Doc) (namespace : String) (ids : List (Key × ℕ)) where
  pub record_sizes-flags :
      (ds : List (DocWithTs Doc)) (c : Comparator Doc)
      → SameFlags (record_sizes ops namespace ids ds c) c
  unfolding record_sizes publish_history_counts
  record_sizes-flags [] c = (refl, refl)
  record_sizes-flags (d ∷ ds) c =
      let size = ops.doc_size d.doc in
      let c' : Comparator Doc = record c {
        src_byte_count = add64 c.src_byte_count size;
        cur_history_byte_count = add64 c.cur_history_byte_count size;
      } in
      ground (arith, record_sizes-flags ds c', record_sizes-flags ds (publish_history_counts c'))

  pub process_single_doc-Ends :
      (now : ℕ → ℕ) (d : DocWithTs Doc) (side : Bool) (c : Comparator Doc)
      → Ends (λ c'. SameFlags c' c) (process_single_doc ops namespace ids now d side c)
  unfolding process_single_doc
  process_single_doc-Ends now d side c = ground arith

  pub read_src-Ends :
      (ch : Channel Doc) (c : Comparator Doc)
      → c.src_closed ≡ false
      → Ends
          (λ r. (left r.2.src_closed r.1 < remaining ch) × (r.2.dst_closed ≡ c.dst_closed))
          (read_src ops namespace ids ch c)
  unfolding read_src remaining record_src_metrics
  read_src-Ends closed c o = (omega arith, refl)
  read_src-Ends stalled c o = λ e. cc
  read_src-Ends (send m ch) c o =
      let n = length m.docs_with_ts in
      let (f, g) = record_sizes-flags m.docs_with_ts (record c {
        src_doc_count = add64 c.src_doc_count n;
        cur_history_doc_count = add64 c.cur_history_doc_count n;
      }) in
      Ends-type _ m.msg_type _ _ _ (λ e. cc)
        (Ends-if _ (leb n to_comparator_batch_size) _ _ (rw (f, o) (omega arith), g) (λ e. cc))
        (λ e. cc)

  pub flush-Ends :
      (now : ℕ → ℕ) (writable : Bool) (c : Comparator Doc)
      → Ends (λ c'. SameFlags c' c) (flush ops namespace ids now writable c)
  unfolding flush sweep_missing_docs publish_history_counts
  flush-Ends now true c = (refl, refl)
  flush-Ends now false c = λ e. cc

  pub flush_if_needed-Ends :
      (now : ℕ → ℕ) (writable : Bool) (c : Comparator Doc)
      → Ends (λ r. SameFlags r.0 c) (flush_if_needed ops namespace ids now writable c)
  unfolding flush_if_needed
  flush_if_needed-Ends now writable c = elim (Option-cases (why_flush c)) [
    | inl e ↦ rw (e, flush_if_needed, Ends) (refl, refl)
    | inr (w, e) ↦
        rw (e, flush_if_needed)
          (Ends->>= _ _ (flush ops namespace ids now writable c) _ (flush-Ends now writable c)
            (λ a h. h))
  ]
