-- ===== src/Keystring/Texts.antt =====
-- Reading gives back the texts that the encoder writes, NULs included.
use migration_verifier_docdb.Base.{
  ℕ, zero, suc, ◌≤◌, ◌<◌, ◌≡◌, ◌≢◌, refl, sym, ◌∙◌, ap, subst, false, List, [], ◌∷◌, ◌++◌,
  append-nil, append_assoc, arith, ◌==◌, ok, err, ok-injective, ◌>>=◌, length,
}
use migration_verifier_docdb.Keystring.Buffer.{
  Buffer, Read, read_uint8, read_bytes, index_of_nul, read_cstring, starts_with, read_nuls,
  read_cstring_with_nuls,
}
use migration_verifier_docdb.Keystring.Fits.{Fits, read_cstring-Fits}
use migration_verifier_docdb.Keystring.Encoder.{encode_cstring, encode_text, HasNoNul}

read_cstring_zero : (buf : Buffer) → read_cstring (0 ∷ buf) ≡ ok ([], buf)
unfolding read_cstring read_bytes index_of_nul read_uint8
read_cstring_zero buf = refl

-- The NUL after a text's bytes.
abbrev with_end : List ℕ × Buffer → Read (List ℕ)
with_end (s, buf) = read_uint8 buf >>= λ (_, rest). ok (s, rest)

abbrev and_first : ℕ → List ℕ × Buffer → Read (List ℕ)
and_first b (s, buf) = ok (b ∷ s, buf)

with_end_next :
    (b : ℕ) (t s : List ℕ) (u rest : Buffer)
    → with_end (t, u) ≡ ok (s, rest)
    → with_end (b ∷ t, u) ≡ ok (b ∷ s, rest)
unfolding read_uint8
with_end_next b t s [] rest h = absurd (ground arith)
with_end_next b t s (c ∷ cs) rest h = ap (and_first b) (ok-injective h)

read_cstring_next :
    (b : ℕ) (buf rest : Buffer) (s : List ℕ)
    → b ≢ 0
    → read_cstring buf ≡ ok (s, rest)
    → read_cstring (b ∷ buf) ≡ ok (b ∷ s, rest)
unfolding read_cstring read_bytes index_of_nul
read_cstring_next b buf rest s n h =
    let not_nul : (b == 0) ≡ false = ground arith in
    rw not_nul (by_bytes (read_bytes (index_of_nul buf) buf) h)
  where
    by_bytes :
        (o : Read (List ℕ))
        → (o >>= with_end) ≡ ok (s, rest)
        → ((o >>= and_first b) >>= with_end) ≡ ok (b ∷ s, rest)
    by_bytes (err e) x = absurd (ground arith)
    by_bytes (ok (t, u)) x = with_end_next b t s u rest x

pub read_cstring-encode :
    (s : List ℕ) (rest : Buffer) → HasNoNul s → read_cstring (encode_cstring s rest) ≡ ok (s, rest)
unfolding encode_cstring
read_cstring-encode [] rest h = read_cstring_zero rest
read_cstring-encode (b ∷ s) rest (n, h) =
    read_cstring_next b (encode_cstring s rest) rest s n (read_cstring-encode s rest h)

-- The first part of a text, and what the loop makes of the rest.
abbrev Splits : List ℕ → Buffer → Buffer → Type 0
Splits s buf rest =
    (h : List ℕ) × (r : Buffer) × (read_cstring buf ≡ ok (h, r))
    × ((n : ℕ) (acc : List ℕ) → length r < n → read_nuls n (acc ++ h) r ≡ ok (acc ++ s, rest))

shorter : (buf r : Buffer) (h : List ℕ) → read_cstring buf ≡ ok (h, r) → length r ≤ length buf
shorter buf r h e = subst (Fits (length buf)) e (read_cstring-Fits (length buf) buf (omega arith))

encode_text-Splits :
    (s : List ℕ) (rest : Buffer) → starts_with 255 rest ≡ false → Splits s (encode_text s rest) rest
unfolding encode_text read_nuls
encode_text-Splits [] rest f = ([], rest, read_cstring_zero rest, stops)
  where
    stops :
        (n : ℕ) (acc : List ℕ)
        → length rest < n
        → read_nuls n (acc ++ []) rest ≡ ok (acc ++ [], rest)
    stops zero acc l = absurd (omega arith)
    stops (suc n) acc l = rw f refl
encode_text-Splits (zero ∷ s) rest f =
    let (h, r, p, q) = encode_text-Splits s rest f in
    ([], 255 ∷ encode_text s rest, read_cstring_zero _, goes_on h r p q)
  where
    goes_on :
        (h : List ℕ) (r : Buffer)
        → read_cstring (encode_text s rest) ≡ ok (h, r)
        → ((n : ℕ) (acc : List ℕ) → length r < n → read_nuls n (acc ++ h) r ≡ ok (acc ++ s, rest))
        → (n : ℕ) (acc : List ℕ) → length (255 ∷ encode_text s rest) < n
        → read_nuls n (acc ++ []) (255 ∷ encode_text s rest) ≡ ok (acc ++ 0 ∷ s, rest)
    goes_on h r p q zero acc l = absurd (omega arith)
    goes_on h r p q (suc n) acc l =
        let short = shorter (encode_text s rest) r h p in
        rw p (
          ap (λ x. read_nuls n x r)
            (ap (λ x. x ++ 0 ∷ h) (append-nil acc) ∙ sym (append_assoc acc (0 ∷ []) h))
          ∙ q n (acc ++ 0 ∷ []) (omega arith)
          ∙ ap (λ x. ok (x, rest)) (append_assoc acc (0 ∷ []) s))
encode_text-Splits (suc b ∷ s) rest f =
    let (h, r, p, q) = encode_text-Splits s rest f in
    (
      suc b ∷ h,
      r,
      read_cstring_next (suc b) (encode_text s rest) r h (λ e. absurd (omega arith)) p,
      λ n acc l.
          ap (λ x. read_nuls n x r) (sym (append_assoc acc (suc b ∷ []) h))
          ∙ q n (acc ++ suc b ∷ []) l
          ∙ ap (λ x. ok (x, rest)) (append_assoc acc (suc b ∷ []) s),
    )

pub read_cstring_with_nuls-encode :
    (s : List ℕ) (rest : Buffer)
    → starts_with 255 rest ≡ false
    → read_cstring_with_nuls (encode_text s rest) ≡ ok (s, rest)
unfolding read_cstring_with_nuls
read_cstring_with_nuls-encode s rest f =
    let (h, r, p, q) = encode_text-Splits s rest f in rw p (q (suc (length r)) [] (omega arith))
