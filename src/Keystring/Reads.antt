-- ===== src/Keystring/Reads.antt =====
-- Reading gives back the numbers and texts that the encoder writes.
use migration_verifier_docdb.Base.{
  ℕ, zero, suc, ◌+◌, ◌-◌, ◌*◌, ◌/◌, ◌%◌, ◌≤◌, ◌<◌, ◌≡◌, ◌≢◌, refl, sym, ◌∙◌, ap, Bool, true, false,
  [], ◌∷◌, arith, ◌==◌, if◌then◌else◌, ok, ok-injective, Bool-cases, inl, inr,
}
use migration_verifier_docdb.Base.Int.{pos, negsuc}
use migration_verifier_docdb.Base.Words.{word, sign_bit}
use migration_verifier_docdb.Keystring.Buffer.{Buffer, read_uint8, read_uint32_be, read_uint64_be}
use migration_verifier_docdb.Keystring.Values.{
  KeyStringVersion, Floats, k_numeric_int, c_type, num_bytes_for_int, int_value, int32, int64,
  invert_byte_if,
}
use migration_verifier_docdb.Keystring.Numbers.{read_int_bytes, read_int}
use migration_verifier_docdb.Keystring.Encoder.{encode_bytes, bytes_needed, int_bytes}

-- A number of at most k bytes.
unfoldable pub Below : ℕ → ℕ → Type 0
Below zero x = x ≡ 0
Below (suc k) x = Below k (x / 256)

-- One more byte.
read_int_bytes_next :
    (k : ℕ) (negative : Bool) (e a b : ℕ) (buf rest : Buffer)
    → read_int_bytes k negative e buf ≡ ok (a, b ∷ rest)
    → read_int_bytes (suc k) negative e buf ≡ ok (a * 256 % word + invert_byte_if negative b, rest)
unfolding read_int_bytes read_uint8
read_int_bytes_next zero negative e a b buf rest h =
    rw (ap (λ s. s.1) (ok-injective h), ap (λ s. s.0) (ok-injective h)) refl
read_int_bytes_next (suc k) negative e a b [] rest h = absurd (ground arith)
read_int_bytes_next (suc k) negative e a b (c ∷ cs) rest h =
    read_int_bytes_next k negative (e * 256 % word + invert_byte_if negative c) a b cs rest h

invert_twice :
    (negative : Bool) (b : ℕ) → b < 256 → invert_byte_if negative (invert_byte_if negative b) ≡ b
invert_twice true b h = omega arith
invert_twice false b h = refl

pub read_int_bytes-encode_bytes :
    (k : ℕ) (negative : Bool) (x : ℕ) (rest : Buffer)
    → Below k x
    → x < word
    → read_int_bytes k negative 0 (encode_bytes negative k x rest) ≡ ok (x, rest)
unfolding encode_bytes read_int_bytes Below
read_int_bytes-encode_bytes zero negative x rest b h = ap (λ n. ok (n, rest)) (sym b)
read_int_bytes-encode_bytes (suc k) negative x rest b h =
    read_int_bytes_next k negative 0 (x / 256) (invert_byte_if negative (x % 256)) _ rest (
      read_int_bytes-encode_bytes k negative (x / 256) (invert_byte_if negative (x % 256) ∷ rest) b
        (omega arith))
    ∙ ap (λ n. ok (n, rest))
        (ap (λ n. x / 256 * 256 % word + n) (invert_twice negative (x % 256) (omega arith))
          ∙ (omega arith))

bytes_needed-Below : (n x : ℕ) → Below n x → Below (bytes_needed n x) x
unfolding Below bytes_needed
bytes_needed-Below zero x h = h
bytes_needed-Below (suc n) x h = elim (Bool-cases (x == 0)) [
  | inl e ↦ rw e (ground arith)
  | inr e ↦ rw e (bytes_needed-Below n (x / 256) h)
]

pub bytes_needed-le : (n x : ℕ) → bytes_needed n x ≤ n
unfolding bytes_needed
bytes_needed-le zero x = omega arith
bytes_needed-le (suc n) x = elim (Bool-cases (x == 0)) [
  | inl e ↦ rw e (omega arith)
  | inr e ↦ rw e (let h = bytes_needed-le n (x / 256) in omega arith)
]

Below-word : (x : ℕ) → x < word → Below 8 x
unfolding Below
Below-word x h = omega arith

pub read_32 :
    (x : ℕ) (rest : Buffer)
    → x < 4294967296
    → read_uint32_be (encode_bytes false 4 x rest) ≡ ok (x, rest)
unfolding read_uint32_be read_uint8 encode_bytes
read_32 x rest h = ap (λ n. ok (n, rest)) (omega arith)

pub read_64 :
    (x : ℕ) (rest : Buffer) → x < word → read_uint64_be (encode_bytes false 8 x rest) ≡ ok (x, rest)
unfolding read_uint64_be read_uint32_be read_uint8 encode_bytes
read_64 x rest h = ap (λ n. ok (n, rest)) (omega arith)

pub bytes_needed_pos : (n x : ℕ) → x ≢ 0 → bytes_needed (suc n) x ≢ 0
unfolding bytes_needed
bytes_needed_pos n x h = elim (Bool-cases (x == 0)) [
  | inl e ↦ absurd (ground arith)
  | inr e ↦ rw e (omega arith)
]

-- The types of integers.
pub c_type_int :
    (negative : Bool) (k : ℕ)
    → k ≢ 0
    → k ≤ 8
    → c_type (if negative then 40 - k else 42 + k) ≡ k_numeric_int negative k
unfolding c_type num_bytes_for_int
c_type_int negative zero h l = absurd (h refl)
c_type_int true (suc zero) h l = refl
c_type_int true (suc (suc zero)) h l = refl
c_type_int true (suc (suc (suc zero))) h l = refl
c_type_int true (suc (suc (suc (suc zero)))) h l = refl
c_type_int true (suc (suc (suc (suc (suc zero))))) h l = refl
c_type_int true (suc (suc (suc (suc (suc (suc zero)))))) h l = refl
c_type_int true (suc (suc (suc (suc (suc (suc (suc zero))))))) h l = refl
c_type_int true (suc (suc (suc (suc (suc (suc (suc (suc zero)))))))) h l = refl
c_type_int true (suc (suc (suc (suc (suc (suc (suc (suc (suc k))))))))) h l = absurd (omega arith)
c_type_int false (suc zero) h l = refl
c_type_int false (suc (suc zero)) h l = refl
c_type_int false (suc (suc (suc zero))) h l = refl
c_type_int false (suc (suc (suc (suc zero)))) h l = refl
c_type_int false (suc (suc (suc (suc (suc zero))))) h l = refl
c_type_int false (suc (suc (suc (suc (suc (suc zero)))))) h l = refl
c_type_int false (suc (suc (suc (suc (suc (suc (suc zero))))))) h l = refl
c_type_int false (suc (suc (suc (suc (suc (suc (suc (suc zero)))))))) h l = refl
c_type_int false (suc (suc (suc (suc (suc (suc (suc (suc (suc k))))))))) h l = absurd (omega arith)

module _ (fl : Floats) (v : KeyStringVersion) where
  -- An integer part without a fraction.
  pub read_int-encode :
      (negative : Bool) (n : ℕ) (rest : Buffer)
      → n < sign_bit
      → read_int fl v negative (int_bytes n) (encode_bytes negative (int_bytes n) (2 * n) rest)
        ≡ ok (int_value negative n, rest)
  unfolding read_int
  read_int-encode negative n rest h =
      let even : (2 * n % 2 == 0) ≡ true = ground arith in
      let half : 2 * n / 2 ≡ n = omega arith in
      rw
        (read_int_bytes-encode_bytes (int_bytes n) negative (2 * n) rest
          (bytes_needed-Below 8 (2 * n) (Below-word (2 * n) (omega arith))) (omega arith))
        (rw even (ap (λ x. ok (int_value negative x, rest)) half))

  pub int32_value-pos : (n : ℕ) → n < 2147483648 → int_value false n ≡ int32 (pos n)
  unfolding int_value
  int32_value-pos n h = ground arith

  pub int32_value-neg : (n : ℕ) → n < 2147483648 → int_value true (suc n) ≡ int32 (negsuc n)
  unfolding int_value
  int32_value-neg n h = ground arith

  pub int64_value-pos : (n : ℕ) → 2147483648 ≤ n → int_value false n ≡ int64 (pos n)
  unfolding int_value
  int64_value-pos n h = ground arith

  pub int64_value-neg : (n : ℕ) → 2147483648 ≤ n → int_value true (suc n) ≡ int64 (negsuc n)
  unfolding int_value
  int64_value-neg n h = ground arith
