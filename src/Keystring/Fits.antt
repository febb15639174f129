-- ===== src/Keystring/Fits.antt =====
-- Reads that end: they do not run out of fuel, and leave no more bytes than they were given.
use migration_verifier_docdb.Base.{
  ℕ, zero, suc, ◌+◌, ◌-◌, ◌/◌, ◌%◌, ◌≤◌, ◌<◌, ◌≢◌, Bool, true, false, List, [], ◌∷◌, ◌++◌, ◌==◌,
  arith, if◌then◌else◌, ok, err, ◌>>=◌, length, ltb, Bool-cases, inl, inr,
}
use migration_verifier_docdb.Base.Words.{sign_bit}
use migration_verifier_docdb.Keystring.Buffer.{
  out_of_fuel, Buffer, Read, read_uint8, read_uint32_be, read_uint64_be, read_bytes, index_of_nul,
  read_cstring, read_nuls, read_cstring_with_nuls,
}
use migration_verifier_docdb.Keystring.Values.{
  KeyValue, int_zero, KeyStringVersion, v0, v1, Floats, bit_length,
}
use migration_verifier_docdb.Keystring.Numbers.{
  two_62, double_bits, after_skipping, large_value, small_value, read_int_bytes, read_double_bytes,
  fraction_v0, fraction_v1, fraction, read_int,
}

abbrev pub Fits : {A : Type 0} → ℕ → Read A → Type 0
Fits k (err e) = e ≢ out_of_fuel
Fits k (ok (a, rest)) = length rest ≤ k

pub >>=-Fits :
    {A B : Type 0} (k : ℕ) (r : Read A) (next : A × Buffer → Read B)
    → Fits k r
    → ((a : A) (rest : Buffer) → length rest ≤ k → Fits k (next (a, rest)))
    → Fits k (r >>= next)
>>=-Fits k (err e) next h g = h
>>=-Fits k (ok (a, rest)) next h g = g a rest h

pub Fits-weaken : {A : Type 0} (j k : ℕ) (r : Read A) → j ≤ k → Fits j r → Fits k r
Fits-weaken j k (err e) l h = h
Fits-weaken j k (ok (a, rest)) l h = omega arith

pub read_uint8-Fits : (k : ℕ) (buf : Buffer) → length buf ≤ k → Fits k (read_uint8 buf)
unfolding read_uint8
read_uint8-Fits k [] h = λ e. cc
read_uint8-Fits k (b ∷ bs) h = omega arith

pub read_uint32_be-Fits : (k : ℕ) (buf : Buffer) → length buf ≤ k → Fits k (read_uint32_be buf)
unfolding read_uint32_be
read_uint32_be-Fits k buf h = >>=-Fits k (read_uint8 buf) _ (read_uint8-Fits k buf h) λ _ b3 h3.
    >>=-Fits k (read_uint8 b3) _ (read_uint8-Fits k b3 h3) λ _ b2 h2.
      >>=-Fits k (read_uint8 b2) _ (read_uint8-Fits k b2 h2)
        λ _ b1 h1. >>=-Fits k (read_uint8 b1) _ (read_uint8-Fits k b1 h1) λ _ b0 h0. h0

pub read_uint64_be-Fits : (k : ℕ) (buf : Buffer) → length buf ≤ k → Fits k (read_uint64_be buf)
unfolding read_uint64_be
read_uint64_be-Fits k buf h =
    >>=-Fits k (read_uint32_be buf) _ (read_uint32_be-Fits k buf h)
      λ _ b1 h1. >>=-Fits k (read_uint32_be b1) _ (read_uint32_be-Fits k b1 h1) λ _ b0 h0. h0

pub read_bytes-Fits : (k n : ℕ) (buf : Buffer) → length buf ≤ k → Fits k (read_bytes n buf)
unfolding read_bytes
read_bytes-Fits k zero buf h = h
read_bytes-Fits k (suc n) [] h = λ e. cc
read_bytes-Fits k (suc n) (b ∷ bs) h =
    >>=-Fits k (read_bytes n bs) _ (read_bytes-Fits k n bs (omega arith)) λ _ rest r. r

pub read_cstring-Fits : (k : ℕ) (buf : Buffer) → length buf ≤ k → Fits k (read_cstring buf)
unfolding read_cstring
read_cstring-Fits k buf h =
    >>=-Fits k (read_bytes (index_of_nul buf) buf) _ (read_bytes-Fits k (index_of_nul buf) buf h)
      λ _ b1 h1. >>=-Fits k (read_uint8 b1) _ (read_uint8-Fits k b1 h1) λ _ b0 h0. h0

read_nuls-Fits :
    (k n : ℕ) (s : List ℕ) (buf : Buffer)
    → length buf ≤ k
    → length buf < n
    → Fits k (read_nuls n s buf)
unfolding read_nuls
read_nuls-Fits k zero s buf h l = absurd (omega arith)
read_nuls-Fits k (suc n) s [] h l = h
read_nuls-Fits k (suc n) s (b ∷ bs) h l = elim (Bool-cases (b == 255)) [
  | inl e ↦ rw e (
      Fits-weaken (length bs) k _ (omega arith) (
        >>=-Fits (length bs) (read_cstring bs) _ (read_cstring-Fits (length bs) bs (omega arith))
          λ t rest r. read_nuls-Fits (length bs) n (s ++ 0 ∷ t) rest r (omega arith)))
  | inr e ↦ rw e h
]

pub read_cstring_with_nuls-Fits :
    (k : ℕ) (buf : Buffer) → length buf ≤ k → Fits k (read_cstring_with_nuls buf)
unfolding read_cstring_with_nuls
read_cstring_with_nuls-Fits k buf h =
    >>=-Fits k (read_cstring buf) _ (read_cstring-Fits k buf h)
      λ s rest r. read_nuls-Fits k (suc (length rest)) s rest r (omega arith)

after_skipping-Fits :
    (k : ℕ) (b : Bool) (v : KeyValue) (buf : Buffer)
    → length buf ≤ k
    → Fits k (after_skipping b v buf)
unfolding after_skipping
after_skipping-Fits k true v buf h =
    >>=-Fits k (read_uint64_be buf) _ (read_uint64_be-Fits k buf h) λ _ rest r. r
after_skipping-Fits k false v buf h = h

-- Both branches of a test.
pub if-Fits :
    {A : Type 0} (k : ℕ) (b : Bool) (r s : Read A)
    → Fits k r
    → Fits k s
    → Fits k (if b then r else s)
if-Fits k true r s f g = f
if-Fits k false r s f g = g

pub large_value-Fits :
    (k : ℕ) (v : KeyStringVersion) (negative : Bool) (e : ℕ) (buf : Buffer)
    → length buf ≤ k
    → Fits k (large_value v negative e buf)
unfolding large_value
large_value-Fits k v0 negative e buf h = h
large_value-Fits k v1 negative e buf h =
    if-Fits k (ltb e sign_bit) _ _ (after_skipping-Fits k _ _ buf h)
      (after_skipping-Fits k _ _ buf h)

pub small_value-Fits :
    (k : ℕ) (fl : Floats) (v : KeyStringVersion) (negative : Bool) (e : ℕ) (buf : Buffer)
    → length buf ≤ k
    → Fits k (small_value fl v negative e buf)
unfolding small_value
small_value-Fits k fl v0 negative e buf h = h
small_value-Fits k fl v1 negative e buf h =
    if-Fits {A = KeyValue} k (e / two_62 == 0) _ _ (after_skipping-Fits k true int_zero buf h)
      (if-Fits {A = KeyValue} k (e / two_62 == 3) _ _ h (after_skipping-Fits k _ _ buf h))

read_int_bytes-Fits :
    (k n : ℕ) (negative : Bool) (e : ℕ) (buf : Buffer)
    → length buf ≤ k
    → Fits k (read_int_bytes n negative e buf)
unfolding read_int_bytes
read_int_bytes-Fits k zero negative e buf h = h
read_int_bytes-Fits k (suc n) negative e buf h =
    >>=-Fits k (read_uint8 buf) _ (read_uint8-Fits k buf h)
      λ b rest r. read_int_bytes-Fits k n negative _ rest r

read_double_bytes-Fits :
    (k n : ℕ) (negative : Bool) (d : ℕ) (buf : Buffer)
    → length buf ≤ k
    → Fits k (read_double_bytes n negative d buf)
unfolding read_double_bytes
read_double_bytes-Fits k zero negative d buf h = h
read_double_bytes-Fits k (suc n) negative d buf h =
    >>=-Fits k (read_uint8 buf) _ (read_uint8-Fits k buf h)
      λ b rest r. read_double_bytes-Fits k n negative _ rest r

fraction-Fits :
    (k : ℕ) (fl : Floats) (v : KeyStringVersion) (n : ℕ) (negative : Bool) (ip : ℕ) (buf : Buffer)
    → length buf ≤ k
    → Fits k (fraction fl v n negative ip buf)
unfolding fraction_v0 fraction_v1
fraction-Fits k fl v0 n negative ip buf h =
    if-Fits k (ltb 53 (bit_length 64 ip)) _ _ (λ e. cc)
      (>>=-Fits k (read_double_bytes count negative first buf) _
        (read_double_bytes-Fits k count negative first buf h) λ _ rest r. r)
  where
    count : ℕ
    count = (53 - bit_length 64 ip + 7) / 8

    first : ℕ
    first = double_bits negative ip (bit_length 64 ip)
fraction-Fits k fl v1 n negative ip buf h =
    >>=-Fits k (read_int_bytes (8 - n) negative ip buf) _
      (read_int_bytes-Fits k (8 - n) negative ip buf h) λ _ rest r. after_skipping-Fits k _ _ rest r

pub read_int-Fits :
    (k : ℕ) (fl : Floats) (v : KeyStringVersion) (negative : Bool) (n : ℕ) (buf : Buffer)
    → length buf ≤ k
    → Fits k (read_int fl v negative n buf)
unfolding read_int
read_int-Fits k fl v negative n buf h =
    >>=-Fits k (read_int_bytes n negative 0 buf) _ (read_int_bytes-Fits k n negative 0 buf h)
      λ e rest r. if-Fits k (e % 2 == 0) _ _ r (fraction-Fits k fl v n negative _ rest r)
