-- ===== src/Keystring/Numbers.antt =====
-- The numeric cases of readValue.
use migration_verifier_docdb.Base.{
  ℕ, zero, suc, ◌+◌, ◌-◌, ◌*◌, ◌/◌, ◌%◌, ◌^◌, Bool, true, not, ◌==◌, ◌&&◌, ltb, if◌then◌else◌, ok,
  err, ◌>>=◌,
}
use migration_verifier_docdb.Base.Int.{sub_ℕ}
use migration_verifier_docdb.Base.Words.{word, sign_bit}
use migration_verifier_docdb.Keystring.Buffer.{
  negative_shift, Buffer, Read, read_uint8, read_uint64_be,
}
use migration_verifier_docdb.Keystring.Values.{
  KeyValue, int_zero, double, KeyStringVersion, v0, v1, Floats, infinity, negate_if, invert_byte_if,
  or_bits, bit_length, int_value,
}

-- A value, after the eight bytes that follow it in some encodings.
unfoldable pub after_skipping : Bool → KeyValue → Buffer → Read KeyValue
unfolding read_uint64_be
after_skipping skips v buf =
    if skips then (read_uint64_be buf >>= λ (_, rest). ok (v, rest)) else ok (v, buf)

abbrev pub two_62 : ℕ
two_62 = 4611686018427387904

-- A number of at least 2 ^ 63 in magnitude.
unfoldable pub large_value : KeyStringVersion → Bool → ℕ → Buffer → Read KeyValue
unfolding after_skipping
large_value v0 negative e buf = ok (double e, buf)
large_value v1 negative e buf =
    if ltb e sign_bit
    then after_skipping (e % 2 == 1) (double (negate_if negative (e / 2 + two_62))) buf
    else after_skipping (not (e == word - 1)) (double (negate_if negative infinity)) buf

-- A number between 0 and 1 in magnitude.
unfoldable pub small_value : Floats → KeyStringVersion → Bool → ℕ → Buffer → Read KeyValue
unfolding after_skipping
small_value fl v0 negative e buf = ok (double e, buf)
small_value fl v1 negative e buf =
    if e / two_62 == 0
    then after_skipping true int_zero buf
    else if e / two_62 == 3
    then ok (double (negate_if negative (e / 4)), buf)
    else after_skipping (e % 2 == 1)
        (double (negate_if negative (fl.ldexp ((e - two_62) / 2) (sub_ℕ 0 256)))) buf

-- Bytes that are added to a word from the right.
unfoldable pub read_int_bytes : ℕ → Bool → ℕ → Buffer → Read ℕ
unfolding read_uint8
read_int_bytes zero negative e buf = ok (e, buf)
read_int_bytes (suc k) negative e buf = read_uint8 buf >>= λ (b, rest).
    read_int_bytes k negative (e * 256 % word + invert_byte_if negative b) rest

-- The bytes of a fraction, from the highest.
unfoldable pub read_double_bytes : ℕ → Bool → ℕ → Buffer → Read ℕ
unfolding read_uint8 or_bits
read_double_bytes zero negative d buf = ok (d, buf)
read_double_bytes (suc j) negative d buf = read_uint8 buf >>= λ (b, rest).
    read_double_bytes j negative (or_bits 64 d (invert_byte_if negative b * 2 ^ (j * 8) % word))
      rest

abbrev bit_52 : ℕ
bit_52 = 4503599627370496

abbrev clear_bit_52 : ℕ → ℕ
clear_bit_52 d = if d / bit_52 % 2 == 1 then d - bit_52 else d

-- The double of an integer part of so many bits, before its fraction.
abbrev pub double_bits : Bool → ℕ → ℕ → ℕ
double_bits negative n bits =
    or_bits 64 (or_bits 64 (clear_bit_52 (n * 2 ^ (53 - bits) % word)) ((bits + 1022) * bit_52))
      (if negative then sign_bit else 0)

-- A fraction in version 0: the shift is negative if the integer part has more than 53 bits.
unfoldable pub fraction_v0 : Bool → ℕ → Buffer → Read KeyValue
unfolding or_bits bit_length read_double_bytes
fraction_v0 negative n buf =
    let bits = bit_length 64 n in
    if ltb 53 bits
    then err negative_shift
    else (read_double_bytes ((53 - bits + 7) / 8) negative (double_bits negative n bits) buf
        >>= λ (d, rest). ok (double d, rest))

-- A fraction in version 1, after an integer part of k bytes.
unfoldable pub fraction_v1 : Floats → ℕ → Bool → ℕ → Buffer → Read KeyValue
unfolding after_skipping read_int_bytes
fraction_v1 fl k negative n buf =
    let frac_bytes = 8 - k in
    read_int_bytes frac_bytes negative n buf >>= λ (e, rest).
    let dcm = if ltb 0 frac_bytes then e % 4 else 3 in
    after_skipping (not (dcm == 0) && not (dcm == 2))
      (double (negate_if negative (fl.ldexp (fl.float64 (e - e % 4)) (sub_ℕ 0 (8 * frac_bytes)))))
      rest

abbrev pub fraction : Floats → KeyStringVersion → ℕ → Bool → ℕ → Buffer → Read KeyValue
fraction fl v0 k negative n buf = fraction_v0 negative n buf
fraction fl v1 k negative n buf = fraction_v1 fl k negative n buf

-- The integer part of k bytes, and the fraction if its lowest bit is set.
unfoldable pub read_int : Floats → KeyStringVersion → Bool → ℕ → Buffer → Read KeyValue
unfolding read_int_bytes int_value fraction_v0 fraction_v1
read_int fl v negative k buf = read_int_bytes k negative 0 buf >>= λ (e, rest).
    if e % 2 == 0
    then ok (int_value negative (e / 2), rest)
    else fraction fl v k negative (e / 2) rest
