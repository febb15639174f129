-- ===== src/Keystring/Decoder.antt =====
-- readValue and keystringToBsonPartial.
use migration_verifier_docdb.Base.{
  ℕ, zero, suc, ◌+◌, ◌%◌, true, false, [], ◌∷◌, ◌==◌, ◌||◌, if◌then◌else◌, Outcome, ok, err, ◌>>=◌,
  length,
}
use migration_verifier_docdb.Base.Words.{word, sign_bit}
use migration_verifier_docdb.Keystring.Buffer.{
  DecodeError, out_of_fuel, unknown_ctype, Buffer, Read, read_uint8, read_uint32_be, read_uint64_be,
  read_bytes, read_cstring, read_cstring_with_nuls,
}
use migration_verifier_docdb.Keystring.Values.{
  KeyValue, min_key, max_key, null, undefined, int_zero, boolean, date, double, timestamp,
  object_id, text, javascript, code_with_scope, binary, regex, db_pointer, document, array,
  KeyFields, no_fields, KeyItems, no_items, append_field, append_item, KeyStringVersion, CType,
  k_min_key, k_undefined, k_nullish, k_string_like, k_object, k_array, k_bin_data, k_oid,
  k_bool_false, k_bool_true, k_date, k_timestamp, k_reg_ex, k_db_ref, k_code, k_code_with_scope,
  k_max_key, k_numeric_nan, k_numeric_zero, k_numeric_large_magnitude, k_numeric_small_magnitude,
  k_numeric_int, unknown, c_type, Floats, nan, invert_if,
}
use migration_verifier_docdb.Keystring.Numbers.{large_value, small_value, read_int}

-- decodeMode.
pub data Mode : Type 0 where
  top_level single named : Mode

-- The size of binary data: one byte, or four after 255.
unfoldable pub read_size : Buffer → Read ℕ
unfolding read_uint8 read_uint32_be
read_size buf =
    read_uint8 buf >>= λ (size, rest). if size == 255 then read_uint32_be rest else ok (size, rest)

module _ (fl : Floats) (version : KeyStringVersion) where
  -- The loop over an array's items: fuel for each round, of which each takes a byte.
  unfoldable pub read_items :
      ℕ → (Mode → Buffer → Read KeyValue) → KeyItems → Buffer → Read KeyValue
  read_items zero nested acc buf = err out_of_fuel
  read_items (suc n) nested acc [] = read_uint8 [] >>= λ (_, rest). ok (array acc, rest)
  read_items (suc n) nested acc (b ∷ bs) =
      let next = λ (v : KeyValue) (rest : Buffer). read_items n nested (append_item acc v) rest in
      if b == 0 then ok (array acc, bs) else (nested single (b ∷ bs) >>= λ (v, rest). next v rest)

  -- readValue, with what decodes the documents and the items in a value.
  unfoldable pub read_value :
      (Mode → Buffer → Read KeyValue) → (Buffer → Read KeyValue) → CType → Buffer → Read KeyValue
  unfolding read_uint32_be read_uint64_be read_bytes read_cstring read_cstring_with_nuls read_size
      large_value small_value read_int
  read_value nested items k_min_key buf = ok (min_key, buf)
  read_value nested items k_max_key buf = ok (max_key, buf)
  read_value nested items k_nullish buf = ok (null, buf)
  read_value nested items k_undefined buf = ok (undefined, buf)
  read_value nested items k_bool_true buf = ok (boolean true, buf)
  read_value nested items k_bool_false buf = ok (boolean false, buf)
  read_value nested items k_date buf = do
    (d, rest) ← read_uint64_be buf
    ok (date ((d + sign_bit) % word), rest)
  read_value nested items k_timestamp buf = do
    (t, buf1) ← read_uint32_be buf
    (i, buf2) ← read_uint32_be buf1
    ok (timestamp t i, buf2)
  read_value nested items k_oid buf = do (oid, rest) ← read_bytes 12 buf; ok (object_id oid, rest)
  read_value nested items k_string_like buf = do
    (s, rest) ← read_cstring_with_nuls buf
    ok (text s, rest)
  read_value nested items k_code buf = do
    (s, rest) ← read_cstring_with_nuls buf
    ok (javascript s, rest)
  read_value nested items k_code_with_scope buf = do
    (code, buf1) ← read_cstring_with_nuls buf
    (scope, buf2) ← nested named buf1
    ok (code_with_scope code scope, buf2)
  read_value nested items k_bin_data buf = do
    (size, buf1) ← read_size buf
    (subtype, buf2) ← read_uint8 buf1
    (bytes, buf3) ← read_bytes size buf2
    ok (binary bytes subtype, buf3)
  read_value nested items k_reg_ex buf = do
    (pattern', buf1) ← read_cstring buf
    (flags, buf2) ← read_cstring buf1
    ok (regex pattern' flags, buf2)
  read_value nested items k_db_ref buf = do
    (size, buf1) ← read_uint32_be buf
    (ns, buf2) ← read_bytes size buf1
    (oid, buf3) ← read_bytes 12 buf2
    ok (db_pointer ns oid, buf3)
  read_value nested items k_object buf = nested named buf
  read_value nested items k_array buf = items buf
  read_value nested items k_numeric_nan buf = ok (double nan, buf)
  read_value nested items k_numeric_zero buf = ok (int_zero, buf)
  read_value nested items (k_numeric_large_magnitude negative) buf = do
    (e, rest) ← read_uint64_be buf
    large_value version negative (invert_if negative e) rest
  read_value nested items (k_numeric_small_magnitude negative) buf = do
    (e, rest) ← read_uint64_be buf
    small_value fl version negative (invert_if negative e) rest
  read_value nested items (k_numeric_int negative k) buf = read_int fl version negative k buf
  read_value nested items (unknown c) buf = err (unknown_ctype c)

  -- A byte for a type, after a marker if there is one.
  abbrev pub read_marked : ℕ → Buffer → Read ℕ
  read_marked b buf = if b == 1 || b == 254 then read_uint8 buf else ok (b, buf)

  -- The body of the loop of keystringToBsonPartial, after the byte for the type.
  unfoldable pub decode_one :
      (ℕ → Buffer → Read KeyValue)
      → (KeyFields → Buffer → Read KeyValue)
      → Mode
      → KeyFields
      → ℕ
      → Buffer
      → Read KeyValue
  unfolding read_cstring
  decode_one value next named contents c buf =
      if c == 0
      then ok (document contents, buf)
      else (read_cstring buf >>= λ (key, buf1). read_uint8 buf1 >>= λ (c', buf2).
          value c' buf2 >>= λ (v, buf3). next (append_field contents key v) buf3)
  decode_one value next single contents c buf = value c buf
  decode_one value next top_level contents c buf =
      value c buf >>= λ (v, rest). next (append_field contents [] v) rest

  -- keystringToBsonPartial: fuel for each byte that is left, and one more.
  unfoldable pub keystring_to_bson_partial : ℕ → Mode → KeyFields → Buffer → Read KeyValue
  unfolding decode_one read_value c_type
  keystring_to_bson_partial zero mode contents buf = err out_of_fuel
  keystring_to_bson_partial (suc n) mode contents [] = ok (document contents, [])
  keystring_to_bson_partial (suc n) mode contents (b ∷ bs) =
      let nested = λ (m : Mode) (buf : Buffer). keystring_to_bson_partial n m no_fields buf in
      let next = λ (cs : KeyFields) (buf : Buffer). keystring_to_bson_partial n mode cs buf in
      read_marked b bs >>= λ (c, buf).
      if c == 4
      then ok (document contents, buf)
      else decode_one (λ c' buf'. read_value nested (read_items n nested no_items) (c_type c') buf')
          next mode contents c buf

  -- KeystringToBson, of the bytes that it is given or that it decodes from hexadecimal digits.
  unfoldable pub keystring_to_bson : Buffer → Outcome DecodeError KeyValue
  unfolding keystring_to_bson_partial
  keystring_to_bson buf =
      keystring_to_bson_partial (suc (length buf)) top_level no_fields buf >>= λ (v, _). ok v
