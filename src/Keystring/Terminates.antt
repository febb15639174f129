-- ===== src/Keystring/Terminates.antt =====
-- The decoder ends on every input.
use migration_verifier_docdb.Base.{
  ℕ, zero, suc, ◌≤◌, ◌<◌, ◌≢◌, [], ◌∷◌, ◌==◌, ◌||◌, arith, ok, err, ◌>>=◌, length,
}
use migration_verifier_docdb.Keystring.Buffer.{
  out_of_fuel, Buffer, Read, read_uint8, read_uint32_be, read_uint64_be, read_bytes, read_cstring,
  read_cstring_with_nuls, rest_of,
}
use migration_verifier_docdb.Keystring.Values.{
  KeyValue, KeyFields, no_fields, KeyItems, no_items, append_item, KeyStringVersion, CType,
  k_min_key, k_undefined, k_nullish, k_string_like, k_object, k_array, k_bin_data, k_oid,
  k_bool_false, k_bool_true, k_date, k_timestamp, k_reg_ex, k_db_ref, k_code, k_code_with_scope,
  k_max_key, k_numeric_nan, k_numeric_zero, k_numeric_large_magnitude, k_numeric_small_magnitude,
  k_numeric_int, unknown, c_type, Floats, invert_if,
}
use migration_verifier_docdb.Keystring.Decoder.{
  Mode, top_level, single, named, read_size, read_items, read_value, read_marked, decode_one,
  keystring_to_bson_partial, keystring_to_bson,
}
use migration_verifier_docdb.Keystring.Fits.{
  Fits, >>=-Fits, Fits-weaken, if-Fits, read_uint8-Fits, read_uint32_be-Fits, read_uint64_be-Fits,
  read_bytes-Fits, read_cstring-Fits, read_cstring_with_nuls-Fits, large_value-Fits,
  small_value-Fits, read_int-Fits,
}

module _ (fl : Floats) (version : KeyStringVersion) where
  -- What is nested in a value takes a byte, if there is one.
  abbrev pub Nested : ℕ → (Mode → Buffer → Read KeyValue) → Type 0
  Nested k nested =
      (m : Mode) (buf : Buffer) → length buf ≤ k → Fits (length (rest_of buf)) (nested m buf)

  pub read_items-Fits :
      (n k : ℕ) (nested : Mode → Buffer → Read KeyValue) (acc : KeyItems) (buf : Buffer)
      → Nested k nested
      → length buf ≤ k
      → length buf < n
      → Fits (length buf) (read_items fl version n nested acc buf)
  unfolding read_items read_uint8
  read_items-Fits zero k nested acc buf f h l = absurd (omega arith)
  read_items-Fits (suc n) k nested acc [] f h l = λ e. cc
  read_items-Fits (suc n) k nested acc (b ∷ bs) f h l =
      if-Fits (suc (length bs)) (b == 0) _ _ (omega arith) (
        Fits-weaken (length bs) (suc (length bs)) _ (omega arith) (
          >>=-Fits (length bs) (nested single (b ∷ bs)) _ (f single (b ∷ bs) h) λ v rest r.
            Fits-weaken (length rest) (length bs) _ r (
              read_items-Fits n (length bs) nested (append_item acc v) rest
                (λ m buf x. f m buf (omega arith)) r (omega arith))))

  Nested-Fits :
      (k : ℕ) (nested : Mode → Buffer → Read KeyValue) (m : Mode) (buf : Buffer)
      → Nested k nested
      → length buf ≤ k
      → Fits k (nested m buf)
  Nested-Fits k nested m [] f h = Fits-weaken 0 k _ (omega arith) (f m [] h)
  Nested-Fits k nested m (b ∷ bs) f h = Fits-weaken (length bs) k _ (omega arith) (f m (b ∷ bs) h)

  read_size-Fits : (k : ℕ) (buf : Buffer) → length buf ≤ k → Fits k (read_size buf)
  unfolding read_size
  read_size-Fits k buf h =
      >>=-Fits k (read_uint8 buf) _ (read_uint8-Fits k buf h)
        λ size rest r. if-Fits k (size == 255) _ _ (read_uint32_be-Fits k rest r) r

  pub read_value-Fits :
      (k : ℕ) (nested : Mode → Buffer → Read KeyValue) (items : Buffer → Read KeyValue) (c : CType)
      (buf : Buffer)
      → Nested k nested
      → ((buf : Buffer) → length buf ≤ k → Fits k (items buf))
      → length buf ≤ k
      → Fits k (read_value fl version nested items c buf)
  unfolding read_value
  read_value-Fits k nested items k_min_key buf f g h = h
  read_value-Fits k nested items k_max_key buf f g h = h
  read_value-Fits k nested items k_nullish buf f g h = h
  read_value-Fits k nested items k_undefined buf f g h = h
  read_value-Fits k nested items k_bool_true buf f g h = h
  read_value-Fits k nested items k_bool_false buf f g h = h
  read_value-Fits k nested items k_date buf f g h =
      >>=-Fits k (read_uint64_be buf) _ (read_uint64_be-Fits k buf h) λ _ rest r. r
  read_value-Fits k nested items k_timestamp buf f g h =
      >>=-Fits k (read_uint32_be buf) _ (read_uint32_be-Fits k buf h)
        λ _ b1 h1. >>=-Fits k (read_uint32_be b1) _ (read_uint32_be-Fits k b1 h1) λ _ rest r. r
  read_value-Fits k nested items k_oid buf f g h =
      >>=-Fits k (read_bytes 12 buf) _ (read_bytes-Fits k 12 buf h) λ _ rest r. r
  read_value-Fits k nested items k_string_like buf f g h =
      >>=-Fits k (read_cstring_with_nuls buf) _ (read_cstring_with_nuls-Fits k buf h) λ _ rest r. r
  read_value-Fits k nested items k_code buf f g h =
      >>=-Fits k (read_cstring_with_nuls buf) _ (read_cstring_with_nuls-Fits k buf h) λ _ rest r. r
  read_value-Fits k nested items k_code_with_scope buf f g h =
      >>=-Fits k (read_cstring_with_nuls buf) _ (read_cstring_with_nuls-Fits k buf h)
        λ _ b1 h1. >>=-Fits k (nested named b1) _ (Nested-Fits k nested named b1 f h1) λ _ rest r. r
  read_value-Fits k nested items k_bin_data buf f g h =
      >>=-Fits k (read_size buf) _ (read_size-Fits k buf h) λ size b1 h1.
        >>=-Fits k (read_uint8 b1) _ (read_uint8-Fits k b1 h1)
          λ _ b2 h2. >>=-Fits k (read_bytes size b2) _ (read_bytes-Fits k size b2 h2) λ _ rest r. r
  read_value-Fits k nested items k_reg_ex buf f g h =
      >>=-Fits k (read_cstring buf) _ (read_cstring-Fits k buf h)
        λ _ b1 h1. >>=-Fits k (read_cstring b1) _ (read_cstring-Fits k b1 h1) λ _ rest r. r
  read_value-Fits k nested items k_db_ref buf f g h =
      >>=-Fits k (read_uint32_be buf) _ (read_uint32_be-Fits k buf h) λ size b1 h1.
        >>=-Fits k (read_bytes size b1) _ (read_bytes-Fits k size b1 h1)
          λ _ b2 h2. >>=-Fits k (read_bytes 12 b2) _ (read_bytes-Fits k 12 b2 h2) λ _ rest r. r
  read_value-Fits k nested items k_object buf f g h = Nested-Fits k nested named buf f h
  read_value-Fits k nested items k_array buf f g h = g buf h
  read_value-Fits k nested items k_numeric_nan buf f g h = h
  read_value-Fits k nested items k_numeric_zero buf f g h = h
  read_value-Fits k nested items (k_numeric_large_magnitude negative) buf f g h =
      >>=-Fits k (read_uint64_be buf) _ (read_uint64_be-Fits k buf h)
        λ e rest r. large_value-Fits k version negative (invert_if negative e) rest r
  read_value-Fits k nested items (k_numeric_small_magnitude negative) buf f g h =
      >>=-Fits k (read_uint64_be buf) _ (read_uint64_be-Fits k buf h)
        λ e rest r. small_value-Fits k fl version negative (invert_if negative e) rest r
  read_value-Fits k nested items (k_numeric_int negative n) buf f g h =
      read_int-Fits k fl version negative n buf h
  read_value-Fits k nested items (unknown c) buf f g h = λ e. cc

  decode_one-Fits :
      (k : ℕ) (value : ℕ → Buffer → Read KeyValue) (next : KeyFields → Buffer → Read KeyValue)
      (mode : Mode) (contents : KeyFields) (c : ℕ) (buf : Buffer)
      → ((c : ℕ) (buf : Buffer) → length buf ≤ k → Fits k (value c buf))
      → ((cs : KeyFields) (buf : Buffer) → length buf ≤ k → Fits k (next cs buf))
      → length buf ≤ k
      → Fits k (decode_one fl version value next mode contents c buf)
  unfolding decode_one
  decode_one-Fits k value next named contents c buf f g h = if-Fits k (c == 0) _ _ h (
      >>=-Fits k (read_cstring buf) _ (read_cstring-Fits k buf h) λ _ b1 h1.
        >>=-Fits k (read_uint8 b1) _ (read_uint8-Fits k b1 h1)
          λ c' b2 h2. >>=-Fits k (value c' b2) _ (f c' b2 h2) λ v b3 h3. g _ b3 h3)
  decode_one-Fits k value next single contents c buf f g h = f c buf h
  decode_one-Fits k value next top_level contents c buf f g h =
      >>=-Fits k (value c buf) _ (f c buf h) λ v rest r. g _ rest r

  pub partial-Fits :
      (n : ℕ) (mode : Mode) (contents : KeyFields) (buf : Buffer)
      → length buf < n
      → Fits (length (rest_of buf)) (keystring_to_bson_partial fl version n mode contents buf)
  unfolding keystring_to_bson_partial
  partial-Fits zero mode contents buf l = absurd (omega arith)
  partial-Fits (suc n) mode contents [] l = omega arith
  partial-Fits (suc n) mode contents (b ∷ bs) l =
      let inside : Nested (length bs)
          (λ m buf. keystring_to_bson_partial fl version n m no_fields buf) =
        λ m buf h. partial-Fits n m no_fields buf (omega arith) in
      >>=-Fits (length bs) (read_marked fl version b bs) _
        (if-Fits (length bs) (b == 1 || b == 254) (read_uint8 bs) (ok (b, bs))
          (read_uint8-Fits (length bs) bs (omega arith)) (omega arith))
        λ c rest r. if-Fits (length bs) (c == 4) _ _ r (
          decode_one-Fits (length bs) _ _ mode contents c rest
            (λ c' buf' h'.
              read_value-Fits (length bs) _ _ (c_type c') buf' inside
                (λ buf h.
                  Fits-weaken (length buf) (length bs) _ h
                    (read_items-Fits n (length bs) _ no_items buf inside h (omega arith)))
                h')
            (λ cs buf h.
              Nested-Fits (length bs) (λ m. keystring_to_bson_partial fl version n mode cs) mode buf
                (λ m buf x. partial-Fits n mode cs buf (omega arith)) h)
            r)

  -- The decoder ends on every input, with a value or with an error of the input: its fuel, one step for
  -- each byte and one more, is never used up.
  pub keystring_to_bson_ends : (buf : Buffer) → keystring_to_bson fl version buf ≢ err out_of_fuel
  unfolding keystring_to_bson
  keystring_to_bson_ends buf h =
      ends (keystring_to_bson_partial fl version (suc (length buf)) top_level no_fields buf)
        (partial-Fits (suc (length buf)) top_level no_fields buf (omega arith)) h
    where
      ends :
          (r : Read KeyValue)
          → Fits (length (rest_of buf)) r
          → (r >>= λ (v, _). ok v) ≢ err out_of_fuel
      ends (err e) f x = f cc
      ends (ok (v, rest)) f x = cc
