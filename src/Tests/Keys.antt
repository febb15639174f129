-- ===== src/Tests/Keys.antt =====
-- A key with a nested document, a text with a NUL and a negative number.
use migration_verifier_docdb.Base.{arith, ℕ, ◌≡◌, ◌≢◌, refl, List, [], ◌∷◌, ok, err}
use migration_verifier_docdb.Base.Int.{negsuc}
use migration_verifier_docdb.Keystring.{
  out_of_fuel, text, int32, array, document, KeyFields, no_fields, field, no_items, item, v0, v1,
  Floats, keystring_to_bson, keystring_to_bson_partial, read_value, read_items, decode_one, c_type,
  num_bytes_for_int, read_cstring, read_cstring_with_nuls, read_nuls, read_bytes, read_uint8,
  index_of_nul, read_int, read_int_bytes, int_value,
}
use migration_verifier_docdb.Keystring.Encoder.{
  IsKey, IsEncodable, encode_key, encode_value, type_byte, encode_text, encode_cstring,
  encode_bytes, bytes_needed,
}
use migration_verifier_docdb.Keystring.Terminates.{keystring_to_bson_ends}
use migration_verifier_docdb.Keystring.RoundTrip.{keystring_to_bson-encode_key}

-- Doubles are not looked at.
abbrev floats : Floats
floats = record { float64 = λ n. n; ldexp = λ d z. d }

abbrev key : KeyFields
key = field [] (text (97 ∷ 0 ∷ 98 ∷ [])) (
    field [] (document (field (99 ∷ []) (array (item (int32 (negsuc 299)) no_items)) no_fields))
      no_fields)

abbrev key_bytes : List ℕ
key_bytes = 60 ∷ 97 ∷ 0 ∷ 255 ∷ 98 ∷ 0 ∷ 70 ∷ 80 ∷ 99 ∷ 0 ∷ 80 ∷ 38 ∷ 253 ∷ 167 ∷ 0 ∷ 0 ∷ 4 ∷ []

encoded : encode_key key ≡ key_bytes
unfolding encode_key encode_value type_byte encode_text encode_cstring encode_bytes bytes_needed
encoded = refl

decoded : keystring_to_bson floats v1 key_bytes ≡ ok (document key)
unfolding keystring_to_bson keystring_to_bson_partial read_value read_items decode_one c_type
    num_bytes_for_int read_cstring read_cstring_with_nuls read_nuls read_bytes read_uint8
    index_of_nul read_int read_int_bytes int_value
decoded = refl

key-IsKey : IsKey key
unfolding IsEncodable
key-IsKey = (refl, tt, (refl, (((λ h. cc), tt), ((omega arith), tt), tt), tt))

keystring_to_bson-encode_key_example :
    keystring_to_bson floats v1 (encode_key key) ≡ ok (document key)
keystring_to_bson-encode_key_example = keystring_to_bson-encode_key floats v1 key key-IsKey

keystring_to_bson_ends_example : keystring_to_bson floats v0 key_bytes ≢ err out_of_fuel
keystring_to_bson_ends_example = keystring_to_bson_ends floats v0 key_bytes
