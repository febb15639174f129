-- ===== src/Keystring/RoundTrip.antt =====
-- Decoding gives back the keys that the encoder writes.
use migration_verifier_docdb.Base.{
  ℕ, zero, suc, ◌≤◌, ◌<◌, ◌≡◌, refl, sym, ◌∙◌, ap, subst, true, false, List, [], ◌∷◌, arith, ◌==◌,
  ◌||◌, ok, length,
}
use migration_verifier_docdb.Keystring.Buffer.{Buffer, Read, read_uint8, starts_with}
use migration_verifier_docdb.Keystring.Values.{
  KeyValue, min_key, max_key, null, undefined, int_zero, boolean, date, double, timestamp,
  object_id, text, javascript, code_with_scope, binary, regex, db_pointer, document, array, int32,
  int64, KeyFields, no_fields, field, append_field, KeyItems, no_items, item, append_item,
  KeyStringVersion, c_type, Floats,
}
use migration_verifier_docdb.Keystring.Decoder.{
  Mode, top_level, single, named, read_items, read_value, decode_one, keystring_to_bson_partial,
  keystring_to_bson,
}
use migration_verifier_docdb.Keystring.Fits.{
  Fits, Fits-weaken, read_cstring-Fits, read_cstring_with_nuls-Fits,
}
use migration_verifier_docdb.Keystring.Terminates.{
  Nested, partial-Fits, read_items-Fits, read_value-Fits,
}
use migration_verifier_docdb.Keystring.Texts.{read_cstring-encode, read_cstring_with_nuls-encode}
use migration_verifier_docdb.Keystring.Parts.{
  concat_fields, concat_items, append_field-concat_fields, append_item-concat_items,
  no_fields-concat_fields, no_items-concat_items, type_byte-IsTypeByte, encode_fields-255,
  encode_items-255, int32-decodes, int64-decodes, date-decodes, timestamp-decodes,
}
use migration_verifier_docdb.Keystring.Encoder.{
  encode_cstring, encode_text, type_byte, encode_value, encode_fields, encode_items, encode_key,
  HasNoNul, IsEncodable, AreEncodable, AreItemsEncodable, IsKey,
}

module _ (fl : Floats) (version : KeyStringVersion) where
  abbrev nested_at : ℕ → Mode → Buffer → Read KeyValue
  nested_at n m buf = keystring_to_bson_partial fl version n m no_fields buf

  abbrev items_at : ℕ → Buffer → Read KeyValue
  items_at n buf = read_items fl version n (nested_at n) no_items buf

  abbrev value_at : ℕ → ℕ → Buffer → Read KeyValue
  value_at n b buf = read_value fl version (nested_at n) (items_at n) (c_type b) buf

  -- A byte for a type is no marker and no end.
  decode_step :
      (n : ℕ) (mode : Mode) (cs : KeyFields) (v : KeyValue) (buf : Buffer)
      → keystring_to_bson_partial fl version (suc n) mode cs (type_byte v ∷ buf)
        ≡ decode_one fl version
            (value_at n)
            (λ cs buf. keystring_to_bson_partial fl version n mode cs buf)
            mode
            cs
            (type_byte v)
            buf
  unfolding keystring_to_bson_partial
  decode_step n mode cs v buf =
      let (a, b) = type_byte-IsTypeByte v in
      let unmarked : (type_byte v == 1 || type_byte v == 254) ≡ false = ground arith in
      let no_end : (type_byte v == 4) ≡ false = ground arith in rw unmarked (rw no_end refl)

  -- What follows a value is no longer than the value with it.
  value-shorter :
      (n b : ℕ) (v : KeyValue) (buf rest : Buffer)
      → length buf < n
      → value_at n b buf ≡ ok (v, rest)
      → length rest ≤ length buf
  value-shorter n b v buf rest l e =
      let inside : Nested fl version (length buf) (nested_at n) =
        λ m buf h. partial-Fits fl version n m no_fields buf (omega arith) in
      subst (Fits (length buf)) e (
        read_value-Fits fl version (length buf) (nested_at n) _ (c_type b) buf inside
          (λ u h. Fits-weaken (length u) (length buf) _ h (
            read_items-Fits fl version n (length buf) (nested_at n) no_items u inside h
              (omega arith)))
          (omega arith))

  cstring-shorter :
      (s : List ℕ) (rest : Buffer) → HasNoNul s → length rest ≤ length (encode_cstring s rest)
  cstring-shorter s rest h =
      subst (Fits (length (encode_cstring s rest))) (read_cstring-encode s rest h)
        (read_cstring-Fits _ (encode_cstring s rest) (omega arith))

  text-shorter :
      (s : List ℕ) (rest : Buffer)
      → starts_with 255 rest ≡ false
      → length rest ≤ length (encode_text s rest)
  text-shorter s rest h =
      subst (Fits (length (encode_text s rest))) (read_cstring_with_nuls-encode s rest h)
        (read_cstring_with_nuls-Fits _ (encode_text s rest) (omega arith))

  mutual
    unfolding encode_value encode_fields encode_items IsEncodable AreEncodable AreItemsEncodable
        type_byte c_type read_value read_items decode_one keystring_to_bson_partial read_uint8

    value-decodes :
        (n : ℕ) (v : KeyValue) (rest : Buffer)
        → IsEncodable v
        → starts_with 255 rest ≡ false
        → length (encode_value v rest) < n
        → value_at n (type_byte v) (encode_value v rest) ≡ ok (v, rest)
    value-decodes n min_key rest e f l = refl
    value-decodes n max_key rest e f l = refl
    value-decodes n null rest e f l = refl
    value-decodes n undefined rest e f l = refl
    value-decodes n int_zero rest e f l = refl
    value-decodes n (boolean true) rest e f l = refl
    value-decodes n (boolean false) rest e f l = refl
    value-decodes n (double d) rest e f l = absurd e
    value-decodes n (binary d t) rest e f l = absurd e
    value-decodes n (object_id o) rest e f l = absurd e
    value-decodes n (db_pointer p o) rest e f l = absurd e
    value-decodes n (text s) rest e f l = rw (read_cstring_with_nuls-encode s rest f) refl
    value-decodes n (javascript s) rest e f l = rw (read_cstring_with_nuls-encode s rest f) refl
    value-decodes n (document fs) rest e f l = fields-decode n no_fields fs rest e l
    value-decodes n (array is) rest e f l = items-decode n n no_items is rest e l l
    value-decodes n (date d) rest e f l =
        date-decodes fl version (nested_at n) (items_at n) d rest e
    value-decodes n (timestamp t i) rest (a, b) f l =
        timestamp-decodes fl version (nested_at n) (items_at n) t i rest a b
    value-decodes n (regex p o) rest (a, b) f l =
        rw (read_cstring-encode p _ a) (rw (read_cstring-encode o rest b) refl)
    value-decodes n (code_with_scope s (document fs)) rest e f l =
        let g = encode_fields-255 fs rest in
        let short = text-shorter s (encode_fields fs rest) g in
        rw (read_cstring_with_nuls-encode s (encode_fields fs rest) g)
          (rw (fields-decode n no_fields fs rest e (omega arith)) refl)
    value-decodes n (code_with_scope s v) rest e f l = absurd e
    value-decodes n (int32 z) rest e f l =
        int32-decodes fl version (nested_at n) (items_at n) z rest e
    value-decodes n (int64 z) rest e f l =
        int64-decodes fl version (nested_at n) (items_at n) z rest e

    fields-decode :
        (n : ℕ) (cs fs : KeyFields) (rest : Buffer)
        → AreEncodable fs
        → length (encode_fields fs rest) < n
        → keystring_to_bson_partial fl version n named cs (encode_fields fs rest)
          ≡ ok (document (concat_fields cs fs), rest)
    fields-decode zero cs fs rest e l = absurd (omega arith)
    fields-decode (suc n) cs no_fields rest e l =
        ap (λ x. ok (document x, rest)) (sym (no_fields-concat_fields cs))
    fields-decode (suc n) cs (field k v fs) rest (a, b, c) l =
        let next = encode_fields fs rest in
        let (low, high) = type_byte-IsTypeByte v in
        let no_end : (type_byte v == 0) ≡ false = ground arith in
        let name = cstring-shorter k (type_byte v ∷ encode_value v next) a in
        let value = value-decodes n v next b (encode_fields-255 fs rest) (omega arith) in
        let short =
          value-shorter n (type_byte v) v (encode_value v next) next (omega arith) value in
        decode_step n named cs v (encode_cstring k (type_byte v ∷ encode_value v next))
        ∙ rw no_end (
            rw (read_cstring-encode k (type_byte v ∷ encode_value v next) a) (
              rw value (
                fields-decode n (append_field cs k v) fs rest c (omega arith)
                ∙ ap (λ x. ok (document x, rest)) (append_field-concat_fields cs k v fs))))

    items-decode :
        (n k : ℕ) (acc is : KeyItems) (rest : Buffer)
        → AreItemsEncodable is
        → length (encode_items is rest) < n
        → length (encode_items is rest) < k
        → read_items fl version n (nested_at k) acc (encode_items is rest)
          ≡ ok (array (concat_items acc is), rest)
    items-decode zero k acc is rest e l g = absurd (omega arith)
    items-decode (suc n) k acc no_items rest e l g =
        ap (λ x. ok (array x, rest)) (sym (no_items-concat_items acc))
    items-decode (suc n) zero acc (item v is) rest e l g = absurd (omega arith)
    items-decode (suc n) (suc k) acc (item v is) rest (b, c) l g =
        let next = encode_items is rest in
        let (low, high) = type_byte-IsTypeByte v in
        let no_end : (type_byte v == 0) ≡ false = ground arith in
        let value = value-decodes k v next b (encode_items-255 is rest) (omega arith) in
        let short =
          value-shorter k (type_byte v) v (encode_value v next) next (omega arith) value in
        rw no_end (
          rw (decode_step k single no_fields v (encode_value v next)) (
            rw value (
              items-decode n (suc k) (append_item acc v) is rest c (omega arith) (omega arith)
              ∙ ap (λ x. ok (array x, rest)) (append_item-concat_items acc v is))))

  key-decodes :
      (n : ℕ) (cs fs : KeyFields)
      → IsKey fs
      → length (encode_key fs) < n
      → keystring_to_bson_partial fl version n top_level cs (encode_key fs)
        ≡ ok (document (concat_fields cs fs), [])
  unfolding encode_key IsEncodable keystring_to_bson_partial decode_one
  key-decodes zero cs fs e l = absurd (omega arith)
  key-decodes (suc n) cs no_fields e l =
      ap (λ x. ok (document x, [])) (sym (no_fields-concat_fields cs))
  key-decodes (suc n) cs (field k v fs) (a, b, c) l =
      let value = value-decodes n v (encode_key fs) b (encode_key-255 fs) (omega arith) in
      let short =
        value-shorter n (type_byte v) v (encode_value v (encode_key fs)) (encode_key fs)
          (omega arith) value in
      decode_step n top_level cs v (encode_value v (encode_key fs))
      ∙ rw value (
          key-decodes n (append_field cs [] v) fs c (omega arith)
          ∙ ap (λ x. ok (document x, []))
              (append_field-concat_fields cs [] v fs
                ∙ ap (λ j. concat_fields cs (field j v fs)) (sym a)))
    where
      encode_key-255 : (fs : KeyFields) → starts_with 255 (encode_key fs) ≡ false
      encode_key-255 no_fields = refl
      encode_key-255 (field k v fs) = let (a, b) = type_byte-IsTypeByte v in ground arith

  -- In both versions, decoding an encoded key gives the key back, if it is made of values without
  -- names that are min and max keys, undefined, null, the integer zero, booleans, dates, timestamps,
  -- texts and JavaScript with any bytes, regular expressions without NUL, arrays of such values,
  -- documents of them with field names without NUL, code whose scope is such a document, and integers
  -- other than zero of magnitude below 2 ^ 63, as an int32 if they fit and else as an int64; doubles,
  -- binary data, object IDs and pointers are not admitted.
  pub keystring_to_bson-encode_key :
      (fs : KeyFields) → IsKey fs → keystring_to_bson fl version (encode_key fs) ≡ ok (document fs)
  unfolding keystring_to_bson
  keystring_to_bson-encode_key fs e =
      rw (key-decodes (suc (length (encode_key fs))) no_fields fs e (omega arith)) refl
