-- ===== src/Keystring/Encoder.antt =====
-- How a server writes index keys that hold no fraction: an encoder that the decoder is held against.
-- Each function puts the bytes of a value before the bytes that follow.
use migration_verifier_docdb.Base.{
  ℕ, zero, suc, ◌+◌, ◌-◌, ◌*◌, ◌/◌, ◌%◌, ◌≤◌, ◌<◌, ◌≡◌, ◌≢◌, Bool, true, false, List, [], ◌∷◌, ◌==◌,
  All, if◌then◌else◌,
}
use migration_verifier_docdb.Base.Int.{ℤ, pos, negsuc}
use migration_verifier_docdb.Base.Words.{word, sign_bit}
use migration_verifier_docdb.Keystring.Values.{
  KeyValue, min_key, max_key, null, undefined, int_zero, boolean, date, double, timestamp,
  object_id, text, javascript, code_with_scope, binary, regex, db_pointer, document, array, int32,
  int64, KeyFields, no_fields, field, KeyItems, no_items, item, invert_byte_if,
}

-- The lowest k bytes of a number, the highest first; those of a negative number are inverted.
unfoldable pub encode_bytes : Bool → ℕ → ℕ → List ℕ → List ℕ
encode_bytes negative zero x rest = rest
encode_bytes negative (suc k) x rest =
    encode_bytes negative k (x / 256) (invert_byte_if negative (x % 256) ∷ rest)

unfoldable pub bytes_needed : ℕ → ℕ → ℕ
bytes_needed zero x = 0
bytes_needed (suc n) x = let rest = bytes_needed n (x / 256) in if x == 0 then 0 else suc rest

-- A text without NUL, and a text whose NULs are escaped.
unfoldable pub encode_cstring : List ℕ → List ℕ → List ℕ
encode_cstring [] rest = 0 ∷ rest
encode_cstring (b ∷ s) rest = b ∷ encode_cstring s rest

unfoldable pub encode_text : List ℕ → List ℕ → List ℕ
encode_text [] rest = 0 ∷ rest
encode_text (zero ∷ s) rest = 0 ∷ 255 ∷ encode_text s rest
encode_text (suc b ∷ s) rest = suc b ∷ encode_text s rest

abbrev pub int_bytes : ℕ → ℕ
int_bytes n = bytes_needed 8 (2 * n)

abbrev pub int_byte : Bool → ℕ → ℕ
int_byte true n = 40 - int_bytes n
int_byte false n = 42 + int_bytes n

abbrev pub signed_byte : ℤ → ℕ
signed_byte (pos n) = int_byte false n
signed_byte (negsuc n) = int_byte true (suc n)

abbrev pub encode_signed : ℤ → List ℕ → List ℕ
encode_signed (pos n) rest = encode_bytes false (int_bytes n) (2 * n) rest
encode_signed (negsuc n) rest = encode_bytes true (int_bytes (suc n)) (2 * suc n) rest

-- The byte for a value's type.
unfoldable pub type_byte : KeyValue → ℕ
unfolding bytes_needed
type_byte min_key = 10
type_byte undefined = 15
type_byte null = 20
type_byte (double d) = 30
type_byte int_zero = 41
type_byte (text s) = 60
type_byte (document fs) = 70
type_byte (array is) = 80
type_byte (binary d t) = 90
type_byte (object_id o) = 100
type_byte (boolean false) = 110
type_byte (boolean true) = 111
type_byte (date d) = 120
type_byte (timestamp t i) = 130
type_byte (regex p f) = 140
type_byte (db_pointer n o) = 150
type_byte (javascript s) = 160
type_byte (code_with_scope s v) = 170
type_byte max_key = 240
type_byte (int32 z) = signed_byte z
type_byte (int64 z) = signed_byte z

unfoldable mutual
  unfolding encode_bytes bytes_needed encode_cstring encode_text type_byte

  -- A value without its type. A double is not written.
  pub encode_value : KeyValue → List ℕ → List ℕ
  encode_value min_key rest = rest
  encode_value undefined rest = rest
  encode_value null rest = rest
  encode_value (double d) rest = rest
  encode_value int_zero rest = rest
  encode_value (text s) rest = encode_text s rest
  encode_value (document fs) rest = encode_fields fs rest
  encode_value (array is) rest = encode_items is rest
  encode_value (binary d t) rest = rest
  encode_value (object_id o) rest = rest
  encode_value (boolean b) rest = rest
  encode_value (date d) rest = encode_bytes false 8 ((d + sign_bit) % word) rest
  encode_value (timestamp t i) rest = encode_bytes false 4 t (encode_bytes false 4 i rest)
  encode_value (regex p f) rest = encode_cstring p (encode_cstring f rest)
  encode_value (db_pointer n o) rest = rest
  encode_value (javascript s) rest = encode_text s rest
  encode_value (code_with_scope s v) rest = encode_text s (encode_value v rest)
  encode_value max_key rest = rest
  encode_value (int32 z) rest = encode_signed z rest
  encode_value (int64 z) rest = encode_signed z rest

  -- A field has its type before its name too.
  pub encode_fields : KeyFields → List ℕ → List ℕ
  encode_fields no_fields rest = 0 ∷ rest
  encode_fields (field k v fs) rest =
      type_byte v ∷ encode_cstring k (type_byte v ∷ encode_value v (encode_fields fs rest))

  pub encode_items : KeyItems → List ℕ → List ℕ
  encode_items no_items rest = 0 ∷ rest
  encode_items (item v is) rest = type_byte v ∷ encode_value v (encode_items is rest)

-- A key: its values, without names, and its end.
unfoldable pub encode_key : KeyFields → List ℕ
unfolding encode_value type_byte
encode_key no_fields = 4 ∷ []
encode_key (field k v fs) = type_byte v ∷ encode_value v (encode_key fs)

abbrev pub HasNoNul : List ℕ → Type 0
HasNoNul s = All (λ b. b ≢ 0) s

-- The integers of a type, but for 0 and -2 ^ 63.
abbrev pub IsInt32 : ℤ → Type 0
IsInt32 (pos n) = (n ≢ 0) × (n < 2147483648)
IsInt32 (negsuc n) = n < 2147483648

abbrev pub IsInt64 : ℤ → Type 0
IsInt64 (pos n) = (2147483648 ≤ n) × (n < 9223372036854775808)
IsInt64 (negsuc n) = (2147483648 ≤ n) × (suc n < 9223372036854775808)

unfoldable mutual
  -- The values that the encoder writes: no doubles, binary data, object IDs and pointers.
  pub IsEncodable : KeyValue → Type 0
  IsEncodable min_key = Unit
  IsEncodable undefined = Unit
  IsEncodable null = Unit
  IsEncodable (double d) = ⊥
  IsEncodable int_zero = Unit
  IsEncodable (text s) = Unit
  IsEncodable (document fs) = AreEncodable fs
  IsEncodable (array is) = AreItemsEncodable is
  IsEncodable (binary d t) = ⊥
  IsEncodable (object_id o) = ⊥
  IsEncodable (boolean b) = Unit
  IsEncodable (date d) = d < word
  IsEncodable (timestamp t i) = (t < 4294967296) × (i < 4294967296)
  IsEncodable (regex p f) = HasNoNul p × HasNoNul f
  IsEncodable (db_pointer n o) = ⊥
  IsEncodable (javascript s) = Unit
  IsEncodable (code_with_scope s (document fs)) = AreEncodable fs
  IsEncodable (code_with_scope s v) = ⊥
  IsEncodable max_key = Unit
  IsEncodable (int32 z) = IsInt32 z
  IsEncodable (int64 z) = IsInt64 z

  pub AreEncodable : KeyFields → Type 0
  AreEncodable no_fields = Unit
  AreEncodable (field k v fs) = HasNoNul k × IsEncodable v × AreEncodable fs

  pub AreItemsEncodable : KeyItems → Type 0
  AreItemsEncodable no_items = Unit
  AreItemsEncodable (item v is) = IsEncodable v × AreItemsEncodable is

-- The fields of a key have no names.
abbrev pub IsKey : KeyFields → Type 0
unfolding IsEncodable
IsKey no_fields = Unit
IsKey (field k v fs) = (k ≡ []) × IsEncodable v × IsKey fs
