-- ===== src/Keystring/Parts.antt =====
-- What the decoder makes of each kind of value that the encoder writes.
use migration_verifier_docdb.Base.{
  ℕ, suc, ◌+◌, ◌-◌, ◌*◌, ◌%◌, ◌≤◌, ◌<◌, ◌≡◌, ◌≢◌, refl, ◌∙◌, ap, Bool, true, false, List, arith,
  if◌then◌else◌, ok,
}
use migration_verifier_docdb.Base.Int.{ℤ, pos, negsuc}
use migration_verifier_docdb.Base.Words.{word, sign_bit}
use migration_verifier_docdb.Keystring.Buffer.{Buffer, Read, starts_with}
use migration_verifier_docdb.Keystring.Values.{
  KeyValue, date, timestamp, regex, KeyFields, no_fields, field, append_field, KeyItems, no_items,
  item, append_item, KeyStringVersion, c_type, Floats, int32, int64, int_value,
}
use migration_verifier_docdb.Keystring.Decoder.{Mode, read_value}
use migration_verifier_docdb.Keystring.Reads.{
  read_32, read_64, c_type_int, bytes_needed_pos, bytes_needed-le, read_int-encode, int32_value-pos,
  int32_value-neg, int64_value-pos, int64_value-neg,
}
use migration_verifier_docdb.Keystring.Encoder.{
  encode_bytes, int_bytes, int_byte, signed_byte, encode_signed, type_byte, encode_value,
  encode_fields, encode_items, IsInt32, IsInt64,
}

abbrev pub concat_fields : KeyFields → KeyFields → KeyFields
concat_fields no_fields gs = gs
concat_fields (field k v fs) gs = field k v (concat_fields fs gs)

abbrev pub concat_items : KeyItems → KeyItems → KeyItems
concat_items no_items js = js
concat_items (item v is) js = item v (concat_items is js)

pub append_field-concat_fields :
    (cs : KeyFields) (k : List ℕ) (v : KeyValue) (fs : KeyFields)
    → concat_fields (append_field cs k v) fs ≡ concat_fields cs (field k v fs)
append_field-concat_fields no_fields k v fs = refl
append_field-concat_fields (field j u cs) k v fs =
    ap (field j u) (append_field-concat_fields cs k v fs)

pub append_item-concat_items :
    (acc : KeyItems) (v : KeyValue) (is : KeyItems)
    → concat_items (append_item acc v) is ≡ concat_items acc (item v is)
append_item-concat_items no_items v is = refl
append_item-concat_items (item u acc) v is = ap (item u) (append_item-concat_items acc v is)

pub no_fields-concat_fields : (cs : KeyFields) → concat_fields cs no_fields ≡ cs
no_fields-concat_fields no_fields = refl
no_fields-concat_fields (field k v cs) = ap (field k v) (no_fields-concat_fields cs)

pub no_items-concat_items : (is : KeyItems) → concat_items is no_items ≡ is
no_items-concat_items no_items = refl
no_items-concat_items (item v is) = ap (item v) (no_items-concat_items is)

-- A type's byte is no marker, no end, and not 255.
abbrev pub IsTypeByte : ℕ → Type 0
IsTypeByte b = (10 ≤ b) × (b ≤ 240)

int_byte-IsTypeByte : (negative : Bool) (n : ℕ) → IsTypeByte (int_byte negative n)
int_byte-IsTypeByte true n = let h = bytes_needed-le 8 (2 * n) in (omega arith, omega arith)
int_byte-IsTypeByte false n = let h = bytes_needed-le 8 (2 * n) in (omega arith, omega arith)

signed_byte-IsTypeByte : (z : ℤ) → IsTypeByte (signed_byte z)
signed_byte-IsTypeByte (pos n) = int_byte-IsTypeByte false n
signed_byte-IsTypeByte (negsuc n) = int_byte-IsTypeByte true (suc n)

pub type_byte-IsTypeByte : (v : KeyValue) → IsTypeByte (type_byte v)
unfolding type_byte
type_byte-IsTypeByte KeyValue.min_key = (omega arith, omega arith)
type_byte-IsTypeByte KeyValue.max_key = (omega arith, omega arith)
type_byte-IsTypeByte KeyValue.null = (omega arith, omega arith)
type_byte-IsTypeByte KeyValue.undefined = (omega arith, omega arith)
type_byte-IsTypeByte KeyValue.int_zero = (omega arith, omega arith)
type_byte-IsTypeByte (KeyValue.boolean true) = (omega arith, omega arith)
type_byte-IsTypeByte (KeyValue.boolean false) = (omega arith, omega arith)
type_byte-IsTypeByte (date d) = (omega arith, omega arith)
type_byte-IsTypeByte (KeyValue.double d) = (omega arith, omega arith)
type_byte-IsTypeByte (timestamp t i) = (omega arith, omega arith)
type_byte-IsTypeByte (KeyValue.object_id o) = (omega arith, omega arith)
type_byte-IsTypeByte (KeyValue.text s) = (omega arith, omega arith)
type_byte-IsTypeByte (KeyValue.javascript s) = (omega arith, omega arith)
type_byte-IsTypeByte (KeyValue.code_with_scope s v) = (omega arith, omega arith)
type_byte-IsTypeByte (KeyValue.binary d t) = (omega arith, omega arith)
type_byte-IsTypeByte (regex p f) = (omega arith, omega arith)
type_byte-IsTypeByte (KeyValue.db_pointer n o) = (omega arith, omega arith)
type_byte-IsTypeByte (KeyValue.document fs) = (omega arith, omega arith)
type_byte-IsTypeByte (KeyValue.array is) = (omega arith, omega arith)
type_byte-IsTypeByte (int32 z) = signed_byte-IsTypeByte z
type_byte-IsTypeByte (int64 z) = signed_byte-IsTypeByte z

pub encode_fields-255 :
    (fs : KeyFields) (rest : Buffer) → starts_with 255 (encode_fields fs rest) ≡ false
unfolding encode_value encode_fields encode_items
encode_fields-255 no_fields rest = refl
encode_fields-255 (field k v fs) rest = let (a, b) = type_byte-IsTypeByte v in ground arith

pub encode_items-255 :
    (is : KeyItems) (rest : Buffer) → starts_with 255 (encode_items is rest) ≡ false
unfolding encode_value encode_fields encode_items
encode_items-255 no_items rest = refl
encode_items-255 (item v is) rest = let (a, b) = type_byte-IsTypeByte v in ground arith

module _ (fl : Floats) (version : KeyStringVersion) (nested : Mode → Buffer → Read KeyValue)
    (items : Buffer → Read KeyValue) where
  abbrev value_at : ℕ → Buffer → Read KeyValue
  value_at b buf = read_value fl version nested items (c_type b) buf

  int-decodes :
      (negative : Bool) (n : ℕ) (rest : Buffer)
      → n ≢ 0
      → n < sign_bit
      → value_at (int_byte negative n) (encode_bytes negative (int_bytes n) (2 * n) rest)
        ≡ ok (int_value negative n, rest)
  unfolding read_value
  int-decodes negative n rest p l =
      let h = bytes_needed-le 8 (2 * n) in
      let k = bytes_needed_pos 7 (2 * n) (λ e. p (omega arith)) in
      rw (same_byte negative ∙ c_type_int negative (int_bytes n) k h)
        (read_int-encode fl version negative n rest l)
    where
      same_byte :
          (b : Bool)
          → c_type (int_byte b n) ≡ c_type (if b then 40 - int_bytes n else 42 + int_bytes n)
      same_byte true = refl
      same_byte false = refl

  pub int32-decodes :
      (z : ℤ) (rest : Buffer)
      → IsInt32 z
      → value_at (signed_byte z) (encode_signed z rest) ≡ ok (int32 z, rest)
  int32-decodes (pos n) rest (p, l) =
      int-decodes false n rest p (omega arith)
      ∙ ap (λ x. ok (x, rest)) (int32_value-pos fl version n l)
  int32-decodes (negsuc n) rest l =
      int-decodes true (suc n) rest (λ e. absurd (omega arith)) (omega arith)
      ∙ ap (λ x. ok (x, rest)) (int32_value-neg fl version n l)

  pub int64-decodes :
      (z : ℤ) (rest : Buffer)
      → IsInt64 z
      → value_at (signed_byte z) (encode_signed z rest) ≡ ok (int64 z, rest)
  int64-decodes (pos n) rest (g, l) =
      int-decodes false n rest (λ e. absurd (omega arith)) (omega arith)
      ∙ ap (λ x. ok (x, rest)) (int64_value-pos fl version n g)
  int64-decodes (negsuc n) rest (g, l) =
      int-decodes true (suc n) rest (λ e. absurd (omega arith)) (omega arith)
      ∙ ap (λ x. ok (x, rest)) (int64_value-neg fl version n g)

  pub date-decodes :
      (d : ℕ) (rest : Buffer)
      → d < word
      → value_at 120 (encode_bytes false 8 ((d + sign_bit) % word) rest) ≡ ok (date d, rest)
  unfolding read_value c_type
  date-decodes d rest l =
      rw (read_64 ((d + sign_bit) % word) rest (omega arith))
        (ap (λ x. ok (date x, rest)) (omega arith))

  pub timestamp-decodes :
      (t i : ℕ) (rest : Buffer)
      → t < 4294967296
      → i < 4294967296
      → value_at 130 (encode_bytes false 4 t (encode_bytes false 4 i rest))
        ≡ ok (timestamp t i, rest)
  unfolding read_value c_type
  timestamp-decodes t i rest a b =
      rw (read_32 t (encode_bytes false 4 i rest) a) (rw (read_32 i rest b) refl)
