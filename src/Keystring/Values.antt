-- ===== src/Keystring/Values.antt =====
-- The values that the decoder of index keys gives, the types of keys, and the arithmetic on doubles
-- as bit patterns.
use migration_verifier_docdb.Base.{
  ℕ, zero, suc, ◌+◌, ◌-◌, ◌*◌, ◌/◌, ◌%◌, max, Bool, true, false, List, ◌==◌, ◌&&◌, ◌||◌, leb, ltb,
  if◌then◌else◌,
}
use migration_verifier_docdb.Base.Int.{ℤ, pos, sub_ℕ}
use migration_verifier_docdb.Base.Words.{word, sign_bit}

mutual
  -- Texts are bytes. A date is the pattern of an int64, a double that of its 64 bits. `int_zero` is a
  -- Go int.
  pub data KeyValue : Type 0 where
    min_key max_key null undefined int_zero : KeyValue
    boolean : Bool → KeyValue
    date double : ℕ → KeyValue
    timestamp : ℕ → ℕ → KeyValue
    object_id text javascript : List ℕ → KeyValue
    code_with_scope : List ℕ → KeyValue → KeyValue
    binary : List ℕ → ℕ → KeyValue
    regex db_pointer : List ℕ → List ℕ → KeyValue
    document : KeyFields → KeyValue
    array : KeyItems → KeyValue
    int32 int64 : ℤ → KeyValue

  pub data KeyFields : Type 0 where
    no_fields : KeyFields
    field : List ℕ → KeyValue → KeyFields → KeyFields

  pub data KeyItems : Type 0 where
    no_items : KeyItems
    item : KeyValue → KeyItems → KeyItems

-- `append` at the end.
abbrev pub append_field : KeyFields → List ℕ → KeyValue → KeyFields
append_field no_fields k v = field k v no_fields
append_field (field j u fs) k v = field j u (append_field fs k v)

abbrev pub append_item : KeyItems → KeyValue → KeyItems
append_item no_items v = item v no_items
append_item (item u is) v = item u (append_item is v)

pub data KeyStringVersion : Type 0 where
  v0 v1 : KeyStringVersion

-- cType. The types of integers are one constructor, with the sign and the number of bytes.
pub data CType : Type 0 where
  k_min_key k_undefined k_nullish k_string_like k_object k_array k_bin_data k_oid : CType
  k_bool_false k_bool_true k_date k_timestamp k_reg_ex k_db_ref k_code : CType
  k_code_with_scope k_max_key k_numeric_nan k_numeric_zero : CType
  k_numeric_large_magnitude k_numeric_small_magnitude : Bool → CType
  k_numeric_int : Bool → ℕ → CType
  unknown : ℕ → CType

-- numBytesForInt.
unfoldable pub num_bytes_for_int : ℕ → ℕ
num_bytes_for_int c = if leb 43 c then c - 43 + 1 else 39 - c + 1

abbrev numeric_of : ℕ → CType
numeric_of c =
    if c == 30
    then k_numeric_nan
    else if c == 31
    then k_numeric_large_magnitude true
    else if c == 40
    then k_numeric_small_magnitude true
    else if c == 41
    then k_numeric_zero
    else if c == 42
    then k_numeric_small_magnitude false
    else if c == 51
    then k_numeric_large_magnitude false
    else k_numeric_int (leb c 39) (num_bytes_for_int c)

-- The type that a byte stands for.
unfoldable pub c_type : ℕ → CType
unfolding num_bytes_for_int
c_type c =
    if leb 30 c && leb c 51
    then numeric_of c
    else if c == 10
    then k_min_key
    else if c == 15
    then k_undefined
    else if c == 20
    then k_nullish
    else if c == 60
    then k_string_like
    else if c == 70
    then k_object
    else if c == 80
    then k_array
    else if c == 90
    then k_bin_data
    else if c == 100
    then k_oid
    else if c == 110
    then k_bool_false
    else if c == 111
    then k_bool_true
    else if c == 120
    then k_date
    else if c == 130
    then k_timestamp
    else if c == 140
    then k_reg_ex
    else if c == 150
    then k_db_ref
    else if c == 160
    then k_code
    else if c == 170
    then k_code_with_scope
    else if c == 240
    then k_max_key
    else unknown c

-- float64 of a uint64, and math.Ldexp, on bit patterns.
pub record Floats : Type 0 where
  pub float64 : ℕ → ℕ
  pub ldexp : ℕ → ℤ → ℕ

abbrev pub nan : ℕ
nan = 9221120237041090561

abbrev pub infinity : ℕ
infinity = 9218868437227405312

-- Negation changes the sign bit.
abbrev pub negate_if : Bool → ℕ → ℕ
negate_if true d = (d + sign_bit) % word
negate_if false d = d

-- `^` on 64 bits and on a byte.
abbrev pub invert_if : Bool → ℕ → ℕ
invert_if true x = word - 1 - x
invert_if false x = x

abbrev pub invert_byte_if : Bool → ℕ → ℕ
invert_byte_if true b = 255 - b
invert_byte_if false b = b

-- `|` of two words, by their lowest bits.
unfoldable pub or_bits : ℕ → ℕ → ℕ → ℕ
or_bits zero a b = 0
or_bits (suc w) a b = max (a % 2) (b % 2) + 2 * or_bits w (a / 2) (b / 2)

-- 64 - bits.LeadingZeros64.
unfoldable pub bit_length : ℕ → ℕ → ℕ
bit_length zero a = 0
bit_length (suc w) a = let rest = bit_length w (a / 2) in if a == 0 then 0 else suc rest

-- The value of an integer part without a fraction.
unfoldable pub int_value : Bool → ℕ → KeyValue
int_value negative n =
    let z = if negative then sub_ℕ 0 n else pos n in
    if ltb n 2147483648 || (negative && n == 2147483648) then int32 z else int64 z
