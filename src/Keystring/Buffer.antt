-- ===== src/Keystring/Buffer.antt =====
-- The bufferConsumer of keystring_decoder.go: reads from the bytes that are left, each below 256.
use migration_verifier_docdb.Base.{
  ℕ, zero, suc, ◌+◌, ◌*◌, Bool, true, false, List, [], ◌∷◌, ◌++◌, ◌==◌, if◌then◌else◌, Outcome, ok,
  err, ◌>>=◌, length,
}

-- The errors of the decoder. A negative shift is a panic, and `out_of_fuel` is the model's own.
pub data DecodeError : Type 0 where
  unexpected_end negative_shift out_of_fuel : DecodeError
  unknown_ctype : ℕ → DecodeError

-- What is left of `buf`, from `index` on.
abbrev pub Buffer : Type 0
Buffer = List ℕ

abbrev pub Read : Type 0 → Type 0
Read A = Outcome DecodeError (A × Buffer)

abbrev pub has_uint8 : Buffer → Bool
has_uint8 [] = false
has_uint8 (b ∷ bs) = true

-- readUint8.
unfoldable pub read_uint8 : Buffer → Read ℕ
read_uint8 [] = err unexpected_end
read_uint8 (b ∷ bs) = ok (b, bs)

-- readUint32BE: `|` of disjoint bits is a sum.
unfoldable pub read_uint32_be : Buffer → Read ℕ
unfolding read_uint8
read_uint32_be buf = do
  (b3, buf3) ← read_uint8 buf
  (b2, buf2) ← read_uint8 buf3
  (b1, buf1) ← read_uint8 buf2
  (b0, buf0) ← read_uint8 buf1
  ok (b3 * 16777216 + b2 * 65536 + b1 * 256 + b0, buf0)

-- readUint64BE.
unfoldable pub read_uint64_be : Buffer → Read ℕ
unfolding read_uint32_be
read_uint64_be buf = do
  (w1, buf1) ← read_uint32_be buf
  (w0, buf0) ← read_uint32_be buf1
  ok (w1 * 4294967296 + w0, buf0)

-- readBytes.
unfoldable pub read_bytes : ℕ → Buffer → Read (List ℕ)
read_bytes zero buf = ok ([], buf)
read_bytes (suc n) [] = err unexpected_end
read_bytes (suc n) (b ∷ bs) = read_bytes n bs >>= λ (r, rest). ok (b ∷ r, rest)

-- bytes.IndexByte of 0, or the length of what is left.
unfoldable pub index_of_nul : Buffer → ℕ
index_of_nul [] = 0
index_of_nul (b ∷ bs) = let n = index_of_nul bs in if b == 0 then 0 else suc n

-- readCString.
unfoldable pub read_cstring : Buffer → Read (List ℕ)
unfolding read_bytes index_of_nul read_uint8
read_cstring buf = do
  (s, buf1) ← read_bytes (index_of_nul buf) buf
  (_, buf2) ← read_uint8 buf1
  ok (s, buf2)

abbrev pub starts_with : ℕ → Buffer → Bool
starts_with b [] = false
starts_with b (c ∷ cs) = c == b

abbrev pub rest_of : Buffer → Buffer
rest_of [] = []
rest_of (b ∷ bs) = bs

-- The loop of readCStringWithNuls: fuel for each round, of which each takes a byte.
unfoldable pub read_nuls : ℕ → List ℕ → Buffer → Read (List ℕ)
unfolding read_cstring
read_nuls zero s buf = err out_of_fuel
read_nuls (suc n) s buf =
    let next = λ (t : List ℕ) (rest : Buffer). read_nuls n (s ++ 0 ∷ t) rest in
    if starts_with 255 buf
    then (read_cstring (rest_of buf) >>= λ (t, rest). next t rest)
    else ok (s, buf)

-- readCStringWithNuls.
unfoldable pub read_cstring_with_nuls : Buffer → Read (List ℕ)
unfolding read_nuls
read_cstring_with_nuls buf = read_cstring buf >>= λ (s, rest). read_nuls (suc (length rest)) s rest
