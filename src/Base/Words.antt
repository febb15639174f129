-- ===== src/Base/Words.antt =====
-- Machine integers as bit patterns: int64 sums and differences wrap, and an int64 from 2 ^ 63 on is
-- negative.
use Prim.Native.Nat.{ℕ, ◌+◌, ◌-◌, ◌%◌}
use mathlib.Core.Path.{◌≡◌}
use mathlib.Core.Bool.{Bool, false}
use native.Mathlib.Omega.{arith}
use migration_verifier_docdb.Base.Tests.{ltb, leb, if◌then◌else◌}

abbrev pub word : ℕ
word = 18446744073709551616

abbrev pub sign_bit : ℕ
sign_bit = 9223372036854775808

abbrev pub add64 : ℕ → ℕ → ℕ
add64 a b = (a + b) % word

abbrev pub sub64 : ℕ → ℕ → ℕ
sub64 a b = (a + (word - b % word)) % word

-- `a >= b` for an int64 and a constant that is not negative.
abbrev pub ge64 : ℕ → ℕ → Bool
ge64 a b = if ltb a sign_bit then leb b a else false

-- A conversion to int32, as a bit pattern.
abbrev pub int32 : ℕ → ℕ
int32 a = a % 4294967296

-- Adding and then subtracting gives back the pattern.
pub sub64-add64 : (a b c : ℕ) → a ≡ (b + c) % word → sub64 a c ≡ b % word
sub64-add64 a b c h = omega arith
