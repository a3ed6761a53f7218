-- ===== src/Common/Words.antt =====
-- Machine integers. A value of a w-bit type, signed or not, is its bit pattern: a number below
-- 2 ^ w. Addition is `% 2 ^ w`; the order of a signed type compares the patterns after the sign
-- bit has been flipped.
use Prim.Native.Nat.{ℕ, ◌+◌, ◌%◌, ◌^◌, ◌<◌}
use mathlib.Core.Bool.{Bool}
use distributed_messaging_sy.Common.Tests.{ltb, leb}

abbrev pub IsU16 : ℕ → Type 0
IsU16 n = n < 2 ^ 16

abbrev pub IsU32 : ℕ → Type 0
IsU32 n = n < 2 ^ 32

abbrev pub IsU64 : ℕ → Type 0
IsU64 n = n < 2 ^ 64

-- `a < b` for int32 and for int64.
abbrev pub ltb_i32 : ℕ → ℕ → Bool
ltb_i32 a b = ltb ((a + 2 ^ 31) % 2 ^ 32) ((b + 2 ^ 31) % 2 ^ 32)

abbrev pub leb_i32 : ℕ → ℕ → Bool
leb_i32 a b = leb ((a + 2 ^ 31) % 2 ^ 32) ((b + 2 ^ 31) % 2 ^ 32)

abbrev pub ltb_i64 : ℕ → ℕ → Bool
ltb_i64 a b = ltb ((a + 2 ^ 63) % 2 ^ 64) ((b + 2 ^ 63) % 2 ^ 64)

abbrev pub leb_i64 : ℕ → ℕ → Bool
leb_i64 a b = leb ((a + 2 ^ 63) % 2 ^ 64) ((b + 2 ^ 63) % 2 ^ 64)

-- `n < 0` for int16, int32 and int64.
abbrev pub is_negative_i16 : ℕ → Bool
is_negative_i16 n = leb (2 ^ 15) n

abbrev pub is_negative_i32 : ℕ → Bool
is_negative_i32 n = leb (2 ^ 31) n

abbrev pub is_negative_i64 : ℕ → Bool
is_negative_i64 n = leb (2 ^ 63) n

abbrev pub leb_i16 : ℕ → ℕ → Bool
leb_i16 a b = leb ((a + 2 ^ 15) % 2 ^ 16) ((b + 2 ^ 15) % 2 ^ 16)
