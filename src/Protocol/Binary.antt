-- ===== src/Protocol/Binary.antt =====
-- What internal/protocol and internal/log use of Go's encoding/binary: big-endian words and
-- LEB128 varints. A byte is a number below 256, a byte slice a list of them.
pub mod RoundTrip
use distributed_messaging_sy.Common.{
  ℕ, zero, suc, ◌+◌, ◌-◌, ◌*◌, ◌/◌, ◌%◌, ◌^◌, Bool, ◌&&◌, Option, none, some, List, [], ◌∷◌, ltb,
  leb, ◌==◌, if◌then◌else◌,
}

-- BigEndian.AppendUint16, AppendUint32, AppendUint64
unfoldable pub be16 : ℕ → List ℕ
be16 v = (v / 256 % 256) ∷ (v % 256) ∷ []

unfoldable pub be32 : ℕ → List ℕ
be32 v = (v / 2 ^ 24 % 256) ∷ (v / 2 ^ 16 % 256) ∷ (v / 256 % 256) ∷ (v % 256) ∷ []

unfoldable pub be64 : ℕ → List ℕ
be64 v =
    (v / 2 ^ 56 % 256)
    ∷ (v / 2 ^ 48 % 256)
    ∷ (v / 2 ^ 40 % 256)
    ∷ (v / 2 ^ 32 % 256)
    ∷ (v / 2 ^ 24 % 256)
    ∷ (v / 2 ^ 16 % 256)
    ∷ (v / 256 % 256)
    ∷ (v % 256)
    ∷ []

-- BigEndian.Uint16, Uint32, Uint64; `none` is the index panic on a short slice.
unfoldable pub uint16 : List ℕ → Option ℕ
uint16 (a ∷ b ∷ _) = some (a * 256 + b)
uint16 _ = none

unfoldable pub uint32 : List ℕ → Option ℕ
uint32 (a ∷ b ∷ c ∷ d ∷ _) = some (a * 2 ^ 24 + b * 2 ^ 16 + c * 256 + d)
uint32 _ = none

unfoldable pub uint64 : List ℕ → Option ℕ
uint64 (a ∷ b ∷ c ∷ d ∷ e ∷ f ∷ g ∷ h ∷ _) =
    some (a * 2 ^ 56 + b * 2 ^ 48 + c * 2 ^ 40 + d * 2 ^ 32 + e * 2 ^ 24 + f * 2 ^ 16 + g * 256 + h)
uint64 _ = none

-- PutUvarint. `rounds` bounds the loop `for x >= 0x80`: nine rounds of seven bits leave one bit
-- of a uint64.
unfoldable pub uvarint_bytes_from : ℕ → ℕ → List ℕ
uvarint_bytes_from zero x = (x % 256) ∷ []
uvarint_bytes_from (suc rounds) x =
    let rest = uvarint_bytes_from rounds (x / 128) in
    if leb 128 x then (x % 128 + 128) ∷ rest else (x % 256) ∷ []

unfoldable pub uvarint_bytes : ℕ → List ℕ
uvarint_bytes x = uvarint_bytes_from 9 x

-- PutVarint: zigzag, on the bit pattern of an int64.
unfoldable pub zigzag : ℕ → ℕ
zigzag x = let ux = x * 2 % 2 ^ 64 in if leb (2 ^ 63) x then 2 ^ 64 - 1 - ux else ux

unfoldable pub varint_bytes : ℕ → List ℕ
varint_bytes x = uvarint_bytes (zigzag x)

-- Uvarint: the value with the number of bytes read, or `none` where Go's count is not positive.
-- `x | b << s` is a sum, since `x` has no bit at `s` or above.
unfoldable pub uvarint_loop : ℕ → ℕ → ℕ → List ℕ → Option (ℕ × ℕ)
uvarint_loop i x s [] = none
uvarint_loop i x s (b ∷ bs) =
    let rest = uvarint_loop (i + 1) (x + b % 128 * 2 ^ s % 2 ^ 64) (s + 7) bs in
    if i == 10
    then none
    else if ltb b 128
    then if i == 9 && ltb 1 b then none else some (x + b * 2 ^ s % 2 ^ 64, i + 1)
    else rest

unfoldable pub uvarint : List ℕ → Option (ℕ × ℕ)
uvarint bs = uvarint_loop 0 0 0 bs

-- Varint
unfoldable pub unzigzag : ℕ → ℕ
unzigzag ux = if ux % 2 == 0 then ux / 2 else 2 ^ 64 - 1 - ux / 2

unfoldable pub varint_of : Option (ℕ × ℕ) → Option (ℕ × ℕ)
varint_of none = none
varint_of (some (ux, n)) = some (unzigzag ux, n)

unfoldable pub varint : List ℕ → Option (ℕ × ℕ)
varint bs = varint_of (uvarint bs)
