-- ===== src/Protocol/Binary/RoundTrip.antt =====
-- Go's encoding/binary as internal/protocol uses it: what is written is read back.
use distributed_messaging_sy.Common.{
  ℕ, zero, suc, ◌+◌, ◌*◌, ◌/◌, ◌%◌, ◌^◌, ◌≤◌, ◌<◌, ◌≡◌, ap, sym, ◌∙◌, some, List, ◌++◌, arith,
  length, IsU16, IsU32, IsU64,
}
use native.Mathlib.Nat.{add-mul, mul_assoc}
use native.Mathlib.Numerals.{towards_suc}
use distributed_messaging_sy.Protocol.Binary.{
  be16, be32, be64, uint16, uint32, uint64, uvarint_bytes_from, uvarint_bytes, zigzag, varint_bytes,
  uvarint_loop, uvarint, unzigzag, varint_of, varint,
}

pub uint16-be16 : (v : ℕ) (rest : List ℕ) → IsU16 v → uint16 (be16 v ++ rest) ≡ some v
unfolding uint16 be16
uint16-be16 v rest h = ground arith

pub uint32-be32 : (v : ℕ) (rest : List ℕ) → IsU32 v → uint32 (be32 v ++ rest) ≡ some v
unfolding uint32 be32
uint32-be32 v rest h = ground arith

pub uint64-be64 : (v : ℕ) (rest : List ℕ) → IsU64 v → uint64 (be64 v ++ rest) ≡ some v
unfolding uint64 be64
uint64-be64 v rest h = ground arith

-- A quotient and a remainder by 128, put back together above the bits read so far.
regroup : (q r unit : ℕ) → (q * 128 + r) * unit ≡ r * unit + q * (128 * unit)
regroup q r unit = omega (arith, add-mul (q * 128) r unit, mul_assoc q 128 unit)

seven_more : (bits : ℕ) → 128 * 2 ^ bits ≡ 2 ^ (bits + 7)
seven_more bits = simp towards_suc (omega arith)

rounds : (x bits : ℕ) → x * 2 ^ bits ≡ x % 128 * 2 ^ bits + x / 128 * 2 ^ (bits + 7)
rounds x bits =
    let whole : x / 128 * 128 + x % 128 ≡ x = omega arith in
    ap (λ y. y * 2 ^ bits) (sym whole)
    ∙ regroup (x / 128) (x % 128) (2 ^ bits)
    ∙ ap (λ u. x % 128 * 2 ^ bits + x / 128 * u) (seven_more bits)

uvarint_loop-bytes :
    (k i w x s : ℕ) (rest : List ℕ)
    → i + k ≡ 9
    → w < 2 * 128 ^ k
    → IsU64 (x + w * 2 ^ s)
    → uvarint_loop i x s (uvarint_bytes_from k w ++ rest)
      ≡ some (x + w * 2 ^ s, i + length (uvarint_bytes_from k w))
unfolding uvarint_loop uvarint_bytes_from
uvarint_loop-bytes zero i w x s rest hi hw fits = ground arith
uvarint_loop-bytes (suc k) i w x s rest hi hw fits =
    ground
      (arith, rounds w s, uvarint_loop-bytes k (i + 1) (w / 128) (x + w % 128 * 2 ^ s) (s + 7) rest)

pub uvarint-uvarint_bytes :
    (v : ℕ) (rest : List ℕ)
    → IsU64 v
    → uvarint (uvarint_bytes v ++ rest) ≡ some (v, length (uvarint_bytes v))
unfolding uvarint uvarint_bytes
uvarint-uvarint_bytes v rest h = ground (arith, uvarint_loop-bytes 9 0 v 0 0 rest)

unzigzag-zigzag : (x : ℕ) → IsU64 x → (unzigzag (zigzag x) ≡ x) × IsU64 (zigzag x)
unfolding unzigzag zigzag
unzigzag-zigzag x h = ground arith

pub varint-varint_bytes :
    (x : ℕ) (rest : List ℕ)
    → IsU64 x
    → varint (varint_bytes x ++ rest) ≡ some (x, length (varint_bytes x))
unfolding varint varint_of varint_bytes
varint-varint_bytes x rest h =
    ground (arith, unzigzag-zigzag x h, uvarint-uvarint_bytes (zigzag x) rest)

length-uvarint_bytes_from :
    (k x : ℕ) → (1 ≤ length (uvarint_bytes_from k x)) × (length (uvarint_bytes_from k x) ≤ k + 1)
unfolding uvarint_bytes_from
length-uvarint_bytes_from zero x = omega arith
length-uvarint_bytes_from (suc k) x = ground (arith, length-uvarint_bytes_from k (x / 128))

pub length-uvarint_bytes :
    (x : ℕ) → (1 ≤ length (uvarint_bytes x)) × (length (uvarint_bytes x) ≤ 10)
unfolding uvarint_bytes
length-uvarint_bytes x = length-uvarint_bytes_from 9 x
