-- ===== src/Protocol/Encoder.antt =====
-- internal/protocol/encoder.go. An Encoder is its byte slice; a method returns the new one.
-- A Go string or byte slice is a list of bytes, nil is `none`.
use distributed_messaging_sy.Common.{
  ℕ, ◌+◌, ◌-◌, ◌%◌, ◌^◌, Bool, Option, none, some, List, [], ◌∷◌, ◌++◌, length, leb, if◌then◌else◌,
  take, drop,
}
use distributed_messaging_sy.Protocol.Binary.{be16, be32, be64, uvarint_bytes, varint_bytes}

-- byte slices and strings
abbrev pub Bytes : Type 0
Bytes = List ℕ

unfoldable pub put_int8 : Bytes → ℕ → Bytes
put_int8 b v = b ++ (v ∷ [])

unfoldable pub put_int16 : Bytes → ℕ → Bytes
put_int16 b v = b ++ be16 v

unfoldable pub put_int32 : Bytes → ℕ → Bytes
put_int32 b v = b ++ be32 v

unfoldable pub put_int64 : Bytes → ℕ → Bytes
put_int64 b v = b ++ be64 v

unfoldable pub put_uint32 : Bytes → ℕ → Bytes
put_uint32 b v = b ++ be32 v

unfoldable pub put_bool : Bytes → Bool → Bytes
put_bool b v = if v then b ++ (1 ∷ []) else b ++ (0 ∷ [])

unfoldable pub put_uvarint : Bytes → ℕ → Bytes
put_uvarint b v = b ++ uvarint_bytes v

unfoldable pub put_varint : Bytes → ℕ → Bytes
put_varint b v = b ++ varint_bytes v

-- `int16(len(s))` drops the bits above the sixteenth.
unfoldable pub put_string : Bytes → Bytes → Bytes
unfolding put_int16
put_string b s = put_int16 b (length s % 2 ^ 16) ++ s

unfoldable pub put_nullable_string : Bytes → Option Bytes → Bytes
unfolding put_int16 put_string
put_nullable_string b none = put_int16 b (2 ^ 16 - 1)
put_nullable_string b (some s) = put_string b s

unfoldable pub put_compact_string : Bytes → Bytes → Bytes
unfolding put_uvarint
put_compact_string b s = put_uvarint b ((length s + 1) % 2 ^ 64) ++ s

unfoldable pub put_compact_nullable_string : Bytes → Option Bytes → Bytes
unfolding put_uvarint put_compact_string
put_compact_nullable_string b none = put_uvarint b 0
put_compact_nullable_string b (some s) = put_compact_string b s

-- PutBytes, `int32(len(b))`
unfoldable pub put_bytes : Bytes → Bytes → Bytes
unfolding put_int32
put_bytes b bs = put_int32 b (length bs % 2 ^ 32) ++ bs

unfoldable pub put_nullable_bytes : Bytes → Option Bytes → Bytes
unfolding put_int32 put_bytes
put_nullable_bytes b none = put_int32 b (2 ^ 32 - 1)
put_nullable_bytes b (some bs) = put_bytes b bs

unfoldable pub put_compact_bytes : Bytes → Bytes → Bytes
unfolding put_uvarint
put_compact_bytes b bs = put_uvarint b ((length bs + 1) % 2 ^ 64) ++ bs

unfoldable pub put_raw_bytes : Bytes → Bytes → Bytes
put_raw_bytes b bs = b ++ bs

unfoldable pub put_array_len : Bytes → ℕ → Bytes
unfolding put_int32
put_array_len b n = put_int32 b n

-- `n` is an int.
unfoldable pub put_compact_array_len : Bytes → ℕ → Bytes
unfolding put_uvarint
put_compact_array_len b n = put_uvarint b ((n + 1) % 2 ^ 64)

unfoldable pub put_tagged_fields : Bytes → Bytes
unfolding put_uvarint
put_tagged_fields b = put_uvarint b 0

-- ReserveInt32: the position of the hole comes back with the bytes.
unfoldable pub reserve_int32 : Bytes → Bytes × ℕ
reserve_int32 b = (b ++ (0 ∷ 0 ∷ 0 ∷ 0 ∷ []), length b)

-- FillInt32; `none` is the panic of a hole that does not fit.
unfoldable pub fill_int32 : Bytes → ℕ → ℕ → Option Bytes
fill_int32 b pos v =
    if leb (pos + 4) (length b) then some (take pos b ++ (be32 v ++ drop (pos + 4) b)) else none
