-- ===== src/Protocol/Arrays.antt =====
-- internal/protocol: arrays of a message, and the helpers of offsets_for_leader_epoch.go that choose
-- between the legacy and the flexible encoding.
pub mod RoundTrip
pub mod Counted
use distributed_messaging_sy.Common.{
  ℕ, zero, suc, ◌+◌, ◌%◌, ◌^◌, Bool, true, false, Option, none, some, List, [], ◌∷◌, length,
  is_negative_i32, is_negative_i64, if◌then◌else◌,
}
use distributed_messaging_sy.Protocol.Encoder.{
  Bytes, put_array_len, put_compact_array_len, put_string, put_compact_string, put_tagged_fields,
}
use distributed_messaging_sy.Protocol.Decoder.{
  DecodeError, Decoder, Run, done, panic, M, ◌>>=◌, ◌>>◌, pure, array_len, compact_array_len,
  string, compact_string,
}

-- The loop over the elements of a slice of `n` elements, each read by `m`.
unfoldable pub repeat {ℓ} : {A : Type ℓ} → ℕ → M A → M (List A)
repeat zero m = pure []
repeat (suc n) m = do v ← m; vs ← repeat n m; pure (v ∷ vs)

-- `make([]T, n)` for an int32 `n`, which panics if it is negative.
unfoldable pub make_slice : ℕ → M (Unit {0})
make_slice n d = if is_negative_i32 n then panic else done tt d

-- The loop that writes the elements of a slice.
unfoldable pub put_list {ℓ} : {A : Type ℓ} → (Bytes → A → Bytes) → Bytes → List A → Bytes
put_list put e [] = e
put_list put e (v ∷ vs) = put_list put (put e v) vs

-- decodeOFLEArrayLen
unfoldable pub decode_array_len : Bool → M ℕ
unfolding compact_array_len array_len
decode_array_len true = do n ← compact_array_len; pure (if is_negative_i64 n then 0 else n % 2 ^ 32)
decode_array_len false = do n ← array_len; pure (if is_negative_i32 n then 0 else n)

-- decodeOFLEString
unfoldable pub decode_string : Bool → M Bytes
unfolding string compact_string
decode_string flexible = if flexible then compact_string else string

-- encodeOFLEArrayLen
unfoldable pub encode_array_len : Bool → Bytes → ℕ → Bytes
unfolding put_array_len put_compact_array_len
encode_array_len flexible e n =
    if flexible then put_compact_array_len e n else put_array_len e (n % 2 ^ 32)

-- encodeOFLEString
unfoldable pub encode_string : Bool → Bytes → Bytes → Bytes
unfolding put_string put_compact_string
encode_string flexible e s = if flexible then put_compact_string e s else put_string e s

unfoldable pub encode_tags : Bool → Bytes → Bytes
unfolding put_tagged_fields
encode_tags flexible e = if flexible then put_tagged_fields e else e

-- What a decoder of a message returns: `d.Error()` decides.
pub data Decoded {ℓ} (A : Type ℓ) : Type ℓ where
  decoded : A → Decoded A
  failed : DecodeError → Decoded A
  crashed : Decoded A

unfoldable pub finish_message {ℓ} : {A : Type ℓ} → Run A → Decoded A
finish_message panic = crashed
finish_message (done a d) = elim d.error [ none ↦ decoded a | some e ↦ failed e ]
