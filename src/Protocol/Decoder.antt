-- ===== src/Protocol/Decoder.antt =====
-- internal/protocol/decoder.go. A method of `*Decoder` is an action on a Decoder that returns a
-- value or panics: Go stops the process on an index or slice expression out of range.
-- `pos`, lengths and arguments `n` are Go ints: 64-bit patterns, whose sum wraps.
pub mod RoundTrip
pub mod Safety
pub mod Methods
use distributed_messaging_sy.Common.{
  ℕ, zero, suc, ◌+◌, ◌-◌, ◌%◌, ◌^◌, Bool, true, false, not, ◌&&◌, Option, none, some, List, [], ◌∷◌,
  length, take, drop, ltb, leb, ◌==◌, if◌then◌else◌, ltb_i64, is_negative_i16, is_negative_i32,
}
use distributed_messaging_sy.Protocol.Binary.{uint16, uint32, uint64, uvarint, varint}
use distributed_messaging_sy.Protocol.Encoder.{Bytes}

-- The texts of the errors are left out, their arguments are kept.
pub data DecodeError : Type 0 where
  short_buffer : ℕ → ℕ → ℕ → DecodeError
  uvarint_failed varint_failed : ℕ → DecodeError

pub record Decoder : Type 0 where
  pub buf : Bytes
  pub pos : ℕ
  pub error : Option DecodeError

pub data Run {ℓ} (A : Type ℓ) : Type ℓ where
  done : A → Decoder → Run A
  panic : Run A

abbrev pub M {ℓ} : Type ℓ → Type ℓ
M A = Decoder → Run A

infixl 5 ◌>>=◌ ◌>>◌
abbrev pub ◌>>=◌ {ℓ κ} : {A : Type ℓ} {B : Type κ} → M A → (A → M B) → M B
◌>>=◌ m f d = elim (m d) [ panic ↦ panic | done a d' ↦ f a d' ]

abbrev pub ◌>>◌ {ℓ κ} : {A : Type ℓ} {B : Type κ} → M A → M B → M B
m >> k = m >>= λ _. k

abbrev pub pure {ℓ} : {A : Type ℓ} → A → M A
pure a d = done a d

-- NewDecoder
abbrev pub new_decoder : Bytes → Decoder
new_decoder bs = record { buf = bs; pos = 0; error = none }

unfoldable pub has_failed : M Bool
has_failed d = elim d.error [ none ↦ done false d | some e ↦ done true d ]

unfoldable pub fail : DecodeError → M (Unit {0})
fail e d = done tt (record d { error = some e })

-- require
unfoldable pub require : ℕ → M Bool
require n d = elim d.error [
  | some e ↦ done false d
  | none ↦
      if ltb_i64 (length d.buf) ((d.pos + n) % 2 ^ 64)
      then done false (record d { error = some (short_buffer n d.pos (length d.buf)) })
      else done true d
]

-- `get(d.buf[d.pos:])`, which panics on a short slice, and `d.pos += n`.
unfoldable pub read_word : (Bytes → Option ℕ) → ℕ → M ℕ
read_word get n d = elim (get (drop d.pos d.buf)) [
  | none ↦ panic
  | some v ↦ done v (record d { pos = (d.pos + n) % 2 ^ 64 })
]

unfoldable pub word : (Bytes → Option ℕ) → ℕ → M ℕ
unfolding require read_word
word get n = do enough ← require n; if enough then read_word get n else pure 0

unfoldable pub uint8 : Bytes → Option ℕ
uint8 [] = none
uint8 (b ∷ bs) = some b

-- Int8, Int16, Int32, Int64, Uint32, Bool: bit patterns.
unfoldable pub int8 : M ℕ
unfolding word uint8
int8 = word uint8 1

unfoldable pub int16 : M ℕ
unfolding word uint16
int16 = word uint16 2

unfoldable pub int32 : M ℕ
unfolding word uint32
int32 = word uint32 4

unfoldable pub int64 : M ℕ
unfolding word uint64
int64 = word uint64 8

unfoldable pub word32 : M ℕ
unfolding word uint32
word32 = word uint32 4

unfoldable pub bool : M Bool
unfolding int8
bool = do v ← int8; pure (not (v == 0))

-- The common part of Uvarint and Varint. `d.buf[d.pos:]` panics for a position behind the end.
unfoldable pub read_varint : (Bytes → Option (ℕ × ℕ)) → (ℕ → DecodeError) → M ℕ
read_varint get failed d = elim d.error [
  | some e ↦ done 0 d
  | none ↦ if ltb (length d.buf) d.pos then panic else elim (get (drop d.pos d.buf)) [
    | none ↦ done 0 (record d { error = some (failed d.pos) })
    | some (v, n) ↦ done v (record d { pos = (d.pos + n) % 2 ^ 64 })
  ]
]

unfoldable pub get_uvarint : M ℕ
unfolding read_varint
get_uvarint = read_varint uvarint uvarint_failed

unfoldable pub get_varint : M ℕ
unfolding read_varint
get_varint = read_varint varint varint_failed

-- `d.buf[d.pos : d.pos+n]` and `d.pos += n`. The bounds of a slice are taken unsigned here, since
-- a negative one panics as one that is too large does.
unfoldable pub slice : ℕ → M Bytes
slice n d =
    let end = (d.pos + n) % 2 ^ 64 in
    if leb d.pos end && leb end (length d.buf)
    then done (take n (drop d.pos d.buf)) (record d { pos = end })
    else panic

-- RawBytes, and the end of the methods for strings: nil or "" where `require` fails.
unfoldable pub raw_bytes : ℕ → M (Option Bytes)
unfolding require slice
raw_bytes n = do enough ← require n; if enough then (do bs ← slice n; pure (some bs)) else pure none

abbrev pub or_empty : Option Bytes → Bytes
or_empty none = []
or_empty (some bs) = bs

-- String
unfoldable pub string : M Bytes
unfolding int16 has_failed raw_bytes
string = do
  n ← int16
  failed ← has_failed
  if failed
      then pure []
      else if is_negative_i16 n
      then pure []
      else do s ← raw_bytes n; pure (or_empty s)

unfoldable pub nullable_string : M (Option Bytes)
unfolding int16 has_failed raw_bytes
nullable_string = do
  n ← int16
  failed ← has_failed
  if failed then pure none else if is_negative_i16 n then pure none else raw_bytes n

-- `raw` is a uint64; `int(raw) - 1` as a bit pattern is `raw - 1`.
unfoldable pub compact_nullable_string : M (Option Bytes)
unfolding get_uvarint has_failed raw_bytes
compact_nullable_string = do
  raw ← get_uvarint
  failed ← has_failed
  if failed then pure none else if raw == 0 then pure none else raw_bytes (raw - 1)

unfoldable pub compact_string : M Bytes
unfolding get_uvarint has_failed raw_bytes
compact_string = do
  raw ← get_uvarint
  failed ← has_failed
  if failed
      then pure []
      else if raw == 0
      then pure []
      else do s ← raw_bytes (raw - 1); pure (or_empty s)

unfoldable pub nullable_bytes : M (Option Bytes)
unfolding int32 has_failed raw_bytes
nullable_bytes = do
  n ← int32
  failed ← has_failed
  if failed then pure none else if is_negative_i32 n then pure none else raw_bytes n

unfoldable pub array_len : M ℕ
unfolding int32
array_len = int32

-- CompactArrayLen: -1 for 0.
unfoldable pub compact_array_len : M ℕ
unfolding get_uvarint
compact_array_len = do v ← get_uvarint; pure (if v == 0 then 2 ^ 64 - 1 else v - 1)

-- `d.pos += n`
unfoldable pub skip : ℕ → M (Unit {0})
skip n d = done tt (record d { pos = (d.pos + n) % 2 ^ 64 })

-- The loop of DiscardTaggedFields over the fields that are left.
unfoldable pub discard_fields : ℕ → M (Unit {0})
unfolding get_uvarint require skip
discard_fields zero = pure tt
discard_fields (suc n) = do
  _ ← get_uvarint
  field_size ← get_uvarint
  enough ← require field_size
  if enough then (do skip field_size; discard_fields n) else pure tt

unfoldable pub discard_tagged_fields : M (Unit {0})
unfolding has_failed get_uvarint discard_fields
discard_tagged_fields = do
  failed ← has_failed
  if failed then pure tt else do n ← get_uvarint; discard_fields n
