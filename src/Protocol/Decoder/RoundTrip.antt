-- ===== src/Protocol/Decoder/RoundTrip.antt =====
-- internal/protocol/encoder.go against decoder.go: each method of the Decoder reads back what the
-- method of the Encoder wrote, at any place in a buffer, and stops behind it.
use distributed_messaging_sy.Common.{
  ℕ, ◌+◌, ◌%◌, ◌^◌, ◌<◌, ◌≡◌, refl, ap, ◌∙◌, Bool, true, false, Option, none, some, [], ◌++◌, arith,
  length, drop, length-append, drop-append, drop-add, take-append, append_assoc, append-nil, IsU16,
  IsU32, IsU64, if◌then◌else◌, ◌-◌, ◌==◌, is_negative_i16, is_negative_i32,
}
use distributed_messaging_sy.Protocol.Binary.{
  be16, be32, be64, uint16, uint32, uint64, uvarint, varint,
}
use distributed_messaging_sy.Protocol.Binary.RoundTrip.{
  uint16-be16, uint32-be32, uint64-be64, uvarint-uvarint_bytes, varint-varint_bytes,
}
use distributed_messaging_sy.Protocol.Encoder.{
  Bytes, put_int8, put_int16, put_int32, put_int64, put_uvarint, put_varint, put_string,
  put_nullable_string, put_compact_string, put_compact_nullable_string, put_nullable_bytes,
  put_bytes, put_tagged_fields,
}
use distributed_messaging_sy.Protocol.Decoder.{
  Decoder, DecodeError, uvarint_failed, varint_failed, done, M, ◌>>=◌, pure, require, read_word,
  word, uint8, int8, int16, int32, int64, has_failed, read_varint, get_uvarint, get_varint, slice,
  raw_bytes, or_empty, string, nullable_string, compact_nullable_string, compact_string,
  nullable_bytes, discard_fields, discard_tagged_fields,
}

-- No error so far, and `ahead` is what has not been read. A Go slice is shorter than 2 ^ 63.
pub record IsAt (d : Decoder) (ahead : Bytes) : Type 0 where
  pub no_error : d.error ≡ none
  pub unread : drop d.pos d.buf ≡ ahead
  pub position : d.pos + length ahead ≡ length d.buf
  pub small : length d.buf < 2 ^ 63

abbrev pub advance : Decoder → ℕ → Decoder
advance d n = record d { pos = d.pos + n }

pub IsAt-advance :
    (d : Decoder) (xs rest : Bytes) → IsAt d (xs ++ rest) → IsAt (advance d (length xs)) rest
IsAt-advance d xs rest a = record {
  no_error = a.no_error;
  unread = drop-add d.pos (length xs) d.buf ∙ rw (a.unread, drop-append);
  position = omega (arith, a.position, length-append xs rest);
  small = a.small;
}

-- `m` reads the bytes `bs` as the value `v`, wherever they stand, and stops behind them.
pub record Reads {ℓ} {A : Type ℓ} (m : M A) (v : A) (bs : Bytes) : Type ℓ where
  pub run :
      (d : Decoder) (rest : Bytes) → IsAt d (bs ++ rest) → m d ≡ done v (advance d (length bs))

pub advance-zero : (d : Decoder) → d ≡ advance d 0
advance-zero d = ground arith

advance-append :
    (d : Decoder) (xs ys : Bytes)
    → advance (advance d (length xs)) (length ys) ≡ advance d (length (xs ++ ys))
advance-append d xs ys = ground (arith, length-append xs ys)

module _ {ℓ κ} {A : Type ℓ} {B : Type κ} where
  pub bind-done :
      (m : M A) (f : A → M B) {a : A} {d d' : Decoder} → m d ≡ done a d' → (m >>= f) d ≡ f a d'
  bind-done m f p = rw (p, ◌>>=◌)

  pub Reads-bind :
      {m : M A} (f : A → M B) {a : A} {b : B} {xs ys : Bytes}
      → Reads m a xs
      → Reads (f a) b ys
      → Reads (m >>= f) b (xs ++ ys)
  Reads-bind {m} f {b = b} {xs = xs} {ys = ys} hm hf = record {
    run = λ d rest h.
        let h' = rw append_assoc at h in
        bind-done m f (hm.run d (ys ++ rest) h')
        ∙ hf.run _ rest (IsAt-advance d xs (ys ++ rest) h')
        ∙ ap (done b) (advance-append d xs ys);
  }

module _ {ℓ κ} {A : Type ℓ} {B : Type κ} where
  -- The rest of the block reads nothing.
  pub Reads-last :
      {m : M A} (f : A → M B) {a : A} {b : B} {xs : Bytes}
      → Reads m a xs
      → Reads (f a) b []
      → Reads (m >>= f) b xs
  Reads-last f hm hf = rw append-nil at (Reads-bind f hm hf)

pub Reads-pure {ℓ} : {A : Type ℓ} (a : A) → Reads (pure a) a []
Reads-pure a = record { run = λ d rest h. ap (done a) (advance-zero d) }

-- Actions that look at the state and read nothing.
pub Reads-has_failed : Reads has_failed false []
unfolding has_failed
Reads-has_failed = record { run = λ d rest h. ground (arith, h.no_error) }

Reads-word :
    (get : Bytes → Option ℕ) (n v : ℕ) (bs : Bytes)
    → length bs ≡ n
    → ((rest : Bytes) → get (bs ++ rest) ≡ some v)
    → Reads (word get n) v bs
unfolding word read_word require
Reads-word get n v bs hn hg = record {
  run = λ d rest h.
      ground (arith, hg rest, h.no_error, h.unread, h.position, h.small, length-append bs rest);
}

pub Reads-int8 : (v : ℕ) → Reads int8 v (put_int8 [] v)
unfolding int8 put_int8 uint8
Reads-int8 v = Reads-word uint8 1 v _ refl (λ rest. refl)

pub Reads-int16 : (v : ℕ) → IsU16 v → Reads int16 v (put_int16 [] v)
unfolding int16 put_int16
Reads-int16 v h = Reads-word uint16 2 v _ (unfold be16 in refl) (λ rest. uint16-be16 v rest h)

pub Reads-int32 : (v : ℕ) → IsU32 v → Reads int32 v (put_int32 [] v)
unfolding int32 put_int32
Reads-int32 v h = Reads-word uint32 4 v _ (unfold be32 in refl) (λ rest. uint32-be32 v rest h)

pub Reads-int64 : (v : ℕ) → IsU64 v → Reads int64 v (put_int64 [] v)
unfolding int64 put_int64
Reads-int64 v h = Reads-word uint64 8 v _ (unfold be64 in refl) (λ rest. uint64-be64 v rest h)

Reads-varint :
    (get : Bytes → Option (ℕ × ℕ)) (failed : ℕ → DecodeError) (v : ℕ) (bs : Bytes)
    → ((rest : Bytes) → get (bs ++ rest) ≡ some (v, length bs))
    → Reads (read_varint get failed) v bs
unfolding read_varint
Reads-varint get failed v bs hg = record {
  run = λ d rest h.
      ground (arith, hg rest, h.no_error, h.unread, h.position, h.small, length-append bs rest);
}

pub Reads-uvarint : (v : ℕ) → IsU64 v → Reads get_uvarint v (put_uvarint [] v)
unfolding get_uvarint put_uvarint
Reads-uvarint v h = Reads-varint uvarint uvarint_failed v _ (λ rest. uvarint-uvarint_bytes v rest h)

pub Reads-get_varint : (v : ℕ) → IsU64 v → Reads get_varint v (put_varint [] v)
unfolding get_varint put_varint
Reads-get_varint v h = Reads-varint varint varint_failed v _ (λ rest. varint-varint_bytes v rest h)

pub require_enough :
    (d : Decoder) (bs rest : Bytes) → IsAt d (bs ++ rest) → require (length bs) d ≡ done true d
unfolding require
require_enough d bs rest h = ground (arith, h.no_error, h.position, h.small, length-append bs rest)

Reads-slice : (bs : Bytes) → Reads (slice (length bs)) bs bs
unfolding slice
Reads-slice bs = record {
  run = λ d rest h.
      ground (arith, h.unread, h.position, h.small, length-append bs rest, take-append bs rest);
}

pub Reads-raw_bytes : (bs : Bytes) → Reads (raw_bytes (length bs)) (some bs) bs
unfolding raw_bytes
Reads-raw_bytes bs = record {
  run = λ d rest h.
      bind-done (require (length bs)) _ (require_enough d bs rest h)
      ∙ bind-done (slice (length bs)) _ ((Reads-slice bs).run d rest h);
}

Reads-or_empty : (s : Bytes) → Reads (raw_bytes (length s) >>= λ r. pure (or_empty r)) s s
Reads-or_empty s = Reads-last _ (Reads-raw_bytes s) (Reads-pure s)

pub Reads-if-false {ℓ} :
    {A : Type ℓ} (b : Bool) (m n : M A) {v : A} {bs : Bytes}
    → b ≡ false
    → Reads n v bs
    → Reads (if b then m else n) v bs
Reads-if-false b m n e h = rw e h

-- A string shorter than 32 KiB is read back by String.
pub Reads-string : (s : Bytes) → length s < 2 ^ 15 → Reads string s (put_string [] s)
unfolding string put_string
Reads-string s h = Reads-bind _ (Reads-int16 (length s % 2 ^ 16) (omega arith)) (
    Reads-bind _ Reads-has_failed (
      Reads-if-false (is_negative_i16 (length s % 2 ^ 16)) _ _ (ground arith)
        (rw (small s h) (Reads-or_empty s))))
  where
    small : (s : Bytes) → length s < 2 ^ 15 → length s % 2 ^ 16 ≡ length s
    small s h = omega arith

abbrev pub IsShort : ℕ → Option Bytes → Type 0
IsShort n none = Unit {0}
IsShort n (some s) = length s < n

pub Reads-nullable_string :
    (s : Option Bytes) → IsShort (2 ^ 15) s → Reads nullable_string s (put_nullable_string [] s)
unfolding nullable_string put_nullable_string put_string
Reads-nullable_string none h =
    Reads-last _ (Reads-int16 (2 ^ 16 - 1) (omega arith))
      (Reads-bind _ Reads-has_failed (Reads-pure none))
Reads-nullable_string (some s) h = Reads-bind _ (Reads-int16 (length s % 2 ^ 16) (omega arith)) (
    Reads-bind _ Reads-has_failed (
      Reads-if-false (is_negative_i16 (length s % 2 ^ 16)) _ _ (ground arith)
        (rw (small s h) (Reads-raw_bytes s))))
  where
    small : (s : Bytes) → length s < 2 ^ 15 → length s % 2 ^ 16 ≡ length s
    small s h = omega arith

pub Reads-nullable_bytes :
    (s : Option Bytes) → IsShort (2 ^ 31) s → Reads nullable_bytes s (put_nullable_bytes [] s)
unfolding nullable_bytes put_nullable_bytes put_bytes
Reads-nullable_bytes none h =
    Reads-last _ (Reads-int32 (2 ^ 32 - 1) (omega arith))
      (Reads-bind _ Reads-has_failed (Reads-pure none))
Reads-nullable_bytes (some s) h = Reads-bind _ (Reads-int32 (length s % 2 ^ 32) (omega arith)) (
    Reads-bind _ Reads-has_failed (
      Reads-if-false (is_negative_i32 (length s % 2 ^ 32)) _ _ (ground arith)
        (rw (small s h) (Reads-raw_bytes s))))
  where
    small : (s : Bytes) → length s < 2 ^ 31 → length s % 2 ^ 32 ≡ length s
    small s h = omega arith

pub Reads-compact_string :
    (s : Bytes) → length s < 2 ^ 63 → Reads compact_string s (put_compact_string [] s)
unfolding compact_string put_compact_string
Reads-compact_string s h = Reads-bind _ (Reads-uvarint ((length s + 1) % 2 ^ 64) (omega arith)) (
    Reads-bind _ Reads-has_failed (
      Reads-if-false ((length s + 1) % 2 ^ 64 == 0) _ _ (ground arith)
        (rw (small s h) (Reads-or_empty s))))
  where
    small : (s : Bytes) → length s < 2 ^ 63 → (length s + 1) % 2 ^ 64 - 1 ≡ length s
    small s h = omega arith

pub Reads-compact_nullable_string :
    (s : Option Bytes)
    → IsShort (2 ^ 63) s
    → Reads compact_nullable_string s (put_compact_nullable_string [] s)
unfolding compact_nullable_string put_compact_nullable_string put_compact_string
Reads-compact_nullable_string none h =
    Reads-last _ (Reads-uvarint 0 (omega arith)) (Reads-bind _ Reads-has_failed (Reads-pure none))
Reads-compact_nullable_string (some s) h =
    Reads-bind _ (Reads-uvarint ((length s + 1) % 2 ^ 64) (omega arith)) (
      Reads-bind _ Reads-has_failed (
        Reads-if-false ((length s + 1) % 2 ^ 64 == 0) _ _ (ground arith)
          (rw (small s h) (Reads-raw_bytes s))))
  where
    small : (s : Bytes) → length s < 2 ^ 63 → (length s + 1) % 2 ^ 64 - 1 ≡ length s
    small s h = omega arith

pub Reads-tagged_fields : Reads discard_tagged_fields tt (put_tagged_fields [])
unfolding discard_tagged_fields discard_fields put_tagged_fields
Reads-tagged_fields =
    Reads-bind _ Reads-has_failed (Reads-last _ (Reads-uvarint 0 (omega arith)) (Reads-pure tt))
