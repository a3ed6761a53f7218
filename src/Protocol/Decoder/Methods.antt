-- ===== src/Protocol/Decoder/Methods.antt =====
-- internal/protocol/decoder.go: methods that never panic, on any input.
use distributed_messaging_sy.Common.{
  ℕ, ◌+◌, ◌*◌, ◌≤◌, ◌<◌, ◌%◌, ◌^◌, ◌≡◌, refl, true, false, Option, none, some, [], ◌∷◌, arith,
  length, take, drop, length-drop, is_negative_i16, is_negative_i32, inl, inr, Option-cases,
}
use distributed_messaging_sy.Protocol.Binary.{uint16, uint32, uint64, uvarint_loop, uvarint}
use distributed_messaging_sy.Protocol.Encoder.{Bytes}
use distributed_messaging_sy.Protocol.Decoder.{
  Decoder, DecodeError, uvarint_failed, ◌>>=◌, pure, has_failed, read_word, word, uint8, int8,
  int16, int32, int64, read_varint, get_uvarint, slice, raw_bytes, or_empty, string,
  nullable_string, nullable_bytes,
}
use distributed_messaging_sy.Protocol.Decoder.Safety.{
  IsSafe-bind, IsSafe-if, IsSafe-pure, IsSafe-require, IsValid, IsSafe, Returns,
}

-- A read of `n` bytes that succeeds wherever `n` bytes are left.
IsSafe-word :
    (get : Bytes → Option ℕ) (n : ℕ)
    → n ≤ 8
    → ((bs : Bytes) → n ≤ length bs → (v : ℕ) × (get bs ≡ some v))
    → IsSafe (word get n)
unfolding word read_word
IsSafe-word get n hn hg = IsSafe-require n (read_word get n) 0 (omega arith) (λ d v fits.
    let (x, found) = hg (drop d.pos d.buf) (omega (arith, length-drop d.pos d.buf)) in
    record {
      value = x;
      after = record d { pos = (d.pos + n) % 2 ^ 64 };
      result = rw (found, read_word);
      valid = record { inside = omega (arith, v.small); small = v.small };
      same_buf = refl;
      forward = omega (arith, v.small);
    })

uint8-some : (bs : Bytes) → 1 ≤ length bs → (v : ℕ) × (uint8 bs ≡ some v)
unfolding uint8
uint8-some [] h = absurd (omega arith)
uint8-some (a ∷ _) h = (a, refl)

uint16-some : (bs : Bytes) → 2 ≤ length bs → (v : ℕ) × (uint16 bs ≡ some v)
unfolding uint16
uint16-some [] h = absurd (omega arith)
uint16-some (a ∷ []) h = absurd (omega arith)
uint16-some (a ∷ b ∷ _) h = (_, refl)

pub uint32-some : (bs : Bytes) → 4 ≤ length bs → (v : ℕ) × (uint32 bs ≡ some v)
unfolding uint32
uint32-some [] h = absurd (omega arith)
uint32-some (a ∷ []) h = absurd (omega arith)
uint32-some (a ∷ b ∷ []) h = absurd (omega arith)
uint32-some (a ∷ b ∷ c ∷ []) h = absurd (omega arith)
uint32-some (a ∷ b ∷ c ∷ d ∷ _) h = (_, refl)

pub uint64-some : (bs : Bytes) → 8 ≤ length bs → (v : ℕ) × (uint64 bs ≡ some v)
unfolding uint64
uint64-some (a ∷ b ∷ c ∷ d ∷ e ∷ f ∷ g ∷ h ∷ _) p = (_, refl)
uint64-some _ p = absurd (omega arith)

pub IsSafe-int8 : IsSafe int8
unfolding int8
IsSafe-int8 = IsSafe-word uint8 1 (omega arith) uint8-some

pub IsSafe-int16 : IsSafe int16
unfolding int16
IsSafe-int16 = IsSafe-word uint16 2 (omega arith) uint16-some

pub IsSafe-int32 : IsSafe int32
unfolding int32
IsSafe-int32 = IsSafe-word uint32 4 (omega arith) uint32-some

pub IsSafe-int64 : IsSafe int64
unfolding int64
IsSafe-int64 = IsSafe-word uint64 8 (omega arith) uint64-some

pub IsSafe-has_failed : IsSafe has_failed
unfolding has_failed
IsSafe-has_failed = record {
  returns = λ d v. elim (Option-cases d.error) [
    | inl fine ↦ record {
      value = false;
      after = d;
      result = rw fine;
      valid = v;
      same_buf = refl;
      forward = omega arith;
    }
    | inr (e, failed) ↦ record {
      value = true;
      after = d;
      result = rw failed;
      valid = v;
      same_buf = refl;
      forward = omega arith;
    }
  ];
}

-- A varint takes at least a byte and at most what is there.
uvarint_loop_takes :
    (bs : Bytes) (i x s : ℕ) (p : ℕ × ℕ)
    → uvarint_loop i x s bs ≡ some p
    → (i < p.1) × (p.1 ≤ i + length bs)
unfolding uvarint_loop
uvarint_loop_takes [] i x s p h = cc
uvarint_loop_takes (b ∷ bs) i x s p h =
    ground (arith, uvarint_loop_takes bs (i + 1) (x + b % 128 * 2 ^ s % 2 ^ 64) (s + 7) p)

IsSafe-read_varint :
    (get : Bytes → Option (ℕ × ℕ)) (failed : ℕ → DecodeError)
    → ((bs : Bytes) (p : ℕ × ℕ) → get bs ≡ some p → p.1 ≤ length bs)
    → IsSafe (read_varint get failed)
unfolding read_varint
IsSafe-read_varint get failed hg = record {
  returns = λ d v. elim (Option-cases d.error) [
    | inr (e, p) ↦ record {
      value = 0;
      after = d;
      result = rw p;
      valid = v;
      same_buf = refl;
      forward = omega arith;
    }
    | inl p ↦ elim (Option-cases (get (drop d.pos d.buf))) [
      | inl q ↦ record {
        value = 0;
        after = record d { error = some (failed d.pos) };
        result = ground (arith, p, q, v.inside);
        valid = record { inside = v.inside; small = v.small };
        same_buf = refl;
        forward = omega arith;
      }
      | inr (r, q) ↦
          let taken = hg (drop d.pos d.buf) r q in
          record {
            value = r.0;
            after = record d { pos = (d.pos + r.1) % 2 ^ 64 };
            result = ground (arith, p, q, v.inside);
            valid = record {
              inside = omega (arith, taken, v.inside, v.small, length-drop d.pos d.buf);
              small = v.small;
            };
            same_buf = refl;
            forward = omega (arith, taken, v.inside, v.small, length-drop d.pos d.buf);
          }
    ]
  ];
}

pub IsSafe-uvarint : IsSafe get_uvarint
unfolding get_uvarint uvarint
IsSafe-uvarint =
    IsSafe-read_varint uvarint uvarint_failed
      (λ bs p h. omega (arith, uvarint_loop_takes bs 0 0 0 p h))

Returns-slice :
    (n : ℕ) (d : Decoder) → n < 2 ^ 62 → IsValid d → d.pos + n ≤ length d.buf → Returns (slice n) d
unfolding slice
Returns-slice n d hn v fits = record {
  value = take n (drop d.pos d.buf);
  after = record d { pos = (d.pos + n) % 2 ^ 64 };
  result = ground (arith, v.small);
  valid = record { inside = omega (arith, v.small); small = v.small };
  same_buf = refl;
  forward = omega (arith, v.small);
}

pub IsSafe-raw_bytes : (n : ℕ) → n < 2 ^ 62 → IsSafe (raw_bytes n)
unfolding raw_bytes
IsSafe-raw_bytes n hn = IsSafe-require n (slice n >>= λ bs. pure (some bs)) none hn (λ d v fits.
    let r = Returns-slice n d hn v fits in
    record {
      value = some r.value;
      after = r.after;
      result = rw (r.result, ◌>>=◌);
      valid = r.valid;
      same_buf = r.same_buf;
      forward = r.forward;
    })

-- String never panics.
pub IsSafe-string : IsSafe string
unfolding string
IsSafe-string = IsSafe-bind int16 _ IsSafe-int16 (λ n.
    IsSafe-bind has_failed _ IsSafe-has_failed (λ failed.
      IsSafe-if failed _ _ (λ _. IsSafe-pure [])
        (λ _.
          IsSafe-if (is_negative_i16 n) _ _ (λ _. IsSafe-pure [])
            (λ small.
              IsSafe-bind (raw_bytes n) _ (IsSafe-raw_bytes n (ground arith))
                (λ s. IsSafe-pure (or_empty s))))))

pub IsSafe-nullable_string : IsSafe nullable_string
unfolding nullable_string
IsSafe-nullable_string = IsSafe-bind int16 _ IsSafe-int16 (λ n.
    IsSafe-bind has_failed _ IsSafe-has_failed (λ failed.
      IsSafe-if failed _ _ (λ _. IsSafe-pure none)
        (λ _.
          IsSafe-if (is_negative_i16 n) _ _ (λ _. IsSafe-pure none)
            (λ small. IsSafe-raw_bytes n (ground arith)))))

pub IsSafe-nullable_bytes : IsSafe nullable_bytes
unfolding nullable_bytes
IsSafe-nullable_bytes = IsSafe-bind int32 _ IsSafe-int32 (λ n.
    IsSafe-bind has_failed _ IsSafe-has_failed (λ failed.
      IsSafe-if failed _ _ (λ _. IsSafe-pure none)
        (λ _.
          IsSafe-if (is_negative_i32 n) _ _ (λ _. IsSafe-pure none)
            (λ small. IsSafe-raw_bytes n (ground arith)))))
