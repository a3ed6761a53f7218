-- ===== src/Protocol/Decoder/Safety.antt =====
-- internal/protocol/decoder.go: what it is for a method never to panic, and how methods combine.
use distributed_messaging_sy.Common.{
  ℕ, ◌+◌, ◌≤◌, ◌<◌, ◌^◌, ◌≡◌, ◌⊎◌, refl, ◌∙◌, Bool, true, false, some, arith, length, if◌then◌else◌,
  ltb, Bool-cases, inl, inr, Option-cases,
}
use distributed_messaging_sy.Protocol.Decoder.{Decoder, short_buffer, done, M, ◌>>=◌, pure, require}

-- The position is within the buffer, and the buffer is far from the end of the address space (a
-- request is shorter than 2 ^ 31 bytes, its size being an int32).
pub record IsValid (d : Decoder) : Type 0 where
  pub inside : d.pos ≤ length d.buf
  pub small : length d.buf < 2 ^ 62

-- From a valid state `m` returns, in a valid state over the same buffer, and does not step back.
pub record Returns {ℓ} {A : Type ℓ} (m : M A) (d : Decoder) : Type ℓ where
  pub value : A
  pub after : Decoder
  pub result : m d ≡ done value after
  pub valid : IsValid after
  pub same_buf : after.buf ≡ d.buf
  pub forward : d.pos ≤ after.pos

pub record IsSafe {ℓ} {A : Type ℓ} (m : M A) : Type ℓ where
  pub returns : (d : Decoder) → IsValid d → Returns m d

module _ {ℓ κ} {A : Type ℓ} {B : Type κ} where
  pub IsSafe-bind : (m : M A) (f : A → M B) → IsSafe m → ((a : A) → IsSafe (f a)) → IsSafe (m >>= f)
  IsSafe-bind m f sm sf = record {
    returns = λ d v.
        let r = sm.returns d v in
        let q = (sf r.value).returns r.after r.valid in
        record {
          value = q.value;
          after = q.after;
          result = rw (r.result, ◌>>=◌) q.result;
          valid = q.valid;
          same_buf = q.same_buf ∙ r.same_buf;
          forward = omega (arith, r.forward, q.forward);
        };
  }

module _ {ℓ} {A : Type ℓ} where
  pub IsSafe-pure : (a : A) → IsSafe (pure a)
  IsSafe-pure a = record {
    returns = λ d v. record {
      value = a;
      after = d;
      result = refl;
      valid = v;
      same_buf = refl;
      forward = omega arith;
    };
  }

  -- Each branch may use the test.
  pub IsSafe-if :
      (b : Bool) (m n : M A)
      → (b ≡ true → IsSafe m)
      → (b ≡ false → IsSafe n)
      → IsSafe (if b then m else n)
  IsSafe-if true m n sm sn = sm refl
  IsSafe-if false m n sm sn = sn refl

-- The two ways in which `require` returns.
record IsEnough (n : ℕ) (d : Decoder) : Type 0 where
  pub result : require n d ≡ done true d
  pub fits : d.pos + n ≤ length d.buf

record IsShortOf (n : ℕ) (d : Decoder) : Type 0 where
  pub after : Decoder
  pub result : require n d ≡ done false after
  pub same_buf : after.buf ≡ d.buf
  same_pos : after.pos ≡ d.pos

require_cases : (n : ℕ) (d : Decoder) → IsValid d → n < 2 ^ 62 → IsEnough n d ⊎ IsShortOf n d
unfolding require
require_cases n d v hn = elim (Option-cases d.error) [
  | inr (e, failed) ↦
      inr (record { after = d; result = rw failed; same_buf = refl; same_pos = refl })
  | inl fine ↦ elim (Bool-cases (ltb (length d.buf) (d.pos + n))) [
    | inl short ↦ inr (record {
      after = record d { error = some (short_buffer n d.pos (length d.buf)) };
      result = ground (arith, v.inside, v.small);
      same_buf = refl;
      same_pos = refl;
    })
    | inr enough ↦ inl (record { result = ground (arith, v.inside, v.small); fits = ground arith })
  ]
]

-- After `require n`, an action for which there is enough, or a fixed value.
pub IsSafe-require {ℓ} :
    {A : Type ℓ} (n : ℕ) (m : M A) (a : A)
    → n < 2 ^ 62
    → ((d : Decoder) → IsValid d → d.pos + n ≤ length d.buf → Returns m d)
    → IsSafe (require n >>= λ enough. if enough then m else pure a)
IsSafe-require n m a hn hm = record {
  returns = λ d v. elim (require_cases n d v hn) [
    | inl e ↦
        let r = hm d v e.fits in
        record {
          value = r.value;
          after = r.after;
          result = rw (e.result, ◌>>=◌) r.result;
          valid = r.valid;
          same_buf = r.same_buf;
          forward = r.forward;
        }
    | inr s ↦ record {
      value = a;
      after = s.after;
      result = rw (s.result, ◌>>=◌);
      valid = record {
        inside = ground (arith, s.same_buf, s.same_pos, v.inside);
        small = ground (arith, s.same_buf, v.small);
      };
      same_buf = s.same_buf;
      forward = omega (arith, s.same_pos);
    }
  ];
}
