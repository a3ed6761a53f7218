-- ===== src/Protocol/Arrays/RoundTrip.antt =====
-- internal/protocol: arrays, strings and tags in either encoding are read back as written.
use distributed_messaging_sy.Common.{
  ℕ, ◌+◌, ◌%◌, ◌^◌, ◌<◌, ◌≡◌, refl, sym, ap, subst, ◌-◌, ◌==◌, ◌∙◌, Bool, true, false, List, [],
  ◌∷◌, ◌++◌, arith, append_assoc, append-nil, length, All, is_negative_i32, is_negative_i64,
  if◌then◌else◌,
}
use distributed_messaging_sy.Protocol.Encoder.{Bytes, put_int16, put_int32, put_uvarint}
use distributed_messaging_sy.Protocol.Decoder.{M, done, array_len, compact_array_len}
use distributed_messaging_sy.Protocol.Decoder.RoundTrip.{
  Reads, advance-zero, Reads-bind, Reads-last, Reads-pure, Reads-int32, Reads-uvarint, Reads-string,
  Reads-compact_string,
}
use distributed_messaging_sy.Protocol.Arrays.{
  repeat, make_slice, put_list, decode_array_len, decode_string, encode_array_len, encode_string,
}

-- Writing appends.
pub record Appends {ℓ} {A : Type ℓ} (put : Bytes → A → Bytes) : Type ℓ where
  pub appends : (e : Bytes) (v : A) → put e v ≡ e ++ put [] v

module _ {ℓ} {A : Type ℓ} where
  pub put_list-append :
      (put : Bytes → A → Bytes)
      → Appends put
      → (e : Bytes) (vs : List A) → put_list put e vs ≡ e ++ put_list put [] vs
  unfolding put_list
  put_list-append put p e [] = sym (append-nil e)
  put_list-append put p e (v ∷ vs) =
      put_list-append put p (put e v) vs
      ∙ ap (λ b. b ++ put_list put [] vs) (p.appends e v)
      ∙ append_assoc e (put [] v) (put_list put [] vs)
      ∙ ap (λ b. e ++ b) (sym (put_list-append put p (put [] v) vs))

  pub Reads-repeat :
      (m : M A) (put : Bytes → A → Bytes) (vs : List A)
      → Appends put
      → All (λ v. Reads m v (put [] v)) vs
      → Reads (repeat (length vs) m) vs (put_list put [] vs)
  unfolding repeat put_list
  Reads-repeat m put [] p r = Reads-pure []
  Reads-repeat m put (v ∷ vs) p r =
      rw (put_list-append put p (put [] v) vs)
        (Reads-bind _ r.0 (Reads-last _ (Reads-repeat m put vs p r.1) (Reads-pure (v ∷ vs))))

pub Reads-make_slice : (n : ℕ) → n < 2 ^ 31 → Reads (make_slice n) tt []
unfolding make_slice
Reads-make_slice n h = record {
  run = λ d rest a.
      let e : is_negative_i32 n ≡ false = ground arith in rw e (ap (done tt) (advance-zero d));
}

Reads-compact_array_len :
    (n : ℕ) → n < 2 ^ 32 → Reads compact_array_len n (put_uvarint [] ((n + 1) % 2 ^ 64))
unfolding compact_array_len
Reads-compact_array_len n h =
    let v = (n + 1) % 2 ^ 64 in
    let e : (if v == 0 then 2 ^ 64 - 1 else v - 1) ≡ n = ground arith in
    subst (λ x. Reads compact_array_len x (put_uvarint [] v)) e
      (Reads-last _ (Reads-uvarint v (omega arith)) (Reads-pure _))

-- A flexible length is any number of 32 bits, negative ones included.
pub Reads-flexible_len :
    (n : ℕ) → n < 2 ^ 32 → Reads (decode_array_len true) n (put_uvarint [] ((n + 1) % 2 ^ 64))
unfolding decode_array_len
Reads-flexible_len n h =
    let e : (if is_negative_i64 n then 0 else n % 2 ^ 32) ≡ n = ground arith in
    subst (λ x. Reads (decode_array_len true) x (put_uvarint [] ((n + 1) % 2 ^ 64))) e
      (Reads-last _ (Reads-compact_array_len n h) (Reads-pure _))

pub Reads-array_len :
    (f : Bool) (n : ℕ) → n < 2 ^ 31 → Reads (decode_array_len f) n (encode_array_len f [] n)
unfolding decode_array_len encode_array_len array_len
Reads-array_len true n h = Reads-flexible_len n (omega arith)
Reads-array_len false n h =
    let v = n % 2 ^ 32 in
    let e : (if is_negative_i32 v then 0 else v) ≡ n = ground arith in
    subst (λ x. Reads (decode_array_len false) x (encode_array_len false [] n)) e
      (Reads-last _ (Reads-int32 v (omega arith)) (Reads-pure _))

pub Reads-string_of :
    (f : Bool) (s : Bytes) → length s < 2 ^ 15 → Reads (decode_string f) s (encode_string f [] s)
unfolding decode_string encode_string
Reads-string_of true s h = Reads-compact_string s (omega arith)
Reads-string_of false s h = Reads-string s h

pub encode_array_len-append :
    (f : Bool) (e : Bytes) (n : ℕ) → encode_array_len f e n ≡ e ++ encode_array_len f [] n
unfolding encode_array_len put_int32 put_uvarint
encode_array_len-append true e n = refl
encode_array_len-append false e n = refl

pub encode_string-append :
    (f : Bool) (e s : Bytes) → encode_string f e s ≡ e ++ encode_string f [] s
unfolding encode_string put_int16 put_uvarint
encode_string-append true e s = append_assoc e _ s
encode_string-append false e s = append_assoc e _ s
