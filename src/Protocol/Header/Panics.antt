-- ===== src/Protocol/Header/Panics.antt =====
-- internal/protocol/header.go and decoder.go: which headers can panic ParseRequestHeader.
use distributed_messaging_sy.Common.{
  ℕ, ◌+◌, ◌%◌, ◌≤◌, ◌<◌, ◌^◌, ◌≡◌, ◌≢◌, ◌⊎◌, refl, sym, ap, ◌∙◌, Bool, true, false, none, [], ◌++◌,
  arith, length, leb, if◌then◌else◌, Option-cases, inl, inr, IsU64,
}
use distributed_messaging_sy.Protocol.Encoder.{
  Bytes, put_int16, put_int32, put_uvarint, put_nullable_string,
}
use distributed_messaging_sy.Protocol.Decoder.{
  Decoder, done, M, ◌>>=◌, ◌>>◌, pure, new_decoder, int16, int32, has_failed, get_uvarint, require,
  skip, discard_fields, discard_tagged_fields,
}
use distributed_messaging_sy.Protocol.Decoder.RoundTrip.{
  IsAt, advance, IsAt-advance, bind-done, Reads-int16, Reads-int32, Reads-uvarint,
}
use distributed_messaging_sy.Protocol.Decoder.Safety.{
  IsValid, Returns, IsSafe, IsSafe-bind, IsSafe-pure, IsSafe-if,
}
use distributed_messaging_sy.Protocol.Decoder.Methods.{
  IsSafe-int16, IsSafe-int32, IsSafe-nullable_string,
}
use distributed_messaging_sy.Protocol.ApiKey.{request_header_version}
use distributed_messaging_sy.Protocol.Header.RoundTrip.{IsHeader, Reads-optional_client_id}
use distributed_messaging_sy.Protocol.Header.{
  RequestHeader, panicked, finish, optional_client_id, optional_tagged_fields, request_header,
  parse_request_header,
}

-- The rest of ParseRequestHeader once the key and the version are known.
header_rest : ℕ → ℕ → M RequestHeader
header_rest key version = do
  correlation ← int32
  client ← optional_client_id (request_header_version key version)
  optional_tagged_fields (leb 2 (request_header_version key version))
  pure (record {
    api_key = key;
    api_version = version;
    correlation_id = correlation;
    client_id = client;
  })

IsSafe-optional_tagged_fields : (b : Bool) → b ≡ false → IsSafe (optional_tagged_fields b)
unfolding optional_tagged_fields
IsSafe-optional_tagged_fields b h = rw h (IsSafe-pure tt)

IsSafe-header_rest :
    (key version : ℕ)
    → leb 2 (request_header_version key version) ≡ false
    → IsSafe (header_rest key version)
unfolding header_rest optional_client_id
IsSafe-header_rest key version plain = IsSafe-bind int32 _ IsSafe-int32 (λ correlation.
    IsSafe-bind _ _
      (IsSafe-if (leb 1 (request_header_version key version)) _ _ (λ _. IsSafe-nullable_string)
        (λ _. IsSafe-pure none))
      (λ client. IsSafe-bind _ _ (IsSafe-optional_tagged_fields _ plain) (λ _. IsSafe-pure _)))

finish-Returns :
    (msg : Bytes) (m : M RequestHeader) (d : Decoder)
    → d.buf ≡ msg
    → Returns m d
    → finish msg (m d) ≢ panicked
unfolding finish
finish-Returns msg m d same r = rw r.result (elim (Option-cases r.after.error) [
  | inl fine ↦ rw fine (λ p. ground (arith, r.valid.inside, ap length r.same_buf, ap length same))
  | inr (e, failed) ↦ rw failed (λ p. cc)
])

version_cases :
    (key version : ℕ)
    → (leb 2 (request_header_version key version) ≡ false)
      ⊎ (request_header_version key version ≡ 2)
unfolding request_header_version
version_cases key version = ground arith

header_rest_lem :
    (msg : Bytes) (key version : ℕ) (d d' : Decoder)
    → int16 (new_decoder msg) ≡ done key d
    → int16 d ≡ done version d'
    → parse_request_header msg ≡ finish msg (header_rest key version d')
unfolding parse_request_header request_header header_rest
header_rest_lem msg key version d d' p q =
    ap (finish msg) (bind-done int16 _ p ∙ bind-done int16 _ q)

flexible_of_panicked :
    (msg : Bytes) (key version : ℕ) (d d' : Decoder)
    → int16 (new_decoder msg) ≡ done key d
    → int16 d ≡ done version d'
    → IsValid d'
    → d'.buf ≡ msg
    → parse_request_header msg ≡ panicked
    → request_header_version key version ≡ 2
flexible_of_panicked msg key version d d' r q v same p = elim (version_cases key version) [
  | inr flexible ↦ flexible
  | inl plain ↦ absurd (
      finish-Returns msg (header_rest key version) d' same
        ((IsSafe-header_rest key version plain).returns d' v)
        (sym (header_rest_lem msg key version d d' r q) ∙ p))
]

-- A request that panics ParseRequestHeader has a readable key and version, and they ask for the
-- header with tagged fields (version 2): no other request, however short or malformed, does.
pub parse_request_header-panicked :
    (msg : Bytes)
    → length msg < 2 ^ 62
    → parse_request_header msg ≡ panicked
    → (key version : ℕ) × (d : Decoder) × (d' : Decoder) × (int16 (new_decoder msg) ≡ done key d)
      × (int16 d ≡ done version d')
      × (request_header_version key version ≡ 2)
parse_request_header-panicked msg small p =
    let d = new_decoder msg in
    let v : IsValid d = record { inside = omega arith; small = small } in
    let r = IsSafe-int16.returns d v in
    let q = IsSafe-int16.returns r.after r.valid in
    (
      r.value,
      q.value,
      r.after,
      q.after,
      r.result,
      q.result,
      flexible_of_panicked msg r.value q.value r.after q.after r.result q.result q.valid
          (q.same_buf ∙ r.same_buf) p,
    )

-- `require` lets a negative size through: the sum is negative, and so not beyond the end.
require_negative :
    (d : Decoder) (size : ℕ) (rest : Bytes)
    → IsAt d rest
    → 2 ^ 63 ≤ size
    → d.pos + size < 2 ^ 64
    → require size d ≡ done true d
unfolding require
require_negative d size rest a neg fits = ground (arith, a.no_error, a.position, a.small)

discard_one :
    (d : Decoder) (tag size : ℕ) (rest : Bytes)
    → IsU64 tag
    → IsU64 size
    → 2 ^ 63 ≤ size
    → IsAt d (put_uvarint [] tag ++ (put_uvarint [] size ++ rest))
    → let d' = advance (advance d (length (put_uvarint [] tag))) (length (put_uvarint [] size)) in
      d'.pos + size < 2 ^ 64
      → discard_fields 1 d ≡ done tt (record d' { pos = (d'.pos + size) % 2 ^ 64 })
unfolding discard_fields skip
discard_one d tag size rest ht hs neg a fits =
    let d1 = advance d (length (put_uvarint [] tag)) in
    let d2 = advance d1 (length (put_uvarint [] size)) in
    let a1 = IsAt-advance d (put_uvarint [] tag) (put_uvarint [] size ++ rest) a in
    let a2 = IsAt-advance d1 (put_uvarint [] size) rest a1 in
    let after_require =
      λ (enough : Bool). if enough then (skip size >> discard_fields 0) else pure tt in
    let after_size =
      λ (n : ℕ). require n >>= λ enough. if enough then (skip n >> discard_fields 0) else pure tt in
    bind-done get_uvarint (λ (t : ℕ). get_uvarint >>= after_size) {d = d}
      ((Reads-uvarint tag ht).run d _ a)
    ∙ bind-done get_uvarint after_size {d = d1} ((Reads-uvarint size hs).run d1 rest a1)
    ∙ bind-done (require size) after_require {d = d2} (require_negative d2 size rest a2 neg fits)

-- A tagged field whose size, as an int, is negative: DiscardTaggedFields steps back.
discard_negative :
    (d : Decoder) (tag size : ℕ) (rest : Bytes)
    → IsU64 tag
    → IsU64 size
    → 2 ^ 63 ≤ size
    → IsAt d (put_uvarint [] 1 ++ (put_uvarint [] tag ++ (put_uvarint [] size ++ rest)))
    → let d' =
        advance
          (advance (advance d (length (put_uvarint [] 1))) (length (put_uvarint [] tag)))
          (length (put_uvarint [] size)) in
      d'.pos + size < 2 ^ 64
      → discard_tagged_fields d ≡ done tt (record d' { pos = (d'.pos + size) % 2 ^ 64 })
unfolding discard_tagged_fields has_failed
discard_negative d tag size rest ht hs neg a fits =
    let d1 = advance d (length (put_uvarint [] 1)) in
    let a1 = IsAt-advance d (put_uvarint [] 1) _ a in
    let after_failed =
      λ (failed : Bool). if failed then pure tt else (get_uvarint >>= discard_fields) in
    bind-done has_failed after_failed {a = false} {d = d} {d' = d} (rw a.no_error)
    ∙ bind-done get_uvarint discard_fields {d = d} ((Reads-uvarint 1 (omega arith)).run d _ a)
    ∙ discard_one d1 tag size rest ht hs neg a1 fits

-- A request with one tagged field, whose size is `size` whatever bytes follow.
abbrev pub with_field : RequestHeader → ℕ → ℕ → Bytes → Bytes
with_field h tag size rest =
    put_int16 [] h.api_key
    ++ (put_int16 [] h.api_version
        ++ (put_int32 [] h.correlation_id
            ++ (put_nullable_string [] h.client_id
                ++ (put_uvarint [] 1 ++ (put_uvarint [] tag ++ (put_uvarint [] size ++ rest))))))

finish_negative :
    (msg : Bytes) (h : RequestHeader) (d : Decoder)
    → d.error ≡ none
    → length msg < d.pos
    → finish msg (done h d) ≡ panicked
unfolding finish
finish_negative msg h d fine behind = rw fine (ground arith)

after_client :
    (h : RequestHeader) (d : Decoder) (tag size : ℕ) (rest : Bytes)
    → leb 2 (request_header_version h.api_key h.api_version) ≡ true
    → IsU64 tag
    → IsU64 size
    → 2 ^ 63 ≤ size
    → IsAt d (put_uvarint [] 1 ++ (put_uvarint [] tag ++ (put_uvarint [] size ++ rest)))
    → length d.buf + size < 2 ^ 64
    → (d' : Decoder) × ((optional_tagged_fields
              (leb 2 (request_header_version h.api_key h.api_version))
            >> pure h)
          d
        ≡ done h d')
      × (d'.error ≡ none)
      × (2 ^ 63 ≤ d'.pos)
unfolding optional_tagged_fields
after_client h d tag size rest flexible ht hs neg a fits =
    let d1 = advance d (length (put_uvarint [] 1)) in
    let d2 = advance d1 (length (put_uvarint [] tag)) in
    let d3 = advance d2 (length (put_uvarint [] size)) in
    let a1 = IsAt-advance d (put_uvarint [] 1) _ a in
    let a2 = IsAt-advance d1 (put_uvarint [] tag) _ a1 in
    let a3 = IsAt-advance d2 (put_uvarint [] size) rest a2 in
    let bounded : d3.pos + size < 2 ^ 64 = omega (arith, a3.position) in
    (
      record d3 { pos = (d3.pos + size) % 2 ^ 64 },
      rw flexible (
          bind-done discard_tagged_fields (λ _. pure h) {d = d}
            (discard_negative d tag size rest ht hs neg a bounded)),
      a.no_error,
      omega (arith, bounded),
    )

-- Any request whose key and version ask for tagged fields can panic ParseRequestHeader: one tagged
-- field with a size from 2 ^ 63 up, with which the end of the message still fits 64 bits, is
-- enough, whatever the other fields are and whatever follows.
pub parse_request_header_crash :
    (h : RequestHeader) (tag size : ℕ) (rest : Bytes)
    → IsHeader h
    → request_header_version h.api_key h.api_version ≡ 2
    → IsU64 tag
    → 2 ^ 63 ≤ size
    → length (with_field h tag size rest) < 2 ^ 62
    → length (with_field h tag size rest) + size < 2 ^ 64
    → parse_request_header (with_field h tag size rest) ≡ panicked
unfolding parse_request_header request_header
parse_request_header_crash h tag size rest w flexible ht neg small fits =
    let msg = with_field h tag size rest in
    let field = put_uvarint [] 1 ++ (put_uvarint [] tag ++ (put_uvarint [] size ++ rest)) in
    let d = new_decoder msg in
    let a : IsAt d msg = record {
      no_error = refl;
      unread = refl;
      position = omega arith;
      small = omega arith;
    } in
    let d1 = advance d (length (put_int16 [] h.api_key)) in
    let a1 = IsAt-advance d (put_int16 [] h.api_key) _ a in
    let d2 = advance d1 (length (put_int16 [] h.api_version)) in
    let a2 = IsAt-advance d1 (put_int16 [] h.api_version) _ a1 in
    let d3 = advance d2 (length (put_int32 [] h.correlation_id)) in
    let a3 = IsAt-advance d2 (put_int32 [] h.correlation_id) _ a2 in
    let d4 = advance d3 (length (put_nullable_string [] h.client_id)) in
    let a4 = IsAt-advance d3 (put_nullable_string [] h.client_id) field a3 in
    let (e, runs, fine, behind) =
      after_client h d4 tag size rest (rw flexible) ht (omega arith) neg a4 fits in
    ap (finish msg) (
      bind-done int16 _ {d = d} ((Reads-int16 h.api_key w.key_word).run d _ a)
      ∙ bind-done int16 _ {d = d1} ((Reads-int16 h.api_version w.version_word).run d1 _ a1)
      ∙ bind-done int32 _ {d = d2} ((Reads-int32 h.correlation_id w.correlation_word).run d2 _ a2)
      ∙ bind-done (optional_client_id (request_header_version h.api_key h.api_version)) _ {d = d3} (
          (Reads-optional_client_id h.api_key h.api_version h.client_id w.client_short).run d3 _ a3)
      ∙ runs)
    ∙ finish_negative msg h e fine (omega arith)
