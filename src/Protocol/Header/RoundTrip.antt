-- ===== src/Protocol/Header/RoundTrip.antt =====
-- internal/protocol/header.go: the parsers read back what the encoders write.
use distributed_messaging_sy.Common.{
  ℕ, ◌<◌, ◌≡◌, refl, ◌∙◌, Bool, true, false, Option, none, some, [], ◌++◌, arith, length, leb,
  if◌then◌else◌, IsU16, IsU32, append_assoc, append-nil, ◌^◌, drop-append, length-append,
}
use distributed_messaging_sy.Protocol.Encoder.{
  Bytes, put_int16, put_int32, put_nullable_string, put_string, put_tagged_fields, put_uvarint,
}
use distributed_messaging_sy.Protocol.Decoder.{M, new_decoder}
use distributed_messaging_sy.Protocol.Decoder.RoundTrip.{
  Reads, Reads-bind, Reads-last, Reads-pure, Reads-int16, Reads-int32, Reads-nullable_string,
  Reads-tagged_fields, IsShort,
}
use distributed_messaging_sy.Protocol.ApiKey.{request_header_version, response_header_version}
use distributed_messaging_sy.Protocol.Header.{
  RequestHeader, encode_request_header, parsed, finish, optional_client_id, optional_tagged_fields,
  request_header, parse_request_header, response_header, parse_response_header,
  write_response_header,
}

-- Every field is in the range of its type and the client id is shorter than 32 KiB.
pub record IsHeader (h : RequestHeader) : Type 0 where
  pub key_word : IsU16 h.api_key
  pub version_word : IsU16 h.api_version
  pub correlation_word : IsU32 h.correlation_id
  pub client_short : IsShort (2 ^ 15) h.client_id

pub put_nullable_string-append :
    (e : Bytes) (s : Option Bytes) → put_nullable_string e s ≡ e ++ put_nullable_string [] s
unfolding put_nullable_string put_string put_int16
put_nullable_string-append e none = refl
put_nullable_string-append e (some s) = rw append_assoc

unfoldable pub optional_bytes : Bool → Bytes
optional_bytes b = if b then put_tagged_fields [] else []

pub Reads-optional_tagged_fields :
    (b : Bool) → Reads (optional_tagged_fields b) tt (optional_bytes b)
unfolding optional_tagged_fields optional_bytes
Reads-optional_tagged_fields true = Reads-tagged_fields
Reads-optional_tagged_fields false = Reads-pure tt

pub optional_put :
    (b : Bool) (e : Bytes) → (if b then put_tagged_fields e else e) ≡ e ++ optional_bytes b
unfolding optional_bytes put_tagged_fields put_uvarint
optional_put true e = refl
optional_put false e = rw append-nil

version_positive : (key version : ℕ) → leb 1 (request_header_version key version) ≡ true
unfolding request_header_version
version_positive key version = ground arith

header_bytes : RequestHeader → Bytes
header_bytes h =
    put_int16 [] h.api_key
    ++ (put_int16 [] h.api_version
        ++ (put_int32 [] h.correlation_id
            ++ (put_nullable_string [] h.client_id
                ++ optional_bytes (leb 2 (request_header_version h.api_key h.api_version)))))

encode_request_header-bytes : (h : RequestHeader) → encode_request_header [] h ≡ header_bytes h
unfolding encode_request_header header_bytes put_int16 put_int32
encode_request_header-bytes h =
    optional_put (leb 2 (request_header_version h.api_key h.api_version)) _
    ∙ rw (version_positive h.api_key h.api_version)
        (rw put_nullable_string-append (simp append_assoc))

pub Reads-optional_client_id :
    (key version : ℕ) (s : Option Bytes)
    → IsShort (2 ^ 15) s
    → Reads (optional_client_id (request_header_version key version)) s (put_nullable_string [] s)
unfolding optional_client_id
Reads-optional_client_id key version s h =
    rw (version_positive key version) (Reads-nullable_string s h)

Reads-request_header : (h : RequestHeader) → IsHeader h → Reads request_header h (header_bytes h)
unfolding request_header header_bytes
Reads-request_header h w = Reads-bind _ (Reads-int16 h.api_key w.key_word) (
    Reads-bind _ (Reads-int16 h.api_version w.version_word) (
      Reads-bind _ (Reads-int32 h.correlation_id w.correlation_word) (
        Reads-bind _ (Reads-optional_client_id h.api_key h.api_version h.client_id w.client_short)
          (Reads-last _ (Reads-optional_tagged_fields _) (Reads-pure h)))))

-- A parser that reads `bs` and returns `v` leaves what follows.
finish-Reads {ℓ} :
    {A : Type ℓ} (m : M A) (v : A) (bs rest : Bytes)
    → Reads m v bs
    → length (bs ++ rest) < 2 ^ 63
    → finish (bs ++ rest) (m (new_decoder (bs ++ rest))) ≡ parsed v rest
unfolding finish
finish-Reads m v bs rest r h =
    rw
      (r.run (new_decoder (bs ++ rest)) rest
        (record { no_error = refl; unread = refl; position = omega arith; small = h }))
      (ground (arith, drop-append bs rest, length-append bs rest))

-- ParseRequestHeader reads back the header that EncodeRequestHeader wrote, with or without tagged
-- fields by its key and version, and returns the bytes behind it as the body, where the numbers of
-- the header fit their fields, its client id, if there is one, is shorter than 2 ^ 15 bytes, and the
-- message is shorter than 2 ^ 63 bytes.
pub parse_request_header-encode :
    (h : RequestHeader) (body : Bytes)
    → IsHeader h
    → length (encode_request_header [] h ++ body) < 2 ^ 63
    → parse_request_header (encode_request_header [] h ++ body) ≡ parsed h body
unfolding parse_request_header
parse_request_header-encode h body w small =
    let e = encode_request_header-bytes h in
    rw e (
      finish-Reads request_header h (header_bytes h) body (Reads-request_header h w)
        (rw e at small))

response_bytes :
    (correlation key version : ℕ)
    → write_response_header [] correlation key version
      ≡ put_int32 [] correlation ++ optional_bytes (leb 1 (response_header_version key version))
unfolding write_response_header
response_bytes correlation key version =
    optional_put (leb 1 (response_header_version key version)) (put_int32 [] correlation)

-- ParseResponseHeader reads back the correlation id that WriteResponseHeader wrote for the same
-- key and version, and returns the bytes behind the header.
pub parse_response_header-write :
    (correlation key version : ℕ) (body : Bytes)
    → IsU32 correlation
    → length (write_response_header [] correlation key version ++ body) < 2 ^ 63
    → parse_response_header (write_response_header [] correlation key version ++ body) key version
      ≡ parsed correlation body
unfolding parse_response_header response_header
parse_response_header-write correlation key version body h small =
    let e = response_bytes correlation key version in
    rw e (
      finish-Reads (response_header key version) correlation _ body
        (Reads-bind _ (Reads-int32 correlation h)
          (Reads-last _ (Reads-optional_tagged_fields _) (Reads-pure correlation)))
        (rw e at small))
