-- ===== src/Protocol/Header.antt =====
-- internal/protocol/header.go: the headers of requests and responses.
pub mod RoundTrip
pub mod Panics
use distributed_messaging_sy.Common.{ℕ, Bool, Option, none, some, length, drop, leb, if◌then◌else◌}
use distributed_messaging_sy.Protocol.Encoder.{
  Bytes, put_int16, put_int32, put_nullable_string, put_tagged_fields,
}
use distributed_messaging_sy.Protocol.Decoder.{
  DecodeError, Decoder, Run, done, panic, M, ◌>>=◌, ◌>>◌, pure, new_decoder, int16, int32,
  nullable_string, discard_tagged_fields,
}
use distributed_messaging_sy.Protocol.ApiKey.{request_header_version, response_header_version}

pub record RequestHeader : Type 0 where
  pub api_key : ℕ
  pub api_version : ℕ
  pub correlation_id : ℕ
  pub client_id : Option Bytes

-- EncodeRequestHeader
unfoldable pub encode_request_header : Bytes → RequestHeader → Bytes
encode_request_header e h =
    let version = request_header_version h.api_key h.api_version in
    let e1 = put_int32 (put_int16 (put_int16 e h.api_key) h.api_version) h.correlation_id in
    let e2 = if leb 1 version then put_nullable_string e1 h.client_id else e1 in
    if leb 2 version then put_tagged_fields e2 else e2

-- What the parsers return: a value with the bytes behind it, an error, or no return at all.
pub data Parsed {ℓ} (A : Type ℓ) : Type ℓ where
  parsed : A → Bytes → Parsed A
  refused : DecodeError → Parsed A
  panicked : Parsed A

-- The end of both parsers: `d.Error()` first, then `msg[d.Offset():]`.
unfoldable pub finish {ℓ} : {A : Type ℓ} → Bytes → Run A → Parsed A
finish msg panic = panicked
finish msg (done a d) = elim d.error [
  | some e ↦ refused e
  | none ↦ if leb d.pos (length msg) then parsed a (drop d.pos msg) else panicked
]

unfoldable pub optional_client_id : ℕ → M (Option Bytes)
optional_client_id version = if leb 1 version then nullable_string else pure none

unfoldable pub optional_tagged_fields : Bool → M (Unit {0})
optional_tagged_fields b = if b then discard_tagged_fields else pure tt

-- ParseRequestHeader
unfoldable pub request_header : M RequestHeader
unfolding optional_client_id optional_tagged_fields
request_header = do
  key ← int16
  version ← int16
  correlation ← int32
  client ← optional_client_id (request_header_version key version)
  optional_tagged_fields (leb 2 (request_header_version key version))
  pure (record {
    api_key = key;
    api_version = version;
    correlation_id = correlation;
    client_id = client;
  })

unfoldable pub parse_request_header : Bytes → Parsed RequestHeader
unfolding request_header finish
parse_request_header msg = finish msg (request_header (new_decoder msg))

-- ParseResponseHeader
unfoldable pub response_header : ℕ → ℕ → M ℕ
unfolding optional_tagged_fields
response_header key version = do
  correlation ← int32
  optional_tagged_fields (leb 1 (response_header_version key version))
  pure correlation

unfoldable pub parse_response_header : Bytes → ℕ → ℕ → Parsed ℕ
unfolding response_header finish
parse_response_header msg key version = finish msg (response_header key version (new_decoder msg))

-- WriteResponseHeader
unfoldable pub write_response_header : Bytes → ℕ → ℕ → ℕ → Bytes
write_response_header e correlation key version =
    if leb 1 (response_header_version key version)
    then put_tagged_fields (put_int32 e correlation)
    else put_int32 e correlation
