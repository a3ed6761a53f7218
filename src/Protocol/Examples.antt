-- ===== src/Protocol/Examples.antt =====
-- internal/protocol: headers on the wire, and what the theorems give for them.
use distributed_messaging_sy.Common.{
  ℕ, ◌+◌, ◌<◌, ◌^◌, ◌≡◌, refl, none, some, [], ◌∷◌, ◌++◌, arith, length,
}
use distributed_messaging_sy.Protocol.Encoder.{
  put_int16, put_int32, put_int64, put_nullable_string, put_uvarint, put_tagged_fields,
}
use distributed_messaging_sy.Protocol.Binary.{be16, be32, be64, uvarint_bytes, uvarint_bytes_from}
use distributed_messaging_sy.Protocol.Decoder.{Decoder, done, new_decoder, int16}
use distributed_messaging_sy.Protocol.ApiKey.{request_header_version, response_header_version}
use distributed_messaging_sy.Protocol.Header.{
  RequestHeader, encode_request_header, parse_request_header, write_response_header, parsed,
  panicked,
}
use distributed_messaging_sy.Protocol.Header.RoundTrip.{IsHeader, parse_request_header-encode}
use distributed_messaging_sy.Protocol.Header.Panics.{
  with_field, parse_request_header-panicked, parse_request_header_crash,
}
use distributed_messaging_sy.Protocol.Arrays.{
  encode_string, encode_array_len, encode_tags, put_list, decoded, crashed,
}
use distributed_messaging_sy.Protocol.LeaderEpochs.{
  EpochRequest, EpochResponse, encode_epoch_request, decode_epoch_request, encode_epoch_response,
  decode_epoch_response,
}
use distributed_messaging_sy.Protocol.LeaderEpochs.Request.{as_sent, decode_epoch_request-encode}
use distributed_messaging_sy.Protocol.LeaderEpochs.Response.{decode_epoch_response-encode}
use distributed_messaging_sy.Protocol.LeaderEpochs.Panics.{many_topics, decode_epoch_request_crash}

-- ApiVersions in version 3 by the client `go`.
abbrev hello : RequestHeader
hello = record {
  api_key = 18;
  api_version = 3;
  correlation_id = 42;
  client_id = some (103 ∷ 111 ∷ []);
}

-- Fetch in version 12, which asks for the header with tagged fields.
abbrev flexible : RequestHeader
flexible = record { api_key = 1; api_version = 12; correlation_id = 42; client_id = none }

hello-IsHeader : IsHeader hello
hello-IsHeader = record {
  key_word = omega arith;
  version_word = omega arith;
  correlation_word = omega arith;
  client_short = omega arith;
}

hello_short : length (encode_request_header [] hello ++ (9 ∷ [])) < 2 ^ 63
unfolding encode_request_header request_header_version put_tagged_fields put_nullable_string
    put_int32 be16 be32 uvarint_bytes uvarint_bytes_from
hello_short = omega arith

parse_request_header-encode_example :
    parse_request_header (encode_request_header [] hello ++ (9 ∷ [])) ≡ parsed hello (9 ∷ [])
parse_request_header-encode_example =
    parse_request_header-encode hello (9 ∷ []) hello-IsHeader hello_short

reply_short : length (write_response_header [] 42 1 12 ++ (9 ∷ [])) < 2 ^ 63
unfolding write_response_header response_header_version put_tagged_fields put_int32 be32
    uvarint_bytes uvarint_bytes_from
reply_short = omega arith

flexible-IsHeader : IsHeader flexible
flexible-IsHeader = record {
  key_word = omega arith;
  version_word = omega arith;
  correlation_word = omega arith;
  client_short = tt;
}

two : request_header_version 1 12 ≡ 2
unfolding request_header_version
two = refl

crash_short : length (with_field flexible 0 (2 ^ 63) []) < 2 ^ 62
unfolding put_uvarint put_nullable_string put_int32 put_int16 be16 be32 uvarint_bytes
    uvarint_bytes_from
crash_short = omega arith

crash_fits : length (with_field flexible 0 (2 ^ 63) []) + 2 ^ 63 < 2 ^ 64
unfolding put_uvarint put_nullable_string put_int32 put_int16 be16 be32 uvarint_bytes
    uvarint_bytes_from
crash_fits = omega arith

crashes : parse_request_header (with_field flexible 0 (2 ^ 63) []) ≡ panicked
crashes =
    parse_request_header_crash flexible 0 (2 ^ 63) [] flexible-IsHeader two (omega arith)
      (omega arith) crash_short crash_fits

parse_request_header_crash_example :
    parse_request_header (with_field flexible 0 (2 ^ 63) []) ≡ panicked
parse_request_header_crash_example =
    parse_request_header_crash flexible 0 (2 ^ 63) [] flexible-IsHeader two (omega arith)
      (omega arith) crash_short crash_fits

parse_request_header-panicked_example :
    (key version : ℕ) × (d : Decoder) × (d' : Decoder) × (int16
        (new_decoder (with_field flexible 0 (2 ^ 63) []))
      ≡ done key d)
    × (int16 d ≡ done version d')
    × (request_header_version key version ≡ 2)
parse_request_header-panicked_example =
    parse_request_header-panicked (with_field flexible 0 (2 ^ 63) []) crash_short crashes

-- One topic `t` with one partition.
abbrev ask : EpochRequest
ask = record {
  replica_id = 7;
  topics =
      record {
        name = 116 ∷ [];
        partitions = record { index = 0; current_leader_epoch = 4; leader_epoch = 3 } ∷ [];
      }
      ∷ [];
}

ask-length : length (encode_epoch_request ask 4) < 2 ^ 63
unfolding encode_epoch_request encode_string encode_array_len encode_tags put_list put_int32
    put_uvarint be32 uvarint_bytes uvarint_bytes_from
ask-length = omega arith

decode_epoch_request-encode_example :
    decode_epoch_request (encode_epoch_request ask 4) 4 ≡ decoded (as_sent ask 4)
decode_epoch_request-encode_example = decode_epoch_request-encode ask 4 (ground arith) ask-length

abbrev answer : EpochResponse
answer = record {
  throttle_time_ms = 0;
  topics =
      record {
        name = 116 ∷ [];
        partitions = record { error_code = 0; index = 0; leader_epoch = 3; end_offset = 20 } ∷ [];
      }
      ∷ [];
}

answer-length : length (encode_epoch_response answer 2) < 2 ^ 63
unfolding encode_epoch_response encode_string encode_array_len encode_tags put_list put_int16
    put_int32 put_int64 put_uvarint be16 be32 be64 uvarint_bytes uvarint_bytes_from
answer-length = omega arith

decode_epoch_response-encode_example :
    decode_epoch_response (encode_epoch_response answer 2) 2 ≡ decoded answer
decode_epoch_response-encode_example =
    decode_epoch_response-encode answer 2 (ground arith) answer-length

flood-length : length (many_topics 7 (2 ^ 31) []) < 2 ^ 63
unfolding put_int32 put_uvarint be32 uvarint_bytes uvarint_bytes_from
flood-length = omega arith

decode_epoch_request_crash_example : decode_epoch_request (many_topics 7 (2 ^ 31) []) 4 ≡ crashed
decode_epoch_request_crash_example =
    decode_epoch_request_crash 4 7 (2 ^ 31) [] refl (omega arith) (omega arith) (omega arith)
      flood-length
