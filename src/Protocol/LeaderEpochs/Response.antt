-- ===== src/Protocol/LeaderEpochs/Response.antt =====
-- internal/protocol/offsets_for_leader_epoch.go: the response is decoded as it was encoded.
use distributed_messaging_sy.Common.{
  ℕ, ◌^◌, ◌<◌, ◌≡◌, sym, ap, ◌∙◌, Bool, List, [], ◌++◌, append_assoc, length, All, IsU16, IsU32,
  IsU64, leb_i16,
}
use distributed_messaging_sy.Protocol.Encoder.{Bytes, put_int16, put_int32, put_int64}
use distributed_messaging_sy.Protocol.Decoder.RoundTrip.{
  Reads, Reads-bind, Reads-int16, Reads-int32, Reads-int64,
}
use distributed_messaging_sy.Protocol.Header.RoundTrip.{optional_bytes}
use distributed_messaging_sy.Protocol.Arrays.{encode_string, decoded}
use distributed_messaging_sy.Protocol.Arrays.RoundTrip.{Appends, Reads-string_of}
use distributed_messaging_sy.Protocol.LeaderEpochs.{
  EpochResponsePartition, EpochResponseTopic, EpochResponse, encode_response_partition,
  encode_response_topic, encode_epoch_response, decode_response_partition, decode_response_topic,
  epoch_response, decode_epoch_response,
}
use distributed_messaging_sy.Protocol.Arrays.Counted.{
  All-map, Reads-counted, Reads-tags_end, counted, counted-bytes, counted_bytes, encode_tags-bytes,
  finish-Reads, named, named-bytes,
}

abbrev pub IsResponsePartition : EpochResponsePartition → Type 0
IsResponsePartition p =
    IsU16 p.error_code × IsU32 p.index × IsU32 p.leader_epoch × IsU64 p.end_offset

abbrev pub IsResponseTopic : EpochResponseTopic → Type 0
IsResponseTopic t =
    (length t.name < 2 ^ 15) × (length t.partitions < 2 ^ 31) × All IsResponsePartition t.partitions

abbrev pub IsResponse : EpochResponse → Type 0
IsResponse r = IsU32 r.throttle_time_ms × (length r.topics < 2 ^ 31) × All IsResponseTopic r.topics

response_partition_bytes : (f : Bool) (e : Bytes) (p : EpochResponsePartition) → Bytes
response_partition_bytes f e p =
    e
    ++ (put_int16 [] p.error_code
        ++ (put_int32 [] p.index
            ++ (put_int32 [] p.leader_epoch ++ (put_int64 [] p.end_offset ++ optional_bytes f))))

encode_response_partition-bytes :
    (f : Bool) (e : Bytes) (p : EpochResponsePartition)
    → encode_response_partition f e p ≡ response_partition_bytes f e p
unfolding encode_response_partition response_partition_bytes put_int16 put_int32 put_int64
encode_response_partition-bytes f e p = encode_tags-bytes f _ ∙ simp append_assoc

Appends-encode_response_partition : (f : Bool) → Appends (encode_response_partition f)
unfolding response_partition_bytes
Appends-encode_response_partition f = record {
  appends = λ e p.
      encode_response_partition-bytes f e p
      ∙ ap (λ b. e ++ b) (sym (encode_response_partition-bytes f [] p));
}

Reads-response_partition :
    (f : Bool) (p : EpochResponsePartition)
    → IsResponsePartition p
    → Reads (decode_response_partition f) p (encode_response_partition f [] p)
unfolding decode_response_partition response_partition_bytes
Reads-response_partition f p (g, h, k, l) = rw (encode_response_partition-bytes f [] p) (
    Reads-bind _ (Reads-int16 p.error_code g) (
      Reads-bind _ (Reads-int32 p.index h) (
        Reads-bind _ (Reads-int32 p.leader_epoch k)
          (Reads-bind _ (Reads-int64 p.end_offset l) (Reads-tags_end f p)))))

encode_response_topic-bytes :
    (f : Bool) (e : Bytes) (t : EpochResponseTopic)
    → encode_response_topic f e t
      ≡ e
        ++ (encode_string f [] t.name ++ counted_bytes f (encode_response_partition f) t.partitions)
unfolding encode_response_topic named counted
encode_response_topic-bytes f e t =
    named-bytes f (encode_response_partition f) (Appends-encode_response_partition f) e t.name
      t.partitions

Appends-encode_response_topic : (f : Bool) → Appends (encode_response_topic f)
Appends-encode_response_topic f = record {
  appends = λ e t.
      encode_response_topic-bytes f e t
      ∙ ap (λ b. e ++ b) (sym (encode_response_topic-bytes f [] t));
}

Reads-response_topic :
    (f : Bool) (t : EpochResponseTopic)
    → IsResponseTopic t
    → Reads (decode_response_topic f) t (encode_response_topic f [] t)
unfolding decode_response_topic
Reads-response_topic f t (h, k, w) = rw (encode_response_topic-bytes f [] t) (
    Reads-bind _ (Reads-string_of f t.name h) (
      Reads-counted f (encode_response_partition f) (decode_response_partition f)
        (λ ps. record { name = t.name; partitions = ps }) t.partitions
        (Appends-encode_response_partition f) k
        (All-map IsResponsePartition
          (λ p. Reads (decode_response_partition f) p (encode_response_partition f [] p))
          (Reads-response_partition f) t.partitions w)))

abbrev response_of : ℕ → List EpochResponseTopic → EpochResponse
response_of throttle topics = record { throttle_time_ms = throttle; topics = topics }

Reads-epoch_response :
    (r : EpochResponse) (version : ℕ)
    → IsResponse r
    → Reads (epoch_response version) r (encode_epoch_response r version)
unfolding epoch_response encode_epoch_response counted
Reads-epoch_response r version (h, k, w) =
    let f = leb_i16 4 version in
    rw
      (counted-bytes f (encode_response_topic f) (Appends-encode_response_topic f)
        (put_int32 [] r.throttle_time_ms) r.topics)
      (Reads-bind _ (Reads-int32 r.throttle_time_ms h) (
        Reads-counted f (encode_response_topic f) (decode_response_topic f)
          (response_of r.throttle_time_ms) r.topics (Appends-encode_response_topic f) k
          (All-map IsResponseTopic
            (λ t. Reads (decode_response_topic f) t (encode_response_topic f [] t))
            (Reads-response_topic f) r.topics w)))

-- DecodeOffsetsForLeaderEpochResponse reads back, in the legacy and in the flexible encoding, the
-- response that EncodeOffsetsForLeaderEpochResponse wrote for the same version, where every topic
-- name is shorter than 2 ^ 15 bytes, there are fewer than 2 ^ 31 topics and fewer than 2 ^ 31
-- partitions of each, the numbers fit their fields, and the encoding is shorter than 2 ^ 63 bytes.
pub decode_epoch_response-encode :
    (r : EpochResponse) (version : ℕ)
    → IsResponse r
    → length (encode_epoch_response r version) < 2 ^ 63
    → decode_epoch_response (encode_epoch_response r version) version ≡ decoded r
unfolding decode_epoch_response
decode_epoch_response-encode r version w h =
    finish-Reads (epoch_response version) r (encode_epoch_response r version)
      (Reads-epoch_response r version w) h
