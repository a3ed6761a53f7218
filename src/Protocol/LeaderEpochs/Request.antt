-- ===== src/Protocol/LeaderEpochs/Request.antt =====
-- internal/protocol/offsets_for_leader_epoch.go: the request is decoded as it was encoded.
use distributed_messaging_sy.Common.{
  ℕ, ◌^◌, ◌<◌, ◌≡◌, sym, ap, ◌∙◌, Bool, true, false, ◌-◌, List, [], ◌++◌, append_assoc, length, All,
  IsU32, leb_i16, if◌then◌else◌,
}
use distributed_messaging_sy.Protocol.Encoder.{Bytes, put_int32}
use distributed_messaging_sy.Protocol.Decoder.RoundTrip.{Reads, Reads-bind, Reads-pure, Reads-int32}
use distributed_messaging_sy.Protocol.Header.RoundTrip.{optional_bytes}
use distributed_messaging_sy.Protocol.Arrays.{encode_string, decoded}
use distributed_messaging_sy.Protocol.Arrays.RoundTrip.{Appends, Reads-string_of}
use distributed_messaging_sy.Protocol.LeaderEpochs.{
  EpochRequestPartition, EpochRequestTopic, EpochRequest, encode_request_partition,
  encode_request_topic, encode_epoch_request, decode_request_partition, decode_request_topic,
  decode_replica_id, epoch_request, decode_epoch_request,
}
use distributed_messaging_sy.Protocol.Arrays.Counted.{
  All-map, Reads-counted, Reads-tags_end, counted, counted-bytes, counted_bytes, encode_tags-bytes,
  finish-Reads, named, named-bytes,
}

-- Every field is in the range of its type, names are shorter than 32 KiB, and an int32 counts the
-- elements of every list.
abbrev pub IsRequestPartition : EpochRequestPartition → Type 0
IsRequestPartition p = IsU32 p.index × IsU32 p.current_leader_epoch × IsU32 p.leader_epoch

abbrev pub IsRequestTopic : EpochRequestTopic → Type 0
IsRequestTopic t =
    (length t.name < 2 ^ 15) × (length t.partitions < 2 ^ 31) × All IsRequestPartition t.partitions

abbrev pub IsRequest : EpochRequest → Type 0
IsRequest r = IsU32 r.replica_id × (length r.topics < 2 ^ 31) × All IsRequestTopic r.topics

request_partition_bytes : (f : Bool) (e : Bytes) (p : EpochRequestPartition) → Bytes
request_partition_bytes f e p =
    e
    ++ (put_int32 [] p.index
        ++ (put_int32 [] p.current_leader_epoch
            ++ (put_int32 [] p.leader_epoch ++ optional_bytes f)))

encode_request_partition-bytes :
    (f : Bool) (e : Bytes) (p : EpochRequestPartition)
    → encode_request_partition f e p ≡ request_partition_bytes f e p
unfolding encode_request_partition request_partition_bytes put_int32
encode_request_partition-bytes f e p = encode_tags-bytes f _ ∙ simp append_assoc

Appends-encode_request_partition : (f : Bool) → Appends (encode_request_partition f)
unfolding request_partition_bytes
Appends-encode_request_partition f = record {
  appends = λ e p.
      encode_request_partition-bytes f e p
      ∙ ap (λ b. e ++ b) (sym (encode_request_partition-bytes f [] p));
}

Reads-request_partition :
    (f : Bool) (p : EpochRequestPartition)
    → IsRequestPartition p
    → Reads (decode_request_partition f) p (encode_request_partition f [] p)
unfolding decode_request_partition request_partition_bytes
Reads-request_partition f p (h, k, l) = rw (encode_request_partition-bytes f [] p) (
    Reads-bind _ (Reads-int32 p.index h) (
      Reads-bind _ (Reads-int32 p.current_leader_epoch k)
        (Reads-bind _ (Reads-int32 p.leader_epoch l) (Reads-tags_end f p))))

encode_request_topic-bytes :
    (f : Bool) (e : Bytes) (t : EpochRequestTopic)
    → encode_request_topic f e t
      ≡ e
        ++ (encode_string f [] t.name ++ counted_bytes f (encode_request_partition f) t.partitions)
unfolding encode_request_topic named counted
encode_request_topic-bytes f e t =
    named-bytes f (encode_request_partition f) (Appends-encode_request_partition f) e t.name
      t.partitions

Appends-encode_request_topic : (f : Bool) → Appends (encode_request_topic f)
Appends-encode_request_topic f = record {
  appends = λ e t.
      encode_request_topic-bytes f e t ∙ ap (λ b. e ++ b) (sym (encode_request_topic-bytes f [] t));
}

Reads-request_topic :
    (f : Bool) (t : EpochRequestTopic)
    → IsRequestTopic t
    → Reads (decode_request_topic f) t (encode_request_topic f [] t)
unfolding decode_request_topic
Reads-request_topic f t (h, k, w) = rw (encode_request_topic-bytes f [] t) (
    Reads-bind _ (Reads-string_of f t.name h) (
      Reads-counted f (encode_request_partition f) (decode_request_partition f)
        (λ ps. record { name = t.name; partitions = ps }) t.partitions
        (Appends-encode_request_partition f) k
        (All-map IsRequestPartition
          (λ p. Reads (decode_request_partition f) p (encode_request_partition f [] p))
          (Reads-request_partition f) t.partitions w)))

-- The replica id as DecodeOffsetsForLeaderEpochRequest gives it: -2 before version 3.
abbrev pub as_sent : EpochRequest → ℕ → EpochRequest
as_sent r version = record r { replica_id = if leb_i16 3 version then r.replica_id else 2 ^ 32 - 2 }

Reads-replica_id :
    (given : Bool) (n : ℕ)
    → IsU32 n
    → Reads
        (decode_replica_id given)
        (if given then n else 2 ^ 32 - 2)
        (if given then put_int32 [] n else [])
unfolding decode_replica_id
Reads-replica_id true n h = Reads-int32 n h
Reads-replica_id false n h = Reads-pure (2 ^ 32 - 2)

abbrev request_of : ℕ → List EpochRequestTopic → EpochRequest
request_of replica topics = record { replica_id = replica; topics = topics }

Reads-epoch_request :
    (r : EpochRequest) (version : ℕ)
    → IsRequest r
    → Reads (epoch_request version) (as_sent r version) (encode_epoch_request r version)
unfolding epoch_request encode_epoch_request counted
Reads-epoch_request r version (h, k, w) =
    let f = leb_i16 4 version in
    let topics = λ (replica : ℕ).
      Reads-counted f (encode_request_topic f) (decode_request_topic f) (request_of replica)
        r.topics (Appends-encode_request_topic f) k
        (All-map IsRequestTopic
          (λ t. Reads (decode_request_topic f) t (encode_request_topic f [] t))
          (Reads-request_topic f) r.topics w) in
    let given = leb_i16 3 version in
    rw
      (counted-bytes f (encode_request_topic f) (Appends-encode_request_topic f)
        (if given then put_int32 [] r.replica_id else []) r.topics)
      (Reads-bind _ (Reads-replica_id given r.replica_id h)
        (topics (if given then r.replica_id else 2 ^ 32 - 2)))

-- DecodeOffsetsForLeaderEpochRequest reads back, in the legacy and in the flexible encoding, the
-- request that EncodeOffsetsForLeaderEpochRequest wrote for the same version, where every topic name
-- is shorter than 2 ^ 15 bytes, there are fewer than 2 ^ 31 topics and fewer than 2 ^ 31 partitions
-- of each, the numbers fit their fields, and the encoding is shorter than 2 ^ 63 bytes; before
-- version 3 the replica id is not sent and is -2.
pub decode_epoch_request-encode :
    (r : EpochRequest) (version : ℕ)
    → IsRequest r
    → length (encode_epoch_request r version) < 2 ^ 63
    → decode_epoch_request (encode_epoch_request r version) version ≡ decoded (as_sent r version)
unfolding decode_epoch_request
decode_epoch_request-encode r version w h =
    finish-Reads (epoch_request version) (as_sent r version) (encode_epoch_request r version)
      (Reads-epoch_request r version w) h
