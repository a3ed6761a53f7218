-- ===== src/Protocol/LeaderEpochs.antt =====
-- internal/protocol/offsets_for_leader_epoch.go: the messages by which a follower asks where an
-- epoch of its leader ends.
pub mod Request
pub mod Response
pub mod Panics
use distributed_messaging_sy.Common.{
  ℕ, ◌-◌, ◌%◌, ◌^◌, Bool, List, [], length, leb_i16, if◌then◌else◌,
}
use distributed_messaging_sy.Protocol.Encoder.{Bytes, put_int16, put_int32, put_int64}
use distributed_messaging_sy.Protocol.Decoder.{
  M, ◌>>=◌, ◌>>◌, pure, new_decoder, int16, int32, int64,
}
use distributed_messaging_sy.Protocol.Header.{optional_tagged_fields}
use distributed_messaging_sy.Protocol.Arrays.{
  repeat, make_slice, put_list, decode_array_len, decode_string, encode_array_len, encode_string,
  encode_tags, Decoded, finish_message,
}

pub record EpochRequestPartition : Type 0 where
  pub index : ℕ
  pub current_leader_epoch : ℕ
  pub leader_epoch : ℕ

pub record EpochRequestTopic : Type 0 where
  pub name : Bytes
  pub partitions : List EpochRequestPartition

pub record EpochRequest : Type 0 where
  pub replica_id : ℕ
  pub topics : List EpochRequestTopic

unfoldable pub encode_request_partition : Bool → Bytes → EpochRequestPartition → Bytes
encode_request_partition flexible e p =
    encode_tags flexible
      (put_int32 (put_int32 (put_int32 e p.index) p.current_leader_epoch) p.leader_epoch)

unfoldable pub encode_request_topic : Bool → Bytes → EpochRequestTopic → Bytes
unfolding encode_request_partition
encode_request_topic flexible e t =
    let e1 = encode_array_len flexible (encode_string flexible e t.name) (length t.partitions) in
    encode_tags flexible (put_list (encode_request_partition flexible) e1 t.partitions)

-- EncodeOffsetsForLeaderEpochRequest
unfoldable pub encode_epoch_request : EpochRequest → ℕ → Bytes
unfolding encode_request_topic
encode_epoch_request r version =
    let flexible = leb_i16 4 version in
    let e1 = if leb_i16 3 version then put_int32 [] r.replica_id else [] in
    let e2 = encode_array_len flexible e1 (length r.topics) in
    encode_tags flexible (put_list (encode_request_topic flexible) e2 r.topics)

unfoldable pub decode_request_partition : Bool → M EpochRequestPartition
decode_request_partition flexible = do
  index ← int32
  current ← int32
  leader ← int32
  optional_tagged_fields flexible
  pure (record { index = index; current_leader_epoch = current; leader_epoch = leader })

unfoldable pub decode_request_topic : Bool → M EpochRequestTopic
unfolding decode_request_partition
decode_request_topic flexible = do
  name ← decode_string flexible
  n ← decode_array_len flexible
  make_slice n
  partitions ← repeat n (decode_request_partition flexible)
  optional_tagged_fields flexible
  pure (record { name = name; partitions = partitions })

unfoldable pub decode_replica_id : Bool → M ℕ
decode_replica_id given = if given then int32 else pure (2 ^ 32 - 2)

unfoldable pub epoch_request : ℕ → M EpochRequest
unfolding decode_replica_id decode_request_topic
epoch_request version =
    let flexible = leb_i16 4 version in
    do
      replica ← decode_replica_id (leb_i16 3 version)
      n ← decode_array_len flexible
      make_slice n
      topics ← repeat n (decode_request_topic flexible)
      optional_tagged_fields flexible
      pure (record { replica_id = replica; topics = topics })

-- DecodeOffsetsForLeaderEpochRequest
unfoldable pub decode_epoch_request : Bytes → ℕ → Decoded EpochRequest
unfolding epoch_request
decode_epoch_request body version = finish_message (epoch_request version (new_decoder body))

pub record EpochResponsePartition : Type 0 where
  pub error_code : ℕ
  pub index : ℕ
  pub leader_epoch : ℕ
  pub end_offset : ℕ

pub record EpochResponseTopic : Type 0 where
  pub name : Bytes
  pub partitions : List EpochResponsePartition

pub record EpochResponse : Type 0 where
  pub throttle_time_ms : ℕ
  pub topics : List EpochResponseTopic

unfoldable pub encode_response_partition : Bool → Bytes → EpochResponsePartition → Bytes
encode_response_partition flexible e p = encode_tags flexible (
    put_int64 (put_int32 (put_int32 (put_int16 e p.error_code) p.index) p.leader_epoch)
      p.end_offset)

unfoldable pub encode_response_topic : Bool → Bytes → EpochResponseTopic → Bytes
unfolding encode_response_partition
encode_response_topic flexible e t =
    let e1 = encode_array_len flexible (encode_string flexible e t.name) (length t.partitions) in
    encode_tags flexible (put_list (encode_response_partition flexible) e1 t.partitions)

-- EncodeOffsetsForLeaderEpochResponse
unfoldable pub encode_epoch_response : EpochResponse → ℕ → Bytes
unfolding encode_response_topic
encode_epoch_response r version =
    let flexible = leb_i16 4 version in
    let e = encode_array_len flexible (put_int32 [] r.throttle_time_ms) (length r.topics) in
    encode_tags flexible (put_list (encode_response_topic flexible) e r.topics)

unfoldable pub decode_response_partition : Bool → M EpochResponsePartition
decode_response_partition flexible = do
  code ← int16
  index ← int32
  leader ← int32
  end_offset ← int64
  optional_tagged_fields flexible
  pure (record { error_code = code; index = index; leader_epoch = leader; end_offset = end_offset })

unfoldable pub decode_response_topic : Bool → M EpochResponseTopic
unfolding decode_response_partition
decode_response_topic flexible = do
  name ← decode_string flexible
  n ← decode_array_len flexible
  make_slice n
  partitions ← repeat n (decode_response_partition flexible)
  optional_tagged_fields flexible
  pure (record { name = name; partitions = partitions })

unfoldable pub epoch_response : ℕ → M EpochResponse
unfolding decode_response_topic
epoch_response version =
    let flexible = leb_i16 4 version in
    do
      throttle ← int32
      n ← decode_array_len flexible
      make_slice n
      topics ← repeat n (decode_response_topic flexible)
      optional_tagged_fields flexible
      pure (record { throttle_time_ms = throttle; topics = topics })

-- DecodeOffsetsForLeaderEpochResponse
unfoldable pub decode_epoch_response : Bytes → ℕ → Decoded EpochResponse
unfolding epoch_response
decode_epoch_response body version = finish_message (epoch_response version (new_decoder body))
