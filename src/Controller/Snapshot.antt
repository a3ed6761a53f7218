-- ===== src/Controller/Snapshot.antt =====
-- internal/controller/fsm.go: Restore, from a decoded snapshot.
pub mod Restored
use distributed_messaging_sy.Common.{
  ℕ, zero, suc, ◌+◌, ◌%◌, ◌^◌, Bool, true, false, not, ◌&&◌, ◌||◌, Option, none, some, List, [],
  ◌∷◌, is_empty, lookup, insert, Assoc, nat_eq, bytes_eq, bytes_Eq, ◌==◌, if◌then◌else◌,
  is_negative_i32,
}
use distributed_messaging_sy.Controller.State.{
  BrokerEndpoint, BrokerInfo, TopicState, PartitionState, TopicPartitionKey, key_Eq,
  ControllerState, new_controller_state, ControllerError, Result, ok, err, ◌>>=◌, ◌>>◌, refuse_if,
  decode, unsupported_version, invalid_broker_id, incarnation_required, zero_broker_epoch,
  duplicate_broker, topic_required, topic_exists, invalid_partition, unknown_topic, negative_epoch,
  duplicate_partition, topic_without_partitions, not_contiguous,
}
use distributed_messaging_sy.Controller.Endpoints.{normalize_endpoints}
use distributed_messaging_sy.Controller.Assignment.{is_registered, validate_partition_spec}
use distributed_messaging_sy.Controller.Fsm.{write_broker, has_topic, int32_bound}

pub record SnapshotPartition : Type 0 where
  pub topic : List ℕ
  pub partition : ℕ
  pub leader_broker_id : ℕ
  pub leader_epoch : ℕ
  pub partition_epoch : ℕ
  pub replicas : List ℕ
  pub isr : List ℕ

-- A snapshotBroker has the fields of a BrokerInfo, a snapshotTopic is a name.
pub record SnapshotData : Type 0 where
  pub version : ℕ
  pub brokers : List BrokerInfo
  pub topics : List (List ℕ)
  pub partitions : List SnapshotPartition

-- A loop that returns at the first error.
unfoldable pub each {ℓ κ} : {S : Type ℓ} {A : Type κ} → (S → A → Result S) → S → List A → Result S
each step s [] = ok s
each step s (a ∷ as') = do s' ← step s a; each step s' as'

unfoldable pub restore_broker : ControllerState → BrokerInfo → Result ControllerState
restore_broker out b = do
  refuse_if (is_negative_i32 b.id) invalid_broker_id
  refuse_if (is_empty b.incarnation_id) incarnation_required
  refuse_if (b.broker_epoch == 0) zero_broker_epoch
  endpoints ← normalize_endpoints b.endpoints
  refuse_if (is_registered out.brokers b.id) duplicate_broker
  ok (write_broker out b.id (record b { endpoints = endpoints }))

unfoldable pub restore_topic : ControllerState → List ℕ → Result ControllerState
restore_topic out name = do
  refuse_if (is_empty name) topic_required
  refuse_if (has_topic out name) topic_exists
  ok (record out { topics = insert name (record { name = name }) out.topics })

unfoldable pub has_partition : ControllerState → TopicPartitionKey → Bool
has_partition s key = elim (lookup key s.partitions) [ none ↦ false | some p ↦ true ]

unfoldable pub restore_partition : ControllerState → SnapshotPartition → Result ControllerState
restore_partition out p =
    let key : TopicPartitionKey = record { topic = p.topic; partition = p.partition } in
    do
      refuse_if (is_negative_i32 p.partition) invalid_partition
      refuse_if (is_empty p.topic) topic_required
      refuse_if (not (has_topic out p.topic)) unknown_topic
      refuse_if (is_negative_i32 p.leader_epoch || is_negative_i32 p.partition_epoch) negative_epoch
      refuse_if (has_partition out key) duplicate_partition
      validate_partition_spec out.brokers p.leader_broker_id p.replicas p.isr
      ok (record out {
        partitions =
            insert key
              (record {
                leader_broker_id = p.leader_broker_id;
                leader_epoch = p.leader_epoch;
                partition_epoch = p.partition_epoch;
                replicas = p.replicas;
                isr = p.isr;
              })
              out.partitions;
      })

-- `partitionCount[topic]`, before its wrap-around.
unfoldable pub partition_count : List ℕ → Assoc TopicPartitionKey PartitionState → ℕ
partition_count topic [] = 0
partition_count topic ((k, p) ∷ ps) =
    let rest = partition_count topic ps in if bytes_eq k.topic topic then suc rest else rest

-- Whether the topic has all partitions below a bound.
unfoldable pub has_all : ControllerState → List ℕ → ℕ → Bool
has_all s topic zero = true
has_all s topic (suc n) =
    has_partition s (record { topic = topic; partition = n }) && has_all s topic n

-- The body of the last loop, over the topics.
unfoldable pub check_topic : ControllerState → List ℕ × TopicState → Result ControllerState
check_topic out (topic, t) =
    let count = partition_count topic out.partitions in
    do
      refuse_if (count % 2 ^ 32 == 0) topic_without_partitions
      refuse_if (not (has_all out topic (int32_bound count))) not_contiguous
      ok out

-- fromSnapshotData
unfoldable pub from_snapshot_data : SnapshotData → Result ControllerState
unfolding restore_broker restore_topic restore_partition check_topic
from_snapshot_data data' = do
  refuse_if (not (data'.version == 2)) unsupported_version
  with_brokers ← each restore_broker new_controller_state data'.brokers
  with_topics ← each restore_topic with_brokers data'.topics
  out ← each restore_partition with_topics data'.partitions
  each check_topic out out.topics

-- Restore; `none` is a snapshot that can not be read or decoded.
unfoldable pub restore :
    ControllerState → Option SnapshotData → ControllerState × Option ControllerError
unfolding from_snapshot_data
restore s none = (s, some decode)
restore s (some data') = elim (from_snapshot_data data') [
  | ok s' ↦ (s', none)
  | err e ↦ (s, some e)
]
