-- ===== src/Controller/State.antt =====
-- internal/controller/fsm.go: the state of the controller and its commands.
-- An int32 or int16 is a bit pattern; a Go string is its bytes; a map is an association list.
use distributed_messaging_sy.Common.{
  ℕ, Bool, ◌&&◌, List, [], ◌≡◌, ◌↔◌, arith, Eq, bytes_eq, bytes_eq_iff, bytes_Eq, nat_eq, Assoc,
  ◌==◌, true, false,
}

pub record BrokerEndpoint : Type 0 where
  pub name : List ℕ
  pub host : List ℕ
  pub port : ℕ
  pub security_protocol : ℕ

pub record BrokerInfo : Type 0 where
  pub id : ℕ
  pub incarnation_id : List ℕ
  pub broker_epoch : ℕ
  pub endpoints : List BrokerEndpoint
  pub fenced : Bool

pub record TopicState : Type 0 where
  pub name : List ℕ

pub record PartitionState : Type 0 where
  pub leader_broker_id : ℕ
  pub leader_epoch : ℕ
  pub partition_epoch : ℕ
  pub replicas : List ℕ
  pub isr : List ℕ

pub record TopicPartitionKey : Type 0 where
  pub topic : List ℕ
  pub partition : ℕ

abbrev pub key_eq : TopicPartitionKey → TopicPartitionKey → Bool
key_eq a b = bytes_eq a.topic b.topic && a.partition == b.partition

pub key_eq_iff : (a b : TopicPartitionKey) → (key_eq a b ≡ true) ↔ (a ≡ b)
key_eq_iff a b = ground (arith, bytes_eq_iff a.topic b.topic)

instance abbrev pub key_Eq : Eq TopicPartitionKey
key_Eq = record { beq = key_eq; beq_iff = key_eq_iff }

pub record ControllerState : Type 0 where
  pub brokers : Assoc ℕ BrokerInfo
  pub topics : Assoc (List ℕ) TopicState
  pub partitions : Assoc TopicPartitionKey PartitionState

-- newControllerState
unfoldable pub new_controller_state : ControllerState
new_controller_state = record { brokers = []; topics = []; partitions = [] }

pub record RegisterBrokerCommand : Type 0 where
  pub id : ℕ
  pub incarnation_id : List ℕ
  pub endpoints : List BrokerEndpoint

pub record UnfenceBrokerCommand : Type 0 where
  pub broker_id : ℕ
  pub broker_epoch : ℕ

pub record CreateTopicPartitionSpec : Type 0 where
  pub partition : ℕ
  pub leader_broker_id : ℕ
  pub replicas : List ℕ
  pub isr : List ℕ

pub record CreateTopicCommand : Type 0 where
  pub topic : List ℕ
  pub partitions : List CreateTopicPartitionSpec

pub record UpdatePartitionCommand : Type 0 where
  pub topic : List ℕ
  pub partition : ℕ
  pub expected_partition_epoch : ℕ
  pub leader_broker_id : ℕ
  pub replicas : List ℕ
  pub isr : List ℕ
  pub allow_unclean_election : Bool

-- The errors of the commands, without their texts.
pub data ControllerError : Type 0 where
  nil_log decode unsupported_version unknown_command : ControllerError
  invalid_broker_id incarnation_required zero_broker_epoch : ControllerError
  endpoint_required name_required host_required port_required : ControllerError
  unsupported_security duplicate_endpoint : ControllerError
  different_endpoints active_incarnation : ControllerError
  unknown_broker stale_broker_epoch : ControllerError
  topic_required partitions_required topic_exists : ControllerError
  invalid_partition duplicate_partition not_contiguous : ControllerError
  unknown_partition stale_partition_epoch unclean_election : ControllerError
  replicas_required duplicate_replica unknown_replica leader_not_replica : ControllerError
  duplicate_broker unknown_topic negative_epoch topic_without_partitions : ControllerError
  duplicate_isr isr_not_replica isr_not_live leader_not_isr leader_not_live : ControllerError

pub data Result {ℓ} (A : Type ℓ) : Type ℓ where
  ok : A → Result A
  err : ControllerError → Result A

infixl 5 ◌>>=◌ ◌>>◌
abbrev pub ◌>>=◌ {ℓ κ} : {A : Type ℓ} {B : Type κ} → Result A → (A → Result B) → Result B
ok a >>= f = f a
err e >>= f = err e

abbrev pub ◌>>◌ {ℓ κ} : {A : Type ℓ} {B : Type κ} → Result A → Result B → Result B
m >> k = m >>= λ _. k

-- `if failed { return err }`
abbrev pub refuse_if : Bool → ControllerError → Result (Unit {0})
refuse_if true e = err e
refuse_if false e = ok tt
