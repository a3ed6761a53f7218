-- ===== src/Controller/Fsm.antt =====
-- internal/controller/fsm.go: the commands of ControllerFSM and Apply.
-- A handler returns the new state or an error. It writes only behind its last check, so that an
-- error comes with the state as it was. The lock makes each command one step.
pub mod Invariant
pub mod Brokers
pub mod Topics
pub mod Consistency
pub mod Epochs
use distributed_messaging_sy.Common.{
  ℕ, zero, suc, ◌+◌, ◌%◌, ◌^◌, Bool, true, false, not, ◌&&◌, ◌||◌, Option, none, some, List, [],
  ◌∷◌, length, is_empty, contains, lookup, insert, Assoc, nat_eq, bytes_eq, bytes_Eq, ◌==◌,
  if◌then◌else◌, is_negative_i32,
}
use distributed_messaging_sy.Controller.State.{
  BrokerEndpoint, BrokerInfo, TopicState, PartitionState, TopicPartitionKey, key_Eq,
  ControllerState, RegisterBrokerCommand, UnfenceBrokerCommand, CreateTopicPartitionSpec,
  CreateTopicCommand, UpdatePartitionCommand, ControllerError, Result, ok, err, ◌>>=◌, ◌>>◌,
  refuse_if, nil_log, decode, unsupported_version, unknown_command, invalid_broker_id,
  incarnation_required, zero_broker_epoch, different_endpoints, active_incarnation, unknown_broker,
  stale_broker_epoch, topic_required, partitions_required, topic_exists, invalid_partition,
  duplicate_partition, not_contiguous, unknown_partition, stale_partition_epoch, unclean_election,
}
use distributed_messaging_sy.Controller.Endpoints.{normalize_endpoints, endpoints_equal}
use distributed_messaging_sy.Controller.Assignment.{validate_partition_spec}

-- brokerInActivePartition
unfoldable pub broker_in_active_partition : Assoc TopicPartitionKey PartitionState → ℕ → Bool
broker_in_active_partition [] id = false
broker_in_active_partition ((k, p) ∷ ps) id =
    p.leader_broker_id == id || contains p.isr id || broker_in_active_partition ps id

-- The broker that applyRegisterBroker writes at its end.
unfoldable pub registered : RegisterBrokerCommand → ℕ → List BrokerEndpoint → BrokerInfo
registered cmd index endpoints = record {
  id = cmd.id;
  incarnation_id = cmd.incarnation_id;
  broker_epoch = index;
  endpoints = endpoints;
  fenced = true;
}

unfoldable pub write_broker : ControllerState → ℕ → BrokerInfo → ControllerState
write_broker s id b = record s { brokers = insert id b s.brokers }

-- What applyRegisterBroker does about the broker that has the id already.
unfoldable pub register_over :
    ControllerState
    → RegisterBrokerCommand
    → ℕ
    → List BrokerEndpoint
    → Option BrokerInfo
    → Result ControllerState
unfolding registered write_broker broker_in_active_partition
register_over s cmd index endpoints none =
    ok (write_broker s cmd.id (registered cmd index endpoints))
register_over s cmd index endpoints (some existing) =
    if bytes_eq existing.incarnation_id cmd.incarnation_id
    then if endpoints_equal existing.endpoints endpoints then ok s else err different_endpoints
    else if not existing.fenced || broker_in_active_partition s.partitions cmd.id
    then err active_incarnation
    else ok (write_broker s cmd.id (registered cmd index endpoints))

unfoldable pub apply_register_broker :
    ControllerState → RegisterBrokerCommand → ℕ → Result ControllerState
unfolding register_over
apply_register_broker s cmd index = do
  refuse_if (is_negative_i32 cmd.id) invalid_broker_id
  refuse_if (is_empty cmd.incarnation_id) incarnation_required
  refuse_if (index == 0) zero_broker_epoch
  endpoints ← normalize_endpoints cmd.endpoints
  register_over s cmd index endpoints (lookup cmd.id s.brokers)

unfoldable pub unfence_over :
    ControllerState → UnfenceBrokerCommand → Option BrokerInfo → Result ControllerState
unfolding write_broker
unfence_over s cmd none = err unknown_broker
unfence_over s cmd (some b) =
    if b.broker_epoch == cmd.broker_epoch
    then ok (write_broker s cmd.broker_id (record b { fenced = false }))
    else err stale_broker_epoch

unfoldable pub apply_unfence_broker :
    ControllerState → UnfenceBrokerCommand → Result ControllerState
unfolding unfence_over
apply_unfence_broker s cmd = unfence_over s cmd (lookup cmd.broker_id s.brokers)

-- The validating loop of applyCreateTopic; `seen` is its set of partitions, which it returns.
unfoldable pub check_specs :
    Assoc ℕ BrokerInfo → List ℕ → List CreateTopicPartitionSpec → Result (List ℕ)
check_specs brokers seen [] = ok seen
check_specs brokers seen (spec ∷ specs) = do
  refuse_if (is_negative_i32 spec.partition) invalid_partition
  refuse_if (contains seen spec.partition) duplicate_partition
  validate_partition_spec brokers spec.leader_broker_id spec.replicas spec.isr
  check_specs brokers (spec.partition ∷ seen) specs

-- Whether `seen` has all partitions below a bound.
unfoldable pub all_seen : List ℕ → ℕ → Bool
all_seen seen zero = true
all_seen seen (suc n) = contains seen n && all_seen seen n

-- `int32(len(cmd.Partitions))`, as the bound of a loop that starts at 0.
unfoldable pub int32_bound : ℕ → ℕ
int32_bound n = if is_negative_i32 (n % 2 ^ 32) then 0 else n % 2 ^ 32

-- The writing loop of applyCreateTopic.
unfoldable pub write_specs :
    List ℕ
    → List CreateTopicPartitionSpec
    → Assoc TopicPartitionKey PartitionState
    → Assoc TopicPartitionKey PartitionState
write_specs topic [] ps = ps
write_specs topic (spec ∷ specs) ps = write_specs topic specs (
    insert (record { topic = topic; partition = spec.partition })
      (record {
        leader_broker_id = spec.leader_broker_id;
        leader_epoch = 0;
        partition_epoch = 0;
        replicas = spec.replicas;
        isr = spec.isr;
      })
      ps)

unfoldable pub has_topic : ControllerState → List ℕ → Bool
has_topic s topic = elim (lookup topic s.topics) [ none ↦ false | some t ↦ true ]

unfoldable pub apply_create_topic : ControllerState → CreateTopicCommand → Result ControllerState
unfolding check_specs all_seen write_specs has_topic int32_bound
apply_create_topic s cmd = do
  refuse_if (is_empty cmd.topic) topic_required
  refuse_if (is_empty cmd.partitions) partitions_required
  refuse_if (has_topic s cmd.topic) topic_exists
  seen ← check_specs s.brokers [] cmd.partitions
  refuse_if (not (all_seen seen (int32_bound (length cmd.partitions)))) not_contiguous
  ok (record s {
    topics = insert cmd.topic (record { name = cmd.topic }) s.topics;
    partitions = write_specs cmd.topic cmd.partitions s.partitions;
  })

-- The partition that applyUpdatePartition writes; its epochs are int32.
unfoldable pub updated_partition : UpdatePartitionCommand → PartitionState → PartitionState
updated_partition cmd current = record {
  leader_broker_id = cmd.leader_broker_id;
  leader_epoch =
      if cmd.leader_broker_id == current.leader_broker_id
      then current.leader_epoch
      else (current.leader_epoch + 1) % 2 ^ 32;
  partition_epoch = (current.partition_epoch + 1) % 2 ^ 32;
  replicas = cmd.replicas;
  isr = cmd.isr;
}

unfoldable pub update_over :
    ControllerState
    → UpdatePartitionCommand
    → TopicPartitionKey
    → Option PartitionState
    → Result ControllerState
unfolding updated_partition
update_over s cmd key none = err unknown_partition
update_over s cmd key (some current) = do
  refuse_if (not (cmd.expected_partition_epoch == current.partition_epoch)) stale_partition_epoch
  validate_partition_spec s.brokers cmd.leader_broker_id cmd.replicas cmd.isr
  refuse_if
      (not (cmd.leader_broker_id == current.leader_broker_id)
        && not (contains current.isr cmd.leader_broker_id)
        && not cmd.allow_unclean_election)
      unclean_election
  ok (record s { partitions = insert key (updated_partition cmd current) s.partitions })

unfoldable pub apply_update_partition :
    ControllerState → UpdatePartitionCommand → Result ControllerState
unfolding update_over
apply_update_partition s cmd =
    let key : TopicPartitionKey = record { topic = cmd.topic; partition = cmd.partition } in
    update_over s cmd key (lookup key s.partitions)

-- A decoded CommandEnvelope: its version, its type with the decoded payload. `none` is a payload
-- that does not decode.
pub data Command : Type 0 where
  register_broker : Option RegisterBrokerCommand → Command
  unfence_broker : Option UnfenceBrokerCommand → Command
  create_topic : Option CreateTopicCommand → Command
  update_partition : Option UpdatePartitionCommand → Command
  unknown_type : Command

pub record CommandEnvelope : Type 0 where
  pub version : ℕ
  pub command : Command

abbrev pub decoded {ℓ} : {A : Type ℓ} → Option A → Result A
decoded none = err decode
decoded (some a) = ok a

-- The switch of Apply.
unfoldable pub apply_command : ControllerState → ℕ → Command → Result ControllerState
apply_command s index (register_broker p) = do cmd ← decoded p; apply_register_broker s cmd index
apply_command s index (unfence_broker p) = do cmd ← decoded p; apply_unfence_broker s cmd
apply_command s index (create_topic p) = do cmd ← decoded p; apply_create_topic s cmd
apply_command s index (update_partition p) = do cmd ← decoded p; apply_update_partition s cmd
apply_command s index unknown_type = err unknown_command

-- A log entry of Raft; `none` is one whose data is no envelope.
pub record RaftLog : Type 0 where
  pub index : ℕ
  pub envelope : Option CommandEnvelope

unfoldable pub apply_result : ControllerState → RaftLog → Result ControllerState
unfolding apply_command
apply_result s log = do
  env ← decoded log.envelope
  refuse_if (not (env.version == 1)) unsupported_version
  apply_command s log.index env.command

abbrev pub settle :
    ControllerState → Result ControllerState → ControllerState × Option ControllerError
settle s (ok s') = (s', none)
settle s (err e) = (s, some e)

-- Apply; a nil log is `none`.
unfoldable pub apply : ControllerState → Option RaftLog → ControllerState × Option ControllerError
unfolding apply_result
apply s none = (s, some nil_log)
apply s (some log) = settle s (apply_result s log)

-- A run of the replicated log.
unfoldable pub apply_all : ControllerState → List RaftLog → ControllerState
unfolding apply
apply_all s [] = s
apply_all s (log ∷ logs) = apply_all (apply s (some log)).0 logs
