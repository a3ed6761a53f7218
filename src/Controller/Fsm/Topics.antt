-- ===== src/Controller/Fsm/Topics.antt =====
-- internal/controller/fsm.go: applyCreateTopic and applyUpdatePartition keep the metadata consistent.
use distributed_messaging_sy.Common.{
  ℕ, ◌≡◌, subst, some, List, [], ◌∷◌, arith, lookup, insert, lookup-insert, lookup-insert_self,
  Assoc, nat_eq, bytes_eq, bytes_Eq, Bool-cases, Option-cases, inl, inr,
}
use distributed_messaging_sy.Controller.State.{
  BrokerInfo, TopicState, PartitionState, TopicPartitionKey, key_eq, key_Eq, key_eq_iff,
  ControllerState, CreateTopicPartitionSpec, CreateTopicCommand, UpdatePartitionCommand, ok,
}
use distributed_messaging_sy.Controller.Assignment.{validate_partition_spec}
use distributed_messaging_sy.Controller.Assignment.Exact.{
  Result-cases, IsAssignment, validate_partition_spec_iff,
}
use distributed_messaging_sy.Controller.Fsm.{
  check_specs, write_specs, apply_create_topic, updated_partition, update_over,
  apply_update_partition,
}
use distributed_messaging_sy.Controller.Fsm.Invariant.{IsConsistent}

pub write_partition-IsConsistent :
    (s : ControllerState) (key : TopicPartitionKey) (p : PartitionState)
    → IsConsistent s
    → IsAssignment s.brokers p.leader_broker_id p.replicas p.isr
    → (t : TopicState) × (lookup key.topic s.topics ≡ some t)
    → IsConsistent (record s { partitions = insert key p s.partitions })
write_partition-IsConsistent s key p c a t = record {
  assigned = λ k q l. elim (Bool-cases (key_eq key k)) [
    | inl same ↦
        let e : p ≡ q = ground (arith, lookup-insert key k p s.partitions) in
        subst (λ r. IsAssignment s.brokers r.leader_broker_id r.replicas r.isr) e a
    | inr other ↦ c.assigned k q (ground (arith, lookup-insert key k p s.partitions))
  ];
  topic_known = λ k q l. elim (Bool-cases (key_eq key k)) [
    | inl same ↦
        subst (λ r. (t : TopicState) × (lookup r.topic s.topics ≡ some t))
          ((key_eq_iff key k).0 same) t
    | inr other ↦ c.topic_known k q (ground (arith, lookup-insert key k p s.partitions))
  ];
  own_id = c.own_id;
}

pub apply_update_partition-IsConsistent :
    (s : ControllerState) (cmd : UpdatePartitionCommand) (s' : ControllerState)
    → IsConsistent s
    → apply_update_partition s cmd ≡ ok s'
    → IsConsistent s'
unfolding apply_update_partition update_over
apply_update_partition-IsConsistent s cmd s' c h =
    let key : TopicPartitionKey = record { topic = cmd.topic; partition = cmd.partition } in
    elim (Option-cases (lookup key s.partitions)) [
      | inl missing ↦ absurd (ground arith)
      | inr (p, found) ↦
          let valid : validate_partition_spec s.brokers cmd.leader_broker_id cmd.replicas cmd.isr
              ≡ ok tt =
            ground arith in
          let e : record s { partitions = insert key (updated_partition cmd p) s.partitions } ≡ s' =
            ground arith in
          subst IsConsistent e (
            write_partition-IsConsistent s key (updated_partition cmd p) c
              (unfold updated_partition in (validate_partition_spec_iff _ _ _ _).0 valid)
              (c.topic_known key p found))
    ]

-- The loop over the partitions of a new topic has validated all of them.
abbrev pub AllValid : Assoc ℕ BrokerInfo → List CreateTopicPartitionSpec → Type 0
AllValid brokers [] = Unit {0}
AllValid brokers (spec ∷ specs) =
    IsAssignment brokers spec.leader_broker_id spec.replicas spec.isr × AllValid brokers specs

check_specs-AllValid :
    (brokers : Assoc ℕ BrokerInfo) (seen : List ℕ) (specs : List CreateTopicPartitionSpec)
    (s : List ℕ)
    → check_specs brokers seen specs ≡ ok s
    → AllValid brokers specs
unfolding check_specs
check_specs-AllValid brokers seen [] s h = tt
check_specs-AllValid brokers seen (spec ∷ specs) s h =
    let valid : validate_partition_spec brokers spec.leader_broker_id spec.replicas spec.isr
        ≡ ok tt =
      ground arith in
    (
      (validate_partition_spec_iff _ _ _ _).0 valid,
      check_specs-AllValid brokers (spec.partition ∷ seen) specs s (ground arith),
    )

write_specs-IsConsistent :
    (s : ControllerState) (topic : List ℕ) (specs : List CreateTopicPartitionSpec)
    → IsConsistent s
    → AllValid s.brokers specs
    → (t : TopicState) × (lookup topic s.topics ≡ some t)
    → IsConsistent (record s { partitions = write_specs topic specs s.partitions })
unfolding write_specs
write_specs-IsConsistent s topic [] c v t = c
write_specs-IsConsistent s topic (spec ∷ specs) c v t =
    let key : TopicPartitionKey = record { topic = topic; partition = spec.partition } in
    let p : PartitionState = record {
      leader_broker_id = spec.leader_broker_id;
      leader_epoch = 0;
      partition_epoch = 0;
      replicas = spec.replicas;
      isr = spec.isr;
    } in
    write_specs-IsConsistent (record s { partitions = insert key p s.partitions }) topic specs
      (write_partition-IsConsistent s key p c v.0 t) v.1 t

pub write_topic-IsConsistent :
    (s : ControllerState) (topic : List ℕ) (t : TopicState)
    → IsConsistent s
    → IsConsistent (record s { topics = insert topic t s.topics })
write_topic-IsConsistent s topic t c = record {
  assigned = c.assigned;
  topic_known = λ k p l. elim (Bool-cases (bytes_eq topic k.topic)) [
    | inl same ↦ (t, ground (arith, lookup-insert topic k.topic t s.topics))
    | inr other ↦
        let (u, known) = c.topic_known k p l in
        (u, ground (arith, known, lookup-insert topic k.topic t s.topics))
  ];
  own_id = c.own_id;
}

pub apply_create_topic-IsConsistent :
    (s : ControllerState) (cmd : CreateTopicCommand) (s' : ControllerState)
    → IsConsistent s
    → apply_create_topic s cmd ≡ ok s'
    → IsConsistent s'
unfolding apply_create_topic
apply_create_topic-IsConsistent s cmd s' c h =
    elim (Result-cases (check_specs s.brokers [] cmd.partitions)) [
      | inr (e, p) ↦ absurd (ground arith)
      | inl (seen, p) ↦
          let t : TopicState = record { name = cmd.topic } in
          let s1 : ControllerState = record s { topics = insert cmd.topic t s.topics } in
          let e : record s1 { partitions = write_specs cmd.topic cmd.partitions s.partitions }
              ≡ s' =
            ground arith in
          subst IsConsistent e (
            write_specs-IsConsistent s1 cmd.topic cmd.partitions
              (write_topic-IsConsistent s cmd.topic t c)
              (check_specs-AllValid s.brokers [] cmd.partitions seen p)
              (t, lookup-insert_self cmd.topic t s.topics))
    ]
