-- ===== src/Controller/Snapshot/Restored.antt =====
-- internal/controller/fsm.go, Restore: what is restored is consistent.
use distributed_messaging_sy.Common.{
  ℕ, ◌≡◌, refl, subst, true, Option, none, some, List, [], ◌∷◌, arith, lookup, insert, nat_eq,
  bytes_Eq, Option-cases, inl, inr,
}
use distributed_messaging_sy.Controller.State.{
  BrokerInfo, TopicState, PartitionState, TopicPartitionKey, key_Eq, ControllerState,
  new_controller_state, Result, ok,
}
use distributed_messaging_sy.Controller.Endpoints.{normalize_endpoints}
use distributed_messaging_sy.Controller.Assignment.{validate_partition_spec}
use distributed_messaging_sy.Controller.Assignment.Exact.{Result-cases, validate_partition_spec_iff}
use distributed_messaging_sy.Controller.Fsm.{write_broker, has_topic}
use distributed_messaging_sy.Controller.Fsm.Invariant.{
  IsConsistent, IsConsistent-new, write_broker-IsConsistent,
}
use distributed_messaging_sy.Controller.Fsm.Topics.{
  write_partition-IsConsistent, write_topic-IsConsistent,
}
use distributed_messaging_sy.Controller.Snapshot.{
  SnapshotPartition, SnapshotData, each, restore_broker, restore_topic, restore_partition,
  check_topic, from_snapshot_data, restore,
}

-- A loop keeps what its body keeps.
each-keeps :
    {S A : Type 0} (P : S → Type 0) (step : S → A → Result S)
    → ((s : S) (a : A) (s' : S) → P s → step s a ≡ ok s' → P s')
    → (s : S) (xs : List A) (s' : S) → P s
    → each step s xs ≡ ok s'
    → P s'
unfolding each
each-keeps P step keeps s [] s' p h = let e : s ≡ s' = cc in subst P e p
each-keeps P step keeps s (x ∷ xs) s' p h = elim (Result-cases (step s x)) [
  | inr (e, failed) ↦ absurd (ground arith)
  | inl (t, did) ↦ each-keeps P step keeps t xs s' (keeps s x t p did) (rw did at h)
]

-- While brokers are restored there is no partition.
abbrev HasBrokersOnly : ControllerState → Type 0
HasBrokersOnly s = IsConsistent s × (s.partitions ≡ [])

lookup-nil : (k : TopicPartitionKey) (p : PartitionState) → lookup k [] ≡ some p → ⊥
unfolding lookup
lookup-nil k p l = ground arith

restore_broker-keeps :
    (s : ControllerState) (b : BrokerInfo) (s' : ControllerState)
    → HasBrokersOnly s
    → restore_broker s b ≡ ok s'
    → HasBrokersOnly s'
unfolding restore_broker
restore_broker-keeps s b s' (c, e) h = elim (Result-cases (normalize_endpoints b.endpoints)) [
  | inr (er, failed) ↦ absurd (ground arith)
  | inl (es, did) ↦
      let b' : BrokerInfo = record b { endpoints = es } in
      let w : write_broker s b.id b' ≡ s' = ground arith in
      subst HasBrokersOnly w (
        write_broker-IsConsistent s b.id b' c refl (λ k p l. absurd (lookup-nil k p (rw e at l))),
        unfold write_broker in e,
      )
]

restore_topic-keeps :
    (s : ControllerState) (name : List ℕ) (s' : ControllerState)
    → IsConsistent s
    → restore_topic s name ≡ ok s'
    → IsConsistent s'
unfolding restore_topic
restore_topic-keeps s name s' c h =
    let t : TopicState = record { name = name } in
    let e : record s { topics = insert name t s.topics } ≡ s' = ground arith in
    subst IsConsistent e (write_topic-IsConsistent s name t c)

known_topic :
    (s : ControllerState) (topic : List ℕ)
    → has_topic s topic ≡ true
    → (t : TopicState) × (lookup topic s.topics ≡ some t)
unfolding has_topic
known_topic s topic h = elim (Option-cases (lookup topic s.topics)) [
  | inl missing ↦ absurd (ground arith)
  | inr found ↦ found
]

restore_partition-keeps :
    (s : ControllerState) (q : SnapshotPartition) (s' : ControllerState)
    → IsConsistent s
    → restore_partition s q ≡ ok s'
    → IsConsistent s'
unfolding restore_partition
restore_partition-keeps s q s' c h =
    let key : TopicPartitionKey = record { topic = q.topic; partition = q.partition } in
    let p : PartitionState = record {
      leader_broker_id = q.leader_broker_id;
      leader_epoch = q.leader_epoch;
      partition_epoch = q.partition_epoch;
      replicas = q.replicas;
      isr = q.isr;
    } in
    let known : has_topic s q.topic ≡ true = ground arith in
    let valid : validate_partition_spec s.brokers q.leader_broker_id q.replicas q.isr ≡ ok tt =
      ground arith in
    let e : record s { partitions = insert key p s.partitions } ≡ s' = ground arith in
    subst IsConsistent e (
      write_partition-IsConsistent s key p c
        ((validate_partition_spec_iff s.brokers q.leader_broker_id q.replicas q.isr).0 valid)
        (known_topic s q.topic known))

check_topic-keeps :
    (s : ControllerState) (t : List ℕ × TopicState) (s' : ControllerState)
    → IsConsistent s
    → check_topic s t ≡ ok s'
    → IsConsistent s'
unfolding check_topic
check_topic-keeps s t s' c h = let e : s ≡ s' = ground arith in subst IsConsistent e c

from_snapshot_data-IsConsistent :
    (data' : SnapshotData) (s : ControllerState) → from_snapshot_data data' ≡ ok s → IsConsistent s
unfolding from_snapshot_data
from_snapshot_data-IsConsistent data' s h =
    let new = new_controller_state in
    elim (Result-cases (each restore_broker new data'.brokers)) [
      | inr (e, failed) ↦ absurd (ground arith)
      | inl (s1, did1) ↦ elim (Result-cases (each restore_topic s1 data'.topics)) [
        | inr (e, failed) ↦ absurd (ground arith)
        | inl (s2, did2) ↦ elim (Result-cases (each restore_partition s2 data'.partitions)) [
          | inr (e, failed) ↦ absurd (ground arith)
          | inl (s3, did3) ↦
              let c1 =
                each-keeps HasBrokersOnly restore_broker restore_broker-keeps new data'.brokers s1
                  (IsConsistent-new, unfold new_controller_state in refl) did1 in
              let c2 =
                each-keeps IsConsistent restore_topic restore_topic-keeps s1 data'.topics s2 c1.0
                  did2 in
              let c3 =
                each-keeps IsConsistent restore_partition restore_partition-keeps s2
                  data'.partitions s3 c2 did3 in
              each-keeps IsConsistent check_topic check_topic-keeps s3 s3.topics s c3 (ground arith)
        ]
      ]
    ]

-- Restore keeps the metadata consistent, whatever the snapshot holds, readable or not.
pub restore-IsConsistent :
    (s : ControllerState) (data' : Option SnapshotData)
    → IsConsistent s
    → IsConsistent (restore s data').0
unfolding restore
restore-IsConsistent s none c = c
restore-IsConsistent s (some data') c = elim (Result-cases (from_snapshot_data data')) [
  | inr (e, failed) ↦ rw (failed, restore) c
  | inl (t, did) ↦ rw (did, restore) (from_snapshot_data-IsConsistent data' t did)
]
