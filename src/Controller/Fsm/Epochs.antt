-- ===== src/Controller/Fsm/Epochs.antt =====
-- internal/controller/fsm.go: epochs, elections and fencing.
use distributed_messaging_sy.Common.{
  Bool-cases, inl, inr, ℕ, ◌+◌, ◌%◌, ◌^◌, ◌<◌, ◌≡◌, ◌≢◌, ◌⊎◌, refl, sym, subst, true, false, some,
  arith, contains, lookup, insert, lookup-insert, lookup-insert_self, nat_eq, bytes_eq, bytes_Eq,
  if◌then◌else◌, Option-cases, inl, inr, ◌==◌,
}
use distributed_messaging_sy.Controller.State.{
  BrokerInfo, PartitionState, TopicPartitionKey, key_eq, key_Eq, ControllerState,
  RegisterBrokerCommand, UnfenceBrokerCommand, UpdatePartitionCommand, ok, err,
  stale_partition_epoch, stale_broker_epoch,
}
use distributed_messaging_sy.Controller.Endpoints.{normalize_endpoints}
use distributed_messaging_sy.Controller.Assignment.Exact.{
  Result-cases, IsAssignment, validate_partition_spec_iff,
}
use distributed_messaging_sy.Controller.Fsm.{
  registered, write_broker, register_over, apply_register_broker, unfence_over,
  apply_unfence_broker, updated_partition, update_over, apply_update_partition,
}

abbrev pub target : UpdatePartitionCommand → TopicPartitionKey
target cmd = record { topic = cmd.topic; partition = cmd.partition }

-- What an accepted UpdatePartition does to the partition `old`.
pub record IsUpdate (s s' : ControllerState) (cmd : UpdatePartitionCommand)
    (old new : PartitionState) : Type 0 where
  pub was : lookup (target cmd) s.partitions ≡ some old
  pub is_now : lookup (target cmd) s'.partitions ≡ some new
  pub leader_now : new.leader_broker_id ≡ cmd.leader_broker_id
  pub replicas_now : new.replicas ≡ cmd.replicas
  pub isr_now : new.isr ≡ cmd.isr
  pub assignment : IsAssignment s.brokers cmd.leader_broker_id cmd.replicas cmd.isr
  pub expected : cmd.expected_partition_epoch ≡ old.partition_epoch
  pub next_partition_epoch : new.partition_epoch ≡ (old.partition_epoch + 1) % 2 ^ 32
  pub leader_epoch_now : new.leader_epoch ≡ (
      if cmd.leader_broker_id == old.leader_broker_id
      then old.leader_epoch
      else (old.leader_epoch + 1) % 2 ^ 32)
  pub elected :
      (cmd.leader_broker_id ≡ old.leader_broker_id)
      ⊎ ((contains old.isr cmd.leader_broker_id ≡ true) ⊎ (cmd.allow_unclean_election ≡ true))
  pub others :
      (k : TopicPartitionKey)
      → lookup k s'.partitions ≡ (if key_eq (target cmd) k then some new else lookup k s.partitions)
  pub same_brokers : s'.brokers ≡ s.brokers

-- An accepted UpdatePartition gives the partition the leader, the replicas and the ISR of the
-- command, which are an allowed assignment for the brokers; it named the current partition epoch and
-- moves it on by one, both modulo 2 ^ 32; it moves
-- the leader epoch on by one exactly when the leader changes; a new leader was in the previous ISR
-- unless an unclean election was asked for; and every other partition is as it was.
pub apply_update_partition-IsUpdate :
    (s : ControllerState) (cmd : UpdatePartitionCommand) (s' : ControllerState)
    → apply_update_partition s cmd ≡ ok s'
    → (old : PartitionState) × IsUpdate s s' cmd old (updated_partition cmd old)
unfolding apply_update_partition update_over
apply_update_partition-IsUpdate s cmd s' h =
    elim (Option-cases (lookup (target cmd) s.partitions)) [
      | inl missing ↦ absurd (ground arith)
      | inr (old, found) ↦
          let new = updated_partition cmd old in
          let e : record s { partitions = insert (target cmd) new s.partitions } ≡ s' =
            ground arith in
          (
            old,
            record {
              was = found;
              is_now = ground (arith, e, lookup-insert_self (target cmd) new s.partitions);
              leader_now = unfold updated_partition in refl;
              replicas_now = unfold updated_partition in refl;
              isr_now = unfold updated_partition in refl;
              assignment =
                  (validate_partition_spec_iff s.brokers cmd.leader_broker_id cmd.replicas
                      cmd.isr).0
                    (ground arith);
              expected = ground arith;
              next_partition_epoch = unfold updated_partition in refl;
              leader_epoch_now = unfold updated_partition in ground arith;
              elected = ground arith;
              others = λ k. ground (arith, e, lookup-insert (target cmd) k new s.partitions);
              same_brokers = ground (arith, e);
            },
          )
    ]

-- The next epoch differs from the one before, also where it wraps.
next_epoch_ne : (e : ℕ) → (e == (e + 1) % 2 ^ 32) ≡ false
next_epoch_ne e = ground arith

-- Two updates that name the same partition epoch of one partition: once the first is accepted, the
-- second, whatever it asks for, is refused as stale.
pub apply_update_partition_stale :
    (s s' : ControllerState) (first second : UpdatePartitionCommand)
    → apply_update_partition s first ≡ ok s'
    → target second ≡ target first
    → second.expected_partition_epoch ≡ first.expected_partition_epoch
    → apply_update_partition s' second ≡ err stale_partition_epoch
apply_update_partition_stale s s' first second h same_target same_epoch =
    let (old, u) = apply_update_partition-IsUpdate s first s' h in
    let now : lookup (target second) s'.partitions ≡ some (updated_partition first old) =
      subst (λ k. lookup k s'.partitions ≡ some (updated_partition first old)) (sym same_target)
        u.is_now in
    unfold apply_update_partition update_over in
    ground (arith, now, u.expected, u.next_partition_epoch, next_epoch_ne old.partition_epoch)

-- Once a broker id is registered by another incarnation, at a log index behind the old broker
-- epoch, an UnfenceBroker that names the old broker epoch is refused: the old process stays fenced.
pub apply_register_broker_fences :
    (s s' : ControllerState) (cmd : RegisterBrokerCommand) (index : ℕ) (old : BrokerInfo)
    → lookup cmd.id s.brokers ≡ some old
    → bytes_eq old.incarnation_id cmd.incarnation_id ≡ false
    → old.broker_epoch < index
    → apply_register_broker s cmd index ≡ ok s'
    → (old.fenced ≡ true)
      × (apply_unfence_broker s' (record { broker_id = cmd.id; broker_epoch = old.broker_epoch })
          ≡ err stale_broker_epoch)
unfolding apply_register_broker register_over write_broker
apply_register_broker_fences s s' cmd index old found other older h =
    elim (Result-cases (normalize_endpoints cmd.endpoints)) [
      | inr (e, p) ↦ absurd (ground arith)
      | inl (endpoints, p) ↦
          let b = registered cmd index endpoints in
          let e : record s { brokers = insert cmd.id b s.brokers } ≡ s' = ground arith in
          let now : lookup cmd.id s'.brokers ≡ some b =
            subst (λ r. lookup cmd.id r.brokers ≡ some b) e
              (lookup-insert_self cmd.id b s.brokers) in
          (ground arith, unfold apply_unfence_broker unfence_over registered in ground (arith, now))
    ]

-- UnfenceBroker of a registered broker: with the current epoch of the broker it makes the broker
-- live and changes nothing else about any broker; with any other epoch it is refused as stale.
pub apply_unfence_broker_cases :
    (s : ControllerState) (cmd : UnfenceBrokerCommand) (b : BrokerInfo)
    → lookup cmd.broker_id s.brokers ≡ some b
    → ((b.broker_epoch ≡ cmd.broker_epoch)
        × (s' : ControllerState) × (apply_unfence_broker s cmd ≡ ok s')
        × ((id : ℕ)
            → lookup id s'.brokers ≡ (
                if cmd.broker_id == id
                then some (record b { fenced = false })
                else lookup id s.brokers)))
      ⊎ ((b.broker_epoch ≢ cmd.broker_epoch)
          × (apply_unfence_broker s cmd ≡ err stale_broker_epoch))
unfolding apply_unfence_broker unfence_over write_broker
apply_unfence_broker_cases s cmd b found = elim (Bool-cases (b.broker_epoch == cmd.broker_epoch)) [
  | inl current ↦ inl (
    ground arith,
    record s { brokers = insert cmd.broker_id (record b { fenced = false }) s.brokers },
    ground arith,
    λ id. lookup-insert cmd.broker_id id (record b { fenced = false }) s.brokers,
  )
  | inr stale ↦ inr (ground arith, ground arith)
]
