-- ===== src/Controller/Fsm/Brokers.antt =====
-- internal/controller/fsm.go: applyRegisterBroker and applyUnfenceBroker keep the metadata consistent.
use distributed_messaging_sy.Common.{
  ℕ, ◌≡◌, refl, subst, false, Option, none, some, List, [], ◌∷◌, arith, contains, lookup, Assoc,
  nat_eq, bytes_eq, bytes_Eq, Bool-cases, Option-cases, inl, inr,
}
use distributed_messaging_sy.Controller.State.{
  BrokerEndpoint, BrokerInfo, PartitionState, TopicPartitionKey, key_eq, key_Eq, ControllerState,
  RegisterBrokerCommand, UnfenceBrokerCommand, ok,
}
use distributed_messaging_sy.Controller.Endpoints.{normalize_endpoints}
use distributed_messaging_sy.Controller.Assignment.{is_live}
use distributed_messaging_sy.Controller.Assignment.Exact.{Result-cases, IsAssignment}
use distributed_messaging_sy.Controller.Fsm.{
  broker_in_active_partition, registered, write_broker, register_over, apply_register_broker,
  unfence_over, apply_unfence_broker,
}
use distributed_messaging_sy.Controller.Fsm.Invariant.{
  IsConsistent, ok-injective, write_broker-IsConsistent,
}

-- A broker that the scan over the partitions does not find.
inactive :
    (ps : Assoc TopicPartitionKey PartitionState) (id : ℕ) (k : TopicPartitionKey)
    (p : PartitionState)
    → broker_in_active_partition ps id ≡ false
    → lookup k ps ≡ some p
    → contains p.isr id ≡ false
unfolding broker_in_active_partition lookup
inactive [] id k p h l = cc
inactive ((j, q) ∷ ps) id k p h l = elim (Bool-cases (key_eq j k)) [
  | inl same ↦ ground arith
  | inr other ↦ inactive ps id k p (ground arith) (ground arith)
]

-- A broker that is not registered.
unregistered :
    (brokers : Assoc ℕ BrokerInfo) (id leader : ℕ) (replicas isr : List ℕ)
    → lookup id brokers ≡ none
    → IsAssignment brokers leader replicas isr
    → contains isr id ≡ false
unregistered brokers id leader replicas isr h a = elim (Bool-cases (contains isr id)) [
  | inr out ↦ out
  | inl within ↦ unfold is_live in absurd (ground (arith, a.isr_live id within))
]

register_over-IsConsistent :
    (s : ControllerState) (cmd : RegisterBrokerCommand) (index : ℕ)
    (endpoints : List BrokerEndpoint) (o : Option BrokerInfo) (s' : ControllerState)
    → IsConsistent s
    → lookup cmd.id s.brokers ≡ o
    → register_over s cmd index endpoints o ≡ ok s'
    → IsConsistent s'
unfolding register_over registered
register_over-IsConsistent s cmd index endpoints none s' c l h =
    subst IsConsistent (ok-injective _ _ h) (
      write_broker-IsConsistent s cmd.id (registered cmd index endpoints) c refl (λ k p q.
        inl
          (unregistered s.brokers cmd.id p.leader_broker_id p.replicas p.isr l (c.assigned k p q))))
register_over-IsConsistent s cmd index endpoints (some b) s' c l h =
    elim (Bool-cases (bytes_eq b.incarnation_id cmd.incarnation_id)) [
      | inl same ↦ let e : s ≡ s' = ground arith in subst IsConsistent e c
      | inr fresh ↦ elim (Bool-cases (broker_in_active_partition s.partitions cmd.id)) [
        | inl active ↦ absurd (ground arith)
        | inr idle ↦
            let e : write_broker s cmd.id (registered cmd index endpoints) ≡ s' = ground arith in
            subst IsConsistent e (
              write_broker-IsConsistent s cmd.id (registered cmd index endpoints) c refl
                (λ k p q. inl (inactive s.partitions cmd.id k p idle q)))
      ]
    ]

pub apply_register_broker-IsConsistent :
    (s : ControllerState) (cmd : RegisterBrokerCommand) (index : ℕ) (s' : ControllerState)
    → IsConsistent s
    → apply_register_broker s cmd index ≡ ok s'
    → IsConsistent s'
unfolding apply_register_broker
apply_register_broker-IsConsistent s cmd index s' c h =
    elim (Result-cases (normalize_endpoints cmd.endpoints)) [
      | inr (e, p) ↦ absurd (ground arith)
      | inl (endpoints, p) ↦
          register_over-IsConsistent s cmd index endpoints _ s' c refl (ground arith)
    ]

pub apply_unfence_broker-IsConsistent :
    (s : ControllerState) (cmd : UnfenceBrokerCommand) (s' : ControllerState)
    → IsConsistent s
    → apply_unfence_broker s cmd ≡ ok s'
    → IsConsistent s'
unfolding apply_unfence_broker unfence_over
apply_unfence_broker-IsConsistent s cmd s' c h =
    elim (Option-cases (lookup cmd.broker_id s.brokers)) [
      | inl missing ↦ absurd (ground arith)
      | inr (b, found) ↦
          let e : write_broker s cmd.broker_id (record b { fenced = false }) ≡ s' = ground arith in
          subst IsConsistent e (
            write_broker-IsConsistent s cmd.broker_id (record b { fenced = false }) c
              (c.own_id cmd.broker_id b found) (λ k p q. inr refl))
    ]
