-- ===== src/Controller/Fsm/Invariant.antt =====
-- internal/controller/fsm.go: what consistent metadata is, and writes of brokers that keep it so.
use distributed_messaging_sy.Common.{
  ℕ, ◌≡◌, ◌⊎◌, false, some, List, arith, contains, lookup, insert, lookup-insert, Assoc, nat_eq,
  bytes_Eq,
}
use distributed_messaging_sy.Controller.State.{
  BrokerInfo, TopicState, PartitionState, TopicPartitionKey, key_Eq, ControllerState,
  new_controller_state, ok,
}
use distributed_messaging_sy.Controller.Assignment.{is_registered, is_live}
use distributed_messaging_sy.Controller.Assignment.Exact.{IsAssignment}
use distributed_messaging_sy.Controller.Fsm.{write_broker}

-- Every partition has an allowed assignment over the current brokers and belongs to a topic, and
-- every broker stands under its own id.
pub record IsConsistent (s : ControllerState) : Type 0 where
  pub assigned :
      (k : TopicPartitionKey) (p : PartitionState)
      → lookup k s.partitions ≡ some p
      → IsAssignment s.brokers p.leader_broker_id p.replicas p.isr
  pub topic_known :
      (k : TopicPartitionKey) (p : PartitionState)
      → lookup k s.partitions ≡ some p
      → (t : TopicState) × (lookup k.topic s.topics ≡ some t)
  pub own_id : (i : ℕ) (b : BrokerInfo) → lookup i s.brokers ≡ some b → b.id ≡ i

pub IsConsistent-new : IsConsistent new_controller_state
unfolding new_controller_state lookup
IsConsistent-new = record {
  assigned = λ k p h. cc;
  topic_known = λ k p h. absurd (ground arith);
  own_id = λ i b h. cc;
}

-- Replacing or adding a broker that is live, or that no ISR member is.
pub ok-injective : (a b : ControllerState) → ok a ≡ ok b → a ≡ b
ok-injective a b h = cc

IsAssignment-insert :
    (brokers : Assoc ℕ BrokerInfo) (id : ℕ) (b : BrokerInfo) (leader : ℕ) (replicas isr : List ℕ)
    → (contains isr id ≡ false) ⊎ (b.fenced ≡ false)
    → IsAssignment brokers leader replicas isr
    → IsAssignment (insert id b brokers) leader replicas isr
unfolding is_registered is_live
IsAssignment-insert brokers id b leader replicas isr h a = record {
  distinct_replicas = a.distinct_replicas;
  distinct_isr = a.distinct_isr;
  known = λ r c. ground (arith, a.known r c, lookup-insert id r b brokers);
  isr_replicas = a.isr_replicas;
  isr_live = λ m c. ground (arith, a.isr_live m c, lookup-insert id m b brokers);
  leader_in_isr = a.leader_in_isr;
}

pub write_broker-IsConsistent :
    (s : ControllerState) (id : ℕ) (b : BrokerInfo)
    → IsConsistent s
    → b.id ≡ id
    → ((k : TopicPartitionKey) (p : PartitionState)
        → lookup k s.partitions ≡ some p
        → (contains p.isr id ≡ false) ⊎ (b.fenced ≡ false))
    → IsConsistent (write_broker s id b)
unfolding write_broker
write_broker-IsConsistent s id b c own out = record {
  assigned = λ k p l.
      IsAssignment-insert s.brokers id b p.leader_broker_id p.replicas p.isr (out k p l)
        (c.assigned k p l);
  topic_known = c.topic_known;
  own_id = λ i b' l. ground (arith, c.own_id i b', lookup-insert id i b s.brokers, own);
}
