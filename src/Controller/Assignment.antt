-- ===== src/Controller/Assignment.antt =====
-- internal/controller/fsm.go, validatePartitionSpec: which assignments of a partition are allowed.
pub mod Exact
use distributed_messaging_sy.Common.{
  ℕ, Bool, true, false, not, ◌||◌, Option, none, some, List, [], ◌∷◌, contains, lookup, nat_eq,
  Assoc, is_empty, if◌then◌else◌,
}
use distributed_messaging_sy.Controller.State.{
  BrokerInfo, Result, ok, err, ◌>>=◌, ◌>>◌, refuse_if, replicas_required, duplicate_replica,
  unknown_replica, leader_not_replica, duplicate_isr, isr_not_replica, isr_not_live, leader_not_isr,
  leader_not_live,
}

unfoldable pub is_registered : Assoc ℕ BrokerInfo → ℕ → Bool
is_registered brokers id = elim (lookup id brokers) [ none ↦ false | some b ↦ true ]

-- `info, ok := brokers[m]; !ok || info.Fenced`, negated.
unfoldable pub is_live : Assoc ℕ BrokerInfo → ℕ → Bool
is_live brokers id = elim (lookup id brokers) [ none ↦ false | some b ↦ not b.fenced ]

-- The loop over the replicas; `seen` is the set `replicaSet`, which it returns.
unfoldable pub check_replicas : Assoc ℕ BrokerInfo → List ℕ → List ℕ → Result (List ℕ)
unfolding is_registered
check_replicas brokers seen [] = ok seen
check_replicas brokers seen (r ∷ rs) =
    let rest = check_replicas brokers (r ∷ seen) rs in
    if contains seen r
    then err duplicate_replica
    else if is_registered brokers r
    then rest
    else err unknown_replica

-- The loop over the ISR; `seen` is `isrSet`.
unfoldable pub check_isr : Assoc ℕ BrokerInfo → List ℕ → List ℕ → List ℕ → Result (List ℕ)
unfolding is_live
check_isr brokers replica_set seen [] = ok seen
check_isr brokers replica_set seen (m ∷ ms) =
    let rest = check_isr brokers replica_set (m ∷ seen) ms in
    if contains seen m
    then err duplicate_isr
    else if contains replica_set m
    then if is_live brokers m then rest else err isr_not_live
    else err isr_not_replica

-- validatePartitionSpec
unfoldable pub validate_partition_spec :
    Assoc ℕ BrokerInfo → ℕ → List ℕ → List ℕ → Result (Unit {0})
unfolding check_replicas check_isr is_live
validate_partition_spec brokers leader replicas isr = do
  refuse_if (is_empty replicas) replicas_required
  replica_set ← check_replicas brokers [] replicas
  refuse_if (not (contains replica_set leader)) leader_not_replica
  isr_set ← check_isr brokers replica_set [] isr
  refuse_if (not (contains isr_set leader)) leader_not_isr
  refuse_if (not (is_live brokers leader)) leader_not_live
