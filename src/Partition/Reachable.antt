-- ===== src/Partition/Reachable.antt =====
-- internal/broker/partition.go and partition_raw.go: runs of the operations of a partition replica.
use distributed_messaging_sy.Common.{ℕ, ◌≤◌, Bool, List, arith}
use distributed_messaging_sy.Log.State.{Log, next_offset}
use distributed_messaging_sy.Log.Joined.{IsLog}
use distributed_messaging_sy.Log.Truncation.Kept.{HasRoom, truncate_to-IsLog}
use distributed_messaging_sy.Partition.{
  Partition, Acks, new_partition, make_leader, make_follower, make_unassigned, update_leader_isr,
  time_out,
}
use distributed_messaging_sy.Partition.Serving.{
  append_records, append_from_leader, fetch_raw_ranges, truncate, close_partition,
}
use distributed_messaging_sy.Partition.Bounded.{
  IsBounded, oldest-le-next, append_records-IsBounded, append_from_leader-IsBounded,
  fetch_raw_ranges-IsBounded, truncate-IsBounded, make_leader-IsBounded,
  update_leader_isr-IsBounded,
}

-- The calls with which the broker changes a partition, each run to its end. Append and Fetch of decoded
-- batches and FetchRaw, which only tests call, are left out.
pub data Operation : Type 0 where
  append_op : List ℕ → Acks → Operation
  replicate_op : Bool → List ℕ → ℕ → ℕ → Operation
  fetch_op : ℕ → ℕ → ℕ → Bool → Operation
  truncate_op : Bool → ℕ → Operation
  lead_op : Bool → ℕ → List ℕ → ℕ → Operation
  isr_op : ℕ → List ℕ → Operation
  follow_op : ℕ → ℕ → Operation
  unassign_op : Operation
  time_out_op : ℕ → Operation
  close_op : Bool → Operation

unfoldable pub run : Operation → Partition → Partition
run (append_op bs acks) p = (append_records bs acks p).0
run (replicate_op writes bs epoch hw) p = (append_from_leader writes bs epoch hw p).0
run (fetch_op offset replica max_bytes oversized) p =
    (fetch_raw_ranges offset replica max_bytes oversized p).0
run (truncate_op writes offset) p = (truncate writes offset p).0
run (lead_op writes epoch ids hw) p = (make_leader writes epoch ids hw p).0
run (isr_op epoch ids) p = (update_leader_isr epoch ids p).0
run (follow_op epoch leader) p = make_follower epoch leader p
run unassign_op p = make_unassigned p
run (time_out_op id) p = time_out id p
run (close_op closes) p = (close_partition closes p).0

-- The states that calls reach from `p`, each call made where `Allowed` permits it.
pub data Reaches (Allowed : Operation → Partition → Type 0) (p : Partition)
    : Partition → Type 0 where
  start : Reaches Allowed p p
  step :
      (q : Partition) (op : Operation)
      → Reaches Allowed p q
      → Allowed op q
      → Reaches Allowed p (run op q)

-- A leader is started with a high watermark within its log, and a truncation that cuts a sealed
-- segment finds room in its index.
abbrev pub IsAllowed : Operation → Partition → Type 0
IsAllowed (lead_op writes epoch ids hw) p = hw ≤ next_offset p.log
IsAllowed (truncate_op writes offset) p = HasRoom p.log offset
IsAllowed _ p = Unit {0}

time_out-IsBounded : (id : ℕ) (p : Partition) → IsBounded p → IsBounded (time_out id p)
unfolding time_out
time_out-IsBounded id p h = record {
  log = ground (arith, h.log);
  within = ground (arith, h.within);
}

make_follower-IsBounded :
    (epoch leader : ℕ) (p : Partition) → IsBounded p → IsBounded (make_follower epoch leader p)
unfolding make_follower
make_follower-IsBounded epoch leader p h = record {
  log = ground (arith, h.log);
  within = ground (arith, h.within);
}

make_unassigned-IsBounded : (p : Partition) → IsBounded p → IsBounded (make_unassigned p)
unfolding make_unassigned
make_unassigned-IsBounded p h = record {
  log = ground (arith, h.log);
  within = ground (arith, h.within);
}

close_partition-IsBounded :
    (closes : Bool) (p : Partition) → IsBounded p → IsBounded (close_partition closes p).0
unfolding close_partition
close_partition-IsBounded closes p h = record {
  log = ground (arith, h.log);
  within = ground (arith, h.within);
}

run-IsBounded :
    (op : Operation) (p : Partition) → IsAllowed op p → IsBounded p → IsBounded (run op p)
unfolding run
run-IsBounded (append_op bs acks) p a h = append_records-IsBounded bs acks p h
run-IsBounded (replicate_op writes bs epoch hw) p a h =
    append_from_leader-IsBounded writes bs epoch hw p h
run-IsBounded (fetch_op offset replica max_bytes oversized) p a h =
    fetch_raw_ranges-IsBounded offset replica max_bytes oversized p h
run-IsBounded (truncate_op writes offset) p a h =
    truncate-IsBounded writes offset p (truncate_to-IsLog writes p.log offset h.log a) h
run-IsBounded (lead_op writes epoch ids hw) p a h = make_leader-IsBounded writes epoch ids hw p a h
run-IsBounded (isr_op epoch ids) p a h = update_leader_isr-IsBounded epoch ids p h
run-IsBounded (follow_op epoch leader) p a h = make_follower-IsBounded epoch leader p h
run-IsBounded unassign_op p a h = make_unassigned-IsBounded p h
run-IsBounded (time_out_op id) p a h = time_out-IsBounded id p h
run-IsBounded (close_op closes) p a h = close_partition-IsBounded closes p h

Reaches-IsBounded : (p q : Partition) → Reaches IsAllowed p q → IsBounded p → IsBounded q
Reaches-IsBounded p _ start h = h
Reaches-IsBounded p _ (step q op r a) h = run-IsBounded op q a (Reaches-IsBounded p q r h)

-- A new partition over a log whose segments are one row of whole batches: in every state that it
-- reaches by whole calls of AppendRaw, AppendFromLeader, FetchRawRanges, TruncateTo, MakeLeader,
-- UpdateLeaderISR, MakeFollower, MakeUnassigned and Close and by the end of a producer's context,
-- each start as a leader with a high watermark within the log and each cut of a sealed segment with
-- room in its index for the entries of the batches left in it, the segments are one row of whole
-- batches and the high watermark is within them.
pub new_partition-IsBounded :
    (local : ℕ) (l : Log) (q : Partition)
    → IsLog l
    → Reaches IsAllowed (new_partition local l) q
    → IsBounded q
unfolding new_partition
new_partition-IsBounded local l q h r =
    Reaches-IsBounded (new_partition local l) q r (record { log = h; within = oldest-le-next l h })
