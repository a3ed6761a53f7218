-- ===== src/Partition.antt =====
-- internal/broker/partition.go: the role, the high watermark and the waiting producers of one
-- partition replica. Offsets are uint64, epochs and broker ids int32 bit patterns.
-- The partition log is the one of `Log`. Channels become data: a closed `notify` is
-- an entry of `completed`, a closed and renewed `notifyCh` a step of `generation`. The heap of
-- waiting producers is the list of its entries in the order in which container/heap pops them.
mod Examples
pub mod Serving
pub mod Watermark
pub mod Bounded
pub mod Reachable
pub mod Roles
pub mod Purgatory
pub mod Race
pub mod Waiting
use distributed_messaging_sy.Common.{
  ℕ, ◌+◌, ◌-◌, ◌%◌, ◌^◌, Bool, true, false, not, ◌&&◌, ◌||◌, Option, none, some, List, [], ◌∷◌,
  ◌++◌, map, length, is_empty, ltb, leb, ◌==◌, if◌then◌else◌, ltb_i32,
}
use distributed_messaging_sy.Log.State.{Log, oldest_offset, next_offset}
use distributed_messaging_sy.Log.Epochs.{assign_leader_epoch, latest_leader_epoch}

-- The codes of the type ErrorCode that a partition returns, and its other errors.
pub data ErrorCode : Type 0 where
  not_leader_or_follower request_timed_out storage_error : ErrorCode
  corrupt_message message_too_large unsupported_for_message_format : ErrorCode
  invalid_required_acks offset_out_of_range fenced_leader_epoch unknown_leader_epoch : ErrorCode
  partition_closed stale_leader_epoch epoch_not_persisted log_append_failed : ErrorCode
  log_read_failed truncate_as_leader truncate_failed : ErrorCode
  -- A panic of the log, or the end of its fuel.
  log_panicked : ErrorCode

pub data Acks : Type 0 where
  acks_none acks_leader acks_all : Acks
  acks_other : ℕ → Acks

pub record IsrEntry : Type 0 where
  pub broker_id : ℕ
  pub leo : ℕ

-- `id` stands for the pointer.
pub record PurgatoryEntry : Type 0 where
  pub id : ℕ
  pub required_hw : ℕ

-- A closed `notify`, with the entry's `err`.
pub record Completion : Type 0 where
  pub entry : PurgatoryEntry
  pub error : Option ErrorCode

pub record Partition : Type 0 where
  pub local_broker_id : ℕ
  pub log : Log
  pub high_watermark : ℕ
  pub is_leader : Bool
  pub leader_epoch : ℕ
  pub leader_id : ℕ
  pub isr : List IsrEntry
  pub purgatory : List PurgatoryEntry
  pub completed : List Completion
  pub next_entry : ℕ
  pub generation : ℕ
  pub closed : Bool

-- -1, the leader id of a partition without a leader.
abbrev pub no_leader : ℕ
no_leader = 2 ^ 32 - 1

-- heap.Push
unfoldable pub push : PurgatoryEntry → List PurgatoryEntry → List PurgatoryEntry
push e [] = e ∷ []
push e (f ∷ fs) =
    let rest = push e fs in if ltb e.required_hw f.required_hw then e ∷ f ∷ fs else f ∷ rest

-- The loop of drainPurgatory: the entries that it pops, and those that stay.
unfoldable pub popped : ℕ → List PurgatoryEntry → List PurgatoryEntry
popped hw [] = []
popped hw (e ∷ es) = let rest = popped hw es in if ltb hw e.required_hw then [] else e ∷ rest

unfoldable pub staying : ℕ → List PurgatoryEntry → List PurgatoryEntry
staying hw [] = []
staying hw (e ∷ es) = let rest = staying hw es in if ltb hw e.required_hw then e ∷ es else rest

abbrev pub complete : Option ErrorCode → PurgatoryEntry → Completion
complete err e = record { entry = e; error = err }

-- The loop of maybeAdvanceHW over the ISR.
unfoldable pub min_leo : ℕ → ℕ → List IsrEntry → ℕ
min_leo local hw [] = hw
min_leo local hw (e ∷ es) =
    min_leo local (if e.broker_id == local then hw else if ltb e.leo hw then e.leo else hw) es

-- The loop of updateFollowerLEO.
unfoldable pub set_leo : ℕ → ℕ → List IsrEntry → List IsrEntry
set_leo id leo [] = []
set_leo id leo (e ∷ es) =
    let rest = set_leo id leo es in
    if e.broker_id == id then record { broker_id = e.broker_id; leo = leo } ∷ es else e ∷ rest

-- `previous[id]` of UpdateLeaderISR: the last entry of the id counts, 0 if there is none.
unfoldable pub previous_leo : ℕ → ℕ → List IsrEntry → ℕ
previous_leo id found [] = found
previous_leo id found (e ∷ es) = previous_leo id (if e.broker_id == id then e.leo else found) es

-- heap.Remove of an entry that is still in the heap, and whether it is.
unfoldable pub remove_entry : ℕ → List PurgatoryEntry → List PurgatoryEntry
remove_entry id [] = []
remove_entry id (e ∷ es) = let rest = remove_entry id es in if e.id == id then es else e ∷ rest

unfoldable pub waiting : ℕ → List PurgatoryEntry → Option PurgatoryEntry
waiting id [] = none
waiting id (e ∷ es) = if e.id == id then some e else waiting id es

unfoldable pub drain_purgatory : ℕ → Partition → Partition
unfolding popped staying
drain_purgatory hw p = record p {
  purgatory = staying hw p.purgatory;
  completed = p.completed ++ map (complete none) (popped hw p.purgatory);
}

unfoldable pub fail_purgatory : ErrorCode → Partition → Partition
fail_purgatory err p = record p {
  purgatory = [];
  completed = p.completed ++ map (complete (some err)) p.purgatory;
}

unfoldable pub notify_waiters : Partition → Partition
notify_waiters p = record p { generation = p.generation + 1 }

-- The loop of maybeAdvanceHW over the compare-and-swap, and what follows it.
unfoldable pub publish_hw : ℕ → Partition → Partition
unfolding drain_purgatory notify_waiters
publish_hw new_hw p =
    if leb new_hw p.high_watermark
    then drain_purgatory p.high_watermark p
    else notify_waiters (drain_purgatory new_hw (record p { high_watermark = new_hw }))

-- MakeFollower
unfoldable pub make_follower : ℕ → ℕ → Partition → Partition
unfolding fail_purgatory notify_waiters
make_follower epoch leader p = notify_waiters (
    fail_purgatory not_leader_or_follower
      (record p { is_leader = false; leader_epoch = epoch; leader_id = leader; isr = [] }))

-- MakeUnassigned
unfoldable pub make_unassigned : Partition → Partition
unfolding fail_purgatory notify_waiters
make_unassigned p = notify_waiters (
    fail_purgatory not_leader_or_follower
      (record p { is_leader = false; leader_id = no_leader; isr = [] }))

-- The branch `<-ctxDone` of the goroutine that AppendRaw starts, for the entry `id`.
unfoldable pub time_out : ℕ → Partition → Partition
unfolding remove_entry waiting
time_out id p = elim (waiting id p.purgatory) [
  | none ↦ p
  | some e ↦ record p {
    purgatory = remove_entry id p.purgatory;
    completed = p.completed ++ (complete (some request_timed_out) e ∷ []);
  }
]

-- NewPartition
unfoldable pub new_partition : ℕ → Log → Partition
new_partition local l = record {
  local_broker_id = local;
  log = l;
  high_watermark = oldest_offset l;
  is_leader = false;
  leader_epoch = 0;
  leader_id = no_leader;
  isr = [];
  purgatory = [];
  completed = [];
  next_entry = 0;
  generation = 0;
  closed = false;
}

-- What maybeAdvanceHW computes under the lock on the ISR; `none` where it returns early.
unfoldable pub compute_hw : Partition → Option ℕ
unfolding min_leo
compute_hw p =
    if not p.is_leader || is_empty p.isr
    then none
    else some (min_leo p.local_broker_id (next_offset p.log) p.isr)

unfoldable pub maybe_advance_hw : Partition → Partition
unfolding compute_hw publish_hw
maybe_advance_hw p = elim (compute_hw p) [ none ↦ p | some hw ↦ publish_hw hw p ]

-- `latest, ok := ...; ok && epoch < latest`
unfoldable pub is_stale : Option ℕ → ℕ → Bool
is_stale none epoch = false
is_stale (some latest) epoch = ltb_i32 epoch latest

-- MakeLeader; `writes` tells whether a write of the epoch checkpoint succeeds.
unfoldable pub make_leader : Bool → ℕ → List ℕ → ℕ → Partition → Partition × Option ErrorCode
unfolding is_stale fail_purgatory notify_waiters
make_leader writes epoch initial_isr initial_hw p =
    if is_stale (latest_leader_epoch p.log) epoch
    then (p, some stale_leader_epoch)
    else let (l, persisted) = assign_leader_epoch writes p.log epoch (next_offset p.log) in
      if persisted
      then (
        notify_waiters (record p {
          log = l;
          leader_epoch = epoch;
          leader_id = p.local_broker_id;
          isr = map (λ id. record { broker_id = id; leo = 0 }) initial_isr;
          high_watermark = initial_hw;
          is_leader = true;
        }),
        none,
      )
      else (
        notify_waiters (
            fail_purgatory not_leader_or_follower
              (record p { log = l; is_leader = false; leader_id = no_leader; isr = [] })),
        some epoch_not_persisted,
      )

-- UpdateLeaderISR
unfoldable pub update_leader_isr : ℕ → List ℕ → Partition → Partition × Option ErrorCode
unfolding maybe_advance_hw previous_leo
update_leader_isr epoch ids p =
    if not p.is_leader || not (p.leader_epoch == epoch) || not (p.leader_id == p.local_broker_id)
    then (p, some not_leader_or_follower)
    else (
      maybe_advance_hw (record p {
        isr = map (λ id. record { broker_id = id; leo = previous_leo id 0 p.isr }) ids;
      }),
      none,
    )
