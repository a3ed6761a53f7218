-- ===== src/Log/Epochs.antt =====
-- internal/log/epoch_lifecycle.go: the epoch cache of a log and its checkpoint file. `writes` tells
-- whether a write of the file succeeds.
pub mod Frame
use distributed_messaging_sy.Common.{
  ℕ, Bool, true, false, not, ◌||◌, Option, none, some, List, [], ◌∷◌, if◌then◌else◌,
}
use distributed_messaging_sy.Epoch.{
  EpochEntry, negative_epoch, assigned, assign, truncate_from_end, EndOffset, end_offset_for,
  epoch_for_offset, last_entry,
}
use distributed_messaging_sy.Log.State.{Log, next_offset}

-- persistEpochCheckpointLocked, and whether it returned no error.
unfoldable pub persist_epoch_checkpoint : Bool → Log → Log × Bool
persist_epoch_checkpoint writes l =
    if not l.epoch_checkpoint_dirty
    then (l, true)
    else if writes
    then (record l { epoch_checkpoint = l.epoch_entries; epoch_checkpoint_dirty = false }, true)
    else (l, false)

unfoldable pub set_entries : Log → List EpochEntry → Bool → Log
set_entries l entries changed = record l {
  epoch_entries = entries;
  epoch_checkpoint_dirty = l.epoch_checkpoint_dirty || changed;
}

-- AssignLeaderEpoch
unfoldable pub assign_leader_epoch : Bool → Log → ℕ → ℕ → Log × Bool
assign_leader_epoch writes l epoch start_offset = elim (assign l.epoch_entries epoch start_offset) [
  | negative_epoch ↦ (l, false)
  | assigned entries changed ↦ persist_epoch_checkpoint writes (set_entries l entries changed)
]

-- assignLeaderEpochs
unfoldable pub assign_leader_epochs : Bool → List EpochEntry → Log → Log × Bool
assign_leader_epochs writes [] l = persist_epoch_checkpoint writes l
assign_leader_epochs writes (e ∷ es) l = elim (assign l.epoch_entries e.epoch e.start_offset) [
  | negative_epoch ↦ (l, false)
  | assigned entries changed ↦ assign_leader_epochs writes es (set_entries l entries changed)
]

-- The end of TruncateTo: TruncateFromEnd of the cache, if the log was cut, and the checkpoint.
unfoldable pub truncate_epochs : Bool → Bool → ℕ → Log → Log × Bool
truncate_epochs writes cut offset l =
    let (entries, changed) = truncate_from_end l.epoch_entries offset in
    persist_epoch_checkpoint writes (if cut then set_entries l entries changed else l)

-- EndOffsetForLeaderEpoch
unfoldable pub end_offset_for_leader_epoch : Log → ℕ → EndOffset
end_offset_for_leader_epoch l epoch = end_offset_for l.epoch_entries epoch (next_offset l)

unfoldable pub latest_of : List EpochEntry → Option ℕ
latest_of [] = none
latest_of (e ∷ es) = some (last_entry e es).epoch

-- LatestLeaderEpoch
unfoldable pub latest_leader_epoch : Log → Option ℕ
unfolding latest_of
latest_leader_epoch l = latest_of l.epoch_entries
