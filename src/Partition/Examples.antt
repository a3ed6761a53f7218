-- ===== src/Partition/Examples.antt =====
-- internal/broker/partition.go and partition_raw.go: a partition over a log of two batches with three
-- offsets, and what the theorems give for it.
use distributed_messaging_sy.Common.{◌≡◌, refl, true, false, some, [], ◌∷◌, arith}
use distributed_messaging_sy.Protocol.Binary.{uint32, uint64, be32, be64}
use distributed_messaging_sy.Epoch.{assign, assign_entries, truncate_from_end}
use distributed_messaging_sy.OffsetIndex.{write}
use distributed_messaging_sy.Segment.Bytes.{u32_at, u64_at, read_at}
use distributed_messaging_sy.Segment.Reading.{read_batch_meta_at}
use distributed_messaging_sy.Segment.Truncation.{truncate_at, find_truncation_position}
use distributed_messaging_sy.Segment.Samples.{single_batch}
use distributed_messaging_sy.Log.State.{oldest_offset, next_offset, find_segment}
use distributed_messaging_sy.Log.Samples.{log, log-IsLog}
use distributed_messaging_sy.Log.Pairs.{note_entry, rebuild_loop, rebuild_index_from_segment}
use distributed_messaging_sy.Log.Epochs.{
  set_entries, persist_epoch_checkpoint, truncate_epochs, assign_leader_epoch, latest_leader_epoch,
}
use distributed_messaging_sy.Log.Truncation.{
  truncate_to, truncate_segment_pair, truncate_segments, cut_segments, with_index,
}
use distributed_messaging_sy.Log.Truncation.Kept.{HasRoom}
use distributed_messaging_sy.Partition.{
  Partition, acks_all, compute_hw, publish_hw, maybe_advance_hw, new_partition, make_leader,
  make_follower,
}
use distributed_messaging_sy.Partition.Serving.{fetch_raw_ranges, truncate}
use distributed_messaging_sy.Partition.Watermark.{IsSound, IsAdvance, maybe_advance_hw-IsAdvance}
use distributed_messaging_sy.Partition.Bounded.{IsBounded}
use distributed_messaging_sy.Partition.Reachable.{
  append_op, lead_op, fetch_op, truncate_op, run, Reaches, IsAllowed, start, step,
  new_partition-IsBounded,
}
use distributed_messaging_sy.Partition.Roles.{IsDeposed, make_follower-IsDeposed}
use distributed_messaging_sy.Partition.Purgatory.{IsSorted, IsServed, publish_hw-IsServed}
use distributed_messaging_sy.Partition.Race.{publish_hw_race}
use distributed_messaging_sy.Partition.Waiting.{IsAccounted, new_partition-IsAccounted}

abbrev fresh : Partition
fresh = new_partition 1 log

-- Broker 1 leads with broker 2 in the ISR; broker 2 then fetches from the end.
abbrev leading : Partition
leading = run (lead_op true 1 (1 ∷ 2 ∷ []) 0) fresh

abbrev replicated : Partition
replicated = run (fetch_op 3 2 1000 true) leading

-- A producer then stores one message more.
abbrev appended_once : Partition
appended_once = run (append_op single_batch acks_all) replicated

Reaches-appended_once : Reaches IsAllowed fresh appended_once
Reaches-appended_once =
    step replicated (append_op single_batch acks_all)
      (step leading (fetch_op 3 2 1000 true)
        (step fresh (lead_op true 1 (1 ∷ 2 ∷ []) 0) start (omega arith)) tt)
      tt

caught_up : (leading.high_watermark ≡ 0) × (replicated.high_watermark ≡ 3)
unfolding run fetch_raw_ranges make_leader new_partition oldest_offset next_offset
    latest_leader_epoch assign_leader_epoch assign assign_entries persist_epoch_checkpoint
    set_entries
caught_up = (refl, refl)

-- The new partition is cut at 2, leads and stores one message.
abbrev shortened : Partition
shortened = run (truncate_op true 2) fresh

abbrev stored : Partition
stored = run (append_op single_batch acks_all) (run (lead_op true 1 (1 ∷ 2 ∷ []) 0) shortened)

fresh-HasRoom : HasRoom fresh.log 2
unfolding new_partition find_segment
fresh-HasRoom b t a seg found cut = absurd (cc found)

Reaches-stored : Reaches IsAllowed fresh stored
Reaches-stored =
    step (run (lead_op true 1 (1 ∷ 2 ∷ []) 0) shortened) (append_op single_batch acks_all)
      (step shortened (lead_op true 1 (1 ∷ 2 ∷ []) 0)
        (step fresh (truncate_op true 2) start fresh-HasRoom) (omega arith))
      tt

new_partition-IsBounded_example : IsBounded stored
new_partition-IsBounded_example = new_partition-IsBounded 1 log stored log-IsLog Reaches-stored

new_partition-IsAccounted_example : IsAccounted appended_once
new_partition-IsAccounted_example =
    new_partition-IsAccounted IsAllowed 1 log appended_once Reaches-appended_once

maybe_advance_hw-IsAdvance_example : IsAdvance appended_once (maybe_advance_hw appended_once)
maybe_advance_hw-IsAdvance_example = maybe_advance_hw-IsAdvance appended_once

-- Two producers wait, for 4 and for 6.
abbrev waits : Partition
waits = record leading {
  purgatory = record { id = 0; required_hw = 4 } ∷ record { id = 1; required_hw = 6 } ∷ [];
  next_entry = 2;
}

make_follower-IsDeposed_example : IsDeposed waits (make_follower 2 2 waits)
make_follower-IsDeposed_example = make_follower-IsDeposed 2 2 waits

waits-IsSorted : IsSorted waits.purgatory
waits-IsSorted = ((omega arith, tt), (tt, tt))

publish_hw-IsServed_example : IsServed waits (publish_hw 5 waits)
publish_hw-IsServed_example = publish_hw-IsServed 5 waits waits-IsSorted

-- The only replica computes 3, and is a follower with an end offset of 2 when it publishes it.
abbrev alone : Partition
alone = run (lead_op true 1 (1 ∷ []) 0) fresh

computed : compute_hw alone ≡ some 3
unfolding compute_hw run make_leader new_partition oldest_offset next_offset latest_leader_epoch
    assign_leader_epoch assign assign_entries persist_epoch_checkpoint set_entries
computed = refl

alone_cut : next_offset (truncate_to true alone.log 2).0 ≡ 2
unfolding truncate_to next_offset oldest_offset cut_segments truncate_segments truncate_segment_pair
    with_index find_segment find_truncation_position truncate_at read_batch_meta_at
    rebuild_index_from_segment note_entry write u32_at u64_at uint32 uint64 be32 be64
    truncate_epochs persist_epoch_checkpoint set_entries read_at rebuild_loop truncate_from_end run
    make_leader new_partition latest_leader_epoch assign_leader_epoch assign assign_entries
alone_cut = refl

publish_hw_race_example :
    let q = publish_hw 3 (truncate true 2 (make_follower 2 2 alone)).0 in
    (q.is_leader ≡ false) × (q.high_watermark ≡ 3) × ¬ IsSound q
publish_hw_race_example = publish_hw_race true alone 3 2 2 2 computed (omega (arith, alone_cut))
