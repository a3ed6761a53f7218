-- ===== src/Log/Examples.antt =====
-- internal/log: logs at concrete bytes.
use distributed_messaging_sy.Common.{
  ◌^◌, ◌<◌, ◌≡◌, ◌≢◌, refl, true, List, [], ◌∷◌, ◌++◌, take, some, arith,
}
use distributed_messaging_sy.Protocol.Binary.{uint32, uint64, be32, be64}
use distributed_messaging_sy.Epoch.{EpochEntry, truncate_from_end}
use distributed_messaging_sy.Segment.Bytes.{concat, u32_at, u64_at, read_at}
use distributed_messaging_sy.Segment.Batches.{ok}
use distributed_messaging_sy.Segment.Chain.{span, end_of}
use distributed_messaging_sy.Segment.Reading.{read_batch_meta_at}
use distributed_messaging_sy.Segment.Truncation.{truncate_at, find_truncation_position}
use distributed_messaging_sy.Segment.Samples.{
  pair_batch, single_batch, single_batch-IsWhole, segment, segment-Holds,
}
use distributed_messaging_sy.OffsetIndex.{write, resize}
use distributed_messaging_sy.Log.State.{
  LogConfig, SegmentPair, Log, oldest_offset, next_offset, find_segment,
}
use distributed_messaging_sy.Log.Pairs.{
  note_entry, rebuild_loop, rebuild_index_from_segment, new_segment_pair,
}
use distributed_messaging_sy.Log.Pairs.Overflow.{new_segment_pair_overflow}
use distributed_messaging_sy.Log.Epochs.{set_entries, persist_epoch_checkpoint, truncate_epochs}
use distributed_messaging_sy.Log.Samples.{config, log, log-IsLog}
use distributed_messaging_sy.Log.Raw.{append_raw, append_replica_raw}
use distributed_messaging_sy.Log.Raw.Keeps.Leader.{IsAppended, append_raw-IsAppended}
use distributed_messaging_sy.Log.Raw.Keeps.Replica.{IsReplicated, append_replica_raw-IsReplicated}
use distributed_messaging_sy.Log.Opening.{SegmentFiles, or_default, apply_defaults, new_log}
use distributed_messaging_sy.Log.Opening.Restart.{IsCrash, IsRestarted, new_log-IsRestarted}
use distributed_messaging_sy.Log.Truncation.{
  truncate_segment_pair, truncate_segments, cut_segments, with_index, truncate_to,
}
use distributed_messaging_sy.Log.Truncation.Cut.{IsTruncated, truncate_to-IsTruncated}

append_raw-IsAppended_example : IsAppended log (append_raw log pair_batch 7)
append_raw-IsAppended_example = append_raw-IsAppended log pair_batch 7 log-IsLog

append_replica_raw-IsReplicated_example :
    IsReplicated log (append_replica_raw true log single_batch 7)
append_replica_raw-IsReplicated_example =
    append_replica_raw-IsReplicated true log single_batch 7 log-IsLog

truncate_to-log : (truncate_to true log 2).1 ≡ true
unfolding truncate_to next_offset oldest_offset cut_segments truncate_segments truncate_segment_pair
    with_index find_segment find_truncation_position truncate_at read_batch_meta_at
    rebuild_index_from_segment note_entry write u32_at u64_at uint32 uint64 be32 be64
    truncate_epochs persist_epoch_checkpoint set_entries read_at rebuild_loop truncate_from_end
truncate_to-log = refl

truncate_to-IsTruncated_example : IsTruncated log (truncate_to true log 2).0 2
truncate_to-IsTruncated_example = truncate_to-IsTruncated true log 2 log-IsLog truncate_to-log

samples_end : end_of 0 (pair_batch ∷ single_batch ∷ []) < 2 ^ 64
unfolding end_of span u32_at uint32
samples_end = omega arith

new_segment_pair_overflow_example :
    new_segment_pair (concat (pair_batch ∷ single_batch ∷ [])) [] 0 config ≢ ok log.active
new_segment_pair_overflow_example =
    new_segment_pair_overflow (pair_batch ∷ single_batch ∷ []) [] 0 config log.active
      segment-Holds.chain samples_end (omega arith, (omega arith, tt)) (omega arith) (omega arith)

abbrev roomy_config : LogConfig
roomy_config = record config { max_index_bytes = 120 }

abbrev crashed_files : SegmentFiles
crashed_files = record {
  base = 0;
  log_file = segment.file ++ take 30 single_batch;
  index_file = 1 ∷ 2 ∷ 3 ∷ [];
}

abbrev checkpoint : List EpochEntry
checkpoint = record { epoch = 7; start_offset = 0 } ∷ []

crashed_files-IsCrash : IsCrash (apply_defaults roomy_config) segment crashed_files
unfolding apply_defaults or_default
crashed_files-IsCrash = record {
  based = refl;
  batches = pair_batch ∷ single_batch ∷ [];
  held = segment-Holds;
  torn = single_batch;
  whole = single_batch-IsWhole.0;
  cut = 30;
  short = omega arith;
  bytes = refl;
  room = omega arith;
  reach = omega arith;
  small = omega arith;
}

new_log-IsRestarted_example :
    (l' : Log) × (new_log true (crashed_files ∷ []) (some checkpoint) roomy_config ≡ ok l')
    × IsRestarted (apply_defaults roomy_config) log checkpoint l'
new_log-IsRestarted_example =
    new_log-IsRestarted log roomy_config crashed_files [] checkpoint log-IsLog crashed_files-IsCrash
      (omega arith, tt, tt)

-- The index has one entry, for the first batch.
abbrev indexed_pair : SegmentPair
indexed_pair = record {
  segment = segment;
  index = record { mmap = resize 120 []; base_offset = 0; size = 12; max_bytes = 120 };
  bytes_since_index = 61;
}

abbrev indexed_log : Log
indexed_log = record log { active = indexed_pair }
