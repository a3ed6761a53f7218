-- ===== src/Log/Opening.antt =====
-- internal/log: NewLog (log.go), and ScanEpochHistory and RecoverEpochCache (epoch_recovery.go). The
-- directory is given as what discoverSegments finds in it, in its order, and as what Read of the
-- checkpoint returns. `writes` tells whether a write of the checkpoint succeeds.
pub mod Scans
pub mod Recovered
pub mod Restart
pub mod Marked
pub mod Indexed
use distributed_messaging_sy.Common.{
  ℕ, zero, suc, ◌+◌, ◌-◌, ◌*◌, Bool, true, false, not, ◌&&◌, ◌||◌, Option, none, some, List, [],
  ◌∷◌, ◌++◌, ltb, ◌==◌, if◌then◌else◌, is_empty, is_negative_i32,
}
use distributed_messaging_sy.Epoch.{
  EpochEntry, replay_epoch_entries, epoch_entries_equal, truncate_after,
}
use distributed_messaging_sy.Segment.Bytes.{u32_at, u64_at}
use distributed_messaging_sy.Segment.Batches.{Result, ok, err, panicked, exhausted, other, ◌>>=◌}
use distributed_messaging_sy.Segment.State.{Segment}
use distributed_messaging_sy.Segment.Reading.{read_file}
use distributed_messaging_sy.Log.State.{LogConfig, SegmentPair, Log, next_offset}
use distributed_messaging_sy.Log.Pairs.{new_segment_pair}

-- The two files of a segment, with the offset in their names.
pub record SegmentFiles : Type 0 where
  pub base : ℕ
  pub log_file : List ℕ
  pub index_file : List ℕ

unfoldable pub or_default : ℕ → ℕ → ℕ
or_default default n = if n == 0 then default else n

-- applyDefaults; 0 stands for each number that is not positive.
unfoldable pub apply_defaults : LogConfig → LogConfig
unfolding or_default
apply_defaults config = record {
  max_segment_bytes = or_default (1024 * 1024 * 1024) config.max_segment_bytes;
  max_index_bytes = or_default (1024 * 1024) config.max_index_bytes;
  index_interval_bytes = or_default 4096 config.index_interval_bytes;
  max_message_bytes = or_default 1048588 config.max_message_bytes;
}

unfoldable pub open_pair : LogConfig → SegmentFiles → Result SegmentPair
open_pair config f = new_segment_pair f.log_file f.index_file f.base config

-- The loop of NewLog over the files: the sealed pairs and, of the last files, the active one.
unfoldable pub open_segments :
    LogConfig → SegmentFiles → List SegmentFiles → Result (List SegmentPair × SegmentPair)
open_segments config f [] = open_pair config f >>= λ p. ok ([], p)
open_segments config f (g ∷ fs) =
    open_pair config f >>= λ p. open_segments config g fs >>= λ r. ok (p ∷ r.0, r.1)

-- The segments of NewLog: those of the directory, or a first one.
unfoldable pub open_all : LogConfig → List SegmentFiles → Result (List SegmentPair × SegmentPair)
unfolding open_segments
open_all config [] = open_segments config (record { base = 0; log_file = []; index_file = [] }) []
open_all config (f ∷ fs) = open_segments config f fs

pub record EpochMeta : Type 0 where
  pub first_offset : ℕ
  pub leader_epoch : ℕ
  pub on_disk_size : ℕ

-- readBatchOffsetAndEpochAt
unfoldable pub read_batch_offset_and_epoch_at : Segment → ℕ → Result EpochMeta
read_batch_offset_and_epoch_at s pos = read_file s 16 pos >>= λ header.
    if is_negative_i32 (u32_at 8 header) || ltb (u32_at 8 header) 49
    then err other
    else ok (record {
      first_offset = u64_at 0 header;
      leader_epoch = u32_at 12 header;
      on_disk_size = 12 + u32_at 8 header;
    })

-- The entries so far and `lastEpoch`, if there is one.
pub record History : Type 0 where
  pub entries : List EpochEntry
  pub last_epoch : Option ℕ

unfoldable pub is_last_epoch : Option ℕ → ℕ → Bool
is_last_epoch none epoch = false
is_last_epoch (some last) epoch = epoch == last

unfoldable pub note_epoch : History → EpochMeta → History
unfolding is_last_epoch
note_epoch h m =
    if not (is_negative_i32 m.leader_epoch) && not (is_last_epoch h.last_epoch m.leader_epoch)
    then record {
      entries =
          h.entries ++ (record { epoch = m.leader_epoch; start_offset = m.first_offset } ∷ []);
      last_epoch = some m.leader_epoch;
    }
    else h

-- The loop over the batches of one segment, on fuel.
unfoldable pub scan_segment : ℕ → Segment → ℕ → History → Result History
unfolding note_epoch
scan_segment zero s pos h = exhausted
scan_segment (suc fuel) s pos h = elim (ltb pos s.current_size) [
  | false ↦ ok h
  | true ↦ read_batch_offset_and_epoch_at s pos >>= λ m.
      elim (ltb (s.current_size - pos) m.on_disk_size) [
        | true ↦ err other
        | false ↦ scan_segment fuel s (pos + m.on_disk_size) (note_epoch h m)
      ]
]

unfoldable pub scan_pairs : List SegmentPair → History → Result (List EpochEntry)
unfolding scan_segment
scan_pairs [] h = ok h.entries
scan_pairs (p ∷ ps) h =
    scan_segment (suc p.segment.current_size) p.segment 0 h >>= λ h'. scan_pairs ps h'

-- ScanEpochHistory
unfoldable pub scan_epoch_history : Log → Result (List EpochEntry)
unfolding scan_pairs
scan_epoch_history l =
    scan_pairs (l.sealed ++ (l.active ∷ [])) (record { entries = []; last_epoch = none })

-- replayEpochEntries, and TruncateAfter of the new cache.
unfoldable pub replay_until : ℕ → List EpochEntry → Result (List EpochEntry)
replay_until leo entries = elim (replay_epoch_entries entries) [
  | none ↦ err other
  | some cache ↦ ok (truncate_after cache leo).0
]

unfoldable pub is_repaired : List EpochEntry → Bool
is_repaired loaded = elim (replay_epoch_entries loaded) [
  | none ↦ false
  | some cache ↦ not (epoch_entries_equal loaded cache)
]

-- The end of RecoverEpochCache: the checkpoint is written if the cache is not what was loaded.
unfoldable pub rewrite_checkpoint :
    Bool → Bool → List EpochEntry → List EpochEntry → Log → Result Log
rewrite_checkpoint writes used_scan loaded normalized l =
    let recovered : Log = record l {
      epoch_entries = normalized;
      epoch_checkpoint = loaded;
      epoch_checkpoint_dirty = false;
    } in
    if not (used_scan || not (epoch_entries_equal loaded normalized))
    then ok recovered
    else if writes
    then ok (record recovered { epoch_checkpoint = normalized })
    else err other

-- The cache that the batches of the log give.
unfoldable pub scanned_cache : Log → Result (List EpochEntry)
unfolding scan_epoch_history replay_until
scanned_cache l = scan_epoch_history l >>= replay_until (next_offset l)

-- RecoverEpochCache; `loaded` is `none` where the checkpoint can not be read.
unfoldable pub recover_epoch_cache : Bool → Option (List EpochEntry) → Log → Result Log
unfolding replay_until is_repaired rewrite_checkpoint scanned_cache
recover_epoch_cache writes none l = err other
recover_epoch_cache writes (some loaded) l =
    let leo = next_offset l in
    replay_until leo loaded >>= λ cache.
    if ltb 0 leo && (is_repaired loaded || is_empty cache)
    then (scanned_cache l >>= λ cache'. rewrite_checkpoint writes true loaded cache' l)
    else rewrite_checkpoint writes false loaded cache l

-- NewLog
unfoldable pub new_log :
    Bool → List SegmentFiles → Option (List EpochEntry) → LogConfig → Result Log
unfolding open_all recover_epoch_cache
new_log writes files loaded config =
    let config' = apply_defaults config in
    open_all config' files >>= λ r. recover_epoch_cache writes loaded (record {
      config = config';
      active = r.1;
      sealed = r.0;
      epoch_entries = [];
      epoch_checkpoint = [];
      epoch_checkpoint_dirty = false;
    })
