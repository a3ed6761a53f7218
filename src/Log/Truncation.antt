-- ===== src/Log/Truncation.antt =====
-- internal/log/truncate.go: TruncateTo. The files of the segments behind the target are closed and
-- removed with success. The log as it stands is returned also where the call fails.
pub mod Cut
pub mod Kept
use distributed_messaging_sy.Common.{
  ℕ, Bool, true, false, not, List, [], ◌∷◌, ◌++◌, ltb, leb, if◌then◌else◌,
}
use distributed_messaging_sy.Segment.Batches.{Result, ok, err, panicked, exhausted, ◌>>=◌}
use distributed_messaging_sy.Segment.State.{Segment}
use distributed_messaging_sy.Segment.Truncation.{truncate_at, find_truncation_position}
use distributed_messaging_sy.Log.State.{
  SegmentPair, Log, oldest_offset, next_offset, Target, missing, in_active, in_sealed, find_segment,
}
use distributed_messaging_sy.Log.Pairs.{rebuild_index_from_segment}
use distributed_messaging_sy.Log.Epochs.{truncate_epochs}

-- The pair behind a rebuild of its index, and whether there was no error.
unfoldable pub with_index : SegmentPair → Segment → ℕ → SegmentPair × Bool
with_index p seg interval =
    let (idx, r) = rebuild_index_from_segment seg p.index interval in
    elim r [
      | ok bytes ↦ (record { segment = seg; index = idx; bytes_since_index = bytes }, true)
      | _ ↦ (record p { segment = seg; index = idx }, false)
    ]

-- findTruncationPosition and truncateSegmentPair
unfoldable pub truncate_segment_pair : SegmentPair → ℕ → ℕ → SegmentPair × Bool
truncate_segment_pair p offset interval =
    elim (find_truncation_position p.segment offset >>= λ position.
    truncate_at p.segment position offset) [ ok seg ↦ with_index p seg interval | _ ↦ (p, false) ]

-- The cut of the segments, where the offset is before the end of the log.
unfoldable pub truncate_segments : Log → ℕ → Target → Log × Bool
truncate_segments l offset missing = (l, false)
truncate_segments l offset in_active =
    let (p, done) = truncate_segment_pair l.active offset l.config.index_interval_bytes in
    (record l { active = p }, done)
truncate_segments l offset (in_sealed before target after) =
    let (p, done) = truncate_segment_pair target offset l.config.index_interval_bytes in
    if done
    then (record l { sealed = before; active = p }, true)
    else (record l { sealed = before ++ (p ∷ after) }, false)

unfoldable pub cut_segments : Log → ℕ → Log × Bool
cut_segments l offset =
    if ltb offset (next_offset l)
    then truncate_segments l offset (find_segment l.sealed l.active offset)
    else (l, true)

-- TruncateTo, and whether it returned no error.
unfoldable pub truncate_to : Bool → Log → ℕ → Log × Bool
truncate_to writes l offset =
    if ltb (next_offset l) offset
    then (l, false)
    else if ltb offset (oldest_offset l)
    then (l, false)
    else let (l', done) = cut_segments l offset in
      if done then truncate_epochs writes (ltb offset (next_offset l)) offset l' else (l', false)
