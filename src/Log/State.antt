-- ===== src/Log/State.antt =====
-- internal/log/log.go: the state of a log, and the search for the segment of an offset. A segment and
-- its index stand for their files. An operation that writes holds writeMu, so it is one step.
use distributed_messaging_sy.Common.{ℕ, Bool, List, [], ◌∷◌, ◌++◌, ltb, leb, if◌then◌else◌}
use distributed_messaging_sy.Epoch.{EpochEntry}
use distributed_messaging_sy.OffsetIndex.{Index}
use distributed_messaging_sy.Segment.State.{Segment}

pub record LogConfig : Type 0 where
  pub max_segment_bytes : ℕ
  pub max_index_bytes : ℕ
  pub index_interval_bytes : ℕ
  pub max_message_bytes : ℕ

pub record SegmentPair : Type 0 where
  pub segment : Segment
  pub index : Index
  pub bytes_since_index : ℕ

pub record Log : Type 0 where
  pub config : LogConfig
  pub active : SegmentPair
  -- Oldest first.
  pub sealed : List SegmentPair
  pub epoch_entries : List EpochEntry
  -- The entries in the checkpoint file.
  pub epoch_checkpoint : List EpochEntry
  pub epoch_checkpoint_dirty : Bool

-- OldestOffset, of the sealed segments and the active one.
unfoldable pub oldest_of : SegmentPair → List SegmentPair → ℕ
oldest_of active [] = active.segment.base_offset
oldest_of active (p ∷ ps) = p.segment.base_offset

unfoldable pub oldest_offset : Log → ℕ
unfolding oldest_of
oldest_offset l = oldest_of l.active l.sealed

-- NextOffset
unfoldable pub next_offset : Log → ℕ
next_offset l = l.active.segment.next_offset

-- Where a segment stands in the log.
pub data Target : Type 0 where
  missing in_active : Target
  in_sealed : List SegmentPair → SegmentPair → List SegmentPair → Target

-- `sort.Search` for the first sealed segment that starts behind the offset: the one before it, with
-- the segments on its two sides.
unfoldable pub find_sealed : List SegmentPair → List SegmentPair → ℕ → Target → Target
find_sealed before [] offset best = best
find_sealed before (p ∷ ps) offset best =
    let rest = find_sealed (before ++ (p ∷ [])) ps offset (in_sealed before p ps) in
    if ltb offset p.segment.base_offset then best else rest

-- findSegment
unfoldable pub find_segment : List SegmentPair → SegmentPair → ℕ → Target
unfolding find_sealed
find_segment sealed active offset =
    if leb active.segment.base_offset offset
    then in_active
    else find_sealed [] sealed offset missing
