-- ===== src/Log/Pairs.antt =====
-- internal/log/log.go: newSegmentPair, rebuildIndexFromSegment and roll.
pub mod Overflow
pub mod Room
use distributed_messaging_sy.Common.{
  ℕ, zero, suc, ◌+◌, Bool, true, false, ◌&&◌, ◌||◌, Option, none, some, List, [], ◌∷◌, ◌++◌, ltb,
  leb, ◌==◌, if◌then◌else◌,
}
use distributed_messaging_sy.OffsetIndex.{Index, is_full, write, new_index}
use distributed_messaging_sy.Segment.Batches.{Result, ok, err, panicked, exhausted, other, ◌>>=◌}
use distributed_messaging_sy.Segment.State.{Segment, is_full_segment}
use distributed_messaging_sy.Segment.Recovery.{new_segment}
use distributed_messaging_sy.Segment.Reading.{BatchMeta, read_batch_meta_at}
use distributed_messaging_sy.Log.State.{LogConfig, SegmentPair, Log}

-- An entry of the sparse index for what was written at `pos`, if it is due: the new index and
-- `bytesSinceIndex`. `none` is the error of a full index.
unfoldable pub note_entry : Index → ℕ → ℕ → ℕ → ℕ → Option (Index × ℕ)
note_entry idx interval offset pos bytes =
    if pos == 0 || leb interval bytes
    then elim (write idx offset pos) [ none ↦ none | some idx' ↦ some (idx', 0) ]
    else some (idx, bytes)

-- The loop of rebuildIndexFromSegment, on fuel: the index as it stands, and `bytesSinceIndex` or an
-- error.
unfoldable pub rebuild_loop : ℕ → Segment → ℕ → ℕ → ℕ → Index → Index × Result ℕ
rebuild_loop zero seg interval pos bytes idx = (idx, exhausted)
rebuild_loop (suc fuel) seg interval pos bytes idx = elim (ltb pos seg.current_size) [
  | false ↦ (idx, ok bytes)
  | true ↦ elim (read_batch_meta_at seg pos) [
    | err e ↦ (idx, err e)
    | panicked ↦ (idx, panicked)
    | exhausted ↦ (idx, exhausted)
    | ok m ↦ elim (m.on_disk_size == 0 || ltb seg.current_size (pos + m.on_disk_size)) [
      | true ↦ (idx, err other)
      | false ↦ elim (note_entry idx interval m.first_offset pos (bytes + m.on_disk_size)) [
        | none ↦ (idx, err other)
        | some (idx', bytes') ↦ rebuild_loop fuel seg interval (pos + m.on_disk_size) bytes' idx'
      ]
    ]
  ]
]

-- rebuildIndexFromSegment
unfoldable pub rebuild_index_from_segment : Segment → Index → ℕ → Index × Result ℕ
rebuild_index_from_segment seg idx interval =
    rebuild_loop (suc seg.current_size) seg interval 0 0 (record idx { size = 0 })

unfoldable pub paired : Segment → Index × Result ℕ → Result SegmentPair
paired seg (idx, r) =
    r >>= λ bytes. ok (record { segment = seg; index = idx; bytes_since_index = bytes })

-- newSegmentPair, over the bytes of the two files.
unfoldable pub new_segment_pair : List ℕ → List ℕ → ℕ → LogConfig → Result SegmentPair
new_segment_pair log_file index_file base config =
    new_segment log_file base config.max_segment_bytes >>= λ seg.
    elim (new_index index_file base config.max_index_bytes) [
      | none ↦ err other
      | some idx ↦ paired seg (rebuild_index_from_segment seg idx config.index_interval_bytes)
    ]

-- roll. The files of the next offset do not exist yet.
unfoldable pub roll : Log → Result Log
roll l = new_segment_pair [] [] l.active.segment.next_offset l.config >>= λ p.
    ok (record l { sealed = l.sealed ++ (l.active ∷ []); active = p })

unfoldable pub roll_if_full : Log → Result Log
roll_if_full l = if is_full_segment l.active.segment || is_full l.active.index then roll l else ok l
