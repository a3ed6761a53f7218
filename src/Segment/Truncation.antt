-- ===== src/Segment/Truncation.antt =====
-- internal/log/segment.go, truncateAt, and internal/log/truncate.go, findTruncationPosition.
-- Positions are not negative, and calls of the system succeed.
pub mod Boundary
use distributed_messaging_sy.Common.{
  ℕ, zero, suc, ◌+◌, ◌^◌, ◌%◌, Bool, true, false, not, ◌&&◌, ◌||◌, List, length, ltb, leb, ◌==◌,
  take, if◌then◌else◌,
}
use distributed_messaging_sy.Segment.Batches.{Result, ok, err, panicked, exhausted, other, ◌>>=◌}
use distributed_messaging_sy.Segment.State.{Segment}
use distributed_messaging_sy.Segment.Reading.{BatchMeta, read_batch_meta_at}

-- truncateAt; the file is not shorter than the size of the segment.
unfoldable pub truncate_at : Segment → ℕ → ℕ → Result Segment
truncate_at s position next_offset =
    if ltb next_offset s.base_offset
    then err other
    else if ltb s.current_size position
    then err other
    else ok (record s {
      file = take position s.file;
      current_size = position;
      next_offset = next_offset;
    })

-- The loop of findTruncationPosition, on fuel.
unfoldable pub find_boundary : ℕ → Segment → ℕ → ℕ → Result ℕ
find_boundary zero s offset position = exhausted
find_boundary (suc fuel) s offset position = elim (ltb position s.current_size) [
  | false ↦ if offset == s.next_offset then ok position else err other
  | true ↦ read_batch_meta_at s position >>= λ m.
      elim (ltb s.current_size (position + m.on_disk_size)) [
        | true ↦ err other
        | false ↦ elim (m.first_offset == offset) [
          | true ↦ ok position
          | false ↦
              elim (ltb m.first_offset offset
                && leb offset ((m.first_offset + m.last_offset_delta) % 2 ^ 64)) [
                  | true ↦ err other
                  | false ↦ find_boundary fuel s offset (position + m.on_disk_size)
                ]
        ]
      ]
]

-- findTruncationPosition
unfoldable pub find_truncation_position : Segment → ℕ → Result ℕ
unfolding find_boundary
find_truncation_position s offset = find_boundary (suc s.current_size) s offset 0
