-- ===== src/Segment/Recovery.antt =====
-- internal/log/segment.go, NewSegment and recover: a segment is opened over the bytes of its file.
-- Calls of the system succeed; a read past the end is io.EOF.
pub mod Reopen
pub mod Torn
pub mod Crash
use distributed_messaging_sy.Common.{
  ℕ, zero, suc, ◌+◌, ◌-◌, ◌%◌, ◌^◌, Bool, true, false, not, ◌&&◌, ◌||◌, List, [], ◌∷◌, length, take,
  drop, ltb, ◌==◌, if◌then◌else◌, is_empty,
}
use distributed_messaging_sy.Segment.Bytes.{byte_at, u32_at, slice, checksum}
use distributed_messaging_sy.Segment.Batches.{Result, ok, err, panicked, exhausted, other, ◌>>=◌}
use distributed_messaging_sy.Segment.State.{Segment}

-- Where the loop of recover ends: `nextOffset` and the end of the last good batch.
pub record Recovered : Type 0 where
  pub next_offset : ℕ
  pub pos : ℕ

-- What the body of the loop finds at a position: no whole batch, a length that panics, or a batch.
pub data Found : Type 0 where
  torn negative_length : Found
  batch : (size : ℕ) (last_offset_delta : ℕ) → Found

-- The body of the loop of recover, with `rest` for the bytes of the file from the position on. The
-- length of the slice for the checksum is `totalSize - 21`; a negative length panics.
unfoldable pub find_batch : List ℕ → Found
find_batch rest =
    let size = 12 + u32_at 8 rest in
    if ltb (length rest) 61
    then torn
    else if ltb (length rest) size
    then torn
    else if not (byte_at 16 rest == 2)
    then torn
    else if ltb size 21
    then negative_length
    else if not (checksum (slice 21 size rest) == u32_at 17 rest)
    then torn
    else batch size (u32_at 23 rest)

-- The loop of recover at `pos`, on fuel. The file is truncated where the loop ends.
unfoldable pub recover_from : ℕ → ℕ → ℕ → List ℕ → Result Recovered
recover_from zero next pos rest = exhausted
recover_from (suc fuel) next pos rest = elim (is_empty rest) [
  | true ↦ ok (record { next_offset = next; pos = pos })
  | false ↦ elim (find_batch rest) [
    | torn ↦ ok (record { next_offset = next; pos = pos })
    | negative_length ↦ panicked
    | batch size delta ↦
        recover_from fuel ((next + (delta + 1)) % 2 ^ 64) (pos + size) (drop size rest)
  ]
]

unfoldable pub recovered_segment : List ℕ → ℕ → ℕ → Recovered → Result Segment
recovered_segment file base_offset max_size r =
    if r.next_offset == base_offset && ltb 0 r.pos
    then err other
    else ok (record {
      file = take r.pos file;
      base_offset = base_offset;
      next_offset = r.next_offset;
      current_size = r.pos;
      max_size = max_size;
    })

-- NewSegment on a file with these bytes.
unfoldable pub new_segment : List ℕ → ℕ → ℕ → Result Segment
unfolding recover_from recovered_segment
new_segment file base_offset max_size =
    recover_from (suc (length file)) base_offset 0 file
    >>= recovered_segment file base_offset max_size
