-- ===== src/Segment/Examples.antt =====
-- internal/log/segment.go: segments at concrete bytes.
use distributed_messaging_sy.Common.{
  ℕ, ◌+◌, ◌^◌, ◌<◌, ◌≡◌, ◌≢◌, ◌↔◌, refl, List, [], ◌∷◌, ◌++◌, arith, All, length, take, drop,
}
use distributed_messaging_sy.Protocol.Binary.{be32, be64, uint32, uint64}
use distributed_messaging_sy.Segment.Bytes.{byte_at, u32_at, u64_at, concat, put_at, write_at}
use distributed_messaging_sy.Segment.Batches.{ok, panicked, exhausted, ◌>>=◌, scan_raw_batches}
use distributed_messaging_sy.Segment.Batches.Scan.{
  IsWhole, bounds_of, all_bounds, scan_raw_batches_iff,
}
use distributed_messaging_sy.Segment.State.{Segment}
use distributed_messaging_sy.Segment.Chain.{span, end_of, Holds}
use distributed_messaging_sy.Segment.Recovery.{new_segment}
use distributed_messaging_sy.Segment.Recovery.Torn.{new_segment-torn, new_segment-ne-exhausted}
use distributed_messaging_sy.Segment.Recovery.Crash.{new_segment_crash}
use distributed_messaging_sy.Segment.Writing.{Appended, append_raw_batches, append_replica_batches}
use distributed_messaging_sy.Segment.Writing.Keeps.{
  all_stamped, append_raw_batches-Holds, append_replica_batches-Holds,
}
use distributed_messaging_sy.Segment.Reading.{read_raw_batch_at, read_raw_ranges_at}
use distributed_messaging_sy.Segment.Reading.Ranges.{read_raw_batch_at-ranges}
use distributed_messaging_sy.Segment.Truncation.{truncate_at, find_truncation_position}
use distributed_messaging_sy.Segment.Truncation.Boundary.{
  find_truncation_position_iff, truncate_at-Holds,
}
use distributed_messaging_sy.Segment.Samples.{
  pair_batch, single_batch, pair_batch-IsWhole, single_batch-IsWhole, segment, segment-Holds,
}

new_segment-torn_example : new_segment (segment.file ++ take 20 single_batch) 0 1000 ≡ ok segment
new_segment-torn_example =
    new_segment-torn segment (pair_batch ∷ single_batch ∷ []) single_batch 20 segment-Holds
      single_batch-IsWhole.0 (omega arith)

new_segment-ne-exhausted_example : new_segment pair_batch 0 1000 ≢ exhausted
new_segment-ne-exhausted_example = new_segment-ne-exhausted pair_batch 0 1000

pair_batch-starts : u64_at 0 pair_batch ≡ 0
unfolding u64_at uint64
pair_batch-starts = refl

pair_batch-ends : end_of 0 (pair_batch ∷ []) < 2 ^ 64
unfolding end_of span u32_at uint32
pair_batch-ends = omega arith

-- A header of 61 bytes with magic 2 whose batch length is 0.
abbrev short_header : List ℕ
short_header =
    0 ∷ 0 ∷ 0 ∷ 0 ∷ 0 ∷ 0 ∷ 0 ∷ 0 ∷ 0 ∷ 0 ∷ 0 ∷ 0 ∷ 0 ∷ 0 ∷ 0 ∷ 0 ∷ 2 ∷ 0 ∷ 0 ∷ 0 ∷ 0 ∷ 0 ∷ 0 ∷ 0
    ∷ 0 ∷ 0 ∷ 0 ∷ 0 ∷ 0 ∷ 0 ∷ 0 ∷ 0 ∷ 0 ∷ 0 ∷ 0 ∷ 0 ∷ 0 ∷ 0 ∷ 0 ∷ 0 ∷ 0 ∷ 0 ∷ 0 ∷ 0 ∷ 0 ∷ 0 ∷ 0 ∷ 0
    ∷ 0 ∷ 0 ∷ 0 ∷ 0 ∷ 0 ∷ 0 ∷ 0 ∷ 0 ∷ 0 ∷ 0 ∷ 0 ∷ 0 ∷ 0 ∷ []

short_header_read :
    (length short_header ≡ 61) × (u32_at 8 short_header ≡ 0) × (byte_at 16 short_header ≡ 2)
unfolding u32_at uint32 byte_at
short_header_read = (refl, refl, refl)

new_segment_crash_example : new_segment (concat (pair_batch ∷ []) ++ short_header) 0 1000 ≡ panicked
new_segment_crash_example =
    new_segment_crash 0 1000 (pair_batch ∷ []) short_header
      (pair_batch-IsWhole.0, pair_batch-starts, tt) pair_batch-ends
      (omega (arith, short_header_read.0)) (omega (arith, short_header_read.1))
      (short_header_read.2)

scan_raw_batches_iff_example :
    (scan_raw_batches pair_batch ≡ ok (all_bounds 0 (pair_batch ∷ []))) ↔ (
      (ps : List (List ℕ)) × (concat ps ≡ pair_batch)
      × All IsWhole ps
      × (all_bounds 0 (pair_batch ∷ []) ≡ all_bounds 0 ps))
scan_raw_batches_iff_example = scan_raw_batches_iff pair_batch (all_bounds 0 (pair_batch ∷ []))

-- The segment of the first batch alone, and what it is after the second was appended.
abbrev half : Segment
half = record segment { file = pair_batch ++ []; next_offset = 2; current_size = 61 }

half-Holds : Holds half (pair_batch ∷ [])
unfolding u64_at uint64 u32_at uint32 span end_of
half-Holds = record {
  bytes = refl;
  size = refl;
  chain = (pair_batch-IsWhole.0, refl, tt);
  next = refl;
  room = omega arith;
}

abbrev appended_raw : Appended
appended_raw = record {
  segment = record segment { file = pair_batch ++ concat (all_stamped 2 7 (single_batch ∷ [])) };
  base_offset = 2;
  pos = 61;
  records = 1;
}

append_raw_batches-half :
    append_raw_batches half (concat (single_batch ∷ [])) (all_bounds 0 (single_batch ∷ [])) 7
    ≡ ok appended_raw
unfolding append_raw_batches write_at put_at be32 be64 span u32_at uint32 all_bounds bounds_of
append_raw_batches-half = refl

append_raw_batches-Holds_example :
    Holds appended_raw.segment ((pair_batch ∷ []) ++ all_stamped 2 7 (single_batch ∷ []))
    × (◌≡◌ {A = ℕ} 2 2)
    × (◌≡◌ {A = ℕ} 61 61)
    × (3 ≡ 2 + 1)
append_raw_batches-Holds_example =
    append_raw_batches-Holds half (pair_batch ∷ []) (single_batch ∷ []) appended_raw half-Holds 7
      (single_batch-IsWhole, tt) append_raw_batches-half

abbrev appended_replica : Appended
appended_replica = record { segment = segment; base_offset = 2; pos = 61; records = 1 }

append_replica_batches-half :
    append_replica_batches half (concat (single_batch ∷ [])) (all_bounds 0 (single_batch ∷ []))
    ≡ ok appended_replica
unfolding append_replica_batches write_at u32_at uint32 u64_at uint64 all_bounds bounds_of
append_replica_batches-half = refl

append_replica_batches-Holds_example :
    Holds segment ((pair_batch ∷ []) ++ (single_batch ∷ []))
    × (◌≡◌ {A = ℕ} 2 2)
    × (◌≡◌ {A = ℕ} 61 61)
    × (3 ≡ 2 + 1)
unfolding u64_at uint64
append_replica_batches-Holds_example =
    append_replica_batches-Holds half (pair_batch ∷ []) (single_batch ∷ []) appended_replica
      half-Holds (single_batch-IsWhole.0, refl, tt) (single_batch-IsWhole, tt)
      append_replica_batches-half

read_raw_batch_at-ranges_example : read_raw_batch_at segment 61 100 ≡ (
    read_raw_ranges_at segment 61 100 >>= λ r.
    ok (take r.length (drop r.offset r.file), r.fetched_up_to))
read_raw_batch_at-ranges_example = read_raw_batch_at-ranges segment 61 100 (omega arith)

find_truncation_position_iff_example : (find_truncation_position segment 2 ≡ ok 61) ↔ (
    (pre post : List (List ℕ)) × (pair_batch ∷ single_batch ∷ [] ≡ pre ++ post)
    × (end_of 0 pre ≡ 2)
    × (61 ≡ length (concat pre)))
find_truncation_position_iff_example =
    find_truncation_position_iff segment (pair_batch ∷ single_batch ∷ []) 2 61 segment-Holds

truncate_at-Holds_example :
    (s' : Segment) × ((find_truncation_position segment (end_of 0 (pair_batch ∷ [])) >>= λ position.
    truncate_at segment position (end_of 0 (pair_batch ∷ [])))
      ≡ ok s')
    × Holds s' (pair_batch ∷ [])
    × (s'.next_offset ≡ end_of 0 (pair_batch ∷ []))
truncate_at-Holds_example =
    truncate_at-Holds segment (pair_batch ∷ []) (single_batch ∷ []) segment-Holds
