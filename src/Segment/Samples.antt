-- ===== src/Segment/Samples.antt =====
-- internal/log/segment.go: two batches and a segment for runs at concrete bytes. The batches have no record bytes: a header of
-- 61 bytes with its checksum and its counts.
use distributed_messaging_sy.Common.{ℕ, ◌≡◌, refl, List, [], ◌∷◌, ◌++◌, arith}
use distributed_messaging_sy.Protocol.Binary.{uint32, uint64}
use distributed_messaging_sy.Segment.Bytes.{byte_at, u32_at, u64_at, checksum}
use distributed_messaging_sy.Segment.Batches.{ok, validate_raw_batch}
use distributed_messaging_sy.Segment.Batches.Valid.{validate_raw_batch-IsBatch}
use distributed_messaging_sy.Segment.Batches.Scan.{IsWhole}
use distributed_messaging_sy.Segment.State.{Segment}
use distributed_messaging_sy.Segment.Chain.{span, end_of, Holds}

-- The offsets 0 and 1.
abbrev pub pair_batch : List ℕ
pair_batch =
    0 ∷ 0 ∷ 0 ∷ 0 ∷ 0 ∷ 0 ∷ 0 ∷ 0 ∷ 0 ∷ 0 ∷ 0 ∷ 49 ∷ 0 ∷ 0 ∷ 0 ∷ 0 ∷ 2 ∷ 47 ∷ 220 ∷ 76 ∷ 117 ∷ 0 ∷ 0
    ∷ 0 ∷ 0 ∷ 0 ∷ 1 ∷ 0 ∷ 0 ∷ 0 ∷ 0 ∷ 0 ∷ 0 ∷ 3 ∷ 232 ∷ 0 ∷ 0 ∷ 0 ∷ 0 ∷ 0 ∷ 0 ∷ 3 ∷ 232 ∷ 255 ∷ 255
    ∷ 255 ∷ 255 ∷ 255 ∷ 255 ∷ 255 ∷ 255 ∷ 255 ∷ 255 ∷ 255 ∷ 255 ∷ 255 ∷ 255 ∷ 0 ∷ 0 ∷ 0 ∷ 2 ∷ []

-- The offset 2.
abbrev pub single_batch : List ℕ
single_batch =
    0 ∷ 0 ∷ 0 ∷ 0 ∷ 0 ∷ 0 ∷ 0 ∷ 2 ∷ 0 ∷ 0 ∷ 0 ∷ 49 ∷ 0 ∷ 0 ∷ 0 ∷ 0 ∷ 2 ∷ 29 ∷ 74 ∷ 41 ∷ 162 ∷ 0 ∷ 0
    ∷ 0 ∷ 0 ∷ 0 ∷ 0 ∷ 0 ∷ 0 ∷ 0 ∷ 0 ∷ 0 ∷ 0 ∷ 3 ∷ 232 ∷ 0 ∷ 0 ∷ 0 ∷ 0 ∷ 0 ∷ 0 ∷ 3 ∷ 232 ∷ 255 ∷ 255
    ∷ 255 ∷ 255 ∷ 255 ∷ 255 ∷ 255 ∷ 255 ∷ 255 ∷ 255 ∷ 255 ∷ 255 ∷ 255 ∷ 255 ∷ 0 ∷ 0 ∷ 0 ∷ 1 ∷ []

pair_batch-valid : validate_raw_batch pair_batch ≡ ok (record { size = 61; last_offset_delta = 1 })
unfolding validate_raw_batch u32_at byte_at checksum uint32
pair_batch-valid = refl

single_batch-valid :
    validate_raw_batch single_batch ≡ ok (record { size = 61; last_offset_delta = 0 })
unfolding validate_raw_batch u32_at byte_at checksum uint32
single_batch-valid = refl

pub pair_batch-IsWhole : IsWhole pair_batch
unfolding u64_at uint64
pair_batch-IsWhole = ((validate_raw_batch-IsBatch pair_batch _ pair_batch-valid).0, omega arith)

pub single_batch-IsWhole : IsWhole single_batch
unfolding u64_at uint64
single_batch-IsWhole =
    ((validate_raw_batch-IsBatch single_batch _ single_batch-valid).0, omega arith)

abbrev pub segment : Segment
segment = record {
  file = pair_batch ++ (single_batch ++ []);
  base_offset = 0;
  next_offset = 3;
  current_size = 122;
  max_size = 1000;
}

pub segment-Holds : Holds segment (pair_batch ∷ single_batch ∷ [])
unfolding u64_at uint64 u32_at uint32 span end_of
segment-Holds = record {
  bytes = refl;
  size = refl;
  chain = (pair_batch-IsWhole.0, refl, (single_batch-IsWhole.0, refl, tt));
  next = refl;
  room = omega arith;
}
