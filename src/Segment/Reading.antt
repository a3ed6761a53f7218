-- ===== src/Segment/Reading.antt =====
-- internal/log/segment.go: ReadBatchMetaAt, ReadRawBatchAt and ReadRawRangesAt. Positions are not
-- negative; a read of the file fails only past its end.
pub mod Budget
pub mod Ranges
use distributed_messaging_sy.Common.{
  ℕ, zero, suc, ◌+◌, ◌-◌, ◌^◌, ◌%◌, Bool, true, false, not, ◌&&◌, ◌||◌, Option, none, some, List,
  [], ◌++◌, length, ltb, leb, ◌==◌, if◌then◌else◌, is_empty, is_negative_i32,
}
use distributed_messaging_sy.Segment.Bytes.{u32_at, u64_at, read_at}
use distributed_messaging_sy.Segment.Batches.{Result, ok, err, panicked, exhausted, other, ◌>>=◌}
use distributed_messaging_sy.Segment.State.{Segment}

pub record BatchMeta : Type 0 where
  pub first_offset : ℕ
  pub last_offset_delta : ℕ
  pub on_disk_size : ℕ

unfoldable pub read_file : Segment → ℕ → ℕ → Result (List ℕ)
read_file s n pos = elim (read_at s.file n pos) [ none ↦ err other | some bs ↦ ok bs ]

-- ReadBatchMetaAt
unfoldable pub read_batch_meta_at : Segment → ℕ → Result BatchMeta
unfolding read_file
read_batch_meta_at s pos = do
  buf ← read_file s 27 pos
  ok (record {
    first_offset = u64_at 0 buf;
    last_offset_delta = u32_at 23 buf;
    on_disk_size = 12 + u32_at 8 buf;
  })

-- `int64(maxBytes)`. A negative number counts as 0: the loops only ask whether what remains is
-- positive and whether a batch is larger.
unfoldable pub budget : ℕ → ℕ
budget max_bytes = if is_negative_i32 max_bytes then 0 else max_bytes

-- `firstOffset + uint64(lastOffsetDelta) + 1`
unfoldable pub offset_behind : BatchMeta → ℕ
offset_behind m = (m.first_offset + m.last_offset_delta + 1) % 2 ^ 64

-- The batch would be cut off by the end of the segment, or is too large for what remains.
unfoldable pub is_last : Segment → ℕ → Bool → ℕ → ℕ → Bool
is_last s pos first remaining size =
    ltb s.current_size (pos + size) || (not first && ltb remaining size)

-- The loop of ReadRawBatchAt, on fuel: the bytes so far, and `fetchedUpTo`.
unfoldable pub read_loop : ℕ → Segment → ℕ → Bool → ℕ → List ℕ → ℕ → Result (List ℕ × ℕ)
read_loop zero s pos first remaining result fetched = exhausted
read_loop (suc fuel) s pos first remaining result fetched = elim (ltb pos s.current_size) [
  | false ↦ ok (result, fetched)
  | true ↦ read_batch_meta_at s pos >>= λ m. elim (is_last s pos first remaining m.on_disk_size) [
    | true ↦ ok (result, fetched)
    | false ↦ read_file s m.on_disk_size pos >>= λ batch. elim (leb remaining m.on_disk_size) [
      | true ↦ ok (result ++ batch, offset_behind m)
      | false ↦
          read_loop fuel s (pos + m.on_disk_size) false (remaining - m.on_disk_size)
            (result ++ batch) (offset_behind m)
    ]
  ]
]

unfoldable pub some_bytes : List ℕ × ℕ → Result (List ℕ × ℕ)
some_bytes (result, fetched) = if is_empty result then err other else ok (result, fetched)

-- ReadRawBatchAt
unfoldable pub read_raw_batch_at : Segment → ℕ → ℕ → Result (List ℕ × ℕ)
unfolding read_loop budget some_bytes
read_raw_batch_at s pos max_bytes =
    if leb s.current_size pos
    then err other
    else read_loop (suc s.current_size) s pos true (budget max_bytes) [] 0 >>= some_bytes

-- The loop of ReadRawRangesAt, on fuel: `endPos` and `fetchedUpTo`.
unfoldable pub range_loop : ℕ → Segment → ℕ → Bool → ℕ → ℕ → ℕ → Result (ℕ × ℕ)
range_loop zero s pos first remaining end_pos fetched = exhausted
range_loop (suc fuel) s pos first remaining end_pos fetched = elim (ltb pos s.current_size) [
  | false ↦ ok (end_pos, fetched)
  | true ↦ read_batch_meta_at s pos >>= λ m. elim (is_last s pos first remaining m.on_disk_size) [
    | true ↦ ok (end_pos, fetched)
    | false ↦ elim (leb remaining m.on_disk_size) [
      | true ↦ ok (pos + m.on_disk_size, offset_behind m)
      | false ↦
          range_loop fuel s (pos + m.on_disk_size) false (remaining - m.on_disk_size)
            (pos + m.on_disk_size) (offset_behind m)
    ]
  ]
]

-- The one range of ReadRawRangesResult, whose length is also its field Bytes.
pub record RawRanges : Type 0 where
  pub file : List ℕ
  pub offset : ℕ
  pub length : ℕ
  pub fetched_up_to : ℕ

unfoldable pub raw_ranges : Segment → ℕ → ℕ × ℕ → Result RawRanges
raw_ranges s start (end_pos, fetched) =
    if end_pos == 0
    then err other
    else ok (record {
      file = s.file;
      offset = start;
      length = end_pos - start;
      fetched_up_to = fetched;
    })

-- ReadRawRangesAt
unfoldable pub read_raw_ranges_at : Segment → ℕ → ℕ → Result RawRanges
unfolding range_loop budget raw_ranges
read_raw_ranges_at s pos max_bytes =
    if leb s.current_size pos
    then err other
    else range_loop (suc s.current_size) s pos true (budget max_bytes) 0 0 >>= raw_ranges s pos
