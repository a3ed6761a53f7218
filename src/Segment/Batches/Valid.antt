-- ===== src/Segment/Batches/Valid.antt =====
-- internal/log/segment.go, validateRawBatch: the bytes that it accepts.
use distributed_messaging_sy.Common.{
  ℕ, ◌+◌, ◌^◌, ◌≤◌, ◌<◌, ◌≡◌, List, ◌++◌, arith, length, length-append,
}
use distributed_messaging_sy.Segment.Bytes.{byte_at, u32_at, slice, checksum}
use distributed_messaging_sy.Segment.Bytes.Slices.{byte_at-append, u32_at-append, slice-append}
use distributed_messaging_sy.Segment.Batches.{ok, Extent, validate_raw_batch}

-- The first `size` bytes are a batch of magic 2 with its checksum, and its counts agree.
pub record IsBatch (size : ℕ) (bs : List ℕ) : Type 0 where
  pub sized : size ≡ 12 + u32_at 8 bs
  pub header : 61 ≤ size
  pub within : size ≤ length bs
  pub small : size < 2 ^ 31 + 12
  pub magic : byte_at 16 bs ≡ 2
  pub intact : checksum (slice 21 size bs) ≡ u32_at 17 bs
  pub counted : u32_at 57 bs ≡ u32_at 23 bs + 1
  pub bounded : u32_at 57 bs < 2 ^ 31

pub validate_raw_batch-IsBatch :
    (bs : List ℕ) (e : Extent)
    → validate_raw_batch bs ≡ ok e
    → IsBatch e.size bs × (e.last_offset_delta ≡ u32_at 23 bs)
unfolding validate_raw_batch
validate_raw_batch-IsBatch bs e h = ground arith

pub IsBatch-validate_raw_batch :
    {size : ℕ} (bs : List ℕ)
    → IsBatch size bs
    → validate_raw_batch bs ≡ ok (record { size = size; last_offset_delta = u32_at 23 bs })
unfolding validate_raw_batch
IsBatch-validate_raw_batch bs v = ground arith

-- Bytes behind the batch do not matter.
pub IsBatch-append : (xs ys : List ℕ) → IsBatch (length xs) xs → IsBatch (length xs) (xs ++ ys)
IsBatch-append xs ys v = record {
  sized = rw (u32_at-append 8 xs ys (omega arith)) v.sized;
  header = v.header;
  within = omega (arith, length-append xs ys);
  small = v.small;
  magic = rw (byte_at-append 16 xs ys (omega arith)) v.magic;
  intact =
      rw
        (
          u32_at-append 17 xs ys (omega arith),
          slice-append 21 (length xs) xs ys (omega arith) (omega arith),
        )
        v.intact;
  counted =
      rw (u32_at-append 57 xs ys (omega arith), u32_at-append 23 xs ys (omega arith)) v.counted;
  bounded = rw (u32_at-append 57 xs ys (omega arith)) v.bounded;
}

pub IsBatch-of_append :
    (xs ys : List ℕ) → 61 ≤ length xs → IsBatch (length xs) (xs ++ ys) → IsBatch (length xs) xs
IsBatch-of_append xs ys long v = record {
  sized = rw (← u32_at-append 8 xs ys (omega arith)) v.sized;
  header = v.header;
  within = omega arith;
  small = v.small;
  magic = rw (← byte_at-append 16 xs ys (omega arith)) v.magic;
  intact =
      rw
        (
          ← u32_at-append 17 xs ys (omega arith),
          ← slice-append 21 (length xs) xs ys (omega arith) (omega arith),
        )
        v.intact;
  counted =
      rw (← u32_at-append 57 xs ys (omega arith), ← u32_at-append 23 xs ys (omega arith)) v.counted;
  bounded = rw (← u32_at-append 57 xs ys (omega arith)) v.bounded;
}
