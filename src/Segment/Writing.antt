-- ===== src/Segment/Writing.antt =====
-- internal/log/segment.go: AppendRawBatch, AppendRawBatches and AppendReplicaBatches. A write of
-- the file succeeds.
pub mod Stamps
pub mod Keeps
use distributed_messaging_sy.Common.{
  ℕ, zero, suc, ◌+◌, ◌-◌, ◌%◌, ◌^◌, Bool, true, false, not, ◌&&◌, ◌||◌, List, [], ◌∷◌, length, take,
  drop, ltb, ◌==◌, if◌then◌else◌,
}
use distributed_messaging_sy.Protocol.Binary.{be32, be64}
use distributed_messaging_sy.Segment.Bytes.{u32_at, put_at, write_at}
use distributed_messaging_sy.Segment.Batches.{
  Result, ok, err, panicked, exhausted, segment_full, corrupt_batch, multiple_batches, ◌>>=◌,
  Extent, BatchBounds, validate_raw_batch,
}
use distributed_messaging_sy.Segment.State.{Segment}

-- The segment behind a call, and what the call returns.
pub record Appended : Type 0 where
  pub segment : Segment
  pub base_offset : ℕ
  pub pos : ℕ
  pub records : ℕ

-- The base offset and the leader epoch, written before the region of the checksum.
unfoldable pub stamp_at : ℕ → ℕ → ℕ → List ℕ → List ℕ
stamp_at pos offset epoch buf = put_at (pos + 12) (be32 epoch) (put_at pos (be64 offset) buf)

-- The loop of appendRawBatches: the buffer with the batches stamped, and the offset behind them.
unfoldable pub stamp_loop : Bool → ℕ → List BatchBounds → List ℕ → ℕ → Result (List ℕ × ℕ)
unfolding stamp_at
stamp_loop assign epoch [] buf offset = ok (buf, offset)
stamp_loop assign epoch (b ∷ bounds) buf offset =
    let buf' = if assign then stamp_at b.offset offset epoch buf else buf in
    let delta = b.last_offset_delta + 1 in
    if ltb (2 ^ 64 - 1 - delta) offset
    then err corrupt_batch
    else stamp_loop assign epoch bounds buf' (offset + delta)

-- `currentSize > 0` and no room for `n` bytes more.
unfoldable pub no_room : Segment → ℕ → Bool
no_room s n = ltb 0 s.current_size && ltb s.max_size (s.current_size + n)

-- The write of `buf` and the two counters.
unfoldable pub write_batches : Segment → List ℕ → ℕ → ℕ → Appended
write_batches s buf base_offset records = record {
  segment = record s {
    file = write_at s.file buf s.current_size;
    next_offset = (s.next_offset + records) % 2 ^ 64;
    current_size = s.current_size + length buf;
  };
  base_offset = base_offset;
  pos = s.current_size;
  records = records;
}

-- `bounds[0].baseOffset`
unfoldable pub first_base : List BatchBounds → Result ℕ
first_base [] = panicked
first_base (b ∷ bounds) = ok b.base_offset

-- appendRawBatches
unfoldable pub append_batches : Segment → List ℕ → List BatchBounds → ℕ → Bool → Result Appended
unfolding no_room stamp_loop write_batches first_base
append_batches s buf bounds epoch assign =
    if no_room s (length buf)
    then err segment_full
    else (if assign then ok s.next_offset else first_base bounds) >>= λ assigned.
        stamp_loop assign epoch bounds buf assigned >>= λ (stamped, offset).
        ok (write_batches s stamped assigned (offset - assigned))

-- AppendRawBatches
unfoldable pub append_raw_batches : Segment → List ℕ → List BatchBounds → ℕ → Result Appended
unfolding append_batches
append_raw_batches s buf bounds epoch = append_batches s buf bounds epoch true

-- AppendReplicaBatches
unfoldable pub append_replica_batches : Segment → List ℕ → List BatchBounds → Result Appended
unfolding append_batches
append_replica_batches s buf bounds = append_batches s buf bounds 0 false

-- AppendRawBatch
unfoldable pub append_raw_batch : Segment → List ℕ → ℕ → Result Appended
unfolding no_room stamp_at write_batches
append_raw_batch s bs epoch = do
  e ← validate_raw_batch bs
  if not (length bs == e.size)
      then err multiple_batches
      else if no_room s e.size
      then err segment_full
      else let buf = stamp_at 0 s.next_offset epoch bs in
        ok (write_batches s buf s.next_offset (u32_at 23 buf + 1))
