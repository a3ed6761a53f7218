-- ===== src/Partition/Serving.antt =====
-- internal/broker/partition_raw.go: AppendRaw, AppendFromLeader, FetchRawRanges and
-- EndOffsetForLeaderEpoch; and updateFollowerLEO, TruncateTo and Close of partition.go.
use distributed_messaging_sy.Common.{
  ℕ, zero, suc, ◌+◌, ◌-◌, ◌%◌, ◌^◌, Bool, true, false, not, ◌&&◌, ◌||◌, Option, none, some, List,
  length, leb, ltb, ◌==◌, if◌then◌else◌, ltb_i32, is_negative_i32, is_empty,
}
use distributed_messaging_sy.Epoch.{EndOffset}
use distributed_messaging_sy.Segment.Bytes.{read_at, u32_at, u64_at}
use distributed_messaging_sy.Segment.Batches.{
  Result, ok, err, panicked, exhausted, LogError, corrupt_batch, unsupported_message_format, other,
  message_too_large as batch_too_large,
}
use distributed_messaging_sy.Segment.Reading.{RawRanges}
use distributed_messaging_sy.Log.State.{Log, oldest_offset, next_offset}
use distributed_messaging_sy.Log.Epochs.{end_offset_for_leader_epoch}
use distributed_messaging_sy.Log.Raw.{append_raw, append_replica_raw, read_raw_ranges}
use distributed_messaging_sy.Log.Truncation.{truncate_to}
use distributed_messaging_sy.Partition.{
  ErrorCode, not_leader_or_follower, storage_error, corrupt_message, message_too_large,
  unsupported_for_message_format, invalid_required_acks, offset_out_of_range, fenced_leader_epoch,
  unknown_leader_epoch, partition_closed, log_append_failed, log_read_failed, truncate_as_leader,
  truncate_failed, log_panicked, Acks, acks_all, acks_other, Partition, push, set_leo,
  fail_purgatory, notify_waiters, maybe_advance_hw,
}

-- AppendResult: the first offset, and the entry to wait for, if the caller waits; or an error.
pub data AppendResult : Type 0 where
  appended : ℕ → Option ℕ → AppendResult
  append_refused : ErrorCode → AppendResult

abbrev pub is_all : Acks → Bool
is_all acks_all = true
is_all _ = false

abbrev pub is_unknown : Acks → Bool
is_unknown (acks_other n) = true
is_unknown _ = false

-- The error of AppendRaw for an error of the log.
unfoldable pub append_error : LogError → ErrorCode
append_error corrupt_batch = corrupt_message
append_error unsupported_message_format = unsupported_for_message_format
append_error batch_too_large = message_too_large
append_error _ = log_append_failed

-- AppendRaw behind the log write, up to the unlocking of `appendMu`, with what the log gave.
unfoldable pub append_logged : Acks → Log → Result (ℕ × ℕ) → Partition → Partition × AppendResult
unfolding push append_error notify_waiters
append_logged acks l (err e) p = (record p { log = l }, append_refused (append_error e))
append_logged acks l panicked p = (record p { log = l }, append_refused log_panicked)
append_logged acks l exhausted p = (record p { log = l }, append_refused log_panicked)
append_logged acks l (ok (offset, delta)) p =
    let q = notify_waiters (record p { log = l }) in
    if is_all acks
    then (
      record q {
        purgatory =
            push (record { id = p.next_entry; required_hw = (offset + delta + 1) % 2 ^ 64 })
              p.purgatory;
        next_entry = p.next_entry + 1;
      },
      appended offset (some p.next_entry),
    )
    else (q, appended offset none)

-- AppendRaw behind `appendMu.Lock`, up to the unlocking: the log write and the entry in the heap.
unfoldable pub append_locked : List ℕ → Acks → Partition → Partition × AppendResult
unfolding append_logged
append_locked bs acks p =
    if p.closed
    then (p, append_refused partition_closed)
    else if not p.is_leader
    then (p, append_refused not_leader_or_follower)
    else let (l, r) = append_raw p.log bs p.leader_epoch in append_logged acks l r p

-- AppendRaw behind the unlocking.
unfoldable pub append_finish : Partition × AppendResult → Partition × AppendResult
unfolding maybe_advance_hw
append_finish (p, append_refused e) = (p, append_refused e)
append_finish (p, appended offset entry) = (maybe_advance_hw p, appended offset entry)

-- AppendRaw, with nothing between its parts. The end of the context is `time_out`.
unfoldable pub append_records : List ℕ → Acks → Partition → Partition × AppendResult
unfolding append_locked append_finish
append_records bs acks p =
    if not p.is_leader
    then (p, append_refused not_leader_or_follower)
    else if p.closed
    then (p, append_refused partition_closed)
    else if ltb (length bs) 61
    then (p, append_refused corrupt_message)
    else if is_unknown acks
    then (p, append_refused invalid_required_acks)
    else append_finish (append_locked bs acks p)

unfoldable pub replicated : Log × Result ℕ → Log × Option ErrorCode
replicated (l, ok n) = (l, none)
replicated (l, err e) = (l, some log_append_failed)
replicated (l, panicked) = (l, some log_panicked)
replicated (l, exhausted) = (l, some log_panicked)

-- The log behind AppendFromLeader's call of it, and the error.
unfoldable pub replicate : Bool → List ℕ → ℕ → Log → Log × Option ErrorCode
unfolding replicated
replicate writes bs epoch l =
    if is_empty bs then (l, none) else replicated (append_replica_raw writes l bs epoch)

-- The end of AppendFromLeader: the high watermark of the leader, as far as the own log goes.
unfoldable pub raise_hw : ℕ → ℕ → Partition → Partition
unfolding notify_waiters
raise_hw leader_hw old_leo p =
    let leo = next_offset p.log in
    let candidate = if ltb leo leader_hw then leo else leader_hw in
    let raised = if ltb p.high_watermark candidate then candidate else p.high_watermark in
    let q = record p { high_watermark = raised } in
    if not (leo == old_leo) || not (raised == p.high_watermark) then notify_waiters q else q

-- AppendFromLeader behind its checks.
unfoldable pub follow_leader :
    ℕ → ℕ → Log × Option ErrorCode → Partition → Partition × Option ErrorCode
unfolding raise_hw
follow_leader leader_hw old_leo (l, some e) p = (record p { log = l }, some e)
follow_leader leader_hw old_leo (l, none) p =
    (raise_hw leader_hw old_leo (record p { log = l }), none)

-- AppendFromLeader
unfoldable pub append_from_leader : Bool → List ℕ → ℕ → ℕ → Partition → Partition × Option ErrorCode
unfolding replicate follow_leader
append_from_leader writes bs fetch_epoch leader_hw p =
    if p.closed
    then (p, some partition_closed)
    else if p.is_leader || is_negative_i32 p.leader_id || p.leader_id == p.local_broker_id
    then (p, some not_leader_or_follower)
    else if ltb_i32 fetch_epoch p.leader_epoch
    then (p, some fenced_leader_epoch)
    else if ltb_i32 p.leader_epoch fetch_epoch
    then (p, some unknown_leader_epoch)
    else follow_leader leader_hw (next_offset p.log) (replicate writes bs fetch_epoch p.log) p

-- updateFollowerLEO
unfoldable pub update_follower_leo : ℕ → ℕ → Partition → Partition
unfolding set_leo maybe_advance_hw
update_follower_leo id leo p = maybe_advance_hw (record p { isr = set_leo id leo p.isr })

-- The loop of capToHW, on fuel: the length that is kept, and the offset behind it.
unfoldable pub cap_loop : ℕ → List ℕ → ℕ → ℕ → ℕ → ℕ → ℕ → Result (ℕ × ℕ)
cap_loop zero file pos length max_offset consumed upto = exhausted
cap_loop (suc fuel) file pos length max_offset consumed upto = elim (ltb consumed length) [
  | false ↦ ok (consumed, upto)
  | true ↦ elim (ltb (length - consumed) 27) [
    | true ↦ err other
    | false ↦ elim (read_at file 27 (pos + consumed)) [
      | none ↦ err other
      | some hdr ↦
          let total = 12 + u32_at 8 hdr in
          let batch_end = (u64_at 0 hdr + u32_at 23 hdr + 1) % 2 ^ 64 in
          elim (ltb total 61 || ltb length (consumed + total)) [
            | true ↦ err other
            | false ↦ elim (ltb max_offset batch_end) [
              | true ↦ ok (consumed, upto)
              | false ↦ cap_loop fuel file pos length max_offset (consumed + total) batch_end
            ]
          ]
    ]
  ]
]

-- capToHW
unfoldable pub cap_to_hw : List ℕ → ℕ → ℕ → ℕ → ℕ → Result (ℕ × ℕ)
unfolding cap_loop
cap_to_hw file pos length max_offset fallback =
    cap_loop (suc length) file pos length max_offset 0 fallback

-- FetchRawRangeResult. Its field RecordsSize is the length of the range, or 0.
pub record RawRangeResult : Type 0 where
  pub range : Option RawRanges
  pub high_watermark : ℕ
  pub log_start_offset : ℕ
  pub fetched_up_to : ℕ

pub data FetchResult : Type 0 where
  fetched : RawRangeResult → FetchResult
  fetch_refused : ErrorCode → FetchResult

-- The loop of FetchRawRanges over the one range, from what capToHW gave.
unfoldable pub capped_range : RawRanges → Result (ℕ × ℕ) → ℕ → RawRangeResult → FetchResult
capped_range r (ok (n, upto)) offset nothing = fetched (
    if ltb 0 n
    then record nothing { range = some (record r { length = n }); fetched_up_to = upto }
    else record nothing { fetched_up_to = offset })
capped_range r (err e) offset nothing = fetch_refused log_read_failed
capped_range r panicked offset nothing = fetch_refused log_panicked
capped_range r exhausted offset nothing = fetch_refused log_panicked

-- FetchRawRanges behind the read; `nothing` is the answer without a range.
unfoldable pub fetch_range : ℕ → Bool → ℕ → Bool → RawRanges → RawRangeResult → FetchResult
unfolding capped_range cap_to_hw
fetch_range offset is_follower max_bytes oversized r nothing =
    let hw = nothing.high_watermark in
    if not oversized && (is_negative_i32 max_bytes || ltb max_bytes r.length)
    then fetched nothing
    else if not is_follower && ltb hw r.fetched_up_to
    then capped_range r (cap_to_hw r.file r.offset r.length hw offset) offset nothing
    else fetched (record nothing { range = some r; fetched_up_to = r.fetched_up_to })

-- The answer of FetchRawRanges without a range.
unfoldable pub no_range : ℕ → Partition → RawRangeResult
no_range offset p = record {
  range = none;
  high_watermark = p.high_watermark;
  log_start_offset = oldest_offset p.log;
  fetched_up_to = offset;
}

-- FetchRawRanges behind its call of the log, with what that gave.
unfoldable pub fetch_read :
    ℕ → ℕ → ℕ → Bool → Result RawRanges → Partition → Partition × FetchResult
unfolding update_follower_leo fetch_range no_range
fetch_read offset replica max_bytes oversized (err e) p = (p, fetch_refused log_read_failed)
fetch_read offset replica max_bytes oversized panicked p = (p, fetch_refused log_panicked)
fetch_read offset replica max_bytes oversized exhausted p = (p, fetch_refused log_panicked)
fetch_read offset replica max_bytes oversized (ok r) p =
    let is_follower = not (is_negative_i32 replica) in
    let q = if is_follower then update_follower_leo replica offset p else p in
    (q, fetch_range offset is_follower max_bytes oversized r (no_range offset q))

-- FetchRawRanges
unfoldable pub fetch_raw_ranges : ℕ → ℕ → ℕ → Bool → Partition → Partition × FetchResult
unfolding fetch_read
fetch_raw_ranges offset replica max_bytes oversized p =
    let is_follower = not (is_negative_i32 replica) in
    if p.closed
    then (p, fetch_refused partition_closed)
    else if not p.is_leader
    then (p, fetch_refused not_leader_or_follower)
    else if ltb offset (oldest_offset p.log) || ltb (next_offset p.log) offset
    then (p, fetch_refused offset_out_of_range)
    else if not is_follower && leb p.high_watermark offset
    then (p, fetched (no_range offset p))
    else if is_follower && offset == next_offset p.log
    then (let q = update_follower_leo replica offset p in (q, fetched (no_range offset q)))
    else fetch_read offset replica max_bytes oversized (read_raw_ranges p.log offset max_bytes) p

-- validateLeaderEpoch
unfoldable pub validate_leader_epoch : ℕ → ℕ → Option ErrorCode
validate_leader_epoch requested current =
    if is_negative_i32 requested
    then none
    else if ltb_i32 requested current
    then some fenced_leader_epoch
    else if ltb_i32 current requested
    then some unknown_leader_epoch
    else none

pub data EndOffsetResult : Type 0 where
  end_offset_found : EndOffset → EndOffsetResult
  end_offset_refused : ErrorCode → EndOffsetResult

-- EndOffsetForLeaderEpoch
unfoldable pub end_offset_for_epoch : ℕ → ℕ → Partition → EndOffsetResult
unfolding validate_leader_epoch
end_offset_for_epoch requested current p =
    if p.closed
    then end_offset_refused partition_closed
    else if not p.is_leader
    then end_offset_refused not_leader_or_follower
    else elim (validate_leader_epoch current p.leader_epoch) [
      | some e ↦ end_offset_refused e
      | none ↦ end_offset_found (end_offset_for_leader_epoch p.log requested)
    ]

-- The state behind TruncateTo's call of the log.
unfoldable pub lower_hw : ℕ → Partition → Partition
unfolding notify_waiters
lower_hw old_leo p =
    let new_leo = next_offset p.log in
    let lowered = record p {
      high_watermark = if ltb new_leo p.high_watermark then new_leo else p.high_watermark;
    } in
    if not (new_leo == old_leo) || ltb new_leo p.high_watermark
    then notify_waiters lowered
    else lowered

-- TruncateTo
unfoldable pub truncate : Bool → ℕ → Partition → Partition × Option ErrorCode
unfolding lower_hw
truncate writes offset p =
    if p.is_leader
    then (p, some truncate_as_leader)
    else let (l, succeeded) = truncate_to writes p.log offset in
      (
        lower_hw (next_offset p.log) (record p { log = l }),
        if succeeded then none else some truncate_failed,
      )

-- Close: the first call fails the waiting producers and closes the files, later ones do nothing.
-- `closes` tells whether the files are closed without an error.
unfoldable pub close_partition : Bool → Partition → Partition × Bool
unfolding fail_purgatory notify_waiters
close_partition closes p =
    if p.closed
    then (p, true)
    else (notify_waiters (record (fail_purgatory storage_error p) { closed = true }), closes)
