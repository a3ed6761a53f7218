-- ===== src/Partition/Waiting.antt =====
-- internal/broker/partition.go and partition_raw.go: the waiting producers over runs of a partition replica.
use distributed_messaging_sy.Common.{
  ℕ, ◌+◌, ◌%◌, ◌^◌, ◌≡◌, Bool, Option, none, some, List, [], ◌∷◌, map, arith, length, Option-cases,
  if-both, inl, inr, leb, ltb, not, ◌&&◌, ◌||◌, ◌==◌, is_negative_i32, ltb_i32, if◌then◌else◌,
}
use distributed_messaging_sy.Segment.Batches.{Result, ok, err, panicked, exhausted}
use distributed_messaging_sy.Segment.Reading.{RawRanges}
use distributed_messaging_sy.Log.State.{Log, oldest_offset, next_offset}
use distributed_messaging_sy.Log.Epochs.{assign_leader_epoch, latest_leader_epoch}
use distributed_messaging_sy.Log.Raw.{append_raw, read_raw_ranges}
use distributed_messaging_sy.Log.Truncation.{truncate_to}
use distributed_messaging_sy.Partition.{
  Partition, ErrorCode, request_timed_out, not_leader_or_follower, storage_error, is_stale, Acks,
  PurgatoryEntry, popped, complete, waiting, set_leo, previous_leo, new_partition, publish_hw,
  maybe_advance_hw, compute_hw, make_leader, make_follower, make_unassigned, update_leader_isr,
  time_out, drain_purgatory, fail_purgatory, notify_waiters,
}
use distributed_messaging_sy.Partition.Serving.{
  is_all, is_unknown, append_logged, AppendResult, appended, append_refused, append_locked,
  append_finish, append_records, raise_hw, follow_leader, replicate, append_from_leader,
  update_follower_leo, fetch_read, fetch_raw_ranges, lower_hw, truncate, close_partition,
}
use distributed_messaging_sy.Partition.Reachable.{
  Operation, append_op, replicate_op, fetch_op, truncate_op, lead_op, isr_op, follow_op,
  unassign_op, time_out_op, close_op, run, Reaches, start, step,
}
use distributed_messaging_sy.Partition.Purgatory.{
  IsSorted, push-IsSorted, staying-IsSorted, remove_entry-IsSorted, times, answers, answers-append,
  answers-complete, times-push, times-remove_entry, times-popped-staying,
}

-- The heap is sorted. Each entry that was made either waits or has been answered, once, and no other
-- entry waits or has been answered.
abbrev pub IsAccounted : Partition → Type 0
IsAccounted p =
    IsSorted p.purgatory
    × ((id : ℕ)
        → times id p.purgatory + answers id p.completed ≡ (if ltb id p.next_entry then 1 else 0))

-- The same of the state that an operation returns with its result.
abbrev FirstIsAccounted : {Result : Type 0} → Partition × Result → Type 0
FirstIsAccounted r = IsAccounted r.0

drain_purgatory-IsAccounted :
    (hw : ℕ) (p : Partition) → IsAccounted p → IsAccounted (drain_purgatory hw p)
unfolding drain_purgatory
drain_purgatory-IsAccounted hw p (s, n) = (
  staying-IsSorted hw p.purgatory s,
  λ id. omega (
    arith,
    n id,
    answers-append id p.completed (map (complete none) (popped hw p.purgatory)),
    answers-complete id none (popped hw p.purgatory),
    times-popped-staying id hw p.purgatory,
  ),
)

fail_purgatory-IsAccounted :
    (e : ErrorCode) (p : Partition) → IsAccounted p → IsAccounted (fail_purgatory e p)
unfolding fail_purgatory
fail_purgatory-IsAccounted e p (s, n) = (
  tt,
  λ id. omega (
    arith,
    n id,
    answers-append id p.completed (map (complete (some e)) p.purgatory),
    answers-complete id (some e) p.purgatory,
  ),
)

publish_hw-IsAccounted : (hw : ℕ) (p : Partition) → IsAccounted p → IsAccounted (publish_hw hw p)
unfolding publish_hw notify_waiters
publish_hw-IsAccounted hw p a =
    if-both IsAccounted (leb hw p.high_watermark) (drain_purgatory-IsAccounted p.high_watermark p a)
      (drain_purgatory-IsAccounted hw (record p { high_watermark = hw }) a)

time_out-IsAccounted : (id : ℕ) (p : Partition) → IsAccounted p → IsAccounted (time_out id p)
unfolding time_out
time_out-IsAccounted id p (s, n) = elim (Option-cases (waiting id p.purgatory)) [
  | inl gone ↦ rw (gone, time_out) (s, n)
  | inr (e, found) ↦
      rw (found, time_out)
        (
          remove_entry-IsSorted id p.purgatory s,
          λ other. omega (
            arith,
            n other,
            answers-append other p.completed (complete (some request_timed_out) e ∷ []),
            times-remove_entry other id p.purgatory e found,
          ),
        )
]

maybe_advance_hw-IsAccounted : (p : Partition) → IsAccounted p → IsAccounted (maybe_advance_hw p)
unfolding maybe_advance_hw
maybe_advance_hw-IsAccounted p a = elim (Option-cases (compute_hw p)) [
  | inl early ↦ rw (early, maybe_advance_hw) a
  | inr (hw, computed) ↦ rw (computed, maybe_advance_hw) (publish_hw-IsAccounted hw p a)
]

append_logged-IsAccounted :
    (acks : Acks) (l : Log) (r : Result (ℕ × ℕ)) (p : Partition)
    → IsAccounted p
    → IsAccounted (append_logged acks l r p).0
unfolding append_logged notify_waiters
append_logged-IsAccounted acks l (err e) p a = a
append_logged-IsAccounted acks l panicked p a = a
append_logged-IsAccounted acks l exhausted p a = a
append_logged-IsAccounted acks l (ok (offset, delta)) p (s, n) =
    let e : PurgatoryEntry = record {
      id = p.next_entry;
      required_hw = (offset + delta + 1) % 2 ^ 64;
    } in
    if-both FirstIsAccounted (is_all acks)
      (push-IsSorted e p.purgatory s, λ id. ground (arith, n id, times-push id e p.purgatory))
      (s, n)

append_locked-IsAccounted :
    (bs : List ℕ) (acks : Acks) (p : Partition)
    → IsAccounted p
    → IsAccounted (append_locked bs acks p).0
unfolding append_locked
append_locked-IsAccounted bs acks p a = if-both FirstIsAccounted p.closed a (
    if-both FirstIsAccounted (not p.is_leader) a (
      append_logged-IsAccounted acks (append_raw p.log bs p.leader_epoch).0
        (append_raw p.log bs p.leader_epoch).1 p a))

append_finish-IsAccounted :
    (r : Partition × AppendResult) → IsAccounted r.0 → IsAccounted (append_finish r).0
unfolding append_finish
append_finish-IsAccounted (p, append_refused e) a = a
append_finish-IsAccounted (p, appended offset entry) a = maybe_advance_hw-IsAccounted p a

append_records-IsAccounted :
    (bs : List ℕ) (acks : Acks) (p : Partition)
    → IsAccounted p
    → IsAccounted (append_records bs acks p).0
unfolding append_records
append_records-IsAccounted bs acks p a = if-both FirstIsAccounted (not p.is_leader) a (
    if-both FirstIsAccounted p.closed a (
      if-both FirstIsAccounted (ltb (length bs) 61) a (
        if-both FirstIsAccounted (is_unknown acks) a (
          append_finish-IsAccounted (append_locked bs acks p)
            (append_locked-IsAccounted bs acks p a)))))

raise_hw-IsAccounted :
    (leader_hw old : ℕ) (p : Partition) → IsAccounted p → IsAccounted (raise_hw leader_hw old p)
unfolding raise_hw notify_waiters
raise_hw-IsAccounted leader_hw old p a =
    let leo = next_offset p.log in
    let candidate = if ltb leo leader_hw then leo else leader_hw in
    let raised = if ltb p.high_watermark candidate then candidate else p.high_watermark in
    if-both IsAccounted (not (leo == old) || not (raised == p.high_watermark)) a a

follow_leader-IsAccounted :
    (leader_hw old : ℕ) (r : Log × Option ErrorCode) (p : Partition)
    → IsAccounted p
    → IsAccounted (follow_leader leader_hw old r p).0
unfolding follow_leader
follow_leader-IsAccounted leader_hw old (l, some e) p a = a
follow_leader-IsAccounted leader_hw old (l, none) p a =
    raise_hw-IsAccounted leader_hw old (record p { log = l }) a

append_from_leader-IsAccounted :
    (writes : Bool) (bs : List ℕ) (epoch leader_hw : ℕ) (p : Partition)
    → IsAccounted p
    → IsAccounted (append_from_leader writes bs epoch leader_hw p).0
unfolding append_from_leader
append_from_leader-IsAccounted writes bs epoch leader_hw p a = if-both FirstIsAccounted p.closed a (
    if-both FirstIsAccounted
      (p.is_leader || is_negative_i32 p.leader_id || p.leader_id == p.local_broker_id) a
      (if-both FirstIsAccounted (ltb_i32 epoch p.leader_epoch) a (
        if-both FirstIsAccounted (ltb_i32 p.leader_epoch epoch) a (
          follow_leader-IsAccounted leader_hw (next_offset p.log) (replicate writes bs epoch p.log)
            p a))))

update_follower_leo-IsAccounted :
    (id leo : ℕ) (p : Partition) → IsAccounted p → IsAccounted (update_follower_leo id leo p)
unfolding update_follower_leo
update_follower_leo-IsAccounted id leo p a =
    maybe_advance_hw-IsAccounted (record p { isr = set_leo id leo p.isr }) a

fetch_read-IsAccounted :
    (offset replica max_bytes : ℕ) (oversized : Bool) (r : Result RawRanges) (p : Partition)
    → IsAccounted p
    → IsAccounted (fetch_read offset replica max_bytes oversized r p).0
unfolding fetch_read
fetch_read-IsAccounted offset replica max_bytes oversized (err e) p a = a
fetch_read-IsAccounted offset replica max_bytes oversized panicked p a = a
fetch_read-IsAccounted offset replica max_bytes oversized exhausted p a = a
fetch_read-IsAccounted offset replica max_bytes oversized (ok r) p a =
    if-both IsAccounted (not (is_negative_i32 replica))
      (update_follower_leo-IsAccounted replica offset p a) a

fetch_raw_ranges-IsAccounted :
    (offset replica max_bytes : ℕ) (oversized : Bool) (p : Partition)
    → IsAccounted p
    → IsAccounted (fetch_raw_ranges offset replica max_bytes oversized p).0
unfolding fetch_raw_ranges
fetch_raw_ranges-IsAccounted offset replica max_bytes oversized p a =
    if-both FirstIsAccounted p.closed a (
      if-both FirstIsAccounted (not p.is_leader) a (
        if-both FirstIsAccounted
          (ltb offset (oldest_offset p.log) || ltb (next_offset p.log) offset) a
          (if-both FirstIsAccounted
            (not (not (is_negative_i32 replica)) && leb p.high_watermark offset) a
            (if-both FirstIsAccounted (not (is_negative_i32 replica) && offset == next_offset p.log)
              (update_follower_leo-IsAccounted replica offset p a)
              (fetch_read-IsAccounted offset replica max_bytes oversized
                (read_raw_ranges p.log offset max_bytes) p a)))))

lower_hw-IsAccounted : (old : ℕ) (p : Partition) → IsAccounted p → IsAccounted (lower_hw old p)
unfolding lower_hw notify_waiters
lower_hw-IsAccounted old p a =
    if-both IsAccounted (not (next_offset p.log == old) || ltb (next_offset p.log) p.high_watermark)
      a a

truncate-IsAccounted :
    (writes : Bool) (offset : ℕ) (p : Partition)
    → IsAccounted p
    → IsAccounted (truncate writes offset p).0
unfolding truncate
truncate-IsAccounted writes offset p a = if-both FirstIsAccounted p.is_leader a (
    lower_hw-IsAccounted (next_offset p.log)
      (record p { log = (truncate_to writes p.log offset).0 }) a)

make_leader-IsAccounted :
    (writes : Bool) (epoch : ℕ) (ids : List ℕ) (hw : ℕ) (p : Partition)
    → IsAccounted p
    → IsAccounted (make_leader writes epoch ids hw p).0
unfolding make_leader notify_waiters
make_leader-IsAccounted writes epoch ids hw p a =
    if-both FirstIsAccounted (is_stale (latest_leader_epoch p.log) epoch) a (
      if-both FirstIsAccounted (assign_leader_epoch writes p.log epoch (next_offset p.log)).1 a
        (fail_purgatory-IsAccounted not_leader_or_follower p a))

update_leader_isr-IsAccounted :
    (epoch : ℕ) (ids : List ℕ) (p : Partition)
    → IsAccounted p
    → IsAccounted (update_leader_isr epoch ids p).0
unfolding update_leader_isr
update_leader_isr-IsAccounted epoch ids p a =
    let isr = map (λ id. record { broker_id = id; leo = previous_leo id 0 p.isr }) ids in
    if-both FirstIsAccounted
      (not p.is_leader || not (p.leader_epoch == epoch) || not (p.leader_id == p.local_broker_id)) a
      (maybe_advance_hw-IsAccounted (record p { isr = isr }) a)

make_follower-IsAccounted :
    (epoch leader : ℕ) (p : Partition) → IsAccounted p → IsAccounted (make_follower epoch leader p)
unfolding make_follower notify_waiters
make_follower-IsAccounted epoch leader p a = fail_purgatory-IsAccounted not_leader_or_follower p a

make_unassigned-IsAccounted : (p : Partition) → IsAccounted p → IsAccounted (make_unassigned p)
unfolding make_unassigned notify_waiters
make_unassigned-IsAccounted p a = fail_purgatory-IsAccounted not_leader_or_follower p a

close_partition-IsAccounted :
    (closes : Bool) (p : Partition) → IsAccounted p → IsAccounted (close_partition closes p).0
unfolding close_partition notify_waiters
close_partition-IsAccounted closes p a =
    if-both FirstIsAccounted p.closed a (fail_purgatory-IsAccounted storage_error p a)

run-IsAccounted : (op : Operation) (p : Partition) → IsAccounted p → IsAccounted (run op p)
unfolding run
run-IsAccounted (append_op bs acks) p a = append_records-IsAccounted bs acks p a
run-IsAccounted (replicate_op writes bs epoch hw) p a =
    append_from_leader-IsAccounted writes bs epoch hw p a
run-IsAccounted (fetch_op offset replica max_bytes oversized) p a =
    fetch_raw_ranges-IsAccounted offset replica max_bytes oversized p a
run-IsAccounted (truncate_op writes offset) p a = truncate-IsAccounted writes offset p a
run-IsAccounted (lead_op writes epoch ids hw) p a = make_leader-IsAccounted writes epoch ids hw p a
run-IsAccounted (isr_op epoch ids) p a = update_leader_isr-IsAccounted epoch ids p a
run-IsAccounted (follow_op epoch leader) p a = make_follower-IsAccounted epoch leader p a
run-IsAccounted unassign_op p a = make_unassigned-IsAccounted p a
run-IsAccounted (time_out_op id) p a = time_out-IsAccounted id p a
run-IsAccounted (close_op closes) p a = close_partition-IsAccounted closes p a

module _ (Allowed : Operation → Partition → Type 0) where
  Reaches-IsAccounted : (p q : Partition) → Reaches Allowed p q → IsAccounted p → IsAccounted q
  Reaches-IsAccounted p _ start a = a
  Reaches-IsAccounted p _ (step q op r h) a = run-IsAccounted op q (Reaches-IsAccounted p q r a)

  -- In every state that a new partition reaches by whole calls of AppendRaw, AppendFromLeader,
  -- FetchRawRanges, TruncateTo, MakeLeader, UpdateLeaderISR, MakeFollower, MakeUnassigned and Close
  -- and by the end of a producer's context, under any condition on the calls, the heap is sorted,
  -- each waiting producer that was ever made either waits there or has been answered, once, and no
  -- other waits or has been answered.
  pub new_partition-IsAccounted :
      (local : ℕ) (l : Log) (q : Partition)
      → Reaches Allowed (new_partition local l) q
      → IsAccounted q
  unfolding new_partition
  new_partition-IsAccounted local l q r =
      Reaches-IsAccounted (new_partition local l) q r (tt, λ id. ground arith)
