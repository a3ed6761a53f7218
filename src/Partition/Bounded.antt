-- ===== src/Partition/Bounded.antt =====
-- internal/broker: each call of a partition keeps its log in one row and the high watermark within it.
use distributed_messaging_sy.Common.{
  ℕ, ◌≤◌, sym, subst, Bool, not, ◌||◌, ◌&&◌, Option, none, some, List, [], ◌∷◌, arith, leb, ltb,
  ◌==◌, if◌then◌else◌, map, if-both, is_empty, is_negative_i32, ltb_i32, length,
}
use distributed_messaging_sy.Segment.Batches.{Result, ok, err, panicked, exhausted}
use distributed_messaging_sy.Segment.Reading.{RawRanges}
use distributed_messaging_sy.Log.State.{SegmentPair, Log, oldest_offset, next_offset}
use distributed_messaging_sy.Log.Joined.{IsLog, AreJoined, base-le-next}
use distributed_messaging_sy.Log.Epochs.{
  assign_leader_epoch, assign_leader_epochs, latest_leader_epoch,
}
use distributed_messaging_sy.Log.Epochs.Frame.{
  HasSegments, HasSegments-IsLog, assign_leader_epochs-HasSegments,
}
use distributed_messaging_sy.Log.Raw.{append_raw, append_replica_raw, read_raw_ranges}
use distributed_messaging_sy.Log.Raw.Keeps.Leader.{append_raw-IsAppended}
use distributed_messaging_sy.Log.Raw.Keeps.Replica.{append_replica_raw-IsReplicated}
use distributed_messaging_sy.Log.Truncation.{truncate_to}
use distributed_messaging_sy.Partition.{
  Partition, ErrorCode, Acks, previous_leo, set_leo, notify_waiters, fail_purgatory, is_stale,
  maybe_advance_hw, make_leader, update_leader_isr,
}
use distributed_messaging_sy.Partition.Watermark.{
  IsSound, maybe_advance_hw-IsAdvance, maybe_advance_hw-IsSound,
}
use distributed_messaging_sy.Partition.Serving.{
  AppendResult, appended, append_refused, is_all, is_unknown, append_logged, append_locked,
  append_finish, append_records, replicated, replicate, raise_hw, follow_leader, append_from_leader,
  update_follower_leo, fetch_read, fetch_raw_ranges, lower_hw, truncate,
}

-- The segments of the log are one row of whole batches, and the high watermark is within them.
pub record IsBounded (p : Partition) : Type 0 where
  pub log : IsLog p.log
  pub within : IsSound p

-- The same of the state that a call returns with its result.
abbrev FirstIsBounded : {Result : Type 0} → Partition × Result → Type 0
FirstIsBounded r = IsBounded r.0

joined-le : (from end : ℕ) (ps : List SegmentPair) → AreJoined from ps end → from ≤ end
joined-le from end [] h = omega arith
joined-le from end (p ∷ ps) (based, sound, j) =
    omega (arith, based, base-le-next sound, joined-le p.segment.next_offset end ps j)

-- A sound log starts before its end.
pub oldest-le-next : (l : Log) → IsLog l → oldest_offset l ≤ next_offset l
unfolding next_offset
oldest-le-next l h = omega (
  arith,
  joined-le (oldest_offset l) l.active.segment.base_offset l.sealed h.joined,
  base-le-next h.active,
)

-- A log that has grown, with the same high watermark.
grown :
    (p : Partition) (l : Log)
    → IsBounded p
    → IsLog l
    → next_offset p.log ≤ next_offset l
    → IsBounded (record p { log = l })
grown p l h sound grows = record { log = sound; within = omega (arith, h.within, grows) }

maybe_advance_hw-IsBounded : (p : Partition) → IsBounded p → IsBounded (maybe_advance_hw p)
maybe_advance_hw-IsBounded p h = record {
  log = subst IsLog (sym (maybe_advance_hw-IsAdvance p).same_log) h.log;
  within = maybe_advance_hw-IsSound p h.within;
}

append_logged-IsBounded :
    (acks : Acks) (l : Log) (r : Result (ℕ × ℕ)) (p : Partition)
    → IsBounded (record p { log = l })
    → IsBounded (append_logged acks l r p).0
unfolding append_logged notify_waiters
append_logged-IsBounded acks l (err e) p h = h
append_logged-IsBounded acks l panicked p h = h
append_logged-IsBounded acks l exhausted p h = h
append_logged-IsBounded acks l (ok (offset, delta)) p h =
    if-both FirstIsBounded (is_all acks) (record { log = h.log; within = h.within })
      (record { log = h.log; within = h.within })

append_locked-IsBounded :
    (bs : List ℕ) (acks : Acks) (p : Partition)
    → IsBounded p
    → IsBounded (append_locked bs acks p).0
unfolding append_locked
append_locked-IsBounded bs acks p h =
    let kept = append_raw-IsAppended p.log bs p.leader_epoch h.log in
    let res = append_raw p.log bs p.leader_epoch in
    if-both FirstIsBounded p.closed h (
      if-both FirstIsBounded (not p.is_leader) h
        (append_logged-IsBounded acks res.0 res.1 p (grown p res.0 h kept.sound kept.grows)))

append_finish-IsBounded :
    (r : Partition × AppendResult) → IsBounded r.0 → IsBounded (append_finish r).0
unfolding append_finish
append_finish-IsBounded (p, append_refused e) h = h
append_finish-IsBounded (p, appended offset entry) h = maybe_advance_hw-IsBounded p h

pub append_records-IsBounded :
    (bs : List ℕ) (acks : Acks) (p : Partition)
    → IsBounded p
    → IsBounded (append_records bs acks p).0
unfolding append_records
append_records-IsBounded bs acks p h = if-both FirstIsBounded (not p.is_leader) h (
    if-both FirstIsBounded p.closed h (
      if-both FirstIsBounded (ltb (length bs) 61) h (
        if-both FirstIsBounded (is_unknown acks) h (
          append_finish-IsBounded (append_locked bs acks p)
            (append_locked-IsBounded bs acks p h)))))

raise_hw-IsBounded :
    (leader_hw old : ℕ) (p : Partition) → IsBounded p → IsBounded (raise_hw leader_hw old p)
unfolding raise_hw notify_waiters
raise_hw-IsBounded leader_hw old p h =
    let leo = next_offset p.log in
    let candidate = if ltb leo leader_hw then leo else leader_hw in
    let raised = if ltb p.high_watermark candidate then candidate else p.high_watermark in
    let low : raised ≤ leo = ground (arith, h.within) in
    let k : IsBounded (record p { high_watermark = raised }) = record {
      log = h.log;
      within = low;
    } in
    if-both IsBounded (not (leo == old) || not (raised == p.high_watermark))
      (record { log = h.log; within = low }) k

follow_leader-IsBounded :
    (leader_hw old : ℕ) (r : Log × Option ErrorCode) (p : Partition)
    → IsBounded (record p { log = r.0 })
    → IsBounded (follow_leader leader_hw old r p).0
unfolding follow_leader
follow_leader-IsBounded leader_hw old (l, some e) p h = h
follow_leader-IsBounded leader_hw old (l, none) p h =
    raise_hw-IsBounded leader_hw old (record p { log = l }) h

abbrev Grows : {Result : Type 0} → Log → Log × Result → Type 0
Grows l r = IsLog r.0 × (next_offset l ≤ next_offset r.0)

replicated-Grows : (l : Log) (res : Log × Result ℕ) → Grows l res → Grows l (replicated res)
unfolding replicated
replicated-Grows l (l', ok n) k = k
replicated-Grows l (l', err e) k = k
replicated-Grows l (l', panicked) k = k
replicated-Grows l (l', exhausted) k = k

replicate-Grows :
    (writes : Bool) (bs : List ℕ) (epoch : ℕ) (l : Log)
    → IsLog l
    → Grows l (replicate writes bs epoch l)
unfolding replicate
replicate-Grows writes bs epoch l h =
    let kept = append_replica_raw-IsReplicated writes l bs epoch h in
    if-both (λ (r : Log × Option ErrorCode). Grows l r) (is_empty bs) (h, omega arith)
      (replicated-Grows l (append_replica_raw writes l bs epoch) (kept.sound, kept.grows))

pub append_from_leader-IsBounded :
    (writes : Bool) (bs : List ℕ) (epoch leader_hw : ℕ) (p : Partition)
    → IsBounded p
    → IsBounded (append_from_leader writes bs epoch leader_hw p).0
unfolding append_from_leader
append_from_leader-IsBounded writes bs epoch leader_hw p h =
    let res = replicate writes bs epoch p.log in
    let (sound, grows) = replicate-Grows writes bs epoch p.log h.log in
    if-both FirstIsBounded p.closed h (
      if-both FirstIsBounded
        (p.is_leader || is_negative_i32 p.leader_id || p.leader_id == p.local_broker_id) h
        (if-both FirstIsBounded (ltb_i32 epoch p.leader_epoch) h (
          if-both FirstIsBounded (ltb_i32 p.leader_epoch epoch) h (
            follow_leader-IsBounded leader_hw (next_offset p.log) res p
              (grown p res.0 h sound grows)))))

update_follower_leo-IsBounded :
    (id leo : ℕ) (p : Partition) → IsBounded p → IsBounded (update_follower_leo id leo p)
unfolding update_follower_leo
update_follower_leo-IsBounded id leo p h =
    maybe_advance_hw-IsBounded (record p { isr = set_leo id leo p.isr })
      (record { log = h.log; within = h.within })

fetch_read-IsBounded :
    (offset replica max_bytes : ℕ) (oversized : Bool) (r : Result RawRanges) (p : Partition)
    → IsBounded p
    → IsBounded (fetch_read offset replica max_bytes oversized r p).0
unfolding fetch_read
fetch_read-IsBounded offset replica max_bytes oversized (err e) p h = h
fetch_read-IsBounded offset replica max_bytes oversized panicked p h = h
fetch_read-IsBounded offset replica max_bytes oversized exhausted p h = h
fetch_read-IsBounded offset replica max_bytes oversized (ok r) p h =
    if-both IsBounded (not (is_negative_i32 replica))
      (update_follower_leo-IsBounded replica offset p h) h

pub fetch_raw_ranges-IsBounded :
    (offset replica max_bytes : ℕ) (oversized : Bool) (p : Partition)
    → IsBounded p
    → IsBounded (fetch_raw_ranges offset replica max_bytes oversized p).0
unfolding fetch_raw_ranges
fetch_raw_ranges-IsBounded offset replica max_bytes oversized p h =
    if-both FirstIsBounded p.closed h (
      if-both FirstIsBounded (not p.is_leader) h (
        if-both FirstIsBounded (ltb offset (oldest_offset p.log) || ltb (next_offset p.log) offset)
          h
          (if-both FirstIsBounded
            (not (not (is_negative_i32 replica)) && leb p.high_watermark offset) h
            (if-both FirstIsBounded (not (is_negative_i32 replica) && offset == next_offset p.log)
              (update_follower_leo-IsBounded replica offset p h)
              (fetch_read-IsBounded offset replica max_bytes oversized
                (read_raw_ranges p.log offset max_bytes) p h)))))

lower_hw-IsBounded : (old : ℕ) (p : Partition) → IsLog p.log → IsBounded (lower_hw old p)
unfolding lower_hw notify_waiters
lower_hw-IsBounded old p h =
    let low : (if ltb (next_offset p.log) p.high_watermark
          then next_offset p.log
          else p.high_watermark)
        ≤ next_offset p.log =
      ground arith in
    if-both IsBounded (not (next_offset p.log == old) || ltb (next_offset p.log) p.high_watermark)
      (record { log = h; within = low }) (record { log = h; within = low })

-- Here the log behind its truncation is sound again.
pub truncate-IsBounded :
    (writes : Bool) (offset : ℕ) (p : Partition)
    → IsLog (truncate_to writes p.log offset).0
    → IsBounded p
    → IsBounded (truncate writes offset p).0
unfolding truncate
truncate-IsBounded writes offset p sound h = if-both FirstIsBounded p.is_leader h (
    lower_hw-IsBounded (next_offset p.log) (record p { log = (truncate_to writes p.log offset).0 })
      sound)

assign_leader_epoch-HasSegments :
    (writes : Bool) (l : Log) (epoch offset : ℕ)
    → HasSegments l (assign_leader_epoch writes l epoch offset).0
unfolding assign_leader_epoch assign_leader_epochs
assign_leader_epoch-HasSegments writes l epoch offset =
    assign_leader_epochs-HasSegments writes (record { epoch = epoch; start_offset = offset } ∷ []) l

pub make_leader-IsBounded :
    (writes : Bool) (epoch : ℕ) (isr : List ℕ) (hw : ℕ) (p : Partition)
    → hw ≤ next_offset p.log
    → IsBounded p
    → IsBounded (make_leader writes epoch isr hw p).0
unfolding make_leader fail_purgatory notify_waiters
make_leader-IsBounded writes epoch isr hw p low h =
    let res = assign_leader_epoch writes p.log epoch (next_offset p.log) in
    let (sound, oldest, same) =
      HasSegments-IsLog p.log res.0
        (assign_leader_epoch-HasSegments writes p.log epoch (next_offset p.log)) h.log in
    if-both FirstIsBounded (is_stale (latest_leader_epoch p.log) epoch) h (
      if-both FirstIsBounded res.1 (record { log = sound; within = omega (arith, low, same) })
        (record { log = sound; within = omega (arith, h.within, same) }))

pub update_leader_isr-IsBounded :
    (epoch : ℕ) (ids : List ℕ) (p : Partition)
    → IsBounded p
    → IsBounded (update_leader_isr epoch ids p).0
unfolding update_leader_isr
update_leader_isr-IsBounded epoch ids p h =
    if-both FirstIsBounded
      (not p.is_leader || not (p.leader_epoch == epoch) || not (p.leader_id == p.local_broker_id)) h
      (maybe_advance_hw-IsBounded
        (record p {
          isr = map (λ id. record { broker_id = id; leo = previous_leo id 0 p.isr }) ids;
        })
        (record { log = h.log; within = h.within }))
