-- ===== src/Log/Raw.antt =====
-- internal/log/log_raw.go: AppendRaw, AppendReplicaRaw, ReadRaw and ReadRawRanges. An append returns
-- the log as it stands behind the call, also where the call fails.
pub mod Keeps
pub mod Owners
pub mod Reads
use distributed_messaging_sy.Common.{
  ℕ, zero, suc, ◌+◌, ◌-◌, ◌%◌, ◌^◌, Bool, true, false, not, ◌&&◌, ◌||◌, Option, none, some, List,
  [], ◌∷◌, ◌++◌, length, take, ltb, leb, ◌==◌, if◌then◌else◌, ltb_i32,
}
use distributed_messaging_sy.Epoch.{EpochEntry}
use distributed_messaging_sy.OffsetIndex.{
  Lookup, below_base, panicked as lookup_panicked, file_position, lookup_position,
}
use distributed_messaging_sy.Segment.Batches.{
  Result, ok, err, panicked, exhausted, other, segment_full, corrupt_batch, message_too_large,
  unexpected_append_offset, LogError, ◌>>=◌, BatchBounds, scan_raw_batches,
}
use distributed_messaging_sy.Segment.State.{Segment}
use distributed_messaging_sy.Segment.Writing.{Appended, append_raw_batches, append_replica_batches}
use distributed_messaging_sy.Segment.Reading.{
  BatchMeta, read_batch_meta_at, read_raw_batch_at, RawRanges, read_raw_ranges_at,
}
use distributed_messaging_sy.Log.State.{
  SegmentPair, Log, next_offset, Target, missing, in_active, in_sealed, find_segment,
}
use distributed_messaging_sy.Log.Pairs.{note_entry, roll, roll_if_full}
use distributed_messaging_sy.Log.Epochs.{assign_leader_epochs}

-- The active pair behind a successful append of `n` bytes: its counter, and the index entry if one
-- is due.
unfoldable pub note_append : Log → Appended → ℕ → Log × Result Appended
note_append l a n =
    let bytes = l.active.bytes_since_index + n in
    elim (note_entry l.active.index l.config.index_interval_bytes a.base_offset a.pos bytes) [
      | none ↦ (
        record l { active = record l.active { segment = a.segment; bytes_since_index = bytes } },
        err other,
      )
      | some (idx, left) ↦ (
        record l { active = record { segment = a.segment; index = idx; bytes_since_index = left } },
        ok a,
      )
    ]

unfoldable pub finish_append : Log → ℕ → Result Appended → Log × Result Appended
finish_append l n (ok a) = note_append l a n
finish_append l n (err e) = (l, err e)
finish_append l n panicked = (l, panicked)
finish_append l n exhausted = (l, exhausted)

-- A segment that is full is rolled, and the append is made once more.
unfoldable pub retry_full :
    Log → ℕ → (Segment → Result Appended) → Result Appended → Log × Result Appended
retry_full l n append (err segment_full) = elim (roll l) [
  | ok l' ↦ finish_append l' n (append l'.active.segment)
  | err e ↦ (l, err e)
  | panicked ↦ (l, panicked)
  | exhausted ↦ (l, exhausted)
]
retry_full l n append r = finish_append l n r

-- What AppendRaw and AppendReplicaRaw do with their bytes, `append` being the call of the segment.
unfoldable pub append_to_active : Log → ℕ → (Segment → Result Appended) → Log × Result Appended
append_to_active l n append = elim (roll_if_full l) [
  | ok l' ↦ retry_full l' n append (append l'.active.segment)
  | err e ↦ (l, err e)
  | panicked ↦ (l, panicked)
  | exhausted ↦ (l, exhausted)
]

unfoldable pub any_too_large : ℕ → List BatchBounds → Bool
any_too_large max [] = false
any_too_large max (b ∷ bounds) = ltb max b.size || any_too_large max bounds

-- scanRawBatches, with the refusal of no batches.
unfoldable pub scan_some : List ℕ → Result (List BatchBounds)
scan_some bs = scan_raw_batches bs >>= λ bounds. elim bounds [
  | [] ↦ err corrupt_batch
  | b ∷ rest ↦ ok (b ∷ rest)
]

-- The checks of AppendRaw before the lock is taken.
unfoldable pub check_sizes : ℕ → List BatchBounds → Result (List BatchBounds)
unfolding any_too_large
check_sizes max bounds = if any_too_large max bounds then err message_too_large else ok bounds

-- `assignedOffset, uint32(totalRecords - 1)`
unfoldable pub last_delta : Result Appended → Result (ℕ × ℕ)
last_delta r = r >>= λ a. ok (a.base_offset, (a.records + 2 ^ 64 - 1) % 2 ^ 32)

-- AppendRaw
unfoldable pub append_raw : Log → List ℕ → ℕ → Log × Result (ℕ × ℕ)
append_raw l bs epoch = elim (scan_some bs >>= check_sizes l.config.max_message_bytes) [
  | ok bounds ↦
      let (l', r) = append_to_active l (length bs) (λ s. append_raw_batches s bs bounds epoch) in
      (l', last_delta r)
  | err e ↦ (l, err e)
  | panicked ↦ (l, panicked)
  | exhausted ↦ (l, exhausted)
]

-- The batches before the first of a newer epoch than the fetch, and the number of their bytes.
unfoldable pub accepted : ℕ → ℕ → List BatchBounds → List BatchBounds × ℕ
accepted fetch_epoch all [] = ([], all)
accepted fetch_epoch all (b ∷ bounds) =
    let (kept, bytes) = accepted fetch_epoch all bounds in
    if ltb_i32 fetch_epoch b.leader_epoch then ([], b.offset) else (b ∷ kept, bytes)

-- The loop over the accepted batches behind `prev`: the changes of epoch.
unfoldable pub check_after : BatchBounds → List BatchBounds → Result (List EpochEntry)
check_after prev [] = ok []
check_after prev (b ∷ bounds) =
    let rest = check_after b bounds in
    let expected = (prev.base_offset + (prev.last_offset_delta + 1)) % 2 ^ 64 in
    if not (b.base_offset == expected)
    then err unexpected_append_offset
    else if ltb_i32 b.leader_epoch prev.leader_epoch
    then err corrupt_batch
    else rest >>= λ transitions. ok (
        if b.leader_epoch == prev.leader_epoch
        then transitions
        else record { epoch = b.leader_epoch; start_offset = b.base_offset } ∷ transitions)

unfoldable pub check_accepted : ℕ → List BatchBounds → Result (List EpochEntry)
check_accepted leo [] = ok []
check_accepted leo (first ∷ bounds) =
    if not (first.base_offset == leo)
    then err unexpected_append_offset
    else check_after first bounds >>= λ transitions.
        ok (record { epoch = first.leader_epoch; start_offset = first.base_offset } ∷ transitions)

-- AppendReplicaRaw behind its checks.
unfoldable pub append_accepted :
    Bool → Log → List ℕ → List BatchBounds → List EpochEntry → Log × Result ℕ
unfolding append_to_active
append_accepted writes l bs bounds transitions =
    let (l', persisted) = assign_leader_epochs writes transitions l in
    if not persisted
    then (l', err other)
    else let (l'', r) = append_to_active l' (length bs) (λ s. append_replica_batches s bs bounds) in
      (l'', r >>= λ a. ok a.records)

unfoldable pub replica_bounds : Bool → Log → List ℕ → List BatchBounds × ℕ → Log × Result ℕ
replica_bounds writes l bs ([], bytes) = (l, ok 0)
replica_bounds writes l bs (b ∷ bounds, bytes) =
    elim (check_accepted (next_offset l) (b ∷ bounds)) [
      | ok transitions ↦ append_accepted writes l (take bytes bs) (b ∷ bounds) transitions
      | err e ↦ (l, err e)
      | panicked ↦ (l, panicked)
      | exhausted ↦ (l, exhausted)
    ]

-- AppendReplicaRaw
unfoldable pub append_replica_raw : Bool → Log → List ℕ → ℕ → Log × Result ℕ
append_replica_raw writes l bs fetch_epoch = elim (scan_some bs) [
  | ok bounds ↦ replica_bounds writes l bs (accepted fetch_epoch (length bs) bounds)
  | err e ↦ (l, err e)
  | panicked ↦ (l, panicked)
  | exhausted ↦ (l, exhausted)
]

-- The loop of ReadRaw and ReadRawRanges, on fuel: the position of the batch that has the offset.
unfoldable pub seek_batch : ℕ → Segment → ℕ → ℕ → Result ℕ
seek_batch zero s offset file_pos = exhausted
seek_batch (suc fuel) s offset file_pos = read_batch_meta_at s file_pos >>= λ m.
    let batch_end = (m.first_offset + m.last_offset_delta) % 2 ^ 64 in
    elim (leb m.first_offset offset && leb offset batch_end) [
      | true ↦ ok file_pos
      | false ↦ elim (ltb offset m.first_offset || leb s.current_size (file_pos + m.on_disk_size)) [
        | true ↦ err other
        | false ↦ seek_batch fuel s offset (file_pos + m.on_disk_size)
      ]
    ]

unfoldable pub seek_in : SegmentPair → ℕ → Result ℕ
unfolding seek_batch
seek_in p offset = elim (lookup_position p.index offset) [
  | below_base ↦ err other
  | lookup_panicked ↦ panicked
  | file_position pos ↦ seek_batch (suc p.segment.current_size) p.segment offset pos
]

unfoldable pub target_pair : Log → Target → Option SegmentPair
target_pair l missing = none
target_pair l in_active = some l.active
target_pair l (in_sealed before p after) = some p

-- ReadRaw
unfoldable pub read_raw : Log → ℕ → ℕ → Result (List ℕ × ℕ)
unfolding target_pair seek_in
read_raw l offset max_bytes = elim (target_pair l (find_segment l.sealed l.active offset)) [
  | none ↦ err other
  | some p ↦ seek_in p offset >>= λ pos. read_raw_batch_at p.segment pos max_bytes
]

-- ReadRawRanges
unfoldable pub read_raw_ranges : Log → ℕ → ℕ → Result RawRanges
unfolding target_pair seek_in
read_raw_ranges l offset max_bytes = elim (target_pair l (find_segment l.sealed l.active offset)) [
  | none ↦ err other
  | some p ↦ seek_in p offset >>= λ pos. read_raw_ranges_at p.segment pos max_bytes
]
