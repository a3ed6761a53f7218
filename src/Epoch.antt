-- ===== src/Epoch.antt =====
-- internal/log/epoch_cache.go: the leader epoch cache, and replayEpochEntries and
-- epochEntriesEqual of internal/log/epoch_recovery.go.
-- The entries are the slice `entries` of the cache, oldest first. An epoch is an int32, a start
-- offset a uint64. The lock makes each operation one step.
pub mod Order
pub mod Truncation
mod Examples
pub mod Lookup
use distributed_messaging_sy.Common.{
  ℕ, Bool, true, false, ◌&&◌, ◌||◌, Option, none, some, List, [], ◌∷◌, ◌++◌, ltb, leb, ◌==◌, length,
  if◌then◌else◌, ltb_i32, leb_i32, is_negative_i32,
}

pub record EpochEntry : Type 0 where
  pub epoch : ℕ
  pub start_offset : ℕ

pub record EpochEndOffset : Type 0 where
  pub end_epoch : ℕ
  pub end_offset : ℕ

-- `entries[n-1]`
unfoldable pub last_entry : EpochEntry → List EpochEntry → EpochEntry
last_entry e [] = e
last_entry e (f ∷ es) = last_entry f es

-- The loop over `cut`, with `c.entries[:cut]` as its result.
unfoldable pub keep_before : ℕ → ℕ → List EpochEntry → List EpochEntry
keep_before epoch start_offset [] = []
keep_before epoch start_offset (e ∷ es) =
    let rest = keep_before epoch start_offset es in
    if leb_i32 epoch e.epoch || leb start_offset e.start_offset then [] else e ∷ rest

-- What Assign returns: an error, or the new entries with `changed`.
pub data Assigned : Type 0 where
  negative_epoch : Assigned
  assigned : List EpochEntry → Bool → Assigned

unfoldable pub assign_entries : EpochEntry → List EpochEntry → Assigned
unfolding last_entry keep_before
assign_entries new [] = assigned (new ∷ []) true
assign_entries new (e ∷ es) =
    let last = last_entry e es in
    if new.epoch == last.epoch && leb last.start_offset new.start_offset
    then assigned (e ∷ es) false
    else if ltb_i32 last.epoch new.epoch && ltb last.start_offset new.start_offset
    then assigned ((e ∷ es) ++ (new ∷ [])) true
    else assigned (keep_before new.epoch new.start_offset (e ∷ es) ++ (new ∷ [])) true

-- Assign
unfoldable pub assign : List EpochEntry → ℕ → ℕ → Assigned
unfolding assign_entries
assign entries epoch start_offset =
    if is_negative_i32 epoch
    then negative_epoch
    else assign_entries (record { epoch = epoch; start_offset = start_offset }) entries

-- The loops over `i` of TruncateFromEnd and TruncateAfter, with `c.entries[:i]` as their result.
unfoldable pub keep_starting_before : ℕ → List EpochEntry → List EpochEntry
keep_starting_before offset [] = []
keep_starting_before offset (e ∷ es) =
    let rest = keep_starting_before offset es in if ltb e.start_offset offset then e ∷ rest else []

unfoldable pub keep_starting_by : ℕ → List EpochEntry → List EpochEntry
keep_starting_by offset [] = []
keep_starting_by offset (e ∷ es) =
    let rest = keep_starting_by offset es in if leb e.start_offset offset then e ∷ rest else []

-- The new entries, and whether a loop stopped before the end.
unfoldable pub truncate_from_end : List EpochEntry → ℕ → List EpochEntry × Bool
unfolding keep_starting_before
truncate_from_end entries offset =
    let kept = keep_starting_before offset entries in
    if length kept == length entries then (entries, false) else (kept, true)

unfoldable pub truncate_after : List EpochEntry → ℕ → List EpochEntry × Bool
unfolding keep_starting_by
truncate_after entries offset =
    let kept = keep_starting_by offset entries in
    if length kept == length entries then (entries, false) else (kept, true)

-- The loop of EpochForOffset; `found` is the pair (epoch, found) so far.
unfoldable pub epoch_for_offset_loop : ℕ → Option ℕ → List EpochEntry → Option ℕ
epoch_for_offset_loop offset found [] = found
epoch_for_offset_loop offset found (e ∷ es) =
    let rest = epoch_for_offset_loop offset (some e.epoch) es in
    if ltb offset e.start_offset then found else rest

unfoldable pub epoch_for_offset : List EpochEntry → ℕ → Option ℕ
unfolding epoch_for_offset_loop
epoch_for_offset entries offset = epoch_for_offset_loop offset none entries

-- `index_panic` is the run-time error of `c.entries[i+1]` past the end.
pub data EndOffset : Type 0 where
  absent index_panic : EndOffset
  found : EpochEndOffset → EndOffset

-- The body of the loop over `i` at the entry `e`; `later` is what the higher indices gave.
unfoldable pub scan_entry : ℕ → EpochEntry → List EpochEntry → EndOffset → EndOffset
scan_entry requested e es (found r) = found r
scan_entry requested e es index_panic = index_panic
scan_entry requested e [] absent = if leb_i32 e.epoch requested then index_panic else absent
scan_entry requested e (next ∷ es) absent =
    if leb_i32 e.epoch requested
    then found (record { end_epoch = e.epoch; end_offset = next.start_offset })
    else absent

-- The loop counts `i` down from the last index: what stands behind `e` is looked at first.
unfoldable pub scan_back : ℕ → List EpochEntry → EndOffset
unfolding scan_entry
scan_back requested [] = absent
scan_back requested (e ∷ es) = scan_entry requested e es (scan_back requested es)

-- EndOffsetFor
unfoldable pub end_offset_for : List EpochEntry → ℕ → ℕ → EndOffset
unfolding last_entry scan_back
end_offset_for [] requested leo = absent
end_offset_for (first ∷ es) requested leo =
    let last = last_entry first es in
    if is_negative_i32 requested
    then absent
    else if ltb_i32 requested first.epoch
    then found (record { end_epoch = requested; end_offset = first.start_offset })
    else if requested == last.epoch
    then found (record { end_epoch = last.epoch; end_offset = leo })
    else if ltb_i32 last.epoch requested
    then absent
    else scan_back requested (first ∷ es)

-- replayEpochEntries: Assign entry by entry, from the entries `cache`; `none` is its error.
unfoldable pub replay_from : List EpochEntry → List EpochEntry → Option (List EpochEntry)
unfolding assign
replay_from cache [] = some cache
replay_from cache (e ∷ es) = elim (assign cache e.epoch e.start_offset) [
  | negative_epoch ↦ none
  | assigned cache' changed ↦ replay_from cache' es
]

unfoldable pub replay_epoch_entries : List EpochEntry → Option (List EpochEntry)
unfolding replay_from
replay_epoch_entries = replay_from []

-- epochEntriesEqual
unfoldable pub epoch_entries_equal : List EpochEntry → List EpochEntry → Bool
epoch_entries_equal [] [] = true
epoch_entries_equal [] (b ∷ bs) = false
epoch_entries_equal (a ∷ as') [] = false
epoch_entries_equal (a ∷ as') (b ∷ bs) =
    a.epoch == b.epoch && a.start_offset == b.start_offset && epoch_entries_equal as' bs
