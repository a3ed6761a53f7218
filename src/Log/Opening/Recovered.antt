-- ===== src/Log/Opening/Recovered.antt =====
-- internal/log/epoch_recovery.go: RecoverEpochCache on a log of sound segments.
use distributed_messaging_sy.Common.{
  ℕ, ◌+◌, ◌≤◌, ◌≡◌, ◌≢◌, refl, ap, ◌∙◌, Bool, true, false, ◌&&◌, ◌||◌, not, Bool-cases, inl, inr,
  none, some, List, [], ◌∷◌, ◌++◌, arith, ltb, is_empty, All,
}
use distributed_messaging_sy.Epoch.{
  EpochEntry, replay_epoch_entries, epoch_entries_equal, truncate_after,
}
use distributed_messaging_sy.Epoch.Order.{
  IsAscending, replay_epoch_entries-IsAscending, replay_epoch_entries-ascending,
}
use distributed_messaging_sy.Epoch.Truncation.{
  starting_below, truncate_from_end-below, truncate_after-from_end, starting_below-IsAscending,
}
use distributed_messaging_sy.Segment.Batches.{ok}
use distributed_messaging_sy.Log.State.{Log, next_offset}
use distributed_messaging_sy.Log.Opening.{
  scan_epoch_history, replay_until, is_repaired, rewrite_checkpoint, scanned_cache,
  recover_epoch_cache,
}
use distributed_messaging_sy.Log.Opening.Scans.{
  HasEpoch, AreSound, scan_pairs-some, replay_from-some,
}

truncate_after-below :
    (leo : ℕ) (es : List EpochEntry)
    → IsAscending es
    → (truncate_after es leo).0 ≡ starting_below (leo + 1) es
truncate_after-below leo es h =
    ap (λ r. r.0) (truncate_after-from_end es leo h) ∙ (truncate_from_end-below es (leo + 1) h).0

starting_below-inside :
    (leo : ℕ) (es : List EpochEntry) → All (λ e. e.start_offset ≤ leo) (starting_below (leo + 1) es)
unfolding starting_below
starting_below-inside leo [] = tt
starting_below-inside leo (e ∷ es) = elim (Bool-cases (ltb e.start_offset (leo + 1))) [
  | inl low ↦ rw (low, starting_below) (ground (arith, low), starting_below-inside leo es)
  | inr high ↦ rw (high, starting_below) (starting_below-inside leo es)
]

-- An ascending checkpoint is replayed as it is.
replay_until-ascending :
    (leo : ℕ) (es : List EpochEntry)
    → IsAscending es
    → (replay_until leo es ≡ ok (starting_below (leo + 1) es)) × (is_repaired es ≡ false)
unfolding replay_until is_repaired
replay_until-ascending leo es h =
    let (same, equal) = replay_epoch_entries-ascending es h in
    let cut = truncate_after-below leo es h in
    (ground (arith, same, cut), ground (arith, same, equal))

replay_until-some :
    (leo : ℕ) (es : List EpochEntry)
    → All HasEpoch es
    → (cache : List EpochEntry) × IsAscending cache
      × (replay_until leo es ≡ ok (starting_below (leo + 1) cache))
unfolding replay_until replay_epoch_entries
replay_until-some leo es h =
    let (cache, e) = replay_from-some [] es h in
    let up = replay_epoch_entries-IsAscending es e in
    let cut = truncate_after-below leo cache up in (cache, up, ground (arith, e, cut))

epoch_entries_equal-eq : (es fs : List EpochEntry) → epoch_entries_equal es fs ≡ true → es ≡ fs
unfolding epoch_entries_equal
epoch_entries_equal-eq [] [] h = refl
epoch_entries_equal-eq [] (f ∷ fs) h = absurd (ground arith)
epoch_entries_equal-eq (e ∷ es) [] h = absurd (ground arith)
epoch_entries_equal-eq (e ∷ es) (f ∷ fs) h =
    let same = epoch_entries_equal-eq es fs (ground (arith, h)) in
    let epochs : e.epoch ≡ f.epoch = ground (arith, h) in
    let starts : e.start_offset ≡ f.start_offset = ground (arith, h) in cc

-- The log with the recovered cache, whose checkpoint agrees with it.
abbrev pub recovered : Log → List EpochEntry → Log
recovered l entries = record l {
  epoch_entries = entries;
  epoch_checkpoint = entries;
  epoch_checkpoint_dirty = false;
}

rewrite_checkpoint-recovered :
    (used_scan : Bool) (loaded normalized : List EpochEntry) (l : Log)
    → rewrite_checkpoint true used_scan loaded normalized l ≡ ok (recovered l normalized)
unfolding rewrite_checkpoint
rewrite_checkpoint-recovered used_scan loaded normalized l =
    elim (Bool-cases (used_scan || not (epoch_entries_equal loaded normalized))) [
      | inl write ↦ ground (arith, write)
      | inr equal ↦
          let same = epoch_entries_equal-eq loaded normalized (ground (arith, equal)) in
          ground (arith, equal, same)
    ]

scanned_cache-some :
    (l : Log)
    → AreSound (l.sealed ++ (l.active ∷ []))
    → (cache : List EpochEntry) × IsAscending cache
      × (scanned_cache l ≡ ok (starting_below (next_offset l + 1) cache))
unfolding scanned_cache scan_epoch_history
scanned_cache-some l sound =
    let (es, scanned, ok_epochs) =
      scan_pairs-some (l.sealed ++ (l.active ∷ [])) (record { entries = []; last_epoch = none })
        sound tt in
    let (cache, up, replayed) = replay_until-some (next_offset l) es ok_epochs in
    (cache, up, ground (arith, scanned, replayed))

-- What RecoverEpochCache makes of the checkpoint `loaded`.
pub record IsRecovered (l : Log) (loaded entries : List EpochEntry) : Type 0 where
  pub ascending : IsAscending entries
  pub inside : All (λ e. e.start_offset ≤ next_offset l) entries
  pub kept :
      starting_below (next_offset l + 1) loaded ≢ []
      → entries ≡ starting_below (next_offset l + 1) loaded

starting_below-IsRecovered :
    (l : Log) (loaded cache : List EpochEntry)
    → IsAscending cache
    → (starting_below (next_offset l + 1) loaded ≢ []
        → starting_below (next_offset l + 1) cache ≡ starting_below (next_offset l + 1) loaded)
    → IsRecovered l loaded (starting_below (next_offset l + 1) cache)
starting_below-IsRecovered l loaded cache up k = record {
  ascending = starting_below-IsAscending (next_offset l + 1) cache up;
  inside = starting_below-inside (next_offset l) cache;
  kept = k;
}

nothing_kept : (es : List EpochEntry) → is_empty es ≡ true → es ≡ []
nothing_kept [] h = refl
nothing_kept (e ∷ es) h = absurd (ground arith)

-- RecoverEpochCache on a log of sound segments, where the checkpoint that it reads is ascending and
-- can be written: it returns, and its cache agrees with the checkpoint, is ascending and has no
-- entry behind the end of the log. It has the loaded entries up to that end, if there are any.
pub recover_epoch_cache-IsRecovered :
    (l : Log) (loaded : List EpochEntry)
    → AreSound (l.sealed ++ (l.active ∷ []))
    → IsAscending loaded
    → (entries : List EpochEntry) × (recover_epoch_cache true (some loaded) l
        ≡ ok (recovered l entries))
      × IsRecovered l loaded entries
unfolding recover_epoch_cache
recover_epoch_cache-IsRecovered l loaded sound up =
    let leo = next_offset l in
    let cut = starting_below (leo + 1) loaded in
    let (replayed, whole) = replay_until-ascending leo loaded up in
    elim (Bool-cases (ltb 0 leo && (is_repaired loaded || is_empty cut))) [
      | inr no_scan ↦
          let rewritten = rewrite_checkpoint-recovered false loaded cut l in
          (
            cut,
            ground (arith, replayed, no_scan, rewritten),
            starting_below-IsRecovered l loaded loaded up (λ some_kept. refl),
          )
      | inl scan ↦
          let (cache, cache_up, scanned) = scanned_cache-some l sound in
          let rewritten =
            rewrite_checkpoint-recovered true loaded (starting_below (leo + 1) cache) l in
          let empty : cut ≡ [] = nothing_kept cut (ground (arith, scan, whole)) in
          (
            starting_below (leo + 1) cache,
            ground (arith, replayed, scan, scanned, rewritten),
            starting_below-IsRecovered l loaded cache cache_up
                (λ some_kept. absurd (some_kept empty)),
          )
    ]
