-- ===== src/Log/Opening/Restart.antt =====
-- internal/log: NewLog on the files that a sound log leaves in a crash.
use distributed_messaging_sy.Common.{
  ℕ, ◌*◌, ◌≤◌, ◌<◌, ◌≡◌, refl, ap, ◌∙◌, true, false, some, List, [], ◌∷◌, ◌++◌, arith, length, take,
  ◌+◌, ◌^◌, All,
}
use distributed_messaging_sy.Epoch.{EpochEntry}
use distributed_messaging_sy.Epoch.Order.{IsAscending}
use distributed_messaging_sy.Segment.Batches.{ok}
use distributed_messaging_sy.Segment.Batches.Valid.{IsBatch}
use distributed_messaging_sy.Segment.State.{Segment}
use distributed_messaging_sy.Segment.Chain.{Holds}
use distributed_messaging_sy.Log.State.{
  LogConfig, SegmentPair, Log, oldest_of, oldest_offset, next_offset,
}
use distributed_messaging_sy.Log.Joined.{IsSound, AreJoined, IsLog}
use distributed_messaging_sy.Log.Pairs.Room.{reopened, reopened-Holds}
use distributed_messaging_sy.Log.Raw.Reads.{IsIndexed}
use distributed_messaging_sy.Log.Opening.Indexed.{new_segment_pair-IsIndexed}
use distributed_messaging_sy.Log.Epochs.Frame.{HasSegments, HasSegments-IsLog}
use distributed_messaging_sy.Log.Opening.{
  SegmentFiles, or_default, apply_defaults, open_pair, open_segments, open_all, new_log,
}
use distributed_messaging_sy.Log.Opening.Scans.{AreSound}
use distributed_messaging_sy.Log.Opening.Recovered.{
  recovered, IsRecovered, recover_epoch_cache-IsRecovered,
}

-- The files of a sound segment after a crash: its last write is cut off, its index file is anything.
-- An index has room for an entry of each batch.
pub record IsCrash (config : LogConfig) (s : Segment) (f : SegmentFiles) : Type 0 where
  pub based : f.base ≡ s.base_offset
  pub batches : List (List ℕ)
  pub held : Holds s batches
  pub torn : List ℕ
  pub whole : IsBatch (length torn) torn
  pub cut : ℕ
  pub short : cut < length torn
  pub bytes : f.log_file ≡ s.file ++ take cut torn
  pub room : 12 * length batches ≤ config.max_index_bytes
  pub reach : s.next_offset ≤ s.base_offset + 2 ^ 32
  pub small : s.current_size < 2 ^ 64

-- The files of the sealed segments and, last, of the active one.
abbrev pub AreCrashed :
    LogConfig → List SegmentPair → SegmentPair → SegmentFiles → List SegmentFiles → Type 0
AreCrashed config [] active f [] = IsCrash config active.segment f
AreCrashed config [] active f (g ∷ fs) = ⊥
AreCrashed config (p ∷ ps) active f [] = ⊥
AreCrashed config (p ∷ ps) active f (g ∷ fs) =
    IsCrash config p.segment f × AreCrashed config ps active g fs

-- The same segments, opened again.
abbrev pub AreReopened : LogConfig → List SegmentPair → List SegmentPair → Type 0
AreReopened config [] [] = Unit {0}
AreReopened config [] (q ∷ qs) = ⊥
AreReopened config (p ∷ ps) [] = ⊥
AreReopened config (p ∷ ps) (q ∷ qs) =
    (q.segment ≡ reopened config p.segment) × IsIndexed q × AreReopened config ps qs

module _ (config : LogConfig) (given : 0 < config.max_index_bytes) where
  open_pair-crash :
      (s : Segment) (f : SegmentFiles)
      → IsCrash config s f
      → (q : SegmentPair) × (open_pair config f ≡ ok q)
        × (q.segment ≡ reopened config s)
        × IsIndexed q
  unfolding open_pair
  open_pair-crash s f c =
      let (q, made, same, indexed) =
        new_segment_pair-IsIndexed config s c.batches c.torn c.cut f.index_file c.held c.reach
          c.small c.whole c.short given c.room in
      (q, rw (c.bytes, c.based) made, same, indexed)

  open_segments-crash :
      (ps : List SegmentPair) (active : SegmentPair) (f : SegmentFiles) (fs : List SegmentFiles)
      → AreCrashed config ps active f fs
      → (qs : List SegmentPair) × (q : SegmentPair) × (open_segments config f fs ≡ ok (qs, q))
        × AreReopened config ps qs
        × (q.segment ≡ reopened config active.segment)
        × IsIndexed q
  unfolding open_segments
  open_segments-crash [] active f [] c =
      let (q, made, same, indexed) = open_pair-crash active.segment f c in
      ([], q, rw made, tt, same, indexed)
  open_segments-crash [] active f (g ∷ fs) c = absurd c
  open_segments-crash (p ∷ ps) active f [] c = absurd c
  open_segments-crash (p ∷ ps) active f (g ∷ fs) (c, cs) =
      let (q, made, same, indexed) = open_pair-crash p.segment f c in
      let (qs, r, opened, all, last, last_indexed) = open_segments-crash ps active g fs cs in
      (q ∷ qs, r, ground (arith, made, opened), (same, indexed, all), last, last_indexed)

  reopened-IsSound : (s s' : Segment) → s' ≡ reopened config s → IsSound s → IsSound s'
  reopened-IsSound s s' e (ps, h) = (ps, rw e (reopened-Holds config s ps h))

  AreReopened-AreJoined :
      (from end : ℕ) (ps qs : List SegmentPair)
      → AreReopened config ps qs
      → AreJoined from ps end
      → AreJoined from qs end
  AreReopened-AreJoined from end [] [] r j = j
  AreReopened-AreJoined from end [] (q ∷ qs) r j = absurd r
  AreReopened-AreJoined from end (p ∷ ps) [] r j = absurd r
  AreReopened-AreJoined from end (p ∷ ps) (q ∷ qs) (same, indexed, r) (based, sound, j) = (
    ap (λ (s : Segment). s.base_offset) same ∙ based,
    reopened-IsSound p.segment q.segment same sound,
    rw (ap (λ (s : Segment). s.next_offset) same)
        (AreReopened-AreJoined p.segment.next_offset end ps qs r j),
  )

  oldest_of-reopened :
      (ps qs : List SegmentPair) (active q : SegmentPair)
      → AreReopened config ps qs
      → q.segment ≡ reopened config active.segment
      → oldest_of q qs ≡ oldest_of active ps
  unfolding oldest_of
  oldest_of-reopened [] [] active q r e = ap (λ (s : Segment). s.base_offset) e
  oldest_of-reopened [] (_ ∷ qs) active q r e = absurd r
  oldest_of-reopened (p ∷ ps) [] active q r e = absurd r
  oldest_of-reopened (p ∷ ps) (p' ∷ qs) active q r e = ap (λ (s : Segment). s.base_offset) r.0

AreReopened-IsIndexed :
    (config : LogConfig) (ps qs : List SegmentPair) → AreReopened config ps qs → All IsIndexed qs
AreReopened-IsIndexed config [] [] r = tt
AreReopened-IsIndexed config [] (q ∷ qs) r = absurd r
AreReopened-IsIndexed config (p ∷ ps) [] r = absurd r
AreReopened-IsIndexed config (p ∷ ps) (q ∷ qs) r = (r.1, AreReopened-IsIndexed config ps qs r.2)

-- A log with the same segments, opened again.
pub record IsReopened (config : LogConfig) (l l' : Log) : Type 0 where
  pub active : l'.active.segment ≡ reopened config l.active.segment
  pub sealed : AreReopened config l.sealed l'.sealed

pub IsReopened-IsLog :
    (config : LogConfig) (l l' : Log)
    → 0 < config.max_index_bytes
    → IsReopened config l l'
    → IsLog l
    → IsLog l' × (oldest_offset l' ≡ oldest_offset l) × (next_offset l' ≡ next_offset l)
unfolding oldest_offset next_offset
IsReopened-IsLog config l l' given r h =
    let oldest =
      oldest_of-reopened config given l.sealed l'.sealed l.active l'.active r.sealed r.active in
    (
      record {
        joined =
            rw (oldest, ap (λ (s : Segment). s.base_offset) r.active)
              (AreReopened-AreJoined config given (oldest_of l.active l.sealed)
                l.active.segment.base_offset l.sealed l'.sealed r.sealed h.joined);
        active = reopened-IsSound config given l.active.segment l'.active.segment r.active h.active;
      },
      oldest,
      ap (λ (s : Segment). s.next_offset) r.active,
    )

joined-AreSound :
    (from end : ℕ) (ps : List SegmentPair) (p : SegmentPair)
    → AreJoined from ps end
    → IsSound p.segment
    → AreSound (ps ++ (p ∷ []))
joined-AreSound from end [] p j h = (h, tt)
joined-AreSound from end (q ∷ ps) p (based, sound, j) h =
    (sound, joined-AreSound q.segment.next_offset end ps p j h)

apply_defaults-index : (config : LogConfig) → 0 < (apply_defaults config).max_index_bytes
unfolding apply_defaults or_default
apply_defaults-index config = ground arith

-- The log behind open_all, before its epoch cache is recovered.
abbrev opened_log : LogConfig → List SegmentPair → SegmentPair → Log
opened_log config qs q = record {
  config = config;
  active = q;
  sealed = qs;
  epoch_entries = [];
  epoch_checkpoint = [];
  epoch_checkpoint_dirty = false;
}

-- The log `l'` is `l` after a crash: the same segments, in one row of whole batches from the same
-- oldest offset to the same end, and an epoch cache that agrees with its checkpoint.
pub record IsRestarted (config : LogConfig) (l : Log) (loaded : List EpochEntry) (l' : Log)
    : Type 0 where
  pub segments : IsReopened config l l'
  pub sound : IsLog l'
  pub indexed : All IsIndexed l'.sealed × IsIndexed l'.active
  pub oldest : oldest_offset l' ≡ oldest_offset l
  pub next : next_offset l' ≡ next_offset l
  pub epochs : IsRecovered l' loaded l'.epoch_entries
  pub synced : l'.epoch_checkpoint ≡ l'.epoch_entries

-- NewLog on the files of a sound log after a crash that cut off the last write of any segment and
-- left anything in the index files, where the checkpoint that it reads is ascending and can be
-- written, each index has room for an entry of each batch, and the offsets of each segment fit into
-- relative ones of 32 bits: it returns a sound log with the same
-- segments, oldest offset and end, whose indices point at its batches. Its epoch cache agrees with the checkpoint file, is ascending,
-- ends by the end of the log, and is the loaded one up to that end if that has any entry.
pub new_log-IsRestarted :
    (l : Log) (config : LogConfig) (f : SegmentFiles) (fs : List SegmentFiles)
    (loaded : List EpochEntry)
    → IsLog l
    → AreCrashed (apply_defaults config) l.sealed l.active f fs
    → IsAscending loaded
    → (l' : Log) × (new_log true (f ∷ fs) (some loaded) config ≡ ok l')
      × IsRestarted (apply_defaults config) l loaded l'
unfolding new_log open_all
new_log-IsRestarted l config f fs loaded h crashed up =
    let config' = apply_defaults config in
    let given = apply_defaults-index config in
    let (qs, q, opened, all, last, indexed) =
      open_segments-crash config' given l.sealed l.active f fs crashed in
    let l1 = opened_log config' qs q in
    let same : IsReopened config' l l1 = record { active = last; sealed = all } in
    let (sound, oldest, next) = IsReopened-IsLog config' l l1 given same h in
    let (entries, made, epochs) =
      recover_epoch_cache-IsRecovered l1 loaded
        (joined-AreSound (oldest_offset l1) q.segment.base_offset qs q sound.joined sound.active)
        up in
    let kept : HasSegments l1 (recovered l1 entries) = record { active = refl; sealed = refl } in
    let (sound', oldest', next') = HasSegments-IsLog l1 (recovered l1 entries) kept sound in
    (
      recovered l1 entries,
      ground (arith, opened, made),
      record {
        segments = record { active = last; sealed = all };
        sound = sound';
        indexed = (AreReopened-IsIndexed config' l.sealed qs all, indexed);
        oldest = oldest' ∙ oldest;
        next = next' ∙ next;
        epochs =
            unfold next_offset in
            record { ascending = epochs.ascending; inside = epochs.inside; kept = epochs.kept };
        synced = refl;
      },
    )
