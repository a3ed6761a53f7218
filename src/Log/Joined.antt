-- ===== src/Log/Joined.antt =====
-- internal/log/log.go: the segments of a log as one row of batches.
use distributed_messaging_sy.Common.{
  ℕ, ◌^◌, ◌≤◌, ◌<◌, ◌≡◌, refl, sym, ap, subst, Option-cases, inl, inr, List, [], ◌∷◌, ◌++◌, arith,
  Bool-cases, ◌||◌,
}
use distributed_messaging_sy.OffsetIndex.{Index, is_full, new_index}
use distributed_messaging_sy.Segment.Batches.{Result, ok, Result-cases}
use distributed_messaging_sy.Segment.State.{Segment, is_full_segment}
use distributed_messaging_sy.Segment.Chain.{end_of, Holds, le-end_of}
use distributed_messaging_sy.Segment.Recovery.{new_segment, recover_from, recovered_segment}
use distributed_messaging_sy.Log.State.{
  LogConfig, SegmentPair, Log, oldest_of, oldest_offset, next_offset,
}
use distributed_messaging_sy.Log.Pairs.{
  rebuild_index_from_segment, paired, new_segment_pair, roll, roll_if_full,
}

-- The file holds whole batches with consecutive offsets, and the fields agree with it.
abbrev pub IsSound : Segment → Type 0
IsSound s = (ps : List (List ℕ)) × Holds s ps

-- Each sealed segment starts where the one before it ends, the last ends at `end`.
abbrev pub AreJoined : ℕ → List SegmentPair → ℕ → Type 0
AreJoined from [] end = from ≡ end
AreJoined from (p ∷ ps) end =
    (p.segment.base_offset ≡ from) × IsSound p.segment × AreJoined p.segment.next_offset ps end

-- From the oldest offset on the segments follow one another without a gap, the active one last.
pub record IsLog (l : Log) : Type 0 where
  pub joined : AreJoined (oldest_offset l) l.sealed l.active.segment.base_offset
  pub active : IsSound l.active.segment

pub base-le-next : {s : Segment} → IsSound s → s.base_offset ≤ s.next_offset
base-le-next {s} (ps, h) = rw h.next (le-end_of s.base_offset ps)

pub AreJoined-append :
    (from mid end : ℕ) (ps qs : List SegmentPair)
    → AreJoined from ps mid
    → AreJoined mid qs end
    → AreJoined from (ps ++ qs) end
AreJoined-append from mid end [] qs h k = subst (λ n. AreJoined n qs end) (sym h) k
AreJoined-append from mid end (p ∷ ps) qs h k =
    (h.0, h.1, AreJoined-append p.segment.next_offset mid end ps qs h.2 k)

oldest_of-append :
    (a b : SegmentPair) (ps : List SegmentPair) → oldest_of b (ps ++ (a ∷ [])) ≡ oldest_of a ps
unfolding oldest_of
oldest_of-append a b [] = refl
oldest_of-append a b (p ∷ ps) = refl

oldest_of-base :
    (a b : SegmentPair) (ps : List SegmentPair)
    → a.segment.base_offset ≡ b.segment.base_offset
    → oldest_of a ps ≡ oldest_of b ps
unfolding oldest_of
oldest_of-base a b [] h = h
oldest_of-base a b (p ∷ ps) h = refl

-- Another active pair that starts at the same offset.
pub with_active :
    (l : Log) (p : SegmentPair)
    → IsLog l
    → p.segment.base_offset ≡ l.active.segment.base_offset
    → IsSound p.segment
    → IsLog (record l { active = p }) × (oldest_offset (record l { active = p }) ≡ oldest_offset l)
unfolding oldest_offset
with_active l p h based sound =
    let same = oldest_of-base p l.active l.sealed based in
    (record { joined = rw (same, based) h.joined; active = sound }, same)

abbrev empty_segment : ℕ → ℕ → Segment
empty_segment base max_size = record {
  file = [];
  base_offset = base;
  next_offset = base;
  current_size = 0;
  max_size = max_size;
}

new_segment_empty :
    (base max_size : ℕ) → new_segment [] base max_size ≡ ok (empty_segment base max_size)
unfolding new_segment recover_from recovered_segment
new_segment_empty base max_size = ground arith

paired-segment :
    (seg : Segment) (r : Index × Result ℕ) (p : SegmentPair) → paired seg r ≡ ok p → p.segment ≡ seg
unfolding paired
paired-segment seg r p h = ground arith

new_segment_pair_empty :
    (base : ℕ) (config : LogConfig) (p : SegmentPair)
    → new_segment_pair [] [] base config ≡ ok p
    → p.segment ≡ empty_segment base config.max_segment_bytes
unfolding new_segment_pair
new_segment_pair_empty base config p h =
    let seg = empty_segment base config.max_segment_bytes in
    let opened = new_segment_empty base config.max_segment_bytes in
    elim (Option-cases (new_index [] base config.max_index_bytes)) [
      | inl e ↦ absurd (ground (arith, e, opened, h))
      | inr (idx, e) ↦
          let r = rebuild_index_from_segment seg idx config.index_interval_bytes in
          let same : paired seg r ≡ ok p = ground (arith, e, opened, h) in
          paired-segment seg r p same
    ]

empty_segment-IsSound : (base max_size : ℕ) → base < 2 ^ 64 → IsSound (empty_segment base max_size)
unfolding end_of
empty_segment-IsSound base max_size h =
    ([], record { bytes = refl; size = refl; chain = tt; next = refl; room = h })

rolled : Log → SegmentPair → Log
rolled l p = record l { sealed = l.sealed ++ (l.active ∷ []); active = p }

roll-rolled :
    (l l' : Log)
    → roll l ≡ ok l'
    → (p : SegmentPair) × (p.segment
        ≡ empty_segment l.active.segment.next_offset l.config.max_segment_bytes)
      × (l' ≡ rolled l p)
unfolding roll rolled
roll-rolled l l' e =
    elim (Result-cases (new_segment_pair [] [] l.active.segment.next_offset l.config)) [
      | inl (p, made) ↦ (
        p,
        new_segment_pair_empty l.active.segment.next_offset l.config p made,
        ground (arith, made, e),
      )
      | inr failed ↦ absurd (ground (arith, failed, e))
    ]

-- The new active segment starts, empty, where the old one ends.
pub roll-IsLog :
    (l l' : Log)
    → IsLog l
    → roll l ≡ ok l'
    → IsLog l' × (oldest_offset l' ≡ oldest_offset l) × (next_offset l' ≡ next_offset l)
unfolding rolled oldest_offset next_offset
roll-IsLog l l' h e =
    let (p, empty, same) = roll-rolled l l' e in
    let (ps, held) = h.active in
    let based = ap (λ (s : Segment). s.base_offset) empty in
    let oldest = oldest_of-append l.active p l.sealed in
    rw same (
      record {
        joined = rw oldest (
            AreJoined-append (oldest_of l.active l.sealed) l.active.segment.base_offset
              p.segment.base_offset l.sealed (l.active ∷ []) h.joined (refl, h.active, sym based));
        active = rw empty (
            empty_segment-IsSound l.active.segment.next_offset l.config.max_segment_bytes
              held.room);
      },
      oldest,
      ap (λ (s : Segment). s.next_offset) empty,
    )

pub roll_if_full-IsLog :
    (l l' : Log)
    → IsLog l
    → roll_if_full l ≡ ok l'
    → IsLog l' × (oldest_offset l' ≡ oldest_offset l) × (next_offset l' ≡ next_offset l)
unfolding roll_if_full
roll_if_full-IsLog l l' h e =
    elim (Bool-cases (is_full_segment l.active.segment || is_full l.active.index)) [
      | inl full ↦ roll-IsLog l l' h (ground (arith, full, e))
      | inr room ↦ let same : l' ≡ l = ground (arith, room, e) in rw same (h, refl, refl)
    ]
