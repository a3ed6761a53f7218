-- ===== src/Log/Truncation/Kept.antt =====
-- internal/log/truncate.go, TruncateTo: the segments of the log where the call fails too.
use distributed_messaging_sy.Common.{
  ℕ, ◌≡◌, refl, sym, subst, Bool, true, false, Bool-cases, if-both, inl, inr, ltb, List, ◌∷◌, ◌++◌,
  arith,
}
use distributed_messaging_sy.Segment.Batches.{ok, ◌>>=◌, Result-cases}
use distributed_messaging_sy.Segment.State.{Segment}
use distributed_messaging_sy.Segment.Truncation.{truncate_at, find_truncation_position}
use distributed_messaging_sy.Log.State.{
  SegmentPair, Log, oldest_offset, next_offset, Target, missing, in_active, in_sealed, find_segment,
}
use distributed_messaging_sy.Log.Joined.{IsSound, IsLog, with_active}
use distributed_messaging_sy.Log.Epochs.{truncate_epochs}
use distributed_messaging_sy.Log.Epochs.Frame.{HasSegments-IsLog, truncate_epochs-HasSegments}
use distributed_messaging_sy.Log.Truncation.{
  with_index, truncate_segment_pair, truncate_segments, cut_segments, truncate_to,
}
use distributed_messaging_sy.Log.Truncation.Cut.{
  kept_chain, with_index-segment, sealed-IsTruncated, find_segment-parts,
}

-- A sealed segment that is cut at `offset` has room in its index for the entries that are left.
abbrev pub HasRoom : Log → ℕ → Type 0
HasRoom l offset =
    (b : List SegmentPair) (t : SegmentPair) (a : List SegmentPair) (seg : Segment)
    → find_segment l.sealed l.active offset ≡ in_sealed b t a
    → (find_truncation_position t.segment offset >>= λ position.
        truncate_at t.segment position offset)
      ≡ ok seg
    → (with_index t seg l.config.index_interval_bytes).1 ≡ true

truncate_segment_pair-IsSound :
    (p : SegmentPair) (offset interval : ℕ)
    → IsSound p.segment
    → IsSound (truncate_segment_pair p offset interval).0.segment
      × ((truncate_segment_pair p offset interval).0.segment.base_offset ≡ p.segment.base_offset)
truncate_segment_pair-IsSound p offset interval sound =
    elim (Result-cases (
      find_truncation_position p.segment offset >>= λ position.
      truncate_at p.segment position offset)) [
        | inl (seg, e) ↦
            let same : (truncate_segment_pair p offset interval).0.segment ≡ seg =
              unfold truncate_segment_pair in
              rw (e, truncate_segment_pair) (with_index-segment p seg interval) in
            let cut = kept_chain p.segment seg offset sound e in
            subst (λ s. IsSound s × (s.base_offset ≡ p.segment.base_offset)) (sym same)
              (cut.sound, cut.based)
        | inr failed ↦
            let same : (truncate_segment_pair p offset interval).0 ≡ p =
              unfold truncate_segment_pair in ground (arith, failed) in
            subst (λ q. IsSound q.segment × (q.segment.base_offset ≡ p.segment.base_offset))
              (sym same) (sound, refl)
      ]

-- A cut that fails with room in the index has not begun.
failed_same :
    (p : SegmentPair) (offset interval : ℕ)
    → ((seg : Segment)
        → (find_truncation_position p.segment offset >>= λ position.
            truncate_at p.segment position offset)
          ≡ ok seg
        → (with_index p seg interval).1 ≡ true)
    → (truncate_segment_pair p offset interval).1 ≡ false
    → (truncate_segment_pair p offset interval).0 ≡ p
unfolding truncate_segment_pair
failed_same p offset interval room bad =
    elim (Result-cases (
      find_truncation_position p.segment offset >>= λ position.
      truncate_at p.segment position offset)) [
        | inl (seg, e) ↦ absurd (ground (arith, e, room seg e, bad))
        | inr failed ↦ ground (arith, failed)
      ]

truncate_segments-IsLog :
    (l : Log) (offset : ℕ) (target : Target)
    → IsLog l
    → find_segment l.sealed l.active offset ≡ target
    → HasRoom l offset
    → IsLog (truncate_segments l offset target).0
unfolding truncate_segments
truncate_segments-IsLog l offset missing h found room = h
truncate_segments-IsLog l offset in_active h found room =
    let interval = l.config.index_interval_bytes in
    let (sound, based) = truncate_segment_pair-IsSound l.active offset interval h.active in
    (with_active l (truncate_segment_pair l.active offset interval).0 h based sound).0
truncate_segments-IsLog l offset (in_sealed b t a) h found room =
    let interval = l.config.index_interval_bytes in
    let parts = find_segment-parts l offset b t a found in
    elim (Bool-cases (truncate_segment_pair t offset interval).1) [
      | inl good ↦
          let done : (truncate_segments l offset (in_sealed b t a)).1 ≡ true =
            ground (arith, good) in
          (sealed-IsTruncated l offset b t a h parts done).sound
      | inr bad ↦
          let same = failed_same t offset interval (λ seg e. room b t a seg found e) bad in
          let kept : IsLog (record l { sealed = b ++ (t ∷ a) }) =
            subst (λ ps. IsLog (record l { sealed = ps })) parts h in
          rw (bad, truncate_segments, same) kept
    ]

cut_segments-IsLog :
    (l : Log) (offset : ℕ) → IsLog l → HasRoom l offset → IsLog (cut_segments l offset).0
unfolding cut_segments
cut_segments-IsLog l offset h room =
    if-both (λ (r : Log × Bool). IsLog r.0) (ltb offset (next_offset l))
      (truncate_segments-IsLog l offset (find_segment l.sealed l.active offset) h refl room) h

-- TruncateTo leaves the segments in one row of whole batches, also where it fails, if the index of a
-- sealed segment has room for the rebuild.
pub truncate_to-IsLog :
    (writes : Bool) (l : Log) (offset : ℕ)
    → IsLog l
    → HasRoom l offset
    → IsLog (truncate_to writes l offset).0
unfolding truncate_to
truncate_to-IsLog writes l offset h room =
    let cut = cut_segments-IsLog l offset h room in
    let l' = (cut_segments l offset).0 in
    let epochs = truncate_epochs writes (ltb offset (next_offset l)) offset l' in
    let sound =
      (HasSegments-IsLog l' epochs.0
        (truncate_epochs-HasSegments writes (ltb offset (next_offset l)) offset l') cut).0 in
    if-both (λ (r : Log × Bool). IsLog r.0) (ltb (next_offset l) offset) h
      (if-both (λ (r : Log × Bool). IsLog r.0) (ltb offset (oldest_offset l)) h
        (if-both (λ (r : Log × Bool). IsLog r.0) (cut_segments l offset).1 sound cut))
