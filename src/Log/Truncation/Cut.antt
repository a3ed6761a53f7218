-- ===== src/Log/Truncation/Cut.antt =====
-- internal/log/truncate.go, TruncateTo: the log behind a truncation.
use distributed_messaging_sy.Common.{
  ℕ, ◌≤◌, ◌≡◌, refl, sym, ap, ◌∙◌, subst, Bool, true, Bool-cases, inl, inr, ltb, leb, List, [], ◌∷◌,
  ◌++◌, arith, append_assoc,
}
use distributed_messaging_sy.Segment.Batches.{ok, ◌>>=◌, Result-cases}
use distributed_messaging_sy.Segment.State.{Segment}
use distributed_messaging_sy.Segment.Truncation.{truncate_at, find_truncation_position}
use distributed_messaging_sy.Segment.Truncation.Boundary.{
  find_truncation_position_iff, truncate_at-Holds,
}
use distributed_messaging_sy.Log.State.{
  SegmentPair, Log, oldest_of, oldest_offset, next_offset, Target, missing, in_active, in_sealed,
  find_sealed, find_segment,
}
use distributed_messaging_sy.Log.Pairs.{rebuild_index_from_segment}
use distributed_messaging_sy.Log.Joined.{IsSound, AreJoined, IsLog, with_active}
use distributed_messaging_sy.Log.Epochs.{truncate_epochs}
use distributed_messaging_sy.Log.Epochs.Frame.{HasSegments-IsLog, truncate_epochs-HasSegments}
use distributed_messaging_sy.Log.Truncation.{
  with_index, truncate_segment_pair, truncate_segments, cut_segments, truncate_to,
}

-- A sound segment that was cut at `offset`.
pub record IsCut (s : Segment) (offset : ℕ) (s' : Segment) : Type 0 where
  pub sound : IsSound s'
  pub based : s'.base_offset ≡ s.base_offset
  pub ends : s'.next_offset ≡ offset

truncate_at-fields :
    (s s' : Segment) (position offset : ℕ)
    → truncate_at s position offset ≡ ok s'
    → (s'.base_offset ≡ s.base_offset) × (s'.next_offset ≡ offset)
unfolding truncate_at
truncate_at-fields s s' position offset h = ground arith

pub kept_chain :
    (s s' : Segment) (offset : ℕ)
    → IsSound s
    → (find_truncation_position s offset >>= λ position. truncate_at s position offset) ≡ ok s'
    → IsCut s offset s'
kept_chain s s' offset (ps, h) e = elim (Result-cases (find_truncation_position s offset)) [
  | inl (position, found) ↦
      let (pre, post, parts, at, _) =
        (find_truncation_position_iff s ps offset position h).0 found in
      let (cut, done, held, _) = truncate_at-Holds s pre post (rw parts at h) in
      let same : cut ≡ s' = ground (arith, rw at at done, e) in
      let fields = truncate_at-fields s s' position offset (ground (arith, found, e)) in
      record { sound = (pre, rw same at held); based = fields.0; ends = fields.1 }
  | inr failed ↦ absurd (ground (arith, failed, e))
]

pub with_index-segment :
    (p : SegmentPair) (seg : Segment) (interval : ℕ) → (with_index p seg interval).0.segment ≡ seg
unfolding with_index
with_index-segment p seg interval =
    elim (Result-cases (rebuild_index_from_segment seg p.index interval).1) [
      | inl (bytes, e) ↦ ground (arith, e)
      | inr failed ↦ ground (arith, failed)
    ]

truncate_segment_pair-IsCut :
    (p : SegmentPair) (offset interval : ℕ)
    → IsSound p.segment
    → (truncate_segment_pair p offset interval).1 ≡ true
    → IsCut p.segment offset (truncate_segment_pair p offset interval).0.segment
truncate_segment_pair-IsCut p offset interval sound done =
    elim (Result-cases (
      find_truncation_position p.segment offset >>= λ position.
      truncate_at p.segment position offset)) [
        | inl (seg, e) ↦
            let same : (truncate_segment_pair p offset interval).0.segment ≡ seg =
              unfold truncate_segment_pair in
              rw (e, truncate_segment_pair) (with_index-segment p seg interval) in
            subst (λ t. IsCut p.segment offset t) (sym same)
              (kept_chain p.segment seg offset sound e)
        | inr failed ↦ absurd (unfold truncate_segment_pair in ground (arith, failed, done))
      ]

find_sealed-parts :
    (sealed before ps : List SegmentPair) (offset : ℕ) (best : Target)
    → sealed ≡ before ++ ps
    → ((b : List SegmentPair) (t : SegmentPair) (a : List SegmentPair)
        → best ≡ in_sealed b t a
        → sealed ≡ b ++ (t ∷ a))
    → (b : List SegmentPair) (t : SegmentPair) (a : List SegmentPair)
    → find_sealed before ps offset best ≡ in_sealed b t a
    → sealed ≡ b ++ (t ∷ a)
unfolding find_sealed
find_sealed-parts sealed before [] offset best e h b t a f = h b t a f
find_sealed-parts sealed before (p ∷ ps) offset best e h b t a f =
    elim (Bool-cases (ltb offset p.segment.base_offset)) [
      | inl stop ↦ h b t a (ground (arith, stop, f))
      | inr more ↦
          find_sealed-parts sealed (before ++ (p ∷ [])) ps offset (in_sealed before p ps)
            (e ∙ sym (append_assoc before (p ∷ []) ps)) (λ b' t' a' g. e ∙ cc) b t a
            (ground (arith, more, f))
    ]

AreJoined-prefix :
    (from end : ℕ) (b : List SegmentPair) (t : SegmentPair) (a : List SegmentPair)
    → AreJoined from (b ++ (t ∷ a)) end
    → AreJoined from b t.segment.base_offset × IsSound t.segment
AreJoined-prefix from end [] t a h = (sym h.0, h.1)
AreJoined-prefix from end (p ∷ b) t a h =
    let r = AreJoined-prefix p.segment.next_offset end b t a h.2 in ((h.0, h.1, r.0), r.1)

-- The log with its end at `offset`.
pub record IsTruncated (l l' : Log) (offset : ℕ) : Type 0 where
  pub sound : IsLog l'
  pub oldest : oldest_offset l' ≡ oldest_offset l
  pub ends : next_offset l' ≡ offset

oldest_of-cut :
    (active p t : SegmentPair) (b a : List SegmentPair)
    → p.segment.base_offset ≡ t.segment.base_offset
    → oldest_of p b ≡ oldest_of active (b ++ (t ∷ a))
unfolding oldest_of
oldest_of-cut active p t [] a h = h
oldest_of-cut active p t (q ∷ b) a h = refl

pub sealed-IsTruncated :
    (l : Log) (offset : ℕ) (b : List SegmentPair) (t : SegmentPair) (a : List SegmentPair)
    → IsLog l
    → l.sealed ≡ b ++ (t ∷ a)
    → (truncate_segments l offset (in_sealed b t a)).1 ≡ true
    → IsTruncated l (truncate_segments l offset (in_sealed b t a)).0 offset
unfolding truncate_segments next_offset oldest_offset
sealed-IsTruncated l offset b t a h split done =
    let interval = l.config.index_interval_bytes in
    let p = (truncate_segment_pair t offset interval).0 in
    let row = AreJoined-prefix (oldest_of l.active l.sealed) l.active.segment.base_offset b t a (
      subst (λ ps. AreJoined (oldest_of l.active l.sealed) ps l.active.segment.base_offset) split
        h.joined) in
    elim (Bool-cases (truncate_segment_pair t offset interval).1) [
      | inl good ↦
          let cut = truncate_segment_pair-IsCut t offset interval row.1 good in
          let oldest : oldest_of p b ≡ oldest_of l.active l.sealed =
            oldest_of-cut l.active p t b a cut.based
            ∙ ap (λ ps. oldest_of l.active ps) (sym split) in
          rw (good, truncate_segments)
            (record {
              sound = record { joined = rw (oldest, cut.based) row.0; active = cut.sound };
              oldest = oldest;
              ends = cut.ends;
            })
      | inr bad ↦ absurd (ground (arith, bad, done))
    ]

truncate_segments-IsTruncated :
    (l : Log) (offset : ℕ) (target : Target)
    → IsLog l
    → ((b : List SegmentPair) (t : SegmentPair) (a : List SegmentPair)
        → target ≡ in_sealed b t a
        → l.sealed ≡ b ++ (t ∷ a))
    → (truncate_segments l offset target).1 ≡ true
    → IsTruncated l (truncate_segments l offset target).0 offset
unfolding truncate_segments next_offset
truncate_segments-IsTruncated l offset missing h parts done = absurd (cc done)
truncate_segments-IsTruncated l offset in_active h parts done =
    let p = truncate_segment_pair l.active offset l.config.index_interval_bytes in
    let cut =
      truncate_segment_pair-IsCut l.active offset l.config.index_interval_bytes h.active done in
    let kept = with_active l p.0 h cut.based cut.sound in
    record { sound = kept.0; oldest = kept.1; ends = cut.ends }
truncate_segments-IsTruncated l offset (in_sealed b t a) h parts done =
    sealed-IsTruncated l offset b t a h (parts b t a refl) done

pub find_segment-parts :
    (l : Log) (offset : ℕ) (b : List SegmentPair) (t : SegmentPair) (a : List SegmentPair)
    → find_segment l.sealed l.active offset ≡ in_sealed b t a
    → l.sealed ≡ b ++ (t ∷ a)
unfolding find_segment
find_segment-parts l offset b t a e = elim (Bool-cases (leb l.active.segment.base_offset offset)) [
  | inl in_last ↦ absurd (ground (arith, in_last, e))
  | inr before ↦
      find_sealed-parts l.sealed [] l.sealed offset missing refl (λ b' t' a' g. absurd (cc g)) b t a
        (ground (arith, before, e))
]

from_segments :
    (l : Log) (offset : ℕ) (res res' : Log × Bool)
    → res ≡ res'
    → (res'.1 ≡ true → IsTruncated l res'.0 offset)
    → res.1 ≡ true
    → IsTruncated l res.0 offset
from_segments l offset res res' same h done =
    subst (λ r. IsTruncated l r.0 offset) (sym same) (h (ap (λ r. r.1) (sym same) ∙ done))

cut_segments-IsTruncated :
    (l : Log) (offset : ℕ)
    → IsLog l
    → offset ≤ next_offset l
    → (cut_segments l offset).1 ≡ true
    → IsTruncated l (cut_segments l offset).0 offset
unfolding cut_segments
cut_segments-IsTruncated l offset h le done = elim (Bool-cases (ltb offset (next_offset l))) [
  | inl inside ↦
      let target = find_segment l.sealed l.active offset in
      let same : cut_segments l offset ≡ truncate_segments l offset target =
        ground (arith, inside) in
      from_segments l offset (cut_segments l offset) (truncate_segments l offset target) same
        (truncate_segments-IsTruncated l offset target h (find_segment-parts l offset)) done
  | inr end ↦
      let same : cut_segments l offset ≡ (l, true) = ground (arith, end) in
      from_segments l offset (cut_segments l offset) (l, true) same
        (λ _. record { sound = h; oldest = refl; ends = ground (arith, end, le) }) done
]

-- What a call without an error went through.
truncate_to-steps :
    (writes : Bool) (l : Log) (offset : ℕ)
    → (truncate_to writes l offset).1 ≡ true
    → (offset ≤ next_offset l)
      × ((cut_segments l offset).1 ≡ true)
      × (truncate_to writes l offset
          ≡ truncate_epochs writes (ltb offset (next_offset l)) offset (cut_segments l offset).0)
unfolding truncate_to
truncate_to-steps writes l offset done = ground arith

-- TruncateTo on a log whose segments hold whole batches in one row of consecutive offsets: where it
-- returns no error, it leaves such a log, which ends at the offset asked for and starts where it
-- started, however many segments were removed.
pub truncate_to-IsTruncated :
    (writes : Bool) (l : Log) (offset : ℕ)
    → IsLog l
    → (truncate_to writes l offset).1 ≡ true
    → IsTruncated l (truncate_to writes l offset).0 offset
truncate_to-IsTruncated writes l offset h done =
    let (in_range, cut_done, same) = truncate_to-steps writes l offset done in
    let cut = cut_segments-IsTruncated l offset h in_range cut_done in
    let l' = (cut_segments l offset).0 in
    let epochs = truncate_epochs writes (ltb offset (next_offset l)) offset l' in
    let (sound, oldest, next) =
      HasSegments-IsLog l' epochs.0
        (truncate_epochs-HasSegments writes (ltb offset (next_offset l)) offset l') cut.sound in
    rw same (record { sound = sound; oldest = oldest ∙ cut.oldest; ends = next ∙ cut.ends })
