-- ===== src/Log/Raw/Owners.antt =====
-- internal/log/log.go, findSegment, and the loop of ReadRaw (log_raw.go): the segment and the batch
-- that an offset is in.
use distributed_messaging_sy.Common.{
  ℕ, zero, suc, ◌+◌, ◌^◌, ◌≤◌, ◌<◌, ◌≡◌, refl, sym, ap, ◌∙◌, false, Bool-cases, inl, inr, ltb, leb,
  some, List, [], ◌∷◌, ◌++◌, arith, All, length, length-append, append_assoc, append-nil,
}
use distributed_messaging_sy.Segment.Bytes.{concat, u32_at, u64_at}
use distributed_messaging_sy.Segment.Batches.{ok}
use distributed_messaging_sy.Segment.Batches.Valid.{IsBatch}
use distributed_messaging_sy.Segment.State.{Segment}
use distributed_messaging_sy.Segment.Chain.{span, end_of, IsChain, le-end_of}
use distributed_messaging_sy.Segment.Reading.Budget.{meta-at}
use distributed_messaging_sy.Log.State.{
  SegmentPair, Log, oldest_offset, next_offset, Target, missing, in_sealed, find_sealed,
  find_segment,
}
use distributed_messaging_sy.Log.Joined.{IsSound, AreJoined, IsLog}
use distributed_messaging_sy.Log.Raw.{seek_batch, target_pair}

find_sealed-stop :
    (before ps : List SegmentPair) (offset from end : ℕ) (best : Target)
    → AreJoined from ps end
    → offset < from
    → find_sealed before ps offset best ≡ best
unfolding find_sealed
find_sealed-stop before [] offset from end best j h = refl
find_sealed-stop before (p ∷ ps) offset from end best j h = ground (arith, j.0)

module _ (P : SegmentPair → Type 0) where
  -- The pair that has the offset, with what holds for every pair.
  abbrev IsOwner : SegmentPair → ℕ → Type 0
  IsOwner p offset =
      (p.segment.base_offset ≤ offset) × (offset < p.segment.next_offset) × IsSound p.segment × P p

  find_sealed-IsOwner :
      (before ps : List SegmentPair) (offset from end : ℕ) (best : Target)
      → AreJoined from ps end
      → All P ps
      → from ≤ offset
      → offset < end
      → (b : List SegmentPair) × (t : SegmentPair) × (a : List SegmentPair) × (find_sealed before ps
            offset best
          ≡ in_sealed b t a)
        × IsOwner t offset
  unfolding find_sealed
  find_sealed-IsOwner before [] offset from end best j k low high = absurd (omega arith)
  find_sealed-IsOwner before (p ∷ ps) offset from end best (based, sound, j) (kp, k) low high =
      let starts : ltb offset p.segment.base_offset ≡ false = ground (arith, based, low) in
      elim (Bool-cases (ltb offset p.segment.next_offset)) [
        | inl here ↦ (
          before,
          p,
          ps,
          rw (starts, find_sealed)
              (find_sealed-stop (before ++ (p ∷ [])) ps offset p.segment.next_offset end
                (in_sealed before p ps) j (ground (arith, here))),
          (omega arith, ground (arith, here), sound, kp),
        )
        | inr later ↦
            let (b, t, a, found, owner) =
              find_sealed-IsOwner (before ++ (p ∷ [])) ps offset p.segment.next_offset end
                (in_sealed before p ps) j k (ground (arith, later)) high in
            (b, t, a, rw (starts, find_sealed) found, owner)
      ]

  -- An offset between the oldest and the end of a sound log is found in the segment that has it.
  pub find_segment-owner :
      (l : Log) (offset : ℕ)
      → IsLog l
      → All P l.sealed
      → P l.active
      → oldest_offset l ≤ offset
      → offset < next_offset l
      → (p : SegmentPair) × (target_pair l (find_segment l.sealed l.active offset) ≡ some p)
        × (p.segment.base_offset ≤ offset)
        × (offset < p.segment.next_offset)
        × IsSound p.segment
        × P p
  unfolding find_segment target_pair next_offset
  find_segment-owner l offset h k ka low high =
      elim (Bool-cases (leb l.active.segment.base_offset offset)) [
        | inl last ↦ (l.active, ground (arith, last), ground (arith, last), high, h.active, ka)
        | inr before ↦
            let (b, t, a, found, owner) =
              find_sealed-IsOwner [] l.sealed offset (oldest_offset l) l.active.segment.base_offset
                missing h.joined k low (ground (arith, before)) in
            (t, ground (arith, before, found), owner.0, owner.1, owner.2, owner.3)
      ]

more_behind :
    (qs : List (List ℕ)) (from offset : ℕ)
    → IsChain from qs
    → from ≤ offset
    → offset < end_of from qs
    → 61 ≤ length (concat qs)
unfolding end_of
more_behind [] from offset c low high = absurd (omega arith)
more_behind (q ∷ qs) from offset c low high = omega (arith, c.0.header, length-append q (concat qs))

module _ (s : Segment) (sized : s.current_size ≡ length s.file) (offset : ℕ) where
  module _ (fuel : ℕ) (front q rest : List ℕ) (from : ℕ) (e : s.file ≡ front ++ (q ++ rest))
      (v : IsBatch (length q) q) (starts : u64_at 0 q ≡ from) (small : from + span q < 2 ^ 64)
      (low : from ≤ offset) where
    seek_batch-here :
        offset < from + span q → seek_batch (suc fuel) s offset (length front) ≡ ok (length front)
    unfolding seek_batch
    seek_batch-here h =
        let m = meta-at s front q rest e v in
        let delta : span q ≡ u32_at 23 q + 1 = unfold span in refl in
        ground (arith, m, delta, starts, small, low, h)

    seek_batch-next :
        from + span q ≤ offset
        → 61 ≤ length rest
        → seek_batch (suc fuel) s offset (length front)
          ≡ seek_batch fuel s offset (length (front ++ q))
    unfolding seek_batch
    seek_batch-next h more =
        let m = meta-at s front q rest e v in
        let delta : span q ≡ u32_at 23 q + 1 = unfold span in refl in
        let long : s.current_size ≡ length front + (length q + length rest) =
          sized
          ∙ ap length e
          ∙ length-append front (q ++ rest)
          ∙ ap (λ k. length front + k) (length-append q rest) in
        ground (arith, m, delta, starts, small, low, h, long, more, length-append front q)

  -- From the start of a batch at or before the offset the loop reaches the batch that has it.
  pub seek_batch-owner :
      (fuel : ℕ) (front : List ℕ) (qs : List (List ℕ)) (from : ℕ)
      → s.file ≡ front ++ concat qs
      → IsChain from qs
      → end_of from qs < 2 ^ 64
      → length (concat qs) < fuel
      → from ≤ offset
      → offset < end_of from qs
      → (pre : List (List ℕ)) × (q : List ℕ) × (bs : List (List ℕ)) × (qs ≡ pre ++ (q ∷ bs))
        × (end_of from pre ≤ offset)
        × (offset < end_of from pre + span q)
        × (seek_batch fuel s offset (length front) ≡ ok (length (front ++ concat pre)))
  unfolding end_of
  seek_batch-owner zero front qs from e c small f low high = absurd (omega arith)
  seek_batch-owner (suc fuel) front [] from e c small f low high = absurd (omega arith)
  seek_batch-owner (suc fuel) front (q ∷ qs) from e c small f low high =
      let room : from + span q < 2 ^ 64 = omega (arith, le-end_of (from + span q) qs) in
      elim (Bool-cases (ltb offset (from + span q))) [
        | inl here ↦ (
          [],
          q,
          qs,
          refl,
          low,
          ground (arith, here),
          seek_batch-here fuel front q (concat qs) from e c.0 c.1 room low (ground (arith, here))
              ∙ ap (λ bs. ok (length bs)) (sym (append-nil front)),
        )
        | inr later ↦
            let above : from + span q ≤ offset = ground (arith, later) in
            let more = more_behind qs (from + span q) offset c.2 above high in
            let (pre, r, bs, split, starts, ends, found) =
              seek_batch-owner fuel (front ++ q) qs (from + span q)
                (e ∙ sym (append_assoc front q (concat qs))) c.2 small
                (omega (arith, length-append q (concat qs), c.0.header)) above high in
            (
              q ∷ pre,
              r,
              bs,
              ap (λ t. q ∷ t) split,
              starts,
              ends,
              seek_batch-next fuel front q (concat qs) from e c.0 c.1 room low above more
                  ∙ found
                  ∙ ap (λ t. ok (length t)) (append_assoc front q (concat pre)),
            )
      ]
