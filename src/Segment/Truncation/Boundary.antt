-- ===== src/Segment/Truncation/Boundary.antt =====
-- internal/log/truncate.go, findTruncationPosition: where a segment is cut.
use distributed_messaging_sy.Common.{
  ℕ, zero, suc, ◌+◌, ◌%◌, ◌^◌, ◌≤◌, ◌<◌, ◌≡◌, ◌↔◌, refl, sym, ap, ◌∙◌, List, [], ◌∷◌, ◌++◌, arith,
  length, take, length-append, append_assoc, append-nil, take-append, ltb, ◌==◌, ◌&&◌, Bool-cases,
  ==_iff, inl, inr, if◌then◌else◌,
}
use distributed_messaging_sy.Segment.Bytes.{u32_at, u64_at, concat}
use distributed_messaging_sy.Segment.Bytes.Slices.{concat-append}
use distributed_messaging_sy.Segment.Batches.{Result, ok, err, other, ◌>>=◌, Result-cases}
use distributed_messaging_sy.Segment.Batches.Valid.{IsBatch}
use distributed_messaging_sy.Segment.State.{Segment}
use distributed_messaging_sy.Segment.Chain.{
  span, end_of, IsChain, Holds, end_of-append, le-end_of, IsChain-prefix,
}
use distributed_messaging_sy.Segment.Reading.Budget.{meta-at, batch-at}
use distributed_messaging_sy.Segment.Truncation.{
  truncate_at, find_boundary, find_truncation_position,
}

-- The batches before the first that starts at `offset`, if a batch starts there or the chain ends
-- there.
unfoldable pub split_at : ℕ → ℕ → List (List ℕ) → Result (List (List ℕ))
split_at offset from [] = if offset == from then ok [] else err other
split_at offset from (q ∷ qs) =
    if from == offset then ok [] else split_at offset (from + span q) qs >>= λ pre. ok (q ∷ pre)

split_at-past :
    (offset from : ℕ) (qs : List (List ℕ)) → offset < from → split_at offset from qs ≡ err other
unfolding split_at
split_at-past offset from [] h = ground arith
split_at-past offset from (q ∷ qs) h = ground (arith, split_at-past offset (from + span q) qs)

-- The batches behind a cut at `offset`.
abbrev Cut : ℕ → ℕ → List (List ℕ) → List (List ℕ) → Type 0
Cut offset from qs pre = (post : List (List ℕ)) × (qs ≡ pre ++ post) × (end_of from pre ≡ offset)

split_at-Cut :
    (offset from : ℕ) (qs pre : List (List ℕ))
    → split_at offset from qs ≡ ok pre
    → Cut offset from qs pre
unfolding split_at end_of
split_at-Cut offset from [] pre h =
    let none_before : pre ≡ [] = ground arith in
    ([], rw none_before refl, rw none_before (ground arith))
split_at-Cut offset from (q ∷ qs) pre h = elim (Bool-cases (from == offset)) [
  | inl here ↦
      let none_before : pre ≡ [] = ground (arith, here, h) in
      (q ∷ qs, rw none_before refl, rw none_before ((==_iff from offset).0 here))
  | inr later ↦ elim (Result-cases (split_at offset (from + span q) qs)) [
    | inl (before, e) ↦
        let (post, parts, at) = split_at-Cut offset (from + span q) qs before e in
        let more : pre ≡ q ∷ before = ground (arith, later, e, h) in
        (post, rw more (ap (λ t. q ∷ t) parts), rw more at)
    | inr failed ↦ absurd (ground (arith, later, failed, h))
  ]
]

span_lem : (q : List ℕ) → span q ≡ u32_at 23 q + 1
unfolding span
span_lem q = refl

lt-end_of : (from : ℕ) (p : List ℕ) (pre : List (List ℕ)) → from < end_of (from + span p) pre
unfolding span
lt-end_of from p pre = omega (arith, le-end_of (from + (u32_at 23 p + 1)) pre)

Cut-split_at :
    (from : ℕ) (pre post : List (List ℕ)) → split_at (end_of from pre) from (pre ++ post) ≡ ok pre
unfolding split_at end_of
Cut-split_at from [] [] = ground arith
Cut-split_at from [] (q ∷ post) = ground arith
Cut-split_at from (p ∷ pre) post =
    ground (arith, lt-end_of from p pre, Cut-split_at (from + span p) pre post)

module _ (s : Segment) (sized : s.current_size ≡ length s.file) (offset : ℕ) where
  -- One round, over a whole batch.
  find_boundary-round :
      (fuel : ℕ) (front q rest : List ℕ) (from : ℕ)
      → s.file ≡ front ++ (q ++ rest)
      → IsBatch (length q) q
      → u64_at 0 q ≡ from
      → from + span q < 2 ^ 64
      → find_boundary (suc fuel) s offset (length front) ≡ (
          if from == offset
          then ok (length front)
          else if ltb from offset && ltb offset (from + span q)
          then err other
          else find_boundary fuel s offset (length (front ++ q)))
  unfolding find_boundary
  find_boundary-round fuel front q rest from bytes v base small =
      let (whole, inside, fits) = batch-at s front q rest bytes v sized in
      let m = meta-at s front q rest bytes v in
      let wrapped : (u64_at 0 q + u32_at 23 q) % 2 ^ 64 ≡ from + u32_at 23 q =
        omega (arith, base, span_lem q) in
      ground (arith, inside, fits, m, base, wrapped, span_lem q, length-append front q)

  find_boundary-end :
      (fuel : ℕ) (front : List ℕ)
      → s.file ≡ front ++ []
      → find_boundary (suc fuel) s offset (length front)
        ≡ (if offset == s.next_offset then ok (length front) else err other)
  unfolding find_boundary
  find_boundary-end fuel front bytes =
      let end : length s.file ≡ length front = ap length bytes ∙ ap length (append-nil front) in
      ground (arith, end, sized)

  split_at-end :
      (fuel : ℕ) (front : List ℕ) (from : ℕ)
      → from ≡ s.next_offset
      → find_boundary (suc fuel) s offset (length front)
        ≡ (if offset == s.next_offset then ok (length front) else err other)
      → find_boundary (suc fuel) s offset (length front)
        ≡ (split_at offset from [] >>= λ pre. ok (length (front ++ concat pre)))
  unfolding split_at
  split_at-end fuel front from next end = ground (arith, ap length (append-nil front))

  -- Where the rest of the loop finds the cut of the batches behind `q`.
  find_boundary-next :
      (fuel : ℕ) (front q : List ℕ) (qs : List (List ℕ)) (from : ℕ)
      → find_boundary (suc fuel) s offset (length front) ≡ (
          if from == offset
          then ok (length front)
          else if ltb from offset && ltb offset (from + span q)
          then err other
          else find_boundary fuel s offset (length (front ++ q)))
      → find_boundary fuel s offset (length (front ++ q))
        ≡ (split_at offset (from + span q) qs >>= λ pre. ok (length ((front ++ q) ++ concat pre)))
      → find_boundary (suc fuel) s offset (length front)
        ≡ (split_at offset from (q ∷ qs) >>= λ pre. ok (length (front ++ concat pre)))
  unfolding split_at
  find_boundary-next fuel front q qs from round rest =
      let past = split_at-past offset (from + span q) qs in
      let none_before = ap length (append-nil front) in
      elim (Result-cases (split_at offset (from + span q) qs)) [
        | inl (before, e) ↦
            let same = ap length (append_assoc front q (concat before)) in
            ground (arith, round, rest, past, none_before, e, same)
        | inr failed ↦ ground (arith, round, rest, past, none_before, failed)
      ]

  -- The loop behind `front` finds the cut of the batches that are left, or fails where none is.
  find_boundary-split_at :
      (fuel : ℕ) (front : List ℕ) (qs : List (List ℕ)) (from : ℕ)
      → s.file ≡ front ++ concat qs
      → IsChain from qs
      → end_of from qs ≡ s.next_offset
      → s.next_offset < 2 ^ 64
      → length (concat qs) < fuel
      → find_boundary fuel s offset (length front)
        ≡ (split_at offset from qs >>= λ pre. ok (length (front ++ concat pre)))
  unfolding end_of
  find_boundary-split_at zero front qs from bytes c next small f = absurd (omega arith)
  find_boundary-split_at (suc fuel) front [] from bytes c next small f =
      split_at-end fuel front from next (find_boundary-end fuel front bytes)
  find_boundary-split_at (suc fuel) front (q ∷ qs) from bytes c next small f =
      find_boundary-next fuel front q qs from
        (find_boundary-round fuel front q (concat qs) from bytes c.0 c.1
          (omega (arith, next, le-end_of (from + span q) qs)))
        (find_boundary-split_at fuel (front ++ q) qs (from + span q)
          (bytes ∙ sym (append_assoc front q (concat qs))) c.2 next small
          (omega (arith, length-append q (concat qs), c.0.header)))

find_truncation_position-split_at :
    (s : Segment) (ps : List (List ℕ)) (offset : ℕ)
    → Holds s ps
    → find_truncation_position s offset
      ≡ (split_at offset s.base_offset ps >>= λ pre. ok (length (concat pre)))
unfolding find_truncation_position
find_truncation_position-split_at s ps offset h =
    find_boundary-split_at s h.size offset (suc s.current_size) [] ps s.base_offset h.bytes h.chain
      (sym h.next) h.room (omega (arith, h.size, ap length h.bytes))

-- findTruncationPosition on a sound segment returns a position exactly where a batch starts at the
-- offset, or where the offset is the end of the segment: the number of bytes of the batches before
-- it. An offset inside a batch, before the segment or behind it is refused.
pub find_truncation_position_iff :
    (s : Segment) (ps : List (List ℕ)) (offset position : ℕ)
    → Holds s ps
    → (find_truncation_position s offset ≡ ok position) ↔ (
        (pre post : List (List ℕ)) × (ps ≡ pre ++ post)
        × (end_of s.base_offset pre ≡ offset)
        × (position ≡ length (concat pre)))
find_truncation_position_iff s ps offset position h =
    let found = find_truncation_position-split_at s ps offset h in
    (
      λ e. elim (Result-cases (split_at offset s.base_offset ps)) [
        | inl (pre, cut) ↦
            let (post, parts, at) = split_at-Cut offset s.base_offset ps pre cut in
            (pre, post, parts, at, ground (arith, found, cut, e))
        | inr failed ↦ absurd (ground (arith, found, failed, e))
      ],
      λ (pre, post, parts, at, same).
          let cut : split_at offset s.base_offset ps ≡ ok pre =
            rw (← at, parts) (Cut-split_at s.base_offset pre post) in
          ground (arith, found, cut, same),
    )

-- A sound segment that is cut at the start of a batch, or at its end, as truncateSegmentPair does,
-- is a sound segment of the batches before it, which ends at that offset.
pub truncate_at-Holds :
    (s : Segment) (pre post : List (List ℕ))
    → Holds s (pre ++ post)
    → (s' : Segment) × ((find_truncation_position s (end_of s.base_offset pre) >>= λ position.
          truncate_at s position (end_of s.base_offset pre))
        ≡ ok s')
      × Holds s' pre
      × (s'.next_offset ≡ end_of s.base_offset pre)
unfolding truncate_at
truncate_at-Holds s pre post h =
    let offset = end_of s.base_offset pre in
    let found =
      (find_truncation_position_iff s (pre ++ post) offset (length (concat pre)) h).1
        (pre, post, refl, refl, refl) in
    let bytes = h.bytes ∙ concat-append pre post in
    let cut : take (length (concat pre)) s.file ≡ concat pre =
      rw bytes (take-append (concat pre) (concat post)) in
    let long : length (concat pre) ≤ s.current_size =
      omega (arith, h.size, ap length bytes, length-append (concat pre) (concat post)) in
    (
      record s {
        file = take (length (concat pre)) s.file;
        current_size = length (concat pre);
        next_offset = offset;
      },
      ground (arith, found, le-end_of s.base_offset pre),
      record {
        bytes = cut;
        size = ap length (sym cut);
        chain = (IsChain-prefix s.base_offset pre post h.chain).0;
        next = refl;
        room =
            omega
              (arith, h.room, h.next, end_of-append s.base_offset pre post, le-end_of offset post);
      },
      refl,
    )
