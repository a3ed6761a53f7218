-- ===== src/Segment/Recovery/Torn.antt =====
-- internal/log/segment.go, recover: a write that was cut off.
use distributed_messaging_sy.Common.{
  ℕ, zero, suc, ◌+◌, ◌%◌, ◌^◌, ◌≤◌, ◌<◌, ◌≡◌, ◌≢◌, refl, sym, ap, ◌∙◌, subst, List, [], ◌∷◌, ◌++◌,
  arith, length, take, drop, length-drop, append-nil, ◌⊎◌, inl, inr,
}
use distributed_messaging_sy.Segment.Bytes.{u32_at, concat}
use distributed_messaging_sy.Segment.Bytes.Slices.{u32_at-append, take-append_drop, length-take_le}
use distributed_messaging_sy.Segment.Batches.{Result, ok, err, panicked, exhausted, ◌>>=◌}
use distributed_messaging_sy.Segment.Batches.Valid.{IsBatch}
use distributed_messaging_sy.Segment.State.{Segment}
use distributed_messaging_sy.Segment.Chain.{end_of, IsChain, Holds}
use distributed_messaging_sy.Segment.Recovery.{
  Recovered, Found, torn, negative_length, batch, find_batch, recover_from, recovered_segment,
  new_segment,
}
use distributed_messaging_sy.Segment.Recovery.Reopen.{new_segment-chain}

-- The first bytes of a batch are no batch.
find_batch-take :
    (k : ℕ) (p : List ℕ) → IsBatch (length p) p → k < length p → find_batch (take k p) ≡ torn
unfolding find_batch
find_batch-take k p v h =
    let n : length (take k p) ≡ k = length-take_le k p (omega arith) in
    let same : 61 ≤ length (take k p) → u32_at 8 p ≡ u32_at 8 (take k p) =
      λ (long : 61 ≤ length (take k p)).
        ap (λ t. u32_at 8 t) (sym (take-append_drop k p))
        ∙ u32_at-append 8 (take k p) (drop k p) (omega arith) in
    ground (arith, same, v.sized)

recover_from-torn :
    (left next pos : ℕ) (rest : List ℕ)
    → length rest < left
    → find_batch rest ≡ torn
    → recover_from left next pos rest ≡ ok (record { next_offset = next; pos = pos })
unfolding recover_from
recover_from-torn zero next pos rest h e = absurd (omega arith)
recover_from-torn (suc left) next pos [] h e = refl
recover_from-torn (suc left) next pos (b ∷ bs) h e = rw (e, recover_from)

-- A segment is closed, or the broker dies in the middle of writing one more batch, at any byte:
-- NewSegment on the file recovers the fields that the segment had before that write, and cuts the
-- file back to the batches that were whole.
pub new_segment-torn :
    (s : Segment) (ps : List (List ℕ)) (p : List ℕ) (k : ℕ)
    → Holds s ps
    → IsBatch (length p) p
    → k < length p
    → new_segment (s.file ++ take k p) s.base_offset s.max_size ≡ ok s
new_segment-torn s ps p k h v lt =
    let opened =
      new_segment-chain s.base_offset s.max_size ps (take k p) h.chain
        (subst (λ n. n < 2 ^ 64) h.next h.room)
        (λ left pos fits.
          recover_from-torn left (end_of s.base_offset ps) pos (take k p) fits
            (find_batch-take k p v lt)) in
    ground (arith, opened)

recover_from_end :
    (left next pos : ℕ)
    → 0 < left
    → recover_from left next pos [] ≡ ok (record { next_offset = next; pos = pos })
unfolding recover_from
recover_from_end zero next pos h = absurd (omega arith)
recover_from_end (suc left) next pos h = refl

-- A file of whole batches with consecutive offsets.
pub new_segment_whole :
    (base max_size : ℕ) (ps : List (List ℕ))
    → IsChain base ps
    → end_of base ps < 2 ^ 64
    → new_segment (concat ps) base max_size
      ≡ ok (record {
        file = concat ps;
        base_offset = base;
        next_offset = end_of base ps;
        current_size = length (concat ps);
        max_size = max_size;
      })
new_segment_whole base max_size ps c small =
    ap (λ t. new_segment t base max_size) (sym (append-nil (concat ps)))
    ∙ new_segment-chain base max_size ps [] c small
        (λ left pos h. recover_from_end left (end_of base ps) pos h)

Found-cases :
    (f : Found) → ((f ≡ torn) ⊎ (f ≡ negative_length)) ⊎ ((size delta : ℕ) × (f ≡ batch size delta))
Found-cases torn = inl (inl refl)
Found-cases negative_length = inl (inr refl)
Found-cases (batch size delta) = inr (size, delta, refl)

find_batch-shrinks : (bs : List ℕ) (size delta : ℕ) → find_batch bs ≡ batch size delta → 0 < size
unfolding find_batch
find_batch-shrinks bs size delta h = ground arith

recover_from-ne-exhausted :
    (fuel next pos : ℕ) (rest : List ℕ)
    → length rest < fuel
    → recover_from fuel next pos rest ≢ exhausted
unfolding recover_from
recover_from-ne-exhausted zero next pos rest h = absurd (omega arith)
recover_from-ne-exhausted (suc fuel) next pos [] h = λ e. cc
recover_from-ne-exhausted (suc fuel) next pos (b ∷ bs) h =
    elim (Found-cases (find_batch (b ∷ bs))) [
      | inl (inl e) ↦ rw (e, recover_from) (λ x. cc)
      | inl (inr e) ↦ rw (e, recover_from) (λ x. cc)
      | inr (size, delta, e) ↦
          rw (e, recover_from)
            (recover_from-ne-exhausted fuel ((next + (delta + 1)) % 2 ^ 64) (pos + size)
              (drop size (b ∷ bs))
              (omega (arith, length-drop size (b ∷ bs), find_batch-shrinks (b ∷ bs) size delta e)))
    ]

>>=-ne-exhausted {ℓ κ} :
    {A : Type ℓ} {B : Type κ} (m : Result A) (f : A → Result B)
    → m ≢ exhausted
    → ((a : A) → f a ≢ exhausted)
    → (m >>= f) ≢ exhausted
>>=-ne-exhausted (ok a) f h k = k a
>>=-ne-exhausted (err e) f h k = λ x. cc
>>=-ne-exhausted panicked f h k = λ x. cc
>>=-ne-exhausted exhausted f h k = λ x. h refl

recovered_segment-ne-exhausted :
    (file : List ℕ) (base max_size : ℕ) (r : Recovered)
    → recovered_segment file base max_size r ≢ exhausted
unfolding recovered_segment
recovered_segment-ne-exhausted file base max_size r = λ x. ground arith

-- The recovery of a segment ends on every file: one round more than the file has bytes is enough
-- fuel for its loop.
pub new_segment-ne-exhausted :
    (file : List ℕ) (base max_size : ℕ) → new_segment file base max_size ≢ exhausted
unfolding new_segment
new_segment-ne-exhausted file base max_size =
    >>=-ne-exhausted (recover_from (suc (length file)) base 0 file)
      (recovered_segment file base max_size)
      (recover_from-ne-exhausted (suc (length file)) base 0 file (omega arith))
      (recovered_segment-ne-exhausted file base max_size)
