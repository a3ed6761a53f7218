-- ===== src/Segment/Recovery/Reopen.antt =====
-- internal/log/segment.go, recover: a file of whole batches is recovered as it was.
use distributed_messaging_sy.Common.{
  ℕ, zero, suc, ◌+◌, ◌%◌, ◌^◌, ◌≤◌, ◌<◌, ◌≡◌, refl, ap, ◌∙◌, false, List, [], ◌∷◌, ◌++◌, arith,
  length, drop, length-append, drop-append, append_assoc, take-append, ◌==◌,
}
use native.Mathlib.Nat.{mod-eq_of_lt}
use distributed_messaging_sy.Segment.Bytes.{u32_at, concat}
use distributed_messaging_sy.Segment.Bytes.Slices.{u32_at-append}
use distributed_messaging_sy.Segment.Batches.{ok}
use distributed_messaging_sy.Segment.Batches.Valid.{IsBatch, IsBatch-append}
use distributed_messaging_sy.Segment.Chain.{span, end_of, IsChain, le-end_of}
use distributed_messaging_sy.Segment.Recovery.{
  batch, find_batch, recover_from, recovered_segment, new_segment,
}

pub IsBatch-find_batch :
    (size : ℕ) (bs : List ℕ) → IsBatch size bs → find_batch bs ≡ batch size (u32_at 23 bs)
unfolding find_batch
IsBatch-find_batch size bs v = ground arith

-- One round of the loop over a whole batch.
recover_from-round :
    (fuel next pos size : ℕ) (bs : List ℕ)
    → IsBatch size bs
    → recover_from (suc fuel) next pos bs
      ≡ recover_from fuel ((next + (u32_at 23 bs + 1)) % 2 ^ 64) (pos + size) (drop size bs)
unfolding recover_from
recover_from-round fuel next pos size [] v = absurd (omega (arith, v.within, v.header))
recover_from-round fuel next pos size (b ∷ bs) v =
    rw (IsBatch-find_batch size (b ∷ bs) v, recover_from)

-- The batches of a chain are passed one by one.
pub recover_from-chain :
    (fuel pos from : ℕ) (ps : List (List ℕ)) (rest : List ℕ)
    → IsChain from ps
    → end_of from ps < 2 ^ 64
    → length (concat ps) + length rest < fuel
    → (left : ℕ) × (length rest < left)
      × (recover_from fuel from pos (concat ps ++ rest)
          ≡ recover_from left (end_of from ps) (pos + length (concat ps)) rest)
unfolding end_of span
recover_from-chain fuel pos from [] rest c small h =
    (fuel, omega arith, ap (λ t. recover_from fuel from t rest) (omega arith))
recover_from-chain zero pos from (p ∷ ps) rest c small h = absurd (omega arith)
recover_from-chain (suc fuel) pos from (p ∷ ps) rest c small h =
    let long : 61 ≤ length p = c.0.header in
    let behind = concat ps ++ rest in
    let next = from + (u32_at 23 p + 1) in
    let measured = length-append p (concat ps) in
    let (left, fits, same) =
      recover_from-chain fuel (pos + length p) next ps rest c.2 small (omega (arith, measured)) in
    let first : recover_from (suc fuel) from pos (p ++ behind)
        ≡ recover_from fuel next (pos + length p) behind =
      rw
        (
          recover_from-round fuel from pos (length p) (p ++ behind) (IsBatch-append p behind c.0),
          u32_at-append 23 p behind (omega arith),
          drop-append p behind,
          mod-eq_of_lt {n = next} {m = 2 ^ 64} (omega (arith, le-end_of next ps)),
        )
        refl in
    (
      left,
      fits,
      ap (λ t. recover_from (suc fuel) from pos t) (append_assoc p (concat ps) rest)
          ∙ first
          ∙ same
          ∙ ap (λ t. recover_from left (end_of next ps) t rest) (omega (arith, measured)),
    )

recovered_segment-chain :
    (base max_size : ℕ) (ps : List (List ℕ)) (rest : List ℕ)
    → IsChain base ps
    → recovered_segment
        (concat ps ++ rest)
        base
        max_size
        (record { next_offset = end_of base ps; pos = length (concat ps) })
      ≡ ok (record {
        file = concat ps;
        base_offset = base;
        next_offset = end_of base ps;
        current_size = length (concat ps);
        max_size = max_size;
      })
unfolding recovered_segment end_of
recovered_segment-chain base max_size [] rest c = ground arith
recovered_segment-chain base max_size (p ∷ ps) rest c =
    let moved : (end_of (base + span p) ps == base) ≡ false =
      unfold span in ground (arith, le-end_of (base + span p) ps) in
    rw (moved, take-append (concat (p ∷ ps)) rest) refl

-- What ends the loop behind the batches of a chain.
pub new_segment-chain :
    (base max_size : ℕ) (ps : List (List ℕ)) (rest : List ℕ)
    → IsChain base ps
    → end_of base ps < 2 ^ 64
    → ((left pos : ℕ)
        → length rest < left
        → recover_from left (end_of base ps) pos rest
          ≡ ok (record { next_offset = end_of base ps; pos = pos }))
    → new_segment (concat ps ++ rest) base max_size
      ≡ ok (record {
        file = concat ps;
        base_offset = base;
        next_offset = end_of base ps;
        current_size = length (concat ps);
        max_size = max_size;
      })
unfolding new_segment
new_segment-chain base max_size ps rest c small stops =
    let (left, fits, same) =
      recover_from-chain (suc (length (concat ps ++ rest))) 0 base ps rest c small
        (omega (arith, length-append (concat ps) rest)) in
    let zero_first : 0 + length (concat ps) ≡ length (concat ps) = omega arith in
    rw (same, stops left (0 + length (concat ps)) fits, zero_first)
      (recovered_segment-chain base max_size ps rest c)
