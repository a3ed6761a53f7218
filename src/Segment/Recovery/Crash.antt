-- ===== src/Segment/Recovery/Crash.antt =====
-- internal/log/segment.go, recover: a length that makes it panic.
use distributed_messaging_sy.Common.{
  ℕ, zero, suc, ◌+◌, ◌^◌, ◌≤◌, ◌<◌, ◌≡◌, List, [], ◌∷◌, ◌++◌, arith, length, length-append,
}
use distributed_messaging_sy.Segment.Bytes.{byte_at, u32_at, concat}
use distributed_messaging_sy.Segment.Batches.{panicked}
use distributed_messaging_sy.Segment.Chain.{end_of, IsChain}
use distributed_messaging_sy.Segment.Recovery.{
  negative_length, find_batch, recover_from, new_segment,
}
use distributed_messaging_sy.Segment.Recovery.Reopen.{recover_from-chain}

find_batch-short :
    (bs : List ℕ)
    → 61 ≤ length bs
    → u32_at 8 bs < 9
    → byte_at 16 bs ≡ 2
    → find_batch bs ≡ negative_length
unfolding find_batch
find_batch-short bs h small magic = ground arith

recover_from-short :
    (left next pos : ℕ) (bs : List ℕ)
    → 61 ≤ length bs
    → length bs < left
    → find_batch bs ≡ negative_length
    → recover_from left next pos bs ≡ panicked
unfolding recover_from
recover_from-short zero next pos bs long h e = absurd (omega arith)
recover_from-short (suc left) next pos [] long h e = absurd (omega arith)
recover_from-short (suc left) next pos (b ∷ bs) long h e = rw (e, recover_from)

-- Where whole batches are followed by 61 bytes or more with magic 2 and a batch length below 9,
-- NewSegment does not truncate the file there: it panics.
pub new_segment_crash :
    (base max_size : ℕ) (ps : List (List ℕ)) (rest : List ℕ)
    → IsChain base ps
    → end_of base ps < 2 ^ 64
    → 61 ≤ length rest
    → u32_at 8 rest < 9
    → byte_at 16 rest ≡ 2
    → new_segment (concat ps ++ rest) base max_size ≡ panicked
unfolding new_segment
new_segment_crash base max_size ps rest c small long short magic =
    let (left, fits, same) =
      recover_from-chain (suc (length (concat ps ++ rest))) 0 base ps rest c small
        (omega (arith, length-append (concat ps) rest)) in
    rw (
      same,
      recover_from-short left (end_of base ps) (0 + length (concat ps)) rest long fits
          (find_batch-short rest long short magic),
    )
