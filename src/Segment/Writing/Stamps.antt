-- ===== src/Segment/Writing/Stamps.antt =====
-- internal/log/segment.go, appendRawBatches: the loop that stamps the batches.
use distributed_messaging_sy.Common.{
  ℕ, ◌+◌, ◌-◌, ◌^◌, ◌≤◌, ◌<◌, ◌≡◌, refl, sym, ap, ◌∙◌, true, false, List, [], ◌∷◌, ◌++◌, arith,
  length, drop, length-append, append_assoc, All, IsU32, IsU64, Bool, ltb, Bool-cases, inl, inr,
  if◌then◌else◌,
}
use distributed_messaging_sy.Protocol.Binary.{be32, be64}
use distributed_messaging_sy.Segment.Bytes.{byte_at, u32_at, u64_at, put_at, concat}
use distributed_messaging_sy.Segment.Bytes.Patches.{
  length-put_at, drop-put_at, u32_at-put_at, u64_at-put_at, u64_at-put_be64, u32_at-put_be32,
  put_at-append, put_at_behind,
}
use distributed_messaging_sy.Segment.Batches.{ok, err, corrupt_batch}
use distributed_messaging_sy.Segment.Batches.Valid.{IsBatch}
use distributed_messaging_sy.Segment.Batches.Scan.{IsWhole, bounds_of, all_bounds}
use distributed_messaging_sy.Segment.Chain.{span, end_of, le-end_of}
use distributed_messaging_sy.Segment.Writing.{stamp_at, stamp_loop}

-- One batch with its new base offset and leader epoch.
abbrev pub stamp : ℕ → ℕ → List ℕ → List ℕ
stamp offset epoch p = stamp_at 0 offset epoch p

-- Consecutive base offsets from `offset` on.
unfoldable pub stamp_all : ℕ → ℕ → List (List ℕ) → List (List ℕ)
stamp_all offset epoch [] = []
stamp_all offset epoch (p ∷ ps) = stamp offset epoch p ∷ stamp_all (offset + span p) epoch ps

module _ (offset epoch : ℕ) (p : List ℕ) (long : 61 ≤ length p) where
  length_half : length (put_at 0 (be64 offset) p) ≡ length p
  unfolding be64
  length_half = length-put_at 0 (be64 offset) p (omega arith)

  pub length-stamp : length (stamp offset epoch p) ≡ length p
  unfolding stamp_at be32
  length-stamp =
      length-put_at 12 (be32 epoch) (put_at 0 (be64 offset) p) (omega (arith, length_half))
      ∙ length_half

  -- Behind the epoch nothing changes.
  drop-stamp : (k : ℕ) → drop (16 + k) (stamp offset epoch p) ≡ drop (16 + k) p
  unfolding stamp_at be32 be64
  drop-stamp k =
      drop-put_at k 12 (be32 epoch) (put_at 0 (be64 offset) p)
      ∙ ap (λ n. drop n (put_at 0 (be64 offset) p)) (e k)
      ∙ drop-put_at (8 + k) 0 (be64 offset) p
      ∙ ap (λ n. drop n p) (sym (e k))
    where
      e : (k : ℕ) → 16 + k ≡ 8 + (8 + k)
      e k = omega arith

  u32_at-stamp : (k : ℕ) → u32_at (16 + k) (stamp offset epoch p) ≡ u32_at (16 + k) p
  unfolding u32_at
  u32_at-stamp k = rw (drop-stamp k)

  length_field : u32_at 8 (stamp offset epoch p) ≡ u32_at 8 p
  unfolding stamp_at
  length_field = u32_at-put_at 0 8 (be32 epoch) (put_at 0 (be64 offset) p) ∙ same
    where
      same : u32_at 8 (put_at 0 (be64 offset) p) ≡ u32_at 8 p
      same = unfold u32_at be64 in rw (drop-put_at 0 0 (be64 offset) p)

  pub base-stamp : IsU64 offset → u64_at 0 (stamp offset epoch p) ≡ offset
  unfolding stamp_at
  base-stamp h =
      u64_at-put_at (be32 epoch) (put_at 0 (be64 offset) p) (omega (arith, length_half))
      ∙ u64_at-put_be64 offset p h

  pub epoch-stamp : IsU32 epoch → u32_at 12 (stamp offset epoch p) ≡ epoch
  unfolding stamp_at
  epoch-stamp h = u32_at-put_be32 12 epoch (put_at 0 (be64 offset) p) h (omega (arith, length_half))

  pub stamp-IsBatch : IsBatch (length p) p → IsBatch (length p) (stamp offset epoch p)
  stamp-IsBatch v = record {
    sized = v.sized ∙ ap (λ n. 12 + n) (sym length_field);
    header = v.header;
    within = omega (arith, length-stamp);
    small = v.small;
    magic = unfold byte_at in rw (drop-stamp 0) (unfold byte_at in v.magic);
    intact = rw (drop-stamp 5, u32_at-stamp 1) v.intact;
    counted = rw (u32_at-stamp 41, u32_at-stamp 7) v.counted;
    bounded = rw (u32_at-stamp 41) v.bounded;
  }

  pub span-stamp : span (stamp offset epoch p) ≡ span p
  unfolding span
  span-stamp = ap (λ n. n + 1) (u32_at-stamp 7)

stamp-append :
    (offset epoch : ℕ) (p rest : List ℕ)
    → 61 ≤ length p
    → stamp offset epoch (p ++ rest) ≡ stamp offset epoch p ++ rest
unfolding stamp_at be32 be64
stamp-append offset epoch p rest long =
    ap (λ t. put_at 12 (be32 epoch) t) (put_at-append 0 (be64 offset) p rest (omega arith))
    ∙ put_at-append 12 (be32 epoch) (put_at 0 (be64 offset) p) rest
        (omega (arith, length-put_at 0 (be64 offset) p))

stamp_at_behind :
    (offset epoch : ℕ) (pre bs : List ℕ)
    → stamp_at (length pre) offset epoch (pre ++ bs) ≡ pre ++ stamp offset epoch bs
unfolding stamp_at
stamp_at_behind offset epoch pre bs =
    let here : length pre + 0 ≡ length pre = omega arith in
    ap (λ t. put_at (length pre + 12) (be32 epoch) t)
      (ap (λ n. put_at n (be64 offset) (pre ++ bs)) (sym here)
        ∙ put_at_behind pre 0 (be64 offset) bs)
    ∙ put_at_behind pre 12 (be32 epoch) (put_at 0 (be64 offset) bs)

stamp_at_middle :
    (offset epoch : ℕ) (pre p rest : List ℕ)
    → 61 ≤ length p
    → stamp_at (length pre) offset epoch (pre ++ (p ++ rest))
      ≡ (pre ++ stamp offset epoch p) ++ rest
stamp_at_middle offset epoch pre p rest long =
    stamp_at_behind offset epoch pre (p ++ rest)
    ∙ ap (λ t. pre ++ t) (stamp-append offset epoch p rest long)
    ∙ sym (append_assoc pre (stamp offset epoch p) rest)

-- The loop stamps the batches that stand behind `pre` in the buffer, unless an offset would pass
-- the last uint64.
pub stamp_loop-stamp_all :
    (epoch offset : ℕ) (pre : List ℕ) (parts : List (List ℕ))
    → All IsWhole parts
    → end_of offset parts < 2 ^ 64
    → stamp_loop true epoch (all_bounds (length pre) parts) (pre ++ concat parts) offset
      ≡ ok (pre ++ concat (stamp_all offset epoch parts), end_of offset parts)
unfolding stamp_loop all_bounds bounds_of end_of stamp_all span
stamp_loop-stamp_all epoch offset pre [] w h = refl
stamp_loop-stamp_all epoch offset pre (p ∷ parts) w h =
    let long : 61 ≤ length p = w.0.0.header in
    let pre' = pre ++ stamp offset epoch p in
    let next = offset + (u32_at 23 p + 1) in
    let n : length pre + length p ≡ length pre' =
      omega (arith, length-append pre (stamp offset epoch p), length-stamp offset epoch p long) in
    let fits : ltb (2 ^ 64 - 1 - (u32_at 23 p + 1)) offset ≡ false =
      ground (arith, le-end_of next parts) in
    rw
      (
        fits,
        stamp_at_middle offset epoch pre p (concat parts) long,
        n,
        ← append_assoc pre (stamp offset epoch p) (concat (stamp_all next epoch parts)),
      )
      (stamp_loop-stamp_all epoch next pre' parts w.1 h)

pub stamp_loop-overflow :
    (epoch pos offset : ℕ) (assign : Bool) (buf : List ℕ) (parts : List (List ℕ))
    → All IsWhole parts
    → offset < 2 ^ 64
    → 2 ^ 64 ≤ end_of offset parts
    → stamp_loop assign epoch (all_bounds pos parts) buf offset ≡ err corrupt_batch
unfolding stamp_loop all_bounds bounds_of end_of span
stamp_loop-overflow epoch pos offset assign buf [] w h k = absurd (omega arith)
stamp_loop-overflow epoch pos offset assign buf (p ∷ parts) w h k =
    elim (Bool-cases (ltb (2 ^ 64 - 1 - (u32_at 23 p + 1)) offset)) [
      | inl full ↦ rw full refl
      | inr fits ↦ rw fits (
          stamp_loop-overflow epoch (pos + length p) (offset + (u32_at 23 p + 1)) assign
            (if assign then stamp_at pos offset epoch buf else buf) parts w.1
            (ground (arith, fits, w.0.0.counted, w.0.0.bounded)) k)
    ]

-- Without assignment the buffer stays, and the offsets are counted.
pub stamp_loop-end_of :
    (epoch pos offset : ℕ) (buf : List ℕ) (parts : List (List ℕ))
    → All IsWhole parts
    → end_of offset parts < 2 ^ 64
    → stamp_loop false epoch (all_bounds pos parts) buf offset ≡ ok (buf, end_of offset parts)
unfolding stamp_loop all_bounds bounds_of end_of span
stamp_loop-end_of epoch pos offset buf [] w h = refl
stamp_loop-end_of epoch pos offset buf (p ∷ parts) w h =
    let next = offset + (u32_at 23 p + 1) in
    let fits : ltb (2 ^ 64 - 1 - (u32_at 23 p + 1)) offset ≡ false =
      ground (arith, le-end_of next parts) in
    rw fits (stamp_loop-end_of epoch (pos + length p) next buf parts w.1 h)
