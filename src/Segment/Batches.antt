-- ===== src/Segment/Batches.antt =====
-- internal/log/segment.go: validateRawBatch and scanRawBatches. Positions and sizes of a file are
-- not negative and below 2 ^ 63.
pub mod Valid
pub mod Scan
use distributed_messaging_sy.Common.{
  ℕ, zero, suc, ◌+◌, ◌-◌, ◌^◌, ◌<◌, Bool, true, false, not, ◌||◌, List, [], ◌∷◌, ◌++◌, length, take,
  drop, ltb, leb, ◌==◌, if◌then◌else◌, is_empty, is_negative_i32, is_negative_i64, ◌≡◌, refl, ◌⊎◌,
  inl, inr,
}
use distributed_messaging_sy.Segment.Bytes.{byte_at, u32_at, u64_at, slice, checksum}

pub data LogError : Type 0 where
  segment_full message_too_large corrupt_batch multiple_batches unsupported_message_format
        unexpected_append_offset other :
      LogError

-- `panicked` is an index panic; `exhausted` is the end of the fuel of a loop.
pub data Result {ℓ} (A : Type ℓ) : Type ℓ where
  ok : A → Result A
  err : LogError → Result A
  panicked exhausted : Result A

-- The next step of a chain, where the first succeeded.
infixl 5 ◌>>=◌
abbrev pub ◌>>=◌ {ℓ κ} : {A : Type ℓ} {C : Type κ} → Result A → (A → Result C) → Result C
exhausted >>= step = exhausted
panicked >>= step = panicked
err code >>= step = err code
ok value >>= step = step value

pub Result-cases {ℓ} :
    {A : Type ℓ} (r : Result A)
    → ((a : A) × (r ≡ ok a)) ⊎ (((e : LogError) × (r ≡ err e)) ⊎ ((r ≡ panicked) ⊎ (r ≡ exhausted)))
Result-cases (ok a) = inl (a, refl)
Result-cases (err e) = inr (inl (e, refl))
Result-cases panicked = inr (inr (inl refl))
Result-cases exhausted = inr (inr (inr refl))

-- What validateRawBatch returns.
pub record Extent : Type 0 where
  pub size : ℕ
  pub last_offset_delta : ℕ

-- The checks behind the checksum: lastOffsetDelta and recordCount.
unfoldable pub check_counts : ℕ → List ℕ → Result Extent
check_counts size bs =
    let delta = u32_at 23 bs in
    let count = u32_at 57 bs in
    if is_negative_i32 delta
    then err corrupt_batch
    else if is_negative_i32 count || count == 0
    then err corrupt_batch
    else if not (delta == count - 1)
    then err corrupt_batch
    else ok (record { size = size; last_offset_delta = delta })

-- validateRawBatch
unfoldable pub validate_raw_batch : List ℕ → Result Extent
unfolding check_counts
validate_raw_batch bs =
    let batch_length = u32_at 8 bs in
    let size = 12 + batch_length in
    if ltb (length bs) 61
    then err corrupt_batch
    else if is_negative_i32 batch_length
    then err corrupt_batch
    else if ltb size 61
    then err corrupt_batch
    else if ltb (length bs) size
    then err corrupt_batch
    else if not (byte_at 16 bs == 2)
    then err unsupported_message_format
    else if not (checksum (slice 21 size bs) == u32_at 17 bs)
    then err corrupt_batch
    else check_counts size bs

pub record BatchBounds : Type 0 where
  pub offset : ℕ
  pub size : ℕ
  pub last_offset_delta : ℕ
  pub base_offset : ℕ
  pub leader_epoch : ℕ

-- What the loop of scanRawBatches notes of the batch at `pos`, where `bs` is `data[pos:]`.
unfoldable pub bounds_at : ℕ → Extent → List ℕ → Result BatchBounds
bounds_at pos e bs =
    if is_negative_i64 (u64_at 0 bs)
    then err corrupt_batch
    else ok (record {
      offset = pos;
      size = e.size;
      last_offset_delta = e.last_offset_delta;
      base_offset = u64_at 0 bs;
      leader_epoch = u32_at 12 bs;
    })

-- The loop of scanRawBatches at `pos`, with `bs` for `data[pos:]`, on fuel.
unfoldable pub scan_from : ℕ → ℕ → List ℕ → Result (List BatchBounds)
unfolding bounds_at
scan_from zero pos bs = exhausted
scan_from (suc fuel) pos [] = ok []
scan_from (suc fuel) pos (b ∷ bs) = do
  e ← validate_raw_batch (b ∷ bs)
  first ← bounds_at pos e (b ∷ bs)
  rest ← scan_from fuel (pos + e.size) (drop e.size (b ∷ bs))
  ok (first ∷ rest)

-- scanRawBatches
unfoldable pub scan_raw_batches : List ℕ → Result (List BatchBounds)
unfolding scan_from
scan_raw_batches bs = scan_from (suc (length bs)) 0 bs
