-- ===== src/Segment/Reading/Ranges.antt =====
-- internal/log/segment.go: the copying and the ranged read agree.
use distributed_messaging_sy.Common.{
  ℕ, zero, suc, ◌+◌, ◌-◌, ◌≤◌, ◌<◌, ◌≡◌, refl, sym, ap, ◌∙◌, true, false, Bool, List, [], ◌∷◌, ◌++◌,
  arith, length, take, drop, leb, Bool-cases, inl, inr, is_empty, drop-add, length-drop,
}
use distributed_messaging_sy.Segment.Bytes.{read_at}
use distributed_messaging_sy.Segment.Batches.{
  Result, ok, err, panicked, exhausted, ◌>>=◌, Result-cases,
}
use distributed_messaging_sy.Segment.State.{Segment}
use distributed_messaging_sy.Segment.Reading.{
  BatchMeta, read_file, read_batch_meta_at, budget, offset_behind, is_last, read_loop, some_bytes,
  read_raw_batch_at, range_loop, RawRanges, raw_ranges, read_raw_ranges_at,
}

-- Result-wise function application.
map_result {ℓ κ} : {A : Type ℓ} {B : Type κ} → (A → B) → Result A → Result B
map_result f (ok a) = ok (f a)
map_result f (err e) = err e
map_result f panicked = panicked
map_result f exhausted = exhausted

take_add : (m n : ℕ) (xs : List ℕ) → take (m + n) xs ≡ take m xs ++ take n (drop m xs)
take_add zero n xs = ap (λ k. take k xs) (omega arith)
take_add (suc m) zero [] = let e : suc m + 0 ≡ suc (m + 0) = omega arith in rw e refl
take_add (suc m) (suc n) [] = let e : suc m + suc n ≡ suc (m + suc n) = omega arith in rw e refl
take_add (suc m) n (x ∷ xs) =
    let e : suc m + n ≡ suc (m + n) = omega arith in rw e (ap (λ t. x ∷ t) (take_add m n xs))

-- The bytes of the file from `start` to `end_pos`.
copied : Segment → ℕ → ℕ × ℕ → List ℕ × ℕ
copied s start (end_pos, fetched) = (take (end_pos - start) (drop start s.file), fetched)

module _ (s : Segment) (start : ℕ) (whole : s.current_size ≤ length s.file) where
  read_file-take :
      (n pos : ℕ) → pos + n ≤ s.current_size → read_file s n pos ≡ ok (take n (drop pos s.file))
  unfolding read_file read_at
  read_file-take n pos h = ground arith

  longer :
      (pos n : ℕ)
      → start ≤ pos
      → take (pos - start) (drop start s.file) ++ take n (drop pos s.file)
        ≡ take (pos + n - start) (drop start s.file)
  longer pos n h =
      let e : pos ≡ start + (pos - start) = omega arith in
      let e' : pos + n - start ≡ (pos - start) + n = omega arith in
      ap (λ k. take (pos - start) (drop start s.file) ++ take n (drop k s.file)) e
      ∙ ap (λ t. take (pos - start) (drop start s.file) ++ take n t)
          (drop-add start (pos - start) s.file)
      ∙ sym (take_add (pos - start) n (drop start s.file))
      ∙ ap (λ k. take k (drop start s.file)) (sym e')

  read_loop-range_loop :
      (fuel pos : ℕ) (first : Bool) (remaining fetched : ℕ)
      → start ≤ pos
      → read_loop fuel s pos first remaining (take (pos - start) (drop start s.file)) fetched
        ≡ map_result (copied s start) (range_loop fuel s pos first remaining pos fetched)
  unfolding read_loop range_loop map_result copied is_last
  read_loop-range_loop zero pos first remaining fetched k = refl
  read_loop-range_loop (suc fuel) pos first remaining fetched k =
      elim (Result-cases (read_batch_meta_at s pos)) [
        | inl (m, e) ↦ ground (
          arith,
          e,
          read_file-take m.on_disk_size pos,
          longer pos m.on_disk_size k,
          read_loop-range_loop fuel (pos + m.on_disk_size) false (remaining - m.on_disk_size)
              (offset_behind m),
        )
        | inr failed ↦ ground (arith, failed)
      ]

  range_loop-le :
      (fuel pos : ℕ) (first : Bool) (remaining fetched end_pos behind : ℕ)
      → range_loop fuel s pos first remaining pos fetched ≡ ok (end_pos, behind)
      → pos ≤ end_pos
  unfolding range_loop
  range_loop-le zero pos first remaining fetched end_pos behind h = cc
  range_loop-le (suc fuel) pos first remaining fetched end_pos behind h =
      elim (Result-cases (read_batch_meta_at s pos)) [
        | inl (m, e) ↦ ground (
          arith,
          e,
          range_loop-le fuel (pos + m.on_disk_size) false (remaining - m.on_disk_size)
              (offset_behind m) end_pos behind,
        )
        | inr failed ↦ ground (arith, failed)
      ]

is_empty-take : (n : ℕ) (xs : List ℕ) → 0 < n → 0 < length xs → is_empty (take n xs) ≡ false
is_empty-take zero xs h k = absurd (omega arith)
is_empty-take (suc n) [] h k = absurd (omega arith)
is_empty-take (suc n) (x ∷ xs) h k = refl

-- What ReadRawBatchAt returns for a range.
abbrev read_range : RawRanges → Result (List ℕ × ℕ)
read_range r = ok (take r.length (drop r.offset r.file), r.fetched_up_to)

finish :
    (s : Segment) (pos : ℕ) (r : Result (ℕ × ℕ))
    → pos < length s.file
    → ((end_pos behind : ℕ) → r ≡ ok (end_pos, behind) → pos < end_pos)
    → (map_result (copied s pos) r >>= some_bytes) ≡ (r >>= raw_ranges s pos >>= read_range)
unfolding map_result copied some_bytes raw_ranges
finish s pos (ok (end_pos, behind)) h k =
    let after = k end_pos behind refl in
    ground (
      arith,
      after,
      is_empty-take (end_pos - pos) (drop pos s.file) (omega arith)
          (omega (arith, length-drop pos s.file)),
    )
finish s pos (err e) h k = refl
finish s pos panicked h k = refl
finish s pos exhausted h k = refl

meta-size :
    (s : Segment) (pos : ℕ) (m : BatchMeta) → read_batch_meta_at s pos ≡ ok m → 0 < m.on_disk_size
unfolding read_batch_meta_at
meta-size s pos m h = ground arith

module _ (fuel : ℕ) (s : Segment) (pos remaining : ℕ) (whole : s.current_size ≤ length s.file)
    (inside : pos < s.current_size) where
  -- The first round, where it goes past the first batch.
  first_batch :
      (m : BatchMeta)
      → read_batch_meta_at s pos ≡ ok m
      → is_last s pos true remaining m.on_disk_size ≡ false
      → (read_loop (suc fuel) s pos true remaining [] 0
          ≡ map_result (copied s pos) (range_loop (suc fuel) s pos true remaining 0 0))
        × ((end_pos behind : ℕ)
            → range_loop (suc fuel) s pos true remaining 0 0 ≡ ok (end_pos, behind)
            → pos < end_pos)
  unfolding read_loop range_loop map_result copied
  first_batch m e last =
      let size = m.on_disk_size in
      let in_segment : pos + size ≤ s.current_size = unfold is_last in ground arith in
      let nothing : take (pos - pos) (drop pos s.file) ≡ [] =
        let z : pos - pos ≡ 0 = omega arith in rw z refl in
      (
        ground (
          arith,
          e,
          last,
          read_file-take s pos whole size pos in_segment,
          longer s pos whole pos size (omega arith),
          nothing,
          read_loop-range_loop s pos whole fuel (pos + size) false (remaining - size)
              (offset_behind m),
        ),
        λ end_pos behind h. ground (
          arith,
          e,
          last,
          h,
          meta-size s pos m e,
          range_loop-le s pos whole fuel (pos + size) false (remaining - size) (offset_behind m)
              end_pos behind,
        ),
      )

  no_batch :
      (m : BatchMeta)
      → read_batch_meta_at s pos ≡ ok m
      → is_last s pos true remaining m.on_disk_size ≡ true
      → (read_loop (suc fuel) s pos true remaining [] 0 >>= some_bytes)
        ≡ (range_loop (suc fuel) s pos true remaining 0 0 >>= raw_ranges s pos >>= read_range)
  unfolding read_loop range_loop some_bytes raw_ranges
  no_batch m e last = ground (arith, e, last)

  first_round :
      (read_loop (suc fuel) s pos true remaining [] 0 >>= some_bytes)
      ≡ (range_loop (suc fuel) s pos true remaining 0 0 >>= raw_ranges s pos >>= read_range)
  first_round = elim (Result-cases (read_batch_meta_at s pos)) [
    | inl (m, e) ↦ elim (Bool-cases (is_last s pos true remaining m.on_disk_size)) [
      | inl last ↦ no_batch m e last
      | inr more ↦
          let (same, after) = first_batch m e more in
          rw same
            (finish s pos (range_loop (suc fuel) s pos true remaining 0 0) (omega arith) after)
    ]
    | inr failed ↦ unfold read_loop range_loop in ground (arith, failed)
  ]

-- ReadRawRangesAt describes what ReadRawBatchAt copies: on a segment whose file is not shorter than
-- its size, both fail alike, or the bytes that are copied are those that the file of the range has
-- from the offset of the range on, for the length of the range, and both report the same next offset.
pub read_raw_batch_at-ranges :
    (s : Segment) (pos max_bytes : ℕ)
    → s.current_size ≤ length s.file
    → read_raw_batch_at s pos max_bytes ≡ (
        read_raw_ranges_at s pos max_bytes >>= λ r.
        ok (take r.length (drop r.offset r.file), r.fetched_up_to))
unfolding read_raw_batch_at read_raw_ranges_at
read_raw_batch_at-ranges s pos max_bytes whole = elim (Bool-cases (leb s.current_size pos)) [
  | inl beyond ↦ rw beyond refl
  | inr inside ↦
      rw inside (first_round s.current_size s pos (budget max_bytes) whole (ground arith))
]
