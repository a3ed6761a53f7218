-- ===== src/Segment/Reading/Budget.antt =====
-- internal/log/segment.go, ReadBatchMetaAt and ReadRawBatchAt: which batches are read.
use distributed_messaging_sy.Common.{
  ℕ, zero, suc, ◌+◌, ◌-◌, ◌^◌, ◌≤◌, ◌<◌, ◌≡◌, refl, sym, ap, ◌∙◌, true, false, List, [], ◌∷◌, ◌++◌,
  arith, length, take, drop, length-append, append_assoc, append-nil, drop-append, ltb, leb,
  if◌then◌else◌, is_empty, subst,
}
use distributed_messaging_sy.Segment.Bytes.{u32_at, u64_at, read_at, concat}
use distributed_messaging_sy.Segment.Bytes.Slices.{
  concat-append, u32_at-append, u64_at-append, take-append_within, take-append_drop, length-take_le,
  take_all,
}
use distributed_messaging_sy.Segment.Batches.{ok}
use distributed_messaging_sy.Segment.Batches.Valid.{IsBatch}
use distributed_messaging_sy.Segment.State.{Segment}
use distributed_messaging_sy.Segment.Chain.{
  span, end_of, IsChain, Holds, end_of-append, le-end_of, IsChain-prefix,
}
use distributed_messaging_sy.Segment.Reading.{
  read_file, read_batch_meta_at, budget, offset_behind, is_last, read_loop, some_bytes,
  read_raw_batch_at,
}

-- The batches, from the first on, that fit together into `n` bytes.
unfoldable pub fit : ℕ → List (List ℕ) → List (List ℕ)
fit n [] = []
fit n (q ∷ qs) = if leb (length q) n then q ∷ fit (n - length q) qs else []

module _ (s : Segment) (front q rest : List ℕ) (bytes : s.file ≡ front ++ (q ++ rest)) where
  pub read_file-at : (n : ℕ) → n ≤ length q → read_file s n (length front) ≡ ok (take n q)
  unfolding read_file read_at
  read_file-at n h =
      let long : length s.file ≡ length front + (length q + length rest) =
        ap length bytes
        ∙ length-append front (q ++ rest)
        ∙ ap (λ k. length front + k) (length-append q rest) in
      let got : take n (drop (length front) s.file) ≡ take n q =
        rw (bytes, drop-append front (q ++ rest)) (take-append_within n q rest h) in
      ground (arith, long, got)

  -- ReadBatchMetaAt at the start of a batch reads its header.
  pub meta-at :
      IsBatch (length q) q
      → read_batch_meta_at s (length front)
        ≡ ok (record {
          first_offset = u64_at 0 q;
          last_offset_delta = u32_at 23 q;
          on_disk_size = length q;
        })
  unfolding read_batch_meta_at
  meta-at v =
      let n : length (take 27 q) ≡ 27 = length-take_le 27 q (omega (arith, v.header)) in
      let head = take 27 q in
      let split = sym (take-append_drop 27 q) in
      ground (
        arith,
        v.sized,
        read_file-at 27 (omega (arith, v.header)),
        ap (λ t. u64_at 0 t) split ∙ u64_at-append 0 head (drop 27 q) (omega arith),
        ap (λ t. u32_at 23 t) split ∙ u32_at-append 23 head (drop 27 q) (omega arith),
        ap (λ t. u32_at 8 t) split ∙ u32_at-append 8 head (drop 27 q) (omega arith),
      )

  -- What one round finds.
  pub batch-at :
      IsBatch (length q) q
      → s.current_size ≡ length s.file
      → (read_file s (length q) (length front) ≡ ok q)
        × (ltb (length front) s.current_size ≡ true)
        × (length front + length q ≤ s.current_size)
  batch-at v sized =
      let long : length s.file ≡ length front + (length q + length rest) =
        ap length bytes
        ∙ length-append front (q ++ rest)
        ∙ ap (λ k. length front + k) (length-append q rest) in
      (
        read_file-at (length q) (omega arith) ∙ ap ok (take_all q),
        ground (arith, long, v.header),
        omega (arith, long),
      )

fit_zero : (qs : List (List ℕ)) (from : ℕ) → IsChain from qs → fit 0 qs ≡ []
unfolding fit
fit_zero [] from c = refl
fit_zero (q ∷ qs) from c = ground (arith, c.0.header)

offset_behind-span :
    (q : List ℕ) (qs : List (List ℕ)) (from : ℕ)
    → IsBatch (length q) q
    → u64_at 0 q ≡ from
    → end_of (from + span q) qs < 2 ^ 64
    → offset_behind (record {
      first_offset = u64_at 0 q;
      last_offset_delta = u32_at 23 q;
      on_disk_size = length q;
    })
      ≡ from + span q
unfolding offset_behind span
offset_behind-span q qs from v e small = omega (arith, le-end_of (from + (u32_at 23 q + 1)) qs)

module _ (s : Segment) (sized : s.current_size ≡ length s.file) where
  -- The rounds behind the first batch, from `front` on.
  read_loop-fit :
      (fuel : ℕ) (front : List ℕ) (qs : List (List ℕ)) (remaining from : ℕ) (result : List ℕ)
      → s.file ≡ front ++ concat qs
      → IsChain from qs
      → end_of from qs < 2 ^ 64
      → length (concat qs) < fuel
      → read_loop fuel s (length front) false remaining result from
        ≡ ok (result ++ concat (fit remaining qs), end_of from (fit remaining qs))
  unfolding fit end_of read_loop is_last
  read_loop-fit zero front qs remaining from result bytes c small fuel_ok = absurd (omega arith)
  read_loop-fit (suc fuel) front [] remaining from result bytes c small fuel_ok =
      let end : length s.file ≡ length front = ap length bytes ∙ ap length (append-nil front) in
      ground (arith, end, append-nil result)
  read_loop-fit (suc fuel) front (q ∷ qs) remaining from result bytes c small fuel_ok =
      let (whole, inside, fits) = batch-at s front q (concat qs) bytes c.0 sized in
      let m = meta-at s front q (concat qs) bytes c.0 in
      let next = from + span q in
      let rest =
        read_loop-fit fuel (front ++ q) qs (remaining - length q) next (result ++ q)
          (bytes ∙ sym (append_assoc front q (concat qs))) c.2 small
          (omega (arith, length-append q (concat qs), c.0.header)) in
      let behind = offset_behind-span q qs from c.0 c.1 small in
      ground (
        arith,
        whole,
        inside,
        m,
        behind,
        rest,
        length-append front q,
        append_assoc result q (concat (fit (remaining - length q) qs)),
        fit_zero qs next c.2,
        append-nil result,
        append-nil (result ++ q),
        append-nil q,
      )

  -- The first round.
  read_loop-first :
      (fuel : ℕ) (front p : List ℕ) (qs : List (List ℕ)) (remaining from : ℕ)
      → s.file ≡ front ++ concat (p ∷ qs)
      → IsChain from (p ∷ qs)
      → end_of from (p ∷ qs) < 2 ^ 64
      → length (concat qs) < fuel
      → read_loop (suc fuel) s (length front) true remaining [] 0
        ≡ ok (
          concat (p ∷ fit (remaining - length p) qs),
          end_of from (p ∷ fit (remaining - length p) qs),
        )
  unfolding end_of read_loop is_last
  read_loop-first fuel front p qs remaining from bytes c small fuel_ok =
      let (whole, inside, fits) = batch-at s front p (concat qs) bytes c.0 sized in
      let m = meta-at s front p (concat qs) bytes c.0 in
      let behind = offset_behind-span p qs from c.0 c.1 small in
      let next = from + span p in
      let rest =
        read_loop-fit fuel (front ++ p) qs (remaining - length p) next p
          (bytes ∙ sym (append_assoc front p (concat qs))) c.2 small fuel_ok in
      let none_left : remaining ≤ length p → fit (remaining - length p) qs ≡ [] =
        λ (h : remaining ≤ length p).
          let z : remaining - length p ≡ 0 = omega arith in rw z (fit_zero qs next c.2) in
      ground (arith, whole, inside, m, behind, rest, length-append front p, none_left, append-nil p)

is_empty-append : (p rest : List ℕ) → 61 ≤ length p → is_empty (p ++ rest) ≡ false
is_empty-append [] rest h = absurd (omega arith)
is_empty-append (b ∷ p) rest h = refl

-- ReadRawBatchAt at the start of a batch of a sound segment returns that batch, and behind it the
-- longest row of batches that fits into what the budget leaves; the offset that it returns is the
-- one behind the last batch returned. So it never cuts a batch, and returns more bytes than the
-- budget only where the first batch alone is larger.
pub read_raw_batch_at-fit :
    (s : Segment) (pre : List (List ℕ)) (p : List ℕ) (post : List (List ℕ)) (max_bytes : ℕ)
    → Holds s (pre ++ (p ∷ post))
    → read_raw_batch_at s (length (concat pre)) max_bytes
      ≡ ok (
        concat (p ∷ fit (budget max_bytes - length p) post),
        end_of s.base_offset (pre ++ (p ∷ fit (budget max_bytes - length p) post)),
      )
unfolding read_raw_batch_at some_bytes
read_raw_batch_at-fit s pre p post max_bytes h =
    let from = end_of s.base_offset pre in
    let chain = (IsChain-prefix s.base_offset pre (p ∷ post) h.chain).1 in
    let bytes = h.bytes ∙ concat-append pre (p ∷ post) in
    let small : end_of from (p ∷ post) < 2 ^ 64 =
      subst (λ n. n < 2 ^ 64) (h.next ∙ end_of-append s.base_offset pre (p ∷ post)) h.room in
    let taken = fit (budget max_bytes - length p) post in
    let (whole, inside, fits) = batch-at s (concat pre) p (concat post) bytes chain.0 h.size in
    let long : length (concat post) < s.current_size = omega (
      arith,
      h.size,
      ap length bytes,
      length-append (concat pre) (p ++ concat post),
      length-append p (concat post),
      chain.0.header,
    ) in
    let read =
      read_loop-first s h.size s.current_size (concat pre) p post (budget max_bytes) from bytes
        chain small long in
    ground (
      arith,
      inside,
      read,
      is_empty-append p (concat taken) chain.0.header,
      end_of-append s.base_offset pre (p ∷ taken),
    )
