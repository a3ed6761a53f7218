-- ===== src/Log/Pairs/Overflow.antt =====
-- internal/log/log.go, newSegmentPair: a segment with too many batches for its index.
use distributed_messaging_sy.Common.{
  ℕ, zero, suc, ◌+◌, ◌*◌, ◌^◌, ◌≤◌, ◌<◌, ◌≡◌, ◌≢◌, ◌⊎◌, refl, sym, ap, ◌∙◌, Bool-cases, inl, inr,
  leb, none, some, Option-cases, List, [], ◌∷◌, ◌++◌, arith, All, length, length-append,
  append_assoc, if◌then◌else◌,
}
use distributed_messaging_sy.OffsetIndex.{
  Index, is_full, write, put_entry, resize, recover_size, new_index,
}
use distributed_messaging_sy.Segment.Bytes.{concat, u64_at}
use distributed_messaging_sy.Segment.Batches.{ok, err, other}
use distributed_messaging_sy.Segment.Batches.Valid.{IsBatch}
use distributed_messaging_sy.Segment.State.{Segment}
use distributed_messaging_sy.Segment.Chain.{span, end_of, IsChain}
use distributed_messaging_sy.Segment.Recovery.Torn.{new_segment_whole}
use distributed_messaging_sy.Segment.Reading.Budget.{meta-at, batch-at}
use distributed_messaging_sy.Log.State.{LogConfig, SegmentPair}
use distributed_messaging_sy.Log.Pairs.{
  note_entry, rebuild_loop, rebuild_index_from_segment, paired, new_segment_pair,
}

-- An entry is due, and the index has room for it or not.
note_entry-due :
    (idx : Index) (interval offset pos bytes : ℕ)
    → interval ≤ bytes
    → (note_entry idx interval offset pos bytes ≡ none)
      ⊎ ((idx' : Index) × (note_entry idx interval offset pos bytes ≡ some (idx', 0))
          × (idx'.size ≡ idx.size + 12)
          × (idx'.max_bytes ≡ idx.max_bytes)
          × (idx.size + 12 ≤ idx.max_bytes))
unfolding note_entry write put_entry
note_entry-due idx interval offset pos bytes h = elim (Bool-cases (is_full idx)) [
  | inl full ↦ inl (ground (arith, full))
  | inr room ↦ inr (
    put_entry idx offset pos,
    ground (arith, room),
    refl,
    refl,
    unfold is_full in ground (arith, room),
  )
]

module _ (s : Segment) (sized : s.current_size ≡ length s.file) (interval : ℕ) where
  -- One round over a whole batch, by what became of its index entry.
  module _ (fuel : ℕ) (front q rest : List ℕ) (bytes : ℕ) (idx : Index)
      (e : s.file ≡ front ++ (q ++ rest)) (v : IsBatch (length q) q) where
    rebuild_loop-stop :
        note_entry idx interval (u64_at 0 q) (length front) (bytes + length q) ≡ none
        → (rebuild_loop (suc fuel) s interval (length front) bytes idx).1 ≡ err other
    unfolding rebuild_loop
    rebuild_loop-stop n =
        let (whole, inside, fits) = batch-at s front q rest e v sized in
        let m = meta-at s front q rest e v in ground (arith, inside, fits, m, n, v.header)

    pub rebuild_loop-next :
        (idx' : Index) (left : ℕ)
        → note_entry idx interval (u64_at 0 q) (length front) (bytes + length q) ≡ some (idx', left)
        → rebuild_loop (suc fuel) s interval (length front) bytes idx
          ≡ rebuild_loop fuel s interval (length (front ++ q)) left idx'
    unfolding rebuild_loop
    rebuild_loop-next idx' left n =
        let (whole, inside, fits) = batch-at s front q rest e v sized in
        let m = meta-at s front q rest e v in
        ground (arith, inside, fits, m, n, v.header, length-append front q)

  rebuild_loop-full :
      (fuel : ℕ) (front : List ℕ) (qs : List (List ℕ)) (from bytes : ℕ) (idx : Index)
      → s.file ≡ front ++ concat qs
      → IsChain from qs
      → All (λ q. interval ≤ length q) qs
      → length (concat qs) < fuel
      → idx.size ≤ idx.max_bytes
      → idx.max_bytes < idx.size + 12 * length qs
      → (rebuild_loop fuel s interval (length front) bytes idx).1 ≡ err other
  rebuild_loop-full zero front qs from bytes idx e c long f room full = absurd (omega arith)
  rebuild_loop-full (suc fuel) front [] from bytes idx e c long f room full = absurd (omega arith)
  rebuild_loop-full (suc fuel) front (q ∷ qs) from bytes idx e c long f room full =
      elim (note_entry-due idx interval (u64_at 0 q) (length front) (bytes + length q)
        (omega (arith, long.0))) [
          | inl none_left ↦ rebuild_loop-stop fuel front q (concat qs) bytes idx e c.0 none_left
          | inr (idx', noted, size, max, fits) ↦
              ap (λ r. r.1)
                (rebuild_loop-next fuel front q (concat qs) bytes idx e c.0 idx' 0 noted)
              ∙ rebuild_loop-full fuel (front ++ q) qs (from + span q) 0 idx'
                  (e ∙ sym (append_assoc front q (concat qs))) c.2 long.1
                  (omega (arith, length-append q (concat qs), c.0.header)) (omega arith)
                  (omega arith)
        ]

abbrev opened_segment : ℕ → ℕ → List (List ℕ) → Segment
opened_segment base max_size ps = record {
  file = concat ps;
  base_offset = base;
  next_offset = end_of base ps;
  current_size = length (concat ps);
  max_size = max_size;
}

new_index-max :
    (file : List ℕ) (base max_bytes : ℕ) (idx : Index)
    → 0 < max_bytes
    → new_index file base max_bytes ≡ some idx
    → idx.max_bytes ≡ max_bytes
unfolding new_index
new_index-max file base max_bytes idx h e =
    elim (Option-cases
      (if leb (length file) 0 then some 0 else recover_size max_bytes (resize max_bytes file))) [
        | inl none_left ↦ absurd (ground (arith, none_left, e))
        | inr (size, f) ↦ ground (arith, f, e)
      ]

-- A segment file of whole batches that are each at least `index_interval_bytes` long, more of them
-- than the index has room for entries: newSegmentPair does not open it, whatever the index file is,
-- since rebuildIndexFromSegment writes an entry for each batch.
pub new_segment_pair_overflow :
    (ps : List (List ℕ)) (index_file : List ℕ) (base : ℕ) (config : LogConfig) (p : SegmentPair)
    → IsChain base ps
    → end_of base ps < 2 ^ 64
    → All (λ q. config.index_interval_bytes ≤ length q) ps
    → 0 < config.max_index_bytes
    → config.max_index_bytes < 12 * length ps
    → new_segment_pair (concat ps) index_file base config ≢ ok p
new_segment_pair_overflow ps index_file base config p c small long room full =
    let opened = opened_segment base config.max_segment_bytes ps in
    let fresh = new_segment_whole base config.max_segment_bytes ps c small in
    elim (Option-cases (new_index index_file base config.max_index_bytes)) [
      | inl e ↦ λ h. unfold new_segment_pair in ground (arith, fresh, e, h)
      | inr (idx, e) ↦
          let max = new_index-max index_file base config.max_index_bytes idx room e in
          let failed : (rebuild_index_from_segment opened idx config.index_interval_bytes).1
              ≡ err other =
            unfold rebuild_index_from_segment in
            rebuild_loop-full opened refl config.index_interval_bytes (suc (length (concat ps))) []
              ps base 0 (record idx { size = 0 }) refl c long (omega arith) (omega arith)
              (omega (arith, max)) in
          λ h. unfold new_segment_pair paired in ground (arith, fresh, e, failed, h)
    ]
