-- ===== src/Log/Opening/Indexed.antt =====
-- internal/log/log.go, newSegmentPair: the index of the pair that it opens points at batches.
use distributed_messaging_sy.Common.{
  ℕ, zero, suc, ◌+◌, ◌*◌, ◌^◌, ◌≤◌, ◌<◌, ◌≡◌, refl, sym, ap, ◌∙◌, subst, List, [], ◌∷◌, ◌++◌, take,
  arith, length, length-append, append_assoc, append-nil,
}
use distributed_messaging_sy.OffsetIndex.{Index}
use distributed_messaging_sy.OffsetIndex.Entries.{entries_bytes}
use distributed_messaging_sy.Segment.Bytes.{concat, u64_at}
use distributed_messaging_sy.Segment.Bytes.Slices.{concat-append}
use distributed_messaging_sy.Segment.Batches.{ok}
use distributed_messaging_sy.Segment.Batches.Valid.{IsBatch}
use distributed_messaging_sy.Segment.State.{Segment}
use distributed_messaging_sy.Segment.Chain.{Holds, IsChain-prefix}
use distributed_messaging_sy.Segment.Recovery.Torn.{new_segment-torn}
use distributed_messaging_sy.OffsetIndex.Total.{new_index-some, new_index-frame}
use distributed_messaging_sy.Log.State.{LogConfig, SegmentPair}
use distributed_messaging_sy.Log.Pairs.{
  rebuild_loop, rebuild_index_from_segment, paired, new_segment_pair,
}
use distributed_messaging_sy.Log.Pairs.Overflow.{rebuild_loop-next}
use distributed_messaging_sy.Log.Pairs.Room.{note_entry-room, reopened, reopened-Holds}
use distributed_messaging_sy.Log.Raw.Reads.{IsIndexed}
use distributed_messaging_sy.Log.Opening.Marked.{IsMarked, note_entry-IsMarked}

module _ (s : Segment) (reach : s.next_offset ≤ s.base_offset + 2 ^ 32)
    (small : s.current_size < 2 ^ 64) (interval : ℕ) where
  -- The loop over the batches that are left ends, where the index has room for an entry of each.
  rebuild_loop-IsMarked :
      (fuel : ℕ) (before qs : List (List ℕ)) (bytes : ℕ) (idx : Index)
      → Holds s (before ++ qs)
      → length (concat qs) < fuel
      → idx.size + 12 * length qs ≤ idx.max_bytes
      → IsMarked s before idx
      → (idx' : Index) × (left : ℕ) × (rebuild_loop fuel s interval
            (length (concat before))
            bytes
            idx
          ≡ (idx', ok left))
        × IsMarked s (before ++ qs) idx'
  rebuild_loop-IsMarked zero before qs bytes idx h f room x = absurd (omega arith)
  rebuild_loop-IsMarked (suc fuel) before [] bytes idx h f room x =
      let end : s.current_size ≡ length (concat before) =
        h.size ∙ ap length h.bytes ∙ ap (λ ps. length (concat ps)) (append-nil before) in
      (
        idx,
        bytes,
        unfold rebuild_loop in ground (arith, end),
        subst (λ ps. IsMarked s ps idx) (sym (append-nil before)) x,
      )
  rebuild_loop-IsMarked (suc fuel) before (q ∷ qs) bytes idx h f room x =
      let c = (IsChain-prefix s.base_offset before (q ∷ qs) h.chain).1 in
      let front = concat before in
      let (idx1, left1, noted, size, max) =
        note_entry-room idx interval (u64_at 0 q) (length front) (bytes + length q) (omega arith) in
      let next =
        rebuild_loop-next s h.size interval fuel front q (concat qs) bytes idx
          (h.bytes ∙ concat-append before (q ∷ qs)) c.0 idx1 left1 noted in
      let joined : concat (before ++ (q ∷ [])) ≡ front ++ q =
        concat-append before (q ∷ []) ∙ ap (λ t. front ++ t) (append-nil q) in
      let split = sym (append_assoc before (q ∷ []) qs) in
      let (idx', left, found, marked) =
        rebuild_loop-IsMarked fuel (before ++ (q ∷ [])) qs left1 idx1
          (subst (λ ps. Holds s ps) split h)
          (omega (arith, length-append q (concat qs), c.0.header)) (omega arith)
          (note_entry-IsMarked s before q qs h reach small idx idx1 interval (bytes + length q)
            left1 x noted) in
      (
        idx',
        left,
        next ∙ ap (λ t. rebuild_loop fuel s interval (length t) left1 idx1) (sym joined) ∙ found,
        subst (λ ps. IsMarked s ps idx') (sym split) marked,
      )

-- newSegmentPair on the files of a segment whose last write was cut off, whatever is in its index
-- file: the segment is opened as it was, and the index points at its batches, if it has room for an
-- entry of each.
pub new_segment_pair-IsIndexed :
    (config : LogConfig) (s : Segment) (ps : List (List ℕ)) (p : List ℕ) (k : ℕ)
    (index_file : List ℕ)
    → Holds s ps
    → s.next_offset ≤ s.base_offset + 2 ^ 32
    → s.current_size < 2 ^ 64
    → IsBatch (length p) p
    → k < length p
    → 0 < config.max_index_bytes
    → 12 * length ps ≤ config.max_index_bytes
    → (pair : SegmentPair) × (new_segment_pair (s.file ++ take k p) index_file s.base_offset config
        ≡ ok pair)
      × (pair.segment ≡ reopened config s)
      × IsIndexed pair
unfolding new_segment_pair paired rebuild_index_from_segment
new_segment_pair-IsIndexed config s ps p k index_file h reach small v lt given room =
    let s' = reopened config s in
    let held = reopened-Holds config s ps h in
    let opened = new_segment-torn s' ps p k held v lt in
    let (idx, made, max) = new_index-some index_file s.base_offset config.max_index_bytes given in
    let (based, mapped) =
      new_index-frame index_file s.base_offset config.max_index_bytes idx given made in
    let fresh : IsMarked s' [] (record idx { size = 0 }) = record {
      based = based;
      entries = [];
      stored = record {
        rest = idx.mmap;
        bytes = unfold entries_bytes in refl;
        measure = refl;
        capacity = mapped;
        words = tt;
      };
      ordered = tt;
      first = tt;
      marked = tt;
      below = tt;
      none_yet = λ e. refl;
    } in
    let (idx', left, rebuilt, x) =
      rebuild_loop-IsMarked s' reach small config.index_interval_bytes (suc s.current_size) [] ps 0
        (record idx { size = 0 }) held (omega (arith, h.size, ap length h.bytes))
        (omega (arith, max)) fresh in
    (
      record { segment = s'; index = idx'; bytes_since_index = left },
      ground (arith, opened, made, rebuilt),
      refl,
      record {
        based = x.based;
        reach = reach;
        entries = x.entries;
        stored = x.stored;
        ordered = x.ordered;
        first = x.first;
        marked = x.marked;
      },
    )
