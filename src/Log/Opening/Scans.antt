-- ===== src/Log/Opening/Scans.antt =====
-- internal/log/epoch_recovery.go: the scan of sound segments, and the recovery of the epoch cache.
use distributed_messaging_sy.Common.{
  ℕ, zero, suc, ◌+◌, ◌<◌, ◌≡◌, ◌≢◌, refl, sym, ap, ◌∙◌, not, ◌&&◌, Bool-cases, inl, inr, some, List,
  [], ◌∷◌, ◌++◌, arith, All, length, length-append, append_assoc, append-nil, take, drop,
  is_negative_i32,
}
use distributed_messaging_sy.Epoch.{EpochEntry, negative_epoch, assign_entries, assign, replay_from}
use distributed_messaging_sy.Epoch.Order.{IsEpoch, Assigned-cases}
use distributed_messaging_sy.Segment.Bytes.{concat, u32_at, u64_at}
use distributed_messaging_sy.Segment.Bytes.Slices.{
  u32_at-append, u64_at-append, take-append_drop, length-take_le,
}
use distributed_messaging_sy.Segment.Batches.{ok}
use distributed_messaging_sy.Segment.Batches.Valid.{IsBatch}
use distributed_messaging_sy.Segment.State.{Segment}
use distributed_messaging_sy.Segment.Chain.{span, IsChain}
use distributed_messaging_sy.Segment.Reading.Budget.{read_file-at, batch-at}
use distributed_messaging_sy.Log.State.{SegmentPair}
use distributed_messaging_sy.Log.Joined.{IsSound}
use distributed_messaging_sy.Log.Opening.{
  EpochMeta, read_batch_offset_and_epoch_at, History, is_last_epoch, note_epoch, scan_segment,
  scan_pairs,
}

abbrev pub HasEpoch : EpochEntry → Type 0
HasEpoch e = IsEpoch e.epoch

All-snoc :
    (es : List EpochEntry) (e : EpochEntry)
    → All HasEpoch es
    → HasEpoch e
    → All HasEpoch (es ++ (e ∷ []))
All-snoc [] e h k = (k, tt)
All-snoc (f ∷ es) e h k = (h.0, All-snoc es e h.1 k)

note_epoch-HasEpoch :
    (h : History) (m : EpochMeta) → All HasEpoch h.entries → All HasEpoch (note_epoch h m).entries
unfolding note_epoch
note_epoch-HasEpoch h m k =
    elim (Bool-cases
      (not (is_negative_i32 m.leader_epoch) && not (is_last_epoch h.last_epoch m.leader_epoch))) [
        | inl new ↦
            rw (new, note_epoch)
              (All-snoc h.entries (record { epoch = m.leader_epoch; start_offset = m.first_offset })
                k (ground (arith, new)))
        | inr old ↦ rw (old, note_epoch) k
      ]

-- readBatchOffsetAndEpochAt at the start of a batch reads its header.
epoch-at :
    (s : Segment) (front q rest : List ℕ)
    → s.file ≡ front ++ (q ++ rest)
    → IsBatch (length q) q
    → read_batch_offset_and_epoch_at s (length front)
      ≡ ok (record {
        first_offset = u64_at 0 q;
        leader_epoch = u32_at 12 q;
        on_disk_size = length q;
      })
unfolding read_batch_offset_and_epoch_at
epoch-at s front q rest e v =
    let n : length (take 16 q) ≡ 16 = length-take_le 16 q (omega (arith, v.header)) in
    let head = take 16 q in
    let split = sym (take-append_drop 16 q) in
    ground (
      arith,
      v.sized,
      v.header,
      v.small,
      read_file-at s front q rest e 16 (omega (arith, v.header)),
      ap (λ t. u64_at 0 t) split ∙ u64_at-append 0 head (drop 16 q) (omega arith),
      ap (λ t. u32_at 12 t) split ∙ u32_at-append 12 head (drop 16 q) (omega arith),
      ap (λ t. u32_at 8 t) split ∙ u32_at-append 8 head (drop 16 q) (omega arith),
    )

abbrev meta : List ℕ → EpochMeta
meta q = record { first_offset = u64_at 0 q; leader_epoch = u32_at 12 q; on_disk_size = length q }

module _ (s : Segment) (sized : s.current_size ≡ length s.file) where
  -- One round over a whole batch.
  scan_segment-next :
      (fuel : ℕ) (front q rest : List ℕ) (h : History)
      → s.file ≡ front ++ (q ++ rest)
      → IsBatch (length q) q
      → scan_segment (suc fuel) s (length front) h
        ≡ scan_segment fuel s (length (front ++ q)) (note_epoch h (meta q))
  unfolding scan_segment
  scan_segment-next fuel front q rest h e v =
      let (whole, inside, fits) = batch-at s front q rest e v sized in
      let m = epoch-at s front q rest e v in ground (arith, inside, fits, m, length-append front q)

  scan_segment-some :
      (fuel : ℕ) (front : List ℕ) (qs : List (List ℕ)) (from : ℕ) (h : History)
      → s.file ≡ front ++ concat qs
      → IsChain from qs
      → length (concat qs) < fuel
      → All HasEpoch h.entries
      → (h' : History) × (scan_segment fuel s (length front) h ≡ ok h') × All HasEpoch h'.entries
  scan_segment-some zero front qs from h e c f k = absurd (omega arith)
  scan_segment-some (suc fuel) front [] from h e c f k =
      let end : length s.file ≡ length front = ap length e ∙ ap length (append-nil front) in
      (h, unfold scan_segment in ground (arith, end), k)
  scan_segment-some (suc fuel) front (q ∷ qs) from h e c f k =
      let (h', found, keeps) =
        scan_segment-some fuel (front ++ q) qs (from + span q) (note_epoch h (meta q))
          (e ∙ sym (append_assoc front q (concat qs))) c.2
          (omega (arith, length-append q (concat qs), c.0.header))
          (note_epoch-HasEpoch h (meta q) k) in
      (h', scan_segment-next fuel front q (concat qs) h e c.0 ∙ found, keeps)

abbrev pub AreSound : List SegmentPair → Type 0
AreSound ps = All (λ p. IsSound p.segment) ps

pub scan_pairs-some :
    (ps : List SegmentPair) (h : History)
    → AreSound ps
    → All HasEpoch h.entries
    → (es : List EpochEntry) × (scan_pairs ps h ≡ ok es) × All HasEpoch es
unfolding scan_pairs
scan_pairs-some [] h sound k = (h.entries, refl, k)
scan_pairs-some (p ∷ ps) h ((qs, held), sound) k =
    let (h1, one, k1) =
      scan_segment-some p.segment held.size (suc p.segment.current_size) [] qs p.segment.base_offset
        h held.bytes held.chain (omega (arith, held.size, ap length held.bytes)) k in
    let (es, rest, k2) = scan_pairs-some ps h1 sound k1 in (es, ground (arith, one, rest), k2)

assign-some :
    (cache : List EpochEntry) (e : EpochEntry)
    → HasEpoch e
    → assign cache e.epoch e.start_offset ≢ negative_epoch
unfolding assign assign_entries
assign-some [] e h = λ x. ground (arith, h, x)
assign-some (c ∷ cs) e h = λ x. ground (arith, h, x)

-- Entries without a negative epoch are replayed without an error.
pub replay_from-some :
    (cache es : List EpochEntry)
    → All HasEpoch es
    → (cache' : List EpochEntry) × (replay_from cache es ≡ some cache')
unfolding replay_from
replay_from-some cache [] h = (cache, refl)
replay_from-some cache (e ∷ es) h = elim (Assigned-cases (assign cache e.epoch e.start_offset)) [
  | inl refused ↦ absurd (assign-some cache e h.0 refused)
  | inr (next, changed, f) ↦
      let (cache', g) = replay_from-some next es h.1 in (cache', ground (arith, f, g))
]
