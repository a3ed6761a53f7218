-- ===== src/Epoch/Lookup.antt =====
-- internal/log/epoch_cache.go, EpochForOffset and EndOffsetFor: what a reader learns.
use distributed_messaging_sy.Common.{
  ℕ, ◌<◌, ◌≤◌, ◌≡◌, ◌≢◌, ◌↔◌, refl, none, some, List, [], ◌∷◌, arith, ltb, ◌==◌, if◌then◌else◌, All,
  IsU32, Bool-cases, inl, inr,
}
use mathlib.Core.List.{Memᴰ}
use distributed_messaging_sy.Epoch.{
  EpochEntry, EpochEndOffset, last_entry, epoch_for_offset_loop, epoch_for_offset, absent, found,
  scan_entry, scan_back, end_offset_for,
}
use distributed_messaging_sy.Epoch.Order.{IsEpoch, Precedes, IsAscending, last_entry_bounds}

-- The start offset of the first entry with a later epoch than `requested`, or else `leo`.
unfoldable pub next_start : ℕ → ℕ → List EpochEntry → ℕ
next_start requested leo [] = leo
next_start requested leo (e ∷ es) =
    let rest = next_start requested leo es in if ltb requested e.epoch then e.start_offset else rest

-- The epoch of the last entry with an epoch of at most `requested`, or else `before`.
unfoldable pub epoch_by : ℕ → ℕ → List EpochEntry → ℕ
epoch_by requested before [] = before
epoch_by requested before (e ∷ es) =
    let rest = epoch_by requested e.epoch es in if ltb requested e.epoch then before else rest

scan_back-absent :
    (requested : ℕ) (es : List EpochEntry)
    → IsEpoch requested
    → IsAscending es
    → All (λ e. requested < e.epoch) es
    → scan_back requested es ≡ absent
unfolding scan_back scan_entry
scan_back-absent requested [] hr h p = refl
scan_back-absent requested (e ∷ []) hr h p = ground arith
scan_back-absent requested (e ∷ f ∷ es) hr h p =
    ground (arith, scan_back-absent requested (f ∷ es) hr h.2 p.1)

All-Precedes-later :
    (requested : ℕ) (e : EpochEntry) (es : List EpochEntry)
    → requested ≤ e.epoch
    → All (Precedes e) es
    → All (λ f. requested < f.epoch) es
All-Precedes-later requested e [] h p = tt
All-Precedes-later requested e (f ∷ es) h p = (omega arith, All-Precedes-later requested e es h p.1)

scan_back-found :
    (requested leo : ℕ) (e : EpochEntry) (es : List EpochEntry)
    → IsEpoch requested
    → IsAscending (e ∷ es)
    → e.epoch ≤ requested
    → requested < (last_entry e es).epoch
    → scan_back requested (e ∷ es)
      ≡ found (record {
        end_epoch = epoch_by requested e.epoch es;
        end_offset = next_start requested leo es;
      })
unfolding scan_back scan_entry last_entry epoch_by next_start
scan_back-found requested leo e [] hr h p q = absurd (omega arith)
scan_back-found requested leo e (f ∷ es) hr h p q = elim (Bool-cases (ltb requested f.epoch)) [
  | inl later ↦ ground (
    arith,
    scan_back-absent requested (f ∷ es) hr h.2,
    All-Precedes-later requested f es (ground arith) h.2.1,
  )
  | inr by ↦ ground (arith, scan_back-found requested leo f es hr h.2)
]

epoch_by-last :
    (requested leo : ℕ) (e : EpochEntry) (es : List EpochEntry)
    → IsAscending (e ∷ es)
    → requested ≡ (last_entry e es).epoch
    → (epoch_by requested e.epoch es ≡ requested) × (next_start requested leo es ≡ leo)
unfolding last_entry epoch_by next_start
epoch_by-last requested leo e [] h p = ground arith
epoch_by-last requested leo e (f ∷ es) h p =
    ground (arith, epoch_by-last requested leo f es h.2 p, last_entry_bounds f es h.2)

-- What EndOffsetFor answers on ascending entries: nothing if there are none, if the epoch is
-- negative or if it is newer than the latest; otherwise the largest known epoch that is at most
-- the requested one (the requested one itself if all are newer), with the offset at which the next
-- newer epoch begins, or the log end offset if there is no newer one. The backward loop never
-- falls through and never reads behind the last entry.
pub end_offset_for-next_start :
    (e : EpochEntry) (es : List EpochEntry) (requested leo : ℕ)
    → IsAscending (e ∷ es)
    → IsU32 requested
    → end_offset_for (e ∷ es) requested leo ≡ (
        if ltb (last_entry e es).epoch requested
        then absent
        else found (record {
          end_epoch = epoch_by requested requested (e ∷ es);
          end_offset = next_start requested leo (e ∷ es);
        }))
unfolding end_offset_for epoch_by next_start
end_offset_for-next_start e es requested leo h hr =
    elim (Bool-cases (requested == (last_entry e es).epoch)) [
      | inl same ↦ ground (arith, last_entry_bounds e es h, epoch_by-last requested leo e es h)
      | inr other ↦ ground (arith, last_entry_bounds e es h, scan_back-found requested leo e es)
    ]

-- `epoch` is the epoch of the entry `entry`, which starts by the offset, and the next newer epoch
-- begins behind the offset.
pub record IsOwner (offset leo epoch : ℕ) (entry : EpochEntry) (es : List EpochEntry) : Type 0 where
  pub entry_mem : Memᴰ entry es
  pub entry_epoch : entry.epoch ≡ epoch
  pub starts_by : entry.start_offset ≤ offset
  pub ends_behind : offset < next_start epoch leo es

-- The same with what the induction needs of the entries behind `e`.
record IsOwnerFrom (offset leo epoch : ℕ) (e : EpochEntry) (es : List EpochEntry) : Type 0 where
  entry : EpochEntry
  entry_mem : Memᴰ entry (e ∷ es)
  entry_epoch : entry.epoch ≡ epoch
  starts_by : entry.start_offset ≤ offset
  ends_behind : offset < next_start epoch leo es
  known : epoch_by epoch e.epoch es ≡ epoch
  not_before : e.epoch ≤ epoch
  not_after : epoch ≤ (last_entry e es).epoch

epoch_for_offset_loop-IsOwnerFrom :
    (offset leo x : ℕ) (e : EpochEntry) (es : List EpochEntry)
    → offset < leo
    → e.start_offset ≤ offset
    → IsAscending (e ∷ es)
    → epoch_for_offset_loop offset (some e.epoch) es ≡ some x
    → IsOwnerFrom offset leo x e es
unfolding epoch_for_offset_loop next_start epoch_by last_entry
epoch_for_offset_loop-IsOwnerFrom offset leo x e [] ho hs h p = record {
  entry = e;
  entry_mem = Memᴰ.head refl;
  entry_epoch = ground arith;
  starts_by = hs;
  ends_behind = ho;
  known = ground arith;
  not_before = ground arith;
  not_after = ground arith;
}
epoch_for_offset_loop-IsOwnerFrom offset leo x e (f ∷ es) ho hs h p =
    elim (Bool-cases (ltb offset f.start_offset)) [
      | inl behind ↦ record {
        entry = e;
        entry_mem = Memᴰ.head refl;
        entry_epoch = ground arith;
        starts_by = hs;
        ends_behind = ground arith;
        known = ground arith;
        not_before = ground arith;
        not_after = ground (arith, last_entry_bounds f es h.2);
      }
      | inr by ↦
          let o =
            epoch_for_offset_loop-IsOwnerFrom offset leo x f es ho (ground arith) h.2
              (ground arith) in
          record {
            entry = o.entry;
            entry_mem = Memᴰ.tail o.entry_mem;
            entry_epoch = o.entry_epoch;
            starts_by = o.starts_by;
            ends_behind = ground (arith, o.ends_behind, o.not_before);
            known = ground (arith, o.known, o.not_before);
            not_before = ground (arith, o.not_before);
            not_after = o.not_after;
          }
    ]

IsOwnerFrom-end_offset_for :
    (offset leo x : ℕ) (e : EpochEntry) (es : List EpochEntry)
    → IsAscending (e ∷ es)
    → IsOwnerFrom offset leo x e es
    → end_offset_for (e ∷ es) x leo
      ≡ found (record { end_epoch = x; end_offset = next_start x leo (e ∷ es) })
unfolding epoch_by
IsOwnerFrom-end_offset_for offset leo x e es h o = ground (
  arith,
  end_offset_for-next_start e es x leo h,
  last_entry_bounds e es h,
  o.known,
  o.not_before,
  o.not_after,
)

IsOwnerFrom-IsOwner :
    (offset leo x : ℕ) (e : EpochEntry) (es : List EpochEntry) (o : IsOwnerFrom offset leo x e es)
    → IsOwner offset leo x o.entry (e ∷ es)
unfolding next_start
IsOwnerFrom-IsOwner offset leo x e es o = record {
  entry_mem = o.entry_mem;
  entry_epoch = o.entry_epoch;
  starts_by = o.starts_by;
  ends_behind = ground (arith, o.ends_behind, o.not_before);
}

-- Where EpochForOffset names an epoch for an offset below the log end offset, an entry of that
-- epoch starts by the offset, the next newer epoch starts behind the offset, and EndOffsetFor of
-- that epoch, at the same log end offset, answers with that epoch and that start.
pub epoch_for_offset-end_offset_for :
    (e : EpochEntry) (es : List EpochEntry) (offset leo : ℕ) {x : ℕ}
    → IsAscending (e ∷ es)
    → offset < leo
    → epoch_for_offset (e ∷ es) offset ≡ some x
    → (entry : EpochEntry) × IsOwner offset leo x entry (e ∷ es)
      × (end_offset_for (e ∷ es) x leo
          ≡ found (record { end_epoch = x; end_offset = next_start x leo (e ∷ es) }))
unfolding epoch_for_offset epoch_for_offset_loop
epoch_for_offset-end_offset_for e es offset leo {x} h ho p =
    let o =
      epoch_for_offset_loop-IsOwnerFrom offset leo x e es ho (ground arith) h (ground arith) in
    (
      o.entry,
      IsOwnerFrom-IsOwner offset leo x e es o,
      IsOwnerFrom-end_offset_for offset leo x e es h o,
    )

epoch_for_offset_loop-ne-none :
    (offset y : ℕ) (es : List EpochEntry) → epoch_for_offset_loop offset (some y) es ≢ none
unfolding epoch_for_offset_loop
epoch_for_offset_loop-ne-none offset y [] = λ p. cc
epoch_for_offset_loop-ne-none offset y (e ∷ es) =
    λ p. ground (arith, epoch_for_offset_loop-ne-none offset e.epoch es)

-- EpochForOffset finds no epoch exactly for the offsets before the first entry.
pub epoch_for_offset-none :
    (e : EpochEntry) (es : List EpochEntry) (offset : ℕ)
    → (epoch_for_offset (e ∷ es) offset ≡ none) ↔ (offset < e.start_offset)
unfolding epoch_for_offset epoch_for_offset_loop
epoch_for_offset-none e es offset =
    (λ p. ground (arith, epoch_for_offset_loop-ne-none offset e.epoch es), λ p. ground arith)

next_start-lower :
    (b leo : ℕ) (e : EpochEntry) (es : List EpochEntry)
    → All (Precedes e) es
    → e.start_offset ≤ leo
    → e.start_offset ≤ next_start b leo es
unfolding next_start
next_start-lower b leo e [] h hl = hl
next_start-lower b leo e (f ∷ es) h hl = ground (arith, next_start-lower b leo e es h.1 hl)

next_start_mono :
    (a b leo : ℕ) (es : List EpochEntry)
    → IsAscending es
    → All (λ e. e.start_offset ≤ leo) es
    → a ≤ b
    → next_start a leo es ≤ next_start b leo es
unfolding next_start
next_start_mono a b leo [] h hl p = omega arith
next_start_mono a b leo (e ∷ es) h hl p =
    ground (arith, next_start_mono a b leo es h.2 hl.1 p, next_start-lower b leo e es)

-- On ascending entries that start by the log end offset, of two requested epochs that EndOffsetFor
-- answers, the older one is never given a later end offset.
pub end_offset_for_mono :
    (e : EpochEntry) (es : List EpochEntry) (a b leo : ℕ) {ra rb : EpochEndOffset}
    → IsAscending (e ∷ es)
    → All (λ f. f.start_offset ≤ leo) (e ∷ es)
    → IsU32 a
    → IsU32 b
    → a ≤ b
    → end_offset_for (e ∷ es) a leo ≡ found ra
    → end_offset_for (e ∷ es) b leo ≡ found rb
    → ra.end_offset ≤ rb.end_offset
end_offset_for_mono e es a b leo {ra} {rb} h hl ha hb ab pa pb = ground (
  arith,
  end_offset_for-next_start e es a leo h ha,
  end_offset_for-next_start e es b leo h hb,
  next_start_mono a b leo (e ∷ es) h hl ab,
)
