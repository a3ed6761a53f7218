-- ===== src/Log/Pairs/Room.antt =====
-- internal/log/log.go, newSegmentPair: an index with room for an entry, and a segment opened again.
use distributed_messaging_sy.Common.{
  ℕ, ◌+◌, ◌≤◌, ◌≡◌, refl, false, Bool-cases, inl, inr, leb, List, arith, ◌==◌, ◌||◌, some,
}
use distributed_messaging_sy.OffsetIndex.{Index, is_full, write, put_entry}
use distributed_messaging_sy.Segment.State.{Segment}
use distributed_messaging_sy.Segment.Chain.{Holds}
use distributed_messaging_sy.Log.State.{LogConfig}
use distributed_messaging_sy.Log.Pairs.{note_entry}

-- Whether an entry is due or not, the index has room for it.
pub note_entry-room :
    (idx : Index) (interval offset pos bytes : ℕ)
    → idx.size + 12 ≤ idx.max_bytes
    → (idx' : Index) × (left : ℕ) × (note_entry idx interval offset pos bytes ≡ some (idx', left))
      × (idx'.size ≤ idx.size + 12)
      × (idx'.max_bytes ≡ idx.max_bytes)
unfolding note_entry write put_entry
note_entry-room idx interval offset pos bytes h =
    let room : is_full idx ≡ false = unfold is_full in ground (arith, h) in
    elim (Bool-cases (pos == 0 || leb interval bytes)) [
      | inl due ↦ (put_entry idx offset pos, 0, ground (arith, due, room), omega arith, refl)
      | inr not_due ↦ (idx, bytes, ground (arith, not_due), omega arith, refl)
    ]

-- A segment as newSegmentPair opens it with `config`.
abbrev pub reopened : LogConfig → Segment → Segment
reopened config s = record s { max_size = config.max_segment_bytes }

pub reopened-Holds :
    (config : LogConfig) (s : Segment) (ps : List (List ℕ))
    → Holds s ps
    → Holds (reopened config s) ps
reopened-Holds config s ps h = record {
  bytes = h.bytes;
  size = h.size;
  chain = h.chain;
  next = h.next;
  room = h.room;
}
