-- ===== src/Log/Raw/Reads.antt =====
-- internal/log/log_raw.go: ReadRaw on a log whose indices point at batches.
use distributed_messaging_sy.Common.{
  ℕ, ◌+◌, ◌-◌, ◌^◌, ◌≤◌, ◌<◌, ◌≡◌, some, List, [], ◌∷◌, ◌++◌, All, length,
}
use distributed_messaging_sy.OffsetIndex.Entries.{IndexEntry, Holds as IndexHolds}
use distributed_messaging_sy.OffsetIndex.Search.{IsOrdered}
use distributed_messaging_sy.Segment.Bytes.{concat}
use distributed_messaging_sy.Segment.Batches.{Result, ok}
use distributed_messaging_sy.Segment.State.{Segment}
use distributed_messaging_sy.Segment.Chain.{span, end_of, Holds}
use distributed_messaging_sy.Segment.Reading.{budget}
use distributed_messaging_sy.Segment.Reading.Budget.{fit}
use distributed_messaging_sy.Log.State.{SegmentPair, Log, next_offset, find_segment}
use distributed_messaging_sy.Log.Raw.{target_pair}

-- An entry of the index points at the start of a batch, by its offset and its position.
pub record Marks (s : Segment) (e : IndexEntry) : Type 0 where
  pub before : List (List ℕ)
  pub behind : List (List ℕ)
  pub held : Holds s (before ++ behind)
  pub position : e.file_pos ≡ length (concat before)
  pub start : s.base_offset + e.rel_offset ≡ end_of s.base_offset before

abbrev pub StartsAt : ℕ → List IndexEntry → Type 0
StartsAt n [] = Unit {0}
StartsAt n (e ∷ es) = e.rel_offset ≡ n

-- The index of a segment: ordered entries that point at batches, the first, if there is one, at
-- the first offset. The offsets of the segment are relative ones of 32 bits.
pub record IsIndexed (p : SegmentPair) : Type 0 where
  pub based : p.index.base_offset ≡ p.segment.base_offset
  pub reach : p.segment.next_offset ≤ p.segment.base_offset + 2 ^ 32
  pub entries : List IndexEntry
  pub stored : IndexHolds p.index entries
  pub ordered : IsOrdered entries
  pub first : StartsAt 0 entries
  pub marked : All (Marks p.segment) entries

-- A position where a batch starts, at or before the offset.
record IsStart (s : Segment) (offset : ℕ) (pos : ℕ) : Type 0 where
  before : List (List ℕ)
  behind : List (List ℕ)
  held : Holds s (before ++ behind)
  position : pos ≡ length (concat before)
  low : end_of s.base_offset before ≤ offset

-- A batch of the segment has the offset, and the seek ends at its start.
record IsSought (s : Segment) (offset : ℕ) (r : Result ℕ) : Type 0 where
  before : List (List ℕ)
  batch : List ℕ
  behind : List (List ℕ)
  held : Holds s (before ++ (batch ∷ behind))
  low : end_of s.base_offset before ≤ offset
  high : offset < end_of s.base_offset before + span batch
  at_start : r ≡ ok (length (concat before))

-- What ReadRaw returns for an offset: of the segment that has it, the batch that has it, and behind
-- that the batches that fit into what the budget leaves.
pub record IsReadBack (l : Log) (offset max_bytes : ℕ) (r : Result (List ℕ × ℕ)) : Type 0 where
  pub pair : SegmentPair
  pub owner : target_pair l (find_segment l.sealed l.active offset) ≡ some pair
  pub before : List (List ℕ)
  pub batch : List ℕ
  pub behind : List (List ℕ)
  pub held : Holds pair.segment (before ++ (batch ∷ behind))
  pub low : end_of pair.segment.base_offset before ≤ offset
  pub high : offset < end_of pair.segment.base_offset before + span batch
  pub read :
      r
      ≡ ok (
        concat (batch ∷ fit (budget max_bytes - length batch) behind),
        end_of pair.segment.base_offset
            (before ++ (batch ∷ fit (budget max_bytes - length batch) behind)),
      )
