-- ===== src/OffsetIndex.antt =====
-- internal/log/index.go: the offset index of a segment, over the bytes of its mapped file.
-- Offsets are uint64 bit patterns; the sizes and positions of the mapping are not negative.
pub mod Entries
pub mod Search
pub mod Reopen
pub mod Total
mod Examples
use distributed_messaging_sy.Common.{
  ℕ, zero, suc, ◌+◌, ◌-◌, ◌*◌, ◌/◌, ◌%◌, ◌^◌, Bool, true, false, not, ◌&&◌, ◌||◌, Option, none,
  some, List, [], ◌∷◌, ◌++◌, length, take, drop, ltb, leb, ◌==◌, if◌then◌else◌,
}
use distributed_messaging_sy.Protocol.Binary.{be32, be64, uint32, uint64}

pub record Index : Type 0 where
  pub mmap : List ℕ
  pub base_offset : ℕ
  pub size : ℕ
  pub max_bytes : ℕ

-- `binary.BigEndian.Uint32(idx.mmap[pos : pos+4])`; `none` where the slice panics.
unfoldable pub rel_offset_at : List ℕ → ℕ → Option ℕ
rel_offset_at mmap pos = uint32 (drop pos mmap)

-- `binary.BigEndian.Uint64(idx.mmap[pos+4 : pos+12])`
unfoldable pub file_pos_at : List ℕ → ℕ → Option ℕ
file_pos_at mmap pos = uint64 (drop (pos + 4) mmap)

-- IsFull
unfoldable pub is_full : Index → Bool
is_full idx = ltb idx.max_bytes (idx.size + 12)

-- What Write changes where the index is not full.
unfoldable pub put_entry : Index → ℕ → ℕ → Index
put_entry idx offset file_pos =
    let rel_offset = (offset + 2 ^ 64 - idx.base_offset) % 2 ^ 64 % 2 ^ 32 in
    record idx {
      mmap =
          take idx.size idx.mmap
          ++ ((be32 rel_offset ++ be64 file_pos) ++ drop (idx.size + 12) idx.mmap);
      size = idx.size + 12;
    }

-- Write; `none` is its error.
unfoldable pub write : Index → ℕ → ℕ → Option Index
unfolding is_full put_entry
write idx offset file_pos = if is_full idx then none else some (put_entry idx offset file_pos)

-- Where the loop of Lookup goes on: `low`, `high + 1` and `result`.
pub record Bounds : Type 0 where
  pub low : ℕ
  pub limit : ℕ
  pub result : ℕ

-- The loop body of Lookup behind the reading of `relOffset`.
unfoldable pub narrow : ℕ → ℕ → ℕ → Bounds → Bounds
narrow rel_target mid rel_offset b =
    if leb rel_offset rel_target
    then record { low = mid + 1; limit = b.limit; result = mid }
    else record { low = b.low; limit = mid; result = b.result }

-- The loop of Lookup, on fuel; `none` is a panic or the end of the fuel.
unfoldable pub search : ℕ → ℕ → List ℕ → Bounds → Option ℕ
unfolding narrow rel_offset_at
search zero rel_target mmap b = none
search (suc fuel) rel_target mmap b =
    let mid = (b.low + (b.limit - 1)) / 2 in
    elim (ltb b.low b.limit) [
      | false ↦ some b.result
      | true ↦ elim (rel_offset_at mmap (mid * 12)) [
        | none ↦ none
        | some rel_offset ↦ search fuel rel_target mmap (narrow rel_target mid rel_offset b)
      ]
    ]

pub data Lookup : Type 0 where
  below_base panicked : Lookup
  file_position : ℕ → Lookup

unfoldable pub position_of : List ℕ → Option ℕ → Lookup
unfolding file_pos_at
position_of mmap none = panicked
position_of mmap (some result) = elim (file_pos_at mmap (result * 12)) [
  | none ↦ panicked
  | some file_pos ↦ file_position file_pos
]

-- Lookup
unfoldable pub lookup_position : Index → ℕ → Lookup
unfolding search position_of
lookup_position idx offset =
    if idx.size == 0
    then file_position 0
    else if ltb offset idx.base_offset
    then below_base
    else let rel_target = (offset - idx.base_offset) % 2 ^ 32 in
      let entries = idx.size / 12 in
      position_of idx.mmap
        (search (entries + 1) rel_target idx.mmap (record { low = 0; limit = entries; result = 0 }))

-- The loop of recoverSize from the position `pos`, on fuel.
unfoldable pub recover_from : ℕ → ℕ → ℕ → List ℕ → Option ℕ
unfolding rel_offset_at file_pos_at
recover_from zero max_bytes pos mmap = none
recover_from (suc fuel) max_bytes pos mmap = elim (leb (pos + 12) max_bytes) [
  | false ↦ some pos
  | true ↦ elim (rel_offset_at mmap pos) [
    | none ↦ none
    | some rel_offset ↦ elim (file_pos_at mmap pos) [
      | none ↦ none
      | some file_pos ↦ elim (ltb 0 pos && rel_offset == 0 && file_pos == 0) [
        | true ↦ some pos
        | false ↦ recover_from fuel max_bytes (pos + 12) mmap
      ]
    ]
  ]
]

-- recoverSize
unfoldable pub recover_size : ℕ → List ℕ → Option ℕ
unfolding recover_from
recover_size max_bytes mmap = recover_from (max_bytes / 12 + 1) max_bytes 0 mmap

-- File.Truncate: cut to `n` bytes, or filled up to them with zeros.
unfoldable pub resize : ℕ → List ℕ → List ℕ
resize zero bs = []
resize (suc n) [] = 0 ∷ resize n []
resize (suc n) (b ∷ bs) = b ∷ resize n bs

-- 0 asks for the default size.
abbrev pub or_default : ℕ → ℕ
or_default max_bytes = if max_bytes == 0 then 1024 * 1024 else max_bytes

-- NewIndex on a file with these bytes, where no call of the system fails.
unfoldable pub new_index : List ℕ → ℕ → ℕ → Option Index
unfolding resize recover_size
new_index file base_offset max_bytes =
    let max = or_default max_bytes in
    let mmap = resize max file in
    elim (if leb (length file) 0 then some 0 else recover_size max mmap) [
      | none ↦ none
      | some size ↦
          some (record { mmap = mmap; base_offset = base_offset; size = size; max_bytes = max })
    ]

-- The bytes of the file that Close leaves.
unfoldable pub close_index : Index → List ℕ
unfolding resize
close_index idx = resize idx.size idx.mmap
