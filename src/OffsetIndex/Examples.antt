-- ===== src/OffsetIndex/Examples.antt =====
-- internal/log/index.go: an index of two entries, and what the theorems give for it.
use distributed_messaging_sy.Common.{
  ◌^◌, ℕ, ◌+◌, ◌<◌, ◌≤◌, ◌≡◌, ◌⊎◌, refl, none, some, [], ◌∷◌, arith,
}
use distributed_messaging_sy.Protocol.Binary.{be32, be64}
use distributed_messaging_sy.OffsetIndex.{
  Index, put_entry, write, file_position, lookup_position, resize, new_index, close_index,
}
use distributed_messaging_sy.OffsetIndex.Entries.{
  IndexEntry, entry_bytes, entries_bytes, Holds, entry_for, write-Holds,
}
use distributed_messaging_sy.OffsetIndex.Search.{IsOrdered, last_by, lookup_position-last_by}
use distributed_messaging_sy.OffsetIndex.Reopen.{new_index-close_index}

abbrev at_offset : ℕ → ℕ → IndexEntry
at_offset rel pos = record { rel_offset = rel; file_pos = pos }

-- An index from offset 100 on with room for four entries.
abbrev empty : Index
empty = record { mmap = resize 50 []; base_offset = 100; size = 0; max_bytes = 50 }

-- The batches at the offsets 100 and 110, at the positions 0 and 500.
abbrev two : Index
two = put_entry (put_entry empty 100 0) 110 500

two-Holds : Holds two (at_offset 0 0 ∷ at_offset 10 500 ∷ [])
unfolding put_entry resize be32 be64 entry_bytes entries_bytes
two-Holds = record {
  rest = resize 26 [];
  bytes = refl;
  measure = refl;
  capacity = refl;
  words = ground arith;
}

two-IsOrdered : IsOrdered (at_offset 0 0 ∷ at_offset 10 500 ∷ [])
two-IsOrdered = ground arith

write-Holds_example :
    ((write two 120 900 ≡ none) × (two.max_bytes < two.size + 12))
    ⊎ ((write two 120 900 ≡ some (put_entry two 120 900))
        × Holds
            (put_entry two 120 900)
            (at_offset 0 0 ∷ at_offset 10 500 ∷ entry_for two 120 900 ∷ []))
write-Holds_example =
    write-Holds two (at_offset 0 0 ∷ at_offset 10 500 ∷ []) 120 900 two-Holds (omega arith)

base : (two.base_offset ≤ 115) × (115 < two.base_offset + 2 ^ 32)
unfolding put_entry
base = (omega arith, omega arith)

lookup_position-last_by_example : lookup_position two 115 ≡ file_position 500
unfolding last_by put_entry
lookup_position-last_by_example =
    lookup_position-last_by two (at_offset 0 0) (at_offset 10 500 ∷ []) 115 two-Holds two-IsOrdered
      base.0 base.1

new_index-close_index_example :
    (idx' : Index) × (new_index (close_index two) two.base_offset two.max_bytes ≡ some idx')
    × Holds idx' (at_offset 0 0 ∷ at_offset 10 500 ∷ [])
    × (idx'.base_offset ≡ two.base_offset)
new_index-close_index_example =
    new_index-close_index two (at_offset 0 0) (at_offset 10 500 ∷ []) two-Holds two-IsOrdered
