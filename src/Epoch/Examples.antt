-- ===== src/Epoch/Examples.antt =====
-- internal/log/epoch_cache.go: a cache of three epochs, and what the theorems give for it.
use distributed_messaging_sy.Common.{ℕ, ◌≡◌, ◌↔◌, refl, true, false, some, List, [], ◌∷◌, arith}
use distributed_messaging_sy.Epoch.{
  EpochEntry, assigned, assign, truncate_from_end, epoch_for_offset, found, end_offset_for,
  last_entry, replay_epoch_entries, epoch_entries_equal,
}
use distributed_messaging_sy.Epoch.Order.{
  older_than, IsAscending, assign-older_than, replay_epoch_entries-ascending,
}
use distributed_messaging_sy.Epoch.Truncation.{starting_below, truncate_from_end-below}
use distributed_messaging_sy.Epoch.Lookup.{
  IsOwner, epoch_by, next_start, end_offset_for-next_start, epoch_for_offset-end_offset_for,
}

abbrev entry : ℕ → ℕ → EpochEntry
entry epoch start = record { epoch = epoch; start_offset = start }

-- Epochs 1, 3 and 4, which start at the offsets 0, 10 and 20.
abbrev later : List EpochEntry
later = entry 3 10 ∷ entry 4 20 ∷ []

abbrev three : List EpochEntry
three = entry 1 0 ∷ later

three-IsAscending : IsAscending three
three-IsAscending = ground arith

assign-older_than_example :
    assign three 5 15 ≡ assigned (entry 1 0 ∷ entry 3 10 ∷ entry 5 15 ∷ []) true
unfolding older_than assign
assign-older_than_example = assign-older_than three (entry 5 15) three-IsAscending (omega arith)

assign_5 : assign three 5 15 ≡ assigned (entry 1 0 ∷ entry 3 10 ∷ entry 5 15 ∷ []) true
unfolding assign
assign_5 = refl

-- The second entry is dropped, since the third starts before it.
replayed :
    replay_epoch_entries (entry 1 0 ∷ entry 3 10 ∷ entry 4 5 ∷ [])
    ≡ some (entry 1 0 ∷ entry 4 5 ∷ [])
unfolding replay_epoch_entries
replayed = refl

replay_epoch_entries-ascending_example :
    (replay_epoch_entries three ≡ some three) × (epoch_entries_equal three three ≡ true)
replay_epoch_entries-ascending_example = replay_epoch_entries-ascending three three-IsAscending

truncate_from_end-below_example :
    ((truncate_from_end three 10).0 ≡ entry 1 0 ∷ [])
    × (((truncate_from_end three 10).1 ≡ false) ↔ (entry 1 0 ∷ [] ≡ three))
unfolding starting_below
truncate_from_end-below_example = truncate_from_end-below three 10 three-IsAscending

-- Epoch 2 is not known: the answer is epoch 1, which ends where epoch 3 begins.
end_offset_for-next_start_example :
    end_offset_for three 2 30 ≡ found (record { end_epoch = 1; end_offset = 10 })
unfolding epoch_by next_start last_entry
end_offset_for-next_start_example =
    end_offset_for-next_start (entry 1 0) later 2 30 three-IsAscending (omega arith)

epoch_at_12 : epoch_for_offset three 12 ≡ some 3
unfolding epoch_for_offset
epoch_at_12 = refl

epoch_for_offset-end_offset_for_example :
    (e : EpochEntry) × IsOwner 12 30 3 e three
    × (end_offset_for three 3 30
        ≡ found (record { end_epoch = 3; end_offset = next_start 3 30 three }))
epoch_for_offset-end_offset_for_example =
    epoch_for_offset-end_offset_for (entry 1 0) later 12 30 three-IsAscending (omega arith)
      epoch_at_12

end_of_2 : end_offset_for three 2 30 ≡ found (record { end_epoch = 1; end_offset = 10 })
unfolding end_offset_for
end_of_2 = refl

end_of_4 : end_offset_for three 4 30 ≡ found (record { end_epoch = 4; end_offset = 30 })
unfolding end_offset_for
end_of_4 = refl
