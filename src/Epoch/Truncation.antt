-- ===== src/Epoch/Truncation.antt =====
-- internal/log/epoch_cache.go, TruncateFromEnd and TruncateAfter: what survives.
use distributed_messaging_sy.Common.{
  ℕ, ◌+◌, ◌≤◌, ◌≡◌, ◌↔◌, ap, refl, false, List, [], ◌∷◌, arith, ltb, length, if◌then◌else◌, All,
}
use distributed_messaging_sy.Epoch.{
  EpochEntry, keep_starting_before, keep_starting_by, truncate_from_end, truncate_after,
}
use distributed_messaging_sy.Epoch.Order.{Precedes, IsAscending}

-- The entries that start below an offset, wherever they stand.
unfoldable pub starting_below : ℕ → List EpochEntry → List EpochEntry
starting_below offset [] = []
starting_below offset (e ∷ es) =
    let rest = starting_below offset es in if ltb e.start_offset offset then e ∷ rest else rest

starting_below-none :
    (offset : ℕ) (e : EpochEntry) (es : List EpochEntry)
    → All (Precedes e) es
    → ltb e.start_offset offset ≡ false
    → starting_below offset es ≡ []
unfolding starting_below
starting_below-none offset e [] h n = refl
starting_below-none offset e (f ∷ es) h n = ground (arith, starting_below-none offset e es h.1)

keep_starting_before-below :
    (offset : ℕ) (es : List EpochEntry)
    → IsAscending es
    → keep_starting_before offset es ≡ starting_below offset es
unfolding keep_starting_before starting_below
keep_starting_before-below offset [] h = refl
keep_starting_before-below offset (e ∷ es) h =
    ground (arith, keep_starting_before-below offset es h.2, starting_below-none offset e es h.1)

keep_starting_by-below :
    (offset : ℕ) (es : List EpochEntry)
    → IsAscending es
    → keep_starting_by offset es ≡ starting_below (offset + 1) es
unfolding keep_starting_by starting_below
keep_starting_by-below offset [] h = refl
keep_starting_by-below offset (e ∷ es) h =
    ground (arith, keep_starting_by-below offset es h.2, starting_below-none (offset + 1) e es h.1)

length-keep_starting_before :
    (offset : ℕ) (es : List EpochEntry)
    → (length (keep_starting_before offset es) ≤ length es)
      × (length (keep_starting_before offset es) ≡ length es → keep_starting_before offset es ≡ es)
unfolding keep_starting_before
length-keep_starting_before offset [] = (omega arith, λ h. refl)
length-keep_starting_before offset (e ∷ es) =
    let (shorter, same) = length-keep_starting_before offset es in
    (ground arith, λ h. ground (arith, same))

length-keep_starting_by :
    (offset : ℕ) (es : List EpochEntry)
    → (length (keep_starting_by offset es) ≤ length es)
      × (length (keep_starting_by offset es) ≡ length es → keep_starting_by offset es ≡ es)
unfolding keep_starting_by
length-keep_starting_by offset [] = (omega arith, λ h. refl)
length-keep_starting_by offset (e ∷ es) =
    let (shorter, same) = length-keep_starting_by offset es in
    (ground arith, λ h. ground (arith, same))

-- On ascending entries TruncateFromEnd keeps exactly the entries that start below the offset, and
-- it reports a change exactly when that is not all of them.
pub truncate_from_end-below :
    (es : List EpochEntry) (offset : ℕ)
    → IsAscending es
    → ((truncate_from_end es offset).0 ≡ starting_below offset es)
      × (((truncate_from_end es offset).1 ≡ false) ↔ (starting_below offset es ≡ es))
unfolding truncate_from_end
truncate_from_end-below es offset h =
    let same = (length-keep_starting_before offset es).1 in
    let kept = keep_starting_before-below offset es h in
    (
      ground (arith, same, kept),
      (λ p. ground (arith, same, kept), λ p. ground (arith, ap length kept, ap length p)),
    )

-- TruncateAfter keeps the entry that starts at the offset too: it is TruncateFromEnd at the next
-- offset, on ascending entries.
pub truncate_after-from_end :
    (es : List EpochEntry) (offset : ℕ)
    → IsAscending es
    → truncate_after es offset ≡ truncate_from_end es (offset + 1)
unfolding truncate_after truncate_from_end
truncate_after-from_end es offset h =
    ground (arith, keep_starting_by-below offset es h, keep_starting_before-below (offset + 1) es h)

All-starting_below :
    (e : EpochEntry) (offset : ℕ) (es : List EpochEntry)
    → All (Precedes e) es
    → All (Precedes e) (starting_below offset es)
unfolding starting_below
All-starting_below e offset [] h = tt
All-starting_below e offset (f ∷ es) h = ground (arith, All-starting_below e offset es h.1)

pub starting_below-IsAscending :
    (offset : ℕ) (es : List EpochEntry) → IsAscending es → IsAscending (starting_below offset es)
unfolding starting_below
starting_below-IsAscending offset [] h = tt
starting_below-IsAscending offset (e ∷ es) h =
    ground (arith, starting_below-IsAscending offset es h.2, All-starting_below e offset es h.1)
