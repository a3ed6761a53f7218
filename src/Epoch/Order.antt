-- ===== src/Epoch/Order.antt =====
-- internal/log/epoch_cache.go, Assign: the order of the entries, and what an assignment keeps.
use distributed_messaging_sy.Common.{
  ℕ, ◌<◌, ◌≤◌, ◌^◌, ◌≡◌, ◌⊎◌, inl, inr, refl, ap, ◌∙◌, Bool, true, false, ◌&&◌, some, List, [], ◌∷◌,
  ◌++◌, arith, ltb, leb, ◌==◌, if◌then◌else◌, All, ltb→lt, Bool-cases, append_assoc, append-nil,
}
use distributed_messaging_sy.Epoch.{
  EpochEntry, last_entry, keep_before, Assigned, negative_epoch, assigned, assign_entries, assign,
  replay_from, replay_epoch_entries, epoch_entries_equal,
}

-- A non-negative int32.
abbrev pub IsEpoch : ℕ → Type 0
IsEpoch n = n < 2 ^ 31

abbrev pub Precedes : EpochEntry → EpochEntry → Type 0
Precedes e f = (e.epoch < f.epoch) × (e.start_offset < f.start_offset)

-- Epochs and start offsets both grow strictly.
abbrev pub IsAscending : List EpochEntry → Type 0
IsAscending [] = Unit {0}
IsAscending (e ∷ es) = IsEpoch e.epoch × All (Precedes e) es × IsAscending es

-- The entries with a smaller epoch and a smaller start offset than `new`, wherever they stand.
unfoldable pub older_than : EpochEntry → List EpochEntry → List EpochEntry
older_than new [] = []
older_than new (e ∷ es) =
    let rest = older_than new es in
    if ltb e.epoch new.epoch && ltb e.start_offset new.start_offset then e ∷ rest else rest

older_than-none :
    (new e : EpochEntry) (es : List EpochEntry)
    → All (Precedes e) es
    → (ltb e.epoch new.epoch && ltb e.start_offset new.start_offset) ≡ false
    → older_than new es ≡ []
unfolding older_than
older_than-none new e [] h n = refl
older_than-none new e (f ∷ es) (hf, hes) n = ground (arith, older_than-none new e es hes n)

-- On ascending entries the prefix that the loop keeps is a filter.
keep_before-older_than :
    (new : EpochEntry) (es : List EpochEntry)
    → IsEpoch new.epoch
    → IsAscending es
    → keep_before new.epoch new.start_offset es ≡ older_than new es
unfolding keep_before older_than
keep_before-older_than new [] hn h = refl
keep_before-older_than new (e ∷ es) hn (he, hp, hes) =
    ground (arith, keep_before-older_than new es hn hes, older_than-none new e es hp)

-- The last entry is the greatest.
pub last_entry_bounds :
    (e : EpochEntry) (es : List EpochEntry)
    → IsAscending (e ∷ es)
    → (e.epoch ≤ (last_entry e es).epoch)
      × (e.start_offset ≤ (last_entry e es).start_offset)
      × IsEpoch (last_entry e es).epoch
unfolding last_entry
last_entry_bounds e [] h = omega arith
last_entry_bounds e (f ∷ es) h = ground (arith, last_entry_bounds f es h.2)

older_than-all :
    (new e : EpochEntry) (es : List EpochEntry)
    → IsAscending (e ∷ es)
    → (last_entry e es).epoch < new.epoch
    → (last_entry e es).start_offset < new.start_offset
    → older_than new (e ∷ es) ≡ e ∷ es
unfolding older_than last_entry
older_than-all new e [] h p q = ground arith
older_than-all new e (f ∷ es) h p q =
    ground (arith, last_entry_bounds f es h.2, older_than-all new f es h.2)

All-Precedes-older_than :
    (e new : EpochEntry) (es : List EpochEntry)
    → All (Precedes e) es
    → All (Precedes e) (older_than new es)
unfolding older_than
All-Precedes-older_than e new [] h = tt
All-Precedes-older_than e new (f ∷ es) h = ground (arith, All-Precedes-older_than e new es h.1)

All-Precedes-snoc :
    (e new : EpochEntry) (es : List EpochEntry)
    → All (Precedes e) es
    → Precedes e new
    → All (Precedes e) (es ++ (new ∷ []))
All-Precedes-snoc e new [] h p = (p, tt)
All-Precedes-snoc e new (f ∷ es) (hf, hes) p = (hf, All-Precedes-snoc e new es hes p)

older_than-snoc-IsAscending :
    (new : EpochEntry) (es : List EpochEntry)
    → IsEpoch new.epoch
    → IsAscending es
    → IsAscending (older_than new es ++ (new ∷ []))
unfolding older_than
older_than-snoc-IsAscending new [] hn h = (hn, tt, tt)
older_than-snoc-IsAscending new (e ∷ es) hn (he, hp, hes) =
    elim (Bool-cases (ltb e.epoch new.epoch && ltb e.start_offset new.start_offset)) [
      | inl p ↦ rw p (
        he,
        All-Precedes-snoc e new _ (All-Precedes-older_than e new es hp) (ground arith),
        older_than-snoc-IsAscending new es hn hes,
      )
      | inr p ↦ rw p (older_than-snoc-IsAscending new es hn hes)
    ]

-- Whether the last entry already has this epoch, from this offset or an earlier one.
abbrev pub covers : EpochEntry → List EpochEntry → Bool
unfolding last_entry
covers new [] = false
covers new (e ∷ es) =
    new.epoch == (last_entry e es).epoch && leb (last_entry e es).start_offset new.start_offset

-- On ascending entries and for a non-negative epoch, Assign changes nothing when the last entry
-- has this epoch from this offset or an earlier one; otherwise it keeps exactly the entries that
-- are older in epoch and in start offset and puts the new entry behind them. So its fast path for
-- a newer epoch, which appends without looking at the entries, agrees with its loop.
pub assign-older_than :
    (entries : List EpochEntry) (new : EpochEntry)
    → IsAscending entries
    → IsEpoch new.epoch
    → assign entries new.epoch new.start_offset ≡ (
        if covers new entries
        then assigned entries false
        else assigned (older_than new entries ++ (new ∷ [])) true)
unfolding assign assign_entries last_entry covers
assign-older_than [] new h hn = unfold older_than in ground arith
assign-older_than (e ∷ es) new h hn = ground (
  arith,
  last_entry_bounds e es h,
  older_than-all new e es h,
  keep_before-older_than new (e ∷ es) hn h,
)

-- Assign keeps the entries ascending, whatever it is called with (an int32 epoch, a uint64 offset);
-- a negative epoch is refused.
pub assign-IsAscending :
    (entries : List EpochEntry) (new : EpochEntry) {es : List EpochEntry} {changed : Bool}
    → IsAscending entries
    → assign entries new.epoch new.start_offset ≡ assigned es changed
    → IsAscending es × IsEpoch new.epoch
assign-IsAscending entries new {es} {changed} h a = elim (Bool-cases (ltb new.epoch (2 ^ 31))) [
  | inl hn ↦ (kept (ltb→lt _ _ hn), ltb→lt _ _ hn)
  | inr hn ↦ absurd (refused hn)
]
  where
    refused : ltb new.epoch (2 ^ 31) ≡ false → ⊥
    refused hn = unfold assign in ground arith

    kept : IsEpoch new.epoch → IsAscending es
    kept hn =
        ground
          (arith, assign-older_than entries new h hn, older_than-snoc-IsAscending new entries hn h)

pub Assigned-cases :
    (a : Assigned)
    → (a ≡ negative_epoch) ⊎ ((es : List EpochEntry) × (changed : Bool) × (a ≡ assigned es changed))
Assigned-cases negative_epoch = inl refl
Assigned-cases (assigned es changed) = inr (es, changed, refl)

replay_from-IsAscending :
    (cache entries : List EpochEntry) {es : List EpochEntry}
    → IsAscending cache
    → replay_from cache entries ≡ some es
    → IsAscending es
unfolding replay_from
replay_from-IsAscending cache [] h r = ground arith
replay_from-IsAscending cache (e ∷ entries) {es} h r =
    elim (Assigned-cases (assign cache e.epoch e.start_offset)) [
      | inl p ↦ absurd (ground arith)
      | inr (cs, c, p) ↦
          replay_from-IsAscending cs entries (assign-IsAscending cache e h p).0 (ground arith)
    ]

-- Whatever entries are replayed into an empty cache, checkpointed or scanned, in any order and
-- with any int32 epochs, the cache that results, if there is no error, is ascending.
pub replay_epoch_entries-IsAscending :
    (entries : List EpochEntry) {es : List EpochEntry}
    → replay_epoch_entries entries ≡ some es
    → IsAscending es
unfolding replay_epoch_entries
replay_epoch_entries-IsAscending entries r = replay_from-IsAscending [] entries tt r

All-append :
    (e : EpochEntry) (cache es : List EpochEntry)
    → All (Precedes e) (cache ++ es)
    → All (Precedes e) cache
All-append e [] es h = tt
All-append e (c ∷ cs) es h = (h.0, All-append e cs es h.1)

IsAscending-append : (cache es : List EpochEntry) → IsAscending (cache ++ es) → IsAscending cache
IsAscending-append [] es h = tt
IsAscending-append (c ∷ cs) es (hc, hp, hs) =
    (hc, All-append c cs es hp, IsAscending-append cs es hs)

last_entry-Precedes :
    (c : EpochEntry) (cs : List EpochEntry) (e : EpochEntry) (es : List EpochEntry)
    → IsAscending ((c ∷ cs) ++ (e ∷ es))
    → Precedes (last_entry c cs) e × IsEpoch e.epoch
unfolding last_entry
last_entry-Precedes c [] e es h = omega arith
last_entry-Precedes c (d ∷ ds) e es h = last_entry-Precedes d ds e es h.2

assign_next :
    (cache : List EpochEntry) (e : EpochEntry) (es : List EpochEntry)
    → IsAscending (cache ++ (e ∷ es))
    → assign cache e.epoch e.start_offset ≡ assigned (cache ++ (e ∷ [])) true
unfolding assign assign_entries
assign_next [] e es h = ground arith
assign_next (c ∷ cs) e es h = ground (
  arith,
  last_entry-Precedes c cs e es h,
  last_entry_bounds c cs (IsAscending-append (c ∷ cs) (e ∷ es) h),
)

replay_from-ascending :
    (cache es : List EpochEntry)
    → IsAscending (cache ++ es)
    → replay_from cache es ≡ some (cache ++ es)
unfolding replay_from
replay_from-ascending cache [] h = rw append-nil
replay_from-ascending cache (e ∷ es) h =
    rw (assign_next cache e es h, replay_from)
      (replay_from-ascending (cache ++ (e ∷ [])) es (rw (append_assoc cache (e ∷ []) es) h)
        ∙ ap some (append_assoc cache (e ∷ []) es))

epoch_entries_equal_refl : (es : List EpochEntry) → epoch_entries_equal es es ≡ true
unfolding epoch_entries_equal
epoch_entries_equal_refl [] = refl
epoch_entries_equal_refl (e ∷ es) = ground (arith, epoch_entries_equal_refl es)

-- Replaying the entries of an ascending cache gives the same entries, and the test by which
-- recovery decides that a checkpoint needs repair finds no difference.
pub replay_epoch_entries-ascending :
    (es : List EpochEntry)
    → IsAscending es
    → (replay_epoch_entries es ≡ some es) × (epoch_entries_equal es es ≡ true)
unfolding replay_epoch_entries
replay_epoch_entries-ascending es h = (replay_from-ascending [] es h, epoch_entries_equal_refl es)
