-- ===== src/Log/Epochs/Frame.antt =====
-- internal/log/epoch_lifecycle.go: the operations on the epoch cache leave the segments alone.
use distributed_messaging_sy.Common.{
  ◌≡◌, refl, ◌∙◌, Bool, List, [], ◌∷◌, arith, inl, inr, ◌⊎◌, ℕ, true, false,
}
use distributed_messaging_sy.Epoch.{
  EpochEntry, Assigned, negative_epoch, assigned, assign, truncate_from_end,
}
use distributed_messaging_sy.Log.State.{Log, oldest_offset, next_offset}
use distributed_messaging_sy.Log.Joined.{IsLog}
use distributed_messaging_sy.Log.Epochs.{
  persist_epoch_checkpoint, set_entries, assign_leader_epochs, truncate_epochs,
}

-- The segments of two logs are the same.
pub record HasSegments (l l' : Log) : Type 0 where
  pub active : l'.active ≡ l.active
  pub sealed : l'.sealed ≡ l.sealed

pub HasSegments-IsLog :
    (l l' : Log)
    → HasSegments l l'
    → IsLog l
    → IsLog l' × (oldest_offset l' ≡ oldest_offset l) × (next_offset l' ≡ next_offset l)
unfolding oldest_offset next_offset
HasSegments-IsLog l l' same h = (
  record { joined = rw (same.active, same.sealed) h.joined; active = rw same.active h.active },
  rw (same.active, same.sealed),
  rw same.active,
)

persist-HasSegments :
    (writes : Bool) (l : Log) → HasSegments l (persist_epoch_checkpoint writes l).0
unfolding persist_epoch_checkpoint
persist-HasSegments writes l = ground arith

Assigned-cases :
    (a : Assigned)
    → (a ≡ negative_epoch)
      ⊎ ((entries : List EpochEntry) × (changed : Bool) × (a ≡ assigned entries changed))
Assigned-cases negative_epoch = inl refl
Assigned-cases (assigned entries changed) = inr (entries, changed, refl)

trans_segments : {l l' l'' : Log} → HasSegments l l' → HasSegments l' l'' → HasSegments l l''
trans_segments h k = record { active = k.active ∙ h.active; sealed = k.sealed ∙ h.sealed }

set-HasSegments :
    (l : Log) (entries : List EpochEntry) (changed : Bool)
    → HasSegments l (set_entries l entries changed)
unfolding set_entries
set-HasSegments l entries changed = record { active = refl; sealed = refl }

pub assign_leader_epochs-HasSegments :
    (writes : Bool) (es : List EpochEntry) (l : Log)
    → HasSegments l (assign_leader_epochs writes es l).0
unfolding assign_leader_epochs
assign_leader_epochs-HasSegments writes [] l = persist-HasSegments writes l
assign_leader_epochs-HasSegments writes (e ∷ es) l =
    elim (Assigned-cases (assign l.epoch_entries e.epoch e.start_offset)) [
      | inl f ↦ rw (f, assign_leader_epochs) (record { active = refl; sealed = refl })
      | inr (entries, changed, f) ↦
          rw (f, assign_leader_epochs)
            (trans_segments (set-HasSegments l entries changed)
              (assign_leader_epochs-HasSegments writes es (set_entries l entries changed)))
    ]

pub truncate_epochs-HasSegments :
    (writes cut : Bool) (offset : ℕ) (l : Log)
    → HasSegments l (truncate_epochs writes cut offset l).0
unfolding truncate_epochs
truncate_epochs-HasSegments writes true offset l =
    let r = truncate_from_end l.epoch_entries offset in
    trans_segments (set-HasSegments l r.0 r.1) (persist-HasSegments writes (set_entries l r.0 r.1))
truncate_epochs-HasSegments writes false offset l = persist-HasSegments writes l
