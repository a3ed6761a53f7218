-- ===== src/Partition/Roles.antt =====
-- internal/broker/partition.go: what a change of role does.
use distributed_messaging_sy.Common.{
  Bool-cases, inl, inr, if◌then◌else◌, ℕ, ◌≡◌, Bool, some, List, [], ◌++◌, map, refl,
}
use distributed_messaging_sy.Partition.{
  Partition, not_leader_or_follower, partition_closed, Acks, complete, make_follower,
  make_unassigned, update_leader_isr,
}
use distributed_messaging_sy.Partition.Serving.{
  append_records, fetch_raw_ranges, append_refused, fetch_refused,
}

-- `p'` does not lead and keeps the log and the high watermark of `p`; every producer that waited
-- in `p` is answered with notLeaderOrFollower, none waits on; and `p'` refuses appends, fetches
-- and changes of the ISR, and keeps its state then.
pub record IsDeposed (p p' : Partition) : Type 0 where
  pub same_log : p'.log ≡ p.log
  pub same_hw : p'.high_watermark ≡ p.high_watermark
  pub none_waits : p'.purgatory ≡ []
  pub answered :
      p'.completed ≡ p.completed ++ map (complete (some not_leader_or_follower)) p.purgatory
  pub append_refuses :
      (bs : List ℕ) (acks : Acks)
      → append_records bs acks p' ≡ (p', append_refused not_leader_or_follower)
  pub fetch_refuses :
      (offset replica max_bytes : ℕ) (oversized : Bool)
      → fetch_raw_ranges offset replica max_bytes oversized p'
        ≡ (p', fetch_refused (if p.closed then partition_closed else not_leader_or_follower))
  pub isr_refuses :
      (epoch : ℕ) (ids : List ℕ)
      → update_leader_isr epoch ids p' ≡ (p', some not_leader_or_follower)

-- MakeFollower, whatever the role was: the log and the high watermark are kept, every waiting
-- producer is answered with notLeaderOrFollower and none waits on, and appends, fetches and
-- changes of the ISR are refused and change nothing.
pub make_follower-IsDeposed :
    (epoch leader : ℕ) (p : Partition) → IsDeposed p (make_follower epoch leader p)
unfolding make_follower append_records fetch_raw_ranges update_leader_isr
make_follower-IsDeposed epoch leader p = record {
  same_log = refl;
  same_hw = refl;
  none_waits = refl;
  answered = refl;
  append_refuses = λ bs acks. refl;
  fetch_refuses = λ offset replica max_bytes oversized. elim (Bool-cases p.closed) [
    | inl c ↦ rw c
    | inr c ↦ rw c
  ];
  isr_refuses = λ epoch' ids. refl;
}

-- MakeUnassigned, whatever the role was: the log and the high watermark are kept, every waiting
-- producer is answered with notLeaderOrFollower and none waits on, and appends, fetches and
-- changes of the ISR are refused and change nothing.
pub make_unassigned-IsDeposed : (p : Partition) → IsDeposed p (make_unassigned p)
unfolding make_unassigned append_records fetch_raw_ranges update_leader_isr
make_unassigned-IsDeposed p = record {
  same_log = refl;
  same_hw = refl;
  none_waits = refl;
  answered = refl;
  append_refuses = λ bs acks. refl;
  fetch_refuses = λ offset replica max_bytes oversized. elim (Bool-cases p.closed) [
    | inl c ↦ rw c
    | inr c ↦ rw c
  ];
  isr_refuses = λ epoch' ids. refl;
}
