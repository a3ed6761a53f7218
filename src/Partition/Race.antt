-- ===== src/Partition/Race.antt =====
-- internal/broker/partition.go: maybeAdvanceHW against a change of role. AppendRaw and
-- updateFollowerLEO call it with no lock held: MakeFollower and TruncateTo can run between the
-- computed high watermark and the compare-and-swap that publishes it.
use distributed_messaging_sy.Common.{ℕ, Bool, ◌≤◌, ◌<◌, ◌≡◌, some, false, arith}
use distributed_messaging_sy.Log.State.{next_offset}
use distributed_messaging_sy.Log.Truncation.{truncate_to}
use distributed_messaging_sy.Partition.{
  Partition, compute_hw, publish_hw, make_follower, notify_waiters,
}
use distributed_messaging_sy.Partition.Serving.{truncate, lower_hw}
use distributed_messaging_sy.Partition.Watermark.{IsSound}

record IsBehind (writes : Bool) (p q : Partition) (offset : ℕ) : Type 0 where
  follows : q.is_leader ≡ false
  cut : q.log ≡ (truncate_to writes p.log offset).0
  within : q.high_watermark ≤ next_offset q.log

deposed_low :
    (writes : Bool) (p : Partition) (epoch leader offset : ℕ)
    → IsBehind writes p (truncate writes offset (make_follower epoch leader p)).0 offset
unfolding make_follower truncate lower_hw notify_waiters
deposed_low writes p epoch leader offset = record {
  follows = ground arith;
  cut = ground arith;
  within = ground arith;
}

-- A leader computes a high watermark `n`, and before it publishes `n` becomes a follower whose
-- log is truncated to an end below `n`. Then the high watermark is `n`, past the end of the log.
pub publish_hw_race :
    (writes : Bool) (p : Partition) (n epoch leader offset : ℕ)
    → compute_hw p ≡ some n
    → next_offset (truncate_to writes p.log offset).0 < n
    → let q = publish_hw n (truncate writes offset (make_follower epoch leader p)).0 in
      (q.is_leader ≡ false) × (q.high_watermark ≡ n) × ¬ IsSound q
unfolding publish_hw
publish_hw_race writes p n epoch leader offset c h =
    let q = (truncate writes offset (make_follower epoch leader p)).0 in
    let low = deposed_low writes p epoch leader offset in
    (ground (arith, low), ground (arith, low), λ s. ground (arith, low))
