-- ===== src/Partition/Watermark.antt =====
-- internal/broker/partition.go: the high watermark.
use distributed_messaging_sy.Common.{
  ℕ, ◌≤◌, ◌<◌, ◌≡◌, ◌⊎◌, true, false, not, ◌||◌, List, [], ◌∷◌, arith, leb, ltb, ◌==◌,
  if◌then◌else◌, is_empty, Bool-cases, inl, inr, subst,
}
use distributed_messaging_sy.Log.State.{next_offset}
use distributed_messaging_sy.Partition.{
  Partition, IsrEntry, min_leo, publish_hw, compute_hw, maybe_advance_hw,
}

-- The lowest of `hw` and the log ends of the followers in the ISR.
pub min_leo-le : (local hw : ℕ) (isr : List IsrEntry) → min_leo local hw isr ≤ hw
unfolding min_leo
min_leo-le local hw [] = omega arith
min_leo-le local hw (e ∷ es) = ground (
  arith,
  min_leo-le local (if e.broker_id == local then hw else if ltb e.leo hw then e.leo else hw) es,
)

-- Every follower in the ISR has its log end at `n` or behind it.
abbrev pub AllReached : ℕ → ℕ → List IsrEntry → Type 0
AllReached local n [] = Unit {0}
AllReached local n (e ∷ es) = ((e.broker_id ≡ local) ⊎ (n ≤ e.leo)) × AllReached local n es

AllReached-mono :
    (local n m : ℕ) (isr : List IsrEntry) → n ≤ m → AllReached local m isr → AllReached local n isr
AllReached-mono local n m [] h a = tt
AllReached-mono local n m (e ∷ es) h a = (ground arith, AllReached-mono local n m es h a.1)

min_leo-AllReached :
    (local hw : ℕ) (isr : List IsrEntry) → AllReached local (min_leo local hw isr) isr
unfolding min_leo
min_leo-AllReached local hw [] = tt
min_leo-AllReached local hw (e ∷ es) =
    let hw' = if e.broker_id == local then hw else if ltb e.leo hw then e.leo else hw in
    (ground (arith, min_leo-le local hw' es), min_leo-AllReached local hw' es)

-- The high watermark is within the log.
abbrev pub IsSound : Partition → Type 0
IsSound p = p.high_watermark ≤ next_offset p.log

-- From `p` to `p'` the high watermark was kept or raised as its definition allows.
pub record IsAdvance (p p' : Partition) : Type 0 where
  pub not_lower : p.high_watermark ≤ p'.high_watermark
  pub same_log : p'.log ≡ p.log
  pub same_role : p'.is_leader ≡ p.is_leader
  pub raised :
      (p'.high_watermark ≡ p.high_watermark)
      ⊎ ((p.is_leader ≡ true)
          × (p.high_watermark < p'.high_watermark)
          × (p'.high_watermark ≤ next_offset p.log)
          × AllReached p.local_broker_id p'.high_watermark p.isr)

maybe_advance_hw_raises :
    (p : Partition)
    → (not p.is_leader || is_empty p.isr) ≡ false
    → leb (min_leo p.local_broker_id (next_offset p.log) p.isr) p.high_watermark ≡ false
    → (p.is_leader ≡ true)
      × (p.high_watermark < (maybe_advance_hw p).high_watermark)
      × ((maybe_advance_hw p).high_watermark ≤ next_offset p.log)
      × AllReached p.local_broker_id (maybe_advance_hw p).high_watermark p.isr
unfolding maybe_advance_hw compute_hw publish_hw
maybe_advance_hw_raises p on high =
    let n = min_leo p.local_broker_id (next_offset p.log) p.isr in
    let e : n ≡ (maybe_advance_hw p).high_watermark = ground arith in
    (
      ground arith,
      ground arith,
      ground (arith, min_leo-le p.local_broker_id (next_offset p.log) p.isr),
      subst (λ m. AllReached p.local_broker_id m p.isr) e
          (min_leo-AllReached p.local_broker_id (next_offset p.log) p.isr),
    )

-- maybeAdvanceHW never lowers the high watermark and changes neither log nor role; where it
-- raises it, the partition leads, and the new one is within the log and within the log of every
-- follower in the ISR.
pub maybe_advance_hw-IsAdvance : (p : Partition) → IsAdvance p (maybe_advance_hw p)
unfolding maybe_advance_hw compute_hw publish_hw
maybe_advance_hw-IsAdvance p =
    let n = min_leo p.local_broker_id (next_offset p.log) p.isr in
    elim (Bool-cases (not p.is_leader || is_empty p.isr)) [
      | inl early ↦ record {
        not_lower = ground arith;
        same_log = ground arith;
        same_role = ground arith;
        raised = inl (ground arith);
      }
      | inr on ↦ elim (Bool-cases (leb n p.high_watermark)) [
        | inl low ↦ record {
          not_lower = ground arith;
          same_log = ground arith;
          same_role = ground arith;
          raised = inl (ground arith);
        }
        | inr high ↦ record {
          not_lower = ground arith;
          same_log = ground arith;
          same_role = ground arith;
          raised = inr (maybe_advance_hw_raises p on high);
        }
      ]
    ]

pub maybe_advance_hw-IsSound : (p : Partition) → IsSound p → IsSound (maybe_advance_hw p)
unfolding maybe_advance_hw compute_hw publish_hw
maybe_advance_hw-IsSound p h =
    ground (arith, min_leo-le p.local_broker_id (next_offset p.log) p.isr)
