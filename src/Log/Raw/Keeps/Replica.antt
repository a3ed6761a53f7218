-- ===== src/Log/Raw/Keeps/Replica.antt =====
-- internal/log/log_raw.go, AppendReplicaRaw: what a follower appends.
use distributed_messaging_sy.Common.{
  ℕ, ◌+◌, ◌≤◌, ◌≡◌, refl, sym, ap, ◌∙◌, subst, Bool, false, inl, inr, List, [], ◌∷◌, ◌++◌, arith,
  All, length, take, ltb_i32, if◌then◌else◌, length-append, take-append, Bool-cases,
}
use distributed_messaging_sy.Epoch.{EpochEntry}
use distributed_messaging_sy.Segment.Bytes.{u32_at, u64_at, concat}
use distributed_messaging_sy.Segment.Bytes.Slices.{concat-append}
use distributed_messaging_sy.Segment.Batches.{
  Result, ok, err, panicked, exhausted, other, ◌>>=◌, Result-cases, BatchBounds,
}
use distributed_messaging_sy.Segment.Batches.Scan.{
  IsWhole, bounds_of, all_bounds, scan_raw_batches_iff,
}
use distributed_messaging_sy.Segment.State.{Segment}
use distributed_messaging_sy.Segment.Chain.{span, IsChain}
use distributed_messaging_sy.Segment.Writing.{Appended, append_replica_batches}
use distributed_messaging_sy.Segment.Writing.Keeps.{append_replica_batches-Holds}
use distributed_messaging_sy.Log.State.{Log, oldest_offset, next_offset}
use distributed_messaging_sy.Log.Joined.{IsLog}
use distributed_messaging_sy.Log.Epochs.{assign_leader_epochs}
use distributed_messaging_sy.Log.Epochs.Frame.{HasSegments-IsLog, assign_leader_epochs-HasSegments}
use distributed_messaging_sy.Log.Raw.{
  scan_some, accepted, check_after, check_accepted, append_to_active, append_accepted,
  replica_bounds, append_replica_raw,
}
use distributed_messaging_sy.Log.Raw.Keeps.{Appends, Keeps, append_to_active-Keeps}
use distributed_messaging_sy.Log.Raw.Keeps.Leader.{append_batches-base, scan_some-ok}

-- The batches before the first of a newer epoch.
unfoldable pub older_parts : ℕ → List (List ℕ) → List (List ℕ)
older_parts fetch_epoch [] = []
older_parts fetch_epoch (p ∷ ps) =
    let rest = older_parts fetch_epoch ps in
    if ltb_i32 fetch_epoch (u32_at 12 p) then [] else p ∷ rest

accepted-older_parts :
    (fetch_epoch pos : ℕ) (ps : List (List ℕ))
    → accepted fetch_epoch (pos + length (concat ps)) (all_bounds pos ps) ≡ (
      all_bounds pos (older_parts fetch_epoch ps),
      pos + length (concat (older_parts fetch_epoch ps)),
    )
unfolding accepted all_bounds bounds_of older_parts
accepted-older_parts fetch_epoch pos [] = refl
accepted-older_parts fetch_epoch pos (p ∷ ps) =
    let n : pos + length (p ++ concat ps) ≡ (pos + length p) + length (concat ps) =
      omega (arith, length-append p (concat ps)) in
    let kept = older_parts fetch_epoch ps in
    let m : pos + length (p ++ concat kept) ≡ (pos + length p) + length (concat kept) =
      omega (arith, length-append p (concat kept)) in
    let z : pos + 0 ≡ pos = omega arith in
    ground (arith, n, m, z, accepted-older_parts fetch_epoch (pos + length p) ps)

accepted_all :
    (fetch_epoch : ℕ) (ps : List (List ℕ))
    → accepted fetch_epoch (length (concat ps)) (all_bounds 0 ps)
      ≡ (all_bounds 0 (older_parts fetch_epoch ps), length (concat (older_parts fetch_epoch ps)))
accepted_all fetch_epoch ps =
    let from_zero : (n : ℕ) → 0 + n ≡ n = λ n. omega arith in
    ap (λ n. accepted fetch_epoch n (all_bounds 0 ps)) (sym (from_zero (length (concat ps))))
    ∙ accepted-older_parts fetch_epoch 0 ps
    ∙ ap (λ n. (all_bounds 0 (older_parts fetch_epoch ps), n))
        (from_zero (length (concat (older_parts fetch_epoch ps))))

older_parts-prefix :
    (fetch_epoch : ℕ) (ps : List (List ℕ))
    → (rest : List (List ℕ)) × (ps ≡ older_parts fetch_epoch ps ++ rest)
unfolding older_parts
older_parts-prefix fetch_epoch [] = ([], refl)
older_parts-prefix fetch_epoch (p ∷ ps) = elim (Bool-cases (ltb_i32 fetch_epoch (u32_at 12 p))) [
  | inl newer ↦ (p ∷ ps, rw newer refl)
  | inr older ↦
      let (rest, e) = older_parts-prefix fetch_epoch ps in (rest, rw older (ap (λ t. p ∷ t) e))
]

All-prefix : (ps qs : List (List ℕ)) → All IsWhole (ps ++ qs) → All IsWhole ps
All-prefix [] qs h = tt
All-prefix (p ∷ ps) qs h = (h.0, All-prefix ps qs h.1)

-- A batch that passes the checks follows the batch before it, and so do those behind it.
check_after-next :
    (p q : List ℕ) (prev_pos pos : ℕ) (bounds : List BatchBounds) (transitions : List EpochEntry)
    → IsWhole p
    → check_after (bounds_of prev_pos p) (bounds_of pos q ∷ bounds) ≡ ok transitions
    → (u64_at 0 q ≡ u64_at 0 p + span p)
      × ((later : List EpochEntry) × (check_after (bounds_of pos q) bounds ≡ ok later))
unfolding check_after bounds_of span
check_after-next p q prev_pos pos bounds transitions v h =
    elim (Result-cases (check_after (bounds_of pos q) bounds)) [
      | inl (later, e) ↦ (ground (arith, v.1, v.0.counted, v.0.bounded, e, h), (later, e))
      | inr failed ↦ absurd (ground (arith, failed, h))
    ]

check_after-IsChain :
    (p : List ℕ) (pos prev_pos : ℕ) (ps : List (List ℕ)) (transitions : List EpochEntry)
    → IsWhole p
    → All IsWhole ps
    → check_after (bounds_of prev_pos p) (all_bounds pos ps) ≡ ok transitions
    → IsChain (u64_at 0 p + span p) ps
unfolding all_bounds
check_after-IsChain p pos prev_pos [] transitions v w h = tt
check_after-IsChain p pos prev_pos (q ∷ ps) transitions v w h =
    let (next, (later, e)) =
      check_after-next p q prev_pos pos (all_bounds (pos + length q) ps) transitions v h in
    (
      w.0.0,
      next,
      subst (λ n. IsChain (n + span q) ps) next
          (check_after-IsChain q (pos + length q) pos ps later w.0 w.1 e),
    )

check_accepted-IsChain :
    (leo : ℕ) (ps : List (List ℕ)) (transitions : List EpochEntry)
    → All IsWhole ps
    → check_accepted leo (all_bounds 0 ps) ≡ ok transitions
    → IsChain leo ps
unfolding check_accepted all_bounds
check_accepted-IsChain leo [] transitions w h = tt
check_accepted-IsChain leo (p ∷ ps) transitions w h =
    elim (Result-cases (check_after (bounds_of 0 p) (all_bounds (0 + length p) ps))) [
      | inl (later, e) ↦
          let first : u64_at 0 p ≡ leo = unfold bounds_of in ground (arith, h) in
          (
            w.0.0,
            first,
            subst (λ n. IsChain (n + span p) ps) first
                (check_after-IsChain p (0 + length p) 0 ps later w.0 w.1 e),
          )
      | inr failed ↦ absurd (ground (arith, failed, h))
    ]

append_replica_batches-Appends :
    (leo : ℕ) (ps : List (List ℕ))
    → All IsWhole ps
    → IsChain leo ps
    → Appends leo (λ s. append_replica_batches s (concat ps) (all_bounds 0 ps))
append_replica_batches-Appends leo ps w c s a (rows, held) next e =
    let (holds, starts, _, grows) = append_replica_batches-Holds s rows ps a held (rw next c) w e in
    record {
      sound = (_, holds);
      based =
          unfold append_replica_batches in
          append_batches-base s (concat ps) (all_bounds 0 ps) 0 false a e;
      starts = starts;
      grows = grows;
    }

-- The log behind AppendReplicaRaw, and the number of offsets that it returned.
pub record IsReplicated (l : Log) (res : Log × Result ℕ) : Type 0 where
  pub sound : IsLog res.0
  pub oldest : oldest_offset res.0 ≡ oldest_offset l
  pub grows : next_offset l ≤ next_offset res.0
  pub done : (n : ℕ) → res.1 ≡ ok n → next_offset res.0 ≡ next_offset l + n

stays : (l : Log) (r : Result ℕ) → IsLog l → ((n : ℕ) → r ≡ ok n → n ≡ 0) → IsReplicated l (l, r)
stays l r h k = record {
  sound = h;
  oldest = refl;
  grows = omega arith;
  done = λ n e. omega (arith, k n e);
}

records_of : Result Appended → Result ℕ
records_of r = r >>= λ a. ok a.records

records_of-done :
    (l : Log) (res : Log × Result Appended)
    → Keeps l res
    → (n : ℕ) → records_of res.1 ≡ ok n
    → next_offset res.0 ≡ next_offset l + n
unfolding records_of
records_of-done l res k n e = elim (Result-cases res.1) [
  | inl (a, f) ↦ ground (arith, f, k.done a f, e)
  | inr failed ↦ absurd (ground (arith, failed, e))
]

returned :
    (l : Log) (res : Log × Result Appended) → Keeps l res → IsReplicated l (res.0, records_of res.1)
returned l res k = record {
  sound = k.sound;
  oldest = k.oldest;
  grows = k.grows;
  done = records_of-done l res k;
}

-- What holds of a log with other epochs, holds of the log.
other_epochs :
    (l l' : Log) (res : Log × Result ℕ)
    → oldest_offset l' ≡ oldest_offset l
    → next_offset l' ≡ next_offset l
    → IsReplicated l' res
    → IsReplicated l res
other_epochs l l' res o n k = record {
  sound = k.sound;
  oldest = k.oldest ∙ o;
  grows = omega (arith, k.grows, n);
  done = λ m e. k.done m e ∙ ap (λ t. t + m) n;
}

append_accepted-IsReplicated :
    (writes : Bool) (l : Log) (ps : List (List ℕ)) (transitions : List EpochEntry)
    → IsLog l
    → All IsWhole ps
    → IsChain (next_offset l) ps
    → IsReplicated l (append_accepted writes l (concat ps) (all_bounds 0 ps) transitions)
unfolding append_accepted records_of
append_accepted-IsReplicated writes l ps transitions h w c =
    let epochs = assign_leader_epochs writes transitions l in
    let l' = epochs.0 in
    let (sound, oldest, next) =
      HasSegments-IsLog l l' (assign_leader_epochs-HasSegments writes transitions l) h in
    let append : Segment → Result Appended =
      λ s. append_replica_batches s (concat ps) (all_bounds 0 ps) in
    let appended =
      append_to_active-Keeps l' (length (concat ps)) append sound
        (append_replica_batches-Appends (next_offset l') ps w (rw next c)) in
    elim (Bool-cases epochs.1) [
      | inl persisted ↦
          rw (persisted, append_accepted)
            (other_epochs l l' _ oldest next
              (returned l' (append_to_active l' (length (concat ps)) append) appended))
      | inr lost ↦
          rw (lost, append_accepted)
            (other_epochs l l' (l', err other) oldest next (stays l' (err other) sound (λ n e. cc)))
    ]

replica_bounds-IsReplicated :
    (writes : Bool) (l : Log) (bs : List ℕ) (ps rest : List (List ℕ))
    → IsLog l
    → All IsWhole ps
    → concat (ps ++ rest) ≡ bs
    → IsReplicated l (replica_bounds writes l bs (all_bounds 0 ps, length (concat ps)))
unfolding replica_bounds all_bounds
replica_bounds-IsReplicated writes l bs [] rest h w joined = stays l (ok 0) h (λ n e. cc)
replica_bounds-IsReplicated writes l bs (p ∷ ps) rest h w joined =
    let cut : take (length (concat (p ∷ ps))) bs ≡ concat (p ∷ ps) =
      rw (← joined, concat-append (p ∷ ps) rest) (take-append (concat (p ∷ ps)) (concat rest)) in
    elim (Result-cases (check_accepted (next_offset l) (all_bounds 0 (p ∷ ps)))) [
      | inl (transitions, e) ↦
          rw (e, replica_bounds, cut)
            (append_accepted-IsReplicated writes l (p ∷ ps) transitions h w
              (check_accepted-IsChain (next_offset l) (p ∷ ps) transitions w e))
      | inr (inl (code, e)) ↦ rw (e, replica_bounds) (stays l (err code) h (λ n f. cc))
      | inr (inr (inl e)) ↦ rw (e, replica_bounds) (stays l panicked h (λ n f. cc))
      | inr (inr (inr e)) ↦ rw (e, replica_bounds) (stays l exhausted h (λ n f. cc))
    ]

-- AppendReplicaRaw on a log whose segments hold whole batches in one row of consecutive offsets
-- leaves such a log, whether it succeeds or fails: batches whose offsets do not follow the end of
-- the log, or one another, never reach a segment. The oldest offset stays, the end does not move
-- back, and where the call succeeds the end moves by the number of records that it returns.
pub append_replica_raw-IsReplicated :
    (writes : Bool) (l : Log) (bs : List ℕ) (fetch_epoch : ℕ)
    → IsLog l
    → IsReplicated l (append_replica_raw writes l bs fetch_epoch)
unfolding append_replica_raw
append_replica_raw-IsReplicated writes l bs fetch_epoch h = elim (Result-cases (scan_some bs)) [
  | inl (bounds, e) ↦
      let (ps, joined, whole, same) =
        (scan_raw_batches_iff bs bounds).0 (scan_some-ok bs bounds e) in
      let (rest, split) = older_parts-prefix fetch_epoch ps in
      let kept = older_parts fetch_epoch ps in
      rw (e, append_replica_raw, same, ← joined, accepted_all fetch_epoch ps)
        (replica_bounds-IsReplicated writes l (concat ps) kept rest h
          (All-prefix kept rest (rw split at whole)) (ap concat (sym split)))
  | inr (inl (code, e)) ↦ rw (e, append_replica_raw) (stays l (err code) h (λ n f. cc))
  | inr (inr (inl e)) ↦ rw (e, append_replica_raw) (stays l panicked h (λ n f. cc))
  | inr (inr (inr e)) ↦ rw (e, append_replica_raw) (stays l exhausted h (λ n f. cc))
]
