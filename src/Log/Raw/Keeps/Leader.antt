-- ===== src/Log/Raw/Keeps/Leader.antt =====
-- internal/log/log_raw.go, AppendRaw: what a leader appends.
use distributed_messaging_sy.Common.{
  ℕ, ◌+◌, ◌-◌, ◌%◌, ◌^◌, ◌≤◌, ◌≡◌, ◌≢◌, refl, Bool, true, inl, inr, List, [], ◌∷◌, arith, length,
}
use distributed_messaging_sy.Segment.Bytes.{concat}
use distributed_messaging_sy.Segment.Batches.{
  Result, ok, err, panicked, exhausted, ◌>>=◌, Result-cases, BatchBounds, scan_raw_batches,
}
use distributed_messaging_sy.Segment.Batches.Scan.{all_bounds, scan_raw_batches_iff}
use distributed_messaging_sy.Segment.State.{Segment}
use distributed_messaging_sy.Segment.Writing.{
  Appended, write_batches, append_batches, append_raw_batches,
}
use distributed_messaging_sy.Segment.Writing.Keeps.{append_raw_batches-Holds}
use distributed_messaging_sy.Log.State.{Log, oldest_offset, next_offset}
use distributed_messaging_sy.Log.Joined.{IsLog}
use distributed_messaging_sy.Log.Raw.{
  scan_some, check_sizes, append_to_active, last_delta, append_raw,
}
use distributed_messaging_sy.Log.Raw.Keeps.{Appends, Keeps, append_to_active-Keeps}

pub append_batches-base :
    (s : Segment) (bs : List ℕ) (bounds : List BatchBounds) (epoch : ℕ) (assign : Bool)
    (a : Appended)
    → append_batches s bs bounds epoch assign ≡ ok a
    → a.segment.base_offset ≡ s.base_offset
unfolding append_batches write_batches
append_batches-base s bs bounds epoch assign a h = ground arith

pub scan_some-ok :
    (bs : List ℕ) (bounds : List BatchBounds)
    → scan_some bs ≡ ok bounds
    → scan_raw_batches bs ≡ ok bounds
unfolding scan_some
scan_some-ok bs bounds h = elim (Result-cases (scan_raw_batches bs)) [
  | inl ([], e) ↦ absurd (ground (arith, e, h))
  | inl (b ∷ rest, e) ↦ ground (arith, e, h)
  | inr failed ↦ absurd (ground (arith, failed, h))
]

scanned :
    (max : ℕ) (bs : List ℕ) (bounds : List BatchBounds)
    → (scan_some bs >>= check_sizes max) ≡ ok bounds
    → scan_raw_batches bs ≡ ok bounds
unfolding check_sizes
scanned max bs bounds h = elim (Result-cases (scan_some bs)) [
  | inl (found, e) ↦ scan_some-ok bs bounds (ground (arith, e, h))
  | inr failed ↦ absurd (ground (arith, failed, h))
]

append_raw_batches-Appends :
    (leo epoch : ℕ) (bs : List ℕ) (bounds : List BatchBounds)
    → scan_raw_batches bs ≡ ok bounds
    → Appends leo (λ s. append_raw_batches s bs bounds epoch)
append_raw_batches-Appends leo epoch bs bounds h s a (ps, held) next e =
    let (parts, joined, whole, same) = (scan_raw_batches_iff bs bounds).0 h in
    let e' : append_raw_batches s (concat parts) (all_bounds 0 parts) epoch ≡ ok a =
      rw (joined, ← same) e in
    let (holds, starts, _, grows) = append_raw_batches-Holds s ps parts a held epoch whole e' in
    record {
      sound = (_, holds);
      based = unfold append_raw_batches in append_batches-base s bs bounds epoch true a e;
      starts = starts;
      grows = grows;
    }

-- The log behind AppendRaw, and what AppendRaw returned.
pub record IsAppended (l : Log) (res : Log × Result (ℕ × ℕ)) : Type 0 where
  pub sound : IsLog res.0
  pub oldest : oldest_offset res.0 ≡ oldest_offset l
  pub grows : next_offset l ≤ next_offset res.0
  pub done :
      (base delta : ℕ)
      → res.1 ≡ ok (base, delta)
      → (base ≡ next_offset l) × (delta ≡ (next_offset res.0 - next_offset l + 2 ^ 64 - 1) % 2 ^ 32)

refused : (l : Log) (r : Result (ℕ × ℕ)) → IsLog l → ((a : ℕ × ℕ) → r ≢ ok a) → IsAppended l (l, r)
refused l r h k = record {
  sound = h;
  oldest = refl;
  grows = omega arith;
  done = λ base delta e. absurd (k (base, delta) e);
}

last_delta-done :
    (l : Log) (res : Log × Result Appended)
    → Keeps l res
    → (base delta : ℕ) → last_delta res.1 ≡ ok (base, delta)
    → (base ≡ next_offset l) × (delta ≡ (next_offset res.0 - next_offset l + 2 ^ 64 - 1) % 2 ^ 32)
unfolding last_delta
last_delta-done l res k base delta e = elim (Result-cases res.1) [
  | inl (a, f) ↦ ground (arith, f, k.done a f, e)
  | inr failed ↦ absurd (ground (arith, failed, e))
]

returned :
    (l : Log) (res : Log × Result Appended) → Keeps l res → IsAppended l (res.0, last_delta res.1)
returned l res k = record {
  sound = k.sound;
  oldest = k.oldest;
  grows = k.grows;
  done = λ base delta e. last_delta-done l res k base delta e;
}

-- AppendRaw on a log whose segments hold whole batches in one row of consecutive offsets leaves
-- such a log, whether it succeeds or fails and whether it rolls the segment or not: the oldest
-- offset stays, the end does not move back. Where it succeeds it returns the old end and, as a
-- uint32, the number of new offsets less one.
pub append_raw-IsAppended :
    (l : Log) (bs : List ℕ) (epoch : ℕ) → IsLog l → IsAppended l (append_raw l bs epoch)
unfolding append_raw
append_raw-IsAppended l bs epoch h =
    elim (Result-cases (scan_some bs >>= check_sizes l.config.max_message_bytes)) [
      | inl (bounds, e) ↦
          let append : Segment → Result Appended = λ s. append_raw_batches s bs bounds epoch in
          rw (e, append_raw)
            (returned l (append_to_active l (length bs) append) (
              append_to_active-Keeps l (length bs) append h (
                append_raw_batches-Appends (next_offset l) epoch bs bounds
                  (scanned l.config.max_message_bytes bs bounds e))))
      | inr (inl (code, e)) ↦ rw (e, append_raw) (refused l (err code) h (λ a f. cc))
      | inr (inr (inl e)) ↦ rw (e, append_raw) (refused l panicked h (λ a f. cc))
      | inr (inr (inr e)) ↦ rw (e, append_raw) (refused l exhausted h (λ a f. cc))
    ]
