-- ===== src/Log/Raw/Keeps.antt =====
-- internal/log/log_raw.go: an append keeps the segments of a log in one row.
pub mod Leader
pub mod Replica
use distributed_messaging_sy.Common.{
  ℕ, zero, suc, ◌+◌, ◌^◌, ◌≤◌, ◌<◌, ◌≡◌, ◌≢◌, refl, sym, ap, ◌∙◌, subst, Option, none, some,
  Option-cases, inl, inr, List, [], ◌∷◌, ◌++◌, arith,
}
use distributed_messaging_sy.Segment.Batches.{
  Result, ok, err, panicked, exhausted, segment_full, message_too_large, corrupt_batch,
  multiple_batches, unsupported_message_format, unexpected_append_offset, other, LogError, ◌>>=◌,
  Result-cases,
}
use distributed_messaging_sy.Segment.State.{Segment}
use distributed_messaging_sy.Segment.Writing.{Appended}
use distributed_messaging_sy.Log.State.{LogConfig, SegmentPair, Log, oldest_offset, next_offset}
use distributed_messaging_sy.Log.Pairs.{note_entry, roll, roll_if_full}
use distributed_messaging_sy.Log.Joined.{
  IsSound, IsLog, with_active, roll-IsLog, roll_if_full-IsLog,
}
use distributed_messaging_sy.Log.Raw.{note_append, finish_append, retry_full, append_to_active}

-- A successful append to the segment `s`.
pub record Extends (s : Segment) (a : Appended) : Type 0 where
  pub sound : IsSound a.segment
  pub based : a.segment.base_offset ≡ s.base_offset
  pub starts : a.base_offset ≡ s.next_offset
  pub grows : a.segment.next_offset ≡ s.next_offset + a.records

-- What a call of the segment does to every sound segment that ends at `leo`.
abbrev pub Appends : ℕ → (Segment → Result Appended) → Type 0
Appends leo append =
    (s : Segment) (a : Appended) → IsSound s → s.next_offset ≡ leo → append s ≡ ok a → Extends s a

-- The log behind an append, whether the append succeeded or not.
pub record Keeps (l : Log) (res : Log × Result Appended) : Type 0 where
  pub sound : IsLog res.0
  pub oldest : oldest_offset res.0 ≡ oldest_offset l
  pub grows : next_offset l ≤ next_offset res.0
  pub done :
      (a : Appended)
      → res.1 ≡ ok a
      → (a.base_offset ≡ next_offset l) × (next_offset res.0 ≡ next_offset l + a.records)

failed-Keeps :
    (l : Log) (r : Result Appended) → IsLog l → ((a : Appended) → r ≢ ok a) → Keeps l (l, r)
failed-Keeps l r h k = record {
  sound = h;
  oldest = refl;
  grows = omega arith;
  done = λ a e. absurd (k a e);
}

-- The active pair with the segment behind an append.
extended :
    (l : Log) (a : Appended) (p : SegmentPair) (r : Result Appended)
    → IsLog l
    → Extends l.active.segment a
    → p.segment ≡ a.segment
    → ((b : Appended) → r ≡ ok b → b ≡ a)
    → Keeps l (record l { active = p }, r)
unfolding next_offset
extended l a p r h x same only =
    let kept =
      with_active l p h (ap (λ (s : Segment). s.base_offset) same ∙ x.based)
        (subst IsSound (sym same) x.sound) in
    let next = ap (λ (s : Segment). s.next_offset) same ∙ x.grows in
    record {
      sound = kept.0;
      oldest = kept.1;
      grows = omega (arith, next);
      done = λ b e. (
        ap (λ (t : Appended). t.base_offset) (only b e) ∙ x.starts,
        next ∙ ap (λ (t : Appended). l.active.segment.next_offset + t.records) (sym (only b e)),
      );
    }

note_append-Keeps :
    (l : Log) (a : Appended) (n : ℕ)
    → IsLog l
    → Extends l.active.segment a
    → Keeps l (note_append l a n)
unfolding note_append
note_append-Keeps l a n h x =
    let bytes = l.active.bytes_since_index + n in
    elim (Option-cases
      (note_entry l.active.index l.config.index_interval_bytes a.base_offset a.pos bytes)) [
        | inl e ↦
            rw (e, note_append)
              (extended l a (record l.active { segment = a.segment; bytes_since_index = bytes })
                (err other) h x refl (λ b e. cc))
        | inr ((idx, left), e) ↦
            rw (e, note_append)
              (extended l a (record { segment = a.segment; index = idx; bytes_since_index = left })
                (ok a) h x refl (λ b e. cc))
      ]

finish_append-Keeps :
    (l : Log) (n : ℕ) (append : Segment → Result Appended) (r : Result Appended)
    → IsLog l
    → Appends (next_offset l) append
    → append l.active.segment ≡ r
    → Keeps l (finish_append l n r)
unfolding finish_append next_offset
finish_append-Keeps l n append (ok a) h x e =
    note_append-Keeps l a n h (x l.active.segment a h.active refl e)
finish_append-Keeps l n append (err code) h x e = failed-Keeps l (err code) h (λ a f. cc)
finish_append-Keeps l n append panicked h x e = failed-Keeps l panicked h (λ a f. cc)
finish_append-Keeps l n append exhausted h x e = failed-Keeps l exhausted h (λ a f. cc)

-- What holds of the log behind a roll, holds of the log before it.
Keeps-before :
    (l l' : Log) (res : Log × Result Appended)
    → oldest_offset l' ≡ oldest_offset l
    → next_offset l' ≡ next_offset l
    → Keeps l' res
    → Keeps l res
Keeps-before l l' res o n k = record {
  sound = k.sound;
  oldest = k.oldest ∙ o;
  grows = omega (arith, k.grows, n);
  done = λ a e. let d = k.done a e in (d.0 ∙ n, d.1 ∙ ap (λ t. t + a.records) n);
}

-- The second try, behind a roll.
retry_rolled-Keeps :
    (l : Log) (n : ℕ) (append : Segment → Result Appended)
    → IsLog l
    → Appends (next_offset l) append
    → Keeps l (retry_full l n append (err segment_full))
unfolding retry_full
retry_rolled-Keeps l n append h x = elim (Result-cases (roll l)) [
  | inl (l', e) ↦
      let (sound, oldest, next) = roll-IsLog l l' h e in
      rw (e, retry_full)
        (Keeps-before l l' (finish_append l' n (append l'.active.segment)) oldest next (
          finish_append-Keeps l' n append (append l'.active.segment) sound
            (subst (λ k. Appends k append) (sym next) x) refl))
  | inr (inl (code, e)) ↦ rw (e, retry_full) (failed-Keeps l (err code) h (λ a f. cc))
  | inr (inr (inl e)) ↦ rw (e, retry_full) (failed-Keeps l panicked h (λ a f. cc))
  | inr (inr (inr e)) ↦ rw (e, retry_full) (failed-Keeps l exhausted h (λ a f. cc))
]

retry_full-Keeps :
    (l : Log) (n : ℕ) (append : Segment → Result Appended) (r : Result Appended)
    → IsLog l
    → Appends (next_offset l) append
    → append l.active.segment ≡ r
    → Keeps l (retry_full l n append r)
unfolding retry_full finish_append
retry_full-Keeps l n append (err segment_full) h x e = retry_rolled-Keeps l n append h x
retry_full-Keeps l n append (ok a) h x e = finish_append-Keeps l n append (ok a) h x e
retry_full-Keeps l n append panicked h x e = failed-Keeps l panicked h (λ a f. cc)
retry_full-Keeps l n append exhausted h x e = failed-Keeps l exhausted h (λ a f. cc)
retry_full-Keeps l n append (err message_too_large) h x e =
    failed-Keeps l (err message_too_large) h (λ a f. cc)
retry_full-Keeps l n append (err corrupt_batch) h x e =
    failed-Keeps l (err corrupt_batch) h (λ a f. cc)
retry_full-Keeps l n append (err multiple_batches) h x e =
    failed-Keeps l (err multiple_batches) h (λ a f. cc)
retry_full-Keeps l n append (err unsupported_message_format) h x e =
    failed-Keeps l (err unsupported_message_format) h (λ a f. cc)
retry_full-Keeps l n append (err unexpected_append_offset) h x e =
    failed-Keeps l (err unexpected_append_offset) h (λ a f. cc)
retry_full-Keeps l n append (err other) h x e = failed-Keeps l (err other) h (λ a f. cc)

-- Whatever the call of the segment is, if it extends sound segments, the log is kept.
pub append_to_active-Keeps :
    (l : Log) (n : ℕ) (append : Segment → Result Appended)
    → IsLog l
    → Appends (next_offset l) append
    → Keeps l (append_to_active l n append)
unfolding append_to_active
append_to_active-Keeps l n append h x = elim (Result-cases (roll_if_full l)) [
  | inl (l', e) ↦
      let (sound, oldest, next) = roll_if_full-IsLog l l' h e in
      rw (e, append_to_active)
        (Keeps-before l l' (retry_full l' n append (append l'.active.segment)) oldest next (
          retry_full-Keeps l' n append (append l'.active.segment) sound
            (subst (λ k. Appends k append) (sym next) x) refl))
  | inr (inl (code, e)) ↦ rw (e, append_to_active) (failed-Keeps l (err code) h (λ a f. cc))
  | inr (inr (inl e)) ↦ rw (e, append_to_active) (failed-Keeps l panicked h (λ a f. cc))
  | inr (inr (inr e)) ↦ rw (e, append_to_active) (failed-Keeps l exhausted h (λ a f. cc))
]
