-- ===== src/Partition/Purgatory.antt =====
-- internal/broker/partition.go: the producers that wait for the high watermark.
use distributed_messaging_sy.Common.{
  ℕ, if◌then◌else◌, Option, ◌+◌, ◌≤◌, ◌<◌, ◌≡◌, none, some, List, [], ◌∷◌, ◌++◌, map, arith, ltb,
  leb, ◌==◌, All, Bool-cases, inl, inr, ap, sym, refl,
}
use distributed_messaging_sy.Partition.{
  Partition, ErrorCode, PurgatoryEntry, Completion, push, popped, staying, complete, remove_entry,
  waiting, drain_purgatory, notify_waiters, publish_hw,
}

-- The entries stand by the high watermark that they require, the lowest first.
abbrev pub IsSorted : List PurgatoryEntry → Type 0
IsSorted [] = Unit {0}
IsSorted (e ∷ es) = All (λ f. e.required_hw ≤ f.required_hw) es × IsSorted es

abbrev AtLeast : ℕ → List PurgatoryEntry → Type 0
AtLeast n es = All (λ f. n ≤ f.required_hw) es

AtLeast-mono : (n m : ℕ) (es : List PurgatoryEntry) → n ≤ m → AtLeast m es → AtLeast n es
AtLeast-mono n m [] h a = tt
AtLeast-mono n m (e ∷ es) h a = (ground arith, AtLeast-mono n m es h a.1)

AtLeast-beyond :
    (n m : ℕ) (es : List PurgatoryEntry) → n < m → AtLeast m es → All (λ e. n < e.required_hw) es
AtLeast-beyond n m [] h a = tt
AtLeast-beyond n m (e ∷ es) h a = (ground arith, AtLeast-beyond n m es h a.1)

push-AtLeast :
    (n : ℕ) (e : PurgatoryEntry) (es : List PurgatoryEntry)
    → n ≤ e.required_hw
    → AtLeast n es
    → AtLeast n (push e es)
unfolding push
push-AtLeast n e [] h a = (h, tt)
push-AtLeast n e (f ∷ fs) h a = elim (Bool-cases (ltb e.required_hw f.required_hw)) [
  | inl lower ↦ rw lower ((h, a))
  | inr not_lower ↦ rw not_lower ((a.0, push-AtLeast n e fs h a.1))
]

pub push-IsSorted :
    (e : PurgatoryEntry) (es : List PurgatoryEntry) → IsSorted es → IsSorted (push e es)
unfolding push
push-IsSorted e [] s = (tt, tt)
push-IsSorted e (f ∷ fs) s = elim (Bool-cases (ltb e.required_hw f.required_hw)) [
  | inl lower ↦
      rw lower (((ground arith, AtLeast-mono e.required_hw f.required_hw fs (ground arith) s.0), s))
  | inr not_lower ↦
      rw not_lower ((push-AtLeast f.required_hw e fs (ground arith) s.0, push-IsSorted e fs s.1))
]

-- How often the entry `id` stands in a list of entries, and among the answers.
abbrev pub times : ℕ → List PurgatoryEntry → ℕ
times id [] = 0
times id (e ∷ es) = (if e.id == id then 1 else 0) + times id es

abbrev pub answers : ℕ → List Completion → ℕ
answers id [] = 0
answers id (c ∷ cs) = (if c.entry.id == id then 1 else 0) + answers id cs

pub answers-append :
    (id : ℕ) (cs ds : List Completion) → answers id (cs ++ ds) ≡ answers id cs + answers id ds
answers-append id [] ds = omega arith
answers-append id (c ∷ cs) ds = ground (arith, answers-append id cs ds)

pub answers-complete :
    (id : ℕ) (err : Option ErrorCode) (es : List PurgatoryEntry)
    → answers id (map (complete err) es) ≡ times id es
answers-complete id err [] = refl
answers-complete id err (e ∷ es) = ground (arith, answers-complete id err es)

pub times-push :
    (id : ℕ) (e : PurgatoryEntry) (es : List PurgatoryEntry)
    → times id (push e es) ≡ (if e.id == id then 1 else 0) + times id es
unfolding push
times-push id e [] = refl
times-push id e (f ∷ fs) = ground (arith, times-push id e fs)

popped-staying : (hw : ℕ) (es : List PurgatoryEntry) → popped hw es ++ staying hw es ≡ es
unfolding popped staying
popped-staying hw [] = refl
popped-staying hw (e ∷ es) = ground (arith, popped-staying hw es)

popped-ready : (hw : ℕ) (es : List PurgatoryEntry) → All (λ e. e.required_hw ≤ hw) (popped hw es)
unfolding popped
popped-ready hw [] = tt
popped-ready hw (e ∷ es) = elim (Bool-cases (ltb hw e.required_hw)) [
  | inl beyond ↦ rw beyond (tt)
  | inr ready ↦ rw ready ((ground arith, popped-ready hw es))
]

staying-beyond :
    (hw : ℕ) (es : List PurgatoryEntry)
    → IsSorted es
    → All (λ e. hw < e.required_hw) (staying hw es)
unfolding staying
staying-beyond hw [] s = tt
staying-beyond hw (e ∷ es) s = elim (Bool-cases (ltb hw e.required_hw)) [
  | inl beyond ↦ rw beyond ((ground arith, AtLeast-beyond hw e.required_hw es (ground arith) s.0))
  | inr ready ↦ rw ready (staying-beyond hw es s.1)
]

staying-AtLeast : (n hw : ℕ) (es : List PurgatoryEntry) → AtLeast n es → AtLeast n (staying hw es)
unfolding staying
staying-AtLeast n hw [] a = tt
staying-AtLeast n hw (e ∷ es) a = elim (Bool-cases (ltb hw e.required_hw)) [
  | inl beyond ↦ rw beyond (a)
  | inr ready ↦ rw ready (staying-AtLeast n hw es a.1)
]

pub staying-IsSorted : (hw : ℕ) (es : List PurgatoryEntry) → IsSorted es → IsSorted (staying hw es)
unfolding staying
staying-IsSorted hw [] s = tt
staying-IsSorted hw (e ∷ es) s = elim (Bool-cases (ltb hw e.required_hw)) [
  | inl beyond ↦ rw beyond (s)
  | inr ready ↦ rw ready (staying-IsSorted hw es s.1)
]

remove_entry-AtLeast :
    (n id : ℕ) (es : List PurgatoryEntry) → AtLeast n es → AtLeast n (remove_entry id es)
unfolding remove_entry
remove_entry-AtLeast n id [] a = tt
remove_entry-AtLeast n id (e ∷ es) a = elim (Bool-cases (e.id == id)) [
  | inl found ↦ rw found (a.1)
  | inr other ↦ rw other ((a.0, remove_entry-AtLeast n id es a.1))
]

pub remove_entry-IsSorted :
    (id : ℕ) (es : List PurgatoryEntry) → IsSorted es → IsSorted (remove_entry id es)
unfolding remove_entry
remove_entry-IsSorted id [] s = tt
remove_entry-IsSorted id (e ∷ es) s = elim (Bool-cases (e.id == id)) [
  | inl found ↦ rw found (s.1)
  | inr other ↦
      rw other ((remove_entry-AtLeast e.required_hw id es s.0, remove_entry-IsSorted id es s.1))
]

pub times-remove_entry :
    (id gone : ℕ) (es : List PurgatoryEntry) (e : PurgatoryEntry)
    → waiting gone es ≡ some e
    → (if e.id == id then 1 else 0) + times id (remove_entry gone es) ≡ times id es
unfolding remove_entry waiting
times-remove_entry id gone [] e w = absurd (ground arith)
times-remove_entry id gone (f ∷ fs) e w = elim (Bool-cases (f.id == gone)) [
  | inl found ↦
      let same : f ≡ e = ground (arith, found, w) in
      rw (found, remove_entry) (ap (λ g. (if g.id == id then 1 else 0) + times id fs) (sym same))
  | inr other ↦
      let later = times-remove_entry id gone fs e (ground (arith, other, w)) in
      rw (other, remove_entry) (omega (arith, later))
]

pub times-popped-staying :
    (id hw : ℕ) (es : List PurgatoryEntry)
    → times id (popped hw es) + times id (staying hw es) ≡ times id es
unfolding popped staying
times-popped-staying id hw [] = refl
times-popped-staying id hw (e ∷ es) = ground (arith, times-popped-staying id hw es)

-- `p'` has answered, without an error and in the order of the heap, just the waiting producers
-- of `p` whose required high watermark `p'` has reached.
pub record IsServed (p p' : Partition) : Type 0 where
  pub served : List PurgatoryEntry
  pub split : served ++ p'.purgatory ≡ p.purgatory
  pub answered : p'.completed ≡ p.completed ++ map (complete none) served
  pub ready : All (λ e. e.required_hw ≤ p'.high_watermark) served
  pub beyond : All (λ e. p'.high_watermark < e.required_hw) p'.purgatory

drain_purgatory-IsServed :
    (p : Partition) → IsSorted p.purgatory → IsServed p (drain_purgatory p.high_watermark p)
unfolding drain_purgatory
drain_purgatory-IsServed p s = record {
  served = popped p.high_watermark p.purgatory;
  split = popped-staying p.high_watermark p.purgatory;
  answered = refl;
  ready = popped-ready p.high_watermark p.purgatory;
  beyond = staying-beyond p.high_watermark p.purgatory s;
}

raised-IsServed :
    (hw : ℕ) (p : Partition)
    → IsSorted p.purgatory
    → IsServed p (notify_waiters (drain_purgatory hw (record p { high_watermark = hw })))
unfolding drain_purgatory notify_waiters
raised-IsServed hw p s = record {
  served = popped hw p.purgatory;
  split = popped-staying hw p.purgatory;
  answered = refl;
  ready = popped-ready hw p.purgatory;
  beyond = staying-beyond hw p.purgatory s;
}

-- From a sorted heap, publishing a high watermark answers without an error just the waiting
-- producers whose required high watermark the partition then has reached, and the others wait on.
pub publish_hw-IsServed :
    (hw : ℕ) (p : Partition) → IsSorted p.purgatory → IsServed p (publish_hw hw p)
unfolding publish_hw
publish_hw-IsServed hw p s = elim (Bool-cases (leb hw p.high_watermark)) [
  | inl low ↦ rw low (drain_purgatory-IsServed p s)
  | inr high ↦ rw high (raised-IsServed hw p s)
]
