-- ===== src/Segment/Batches/Scan.antt =====
-- internal/log/segment.go, scanRawBatches: the batches that it finds.
use distributed_messaging_sy.Common.{
  ℕ, zero, suc, ◌+◌, ◌^◌, ◌≤◌, ◌<◌, ◌≡◌, inl, inr, ◌↔◌, refl, sym, ap, ap₂, ◌∙◌, List, [], ◌∷◌,
  ◌++◌, arith, length, take, drop, length-append, All, drop-append, subst,
}
use distributed_messaging_sy.Segment.Bytes.{u32_at, u64_at, concat}
use distributed_messaging_sy.Segment.Bytes.Slices.{
  u32_at-append, u64_at-append, take-append_drop, length-take_le,
}
use distributed_messaging_sy.Segment.Batches.{
  Result, Result-cases, ok, ◌>>=◌, Extent, BatchBounds, validate_raw_batch, bounds_at, scan_from,
  scan_raw_batches,
}
use distributed_messaging_sy.Segment.Batches.Valid.{
  IsBatch, validate_raw_batch-IsBatch, IsBatch-validate_raw_batch, IsBatch-append,
  IsBatch-of_append,
}

-- A batch, all of it and nothing behind it, with a base offset that is not negative.
abbrev pub IsWhole : List ℕ → Type 0
IsWhole p = IsBatch (length p) p × (u64_at 0 p < 2 ^ 63)

unfoldable pub bounds_of : ℕ → List ℕ → BatchBounds
bounds_of pos p = record {
  offset = pos;
  size = length p;
  last_offset_delta = u32_at 23 p;
  base_offset = u64_at 0 p;
  leader_epoch = u32_at 12 p;
}

unfoldable pub all_bounds : ℕ → List (List ℕ) → List BatchBounds
all_bounds pos [] = []
all_bounds pos (p ∷ ps) = bounds_of pos p ∷ all_bounds (pos + length p) ps

-- A chain that succeeds went through its first step.
bind_inversion {ℓ κ} :
    {A : Type ℓ} {B : Type κ} (step : Result A) (rest : A → Result B) (out : B)
    → (step >>= rest) ≡ ok out
    → (v : A) × (step ≡ ok v) × (rest v ≡ ok out)
bind_inversion step rest out done = elim (Result-cases step) [
  | inl (v, e) ↦ (v, e, sym (ap (λ r. r >>= rest) e) ∙ done)
  | inr (inl (e, failed)) ↦ absurd (cc (sym (ap (λ r. r >>= rest) failed) ∙ done))
  | inr (inr (inl failed)) ↦ absurd (cc (sym (ap (λ r. r >>= rest) failed) ∙ done))
  | inr (inr (inr failed)) ↦ absurd (cc (sym (ap (λ r. r >>= rest) failed) ∙ done))
]

bounds_at-bounds_of :
    (pos : ℕ) (e : Extent) (p rest : List ℕ) (b : BatchBounds)
    → 61 ≤ length p
    → e.size ≡ length p
    → e.last_offset_delta ≡ u32_at 23 (p ++ rest)
    → bounds_at pos e (p ++ rest) ≡ ok b
    → (b ≡ bounds_of pos p) × (u64_at 0 p < 2 ^ 63)
unfolding bounds_at bounds_of
bounds_at-bounds_of pos e p rest b long s d h = ground (
  arith,
  u32_at-append 23 p rest (omega arith),
  u32_at-append 12 p rest (omega arith),
  u64_at-append 0 p rest (omega arith),
)

-- The bytes behind `pos`, taken apart into batches.
abbrev Parts : ℕ → List ℕ → List BatchBounds → Type 0
Parts pos bs bounds =
    (ps : List (List ℕ)) × (concat ps ≡ bs) × All IsWhole ps × (bounds ≡ all_bounds pos ps)

first_part :
    (pos : ℕ) (bs : List ℕ) (e : Extent) (b : BatchBounds) (rest : List BatchBounds)
    → validate_raw_batch bs ≡ ok e
    → bounds_at pos e bs ≡ ok b
    → Parts (pos + e.size) (drop e.size bs) rest
    → Parts pos bs (b ∷ rest)
unfolding all_bounds
first_part pos bs e b rest valid noted (ps, joined, whole, same) =
    let v = validate_raw_batch-IsBatch bs e valid in
    let p = take e.size bs in
    let n : length p ≡ e.size = length-take_le e.size bs v.0.within in
    let split : p ++ drop e.size bs ≡ bs = take-append_drop e.size bs in
    let v' : IsBatch (length p) (p ++ drop e.size bs) =
      subst (λ m. IsBatch m (p ++ drop e.size bs)) (sym n)
        (subst (λ t. IsBatch e.size t) (sym split) v.0) in
    let here =
      bounds_at-bounds_of pos e p (drop e.size bs) b (omega (arith, v.0.header, n)) (sym n)
        (v.1 ∙ ap (λ t. u32_at 23 t) (sym split)) (ap (λ t. bounds_at pos e t) split ∙ noted) in
    (
      p ∷ ps,
      ap (λ t. p ++ t) joined ∙ split,
      ((IsBatch-of_append p (drop e.size bs) (omega (arith, v.0.header, n)) v', here.1), whole),
      ap₂ (λ x y. x ∷ y) here.0 (same ∙ ap (λ m. all_bounds (pos + m) ps) (sym n)),
    )

scan_from-Parts :
    (fuel pos : ℕ) (bs : List ℕ) (bounds : List BatchBounds)
    → scan_from fuel pos bs ≡ ok bounds
    → Parts pos bs bounds
unfolding scan_from all_bounds
scan_from-Parts zero pos bs bounds h = cc
scan_from-Parts (suc fuel) pos [] bounds h = ([], refl, tt, cc)
scan_from-Parts (suc fuel) pos (x ∷ xs) bounds h =
    let (e, valid, h1) = bind_inversion (validate_raw_batch (x ∷ xs)) _ bounds h in
    let (b, noted, h2) = bind_inversion (bounds_at pos e (x ∷ xs)) _ bounds h1 in
    let (rest, more, h3) =
      bind_inversion (scan_from fuel (pos + e.size) (drop e.size (x ∷ xs))) _ bounds h2 in
    subst (λ t. Parts pos (x ∷ xs) t) (cc)
      (first_part pos (x ∷ xs) e b rest valid noted
        (scan_from-Parts fuel (pos + e.size) (drop e.size (x ∷ xs)) rest more))

bounds_at-whole :
    (pos : ℕ) (p rest : List ℕ)
    → IsWhole p
    → bounds_at pos
        (record { size = length p; last_offset_delta = u32_at 23 (p ++ rest) })
        (p ++ rest)
      ≡ ok (bounds_of pos p)
unfolding bounds_at bounds_of
bounds_at-whole pos p rest w =
    let long : 61 ≤ length p = w.0.header in
    ground (
      arith,
      u32_at-append 23 p rest (omega arith),
      u32_at-append 12 p rest (omega arith),
      u64_at-append 0 p rest (omega arith),
    )

scan_from-batch :
    (fuel pos : ℕ) (p rest : List ℕ)
    → IsWhole p
    → scan_from (suc fuel) pos (p ++ rest)
      ≡ (scan_from fuel (pos + length p) rest >>= λ bounds. ok (bounds_of pos p ∷ bounds))
unfolding scan_from
scan_from-batch fuel pos [] rest w = absurd (omega (arith, w.0.header))
scan_from-batch fuel pos (x ∷ xs) rest w = rw (
  IsBatch-validate_raw_batch (x ∷ xs ++ rest) (IsBatch-append (x ∷ xs) rest w.0),
  bounds_at-whole pos (x ∷ xs) rest w,
  drop-append xs rest,
)

scan_from-concat :
    (fuel pos : ℕ) (ps : List (List ℕ))
    → All IsWhole ps
    → length (concat ps) < fuel
    → scan_from fuel pos (concat ps) ≡ ok (all_bounds pos ps)
unfolding all_bounds
scan_from-concat zero pos ps w h = absurd (omega arith)
scan_from-concat (suc fuel) pos [] w h = unfold scan_from in refl
scan_from-concat (suc fuel) pos (p ∷ ps) w h = rw (
  scan_from-batch fuel pos p (concat ps) w.0,
  scan_from-concat fuel (pos + length p) ps w.1
      (omega (arith, length-append p (concat ps), w.0.0.header)),
)

-- scanRawBatches accepts exactly the bytes that are whole batches one behind the other, each with
-- valid length, magic, checksum and counts and a base offset that is not negative, and returns
-- where each lies with its offsets and its epoch.
pub scan_raw_batches_iff :
    (bs : List ℕ) (bounds : List BatchBounds)
    → (scan_raw_batches bs ≡ ok bounds)
      ↔ ((ps : List (List ℕ)) × (concat ps ≡ bs) × All IsWhole ps × (bounds ≡ all_bounds 0 ps))
unfolding scan_raw_batches
scan_raw_batches_iff bs bounds = (
  scan_from-Parts (suc (length bs)) 0 bs bounds,
  λ (ps, joined, whole, same).
      subst (λ t. scan_from (suc (length t)) 0 t ≡ ok bounds) joined
        (scan_from-concat (suc (length (concat ps))) 0 ps whole (omega arith) ∙ ap ok (sym same)),
)
