-- ===== src/OffsetIndex/Search.antt =====
-- internal/log/index.go, Lookup: the binary search finds the last entry that starts by the offset.
use distributed_messaging_sy.Common.{
  ◌∙◌, ℕ, zero, suc, ◌+◌, ◌-◌, ◌/◌, ◌%◌, ◌^◌, ◌≤◌, ◌<◌, ◌≡◌, ◌↔◌, refl, ap, some, List, [], ◌∷◌,
  ◌++◌, arith, All, length, get_elem?, true, false, leb, ltb, ◌==◌, if◌then◌else◌, Bool-cases, inl,
  inr,
}
use native.Mathlib.Numerals.{unary_clauses}
use distributed_messaging_sy.OffsetIndex.{
  Index, Bounds, narrow, search, file_position, position_of, lookup_position,
}
use distributed_messaging_sy.OffsetIndex.Entries.{
  IndexEntry, IsEntry, entries_bytes, Holds, entry_at,
}

-- The entries stand by relative offset, strictly growing.
abbrev pub IsOrdered : List IndexEntry → Type 0
IsOrdered [] = Unit {0}
IsOrdered (e ∷ es) = All (λ f. e.rel_offset < f.rel_offset) es × IsOrdered es

-- How many entries start by the relative offset, counted from the front.
unfoldable pub count_by : ℕ → List IndexEntry → ℕ
count_by target [] = 0
count_by target (e ∷ es) =
    let rest = count_by target es in if leb e.rel_offset target then suc rest else 0

-- The last entry that starts by the relative offset, or the first entry if none does.
unfoldable pub last_by : ℕ → IndexEntry → List IndexEntry → IndexEntry
last_by target e [] = e
last_by target e (f ∷ es) = if leb f.rel_offset target then last_by target f es else e

pub get-bound :
    (es : List IndexEntry) (n i : ℕ) (e : IndexEntry)
    → All (λ f. n < f.rel_offset) es
    → get_elem? es i ≡ some e
    → n < e.rel_offset
get-bound [] n i e a h = absurd (ground arith)
get-bound (f ∷ es) n zero e a h = ground arith
get-bound (f ∷ es) n (suc i) e a h = get-bound es n i e a.1 h

count_by_iff :
    (target : ℕ) (es : List IndexEntry) (i : ℕ) (e : IndexEntry)
    → IsOrdered es
    → get_elem? es i ≡ some e
    → (i < count_by target es) ↔ (e.rel_offset ≤ target)
unfolding count_by
count_by_iff target [] i e o h = absurd (ground arith)
count_by_iff target (f ∷ es) zero e o h = ground arith
count_by_iff target (f ∷ es) (suc i) e o h =
    ground (arith, count_by_iff target es i e o.1 h, get-bound es f.rel_offset i e o.0 h)

count_by_bound : (target : ℕ) (es : List IndexEntry) → count_by target es ≤ length es
unfolding count_by
count_by_bound target [] = omega arith
count_by_bound target (e ∷ es) = ground (arith, count_by_bound target es)

pub get-some :
    (es : List IndexEntry) (i : ℕ) → i < length es → (e : IndexEntry) × (get_elem? es i ≡ some e)
get-some [] i h = absurd (omega arith)
get-some (e ∷ es) zero h = (e, refl)
get-some (e ∷ es) (suc i) h = get-some es i (omega arith)

-- Where the loop stands: everything before `low` starts by the target, nothing from `limit` on.
record IsBetween (c : ℕ) (n : ℕ) (b : Bounds) : Type 0 where
  low_by : b.low ≤ c
  limit_from : c ≤ b.limit
  inside : b.limit ≤ n
  last_low : b.result ≡ b.low - 1

narrow-IsBetween :
    (c n target mid rel fuel : ℕ) (b : Bounds)
    → IsBetween c n b
    → b.low ≤ mid
    → mid < b.limit
    → (mid < c) ↔ (rel ≤ target)
    → b.limit < b.low + suc fuel
    → IsBetween c n (narrow target mid rel b)
      × ((narrow target mid rel b).limit < (narrow target mid rel b).low + fuel)
unfolding narrow
narrow-IsBetween c n target mid rel fuel b i from below h f = elim (Bool-cases (leb rel target)) [
  | inl starts ↦ rw starts (
    record {
      low_by = ground (arith, h.1);
      limit_from = i.limit_from;
      inside = i.inside;
      last_low = omega arith;
    },
    omega arith,
  )
  | inr later ↦ rw later (
    record {
      low_by = i.low_by;
      limit_from = ground (arith, h.0);
      inside = omega (arith, i.inside);
      last_low = i.last_low;
    },
    omega arith,
  )
]

search-count_by :
    (fuel target : ℕ) (es : List IndexEntry) (rest : List ℕ) (b : Bounds)
    → All IsEntry es
    → IsOrdered es
    → IsBetween (count_by target es) (length es) b
    → b.limit < b.low + fuel
    → search fuel target (entries_bytes es ++ rest) b ≡ some (count_by target es - 1)
unfolding search
search-count_by zero target es rest b w o i h = absurd (omega (arith, i.low_by, i.limit_from))
search-count_by (suc fuel) target es rest b w o i h = elim (Bool-cases (ltb b.low b.limit)) [
  | inr done ↦ rw (done, search) (ap some (ground (arith, i.low_by, i.limit_from, i.last_low)))
  | inl more ↦
      let mid = (b.low + (b.limit - 1)) / 2 in
      let from : b.low ≤ mid = ground arith in
      let below : mid < b.limit = ground arith in
      let (e, at_mid) = get-some es mid (omega (arith, i.inside)) in
      let (between, shrinks) =
        narrow-IsBetween (count_by target es) (length es) target mid e.rel_offset fuel b i from
          below (count_by_iff target es mid e o at_mid) h in
      rw (more, (entry_at es rest mid e w at_mid).0, search)
        (search-count_by fuel target es rest (narrow target mid e.rel_offset b) w o between shrinks)
]

get-last_by :
    (target : ℕ) (e : IndexEntry) (es : List IndexEntry)
    → IsOrdered (e ∷ es)
    → get_elem? (e ∷ es) (count_by target (e ∷ es) - 1) ≡ some (last_by target e es)
unfolding count_by last_by
get-last_by target e [] o = ground arith
get-last_by target e (f ∷ es) o =
    let rest = get-last_by target f es o.1 in
    elim (Bool-cases (leb f.rel_offset target)) [
      | inl starts ↦
          let first : leb e.rel_offset target ≡ true = ground arith in
          rw starts (rw first (simp unary_clauses (simp unary_clauses at (rw starts at rest))))
      | inr later ↦ rw later (ground arith)
    ]

-- Lookup goes by the low 32 bits of the relative offset.
lookup_position-low_bits :
    (idx : Index) (e : IndexEntry) (es : List IndexEntry) (offset : ℕ)
    → Holds idx (e ∷ es)
    → IsOrdered (e ∷ es)
    → idx.base_offset ≤ offset
    → lookup_position idx offset
      ≡ file_position (last_by ((offset - idx.base_offset) % 2 ^ 32) e es).file_pos
unfolding lookup_position position_of
lookup_position-low_bits idx e es offset h o above =
    let target = (offset - idx.base_offset) % 2 ^ 32 in
    let n = length (e ∷ es) in
    let whole : idx.size / 12 ≡ n = omega (arith, h.measure) in
    let between : IsBetween (count_by target (e ∷ es)) n
        (record { low = 0; limit = n; result = 0 }) =
      record {
        low_by = omega arith;
        limit_from = count_by_bound target (e ∷ es);
        inside = omega arith;
        last_low = omega arith;
      } in
    let finds = search-count_by (n + 1) target (e ∷ es) h.rest _ h.words o between (omega arith) in
    let at_result =
      entry_at (e ∷ es) h.rest (count_by target (e ∷ es) - 1) (last_by target e es) h.words
        (get-last_by target e es o) in
    let nonempty : (idx.size == 0) ≡ false = ground (arith, h.measure) in
    let within : ltb offset idx.base_offset ≡ false = ground arith in
    rw (nonempty, within, whole, h.bytes, finds) (rw (at_result.1, position_of))

-- On an index that holds the ordered entries `e ∷ es`, Lookup of an offset at or above the base
-- offset and less than 2 ^ 32 above it ends within its fuel, panics nowhere, and gives the file
-- position of the last entry whose relative offset is at most that of the offset, or of the first
-- entry if none is.
pub lookup_position-last_by :
    (idx : Index) (e : IndexEntry) (es : List IndexEntry) (offset : ℕ)
    → Holds idx (e ∷ es)
    → IsOrdered (e ∷ es)
    → idx.base_offset ≤ offset
    → offset < idx.base_offset + 2 ^ 32
    → lookup_position idx offset ≡ file_position (last_by (offset - idx.base_offset) e es).file_pos
lookup_position-last_by idx e es offset h o above near =
    let same : (offset - idx.base_offset) % 2 ^ 32 ≡ offset - idx.base_offset = omega arith in
    lookup_position-low_bits idx e es offset h o above
    ∙ ap (λ n. file_position (last_by n e es).file_pos) same
