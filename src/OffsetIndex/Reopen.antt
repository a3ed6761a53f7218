-- ===== src/OffsetIndex/Reopen.antt =====
-- internal/log/index.go, Close, NewIndex and recoverSize: an index that is closed and opened again.
use distributed_messaging_sy.Common.{
  ℕ, zero, suc, ◌+◌, ◌-◌, ◌*◌, ◌/◌, ◌≤◌, ◌<◌, ◌≡◌, refl, sym, ap, ap₂, append-nil, subst, ◌∙◌, some,
  List, [], ◌∷◌, ◌++◌, arith, All, length, drop, get_elem?, length-append, drop-append, drop-add,
  true, false, leb, ltb, ◌==◌, ◌&&◌, Bool-cases, inl, inr,
}
use native.Mathlib.Nat.{suc-add}
use distributed_messaging_sy.Protocol.Binary.{uint32, uint64}
use distributed_messaging_sy.OffsetIndex.{
  Index, rel_offset_at, file_pos_at, recover_from, recover_size, resize, new_index, close_index,
}
use distributed_messaging_sy.OffsetIndex.Entries.{
  IndexEntry, IsEntry, entries_bytes, length-entries_bytes, Holds, entry_at,
}
use distributed_messaging_sy.OffsetIndex.Search.{IsOrdered, get-bound, get-some}

pub length-resize : (n : ℕ) (bs : List ℕ) → length (resize n bs) ≡ n
unfolding resize
length-resize zero bs = refl
length-resize (suc n) [] = ap suc (length-resize n [])
length-resize (suc n) (b ∷ bs) = ap suc (length-resize n bs)

resize-append : (xs ys : List ℕ) (n : ℕ) → resize (length xs + n) (xs ++ ys) ≡ xs ++ resize n ys
unfolding resize
resize-append [] ys n = ap (λ m. resize m ys) (omega arith)
resize-append (x ∷ xs) ys n = simp suc-add (ap (λ zs. x ∷ zs) (resize-append xs ys n))

resize_zero : (bs : List ℕ) → resize 0 bs ≡ []
unfolding resize
resize_zero bs = refl

-- A region of zeros reads as the entry of two zeros.
zeros_entry :
    (k : ℕ)
    → (uint32 (resize (12 + k) []) ≡ some 0) × (uint64 (drop 4 (resize (12 + k) [])) ≡ some 0)
unfolding resize uint32 uint64
zeros_entry k =
    let e : suc (suc (suc (suc (suc (suc (suc (suc (suc (suc (suc (suc k))))))))))) ≡ 12 + k =
      omega arith in
    subst (λ m. (uint32 (resize m []) ≡ some 0) × (uint64 (drop 4 (resize m [])) ≡ some 0)) e
      (refl, refl)

ordered_positive :
    (e : IndexEntry) (es : List IndexEntry) (i : ℕ) (f : IndexEntry)
    → IsOrdered (e ∷ es)
    → get_elem? (e ∷ es) i ≡ some f
    → 0 < i
    → 0 < f.rel_offset
ordered_positive e es zero f o h p = absurd (omega arith)
ordered_positive e es (suc i) f o h p = omega (arith, get-bound es e.rel_offset i f o.0 h)

at_zeros :
    (es : List IndexEntry) (k : ℕ)
    → (rel_offset_at (entries_bytes es ++ resize (12 + k) []) (length es * 12) ≡ some 0)
      × (file_pos_at (entries_bytes es ++ resize (12 + k) []) (length es * 12) ≡ some 0)
unfolding rel_offset_at file_pos_at
at_zeros es k =
    let zs = resize (12 + k) [] in
    let n : length es * 12 ≡ length (entries_bytes es) = sym (length-entries_bytes es) in
    let behind : drop (length es * 12) (entries_bytes es ++ zs) ≡ zs =
      ap (λ m. drop m (entries_bytes es ++ zs)) n ∙ drop-append (entries_bytes es) zs in
    (
      ap uint32 behind ∙ (zeros_entry k).0,
      ap uint64 (drop-add (length es * 12) 4 (entries_bytes es ++ zs) ∙ ap (drop 4) behind)
          ∙ (zeros_entry k).1,
    )

recover_from-end :
    (fuel i k : ℕ) (e : IndexEntry) (es : List IndexEntry)
    → i ≡ length (e ∷ es)
    → recover_from
        (suc fuel)
        (length (e ∷ es) * 12 + k)
        (i * 12)
        (entries_bytes (e ∷ es) ++ resize k [])
      ≡ some (length (e ∷ es) * 12)
unfolding recover_from
recover_from-end fuel i k e es at_end =
    let n = length (e ∷ es) in
    rw at_end (elim (Bool-cases (leb (n * 12 + 12) (n * 12 + k))) [
      | inr short ↦ rw (short, recover_from)
      | inl room ↦
          let k' : k ≡ 12 + (k - 12) = ground arith in
          let (rel, pos) = at_zeros (e ∷ es) (k - 12) in
          let bytes = λ (m : ℕ). entries_bytes (e ∷ es) ++ resize m [] in
          let rel_k : rel_offset_at (bytes k) (n * 12) ≡ some 0 =
            ap (λ m. rel_offset_at (bytes m) (n * 12)) k' ∙ rel in
          let pos_k : file_pos_at (bytes k) (n * 12) ≡ some 0 =
            ap (λ m. file_pos_at (bytes m) (n * 12)) k' ∙ pos in
          let stops : (ltb 0 (n * 12) && 0 == 0 && 0 == 0) ≡ true = ground arith in
          rw (room, rel_k, pos_k, stops, recover_from)
    ])

-- The scan passes an entry: only the first may be two zeros.
passes :
    (e : IndexEntry) (es : List IndexEntry) (i : ℕ) (f : IndexEntry)
    → IsOrdered (e ∷ es)
    → get_elem? (e ∷ es) i ≡ some f
    → (ltb 0 (i * 12) && f.rel_offset == 0 && f.file_pos == 0) ≡ false
passes e es i f o h = elim (Bool-cases (ltb 0 i)) [
  | inl later ↦ ground (arith, ordered_positive e es i f o h (ground arith))
  | inr first ↦ ground arith
]

recover_from-entries :
    (fuel i k : ℕ) (e : IndexEntry) (es : List IndexEntry)
    → All IsEntry (e ∷ es)
    → IsOrdered (e ∷ es)
    → i ≤ length (e ∷ es)
    → length (e ∷ es) < i + fuel
    → recover_from fuel (length (e ∷ es) * 12 + k) (i * 12) (entries_bytes (e ∷ es) ++ resize k [])
      ≡ some (length (e ∷ es) * 12)
unfolding recover_from
recover_from-entries zero i k e es w o within enough = absurd (omega arith)
recover_from-entries (suc fuel) i k e es w o within enough =
    let n = length (e ∷ es) in
    elim (Bool-cases (ltb i n)) [
      | inl more ↦
          let (f, at_i) = get-some (e ∷ es) i (ground arith) in
          let (rel, pos) = entry_at (e ∷ es) (resize k []) i f w at_i in
          let room : leb (i * 12 + 12) (n * 12 + k) ≡ true = ground arith in
          let next : i * 12 + 12 ≡ suc i * 12 = omega arith in
          rw (room, rel, pos, passes e es i f o at_i, recover_from)
            (rw next (recover_from-entries fuel (suc i) k e es w o (ground arith) (omega arith)))
      | inr at_end ↦ recover_from-end fuel i k e es (ground arith)
    ]

close_index-bytes :
    (idx : Index) (es : List IndexEntry) → Holds idx es → close_index idx ≡ entries_bytes es
unfolding close_index
close_index-bytes idx es h =
    let n : idx.size ≡ length (entries_bytes es) + 0 =
      omega (arith, h.measure, length-entries_bytes es) in
    ap₂ resize n h.bytes ∙ resize-append (entries_bytes es) h.rest 0 ∙ append-nil (entries_bytes es)

recover_size-entries :
    (max k : ℕ) (e : IndexEntry) (es : List IndexEntry)
    → All IsEntry (e ∷ es)
    → IsOrdered (e ∷ es)
    → max ≡ length (e ∷ es) * 12 + k
    → recover_size max (entries_bytes (e ∷ es) ++ resize k []) ≡ some (length (e ∷ es) * 12)
unfolding recover_size
recover_size-entries max k e es w o m =
    ap (λ x. recover_from (max / 12 + 1) x 0 (entries_bytes (e ∷ es) ++ resize k [])) m
    ∙ recover_from-entries (max / 12 + 1) 0 k e es w o (omega arith) (omega arith)

-- An index that holds ordered entries, at least one, is closed and opened again with the same
-- capacity: NewIndex ends and panics nowhere, and the new index holds the same entries.
pub new_index-close_index :
    (idx : Index) (e : IndexEntry) (es : List IndexEntry)
    → Holds idx (e ∷ es)
    → IsOrdered (e ∷ es)
    → (idx' : Index) × (new_index (close_index idx) idx.base_offset idx.max_bytes ≡ some idx')
      × Holds idx' (e ∷ es)
      × (idx'.base_offset ≡ idx.base_offset)
unfolding new_index recover_size
new_index-close_index idx e es h o =
    let n = length (e ∷ es) in
    let k = idx.max_bytes - n * 12 in
    let bs = entries_bytes (e ∷ es) in
    let lb : length bs ≡ n * 12 = length-entries_bytes (e ∷ es) in
    let m : idx.max_bytes ≡ n * 12 + k =
      omega (arith, h.capacity, ap length h.bytes, length-append bs h.rest, lb) in
    let given : (idx.max_bytes == 0) ≡ false = ground (arith, m) in
    let some_bytes : leb (length bs) 0 ≡ false = ground (arith, lb) in
    let file = close_index-bytes idx (e ∷ es) h in
    let mapped : resize idx.max_bytes bs ≡ bs ++ resize k [] =
      ap₂ resize (m ∙ ap (λ x. x + k) (sym lb)) (sym (append-nil bs)) ∙ resize-append bs [] k in
    let size = recover_size-entries idx.max_bytes k e es h.words o m in
    (
      record {
        mmap = bs ++ resize k [];
        base_offset = idx.base_offset;
        size = n * 12;
        max_bytes = idx.max_bytes;
      },
      rw (file, given, some_bytes, mapped, size, new_index) (rw (file, given, mapped) refl),
      record {
        rest = resize k [];
        bytes = refl;
        measure = refl;
        capacity = omega (arith, length-append bs (resize k []), length-resize k [], lb, m);
        words = h.words;
      },
      refl,
    )
