-- ===== src/OffsetIndex/Total.antt =====
-- internal/log/index.go, NewIndex and recoverSize on files of any content.
use distributed_messaging_sy.Common.{
  ℕ, zero, suc, ◌+◌, ◌*◌, ◌/◌, ◌≤◌, ◌<◌, ◌≡◌, refl, Bool-cases, inl, inr, some, Option-cases,
  if◌then◌else◌, List, arith, length, drop, length-drop, leb, ltb, ◌&&◌, ◌==◌,
}
use distributed_messaging_sy.Protocol.Decoder.Methods.{uint32-some, uint64-some}
use distributed_messaging_sy.OffsetIndex.{
  Index, rel_offset_at, file_pos_at, recover_from, recover_size, resize, new_index,
}
use distributed_messaging_sy.OffsetIndex.Reopen.{length-resize}

-- Both fields of an entry inside the mapping can be read.
entry-some :
    (pos : ℕ) (mmap : List ℕ)
    → pos + 12 ≤ length mmap
    → (r p : ℕ) × (rel_offset_at mmap pos ≡ some r) × (file_pos_at mmap pos ≡ some p)
unfolding rel_offset_at file_pos_at
entry-some pos mmap h =
    let (r, e) = uint32-some (drop pos mmap) (omega (arith, length-drop pos mmap)) in
    let (p, f) = uint64-some (drop (pos + 4) mmap) (omega (arith, length-drop (pos + 4) mmap)) in
    (r, p, e, f)

recover_from-some :
    (fuel max pos : ℕ) (mmap : List ℕ)
    → max ≤ length mmap
    → pos ≤ max
    → max < pos + 12 * fuel
    → (n : ℕ) × (recover_from fuel max pos mmap ≡ some n)
unfolding recover_from
recover_from-some zero max pos mmap h inside fuel_ok = absurd (omega arith)
recover_from-some (suc fuel) max pos mmap h inside fuel_ok =
    elim (Bool-cases (leb (pos + 12) max)) [
      | inr over ↦ (pos, ground (arith, over))
      | inl room ↦
          let (r, p, e, f) = entry-some pos mmap (ground (arith, room, h)) in
          elim (Bool-cases (ltb 0 pos && r == 0 && p == 0)) [
            | inl end ↦ (pos, ground (arith, room, e, f, end))
            | inr more ↦
                let (n, found) =
                  recover_from-some fuel max (pos + 12) mmap h (ground (arith, room))
                    (omega arith) in
                (n, ground (arith, room, e, f, more, found))
          ]
    ]

-- NewIndex opens every file.
pub new_index-some :
    (file : List ℕ) (base max : ℕ)
    → 0 < max
    → (idx : Index) × (new_index file base max ≡ some idx) × (idx.max_bytes ≡ max)
unfolding new_index recover_size
new_index-some file base max h =
    let (n, e) =
      recover_from-some (max / 12 + 1) max 0 (resize max file)
        (omega (arith, length-resize max file)) (omega arith) (omega arith) in
    elim (Bool-cases (leb (length file) 0)) [
      | inl empty ↦ (
        record { mmap = resize max file; base_offset = base; size = 0; max_bytes = max },
        ground (arith, empty),
        refl,
      )
      | inr bytes ↦ (
        record { mmap = resize max file; base_offset = base; size = n; max_bytes = max },
        ground (arith, bytes, e),
        refl,
      )
    ]

-- The base offset and the mapping of an index that NewIndex opens.
pub new_index-frame :
    (file : List ℕ) (base max : ℕ) (idx : Index)
    → 0 < max
    → new_index file base max ≡ some idx
    → (idx.base_offset ≡ base) × (length idx.mmap ≡ idx.max_bytes)
unfolding new_index
new_index-frame file base max idx h e =
    elim (Option-cases
      (if leb (length file) 0 then some 0 else recover_size max (resize max file))) [
        | inl none_left ↦ absurd (ground (arith, none_left, e))
        | inr (size, f) ↦ (ground (arith, f, e), ground (arith, f, e, length-resize max file))
      ]
