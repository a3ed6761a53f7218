-- ===== src/OffsetIndex/Entries.antt =====
-- internal/log/index.go: the bytes of an index as a list of entries.
use distributed_messaging_sy.Common.{
  ℕ, zero, suc, ◌+◌, ◌-◌, ◌*◌, ◌%◌, ◌^◌, ◌≤◌, ◌<◌, ◌≡◌, refl, sym, ap, ◌∙◌, ap₂, ◌⊎◌, inl, inr,
  Bool-cases, ltb, ltb→lt, length-drop, none, some, List, [], ◌∷◌, ◌++◌, arith, append_assoc,
  append-nil, All, IsU32, IsU64, length, take, drop, get_elem?, length-append, drop-append,
  take-append, drop-add,
}
use distributed_messaging_sy.Protocol.Binary.{be32, be64, uint32, uint64}
use distributed_messaging_sy.Protocol.Binary.RoundTrip.{uint32-be32, uint64-be64}
use distributed_messaging_sy.OffsetIndex.{
  Index, rel_offset_at, file_pos_at, is_full, put_entry, write,
}

pub record IndexEntry : Type 0 where
  pub rel_offset : ℕ
  pub file_pos : ℕ

abbrev pub IsEntry : IndexEntry → Type 0
IsEntry e = IsU32 e.rel_offset × IsU64 e.file_pos

unfoldable pub entry_bytes : IndexEntry → List ℕ
entry_bytes e = be32 e.rel_offset ++ be64 e.file_pos

unfoldable pub entries_bytes : List IndexEntry → List ℕ
unfolding entry_bytes
entries_bytes [] = []
entries_bytes (e ∷ es) = entry_bytes e ++ entries_bytes es

length-entry_bytes : (e : IndexEntry) → length (entry_bytes e) ≡ 12
unfolding entry_bytes be32 be64
length-entry_bytes e = refl

pub length-entries_bytes : (es : List IndexEntry) → length (entries_bytes es) ≡ length es * 12
unfolding entries_bytes
length-entries_bytes [] = refl
length-entries_bytes (e ∷ es) = omega (
  arith,
  length-append (entry_bytes e) (entries_bytes es),
  length-entry_bytes e,
  length-entries_bytes es,
)

pub entries_bytes-append :
    (es : List IndexEntry) (e : IndexEntry)
    → entries_bytes (es ++ (e ∷ [])) ≡ entries_bytes es ++ entry_bytes e
unfolding entries_bytes
entries_bytes-append [] e = append-nil (entry_bytes e)
entries_bytes-append (f ∷ es) e =
    ap (λ bs. entry_bytes f ++ bs) (entries_bytes-append es e)
    ∙ sym (append_assoc (entry_bytes f) (entries_bytes es) (entry_bytes e))

-- The first bytes of the index are the entries `es`, of 12 bytes each.
pub record Holds (idx : Index) (es : List IndexEntry) : Type 0 where
  pub rest : List ℕ
  pub bytes : idx.mmap ≡ entries_bytes es ++ rest
  pub measure : idx.size ≡ length es * 12
  pub capacity : length idx.mmap ≡ idx.max_bytes
  pub words : All IsEntry es

drop-entry :
    (n : ℕ) (e : IndexEntry) (bs : List ℕ) → drop (12 + n) (entry_bytes e ++ bs) ≡ drop n bs
unfolding entry_bytes be32 be64
drop-entry n e bs = drop-add 12 n (entry_bytes e ++ bs)

first_entry :
    (f : IndexEntry) (rest : List ℕ)
    → IsEntry f
    → (rel_offset_at (entry_bytes f ++ rest) 0 ≡ some f.rel_offset)
      × (file_pos_at (entry_bytes f ++ rest) 0 ≡ some f.file_pos)
unfolding entry_bytes rel_offset_at file_pos_at be32
first_entry f rest w =
    (uint32-be32 f.rel_offset (be64 f.file_pos ++ rest) w.0, uint64-be64 f.file_pos rest w.1)

later_entry :
    (f : IndexEntry) (bs : List ℕ) (i : ℕ)
    → (rel_offset_at (entry_bytes f ++ bs) (suc i * 12) ≡ rel_offset_at bs (i * 12))
      × (file_pos_at (entry_bytes f ++ bs) (suc i * 12) ≡ file_pos_at bs (i * 12))
unfolding rel_offset_at file_pos_at
later_entry f bs i =
    let here : suc i * 12 ≡ 12 + i * 12 = omega arith in
    let there : suc i * 12 + 4 ≡ 12 + (i * 12 + 4) = omega arith in
    (
      ap (λ n. uint32 (drop n (entry_bytes f ++ bs))) here ∙ ap uint32 (drop-entry (i * 12) f bs),
      ap (λ n. uint64 (drop n (entry_bytes f ++ bs))) there
          ∙ ap uint64 (drop-entry (i * 12 + 4) f bs),
    )

-- Each entry is read at its position.
pub entry_at :
    (es : List IndexEntry) (rest : List ℕ) (i : ℕ) (e : IndexEntry)
    → All IsEntry es
    → get_elem? es i ≡ some e
    → (rel_offset_at (entries_bytes es ++ rest) (i * 12) ≡ some e.rel_offset)
      × (file_pos_at (entries_bytes es ++ rest) (i * 12) ≡ some e.file_pos)
unfolding entries_bytes
entry_at [] rest i e w h = absurd (ground arith)
entry_at (f ∷ es) rest zero e w h =
    let (a, b) = first_entry f (entries_bytes es ++ rest) w.0 in
    (rw append_assoc (ground (arith, a)), rw append_assoc (ground (arith, b)))
entry_at (f ∷ es) rest (suc i) e w h =
    let (a, b) = later_entry f (entries_bytes es ++ rest) i in
    let (c, d) = entry_at es rest i e w.1 h in (rw append_assoc (a ∙ c), rw append_assoc (b ∙ d))

-- An entry as Write makes it for an offset.
abbrev pub entry_for : Index → ℕ → ℕ → IndexEntry
entry_for idx offset file_pos = record {
  rel_offset = (offset + 2 ^ 64 - idx.base_offset) % 2 ^ 64 % 2 ^ 32;
  file_pos = file_pos;
}

All-snoc :
    (es : List IndexEntry) (e : IndexEntry)
    → All IsEntry es
    → IsEntry e
    → All IsEntry (es ++ (e ∷ []))
All-snoc [] e w h = (h, tt)
All-snoc (f ∷ es) e w h = (w.0, All-snoc es e w.1 h)

put_entry-bytes :
    (idx : Index) (es : List IndexEntry) (offset file_pos : ℕ) (h : Holds idx es)
    → (put_entry idx offset file_pos).mmap
      ≡ entries_bytes (es ++ (entry_for idx offset file_pos ∷ [])) ++ drop 12 h.rest
unfolding put_entry entry_bytes
put_entry-bytes idx es offset file_pos h =
    let e = entry_for idx offset file_pos in
    let n : idx.size ≡ length (entries_bytes es) = h.measure ∙ sym (length-entries_bytes es) in
    let before : take idx.size idx.mmap ≡ entries_bytes es =
      ap₂ take n h.bytes ∙ take-append (entries_bytes es) h.rest in
    let behind : drop idx.size idx.mmap ≡ h.rest =
      ap₂ drop n h.bytes ∙ drop-append (entries_bytes es) h.rest in
    ap₂ (λ xs ys. xs ++ (entry_bytes e ++ ys)) before
      (drop-add idx.size 12 idx.mmap ∙ ap (drop 12) behind)
    ∙ sym (append_assoc (entries_bytes es) (entry_bytes e) (drop 12 h.rest))
    ∙ ap (λ bs. bs ++ drop 12 h.rest) (sym (entries_bytes-append es e))

put_entry-Holds :
    (idx : Index) (es : List IndexEntry) (offset file_pos : ℕ)
    → Holds idx es
    → IsU64 file_pos
    → idx.size + 12 ≤ idx.max_bytes
    → Holds (put_entry idx offset file_pos) (es ++ (entry_for idx offset file_pos ∷ []))
unfolding put_entry
put_entry-Holds idx es offset file_pos h w fits =
    let e = entry_for idx offset file_pos in
    let b = put_entry-bytes idx es offset file_pos h in
    record {
      rest = drop 12 h.rest;
      bytes = b;
      measure = omega (arith, h.measure, length-append es (e ∷ []));
      capacity = omega (
        arith,
        ap length b,
        ap length h.bytes,
        length-append (entries_bytes (es ++ (e ∷ []))) (drop 12 h.rest),
        length-append (entries_bytes es) h.rest,
        length-entries_bytes (es ++ (e ∷ [])),
        length-entries_bytes es,
        length-append es (e ∷ []),
        length-drop 12 h.rest,
        h.measure,
        h.capacity,
      );
      words = All-snoc es e h.words (omega arith, w);
    }

-- Write fails exactly on a full index; otherwise it puts one entry behind those that the index
-- holds, and changes none of them.
pub write-Holds :
    (idx : Index) (es : List IndexEntry) (offset file_pos : ℕ)
    → Holds idx es
    → IsU64 file_pos
    → ((write idx offset file_pos ≡ none) × (idx.max_bytes < idx.size + 12))
      ⊎ ((write idx offset file_pos ≡ some (put_entry idx offset file_pos))
          × Holds (put_entry idx offset file_pos) (es ++ (entry_for idx offset file_pos ∷ [])))
unfolding write is_full
write-Holds idx es offset file_pos h w = elim (Bool-cases (ltb idx.max_bytes (idx.size + 12))) [
  | inl full ↦ inl (rw full, ltb→lt idx.max_bytes (idx.size + 12) full)
  | inr room ↦ inr (rw room, put_entry-Holds idx es offset file_pos h w (ground arith))
]
