-- ===== src/Log/Opening/Marked.antt =====
-- internal/log/log.go, rebuildIndexFromSegment: the entries that it writes point at batches.
use distributed_messaging_sy.Common.{
  ℕ, ◌+◌, ◌^◌, ◌≤◌, ◌<◌, ◌≡◌, ◌≢◌, refl, ap, ◌∙◌, subst, Bool-cases, inl, inr, leb, ◌==◌, ◌||◌,
  some, List, [], ◌∷◌, ◌++◌, arith, All, length, length-append,
}
use distributed_messaging_sy.OffsetIndex.{Index, put_entry}
use distributed_messaging_sy.OffsetIndex.Entries.{
  IndexEntry, entry_for, write-Holds, Holds as IndexHolds,
}
use distributed_messaging_sy.OffsetIndex.Search.{IsOrdered}
use distributed_messaging_sy.Segment.Bytes.{concat, u64_at}
use distributed_messaging_sy.Segment.Bytes.Slices.{concat-append}
use distributed_messaging_sy.Segment.State.{Segment}
use distributed_messaging_sy.Segment.Chain.{
  span, end_of, Holds, IsChain-prefix, end_of-append, le-end_of,
}
use distributed_messaging_sy.Log.Pairs.{note_entry}
use distributed_messaging_sy.Log.Raw.Reads.{Marks, StartsAt}

-- The index behind the batches `before`: its entries point at them.
pub record IsMarked (s : Segment) (before : List (List ℕ)) (idx : Index) : Type 0 where
  pub based : idx.base_offset ≡ s.base_offset
  pub entries : List IndexEntry
  pub stored : IndexHolds idx entries
  pub ordered : IsOrdered entries
  pub first : StartsAt 0 entries
  pub marked : All (Marks s) entries
  pub below : All (λ e. s.base_offset + e.rel_offset < end_of s.base_offset before) entries
  pub none_yet : entries ≡ [] → before ≡ []

All-snoc :
    (P : IndexEntry → Type 0) (es : List IndexEntry) (e : IndexEntry)
    → All P es
    → P e
    → All P (es ++ (e ∷ []))
All-snoc P [] e h k = (k, tt)
All-snoc P (f ∷ es) e h k = (h.0, All-snoc P es e h.1 k)

IsOrdered-snoc :
    (es : List IndexEntry) (e : IndexEntry)
    → IsOrdered es
    → All (λ f. f.rel_offset < e.rel_offset) es
    → IsOrdered (es ++ (e ∷ []))
IsOrdered-snoc [] e o h = (tt, tt)
IsOrdered-snoc (f ∷ es) e o h =
    (All-snoc (λ g. f.rel_offset < g.rel_offset) es e o.0 h.0, IsOrdered-snoc es e o.1 h.1)

All-map :
    (P Q : IndexEntry → Type 0) (es : List IndexEntry)
    → ((e : IndexEntry) → P e → Q e)
    → All P es
    → All Q es
All-map P Q [] f h = tt
All-map P Q (e ∷ es) f h = (f e h.0, All-map P Q es f h.1)

StartsAt-snoc :
    (es : List IndexEntry) (e : IndexEntry)
    → StartsAt 0 es
    → (es ≡ [] → e.rel_offset ≡ 0)
    → StartsAt 0 (es ++ (e ∷ []))
StartsAt-snoc [] e h k = k refl
StartsAt-snoc (f ∷ es) e h k = h

end_of-nil : (from : ℕ) → end_of from [] ≡ from
unfolding end_of
end_of-nil from = refl

snoc_nonempty : (es : List IndexEntry) (e : IndexEntry) → es ++ (e ∷ []) ≢ []
snoc_nonempty [] e = λ h. cc
snoc_nonempty (f ∷ es) e = λ h. cc

module _ (s : Segment) (before : List (List ℕ)) (q : List ℕ) (behind : List (List ℕ))
    (held : Holds s (before ++ (q ∷ behind))) (reach : s.next_offset ≤ s.base_offset + 2 ^ 32)
    (small : s.current_size < 2 ^ 64) where
  -- The offset of the batch is the end of those before it, and inside the segment.
  batch_start :
      (u64_at 0 q ≡ end_of s.base_offset before)
      × (s.base_offset ≤ end_of s.base_offset before)
      × (end_of s.base_offset before < s.next_offset)
      × (length (concat before) < 2 ^ 64)
      × (end_of s.base_offset (before ++ (q ∷ [])) ≡ end_of s.base_offset before + span q)
      × (0 < span q)
  batch_start =
      let from = end_of s.base_offset before in
      let c = (IsChain-prefix s.base_offset before (q ∷ behind) held.chain).1 in
      let some_span : 0 < span q = unfold span in omega arith in
      let ends : s.next_offset ≡ end_of (from + span q) behind =
        held.next ∙ end_of-append s.base_offset before (q ∷ behind) ∙ unfold end_of in refl in
      (
        c.1,
        le-end_of s.base_offset before,
        omega (arith, ends, le-end_of (from + span q) behind, some_span),
        omega (
          arith,
          held.size,
          ap length (held.bytes ∙ concat-append before (q ∷ behind)),
          length-append (concat before) (concat (q ∷ behind)),
        ),
        end_of-append s.base_offset before (q ∷ []) ∙ unfold end_of in refl,
        some_span,
      )

  passed : (idx : Index) → before ≢ [] → IsMarked s before idx → IsMarked s (before ++ (q ∷ [])) idx
  passed idx later x =
      let (starts, base, inside, short, ends, some_span) = batch_start in
      record {
        based = x.based;
        entries = x.entries;
        stored = x.stored;
        ordered = x.ordered;
        first = x.first;
        marked = x.marked;
        below = All-map _ _ x.entries (λ e h. omega (arith, h, ends, some_span)) x.below;
        none_yet = λ h. absurd (later (x.none_yet h));
      }

  -- An entry for the batch.
  put_entry-IsMarked :
      (idx : Index) (x : IsMarked s before idx)
      → IndexHolds
          (put_entry idx (u64_at 0 q) (length (concat before)))
          (x.entries ++ (entry_for idx (u64_at 0 q) (length (concat before)) ∷ []))
      → IsMarked s (before ++ (q ∷ [])) (put_entry idx (u64_at 0 q) (length (concat before)))
  unfolding put_entry
  put_entry-IsMarked idx x stored =
      let (starts, base, inside, short, ends, some_span) = batch_start in
      let e = entry_for idx (u64_at 0 q) (length (concat before)) in
      let rel : s.base_offset + e.rel_offset ≡ end_of s.base_offset before =
        omega (arith, starts, base, inside, reach, x.based, held.room) in
      record {
        based = x.based;
        entries = x.entries ++ (e ∷ []);
        stored = stored;
        ordered =
            IsOrdered-snoc x.entries e x.ordered
              (All-map _ _ x.entries (λ f h. omega (arith, h, rel)) x.below);
        first = StartsAt-snoc x.entries e x.first (λ h. omega (
          arith,
          rel,
          ap (λ ps. end_of s.base_offset ps) (x.none_yet h),
          end_of-nil s.base_offset,
        ));
        marked = All-snoc (Marks s) x.entries e x.marked (record {
          before = before;
          behind = q ∷ behind;
          held = held;
          position = refl;
          start = rel;
        });
        below =
            All-snoc _ x.entries e
              (All-map _ _ x.entries (λ f h. omega (arith, h, ends, some_span)) x.below)
              (omega (arith, rel, ends, some_span));
        none_yet = λ h. absurd (snoc_nonempty x.entries e h);
      }

  -- The index behind one round of rebuildIndexFromSegment, if it is not full.
  pub note_entry-IsMarked :
      (idx idx' : Index) (interval bytes left : ℕ)
      → IsMarked s before idx
      → note_entry idx interval (u64_at 0 q) (length (concat before)) bytes ≡ some (idx', left)
      → IsMarked s (before ++ (q ∷ [])) idx'
  unfolding note_entry
  note_entry-IsMarked idx idx' interval bytes left x noted =
      let pos = length (concat before) in
      elim (Bool-cases (pos == 0 || leb interval bytes)) [
        | inr not_due ↦
            let same : idx ≡ idx' = ground (arith, not_due, noted) in
            let later : before ≢ [] =
              λ e. ground (arith, not_due, ap (λ ps. length (concat ps)) e) in
            subst (λ i. IsMarked s (before ++ (q ∷ [])) i) same (passed idx later x)
        | inl due ↦
            let (starts, base, inside, short, ends, some_span) = batch_start in
            elim (write-Holds idx x.entries (u64_at 0 q) pos x.stored short) [
              | inl full ↦ absurd (ground (arith, due, noted, full.0))
              | inr written ↦
                  let same : put_entry idx (u64_at 0 q) pos ≡ idx' =
                    ground (arith, due, noted, written.0) in
                  subst (λ i. IsMarked s (before ++ (q ∷ [])) i) same
                    (put_entry-IsMarked idx x written.1)
            ]
      ]
