-- ===== src/Segment/Writing/Keeps.antt =====
-- internal/log/segment.go: an append leaves a file of whole batches with consecutive offsets.
use distributed_messaging_sy.Common.{
  ℕ, zero, suc, ◌+◌, ◌-◌, ◌%◌, ◌^◌, ◌≤◌, ◌<◌, ◌≡◌, refl, sym, ap, ◌∙◌, ap₂, true, false, List, [],
  ◌∷◌, ◌++◌, arith, length, take, drop, length-drop, drop-add, length-append, append-nil, All,
  subst,
}
use distributed_messaging_sy.Protocol.Binary.{be32, be64}
use distributed_messaging_sy.Segment.Bytes.{write_at, put_at, concat}
use distributed_messaging_sy.Segment.Bytes.Slices.{take_all, concat-append}
use distributed_messaging_sy.Segment.Batches.{ok}
use distributed_messaging_sy.Segment.Batches.Valid.{IsBatch}
use distributed_messaging_sy.Segment.Batches.Scan.{IsWhole, bounds_of, all_bounds}
use distributed_messaging_sy.Segment.State.{Segment}
use distributed_messaging_sy.Segment.Chain.{
  span, end_of, IsChain, Holds, end_of-append, le-end_of, IsChain-append,
}
use distributed_messaging_sy.Segment.Writing.{
  Appended, stamp_at, write_batches, first_base, append_batches, append_raw_batches,
  append_replica_batches,
}
use distributed_messaging_sy.Segment.Writing.Stamps.{
  stamp, stamp_all, length-stamp, base-stamp, stamp-IsBatch, span-stamp, stamp_loop-stamp_all,
  stamp_loop-overflow, stamp_loop-end_of,
}

drop_past : (xs : List ℕ) (n : ℕ) → drop (length xs + n) xs ≡ []
drop_past [] zero = refl
drop_past [] (suc n) = let e : 0 + suc n ≡ suc n = omega arith in rw e
drop_past (x ∷ xs) n =
    let e : suc (length xs) + n ≡ suc (length xs + n) = omega arith in rw e (drop_past xs n)

write_at_end : (file bs : List ℕ) → write_at file bs (length file) ≡ file ++ bs
unfolding write_at
write_at_end file bs = rw (take_all file, drop_past file (length bs), append-nil bs)

stamp_all-IsChain :
    (offset epoch : ℕ) (parts : List (List ℕ))
    → All IsWhole parts
    → end_of offset parts < 2 ^ 64
    → IsChain offset (stamp_all offset epoch parts)
      × (end_of offset (stamp_all offset epoch parts) ≡ end_of offset parts)
      × (length (concat (stamp_all offset epoch parts)) ≡ length (concat parts))
unfolding stamp_all end_of
stamp_all-IsChain offset epoch [] w h = (tt, refl, refl)
stamp_all-IsChain offset epoch (p ∷ parts) w h =
    let long : 61 ≤ length p = w.0.0.header in
    let rest = stamp_all-IsChain (offset + span p) epoch parts w.1 h in
    let n = length-stamp offset epoch p long in
    let same : offset + span (stamp offset epoch p) ≡ offset + span p =
      ap (λ k. offset + k) (span-stamp offset epoch p long) in
    let later = stamp_all (offset + span p) epoch parts in
    (
      (
        subst (λ k. IsBatch k (stamp offset epoch p)) (sym n)
            (stamp-IsBatch offset epoch p long w.0.0),
        base-stamp offset epoch p long (omega (arith, h, le-end_of (offset + span p) parts)),
        subst (λ k. IsChain k later) (sym same) rest.0,
      ),
      ap (λ k. end_of k later) same ∙ rest.1,
      omega (
        arith,
        n,
        rest.2,
        length-append p (concat parts),
        length-append (stamp offset epoch p) (concat later),
      ),
    )

-- A batch with another base offset and another leader epoch, and the rest of its bytes.
abbrev pub stamped : ℕ → ℕ → List ℕ → List ℕ
stamped offset epoch p = be64 offset ++ (take 4 (drop 8 p) ++ (be32 epoch ++ drop 16 p))

-- Batches with the epoch and consecutive base offsets from `offset` on.
abbrev pub all_stamped : ℕ → ℕ → List (List ℕ) → List (List ℕ)
all_stamped offset epoch [] = []
all_stamped offset epoch (p ∷ ps) = stamped offset epoch p ∷ all_stamped (offset + span p) epoch ps

put_at-take :
    (pos : ℕ) (v bs : List ℕ)
    → pos ≤ length bs
    → put_at pos v bs ≡ take pos bs ++ (v ++ drop (pos + length v) bs)
unfolding put_at
put_at-take zero v bs h = let e : 0 + length v ≡ length v = omega arith in rw e refl
put_at-take (suc pos) v [] h = absurd (omega arith)
put_at-take (suc pos) v (b ∷ bs) h =
    let e : suc pos + length v ≡ suc (pos + length v) = omega arith in
    rw e (ap (λ t. b ∷ t) (put_at-take pos v bs (omega arith)))

stamp-stamped :
    (offset epoch : ℕ) (p : List ℕ) → 61 ≤ length p → stamp offset epoch p ≡ stamped offset epoch p
unfolding stamp_at put_at be32 be64
stamp-stamped offset epoch p long =
    ap (λ t. be64 offset ++ t)
      (put_at-take 4 (be32 epoch) (drop 8 p) (omega (arith, length-drop 8 p))
        ∙ ap (λ t. take 4 (drop 8 p) ++ (be32 epoch ++ t)) (sym (drop-add 8 8 p)))

stamp_all-all_stamped :
    (offset epoch : ℕ) (ps : List (List ℕ))
    → All IsWhole ps
    → stamp_all offset epoch ps ≡ all_stamped offset epoch ps
unfolding stamp_all
stamp_all-all_stamped offset epoch [] w = refl
stamp_all-all_stamped offset epoch (p ∷ ps) w =
    ap₂ (λ q qs. q ∷ qs) (stamp-stamped offset epoch p w.0.0.header)
      (stamp_all-all_stamped (offset + span p) epoch ps w.1)

-- Whole batches with the next offsets, written behind the batches of the segment.
pub write_batches-Holds :
    (s : Segment) (ps qs : List (List ℕ)) (base : ℕ)
    → Holds s ps
    → IsChain s.next_offset qs
    → end_of s.next_offset qs < 2 ^ 64
    → Holds
        (write_batches s (concat qs) base (end_of s.next_offset qs - s.next_offset)).segment
        (ps ++ qs)
unfolding write_batches
write_batches-Holds s ps qs base h c small =
    let grows = le-end_of s.next_offset qs in
    let joined : write_at s.file (concat qs) s.current_size ≡ s.file ++ concat qs =
      rw h.size (write_at_end s.file (concat qs)) in
    let next : (s.next_offset + (end_of s.next_offset qs - s.next_offset)) % 2 ^ 64
        ≡ end_of s.next_offset qs =
      omega arith in
    record {
      bytes = joined ∙ ap (λ t. t ++ concat qs) h.bytes ∙ sym (concat-append ps qs);
      size =
          ap (λ n. n + length (concat qs)) h.size
          ∙ sym (length-append s.file (concat qs))
          ∙ ap length (sym joined);
      chain = IsChain-append s.base_offset ps qs h.chain (subst (λ n. IsChain n qs) h.next c);
      next = next ∙ ap (λ n. end_of n qs) h.next ∙ sym (end_of-append s.base_offset ps qs);
      room = rw next small;
    }

module _ (s : Segment) (parts : List (List ℕ)) (a : Appended) (room : s.next_offset < 2 ^ 64) where
  append_raw_batches-ok :
      (epoch : ℕ)
      → All IsWhole parts
      → append_raw_batches s (concat parts) (all_bounds 0 parts) epoch ≡ ok a
      → (a
          ≡ write_batches s
              (concat (stamp_all s.next_offset epoch parts))
              s.next_offset
              (end_of s.next_offset parts - s.next_offset))
        × (end_of s.next_offset parts < 2 ^ 64)
  unfolding append_raw_batches append_batches
  append_raw_batches-ok epoch w e = ground (
    arith,
    stamp_loop-stamp_all epoch s.next_offset [] parts w,
    stamp_loop-overflow epoch 0 s.next_offset true (concat parts) parts w room,
  )

append_replica_batches-ok :
    (s : Segment) (parts : List (List ℕ)) (a : Appended)
    → s.next_offset < 2 ^ 64
    → All IsWhole parts
    → IsChain s.next_offset parts
    → append_replica_batches s (concat parts) (all_bounds 0 parts) ≡ ok a
    → (a
        ≡ write_batches s (concat parts) s.next_offset (end_of s.next_offset parts - s.next_offset))
      × (end_of s.next_offset parts < 2 ^ 64)
unfolding append_replica_batches append_batches first_base all_bounds bounds_of
append_replica_batches-ok s [] a room w c e = ground arith
append_replica_batches-ok s (p ∷ parts) a room w c e = ground (
  arith,
  c.1,
  stamp_loop-end_of 0 0 s.next_offset (concat (p ∷ parts)) (p ∷ parts) w,
  stamp_loop-overflow 0 0 s.next_offset false (concat (p ∷ parts)) (p ∷ parts) w room,
)

module _ (s : Segment) (ps parts : List (List ℕ)) (a : Appended) (h : Holds s ps) where
  -- AppendRawBatches with what scanRawBatches found in its bytes: where it returns no error, the
  -- file of the segment is its old batches and the new ones, each with the next consecutive offset
  -- from the old end on as its first eight bytes, the epoch of the leader as its bytes 12 to 15 and
  -- else its own bytes. It returns that end, the old size of the file, and the number of offsets
  -- given; the fields of the segment agree with the file.
  pub append_raw_batches-Holds :
      (epoch : ℕ)
      → All IsWhole parts
      → append_raw_batches s (concat parts) (all_bounds 0 parts) epoch ≡ ok a
      → Holds a.segment (ps ++ all_stamped s.next_offset epoch parts)
        × (a.base_offset ≡ s.next_offset)
        × (a.pos ≡ s.current_size)
        × (a.segment.next_offset ≡ s.next_offset + a.records)
  unfolding write_batches
  append_raw_batches-Holds epoch w e =
      let (same, small) = append_raw_batches-ok s parts a h.room epoch w e in
      let (chain, ends, _) = stamp_all-IsChain s.next_offset epoch parts w small in
      let n = end_of s.next_offset parts - s.next_offset in
      let written : Segment =
        (write_batches s (concat (stamp_all s.next_offset epoch parts)) s.next_offset n).segment in
      let held =
        write_batches-Holds s ps (stamp_all s.next_offset epoch parts) s.next_offset h chain
          (rw ends small) in
      let grows = le-end_of s.next_offset parts in
      rw same (
        subst (λ qs. Holds written (ps ++ qs)) (stamp_all-all_stamped s.next_offset epoch parts w)
            (rw ends at held),
        refl,
        refl,
        omega arith,
      )

  -- AppendReplicaBatches with batches whose offsets follow the end of the segment: where it
  -- returns no error, the file is the old batches and the new ones as they came, and the fields
  -- of the segment agree with it. It returns the old end, the old size of the file, and the number
  -- of offsets added.
  pub append_replica_batches-Holds :
      IsChain s.next_offset parts
      → All IsWhole parts
      → append_replica_batches s (concat parts) (all_bounds 0 parts) ≡ ok a
      → Holds a.segment (ps ++ parts)
        × (a.base_offset ≡ s.next_offset)
        × (a.pos ≡ s.current_size)
        × (a.segment.next_offset ≡ s.next_offset + a.records)
  unfolding write_batches
  append_replica_batches-Holds c w e =
      let (same, small) = append_replica_batches-ok s parts a h.room w c e in
      let held = write_batches-Holds s ps parts s.next_offset h c small in
      let grows = le-end_of s.next_offset parts in rw same (held, refl, refl, omega arith)
