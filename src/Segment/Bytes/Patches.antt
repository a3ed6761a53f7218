-- ===== src/Segment/Bytes/Patches.antt =====
-- A value written into a slice is read back, and what is read elsewhere does not change.
use distributed_messaging_sy.Common.{
  ℕ, zero, suc, ◌+◌, ◌≤◌, ◌≡◌, refl, sym, ap, IsU32, IsU64, List, [], ◌∷◌, ◌++◌, arith, length,
  drop, length-drop, length-append, drop-append, drop-add, append_assoc,
}
use native.Mathlib.Nat.{suc-add}
use distributed_messaging_sy.Protocol.Binary.{be32, be64, uint32, uint64}
use distributed_messaging_sy.Protocol.Binary.RoundTrip.{uint32-be32, uint64-be64}
use distributed_messaging_sy.Segment.Bytes.{or_zero, u32_at, u64_at, put_at}
use distributed_messaging_sy.Segment.Bytes.Slices.{drop-append_within}

pub length-put_at :
    (q : ℕ) (v bs : List ℕ) → q + length v ≤ length bs → length (put_at q v bs) ≡ length bs
unfolding put_at
length-put_at zero v bs h =
    omega (arith, length-append v (drop (length v) bs), length-drop (length v) bs)
length-put_at (suc q) v [] h = refl
length-put_at (suc q) v (b ∷ bs) h = ap suc (length-put_at q v bs (omega arith))

-- Behind the value.
pub drop-put_at :
    (k q : ℕ) (v bs : List ℕ) → drop (q + length v + k) (put_at q v bs) ≡ drop (q + length v + k) bs
unfolding put_at
drop-put_at k zero v bs =
    let e : 0 + length v + k ≡ length v + k = omega arith in
    rw (e, drop-add (length v) k (v ++ drop (length v) bs), drop-append v (drop (length v) bs))
      (sym (drop-add (length v) k bs))
drop-put_at k (suc q) v [] = refl
drop-put_at k (suc q) v (b ∷ bs) =
    let e : suc q + length v + k ≡ suc (q + length v + k) = omega arith in
    rw e (drop-put_at k q v bs)

-- Before the value.
uint32-put_at : (k : ℕ) (v bs : List ℕ) → uint32 (put_at (suc (suc (suc (suc k)))) v bs) ≡ uint32 bs
unfolding put_at uint32
uint32-put_at k v [] = refl
uint32-put_at k v (a ∷ []) = refl
uint32-put_at k v (a ∷ b ∷ []) = refl
uint32-put_at k v (a ∷ b ∷ c ∷ []) = refl
uint32-put_at k v (a ∷ b ∷ c ∷ d ∷ bs) = refl

pub u32_at-put_at : (k p : ℕ) (v bs : List ℕ) → u32_at p (put_at (p + 4 + k) v bs) ≡ u32_at p bs
unfolding u32_at put_at
u32_at-put_at k zero v bs =
    let e : 0 + 4 + k ≡ suc (suc (suc (suc k))) = omega arith in
    rw e (ap or_zero (uint32-put_at k v bs))
u32_at-put_at k (suc p) v [] = let e : suc p + 4 + k ≡ suc (p + 4 + k) = omega arith in rw e refl
u32_at-put_at k (suc p) v (b ∷ bs) =
    let e : suc p + 4 + k ≡ suc (p + 4 + k) = omega arith in rw e (u32_at-put_at k p v bs)

pub u64_at-put_at : (v bs : List ℕ) → 8 ≤ length bs → u64_at 0 (put_at 12 v bs) ≡ u64_at 0 bs
unfolding u64_at put_at uint64
u64_at-put_at v (a ∷ b ∷ c ∷ d ∷ e ∷ f ∷ g ∷ h ∷ bs) le = refl
u64_at-put_at v [] le = absurd (omega arith)
u64_at-put_at v (a ∷ []) le = absurd (omega arith)
u64_at-put_at v (a ∷ b ∷ []) le = absurd (omega arith)
u64_at-put_at v (a ∷ b ∷ c ∷ []) le = absurd (omega arith)
u64_at-put_at v (a ∷ b ∷ c ∷ d ∷ []) le = absurd (omega arith)
u64_at-put_at v (a ∷ b ∷ c ∷ d ∷ e ∷ []) le = absurd (omega arith)
u64_at-put_at v (a ∷ b ∷ c ∷ d ∷ e ∷ f ∷ []) le = absurd (omega arith)
u64_at-put_at v (a ∷ b ∷ c ∷ d ∷ e ∷ f ∷ g ∷ []) le = absurd (omega arith)

-- The value itself.
pub u64_at-put_be64 : (v : ℕ) (bs : List ℕ) → IsU64 v → u64_at 0 (put_at 0 (be64 v) bs) ≡ v
unfolding u64_at put_at
u64_at-put_be64 v bs h = ap or_zero (uint64-be64 v (drop (length (be64 v)) bs) h)

drop-put_at_self :
    (q : ℕ) (v bs : List ℕ) → q ≤ length bs → drop q (put_at q v bs) ≡ v ++ drop (q + length v) bs
unfolding put_at
drop-put_at_self zero v bs h = ap (λ n. v ++ drop n bs) (omega arith)
drop-put_at_self (suc q) v [] h = absurd (omega arith)
drop-put_at_self (suc q) v (b ∷ bs) h =
    let e : suc q + length v ≡ suc (q + length v) = omega arith in
    rw e (drop-put_at_self q v bs (omega arith))

pub u32_at-put_be32 :
    (q v : ℕ) (bs : List ℕ) → IsU32 v → q ≤ length bs → u32_at q (put_at q (be32 v) bs) ≡ v
unfolding u32_at
u32_at-put_be32 q v bs h k =
    rw (drop-put_at_self q (be32 v) bs k)
      (ap or_zero (uint32-be32 v (drop (q + length (be32 v)) bs) h))

-- In a longer slice.
pub put_at-append :
    (q : ℕ) (v xs ys : List ℕ)
    → q + length v ≤ length xs
    → put_at q v (xs ++ ys) ≡ put_at q v xs ++ ys
unfolding put_at
put_at-append zero v xs ys h =
    rw (drop-append_within (length v) xs ys (omega arith))
      (sym (append_assoc v (drop (length v) xs) ys))
put_at-append (suc q) v [] ys h = absurd (omega arith)
put_at-append (suc q) v (x ∷ xs) ys h = ap (λ t. x ∷ t) (put_at-append q v xs ys (omega arith))

pub put_at_behind :
    (xs : List ℕ) (q : ℕ) (v ys : List ℕ)
    → put_at (length xs + q) v (xs ++ ys) ≡ xs ++ put_at q v ys
unfolding put_at
put_at_behind [] q v ys = ap (λ n. put_at n v ys) (omega arith)
put_at_behind (x ∷ xs) q v ys = simp suc-add (ap (λ t. x ∷ t) (put_at_behind xs q v ys))
