-- ===== src/Segment/Bytes/Slices.antt =====
-- What is read within the first bytes of a slice does not depend on the bytes behind them.
use distributed_messaging_sy.Common.{
  ℕ, zero, suc, ◌+◌, ◌-◌, ◌≤◌, ◌≡◌, refl, sym, ap, ◌∙◌, List, [], ◌∷◌, ◌++◌, arith, length, take,
  drop, length-drop, append_assoc,
}
use distributed_messaging_sy.Protocol.Binary.{uint32, uint64}
use distributed_messaging_sy.Segment.Bytes.{
  or_zero, first_byte, byte_at, u32_at, u64_at, slice, concat,
}

pub concat-append : (bs cs : List (List ℕ)) → concat (bs ++ cs) ≡ concat bs ++ concat cs
concat-append [] cs = refl
concat-append (b ∷ bs) cs =
    ap (λ t. b ++ t) (concat-append bs cs) ∙ sym (append_assoc b (concat bs) (concat cs))

-- What is read within the first bytes does not depend on the bytes behind them.
pub drop-append_within :
    (p : ℕ) (xs ys : List ℕ) → p ≤ length xs → drop p (xs ++ ys) ≡ drop p xs ++ ys
drop-append_within zero xs ys h = refl
drop-append_within (suc p) [] ys h = absurd (omega arith)
drop-append_within (suc p) (x ∷ xs) ys h = drop-append_within p xs ys (omega arith)

pub take-append_within : (n : ℕ) (xs ys : List ℕ) → n ≤ length xs → take n (xs ++ ys) ≡ take n xs
take-append_within zero xs ys h = refl
take-append_within (suc n) [] ys h = absurd (omega arith)
take-append_within (suc n) (x ∷ xs) ys h =
    ap (λ t. x ∷ t) (take-append_within n xs ys (omega arith))

uint32-append : (xs ys : List ℕ) → 4 ≤ length xs → uint32 (xs ++ ys) ≡ uint32 xs
unfolding uint32
uint32-append (a ∷ b ∷ c ∷ d ∷ xs) ys h = refl
uint32-append [] ys h = absurd (omega arith)
uint32-append (a ∷ []) ys h = absurd (omega arith)
uint32-append (a ∷ b ∷ []) ys h = absurd (omega arith)
uint32-append (a ∷ b ∷ c ∷ []) ys h = absurd (omega arith)

first_byte-append : (xs ys : List ℕ) → 1 ≤ length xs → first_byte (xs ++ ys) ≡ first_byte xs
unfolding first_byte
first_byte-append [] ys h = absurd (omega arith)
first_byte-append (x ∷ xs) ys h = refl

uint64-append : (xs ys : List ℕ) → 8 ≤ length xs → uint64 (xs ++ ys) ≡ uint64 xs
unfolding uint64
uint64-append (a ∷ b ∷ c ∷ d ∷ e ∷ f ∷ g ∷ h ∷ xs) ys le = refl
uint64-append [] ys le = absurd (omega arith)
uint64-append (a ∷ []) ys le = absurd (omega arith)
uint64-append (a ∷ b ∷ []) ys le = absurd (omega arith)
uint64-append (a ∷ b ∷ c ∷ []) ys le = absurd (omega arith)
uint64-append (a ∷ b ∷ c ∷ d ∷ []) ys le = absurd (omega arith)
uint64-append (a ∷ b ∷ c ∷ d ∷ e ∷ []) ys le = absurd (omega arith)
uint64-append (a ∷ b ∷ c ∷ d ∷ e ∷ f ∷ []) ys le = absurd (omega arith)
uint64-append (a ∷ b ∷ c ∷ d ∷ e ∷ f ∷ g ∷ []) ys le = absurd (omega arith)

module _ (p : ℕ) (xs ys : List ℕ) where
  pub byte_at-append : p + 1 ≤ length xs → byte_at p (xs ++ ys) ≡ byte_at p xs
  unfolding byte_at
  byte_at-append h =
      rw (drop-append_within p xs ys (omega arith))
        (first_byte-append (drop p xs) ys (omega (arith, length-drop p xs)))

  pub u32_at-append : p + 4 ≤ length xs → u32_at p (xs ++ ys) ≡ u32_at p xs
  unfolding u32_at
  u32_at-append h =
      rw (drop-append_within p xs ys (omega arith))
        (ap or_zero (uint32-append (drop p xs) ys (omega (arith, length-drop p xs))))

  pub u64_at-append : p + 8 ≤ length xs → u64_at p (xs ++ ys) ≡ u64_at p xs
  unfolding u64_at
  u64_at-append h =
      rw (drop-append_within p xs ys (omega arith))
        (ap or_zero (uint64-append (drop p xs) ys (omega (arith, length-drop p xs))))

pub slice-append :
    (from to : ℕ) (xs ys : List ℕ)
    → from ≤ to
    → to ≤ length xs
    → slice from to (xs ++ ys) ≡ slice from to xs
slice-append from to xs ys h k =
    rw (drop-append_within from xs ys (omega arith))
      (take-append_within (to - from) (drop from xs) ys (omega (arith, length-drop from xs)))

pub take_all : (xs : List ℕ) → take (length xs) xs ≡ xs
take_all [] = refl
take_all (x ∷ xs) = ap (λ t. x ∷ t) (take_all xs)

pub take-append_drop : (n : ℕ) (xs : List ℕ) → take n xs ++ drop n xs ≡ xs
take-append_drop zero xs = refl
take-append_drop (suc n) [] = refl
take-append_drop (suc n) (x ∷ xs) = ap (λ t. x ∷ t) (take-append_drop n xs)

pub length-take_le : (n : ℕ) (xs : List ℕ) → n ≤ length xs → length (take n xs) ≡ n
length-take_le zero xs h = refl
length-take_le (suc n) [] h = absurd (omega arith)
length-take_le (suc n) (x ∷ xs) h = ap suc (length-take_le n xs (omega arith))
