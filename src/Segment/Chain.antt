-- ===== src/Segment/Chain.antt =====
-- internal/log/segment.go: the file of a segment as a sequence of batches with consecutive offsets.
use distributed_messaging_sy.Common.{
  ℕ, ◌+◌, ◌^◌, ◌≤◌, ◌<◌, ◌≡◌, refl, List, [], ◌∷◌, ◌++◌, arith, length,
}
use distributed_messaging_sy.Segment.Bytes.{u32_at, u64_at, concat}
use distributed_messaging_sy.Segment.Batches.Valid.{IsBatch}
use distributed_messaging_sy.Segment.State.{Segment}

-- The number of offsets that a batch takes.
unfoldable pub span : List ℕ → ℕ
span p = u32_at 23 p + 1

-- The offset behind the batches `ps`, if the first starts at `from`.
unfoldable pub end_of : ℕ → List (List ℕ) → ℕ
end_of from [] = from
end_of from (p ∷ ps) = end_of (from + span p) ps

-- Each batch is whole and starts where the one before it ends.
abbrev pub IsChain : ℕ → List (List ℕ) → Type 0
IsChain from [] = Unit {0}
IsChain from (p ∷ ps) = IsBatch (length p) p × (u64_at 0 p ≡ from) × IsChain (from + span p) ps

-- The file is the batches `ps`, and the fields agree with it.
pub record Holds (s : Segment) (ps : List (List ℕ)) : Type 0 where
  pub bytes : s.file ≡ concat ps
  pub size : s.current_size ≡ length s.file
  pub chain : IsChain s.base_offset ps
  pub next : s.next_offset ≡ end_of s.base_offset ps
  pub room : s.next_offset < 2 ^ 64

pub end_of-append :
    (from : ℕ) (ps qs : List (List ℕ)) → end_of from (ps ++ qs) ≡ end_of (end_of from ps) qs
unfolding end_of
end_of-append from [] qs = refl
end_of-append from (p ∷ ps) qs = end_of-append (from + span p) ps qs

pub le-end_of : (from : ℕ) (ps : List (List ℕ)) → from ≤ end_of from ps
unfolding end_of
le-end_of from [] = omega arith
le-end_of from (p ∷ ps) = omega (arith, le-end_of (from + span p) ps)

pub IsChain-append :
    (from : ℕ) (ps qs : List (List ℕ))
    → IsChain from ps
    → IsChain (end_of from ps) qs
    → IsChain from (ps ++ qs)
unfolding end_of
IsChain-append from [] qs c d = d
IsChain-append from (p ∷ ps) qs c d = (c.0, c.1, IsChain-append (from + span p) ps qs c.2 d)

pub IsChain-prefix :
    (from : ℕ) (ps qs : List (List ℕ))
    → IsChain from (ps ++ qs)
    → IsChain from ps × IsChain (end_of from ps) qs
unfolding end_of
IsChain-prefix from [] qs c = (tt, c)
IsChain-prefix from (p ∷ ps) qs c =
    let r = IsChain-prefix (from + span p) ps qs c.2 in ((c.0, c.1, r.0), r.1)
