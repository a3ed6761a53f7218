-- ===== src/Segment/State.antt =====
-- internal/log/segment.go: the state of a segment. The atomic fields are plain values, since an
-- operation that changes them runs under the lock of the log.
use distributed_messaging_sy.Common.{ℕ, Bool, List, leb}

pub record Segment : Type 0 where
  -- The bytes of the file.
  pub file : List ℕ
  pub base_offset : ℕ
  pub next_offset : ℕ
  pub current_size : ℕ
  pub max_size : ℕ

-- IsFull
unfoldable pub is_full_segment : Segment → Bool
is_full_segment s = leb s.max_size s.current_size
