-- ===== src/Segment/Bytes.antt =====
-- What internal/log/segment.go uses of the files, of encoding/binary on slices, and of hash/crc32.
-- Where the code has checked the length of a slice, its readers cannot panic: `0` stands for that.
pub mod Slices
pub mod Patches
use Prim.Native.Nat.{bit_xor}
use distributed_messaging_sy.Common.{
  ℕ, zero, suc, ◌+◌, ◌-◌, ◌*◌, ◌/◌, ◌%◌, ◌^◌, ◌≤◌, ◌<◌, ◌≡◌, refl, sym, ap, ◌∙◌, Bool, Option, none,
  some, List, [], ◌∷◌, ◌++◌, arith, length, take, drop, ltb, ◌==◌, if◌then◌else◌, length-append,
  drop-add, drop-append, take-append, append_assoc,
}
use distributed_messaging_sy.Protocol.Binary.{be32, be64, uint32, uint64}
use distributed_messaging_sy.Protocol.Binary.RoundTrip.{uint64-be64}

abbrev or_zero : Option ℕ → ℕ
or_zero none = 0
or_zero (some v) = v

unfoldable pub first_byte : List ℕ → ℕ
first_byte [] = 0
first_byte (b ∷ _) = b

-- `bs[pos]`
unfoldable pub byte_at : ℕ → List ℕ → ℕ
unfolding first_byte
byte_at pos bs = first_byte (drop pos bs)

-- `binary.BigEndian.Uint32(bs[pos : pos+4])`
unfoldable pub u32_at : ℕ → List ℕ → ℕ
u32_at pos bs = or_zero (uint32 (drop pos bs))

-- `binary.BigEndian.Uint64(bs[pos : pos+8])`
unfoldable pub u64_at : ℕ → List ℕ → ℕ
u64_at pos bs = or_zero (uint64 (drop pos bs))

-- `bs[from:to]`
abbrev pub slice : ℕ → ℕ → List ℕ → List ℕ
slice from to bs = take (to - from) (drop from bs)

-- `binary.BigEndian.PutUint64(bs[pos : pos+8], v)` and the like, within the slice.
unfoldable pub put_at : ℕ → List ℕ → List ℕ → List ℕ
put_at zero v bs = v ++ drop (length v) bs
put_at (suc pos) v [] = []
put_at (suc pos) v (b ∷ bs) = b ∷ put_at pos v bs

-- File.ReadAt of `n` bytes; `none` is io.EOF.
unfoldable pub read_at : List ℕ → ℕ → ℕ → Option (List ℕ)
read_at file n pos = if ltb (length file) (pos + n) then none else some (take n (drop pos file))

-- File.WriteAt, at a position within the file or at its end.
unfoldable pub write_at : List ℕ → List ℕ → ℕ → List ℕ
write_at file bs pos = take pos file ++ (bs ++ drop (pos + length bs) file)

-- crc32.Checksum with the table of Castagnoli, bit by bit.
unfoldable pub crc_bits : ℕ → ℕ → ℕ
crc_bits zero c = c
crc_bits (suc n) c = crc_bits n (if c % 2 == 1 then bit_xor (c / 2) 0x82F63B78 else c / 2)

unfoldable pub crc_bytes : ℕ → List ℕ → ℕ
unfolding crc_bits
crc_bytes c [] = c
crc_bytes c (b ∷ bs) = crc_bytes (crc_bits 8 (bit_xor c b)) bs

unfoldable pub checksum : List ℕ → ℕ
unfolding crc_bytes
checksum bs = bit_xor (crc_bytes 0xFFFFFFFF bs) 0xFFFFFFFF % 2 ^ 32

-- The bytes of several batches, one after the other.
abbrev pub concat : List (List ℕ) → List ℕ
concat [] = []
concat (b ∷ bs) = b ++ concat bs
