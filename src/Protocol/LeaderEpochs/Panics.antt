-- ===== src/Protocol/LeaderEpochs/Panics.antt =====
-- internal/protocol/offsets_for_leader_epoch.go: the length that decodeOFLEArrayLen narrows to 32
-- bits can be negative, and make panics on it.
use distributed_messaging_sy.Common.{
  ℕ, ◌+◌, ◌%◌, ◌^◌, ◌<◌, ◌≤◌, ◌≡◌, refl, ap, ◌∙◌, true, [], ◌++◌, arith, length, IsU32, leb_i16,
}
use distributed_messaging_sy.Protocol.Encoder.{Bytes, put_int32, put_uvarint}
use distributed_messaging_sy.Protocol.Decoder.{Decoder, M, panic, ◌>>=◌, new_decoder, int32}
use distributed_messaging_sy.Protocol.Decoder.RoundTrip.{
  IsAt, IsAt-advance, advance, bind-done, Reads-int32,
}
use distributed_messaging_sy.Protocol.Arrays.{make_slice, decode_array_len, crashed, finish_message}
use distributed_messaging_sy.Protocol.Arrays.RoundTrip.{Reads-flexible_len}
use distributed_messaging_sy.Protocol.LeaderEpochs.{
  decode_replica_id, epoch_request, decode_epoch_request,
}

make_slice-negative : (n : ℕ) (d : Decoder) → 2 ^ 31 ≤ n → n < 2 ^ 32 → make_slice n d ≡ panic
unfolding make_slice
make_slice-negative n d low high = ground arith

bind-panic :
    {A B : Type 0} (m : M A) (f : A → M B) (d : Decoder) → m d ≡ panic → (m >>= f) d ≡ panic
bind-panic m f d p = rw (p, ◌>>=◌)

-- The body of a request for `n` topics in the flexible encoding.
abbrev pub many_topics : ℕ → ℕ → Bytes → Bytes
many_topics replica n rest = put_int32 [] replica ++ (put_uvarint [] ((n + 1) % 2 ^ 64) ++ rest)

-- In version 4 or later, DecodeOffsetsForLeaderEpochRequest panics on any body that announces from
-- 2 ^ 31 up to 2 ^ 32 - 1 topics, whatever follows.
pub decode_epoch_request_crash :
    (version replica n : ℕ) (rest : Bytes)
    → leb_i16 4 version ≡ true
    → IsU32 replica
    → 2 ^ 31 ≤ n
    → n < 2 ^ 32
    → length (many_topics replica n rest) < 2 ^ 63
    → decode_epoch_request (many_topics replica n rest) version ≡ crashed
unfolding decode_epoch_request epoch_request decode_replica_id finish_message
decode_epoch_request_crash version replica n rest flexible hr low high small =
    let body = many_topics replica n rest in
    let given : leb_i16 3 version ≡ true = ground arith in
    let d = new_decoder body in
    let a : IsAt d body = record {
      no_error = refl;
      unread = refl;
      position = omega arith;
      small = small;
    } in
    let d1 = advance d (length (put_int32 [] replica)) in
    let a1 = IsAt-advance d (put_int32 [] replica) _ a in
    let d2 = advance d1 (length (put_uvarint [] ((n + 1) % 2 ^ 64))) in
    rw (flexible, given)
      (ap finish_message (
        bind-done int32 _ {d = d} ((Reads-int32 replica hr).run d _ a)
        ∙ bind-done (decode_array_len true) _ {d = d1} ((Reads-flexible_len n high).run d1 rest a1)
        ∙ bind-panic (make_slice n) _ d2 (make_slice-negative n d2 low high)))
