-- ===== src/Lib.antt =====
-- The messaging system is a broker that speaks a part of the Kafka protocol over TCP: partitions with
-- leaders, followers and in-sync replicas, segment logs on disk, and a controller that replicates its
-- metadata by Raft. This library models the parts of it that decide, and leaves the files, sockets and
-- libraries to parameters.
--
-- The parts and the files that model them:
--
-- Epoch: internal/log/epoch_cache.go and the end of internal/log/epoch_recovery.go. The cache is the
--     list of its entries; Assign, TruncateFromEnd, TruncateAfter, EpochForOffset, EndOffsetFor,
--     replayEpochEntries and epochEntriesEqual are functions of it. Epoch/Order, Epoch/Truncation and
--     Epoch/Lookup hold the proofs.
-- Protocol: internal/protocol. Protocol/Binary has the functions of encoding/binary that the code
--     calls, Protocol/Encoder and Protocol/Decoder the methods of Encoder and Decoder (encoder.go,
--     decoder.go), Protocol/ApiKey the versions (api_key.go), Protocol/Header the headers (header.go),
--     Protocol/Arrays and Protocol/LeaderEpochs the messages of offsets_for_leader_epoch.go. A decoder
--     method is a function from a decoder to a value with a decoder, or a panic.
-- Controller: internal/controller/fsm.go. Controller/State has the state and the commands,
--     Controller/Endpoints normalizeEndpoints and endpointsEqual, Controller/Assignment
--     validatePartitionSpec, Controller/Fsm the handlers and Apply, Controller/Snapshot Restore. A
--     handler returns the new state or an error; Apply keeps the state on an error.
-- Partition: internal/broker/partition.go and partition_raw.go. Partition has the state, a log of
--     Log/State among it, and the changes of role; Partition/Serving has AppendRaw, AppendFromLeader,
--     FetchRawRanges, EndOffsetForLeaderEpoch, TruncateTo and Close; Partition/Bounded is about the
--     offsets of one call. A closed channel of a waiting producer is an entry of the list of
--     completions. Partition/Reachable has the runs of whole calls, Partition/Race one interleaving.
-- OffsetIndex: internal/log/index.go. The mapped file is a list of bytes; OffsetIndex/Entries reads it
--     as entries, OffsetIndex/Search is about Lookup, OffsetIndex/Reopen about Close and NewIndex.
-- Segment: internal/log/segment.go, the search of findTruncationPosition (truncate.go) and range.go.
--     The file is a list of bytes. Segment/Batches has validateRawBatch and scanRawBatches,
--     Segment/Recovery NewSegment and recover, Segment/Writing the appends, Segment/Reading the reads,
--     Segment/Truncation truncateAt; Segment/Chain reads the file as whole batches of consecutive
--     offsets.
-- Log: internal/log/log.go, log_raw.go, truncate.go, epoch_lifecycle.go and the recovery in
--     epoch_recovery.go. Log/State has the segments with their indices and the epoch cache, Log/Pairs
--     roll, newSegmentPair and rebuildIndexFromSegment, Log/Epochs the epochs with their checkpoint,
--     Log/Raw AppendRaw, AppendReplicaRaw, ReadRaw and ReadRawRanges, Log/Truncation TruncateTo with
--     what it leaves where it succeeds (Cut) and where it fails (Kept), Log/Opening NewLog,
--     RecoverEpochCache and ScanEpochHistory (epoch_recovery.go); Log/Joined says that the segments
--     are one row of offsets.
-- Common: tests on numbers, lists and words, maps as association lists.
--
-- The parts interact as in the code. The controller decides leader, in-sync replicas and epochs of a
-- partition; a broker carries them out with MakeLeader, MakeFollower and UpdateLeaderISR; MakeLeader
-- records the epoch in the epoch cache through the log, and a follower asks the leader by EndOffsetFor
-- where to truncate. Requests reach the handlers by the headers of Protocol.
--
-- Numbers: an intN or uintN is its bit pattern, a native number below 2 ^ N, with wrap-around written
-- out; offsets are uint64, epochs and ids int32. A Go string is its bytes. A slice is shorter than 2 ^
-- 63 bytes, and memory does not run out. The loop of Uvarint looks at ten bytes, as encoding/binary
-- does, and DiscardTaggedFields loops over its count of fields, so neither needs fuel. The search of
-- Lookup runs on one round more than there are entries and recoverSize on one more than the mapping
-- has room for, which the theorems show to be enough. The loops over the bytes of a segment or of a
-- request run on one round more than there are bytes, and an outcome of its own says that they ran
-- out. The CRC is computed bit by bit. The theorems on panics take messages shorter than 2 ^ 62 bytes.
--
-- Writes and reads of segment and index files succeed, the files of a segment that roll creates do not
-- exist yet, and the files that TruncateTo removes go away; a write of the epoch checkpoint succeeds
-- or fails, as the argument `writes` says. The files of a log close with or without an error, as the
-- argument `closes` of Close says. A lock is the atomicity of what it guards: each operation of a
-- cache, a log, a controller or a partition is one step. The exception is maybeAdvanceHW, which
-- computes under a lock and publishes without one: its parts are compute_hw and publish_hw. The heap
-- of waiting producers is the list of its entries in the order in which container/heap pops them;
-- entries with the same required high watermark stand in the order of their arrival, where
-- container/heap promises none. strings.TrimSpace and strings.ToUpper are modelled on ASCII.
-- encoding/json is not modelled: a command is decoded or is absent. Raft is not modelled: the log is
-- any list of entries with any indices.
--
-- Not modelled: the decoded batches, the search of a directory for segments, the closing of a log and
-- the text of the epoch checkpoint (internal/log), the record batch and the other message codecs
-- (internal/protocol), the writing of snapshots of the controller, Append and Fetch of decoded batches
-- and FetchRaw, which only tests call, the topic manager, the fetch manager and the request handler
-- (internal/broker). The server, the Raft node and the commands are I/O and set-up.
mod Common
pub mod Protocol
pub mod Controller
pub mod Partition
pub mod Epoch
pub mod OffsetIndex
pub mod Segment
pub mod Log
