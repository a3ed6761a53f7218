-- ===== src/Segment.antt =====
-- internal/log/segment.go and internal/log/truncate.go: the file of a segment.
pub mod Bytes
pub mod Batches
pub mod State
pub mod Chain
pub mod Recovery
pub mod Writing
pub mod Reading
pub mod Truncation
pub mod Samples
mod Examples
