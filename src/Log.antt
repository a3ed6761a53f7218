-- ===== src/Log.antt =====
-- internal/log/log.go, log_raw.go, truncate.go and epoch_lifecycle.go: the log of a partition.
pub mod State
pub mod Joined
pub mod Pairs
pub mod Epochs
pub mod Raw
pub mod Truncation
pub mod Opening
pub mod Samples
mod Examples
