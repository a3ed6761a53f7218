-- ===== src/Controller.antt =====
-- internal/controller: the replicated state machine of the Raft controller (fsm.go).
mod Examples
pub mod State
pub mod Endpoints
pub mod Assignment
pub mod Fsm
pub mod Snapshot
