-- ===== src/Protocol.antt =====
-- internal/protocol: the wire codec. `Binary` has what it takes from Go's encoding/binary.
mod Examples
pub mod Binary
pub mod Encoder
pub mod Decoder
pub mod ApiKey
pub mod Header
pub mod Arrays
pub mod LeaderEpochs
