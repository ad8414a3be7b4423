-- ===== src/Wire.antt =====
-- core/wire: the wire format. Bytes are in Wire/ByteIo, the outcome of a read in Wire/Outcome.
pub mod Outcome
pub mod ByteIo
pub mod Edns
pub mod Names
pub mod Records
pub mod Parser
pub mod Writer
pub mod Builder
