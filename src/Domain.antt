-- ===== src/Domain.antt =====
-- crates/node/domain: blocks, transactions and state deltas with their encodings.
pub mod Codec
pub mod Tx
pub mod Block
pub mod Commitment
pub mod Tests
