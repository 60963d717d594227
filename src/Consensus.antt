-- ===== src/Consensus.antt =====
-- crates/node/consensus: what the ledger keeps of unpersisted blocks.
pub mod Snapshot
pub mod Proposal
pub mod Builder
mod Tests
