-- ===== src/TxPool.antt =====
-- crates/node/txpool: the transaction pool.
pub mod Transaction
pub mod Queue
pub mod Config
pub mod Pool
pub mod Methods
pub mod Build
mod Tests
