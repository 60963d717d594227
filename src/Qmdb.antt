-- ===== src/Qmdb.antt =====
-- crates/storage: change sets, the overlay over a base state, and the QMDB store.
pub mod Changes
pub mod Overlay
pub mod Encoding
pub mod Store
pub mod Handle
pub mod Root
pub mod Tests
