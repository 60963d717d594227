-- ===== src/Lib.antt =====
-- Verification of kora: the transaction pool, the ledger, the state storage, the index, the block
-- encodings and the application of an execution client that stands on commonware consensus, the
-- revm virtual machine and the QMDB store.
--
-- The program's parts and their files:
--
-- * The transaction pool (crates/node/txpool). TxPool/Transaction.antt has `OrderedTransaction`
--   and its order (src/ordering.rs). TxPool/Queue.antt has `SenderQueue` with `insert`,
--   `promote_queued`, `remove_by_hash` and `remove_confirmed` (src/ordering.rs); its children hold
--   the invariant of a queue and its view as a map from nonces. TxPool/Config.antt has the limits
--   (src/config.rs). TxPool/Pool.antt has `PoolInner` and `TransactionPool::add` (src/pool.rs)
--   with its refusals, replacement, evictions and events; its children hold the invariant of the
--   pool: Index the agreement of the index by hash with the queues, Removal and Insertion what
--   keeps it, Counts, Members and Capacity the counts and the evictions, Admission and Reports
--   `add` as a whole. TxPool/Methods.antt has the other methods, TxPool/Build.antt the selection
--   of transactions for a block. A pool is shared behind a lock: each method takes the state and
--   returns it, so that a run of the pool is a sequence of calls.
-- * Change sets (crates/storage/qmdb/src/changes.rs): Qmdb/Changes.antt, with their merges.
-- * The overlay of a change set on a base state (crates/storage/overlay/src/overlay.rs):
--   Qmdb/Overlay.antt. The base is a record of read functions, `StateDbRead`.
-- * The byte layouts of keys and accounts (crates/storage/qmdb/src/encoding.rs):
--   Qmdb/Encoding.antt.
-- * The store of three partitions (crates/storage/qmdb/src/store.rs and batch.rs, with the reads
--   of crates/storage/handlers/src/state.rs): Qmdb/Store.antt, with the batches of a commit, the
--   partitions' writes that may fail in between, and the commit markers.
-- * The store of executed blocks (crates/node/consensus/src/components/snapshot.rs):
--   Consensus/Snapshot.antt, with the walk over unpersisted ancestors, persistence and evictions;
--   Consensus/Proposal.antt has the choice of a proposal's transactions
--   (crates/node/consensus/src/ledger.rs), Consensus/Builder.antt the `ProposalBuilder`
--   (crates/node/consensus/src/proposal.rs).
--
-- * The ledger (crates/node/ledger/src/lib.rs): Ledger.antt has `LedgerState` and the sections of
--   `LedgerView` under its mutex. Ledger/Persist.antt has `persist_snapshot` as two sections with
--   the commit between them and as the steps of tasks beside one another and beside the ledger's other
--   sections, with a mark of whether a block was restored while a task in flight held its digest;
--   Ledger/Service.antt has it as one call, with the event of `LedgerService`. The children of Ledger/Flight.antt hold
--   what the sections do to the marks of the snapshot store. Qmdb/Handle.antt has the reads and
--   the commit of the ledger's handle on the store (crates/storage/handlers/src/state.rs and
--   crates/storage/qmdb-ledger/src/ledger.rs).
-- * Blocks, transactions and state deltas with their encodings (crates/node/domain): Domain/Tx.antt
--   (src/tx.rs), Domain/Block.antt (src/block.rs) and Domain/Commitment.antt (src/commitment.rs).
--   The codec library's own encodings are a parameter, the record `Codec` of Domain/Codec.antt,
--   with what it documents as `IsCodec`; the fixed fields are those of src/idents.rs.
-- * The index of blocks, transactions, receipts and logs (crates/storage/indexer): Indexer.antt,
--   with insertion, pruning, log queries and the window of recent hashes.
--
-- * The application (crates/node/runner/src/app.rs): App.antt has `RevmApplication` with the fees of
--   the blocks (`calculate_base_fee` of crates/node/executor/src/revm.rs) and the test for catch-up,
--   App/Build.antt `build_block` and `propose`, App/Verify.antt `verify_block` and `verify`; App/Fees.antt
--   is about the base fee, App/Agree.antt and its children relate building and verifying. The executor, the hash functions and the codec are the record
--   `Platform`. Qmdb/Root.antt has the root of a state transition (crates/storage/qmdb/src/root.rs).
--   The base fee divides by half of the gas limit, which stands for a gas limit of at least 2.
--
-- A snapshot holds the change set of its block; a proposal's root is computed over the merged
-- changes of its unpersisted ancestors, and persistence commits merged changes to the store.
-- The overlay reads what an executed block changed; a commit writes the same change set to the
-- store.
--
-- Conventions. Hashes, addresses, identifiers and amounts are natural numbers; where the program
-- saturates at the bound of u64, so does the model. Maps are association lists in key order
-- (Base/Maps.antt); a hash map's own order of entries is not modelled. An envelope stands as its
-- EIP-2718 encoding. The hash that identifies a transaction is third-party code, a parameter
-- `id_of` of the definitions that use it. Theorems on nonces ask for a nonce below 2^64 - 1, the cap of EIP-2681.
--
-- Loops. Those over lists are structural. The two eviction loops of `add` take fuel, the count at
-- their start: each round takes one transaction out of what is counted. The loop of
-- `build` recurses on the number of transactions still wanted, each round pushing one. The walk
-- over a block's ancestors takes fuel, since the program's loop has no bound of its own; it goes
-- down one height a step.
--
-- Not modelled: decoding of raw transactions and signature recovery (third-party), metrics and
-- logging, waits for a snapshot, the reporters of finalized blocks, the key generation ceremony, the
-- networking and RPC layers, the EVM, and process wiring.
pub mod Base
pub mod TxPool
pub mod Qmdb
pub mod Consensus
pub mod Ledger
pub mod Domain
pub mod Indexer
pub mod App
