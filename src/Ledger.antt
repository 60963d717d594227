-- ===== src/Ledger.antt =====
-- crates/node/ledger/src/lib.rs: `LedgerView` and `LedgerService`.
-- The mutex is taken once per section, so a section is a function on the state. The state of a
-- snapshot is an overlay over the shared QMDB handle: its changes are kept, and a read goes to the
-- store as it is then. Notifications of waiters and logs are left out.
pub mod Persist
pub mod Flight
pub mod Progress
pub mod Service
pub mod Reads
pub mod Stale
pub mod Tests
use kora.Base.{
  ℕ, zero, suc, ◌-◌, Bool, true, false, List, [], ◌∷◌, ◌++◌, map, Option, none, some, ◌==◌,
  if◌then◌else◌, Map, get, put,
}
use kora.TxPool.Transaction.{OrderedTransaction}
use kora.TxPool.Config.{PoolConfig}
use kora.TxPool.Pool.{PoolInner, Outcome, ok, err, MempoolEvent}
use kora.TxPool.Pool
use kora.TxPool.Methods.{senders, remove_confirmed, prune}
use kora.Qmdb.Changes.{ChangeSet}
use kora.Qmdb.Changes
use kora.Qmdb.Overlay.{OverlayState, StateDbRead}
use kora.Qmdb.Overlay
use kora.Qmdb.Handle.{as_base}
use kora.Qmdb.Handle
use kora.Qmdb.Store.{QmdbStore}
use kora.Consensus.Snapshot.{
  Snapshot, InMemorySnapshotStore, mark_persisted, is_persisted, len, unpersisted_count,
}
use kora.Consensus.Snapshot

pub record LedgerState : Type 0 where
  pub mempool : PoolInner
  pub snapshots : InMemorySnapshotStore ChangeSet
  pub head : ℕ
  pub seeds : Map ℕ
  pub qmdb : QmdbStore

-- `SnapshotStore::insert` and the new head of `insert_snapshot` and `cache_snapshot`.
unfoldable pub cache_snapshot : LedgerState → ℕ → Snapshot ChangeSet → LedgerState
cache_snapshot l digest snapshot = record l {
  snapshots = Snapshot.insert l.snapshots digest snapshot;
  head = digest;
}

-- The ids of the transactions are an argument, as is the changes of the state.
unfoldable pub insert_snapshot :
    LedgerState → ℕ → ℕ → ChangeSet → ℕ → ChangeSet → List ℕ → LedgerState
unfolding cache_snapshot
insert_snapshot l digest parent state root changes ids = cache_snapshot l digest (record {
  parent = some parent;
  state = state;
  state_root = root;
  changes = changes;
  tx_ids = ids;
})

-- What a restored block and the genesis block are held as: no changes of their own.
abbrev pub compact : Option ℕ → ℕ → List ℕ → Snapshot ChangeSet
compact parent root ids = record {
  parent = parent;
  state = Changes.new;
  state_root = root;
  changes = Changes.new;
  tx_ids = ids;
}

-- A block by its digest, parent, state root and transaction ids.
unfoldable pub restore_persisted_snapshot : LedgerState → ℕ → ℕ → ℕ → List ℕ → LedgerState
unfolding Changes.new
restore_persisted_snapshot l digest parent root ids = record l {
  snapshots =
      mark_persisted (Snapshot.insert l.snapshots digest (compact (some parent) root ids))
        (digest ∷ []);
  head = digest;
}

-- The state that `init_with_config_and_genesis_options` builds over a store that is initialised.
-- The retained number of persisted snapshots is the snapshot store's default.
unfoldable pub init : ℕ → ℕ → ℕ → QmdbStore → LedgerState
unfolding Changes.new
init max digest root qmdb = record {
  mempool = Pool.new;
  snapshots =
      mark_persisted (Snapshot.insert (Snapshot.new max) digest (compact none root []))
        (digest ∷ []);
  head = digest;
  seeds = (digest, 0) ∷ [];
  qmdb = qmdb;
}

-- The seed tracker, `InMemorySeedTracker`.
unfoldable pub query_seed : LedgerState → ℕ → Option ℕ
query_seed l digest = get digest l.seeds

unfoldable pub set_seed : LedgerState → ℕ → ℕ → LedgerState
set_seed l digest seed = record l { seeds = put digest seed l.seeds }

unfoldable pub parent_snapshot : LedgerState → ℕ → Option (Snapshot ChangeSet)
parent_snapshot l parent = Snapshot.lookup l.snapshots parent

unfoldable pub query_state_root : LedgerState → ℕ → Option ℕ
query_state_root l digest = elim (Snapshot.lookup l.snapshots digest) [
  | none ↦ none
  | some s ↦ some s.state_root
]

unfoldable pub is_snapshot_persisted : LedgerState → ℕ → Bool
is_snapshot_persisted l digest = is_persisted l.snapshots digest

unfoldable pub snapshot_store_stats : LedgerState → ℕ × ℕ
snapshot_store_stats l = (len l.snapshots, unpersisted_count l.snapshots)

module _ (keccak_empty : ℕ) where
  -- The overlay of a snapshot's state.
  abbrev pub overlay : QmdbStore → ChangeSet → OverlayState
  overlay q changes = Overlay.new (as_base keccak_empty q) changes

  abbrev pub state_or_root : QmdbStore → Option (Snapshot ChangeSet) → OverlayState
  state_or_root q none = overlay q Changes.new
  state_or_root q (some s) = overlay q s.state

  unfoldable pub latest_state : LedgerState → OverlayState
  latest_state l = state_or_root l.qmdb (Snapshot.lookup l.snapshots l.head)

  unfoldable pub query_balance : LedgerState → ℕ → ℕ → Option ℕ
  query_balance l digest address = elim (Snapshot.lookup l.snapshots digest) [
    | none ↦ none
    | some s ↦ Overlay.balance (overlay l.qmdb s.state) address
  ]

-- The transition root is a parameter here.
module _ (transition : ℕ → ChangeSet → ℕ) where
  abbrev pub root_from : ChangeSet → Option (Snapshot ChangeSet) → Option ℕ
  root_from changes none = none
  root_from changes (some s) = some (transition s.state_root changes)

  unfoldable pub compute_root_from_store : LedgerState → ℕ → ChangeSet → Option ℕ
  compute_root_from_store l parent changes = root_from changes (Snapshot.lookup l.snapshots parent)

module _ (id_of : List ℕ → ℕ) where
  unfoldable pub prune_mempool : LedgerState → List ℕ → LedgerState
  prune_mempool l tx_ids = record l { mempool = prune id_of l.mempool tx_ids }

  abbrev pub drop_below : Option ℕ → ℕ → PoolInner → PoolInner
  drop_below none sender pool = pool
  drop_below (some zero) sender pool = pool
  drop_below (some (suc confirmed)) sender pool = remove_confirmed id_of pool sender confirmed

  -- The loop over the senders: a nonce that cannot be read is skipped.
  unfoldable pub drop_stale : (ℕ → Option ℕ) → List ℕ → PoolInner → PoolInner
  drop_stale nonce [] pool = pool
  drop_stale nonce (sender ∷ rest) pool =
      drop_stale nonce rest (drop_below (nonce sender) sender pool)

  unfoldable pub prune_stale_nonces : LedgerState → LedgerState
  unfolding drop_stale
  prune_stale_nonces l = record l {
    mempool = drop_stale (Handle.nonce l.qmdb) (senders l.mempool) l.mempool;
  }

pub data LedgerEvent : Type 0 where
  transaction_submitted : ℕ → LedgerEvent
  snapshot_persisted : ℕ → LedgerEvent
  seed_updated : ℕ → ℕ → LedgerEvent
