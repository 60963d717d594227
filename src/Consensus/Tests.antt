-- ===== src/Consensus/Tests.antt =====
-- Runs of the snapshot store at concrete blocks.
use kora.Base.{ℕ, List, ◌≡◌, refl, true, [], ◌∷◌, none, some, arith, get}
use kora.TxPool.Config.{default}
use kora.TxPool.Transaction.{OrderedTransaction}
use kora.TxPool.Pool.{PoolInner}
use kora.TxPool.Pool
use kora.TxPool.Pool.Admission.{Fits, add-Fits}
use kora.TxPool.Build.Chosen.{Builds}
use kora.Consensus.Proposal.{build_proposal_txs, ids_of, build_proposal_txs-Builds}
use kora.Consensus.Snapshot.{
  walk, found, elem, Snapshot, InMemorySnapshotStore, changes_for_persist, mark_persisted,
  evict_persisted,
}
use kora.Consensus.Snapshot.Walk.{
  Ranked, finishes, Persists, Evicts, changes_for_persist-finishes, mark_persisted-Persists,
  evict_persisted-Evicts,
}

abbrev genesis : Snapshot (Unit {0})
genesis = record {
  parent = none;
  state = tt;
  state_root = 100;
  changes = record { accounts = [] };
  tx_ids = [];
}

abbrev block : Snapshot (Unit {0})
block = record {
  parent = some 1;
  state = tt;
  state_root = 200;
  changes = record { accounts = [] };
  tx_ids = 9 ∷ [];
}

-- Block 2 on the genesis block 1, which is persisted.
abbrev store : InMemorySnapshotStore (Unit {0})
store = record {
  snapshots = (1, genesis) ∷ (2, block) ∷ [];
  persisted = 1 ∷ [];
  persisting = [];
  persisted_order = 1 ∷ [];
  max_persisted_retained = 0;
}

store-Ranked : Ranked (λ d. d) store.snapshots
unfolding get
store-Ranked d p s e f = ground (arith, e, f)

changes_for_persist-finishes_example : finishes (changes_for_persist 3 store 2) ≡ true
changes_for_persist-finishes_example =
    changes_for_persist-finishes (λ d. d) 3 store 2 store-Ranked (omega arith)

mark_persisted-Persists_example : Persists 2 (mark_persisted store (2 ∷ []))
mark_persisted-Persists_example = mark_persisted-Persists store (2 ∷ []) 2 refl

evict_persisted-Evicts_example : Evicts store (evict_persisted store).0
evict_persisted-Evicts_example = evict_persisted-Evicts store

abbrev first_byte : List ℕ → ℕ
first_byte [] = 0
first_byte (b ∷ bs) = b

abbrev tx : OrderedTransaction
tx = record {
  hash = 50;
  sender = 7;
  nonce = 5;
  effective_gas_price = 100;
  timestamp = 0;
  envelope = 50 ∷ [];
}

new-Fits : Fits default Pool.new
unfolding get Pool.new
new-Fits = (
  record {
    indexed = record { owned = λ s q e. cc; indexed = λ t e. cc; held = λ h t e. cc };
    sorted = tt;
    pending_sum = refl;
    queued_sum = refl;
  },
  omega arith,
  omega arith,
)

-- A pool with one pending transaction.
abbrev pool : PoolInner
pool = (Pool.add first_byte default Pool.new tx).0

pool-Fits : Fits default pool
pool-Fits = add-Fits first_byte default Pool.new tx new-Fits (omega arith)

store-walk : walk 2 store.snapshots store.persisted (some 2) ≡ found ((2, block) ∷ [])
unfolding walk get
store-walk = refl

build_proposal_txs-Builds_example :
    (txs : List (List ℕ)) × (build_proposal_txs first_byte 3 store pool (some 2) 4 ≡ some txs)
    × Builds first_byte (λ id. elem id (ids_of ((2, block) ∷ []))) pool 4 txs
build_proposal_txs-Builds_example =
    build_proposal_txs-Builds first_byte 2 store pool (some 2) 4 ((2, block) ∷ []) store-walk
      pool-Fits.0
