-- ===== src/Ledger/Tests.antt =====
-- Runs of the ledger at concrete blocks.
use kora.Base.{
  ℕ, ◌≡◌, refl, inl, inr, true, false, List, [], ◌∷◌, Option, none, some, arith, ◌==◌,
  if◌then◌else◌, get, put, Bool-cases,
}
use kora.TxPool.Config.{default}
use kora.TxPool.Transaction.{OrderedTransaction}
use kora.TxPool.Pool.{PoolInner}
use kora.TxPool.Pool
use kora.TxPool.Pool.Admission.{Fits, add-Fits}
use kora.Qmdb.Changes.{AccountUpdate, ChangeSet}
use kora.Qmdb.Changes
use kora.Qmdb.Encoding.{encode}
use kora.Qmdb.Encoding.RoundTrip.{decode-encode}
use kora.Qmdb.Store.{Stores, get_account}
use kora.Qmdb.Store.Refine.{absent, no_faults}
use kora.Qmdb.Handle.{commit, nonce, read_with}
use kora.Consensus.Snapshot.{
  Snapshot, InMemorySnapshotStore, changes_for_persist, walk, can_persist_chain,
  mark_persisting_chain, merge_chain,
}
use kora.Ledger.{LedgerState, overlay, prune_stale_nonces, restore_persisted_snapshot}
use kora.Ledger.Persist.{Task, System, Reach, start, step, begins, restores, begin, started}
use kora.Ledger.Flight.{IsSafe, Reach-IsSafe}
use kora.Ledger.Progress.{Ends, Reach-Ends, outcome}
use kora.Ledger.Service.{Meets, persist_and_publish, persist_and_publish-Meets}
use kora.Ledger.Reads.{SameReads, compact-SameReads}
use kora.Ledger.Stale.{Bounded, DropsStale, prune_stale_nonces-DropsStale}

abbrev update : AccountUpdate
update = record {
  created = true;
  selfdestructed = false;
  nonce = 1;
  balance = 10;
  code_hash = 99;
  code = none;
  storage = (4, 77) ∷ [];
}

abbrev change : ChangeSet
change = record { accounts = (3, update) ∷ [] }

abbrev empty : Stores
empty = record { accounts = λ a. none; storage = λ k. none; code = λ h. none }

abbrev genesis : Snapshot ChangeSet
genesis = record {
  parent = none;
  state = record { accounts = [] };
  state_root = 100;
  changes = record { accounts = [] };
  tx_ids = [];
}

abbrev block : Snapshot ChangeSet
block = record {
  parent = some 1;
  state = change;
  state_root = 200;
  changes = change;
  tx_ids = 9 ∷ [];
}

-- Block 2 on the genesis block 1, which is persisted.
abbrev store : InMemorySnapshotStore ChangeSet
store = record {
  snapshots = (1, genesis) ∷ (2, block) ∷ [];
  persisted = 1 ∷ [];
  persisting = [];
  persisted_order = 1 ∷ [];
  max_persisted_retained = 64;
}

abbrev ledger : LedgerState
ledger = record {
  mempool = Pool.new;
  snapshots = store;
  head = 2;
  seeds = [];
  qmdb = record { stores = some empty; commit_seq = 0 };
}

abbrev task : Task
task = record { digest = 2; chain = 2 ∷ []; changes = change; result = none }

abbrev marked : InMemorySnapshotStore ChangeSet
marked = record store { persisting = 2 ∷ [] }

store-begin : begin 3 store 2 ≡ (marked, started task)
unfolding begin changes_for_persist walk get can_persist_chain mark_persisting_chain merge_chain
    Changes.merge Changes.merge_accounts Changes.new put
store-begin = refl

abbrev no_root : Stores → Option ℕ
no_root s = some 0

abbrev ready : System
ready = record { ledger = ledger; tasks = []; committed = []; overtaken = false }

abbrev running : System
running = record {
  ledger = record ledger { snapshots = marked };
  tasks = task ∷ [];
  committed = [];
  overtaken = false;
}

running-Reach : Reach no_root ledger running
running-Reach =
    step ready running (start refl) (begins 3 2 ledger [] [] false marked task store-begin)

-- Block 3 is restored while block 2 is in flight.
abbrev restored : System
restored = record running { ledger = restore_persisted_snapshot running.ledger 3 2 300 [] }

restored-Reach : Reach no_root ledger restored
restored-Reach =
    step running restored running-Reach (restores running.ledger (task ∷ []) [] false 3 2 300 [])

Reach-IsSafe_example : IsSafe restored
Reach-IsSafe_example = Reach-IsSafe no_root ledger restored restored-Reach

Reach-Ends_example :
    Ends no_root running [] (2 ∷ []) (outcome no_root no_faults running.ledger change none)
Reach-Ends_example =
    Reach-Ends no_root no_faults ledger running.ledger [] [] [] false task running-Reach

persist_and_publish-Meets_example :
    Meets no_root 3 no_faults ledger 2 (persist_and_publish no_root 3 no_faults ledger 2)
persist_and_publish-Meets_example = persist_and_publish-Meets no_root 3 no_faults ledger 2

compact-SameReads_example :
    SameReads
      (overlay 7 (commit no_root no_faults ledger.qmdb change).0 Changes.new)
      (overlay 7 ledger.qmdb change)
      3
unfolding get Changes.is_empty
compact-SameReads_example =
    compact-SameReads no_root 7 empty 0 change 3 refl (omega arith) (omega arith) (omega arith)
      (absent refl (λ g slot. refl)) (omega arith) refl

abbrev first_byte : List ℕ → ℕ
first_byte [] = 0
first_byte (b ∷ bs) = b

abbrev tx : OrderedTransaction
tx = record {
  hash = 50;
  sender = 7;
  nonce = 5;
  effective_gas_price = 100;
  timestamp = 0;
  envelope = 50 ∷ [];
}

new-Fits : Fits default Pool.new
unfolding get Pool.new
new-Fits = (
  record {
    indexed = record { owned = λ s q e. cc; indexed = λ t e. cc; held = λ h t e. cc };
    sorted = tt;
    pending_sum = refl;
    queued_sum = refl;
  },
  omega arith,
  omega arith,
)

-- The sender's finalized nonce is 6, so its transaction at nonce 5 is stale.
abbrev with_account : Stores
with_account = record empty { accounts = λ a. if a == 7 then some (encode 6 0 0 1) else none }

abbrev after_six : LedgerState
after_six = record ledger {
  mempool = (Pool.add first_byte default Pool.new tx).0;
  qmdb = record { stores = some with_account; commit_seq = 0 };
}

six-Bounded : Bounded (nonce after_six.qmdb)
unfolding nonce read_with get_account
six-Bounded s m e = elim (Bool-cases (s == 7)) [
  | inl f ↦
      let d = (decode-encode 6 0 0 1 (omega arith) (omega arith) (omega arith) (omega arith)).1 in
      let same : nonce after_six.qmdb s ≡ some 6 = rw (get_account, f, d) refl in
      ground (arith, same, e)
  | inr f ↦
      let same : nonce after_six.qmdb s ≡ none = rw (get_account, f) refl in ground (arith, same, e)
]

prune_stale_nonces-DropsStale_example :
    DropsStale
      (nonce after_six.qmdb)
      after_six.mempool
      (prune_stale_nonces first_byte after_six).mempool
prune_stale_nonces-DropsStale_example =
    prune_stale_nonces-DropsStale first_byte after_six six-Bounded
      (add-Fits first_byte default Pool.new tx new-Fits (omega arith)).0
