-- ===== src/App/Tests.antt =====
-- A node that proposes a block with a transaction, and another that verifies it.
use kora.Base.{
  ℕ, ◌≡◌, refl, Bool, true, true, false, List, [], ◌∷◌, none, some, arith, sum_by, get, put,
}
use kora.TxPool.Transaction.{OrderedTransaction}
use kora.TxPool.Pool.{PoolInner}
use kora.Qmdb.Changes.{AccountUpdate, ChangeSet}
use kora.Qmdb.Store.{Stores}
use kora.Qmdb.Root.{transition}
use kora.Domain.Block.{Block}
use kora.Domain.Tests.{codec}
use kora.Consensus.Snapshot.{Snapshot, InMemorySnapshotStore}
use kora.Ledger.{LedgerState, query_state_root}
use kora.App.{Platform, RevmApplication, BlockContext, ExecutionOutcome, digest_of}
use kora.App.Build.{Built, built, propose, new_block}
use kora.App.Verify.{verify_block, verify}
use kora.App.{calculate_base_fee}
use kora.App.Fees.{Moves, calculate_base_fee-Moves}
use kora.App.Agree.Chain.{Traced, verify-Traced}
use kora.App.Agree.{SameView, Accepts}
use kora.App.Agree.Propose.{propose-Accepts}
use kora.App.Agree.Sound.{Verdict, verify_block-Verdict}

abbrev total : List ℕ → ℕ
total bytes = sum_by (λ b. b) bytes

abbrev update : AccountUpdate
update = record {
  created = true;
  selfdestructed = false;
  nonce = 1;
  balance = 10;
  code_hash = 99;
  code = none;
  storage = [];
}

abbrev pub change : ChangeSet
change = record { accounts = (3, update) ∷ [] }

abbrev pub platform : Platform
platform = record {
  codec = codec;
  keccak256 = total;
  sha256 = total;
  keccak_empty = 7;
  namespace = 1 ∷ 2 ∷ [];
  execute = λ state context txs. some (record { changes = change; gas_used = 21000 });
}

abbrev pub genesis : Block
genesis = record {
  parent = 0;
  height = 0;
  timestamp = 1000;
  prevrandao = 0;
  state_root = 100;
  txs = [];
}

abbrev pub genesis_digest : ℕ
genesis_digest = digest_of platform genesis

abbrev pub genesis_snapshot : Snapshot ChangeSet
genesis_snapshot = record {
  parent = none;
  state = record { accounts = [] };
  state_root = 100;
  changes = record { accounts = [] };
  tx_ids = [];
}

abbrev tx : OrderedTransaction
tx = record {
  hash = 50;
  sender = 7;
  nonce = 0;
  effective_gas_price = 100;
  timestamp = 0;
  envelope = 50 ∷ [];
}

abbrev empty : Stores
empty = record { accounts = λ a. none; storage = λ k. none; code = λ h. none }

abbrev node : PoolInner → RevmApplication
node pool = record {
  ledger = record {
    mempool = pool;
    snapshots = record {
      snapshots = (genesis_digest, genesis_snapshot) ∷ [];
      persisted = genesis_digest ∷ [];
      persisting = [];
      persisted_order = genesis_digest ∷ [];
      max_persisted_retained = 64;
    };
    head = genesis_digest;
    seeds = (genesis_digest, 0) ∷ [];
    qmdb = record { stores = some empty; commit_seq = 0 };
  };
  max_txs = 4;
  gas_limit = 30000000;
  fee_recipient = 0;
  recovered_height = 0;
  last_verified_height = 0;
  block_fees = (genesis_digest, (0, 1000000000)) ∷ [];
}

abbrev with_tx : PoolInner
with_tx = record {
  by_hash = (50, tx) ∷ [];
  by_id = [];
  by_sender = (7, record { sender = 7; next_nonce = 0; pending = tx ∷ []; queued = [] }) ∷ [];
  pending_count = 1;
  queued_count = 0;
}

abbrev no_pool : PoolInner
no_pool = record { by_hash = []; by_id = []; by_sender = []; pending_count = 0; queued_count = 0 }

abbrev block : Block
block =
    new_block platform genesis 1010 0 (transition (1 ∷ 2 ∷ []) total 100 change) ((50 ∷ []) ∷ [])

abbrev proposed : RevmApplication × Built
proposed = propose platform 1 (node with_tx) (some 0) 1010 genesis

proposed-block : proposed ≡ (proposed.0, built block)
unfolding propose kora.Domain.Block.next_timestamp kora.Ledger.parent_snapshot
    kora.Consensus.Snapshot.lookup get kora.Domain.Block.digest kora.Qmdb.Encoding.to_be_bytes
    kora.App.collect_pending_tx_ids kora.Consensus.Snapshot.walk kora.Ledger.compute_root_from_store
    kora.App.record_block_fees kora.App.block_context transition kora.TxPool.Build.build
    kora.App.get_prevrandao put
proposed-block = refl

unknown : query_state_root (node no_pool).ledger (digest_of platform block) ≡ none
unfolding query_state_root kora.Consensus.Snapshot.lookup get kora.Domain.Block.digest
    kora.Qmdb.Encoding.to_be_bytes transition kora.Qmdb.Changes.is_empty
unknown = refl

abbrev same_view : SameView platform (node with_tx) (node no_pool) genesis_digest
unfolding kora.Ledger.parent_snapshot
same_view = record {
  same_snapshot = refl;
  same_store = refl;
  same_fees = refl;
  same_limit = refl;
  same_recipient = refl;
}

propose-Accepts_example :
    Accepts platform block genesis_digest
      (verify_block platform (node no_pool) block (some 1000) 1010)
propose-Accepts_example =
    propose-Accepts platform 1 (node with_tx) proposed.0 (node no_pool) (some 0) 1010 1010 genesis
      block proposed-block same_view unknown (omega arith) (omega arith) (omega arith) (omega arith)

verify_block-Verdict_example :
    Verdict platform
      (node no_pool)
      block
      (some 1000)
      1010
      (verify_block platform (node no_pool) block (some 1000) 1010)
verify_block-Verdict_example = verify_block-Verdict platform (node no_pool) block (some 1000) 1010

abbrev verified : RevmApplication × Bool
verified = verify platform (node no_pool) 1010 (block ∷ genesis ∷ [])

verified-accepted : verified ≡ (verified.0, true)
unfolding verify query_state_root kora.Consensus.Snapshot.lookup get kora.Domain.Block.digest
    kora.Qmdb.Encoding.to_be_bytes transition kora.Qmdb.Changes.is_empty kora.App.is_catching_up
    kora.App.Verify.bad_timestamp kora.Base.saturating_add kora.Ledger.parent_snapshot
    kora.Domain.Block.parent_digest kora.Ledger.compute_root_from_store
verified-accepted = refl

verify-Traced_example : Traced platform (node no_pool) verified.0 (block ∷ genesis ∷ [])
verify-Traced_example =
    verify-Traced platform (node no_pool) verified.0 1010 (block ∷ genesis ∷ []) refl
      verified-accepted

calculate_base_fee-Moves_example :
    Moves 1000000000 21000 30000000 (calculate_base_fee 2 8 1000000000 21000 30000000)
calculate_base_fee-Moves_example =
    calculate_base_fee-Moves 1000000000 21000 30000000 (omega arith) (omega arith)
