-- ===== src/App.antt =====
-- crates/node/runner/src/app.rs: `RevmApplication`, which builds and verifies blocks.
-- The executor is a type parameter of the source and a parameter here; so are the codec library
-- and the hash functions. Waits, metrics and logs are left out: a snapshot that is waited for is
-- one that the ledger holds in the end.
pub mod Build
pub mod Fees
pub mod Verify
pub mod Agree
pub mod Tests
use kora.Base.{
  ℕ, zero, suc, ◌+◌, ◌-◌, ◌*◌, ◌/◌, ◌%◌, ◌^◌, min, max, Bool, true, false, not, ◌&&◌, List, [], ◌∷◌,
  map, Option, none, some, ltb, leb, ◌==◌, if◌then◌else◌, Map, get, put, saturating_add,
}
use kora.Qmdb.Changes.{ChangeSet, merge}
use kora.Qmdb.Overlay.{OverlayState}
use kora.Qmdb.Store.{QmdbStore}
use kora.Qmdb.Root.{transition}
use kora.Domain.Codec.{Codec}
use kora.Domain.Tx.{Tx}
use kora.Domain.Tx
use kora.Domain.Block.{Block, next_timestamp}
use kora.Domain.Block
use kora.TxPool.Build.{build}
use kora.Consensus.Snapshot.{
  Snapshot, InMemorySnapshotStore, Result, found, snapshot_not_found, out_of_fuel, map_found, walk,
  elem,
}
use kora.Consensus.Proposal.{ids_of}
use kora.Ledger.{
  LedgerState, overlay, compute_root_from_store, query_state_root, parent_snapshot, insert_snapshot,
  restore_persisted_snapshot,
}

-- context.rs and outcome.rs of crates/node/executor: the fields that the application sets or reads.
pub record BlockContext : Type 0 where
  pub number : ℕ
  pub timestamp : ℕ
  pub gas_limit : ℕ
  pub beneficiary : ℕ
  pub base_fee_per_gas : ℕ
  pub prevrandao : ℕ

pub record ExecutionOutcome : Type 0 where
  pub changes : ChangeSet
  pub gas_used : ℕ

-- The executor, and the libraries' functions. An execution reads its state, and can fail.
pub record Platform : Type 1 where
  pub codec : Codec
  pub keccak256 : List ℕ → ℕ
  pub sha256 : List ℕ → ℕ
  pub keccak_empty : ℕ
  pub namespace : List ℕ
  pub execute : OverlayState → BlockContext → List (List ℕ) → Option ExecutionOutcome

abbrev pub initial_base_fee : ℕ
initial_base_fee = 1000000000

abbrev pub u128_max : ℕ
u128_max = 340282366920938463463374607431768211455

-- `calculate_base_fee` of crates/node/executor/src/revm.rs, for an elasticity and a denominator. It
-- divides by the gas target, which is not zero for a gas limit of at least the elasticity.
abbrev pub fee_delta : ℕ → ℕ → ℕ → ℕ → ℕ
fee_delta fee gas target denominator = min (fee * gas) u128_max / target / denominator

unfoldable pub calculate_base_fee : ℕ → ℕ → ℕ → ℕ → ℕ → ℕ
calculate_base_fee elasticity denominator parent_base_fee parent_gas_used parent_gas_limit =
    let target = parent_gas_limit / elasticity in
    if parent_gas_used == target
    then parent_base_fee
    else if ltb target parent_gas_used
    then saturating_add parent_base_fee
        (max (fee_delta parent_base_fee (parent_gas_used - target) target denominator) 1 % 2 ^ 64)
    else parent_base_fee
      - fee_delta parent_base_fee (target - parent_gas_used) target denominator % 2 ^ 64

pub record RevmApplication : Type 0 where
  pub ledger : LedgerState
  pub max_txs : ℕ
  pub gas_limit : ℕ
  pub fee_recipient : ℕ
  pub recovered_height : ℕ
  pub last_verified_height : ℕ
  pub block_fees : Map (ℕ × ℕ)

abbrev pub next_fee : ℕ → Option (ℕ × ℕ) → ℕ
next_fee gas_limit none = initial_base_fee
next_fee gas_limit (some (gas_used, base_fee)) = calculate_base_fee 2 8 base_fee gas_used gas_limit

unfoldable pub compute_base_fee : RevmApplication → ℕ → ℕ
unfolding calculate_base_fee
compute_base_fee app parent_digest = next_fee app.gas_limit (get parent_digest app.block_fees)

unfoldable pub record_block_fees : RevmApplication → ℕ → ℕ → ℕ → RevmApplication
record_block_fees app digest gas_used base_fee = record app {
  block_fees = put digest (gas_used, base_fee) app.block_fees;
}

unfoldable pub seed_block_fees : RevmApplication → List (ℕ × ℕ × ℕ) → RevmApplication
seed_block_fees app [] = app
seed_block_fees app ((digest, gas_used, base_fee) ∷ entries) =
    seed_block_fees (record_block_fees app digest gas_used base_fee) entries

unfoldable pub with_recovered_height : RevmApplication → ℕ → RevmApplication
with_recovered_height app height = record app {
  recovered_height = height;
  last_verified_height = height;
}

unfoldable pub block_context : RevmApplication → ℕ → ℕ → ℕ → ℕ → BlockContext
unfolding compute_base_fee
block_context app height timestamp prevrandao parent_digest = record {
  number = height;
  timestamp = timestamp;
  gas_limit = app.gas_limit;
  beneficiary = app.fee_recipient;
  base_fee_per_gas = compute_base_fee app parent_digest;
  prevrandao = prevrandao;
}

abbrev pub or_zero : Option ℕ → ℕ
or_zero none = 0
or_zero (some n) = n

unfoldable pub get_prevrandao : RevmApplication → ℕ → ℕ
get_prevrandao app parent_digest = or_zero (get parent_digest app.ledger.seeds)

-- The walk ends at a persisted digest; a gap in the chain is an error here.
unfoldable pub collect_pending_tx_ids : ℕ → InMemorySnapshotStore ChangeSet → ℕ → Result (List ℕ)
collect_pending_tx_ids fuel store digest =
    map_found ids_of (walk fuel store.snapshots store.persisted (some digest))

abbrev pub max_future_timestamp_drift : ℕ
max_future_timestamp_drift = 15

abbrev pub max_proposal_lag : ℕ
max_proposal_lag = 64

abbrev pub catch_up_threshold : ℕ
catch_up_threshold = 64

unfoldable pub is_catching_up : RevmApplication → ℕ → Bool
is_catching_up app block_height =
    not (app.recovered_height == 0)
    && (ltb app.recovered_height block_height
        && ltb app.last_verified_height (saturating_add app.recovered_height catch_up_threshold))

-- `fetch_max` on the last verified height.
unfoldable pub note_verified : RevmApplication → ℕ → RevmApplication
note_verified app height = record app { last_verified_height = max app.last_verified_height height }

abbrev pub with_ledger : RevmApplication → LedgerState → RevmApplication
with_ledger app ledger = record app { ledger = ledger }

abbrev pub bytes_of : List Tx → List (List ℕ)
bytes_of [] = []
bytes_of (tx ∷ txs) = tx.bytes ∷ bytes_of txs

abbrev pub as_txs : List (List ℕ) → List Tx
as_txs [] = []
as_txs (bytes ∷ rest) = record { bytes = bytes } ∷ as_txs rest

module _ (p : Platform) where
  abbrev pub digest_of : Block → ℕ
  digest_of b = Block.digest p.codec p.keccak256 p.sha256 b

  abbrev pub parent_of : Block → ℕ
  parent_of b = Block.parent_digest p.codec p.keccak256 p.sha256 b

  abbrev pub block_id : Block → ℕ
  block_id b = Block.id p.codec p.keccak256 p.sha256 b

  abbrev pub tx_id : List ℕ → ℕ
  tx_id bytes = Tx.id p.codec p.keccak256 (record { bytes = bytes })

  abbrev pub ids : List Tx → List ℕ
  ids [] = []
  ids (tx ∷ txs) = Tx.id p.codec p.keccak256 tx ∷ ids txs

  abbrev pub root_over : LedgerState → ℕ → ChangeSet → Option ℕ
  root_over l parent changes =
      compute_root_from_store (transition p.namespace p.keccak256) l parent changes
