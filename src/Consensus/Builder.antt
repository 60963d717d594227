-- ===== src/Consensus/Builder.antt =====
-- crates/node/consensus/src/proposal.rs: `ProposalBuilder`.
-- Its type parameters (the state, the mempool and the executor) are fields, by the functions of
-- their traits that it calls. Both variants of `build_proposal` are one function here: they differ
-- in the thread that executes.
pub mod Persisted
mod Tests
use kora.Base.{
  ℕ, suc, ◌≡◌, refl, sym, ap, ◌∙◌, Bool, true, false, List, Option, none, some, get, put, get-put,
  ==-refl,
}
use kora.Qmdb.Changes.{ChangeSet}
use kora.Domain.Block.{Block, next_timestamp}
use kora.Consensus.Snapshot.{
  Snapshot, InMemorySnapshotStore, Result, found, snapshot_not_found, out_of_fuel, map_found, elem,
  lookup, walk, merged_changes,
}
use kora.Consensus.Proposal.{ids_of}
use kora.App.{Platform, BlockContext, ExecutionOutcome, digest_of, ids, initial_base_fee}
use kora.App.Build.{new_block}

abbrev pub default_gas_limit : ℕ
default_gas_limit = 250000000

unfoldable pub block_context : ℕ → ℕ → ℕ → ℕ → BlockContext
block_context height timestamp prevrandao fee_recipient = record {
  number = height;
  timestamp = timestamp;
  gas_limit = default_gas_limit;
  beneficiary = fee_recipient;
  base_fee_per_gas = initial_base_fee;
  prevrandao = prevrandao;
}

pub record ProposalBuilder (S : Type 0) : Type 0 where
  pub compute_root : ChangeSet → Option ℕ
  pub build : ℕ → (ℕ → Bool) → List (List ℕ)
  pub snapshots : InMemorySnapshotStore S
  pub execute : S → BlockContext → List (List ℕ) → Option ExecutionOutcome
  pub max_txs : ℕ
  pub fee_recipient : ℕ

-- A proposal with its snapshot, or the error; the fuel of a walk over the ancestors may run out.
pub data Proposed (S : Type 0) : Type 0 where
  proposed : Block → Snapshot S → Proposed S
  not_found timestamp_overflow : ℕ → Proposed S
  execution state_db no_fuel : Proposed S

module _ {S : Type 0} where
  unfoldable pub collect_pending_tx_ids : ℕ → ProposalBuilder S → ℕ → Result (List ℕ)
  collect_pending_tx_ids fuel b from =
      map_found ids_of (walk fuel b.snapshots.snapshots b.snapshots.persisted (some from))

  module _ (p : Platform) (fuel : ℕ) (b : ProposalBuilder S) (parent : Block) (prevrandao : ℕ) where
    abbrev pub with_root : ℕ → Snapshot S → List (List ℕ) → ExecutionOutcome → Option ℕ → Proposed S
    with_root timestamp s txs out none = state_db
    with_root timestamp s txs out (some root) =
        let block = new_block p parent timestamp prevrandao root txs in
        proposed block (record {
          parent = some (digest_of p parent);
          state = s.state;
          state_root = root;
          changes = out.changes;
          tx_ids = ids p block.txs;
        })

    abbrev pub with_merged :
        ℕ → Snapshot S → List (List ℕ) → ExecutionOutcome → Result ChangeSet → Proposed S
    with_merged timestamp s txs out (snapshot_not_found d) = not_found d
    with_merged timestamp s txs out out_of_fuel = no_fuel
    with_merged timestamp s txs out (found changes) =
        with_root timestamp s txs out (b.compute_root changes)

    abbrev pub with_outcome : ℕ → Snapshot S → List (List ℕ) → Option ExecutionOutcome → Proposed S
    with_outcome timestamp s txs none = execution
    with_outcome timestamp s txs (some out) =
        with_merged timestamp s txs out
          (merged_changes fuel b.snapshots (digest_of p parent) out.changes)

    abbrev pub with_timestamp : Snapshot S → List (List ℕ) → Option ℕ → Proposed S
    with_timestamp s txs none = timestamp_overflow parent.timestamp
    with_timestamp s txs (some timestamp) = with_outcome timestamp s txs (
        b.execute s.state (block_context (suc parent.height) timestamp prevrandao b.fee_recipient)
          txs)

    abbrev pub with_excluded : ℕ → Snapshot S → Result (List ℕ) → Proposed S
    with_excluded now_secs s (snapshot_not_found d) = not_found d
    with_excluded now_secs s out_of_fuel = no_fuel
    with_excluded now_secs s (found excluded) =
        with_timestamp s (b.build b.max_txs (λ id. elem id excluded))
          (next_timestamp now_secs parent.timestamp)

    abbrev pub with_parent : ℕ → Option (Snapshot S) → Proposed S
    with_parent now_secs none = not_found (digest_of p parent)
    with_parent now_secs (some s) =
        with_excluded now_secs s (collect_pending_tx_ids fuel b (digest_of p parent))

    unfoldable pub build_proposal : ℕ → Proposed S
    build_proposal now_secs = with_parent now_secs (lookup b.snapshots (digest_of p parent))
