-- ===== src/App/Build.antt =====
-- crates/node/runner/src/app.rs: `build_block` and `propose`.
use kora.Base.{ℕ, suc, ◌+◌, Bool, false, List, Option, none, some, ltb, if◌then◌else◌}
use kora.Qmdb.Changes.{ChangeSet}
use kora.Domain.Block.{Block, next_timestamp}
use kora.TxPool.Build.{build}
use kora.Consensus.Snapshot.{Snapshot, Result, found, snapshot_not_found, out_of_fuel, elem}
use kora.Ledger.{overlay, parent_snapshot}
use kora.App.{
  Platform, RevmApplication, BlockContext, ExecutionOutcome, block_context, get_prevrandao,
  collect_pending_tx_ids, record_block_fees, as_txs, digest_of, block_id, tx_id, root_over,
  max_proposal_lag,
}

-- What a building ends in; the fuel of the walk over the ancestors may run out.
pub data Built : Type 0 where
  built : Block → Built
  no_block no_fuel : Built

-- A proposal is skipped where the parent is too far ahead of the finalized height, if that is known.
abbrev pub too_far : Option ℕ → ℕ → Bool
too_far none height = false
too_far (some finalized) height = ltb (finalized + max_proposal_lag) height

module _ (p : Platform) where
  abbrev pub new_block : Block → ℕ → ℕ → ℕ → List (List ℕ) → Block
  new_block parent timestamp prevrandao root txs = record {
    parent = block_id p parent;
    height = suc parent.height;
    timestamp = timestamp;
    prevrandao = prevrandao;
    state_root = root;
    txs = as_txs txs;
  }

  -- The end of `build_block`: the root of the outcome, and the fees of the block.
  abbrev pub with_root :
      RevmApplication
      → Block
      → ℕ
      → List (List ℕ)
      → BlockContext
      → ExecutionOutcome
      → Option ℕ
      → RevmApplication × Built
  with_root app parent timestamp txs context out none = (app, no_block)
  with_root app parent timestamp txs context out (some root) =
      let block = new_block parent timestamp context.prevrandao root txs in
      (record_block_fees app (digest_of p block) out.gas_used context.base_fee_per_gas, built block)

  abbrev pub with_outcome :
      RevmApplication
      → Block
      → ℕ
      → List (List ℕ)
      → BlockContext
      → Option ExecutionOutcome
      → RevmApplication × Built
  with_outcome app parent timestamp txs context none = (app, no_block)
  with_outcome app parent timestamp txs context (some out) =
      with_root app parent timestamp txs context out
        (root_over p app.ledger (digest_of p parent) out.changes)

  abbrev pub context_of : RevmApplication → Block → ℕ → BlockContext
  context_of app parent timestamp =
      block_context app (suc parent.height) timestamp (get_prevrandao app (digest_of p parent))
        (digest_of p parent)

  abbrev pub with_excluded :
      RevmApplication → Block → ℕ → Snapshot ChangeSet → Result (List ℕ) → RevmApplication × Built
  with_excluded app parent timestamp s (snapshot_not_found d) = (app, no_block)
  with_excluded app parent timestamp s out_of_fuel = (app, no_fuel)
  with_excluded app parent timestamp s (found excluded) =
      let txs = build (tx_id p) (λ id. elem id excluded) app.ledger.mempool app.max_txs in
      let context = context_of app parent timestamp in
      with_outcome app parent timestamp txs context
        (p.execute (overlay p.keccak_empty app.ledger.qmdb s.state) context txs)

  abbrev pub with_parent :
      ℕ → RevmApplication → Block → ℕ → Option (Snapshot ChangeSet) → RevmApplication × Built
  with_parent fuel app parent timestamp none = (app, no_block)
  with_parent fuel app parent timestamp (some s) =
      with_excluded app parent timestamp s
        (collect_pending_tx_ids fuel app.ledger.snapshots (digest_of p parent))

  unfoldable pub build_block : ℕ → RevmApplication → Block → ℕ → RevmApplication × Built
  build_block fuel app parent timestamp =
      with_parent fuel app parent timestamp (parent_snapshot app.ledger (digest_of p parent))

  abbrev pub at_time : ℕ → RevmApplication → Block → Option ℕ → RevmApplication × Built
  at_time fuel app parent none = (app, no_block)
  at_time fuel app parent (some timestamp) = build_block fuel app parent timestamp

  unfoldable pub propose : ℕ → RevmApplication → Option ℕ → ℕ → Block → RevmApplication × Built
  unfolding build_block
  propose fuel app finalized now_secs parent =
      if too_far finalized parent.height
      then (app, no_block)
      else at_time fuel app parent (next_timestamp now_secs parent.timestamp)
