-- ===== src/App/Verify.antt =====
-- crates/node/runner/src/app.rs: `verify_block` and `verify`.
use kora.Base.{
  ℕ, Bool, true, false, not, ◌&&◌, List, [], ◌∷◌, reverse, Option, none, some, ltb, ◌==◌,
  if◌then◌else◌, saturating_add,
}
use kora.Qmdb.Changes.{ChangeSet, merge, is_some}
use kora.Domain.Block.{Block}
use kora.Consensus.Snapshot.{Snapshot}
use kora.Ledger.{
  LedgerState, overlay, parent_snapshot, query_state_root, insert_snapshot,
  restore_persisted_snapshot,
}
use kora.App.{
  Platform, RevmApplication, BlockContext, ExecutionOutcome, block_context, record_block_fees,
  note_verified, with_ledger, is_catching_up, bytes_of, digest_of, parent_of, ids, root_over,
  max_future_timestamp_drift,
}

-- The checks on the timestamp, against the parent's where it is known and the clock.
abbrev pub before : ℕ → Option ℕ → Bool
before timestamp none = false
before timestamp (some parent) = ltb timestamp parent

unfoldable pub bad_timestamp : ℕ → Option ℕ → ℕ → Bool
bad_timestamp timestamp parent_timestamp now_secs =
    if before timestamp parent_timestamp
    then true
    else ltb (saturating_add now_secs max_future_timestamp_drift) timestamp

module _ (p : Platform) where
  -- The finality certificate is trusted during catch-up; a failure counts otherwise.
  abbrev pub trust : RevmApplication → Block → RevmApplication
  trust app b = with_ledger app (
      restore_persisted_snapshot app.ledger (digest_of p b) (parent_of p b) b.state_root
        (ids p b.txs))

  unfoldable pub trust_or_refuse : RevmApplication → Block → RevmApplication × Bool
  trust_or_refuse app b = if is_catching_up app b.height then (trust app b, true) else (app, false)

  abbrev pub context_for : RevmApplication → Block → BlockContext
  context_for app b = block_context app b.height b.timestamp b.prevrandao (parent_of p b)

  -- The end of `verify_block`: the fees, the snapshot, and the verified height.
  abbrev pub accept :
      RevmApplication → Block → Snapshot ChangeSet → ExecutionOutcome → ℕ → RevmApplication
  accept app b s out root =
      let charged =
        record_block_fees app (digest_of p b) out.gas_used (context_for app b).base_fee_per_gas in
      note_verified
        (with_ledger charged (
          insert_snapshot app.ledger (digest_of p b) (parent_of p b) (merge s.state out.changes)
            root out.changes (ids p b.txs)))
        b.height

  abbrev pub check_root :
      RevmApplication
      → Block
      → Snapshot ChangeSet
      → ExecutionOutcome
      → Option ℕ
      → RevmApplication × Bool
  check_root app b s out none = trust_or_refuse app b
  check_root app b s out (some root) =
      if root == b.state_root then (accept app b s out root, true) else trust_or_refuse app b

  abbrev pub check_outcome :
      RevmApplication
      → Block
      → Snapshot ChangeSet
      → Option ExecutionOutcome
      → RevmApplication × Bool
  check_outcome app b s none = trust_or_refuse app b
  check_outcome app b s (some out) =
      check_root app b s out (root_over p app.ledger (parent_of p b) out.changes)

  abbrev pub check_parent :
      RevmApplication → Block → Option (Snapshot ChangeSet) → RevmApplication × Bool
  check_parent app b none = trust_or_refuse app b
  check_parent app b (some s) = check_outcome app b s (
      p.execute (overlay p.keccak_empty app.ledger.qmdb s.state) (context_for app b)
        (bytes_of b.txs))

  unfoldable pub verify_block : RevmApplication → Block → Option ℕ → ℕ → RevmApplication × Bool
  unfolding trust_or_refuse
  verify_block app b parent_timestamp now_secs =
      if is_some (query_state_root app.ledger (digest_of p b))
      then (note_verified app b.height, true)
      else if not (is_catching_up app b.height)
          && bad_timestamp b.timestamp parent_timestamp now_secs
      then (app, false)
      else check_parent app b (parent_snapshot app.ledger (parent_of p b))

  -- The blocks of the ancestry, tip first, up to the first that is known, whose timestamp is kept.
  unfoldable pub unverified : LedgerState → List Block → List Block × Option ℕ
  unverified l [] = ([], none)
  unverified l (b ∷ bs) =
      let rest = unverified l bs in
      if is_some (query_state_root l (digest_of p b))
      then ([], some b.timestamp)
      else (b ∷ rest.0, rest.1)

  -- The loop of `verify`, oldest first, up to a block that is refused.
  unfoldable pub verify_all : RevmApplication → Option ℕ → ℕ → List Block → RevmApplication × Bool
  unfolding verify_block
  verify_all app parent_timestamp now_secs [] = (app, true)
  verify_all app parent_timestamp now_secs (b ∷ bs) =
      let (next, accepted) = verify_block app b parent_timestamp now_secs in
      let rest = verify_all next (some b.timestamp) now_secs bs in
      if accepted then rest else (next, false)

  unfoldable pub verify : RevmApplication → ℕ → List Block → RevmApplication × Bool
  unfolding unverified verify_all
  verify app now_secs ancestry =
      let (blocks, parent_timestamp) = unverified app.ledger ancestry in
      verify_all app parent_timestamp now_secs (reverse blocks)
