-- ===== src/App/Agree.antt =====
-- A block that one node builds is accepted by the others, and what is accepted was checked.
pub mod Sound
pub mod Propose
pub mod Chain
use kora.Base.{
  ℕ, suc, ◌≡◌, refl, sym, ap, subst, ◌∙◌, inl, inr, Bool, true, false, not, ◌&&◌, List, [], ◌∷◌,
  Option, none, some, arith, ◌==◌, if◌then◌else◌, get, put, get-put, Bool-cases, Option-cases,
  ==-refl,
}
use kora.Qmdb.Changes.{ChangeSet, merge, is_some}
use kora.Domain.Block.{Block}
use kora.Domain.Block
use kora.TxPool.Build.{build}
use kora.Consensus.Snapshot.{
  Snapshot, Result, found, snapshot_not_found, out_of_fuel, elem, lookup, insert,
}
use kora.Ledger.{
  LedgerState, overlay, parent_snapshot, query_state_root, insert_snapshot, cache_snapshot,
  compute_root_from_store, root_from,
}
use kora.Qmdb.Root.{transition}
use kora.App.{
  Platform, RevmApplication, BlockContext, ExecutionOutcome, block_context, compute_base_fee,
  next_fee, get_prevrandao, collect_pending_tx_ids, record_block_fees, note_verified, bytes_of,
  as_txs, digest_of, parent_of, tx_id, root_over, with_ledger, ids, is_catching_up,
}
use kora.App.Build.{
  Built, built, no_block, no_fuel, new_block, with_root, with_outcome, with_excluded, with_parent,
  context_of, build_block,
}
use kora.App.Verify.{
  bad_timestamp, verify_block, check_parent, check_outcome, check_root, accept, context_for,
  trust_or_refuse,
}

bytes_of-as_txs : (txs : List (List ℕ)) → bytes_of (as_txs txs) ≡ txs
bytes_of-as_txs [] = refl
bytes_of-as_txs (t ∷ txs) = ap (λ ts. t ∷ ts) (bytes_of-as_txs txs)

module _ (p : Platform) where
  -- Where a block that is built comes from.
  pub record BuiltFrom (app : RevmApplication) (parent : Block) (timestamp : ℕ) (b : Block)
      : Type 0 where
    pub snapshot : Snapshot ChangeSet
    pub held : parent_snapshot app.ledger (digest_of p parent) ≡ some snapshot
    pub txs : List (List ℕ)
    pub outcome : ExecutionOutcome
    pub executed :
        p.execute
          (overlay p.keccak_empty app.ledger.qmdb snapshot.state)
          (context_of p app parent timestamp)
          txs
        ≡ some outcome
    pub root : ℕ
    pub rooted : root_over p app.ledger (digest_of p parent) outcome.changes ≡ some root
    pub block : b ≡ new_block p parent timestamp (get_prevrandao app (digest_of p parent)) root txs

  abbrev Says : RevmApplication → Block → ℕ → RevmApplication × Built → Type 0
  Says app parent timestamp (after, built b) = BuiltFrom app parent timestamp b
  Says app parent timestamp (after, no_block) = Unit {0}
  Says app parent timestamp (after, no_fuel) = Unit {0}

  root-Says :
      (app : RevmApplication) (parent : Block) (timestamp : ℕ) (txs : List (List ℕ))
      (s : Snapshot ChangeSet) (out : ExecutionOutcome) (o : Option ℕ)
      → parent_snapshot app.ledger (digest_of p parent) ≡ some s
      → p.execute
          (overlay p.keccak_empty app.ledger.qmdb s.state)
          (context_of p app parent timestamp)
          txs
        ≡ some out
      → root_over p app.ledger (digest_of p parent) out.changes ≡ o
      → Says app parent timestamp
          (with_root p app parent timestamp txs (context_of p app parent timestamp) out o)
  unfolding block_context
  root-Says app parent timestamp txs s out none h e r = tt
  root-Says app parent timestamp txs s out (some root) h e r = record {
    snapshot = s;
    held = h;
    txs = txs;
    outcome = out;
    executed = e;
    root = root;
    rooted = r;
    block = refl;
  }

  outcome-Says :
      (app : RevmApplication) (parent : Block) (timestamp : ℕ) (txs : List (List ℕ))
      (s : Snapshot ChangeSet) (o : Option ExecutionOutcome)
      → parent_snapshot app.ledger (digest_of p parent) ≡ some s
      → p.execute
          (overlay p.keccak_empty app.ledger.qmdb s.state)
          (context_of p app parent timestamp)
          txs
        ≡ o
      → Says app parent timestamp
          (with_outcome p app parent timestamp txs (context_of p app parent timestamp) o)
  outcome-Says app parent timestamp txs s none h e = tt
  outcome-Says app parent timestamp txs s (some out) h e =
      root-Says app parent timestamp txs s out _ h e refl

  excluded-Says :
      (app : RevmApplication) (parent : Block) (timestamp : ℕ) (s : Snapshot ChangeSet)
      (r : Result (List ℕ))
      → parent_snapshot app.ledger (digest_of p parent) ≡ some s
      → Says app parent timestamp (with_excluded p app parent timestamp s r)
  excluded-Says app parent timestamp s (snapshot_not_found d) h = tt
  excluded-Says app parent timestamp s out_of_fuel h = tt
  excluded-Says app parent timestamp s (found excluded) h =
      outcome-Says app parent timestamp
        (build (tx_id p) (λ id. elem id excluded) app.ledger.mempool app.max_txs) s _ h refl

  parent-Says :
      (fuel : ℕ) (app : RevmApplication) (parent : Block) (timestamp : ℕ)
      (o : Option (Snapshot ChangeSet))
      → parent_snapshot app.ledger (digest_of p parent) ≡ o
      → Says app parent timestamp (with_parent p fuel app parent timestamp o)
  parent-Says fuel app parent timestamp none h = tt
  parent-Says fuel app parent timestamp (some s) h = excluded-Says app parent timestamp s _ h

  pub build_block-BuiltFrom :
      (fuel : ℕ) (app after : RevmApplication) (parent b : Block) (timestamp : ℕ)
      → build_block p fuel app parent timestamp ≡ (after, built b)
      → BuiltFrom app parent timestamp b
  unfolding build_block
  build_block-BuiltFrom fuel app after parent b timestamp e =
      subst (Says app parent timestamp) e (parent-Says fuel app parent timestamp _ refl)

  -- Two nodes that see the same at a block: its snapshot, the store, and what fees are computed of.
  pub record SameView (app other : RevmApplication) (digest : ℕ) : Type 0 where
    pub same_snapshot : parent_snapshot other.ledger digest ≡ parent_snapshot app.ledger digest
    pub same_store : other.ledger.qmdb ≡ app.ledger.qmdb
    pub same_fees : get digest other.block_fees ≡ get digest app.block_fees
    pub same_limit : other.gas_limit ≡ app.gas_limit
    pub same_recipient : other.fee_recipient ≡ app.fee_recipient

  parent_of-new_block :
      (parent : Block) (timestamp prevrandao root : ℕ) (txs : List (List ℕ))
      → parent_of p (new_block p parent timestamp prevrandao root txs) ≡ digest_of p parent
  unfolding Block.digest Block.parent_digest
  parent_of-new_block parent timestamp prevrandao root txs = refl

  same_context :
      (app other : RevmApplication) (height timestamp prevrandao digest : ℕ)
      → SameView app other digest
      → block_context other height timestamp prevrandao digest
        ≡ block_context app height timestamp prevrandao digest
  unfolding block_context compute_base_fee
  same_context app other height timestamp prevrandao digest v =
      rw (v.same_fees, v.same_limit, v.same_recipient) refl

  same_root :
      (app other : RevmApplication) (digest : ℕ) (c : ChangeSet)
      → SameView app other digest
      → root_over p other.ledger digest c ≡ root_over p app.ledger digest c
  unfolding compute_root_from_store parent_snapshot
  same_root app other digest c v =
      ap (root_from (transition p.namespace p.keccak256) c) v.same_snapshot

  -- The specification: the other node accepts the block, and holds its snapshot.
  pub record Accepts (b : Block) (parent : ℕ) (r : RevmApplication × Bool) : Type 0 where
    pub accepted : r.1 ≡ true
    pub snapshot : Snapshot ChangeSet
    pub held : parent_snapshot r.0.ledger (digest_of p b) ≡ some snapshot
    pub rooted : snapshot.state_root ≡ b.state_root
    pub on_parent : snapshot.parent ≡ some parent
    pub contains : snapshot.tx_ids ≡ ids p b.txs

  accept-Accepts :
      (other : RevmApplication) (b : Block) (parent root : ℕ) (s : Snapshot ChangeSet)
      (out : ExecutionOutcome)
      → root ≡ b.state_root
      → parent_of p b ≡ parent
      → Accepts b parent (accept p other b s out root, true)
  unfolding insert_snapshot cache_snapshot insert parent_snapshot lookup note_verified
      record_block_fees
  accept-Accepts other b parent root s out e f = record {
    accepted = refl;
    snapshot = record {
      parent = some (parent_of p b);
      state = merge s.state out.changes;
      state_root = root;
      changes = out.changes;
      tx_ids = ids p b.txs;
    };
    held =
        get-put (digest_of p b) (digest_of p b) _ other.ledger.snapshots.snapshots
        ∙ (rw (==-refl (digest_of p b)) refl);
    rooted = e;
    on_parent = ap some f;
    contains = refl;
  }

  check_root-Accepts :
      (other : RevmApplication) (b : Block) (parent root : ℕ) (s : Snapshot ChangeSet)
      (out : ExecutionOutcome)
      → root ≡ b.state_root
      → parent_of p b ≡ parent
      → Accepts b parent (check_root p other b s out (some root))
  check_root-Accepts other b parent root s out e f =
      let same : (root == b.state_root) ≡ true = rw (← e) (==-refl root) in
      rw same (accept-Accepts other b parent root s out e f)

  -- A block that is not known, with a good timestamp, is checked.
  verify_block-checks :
      (other : RevmApplication) (b : Block) (parent_timestamp : Option ℕ) (now_secs : ℕ)
      → query_state_root other.ledger (digest_of p b) ≡ none
      → bad_timestamp b.timestamp parent_timestamp now_secs ≡ false
      → verify_block p other b parent_timestamp now_secs
        ≡ check_parent p other b (parent_snapshot other.ledger (parent_of p b))
  unfolding verify_block
  verify_block-checks other b parent_timestamp now_secs q t =
      elim (Bool-cases (is_catching_up other b.height)) [
        | inl c ↦ rw (q, c) refl
        | inr c ↦ rw (q, c, t) refl
      ]

  new_block-Accepts :
      (app other : RevmApplication) (parent b : Block) (timestamp now_secs : ℕ)
      (parent_timestamp : Option ℕ) (f : BuiltFrom app parent timestamp b)
      → SameView app other (digest_of p parent)
      → let block =
          new_block p parent timestamp (get_prevrandao app (digest_of p parent)) f.root f.txs in
        query_state_root other.ledger (digest_of p block) ≡ none
        → bad_timestamp block.timestamp parent_timestamp now_secs ≡ false
        → Accepts block (digest_of p parent) (verify_block p other block parent_timestamp now_secs)
  unfolding verify_block Block.digest Block.parent_digest
  new_block-Accepts app other parent b timestamp now_secs parent_timestamp f v q t =
      let prevrandao = get_prevrandao app (digest_of p parent) in
      let block = new_block p parent timestamp prevrandao f.root f.txs in
      let s = f.snapshot in
      let held : parent_snapshot other.ledger (digest_of p parent) ≡ some s =
        v.same_snapshot ∙ f.held in
      let context =
        same_context app other (suc parent.height) timestamp prevrandao (digest_of p parent) v in
      let executed : p.execute (overlay p.keccak_empty other.ledger.qmdb s.state)
            (context_for p other block) (bytes_of block.txs)
          ≡ some f.outcome =
        ap
          (λ x. p.execute (overlay p.keccak_empty other.ledger.qmdb s.state) x (bytes_of block.txs))
          context
        ∙ ap
            (λ x.
              p.execute (overlay p.keccak_empty x s.state) (context_of p app parent timestamp)
                (bytes_of block.txs))
            v.same_store
        ∙ ap
            (p.execute (overlay p.keccak_empty app.ledger.qmdb s.state)
              (context_of p app parent timestamp))
            (bytes_of-as_txs f.txs)
        ∙ f.executed in
      let rooted = same_root app other (digest_of p parent) f.outcome.changes v ∙ f.rooted in
      subst (Accepts block (digest_of p parent))
        (sym (
          verify_block-checks other block parent_timestamp now_secs q t
          ∙ ap (check_parent p other block) held
          ∙ ap (check_outcome p other block s) executed
          ∙ ap (check_root p other block s f.outcome) rooted))
        (check_root-Accepts other block (digest_of p parent) f.root s f.outcome refl refl)

  -- A block that one node builds on a parent is accepted by every node that does not know it yet,
  -- sees the same at the parent (the snapshot, the store and the fees) under the same gas limit and
  -- fee recipient, and finds its timestamp neither before the parent's nor too far ahead of the
  -- clock: the other node's execution gives the root that the block claims, and the node then holds
  -- a snapshot of the block with that root, on the parent, with the block's transactions.
  pub build_block-Accepts :
      (fuel : ℕ) (app after other : RevmApplication) (parent b : Block) (timestamp now_secs : ℕ)
      (parent_timestamp : Option ℕ)
      → build_block p fuel app parent timestamp ≡ (after, built b)
      → SameView app other (digest_of p parent)
      → query_state_root other.ledger (digest_of p b) ≡ none
      → bad_timestamp b.timestamp parent_timestamp now_secs ≡ false
      → Accepts b (digest_of p parent) (verify_block p other b parent_timestamp now_secs)
  build_block-Accepts fuel app after other parent b timestamp now_secs parent_timestamp e v q t =
      let f = build_block-BuiltFrom fuel app after parent b timestamp e in
      subst (λ x. Accepts x (digest_of p parent) (verify_block p other x parent_timestamp now_secs))
        (sym f.block)
        (new_block-Accepts app other parent b timestamp now_secs parent_timestamp f v
          (subst (λ x. query_state_root other.ledger (digest_of p x) ≡ none) f.block q)
          (subst (λ x. bad_timestamp x.timestamp parent_timestamp now_secs ≡ false) f.block t))
