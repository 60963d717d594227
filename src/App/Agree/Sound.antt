-- ===== src/App/Agree/Sound.antt =====
-- What `verify_block` answers, and why.
use kora.Base.{
  ℕ, ◌≡◌, refl, ap, ◌∙◌, inl, inr, Bool, true, false, Option, none, some, arith, ◌==◌, Bool-cases,
  ==→eq,
}
use kora.Qmdb.Changes.{ChangeSet, is_some}
use kora.Domain.Block.{Block}
use kora.Consensus.Snapshot.{Snapshot}
use kora.Ledger.{overlay, parent_snapshot, query_state_root}
use kora.App.{
  Platform, RevmApplication, ExecutionOutcome, note_verified, is_catching_up, bytes_of, digest_of,
  parent_of, root_over,
}
use kora.App.Verify.{
  bad_timestamp, verify_block, check_parent, check_outcome, check_root, accept, trust,
  trust_or_refuse, context_for,
}

module _ (p : Platform) where
  -- A block that was checked: its transactions, executed on the parent's state, give its root.
  pub record Checked (app : RevmApplication) (b : Block) (after : RevmApplication) : Type 0 where
    pub snapshot : Snapshot ChangeSet
    pub outcome : ExecutionOutcome
    pub on_parent : parent_snapshot app.ledger (parent_of p b) ≡ some snapshot
    pub executed :
        p.execute
          (overlay p.keccak_empty app.ledger.qmdb snapshot.state)
          (context_for p app b)
          (bytes_of b.txs)
        ≡ some outcome
    pub rooted : root_over p app.ledger (parent_of p b) outcome.changes ≡ some b.state_root
    pub result : after ≡ accept p app b snapshot outcome b.state_root

  -- The reasons for an answer.
  pub data Verdict (app : RevmApplication) (b : Block) (parent_timestamp : Option ℕ) (now_secs : ℕ)
      : RevmApplication × Bool → Type 0 where
    known :
        is_some (query_state_root app.ledger (digest_of p b)) ≡ true
        → Verdict app b parent_timestamp now_secs (note_verified app b.height, true)
    trusted :
        is_catching_up app b.height ≡ true
        → Verdict app b parent_timestamp now_secs (trust p app b, true)
    checked :
        (after : RevmApplication)
        → Checked app b after
        → (is_catching_up app b.height ≡ false
            → bad_timestamp b.timestamp parent_timestamp now_secs ≡ false)
        → Verdict app b parent_timestamp now_secs (after, true)
    refused :
        is_catching_up app b.height ≡ false
        → is_some (query_state_root app.ledger (digest_of p b)) ≡ false
        → Verdict app b parent_timestamp now_secs (app, false)

  module _ (app : RevmApplication) (b : Block) (parent_timestamp : Option ℕ) (now_secs : ℕ)
      (unknown : is_some (query_state_root app.ledger (digest_of p b)) ≡ false)
      (timely : is_catching_up app b.height ≡ false
        → bad_timestamp b.timestamp parent_timestamp now_secs ≡ false) where
    refuse-Verdict : Verdict app b parent_timestamp now_secs (trust_or_refuse p app b)
    unfolding trust_or_refuse
    refuse-Verdict = elim (Bool-cases (is_catching_up app b.height)) [
      | inl c ↦ rw c (trusted c)
      | inr c ↦ rw c (refused c unknown)
    ]

    root-Verdict :
        (s : Snapshot ChangeSet) (out : ExecutionOutcome) (o : Option ℕ)
        → parent_snapshot app.ledger (parent_of p b) ≡ some s
        → p.execute
            (overlay p.keccak_empty app.ledger.qmdb s.state)
            (context_for p app b)
            (bytes_of b.txs)
          ≡ some out
        → root_over p app.ledger (parent_of p b) out.changes ≡ o
        → Verdict app b parent_timestamp now_secs (check_root p app b s out o)
    root-Verdict s out none h e r = refuse-Verdict
    root-Verdict s out (some root) h e r = elim (Bool-cases (root == b.state_root)) [
      | inl same ↦ rw same (
          checked (accept p app b s out root)
            (record {
              snapshot = s;
              outcome = out;
              on_parent = h;
              executed = e;
              rooted = r ∙ ap some (==→eq root b.state_root same);
              result = ap (accept p app b s out) (==→eq root b.state_root same);
            })
            timely)
      | inr other ↦ rw other refuse-Verdict
    ]

    outcome-Verdict :
        (s : Snapshot ChangeSet) (o : Option ExecutionOutcome)
        → parent_snapshot app.ledger (parent_of p b) ≡ some s
        → p.execute
            (overlay p.keccak_empty app.ledger.qmdb s.state)
            (context_for p app b)
            (bytes_of b.txs)
          ≡ o
        → Verdict app b parent_timestamp now_secs (check_outcome p app b s o)
    outcome-Verdict s none h e = refuse-Verdict
    outcome-Verdict s (some out) h e = root-Verdict s out _ h e refl

    parent-Verdict :
        (o : Option (Snapshot ChangeSet))
        → parent_snapshot app.ledger (parent_of p b) ≡ o
        → Verdict app b parent_timestamp now_secs (check_parent p app b o)
    parent-Verdict none h = refuse-Verdict
    parent-Verdict (some s) h = outcome-Verdict s _ h refl

  -- A block is accepted only if it is known already, or is trusted for its certificate while the
  -- node catches up, or its transactions, executed on the state of the parent's snapshot, give the
  -- root that it claims, its timestamp then being good unless the node catches up; the node's state
  -- afterwards is said in each case. A block is refused only by a node that does not catch up and
  -- does not know it, and this leaves the node as it was.
  pub verify_block-Verdict :
      (app : RevmApplication) (b : Block) (parent_timestamp : Option ℕ) (now_secs : ℕ)
      → Verdict app b parent_timestamp now_secs (verify_block p app b parent_timestamp now_secs)
  unfolding verify_block
  verify_block-Verdict app b parent_timestamp now_secs =
      elim (Bool-cases (is_some (query_state_root app.ledger (digest_of p b)))) [
        | inl k ↦ rw k (known k)
        | inr k ↦ elim (Bool-cases (is_catching_up app b.height)) [
          | inl c ↦
              rw (k, c)
                (parent-Verdict app b parent_timestamp now_secs k (λ n. ground (arith, n, c)) _
                  refl)
          | inr c ↦ elim (Bool-cases (bad_timestamp b.timestamp parent_timestamp now_secs)) [
            | inl t ↦ rw (k, c, t) (refused c k)
            | inr t ↦
                rw (k, c, t) (parent-Verdict app b parent_timestamp now_secs k (λ n. t) _ refl)
          ]
        ]
      ]
