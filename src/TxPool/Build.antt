-- ===== src/TxPool/Build.antt =====
-- crates/node/txpool/src/pool.rs: the choice of transactions for a block, `build` of `Mempool`.
-- `excluded` is the test for membership in the set of excluded ids.
pub mod Candidate
pub mod Rounds
pub mod Selection
pub mod Chosen
use kora.Base.{
  ℕ, zero, suc, ◌+◌, Bool, true, false, not, List, [], ◌∷◌, map, Option, none, some, Ordering, ltb,
  ◌==◌, if◌then◌else◌, length, drop, saturating_add, Map, get, put,
}
use kora.TxPool.Transaction.{OrderedTransaction, cmp}
use kora.TxPool.Queue.{SenderQueue}
use kora.TxPool.Pool.{PoolInner, ordered_tx_id}

pub record BuildSenderState : Type 0 where
  pub txs : List OrderedTransaction
  pub index : ℕ
  pub expected_nonce : ℕ

-- `BuildSenderState::consume`.
unfoldable pub consume : BuildSenderState → BuildSenderState
consume state = record state {
  expected_nonce = saturating_add state.expected_nonce 1;
  index = suc state.index;
}

unfoldable pub consume_at : ℕ → Map BuildSenderState → Map BuildSenderState
unfolding consume
consume_at sender senders = elim (get sender senders) [
  | none ↦ senders
  | some state ↦ put sender (consume state) senders
]

abbrev pub first_state : SenderQueue → BuildSenderState
first_state queue = record { txs = queue.pending; index = 0; expected_nonce = queue.next_nonce }

-- The senders that `build` starts from: those with pending transactions.
unfoldable pub start : Map SenderQueue → Map BuildSenderState
start [] = []
start ((sender, queue) ∷ m) =
    let rest = start m in
    if length queue.pending == 0 then rest else (sender, first_state queue) ∷ rest

-- `filter_map`: the candidate of a sender joins those of the later ones.
abbrev pub offer : ℕ → Option OrderedTransaction → Map OrderedTransaction → Map OrderedTransaction
offer s none cs = cs
offer s (some tx) cs = (s, tx) ∷ cs

abbrev pub better :
    ℕ × OrderedTransaction → ℕ × OrderedTransaction → Ordering → ℕ × OrderedTransaction
better a b Ordering.gt = b
better a b _ = a

-- `Iterator::min_by`, the first of the least.
unfoldable pub best : Map OrderedTransaction → Option (ℕ × OrderedTransaction)
best [] = none
best ((s, t) ∷ m) = elim (best m) [
  | none ↦ some (s, t)
  | some (r, u) ↦ some (better (s, t) (r, u) (cmp t u))
]

abbrev pub ordered_to_tx : OrderedTransaction → List ℕ
ordered_to_tx tx = tx.envelope

module _ (id_of : List ℕ → ℕ) (excluded : ℕ → Bool) where
  abbrev pub is_excluded : OrderedTransaction → Bool
  is_excluded tx = excluded (ordered_tx_id id_of tx)

  -- The loop of `next_candidate` over the transactions from `index` on: the index and the
  -- expected nonce that it leaves, and the candidate.
  unfoldable pub scan : List OrderedTransaction → ℕ → ℕ → (ℕ × ℕ) × Option OrderedTransaction
  scan [] index expected = ((index, expected), none)
  scan (tx ∷ rest) index expected =
      let behind = scan rest (suc index) expected in
      let passed = scan rest (suc index) (saturating_add tx.nonce 1) in
      if ltb tx.nonce expected
      then behind
      else if ltb expected tx.nonce
      then ((index, expected), none)
      else if is_excluded tx
      then passed
      else ((index, expected), some tx)

  unfoldable pub next_candidate : BuildSenderState → BuildSenderState × Option OrderedTransaction
  unfolding scan
  next_candidate state =
      let ((index, expected), out) =
        scan (drop state.index state.txs) state.index state.expected_nonce in
      (record state { index = index; expected_nonce = expected }, out)

  -- One pass over the senders: their states, and the candidates.
  unfoldable pub candidates : Map BuildSenderState → Map BuildSenderState × Map OrderedTransaction
  unfolding next_candidate
  candidates [] = ([], [])
  candidates ((s, state) ∷ m) =
      let (state', out) = next_candidate state in
      let (m', cs) = candidates m in ((s, state') ∷ m', offer s out cs)

  -- The loop of `build`: each round pushes one transaction, so that the number still wanted is
  -- the measure.
  unfoldable pub build_loop : ℕ → Map BuildSenderState → List OrderedTransaction
  unfolding candidates best consume_at
  build_loop zero senders = []
  build_loop (suc wanted) senders =
      let (senders', cs) = candidates senders in
      elim (best cs) [
        | none ↦ []
        | some (sender, tx) ↦ tx ∷ build_loop wanted (consume_at sender senders')
      ]

  unfoldable pub build : PoolInner → ℕ → List (List ℕ)
  unfolding build_loop start
  build inner max_txs = map ordered_to_tx (build_loop max_txs (start inner.by_sender))
