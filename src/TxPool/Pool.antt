-- ===== src/TxPool/Pool.antt =====
-- crates/node/txpool/src/pool.rs: the pool behind its lock, as a state that each method returns.
-- `HashMap`s are lists in key order; theorems do not depend on the order in which the program
-- meets the entries of one. `id_of` is `Tx::id` on the bytes of an envelope: a hash function of
-- third-party code. Time is an argument. Metrics are left out; events are returned.
pub mod Index
pub mod Removal
pub mod Insertion
pub mod Counts
pub mod Members
pub mod Capacity
pub mod Admission
pub mod Reports
use kora.Base.{
  ℕ, zero, suc, ◌+◌, ◌-◌, Bool, true, false, not, ◌&&◌, ◌||◌, List, [], ◌∷◌, ◌++◌, map, Option,
  none, some, Ordering, compare, ltb, leb, ◌==◌, if◌then◌else◌, length, sum_by, Map, get, put, del,
  retain, u64_max,
}
use kora.TxPool.Transaction.{OrderedTransaction, then_with}
use kora.TxPool.Config.{PoolConfig}
use kora.TxPool.Queue.{
  SenderQueue, existing_nonce_tx, total_count, pending_count, queued_count, is_empty,
}
use kora.TxPool.Queue

pub record PoolInner : Type 0 where
  pub by_hash : Map OrderedTransaction
  pub by_id : Map ℕ
  pub by_sender : Map SenderQueue
  pub pending_count : ℕ
  pub queued_count : ℕ

-- `PoolInner::new`.
unfoldable pub new : PoolInner
new = record { by_hash = []; by_id = []; by_sender = []; pending_count = 0; queued_count = 0 }

-- `HashMap::values`.
abbrev pub values {ℓ} : {V : Type ℓ} → Map V → List V
values [] = []
values ((k, v) ∷ m) = v ∷ values m

unfoldable pub update_counts : PoolInner → PoolInner
update_counts inner = record inner {
  pending_count = sum_by Queue.pending_count (values inner.by_sender);
  queued_count = sum_by Queue.queued_count (values inner.by_sender);
}

-- The queues after one of them loses a transaction: an empty queue goes.
unfoldable pub store_queue : ℕ → SenderQueue → Map SenderQueue → Map SenderQueue
store_queue sender queue by_sender =
    if Queue.is_empty queue then del sender by_sender else put sender queue by_sender

unfoldable pub drop_from_queue : OrderedTransaction → ℕ → Map SenderQueue → Map SenderQueue
unfolding store_queue
drop_from_queue tx hash by_sender = elim (get tx.sender by_sender) [
  | none ↦ by_sender
  | some queue ↦ store_queue tx.sender (Queue.remove_by_hash queue hash).0 by_sender
]

pub data InsertionTarget : Type 0 where
  pending queued replacement : InsertionTarget

unfoldable pub insertion_target : Option SenderQueue → OrderedTransaction → InsertionTarget
insertion_target none tx = pending
insertion_target (some queue) tx = elim (existing_nonce_tx queue tx.nonce) [
  | some _ ↦ replacement
  | none ↦ if tx.nonce == queue.next_nonce + length queue.pending then pending else queued
]

-- crates/node/txpool/src/error.rs.
pub data TxPoolError : Type 0 where
  pool_full : TxPoolError
  sender_full : ℕ → TxPoolError
  tx_too_large : (size max : ℕ) → TxPoolError
  gas_price_too_low : (price min : ℕ) → TxPoolError
  nonce_too_low : (got expected : ℕ) → TxPoolError
  nonce_gap : (got expected : ℕ) → TxPoolError
  insufficient_balance : (need have : ℕ) → TxPoolError
  invalid_chain_id : (got expected : ℕ) → TxPoolError
  invalid_signature : TxPoolError
  decode_error : List ℕ → TxPoolError
  intrinsic_gas_too_low : (limit intrinsic : ℕ) → TxPoolError
  already_exists : TxPoolError
  nonce_already_in_pool : (sender nonce : ℕ) → TxPoolError
  state_error : List ℕ → TxPoolError
  replacement_underpriced : TxPoolError

pub data Reason : Type 0 where
  replaced evicted removed : Reason

-- `MempoolEvent`, the two kinds that the pool sends.
pub data MempoolEvent : Type 0 where
  tx_added : OrderedTransaction → MempoolEvent
  tx_evicted : ℕ → Reason → MempoolEvent

pub data Outcome : Type 0 where
  ok : Outcome
  err : TxPoolError → Outcome

-- The transactions of all queues that `part` chooses from each.
abbrev pub gather :
    (SenderQueue → List OrderedTransaction) → Map SenderQueue → List OrderedTransaction
gather part [] = []
gather part ((s, q) ∷ m) = part q ++ gather part m

abbrev pub all_pending : Map SenderQueue → List OrderedTransaction
all_pending m = gather (λ q. q.pending) m

abbrev pub all_queued : Map SenderQueue → List OrderedTransaction
all_queued m = gather (λ q. q.queued) m

-- `Iterator::min` over the prices.
unfoldable pub min_price : List OrderedTransaction → Option ℕ
min_price [] = none
min_price (t ∷ ts) = elim (min_price ts) [
  | none ↦ some t.effective_gas_price
  | some p ↦ if leb t.effective_gas_price p then some t.effective_gas_price else some p
]

abbrev pub underprices : OrderedTransaction → Option ℕ → Bool
underprices tx none = false
underprices tx (some floor) = leb tx.effective_gas_price floor

unfoldable pub reject_underpriced_when_full :
    PoolConfig → PoolInner → OrderedTransaction → InsertionTarget → Option TxPoolError
reject_underpriced_when_full config inner tx pending =
    if config.max_pending_txs == 0
    then some pool_full
    else if leb config.max_pending_txs inner.pending_count
        && underprices tx (min_price (all_pending inner.by_sender))
    then some pool_full
    else none
reject_underpriced_when_full config inner tx queued =
    if config.max_queued_txs == 0
    then some pool_full
    else if leb config.max_queued_txs inner.queued_count
        && underprices tx (min_price (all_queued inner.by_sender))
    then some pool_full
    else none
reject_underpriced_when_full config inner tx replacement = none

-- The key of `min_by_key`: the lowest price, then the latest arrival, then the hash.
unfoldable pub evict_cmp : OrderedTransaction → OrderedTransaction → Ordering
evict_cmp a b =
    then_with
      (then_with (compare a.effective_gas_price b.effective_gas_price)
        (compare b.timestamp a.timestamp))
      (compare a.hash b.hash)

abbrev pub first_of : OrderedTransaction → OrderedTransaction → Ordering → OrderedTransaction
first_of a b Ordering.gt = b
first_of a b _ = a

-- `Iterator::min_by_key`, the first of the least.
unfoldable pub lowest : List OrderedTransaction → Option OrderedTransaction
lowest [] = none
lowest (t ∷ ts) = elim (lowest ts) [ none ↦ some t | some u ↦ some (first_of t u (evict_cmp t u)) ]

abbrev pub is_replacement : InsertionTarget → Bool
is_replacement replacement = true
is_replacement _ = false

abbrev pub has {ℓ} : {A : Type ℓ} → Option A → Bool
has none = false
has (some a) = true

-- The refusals of `add` that come before it changes anything, in order.
unfoldable pub sender_refuses :
    PoolConfig → OrderedTransaction → InsertionTarget → Option SenderQueue → Option TxPoolError
sender_refuses config tx target none = none
sender_refuses config tx target (some queue) =
    if ltb tx.nonce queue.next_nonce
    then some (nonce_too_low tx.nonce queue.next_nonce)
    else if not (is_replacement target) && leb config.max_txs_per_sender (Queue.total_count queue)
    then some (sender_full tx.sender)
    else none

-- The queue of the sender, or a new one that starts at the transaction's nonce.
abbrev pub queue_for : Option SenderQueue → OrderedTransaction → SenderQueue
queue_for (some queue) tx = queue
queue_for none tx = Queue.new tx.sender tx.nonce

-- The insertion into the queue: the state, and the transaction handed back.
unfoldable pub enqueue : PoolInner → OrderedTransaction → PoolInner × Option OrderedTransaction
enqueue inner tx =
    let (queue, out) = Queue.insert (queue_for (get tx.sender inner.by_sender) tx) tx in
    (record inner { by_sender = put tx.sender queue inner.by_sender }, out)

abbrev pub any_hash : ℕ → List OrderedTransaction → Bool
any_hash h [] = false
any_hash h (t ∷ ts) = (t.hash == h) || any_hash h ts

abbrev pub evictions : List OrderedTransaction → List MempoolEvent
evictions [] = []
evictions (t ∷ ts) = tx_evicted t.hash evicted ∷ evictions ts

abbrev pub events_of : OrderedTransaction → Option ℕ → List OrderedTransaction → List MempoolEvent
events_of tx old out =
    elim old [ none ↦ [] | some h ↦ tx_evicted h replaced ∷ [] ]
    ++ ((if any_hash tx.hash out then [] else tx_added tx ∷ []) ++ evictions out)

module _ (id_of : List ℕ → ℕ) where
  unfoldable pub ordered_tx_id : OrderedTransaction → ℕ
  ordered_tx_id tx = id_of tx.envelope

  -- `PoolInner::remove_by_hash`.
  unfoldable pub remove_by_hash : PoolInner → ℕ → PoolInner × Option OrderedTransaction
  unfolding ordered_tx_id drop_from_queue
  remove_by_hash inner hash = elim (get hash inner.by_hash) [
    | none ↦ (inner, none)
    | some tx ↦ (
      record inner {
        by_hash = del hash inner.by_hash;
        by_id = del (ordered_tx_id tx) inner.by_id;
        by_sender = drop_from_queue tx hash inner.by_sender;
      },
      some tx,
    )
  ]

  -- `evict_lowest_pending` and `evict_lowest_queued`, over the transactions they choose from.
  unfoldable pub evict : List OrderedTransaction → PoolInner → PoolInner × Option OrderedTransaction
  evict candidates inner = elim (lowest candidates) [
    | none ↦ (inner, none)
    | some t ↦ (update_counts (remove_by_hash inner t.hash).0, (remove_by_hash inner t.hash).1)
  ]

  unfoldable pub evict_lowest_pending : PoolInner → PoolInner × Option OrderedTransaction
  unfolding evict
  evict_lowest_pending inner = evict (all_pending inner.by_sender) inner

  unfoldable pub evict_lowest_queued : PoolInner → PoolInner × Option OrderedTransaction
  unfolding evict
  evict_lowest_queued inner = evict (all_queued inner.by_sender) inner

  -- The two loops of `add`, with what they evict. Each round takes one transaction out, so that
  -- the count at the start is fuel enough.
  unfoldable pub evict_pending_loop : ℕ → ℕ → PoolInner → PoolInner × List OrderedTransaction
  evict_pending_loop zero limit inner = (inner, [])
  evict_pending_loop (suc fuel) limit inner = elim (ltb limit inner.pending_count) [
    | false ↦ (inner, [])
    | true ↦
        let (inner', out) = evict_lowest_pending inner in
        let (last, ts) = evict_pending_loop fuel limit inner' in
        elim out [ none ↦ (inner', []) | some t ↦ (last, t ∷ ts) ]
  ]

  unfoldable pub evict_queued_loop : ℕ → ℕ → PoolInner → PoolInner × List OrderedTransaction
  evict_queued_loop zero limit inner = (inner, [])
  evict_queued_loop (suc fuel) limit inner = elim (ltb limit inner.queued_count) [
    | false ↦ (inner, [])
    | true ↦
        let (inner', out) = evict_lowest_queued inner in
        let (last, ts) = evict_queued_loop fuel limit inner' in
        elim out [ none ↦ (inner', []) | some t ↦ (last, t ∷ ts) ]
  ]

  unfoldable pub refuses : PoolConfig → PoolInner → OrderedTransaction → Option TxPoolError
  unfolding sender_refuses ordered_tx_id
  refuses config inner tx =
      let queue = get tx.sender inner.by_sender in
      let target = insertion_target queue tx in
      if has (get tx.hash inner.by_hash) || has (get (ordered_tx_id tx) inner.by_id)
      then some already_exists
      else elim (sender_refuses config tx target queue) [
        | some e ↦ some e
        | none ↦ reject_underpriced_when_full config inner tx target
      ]

  -- The new entries of the two indices, and the counts.
  unfoldable pub register : PoolInner → OrderedTransaction → PoolInner
  register inner tx = update_counts (record inner {
    by_hash = put tx.hash tx inner.by_hash;
    by_id = put (ordered_tx_id tx) tx.hash inner.by_id;
  })

  -- What `add` does with the transaction that the queue handed back.
  unfoldable pub finish :
      PoolInner → OrderedTransaction → Option OrderedTransaction → PoolInner × Option ℕ × Outcome
  unfolding register remove_by_hash
  finish inner tx none = (register inner tx, none, ok)
  finish inner tx (some old) =
      if old.hash == tx.hash
      then (inner, none, err replacement_underpriced)
      else (register (remove_by_hash inner old.hash).0 tx, some old.hash, ok)

  -- `add` up to its evictions: the state, the hash that was replaced, or the refusal.
  unfoldable pub place_transaction : PoolInner → OrderedTransaction → PoolInner × Option ℕ × Outcome
  unfolding enqueue finish
  place_transaction inner tx = let (inner', out) = enqueue inner tx in finish inner' tx out

  -- The evictions of `add`.
  unfoldable pub shrink : PoolConfig → PoolInner → PoolInner × List OrderedTransaction
  shrink config inner =
      let (a, xs) = evict_pending_loop inner.pending_count config.max_pending_txs inner in
      let (b, ys) = evict_queued_loop a.queued_count config.max_queued_txs a in (b, xs ++ ys)

  -- The last part of `add`, where the transaction was placed.
  unfoldable pub settle :
      PoolConfig
      → OrderedTransaction
      → PoolInner × Option ℕ × Outcome
      → PoolInner × List MempoolEvent × Outcome
  unfolding shrink
  settle config tx (inner, old, err e) = (inner, [], err e)
  settle config tx (inner, old, ok) =
      let (last, out) = shrink config inner in
      (last, events_of tx old out, (if any_hash tx.hash out then err pool_full else ok))

  -- `TransactionPool::add`, with the events that it sends.
  unfoldable pub add :
      PoolConfig → PoolInner → OrderedTransaction → PoolInner × List MempoolEvent × Outcome
  unfolding refuses settle place_transaction
  add config inner tx = elim (refuses config inner tx) [
    | some e ↦ (inner, [], err e)
    | none ↦ settle config tx (place_transaction inner tx)
  ]
