-- ===== src/TxPool/Methods.antt =====
-- crates/node/txpool/src/pool.rs: the other methods of `TransactionPool`.
-- Time is an argument; metrics are left out; the events are returned.
pub mod Removals
use kora.Base.{
  ℕ, zero, suc, ◌+◌, ◌-◌, ◌≤◌, Bool, true, false, not, ◌&&◌, ◌||◌, List, [], ◌∷◌, ◌++◌, map, Option,
  none, some, Ordering, max, ltb, leb, ◌==◌, if◌then◌else◌, length, take, Map, get, put, del,
  retain,
}
use kora.TxPool.Config.{PoolConfig}
use kora.TxPool.Transaction.{OrderedTransaction, cmp}
use kora.TxPool.Queue.{SenderQueue}
use kora.TxPool.Queue
use kora.TxPool.Pool.{
  PoolInner, Reason, MempoolEvent, tx_evicted, Outcome, ok, err, all_pending, has, remove_by_hash,
  update_counts,
}
use kora.TxPool.Pool

-- `sort` by the order of transactions.
abbrev pub insert_sorted : OrderedTransaction → List OrderedTransaction → List OrderedTransaction
insert_sorted t [] = t ∷ []
insert_sorted t (x ∷ xs) = elim (cmp t x) [ Ordering.gt ↦ x ∷ insert_sorted t xs | _ ↦ t ∷ x ∷ xs ]

abbrev pub sort : List OrderedTransaction → List OrderedTransaction
sort [] = []
sort (t ∷ ts) = insert_sorted t (sort ts)

unfoldable pub pending : PoolInner → ℕ → List OrderedTransaction
pending inner max_txs = take max_txs (sort (all_pending inner.by_sender))

unfoldable pub pending_for_sender : PoolInner → ℕ → List OrderedTransaction
pending_for_sender inner sender = elim (get sender inner.by_sender) [
  | none ↦ []
  | some queue ↦ queue.pending
]

unfoldable pub next_nonce : PoolInner → ℕ → Option ℕ
next_nonce inner sender = elim (get sender inner.by_sender) [
  | none ↦ none
  | some queue ↦ some (Queue.next_pending_nonce queue)
]

-- `TransactionPool::get`.
unfoldable pub lookup : PoolInner → ℕ → Option OrderedTransaction
lookup inner hash = get hash inner.by_hash

unfoldable pub contains : PoolInner → ℕ → Bool
contains inner hash = has (get hash inner.by_hash)

unfoldable pub has_nonce : PoolInner → ℕ → ℕ → Bool
has_nonce inner sender nonce = elim (get sender inner.by_sender) [
  | none ↦ false
  | some queue ↦ has (Queue.existing_nonce_tx queue nonce)
]

unfoldable pub len : PoolInner → ℕ
len inner = length inner.by_hash

unfoldable pub is_empty : PoolInner → Bool
unfolding len
is_empty inner = len inner == 0

abbrev pub keys {ℓ} : {V : Type ℓ} → Map V → List ℕ
keys [] = []
keys ((k, v) ∷ m) = k ∷ keys m

unfoldable pub senders : PoolInner → List ℕ
senders inner = keys inner.by_sender

abbrev pub parts : Map SenderQueue → Map (List OrderedTransaction × List OrderedTransaction)
parts [] = []
parts ((s, q) ∷ m) = (s, (q.pending, q.queued)) ∷ parts m

unfoldable pub snapshot : PoolInner → Map (List OrderedTransaction × List OrderedTransaction)
snapshot inner = parts inner.by_sender

unfoldable pub clear : PoolInner → PoolInner
clear inner = record {
  by_hash = [];
  by_id = [];
  by_sender = [];
  pending_count = 0;
  queued_count = 0;
}

abbrev pub hashes_of : List OrderedTransaction → List ℕ
hashes_of [] = []
hashes_of (t ∷ ts) = t.hash ∷ hashes_of ts

abbrev pub up_to : ℕ → OrderedTransaction → Bool
up_to confirmed t = leb t.nonce confirmed

-- The hashes of a queue's transactions up to the confirmed nonce.
unfoldable pub confirmed_hashes : Option SenderQueue → ℕ → List ℕ
confirmed_hashes none confirmed = []
confirmed_hashes (some queue) confirmed =
    hashes_of (retain (up_to confirmed) (queue.pending ++ queue.queued))

-- What `remove_confirmed` does to the sender's queue.
unfoldable pub confirm_queue : ℕ → ℕ → Map SenderQueue → Map SenderQueue
confirm_queue sender confirmed by_sender = elim (get sender by_sender) [
  | none ↦ by_sender
  | some queue ↦ Pool.store_queue sender (Queue.remove_confirmed queue confirmed) by_sender
]

abbrev pub expired : ℕ → ℕ → OrderedTransaction → Bool
expired now ttl t = ltb ttl (now - t.timestamp)

-- The hashes that `cleanup` collects.
abbrev pub expired_hashes : PoolConfig → ℕ → Map SenderQueue → List ℕ
expired_hashes config now [] = []
expired_hashes config now ((s, q) ∷ m) =
    (hashes_of (retain (expired now config.pending_ttl_secs) q.pending)
      ++ hashes_of (retain (expired now config.queued_ttl_secs) q.queued))
    ++ expired_hashes config now m

-- The confirmed nonces that `prune` collects: the highest of each sender.
abbrev pub note_confirmed : OrderedTransaction → Map ℕ → Map ℕ
note_confirmed t m = elim (get t.sender m) [
  | none ↦ put t.sender t.nonce m
  | some nonce ↦ put t.sender (max nonce t.nonce) m
]

unfoldable pub confirmed_by_sender : PoolInner → List ℕ → Map ℕ → Map ℕ
confirmed_by_sender inner [] m = m
confirmed_by_sender inner (id ∷ ids) m = elim (get id inner.by_id) [
  | none ↦ confirmed_by_sender inner ids m
  | some hash ↦ elim (get hash inner.by_hash) [
    | none ↦ confirmed_by_sender inner ids m
    | some t ↦ confirmed_by_sender inner ids (note_confirmed t m)
  ]
]

-- The first loop over the confirmed nonces: the queues, and the hashes to remove.
unfoldable pub confirm_queues : Map ℕ → Map SenderQueue → Map SenderQueue × List ℕ
confirm_queues [] by_sender = (by_sender, [])
confirm_queues ((sender, confirmed) ∷ m) by_sender = elim (get sender by_sender) [
  | none ↦ confirm_queues m by_sender
  | some queue ↦
      let (rest, hashes) =
        confirm_queues m (put sender (Queue.remove_confirmed queue confirmed) by_sender) in
      (rest, confirmed_hashes (some queue) confirmed ++ hashes)
]

-- The last loop: the senders whose queues are empty go.
unfoldable pub drop_empty : Map ℕ → Map SenderQueue → Map SenderQueue
drop_empty [] by_sender = by_sender
drop_empty ((sender, _) ∷ m) by_sender = elim (get sender by_sender) [
  | none ↦ drop_empty m by_sender
  | some queue ↦ drop_empty m (if Queue.is_empty queue then del sender by_sender else by_sender)
]

module _ (id_of : List ℕ → ℕ) where
  unfoldable pub remove_with_reason :
      PoolInner → ℕ → Reason → PoolInner × List MempoolEvent × Option OrderedTransaction
  remove_with_reason inner hash reason =
      let (inner', out) = remove_by_hash id_of inner hash in
      elim out [
        | none ↦ (inner', [], none)
        | some tx ↦ (update_counts inner', tx_evicted hash reason ∷ [], some tx)
      ]

  unfoldable pub remove : PoolInner → ℕ → PoolInner × List MempoolEvent × Option OrderedTransaction
  unfolding remove_with_reason
  remove inner hash = remove_with_reason inner hash Reason.removed

  -- The loops that remove hashes, with the number of those that were there.
  unfoldable pub remove_all : PoolInner → List ℕ → PoolInner × ℕ
  remove_all inner [] = (inner, 0)
  remove_all inner (h ∷ hs) =
      let (inner', out) = remove_by_hash id_of inner h in
      let (last, n) = remove_all inner' hs in (last, (if has out then suc n else n))

  unfoldable pub remove_confirmed : PoolInner → ℕ → ℕ → PoolInner
  unfolding remove_all confirmed_hashes confirm_queue
  remove_confirmed inner sender confirmed =
      let (inner', _) =
        remove_all inner (confirmed_hashes (get sender inner.by_sender) confirmed) in
      update_counts (record inner' { by_sender = confirm_queue sender confirmed inner'.by_sender })

  unfoldable pub cleanup : PoolConfig → ℕ → PoolInner → PoolInner × ℕ
  unfolding remove_all
  cleanup config now inner =
      let (inner', n) = remove_all inner (expired_hashes config now inner.by_sender) in
      (update_counts inner', n)

  unfoldable pub prune : PoolInner → List ℕ → PoolInner
  unfolding remove_all confirmed_by_sender confirm_queues drop_empty
  prune inner tx_ids =
      let confirmed = confirmed_by_sender inner tx_ids [] in
      let (by_sender, hashes) = confirm_queues confirmed inner.by_sender in
      let (inner', _) = remove_all (record inner { by_sender = by_sender }) hashes in
      update_counts (record inner' { by_sender = drop_empty confirmed inner'.by_sender })
