-- ===== src/TxPool/Pool/Admission.antt =====
-- `TransactionPool::add` as a whole.
use kora.Base.{
  ℕ, ◌-◌, ◌≤◌, ◌≡◌, refl, sym, ap, ◌∙◌, inl, inr, ◌⊎◌, List, Option, none, some, arith, ◌==◌,
  Sorted, get, put, sum_by, length, Option-cases, Bool-cases, put-KeysFrom, saturating_add_exact,
}
use kora.TxPool.Config.{PoolConfig}
use kora.TxPool.Transaction.{OrderedTransaction}
use kora.TxPool.Queue.{
  SenderQueue, displace, fill, Search, hit, miss, insert_queued, insert_pending, pending_count,
  queued_count,
}
use kora.TxPool.Queue
use kora.TxPool.Queue.Slots.{length-set}
use kora.TxPool.Queue.Invariant.{IsWellFormed, Usable, insert_cases}
use kora.TxPool.Pool.{
  PoolInner, values, queue_for, enqueue, register, finish, place_transaction, update_counts,
  refuses, settle, add, Outcome, ok, err, already_exists,
}
use kora.TxPool.Pool.Counts.{sum-put}
use kora.TxPool.Pool.Insertion.{place_transaction_refines, queue_for-Receives}
use kora.TxPool.Pool.Capacity.{IsConsistent, remove_by_hash-Sorted, shrink-fits}

length-displace :
    (xs : List OrderedTransaction) (i : ℕ) (t : OrderedTransaction)
    → length (displace xs i t).0 ≡ length xs
unfolding displace
length-displace xs i t = ground (arith, length-set xs i t)

abbrev SameSizes :
    SenderQueue → OrderedTransaction → SenderQueue × Option OrderedTransaction → Type 0
SameSizes q o r =
    r.1 ≡ some o → (pending_count r.0 ≡ pending_count q) × (queued_count r.0 ≡ queued_count q)

fill-SameSizes :
    (q : SenderQueue) (t o : OrderedTransaction) (s : Search) → SameSizes q o (fill q t s)
unfolding fill pending_count queued_count
fill-SameSizes q t o (hit i) e = (refl, length-displace q.queued i t)
fill-SameSizes q t o (miss i) e = cc

-- An insertion that hands a transaction back leaves both parts as long as they were.
insert-SameSizes :
    (q : SenderQueue) (t o : OrderedTransaction) → IsWellFormed q → SameSizes q o (Queue.insert q t)
unfolding insert_queued insert_pending pending_count queued_count
insert-SameSizes q t o w =
    insert_cases (SameSizes q o) q t w (λ _ _. (refl, refl)) (λ _ e. cc)
      (λ _. fill-SameSizes q t o _)
      (λ _ _ _. (length-displace q.pending (t.nonce - q.next_nonce) t, refl))

record IsTallied (inner : PoolInner) : Type 0 where
  sorted : Sorted inner.by_sender
  pending_sum : inner.pending_count ≡ sum_by pending_count (values inner.by_sender)
  queued_sum : inner.queued_count ≡ sum_by queued_count (values inner.by_sender)

-- The state of the pool and its two limits.
abbrev pub Fits : PoolConfig → PoolInner → Type 0
Fits config inner =
    IsConsistent inner
    × (inner.pending_count ≤ config.max_pending_txs)
    × (inner.queued_count ≤ config.max_queued_txs)

module _ (id_of : List ℕ → ℕ) where
  -- Where the transaction is refused, the counts of the state are taken as they are.
  finish-IsTallied :
      (inner : PoolInner) (tx : OrderedTransaction) (o : Option OrderedTransaction)
      → Sorted inner.by_sender
      → ((old : OrderedTransaction) → o ≡ some old → IsTallied inner)
      → let r = finish id_of inner tx o in
        IsTallied r.0
        × ((r.2 ≡ ok)
            ⊎ ((r.0.pending_count ≡ inner.pending_count) × (r.0.queued_count ≡ inner.queued_count)))
  unfolding finish register update_counts
  finish-IsTallied inner tx none k f =
      (record { sorted = k; pending_sum = refl; queued_sum = refl }, inl refl)
  finish-IsTallied inner tx (some old) k f = elim (Bool-cases (old.hash == tx.hash)) [
    | inl same ↦ rw (finish, same) (f old refl, inr (refl, refl))
    | inr other ↦
        rw (finish, other)
          (
            record {
              sorted = remove_by_hash-Sorted id_of inner old.hash k;
              pending_sum = refl;
              queued_sum = refl;
            },
            inl refl,
          )
  ]

  -- Where the queue hands a transaction back, it was there before and its counts are the same.
  after-IsTallied :
      (inner : PoolInner) (tx : OrderedTransaction) (q : SenderQueue) (old : OrderedTransaction)
      → IsConsistent inner
      → Sorted (put tx.sender (Queue.insert q tx).0 inner.by_sender)
      → IsWellFormed q
      → get tx.sender inner.by_sender ≡ some q
      → (Queue.insert q tx).1 ≡ some old
      → IsTallied (record inner { by_sender = put tx.sender (Queue.insert q tx).0 inner.by_sender })
  after-IsTallied inner tx q old c k w g e =
      let q' = (Queue.insert q tx).0 in
      let (same_pending, same_queued) = insert-SameSizes q tx old w e in
      let a = sum-put pending_count tx.sender q q' 0 inner.by_sender c.sorted g in
      let b = sum-put queued_count tx.sender q q' 0 inner.by_sender c.sorted g in
      let pending = c.pending_sum in
      let queued = c.queued_sum in
      record { sorted = k; pending_sum = omega arith; queued_sum = omega arith }

  new_accepts :
      (tx old : OrderedTransaction)
      → (Queue.insert (Queue.new tx.sender tx.nonce) tx).1 ≡ some old
      → Usable tx
      → none ≡ some old
  unfolding Queue.insert Queue.new Queue.next_pending_nonce
  new_accepts tx old e u = ground (arith, saturating_add_exact tx.nonce 0, e)

  place_transaction-IsTallied :
      (inner : PoolInner) (tx : OrderedTransaction)
      → IsConsistent inner
      → Usable tx
      → let r = place_transaction id_of inner tx in
        IsTallied r.0
        × ((r.2 ≡ ok)
            ⊎ ((r.0.pending_count ≡ inner.pending_count) × (r.0.queued_count ≡ inner.queued_count)))
  unfolding place_transaction enqueue
  place_transaction-IsTallied inner tx c u =
      let q = queue_for (get tx.sender inner.by_sender) tx in
      let w =
        (queue_for-Receives inner tx c.indexed u (get tx.sender inner.by_sender) refl).formed in
      let inner' : PoolInner = record inner {
        by_sender = put tx.sender (Queue.insert q tx).0 inner.by_sender;
      } in
      let k =
        put-KeysFrom 0 tx.sender (Queue.insert q tx).0 inner.by_sender (omega arith) c.sorted in
      finish-IsTallied inner' tx (Queue.insert q tx).1 k (λ old e.
        elim (Option-cases (get tx.sender inner.by_sender)) [
          | inl g ↦
              let lost : none ≡ some old =
                new_accepts tx old (ap (λ o. (Queue.insert (queue_for o tx) tx).1) (sym g) ∙ e) u in
              cc
          | inr (p, g) ↦
              let same : q ≡ p = ap (λ o. queue_for o tx) g in
              after-IsTallied inner tx q old c k w (g ∙ ap some (sym same)) e
        ])

  pub fresh_hash :
      (config : PoolConfig) (inner : PoolInner) (tx : OrderedTransaction)
      → refuses id_of config inner tx ≡ none
      → get tx.hash inner.by_hash ≡ none
  unfolding refuses
  fresh_hash config inner tx e = elim (Option-cases (get tx.hash inner.by_hash)) [
    | inl n ↦ n
    | inr (t, g) ↦
        let refused : refuses id_of config inner tx ≡ some already_exists = rw (refuses, g) refl in
        cc
  ]

  pub place_transaction-IsConsistent :
      (inner : PoolInner) (tx : OrderedTransaction)
      → IsConsistent inner
      → Usable tx
      → get tx.hash inner.by_hash ≡ none
      → IsConsistent (place_transaction id_of inner tx).0
  place_transaction-IsConsistent inner tx c u fresh =
      let i = (place_transaction_refines id_of inner tx c.indexed u fresh).indexed in
      let (t, _) = place_transaction-IsTallied inner tx c u in
      record {
        indexed = i;
        sorted = t.sorted;
        pending_sum = t.pending_sum;
        queued_sum = t.queued_sum;
      }

  settle-Fits :
      (config : PoolConfig) (inner : PoolInner) (tx : OrderedTransaction)
      (r : PoolInner × Option ℕ × Outcome)
      → Fits config inner
      → IsConsistent r.0
      → ((r.2 ≡ ok)
          ⊎ ((r.0.pending_count ≡ inner.pending_count) × (r.0.queued_count ≡ inner.queued_count)))
      → Fits config (settle id_of config tx r).0
  unfolding settle
  settle-Fits config inner tx (inner', old, err e) (c, p, q) k (inl x) = cc
  settle-Fits config inner tx (inner', old, err e) (c, p, q) k (inr (a, b)) =
      (k, omega arith, omega arith)
  settle-Fits config inner tx (inner', old, ok) f k x = shrink-fits id_of config inner' k

  -- From a consistent pool within its limits, adding a transaction whose nonce is below the
  -- maximal one gives a consistent pool within its limits, on every branch: the index by hash and
  -- the queues agree, the counts are those of the queues, and neither exceeds its limit.
  pub add-Fits :
      (config : PoolConfig) (inner : PoolInner) (tx : OrderedTransaction)
      → Fits config inner
      → Usable tx
      → Fits config (add id_of config inner tx).0
  unfolding add
  add-Fits config inner tx f u = elim (Option-cases (refuses id_of config inner tx)) [
    | inr (e, g) ↦ rw (add, g) f
    | inl g ↦
        let fresh = fresh_hash config inner tx g in
        let k = place_transaction-IsConsistent inner tx f.0 u fresh in
        rw (add, g)
          (settle-Fits config inner tx (place_transaction id_of inner tx) f k
            (place_transaction-IsTallied inner tx f.0 u).1)
  ]
