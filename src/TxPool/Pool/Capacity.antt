-- ===== src/TxPool/Pool/Capacity.antt =====
-- The counts of the pool, and the evictions that hold them to the limits.
use kora.Base.{
  ℕ, zero, suc, ◌≤◌, ◌<◌, ◌≡◌, refl, ap, ◌∙◌, inl, inr, List, some, arith, ltb, Map, Sorted, get,
  del, sum_by, Option-cases, Bool-cases, put-KeysFrom, del-KeysFrom,
}
use kora.TxPool.Transaction.{OrderedTransaction}
use kora.TxPool.Queue.{SenderQueue, is_empty, pending_count, queued_count}
use kora.TxPool.Queue
use kora.TxPool.Config.{PoolConfig}
use kora.TxPool.Pool.{
  PoolInner, drop_from_queue, values, store_queue, gather, lowest, remove_by_hash, update_counts,
  evict, evict_lowest_pending, evict_lowest_queued, evict_pending_loop, evict_queued_loop, shrink,
}
use kora.TxPool.Pool.Index.{IsIndexed}
use kora.TxPool.Pool.Removal.{remove_by_hash-IsIndexed}
use kora.TxPool.Pool.Counts.{lowest-All, lowest-none, length-gather}
use kora.TxPool.Pool.Members.{
  PendingAt, QueuedAt, All-pending-PendingAt, All-queued-QueuedAt, pending_eviction-lowers,
  queued_eviction-lowers,
}

-- The pool's invariant: its index and queues agree, and the counts are those of the queues.
pub record IsConsistent (inner : PoolInner) : Type 0 where
  pub indexed : IsIndexed inner.by_hash inner.by_sender
  pub sorted : Sorted inner.by_sender
  pub pending_sum : inner.pending_count ≡ sum_by pending_count (values inner.by_sender)
  pub queued_sum : inner.queued_count ≡ sum_by queued_count (values inner.by_sender)

pub store_queue-Sorted :
    (s : ℕ) (q : SenderQueue) (m : Map SenderQueue) → Sorted m → Sorted (store_queue s q m)
unfolding store_queue
store_queue-Sorted s q m k = elim (Bool-cases (is_empty q)) [
  | inl empty ↦ rw (store_queue, empty) (del-KeysFrom 0 s m k)
  | inr full ↦ rw (store_queue, full) (put-KeysFrom 0 s q m (omega arith) k)
]

drop_from_queue-Sorted :
    (t : OrderedTransaction) (h : ℕ) (m : Map SenderQueue)
    → Sorted m
    → Sorted (drop_from_queue t h m)
unfolding drop_from_queue
drop_from_queue-Sorted t h m k = elim (Option-cases (get t.sender m)) [
  | inl e ↦ rw (drop_from_queue, e) k
  | inr (q, e) ↦
      rw (drop_from_queue, e) (store_queue-Sorted t.sender (Queue.remove_by_hash q h).0 m k)
]

module _ (id_of : List ℕ → ℕ) where
  pub remove_by_hash-Sorted :
      (inner : PoolInner) (h : ℕ)
      → Sorted inner.by_sender
      → Sorted (remove_by_hash id_of inner h).0.by_sender
  unfolding remove_by_hash
  remove_by_hash-Sorted inner h k = elim (Option-cases (get h inner.by_hash)) [
    | inl e ↦ rw (remove_by_hash, e) k
    | inr (t, e) ↦ rw (remove_by_hash, e) (drop_from_queue-Sorted t h inner.by_sender k)
  ]

  pub update_counts-IsConsistent :
      (inner : PoolInner)
      → IsIndexed inner.by_hash inner.by_sender
      → Sorted inner.by_sender
      → IsConsistent (update_counts inner)
  unfolding update_counts
  update_counts-IsConsistent inner i k = record {
    indexed = i;
    sorted = k;
    pending_sum = refl;
    queued_sum = refl;
  }

  -- What one eviction does where the pool holds the candidate.
  evict-some :
      (xs : List OrderedTransaction) (inner : PoolInner) (t : OrderedTransaction)
      → lowest xs ≡ some t
      → get t.hash inner.by_hash ≡ some t
      → ((evict id_of xs inner).1 ≡ some t)
        × ((evict id_of xs inner).0.by_sender ≡ drop_from_queue t t.hash inner.by_sender)
        × ((evict id_of xs inner).0.by_hash ≡ del t.hash inner.by_hash)
  unfolding evict remove_by_hash update_counts
  evict-some xs inner t e g = (
    rw (evict, e, remove_by_hash, g) refl,
    rw (evict, e, remove_by_hash, g) refl,
    rw (evict, e, remove_by_hash, g) refl,
  )

  evict-IsConsistent :
      (xs : List OrderedTransaction) (inner : PoolInner)
      → IsConsistent inner
      → IsConsistent (evict id_of xs inner).0
  unfolding evict
  evict-IsConsistent xs inner c = elim (Option-cases (lowest xs)) [
    | inl e ↦ rw (evict, e) c
    | inr (t, e) ↦
        rw (evict, e)
          (update_counts-IsConsistent (remove_by_hash id_of inner t.hash).0
            (remove_by_hash-IsIndexed id_of inner t.hash c.indexed)
            (remove_by_hash-Sorted inner t.hash c.sorted))
  ]

  -- A pending eviction finds a transaction where there is one, and the count goes down.
  pub evict_pending_step :
      (inner : PoolInner)
      → IsConsistent inner
      → 0 < inner.pending_count
      → let r = evict_lowest_pending id_of inner in
        (t : OrderedTransaction) × (r.1 ≡ some t)
        × IsConsistent r.0
        × (r.0.pending_count < inner.pending_count)
        × (r.0.by_hash ≡ del t.hash inner.by_hash)
  unfolding evict_lowest_pending pending_count
  evict_pending_step inner c h =
      let xs = gather (λ q. q.pending) inner.by_sender in
      elim (Option-cases (lowest xs)) [
        | inl e ↦
            let size = lowest-none xs e in
            let sum = length-gather (λ q. q.pending) inner.by_sender in
            let total = c.pending_sum in let lost : 0 < 0 = omega arith in elim lost [ ]
        | inr (t, e) ↦
            let p =
              lowest-All (PendingAt inner.by_hash inner.by_sender) xs t
                (All-pending-PendingAt inner.by_hash inner.by_sender c.indexed c.sorted) e in
            let (out, state, index) = evict-some xs inner t e p.indexed in
            let c' = evict-IsConsistent xs inner c in
            let lower =
              pending_eviction-lowers inner.by_hash inner.by_sender c.indexed c.sorted t p in
            let total = ap (λ m. sum_by pending_count (values m)) state in
            let now = c'.pending_sum in
            let before = c.pending_sum in (t, out, c', omega arith, index)
      ]

  pub evict_queued_step :
      (inner : PoolInner)
      → IsConsistent inner
      → 0 < inner.queued_count
      → let r = evict_lowest_queued id_of inner in
        (t : OrderedTransaction) × (r.1 ≡ some t)
        × IsConsistent r.0
        × (r.0.queued_count < inner.queued_count)
        × (r.0.pending_count ≡ inner.pending_count)
        × (r.0.by_hash ≡ del t.hash inner.by_hash)
  unfolding evict_lowest_queued pending_count queued_count
  evict_queued_step inner c h =
      let xs = gather (λ q. q.queued) inner.by_sender in
      elim (Option-cases (lowest xs)) [
        | inl e ↦
            let size = lowest-none xs e in
            let sum = length-gather (λ q. q.queued) inner.by_sender in
            let total = c.queued_sum in let lost : 0 < 0 = omega arith in elim lost [ ]
        | inr (t, e) ↦
            let p =
              lowest-All (QueuedAt inner.by_hash inner.by_sender) xs t
                (All-queued-QueuedAt inner.by_hash inner.by_sender c.indexed c.sorted) e in
            let (out, state, index) = evict-some xs inner t e p.indexed in
            let c' = evict-IsConsistent xs inner c in
            let (lower, same) =
              queued_eviction-lowers inner.by_hash inner.by_sender c.indexed c.sorted t p in
            let total = ap (λ m. sum_by queued_count (values m)) state in
            let pending = ap (λ m. sum_by pending_count (values m)) state in
            let now = c'.queued_sum in
            let before = c.queued_sum in
            let now_pending = c'.pending_sum in
            let before_pending = c.pending_sum in (t, out, c', omega arith, omega arith, index)
      ]

  pub evict_pending_loop-fits :
      (fuel limit : ℕ) (inner : PoolInner)
      → IsConsistent inner
      → inner.pending_count ≤ fuel
      → let r = (evict_pending_loop id_of fuel limit inner).0 in
        IsConsistent r × (r.pending_count ≤ limit)
  unfolding evict_pending_loop
  evict_pending_loop-fits zero limit inner c h = (c, omega arith)
  evict_pending_loop-fits (suc fuel) limit inner c h =
      elim (Bool-cases (ltb limit inner.pending_count)) [
        | inr fits ↦ rw (evict_pending_loop, fits) (c, ground (arith, fits))
        | inl over ↦
            let (t, out, c', lower, _) = evict_pending_step inner c (ground (arith, over)) in
            rw (evict_pending_loop, over, out)
              (evict_pending_loop-fits fuel limit (evict_lowest_pending id_of inner).0 c'
                (omega arith))
      ]

  evict_queued_loop-fits :
      (fuel limit : ℕ) (inner : PoolInner)
      → IsConsistent inner
      → inner.queued_count ≤ fuel
      → let r = (evict_queued_loop id_of fuel limit inner).0 in
        IsConsistent r × (r.queued_count ≤ limit) × (r.pending_count ≡ inner.pending_count)
  unfolding evict_queued_loop
  evict_queued_loop-fits zero limit inner c h = (c, omega arith, refl)
  evict_queued_loop-fits (suc fuel) limit inner c h =
      elim (Bool-cases (ltb limit inner.queued_count)) [
        | inr fits ↦ rw (evict_queued_loop, fits) (c, ground (arith, fits), refl)
        | inl over ↦
            let (t, out, c', lower, same, _) = evict_queued_step inner c (ground (arith, over)) in
            let inner' = (evict_lowest_queued id_of inner).0 in
            let (k, fits, kept) = evict_queued_loop-fits fuel limit inner' c' (omega arith) in
            rw (evict_queued_loop, over, out) (k, fits, kept ∙ same)
      ]

  -- From any consistent state the evictions end within both limits: the count at the start is
  -- fuel enough for each loop, and the queued evictions leave the pending count alone.
  pub shrink-fits :
      (config : PoolConfig) (inner : PoolInner)
      → IsConsistent inner
      → let r = (shrink id_of config inner).0 in
        IsConsistent r
        × (r.pending_count ≤ config.max_pending_txs)
        × (r.queued_count ≤ config.max_queued_txs)
  unfolding shrink
  shrink-fits config inner c =
      let a = (evict_pending_loop id_of inner.pending_count config.max_pending_txs inner).0 in
      let (k, fits) =
        evict_pending_loop-fits inner.pending_count config.max_pending_txs inner c (omega arith) in
      let (last, fits_queued, same) =
        evict_queued_loop-fits a.queued_count config.max_queued_txs a k (omega arith) in
      (last, omega arith, fits_queued)
