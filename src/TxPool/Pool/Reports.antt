-- ===== src/TxPool/Pool/Reports.antt =====
-- What `TransactionPool::add` reports.
use kora.Base.{
  ℕ, zero, suc, ◌≡◌, refl, sym, ap, ◌∙◌, inl, inr, Bool, true, false, ◌||◌, List, [], ◌∷◌, ◌++◌,
  Option, none, some, arith, ltb, if◌then◌else◌, get, get-del, Option-cases, Bool-cases, ==-refl,
}
use kora.TxPool.Config.{PoolConfig}
use kora.TxPool.Transaction.{OrderedTransaction}
use kora.TxPool.Queue.Invariant.{Usable}
use kora.TxPool.Queue.Contents.{admits}
use kora.TxPool.Pool.{
  PoolInner, queue_for, place_transaction, refuses, settle, add, Outcome, ok, err, any_hash,
  evict_lowest_pending, evict_lowest_queued, evict_pending_loop, evict_queued_loop, shrink,
}
use kora.TxPool.Pool.Index.{at, IsIndexed}
use kora.TxPool.Pool.Insertion.{Places, place_transaction_refines}
use kora.TxPool.Pool.Capacity.{
  IsConsistent, evict_pending_step, evict_queued_step, evict_pending_loop-fits,
}
use kora.TxPool.Pool.Admission.{fresh_hash, place_transaction-IsConsistent}

abbrev pub is_ok : Outcome → Bool
is_ok ok = true
is_ok (err e) = false

any_hash-append :
    (h : ℕ) (xs ys : List OrderedTransaction)
    → any_hash h (xs ++ ys) ≡ (any_hash h xs || any_hash h ys)
any_hash-append h [] ys = refl
any_hash-append h (x ∷ xs) ys = ground (arith, any_hash-append h xs ys)

module _ (id_of : List ℕ → ℕ) where
  -- The index after a loop: what it took out is gone, the rest is as before.
  pending_loop-index :
      (fuel limit : ℕ) (inner : PoolInner) (h : ℕ)
      → IsConsistent inner
      → let r = evict_pending_loop id_of fuel limit inner in
        get h r.0.by_hash ≡ (if any_hash h r.1 then none else get h inner.by_hash)
  unfolding evict_pending_loop
  pending_loop-index zero limit inner h c = refl
  pending_loop-index (suc fuel) limit inner h c =
      elim (Bool-cases (ltb limit inner.pending_count)) [
        | inr fits ↦ rw (evict_pending_loop, fits) refl
        | inl over ↦
            let (t, out, c', _, index) = evict_pending_step id_of inner c (ground (arith, over)) in
            let rest = pending_loop-index fuel limit (evict_lowest_pending id_of inner).0 h c' in
            let here = ap (get h) index ∙ get-del h t.hash inner.by_hash in
            rw (evict_pending_loop, over, out) (ground (arith, rest, here))
      ]

  queued_loop-index :
      (fuel limit : ℕ) (inner : PoolInner) (h : ℕ)
      → IsConsistent inner
      → let r = evict_queued_loop id_of fuel limit inner in
        get h r.0.by_hash ≡ (if any_hash h r.1 then none else get h inner.by_hash)
  unfolding evict_queued_loop
  queued_loop-index zero limit inner h c = refl
  queued_loop-index (suc fuel) limit inner h c = elim (Bool-cases (ltb limit inner.queued_count)) [
    | inr fits ↦ rw (evict_queued_loop, fits) refl
    | inl over ↦
        let (t, out, c', _, _, index) = evict_queued_step id_of inner c (ground (arith, over)) in
        let rest = queued_loop-index fuel limit (evict_lowest_queued id_of inner).0 h c' in
        let here = ap (get h) index ∙ get-del h t.hash inner.by_hash in
        rw (evict_queued_loop, over, out) (ground (arith, rest, here))
  ]

  shrink-index :
      (config : PoolConfig) (inner : PoolInner) (h : ℕ)
      → IsConsistent inner
      → let r = shrink id_of config inner in
        get h r.0.by_hash ≡ (if any_hash h r.1 then none else get h inner.by_hash)
  unfolding shrink
  shrink-index config inner h c =
      let r = evict_pending_loop id_of inner.pending_count config.max_pending_txs inner in
      let (k, _) =
        evict_pending_loop-fits id_of inner.pending_count config.max_pending_txs inner c
          (omega arith) in
      let s = evict_queued_loop id_of r.0.queued_count config.max_queued_txs r.0 in
      ground (
        arith,
        pending_loop-index inner.pending_count config.max_pending_txs inner h c,
        queued_loop-index r.0.queued_count config.max_queued_txs r.0 h k,
        any_hash-append h r.1 s.1,
      )

  -- A placed transaction is in the index; a refused one is not.
  placed_index :
      (inner : PoolInner) (tx : OrderedTransaction) (accepted : Bool)
      (r : PoolInner × Option ℕ × Outcome)
      → IsIndexed inner.by_hash inner.by_sender
      → get tx.hash inner.by_hash ≡ none
      → Places inner tx accepted r
      → get tx.hash r.0.by_hash ≡ (if is_ok r.2 then some tx else none)
  placed_index inner tx true r i fresh p =
      let here : at r.0.by_sender tx.sender tx.nonce ≡ some tx =
        p.contents tx.sender tx.nonce ∙ (rw (==-refl tx.sender, ==-refl tx.nonce) refl) in
      ground (arith, p.indexed.indexed tx here, p.outcome)
  placed_index inner tx false r i fresh p = elim (Option-cases (get tx.hash r.0.by_hash)) [
    | inl n ↦ ground (arith, n, p.outcome)
    | inr (t, g) ↦
        let (same, there) = p.indexed.held tx.hash t g in
        let old = i.indexed t (sym (p.contents t.sender t.nonce) ∙ there) in
        let lost : none ≡ some t = sym fresh ∙ ap (λ h. get h inner.by_hash) (sym same) ∙ old in cc
  ]

  settle-reports :
      (config : PoolConfig) (tx : OrderedTransaction) (r : PoolInner × Option ℕ × Outcome)
      → IsConsistent r.0
      → get tx.hash r.0.by_hash ≡ (if is_ok r.2 then some tx else none)
      → let s = settle id_of config tx r in
        get tx.hash s.0.by_hash ≡ (if is_ok s.2 then some tx else none)
  unfolding settle
  settle-reports config tx (inner, old, err e) c g = g
  settle-reports config tx (inner, old, ok) c g =
      ground (arith, shrink-index config inner tx.hash c, g)

  -- Where `add` gets past its first checks, it reports success exactly if the pool holds the
  -- transaction in the end: a transaction that was placed and evicted at once is reported as
  -- refused, and so is one that did not outbid its rival.
  pub add-reports :
      (config : PoolConfig) (inner : PoolInner) (tx : OrderedTransaction)
      → IsConsistent inner
      → Usable tx
      → refuses id_of config inner tx ≡ none
      → let s = add id_of config inner tx in
        get tx.hash s.0.by_hash ≡ (if is_ok s.2 then some tx else none)
  unfolding add
  add-reports config inner tx c u g =
      let fresh = fresh_hash id_of config inner tx g in
      let q = queue_for (get tx.sender inner.by_sender) tx in
      let p = place_transaction_refines id_of inner tx c.indexed u fresh in
      rw (add, g)
        (settle-reports config tx (place_transaction id_of inner tx)
          (place_transaction-IsConsistent id_of inner tx c u fresh)
          (placed_index inner tx (admits q tx) (place_transaction id_of inner tx) c.indexed fresh
            p))
