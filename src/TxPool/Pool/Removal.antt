-- ===== src/TxPool/Pool/Removal.antt =====
-- Removal by hash from the pool.
use kora.Base.{
  ℕ, ◌≡◌, refl, sym, ap, ◌∙◌, inl, inr, false, ◌&&◌, List, Option, none, some, arith, ◌==◌,
  if◌then◌else◌, Map, get, get-del, Option-cases,
}
use kora.TxPool.Transaction.{OrderedTransaction}
use kora.TxPool.Queue.{SenderQueue, existing_nonce_tx, is_empty}
use kora.TxPool.Queue
use kora.TxPool.Queue.Removal.{remove_by_hash-IsWellFormed}
use kora.TxPool.Queue.Contents.{Removes, remove_by_hash_refines}
use kora.TxPool.Pool.{PoolInner, drop_from_queue, remove_by_hash}
use kora.TxPool.Pool.Index.{
  at, at_queue, Owned, IsIndexed, at-store_queue, store_queue-Owned, without-IsIndexed, placed,
}

module _ (by_hash : Map OrderedTransaction) (by_sender : Map SenderQueue)
    (i : IsIndexed by_hash by_sender) (h : ℕ) (t : OrderedTransaction) (q : SenderQueue)
    (e : get h by_hash ≡ some t) (g : get t.sender by_sender ≡ some q) where
  in_queue : existing_nonce_tx q t.nonce ≡ some t
  in_queue = ap (λ o. at_queue o t.nonce) (sym g) ∙ (i.held h t e).1

  -- What the queue's own removal takes out is the transaction of the index.
  removed :
      (r : SenderQueue × Option OrderedTransaction)
      → Removes q h r
      → (m : ℕ) → existing_nonce_tx r.0 m ≡ (if m == t.nonce then none else existing_nonce_tx q m)
  removed (q', none) (same, absent) m = elim (absent t.nonce t in_queue (i.held h t e).0) [ ]
  removed (q', some x) (k, f, c) m =
      let own = (i.owned t.sender q g).owner x.nonce x f in
      let found =
        i.indexed x (ap (λ s. at by_sender s x.nonce) own ∙ ap (λ o. at_queue o x.nonce) g ∙ f) in
      let same : x ≡ t = ground (arith, found) in ground (arith, c m)

  queue-Owned :
      (r : SenderQueue × Option OrderedTransaction)
      → ((m : ℕ) → existing_nonce_tx r.0 m ≡ (if m == t.nonce then none else existing_nonce_tx q m))
      → Queue.Invariant.IsWellFormed r.0
      → is_empty r.0 ≡ false
      → Owned t.sender r.0
  queue-Owned r c w f = record {
    formed = w;
    occupied = f;
    owner = λ n x p. (i.owned t.sender q g).owner n x (ground (arith, c n));
  }

-- Removing by hash keeps the pool's index by hash and its queues in agreement: every queue stays
-- well formed, not empty and its sender's, and the index holds exactly the transactions of the
-- queues.
pub remove_by_hash-IsIndexed :
    (id_of : List ℕ → ℕ) (inner : PoolInner) (h : ℕ)
    → IsIndexed inner.by_hash inner.by_sender
    → let r = (remove_by_hash id_of inner h).0 in IsIndexed r.by_hash r.by_sender
unfolding remove_by_hash drop_from_queue
remove_by_hash-IsIndexed id_of inner h i = elim (Option-cases (get h inner.by_hash)) [
  | inl e ↦ rw (remove_by_hash, e) i
  | inr (t, e) ↦ elim (Option-cases (get t.sender inner.by_sender)) [
    | inl f ↦
        let lost : none ≡ some t = ap (λ o. at_queue o t.nonce) (sym f) ∙ (i.held h t e).1 in cc
    | inr (q, g) ↦
        let old = i.owned t.sender q g in
        let r = Queue.remove_by_hash q h in
        let c =
          removed inner.by_hash inner.by_sender i h t q e g r
            (remove_by_hash_refines q h old.formed) in
        let w = remove_by_hash-IsWellFormed q h old.formed in
        let k = (i.held h t e).0 in
        rw (remove_by_hash, e, drop_from_queue, g)
          (without-IsIndexed inner.by_hash _ inner.by_sender _ i
            (store_queue-Owned t.sender r.0 inner.by_sender i.owned
              (queue-Owned inner.by_hash inner.by_sender i h t q e g r c w))
            t (ap (λ x. get x inner.by_hash) k ∙ e)
            (λ s n. ground (arith, at-store_queue t.sender r.0 inner.by_sender s n, c n, g))
            (λ x. ground (arith, get-del x h inner.by_hash, k)))
  ]
]

-- The transaction, unless it has the hash.
abbrev pub drop_hash : ℕ → Option OrderedTransaction → Option OrderedTransaction
drop_hash h none = none
drop_hash h (some t) = if t.hash == h then none else some t

pub located :
    (by_hash : Map OrderedTransaction) (by_sender : Map SenderQueue)
    → IsIndexed by_hash by_sender
    → (s n : ℕ) (x : OrderedTransaction) → at by_sender s n ≡ some x
    → (x.sender ≡ s) × (x.nonce ≡ n) × (get x.hash by_hash ≡ some x)
located by_hash by_sender i s n x e =
    let (a, b, c) = placed by_hash by_sender i s n x e in (a, b, i.indexed x c)

-- The place of the transaction with the hash is its sender and nonce.
drop_hash-at :
    (by_hash : Map OrderedTransaction) (by_sender : Map SenderQueue)
    (i : IsIndexed by_hash by_sender) (h s n : ℕ) (t : OrderedTransaction)
    → get h by_hash ≡ some t
    → (if (s == t.sender) && (n == t.nonce) then none else at by_sender s n)
      ≡ drop_hash h (at by_sender s n)
drop_hash-at by_hash by_sender i h s n t e = elim (Option-cases (at by_sender s n)) [
  | inl f ↦ rw f (ground arith)
  | inr (x, f) ↦
      let (a, b, c) = located by_hash by_sender i s n x f in
      let k = i.held h t e in rw f (ground (arith, k, a, b, c, e, f))
]

-- In a pool whose index and queues agree, removing a hash takes the transaction with it out of the
-- queues, and no other.
pub remove_by_hash-at :
    (id_of : List ℕ → ℕ) (inner : PoolInner) (h s n : ℕ)
    → IsIndexed inner.by_hash inner.by_sender
    → at (remove_by_hash id_of inner h).0.by_sender s n ≡ drop_hash h (at inner.by_sender s n)
unfolding remove_by_hash drop_from_queue
remove_by_hash-at id_of inner h s n i = elim (Option-cases (get h inner.by_hash)) [
  | inl e ↦
      rw (remove_by_hash, e)
        (elim (Option-cases (at inner.by_sender s n)) [
          | inl f ↦ rw f refl
          | inr (x, f) ↦
              let (_, _, found) = located inner.by_hash inner.by_sender i s n x f in
              let other : (x.hash == h) ≡ false = ground (arith, found, e) in rw (f, other) refl
        ])
  | inr (t, e) ↦ elim (Option-cases (get t.sender inner.by_sender)) [
    | inl f ↦
        let lost : none ≡ some t = ap (λ o. at_queue o t.nonce) (sym f) ∙ (i.held h t e).1 in cc
    | inr (q, g) ↦
        let old = i.owned t.sender q g in
        let r = Queue.remove_by_hash q h in
        let c =
          removed inner.by_hash inner.by_sender i h t q e g r
            (remove_by_hash_refines q h old.formed) in
        rw (remove_by_hash, e, drop_from_queue, g)
          (ground (arith, at-store_queue t.sender r.0 inner.by_sender s n, c n, g)
            ∙ drop_hash-at inner.by_hash inner.by_sender i h s n t e)
  ]
]
