-- ===== src/TxPool/Pool/Insertion.antt =====
-- The insertion into the pool, before its evictions.
use kora.Base.{
  ℕ, ◌<◌, ◌≡◌, refl, sym, ap, ◌∙◌, inl, inr, ◌⊎◌, Bool, true, false, ◌&&◌, List, [], ◌∷◌, ◌++◌,
  Option, none, some, arith, ◌==◌, if◌then◌else◌, Map, get, put, del, ==-refl, get-put, get-del,
  put-put, Bool-cases, u64_max, length,
}
use kora.TxPool.Transaction.{OrderedTransaction}
use kora.TxPool.Queue.{SenderQueue, existing_nonce_tx, is_empty, find_nonce}
use kora.TxPool.Queue
use kora.TxPool.Queue.Invariant.{IsWellFormed, Usable, insert-IsWellFormed}
use kora.TxPool.Queue.Contents.{admits, Inserts, insert_refines, Removes, remove_by_hash_refines}
use kora.TxPool.Pool.{
  PoolInner, queue_for, enqueue, finish, register, remove_by_hash, update_counts, drop_from_queue,
  store_queue, Outcome, ok, err, replacement_underpriced, place_transaction,
}
use kora.TxPool.Pool.Index.{
  at, at_queue, Owned, IsIndexed, existing-empty, existing-nonce, at-put, put-Owned, placed,
  with-IsIndexed, same-IsIndexed, swap-IsIndexed,
}

new-IsWellFormed : (s n : ℕ) → n < u64_max → IsWellFormed (Queue.new s n)
unfolding Queue.new
new-IsWellFormed s n h = record {
  consecutive = tt;
  ascending = tt;
  in_range = omega arith;
  usable = tt;
}

occupied_somewhere :
    (q : SenderQueue)
    → is_empty q ≡ false
    → (n : ℕ) × (t : OrderedTransaction) × (existing_nonce_tx q n ≡ some t)
unfolding is_empty existing_nonce_tx find_nonce
occupied_somewhere q e = go q.pending q.queued e
  where
    go :
        (xs ys : List OrderedTransaction)
        → (length xs == 0 && length ys == 0) ≡ false
        → (n : ℕ) × (t : OrderedTransaction) × (find_nonce n (xs ++ ys) ≡ some t)
    go [] [] h = cc
    go [] (y ∷ ys) h = (y.nonce, y, ground arith)
    go (x ∷ xs) ys h = (x.nonce, x, ground arith)

occupied-at :
    (q : SenderQueue) (n : ℕ) (t : OrderedTransaction)
    → existing_nonce_tx q n ≡ some t
    → is_empty q ≡ false
occupied-at q n t e = elim (Bool-cases (is_empty q)) [
  | inl empty ↦ let lost : none ≡ some t = sym (existing-empty q n empty) ∙ e in cc
  | inr full ↦ full
]

abbrev pub hash_of : Option OrderedTransaction → Option ℕ
hash_of none = none
hash_of (some t) = some t.hash

-- The specification of a placement: an accepted transaction takes its nonce and registers, with
-- the hash of the one it replaced; a refused one leaves every queue and the index as they are.
pub record Places (inner : PoolInner) (tx : OrderedTransaction) (accepted : Bool)
    (r : PoolInner × Option ℕ × Outcome) : Type 0 where
  pub indexed : IsIndexed r.0.by_hash r.0.by_sender
  pub contents :
      (s n : ℕ)
      → at r.0.by_sender s n ≡ (
          if accepted && ((s == tx.sender) && (n == tx.nonce))
          then some tx
          else at inner.by_sender s n)
  pub replaced : r.1 ≡ (if accepted then hash_of (at inner.by_sender tx.sender tx.nonce) else none)
  pub outcome : r.2 ≡ (if accepted then ok else err replacement_underpriced)

module _ (inner : PoolInner) (tx : OrderedTransaction) (i : IsIndexed inner.by_hash inner.by_sender)
    (u : Usable tx) where
  -- The queue that receives the transaction, new or not.
  pub record Receives (q : SenderQueue) : Type 0 where
    pub formed : IsWellFormed q
    pub contents : (n : ℕ) → existing_nonce_tx q n ≡ at inner.by_sender tx.sender n
    pub owner :
        (n : ℕ) (t : OrderedTransaction) → existing_nonce_tx q n ≡ some t → t.sender ≡ tx.sender
    pub open_or_occupied : (is_empty q ≡ false) ⊎ (admits q tx ≡ true)

  pub queue_for-Receives :
      (o : Option SenderQueue) → get tx.sender inner.by_sender ≡ o → Receives (queue_for o tx)
  unfolding existing_nonce_tx Queue.new find_nonce
  queue_for-Receives none e = record {
    formed = new-IsWellFormed tx.sender tx.nonce u;
    contents = λ n. sym (ap (λ o. at_queue o n) e);
    owner = λ n t p. cc;
    open_or_occupied = inr (ground arith);
  }
  queue_for-Receives (some q) e =
      let own = i.owned tx.sender q e in
      record {
        formed = own.formed;
        contents = λ n. sym (ap (λ o. at_queue o n) e);
        owner = own.owner;
        open_or_occupied = inl own.occupied;
      }

  insert-Owned : (q : SenderQueue) → Receives q → Owned tx.sender (Queue.insert q tx).0
  insert-Owned q k =
      let spec = insert_refines q tx k.formed in
      record {
        formed = insert-IsWellFormed q tx k.formed u;
        occupied = elim (Bool-cases (admits q tx)) [
          | inl accepted ↦
              occupied-at (Queue.insert q tx).0 tx.nonce tx (ground (arith, spec.contents tx.nonce))
          | inr refused ↦ elim k.open_or_occupied [
            | inl full ↦
                let (n, t, e) = occupied_somewhere q full in
                occupied-at (Queue.insert q tx).0 n t (ground (arith, spec.contents n))
            | inr accepted ↦ cc
          ]
        ];
        owner = λ n t e. ground (arith, spec.contents n, k.owner n t);
      }

  indexed-at :
      (q : SenderQueue) (n : ℕ) (t : OrderedTransaction)
      → Receives q
      → existing_nonce_tx q n ≡ some t
      → get t.hash inner.by_hash ≡ some t
  indexed-at q n t k e =
      let there = sym (k.contents n) ∙ e in
      i.indexed t (placed inner.by_hash inner.by_sender i tx.sender n t there).2

  -- The queue that a refusal leaves, and the one that a success leaves.
  module _ (q : SenderQueue) (k : Receives q) (r : SenderQueue × Option OrderedTransaction)
      (spec : Inserts q tx r) (own : Owned tx.sender r.0) where
    abbrev after : Map SenderQueue
    after = put tx.sender r.0 inner.by_sender

    after-Owned : (s : ℕ) (p : SenderQueue) → get s after ≡ some p → Owned s p
    after-Owned = put-Owned tx.sender r.0 inner.by_sender i.owned own

    at-after :
        (s n : ℕ)
        → at after s n ≡ (
            if admits q tx && ((s == tx.sender) && (n == tx.nonce))
            then some tx
            else at inner.by_sender s n)
    at-after s n =
        ground (arith, at-put tx.sender r.0 inner.by_sender s n, spec.contents n, k.contents n)

    -- The transaction whose place is taken is not in the queue any more.
    gone :
        (old : OrderedTransaction)
        → admits q tx ≡ true
        → get tx.hash inner.by_hash ≡ none
        → existing_nonce_tx q tx.nonce ≡ some old
        → Queue.remove_by_hash r.0 old.hash ≡ (r.0, none)
    gone old accepted fresh there =
        go (Queue.remove_by_hash r.0 old.hash) (remove_by_hash_refines r.0 old.hash own.formed)
      where
        go :
            (r' : SenderQueue × Option OrderedTransaction)
            → Removes r.0 old.hash r'
            → r' ≡ (r.0, none)
        go (q', none) (same, absent) = rw same refl
        go (q', some x) (same_hash, found, rest) = ground (
          arith,
          spec.contents x.nonce,
          indexed-at q x.nonce x k,
          indexed-at q tx.nonce old k there,
          existing-nonce q tx.nonce old there,
        )

    dropped :
        (old : OrderedTransaction)
        → admits q tx ≡ true
        → get tx.hash inner.by_hash ≡ none
        → existing_nonce_tx q tx.nonce ≡ some old
        → drop_from_queue old old.hash after ≡ after
    unfolding drop_from_queue store_queue
    dropped old accepted fresh there =
        let mine = k.owner tx.nonce old there in
        let stored : get tx.sender after ≡ some r.0 =
          ground (arith, get-put tx.sender tx.sender r.0 inner.by_sender) in
        rw (mine, drop_from_queue, stored, gone old accepted fresh there, store_queue, own.occupied)
          (ap (λ s. put s r.0 after) mine ∙ put-put tx.sender r.0 inner.by_sender)

    module _ (id_of : List ℕ → ℕ) (fresh : get tx.hash inner.by_hash ≡ none) where
      pub finish-Places :
          (o : Option OrderedTransaction)
          → r.1 ≡ o
          → Places inner tx (admits q tx) (finish id_of (record inner { by_sender = after }) tx o)
      unfolding finish register remove_by_hash update_counts
      finish-Places none e =
          let accepted : admits q tx ≡ true = ground (arith, spec.out, e) in
          let free : existing_nonce_tx q tx.nonce ≡ none = ground (arith, spec.out, e) in
          record {
            indexed =
                with-IsIndexed inner.by_hash _ inner.by_sender _ i after-Owned tx fresh
                  (sym (k.contents tx.nonce) ∙ free) (λ s n. ground (arith, at-after s n, accepted))
                  (λ h. get-put h tx.hash tx inner.by_hash);
            contents = at-after;
            replaced = ground (arith, accepted, free, k.contents tx.nonce);
            outcome = rw accepted refl;
          }
      finish-Places (some old) e = elim (Bool-cases (admits q tx)) [
        | inl accepted ↦
            let there : existing_nonce_tx q tx.nonce ≡ some old = ground (arith, spec.out, e) in
            let found = indexed-at q tx.nonce old k there in
            let differs : (old.hash == tx.hash) ≡ false = ground (arith, found, fresh) in
            let rest = dropped old accepted fresh there in
            let spot = sym (k.contents tx.nonce) ∙ there in
            rw (finish, differs, register, remove_by_hash, found, rest)
              (record {
                indexed =
                    swap-IsIndexed inner.by_hash _ inner.by_sender _ i after-Owned tx old fresh spot
                      (λ s n. ground (arith, at-after s n, accepted))
                      (λ h. ground (
                        arith,
                        get-put h tx.hash tx (del old.hash inner.by_hash),
                        get-del h old.hash inner.by_hash,
                      ));
                contents = at-after;
                replaced = ground (arith, accepted, spot);
                outcome = rw accepted refl;
              })
        | inr refused ↦
            let same : old ≡ tx = ground (arith, spec.out, e) in
            rw (finish, same, ==-refl tx.hash)
              (record {
                indexed =
                    same-IsIndexed inner.by_hash inner.by_hash inner.by_sender _ i after-Owned
                      (λ s n. ground (arith, at-after s n, refused));
                contents = at-after;
                replaced = rw refused refl;
                outcome = rw refused refl;
              })
      ]

-- In a pool whose index and queues agree, placing a transaction with a fresh hash and a nonce below
-- the maximal one writes it at its sender and nonce if the nonce is not below the sender's next and
-- the nonce is free or its holder has a lower price, and reports the hash of that holder; else it
-- changes no queue's contents and reports an underpriced replacement. The index and the queues
-- agree afterwards.
pub place_transaction_refines :
    (id_of : List ℕ → ℕ) (inner : PoolInner) (tx : OrderedTransaction)
    → IsIndexed inner.by_hash inner.by_sender
    → Usable tx
    → get tx.hash inner.by_hash ≡ none
    → Places inner tx
        (admits (queue_for (get tx.sender inner.by_sender) tx) tx)
        (place_transaction id_of inner tx)
unfolding place_transaction enqueue
place_transaction_refines id_of inner tx i u fresh =
    let q = queue_for (get tx.sender inner.by_sender) tx in
    let k : Receives inner tx i u q =
      queue_for-Receives inner tx i u (get tx.sender inner.by_sender) refl in
    finish-Places inner tx i u q k (Queue.insert q tx) (insert_refines q tx k.formed)
      (insert-Owned inner tx i u q k) id_of fresh (Queue.insert q tx).1 refl
