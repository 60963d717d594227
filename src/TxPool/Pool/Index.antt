-- ===== src/TxPool/Pool/Index.antt =====
-- The index of the pool by hash agrees with the queues of the senders.
use kora.Base.{
  ℕ, ◌≡◌, refl, ap, sym, ◌∙◌, inl, inr, ◌⊎◌, true, false, ◌&&◌, List, [], ◌∷◌, ◌++◌, Option, none,
  some, arith, ◌==◌, if◌then◌else◌, Map, get, put, get-put, get-del, Bool-cases, Option-cases,
  ==→eq, length,
}
use kora.TxPool.Transaction.{OrderedTransaction}
use kora.TxPool.Queue.{SenderQueue, existing_nonce_tx, is_empty, find_nonce}
use kora.TxPool.Queue.Nonces.{find_nonce-nonce}
use kora.TxPool.Queue.Invariant.{IsWellFormed}
use kora.TxPool.Pool.{store_queue}

-- The transaction that a sender has at a nonce.
abbrev pub at_queue : Option SenderQueue → ℕ → Option OrderedTransaction
at_queue none n = none
at_queue (some q) n = existing_nonce_tx q n

abbrev pub at : Map SenderQueue → ℕ → ℕ → Option OrderedTransaction
at m s n = at_queue (get s m) n

-- A queue in the map of senders: well formed, not empty, and all its transactions the sender's.
pub record Owned (s : ℕ) (q : SenderQueue) : Type 0 where
  pub formed : IsWellFormed q
  pub occupied : is_empty q ≡ false
  pub owner : (n : ℕ) (t : OrderedTransaction) → existing_nonce_tx q n ≡ some t → t.sender ≡ s

-- The index by hash holds the transactions of the queues, and no others.
pub record IsIndexed (by_hash : Map OrderedTransaction) (by_sender : Map SenderQueue) : Type 0 where
  pub owned : (s : ℕ) (q : SenderQueue) → get s by_sender ≡ some q → Owned s q
  pub indexed :
      (t : OrderedTransaction)
      → at by_sender t.sender t.nonce ≡ some t
      → get t.hash by_hash ≡ some t
  pub held :
      (h : ℕ) (t : OrderedTransaction)
      → get h by_hash ≡ some t
      → (t.hash ≡ h) × (at by_sender t.sender t.nonce ≡ some t)

pub existing-empty : (q : SenderQueue) (n : ℕ) → is_empty q ≡ true → existing_nonce_tx q n ≡ none
unfolding is_empty existing_nonce_tx find_nonce
existing-empty q n e = go q.pending q.queued e
  where
    go :
        (xs ys : List OrderedTransaction)
        → (length xs == 0 && length ys == 0) ≡ true
        → find_nonce n (xs ++ ys) ≡ none
    go [] [] h = refl
    go [] (y ∷ ys) h = ground arith
    go (x ∷ xs) ys h = ground arith

pub existing-nonce :
    (q : SenderQueue) (n : ℕ) (t : OrderedTransaction)
    → existing_nonce_tx q n ≡ some t
    → t.nonce ≡ n
unfolding existing_nonce_tx
existing-nonce q n t e = find_nonce-nonce n (q.pending ++ q.queued) t e

pub at-put :
    (s : ℕ) (q : SenderQueue) (m : Map SenderQueue) (r n : ℕ)
    → at (put s q m) r n ≡ (if r == s then existing_nonce_tx q n else at m r n)
at-put s q m r n = ground (arith, get-put r s q m)

pub at-store_queue :
    (s : ℕ) (q : SenderQueue) (m : Map SenderQueue) (r n : ℕ)
    → at (store_queue s q m) r n ≡ (if r == s then existing_nonce_tx q n else at m r n)
unfolding store_queue
at-store_queue s q m r n = ground (arith, get-put r s q m, get-del r s m, existing-empty q n)

get-store_queue :
    (s : ℕ) (q : SenderQueue) (m : Map SenderQueue) (r : ℕ) (p : SenderQueue)
    → get r (store_queue s q m) ≡ some p
    → ((r ≡ s) × (p ≡ q) × (is_empty q ≡ false)) ⊎ (get r m ≡ some p)
unfolding store_queue
get-store_queue s q m r p e = ground (arith, get-put r s q m, get-del r s m)

-- The queues stay owned where the stored one is, unless it is empty.
pub store_queue-Owned :
    (s : ℕ) (q : SenderQueue) (m : Map SenderQueue)
    → ((r : ℕ) (p : SenderQueue) → get r m ≡ some p → Owned r p)
    → (is_empty q ≡ false → Owned s q)
    → (r : ℕ) (p : SenderQueue) → get r (store_queue s q m) ≡ some p
    → Owned r p
store_queue-Owned s q m all own r p e = elim (get-store_queue s q m r p e) [
  | inl (a, b, c) ↦ rw (a, b) (own c)
  | inr f ↦ all r p f
]

pub put-Owned :
    (s : ℕ) (q : SenderQueue) (m : Map SenderQueue)
    → ((r : ℕ) (p : SenderQueue) → get r m ≡ some p → Owned r p)
    → Owned s q
    → (r : ℕ) (p : SenderQueue) → get r (put s q m) ≡ some p
    → Owned r p
put-Owned s q m all own r p e = elim (Bool-cases (r == s)) [
  | inl same ↦
      let same_queue : q ≡ p = ground (arith, get-put r s q m) in
      rw (==→eq r s same, ← same_queue) own
  | inr other ↦ all r p (ground (arith, get-put r s q m))
]

-- A transaction stands where its sender and nonce say.
pub placed :
    (by_hash : Map OrderedTransaction) (by_sender : Map SenderQueue)
    → IsIndexed by_hash by_sender
    → (s n : ℕ) (t : OrderedTransaction) → at by_sender s n ≡ some t
    → (t.sender ≡ s) × (t.nonce ≡ n) × (at by_sender t.sender t.nonce ≡ some t)
placed by_hash by_sender i s n t e = elim (Option-cases (get s by_sender)) [
  | inl f ↦ let lost : none ≡ some t = ap (λ o. at_queue o n) (sym f) ∙ e in cc
  | inr (q, f) ↦
      let here : existing_nonce_tx q n ≡ some t = ap (λ o. at_queue o n) (sym f) ∙ e in
      let a = (i.owned s q f).owner n t here in
      let b = existing-nonce q n t here in
      (a, b, ap (λ r. at by_sender r t.nonce) a ∙ ap (at by_sender s) b ∙ e)
]

-- The queues and the index without one transaction.
module _ (by_hash by_hash' : Map OrderedTransaction) (by_sender by_sender' : Map SenderQueue)
    (i : IsIndexed by_hash by_sender)
    (all : (r : ℕ) (p : SenderQueue) → get r by_sender' ≡ some p → Owned r p) where
  pub without-IsIndexed :
      (t : OrderedTransaction)
      → get t.hash by_hash ≡ some t
      → ((r n : ℕ)
          → at by_sender' r n
            ≡ (if (r == t.sender) && (n == t.nonce) then none else at by_sender r n))
      → ((h : ℕ) → get h by_hash' ≡ (if h == t.hash then none else get h by_hash))
      → IsIndexed by_hash' by_sender'
  without-IsIndexed t e queues index = record {
    owned = all;
    indexed = λ x p. ground (arith, queues x.sender x.nonce, index x.hash, i.indexed x);
    held = λ h x p. ground (arith, queues x.sender x.nonce, index h, i.held h x, i.held t.hash t e);
  }

  -- The queues and the index with one more transaction, at a nonce that was free.
  pub with-IsIndexed :
      (t : OrderedTransaction)
      → get t.hash by_hash ≡ none
      → at by_sender t.sender t.nonce ≡ none
      → ((r n : ℕ)
          → at by_sender' r n
            ≡ (if (r == t.sender) && (n == t.nonce) then some t else at by_sender r n))
      → ((h : ℕ) → get h by_hash' ≡ (if h == t.hash then some t else get h by_hash))
      → IsIndexed by_hash' by_sender'
  with-IsIndexed t e free queues index = record {
    owned = all;
    indexed = λ x p. ground (arith, queues x.sender x.nonce, index x.hash, i.indexed x);
    held = λ h x p. ground (arith, queues x.sender x.nonce, index h, i.held h x);
  }

  -- Another transaction in the place of one.
  pub swap-IsIndexed :
      (t old : OrderedTransaction)
      → get t.hash by_hash ≡ none
      → at by_sender t.sender t.nonce ≡ some old
      → ((r n : ℕ)
          → at by_sender' r n
            ≡ (if (r == t.sender) && (n == t.nonce) then some t else at by_sender r n))
      → ((h : ℕ)
          → get h by_hash'
            ≡ (if h == t.hash then some t else if h == old.hash then none else get h by_hash))
      → IsIndexed by_hash' by_sender'
  swap-IsIndexed t old e there queues index =
      let (same_sender, same_nonce, here) = placed by_hash by_sender i t.sender t.nonce old there in
      let found = i.indexed old here in
      record {
        owned = all;
        indexed = λ x p. ground (
          arith,
          queues x.sender x.nonce,
          index x.hash,
          i.indexed x,
          found,
          same_sender,
          same_nonce,
        );
        held = λ h x p. ground (arith, queues x.sender x.nonce, index h, i.held h x, found, there);
      }

  -- The same transactions in other queues.
  pub same-IsIndexed :
      ((r n : ℕ) → at by_sender' r n ≡ at by_sender r n) → IsIndexed by_hash by_sender'
  same-IsIndexed queues = record {
    owned = all;
    indexed = λ x p. i.indexed x (sym (queues x.sender x.nonce) ∙ p);
    held = λ h x p. ((i.held h x p).0, queues x.sender x.nonce ∙ (i.held h x p).1);
  }
