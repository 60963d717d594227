-- ===== src/TxPool/Pool/Members.antt =====
-- The transactions that an eviction chooses from, and what taking one out does to the counts.
use kora.Base.{
  ℕ, zero, suc, ◌+◌, ◌<◌, ◌≡◌, refl, ap, ◌∙◌, inl, inr, true, List, [], ◌∷◌, none, some, arith,
  ◌==◌, if◌then◌else◌, Map, Sorted, get, sum_by, length, get_elem?, All, Option-cases,
}
use kora.TxPool.Transaction.{OrderedTransaction}
use kora.TxPool.Queue.{
  SenderQueue, is_empty, existing_nonce_tx, position, remove_at, pending_count, queued_count,
}
use kora.TxPool.Queue
use kora.TxPool.Queue.Nonces.{find_nonce_beyond, Ascending-of_Consecutive}
use kora.TxPool.Queue.Slots.{get_elem?-Ascending}
use kora.TxPool.Queue.Removal.{position-get_elem?, remove_at-Split}
use kora.TxPool.Queue.Contents.{existing, beyond-none, find_nonce-remove_at}
use kora.TxPool.Pool.{drop_from_queue, values, gather}
use kora.TxPool.Pool.Index.{at_queue, IsIndexed, placed}
use kora.TxPool.Pool.Counts.{sum-store_queue, All-gather}

pub All-at {ℓ} :
    (P : OrderedTransaction → Type ℓ) (xs : List OrderedTransaction)
    → ((j : ℕ) (t : OrderedTransaction) → get_elem? xs j ≡ some t → P t)
    → All P xs
All-at P [] f = tt
All-at P (x ∷ xs) f = (f 0 x refl, All-at P xs (λ j. f (suc j)))

position_there :
    (h j : ℕ) (xs : List OrderedTransaction) (t : OrderedTransaction)
    → get_elem? xs j ≡ some t
    → t.hash ≡ h
    → (i : ℕ) × (position h xs ≡ some i)
unfolding position
position_there h j [] t e k = cc
position_there h zero (x ∷ xs) t e k = (0, ground (arith, e, k))
position_there h (suc j) (x ∷ xs) t e k =
    let (i, p) = position_there h j xs t e k in
    (if x.hash == h then 0 else suc i, ground (arith, p))

-- A pending transaction of the pool, as an eviction finds it.
pub record PendingAt (by_hash : Map OrderedTransaction) (by_sender : Map SenderQueue)
    (t : OrderedTransaction) : Type 0 where
  pub queue : SenderQueue
  pub sender_has : get t.sender by_sender ≡ some queue
  pub indexed : get t.hash by_hash ≡ some t
  pub place : ℕ
  pub found : position t.hash queue.pending ≡ some place

-- A queued one.
pub record QueuedAt (by_hash : Map OrderedTransaction) (by_sender : Map SenderQueue)
    (t : OrderedTransaction) : Type 0 where
  pub queue : SenderQueue
  pub sender_has : get t.sender by_sender ≡ some queue
  pub indexed : get t.hash by_hash ≡ some t
  pub not_pending : position t.hash queue.pending ≡ none
  pub place : ℕ
  pub found : position t.hash queue.queued ≡ some place

module _ (by_hash : Map OrderedTransaction) (by_sender : Map SenderQueue)
    (i : IsIndexed by_hash by_sender) where
  module _ (s : ℕ) (q : SenderQueue) (g : get s by_sender ≡ some q) where
    held_tx :
        (n : ℕ) (t : OrderedTransaction)
        → existing_nonce_tx q n ≡ some t
        → (get t.sender by_sender ≡ some q) × (get t.hash by_hash ≡ some t)
    held_tx n t e =
        let (same, _, here) = placed by_hash by_sender i s n t (ap (λ o. at_queue o n) g ∙ e) in
        (ap (λ r. get r by_sender) same ∙ g, i.indexed t here)

    pub pending_tx :
        (j : ℕ) (t : OrderedTransaction)
        → get_elem? q.pending j ≡ some t
        → (existing_nonce_tx q t.nonce ≡ some t) × (t.nonce < q.next_nonce + length q.pending)
    pending_tx j t e =
        let o = (i.owned s q g).formed in
        let up = Ascending-of_Consecutive q.next_nonce q.pending o.consecutive in
        let f = (find_nonce-remove_at q.next_nonce 0 q.pending j t up e).0 in
        (
          existing q t.nonce ∙ (rw f refl),
          ground (arith, f, find_nonce_beyond t.nonce q.next_nonce q.pending o.consecutive),
        )

    pub queued_tx :
        (j : ℕ) (t : OrderedTransaction)
        → get_elem? q.queued j ≡ some t
        → (existing_nonce_tx q t.nonce ≡ some t) × (q.next_nonce + length q.pending < t.nonce)
    queued_tx j t e =
        let o = (i.owned s q g).formed in
        let low = get_elem?-Ascending _ q.queued j t o.ascending e in
        let f = (find_nonce-remove_at _ 0 q.queued j t o.ascending e).0 in
        (existing q t.nonce ∙ (rw (beyond-none q t.nonce o (omega arith)) f), omega arith)

    -- The queued transactions have other hashes than the pending ones.
    apart :
        (j : ℕ) (t : OrderedTransaction)
        → get_elem? q.queued j ≡ some t
        → position t.hash q.pending ≡ none
    apart j t e = elim (Option-cases (position t.hash q.pending)) [
      | inl n ↦ n
      | inr (p, f) ↦
          let (x, g', same, l) = position-get_elem? t.hash q.pending p f in
          let (here, high) = queued_tx j t e in
          let (there, low) = pending_tx p x g' in
          let both = (held_tx t.nonce t here).1 in
          let other = (held_tx x.nonce x there).1 in
          let same_tx : x ≡ t = ground (arith, both, other, same) in
          ground (arith, ap (λ y. y.nonce) same_tx, high, low)
    ]

    pending-PendingAt : All (PendingAt by_hash by_sender) q.pending
    pending-PendingAt = All-at (PendingAt by_hash by_sender) q.pending (λ j t e.
        let (here, low) = pending_tx j t e in
        let (own, index) = held_tx t.nonce t here in
        let (p, f) = position_there t.hash j q.pending t e refl in
        record { queue = q; sender_has = own; indexed = index; place = p; found = f })

    queued-QueuedAt : All (QueuedAt by_hash by_sender) q.queued
    queued-QueuedAt = All-at (QueuedAt by_hash by_sender) q.queued (λ j t e.
        let (here, high) = queued_tx j t e in
        let (own, index) = held_tx t.nonce t here in
        let (p, f) = position_there t.hash j q.queued t e refl in
        record {
          queue = q;
          sender_has = own;
          indexed = index;
          not_pending = apart j t e;
          place = p;
          found = f;
        })

  -- What an eviction chooses from.
  pub All-pending-PendingAt :
      Sorted by_sender → All (PendingAt by_hash by_sender) (gather (λ q. q.pending) by_sender)
  All-pending-PendingAt sorted =
      All-gather (PendingAt by_hash by_sender) (λ q. q.pending) 0 by_sender sorted pending-PendingAt

  pub All-queued-QueuedAt :
      Sorted by_sender → All (QueuedAt by_hash by_sender) (gather (λ q. q.queued) by_sender)
  All-queued-QueuedAt sorted =
      All-gather (QueuedAt by_hash by_sender) (λ q. q.queued) 0 by_sender sorted queued-QueuedAt

-- The sum over the queues after a removal, where the queue's own count goes from `f queue` to
-- `f` of what is left.
sum-drop_from_queue :
    (f : SenderQueue → ℕ) (t : OrderedTransaction) (m : Map SenderQueue) (q : SenderQueue)
    → Sorted m
    → get t.sender m ≡ some q
    → ((p : SenderQueue) → is_empty p ≡ true → f p ≡ 0)
    → sum_by f (values (drop_from_queue t t.hash m)) + f q
      ≡ sum_by f (values m) + f (Queue.remove_by_hash q t.hash).0
unfolding drop_from_queue
sum-drop_from_queue f t m q k e z =
    rw (drop_from_queue, e)
      (sum-store_queue f t.sender q (Queue.remove_by_hash q t.hash).0 m k e
        (z (Queue.remove_by_hash q t.hash).0))

empty-pending_count : (p : SenderQueue) → is_empty p ≡ true → pending_count p ≡ 0
unfolding is_empty pending_count
empty-pending_count p e = ground arith

empty-queued_count : (p : SenderQueue) → is_empty p ≡ true → queued_count p ≡ 0
unfolding is_empty queued_count
empty-queued_count p e = ground arith

length-remove_at :
    (h j : ℕ) (xs : List OrderedTransaction)
    → position h xs ≡ some j
    → suc (length (remove_at j xs)) ≡ length xs
unfolding position remove_at
length-remove_at h j [] e = cc
length-remove_at h zero (x ∷ xs) e = refl
length-remove_at h (suc j) (x ∷ xs) e = ap suc (length-remove_at h j xs (ground (arith, e)))

module _ (by_hash : Map OrderedTransaction) (by_sender : Map SenderQueue)
    (i : IsIndexed by_hash by_sender) (sorted : Sorted by_sender) (t : OrderedTransaction) where
  abbrev left : Map SenderQueue
  left = drop_from_queue t t.hash by_sender

  pub pending_eviction-lowers :
      PendingAt by_hash by_sender t
      → sum_by pending_count (values left) < sum_by pending_count (values by_sender)
  unfolding pending_count Queue.remove_by_hash
  pending_eviction-lowers p =
      let o = (i.owned t.sender p.queue p.sender_has).formed in
      let (x, g, same, l) = position-get_elem? t.hash p.queue.pending p.place p.found in
      let cut = remove_at-Split p.queue.next_nonce p.queue.pending p.place o.consecutive l in
      let sum =
        sum-drop_from_queue pending_count t by_sender p.queue sorted p.sender_has
          empty-pending_count in
      let size : pending_count (Queue.remove_by_hash p.queue t.hash).0 < pending_count p.queue =
        rw (Queue.remove_by_hash, p.found) (omega (arith, cut.before_size)) in
      omega arith

  pub queued_eviction-lowers :
      QueuedAt by_hash by_sender t
      → (sum_by queued_count (values left) < sum_by queued_count (values by_sender))
        × (sum_by pending_count (values left) ≡ sum_by pending_count (values by_sender))
  unfolding pending_count queued_count Queue.remove_by_hash
  queued_eviction-lowers p =
      let sum =
        sum-drop_from_queue queued_count t by_sender p.queue sorted p.sender_has
          empty-queued_count in
      let sum_pending =
        sum-drop_from_queue pending_count t by_sender p.queue sorted p.sender_has
          empty-pending_count in
      let size : queued_count (Queue.remove_by_hash p.queue t.hash).0 < queued_count p.queue =
        rw (Queue.remove_by_hash, p.not_pending, p.found)
          (omega (arith, length-remove_at t.hash p.place p.queue.queued p.found)) in
      let kept : pending_count (Queue.remove_by_hash p.queue t.hash).0 ≡ pending_count p.queue =
        rw (Queue.remove_by_hash, p.not_pending, p.found) refl in
      (omega arith, omega arith)
