-- ===== src/TxPool/Queue.antt =====
-- crates/node/txpool/src/ordering.rs: `SenderQueue`.
-- A method with `&mut self` returns the new queue. `binary_search_by` and `sort_by_key` of the
-- standard library stand as their specification: the place of a nonce in an ascending list, and a
-- stable sort.
pub mod Nonces
pub mod Slots
pub mod Sort
pub mod Invariant
pub mod Removal
pub mod Contents
mod Tests
use kora.Base.{
  ℕ, zero, suc, ◌+◌, ◌-◌, ◌<◌, ◌≤◌, Bool, true, false, ◌&&◌, List, [], ◌∷◌, ◌++◌, Option, none,
  some, ltb, leb, ◌==◌, if◌then◌else◌, length, get_elem?, set, take, drop, retain, saturating_add,
}
use kora.TxPool.Transaction.{OrderedTransaction}

pub record SenderQueue : Type 0 where
  pub sender : ℕ
  pub next_nonce : ℕ
  pub pending : List OrderedTransaction
  pub queued : List OrderedTransaction

-- `SenderQueue::new`.
unfoldable pub new : ℕ → ℕ → SenderQueue
new sender initial_nonce = record {
  sender = sender;
  next_nonce = initial_nonce;
  pending = [];
  queued = [];
}

unfoldable pub next_pending_nonce : SenderQueue → ℕ
next_pending_nonce q = saturating_add q.next_nonce (length q.pending)

unfoldable pub pending_count : SenderQueue → ℕ
pending_count q = length q.pending

unfoldable pub queued_count : SenderQueue → ℕ
queued_count q = length q.queued

unfoldable pub total_count : SenderQueue → ℕ
total_count q = length q.pending + length q.queued

unfoldable pub is_empty : SenderQueue → Bool
is_empty q = length q.pending == 0 && length q.queued == 0

-- The loop of `promote_queued` over the first nonce, the pending and the queued transactions.
unfoldable pub promote :
    ℕ
    → List OrderedTransaction
    → List OrderedTransaction
    → List OrderedTransaction × List OrderedTransaction
promote next pending [] = (pending, [])
promote next pending (first ∷ rest) =
    let more = promote next (pending ++ first ∷ []) rest in
    if first.nonce == saturating_add next (length pending) then more else (pending, first ∷ rest)

unfoldable pub promote_queued : SenderQueue → SenderQueue
promote_queued q =
    let (pending, queued) = promote q.next_nonce q.pending q.queued in
    record q { pending = pending; queued = queued }

-- The outcome of `binary_search_by`: `Ok(pos)` or `Err(pos)`.
pub data Search : Type 0 where
  hit miss : ℕ → Search

abbrev pub shift : Search → Search
shift (hit i) = hit (suc i)
shift (miss i) = miss (suc i)

unfoldable pub search_nonce : ℕ → List OrderedTransaction → Search
search_nonce n [] = miss 0
search_nonce n (q ∷ qs) =
    if ltb q.nonce n then shift (search_nonce n qs) else if q.nonce == n then hit 0 else miss 0

-- `Vec::insert`.
unfoldable pub insert_at :
    ℕ → OrderedTransaction → List OrderedTransaction → List OrderedTransaction
insert_at zero t xs = t ∷ xs
insert_at (suc i) t [] = t ∷ []
insert_at (suc i) t (x ∷ xs) = x ∷ insert_at i t xs

-- The replacement rule: a strictly higher price takes the place and hands the old one back; else
-- the new transaction itself is handed back.
unfoldable pub displace :
    List OrderedTransaction
    → ℕ
    → OrderedTransaction
    → List OrderedTransaction × Option OrderedTransaction
displace xs pos tx = elim (get_elem? xs pos) [
  | none ↦ (xs, some tx)
  | some existing ↦
      if ltb existing.effective_gas_price tx.effective_gas_price
      then (set xs pos tx, some existing)
      else (xs, some tx)
]

-- The `match` on the search: `Ok(pos)` replaces, `Err(pos)` inserts.
unfoldable pub fill :
    SenderQueue → OrderedTransaction → Search → SenderQueue × Option OrderedTransaction
fill q tx (hit pos) =
    let (queued, out) = displace q.queued pos tx in (record q { queued = queued }, out)
fill q tx (miss pos) = (record q { queued = insert_at pos tx q.queued }, none)

unfoldable pub insert_queued :
    SenderQueue → OrderedTransaction → SenderQueue × Option OrderedTransaction
unfolding fill
insert_queued q tx = fill q tx (search_nonce tx.nonce q.queued)

unfoldable pub insert_pending :
    SenderQueue → OrderedTransaction → SenderQueue × Option OrderedTransaction
insert_pending q tx =
    let (pending, out) = displace q.pending (tx.nonce - q.next_nonce) tx in
    (record q { pending = pending }, out)

-- `SenderQueue::insert`, with the transaction that it displaces or refuses.
unfoldable pub insert : SenderQueue → OrderedTransaction → SenderQueue × Option OrderedTransaction
insert q tx =
    if ltb tx.nonce q.next_nonce
    then (q, some tx)
    else if tx.nonce == next_pending_nonce q
    then (promote_queued (record q { pending = q.pending ++ tx ∷ [] }), none)
    else if ltb (next_pending_nonce q) tx.nonce
    then insert_queued q tx
    else insert_pending q tx

-- `Iterator::position` on the hash.
unfoldable pub position : ℕ → List OrderedTransaction → Option ℕ
position h [] = none
position h (t ∷ ts) =
    if t.hash == h then some 0 else elim (position h ts) [ none ↦ none | some i ↦ some (suc i) ]

-- `Vec::remove`.
unfoldable pub remove_at : ℕ → List OrderedTransaction → List OrderedTransaction
remove_at i [] = []
remove_at zero (t ∷ ts) = ts
remove_at (suc i) (t ∷ ts) = t ∷ remove_at i ts

-- `sort_by_key(|tx| tx.nonce)`.
unfoldable pub place : OrderedTransaction → List OrderedTransaction → List OrderedTransaction
place t [] = t ∷ []
place t (x ∷ xs) = if leb t.nonce x.nonce then t ∷ x ∷ xs else x ∷ place t xs

unfoldable pub sort_by_nonce : List OrderedTransaction → List OrderedTransaction
sort_by_nonce [] = []
sort_by_nonce (t ∷ ts) = place t (sort_by_nonce ts)

-- `SenderQueue::remove_by_hash`: what stood behind a removed pending transaction waits again.
unfoldable pub remove_by_hash : SenderQueue → ℕ → SenderQueue × Option OrderedTransaction
remove_by_hash q h = elim (position h q.pending) [
  | some idx ↦
      let rest = remove_at idx q.pending in
      (
        record q { pending = take idx rest; queued = sort_by_nonce (q.queued ++ drop idx rest) },
        get_elem? q.pending idx,
      )
  | none ↦ elim (position h q.queued) [
    | some idx ↦ (record q { queued = remove_at idx q.queued }, get_elem? q.queued idx)
    | none ↦ (q, none)
  ]
]

abbrev pub above : ℕ → OrderedTransaction → Bool
above n t = ltb n t.nonce

-- `SenderQueue::remove_confirmed`.
unfoldable pub remove_confirmed : SenderQueue → ℕ → SenderQueue
remove_confirmed q confirmed = promote_queued (record q {
  next_nonce = if leb q.next_nonce confirmed then saturating_add confirmed 1 else q.next_nonce;
  pending = retain (above confirmed) q.pending;
  queued = retain (above confirmed) q.queued;
})

-- `Iterator::find` on the nonce.
unfoldable pub find_nonce : ℕ → List OrderedTransaction → Option OrderedTransaction
find_nonce n [] = none
find_nonce n (t ∷ ts) = if t.nonce == n then some t else find_nonce n ts

-- crates/node/txpool/src/pool.rs: the transaction that holds a nonce.
unfoldable pub existing_nonce_tx : SenderQueue → ℕ → Option OrderedTransaction
existing_nonce_tx q n = find_nonce n (q.pending ++ q.queued)
