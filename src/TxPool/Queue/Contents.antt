-- ===== src/TxPool/Queue/Contents.antt =====
-- A sender's queue seen as a map from nonces to transactions, and each method as a change of it.
use kora.Base.{
  ℕ, zero, suc, ◌+◌, ◌-◌, ◌≤◌, ◌<◌, ◌≡◌, ◌≢◌, refl, ap, ◌∙◌, Bool, true, not, ◌&&◌, List, [], ◌∷◌,
  ◌++◌, Option, none, some, arith, ltb, leb, ◌==◌, if◌then◌else◌, length, saturating_add, get_elem?,
  set, take, drop, retain, or_else,
}
use kora.TxPool.Transaction.{OrderedTransaction}
use kora.TxPool.Queue.{
  SenderQueue, Search, hit, miss, insert, insert_queued, insert_pending, insert_at, fill, displace,
  promote_queued, remove_by_hash, remove_confirmed, remove_at, sort_by_nonce, position, above,
  find_nonce, existing_nonce_tx,
}
use kora.TxPool.Queue.Nonces.{
  Ascending, find_nonce-append, find_nonce-Ascending, find_nonce_beyond, find_nonce-retain,
  Ascending-of_Consecutive,
}
use kora.TxPool.Queue.Slots.{
  Finds, search_nonce-Finds, find_nonce-set, get_elem?-Consecutive, get_elem?-Ascending,
}
use kora.TxPool.Queue.Sort.{find_nonce-place, find_nonce-sort_by_nonce}
use kora.TxPool.Queue.Invariant.{IsWellFormed, insert_cases, promote-append}
use kora.TxPool.Queue.Removal.{position-get_elem?, remove_by_hash_cases}

-- The rule of admission: the nonce is not used up, and a rival with the nonce pays strictly less.
abbrev pub outbids : OrderedTransaction → Option OrderedTransaction → Bool
outbids t none = true
outbids t (some e) = ltb e.effective_gas_price t.effective_gas_price

abbrev pub admits : SenderQueue → OrderedTransaction → Bool
admits q t = not (ltb t.nonce q.next_nonce) && outbids t (existing_nonce_tx q t.nonce)

-- The specification of an insertion.
pub record Inserts (q : SenderQueue) (t : OrderedTransaction)
    (r : SenderQueue × Option OrderedTransaction) : Type 0 where
  pub out : r.1 ≡ (if admits q t then existing_nonce_tx q t.nonce else some t)
  pub contents :
      (m : ℕ)
      → existing_nonce_tx r.0 m
        ≡ (if admits q t && t.nonce == m then some t else existing_nonce_tx q m)

pub existing :
    (q : SenderQueue) (m : ℕ)
    → existing_nonce_tx q m ≡ or_else (find_nonce m q.pending) (find_nonce m q.queued)
unfolding existing_nonce_tx
existing q m = find_nonce-append m q.pending q.queued

pub beyond-none :
    (q : SenderQueue) (m : ℕ)
    → IsWellFormed q
    → q.next_nonce + length q.pending ≤ m
    → find_nonce m q.pending ≡ none
beyond-none q m o h = find_nonce_beyond m q.next_nonce q.pending o.consecutive h

pub before-none :
    (q : SenderQueue) (m : ℕ)
    → IsWellFormed q
    → m ≤ q.next_nonce + length q.pending
    → find_nonce m q.queued ≡ none
before-none q m o h = find_nonce-Ascending m _ q.queued (omega arith) o.ascending

append-Inserts :
    (q : SenderQueue) (t : OrderedTransaction)
    → IsWellFormed q
    → t.nonce ≡ q.next_nonce + length q.pending
    → Inserts q t (promote_queued (record q { pending = q.pending ++ t ∷ [] }), none)
unfolding promote_queued existing_nonce_tx find_nonce
append-Inserts q t o e =
    let free : existing_nonce_tx q t.nonce ≡ none =
      existing q t.nonce
      ∙ (rw (beyond-none q t.nonce o (omega arith))
          (find_nonce-Ascending t.nonce _ q.queued (omega arith) o.ascending)) in
    record {
      out = ground (arith, free);
      contents = λ m. rw (promote-append q.next_nonce (q.pending ++ t ∷ []) q.queued) (
          ground (
            arith,
            free,
            existing q m,
            find_nonce-append m (q.pending ++ t ∷ []) q.queued,
            find_nonce-append m q.pending (t ∷ []),
            beyond-none q m o,
          ));
    }

fill-Inserts :
    (q : SenderQueue) (t : OrderedTransaction) (r : Search)
    → IsWellFormed q
    → q.next_nonce + length q.pending < t.nonce
    → Finds t q.queued r
    → Inserts q t (fill q t r)
unfolding fill displace
fill-Inserts q t (hit i) o h (e, g, f, k) =
    let old : existing_nonce_tx q t.nonce ≡ some e =
      existing q t.nonce ∙ (rw (beyond-none q t.nonce o (omega arith)) f) in
    rw (g, displace)
      (record {
        out = ground (arith, old);
        contents = λ m. ground (
          arith,
          old,
          existing q m,
          existing (record q { queued = set q.queued i t }) m,
          find_nonce-set _ m q.queued i t e o.ascending g k,
          beyond-none q m o,
        );
      })
fill-Inserts q t (miss i) o h (f, same, d) =
    let free : existing_nonce_tx q t.nonce ≡ none =
      existing q t.nonce ∙ (rw (beyond-none q t.nonce o (omega arith)) f) in
    record {
      out = ground (arith, free);
      contents = λ m. ground (
        arith,
        free,
        same,
        existing q m,
        existing (record q { queued = insert_at i t q.queued }) m,
        find_nonce-place m t q.queued,
        beyond-none q m o,
      );
    }

insert_pending-Inserts :
    (q : SenderQueue) (t : OrderedTransaction)
    → IsWellFormed q
    → q.next_nonce ≤ t.nonce
    → t.nonce < q.next_nonce + length q.pending
    → Inserts q t (insert_pending q t)
unfolding insert_pending displace
insert_pending-Inserts q t o h k =
    let i = t.nonce - q.next_nonce in
    let (e, g, f, n) = get_elem?-Consecutive q.next_nonce q.pending i o.consecutive (omega arith) in
    let sum : q.next_nonce + i ≡ t.nonce = omega arith in
    let old : existing_nonce_tx q t.nonce ≡ some e = existing q t.nonce ∙ (rw (rw sum at f) refl) in
    rw (g, displace)
      (record {
        out = ground (arith, old);
        contents = λ m. ground (
          arith,
          old,
          existing q m,
          existing (record q { pending = set q.pending i t }) m,
          find_nonce-set _ m q.pending i t e
              (Ascending-of_Consecutive q.next_nonce q.pending o.consecutive) g (n ∙ sum),
        );
      })

-- In a well-formed queue an insertion changes the map at its own nonce alone, and only if the rule
-- admits it; what it hands back is the rival that it displaced, or the refused transaction itself.
pub insert_refines :
    (q : SenderQueue) (t : OrderedTransaction) → IsWellFormed q → Inserts q t (insert q t)
unfolding insert_queued
insert_refines q t o =
    insert_cases (Inserts q t) q t o
      (λ low. record { out = ground arith; contents = λ m. ground arith }) (append-Inserts q t o)
      (λ h. fill-Inserts q t _ o h (search_nonce-Finds _ t q.queued o.ascending))
      (insert_pending-Inserts q t o)

pub find_nonce-remove_at :
    (n m : ℕ) (xs : List OrderedTransaction) (i : ℕ) (e : OrderedTransaction)
    → Ascending n xs
    → get_elem? xs i ≡ some e
    → (find_nonce e.nonce xs ≡ some e)
      × (find_nonce m (remove_at i xs) ≡ (if e.nonce == m then none else find_nonce m xs))
unfolding find_nonce remove_at
find_nonce-remove_at n m [] i e a g = cc
find_nonce-remove_at n m (x ∷ xs) zero e a g =
    ground (arith, find_nonce-Ascending m (suc x.nonce) xs)
find_nonce-remove_at n m (x ∷ xs) (suc i) e a g = ground (
  arith,
  find_nonce-remove_at (suc x.nonce) m xs i e a.1 g,
  get_elem?-Ascending (suc x.nonce) xs i e a.1 g,
)

take-append-drop : (i : ℕ) (xs : List OrderedTransaction) → take i xs ++ drop i xs ≡ xs
take-append-drop zero xs = refl
take-append-drop (suc i) [] = refl
take-append-drop (suc i) (x ∷ xs) = ap (λ ys. x ∷ ys) (take-append-drop i xs)

-- The specification of a removal by hash.
abbrev pub Removes : SenderQueue → ℕ → SenderQueue × Option OrderedTransaction → Type 0
Removes q h (q', none) =
    (q' ≡ q) × ((m : ℕ) (t : OrderedTransaction) → existing_nonce_tx q m ≡ some t → t.hash ≢ h)
Removes q h (q', some e) =
    (e.hash ≡ h)
    × (existing_nonce_tx q e.nonce ≡ some e)
    × ((m : ℕ) → existing_nonce_tx q' m ≡ (if e.nonce == m then none else existing_nonce_tx q m))

remove-pending-Removes :
    (q : SenderQueue) (h i : ℕ) (e : OrderedTransaction)
    → IsWellFormed q
    → get_elem? q.pending i ≡ some e
    → i < length q.pending
    → e.hash ≡ h
    → let rest = remove_at i q.pending in
      Removes q h (
        record q { pending = take i rest; queued = sort_by_nonce (q.queued ++ drop i rest) },
        some e,
      )
remove-pending-Removes q h i e o g l k =
    let rest = remove_at i q.pending in
    let up = Ascending-of_Consecutive q.next_nonce q.pending o.consecutive in
    let (e', g', f, n) = get_elem?-Consecutive q.next_nonce q.pending i o.consecutive l in
    let at : e.nonce < q.next_nonce + length q.pending = ground arith in
    (
      k,
      existing q e.nonce ∙ (rw ((find_nonce-remove_at _ 0 q.pending i e up g).0) refl),
      λ m. ground (
        arith,
        existing q m,
        existing
            (record q { pending = take i rest; queued = sort_by_nonce (q.queued ++ drop i rest) })
            m,
        find_nonce-sort_by_nonce m (q.queued ++ drop i rest),
        find_nonce-append m q.queued (drop i rest),
        find_nonce-append m (take i rest) (drop i rest),
        ap (find_nonce m) (take-append-drop i rest),
        (find_nonce-remove_at q.next_nonce m q.pending i e up g).1,
        before-none q m o,
        beyond-none q m o,
        at,
      ),
    )

remove-queued-Removes :
    (q : SenderQueue) (h i : ℕ) (e : OrderedTransaction)
    → IsWellFormed q
    → get_elem? q.queued i ≡ some e
    → e.hash ≡ h
    → Removes q h (record q { queued = remove_at i q.queued }, some e)
remove-queued-Removes q h i e o g k =
    let low = get_elem?-Ascending _ q.queued i e o.ascending g in
    (
      k,
      existing q e.nonce
          ∙ (rw (beyond-none q e.nonce o (omega arith))
              ((find_nonce-remove_at _ 0 q.queued i e o.ascending g).0)),
      λ m. ground (
        arith,
        existing q m,
        existing (record q { queued = remove_at i q.queued }) m,
        (find_nonce-remove_at _ m q.queued i e o.ascending g).1,
        beyond-none q m o,
      ),
    )

position-append :
    (h : ℕ) (xs ys : List OrderedTransaction)
    → position h xs ≡ none
    → position h ys ≡ none
    → position h (xs ++ ys) ≡ none
unfolding position
position-append h [] ys p k = k
position-append h (x ∷ xs) ys p k = ground (arith, position-append h xs ys)

absent-hash :
    (h m : ℕ) (xs : List OrderedTransaction) (t : OrderedTransaction)
    → position h xs ≡ none
    → find_nonce m xs ≡ some t
    → t.hash ≢ h
unfolding position find_nonce
absent-hash h m [] t p e = cc
absent-hash h m (x ∷ xs) t p e = ground (arith, absent-hash h m xs t)

-- In a well-formed queue a removal by hash takes one nonce out of the map, that of the transaction
-- with the hash, which it returns; and if it returns none, it
-- changes nothing, and no transaction of the map has the hash.
pub remove_by_hash_refines :
    (q : SenderQueue) (h : ℕ) → IsWellFormed q → Removes q h (remove_by_hash q h)
unfolding existing_nonce_tx
remove_by_hash_refines q h o =
    remove_by_hash_cases (Removes q h) q h
      (λ i p.
        let (e, g, k, l) = position-get_elem? h q.pending i p in
        rw g (remove-pending-Removes q h i e o g l k))
      (λ i _ p.
        let (e, g, k, l) = position-get_elem? h q.queued i p in
        rw g (remove-queued-Removes q h i e o g k))
      (λ p k. (
        refl,
        λ m t e.
            absent-hash h m (q.pending ++ q.queued) t (position-append h q.pending q.queued p k) e,
      ))

-- Removing confirmed nonces cuts the map: no nonce up to the confirmed one is left, and every
-- later nonce keeps its transaction.
pub remove_confirmed_refines :
    (q : SenderQueue) (c m : ℕ)
    → existing_nonce_tx (remove_confirmed q c) m ≡ (if ltb c m then existing_nonce_tx q m else none)
unfolding remove_confirmed promote_queued existing_nonce_tx
remove_confirmed_refines q c m =
    rw
      (promote-append (if leb q.next_nonce c then saturating_add c 1 else q.next_nonce)
        (retain (above c) q.pending) (retain (above c) q.queued))
      (ground (
        arith,
        find_nonce-append m (retain (above c) q.pending) (retain (above c) q.queued),
        find_nonce-append m q.pending q.queued,
        find_nonce-retain m c q.pending,
        find_nonce-retain m c q.queued,
      ))
