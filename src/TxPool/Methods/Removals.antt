-- ===== src/TxPool/Methods/Removals.antt =====
-- The removals of the pool: by hash, of confirmed nonces, and of expired transactions.
use kora.Base.{
  ℕ, ◌≤◌, ◌<◌, ◌≡◌, refl, sym, ap, ◌∙◌, inl, inr, Bool, true, false, ◌&&◌, ◌||◌, List, [], ◌∷◌,
  ◌++◌, Option, none, some, arith, leb, ◌==◌, if◌then◌else◌, Map, Sorted, get, retain, All,
  All-append, Option-cases, Bool-cases, u64_max,
}
use kora.TxPool.Config.{PoolConfig}
use kora.TxPool.Transaction.{OrderedTransaction}
use kora.TxPool.Queue.{SenderQueue, existing_nonce_tx, find_nonce, is_empty}
use kora.TxPool.Queue
use kora.TxPool.Queue.Removal.{remove_confirmed-IsWellFormed}
use kora.TxPool.Queue.Contents.{remove_confirmed_refines}
use kora.TxPool.Pool.{PoolInner, remove_by_hash, update_counts}
use kora.TxPool.Pool.Index.{
  at, at_queue, Owned, IsIndexed, at-store_queue, store_queue-Owned, same-IsIndexed,
}
use kora.TxPool.Pool.Removal.{drop_hash, remove_by_hash-IsIndexed, remove_by_hash-at, located}
use kora.TxPool.Pool.Members.{All-at, pending_tx, queued_tx}
use kora.TxPool.Pool.Capacity.{
  IsConsistent, remove_by_hash-Sorted, update_counts-IsConsistent, store_queue-Sorted,
}
use kora.TxPool.Methods.{
  remove_all, remove_confirmed, cleanup, confirmed_hashes, confirm_queue, hashes_of, up_to,
  expired_hashes,
}

-- The index and the queues agree, and the queues stand in key order; the counts may be stale.
abbrev IsSound : PoolInner → Type 0
IsSound inner = IsIndexed inner.by_hash inner.by_sender × Sorted inner.by_sender

abbrev member : ℕ → List ℕ → Bool
member h [] = false
member h (x ∷ xs) = (h == x) || member h xs

-- The transaction, unless its hash is among those.
abbrev drop_hashes : List ℕ → Option OrderedTransaction → Option OrderedTransaction
drop_hashes hs none = none
drop_hashes hs (some t) = if member t.hash hs then none else some t

drop_hashes-drop_hash :
    (h : ℕ) (hs : List ℕ) (o : Option OrderedTransaction)
    → drop_hashes hs (drop_hash h o) ≡ drop_hashes (h ∷ hs) o
drop_hashes-drop_hash h hs none = refl
drop_hashes-drop_hash h hs (some t) = ground arith

drop_hashes-nil : (o : Option OrderedTransaction) → o ≡ drop_hashes [] o
drop_hashes-nil none = refl
drop_hashes-nil (some t) = refl

module _ (id_of : List ℕ → ℕ) where
  remove_by_hash-IsSound :
      (inner : PoolInner) (h : ℕ) → IsSound inner → IsSound (remove_by_hash id_of inner h).0
  remove_by_hash-IsSound inner h (i, k) =
      (remove_by_hash-IsIndexed id_of inner h i, remove_by_hash-Sorted id_of inner h k)

  remove_all-IsSound :
      (inner : PoolInner) (hs : List ℕ) → IsSound inner → IsSound (remove_all id_of inner hs).0
  unfolding remove_all
  remove_all-IsSound inner [] k = k
  remove_all-IsSound inner (h ∷ hs) k =
      remove_all-IsSound (remove_by_hash id_of inner h).0 hs (remove_by_hash-IsSound inner h k)

  remove_all-at :
      (inner : PoolInner) (hs : List ℕ) (s n : ℕ)
      → IsSound inner
      → at (remove_all id_of inner hs).0.by_sender s n ≡ drop_hashes hs (at inner.by_sender s n)
  unfolding remove_all
  remove_all-at inner [] s n k = drop_hashes-nil (at inner.by_sender s n)
  remove_all-at inner (h ∷ hs) s n k =
      remove_all-at (remove_by_hash id_of inner h).0 hs s n (remove_by_hash-IsSound inner h k)
      ∙ ap (drop_hashes hs) (remove_by_hash-at id_of inner h s n k.0)
      ∙ drop_hashes-drop_hash h hs (at inner.by_sender s n)

  -- Expiring transactions keeps a consistent pool consistent.
  pub cleanup-IsConsistent :
      (config : PoolConfig) (now : ℕ) (inner : PoolInner)
      → IsConsistent inner
      → IsConsistent (cleanup id_of config now inner).0
  unfolding cleanup
  cleanup-IsConsistent config now inner c =
      let hs = expired_hashes config now inner.by_sender in
      let (i, k) = remove_all-IsSound inner hs (c.indexed, c.sorted) in
      update_counts-IsConsistent id_of (remove_all id_of inner hs).0 i k

-- A hash among those up to a nonce is that of a transaction of the list.
member-hashes_of {ℓ} :
    (P : OrderedTransaction → Type ℓ) (c h : ℕ) (xs : List OrderedTransaction)
    → All P xs
    → member h (hashes_of (retain (up_to c) xs)) ≡ true
    → (t : OrderedTransaction) × P t × (t.hash ≡ h) × (t.nonce ≤ c)
member-hashes_of P c h [] a e = cc
member-hashes_of P c h (x ∷ xs) a e =
    elim (Bool-cases (member h (hashes_of (retain (up_to c) xs)))) [
      | inl f ↦ member-hashes_of P c h xs a.1 f
      | inr f ↦ (x, a.0, ground (arith, e, f), ground (arith, e, f))
    ]

hashes_of-member :
    (c n : ℕ) (xs : List OrderedTransaction) (t : OrderedTransaction)
    → find_nonce n xs ≡ some t
    → n ≤ c
    → member t.hash (hashes_of (retain (up_to c) xs)) ≡ true
unfolding find_nonce
hashes_of-member c n [] t e h = cc
hashes_of-member c n (x ∷ xs) t e h = ground (arith, hashes_of-member c n xs t)

module _ (by_hash : Map OrderedTransaction) (by_sender : Map SenderQueue)
    (i : IsIndexed by_hash by_sender) (sender c : ℕ) where
  abbrev hashes : List ℕ
  hashes = confirmed_hashes (get sender by_sender) c

  -- The queues without the sender's transactions up to the confirmed nonce.
  abbrev cut : ℕ → ℕ → Option OrderedTransaction
  cut s n = if (s == sender) && leb n c then none else at by_sender s n

  -- A collected hash is that of a confirmed transaction of the sender.
  collected :
      (h : ℕ)
      → member h hashes ≡ true
      → (t : OrderedTransaction) × (get h by_hash ≡ some t) × (t.sender ≡ sender) × (t.nonce ≤ c)
  unfolding confirmed_hashes
  collected h e = elim (Option-cases (get sender by_sender)) [
    | inl g ↦ let lost : false ≡ true = ap (λ o. member h (confirmed_hashes o c)) (sym g) ∙ e in cc
    | inr (q, g) ↦
        let here : member h (confirmed_hashes (some q) c) ≡ true =
          ap (λ o. member h (confirmed_hashes o c)) (sym g) ∙ e in
        let P : OrderedTransaction → Type 0 = λ t. existing_nonce_tx q t.nonce ≡ some t in
        let all =
          All-append P q.pending q.queued
            (All-at P q.pending (λ j t e. (pending_tx by_hash by_sender i sender q g j t e).0))
            (All-at P q.queued (λ j t e. (queued_tx by_hash by_sender i sender q g j t e).0)) in
        let (t, p, k, l) = member-hashes_of P c h (q.pending ++ q.queued) all here in
        let (own, _, found) =
          located by_hash by_sender i sender t.nonce t (ap (λ o. at_queue o t.nonce) g ∙ p) in
        (t, ap (λ x. get x by_hash) (sym k) ∙ found, own, l)
  ]

  confirmed_member :
      (n : ℕ) (t : OrderedTransaction)
      → at by_sender sender n ≡ some t
      → n ≤ c
      → member t.hash hashes ≡ true
  unfolding confirmed_hashes existing_nonce_tx
  confirmed_member n t e h = elim (Option-cases (get sender by_sender)) [
    | inl g ↦ let lost : none ≡ some t = ap (λ o. at_queue o n) (sym g) ∙ e in cc
    | inr (q, g) ↦
        let here : existing_nonce_tx q n ≡ some t = ap (λ o. at_queue o n) (sym g) ∙ e in
        ap (λ o. member t.hash (confirmed_hashes o c)) g
        ∙ hashes_of-member c n (q.pending ++ q.queued) t here h
  ]

  drop_hashes-cut : (s n : ℕ) → drop_hashes hashes (at by_sender s n) ≡ cut s n
  drop_hashes-cut s n = elim (Option-cases (at by_sender s n)) [
    | inl e ↦ rw e (ground arith)
    | inr (t, e) ↦
        let (own, at_nonce, found) = located by_hash by_sender i s n t e in
        elim (Bool-cases (member t.hash hashes)) [
          | inl f ↦
              let (x, g, mine, low) = collected t.hash f in
              let same : x ≡ t = ground (arith, g, found) in
              let mine_too : t.sender ≡ sender = ap (λ y. y.sender) (sym same) ∙ mine in
              let low_too : x.nonce ≡ t.nonce = ap (λ y. y.nonce) same in
              rw (e, f) (ground (arith, mine_too, low_too, low, own, at_nonce))
          | inr f ↦
              rw (e, f)
                (ground
                  (arith, confirmed_member n t, ap (λ r. at by_sender r n) (sym own), own, e, f))
        ]
  ]

confirm_queue-at :
    (sender c : ℕ) (m : Map SenderQueue) (s n : ℕ)
    → at (confirm_queue sender c m) s n ≡ (if (s == sender) && leb n c then none else at m s n)
unfolding confirm_queue
confirm_queue-at sender c m s n = elim (Option-cases (get sender m)) [
  | inl e ↦ rw (confirm_queue, e) (ground (arith, e))
  | inr (q, e) ↦
      rw (confirm_queue, e)
        (ground (
          arith,
          at-store_queue sender (Queue.remove_confirmed q c) m s n,
          remove_confirmed_refines q c n,
          e,
        ))
]

confirm_queue-Owned :
    (sender c : ℕ) (by_hash : Map OrderedTransaction) (m : Map SenderQueue)
    → IsIndexed by_hash m
    → c < u64_max
    → (r : ℕ) (p : SenderQueue) → get r (confirm_queue sender c m) ≡ some p
    → Owned r p
unfolding confirm_queue
confirm_queue-Owned sender c by_hash m i h = elim (Option-cases (get sender m)) [
  | inl e ↦ rw (confirm_queue, e) i.owned
  | inr (q, e) ↦
      let old = i.owned sender q e in
      let q' = Queue.remove_confirmed q c in
      rw (confirm_queue, e)
        (store_queue-Owned sender q' m i.owned (λ f. record {
          formed = remove_confirmed-IsWellFormed q c old.formed h;
          occupied = f;
          owner = λ n t g. old.owner n t (ground (arith, remove_confirmed_refines q c n, g));
        }))
]

confirm_queue-Sorted :
    (sender c : ℕ) (m : Map SenderQueue) → Sorted m → Sorted (confirm_queue sender c m)
unfolding confirm_queue
confirm_queue-Sorted sender c m k = elim (Option-cases (get sender m)) [
  | inl e ↦ rw (confirm_queue, e) k
  | inr (q, e) ↦ rw (confirm_queue, e) (store_queue-Sorted sender (Queue.remove_confirmed q c) m k)
]

-- The specification of a confirmation: the pool is consistent, and it has lost the sender's
-- transactions up to the confirmed nonce, and no others.
pub record Confirms (inner : PoolInner) (sender c : ℕ) (r : PoolInner) : Type 0 where
  pub consistent : IsConsistent r
  pub contents :
      (s n : ℕ)
      → at r.by_sender s n ≡ (if (s == sender) && leb n c then none else at inner.by_sender s n)

-- Confirming a nonce below the maximal one in a consistent pool takes out the sender's
-- transactions up to that nonce and no others, and leaves the pool consistent.
pub remove_confirmed-Confirms :
    (id_of : List ℕ → ℕ) (inner : PoolInner) (sender c : ℕ)
    → IsConsistent inner
    → c < u64_max
    → Confirms inner sender c (remove_confirmed id_of inner sender c)
unfolding remove_confirmed update_counts
remove_confirmed-Confirms id_of inner sender c k h =
    let hs = confirmed_hashes (get sender inner.by_sender) c in
    let inner' = (remove_all id_of inner hs).0 in
    let (i, sorted) = remove_all-IsSound id_of inner hs (k.indexed, k.sorted) in
    let left : (s n : ℕ)
        → at inner'.by_sender s n
          ≡ (if (s == sender) && leb n c then none else at inner.by_sender s n) =
      λ s n.
        remove_all-at id_of inner hs s n (k.indexed, k.sorted)
        ∙ drop_hashes-cut inner.by_hash inner.by_sender k.indexed sender c s n in
    let last = confirm_queue sender c inner'.by_sender in
    let all = confirm_queue-Owned sender c inner'.by_hash inner'.by_sender i h in
    let same : (s n : ℕ) → at last s n ≡ at inner'.by_sender s n =
      λ s n. ground (arith, confirm_queue-at sender c inner'.by_sender s n, left s n) in
    record {
      consistent =
          update_counts-IsConsistent id_of (record inner' { by_sender = last })
            (same-IsIndexed inner'.by_hash inner'.by_hash inner'.by_sender last i all same)
            (confirm_queue-Sorted sender c inner'.by_sender sorted);
      contents = λ s n. same s n ∙ left s n;
    }
