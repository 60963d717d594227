-- ===== src/TxPool/Pool/Counts.antt =====
-- Counting over the map of queues.
use kora.Base.{
  ℕ, suc, ◌+◌, ◌≡◌, refl, subst, inl, inr, true, List, [], ◌∷◌, none, some, arith, Map, KeysFrom,
  Sorted, get, put, del, get_below, sum_by, length, All, All-append, Ordering, Option-cases,
  length-append,
}
use kora.TxPool.Transaction.{OrderedTransaction}
use kora.TxPool.Queue.{SenderQueue, is_empty}
use kora.TxPool.Pool.{store_queue, values, gather, lowest, first_of, evict_cmp}

module _ (f : SenderQueue → ℕ) (s : ℕ) (q q' : SenderQueue) where
  pub sum-put :
      (lo : ℕ) (m : Map SenderQueue)
      → KeysFrom lo m
      → get s m ≡ some q
      → sum_by f (values (put s q' m)) + f q ≡ sum_by f (values m) + f q'
  unfolding get put
  sum-put lo [] k e = cc
  sum-put lo ((r, p) ∷ m) k e = ground (arith, sum-put (suc r) m k.1, get_below s (suc r) m k.1)

  del_absent : (m : Map SenderQueue) → get s m ≡ none → del s m ≡ m
  unfolding get del
  del_absent [] e = refl
  del_absent ((r, p) ∷ m) e = ground (arith, del_absent m)

  sum-del :
      (lo : ℕ) (m : Map SenderQueue)
      → KeysFrom lo m
      → get s m ≡ some q
      → sum_by f (values (del s m)) + f q ≡ sum_by f (values m)
  unfolding get del
  sum-del lo [] k e = cc
  sum-del lo ((r, p) ∷ m) k e =
      ground (arith, sum-del (suc r) m k.1, get_below s (suc r) m k.1, del_absent m)

  -- The sum over the queues when one of them changes.
  pub sum-store_queue :
      (m : Map SenderQueue)
      → Sorted m
      → get s m ≡ some q
      → (is_empty q' ≡ true → f q' ≡ 0)
      → sum_by f (values (store_queue s q' m)) + f q ≡ sum_by f (values m) + f q'
  unfolding store_queue
  sum-store_queue m k e z = ground (arith, sum-put 0 m k e, sum-del 0 m k e)

pub All-gather {ℓ} :
    (P : OrderedTransaction → Type ℓ) (part : SenderQueue → List OrderedTransaction) (lo : ℕ)
    (m : Map SenderQueue)
    → KeysFrom lo m
    → ((s : ℕ) (q : SenderQueue) → get s m ≡ some q → All P (part q))
    → All P (gather part m)
unfolding get
All-gather P part lo [] k a = tt
All-gather P part lo ((r, p) ∷ m) k a =
    All-append P (part p) (gather part m) (a r p (ground arith)) (
      All-gather P part (suc r) m k.1
        (λ s q e. a s q (ground (arith, e, get_below s (suc r) m k.1))))

pub length-gather :
    (part : SenderQueue → List OrderedTransaction) (m : Map SenderQueue)
    → length (gather part m) ≡ sum_by (λ q. length (part q)) (values m)
length-gather part [] = refl
length-gather part ((r, p) ∷ m) =
    ground (arith, length-append (part p) (gather part m), length-gather part m)

first_of-P {ℓ} :
    (P : OrderedTransaction → Type ℓ) (a b : OrderedTransaction) (c : Ordering)
    → P a
    → P b
    → P (first_of a b c)
first_of-P P a b Ordering.lt x y = x
first_of-P P a b Ordering.eq x y = x
first_of-P P a b Ordering.gt x y = y

pub lowest-All {ℓ} :
    (P : OrderedTransaction → Type ℓ) (xs : List OrderedTransaction) (t : OrderedTransaction)
    → All P xs
    → lowest xs ≡ some t
    → P t
unfolding lowest
lowest-All P [] t a e = cc
lowest-All P (x ∷ xs) t a e = elim (Option-cases (lowest xs)) [
  | inl n ↦ let same : x ≡ t = ground (arith, n, e) in subst P same a.0
  | inr (u, n) ↦
      let same : first_of x u (evict_cmp x u) ≡ t = ground (arith, n, e) in
      subst P same (first_of-P P x u (evict_cmp x u) a.0 (lowest-All P xs u a.1 n))
]

pub lowest-none : (xs : List OrderedTransaction) → lowest xs ≡ none → length xs ≡ 0
unfolding lowest
lowest-none [] e = refl
lowest-none (x ∷ xs) e = ground (arith, Option-cases (lowest xs))
