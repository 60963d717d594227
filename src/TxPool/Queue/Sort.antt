-- ===== src/TxPool/Queue/Sort.antt =====
-- `place` and `sort_by_nonce`: order, membership by nonce, size.
use kora.Base.{
  ℕ, suc, ◌≤◌, ◌<◌, ◌≡◌, ◌≢◌, refl, ◌∙◌, ap, List, [], ◌∷◌, ◌++◌, some, arith, ◌==◌, if◌then◌else◌,
  length, All, All-append, All-imp,
}
use kora.TxPool.Transaction.{OrderedTransaction}
use kora.TxPool.Queue.{place, sort_by_nonce, find_nonce}
use kora.TxPool.Queue.Nonces.{Ascending, AtLeast}

abbrev pub Differs : OrderedTransaction → OrderedTransaction → Type 0
Differs t x = x.nonce ≢ t.nonce

-- No two transactions share a nonce.
abbrev pub Distinct : List OrderedTransaction → Type 0
Distinct [] = Unit {0}
Distinct (t ∷ ts) = All (Differs t) ts × Distinct ts

module _ {ℓ} (P : OrderedTransaction → Type ℓ) where
  pub All-place :
      (t : OrderedTransaction) (xs : List OrderedTransaction) → P t → All P xs → All P (place t xs)
  unfolding place
  All-place t [] p a = (p, tt)
  All-place t (x ∷ xs) p a = ground (arith, All-place t xs p a.1)

  pub All-sort_by_nonce : (xs : List OrderedTransaction) → All P xs → All P (sort_by_nonce xs)
  unfolding sort_by_nonce
  All-sort_by_nonce [] a = tt
  All-sort_by_nonce (x ∷ xs) a = All-place x (sort_by_nonce xs) a.0 (All-sort_by_nonce xs a.1)

pub find_nonce-place :
    (m : ℕ) (t : OrderedTransaction) (xs : List OrderedTransaction)
    → find_nonce m (place t xs) ≡ (if t.nonce == m then some t else find_nonce m xs)
unfolding place find_nonce
find_nonce-place m t [] = refl
find_nonce-place m t (x ∷ xs) = ground (arith, find_nonce-place m t xs)

-- The sort is stable, so it finds what the list finds.
pub find_nonce-sort_by_nonce :
    (m : ℕ) (xs : List OrderedTransaction) → find_nonce m (sort_by_nonce xs) ≡ find_nonce m xs
unfolding sort_by_nonce find_nonce
find_nonce-sort_by_nonce m [] = refl
find_nonce-sort_by_nonce m (x ∷ xs) =
    find_nonce-place m x (sort_by_nonce xs) ∙ (rw (find_nonce-sort_by_nonce m xs))

pub length-place :
    (t : OrderedTransaction) (xs : List OrderedTransaction) → length (place t xs) ≡ suc (length xs)
unfolding place
length-place t [] = refl
length-place t (x ∷ xs) = ground (arith, length-place t xs)

pub length-sort_by_nonce : (xs : List OrderedTransaction) → length (sort_by_nonce xs) ≡ length xs
unfolding sort_by_nonce
length-sort_by_nonce [] = refl
length-sort_by_nonce (x ∷ xs) = length-place x (sort_by_nonce xs) ∙ ap suc (length-sort_by_nonce xs)

pub place-Ascending :
    (m : ℕ) (t : OrderedTransaction) (xs : List OrderedTransaction)
    → m ≤ t.nonce
    → All (Differs t) xs
    → Ascending m xs
    → Ascending m (place t xs)
unfolding place
place-Ascending m t [] h d a = (h, tt)
place-Ascending m t (x ∷ xs) h d a = ground (arith, place-Ascending (suc x.nonce) t xs)

-- A sorted list of distinct nonces ascends.
pub sort_by_nonce-Ascending :
    (m : ℕ) (xs : List OrderedTransaction)
    → All (AtLeast m) xs
    → Distinct xs
    → Ascending m (sort_by_nonce xs)
unfolding sort_by_nonce
sort_by_nonce-Ascending m [] h d = tt
sort_by_nonce-Ascending m (x ∷ xs) h d =
    place-Ascending m x (sort_by_nonce xs) h.0 (All-sort_by_nonce (Differs x) xs d.0)
      (sort_by_nonce-Ascending m xs h.1 d.1)

pub Distinct-of_Ascending : (m : ℕ) (xs : List OrderedTransaction) → Ascending m xs → Distinct xs
Distinct-of_Ascending m [] a = tt
Distinct-of_Ascending m (x ∷ xs) a =
    (All-Differs (suc x.nonce) x xs (omega arith) a.1, Distinct-of_Ascending (suc x.nonce) xs a.1)
  where
    All-Differs :
        (n : ℕ) (y : OrderedTransaction) (ys : List OrderedTransaction)
        → y.nonce < n
        → Ascending n ys
        → All (Differs y) ys
    All-Differs n y [] h b = tt
    All-Differs n y (z ∷ zs) h b = (omega arith, All-Differs (suc z.nonce) y zs (omega arith) b.1)

-- Two lists join into a list of distinct nonces where the second lies below the first.
pub Distinct-append :
    (n : ℕ) (xs ys : List OrderedTransaction)
    → Distinct xs
    → Distinct ys
    → All (AtLeast n) xs
    → All (λ y. y.nonce < n) ys
    → Distinct (xs ++ ys)
Distinct-append n [] ys dx dy hx hy = dy
Distinct-append n (x ∷ xs) ys dx dy hx hy = (
  All-append (Differs x) xs ys dx.0 (All-imp (λ y h. omega arith) ys hy),
  Distinct-append n xs ys dx.1 dy hx.1 hy,
)
