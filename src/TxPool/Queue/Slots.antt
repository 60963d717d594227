-- ===== src/TxPool/Queue/Slots.antt =====
-- The search for a nonce, insertion at its place, and replacement.
use kora.Base.{
  ℕ, zero, suc, ◌+◌, ◌≤◌, ◌<◌, ◌≡◌, refl, ap, inl, inr, List, [], ◌∷◌, none, some, arith, ltb, ◌==◌,
  if◌then◌else◌, length, get_elem?, set, All, Bool-cases, ltb→lt, ==→eq, ==→ne,
}
use kora.TxPool.Transaction.{OrderedTransaction}
use kora.TxPool.Queue.{Search, hit, miss, shift, search_nonce, insert_at, place, find_nonce}
use kora.TxPool.Queue.Nonces.{Consecutive, Ascending, find_nonce-Ascending}
use kora.TxPool.Queue.Sort.{Differs}

-- What a search reports of an ascending list: the transaction with the nonce, or its place.
abbrev pub Finds : OrderedTransaction → List OrderedTransaction → Search → Type 0
Finds t xs (hit i) =
    (e : OrderedTransaction) × (get_elem? xs i ≡ some e)
    × (find_nonce t.nonce xs ≡ some e)
    × (e.nonce ≡ t.nonce)
Finds t xs (miss i) =
    (find_nonce t.nonce xs ≡ none) × (insert_at i t xs ≡ place t xs) × All (Differs t) xs

Finds-shift :
    (t x : OrderedTransaction) (xs : List OrderedTransaction) (r : Search)
    → x.nonce < t.nonce
    → Finds t xs r
    → Finds t (x ∷ xs) (shift r)
unfolding find_nonce insert_at place
Finds-shift t x xs (hit i) h f = (f.0, f.1, ground arith, f.3)
Finds-shift t x xs (miss i) h f = (ground arith, ground arith, (omega arith, f.2))

All-Differs :
    (n : ℕ) (t : OrderedTransaction) (xs : List OrderedTransaction)
    → t.nonce < n
    → Ascending n xs
    → All (Differs t) xs
All-Differs n t [] h a = tt
All-Differs n t (x ∷ xs) h a = (omega arith, All-Differs (suc x.nonce) t xs (omega arith) a.1)

pub search_nonce-Finds :
    (m : ℕ) (t : OrderedTransaction) (xs : List OrderedTransaction)
    → Ascending m xs
    → Finds t xs (search_nonce t.nonce xs)
unfolding search_nonce find_nonce insert_at place
search_nonce-Finds m t [] a = (refl, refl, tt)
search_nonce-Finds m t (x ∷ xs) a = elim (Bool-cases (ltb x.nonce t.nonce)) [
  | inl less ↦
      rw less (Finds-shift t x xs _ (ltb→lt _ _ less) (search_nonce-Finds (suc x.nonce) t xs a.1))
  | inr more ↦ elim (Bool-cases (x.nonce == t.nonce)) [
    | inl e ↦ rw (more, e) (x, refl, rw e refl, ==→eq _ _ e)
    | inr n ↦
        rw (more, n)
          (
            rw n (find_nonce-Ascending t.nonce (suc x.nonce) xs (ground arith) a.1),
            ground arith,
            (==→ne _ _ n, All-Differs (suc x.nonce) t xs (ground arith) a.1),
          )
  ]
]

pub get_elem?-Ascending :
    (n : ℕ) (xs : List OrderedTransaction) (i : ℕ) (e : OrderedTransaction)
    → Ascending n xs
    → get_elem? xs i ≡ some e
    → n ≤ e.nonce
get_elem?-Ascending n [] i e a g = cc
get_elem?-Ascending n (x ∷ xs) zero e a g = ground arith
get_elem?-Ascending n (x ∷ xs) (suc i) e a g =
    omega (arith, get_elem?-Ascending (suc x.nonce) xs i e a.1 g)

-- Writing a transaction over one with its nonce changes that nonce alone.
pub find_nonce-set :
    (n m : ℕ) (xs : List OrderedTransaction) (i : ℕ) (t e : OrderedTransaction)
    → Ascending n xs
    → get_elem? xs i ≡ some e
    → e.nonce ≡ t.nonce
    → find_nonce m (set xs i t) ≡ (if t.nonce == m then some t else find_nonce m xs)
unfolding find_nonce
find_nonce-set n m [] i t e a g k = cc
find_nonce-set n m (x ∷ xs) zero t e a g k = ground arith
find_nonce-set n m (x ∷ xs) (suc i) t e a g k = ground (
  arith,
  find_nonce-set (suc x.nonce) m xs i t e a.1 g k,
  get_elem?-Ascending (suc x.nonce) xs i e a.1 g,
)

pub set-Ascending :
    (n : ℕ) (xs : List OrderedTransaction) (i : ℕ) (t e : OrderedTransaction)
    → Ascending n xs
    → get_elem? xs i ≡ some e
    → e.nonce ≡ t.nonce
    → Ascending n (set xs i t)
set-Ascending n [] i t e a g k = tt
set-Ascending n (x ∷ xs) zero t e a g k =
    let same : x.nonce ≡ e.nonce = ground arith in (omega arith, rw (← k, ← same) a.1)
set-Ascending n (x ∷ xs) (suc i) t e a g k = (a.0, set-Ascending (suc x.nonce) xs i t e a.1 g k)

pub set-Consecutive :
    (n : ℕ) (xs : List OrderedTransaction) (i : ℕ) (t : OrderedTransaction)
    → Consecutive n xs
    → t.nonce ≡ n + i
    → Consecutive n (set xs i t)
set-Consecutive n [] i t c k = tt
set-Consecutive n (x ∷ xs) zero t c k = (omega arith, c.1)
set-Consecutive n (x ∷ xs) (suc i) t c k = (c.0, set-Consecutive (suc n) xs i t c.1 (omega arith))

pub length-set :
    (xs : List OrderedTransaction) (i : ℕ) (t : OrderedTransaction)
    → length (set xs i t) ≡ length xs
length-set [] i t = refl
length-set (x ∷ xs) zero t = refl
length-set (x ∷ xs) (suc i) t = ap suc (length-set xs i t)

-- A run has a transaction at each offset.
pub get_elem?-Consecutive :
    (n : ℕ) (xs : List OrderedTransaction) (i : ℕ)
    → Consecutive n xs
    → i < length xs
    → (e : OrderedTransaction) × (get_elem? xs i ≡ some e)
      × (find_nonce (n + i) xs ≡ some e)
      × (e.nonce ≡ n + i)
unfolding find_nonce
get_elem?-Consecutive n [] i c h = elim h [ ]
get_elem?-Consecutive n (x ∷ xs) zero c h = (x, refl, ground arith, omega arith)
get_elem?-Consecutive n (x ∷ xs) (suc i) c h =
    let (e, g, f, k) = get_elem?-Consecutive (suc n) xs i c.1 (omega arith) in
    (e, g, ground arith, omega arith)
