-- ===== src/TxPool/Queue/Nonces.antt =====
-- Nonces along a list: consecutive runs, ascending lists, and the search for a nonce.
use kora.Base.{
  ℕ, suc, ◌+◌, ◌≤◌, ◌<◌, ◌≡◌, ◌⊎◌, inl, refl, List, [], ◌∷◌, ◌++◌, none, some, arith, ltb,
  if◌then◌else◌, length, All, retain, or_else,
}
use kora.TxPool.Transaction.{OrderedTransaction}
use kora.TxPool.Queue.{find_nonce, above}

-- The nonces are n, n + 1, and so on.
abbrev pub Consecutive : ℕ → List OrderedTransaction → Type 0
Consecutive n [] = Unit {0}
Consecutive n (t ∷ ts) = (t.nonce ≡ n) × Consecutive (suc n) ts

-- The nonces ascend strictly, from n on.
abbrev pub Ascending : ℕ → List OrderedTransaction → Type 0
Ascending n [] = Unit {0}
Ascending n (t ∷ ts) = (n ≤ t.nonce) × Ascending (suc t.nonce) ts

abbrev pub AtLeast : ℕ → OrderedTransaction → Type 0
AtLeast n t = n ≤ t.nonce

abbrev pub AtMost : ℕ → OrderedTransaction → Type 0
AtMost n t = t.nonce ≤ n

pub Consecutive-append :
    (n : ℕ) (xs : List OrderedTransaction) (t : OrderedTransaction)
    → Consecutive n xs
    → t.nonce ≡ n + length xs
    → Consecutive n (xs ++ t ∷ [])
Consecutive-append n [] t c e = (omega arith, tt)
Consecutive-append n (x ∷ xs) t c e = (c.0, Consecutive-append (suc n) xs t c.1 (omega arith))

pub Ascending-weaken :
    (m n : ℕ) (xs : List OrderedTransaction) → m ≤ n → Ascending n xs → Ascending m xs
Ascending-weaken m n [] h a = tt
Ascending-weaken m n (x ∷ xs) h a = (omega arith, a.1)

pub Ascending-of_Consecutive :
    (n : ℕ) (xs : List OrderedTransaction) → Consecutive n xs → Ascending n xs
Ascending-of_Consecutive n [] c = tt
Ascending-of_Consecutive n (x ∷ xs) c = (
  omega arith,
  Ascending-weaken (suc x.nonce) (suc n) xs (omega arith) (Ascending-of_Consecutive (suc n) xs c.1),
)

pub All-Ascending :
    (m n : ℕ) (xs : List OrderedTransaction) → m ≤ n → Ascending n xs → All (AtLeast m) xs
All-Ascending m n [] h a = tt
All-Ascending m n (x ∷ xs) h a = (omega arith, All-Ascending m (suc x.nonce) xs (omega arith) a.1)

pub find_nonce-append :
    (m : ℕ) (xs ys : List OrderedTransaction)
    → find_nonce m (xs ++ ys) ≡ or_else (find_nonce m xs) (find_nonce m ys)
unfolding find_nonce
find_nonce-append m [] ys = refl
find_nonce-append m (x ∷ xs) ys = ground (arith, find_nonce-append m xs ys)

pub find_nonce-Ascending :
    (m n : ℕ) (xs : List OrderedTransaction) → m < n → Ascending n xs → find_nonce m xs ≡ none
unfolding find_nonce
find_nonce-Ascending m n [] h a = refl
find_nonce-Ascending m n (x ∷ xs) h a = ground (arith, find_nonce-Ascending m (suc x.nonce) xs)

-- A run holds exactly the nonces of its range.
pub find_nonce_beyond :
    (m n : ℕ) (xs : List OrderedTransaction)
    → Consecutive n xs
    → n + length xs ≤ m
    → find_nonce m xs ≡ none
unfolding find_nonce
find_nonce_beyond m n [] c h = refl
find_nonce_beyond m n (x ∷ xs) c h = ground (arith, find_nonce_beyond m (suc n) xs)

pub find_nonce-nonce :
    (m : ℕ) (xs : List OrderedTransaction) (t : OrderedTransaction)
    → find_nonce m xs ≡ some t
    → t.nonce ≡ m
unfolding find_nonce
find_nonce-nonce m [] t e = cc
find_nonce-nonce m (x ∷ xs) t e = ground (arith, find_nonce-nonce m xs t)

-- What `retain` keeps above a confirmed nonce.
pub find_nonce-retain :
    (m c : ℕ) (xs : List OrderedTransaction)
    → find_nonce m (retain (above c) xs) ≡ (if ltb c m then find_nonce m xs else none)
unfolding find_nonce
find_nonce-retain m c [] = ground arith
find_nonce-retain m c (x ∷ xs) = ground (arith, find_nonce-retain m c xs)

pub Ascending-retain :
    (n c : ℕ) (xs : List OrderedTransaction) → Ascending n xs → Ascending n (retain (above c) xs)
Ascending-retain n c [] a = tt
Ascending-retain n c (x ∷ xs) a = ground (
  arith,
  Ascending-retain (suc x.nonce) c xs a.1,
  Ascending-weaken n (suc x.nonce) (retain (above c) xs),
)

pub Ascending-retain-above :
    (n c : ℕ) (xs : List OrderedTransaction)
    → Ascending n xs
    → Ascending (suc c) (retain (above c) xs)
Ascending-retain-above n c [] a = tt
Ascending-retain-above n c (x ∷ xs) a =
    ground (
      arith,
      Ascending-retain-above (suc x.nonce) c xs a.1,
      Ascending-retain (suc x.nonce) c xs a.1,
    )

-- Below the run nothing goes.
pub retain_all :
    (n c : ℕ) (xs : List OrderedTransaction) → Consecutive n xs → c < n → retain (above c) xs ≡ xs
retain_all n c [] k h = refl
retain_all n c (x ∷ xs) k h = ground (arith, retain_all (suc n) c xs k.1)

-- From the run's first nonce on, what is kept is the run that follows the confirmed nonce.
pub Consecutive-retain :
    (n c : ℕ) (xs : List OrderedTransaction)
    → Consecutive n xs
    → n ≤ suc c
    → Consecutive (suc c) (retain (above c) xs)
      × ((retain (above c) xs ≡ []) ⊎ (suc c + length (retain (above c) xs) ≡ n + length xs))
Consecutive-retain n c [] k h = (tt, inl refl)
Consecutive-retain n c (x ∷ xs) k h =
    ground (arith, Consecutive-retain (suc n) c xs k.1, retain_all (suc n) c xs k.1)
