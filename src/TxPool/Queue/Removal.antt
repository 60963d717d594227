-- ===== src/TxPool/Queue/Removal.antt =====
-- Removal by hash and removal of confirmed nonces keep a sender's queue well formed.
use kora.Base.{
  ℕ, zero, suc, ◌+◌, ◌≤◌, ◌<◌, ◌≡◌, refl, ap, ◌∙◌, ◌⊎◌, inl, inr, List, [], ◌∷◌, ◌++◌, Option, none,
  some, arith, leb, length, get_elem?, take, drop, retain, All, All-append, All-imp, Bool-cases,
  Option-cases, leb→le, u64_max, saturating_add, saturating_add_exact,
}
use native.Mathlib.Nat.{add-zero, add-suc, suc-add}
use kora.TxPool.Transaction.{OrderedTransaction}
use kora.TxPool.Queue.{
  SenderQueue, remove_by_hash, remove_confirmed, promote_queued, position, remove_at, sort_by_nonce,
  above,
}
use kora.TxPool.Queue.Nonces.{
  Consecutive, Ascending, AtLeast, Ascending-weaken, All-Ascending, Ascending-of_Consecutive,
  Ascending-retain, Ascending-retain-above, Consecutive-retain, retain_all,
}
use kora.TxPool.Queue.Sort.{
  All-sort_by_nonce, sort_by_nonce-Ascending, Distinct-of_Ascending, Distinct-append,
}
use kora.TxPool.Queue.Invariant.{Usable, Ordered, IsWellFormed, promote-Ordered}

-- Where a hash is found, and that it is the first there.
pub position-get_elem? :
    (h : ℕ) (xs : List OrderedTransaction) (i : ℕ)
    → position h xs ≡ some i
    → (e : OrderedTransaction) × (get_elem? xs i ≡ some e) × (e.hash ≡ h) × (i < length xs)
unfolding position
position-get_elem? h [] i p = cc
position-get_elem? h (x ∷ xs) zero p = (x, refl, ground arith, omega arith)
position-get_elem? h (x ∷ xs) (suc i) p =
    let (e, g, k, l) = position-get_elem? h xs i (ground arith) in (e, g, k, omega arith)

-- A run with its i-th transaction out: the part before it, and the part after it.
pub record Split (n i : ℕ) (before after : List OrderedTransaction) : Type 0 where
  pub before_run : Consecutive n before
  pub before_size : length before ≡ i
  pub after_run : Consecutive (suc (n + i)) after

pub remove_at-Split :
    (n : ℕ) (xs : List OrderedTransaction) (i : ℕ)
    → Consecutive n xs
    → i < length xs
    → Split n i (take i (remove_at i xs)) (drop i (remove_at i xs))
unfolding remove_at
remove_at-Split n [] i c h = elim h [ ]
remove_at-Split n (x ∷ xs) zero c h = record {
  before_run = tt;
  before_size = refl;
  after_run = rw (add-zero n) c.1;
}
remove_at-Split n (x ∷ xs) (suc i) c h =
    let s = remove_at-Split (suc n) xs i c.1 (omega arith) in
    record {
      before_run = (c.0, s.before_run);
      before_size = ap suc s.before_size;
      after_run = rw (add-suc n i, ← suc-add n i) s.after_run;
    }

Usable-of_run :
    (n : ℕ) (xs : List OrderedTransaction)
    → Consecutive n xs
    → n + length xs ≤ u64_max
    → All Usable xs
Usable-of_run n [] c h = tt
Usable-of_run n (x ∷ xs) c h = (omega arith, Usable-of_run (suc n) xs c.1 (omega arith))

All-take-drop {ℓ} :
    (P : OrderedTransaction → Type ℓ) (i : ℕ) (xs : List OrderedTransaction)
    → All P xs
    → All P (take i xs) × All P (drop i xs)
All-take-drop P zero xs a = (tt, a)
All-take-drop P (suc i) [] a = (tt, tt)
All-take-drop P (suc i) (x ∷ xs) a = let (l, r) = All-take-drop P i xs a.1 in ((a.0, l), r)

pub All-remove_at {ℓ} :
    (P : OrderedTransaction → Type ℓ) (i : ℕ) (xs : List OrderedTransaction)
    → All P xs
    → All P (remove_at i xs)
unfolding remove_at
All-remove_at P i [] a = tt
All-remove_at P zero (x ∷ xs) a = a.1
All-remove_at P (suc i) (x ∷ xs) a = (a.0, All-remove_at P i xs a.1)

below_end :
    (n : ℕ) (xs : List OrderedTransaction)
    → Consecutive n xs
    → All (λ x. x.nonce < n + length xs) xs
below_end n [] c = tt
below_end n (x ∷ xs) c = (omega arith, All-imp (λ y h. omega arith) xs (below_end (suc n) xs c.1))

Ascending-remove_at :
    (n : ℕ) (xs : List OrderedTransaction) (i : ℕ) → Ascending n xs → Ascending n (remove_at i xs)
unfolding remove_at
Ascending-remove_at n [] i a = tt
Ascending-remove_at n (x ∷ xs) zero a = Ascending-weaken n (suc x.nonce) xs (omega arith) a.1
Ascending-remove_at n (x ∷ xs) (suc i) a = (a.0, Ascending-remove_at (suc x.nonce) xs i a.1)

-- Taking the i-th pending transaction out: the ones behind it join the queued ones.
remove-pending :
    (next : ℕ) (pending queued : List OrderedTransaction) (i : ℕ)
    → Ordered next pending queued
    → i < length pending
    → let rest = remove_at i pending in
      Ordered next (take i rest) (sort_by_nonce (queued ++ drop i rest))
remove-pending next pending queued i o h =
    let rest = remove_at i pending in
    let s = remove_at-Split next pending i o.consecutive h in
    let usable = Usable-of_run next pending o.consecutive o.in_range in
    let moved = All-take-drop Usable i rest (All-remove_at Usable i pending usable) in
    let low =
      (All-take-drop (λ x. x.nonce < next + length pending) i rest
        (All-remove_at _ i pending (below_end next pending o.consecutive))).1 in
    let behind = Ascending-of_Consecutive (suc (next + i)) (drop i rest) s.after_run in
    record {
      consecutive = s.before_run;
      ascending = rw s.before_size (
          sort_by_nonce-Ascending (suc (next + i)) (queued ++ drop i rest)
            (All-append (AtLeast (suc (next + i))) queued (drop i rest)
              (All-Ascending _ _ queued (omega arith) o.ascending)
              (All-Ascending _ _ (drop i rest) (omega arith) behind))
            (Distinct-append (suc (next + length pending)) queued (drop i rest)
              (Distinct-of_Ascending _ queued o.ascending)
              (Distinct-of_Ascending _ (drop i rest) behind)
              (All-Ascending _ _ queued (omega arith) o.ascending)
              (All-imp (λ y k. omega arith) (drop i rest) low)));
      in_range = rw s.before_size (omega (arith, o.in_range));
      usable =
          All-sort_by_nonce Usable (queued ++ drop i rest)
            (All-append Usable queued (drop i rest) o.usable moved.1);
    }

remove-queued :
    (next : ℕ) (pending queued : List OrderedTransaction) (i : ℕ)
    → Ordered next pending queued
    → Ordered next pending (remove_at i queued)
remove-queued next pending queued i o = record {
  consecutive = o.consecutive;
  ascending = Ascending-remove_at _ queued i o.ascending;
  in_range = o.in_range;
  usable = All-remove_at Usable i queued o.usable;
}

-- `remove_by_hash` as its three branches.
pub remove_by_hash_cases {ℓ} :
    (P : SenderQueue × Option OrderedTransaction → Type ℓ) (q : SenderQueue) (h : ℕ)
    → ((i : ℕ)
        → position h q.pending ≡ some i
        → let rest = remove_at i q.pending in
          P (
            record q { pending = take i rest; queued = sort_by_nonce (q.queued ++ drop i rest) },
            get_elem? q.pending i,
          ))
    → ((i : ℕ)
        → position h q.pending ≡ none
        → position h q.queued ≡ some i
        → P (record q { queued = remove_at i q.queued }, get_elem? q.queued i))
    → (position h q.pending ≡ none → position h q.queued ≡ none → P (q, none))
    → P (remove_by_hash q h)
unfolding remove_by_hash
remove_by_hash_cases P q h first second third = elim (Option-cases (position h q.pending)) [
  | inr (i, e) ↦ rw (e, remove_by_hash) (first i e)
  | inl e ↦ elim (Option-cases (position h q.queued)) [
    | inr (j, k) ↦ rw (e, k, remove_by_hash) (second j e k)
    | inl k ↦ rw (e, k, remove_by_hash) (third e k)
  ]
]

-- Removing a hash, pending, queued or unknown, keeps the queue well formed.
pub remove_by_hash-IsWellFormed :
    (q : SenderQueue) (h : ℕ) → IsWellFormed q → IsWellFormed (remove_by_hash q h).0
remove_by_hash-IsWellFormed q h o =
    remove_by_hash_cases (λ r. IsWellFormed r.0) q h
      (λ i e.
        remove-pending q.next_nonce q.pending q.queued i o (position-get_elem? h q.pending i e).3)
      (λ i _ _. remove-queued q.next_nonce q.pending q.queued i o) (λ _ _. o)

All-retain :
    (c : ℕ) (xs : List OrderedTransaction) → All Usable xs → All Usable (retain (above c) xs)
All-retain c [] a = tt
All-retain c (x ∷ xs) a = ground (arith, All-retain c xs a.1)

-- Behind what stays pending, the kept queued nonces ascend.
after_left :
    (q : SenderQueue) (c : ℕ) (left : List OrderedTransaction)
    → IsWellFormed q
    → c < u64_max
    → (left ≡ []) ⊎ (suc c + length left ≡ q.next_nonce + length q.pending)
    → Ascending (suc c + length left) (retain (above c) q.queued) × (suc c + length left ≤ u64_max)
after_left q c left o h (inl e) = (
  rw e (
      Ascending-weaken (suc c + 0) (suc c) _ (omega arith)
        (Ascending-retain-above _ c q.queued o.ascending)),
  rw e (omega arith),
)
after_left q c left o h (inr e) = (
  rw e (Ascending-retain _ c q.queued (Ascending-weaken _ _ q.queued (omega arith) o.ascending)),
  rw e o.in_range,
)

-- Removing the nonces up to one below 2^64 - 1 keeps the queue well formed: what stays pending
-- follows the confirmed nonce.
pub remove_confirmed-IsWellFormed :
    (q : SenderQueue) (c : ℕ) → IsWellFormed q → c < u64_max → IsWellFormed (remove_confirmed q c)
unfolding remove_confirmed promote_queued
remove_confirmed-IsWellFormed q c o h = elim (Bool-cases (leb q.next_nonce c)) [
  | inl late ↦
      let le = leb→le _ _ late in
      let next : saturating_add c 1 ≡ suc c =
        saturating_add_exact c 1 (omega arith) ∙ omega arith in
      let (run, size) = Consecutive-retain q.next_nonce c q.pending o.consecutive (omega arith) in
      rw (late, next)
        (promote-Ordered (suc c) _ _ run (after_left q c _ o h size).0 (after_left q c _ o h size).1
          (All-retain c q.queued o.usable))
  | inr early ↦
      let same = retain_all q.next_nonce c q.pending o.consecutive (ground arith) in
      rw (early, same)
        (promote-Ordered q.next_nonce q.pending _ o.consecutive
          (Ascending-retain _ c q.queued (Ascending-weaken _ _ q.queued (omega arith) o.ascending))
          o.in_range (All-retain c q.queued o.usable))
]
