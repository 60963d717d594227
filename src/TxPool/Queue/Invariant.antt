-- ===== src/TxPool/Queue/Invariant.antt =====
-- The invariant of a sender's queue, and that each method keeps it.
use kora.Base.{
  ℕ, zero, suc, ◌+◌, ◌-◌, ◌≤◌, ◌<◌, ◌≡◌, refl, ◌∙◌, inl, inr, List, [], ◌∷◌, ◌++◌, Option, none,
  some, arith, ltb, ◌==◌, length, get_elem?, set, All, Bool-cases, ltb→lt, ltb→le, ==→eq, ==→ne,
  length-append, append_assoc, u64_max, saturating_add, saturating_add_exact,
}
use kora.TxPool.Transaction.{OrderedTransaction}
use kora.TxPool.Queue.{
  SenderQueue, promote, promote_queued, insert, insert_queued, insert_pending, displace, hit, miss,
  next_pending_nonce, Search, fill,
}
use kora.TxPool.Queue.Nonces.{Consecutive, Ascending, Consecutive-append, Ascending-weaken}
use kora.TxPool.Queue.Slots.{
  Finds, search_nonce-Finds, set-Ascending, set-Consecutive, length-set, get_elem?-Consecutive,
}
use kora.TxPool.Queue.Sort.{All-place, place-Ascending}

-- A nonce that can be followed by another: EIP-2681 caps account nonces below 2^64 - 1.
abbrev pub Usable : OrderedTransaction → Type 0
Usable t = t.nonce < u64_max

-- The parts of a queue that follow the first nonce.
pub record Ordered (next : ℕ) (pending queued : List OrderedTransaction) : Type 0 where
  pub consecutive : Consecutive next pending
  pub ascending : Ascending (suc (next + length pending)) queued
  pub in_range : next + length pending ≤ u64_max
  pub usable : All Usable queued

-- The pending nonces run from `next_nonce` without a gap; the queued ones ascend strictly, and lie
-- beyond the gap; the next pending nonce does not saturate.
abbrev pub IsWellFormed : SenderQueue → Type 0
IsWellFormed q = Ordered q.next_nonce q.pending q.queued

pub promote-Ordered :
    (next : ℕ) (pending queued : List OrderedTransaction)
    → Consecutive next pending
    → Ascending (next + length pending) queued
    → next + length pending ≤ u64_max
    → All Usable queued
    → Ordered next (promote next pending queued).0 (promote next pending queued).1
unfolding promote
promote-Ordered next pending [] c a h u = record {
  consecutive = c;
  ascending = tt;
  in_range = h;
  usable = tt;
}
promote-Ordered next pending (t ∷ ts) c a h u =
    let exact = saturating_add_exact next (length pending) h in
    let size = length-append pending (t ∷ []) in
    elim (Bool-cases (t.nonce == saturating_add next (length pending))) [
      | inl same ↦
          let e : t.nonce ≡ next + length pending = ==→eq _ _ same ∙ exact in
          rw same (
            promote-Ordered next (pending ++ t ∷ []) ts (Consecutive-append next pending t c e)
              (Ascending-weaken _ _ ts (omega arith) a.1) (omega arith) u.1)
      | inr differs ↦
          let n = ==→ne _ _ differs in
          rw differs
            (record { consecutive = c; ascending = (omega arith, a.1); in_range = h; usable = u })
    ]

-- The loop moves transactions over the border and drops none.
pub promote-append :
    (next : ℕ) (pending queued : List OrderedTransaction)
    → (promote next pending queued).0 ++ (promote next pending queued).1 ≡ pending ++ queued
unfolding promote
promote-append next pending [] = refl
promote-append next pending (t ∷ ts) =
    elim (Bool-cases (t.nonce == saturating_add next (length pending))) [
      | inl same ↦
          rw same (promote-append next (pending ++ t ∷ []) ts ∙ append_assoc pending (t ∷ []) ts)
      | inr differs ↦ rw differs refl
    ]

All-set :
    (xs : List OrderedTransaction) (i : ℕ) (t : OrderedTransaction)
    → Usable t
    → All Usable xs
    → All Usable (set xs i t)
All-set [] i t p a = tt
All-set (x ∷ xs) zero t p a = (p, a.1)
All-set (x ∷ xs) (suc i) t p a = (a.0, All-set xs i t p a.1)

-- What a replacement in the queued part leaves.
displace-queued :
    (next : ℕ) (pending queued : List OrderedTransaction) (pos : ℕ) (t e : OrderedTransaction)
    → Ordered next pending queued
    → Usable t
    → get_elem? queued pos ≡ some e
    → e.nonce ≡ t.nonce
    → Ordered next pending (displace queued pos t).0
unfolding displace
displace-queued next pending queued pos t e o u g k =
    elim (Bool-cases (ltb e.effective_gas_price t.effective_gas_price)) [
      | inl wins ↦
          rw (g, displace, wins)
            (record {
              consecutive = o.consecutive;
              in_range = o.in_range;
              ascending = set-Ascending _ queued pos t e o.ascending g k;
              usable = All-set queued pos t u o.usable;
            })
      | inr loses ↦ rw (g, displace, loses) o
    ]

fill-IsWellFormed :
    (q : SenderQueue) (t : OrderedTransaction) (r : Search)
    → IsWellFormed q
    → Usable t
    → q.next_nonce + length q.pending < t.nonce
    → Finds t q.queued r
    → IsWellFormed (fill q t r).0
unfolding fill
fill-IsWellFormed q t (hit i) o u h (e, g, f, k) =
    displace-queued q.next_nonce q.pending q.queued i t e o u g k
fill-IsWellFormed q t (miss i) o u h (f, same, d) = rw same (record {
  consecutive = o.consecutive;
  in_range = o.in_range;
  ascending = place-Ascending _ t q.queued h d o.ascending;
  usable = All-place Usable t q.queued u o.usable;
})

displace-pending :
    (next : ℕ) (pending queued : List OrderedTransaction) (t e : OrderedTransaction)
    → Ordered next pending queued
    → next ≤ t.nonce
    → get_elem? pending (t.nonce - next) ≡ some e
    → Ordered next (displace pending (t.nonce - next) t).0 queued
unfolding displace
displace-pending next pending queued t e o h g =
    elim (Bool-cases (ltb e.effective_gas_price t.effective_gas_price)) [
      | inl wins ↦
          let size = length-set pending (t.nonce - next) t in
          rw (g, displace, wins)
            (record {
              consecutive =
                  set-Consecutive next pending (t.nonce - next) t o.consecutive (omega arith);
              ascending = rw size o.ascending;
              in_range = rw size o.in_range;
              usable = o.usable;
            })
      | inr loses ↦ rw (g, displace, loses) o
    ]

insert_pending-IsWellFormed :
    (q : SenderQueue) (t : OrderedTransaction)
    → IsWellFormed q
    → q.next_nonce ≤ t.nonce
    → t.nonce < q.next_nonce + length q.pending
    → IsWellFormed (insert_pending q t).0
unfolding insert_pending
insert_pending-IsWellFormed q t o h k =
    let i = t.nonce - q.next_nonce in
    let (e, g, _, _) = get_elem?-Consecutive q.next_nonce q.pending i o.consecutive (omega arith) in
    displace-pending q.next_nonce q.pending q.queued t e o h g

append-Ordered :
    (q : SenderQueue) (t : OrderedTransaction)
    → IsWellFormed q
    → Usable t
    → t.nonce ≡ q.next_nonce + length q.pending
    → IsWellFormed (promote_queued (record q { pending = q.pending ++ t ∷ [] }))
unfolding promote_queued
append-Ordered q t o u e =
    let size = length-append q.pending (t ∷ []) in
    promote-Ordered q.next_nonce (q.pending ++ t ∷ []) q.queued
      (Consecutive-append q.next_nonce q.pending t o.consecutive e)
      (Ascending-weaken _ _ q.queued (omega arith) o.ascending) (omega arith) o.usable

-- `insert` as its four branches, with the tests read as orders on nonces.
pub insert_cases {ℓ} :
    (P : SenderQueue × Option OrderedTransaction → Type ℓ) (q : SenderQueue)
    (t : OrderedTransaction)
    → IsWellFormed q
    → (t.nonce < q.next_nonce → P (q, some t))
    → (t.nonce ≡ q.next_nonce + length q.pending
        → P (promote_queued (record q { pending = q.pending ++ t ∷ [] }), none))
    → (q.next_nonce + length q.pending < t.nonce → P (insert_queued q t))
    → (q.next_nonce ≤ t.nonce → t.nonce < q.next_nonce + length q.pending → P (insert_pending q t))
    → P (insert q t)
unfolding insert next_pending_nonce
insert_cases P q t o low next gap inside =
    rw (saturating_add_exact q.next_nonce (length q.pending) o.in_range)
      (elim (Bool-cases (ltb t.nonce q.next_nonce)) [
        | inl l ↦ rw l (low (ltb→lt _ _ l))
        | inr h ↦ rw h (elim (Bool-cases (t.nonce == q.next_nonce + length q.pending)) [
          | inl e ↦ rw e (next (==→eq _ _ e))
          | inr n ↦ rw n (elim (Bool-cases (ltb (q.next_nonce + length q.pending) t.nonce)) [
            | inl g ↦ rw g (gap (ltb→lt _ _ g))
            | inr s ↦ rw s (inside (ltb→le _ _ h) (ground arith))
          ])
        ])
      ])

-- Inserting a transaction with a nonce below 2^64 - 1 keeps the queue well formed, whatever branch
-- the insertion takes.
pub insert-IsWellFormed :
    (q : SenderQueue) (t : OrderedTransaction)
    → IsWellFormed q
    → Usable t
    → IsWellFormed (insert q t).0
unfolding insert_queued
insert-IsWellFormed q t o u =
    insert_cases (λ r. IsWellFormed r.0) q t o (λ _. o) (append-Ordered q t o u)
      (λ h. fill-IsWellFormed q t _ o u h (search_nonce-Finds _ t q.queued o.ascending))
      (insert_pending-IsWellFormed q t o)
