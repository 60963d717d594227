-- ===== src/Ledger/Stale.antt =====
-- `prune_stale_nonces`: what it leaves in the transaction pool.
use kora.Base.{
  ℕ, zero, suc, ◌≤◌, ◌≡◌, refl, ap, ◌∙◌, inl, inr, Bool, false, ◌&&◌, List, [], ◌∷◌, Option, none,
  some, arith, ltb, ◌==◌, if◌then◌else◌, Map, get, Bool-cases, ==→eq, u64_max,
}
use kora.TxPool.Queue.{SenderQueue}
use kora.TxPool.Pool.{PoolInner}
use kora.TxPool.Pool.Index.{at}
use kora.TxPool.Pool.Capacity.{IsConsistent}
use kora.TxPool.Methods.{senders, keys}
use kora.TxPool.Methods.Removals.{remove_confirmed-Confirms}
use kora.Qmdb.Handle.{nonce}
use kora.Consensus.Snapshot.{elem}
use kora.Ledger.{LedgerState, drop_below, drop_stale, prune_stale_nonces}

-- A nonce below the finalized one, where that can be read.
abbrev pub stale : Option ℕ → ℕ → Bool
stale none n = false
stale (some finalized) n = ltb n finalized

abbrev pub Bounded : (ℕ → Option ℕ) → Type 0
Bounded finalized = (s m : ℕ) → finalized s ≡ some m → m ≤ u64_max

-- The specification: the pool has lost the stale transactions, and no others.
pub record DropsStale (finalized : ℕ → Option ℕ) (pool r : PoolInner) : Type 0 where
  pub consistent : IsConsistent r
  pub contents :
      (s n : ℕ)
      → at r.by_sender s n ≡ (if stale (finalized s) n then none else at pool.by_sender s n)

record Drops (finalized : ℕ → Option ℕ) (ss : List ℕ) (pool r : PoolInner) : Type 0 where
  consistent : IsConsistent r
  contents :
      (s n : ℕ)
      → at r.by_sender s n
        ≡ (if elem s ss && stale (finalized s) n then none else at pool.by_sender s n)

module _ (id_of : List ℕ → ℕ) where
  drop_below-Drops :
      (o : Option ℕ) (sender : ℕ) (pool : PoolInner)
      → ((m : ℕ) → o ≡ some m → m ≤ u64_max)
      → IsConsistent pool
      → IsConsistent (drop_below id_of o sender pool)
        × ((s n : ℕ)
            → at (drop_below id_of o sender pool).by_sender s n
              ≡ (if (s == sender) && stale o n then none else at pool.by_sender s n))
  drop_below-Drops none sender pool h k = (k, λ s n. ground arith)
  drop_below-Drops (some zero) sender pool h k = (k, λ s n. ground arith)
  drop_below-Drops (some (suc c)) sender pool h k =
      let r =
        remove_confirmed-Confirms id_of pool sender c k (let b = h (suc c) refl in omega arith) in
      (r.consistent, λ s n. ground (arith, r.contents s n))

  drop_stale-Drops :
      (finalized : ℕ → Option ℕ) (ss : List ℕ) (pool : PoolInner)
      → Bounded finalized
      → IsConsistent pool
      → Drops finalized ss pool (drop_stale id_of finalized ss pool)
  unfolding drop_stale
  drop_stale-Drops finalized [] pool h k = record { consistent = k; contents = λ s n. refl }
  drop_stale-Drops finalized (x ∷ ss) pool h k =
      let (next, cut) = drop_below-Drops (finalized x) x pool (h x) k in
      let deep = drop_stale-Drops finalized ss (drop_below id_of (finalized x) x pool) h next in
      record {
        consistent = deep.consistent;
        contents = λ s n. deep.contents s n ∙ elim (Bool-cases (s == x)) [
          | inl e ↦ ground (arith, cut s n, e, ap (λ y. stale (finalized y) n) (==→eq s x e))
          | inr e ↦ ground (arith, cut s n, e)
        ];
      }

  -- A sender without a queue has no transaction.
  at-keys : (m : Map SenderQueue) (s : ℕ) → elem s (keys m) ≡ false → get s m ≡ none
  unfolding get
  at-keys [] s e = refl
  at-keys ((x, q) ∷ m) s e = ground (arith, e, at-keys m s)

  -- From a consistent pool, over a store whose nonces fit 64 bits, the pool loses exactly the
  -- transactions whose nonce is below what can be read of their sender's finalized nonce, whoever
  -- the sender is, and is consistent again.
  pub prune_stale_nonces-DropsStale :
      (l : LedgerState)
      → Bounded (nonce l.qmdb)
      → IsConsistent l.mempool
      → DropsStale (nonce l.qmdb) l.mempool (prune_stale_nonces id_of l).mempool
  unfolding prune_stale_nonces senders
  prune_stale_nonces-DropsStale l h k =
      let r = drop_stale-Drops (nonce l.qmdb) (keys l.mempool.by_sender) l.mempool h k in
      record {
        consistent = r.consistent;
        contents = λ s n. r.contents s n ∙ elim (Bool-cases (elem s (keys l.mempool.by_sender))) [
          | inl e ↦ rw e refl
          | inr e ↦ rw (e, at-keys l.mempool.by_sender s e) (ground arith)
        ];
      }
