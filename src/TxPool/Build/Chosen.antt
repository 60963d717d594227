-- ===== src/TxPool/Build/Chosen.antt =====
-- What `build` chooses from a pool.
use kora.Base.{
  ℕ, suc, ◌≤◌, ◌<◌, ◌≡◌, refl, subst, sym, ap, ◌∙◌, inl, inr, Bool, true, List, [], ◌∷◌, map,
  Option, none, some, arith, ◌==◌, if◌then◌else◌, length, take, retain, Map, KeysFrom, get,
  get_below, KeysFrom-weaken, Option-cases, Bool-cases, All,
}
use kora.TxPool.Transaction.{OrderedTransaction}
use kora.TxPool.Queue.{SenderQueue}
use kora.TxPool.Pool.{PoolInner}
use kora.TxPool.Pool.Members.{All-at, pending_tx}
use kora.TxPool.Pool.Capacity.{IsConsistent}
use kora.TxPool.Methods.{pending_for_sender}
use kora.TxPool.Build.{BuildSenderState, first_state, start, build_loop, build, ordered_to_tx}
use kora.TxPool.Build.Candidate.{IsReady, wanted}
use kora.TxPool.Build.Selection.{AreReady, Mine, offers, of_sender, build_loop-Selects}

start-KeysFrom : (lo : ℕ) (m : Map SenderQueue) → KeysFrom lo m → KeysFrom lo (start m)
unfolding start
start-KeysFrom lo [] k = tt
start-KeysFrom lo ((s, q) ∷ m) k =
    let deep = start-KeysFrom (suc s) m k.1 in
    elim (Bool-cases (length q.pending == 0)) [
      | inl e ↦ rw (start, e) (KeysFrom-weaken lo (suc s) (start m) (omega arith) deep)
      | inr e ↦ rw (start, e) (k.0, deep)
    ]

abbrev started : Option SenderQueue → Option BuildSenderState
started none = none
started (some q) = if length q.pending == 0 then none else some (first_state q)

get-start : (s lo : ℕ) (m : Map SenderQueue) → KeysFrom lo m → get s (start m) ≡ started (get s m)
unfolding start get
get-start s lo [] k = refl
get-start s lo ((r, q) ∷ m) k =
    let deep = get-start s (suc r) m k.1 in
    let below = get_below s (suc r) (start m) (start-KeysFrom (suc r) m k.1) in
    elim (Bool-cases (s == r)) [
      | inl same ↦ rw same (ground (arith, same, below))
      | inr other ↦ rw other (ground (arith, other, deep))
    ]

offers-started :
    (id_of : List ℕ → ℕ) (excluded : ℕ → Bool) (inner : PoolInner) (s : ℕ)
    → offers id_of excluded (started (get s inner.by_sender))
      ≡ retain (wanted id_of excluded) (pending_for_sender inner s)
unfolding pending_for_sender
offers-started id_of excluded inner s = go (get s inner.by_sender)
  where
    nothing :
        (xs : List OrderedTransaction)
        → (length xs == 0) ≡ true
        → [] ≡ retain (wanted id_of excluded) xs
    nothing [] e = refl
    nothing (x ∷ xs) e = ground (arith, e)

    go :
        (o : Option SenderQueue)
        → offers id_of excluded (started o)
          ≡ retain (wanted id_of excluded) (elim o [ none ↦ [] | some queue ↦ queue.pending ])
    go none = refl
    go (some q) = elim (Bool-cases (length q.pending == 0)) [
      | inl e ↦ rw e (nothing q.pending e)
      | inr e ↦ rw e refl
    ]

start-AreReady : (inner : PoolInner) → IsConsistent inner → AreReady (start inner.by_sender)
start-AreReady inner c = record {
  sorted = start-KeysFrom 0 inner.by_sender c.sorted;
  ready = λ s st e.
      let from : started (get s inner.by_sender) ≡ some st =
        sym (get-start s 0 inner.by_sender c.sorted) ∙ e in
      elim (Option-cases (get s inner.by_sender)) [
        | inl n ↦ let lost : none ≡ some st = ap started (sym n) ∙ from in cc
        | inr (q, g) ↦
            let own = c.indexed.owned s q g in
            let same : first_state q ≡ st = ground (arith, ap started (sym g) ∙ from) in
            let mine = All-at (Mine s) q.pending (λ j t f.
              own.owner t.nonce t
                (pending_tx inner.by_hash inner.by_sender c.indexed s q g j t f).0) in
            let ready : IsReady (first_state q) = record {
              run = own.formed.consecutive;
              in_range = own.formed.in_range;
            } in
            subst (λ st. IsReady st × All (Mine s) st.txs) same (ready, mine)
      ];
}

-- The specification of `build`: the block's transactions are no more than allowed, those of each
-- sender are a prefix of its pending ones without the excluded, and all of these where fewer than
-- allowed were found.
pub record Builds (id_of : List ℕ → ℕ) (excluded : ℕ → Bool) (inner : PoolInner) (n : ℕ)
    (block : List (List ℕ)) : Type 0 where
  pub txs : List OrderedTransaction
  pub encoded : block ≡ map ordered_to_tx txs
  pub within : length txs ≤ n
  pub prefix :
      (s : ℕ)
      → (j : ℕ) × (of_sender s txs
          ≡ take j (retain (wanted id_of excluded) (pending_for_sender inner s)))
  pub complete :
      length txs < n
      → (s : ℕ) → of_sender s txs ≡ retain (wanted id_of excluded) (pending_for_sender inner s)

-- From a consistent pool `build` returns at most the wanted number of transactions; those of each
-- sender are, in nonce order and without a gap but for excluded ones, the first of its pending
-- transactions that are not excluded; and where fewer than wanted come back, none was left.
pub build-Builds :
    (id_of : List ℕ → ℕ) (excluded : ℕ → Bool) (inner : PoolInner) (n : ℕ)
    → IsConsistent inner
    → Builds id_of excluded inner n (build id_of excluded inner n)
unfolding build
build-Builds id_of excluded inner n c =
    let k = build_loop-Selects id_of excluded n (start inner.by_sender) (start-AreReady inner c) in
    let same : (s : ℕ)
        → offers id_of excluded (get s (start inner.by_sender))
          ≡ retain (wanted id_of excluded) (pending_for_sender inner s) =
      λ s.
        ap (offers id_of excluded) (get-start s 0 inner.by_sender c.sorted)
        ∙ offers-started id_of excluded inner s in
    record {
      txs = build_loop id_of excluded n (start inner.by_sender);
      encoded = refl;
      within = k.within;
      prefix = λ s. let (j, e) = k.prefix s in (j, e ∙ ap (take j) (same s));
      complete = λ l s. k.complete l s ∙ same s;
    }
