-- ===== src/TxPool/Build/Selection.antt =====
-- The selection as a whole.
use kora.Base.{
  ℕ, zero, suc, ◌≤◌, ◌<◌, ◌≡◌, refl, subst, sym, ap, ◌∙◌, inl, inr, Bool, true, false, List, [],
  ◌∷◌, Option, none, some, arith, ◌==◌, length, take, drop, retain, Map, Sorted, get, put, get-put,
  put-KeysFrom, Option-cases, Bool-cases, ==→eq, ==-refl, All,
}
use kora.TxPool.Transaction.{OrderedTransaction}
use kora.TxPool.Build.{
  BuildSenderState, consume, consume_at, is_excluded, next_candidate, candidates, best, build_loop,
}
use kora.TxPool.Build.Candidate.{
  first, rest, IsReady, offered, next_candidate-Finds, consume-IsReady,
}
use kora.TxPool.Build.Rounds.{
  candidates-KeysFrom, stepped, candidate, get-candidates, best-get, best-none,
}

abbrev pub Mine : ℕ → OrderedTransaction → Type 0
Mine s t = t.sender ≡ s

abbrev pub of_sender : ℕ → List OrderedTransaction → List OrderedTransaction
of_sender s ts = retain (λ t. t.sender == s) ts

All-drop {ℓ} :
    (P : OrderedTransaction → Type ℓ) (n : ℕ) (xs : List OrderedTransaction)
    → All P xs
    → All P (drop n xs)
All-drop P zero xs a = a
All-drop P (suc n) [] a = tt
All-drop P (suc n) (x ∷ xs) a = All-drop P n xs a.1

of_sender-cons :
    (s : ℕ) (t : OrderedTransaction) (ts : List OrderedTransaction)
    → t.sender ≡ s
    → of_sender s (t ∷ ts) ≡ t ∷ of_sender s ts
of_sender-cons s t ts e =
    let mine : (t.sender == s) ≡ true = ap (λ x. x == s) e ∙ ==-refl s in rw mine refl

first-none : (xs : List OrderedTransaction) → first xs ≡ none → [] ≡ xs
first-none [] e = refl
first-none (x ∷ xs) e = cc

-- Every sender's state is ready and holds that sender's transactions.
pub record AreReady (m : Map BuildSenderState) : Type 0 where
  pub sorted : Sorted m
  pub ready : (s : ℕ) (st : BuildSenderState) → get s m ≡ some st → IsReady st × All (Mine s) st.txs

module _ (id_of : List ℕ → ℕ) (excluded : ℕ → Bool) where
  abbrev pub offers : Option BuildSenderState → List OrderedTransaction
  offers none = []
  offers (some st) = offered id_of excluded st

  abbrev passed : Map BuildSenderState → Map BuildSenderState
  passed m = (candidates id_of excluded m).0

  stepped-IsReady :
      (o : Option BuildSenderState) (s : ℕ) (st : BuildSenderState)
      → ((st : BuildSenderState) → o ≡ some st → IsReady st × All (Mine s) st.txs)
      → stepped id_of excluded o ≡ some st
      → IsReady st × All (Mine s) st.txs
  unfolding next_candidate
  stepped-IsReady none s st f e = cc
  stepped-IsReady (some x) s st f e =
      let (a, b) = f x refl in
      let found = next_candidate-Finds id_of excluded x a in
      let same : (next_candidate id_of excluded x).0 ≡ st = ground (arith, e) in
      subst (λ st. IsReady st × All (Mine s) st.txs) same (found.ready, b)

  offers-stepped :
      (o : Option BuildSenderState) (s : ℕ)
      → ((st : BuildSenderState) → o ≡ some st → IsReady st × All (Mine s) st.txs)
      → (offers (stepped id_of excluded o) ≡ offers o)
        × (candidate id_of excluded o ≡ first (offers o))
  offers-stepped none s f = (refl, refl)
  offers-stepped (some x) s f =
      let found = next_candidate-Finds id_of excluded x (f x refl).0 in (found.same, found.out)

  -- The state behind a candidate.
  behind :
      (o : Option BuildSenderState) (s : ℕ) (t : OrderedTransaction)
      → ((st : BuildSenderState) → o ≡ some st → IsReady st × All (Mine s) st.txs)
      → candidate id_of excluded o ≡ some t
      → (st : BuildSenderState) × (stepped id_of excluded o ≡ some st)
        × (drop st.index st.txs ≡ t ∷ rest (drop st.index st.txs))
        × (is_excluded id_of excluded t ≡ false)
  behind none s t f e = cc
  behind (some x) s t f e =
      let found = next_candidate-Finds id_of excluded x (f x refl).0 in
      ((next_candidate id_of excluded x).0, refl, (found.at_front t e).0, (found.at_front t e).1)

  module _ (m : Map BuildSenderState) (k : AreReady m) where
    passed-AreReady : AreReady (passed m)
    passed-AreReady = record {
      sorted = (candidates-KeysFrom id_of excluded 0 m k.sorted).0;
      ready = λ s st e.
          stepped-IsReady (get s m) s st (k.ready s)
            (sym (get-candidates id_of excluded s 0 m k.sorted).0 ∙ e);
    }

    offers-passed : (s : ℕ) → offers (get s (passed m)) ≡ offers (get s m)
    offers-passed s =
        ap offers (get-candidates id_of excluded s 0 m k.sorted).0
        ∙ (offers-stepped (get s m) s (k.ready s)).0

    -- One round takes the first that a sender offers, and leaves the others' offers alone.
    pub record Takes (s : ℕ) (t : OrderedTransaction) (m' : Map BuildSenderState) : Type 0 where
      pub mine : t.sender ≡ s
      pub was : offers (get s m) ≡ t ∷ offers (get s m')
      pub others : (q : ℕ) → (q == s) ≡ false → offers (get q m') ≡ offers (get q m)
      pub still : AreReady m'

    round-Takes :
        (s : ℕ) (t : OrderedTransaction)
        → best (candidates id_of excluded m).1 ≡ some (s, t)
        → Takes s t (consume_at s (passed m))
    unfolding consume_at consume
    round-Takes s t e =
        let keys = candidates-KeysFrom id_of excluded 0 m k.sorted in
        let chosen = best-get 0 (candidates id_of excluded m).1 (s, t) keys.1 e in
        let (st, g, front, keep) =
          behind (get s m) s t (k.ready s)
            (sym (get-candidates id_of excluded s 0 m k.sorted).1 ∙ chosen) in
        let here : get s (passed m) ≡ some st =
          (get-candidates id_of excluded s 0 m k.sorted).0 ∙ g in
        let (a, b) = passed-AreReady.ready s st here in
        let (next, was) =
          consume-IsReady id_of excluded st t (rest (drop st.index st.txs)) a front keep in
        let all = All-drop (Mine s) st.index st.txs b in
        let mine = (subst (All (Mine s)) front all).0 in
        let after : get s (put s (consume st) (passed m)) ≡ some (consume st) =
          get-put s s (consume st) (passed m) ∙ (rw (==-refl s) refl) in
        rw (consume_at, here)
          (record {
            mine = mine;
            was = sym (offers-passed s) ∙ ap offers here ∙ was ∙ ap (λ o. t ∷ offers o) (sym after);
            others = λ q n.
                let same : get q (put s (consume st) (passed m)) ≡ get q (passed m) =
                  get-put q s (consume st) (passed m) ∙ (rw n refl) in
                ap offers same ∙ offers-passed q;
            still = record {
              sorted = put-KeysFrom 0 s (consume st) (passed m) (omega arith) keys.0;
              ready = λ q x f. elim (Bool-cases (q == s)) [
                | inl same ↦
                    let there : consume st ≡ x =
                      ground (arith, get-put q s (consume st) (passed m), f, same) in
                    rw (==→eq q s same, ← there) (next, b)
                | inr other ↦
                    passed-AreReady.ready q x
                      (ground (arith, get-put q s (consume st) (passed m), f, other))
              ];
            };
          })

  -- The specification of a selection: no more than wanted, from each sender a prefix of what it
  -- offers, and all of it where fewer than wanted were found.
  pub record Selects (n : ℕ) (m : Map BuildSenderState) (ts : List OrderedTransaction)
      : Type 0 where
    pub within : length ts ≤ n
    pub prefix : (s : ℕ) → (j : ℕ) × (of_sender s ts ≡ take j (offers (get s m)))
    pub complete : length ts < n → (s : ℕ) → of_sender s ts ≡ offers (get s m)

  cons-Selects :
      (n : ℕ) (m m' : Map BuildSenderState) (k : AreReady m) (s : ℕ) (t : OrderedTransaction)
      (ts : List OrderedTransaction)
      → Takes m k s t m'
      → Selects n m' ts
      → Selects (suc n) m (t ∷ ts)
  cons-Selects n m m' k s t ts h w = record {
    within = let a = w.within in omega arith;
    prefix = λ q. elim (Bool-cases (q == s)) [
      | inl same ↦
          let (j, e) = w.prefix s in
          subst (λ q. (j : ℕ) × (of_sender q (t ∷ ts) ≡ take j (offers (get q m))))
            (sym (==→eq q s same))
            (
              suc j,
              of_sender-cons s t ts h.mine ∙ ap (λ xs. t ∷ xs) e ∙ ap (take (suc j)) (sym h.was),
            )
      | inr other ↦
          let (j, e) = w.prefix q in
          let foreign : (t.sender == q) ≡ false = ground (arith, h.mine, other) in
          (j, rw foreign (e ∙ ap (take j) (h.others q other)))
    ];
    complete = λ l q.
        let a = w.complete (omega arith) in
        elim (Bool-cases (q == s)) [
          | inl same ↦
              subst (λ q. of_sender q (t ∷ ts) ≡ offers (get q m)) (sym (==→eq q s same))
                (of_sender-cons s t ts h.mine ∙ ap (λ xs. t ∷ xs) (a s) ∙ sym h.was)
          | inr other ↦
              let foreign : (t.sender == q) ≡ false = ground (arith, h.mine, other) in
              rw foreign (a q ∙ h.others q other)
        ];
  }

  nothing-Selects :
      (n : ℕ) (m : Map BuildSenderState)
      → AreReady m
      → best (candidates id_of excluded m).1 ≡ none
      → Selects n m []
  nothing-Selects n m k e = record {
    within = omega arith;
    prefix = λ s. (0, refl);
    complete = λ l s.
        let none_left =
          sym (get-candidates id_of excluded s 0 m k.sorted).1
          ∙ best-none s (candidates id_of excluded m).1 e in
        first-none (offers (get s m)) (sym (offers-stepped (get s m) s (k.ready s)).1 ∙ none_left);
  }

  pub build_loop-Selects :
      (n : ℕ) (m : Map BuildSenderState) → AreReady m → Selects n m (build_loop id_of excluded n m)
  unfolding build_loop
  build_loop-Selects zero m k = record {
    within = omega arith;
    prefix = λ s. (0, refl);
    complete = λ l s. elim l [ ];
  }
  build_loop-Selects (suc n) m k = elim (Option-cases (best (candidates id_of excluded m).1)) [
    | inl e ↦ rw (build_loop, e) (nothing-Selects (suc n) m k e)
    | inr (c, e) ↦
        let m' = consume_at c.0 (passed m) in
        let taken = round-Takes m k c.0 c.1 e in
        rw (build_loop, e)
          (cons-Selects n m m' k c.0 c.1 (build_loop id_of excluded n m') taken
            (build_loop-Selects n m' taken.still))
  ]
