-- ===== src/TxPool/Build/Rounds.antt =====
-- All senders in the selection: a pass over them, the choice of the best, and the loop.
use kora.Base.{
  ℕ, suc, ◌≤◌, ◌≡◌, refl, subst, ◌∙◌, inl, inr, Bool, List, [], ◌∷◌, Option, none, some, arith,
  ◌==◌, if◌then◌else◌, Map, KeysFrom, get, get_below, KeysFrom-weaken, Option-cases, Bool-cases,
  Ordering,
}
use kora.TxPool.Transaction.{OrderedTransaction, cmp}
use kora.TxPool.Build.{BuildSenderState, next_candidate, candidates, best, better, offer}

offer-KeysFrom :
    (lo s : ℕ) (o : Option OrderedTransaction) (cs : Map OrderedTransaction)
    → lo ≤ s
    → KeysFrom (suc s) cs
    → KeysFrom lo (offer s o cs)
offer-KeysFrom lo s none cs h k = KeysFrom-weaken lo (suc s) cs (omega arith) k
offer-KeysFrom lo s (some t) cs h k = (h, k)

get-offer :
    (s r : ℕ) (o : Option OrderedTransaction) (cs : Map OrderedTransaction)
    → KeysFrom (suc r) cs
    → get s (offer r o cs) ≡ (if s == r then o else get s cs)
unfolding get
get-offer s r none cs k = ground (arith, get_below s (suc r) cs k)
get-offer s r (some t) cs k = refl

module _ (id_of : List ℕ → ℕ) (excluded : ℕ → Bool) where
  pub candidates-KeysFrom :
      (lo : ℕ) (m : Map BuildSenderState)
      → KeysFrom lo m
      → KeysFrom lo (candidates id_of excluded m).0 × KeysFrom lo (candidates id_of excluded m).1
  unfolding candidates
  candidates-KeysFrom lo [] k = (tt, tt)
  candidates-KeysFrom lo ((s, st) ∷ m) k =
      let (a, b) = candidates-KeysFrom (suc s) m k.1 in
      (
        (k.0, a),
        offer-KeysFrom lo s (next_candidate id_of excluded st).1 (candidates id_of excluded m).1 k.0
            b,
      )

  -- What a pass leaves of one sender.
  abbrev pub stepped : Option BuildSenderState → Option BuildSenderState
  stepped none = none
  stepped (some st) = some (next_candidate id_of excluded st).0

  abbrev pub candidate : Option BuildSenderState → Option OrderedTransaction
  candidate none = none
  candidate (some st) = (next_candidate id_of excluded st).1

  pub get-candidates :
      (s lo : ℕ) (m : Map BuildSenderState)
      → KeysFrom lo m
      → (get s (candidates id_of excluded m).0 ≡ stepped (get s m))
        × (get s (candidates id_of excluded m).1 ≡ candidate (get s m))
  unfolding candidates get
  get-candidates s lo [] k = (refl, refl)
  get-candidates s lo ((r, st) ∷ m) k =
      let (a, b) = get-candidates s (suc r) m k.1 in
      let joined =
        get-offer s r (next_candidate id_of excluded st).1 (candidates id_of excluded m).1
          (candidates-KeysFrom (suc r) m k.1).1 in
      elim (Bool-cases (s == r)) [
        | inl e ↦ (rw e refl, joined ∙ (rw e refl))
        | inr e ↦ (rw e a, joined ∙ (rw e b))
      ]

better_cases {ℓ} :
    (P : ℕ × OrderedTransaction → Type ℓ) (a b : ℕ × OrderedTransaction) (o : Ordering)
    → P a
    → P b
    → P (better a b o)
better_cases P a b Ordering.lt x y = x
better_cases P a b Ordering.eq x y = x
better_cases P a b Ordering.gt x y = y

-- The best candidate is one of them.
pub best-get :
    (lo : ℕ) (m : Map OrderedTransaction) (c : ℕ × OrderedTransaction)
    → KeysFrom lo m
    → best m ≡ some c
    → get c.0 m ≡ some c.1
unfolding best get
best-get lo [] c k e = cc
best-get lo ((s, t) ∷ m) c k e = elim (Option-cases (best m)) [
  | inl n ↦
      let same : (s, t) ≡ c = ground (arith, n, e) in
      subst (λ c. get c.0 ((s, t) ∷ m) ≡ some c.1) same (ground arith)
  | inr (d, n) ↦
      let same : better (s, t) d (cmp t d.1) ≡ c = ground (arith, n, e) in
      let deep = best-get (suc s) m d k.1 n in
      subst (λ c. get c.0 ((s, t) ∷ m) ≡ some c.1) same
        (better_cases (λ c. get c.0 ((s, t) ∷ m) ≡ some c.1) (s, t) d (cmp t d.1) (ground arith)
          (ground (arith, deep, get_below d.0 (suc s) m k.1)))
]

pub best-none : (s : ℕ) (m : Map OrderedTransaction) → best m ≡ none → get s m ≡ none
unfolding best get
best-none s [] e = refl
best-none s ((r, t) ∷ m) e = ground (arith, e, Option-cases (best m))
