-- ===== src/TxPool/Transaction/Order.antt =====
-- `Ord for OrderedTransaction` is a linear order.
use kora.Base.{ℕ, ◌≡◌, ◌<◌, ◌⊎◌, inl, inr, sym, arith, Ordering}
use kora.TxPool.Transaction.{OrderedTransaction, cmp}

<-cases : (a b : ℕ) → (a < b) ⊎ ((a ≡ b) ⊎ (b < a))
<-cases a b = ground arith

-- What comes before what: a higher price, at one price an earlier arrival, and then a lower hash.
pub data Precedes (a b : OrderedTransaction) : Type 0 where
  dearer : b.effective_gas_price < a.effective_gas_price → Precedes a b
  earlier : a.effective_gas_price ≡ b.effective_gas_price → a.timestamp < b.timestamp → Precedes a b
  lower :
      a.effective_gas_price ≡ b.effective_gas_price
      → a.timestamp ≡ b.timestamp
      → a.hash < b.hash
      → Precedes a b

-- What the sort and the minimum over candidates ask of `cmp`.
pub record IsLinear (a b c : OrderedTransaction) : Type 0 where
  pub precedes : Precedes a b → cmp a b ≡ Ordering.lt
  pub preceded : cmp a b ≡ Ordering.lt → Precedes a b
  pub reflexive : cmp a a ≡ Ordering.eq
  pub flipped : cmp a b ≡ Ordering.lt → cmp b a ≡ Ordering.gt
  pub unflipped : cmp a b ≡ Ordering.gt → cmp b a ≡ Ordering.lt
  pub transitive : cmp a b ≡ Ordering.lt → cmp b c ≡ Ordering.lt → cmp a c ≡ Ordering.lt
  pub equal_hash : cmp a b ≡ Ordering.eq → a.hash ≡ b.hash

Precedes-cmp : (a b : OrderedTransaction) → Precedes a b → cmp a b ≡ Ordering.lt
unfolding cmp
Precedes-cmp a b (dearer p) = ground (arith, p)
Precedes-cmp a b (earlier p t) = ground (arith, p, t)
Precedes-cmp a b (lower p t h) = ground (arith, p, t, h)

cmp-Precedes : (a b : OrderedTransaction) → cmp a b ≡ Ordering.lt → Precedes a b
unfolding cmp
cmp-Precedes a b e = elim (<-cases b.effective_gas_price a.effective_gas_price) [
  | inl p ↦ dearer p
  | inr (inl p) ↦ elim (<-cases a.timestamp b.timestamp) [
    | inl t ↦ earlier (sym p) t
    | inr (inl t) ↦ lower (sym p) t (ground (arith, e, p, t))
    | inr (inr t) ↦ ground (arith, e, p, t)
  ]
  | inr (inr p) ↦ ground (arith, e, p)
]

-- `cmp` puts a transaction before another exactly if its price is higher, or at one price it
-- arrived earlier, or at one price and arrival its hash is lower; and it is a linear order that
-- ties only on one hash: reflexive, antisymmetric in both directions, transitive.
pub cmp-IsLinear : (a b c : OrderedTransaction) → IsLinear a b c
unfolding cmp
cmp-IsLinear a b c = record {
  precedes = Precedes-cmp a b;
  preceded = cmp-Precedes a b;
  reflexive = ground arith;
  flipped = ground arith;
  unflipped = ground arith;
  transitive = ground arith;
  equal_hash = ground arith;
}

-- A strictly better price wins whatever the arrival times and hashes.
pub cmp-price :
    (a b : OrderedTransaction)
    → b.effective_gas_price < a.effective_gas_price
    → cmp a b ≡ Ordering.lt
unfolding cmp
cmp-price a b h = ground arith
