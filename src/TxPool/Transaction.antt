-- ===== src/TxPool/Transaction.antt =====
-- crates/node/txpool/src/ordering.rs: `OrderedTransaction` and its order.
-- Hashes, addresses and transaction ids are numbers; the envelope stands as its EIP-2718 encoding.
pub mod Order
use kora.Base.{ℕ, ◌-◌, ◌≡◌, Bool, List, Option, none, some, compare, Ordering, ◌==◌, if◌then◌else◌}

pub record OrderedTransaction : Type 0 where
  pub hash : ℕ
  pub sender : ℕ
  pub nonce : ℕ
  pub effective_gas_price : ℕ
  pub timestamp : ℕ
  pub envelope : List ℕ

-- `saturating_sub` on u128 is the truncated subtraction.
unfoldable pub effective_tip : OrderedTransaction → Option ℕ → ℕ
effective_tip t none = t.effective_gas_price
effective_tip t (some base) = t.effective_gas_price - base

-- `PartialEq`: the hash alone.
unfoldable pub same : OrderedTransaction → OrderedTransaction → Bool
same a b = a.hash == b.hash

-- `Ordering::then_with`.
abbrev pub then_with : Ordering → Ordering → Ordering
then_with Ordering.eq next = next
then_with o _ = o

-- `Ord::cmp`: the higher price first, then the earlier arrival, then the hash.
unfoldable pub cmp : OrderedTransaction → OrderedTransaction → Ordering
cmp a b =
    then_with
      (then_with (compare b.effective_gas_price a.effective_gas_price)
        (compare a.timestamp b.timestamp))
      (compare a.hash b.hash)
