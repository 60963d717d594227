-- ===== src/TxPool/Queue/Tests.antt =====
-- Runs of a sender's queue at concrete transactions.
use kora.Base.{ℕ, ◌≡◌, refl, [], ◌∷◌, arith, saturating_add}
use kora.TxPool.Transaction.{OrderedTransaction}
use kora.TxPool.Transaction.Order.{IsLinear, cmp-IsLinear}
use kora.TxPool.Queue.{
  remove_confirmed, SenderQueue, insert, next_pending_nonce, promote_queued, promote,
  remove_by_hash,
}
use kora.TxPool.Queue.Invariant.{IsWellFormed, insert-IsWellFormed}
use kora.TxPool.Queue.Removal.{remove_by_hash-IsWellFormed, remove_confirmed-IsWellFormed}
use kora.TxPool.Queue.Contents.{Inserts, Removes, insert_refines, remove_by_hash_refines}

abbrev tx : ℕ → ℕ → ℕ → OrderedTransaction
tx hash nonce price = record {
  hash = hash;
  sender = 7;
  nonce = nonce;
  effective_gas_price = price;
  timestamp = 0;
  envelope = [];
}

-- Nonces 5 and 6 are pending, 8 waits for 7.
abbrev sample : SenderQueue
sample = record {
  sender = 7;
  next_nonce = 5;
  pending = tx 50 5 100 ∷ tx 60 6 100 ∷ [];
  queued = tx 80 8 100 ∷ [];
}

sample-IsWellFormed : IsWellFormed sample
sample-IsWellFormed = record {
  consecutive = omega arith;
  ascending = omega arith;
  in_range = omega arith;
  usable = omega arith;
}

-- The gap closes, and what waited behind it is promoted.
gap_closes :
    (insert sample (tx 70 7 100)).0.pending
    ≡ tx 50 5 100 ∷ tx 60 6 100 ∷ tx 70 7 100 ∷ tx 80 8 100 ∷ []
unfolding insert next_pending_nonce saturating_add promote_queued promote
gap_closes = refl

insert-IsWellFormed_example : IsWellFormed (insert sample (tx 70 7 100)).0
insert-IsWellFormed_example =
    insert-IsWellFormed sample (tx 70 7 100) sample-IsWellFormed (omega arith)

insert_refines_example : Inserts sample (tx 81 8 200) (insert sample (tx 81 8 200))
insert_refines_example = insert_refines sample (tx 81 8 200) sample-IsWellFormed

remove_by_hash-IsWellFormed_example : IsWellFormed (remove_by_hash sample 50).0
remove_by_hash-IsWellFormed_example = remove_by_hash-IsWellFormed sample 50 sample-IsWellFormed

remove_by_hash_refines_example : Removes sample 50 (remove_by_hash sample 50)
remove_by_hash_refines_example = remove_by_hash_refines sample 50 sample-IsWellFormed

remove_confirmed-IsWellFormed_example : IsWellFormed (remove_confirmed sample 7)
remove_confirmed-IsWellFormed_example =
    remove_confirmed-IsWellFormed sample 7 sample-IsWellFormed (omega arith)

cmp-IsLinear_example : IsLinear (tx 1 0 300) (tx 2 0 200) (tx 3 0 100)
cmp-IsLinear_example = cmp-IsLinear (tx 1 0 300) (tx 2 0 200) (tx 3 0 100)
