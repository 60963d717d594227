-- ===== src/TxPool/Tests.antt =====
-- Runs of the pool at concrete transactions.
use kora.Base.{ℕ, ◌≡◌, refl, false, List, [], ◌∷◌, none, some, arith, if◌then◌else◌, get}
use kora.TxPool.Config.{PoolConfig, default, with_max_pending_txs}
use kora.TxPool.Transaction.{OrderedTransaction}
use kora.TxPool.Queue.{
  SenderQueue, existing_nonce_tx, is_empty, find_nonce, pending_count, queued_count,
}
use kora.TxPool.Queue
use kora.TxPool.Queue.Contents.{admits}
use kora.TxPool.Pool.{
  PoolInner, add, refuses, insertion_target, reject_underpriced_when_full, ordered_tx_id,
  place_transaction, min_price, sender_refuses,
}
use kora.TxPool.Pool.Index.{IsIndexed, Owned}
use kora.TxPool.Pool.Insertion.{Places, place_transaction_refines}
use kora.TxPool.Pool.Admission.{Fits, add-Fits}
use kora.TxPool.Methods.{remove_confirmed}
use kora.TxPool.Methods.Removals.{Confirms, remove_confirmed-Confirms}
use kora.TxPool.Build.{build}
use kora.TxPool.Build.Chosen.{Builds, build-Builds}
use kora.TxPool.Pool.Reports.{is_ok, add-reports}

-- An identifier that tells the envelopes of these transactions apart.
abbrev first_byte : List ℕ → ℕ
first_byte [] = 0
first_byte (b ∷ bs) = b

abbrev tx : ℕ → ℕ → ℕ → OrderedTransaction
tx hash nonce price = record {
  hash = hash;
  sender = 7;
  nonce = nonce;
  effective_gas_price = price;
  timestamp = 0;
  envelope = hash ∷ [];
}

abbrev config : PoolConfig
config = with_max_pending_txs default 1

-- One transaction of sender 7, at nonce 5.
abbrev only : SenderQueue
only = record { sender = 7; next_nonce = 5; pending = tx 50 5 100 ∷ []; queued = [] }

abbrev one : PoolInner
one = record {
  by_hash = (50, tx 50 5 100) ∷ [];
  by_id = (50, 50) ∷ [];
  by_sender = (7, only) ∷ [];
  pending_count = 1;
  queued_count = 0;
}

one-Owned : Owned 7 only
unfolding existing_nonce_tx find_nonce is_empty
one-Owned = record {
  formed = record {
    consecutive = omega arith;
    ascending = tt;
    in_range = omega arith;
    usable = tt;
  };
  occupied = refl;
  owner = λ n t e. ground (arith, e);
}

one-IsIndexed : IsIndexed one.by_hash one.by_sender
unfolding get existing_nonce_tx find_nonce
one-IsIndexed = record {
  owned = λ s q e.
      let same : s ≡ 7 = ground (arith, e) in
      let same_queue : only ≡ q = ground (arith, e) in rw (same, ← same_queue) one-Owned;
  indexed = λ t e. ground (arith, e);
  held = λ h t e. ground (arith, e);
}

one-Fits : Fits config one
unfolding pending_count queued_count
one-Fits = (
  record { indexed = one-IsIndexed; sorted = omega arith; pending_sum = refl; queued_sum = refl },
  omega arith,
  omega arith,
)

-- A better price takes the place of the first transaction.
place_transaction_refines_example :
    Places one
      (tx 51 5 200)
      (admits only (tx 51 5 200))
      (place_transaction first_byte one (tx 51 5 200))
unfolding get
place_transaction_refines_example =
    place_transaction_refines first_byte one (tx 51 5 200) one-IsIndexed (omega arith) refl

-- A second pending transaction drives the cheaper one out.
add-Fits_example : Fits config (add first_byte config one (tx 60 6 200)).0
add-Fits_example = add-Fits first_byte config one (tx 60 6 200) one-Fits (omega arith)

accepts : refuses first_byte config one (tx 60 6 200) ≡ none
unfolding refuses insertion_target reject_underpriced_when_full ordered_tx_id min_price
    sender_refuses get existing_nonce_tx find_nonce Queue.total_count
accepts = refl

add-reports_example :
    let s = add first_byte config one (tx 60 6 200) in
    get 60 s.0.by_hash ≡ (if is_ok s.2 then some (tx 60 6 200) else none)
add-reports_example =
    add-reports first_byte config one (tx 60 6 200) one-Fits.0 (omega arith) accepts

-- The nonce that is confirmed is that of the only transaction.
remove_confirmed-Confirms_example : Confirms one 7 5 (remove_confirmed first_byte one 7 5)
remove_confirmed-Confirms_example =
    remove_confirmed-Confirms first_byte one 7 5 one-Fits.0 (omega arith)

build-Builds_example : Builds first_byte (λ id. false) one 3 (build first_byte (λ id. false) one 3)
build-Builds_example = build-Builds first_byte (λ id. false) one 3 one-Fits.0
