-- ===== src/Qmdb/Handle.antt =====
-- crates/storage/handlers/src/state.rs and crates/storage/qmdb-ledger/src/ledger.rs: the reads of a
-- `QmdbHandle` and the commit of a `QmdbLedger`. Every handle on a store reads the one store.
use kora.Base.{ℕ, ◌||◌, List, [], Option, none, some, ◌==◌, if◌then◌else◌}
use kora.Qmdb.Changes.{ChangeSet}
use kora.Qmdb.Overlay.{StateDbRead}
use kora.Qmdb.Store.{
  QmdbStore, Stores, Result, ok, err, storage_error, store_unavailable, Faults, commit_changes,
  get_account, read_storage,
}

-- A read of the borrowed stores; its errors are dropped.
unfoldable pub read_with : {A : Type 0} → QmdbStore → (Stores → Option A) → Option A
read_with q read = elim q.stores [ none ↦ none | some s ↦ read s ]

abbrev pub value {ℓ} : {A : Type ℓ} → Result A → Option A
value (ok a) = some a
value (err e) = none

abbrev pub field : (ℕ × ℕ × ℕ × ℕ → ℕ) → Result (Option (ℕ × ℕ × ℕ × ℕ)) → Option ℕ
field f (ok (some account)) = some (f account)
field f (ok none) = none
field f (err e) = none

unfoldable pub nonce : QmdbStore → ℕ → Option ℕ
unfolding read_with
nonce q address = read_with q (λ s. field (λ a. a.0) (get_account s address))

unfoldable pub balance : QmdbStore → ℕ → Option ℕ
unfolding read_with
balance q address = read_with q (λ s. field (λ a. a.1) (get_account s address))

unfoldable pub code_hash : QmdbStore → ℕ → Option ℕ
unfolding read_with
code_hash q address = read_with q (λ s. field (λ a. a.2) (get_account s address))

unfoldable pub storage : QmdbStore → ℕ → ℕ → Option ℕ
unfolding read_with
storage q address slot = read_with q (λ s. value (read_storage s address slot))

-- The hash of no code is a constant of the keccak library.
module _ (keccak_empty : ℕ) where
  unfoldable pub code : QmdbStore → ℕ → Option (List ℕ)
  unfolding read_with
  code q hash =
      if (hash == keccak_empty) || (hash == 0) then some [] else read_with q (λ s. s.code hash)

  -- `impl StateDbRead for QmdbHandle`.
  unfoldable pub as_base : QmdbStore → StateDbRead
  unfolding nonce balance code_hash code storage
  as_base q = record {
    nonce = nonce q;
    balance = balance q;
    code_hash = code_hash q;
    code = code q;
    storage = storage q;
  }

-- The roots are read after the commit, by the storage library: `none` where one of them fails.
module _ (root : Stores → Option ℕ) where
  abbrev pub root_of : Option Stores → Result ℕ
  root_of none = err store_unavailable
  root_of (some s) = elim (root s) [ none ↦ err storage_error | some r ↦ ok r ]

  abbrev pub with_root : QmdbStore × Result (Unit {0}) → QmdbStore × Result ℕ
  with_root (q, err e) = (q, err e)
  with_root (q, ok _) = (q, root_of q.stores)

  -- `QmdbLedger::commit_changes`.
  unfoldable pub commit : Faults → QmdbStore → ChangeSet → QmdbStore × Result ℕ
  commit faults q changes = with_root (commit_changes faults q changes)
