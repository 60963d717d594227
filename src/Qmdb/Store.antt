-- ===== src/Qmdb/Store.antt =====
-- crates/storage/qmdb/src/store.rs (with batch.rs and traits.rs) and the reads of
-- crates/storage/handlers/src/state.rs: the three partitions and the commits over them.
-- A partition behind `QmdbGettable` and `QmdbBatchable` is a function from keys; a batch is applied
-- in order, and a batch that fails leaves its partition as it was. Which of the three writes of a
-- commit fail is an argument. Reads of a partition do not fail.
pub mod Markers
pub mod Batches
pub mod Refine
pub mod Commits
use kora.Base.{
  ℕ, ◌+◌, ◌-◌, ◌^◌, ◌≡◌, Bool, true, false, not, ◌&&◌, ◌||◌, List, [], ◌∷◌, ◌++◌, Option, none,
  some, ltb, leb, ◌==◌, if◌then◌else◌, Map, length, saturating_add, take, u64_max,
}
use kora.Qmdb.Changes.{AccountUpdate, ChangeSet, is_empty}
use kora.Qmdb.Encoding.{StorageKey, same_key, encode, decode, to_be_bytes, from_be, slice}

abbrev pub Partition : Type 0 → Type 0 → Type 0
Partition K V = K → Option V

module _ {K V : Type 0} (same : K → K → Bool) where
  -- One operation: a value, or a deletion.
  unfoldable pub write : K → Option V → Partition K V → Partition K V
  write k v p j = if same j k then v else p j

  unfoldable pub write_batch : List (K × Option V) → Partition K V → Partition K V
  unfolding write
  write_batch [] p = p
  write_batch ((k, v) ∷ ops) p = write_batch ops (write k v p)

abbrev pub same_number : ℕ → ℕ → Bool
same_number a b = a == b

pub record Stores : Type 0 where
  pub accounts : Partition ℕ (List ℕ)
  pub storage : Partition StorageKey ℕ
  pub code : Partition ℕ (List ℕ)

pub record QmdbStore : Type 0 where
  pub stores : Option Stores
  pub commit_seq : ℕ

pub data QmdbError : Type 0 where
  store_unavailable decode_error storage_error : QmdbError

pub data Result {ℓ} (A : Type ℓ) : Type ℓ where
  ok : A → Result A
  err : QmdbError → Result A

-- `QmdbStore::new`, `set_commit_seq`, `stores`, `take_stores`, `restore_stores`.
unfoldable pub new : Stores → QmdbStore
new s = record { stores = some s; commit_seq = 0 }

unfoldable pub set_commit_seq : QmdbStore → ℕ → QmdbStore
set_commit_seq q seq = record q { commit_seq = seq }

unfoldable pub take_stores : QmdbStore → QmdbStore × Result Stores
take_stores q = elim q.stores [
  | none ↦ (q, err store_unavailable)
  | some s ↦ (record q { stores = none }, ok s)
]

unfoldable pub restore_stores : QmdbStore → Stores → QmdbStore
restore_stores q s = record q { stores = some s }

-- `get_account` and `get_storage` on borrowed stores.
unfoldable pub get_account : Stores → ℕ → Result (Option (ℕ × ℕ × ℕ × ℕ))
get_account s address = elim (s.accounts address) [
  | none ↦ ok none
  | some bytes ↦ elim (decode bytes) [ none ↦ err decode_error | some account ↦ ok (some account) ]
]

unfoldable pub get_storage : Stores → StorageKey → Option ℕ
get_storage s key = s.storage key

-- `StateDbRead::storage` of the handle: through the account's generation; zero without an account.
unfoldable pub read_storage : Stores → ℕ → ℕ → Result ℕ
unfolding get_account get_storage
read_storage s address slot = elim (get_account s address) [
  | err e ↦ err e
  | ok none ↦ ok 0
  | ok (some (_, _, _, generation)) ↦
      elim (get_storage s (record { address = address; generation = generation; slot = slot })) [
        | none ↦ ok 0
        | some value ↦ ok value
      ]
]

pub record StoreBatches : Type 0 where
  pub accounts : List (ℕ × Option (List ℕ))
  pub storage : List (StorageKey × Option ℕ)
  pub code : List (ℕ × Option (List ℕ))

-- The generation that a change set builds on: 0 without an account, or with a broken one.
unfoldable pub current_generation : Stores → ℕ → ℕ
current_generation s address = elim (s.accounts address) [
  | none ↦ 0
  | some bytes ↦ elim (decode bytes) [ none ↦ 0 | some (_, _, _, g) ↦ g ]
]

unfoldable pub new_generation : ℕ → AccountUpdate → ℕ
new_generation current update =
    if update.created || update.selfdestructed then saturating_add current 1 else current

unfoldable pub slot_ops : ℕ → ℕ → Map ℕ → List (StorageKey × Option ℕ)
slot_ops address generation [] = []
slot_ops address generation ((slot, value) ∷ rest) =
    (
      record { address = address; generation = generation; slot = slot },
      (if value == 0 then none else some value),
    )
    ∷ slot_ops address generation rest

unfoldable pub account_op : ℕ → ℕ → AccountUpdate → ℕ × Option (List ℕ)
account_op address generation update = (
  address,
  (if update.selfdestructed
      then none
      else some (encode update.nonce update.balance update.code_hash generation)),
)

unfoldable pub code_ops : AccountUpdate → List (ℕ × Option (List ℕ))
code_ops update =
    if update.selfdestructed
    then []
    else elim update.code [ none ↦ [] | some bytes ↦ (update.code_hash, some bytes) ∷ [] ]

-- The loop of `build_batches`, the batches of the later accounts behind those of the first.
unfoldable pub batches_from : Stores → Map AccountUpdate → StoreBatches
unfolding account_op code_ops slot_ops
batches_from s [] = record { accounts = []; storage = []; code = [] }
batches_from s ((address, update) ∷ rest) =
    let generation = new_generation (current_generation s address) update in
    let later = batches_from s rest in
    record {
      accounts = account_op address generation update ∷ later.accounts;
      storage = slot_ops address generation update.storage ++ later.storage;
      code = code_ops update ++ later.code;
    }

unfoldable pub build_batches : QmdbStore → ChangeSet → Result StoreBatches
build_batches q changes = elim q.stores [
  | none ↦ err store_unavailable
  | some s ↦ ok (batches_from s changes.accounts)
]

-- The sentinel keys that hold the commit sequence.
abbrev pub commit_seq_account_key : ℕ
commit_seq_account_key = 2 ^ 160 - 2

abbrev pub commit_seq_storage_key : StorageKey
commit_seq_storage_key = record {
  address = commit_seq_account_key;
  generation = u64_max;
  slot = 2 ^ 256 - 1;
}

abbrev pub commit_seq_code_key : ℕ
commit_seq_code_key = 2 ^ 256 - 2

-- Which of the three writes of a commit fail.
pub record Faults : Type 0 where
  pub accounts_fails : Bool
  pub storage_fails : Bool
  pub code_fails : Bool

-- `apply_batches`: the three writes in order, each with its marker, up to the first that fails.
unfoldable pub write_partitions : Faults → ℕ → StoreBatches → Stores → Stores × Bool
write_partitions faults seq b s =
    let accounts =
      write_batch same_number (b.accounts ++ (commit_seq_account_key, some (encode seq 0 0 0)) ∷ [])
        s.accounts in
    let storage =
      write_batch same_key (b.storage ++ (commit_seq_storage_key, some seq) ∷ []) s.storage in
    let code =
      write_batch same_number (b.code ++ (commit_seq_code_key, some (to_be_bytes 8 seq)) ∷ [])
        s.code in
    if faults.accounts_fails
    then (s, false)
    else if faults.storage_fails
    then (record s { accounts = accounts }, false)
    else if faults.code_fails
    then (record s { accounts = accounts; storage = storage }, false)
    else (record s { accounts = accounts; storage = storage; code = code }, true)

unfoldable pub apply_batches : Faults → QmdbStore → StoreBatches → QmdbStore × Result (Unit {0})
apply_batches faults q b = elim q.stores [
  | none ↦ (q, err store_unavailable)
  | some s ↦
      let next_seq = saturating_add q.commit_seq 1 in
      let (after, done) = write_partitions faults next_seq b s in
      if done
      then (record { stores = some after; commit_seq = next_seq }, ok tt)
      else (record q { stores = some after }, err storage_error)
]

unfoldable pub commit_changes : Faults → QmdbStore → ChangeSet → QmdbStore × Result (Unit {0})
commit_changes faults q changes =
    if is_empty changes
    then (q, ok tt)
    else elim (build_batches q changes) [ err e ↦ (q, err e) | ok b ↦ apply_batches faults q b ]

pub record PartitionCommitSeqs : Type 0 where
  pub accounts : Option ℕ
  pub storage : Option ℕ
  pub code : Option ℕ

abbrev pub agree : Option ℕ → Option ℕ → Option ℕ → Bool
agree none none none = true
agree (some a) (some s) (some c) = a == s && s == c
agree _ _ _ = false

unfoldable pub is_consistent : PartitionCommitSeqs → Bool
is_consistent p = agree p.accounts p.storage p.code

-- The three decoders of a marker.
unfoldable pub account_marker : List ℕ → Option ℕ
account_marker bytes = elim (decode bytes) [ none ↦ none | some (nonce, _, _, _) ↦ some nonce ]

unfoldable pub storage_marker : ℕ → Option ℕ
storage_marker value = if leb value u64_max then some value else none

unfoldable pub code_marker : List ℕ → Option ℕ
code_marker bytes = if ltb (length bytes) 8 then none else some (from_be 0 (slice 0 8 bytes))

abbrev pub and_then {ℓ κ} : {A : Type ℓ} {B : Type κ} → Option A → (A → Option B) → Option B
and_then none f = none
and_then (some a) f = f a

unfoldable pub read_partition_commit_seqs : Stores → PartitionCommitSeqs
read_partition_commit_seqs s = record {
  accounts = and_then (s.accounts commit_seq_account_key) account_marker;
  storage = and_then (s.storage commit_seq_storage_key) storage_marker;
  code = and_then (s.code commit_seq_code_key) code_marker;
}
