-- ===== src/Qmdb/Tests.antt =====
-- Runs of the change sets, the encodings and the store at concrete accounts.
use kora.Base.{
  ℕ, ◌^◌, ◌<◌, ◌≡◌, refl, Bool, true, false, List, [], ◌∷◌, none, some, arith, length, get, u64_max,
  inl,
}
use kora.Qmdb.Changes.{AccountUpdate, ChangeSet}
use kora.Qmdb.Overlay.{StateDbRead, storage, slot_under}
use kora.Qmdb.Overlay.Layers.{SameAccount, merged, layered, merged-SameAccount, merged-storage}
use kora.Qmdb.Encoding.{StorageKey, encode, decode}
use kora.Qmdb.Encoding.RoundTrip.{decode-encode}
use kora.Qmdb.Store.{
  Stores, QmdbStore, Faults, StoreBatches, apply_batches, read_storage, read_partition_commit_seqs,
  batches_from, ok,
}
use kora.Qmdb.Store.Markers.{Detects, apply_batches-Detects, all_at, read_markers}
use kora.Qmdb.Store.Batches.{generation_after}
use kora.Qmdb.Store.Refine.{committed, FreshAt, absent, value_of, no_faults, generation_absent}
use kora.Qmdb.Store.Commits.{committed-refines, committed-FreshAt, recreated-reads_stale}

abbrev update : Bool → Bool → List (ℕ × ℕ) → AccountUpdate
update created selfdestructed slots = record {
  created = created;
  selfdestructed = selfdestructed;
  nonce = 1;
  balance = 10;
  code_hash = 99;
  code = none;
  storage = slots;
}

abbrev change : AccountUpdate → ChangeSet
change u = record { accounts = (3, u) ∷ [] }

-- A base in which slot 4 of account 3 holds 55.
abbrev base : StateDbRead
base = record {
  nonce = λ a. some 0;
  balance = λ a. some 0;
  code_hash = λ a. some 0;
  code = λ h. none;
  storage = λ a s. some 55;
}

abbrev touch : AccountUpdate
touch = update false false []

abbrev destroy : AccountUpdate
destroy = update false true []

abbrev create : AccountUpdate
create = update true false ((4, 77) ∷ [])

abbrev create_bare : AccountUpdate
create_bare = update true false []

merged-SameAccount_example :
    SameAccount
      (merged base (change create) (change touch))
      (layered base (change create) (change touch))
      3
merged-SameAccount_example = merged-SameAccount base (change create) (change touch) 3 (omega arith)

merged-storage_example :
    storage (merged base (change create) (change touch)) 3 4
    ≡ storage (layered base (change create) (change touch)) 3 4
unfolding get
merged-storage_example =
    merged-storage base (change create) (change touch) 3 4 (omega arith) (tt, inl refl)

abbrev a_key : StorageKey
a_key = record { address = 2 ^ 159; generation = 3; slot = 12345678901234567890 }

decode-encode_example :
    (length (encode 9 1000000 77 2) ≡ 80)
    × (decode (encode 9 1000000 77 2) ≡ some (9, 1000000, 77, 2))
decode-encode_example =
    decode-encode 9 1000000 77 2 (omega arith) (omega arith) (omega arith) (omega arith)

-- A store in which no account exists yet.
abbrev empty : Stores
empty = record { accounts = λ a. none; storage = λ k. none; code = λ h. none }

-- After the first commit, of a created account.
abbrev started : Stores
started = committed 1 (change create) empty

started-markers : read_partition_commit_seqs started ≡ all_at 1
started-markers =
    read_markers no_faults 1 (batches_from empty (change create).accounts) empty (omega arith)

abbrev second_fails : Faults
second_fails = record { accounts_fails = false; storage_fails = true; code_fails = false }

abbrev at_one : QmdbStore
at_one = record { stores = some started; commit_seq = 1 }

abbrev next_batch : StoreBatches
next_batch = record { accounts = []; storage = []; code = [] }

apply_batches-Detects_example :
    Detects second_fails at_one (apply_batches second_fails at_one next_batch)
apply_batches-Detects_example =
    apply_batches-Detects second_fails at_one next_batch started refl started-markers (omega arith)

empty-FreshAt : FreshAt empty 3
empty-FreshAt = absent refl (λ g slot. refl)

committed-refines_example :
    value_of (read_storage (committed 1 (change create) empty) 3 4)
    ≡ slot_under (some create) 4 (value_of (read_storage empty 3 4))
unfolding get
committed-refines_example =
    committed-refines 1 (change create) empty 3 4 (omega arith) (omega arith) (omega arith)
      empty-FreshAt (omega arith)

create-generation : generation_after empty 3 create < u64_max
create-generation = omega (arith, generation_absent empty 3 create refl)

committed-FreshAt_example : FreshAt (committed 1 (change create) empty) 3
unfolding get
committed-FreshAt_example =
    committed-FreshAt 1 (change create) empty 3 (omega arith) (omega arith) (omega arith)
      empty-FreshAt (omega arith) (refl, create-generation)

-- A store in which account 3 stands at generation 1, with 77 in its slots.
abbrev held : Stores
held = record { accounts = λ a. some (encode 1 10 99 1); storage = λ k. some 77; code = λ h. none }

recreated-reads_stale_example :
    (read_storage (committed 2 (change destroy) held) 3 4 ≡ ok 0)
    × (read_storage (committed 3 (change create_bare) (committed 2 (change destroy) held)) 3 4
        ≡ ok 77)
unfolding get
recreated-reads_stale_example =
    recreated-reads_stale 2 3 (change destroy) (change create_bare) held 3 4 77 1 10 99
      (encode 1 10 99 1) destroy create_bare (omega arith) (omega arith) (omega arith) (omega arith)
      (omega arith) refl
      (decode-encode 1 10 99 1 (omega arith) (omega arith) (omega arith) (omega arith)).1 refl refl
      refl refl refl refl refl (omega arith)
