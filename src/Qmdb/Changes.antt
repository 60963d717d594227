-- ===== src/Qmdb/Changes.antt =====
-- crates/storage/qmdb/src/changes.rs: `AccountUpdate` and `ChangeSet` with their merges.
-- A `BTreeMap` is a list in key order. Addresses, hashes and 256-bit words are numbers.
pub mod Merge
use kora.Base.{
  ℕ, Bool, true, false, not, ◌||◌, List, [], ◌∷◌, Option, none, some, ◌==◌, if◌then◌else◌, Map, get,
  put, length,
}

pub record AccountUpdate : Type 0 where
  pub created : Bool
  pub selfdestructed : Bool
  pub nonce : ℕ
  pub balance : ℕ
  pub code_hash : ℕ
  pub code : Option (List ℕ)
  pub storage : Map ℕ

pub record ChangeSet : Type 0 where
  pub accounts : Map AccountUpdate

-- `ChangeSet::new`, `is_empty`, `len`.
unfoldable pub new : ChangeSet
new = record { accounts = [] }

unfoldable pub is_empty : ChangeSet → Bool
is_empty c = length c.accounts == 0

unfoldable pub len : ChangeSet → ℕ
len c = length c.accounts

-- The loop that writes the newer slots over the older ones.
unfoldable pub write_slots : Map ℕ → Map ℕ → Map ℕ
write_slots old [] = old
write_slots old ((slot, value) ∷ newer) = write_slots (put slot value old) newer

abbrev pub is_some {ℓ} : {A : Type ℓ} → Option A → Bool
is_some none = false
is_some (some a) = true

-- `AccountUpdate::merge`.
unfoldable pub merge_update : AccountUpdate → AccountUpdate → AccountUpdate
merge_update self other =
    let cleared : Map ℕ = if other.created || other.selfdestructed then [] else self.storage in
    record {
      created = if other.created then true else self.created;
      selfdestructed = other.selfdestructed;
      nonce = other.nonce;
      balance = other.balance;
      code_hash = other.code_hash;
      code =
          if not (self.code_hash == other.code_hash) || is_some other.code
          then other.code
          else self.code;
      storage = if not other.selfdestructed then write_slots cleared other.storage else cleared;
    }

abbrev pub merge_into : Option AccountUpdate → AccountUpdate → AccountUpdate
merge_into none update = update
merge_into (some existing) update = merge_update existing update

unfoldable pub merge_accounts : Map AccountUpdate → Map AccountUpdate → Map AccountUpdate
merge_accounts accounts [] = accounts
merge_accounts accounts ((address, update) ∷ rest) =
    merge_accounts (put address (merge_into (get address accounts) update) accounts) rest

-- `ChangeSet::merge` and `ChangeSet::insert`.
unfoldable pub merge : ChangeSet → ChangeSet → ChangeSet
merge self other = record { accounts = merge_accounts self.accounts other.accounts }

unfoldable pub insert : ChangeSet → ℕ → AccountUpdate → ChangeSet
insert self address update = record {
  accounts = put address (merge_into (get address self.accounts) update) self.accounts;
}
