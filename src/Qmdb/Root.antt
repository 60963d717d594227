-- ===== src/Qmdb/Root.antt =====
-- crates/storage/qmdb/src/root.rs: the consensus root of a state transition.
-- The namespace's bytes and the hash function are parameters.
use kora.Base.{
  ℕ, Bool, true, false, List, [], ◌∷◌, ◌++◌, Option, none, some, if◌then◌else◌, length, Map,
}
use kora.Qmdb.Changes.{AccountUpdate, ChangeSet, is_empty}
use kora.Qmdb.Encoding.{to_be_bytes}

-- `u8::from` of a Boolean.
abbrev pub flag : Bool → ℕ
flag true = 1
flag false = 0

abbrev pub code_part : Option (List ℕ) → List ℕ
code_part none = 0 ∷ []
code_part (some code) = 1 ∷ (to_be_bytes 8 (length code) ++ code)

unfoldable pub storage_part : Map ℕ → List ℕ
storage_part [] = []
storage_part ((slot, value) ∷ m) = to_be_bytes 32 slot ++ (to_be_bytes 32 value ++ storage_part m)

unfoldable pub account_part : ℕ → AccountUpdate → List ℕ
unfolding storage_part
account_part address u =
    to_be_bytes 20 address
    ++ (flag u.created
        ∷ flag u.selfdestructed
        ∷ (to_be_bytes 8 u.nonce
            ++ (to_be_bytes 32 u.balance
                ++ (to_be_bytes 32 u.code_hash
                    ++ (code_part u.code
                        ++ (to_be_bytes 8 (length u.storage) ++ storage_part u.storage))))))

unfoldable pub accounts_part : Map AccountUpdate → List ℕ
unfolding account_part
accounts_part [] = []
accounts_part ((address, u) ∷ m) = account_part address u ++ accounts_part m

-- What is hashed.
unfoldable pub preimage : List ℕ → ℕ → ChangeSet → List ℕ
unfolding accounts_part
preimage namespace parent_root changes =
    namespace
    ++ (to_be_bytes 32 parent_root
        ++ (to_be_bytes 8 (length changes.accounts) ++ accounts_part changes.accounts))

-- `StateRoot::transition`.
unfoldable pub transition : List ℕ → (List ℕ → ℕ) → ℕ → ChangeSet → ℕ
unfolding preimage
transition namespace keccak256 parent_root changes =
    if is_empty changes then parent_root else keccak256 (preimage namespace parent_root changes)
