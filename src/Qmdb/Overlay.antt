-- ===== src/Qmdb/Overlay.antt =====
-- crates/storage/overlay/src/overlay.rs: pending changes layered over a base state.
-- The base implements `StateDbRead`; a read of it that fails is `none`.
pub mod Layers
use kora.Base.{
  ℕ, Bool, true, false, ◌&&◌, List, [], ◌∷◌, Option, none, some, ◌==◌, if◌then◌else◌, Map, get,
}
use kora.Qmdb.Changes.{AccountUpdate, ChangeSet, merge, len, is_empty}

-- The reads of `StateDbRead`, as the source's `Result` with the error dropped.
pub record StateDbRead : Type 0 where
  pub nonce : ℕ → Option ℕ
  pub balance : ℕ → Option ℕ
  pub code_hash : ℕ → Option ℕ
  pub code : ℕ → Option (List ℕ)
  pub storage : ℕ → ℕ → Option ℕ

pub record OverlayState : Type 0 where
  pub base : StateDbRead
  pub changes : ChangeSet

-- `OverlayState::new`, `change_len`, `changes_is_empty`, `merge_changes`.
unfoldable pub new : StateDbRead → ChangeSet → OverlayState
new base changes = record { base = base; changes = changes }

unfoldable pub change_len : OverlayState → ℕ
change_len o = len o.changes

unfoldable pub changes_is_empty : OverlayState → Bool
changes_is_empty o = is_empty o.changes

unfoldable pub merge_changes : OverlayState → ChangeSet → ChangeSet
merge_changes o newer = merge o.changes newer

unfoldable pub nonce : OverlayState → ℕ → Option ℕ
nonce o address = elim (get address o.changes.accounts) [
  | some update ↦ some update.nonce
  | none ↦ o.base.nonce address
]

unfoldable pub balance : OverlayState → ℕ → Option ℕ
balance o address = elim (get address o.changes.accounts) [
  | some update ↦ some update.balance
  | none ↦ o.base.balance address
]

unfoldable pub code_hash : OverlayState → ℕ → Option ℕ
code_hash o address = elim (get address o.changes.accounts) [
  | some update ↦ some update.code_hash
  | none ↦ o.base.code_hash address
]

-- The loop of `code` over the updates.
unfoldable pub find_code : ℕ → Map AccountUpdate → Option (List ℕ)
find_code hash [] = none
find_code hash ((address, update) ∷ rest) =
    let later = find_code hash rest in
    if update.code_hash == hash
    then elim update.code [ none ↦ later | some bytes ↦ some bytes ]
    else later

unfoldable pub code : OverlayState → ℕ → Option (List ℕ)
code o hash = elim (find_code hash o.changes.accounts) [
  | some bytes ↦ some bytes
  | none ↦ o.base.code hash
]

-- The storage of one account under an update, over what the base returns.
unfoldable pub slot_under : Option AccountUpdate → ℕ → Option ℕ → Option ℕ
slot_under none slot base = base
slot_under (some update) slot base =
    if update.selfdestructed then some 0 else elim (get slot update.storage) [
      | some value ↦ some value
      | none ↦ if update.created then some 0 else base
    ]

unfoldable pub storage : OverlayState → ℕ → ℕ → Option ℕ
unfolding slot_under
storage o address slot =
    slot_under (get address o.changes.accounts) slot (o.base.storage address slot)

-- `impl StateDbRead for OverlayState`: an overlay can be the base of another.
unfoldable pub as_base : OverlayState → StateDbRead
unfolding nonce balance code_hash code storage
as_base o = record {
  nonce = nonce o;
  balance = balance o;
  code_hash = code_hash o;
  code = code o;
  storage = storage o;
}

-- `StateDbWrite`: a commit and a root computation hand the base the merged set.
unfoldable pub commit {ℓ} : {R : Type ℓ} → (ChangeSet → R) → OverlayState → ChangeSet → R
commit base_commit o changes = base_commit (merge o.changes changes)

unfoldable pub compute_root {ℓ} : {R : Type ℓ} → (ChangeSet → R) → OverlayState → ChangeSet → R
compute_root base_root o changes = base_root (merge o.changes changes)
