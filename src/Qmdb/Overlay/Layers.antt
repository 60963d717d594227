-- ===== src/Qmdb/Overlay/Layers.antt =====
-- An overlay of merged changes against a tower of overlays.
use kora.Base.{
  ℕ, ◌≡◌, refl, ◌⊎◌, inl, inr, true, false, [], Option, none, some, arith, if◌then◌else◌, get,
  Sorted, or_else, Bool-cases,
}
use kora.Qmdb.Changes.{AccountUpdate, ChangeSet, merge, merge_update}
use kora.Qmdb.Changes.Merge.{get-merge, get-write_slots, merge_option}
use kora.Qmdb.Overlay.{
  StateDbRead, OverlayState, new, nonce, balance, code_hash, storage, as_base, slot_under,
}

-- The tower of the two change sets over the base, the newer on top.
abbrev pub layered : StateDbRead → ChangeSet → ChangeSet → OverlayState
layered base older newer = new (as_base (new base older)) newer

abbrev pub merged : StateDbRead → ChangeSet → ChangeSet → OverlayState
merged base older newer = new base (merge older newer)

-- The accounts of the reads.
pub record SameAccount (o p : OverlayState) (a : ℕ) : Type 0 where
  pub same_nonce : nonce o a ≡ nonce p a
  pub same_balance : balance o a ≡ balance p a
  pub same_code_hash : code_hash o a ≡ code_hash p a

-- Merging loses nothing of an account's nonce, balance and code hash.
pub merged-SameAccount :
    (base : StateDbRead) (older newer : ChangeSet) (a : ℕ)
    → Sorted newer.accounts
    → SameAccount (merged base older newer) (layered base older newer) a
unfolding nonce balance code_hash as_base new merge_update
merged-SameAccount base older newer a s = record {
  same_nonce = ground (arith, get-merge a older newer s);
  same_balance = ground (arith, get-merge a older newer s);
  same_code_hash = ground (arith, get-merge a older newer s);
}

-- The newer update keeps in force that the older one destroyed the account.
abbrev pub KeepsWipe : AccountUpdate → AccountUpdate → Type 0
KeepsWipe older newer =
    (older.selfdestructed ≡ false) ⊎ (newer.created ≡ true) ⊎ (newer.selfdestructed ≡ true)

flags :
    (older newer : AccountUpdate)
    → ((merge_update older newer).selfdestructed ≡ newer.selfdestructed)
      × ((merge_update older newer).created ≡ (if newer.created then true else older.created))
unfolding merge_update
flags older newer = (refl, refl)

-- The slots of a merged update.
get-merge_update :
    (older newer : AccountUpdate) (slot : ℕ)
    → Sorted newer.storage
    → get slot (merge_update older newer).storage ≡ (
        if newer.selfdestructed
        then none
        else or_else
            (get slot newer.storage)
            (if newer.created then none else get slot older.storage))
unfolding merge_update get
get-merge_update older newer slot s = elim (Bool-cases newer.selfdestructed) [
  | inl d ↦ elim (Bool-cases newer.created) [ inl c ↦ rw (d, c) refl | inr c ↦ rw (d, c) refl ]
  | inr d ↦ elim (Bool-cases newer.created) [
    | inl c ↦ rw (d, c) (get-write_slots slot 0 [] newer.storage s)
    | inr c ↦ rw (d, c) (get-write_slots slot 0 older.storage newer.storage s)
  ]
]

merge_update-slot :
    (older newer : AccountUpdate) (slot : ℕ) (base : Option ℕ)
    → Sorted newer.storage
    → KeepsWipe older newer
    → slot_under (some (merge_update older newer)) slot base
      ≡ slot_under (some newer) slot (slot_under (some older) slot base)
unfolding slot_under
merge_update-slot older newer slot base s k =
    ground (arith, get-merge_update older newer slot s, flags older newer)

-- The condition at one account: an update that the older set wipes is wiped or created by the newer.
abbrev pub WipeKept : Option AccountUpdate → Option AccountUpdate → Type 0
WipeKept none newer = Unit {0}
WipeKept (some u) none = Unit {0}
WipeKept (some u) (some v) = Sorted v.storage × KeepsWipe u v

merge_option-slot :
    (older newer : Option AccountUpdate) (slot : ℕ) (base : Option ℕ)
    → WipeKept older newer
    → slot_under (merge_option older newer) slot base
      ≡ slot_under newer slot (slot_under older slot base)
unfolding slot_under
merge_option-slot none none slot base k = refl
merge_option-slot none (some v) slot base k = refl
merge_option-slot (some u) none slot base k = refl
merge_option-slot (some u) (some v) slot base k = merge_update-slot u v slot base k.0 k.1

-- A slot reads the same through an overlay of merged change sets as through the two overlays on
-- top of one another, unless the older set destroys the account and the newer one touches it
-- without creating or destroying it.
pub merged-storage :
    (base : StateDbRead) (older newer : ChangeSet) (a slot : ℕ)
    → Sorted newer.accounts
    → WipeKept (get a older.accounts) (get a newer.accounts)
    → storage (merged base older newer) a slot ≡ storage (layered base older newer) a slot
unfolding storage as_base new
merged-storage base older newer a slot s k =
    rw (get-merge a older newer s)
      (merge_option-slot (get a older.accounts) (get a newer.accounts) slot _ k)
