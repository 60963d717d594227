-- ===== src/Qmdb/Changes/Merge.antt =====
-- Merging change sets account by account and slot by slot.
use kora.Base.{
  ℕ, suc, ◌≡◌, refl, [], ◌∷◌, Option, none, some, arith, Map, get, put, get-put, get_below,
  KeysFrom, Sorted, or_else, put-KeysFrom,
}
use kora.Qmdb.Changes.{AccountUpdate, ChangeSet, write_slots, merge_into, merge_accounts, merge}

-- A newer write wins over an older one.
pub get-write_slots :
    (q lo : ℕ) (old newer : Map ℕ)
    → KeysFrom lo newer
    → get q (write_slots old newer) ≡ or_else (get q newer) (get q old)
unfolding write_slots get
get-write_slots q lo old [] s = refl
get-write_slots q lo old ((k, v) ∷ m) s = ground (
  arith,
  get-write_slots q (suc k) (put k v old) m s.1,
  get-put q k v old,
  get_below q (suc k) m s.1,
)

-- The merge of two optional updates of one account.
abbrev pub merge_option : Option AccountUpdate → Option AccountUpdate → Option AccountUpdate
merge_option old none = old
merge_option old (some update) = some (merge_into old update)

get-merge_accounts :
    (q lo : ℕ) (old newer : Map AccountUpdate)
    → KeysFrom lo newer
    → get q (merge_accounts old newer) ≡ merge_option (get q old) (get q newer)
unfolding merge_accounts get
get-merge_accounts q lo old [] s = refl
get-merge_accounts q lo old ((k, u) ∷ m) s = ground (
  arith,
  get-merge_accounts q (suc k) (put k (merge_into (get k old) u) old) m s.1,
  get-put q k (merge_into (get k old) u) old,
  get_below q (suc k) m s.1,
)

-- A merge of change sets merges each account's updates, and nothing else.
pub get-merge :
    (q : ℕ) (old newer : ChangeSet)
    → Sorted newer.accounts
    → get q (merge old newer).accounts ≡ merge_option (get q old.accounts) (get q newer.accounts)
unfolding merge
get-merge q old newer s = get-merge_accounts q 0 old.accounts newer.accounts s

pub write_slots-Sorted : (old newer : Map ℕ) → Sorted old → Sorted (write_slots old newer)
unfolding write_slots
write_slots-Sorted old [] s = s
write_slots-Sorted old ((k, v) ∷ m) s =
    write_slots-Sorted (put k v old) m (put-KeysFrom 0 k v old (omega arith) s)

merge_accounts-Sorted :
    (old newer : Map AccountUpdate) → Sorted old → Sorted (merge_accounts old newer)
unfolding merge_accounts
merge_accounts-Sorted old [] s = s
merge_accounts-Sorted old ((k, u) ∷ m) s =
    merge_accounts-Sorted (put k (merge_into (get k old) u) old) m
      (put-KeysFrom 0 k _ old (omega arith) s)

pub merge-Sorted : (old newer : ChangeSet) → Sorted old.accounts → Sorted (merge old newer).accounts
unfolding merge
merge-Sorted old newer s = merge_accounts-Sorted old.accounts newer.accounts s
