-- ===== src/Ledger/Reads.antt =====
-- The compact state that replaces a snapshot's overlay once its changes are in the store.
use kora.Base.{
  ℕ, ◌≡◌, ◌≢◌, refl, sym, ap, ◌∙◌, inl, inr, false, List, Option, none, some, if◌then◌else◌, get,
  Sorted, Option-cases, saturating_add,
}
use kora.Qmdb.Changes.{AccountUpdate, ChangeSet, is_empty}
use kora.Qmdb.Changes
use kora.Qmdb.Encoding.{encode, decode}
use kora.Qmdb.Encoding.RoundTrip.{decode-encode}
use kora.Qmdb.Overlay.{OverlayState, nonce, balance, code_hash, storage, new, slot_under}
use kora.Qmdb.Handle.{commit, as_base, field, value, read_with, with_root}
use kora.Qmdb.Handle
use kora.Qmdb.Store.{
  QmdbStore, Stores, Result, ok, err, commit_changes, build_batches, apply_batches, get_account,
  read_storage, commit_seq_account_key, account_op, write_partitions,
}
use kora.Qmdb.Store.Batches.{SlotsSorted, generation_after, account_after}
use kora.Qmdb.Store.Refine.{committed, committed-account, FreshAt, FitsAt, value_of, no_faults}
use kora.Qmdb.Store.Commits.{committed-refines, generation_small}
use kora.Ledger.{overlay}

-- The store after a commit whose writes succeed.
abbrev stored : Stores → ℕ → QmdbStore
stored s seq = record { stores = some s; commit_seq = seq }

commit-stores :
    (root : Stores → Option ℕ) (s : Stores) (seq : ℕ) (c : ChangeSet)
    → is_empty c ≡ false
    → (commit root no_faults (stored s seq) c).0.stores
      ≡ some (committed (saturating_add seq 1) c s)
unfolding commit commit_changes build_batches apply_batches write_partitions
commit-stores root s seq c e = rw e refl

-- The fields of an account in the store, by its bytes.
abbrev pick : (ℕ × ℕ × ℕ × ℕ → ℕ) → Option (ℕ × ℕ × ℕ × ℕ) → Option ℕ
pick f none = none
pick f (some account) = some (f account)

abbrev fields : (ℕ × ℕ × ℕ × ℕ → ℕ) → Option (List ℕ) → Option ℕ
fields f none = none
fields f (some bytes) = pick f (decode bytes)

field-get_account :
    (f : ℕ × ℕ × ℕ × ℕ → ℕ) (s : Stores) (a : ℕ)
    → field f (get_account s a) ≡ fields f (s.accounts a)
unfolding get_account
field-get_account f s a = elim (Option-cases (s.accounts a)) [
  | inl e ↦ rw (e, get_account) refl
  | inr (bytes, e) ↦ elim (Option-cases (decode bytes)) [
    | inl d ↦ rw (e, d, get_account) refl
    | inr (account, d) ↦ rw (e, d, get_account) refl
  ]
]

-- The account's update does not destroy it.
abbrev pub Lasts : Option AccountUpdate → Type 0
Lasts none = Unit {0}
Lasts (some u) = u.selfdestructed ≡ false

abbrev field_under : (AccountUpdate → ℕ) → Option AccountUpdate → Option ℕ → Option ℕ
field_under g none base = base
field_under g (some u) base = some (g u)

fields-after :
    (f : ℕ × ℕ × ℕ × ℕ → ℕ) (g : AccountUpdate → ℕ) (s : Stores) (a : ℕ) (o : Option AccountUpdate)
    → ((u : AccountUpdate) (n : ℕ) → f (u.nonce, u.balance, u.code_hash, n) ≡ g u)
    → FreshAt s a
    → FitsAt o
    → Lasts o
    → fields f (account_after s a o (s.accounts a)) ≡ field_under g o (fields f (s.accounts a))
unfolding account_op
fields-after f g s a none h r k l = refl
fields-after f g s a (some u) h r k l =
    let n = generation_after s a u in
    let bytes = encode u.nonce u.balance u.code_hash n in
    ap (λ b. fields f (if b then none else some bytes)) l
    ∙ ap (pick f)
        (decode-encode u.nonce u.balance u.code_hash n k.nonce_fits k.balance_fits k.code_hash_fits
          (generation_small s a u r)).1
    ∙ ap some (h u n)

-- The reads of the account's fields and of its slots.
pub record SameReads (o p : OverlayState) (a : ℕ) : Type 0 where
  pub same_nonce : nonce o a ≡ nonce p a
  pub same_balance : balance o a ≡ balance p a
  pub same_code_hash : code_hash o a ≡ code_hash p a
  pub same_storage : (slot : ℕ) → storage o a slot ≡ storage p a slot

value-value_of : (r : Result ℕ) → value r ≡ value_of r
value-value_of (ok n) = refl
value-value_of (err e) = refl

-- A read of a store that holds its partitions.
read_with-held :
    {A : Type 0} (q : QmdbStore) (s : Stores) (f : Stores → Option A)
    → q.stores ≡ some s
    → read_with q f ≡ f s
unfolding read_with
read_with-held q s f e = rw (read_with, e) refl

overlay-field :
    (root : Stores → Option ℕ) (s : Stores) (seq : ℕ) (c : ChangeSet) (a : ℕ)
    (f : ℕ × ℕ × ℕ × ℕ → ℕ) (g : AccountUpdate → ℕ)
    → ((u : AccountUpdate) (n : ℕ) → f (u.nonce, u.balance, u.code_hash, n) ≡ g u)
    → is_empty c ≡ false
    → Sorted c.accounts
    → a ≢ commit_seq_account_key
    → FreshAt s a
    → FitsAt (get a c.accounts)
    → Lasts (get a c.accounts)
    → read_with (commit root no_faults (stored s seq) c).0 (λ s. field f (get_account s a))
      ≡ field_under g (get a c.accounts) (read_with (stored s seq) (λ s. field f (get_account s a)))
unfolding read_with
overlay-field root s seq c a f g h e k n r fits l =
    read_with-held (commit root no_faults (stored s seq) c).0 _ (λ s. field f (get_account s a))
      (commit-stores root s seq c e)
    ∙ field-get_account f (committed (saturating_add seq 1) c s) a
    ∙ ap (fields f) (committed-account (saturating_add seq 1) c s a k n)
    ∙ fields-after f g s a (get a c.accounts) h r fits l
    ∙ ap (field_under g (get a c.accounts)) (sym (field-get_account f s a))

overlay-slot :
    (root : Stores → Option ℕ) (s : Stores) (seq : ℕ) (c : ChangeSet) (a slot : ℕ)
    → is_empty c ≡ false
    → Sorted c.accounts
    → SlotsSorted c.accounts
    → a ≢ commit_seq_account_key
    → FreshAt s a
    → FitsAt (get a c.accounts)
    → Handle.storage (commit root no_faults (stored s seq) c).0 a slot
      ≡ slot_under (get a c.accounts) slot (Handle.storage (stored s seq) a slot)
unfolding Handle.storage read_with
overlay-slot root s seq c a slot e k o n r fits =
    read_with-held (commit root no_faults (stored s seq) c).0 _ (λ s. value (read_storage s a slot))
      (commit-stores root s seq c e)
    ∙ value-value_of (read_storage (committed (saturating_add seq 1) c s) a slot)
    ∙ committed-refines (saturating_add seq 1) c s a slot k o n r fits
    ∙ ap (slot_under (get a c.accounts) slot) (sym (value-value_of (read_storage s a slot)))

field_under-cases :
    (o : Option AccountUpdate) (g : AccountUpdate → ℕ) (base : Option ℕ)
    → field_under g o base ≡ (elim o [ some u ↦ some (g u) | none ↦ base ])
field_under-cases none g base = refl
field_under-cases (some u) g base = refl

-- After a commit whose writes succeed, the compact state that replaces a snapshot reads as the
-- overlay of the committed changes did before it: the nonce, balance, code hash and slots of every
-- account other than the marker's whose later generations are empty, for a change set that is not
-- empty, whose updates stand in key order, and whose update of the account fits its encoding and
-- does not destroy it.
pub compact-SameReads :
    (root : Stores → Option ℕ) (keccak_empty : ℕ) (s : Stores) (seq : ℕ) (c : ChangeSet) (a : ℕ)
    → is_empty c ≡ false
    → Sorted c.accounts
    → SlotsSorted c.accounts
    → a ≢ commit_seq_account_key
    → FreshAt s a
    → FitsAt (get a c.accounts)
    → Lasts (get a c.accounts)
    → SameReads
        (overlay keccak_empty (commit root no_faults (stored s seq) c).0 Changes.new)
        (overlay keccak_empty (stored s seq) c)
        a
unfolding nonce balance code_hash storage new as_base Handle.nonce Handle.balance Handle.code_hash
    Changes.new slot_under get
compact-SameReads root keccak_empty s seq c a e k o n r fits l = record {
  same_nonce =
      overlay-field root s seq c a (λ p. p.0) (λ u. u.nonce) (λ u n. refl) e k n r fits l
      ∙ field_under-cases (get a c.accounts) _ _;
  same_balance =
      overlay-field root s seq c a (λ p. p.1) (λ u. u.balance) (λ u n. refl) e k n r fits l
      ∙ field_under-cases (get a c.accounts) _ _;
  same_code_hash =
      overlay-field root s seq c a (λ p. p.2) (λ u. u.code_hash) (λ u n. refl) e k n r fits l
      ∙ field_under-cases (get a c.accounts) _ _;
  same_storage = λ slot. overlay-slot root s seq c a slot e k o n r fits;
}
