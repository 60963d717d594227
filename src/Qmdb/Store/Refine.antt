-- ===== src/Qmdb/Store/Refine.antt =====
-- A commit to the store against the reads of an overlay over it.
use kora.Base.{
  ℕ, suc, ◌^◌, ◌≤◌, ◌<◌, ◌≡◌, ◌≢◌, refl, ap, sym, ◌∙◌, inl, inr, true, false, ◌||◌, List, Option,
  none, some, arith, if◌then◌else◌, get, Sorted, Bool-cases, Option-cases, saturating_add, ne→==,
  ==-refl, u64_max,
}
use kora.Qmdb.Changes.{AccountUpdate, ChangeSet}
use kora.Qmdb.Overlay.{slot_under}
use kora.Qmdb.Encoding.{same_key, encode, decode}
use kora.Qmdb.Encoding.RoundTrip.{decode-encode}
use kora.Qmdb.Store.{
  Stores, Faults, Result, ok, err, same_number, batches_from, write_partitions, read_storage,
  current_generation, new_generation, account_op, commit_seq_account_key, commit_seq_storage_key,
}
use kora.Qmdb.Store.Batches.{
  key, slot_value, SlotsSorted, generation_after, storage_after, storage-written, account_after,
  accounts-written,
}
use kora.Qmdb.Store.Markers.{write_batch_last}

abbrev pub no_faults : Faults
no_faults = record { accounts_fails = false; storage_fails = false; code_fails = false }

-- The stores after a commit whose writes all succeed.
abbrev pub committed : ℕ → ChangeSet → Stores → Stores
committed seq c s = (write_partitions no_faults seq (batches_from s c.accounts) s).0

not-marker :
    (a g slot : ℕ)
    → a ≢ commit_seq_account_key
    → same_key (key a g slot) commit_seq_storage_key ≡ false
unfolding same_key
not-marker a g slot m = rw (ne→== a commit_seq_account_key m) refl

pub committed-storage :
    (seq : ℕ) (c : ChangeSet) (s : Stores) (a h slot : ℕ)
    → Sorted c.accounts
    → SlotsSorted c.accounts
    → a ≢ commit_seq_account_key
    → (committed seq c s).storage (key a h slot)
      ≡ storage_after s (get a c.accounts) s.storage (key a h slot)
unfolding write_partitions
committed-storage seq c s a h slot k o n =
    write_batch_last same_key (batches_from s c.accounts).storage commit_seq_storage_key (some seq)
      s.storage (key a h slot)
    ∙ (rw (not-marker a h slot n) (storage-written s 0 c.accounts s.storage a h slot k o))

pub committed-account :
    (seq : ℕ) (c : ChangeSet) (s : Stores) (a : ℕ)
    → Sorted c.accounts
    → a ≢ commit_seq_account_key
    → (committed seq c s).accounts a ≡ account_after s a (get a c.accounts) (s.accounts a)
unfolding write_partitions
committed-account seq c s a k n =
    write_batch_last same_number (batches_from s c.accounts).accounts commit_seq_account_key
      (some (encode seq 0 0 0)) s.accounts a
    ∙ (rw (ne→== a commit_seq_account_key n) (accounts-written s 0 c.accounts s.accounts a k))

-- Nothing is stored for an account at the generations that it has not reached.
pub data FreshAt (s : Stores) (a : ℕ) : Type 0 where
  absent : s.accounts a ≡ none → ((g slot : ℕ) → s.storage (key a g slot) ≡ none) → FreshAt s a
  present :
      (nonce balance code_hash generation : ℕ) (bytes : List ℕ)
      → s.accounts a ≡ some bytes
      → decode bytes ≡ some (nonce, balance, code_hash, generation)
      → generation < u64_max
      → ((g slot : ℕ) → generation < g → s.storage (key a g slot) ≡ none)
      → FreshAt s a

pub record Fits (u : AccountUpdate) : Type 0 where
  pub nonce_fits : u.nonce < 256 ^ 8
  pub balance_fits : u.balance < 256 ^ 32
  pub code_hash_fits : u.code_hash < 256 ^ 32

abbrev pub value_of : Result ℕ → Option ℕ
value_of (ok n) = some n
value_of (err e) = none

abbrev pub or_zero : Option ℕ → ℕ
or_zero none = 0
or_zero (some n) = n

pub read_absent : (s : Stores) (a slot : ℕ) → s.accounts a ≡ none → read_storage s a slot ≡ ok 0
unfolding read_storage
read_absent s a slot e = rw (e, read_storage) refl

pub read_present :
    (s : Stores) (a slot n b c g : ℕ) (bytes : List ℕ)
    → s.accounts a ≡ some bytes
    → decode bytes ≡ some (n, b, c, g)
    → read_storage s a slot ≡ ok (or_zero (s.storage (key a g slot)))
unfolding read_storage
read_present s a slot n b c g bytes e d = elim (Option-cases (s.storage (key a g slot))) [
  | inl x ↦ rw (e, d, x, read_storage) refl
  | inr (v, x) ↦ rw (e, d, x, read_storage) refl
]

-- What is read of an account after an update of it.
abbrev pub read_after : Stores → ℕ → AccountUpdate → ℕ → ℕ
read_after s a u slot =
    if u.selfdestructed
    then 0
    else or_zero (slot_value (get slot u.storage) (s.storage (key a (generation_after s a u) slot)))

pub read_updated :
    (s s' : Stores) (a slot : ℕ) (u : AccountUpdate)
    → s'.accounts a ≡ account_after s a (some u) (s.accounts a)
    → s'.storage (key a (generation_after s a u) slot)
      ≡ storage_after s (some u) s.storage (key a (generation_after s a u) slot)
    → Fits u
    → generation_after s a u < 256 ^ 8
    → read_storage s' a slot ≡ ok (read_after s a u slot)
unfolding account_op
read_updated s s' a slot u acc sto f g =
    let gen = generation_after s a u in
    let left = or_zero (slot_value (get slot u.storage) (s.storage (key a gen slot))) in
    let sto' : s'.storage (key a gen slot)
        ≡ slot_value (get slot u.storage) (s.storage (key a gen slot)) =
      sto
      ∙ ap
          (λ b.
            if b
            then slot_value (get slot u.storage) (s.storage (key a gen slot))
            else s.storage (key a gen slot))
          (==-refl gen) in
    elim (Bool-cases u.selfdestructed) [
      | inl d ↦
          read_absent s' a slot
            (acc ∙ ap (λ b. if b then none else some (encode u.nonce u.balance u.code_hash gen)) d)
          ∙ ap (λ b. ok (if b then 0 else left)) (sym d)
      | inr d ↦
          read_present s' a slot u.nonce u.balance u.code_hash gen
            (encode u.nonce u.balance u.code_hash gen)
            (acc ∙ ap (λ b. if b then none else some (encode u.nonce u.balance u.code_hash gen)) d)
            (decode-encode u.nonce u.balance u.code_hash gen f.nonce_fits f.balance_fits
              f.code_hash_fits g).1
          ∙ ap (λ o. ok (or_zero o)) sto'
          ∙ ap (λ b. ok (if b then 0 else left)) (sym d)
    ]

pub generation_absent :
    (s : Stores) (a : ℕ) (u : AccountUpdate) → s.accounts a ≡ none → generation_after s a u ≤ 1
unfolding current_generation new_generation saturating_add
generation_absent s a u e = rw (e, current_generation) (ground arith)

pub generation_anew :
    (s : Stores) (a : ℕ) (u : AccountUpdate)
    → s.accounts a ≡ none
    → u.created ≡ true
    → generation_after s a u ≡ 1
unfolding current_generation new_generation saturating_add
generation_anew s a u e c = rw (e, current_generation) (ground arith)

pub generation_present :
    (s : Stores) (a n b c g : ℕ) (bytes : List ℕ) (u : AccountUpdate)
    → s.accounts a ≡ some bytes
    → decode bytes ≡ some (n, b, c, g)
    → g < u64_max
    → generation_after s a u ≡ (if u.created || u.selfdestructed then suc g else g)
unfolding current_generation new_generation saturating_add
generation_present s a n b c g bytes u e d h = rw (e, d, current_generation) (ground arith)

pub update-refines :
    (s s' : Stores) (a slot : ℕ) (u : AccountUpdate)
    → FreshAt s a
    → read_storage s' a slot ≡ ok (read_after s a u slot)
    → value_of (read_storage s' a slot)
      ≡ slot_under (some u) slot (value_of (read_storage s a slot))
unfolding slot_under
update-refines s s' a slot u (absent e z) r =
    ground (arith, r, read_absent s a slot e, z (generation_after s a u) slot)
update-refines s s' a slot u (present n b c g bytes e d h z) r = ground (
  arith,
  r,
  read_present s a slot n b c g bytes e d,
  generation_present s a n b c g bytes u e d h,
  z (suc g) slot,
)

abbrev pub FitsAt : Option AccountUpdate → Type 0
FitsAt none = Unit {0}
FitsAt (some u) = Fits u
