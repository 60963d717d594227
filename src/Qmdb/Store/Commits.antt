-- ===== src/Qmdb/Store/Commits.antt =====
-- Commits refine the overlay, keep new generations empty, and forget generations on destruction.
use kora.Base.{
  ℕ, ◌^◌, ◌<◌, ◌≡◌, ◌≢◌, refl, ap, ◌∙◌, true, false, List, Option, none, some, arith, if◌then◌else◌,
  get, Sorted, u64_max,
}
use kora.Qmdb.Changes.{AccountUpdate, ChangeSet}
use kora.Qmdb.Overlay.{slot_under}
use kora.Qmdb.Encoding.{encode, decode}
use kora.Qmdb.Encoding.RoundTrip.{decode-encode}
use kora.Qmdb.Store.{Stores, ok, read_storage, account_op, commit_seq_account_key}
use kora.Qmdb.Store.Batches.{key, SlotsSorted, generation_after, storage_after, account_after}
use kora.Qmdb.Store.Refine.{
  committed, committed-storage, committed-account, FreshAt, absent, present, Fits, FitsAt, value_of,
  read_absent, read_present, read_updated, generation_absent, generation_present, generation_anew,
  update-refines,
}

pub generation_small :
    (s : Stores) (a : ℕ) (u : AccountUpdate) → FreshAt s a → generation_after s a u < 256 ^ 8
generation_small s a u (absent e z) = omega (arith, generation_absent s a u e)
generation_small s a u (present n b c g bytes e d h z) =
    ground (arith, generation_present s a n b c g bytes u e d h)

refines-at :
    (s s' : Stores) (a slot : ℕ) (o : Option AccountUpdate)
    → FreshAt s a
    → FitsAt o
    → s'.accounts a ≡ account_after s a o (s.accounts a)
    → ((h : ℕ) → s'.storage (key a h slot) ≡ storage_after s o s.storage (key a h slot))
    → value_of (read_storage s' a slot) ≡ slot_under o slot (value_of (read_storage s a slot))
unfolding slot_under
refines-at s s' a slot none (absent e z) f acc sto =
    ground (arith, read_absent s a slot e, read_absent s' a slot (acc ∙ e))
refines-at s s' a slot none (present n b c g bytes e d h z) f acc sto = ground (
  arith,
  read_present s a slot n b c g bytes e d,
  read_present s' a slot n b c g bytes (acc ∙ e) d,
  sto g,
)
refines-at s s' a slot (some u) r f acc sto =
    update-refines s s' a slot u r
      (read_updated s s' a slot u acc (sto (generation_after s a u)) f (generation_small s a u r))

-- After a commit whose three writes succeed, a slot of an account whose later generations are
-- empty reads as it does under an overlay of the committed changes, for updates that fit their
-- encoding and an address other than the marker's.
pub committed-refines :
    (seq : ℕ) (c : ChangeSet) (s : Stores) (a slot : ℕ)
    → Sorted c.accounts
    → SlotsSorted c.accounts
    → a ≢ commit_seq_account_key
    → FreshAt s a
    → FitsAt (get a c.accounts)
    → value_of (read_storage (committed seq c s) a slot)
      ≡ slot_under (get a c.accounts) slot (value_of (read_storage s a slot))
committed-refines seq c s a slot k o n r f =
    refines-at s (committed seq c s) a slot (get a c.accounts) r f (committed-account seq c s a k n)
      (λ h. committed-storage seq c s a h slot k o n)

-- The update neither destroys the account nor exhausts its generations.
abbrev pub Lives : Stores → ℕ → Option AccountUpdate → Type 0
Lives s a none = Unit {0}
Lives s a (some u) = (u.selfdestructed ≡ false) × (generation_after s a u < u64_max)

fresh-at :
    (s s' : Stores) (a : ℕ) (o : Option AccountUpdate)
    → FreshAt s a
    → FitsAt o
    → Lives s a o
    → s'.accounts a ≡ account_after s a o (s.accounts a)
    → ((h slot : ℕ) → s'.storage (key a h slot) ≡ storage_after s o s.storage (key a h slot))
    → FreshAt s' a
unfolding account_op
fresh-at s s' a none (absent e z) f l acc sto = absent (acc ∙ e) (λ g slot. sto g slot ∙ z g slot)
fresh-at s s' a none (present n b c g bytes e d h z) f l acc sto =
    present n b c g bytes (acc ∙ e) d h (λ k slot lt. sto k slot ∙ z k slot lt)
fresh-at s s' a (some u) r f l acc sto =
    let gen = generation_after s a u in
    present u.nonce u.balance u.code_hash gen (encode u.nonce u.balance u.code_hash gen)
      (acc ∙ ap (λ b. if b then none else some (encode u.nonce u.balance u.code_hash gen)) l.0)
      (decode-encode u.nonce u.balance u.code_hash gen f.nonce_fits f.balance_fits f.code_hash_fits
        (generation_small s a u r)).1
      l.1 (λ k slot lt. beyond r k slot lt)
  where
    beyond :
        FreshAt s a → (k slot : ℕ) → generation_after s a u < k → s'.storage (key a k slot) ≡ none
    beyond (absent e z) k slot lt = ground (arith, sto k slot, z k slot)
    beyond (present n b c g bytes e d h z) k slot lt =
        ground (arith, sto k slot, z k slot, generation_present s a n b c g bytes u e d h)

-- A commit of updates in key order keeps the later generations of an account empty, for an address
-- other than the commit marker's whose update fits its encoding, does not destroy the account and
-- does not exhaust its generations.
pub committed-FreshAt :
    (seq : ℕ) (c : ChangeSet) (s : Stores) (a : ℕ)
    → Sorted c.accounts
    → SlotsSorted c.accounts
    → a ≢ commit_seq_account_key
    → FreshAt s a
    → FitsAt (get a c.accounts)
    → Lives s a (get a c.accounts)
    → FreshAt (committed seq c s) a
committed-FreshAt seq c s a k o n r f l =
    fresh-at s (committed seq c s) a (get a c.accounts) r f l (committed-account seq c s a k n)
      (λ h slot. committed-storage seq c s a h slot k o n)

-- Destroying an account drops its generation with it, so that an account created again at the
-- address reads what the first one stored: from an account at generation 1 with a value in a slot,
-- a commit that destroys it reads zero there, and a later commit that creates it anew without
-- writing the slot reads the old value.
pub recreated-reads_stale :
    (m n : ℕ) (c d : ChangeSet) (s : Stores) (a slot v : ℕ) (nonce balance hash : ℕ)
    (bytes : List ℕ) (u w : AccountUpdate)
    → Sorted c.accounts
    → SlotsSorted c.accounts
    → Sorted d.accounts
    → SlotsSorted d.accounts
    → a ≢ commit_seq_account_key
    → s.accounts a ≡ some bytes
    → decode bytes ≡ some (nonce, balance, hash, 1)
    → s.storage (key a 1 slot) ≡ some v
    → get a c.accounts ≡ some u
    → u.selfdestructed ≡ true
    → get a d.accounts ≡ some w
    → w.selfdestructed ≡ false
    → w.created ≡ true
    → get slot w.storage ≡ none
    → Fits w
    → (read_storage (committed m c s) a slot ≡ ok 0)
      × (read_storage (committed n d (committed m c s)) a slot ≡ ok v)
unfolding account_op
recreated-reads_stale m n c d s a slot v nonce balance hash bytes u w kc oc kd od ne e b st gu du gw
      dw cw none_w f =
    let s1 = committed m c s in
    let s2 = committed n d s1 in
    let gone : s1.accounts a ≡ none = committed-account m c s a kc ne ∙ (rw (gu, du) refl) in
    let g2 = generation_present s a nonce balance hash 1 bytes u e b (omega arith) in
    let old : s1.storage (key a 1 slot) ≡ some v =
      committed-storage m c s a 1 slot kc oc ne ∙ (rw gu (ground (arith, g2, st))) in
    let g1 = generation_anew s1 a w gone cw in
    let acc =
      committed-account n d s1 a kd ne ∙ ap (λ o. account_after s1 a o (s1.accounts a)) gw in
    let sto =
      committed-storage n d s1 a (generation_after s1 a w) slot kd od ne
      ∙ ap (λ o. storage_after s1 o s1.storage (key a (generation_after s1 a w) slot)) gw in
    (
      read_absent s1 a slot gone,
      read_updated s1 s2 a slot w acc sto f (omega (arith, g1))
          ∙ (ground (arith, g1, old, dw, none_w)),
    )
