-- ===== src/Qmdb/Store/Batches.antt =====
-- What the batches of a change set write, key by key.
use kora.Base.{
  ℕ, suc, ◌≡◌, refl, Bool, ◌&&◌, List, [], ◌∷◌, ◌++◌, Option, none, some, arith, ◌==◌,
  if◌then◌else◌, Map, get, get_below, KeysFrom,
}
use kora.Qmdb.Changes.{AccountUpdate}
use kora.Qmdb.Encoding.{StorageKey, same_key}
use kora.Qmdb.Store.{
  Partition, Stores, write, write_batch, same_number, batches_from, slot_ops, account_op,
  current_generation, new_generation,
}

abbrev pub key : ℕ → ℕ → ℕ → StorageKey
key a g s = record { address = a; generation = g; slot = s }

pub write_batch-append :
    {K V : Type 0} (same : K → K → Bool) (xs ys : List (K × Option V)) (p : Partition K V)
    → write_batch same (xs ++ ys) p ≡ write_batch same ys (write_batch same xs p)
unfolding write_batch
write_batch-append same [] ys p = refl
write_batch-append same ((k, v) ∷ xs) ys p = write_batch-append same xs ys (write same k v p)

-- A written slot reads as its value, and a zero as absent.
abbrev pub slot_value : Option ℕ → Option ℕ → Option ℕ
slot_value none old = old
slot_value (some value) old = if value == 0 then none else some value

pub slot_ops-written :
    (a g lo : ℕ) (m : Map ℕ) (p : Partition StorageKey ℕ) (b h slot : ℕ)
    → KeysFrom lo m
    → write_batch same_key (slot_ops a g m) p (key b h slot)
      ≡ (if b == a && h == g then slot_value (get slot m) (p (key b h slot)) else p (key b h slot))
unfolding write_batch slot_ops same_key get
slot_ops-written a g lo [] p b h slot k = ground arith
slot_ops-written a g lo ((j, v) ∷ m) p b h slot k = ground (
  arith,
  slot_ops-written a g (suc j) m (write same_key (key a g j) (if v == 0 then none else some v) p) b
      h slot k.1,
  get_below slot (suc j) m k.1,
)

-- Every update of the change set has its slots in order.
abbrev pub SlotsSorted : Map AccountUpdate → Type 0
SlotsSorted [] = Unit {0}
SlotsSorted ((a, u) ∷ m) = KeysFrom 0 u.storage × SlotsSorted m

abbrev pub generation_after : Stores → ℕ → AccountUpdate → ℕ
generation_after s a u = new_generation (current_generation s a) u

-- The storage partition after the batch, at one key.
abbrev pub storage_after :
    Stores → Option AccountUpdate → Partition StorageKey ℕ → StorageKey → Option ℕ
storage_after s none p k = p k
storage_after s (some u) p k =
    if k.generation == generation_after s k.address u
    then slot_value (get k.slot u.storage) (p k)
    else p k

pub storage-written :
    (s : Stores) (lo : ℕ) (m : Map AccountUpdate) (p : Partition StorageKey ℕ) (b h slot : ℕ)
    → KeysFrom lo m
    → SlotsSorted m
    → write_batch same_key (batches_from s m).storage p (key b h slot)
      ≡ storage_after s (get b m) p (key b h slot)
unfolding batches_from get write_batch
storage-written s lo [] p b h slot k o = refl
storage-written s lo ((a, u) ∷ m) p b h slot k o =
    let ops = slot_ops a (generation_after s a u) u.storage in
    rw (write_batch-append same_key ops (batches_from s m).storage p) (
      ground (
        arith,
        storage-written s (suc a) m (write_batch same_key ops p) b h slot k.1 o.1,
        slot_ops-written a (generation_after s a u) 0 u.storage p b h slot o.0,
        get_below b (suc a) m k.1,
      ))

abbrev pub account_after : Stores → ℕ → Option AccountUpdate → Option (List ℕ) → Option (List ℕ)
account_after s a none old = old
account_after s a (some u) old = (account_op a (generation_after s a u) u).1

pub accounts-written :
    (s : Stores) (lo : ℕ) (m : Map AccountUpdate) (p : Partition ℕ (List ℕ)) (b : ℕ)
    → KeysFrom lo m
    → write_batch same_number (batches_from s m).accounts p b ≡ account_after s b (get b m) (p b)
unfolding batches_from get write_batch
accounts-written s lo [] p b k = refl
accounts-written s lo ((a, u) ∷ m) p b k = ground (
  arith,
  accounts-written s (suc a) m (write same_number a (account_op a (generation_after s a u) u).1 p) b
      k.1,
  get_below b (suc a) m k.1,
)
