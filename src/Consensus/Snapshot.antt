-- ===== src/Consensus/Snapshot.antt =====
-- crates/node/consensus/src/components/snapshot.rs: `InMemorySnapshotStore`.
-- Digests, state roots and transaction ids are numbers; a set is the list of its elements. The
-- store's locks are taken one call at a time: each method takes the store and returns it.
pub mod Walk
use kora.Base.{
  ℕ, zero, suc, ◌+◌, ◌-◌, Bool, true, false, not, ◌&&◌, ◌||◌, List, [], ◌∷◌, ◌++◌, Option, none,
  some, reverse, leb, ◌==◌, if◌then◌else◌, length, Map, get, put, del,
}
use kora.Qmdb.Changes.{ChangeSet, merge, is_some}
use kora.Qmdb.Changes

-- `Snapshot`, the state type being that of the caller.
pub record Snapshot (S : Type 0) : Type 0 where
  pub parent : Option ℕ
  pub state : S
  pub state_root : ℕ
  pub changes : ChangeSet
  pub tx_ids : List ℕ

-- `contains`, `insert` and `remove` of a set.
abbrev pub elem : ℕ → List ℕ → Bool
elem d [] = false
elem d (x ∷ xs) = (d == x) || elem d xs

abbrev pub adjoin : ℕ → List ℕ → List ℕ
adjoin d xs = if elem d xs then xs else d ∷ xs

abbrev pub without : ℕ → List ℕ → List ℕ
without d [] = []
without d (x ∷ xs) = let rest = without d xs in if d == x then rest else x ∷ rest

pub record InMemorySnapshotStore (S : Type 0) : Type 0 where
  pub snapshots : Map (Snapshot S)
  pub persisted : List ℕ
  pub persisting : List ℕ
  pub persisted_order : List ℕ
  pub max_persisted_retained : ℕ

-- What a walk over the ancestors ends in: a value, the digest of a missing snapshot, or no fuel.
pub data Result (A : Type 0) : Type 0 where
  found : A → Result A
  snapshot_not_found : ℕ → Result A
  out_of_fuel : Result A

abbrev pub map_found : {A B : Type 0} → (A → B) → Result A → Result B
map_found f (found a) = found (f a)
map_found f (snapshot_not_found d) = snapshot_not_found d
map_found f out_of_fuel = out_of_fuel

-- The loop of `mark_persisted`: the set and the order.
unfoldable pub mark : List ℕ → List ℕ → List ℕ → List ℕ × List ℕ
mark [] persisted order = (persisted, order)
mark (d ∷ ds) persisted order =
    mark ds (adjoin d persisted) (if elem d persisted then order else order ++ d ∷ [])

abbrev pub adjoin_all : List ℕ → List ℕ → List ℕ
adjoin_all [] xs = xs
adjoin_all (d ∷ ds) xs = adjoin_all ds (adjoin d xs)

abbrev pub without_all : List ℕ → List ℕ → List ℕ
without_all [] xs = xs
without_all (d ∷ ds) xs = without_all ds (without d xs)

module _ {S : Type 0} where
  -- `with_max_persisted_retained`.
  unfoldable pub new : ℕ → InMemorySnapshotStore S
  new max = record {
    snapshots = [];
    persisted = [];
    persisting = [];
    persisted_order = [];
    max_persisted_retained = max;
  }

  unfoldable pub lookup : InMemorySnapshotStore S → ℕ → Option (Snapshot S)
  lookup store digest = get digest store.snapshots

  unfoldable pub insert : InMemorySnapshotStore S → ℕ → Snapshot S → InMemorySnapshotStore S
  insert store digest snapshot = record {
    snapshots = put digest snapshot store.snapshots;
    persisted = store.persisted;
    persisting = store.persisting;
    persisted_order = store.persisted_order;
    max_persisted_retained = store.max_persisted_retained;
  }

  unfoldable pub is_persisted : InMemorySnapshotStore S → ℕ → Bool
  is_persisted store digest = elem digest store.persisted

  unfoldable pub mark_persisted : InMemorySnapshotStore S → List ℕ → InMemorySnapshotStore S
  unfolding mark
  mark_persisted store digests =
      let (persisted, order) = mark digests store.persisted store.persisted_order in
      record {
        snapshots = store.snapshots;
        persisted = persisted;
        persisting = store.persisting;
        persisted_order = order;
        max_persisted_retained = store.max_persisted_retained;
      }

  unfoldable pub can_persist_chain : InMemorySnapshotStore S → List ℕ → Bool
  can_persist_chain store [] = true
  can_persist_chain store (d ∷ ds) =
      (not (elem d store.persisted) && not (elem d store.persisting)) && can_persist_chain store ds

  abbrev pub with_persisting : InMemorySnapshotStore S → List ℕ → InMemorySnapshotStore S
  with_persisting store persisting = record {
    snapshots = store.snapshots;
    persisted = store.persisted;
    persisting = persisting;
    persisted_order = store.persisted_order;
    max_persisted_retained = store.max_persisted_retained;
  }

  unfoldable pub mark_persisting_chain : InMemorySnapshotStore S → List ℕ → InMemorySnapshotStore S
  mark_persisting_chain store ds = with_persisting store (adjoin_all ds store.persisting)

  unfoldable pub clear_persisting_chain : InMemorySnapshotStore S → List ℕ → InMemorySnapshotStore S
  clear_persisting_chain store ds = with_persisting store (without_all ds store.persisting)

  -- The loop of `evict_persisted`: it pops the oldest digests until the order is short enough.
  unfoldable pub evict_loop : ℕ → List ℕ → List ℕ → Map (Snapshot S) → Map (Snapshot S) × List ℕ × ℕ
  evict_loop max persisted [] snapshots = (snapshots, [], 0)
  evict_loop max persisted (oldest ∷ order) snapshots =
      let gone = elem oldest persisted in
      let rest =
        evict_loop max persisted order (if gone then del oldest snapshots else snapshots) in
      if leb (suc (length order)) max
      then (snapshots, oldest ∷ order, 0)
      else (rest.0, rest.1, (if gone && is_some (get oldest snapshots) then suc rest.2 else rest.2))

  unfoldable pub evict_persisted : InMemorySnapshotStore S → InMemorySnapshotStore S × ℕ
  unfolding evict_loop
  evict_persisted store =
      let (snapshots, order, evicted) =
        evict_loop store.max_persisted_retained store.persisted store.persisted_order
          store.snapshots in
      (
        record {
          snapshots = snapshots;
          persisted = store.persisted;
          persisting = store.persisting;
          persisted_order = order;
          max_persisted_retained = store.max_persisted_retained;
        },
        evicted,
      )

  -- The walk of `merged_changes` and `changes_for_persist`, up to the first persisted digest.
  unfoldable pub walk : ℕ → Map (Snapshot S) → List ℕ → Option ℕ → Result (List (ℕ × Snapshot S))
  walk fuel snapshots persisted none = found []
  walk zero snapshots persisted (some d) = if elem d persisted then found [] else out_of_fuel
  walk (suc fuel) snapshots persisted (some d) =
      if elem d persisted then found [] else elim (get d snapshots) [
        | none ↦ snapshot_not_found d
        | some s ↦ map_found (λ ss. (d, s) ∷ ss) (walk fuel snapshots persisted s.parent)
      ]

  -- The merge of a chain, oldest first.
  unfoldable pub merge_chain : List (ℕ × Snapshot S) → ChangeSet
  merge_chain [] = Changes.new
  merge_chain ((d, s) ∷ ss) = merge (merge_chain ss) s.changes

  abbrev pub digests : List (ℕ × Snapshot S) → List ℕ
  digests [] = []
  digests ((d, s) ∷ ss) = d ∷ digests ss

  -- The fuel bounds the walk: the program's own loop has no bound.
  unfoldable pub changes_for_persist : ℕ → InMemorySnapshotStore S → ℕ → Result (List ℕ × ChangeSet)
  unfolding walk merge_chain
  changes_for_persist fuel store digest =
      map_found (λ ss. (reverse (digests ss), merge_chain ss))
        (walk fuel store.snapshots store.persisted (some digest))

  unfoldable pub merged_changes : ℕ → InMemorySnapshotStore S → ℕ → ChangeSet → Result ChangeSet
  unfolding walk merge_chain
  merged_changes fuel store parent new_changes =
      map_found (λ ss. merge (merge_chain ss) new_changes)
        (walk fuel store.snapshots store.persisted (some parent))

  unfoldable pub len : InMemorySnapshotStore S → ℕ
  len store = length store.snapshots

  unfoldable pub persisted_count : InMemorySnapshotStore S → ℕ
  persisted_count store = length store.persisted

  abbrev pub unpersisted : List ℕ → Map (Snapshot S) → ℕ
  unpersisted persisted [] = 0
  unpersisted persisted ((d, s) ∷ m) =
      let rest = unpersisted persisted m in if elem d persisted then rest else suc rest

  unfoldable pub unpersisted_count : InMemorySnapshotStore S → ℕ
  unpersisted_count store = unpersisted store.persisted store.snapshots
