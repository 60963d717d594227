-- ===== src/Ledger/Flight/Sections.antt =====
-- The two sections of `persist_snapshot` against the marks of the snapshot store: the second.
use kora.Base.{
  ℕ, ◌≡◌, refl, ap, ◌∙◌, inl, inr, Bool, true, false, not, ◌&&◌, ◌||◌, List, [], ◌∷◌, Option, none,
  some, arith, ◌==◌, if◌then◌else◌, get, get-put, Bool-cases, Option-cases, ==→eq, ==-refl,
}
use kora.Qmdb.Changes.{ChangeSet, is_some}
use kora.Consensus.Snapshot.{
  Snapshot, InMemorySnapshotStore, elem, clear_persisting_chain, mark_persisted, evict_persisted,
  mark, lookup, insert,
}
use kora.Consensus.Snapshot.Walk.{elem-mark, evict_loop-Agree}
use kora.Ledger.{compact}
use kora.Ledger.Persist.{finish, compact_chain, settle_chain, Finish, persisted, failed}
use kora.Ledger.Flight.Marks.{elem-without_all}

-- What replacing the snapshots of a chain leaves as it was.
pub record Compacts (store after : InMemorySnapshotStore ChangeSet) : Type 0 where
  pub same_persisted : after.persisted ≡ store.persisted
  pub same_persisting : after.persisting ≡ store.persisting
  pub presence : (x : ℕ) → is_some (get x after.snapshots) ≡ is_some (get x store.snapshots)

insert_present :
    (x d : ℕ) (s t : Snapshot ChangeSet) (store : InMemorySnapshotStore ChangeSet)
    → get d store.snapshots ≡ some s
    → is_some (get x (insert store d t).snapshots) ≡ is_some (get x store.snapshots)
unfolding insert
insert_present x d s t store g = elim (Bool-cases (x == d)) [
  | inl e ↦
      ground
        (arith, get-put x d t store.snapshots, e, g, ap (λ y. get y store.snapshots) (==→eq x d e))
  | inr e ↦ ground (arith, get-put x d t store.snapshots, e)
]

pub compact_chain-Compacts :
    (ds : List ℕ) (store : InMemorySnapshotStore ChangeSet)
    → Compacts store (compact_chain ds store).0
unfolding compact_chain lookup insert
compact_chain-Compacts [] store = record {
  same_persisted = refl;
  same_persisting = refl;
  presence = λ x. refl;
}
compact_chain-Compacts (d ∷ ds) store = elim (Option-cases (get d store.snapshots)) [
  | inl g ↦
      rw (compact_chain, g)
        (record { same_persisted = refl; same_persisting = refl; presence = λ x. refl })
  | inr (s, g) ↦
      let next = insert store d (compact s.parent s.state_root s.tx_ids) in
      let deep = compact_chain-Compacts ds next in
      rw (compact_chain, g)
        (record {
          same_persisted = deep.same_persisted;
          same_persisting = deep.same_persisting;
          presence = λ x. deep.presence x ∙ insert_present x d s _ store g;
        })
]

compact_chain-none :
    (ds : List ℕ) (store : InMemorySnapshotStore ChangeSet)
    → ((x : ℕ) → elem x ds ≡ true → is_some (get x store.snapshots) ≡ true)
    → (compact_chain ds store).1 ≡ none
unfolding compact_chain lookup
compact_chain-none [] store h = refl
compact_chain-none (d ∷ ds) store h = elim (Option-cases (get d store.snapshots)) [
  | inl g ↦ ground (arith, h d (rw (==-refl d) refl), g)
  | inr (s, g) ↦
      rw (compact_chain, g)
        (compact_chain-none ds (insert store d (compact s.parent s.state_root s.tx_ids))
          (λ x e. insert_present x d s _ store g ∙ h x (ground (arith, e))))
]

settle_chain-persisting :
    (chain : List ℕ) (r : InMemorySnapshotStore ChangeSet × Option ℕ)
    → (settle_chain chain r).0.persisting ≡ r.0.persisting
unfolding mark_persisted evict_persisted
settle_chain-persisting chain (after, some d) = refl
settle_chain-persisting chain (after, none) = refl

-- The second section clears the chain's marks and no others, whatever comes of it.
pub finish-persisting :
    (store : InMemorySnapshotStore ChangeSet) (chain : List ℕ) (b : Bool) (x : ℕ)
    → elem x (finish store chain b).0.persisting ≡ (not (elem x chain) && elem x store.persisting)
unfolding finish clear_persisting_chain
finish-persisting store chain true x =
    let cleared = clear_persisting_chain store chain in
    ap (elem x) (
      settle_chain-persisting chain (compact_chain chain cleared)
      ∙ (compact_chain-Compacts chain cleared).same_persisting)
    ∙ elem-without_all x chain store.persisting
finish-persisting store chain false x = elem-without_all x chain store.persisting

-- After a commit that failed it marks nothing as persisted.
pub finish-persisted_failed :
    (store : InMemorySnapshotStore ChangeSet) (chain : List ℕ)
    → (finish store chain false).0.persisted ≡ store.persisted
unfolding finish clear_persisting_chain
finish-persisted_failed store chain = refl

-- What the second section does.
pub record Finishes (store : InMemorySnapshotStore ChangeSet) (chain : List ℕ) (b : Bool)
    (r : InMemorySnapshotStore ChangeSet × Finish) : Type 0 where
  pub outcome : r.1 ≡ (if b then persisted else failed)
  pub marks : (x : ℕ) → elem x r.0.persisting ≡ (not (elem x chain) && elem x store.persisting)
  pub persists : (x : ℕ) → elem x r.0.persisted ≡ ((elem x chain && b) || elem x store.persisted)
  pub keeps :
      (x : ℕ)
      → elem x r.0.persisted ≡ false
      → is_some (get x r.0.snapshots) ≡ is_some (get x store.snapshots)

settle_chain-Finishes :
    (store : InMemorySnapshotStore ChangeSet) (chain : List ℕ)
    (r : InMemorySnapshotStore ChangeSet × Option ℕ)
    → r.1 ≡ none
    → Compacts (clear_persisting_chain store chain) r.0
    → Finishes store chain true (settle_chain chain r)
unfolding mark_persisted evict_persisted clear_persisting_chain
settle_chain-Finishes store chain (after, some d) e k = cc
settle_chain-Finishes store chain (after, none) e k =
    let marked = mark chain after.persisted after.persisted_order in
    let (same, _) =
      evict_loop-Agree after.max_persisted_retained marked.0 marked.1 after.snapshots in
    record {
      outcome = refl;
      marks = λ x. ap (elem x) k.same_persisting ∙ elem-without_all x chain store.persisting;
      persists = λ x.
          elem-mark x chain after.persisted after.persisted_order
          ∙ ground (arith, ap (elem x) k.same_persisted);
      keeps = λ x e. ap is_some (same x e) ∙ k.presence x;
    }

-- Where the chain's snapshots are held, the second section never misses one: it clears the
-- chain's marks, and after a commit that succeeded it marks the chain persisted.
pub finish-Finishes :
    (store : InMemorySnapshotStore ChangeSet) (chain : List ℕ) (b : Bool)
    → ((x : ℕ) → elem x chain ≡ true → is_some (get x store.snapshots) ≡ true)
    → Finishes store chain b (finish store chain b)
unfolding finish clear_persisting_chain
finish-Finishes store chain true h =
    let cleared = clear_persisting_chain store chain in
    settle_chain-Finishes store chain (compact_chain chain cleared)
      (compact_chain-none chain cleared h) (compact_chain-Compacts chain cleared)
finish-Finishes store chain false h = record {
  outcome = refl;
  marks = λ x. elem-without_all x chain store.persisting;
  persists = λ x. ground arith;
  keeps = λ x e. refl;
}
