-- ===== src/Ledger/Persist.antt =====
-- `LedgerView::persist_snapshot`: two sections under the mutex with the commit between them, and
-- the steps of the tasks that run it beside one another and beside the ledger's other sections.
use kora.Base.{
  ℕ, ◌≡◌, Bool, true, false, ◌||◌, List, [], ◌∷◌, ◌++◌, Option, none, some, if◌then◌else◌,
}
use kora.Qmdb.Changes.{ChangeSet}
use kora.Qmdb.Store.{QmdbStore, Stores, Faults}
use kora.Qmdb.Store
use kora.Qmdb.Handle.{commit}
use kora.Consensus.Snapshot.{
  Snapshot, InMemorySnapshotStore, Result, found, snapshot_not_found, out_of_fuel,
  changes_for_persist, can_persist_chain, mark_persisting_chain, clear_persisting_chain,
  mark_persisted, evict_persisted, lookup, elem,
}
use kora.Consensus.Snapshot
use kora.Ledger.{LedgerState, compact, cache_snapshot, restore_persisted_snapshot}

-- A task that has marked its chain: with the commit's result once there is one.
pub record Task : Type 0 where
  pub digest : ℕ
  pub chain : List ℕ
  pub changes : ChangeSet
  pub result : Option Bool

-- What the first section ends in: the task, a return of `Ok(false)`, or an error.
pub data Begin : Type 0 where
  started : Task → Begin
  not_needed : Begin
  missing : ℕ → Begin
  no_fuel : Begin

abbrev pub first_section :
    InMemorySnapshotStore ChangeSet
    → ℕ
    → Result (List ℕ × ChangeSet)
    → InMemorySnapshotStore ChangeSet × Begin
first_section store digest (snapshot_not_found d) = (store, missing d)
first_section store digest out_of_fuel = (store, no_fuel)
first_section store digest (found ([], changes)) = (store, not_needed)
first_section store digest (found (d ∷ ds, changes)) =
    if can_persist_chain store (d ∷ ds)
    then (
      mark_persisting_chain store (d ∷ ds),
      started (record { digest = digest; chain = d ∷ ds; changes = changes; result = none }),
    )
    else (store, not_needed)

-- The first section. The fuel bounds the walk over the ancestors.
unfoldable pub begin :
    ℕ → InMemorySnapshotStore ChangeSet → ℕ → InMemorySnapshotStore ChangeSet × Begin
begin fuel store digest = first_section store digest (changes_for_persist fuel store digest)

-- The loop that replaces the snapshots of the chain, up to one that is missing.
unfoldable pub compact_chain :
    List ℕ → InMemorySnapshotStore ChangeSet → InMemorySnapshotStore ChangeSet × Option ℕ
compact_chain [] store = (store, none)
compact_chain (d ∷ ds) store = elim (lookup store d) [
  | none ↦ (store, some d)
  | some s ↦ compact_chain ds (Snapshot.insert store d (compact s.parent s.state_root s.tx_ids))
]

pub data Finish : Type 0 where
  persisted : Finish
  failed : Finish
  lost : ℕ → Finish

abbrev pub settle_chain :
    List ℕ → InMemorySnapshotStore ChangeSet × Option ℕ → InMemorySnapshotStore ChangeSet × Finish
settle_chain chain (store, some d) = (store, lost d)
settle_chain chain (store, none) = ((evict_persisted (mark_persisted store chain)).0, persisted)

-- The second section, after a commit that succeeded or failed.
unfoldable pub finish :
    InMemorySnapshotStore ChangeSet → List ℕ → Bool → InMemorySnapshotStore ChangeSet × Finish
unfolding compact_chain
finish store chain true =
    settle_chain chain (compact_chain chain (clear_persisting_chain store chain))
finish store chain false = (clear_persisting_chain store chain, failed)

-- The ledger with the tasks in flight, the chains whose commits have succeeded, and whether a block
-- was restored while a task in flight held its digest.
pub record System : Type 0 where
  pub ledger : LedgerState
  pub tasks : List Task
  pub committed : List (List ℕ)
  pub overtaken : Bool

abbrev pub succeeded {ℓ} : {A : Type ℓ} → Store.Result A → Bool
succeeded (Store.Result.ok a) = true
succeeded (Store.Result.err e) = false

abbrev pub note : Bool → List ℕ → List (List ℕ) → List (List ℕ)
note true chain log = chain ∷ log
note false chain log = log

abbrev pub with_store : LedgerState → InMemorySnapshotStore ChangeSet → LedgerState
with_store l store = record l { snapshots = store }

module _ (root : Stores → Option ℕ) where
  -- The steps: each is one section under the mutex, or one commit.
  pub data Step : System → System → Type 0 where
    begins :
        (fuel digest : ℕ) (l : LedgerState) (tasks : List Task) (log : List (List ℕ)) (o : Bool)
        (store : InMemorySnapshotStore ChangeSet) (t : Task)
        → begin fuel l.snapshots digest ≡ (store, started t)
        → Step
            (record { ledger = l; tasks = tasks; committed = log; overtaken = o })
            (record {
              ledger = with_store l store;
              tasks = t ∷ tasks;
              committed = log;
              overtaken = o;
            })
    commits :
        (faults : Faults) (l : LedgerState) (before after : List Task) (log : List (List ℕ))
        (o : Bool) (t : Task) (q : QmdbStore) (r : Store.Result ℕ)
        → t.result ≡ none
        → commit root faults l.qmdb t.changes ≡ (q, r)
        → Step
            (record { ledger = l; tasks = before ++ t ∷ after; committed = log; overtaken = o })
            (record {
              ledger = record l { qmdb = q };
              tasks = before ++ record t { result = some (succeeded r) } ∷ after;
              committed = note (succeeded r) t.chain log;
              overtaken = o;
            })
    finishes :
        (l : LedgerState) (before after : List Task) (log : List (List ℕ)) (o : Bool) (t : Task)
        (b : Bool) (store : InMemorySnapshotStore ChangeSet) (f : Finish)
        → t.result ≡ some b
        → finish l.snapshots t.chain b ≡ (store, f)
        → Step
            (record { ledger = l; tasks = before ++ t ∷ after; committed = log; overtaken = o })
            (record {
              ledger = with_store l store;
              tasks = before ++ after;
              committed = log;
              overtaken = o;
            })
    caches :
        (l : LedgerState) (tasks : List Task) (log : List (List ℕ)) (o : Bool) (digest : ℕ)
        (snapshot : Snapshot ChangeSet)
        → Step
            (record { ledger = l; tasks = tasks; committed = log; overtaken = o })
            (record {
              ledger = cache_snapshot l digest snapshot;
              tasks = tasks;
              committed = log;
              overtaken = o;
            })
    restores :
        (l : LedgerState) (tasks : List Task) (log : List (List ℕ)) (o : Bool)
        (digest parent state_root : ℕ) (ids : List ℕ)
        → Step
            (record { ledger = l; tasks = tasks; committed = log; overtaken = o })
            (record {
              ledger = restore_persisted_snapshot l digest parent state_root ids;
              tasks = tasks;
              committed = log;
              overtaken = o || elem digest l.snapshots.persisting;
            })
    -- The sections on the pool and the seeds.
    touches :
        (l m : LedgerState) (tasks : List Task) (log : List (List ℕ)) (o : Bool)
        → m.snapshots ≡ l.snapshots
        → m.qmdb ≡ l.qmdb
        → Step
            (record { ledger = l; tasks = tasks; committed = log; overtaken = o })
            (record { ledger = m; tasks = tasks; committed = log; overtaken = o })

  -- The states that a ledger with no task in flight reaches.
  pub data Reach (l : LedgerState) : System → Type 0 where
    start :
        l.snapshots.persisting ≡ []
        → Reach l (record { ledger = l; tasks = []; committed = []; overtaken = false })
    step : (s t : System) → Reach l s → Step s t → Reach l t
