-- ===== src/Ledger/Service.antt =====
-- `persist_snapshot` from its first section to its last with nothing between them, as
-- `LedgerService` calls it.
use kora.Base.{
  ℕ, ◌≡◌, refl, ap, ◌∙◌, inl, inr, Bool, true, false, ◌&&◌, ◌||◌, List, [], ◌∷◌, Option, none,
  arith, get, Bool-cases,
}
use kora.Qmdb.Changes.{ChangeSet, is_some}
use kora.Qmdb.Store.{Stores, Faults}
use kora.Qmdb.Handle.{commit}
use kora.Consensus.Snapshot.{InMemorySnapshotStore, elem, changes_for_persist, found}
use kora.Ledger.{LedgerState, LedgerEvent, snapshot_persisted}
use kora.Ledger.Persist.{
  Task, begin, Begin, started, missing, not_needed, no_fuel, finish, Finish, persisted, failed,
  lost, with_store, succeeded,
}
use kora.Ledger.Progress.{finish-begin_failed}
use kora.Ledger.Flight.Requested.{Requested, begin-Requested, begin-collects}
use kora.Ledger.Flight.Marks.{begin-Begins}
use kora.Ledger.Flight.Sections.{Finishes, finish-Finishes}

pub data Persisted : Type 0 where
  new_commit nothing_to_do commit_error no_fuel_left : Persisted
  snapshot_not_found : ℕ → Persisted

abbrev pub last_result : Finish → Persisted
last_result persisted = new_commit
last_result failed = commit_error
last_result (lost d) = snapshot_not_found d

-- What a task that has started is ready for.
record Ready (fuel digest : ℕ) (store after : InMemorySnapshotStore ChangeSet) (t : Task)
    : Type 0 where
  collected : changes_for_persist fuel store digest ≡ found (t.chain, t.changes)
  same_persisted : after.persisted ≡ store.persisted
  undone : finish after t.chain false ≡ (store, failed)
  finishing : Finishes after t.chain true (finish after t.chain true)

module _ (root : Stores → Option ℕ) where
  abbrev pub run_task : Faults → LedgerState → Task → LedgerState × Persisted
  run_task faults l t =
      let (q, r) = commit root faults l.qmdb t.changes in
      let (store, f) = finish l.snapshots t.chain (succeeded r) in
      (record l { snapshots = store; qmdb = q }, last_result f)

  abbrev pub after_begin :
      Faults → LedgerState → InMemorySnapshotStore ChangeSet × Begin → LedgerState × Persisted
  after_begin faults l (store, missing d) = (l, snapshot_not_found d)
  after_begin faults l (store, no_fuel) = (l, no_fuel_left)
  after_begin faults l (store, not_needed) = (l, nothing_to_do)
  after_begin faults l (store, started t) = run_task faults (with_store l store) t

  -- `LedgerView::persist_snapshot`.
  unfoldable pub persist_snapshot : ℕ → Faults → LedgerState → ℕ → LedgerState × Persisted
  persist_snapshot fuel faults l digest = after_begin faults l (begin fuel l.snapshots digest)

  abbrev pub event_of : ℕ → Persisted → List LedgerEvent
  event_of digest new_commit = snapshot_persisted digest ∷ []
  event_of digest nothing_to_do = []
  event_of digest commit_error = []
  event_of digest no_fuel_left = []
  event_of digest (snapshot_not_found d) = []

  -- `LedgerService::persist_snapshot`, with the events that it publishes.
  unfoldable pub persist_and_publish :
      ℕ → Faults → LedgerState → ℕ → LedgerState × List LedgerEvent × Persisted
  unfolding persist_snapshot
  persist_and_publish fuel faults l digest =
      let (after, r) = persist_snapshot fuel faults l digest in (after, event_of digest r, r)

  -- The commit of a request: the changes that are collected for the digest are committed to the
  -- store of state, in one chain with the digest, and the commit succeeds or fails.
  pub record Commits (fuel : ℕ) (faults : Faults) (l : LedgerState) (digest : ℕ)
      (after : LedgerState) (b : Bool) : Type 0 where
    pub chain : List ℕ
    pub changes : ChangeSet
    pub collected : changes_for_persist fuel l.snapshots digest ≡ found (chain, changes)
    pub contains : elem digest chain ≡ true
    pub stored : after.qmdb ≡ (commit root faults l.qmdb changes).0
    pub result : succeeded (commit root faults l.qmdb changes).1 ≡ b
    pub persists :
        (d : ℕ)
        → elem d after.snapshots.persisted ≡ ((elem d chain && b) || elem d l.snapshots.persisted)

  -- The specification of `persist_snapshot` by what it returns.
  abbrev pub Meets :
      ℕ → Faults → LedgerState → ℕ → LedgerState × List LedgerEvent × Persisted → Type 0
  Meets fuel faults l digest (after, events, new_commit) =
      Commits fuel faults l digest after true × (events ≡ snapshot_persisted digest ∷ [])
  Meets fuel faults l digest (after, events, nothing_to_do) =
      (after ≡ l)
      × (events ≡ [])
      × (l.snapshots.persisting ≡ [] → elem digest l.snapshots.persisted ≡ true)
  Meets fuel faults l digest (after, events, commit_error) =
      Commits fuel faults l digest after false × (after.snapshots ≡ l.snapshots) × (events ≡ [])
  Meets fuel faults l digest (after, events, no_fuel_left) = (after ≡ l) × (events ≡ [])
  Meets fuel faults l digest (after, events, snapshot_not_found d) =
      (after ≡ l) × (events ≡ []) × (get d l.snapshots.snapshots ≡ none)

  abbrev publish : ℕ → LedgerState × Persisted → LedgerState × List LedgerEvent × Persisted
  publish digest (after, r) = (after, event_of digest r, r)

  run_task-Meets :
      (fuel : ℕ) (faults : Faults) (l : LedgerState) (digest : ℕ)
      (store : InMemorySnapshotStore ChangeSet) (t : Task)
      → changes_for_persist fuel l.snapshots digest ≡ found (t.chain, t.changes)
      → store.persisted ≡ l.snapshots.persisted
      → finish store t.chain false ≡ (l.snapshots, failed)
      → Finishes store t.chain true (finish store t.chain true)
      → elem digest t.chain ≡ true
      → Meets fuel faults l digest (publish digest (run_task faults (with_store l store) t))
  run_task-Meets fuel faults l digest store t c p u f h =
      elim (Bool-cases (succeeded (commit root faults l.qmdb t.changes).1)) [
        | inl e ↦
            rw (e, f.outcome)
              (
                record {
                  chain = t.chain;
                  changes = t.changes;
                  collected = c;
                  contains = h;
                  stored = refl;
                  result = e;
                  persists = λ d. f.persists d ∙ ap (λ x. (elem d t.chain && true) || elem d x) p;
                },
                refl,
              )
        | inr e ↦
            rw (e, u)
              (
                record {
                  chain = t.chain;
                  changes = t.changes;
                  collected = c;
                  contains = h;
                  stored = refl;
                  result = e;
                  persists = λ d. ground arith;
                },
                refl,
                refl,
              )
      ]

  after_begin-Meets :
      (fuel : ℕ) (faults : Faults) (l : LedgerState) (digest : ℕ)
      (p : InMemorySnapshotStore ChangeSet × Begin)
      → Requested l.snapshots digest p
      → ((t : Task) → p.1 ≡ started t → Ready fuel digest l.snapshots p.0 t)
      → Meets fuel faults l digest (publish digest (after_begin faults l p))
  after_begin-Meets fuel faults l digest (store, missing d) r h = (refl, refl, r)
  after_begin-Meets fuel faults l digest (store, no_fuel) r h = (refl, refl)
  after_begin-Meets fuel faults l digest (store, not_needed) r h = (refl, refl, r)
  after_begin-Meets fuel faults l digest (store, started t) r h =
      let ready = h t refl in
      run_task-Meets fuel faults l digest store t ready.collected ready.same_persisted ready.undone
        ready.finishing r

  begun :
      (fuel digest : ℕ) (store : InMemorySnapshotStore ChangeSet) (t : Task)
      → (begin fuel store digest).1 ≡ started t
      → Ready fuel digest store (begin fuel store digest).0 t
  begun fuel digest store t e =
      let after = (begin fuel store digest).0 in
      let whole : begin fuel store digest ≡ (after, started t) = ap (λ b. (after, b)) e in
      let b = begin-Begins fuel digest store after t whole in
      record {
        collected = begin-collects fuel digest store after t whole;
        same_persisted = b.same_persisted;
        undone = finish-begin_failed fuel digest store after t whole;
        finishing =
            finish-Finishes after t.chain true
              (λ x h. ap (λ m. is_some (get x m)) b.same_snapshots ∙ b.chain_held x h);
      }

  -- A request to persist a digest, whatever writes fail, ends in one of these: a new commit, in
  -- which the changes collected for the digest are committed to the store of state, successfully,
  -- after which exactly their chain, the digest in it, is persisted besides what was, and the
  -- digest's event is the only one; a failed commit of these changes, which leaves the snapshot
  -- store exactly as it was; nothing to do, which leaves the ledger as it was, and says that the
  -- digest is persisted unless a task is in flight; a missing snapshot, which is one that the store
  -- does not hold, or no fuel, which leave the ledger as it was.
  pub persist_and_publish-Meets :
      (fuel : ℕ) (faults : Faults) (l : LedgerState) (digest : ℕ)
      → Meets fuel faults l digest (persist_and_publish fuel faults l digest)
  unfolding persist_and_publish persist_snapshot
  persist_and_publish-Meets fuel faults l digest =
      after_begin-Meets fuel faults l digest (begin fuel l.snapshots digest)
        (begin-Requested fuel digest l.snapshots) (begun fuel digest l.snapshots)
