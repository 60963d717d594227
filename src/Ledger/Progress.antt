-- ===== src/Ledger/Progress.antt =====
-- Tasks in flight come to their end, and a commit that fails leaves nothing behind.
use kora.Base.{
  ℕ, ◌≡◌, refl, sym, ap, subst, ◌∙◌, inl, inr, Bool, true, false, List, [], ◌∷◌, ◌++◌, Option, none,
  some, arith, ◌==◌, if◌then◌else◌, Bool-cases, Option-cases, ==→eq, ==-refl, ==→ne, ne→==,
}
use kora.Qmdb.Changes.{ChangeSet}
use kora.Qmdb.Store.{Stores, Faults}
use kora.Consensus.Snapshot.{
  InMemorySnapshotStore, elem, adjoin, adjoin_all, without, without_all, Result, found,
  snapshot_not_found, out_of_fuel, changes_for_persist, can_persist_chain, with_persisting,
  mark_persisting_chain, clear_persisting_chain,
}
use kora.Qmdb.Handle.{commit}
use kora.Ledger.{LedgerState}
use kora.Ledger.Persist.{
  Task, System, Step, commits, finishes, Reach, begin, finish, first_section, Begin, started,
  missing, not_needed, no_fuel, succeeded, note, with_store, failed,
}
use kora.Ledger.Flight.{IsSafe, Reach-IsSafe, step-IsSafe, chain-marked}
use kora.Ledger.Flight.Marks.{can_persist_chain-elem}
use kora.Ledger.Flight.Sections.{finish-Finishes, finish-persisting, finish-persisted_failed}

-- Taking out of a set what was put into it.
without-outside : (d : ℕ) (xs : List ℕ) → elem d xs ≡ false → without d xs ≡ xs
without-outside d [] e = refl
without-outside d (x ∷ xs) e = rw (without-outside d xs (ground (arith, e))) (ground (arith, e))

without_all-outside :
    (ds xs : List ℕ) → ((x : ℕ) → elem x ds ≡ true → elem x xs ≡ false) → without_all ds xs ≡ xs
without_all-outside [] xs h = refl
without_all-outside (d ∷ ds) xs h =
    ap (without_all ds) (without-outside d xs (h d (rw (==-refl d) refl)))
    ∙ without_all-outside ds xs (λ x e. h x (ground (arith, e)))

same_order : (a b : ℕ) → (a == b) ≡ (b == a)
same_order a b = elim (Bool-cases (a == b)) [
  | inl e ↦ rw (==→eq a b e) refl
  | inr e ↦ e ∙ sym (ne→== b a (λ q. ==→ne a b e (sym q)))
]

without_all-cons :
    (ds xs : List ℕ) (d : ℕ)
    → without_all ds (d ∷ xs) ≡ (if elem d ds then without_all ds xs else d ∷ without_all ds xs)
without_all-cons [] xs d = refl
without_all-cons (e ∷ ds) xs d = elim (Bool-cases (e == d)) [
  | inl y ↦ rw (y, same_order d e ∙ y) refl
  | inr n ↦ rw (n, same_order d e ∙ n) (without_all-cons ds (without e xs) d)
]

without_all-adjoin_all :
    (cs ds xs : List ℕ)
    → ((x : ℕ) → elem x ds ≡ true → elem x cs ≡ true)
    → without_all cs (adjoin_all ds xs) ≡ without_all cs xs
without_all-adjoin_all cs [] xs h = refl
without_all-adjoin_all cs (d ∷ ds) xs h =
    without_all-adjoin_all cs ds (adjoin d xs) (λ x e. h x (ground (arith, e)))
    ∙ elim (Bool-cases (elem d xs)) [
      | inl e ↦ rw e refl
      | inr e ↦ rw e (without_all-cons cs xs d ∙ (rw (h d (rw (==-refl d) refl)) refl))
    ]

abbrev Undone : InMemorySnapshotStore ChangeSet → InMemorySnapshotStore ChangeSet × Begin → Type 0
Undone store (after, started t) = finish after t.chain false ≡ (store, failed)
Undone store (after, not_needed) = after ≡ store
Undone store (after, missing d) = after ≡ store
Undone store (after, no_fuel) = after ≡ store

first_section-Undone :
    (store : InMemorySnapshotStore ChangeSet) (digest : ℕ) (r : Result (List ℕ × ChangeSet))
    → Undone store (first_section store digest r)
unfolding mark_persisting_chain clear_persisting_chain finish
first_section-Undone store digest (snapshot_not_found d) = refl
first_section-Undone store digest out_of_fuel = refl
first_section-Undone store digest (found ([], c)) = refl
first_section-Undone store digest (found (d ∷ ds, c)) =
    elim (Bool-cases (can_persist_chain store (d ∷ ds))) [
      | inl y ↦ rw y (
          ap (λ p. (with_persisting store p, failed))
            (without_all-adjoin_all (d ∷ ds) (d ∷ ds) store.persisting (λ x e. e)
              ∙ without_all-outside (d ∷ ds) store.persisting
                  (λ x e. (can_persist_chain-elem store x (d ∷ ds) y e).1)))
      | inr n ↦ rw n refl
    ]

-- Where a task started and its commit failed, the second section gives back the store exactly as
-- it was before the first, so that a retry starts the same task again.
pub finish-begin_failed :
    (fuel digest : ℕ) (store after : InMemorySnapshotStore ChangeSet) (t : Task)
    → begin fuel store digest ≡ (after, started t)
    → finish after t.chain false ≡ (store, failed)
unfolding begin
finish-begin_failed fuel digest store after t e =
    subst (Undone store) e
      (first_section-Undone store digest (changes_for_persist fuel store digest))

module _ (root : Stores → Option ℕ) where
  -- Runs of the system.
  pub data Steps : System → System → Type 0 where
    done : (s : System) → Steps s s
    more : (s t u : System) → Step root s t → Steps t u → Steps s u

  -- The end of a task: the others are in flight, and the chain is free of marks; a failed commit
  -- has marked nothing as persisted, and where no block was restored over a task in flight, the
  -- chain is persisted exactly if the commit succeeded.
  pub record Ends (s : System) (others : List Task) (chain : List ℕ) (b : Bool) : Type 0 where
    pub final : System
    pub run : Steps s final
    pub left : final.tasks ≡ others
    pub free : (d : ℕ) → elem d chain ≡ true → elem d final.ledger.snapshots.persisting ≡ false
    pub unmarked : b ≡ false → final.ledger.snapshots.persisted ≡ s.ledger.snapshots.persisted
    pub settled :
        s.overtaken ≡ false
        → (d : ℕ) → elem d chain ≡ true
        → elem d final.ledger.snapshots.persisted ≡ b

  finished-Ends :
      (l : LedgerState) (before after : List Task) (log : List (List ℕ)) (o : Bool) (t : Task)
      (b : Bool)
      → t.result ≡ some b
      → IsSafe (record { ledger = l; tasks = before ++ t ∷ after; committed = log; overtaken = o })
      → Ends
          (record { ledger = l; tasks = before ++ t ∷ after; committed = log; overtaken = o })
          (before ++ after)
          t.chain
          b
  finished-Ends l before after log o t b e k =
      let marked = chain-marked l before after log o t k in
      let r = finish l.snapshots t.chain b in
      let last : System = record {
        ledger = with_store l r.0;
        tasks = before ++ after;
        committed = log;
        overtaken = o;
      } in
      record {
        final = last;
        run = more _ last last (finishes l before after log o t b r.0 r.1 e refl) (done last);
        left = refl;
        free = λ d h. ground (arith, finish-persisting l.snapshots t.chain b d, h);
        unmarked = λ f.
            ap (λ x. (finish l.snapshots t.chain x).0.persisted) f
            ∙ finish-persisted_failed l.snapshots t.chain;
        settled = λ n d h.
            let c = k.calm n in
            let f = finish-Finishes l.snapshots t.chain b (λ x g. c.held x (marked x g)) in
            ground (arith, f.persists d, h, c.unpersisted d (marked d h));
      }

  -- What comes of a task: the result of its commit, or that of the commit that it still has to do.
  abbrev pub outcome : Faults → LedgerState → ChangeSet → Option Bool → Bool
  outcome faults l changes (some b) = b
  outcome faults l changes none = succeeded (commit root faults l.qmdb changes).1

  pending-Ends :
      (faults : Faults) (l : LedgerState) (before after : List Task) (log : List (List ℕ))
      (o : Bool) (t : Task)
      → t.result ≡ none
      → IsSafe (record { ledger = l; tasks = before ++ t ∷ after; committed = log; overtaken = o })
      → Ends
          (record { ledger = l; tasks = before ++ t ∷ after; committed = log; overtaken = o })
          (before ++ after)
          t.chain
          (succeeded (commit root faults l.qmdb t.changes).1)
  pending-Ends faults l before after log o t e k =
      let (q, r) = commit root faults l.qmdb t.changes in
      let u : Task = record t { result = some (succeeded r) } in
      let next : System = record {
        ledger = record l { qmdb = q };
        tasks = before ++ u ∷ after;
        committed = note (succeeded r) t.chain log;
        overtaken = o;
      } in
      let first = commits faults l before after log o t q r e refl in
      let ends =
        finished-Ends (record l { qmdb = q }) before after (note (succeeded r) t.chain log) o u
          (succeeded r) refl (step-IsSafe root _ next first k) in
      record {
        final = ends.final;
        run = more _ next ends.final first ends.run;
        left = ends.left;
        free = ends.free;
        unmarked = ends.unmarked;
        settled = ends.settled;
      }

  -- From every state that a ledger reaches, by the sections of persistence, the commits, the caching
  -- and the restoring of snapshots and the sections on the pool and the seeds, each task in flight
  -- can be run to its end, whichever write of its commit fails: the other tasks are left in flight,
  -- no digest of its chain is marked as being persisted, and a commit that fails marks nothing as
  -- persisted. Unless a block was restored on the way while a task in flight held its digest, all
  -- digests of the chain are persisted if the commit succeeds, and none if it fails.
  pub Reach-Ends :
      (faults : Faults) (l m : LedgerState) (before after : List Task) (log : List (List ℕ))
      (o : Bool) (t : Task)
      → Reach root l
          (record { ledger = m; tasks = before ++ t ∷ after; committed = log; overtaken = o })
      → Ends
          (record { ledger = m; tasks = before ++ t ∷ after; committed = log; overtaken = o })
          (before ++ after)
          t.chain
          (outcome faults m t.changes t.result)
  Reach-Ends faults l m before after log o t r =
      let s : System = record {
        ledger = m;
        tasks = before ++ t ∷ after;
        committed = log;
        overtaken = o;
      } in
      let as_expected : Option Bool → Type 0 =
        λ x. Ends s (before ++ after) t.chain (outcome faults m t.changes x) in
      let k = Reach-IsSafe root l s r in
      elim (Option-cases t.result) [
        | inl e ↦ subst as_expected (sym e) (pending-Ends faults m before after log o t e k)
        | inr (b, e) ↦ subst as_expected (sym e) (finished-Ends m before after log o t b e k)
      ]
