-- ===== src/Ledger/Flight.antt =====
-- The tasks in flight against the snapshot store's marks: no digest is in two of them, and none is
-- committed twice.
pub mod Marks
pub mod Sections
pub mod Requested
use kora.Base.{
  ℕ, ◌+◌, ◌≤◌, ◌≡◌, refl, sym, ap, subst, ◌∙◌, inl, inr, Bool, true, false, not, ◌&&◌, ◌||◌, List,
  [], ◌∷◌, ◌++◌, Option, none, some, arith, if◌then◌else◌, Map, get, put, get-put, Bool-cases,
  Option-cases, ◌==◌, ==→eq,
}
use kora.Qmdb.Changes.{ChangeSet, is_some}
use kora.Qmdb.Store.{Stores}
use kora.Consensus.Snapshot.{Snapshot, InMemorySnapshotStore, elem, insert, mark, mark_persisted}
use kora.Consensus.Snapshot.Walk.{elem-mark}
use kora.Ledger.{LedgerState, cache_snapshot, restore_persisted_snapshot}
use kora.Ledger.Flight.Marks.{bit, Begins, begin-Begins}
use kora.Ledger.Flight.Sections.{Finishes, finish-Finishes, finish-persisting}
use kora.Ledger.Persist.{
  Task, System, Step, begins, commits, finishes, caches, restores, touches, Reach, start, step,
  begin, finish, started, note, succeeded, with_store, Finish,
}

abbrev pub lands : Option Bool → Bool
lands none = false
lands (some b) = b

-- The tasks that hold a digest, those of them whose commit has succeeded, and the commits of it.
abbrev pub holders : ℕ → List Task → ℕ
holders d [] = 0
holders d (t ∷ ts) = bit (elem d t.chain) + holders d ts

abbrev pub landed : ℕ → List Task → ℕ
landed d [] = 0
landed d (t ∷ ts) = bit (elem d t.chain && lands t.result) + landed d ts

abbrev pub times_committed : ℕ → List (List ℕ) → ℕ
times_committed d [] = 0
times_committed d (c ∷ cs) = bit (elem d c) + times_committed d cs

-- What holds as long as no block is restored while a task in flight holds its digest.
pub record IsCalm (s : System) : Type 0 where
  pub unpersisted :
      (d : ℕ)
      → elem d s.ledger.snapshots.persisting ≡ true
      → elem d s.ledger.snapshots.persisted ≡ false
  pub held :
      (d : ℕ)
      → elem d s.ledger.snapshots.persisting ≡ true
      → is_some (get d s.ledger.snapshots.snapshots) ≡ true
  pub once :
      (d : ℕ)
      → times_committed d s.committed ≤ bit (elem d s.ledger.snapshots.persisted) + landed d s.tasks

-- What holds of a system at every moment.
pub record IsSafe (s : System) : Type 0 where
  pub exclusive : (d : ℕ) → holders d s.tasks ≡ bit (elem d s.ledger.snapshots.persisting)
  pub calm : s.overtaken ≡ false → IsCalm s

pub holders-append :
    (d : ℕ) (xs ys : List Task) → holders d (xs ++ ys) ≡ holders d xs + holders d ys
holders-append d [] ys = omega arith
holders-append d (x ∷ xs) ys = omega (arith, holders-append d xs ys)

landed-append : (d : ℕ) (xs ys : List Task) → landed d (xs ++ ys) ≡ landed d xs + landed d ys
landed-append d [] ys = omega arith
landed-append d (x ∷ xs) ys = omega (arith, landed-append d xs ys)

landed_below : (d : ℕ) (ts : List Task) → landed d ts ≤ holders d ts
landed_below d [] = omega arith
landed_below d (t ∷ ts) = ground (arith, landed_below d ts)

times-note :
    (d : ℕ) (b : Bool) (chain : List ℕ) (log : List (List ℕ))
    → times_committed d (note b chain log) ≡ bit (elem d chain && b) + times_committed d log
times-note d true chain log = ground arith
times-note d false chain log = ground arith

-- The marks of a step: the digests that it adds to a task in flight or takes from it.
Begins-IsSafe :
    (l : LedgerState) (tasks : List Task) (log : List (List ℕ)) (o : Bool)
    (store : InMemorySnapshotStore ChangeSet) (t : Task)
    → Begins l.snapshots store t
    → IsSafe (record { ledger = l; tasks = tasks; committed = log; overtaken = o })
    → IsSafe
        (record { ledger = with_store l store; tasks = t ∷ tasks; committed = log; overtaken = o })
Begins-IsSafe l tasks log o store t b k = record {
  exclusive = λ d. elim (Bool-cases (elem d t.chain)) [
    | inl e ↦ ground (arith, k.exclusive d, b.marks d, b.chain_free d e, e)
    | inr e ↦ ground (arith, k.exclusive d, b.marks d, e)
  ];
  calm = λ n.
      let c = k.calm n in
      record {
        unpersisted = λ d e. ap (elem d) b.same_persisted ∙ elim (Bool-cases (elem d t.chain)) [
          | inl f ↦ (b.chain_free d f).0
          | inr f ↦ c.unpersisted d (ground (arith, b.marks d, e, f))
        ];
        held = λ d e.
            ap (λ m. is_some (get d m)) b.same_snapshots ∙ elim (Bool-cases (elem d t.chain)) [
              | inl f ↦ b.chain_held d f
              | inr f ↦ c.held d (ground (arith, b.marks d, e, f))
            ];
        once = λ d. ground (arith, c.once d, ap (elem d) b.same_persisted, b.pending);
      };
}

commits-IsSafe :
    (l m : LedgerState) (before after : List Task) (log : List (List ℕ)) (o : Bool) (t : Task)
    (b : Bool)
    → t.result ≡ none
    → m.snapshots ≡ l.snapshots
    → IsSafe (record { ledger = l; tasks = before ++ t ∷ after; committed = log; overtaken = o })
    → IsSafe (record {
      ledger = m;
      tasks = before ++ record t { result = some b } ∷ after;
      committed = note b t.chain log;
      overtaken = o;
    })
commits-IsSafe l m before after log o t b e same k =
    let u : Task = record t { result = some b } in
    record {
      exclusive = λ d.
          holders-append d before (u ∷ after)
          ∙ sym (holders-append d before (t ∷ after))
          ∙ k.exclusive d
          ∙ sym (ap (λ s. bit (elem d s.persisting)) same);
      calm = λ n.
          let c = k.calm n in
          record {
            unpersisted = λ d f.
                ap (λ s. elem d s.persisted) same
                ∙ c.unpersisted d (sym (ap (λ s. elem d s.persisting) same) ∙ f);
            held = λ d f.
                ap (λ s. is_some (get d s.snapshots)) same
                ∙ c.held d (sym (ap (λ s. elem d s.persisting) same) ∙ f);
            once = λ d. ground (
              arith,
              e,
              times-note d b t.chain log,
              c.once d,
              landed-append d before (t ∷ after),
              landed-append d before (u ∷ after),
              ap (λ s. bit (elem d s.persisted)) same,
            );
          };
    }

-- The digests of a task in flight are marked.
pub chain-marked :
    (l : LedgerState) (before after : List Task) (log : List (List ℕ)) (o : Bool) (t : Task)
    → IsSafe (record { ledger = l; tasks = before ++ t ∷ after; committed = log; overtaken = o })
    → (x : ℕ) → elem x t.chain ≡ true
    → elem x l.snapshots.persisting ≡ true
chain-marked l before after log o t k x h =
    ground (arith, k.exclusive x, holders-append x before (t ∷ after), h)

Finishes-IsCalm :
    (l : LedgerState) (before after : List Task) (log : List (List ℕ)) (o : Bool) (t : Task)
    (b : Bool) (r : InMemorySnapshotStore ChangeSet × Finish)
    → t.result ≡ some b
    → Finishes l.snapshots t.chain b r
    → IsSafe (record { ledger = l; tasks = before ++ t ∷ after; committed = log; overtaken = o })
    → IsCalm (record { ledger = l; tasks = before ++ t ∷ after; committed = log; overtaken = o })
    → IsCalm (record {
      ledger = with_store l r.0;
      tasks = before ++ after;
      committed = log;
      overtaken = o;
    })
Finishes-IsCalm l before after log o t b r e f k c = record {
  unpersisted = λ d g. ground (arith, f.marks d, g, f.persists d, c.unpersisted d);
  held = λ d g.
      f.keeps d (ground (arith, f.marks d, g, f.persists d, c.unpersisted d))
      ∙ c.held d (ground (arith, f.marks d, g));
  once = λ d. ground (
    arith,
    e,
    landed-append d before after,
    landed-append d before (t ∷ after),
    holders-append d before (t ∷ after),
    landed_below d before,
    landed_below d after,
    k.exclusive d,
    c.once d,
    c.unpersisted d,
    f.persists d,
  );
}

finish-IsSafe :
    (l : LedgerState) (before after : List Task) (log : List (List ℕ)) (o : Bool) (t : Task)
    (b : Bool)
    → t.result ≡ some b
    → IsSafe (record { ledger = l; tasks = before ++ t ∷ after; committed = log; overtaken = o })
    → IsSafe (record {
      ledger = with_store l (finish l.snapshots t.chain b).0;
      tasks = before ++ after;
      committed = log;
      overtaken = o;
    })
finish-IsSafe l before after log o t b e k = record {
  exclusive = λ d. ground (
    arith,
    holders-append d before after,
    holders-append d before (t ∷ after),
    k.exclusive d,
    finish-persisting l.snapshots t.chain b d,
  );
  calm = λ n.
      let c = k.calm n in
      Finishes-IsCalm l before after log o t b (finish l.snapshots t.chain b) e
        (finish-Finishes l.snapshots t.chain b
          (λ x h. c.held x (chain-marked l before after log o t k x h)))
        k c;
}

-- The snapshots that are held stay held.
get-cached :
    (x d : ℕ) (s : Snapshot ChangeSet) (m : Map (Snapshot ChangeSet))
    → is_some (get x m) ≡ true
    → is_some (get x (put d s m)) ≡ true
get-cached x d s m h = ground (arith, get-put x d s m, h)

restore_persisted_snapshot-IsSafe :
    (l : LedgerState) (tasks : List Task) (log : List (List ℕ)) (o : Bool)
    (digest parent state_root : ℕ) (ids : List ℕ)
    → IsSafe (record { ledger = l; tasks = tasks; committed = log; overtaken = o })
    → IsSafe (record {
      ledger = restore_persisted_snapshot l digest parent state_root ids;
      tasks = tasks;
      committed = log;
      overtaken = o || elem digest l.snapshots.persisting;
    })
unfolding restore_persisted_snapshot mark_persisted insert
restore_persisted_snapshot-IsSafe l tasks log o digest parent state_root ids k =
    let store = l.snapshots in
    let marked : (d : ℕ)
        → elem d (mark (digest ∷ []) store.persisted store.persisted_order).0
          ≡ (elem d (digest ∷ []) || elem d store.persisted) =
      λ d. elem-mark d (digest ∷ []) store.persisted store.persisted_order in
    record {
      exclusive = k.exclusive;
      calm = λ n.
          let c = k.calm (ground (arith, n)) in
          record {
            unpersisted = λ d e. marked d ∙ elim (Bool-cases (d == digest)) [
              | inl f ↦ ground (arith, n, e, ap (λ x. elem x store.persisting) (==→eq d digest f))
              | inr f ↦ rw (f, c.unpersisted d e) refl
            ];
            held = λ d e. get-cached d digest _ store.snapshots (c.held d e);
            once = λ d. ground (arith, c.once d, marked d);
          };
    }

same_snapshots-IsSafe :
    (l m : LedgerState) (tasks : List Task) (log : List (List ℕ)) (o : Bool)
    → m.snapshots ≡ l.snapshots
    → IsSafe (record { ledger = l; tasks = tasks; committed = log; overtaken = o })
    → IsSafe (record { ledger = m; tasks = tasks; committed = log; overtaken = o })
same_snapshots-IsSafe l m tasks log o same k =
    let with_snapshots : InMemorySnapshotStore ChangeSet → Type 0 = λ s.
      IsSafe (record { ledger = with_store m s; tasks = tasks; committed = log; overtaken = o }) in
    subst with_snapshots (sym same) (record {
      exclusive = k.exclusive;
      calm = λ n.
          let c = k.calm n in record { unpersisted = c.unpersisted; held = c.held; once = c.once };
    })

module _ (root : Stores → Option ℕ) where
  pub step-IsSafe : (s t : System) → Step root s t → IsSafe s → IsSafe t
  unfolding cache_snapshot insert
  step-IsSafe _ _ (begins fuel digest l tasks log o store t e) k =
      Begins-IsSafe l tasks log o store t (begin-Begins fuel digest l.snapshots store t e) k
  step-IsSafe _ _ (commits faults l before after log o t q r e f) k =
      commits-IsSafe l (record l { qmdb = q }) before after log o t (succeeded r) e refl k
  step-IsSafe _ _ (finishes l before after log o t b store f e g) k =
      subst
        (λ r. IsSafe (record {
          ledger = with_store l r.0;
          tasks = before ++ after;
          committed = log;
          overtaken = o;
        }))
        g (finish-IsSafe l before after log o t b e k)
  step-IsSafe _ _ (caches l tasks log o digest snapshot) k = record {
    exclusive = k.exclusive;
    calm = λ n.
        let c = k.calm n in
        record {
          unpersisted = c.unpersisted;
          held = λ d e. get-cached d digest snapshot l.snapshots.snapshots (c.held d e);
          once = c.once;
        };
  }
  step-IsSafe _ _ (restores l tasks log o digest parent state_root ids) k =
      restore_persisted_snapshot-IsSafe l tasks log o digest parent state_root ids k
  step-IsSafe _ _ (touches l m tasks log o e f) k = same_snapshots-IsSafe l m tasks log o e k

  -- In every state that a ledger with no task in flight reaches by the sections of persistence, the
  -- commits, the caching and the restoring of snapshots and the sections on the pool and the seeds:
  -- a digest is marked as being persisted exactly when one task in flight holds it. Unless a block
  -- was restored on the way while a task in flight held its digest, such a digest is held in the
  -- store and not persisted, and a digest is in at most one chain whose commit succeeded: none that
  -- is neither persisted nor in a task in flight whose commit succeeded.
  pub Reach-IsSafe : (l : LedgerState) (s : System) → Reach root l s → IsSafe s
  Reach-IsSafe l _ (start e) = record {
    exclusive = λ d. ground (arith, ap (elem d) e);
    calm = λ n. record {
      unpersisted = λ d f. ground (arith, ap (elem d) e, f);
      held = λ d f. ground (arith, ap (elem d) e, f);
      once = λ d. omega arith;
    };
  }
  Reach-IsSafe l t (step s _ r k) = step-IsSafe s t k (Reach-IsSafe l s r)

  -- No digest is in two chains whose commits succeeded.
  pub Reach-once :
      (l : LedgerState) (s : System) (d : ℕ)
      → Reach root l s
      → s.overtaken ≡ false
      → times_committed d s.committed ≤ 1
  Reach-once l s d r n =
      let k = Reach-IsSafe l s r in
      let c = k.calm n in
      ground (arith, c.once d, k.exclusive d, c.unpersisted d, landed_below d s.tasks)
