-- ===== src/Consensus/Snapshot/Walk.antt =====
-- The walk over the ancestors, evictions, and persistence.
use kora.Base.{
  ℕ, zero, suc, ◌≤◌, ◌<◌, ◌≡◌, refl, ap, ◌∙◌, inl, inr, Bool, true, false, ◌||◌, List, [], ◌∷◌,
  ◌++◌, reverse, Option, none, some, arith, leb, ◌==◌, if◌then◌else◌, length, Map, get, del,
  get-del, Option-cases, Bool-cases, ==→eq,
}
use kora.Qmdb.Changes.{ChangeSet, merge}
use kora.Qmdb.Changes
use kora.Consensus.Snapshot.{
  Snapshot, InMemorySnapshotStore, elem, Result, found, snapshot_not_found, out_of_fuel, map_found,
  walk, evict_loop, evict_persisted, changes_for_persist, merged_changes, merge_chain, mark,
  mark_persisted, digests, adjoin,
}

elem-differs : (xs : List ℕ) (d o : ℕ) → elem d xs ≡ false → elem o xs ≡ true → (d == o) ≡ false
elem-differs xs d o f g = elim (Bool-cases (d == o)) [
  | inl same ↦ let lost = ap (λ x. elem x xs) (==→eq d o same) in cc
  | inr other ↦ other
]

pub elem-adjoin : (x d : ℕ) (xs : List ℕ) → elem x (adjoin d xs) ≡ ((x == d) || elem x xs)
elem-adjoin x d xs = elim (Bool-cases (elem d xs)) [
  | inl e ↦ rw e (elim (Bool-cases (x == d)) [
    | inl same ↦ ground (arith, same, ap (λ y. elem y xs) (==→eq x d same), e)
    | inr other ↦ rw other refl
  ])
  | inr e ↦ rw e refl
]

-- Marking adds exactly the digests that are marked.
pub elem-mark :
    (x : ℕ) (ds persisted order : List ℕ)
    → elem x (mark ds persisted order).0 ≡ (elem x ds || elem x persisted)
unfolding mark
elem-mark x [] persisted order = refl
elem-mark x (d ∷ ds) persisted order =
    elem-mark x ds (adjoin d persisted) (if elem d persisted then order else order ++ d ∷ [])
    ∙ (ground (arith, elem-adjoin x d persisted))

abbrev pub finishes : {A : Type 0} → Result A → Bool
finishes out_of_fuel = false
finishes (found a) = true
finishes (snapshot_not_found d) = true

finishes-map_found :
    {A B : Type 0} (f : A → B) (r : Result A) → finishes (map_found f r) ≡ finishes r
finishes-map_found f (found a) = refl
finishes-map_found f (snapshot_not_found d) = refl
finishes-map_found f out_of_fuel = refl

-- What a mapped result was.
pub map_found-found :
    {A B : Type 0} (g : A → B) (r : Result A) (b : B)
    → map_found g r ≡ found b
    → (a : A) × (r ≡ found a) × (b ≡ g a)
map_found-found g (found a) b e = (a, refl, ground (arith, e))
map_found-found g (snapshot_not_found d) b e = cc
map_found-found g out_of_fuel b e = cc

abbrev pub changes_of : List ℕ × ChangeSet → ChangeSet
changes_of (ds, c) = c

module _ {S : Type 0} where
  -- Two stores hold the same snapshots but for persisted digests.
  abbrev pub Agree : List ℕ → Map (Snapshot S) → Map (Snapshot S) → Type 0
  Agree persisted a b = (d : ℕ) → elem d persisted ≡ false → get d a ≡ get d b

  -- The walk reads no snapshot of a persisted digest.
  walk-Agree :
      (fuel : ℕ) (persisted : List ℕ) (a b : Map (Snapshot S)) (d : Option ℕ)
      → Agree persisted a b
      → walk fuel a persisted d ≡ walk fuel b persisted d
  unfolding walk
  walk-Agree fuel persisted a b none h = refl
  walk-Agree zero persisted a b (some d) h = refl
  walk-Agree (suc fuel) persisted a b (some d) h = elim (Bool-cases (elem d persisted)) [
    | inl e ↦ rw (walk, e) refl
    | inr e ↦ elim (Option-cases (get d b)) [
      | inl g ↦ let same = h d e ∙ g in rw (walk, e, same, g) refl
      | inr (s, g) ↦
          let same = h d e ∙ g in
          let deep = walk-Agree fuel persisted a b s.parent h in rw (walk, e, same, g, deep) refl
    ]
  ]

  pub evict_loop-Agree :
      (max : ℕ) (persisted order : List ℕ) (m : Map (Snapshot S))
      → Agree persisted (evict_loop max persisted order m).0 m
        × (length (evict_loop max persisted order m).1 ≤ max)
  unfolding evict_loop
  evict_loop-Agree max persisted [] m = ((λ d e. refl), omega arith)
  evict_loop-Agree max persisted (o ∷ order) m = elim (Bool-cases (leb (suc (length order)) max)) [
    | inl e ↦ rw (evict_loop, e) ((λ d f. refl), ground (arith, e))
    | inr e ↦ elim (Bool-cases (elem o persisted)) [
      | inl g ↦
          let (a, b) = evict_loop-Agree max persisted order (del o m) in
          rw (evict_loop, e, g)
            ((λ d f. a d f ∙ get-del d o m ∙ (rw (elem-differs persisted d o f g) refl)), b)
      | inr g ↦ let (a, b) = evict_loop-Agree max persisted order m in rw (evict_loop, e, g) (a, b)
    ]
  ]

  -- The specification of an eviction.
  pub record Evicts (store r : InMemorySnapshotStore S) : Type 0 where
    pub bounded : length r.persisted_order ≤ r.max_persisted_retained
    pub persist_same :
        (fuel d : ℕ) → changes_for_persist fuel r d ≡ changes_for_persist fuel store d
    pub merged_same :
        (fuel p : ℕ) (c : ChangeSet) → merged_changes fuel r p c ≡ merged_changes fuel store p c

  -- Evicting persisted snapshots cuts the order of persisted digests to the limit, and changes
  -- neither the changes to persist for any digest nor the merged changes over any parent.
  pub evict_persisted-Evicts :
      (store : InMemorySnapshotStore S) → Evicts store (evict_persisted store).0
  unfolding evict_persisted changes_for_persist merged_changes
  evict_persisted-Evicts store =
      let (a, b) =
        evict_loop-Agree store.max_persisted_retained store.persisted store.persisted_order
          store.snapshots in
      record {
        bounded = b;
        persist_same =
            λ fuel d. rw (walk-Agree fuel store.persisted _ store.snapshots (some d) a) refl;
        merged_same =
            λ fuel p c. rw (walk-Agree fuel store.persisted _ store.snapshots (some p) a) refl;
      }

  -- Parents rank below their children, as block heights do.
  abbrev pub Ranked : (ℕ → ℕ) → Map (Snapshot S) → Type 0
  Ranked rank m =
      (d p : ℕ) (s : Snapshot S) → get d m ≡ some s → s.parent ≡ some p → rank p < rank d

  walk-finishes :
      (rank : ℕ → ℕ) (fuel : ℕ) (m : Map (Snapshot S)) (persisted : List ℕ) (o : Option ℕ)
      → Ranked rank m
      → ((d : ℕ) → o ≡ some d → rank d < fuel)
      → finishes (walk fuel m persisted o) ≡ true
  unfolding walk
  walk-finishes rank fuel m persisted none k h = refl
  walk-finishes rank zero m persisted (some d) k h = let lost = h d refl in elim lost [ ]
  walk-finishes rank (suc fuel) m persisted (some d) k h = elim (Bool-cases (elem d persisted)) [
    | inl e ↦ rw (walk, e) refl
    | inr e ↦ elim (Option-cases (get d m)) [
      | inl g ↦ rw (walk, e, g) refl
      | inr (s, g) ↦
          let bound = h d refl in
          let deep =
            walk-finishes rank fuel m persisted s.parent k
              (λ p f. let low = k d p s g f in omega arith) in
          rw (walk, e, g)
            (finishes-map_found (λ ss. (d, s) ∷ ss) (walk fuel m persisted s.parent) ∙ deep)
    ]
  ]

  -- Where every parent ranks below its child, as heights do, fuel above the rank of the digest is
  -- enough: the walk ends with the changes to persist or with the digest of a missing snapshot.
  pub changes_for_persist-finishes :
      (rank : ℕ → ℕ) (fuel : ℕ) (store : InMemorySnapshotStore S) (d : ℕ)
      → Ranked rank store.snapshots
      → rank d < fuel
      → finishes (changes_for_persist fuel store d) ≡ true
  unfolding changes_for_persist
  changes_for_persist-finishes rank fuel store d k h =
      finishes-map_found _ (walk fuel store.snapshots store.persisted (some d))
      ∙ walk-finishes rank fuel store.snapshots store.persisted (some d) k
          (λ p e. let same : d ≡ p = ground (arith, e) in rw (← same) h)

  pub walk-persisted :
      (fuel : ℕ) (m : Map (Snapshot S)) (persisted : List ℕ) (d : ℕ)
      → elem d persisted ≡ true
      → walk fuel m persisted (some d) ≡ found []
  unfolding walk
  walk-persisted zero m persisted d e = rw (walk, e) refl
  walk-persisted (suc fuel) m persisted d e = rw (walk, e) refl

  pub walk-unpersisted :
      (fuel : ℕ) (m : Map (Snapshot S)) (persisted : List ℕ) (c : ℕ) (s : Snapshot S)
      → get c m ≡ some s
      → elem c persisted ≡ false
      → walk (suc fuel) m persisted (some c)
        ≡ map_found (λ ss. (c, s) ∷ ss) (walk fuel m persisted s.parent)
  unfolding walk
  walk-unpersisted fuel m persisted c s g e = rw (walk, e, g) refl

  abbrev summary : List (ℕ × Snapshot S) → List ℕ × ChangeSet
  summary ss = (reverse (digests ss), merge_chain ss)

  summary-changes :
      (c : ℕ) (s : Snapshot S) (r : Result (List (ℕ × Snapshot S)))
      → map_found changes_of (map_found summary (map_found (λ ss. (c, s) ∷ ss) r))
        ≡ map_found (λ ss. merge (merge_chain ss) s.changes) r
  unfolding merge_chain
  summary-changes c s (found ss) = refl
  summary-changes c s (snapshot_not_found d) = refl
  summary-changes c s out_of_fuel = refl

  -- For a block that is held and not persisted, and any fuel of the walk from its parent, the
  -- changes to persist are the parent's merged changes with its own: what persistence writes is
  -- what the block's root was computed over.
  pub changes_for_persist-merged :
      (fuel c p : ℕ) (s : Snapshot S) (store : InMemorySnapshotStore S)
      → get c store.snapshots ≡ some s
      → s.parent ≡ some p
      → elem c store.persisted ≡ false
      → map_found changes_of (changes_for_persist (suc fuel) store c)
        ≡ merged_changes fuel store p s.changes
  unfolding changes_for_persist merged_changes
  changes_for_persist-merged fuel c p s store g h e =
      let m = store.snapshots in
      let ps = store.persisted in
      ap (λ w. map_found changes_of (map_found summary w)) (walk-unpersisted fuel m ps c s g e)
      ∙ summary-changes c s (walk fuel m ps s.parent)
      ∙ ap (λ o. map_found (λ ss. merge (merge_chain ss) s.changes) (walk fuel m ps o)) h

  -- The specification of persistence: nothing is left to persist for the block, and for a child
  -- that is held and not persisted only its own changes are.
  pub record Persists (d : ℕ) (r : InMemorySnapshotStore S) : Type 0 where
    pub own : (fuel : ℕ) → changes_for_persist fuel r d ≡ found ([], Changes.new)
    pub child :
        (fuel c : ℕ) (s : Snapshot S)
        → get c r.snapshots ≡ some s
        → s.parent ≡ some d
        → elem c r.persisted ≡ false
        → changes_for_persist (suc fuel) r c ≡ found (c ∷ [], merge Changes.new s.changes)

  persisted-Persists :
      (r : InMemorySnapshotStore S) (d : ℕ) → elem d r.persisted ≡ true → Persists d r
  unfolding changes_for_persist merge_chain
  persisted-Persists r d e = record {
    own = λ fuel. ap (map_found summary) (walk-persisted fuel r.snapshots r.persisted d e);
    child = λ fuel c s g h k. ap (map_found summary) (
        walk-unpersisted fuel r.snapshots r.persisted c s g k
        ∙ ap (λ o. map_found (λ ss. (c, s) ∷ ss) (walk fuel r.snapshots r.persisted o)) h
        ∙ ap (map_found (λ ss. (c, s) ∷ ss)) (walk-persisted fuel r.snapshots r.persisted d e));
  }

  -- Marking a chain that holds a digest leaves nothing to persist for that digest, and for a child
  -- of it that is held and not persisted only the child's own changes.
  pub mark_persisted-Persists :
      (store : InMemorySnapshotStore S) (ds : List ℕ) (d : ℕ)
      → elem d ds ≡ true
      → Persists d (mark_persisted store ds)
  unfolding mark_persisted
  mark_persisted-Persists store ds d e =
      persisted-Persists (mark_persisted store ds) d
        (elem-mark d ds store.persisted store.persisted_order ∙ (rw e refl))
