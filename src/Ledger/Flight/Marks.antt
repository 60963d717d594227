-- ===== src/Ledger/Flight/Marks.antt =====
-- What the two sections of `persist_snapshot` do to the marks of the snapshot store.
use kora.Base.{
  ℕ, zero, suc, ◌≡◌, refl, sym, ap, subst, ◌∙◌, ◌⊎◌, inl, inr, Bool, true, false, not, ◌&&◌, ◌||◌,
  List, [], ◌∷◌, ◌++◌, reverse, reverse-cons, Option, none, some, arith, ◌==◌, Map, get, Bool-cases,
  Option-cases, ==→eq, ==-refl,
}
use kora.Qmdb.Changes.{ChangeSet, is_some}
use kora.Consensus.Snapshot.{
  Snapshot, InMemorySnapshotStore, elem, adjoin, adjoin_all, without, without_all, Result, found,
  snapshot_not_found, out_of_fuel, walk, digests, changes_for_persist, can_persist_chain,
  mark_persisting_chain, merge_chain,
}
use kora.Consensus.Snapshot.Walk.{elem-adjoin, map_found-found, walk-persisted, walk-unpersisted}
use kora.Ledger.Persist.{Task, Begin, missing, not_needed, no_fuel, begin, first_section, started}

abbrev pub bit : Bool → ℕ
bit true = 1
bit false = 0

elem-adjoin_all : (x : ℕ) (ds xs : List ℕ) → elem x (adjoin_all ds xs) ≡ (elem x ds || elem x xs)
elem-adjoin_all x [] xs = refl
elem-adjoin_all x (d ∷ ds) xs =
    elem-adjoin_all x ds (adjoin d xs) ∙ (ground (arith, elem-adjoin x d xs))

elem-without : (x d : ℕ) (xs : List ℕ) → elem x (without d xs) ≡ (not (x == d) && elem x xs)
elem-without x d [] = ground arith
elem-without x d (y ∷ xs) = ground (arith, elem-without x d xs)

pub elem-without_all :
    (x : ℕ) (ds xs : List ℕ) → elem x (without_all ds xs) ≡ (not (elem x ds) && elem x xs)
elem-without_all x [] xs = refl
elem-without_all x (d ∷ ds) xs =
    elem-without_all x ds (without d xs) ∙ (ground (arith, elem-without x d xs))

elem-append : (x : ℕ) (xs ys : List ℕ) → elem x (xs ++ ys) ≡ (elem x xs || elem x ys)
elem-append x [] ys = refl
elem-append x (y ∷ xs) ys = ground (arith, elem-append x xs ys)

pub elem-reverse : (x : ℕ) (xs : List ℕ) → elem x (reverse xs) ≡ elem x xs
elem-reverse x [] = refl
elem-reverse x (y ∷ xs) =
    ap (elem x) (reverse-cons y xs)
    ∙ (ground (arith, elem-append x (reverse xs) (y ∷ []), elem-reverse x xs))

-- The end of a walk: nothing is in it.
ends :
    {P : Type 0} (x : ℕ) (ss : List (ℕ × Snapshot ChangeSet))
    → found [] ≡ found ss
    → elem x (digests ss) ≡ true
    → P
ends x [] e h = cc
ends x (s ∷ ss) e h = cc

-- The digests of a walk are held, and not persisted.
pub walk-held :
    (fuel x : ℕ) (m : Map (Snapshot ChangeSet)) (ps : List ℕ) (o : Option ℕ)
    (ss : List (ℕ × Snapshot ChangeSet))
    → walk fuel m ps o ≡ found ss
    → elem x (digests ss) ≡ true
    → (is_some (get x m) ≡ true) × (elem x ps ≡ false)
unfolding walk
walk-held fuel x m ps none ss e h = ends x ss e h
walk-held zero x m ps (some d) ss e h = elim (Bool-cases (elem d ps)) [
  | inl p ↦ ends x ss (sym (walk-persisted zero m ps d p) ∙ e) h
  | inr p ↦ ground (arith, e, p)
]
walk-held (suc fuel) x m ps (some d) ss e h = elim (Bool-cases (elem d ps)) [
  | inl p ↦ ends x ss (sym (walk-persisted (suc fuel) m ps d p) ∙ e) h
  | inr p ↦ elim (Option-cases (get d m)) [
    | inl g ↦ ground (arith, e, p, g)
    | inr (s, g) ↦
        let (rest, deep, eq) =
          map_found-found (λ ss. (d, s) ∷ ss) (walk fuel m ps s.parent) ss
            (sym (walk-unpersisted fuel m ps d s g p) ∙ e) in
        elim (Bool-cases (x == d)) [
          | inl same ↦ rw (==→eq x d same, g) (refl, p)
          | inr other ↦
              walk-held fuel x m ps s.parent rest deep
                (ground (arith, ap (λ r. elem x (digests r)) eq, h, other))
        ]
  ]
]

nothing : (ss : List (ℕ × Snapshot ChangeSet)) → found [] ≡ found ss → ss ≡ []
nothing [] e = refl
nothing (s ∷ ss) e = cc

-- A walk has its first digest in it, or that is persisted and the walk is empty.
pub walk-reaches :
    (fuel d : ℕ) (m : Map (Snapshot ChangeSet)) (ps : List ℕ) (ss : List (ℕ × Snapshot ChangeSet))
    → walk fuel m ps (some d) ≡ found ss
    → ((elem d ps ≡ true) × (ss ≡ [])) ⊎ (elem d (digests ss) ≡ true)
unfolding walk
walk-reaches zero d m ps ss e = elim (Bool-cases (elem d ps)) [
  | inl p ↦ inl (p, nothing ss (sym (walk-persisted zero m ps d p) ∙ e))
  | inr p ↦ ground (arith, e, p)
]
walk-reaches (suc fuel) d m ps ss e = elim (Bool-cases (elem d ps)) [
  | inl p ↦ inl (p, nothing ss (sym (walk-persisted (suc fuel) m ps d p) ∙ e))
  | inr p ↦ elim (Option-cases (get d m)) [
    | inl g ↦ ground (arith, e, p, g)
    | inr (s, g) ↦
        let (rest, deep, eq) =
          map_found-found (λ ss. (d, s) ∷ ss) (walk fuel m ps s.parent) ss
            (sym (walk-unpersisted fuel m ps d s g p) ∙ e) in
        inr (rw (eq, ==-refl d) refl)
  ]
]

pub can_persist_chain-elem :
    (store : InMemorySnapshotStore ChangeSet) (x : ℕ) (ds : List ℕ)
    → can_persist_chain store ds ≡ true
    → elem x ds ≡ true
    → (elem x store.persisted ≡ false) × (elem x store.persisting ≡ false)
unfolding can_persist_chain
can_persist_chain-elem store x [] c h = cc
can_persist_chain-elem store x (d ∷ ds) c h = elim (Bool-cases (x == d)) [
  | inl e ↦ ground (arith, c, ==→eq x d e)
  | inr e ↦ can_persist_chain-elem store x ds (ground (arith, c)) (ground (arith, h, e))
]

-- What the first section does when it starts a task.
pub record Begins (store after : InMemorySnapshotStore ChangeSet) (t : Task) : Type 0 where
  pub pending : t.result ≡ none
  pub chain_held : (x : ℕ) → elem x t.chain ≡ true → is_some (get x store.snapshots) ≡ true
  pub chain_free :
      (x : ℕ)
      → elem x t.chain ≡ true
      → (elem x store.persisted ≡ false) × (elem x store.persisting ≡ false)
  pub marks : (x : ℕ) → elem x after.persisting ≡ (elem x t.chain || elem x store.persisting)
  pub same_persisted : after.persisted ≡ store.persisted
  pub same_snapshots : after.snapshots ≡ store.snapshots

abbrev Starts : InMemorySnapshotStore ChangeSet → InMemorySnapshotStore ChangeSet × Begin → Type 0
Starts store (after, started t) = Begins store after t
Starts store (after, not_needed) = Unit {0}
Starts store (after, missing d) = Unit {0}
Starts store (after, no_fuel) = Unit {0}

first_section-Begins :
    (store : InMemorySnapshotStore ChangeSet) (digest : ℕ) (r : Result (List ℕ × ChangeSet))
    → ((x : ℕ) (chain : List ℕ) (c : ChangeSet)
        → r ≡ found (chain, c)
        → elem x chain ≡ true
        → is_some (get x store.snapshots) ≡ true)
    → Starts store (first_section store digest r)
unfolding mark_persisting_chain
first_section-Begins store digest (snapshot_not_found d) h = tt
first_section-Begins store digest out_of_fuel h = tt
first_section-Begins store digest (found ([], c)) h = tt
first_section-Begins store digest (found (d ∷ ds, c)) h =
    elim (Bool-cases (can_persist_chain store (d ∷ ds))) [
      | inl y ↦ rw y (record {
        pending = refl;
        chain_held = λ x g. h x (d ∷ ds) c refl g;
        chain_free = λ x g. can_persist_chain-elem store x (d ∷ ds) y g;
        marks = λ x. elem-adjoin_all x (d ∷ ds) store.persisting;
        same_persisted = refl;
        same_snapshots = refl;
      })
      | inr n ↦ rw n tt
    ]

abbrev pub summary : List (ℕ × Snapshot ChangeSet) → List ℕ × ChangeSet
summary ss = (reverse (digests ss), merge_chain ss)

pub begin-Begins :
    (fuel digest : ℕ) (store after : InMemorySnapshotStore ChangeSet) (t : Task)
    → begin fuel store digest ≡ (after, started t)
    → Begins store after t
unfolding begin changes_for_persist
begin-Begins fuel digest store after t e = subst (Starts store) e (
    first_section-Begins store digest (changes_for_persist fuel store digest) (λ x chain c f g.
      let (ss, walked, eq) =
        map_found-found summary (walk fuel store.snapshots store.persisted (some digest)) (chain, c)
          f in
      (walk-held fuel x store.snapshots store.persisted (some digest) ss walked
        (sym (elem-reverse x (digests ss)) ∙ sym (ap (λ r. elem x r.0) eq) ∙ g)).0))
