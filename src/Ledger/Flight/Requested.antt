-- ===== src/Ledger/Flight/Requested.antt =====
-- What the first section of `persist_snapshot` says of the digest that was asked for.
use kora.Base.{
  ℕ, zero, suc, ◌≡◌, refl, sym, ap, subst, ◌∙◌, ◌⊎◌, inl, inr, true, false, List, [], ◌∷◌, reverse,
  Option, none, some, arith, Map, get, Bool-cases, Option-cases, ==-refl,
}
use kora.Qmdb.Changes.{ChangeSet}
use kora.Consensus.Snapshot.{
  Snapshot, InMemorySnapshotStore, elem, Result, found, snapshot_not_found, out_of_fuel, map_found,
  walk, digests, changes_for_persist, can_persist_chain,
}
use kora.Consensus.Snapshot.Walk.{walk-persisted, walk-unpersisted}
use kora.Ledger.Persist.{Task, Begin, started, missing, not_needed, no_fuel, begin, first_section}
use kora.Ledger.Flight.Marks.{walk-held, walk-reaches, elem-reverse, summary}

map_found-missing :
    {A B : Type 0} (f : A → B) (r : Result A) (d : ℕ)
    → map_found f r ≡ snapshot_not_found d
    → r ≡ snapshot_not_found d
map_found-missing f (found a) d e = cc
map_found-missing f (snapshot_not_found x) d e = ground (arith, e)
map_found-missing f out_of_fuel d e = cc

-- The snapshot that a walk reports is not held.
walk-missing :
    (fuel d : ℕ) (m : Map (Snapshot ChangeSet)) (ps : List ℕ) (o : Option ℕ)
    → walk fuel m ps o ≡ snapshot_not_found d
    → get d m ≡ none
unfolding walk
walk-missing fuel d m ps none e = cc
walk-missing zero d m ps (some x) e = elim (Bool-cases (elem x ps)) [
  | inl p ↦ ground (arith, e, p)
  | inr p ↦ ground (arith, e, p)
]
walk-missing (suc fuel) d m ps (some x) e = elim (Bool-cases (elem x ps)) [
  | inl p ↦ let lost = sym (walk-persisted (suc fuel) m ps x p) ∙ e in cc
  | inr p ↦ elim (Option-cases (get x m)) [
    | inl g ↦ let same : x ≡ d = ground (arith, e, p, g) in rw (← same) g
    | inr (s, g) ↦ walk-missing fuel d m ps s.parent (
        map_found-missing (λ ss. (x, s) ∷ ss) (walk fuel m ps s.parent) d
          (sym (walk-unpersisted fuel m ps x s g p) ∙ e))
  ]
]

can_persist_chain-free :
    (store : InMemorySnapshotStore ChangeSet) (ds : List ℕ)
    → store.persisting ≡ []
    → ((x : ℕ) → elem x ds ≡ true → elem x store.persisted ≡ false)
    → can_persist_chain store ds ≡ true
unfolding can_persist_chain
can_persist_chain-free store [] e h = refl
can_persist_chain-free store (d ∷ ds) e h =
    rw (h d (rw (==-refl d) refl), e)
      (can_persist_chain-free store ds e (λ x g. h x (ground (arith, g))))

-- The chain of a digest: the digest unless that is persisted, and nothing that is.
abbrev Reaches : InMemorySnapshotStore ChangeSet → ℕ → Result (List ℕ × ChangeSet) → Type 0
Reaches store digest (found (chain, c)) =
    (((elem digest store.persisted ≡ true) × (chain ≡ [])) ⊎ (elem digest chain ≡ true))
    × ((x : ℕ) → elem x chain ≡ true → elem x store.persisted ≡ false)
Reaches store digest (snapshot_not_found d) = get d store.snapshots ≡ none
Reaches store digest out_of_fuel = Unit {0}

changes_for_persist-Reaches :
    (fuel digest : ℕ) (store : InMemorySnapshotStore ChangeSet)
    (r : Result (List (ℕ × Snapshot ChangeSet)))
    → walk fuel store.snapshots store.persisted (some digest) ≡ r
    → Reaches store digest (map_found summary r)
changes_for_persist-Reaches fuel digest store (found ss) e = (
  elim (walk-reaches fuel digest store.snapshots store.persisted ss e) [
    | inl (p, q) ↦ inl (p, ap (λ r. reverse (digests r)) q)
    | inr h ↦ inr (elem-reverse digest (digests ss) ∙ h)
  ],
  λ x h.
      (walk-held fuel x store.snapshots store.persisted (some digest) ss e
        (sym (elem-reverse x (digests ss)) ∙ h)).1,
)
changes_for_persist-Reaches fuel digest store (snapshot_not_found d) e =
    walk-missing fuel d store.snapshots store.persisted (some digest) e
changes_for_persist-Reaches fuel digest store out_of_fuel e = tt

-- What the first section's outcome says of the digest.
abbrev pub Requested :
    InMemorySnapshotStore ChangeSet → ℕ → InMemorySnapshotStore ChangeSet × Begin → Type 0
Requested store digest (after, started t) = elem digest t.chain ≡ true
Requested store digest (after, not_needed) =
    store.persisting ≡ [] → elem digest store.persisted ≡ true
Requested store digest (after, missing d) = get d store.snapshots ≡ none
Requested store digest (after, no_fuel) = Unit {0}

first_section-Requested :
    (store : InMemorySnapshotStore ChangeSet) (digest : ℕ) (r : Result (List ℕ × ChangeSet))
    → Reaches store digest r
    → Requested store digest (first_section store digest r)
first_section-Requested store digest (snapshot_not_found d) h = h
first_section-Requested store digest out_of_fuel h = tt
first_section-Requested store digest (found ([], c)) (inl (p, q), f) = λ e. p
first_section-Requested store digest (found ([], c)) (inr h, f) = cc
first_section-Requested store digest (found (d ∷ ds, c)) (inl (p, q), f) = cc
first_section-Requested store digest (found (d ∷ ds, c)) (inr h, f) =
    elim (Bool-cases (can_persist_chain store (d ∷ ds))) [
      | inl y ↦ rw y h
      | inr n ↦ rw n (λ e. ground (arith, n, can_persist_chain-free store (d ∷ ds) e f))
    ]

pub begin-Requested :
    (fuel digest : ℕ) (store : InMemorySnapshotStore ChangeSet)
    → Requested store digest (begin fuel store digest)
unfolding begin changes_for_persist
begin-Requested fuel digest store =
    first_section-Requested store digest (changes_for_persist fuel store digest)
      (changes_for_persist-Reaches fuel digest store _ refl)

-- A task that starts has the chain and the changes that were collected.
abbrev Collects : Result (List ℕ × ChangeSet) → InMemorySnapshotStore ChangeSet × Begin → Type 0
Collects r (after, started t) = r ≡ found (t.chain, t.changes)
Collects r (after, not_needed) = Unit {0}
Collects r (after, missing d) = Unit {0}
Collects r (after, no_fuel) = Unit {0}

first_section-Collects :
    (store : InMemorySnapshotStore ChangeSet) (digest : ℕ) (r : Result (List ℕ × ChangeSet))
    → Collects r (first_section store digest r)
first_section-Collects store digest (snapshot_not_found d) = tt
first_section-Collects store digest out_of_fuel = tt
first_section-Collects store digest (found ([], c)) = tt
first_section-Collects store digest (found (d ∷ ds, c)) =
    elim (Bool-cases (can_persist_chain store (d ∷ ds))) [ inl y ↦ rw y refl | inr n ↦ rw n tt ]

pub begin-collects :
    (fuel digest : ℕ) (store after : InMemorySnapshotStore ChangeSet) (t : Task)
    → begin fuel store digest ≡ (after, started t)
    → changes_for_persist fuel store digest ≡ found (t.chain, t.changes)
unfolding begin
begin-collects fuel digest store after t e =
    subst (Collects (changes_for_persist fuel store digest)) e
      (first_section-Collects store digest (changes_for_persist fuel store digest))
