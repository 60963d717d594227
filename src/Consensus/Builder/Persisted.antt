-- ===== src/Consensus/Builder/Persisted.antt =====
-- What is persisted for a block that `ProposalBuilder` of crates/node/consensus/src/proposal.rs built.
use kora.Base.{
  ℕ, zero, suc, ◌≡◌, refl, sym, ap, subst, ◌∙◌, inl, inr, false, List, ◌∷◌, Option, none, some, get,
  put, get-put, Map, ==-refl, ==→eq, Bool-cases, Option-cases, ◌==◌,
}
use kora.Qmdb.Changes.{ChangeSet, merge}
use kora.Domain.Block.{Block}
use kora.Consensus.Snapshot.{
  Snapshot, Result, found, snapshot_not_found, out_of_fuel, map_found, elem, insert, walk,
  merged_changes, merge_chain, changes_for_persist,
}
use kora.Consensus.Snapshot.Walk.{
  map_found-found, changes_of, walk-persisted, walk-unpersisted, changes_for_persist-merged,
}
use kora.App.{Platform, ExecutionOutcome, digest_of}
use kora.Consensus.Builder.{
  ProposalBuilder, Proposed, proposed, not_found, timestamp_overflow, execution, state_db, no_fuel,
  build_proposal, with_root, with_merged, with_outcome, with_timestamp, with_excluded, with_parent,
}

module _ {S : Type 0} where
  never_held : {s : Snapshot S} → ◌≡◌ {A = Option (Snapshot S)} none (some s) → ⊥
  never_held e = cc

  missing_found :
      {d : ℕ} {ss : List (ℕ × Snapshot S)}
      → ◌≡◌ {A = Result (List (ℕ × Snapshot S))} (snapshot_not_found d) (found ss)
      → ⊥
  missing_found e = cc

  walk-missing :
      (fuel : ℕ) (m : Map (Snapshot S)) (persisted : List ℕ) (d : ℕ)
      → get d m ≡ none
      → elem d persisted ≡ false
      → walk (suc fuel) m persisted (some d) ≡ snapshot_not_found d
  unfolding walk
  walk-missing fuel m persisted d g e = rw (e, g) refl

  get-put_new :
      (k d : ℕ) (s t : Snapshot S) (m : Map (Snapshot S))
      → get k m ≡ none
      → get d m ≡ some t
      → get d (put k s m) ≡ some t
  get-put_new k d s t m h g = elim (Bool-cases (d == k)) [
    | inl e ↦
        let absent : get d m ≡ none = ap (λ x. get x m) (==→eq d k e) ∙ h in
        elim (never_held (sym absent ∙ g)) [ ]
    | inr e ↦ rw (get-put d k s m, e) g
  ]

  -- A walk that succeeds meets no new digest.
  walk-put :
      (fuel : ℕ) (m : Map (Snapshot S)) (persisted : List ℕ) (o : Option ℕ)
      (ss : List (ℕ × Snapshot S)) (k : ℕ) (s : Snapshot S)
      → get k m ≡ none
      → walk fuel m persisted o ≡ found ss
      → walk fuel (put k s m) persisted o ≡ found ss
  unfolding walk
  walk-put fuel m persisted none ss k s h e = e
  walk-put zero m persisted (some d) ss k s h e = e
  walk-put (suc fuel) m persisted (some d) ss k s h e = elim (Bool-cases (elem d persisted)) [
    | inl p ↦
        walk-persisted (suc fuel) (put k s m) persisted d p
        ∙ sym (walk-persisted (suc fuel) m persisted d p)
        ∙ e
    | inr p ↦ elim (Option-cases (get d m)) [
      | inl g ↦ elim (missing_found (sym (walk-missing fuel m persisted d g p) ∙ e)) [ ]
      | inr (t, g) ↦
          let (rest, found_rest, same) =
            map_found-found _ _ ss (sym (walk-unpersisted fuel m persisted d t g p) ∙ e) in
          walk-unpersisted fuel (put k s m) persisted d t (get-put_new k d s t m h g) p
          ∙ ap (map_found (λ xs. (d, t) ∷ xs))
              (walk-put fuel m persisted t.parent rest k s h found_rest)
          ∙ ap found (sym same)
    ]
  ]

  -- The parts that a proposal was made of.
  record Made (p : Platform) (fuel : ℕ) (b : ProposalBuilder S) (parent : Block) (block : Block)
      (snapshot : Snapshot S) : Type 0 where
    on_parent : snapshot.parent ≡ some (digest_of p parent)
    all_changes : ChangeSet
    merged :
        merged_changes fuel b.snapshots (digest_of p parent) snapshot.changes ≡ found all_changes
    rooted : b.compute_root all_changes ≡ some block.state_root
    same_root : snapshot.state_root ≡ block.state_root

  module _ (p : Platform) (fuel : ℕ) (b : ProposalBuilder S) (parent : Block) (prevrandao : ℕ) where
    MadeIf : Proposed S → Type 0
    MadeIf (proposed block snapshot) = Made p fuel b parent block snapshot
    MadeIf (not_found d) = Unit
    MadeIf (timestamp_overflow t) = Unit
    MadeIf execution = Unit
    MadeIf state_db = Unit
    MadeIf no_fuel = Unit

    root-Made :
        (timestamp : ℕ) (s : Snapshot S) (txs : List (List ℕ)) (out : ExecutionOutcome)
        (c : ChangeSet) (o : Option ℕ)
        → merged_changes fuel b.snapshots (digest_of p parent) out.changes ≡ found c
        → b.compute_root c ≡ o
        → MadeIf (with_root p fuel b parent prevrandao timestamp s txs out o)
    unfolding MadeIf
    root-Made timestamp s txs out c none h e = tt
    root-Made timestamp s txs out c (some root) h e = record {
      on_parent = refl;
      all_changes = c;
      merged = h;
      rooted = e;
      same_root = refl;
    }

    merged-Made :
        (timestamp : ℕ) (s : Snapshot S) (txs : List (List ℕ)) (out : ExecutionOutcome)
        (r : Result ChangeSet)
        → merged_changes fuel b.snapshots (digest_of p parent) out.changes ≡ r
        → MadeIf (with_merged p fuel b parent prevrandao timestamp s txs out r)
    unfolding MadeIf
    merged-Made timestamp s txs out (found c) h = root-Made timestamp s txs out c _ h refl
    merged-Made timestamp s txs out (snapshot_not_found d) h = tt
    merged-Made timestamp s txs out out_of_fuel h = tt

    outcome-Made :
        (timestamp : ℕ) (s : Snapshot S) (txs : List (List ℕ)) (o : Option ExecutionOutcome)
        → MadeIf (with_outcome p fuel b parent prevrandao timestamp s txs o)
    unfolding MadeIf
    outcome-Made timestamp s txs none = tt
    outcome-Made timestamp s txs (some out) = merged-Made timestamp s txs out _ refl

    timestamp-Made :
        (s : Snapshot S) (txs : List (List ℕ)) (o : Option ℕ)
        → MadeIf (with_timestamp p fuel b parent prevrandao s txs o)
    unfolding MadeIf
    timestamp-Made s txs none = tt
    timestamp-Made s txs (some timestamp) = outcome-Made timestamp s txs _

    excluded-Made :
        (now_secs : ℕ) (s : Snapshot S) (r : Result (List ℕ))
        → MadeIf (with_excluded p fuel b parent prevrandao now_secs s r)
    unfolding MadeIf
    excluded-Made now_secs s (found excluded) = timestamp-Made s _ _
    excluded-Made now_secs s (snapshot_not_found d) = tt
    excluded-Made now_secs s out_of_fuel = tt

    parent-Made :
        (now_secs : ℕ) (o : Option (Snapshot S))
        → MadeIf (with_parent p fuel b parent prevrandao now_secs o)
    unfolding MadeIf
    parent-Made now_secs none = tt
    parent-Made now_secs (some s) = excluded-Made now_secs s _

    build_proposal-Made :
        (now_secs : ℕ) (block : Block) (snapshot : Snapshot S)
        → build_proposal p fuel b parent prevrandao now_secs ≡ proposed block snapshot
        → Made p fuel b parent block snapshot
    unfolding MadeIf build_proposal
    build_proposal-Made now_secs block snapshot e = subst MadeIf e (parent-Made now_secs _)

  -- The specification: the block's root was computed over the changes that are persisted for it
  -- from a store that holds the block's snapshot.
  pub record RootsPersisted (b : ProposalBuilder S) (fuel digest root : ℕ) (snapshot : Snapshot S)
      : Type 0 where
    pub all_changes : ChangeSet
    pub persisted_as :
        map_found changes_of (changes_for_persist fuel (insert b.snapshots digest snapshot) digest)
        ≡ found all_changes
    pub rooted : b.compute_root all_changes ≡ some root
    pub claimed : snapshot.state_root ≡ root

  -- For a proposal whose digest is new to the snapshot store, once its snapshot is inserted, the
  -- walk of persistence succeeds with one more round than that of the proposal, and the changes
  -- that it persists are those over which the state root of the block and of the snapshot was computed.
  pub build_proposal-RootsPersisted :
      (p : Platform) (fuel : ℕ) (b : ProposalBuilder S) (parent : Block) (prevrandao now_secs : ℕ)
      (block : Block) (snapshot : Snapshot S)
      → build_proposal p fuel b parent prevrandao now_secs ≡ proposed block snapshot
      → get (digest_of p block) b.snapshots.snapshots ≡ none
      → elem (digest_of p block) b.snapshots.persisted ≡ false
      → RootsPersisted b (suc fuel) (digest_of p block) block.state_root snapshot
  unfolding insert merged_changes
  build_proposal-RootsPersisted p fuel b parent prevrandao now_secs block snapshot e h n =
      let digest = digest_of p block in
      let m = b.snapshots.snapshots in
      let ps = b.snapshots.persisted in
      let made = build_proposal-Made p fuel b parent prevrandao now_secs block snapshot e in
      let held : get digest (put digest snapshot m) ≡ some snapshot =
        get-put digest digest snapshot m ∙ (rw (==-refl digest) refl) in
      let (ss, walked, same) = map_found-found _ _ made.all_changes made.merged in
      let still = walk-put fuel m ps (some (digest_of p parent)) ss digest snapshot h walked in
      record {
        all_changes = made.all_changes;
        persisted_as =
            changes_for_persist-merged fuel digest (digest_of p parent) snapshot
              (insert b.snapshots digest snapshot) held made.on_parent n
            ∙ ap (map_found (λ xs. merge (merge_chain xs) snapshot.changes)) still
            ∙ ap found (sym same);
        rooted = made.rooted;
        claimed = made.same_root;
      }
