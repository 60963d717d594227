-- ===== src/Consensus/Proposal.antt =====
-- crates/node/consensus/src/ledger.rs: the transactions of a proposal.
-- The fuel bounds the loop over the ancestors; `none` says that it ran out.
use kora.Base.{
  ℕ, zero, suc, ◌≡◌, refl, sym, ap, ◌∙◌, inl, inr, Bool, List, [], ◌∷◌, ◌++◌, Option, none, some,
  arith, if◌then◌else◌, get, Option-cases, Bool-cases,
}
use kora.TxPool.Pool.{PoolInner}
use kora.TxPool.Pool.Capacity.{IsConsistent}
use kora.TxPool.Build.{build}
use kora.TxPool.Build.Chosen.{Builds, build-Builds}
use kora.Consensus.Snapshot.Walk.{walk-unpersisted, map_found-found}
use kora.Consensus.Snapshot.{
  Snapshot, InMemorySnapshotStore, elem, lookup, is_persisted, walk, found, snapshot_not_found,
  out_of_fuel,
}

abbrev pub add_ids : List ℕ → Option (List ℕ) → Option (List ℕ)
add_ids ids none = none
add_ids ids (some rest) = some (ids ++ rest)

abbrev pub build_from : (List ℕ → ℕ) → PoolInner → ℕ → Option (List ℕ) → Option (List (List ℕ))
build_from id_of pool max_txs none = none
build_from id_of pool max_txs (some excluded) =
    some (build id_of (λ id. elem id excluded) pool max_txs)

module _ {S : Type 0} where
  -- The walk ends at a persisted digest, and also at one that is missing.
  unfoldable pub collect_ancestor_tx_ids : ℕ → InMemorySnapshotStore S → Option ℕ → Option (List ℕ)
  unfolding lookup is_persisted
  collect_ancestor_tx_ids fuel store none = some []
  collect_ancestor_tx_ids zero store (some d) = none
  collect_ancestor_tx_ids (suc fuel) store (some d) =
      if is_persisted store d then some [] else elim (lookup store d) [
        | none ↦ some []
        | some s ↦ add_ids s.tx_ids (collect_ancestor_tx_ids fuel store s.parent)
      ]

  unfoldable pub build_proposal_txs :
      (List ℕ → ℕ) → ℕ → InMemorySnapshotStore S → PoolInner → Option ℕ → ℕ → Option (List (List ℕ))
  unfolding collect_ancestor_tx_ids
  build_proposal_txs id_of fuel store pool parent max_txs =
      build_from id_of pool max_txs (collect_ancestor_tx_ids fuel store parent)

  -- The ids of a chain of snapshots.
  abbrev pub ids_of : List (ℕ × Snapshot S) → List ℕ
  ids_of [] = []
  ids_of ((d, s) ∷ ss) = s.tx_ids ++ ids_of ss

  -- Where the walk over the unpersisted ancestors succeeds, the ids that a proposal excludes are
  -- those of all of these ancestors.
  collect_ancestor_tx_ids-walk :
      (fuel : ℕ) (store : InMemorySnapshotStore S) (parent : Option ℕ) (ss : List (ℕ × Snapshot S))
      → walk fuel store.snapshots store.persisted parent ≡ found ss
      → collect_ancestor_tx_ids (suc fuel) store parent ≡ some (ids_of ss)
  unfolding walk collect_ancestor_tx_ids lookup is_persisted
  collect_ancestor_tx_ids-walk fuel store none ss e =
      let same : [] ≡ ss = ground (arith, e) in ap (λ xs. some (ids_of xs)) same
  collect_ancestor_tx_ids-walk zero store (some d) ss e =
      elim (Bool-cases (elem d store.persisted)) [
        | inl p ↦
            let same : [] ≡ ss = ground (arith, e, p) in
            rw (collect_ancestor_tx_ids, is_persisted, p) (ap (λ xs. some (ids_of xs)) same)
        | inr n ↦ let lost : out_of_fuel ≡ found ss = sym (rw (walk, n) refl) ∙ e in cc
      ]
  collect_ancestor_tx_ids-walk (suc fuel) store (some d) ss e =
      elim (Bool-cases (elem d store.persisted)) [
        | inl p ↦
            let same : [] ≡ ss = ground (arith, e, p) in
            rw (collect_ancestor_tx_ids, is_persisted, p) (ap (λ xs. some (ids_of xs)) same)
        | inr n ↦ elim (Option-cases (get d store.snapshots)) [
          | inl g ↦
              let missing : walk (suc fuel) store.snapshots store.persisted (some d)
                  ≡ snapshot_not_found d =
                rw (walk, n, g) refl in
              let lost : snapshot_not_found d ≡ found ss = sym missing ∙ e in cc
          | inr (s, g) ↦
              let step = walk-unpersisted fuel store.snapshots store.persisted d s g n in
              let (xs, w, same) =
                map_found-found (λ ss. (d, s) ∷ ss)
                  (walk fuel store.snapshots store.persisted s.parent) ss (sym step ∙ e) in
              let deep = collect_ancestor_tx_ids-walk fuel store s.parent xs w in
              rw (collect_ancestor_tx_ids, is_persisted, n, lookup, g, deep)
                (ap (λ xs. some (ids_of xs)) (sym same))
        ]
      ]

  -- Where the walk over the parent's unpersisted ancestors succeeds and the pool is consistent, a
  -- proposal is built with one more unit of fuel: at most the wanted number of transactions, those
  -- of each sender being the first of its pending ones that no such ancestor includes, and all of
  -- these where fewer than wanted come back.
  pub build_proposal_txs-Builds :
      (id_of : List ℕ → ℕ) (fuel : ℕ) (store : InMemorySnapshotStore S) (pool : PoolInner)
      (parent : Option ℕ) (n : ℕ) (ss : List (ℕ × Snapshot S))
      → walk fuel store.snapshots store.persisted parent ≡ found ss
      → IsConsistent pool
      → (block : List (List ℕ)) × (build_proposal_txs id_of (suc fuel) store pool parent n
          ≡ some block)
        × Builds id_of (λ id. elem id (ids_of ss)) pool n block
  unfolding build_proposal_txs
  build_proposal_txs-Builds id_of fuel store pool parent n ss e c =
      let test : ℕ → Bool = λ id. elem id (ids_of ss) in
      (
        build id_of test pool n,
        ap (build_from id_of pool n) (collect_ancestor_tx_ids-walk fuel store parent ss e),
        build-Builds id_of test pool n c,
      )
