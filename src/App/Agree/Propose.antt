-- ===== src/App/Agree/Propose.antt =====
-- From `propose` on one node to `verify_block` on another.
use kora.Base.{
  ℕ, ◌+◌, ◌≤◌, ◌≡◌, refl, ap, subst, sym, ◌∙◌, inl, inr, Bool, false, Option, none, some, arith,
  ltb, if◌then◌else◌, saturating_add, u64_max, Bool-cases,
}
use kora.Domain.Block.{Block, next_timestamp}
use kora.Ledger.{query_state_root}
use kora.App.{Platform, RevmApplication, digest_of, max_future_timestamp_drift}
use kora.App.Build.{Built, built, no_block, build_block, propose, too_far, at_time}
use kora.App.Verify.{bad_timestamp, verify_block}
use kora.App.Agree.{SameView, Accepts, build_block-BuiltFrom, build_block-Accepts}

-- The timestamp that a proposal takes.
abbrev pub later : ℕ → ℕ → ℕ
later now_secs parent_timestamp =
    if ltb parent_timestamp now_secs then now_secs else parent_timestamp

next_timestamp-later :
    (now_secs parent_timestamp : ℕ)
    → next_timestamp now_secs parent_timestamp ≡ some (later now_secs parent_timestamp)
unfolding next_timestamp
next_timestamp-later now_secs parent_timestamp = elim (Bool-cases (ltb parent_timestamp now_secs)) [
  | inl e ↦ rw e refl
  | inr e ↦ rw e refl
]

later-good :
    (proposed_at verified_at parent_timestamp : ℕ)
    → proposed_at ≤ verified_at + max_future_timestamp_drift
    → parent_timestamp ≤ verified_at + max_future_timestamp_drift
    → proposed_at ≤ u64_max
    → parent_timestamp ≤ u64_max
    → bad_timestamp (later proposed_at parent_timestamp) (some parent_timestamp) verified_at ≡ false
unfolding bad_timestamp saturating_add
later-good proposed_at verified_at parent_timestamp h k m n = ground (arith, h, k, m, n)

skipped :
    (app after : RevmApplication) (b : Block)
    → ¬ (◌≡◌ {A = RevmApplication × Built} (app, no_block) (after, built b))
skipped app after b e = cc

module _ (p : Platform) where
  propose-build_block :
      (fuel : ℕ) (app after : RevmApplication) (finalized : Option ℕ) (now_secs : ℕ)
      (parent b : Block)
      → propose p fuel app finalized now_secs parent ≡ (after, built b)
      → build_block p fuel app parent (later now_secs parent.timestamp) ≡ (after, built b)
  unfolding propose
  propose-build_block fuel app after finalized now_secs parent b e =
      let built_at = at_time p fuel app parent (next_timestamp now_secs parent.timestamp) in
      let chosen : Bool → Type 0 =
        λ x. (if x then (app, no_block) else built_at) ≡ (after, built b) in
      elim (Bool-cases (too_far finalized parent.height)) [
        | inl f ↦ elim (skipped app after b (subst chosen f e)) [ ]
        | inr f ↦
            sym (ap (at_time p fuel app parent) (next_timestamp-later now_secs parent.timestamp))
            ∙ subst chosen f e
      ]

  -- A block that one node proposes is accepted by every node that does not know it yet and sees
  -- the same at the parent (the snapshot, the store and the fees) under the same gas limit and fee
  -- recipient, where its clock is at most 15 seconds behind the proposer's and the parent's
  -- timestamp: the other node's execution gives the root that the block claims, and the node then
  -- holds a snapshot of the block with that root, on the parent, with the block's transactions.
  pub propose-Accepts :
      (fuel : ℕ) (app after other : RevmApplication) (finalized : Option ℕ)
      (proposed_at verified_at : ℕ) (parent b : Block)
      → propose p fuel app finalized proposed_at parent ≡ (after, built b)
      → SameView p app other (digest_of p parent)
      → query_state_root other.ledger (digest_of p b) ≡ none
      → proposed_at ≤ verified_at + max_future_timestamp_drift
      → parent.timestamp ≤ verified_at + max_future_timestamp_drift
      → proposed_at ≤ u64_max
      → parent.timestamp ≤ u64_max
      → Accepts p b
          (digest_of p parent)
          (verify_block p other b (some parent.timestamp) verified_at)
  propose-Accepts fuel app after other finalized proposed_at verified_at parent b e v q h k m n =
      let timestamp = later proposed_at parent.timestamp in
      let made = propose-build_block fuel app after finalized proposed_at parent b e in
      let f = build_block-BuiltFrom p fuel app after parent b timestamp made in
      let good = later-good proposed_at verified_at parent.timestamp h k m n in
      build_block-Accepts p fuel app after other parent b timestamp verified_at
        (some parent.timestamp) made v q
        (subst (λ x. bad_timestamp x.timestamp (some parent.timestamp) verified_at ≡ false)
          (sym f.block) good)
