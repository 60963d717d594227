-- ===== src/App/Agree/Chain.antt =====
-- What a node knows after `verify` of crates/node/runner/src/app.rs.
use kora.Base.{
  ℕ, ◌≡◌, refl, sym, ap, subst, inl, inr, ◌⊎◌, Bool, true, false, List, [], ◌∷◌, ◌++◌, reverse,
  Option, none, some, ◌==◌, if◌then◌else◌, get, put, get-put, Map, Bool-cases, ==-refl, All,
  reverse-cons,
}
use kora.Qmdb.Changes.{ChangeSet, is_some}
use kora.Domain.Block.{Block}
use kora.Consensus.Snapshot.{Snapshot, lookup, insert}
use kora.Ledger.{LedgerState, query_state_root, insert_snapshot, cache_snapshot}
use kora.App.{
  Platform, RevmApplication, note_verified, is_catching_up, record_block_fees, digest_of,
}
use kora.App.Verify.{verify_block, unverified, verify_all, verify}
use kora.App.Agree.Sound.{Verdict, known, trusted, checked, refused, verify_block-Verdict}

-- A digest whose state root the node holds.
abbrev pub Knows : RevmApplication → ℕ → Type 0
Knows app digest = is_some (query_state_root app.ledger digest) ≡ true

not_recovered :
    (app : RevmApplication) (height : ℕ)
    → app.recovered_height ≡ 0
    → is_catching_up app height ≡ false
unfolding is_catching_up
not_recovered app height e = rw e refl

abbrev root_of : Option (Snapshot ChangeSet) → Option ℕ
root_of none = none
root_of (some s) = some s.state_root

query_state_root_lem :
    (l : LedgerState) (d : ℕ) → query_state_root l d ≡ root_of (get d l.snapshots.snapshots)
unfolding query_state_root lookup
query_state_root_lem l d =
    elim (get d l.snapshots.snapshots)
      as (λ o. (elim o [ none ↦ none | some s ↦ some s.state_root ]) ≡ root_of o) [
        | none ↦ refl
        | some s ↦ refl
      ]

put-Held :
    (s : Snapshot ChangeSet) (m : Map (Snapshot ChangeSet)) (digest d : ℕ)
    → (d == digest) ≡ true ⊎ is_some (root_of (get d m)) ≡ true
    → is_some (root_of (get d (put digest s m))) ≡ true
put-Held s m digest d (inl e) = rw (get-put d digest s m, e) refl
put-Held s m digest d (inr k) = elim (Bool-cases (d == digest)) [
  | inl e ↦ rw (get-put d digest s m, e) refl
  | inr e ↦ rw (get-put d digest s m, e) k
]

query-insert :
    (l : LedgerState) (digest parent root d : ℕ) (state changes : ChangeSet) (ids : List ℕ)
    → (d == digest) ≡ true ⊎ is_some (query_state_root l d) ≡ true
    → is_some (query_state_root (insert_snapshot l digest parent state root changes ids) d) ≡ true
unfolding insert_snapshot cache_snapshot insert
query-insert l digest parent root d state changes ids h =
    let after = insert_snapshot l digest parent state root changes ids in
    let s : Snapshot ChangeSet = record {
      parent = some parent;
      state = state;
      state_root = root;
      changes = changes;
      tx_ids = ids;
    } in
    subst (λ o. is_some o ≡ true) (sym (query_state_root_lem after d))
      (put-Held s l.snapshots.snapshots digest d
        (subst (λ o. (d == digest) ≡ true ⊎ is_some o ≡ true) (query_state_root_lem l d) h))

All-append_back : (P : Block → Type 0) (xs ys : List Block) → All P (xs ++ ys) → All P xs × All P ys
All-append_back P [] ys h = (tt, h)
All-append_back P (x ∷ xs) ys h = let rest = All-append_back P xs ys h.1 in ((h.0, rest.0), rest.1)

All-reverse : (P : Block → Type 0) (xs : List Block) → All P (reverse xs) → All P xs
All-reverse P [] h = tt
All-reverse P (x ∷ xs) h =
    let both = All-append_back P (reverse xs) (x ∷ []) (subst (All P) (reverse-cons x xs) h) in
    (both.1.0, All-reverse P xs both.0)

impossible : {b : Bool} → b ≡ false → b ≡ true → ⊥
impossible f t = cc

module _ (p : Platform) where
  -- What one accepted block adds to what a node knows.
  record Adds (app : RevmApplication) (b : Block) (after : RevmApplication) : Type 0 where
    knows : Knows after (digest_of p b)
    keeps : (d : ℕ) → Knows app d → Knows after d
    not_recovered_yet : after.recovered_height ≡ 0

  Verdict-Adds :
      (app : RevmApplication) (b : Block) (parent_timestamp : Option ℕ) (now_secs : ℕ)
      (r : RevmApplication × Bool)
      → app.recovered_height ≡ 0
      → r.1 ≡ true
      → Verdict p app b parent_timestamp now_secs r
      → Adds app b r.0
  unfolding note_verified record_block_fees
  Verdict-Adds app b parent_timestamp now_secs r z e (known k) = record {
    knows = k;
    keeps = λ d h. h;
    not_recovered_yet = z;
  }
  Verdict-Adds app b parent_timestamp now_secs r z e (trusted c) =
      elim (impossible (not_recovered app b.height z) c) [ ]
  Verdict-Adds app b parent_timestamp now_secs r z e (checked after c t) =
      subst (Adds app b) (sym c.result) (record {
        knows =
            query-insert app.ledger (digest_of p b) _ _ (digest_of p b) _ _ _
              (inl (==-refl (digest_of p b)));
        keeps = λ d h. query-insert app.ledger (digest_of p b) _ _ d _ _ _ (inr h);
        not_recovered_yet = z;
      })
  Verdict-Adds app b parent_timestamp now_secs r z e (refused c k) = elim (impossible refl e) [ ]

  verify_block-Adds :
      (app : RevmApplication) (b : Block) (parent_timestamp : Option ℕ) (now_secs : ℕ)
      → app.recovered_height ≡ 0
      → (verify_block p app b parent_timestamp now_secs).1 ≡ true
      → Adds app b (verify_block p app b parent_timestamp now_secs).0
  verify_block-Adds app b parent_timestamp now_secs z e =
      Verdict-Adds app b parent_timestamp now_secs _ z e
        (verify_block-Verdict p app b parent_timestamp now_secs)

  -- What a list of accepted blocks adds.
  abbrev KnowsAll : RevmApplication → List Block → Type 0
  KnowsAll app bs = All (λ b. Knows app (digest_of p b)) bs

  record AddsAll (app : RevmApplication) (bs : List Block) (after : RevmApplication) : Type 0 where
    knows_all : KnowsAll after bs
    keeps_all : (d : ℕ) → Knows app d → Knows after d

  verify_all-AddsAll :
      (bs : List Block) (app after : RevmApplication) (parent_timestamp : Option ℕ) (now_secs : ℕ)
      → app.recovered_height ≡ 0
      → verify_all p app parent_timestamp now_secs bs ≡ (after, true)
      → AddsAll app bs after
  unfolding verify_all
  verify_all-AddsAll [] app after parent_timestamp now_secs z e = record {
    knows_all = tt;
    keeps_all = λ d h. subst (λ x. Knows x d) (ap (λ x. x.0) e) h;
  }
  verify_all-AddsAll (b ∷ bs) app after parent_timestamp now_secs z e =
      let r = verify_block p app b parent_timestamp now_secs in
      let rest = verify_all p r.0 (some b.timestamp) now_secs bs in
      let chosen : Bool → Type 0 = λ x. (if x then rest else (r.0, false)) ≡ (after, true) in
      elim (Bool-cases r.1) [
        | inl a ↦
            let first = verify_block-Adds app b parent_timestamp now_secs z a in
            let others =
              verify_all-AddsAll bs r.0 after (some b.timestamp) now_secs first.not_recovered_yet
                (subst chosen a e) in
            record {
              knows_all = (others.keeps_all (digest_of p b) first.knows, others.knows_all);
              keeps_all = λ d h. others.keeps_all d (first.keeps d h);
            }
        | inr a ↦ elim (impossible refl (ap (λ x. x.1) (subst chosen a e))) [ ]
      ]

  -- From the tip down to the first block that the node knew already, the node knows each block.
  abbrev pub Traced : RevmApplication → RevmApplication → List Block → Type 0
  Traced app after [] = Unit
  Traced app after (b ∷ bs) =
      Knows after (digest_of p b) × (Knows app (digest_of p b) ⊎ Traced app after bs)

  unverified-Traced :
      (app after : RevmApplication) (bs : List Block)
      → KnowsAll after (unverified p app.ledger bs).0
      → ((d : ℕ) → Knows app d → Knows after d)
      → Traced app after bs
  unfolding unverified
  unverified-Traced app after [] h k = tt
  unverified-Traced app after (b ∷ bs) h k =
      let rest = unverified p app.ledger bs in
      let chosen : Bool → Type 0 = λ x.
        KnowsAll after
          (if◌then◌else◌ {A = List Block × Option ℕ} x ([], some b.timestamp)
            (b ∷ rest.0, rest.1)).0 in
      elim (Bool-cases (is_some (query_state_root app.ledger (digest_of p b)))) [
        | inl e ↦ (k (digest_of p b) e, inl e)
        | inr e ↦
            let both = subst chosen e h in (both.0, inr (unverified-Traced app after bs both.1 k))
      ]

  -- Where a node that has not recovered from an archive accepts an ancestry, it knows afterwards,
  -- with a state root, every block from the tip down to the first one that it knew before.
  pub verify-Traced :
      (app after : RevmApplication) (now_secs : ℕ) (ancestry : List Block)
      → app.recovered_height ≡ 0
      → verify p app now_secs ancestry ≡ (after, true)
      → Traced app after ancestry
  unfolding verify
  verify-Traced app after now_secs ancestry z e =
      let new = (unverified p app.ledger ancestry).0 in
      let all = verify_all-AddsAll (reverse new) app after _ now_secs z e in
      unverified-Traced app after ancestry (All-reverse _ new all.knows_all) all.keeps_all
