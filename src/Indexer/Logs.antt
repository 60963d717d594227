-- ===== src/Indexer/Logs.antt =====
-- `get_logs`: the logs that a query returns.
use kora.Base.{
  ℕ, zero, suc, ◌+◌, ◌-◌, ◌≤◌, ◌<◌, ◌≡◌, refl, sym, ap, subst, ◌∙◌, ◌⊎◌, inl, inr, Bool, true, List,
  [], ◌∷◌, ◌++◌, some, arith, retain, get, Bool-cases, Option-cases, ==→eq, ==→ne, ◌==◌,
}
use kora.Indexer.{
  IndexedLog, LogFilter, BlockIndex, logs_at, logs_under, or_empty, logs_from, get_logs, last_block,
  or, matches_filter,
}
use kora.Indexer.Filter.{Satisfies, matches_filter-Satisfies, Satisfies-matches_filter}

pub data In {ℓ} {A : Type ℓ} (a : A) : List A → Type ℓ where
  here : (x : A) (xs : List A) → a ≡ x → In a (x ∷ xs)
  there : (x : A) (xs : List A) → In a xs → In a (x ∷ xs)

module _ {ℓ} {A : Type ℓ} where
  in_front : (a : A) (xs ys : List A) → In a xs → In a (xs ++ ys)
  in_front a _ ys (here x xs e) = here x (xs ++ ys) e
  in_front a _ ys (there x xs h) = there x (xs ++ ys) (in_front a xs ys h)

  in_back : (a : A) (xs ys : List A) → In a ys → In a (xs ++ ys)
  in_back a [] ys h = h
  in_back a (x ∷ xs) ys h = there x (xs ++ ys) (in_back a xs ys h)

  in_either : (a : A) (xs ys : List A) → In a (xs ++ ys) → In a xs ⊎ In a ys
  in_either a [] ys h = inr h
  in_either a (x ∷ xs) ys (here _ _ e) = inl (here x xs e)
  in_either a (x ∷ xs) ys (there _ _ h) = elim (in_either a xs ys h) [
    | inl k ↦ inl (there x xs k)
    | inr k ↦ inr k
  ]

  in_retain : (p : A → Bool) (a : A) (xs : List A) → In a xs → p a ≡ true → In a (retain p xs)
  in_retain p a _ (here x xs e) h = rw (sym (ap p e) ∙ h) (here x (retain p xs) e)
  in_retain p a _ (there x xs k) h = elim (Bool-cases (p x)) [
    | inl e ↦ rw e (there x (retain p xs) (in_retain p a xs k h))
    | inr e ↦ rw e (in_retain p a xs k h)
  ]

  first_or_later :
      (p : A → Bool) (a x : A) (xs ys : List A)
      → p x ≡ true
      → (In a ys → In a xs × (p a ≡ true))
      → In a (x ∷ ys)
      → In a (x ∷ xs) × (p a ≡ true)
  first_or_later p a x xs ys e k (here _ _ f) = (here x xs f, ap p f ∙ e)
  first_or_later p a x xs ys e k (there _ _ h) = let (i, m) = k h in (there x xs i, m)

  retained : (p : A → Bool) (a : A) (xs : List A) → In a (retain p xs) → In a xs × (p a ≡ true)
  retained p a [] h = elim h [ ]
  retained p a (x ∷ xs) h = elim (Bool-cases (p x)) [
    | inl e ↦ first_or_later p a x xs (retain p xs) e (retained p a xs) (subst (In a) (rw e refl) h)
    | inr e ↦ let (k, m) = retained p a xs (subst (In a) (rw e refl) h) in (there x xs k, m)
  ]

-- A log that the index has at a block number.
pub record HeldAt (idx : BlockIndex) (n : ℕ) (log : IndexedLog) : Type 0 where
  pub hash : ℕ
  pub logs : List IndexedLog
  pub indexed : get n idx.blocks_by_number ≡ some hash
  pub recorded : get hash idx.logs_by_block ≡ some logs
  pub member : In log logs

-- The specification: a log of a block in the range, which the filter asks for.
pub record Answers (idx : BlockIndex) (filter : LogFilter) (log : IndexedLog) : Type 0 where
  pub number : ℕ
  pub not_before : or filter.from_block 0 ≤ number
  pub not_after : number ≤ last_block idx filter
  pub held : HeldAt idx number log
  pub satisfies : Satisfies log filter

logs_at-HeldAt :
    (idx : BlockIndex) (n : ℕ) (log : IndexedLog) → In log (logs_at idx n) → HeldAt idx n log
logs_at-HeldAt idx n log h = elim (Option-cases (get n idx.blocks_by_number)) [
  | inl e ↦ elim (subst (λ o. In log (logs_under idx o)) e h) [ ]
  | inr (hash, e) ↦ elim (Option-cases (get hash idx.logs_by_block)) [
    | inl f ↦
        elim (subst (λ o. In log (or_empty o)) f (subst (λ o. In log (logs_under idx o)) e h)) [ ]
    | inr (logs, f) ↦ record {
      hash = hash;
      logs = logs;
      indexed = e;
      recorded = f;
      member = subst (λ o. In log (or_empty o)) f (subst (λ o. In log (logs_under idx o)) e h);
    }
  ]
]

HeldAt-logs_at :
    (idx : BlockIndex) (n : ℕ) (log : IndexedLog) → HeldAt idx n log → In log (logs_at idx n)
HeldAt-logs_at idx n log h =
    subst (λ o. In log (logs_under idx o)) (sym h.indexed)
      (subst (λ o. In log (or_empty o)) (sym h.recorded) h.member)

irreflexive : (n : ℕ) → ¬ (n < n)
irreflexive n = omega arith

-- The loop over the numbers.
record Found (idx : BlockIndex) (filter : LogFilter) (first n : ℕ) (log : IndexedLog) : Type 0 where
  number : ℕ
  not_before : first ≤ number
  not_after : number < first + n
  held : HeldAt idx number log
  satisfies : Satisfies log filter

logs_from-Found :
    (idx : BlockIndex) (filter : LogFilter) (first n : ℕ) (log : IndexedLog)
    → In log (logs_from idx filter first n)
    → Found idx filter first n log
unfolding logs_from
logs_from-Found idx filter first zero log h = elim h [ ]
logs_from-Found idx filter first (suc n) log h =
    elim (in_either log (retain (λ log. matches_filter log filter) (logs_at idx first))
      (logs_from idx filter (suc first) n) h) [
        | inl k ↦
            let (i, m) = retained (λ log. matches_filter log filter) log (logs_at idx first) k in
            record {
              number = first;
              not_before = omega arith;
              not_after = omega arith;
              held = logs_at-HeldAt idx first log i;
              satisfies = matches_filter-Satisfies log filter m;
            }
        | inr k ↦
            let f = logs_from-Found idx filter (suc first) n log k in
            record {
              number = f.number;
              not_before = omega (arith, f.not_before);
              not_after = omega (arith, f.not_after);
              held = f.held;
              satisfies = f.satisfies;
            }
      ]

Found-logs_from :
    (idx : BlockIndex) (filter : LogFilter) (first n : ℕ) (log : IndexedLog)
    → Found idx filter first n log
    → In log (logs_from idx filter first n)
unfolding logs_from
Found-logs_from idx filter first zero log f =
    let lost : f.number < f.number = omega (arith, f.not_before, f.not_after) in
    elim (irreflexive f.number lost) [ ]
Found-logs_from idx filter first (suc n) log f = elim (Bool-cases (first == f.number)) [
  | inl e ↦ in_front log _ _ (
      in_retain (λ log. matches_filter log filter) log (logs_at idx first)
        (rw (==→eq first f.number e) (HeldAt-logs_at idx f.number log f.held))
        (Satisfies-matches_filter log filter f.satisfies))
  | inr e ↦ in_back log (retain (λ log. matches_filter log filter) (logs_at idx first)) _ (
      Found-logs_from idx filter (suc first) n log (record {
        number = f.number;
        not_before = let a = f.not_before in let d = ==→ne first f.number e in omega arith;
        not_after = omega (arith, f.not_after);
        held = f.held;
        satisfies = f.satisfies;
      }))
]

-- A query for logs is sound and complete: it returns exactly the logs that the index has for the
-- blocks in the range, from the filter's first block to its last or the head, whichever is lower,
-- and that have one of the filter's addresses and at each of its topic positions one of the topics.
pub get_logs-Answers :
    (idx : BlockIndex) (filter : LogFilter) (log : IndexedLog)
    → (In log (get_logs idx filter) → Answers idx filter log)
      × (Answers idx filter log → In log (get_logs idx filter))
unfolding get_logs
get_logs-Answers idx filter log = (
  λ h.
      let first = or filter.from_block 0 in
      let f = logs_from-Found idx filter first (suc (last_block idx filter) - first) log h in
      record {
        number = f.number;
        not_before = f.not_before;
        not_after = omega (arith, f.not_after, f.not_before);
        held = f.held;
        satisfies = f.satisfies;
      },
  λ a.
      let first = or filter.from_block 0 in
      Found-logs_from idx filter first (suc (last_block idx filter) - first) log (record {
        number = a.number;
        not_before = a.not_before;
        not_after = omega (arith, a.not_after, a.not_before);
        held = a.held;
        satisfies = a.satisfies;
      }),
)
