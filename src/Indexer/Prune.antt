-- ===== src/Indexer/Prune.antt =====
-- `insert_block` and `prune_before`: what the index holds at each block number.
use kora.Base.{
  ℕ, suc, ◌≤◌, ◌<◌, ◌≡◌, refl, sym, ap, ◌∙◌, inl, inr, Bool, true, false, ◌&&◌, ◌||◌, List, [], ◌∷◌,
  ◌++◌, Option, none, some, arith, ltb, ◌==◌, if◌then◌else◌, Map, get, put, del, get-put, get-del,
  KeysFrom, Sorted, put-KeysFrom, del-KeysFrom, Bool-cases, Option-cases, ==→eq, ==-refl,
}
use kora.Indexer.{
  BlockIndex, IndexedBlock, IndexedTransaction, IndexedReceipt, insert_block, prune_before,
  get_block_by_number, block_under, numbers_below, del_numbers, del_hashes, del_all,
  transactions_in, transactions_of, logs_at, logs_under, or_empty,
}

-- A number leads to a block of that number.
pub record IsLinked (idx : BlockIndex) : Type 0 where
  pub sorted : Sorted idx.blocks_by_number
  pub linked :
      (n h : ℕ)
      → get n idx.blocks_by_number ≡ some h
      → (b : IndexedBlock) × (get h idx.blocks_by_hash ≡ some b) × (b.number ≡ n)

abbrev has_number : ℕ → List (ℕ × ℕ) → Bool
has_number n [] = false
has_number n ((k, h) ∷ es) = (n == k) || has_number n es

abbrev has_hash : ℕ → List (ℕ × ℕ) → Bool
has_hash h [] = false
has_hash h ((k, x) ∷ es) = (h == x) || has_hash h es

get-del_numbers :
    (n : ℕ) (es : List (ℕ × ℕ)) (m : Map ℕ)
    → get n (del_numbers es m) ≡ (if has_number n es then none else get n m)
get-del_numbers n [] m = refl
get-del_numbers n ((k, h) ∷ es) m = get-del_numbers n es (del k m) ∙ (ground (arith, get-del n k m))

get-del_hashes :
    {V : Type 0} (h : ℕ) (es : List (ℕ × ℕ)) (m : Map V)
    → get h (del_hashes es m) ≡ (if has_hash h es then none else get h m)
get-del_hashes h [] m = refl
get-del_hashes h ((k, x) ∷ es) m = get-del_hashes h es (del x m) ∙ (ground (arith, get-del h x m))

del_numbers-Sorted : (es : List (ℕ × ℕ)) (m : Map ℕ) → Sorted m → Sorted (del_numbers es m)
del_numbers-Sorted [] m s = s
del_numbers-Sorted ((k, h) ∷ es) m s = del_numbers-Sorted es (del k m) (del-KeysFrom 0 k m s)

-- The numbers that are collected: those below the bound.
not-collected :
    (n low : ℕ) (m : Map ℕ) → ltb n low ≡ false → has_number n (numbers_below low m) ≡ false
not-collected n low [] e = refl
not-collected n low ((k, h) ∷ m) e = ground (arith, e, not-collected n low m e)

all-collected :
    (n low : ℕ) (m : Map ℕ)
    → ltb n low ≡ true
    → has_number n (numbers_below low m) ≡ false
    → get n m ≡ none
unfolding get
all-collected n low [] e f = refl
all-collected n low ((k, h) ∷ m) e f = elim (Bool-cases (ltb k low)) [
  | inl y ↦ ground (arith, e, f, y, all-collected n low m e)
  | inr y ↦ ground (arith, e, f, y, all-collected n low m e)
]

number-below :
    (n low : ℕ) (m : Map ℕ)
    → get n (del_numbers (numbers_below low m) m) ≡ (if ltb n low then none else get n m)
number-below n low m = get-del_numbers n (numbers_below low m) m ∙ elim (Bool-cases (ltb n low)) [
  | inl e ↦ elim (Bool-cases (has_number n (numbers_below low m))) [
    | inl f ↦ rw (e, f) refl
    | inr f ↦ rw (e, f) (all-collected n low m e f)
  ]
  | inr e ↦ rw (e, not-collected n low m e) refl
]

-- A hash that is collected stands at a number below the bound.
hash-below :
    (h low lo : ℕ) (m : Map ℕ)
    → KeysFrom lo m
    → has_hash h (numbers_below low m) ≡ true
    → (k : ℕ) × (get k m ≡ some h) × (k < low) × (lo ≤ k)
unfolding get
hash-below h low lo [] s e = cc
hash-below h low lo ((j, x) ∷ m) s e = elim (Bool-cases (ltb j low && (h == x))) [
  | inl f ↦ (j, ground (arith, f), ground (arith, f), s.0)
  | inr f ↦
      let (k, g, below, from) = hash-below h low (suc j) m s.1 (ground (arith, e, f)) in
      (k, ground (arith, g, from), below, omega (arith, from, s.0))
]

-- A number below the bound is collected with its hash.
collects-hash :
    (n h low : ℕ) (m : Map ℕ) → get n m ≡ some h → n < low → has_hash h (numbers_below low m) ≡ true
unfolding get
collects-hash n h low [] e f = cc
collects-hash n h low ((j, x) ∷ m) e f = elim (Bool-cases (n == j)) [
  | inl y ↦
      let same = ==→eq n j y in
      let found : x ≡ h = ground (arith, e, y) in ground (arith, same, f, found)
  | inr y ↦ ground (arith, collects-hash n h low m (ground (arith, e, y)) f)
]

-- Taking the collected transactions out of a map.
abbrev lists : ℕ → List ℕ → Bool
lists t [] = false
lists t (x ∷ xs) = (t == x) || lists t xs

get-del_all :
    {V : Type 0} (t : ℕ) (hs : List ℕ) (m : Map V)
    → get t (del_all hs m) ≡ (if lists t hs then none else get t m)
get-del_all t [] m = refl
get-del_all t (x ∷ hs) m = get-del_all t hs (del x m) ∙ (ground (arith, get-del t x m))

lists-append : (t : ℕ) (xs ys : List ℕ) → lists t (xs ++ ys) ≡ (lists t xs || lists t ys)
lists-append t [] ys = refl
lists-append t (x ∷ xs) ys = ground (arith, lists-append t xs ys)

-- The hash of a block below the bound, and a transaction of such a block.
pub record Below (idx : BlockIndex) (low h : ℕ) : Type 0 where
  pub number : ℕ
  pub leads : get number idx.blocks_by_number ≡ some h
  pub under : number < low

pub record BelowTx (idx : BlockIndex) (low t : ℕ) : Type 0 where
  pub hash : ℕ
  pub block : IndexedBlock
  pub below : Below idx low hash
  pub held : get hash idx.blocks_by_hash ≡ some block
  pub listed : lists t block.transaction_hashes ≡ true

listed-hash :
    (t : ℕ) (by_hash : Map IndexedBlock) (es : List (ℕ × ℕ))
    → lists t (transactions_in by_hash es) ≡ true
    → (h : ℕ) × (b : IndexedBlock) × (has_hash h es ≡ true)
      × (get h by_hash ≡ some b)
      × (lists t b.transaction_hashes ≡ true)
listed-hash t by_hash [] e = cc
listed-hash t by_hash ((n, h) ∷ es) e =
    let split =
      sym (lists-append t (transactions_of (get h by_hash)) (transactions_in by_hash es)) ∙ e in
    elim (Option-cases (get h by_hash)) [
      | inl g ↦
          let (x, b, has, held, listed) = listed-hash t by_hash es (ground (arith, split, g)) in
          (x, b, ground (arith, has), held, listed)
      | inr (c, g) ↦ elim (Bool-cases (lists t c.transaction_hashes)) [
        | inl y ↦ (h, c, rw (==-refl h) refl, g, y)
        | inr y ↦
            let (x, b, has, held, listed) =
              listed-hash t by_hash es (ground (arith, split, g, y)) in
            (x, b, ground (arith, has), held, listed)
      ]
    ]

hash-listed :
    (t h : ℕ) (by_hash : Map IndexedBlock) (b : IndexedBlock) (es : List (ℕ × ℕ))
    → has_hash h es ≡ true
    → get h by_hash ≡ some b
    → lists t b.transaction_hashes ≡ true
    → lists t (transactions_in by_hash es) ≡ true
hash-listed t h by_hash b [] e g l = cc
hash-listed t h by_hash b ((n, x) ∷ es) e g l =
    lists-append t (transactions_of (get x by_hash)) (transactions_in by_hash es)
    ∙ elim (Bool-cases (h == x)) [
      | inl y ↦
          let here : get x by_hash ≡ some b = ap (λ z. get z by_hash) (sym (==→eq h x y)) ∙ g in
          rw (here, l) refl
      | inr y ↦ ground (arith, hash-listed t h by_hash b es (ground (arith, e, y)) g l)
    ]

-- What a map loses: what is under a key that fits, and nothing else.
pub record Loses {V : Type 0} (P : ℕ → Type 0) (m r : Map V) : Type 0 where
  pub gone : (h : ℕ) → P h → get h r ≡ none
  pub kept : (h : ℕ) → (¬ P h) → get h r ≡ get h m

-- The specification of a pruning.
pub record Prunes (idx : BlockIndex) (low : ℕ) (r : BlockIndex) : Type 0 where
  pub consistent : IsLinked r
  pub numbers :
      (n : ℕ) → get n r.blocks_by_number ≡ (if ltb n low then none else get n idx.blocks_by_number)
  pub blocks :
      (n : ℕ) → get_block_by_number r n ≡ (if ltb n low then none else get_block_by_number idx n)
  pub logs : (n : ℕ) → logs_at r n ≡ (if ltb n low then [] else logs_at idx n)
  pub blocks_lost : Loses (Below idx low) idx.blocks_by_hash r.blocks_by_hash
  pub logs_lost : Loses (Below idx low) idx.logs_by_block r.logs_by_block
  pub transactions_lost : Loses (BelowTx idx low) idx.transactions r.transactions
  pub receipts_lost : Loses (BelowTx idx low) idx.receipts r.receipts
  pub same_head : r.head_block ≡ idx.head_block

module _ (idx : BlockIndex) (low : ℕ) (k : IsLinked idx) where
  -- The hash of a block that stays is not collected.
  kept :
      (n h : ℕ)
      → ltb n low ≡ false
      → get n idx.blocks_by_number ≡ some h
      → has_hash h (numbers_below low idx.blocks_by_number) ≡ false
  kept n h e g = elim (Bool-cases (has_hash h (numbers_below low idx.blocks_by_number))) [
    | inl f ↦
        let (j, at_j, below, _) = hash-below h low 0 idx.blocks_by_number k.sorted f in
        let (b, held, number) = k.linked n h g in
        let (c, held_too, number_too) = k.linked j h at_j in
        let same : b ≡ c = ground (arith, held, held_too) in
        let same_number = ap (λ x. x.number) same in
        ground (arith, e, below, number, number_too, same_number)
    | inr f ↦ f
  ]

  prune-linked :
      (n h : ℕ)
      → get n (prune_before idx low).blocks_by_number ≡ some h
      → (b : IndexedBlock) × (get h (prune_before idx low).blocks_by_hash ≡ some b) × (b.number ≡ n)
  unfolding prune_before
  prune-linked n h e =
      let es = numbers_below low idx.blocks_by_number in
      let at_n = number-below n low idx.blocks_by_number in
      elim (Bool-cases (ltb n low)) [
        | inl f ↦ ground (arith, e, at_n, f)
        | inr f ↦
            let g : get n idx.blocks_by_number ≡ some h = ground (arith, e, at_n, f) in
            let (b, held, number) = k.linked n h g in
            (b, get-del_hashes h es idx.blocks_by_hash ∙ (rw (kept n h f g) held), number)
      ]

  -- What is under the hash of a block that stays is what was there.
  under-kept :
      {V : Type 0} (n : ℕ) (o : Option ℕ) (m : Map V)
      → ltb n low ≡ false
      → get n idx.blocks_by_number ≡ o
      → (h : ℕ) → o ≡ some h
      → get h (del_hashes (numbers_below low idx.blocks_by_number) m) ≡ get h m
  under-kept n o m f g h e =
      get-del_hashes h (numbers_below low idx.blocks_by_number) m ∙ (rw (kept n h f (g ∙ e)) refl)

  prune-blocks :
      (n : ℕ)
      → get_block_by_number (prune_before idx low) n
        ≡ (if ltb n low then none else get_block_by_number idx n)
  unfolding prune_before get_block_by_number
  prune-blocks n =
      let es = numbers_below low idx.blocks_by_number in
      let by_hash = del_hashes es idx.blocks_by_hash in
      ap (block_under by_hash) (number-below n low idx.blocks_by_number)
      ∙ elim (Bool-cases (ltb n low)) [
        | inl f ↦ rw f refl
        | inr f ↦ elim (Option-cases (get n idx.blocks_by_number)) [
          | inl g ↦ rw (f, g) refl
          | inr (h, g) ↦ rw (f, g) (under-kept n (some h) idx.blocks_by_hash f g h refl)
        ]
      ]

  prune-logs :
      (n : ℕ) → logs_at (prune_before idx low) n ≡ (if ltb n low then [] else logs_at idx n)
  unfolding prune_before
  prune-logs n =
      let es = numbers_below low idx.blocks_by_number in
      ap (logs_under (prune_before idx low)) (number-below n low idx.blocks_by_number)
      ∙ elim (Bool-cases (ltb n low)) [
        | inl f ↦ rw f refl
        | inr f ↦ elim (Option-cases (get n idx.blocks_by_number)) [
          | inl g ↦ rw (f, g) refl
          | inr (h, g) ↦
              rw (f, g) (ap or_empty (under-kept n (some h) idx.logs_by_block f g h refl))
        ]
      ]

  hashes-Loses :
      {V : Type 0} (m : Map V)
      → Loses (Below idx low) m (del_hashes (numbers_below low idx.blocks_by_number) m)
  hashes-Loses m =
      let es = numbers_below low idx.blocks_by_number in
      record {
        gone = λ h b.
            get-del_hashes h es m
            ∙ (rw (collects-hash b.number h low idx.blocks_by_number b.leads b.under) refl);
        kept = λ h n. get-del_hashes h es m ∙ elim (Bool-cases (has_hash h es)) [
          | inl e ↦
              let (j, leads, under, _) = hash-below h low 0 idx.blocks_by_number k.sorted e in
              elim (n (record { number = j; leads = leads; under = under })) [ ]
          | inr e ↦ rw e refl
        ];
      }

  transactions-Loses :
      {V : Type 0} (m : Map V)
      → Loses
          (BelowTx idx low)
          m
          (del_all (transactions_in idx.blocks_by_hash (numbers_below low idx.blocks_by_number)) m)
  transactions-Loses m =
      let es = numbers_below low idx.blocks_by_number in
      let hs = transactions_in idx.blocks_by_hash es in
      record {
        gone = λ t b.
            let below = b.below in
            let has =
              collects-hash below.number b.hash low idx.blocks_by_number below.leads below.under in
            get-del_all t hs m
            ∙ (rw (hash-listed t b.hash idx.blocks_by_hash b.block es has b.held b.listed) refl);
        kept = λ t n. get-del_all t hs m ∙ elim (Bool-cases (lists t hs)) [
          | inl e ↦
              let (h, b, has, held, listed) = listed-hash t idx.blocks_by_hash es e in
              let (j, leads, under, _) = hash-below h low 0 idx.blocks_by_number k.sorted has in
              elim (n (record {
                hash = h;
                block = b;
                below = record { number = j; leads = leads; under = under };
                held = held;
                listed = listed;
              })) [ ]
          | inr e ↦ rw e refl
        ];
      }

  -- In an index whose numbers lead to blocks of those numbers, a pruning takes the numbers below the
  -- bound out, the blocks and logs under exactly the hashes that stand at these numbers, and
  -- exactly the transactions and receipts that these blocks list; a number at the bound or above
  -- leads to its block and logs as before, the head stays, and the numbers lead to blocks of those
  -- numbers again.
  pub prune_before-Prunes : Prunes idx low (prune_before idx low)
  unfolding prune_before
  prune_before-Prunes = record {
    consistent = record {
      sorted =
          del_numbers-Sorted (numbers_below low idx.blocks_by_number) idx.blocks_by_number k.sorted;
      linked = prune-linked;
    };
    numbers = λ n. number-below n low idx.blocks_by_number;
    blocks = prune-blocks;
    logs = prune-logs;
    blocks_lost = hashes-Loses idx.blocks_by_hash;
    logs_lost = hashes-Loses idx.logs_by_block;
    transactions_lost = transactions-Loses idx.transactions;
    receipts_lost = transactions-Loses idx.receipts;
    same_head = refl;
  }

-- The specification of an insertion.
pub record Inserts (idx : BlockIndex) (block : IndexedBlock) (r : BlockIndex) : Type 0 where
  pub consistent : IsLinked r
  pub blocks :
      (n : ℕ)
      → get_block_by_number r n
        ≡ (if n == block.number then some block else get_block_by_number idx n)

-- No block of another number has the block's hash.
abbrev pub IsFresh : BlockIndex → IndexedBlock → Type 0
IsFresh idx block =
    (b : IndexedBlock) → get block.hash idx.blocks_by_hash ≡ some b → b.number ≡ block.number

insert-linked :
    (idx : BlockIndex) (block : IndexedBlock)
    → IsLinked idx
    → IsFresh idx block
    → (n h : ℕ)
    → (if n == block.number then some block.hash else get n idx.blocks_by_number) ≡ some h
    → (b : IndexedBlock) × (get h (put block.hash block idx.blocks_by_hash) ≡ some b)
      × (b.number ≡ n)
insert-linked idx block k fresh n h e = elim (Bool-cases (n == block.number)) [
  | inl f ↦
      let same : h ≡ block.hash = ground (arith, e, f) in
      (
        block,
        get-put h block.hash block idx.blocks_by_hash ∙ (rw (same, ==-refl block.hash) refl),
        sym (==→eq n block.number f),
      )
  | inr f ↦
      let g : get n idx.blocks_by_number ≡ some h = ground (arith, e, f) in
      let (b, held, number) = k.linked n h g in
      elim (Bool-cases (h == block.hash)) [
        | inl y ↦
            let at_hash = sym (ap (λ x. get x idx.blocks_by_hash) (==→eq h block.hash y)) ∙ held in
            (
              block,
              get-put h block.hash block idx.blocks_by_hash ∙ (rw y refl),
              sym (fresh b at_hash) ∙ number,
            )
        | inr y ↦ (b, get-put h block.hash block idx.blocks_by_hash ∙ (rw y held), number)
      ]
]

insert-block :
    (idx : BlockIndex) (block : IndexedBlock)
    → IsLinked idx
    → IsFresh idx block
    → (n : ℕ)
    → block_under
        (put block.hash block idx.blocks_by_hash)
        (if n == block.number then some block.hash else get n idx.blocks_by_number)
      ≡ (if n == block.number
          then some block
          else block_under idx.blocks_by_hash (get n idx.blocks_by_number))
insert-block idx block k fresh n = elim (Bool-cases (n == block.number)) [
  | inl f ↦
      rw f (get-put block.hash block.hash block idx.blocks_by_hash ∙ (rw (==-refl block.hash) refl))
  | inr f ↦ elim (Option-cases (get n idx.blocks_by_number)) [
    | inl g ↦ rw (f, g) refl
    | inr (h, g) ↦
        let (b, held, number) = k.linked n h g in
        rw (f, g)
          (get-put h block.hash block idx.blocks_by_hash ∙ elim (Bool-cases (h == block.hash)) [
            | inl y ↦
                let at_hash =
                  sym (ap (λ x. get x idx.blocks_by_hash) (==→eq h block.hash y)) ∙ held in
                let same = fresh b at_hash in ground (arith, f, same, number)
            | inr y ↦ rw y refl
          ])
  ]
]

-- A block whose hash no block of another number has is what its number leads to from then on, in
-- place of any before it; the other numbers lead where they did.
pub insert_block-Inserts :
    (idx : BlockIndex) (block : IndexedBlock) (txs : List IndexedTransaction)
    (receipts : List IndexedReceipt)
    → IsLinked idx
    → IsFresh idx block
    → Inserts idx block (insert_block idx block txs receipts)
unfolding insert_block get_block_by_number
insert_block-Inserts idx block txs receipts k fresh = record {
  consistent = record {
    sorted = put-KeysFrom 0 block.number block.hash idx.blocks_by_number (omega arith) k.sorted;
    linked = λ n h e.
        insert-linked idx block k fresh n h
          (sym (get-put n block.number block.hash idx.blocks_by_number) ∙ e);
  };
  blocks = λ n.
      ap (block_under (put block.hash block idx.blocks_by_hash))
        (get-put n block.number block.hash idx.blocks_by_number)
      ∙ insert-block idx block k fresh n;
}
