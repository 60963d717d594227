-- ===== src/Indexer/Recent.antt =====
-- `recent_block_hashes`: the window of the BLOCKHASH instruction.
use kora.Base.{
  ℕ, zero, suc, ◌+◌, ◌-◌, ◌≤◌, ◌≡◌, ap, ◌∙◌, inl, inr, min, Bool, ◌&&◌, [], Option, none, some,
  arith, ltb, leb, ◌==◌, if◌then◌else◌, length, Map, get, get-put, or_else, length-put,
  Option-cases, Bool-cases, ==→eq,
}
use kora.Indexer.{BlockIndex, recent_block_hashes, hashes_from, note}

-- The window: from the first number on, so many.
abbrev pub within : ℕ → ℕ → ℕ → Bool
within first n k = leb first k && ltb k (first + n)

get-note :
    (k n : ℕ) (o : Option ℕ) (m : Map ℕ)
    → get k (note n o m) ≡ (if k == n then or_else o (get k m) else get k m)
get-note k n none m = ground arith
get-note k n (some h) m = get-put k n h m ∙ (ground arith)

hashes_from-get :
    (by_number : Map ℕ) (first n k : ℕ) (m : Map ℕ)
    → get k (hashes_from by_number first n m)
      ≡ (if within first n k then or_else (get k by_number) (get k m) else get k m)
unfolding hashes_from
hashes_from-get by_number first zero k m = ground arith
hashes_from-get by_number first (suc n) k m =
    hashes_from-get by_number (suc first) n k (note first (get first by_number) m)
    ∙ elim (Bool-cases (k == first)) [
      | inl e ↦ ground (
        arith,
        e,
        get-note k first (get first by_number) m,
        ap (λ x. get x by_number) (==→eq k first e),
      )
      | inr e ↦ ground (arith, e, get-note k first (get first by_number) m)
    ]

length-note : (n : ℕ) (o : Option ℕ) (m : Map ℕ) → length (note n o m) ≤ suc (length m)
length-note n none m = omega arith
length-note n (some h) m = length-put n h m

length-hashes_from :
    (by_number : Map ℕ) (first n : ℕ) (m : Map ℕ)
    → length (hashes_from by_number first n m) ≤ n + length m
unfolding hashes_from
length-hashes_from by_number first zero m = omega arith
length-hashes_from by_number first (suc n) m = omega (
  arith,
  length-hashes_from by_number (suc first) n (note first (get first by_number) m),
  length-note first (get first by_number) m,
)

-- The specification: no more than 256 hashes, and those of the indexed blocks among the 256 that
-- lie below the head.
pub record Window (idx : BlockIndex) (head : ℕ) (r : Map ℕ) : Type 0 where
  pub bounded : length r ≤ 256
  pub contents :
      (k : ℕ)
      → get k r ≡ (if ltb k head && ltb head (k + 257) then get k idx.blocks_by_number else none)

-- The hashes for the BLOCKHASH instruction are no more than 256, and they are those of the indexed
-- blocks among the 256 numbers below the head: neither the head itself nor any older one.
pub recent_block_hashes-Window :
    (idx : BlockIndex) (head : ℕ) → Window idx head (recent_block_hashes idx head)
unfolding recent_block_hashes get
recent_block_hashes-Window idx head = record {
  bounded =
      let b = length-hashes_from idx.blocks_by_number (head - min head 256) (min head 256) [] in
      omega arith;
  contents = λ k.
      hashes_from-get idx.blocks_by_number (head - min head 256) (min head 256) k []
      ∙ elim (Option-cases (get k idx.blocks_by_number)) [
        | inl e ↦ rw e (ground arith)
        | inr (h, e) ↦ rw e (ground arith)
      ];
}
