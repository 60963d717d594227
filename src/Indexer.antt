-- ===== src/Indexer.antt =====
-- crates/storage/indexer: the in-memory index of blocks, transactions, receipts and logs.
-- Each map stands behind its own lock; a method is taken as a whole. A hash map is a list in key
-- order.
pub mod Filter
pub mod Logs
pub mod Prune
pub mod Recent
pub mod Tests
use kora.Base.{
  ℕ, zero, suc, ◌+◌, ◌-◌, min, Bool, true, false, ◌&&◌, ◌||◌, List, [], ◌∷◌, ◌++◌, Option, none,
  some, ltb, leb, ◌==◌, if◌then◌else◌, length, retain, get_elem?, Map, get, put, del,
}

-- types.rs.
pub record IndexedLog : Type 0 where
  pub address : ℕ
  pub topics : List ℕ
  pub bytes : List ℕ
  pub log_index : ℕ
  pub block_number : ℕ
  pub block_hash : ℕ
  pub transaction_hash : ℕ
  pub transaction_index : ℕ

pub record IndexedBlock : Type 0 where
  pub hash : ℕ
  pub number : ℕ
  pub parent_hash : ℕ
  pub state_root : ℕ
  pub transactions_root : ℕ
  pub receipts_root : ℕ
  pub timestamp : ℕ
  pub gas_limit : ℕ
  pub gas_used : ℕ
  pub base_fee_per_gas : Option ℕ
  pub mix_hash : ℕ
  pub logs_bloom : ℕ
  pub size : ℕ
  pub transaction_hashes : List ℕ

pub record IndexedTransaction : Type 0 where
  pub hash : ℕ
  pub block_hash : ℕ
  pub block_number : ℕ
  pub index : ℕ
  pub sender : ℕ
  pub recipient : Option ℕ
  pub amount : ℕ
  pub gas_limit : ℕ
  pub gas_price : ℕ
  pub tx_type : ℕ
  pub chain_id : Option ℕ
  pub max_fee_per_gas : Option ℕ
  pub max_priority_fee_per_gas : Option ℕ
  pub signature : ℕ × ℕ × ℕ
  pub input : List ℕ
  pub nonce : ℕ

pub record IndexedReceipt : Type 0 where
  pub transaction_hash : ℕ
  pub block_hash : ℕ
  pub block_number : ℕ
  pub transaction_index : ℕ
  pub sender : ℕ
  pub recipient : Option ℕ
  pub cumulative_gas_used : ℕ
  pub gas_used : ℕ
  pub contract_address : Option ℕ
  pub logs : List IndexedLog
  pub logs_bloom : ℕ
  pub tx_type : ℕ
  pub effective_gas_price : ℕ
  pub status : Bool

pub record IndexStats : Type 0 where
  pub block_count : ℕ
  pub transaction_count : ℕ
  pub receipt_count : ℕ
  pub head_block_number : ℕ

-- filter.rs: four topic positions.
pub record LogFilter : Type 0 where
  pub from_block : Option ℕ
  pub to_block : Option ℕ
  pub address : Option (List ℕ)
  pub topics : List (Option (List ℕ))

-- store.rs.
pub record BlockIndex : Type 0 where
  pub blocks_by_hash : Map IndexedBlock
  pub blocks_by_number : Map ℕ
  pub transactions : Map IndexedTransaction
  pub receipts : Map IndexedReceipt
  pub logs_by_block : Map (List IndexedLog)
  pub head_block : ℕ

unfoldable pub new : BlockIndex
new = record {
  blocks_by_hash = [];
  blocks_by_number = [];
  transactions = [];
  receipts = [];
  logs_by_block = [];
  head_block = 0;
}

-- The loops of `insert_block`.
abbrev pub logs_of : List IndexedReceipt → List IndexedLog
logs_of [] = []
logs_of (r ∷ rs) = r.logs ++ logs_of rs

abbrev pub put_transactions :
    List IndexedTransaction → Map IndexedTransaction → Map IndexedTransaction
put_transactions [] m = m
put_transactions (t ∷ ts) m = put_transactions ts (put t.hash t m)

abbrev pub put_receipts : List IndexedReceipt → Map IndexedReceipt → Map IndexedReceipt
put_receipts [] m = m
put_receipts (r ∷ rs) m = put_receipts rs (put r.transaction_hash r m)

unfoldable pub insert_block :
    BlockIndex → IndexedBlock → List IndexedTransaction → List IndexedReceipt → BlockIndex
insert_block idx block txs receipts = record {
  blocks_by_hash = put block.hash block idx.blocks_by_hash;
  blocks_by_number = put block.number block.hash idx.blocks_by_number;
  transactions = put_transactions txs idx.transactions;
  receipts = put_receipts receipts idx.receipts;
  logs_by_block = put block.hash (logs_of receipts) idx.logs_by_block;
  head_block = if ltb idx.head_block block.number then block.number else idx.head_block;
}

-- What `prune_before` collects: the numbers below the bound with their hashes, and the hashes of
-- the transactions of their blocks.
abbrev pub numbers_below : ℕ → Map ℕ → List (ℕ × ℕ)
numbers_below low m = retain (λ e. ltb e.0 low) m

abbrev pub transactions_of : Option IndexedBlock → List ℕ
transactions_of none = []
transactions_of (some b) = b.transaction_hashes

abbrev pub transactions_in : Map IndexedBlock → List (ℕ × ℕ) → List ℕ
transactions_in by_hash [] = []
transactions_in by_hash ((n, h) ∷ es) =
    transactions_of (get h by_hash) ++ transactions_in by_hash es

-- The loops that remove what was collected.
abbrev pub del_numbers : List (ℕ × ℕ) → Map ℕ → Map ℕ
del_numbers [] m = m
del_numbers ((n, h) ∷ es) m = del_numbers es (del n m)

abbrev pub del_hashes {ℓ} : {V : Type ℓ} → List (ℕ × ℕ) → Map V → Map V
del_hashes [] m = m
del_hashes ((n, h) ∷ es) m = del_hashes es (del h m)

abbrev pub del_all {ℓ} : {V : Type ℓ} → List ℕ → Map V → Map V
del_all [] m = m
del_all (h ∷ hs) m = del_all hs (del h m)

-- Where nothing was collected the source returns; so does this, since the loops then do nothing.
unfoldable pub prune_before : BlockIndex → ℕ → BlockIndex
prune_before idx low =
    let es = numbers_below low idx.blocks_by_number in
    let hs = transactions_in idx.blocks_by_hash es in
    record {
      blocks_by_hash = del_hashes es idx.blocks_by_hash;
      blocks_by_number = del_numbers es idx.blocks_by_number;
      transactions = del_all hs idx.transactions;
      receipts = del_all hs idx.receipts;
      logs_by_block = del_hashes es idx.logs_by_block;
      head_block = idx.head_block;
    }

unfoldable pub get_block_by_hash : BlockIndex → ℕ → Option IndexedBlock
get_block_by_hash idx hash = get hash idx.blocks_by_hash

abbrev pub block_under : Map IndexedBlock → Option ℕ → Option IndexedBlock
block_under by_hash none = none
block_under by_hash (some hash) = get hash by_hash

unfoldable pub get_block_by_number : BlockIndex → ℕ → Option IndexedBlock
get_block_by_number idx number = block_under idx.blocks_by_hash (get number idx.blocks_by_number)

unfoldable pub get_transaction : BlockIndex → ℕ → Option IndexedTransaction
get_transaction idx hash = get hash idx.transactions

unfoldable pub get_receipt : BlockIndex → ℕ → Option IndexedReceipt
get_receipt idx hash = get hash idx.receipts

-- `sort_by_key` on the index in the block.
abbrev pub place : IndexedTransaction → List IndexedTransaction → List IndexedTransaction
place t [] = t ∷ []
place t (x ∷ xs) = if ltb x.index t.index then x ∷ place t xs else t ∷ x ∷ xs

abbrev pub sort : List IndexedTransaction → List IndexedTransaction
sort [] = []
sort (t ∷ ts) = place t (sort ts)

abbrev pub in_block : ℕ → Map IndexedTransaction → List IndexedTransaction
in_block hash [] = []
in_block hash ((k, t) ∷ m) =
    let rest = in_block hash m in if t.block_hash == hash then t ∷ rest else rest

unfoldable pub get_transactions_for_block : BlockIndex → ℕ → List IndexedTransaction
get_transactions_for_block idx hash = sort (in_block hash idx.transactions)

abbrev pub contains : ℕ → List ℕ → Bool
contains a [] = false
contains a (x ∷ xs) = (a == x) || contains a xs

-- The two parts of `matches_filter`; a filter position past the log's topics does not match.
abbrev pub matches_address : Option (List ℕ) → ℕ → Bool
matches_address none a = true
matches_address (some addresses) a = contains a addresses

abbrev pub matches_topics : List (Option (List ℕ)) → List ℕ → Bool
matches_topics [] ts = true
matches_topics (none ∷ fs) [] = matches_topics fs []
matches_topics (none ∷ fs) (t ∷ ts) = matches_topics fs ts
matches_topics (some allowed ∷ fs) [] = false
matches_topics (some allowed ∷ fs) (t ∷ ts) = contains t allowed && matches_topics fs ts

unfoldable pub matches_filter : IndexedLog → LogFilter → Bool
matches_filter log filter =
    matches_address filter.address log.address && matches_topics filter.topics log.topics

abbrev pub or_empty {ℓ} : {A : Type ℓ} → Option (List A) → List A
or_empty none = []
or_empty (some xs) = xs

abbrev pub logs_under : BlockIndex → Option ℕ → List IndexedLog
logs_under idx none = []
logs_under idx (some hash) = or_empty (get hash idx.logs_by_block)

abbrev pub logs_at : BlockIndex → ℕ → List IndexedLog
logs_at idx n = logs_under idx (get n idx.blocks_by_number)

-- The loop over the numbers from the first, by how many are left.
unfoldable pub logs_from : BlockIndex → LogFilter → ℕ → ℕ → List IndexedLog
unfolding matches_filter
logs_from idx filter first zero = []
logs_from idx filter first (suc n) =
    retain (λ log. matches_filter log filter) (logs_at idx first)
    ++ logs_from idx filter (suc first) n

abbrev pub or {ℓ} : {A : Type ℓ} → Option A → A → A
or none b = b
or (some a) b = a

abbrev pub last_block : BlockIndex → LogFilter → ℕ
last_block idx filter = min (or filter.to_block idx.head_block) idx.head_block

unfoldable pub get_logs : BlockIndex → LogFilter → List IndexedLog
unfolding logs_from
get_logs idx filter =
    let first = or filter.from_block 0 in
    logs_from idx filter first (suc (last_block idx filter) - first)

unfoldable pub stats : BlockIndex → IndexStats
stats idx = record {
  block_count = length idx.blocks_by_hash;
  transaction_count = length idx.transactions;
  receipt_count = length idx.receipts;
  head_block_number = idx.head_block;
}

abbrev pub note : ℕ → Option ℕ → Map ℕ → Map ℕ
note n none m = m
note n (some h) m = put n h m

-- The loop of `recent_block_hashes`.
unfoldable pub hashes_from : Map ℕ → ℕ → ℕ → Map ℕ → Map ℕ
hashes_from by_number first zero m = m
hashes_from by_number first (suc n) m =
    hashes_from by_number (suc first) n (note first (get first by_number) m)

unfoldable pub recent_block_hashes : BlockIndex → ℕ → Map ℕ
unfolding hashes_from
recent_block_hashes idx head =
    let depth = min head 256 in hashes_from idx.blocks_by_number (head - depth) depth []
