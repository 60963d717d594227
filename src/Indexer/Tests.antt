-- ===== src/Indexer/Tests.antt =====
-- Runs of the index at concrete blocks.
use kora.Base.{ℕ, true, [], ◌∷◌, none, some, get}
use kora.Indexer.{
  BlockIndex, IndexedBlock, IndexedLog, IndexedReceipt, LogFilter, new, insert_block, prune_before,
  get_logs, recent_block_hashes,
}
use kora.Indexer.Logs.{In, Answers, get_logs-Answers}
use kora.Indexer.Prune.{IsLinked, Inserts, Prunes, insert_block-Inserts, prune_before-Prunes}
use kora.Indexer.Recent.{Window, recent_block_hashes-Window}

abbrev block : ℕ → ℕ → IndexedBlock
block hash number = record {
  hash = hash;
  number = number;
  parent_hash = 0;
  state_root = 0;
  transactions_root = 0;
  receipts_root = 0;
  timestamp = 1000;
  gas_limit = 30000000;
  gas_used = 21000;
  base_fee_per_gas = some 1000000000;
  mix_hash = 0;
  logs_bloom = 0;
  size = 508;
  transaction_hashes = [];
}

abbrev log : IndexedLog
log = record {
  address = 5;
  topics = 8 ∷ [];
  bytes = [];
  log_index = 0;
  block_number = 1;
  block_hash = 70;
  transaction_hash = 30;
  transaction_index = 0;
}

abbrev receipt : IndexedReceipt
receipt = record {
  transaction_hash = 30;
  block_hash = 70;
  block_number = 1;
  transaction_index = 0;
  sender = 2;
  recipient = none;
  cumulative_gas_used = 21000;
  gas_used = 21000;
  contract_address = none;
  logs = log ∷ [];
  logs_bloom = 0;
  tx_type = 0;
  effective_gas_price = 1;
  status = true;
}

abbrev one : BlockIndex
one = insert_block new (block 70 1) [] (receipt ∷ [])

abbrev filter : LogFilter
filter = record {
  from_block = none;
  to_block = none;
  address = some (5 ∷ []);
  topics = some (8 ∷ 9 ∷ []) ∷ none ∷ none ∷ none ∷ [];
}

new-IsLinked : IsLinked new
unfolding new get
new-IsLinked = record { sorted = tt; linked = λ n h e. cc }

one-Inserts : Inserts new (block 70 1) one
unfolding new get
one-Inserts = insert_block-Inserts new (block 70 1) [] (receipt ∷ []) new-IsLinked (λ b e. cc)

get_logs-Answers_example :
    (In log (get_logs one filter) → Answers one filter log)
    × (Answers one filter log → In log (get_logs one filter))
get_logs-Answers_example = get_logs-Answers one filter log

prune_before-Prunes_example : Prunes one 2 (prune_before one 2)
prune_before-Prunes_example = prune_before-Prunes one 2 one-Inserts.consistent

recent_block_hashes-Window_example : Window one 2 (recent_block_hashes one 2)
recent_block_hashes-Window_example = recent_block_hashes-Window one 2
