-- ===== src/TxPool/Config.antt =====
-- crates/node/txpool/src/config.rs: the limits of the pool.
use kora.Base.{ℕ, ◌*◌}

pub record PoolConfig : Type 0 where
  pub max_pending_txs : ℕ
  pub max_queued_txs : ℕ
  pub max_txs_per_sender : ℕ
  pub max_tx_size : ℕ
  pub min_gas_price : ℕ
  pub replacement_bump_percent : ℕ
  pub pending_ttl_secs : ℕ
  pub queued_ttl_secs : ℕ

-- `PoolConfig::new`, which `default` repeats.
abbrev pub default : PoolConfig
default = record {
  max_pending_txs = 4096;
  max_queued_txs = 1024;
  max_txs_per_sender = 256;
  max_tx_size = 128 * 1024;
  min_gas_price = 1_000_000_000;
  replacement_bump_percent = 10;
  pending_ttl_secs = 30 * 60;
  queued_ttl_secs = 60 * 60;
}

abbrev pub with_max_pending_txs : PoolConfig → ℕ → PoolConfig
with_max_pending_txs config value = record config { max_pending_txs = value }

abbrev pub with_max_queued_txs : PoolConfig → ℕ → PoolConfig
with_max_queued_txs config value = record config { max_queued_txs = value }

abbrev pub with_max_txs_per_sender : PoolConfig → ℕ → PoolConfig
with_max_txs_per_sender config value = record config { max_txs_per_sender = value }

abbrev pub with_max_tx_size : PoolConfig → ℕ → PoolConfig
with_max_tx_size config value = record config { max_tx_size = value }

abbrev pub with_min_gas_price : PoolConfig → ℕ → PoolConfig
with_min_gas_price config value = record config { min_gas_price = value }

abbrev pub with_replacement_bump_percent : PoolConfig → ℕ → PoolConfig
with_replacement_bump_percent config value = record config { replacement_bump_percent = value }

abbrev pub with_pending_ttl_secs : PoolConfig → ℕ → PoolConfig
with_pending_ttl_secs config value = record config { pending_ttl_secs = value }

abbrev pub with_queued_ttl_secs : PoolConfig → ℕ → PoolConfig
with_queued_ttl_secs config value = record config { queued_ttl_secs = value }
