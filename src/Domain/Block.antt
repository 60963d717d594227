-- ===== src/Domain/Block.antt =====
-- crates/node/domain/src/block.rs: blocks, their identifiers and their encoding.
-- The cache of the identifier holds what it would compute, and is left out.
pub mod RoundTrip
use kora.Base.{ℕ, ◌+◌, List, ◌++◌, Option, some, ltb, if◌then◌else◌}
use kora.Domain.Codec.{Codec, Reader, Result, ok, next, write_field, read_field}
use kora.Domain.Tx.{Tx, TxCfg}
use kora.Domain.Tx

pub record BlockCfg : Type 0 where
  pub max_txs : ℕ
  pub tx : TxCfg

pub record Block : Type 0 where
  pub parent : ℕ
  pub height : ℕ
  pub timestamp : ℕ
  pub prevrandao : ℕ
  pub state_root : ℕ
  pub txs : List Tx

-- The greater of the clock and the parent's timestamp.
unfoldable pub next_timestamp : ℕ → ℕ → Option ℕ
next_timestamp now_secs parent_timestamp =
    if ltb parent_timestamp now_secs then some now_secs else some parent_timestamp

module _ (c : Codec) where
  unfoldable pub write : Block → List ℕ
  unfolding write_field Tx.write
  write b =
      write_field 32 b.parent
      ++ (c.write_u64 b.height
          ++ (c.write_u64 b.timestamp
              ++ (write_field 32 b.prevrandao
                  ++ (write_field 32 b.state_root ++ c.write_vec (Tx.write c) b.txs))))

  unfoldable pub encode_size : Block → ℕ
  unfolding Tx.encode_size
  encode_size b =
      32
      + c.size_u64 b.height
      + c.size_u64 b.timestamp
      + 32
      + 32
      + c.size_vec (Tx.encode_size c) b.txs

  unfoldable pub read_cfg : BlockCfg → Reader Block
  unfolding read_field Tx.read_cfg
  read_cfg cfg buf = next (read_field 32 buf) (λ parent buf. next (c.read_u64 buf) (λ height buf.
      next (c.read_u64 buf) (λ timestamp buf. next (read_field 32 buf) (λ prevrandao buf.
        next (read_field 32 buf) (λ state_root buf.
          next (c.read_vec cfg.max_txs (Tx.read_cfg c cfg.tx) buf) (λ txs buf. ok (
            record {
              parent = parent;
              height = height;
              timestamp = timestamp;
              prevrandao = prevrandao;
              state_root = state_root;
              txs = txs;
            },
            buf,
          )))))))

-- Both hash functions are third-party.
module _ (c : Codec) (keccak256 sha256 : List ℕ → ℕ) where
  unfoldable pub id : Block → ℕ
  unfolding write
  id b = keccak256 (write c b)

  unfoldable pub digest_for_block_id : ℕ → ℕ
  unfolding write_field
  digest_for_block_id id = sha256 (write_field 32 id)

  -- `digest` and `commitment` are the same; `parent_digest` is the digest of the parent's identifier.
  unfoldable pub digest : Block → ℕ
  unfolding digest_for_block_id id
  digest b = digest_for_block_id (id b)

  unfoldable pub parent_digest : Block → ℕ
  unfolding digest_for_block_id
  parent_digest b = digest_for_block_id b.parent
