-- ===== src/Domain/Block/RoundTrip.antt =====
-- The encoding of blocks: what is written is read back, and a block over the limit is refused.
use kora.Base.{
  ℕ, ◌^◌, ◌≤◌, ◌<◌, ◌≡◌, ap, ◌∙◌, List, ◌++◌, arith, length, length-append, All, All-imp, All-every,
}
use kora.Domain.Codec.{Codec, Result, ok, err, invalid_length, next, write_field, read_field}
use kora.Domain.Codec.Laws.{IsCodec, ReadsBack, field_back, field_size, next_back}
use kora.Domain.Tx.{Tx, TxFits, tx_back, tx_size}
use kora.Domain.Tx
use kora.Domain.Block.{Block, BlockCfg, write, encode_size, read_cfg}

-- The fields within their widths.
pub record HeaderFits (b : Block) : Type 0 where
  pub parent_fits : b.parent < 256 ^ 32
  pub height_fits : b.height < 2 ^ 64
  pub timestamp_fits : b.timestamp < 2 ^ 64
  pub prevrandao_fits : b.prevrandao < 256 ^ 32
  pub state_root_fits : b.state_root < 256 ^ 32

pub record BlockFits (cfg : BlockCfg) (b : Block) : Type 0 where
  pub header : HeaderFits b
  pub few : length b.txs ≤ cfg.max_txs
  pub counted : length b.txs < 2 ^ 32
  pub txs_fit : All (TxFits cfg.tx) b.txs

module _ (c : Codec) (laws : IsCodec c) where
  -- The transactions' part is what is left after the header.
  txs_part : BlockCfg → Block → List ℕ → Result (Block × List ℕ)
  txs_part cfg b buf =
      next (c.read_vec cfg.max_txs (Tx.read_cfg c cfg.tx) buf)
        (λ txs buf. ok (record b { txs = txs }, buf))

  header_back :
      (cfg : BlockCfg) (b : Block) (rest : List ℕ)
      → HeaderFits b
      → read_cfg c cfg (write c b ++ rest) ≡ txs_part cfg b (c.write_vec (Tx.write c) b.txs ++ rest)
  unfolding write read_cfg txs_part
  header_back cfg b rest f =
      next_back (write_field 32) (read_field 32) b.parent _ rest _
        (field_back 32 b.parent f.parent_fits)
      ∙ next_back c.write_u64 c.read_u64 b.height _ rest _ (laws.u64_back b.height f.height_fits)
      ∙ next_back c.write_u64 c.read_u64 b.timestamp _ rest _
          (laws.u64_back b.timestamp f.timestamp_fits)
      ∙ next_back (write_field 32) (read_field 32) b.prevrandao _ rest _
          (field_back 32 b.prevrandao f.prevrandao_fits)
      ∙ next_back (write_field 32) (read_field 32) b.state_root _ rest _
          (field_back 32 b.state_root f.state_root_fits)

  length-write : (b : Block) → length (write c b) ≡ encode_size c b
  unfolding write encode_size
  length-write b =
      let e = c.write_vec (Tx.write c) b.txs in
      let d = write_field 32 b.state_root ++ e in
      let p = write_field 32 b.prevrandao ++ d in
      let t = c.write_u64 b.timestamp ++ p in
      let h = c.write_u64 b.height ++ t in
      omega (
        arith,
        length-append (write_field 32 b.parent) h,
        length-append (c.write_u64 b.height) t,
        length-append (c.write_u64 b.timestamp) p,
        length-append (write_field 32 b.prevrandao) d,
        length-append (write_field 32 b.state_root) e,
        field_size 32 b.parent,
        field_size 32 b.prevrandao,
        field_size 32 b.state_root,
        laws.u64_size b.height,
        laws.u64_size b.timestamp,
        laws.vec_size (Tx.write c) (Tx.encode_size c) b.txs (All-every (tx_size c laws) b.txs),
      )

  -- A block whose fields fit, with no more transactions than the limit and each within its own, is
  -- read back from its encoding, whatever follows it, and the encoding has the size that is said.
  pub read_cfg-write :
      (cfg : BlockCfg) (b : Block)
      → BlockFits cfg b
      → (length (write c b) ≡ encode_size c b) × ReadsBack (write c) (read_cfg c cfg) b
  unfolding txs_part
  read_cfg-write cfg b f = (
    length-write b,
    λ rest.
        header_back cfg b rest f.header
        ∙ ap (λ r. next r (λ txs buf. ok (record b { txs = txs }, buf)))
            (laws.vec_back (Tx.write c) (Tx.read_cfg c cfg.tx) cfg.max_txs b.txs f.few f.counted
              (All-imp (tx_back c laws cfg.tx) b.txs f.txs_fit) rest),
  )

  -- A block with more transactions than the limit is refused for its length.
  pub read_cfg_refused :
      (cfg : BlockCfg) (b : Block) (rest : List ℕ)
      → HeaderFits b
      → cfg.max_txs < length b.txs
      → length b.txs < 2 ^ 32
      → read_cfg c cfg (write c b ++ rest) ≡ err invalid_length
  unfolding txs_part
  read_cfg_refused cfg b rest f many counted =
      header_back cfg b rest f
      ∙ ap (λ r. next r (λ txs buf. ok (record b { txs = txs }, buf)))
          (laws.vec_refused (Tx.write c) (Tx.read_cfg c cfg.tx) cfg.max_txs b.txs rest many counted)
