-- ===== src/Domain/Tx.antt =====
-- crates/node/domain/src/tx.rs: raw transactions and their encoding.
use kora.Base.{ℕ, ◌^◌, ◌≤◌, ◌<◌, ◌≡◌, List, length, All, All-imp, All-every, refl}
use kora.Domain.Codec.{Codec, Reader, ok, next}
use kora.Domain.Codec.Laws.{IsCodec, ReadsBack}

pub record TxCfg : Type 0 where
  pub max_tx_bytes : ℕ

-- The bytes of a signed envelope.
pub record Tx : Type 0 where
  pub bytes : List ℕ

module _ (c : Codec) where
  unfoldable pub write : Tx → List ℕ
  write tx = c.write_vec c.write_u8 tx.bytes

  unfoldable pub encode_size : Tx → ℕ
  encode_size tx = c.size_vec c.size_u8 tx.bytes

  unfoldable pub read_cfg : TxCfg → Reader Tx
  read_cfg cfg buf =
      next (c.read_vec cfg.max_tx_bytes c.read_u8 buf)
        (λ bytes rest. ok (record { bytes = bytes }, rest))

-- The hash of the encoding identifies a transaction; the hash function is third-party.
module _ (c : Codec) (keccak256 : List ℕ → ℕ) where
  unfoldable pub id : Tx → ℕ
  unfolding write
  id tx = keccak256 (write c tx)

-- A transaction within the limits: bytes, no more than the maximum.
pub record TxFits (cfg : TxCfg) (tx : Tx) : Type 0 where
  pub short : length tx.bytes ≤ cfg.max_tx_bytes
  pub counted : length tx.bytes < 2 ^ 32
  pub all_bytes : All (λ b. b < 256) tx.bytes

module _ (c : Codec) (laws : IsCodec c) where
  pub tx_back : (cfg : TxCfg) (tx : Tx) → TxFits cfg tx → ReadsBack (write c) (read_cfg c cfg) tx
  unfolding write read_cfg
  tx_back cfg tx f rest =
      rw
        (laws.vec_back c.write_u8 c.read_u8 cfg.max_tx_bytes tx.bytes f.short f.counted
          (All-imp laws.u8_back tx.bytes f.all_bytes) rest)
        refl

  pub tx_size : (tx : Tx) → length (write c tx) ≡ encode_size c tx
  unfolding write encode_size
  tx_size tx = laws.vec_size c.write_u8 c.size_u8 tx.bytes (All-every laws.u8_size tx.bytes)
