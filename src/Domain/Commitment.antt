-- ===== src/Domain/Commitment.antt =====
-- crates/node/domain/src/commitment.rs: state deltas and their encoding.
-- A `BTreeMap` is a list in key order.
pub mod RoundTrip
pub mod Limits
use kora.Base.{ℕ, zero, suc, ◌+◌, ◌*◌, Bool, List, [], ◌∷◌, ◌++◌, length, sum_by, Map, put, ◌==◌}
use kora.Domain.Codec.{Codec, Reader, Result, ok, next, write_field, read_field}

pub record StateChangesCfg : Type 0 where
  pub max_accounts : ℕ
  pub max_storage_slots : ℕ

pub record AccountChange : Type 0 where
  pub touched : Bool
  pub created : Bool
  pub selfdestructed : Bool
  pub nonce : ℕ
  pub balance : ℕ
  pub code_hash : ℕ
  pub storage : Map ℕ

pub record StateChanges : Type 0 where
  pub accounts : Map AccountChange

unfoldable pub is_empty : StateChanges → Bool
is_empty s = length s.accounts == 0

-- The loop that writes the entries of a map.
unfoldable pub write_entries : {V : Type 0} → (ℕ → List ℕ) → (V → List ℕ) → Map V → List ℕ
write_entries write_key write_value [] = []
write_entries write_key write_value ((k, v) ∷ m) =
    write_key k ++ (write_value v ++ write_entries write_key write_value m)

-- The loop that reads n entries into a map.
unfoldable pub read_entries : {V : Type 0} → Reader ℕ → Reader V → ℕ → Map V → Reader (Map V)
read_entries read_key read_value zero m buf = ok (m, buf)
read_entries read_key read_value (suc n) m buf =
    next (read_key buf)
      (λ k buf. next (read_value buf) (λ v buf. read_entries read_key read_value n (put k v m) buf))

module _ (c : Codec) where
  unfoldable pub write_account : AccountChange → List ℕ
  unfolding write_field write_entries
  write_account a =
      c.write_bool a.touched
      ++ (c.write_bool a.created
          ++ (c.write_bool a.selfdestructed
              ++ (c.write_u64 a.nonce
                  ++ (write_field 32 a.balance
                      ++ (write_field 32 a.code_hash
                          ++ (c.write_len (length a.storage)
                              ++ write_entries (write_field 32) (write_field 32) a.storage))))))

  unfoldable pub account_size : AccountChange → ℕ
  account_size a =
      c.size_bool a.touched
      + c.size_bool a.created
      + c.size_bool a.selfdestructed
      + c.size_u64 a.nonce
      + 32
      + 32
      + c.size_len (length a.storage)
      + length a.storage * 64

  unfoldable pub read_account : StateChangesCfg → Reader AccountChange
  unfolding read_field read_entries
  read_account cfg buf = next (c.read_bool buf) (λ touched buf.
      next (c.read_bool buf) (λ created buf. next (c.read_bool buf) (λ selfdestructed buf.
        next (c.read_u64 buf) (λ nonce buf. next (read_field 32 buf) (λ balance buf.
          next (read_field 32 buf) (λ code_hash buf.
            next (c.read_len cfg.max_storage_slots buf) (λ slots buf.
              next (read_entries (read_field 32) (read_field 32) slots [] buf) (λ storage buf. ok (
                record {
                  touched = touched;
                  created = created;
                  selfdestructed = selfdestructed;
                  nonce = nonce;
                  balance = balance;
                  code_hash = code_hash;
                  storage = storage;
                },
                buf,
              )))))))))

  unfoldable pub write : StateChanges → List ℕ
  unfolding write_account write_entries write_field
  write s =
      c.write_len (length s.accounts) ++ write_entries (write_field 20) write_account s.accounts

  unfoldable pub encode_size : StateChanges → ℕ
  unfolding account_size
  encode_size s = c.size_len (length s.accounts) + sum_by (λ e. 20 + account_size e.1) s.accounts

  unfoldable pub read_cfg : StateChangesCfg → Reader StateChanges
  unfolding read_account read_entries read_field
  read_cfg cfg buf = next (c.read_len cfg.max_accounts buf) (λ accounts buf.
      next (read_entries (read_field 20) (read_account cfg) accounts [] buf)
        (λ map buf. ok (record { accounts = map }, buf)))
