-- ===== src/Qmdb/Encoding.antt =====
-- crates/storage/qmdb/src/encoding.rs: the byte layouts of storage keys and accounts.
-- A byte array is a list of its length; an integer of w bytes is written in big-endian order.
pub mod RoundTrip
use kora.Base.{
  ℕ, zero, suc, ◌+◌, ◌*◌, ◌/◌, ◌%◌, Bool, ◌&&◌, List, [], ◌∷◌, ◌++◌, Option, none, some, ltb, ◌==◌,
  if◌then◌else◌, length, take, drop,
}

-- `to_be_bytes` and `from_be_bytes` (`from_be_slice`, `from_slice`) for w bytes.
unfoldable pub to_be_bytes : ℕ → ℕ → List ℕ
to_be_bytes zero n = []
to_be_bytes (suc w) n = to_be_bytes w (n / 256) ++ (n % 256) ∷ []

unfoldable pub from_be : ℕ → List ℕ → ℕ
from_be acc [] = acc
from_be acc (b ∷ bs) = from_be (acc * 256 + b) bs

-- `&bytes[lo..hi]`, for lo ≤ hi, as the length from lo.
abbrev pub slice : ℕ → ℕ → List ℕ → List ℕ
slice lo len bytes = take len (drop lo bytes)

pub record StorageKey : Type 0 where
  pub address : ℕ
  pub generation : ℕ
  pub slot : ℕ

unfoldable pub same_key : StorageKey → StorageKey → Bool
same_key a b = a.address == b.address && (a.generation == b.generation && a.slot == b.slot)

-- `StorageKey::to_bytes` and `from_bytes`: 20 + 8 + 32 bytes.
unfoldable pub key_to_bytes : StorageKey → List ℕ
key_to_bytes k = to_be_bytes 20 k.address ++ (to_be_bytes 8 k.generation ++ to_be_bytes 32 k.slot)

unfoldable pub key_from_bytes : List ℕ → StorageKey
key_from_bytes bytes = record {
  address = from_be 0 (slice 0 20 bytes);
  generation = from_be 0 (slice 20 8 bytes);
  slot = from_be 0 (slice 28 32 bytes);
}

-- `AccountEncoding::encode`: 8 + 32 + 32 + 8 bytes.
unfoldable pub encode : ℕ → ℕ → ℕ → ℕ → List ℕ
encode nonce balance code_hash generation =
    to_be_bytes 8 nonce
    ++ (to_be_bytes 32 balance ++ (to_be_bytes 32 code_hash ++ to_be_bytes 8 generation))

abbrev pub size : ℕ
size = 80

-- `AccountEncoding::decode`.
unfoldable pub decode : List ℕ → Option (ℕ × ℕ × ℕ × ℕ)
decode bytes =
    if ltb (length bytes) size
    then none
    else some (
      from_be 0 (slice 0 8 bytes),
      from_be 0 (slice 8 32 bytes),
      from_be 0 (slice 40 32 bytes),
      from_be 0 (slice 72 8 bytes),
    )
