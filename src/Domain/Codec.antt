-- ===== src/Domain/Codec.antt =====
-- The commonware codec library as a parameter, and the fixed fields of crates/node/domain/src/idents.rs.
-- A buffer is the list of its bytes: a write appends, a read takes from the front.
pub mod Laws
use kora.Base.{ℕ, Bool, List, [], ◌++◌, ltb, if◌then◌else◌, length, take, drop}
use kora.Qmdb.Encoding.{to_be_bytes, from_be}

pub data CodecError : Type 0 where
  end_of_buffer invalid_length invalid_value : CodecError

pub data Result {ℓ} (A : Type ℓ) : Type ℓ where
  ok : A → Result A
  err : CodecError → Result A

abbrev pub Reader : Type 0 → Type 0
Reader A = List ℕ → Result (A × List ℕ)

-- The operator `?`: the value and the rest of the buffer go on.
abbrev pub next : {A B : Type 0} → Result (A × List ℕ) → (A → List ℕ → Result B) → Result B
next (ok (a, rest)) k = k a rest
next (err e) k = err e

-- The library's own encodings: of a byte, a Boolean, a u64, a length, and a sequence. A length is
-- read up to a maximum.
pub record Codec : Type 1 where
  pub write_u8 : ℕ → List ℕ
  pub read_u8 : Reader ℕ
  pub size_u8 : ℕ → ℕ
  pub write_bool : Bool → List ℕ
  pub read_bool : Reader Bool
  pub size_bool : Bool → ℕ
  pub write_u64 : ℕ → List ℕ
  pub read_u64 : Reader ℕ
  pub size_u64 : ℕ → ℕ
  pub write_len : ℕ → List ℕ
  pub read_len : ℕ → Reader ℕ
  pub size_len : ℕ → ℕ
  pub write_vec : {A : Type 0} → (A → List ℕ) → List A → List ℕ
  pub read_vec : {A : Type 0} → ℕ → Reader A → Reader (List A)
  pub size_vec : {A : Type 0} → (A → ℕ) → List A → ℕ

-- A field of w bytes in big-endian order: `write_b256` and `read_b256` of `Idents`, and the
-- fields of commitment.rs.
unfoldable pub write_field : ℕ → ℕ → List ℕ
write_field w n = to_be_bytes w n

unfoldable pub read_field : ℕ → Reader ℕ
read_field w buf =
    if ltb (length buf) w then err end_of_buffer else ok (from_be 0 (take w buf), drop w buf)
