-- ===== src/Domain/Tests.antt =====
-- A codec of the documented kind, and runs of the encodings with it.
use kora.Base.{
  ℕ, zero, suc, ◌+◌, ◌^◌, ◌≤◌, ◌<◌, ◌≡◌, refl, ap, ◌∙◌, Bool, true, false, List, [], ◌∷◌, ◌++◌,
  append_assoc, arith, leb, if◌then◌else◌, length, length-append, All, sum_by,
}
use kora.Domain.Codec.{
  Codec, Reader, Result, ok, err, end_of_buffer, invalid_length, invalid_value, next, write_field,
  read_field,
}
use kora.Domain.Codec.Laws.{IsCodec, ReadsBack, field_back, field_size, next_back}
use kora.Domain.Tx.{Tx}
use kora.Domain.Block.{Block, BlockCfg, write, encode_size, read_cfg}
use kora.Domain.Block.RoundTrip.{read_cfg-write, read_cfg_refused}
use kora.Domain.Commitment.{AccountChange, StateChanges, StateChangesCfg}
use kora.Domain.Commitment
use kora.Domain.Commitment.RoundTrip.{ChangesFit, changes_back}
use kora.Domain.Commitment.Limits.{KeepsLimits, read_cfg-KeepsLimits}

abbrev pub put_byte : ℕ → List ℕ
put_byte b = b ∷ []

abbrev pub take_byte : Reader ℕ
take_byte [] = err end_of_buffer
take_byte (b ∷ bs) = ok (b, bs)

abbrev pub put_bool : Bool → List ℕ
put_bool true = 1 ∷ []
put_bool false = 0 ∷ []

abbrev pub take_bool : Reader Bool
take_bool [] = err end_of_buffer
take_bool (zero ∷ bs) = ok (false, bs)
take_bool (suc zero ∷ bs) = ok (true, bs)
take_bool (suc (suc b) ∷ bs) = err invalid_value

abbrev pub up_to : ℕ → ℕ → List ℕ → Result (ℕ × List ℕ)
up_to max n rest = if leb n max then ok (n, rest) else err invalid_length

abbrev pub take_len : ℕ → Reader ℕ
take_len max buf = next (read_field 4 buf) (up_to max)

abbrev pub put_all : {A : Type 0} → (A → List ℕ) → List A → List ℕ
put_all write [] = []
put_all write (x ∷ xs) = write x ++ put_all write xs

abbrev pub take_all : {A : Type 0} → Reader A → ℕ → Reader (List A)
take_all read zero buf = ok ([], buf)
take_all read (suc n) buf =
    next (read buf) (λ x buf. next (take_all read n buf) (λ xs buf. ok (x ∷ xs, buf)))

abbrev pub codec : Codec
codec = record {
  write_u8 = put_byte;
  read_u8 = take_byte;
  size_u8 = λ b. 1;
  write_bool = put_bool;
  read_bool = take_bool;
  size_bool = λ b. 1;
  write_u64 = write_field 8;
  read_u64 = read_field 8;
  size_u64 = λ n. 8;
  write_len = write_field 4;
  read_len = take_len;
  size_len = λ n. 4;
  write_vec = λ write xs. write_field 4 (length xs) ++ put_all write xs;
  read_vec = λ max read buf. next (take_len max buf) (take_all read);
  size_vec = λ size xs. 4 + sum_by size xs;
}

bool_read : (b : Bool) → ReadsBack put_bool take_bool b
bool_read true rest = refl
bool_read false rest = refl

bool_length : (b : Bool) → length (put_bool b) ≡ 1
bool_length true = refl
bool_length false = refl

le→leb : (a b : ℕ) → a ≤ b → leb a b ≡ true
le→leb a b h = ground (arith, h)

lt→leb : (a b : ℕ) → b < a → leb a b ≡ false
lt→leb a b h = ground (arith, h)

len_read :
    (max n : ℕ)
    → n < 2 ^ 32
    → (rest : List ℕ) → take_len max (write_field 4 n ++ rest) ≡ up_to max n rest
len_read max n h rest = ap (λ r. next r (up_to max)) (field_back 4 n h rest)

all_read :
    {A : Type 0} (write : A → List ℕ) (read : Reader A) (xs : List A)
    → All (ReadsBack write read) xs
    → (rest : List ℕ) → take_all read (length xs) (put_all write xs ++ rest) ≡ ok (xs, rest)
all_read write read [] h rest = refl
all_read write read (x ∷ xs) h rest =
    next_back write read x _ rest _ h.0
    ∙ ap (λ r. next r (λ xs buf. ok (x ∷ xs, buf))) (all_read write read xs h.1 rest)

all_length :
    {A : Type 0} (write : A → List ℕ) (size : A → ℕ) (xs : List A)
    → All (λ x. length (write x) ≡ size x) xs
    → length (put_all write xs) ≡ sum_by size xs
all_length write size [] h = refl
all_length write size (x ∷ xs) h =
    omega (arith, length-append (write x) (put_all write xs), h.0, all_length write size xs h.1)

len_within :
    (max : ℕ) (r : Result (ℕ × List ℕ)) (n : ℕ) (rest : List ℕ)
    → next r (up_to max) ≡ ok (n, rest)
    → n ≤ max
len_within max (ok (m, more)) n rest e = ground (arith, e)
len_within max (err x) n rest e = cc

module _ {A : Type 0} (write : A → List ℕ) (read : Reader A) (max : ℕ) (xs : List A)
    (rest : List ℕ) where
  start :
      length xs < 2 ^ 32
      → codec.read_vec max read (codec.write_vec write xs ++ rest)
        ≡ next (up_to max (length xs) (put_all write xs ++ rest)) (take_all read)
  start k =
      ap (λ buf. next (take_len max buf) (take_all read))
        (append_assoc (write_field 4 (length xs)) (put_all write xs) rest)
      ∙ ap (λ r. next r (take_all read)) (len_read max (length xs) (omega arith) _)

  vec_read :
      length xs ≤ max
      → length xs < 2 ^ 32
      → All (ReadsBack write read) xs
      → codec.read_vec max read (codec.write_vec write xs ++ rest) ≡ ok (xs, rest)
  vec_read h k all = start k ∙ (rw (le→leb (length xs) max h) (all_read write read xs all rest))

  vec_unread :
      max < length xs
      → length xs < 2 ^ 32
      → codec.read_vec max read (codec.write_vec write xs ++ rest) ≡ err invalid_length
  vec_unread h k = start k ∙ (rw (lt→leb (length xs) max h) refl)

codec-IsCodec : IsCodec codec
codec-IsCodec = record {
  u8_back = λ b h rest. refl;
  u8_size = λ b. refl;
  bool_back = bool_read;
  bool_size = bool_length;
  u64_back = λ n h. field_back 8 n (omega arith);
  u64_size = λ n. field_size 8 n;
  len_back = λ max n h k rest. len_read max n (omega arith) rest ∙ (ground (arith, h));
  len_size = λ n. field_size 4 n;
  len_bound = λ max n buf rest e. len_within max (read_field 4 buf) n rest e;
  len_refused = λ max n rest h k. len_read max n (omega arith) rest ∙ (ground (arith, h));
  vec_back = λ write read max xs h k all rest. vec_read write read max xs rest h k all;
  vec_size = λ write size xs h. ground (
    arith,
    length-append (write_field 4 (length xs)) (put_all write xs),
    field_size 4 (length xs),
    all_length write size xs h,
  );
  vec_refused = λ write read max xs rest h k. vec_unread write read max xs rest h k;
}

abbrev cfg : BlockCfg
cfg = record { max_txs = 1; tx = record { max_tx_bytes = 3 } }

abbrev tx : Tx
tx = record { bytes = 222 ∷ 173 ∷ [] }

abbrev header : List Tx → Block
header txs = record {
  parent = 7;
  height = 42;
  timestamp = 1700000042;
  prevrandao = 9;
  state_root = 11;
  txs = txs;
}

read_cfg-write_example :
    (length (write codec (header (tx ∷ []))) ≡ encode_size codec (header (tx ∷ [])))
    × ReadsBack (write codec) (read_cfg codec cfg) (header (tx ∷ []))
read_cfg-write_example = read_cfg-write codec codec-IsCodec cfg (header (tx ∷ [])) (record {
  header = omega arith;
  few = omega arith;
  counted = omega arith;
  txs_fit = omega arith;
})

read_cfg_refused_example :
    read_cfg codec cfg (write codec (header (tx ∷ tx ∷ [])) ++ []) ≡ err invalid_length
read_cfg_refused_example =
    read_cfg_refused codec codec-IsCodec cfg (header (tx ∷ tx ∷ [])) [] (omega arith) (omega arith)
      (omega arith)

abbrev limits : StateChangesCfg
limits = record { max_accounts = 2; max_storage_slots = 2 }

abbrev account : AccountChange
account = record {
  touched = true;
  created = false;
  selfdestructed = false;
  nonce = 5;
  balance = 1000;
  code_hash = 77;
  storage = (1, 10) ∷ (2, 20) ∷ [];
}

abbrev delta : StateChanges
delta = record { accounts = (3, account) ∷ (4, account) ∷ [] }

delta-ChangesFit : ChangesFit limits delta
delta-ChangesFit = omega arith

changes_back_example :
    (length (Commitment.write codec delta) ≡ Commitment.encode_size codec delta)
    × ReadsBack (Commitment.write codec) (Commitment.read_cfg codec limits) delta
changes_back_example = changes_back codec codec-IsCodec limits delta delta-ChangesFit

-- The bytes of the delta, decoded.
read_delta : Commitment.read_cfg codec limits (Commitment.write codec delta ++ []) ≡ ok (delta, [])
read_delta = (changes_back codec codec-IsCodec limits delta delta-ChangesFit).1 []

read_cfg-KeepsLimits_example : KeepsLimits limits delta
read_cfg-KeepsLimits_example =
    read_cfg-KeepsLimits codec codec-IsCodec limits (Commitment.write codec delta ++ []) [] delta
      read_delta
