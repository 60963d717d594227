-- ===== src/Domain/Codec/Laws.antt =====
-- What the codec library documents, and the round trip of a field.
use kora.Base.{
  ℕ, ◌^◌, ◌≤◌, ◌<◌, ◌≡◌, refl, ap, sym, ◌∙◌, Bool, false, List, [], ◌∷◌, ◌++◌, append_assoc, arith,
  ltb, length, length-append, take, drop, All,
}
use kora.Qmdb.Encoding.{to_be_bytes}
use kora.Qmdb.Encoding.RoundTrip.{length-to_be_bytes, from_be-to_be_bytes, take_first}
use kora.Domain.Codec.{
  Codec, Result, Reader, ok, err, next, invalid_length, write_field, read_field,
}

-- What is written is read back, whatever follows it.
abbrev pub ReadsBack : {A : Type 0} → (A → List ℕ) → Reader A → A → Type 0
ReadsBack write read a = (rest : List ℕ) → read (write a ++ rest) ≡ ok (a, rest)

-- The documented behaviour of the library: values are read back, a length or a sequence within the
-- maximum, and a longer one is refused; sizes are the lengths of the encodings.
pub record IsCodec (c : Codec) : Type 1 where
  pub u8_back : (b : ℕ) → b < 256 → ReadsBack c.write_u8 c.read_u8 b
  pub u8_size : (b : ℕ) → length (c.write_u8 b) ≡ c.size_u8 b
  pub bool_back : (b : Bool) → ReadsBack c.write_bool c.read_bool b
  pub bool_size : (b : Bool) → length (c.write_bool b) ≡ c.size_bool b
  pub u64_back : (n : ℕ) → n < 2 ^ 64 → ReadsBack c.write_u64 c.read_u64 n
  pub u64_size : (n : ℕ) → length (c.write_u64 n) ≡ c.size_u64 n
  pub len_back : (max n : ℕ) → n ≤ max → n < 2 ^ 32 → ReadsBack c.write_len (c.read_len max) n
  pub len_size : (n : ℕ) → length (c.write_len n) ≡ c.size_len n
  pub len_bound : (max n : ℕ) (buf rest : List ℕ) → c.read_len max buf ≡ ok (n, rest) → n ≤ max
  pub len_refused :
      (max n : ℕ) (rest : List ℕ)
      → max < n
      → n < 2 ^ 32
      → c.read_len max (c.write_len n ++ rest) ≡ err invalid_length
  pub vec_back :
      {A : Type 0} (write : A → List ℕ) (read : Reader A) (max : ℕ) (xs : List A)
      → length xs ≤ max
      → length xs < 2 ^ 32
      → All (ReadsBack write read) xs
      → ReadsBack (c.write_vec write) (c.read_vec max read) xs
  pub vec_size :
      {A : Type 0} (write : A → List ℕ) (size : A → ℕ) (xs : List A)
      → All (λ x. length (write x) ≡ size x) xs
      → length (c.write_vec write xs) ≡ c.size_vec size xs
  pub vec_refused :
      {A : Type 0} (write : A → List ℕ) (read : Reader A) (max : ℕ) (xs : List A) (rest : List ℕ)
      → max < length xs
      → length xs < 2 ^ 32
      → c.read_vec max read (c.write_vec write xs ++ rest) ≡ err invalid_length

drop_written : (xs ys : List ℕ) → drop (length xs) (xs ++ ys) ≡ ys
drop_written [] ys = refl
drop_written (x ∷ xs) ys = drop_written xs ys

pub field_back : (w n : ℕ) → n < 256 ^ w → ReadsBack (write_field w) (read_field w) n
unfolding write_field read_field
field_back w n h rest =
    let bytes = to_be_bytes w n in
    let size = length-to_be_bytes w n in
    let long : ltb (length (bytes ++ rest)) w ≡ false =
      ground (arith, length-append bytes rest, size) in
    let taken : take w (bytes ++ rest) ≡ bytes =
      ap (λ k. take k (bytes ++ rest)) (sym size) ∙ take_first bytes rest in
    let dropped : drop w (bytes ++ rest) ≡ rest =
      ap (λ k. drop k (bytes ++ rest)) (sym size) ∙ drop_written bytes rest in
    rw (long, taken, dropped, from_be-to_be_bytes w n h) refl

pub field_size : (w n : ℕ) → length (write_field w n) ≡ w
unfolding write_field
field_size w n = length-to_be_bytes w n

-- A read at the front of what was written goes on with the rest.
pub next_back :
    {A B : Type 0} (write : A → List ℕ) (read : Reader A) (a : A) (tail rest : List ℕ)
    (k : A → List ℕ → Result B)
    → ReadsBack write read a
    → next (read ((write a ++ tail) ++ rest)) k ≡ k a (tail ++ rest)
next_back write read a tail rest k h =
    ap (λ buf. next (read buf) k) (append_assoc (write a) tail rest)
    ∙ ap (λ r. next r k) (h (tail ++ rest))
