-- ===== src/Qmdb/Encoding/RoundTrip.antt =====
-- Decoding undoes encoding, for values that fit their fields.
use native.Mathlib.Nat.{pow-suc, zero-add, suc-add}
use kora.Base.{
  ℕ, zero, suc, ◌+◌, ◌*◌, ◌/◌, ◌%◌, ◌^◌, ◌<◌, ◌≡◌, refl, ap, sym, ◌∙◌, List, [], ◌∷◌, ◌++◌, some,
  arith, length, take, drop, length-append,
}
use kora.Qmdb.Encoding.{
  to_be_bytes, from_be, slice, StorageKey, key_to_bytes, key_from_bytes, encode, decode,
}

pub length-to_be_bytes : (w n : ℕ) → length (to_be_bytes w n) ≡ w
unfolding to_be_bytes
length-to_be_bytes zero n = refl
length-to_be_bytes (suc w) n = omega (
  arith,
  length-append (to_be_bytes w (n / 256)) ((n % 256) ∷ []),
  length-to_be_bytes w (n / 256),
)

from_be-append : (acc b : ℕ) (bs : List ℕ) → from_be acc (bs ++ b ∷ []) ≡ from_be acc bs * 256 + b
unfolding from_be
from_be-append acc b [] = refl
from_be-append acc b (c ∷ bs) = from_be-append (acc * 256 + c) b bs

pub from_be-to_be_bytes : (w n : ℕ) → n < 256 ^ w → from_be 0 (to_be_bytes w n) ≡ n
unfolding to_be_bytes from_be
from_be-to_be_bytes zero n h = omega arith
from_be-to_be_bytes (suc w) n h =
    let small : n < 256 ^ w * 256 = rw (← pow-suc 256 w) h in
    from_be-append 0 (n % 256) (to_be_bytes w (n / 256))
    ∙ (rw (from_be-to_be_bytes w (n / 256) (omega arith)) (omega arith))

pub take_first : (xs ys : List ℕ) → take (length xs) (xs ++ ys) ≡ xs
take_first [] ys = refl
take_first (x ∷ xs) ys = ap (λ zs. x ∷ zs) (take_first xs ys)

take_all : (xs : List ℕ) → take (length xs) xs ≡ xs
take_all [] = refl
take_all (x ∷ xs) = ap (λ zs. x ∷ zs) (take_all xs)

drop_first : (n : ℕ) (xs ys : List ℕ) → drop (length xs + n) (xs ++ ys) ≡ drop n ys
drop_first n [] ys = rw zero-add refl
drop_first n (x ∷ xs) ys = rw (suc-add (length xs) n) (drop_first n xs ys)

-- The field of w bytes at the front, the last field, and a field behind the front.
field_first :
    (w n : ℕ) (ys : List ℕ) → n < 256 ^ w → from_be 0 (slice 0 w (to_be_bytes w n ++ ys)) ≡ n
field_first w n ys h =
    ap (from_be 0) (
      ap (λ k. take k (to_be_bytes w n ++ ys)) (sym (length-to_be_bytes w n))
      ∙ take_first (to_be_bytes w n) ys)
    ∙ from_be-to_be_bytes w n h

pub field_last : (w n : ℕ) → n < 256 ^ w → from_be 0 (slice 0 w (to_be_bytes w n)) ≡ n
field_last w n h =
    ap (from_be 0) (
      ap (λ k. take k (to_be_bytes w n)) (sym (length-to_be_bytes w n))
      ∙ take_all (to_be_bytes w n))
    ∙ from_be-to_be_bytes w n h

slice_behind :
    (w n lo len : ℕ) (ys : List ℕ) → slice (w + lo) len (to_be_bytes w n ++ ys) ≡ slice lo len ys
slice_behind w n lo len ys = ap (take len) (
    ap (λ k. drop (k + lo) (to_be_bytes w n ++ ys)) (sym (length-to_be_bytes w n))
    ∙ drop_first lo (to_be_bytes w n) ys)

-- The ranges of the fields: a 20-byte address, 64-bit numbers and 256-bit words.
pub record KeyFits (k : StorageKey) : Type 0 where
  pub address_fits : k.address < 256 ^ 20
  pub generation_fits : k.generation < 256 ^ 8
  pub slot_fits : k.slot < 256 ^ 32

-- A storage key whose fields fit is read back from its 60 bytes.
pub key_from_bytes-to_bytes :
    (k : StorageKey)
    → KeyFits k
    → (length (key_to_bytes k) ≡ 60) × (key_from_bytes (key_to_bytes k) ≡ k)
unfolding key_from_bytes key_to_bytes
key_from_bytes-to_bytes k f =
    let tail = to_be_bytes 8 k.generation ++ to_be_bytes 32 k.slot in
    let a = field_first 20 k.address tail f.address_fits in
    let g =
      ap (from_be 0) (slice_behind 20 k.address 0 8 tail)
      ∙ field_first 8 k.generation (to_be_bytes 32 k.slot) f.generation_fits in
    let s =
      ap (from_be 0) (
        slice_behind 20 k.address 8 32 tail
        ∙ slice_behind 8 k.generation 0 32 (to_be_bytes 32 k.slot))
      ∙ field_last 32 k.slot f.slot_fits in
    (
      omega (
        arith,
        length-append (to_be_bytes 20 k.address) tail,
        length-append (to_be_bytes 8 k.generation) (to_be_bytes 32 k.slot),
        length-to_be_bytes 20 k.address,
        length-to_be_bytes 8 k.generation,
        length-to_be_bytes 32 k.slot,
      ),
      λ i. record { address = a i; generation = g i; slot = s i },
    )

-- An account whose fields fit is read back from its 80 bytes.
pub decode-encode :
    (nonce balance code_hash generation : ℕ)
    → nonce < 256 ^ 8
    → balance < 256 ^ 32
    → code_hash < 256 ^ 32
    → generation < 256 ^ 8
    → (length (encode nonce balance code_hash generation) ≡ 80)
      × (decode (encode nonce balance code_hash generation)
          ≡ some (nonce, balance, code_hash, generation))
unfolding encode decode
decode-encode n b c g hn hb hc hg =
    let last = to_be_bytes 8 g in
    let back = to_be_bytes 32 c ++ last in
    let tail = to_be_bytes 32 b ++ back in
    let bytes = to_be_bytes 8 n ++ tail in
    let len : length bytes ≡ 80 = omega (
      arith,
      length-append (to_be_bytes 8 n) tail,
      length-append (to_be_bytes 32 b) back,
      length-append (to_be_bytes 32 c) last,
      length-to_be_bytes 8 n,
      length-to_be_bytes 32 b,
      length-to_be_bytes 32 c,
      length-to_be_bytes 8 g,
    ) in
    let en = field_first 8 n tail hn in
    let eb = ap (from_be 0) (slice_behind 8 n 0 32 tail) ∙ field_first 32 b back hb in
    let ec =
      ap (from_be 0) (slice_behind 8 n 32 32 tail ∙ slice_behind 32 b 0 32 back)
      ∙ field_first 32 c last hc in
    let eg =
      ap (from_be 0)
        (slice_behind 8 n 64 8 tail ∙ slice_behind 32 b 32 8 back ∙ slice_behind 32 c 0 8 last)
      ∙ field_last 8 g hg in
    (len, rw len (λ i. some (en i, eb i, ec i, eg i)))
