-- ===== src/Domain/Commitment/RoundTrip.antt =====
-- The encoding of state deltas: what is written is read back.
use kora.Base.{
  ℕ, suc, ◌+◌, ◌*◌, ◌^◌, ◌≤◌, ◌<◌, ◌≡◌, refl, sym, ap, ◌∙◌, List, [], ◌∷◌, ◌++◌, append_assoc,
  append-nil, arith, length, length-append, sum_by, All, All-append, All-imp, Map, put, KeysFrom,
  Sorted,
}
use kora.Domain.Codec.{Codec, Reader, ok, next, write_field, read_field}
use kora.Domain.Codec.Laws.{IsCodec, ReadsBack, field_back, field_size, next_back}
use kora.Domain.Commitment.{
  AccountChange, StateChanges, StateChangesCfg, write_entries, read_entries, write_account,
  account_size, read_account, write, encode_size, read_cfg,
}

module _ {V : Type 0} where
  put_all : Map V → Map V → Map V
  put_all acc [] = acc
  put_all acc ((k, v) ∷ m) = put_all (put k v acc) m

  put_last :
      (k : ℕ) (v : V) (acc : Map V) → All (λ e. e.0 < k) acc → put k v acc ≡ acc ++ (k, v) ∷ []
  unfolding put
  put_last k v [] h = refl
  put_last k v ((j, w) ∷ acc) h = ground (arith, h.0, put_last k v acc h.1)

  put_all-ascending :
      (lo : ℕ) (acc m : Map V) → All (λ e. e.0 < lo) acc → KeysFrom lo m → put_all acc m ≡ acc ++ m
  unfolding put_all
  put_all-ascending lo acc [] h k = sym (append-nil acc)
  put_all-ascending lo acc ((j, v) ∷ m) h k =
      let low : All (λ e. e.0 < j) acc = All-imp (λ e l. omega arith) acc h in
      ap (λ a. put_all a m) (put_last j v acc low)
      ∙ put_all-ascending (suc j) (acc ++ (j, v) ∷ []) m
          (All-append (λ e. e.0 < suc j) acc ((j, v) ∷ []) (All-imp (λ e l. omega arith) acc low)
            (omega arith, tt))
          k.1
      ∙ append_assoc acc ((j, v) ∷ []) m

  module _ (write_key : ℕ → List ℕ) (read_key : Reader ℕ) (write_value : V → List ℕ)
      (read_value : Reader V) where
    -- An entry whose key and value are read back.
    abbrev EntryBack : ℕ × V → Type 0
    EntryBack (k, v) = ReadsBack write_key read_key k × ReadsBack write_value read_value v

    entries_all :
        (acc m : Map V) (rest : List ℕ)
        → All EntryBack m
        → read_entries read_key read_value
            (length m)
            acc
            (write_entries write_key write_value m ++ rest)
          ≡ ok (put_all acc m, rest)
    unfolding read_entries write_entries put_all
    entries_all acc [] rest h = refl
    entries_all acc ((k, v) ∷ m) rest ((hk, hv), hs) =
        next_back write_key read_key k _ rest _ hk
        ∙ next_back write_value read_value v _ rest _ hv
        ∙ entries_all (put k v acc) m rest hs

    -- The entries of a map in key order are read back.
    pub entries_back :
        (m : Map V) (rest : List ℕ)
        → Sorted m
        → All EntryBack m
        → read_entries read_key read_value
            (length m)
            []
            (write_entries write_key write_value m ++ rest)
          ≡ ok (m, rest)
    entries_back m rest k h =
        entries_all [] m rest h ∙ ap (λ r. ok (r, rest)) (put_all-ascending 0 [] m tt k)

-- The fields within their widths, the slots in key order and within the limit.
pub record AccountFits (cfg : StateChangesCfg) (a : AccountChange) : Type 0 where
  pub nonce_fits : a.nonce < 2 ^ 64
  pub balance_fits : a.balance < 256 ^ 32
  pub code_hash_fits : a.code_hash < 256 ^ 32
  pub slots_sorted : Sorted a.storage
  pub few_slots : length a.storage ≤ cfg.max_storage_slots
  pub slots_counted : length a.storage < 2 ^ 32
  pub slots_fit : All (λ e. (e.0 < 256 ^ 32) × (e.1 < 256 ^ 32)) a.storage

pub record ChangesFit (cfg : StateChangesCfg) (s : StateChanges) : Type 0 where
  pub accounts_sorted : Sorted s.accounts
  pub few_accounts : length s.accounts ≤ cfg.max_accounts
  pub accounts_counted : length s.accounts < 2 ^ 32
  pub accounts_fit : All (λ e. (e.0 < 256 ^ 20) × AccountFits cfg e.1) s.accounts

module _ (c : Codec) (laws : IsCodec c) where
  account_back :
      (cfg : StateChangesCfg) (a : AccountChange)
      → AccountFits cfg a
      → ReadsBack (write_account c) (read_account c cfg) a
  unfolding write_account read_account
  account_back cfg a f rest =
      next_back c.write_bool c.read_bool a.touched _ rest _ (laws.bool_back a.touched)
      ∙ next_back c.write_bool c.read_bool a.created _ rest _ (laws.bool_back a.created)
      ∙ next_back c.write_bool c.read_bool a.selfdestructed _ rest _
          (laws.bool_back a.selfdestructed)
      ∙ next_back c.write_u64 c.read_u64 a.nonce _ rest _ (laws.u64_back a.nonce f.nonce_fits)
      ∙ next_back (write_field 32) (read_field 32) a.balance _ rest _
          (field_back 32 a.balance f.balance_fits)
      ∙ next_back (write_field 32) (read_field 32) a.code_hash _ rest _
          (field_back 32 a.code_hash f.code_hash_fits)
      ∙ next_back c.write_len (c.read_len cfg.max_storage_slots) (length a.storage) _ rest _
          (laws.len_back cfg.max_storage_slots (length a.storage) f.few_slots f.slots_counted)
      ∙ ap (λ r. next r (λ storage buf. ok (record a { storage = storage }, buf)))
          (entries_back (write_field 32) (read_field 32) (write_field 32) (read_field 32) a.storage
            rest f.slots_sorted
            (All-imp (λ e h. (field_back 32 e.0 h.0, field_back 32 e.1 h.1)) a.storage f.slots_fit))

  read_back :
      (cfg : StateChangesCfg) (s : StateChanges)
      → ChangesFit cfg s
      → ReadsBack (write c) (read_cfg c cfg) s
  unfolding write read_cfg
  read_back cfg s f rest =
      next_back c.write_len (c.read_len cfg.max_accounts) (length s.accounts) _ rest _
        (laws.len_back cfg.max_accounts (length s.accounts) f.few_accounts f.accounts_counted)
      ∙ ap (λ r. next r (λ map buf. ok (record { accounts = map }, buf)))
          (entries_back (write_field 20) (read_field 20) (write_account c) (read_account c cfg)
            s.accounts rest f.accounts_sorted
            (All-imp (λ e h. (field_back 20 e.0 h.0, account_back cfg e.1 h.1)) s.accounts
              f.accounts_fit))

  slots_size :
      (m : Map ℕ) → length (write_entries (write_field 32) (write_field 32) m) ≡ length m * 64
  unfolding write_entries
  slots_size [] = omega arith
  slots_size ((k, v) ∷ m) =
      let tail = write_entries (write_field 32) (write_field 32) m in
      omega (
        arith,
        length-append (write_field 32 k) (write_field 32 v ++ tail),
        length-append (write_field 32 v) tail,
        field_size 32 k,
        field_size 32 v,
        slots_size m,
      )

  account_length : (a : AccountChange) → length (write_account c a) ≡ account_size c a
  unfolding write_account account_size
  account_length a =
      let slots = write_entries (write_field 32) (write_field 32) a.storage in
      let s = c.write_len (length a.storage) ++ slots in
      let h = write_field 32 a.code_hash ++ s in
      let b = write_field 32 a.balance ++ h in
      let n = c.write_u64 a.nonce ++ b in
      let d = c.write_bool a.selfdestructed ++ n in
      let m = c.write_bool a.created ++ d in
      omega (
        arith,
        length-append (c.write_bool a.touched) m,
        length-append (c.write_bool a.created) d,
        length-append (c.write_bool a.selfdestructed) n,
        length-append (c.write_u64 a.nonce) b,
        length-append (write_field 32 a.balance) h,
        length-append (write_field 32 a.code_hash) s,
        length-append (c.write_len (length a.storage)) slots,
        laws.bool_size a.touched,
        laws.bool_size a.created,
        laws.bool_size a.selfdestructed,
        laws.u64_size a.nonce,
        laws.len_size (length a.storage),
        field_size 32 a.balance,
        field_size 32 a.code_hash,
        slots_size a.storage,
      )

  accounts_size :
      (m : Map AccountChange)
      → length (write_entries (write_field 20) (write_account c) m)
        ≡ sum_by (λ e. 20 + account_size c e.1) m
  unfolding write_entries
  accounts_size [] = refl
  accounts_size ((k, a) ∷ m) =
      let tail = write_entries (write_field 20) (write_account c) m in
      omega (
        arith,
        length-append (write_field 20 k) (write_account c a ++ tail),
        length-append (write_account c a) tail,
        field_size 20 k,
        account_length a,
        accounts_size m,
      )

  length-write : (s : StateChanges) → length (write c s) ≡ encode_size c s
  unfolding write encode_size
  length-write s = omega (
    arith,
    length-append (c.write_len (length s.accounts))
        (write_entries (write_field 20) (write_account c) s.accounts),
    laws.len_size (length s.accounts),
    accounts_size s.accounts,
  )

  -- A state delta whose maps stand in key order and keep to the limits, and whose fields fit their
  -- widths, is read back from its encoding, whatever follows it, and the encoding has the size
  -- that is said.
  pub changes_back :
      (cfg : StateChangesCfg) (s : StateChanges)
      → ChangesFit cfg s
      → (length (write c s) ≡ encode_size c s) × ReadsBack (write c) (read_cfg c cfg) s
  changes_back cfg s f = (length-write s, read_back cfg s f)
