-- ===== src/Domain/Commitment/Limits.antt =====
-- The limits on what a decoded state delta holds, whatever the bytes are.
use kora.Base.{
  ℕ, zero, suc, ◌+◌, ◌≤◌, ◌≡◌, refl, subst, inl, inr, List, [], ◌∷◌, arith, length, ltb, ◌==◌, All,
  Map, put, Sorted, put-KeysFrom, length-put, Bool-cases,
}
use kora.Domain.Codec.{Codec, Reader, Result, ok, err, next, read_field}
use kora.Domain.Codec.Laws.{IsCodec}
use kora.Domain.Commitment.{
  AccountChange, StateChanges, StateChangesCfg, read_entries, read_account, read_cfg,
}

-- A read that goes on to a result had a value.
next-ok :
    {A B : Type 0} (r : Result (A × List ℕ)) (k : A → List ℕ → Result B) (b : B)
    → next r k ≡ ok b
    → (a : A) × (rest : List ℕ) × (r ≡ ok (a, rest)) × (k a rest ≡ ok b)
next-ok (ok (a, rest)) k b e = (a, rest, refl, e)
next-ok (err x) k b e = cc

module _ {V : Type 0} where
  All-put :
      (P : ℕ × V → Type 0) (k : ℕ) (v : V) (m : Map V) → P (k, v) → All P m → All P (put k v m)
  unfolding put
  All-put P k v [] p h = (p, tt)
  All-put P k v ((j, w) ∷ m) p h = elim (Bool-cases (ltb k j)) [
    | inl e ↦ rw e (p, h)
    | inr e ↦ elim (Bool-cases (k == j)) [
      | inl f ↦ rw (e, f) (p, h.1)
      | inr f ↦ rw (e, f) (h.0, All-put P k v m p h.1)
    ]
  ]

  -- What holds of a map that is read: no more entries than were asked for, in key order, and each
  -- value is one that the reader returns.
  pub record Reads (P : V → Type 0) (n : ℕ) (m : Map V) : Type 0 where
    pub few : length m ≤ n
    pub sorted : Sorted m
    pub values : All (λ e. P e.1) m

  pub read_entries-Reads :
      (P : V → Type 0) (read_key : Reader ℕ) (read_value : Reader V)
      → ((buf rest : List ℕ) (v : V) → read_value buf ≡ ok (v, rest) → P v)
      → (n k : ℕ) (acc m : Map V) (buf rest : List ℕ) → Reads P k acc
      → read_entries read_key read_value n acc buf ≡ ok (m, rest)
      → Reads P (k + n) m
  unfolding read_entries
  read_entries-Reads P read_key read_value h zero k acc m buf rest r e =
      let same : acc ≡ m = ground (arith, e) in
      subst (Reads P (k + 0)) same
        (record { few = omega (arith, r.few); sorted = r.sorted; values = r.values })
  read_entries-Reads P read_key read_value h (suc n) k acc m buf rest r e =
      let (key, buf1, _, e1) = next-ok (read_key buf) _ (m, rest) e in
      let (v, buf2, f, e2) = next-ok (read_value buf1) _ (m, rest) e1 in
      let one : Reads P (suc k) (put key v acc) = record {
        few = omega (arith, length-put key v acc, r.few);
        sorted = put-KeysFrom 0 key v acc (omega arith) r.sorted;
        values = All-put (λ e. P e.1) key v acc (h buf1 buf2 v f) r.values;
      } in
      let deep =
        read_entries-Reads P read_key read_value h n (suc k) (put key v acc) m buf2 rest one e2 in
      record { few = omega (arith, deep.few); sorted = deep.sorted; values = deep.values }

-- The limits of an account and of a delta.
pub record AccountKeeps (cfg : StateChangesCfg) (a : AccountChange) : Type 0 where
  pub few_slots : length a.storage ≤ cfg.max_storage_slots
  pub slots_sorted : Sorted a.storage

pub record KeepsLimits (cfg : StateChangesCfg) (s : StateChanges) : Type 0 where
  pub few_accounts : length s.accounts ≤ cfg.max_accounts
  pub accounts_sorted : Sorted s.accounts
  pub slots : All (λ e. AccountKeeps cfg e.1) s.accounts

nothing_read : {V : Type 0} (P : V → Type 0) → Reads P 0 []
nothing_read P = record { few = omega arith; sorted = tt; values = tt }

module _ (c : Codec) (laws : IsCodec c) where
  read_account-AccountKeeps :
      (cfg : StateChangesCfg) (buf rest : List ℕ) (a : AccountChange)
      → read_account c cfg buf ≡ ok (a, rest)
      → AccountKeeps cfg a
  unfolding read_account
  read_account-AccountKeeps cfg buf rest a e =
      let (x1, b1, _, e1) = next-ok (c.read_bool buf) _ (a, rest) e in
      let (x2, b2, _, e2) = next-ok (c.read_bool b1) _ (a, rest) e1 in
      let (x3, b3, _, e3) = next-ok (c.read_bool b2) _ (a, rest) e2 in
      let (x4, b4, _, e4) = next-ok (c.read_u64 b3) _ (a, rest) e3 in
      let (x5, b5, _, e5) = next-ok (read_field 32 b4) _ (a, rest) e4 in
      let (x6, b6, _, e6) = next-ok (read_field 32 b5) _ (a, rest) e5 in
      let (n, b7, f, e7) = next-ok (c.read_len cfg.max_storage_slots b6) _ (a, rest) e6 in
      let (m, b8, g, e8) =
        next-ok (read_entries (read_field 32) (read_field 32) n [] b7) _ (a, rest) e7 in
      let r =
        read_entries-Reads (λ v. Unit {0}) (read_field 32) (read_field 32) (λ x y v w. tt) n 0 [] m
          b7 b8 (nothing_read _) g in
      let same : m ≡ a.storage = ground (arith, e8) in
      let bound = laws.len_bound cfg.max_storage_slots n b6 b7 f in
      rw (← same) (record { few_slots = omega (arith, r.few, bound); slots_sorted = r.sorted })

  -- A state delta that is decoded, from any bytes, keeps to the limits: it has no more accounts
  -- than the limit, in key order, and each of them no more slots than theirs, in key order.
  pub read_cfg-KeepsLimits :
      (cfg : StateChangesCfg) (buf rest : List ℕ) (s : StateChanges)
      → read_cfg c cfg buf ≡ ok (s, rest)
      → KeepsLimits cfg s
  unfolding read_cfg
  read_cfg-KeepsLimits cfg buf rest s e =
      let (n, b1, f, e1) = next-ok (c.read_len cfg.max_accounts buf) _ (s, rest) e in
      let (m, b2, g, e2) =
        next-ok (read_entries (read_field 20) (read_account c cfg) n [] b1) _ (s, rest) e1 in
      let r =
        read_entries-Reads (AccountKeeps cfg) (read_field 20) (read_account c cfg)
          (read_account-AccountKeeps cfg) n 0 [] m b1 b2 (nothing_read _) g in
      let same : m ≡ s.accounts = ground (arith, e2) in
      let bound = laws.len_bound cfg.max_accounts n buf b1 f in
      rw (← same) (record {
        few_accounts = omega (arith, r.few, bound);
        accounts_sorted = r.sorted;
        slots = r.values;
      })
