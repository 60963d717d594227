-- ===== src/Base/Maps.antt =====
-- Maps with numeric keys as association lists, kept in key order by `insert`.
use Prim.Native.Nat.{ℕ, suc, ◌≤◌, ◌<◌}
use mathlib.Core.Path.{◌≡◌, refl}
use mathlib.Core.List.{List, [], ◌∷◌}
use mathlib.Core.Option.{Option, none, some}
use native.Mathlib.Omega.{arith}
use kora.Base.Tests.{ltb, ◌==◌, if◌then◌else◌}
use kora.Base.Lists.{length}

abbrev pub Map {ℓ} : Type ℓ → Type ℓ
Map V = List (ℕ × V)

module _ {ℓ} {V : Type ℓ} where
  unfoldable pub get : ℕ → Map V → Option V
  get k [] = none
  get k ((j, v) ∷ m) = if k == j then some v else get k m

  unfoldable pub put : ℕ → V → Map V → Map V
  put k v [] = (k, v) ∷ []
  put k v ((j, w) ∷ m) =
      if ltb k j then (k, v) ∷ (j, w) ∷ m else if k == j then (k, v) ∷ m else (j, w) ∷ put k v m

  unfoldable pub del : ℕ → Map V → Map V
  del k [] = []
  del k ((j, w) ∷ m) = let rest = del k m in if k == j then rest else (j, w) ∷ rest

  pub get-put :
      (q k : ℕ) (v : V) (m : Map V) → get q (put k v m) ≡ (if q == k then some v else get q m)
  unfolding get put
  get-put q k v [] = refl
  get-put q k v ((j, w) ∷ m) = ground (arith, get-put q k v m)

  pub length-put : (k : ℕ) (v : V) (m : Map V) → length (put k v m) ≤ suc (length m)
  unfolding put
  length-put k v [] = omega arith
  length-put k v ((j, w) ∷ m) = ground (arith, length-put k v m)

  pub get-del : (q k : ℕ) (m : Map V) → get q (del k m) ≡ (if q == k then none else get q m)
  unfolding get del
  get-del q k [] = ground arith
  get-del q k ((j, w) ∷ m) = ground (arith, get-del q k m)

  pub put-put : (k : ℕ) (v : V) (m : Map V) → put k v (put k v m) ≡ put k v m
  unfolding put
  put-put k v [] = ground arith
  put-put k v ((j, w) ∷ m) = ground (arith, put-put k v m)

-- The keys ascend strictly, from `lo` on.
abbrev pub KeysFrom {ℓ} : {V : Type ℓ} → ℕ → Map V → Type 0
KeysFrom lo [] = Unit {0}
KeysFrom lo ((k, v) ∷ m) = (lo ≤ k) × KeysFrom (suc k) m

abbrev pub Sorted {ℓ} : {V : Type ℓ} → Map V → Type 0
Sorted m = KeysFrom 0 m

abbrev pub or_else {ℓ} : {A : Type ℓ} → Option A → Option A → Option A
or_else none o = o
or_else (some a) o = some a

module _ {ℓ} {V : Type ℓ} where
  pub get_below : (q lo : ℕ) (m : Map V) → KeysFrom lo m → q < lo → get q m ≡ none
  unfolding get
  get_below q lo [] s h = refl
  get_below q lo ((k, v) ∷ m) s h = ground (arith, get_below q (suc k) m s.1)

  pub KeysFrom-weaken : (lo hi : ℕ) (m : Map V) → lo ≤ hi → KeysFrom hi m → KeysFrom lo m
  KeysFrom-weaken lo hi [] h s = tt
  KeysFrom-weaken lo hi ((k, v) ∷ m) h s = (omega arith, s.1)

  pub put-KeysFrom :
      (lo k : ℕ) (v : V) (m : Map V) → lo ≤ k → KeysFrom lo m → KeysFrom lo (put k v m)
  unfolding put
  put-KeysFrom lo k v [] h s = (h, tt)
  put-KeysFrom lo k v ((j, w) ∷ m) h s = ground (arith, put-KeysFrom (suc j) k v m)

  pub del-KeysFrom : (lo k : ℕ) (m : Map V) → KeysFrom lo m → KeysFrom lo (del k m)
  unfolding del
  del-KeysFrom lo k [] s = tt
  del-KeysFrom lo k ((j, w) ∷ m) s =
      ground (arith, del-KeysFrom (suc j) k m s.1, KeysFrom-weaken lo (suc j) (del k m))
