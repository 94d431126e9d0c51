-- ===== src/Prelude/Maps.antt =====
-- `HashMap<K, V>` and `HashSet<K>` for keys that are numbers (addresses, words, hashes, ids).
-- The functions stay shut for clients that reason by the laws, whose order is not observable.
use mathlib.Core.Bool.{Bool, true, false}
use mathlib.Core.List.{List, [], ◌∷◌}
use mathlib.Core.Option.{Option, none, some}
use mathlib.Core.Path.{◌≡◌, refl}
use native.Mathlib.Omega.{arith}
use Prim.Native.Nat.{ℕ}
use tevm.Prelude.Tests.{◌==◌, if◌then◌else◌}

abbrev pub HashMap {ℓ} : Type ℓ → Type ℓ
HashMap V = List (ℕ × V)

module _ {ℓ} {V : Type ℓ} where
  unfoldable pub get : HashMap V → ℕ → Option V
  get [] k = none
  get ((j, v) ∷ m) k = if j == k then some v else get m k

  unfoldable pub remove : ℕ → HashMap V → HashMap V
  remove k [] = []
  remove k ((j, v) ∷ m) = let rest = remove k m in if j == k then rest else (j, v) ∷ rest

  unfoldable pub insert : ℕ → V → HashMap V → HashMap V
  unfolding remove
  insert k v m = (k, v) ∷ remove k m

  unfoldable pub contains_key : HashMap V → ℕ → Bool
  unfolding get
  contains_key m k = elim (get m k) [ none ↦ false | some _ ↦ true ]

  -- `entry(k).or_default()` followed by a write of the whole value
  unfoldable pub entry_or : V → HashMap V → ℕ → V
  unfolding get
  entry_or d m k = elim (get m k) [ none ↦ d | some v ↦ v ]

  -- `extend`: later pairs win
  unfoldable pub extend : HashMap V → HashMap V → HashMap V
  unfolding insert
  extend m [] = m
  extend m ((k, v) ∷ rest) = extend (insert k v m) rest

  pub get-nil : (k : ℕ) → get [] k ≡ none
  unfolding get
  get-nil k = refl

  pub get-remove :
      (k j : ℕ) (m : HashMap V) → get (remove k m) j ≡ (if k == j then none else get m j)
  unfolding get remove
  get-remove k j [] = ground arith
  get-remove k j ((i, v) ∷ m) = ground (arith, get-remove k j m)

  pub get-insert :
      (k j : ℕ) (v : V) (m : HashMap V)
      → get (insert k v m) j ≡ (if k == j then some v else get m j)
  unfolding get insert
  get-insert k j v m = ground (arith, get-remove k j m)

  or_default :
      (P : V → Type 0) (d : V) (o : Option V)
      → P d
      → ((v : V) → o ≡ some v → P v)
      → P (elim o [ none ↦ d | some v ↦ v ])
  or_default P d none default held = default
  or_default P d (some v) default held = held v refl

  -- What holds of the default and of the value that the map has holds of the entry.
  pub entry_or_lem :
      (P : V → Type 0) (d : V) (m : HashMap V) (k : ℕ)
      → P d
      → ((v : V) → get m k ≡ some v → P v)
      → P (entry_or d m k)
  unfolding entry_or
  entry_or_lem P d m k default held = or_default P d (get m k) default held

  pub contains_key-insert :
      (k j : ℕ) (v : V) (m : HashMap V)
      → contains_key (insert k v m) j ≡ (if k == j then true else contains_key m j)
  unfolding contains_key insert
  contains_key-insert k j v m = ground (arith, get-remove k j m)

-- `HashSet<K>`, as the list of its members
unfoldable pub set_contains : List ℕ → ℕ → Bool
set_contains [] k = false
set_contains (j ∷ s) k = if j == k then true else set_contains s k

unfoldable pub set_insert : ℕ → List ℕ → List ℕ
unfolding set_contains
set_insert k s = if set_contains s k then s else k ∷ s

pub set_contains-insert :
    (k j : ℕ) (s : List ℕ)
    → set_contains (set_insert k s) j ≡ (if k == j then true else set_contains s j)
unfolding set_insert set_contains
set_contains-insert k j s = ground arith

pub ruleset map_laws = (get-remove, get-insert, contains_key-insert)
