-- ===== src/Prelude/Lists.antt =====
-- Lists measured and indexed by native numbers, under the library's names.
use Prim.Native.Nat.{ℕ, zero, suc, ◌+◌, ◌-◌, ◌≤◌, ◌<◌}
use mathlib.Core.List.{List, [], ◌∷◌, ◌++◌}
use mathlib.Core.Option.{Option, none, some}
use mathlib.Core.Path.{◌≡◌, refl}
use native.Mathlib.Omega.{arith}

module _ {ℓ} {A : Type ℓ} where
  abbrev pub length : List A → ℕ
  length [] = 0
  length (x ∷ xs) = suc (length xs)

  abbrev pub get_elem? : List A → ℕ → Option A
  get_elem? [] i = none
  get_elem? (x ∷ xs) zero = some x
  get_elem? (x ∷ xs) (suc i) = get_elem? xs i

  abbrev pub take : ℕ → List A → List A
  take zero xs = []
  take (suc n) [] = []
  take (suc n) (x ∷ xs) = x ∷ take n xs

  abbrev pub drop : ℕ → List A → List A
  drop zero xs = xs
  drop (suc n) [] = []
  drop (suc n) (x ∷ xs) = drop n xs

  -- `VecDeque::push_back` and `Vec::push`
  abbrev pub push : List A → A → List A
  push xs x = xs ++ (x ∷ [])

  -- `VecDeque::pop_front`, the element dropped
  abbrev pub pop_front : List A → List A
  pop_front [] = []
  pop_front (x ∷ xs) = xs

module _ {ℓ} {A : Type ℓ} where
  pub length-append : (xs ys : List A) → length (xs ++ ys) ≡ length xs + length ys
  length-append [] ys = omega arith
  length-append (x ∷ xs) ys = omega (arith, length-append xs ys)

  pub length-push : (xs : List A) (x : A) → length (push xs x) ≡ length xs + 1
  length-push xs x = omega (arith, length-append xs (x ∷ []))

  pub length-pop_front : (xs : List A) → length (pop_front xs) ≡ length xs - 1
  length-pop_front [] = omega arith
  length-pop_front (x ∷ xs) = omega arith

  pub get_elem?-push_last : (xs : List A) (x : A) → get_elem? (push xs x) (length xs) ≡ some x
  get_elem?-push_last [] x = refl
  get_elem?-push_last (y ∷ xs) x = get_elem?-push_last xs x

  pub get_elem?-push_lt :
      (xs : List A) (x : A) (i : ℕ) → i < length xs → get_elem? (push xs x) i ≡ get_elem? xs i
  get_elem?-push_lt [] x i h = absurd (omega arith)
  get_elem?-push_lt (y ∷ xs) x zero h = refl
  get_elem?-push_lt (y ∷ xs) x (suc i) h = get_elem?-push_lt xs x i (omega arith)

  pub length-drop : (n : ℕ) (xs : List A) → length (drop n xs) ≡ length xs - n
  length-drop zero xs = omega arith
  length-drop (suc n) [] = omega arith
  length-drop (suc n) (x ∷ xs) = omega (arith, length-drop n xs)

  pub length-take-le : (n : ℕ) (xs : List A) → length (take n xs) ≤ n
  length-take-le zero xs = omega arith
  length-take-le (suc n) [] = omega arith
  length-take-le (suc n) (x ∷ xs) = omega (arith, length-take-le n xs)

abbrev pub All {ℓ κ} : {A : Type ℓ} → (A → Type κ) → List A → Type κ
All P [] = Unit
All P (x ∷ xs) = P x × All P xs

pub All-push {ℓ κ} :
    {A : Type ℓ} (P : A → Type κ) (xs : List A) (x : A) → All P xs → P x → All P (push xs x)
All-push P [] x h p = (p, tt)
All-push P (y ∷ xs) x h p = (h.0, All-push P xs x h.1 p)
