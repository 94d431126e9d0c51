-- ===== src/External/Numbers.antt =====
-- The conversions of num_bigint, ruint and hex that src/common.rs and src/response.rs call, as
-- parameters, with their documented behaviour as laws.
use tevm.Prelude.{ℕ, ◌+◌, ◌*◌, ◌≤◌, ◌<◌, ◌≡◌, ◌≢◌, List, [], ◌∷◌, push, length, All}
use tevm.Prelude.Outcome.{Outcome, ok}
use tevm.Words.{u256_size}

-- `num_bigint::BigInt`, by the integer that it stands for, and `Sign`
pub data BigInt : Type 0 where
  pos negsuc : ℕ → BigInt

pub data Sign : Type 0 where
  minus no_sign plus : Sign

pub record Numbers : Type 0 where
  -- `BigInt::from_bytes_le` and `BigInt::to_bytes_be`
  pub from_bytes_le : Sign → List ℕ → BigInt
  pub to_bytes_be : BigInt → Sign × List ℕ
  -- `U256::as_le_bytes` and `U256::from_be_slice`
  pub as_le_bytes : ℕ → List ℕ
  pub from_be_slice : List ℕ → Outcome ℕ
  -- `BigInt::default()`
  pub default_bigint : BigInt

abbrev pub IsByte : ℕ → Type 0
IsByte b = b < 256

-- The number that bytes stand for, the lowest first and the highest first.
unfoldable pub le_value : List ℕ → ℕ
le_value [] = 0
le_value (b ∷ bytes) = b + 256 * le_value bytes

unfoldable pub reversed : List ℕ → List ℕ
reversed [] = []
reversed (b ∷ bytes) = push (reversed bytes) b

abbrev pub be_value : List ℕ → ℕ
be_value bytes = le_value (reversed bytes)

-- The bytes of a `U256` and of a `BigInt` stand for the number; those of a `BigInt` have no zero in
-- front, and their sign is `minus` for the numbers below zero alone.
pub record CountsBytes (n : Numbers) : Type 0 where
  pub le : (u : ℕ) → u < u256_size → le_value (n.as_le_bytes u) ≡ u
  pub from_le : (bytes : List ℕ) → n.from_bytes_le Sign.plus bytes ≡ BigInt.pos (le_value bytes)
  pub below : (k : ℕ) → (n.to_bytes_be (BigInt.negsuc k)).0 ≡ Sign.minus
  pub not_below : (k : ℕ) → (n.to_bytes_be (BigInt.pos k)).0 ≢ Sign.minus
  pub value : (k : ℕ) → be_value (n.to_bytes_be (BigInt.pos k)).1 ≡ k
  pub bytes : (k : ℕ) → All IsByte (n.to_bytes_be (BigInt.pos k)).1
  pub no_zero_first :
      (k d e : ℕ) (rest : List ℕ) → (n.to_bytes_be (BigInt.pos k)).1 ≡ d ∷ e ∷ rest → 0 < d
  pub from_be : (s : List ℕ) → All IsByte s → length s ≤ 32 → n.from_be_slice s ≡ ok (be_value s)
