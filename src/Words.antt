-- ===== src/Words.antt =====
-- `U256`, `u64` and `usize` (64-bit) as natural numbers with the wrap-around written out.
use tevm.Prelude.{ℕ, ◌+◌, ◌-◌, ◌%◌, ◌^◌, ◌≤◌, ◌<◌, ◌≡◌, Bool, arith, ltb, leb, if◌then◌else◌}
use tevm.Prelude.Outcome.{Outcome, ok, panic}

abbrev pub u256_size : ℕ
u256_size = 2 ^ 256

-- `U256::MAX`
abbrev pub u256_max : ℕ
u256_max = 2 ^ 256 - 1

abbrev pub u64_size : ℕ
u64_size = 2 ^ 64

-- `u64::MAX` and `usize::MAX`
abbrev pub u64_max : ℕ
u64_max = 2 ^ 64 - 1

-- `a.overflowing_sub(b)`
unfoldable pub overflowing_sub : ℕ → ℕ → ℕ × Bool
overflowing_sub a b = ((a + u256_size - b) % u256_size, ltb a b)

-- `a.saturating_add(b)`
unfoldable pub saturating_add : ℕ → ℕ → ℕ
saturating_add a b = if ltb u256_max (a + b) then u256_max else a + b

-- `usize::try_from(x).unwrap()`
unfoldable pub try_usize : ℕ → Outcome ℕ
try_usize x = if leb x u64_max then ok x else panic

-- The low 20 bytes of a word: `from_slice(&to_be_bytes()[12..])`
unfoldable pub low_address : ℕ → ℕ
low_address x = x % 2 ^ 160

pub overflowing_sub-le : (a b : ℕ) → b ≤ a → a < u256_size → (overflowing_sub a b).0 ≡ a - b
unfolding overflowing_sub
overflowing_sub-le a b h k = omega arith

pub overflowing_sub-lt-size : (a b : ℕ) → (overflowing_sub a b).0 < u256_size
unfolding overflowing_sub
overflowing_sub-lt-size a b = omega arith

pub saturating_add-le : (a b : ℕ) → a ≤ u256_max → b ≤ u256_max → saturating_add a b ≤ u256_max
unfolding saturating_add
saturating_add-le a b h k = ground arith
