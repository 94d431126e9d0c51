-- ===== src/Common.antt =====
-- src/common.rs: constants and conversions that the modules share.
pub mod BigInts
pub mod Hex
pub mod Text
use tevm.External.{Externals}
use tevm.Prelude.{ℕ, Bool, false, Ordering}
use tevm.Words.{overflowing_sub}

abbrev pub max_block_gas : ℕ
max_block_gas = 1_000_000_000_000_000

abbrev pub tx_gas_limit : ℕ
tx_gas_limit = 30_000_000

module _ (ext : Externals) where
  unfoldable pub i256_diff : ℕ → ℕ → ℕ × Bool
  unfolding overflowing_sub
  i256_diff first second = elim (ext.i256_cmp first second) [
    | Ordering.eq ↦ (0, false)
    | Ordering.gt ↦ overflowing_sub first second
    | Ordering.lt ↦ overflowing_sub second first
  ]
