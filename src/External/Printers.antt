-- ===== src/External/Printers.antt =====
-- The printers of the libraries for the texts that src/response.rs and src/lib.rs hand to Python,
-- and what they read of addresses and results, as parameters, with their documented behaviour as laws.
use tevm.External.{Externals}
use tevm.External.Execution.{ExecutionResult, HaltReason, Output, success, revert, halt}
use tevm.External.Numbers.{be_value}
use tevm.Prelude.{ℕ, ◌^◌, ◌<◌, ◌≡◌, ◌≢◌, Bool, true, false, List, Option, some, String}
use tevm.Prelude.Outcome.{Outcome, Error, ok, err}
use tevm.Words.{u256_size}

pub record Printers : Type 0 where
  -- `encode_hex` and `hex::encode`, `hex::decode`
  pub hex_encode : List ℕ → String
  pub hex_decode : String → Outcome (List ℕ)
  -- `usize::to_string`
  pub to_string : ℕ → String
  -- `Address::to_vec`, and `Address::from_slice`, which panics unless it is given 20 bytes
  pub address_bytes : ℕ → List ℕ
  pub address_from_slice : List ℕ → Outcome ℕ
  -- `format!("{:x}", _)` of an address and of a word
  pub lower_hex_address : ℕ → String
  pub lower_hex_word : ℕ → String
  -- `format!("{:?}", _)` of a reason to halt, of a status and of `result.err()`
  pub debug_reason : HaltReason → String
  pub debug_status : ℕ → String
  pub debug_error : ℕ → String
  -- `ExecutionResult::is_success` and `gas_used` of revm
  pub is_success : ExecutionResult → Bool
  pub gas_used : ExecutionResult → ℕ

-- They tell a success from a revert and a halt, and find the gas in each.
pub record ReadsResults (p : Printers) : Type 0 where
  pub success_yes : (gas : ℕ) (o : Output) → p.is_success (success gas o) ≡ true
  pub revert_no : (gas : ℕ) (bytes : List ℕ) → p.is_success (revert gas bytes) ≡ false
  pub halt_no : (gas : ℕ) (r : HaltReason) → p.is_success (halt gas r) ≡ false
  pub success_gas : (gas : ℕ) (o : Output) → p.gas_used (success gas o) ≡ gas
  pub revert_gas : (gas : ℕ) (bytes : List ℕ) → p.gas_used (revert gas bytes) ≡ gas
  pub halt_gas : (gas : ℕ) (r : HaltReason) → p.gas_used (halt gas r) ≡ gas

-- An address has 20 bytes, which stand for it and give it back; `from_slice` has no error, it panics.
pub record KeepsAddresses (p : Printers) : Type 0 where
  pub value : (a : ℕ) → a < 2 ^ 160 → be_value (p.address_bytes a) ≡ a
  pub from_slice : (a : ℕ) → a < 2 ^ 160 → p.address_from_slice (p.address_bytes a) ≡ ok a
  pub no_error : (bytes : List ℕ) (e : Error) → p.address_from_slice bytes ≢ err e

-- Hexadecimal text gives its bytes back, a decimal number its value, and the bytes of a word stand
-- for the word.
pub record PrintsBack (ext : Externals) (p : Printers) : Type 0 where
  pub hex : (bytes : List ℕ) → p.hex_decode (p.hex_encode bytes) ≡ ok bytes
  pub word : (w : ℕ) → w < u256_size → be_value (ext.word_bytes w) ≡ w
  -- `usize::from_str`
  pub from_decimal : String → Option ℕ
  pub decimal : (k : ℕ) → from_decimal (p.to_string k) ≡ some k
