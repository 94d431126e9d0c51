-- ===== src/External/Parsers.antt =====
-- The parsers and printers of the libraries for the text arguments and results of src/lib.rs.
use tevm.Prelude.{ℕ, String}
use tevm.Prelude.Outcome.{Outcome}

pub record Parsers : Type 0 where
  -- `Address::from_str`, `U256::from_str_radix(_, 16)` and `u64::from_str_radix(_, 16)`
  pub address_from_str : String → Outcome ℕ
  pub u256_from_hex : String → Outcome ℕ
  pub u64_from_hex : String → Outcome ℕ
  -- `Uuid::parse_str` and `Uuid::to_string`
  pub uuid_parse_str : String → Outcome ℕ
  pub uuid_to_string : ℕ → String
  -- `format!("{:#066x}", _)`, and "0x" with the bytes of an address in hexadecimal
  pub hex_66 : ℕ → String
  pub hex_address : ℕ → String
