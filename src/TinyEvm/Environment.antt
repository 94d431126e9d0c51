-- ===== src/TinyEvm/Environment.antt =====
-- src/lib.rs: the environment fields by name, and the owner.
pub mod Fields
use tevm.Common.Text.{trim_prefix}
use tevm.External.Parsers.{Parsers}
use tevm.ForkDb.{Context}
use tevm.Prelude.{ℕ, String, if◌then◌else◌}
use tevm.Prelude.Outcome.{Outcome, ok, err, Exec, raise, lift, modify, ◌>>=◌, ◌>>◌, unknown_field}
use tevm.TinyEvm.{TinyEvm}
use text.Mathlib.Text.{◌==◌ as str_eq}

module _ (cx : Context) (parsers : Parsers) where
  -- the macro `set_env_field`, on the parsed value
  unfoldable pub set_env_field :
      Outcome ℕ → (ℕ → TinyEvm cx → TinyEvm cx) → Exec (TinyEvm cx) (Unit {0})
  set_env_field parsed write = do v ← lift parsed; modify (write v)

  unfoldable pub set_env_field_value_inner : String → String → Exec (TinyEvm cx) (Unit {0})
  unfolding set_env_field
  set_env_field_value_inner field text =
      let value = trim_prefix text "0x" in
      if str_eq field "chain_id"
      then set_env_field (parsers.u64_from_hex value) (λ v t. record t { chain_id = v })
      else if str_eq field "gas_price"
      then set_env_field (parsers.u256_from_hex value)
          (λ v t. record t { tx = record t.tx { gas_price = v } })
      else if str_eq field "origin"
      then set_env_field (parsers.address_from_str value)
          (λ v t. record t { tx = record t.tx { caller = v } })
      else if str_eq field "block_number"
      then set_env_field (parsers.u256_from_hex value)
          (λ v t. record t { block = record t.block { number = v } })
      else if str_eq field "block_timestamp"
      then set_env_field (parsers.u256_from_hex value)
          (λ v t. record t { block = record t.block { timestamp = v } })
      else if str_eq field "block_difficulty"
      then set_env_field (parsers.u256_from_hex value)
          (λ v t. record t { block = record t.block { difficulty = v } })
      else if str_eq field "block_gas_limit"
      then set_env_field (parsers.u256_from_hex value)
          (λ v t. record t { block = record t.block { gas_limit = v } })
      else if str_eq field "block_base_fee_per_gas"
      then set_env_field (parsers.u256_from_hex value)
          (λ v t. record t { block = record t.block { basefee = v } })
      else if str_eq field "block_coinbase"
      then set_env_field (parsers.address_from_str value)
          (λ v t. record t { block = record t.block { coinbase = v } })
      else raise unknown_field

  unfoldable pub get_env_value_by_field : String → TinyEvm cx → Outcome String
  get_env_value_by_field field t =
      if str_eq field "gas_price"
      then ok (parsers.hex_66 t.tx.gas_price)
      else if str_eq field "chain_id"
      then ok (parsers.hex_66 t.chain_id)
      else if str_eq field "block_number"
      then ok (parsers.hex_66 t.block.number)
      else if str_eq field "block_timestamp"
      then ok (parsers.hex_66 t.block.timestamp)
      else if str_eq field "block_difficulty"
      then ok (parsers.hex_66 t.block.difficulty)
      else if str_eq field "block_gas_limit"
      then ok (parsers.hex_66 t.block.gas_limit)
      else if str_eq field "block_base_fee_per_gas"
      then ok (parsers.hex_66 t.block.basefee)
      else if str_eq field "origin"
      then ok (parsers.hex_address t.tx.caller)
      else if str_eq field "block_coinbase"
      then ok (parsers.hex_address t.block.coinbase)
      else err unknown_field

  unfoldable pub set_tx_origin : String → Exec (TinyEvm cx) (Unit {0})
  set_tx_origin address = set_env_field_value_inner "origin" address

  unfoldable pub get_owner : TinyEvm cx → String
  get_owner t = parsers.hex_66 t.owner

  unfoldable pub set_owner : String → Exec (TinyEvm cx) (Unit {0})
  set_owner text = do
    owner ← lift (parsers.address_from_str (trim_prefix text "0x"))
    modify (λ t. record t { owner = owner })

  -- `reset` only resets the owner
  unfoldable pub reset_evm : Exec (TinyEvm cx) (Unit {0})
  reset_evm = modify (λ t. record t { owner = 0 })
