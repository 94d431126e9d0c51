-- ===== src/TinyEvm/Environment/Fields.antt =====
-- src/lib.rs: the fields of the environment as an enumeration.
use tevm.Common.Text.{trim_prefix}
use tevm.External.Parsers.{Parsers}
use tevm.ForkDb.{Context}
use tevm.Prelude.{ℕ, ◌≡◌, refl, ap, ◌∙◌, String, ◌==◌, arith, if◌then◌else◌}
use tevm.Prelude.Outcome.{Outcome, ok, lift, modify, ◌>>=◌}
use tevm.TinyEvm.{TinyEvm}
use tevm.TinyEvm.Environment.{set_env_field_value_inner, get_env_value_by_field}

pub data Field : Type 0 where
  gas_price origin chain_id block_number block_coinbase : Field
  block_timestamp block_difficulty block_gas_limit block_base_fee_per_gas : Field

abbrev pub name_of : Field → String
name_of Field.gas_price = "gas_price"
name_of Field.origin = "origin"
name_of Field.chain_id = "chain_id"
name_of Field.block_number = "block_number"
name_of Field.block_coinbase = "block_coinbase"
name_of Field.block_timestamp = "block_timestamp"
name_of Field.block_difficulty = "block_difficulty"
name_of Field.block_gas_limit = "block_gas_limit"
name_of Field.block_base_fee_per_gas = "block_base_fee_per_gas"

abbrev pub index_of : Field → ℕ
index_of Field.gas_price = 0
index_of Field.origin = 1
index_of Field.chain_id = 2
index_of Field.block_number = 3
index_of Field.block_coinbase = 4
index_of Field.block_timestamp = 5
index_of Field.block_difficulty = 6
index_of Field.block_gas_limit = 7
index_of Field.block_base_fee_per_gas = 8

module _ (parsers : Parsers) where
  -- how the text of a field is parsed, and its value printed
  abbrev pub parse : Field → String → Outcome ℕ
  parse Field.chain_id = parsers.u64_from_hex
  parse Field.origin = parsers.address_from_str
  parse Field.block_coinbase = parsers.address_from_str
  parse _ = parsers.u256_from_hex

  abbrev pub print : Field → ℕ → String
  print Field.origin = parsers.hex_address
  print Field.block_coinbase = parsers.hex_address
  print _ = parsers.hex_66

module _ (cx : Context) where
  abbrev pub value_of : Field → TinyEvm cx → ℕ
  value_of Field.gas_price t = t.tx.gas_price
  value_of Field.origin t = t.tx.caller
  value_of Field.chain_id t = t.chain_id
  value_of Field.block_number t = t.block.number
  value_of Field.block_coinbase t = t.block.coinbase
  value_of Field.block_timestamp t = t.block.timestamp
  value_of Field.block_difficulty t = t.block.difficulty
  value_of Field.block_gas_limit t = t.block.gas_limit
  value_of Field.block_base_fee_per_gas t = t.block.basefee

  abbrev pub write : Field → ℕ → TinyEvm cx → TinyEvm cx
  write Field.gas_price v t = record t { tx = record t.tx { gas_price = v } }
  write Field.origin v t = record t { tx = record t.tx { caller = v } }
  write Field.chain_id v t = record t { chain_id = v }
  write Field.block_number v t = record t { block = record t.block { number = v } }
  write Field.block_coinbase v t = record t { block = record t.block { coinbase = v } }
  write Field.block_timestamp v t = record t { block = record t.block { timestamp = v } }
  write Field.block_difficulty v t = record t { block = record t.block { difficulty = v } }
  write Field.block_gas_limit v t = record t { block = record t.block { gas_limit = v } }
  write Field.block_base_fee_per_gas v t = record t { block = record t.block { basefee = v } }

  value_of-write :
      (f g : Field) (v : ℕ) (t : TinyEvm cx)
      → value_of g (write f v t) ≡ (if index_of f == index_of g then v else value_of g t)
  value_of-write f g v t = ground arith

  module _ (parsers : Parsers) where
    set_env_field_value_inner-write :
        (f : Field) (text : String) (t : TinyEvm cx)
        → set_env_field_value_inner cx parsers (name_of f) text t
          ≡ (lift (parse parsers f (trim_prefix text "0x")) >>= λ v. modify (write f v)) t
    unfolding set_env_field_value_inner
    set_env_field_value_inner-write Field.gas_price text t = refl
    set_env_field_value_inner-write _ text t = refl

    get_env_value_by_field-value_of :
        (g : Field) (t : TinyEvm cx)
        → get_env_value_by_field cx parsers (name_of g) t ≡ ok (print parsers g (value_of g t))
    unfolding get_env_value_by_field
    get_env_value_by_field-value_of Field.gas_price t = refl
    get_env_value_by_field-value_of _ t = refl

    -- Each of the nine fields is set by its name: if the text, without a leading "0x", is parsed to a
    -- value, the field is read back as that value, printed, and every other field reads as before.
    pub set_env_field_value_reads :
        (f g : Field) (text : String) (t : TinyEvm cx) {v : ℕ}
        → parse parsers f (trim_prefix text "0x") ≡ ok v
        → let r = set_env_field_value_inner cx parsers (name_of f) text t in
          (r.0 ≡ ok tt)
          × (get_env_value_by_field cx parsers (name_of g) r.1
              ≡ ok (print parsers g (if index_of f == index_of g then v else value_of g t)))
    set_env_field_value_reads f g text t {v} parsed =
        let done : set_env_field_value_inner cx parsers (name_of f) text t ≡ (ok tt, write f v t) =
          set_env_field_value_inner-write f text t
          ∙ ap (λ p. (lift p >>= λ u. modify (write f u)) t) parsed in
        (
          ap (λ r. r.0) done,
          ap (λ r. get_env_value_by_field cx parsers (name_of g) r.1) done
              ∙ get_env_value_by_field-value_of g (write f v t)
              ∙ ap (λ u. ok (print parsers g u)) (value_of-write f g v t),
        )
