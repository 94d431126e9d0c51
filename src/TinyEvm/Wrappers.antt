-- ===== src/TinyEvm/Wrappers.antt =====
-- src/lib.rs: the methods for Python on balances, code, storage and the fork, which parse their
-- arguments and print their results.
use tevm.Common.BigInts.{bigint_to_ruint_u256, ruint_u256_to_bigint}
use tevm.Common.Text.{trim_prefix}
use tevm.External.Numbers.{BigInt, Numbers}
use tevm.External.Parsers.{Parsers}
use tevm.External.Printers.{Printers}
use tevm.ForkDb.{Context}
use tevm.Prelude.{Bool, List, [], String, map}
use tevm.Prelude.Maps
use tevm.Prelude.Outcome.{Outcome, ok, Exec, pure, lift, ◌>>=◌, and_then}
use tevm.Prelude.Texts.{with_0x}
use tevm.TinyEvm.{TinyEvm, log_inspector_mut}
use tevm.TinyEvm.Accounts.{
  get_eth_balance, set_account_balance, get_code_by_address, set_code_by_address,
  set_storage_by_address, get_storage_by_address, reset_storage,
}

module _ (cx : Context) (p : Printers) where
  unfoldable pub get_forked_addresses : TinyEvm cx → List String
  get_forked_addresses t =
      map (λ entry. with_0x (p.lower_hex_address entry.0)) t.db.remote_addresses

module _ (cx : Context) (n : Numbers) (parsers : Parsers) where
  unfoldable pub get_forked_slots : String → TinyEvm cx → Outcome (List BigInt)
  get_forked_slots text t =
      and_then (parsers.address_from_str text) λ address.
        ok (map (ruint_u256_to_bigint n) (Maps.entry_or [] t.db.remote_addresses address))

  unfoldable pub get_balance : String → Exec (TinyEvm cx) BigInt
  get_balance text = do
    addr ← lift (parsers.address_from_str (trim_prefix text "0x"))
    balance ← get_eth_balance cx addr
    pure (ruint_u256_to_bigint n balance)

  unfoldable pub set_balance : String → BigInt → Exec (TinyEvm cx) (Unit {0})
  set_balance text balance = do
    addr ← lift (parsers.address_from_str (trim_prefix text "0x"))
    amount ← lift (bigint_to_ruint_u256 n balance)
    set_account_balance cx addr amount

  unfoldable pub get_storage : String → String → TinyEvm cx → Outcome BigInt
  get_storage addr_text index_text t =
      and_then (parsers.address_from_str (trim_prefix addr_text "0x")) λ addr.
        and_then (parsers.u256_from_hex (trim_prefix index_text "0x")) λ index.
          and_then (get_storage_by_address cx addr index t) λ s. ok (ruint_u256_to_bigint n s)

module _ (cx : Context) (parsers : Parsers) where
  unfoldable pub set_storage : String → String → String → Exec (TinyEvm cx) (Unit {0})
  set_storage addr_text index_text value_text = do
    addr ← lift (parsers.address_from_str (trim_prefix addr_text "0x"))
    value ← lift (parsers.u256_from_hex (trim_prefix value_text "0x"))
    index ← lift (parsers.u256_from_hex (trim_prefix index_text "0x"))
    set_storage_by_address cx addr index value

  unfoldable pub reset_storage_by_account : String → Exec (TinyEvm cx) (Unit {0})
  reset_storage_by_account text = do
    addr ← lift (parsers.address_from_str text)
    reset_storage cx addr

module _ (cx : Context) (p : Printers) (parsers : Parsers) where
  unfoldable pub get_code : String → Exec (TinyEvm cx) String
  get_code text = do
    addr ← lift (parsers.address_from_str text)
    code ← get_code_by_address cx addr
    pure (p.hex_encode code)

  unfoldable pub set_code : String → String → Exec (TinyEvm cx) (Unit {0})
  set_code text code_text = do
    addr ← lift (parsers.address_from_str text)
    code ← lift (p.hex_decode code_text)
    set_code_by_address cx addr code

module _ (cx : Context) where
  unfoldable pub set_evm_tracing : Bool → Exec (TinyEvm cx) (Unit {0})
  set_evm_tracing enabled = log_inspector_mut cx (λ ins. record ins { trace_enabled = enabled })
