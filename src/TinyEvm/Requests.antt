-- ===== src/TinyEvm/Requests.antt =====
-- src/lib.rs: `deploy`, `deterministic_deploy` and `contract_call`, which parse their arguments and
-- run a transaction.
use tevm.Common.BigInts.{bigint_to_ruint_u256}
use tevm.Common.Text.{trim_prefix}
use tevm.External.Execution.{TxResult}
use tevm.External.Numbers.{BigInt, Numbers}
use tevm.External.Parsers.{Parsers}
use tevm.External.Printers.{Printers}
use tevm.ForkDb.{Context}
use tevm.Prelude.{ℕ, Bool, true, List, [], ◌++◌, Option, none, some, unwrap_or, String}
use tevm.Prelude.Outcome.{Outcome, ok, Exec, pure, lift, gets, ◌>>=◌, ◌>>◌}
use tevm.Response.{Response}
use tevm.TinyEvm.{TinyEvm}
use tevm.TinyEvm.Accounts.{set_account_balance}
use tevm.TinyEvm.Transactions.{deploy_helper, contract_call_helper}

module _ (parsers : Parsers) where
  -- an owner or a sender: the parsed text, or the owner of the instance
  unfoldable pub address_or : Option String → ℕ → Outcome ℕ
  address_or none owner = ok owner
  address_or (some text) owner = parsers.address_from_str (trim_prefix text "0x")

  -- the same in `deploy`, which takes no prefix off
  unfoldable pub plain_address_or : Option String → ℕ → Outcome ℕ
  plain_address_or none owner = ok owner
  plain_address_or (some text) owner = parsers.address_from_str text

  unfoldable pub salt_of : Option String → Outcome ℕ
  salt_of none = ok 0
  salt_of (some salt) = parsers.u256_from_hex (trim_prefix salt "0x")

  -- `deploy_to_address.map(..).transpose()?.unwrap_or_else(..)`
  unfoldable pub force_address_of : Option String → ℕ → Outcome ℕ
  force_address_of none derived = ok derived
  force_address_of (some text) derived = parsers.address_from_str text

module _ (n : Numbers) where
  -- `value.unwrap_or_default()`
  unfoldable pub value_or : Option BigInt → BigInt
  value_or value = unwrap_or value n.default_bigint

module _ (p : Printers) where
  unfoldable pub bytes_or : Option String → Outcome (List ℕ)
  bytes_or none = ok []
  bytes_or (some content) = p.hex_decode content

module _ (cx : Context) (n : Numbers) (p : Printers) where
  -- the balance that the new contract is given
  unfoldable pub fund : Bool → Option BigInt → List ℕ → Exec (TinyEvm cx) (Unit {0})
  fund true (some balance) content = do
    address ← lift (p.address_from_slice content)
    amount ← lift (bigint_to_ruint_u256 n balance)
    set_account_balance cx address amount
  fund _ _ content = pure tt

module _ (cx : Context) (n : Numbers) (p : Printers) (parsers : Parsers)
    (transact_commit : Exec (TinyEvm cx) TxResult) where
  unfoldable pub deploy : String → Option String → Exec (TinyEvm cx) Response
  deploy contract_deploy_code owner_text = do
    self_owner ← gets (λ t. t.owner)
    owner ← lift (plain_address_or parsers owner_text self_owner)
    bytecode ← lift (p.hex_decode contract_deploy_code)
    deploy_helper cx n p transact_commit owner bytecode 0 none none

  unfoldable pub deterministic_deploy :
      String
      → Option String
      → Option String
      → Option String
      → Option BigInt
      → Option BigInt
      → Option String
      → Exec (TinyEvm cx) Response
  deterministic_deploy contract_deploy_code salt_text owner_text content value init_value
        deploy_to_address =
      do
        self_owner ← gets (λ t. t.owner)
        owner ← lift (address_or parsers owner_text self_owner)
        code ← lift (p.hex_decode contract_deploy_code)
        arguments ← lift (bytes_or p content)
        salt ← lift (salt_of parsers salt_text)
        force_address ← lift (
            force_address_of parsers deploy_to_address
              (cx.ext.create2_address owner salt (cx.ext.keccak256 (code ++ arguments))))
        amount ← lift (bigint_to_ruint_u256 n (value_or n value))
        resp ←
            deploy_helper cx n p transact_commit owner (code ++ arguments) amount none
              (some force_address)
        fund cx n p resp.success init_value resp.content
        pure resp

  unfoldable pub contract_call :
      String → Option String → Option String → Option BigInt → Exec (TinyEvm cx) Response
  contract_call contract_text sender_text content_text value = do
    self_owner ← gets (λ t. t.owner)
    sender ← lift (address_or parsers sender_text self_owner)
    contract ← lift (parsers.address_from_str (trim_prefix contract_text "0x"))
    content ← lift (bytes_or p content_text)
    amount ← lift (bigint_to_ruint_u256 n (value_or n value))
    contract_call_helper cx n p transact_commit contract sender content amount none
