-- ===== src/Tests/Requests.antt =====
-- The theorems on the requests and the wrappers of src/lib.rs, at concrete inputs.
use tevm.External.Execution.{ExecutionResult, Output, TxResult}
use tevm.External.Numbers.{BigInt}
use tevm.External.Parsers.{Parsers}
use tevm.ForkDb.Database.{basic, held_slot, storage, insert_account_storage}
use tevm.Prelude.{◌≡◌, refl, ap, true, false, [], none, some, ◌⊎◌, ◌==◌, ◌&&◌}
use tevm.Prelude.Maps
use tevm.Prelude.Outcome.{ok, err, ok≢err, Exec, foreign, bigint_negative}
use tevm.Response.{Response}
use tevm.Response.Conversion.{
  response_of, success_of, gas_of, data_of, content_of, reason_of, exit_reason_of,
}
use tevm.Instrument.Bug.{default_heuristics}
use tevm.Tests.{context}
use tevm.Tests.Evm.{evm, parsers}
use tevm.Tests.Libraries.{
  le_digits, le_fixed, numbers, numbers-CountsBytes, printers, printers-KeepsAddresses,
  printers-ReadsResults,
}
use tevm.TinyEvm.{
  TinyEvm, world_of, bug_inspector_mut, log_inspector_mut, bug_inspector, log_inspector, db_mut,
  run_db,
}
use tevm.TinyEvm.Errors.{NeverErrs, IsCollision}
use tevm.TinyEvm.Funding.{ReportsBalance, deterministic_deploy_funds}
use tevm.TinyEvm.Refusals.{contract_call_refused, deterministic_deploy_refused, DeployedUnfunded}
use tevm.TinyEvm.Reports.{ReportsRun, contract_call_helper-Reports}
use tevm.Common.BigInts.{bigint_to_ruint_u256, ruint_u256_to_bigint, is_minus}
use tevm.External.Numbers.{reversed, le_value}
use tevm.TinyEvm.Accounts.{set_account_balance, set_balance_of, set_storage_by_address}
use tevm.TinyEvm.Requests.{
  address_or, bytes_or, salt_of, force_address_of, value_or, fund, contract_call,
  deterministic_deploy,
}
use tevm.TinyEvm.RoundTrips.{set_balance-get_balance, set_storage-get_storage}
use tevm.TinyEvm.Transactions.{
  deploy_helper, reset_depth, clear_instrumentation, set_tx, override_create, is_collision, collect,
  manage, nonce_of, contract_call_helper,
}
use tevm.TinyEvm.Wrappers.{set_balance, get_balance, set_storage, get_storage}

-- a transaction that deploys at an address
abbrev creates : Exec (TinyEvm context) TxResult
creates t = (ok (TxResult.executed (ExecutionResult.success 21_000 (Output.create [] (some 5)))), t)

creates-NeverErrs : NeverErrs creates
creates-NeverErrs t e t' h = ok≢err (ap (λ x. x.0) h)

-- a parser that takes no address
abbrev refusing : Parsers
refusing = record parsers { address_from_str = λ _. err (foreign 4) }

set_balance-get_balance_example :
    let t' = (set_balance context numbers parsers "0x01" (BigInt.pos 500) evm).1 in
    (get_balance context numbers parsers "0x01" t' ≡ (ok (BigInt.pos 500), t'))
    × ((1 == 2) ≡ false → Maps.get t'.db.accounts 2 ≡ Maps.get evm.db.accounts 2)
unfolding set_balance bigint_to_ruint_u256 reversed le_digits set_account_balance
set_balance-get_balance_example =
    set_balance-get_balance context numbers parsers numbers-CountsBytes "0x01" (BigInt.pos 500) 1 2
      evm refl refl

contract_call_refused_example :
    (contract_call context numbers printers refusing creates "zz" none none none evm).1 ≡ evm
unfolding contract_call address_or
contract_call_refused_example =
    contract_call_refused context numbers printers refusing creates creates-NeverErrs "zz" none none
      none evm refl

set_storage-get_storage_example :
    let t' = (set_storage context parsers "0x01" "0x05" "0x07" evm).1 in
    (get_storage context numbers parsers "0x01" "0x05" t' ≡ ok (BigInt.pos 64))
    × (storage context 1 64 (world_of context t') ≡ (ok 64, world_of context t'))
    × ((1 == 2 && 64 == 3) ≡ false
        → held_slot t'.db 2 3 ≡ held_slot (basic context 1 (world_of context evm)).1.db 2 3)
unfolding set_storage set_storage_by_address run_db insert_account_storage basic Maps.get
    ruint_u256_to_bigint le_value le_fixed
set_storage-get_storage_example =
    set_storage-get_storage context numbers parsers numbers-CountsBytes "0x01" "0x05" "0x07" 1 64 64
      2 3 evm refl refl refl refl

-- a deployment whose contract is to have the balance -1
deterministic_deploy_refused_example :
    let r =
      deterministic_deploy context numbers printers parsers creates "1." none none none none
        (some (BigInt.negsuc 0))
        none
        evm in
    (r.1 ≡ evm)
    ⊎ (IsCollision bigint_negative
        ⊎ DeployedUnfunded context numbers printers parsers creates creates-NeverErrs
            (some (BigInt.negsuc 0))
            bigint_negative
            evm
            r.1)
unfolding deterministic_deploy address_or bytes_or salt_of force_address_of value_or fund
    bigint_to_ruint_u256 reversed le_digits is_minus deploy_helper reset_depth clear_instrumentation
    bug_inspector_mut log_inspector_mut set_tx override_create is_collision bug_inspector
    log_inspector collect manage nonce_of response_of success_of gas_of data_of content_of reason_of
    exit_reason_of le_fixed
deterministic_deploy_refused_example =
    deterministic_deploy_refused context numbers printers parsers creates creates-NeverErrs "1."
      none none none none (some (BigInt.negsuc 0)) none evm printers-KeepsAddresses refl

-- the response of such a transaction
abbrev created : Response
created = record {
  success = true;
  exit_reason = "Success";
  content = printers.address_bytes 5;
  events = [];
  traces = [];
  bug_data = [];
  heuristics = default_heuristics;
  gas_usage = 21_000;
  ignored_addresses = [];
  seen_pcs = [];
}

contract_call_helper-Reports_example :
    ReportsRun context numbers printers creates 8 9 [] 0 none evm created
unfolding contract_call_helper reset_depth clear_instrumentation bug_inspector_mut log_inspector_mut
    set_tx bug_inspector log_inspector collect manage response_of success_of gas_of data_of
    content_of reason_of exit_reason_of
contract_call_helper-Reports_example =
    contract_call_helper-Reports context numbers printers creates 8 9 [] 0 none evm
      printers-ReadsResults refl

-- a deployment whose contract is to have the balance 9
deterministic_deploy_funds_example :
    ReportsBalance context numbers printers numbers-CountsBytes created.content
      (BigInt.pos 9)
      (deterministic_deploy context numbers printers parsers creates "1." none none none none
        (some (BigInt.pos 9))
        none
        evm).1
unfolding deterministic_deploy address_or bytes_or salt_of force_address_of value_or fund
    bigint_to_ruint_u256 reversed le_digits is_minus deploy_helper reset_depth clear_instrumentation
    bug_inspector_mut log_inspector_mut set_tx override_create is_collision bug_inspector
    log_inspector collect manage nonce_of response_of success_of gas_of data_of content_of reason_of
    exit_reason_of set_account_balance set_balance_of db_mut Maps.get Maps.insert Maps.remove
    le_fixed
deterministic_deploy_funds_example =
    deterministic_deploy_funds context numbers printers numbers-CountsBytes parsers creates "1."
      none none none none (BigInt.pos 9) none evm {resp = created} refl refl
