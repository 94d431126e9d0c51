-- ===== src/Tests/Reached.antt =====
-- The theorem on the states that the database reaches, at a concrete one.
use tevm.ForkDb
use tevm.ForkDb.{AccountInfo, World, new_db}
use tevm.ForkDb.Accounts
use tevm.ForkDb.Contracts.{HoldsCode, MatchesCode}
use tevm.ForkDb.Database
use tevm.ForkDb.Database.{on_db}
use tevm.ForkDb.Steps.{Reached, DbStep, created, next, insert_account_info, idle, after}
use tevm.ForkDb.Steps.CodeHeld.{KnowsCode, basic-KnowsCode}
use tevm.Prelude.{ℕ, ◌≡◌, List, refl, ◌∷◌, some, none, false, inl, inr, ap, some_inj, true, []}
use tevm.Prelude.Maps
use tevm.Prelude.Outcome.{ok, Exec}
use tevm.Tests.{ext, context, disk}
use tevm.Tests.Evm.{evm, parsers}
use tevm.TinyEvm.Requests.{contract_call, address_or, bytes_or, value_or}
use tevm.Common.BigInts.{bigint_to_ruint_u256}
use tevm.External.Numbers
use tevm.Tests.Libraries
use tevm.TinyEvm.{
  TinyEvm, db_mut, world_of, bug_inspector, bug_inspector_mut, log_inspector, log_inspector_mut,
}
use tevm.TinyEvm.Accounts as Operations
use tevm.TinyEvm.Steps.{RequestRuns, Requested}
use tevm.TinyEvm.Reaching.{TransactRuns}
use tevm.TinyEvm.Transactions.{
  contract_call_helper, clear_instrumentation, reset_depth, set_tx, manage, collect,
}
use tevm.Tests.Libraries.{numbers, printers}
use tevm.External.Execution.{ExecutionResult, Output, TxResult}
use tevm.ForkDb.Commit
use tevm.ForkDb.Commit.{Account, commit}
use tevm.TinyEvm.Steps.CodeRead.{IsCodeOf, get_code_by_address-IsCodeOf}
use tevm.Words.{u64_max}

-- an account of two bytes of code, before its code is hashed
abbrev given : AccountInfo
given = record { balance = 40; nonce = 2; code_hash = 7; code = some (9 ∷ 9 ∷ []); padding = [] }

abbrev fresh : World context
fresh = record { db = new_db false none u64_max; store = disk; call_depth = 0 }

abbrev filled : World context
filled = on_db context (Accounts.insert_account_info context.ext 4 given) fresh

filled-Reached : Reached context filled
unfolding ForkDb.create_with_provider ForkDb.max_fork_depth_of
filled-Reached =
    next (created false none none fresh refl)
      (insert_account_info 4 given fresh (λ b code e. inl refl))

basic-KnowsCode_example :
    HoldsCode context.ext filled.db × KnowsCode context (record given { code_hash = 25 })
unfolding Database.basic Accounts.insert_account_info Accounts.insert_contract Accounts.insert_code
    Accounts.filed_hash Accounts.or_insert_contract Maps.get Maps.insert Maps.remove Maps.entry_or
basic-KnowsCode_example = basic-KnowsCode context 4 filled filled-Reached refl

abbrev new_evm : TinyEvm context
new_evm = record evm { db = new_db false none u64_max }

-- the account 4 after a transaction, with its code
abbrev paid : Account
paid = record {
  info = record {
    balance = 50;
    nonce = 1;
    code_hash = 25;
    code = some (9 ∷ 9 ∷ []);
    padding = 0 ∷ [];
  };
  storage = (5, 6) ∷ [];
  is_touched = true;
  is_selfdestructed = false;
  is_created = false;
}

-- a transaction that pays the account 4
abbrev pays : Exec (TinyEvm context) TxResult
pays t = (
  ok (TxResult.executed (ExecutionResult.success 21_000 (Output.call []))),
  record t { db = commit ext ((4, paid) ∷ []) t.db },
)

paid-MatchesCode : MatchesCode ext paid.info
paid-MatchesCode b code e = inr (ap ext.keccak256 (some_inj e))

pays-TransactRuns : TransactRuns context pays
pays-TransactRuns t =
    after (idle (world_of context t))
      (DbStep.commit ((4, paid) ∷ []) (world_of context t) (paid-MatchesCode, tt))

-- the instance after the code of the account 4 was set, and after a call that pays the account
abbrev coded : TinyEvm context
coded = (Operations.set_code_by_address context 4 (9 ∷ 9 ∷ []) new_evm).1

abbrev called : TinyEvm context
called = (contract_call context numbers printers parsers pays "0x04" none none none coded).1

get_code_by_address-IsCodeOf_example :
    (code : List ℕ) × ((Operations.get_code_by_address context 4 called).0 ≡ ok code)
    × IsCodeOf context code paid.info
    × HoldsCode context.ext (world_of context called).db
unfolding ForkDb.create_with_provider ForkDb.max_fork_depth_of Database.basic
    Accounts.insert_account_info Accounts.insert_contract Accounts.insert_code Accounts.filed_hash
    Accounts.or_insert_contract Maps.get Maps.insert Maps.remove Maps.entry_or
    Operations.set_code_by_address Operations.info_with_code db_mut contract_call_helper
    contract_call address_or bytes_or value_or bigint_to_ruint_u256 Numbers.reversed
    Libraries.le_digits clear_instrumentation bug_inspector_mut log_inspector_mut reset_depth set_tx
    bug_inspector log_inspector manage collect commit Commit.commit_account Commit.committed
    Maps.extend
get_code_by_address-IsCodeOf_example =
    get_code_by_address-IsCodeOf context numbers printers parsers pays pays-TransactRuns false none
      none {t = new_evm} {t' = called} 4 refl
      (RequestRuns.after
        (RequestRuns.after (RequestRuns.idle new_evm)
          (Requested.set_code_by_address 4 (9 ∷ 9 ∷ []) new_evm))
        (Requested.contract_call "0x04" none none none coded))
      refl
