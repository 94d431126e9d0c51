-- ===== src/Tests/Evm.antt =====
-- The theorems on `TinyEVM`, at concrete inputs.
use tevm.External.Execution.{ExecutionResult, Output, TxResult}
use tevm.Tests.Libraries.{numbers, printers}
use tevm.External.Parsers.{Parsers}
use tevm.Instrument.Bug.{BugType, default_heuristics}
use tevm.Instrument.BugInspector.{default_bug_inspector}
use tevm.Prelude.{ap, ◌≡◌, refl, true, false, [], ◌∷◌, none, some, ◌==◌, if◌then◌else◌}
use tevm.Prelude.Maps
use tevm.Prelude.Outcome.{ok, err, Exec, no_snapshot}
use tevm.Tests.{bug_of, context, disk, ext, fork, tracer, at}
use tevm.TinyEvm.{
  TinyEvm, TransactTo, bug_inspector, bug_inspector_mut, log_inspector, log_inspector_mut,
}
use tevm.TinyEvm.Managed.{RunsHooks, chain_of, managed_in, contract_call_manages_none}
use tevm.ChainInspector
use tevm.Instrument.BugInspector.Step
use tevm.ChainInspector.Hooks.{Hooked, Runs}
use mathlib.Core.Path.{subst}
use tevm.TinyEvm.Accounts.{is_fork_enabled, default_balance, get_eth_balance}
use tevm.TinyEvm.Isolation.{
  inspected, leftover_bugs, leftover_traces, contract_call_forgets, deploy_forgets,
}
use tevm.TinyEvm.Construction.{Setup, new_instance}
use tevm.TinyEvm.Construction.Offline.{new_instance_offline}
use tevm.TinyEvm.Environment.{set_env_field_value_inner, get_env_value_by_field}
use tevm.TinyEvm.Environment.Fields.{Field, set_env_field_value_reads}
use tevm.TinyEvm.SnapshotLaws.{take_global_snapshot-restore}
use tevm.TinyEvm.Snapshots.{take_global_snapshot, restore_global_snapshot}
use tevm.TinyEvm.Transactions.{
  clear_instrumentation, reset_depth, set_tx, manage, collect, contract_call_helper, deploy_helper,
}

abbrev pub evm : TinyEvm context
evm = record {
  db = fork;
  store = disk;
  locals = record { counter = 0; call_depth = 0 };
  inspectors = record { log_inspector = some tracer; bug_inspector = some default_bug_inspector };
  tx = record {
    caller = 0;
    transact_to = TransactTo.create;
    content = [];
    value = 0;
    gas_limit = 0;
    gas_price = 0;
  };
  block = record {
    number = 0;
    coinbase = 0;
    timestamp = 1;
    difficulty = 0;
    gas_limit = 0;
    basefee = 0;
  };
  chain_id = 1;
  owner = 1;
  tx_gas_limit = 30_000_000;
  snapshots = [];
  global_snapshot = [];
}

abbrev pub parsers : Parsers
parsers = record {
  address_from_str = λ _. ok 1;
  uuid_parse_str = λ _. ok 11;
  uuid_to_string = λ _. "id";
  u256_from_hex = λ _. ok 64;
  u64_from_hex = λ _. ok 64;
  hex_66 = λ _. "0x40";
  hex_address = λ _. "0x01";
}

-- a transaction that reports one more bug and succeeds
abbrev transact : Exec (TinyEvm context) TxResult
transact t =
    let (_, t') =
      bug_inspector_mut context
        (λ ins. record ins { bug_data = bug_of BugType.integer_overflow ∷ ins.bug_data }) t in
    (ok (TxResult.executed (ExecutionResult.success 21_000 (Output.call []))), t')

contract_call_forgets_example :
    contract_call_helper context numbers printers transact 8 9 [] 0 none (
      inspected context
        (leftover_bugs (bug_of (BugType.jumpi 3) ∷ []) [] default_heuristics default_bug_inspector)
        (leftover_traces [] [] tracer)
        4
        evm)
    ≡ contract_call_helper context numbers printers transact 8 9 [] 0 none
        (inspected context default_bug_inspector tracer 0 evm)
contract_call_forgets_example =
    contract_call_forgets context numbers printers transact 8 9 [] 0 none evm default_bug_inspector
      tracer 4 0 (bug_of (BugType.jumpi 3) ∷ []) [] default_heuristics [] []

deploy_forgets_example :
    deploy_helper context numbers printers transact 1 (96 ∷ []) 0 none none (
      inspected context
        (record (leftover_bugs
          (bug_of (BugType.jumpi 3) ∷ [])
          []
          default_heuristics
          default_bug_inspector) { pcs_by_address = (8, 3 ∷ []) ∷ [] })
        (leftover_traces [] [] tracer)
        4
        evm)
    ≡ deploy_helper context numbers printers transact 1
        (96 ∷ [])
        0
        none
        none
        (inspected context default_bug_inspector tracer 0 evm)
deploy_forgets_example =
    deploy_forgets context numbers printers transact 1 (96 ∷ []) 0 none none evm
      default_bug_inspector tracer 4 0 (bug_of (BugType.jumpi 3) ∷ []) [] default_heuristics
      ((8, 3 ∷ []) ∷ []) [] []

-- the same instance, with the snapshots that it has taken and no account
abbrev emptied : TinyEvm context → TinyEvm context
emptied t = record t { db = record t.db { accounts = [] } }

take_global_snapshot-restore_example :
    let later = emptied (take_global_snapshot context parsers 11 evm).1 in
    let r = restore_global_snapshot context parsers "id" false later in
    (r.0 ≡ ok tt)
    × (r.1.db ≡ evm.db)
    × ((restore_global_snapshot context parsers "id" false r.1).0
        ≡ (if false then ok tt else err no_snapshot))
take_global_snapshot-restore_example =
    take_global_snapshot-restore context parsers 11 "id" false evm
      (emptied (take_global_snapshot context parsers 11 evm).1) refl refl

-- a transaction of one instruction, which succeeds
abbrev one_step : Exec (TinyEvm context) TxResult
one_step t =
    let c = ChainInspector.step ext (at 1 []) (chain_of context t) in
    (
      ok (TxResult.executed (ExecutionResult.success 3 (Output.call []))),
      record t { locals = c.locals; inspectors = c.inspectors },
    )

one_step-RunsHooks : RunsHooks context one_step
one_step-RunsHooks = record {
  runs = λ t e.
      subst (λ u. Runs ext (chain_of context t) (chain_of context u)) (ap (λ p. p.1) e)
        (Runs.next (Runs.done (chain_of context t)) (Hooked.step (at 1 []) (chain_of context t)));
}

contract_call_manages_none_example :
    managed_in context (contract_call_helper context numbers printers one_step 8 9 [] 0 none evm).1
    ≡ some []
unfolding contract_call_helper clear_instrumentation reset_depth set_tx bug_inspector_mut
    log_inspector_mut bug_inspector log_inspector manage collect ChainInspector.step Step.step
contract_call_manages_none_example =
    contract_call_manages_none context numbers printers one_step 8 9 [] 0 none evm
      one_step-RunsHooks refl

set_env_field_value_reads_example :
    let r = set_env_field_value_inner context parsers "block_number" "0x40" evm in
    (r.0 ≡ ok tt) × (get_env_value_by_field context parsers "block_number" r.1 ≡ ok "0x40")
set_env_field_value_reads_example =
    set_env_field_value_reads context parsers Field.block_number Field.block_number "0x40" evm refl

-- parsers that print and parse the address 0
abbrev zero_parsers : Parsers
zero_parsers = record parsers { address_from_str = λ _. ok 0 }

abbrev pub setup : Setup
setup = record {
  runtime_new = ok tt;
  provider_try_from = λ _. ok tt;
  max_fork_depth = some (some 4);
  default_tx = evm.tx;
  default_block = evm.block;
  default_chain_id = 1;
}

new_instance_offline_example :
    (t : TinyEvm context) × (new_instance context setup none (some 7) true evm.locals disk
      ≡ (ok t, disk))
    × (is_fork_enabled context t ≡ false)
    × (get_eth_balance context 0 t ≡ (ok default_balance, t))
    × ((0 == 5) ≡ false → Maps.get t.db.accounts 5 ≡ none)
new_instance_offline_example = new_instance_offline context setup (some 7) true evm.locals disk 5
