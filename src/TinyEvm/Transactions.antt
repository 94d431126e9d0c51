-- ===== src/TinyEvm/Transactions.antt =====
-- src/lib.rs: `deploy_helper` and `contract_call_helper`, and what they clear and collect. The
-- execution of the transaction, `transact_commit` of revm, is a parameter.
use tevm.ForkDb.{Context, ForkDb}
use tevm.Instrument.Bug.{default_heuristics}
use tevm.Instrument.BugInspector.{BugInspector}
use tevm.Instrument.LogInspector.{LogInspector}
use tevm.Prelude.{ℕ, Bool, true, false, List, [], ◌∷◌, Option, none, some, unwrap_or, if◌then◌else◌}
use tevm.External.Execution.{ExecutionResult, HaltReason, TxResult}
use tevm.External.Numbers.{Numbers}
use tevm.External.Printers.{Printers}
use tevm.Response.{Response}
use tevm.Response.Conversion.{response_of}
use tevm.Prelude.Maps
use tevm.Prelude.Outcome.{Exec, pure, raise, gets, modify, ◌>>=◌, ◌>>◌, address_collision}
use tevm.TinyEvm.{
  TinyEvm, TransactTo, bug_inspector, bug_inspector_mut, log_inspector, log_inspector_mut,
}

unfoldable pub is_collision : TxResult → Bool
is_collision (TxResult.executed (ExecutionResult.halt _ HaltReason.create_collision)) = true
is_collision _ = false

-- what `clear_instrumentation` writes to each inspector
abbrev pub cleared_bugs : BugInspector → BugInspector
cleared_bugs ins = record ins {
  bug_data = [];
  created_addresses = [];
  heuristics = default_heuristics;
}

abbrev pub cleared_traces : LogInspector → LogInspector
cleared_traces ins = record ins { traces = []; logs = [] }

module _ (cx : Context) where
  unfoldable pub clear_instrumentation : Exec (TinyEvm cx) (Unit {0})
  clear_instrumentation = do bug_inspector_mut cx cleared_bugs; log_inspector_mut cx cleared_traces

  -- `CALL_DEPTH.get_or_default().set(0)`
  unfoldable pub reset_depth : Exec (TinyEvm cx) (Unit {0})
  reset_depth = modify (λ t. record t { locals = record t.locals { call_depth = 0 } })

  -- the block that fills the transaction
  unfoldable pub set_tx : ℕ → TransactTo → List ℕ → ℕ → Option ℕ → Exec (TinyEvm cx) (Unit {0})
  set_tx caller transact_to content value limit = modify (λ t. record t {
    tx = record t.tx {
      caller = caller;
      transact_to = transact_to;
      content = content;
      value = value;
      gas_limit = unwrap_or limit t.tx_gas_limit;
    };
  })

  -- `managed_addresses.insert(..)`, unless no address was created
  unfoldable pub manage : ℕ → List ℕ → Exec (TinyEvm cx) (Unit {0})
  manage address [] = pure tt
  manage address (a ∷ addresses) = bug_inspector_mut cx (λ ins. record ins {
    managed_addresses = Maps.insert address (a ∷ addresses) ins.managed_addresses;
  })

  -- the nonce of the owner, as far as the database holds the account
  unfoldable pub nonce_of : ℕ → ForkDb → ℕ
  nonce_of owner db = elim (Maps.get db.accounts owner) [
    | none ↦ 0
    | some account ↦ account.info.nonce
  ]

  -- the insertion into `create_address_overrides`
  unfoldable pub override_create : ℕ → Option ℕ → Exec (TinyEvm cx) (Unit {0})
  override_create address none = pure tt
  override_create address (some force_address) = bug_inspector_mut cx (λ ins. record ins {
    create_address_overrides = Maps.insert address force_address ins.create_address_overrides;
  })

module _ (cx : Context) (n : Numbers) (p : Printers) where
  -- The `RevmResult` of a deployment, or of a call with the addresses that the database ignored,
  -- and its conversion into a `Response`.
  unfoldable pub collect : TxResult → List ℕ → Exec (TinyEvm cx) Response
  collect result ignored = do
    bugs ← bug_inspector cx
    tracer ← log_inspector cx
    pure (
        response_of cx.ext n p (record {
          result = result;
          bug_data = bugs.bug_data;
          heuristics = bugs.heuristics;
          seen_pcs = bugs.pcs_by_address;
          traces = tracer.traces;
          transient_logs = tracer.logs;
          ignored_addresses = ignored;
        }))

  module _ (transact_commit : Exec (TinyEvm cx) TxResult) where
    unfoldable pub deploy_helper : ℕ → List ℕ → ℕ → Option ℕ → Option ℕ → Exec (TinyEvm cx) Response
    deploy_helper owner contract_bytecode value limit force_address = do
      reset_depth cx
      clear_instrumentation cx
      bug_inspector_mut cx (λ ins. record ins { pcs_by_address = [] })
      set_tx cx owner TransactTo.create contract_bytecode value limit
      db ← gets (λ t. t.db)
      override_create cx (cx.ext.create_address owner (nonce_of cx owner db)) force_address
      result ← transact_commit
      if is_collision result
          then raise (address_collision (cx.ext.create_address owner (nonce_of cx owner db)))
          else (do
            bugs ← bug_inspector cx
            manage cx (cx.ext.create_address owner (nonce_of cx owner db)) bugs.created_addresses
            collect result [])

    unfoldable pub contract_call_helper : ℕ → ℕ → List ℕ → ℕ → Option ℕ → Exec (TinyEvm cx) Response
    contract_call_helper contract sender content value limit = do
      clear_instrumentation cx
      reset_depth cx
      set_tx cx sender (TransactTo.call contract) content value limit
      result ← transact_commit
      bugs ← bug_inspector cx
      manage cx contract bugs.created_addresses
      db ← gets (λ t. t.db)
      collect result db.ignored_addresses
