-- ===== src/ChainInspector.antt =====
-- src/chain_inspector.rs: the two inspectors, run in order by each hook.
pub mod Hooks
use tevm.External.{Externals, Interpreter}
use tevm.External.Calls.{CallInputs, CallOutcome, EvmLog}
use tevm.Instrument.BugInspector.{BugInspector}
use tevm.Instrument.BugInspector.CreateEnd
use tevm.Instrument.BugInspector.CreateEnd.{CreateOutcome}
use tevm.Instrument.BugInspector.Step
use tevm.Instrument.BugInspector.StepEnd
use tevm.Instrument.LogInspector
use tevm.Instrument.LogInspector.{LogInspector, Locals, Tracing}
use tevm.Prelude.{Option, none, some, HashMap}
use tevm.Prelude.Outcome.{Outcome, ok, and_then}

pub record ChainInspector : Type 0 where
  pub log_inspector : Option LogInspector
  pub bug_inspector : Option BugInspector

-- The inspectors, and the thread-local cells that their hooks use.
pub record Chain : Type 0 where
  pub locals : Locals
  pub inspectors : ChainInspector

-- `LogInspector` leaves `step`, `step_end`, `create` and `create_end` to the defaults of the trait,
-- and `BugInspector` leaves `log`, `call`, `call_end` and `create`; the defaults do nothing and
-- return `None` or the outcome that they are given.
module _ (ext : Externals) (interp : Interpreter) where
  unfoldable pub step : Chain → Chain
  step c = elim c.inspectors.bug_inspector [
    | none ↦ c
    | some ins ↦ record c {
      inspectors = record c.inspectors { bug_inspector = some (Step.step ext interp ins) };
    }
  ]

  unfoldable pub step_end : Chain → Outcome Chain
  step_end c = elim c.inspectors.bug_inspector [
    | none ↦ ok c
    | some ins ↦
        and_then (StepEnd.step_end ext interp ins)
          λ ins'. ok (record c { inspectors = record c.inspectors { bug_inspector = some ins' } })
  ]

abbrev tracing : Chain → LogInspector → Tracing
tracing c ins = record { locals = c.locals; inspector = ins }

-- the state after a hook of the log inspector
abbrev traced : Chain → Tracing → Chain
traced c t = record {
  locals = t.locals;
  inspectors = record c.inspectors { log_inspector = some t.inspector };
}

unfoldable pub log : EvmLog → Chain → Chain
log evm_log c = elim c.inspectors.log_inspector [
  | none ↦ c
  | some ins ↦ traced c (LogInspector.log evm_log (tracing c ins))
]

-- The first result is what the hook returns: that of the log inspector is dropped, and that of the
-- bug inspector is the default `None`.
unfoldable pub call : CallInputs → Chain → Option CallOutcome × Chain
call inputs c = elim c.inspectors.log_inspector [
  | none ↦ (none, c)
  | some ins ↦ (none, traced c (LogInspector.call inputs (tracing c ins)))
]

unfoldable pub call_end : CallOutcome → Chain → Outcome (CallOutcome × Chain)
call_end outcome c = elim c.inspectors.log_inspector [
  | none ↦ ok (outcome, c)
  | some ins ↦
      and_then (LogInspector.call_end outcome (tracing c ins)) λ t. ok (outcome, traced c t)
]

-- `create`: both inspectors have the default
unfoldable pub create {ℓ} : {R : Type ℓ} → Chain → Option R × Chain
create c = (none, c)

unfoldable pub create_end :
    {R A : Type 0} → HashMap A → CreateOutcome R → Chain → HashMap A × CreateOutcome R
create_end state outcome c = elim c.inspectors.bug_inspector [
  | none ↦ (state, outcome)
  | some ins ↦ CreateEnd.create_end ins state outcome
]
