-- ===== src/ChainInspector/Hooks.antt =====
-- src/chain_inspector.rs: runs of the hooks, in any order.
use tevm.ChainInspector
use tevm.ChainInspector.{Chain}
use tevm.External.{Externals, Interpreter}
use tevm.External.Calls.{CallInputs, CallOutcome, EvmLog}
use tevm.Instrument.Bug.{InstrumentConfig}
use tevm.Instrument.BugInspector.Fixed.{fixed, fixed-step, fixed-step_end}
use tevm.Instrument.BugInspector.StepEnd
use tevm.Instrument.LogInspector
use tevm.Instrument.LogInspector.{Tracing}
use tevm.Prelude.{
  ℕ, ◌≡◌, refl, ◌∙◌, Option, none, some, arith, Option-cases, inl, inr, List, HashMap,
}
use tevm.Prelude.Outcome.{ok, Outcome-cases, returned, failed, panicked}

-- One hook that revm runs, and the state after it. The hooks `create` and `create_end` leave the
-- inspectors as they are.
pub data Hooked (ext : Externals) : Chain → Chain → Type 0 where
  step : (interp : Interpreter) (c : Chain) → Hooked ext c (ChainInspector.step ext interp c)
  step_end :
      (interp : Interpreter) (c c' : Chain)
      → ChainInspector.step_end ext interp c ≡ ok c'
      → Hooked ext c c'
  log : (evm_log : EvmLog) (c : Chain) → Hooked ext c (ChainInspector.log evm_log c)
  call : (inputs : CallInputs) (c : Chain) → Hooked ext c (ChainInspector.call inputs c).1
  call_end :
      (outcome : CallOutcome) (c c' : Chain)
      → ChainInspector.call_end outcome c ≡ ok (outcome, c')
      → Hooked ext c c'

-- Any number of hooks, in any order.
pub data Runs (ext : Externals) : Chain → Chain → Type 0 where
  done : (c : Chain) → Runs ext c c
  next : {a b c : Chain} → Runs ext a b → Hooked ext b c → Runs ext a c

-- the fixed fields of the bug inspector, if there is one
abbrev pub fixed_in : Chain → Option (List ℕ × HashMap (List ℕ) × HashMap ℕ × InstrumentConfig)
fixed_in c = elim c.inspectors.bug_inspector [ none ↦ none | some ins ↦ some (fixed ins) ]

module _ (ext : Externals) where
  Hooked-fixed : {c c' : Chain} → Hooked ext c c' → fixed_in c' ≡ fixed_in c
  unfolding ChainInspector.step ChainInspector.step_end ChainInspector.log ChainInspector.call
      ChainInspector.call_end
  Hooked-fixed (step interp c) = elim (Option-cases c.inspectors.bug_inspector) [
    | inl absent ↦ ground (arith, absent)
    | inr (ins, e) ↦ ground (arith, e, fixed-step ext interp ins)
  ]
  Hooked-fixed (step_end interp c c' e) = elim (Option-cases c.inspectors.bug_inspector) [
    | inl absent ↦ ground (arith, e, absent)
    | inr (ins, held) ↦ elim (Outcome-cases (StepEnd.step_end ext interp ins)) [
      | returned ins' r ↦ ground (arith, e, held, r, fixed-step_end ext interp ins r)
      | failed x r ↦ ground (arith, e, held, r)
      | panicked r ↦ ground (arith, e, held, r)
    ]
  ]
  Hooked-fixed (log evm_log c) = ground arith
  Hooked-fixed (call inputs c) = ground arith
  Hooked-fixed (call_end outcome c c' e) = elim (Option-cases c.inspectors.log_inspector) [
    | inl absent ↦ ground (arith, e, absent)
    | inr (ins, held) ↦
        let t : Tracing = record { locals = c.locals; inspector = ins } in
        elim (Outcome-cases (LogInspector.call_end outcome t)) [
          | returned t' r ↦ ground (arith, e, held, r)
          | failed x r ↦ ground (arith, e, held, r)
          | panicked r ↦ ground (arith, e, held, r)
        ]
  ]

  -- Whatever hooks run, in any order, the created and managed addresses, the overrides of created
  -- addresses and the configuration stay as they were: no hook records a created address.
  pub Runs-fixed : {c c' : Chain} → Runs ext c c' → fixed_in c' ≡ fixed_in c
  Runs-fixed (done c) = refl
  Runs-fixed (next runs hooked) = Hooked-fixed hooked ∙ Runs-fixed runs
