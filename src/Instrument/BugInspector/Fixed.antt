-- ===== src/Instrument/BugInspector/Fixed.antt =====
-- src/instrument/bug_inspector.rs: the hooks on the fields that src/lib.rs writes.
use tevm.External.{OpCode, Externals, Interpreter}
use tevm.Instrument.Bug.{Bug, BugType, InstrumentConfig}
use tevm.Instrument.BugInspector.{
  BugInspector, enabled, add_bug, add_bug_by, add_coverage, add_storage_bug, record_seen_address,
  record_pc, inc_step_index,
}
use tevm.Instrument.BugInspector.Arith.{possible_truncation}
use tevm.Instrument.BugInspector.Checks.{
  first_two, report, report_if, end_add, end_mul, end_sub, end_mod, end_div, end_addmod, end_exp,
  end_and, end_sstore, end_sload,
}
use tevm.Instrument.BugInspector.Control.{
  end_call, update_heuristics, end_jumpi, end_create, end_keccak256,
}
use tevm.Instrument.BugInspector.Distance.{end_lt, end_gt, end_slt, end_sgt, end_eq}
use tevm.Instrument.BugInspector.Step.{step}
use tevm.Instrument.BugInspector.StepEnd.{dispatch, arrive, step_end}
use tevm.Prelude.{
  ℕ, ◌≡◌, refl, sym, ap, ◌∙◌, inl, inr, Bool, List, Option, none, some, arith, Bool-cases, HashMap,
}
use tevm.Prelude.Outcome.{ok, ok-injective}

-- the created and the managed addresses, the overrides and the configuration
abbrev pub fixed : BugInspector → List ℕ × HashMap (List ℕ) × HashMap ℕ × InstrumentConfig
fixed s =
    (s.created_addresses, s.managed_addresses, s.create_address_overrides, s.instrument_config)

fixed-add_bug_by :
    (t : BugType) (bug : Bug) (s : BugInspector) → fixed (add_bug_by t bug s) ≡ fixed s
unfolding add_coverage add_storage_bug
fixed-add_bug_by t bug s = ground arith

fixed-record_seen_address : (a : ℕ) (s : BugInspector) → fixed (record_seen_address a s).1 ≡ fixed s
unfolding record_seen_address
fixed-record_seen_address a s = ground arith

module _ (ext : Externals) (i : ℕ) where
  fixed-report :
      (op : OpCode) (t : BugType) (s : BugInspector) → fixed (report ext op i t s) ≡ fixed s
  unfolding report add_bug
  fixed-report op t s = fixed-add_bug_by t _ s

  fixed-report_if :
      (op : OpCode) (found : Bool) (t : BugType) (s : BugInspector)
      → fixed (report_if ext op i found t s) ≡ fixed s
  unfolding report_if
  fixed-report_if op found t s = ground (arith, fixed-report op t s)

  fixed-end_call :
      (op : OpCode) (s : BugInspector) {s' : BugInspector}
      → end_call ext op i s ≡ ok s'
      → fixed s' ≡ fixed s
  unfolding end_call
  fixed-end_call op s e = grind (arith, e, fixed-report)

  fixed-end_exp :
      (op : OpCode) (top : Option ℕ) (s : BugInspector) {s' : BugInspector}
      → end_exp ext op i top s ≡ ok s'
      → fixed s' ≡ fixed s
  unfolding end_exp
  fixed-end_exp op top s e = grind (arith, e, fixed-report_if)

  fixed-update_heuristics :
      (op : OpCode) (address dest : ℕ) (cond : Bool) (s : BugInspector)
      → fixed (update_heuristics ext op i address dest cond s) ≡ fixed s
  unfolding update_heuristics
  fixed-update_heuristics op address dest cond s = grind (arith, fixed-report)

  fixed-end_jumpi :
      (op : OpCode) (address : ℕ) (s : BugInspector) {s' : BugInspector}
      → end_jumpi ext op i address s ≡ ok s'
      → fixed s' ≡ fixed s
  unfolding end_jumpi
  fixed-end_jumpi op address s e = grind (arith, e, fixed-update_heuristics)

  fixed-end_keccak256 :
      (interp : Interpreter) (s : BugInspector) {s' : BugInspector}
      → end_keccak256 interp s ≡ ok s'
      → fixed s' ≡ fixed s
  unfolding end_keccak256
  fixed-end_keccak256 interp s e = ground (arith, e)

  fixed-end_create :
      (op : OpCode) (creates : Bool) (top : Option ℕ) (s : BugInspector)
      → fixed (end_create ext op i creates top s) ≡ fixed s
  unfolding end_create
  fixed-end_create op creates top s = grind (arith, fixed-report, fixed-record_seen_address)

  fixed-end_and : (op : OpCode) (s : BugInspector) → fixed (end_and ext op i s) ≡ fixed s
  unfolding end_and
  fixed-end_and op s = go (first_two s.inputs) refl
    where
      go : (o : Option (ℕ × ℕ)) → first_two s.inputs ≡ o → fixed (end_and ext op i s) ≡ fixed s
      go none e = rw (e, end_and) refl
      go (some (a, b)) e =
          rw (e, end_and)
            (fixed-report_if op (possible_truncation a b) BugType.possible_integer_truncation s)

module _ (ext : Externals) where
  fixed-dispatch :
      (o : Option OpCode) (interp : Interpreter) (i : ℕ) (s : BugInspector) {s' : BugInspector}
      → dispatch ext o interp i s ≡ ok s'
      → fixed s' ≡ fixed s
  unfolding dispatch end_add end_mul end_sub end_mod end_div end_addmod end_sstore end_sload end_lt
      end_gt end_slt end_sgt end_eq
  fixed-dispatch (some OpCode.exp) interp i s e = fixed-end_exp ext i OpCode.exp _ s e
  fixed-dispatch (some OpCode.call) interp i s e = fixed-end_call ext i OpCode.call s e
  fixed-dispatch (some OpCode.callcode) interp i s e = fixed-end_call ext i OpCode.callcode s e
  fixed-dispatch (some OpCode.delegatecall) interp i s e =
      fixed-end_call ext i OpCode.delegatecall s e
  fixed-dispatch (some OpCode.staticcall) interp i s e = fixed-end_call ext i OpCode.staticcall s e
  fixed-dispatch (some OpCode.jumpi) interp i s e = fixed-end_jumpi ext i OpCode.jumpi _ s e
  fixed-dispatch (some OpCode.keccak256) interp i s e = fixed-end_keccak256 ext i interp s e
  fixed-dispatch (some OpCode.selfdestruct) interp i s e = grind (arith, e, fixed-end_create ext i)
  fixed-dispatch (some OpCode.create) interp i s e = grind (arith, e, fixed-end_create ext i)
  fixed-dispatch (some OpCode.create2) interp i s e = grind (arith, e, fixed-end_create ext i)
  fixed-dispatch (some OpCode.and) interp i s e =
      ap fixed (sym (ok-injective e)) ∙ fixed-end_and ext i OpCode.and s
  fixed-dispatch (some _) interp i s e = grind (arith, e, fixed-report ext i, fixed-report_if ext i)
  fixed-dispatch none interp i s e = ground (arith, e)

  fixed-arrive : (interp : Interpreter) (s : BugInspector) → fixed (arrive ext interp s).1 ≡ fixed s
  unfolding arrive record_pc
  fixed-arrive interp s = ground (arith, fixed-record_seen_address interp.target_address s)

  pub fixed-step_end :
      (interp : Interpreter) (s : BugInspector) {s' : BugInspector}
      → step_end ext interp s ≡ ok s'
      → fixed s' ≡ fixed s
  unfolding step_end
  fixed-step_end interp s {s'} e = elim (Bool-cases (enabled s)) [
    | inl on ↦
        let (i, arrived) = arrive ext interp s in
        let dispatched : dispatch ext s.opcode interp i arrived ≡ ok s' = ground (arith, e, on) in
        fixed-dispatch s.opcode interp i arrived dispatched ∙ fixed-arrive interp s
    | inr off ↦ ground (arith, e, off)
  ]

  pub fixed-step : (interp : Interpreter) (s : BugInspector) → fixed (step ext interp s) ≡ fixed s
  unfolding step inc_step_index
  fixed-step interp s = ground arith
