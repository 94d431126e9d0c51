-- ===== src/Instrument/BugInspector/Faults.antt =====
-- src/instrument/bug_inspector.rs: the unchecked conversions, slices and divisions of `step_end`.
use tevm.External.{OpCode, Externals, Interpreter}
use tevm.Instrument.Bug.{BugType}
use tevm.Instrument.BugInspector.{BugInspector, enabled, record_seen_address}
use tevm.Instrument.BugInspector.Arith.{exp_overflow}
use tevm.Instrument.BugInspector.Checks.{first_two, report_if, end_exp}
use tevm.Instrument.BugInspector.Control.{is_call_with_value, end_call, end_jumpi, end_keccak256}
use tevm.Instrument.BugInspector.Cycle.{inputs-arrive}
use tevm.Instrument.BugInspector.Overflow.{exp_overflow-eq-power, exp_overflow-zero_base}
use tevm.Instrument.BugInspector.StepEnd.{step_end, arrive, dispatch}
use tevm.Prelude.{
  ℕ, zero, suc, ◌+◌, ◌%◌, ◌^◌, ◌≡◌, refl, ◌∙◌, Bool, true, false, ◌&&◌, List, Option, none, some,
  arith, ltb, ◌==◌, Bool-cases, inl, inr, length, get_elem?, if◌then◌else◌, is_some,
}
use tevm.Prelude.Outcome.{Outcome, ok, err, panic, and_then}
use tevm.Words.{u64_max}

-- the first two inputs fail the test
abbrev two_fail : Option (ℕ × ℕ) → (ℕ → ℕ → Bool) → Bool
two_fail none p = false
two_fail (some (a, b)) p = p a b

abbrev both_fail : Option ℕ → Option ℕ → Bool
both_fail (some in_len) (some _) = ltb u64_max in_len
both_fail _ _ = false

-- The faults of each instruction, on the operands that `step` kept: a power of zero, an input
-- length or a destination of 2^64 or more, and a hashed range that the memory does not hold.
abbrev pub faults : Option OpCode → Interpreter → Bool → List ℕ → Bool
faults (some OpCode.exp) interp sha3 inputs =
    is_some (get_elem? interp.stack 0) && two_fail (first_two inputs) (λ a b. a == 0 && ltb 0 b)
faults (some OpCode.call) interp sha3 inputs = both_fail (get_elem? inputs 4) (get_elem? inputs 1)
faults (some OpCode.callcode) interp sha3 inputs =
    both_fail (get_elem? inputs 4) (get_elem? inputs 1)
faults (some OpCode.delegatecall) interp sha3 inputs =
    both_fail (get_elem? inputs 3) (get_elem? inputs 1)
faults (some OpCode.staticcall) interp sha3 inputs =
    both_fail (get_elem? inputs 3) (get_elem? inputs 1)
faults (some OpCode.jumpi) interp sha3 inputs =
    two_fail (first_two inputs) (λ counter _. ltb u64_max counter)
faults (some OpCode.keccak256) interp sha3 inputs =
    sha3
    && is_some (get_elem? interp.stack 0)
    && two_fail (first_two inputs)
        (λ offset size. ltb (length interp.memory) (offset % 2 ^ 64 + size % 2 ^ 64))
faults _ interp sha3 inputs = false

-- How a call ended: `some true` is a panic, `some false` a value, and `none` an error.
abbrev pub panicked {ℓ} : {A : Type ℓ} → Outcome A → Option Bool
panicked (ok _) = some false
panicked panic = some true
panicked (err _) = none

exp_overflow-panicked : (a b r : ℕ) → panicked (exp_overflow a b r) ≡ some (a == 0 && ltb 0 b)
exp_overflow-panicked zero zero r = unfold exp_overflow in ground arith
exp_overflow-panicked zero (suc b) r =
    rw (exp_overflow-zero_base (suc b) r (omega arith)) (ground arith)
exp_overflow-panicked (suc a) b r =
    rw (exp_overflow-eq-power (suc a) b r (omega arith)) (ground arith)

panicked-and_then :
    {A B : Type 0} (m : Outcome A) (f : A → B) → panicked (and_then m (λ a. ok (f a))) ≡ panicked m
panicked-and_then (ok a) f = refl
panicked-and_then (err e) f = refl
panicked-and_then panic f = refl

module _ (ext : Externals) (i : ℕ) where
  end_call-panicked :
      (op : OpCode) (s : BugInspector)
      → panicked (end_call ext op i s)
        ≡ some (
            both_fail
              (get_elem? s.inputs (if is_call_with_value op then 4 else 3))
              (get_elem? s.inputs 1))
  unfolding end_call
  end_call-panicked op s = ground arith

  end_exp-panicked :
      (op : OpCode) (top : Option ℕ) (s : BugInspector)
      → panicked (end_exp ext op i top s)
        ≡ some (is_some top && two_fail (first_two s.inputs) (λ a b. a == 0 && ltb 0 b))
  unfolding end_exp
  end_exp-panicked op none s = refl
  end_exp-panicked op (some r) s = go (first_two s.inputs) refl
    where
      go :
          (o : Option (ℕ × ℕ))
          → first_two s.inputs ≡ o
          → panicked (end_exp ext op i (some r) s) ≡ some (two_fail o (λ a b. a == 0 && ltb 0 b))
      go none e = rw (e, end_exp)
      go (some (a, b)) e =
          rw (e, end_exp)
            (panicked-and_then (exp_overflow a b r)
                (λ found. report_if ext op i found BugType.integer_overflow s)
              ∙ exp_overflow-panicked a b r)

  end_jumpi-panicked :
      (op : OpCode) (address : ℕ) (s : BugInspector)
      → panicked (end_jumpi ext op i address s)
        ≡ some (two_fail (first_two s.inputs) (λ counter _. ltb u64_max counter))
  unfolding end_jumpi
  end_jumpi-panicked op address s = ground arith

end_keccak256-panicked :
    (interp : Interpreter) (s : BugInspector)
    → panicked (end_keccak256 interp s)
      ≡ some (
          s.instrument_config.record_sha3_mapping
          && is_some (get_elem? interp.stack 0)
          && two_fail
              (first_two s.inputs)
              (λ offset size. ltb (length interp.memory) (offset % 2 ^ 64 + size % 2 ^ 64)))
unfolding end_keccak256
end_keccak256-panicked interp s = ground arith

module _ (ext : Externals) where
  dispatch-panicked :
      (o : Option OpCode) (interp : Interpreter) (i : ℕ) (s : BugInspector)
      → panicked (dispatch ext o interp i s)
        ≡ some (faults o interp s.instrument_config.record_sha3_mapping s.inputs)
  unfolding dispatch
  dispatch-panicked (some OpCode.exp) interp i s =
      end_exp-panicked ext i OpCode.exp (get_elem? interp.stack 0) s
  dispatch-panicked (some OpCode.call) interp i s = end_call-panicked ext i OpCode.call s
  dispatch-panicked (some OpCode.callcode) interp i s = end_call-panicked ext i OpCode.callcode s
  dispatch-panicked (some OpCode.delegatecall) interp i s =
      end_call-panicked ext i OpCode.delegatecall s
  dispatch-panicked (some OpCode.staticcall) interp i s =
      end_call-panicked ext i OpCode.staticcall s
  dispatch-panicked (some OpCode.jumpi) interp i s =
      end_jumpi-panicked ext i OpCode.jumpi interp.target_address s
  dispatch-panicked (some OpCode.keccak256) interp i s = end_keccak256-panicked interp s
  dispatch-panicked (some _) interp i s = refl
  dispatch-panicked none interp i s = refl

  config-record_seen_address :
      (a : ℕ) (s : BugInspector)
      → (record_seen_address a s).1.instrument_config ≡ s.instrument_config
  unfolding record_seen_address
  config-record_seen_address a s = ground arith

  config-arrive :
      (interp : Interpreter) (s : BugInspector)
      → (arrive ext interp s).1.instrument_config ≡ s.instrument_config
  unfolding arrive
  config-arrive interp s = ground arith

  -- `step_end` returns a state or panics, and never an error. It panics exactly if the inspector
  -- is enabled and the instruction has one of the faults: EXP of a zero base by a nonzero
  -- exponent with a result on the stack, a call with an input length or a JUMPI with a
  -- destination of 2^64 or more, or, while mappings of hashes are recorded, a KECCAK256 with a
  -- result on the stack of a range past the end of the memory.
  pub step_end-panicked :
      (interp : Interpreter) (s : BugInspector)
      → panicked (step_end ext interp s)
        ≡ some
            (enabled s && faults s.opcode interp s.instrument_config.record_sha3_mapping s.inputs)
  unfolding step_end
  step_end-panicked interp s = elim (Bool-cases (enabled s)) [
    | inl on ↦ ground (
      arith,
      dispatch-panicked s.opcode interp (arrive ext interp s).0 (arrive ext interp s).1,
      inputs-arrive ext interp s,
      config-arrive interp s,
    )
    | inr off ↦ ground arith
  ]
