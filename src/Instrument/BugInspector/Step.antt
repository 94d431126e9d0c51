-- ===== src/Instrument/BugInspector/Step.antt =====
-- src/instrument/bug_inspector.rs: the hook `step`, which runs before an instruction.
use tevm.External.{OpCode, Externals, Interpreter}
use tevm.Instrument.BugInspector.{BugInspector, enabled, inc_step_index}
use tevm.Prelude.{
  ℕ, zero, suc, ◌+◌, Bool, true, false, List, [], Option, none, some, get_elem?, push,
  if◌then◌else◌,
}

-- the opcodes whose stack inputs are kept
unfoldable pub is_interesting : OpCode → Bool
is_interesting OpCode.jumpi = true
is_interesting OpCode.call = true
is_interesting OpCode.callcode = true
is_interesting OpCode.delegatecall = true
is_interesting OpCode.staticcall = true
is_interesting OpCode.sstore = true
is_interesting OpCode.sload = true
is_interesting OpCode.add = true
is_interesting OpCode.sub = true
is_interesting OpCode.mul = true
is_interesting OpCode.div = true
is_interesting OpCode.sdiv = true
is_interesting OpCode.modulo = true
is_interesting OpCode.smod = true
is_interesting OpCode.exp = true
is_interesting OpCode.lt = true
is_interesting OpCode.slt = true
is_interesting OpCode.gt = true
is_interesting OpCode.sgt = true
is_interesting OpCode.eq = true
is_interesting OpCode.and = true
is_interesting OpCode.addmod = true
is_interesting OpCode.mulmod = true
is_interesting OpCode.keccak256 = true
is_interesting _ = false

-- `for i in 0..num_inputs { if let Ok(v) = peek(i) { push(v) } else { break } }`, on the rounds
-- left; `inputs` holds what was pushed so far
unfoldable pub peek_loop : ℕ → ℕ → List ℕ → List ℕ → List ℕ
peek_loop zero i stack inputs = inputs
peek_loop (suc rounds) i stack inputs = elim (get_elem? stack i) [
  | none ↦ inputs
  | some v ↦ peek_loop rounds (i + 1) stack (push inputs v)
]

abbrev pub is_eq : Option OpCode → Bool
is_eq (some OpCode.eq) = true
is_eq _ = false

abbrev pub is_sub : Option OpCode → Bool
is_sub (some OpCode.sub) = true
is_sub _ = false

module _ (ext : Externals) where
  -- the inputs of an interesting opcode, and none of any other
  unfoldable pub inputs_of : Option OpCode → List ℕ → List ℕ
  unfolding is_interesting peek_loop
  inputs_of none stack = []
  inputs_of (some op) stack =
      if is_interesting op then peek_loop (ext.opcode_inputs op) 0 stack [] else []

  unfoldable pub step : Interpreter → BugInspector → BugInspector
  unfolding inputs_of inc_step_index
  step interp s =
      if enabled s
      then (let opcode = ext.opcode_new interp.current_opcode in
          inc_step_index (record s {
            opcode = opcode;
            pc = interp.program_counter;
            last_index_eq = if is_eq opcode then s.step_index else s.last_index_eq;
            last_index_sub = if is_sub opcode then s.step_index else s.last_index_sub;
            inputs = inputs_of opcode interp.stack;
          }))
      else s
