-- ===== src/Instrument/BugInspector/Cycle.antt =====
-- One instruction through both hooks of src/instrument/bug_inspector.rs: `step` before it, and
-- `step_end` after it has replaced its operands by its result.
use mathlib.Core.Path.{ap₂}
use tevm.External.{OpCode, Externals, Interpreter}
use tevm.Instrument.Bug.{BugType}
use tevm.Instrument.BugInspector.{BugInspector, enabled, record_seen_address}
use tevm.Instrument.BugInspector.Step.{is_interesting, step, peek_loop, inputs_of}
use tevm.Instrument.BugInspector.StepEnd.{step_end, arrive, dispatch}
use tevm.Instrument.BugInspector.Checks.{report_if, end_add, end_mul, end_sub, end_exp}
use tevm.Instrument.BugInspector.Arith.{exp_overflow}
use tevm.Instrument.BugInspector.Overflow.{mul_overflow-eq-product, exp_overflow-eq-power}
use tevm.Prelude.{
  ℕ, ◌+◌, ◌-◌, ◌*◌, ◌^◌, ◌%◌, ◌<◌, ◌≡◌, refl, ap, ◌∙◌, Bool, true, ◌||◌, List, [], ◌∷◌, some, arith,
  ltb,
}
use tevm.Prelude.Outcome.{ok}
use tevm.Words.{u256_max, u256_size}

-- The arithmetic of the machine: the word that an instruction leaves for two operands, whether the
-- exact result does not fit, and the signal for that.
pub data Computes (a b : ℕ) : OpCode → ℕ → Bool → BugType → Type 0 where
  adds :
      Computes a b OpCode.add ((a + b) % u256_size) (ltb u256_max (a + b)) BugType.integer_overflow
  multiplies :
      Computes a b OpCode.mul (a * b % u256_size) (ltb u256_max (a * b)) BugType.integer_overflow
  subtracts :
      Computes a b OpCode.sub
        ((a + u256_size - b) % u256_size)
        (ltb a b)
        BugType.integer_sub_underflow
  raises :
      0 < a
      → Computes a b OpCode.exp (a ^ b % u256_size) (ltb u256_max (a ^ b)) BugType.integer_overflow

add_overflow-eq-sum :
    (a b : ℕ)
    → a < u256_size
    → b < u256_size
    → (ltb ((a + b) % u256_size) a || ltb ((a + b) % u256_size) b) ≡ ltb u256_max (a + b)
add_overflow-eq-sum a b ha hb = ground arith

exp_overflow_machine :
    (a b : ℕ) → 0 < a → exp_overflow a b (a ^ b % u256_size) ≡ ok (ltb u256_max (a ^ b))
exp_overflow_machine a b h = rw (exp_overflow-eq-power a b (a ^ b % u256_size) h) (ground arith)

module _ (ext : Externals) where
  -- the operands that `step` keeps of a two-operand instruction
  peek_two : (a b : ℕ) (rest : List ℕ) → peek_loop 2 0 (a ∷ b ∷ rest) [] ≡ a ∷ b ∷ []
  unfolding peek_loop
  peek_two a b rest = refl

  inputs-record_seen_address :
      (a : ℕ) (s : BugInspector) → (record_seen_address a s).1.inputs ≡ s.inputs
  unfolding record_seen_address
  inputs-record_seen_address a s = ground arith

  pub inputs-arrive :
      (interp : Interpreter) (s : BugInspector) → (arrive ext interp s).1.inputs ≡ s.inputs
  unfolding arrive
  inputs-arrive interp s = ground arith

  step-opcode :
      (before : Interpreter) (s : BugInspector)
      → enabled s ≡ true
      → (step ext before s).opcode ≡ ext.opcode_new before.current_opcode
  unfolding step
  step-opcode before s on = ground arith

  step-enabled : (before : Interpreter) (s : BugInspector) → enabled (step ext before s) ≡ enabled s
  unfolding step
  step-enabled before s = ground arith

  step-inputs :
      (before : Interpreter) (s : BugInspector)
      → enabled s ≡ true
      → (step ext before s).inputs
        ≡ inputs_of ext (ext.opcode_new before.current_opcode) before.stack
  unfolding step
  step-inputs before s on = ground arith

  inputs_of-two :
      (op : OpCode) (a b : ℕ) (rest : List ℕ)
      → is_interesting op ≡ true
      → ext.opcode_inputs op ≡ 2
      → inputs_of ext (some op) (a ∷ b ∷ rest) ≡ a ∷ b ∷ []
  unfolding inputs_of
  inputs_of-two op a b rest k n = rw (k, n) refl

  -- the arms for the four instructions, on a state that holds the operands
  dispatch-Computes :
      (a b : ℕ) {op : OpCode} {r : ℕ} {over : Bool} {signal : BugType} (after : Interpreter)
      (rest : List ℕ) (i : ℕ) (s : BugInspector)
      → Computes a b op r over signal
      → a < u256_size
      → b < u256_size
      → after.stack ≡ r ∷ rest
      → s.inputs ≡ a ∷ b ∷ []
      → dispatch ext (some op) after i s ≡ ok (report_if ext op i over signal s)
  unfolding dispatch end_add end_mul end_sub end_exp
  dispatch-Computes a b after rest i s adds ha hb st e =
      ground (arith, add_overflow-eq-sum a b ha hb)
  dispatch-Computes a b after rest i s multiplies ha hb st e =
      ground (arith, mul_overflow-eq-product a b)
  dispatch-Computes a b after rest i s subtracts ha hb st e = ground arith
  dispatch-Computes a b after rest i s (raises p) ha hb st e =
      ground (arith, exp_overflow_machine a b p)

  Computes-interesting :
      (a b : ℕ) {op : OpCode} {r : ℕ} {over : Bool} {signal : BugType}
      → Computes a b op r over signal
      → is_interesting op ≡ true
  unfolding is_interesting
  Computes-interesting a b adds = refl
  Computes-interesting a b multiplies = refl
  Computes-interesting a b subtracts = refl
  Computes-interesting a b (raises p) = refl

  step_end-enabled :
      (after : Interpreter) (s : BugInspector)
      → enabled s ≡ true
      → step_end ext after s
        ≡ (let (i, s') = arrive ext after s in dispatch ext s.opcode after i s')
  unfolding step_end
  step_end-enabled after s on = ground arith

  -- An ADD, MUL, SUB or EXP (of a nonzero base) of two words, through both hooks: if the
  -- inspector is enabled, the byte decodes to the opcode, the opcode has two inputs, `step` sees
  -- the operands on top of the stack and `step_end` the result in their place, then the signal is
  -- recorded exactly if the exact result does not fit the word, and nothing else is changed than
  -- what `arrive` does for every instruction.
  pub step_end-step_Computes :
      (a b : ℕ) {op : OpCode} {r : ℕ} {over : Bool} {signal : BugType} (rest : List ℕ)
      (before after : Interpreter) (s : BugInspector)
      → Computes a b op r over signal
      → a < u256_size
      → b < u256_size
      → enabled s ≡ true
      → ext.opcode_new before.current_opcode ≡ some op
      → ext.opcode_inputs op ≡ 2
      → before.stack ≡ a ∷ b ∷ rest
      → after.stack ≡ r ∷ rest
      → step_end ext after (step ext before s) ≡ (
          let (i, s') = arrive ext after (step ext before s) in
          ok (report_if ext op i over signal s'))
  step_end-step_Computes a b {op = op} rest before after s c ha hb on new two st st' =
      let s1 = step ext before s in
      let held : s1.inputs ≡ a ∷ b ∷ [] =
        step-inputs before s on
        ∙ ap₂ (inputs_of ext) new st
        ∙ inputs_of-two op a b rest (Computes-interesting a b c) two in
      step_end-enabled after s1 (step-enabled before s ∙ on)
      ∙ ap (λ o. dispatch ext o after (arrive ext after s1).0 (arrive ext after s1).1)
          (step-opcode before s on ∙ new)
      ∙ dispatch-Computes a b after rest (arrive ext after s1).0 (arrive ext after s1).1 c ha hb st'
          (inputs-arrive after s1 ∙ held)
